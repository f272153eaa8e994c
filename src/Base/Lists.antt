-- ===== src/Base/Lists.antt =====
-- Lists: the searches and updates that a query or an assignment makes, and their laws.
use Prim.Native.Nat.{ℕ, suc, ◌+◌, ◌≤◌}
use mathlib.Core.Path.{◌≡◌}
use mathlib.Core.Bool.{Bool, true, false, ◌&&◌, ◌||◌}
use mathlib.Core.Option.{Option, none, some}
use mathlib.Core.List.{List, [], ◌∷◌, ◌++◌}
use native.Mathlib.Omega.{arith}
use mathlib.Core.Logic.{inl, inr}
use lsa.Base.Tests.{if◌then◌else◌, Bool-cases, ltb}

module _ {ℓ} {A : Type ℓ} where
  abbrev pub length : List A → ℕ
  length [] = 0
  length (x ∷ xs) = suc (length xs)

  -- `all(p(x) for x in xs)` and `any(...)`
  abbrev pub all : (A → Bool) → List A → Bool
  all p [] = true
  all p (x ∷ xs) = p x && all p xs

  abbrev pub any : (A → Bool) → List A → Bool
  any p [] = false
  any p (x ∷ xs) = p x || any p xs

  -- The first row that a query selects.
  abbrev pub find : (A → Bool) → List A → Option A
  find p [] = none
  find p (x ∷ xs) = let rest = find p xs in if p x then some x else rest

  -- The value of `{key: row for row in rows}` at a key: the last row that passes.
  abbrev pub find_last : (A → Bool) → List A → Option A
  find_last p [] = none
  find_last p (x ∷ xs) = elim (find_last p xs) [
    | some y ↦ some y
    | none ↦ if p x then some x else none
  ]

  -- The rows that a query selects, in order.
  abbrev pub select : (A → Bool) → List A → List A
  select p [] = []
  select p (x ∷ xs) = let rest = select p xs in if p x then x ∷ rest else rest

  -- An assignment to every row that a query selects.
  abbrev pub update : (A → Bool) → (A → A) → List A → List A
  update p f [] = []
  update p f (x ∷ xs) = (if p x then f x else x) ∷ update p f xs

  -- An assignment to the one row that a query returns.
  abbrev pub update_first : (A → Bool) → (A → A) → List A → List A
  update_first p f [] = []
  update_first p f (x ∷ xs) = let rest = update_first p f xs in if p x then f x ∷ xs else x ∷ rest

  -- What holds of every row.
  abbrev pub All {κ} : (A → Type κ) → List A → Type κ
  All P [] = Unit
  All P (x ∷ xs) = P x × All P xs

module _ {ℓ κ} {A : Type ℓ} (P : A → Type κ) where
  pub find-All : (p : A → Bool) (xs : List A) {x : A} → All P xs → find p xs ≡ some x → P x
  find-All p [] h e = cc
  find-All p (y ∷ ys) {x} h e = ground (arith, find-All p ys {x = x} h.1)

  pub All-append : (xs ys : List A) → All P xs → All P ys → All P (xs ++ ys)
  All-append [] ys hx hy = hy
  All-append (x ∷ xs) ys hx hy = (hx.0, All-append xs ys hx.1 hy)

  pub update-All :
      (p : A → Bool) (f : A → A) (xs : List A)
      → ((x : A) → p x ≡ true → P x → P (f x))
      → All P xs
      → All P (update p f xs)
  update-All p f [] keep h = tt
  update-All p f (x ∷ xs) keep h = ground (arith, keep x, update-All p f xs keep h.1)

  pub update_first-All :
      (p : A → Bool) (f : A → A) (xs : List A)
      → ((x : A) → find p xs ≡ some x → P x → P (f x))
      → All P xs
      → All P (update_first p f xs)
  update_first-All p f [] keep h = tt
  update_first-All p f (x ∷ xs) keep h = elim (Bool-cases (p x)) [
    | inl hit ↦ rw hit (keep x (rw hit) h.0, h.1)
    | inr miss ↦ rw miss (h.0, update_first-All p f xs (λ y e. keep y (rw miss e)) h.1)
  ]

module _ {ℓ} {A : Type ℓ} where
  -- What `find` returns passes the test.
  pub find_sound : (p : A → Bool) (xs : List A) {x : A} → find p xs ≡ some x → p x ≡ true
  find_sound p [] e = cc
  find_sound p (y ∷ ys) {x} e = ground (arith, find_sound p ys {x = x})

  pub length-append : (xs ys : List A) → length (xs ++ ys) ≡ length xs + length ys
  length-append [] ys = omega arith
  length-append (x ∷ xs) ys = omega (arith, length-append xs ys)

  -- An update that makes no more rows pass a test selects no more of them.
  pub length-select-update :
      (p q : A → Bool) (f : A → A) (xs : List A)
      → ((x : A) → q x ≡ true → p (f x) ≡ true → p x ≡ true)
      → length (select p (update q f xs)) ≤ length (select p xs)
  length-select-update p q f [] h = omega arith
  length-select-update p q f (x ∷ xs) h = ground (arith, h x, length-select-update p q f xs h)

  pub length-select-update_first :
      (p q : A → Bool) (f : A → A) (xs : List A)
      → ((x : A) → find q xs ≡ some x → p (f x) ≡ true → p x ≡ true)
      → length (select p (update_first q f xs)) ≤ length (select p xs)
  length-select-update_first p q f [] h = omega arith
  length-select-update_first p q f (x ∷ xs) h = elim (Bool-cases (q x)) [
    | inl hit ↦ rw hit (ground (arith, h x (rw hit)))
    | inr miss ↦
        rw miss (ground (arith, length-select-update_first p q f xs (λ y e. h y (rw miss e))))
  ]

  pub length-select-append :
      (p : A → Bool) (xs : List A) (x : A)
      → length (select p (xs ++ (x ∷ []))) ≡ length (select p xs) + (if p x then 1 else 0)
  length-select-append p [] x = ground arith
  length-select-append p (y ∷ xs) x = ground (arith, length-select-append p xs x)

  pub length-select-none :
      (p : A → Bool) (xs : List A) → any p xs ≡ false → length (select p xs) ≡ 0
  length-select-none p [] h = omega arith
  length-select-none p (x ∷ xs) h = ground (arith, length-select-none p xs)

module _ {ℓ} {A : Type ℓ} where
  pub find-append :
      (p : A → Bool) (xs ys : List A) {x : A} → find p xs ≡ some x → find p (xs ++ ys) ≡ some x
  find-append p [] ys e = cc
  find-append p (y ∷ xs) ys {x} e = ground (arith, find-append p xs ys {x = x})

  -- A row that the assignment's query does not return stays as it is.
  pub find-update_first :
      (c p q : A → Bool) (f : A → A) (xs : List A) {x : A}
      → find p xs ≡ some x
      → c x ≡ true
      → ((y : A) → find q xs ≡ some y → c y ≡ false)
      → ((y : A) → p (f y) ≡ p y)
      → find p (update_first q f xs) ≡ some x
  find-update_first c p q f [] e cx other same = cc
  find-update_first c p q f (y ∷ xs) {x} e cx other same = elim (Bool-cases (q y)) [
    | inl hit ↦ rw hit (ground (arith, other y (rw hit), same y))
    | inr miss ↦ rw miss (elim (Bool-cases (p y)) [
      | inl here ↦ ground arith
      | inr on ↦
          rw on (find-update_first c p q f xs (rw on at e) cx (λ z h. other z (rw miss h)) same)
    ])
  ]

module _ {ℓ} {A : Type ℓ} (key : A → ℕ) where
  -- A stable insertion sort by a number, as `ORDER BY key`.
  abbrev pub insert_at : A → List A → List A
  insert_at x [] = x ∷ []
  insert_at x (y ∷ ys) =
      let rest = insert_at x ys in if ltb (key y) (key x) then y ∷ rest else x ∷ y ∷ ys

  abbrev pub order_by : List A → List A
  order_by [] = []
  order_by (x ∷ xs) = insert_at x (order_by xs)

  insert_at-All {κ} :
      (P : A → Type κ) (x : A) (xs : List A) → P x → All P xs → All P (insert_at x xs)
  insert_at-All P x [] px h = (px, tt)
  insert_at-All P x (y ∷ ys) px h = elim (Bool-cases (ltb (key y) (key x))) [
    | inl later ↦ rw later (h.0, insert_at-All P x ys px h.1)
    | inr here ↦ rw here (px, h)
  ]

  -- Sorting loses no property of the rows.
  pub order_by-All {κ} : (P : A → Type κ) (xs : List A) → All P xs → All P (order_by xs)
  order_by-All P [] h = tt
  order_by-All P (x ∷ xs) h = insert_at-All P x (order_by xs) h.0 (order_by-All P xs h.1)

module _ {ℓ} {A : Type ℓ} where
  -- What a query selects passes its test.
  pub select_sound : (p : A → Bool) (xs : List A) → All (λ x. p x ≡ true) (select p xs)
  select_sound p [] = tt
  select_sound p (x ∷ xs) = elim (Bool-cases (p x)) [
    | inl hit ↦ rw hit (hit, select_sound p xs)
    | inr miss ↦ rw miss (select_sound p xs)
  ]

module _ {ℓ} {A : Type ℓ} where
  pub All-map {κ ι} :
      {P : A → Type κ} {Q : A → Type ι} (xs : List A) → ((x : A) → P x → Q x) → All P xs → All Q xs
  All-map [] f h = tt
  All-map (x ∷ xs) f h = (f x h.0, All-map xs f h.1)

module _ {ℓ} {A : Type ℓ} (key : A → ℕ) where
  -- Each row's key is at most those after it.
  abbrev pub IsSorted : List A → Type 0
  IsSorted [] = Unit
  IsSorted (x ∷ xs) = All (λ y. key x ≤ key y) xs × IsSorted xs

  insert_at-IsSorted : (x : A) (xs : List A) → IsSorted xs → IsSorted (insert_at key x xs)
  insert_at-IsSorted x [] h = (tt, tt)
  insert_at-IsSorted x (y ∷ ys) h = elim (Bool-cases (ltb (key y) (key x))) [
    | inl later ↦ rw later (
      insert_at-All key (λ z. key y ≤ key z) x ys (ground arith) h.0,
      insert_at-IsSorted x ys h.1,
    )
    | inr here ↦
        let first : key x ≤ key y = ground arith in
        rw here ((first, All-map ys (λ z le. omega (arith, first, le)) h.0), h)
  ]

  pub order_by-IsSorted : (xs : List A) → IsSorted (order_by key xs)
  order_by-IsSorted [] = tt
  order_by-IsSorted (x ∷ xs) = insert_at-IsSorted x (order_by key xs) (order_by-IsSorted xs)
