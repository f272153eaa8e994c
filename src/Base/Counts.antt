-- ===== src/Base/Counts.antt =====
-- How many rows a query selects, over the updates and the joins of a table.
use Prim.Native.Nat.{◌+◌, ◌≤◌}
use Prim.Native.String.{String}
use mathlib.Core.Path.{◌≡◌}
use mathlib.Core.Logic.{inl, inr}
use mathlib.Core.Bool.{Bool, true, false, ◌||◌}
use mathlib.Core.Option.{some}
use mathlib.Core.List.{List, [], ◌∷◌, ◌++◌, map}
use native.Mathlib.Omega.{arith}
use lsa.Base.Tests.{Bool-cases}
use lsa.Base.Lists.{length, any, find, select, update_first, All}
use lsa.Base.Texts.{sort_by, insert_by}

module _ {ℓ} {A : Type ℓ} where
  -- A query that passes fewer of the rows selects no more of them.
  pub length-select-le :
      (p q : A → Bool) (xs : List A)
      → All (λ x. p x ≡ true → q x ≡ true) xs
      → length (select p xs) ≤ length (select q xs)
  length-select-le p q [] h = omega arith
  length-select-le p q (x ∷ xs) h = ground (arith, h.0, length-select-le p q xs h.1)

  pub All-of {κ} : {P : A → Type κ} (xs : List A) → ((x : A) → P x) → All P xs
  All-of [] h = tt
  All-of (x ∷ xs) h = (h x, All-of xs h)

  pub length-select-join :
      (p : A → Bool) (xs ys : List A)
      → length (select p (xs ++ ys)) ≡ length (select p xs) + length (select p ys)
  length-select-join p [] ys = omega arith
  length-select-join p (x ∷ xs) ys = ground (arith, length-select-join p xs ys)

  pub length-select-select :
      (p q : A → Bool) (xs : List A) → length (select p (select q xs)) ≤ length (select p xs)
  length-select-select p q [] = omega arith
  length-select-select p q (x ∷ xs) = ground (arith, length-select-select p q xs)

  pub length-select-no :
      (p : A → Bool) (xs : List A) → All (λ x. p x ≡ false) xs → length (select p xs) ≡ 0
  length-select-no p [] h = omega arith
  length-select-no p (x ∷ xs) h = ground (arith, h.0, length-select-no p xs h.1)

  pub any-append : (p : A → Bool) (xs ys : List A) → any p (xs ++ ys) ≡ (any p xs || any p ys)
  any-append p [] ys = ground arith
  any-append p (x ∷ xs) ys = ground (arith, any-append p xs ys)

  pub any-le :
      (p q : A → Bool) (xs : List A)
      → ((x : A) → p x ≡ true → q x ≡ true)
      → any q xs ≡ false
      → any p xs ≡ false
  any-le p q [] h e = ground arith
  any-le p q (x ∷ xs) h e = ground (arith, h x, any-le p q xs h)

  -- An assignment that lets no new row pass leaves a test on the table false where it was.
  pub any-update_first :
      (p q : A → Bool) (f : A → A) (xs : List A)
      → ((x : A) → find q xs ≡ some x → p (f x) ≡ true → p x ≡ true)
      → any p (update_first q f xs) ≡ true
      → any p xs ≡ true
  any-update_first p q f [] h e = cc
  any-update_first p q f (x ∷ xs) h e = elim (Bool-cases (q x)) [
    | inl hit ↦ ground (arith, h x (rw hit))
    | inr miss ↦ ground (arith, any-update_first p q f xs (λ y e. h y (rw miss e)))
  ]

  pub any-kept :
      (p q : A → Bool) (f : A → A) (xs : List A)
      → ((x : A) → p x ≡ true → p (f x) ≡ true)
      → any p xs ≡ true
      → any p (update_first q f xs) ≡ true
  any-kept p q f [] h e = cc
  any-kept p q f (x ∷ xs) h e = ground (arith, h x, any-kept p q f xs h)

  length-select-insert_by :
      (key : A → String) (p : A → Bool) (x : A) (xs : List A)
      → length (select p (insert_by key x xs)) ≡ length (select p (x ∷ xs))
  unfolding insert_by
  length-select-insert_by key p x [] = ground arith
  length-select-insert_by key p x (y ∷ ys) = ground (arith, length-select-insert_by key p x ys)

  -- Sorting changes no count.
  pub length-select-sort_by :
      (key : A → String) (p : A → Bool) (xs : List A)
      → length (select p (sort_by key xs)) ≡ length (select p xs)
  unfolding sort_by
  length-select-sort_by key p [] = ground arith
  length-select-sort_by key p (x ∷ xs) =
      ground
        (arith, length-select-insert_by key p x (sort_by key xs), length-select-sort_by key p xs)

  length-insert_by :
      (key : A → String) (x : A) (xs : List A) → length (insert_by key x xs) ≡ length xs + 1
  unfolding insert_by
  length-insert_by key x [] = omega arith
  length-insert_by key x (y ∷ ys) = ground (arith, length-insert_by key x ys)

  pub length-sort_by : (key : A → String) (xs : List A) → length (sort_by key xs) ≡ length xs
  unfolding sort_by
  length-sort_by key [] = omega arith
  length-sort_by key (x ∷ xs) =
      omega (arith, length-insert_by key x (sort_by key xs), length-sort_by key xs)

module _ {ℓ κ} {A : Type ℓ} {B : Type κ} where
  pub length-select-map :
      (p : B → Bool) (q : A → Bool) (f : A → B) (xs : List A)
      → ((x : A) → p (f x) ≡ true → q x ≡ true)
      → length (select p (map f xs)) ≤ length (select q xs)
  length-select-map p q f [] h = omega arith
  length-select-map p q f (x ∷ xs) h = ground (arith, h x, length-select-map p q f xs h)
