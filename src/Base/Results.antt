-- ===== src/Base/Results.antt =====
-- A call that returns a value or raises. A handler that raises has committed nothing.
use Prim.Native.Nat.{ℕ}
use Prim.Native.String.{String}
use mathlib.Core.Path.{◌≡◌, refl, ap, ◌∙◌}
use mathlib.Core.Bool.{Bool, true, false, ◌&&◌}
use mathlib.Core.Option.{Option, none, some}
use mathlib.Core.List.{List, [], ◌∷◌}
use native.Mathlib.Omega.{arith}
use lsa.Base.Lists.{All, all}

-- `http` is an `HTTPException` with its status and detail. The others are the exceptions that the
-- modelled code raises or lets through, by class.
pub data Fault : Type 0 where
  http : ℕ → String → Fault
  catalog_error : String → Fault
  contract_error : String → Fault
  signing_error : String → Fault
  runtime_error : String → Fault
  type_error : Fault
  value_error : Fault
  key_error : Fault
  attribute_error : Fault
  integrity_error : Fault

-- What a call gives: its value, or what it raises.
pub data Result {ℓ} (Value : Type ℓ) : Type ℓ where
  ok : Value → Result Value
  err : Fault → Result Value

-- A statement after which the code goes on.
infixl 5 ◌>>◌
abbrev pub ◌>>◌ {ℓ} : {Value : Type ℓ} → Result (Unit {0}) → Result Value → Result Value
ok done >> rest = rest
err fault >> rest = err fault

-- An assignment from a call, and the code that reads it.
module _ {ℓ κ} {Value : Type ℓ} {Next : Type κ} where
  infixl 5 ◌>>=◌
  abbrev pub ◌>>=◌ : Result Value → (Value → Result Next) → Result Next
  err fault >>= rest = err fault
  ok value >>= rest = rest value

-- `if c: raise e`
abbrev pub raise_if : Bool → Fault → Result (Unit {0})
raise_if true e = err e
raise_if false e = ok tt

-- `if not c: raise e`
abbrev pub require : Bool → Fault → Result (Unit {0})
require true e = ok tt
require false e = err e

abbrev pub or_raise {ℓ} : {A : Type ℓ} → Option A → Fault → Result A
or_raise none e = err e
or_raise (some a) e = ok a

-- `except RemediationCatalogError as exc: raise HTTPException(409, str(exc))`
abbrev pub catalog_409 : Fault → Fault
catalog_409 (catalog_error detail) = http 409 detail
catalog_409 f = f

abbrev pub on_error {ℓ} : {A : Type ℓ} → (Fault → Fault) → Result A → Result A
on_error f (ok a) = ok a
on_error f (err e) = err (f e)

-- A chain that returned has returned at each of its calls: rules that go on with what a call gave.
module _ {ℓ κ ι} {A : Type ℓ} {B : Type κ} {P : Type ι} where
  pub after :
      (m : Result A) (f : A → Result B) {b : B}
      → (m >>= f) ≡ ok b
      → ((a : A) → m ≡ ok a → f a ≡ ok b → P)
      → P
  after (ok a) f h next = next a refl h
  after (err e) f h next = cc

module _ {ℓ ι} {B : Type ℓ} {P : Type ι} where
  pub after_check :
      (m : Result (Unit {0})) (k : Result B) {b : B}
      → (m >> k) ≡ ok b
      → (m ≡ ok tt → k ≡ ok b → P)
      → P
  after_check (ok tt) k h next = next refl h
  after_check (err e) k h next = cc

pub require-eq-ok : (b : Bool) (f : Fault) → require b f ≡ ok tt → b ≡ true
require-eq-ok true f e = refl
require-eq-ok false f e = cc

module _ {ℓ} {A : Type ℓ} where
  pub or_raise-eq-ok : (o : Option A) (f : Fault) {a : A} → or_raise o f ≡ ok a → o ≡ some a
  or_raise-eq-ok none f e = cc
  or_raise-eq-ok (some b) f e = cc

  pub on_error-eq-ok : (f : Fault → Fault) (m : Result A) {a : A} → on_error f m ≡ ok a → m ≡ ok a
  on_error-eq-ok f (ok a) h = h
  on_error-eq-ok f (err e) h = cc

-- `[f(x) for x in xs]`, where `f` may raise.
abbrev pub traverse {ℓ κ} : {A : Type ℓ} {B : Type κ} → (A → Result B) → List A → Result (List B)
traverse f [] = ok []
traverse f (x ∷ xs) = do y ← f x; ys ← traverse f xs; ok (y ∷ ys)

-- `for x in xs: f(x)`, where `f` may raise.
abbrev pub for_each {ℓ} : {A : Type ℓ} → (A → Result (Unit {0})) → List A → Result (Unit {0})
for_each f [] = ok tt
for_each f (x ∷ xs) = f x >> for_each f xs

-- Where the loop has returned, it has returned at each item.
pub for_each-All {ℓ κ} :
    {A : Type ℓ} (P : A → Type κ) (f : A → Result (Unit {0})) (xs : List A)
    → ((x : A) → f x ≡ ok tt → P x)
    → for_each f xs ≡ ok tt
    → All P xs
for_each-All P f [] step e = tt
for_each-All P f (x ∷ xs) step e =
    after_check (f x) _ e λ here e. (step x here, for_each-All P f xs step e)

pub ok_lem {ℓ} : {A : Type ℓ} {a b : A} → ok a ≡ ok b → a ≡ b
ok_lem e = ground (arith, e)

-- The next step of a computation that has returned.
pub step_lem {ℓ κ} :
    {A : Type ℓ} {B : Type κ} (m : Result A) (f : A → Result B) {a : A} {b : Result B}
    → m ≡ ok a
    → f a ≡ b
    → (m >>= f) ≡ b
step_lem (ok x) f {a} e h = let same : x ≡ a = ok_lem e in ap f same ∙ h
step_lem (err x) f e h = cc

pub and_left : (a b : Bool) → (a && b) ≡ true → a ≡ true
and_left a b h = ground arith

pub and_right : (a b : Bool) → (a && b) ≡ true → b ≡ true
and_right a b h = ground arith

-- A test on all rows, row by row.
pub all-All {ℓ} :
    {A : Type ℓ} (p : A → Bool) (xs : List A) → all p xs ≡ true → All (λ x. p x ≡ true) xs
all-All p [] h = tt
all-All p (x ∷ xs) h = (and_left (p x) _ h, all-All p xs (and_right (p x) _ h))

pub never_lem {ℓ} : {A : Type ℓ} → false ≡ true → A
never_lem h = cc
