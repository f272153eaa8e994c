-- ===== src/Base/Unique.antt =====
-- `list(dict.fromkeys(xs))`, and the lists that it leaves as they are.
use Prim.Native.Nat.{◌≤◌, ◌<◌}
use Prim.Native.String.{String}
use mathlib.Core.Path.{◌≡◌}
use mathlib.Core.Logic.{inl, inr}
use mathlib.Core.Bool.{true, false}
use mathlib.Core.List.{List, [], ◌∷◌}
use native.Mathlib.Omega.{arith}
use lsa.Base.Tests.{if◌then◌else◌, ◌==◌, string_eq, contains, Bool-cases}
use lsa.Base.Lists.{length}

abbrev remove : String → List String → List String
remove x [] = []
remove x (y ∷ ys) = let rest = remove x ys in if y == x then rest else y ∷ rest

abbrev pub from_keys : List String → List String
from_keys [] = []
from_keys (x ∷ xs) = x ∷ remove x (from_keys xs)

-- No text stands in the list twice.
abbrev pub Distinct : List String → Type 0
Distinct [] = Unit
Distinct (x ∷ xs) = (contains xs x ≡ false) × Distinct xs

length-remove-le : (x : String) (ys : List String) → length (remove x ys) ≤ length ys
length-remove-le x [] = omega arith
length-remove-le x (y ∷ ys) = ground (arith, length-remove-le x ys)

length-remove-lt :
    (x : String) (ys : List String) → contains ys x ≡ true → length (remove x ys) < length ys
length-remove-lt x [] h = cc
length-remove-lt x (y ∷ ys) h = ground (arith, length-remove-le x ys, length-remove-lt x ys)

contains-remove :
    (x z : String) (ys : List String)
    → (z == x) ≡ false
    → contains ys z ≡ true
    → contains (remove x ys) z ≡ true
contains-remove x z [] d h = cc
contains-remove x z (y ∷ ys) d h = ground (arith, contains-remove x z ys)

contains-from_keys :
    (z : String) (xs : List String) → contains xs z ≡ true → contains (from_keys xs) z ≡ true
contains-from_keys z [] h = cc
contains-from_keys z (x ∷ xs) h = elim (Bool-cases (z == x)) [
  | inl same ↦ ground arith
  | inr other ↦ ground (arith, contains-remove x z (from_keys xs) other, contains-from_keys z xs)
]

length-from_keys : (xs : List String) → length (from_keys xs) ≤ length xs
length-from_keys [] = omega arith
length-from_keys (x ∷ xs) = omega (arith, length-remove-le x (from_keys xs), length-from_keys xs)

-- A list that keeps its length has no repetition.
pub from_keys-Distinct : (xs : List String) → length (from_keys xs) ≡ length xs → Distinct xs
from_keys-Distinct [] e = tt
from_keys-Distinct (x ∷ xs) e = elim (Bool-cases (contains xs x)) [
  | inl again ↦ ground (
    arith,
    e,
    length-remove-lt x (from_keys xs) (contains-from_keys x xs again),
    length-from_keys xs,
  )
  | inr new ↦ (
    new,
    from_keys-Distinct xs
        (omega (arith, e, length-remove-le x (from_keys xs), length-from_keys xs)),
  )
]
