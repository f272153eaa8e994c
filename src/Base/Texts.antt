-- ===== src/Base/Texts.antt =====
-- Python's order on texts, by code points, and the sorts of the modelled code.
use Prim.Native.String.{String, compare}
use Prim.Native.String as Native
use text.Mathlib.Text.{is_lt}
use mathlib.Core.Bool.{Bool}
use mathlib.Core.List.{List, [], ◌∷◌}
use mathlib.Core.Logic.{inl, inr}
use lsa.Base.Tests.{if◌then◌else◌, ◌==◌, string_eq, Bool-cases}
use lsa.Base.Lists.{All}

-- `s < t`
unfoldable pub text_lt : String → String → Bool
text_lt s t = is_lt (compare s t)

module _ {ℓ} {A : Type ℓ} (key : A → String) where
  -- A stable insertion sort, as `sorted(xs, key=key)`.
  unfoldable pub insert_by : A → List A → List A
  insert_by x [] = x ∷ []
  insert_by x (y ∷ ys) =
      let rest = insert_by x ys in if text_lt (key y) (key x) then y ∷ rest else x ∷ y ∷ ys

  unfoldable pub sort_by : List A → List A
  unfolding insert_by
  sort_by [] = []
  sort_by (x ∷ xs) = insert_by x (sort_by xs)

module _ {ℓ κ} {A : Type ℓ} (key : A → String) (P : A → Type κ) where
  insert_by-All : (x : A) (xs : List A) → P x → All P xs → All P (insert_by key x xs)
  unfolding insert_by
  insert_by-All x [] px h = (px, tt)
  insert_by-All x (y ∷ ys) px h = elim (Bool-cases (text_lt (key y) (key x))) [
    | inl later ↦ rw later (h.0, insert_by-All x ys px h.1)
    | inr here ↦ rw here (px, h)
  ]

  -- Sorting loses no property of the items.
  pub sort_by-All : (xs : List A) → All P xs → All P (sort_by key xs)
  unfolding sort_by
  sort_by-All [] h = tt
  sort_by-All (x ∷ xs) h = insert_by-All x (sort_by key xs) h.0 (sort_by-All xs h.1)

-- `sorted(set(xs))`
insert_new : String → List String → List String
insert_new s [] = s ∷ []
insert_new s (t ∷ ts) =
    let rest = insert_new s ts in
    if s == t then t ∷ ts else if text_lt s t then s ∷ t ∷ ts else t ∷ rest

unfoldable pub sorted_set : List String → List String
unfolding insert_new
sorted_set [] = []
sorted_set (s ∷ ss) = insert_new s (sorted_set ss)

-- `s + t`, and `", ".join(ts)`
unfoldable pub concat : String → String → String
concat s t = Native.◌++◌ s t

unfoldable pub joined : List String → String
unfolding concat
joined [] = ""
joined (t ∷ []) = t
joined (t ∷ u ∷ ts) = concat t (concat ", " (joined (u ∷ ts)))
