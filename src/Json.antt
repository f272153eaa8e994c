-- ===== src/Json.antt =====
-- JSON documents as Python values: what `json.loads` and the JSON columns of the database give.
-- The modelled documents hold no floats. A dict keeps its entries in insertion order.
use lsa.Base.{
  zero, ◌!=◌, ℕ, String, Bool, true, false, ◌&&◌, ◌||◌, List, [], ◌∷◌, Option, none, some,
  if◌then◌else◌, ◌==◌, string_eq, nat_eq, contains, all, length, ℤ, pos, negsuc, Result, ok, err,
  type_error, key_error,
}
use text.Mathlib.Text.{find?}

mutual
  pub data Json : Type 0 where
    null : Json
    bool : Bool → Json
    int : ℤ → Json
    str : String → Json
    list : Items → Json
    dict : Fields → Json

  pub data Items : Type 0 where
    nil : Items
    cons : Json → Items → Items

  pub data Fields : Type 0 where
    end : Fields
    field : String → Json → Fields → Fields

abbrev pub elems : Items → List Json
elems nil = []
elems (cons x xs) = x ∷ elems xs

abbrev pub items : List Json → Items
items [] = nil
items (x ∷ xs) = cons x (items xs)

abbrev pub keys : Fields → List String
keys end = []
keys (field k v fs) = k ∷ keys fs

abbrev pub values : Fields → List Json
values end = []
values (field k v fs) = v ∷ values fs

-- `k in d` and `d.get(k)`
abbrev pub has : String → Fields → Bool
has k fs = contains (keys fs) k

abbrev pub get : String → Fields → Json
get k end = null
get k (field j v fs) = let rest = get k fs in if k == j then v else rest

-- `{**d, **e}` onto a dict, and `d` without some keys.
abbrev pub join : Fields → Fields → Fields
join end gs = gs
join (field k v fs) gs = field k v (join fs gs)

abbrev pub without : List String → Fields → Fields
without ks end = end
without ks (field k v fs) =
    let rest = without ks fs in if contains ks k then rest else field k v rest

-- `d.get(k, default)`, `d[k]`, and `d[k] = v`
abbrev pub get_or : String → Json → Fields → Json
get_or k default fs = if has k fs then get k fs else default

abbrev pub at_key : String → Fields → Result Json
at_key k fs = if has k fs then ok (get k fs) else err key_error

abbrev pub put : String → Json → Fields → Fields
put k v fs = field k v (without (k ∷ []) fs)

abbrev pub opt_text : Option String → Json
opt_text none = null
opt_text (some s) = str s

abbrev pub opt_num : Option ℕ → Json
opt_num none = null
opt_num (some n) = int (pos n)

-- `set(xs) == set(ys)`
abbrev pub subset : List String → List String → Bool
subset xs ys = all (contains ys) xs

abbrev pub same_set : List String → List String → Bool
same_set xs ys = subset xs ys && subset ys xs

abbrev num_eq : ℤ → ℤ → Bool
num_eq (pos a) (pos b) = a == b
num_eq (negsuc a) (negsuc b) = a == b
num_eq _ _ = false

abbrev bool_num : Bool → ℤ
bool_num true = pos 1
bool_num false = pos 0

abbrev count_fields : Fields → ℕ
count_fields fs = length (keys fs)

-- `a == b`: a Boolean equals the number that it stands for, and dicts are compared without order.
unfoldable mutual
  pub py_eq : Json → Json → Bool
  py_eq null null = true
  py_eq (bool a) (bool b) = num_eq (bool_num a) (bool_num b)
  py_eq (bool a) (int n) = num_eq (bool_num a) n
  py_eq (int m) (bool b) = num_eq m (bool_num b)
  py_eq (int m) (int n) = num_eq m n
  py_eq (str s) (str t) = s == t
  py_eq (list xs) (list ys) = eq_items xs ys
  py_eq (dict fs) (dict gs) = count_fields fs == count_fields gs && eq_fields fs gs
  py_eq _ _ = false

  pub eq_items : Items → Items → Bool
  eq_items nil nil = true
  eq_items (cons x xs) (cons y ys) = py_eq x y && eq_items xs ys
  eq_items _ _ = false

  pub eq_fields : Fields → Fields → Bool
  eq_fields end gs = true
  eq_fields (field k v fs) gs = has k gs && py_eq v (get k gs) && eq_fields fs gs

-- `isinstance`, and the identity tests of the constants.
abbrev pub is_text : Json → Bool
is_text (str s) = true
is_text _ = false

abbrev pub is_dict : Json → Bool
is_dict (dict fs) = true
is_dict _ = false

abbrev pub is_null : Json → Bool
is_null null = true
is_null _ = false

abbrev pub is_true : Json → Bool
is_true (bool b) = b
is_true _ = false

abbrev pub is_false : Json → Bool
is_false (bool true) = false
is_false (bool false) = true
is_false _ = false

-- `bool(v)`
abbrev pub truthy : Json → Bool
truthy null = false
truthy (bool b) = b
truthy (int (pos zero)) = false
truthy (int n) = true
truthy (str s) = s != ""
truthy (list nil) = false
truthy (list xs) = true
truthy (dict end) = false
truthy (dict fs) = true

-- `v == s` for a text `s`
abbrev pub text_is : String → Json → Bool
text_is s (str t) = t == s
text_is s _ = false

abbrev pub as_dict : Json → Option Fields
as_dict (dict fs) = some fs
as_dict _ = none

abbrev pub as_list : Json → Option (List Json)
as_list (list xs) = some (elems xs)
as_list _ = none

abbrev pub as_text : Json → Option String
as_text (str s) = some s
as_text _ = none

-- `isinstance(v, int) and not isinstance(v, bool)`
abbrev pub as_int : Json → Option ℤ
as_int (int n) = some n
as_int _ = none

-- `isinstance(v, int)`, with the value that a Boolean stands for.
abbrev pub int_value : Json → Option ℤ
int_value (int n) = some n
int_value (bool true) = some (pos 1)
int_value (bool false) = some (pos 0)
int_value _ = none

-- `v in {…}` for a set of texts; a list or a dict cannot be hashed.
abbrev pub in_set : Json → List String → Result Bool
in_set (list xs) ss = err type_error
in_set (dict fs) ss = err type_error
in_set (str s) ss = ok (contains ss s)
in_set _ ss = ok false

unfoldable pub mem_eq : Json → List Json → Bool
mem_eq v [] = false
mem_eq v (x ∷ xs) = py_eq v x || mem_eq v xs

abbrev pub is_some {ℓ} : {A : Type ℓ} → Option A → Bool
is_some none = false
is_some (some a) = true

-- `v in hay` for a text `v`, where `hay` may be any document.
unfoldable pub text_in : String → Json → Result Bool
unfolding mem_eq
text_in s (list xs) = ok (mem_eq (str s) (elems xs))
text_in s (str hay) = ok (is_some (find? hay s))
text_in s (dict fs) = ok (has s fs)
text_in s _ = err type_error

-- `{item.get(key): item for item in items}.get(k)`: the last item wins.
unfoldable pub last_by : String → String → List Fields → Option Fields
last_by key k [] = none
last_by key k (item ∷ rest) = elim (last_by key k rest) [
  | some found ↦ some found
  | none ↦ if text_is k (get key item) then some item else none
]

abbrev pub dicts_of : List Json → Option (List Fields)
dicts_of [] = some []
dicts_of (dict fs ∷ rest) = elim (dicts_of rest) [ none ↦ none | some fss ↦ some (fs ∷ fss) ]
dicts_of (_ ∷ rest) = none

-- `isinstance(v, list) and all(isinstance(item, dict) for item in v)`, with the items.
abbrev pub as_dicts : Json → Option (List Fields)
as_dicts (list xs) = dicts_of (elems xs)
as_dicts _ = none
