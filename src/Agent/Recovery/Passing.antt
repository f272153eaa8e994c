-- ===== src/Agent/Recovery/Passing.antt =====
-- The recovery plan that the agent compiles passes the platform's check.
use lsa.Base.{
  suc, ◌≤◌, String, true, false, ◌≡◌, refl, ap, List, [], ◌∷◌, string_eq, map, any, all, All, ltb,
  arith, Bool-cases, inl, inr,
}
use lsa.Json.{str, py_eq}
use lsa.Receipts.{distinct}
use lsa.Agent.Recovery.Compile.{Entry, path_count, combined, is_ready}

module _ (path : String) where
  count_cons : (e : Entry) (es : List Entry) → path_count path es ≤ path_count path (e ∷ es)
  count_cons e es = ground arith

  count_hit :
      (e : Entry) (es : List Entry)
      → e.path ≡ path
      → path_count path (e ∷ es) ≡ suc (path_count path es)
  count_hit e es h = ground (arith, h)

  -- A path that no entry targets.
  any_lem :
      (es : List Entry)
      → path_count path es ≡ 0
      → any (py_eq (str path)) (map (λ (e : Entry). str e.path) es) ≡ false
  unfolding py_eq
  any_lem [] h = refl
  any_lem (e ∷ es) h = ground (arith, any_lem es)

-- The number of entries that target the path of each of these is at most one.
abbrev Singles : List Entry → List Entry → Type 0
Singles all = All (λ (e : Entry). ltb 1 (path_count e.path all) ≡ false)

single_lem :
    (all : List Entry) (e : Entry) (es : List Entry)
    → path_count e.path (e ∷ es) ≤ path_count e.path all
    → ltb 1 (path_count e.path all) ≡ false
    → path_count e.path es ≡ 0
single_lem all e es fits h = ground (arith, count_hit e.path e es refl, fits, h)

distinct-Singles :
    (all es : List Entry)
    → ((path : String) → path_count path es ≤ path_count path all)
    → Singles all es
    → distinct (map (λ (e : Entry). str e.path) es) ≡ true
distinct-Singles all [] fits h = refl
distinct-Singles all (e ∷ es) fits h =
    rw
      (
        any_lem e.path es (single_lem all e es (fits e.path) h.0),
        distinct-Singles all es (λ path. omega (arith, count_cons path e es, fits path)) h.1,
      )
      refl

-- Entries that are ready once the shared paths are blocked.
ready-Singles :
    (whole es : List Entry)
    → all (λ (e : Entry). is_ready e.source) (map (combined whole) es) ≡ true
    → Singles whole es
ready-Singles whole [] h = tt
ready-Singles whole (e ∷ es) h = elim (Bool-cases (ltb 1 (path_count e.path whole))) [
  | inl many ↦ ground (arith, (rw many at h))
  | inr one ↦ (one, ready-Singles whole es (ground (arith, (rw one at h))))
]

paths-combined :
    (all es : List Entry)
    → map (λ (e : Entry). str e.path) (map (combined all) es) ≡ map (λ (e : Entry). str e.path) es
paths-combined all [] = refl
paths-combined all (e ∷ es) = ap (λ ps. str e.path ∷ ps) (paths-combined all es)

-- The paths of entries that are ready differ.
pub ready-distinct :
    (es : List Entry)
    → all (λ (e : Entry). is_ready e.source) (map (combined es) es) ≡ true
    → distinct (map (λ (e : Entry). str e.path) (map (combined es) es)) ≡ true
ready-distinct es h =
    rw (paths-combined es es) (distinct-Singles es es (λ path. omega arith) (ready-Singles es es h))
