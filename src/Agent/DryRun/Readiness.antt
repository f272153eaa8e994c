-- ===== src/Agent/DryRun/Readiness.antt =====
-- What a ready dry run says of the host.
use lsa.Base.{
  and_left, and_right, ℕ, suc, String, Bool, true, false, ◌&&◌, ◌||◌, not, ◌≡◌, ap, ◌∙◌, List, [],
  ◌∷◌, some, none, string_eq, all, any, All, contains, arith, Bool-cases, inl, inr, Result, ok,
  after, or_raise-eq-ok, traverse, or_raise, type_error, if◌then◌else◌,
}
use lsa.Json.{Json, Fields, null, str, dict, at_key, as_dict, as_text, text_is}
use lsa.Library.{Library}
use lsa.Agent.Contract.Preview.{hashable}
use lsa.Agent.Recovery.Agreement.{dict_lem}
use lsa.Agent.DryRun.Checks.{Host, Check, ActionResult, precondition_verdict, path_preflight}
use lsa.Agent.DryRun.Run.{checks_from, is_passed}

-- The host has what a precondition names; a manual confirmation or an excluded role never counts.
abbrev pub is_met : Host → Json → Json → Bool
is_met host kind resource =
    if text_is "command_available" kind
    then (elim (as_text resource) [ none ↦ false | some program ↦ host.lookup program ])
    else text_is "package_present" kind
      && (text_is "openssh_server" resource && contains host.packages "openssh-server")

module _ {ℓ} (P : Json → Type ℓ) where
  pub checks_from-All :
      (check : ℕ → Fields → Result Check) (i : ℕ) (xs : List Json) {cs : List Check}
      → ((i : ℕ) (fs : Fields) (c : Check) → check i fs ≡ ok c → c.passed ≡ true → P (dict fs))
      → checks_from check i xs ≡ ok cs
      → all (λ (c : Check). c.passed) cs ≡ true
      → All P xs
  unfolding checks_from
  checks_from-All check i [] step e h = tt
  checks_from-All check i (x ∷ xs) {cs} step e h =
      after (or_raise (as_dict x) type_error) _ e λ fs shaped e.
        after (check i fs) _ e λ here found e.
          after (checks_from check (suc i) xs) _ e λ later rest e.
            let same : (here ∷ later) ≡ cs = ground (arith, e) in
            let passed : (here.passed && all (λ (c : Check). c.passed) later) ≡ true =
              ap (all (λ (c : Check). c.passed)) same ∙ h in
            (
              rw (dict_lem x shaped) (step i fs here found (and_left here.passed _ passed)),
              checks_from-All check (suc i) xs step rest (and_right here.passed _ passed),
            )

  pub traverse-All :
      (f : Json → Result ActionResult) (xs : List Json) {rs : List ActionResult}
      → ((x : Json) (r : ActionResult) → f x ≡ ok r → is_passed r ≡ true → P x)
      → traverse f xs ≡ ok rs
      → all is_passed rs ≡ true
      → All P xs
  traverse-All f [] step e h = tt
  traverse-All f (x ∷ xs) {rs} step e h = after (f x) _ e λ here found e.
      after (traverse f xs) _ e λ later rest e.
        let same : (here ∷ later) ≡ rs = ground (arith, e) in
        let passed : (is_passed here && all is_passed later) ≡ true = ap (all is_passed) same ∙ h in
        (
          step x here found (and_left (is_passed here) _ passed),
          traverse-All f xs step rest (and_right (is_passed here) _ passed),
        )

-- The verdict in a result.
pub verdict_lem :
    {v : Bool × String} (b : Bool) (s : String) → ok (b, s) ≡ ok v → v.0 ≡ true → b ≡ true
verdict_lem {v} b s e h = let same : (b, s) ≡ v = ground (arith, e) in ap (λ p. p.0) same ∙ h

installed_lem :
    (packages : List String) (b : Bool)
    → any (contains packages) (if b then "openssh-server" ∷ [] else []) ≡ true
    → (b && contains packages "openssh-server") ≡ true
installed_lem packages true h = ground arith
installed_lem packages false h = cc

pub precondition_lem :
    (L : Library) (host : Host) (fs : Fields) (kind resource : Json) {v : Bool × String}
    → precondition_verdict L host fs kind resource ≡ ok v
    → v.0 ≡ true
    → is_met host kind resource ≡ true
precondition_lem L host fs kind resource e h =
    elim (Bool-cases (text_is "command_available" kind)) [
      | inl command ↦
          after (or_raise (as_text resource) type_error) _ (rw command at e) λ program texted e.
            rw (command, or_raise-eq-ok (as_text resource) type_error texted)
              (verdict_lem (host.lookup program) _ e h)
      | inr other ↦ rw other (elim (Bool-cases (text_is "package_present" kind)) [
        | inl packaged ↦ after (hashable resource) _ (rw (other, packaged) at e) λ hashed known e.
            rw packaged (
              installed_lem host.packages (text_is "openssh_server" resource) (verdict_lem _ _ e h))
        | inr neither ↦ elim (Bool-cases (text_is "manual_confirmation" kind)) [
          | inl manual ↦
              after (at_key "description" fs) _ (rw (other, neither, manual) at e)
                λ text known e. never (verdict_lem false _ e h)
          | inr excluded ↦ never (verdict_lem false _ (rw (other, neither, excluded) at e) h)
        ]
      ])
    ]
  where
    never : {b : Bool} → false ≡ true → b ≡ true
    never h = cc

-- The path of an operation is a file, or a free place, in a reviewed directory; without a path, the interface
-- that reloads is there.
abbrev pub is_open : Host → Json → Json → Bool
is_open host kind null =
    text_is "service_reload" kind && host.lookup "systemctl"
    || text_is "sysctl_reload" kind && host.lookup "sysctl"
is_open host kind (str path) =
    (host.probe path).resolves_inside
    && ((host.probe path).parent_is_dir
        && (not (host.probe path).exists || (host.probe path).is_file))
is_open host kind _ = false

pub reload_lem :
    (host : Host) (s : String)
    → contains ("service_reload" ∷ "sysctl_reload" ∷ []) s ≡ true
    → host.lookup (if text_is "service_reload" (str s) then "systemctl" else "sysctl") ≡ true
    → is_open host (str s) null ≡ true
reload_lem host s among h = elim (Bool-cases (text_is "service_reload" (str s))) [
  | inl service ↦ ground (arith, service, (rw service at h))
  | inr other ↦ ground (arith, other, (rw other at h))
]

pub preflight_lem :
    (host : Host) (kind : Json) (path : String)
    → (path_preflight path (host.probe path)).0 ≡ true
    → is_open host kind (str path) ≡ true
preflight_lem host kind path h = elim (Bool-cases (host.probe path).resolves_inside) [
  | inl inside ↦ elim (Bool-cases (host.probe path).parent_is_dir) [
    | inl parent ↦ elim (Bool-cases ((host.probe path).exists && not (host.probe path).is_file)) [
      | inl odd ↦ impossible (ap (λ b. b) (rw (inside, parent, odd) at h))
      | inr regular ↦
          rw (inside, parent) (free_lem (host.probe path).exists (host.probe path).is_file regular)
    ]
    | inr gone ↦ impossible (rw (inside, gone) at h)
  ]
  | inr outside ↦ impossible (rw outside at h)
]
  where
    impossible : {b : Bool} → false ≡ true → b ≡ true
    impossible h = cc

    free_lem : (a b : Bool) → (a && not b) ≡ false → (not a || b) ≡ true
    free_lem a b h = ground arith
