-- ===== src/Agent/Runtime/Policies.antt =====
-- The policy versions that accept_policy_version accepts, and what it makes of the state in memory.
use lsa.Base.{
  ℕ, ◌≤◌, Bool, true, false, ◌≡◌, refl, sym, ap, ◌∙◌, some, ltb, string_eq, pos, ok, after,
  after_check, raise_if, Fault, or_raise, or_raise-eq-ok, arith,
}
use lsa.Json.{Json, Fields, int, get, get_or, put}
use lsa.Agent.Runtime.{at_least, max, accept_policy_version}

-- What the agent reads as the highest version so far.
abbrev pub highest_in : Fields → Json
highest_in state =
    get_or "highest_policy_version" (get_or "policy_version" (int (pos 0)) state) state

pub record Accepted (state state' : Fields) (value : ℕ) : Type 0 where
  pub before : ℕ
  pub known : highest_in state ≡ int (pos before)
  pub above : before ≤ value
  pub written : highest_in state' ≡ int (pos value)

at_least_lem : (v : Json) {n : ℕ} → at_least 0 v ≡ some n → v ≡ int (pos n)
at_least_lem v e = ground arith

highest-put :
    (v w : Json) (state : Fields)
    → highest_in (put "highest_policy_version" v (put "policy_version" w state)) ≡ v
unfolding string_eq
highest-put v w state = refl

max_lem : (value before : ℕ) → before ≤ value → max value before ≡ value
max_lem value before h = ground arith

pub accept-Accepted :
    (state policy : Fields) {value : ℕ} {state' : Fields}
    → accept_policy_version state policy ≡ ok (value, state')
    → Accepted state state' value
unfolding accept_policy_version
accept-Accepted state policy {value} {state'} e =
    after (or_raise (at_least 1 (get "policy_version" policy)) _) _ e λ v given e.
      after (or_raise (at_least 0 (highest_in state)) _) _ e λ before known e.
        after_check (raise_if (ltb v before) _) _ e λ above e.
          let le : before ≤ v = not_below v before (raised _ _ above) in
          let same : v ≡ value = ground arith in
          let written : state'
              ≡ put "highest_policy_version" (int (pos (max v before)))
                  (put "policy_version" (int (pos v)) state) =
            ground arith in
          record {
            before = before;
            known = at_least_lem (highest_in state) (or_raise-eq-ok _ _ known);
            above = omega (arith, le, same);
            written = rw written (
                highest-put (int (pos (max v before))) (int (pos v)) state
                ∙ ap (λ n. int (pos n)) (max_lem v before le ∙ same));
          }
  where
    raised : (b : Bool) (f : Fault) → raise_if b f ≡ ok tt → b ≡ false
    raised false f e = refl
    raised true f e = cc

    not_below : (v before : ℕ) → ltb v before ≡ false → before ≤ v
    not_below v before h = ground arith

pub number_lem : (v : Json) {a b : ℕ} → v ≡ int (pos a) → v ≡ int (pos b) → a ≡ b
number_lem v e f = num (sym e ∙ f)
  where
    num : {a b : ℕ} → int (pos a) ≡ int (pos b) → a ≡ b
    num e = ground arith
