-- ===== src/Agent/Runtime/Rollback.antt =====
-- The policy versions that cycles of the agent accept: none below one that has been reported.
use lsa.Base.{
  nat_eq, ℕ, ◌≤◌, true, false, ◌≡◌, refl, sym, ap, ◌∙◌, List, [], ◌∷◌, none, some, string_eq, pos,
  Result, ok, err, Bool-cases, inl, inr, arith,
}
use lsa.Json.{Fields, int}
use lsa.Library.{Library}
use lsa.Agent.Runtime.{AgentState, accept_policy_version}
use lsa.Agent.Runtime.Control.{signed_control}
use lsa.Agent.Runtime.Policies.{highest_in, Accepted, accept-Accepted, number_lem}
use lsa.Agent.Runtime.Replay as Replay
use lsa.Agent.Runtime.Replay.{Answer}
use lsa.Agent.Runtime.Cycle.{
  Exchange, Outcome, after_heartbeat, after_accept, after_policy, agent_cycle, run,
}
use lsa.Agent.Runtime.Frame.{control_lem}

-- A version from `n` on is in the file.
record IsPast (n : ℕ) (file : AgentState) : Type 0 where
  highest : ℕ
  recorded : highest_in file.state ≡ int (pos highest)
  reached : n ≤ highest

-- How a cycle leaves the highest version in the file: as it was, or, where the heartbeat went through, at the
-- version that was accepted, which is no lower.
record Step (file : AgentState) (o : Outcome) : Type 0 where
  accepted_above :
      (version : ℕ)
      → o.accepted ≡ some version
      → (before : ℕ) × (highest_in file.state ≡ int (pos before)) × (before ≤ version)
  reported_kept :
      (version : ℕ)
      → o.accepted ≡ some version
      → o.reported ≡ true
      → highest_in o.file.state ≡ int (pos version)
  unreported_same : o.reported ≡ false → highest_in o.file.state ≡ highest_in file.state
  reported_some : o.reported ≡ true → (version : ℕ) × (o.accepted ≡ some version)

some_lem : {a b : ℕ} → some a ≡ some b → a ≡ b
some_lem e = ground arith

refused-Step :
    (file st : AgentState)
    → highest_in st.state ≡ highest_in file.state
    → Step file (record { file = st; accepted = none; reported = false })
refused-Step file st same = record {
  accepted_above = λ version e. cc;
  reported_kept = λ version e h. cc;
  unreported_same = λ h. same;
  reported_some = λ h. cc;
}

others_lem :
    (L : Library) (answers : List Answer) (st : AgentState)
    → highest_in (Replay.run L answers st).state ≡ highest_in st.state
unfolding Replay.run
others_lem L [] st = refl
others_lem L ((now, kind, answer) ∷ rest) st =
    others_lem L rest (Replay.kept st (signed_control L now kind answer st))
    ∙ kept_lem (signed_control L now kind answer st)
        (λ payload st' e. control_lem L now kind answer st e)
  where
    kept_lem :
        (r : Result (Fields × AgentState))
        → ((payload : Fields) (st' : AgentState)
            → r ≡ ok (payload, st')
            → highest_in st'.state ≡ highest_in st.state)
        → highest_in (Replay.kept st r).state ≡ highest_in st.state
    kept_lem (ok (payload, st')) keeps = keeps payload st' refl
    kept_lem (err f) keeps = refl

module _ (L : Library) (x : Exchange) where
  heartbeat-Step :
      (file st : AgentState) (state : Fields) (version : ℕ)
      → highest_in st.state ≡ highest_in file.state
      → Accepted st.state state version
      → (r : Result (Fields × AgentState))
      → ((payload : Fields) (st' : AgentState)
          → r ≡ ok (payload, st')
          → highest_in st'.state ≡ highest_in state)
      → Step file (after_heartbeat L x st version r)
  heartbeat-Step file st state version same a (ok (payload, st')) kept = record {
    accepted_above = λ v e. (a.before, sym same ∙ a.known, omega (arith, a.above, some_lem e));
    reported_kept = λ v e h.
        others_lem L x.others st'
        ∙ kept payload st' refl
        ∙ a.written
        ∙ ap (λ n. int (pos n)) (some_lem e);
    unreported_same = λ h. cc;
    reported_some = λ h. (version, refl);
  }
  heartbeat-Step file st state version same a (err f) kept = record {
    accepted_above = λ v e. (a.before, sym same ∙ a.known, omega (arith, a.above, some_lem e));
    reported_kept = λ v e h. cc;
    unreported_same = λ h. same;
    reported_some = λ h. cc;
  }

  accept-Step :
      (file st : AgentState)
      → highest_in st.state ≡ highest_in file.state
      → (r : Result (ℕ × Fields))
      → ((version : ℕ) (state : Fields) → r ≡ ok (version, state) → Accepted st.state state version)
      → Step file (after_accept L x st r)
  accept-Step file st same (ok (version, state)) taken =
      heartbeat-Step file st state version same (taken version state refl)
        (signed_control L x.reported_at "agent-heartbeat" x.heartbeat (record st { state = state }))
        (λ payload st' e.
          control_lem L x.reported_at "agent-heartbeat" x.heartbeat (record st { state = state }) e)
  accept-Step file st same (err f) taken = refused-Step file st same

  policy-Step :
      (file : AgentState) (r : Result (Fields × AgentState))
      → ((payload : Fields) (st' : AgentState)
          → r ≡ ok (payload, st')
          → highest_in st'.state ≡ highest_in file.state)
      → Step file (after_policy L x file r)
  policy-Step file (ok (policy, st)) kept =
      accept-Step file st (kept policy st refl) (accept_policy_version st.state policy)
        (λ version state e. accept-Accepted st.state policy e)
  policy-Step file (err f) kept = refused-Step file file refl

  cycle-Step : (file : AgentState) → Step file (agent_cycle L x file)
  unfolding agent_cycle
  cycle-Step file =
      policy-Step file (signed_control L x.asked_at "agent-policy" x.policy file)
        (λ payload st' e. control_lem L x.asked_at "agent-policy" x.policy file e)

Step-IsPast :
    (n : ℕ) (file : AgentState) (o : Outcome) → Step file o → IsPast n file → IsPast n o.file
Step-IsPast n file o s p = elim (Bool-cases o.reported) [
  | inl sent ↦
      let (version, accepted) = s.reported_some sent in
      let (before, known, above) = s.accepted_above version accepted in
      record {
        highest = version;
        recorded = s.reported_kept version accepted sent;
        reached =
            omega (arith, p.reached, above, number_lem (highest_in file.state) p.recorded known);
      }
  | inr unsent ↦ record {
    highest = p.highest;
    recorded = s.unreported_same unsent ∙ p.recorded;
    reached = p.reached;
  }
]

run-IsPast :
    (L : Library) (n : ℕ) (xs : List Exchange) (file : AgentState)
    → IsPast n file
    → IsPast n (run L xs file)
unfolding run
run-IsPast L n [] file p = p
run-IsPast L n (x ∷ xs) file p =
    run-IsPast L n xs (agent_cycle L x file).file
      (Step-IsPast n file (agent_cycle L x file) (cycle-Step L x file) p)

-- Once a cycle of the agent has accepted a policy version and its heartbeat has gone through, no later cycle
-- accepts a lower version, whatever answers the cycles in between are given.
pub run-no_rollback :
    (L : Library) (x later : Exchange) (xs : List Exchange) (file : AgentState) {version next : ℕ}
    → (agent_cycle L x file).accepted ≡ some version
    → (agent_cycle L x file).reported ≡ true
    → (agent_cycle L later (run L xs (agent_cycle L x file).file)).accepted ≡ some next
    → version ≤ next
run-no_rollback L x later xs file {version} {next} accepted reported again =
    let first = cycle-Step L x file in
    let past = run-IsPast L version xs (agent_cycle L x file).file (record {
      highest = version;
      recorded = first.reported_kept version accepted reported;
      reached = omega arith;
    }) in
    let last = run L xs (agent_cycle L x file).file in
    let (before, known, above) = (cycle-Step L later last).accepted_above next again in
    omega (arith, past.reached, above, number_lem (highest_in last.state) past.recorded known)
