-- ===== src/ChangeSets/Strictness.antt =====
-- The strictest limits of the policies of a change set's targets, against each of those policies.
use lsa.Base.{ℕ, ◌≤◌, ◌≡◌, sym, List, [], ◌∷◌, All, Result, ok, after, traverse, ok_lem, arith}
use lsa.Library.{Library}
use lsa.Schema.Fleet.{AgentPolicyVersion}
use lsa.ChangeSets.Checks.{Limits, strictest, minimum, maximum, int_limit}

minimum-All : (n : ℕ) (ms : List ℕ) → n ≤ minimum 0 ms → All (λ m. n ≤ m) ms
minimum-All n [] h = tt
minimum-All n (m ∷ []) h = (h, tt)
minimum-All n (m ∷ k ∷ ms) h = (omega (arith, h), minimum-All n (k ∷ ms) (omega (arith, h)))

maximum-All : (n d : ℕ) (ms : List ℕ) → maximum d ms ≤ n → All (λ m. m ≤ n) ms
maximum-All n d [] h = tt
maximum-All n d (m ∷ []) h = (h, tt)
maximum-All n d (m ∷ k ∷ ms) h = (omega (arith, h), maximum-All n d (k ∷ ms) (omega (arith, h)))

-- A bound on what a traversal has read is a bound on what each item gives.
traverse-All {ℓ} :
    {A : Type ℓ} (f : A → Result ℕ) (P : ℕ → Type 0) (xs : List A) {ms : List ℕ}
    → traverse f xs ≡ ok ms
    → All P ms
    → All (λ x. (m : ℕ) × (f x ≡ ok m) × P m) xs
traverse-All f P [] e h = tt
traverse-All f P (x ∷ xs) {ms} e h = after (f x) _ e λ m here e.
    after (traverse f xs) _ e λ later rest e.
      let both = moved (m ∷ later) ms (ok_lem e) h in
      ((m, here, both.0), traverse-All f P xs rest both.1)
  where
    moved : (ns ks : List ℕ) → ns ≡ ks → All P ks → All P ns
    moved ns ks same h = rw same h

module _ (L : Library) where
  -- The limits of each version are as wide as the strictest ones.
  pub record IsStrictest (limits : Limits) (versions : List AgentPolicyVersion) : Type 0 where
    pub targets :
        All
          (λ v.
            (m : ℕ) × (int_limit L v "remediation_max_targets_per_change_set" ≡ ok m)
            × (limits.max_targets ≤ m))
          versions
    pub canaries :
        All
          (λ v.
            (m : ℕ) × (int_limit L v "remediation_max_canary_hosts" ≡ ok m)
            × (limits.max_canaries ≤ m))
          versions
    pub batches :
        All
          (λ v.
            (m : ℕ) × (int_limit L v "remediation_max_batch_hosts" ≡ ok m) × (limits.max_batch ≤ m))
          versions
    pub intervals :
        All
          (λ v.
            (m : ℕ) × (int_limit L v "remediation_min_batch_interval_minutes" ≡ ok m)
            × (m ≤ limits.min_interval))
          versions

  pub strictest-IsStrictest :
      (versions : List AgentPolicyVersion) {limits : Limits}
      → strictest L versions ≡ ok limits
      → IsStrictest limits versions
  unfolding strictest
  strictest-IsStrictest versions {limits} e =
      after (traverse (λ v. int_limit L v "remediation_max_targets_per_change_set") versions) _ e
        λ ts te e.
          after (traverse (λ v. int_limit L v "remediation_max_canary_hosts") versions) _ e
            λ cs ce e.
              after (traverse (λ v. int_limit L v "remediation_max_batch_hosts") versions) _ e
                λ bs be e.
                  after
                    (traverse (λ v. int_limit L v "remediation_min_batch_interval_minutes")
                      versions)
                    _ e
                    λ is ie e.
                      moved
                        (record {
                          max_targets = minimum 0 ts;
                          max_canaries = minimum 0 cs;
                          max_batch = minimum 0 bs;
                          min_interval = maximum 15 is;
                        })
                        limits (ok_lem e)
                        (record {
                          targets =
                              traverse-All _ (λ m. minimum 0 ts ≤ m) versions te
                                (minimum-All (minimum 0 ts) ts (omega arith));
                          canaries =
                              traverse-All _ (λ m. minimum 0 cs ≤ m) versions ce
                                (minimum-All (minimum 0 cs) cs (omega arith));
                          batches =
                              traverse-All _ (λ m. minimum 0 bs ≤ m) versions be
                                (minimum-All (minimum 0 bs) bs (omega arith));
                          intervals =
                              traverse-All _ (λ m. m ≤ maximum 15 is) versions ie
                                (maximum-All (maximum 15 is) 15 is (omega arith));
                        })
    where
      moved : (a b : Limits) → a ≡ b → IsStrictest a versions → IsStrictest b versions
      moved a b same h = rw (sym same) h
