-- ===== src/Agent/Contract/Soundness.antt =====
-- What `validate_remediation_contract_preview` establishes of a contract that it accepts.
use lsa.Base.{
  ℕ, ◌+◌, ◌*◌, ◌≤◌, ◌<◌, Bool, true, ◌&&◌, ◌≡◌, sym, List, some, string_eq, nat_eq, ok, after,
  after_check, require, require-eq-ok, or_raise, or_raise-eq-ok, on_error, on_error-eq-ok, arith,
}
use lsa.Json.{Json, Fields, dict, get, text_is, as_dict, as_list, mem_eq, in_set}
use lsa.Library.{Library, minutes}
use lsa.ChangeSets.Integrity.{safeguards_hold}
use lsa.Agent.Contract.{exact_keys, parse_time}
use lsa.Agent.Contract.Preview.{
  Pins, root_keys, is_locked, trusted_payload, is_open_window, check_window, check_rollout,
  check_safeguards, safeguard_keys, check_targets, check_target, covered_actions,
  validate_remediation_contract_preview, summary_of,
}
use lsa.Agent.Contract.Backups.{exact_keys-eq-ok}
use lsa.Agent.Contract.Trust.{Trust, trusted-Trust}
use lsa.Agent.Contract.Coverage.{Coverage, covered_actions-Coverage}

-- The signed window, as the agent reads it.
pub record OpenWindow (L : Library) (now : ℕ) (payload : Fields) : Type 0 where
  pub window : Fields
  pub has_window : get "maintenance_window" payload ≡ dict window
  pub start : ℕ
  pub has_start : parse_time L (get "start" window) "maintenance window start" ≡ ok start
  pub finish : ℕ
  pub has_end : parse_time L (get "end" window) "maintenance window end" ≡ ok finish
  pub not_over : now < finish
  pub lasts : start + minutes 30 ≤ finish
  pub at_most : finish ≤ start + minutes (8 * 60)

window_lem :
    (now start finish : ℕ)
    → is_open_window now start finish ≡ true
    → (now < finish) × (start + minutes 30 ≤ finish) × (finish ≤ start + minutes (8 * 60))
window_lem now start finish h = (ground arith, ground arith, ground arith)

check_window-OpenWindow :
    (L : Library) (now : ℕ) (payload : Fields)
    → check_window L now payload ≡ ok tt
    → OpenWindow L now payload
unfolding check_window
check_window-OpenWindow L now payload e =
    after (exact_keys (get "maintenance_window" payload) _ _) _ e λ window known e.
      after (parse_time L (get "start" window) _) _ e λ start starts e.
        after (parse_time L (get "end" window) _) _ e λ finish ends e.
          let (not_over, lasts, at_most) = window_lem now start finish (require-eq-ok _ _ e) in
          record {
            window = window;
            has_window = (exact_keys-eq-ok _ _ _ known).0;
            start = start;
            has_start = starts;
            finish = finish;
            has_end = ends;
            not_over = not_over;
            lasts = lasts;
            at_most = at_most;
          }

-- The contract's target is one of the signed ones, each of which has the agent's eleven keys.
pub record Targeted (pins : Pins) (root payload target : Fields) : Type 0 where
  pub has_target : get "target" root ≡ dict target
  pub targets : List Json
  pub has_targets : as_list (get "targets" payload) ≡ some targets
  pub signed : mem_eq (get "target" root) targets ≡ true
  pub agent : text_is pins.agent_id (get "agent_id" target) ≡ true
  pub host : text_is pins.host_id (get "host_id" target) ≡ true

and_all : (a b c : Bool) → (a && b && c) ≡ true → (a ≡ true) × (b ≡ true) × (c ≡ true)
and_all a b c h = (ground arith, ground arith, ground arith)

check_target-Targeted :
    (pins : Pins) (root payload : Fields) {target : Fields}
    → check_target pins root payload ≡ ok target
    → Targeted pins root payload target
unfolding check_target
check_target-Targeted pins root payload {target} e =
    after_check (check_targets (get "targets" payload)) _ e λ shaped e.
      after (or_raise (as_dict (get "target" root)) _) _ e λ found is_dict e.
        after (or_raise (as_list (get "targets" payload)) _) _ e λ targets listed e.
          after_check
            (require
              (mem_eq (get "target" root) targets
                && text_is pins.agent_id (get "agent_id" found)
                && text_is pins.host_id (get "host_id" found))
              _)
            _ e
            λ bound e. after (in_set (get "rollout_phase" found) _) _ e λ known phase e.
              after_check (require known _) _ e λ staged e.
                let (signed, agent, host) = and_all _ _ _ (require-eq-ok _ _ bound) in
                moved _ _ (ground arith) (record {
                  has_target = dict_of (get "target" root) (or_raise-eq-ok _ _ is_dict);
                  targets = targets;
                  has_targets = or_raise-eq-ok _ _ listed;
                  signed = signed;
                  agent = agent;
                  host = host;
                })
  where
    dict_of : (v : Json) {fs : Fields} → as_dict v ≡ some fs → v ≡ dict fs
    dict_of v e = ground arith

    moved : (a b : Fields) → a ≡ b → Targeted pins root payload a → Targeted pins root payload b
    moved a b same t = rw (sym same) t

-- What the agent knows of a contract that it has accepted.
pub record Accepted (L : Library) (pins : Pins) (now : ℕ) (contract : Json) (summary : Fields)
    : Type 0 where
  pub root : Fields
  pub is_root : contract ≡ dict root
  pub locked : is_locked root ≡ true
  pub payload : Fields
  pub trust : Trust L pins root payload
  pub safeguards : Fields
  pub has_safeguards : get "safeguards" payload ≡ dict safeguards
  pub safe : safeguards_hold safeguards ≡ true
  pub target : Fields
  pub targeted : Targeted pins root payload target
  pub window : OpenWindow L now payload
  pub rollout : check_rollout payload ≡ ok tt
  pub actions : List Json
  pub coverage : Coverage L pins.host_id root payload actions
  pub summarized : summary ≡ summary_of L pins root target actions

safeguards_lem :
    (payload : Fields)
    → check_safeguards payload ≡ ok tt
    → (safeguards : Fields) × (get "safeguards" payload ≡ dict safeguards)
      × (safeguards_hold safeguards ≡ true)
unfolding check_safeguards
safeguards_lem payload e =
    after (on_error _ (exact_keys (get "safeguards" payload) safeguard_keys _)) _ e
      λ safeguards known e.
        (safeguards, (exact_keys-eq-ok _ _ _ (on_error-eq-ok _ _ known)).0, require-eq-ok _ _ e)

-- A contract that the agent accepts asks for a validation only. A key that the pinned platform key
-- endorses has signed its payload, which keeps the four safeguards, targets this agent on this host, and
-- has a window that is not over and lasts half an hour to eight hours. The contract's actions are of
-- distinct plans, each signed plan of the host has one of them, and each is safe: it has the digest of its plan, no forbidden key, and only operations
-- of the five kinds on reviewed paths, with a restore for each file that is backed up.
pub preview-Accepted :
    (L : Library) (pins : Pins) (now : ℕ) (contract : Json) {summary : Fields}
    → validate_remediation_contract_preview L pins now contract ≡ ok summary
    → Accepted L pins now contract summary
unfolding validate_remediation_contract_preview
preview-Accepted L pins now contract e = after (exact_keys contract root_keys _) _ e λ root known e.
    after_check (require (is_locked root) _) _ e λ locked e.
      after (trusted_payload L pins root) _ e λ payload trusted e.
        after_check (check_safeguards payload) _ e λ safe e.
          after (check_target pins root payload) _ e λ target targeted e.
            after_check (check_window L now payload) _ e λ window e.
              after_check (check_rollout payload) _ e λ rollout e.
                after (covered_actions L pins root payload) _ e λ actions covered e.
                  let (safeguards, has_safeguards, hold) = safeguards_lem payload safe in
                  record {
                    root = root;
                    is_root = (exact_keys-eq-ok _ _ _ known).0;
                    locked = require-eq-ok _ _ locked;
                    payload = payload;
                    trust = trusted-Trust L pins root trusted;
                    safeguards = safeguards;
                    has_safeguards = has_safeguards;
                    safe = hold;
                    target = target;
                    targeted = check_target-Targeted pins root payload targeted;
                    window = check_window-OpenWindow L now payload window;
                    rollout = rollout;
                    actions = actions;
                    coverage = covered_actions-Coverage L pins root payload covered;
                    summarized = ground arith;
                  }
