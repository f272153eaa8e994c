-- ===== src/Agent/Runtime/Replay.antt =====
-- The sequence numbers that the agent accepts: an answer is taken up at most once.
use lsa.Base.{
  ℕ, ◌≤◌, ◌<◌, String, Bool, true, false, ◌≡◌, ◌≢◌, refl, sym, ap, ◌∙◌, List, [], ◌∷◌, some,
  string_eq, pos, ℤ, leb_ℤ, Result, ok, err, after, after_check, raise_if, Fault, require, ◌&&◌,
  or_raise, or_raise-eq-ok, on_error-eq-ok, arith,
}
use lsa.Json.{
  Json, Fields, null, int, dict, get, get_or, at_key, put, as_dict, int_value, py_eq, text_is,
}
use lsa.Library.{Library, Bytes}
use lsa.Agent.Runtime.{AgentState, load_platform_command_key, at_least}
use lsa.Agent.Runtime.Envelope.{
  check_signature, check_sequence, check_times, bound_payload, with_trust, verify_platform_envelope,
}
use lsa.Agent.Runtime.Rotation.{apply_platform_key_rotation}
use lsa.Agent.Runtime.Control.{
  verification_key, verify_answer, verify_control_response, signed_control,
}

abbrev pub Answer : Type 0
Answer = ℕ × String × Json

-- The agent after an answer: a refused answer leaves it as it was.
abbrev pub kept : AgentState → Result (Fields × AgentState) → AgentState
kept st (ok (payload, st')) = st'
kept st (err e) = st

-- Any sequence of answers, at any times, for any requests.
unfoldable pub run : Library → List Answer → AgentState → AgentState
run L [] st = st
run L ((now, kind, answer) ∷ rest) st = run L rest (kept st (signed_control L now kind answer st))

-- The sequence number of an answer.
abbrev sequence_of : Json → Json
sequence_of (dict envelope) = get "sequence" envelope
sequence_of _ = null

abbrev pub sequence_in : Json → Json
sequence_in (dict result) = sequence_of (get "platform_envelope" result)
sequence_in _ = null

-- The state records a number from `n` on.
pub record IsPast (n : ℕ) (st : AgentState) : Type 0 where
  pub last : ℕ
  pub recorded : get_or "platform_envelope_sequence" (int (pos 0)) st.state ≡ int (pos last)
  pub reached : n ≤ last

at_least_lem : (v : Json) {n : ℕ} → at_least 1 v ≡ some n → v ≡ int (pos n)
at_least_lem v e = ground arith

raised : (b : Bool) (f : Fault) → raise_if b f ≡ ok tt → b ≡ false
raised false f e = refl
raised true f e = cc

-- A number that is accepted, with the one that it is above.
record Above (envelope state : Fields) (s : ℕ) : Type 0 where
  numbered : get "sequence" envelope ≡ int (pos s)
  prior : ℤ
  recorded : int_value (get_or "platform_envelope_sequence" (int (pos 0)) state) ≡ some prior
  above : leb_ℤ (pos s) prior ≡ false

check_sequence-Above :
    (L : Library) (envelope state : Fields) {s : ℕ}
    → check_sequence L envelope state ≡ ok s
    → Above envelope state s
unfolding check_sequence
check_sequence-Above L envelope state {s} e =
    after (or_raise (at_least 1 (get "sequence" envelope)) _) _ e λ n known e.
      after (or_raise (int_value (get_or "platform_envelope_sequence" (int (pos 0)) state)) _) _ e
        λ prior recorded e. after_check (raise_if (leb_ℤ (pos n) prior) _) _ e λ above e.
          moved n s (ground arith) (record {
            numbered = at_least_lem (get "sequence" envelope) (or_raise-eq-ok _ _ known);
            prior = prior;
            recorded = or_raise-eq-ok _ _ recorded;
            above = raised _ _ above;
          })
  where
    moved : (a b : ℕ) → a ≡ b → Above envelope state a → Above envelope state b
    moved a b same h = rw (sym same) h

at_key-with_trust :
    (L : Library) (s : ℕ) (key_id key_version : Json) (fingerprint : String) (payload : Fields)
    → at_key "platform_envelope_sequence" (with_trust L s key_id key_version fingerprint payload)
      ≡ ok (int (pos s))
unfolding string_eq
at_key-with_trust L s key_id key_version fingerprint payload = refl

-- What the checks of an envelope establish of its number.
record Numbered (document : Json) (state payload : Fields) : Type 0 where
  envelope : Fields
  is_envelope : document ≡ dict envelope
  sequence : ℕ
  above : Above envelope state sequence
  carried : at_key "platform_envelope_sequence" payload ≡ ok (int (pos sequence))

verify-Numbered :
    (L : Library) (now : ℕ) (kind identity : String) (state : Fields) (document signature : Json)
    (trust : Fields) (pinned : Bytes) {payload : Fields}
    → verify_platform_envelope L now kind identity state document signature trust pinned
      ≡ ok payload
    → Numbered document state payload
unfolding verify_platform_envelope
verify-Numbered L now kind identity state document signature trust pinned {payload} e =
    after_check (check_signature L document signature trust pinned) _ e λ signed e.
      after (or_raise (as_dict document) _) _ e λ envelope shaped e.
        after_check
          (require
            (text_is "1.0" (get "schema_version" envelope) && text_is kind (get "kind" envelope)) _)
          _ e
          λ typed e.
            after_check (require (py_eq (get "key_id" envelope) (get "key_id" trust)) _) _ e
              λ keyed e. after (check_sequence L envelope state) _ e λ s checked e.
                after_check (check_times L now envelope) _ e λ timed e.
                  after (bound_payload L envelope state identity) _ e λ bound known e.
                    after (at_key "key_id" trust) _ e λ key_id has_id e.
                      after (at_key "key_version" trust) _ e λ key_version has_version e. record {
                        envelope = envelope;
                        is_envelope = dict_lem document (or_raise-eq-ok _ _ shaped);
                        sequence = s;
                        above = check_sequence-Above L envelope state checked;
                        carried =
                            moved (with_trust L s key_id key_version (L.sha256 pinned) bound)
                              payload s (ok_lem e)
                              (at_key-with_trust L s key_id key_version (L.sha256 pinned) bound);
                      }
  where
    dict_lem : (v : Json) {fs : Fields} → as_dict v ≡ some fs → v ≡ dict fs
    dict_lem v e = ground arith

    ok_lem : {a b : Fields} → ok a ≡ ok b → a ≡ b
    ok_lem e = ground arith

    moved :
        (a b : Fields) (s : ℕ)
        → a ≡ b
        → at_key "platform_envelope_sequence" a ≡ ok (int (pos s))
        → at_key "platform_envelope_sequence" b ≡ ok (int (pos s))
    moved a b s same h = rw (sym same) h

-- What an answer that is taken up does: its number is above the recorded one, and is recorded.
pub record Taken (answer : Json) (st st' : AgentState) : Type 0 where
  pub sequence : ℕ
  pub numbered : sequence_in answer ≡ int (pos sequence)
  pub prior : ℤ
  pub recorded : int_value (get_or "platform_envelope_sequence" (int (pos 0)) st.state) ≡ some prior
  pub above : leb_ℤ (pos sequence) prior ≡ false
  pub written : get_or "platform_envelope_sequence" (int (pos 0)) st'.state ≡ int (pos sequence)

record AnswerNumbered (answer : Json) (st : AgentState) (payload : Fields) : Type 0 where
  result : Fields
  is_result : answer ≡ dict result
  envelope : Json
  has_envelope : get "platform_envelope" result ≡ envelope
  numbered : Numbered envelope st.state payload

at_key_lem : (k : String) (fs : Fields) {v : Json} → at_key k fs ≡ ok v → get k fs ≡ v
at_key_lem k fs e = ground arith

dict_lem : (v : Json) {fs : Fields} → as_dict v ≡ some fs → v ≡ dict fs
dict_lem v e = ground arith

verify-AnswerNumbered :
    (L : Library) (now : ℕ) (kind : String) (answer : Json) (pinned : Bytes) (st : AgentState)
    {payload : Fields} {st' : AgentState}
    → verify_answer L now kind answer pinned st ≡ ok (payload, st')
    → AnswerNumbered answer st payload
unfolding verify_answer
verify-AnswerNumbered L now kind answer pinned st {payload} e =
    after (or_raise (as_dict answer) _) _ e λ result shaped e.
      after (at_key "platform_trust" result) _ e λ trust_value has_trust e.
        after (or_raise (as_dict trust_value) _) _ e λ trust is_trust e.
          after (verification_key L st.state trust pinned) _ e λ key chosen e.
            after (at_key "platform_envelope" result) _ e λ envelope has_envelope e.
              after (at_key "platform_signature" result) _ e λ signature has_signature e.
                after (at_key "agent_identity_fingerprint" st.state) _ e λ identity known e.
                  after
                    (verify_platform_envelope L now kind (L.py_str identity) st.state envelope
                      signature trust key)
                    _ e
                    λ verified checked e.
                      after (apply_platform_key_rotation L verified key st) _ e λ rotated applied e.
                        record {
                          result = result;
                          is_result = dict_lem answer (or_raise-eq-ok _ _ shaped);
                          envelope = envelope;
                          has_envelope = at_key_lem "platform_envelope" result has_envelope;
                          numbered =
                              moved envelope verified payload
                                (pair_lem (ok (verified, rotated)) refl e)
                                (verify-Numbered L now kind (L.py_str identity) st.state envelope
                                  signature trust key checked);
                        }
  where
    pair_lem :
        (r : Result (Fields × AgentState)) {a b : Fields} {s t : AgentState}
        → r ≡ ok (a, s)
        → r ≡ ok (b, t)
        → a ≡ b
    pair_lem r h e = ground arith

    moved : (v : Json) (a b : Fields) → a ≡ b → Numbered v st.state a → Numbered v st.state b
    moved v a b same h = rw (sym same) h

get_or-put :
    (v : Json) (fs : Fields)
    → get_or "platform_envelope_sequence" (int (pos 0)) (put "platform_envelope_sequence" v fs) ≡ v
unfolding string_eq
get_or-put v fs = refl

taken_lem :
    (answer : Json) (st st' : AgentState) (payload : Fields) (v : Json) (kept_state : Fields)
    → AnswerNumbered answer st payload
    → at_key "platform_envelope_sequence" payload ≡ ok v
    → st'.state ≡ put "platform_envelope_sequence" v kept_state
    → Taken answer st st'
taken_lem answer st st' payload v kept_state a found written = record {
  sequence = a.numbered.sequence;
  numbered = rw (a.is_result, a.has_envelope, a.numbered.is_envelope) a.numbered.above.numbered;
  prior = a.numbered.above.prior;
  recorded = a.numbered.above.recorded;
  above = a.numbered.above.above;
  written = rw written (get_or-put v kept_state ∙ ok_lem (sym found ∙ a.numbered.carried));
}
  where
    ok_lem : {a b : Json} → ok a ≡ ok b → a ≡ b
    ok_lem e = ground arith

pub signed_control-Taken :
    (L : Library) (now : ℕ) (kind : String) (answer : Json) (st : AgentState) {payload : Fields}
    {st' : AgentState}
    → signed_control L now kind answer st ≡ ok (payload, st')
    → Taken answer st st'
unfolding signed_control verify_control_response
signed_control-Taken L now kind answer st {payload} {st'} e =
    after (verify_control_response L now kind answer st) _ e λ taken verified e.
      after (at_key "platform_envelope_sequence" taken.0) _ e λ v found e.
        after (load_platform_command_key L st.key_file) _ verified λ pinned loaded verified.
          taken_lem answer st st' taken.0 v taken.1.state
            (verify-AnswerNumbered L now kind answer pinned st (on_error-eq-ok _ _ verified)) found
            (ground arith)

-- A recorded number, and one that is above it.
above_lem :
    (v : Json) (last s : ℕ) (prior : ℤ)
    → v ≡ int (pos last)
    → int_value v ≡ some prior
    → leb_ℤ (pos s) prior ≡ false
    → last < s
above_lem v last s prior known recorded above =
    let same : prior ≡ pos last = prior_lem v known recorded in number_lem (rw same at above)
  where
    prior_lem : (v : Json) → v ≡ int (pos last) → int_value v ≡ some prior → prior ≡ pos last
    prior_lem v known recorded = some_lem (sym recorded ∙ ap int_value known)
      where
        some_lem : some prior ≡ some (pos last) → prior ≡ pos last
        some_lem e = ground arith

    number_lem : leb_ℤ (pos s) (pos last) ≡ false → last < s
    number_lem h = ground arith

Taken-IsPast :
    (n : ℕ) (answer : Json) (st st' : AgentState) → Taken answer st st' → IsPast n st → IsPast n st'
Taken-IsPast n answer st st' t p = record {
  last = t.sequence;
  recorded = t.written;
  reached = omega (
    arith,
    p.reached,
    above_lem (get_or "platform_envelope_sequence" (int (pos 0)) st.state) p.last t.sequence t.prior
        p.recorded t.recorded t.above,
  );
}

kept-IsPast :
    (n : ℕ) (answer : Json) (st : AgentState) (r : Result (Fields × AgentState))
    → ((payload : Fields) (st' : AgentState) → r ≡ ok (payload, st') → Taken answer st st')
    → IsPast n st
    → IsPast n (kept st r)
kept-IsPast n answer st (ok (payload, st')) taken p =
    Taken-IsPast n answer st st' (taken payload st' refl) p
kept-IsPast n answer st (err e) taken p = p

run-IsPast :
    (L : Library) (n : ℕ) (answers : List Answer) (st : AgentState)
    → IsPast n st
    → IsPast n (run L answers st)
unfolding run
run-IsPast L n [] st p = p
run-IsPast L n ((now, kind, answer) ∷ rest) st p =
    run-IsPast L n rest (kept st (signed_control L now kind answer st)) (
      kept-IsPast n answer st (signed_control L now kind answer st)
        (λ payload st' e. signed_control-Taken L now kind answer st e) p)

-- The number of an answer is one number.
one_number : (v : Json) {a b : ℕ} → v ≡ int (pos a) → v ≡ int (pos b) → a ≡ b
one_number v e f = num_lem (sym e ∙ f)
  where
    num_lem : {a b : ℕ} → int (pos a) ≡ int (pos b) → a ≡ b
    num_lem e = ground arith

-- An answer that the agent has taken up is never taken up again: not after any sequence of further
-- answers, at no time and for no request, and neither is any other answer with its sequence number.
pub run-no_replay :
    (L : Library) (now later : ℕ) (kind other : String) (answer again : Json) (st : AgentState)
    {payload : Fields} {st' : AgentState} (answers : List Answer) (payload2 : Fields)
    (st2 : AgentState)
    → signed_control L now kind answer st ≡ ok (payload, st')
    → sequence_in again ≡ sequence_in answer
    → signed_control L later other again (run L answers st') ≢ ok (payload2, st2)
run-no_replay L now later kind other answer again st {payload} {st'} answers payload2 st2 first same
      second =
    let a = signed_control-Taken L now kind answer st first in
    let b = signed_control-Taken L later other again (run L answers st') second in
    let past =
      run-IsPast L a.sequence answers st'
        (record { last = a.sequence; recorded = a.written; reached = omega arith }) in
    omega (
      arith,
      past.reached,
      one_number (sequence_in again) b.numbered (same ∙ a.numbered),
      above_lem (get_or "platform_envelope_sequence" (int (pos 0)) (run L answers st').state)
          past.last b.sequence b.prior past.recorded b.recorded b.above,
    )
