-- ===== src/Agent/Contract/Trust.antt =====
-- Whom a contract that the agent accepts comes from.
use lsa.Base.{
  String, true, ◌≡◌, sym, string_eq, nat_eq, ok, after, after_check, require, require-eq-ok,
  or_raise, arith,
}
use lsa.Json.{Json, Fields, dict, get, py_eq}
use lsa.Library.{Library, Bytes}
use lsa.Agent.Contract.{exact_keys, is_key, is_signed_by, decode_public_key, verify_signature}
use lsa.Agent.Contract.Preview.{
  Pins, endorsement_keys, is_bound, change_set_keys, payload_keys, same_payload, trusted_payload,
}
use lsa.Agent.Contract.Backups.{exact_keys-eq-ok}

-- A signature of the document, under a raw key.
abbrev pub IsSigned : Library → Bytes → Fields → Type 0
IsSigned L key document = (signature : Bytes) × (is_signed_by L key document signature ≡ true)

verify-IsSigned :
    (L : Library) (key : Bytes) (signature : Json) (document : Fields) (label : String)
    → verify_signature L key signature document label ≡ ok tt
    → IsSigned L key document
unfolding verify_signature
verify-IsSigned L key signature document label e =
    after (or_raise (L.b64decode (L.py_str signature)) _) _ e
      λ decoded known e. (decoded, require-eq-ok _ _ e)

-- The payload is signed by a key that the pinned platform key endorses, and has the signed digest.
pub record Trust (L : Library) (pins : Pins) (root payload : Fields) : Type 0 where
  pub endorsement : Fields
  pub has_endorsement : get "platform_endorsement" root ≡ dict endorsement
  pub bound : is_bound pins endorsement ≡ true
  pub endorsed : IsSigned L pins.platform_key endorsement
  pub change_set : Fields
  pub has_change_set : get "change_set" root ≡ dict change_set
  pub signer : py_eq (get "signing_key" change_set) (get "change_signing_key" endorsement) ≡ true
  pub descriptor : Fields
  pub has_descriptor : get "change_signing_key" endorsement ≡ dict descriptor
  pub change_key : Bytes
  pub keyed : is_key L descriptor change_key ≡ true
  pub has_payload : get "payload" change_set ≡ dict payload
  pub same : same_payload L payload change_set endorsement ≡ true
  pub signed : IsSigned L change_key payload

decode-is_key :
    (L : Library) (v : Json) (label : String) {raw : Bytes}
    → decode_public_key L v label ≡ ok raw
    → (fs : Fields) × (v ≡ dict fs) × (is_key L fs raw ≡ true)
unfolding decode_public_key
decode-is_key L v label {raw} e = after (exact_keys v _ label) _ e λ fs shaped e.
    after (or_raise (L.b64decode (L.py_str (get "public_key" fs))) _) _ e λ bytes known e.
      after_check (require (is_key L fs bytes) _) _ e λ keyed e. (
        fs,
        (exact_keys-eq-ok v _ label shaped).0,
        moved fs bytes raw (ground arith) (require-eq-ok _ _ keyed),
      )
  where
    moved : (fs : Fields) (a b : Bytes) → a ≡ b → is_key L fs a ≡ true → is_key L fs b ≡ true
    moved fs a b same h = rw (sym same) h

pub trusted-Trust :
    (L : Library) (pins : Pins) (root : Fields) {payload : Fields}
    → trusted_payload L pins root ≡ ok payload
    → Trust L pins root payload
unfolding trusted_payload
trusted-Trust L pins root e =
    after (exact_keys (get "platform_endorsement" root) endorsement_keys _) _ e
      λ endorsement known e. after_check (require (is_bound pins endorsement) _) _ e λ bound e.
        after_check (verify_signature L pins.platform_key _ endorsement _) _ e λ endorsed e.
          after (exact_keys (get "change_set" root) change_set_keys _) _ e λ change_set listed e.
            after_check (require (py_eq (get "signing_key" change_set) _) _) _ e λ signer e.
              after (decode_public_key L (get "change_signing_key" endorsement) _) _ e
                λ change_key decoded e.
                  after (exact_keys (get "payload" change_set) payload_keys _) _ e λ payload has e.
                    after_check (require (same_payload L payload change_set endorsement) _) _ e
                      λ same e.
                        after_check (verify_signature L change_key _ payload _) _ e λ signed e.
                          let (descriptor, has_descriptor, keyed) = decode-is_key L _ _ decoded in
                          moved _ _ (ground arith) (record {
                            endorsement = endorsement;
                            has_endorsement = (exact_keys-eq-ok _ _ _ known).0;
                            bound = require-eq-ok _ _ bound;
                            endorsed = verify-IsSigned L pins.platform_key _ endorsement _ endorsed;
                            change_set = change_set;
                            has_change_set = (exact_keys-eq-ok _ _ _ listed).0;
                            signer = require-eq-ok _ _ signer;
                            descriptor = descriptor;
                            has_descriptor = has_descriptor;
                            change_key = change_key;
                            keyed = keyed;
                            has_payload = (exact_keys-eq-ok _ _ _ has).0;
                            same = require-eq-ok _ _ same;
                            signed = verify-IsSigned L change_key _ payload _ signed;
                          })
  where
    moved : (a b : Fields) → a ≡ b → Trust L pins root a → Trust L pins root b
    moved a b same t = rw (sym same) t
