-- ===== src/Signing.antt =====
-- Ed25519 signatures over canonical JSON (apps/api/lsa/services/change_set_signing.py and
-- remediation_receipts.py): the tenant's change-signing key, and the checks of both sides.
use lsa.Base.{
  String, Bool, true, false, ◌&&◌, not, List, [], ◌∷◌, ◌++◌, Option, none, some, ltb, ◌==◌,
  string_eq, nat_eq, select, length, Result, ok, signing_error, ◌>>=◌, ◌>>◌, raise_if, or_raise,
  if◌then◌else◌,
}
use lsa.Json.{Fields, dict, is_some}
use lsa.Library.{Library, Bytes, digest_of}
use lsa.Schema.Fleet.{PlatformChangeSigningKey, PlatformCommandSigningKey}
use lsa.Schema.Database.{Db}

abbrev newest : List PlatformChangeSigningKey → Option PlatformChangeSigningKey
newest [] = none
newest (k ∷ keys) = elim (newest keys) [
  | none ↦ some k
  | some best ↦ if ltb k.created_at best.created_at then some best else some k
]

abbrev usable_keys : Db → String → List PlatformChangeSigningKey
usable_keys db tenant_id =
    select
      (λ (k : PlatformChangeSigningKey). k.tenant_id == tenant_id && not (is_some k.revoked_at))
      db.change_keys

-- `active_change_signing_key`: the key, whether it was created, and the database after it. The key
-- that `Ed25519PrivateKey.generate` would give is an argument.
unfoldable pub active_change_signing_key :
    PlatformChangeSigningKey → Db → String → PlatformChangeSigningKey × Bool × Db
active_change_signing_key generated db tenant_id = elim (newest (usable_keys db tenant_id)) [
  | some stored ↦ (stored, false, db)
  | none ↦ (generated, true, record db { change_keys = db.change_keys ++ (generated ∷ []) })
]

module _ (L : Library) where
  -- `payload_digest`, `validation_contract_digest`
  abbrev pub payload_digest : Fields → String
  payload_digest payload = digest_of L (dict payload)

  abbrev sign_with : String → String → Fields → Result String
  sign_with ciphertext failure payload = do
    encoded ← or_raise (L.decrypt_secret ciphertext) (signing_error failure)
    raw ← or_raise (L.b64decode encoded) (signing_error failure)
    raise_if (not (length raw == 32)) (signing_error failure)
    ok (L.b64encode (L.ed25519_sign raw (L.canonical (dict payload))))

  unfoldable pub sign_change_set : PlatformChangeSigningKey → Fields → Result String
  sign_change_set key payload = do
    raise_if (is_some key.revoked_at) (signing_error "Change-set signing key is revoked")
    sign_with key.private_key_ciphertext "Change-set signing key cannot be decrypted" payload

  -- `sign_platform_envelope` (apps/api/lsa/services/platform_command_trust.py)
  unfoldable pub sign_platform_envelope : PlatformCommandSigningKey → Fields → Result String
  sign_platform_envelope key envelope = do
    raise_if (is_some key.revoked_at) (signing_error "Platform command signing key is revoked")
    sign_with key.private_key_ciphertext "Platform command signing key cannot be decrypted" envelope

  abbrev verify_raw : Option Bytes → Option Bytes → Fields → Bool
  verify_raw (some public_raw) (some signature_raw) payload =
      length public_raw == 32
      && length signature_raw == 64
      && L.ed25519_verify public_raw (L.canonical (dict payload)) signature_raw
  verify_raw _ _ payload = false

  -- `verify_change_set_signature`, and `verify_validation_receipt`, which is the same function.
  unfoldable pub verify_signature : String → Fields → String → Bool
  verify_signature public_key payload signature =
      verify_raw (L.b64decode public_key) (L.b64decode signature) payload
