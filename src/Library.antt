-- ===== src/Library.antt =====
-- The third-party and standard-library functions that the platform and the agent call: hashing,
-- Base64, Ed25519, Fernet, JSON printing, ISO dates, Unicode case, regular expressions, Pydantic.
-- They are the fields of a record, which the definitions take as a parameter.
use lsa.Base.{ℕ, ◌*◌, String, Bool, true, false, ◌&&◌, List, [], ◌∷◌, Option, ◌==◌, nat_eq}
use lsa.Json.{Json, Fields}
use lsa.Schema.Action.{Action}

abbrev pub Bytes : Type 0
Bytes = List ℕ

-- `a == b` for two `bytes`
abbrev pub same_bytes : Bytes → Bytes → Bool
same_bytes [] [] = true
same_bytes (x ∷ xs) (y ∷ ys) = x == y && same_bytes xs ys
same_bytes _ _ = false

-- A `datetime`, in microseconds from the first that Python knows; `naive` has no time zone.
pub data Moment : Type 0 where
  naive : ℕ → Moment
  aware : ℕ → Moment

pub record Library : Type 0 where
  -- `json.dumps(value, sort_keys=True, separators=(",", ":"), ensure_ascii=False).encode()`
  pub canonical : Json → Bytes
  -- `hashlib.sha256(data).hexdigest()`
  pub sha256 : Bytes → String
  -- `base64.b64decode(text, validate=True)`, none for a `ValueError`; and `b64encode(…).decode()`
  pub b64decode : String → Option Bytes
  pub b64encode : Bytes → String
  -- `Ed25519PublicKey.from_public_bytes(raw).verify(signature, message)`, by raw key
  pub ed25519_verify : Bytes → Bytes → Bytes → Bool
  pub ed25519_sign : Bytes → Bytes → Bytes
  -- `decrypt_secret(text, …)`, none for an `InvalidToken`
  pub decrypt_secret : String → Option String
  -- `datetime.fromisoformat(text.replace("Z", "+00:00"))`, and `isoformat()`
  pub parse_iso : String → Option Moment
  pub iso_format : ℕ → String
  -- `str(value)`, and `int(value)` where that is a number from 0 on
  pub py_str : Json → String
  pub py_int : Json → Option ℕ
  -- `text.lower()`, `text.strip()`
  pub lower : String → String
  pub strip : String → String
  -- `PurePosixPath(text).parts` and `str(PurePosixPath(text))`
  pub posix_parts : String → List String
  pub posix_str : String → String
  -- `[m.rstrip(".,;:") for m in PATH_PATTERN.findall(text)]`
  pub find_paths : String → List String
  -- `RemediationActionResponse.model_validate`, none for a `ValidationError`, and `model_dump`
  pub load_action : Json → Option Action
  pub dump_action : Action → Fields

abbrev pub minutes : ℕ → ℕ
minutes n = n * 60_000_000

-- `_aware(moment)`: a time without a zone is taken as UTC.
abbrev pub instant : Moment → ℕ
instant (naive t) = t
instant (aware t) = t

-- `hashlib.sha256(json.dumps(…)).hexdigest()`
abbrev pub digest_of : Library → Json → String
digest_of L doc = L.sha256 (L.canonical doc)
