-- ===== src/Scenario/Doubles.antt =====
-- Stand-ins for the third-party functions, which accept what they are given, and a catalog action.
use lsa.Base.{
  ℕ, zero, suc, String, true, false, [], ◌∷◌, Option, none, some, if◌then◌else◌, ◌==◌, string_eq,
  pos,
}
use lsa.Json.{Json, end, null, int, str}
use lsa.Library.{Library, Bytes, aware, minutes}
use lsa.Schema.Action.{Action, Operation, restore_backup}

abbrev pub zeros : ℕ → Bytes
zeros zero = []
zeros (suc n) = 0 ∷ zeros n

abbrev pub text_of : Json → String
text_of (str s) = s
text_of _ = ""

abbrev pub number_of : Json → Option ℕ
number_of (int (pos n)) = some n
number_of _ = none

abbrev pub restore : Operation
restore = record {
  kind = restore_backup;
  resource = "sshd";
  path = some "/etc/ssh/sshd_config";
  format = none;
  key = none;
  value_from = none;
  backup_required = false;
}

abbrev pub action : Action
action = record {
  action_id = "linux.ssh";
  version = 1;
  digest = "digest";
  control_ids = "ssh-1" ∷ [];
  title = "SSH";
  description = "SSH";
  supported_systems = record { family = "debian"; versions = "12" ∷ [] } ∷ [];
  risk = "low";
  parameters = [];
  preconditions = [];
  operations = [];
  validation = [];
  rollback = restore ∷ [];
  impact = null;
}

abbrev pub toy : Library
toy = record {
  canonical = λ doc. [];
  sha256 = λ bytes. "digest";
  b64decode = λ text. if text == "signature" then some (zeros 64) else some (zeros 32);
  b64encode = λ bytes. "signature";
  ed25519_verify = λ key message signature. true;
  ed25519_sign = λ key message. [];
  decrypt_secret = λ text. some text;
  parse_iso = λ text.
      if text == "start"
      then some (aware (minutes 60))
      else if text == "soon"
      then some (aware (minutes 65))
      else some (aware (minutes 120));
  iso_format = λ t. "time";
  py_str = text_of;
  py_int = number_of;
  lower = λ text. text;
  strip = λ text. text;
  posix_parts = λ path. path ∷ [];
  posix_str = λ path. path;
  find_paths = λ text. [];
  load_action = λ doc. some action;
  dump_action = λ a. end;
}
