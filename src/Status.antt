-- ===== src/Status.antt =====
-- include/minikv/status.hpp and src/status.cpp: the status that every operation reports.
pub mod Code
use Prim.Native.String.{◌++◌ as concat}
use text.Mathlib.Text.{◌==◌ as str_eq}
use mini_kv_storage_engine.Base.{ℕ, String, Bool, true, false, if◌then◌else◌}
use Code.{StatusCode}

pub record Status : Type 0 where
  pub code : StatusCode
  pub message : String

-- `Status::Ok()`, which is also the default constructor.
abbrev pub ok_status : Status
ok_status = record { code = StatusCode.ok; message = "" }

abbrev pub not_found : String → Status
not_found message = record { code = StatusCode.not_found; message = message }

abbrev pub incomplete : String → Status
incomplete message = record { code = StatusCode.incomplete; message = message }

abbrev pub invalid_argument : String → Status
invalid_argument message = record { code = StatusCode.invalid_argument; message = message }

abbrev pub io_error : String → Status
io_error message = record { code = StatusCode.io_error; message = message }

abbrev pub corruption : String → Status
corruption message = record { code = StatusCode.corruption; message = message }

abbrev pub version_mismatch : String → Status
version_mismatch message = record { code = StatusCode.version_mismatch; message = message }

abbrev pub closed : String → Status
closed message = record { code = StatusCode.closed; message = message }

abbrev pub is_ok : Status → Bool
is_ok s = elim s.code [ StatusCode.ok ↦ true | _ ↦ false ]

abbrev pub is_not_found : Status → Bool
is_not_found s = elim s.code [ StatusCode.not_found ↦ true | _ ↦ false ]

abbrev pub is_incomplete : Status → Bool
is_incomplete s = elim s.code [ StatusCode.incomplete ↦ true | _ ↦ false ]

unfoldable pub status_code_name : StatusCode → String
status_code_name StatusCode.ok = "OK"
status_code_name StatusCode.not_found = "NotFound"
status_code_name StatusCode.incomplete = "Incomplete"
status_code_name StatusCode.invalid_argument = "InvalidArgument"
status_code_name StatusCode.io_error = "IOError"
status_code_name StatusCode.corruption = "Corruption"
status_code_name StatusCode.version_mismatch = "VersionMismatch"
status_code_name StatusCode.closed = "Closed"

unfoldable pub to_string : Status → String
unfolding status_code_name
to_string s =
    let name = status_code_name s.code in
    if str_eq s.message "" then name else concat (concat name ": ") s.message
