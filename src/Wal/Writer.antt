-- ===== src/Wal/Writer.antt =====
-- WalWriter of src/wal.cpp: it appends records to the log, and stays failed after an I/O error.
use mini_kv_storage_engine.Base.{ℕ, Bool, true, false, not, Option, none, some, if◌then◌else◌}
use mini_kv_storage_engine.Status.{Status, ok_status, invalid_argument, io_error, is_ok}
use mini_kv_storage_engine.Result.{ok, err}
use mini_kv_storage_engine.Config.{Options, SyncMode}
use mini_kv_storage_engine.Wal.{WalRecord, encode_wal_record}
use mini_kv_storage_engine.File.{WritableFile, write_all}

-- The fields beside the file, which is a parameter of the operations.
pub record WalWriter : Type 0 where
  pub options : Options
  pub status : Status

-- The constructor, on a file that is not null.
abbrev pub new_wal_writer : Options → WalWriter
new_wal_writer options = record { options = options; status = ok_status }

-- `sync_mode != kSync && sync_mode != kAsync`
abbrev pub is_invalid : SyncMode → Bool
is_invalid (SyncMode.invalid n) = true
is_invalid _ = false

abbrev pub remember_failure : Status → WalWriter → Status × WalWriter
remember_failure status w =
    let status' =
      if is_ok status then io_error "WAL entered a failed state without an error" else status in
    (status', record w { status = status' })

abbrev pub is_sync : SyncMode → Bool
is_sync SyncMode.sync = true
is_sync _ = false

-- `fuel` is that of WriteAll.
unfoldable pub append :
    {S : Type 0}
    → WritableFile S
    → ℕ
    → WalRecord
    → SyncMode
    → WalWriter
    → S
    → Option ((Status × WalWriter) × S)
append file fuel r mode w s =
    if not (is_ok w.status)
    then some ((w.status, w), s)
    else if is_invalid mode
    then some ((invalid_argument "WAL sync mode is invalid", w), s)
    else elim (encode_wal_record r w.options) [
      | err status ↦ some ((status, w), s)
      | ok encoded ↦ elim (write_all file fuel encoded 0 s) [
        | none ↦ none
        | some (status, s') ↦
            if not (is_ok status)
            then some (remember_failure status w, s')
            else if is_sync mode
            then (let (sync_status, s'') = file.sync s' in
                if not (is_ok sync_status)
                then some (remember_failure sync_status w, s'')
                else some ((ok_status, w), s''))
            else some ((ok_status, w), s')
      ]
    ]
