-- ===== src/WritePath.antt =====
-- src/write_path.cpp and include/minikv/write_path.hpp: writes go to the log first, then to the
-- table, under a sequence number that is never used again.
pub mod Failed
pub mod Log
pub mod Appended
pub mod Durable
pub mod Reopened
pub mod Synced
pub mod Cut
pub mod Crashed
use Prim.Native.String.{◌++◌ as concat}
use mini_kv_storage_engine.Base.{
  ℕ, ◌+◌, Bool, true, false, not, Option, none, some, [], ◌==◌, if◌then◌else◌,
}
use mini_kv_storage_engine.Bytes.{Bytes}
use mini_kv_storage_engine.Status.{
  Status, ok_status, invalid_argument, corruption, is_ok, to_string,
}
use mini_kv_storage_engine.Config.{Options, ValueType, SyncMode, max_u64}
use mini_kv_storage_engine.MemTable.{MemTable, LookupResult, new_memtable}
use mini_kv_storage_engine.MemTable.{get as table_get}
use mini_kv_storage_engine.Wal.{WalRecord, validate_wal_record}
use mini_kv_storage_engine.Wal.Writer.{WalWriter, new_wal_writer, is_invalid, append}
use mini_kv_storage_engine.File.{WritableFile}
use mini_kv_storage_engine.Recovery.{Recovered, apply}

pub record WritePath : Type 0 where
  pub options : Options
  pub wal : WalWriter
  pub memtable : MemTable
  pub last_sequence : ℕ
  pub status : Status

-- Create, on a file that is not null.
abbrev pub create : Options → WritePath
create options = record {
  options = options;
  wal = new_wal_writer options;
  memtable = new_memtable options;
  last_sequence = 0;
  status = ok_status;
}

-- What Open makes of the outputs of RecoverWal.
abbrev pub reopened : Options → Recovered → WritePath
reopened options (recovered, result) = record {
  options = options;
  wal = new_wal_writer options;
  memtable = recovered;
  last_sequence = result.max_sequence;
  status = ok_status;
}

abbrev pub numbered : ℕ → ValueType → Bytes → Bytes → WalRecord
numbered sequence type key value = record {
  type = type;
  sequence = sequence;
  key = key;
  value = value;
}

-- The end of Write: the record is in the log, and goes to the table.
abbrev pub publish : WalRecord → WalWriter → WritePath → Status × WritePath
publish r wal p =
    let (status, memtable) = apply r p.memtable in
    if not (is_ok status)
    then (let failed =
          corruption
            (concat "WAL append succeeded but MemTable apply failed: " (to_string status)) in
        (failed, record p { wal = wal; memtable = memtable; status = failed }))
    else (ok_status, record p { wal = wal; memtable = memtable })

unfoldable pub write :
    {S : Type 0}
    → WritableFile S
    → ℕ
    → ValueType
    → Bytes
    → Bytes
    → SyncMode
    → WritePath
    → S
    → Option ((Status × WritePath) × S)
write file fuel type key value mode p s =
    let validation = validate_wal_record (numbered 1 type key value) p.options in
    if not (is_ok validation)
    then some ((validation, p), s)
    else if is_invalid mode
    then some ((invalid_argument "write sync mode is invalid", p), s)
    else if not (is_ok p.status)
    then some ((p.status, p), s)
    else if not (is_ok p.wal.status)
    then some ((p.wal.status, record p { status = p.wal.status }), s)
    else if p.last_sequence == max_u64
    then some ((invalid_argument "sequence number space is exhausted", p), s)
    else let r = numbered (p.last_sequence + 1) type key value in
      let next = record p { last_sequence = p.last_sequence + 1 } in
      elim (append file fuel r mode p.wal s) [
        | none ↦ none
        | some ((status, wal), s') ↦
            if not (is_ok status)
            then some ((status, record next { wal = wal; status = status }), s')
            else some (publish r wal next, s')
      ]

module _ {S : Type 0} (file : WritableFile S) where
  unfoldable pub put_key :
      ℕ → Bytes → Bytes → SyncMode → WritePath → S → Option ((Status × WritePath) × S)
  put_key fuel key value mode p s = write file fuel ValueType.value key value mode p s

  unfoldable pub delete_key :
      ℕ → Bytes → SyncMode → WritePath → S → Option ((Status × WritePath) × S)
  delete_key fuel key mode p s = write file fuel ValueType.deletion key [] mode p s

unfoldable pub get_key : Bytes → WritePath → LookupResult
get_key key p = table_get key p.memtable
