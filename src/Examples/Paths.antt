-- ===== src/Examples/Paths.antt =====
-- A path over a file that takes one byte at a time.
use mini_kv_storage_engine.Base.{
  ℕ, min, length-append, take, ◌++◌, ◌+◌, ◌≡◌, refl, true, false, some, [], ◌∷◌, arith, ◌⊎◌, length,
  sym, append-nil, ◌≤◌, ◌^◌,
}
use mini_kv_storage_engine.Bytes.{Bytes}
use mini_kv_storage_engine.Status.{Status, is_ok, ok_status, io_error}
use mini_kv_storage_engine.Config.{ValueType, SyncMode, default_options, max_u64}
use mini_kv_storage_engine.WritePath.{WritePath, create, reopened, write, numbered}
use mini_kv_storage_engine.WritePath.Appended.{IsLogFile}
use mini_kv_storage_engine.WritePath.Failed.{write-failed, sequence-write}
use mini_kv_storage_engine.WritePath.Durable.{IsRunning, Outcome, write_total}
use mini_kv_storage_engine.WritePath.Reopened.{reopened-IsRunning}
use mini_kv_storage_engine.WritePath.Crashed.{Survives, recover-write}
use mini_kv_storage_engine.WritePath.Synced.{IsDurableFile}
use mini_kv_storage_engine.Recovery.Replay.{encodings, replay, start, IsLog}
use mini_kv_storage_engine.Recovery.{apply}
use mini_kv_storage_engine.OrderedMap.{find, insert}
use mini_kv_storage_engine.Coding.{
  put_fixed16, put_fixed32, put_fixed64, crc32c, extend_crc32c, crc_bits, crc_bit,
}
use mini_kv_storage_engine.MemTable.{new_memtable, put, add, validate, encoded_payload_size}
use mini_kv_storage_engine.Wal.{
  WalRecord, encode_wal_record, validate_wal_record, validate_lengths, header_prefix,
  record_checksum,
}
use mini_kv_storage_engine.Wal.Encoded.{encoding}
use mini_kv_storage_engine.Wal.Writer.{append}
use mini_kv_storage_engine.File.{WritableFile, WriteResultKind, write_all}
use mini_kv_storage_engine.File.Writing.{written}
use mini_kv_storage_engine.Recovery.Tail.{finish}
use mini_kv_storage_engine.Examples.Files.{memory_file, memory_healthy, byte_file, byte_appending}

abbrev log_file : IsLogFile byte_file
log_file = record { appending = byte_appending; syncs = λ s. refl }

abbrev key_a : Bytes
key_a = 97 ∷ []

abbrev fresh_path : WritePath
fresh_path = create default_options

fresh-IsRunning : IsRunning log_file default_options [] fresh_path []
unfolding encodings replay
fresh-IsRunning = record {
  path_options = refl;
  wal_options = refl;
  content = refl;
  table = refl;
  log = tt;
  frontier = omega arith;
  counter = omega arith;
  running = refl;
  wal_running = refl;
}

empty_room : length (encodings []) + 2 ^ 32 ≤ max_u64
unfolding encodings
empty_room = omega arith

write_total_example :
    (status : Status) × (p' : WritePath) × (s' : Bytes) × (write byte_file 4294967296
        ValueType.value key_a
        (7 ∷ [])
        SyncMode.sync
        fresh_path
        []
      ≡ some ((status, p'), s'))
    × Outcome log_file default_options [] fresh_path []
        (numbered 1 ValueType.value key_a (7 ∷ []))
        status
        p'
        s'
write_total_example =
    write_total log_file default_options [] fresh_path [] 4294967296 ValueType.value key_a (7 ∷ [])
      SyncMode.sync fresh-IsRunning (omega arith) (omega arith) empty_room (omega arith)

abbrev broken_path : WritePath
broken_path = record fresh_path { status = io_error "disk full" }

write-failed_example :
    (status : Status) × (write byte_file 5 ValueType.value key_a [] SyncMode.sync broken_path []
      ≡ some ((status, broken_path), []))
    × (is_ok status ≡ false)
write-failed_example =
    write-failed byte_file 5 ValueType.value key_a [] SyncMode.sync broken_path [] refl

abbrev put_a : WalRecord
put_a = numbered 1 ValueType.value key_a (7 ∷ [])

abbrev after_put : WritePath
after_put = record fresh_path {
  memtable = (apply put_a (new_memtable default_options)).1;
  last_sequence = 1;
}

put_a_runs :
    write byte_file 4294967296 ValueType.value key_a (7 ∷ []) SyncMode.sync fresh_path []
    ≡ some ((ok_status, after_put), encoding put_a)
unfolding write append write_all encode_wal_record validate_wal_record validate_lengths
    header_prefix put_fixed16 put_fixed32 put_fixed64 record_checksum crc32c extend_crc32c crc_bits
    crc_bit apply put add validate encoded_payload_size find insert
put_a_runs = refl

-- A file behind a cache: its content, and the length of the part that is on the disk.
abbrev cached_file : WritableFile (Bytes × ℕ)
cached_file = record {
  write_some = λ input s. (
    record { kind = WriteResultKind.written; bytes_written = 1; status = ok_status },
    (s.0 ++ take 1 input, s.1),
  );
  sync = λ s. (ok_status, (s.0, length s.0));
  name = "wal";
}

abbrev cached_log : IsLogFile cached_file
cached_log = record {
  appending = record {
    content = λ s. s.0;
    patience = λ _. 0;
    writes = λ input s h. written refl (omega arith) h refl (omega arith);
  };
  syncs = λ s. refl;
}

abbrev cached_durable : IsDurableFile cached_log
cached_durable = record {
  durable = λ s. min s.1 (length s.0);
  written = λ bytes s. omega (arith, length-append s.0 (take 1 bytes));
  sync_kept = λ s. omega arith;
  synced = λ s h. omega arith;
}

cached-IsRunning : IsRunning cached_log default_options [] fresh_path ([], 0)
unfolding encodings replay
cached-IsRunning = record {
  path_options = refl;
  wal_options = refl;
  content = refl;
  table = refl;
  log = tt;
  frontier = omega arith;
  counter = omega arith;
  running = refl;
  wal_running = refl;
}

cached_put_runs :
    write cached_file 4294967296 ValueType.value key_a (7 ∷ []) SyncMode.sync fresh_path ([], 0)
    ≡ some ((ok_status, after_put), (encoding put_a, 34))
unfolding write append write_all encode_wal_record validate_wal_record validate_lengths
    header_prefix put_fixed16 put_fixed32 put_fixed64 record_checksum crc32c extend_crc32c crc_bits
    crc_bit apply put add validate encoded_payload_size find insert
cached_put_runs = refl

no_records : length (encodings []) ≤ 0
unfolding encodings
no_records = omega arith

recover-write_example :
    Survives memory_file memory_healthy 1000 default_options
      (encoding put_a)
      []
      []
      put_a
      SyncMode.sync
      ok_status
recover-write_example =
    recover-write cached_log cached_durable default_options [] [] [] fresh_path after_put ([], 0)
      (encoding put_a, 34) 4294967296 ValueType.value key_a (7 ∷ []) SyncMode.sync ok_status
      memory_file memory_healthy 1000 34 (encoding put_a) cached-IsRunning (omega arith)
      (omega arith) empty_room (omega arith) cached_put_runs refl no_records (omega arith) refl
      (omega arith) (omega arith)

sequence-write_example :
    ((encoding put_a ≡ []) × (after_put.last_sequence ≡ fresh_path.last_sequence) × (true ≡ false))
    ⊎ (after_put.last_sequence ≡ fresh_path.last_sequence + 1)
sequence-write_example =
    sequence-write byte_file 4294967296 ValueType.value key_a (7 ∷ []) SyncMode.sync fresh_path
      after_put [] (encoding put_a) ok_status put_a_runs

put_a-IsLog : IsLog default_options 0 (put_a ∷ [])
unfolding validate_lengths
put_a-IsLog = (
  record { sequence_fits = omega arith; key_bytes = omega arith; value_bytes = omega arith },
  record { known = refl; some_sequence = omega arith; lengths = refl; size_fits = omega arith },
  omega arith,
  tt,
)

put_a_alone : encoding put_a ≡ encodings (put_a ∷ [])
unfolding encodings
put_a_alone = sym (append-nil (encoding put_a))

reopened-IsRunning_example :
    IsRunning log_file default_options
      (put_a ∷ [])
      (reopened default_options (
        finish 40
          (length (encodings (put_a ∷ [])))
          (replay 0 (put_a ∷ []) (start default_options))))
      (encoding put_a)
reopened-IsRunning_example =
    reopened-IsRunning log_file default_options (put_a ∷ []) 40 (encoding put_a) put_a-IsLog
      put_a_alone
