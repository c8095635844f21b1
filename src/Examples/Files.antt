-- ===== src/Examples/Files.antt =====
-- A file in memory that answers every call in full: it meets the laws that the theorems ask for.
use mini_kv_storage_engine.Base.{
  ℕ, ◌-◌, ◌<◌, refl, [], ◌∷◌, ◌++◌, arith, length, take, drop, min, leb, if◌then◌else◌, Bool-cases,
  inl, inr,
}
use mini_kv_storage_engine.Bytes.{Bytes}
use mini_kv_storage_engine.Status.{ok_status}
use mini_kv_storage_engine.File.{
  WritableFile, RecoveryFile, ReadResult, ReadResultKind, WriteResultKind,
}
use mini_kv_storage_engine.File.Writing.{IsAppending, written, Written, write_all_total}
use mini_kv_storage_engine.File.Reading.{
  IsReadable, ReadStep, read, end_of_file, ReadsRegion, read_all_at_total,
}
use mini_kv_storage_engine.Recovery.Loop.{IsHealthy}

abbrev answer : ℕ → ℕ → Bytes → ReadResult × Bytes
answer offset size c =
    if leb (length c) offset
    then (record { kind = ReadResultKind.end_of_file; bytes_read = 0; status = ok_status }, [])
    else (
      record {
        kind = ReadResultKind.read;
        bytes_read = min size (length c - offset);
        status = ok_status;
      },
      take (min size (length c - offset)) (drop offset c),
    )

abbrev pub memory_file : RecoveryFile Bytes
memory_file = record {
  size = λ c. ((ok_status, length c), c);
  read_some = λ offset size c. (answer offset size c, c);
  truncate = λ n c. (ok_status, take n c);
  sync = λ c. (ok_status, c);
  name = "wal";
}

pub answer-ReadStep :
    (offset size : ℕ) (c : Bytes)
    → 0 < size
    → ReadStep c offset size 0 0 (answer offset size c).0 (answer offset size c).1
answer-ReadStep offset size c h = elim (Bool-cases (leb (length c) offset)) [
  | inl past ↦ rw past (end_of_file refl (ground arith) (omega arith))
  | inr inside ↦
      rw inside (read refl (ground arith) (omega arith) (ground arith) refl (omega arith))
]

abbrev pub memory_readable : IsReadable memory_file
memory_readable = record {
  content = λ c. c;
  patience = λ _. 0;
  reads = answer-ReadStep;
  unchanged = λ _ _ _. refl;
}

abbrev pub memory_healthy : IsHealthy memory_file
memory_healthy = record {
  readable = memory_readable;
  sized = λ s. (refl, refl, omega arith);
  truncates = λ n s inside. (refl, refl);
  syncs = λ s. (refl, refl);
}

-- A descriptor that takes one byte at a time.
abbrev pub byte_file : WritableFile Bytes
byte_file = record {
  write_some = λ input c. (
    record { kind = WriteResultKind.written; bytes_written = 1; status = ok_status },
    c ++ take 1 input,
  );
  sync = λ c. (ok_status, c);
  name = "wal";
}

abbrev pub byte_appending : IsAppending byte_file
byte_appending = record {
  content = λ c. c;
  patience = λ _. 0;
  writes = λ input c h. written refl (omega arith) h refl (omega arith);
}

write_all_total_example : Written byte_file byte_appending 9 (1 ∷ 2 ∷ 3 ∷ []) 0 (7 ∷ [])
write_all_total_example =
    write_all_total byte_file byte_appending (1 ∷ 2 ∷ 3 ∷ []) 9 0 (7 ∷ []) (omega arith)
      (omega arith)

read_all_at_total_example : ReadsRegion memory_file memory_readable 1 2 5 0 (7 ∷ 8 ∷ 9 ∷ [])
read_all_at_total_example =
    read_all_at_total memory_file memory_readable 1 2 5 0 (7 ∷ 8 ∷ 9 ∷ []) (omega arith)
      (omega arith) (omega arith) (omega arith)
