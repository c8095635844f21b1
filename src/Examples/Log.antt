-- ===== src/Examples/Log.antt =====
-- A log of two records and a torn third one.
use mini_kv_storage_engine.Base.{
  none, ◌≡◌, refl, some, List, [], ◌∷◌, ◌++◌, arith, length, take, drop,
}
use mini_kv_storage_engine.Bytes.{Bytes}
use mini_kv_storage_engine.Status.{incomplete}
use mini_kv_storage_engine.Result.{ok, err}
use mini_kv_storage_engine.Config.{ValueType, default_options}
use mini_kv_storage_engine.Coding.{
  put_fixed16, put_fixed32, put_fixed64, decode_fixed16, decode_fixed32, decode_fixed64,
}
use mini_kv_storage_engine.Coding.Fixed.{decode-put}
use mini_kv_storage_engine.MemTable.{new_memtable}
use mini_kv_storage_engine.Wal.{WalRecord, decode_wal_record, validate_lengths}
use mini_kv_storage_engine.Wal.Encoded.{IsAccepted, encoding, encode_lem}
use mini_kv_storage_engine.Wal.RoundTrip.{decode-encode, decode_truncated}
use mini_kv_storage_engine.Recovery.{no_recovery, recover_wal}
use mini_kv_storage_engine.OrderedMap.{find}
use mini_kv_storage_engine.Recovery.Newest.{newest, replay-newest}
use mini_kv_storage_engine.Recovery.Replay.{start, encodings, replay}
use mini_kv_storage_engine.Recovery.Tail.{Torn, remains, finish}
use mini_kv_storage_engine.Recovery.Torn.{recover-log}
use mini_kv_storage_engine.Examples.Files.{memory_file, memory_healthy}

abbrev put_record : WalRecord
put_record = record { type = ValueType.value; sequence = 1; key = 97 ∷ []; value = 120 ∷ 121 ∷ [] }

abbrev delete_record : WalRecord
delete_record = record { type = ValueType.deletion; sequence = 2; key = 97 ∷ []; value = [] }

abbrev torn_record : WalRecord
torn_record = record { type = ValueType.value; sequence = 3; key = 98 ∷ []; value = 122 ∷ [] }

put_record-IsAccepted : IsAccepted default_options put_record
unfolding validate_lengths
put_record-IsAccepted = record {
  known = refl;
  some_sequence = omega arith;
  lengths = refl;
  size_fits = omega arith;
}

delete_record-IsAccepted : IsAccepted default_options delete_record
unfolding validate_lengths
delete_record-IsAccepted = record {
  known = refl;
  some_sequence = omega arith;
  lengths = refl;
  size_fits = omega arith;
}

torn_record-IsAccepted : IsAccepted default_options torn_record
unfolding validate_lengths
torn_record-IsAccepted = record {
  known = refl;
  some_sequence = omega arith;
  lengths = refl;
  size_fits = omega arith;
}

decode-encode_example :
    decode_wal_record (encoding put_record ++ (1 ∷ 2 ∷ [])) default_options
    ≡ ok (length (encoding put_record), put_record)
decode-encode_example =
    decode-encode put_record default_options (encoding put_record) (1 ∷ 2 ∷ []) (omega arith)
      (encode_lem put_record default_options put_record-IsAccepted)

decode_truncated_example :
    decode_wal_record (take 34 (encoding put_record)) default_options
    ≡ err (incomplete "WAL record payload is incomplete")
decode_truncated_example =
    decode_truncated put_record default_options (encoding put_record) 34 (omega arith)
      (encode_lem put_record default_options put_record-IsAccepted) (omega arith)

abbrev torn_end : Torn default_options
torn_end = record {
  torn = torn_record;
  kept = 33;
  made = λ _. omega arith;
  accepted = λ _. torn_record-IsAccepted;
  cut = omega arith;
}

abbrev two_records : List WalRecord
two_records = put_record ∷ delete_record ∷ []

abbrev disk : Bytes
disk = encoding put_record ++ (encoding delete_record ++ remains torn_end)

recover-log_example :
    (s' : Bytes) × (recover_wal memory_file 1000 default_options disk
      ≡ some (
        ok (
            finish
              (length disk)
              (length (encodings two_records))
              (replay 0 two_records (new_memtable default_options, no_recovery))),
        s',
      ))
    × (s' ≡ encodings two_records)
unfolding encodings
recover-log_example =
    recover-log memory_file memory_healthy 1000 default_options two_records torn_end disk refl
      (omega arith) (omega arith)
      (
        omega arith,
        put_record-IsAccepted,
        omega arith,
        (omega arith, delete_record-IsAccepted, omega arith, tt),
      )

decode-put_example :
    (decode_fixed16 (drop 1 (put_fixed16 (9 ∷ []) 300 ++ (5 ∷ []))) ≡ some 300)
    × (decode_fixed32 (drop 1 (put_fixed32 (9 ∷ []) 70000 ++ (5 ∷ []))) ≡ some 70000)
    × (decode_fixed64 (drop 1 (put_fixed64 (9 ∷ []) 5000000000 ++ (5 ∷ []))) ≡ some 5000000000)
    × (length (put_fixed16 (9 ∷ []) 300) ≡ 3)
    × (length (put_fixed32 (9 ∷ []) 70000) ≡ 5)
    × (length (put_fixed64 (9 ∷ []) 5000000000) ≡ 9)
decode-put_example =
    decode-put (9 ∷ []) (5 ∷ []) 300 70000 5000000000 (omega arith) (omega arith) (omega arith)

replay-newest_example :
    (find (97 ∷ []) (replay 0 two_records (start default_options)).0.entries
      ≡ newest (97 ∷ []) two_records none)
    × ((replay 0 two_records (start default_options)).1.records_recovered ≡ 2)
    × ((replay 0 two_records (start default_options)).1.valid_bytes
        ≡ length (encodings two_records))
    × ((replay 0 two_records (start default_options)).1.max_sequence ≡ 2)
    × ((replay 0 two_records (start default_options)).1.min_sequence ≡ 1)
unfolding encodings
replay-newest_example =
    replay-newest default_options (97 ∷ []) two_records
      (
        omega arith,
        put_record-IsAccepted,
        omega arith,
        (omega arith, delete_record-IsAccepted, omega arith, tt),
      )
      (omega arith)
