-- ===== src/Recovery.antt =====
-- src/recovery.cpp: a MemTable from the records of a write-ahead log.
pub mod Replay
pub mod Loop
pub mod Tail
pub mod Torn
pub mod Newest
use Prim.Native.String.{◌++◌ as concat}
use mini_kv_storage_engine.Base.{
  ℕ, zero, suc, ◌+◌, ◌-◌, String, Bool, true, false, not, none, some, [], ltb, leb, ◌==◌,
  if◌then◌else◌,
}
use mini_kv_storage_engine.Bytes.{Bytes}
use mini_kv_storage_engine.Status.{Status, corruption, is_ok, is_incomplete, to_string}
use mini_kv_storage_engine.Result.{Result, ok, err}
use mini_kv_storage_engine.Io.{Io, pure, checked, ◌>>=◌, ◌>>◌}
use mini_kv_storage_engine.Decimal.{decimal}
use mini_kv_storage_engine.Config.{Options, ValueType, max_u64}
use mini_kv_storage_engine.MemTable.{MemTable, new_memtable, put, delete}
use mini_kv_storage_engine.Wal.{WalRecord, header_size, decode_wal_record_header, decode_wal_record}
use mini_kv_storage_engine.File.{RecoveryFile, read_all_at}

pub record WalRecoveryResult : Type 0 where
  pub records_recovered : ℕ
  pub valid_bytes : ℕ
  pub discarded_tail_bytes : ℕ
  pub min_sequence : ℕ
  pub max_sequence : ℕ
  pub tail_truncated : Bool

abbrev pub no_recovery : WalRecoveryResult
no_recovery = record {
  records_recovered = 0;
  valid_bytes = 0;
  discarded_tail_bytes = 0;
  min_sequence = 0;
  max_sequence = 0;
  tail_truncated = false;
}

abbrev pub Recovered : Type 0
Recovered = MemTable × WalRecoveryResult

abbrev pub recovery_corruption : ℕ → String → Status
recovery_corruption offset message =
    corruption (concat (concat (concat "WAL recovery at offset " (decimal offset)) ": ") message)

-- `type == ValueType::kValue ? Put : Delete`
unfoldable pub apply : WalRecord → MemTable → Status × MemTable
apply r t = elim r.type [
  | ValueType.value ↦ put r.sequence r.key r.value t
  | _ ↦ delete r.sequence r.key t
]

-- The counters after a record of `record_size` bytes was applied at `offset`.
unfoldable pub count_record : WalRecord → ℕ → WalRecoveryResult → WalRecoveryResult
count_record r end result = record result {
  records_recovered = result.records_recovered + 1;
  valid_bytes = end;
  min_sequence = if result.records_recovered == 0 then r.sequence else result.min_sequence;
  max_sequence = r.sequence;
}

-- A record whose bytes were read: decode, check the order of the sequence numbers, apply, count.
unfoldable pub replay_record : Options → ℕ → ℕ → Bytes → Recovered → Result Recovered
replay_record options offset record_size encoded (recovered, result) =
    elim (decode_wal_record encoded options) [
      | err status ↦ err (recovery_corruption offset (to_string status))
      | ok (consumed, r) ↦
          if leb r.sequence result.max_sequence
          then err (recovery_corruption offset "sequence numbers are not strictly increasing")
          else let (status, recovered') = apply r recovered in
            if not (is_ok status)
            then err (
                recovery_corruption offset (concat "record cannot be applied: " (to_string status)))
            else if result.records_recovered == max_u64
            then err (corruption "WAL recovery record count overflows size_t")
            else ok (recovered', count_record r (offset + record_size) result)
    ]

module _ {S : Type 0} (file : RecoveryFile S) where
  -- TruncateIncompleteTail, and the return that follows each call of it.
  unfoldable pub truncate_tail : ℕ → ℕ → Recovered → Io S Recovered
  truncate_tail file_size valid_bytes (recovered, result) = do
    checked (file.truncate valid_bytes)
    checked file.sync
    pure (
      recovered,
      record result {
        valid_bytes = valid_bytes;
        discarded_tail_bytes = file_size - valid_bytes;
        tail_truncated = true;
      },
    )

  -- ReadAllAt, where Incomplete ends the recovery as `tail` does.
  abbrev read_or : ℕ → ℕ → ℕ → Io S Recovered → (Bytes → Io S Recovered) → Io S Recovered
  read_or retries offset size tail go_on s = elim (read_all_at file retries offset size [] 0 s) [
    | none ↦ none
    | some (ok bytes, s') ↦ go_on bytes s'
    | some (err status, s') ↦ if is_incomplete status then tail s' else some (err status, s')
  ]

  -- The loop over `offset`, one record to a round; `retries` is the fuel of each ReadAllAt.
  unfoldable pub recover_loop : ℕ → ℕ → Options → ℕ → ℕ → Recovered → Io S Recovered
  recover_loop zero retries options file_size offset recovered s = none
  recover_loop (suc fuel) retries options file_size offset recovered s =
      elim (ltb offset file_size) [
        | false ↦ some (ok recovered, s)
        | true ↦
            let remaining = file_size - offset in
            let tail : Io S Recovered = truncate_tail file_size offset recovered in
            if ltb remaining header_size
            then tail s
            else read_or retries offset header_size tail
                (λ header s1. elim (decode_wal_record_header header options) [
                  | err status ↦ some (err (recovery_corruption offset (to_string status)), s1)
                  | ok decoded ↦
                      if ltb remaining decoded.record_size
                      then tail s1
                      else read_or retries offset decoded.record_size tail
                          (λ encoded s2.
                            elim (replay_record options offset decoded.record_size encoded
                              recovered) [
                                | err status ↦ some (err status, s2)
                                | ok recovered' ↦
                                    recover_loop fuel retries options file_size
                                      (offset + decoded.record_size) recovered' s2
                              ])
                          s1
                ])
                s
      ]

  -- Each round advances by a record, so `file_size + 1` rounds are enough.
  unfoldable pub recover_wal : ℕ → Options → Io S Recovered
  recover_wal retries options s =
      let ((status, file_size), s') = file.size s in
      if not (is_ok status)
      then some (err status, s')
      else recover_loop (file_size + 1) retries options file_size 0
          (new_memtable options, no_recovery) s'
