-- ===== src/WritePath/Synced.antt =====
-- How much of the log is on the disk: a write never takes from it, and an OK of fdatasync(2) says
-- that it is all of the log.
use mini_kv_storage_engine.Base.{
  ℕ, zero, suc, ◌+◌, ◌≤◌, ◌≡◌, ap, true, some, arith, length, drop, Option-cases, inl, inr,
}
use mini_kv_storage_engine.Bytes.{Bytes}
use mini_kv_storage_engine.Status.{Status, is_ok}
use mini_kv_storage_engine.Result.{Result-cases}
use mini_kv_storage_engine.Config.{ValueType, SyncMode}
use mini_kv_storage_engine.File.{WritableFile, write_all}
use mini_kv_storage_engine.Wal.{WalRecord, encode_wal_record}
use mini_kv_storage_engine.Wal.Writer.{WalWriter, append}
use mini_kv_storage_engine.WritePath.{WritePath, write, numbered}
use mini_kv_storage_engine.WritePath.Appended.{IsLogFile, encode-err}

-- The first `durable` bytes of the file are those that a crash cannot take.
pub record IsDurableFile {S : Type 0} {file : WritableFile S} (l : IsLogFile file) : Type 0 where
  pub durable : S → ℕ
  pub written : (bytes : Bytes) (s : S) → durable s ≤ durable (file.write_some bytes s).1
  pub sync_kept : (s : S) → durable s ≤ durable (file.sync s).1
  pub synced :
      (s : S)
      → is_ok (file.sync s).0 ≡ true
      → durable (file.sync s).1 ≡ length (l.appending.content s)

module _ {S : Type 0} {file : WritableFile S} (l : IsLogFile file) (d : IsDurableFile l) where
  write_all-durable :
      (fuel : ℕ) (input : Bytes) (offset : ℕ) (s s' : S) (status : Status)
      → write_all file fuel input offset s ≡ some (status, s')
      → d.durable s ≤ d.durable s'
  unfolding write_all
  write_all-durable zero input offset s s' status e = absurd (ground (arith, e))
  write_all-durable (suc fuel) input offset s s' status e =
      let (result, s1) = file.write_some (drop offset input) s in
      let rest = λ (n : ℕ). write_all-durable fuel input n s1 s' status in
      ground (
        arith,
        e,
        d.written (drop offset input) s,
        rest offset,
        rest (offset + result.bytes_written),
      )

  -- Nothing is taken from the disk, and where the call returned OK in sync mode, all is on it.
  abbrev pub Keeps : SyncMode → Status → S → S → Type 0
  Keeps mode status s s' =
      (d.durable s ≤ d.durable s')
      × (is_ok status ≡ true
          → mode ≡ SyncMode.sync
          → d.durable s' ≡ length (l.appending.content s'))

  append-Keeps :
      (fuel : ℕ) (r : WalRecord) (mode : SyncMode) (w w' : WalWriter) (s s' : S) (status : Status)
      → append file fuel r mode w s ≡ some ((status, w'), s')
      → Keeps mode status s s'
  unfolding append
  append-Keeps fuel r mode w w' s s' status e =
      elim (Result-cases (encode_wal_record r w.options)) [
        | inr (refused, code) ↦ ground (arith, e, code, encode-err r w.options refused code)
        | inl (encoded, code) ↦ elim (Option-cases (write_all file fuel encoded 0 s)) [
          | inl none_ ↦ ground (arith, e, code, none_)
          | inr ((status1, s1), writes) ↦ ground (
            arith,
            e,
            code,
            writes,
            write_all-durable fuel encoded 0 s s1 status1 writes,
            d.sync_kept s1,
            d.synced s1,
            l.syncs s1,
            ap length (l.syncs s1),
          )
        ]
      ]

  pub write-Keeps :
      (fuel : ℕ) (type : ValueType) (key value : Bytes) (mode : SyncMode) (p p' : WritePath)
      (s s' : S) (status : Status)
      → write file fuel type key value mode p s ≡ some ((status, p'), s')
      → Keeps mode status s s'
  unfolding write
  write-Keeps fuel type key value mode p p' s s' status e =
      let r = numbered (p.last_sequence + 1) type key value in
      elim (Option-cases (append file fuel r mode p.wal s)) [
        | inl none_ ↦ ground (arith, e, none_)
        | inr (((status1, w1), s1), appends) ↦
            ground (arith, e, appends, append-Keeps fuel r mode p.wal w1 s s1 status1 appends)
      ]
