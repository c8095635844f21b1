-- ===== src/WritePath/Failed.antt =====
-- A path that failed once stays failed, and no write uses a sequence number twice.
use mini_kv_storage_engine.Base.{ℕ, ◌+◌, ◌≡◌, refl, false, some, ◌⊎◌, inl, inr, arith, Bool-cases}
use mini_kv_storage_engine.Bytes.{Bytes}
use mini_kv_storage_engine.Status.{Status, is_ok, invalid_argument}
use mini_kv_storage_engine.Config.{ValueType, SyncMode}
use mini_kv_storage_engine.Wal.{validate_wal_record}
use mini_kv_storage_engine.Wal.Writer.{is_invalid}
use mini_kv_storage_engine.File.{WritableFile}
use mini_kv_storage_engine.WritePath.{WritePath, write, numbered}

-- Once the status of the path is an error, every write of whatever kind returns an error, leaves
-- the path and its table as they are, and does not touch the file.
pub write-failed :
    {S : Type 0}
    → (file : WritableFile S) (fuel : ℕ) (type : ValueType) (key value : Bytes) (mode : SyncMode)
      (p : WritePath) (s : S)
    → is_ok p.status ≡ false
    → (status : Status) × (write file fuel type key value mode p s ≡ some ((status, p), s))
      × (is_ok status ≡ false)
unfolding write
write-failed file fuel type key value mode p s h =
    elim (Bool-cases (is_ok (validate_wal_record (numbered 1 type key value) p.options))) [
      | inr bad ↦ (validate_wal_record (numbered 1 type key value) p.options, ground arith, bad)
      | inl good ↦ elim (Bool-cases (is_invalid mode)) [
        | inl bad ↦ (invalid_argument "write sync mode is invalid", ground arith, refl)
        | inr known ↦ (p.status, ground arith, h)
      ]
    ]

-- Whatever the file does, a write that returns either is an error that left the file and the
-- counter alone, or it counted one more sequence number as used.
pub sequence-write :
    {S : Type 0}
    → (file : WritableFile S) (fuel : ℕ) (type : ValueType) (key value : Bytes) (mode : SyncMode)
      (p p' : WritePath) (s s' : S) (status : Status)
    → write file fuel type key value mode p s ≡ some ((status, p'), s')
    → ((s' ≡ s) × (p'.last_sequence ≡ p.last_sequence) × (is_ok status ≡ false))
      ⊎ (p'.last_sequence ≡ p.last_sequence + 1)
unfolding write
sequence-write file fuel type key value mode p p' s s' status e = ground arith
