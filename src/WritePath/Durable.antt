-- ===== src/WritePath/Durable.antt =====
-- The path and its log: the table is always the replay of the records in the file.
use mini_kv_storage_engine.Base.{
  ℕ, ◌+◌, ◌≤◌, ◌<◌, ◌^◌, ◌≡◌, refl, sym, ap, ◌∙◌, true, false, some, List, [], ◌∷◌, ◌++◌, arith,
  length, take, All, Bool-cases, inl, inr, ◌==◌,
}
use mini_kv_storage_engine.Bytes.{Bytes, IsByte}
use mini_kv_storage_engine.Status.{Status, invalid_argument, is_ok}
use mini_kv_storage_engine.Config.{Options, ValueType, SyncMode, max_u64}
use mini_kv_storage_engine.File.{WritableFile}
use mini_kv_storage_engine.Wal.{WalRecord, validate_wal_record}
use mini_kv_storage_engine.Wal.Encoded.{IsRecord, IsAccepted, encoding}
use mini_kv_storage_engine.Wal.RoundTrip.{length-encoding}
use mini_kv_storage_engine.Wal.Writer.{WalWriter, append, is_invalid}
use mini_kv_storage_engine.Recovery.{apply, count_record}
use mini_kv_storage_engine.Recovery.Replay.{
  encodings, replay, IsLog, apply_succeeds, start, start-IsReplayed,
}
use mini_kv_storage_engine.WritePath.{WritePath, write, numbered, publish}
use mini_kv_storage_engine.WritePath.Log.{
  encodings-append, replay-append, replay-IsReplayed, IsLog-append,
}
use mini_kv_storage_engine.WritePath.Appended.{IsLogFile, Appended, appended, torn, append_total}

module _ {S : Type 0} {file : WritableFile S} (l : IsLogFile file) (o : Options)
    (rs : List WalRecord) where
  -- A path that runs: the file holds exactly the records `rs`, the table is their replay, and the
  -- counter is not behind their sequence numbers.
  pub record IsRunning (p : WritePath) (s : S) : Type 0 where
    pub path_options : p.options ≡ o
    pub wal_options : p.wal.options ≡ o
    pub content : l.appending.content s ≡ encodings rs
    pub table : p.memtable ≡ (replay 0 rs (start o)).0
    pub log : IsLog o 0 rs
    pub frontier : (replay 0 rs (start o)).1.max_sequence ≤ p.last_sequence
    pub counter : p.last_sequence ≤ max_u64
    pub running : is_ok p.status ≡ true
    pub wal_running : is_ok p.wal.status ≡ true

module _ {S : Type 0} {file : WritableFile S} (l : IsLogFile file) (o : Options)
    (rs : List WalRecord) (p : WritePath) (s : S) (r : WalRecord) where
  -- The outcomes of a write of the record `r` to a running path.
  pub data Outcome (status : Status) (p' : WritePath) (s' : S) : Type 0 where
    rejected : is_ok status ≡ false → p' ≡ p → s' ≡ s → Outcome status p' s'
    written : is_ok status ≡ true → IsRunning l o (rs ++ (r ∷ [])) p' s' → Outcome status p' s'
    failed :
        is_ok status ≡ false
        → is_ok p'.status ≡ false
        → p'.memtable ≡ p.memtable
        → r.sequence ≤ max_u64
        → (k : ℕ) → k ≤ length (encoding r)
        → (0 < k → IsAccepted o r)
        → l.appending.content s' ≡ encodings rs ++ take k (encoding r)
        → Outcome status p' s'

  -- The table takes every record that the log took.
  published :
      (wal : WalWriter) (s' : S)
      → IsRunning l o rs p s
      → p.last_sequence < r.sequence
      → r.sequence ≤ max_u64
      → IsRecord r
      → IsAccepted o r
      → length (encodings rs) + 2 ^ 32 ≤ max_u64
      → wal ≡ p.wal
      → l.appending.content s' ≡ l.appending.content s ++ encoding r
      → Outcome
          (publish r wal (record p { last_sequence = r.sequence })).0
          (publish r wal (record p { last_sequence = r.sequence })).1
          s'
  unfolding count_record
  published wal s' v above counter w a room same grown =
      let state = replay 0 rs (start o) in
      let replayed = replay-IsReplayed o 0 rs (start o) (start-IsReplayed o) v.log (omega arith) in
      let more = replay-append o 0 rs r (start o) in
      let done : is_ok (apply r p.memtable).0 ≡ true = rw v.table (
        apply_succeeds o r (0 + length (encodings rs)) state replayed
          (a, omega (arith, v.frontier), omega (arith, a.size_fits, length-encoding r))) in
      rw done (
        written refl (record {
          path_options = v.path_options;
          wal_options = rw same v.wal_options;
          content = grown ∙ rw v.content (sym (encodings-append rs r));
          table = rw v.table (ap (λ x. x.0) (sym more));
          log = IsLog-append o 0 rs r (start o) v.log w a (omega (arith, v.frontier));
          frontier = rw more (omega arith);
          counter = counter;
          running = v.running;
          wal_running = rw same v.wal_running;
        }))

-- Write from its call of Append on.
after_append :
    {S : Type 0} {file : WritableFile S} (l : IsLogFile file) (o : Options) (rs : List WalRecord)
    (p : WritePath) (s : S) (fuel : ℕ) (type : ValueType) (key value : Bytes) (mode : SyncMode)
    → IsRunning l o rs p s
    → All IsByte key
    → All IsByte value
    → length (encodings rs) + 2 ^ 32 ≤ max_u64
    → is_ok (validate_wal_record (numbered 1 type key value) p.options) ≡ true
    → is_invalid mode ≡ false
    → p.last_sequence < max_u64
    → (status : Status) (w : WalWriter) (s' : S)
    → append file fuel (numbered (p.last_sequence + 1) type key value) mode p.wal s
      ≡ some ((status, w), s')
    → Appended o
        (numbered (p.last_sequence + 1) type key value)
        p.wal
        (l.appending.content s)
        status
        w
        (l.appending.content s')
    → (status' : Status) × (p' : WritePath) × (s'' : S) × (write file fuel type key value mode p s
        ≡ some ((status', p'), s''))
      × Outcome l o rs p s (numbered (p.last_sequence + 1) type key value) status' p' s''
unfolding write
after_append l o rs p s fuel type key value mode v bk bv room good known below status w s' e
      (appended done same a grown) =
    let r = numbered (p.last_sequence + 1) type key value in
    let next = record p { last_sequence = p.last_sequence + 1 } in
    (
      (publish r w next).0,
      (publish r w next).1,
      s',
      ground (arith, e, v.running, v.wal_running),
      published l o rs p s r w s' v (omega arith) (omega arith)
          (record { sequence_fits = omega arith; key_bytes = bk; value_bytes = bv }) a room same
          grown,
    )
after_append l o rs p s fuel type key value mode v bk bv room good known below status w s' e
      (torn bad k few a grown) =
    let next = record p { last_sequence = p.last_sequence + 1 } in
    (
      status,
      record next { wal = w; status = status },
      s',
      ground (arith, e, v.running, v.wal_running),
      failed bad bad refl (omega arith) k few a (rw v.content at grown),
    )

-- A write of bytes to a running path whose log leaves room for a record below 2 ^ 64 returns, given
-- fuel for a record of the format and for the interruptions to come, and leaves one of three
-- outcomes. Rejected: an error, with path and file as before. Written: an OK status, and the path
-- runs on the log that is longer by this record. Failed: an error, from which on the path refuses
-- writes, with the table as before and some first part of the record behind the log.
pub write_total :
    {S : Type 0} {file : WritableFile S} (l : IsLogFile file) (o : Options) (rs : List WalRecord)
    (p : WritePath) (s : S) (fuel : ℕ) (type : ValueType) (key value : Bytes) (mode : SyncMode)
    → IsRunning l o rs p s
    → All IsByte key
    → All IsByte value
    → length (encodings rs) + 2 ^ 32 ≤ max_u64
    → 2 ^ 32 + l.appending.patience s ≤ fuel
    → (status : Status) × (p' : WritePath) × (s' : S) × (write file fuel type key value mode p s
        ≡ some ((status, p'), s'))
      × Outcome l o rs p s (numbered (p.last_sequence + 1) type key value) status p' s'
unfolding write
write_total {S} {file} l o rs p s fuel type key value mode v bk bv room enough =
    elim (Bool-cases (is_ok (validate_wal_record (numbered 1 type key value) p.options))) [
      | inr bad ↦ (
        validate_wal_record (numbered 1 type key value) p.options,
        p,
        s,
        ground arith,
        rejected bad refl refl,
      )
      | inl good ↦ elim (Bool-cases (is_invalid mode)) [
        | inl bad ↦ (
          invalid_argument "write sync mode is invalid",
          p,
          s,
          ground arith,
          rejected refl refl refl,
        )
        | inr known ↦ elim (Bool-cases (p.last_sequence == max_u64)) [
          | inl full ↦ (
            invalid_argument "sequence number space is exhausted",
            p,
            s,
            ground (arith, v.running, v.wal_running),
            rejected refl refl refl,
          )
          | inr free ↦
              let below : p.last_sequence < max_u64 = ground (arith, v.counter) in
              let (status, w, s', e, outcome) =
                append_total file l fuel o (numbered (p.last_sequence + 1) type key value) mode
                  p.wal s v.wal_running v.wal_options known enough in
              after_append l o rs p s fuel type key value mode v bk bv room good known below status
                w s' e outcome
        ]
      ]
    ]
