-- ===== src/WritePath/Crashed.antt =====
-- A crash cuts the log behind what is on the disk: what recovery finds of it.
use mini_kv_storage_engine.Base.{
  ℕ, ◌+◌, ◌≤◌, ◌<◌, ◌^◌, ◌≡◌, sym, subst, ap, ◌∙◌, true, false, ◌==◌, some, List, [], ◌∷◌, ◌++◌,
  arith, length, take, All, Bool-cases, inl, inr, append-nil, append_assoc,
}
use mini_kv_storage_engine.Bytes.{Bytes, IsByte}
use mini_kv_storage_engine.Status.{Status, is_ok}
use mini_kv_storage_engine.Result.{ok}
use mini_kv_storage_engine.Config.{Options, ValueType, SyncMode, max_u64}
use mini_kv_storage_engine.File.{WritableFile, RecoveryFile}
use mini_kv_storage_engine.Recovery.{recover_wal}
use mini_kv_storage_engine.Recovery.Replay.{replay, start}
use mini_kv_storage_engine.Recovery.Loop.{IsHealthy}
use mini_kv_storage_engine.Recovery.Tail.{finish}
use mini_kv_storage_engine.Recovery.Torn.{recover-log}
use mini_kv_storage_engine.WritePath.{WritePath, write, numbered}
use mini_kv_storage_engine.WritePath.Log.{IsLog-append}
use mini_kv_storage_engine.WritePath.Appended.{IsLogFile}
use mini_kv_storage_engine.WritePath.Cut.{
  cut, taken_twice, length-encodings_le, append_all, torn_content,
}
use mini_kv_storage_engine.WritePath.Durable.{
  IsRunning, Outcome, rejected, written, failed, write_total,
}
use mini_kv_storage_engine.WritePath.Synced.{IsDurableFile, write-Keeps}
use mini_kv_storage_engine.Wal.{WalRecord}
use mini_kv_storage_engine.Wal.Encoded.{IsRecord, encoding}
use mini_kv_storage_engine.Recovery.Replay.{encodings, IsLog}

module _ {T : Type 0} (log : RecoveryFile T) (h : IsHealthy log) (retries : ℕ) (o : Options)
    (t : T) where
  -- Recovery finds exactly the records `rs`, and the file holds no others afterwards.
  abbrev pub Finds : List WalRecord → Type 0
  Finds rs =
      (t' : T) × (recover_wal log retries o t
        ≡ some (
          ok (
              finish (length (h.readable.content t)) (length (encodings rs))
                (replay 0 rs (start o))),
          t',
        ))
      × (h.readable.content t' ≡ encodings rs)

  -- Of a log, recovery finds the records `q` and some more, and misses those of `lost`.
  abbrev FindsPart : List WalRecord → List WalRecord → ℕ → Type 0
  FindsPart q all n =
      (u : List WalRecord) × (lost : List WalRecord) × Finds (q ++ u)
      × ((q ++ u) ++ lost ≡ all)
      × (length (encodings all) ≤ n → lost ≡ [])

  recover_cut :
      (n : ℕ) (any : WalRecord) (q rest all : List WalRecord)
      → q ++ rest ≡ all
      → IsLog o 0 all
      → length (encodings q) ≤ n
      → h.readable.content t ≡ take n (encodings all)
      → length (h.readable.content t) ≤ max_u64
      → length (h.readable.content t) + h.readable.patience t < retries
      → FindsPart q all n
  recover_cut n any q rest all whole l on_disk e fits m =
      let c = cut o 0 n any all l in
      let (u, found) = c.kept q rest whole on_disk in
      (
        u,
        c.behind,
        subst Finds (sym found)
            (recover-log log h retries o c.before c.torn t (e ∙ c.bytes) fits m c.log),
        ap (λ x. x ++ c.behind) found ∙ c.whole,
        λ all_kept.
            let (v, f) = c.kept all [] (append-nil all) all_kept in
            append_all c.before c.behind v (ap (λ x. x ++ v) c.whole ∙ f),
      )

  -- Recovery finds the records `q` and a part of what stands behind them, which is all of it after
  -- an OK in sync mode.
  abbrev pub Survives : List WalRecord → List WalRecord → WalRecord → SyncMode → Status → Type 0
  Survives q rs r mode status =
      (u : List WalRecord) × (lost : List WalRecord) × Finds (q ++ u)
      × ((q ++ u) ++ lost ≡ rs ++ (r ∷ []))
      × (is_ok status ≡ true → mode ≡ SyncMode.sync → lost ≡ [])

  module _ (n : ℕ) (q rest rs : List WalRecord) (r : WalRecord) (mode : SyncMode) (status : Status)
      (whole : q ++ rest ≡ rs) (fits : length (h.readable.content t) ≤ max_u64)
      (m : length (h.readable.content t) + h.readable.patience t < retries) where
    -- Nothing of the record reached the file.
    lost_record :
        is_ok status ≡ false
        → IsLog o 0 rs
        → length (encodings q) ≤ n
        → h.readable.content t ≡ take n (encodings rs)
        → Survives q rs r mode status
    lost_record bad l on_disk e =
        let (u, lost, finds, parts, all) = recover_cut n r q rest rs whole l on_disk e fits m in
        (
          u,
          lost ++ (r ∷ []),
          finds,
          sym (append_assoc (q ++ u) lost (r ∷ [])) ∙ ap (λ x. x ++ (r ∷ [])) parts,
          λ good. cc,
        )

    -- The record reached the file, all of it or in part.
    grown_log :
        IsLog o 0 (rs ++ (r ∷ []))
        → length (encodings q) ≤ n
        → h.readable.content t ≡ take n (encodings (rs ++ (r ∷ [])))
        → (is_ok status ≡ true → mode ≡ SyncMode.sync → length (encodings (rs ++ (r ∷ []))) ≤ n)
        → Survives q rs r mode status
    grown_log l on_disk e synced =
        let (u, lost, finds, parts, all) =
          recover_cut n r q (rest ++ (r ∷ [])) (rs ++ (r ∷ []))
            (sym (append_assoc q rest (r ∷ [])) ∙ ap (λ x. x ++ (r ∷ [])) whole) l on_disk e fits
            m in
        (u, lost, finds, parts, λ good in_sync. all (synced good in_sync))

module _ {S T : Type 0} {file : WritableFile S} (l : IsLogFile file) (o : Options)
    (q rest rs : List WalRecord) (p p' : WritePath) (s s' : S) (r : WalRecord) (mode : SyncMode)
    (status : Status) (log : RecoveryFile T) (h : IsHealthy log) (retries n : ℕ) (t : T)
    (whole : q ++ rest ≡ rs) (on_disk : length (encodings q) ≤ n)
    (fits : length (h.readable.content t) ≤ max_u64)
    (m : length (h.readable.content t) + h.readable.patience t < retries) where
  after :
      IsRunning l o rs p s
      → (r.sequence ≤ max_u64 → IsRecord r)
      → p.last_sequence < r.sequence
      → h.readable.content t ≡ take n (l.appending.content s')
      → (is_ok status ≡ true → mode ≡ SyncMode.sync → length (l.appending.content s') ≤ n)
      → Outcome l o rs p s r status p' s'
      → Survives log h retries o t q rs r mode status
  after v w above e synced (rejected bad same_path same_file) =
      lost_record log h retries o t n q rest rs r mode status whole fits m bad v.log on_disk
        (e ∙ ap (λ x. take n (l.appending.content x)) same_file ∙ ap (take n) v.content)
  after v w above e synced (written good v') =
      grown_log log h retries o t n q rest rs r mode status whole fits m v'.log on_disk
        (e ∙ ap (take n) v'.content)
        (λ good in_sync. subst (λ x. length x ≤ n) v'.content (synced good in_sync))
  after v w above e synced (failed bad stopped table fits_word k few a grown) =
      let (j, twice, most) =
        taken_twice n (length (encodings rs) + k) (encodings (rs ++ (r ∷ []))) in
      let front = length-encodings_le q rest in
      let in_front : length (encodings q) ≤ j =
        most (length (encodings q)) on_disk
          (omega (arith, front, ap (λ x. length (encodings x)) whole)) in
      elim (Bool-cases (k == 0)) [
        | inl nothing ↦
            let zero_kept : k ≡ 0 = ground (arith, nothing) in
            lost_record log h retries o t n q rest rs r mode status whole fits m bad v.log on_disk (
              e
              ∙ ap (take n) (
                  grown
                  ∙ ap (λ (j : ℕ). encodings rs ++ take j (encoding r)) zero_kept
                  ∙ append-nil (encodings rs)))
        | inr some_ ↦
            grown_log log h retries o t j q rest rs r mode status whole fits m
              (IsLog-append o 0 rs r (start o) v.log (w fits_word) (a (ground (arith, some_)))
                (omega (arith, v.frontier)))
              in_front (e ∙ ap (take n) (grown ∙ torn_content rs r k) ∙ twice) (λ good in_sync. cc)
      ]

-- A crash may take every byte of the log that was not synced: after a write of bytes to a running
-- path whose log leaves room for a record below 2 ^ 64, with fuel for a record, it keeps any first
-- part of the file that includes what is on the disk. RecoverWal, on a healthy file with that part
-- and with enough fuel, then finds a first part of the log with the written record behind it; it
-- has all of the records `q`, where these were on the disk before the write; and if the write was
-- in sync mode and returned OK, nothing is lost, the written record included.
pub recover-write :
    {S T : Type 0} {file : WritableFile S} (l : IsLogFile file) (d : IsDurableFile l) (o : Options)
    (q rest rs : List WalRecord) (p p' : WritePath) (s s' : S) (fuel : ℕ) (type : ValueType)
    (key value : Bytes) (mode : SyncMode) (status : Status) (log : RecoveryFile T)
    (h : IsHealthy log) (retries n : ℕ) (t : T)
    → IsRunning l o rs p s
    → All IsByte key
    → All IsByte value
    → length (encodings rs) + 2 ^ 32 ≤ max_u64
    → 2 ^ 32 + l.appending.patience s ≤ fuel
    → write file fuel type key value mode p s ≡ some ((status, p'), s')
    → q ++ rest ≡ rs
    → length (encodings q) ≤ d.durable s
    → d.durable s' ≤ n
    → h.readable.content t ≡ take n (l.appending.content s')
    → length (h.readable.content t) ≤ max_u64
    → length (h.readable.content t) + h.readable.patience t < retries
    → Survives log h retries o t q rs (numbered (p.last_sequence + 1) type key value) mode status
recover-write {S = S} l d o q rest rs p p' s s' fuel type key value mode status log h retries n t v
      bk bv room enough returned whole on_disk kept e fits m =
    let (status1, p1, s1, returned1, outcome) =
      write_total l o rs p s fuel type key value mode v bk bv room enough in
    let same : ((status1, p1), s1) ≡ ((status, p'), s') = cc in
    let r = numbered (p.last_sequence + 1) type key value in
    let (mono, synced) = write-Keeps l d fuel type key value mode p p' s s' status returned in
    after l o q rest rs p p' s s' r mode status log h retries n t whole
      (omega (arith, on_disk, mono, kept)) fits m v
      (λ below. record { sequence_fits = omega arith; key_bytes = bk; value_bytes = bv })
      (omega arith) e (λ good in_sync. omega (arith, synced good in_sync, kept))
      (subst (λ (x : (Status × WritePath) × S). Outcome l o rs p s r x.0.0 x.0.1 x.1) same outcome)
