-- ===== src/WritePath/Reopened.antt =====
-- The path that Open makes of a recovered log.
use mini_kv_storage_engine.Base.{
  ℕ, ◌+◌, ◌≤◌, ◌≡◌, refl, List, [], ◌∷◌, arith, length, Bool-cases, inl, inr, ◌==◌,
}
use mini_kv_storage_engine.Config.{Options, max_u64}
use mini_kv_storage_engine.File.{WritableFile}
use mini_kv_storage_engine.Wal.{WalRecord}
use mini_kv_storage_engine.Wal.Encoded.{encoding}
use mini_kv_storage_engine.Recovery.{Recovered, count_record}
use mini_kv_storage_engine.Recovery.Replay.{encodings, replay, IsLog, start, advance}
use mini_kv_storage_engine.Recovery.Tail.{finish}
use mini_kv_storage_engine.WritePath.{reopened}
use mini_kv_storage_engine.WritePath.Appended.{IsLogFile}
use mini_kv_storage_engine.WritePath.Durable.{IsRunning}

counter-le :
    (o : Options) (offset : ℕ) (rs : List WalRecord) (x : Recovered)
    → IsLog o x.1.max_sequence rs
    → x.1.max_sequence ≤ max_u64
    → (replay offset rs x).1.max_sequence ≤ max_u64
unfolding replay count_record
counter-le o offset [] x l fits = fits
counter-le o offset (r ∷ rs) x (w, a, above, l) fits =
    counter-le o (offset + length (encoding r)) rs (advance r offset x) l
      (omega (arith, w.sequence_fits))

-- The path that Open makes of a recovered log runs again: on any log file that holds exactly the
-- recovered records, its table is their replay, its counter is at the highest of their sequence
-- numbers, and nothing has failed.
pub reopened-IsRunning :
    {S : Type 0} {file : WritableFile S} (l : IsLogFile file) (o : Options) (rs : List WalRecord)
    (file_size : ℕ) (s : S)
    → IsLog o 0 rs
    → l.appending.content s ≡ encodings rs
    → IsRunning l o rs
        (reopened o (finish file_size (length (encodings rs)) (replay 0 rs (start o))))
        s
reopened-IsRunning l o rs file_size s log e =
    let state = replay 0 rs (start o) in
    let counted = counter-le o 0 rs (start o) log (omega arith) in
    elim (Bool-cases (length (encodings rs) == file_size)) [
      | inl whole ↦ rw whole (record {
        path_options = refl;
        wal_options = refl;
        content = e;
        table = refl;
        log = log;
        frontier = omega arith;
        counter = counted;
        running = refl;
        wal_running = refl;
      })
      | inr part ↦ rw part (record {
        path_options = refl;
        wal_options = refl;
        content = e;
        table = refl;
        log = log;
        frontier = omega arith;
        counter = counted;
        running = refl;
        wal_running = refl;
      })
    ]
