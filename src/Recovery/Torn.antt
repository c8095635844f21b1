-- ===== src/Recovery/Torn.antt =====
-- Recovery of a log whose last record may be torn: every complete record, and nothing else.
use mini_kv_storage_engine.Base.{
  ℕ, zero, suc, ◌+◌, ◌≤◌, ◌<◌, ◌≡◌, refl, sym, ap, ◌∙◌, some, List, [], ◌∷◌, ◌++◌, subst,
  append-nil, append_assoc, arith, length, length-append,
}
use mini_kv_storage_engine.Bytes.{Bytes}
use mini_kv_storage_engine.Result.{ok}
use mini_kv_storage_engine.Config.{Options, max_u64}
use mini_kv_storage_engine.Wal.{WalRecord}
use mini_kv_storage_engine.Wal.Encoded.{encoding}
use mini_kv_storage_engine.MemTable.{new_memtable}
use mini_kv_storage_engine.File.{RecoveryFile}
use mini_kv_storage_engine.Recovery.{
  Recovered, no_recovery, count_record, recover_loop, recover_wal,
}
use mini_kv_storage_engine.Recovery.Replay.{
  IsReplayed, start-IsReplayed, advance, advance-IsReplayed, encodings, replay, IsLog,
}
use mini_kv_storage_engine.Recovery.Loop.{IsHealthy, one_round}
use mini_kv_storage_engine.Recovery.Tail.{Torn, remains, finish, torn_end}

module _ {S : Type 0} (file : RecoveryFile S) (h : IsHealthy file) (retries : ℕ) where
  -- How the loop ends at the records `rs` and a torn one.
  abbrev Recovers : Options → Bytes → List WalRecord → ℕ → ℕ → ℕ → S → Recovered → Type 0
  Recovers o pre rs fuel file_size offset s recovered =
      (s' : S) × (recover_loop file fuel retries o file_size offset recovered s
        ≡ some (
          ok (finish file_size (offset + length (encodings rs)) (replay offset rs recovered)),
          s',
        ))
      × (h.readable.content s' ≡ pre ++ encodings rs)

  log_loop :
      (o : Options) (rs : List WalRecord) (t : Torn o) (pre : Bytes) (fuel file_size offset : ℕ)
      (s : S) (recovered : Recovered)
      → h.readable.content s ≡ pre ++ (encodings rs ++ remains t)
      → offset ≡ length pre
      → file_size ≡ length (h.readable.content s)
      → length rs < fuel
      → length (h.readable.content s) ≤ max_u64
      → length (h.readable.content s) + h.readable.patience s < retries
      → IsReplayed o offset recovered
      → IsLog o recovered.1.max_sequence rs
      → Recovers o pre rs fuel file_size offset s recovered
  unfolding encodings replay count_record
  log_loop o rs t pre zero file_size offset s recovered e eo ef f fits m v l = absurd (omega arith)
  log_loop o [] t pre (suc fuel) file_size offset s recovered e eo ef f fits m v l =
      let (s', ends, kept) = torn_end file h retries o pre t fuel s recovered e fits m in
      let size : file_size ≡ length pre + length (remains t) =
        ef ∙ ap length e ∙ length-append pre (remains t) in
      let here : length pre + 0 ≡ length pre = omega arith in
      (s', rw (eo, size, here) ends, kept ∙ sym (append-nil pre))
  log_loop o (r ∷ rs) t pre (suc fuel) file_size offset s recovered e eo ef f fits m v
        (w, a, above, l) =
      let v' = rw eo at v in
      let e1 = e ∙ ap (λ x. pre ++ x) (append_assoc (encoding r) (encodings rs) (remains t)) in
      let (s1, steps, kept1, patient1) =
        one_round file h retries o pre (encodings rs ++ remains t) r w a fuel s recovered e1 fits m
          v' above in
      let room : length pre + length (encoding r) ≤ max_u64 = omega (
        arith,
        ap length e1,
        length-append pre (encoding r ++ (encodings rs ++ remains t)),
        length-append (encoding r) (encodings rs ++ remains t),
      ) in
      let (s', ends, kept) =
        log_loop o rs t (pre ++ encoding r) fuel (length (h.readable.content s))
          (length pre + length (encoding r)) s1 (advance r (length pre) recovered)
          (kept1 ∙ e1 ∙ sym (append_assoc pre (encoding r) (encodings rs ++ remains t)))
          (sym (length-append pre (encoding r))) (ap length (sym kept1)) (omega arith)
          (rw kept1 fits) (rw kept1 (omega arith))
          (advance-IsReplayed o r (length pre) recovered v' (a, above, room)) l in
      let sum = ap (λ (n : ℕ). length pre + n) (length-append (encoding r) (encodings rs)) in
      let regroup : length pre + length (encoding r) + length (encodings rs)
          ≡ length pre + length (encoding r ++ encodings rs) =
        omega (arith, sum) in
      let body : Recovers o pre (r ∷ rs) (suc fuel) (length (h.readable.content s)) (length pre) s
          recovered =
        (
          s',
          steps
              ∙ ends
              ∙ ap
                  (λ (n : ℕ). some (
                    ok (
                        finish (length (h.readable.content s)) n (
                          replay (length pre + length (encoding r)) rs
                            (advance r (length pre) recovered))),
                    s',
                  ))
                  regroup,
          kept ∙ append_assoc pre (encoding r) (encodings rs),
        ) in
      subst (λ (n : ℕ). Recovers o pre (r ∷ rs) (suc fuel) n offset s recovered) (sym ef)
        (subst
          (λ (n : ℕ).
            Recovers o pre (r ∷ rs) (suc fuel) (length (h.readable.content s)) n s recovered)
          (sym eo) body)

  length-encodings : (rs : List WalRecord) → length rs ≤ length (encodings rs)
  unfolding encodings
  length-encodings [] = omega arith
  length-encodings (r ∷ rs) =
      omega (arith, length-append (encoding r) (encodings rs), length-encodings rs)

  -- Crash recovery: on a healthy file of at most 2 ^ 64 - 1 bytes, with fuel for its bytes and the
  -- interruptions to come, that holds the encodings of any valid log `rs`, followed by a proper
  -- prefix, possibly empty, of one more record, RecoverWal succeeds. Its table and counters are
  -- those of applying exactly the records `rs` in order, with the torn bytes reported as a
  -- discarded tail if there are any, and it leaves exactly the encodings of `rs` in the file.
  pub recover-log :
      (o : Options) (rs : List WalRecord) (t : Torn o) (s : S)
      → h.readable.content s ≡ encodings rs ++ remains t
      → length (h.readable.content s) ≤ max_u64
      → length (h.readable.content s) + h.readable.patience s < retries
      → IsLog o 0 rs
      → (s' : S) × (recover_wal file retries o s
          ≡ some (
            ok (
                finish
                  (length (h.readable.content s))
                  (length (encodings rs))
                  (replay 0 rs (new_memtable o, no_recovery))),
            s',
          ))
        × (h.readable.content s' ≡ encodings rs)
  unfolding recover_wal
  recover-log o rs t s e fits m l =
      let (sized, same, patient) = h.sized s in
      let size = ap length e in
      let (s', ends, kept) =
        log_loop o rs t [] (length (h.readable.content s) + 1) (length (h.readable.content s)) 0
          (file.size s).1 (new_memtable o, no_recovery) (same ∙ e) refl (ap length (sym same))
          (omega (arith, size, length-append (encodings rs) (remains t), length-encodings rs))
          (rw same fits) (rw same (omega arith)) (start-IsReplayed o) l in
      let here : 0 + length (encodings rs) ≡ length (encodings rs) = omega arith in
      (s', rw sized (rw here at ends), kept)
