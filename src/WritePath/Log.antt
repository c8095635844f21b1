-- ===== src/WritePath/Log.antt =====
-- One more record at the end of a log: its encoding and its replay.
use mini_kv_storage_engine.Base.{
  ℕ, ◌+◌, ◌≤◌, ◌<◌, ◌≡◌, sym, ap, subst, ◌∙◌, List, [], ◌∷◌, ◌++◌, append-nil, append_assoc, arith,
  length, length-append,
}
use mini_kv_storage_engine.Config.{Options, max_u64}
use mini_kv_storage_engine.Wal.{WalRecord}
use mini_kv_storage_engine.Wal.Encoded.{IsRecord, IsAccepted, encoding}
use mini_kv_storage_engine.Recovery.{Recovered, count_record}
use mini_kv_storage_engine.Recovery.Replay.{
  IsReplayed, advance, advance-IsReplayed, encodings, replay, IsLog,
}

pub encodings-append :
    (rs : List WalRecord) (r : WalRecord) → encodings (rs ++ (r ∷ [])) ≡ encodings rs ++ encoding r
unfolding encodings
encodings-append [] r = append-nil (encoding r)
encodings-append (x ∷ rs) r = rw (encodings-append rs r) (sym (append_assoc (encoding x) _ _))

module _ (o : Options) where
  pub replay-append :
      (offset : ℕ) (rs : List WalRecord) (r : WalRecord) (s : Recovered)
      → replay offset (rs ++ (r ∷ [])) s
        ≡ advance r (offset + length (encodings rs)) (replay offset rs s)
  unfolding replay encodings
  replay-append offset [] r s = ap (λ (n : ℕ). advance r n s) (omega arith)
  replay-append offset (x ∷ rs) r s =
      replay-append (offset + length (encoding x)) rs r (advance x offset s)
      ∙ ap (λ (n : ℕ). advance r n (replay (offset + length (encoding x)) rs (advance x offset s)))
          (omega (arith, length-append (encoding x) (encodings rs)))

  -- A valid log leaves the table well formed, wherever the replay stands.
  pub replay-IsReplayed :
      (offset : ℕ) (rs : List WalRecord) (s : Recovered)
      → IsReplayed o offset s
      → IsLog o s.1.max_sequence rs
      → offset + length (encodings rs) ≤ max_u64
      → IsReplayed o (offset + length (encodings rs)) (replay offset rs s)
  unfolding replay encodings count_record
  replay-IsReplayed offset [] s v l fits = subst (λ (n : ℕ). IsReplayed o n s) (omega arith) v
  replay-IsReplayed offset (r ∷ rs) s v (w, a, above, l) fits =
      let size = length-append (encoding r) (encodings rs) in
      subst
        (λ (n : ℕ). IsReplayed o n (replay (offset + length (encoding r)) rs (advance r offset s)))
        (omega (arith, size))
        (replay-IsReplayed (offset + length (encoding r)) rs (advance r offset s)
          (advance-IsReplayed o r offset s v (a, above, omega (arith, size))) l
          (omega (arith, size)))

  pub IsLog-append :
      (offset : ℕ) (rs : List WalRecord) (r : WalRecord) (s : Recovered)
      → IsLog o s.1.max_sequence rs
      → IsRecord r
      → IsAccepted o r
      → (replay offset rs s).1.max_sequence < r.sequence
      → IsLog o s.1.max_sequence (rs ++ (r ∷ []))
  unfolding replay count_record
  IsLog-append offset [] r s l w a above = (w, a, above, tt)
  IsLog-append offset (x ∷ rs) r s (w', a', above', l) w a above = (
    w',
    a',
    above',
    IsLog-append (offset + length (encoding x)) rs r (advance x offset s) l w a above,
  )
