-- ===== src/Recovery/Tail.antt =====
-- The end of the recovery loop: what is left of a torn record is cut off the file.
use mini_kv_storage_engine.Base.{
  ℕ, suc, ◌+◌, ◌-◌, ◌≤◌, ◌<◌, ◌≡◌, refl, ap, ◌∙◌, true, false, inl, inr, some, [], ◌++◌, append-nil,
  arith, length, length-append, take, take-append, take-append_ge, length-take, ltb, ◌==◌,
  Bool-cases, if◌then◌else◌,
}
use mini_kv_storage_engine.Bytes.{Bytes}
use mini_kv_storage_engine.Result.{ok}
use mini_kv_storage_engine.Config.{Options, max_u64}
use mini_kv_storage_engine.Wal.{WalRecord, header_size}
use mini_kv_storage_engine.Wal.Layout.{layout, decode_header-layout}
use mini_kv_storage_engine.Wal.Encoded.{
  IsRecord, IsAccepted, header_of, encoding, header_of-IsHeader,
}
use mini_kv_storage_engine.Wal.RoundTrip.{length-encoding}
use mini_kv_storage_engine.File.{RecoveryFile}
use mini_kv_storage_engine.Recovery.{Recovered, truncate_tail, recover_loop}
use mini_kv_storage_engine.Recovery.Loop.{IsHealthy, read_or_region}

-- A record of which only the first `kept` bytes reached the file, none of them if `kept` is 0.
pub record Torn (o : Options) : Type 0 where
  pub torn : WalRecord
  pub kept : ℕ
  pub made : 0 < kept → IsRecord torn
  pub accepted : 0 < kept → IsAccepted o torn
  pub cut : kept < length (encoding torn)

abbrev pub remains : {o : Options} → Torn o → Bytes
remains t = take t.kept (encoding t.torn)

-- The result of a recovery of `file_size` bytes that stopped after `valid` bytes.
abbrev pub finish : ℕ → ℕ → Recovered → Recovered
finish file_size valid (recovered, result) = if valid == file_size then (recovered, result) else (
  recovered,
  record result {
    valid_bytes = valid;
    discarded_tail_bytes = file_size - valid;
    tail_truncated = true;
  },
)

module _ {S : Type 0} (file : RecoveryFile S) (h : IsHealthy file) (retries : ℕ) where
  truncated :
      (pre rest : Bytes) (s : S) (recovered : Recovered)
      → h.readable.content s ≡ pre ++ rest
      → 0 < length rest
      → (s' : S) × (truncate_tail file (length pre + length rest) (length pre) recovered s
          ≡ some (ok (finish (length pre + length rest) (length pre) recovered), s'))
        × (h.readable.content s' ≡ pre)
  unfolding truncate_tail
  truncated pre rest s (t, result) e some_rest =
      let s1 = (file.truncate (length pre) s).1 in
      let inside : length pre ≤ length (h.readable.content s) =
        omega (arith, ap length e, length-append pre rest) in
      let differs : (length pre == length pre + length rest) ≡ false = ground arith in
      (
        (file.sync s1).1,
        rw ((h.truncates (length pre) s inside).0, (h.syncs s1).0, differs) refl,
        (h.syncs s1).1
            ∙ (h.truncates (length pre) s inside).1
            ∙ ap (take (length pre)) e
            ∙ take-append pre rest (length pre) refl,
      )

  -- How the loop ends at a tail `rest` that is not a whole record.
  abbrev pub EndsAt : Options → Bytes → Bytes → ℕ → S → Recovered → Type 0
  EndsAt o pre rest fuel s recovered =
      (s' : S) × (recover_loop file (suc fuel) retries o (length pre + length rest) (length pre)
          recovered s
        ≡ some (ok (finish (length pre + length rest) (length pre) recovered), s'))
      × (h.readable.content s' ≡ pre)

  module _ (o : Options) (pre rest : Bytes) (fuel : ℕ) (s : S) (recovered : Recovered) where
    no_tail : h.readable.content s ≡ pre ++ rest → rest ≡ [] → EndsAt o pre rest fuel s recovered
    unfolding recover_loop
    no_tail e none_left =
        let same : (length pre == length pre + 0) ≡ true = ground arith in
        let at_end : ltb (length pre) (length pre + 0) ≡ false = ground arith in
        rw none_left (
          s,
          rw (at_end, same, recover_loop) refl,
          e ∙ ap (λ t. pre ++ t) none_left ∙ append-nil pre,
        )

    short_tail :
        h.readable.content s ≡ pre ++ rest
        → 0 < length rest
        → length rest < header_size
        → EndsAt o pre rest fuel s recovered
    unfolding recover_loop
    short_tail e some_rest short =
        let inside : ltb (length pre) (length pre + length rest) ≡ true = ground arith in
        let head : ltb (length pre + length rest - length pre) header_size ≡ true = ground arith in
        let (s', ends, kept) = truncated pre rest s recovered e some_rest in
        (s', rw (inside, head, recover_loop) ends, kept)

  header_tail :
      (o : Options) (pre left : Bytes) (r : WalRecord) (fuel : ℕ) (s : S) (recovered : Recovered)
      → IsRecord r
      → IsAccepted o r
      → h.readable.content s ≡ pre ++ layout (header_of r) left
      → length left < length r.key + length r.value
      → length (h.readable.content s) ≤ max_u64
      → length (h.readable.content s) + h.readable.patience s < retries
      → EndsAt o pre (layout (header_of r) left) fuel s recovered
  unfolding recover_loop
  header_tail o pre left r fuel s recovered w a e short fits m =
      let total = ap length e in
      let all = length-append pre (layout (header_of r) left) in
      let size = length pre + length (layout (header_of r) left) in
      let inside : ltb (length pre) size ≡ true = ground arith in
      let head : ltb (size - length pre) header_size ≡ false = ground arith in
      let body : ltb (size - length pre) (header_of r).record_size ≡ true = ground arith in
      let (s1, follow, kept1, patient1) =
        read_or_region file h retries pre (layout (header_of r) []) left header_size s refl e fits
          (omega (arith, all, total)) in
      let (s', ends, kept) =
        truncated pre (layout (header_of r) left) s1 recovered (kept1 ∙ e) (omega arith) in
      (
        s',
        rw (inside, head, recover_loop)
            (follow _ _
              ∙ rw (decode_header-layout o (header_of r) [] (header_of-IsHeader r o w a), body)
                  ends),
        kept,
      )

  -- However much of the record is left, the loop ends in one more round.
  pub torn_end :
      (o : Options) (pre : Bytes) (t : Torn o) (fuel : ℕ) (s : S) (recovered : Recovered)
      → h.readable.content s ≡ pre ++ remains t
      → length (h.readable.content s) ≤ max_u64
      → length (h.readable.content s) + h.readable.patience s < retries
      → EndsAt o pre (remains t) fuel s recovered
  torn_end o pre t fuel s recovered e fits m =
      let size = length-take t.kept (encoding t.torn) in
      elim (Bool-cases (ltb t.kept header_size)) [
        | inl short ↦ elim (Bool-cases (t.kept == 0)) [
          | inl nothing ↦
              let zero_kept : t.kept ≡ 0 = ground arith in
              no_tail o pre (remains t) fuel s recovered e (rw zero_kept)
          | inr something ↦
              short_tail o pre (remains t) fuel s recovered e (ground (arith, size, t.cut))
                (ground (arith, size, t.cut))
        ]
        | inr long ↦
            let payload = t.torn.key ++ t.torn.value in
            let long' : header_size ≤ t.kept = ground arith in
            let cut : remains t ≡ layout (header_of t.torn) (take (t.kept - header_size) payload) =
              take-append_ge (layout (header_of t.torn) []) payload t.kept long' in
            rw cut (
              header_tail o pre (take (t.kept - header_size) payload) t.torn fuel s recovered
                (t.made (omega arith)) (t.accepted (omega arith)) (e ∙ ap (λ x. pre ++ x) cut)
                (omega (
                  arith,
                  length-take (t.kept - header_size) payload,
                  length-encoding t.torn,
                  t.cut,
                  length-append t.torn.key t.torn.value,
                ))
                fits m)
      ]
