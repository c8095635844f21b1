-- ===== src/File/Writing.antt =====
-- WriteAll on a file that answers as write(2) does.
use mini_kv_storage_engine.Base.{
  ℕ, zero, suc, ◌+◌, ◌-◌, ◌≤◌, ◌<◌, ◌≡◌, refl, sym, ◌∙◌, true, false, inl, inr, some, ◌++◌,
  append-nil, append_assoc, arith, length, length-drop, take, drop, drop-drop, take_add, ltb,
  Bool-cases, lt→ltb, ltb→lt, tests,
}
use mini_kv_storage_engine.Bytes.{Bytes}
use mini_kv_storage_engine.Status.{Status, ok_status, is_ok}
use mini_kv_storage_engine.File.{
  WritableFile, WriteResult, WriteResultKind, write_all, quoted, reported,
}

-- One answer to a write of `input`: the file held `c` and holds `c'`. `p` and `p'` bound the
-- interruptions that are still to come.
pub data WriteStep (input c c' : Bytes) (p p' : ℕ) (r : WriteResult) : Type 0 where
  interrupted : r.kind ≡ WriteResultKind.interrupted → c' ≡ c → p' < p → WriteStep input c c' p p' r
  written :
      r.kind ≡ WriteResultKind.written
      → 0 < r.bytes_written
      → r.bytes_written ≤ length input
      → c' ≡ c ++ take r.bytes_written input
      → p' ≤ p
      → WriteStep input c c' p p' r
  failed :
      r.kind ≡ WriteResultKind.error → is_ok r.status ≡ false → c' ≡ c → WriteStep input c c' p p' r

-- The documented behaviour of write(2) on a descriptor opened with O_APPEND.
pub record IsAppending {S : Type 0} (file : WritableFile S) : Type 0 where
  pub content : S → Bytes
  pub patience : S → ℕ
  pub writes :
      (input : Bytes) (s : S)
      → 0 < length input
      → WriteStep input
          (content s)
          (content (file.write_some input s).1)
          (patience s)
          (patience (file.write_some input s).1)
          (file.write_some input s).0

-- The loop returned `status`, after it appended `k` bytes of what was left from `offset` on:
-- all of them if the status is OK, else some of them.
pub record IsWritten {S : Type 0} {file : WritableFile S} (a : IsAppending file) (input : Bytes)
    (offset : ℕ) (s : S) (status : Status) (s' : S) : Type 0 where
  pub appended : ℕ
  pub grown : a.content s' ≡ a.content s ++ take appended (drop offset input)
  pub complete : is_ok status ≡ true → appended ≡ length input - offset
  pub partial : appended ≤ length input - offset

-- The loop ends, and says by its status whether all was written.
abbrev pub Written :
    {S : Type 0} (file : WritableFile S) → IsAppending file → ℕ → Bytes → ℕ → S → Type 0
Written {S} file a fuel input offset s =
    (status : Status) × (s' : S) × (write_all file fuel input offset s ≡ some (status, s'))
    × IsWritten a input offset s status s'

module _ {S : Type 0} (file : WritableFile S) (a : IsAppending file) (input : Bytes) where
  -- The bytes of one answer and those of the later rounds are a prefix of what was left.
  joined :
      (offset n k : ℕ) (c c' c'' : Bytes)
      → c' ≡ c ++ take n (drop offset input)
      → c'' ≡ c' ++ take k (drop (offset + n) input)
      → c'' ≡ c ++ take (n + k) (drop offset input)
  joined offset n k c c' c'' p q =
      q ∙ rw (p, ← drop-drop offset n input, take_add n k (drop offset input)) (append_assoc c _ _)

  round :
      (fuel offset : ℕ) (s : S)
      → offset < length input
      → WriteStep
          (drop offset input)
          (a.content s)
          (a.content (file.write_some (drop offset input) s).1)
          (a.patience s)
          (a.patience (file.write_some (drop offset input) s).1)
          (file.write_some (drop offset input) s).0
      → length input - offset + a.patience s < suc fuel
      → ((offset' : ℕ)
          → (s' : S) → offset' ≤ length input
          → length input - offset' + a.patience s' < fuel
          → Written file a fuel input offset' s')
      → Written file a (suc fuel) input offset s
  unfolding write_all
  round fuel offset s more (interrupted kind same fewer) m ih =
      let (status, s', e, w) =
        ih offset (file.write_some (drop offset input) s).1 (omega arith) (omega arith) in
      (
        status,
        s',
        rw (lt→ltb offset (length input) more, kind, write_all) e,
        record {
          appended = w.appended;
          grown = w.grown ∙ rw same;
          complete = w.complete;
          partial = w.partial;
        },
      )
  round fuel offset s more (written kind some_bytes few grows fewer) m ih =
      let size = length-drop offset input in
      let (status, s', e, w) =
        ih (offset + (file.write_some (drop offset input) s).0.bytes_written)
          (file.write_some (drop offset input) s).1 (omega (arith, size)) (omega (arith, size)) in
      (
        status,
        s',
        rw (lt→ltb offset (length input) more, kind, write_all) (ground (arith, e, size)),
        record {
          appended = (file.write_some (drop offset input) s).0.bytes_written + w.appended;
          grown = joined offset _ w.appended (a.content s) _ (a.content s') grows w.grown;
          complete = λ done. omega (arith, w.complete done, size);
          partial = omega (arith, w.partial, size);
        },
      )
  round fuel offset s more (failed kind bad same) m ih = (
    reported (quoted "write failed for " file.name " without an error")
        (file.write_some (drop offset input) s).0.status,
    (file.write_some (drop offset input) s).1,
    rw (lt→ltb offset (length input) more, kind, bad, write_all) refl,
    record {
      appended = 0;
      grown = same ∙ sym (append-nil (a.content s));
      complete = λ done. cc (rw (bad, bad) at done);
      partial = omega arith;
    },
  )

  -- From any offset into its input, on a file that answers as write(2) documents, with fuel for
  -- the bytes that are left and the interruptions that are to come, WriteAll returns. It has
  -- appended a prefix of the bytes that were left, and all of them if its status is OK.
  pub write_all_total :
      (fuel offset : ℕ) (s : S)
      → offset ≤ length input
      → length input - offset + a.patience s < fuel
      → Written file a fuel input offset s
  unfolding write_all
  write_all_total zero offset s h m = absurd (omega arith)
  write_all_total (suc fuel) offset s h m = elim (Bool-cases (ltb offset (length input))) [
    | inl more ↦
        round fuel offset s (ltb→lt offset (length input) more)
          (a.writes (drop offset input) s (omega (tests, more, length-drop offset input))) m
          (write_all_total fuel)
    | inr done ↦ (
      ok_status,
      s,
      rw (done, write_all) refl,
      record {
        appended = 0;
        grown = sym (append-nil (a.content s));
        complete = λ _. ground arith;
        partial = omega arith;
      },
    )
  ]
