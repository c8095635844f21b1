-- ===== src/File/Reading.antt =====
-- ReadAllAt on a file that answers as pread(2) does.
use mini_kv_storage_engine.Base.{
  ℕ, zero, suc, ◌+◌, ◌-◌, ◌≤◌, ◌<◌, ◌≡◌, refl, sym, ◌∙◌, true, false, inl, inr, some, ◌++◌, arith,
  length, take, drop, drop-drop, take_add, take_all, length-take, length-drop, ltb, leb, Bool-cases,
  lt→ltb, ltb→lt, ◌==◌, tests, if◌then◌else◌,
}
use mini_kv_storage_engine.Bytes.{Bytes}
use mini_kv_storage_engine.Status.{incomplete}
use mini_kv_storage_engine.Result.{Result, ok, err}
use mini_kv_storage_engine.Config.{max_u64}
use mini_kv_storage_engine.File.{RecoveryFile, ReadResult, ReadResultKind, read_all_at, quoted}

-- One answer to a read of `size` bytes at `offset` from a file that holds `c`. `p` and `p'` bound
-- the interruptions that are still to come.
pub data ReadStep (c : Bytes) (offset size p p' : ℕ) (r : ReadResult) (bytes : Bytes) : Type 0 where
  interrupted : r.kind ≡ ReadResultKind.interrupted → p' < p → ReadStep c offset size p p' r bytes
  read :
      r.kind ≡ ReadResultKind.read
      → 0 < r.bytes_read
      → r.bytes_read ≤ size
      → offset + r.bytes_read ≤ length c
      → bytes ≡ take r.bytes_read (drop offset c)
      → p' ≤ p
      → ReadStep c offset size p p' r bytes
  end_of_file :
      r.kind ≡ ReadResultKind.end_of_file
      → length c ≤ offset
      → p' ≤ p
      → ReadStep c offset size p p' r bytes

-- The documented behaviour of pread(2) on a file that no one else changes, where no read fails.
pub record IsReadable {S : Type 0} (file : RecoveryFile S) : Type 0 where
  pub content : S → Bytes
  pub patience : S → ℕ
  pub reads :
      (offset size : ℕ) (s : S)
      → 0 < size
      → ReadStep
          (content s)
          offset
          size
          (patience s)
          (patience (file.read_some offset size s).1)
          (file.read_some offset size s).0.0
          (file.read_some offset size s).0.1
  pub unchanged : (offset size : ℕ) (s : S) → content (file.read_some offset size s).1 ≡ content s

-- What ReadAllAt is to return: the region, or Incomplete where the file ends before it does.
abbrev pub region : {S : Type 0} → RecoveryFile S → Bytes → ℕ → ℕ → Result Bytes
region file c offset size =
    if leb (offset + size) (length c)
    then ok (take size (drop offset c))
    else err (incomplete (quoted "unexpected EOF while reading " file.name ""))

-- From the state `s`, the loop ends with the region and leaves the content alone.
abbrev pub ReadsRegion :
    {S : Type 0} (file : RecoveryFile S) → IsReadable file → ℕ → ℕ → ℕ → ℕ → S → Type 0
ReadsRegion {S} file a offset size fuel bytes_read s =
    (s' : S) × (read_all_at file fuel offset size (take bytes_read (drop offset (a.content s)))
        bytes_read s
      ≡ some (region file (a.content s) offset size, s'))
    × (a.content s' ≡ a.content s)
    × (a.patience s' ≤ a.patience s)

module _ {S : Type 0} (file : RecoveryFile S) (a : IsReadable file) (offset size : ℕ) where
  -- What the rounds so far stored, and the bytes of one more answer.
  joined :
      (bytes_read n : ℕ) (c bytes : Bytes)
      → bytes ≡ take n (drop (offset + bytes_read) c)
      → n ≤ length (drop (offset + bytes_read) c)
      → take bytes_read (drop offset c) ++ take n bytes ≡ take (bytes_read + n) (drop offset c)
  joined bytes_read n c bytes e h =
      rw (e, take_all (take n (drop (offset + bytes_read) c)) n (rw length-take (omega arith)))
        (rw (← drop-drop offset bytes_read c) (sym (take_add bytes_read n (drop offset c))))

  round :
      (fuel bytes_read : ℕ) (s : S)
      → bytes_read < size
      → offset + bytes_read ≤ length (a.content s)
      → length (a.content s) ≤ max_u64
      → size - bytes_read + a.patience s < suc fuel
      → ReadStep
          (a.content s)
          (offset + bytes_read)
          (size - bytes_read)
          (a.patience s)
          (a.patience (file.read_some (offset + bytes_read) (size - bytes_read) s).1)
          (file.read_some (offset + bytes_read) (size - bytes_read) s).0.0
          (file.read_some (offset + bytes_read) (size - bytes_read) s).0.1
      → ((bytes_read' : ℕ)
          → (s' : S) → bytes_read' ≤ size
          → offset + bytes_read' ≤ length (a.content s')
          → length (a.content s') ≤ max_u64
          → size - bytes_read' + a.patience s' < fuel
          → ReadsRegion file a offset size fuel bytes_read' s')
      → ReadsRegion file a offset size (suc fuel) bytes_read s
  unfolding read_all_at
  round fuel bytes_read s more inside fits m (interrupted kind fewer) ih =
      let s1 = (file.read_some (offset + bytes_read) (size - bytes_read) s).1 in
      let same : a.content s1 ≡ a.content s =
        a.unchanged (offset + bytes_read) (size - bytes_read) s in
      let room : ltb (max_u64 - bytes_read) offset ≡ false = ground arith in
      let (s', e, kept, patient) =
        ih bytes_read s1 (omega arith) (rw same inside) (rw same fits) (omega arith) in
      (
        s',
        rw (lt→ltb bytes_read size more, room, kind, read_all_at) (rw same at e),
        kept ∙ same,
        omega arith,
      )
  round fuel bytes_read s more inside fits m (read kind some_bytes few within bytes fewer) ih =
      let s1 = (file.read_some (offset + bytes_read) (size - bytes_read) s).1 in
      let n = (file.read_some (offset + bytes_read) (size - bytes_read) s).0.0.bytes_read in
      let same : a.content s1 ≡ a.content s =
        a.unchanged (offset + bytes_read) (size - bytes_read) s in
      let room : ltb (max_u64 - bytes_read) offset ≡ false = ground arith in
      let progress : (n == 0) ≡ false = ground arith in
      let few' : ltb (size - bytes_read) n ≡ false = ground arith in
      let (s', e, kept, patient) =
        ih (bytes_read + n) s1 (omega arith) (rw same (omega arith)) (rw same fits) (omega arith) in
      (
        s',
        rw
            (
              lt→ltb bytes_read size more,
              room,
              kind,
              progress,
              few',
              joined bytes_read n (a.content s) _ bytes
                  (omega (arith, length-drop (offset + bytes_read) (a.content s))),
              read_all_at,
            )
            (rw same at e),
        kept ∙ same,
        omega arith,
      )
  round fuel bytes_read s more inside fits m (end_of_file kind past fewer) ih =
      let room : ltb (max_u64 - bytes_read) offset ≡ false = ground arith in
      let short : leb (offset + size) (length (a.content s)) ≡ false = ground arith in
      (
        (file.read_some (offset + bytes_read) (size - bytes_read) s).1,
        rw (lt→ltb bytes_read size more, room, kind, short, read_all_at) refl,
        a.unchanged (offset + bytes_read) (size - bytes_read) s,
        fewer,
      )

  -- On a file that answers as pread(2) documents and where no read fails, the loop of ReadAllAt,
  -- standing inside the file with the first `bytes_read` bytes of the region stored and with more
  -- fuel than the bytes that are left and the interruptions to come, returns: the bytes of the
  -- region if the file reaches that far, else Incomplete. The content stays as it was.
  pub read_all_at_total :
      (fuel bytes_read : ℕ) (s : S)
      → bytes_read ≤ size
      → offset + bytes_read ≤ length (a.content s)
      → length (a.content s) ≤ max_u64
      → size - bytes_read + a.patience s < fuel
      → ReadsRegion file a offset size fuel bytes_read s
  unfolding read_all_at
  read_all_at_total zero bytes_read s h inside fits m = absurd (omega arith)
  read_all_at_total (suc fuel) bytes_read s h inside fits m =
      elim (Bool-cases (ltb bytes_read size)) [
        | inl more ↦
            round fuel bytes_read s (ltb→lt bytes_read size more) inside fits m
              (a.reads (offset + bytes_read) (size - bytes_read) s (omega (tests, more)))
              (read_all_at_total fuel)
        | inr done ↦
            let all : bytes_read ≡ size = ground arith in
            let inside' : leb (offset + size) (length (a.content s)) ≡ true = ground arith in
            (s, rw (done, inside', all, read_all_at) refl, refl, omega arith)
      ]
