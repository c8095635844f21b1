-- ===== src/Compaction/Newest.antt =====
-- A round of the merge takes every cursor at the least key, and keeps the newest of their records.
use mini_kv_storage_engine.Base.{
  ◌≤◌, ◌≡◌, refl, sym, ap, ◌∙◌, true, false, List, [], ◌∷◌, ◌++◌, arith, All, All-append,
  append_assoc, inl, inr, subst, ◌⊎◌, Bool-cases, ltb,
}
use mini_kv_storage_engine.Bytes.{Bytes, bytes_eq}
use mini_kv_storage_engine.Bytes.Order.{
  ◌≺◌, ≺_trans, lt_of_gt, eq_of_compare_bytes, compare_bytes_refl,
}
use mini_kv_storage_engine.Result.{ok, err}
use mini_kv_storage_engine.MemTable.{MemTableRecord}
use mini_kv_storage_engine.Compaction.{MergeCursor, SameKey, cursor_later, push, collect}

-- No cursor with a smaller key stands behind.
abbrev pub IsBehind : Bytes → MergeCursor → Type 0
IsBehind key d = (key ≺ d.current.key) ⊎ (key ≡ d.current.key)

abbrev pub IsQueue : List MergeCursor → Type 0
IsQueue [] = Unit
IsQueue (c ∷ cs) = All (IsBehind c.current.key) cs × IsQueue cs

IsBehind-trans :
    (key : Bytes) (c d : MergeCursor) → IsBehind key c → IsBehind c.current.key d → IsBehind key d
IsBehind-trans key c d (inl p) (inl q) = inl (≺_trans key c.current.key d.current.key p q)
IsBehind-trans key c d (inl p) (inr q) = inl (subst (λ k. key ≺ k) q p)
IsBehind-trans key c d (inr p) (inl q) = inl (subst (λ k. k ≺ d.current.key) (sym p) q)
IsBehind-trans key c d (inr p) (inr q) = inr (p ∙ q)

All-IsBehind :
    (key : Bytes) (c : MergeCursor) (ds : List MergeCursor)
    → IsBehind key c
    → All (IsBehind c.current.key) ds
    → All (IsBehind key) ds
All-IsBehind key c [] p h = tt
All-IsBehind key c (d ∷ ds) p h = (IsBehind-trans key c d p h.0, All-IsBehind key c ds p h.1)

-- What the comparison of two cursors says of their keys.
cursor_later-true : (c d : MergeCursor) → cursor_later c d ≡ true → IsBehind d.current.key c
unfolding cursor_later
cursor_later-true c d h = elim (Bool-cases (bytes_eq c.current.key d.current.key)) [
  | inl same ↦ inr (sym (eq_of_compare_bytes c.current.key d.current.key (ground (arith, same))))
  | inr other ↦ inl (ground (arith, h, other))
]

cursor_later-false : (c d : MergeCursor) → cursor_later c d ≡ false → IsBehind c.current.key d
unfolding cursor_later
cursor_later-false c d h = elim (Bool-cases (bytes_eq c.current.key d.current.key)) [
  | inl same ↦ inr (eq_of_compare_bytes c.current.key d.current.key (ground (arith, same)))
  | inr other ↦ inl (
      ground (
        arith,
        h,
        other,
        lt_of_gt d.current.key c.current.key,
        eq_of_compare_bytes d.current.key c.current.key,
        compare_bytes_refl c.current.key,
      ))
]

All-push :
    (P : MergeCursor → Type 0) (c : MergeCursor) (heap : List MergeCursor)
    → P c
    → All P heap
    → All P (push c heap)
unfolding push
All-push P c [] p h = (p, tt)
All-push P c (top ∷ heap) p h = ground (arith, All-push P c heap p h.1, p, h)

pub push-IsQueue :
    (c : MergeCursor) (heap : List MergeCursor) → IsQueue heap → IsQueue (push c heap)
unfolding push
push-IsQueue c [] h = (tt, tt)
push-IsQueue c (top ∷ heap) h = elim (Bool-cases (cursor_later c top)) [
  | inl later ↦
      rw (later, push)
        (
          All-push (IsBehind top.current.key) c heap (cursor_later-true c top later) h.0,
          push-IsQueue c heap h.1,
        )
  | inr first ↦
      let p = cursor_later-false c top first in
      rw (first, push) ((p, All-IsBehind c.current.key top heap p h.0), h)
]

-- A cursor of the key whose record is not newer than the winner.
abbrev pub IsBeaten : Bytes → MemTableRecord → MergeCursor → Type 0
IsBeaten key winner c = (c.current.sequence ≤ winner.sequence) × (c.current.key ≡ key)

-- The record is at one of the cursors.
abbrev pub IsTaken : MemTableRecord → List MergeCursor → Type 0
IsTaken r [] = ⊥
IsTaken r (c ∷ cs) = (r ≡ c.current) ⊎ IsTaken r cs

IsTaken-append :
    (r : MemTableRecord) (c : MergeCursor) (cs : List MergeCursor)
    → IsTaken r cs ⊎ (r ≡ c.current)
    → IsTaken r (cs ++ c ∷ [])
IsTaken-append r c [] (inl t) = elim t [ ]
IsTaken-append r c [] (inr e) = inl e
IsTaken-append r c (d ∷ cs) (inl (inl e)) = inl e
IsTaken-append r c (d ∷ cs) (inl (inr t)) = inr (IsTaken-append r c cs (inl t))
IsTaken-append r c (d ∷ cs) (inr e) = inr (IsTaken-append r c cs (inr e))

-- What a round leaves: cursors of the key, the winner at one of them and none with a newer record,
-- and a queue of cursors at greater keys.
abbrev pub IsNewest : Bytes → SameKey → Type 0
IsNewest key k =
    IsTaken k.winner k.same_key
    × All (IsBeaten key k.winner) k.same_key
    × All (λ c. key ≺ c.current.key) k.heap
    × IsQueue k.heap

All-IsBeaten :
    (key : Bytes) (winner newer : MemTableRecord) (cs : List MergeCursor)
    → winner.sequence ≤ newer.sequence
    → All (IsBeaten key winner) cs
    → All (IsBeaten key newer) cs
All-IsBeaten key winner newer [] p h = tt
All-IsBeaten key winner newer (c ∷ cs) p h =
    ((omega (arith, h.0.0, p), h.0.1), All-IsBeaten key winner newer cs p h.1)

All-greater :
    (key : Bytes) (c : MergeCursor) (ds : List MergeCursor)
    → key ≺ c.current.key
    → All (IsBehind c.current.key) ds
    → All (λ d. key ≺ d.current.key) ds
All-greater key c [] p h = tt
All-greater key c (d ∷ ds) p h = (
  elim h.0 [
    | inl q ↦ ≺_trans key c.current.key d.current.key p q
    | inr q ↦ subst (λ k. key ≺ k) q p
  ],
  All-greater key c ds p h.1,
)

behind-of-other :
    (key : Bytes) (c : MergeCursor)
    → IsBehind key c
    → bytes_eq c.current.key key ≡ false
    → key ≺ c.current.key
behind-of-other key c (inl p) other = p
behind-of-other key c (inr q) other =
    ground (arith, other, q, compare_bytes_refl key, ap (λ k. bytes_eq k key) q)

take-cursor :
    (key : Bytes) (winner : MemTableRecord) (c : MergeCursor) (cs : List MergeCursor)
    → bytes_eq c.current.key key ≡ true
    → c.current.sequence ≤ winner.sequence
    → All (IsBeaten key winner) cs
    → All (IsBeaten key winner) (cs ++ c ∷ [])
take-cursor key winner c cs same p h =
    All-append (IsBeaten key winner) cs (c ∷ []) h
      ((p, eq_of_compare_bytes c.current.key key (ground (arith, same))), tt)

ok-injective : {j k : SameKey} → ok j ≡ ok k → j ≡ k
ok-injective {j} e = ap (λ r. elim r [ ok x ↦ x | err _ ↦ j ]) e

collect-IsNewest :
    (key : Bytes) (winner : MemTableRecord) (same_key heap : List MergeCursor) (k : SameKey)
    → IsTaken winner same_key
    → All (IsBeaten key winner) same_key
    → All (IsBehind key) heap
    → IsQueue heap
    → collect key winner same_key heap ≡ ok k
    → IsNewest key k
unfolding collect
collect-IsNewest key winner same_key [] k taken beaten behind queue e =
    subst (IsNewest key) (ok-injective e) (taken, beaten, tt, tt)
collect-IsNewest key winner same_key (c ∷ heap) k taken beaten behind queue e =
    elim (Bool-cases (bytes_eq c.current.key key)) [
      | inr other ↦
          let p = behind-of-other key c behind.0 other in
          subst (IsNewest key)
            {x = record { winner = winner; same_key = same_key; heap = c ∷ heap }}
            (ok-injective (ground (arith, e, other)))
            (taken, beaten, (p, All-greater key c heap p queue.0), queue)
      | inl same ↦ elim (Bool-cases (ltb winner.sequence c.current.sequence)) [
        | inl newer ↦
            collect-IsNewest key c.current (same_key ++ c ∷ []) heap k
              (IsTaken-append c.current c same_key (inr refl))
              (take-cursor key c.current c same_key same (omega arith)
                (All-IsBeaten key winner c.current same_key (ground (arith, newer)) beaten))
              behind.1 queue.1 (ground (arith, e, same, newer))
        | inr older ↦
            collect-IsNewest key winner (same_key ++ c ∷ []) heap k
              (IsTaken-append winner c same_key (inl taken))
              (take-cursor key winner c same_key same (ground (arith, older)) beaten) behind.1
              queue.1 (ground (arith, e, same, older))
      ]
    ]

-- The cursors that a round takes are the first ones of the queue, and it leaves the others.
collect-append :
    (key : Bytes) (winner : MemTableRecord) (same_key heap : List MergeCursor) (k : SameKey)
    → collect key winner same_key heap ≡ ok k
    → k.same_key ++ k.heap ≡ same_key ++ heap
unfolding collect
collect-append key winner same_key [] k e =
    subst (λ j. j.same_key ++ j.heap ≡ same_key ++ []) (ok-injective e) refl
collect-append key winner same_key (c ∷ heap) k e = ground (
  arith,
  e,
  collect-append key winner (same_key ++ c ∷ []) heap k,
  collect-append key c.current (same_key ++ c ∷ []) heap k,
  append_assoc same_key (c ∷ []) heap,
)

-- Where the cursors stand in a queue, in order of their keys, a round of the merge that collects
-- without an error splits the queue in two: the cursors that it takes are its first ones, those at
-- the least key, and the cursors that it leaves are all the others, a queue at greater keys. The
-- winner is the record at one of the cursors taken, and none of them has a greater sequence
-- number.
pub round-IsNewest :
    (top : MergeCursor) (heap : List MergeCursor) (k : SameKey)
    → IsQueue (top ∷ heap)
    → collect top.current.key top.current (top ∷ []) heap ≡ ok k
    → (k.same_key ++ k.heap ≡ top ∷ heap) × IsNewest top.current.key k
round-IsNewest top heap k queue e = (
  collect-append top.current.key top.current (top ∷ []) heap k e,
  collect-IsNewest top.current.key top.current (top ∷ []) heap k (inl refl)
      ((omega arith, refl), tt) queue.0 queue.1 e,
)
