-- ===== src/Compaction/Accounted.antt =====
-- The merge of a compaction ends, and its counts add up.
use mini_kv_storage_engine.Base.{
  ℕ, zero, suc, ◌+◌, ◌≤◌, ◌<◌, ◌≡◌, ◌∙◌, Bool, some, Option, List, [], ◌∷◌, ◌++◌, arith, length,
  length-append, inl, inr,
}
use mini_kv_storage_engine.Bytes.{Bytes}
use mini_kv_storage_engine.Result.{Result, ok, err, Result-cases}
use mini_kv_storage_engine.Config.{Options, max_u64}
use mini_kv_storage_engine.MemTable.{MemTableRecord}
use mini_kv_storage_engine.Status.{Status}
use mini_kv_storage_engine.Compaction.{
  CompactionBuildStats, MergeCursor, SameKey, Built, push, push_source, push_sources, advance_all,
  collect, emit, merge, Sources,
}

-- The records at the cursors and behind them.
abbrev pub heap_size : List MergeCursor → ℕ
heap_size [] = 0
heap_size (cursor ∷ heap) = suc (length cursor.behind) + heap_size heap

abbrev pub sources_size : List (List MemTableRecord) → ℕ
sources_size [] = 0
sources_size (source ∷ sources) = length source + sources_size sources

heap_size-push :
    (cursor : MergeCursor) (heap : List MergeCursor)
    → heap_size (push cursor heap) ≡ suc (length cursor.behind) + heap_size heap
unfolding push
heap_size-push cursor [] = omega arith
heap_size-push cursor (top ∷ heap) = ground (arith, heap_size-push cursor heap)

heap_size-push_source :
    (source : List MemTableRecord) (heap : List MergeCursor)
    → heap_size (push_source source heap) ≡ length source + heap_size heap
heap_size-push_source [] heap = omega arith
heap_size-push_source (r ∷ rs) heap = heap_size-push (record { current = r; behind = rs }) heap

pub heap_size-push_sources :
    (sources : List (List MemTableRecord)) (heap : List MergeCursor)
    → heap_size (push_sources sources heap) ≡ sources_size sources + heap_size heap
unfolding push_sources
heap_size-push_sources [] heap = omega arith
heap_size-push_sources (source ∷ sources) heap = omega (
  arith,
  heap_size-push_sources sources (push_source source heap),
  heap_size-push_source source heap,
)

heap_size-advance_all :
    (cursors heap : List MergeCursor)
    → heap_size (advance_all cursors heap) + length cursors ≡ heap_size cursors + heap_size heap
unfolding advance_all
heap_size-advance_all [] heap = omega arith
heap_size-advance_all (cursor ∷ cursors) heap = omega (
  arith,
  heap_size-advance_all cursors (push_source cursor.behind heap),
  heap_size-push_source cursor.behind heap,
)

heap_size-append : (xs ys : List MergeCursor) → heap_size (xs ++ ys) ≡ heap_size xs + heap_size ys
heap_size-append [] ys = omega arith
heap_size-append (x ∷ xs) ys = omega (arith, heap_size-append xs ys)

-- The inner loop moves cursors off the heap, and loses none.
heap_size-collect :
    (key : Bytes) (winner : MemTableRecord) (same_key heap : List MergeCursor) (k : SameKey)
    → collect key winner same_key heap ≡ ok k
    → (heap_size k.same_key + heap_size k.heap ≡ heap_size same_key + heap_size heap)
      × (length same_key ≤ length k.same_key)
unfolding collect
heap_size-collect key winner same_key [] k e = ground (arith, e)
heap_size-collect key winner same_key (cursor ∷ heap) k e = ground (
  arith,
  e,
  heap_size-collect key winner (same_key ++ cursor ∷ []) heap k,
  heap_size-collect key cursor.current (same_key ++ cursor ∷ []) heap k,
  heap_size-append same_key (cursor ∷ []),
  length-append same_key (cursor ∷ []),
)

-- The records that the counts name.
abbrev pub counted : CompactionBuildStats → ℕ
counted stats = stats.output_records + stats.duplicate_records_dropped + stats.tombstones_dropped

counted-emit :
    (options : Options) (may_drop_tombstones : Bool) (k : SameKey) (built built' : Built)
    → 0 < length k.same_key
    → counted built.1 + length k.same_key ≤ max_u64
    → emit options may_drop_tombstones k built ≡ ok built'
    → (counted built'.1 ≡ counted built.1 + length k.same_key)
      × (built'.1.input_records ≡ built.1.input_records)
unfolding emit
counted-emit options may_drop_tombstones k built built' some_ fits e =
    ground (arith, e, some_, fits)

-- The merge returned, with an error or with counts that name every record once.
pub data IsAccounted (records : ℕ) : Option (Result Built) → Type 0 where
  failed : {status : Status} → IsAccounted records (some (err status))
  merged :
      {built : Built}
      → counted built.1 ≡ records
      → built.1.input_records ≡ records
      → IsAccounted records (some (ok built))

pub merge-IsAccounted :
    (options : Options) (may_drop_tombstones : Bool) (fuel records : ℕ) (heap : List MergeCursor)
    (built : Built)
    → heap_size heap < fuel
    → records ≤ max_u64
    → counted built.1 + heap_size heap ≡ records
    → built.1.input_records ≡ records
    → IsAccounted records (merge fuel options may_drop_tombstones heap built)
unfolding merge
merge-IsAccounted options may_drop zero records heap built enough fits sum inputs =
    absurd (omega (arith, enough))
merge-IsAccounted options may_drop (suc fuel) records [] built enough fits sum inputs =
    merged (omega (arith, sum)) inputs
merge-IsAccounted options may_drop (suc fuel) records (top ∷ heap) built enough fits sum inputs =
    elim (Result-cases (collect top.current.key top.current (top ∷ []) heap)) [
      | inr (status, c) ↦ rw (c, merge) failed
      | inl (k, c) ↦ elim (Result-cases (emit options may_drop k built)) [
        | inr (status, d) ↦ rw (c, d, merge) failed
        | inl (built', d) ↦
            let size = heap_size-collect top.current.key top.current (top ∷ []) heap k c in
            let left = heap_size-advance_all k.same_key k.heap in
            let counts =
              counted-emit options may_drop k built built' (omega (arith, size))
                (omega (arith, size, sum, fits, left)) d in
            rw (c, d, merge)
              (merge-IsAccounted options may_drop fuel records (advance_all k.same_key k.heap)
                built' (omega (arith, size, left, enough)) fits
                (omega (arith, size, left, counts, sum)) (counts.1 ∙ inputs))
      ]
    ]

-- The count of the records is that of the sources, and fits 64 bits.
abbrev IsCounted : Sources → Type 0
IsCounted (sources, total) = (sources_size sources ≡ total) × (total ≤ max_u64)
