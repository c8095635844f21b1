-- ===== src/Table/Indexed.antt =====
-- What the decoders of Open and ReadBlock establish of the index and of a block they accept.
use mini_kv_storage_engine.Base.{
  ℕ, zero, suc, ◌+◌, ◌≤◌, ◌<◌, ◌≡◌, refl, sym, ◌∙◌, true, List, [], ◌∷◌, ◌++◌, append-nil,
  append_assoc, arith, length, length-take, take, drop, All, Option-cases, inl, inr, subst,
}
use mini_kv_storage_engine.Bytes.{Bytes}
use mini_kv_storage_engine.Bytes.Order.{lt_of_gt}
use mini_kv_storage_engine.Result.{ok, Result-cases}
use mini_kv_storage_engine.Config.{Options}
use mini_kv_storage_engine.Checked.{checked_add}
use mini_kv_storage_engine.Coding.{decode_fixed32, decode_fixed64}
use mini_kv_storage_engine.MemTable.{MemTableRecord}
use mini_kv_storage_engine.Wal.{decode_wal_record}
use mini_kv_storage_engine.Table.{
  IndexEntry, region_within, index_entry_fixed_size, block_header_size,
}
use mini_kv_storage_engine.Table.Build.{Footer}
use mini_kv_storage_engine.Table.Read.{decode_records, decode_block, from_wal}
use mini_kv_storage_engine.Table.Open.{decode_index}
use mini_kv_storage_engine.Table.Blocks.{IsRising}

-- An entry whose region ends by `limit`, with a key.
abbrev pub IsIndexed : ℕ → IndexEntry → Type 0
IsIndexed limit e = (e.block_offset + e.block_size ≤ limit) × (0 < length e.first_key)

region_within-le :
    (offset size start length_ limit : ℕ)
    → start + length_ ≤ limit
    → region_within offset size start length_ ≡ true
    → offset + size ≤ limit
unfolding region_within
region_within-le offset size start length_ limit h e = ground (arith, e)

module _ (o : Options) (f : Footer) (maximum limit : ℕ)
    (inside : f.data_offset + f.data_size ≤ limit) where
  none_left :
      (expected : ℕ) (remaining : Bytes) (entries es : List IndexEntry)
      → decode_index o f maximum zero expected remaining entries ≡ ok es
      → [] ≡ es
  unfolding decode_index
  none_left expected remaining entries es e = ground (arith, e)

  pub decode_index-All :
      (left expected : ℕ) (remaining : Bytes) (entries es : List IndexEntry)
      → decode_index o f maximum left expected remaining entries ≡ ok es
      → All (IsIndexed limit) es
  unfolding decode_index
  decode_index-All zero expected remaining entries es e =
      subst (All (IsIndexed limit)) (none_left expected remaining entries es e) tt
  decode_index-All (suc left) expected remaining entries es e =
      let behind = drop index_entry_fixed_size remaining in
      elim (Option-cases (decode_fixed32 remaining)) [
        | inl a ↦ absurd (ground (arith, e, a))
        | inr (key_size, a) ↦ elim (Option-cases (decode_fixed64 (drop 4 remaining))) [
          | inl b ↦ absurd (ground (arith, e, a, b))
          | inr (block_offset, b) ↦ elim (Option-cases (decode_fixed32 (drop 12 remaining))) [
            | inl c ↦ absurd (ground (arith, e, a, b, c))
            | inr (block_size, c) ↦ elim (Option-cases (checked_add expected block_size)) [
              | inl d ↦ absurd (ground (arith, e, a, b, c, d))
              | inr (expected', d) ↦
                  let entry : IndexEntry = record {
                    first_key = take key_size behind;
                    block_offset = block_offset;
                    block_size = block_size;
                  } in
                  elim (Result-cases (
                    decode_index o f maximum left expected' (drop key_size behind)
                      (entry ∷ entries))) [
                        | inr (status, r) ↦ absurd (ground (arith, e, a, b, c, d, r))
                        | inl (rest, r) ↦
                            let made : entry ∷ rest ≡ es = ground (arith, e, a, b, c, d, r) in
                            let region : region_within block_offset block_size f.data_offset
                                  f.data_size
                                ≡ true =
                              ground (arith, e, a, b, c, d) in
                            let key : 0 < length (take key_size behind) =
                              ground (arith, e, a, b, c, d, length-take key_size behind) in
                            subst (All (IsIndexed limit)) made (
                              (
                                region_within-le block_offset block_size f.data_offset f.data_size
                                    limit inside region,
                                key,
                              ),
                              decode_index-All left expected' (drop key_size behind)
                                  (entry ∷ entries) rest r,
                            )
                      ]
            ]
          ]
        ]
      ]

-- The keys of a block rise from its first record on.
abbrev pub IsSorted : List MemTableRecord → Type 0
IsSorted [] = Unit
IsSorted (r ∷ rs) = IsRising r.key rs

-- What the loop over the records appends behind the first one.
record IsAppended (previous_key : Bytes) (left : ℕ) (records out : List MemTableRecord)
    : Type 0 where
  pub added : List MemTableRecord
  pub appends : records ++ added ≡ out
  pub rising : IsRising previous_key added
  pub count : length added ≡ left

module _ (o : Options) where
  decode_records-IsAppended :
      (left n : ℕ) (previous_key remaining : Bytes) (records out : List MemTableRecord)
      → 0 < n
      → decode_records o left n previous_key remaining records ≡ ok out
      → IsAppended previous_key left records out
  unfolding decode_records
  decode_records-IsAppended zero n previous_key remaining records out later e = record {
    added = [];
    appends = append-nil records ∙ ground (arith, e);
    rising = tt;
    count = refl;
  }
  decode_records-IsAppended (suc left) n previous_key remaining records out later e =
      elim (Result-cases (decode_wal_record remaining o)) [
        | inr (status, d) ↦ absurd (ground (arith, e, d))
        | inl ((consumed, r), d) ↦
            let a =
              decode_records-IsAppended left (n + 1) r.key (drop consumed remaining)
                (records ++ from_wal r ∷ []) out (omega arith) (ground (arith, e, d, later)) in
            record {
              added = from_wal r ∷ a.added;
              appends = sym (append_assoc records (from_wal r ∷ []) a.added) ∙ a.appends;
              rising = (ground (arith, e, d, later, lt_of_gt r.key previous_key), a.rising);
              count = omega (arith, a.count);
            }
      ]

  decode_records-IsSorted :
      (left : ℕ) (remaining : Bytes) (out : List MemTableRecord)
      → 0 < left
      → decode_records o left 0 [] remaining [] ≡ ok out
      → IsSorted out
  unfolding decode_records
  decode_records-IsSorted zero remaining out some_ e = absurd (omega (arith, some_))
  decode_records-IsSorted (suc left) remaining out some_ e =
      elim (Result-cases (decode_wal_record remaining o)) [
        | inr (status, d) ↦ absurd (ground (arith, e, d))
        | inl ((consumed, r), d) ↦
            let a =
              decode_records-IsAppended left 1 r.key (drop consumed remaining) (from_wal r ∷ []) out
                (omega arith) (ground (arith, e, d)) in
            subst IsSorted a.appends a.rising
      ]

  pub decode_block-IsSorted :
      (size : ℕ) (block : Bytes) (rs : List MemTableRecord)
      → decode_block o size block ≡ ok rs
      → IsSorted rs
  unfolding decode_block
  decode_block-IsSorted size block rs e = elim (Option-cases (decode_fixed32 (drop 4 block))) [
    | inl a ↦ absurd (ground (arith, e, a))
    | inr (block_size, a) ↦ elim (Option-cases (decode_fixed32 (drop 8 block))) [
      | inl b ↦ absurd (ground (arith, e, a, b))
      | inr (record_count, b) ↦ elim (Option-cases (decode_fixed32 (drop 12 block))) [
        | inl c ↦ absurd (ground (arith, e, a, b, c))
        | inr (payload_size, c) ↦ elim (Option-cases (decode_fixed32 (drop 16 block))) [
          | inl d ↦ absurd (ground (arith, e, a, b, c, d))
          | inr (checksum, d) ↦
              decode_records-IsSorted record_count (drop block_header_size block) rs
                (ground (arith, e, a, b, c, d)) (ground (arith, e, a, b, c, d))
        ]
      ]
    ]
  ]
