-- ===== src/Table/Lookup.antt =====
-- Get on a reader whose index and metadata describe the blocks of its file.
use mini_kv_storage_engine.Base.{
  ◌⊎◌, All-in, ◌||◌, ℕ, ◌+◌, ◌-◌, ◌≤◌, ◌<◌, ◌≡◌, refl, sym, Bool, true, false, Option, none, some,
  List, [], ◌∷◌, arith, length, All, get_elem?, subst, inl, inr, Option-cases, Bool-cases, ◌==◌,
}
use mini_kv_storage_engine.Bytes.{Bytes, is_empty, bytes_eq, bytes_lt}
use mini_kv_storage_engine.Bytes.Order.{◌≺◌, eq_of_compare_bytes, ≺_trans}
use mini_kv_storage_engine.Status.{ok_status, is_not_found, not_found}
use mini_kv_storage_engine.Config.{Options, max_u64}
use mini_kv_storage_engine.MemTable.{MemTableRecord, LookupResult, no_result}
use mini_kv_storage_engine.Bloom.{BloomFilter, may_contain}
use mini_kv_storage_engine.File.{RecoveryFile}
use mini_kv_storage_engine.File.Reading.{IsReadable}
use mini_kv_storage_engine.Table.{IndexEntry}
use mini_kv_storage_engine.Table.Read.{
  SstableReader, SstableReadStats, new_stats, decode_block, lower_bound, upper_bound, count_block,
  count_false_positive, candidate, search_blocks, get_record,
}
use mini_kv_storage_engine.Table.Verify.{last_key, passes}
use mini_kv_storage_engine.Table.Blocks.{IsRising}
use mini_kv_storage_engine.Table.Groups.{first_key_of}
use mini_kv_storage_engine.Table.Search.{
  find_record, with_key, lower_bound-find, Blocks, entries, block_records, IsNamed, IsCandidate,
  upper_bound-IsCandidate, find_record-below,
}
use mini_kv_storage_engine.Table.Reading.{bytes_at, read_block_lem}
use mini_kv_storage_engine.Result.{ok}

-- The region that an index entry names lies in the file and decodes to the records of the block.
abbrev pub IsStored : Options → Bytes → IndexEntry × List MemTableRecord → Type 0
IsStored o content (entry, group) =
    (entry.block_offset + entry.block_size ≤ length content)
    × (decode_block o entry.block_size (bytes_at content entry.block_offset entry.block_size)
        ≡ ok group)

-- The reader describes the data blocks of a file with this content.
pub record IsReader (reader : SstableReader) (blocks : Blocks) (content : Bytes) : Type 0 where
  pub index : reader.index ≡ entries blocks
  pub named : All IsNamed blocks
  pub rising : IsRising [] (block_records blocks)
  pub minimum_key : reader.metadata.minimum_key ≡ first_key_of (block_records blocks)
  pub maximum_key : reader.metadata.maximum_key ≡ last_key [] (block_records blocks)
  pub covered : All (λ r. passes reader.bloom_filter r.key ≡ true) (block_records blocks)
  pub stored : All (IsStored reader.options content) blocks
  pub size_fits : length content ≤ max_u64

-- What a lookup is to return, given the record of the key.
abbrev pub Answers : Option MemTableRecord → LookupResult → Type 0
Answers none result = is_not_found result.status ≡ true
Answers (some r) result =
    result ≡ record { status = ok_status; sequence = r.sequence; type = r.type; value = r.value }

candidate-Answers :
    (key : Bytes) (found : Option MemTableRecord)
    → Answers (with_key key found) (candidate key found)
candidate-Answers key none = refl
candidate-Answers key (some r) = ground arith

-- The record that is found has the key, and what holds of all records.
find_record-All {κ} :
    (P : MemTableRecord → Type κ) (key : Bytes) (rs : List MemTableRecord) (r : MemTableRecord)
    → find_record key rs ≡ some r
    → All P rs
    → P r × (r.key ≡ key)
unfolding find_record
find_record-All P key [] r e h = absurd (ground (arith, e))
find_record-All P key (s ∷ rs) r e h = elim (Bool-cases (bytes_eq s.key key)) [
  | inl hit ↦
      let same : s ≡ r = ground (arith, e, hit) in
      (subst P same h.0, ground (arith, e, hit, eq_of_compare_bytes s.key key))
  | inr miss ↦ find_record-All P key rs r (ground (arith, e, miss)) h.1
]

pub last_key-le :
    (low : Bytes) (rs : List MemTableRecord)
    → IsRising low rs
    → (low ≡ last_key low rs) ⊎ (low ≺ last_key low rs)
last_key-le low [] h = inl refl
last_key-le low (r ∷ rs) h = elim (last_key-le r.key rs h.1) [
  | inl e ↦ inr (subst (λ k. low ≺ k) e h.0)
  | inr less ↦ inr (≺_trans low r.key (last_key r.key rs) h.0 less)
]

-- A key above the last one is not there.
find_record-past :
    (key low : Bytes) (rs : List MemTableRecord)
    → IsRising low rs
    → last_key low rs ≺ key
    → find_record key rs ≡ none
unfolding find_record
find_record-past key low [] h past = refl
find_record-past key low (r ∷ rs) h past =
    let less : r.key ≺ key = elim (last_key-le r.key rs h.1) [
      | inl e ↦ subst (λ k. k ≺ key) (sym e) past
      | inr below ↦ ≺_trans r.key (last_key r.key rs) key below past
    ] in
    ground (arith, less, find_record-past key r.key rs h.1 past)

find_record-outside :
    (key : Bytes) (rs : List MemTableRecord)
    → IsRising [] rs
    → 0 < length key
    → (key ≺ first_key_of rs) ⊎ (last_key [] rs ≺ key)
    → find_record key rs ≡ none
unfolding find_record
find_record-outside key rs h some_key (inr past) = find_record-past key [] rs h past
find_record-outside key [] h some_key (inl below) = refl
find_record-outside key (r ∷ rs) h some_key (inl below) =
    find_record-below key key (r ∷ rs) (inr refl) (below, h.1)

is_empty_lem : (key : Bytes) → 0 < length key → is_empty key ≡ false
is_empty_lem [] h = absurd (omega (arith, h))
is_empty_lem (byte ∷ key) h = refl

-- A call of Get or of its search that returned an answer to `found`, and left the file as it was.
abbrev pub HasAnswer :
    {S : Type 0}
    → (S → Bytes)
    → S
    → Option MemTableRecord
    → Option (LookupResult × (SstableReadStats × S))
    → Type 0
HasAnswer {S} content s found call =
    (result : LookupResult) × (stats : SstableReadStats) × (s' : S) × (call
      ≡ some (result, (stats, s')))
    × Answers found result
    × (content s' ≡ content s)

module _ {S : Type 0} (file : RecoveryFile S) (a : IsReadable file) (retries : ℕ)
    (reader : SstableReader) (blocks : Blocks) (s : S) (v : IsReader reader blocks (a.content s))
    (m : length (a.content s) + a.patience s < retries) where
  searched :
      (key : Bytes) (bloom_checked : Bool) (stats : SstableReadStats)
      → IsCandidate key blocks
      → HasAnswer a.content s
          (find_record key (block_records blocks))
          (search_blocks file retries reader key bloom_checked stats s)
  unfolding search_blocks
  searched key bloom_checked stats c =
      let stored = All-in (IsStored reader.options (a.content s)) blocks v.stored c.member in
      let (s', reads, kept, patient) =
        read_block_lem file a retries reader (upper_bound key reader.index - 1) c.entry stats s
          (rw v.index c.named) stored.0 v.size_fits m in
      let some_blocks : (upper_bound key reader.index == 0) ≡ false =
        rw v.index (ground (arith, c.some_blocks)) in
      let found = candidate key (get_elem? c.group (lower_bound key c.group)) in
      (
        found,
        count_false_positive bloom_checked found (count_block c.entry.block_size stats),
        s',
        rw (some_blocks, reads, stored.1) refl,
        rw (c.finds, ← lower_bound-find key c.low c.group c.rising)
            (candidate-Answers key (get_elem? c.group (lower_bound key c.group))),
        kept,
      )

  search_blocks-HasAnswer :
      (key : Bytes) (bloom_checked : Bool) (stats : SstableReadStats)
      → HasAnswer a.content s
          (find_record key (block_records blocks))
          (search_blocks file retries reader key bloom_checked stats s)
  unfolding search_blocks
  search_blocks-HasAnswer key bloom_checked stats =
      elim (upper_bound-IsCandidate key [] blocks v.named v.rising) [
        | inr c ↦ searched key bloom_checked stats c
        | inl (first, absent) ↦ (
          no_result (not_found "key precedes sparse index"),
          stats,
          s,
          rw (v.index, first) refl,
          rw absent refl,
          refl,
        )
      ]

  module _ (key : Bytes) (some_key : 0 < length key)
      (in_limit : length key ≤ reader.options.max_key_size) where
    not_empty : is_empty key ≡ false
    not_empty = is_empty_lem key some_key

    outside :
        (bytes_lt key reader.metadata.minimum_key || bytes_lt reader.metadata.maximum_key key)
          ≡ true
        → HasAnswer a.content s
            (find_record key (block_records blocks))
            (get_record file retries reader key s)
    unfolding get_record
    outside out =
        let absent =
          find_record-outside key (block_records blocks) v.rising some_key
            (ground (arith, out, v.minimum_key, v.maximum_key)) in
        (
          no_result (not_found "key is outside table range"),
          record new_stats { range_rejections = 1 },
          s,
          ground (arith, not_empty, in_limit, out),
          rw absent refl,
          refl,
        )

    excluded :
        (filter : BloomFilter)
        → (bytes_lt key reader.metadata.minimum_key || bytes_lt reader.metadata.maximum_key key)
          ≡ false
        → reader.bloom_filter ≡ some filter
        → reader.options.bloom_filter_enabled ≡ true
        → may_contain key filter ≡ false
        → HasAnswer a.content s
            (find_record key (block_records blocks))
            (get_record file retries reader key s)
    unfolding get_record
    excluded filter inside some_filter enabled fails =
        let absent : find_record key (block_records blocks) ≡ none =
          elim (Option-cases (find_record key (block_records blocks))) [
            | inl none_ ↦ none_
            | inr (r, found) ↦
                let (covers, same_key) =
                  find_record-All (λ r. passes reader.bloom_filter r.key ≡ true) key
                    (block_records blocks) r found v.covered in
                absurd (ground (arith, covers, same_key, fails, some_filter))
          ] in
        (
          no_result (not_found "Bloom filter excludes key"),
          record new_stats { bloom_filter_checks = 1; bloom_filter_rejections = 1 },
          s,
          ground (arith, not_empty, in_limit, inside, some_filter, enabled, fails),
          rw absent refl,
          refl,
        )

    reached :
        (bloom_checked : Bool) (stats : SstableReadStats)
        → get_record file retries reader key s
          ≡ search_blocks file retries reader key bloom_checked stats s
        → HasAnswer a.content s
            (find_record key (block_records blocks))
            (get_record file retries reader key s)
    reached bloom_checked stats e =
        subst (HasAnswer a.content s (find_record key (block_records blocks))) (sym e)
          (search_blocks-HasAnswer key bloom_checked stats)

    -- On a file that answers as pread(2) documents, given enough fuel, for a reader whose index
    -- and metadata describe the data blocks of the file and whose Bloom filter, if it has one,
    -- passes every key in them, and for a key that is not empty and within the size limit: whether
    -- the filter is switched on or not, Get returns the record of the key in the blocks if there
    -- is one, else NotFound, and the file stays as it was.
    pub get_record-HasAnswer :
        HasAnswer a.content s
          (find_record key (block_records blocks))
          (get_record file retries reader key s)
    unfolding get_record
    get_record-HasAnswer =
        let range =
          bytes_lt key reader.metadata.minimum_key || bytes_lt reader.metadata.maximum_key key in
        let checked : SstableReadStats = record new_stats { bloom_filter_checks = 1 } in
        elim (Bool-cases range) [
          | inl out ↦ outside out
          | inr inside ↦ elim (Option-cases reader.bloom_filter) [
            | inl no_filter_ ↦
                reached false new_stats (ground (arith, not_empty, in_limit, inside, no_filter_))
            | inr (filter, some_filter) ↦ elim (Bool-cases reader.options.bloom_filter_enabled) [
              | inr disabled ↦
                  reached false new_stats
                    (ground (arith, not_empty, in_limit, inside, some_filter, disabled))
              | inl enabled ↦ elim (Bool-cases (may_contain key filter)) [
                | inl passed ↦
                    reached true checked
                      (ground (arith, not_empty, in_limit, inside, some_filter, enabled, passed))
                | inr fails ↦ excluded filter inside some_filter enabled fails
              ]
            ]
          ]
        ]
