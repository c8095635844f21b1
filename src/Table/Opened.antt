-- ===== src/Table/Opened.antt =====
-- Open from the footer on: the reader that it returns describes the data blocks of the file.
use mini_kv_storage_engine.Base.{
  ℕ, ◌+◌, ◌≤◌, ◌<◌, ◌≡◌, refl, sym, ap, ◌∙◌, some, Option, List, [], arith, length, All,
  Option-cases, Bool-cases, inl, inr, subst, ◌==◌, drop,
}
use mini_kv_storage_engine.Bytes.{Bytes}
use mini_kv_storage_engine.Result.{ok, err, Result-cases}
use mini_kv_storage_engine.Config.{Options, max_u64}
use mini_kv_storage_engine.Bloom.{BloomFilter}
use mini_kv_storage_engine.File.{RecoveryFile}
use mini_kv_storage_engine.File.Reading.{IsReadable}
use mini_kv_storage_engine.Table.{IndexEntry, index_header_size, maximum_block_size}
use mini_kv_storage_engine.Table.Build.{Footer}
use mini_kv_storage_engine.Table.Read.{SstableReader}
use mini_kv_storage_engine.Table.Open.{
  check_regions, check_index_size, check_index, checked_filter, decode_index,
}
use mini_kv_storage_engine.Table.Verify.{
  Verified, nothing_verified, verify_blocks, verified_reader, read_filter, filter_metadata,
  footer_metadata, open_blocks, open_regions,
}
use mini_kv_storage_engine.Table.Reading.{bytes_at, read_region_lem}
use mini_kv_storage_engine.Table.Search.{Blocks}
use mini_kv_storage_engine.Table.Lookup.{IsReader}
use mini_kv_storage_engine.Table.Indexed.{IsIndexed, decode_index-All}
use mini_kv_storage_engine.Table.Verified.{IsVerified, verify_blocks-IsVerified}

-- The regions of an accepted footer lie in the file.
check_regions_lem :
    (f : Footer) (size : ℕ) (checked : Unit {0})
    → check_regions f size ≡ ok checked
    → (f.data_offset + f.data_size ≤ size)
      × (f.index_offset + f.index_size ≤ size)
      × (f.bloom_offset + f.bloom_size ≤ size)
unfolding check_regions
check_regions_lem f size checked e = ground (arith, e)

-- The reader of the footer and the filter, in front of the loop over its blocks.
abbrev unverified : Options → Footer → Option BloomFilter → List IndexEntry → SstableReader
unverified options f filter index = record {
  options = options;
  metadata = filter_metadata filter (footer_metadata f);
  index = index;
  bloom_filter = filter;
}

verified_reader-IsReader :
    (f : Footer) (reader reader' : SstableReader) (v : Verified) (content : Bytes)
    → length content ≤ max_u64
    → IsVerified reader content reader.index 0 nothing_verified v
    → verified_reader f reader v ≡ ok reader'
    → (blocks : Blocks) × IsReader reader' blocks content
unfolding verified_reader
verified_reader-IsReader f reader reader' v content fits x e =
    let made : (record reader {
      metadata = record (reader.metadata) {
        minimum_key = v.minimum_key;
        maximum_key = v.previous_key;
      };
    })
        ≡ reader' =
      ground (arith, e) in
    (
      x.blocks,
      subst (λ r. IsReader r x.blocks content) made
          (record {
            index = sym x.index;
            named = x.named;
            rising = x.rising;
            minimum_key = x.minimum_key;
            maximum_key = x.previous_key;
            covered = x.covered;
            stored = x.stored;
            size_fits = fits;
          }),
    )

module _ {S : Type 0} (file : RecoveryFile S) (a : IsReadable file) (retries : ℕ) where
  -- A step of Open that only reads.
  abbrev Reads : S → S → Type 0
  Reads s s' = (a.content s' ≡ a.content s) × (a.patience s' ≤ a.patience s)

  read_filter-Reads :
      (f : Footer) (filter : Option BloomFilter) (s s' : S)
      → f.bloom_offset + f.bloom_size ≤ length (a.content s)
      → length (a.content s) ≤ max_u64
      → length (a.content s) + a.patience s < retries
      → read_filter file retries f s ≡ some (ok filter, s')
      → Reads s s'
  unfolding read_filter
  read_filter-Reads f filter s s' inside fits m e = elim (Bool-cases (f.bloom_size == 0)) [
    | inl none_ ↦
        let same_state : s ≡ s' = ground (arith, e, none_) in
        (ap a.content (sym same_state), omega (arith, ap a.patience same_state))
    | inr some_ ↦
        let (s1, reads, kept, patient) =
          read_region_lem file a retries f.bloom_offset f.bloom_size s inside fits m in
        elim (Result-cases
          (checked_filter f.record_count (bytes_at (a.content s) f.bloom_offset f.bloom_size))) [
            | inr (status, d) ↦ absurd (ground (arith, e, some_, reads, d))
            | inl (read, d) ↦
                let same_state : s1 ≡ s' = ground (arith, e, some_, reads, d) in
                (
                  subst (λ x. a.content x ≡ a.content s) same_state kept,
                  omega (arith, patient, ap a.patience same_state),
                )
          ]
  ]

  -- The loop over the blocks, and the reader that it makes.
  blocks-IsReader :
      (f : Footer) (reader reader' : SstableReader) (s : S)
      → All (IsIndexed (length (a.content s))) reader.index
      → length (a.content s) ≤ max_u64
      → length (a.content s) + a.patience s < retries
      → (v : Verified) → (s1 : S)
      → verify_blocks file retries reader reader.index 0 nothing_verified s ≡ some (ok v, s1)
      → verified_reader f reader v ≡ ok reader'
      → (blocks : Blocks) × IsReader reader' blocks (a.content s) × (a.content s1 ≡ a.content s)
  blocks-IsReader f reader reader' s indexed fits m v s1 e r =
      let (x, kept) =
        verify_blocks-IsVerified file a retries reader reader.index [] 0 nothing_verified v s s1
          refl refl indexed fits m (λ _. refl) e in
      let (blocks, described) =
        verified_reader-IsReader f reader reader' v (a.content s) fits x r in
      (blocks, described, kept)

  open_blocks-IsReader :
      (options : Options) (f : Footer) (encoded : Bytes) (reader : SstableReader) (s s' : S)
      → f.data_offset + f.data_size ≤ length (a.content s)
      → f.bloom_offset + f.bloom_size ≤ length (a.content s)
      → length (a.content s) ≤ max_u64
      → length (a.content s) + a.patience s < retries
      → open_blocks file retries options f encoded s ≡ some (ok reader, s')
      → (blocks : Blocks) × IsReader reader blocks (a.content s) × (a.content s' ≡ a.content s)
  unfolding open_blocks
  open_blocks-IsReader options f encoded reader s s' data_in bloom_in fits m e =
      elim (Option-cases (read_filter file retries f s)) [
        | inl b ↦ absurd (ground (arith, e, b))
        | inr ((err status, s1), b) ↦ absurd (ground (arith, e, b))
        | inr ((ok filter, s1), b) ↦ elim (Result-cases (maximum_block_size options)) [
          | inr (status, c) ↦ absurd (ground (arith, e, b, c))
          | inl (maximum, c) ↦
              elim (Result-cases (
                decode_index options f maximum f.block_count f.data_offset
                  (drop index_header_size encoded) [])) [
                    | inr (status, d) ↦ absurd (ground (arith, e, b, c, d))
                    | inl (index, d) ↦
                        let (kept, patient) = read_filter-Reads f filter s s1 bloom_in fits m b in
                        let reader0 = unverified options f filter index in
                        let indexed =
                          decode_index-All options f maximum (length (a.content s1))
                            (rw kept data_in) f.block_count f.data_offset
                            (drop index_header_size encoded) [] index d in
                        elim (Option-cases
                          (verify_blocks file retries reader0 index 0 nothing_verified s1)) [
                            | inl v ↦ absurd (ground (arith, e, b, c, d, v))
                            | inr ((err status, s2), v) ↦ absurd (ground (arith, e, b, c, d, v))
                            | inr ((ok summary, s2), v) ↦
                                let (blocks, described, kept') =
                                  blocks-IsReader f reader0 reader s1 indexed (rw kept fits)
                                    (omega (arith, m, patient, ap length kept)) summary s2 v
                                    (ground (arith, e, b, c, d, v)) in
                                let same_state : s2 ≡ s' = ground (arith, e, b, c, d, v) in
                                (
                                  blocks,
                                  subst (IsReader reader blocks) kept described,
                                  subst (λ x. a.content x ≡ a.content s) same_state (kept' ∙ kept),
                                )
                          ]
                  ]
        ]
      ]

  -- Open from the footer on.
  pub open_regions-IsReader :
      (options : Options) (f : Footer) (reader : SstableReader) (s s' : S)
      → f.file_size ≡ length (a.content s)
      → length (a.content s) ≤ max_u64
      → length (a.content s) + a.patience s < retries
      → open_regions file retries options f s ≡ some (ok reader, s')
      → (blocks : Blocks) × IsReader reader blocks (a.content s) × (a.content s' ≡ a.content s)
  unfolding open_regions
  open_regions-IsReader options f reader s s' size fits m e =
      elim (Result-cases (check_regions f f.file_size)) [
        | inr (status, b) ↦ absurd (ground (arith, e, b))
        | inl (checked, b) ↦
            let (data_in, index_in, bloom_in) = check_regions_lem f f.file_size checked b in
            elim (Result-cases (check_index_size options f)) [
              | inr (status, c) ↦ absurd (ground (arith, e, b, c))
              | inl (checked', c) ↦
                  elim (Result-cases
                    (check_index f (bytes_at (a.content s) f.index_offset f.index_size))) [
                      | inr (status, d) ↦
                          let (s1, reads, kept, patient) =
                            read_region_lem file a retries f.index_offset f.index_size s
                              (rw (← size) index_in) fits m in
                          absurd (ground (arith, e, b, c, d, reads))
                      | inl (checked'', d) ↦
                          let (s1, reads, kept, patient) =
                            read_region_lem file a retries f.index_offset f.index_size s
                              (rw (← size) index_in) fits m in
                          let (blocks, described, kept') =
                            open_blocks-IsReader options f
                              (bytes_at (a.content s) f.index_offset f.index_size) reader s1 s'
                              (rw (kept, ← size) data_in) (rw (kept, ← size) bloom_in)
                              (rw kept fits) (omega (arith, m, patient, ap length kept))
                              (ground (arith, e, b, c, d, reads)) in
                          (blocks, subst (IsReader reader blocks) kept described, kept' ∙ kept)
                    ]
            ]
      ]
