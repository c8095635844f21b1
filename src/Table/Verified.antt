-- ===== src/Table/Verified.antt =====
-- The loop of Open over the data blocks: what it establishes of the blocks that it accepts.
use mini_kv_storage_engine.Base.{
  min, max, ℕ, ◌+◌, ◌≤◌, ◌<◌, ◌≡◌, refl, sym, ap, ◌∙◌, true, some, Option, List, [], ◌∷◌, ◌++◌,
  append_assoc, arith, length, length-append, All, All-append, Option-cases, Bool-cases, inl, inr,
  subst, ◌==◌, ◌⊎◌, if◌then◌else◌, get_elem?,
}
use mini_kv_storage_engine.Bytes.{Bytes, is_empty, compare_bytes}
use mini_kv_storage_engine.Bytes.Order.{◌≺◌, lt_of_gt, eq_of_compare_bytes}
use mini_kv_storage_engine.Result.{ok, Result-cases}
use mini_kv_storage_engine.Config.{max_u64}
use mini_kv_storage_engine.Checked.{checked_add}
use mini_kv_storage_engine.MemTable.{MemTableRecord}
use mini_kv_storage_engine.Bloom.{BloomFilter}
use mini_kv_storage_engine.File.{RecoveryFile}
use mini_kv_storage_engine.File.Reading.{IsReadable}
use mini_kv_storage_engine.Table.{IndexEntry}
use mini_kv_storage_engine.Table.Read.{SstableReader, new_stats, decode_block}
use mini_kv_storage_engine.Table.Verify.{
  Verified, passes, last_key, check_records, verify_block, verify_blocks,
}
use mini_kv_storage_engine.Table.Blocks.{IsRising}
use mini_kv_storage_engine.Table.Groups.{first_key_of}
use mini_kv_storage_engine.Table.Search.{Blocks, entries, block_records, IsNamed}
use mini_kv_storage_engine.Table.Reading.{bytes_at, read_block_lem}
use mini_kv_storage_engine.Table.Lookup.{IsStored}
use mini_kv_storage_engine.Table.Indexed.{IsIndexed, IsSorted, decode_block-IsSorted}

check_records-All :
    (filter : Option BloomFilter) (rs : List MemTableRecord) (v v' : Verified)
    → check_records filter rs v ≡ ok v'
    → All (λ r. passes filter r.key ≡ true) rs × (v'.minimum_key ≡ v.minimum_key)
unfolding check_records
check_records-All filter [] v v' e = (tt, ground (arith, e))
check_records-All filter (r ∷ rs) v v' e = elim (Bool-cases (passes filter r.key)) [
  | inr fails ↦ absurd (ground (arith, e, fails))
  | inl passed ↦
      let w : Verified = record v {
        minimum_sequence = min v.minimum_sequence r.sequence;
        maximum_sequence = max v.maximum_sequence r.sequence;
      } in
      let (rest, kept) = check_records-All filter rs w v' (ground (arith, e, passed)) in
      ((passed, rest), kept)
]

-- What VerifyBlock leaves of a block and of the summary.
record IsChecked (reader : SstableReader) (entry : IndexEntry) (block : ℕ)
    (rs : List MemTableRecord) (v v' : Verified) : Type 0 where
  pub named : IsNamed (entry, rs)
  pub behind : (v.previous_key ≡ []) ⊎ (v.previous_key ≺ first_key_of rs)
  pub covered : All (λ r. passes reader.bloom_filter r.key ≡ true) rs
  pub previous_key : v'.previous_key ≡ last_key v.previous_key rs
  pub minimum_key : v'.minimum_key ≡ (if block == 0 then first_key_of rs else v.minimum_key)

empty_lem : (key : Bytes) → is_empty key ≡ true → key ≡ []
empty_lem [] h = refl
empty_lem (byte ∷ key) h = absurd (ground (arith, h))

verify_block-IsChecked :
    (reader : SstableReader) (entry : IndexEntry) (block : ℕ) (rs : List MemTableRecord)
    (v v' : Verified)
    → verify_block reader entry block rs v ≡ ok v'
    → IsChecked reader entry block rs v v'
unfolding verify_block
verify_block-IsChecked reader entry block [] v v' e = absurd (ground (arith, e))
verify_block-IsChecked reader entry block (r ∷ rs) v v' e =
    elim (Result-cases (check_records reader.bloom_filter (r ∷ rs) v)) [
      | inr (status, c) ↦ absurd (ground (arith, e, c))
      | inl (w, c) ↦ elim (Option-cases (checked_add w.records (length (r ∷ rs)))) [
        | inl d ↦ absurd (ground (arith, e, c, d))
        | inr (total, d) ↦
            let (covers, kept) = check_records-All reader.bloom_filter (r ∷ rs) v w c in
            record {
              named =
                  (omega arith, ground (arith, e, c, d, eq_of_compare_bytes r.key entry.first_key));
              behind = elim (Bool-cases (is_empty v.previous_key)) [
                | inl none_ ↦ inl (empty_lem v.previous_key none_)
                | inr some_ ↦ inr (ground (arith, e, c, d, some_, lt_of_gt r.key v.previous_key))
              ];
              covered = covers;
              previous_key = ground (arith, e, c, d);
              minimum_key = ground (arith, e, c, d, kept);
            }
      ]
    ]

IsRising-append :
    (low : Bytes) (rs ss : List MemTableRecord)
    → IsRising low rs
    → IsRising (last_key low rs) ss
    → IsRising low (rs ++ ss)
IsRising-append low [] ss h h' = h'
IsRising-append low (r ∷ rs) ss h h' = (h.0, IsRising-append r.key rs ss h.1 h')

last_key-append :
    (low : Bytes) (rs ss : List MemTableRecord)
    → last_key low (rs ++ ss) ≡ last_key (last_key low rs) ss
last_key-append low [] ss = refl
last_key-append low (r ∷ rs) ss = last_key-append r.key rs ss

nil_below : (key : Bytes) → 0 < length key → [] ≺ key
unfolding compare_bytes
nil_below [] h = absurd (omega (arith, h))
nil_below (byte ∷ key) h = refl

-- A sorted block behind a key lies above it.
behind-IsRising :
    (low : Bytes) (rs : List MemTableRecord)
    → IsSorted rs
    → 0 < length rs
    → 0 < length (first_key_of rs)
    → (low ≡ []) ⊎ (low ≺ first_key_of rs)
    → IsRising low rs
behind-IsRising low [] sorted some_records key above = tt
behind-IsRising low (r ∷ rs) sorted some_records key (inr above) = (above, sorted)
behind-IsRising low (r ∷ rs) sorted some_records key (inl none_) =
    (subst (λ k. k ≺ r.key) (sym none_) (nil_below r.key key), sorted)

-- The blocks of the entries `es`, which stand behind the summary `v` and end with `v'`.
pub record IsVerified (reader : SstableReader) (content : Bytes) (es : List IndexEntry) (block : ℕ)
    (v v' : Verified) : Type 0 where
  pub blocks : Blocks
  pub index : entries blocks ≡ es
  pub named : All IsNamed blocks
  pub rising : IsRising v.previous_key (block_records blocks)
  pub covered : All (λ r. passes reader.bloom_filter r.key ≡ true) (block_records blocks)
  pub stored : All (IsStored reader.options content) blocks
  pub previous_key : v'.previous_key ≡ last_key v.previous_key (block_records blocks)
  pub minimum_key :
      v'.minimum_key ≡ (if block == 0 then first_key_of (block_records blocks) else v.minimum_key)

first_key_of-append :
    (rs ss : List MemTableRecord) → 0 < length rs → first_key_of (rs ++ ss) ≡ first_key_of rs
first_key_of-append [] ss h = absurd (omega (arith, h))
first_key_of-append (r ∷ rs) ss h = refl

-- One block and those behind it.
IsVerified-cons :
    (reader : SstableReader) (content : Bytes) (entry : IndexEntry) (es : List IndexEntry)
    (block : ℕ) (rs : List MemTableRecord) (v w v' : Verified)
    → IsIndexed (length content) entry
    → decode_block reader.options entry.block_size
        (bytes_at content entry.block_offset entry.block_size)
      ≡ ok rs
    → IsChecked reader entry block rs v w
    → IsVerified reader content es (block + 1) w v'
    → IsVerified reader content (entry ∷ es) block v v'
IsVerified-cons reader content entry es block rs v w v' indexed decoded c t =
    let sorted = decode_block-IsSorted reader.options entry.block_size _ rs decoded in
    let key : 0 < length (first_key_of rs) = omega (arith, indexed.1, ap length c.named.1) in
    let rising = behind-IsRising v.previous_key rs sorted c.named.0 key c.behind in
    record {
      blocks = (entry, rs) ∷ t.blocks;
      index = ap (λ l. entry ∷ l) t.index;
      named = (c.named, t.named);
      rising =
          IsRising-append v.previous_key rs (block_records t.blocks) rising
            (subst (λ k. IsRising k (block_records t.blocks)) c.previous_key t.rising);
      covered =
          All-append (λ r. passes reader.bloom_filter r.key ≡ true) rs (block_records t.blocks)
            c.covered t.covered;
      stored = ((indexed.0, decoded), t.stored);
      previous_key =
          t.previous_key
          ∙ ap (λ k. last_key k (block_records t.blocks)) c.previous_key
          ∙ sym (last_key-append v.previous_key rs (block_records t.blocks));
      minimum_key = ground (
        arith,
        t.minimum_key,
        c.minimum_key,
        first_key_of-append rs (block_records t.blocks) c.named.0,
      );
    }

get_elem?-append :
    (front es : List IndexEntry) (e : IndexEntry)
    → get_elem? (front ++ e ∷ es) (length front) ≡ some e
get_elem?-append [] es e = refl
get_elem?-append (x ∷ front) es e = get_elem?-append front es e

module _ {S : Type 0} (file : RecoveryFile S) (a : IsReadable file) (retries : ℕ)
    (reader : SstableReader) where
  -- The lists of entries in front of the block and from it on make the index.
  pub verify_blocks-IsVerified :
      (es front : List IndexEntry) (block : ℕ) (v v' : Verified) (s s' : S)
      → reader.index ≡ front ++ es
      → length front ≡ block
      → All (IsIndexed (length (a.content s))) es
      → length (a.content s) ≤ max_u64
      → length (a.content s) + a.patience s < retries
      → (block ≡ 0 → v.minimum_key ≡ [])
      → verify_blocks file retries reader es block v s ≡ some (ok v', s')
      → IsVerified reader (a.content s) es block v v' × (a.content s' ≡ a.content s)
  unfolding verify_blocks
  verify_blocks-IsVerified [] front block v v' s s' index count indexed fits m start e =
      let unchanged : v ≡ v' = ground (arith, e) in
      let same_state : s ≡ s' = ground (arith, e) in
      (
        record {
          blocks = [];
          index = refl;
          named = tt;
          rising = tt;
          covered = tt;
          stored = tt;
          previous_key = ap (λ x. x.previous_key) (sym unchanged);
          minimum_key = ground (arith, unchanged, start);
        },
        ap a.content (sym same_state),
      )
  verify_blocks-IsVerified (entry ∷ es) front block v v' s s' index count indexed fits m start e =
      let (s1, reads, kept, patient) =
        read_block_lem file a retries reader block entry new_stats s
          (rw (index, ← count) (get_elem?-append front es entry)) indexed.0.0 fits m in
      let bytes = bytes_at (a.content s) entry.block_offset entry.block_size in
      elim (Result-cases (decode_block reader.options entry.block_size bytes)) [
        | inr (status, d) ↦ absurd (ground (arith, reads, d, e))
        | inl (rs, d) ↦ elim (Result-cases (verify_block reader entry block rs v)) [
          | inr (status, c) ↦ absurd (ground (arith, reads, d, c, e))
          | inl (w, c) ↦
              let checked = verify_block-IsChecked reader entry block rs v w c in
              let (rest, same_content) =
                verify_blocks-IsVerified es (front ++ entry ∷ []) (block + 1) w v' s1 s'
                  (index ∙ sym (append_assoc front (entry ∷ []) es))
                  (length-append front (entry ∷ []) ∙ ap (λ n. n + 1) count) (rw kept indexed.1)
                  (rw kept fits) (omega (arith, m, patient, ap length kept))
                  (λ first. absurd (omega (arith, first))) (ground (arith, reads, d, c, e)) in
              (
                IsVerified-cons reader (a.content s) entry es block rs v w v' indexed.0 d checked
                    (subst (λ x. IsVerified reader x es (block + 1) w v') kept rest),
                same_content ∙ kept,
              )
        ]
      ]
