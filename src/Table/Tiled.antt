-- ===== src/Table/Tiled.antt =====
-- EncodeTable: the file that it makes of a MemTable, block by block.
use mini_kv_storage_engine.Base.{
  ℕ, append-nil, ◌+◌, ◌<◌, ◌≡◌, refl, sym, ap, ◌∙◌, subst, false, List, [], ◌∷◌, ◌++◌, arith,
  length, map, All, inl, inr, Bool-cases,
}
use mini_kv_storage_engine.Bytes.{Bytes, compare_bytes}
use mini_kv_storage_engine.Bytes.Order.{◌≺◌}
use mini_kv_storage_engine.Result.{ok, Result-cases}
use mini_kv_storage_engine.Config.{Options}
use mini_kv_storage_engine.OrderedMap.{OrderedMap, IsOrdered, Above}
use mini_kv_storage_engine.MemTable.{MemTable, Entry, MemTableRecord, records, empty, to_record}
use mini_kv_storage_engine.MemTable.Invariant.{IsValid, IsEntry}
use mini_kv_storage_engine.Wal.Encoded.{IsRecord}
use mini_kv_storage_engine.LongDouble.{LongDouble}
use mini_kv_storage_engine.Table.{table_header_size, footer_size, validate_table_options}
use mini_kv_storage_engine.Table.Build.{
  Builder, Footer, new_builder, wal_record, finish_block, add_entries, encode_index, encode_filter,
  table_header, encode_footer, assemble, encode_table,
}
use mini_kv_storage_engine.Table.Read.{decode_block}
use mini_kv_storage_engine.Table.Blocks.{
  IsRising, IsBlock, block_of, length-block_of, decode_block-block_of,
}
use mini_kv_storage_engine.Table.Groups.{
  Groups, all_records, data_of, index_of, lowest, highest, all_records_snoc, length-index_of,
}
use mini_kv_storage_engine.Table.Built.{
  IsBuilding, new_builder-IsBuilding, add_entries-IsBuilding, finished-IsBuilding,
}
use mini_kv_storage_engine.Table.Verify.{last_key}
use mini_kv_storage_engine.Table.Search.{IsRising-left, IsRising-right}

nil_lt : (low key : Bytes) → low ≺ key → [] ≺ key
unfolding compare_bytes
nil_lt low (b ∷ key) h = refl
nil_lt [] [] h = h
nil_lt (a ∷ low) [] h = cc

from_nil : (low : Bytes) (rs : List MemTableRecord) → IsRising low rs → IsRising [] rs
from_nil low [] h = tt
from_nil low (r ∷ rs) h = (nil_lt low r.key h.0, h.1)

abbrev Decodes : Options → List MemTableRecord → Type 0
Decodes o g = decode_block o (length (block_of g)) (block_of g) ≡ ok g

Decodes-All :
    (o : Options) (low : Bytes) (gs : Groups)
    → All (IsBlock o) gs
    → IsRising low (all_records gs)
    → All (Decodes o) gs
Decodes-All o low [] b h = tt
Decodes-All o low (g ∷ gs) b h = (
  ap (λ n. decode_block o n (block_of g)) (length-block_of g)
      ∙ decode_block-block_of o g b.0 (from_nil low g (IsRising-left low g (all_records gs) h)),
  Decodes-All o (last_key low g) gs b.1 (IsRising-right low g (all_records gs) h),
)

Above-IsRising :
    (m : OrderedMap Entry) (low : Bytes)
    → Above low m
    → IsOrdered m
    → IsRising low (map to_record m)
Above-IsRising [] low a h = tt
Above-IsRising ((k, e) ∷ m) low a h = (a.0, Above-IsRising m k h.0 h.1)

nil_below : (key : Bytes) → 0 < length key → [] ≺ key
unfolding compare_bytes
nil_below [] h = absurd (omega (arith, h))
nil_below (b ∷ key) h = refl

-- The records of a MemTable have rising keys.
entries-IsRising :
    (o : Options) (m : OrderedMap Entry)
    → IsOrdered m
    → All (IsEntry o) m
    → IsRising [] (map to_record m)
entries-IsRising o [] h l = tt
entries-IsRising o ((k, e) ∷ m) h l = (nil_below k l.0.0, Above-IsRising m k h.0 h.1)

pub records-IsRising : (t : MemTable) → IsValid t → IsRising [] (records t)
unfolding records
records-IsRising t v = entries-IsRising t.options t.entries v.ordered v.in_limits

-- The footer over regions of these sizes.
abbrev pub footer_of : ℕ → List MemTableRecord → Groups → Bytes → Bytes → Footer
footer_of generation entries gs index bloom = record {
  file_size = table_header_size + length (data_of gs) + length index + length bloom + footer_size;
  generation = generation;
  record_count = length entries;
  minimum_sequence = lowest entries;
  maximum_sequence = highest entries;
  data_offset = table_header_size;
  data_size = length (data_of gs);
  index_offset = table_header_size + length (data_of gs);
  index_size = length index;
  bloom_offset = table_header_size + length (data_of gs) + length index;
  bloom_size = length bloom;
  block_count = length gs;
}

-- The file of some records: they are cut into groups, each data block decodes to its group, the
-- index names the blocks, and the regions follow one another as the footer says.
pub record IsTiled (o : Options) (generation : ℕ) (entries : List MemTableRecord) (bytes : Bytes)
    : Type 0 where
  pub groups : Groups
  pub index : Bytes
  pub bloom : Bytes
  pub all : all_records groups ≡ entries
  pub decodes : All (Decodes o) groups
  pub sparse : encode_index (index_of table_header_size groups) ≡ ok index
  pub layout :
      bytes
      ≡ table_header generation (length entries) (length groups)
        ++ (data_of groups
            ++ (index
                ++ (bloom ++ encode_footer (footer_of generation entries groups index bloom))))

module _ (o : Options) (generation : ℕ) (entries : List MemTableRecord) (gs : Groups) (b : Builder)
    (v : IsBuilding o gs [] b) (all : all_records gs ≡ entries) where
  assemble_lem :
      (index bloom bytes : Bytes)
      → assemble generation (length entries) b index bloom ≡ ok bytes
      → bytes
        ≡ table_header generation (length entries) (length gs)
          ++ (data_of gs
              ++ (index ++ (bloom ++ encode_footer (footer_of generation entries gs index bloom))))
  unfolding assemble
  assemble_lem index bloom bytes e =
      let joined : all_records gs ++ [] ≡ entries = append-nil (all_records gs) ∙ all in
      ground (arith, e, v, joined, length-index_of gs table_header_size)

-- What a successful run of EncodeTable went through.
record IsEncoded (float : LongDouble) (o : Options) (generation : ℕ) (entries : List MemTableRecord)
    (bytes : Bytes) : Type 0 where
  pub filling : Builder
  pub built : Builder
  pub index : Bytes
  pub bloom : Bytes
  pub fills : add_entries o entries new_builder ≡ ok filling
  pub finishes : finish_block filling ≡ ok built
  pub indexes : encode_index built.index_entries ≡ ok index
  pub filters : encode_filter float o entries ≡ ok bloom
  pub assembles : assemble generation (length entries) built index bloom ≡ ok bytes

encode_table-IsEncoded :
    (float : LongDouble) (generation : ℕ) (t : MemTable) (o : Options) (bytes : Bytes)
    → encode_table float generation t o ≡ ok bytes
    → IsEncoded float o generation (records t) bytes
unfolding encode_table
encode_table-IsEncoded float generation t o bytes e =
    elim (Result-cases (validate_table_options o)) [
      | inr (status, f) ↦ absurd (ground (arith, e, f))
      | inl (checked, f) ↦ elim (Result-cases (add_entries o (records t) new_builder)) [
        | inr (status, g) ↦ absurd (ground (arith, e, f, g))
        | inl (filling, g) ↦ elim (Result-cases (finish_block filling)) [
          | inr (status, h) ↦ absurd (ground (arith, e, f, g, h))
          | inl (built, h) ↦ elim (Result-cases (encode_index built.index_entries)) [
            | inr (status, i) ↦ absurd (ground (arith, e, f, g, h, i))
            | inl (index, i) ↦ elim (Result-cases (encode_filter float o (records t))) [
              | inr (status, j) ↦ absurd (ground (arith, e, f, g, h, i, j))
              | inl (bloom, j) ↦ record {
                filling = filling;
                built = built;
                index = index;
                bloom = bloom;
                fills = g;
                finishes = h;
                indexes = i;
                filters = j;
                assembles = ground (arith, e, f, g, h, i, j);
              }
            ]
          ]
        ]
      ]
    ]

some_records :
    (o : Options) (m : OrderedMap Entry) (size : ℕ)
    → empty (record { options = o; entries = m; approximate_data_size = size }) ≡ false
    → 0 < length (map to_record m)
unfolding empty
some_records o [] size h = absurd (ground (arith, h))
some_records o (e ∷ m) size h = omega arith

encode_table-some_records :
    (float : LongDouble) (generation : ℕ) (t : MemTable) (o : Options) (bytes : Bytes)
    → encode_table float generation t o ≡ ok bytes
    → 0 < length (records t)
unfolding encode_table records
encode_table-some_records float generation t o bytes e = elim (Bool-cases (empty t)) [
  | inl none_ ↦ absurd (ground (arith, e, none_))
  | inr some_ ↦ some_records t.options t.entries t.approximate_data_size some_
]

-- For a well-formed MemTable whose records are bytes with 64-bit sequence numbers: a file that
-- EncodeTable makes holds the records, cut into blocks that decode to them.
pub encode_table-IsTiled :
    (float : LongDouble) (generation : ℕ) (t : MemTable) (o : Options) (bytes : Bytes)
    → IsValid t
    → All (λ r. IsRecord (wal_record r)) (records t)
    → encode_table float generation t o ≡ ok bytes
    → IsTiled o generation (records t) bytes
encode_table-IsTiled float generation t o bytes valid w e =
    let x = encode_table-IsEncoded float generation t o bytes e in
    let nonempty = encode_table-some_records float generation t o bytes e in
    let (gs, rs, v, all, some_open) =
      add_entries-IsBuilding o (records t) [] [] new_builder x.filling (new_builder-IsBuilding o) w
        (omega (arith, nonempty)) x.fills in
    let v' = finished-IsBuilding o gs rs x.filling x.built v some_open x.finishes in
    let all' : all_records (gs ++ rs ∷ []) ≡ records t = all_records_snoc gs rs ∙ all in
    record {
      groups = gs ++ rs ∷ [];
      index = x.index;
      bloom = x.bloom;
      all = all';
      decodes =
          Decodes-All o [] (gs ++ rs ∷ []) v'.blocks
            (subst (IsRising []) (sym all') (records-IsRising t valid));
      sparse = subst (λ i. encode_index i ≡ ok x.index) v'.index_entries x.indexes;
      layout =
          assemble_lem o generation (records t) (gs ++ rs ∷ []) x.built v' all' x.index x.bloom
            bytes x.assembles;
    }
