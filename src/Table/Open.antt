-- ===== src/Table/Open.antt =====
-- The parts of SSTableReader::Open of src/table.cpp that decode the header, the footer, the sparse
-- index and the Bloom filter.
use mini_kv_storage_engine.Base.{
  ℕ, zero, suc, ◌+◌, ◌-◌, ◌*◌, ◌/◌, String, Bool, false, not, ◌&&◌, ◌||◌, Option, none, some, List,
  [], ◌∷◌, length, take, drop, get_or, ltb, ◌==◌, if◌then◌else◌,
}
use mini_kv_storage_engine.Bytes.{Bytes, bytes_le, bytes_eq, is_empty}
use mini_kv_storage_engine.Status.{to_string}
use mini_kv_storage_engine.Result.{Result, ok, err, fail_if, ◌>>=◌, ◌>>◌}
use mini_kv_storage_engine.Config.{Options, max_u64}
use mini_kv_storage_engine.Checked.{checked_add}
use mini_kv_storage_engine.Coding.{decode_fixed16, decode_fixed32, decode_fixed64, crc32c}
use mini_kv_storage_engine.Bloom.{BloomFilter, bloom_header_size, maximum_bloom_size, decode_bloom}
use mini_kv_storage_engine.Table.{
  IndexEntry, table_format_version, table_header_size, block_header_size, index_header_size,
  footer_size, maximum_index_size, table_magic, index_magic, footer_magic, index_entry_fixed_size,
  footer_checksum_offset, table_corruption, region_within, checksum_parts, added_or,
}
use mini_kv_storage_engine.Table.Build.{Footer}

abbrev field_or : String → Option ℕ → Result ℕ
field_or message none = err (table_corruption message)
field_or message (some v) = ok v

-- `if (!CheckedAdd(...)) return TableCorruption(...);`
abbrev pub fits_or : String → Option ℕ → Result ℕ
fits_or message none = err (table_corruption message)
fits_or message (some sum) = ok sum

-- What Open keeps of the header.
pub record TableHeader : Type 0 where
  pub generation : ℕ
  pub records : ℕ
  pub blocks : ℕ

unfoldable pub decode_table_header : Bytes → Result TableHeader
decode_table_header header = do
  fail_if
      (not (bytes_eq (take 4 header) table_magic)
        || not (get_or header 4 0 == table_format_version))
      (table_corruption "header magic or format version is unsupported")
  let message : String = "header fields or checksum are invalid"
  size ← field_or message (decode_fixed16 (drop 6 header))
  generation ← field_or message (decode_fixed64 (drop 8 header))
  records ← field_or message (decode_fixed64 (drop 16 header))
  blocks ← field_or message (decode_fixed32 (drop 24 header))
  checksum ← field_or message (decode_fixed32 (drop 28 header))
  fail_if
      (not (size == table_header_size)
        || (generation == 0)
        || (records == 0)
        || (blocks == 0)
        || not (crc32c (take 28 header) == checksum))
      (table_corruption message)
  ok (record { generation = generation; records = records; blocks = blocks })

-- The fields of a footer, with the size and the checksum that it has.
unfoldable pub footer_fields : Bytes → Result (Footer × (ℕ × ℕ))
footer_fields footer = do
  let message : String = "Footer fields cannot be decoded"
  size ← field_or message (decode_fixed16 (drop 6 footer))
  encoded_file_size ← field_or message (decode_fixed64 (drop 8 footer))
  generation ← field_or message (decode_fixed64 (drop 16 footer))
  record_count ← field_or message (decode_fixed64 (drop 24 footer))
  minimum_sequence ← field_or message (decode_fixed64 (drop 32 footer))
  maximum_sequence ← field_or message (decode_fixed64 (drop 40 footer))
  data_offset ← field_or message (decode_fixed64 (drop 48 footer))
  data_size ← field_or message (decode_fixed64 (drop 56 footer))
  index_offset ← field_or message (decode_fixed64 (drop 64 footer))
  index_size ← field_or message (decode_fixed64 (drop 72 footer))
  bloom_offset ← field_or message (decode_fixed64 (drop 80 footer))
  bloom_size ← field_or message (decode_fixed64 (drop 88 footer))
  block_count ← field_or message (decode_fixed32 (drop 96 footer))
  checksum ← field_or message (decode_fixed32 (drop 100 footer))
  let fields : Footer = record {
    file_size = encoded_file_size;
    generation = generation;
    record_count = record_count;
    minimum_sequence = minimum_sequence;
    maximum_sequence = maximum_sequence;
    data_offset = data_offset;
    data_size = data_size;
    index_offset = index_offset;
    index_size = index_size;
    bloom_offset = bloom_offset;
    bloom_size = bloom_size;
    block_count = block_count;
  }
  ok (fields, (size, checksum))

unfoldable pub decode_footer : TableHeader → ℕ → Bytes → Result Footer
decode_footer header file_size footer = do
  fail_if
      (not (bytes_eq (take 4 footer) footer_magic)
        || not (get_or footer 4 0 == table_format_version))
      (table_corruption "Footer magic or format version is unsupported")
  (f, (size, checksum)) ← footer_fields footer
  fail_if
      (not (size == footer_size)
        || not (f.file_size == file_size)
        || not (f.generation == header.generation)
        || not (f.record_count == header.records)
        || not (f.block_count == header.blocks)
        || (f.minimum_sequence == 0)
        || ltb f.maximum_sequence f.minimum_sequence
        || not (crc32c (take footer_checksum_offset footer) == checksum))
      (table_corruption "Footer fields or checksum are invalid")
  ok f

-- The regions follow one another without gaps, from the header to the footer.
unfoldable pub check_regions : Footer → ℕ → Result (Unit {0})
check_regions f file_size = do
  let message : String = "Footer regions overlap, contain gaps, or escape the file"
  fail_if
      (not (f.data_offset == table_header_size)
        || (f.data_size == 0)
        || ltb f.index_size index_header_size
        || ltb maximum_index_size f.index_size
        || (not (f.bloom_size == 0) && ltb f.bloom_size bloom_header_size)
        || ltb (bloom_header_size + maximum_bloom_size) f.bloom_size)
      (table_corruption message)
  expected_index_offset ← fits_or message (checked_add f.data_offset f.data_size)
  fail_if (not (f.index_offset == expected_index_offset)) (table_corruption message)
  expected_bloom_offset ← fits_or message (checked_add f.index_offset f.index_size)
  fail_if (not (f.bloom_offset == expected_bloom_offset)) (table_corruption message)
  footer_offset ← fits_or message (checked_add f.bloom_offset f.bloom_size)
  expected_file_size ← fits_or message (checked_add footer_offset footer_size)
  fail_if (not (expected_file_size == file_size)) (table_corruption message)

unfoldable pub check_index_size : Options → Footer → Result (Unit {0})
check_index_size options f = do
  max_index_entry ←
      added_or (checked_add index_entry_fixed_size options.max_key_size)
        "configured index key limit overflows"
  fail_if
      (ltb ((max_u64 - index_header_size) / max_index_entry) f.block_count
        || ltb (index_header_size + f.block_count * max_index_entry) f.index_size)
      (table_corruption "sparse index size exceeds configured limits")

unfoldable pub check_index : Footer → Bytes → Result (Unit {0})
check_index f encoded = do
  fail_if (not (bytes_eq (take 4 encoded) index_magic))
      (table_corruption "sparse index magic does not match")
  let message : String = "sparse index fields or checksum are invalid"
  size ← field_or message (decode_fixed32 (drop 4 encoded))
  entries ← field_or message (decode_fixed32 (drop 8 encoded))
  payload_size ← field_or message (decode_fixed32 (drop 12 encoded))
  checksum ← field_or message (decode_fixed32 (drop 16 encoded))
  fail_if
      (not (size == f.index_size)
        || not (entries == f.block_count)
        || not (payload_size == f.index_size - index_header_size)
        || not (checksum_parts (take 16 encoded) (drop index_header_size encoded) == checksum))
      (table_corruption message)

-- The filter of a file that has one.
unfoldable pub checked_filter : ℕ → Bytes → Result BloomFilter
checked_filter record_count encoded = elim (decode_bloom encoded) [
  | err status ↦ err (table_corruption (to_string status))
  | ok filter ↦
      if not (filter.key_count == record_count)
      then err (table_corruption "Bloom key count disagrees with the Footer")
      else ok filter
]

-- `!reader->index_.empty() && entry.first_key <= reader->index_.back().first_key`
abbrev pub is_unordered : Bytes → List IndexEntry → Bool
is_unordered key [] = false
is_unordered key (last ∷ earlier) = bytes_le key last.first_key

-- The loop over the index entries, with the entries that are left; those that were read stand in
-- front, the last one first. The result is in the order of the file.
unfoldable pub decode_index :
    Options → Footer → ℕ → ℕ → ℕ → Bytes → List IndexEntry → Result (List IndexEntry)
decode_index options f maximum zero expected remaining entries =
    if not (is_empty remaining) || not (expected == f.index_offset)
    then err (table_corruption "sparse index has trailing bytes or misses data")
    else ok []
decode_index options f maximum (suc left) expected remaining entries = do
  let message : String = "sparse index entry header is incomplete"
  fail_if (ltb (length remaining) index_entry_fixed_size) (table_corruption message)
  key_size ← field_or message (decode_fixed32 remaining)
  block_offset ← field_or message (decode_fixed64 (drop 4 remaining))
  block_size ← field_or message (decode_fixed32 (drop 12 remaining))
  let behind = drop index_entry_fixed_size remaining
  fail_if
      ((key_size == 0)
        || ltb options.max_key_size key_size
        || ltb (length behind) key_size
        || ltb block_size block_header_size
        || ltb maximum block_size
        || not (block_offset == expected)
        || not (region_within block_offset block_size f.data_offset f.data_size))
      (table_corruption "sparse index entry is out of bounds")
  let entry : IndexEntry = record {
    first_key = take key_size behind;
    block_offset = block_offset;
    block_size = block_size;
  }
  fail_if (is_unordered entry.first_key entries)
      (table_corruption "sparse index keys are not strictly ordered")
  expected' ← fits_or "data block offset overflows" (checked_add expected block_size)
  rest ← decode_index options f maximum left expected' (drop key_size behind) (entry ∷ entries)
  ok (entry ∷ rest)
