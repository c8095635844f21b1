-- ===== src/Table/Build.antt =====
-- EncodeTable and FinishBlock of src/table.cpp: a table file in memory. The entries of the
-- MemTable are cut into data blocks, and the sparse index has the first key of each block.
use mini_kv_storage_engine.Base.{
  ℕ, Bool, ◌+◌, ◌-◌, ◌%◌, ◌^◌, ◌||◌, ◌&&◌, not, List, [], ◌∷◌, ◌++◌, min, max, length, ltb, ◌==◌,
  if◌then◌else◌,
}
use mini_kv_storage_engine.Bytes.{Bytes}
use mini_kv_storage_engine.Status.{invalid_argument}
use mini_kv_storage_engine.Result.{Result, ok, fail_if, check, ◌>>=◌, ◌>>◌}
use mini_kv_storage_engine.Config.{Options, max_u32, max_u64}
use mini_kv_storage_engine.Checked.{checked_add}
use mini_kv_storage_engine.Coding.{put_fixed16, put_fixed32, put_fixed64, crc32c}
use mini_kv_storage_engine.MemTable.{MemTable, MemTableRecord, records, empty}
use mini_kv_storage_engine.Wal.{WalRecord, encode_wal_record}
use mini_kv_storage_engine.LongDouble.{LongDouble}
use mini_kv_storage_engine.Bloom.{BloomFilter, create, add_key, encode_bloom}
use mini_kv_storage_engine.Table.{
  IndexEntry, table_format_version, table_header_size, block_header_size, index_header_size,
  footer_size, maximum_index_size, table_magic, block_magic, index_magic, footer_magic,
  checksum_parts, added_or, validate_table_options,
}

-- The locals of EncodeTable.
pub record Builder : Type 0 where
  pub data_bytes : Bytes
  pub index_entries : List IndexEntry
  pub block_payload : Bytes
  pub first_key : Bytes
  pub block_records : ℕ
  pub minimum_sequence : ℕ
  pub maximum_sequence : ℕ

abbrev pub new_builder : Builder
new_builder = record {
  data_bytes = [];
  index_entries = [];
  block_payload = [];
  first_key = [];
  block_records = 0;
  minimum_sequence = max_u64;
  maximum_sequence = 0;
}

-- The 16 bytes in front of a block's checksum.
unfoldable pub block_prefix : ℕ → ℕ → ℕ → Bytes
block_prefix block_size record_count payload_size =
    put_fixed32 (put_fixed32 (put_fixed32 block_magic (block_size % 2 ^ 32)) record_count)
      (payload_size % 2 ^ 32)

unfoldable pub finish_block : Builder → Result Builder
finish_block b = if b.block_records == 0 then ok b else do
  let block_size = (block_header_size + length b.block_payload) % 2 ^ 64
  fail_if (ltb max_u32 block_size) (invalid_argument "SSTable data block exceeds format limit")
  fail_if (length b.index_entries == max_u32)
      (invalid_argument "SSTable block count exceeds format limit")
  let prefix = block_prefix block_size b.block_records (length b.block_payload)
  ok (record b {
    data_bytes =
        put_fixed32 (b.data_bytes ++ prefix) (checksum_parts prefix b.block_payload)
        ++ b.block_payload;
    index_entries =
        b.index_entries
        ++ (record {
          first_key = b.first_key;
          block_offset = (table_header_size + length b.data_bytes) % 2 ^ 64;
          block_size = block_size;
        })
          ∷ [];
    block_payload = [];
    first_key = [];
    block_records = 0;
  })

-- `block_records != 0 && candidate_size > options.sstable_block_size`
abbrev pub block_is_full : Options → Builder → Bytes → Bool
block_is_full options b encoded =
    not (b.block_records == 0)
    && ltb options.sstable_block_size
        ((block_header_size + length b.block_payload + length encoded) % 2 ^ 64)

-- The entry's encoding joins the block that is open.
unfoldable pub append_record : MemTableRecord → Bytes → Builder → Result Builder
append_record entry encoded b = do
  fail_if
      ((b.block_records == max_u32)
        || ltb ((max_u32 + 2 ^ 64 - length encoded) % 2 ^ 64) (length b.block_payload))
      (invalid_argument "SSTable data block exceeds format limit")
  ok (record b {
    first_key = if b.block_records == 0 then entry.key else b.first_key;
    block_payload = b.block_payload ++ encoded;
    block_records = b.block_records + 1;
    minimum_sequence = min b.minimum_sequence entry.sequence;
    maximum_sequence = max b.maximum_sequence entry.sequence;
  })

abbrev pub wal_record : MemTableRecord → WalRecord
wal_record entry = record {
  type = entry.type;
  sequence = entry.sequence;
  key = entry.key;
  value = entry.value;
}

-- One round of the loop over the records.
unfoldable pub add_entry : Options → MemTableRecord → Builder → Result Builder
add_entry options entry b = do
  encoded ← encode_wal_record (wal_record entry) options
  b' ← if block_is_full options b encoded then finish_block b else ok b
  append_record entry encoded b'

unfoldable pub add_entries : Options → List MemTableRecord → Builder → Result Builder
add_entries options [] b = ok b
add_entries options (entry ∷ entries) b = do
  b' ← add_entry options entry b
  add_entries options entries b'

-- The loop over the index entries.
unfoldable pub index_payload : List IndexEntry → Bytes → Result Bytes
index_payload [] bytes = ok bytes
index_payload (entry ∷ entries) bytes = do
  fail_if (ltb max_u32 (length entry.first_key))
      (invalid_argument "SSTable index key exceeds format limit")
  index_payload entries (
      put_fixed32
        (put_fixed64 (put_fixed32 bytes (length entry.first_key % 2 ^ 32)) entry.block_offset)
        entry.block_size
      ++ entry.first_key)

-- The 16 bytes in front of the checksum of the index.
unfoldable pub index_prefix : ℕ → ℕ → ℕ → Bytes
index_prefix index_size entry_count payload_size =
    put_fixed32 (put_fixed32 (put_fixed32 index_magic (index_size % 2 ^ 32)) (entry_count % 2 ^ 32))
      (payload_size % 2 ^ 32)

unfoldable pub encode_index : List IndexEntry → Result Bytes
encode_index entries = do
  payload ← index_payload entries []
  let index_size = (index_header_size + length payload) % 2 ^ 64
  fail_if (ltb max_u32 index_size || ltb maximum_index_size index_size)
      (invalid_argument "SSTable sparse index exceeds format limit")
  let prefix = index_prefix index_size (length entries) (length payload)
  ok (put_fixed32 prefix (checksum_parts prefix payload) ++ payload)

unfoldable pub filter_keys : List MemTableRecord → BloomFilter → Result BloomFilter
filter_keys [] filter = ok filter
filter_keys (entry ∷ entries) filter =
    let (status, filter') = add_key entry.key filter in check status >> filter_keys entries filter'

-- Empty bytes where the filter is switched off.
unfoldable pub encode_filter : LongDouble → Options → List MemTableRecord → Result Bytes
encode_filter float options entries = if not options.bloom_filter_enabled then ok [] else do
  filter ← create float (length entries) options.bloom_false_positive_rate
  full ← filter_keys entries filter
  encode_bloom full

unfoldable pub table_header : ℕ → ℕ → ℕ → Bytes
table_header generation record_count block_count =
    let start = table_magic ++ (table_format_version ∷ 0 ∷ []) in
    let header =
      put_fixed32
        (put_fixed64 (put_fixed64 (put_fixed16 start table_header_size) generation) record_count)
        (block_count % 2 ^ 32) in
    put_fixed32 header (crc32c header)

-- The fields of a footer, in the order in which they are written.
pub record Footer : Type 0 where
  pub file_size : ℕ
  pub generation : ℕ
  pub record_count : ℕ
  pub minimum_sequence : ℕ
  pub maximum_sequence : ℕ
  pub data_offset : ℕ
  pub data_size : ℕ
  pub index_offset : ℕ
  pub index_size : ℕ
  pub bloom_offset : ℕ
  pub bloom_size : ℕ
  pub block_count : ℕ

unfoldable pub put_all64 : List ℕ → Bytes → Bytes
put_all64 [] bytes = bytes
put_all64 (field ∷ fields) bytes = put_all64 fields (put_fixed64 bytes field)

unfoldable pub encode_footer : Footer → Bytes
encode_footer f =
    let start = footer_magic ++ (table_format_version ∷ 0 ∷ []) in
    let fields =
      f.file_size ∷ f.generation ∷ f.record_count ∷ f.minimum_sequence ∷ f.maximum_sequence
      ∷ f.data_offset ∷ f.data_size ∷ f.index_offset ∷ f.index_size ∷ f.bloom_offset ∷ f.bloom_size
      ∷ [] in
    let footer =
      put_fixed32 (put_all64 fields (put_fixed16 start footer_size)) (f.block_count % 2 ^ 32) in
    put_fixed32 footer (crc32c footer)

-- The regions of the file one behind the other, with the offsets that the footer records.
unfoldable pub assemble : ℕ → ℕ → Builder → Bytes → Bytes → Result Bytes
assemble generation record_count b index bloom = do
  index_offset ←
      added_or (checked_add table_header_size (length b.data_bytes))
        "SSTable physical size overflows"
  bloom_offset ←
      added_or (checked_add index_offset (length index)) "SSTable physical size overflows"
  footer_offset ←
      added_or (checked_add bloom_offset (length bloom)) "SSTable physical size overflows"
  file_size ← added_or (checked_add footer_offset footer_size) "SSTable physical size overflows"
  fail_if (ltb max_u64 file_size) (invalid_argument "SSTable physical size overflows")
  ok (
      table_header generation record_count (length b.index_entries)
      ++ (b.data_bytes
          ++ (index
              ++ (bloom
                  ++ encode_footer (record {
                    file_size = file_size;
                    generation = generation;
                    record_count = record_count;
                    minimum_sequence = b.minimum_sequence;
                    maximum_sequence = b.maximum_sequence;
                    data_offset = table_header_size;
                    data_size = length b.data_bytes;
                    index_offset = index_offset;
                    index_size = length index;
                    bloom_offset = bloom_offset;
                    bloom_size = length bloom;
                    block_count = length b.index_entries;
                  })))))

unfoldable pub encode_table : LongDouble → ℕ → MemTable → Options → Result Bytes
encode_table float generation memtable options = do
  fail_if ((generation == 0) || empty memtable)
      (invalid_argument "SSTable requires a non-zero generation and at least one record")
  validate_table_options options
  let entries = records memtable
  filling ← add_entries options entries new_builder
  built ← finish_block filling
  index ← encode_index built.index_entries
  bloom ← encode_filter float options entries
  assemble generation (length entries) built index bloom
