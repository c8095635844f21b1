-- ===== src/Table/Verify.antt =====
-- SSTableReader::Open of src/table.cpp: it reads every region of the file, and then every data
-- block. The file that the path names and its opening are parameters.
use text.Mathlib.Text.{◌==◌ as str_eq}
use mini_kv_storage_engine.Base.{
  ℕ, ◌+◌, ◌-◌, String, Bool, true, not, ◌&&◌, ◌||◌, Option, none, some, List, [], ◌∷◌, min, max,
  length, drop, ltb, ◌==◌, if◌then◌else◌,
}
use mini_kv_storage_engine.Bytes.{Bytes, bytes_le, bytes_eq, is_empty}
use mini_kv_storage_engine.Status.{Status, invalid_argument, is_ok}
use mini_kv_storage_engine.Result.{Result, ok, err}
use mini_kv_storage_engine.Io.{Io, pure, fail, lift, checked, ◌>>=◌, ◌>>◌}
use mini_kv_storage_engine.Config.{Options, max_u64}
use mini_kv_storage_engine.Checked.{checked_add}
use mini_kv_storage_engine.MemTable.{MemTableRecord}
use mini_kv_storage_engine.Bloom.{BloomFilter, may_contain}
use mini_kv_storage_engine.File.{RecoveryFile}
use mini_kv_storage_engine.Table.{
  SstableMetadata, no_metadata, IndexEntry, table_header_size, index_header_size, footer_size,
  table_corruption, validate_table_options, maximum_block_size, read_region,
}
use mini_kv_storage_engine.Table.Build.{Footer}
use mini_kv_storage_engine.Table.Read.{SstableReader, new_stats, read_block}
use mini_kv_storage_engine.Table.Open.{
  decode_table_header, decode_footer, check_regions, check_index_size, check_index, checked_filter,
  decode_index,
}

-- The filter of a reader, if it has one, reports the key.
abbrev pub passes : Option BloomFilter → Bytes → Bool
passes none key = true
passes (some filter) key = may_contain key filter

abbrev pub last_key : Bytes → List MemTableRecord → Bytes
last_key low [] = low
last_key low (r ∷ rs) = last_key r.key rs

-- The summary of the blocks that were read.
pub record Verified : Type 0 where
  pub records : ℕ
  pub minimum_sequence : ℕ
  pub maximum_sequence : ℕ
  pub minimum_key : Bytes
  pub previous_key : Bytes

abbrev pub nothing_verified : Verified
nothing_verified = record {
  records = 0;
  minimum_sequence = max_u64;
  maximum_sequence = 0;
  minimum_key = [];
  previous_key = [];
}

-- The loop over the records of a block.
unfoldable pub check_records : Option BloomFilter → List MemTableRecord → Verified → Result Verified
check_records filter [] v = ok v
check_records filter (r ∷ rs) v =
    if not (passes filter r.key)
    then err (table_corruption "Bloom filter has a false negative for a stored key")
    else check_records filter rs (record v {
      minimum_sequence = min v.minimum_sequence r.sequence;
      maximum_sequence = max v.maximum_sequence r.sequence;
    })

-- A block that was read, against its index entry and the blocks in front of it.
unfoldable pub verify_block :
    SstableReader → IndexEntry → ℕ → List MemTableRecord → Verified → Result Verified
verify_block reader entry block [] v =
    err (table_corruption "data blocks disagree with the sparse index")
verify_block reader entry block (first ∷ rest) v =
    if not (bytes_eq first.key entry.first_key)
      || (not (is_empty v.previous_key) && bytes_le first.key v.previous_key)
    then err (table_corruption "data blocks disagree with the sparse index")
    else elim (check_records reader.bloom_filter (first ∷ rest) v) [
      | err status ↦ err status
      | ok checked_block ↦ elim (checked_add checked_block.records (length (first ∷ rest))) [
        | none ↦ err (table_corruption "verified record count overflows")
        | some records ↦ ok (record checked_block {
          records = records;
          minimum_key = if block == 0 then first.key else checked_block.minimum_key;
          previous_key = last_key [] (first ∷ rest);
        })
      ]
    ]

-- The reader whose blocks all passed, with the range of its keys.
unfoldable pub verified_reader : Footer → SstableReader → Verified → Result SstableReader
verified_reader f reader v =
    if not (v.records == f.record_count)
      || not (v.minimum_sequence == f.minimum_sequence)
      || not (v.maximum_sequence == f.maximum_sequence)
    then err (table_corruption "Footer record or sequence summary is incorrect")
    else ok (record reader {
      metadata = record (reader.metadata) {
        minimum_key = v.minimum_key;
        maximum_key = v.previous_key;
      };
    })

abbrev pub filter_metadata : Option BloomFilter → SstableMetadata → SstableMetadata
filter_metadata none metadata = metadata
filter_metadata (some filter) metadata = record metadata {
  bloom_bit_count = filter.bit_count;
  bloom_hash_count = filter.hash_count;
}

abbrev pub footer_metadata : Footer → SstableMetadata
footer_metadata f = record no_metadata {
  generation = f.generation;
  record_count = f.record_count;
  minimum_sequence = f.minimum_sequence;
  maximum_sequence = f.maximum_sequence;
  file_size = f.file_size;
  data_offset = f.data_offset;
  data_size = f.data_size;
  index_offset = f.index_offset;
  index_size = f.index_size;
  bloom_offset = f.bloom_offset;
  bloom_size = f.bloom_size;
  block_count = f.block_count;
}

module _ {S : Type 0} (file : RecoveryFile S) (retries : ℕ) where
  -- The loop over the blocks, with the index entries of those that are left.
  unfoldable pub verify_blocks : SstableReader → List IndexEntry → ℕ → Verified → Io S Verified
  verify_blocks reader [] block v s = some (ok v, s)
  verify_blocks reader (entry ∷ entries) block v s =
      elim (read_block file retries reader block new_stats s) [
        | none ↦ none
        | some (err status, (_, s')) ↦ some (err status, s')
        | some (ok records, (_, s')) ↦ elim (verify_block reader entry block records v) [
          | err status ↦ some (err status, s')
          | ok v' ↦ verify_blocks reader entries (block + 1) v' s'
        ]
      ]

  -- The region of the Bloom filter, if there is one.
  unfoldable pub read_filter : Footer → Io S (Option BloomFilter)
  read_filter f = if f.bloom_size == 0 then pure none else do
    encoded ← read_region file retries f.bloom_offset f.bloom_size
    filter ← lift (checked_filter f.record_count encoded)
    pure (some filter)

  -- Open from the Bloom filter on, with the encoded index.
  unfoldable pub open_blocks : Options → Footer → Bytes → Io S SstableReader
  open_blocks options f encoded_index = do
    filter ← read_filter f
    maximum ← lift (maximum_block_size options)
    index ← lift (
        decode_index options f maximum f.block_count f.data_offset
          (drop index_header_size encoded_index) [])
    let reader : SstableReader = record {
      options = options;
      metadata = filter_metadata filter (footer_metadata f);
      index = index;
      bloom_filter = filter;
    }
    v ← verify_blocks reader index 0 nothing_verified
    lift (verified_reader f reader v)

  -- Open from the footer on.
  unfoldable pub open_regions : Options → Footer → Io S SstableReader
  open_regions options f = do
    lift (check_regions f f.file_size)
    lift (check_index_size options f)
    encoded_index ← read_region file retries f.index_offset f.index_size
    lift (check_index f encoded_index)
    open_blocks options f encoded_index

  abbrev pub file_size_of : Io S ℕ
  file_size_of s =
      let ((status, size), s') = file.size s in
      if is_ok status then some (ok size, s') else some (err status, s')

  -- The regions of a file that is large enough for them.
  unfoldable pub open_file : Options → ℕ → Io S SstableReader
  open_file options file_size =
      if ltb file_size (table_header_size + index_header_size + footer_size)
      then fail (table_corruption "file is too small for required regions")
      else do
        encoded_header ← read_region file retries 0 table_header_size
        header ← lift (decode_table_header encoded_header)
        encoded_footer ← read_region file retries (file_size - footer_size) footer_size
        f ← lift (decode_footer header file_size encoded_footer)
        open_regions options f

  -- `PosixRecoveryFile::OpenReadOnly`, then `Size`, are the first calls on the outside.
  unfoldable pub open_table : (String → S → Status × S) → String → Options → Io S SstableReader
  open_table open_read_only path options =
      if str_eq path "" then fail (invalid_argument "SSTable path must not be empty") else do
        lift (validate_table_options options)
        checked (open_read_only path)
        file_size ← file_size_of
        open_file options file_size
