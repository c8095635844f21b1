-- ===== src/Table.antt =====
-- src/table.cpp and include/minikv/table.hpp: sorted table files. Here are the metadata of a file,
-- the constants of the format and the helpers that its writer and its reader share.
pub mod Build
pub mod Read
pub mod Open
pub mod Verify
pub mod Blocks
pub mod Groups
pub mod Built
pub mod Tiled
pub mod Search
pub mod Reading
pub mod Lookup
pub mod Indexed
pub mod Verified
pub mod Opened
pub mod OpenedFile
pub mod Answered
pub mod Iterator
pub mod Loaded
pub mod Steps
pub mod Walk
pub mod Ranges
pub mod Iterated
use Prim.Native.String.{◌++◌ as concat}
use mini_kv_storage_engine.Base.{
  ℕ, ◌+◌, ◌-◌, ◌<◌, ◌||◌, ◌&&◌, String, Bool, true, false, Option, none, some, [], ◌∷◌, ◌++◌, max,
  ltb, leb, ◌==◌, if◌then◌else◌, not,
}
use mini_kv_storage_engine.Bytes.{Bytes, bytes_eq}
use mini_kv_storage_engine.Status.{Status, ok_status, invalid_argument, corruption, is_incomplete}
use mini_kv_storage_engine.Result.{Result, ok, err, fail_if, ◌>>=◌, ◌>>◌}
use mini_kv_storage_engine.Config.{Options, max_u32, max_u64, rate_is_invalid}
use mini_kv_storage_engine.Checked.{checked_add}
use mini_kv_storage_engine.Coding.{crc32c}
use mini_kv_storage_engine.Io.{Io, fail}
use mini_kv_storage_engine.File.{RecoveryFile, read_all_at}
use mini_kv_storage_engine.Wal.{header_size}

abbrev pub table_format_version : ℕ
table_format_version = 3

abbrev pub table_header_size : ℕ
table_header_size = 32

abbrev pub block_header_size : ℕ
block_header_size = 20

abbrev pub index_header_size : ℕ
index_header_size = 20

abbrev pub footer_size : ℕ
footer_size = 104

abbrev pub maximum_index_size : ℕ
maximum_index_size = 67108864

-- 'M', 'K', 'S', 'T'
abbrev pub table_magic : Bytes
table_magic = 77 ∷ 75 ∷ 83 ∷ 84 ∷ []

-- 'M', 'K', 'D', 'B'
abbrev pub block_magic : Bytes
block_magic = 77 ∷ 75 ∷ 68 ∷ 66 ∷ []

-- 'M', 'K', 'I', 'X'
abbrev pub index_magic : Bytes
index_magic = 77 ∷ 75 ∷ 73 ∷ 88 ∷ []

-- 'M', 'K', 'S', 'F'
abbrev pub footer_magic : Bytes
footer_magic = 77 ∷ 75 ∷ 83 ∷ 70 ∷ []

abbrev pub index_entry_fixed_size : ℕ
index_entry_fixed_size = 16

abbrev pub footer_checksum_offset : ℕ
footer_checksum_offset = 100

pub record SstableMetadata : Type 0 where
  pub generation : ℕ
  pub record_count : ℕ
  pub minimum_sequence : ℕ
  pub maximum_sequence : ℕ
  pub file_size : ℕ
  pub data_offset : ℕ
  pub data_size : ℕ
  pub index_offset : ℕ
  pub index_size : ℕ
  pub bloom_offset : ℕ
  pub bloom_size : ℕ
  pub bloom_bit_count : ℕ
  pub bloom_hash_count : ℕ
  pub block_count : ℕ
  pub minimum_key : Bytes
  pub maximum_key : Bytes

-- The default member initialisers.
abbrev pub no_metadata : SstableMetadata
no_metadata = record {
  generation = 0;
  record_count = 0;
  minimum_sequence = 0;
  maximum_sequence = 0;
  file_size = 0;
  data_offset = 0;
  data_size = 0;
  index_offset = 0;
  index_size = 0;
  bloom_offset = 0;
  bloom_size = 0;
  bloom_bit_count = 0;
  bloom_hash_count = 0;
  block_count = 0;
  minimum_key = [];
  maximum_key = [];
}

-- BuiltIndexEntry, and IndexEntry of the reader.
pub record IndexEntry : Type 0 where
  pub first_key : Bytes
  pub block_offset : ℕ
  pub block_size : ℕ

abbrev pub table_corruption : String → Status
table_corruption message = corruption (concat "sstable: " message)

-- `CheckedAdd(offset, size, &end) && CheckedAdd(region_offset, region_size, &region_end) && ...`
abbrev both_within : ℕ → ℕ → Option ℕ → Option ℕ → Bool
both_within offset region_offset none region_end = false
both_within offset region_offset (some end) none = false
both_within offset region_offset (some end) (some region_end) =
    leb region_offset offset && leb end region_end

unfoldable pub region_within : ℕ → ℕ → ℕ → ℕ → Bool
region_within offset size region_offset region_size =
    both_within offset region_offset (checked_add offset size)
      (checked_add region_offset region_size)

abbrev pub checksum_parts : Bytes → Bytes → ℕ
checksum_parts prefix payload = crc32c (prefix ++ payload)

-- `if (!CheckedAdd(...)) return InvalidArgument(message);`
abbrev pub added_or : Option ℕ → String → Result ℕ
added_or none message = err (invalid_argument message)
added_or (some sum) message = ok sum

unfoldable pub validate_table_options : Options → Result (Unit {0})
validate_table_options options = do
  fail_if
      ((options.max_key_size == 0)
        || ltb max_u32 options.max_key_size
        || ltb max_u32 options.max_value_size
        || ltb options.sstable_block_size (block_header_size + header_size)
        || ltb (max_u32 - block_header_size) options.sstable_block_size
        || rate_is_invalid options.bloom_false_positive_rate)
      (invalid_argument "SSTable size options are invalid")
  with_key ←
      added_or (checked_add header_size options.max_key_size)
        "configured record sizes exceed format limits"
  maximum_record ←
      added_or (checked_add with_key options.max_value_size)
        "configured record sizes exceed format limits"
  fail_if (ltb max_u32 maximum_record)
      (invalid_argument "configured record sizes exceed format limits")

unfoldable pub maximum_block_size : Options → Result ℕ
maximum_block_size options = do
  with_key ←
      added_or (checked_add header_size options.max_key_size) "configured SSTable limits overflow"
  record_limit ←
      added_or (checked_add with_key options.max_value_size) "configured SSTable limits overflow"
  added_or (checked_add block_header_size (max options.sstable_block_size record_limit))
      "configured SSTable limits overflow"

module _ {S : Type 0} (file : RecoveryFile S) where
  abbrev whole_region : Option (Result Bytes × S) → Option (Result Bytes × S)
  whole_region none = none
  whole_region (some (ok bytes, s)) = some (ok bytes, s)
  whole_region (some (err status, s)) =
      if is_incomplete status
      then some (err (table_corruption "region reaches beyond the physical file"), s)
      else some (err status, s)

  -- `retries` is the fuel of ReadAllAt.
  unfoldable pub read_region : ℕ → ℕ → ℕ → Io S Bytes
  read_region retries offset size s =
      if ltb max_u64 size
      then some (err (table_corruption "region size exceeds addressable memory"), s)
      else whole_region (read_all_at file retries offset size [] 0 s)
