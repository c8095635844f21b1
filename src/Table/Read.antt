-- ===== src/Table/Read.antt =====
-- SSTableReader of src/table.cpp: one data block at a time is read from the file. The file and the
-- fuel of each ReadAllAt are parameters.
use Prim.Native.String.{◌++◌ as concat}
use mini_kv_storage_engine.Base.{
  ℕ, zero, suc, ◌+◌, ◌-◌, ◌/◌, ◌%◌, ◌^◌, Bool, true, false, not, ◌&&◌, ◌||◌, Option, none, some,
  List, [], ◌∷◌, ◌++◌, length, take, drop, get_elem?, ltb, leb, ◌==◌, if◌then◌else◌,
}
use mini_kv_storage_engine.Bytes.{Bytes, bytes_lt, bytes_le, bytes_eq, is_empty}
use mini_kv_storage_engine.Status.{ok_status, invalid_argument, not_found, is_ok, to_string}
use mini_kv_storage_engine.Result.{Result, ok, err, fail_if, ◌>>=◌, ◌>>◌}
use mini_kv_storage_engine.Decimal.{decimal}
use mini_kv_storage_engine.Config.{Options}
use mini_kv_storage_engine.Coding.{decode_fixed32}
use mini_kv_storage_engine.MemTable.{MemTableRecord, LookupResult, no_result}
use mini_kv_storage_engine.Wal.{WalRecord, header_size, decode_wal_record}
use mini_kv_storage_engine.Bloom.{BloomFilter, may_contain}
use mini_kv_storage_engine.File.{RecoveryFile}
use mini_kv_storage_engine.Table.{
  SstableMetadata, IndexEntry, block_header_size, block_magic, checksum_parts, table_corruption,
  read_region,
}

pub record SstableReadStats : Type 0 where
  pub tables_considered : ℕ
  pub range_rejections : ℕ
  pub bloom_filter_checks : ℕ
  pub bloom_filter_rejections : ℕ
  pub bloom_false_positives : ℕ
  pub data_blocks_read : ℕ
  pub bytes_read : ℕ

-- `*stats = {}; stats->tables_considered = 1;`
abbrev pub new_stats : SstableReadStats
new_stats = record {
  tables_considered = 1;
  range_rejections = 0;
  bloom_filter_checks = 0;
  bloom_filter_rejections = 0;
  bloom_false_positives = 0;
  data_blocks_read = 0;
  bytes_read = 0;
}

-- The members of a reader but for its path and its file.
pub record SstableReader : Type 0 where
  pub options : Options
  pub metadata : SstableMetadata
  pub index : List IndexEntry
  pub bloom_filter : Option BloomFilter

abbrev pub block_field : Option ℕ → Result ℕ
block_field none = err (table_corruption "data block fields or checksum are invalid")
block_field (some v) = ok v

abbrev pub from_wal : WalRecord → MemTableRecord
from_wal r = record { key = r.key; sequence = r.sequence; type = r.type; value = r.value }

-- The loop over the records of a block, with the records that are left.
unfoldable pub decode_records :
    Options → ℕ → ℕ → Bytes → Bytes → List MemTableRecord → Result (List MemTableRecord)
decode_records options zero record_number previous_key remaining records =
    if is_empty remaining
    then ok records
    else err (table_corruption "data block has trailing records or bytes")
decode_records options (suc left) record_number previous_key remaining records =
    elim (decode_wal_record remaining options) [
      | err status ↦ err (
          table_corruption (
            concat (concat (concat "data record " (decimal record_number)) " is invalid: ")
              (to_string status)))
      | ok (bytes_consumed, r) ↦
          if not (record_number == 0) && bytes_le r.key previous_key
          then err (table_corruption "data block keys are not strictly ordered")
          else decode_records options left (record_number + 1) r.key (drop bytes_consumed remaining)
              (records ++ from_wal r ∷ [])
    ]

-- ReadBlock behind its read of the region.
unfoldable pub decode_block : Options → ℕ → Bytes → Result (List MemTableRecord)
decode_block options entry_size block = do
  fail_if (not (bytes_eq (take 4 block) block_magic))
      (table_corruption "data block magic does not match")
  block_size ← block_field (decode_fixed32 (drop 4 block))
  record_count ← block_field (decode_fixed32 (drop 8 block))
  payload_size ← block_field (decode_fixed32 (drop 12 block))
  checksum ← block_field (decode_fixed32 (drop 16 block))
  fail_if
      (not (block_size == entry_size)
        || (record_count == 0)
        || not (payload_size == length block - block_header_size)
        || ltb (payload_size / header_size) record_count
        || not (checksum_parts (take 16 block) (drop block_header_size block) == checksum))
      (table_corruption "data block fields or checksum are invalid")
  decode_records options record_count 0 [] (drop block_header_size block) []

-- `++stats->data_blocks_read; stats->bytes_read += size;`
abbrev pub count_block : ℕ → SstableReadStats → SstableReadStats
count_block size stats = record stats {
  data_blocks_read = (stats.data_blocks_read + 1) % 2 ^ 64;
  bytes_read = (stats.bytes_read + size) % 2 ^ 64;
}

-- std::upper_bound on the first keys: how many of them are at most `key`.
unfoldable pub upper_bound : Bytes → List IndexEntry → ℕ
upper_bound key [] = 0
upper_bound key (entry ∷ entries) =
    let rest = upper_bound key entries in if bytes_lt key entry.first_key then 0 else rest + 1

-- std::lower_bound on the keys: how many of them are below `key`.
unfoldable pub lower_bound : Bytes → List MemTableRecord → ℕ
lower_bound key [] = 0
lower_bound key (r ∷ records) =
    let rest = lower_bound key records in if bytes_lt r.key key then rest + 1 else 0

-- The end of Get, with what std::lower_bound found.
abbrev pub candidate : Bytes → Option MemTableRecord → LookupResult
candidate key none = no_result (not_found "key does not exist in candidate block")
candidate key (some r) =
    if bytes_eq r.key key
    then record { status = ok_status; sequence = r.sequence; type = r.type; value = r.value }
    else no_result (not_found "key does not exist in candidate block")

-- `if (bloom_checked) ++stats->bloom_false_positives;` where no record was found
abbrev pub count_false_positive : Bool → LookupResult → SstableReadStats → SstableReadStats
count_false_positive bloom_checked result stats =
    if not (is_ok result.status) && bloom_checked
    then record stats { bloom_false_positives = stats.bloom_false_positives + 1 }
    else stats

-- The records of a block behind those that are there: the limit may end the call.
abbrev pub taken : ℕ → List MemTableRecord → List MemTableRecord → List MemTableRecord
taken limit records block_records = take limit (records ++ block_records)

module _ {S : Type 0} (file : RecoveryFile S) (retries : ℕ) where
  abbrev block_result :
      Options
      → ℕ
      → SstableReadStats
      → Option (Result Bytes × S)
      → Option (Result (List MemTableRecord) × (SstableReadStats × S))
  block_result options size stats none = none
  block_result options size stats (some (err status, s)) =
      some (err status, (count_block size stats, s))
  block_result options size stats (some (ok block, s)) =
      some (decode_block options size block, (count_block size stats, s))

  unfoldable pub read_block :
      SstableReader
      → ℕ
      → SstableReadStats
      → S
      → Option (Result (List MemTableRecord) × (SstableReadStats × S))
  read_block reader block stats s = elim (get_elem? reader.index block) [
    | none ↦ some (err (invalid_argument "SSTable block read arguments are invalid"), (stats, s))
    | some entry ↦
        block_result reader.options entry.block_size stats
          (read_region file retries entry.block_offset entry.block_size s)
  ]

  abbrev pub answer :
      Bytes
      → Bool
      → Option (Result (List MemTableRecord) × (SstableReadStats × S))
      → Option (LookupResult × (SstableReadStats × S))
  answer key bloom_checked none = none
  answer key bloom_checked (some (err status, (stats, s))) = some (no_result status, (stats, s))
  answer key bloom_checked (some (ok records, (stats, s))) =
      let result = candidate key (get_elem? records (lower_bound key records)) in
      some (result, (count_false_positive bloom_checked result stats, s))

  -- Get behind the test of the Bloom filter.
  unfoldable pub search_blocks :
      SstableReader
      → Bytes
      → Bool
      → SstableReadStats
      → S
      → Option (LookupResult × (SstableReadStats × S))
  search_blocks reader key bloom_checked stats s =
      let upper = upper_bound key reader.index in
      if upper == 0
      then some (no_result (not_found "key precedes sparse index"), (stats, s))
      else answer key bloom_checked (read_block reader (upper - 1) stats s)

  unfoldable pub get_record :
      SstableReader → Bytes → S → Option (LookupResult × (SstableReadStats × S))
  get_record reader key s =
      if is_empty key
      then some (no_result (invalid_argument "key must not be empty"), (new_stats, s))
      else if ltb reader.options.max_key_size (length key)
      then some (no_result (invalid_argument "key exceeds configured maximum size"), (new_stats, s))
      else if bytes_lt key reader.metadata.minimum_key || bytes_lt reader.metadata.maximum_key key
      then some (
        no_result (not_found "key is outside table range"),
        (record new_stats { range_rejections = 1 }, s),
      )
      else let no_check = search_blocks reader key false new_stats s in
        let checked_stats : SstableReadStats = record new_stats { bloom_filter_checks = 1 } in
        let checked = search_blocks reader key true checked_stats s in
        elim reader.bloom_filter [
          | none ↦ no_check
          | some filter ↦
              if not reader.options.bloom_filter_enabled
              then no_check
              else if not (may_contain key filter)
              then some (
                no_result (not_found "Bloom filter excludes key"),
                (record checked_stats { bloom_filter_rejections = 1 }, s),
              )
              else checked
        ]

  -- The loop over the blocks, with the number of blocks that are left.
  unfoldable pub read_blocks :
      SstableReader
      → ℕ
      → ℕ
      → ℕ
      → List MemTableRecord
      → S
      → Option (Result (List MemTableRecord) × S)
  read_blocks reader limit zero block records s = some (ok records, s)
  read_blocks reader limit (suc left) block records s = elim (read_block reader block new_stats s) [
    | none ↦ none
    | some (err status, (_, s')) ↦ some (err status, s')
    | some (ok block_records, (_, s')) ↦
        let records' = taken limit records block_records in
        if leb limit (length records')
        then some (ok records', s')
        else read_blocks reader limit left (block + 1) records' s'
  ]

  unfoldable pub read_records : SstableReader → ℕ → S → Option (Result (List MemTableRecord) × S)
  read_records reader limit s =
      if limit == 0 then some (ok [], s) else read_blocks reader limit (length reader.index) 0 [] s
