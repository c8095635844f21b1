-- ===== src/Examples/Blocks.antt =====
-- A MemTable of two keys as a table file, and a lookup in a file with one data block.
use mini_kv_storage_engine.Base.{
  ◌≡◌, true, false, none, some, refl, List, [], ◌∷◌, arith, All, replicate,
}
use mini_kv_storage_engine.Bytes.{Bytes, compare_bytes}
use mini_kv_storage_engine.Config.{Options, ValueType, default_options, rate_is_invalid}
use mini_kv_storage_engine.Result.{Result, ok, err}
use mini_kv_storage_engine.OrderedMap.{find, insert}
use mini_kv_storage_engine.MemTable.{
  MemTable, MemTableRecord, new_memtable, add, records, empty, validate, encoded_payload_size,
}
use mini_kv_storage_engine.MemTable.Invariant.{IsValid, add-IsValid, new_memtable-IsValid}
use mini_kv_storage_engine.Coding.{
  put_fixed16, put_loop, put_fixed32, put_fixed64, decode_fixed32, decode_loop, crc32c,
  extend_crc32c, crc_bits, crc_bit,
}
use mini_kv_storage_engine.Wal.{
  encode_wal_record, validate_wal_record, validate_lengths, header_prefix, record_checksum,
  decode_wal_record, decode_wal_record_header,
}
use mini_kv_storage_engine.Bloom.{BloomFilter, shape_is_valid}
use mini_kv_storage_engine.Bloom.Membership.{IsOpen, add_keys, add_keys-All}
use mini_kv_storage_engine.Table.{validate_table_options}
use mini_kv_storage_engine.Table.Build.{
  encode_table, add_entries, add_entry, append_record, finish_block, block_prefix, encode_index,
  index_payload, index_prefix, encode_filter, assemble, table_header, encode_footer, put_all64,
}
use mini_kv_storage_engine.Table.Read.{SstableReader, get_record, decode_block, decode_records}
use mini_kv_storage_engine.Table.{IndexEntry, no_metadata}
use mini_kv_storage_engine.Table.Build.{wal_record}
use mini_kv_storage_engine.Wal.Encoded.{IsRecord}
use mini_kv_storage_engine.Coding.{decode_fixed16, decode_fixed64}
use mini_kv_storage_engine.Table.Blocks.{block_of}
use mini_kv_storage_engine.Table.Search.{find_record}
use mini_kv_storage_engine.Table.Lookup.{IsStored, IsReader, HasAnswer, get_record-HasAnswer}
use mini_kv_storage_engine.Table.Iterated.{IsIterated, new_iterator-IsIterated}
use mini_kv_storage_engine.Examples.Floats.{integers}
use mini_kv_storage_engine.Examples.Files.{memory_file, memory_readable}
use mini_kv_storage_engine.Table.Tiled.{IsTiled, encode_table-IsTiled}

abbrev pub options : Options
options = record default_options { sstable_block_size = 64; bloom_filter_enabled = false }

abbrev pub two_keys : MemTable
two_keys =
    (add 2 ValueType.value (98 ∷ []) []
      (add 1 ValueType.value (97 ∷ []) (7 ∷ []) (new_memtable options)).1).1

two_keys-IsValid : IsValid two_keys
two_keys-IsValid =
    add-IsValid 2 ValueType.value (98 ∷ []) [] _
      (add-IsValid 1 ValueType.value (97 ∷ []) (7 ∷ []) _ (new_memtable-IsValid options))

abbrev pub output : Result Bytes → Bytes
output (ok bytes) = bytes
output (err status) = []

abbrev pub file_bytes : Bytes
file_bytes = output (encode_table integers 1 two_keys options)

encodes : encode_table integers 1 two_keys options ≡ ok file_bytes
unfolding encode_table add find insert compare_bytes records empty validate encoded_payload_size
    validate_table_options rate_is_invalid add_entries add_entry append_record finish_block
    block_prefix encode_index index_payload index_prefix encode_filter assemble table_header
    encode_footer put_all64 encode_wal_record validate_wal_record validate_lengths header_prefix
    record_checksum put_fixed16 put_fixed32 put_fixed64 put_loop crc32c extend_crc32c crc_bits
    crc_bit
encodes = refl

two_keys-IsRecord : All (λ r. IsRecord (wal_record r)) (records two_keys)
unfolding add find insert compare_bytes records validate encoded_payload_size
two_keys-IsRecord = omega arith

encode_table-IsTiled_example : IsTiled options 1 (records two_keys) file_bytes
encode_table-IsTiled_example =
    encode_table-IsTiled integers 1 two_keys options file_bytes two_keys-IsValid two_keys-IsRecord
      encodes

-- The data region of that file on its own.
abbrev pub group : List MemTableRecord
group =
    record { key = 97 ∷ []; sequence = 1; type = ValueType.value; value = 7 ∷ [] }
    ∷ record { key = 98 ∷ []; sequence = 2; type = ValueType.deletion; value = [] }
    ∷ []

abbrev entry : IndexEntry
entry = record { first_key = 97 ∷ []; block_offset = 0; block_size = 87 }

abbrev filtered : Options
filtered = record options { bloom_filter_enabled = true }

-- A filter of 64 bits and 3 hashes, with the keys of the group.
abbrev keys : List Bytes
keys = (97 ∷ []) ∷ (98 ∷ []) ∷ []

abbrev clear : BloomFilter
clear = record { bit_count = 64; key_count = 0; hash_count = 3; bits = replicate 8 0 }

clear-IsOpen : IsOpen clear 2
unfolding shape_is_valid
clear-IsOpen = record { shape = refl; some_bits = omega arith; has_room = omega arith }

abbrev pub reader : SstableReader
reader = record {
  options = filtered;
  metadata = record no_metadata { minimum_key = 97 ∷ []; maximum_key = 98 ∷ [] };
  index = entry ∷ [];
  bloom_filter = some (add_keys keys clear);
}

stored : IsStored filtered (block_of group) (entry, group)
unfolding decode_block decode_records decode_wal_record decode_wal_record_header compare_bytes
    decode_fixed16 decode_fixed32 decode_fixed64 decode_loop crc32c extend_crc32c crc_bits crc_bit
    validate_lengths record_checksum
stored = (omega arith, refl)

reader-IsReader : IsReader reader ((entry, group) ∷ []) (block_of group)
unfolding compare_bytes
reader-IsReader = record {
  index = refl;
  named = ((omega arith, refl), tt);
  rising = (refl, (refl, tt));
  minimum_key = refl;
  maximum_key = refl;
  covered = add_keys-All keys clear clear-IsOpen;
  stored = (stored, tt);
  size_fits = omega arith;
}

get_record-HasAnswer_example :
    HasAnswer
      (λ c. c)
      (block_of group)
      (find_record (98 ∷ []) group)
      (get_record memory_file 100 reader (98 ∷ []) (block_of group))
get_record-HasAnswer_example =
    get_record-HasAnswer memory_file memory_readable 100 reader ((entry, group) ∷ [])
      (block_of group) reader-IsReader (omega arith) (98 ∷ []) (omega arith) (omega arith)

new_iterator-IsIterated_example :
    IsIterated memory_file memory_readable 100 reader
      ((entry, group) ∷ [])
      (block_of group)
      reader-IsReader
      (omega arith)
      (97 ∷ 0 ∷ [])
      none
      3
new_iterator-IsIterated_example =
    new_iterator-IsIterated memory_file memory_readable 100 reader ((entry, group) ∷ [])
      (block_of group) reader-IsReader (omega arith) (97 ∷ 0 ∷ []) none 3 (omega arith)
      (omega arith) (omega arith) refl (omega arith)
