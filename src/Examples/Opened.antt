-- ===== src/Examples/Opened.antt =====
-- The file of a MemTable of two keys, opened.
use mini_kv_storage_engine.Base.{◌≡◌, refl, Option, none, some, [], arith, String, length}
use mini_kv_storage_engine.Bytes.{Bytes, compare_bytes}
use mini_kv_storage_engine.Status.{Status, ok_status}
use mini_kv_storage_engine.Config.{rate_is_invalid}
use mini_kv_storage_engine.Result.{Result, ok}
use mini_kv_storage_engine.OrderedMap.{find, insert}
use mini_kv_storage_engine.MemTable.{add, records, empty, validate, encoded_payload_size}
use mini_kv_storage_engine.Coding.{
  put_fixed16, put_loop, put_fixed32, put_fixed64, decode_fixed16, decode_fixed32, decode_fixed64,
  decode_loop, crc32c, extend_crc32c, crc_bits, crc_bit,
}
use mini_kv_storage_engine.Wal.{
  encode_wal_record, validate_wal_record, validate_lengths, header_prefix, record_checksum,
  decode_wal_record, decode_wal_record_header,
}
use mini_kv_storage_engine.File.{read_all_at}
use mini_kv_storage_engine.Table.{
  no_metadata, validate_table_options, maximum_block_size, region_within, read_region,
}
use mini_kv_storage_engine.Table.Build.{
  encode_table, add_entries, add_entry, append_record, finish_block, block_prefix, encode_index,
  index_payload, index_prefix, encode_filter, assemble, table_header, encode_footer, put_all64,
}
use mini_kv_storage_engine.Table.Read.{SstableReader, decode_block, decode_records, read_block}
use mini_kv_storage_engine.Table.Open.{
  decode_table_header, decode_footer, footer_fields, check_regions, check_index_size, check_index,
  decode_index,
}
use mini_kv_storage_engine.Table.Verify.{
  check_records, verify_block, verify_blocks, verified_reader, read_filter, open_blocks,
  open_regions, open_file, open_table,
}
use mini_kv_storage_engine.Table.Answered.{IsTableFile, IsMap, open_table-IsMap}
use mini_kv_storage_engine.Examples.Files.{memory_file, memory_readable}
use mini_kv_storage_engine.Examples.Blocks.{options, file_bytes}

abbrev open_nothing : String → Bytes → Status × Bytes
open_nothing path content = (ok_status, content)

abbrev memory_table : IsTableFile memory_file open_nothing
memory_table = record {
  readable = memory_readable;
  sized = λ s. (refl, refl, omega arith);
  opens = λ path s. (refl, omega arith);
}

abbrev reader_of : Option (Result SstableReader × Bytes) → SstableReader
reader_of (some (ok reader, s)) = reader
reader_of _ = record { options = options; metadata = no_metadata; index = []; bloom_filter = none }

abbrev opened : SstableReader
opened = reader_of (open_table memory_file 400 open_nothing "t" options file_bytes)

opens :
    open_table memory_file 400 open_nothing "t" options file_bytes ≡ some (ok opened, file_bytes)
unfolding encode_table add find insert compare_bytes records empty validate encoded_payload_size
    validate_table_options rate_is_invalid add_entries add_entry append_record finish_block
    block_prefix encode_index index_payload index_prefix encode_filter assemble table_header
    encode_footer put_all64 encode_wal_record validate_wal_record validate_lengths header_prefix
    record_checksum put_fixed16 put_fixed32 put_fixed64 put_loop crc32c extend_crc32c crc_bits
    crc_bit open_table open_file open_regions open_blocks read_filter verified_reader verify_blocks
    verify_block check_records decode_index check_index check_index_size check_regions decode_footer
    footer_fields decode_table_header decode_block decode_records read_block read_region read_all_at
    region_within maximum_block_size decode_wal_record decode_wal_record_header decode_fixed16
    decode_fixed32 decode_fixed64 decode_loop
opens = refl

length-file_bytes : length file_bytes ≡ 297
unfolding encode_table add find insert compare_bytes records empty validate encoded_payload_size
    validate_table_options rate_is_invalid add_entries add_entry append_record finish_block
    block_prefix encode_index index_payload index_prefix encode_filter assemble table_header
    encode_footer put_all64 encode_wal_record validate_wal_record validate_lengths header_prefix
    record_checksum put_fixed16 put_fixed32 put_fixed64 put_loop crc32c extend_crc32c crc_bits
    crc_bit
length-file_bytes = refl

open_table-IsMap_example :
    IsMap memory_file memory_readable 400 opened file_bytes × (file_bytes ≡ file_bytes)
open_table-IsMap_example =
    open_table-IsMap memory_file open_nothing memory_table 400 "t" options opened file_bytes
      file_bytes (omega (arith, length-file_bytes)) (omega (arith, length-file_bytes)) opens
