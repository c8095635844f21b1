-- ===== src/Wal.antt =====
-- src/wal.cpp and include/minikv/wal.hpp: the record format of the write-ahead log.
pub mod Layout
pub mod Encoded
pub mod RoundTrip
pub mod Writer
use Prim.Native.String.{◌++◌ as concat}
use mini_kv_storage_engine.Base.{
  ℕ, ◌+◌, ◌-◌, ◌%◌, ◌^◌, String, Bool, true, false, not, ◌&&◌, ◌||◌, Option, none, some, List, [],
  ◌∷◌, ◌++◌, length, take, drop, get_or, ltb, ◌==◌, if◌then◌else◌,
}
use mini_kv_storage_engine.Bytes.{Bytes, bytes_eq, is_empty, substr}
use mini_kv_storage_engine.Status.{
  Status, ok_status, incomplete, invalid_argument, corruption, is_ok,
}
use mini_kv_storage_engine.Result.{Result, ok, err, ◌>>=◌, ◌>>◌, fail_if, check}
use mini_kv_storage_engine.Config.{Options, ValueType, max_u32, max_u64}
use mini_kv_storage_engine.Coding.{
  put_fixed16, put_fixed32, put_fixed64, decode_fixed16, decode_fixed32, decode_fixed64, crc32c,
}
use mini_kv_storage_engine.MemTable.{is_deletion}

abbrev pub format_version : ℕ
format_version = 1

abbrev pub header_size : ℕ
header_size = 32

-- 'M', 'K', 'V', 'W'
abbrev pub magic : Bytes
magic = 77 ∷ 75 ∷ 86 ∷ 87 ∷ []

abbrev pub checksum_offset : ℕ
checksum_offset = 28

pub record WalRecord : Type 0 where
  pub type : ValueType
  pub sequence : ℕ
  pub key : Bytes
  pub value : Bytes

-- `static_cast<char>(type)` and back.
abbrev pub type_byte : ValueType → ℕ
type_byte ValueType.value = 1
type_byte ValueType.deletion = 2
type_byte (ValueType.unknown n) = n

abbrev pub byte_type : ℕ → ValueType
byte_type b =
    if b == 1 then ValueType.value else if b == 2 then ValueType.deletion else ValueType.unknown b

abbrev pub is_known_type : ValueType → Bool
is_known_type (ValueType.unknown n) = false
is_known_type _ = true

unfoldable pub validate_lengths : ℕ → ℕ → ValueType → Options → Status
validate_lengths key_size value_size type options =
    if key_size == 0
    then invalid_argument "WAL key must not be empty"
    else if ltb options.max_key_size key_size
    then invalid_argument "WAL key exceeds configured maximum size"
    else if ltb options.max_value_size value_size
    then invalid_argument "WAL value exceeds configured maximum size"
    else if ltb max_u32 key_size || ltb max_u32 value_size
    then invalid_argument "WAL key or value cannot fit in the file format"
    else if is_deletion type && not (value_size == 0)
    then invalid_argument "WAL deletion record must not contain a value"
    else ok_status

unfoldable pub record_checksum : Bytes → Bytes → ℕ
record_checksum header_prefix payload = crc32c (header_prefix ++ payload)

abbrev pub corrupt : String → Status
corrupt message = corruption (concat "WAL record: " message)

unfoldable pub validate_wal_record : WalRecord → Options → Status
validate_wal_record r options =
    if not (is_known_type r.type)
    then invalid_argument "WAL record type is invalid"
    else if r.sequence == 0
    then invalid_argument "WAL sequence number must be greater than zero"
    else validate_lengths (length r.key) (length r.value) r.type options

-- The 28 bytes in front of the checksum.
unfoldable pub header_prefix : WalRecord → ℕ → Bytes
header_prefix r record_size =
    let start = (magic ++ (format_version ∷ [])) ++ (type_byte r.type ∷ []) in
    put_fixed32
      (put_fixed32
        (put_fixed64 (put_fixed32 (put_fixed16 start header_size) record_size) r.sequence)
        (length r.key % 2 ^ 32))
      (length r.value % 2 ^ 32)

unfoldable pub encode_wal_record : WalRecord → Options → Result Bytes
encode_wal_record r options = do
  check (validate_wal_record r options)
  fail_if (ltb (max_u64 - length r.value) (length r.key))
      (invalid_argument "WAL payload size overflows size_t")
  let payload_size = length r.key + length r.value
  fail_if (ltb (max_u32 - header_size) payload_size)
      (invalid_argument "WAL record cannot fit in the file format")
  let record_size = (header_size + payload_size) % 2 ^ 32
  let prefix = header_prefix r record_size
  let payload = r.key ++ r.value
  let checksum = record_checksum prefix payload
  ok (put_fixed32 prefix checksum ++ payload)

-- The fields of a `WalHeaderDecodeResult` with an OK status.
pub record WalHeader : Type 0 where
  pub type : ValueType
  pub record_size : ℕ
  pub sequence : ℕ
  pub key_size : ℕ
  pub value_size : ℕ
  pub checksum : ℕ

-- A `DecodeFixed` that returned false is one error for all fields.
abbrev pub field : Option ℕ → Result ℕ
field none = err (corrupt "fixed header fields cannot be decoded")
field (some v) = ok v

-- `if (!validation.ok()) return {Corrupt(validation.message())};`
abbrev pub recheck : Status → Result (Unit {0})
recheck s = if is_ok s then ok tt else err (corrupt s.message)

unfoldable pub decode_wal_record_header : Bytes → Options → Result WalHeader
decode_wal_record_header input options = do
  fail_if (ltb (length input) header_size) (incomplete "WAL record header is incomplete")
  fail_if (not (bytes_eq (take 4 input) magic)) (corrupt "magic does not match")
  fail_if (not (get_or input 4 0 == format_version)) (corrupt "format version is unsupported")
  let type = byte_type (get_or input 5 0)
  fail_if (not (is_known_type type)) (corrupt "record type is invalid")
  encoded_header_size ← field (decode_fixed16 (drop 6 input))
  record_size ← field (decode_fixed32 (drop 8 input))
  sequence ← field (decode_fixed64 (drop 12 input))
  key_size ← field (decode_fixed32 (drop 20 input))
  value_size ← field (decode_fixed32 (drop 24 input))
  checksum ← field (decode_fixed32 (drop checksum_offset input))
  fail_if (not (encoded_header_size == header_size)) (corrupt "header size is invalid")
  fail_if (sequence == 0) (corrupt "sequence number is zero")
  recheck (validate_lengths key_size value_size type options)
  fail_if (ltb (max_u64 - value_size) key_size) (corrupt "payload size overflows size_t")
  fail_if (not (record_size == header_size + (key_size + value_size)))
      (corrupt "record size does not match key and value lengths")
  ok (record {
    type = type;
    record_size = record_size;
    sequence = sequence;
    key_size = key_size;
    value_size = value_size;
    checksum = checksum;
  })

-- `bytes_consumed` and the record of a `WalDecodeResult` with an OK status.
unfoldable pub decode_wal_record : Bytes → Options → Result (ℕ × WalRecord)
decode_wal_record input options = do
  header ← decode_wal_record_header input options
  fail_if (ltb (length input) header.record_size) (incomplete "WAL record payload is incomplete")
  let payload = substr input header_size (header.record_size - header_size)
  fail_if (not (record_checksum (substr input 0 checksum_offset) payload == header.checksum))
      (corrupt "checksum mismatch")
  ok (
    header.record_size,
    record {
      type = header.type;
      sequence = header.sequence;
      key = substr payload 0 header.key_size;
      value = substr payload header.key_size header.value_size;
    },
  )
