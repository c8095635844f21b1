-- ===== src/Manifest/Format.antt =====
-- EncodeManifest and DecodeManifest of src/manifest.cpp: the stored form of a version.
use Prim.Native.String.{◌++◌ as concat}
use mini_kv_storage_engine.Base.{
  ℕ, zero, suc, ◌+◌, ◌-◌, ◌/◌, ◌%◌, ◌^◌, not, ◌||◌, Option, none, some, List, [], ◌∷◌, ◌++◌, length,
  take, drop, get_or, ltb, ◌==◌, if◌then◌else◌,
}
use mini_kv_storage_engine.Bytes.{Bytes, bytes_eq, substr}
use mini_kv_storage_engine.Status.{invalid_argument, version_mismatch}
use mini_kv_storage_engine.Result.{Result, ok, err, ◌>>=◌, ◌>>◌, fail_if, check}
use mini_kv_storage_engine.Config.{Options, max_u32}
use mini_kv_storage_engine.Checked.{checked_add}
use mini_kv_storage_engine.Decimal.{decimal}
use mini_kv_storage_engine.Coding.{
  put_fixed16, put_fixed32, put_fixed64, decode_fixed16, decode_fixed32, decode_fixed64, crc32c,
}
use mini_kv_storage_engine.Table.{SstableMetadata, no_metadata}
use mini_kv_storage_engine.Manifest.{Version, VersionTable, manifest_corruption, validate_version}

abbrev pub manifest_format_version : ℕ
manifest_format_version = 1

abbrev pub storage_format_version : ℕ
storage_format_version = 2

abbrev pub manifest_header_size : ℕ
manifest_header_size = 64

abbrev pub manifest_table_fixed_size : ℕ
manifest_table_fixed_size = 56

abbrev pub maximum_manifest_size : ℕ
maximum_manifest_size = 67108864

abbrev pub manifest_checksum_offset : ℕ
manifest_checksum_offset = 56

-- 'M', 'K', 'M', 'F'
abbrev pub manifest_magic : Bytes
manifest_magic = 77 ∷ 75 ∷ 77 ∷ 70 ∷ []

-- The two CheckedAdd of a table record's size, `none` where one of them fails.
abbrev pub record_size : SstableMetadata → Option ℕ
record_size m = elim (checked_add manifest_table_fixed_size (length m.minimum_key)) [
  | none ↦ none
  | some size ↦ checked_add size (length m.maximum_key)
]

abbrev pub too_large : Result ℕ
too_large = err (invalid_argument "Manifest table record is too large")

-- The size of a table record, unless it or one of its keys is too long for its field.
unfoldable pub checked_size : SstableMetadata → Result ℕ
checked_size m = elim (record_size m) [
  | none ↦ too_large
  | some size ↦
      if ltb max_u32 size
        || ltb max_u32 (length m.minimum_key)
        || ltb max_u32 (length m.maximum_key)
      then too_large
      else ok size
]

unfoldable pub put_table : Bytes → VersionTable → ℕ → Bytes
put_table payload t size =
    let m = t.metadata in
    let counts =
      put_fixed64
        (put_fixed64
          (put_fixed64
            (put_fixed64 (put_fixed64 (put_fixed32 (put_fixed32 payload size) t.level) m.generation)
              m.file_size)
            m.record_count)
          m.minimum_sequence)
        m.maximum_sequence in
    (put_fixed32 (put_fixed32 counts (length m.minimum_key % 2 ^ 32))
        (length m.maximum_key % 2 ^ 32)
      ++ m.minimum_key)
    ++ m.maximum_key

unfoldable pub encode_tables : List VersionTable → Bytes → Result Bytes
encode_tables [] payload = ok payload
encode_tables (t ∷ ts) payload = do
  size ← checked_size t.metadata
  let payload' = put_table payload t size
  fail_if (ltb (maximum_manifest_size - manifest_header_size) (length payload'))
      (invalid_argument "Manifest exceeds the format size limit")
  encode_tables ts payload'

-- The 56 bytes in front of the checksum.
unfoldable pub manifest_header : Version → ℕ → ℕ → Bytes
manifest_header version payload_size file_size =
    let start = manifest_magic ++ (manifest_format_version ∷ storage_format_version ∷ []) in
    let numbers =
      put_fixed64
        (put_fixed64
          (put_fixed64 (put_fixed64 (put_fixed16 start manifest_header_size) file_size) version.id)
          version.next_file_number)
        version.last_sequence in
    put_fixed64
      (put_fixed32 (put_fixed32 numbers (length version.tables % 2 ^ 32)) (payload_size % 2 ^ 32)) 0

unfoldable pub encode_manifest : Version → Options → Result Bytes
encode_manifest version options = do
  check (validate_version version options)
  fail_if (ltb max_u32 (length version.tables)) (invalid_argument "Manifest has too many tables")
  payload ← encode_tables version.tables []
  let file_size = (manifest_header_size + length payload) % 2 ^ 64
  fail_if (ltb maximum_manifest_size file_size || ltb max_u32 (length payload))
      (invalid_argument "Manifest exceeds the format size limit")
  let header = manifest_header version (length payload) file_size
  ok (put_fixed32 (put_fixed32 header (crc32c (header ++ payload))) 0 ++ payload)

abbrev pub header_field : Option ℕ → Result ℕ
header_field none = err (manifest_corruption "header fields are invalid")
header_field (some v) = ok v

abbrev pub table_field : Option ℕ → Result ℕ
table_field none = err (manifest_corruption "table record fields cannot be decoded")
table_field (some v) = ok v

-- One round of the loop over the table records: the table at `offset`, and its record's size.
unfoldable pub decode_table : Options → Bytes → ℕ → Result (VersionTable × ℕ)
decode_table options encoded offset = do
  fail_if (ltb (length encoded - offset) manifest_table_fixed_size)
      (manifest_corruption "table record is truncated")
  let record_bytes = drop offset encoded
  size ← table_field (decode_fixed32 record_bytes)
  level ← table_field (decode_fixed32 (drop 4 record_bytes))
  generation ← table_field (decode_fixed64 (drop 8 record_bytes))
  file_size ← table_field (decode_fixed64 (drop 16 record_bytes))
  record_count ← table_field (decode_fixed64 (drop 24 record_bytes))
  minimum_sequence ← table_field (decode_fixed64 (drop 32 record_bytes))
  maximum_sequence ← table_field (decode_fixed64 (drop 40 record_bytes))
  minimum_key_size ← table_field (decode_fixed32 (drop 48 record_bytes))
  maximum_key_size ← table_field (decode_fixed32 (drop 52 record_bytes))
  fail_if
      (not (size == manifest_table_fixed_size + minimum_key_size + maximum_key_size)
        || ltb (length encoded - offset) size
        || ltb options.max_key_size minimum_key_size
        || ltb options.max_key_size maximum_key_size)
      (manifest_corruption "table record length is invalid")
  let keys = drop manifest_table_fixed_size record_bytes
  let metadata : SstableMetadata = record no_metadata {
    generation = generation;
    record_count = record_count;
    minimum_sequence = minimum_sequence;
    maximum_sequence = maximum_sequence;
    file_size = file_size;
    minimum_key = substr keys 0 minimum_key_size;
    maximum_key = substr keys minimum_key_size maximum_key_size;
  }
  ok (record { level = level; metadata = metadata }, size)

unfoldable pub decode_tables :
    Options → Bytes → ℕ → ℕ → List VersionTable → Result (List VersionTable × ℕ)
decode_tables options encoded zero offset tables = ok (tables, offset)
decode_tables options encoded (suc rounds) offset tables = do
  (table, size) ← decode_table options encoded offset
  decode_tables options encoded rounds (offset + size) (tables ++ (table ∷ []))

unfoldable pub decode_manifest : Bytes → Options → Result Version
decode_manifest encoded options = do
  fail_if (ltb (length encoded) manifest_header_size)
      (manifest_corruption "file is smaller than its header")
  fail_if (not (bytes_eq (take 4 encoded) manifest_magic)) (manifest_corruption "magic is invalid")
  let manifest_version = get_or encoded 4 0
  let storage_version = get_or encoded 5 0
  fail_if
      (not (manifest_version == manifest_format_version)
        || not (storage_version == storage_format_version))
      (version_mismatch (
        concat
          (concat
            (concat (concat "manifest format " (decimal manifest_version)) " / storage format ")
            (decimal storage_version))
          " is unsupported"))
  header_size ← header_field (decode_fixed16 (drop 6 encoded))
  file_size ← header_field (decode_fixed64 (drop 8 encoded))
  version_id ← header_field (decode_fixed64 (drop 16 encoded))
  next_file_number ← header_field (decode_fixed64 (drop 24 encoded))
  last_sequence ← header_field (decode_fixed64 (drop 32 encoded))
  table_count ← header_field (decode_fixed32 (drop 40 encoded))
  payload_size ← header_field (decode_fixed32 (drop 44 encoded))
  reserved64 ← header_field (decode_fixed64 (drop 48 encoded))
  checksum ← header_field (decode_fixed32 (drop 56 encoded))
  reserved32 ← header_field (decode_fixed32 (drop 60 encoded))
  fail_if
      (not (header_size == manifest_header_size)
        || not (file_size == length encoded)
        || not (payload_size == length encoded - manifest_header_size)
        || ltb maximum_manifest_size (length encoded)
        || not (reserved64 == 0)
        || not (reserved32 == 0)
        || ltb (payload_size / manifest_table_fixed_size) table_count)
      (manifest_corruption "header fields are invalid")
  fail_if
      (not (
        crc32c (substr encoded 0 manifest_checksum_offset ++ drop manifest_header_size encoded)
        == checksum))
      (manifest_corruption "checksum mismatch")
  (tables, offset) ← decode_tables options encoded table_count manifest_header_size []
  fail_if (not (offset == length encoded)) (manifest_corruption "unreferenced trailing bytes exist")
  let version : Version = record {
    id = version_id;
    next_file_number = next_file_number;
    last_sequence = last_sequence;
    tables = tables;
  }
  check (validate_version version options)
  ok version
