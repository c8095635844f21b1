-- ===== src/Wal/Encoded.antt =====
-- What EncodeWalRecord writes, as the regions of Layout.
use mini_kv_storage_engine.Base.{
  ℕ, ◌+◌, ◌%◌, ◌^◌, ◌≤◌, ◌<◌, ◌≡◌, refl, true, ◌∷◌, ◌++◌, append_assoc, arith, length, All,
  All-append,
}
use mini_kv_storage_engine.Bytes.{Bytes, IsByte}
use mini_kv_storage_engine.Status.{ok_status, is_ok}
use mini_kv_storage_engine.Result.{ok}
use mini_kv_storage_engine.Config.{Options, ValueType, max_u32}
use mini_kv_storage_engine.Coding.Fixed.{
  le_bytes, put_fixed16_lem, put_fixed32_lem, put_fixed64_lem,
}
use mini_kv_storage_engine.Coding.{put_fixed32}
use mini_kv_storage_engine.Coding.Checksum.{crc32c-lt}
use mini_kv_storage_engine.Wal.{
  WalRecord, WalHeader, header_size, header_prefix, type_byte, is_known_type, validate_lengths,
  validate_wal_record, encode_wal_record, record_checksum,
}
use mini_kv_storage_engine.Wal.Layout.{layout, IsHeader}

-- A record that the program can hold: 64-bit sequence number, keys and values of bytes.
pub record IsRecord (r : WalRecord) : Type 0 where
  pub sequence_fits : r.sequence < 2 ^ 64
  pub key_bytes : All IsByte r.key
  pub value_bytes : All IsByte r.value

-- The 28 bytes in front of the checksum.
abbrev pub prefix : WalRecord → Bytes
prefix r =
    77
    ∷ 75
    ∷ 86
    ∷ 87
    ∷ 1
    ∷ type_byte r.type
    ∷ (le_bytes 2 header_size
        ++ (le_bytes 4 (header_size + (length r.key + length r.value))
            ++ (le_bytes 8 r.sequence
                ++ (le_bytes 4 (length r.key) ++ le_bytes 4 (length r.value)))))

abbrev pub header_of : WalRecord → WalHeader
header_of r = record {
  type = r.type;
  record_size = header_size + (length r.key + length r.value);
  sequence = r.sequence;
  key_size = length r.key;
  value_size = length r.value;
  checksum = record_checksum (prefix r) (r.key ++ r.value);
}

abbrev pub encoding : WalRecord → Bytes
encoding r = layout (header_of r) (r.key ++ r.value)

pub validate_lengths-ok :
    (k v : ℕ) (t : ValueType) (o : Options)
    → is_ok (validate_lengths k v t o) ≡ true
    → (validate_lengths k v t o ≡ ok_status)
      × (0 < k)
      × (k ≤ o.max_key_size)
      × (v ≤ o.max_value_size)
      × (k ≤ max_u32)
      × (v ≤ max_u32)
unfolding validate_lengths
validate_lengths-ok k v t o h = ground arith

header_prefix_lem :
    (r : WalRecord)
    → length r.key < 2 ^ 32
    → length r.value < 2 ^ 32
    → header_prefix r (header_size + (length r.key + length r.value)) ≡ prefix r
unfolding header_prefix
header_prefix_lem r p q =
    let k : length r.key % 2 ^ 32 ≡ length r.key = omega arith in
    let v : length r.value % 2 ^ 32 ≡ length r.value = omega arith in
    simp (put_fixed16_lem, put_fixed32_lem, put_fixed64_lem, append_assoc, k, v)

pub type_byte-IsByte : (t : ValueType) → is_known_type t ≡ true → type_byte t < 256
type_byte-IsByte ValueType.value k = omega arith
type_byte-IsByte ValueType.deletion k = omega arith
type_byte-IsByte (ValueType.unknown n) k = cc

prefix-IsByte : (r : WalRecord) → is_known_type r.type ≡ true → All IsByte (prefix r)
prefix-IsByte r k = omega (arith, type_byte-IsByte r.type k)

checksum-lt :
    (r : WalRecord)
    → IsRecord r
    → is_known_type r.type ≡ true
    → record_checksum (prefix r) (r.key ++ r.value) < 2 ^ 32
unfolding record_checksum
checksum-lt r w k = crc32c-lt _ (
    All-append IsByte (prefix r) (r.key ++ r.value) (prefix-IsByte r k)
      (All-append IsByte r.key r.value w.key_bytes w.value_bytes))

-- What the encoder's tests leave of an accepted record.
pub record IsAccepted (o : Options) (r : WalRecord) : Type 0 where
  pub known : is_known_type r.type ≡ true
  pub some_sequence : 0 < r.sequence
  pub lengths : is_ok (validate_lengths (length r.key) (length r.value) r.type o) ≡ true
  pub size_fits : header_size + (length r.key + length r.value) < 2 ^ 32

pub encode-IsAccepted :
    (r : WalRecord) (o : Options) {bytes : Bytes}
    → encode_wal_record r o ≡ ok bytes
    → IsAccepted o r
unfolding encode_wal_record validate_wal_record
encode-IsAccepted r o e = ground arith

pub header_of-IsHeader :
    (r : WalRecord) (o : Options) → IsRecord r → IsAccepted o r → IsHeader o (header_of r)
header_of-IsHeader r o w a = record {
  known = a.known;
  some_sequence = a.some_sequence;
  sequence_fits = w.sequence_fits;
  lengths = (validate_lengths-ok (length r.key) (length r.value) r.type o a.lengths).0;
  sum = refl;
  size_fits = a.size_fits;
  checksum_fits = checksum-lt r w a.known;
}

encoded_bytes :
    (r : WalRecord) (prefix : Bytes)
    → put_fixed32 prefix (record_checksum prefix (r.key ++ r.value)) ++ (r.key ++ r.value)
      ≡ prefix ++ (le_bytes 4 (record_checksum prefix (r.key ++ r.value)) ++ (r.key ++ r.value))
encoded_bytes r prefix = rw put_fixed32_lem (append_assoc prefix _ _)

-- The encoder accepts exactly these records, and writes the regions of Layout.
pub encode_lem :
    (r : WalRecord) (o : Options) → IsAccepted o r → encode_wal_record r o ≡ ok (encoding r)
unfolding encode_wal_record validate_wal_record
encode_lem r o a =
    let size : (header_size + (length r.key + length r.value)) % 2 ^ 32
        ≡ header_size + (length r.key + length r.value) =
      omega (arith, a.size_fits) in
    ground (arith, a, size, header_prefix_lem r, encoded_bytes r (prefix r))
