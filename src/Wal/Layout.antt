-- ===== src/Wal/Layout.antt =====
-- The bytes of an encoded record, region by region, and what the decoder finds in each.
use mini_kv_storage_engine.Base.{◌+◌, ◌^◌, ◌<◌, ◌≡◌, refl, true, some, ◌∷◌, ◌++◌, arith, drop}
use mini_kv_storage_engine.Bytes.{Bytes}
use mini_kv_storage_engine.Bytes.Order.{compare_bytes_refl}
use mini_kv_storage_engine.Status.{ok_status}
use mini_kv_storage_engine.Result.{ok}
use mini_kv_storage_engine.Config.{Options, ValueType}
use mini_kv_storage_engine.Coding.{decode_fixed16, decode_fixed32, decode_fixed64}
use mini_kv_storage_engine.Coding.Fixed.{
  le_bytes, decode_fixed16-le_bytes, decode_fixed32-le_bytes, decode_fixed64-le_bytes,
}
use mini_kv_storage_engine.Wal.{
  WalHeader, header_size, type_byte, byte_type, is_known_type, validate_lengths,
  decode_wal_record_header, magic,
}

-- The regions of a header from the record size on, and what follows the header.
abbrev pub fields : WalHeader → Bytes → Bytes
fields h rest =
    le_bytes 2 header_size
    ++ (le_bytes 4 h.record_size
        ++ (le_bytes 8 h.sequence
            ++ (le_bytes 4 h.key_size
                ++ (le_bytes 4 h.value_size ++ (le_bytes 4 h.checksum ++ rest)))))

abbrev pub layout : WalHeader → Bytes → Bytes
layout h rest = 77 ∷ 75 ∷ 86 ∷ 87 ∷ 1 ∷ type_byte h.type ∷ fields h rest

-- What every encoded header satisfies.
pub record IsHeader (o : Options) (h : WalHeader) : Type 0 where
  pub known : is_known_type h.type ≡ true
  pub some_sequence : 0 < h.sequence
  pub sequence_fits : h.sequence < 2 ^ 64
  pub lengths : validate_lengths h.key_size h.value_size h.type o ≡ ok_status
  pub sum : h.record_size ≡ header_size + (h.key_size + h.value_size)
  pub size_fits : h.record_size < 2 ^ 32
  pub checksum_fits : h.checksum < 2 ^ 32

pub byte_type-type_byte : (t : ValueType) → is_known_type t ≡ true → byte_type (type_byte t) ≡ t
byte_type-type_byte ValueType.value k = refl
byte_type-type_byte ValueType.deletion k = refl
byte_type-type_byte (ValueType.unknown n) k = cc

module _ (o : Options) (h : WalHeader) (rest : Bytes) (v : IsHeader o h) where
  size_field : decode_fixed16 (drop 6 (layout h rest)) ≡ some header_size
  size_field = decode_fixed16-le_bytes header_size _ (omega arith)

  record_size_field : decode_fixed32 (drop 8 (layout h rest)) ≡ some h.record_size
  record_size_field = decode_fixed32-le_bytes h.record_size _ v.size_fits

  sequence_field : decode_fixed64 (drop 12 (layout h rest)) ≡ some h.sequence
  sequence_field = decode_fixed64-le_bytes h.sequence _ v.sequence_fits

  key_size_field : decode_fixed32 (drop 20 (layout h rest)) ≡ some h.key_size
  key_size_field = decode_fixed32-le_bytes h.key_size _ (omega (arith, v))

  value_size_field : decode_fixed32 (drop 24 (layout h rest)) ≡ some h.value_size
  value_size_field = decode_fixed32-le_bytes h.value_size _ (omega (arith, v))

  checksum_field : decode_fixed32 (drop 28 (layout h rest)) ≡ some h.checksum
  checksum_field = decode_fixed32-le_bytes h.checksum _ v.checksum_fits

  pub decode_header-layout : decode_wal_record_header (layout h rest) o ≡ ok h
  unfolding decode_wal_record_header
  decode_header-layout = ground (
    arith,
    size_field,
    record_size_field,
    sequence_field,
    key_size_field,
    value_size_field,
    checksum_field,
    byte_type-type_byte h.type v.known,
    compare_bytes_refl magic,
    v,
  )
