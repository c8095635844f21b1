-- ===== src/Bloom/RoundTrip.antt =====
-- EncodeBloomFilter and DecodeBloomFilter: the regions of an encoded filter, and what the decoder
-- finds in each.
use mini_kv_storage_engine.Base.{
  ◌+◌, ◌%◌, ◌^◌, ◌<◌, ◌≡◌, refl, true, some, [], ◌∷◌, ◌++◌, append_assoc, arith, length, All,
  All-append, drop,
}
use mini_kv_storage_engine.Bytes.{Bytes, IsByte}
use mini_kv_storage_engine.Bytes.Order.{compare_bytes_refl}
use mini_kv_storage_engine.Result.{ok, ◌>>=◌}
use mini_kv_storage_engine.Coding.{decode_fixed16, decode_fixed32, decode_fixed64, crc32c}
use mini_kv_storage_engine.Coding.Checksum.{crc32c-lt}
use mini_kv_storage_engine.Coding.Fixed.{
  le_bytes, put_fixed16_lem, put_fixed32_lem, put_fixed64_lem, decode_fixed16-le_bytes,
  decode_fixed32-le_bytes, decode_fixed64-le_bytes,
}
use mini_kv_storage_engine.Bloom.{
  BloomFilter, bloom_header_size, bloom_magic, maximum_bloom_size, shape_is_valid, bloom_header,
  encode_bloom, decode_bits, decode_bloom,
}

-- A filter that the program can hold: a valid shape, a 64-bit count and an array of bytes.
pub record IsFilter (f : BloomFilter) : Type 0 where
  pub shape : shape_is_valid f ≡ true
  pub count_fits : f.key_count < 2 ^ 64
  pub bytes : All IsByte f.bits

-- The 28 bytes in front of the checksum.
abbrev head : BloomFilter → Bytes
head f =
    77
    ∷ 75
    ∷ 66
    ∷ 70
    ∷ 1
    ∷ f.hash_count
    ∷ (le_bytes 2 bloom_header_size
        ++ (le_bytes 4 (bloom_header_size + length f.bits)
            ++ (le_bytes 8 f.bit_count ++ le_bytes 8 f.key_count)))

abbrev encoding : BloomFilter → Bytes
encoding f =
    77
    ∷ 75
    ∷ 66
    ∷ 70
    ∷ 1
    ∷ f.hash_count
    ∷ (le_bytes 2 bloom_header_size
        ++ (le_bytes 4 (bloom_header_size + length f.bits)
            ++ (le_bytes 8 f.bit_count
                ++ (le_bytes 8 f.key_count ++ (le_bytes 4 (crc32c (head f ++ f.bits)) ++ f.bits)))))

no_bytes : (bits : Bytes) → length bits ≡ 0 → bits ≡ []
no_bytes [] h = refl
no_bytes (byte ∷ bits) h = ground (arith, h)

module _ (f : BloomFilter) (v : IsFilter f) where
  size_fits :
      (bloom_header_size + length f.bits < 2 ^ 32)
      × (length f.bits < maximum_bloom_size + 1)
      × (f.bit_count < 2 ^ 64)
      × (f.hash_count < 256)
  unfolding shape_is_valid
  size_fits = ground (arith, v.shape)

  bloom_header_lem : bloom_header f (bloom_header_size + length f.bits) ≡ head f
  unfolding bloom_header
  bloom_header_lem = simp (put_fixed16_lem, put_fixed32_lem, put_fixed64_lem, append_assoc)

  checksum-lt : crc32c (head f ++ f.bits) < 2 ^ 32
  checksum-lt = crc32c-lt _ (All-append IsByte (head f) f.bits (omega (arith, size_fits)) v.bytes)

  encode_bloom_lem : encode_bloom f ≡ ok (encoding f)
  unfolding encode_bloom
  encode_bloom_lem =
      let size : (bloom_header_size + length f.bits) % 2 ^ 64 ≡ bloom_header_size + length f.bits =
        omega (arith, size_fits) in
      ground (
        arith,
        v.shape,
        size_fits,
        size,
        bloom_header_lem,
        put_fixed32_lem (head f) (crc32c (head f ++ f.bits)),
        append_assoc (head f) (le_bytes 4 (crc32c (head f ++ f.bits))) f.bits,
      )

  size_field : decode_fixed16 (drop 6 (encoding f)) ≡ some bloom_header_size
  size_field = decode_fixed16-le_bytes bloom_header_size _ (omega arith)

  total_field : decode_fixed32 (drop 8 (encoding f)) ≡ some (bloom_header_size + length f.bits)
  total_field = decode_fixed32-le_bytes _ _ size_fits.0

  bit_field : decode_fixed64 (drop 12 (encoding f)) ≡ some f.bit_count
  bit_field = decode_fixed64-le_bytes _ _ size_fits.2

  key_field : decode_fixed64 (drop 20 (encoding f)) ≡ some f.key_count
  key_field = decode_fixed64-le_bytes _ _ v.count_fits

  checksum_field : decode_fixed32 (drop 28 (encoding f)) ≡ some (crc32c (head f ++ f.bits))
  checksum_field = decode_fixed32-le_bytes _ _ checksum-lt

  decode_bits_lem : decode_bits f.bit_count f.key_count f.hash_count f.bits ≡ ok f
  unfolding decode_bits shape_is_valid
  decode_bits_lem = ground (arith, v.shape, no_bytes f.bits)

  decode_encoding : decode_bloom (encoding f) ≡ ok f
  unfolding decode_bloom
  decode_encoding = ground (
    arith,
    size_fits,
    size_field,
    total_field,
    bit_field,
    key_field,
    checksum_field,
    compare_bytes_refl bloom_magic,
    decode_bits_lem,
  )

  -- A filter of valid shape whose count is below 2^64 and whose array holds bytes is encoded, and the decoder gives the same filter back.
  pub decode-encode_bloom : (encode_bloom f >>= decode_bloom) ≡ ok f
  decode-encode_bloom = rw encode_bloom_lem decode_encoding
