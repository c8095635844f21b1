-- ===== src/Bloom.antt =====
-- src/bloom_filter.cpp: a Bloom filter over a packed array of bits, and its stored form.
-- The floating-point arithmetic of Create is a parameter.
pub mod Bits
pub mod Membership
pub mod RoundTrip
pub mod Created
use Prim.Native.String.{◌++◌ as concat}
use mini_kv_storage_engine.Base.{
  ℕ, zero, suc, ◌+◌, ◌-◌, ◌*◌, ◌/◌, ◌%◌, ◌^◌, String, Bool, true, false, not, ◌&&◌, ◌||◌, Option,
  none, some, List, [], ◌∷◌, ◌++◌, min, max, bit_and, bit_or, bit_xor, length, take, drop, get_or,
  set, replicate, ltb, leb, ◌==◌, if◌then◌else◌,
}
use mini_kv_storage_engine.Bytes.{Bytes, bytes_eq}
use mini_kv_storage_engine.Status.{Status, ok_status, invalid_argument, corruption}
use mini_kv_storage_engine.Result.{Result, ok, err, ◌>>=◌, ◌>>◌, fail_if}
use mini_kv_storage_engine.Config.{max_u32, max_u64, rate_is_invalid}
use mini_kv_storage_engine.LongDouble.{LongDouble}
use mini_kv_storage_engine.Coding.{
  put_fixed16, put_fixed32, put_fixed64, decode_fixed16, decode_fixed32, decode_fixed64, crc32c,
}

abbrev pub bloom_format_version : ℕ
bloom_format_version = 1

abbrev pub bloom_header_size : ℕ
bloom_header_size = 32

abbrev pub maximum_bloom_size : ℕ
maximum_bloom_size = 67108864

abbrev pub maximum_bloom_hash_count : ℕ
maximum_bloom_hash_count = 30

-- 'M', 'K', 'B', 'F'
abbrev pub bloom_magic : Bytes
bloom_magic = 77 ∷ 75 ∷ 66 ∷ 70 ∷ []

abbrev pub bloom_corruption : String → Status
bloom_corruption message = corruption (concat "bloom filter: " message)

pub record BloomFilter : Type 0 where
  pub bit_count : ℕ
  pub key_count : ℕ
  pub hash_count : ℕ
  pub bits : Bytes

-- The default member initialisers.
abbrev pub no_filter : BloomFilter
no_filter = record { bit_count = 0; key_count = 0; hash_count = 0; bits = [] }

-- `hash ^= hash >> 33U;`
abbrev pub mix : ℕ → ℕ
mix hash = bit_xor hash (hash / 2 ^ 33)

unfoldable pub finalize_hash64 : ℕ → ℕ
finalize_hash64 hash =
    mix (mix (mix hash * 0xff51afd7ed558ccd % 2 ^ 64) * 0xc4ceb9fe1a85ec53 % 2 ^ 64)

-- One of the two running hashes over the key.
unfoldable pub hash_bytes : ℕ → Bytes → ℕ
hash_bytes hash [] = hash
hash_bytes hash (byte ∷ rest) = hash_bytes (bit_xor hash byte * 1099511628211 % 2 ^ 64) rest

unfoldable pub bloom_hashes : Bytes → ℕ × ℕ
bloom_hashes key = (
  finalize_hash64 (hash_bytes (bit_xor 14695981039346656037 0x9e3779b97f4a7c15) key),
  finalize_hash64 (hash_bytes (bit_xor 14695981039346656037 0xd6e8feb86659fd93) key),
)

unfoldable pub shape_is_valid : BloomFilter → Bool
shape_is_valid f =
    if f.bit_count == 0
    then (f.hash_count == 0) && (f.key_count == 0) && (length f.bits == 0)
    else (f.bit_count % 8 == 0)
      && (f.bit_count / 8 == length f.bits)
      && ltb 0 f.hash_count
      && leb f.hash_count maximum_bloom_hash_count
      && leb (length f.bits) maximum_bloom_size

-- `(max(bit_count, 64) + 7) & ~7`
abbrev pub whole_bytes : ℕ → ℕ
whole_bytes bits = (max bits 64 + 7) % 2 ^ 64 / 8 * 8

module _ (f : LongDouble) where
  unfoldable pub requested_bits : ℕ → ℕ → ℕ
  requested_bits expected_key_count rate = f.ceil (
      f.divided_by
        (f.times (f.negate (f.from_unsigned expected_key_count)) (f.log (f.from_double rate)))
        (f.times f.natural_log_of_two f.natural_log_of_two))

  abbrev pub maximum_bits : ℕ
  maximum_bits = f.times (f.from_unsigned maximum_bloom_size) (f.from_unsigned 8)

  -- std::max of two values: the second one if the first is less.
  abbrev pub float_max : ℕ → ℕ → ℕ
  float_max x y = if f.is_less x y then y else x

  unfoldable pub rounded_hashes : ℕ → ℕ → ℕ
  rounded_hashes bit_count expected_key_count =
      let ideal_hashes =
        f.times (f.divided_by (f.from_unsigned bit_count) (f.from_unsigned expected_key_count))
          f.natural_log_of_two in
      f.to_unsigned (float_max (f.from_unsigned 1) (f.round ideal_hashes))

  unfoldable pub create : ℕ → ℕ → Result BloomFilter
  create expected_key_count rate =
      if rate_is_invalid rate
      then err
          (invalid_argument "Bloom false-positive rate must be finite and between zero and one")
      else if expected_key_count == 0
      then ok no_filter
      else let requested = requested_bits expected_key_count rate in
        if not (f.is_finite requested) || f.is_less maximum_bits requested
        then err (invalid_argument "Bloom filter exceeds the 64 MiB format limit")
        else let bit_count = whole_bytes (f.to_unsigned requested) in
          ok (record {
            bit_count = bit_count;
            key_count = 0;
            hash_count = min (rounded_hashes bit_count expected_key_count) maximum_bloom_hash_count;
            bits = replicate (bit_count / 8) 0;
          })

-- `(first + index * second) % bit_count_`, and the byte and the mask that it names.
abbrev pub probe : ℕ → ℕ → ℕ → ℕ → ℕ
probe first second index bit_count = (first + index * second % 2 ^ 64) % 2 ^ 64 % bit_count

abbrev pub set_bit : ℕ → Bytes → Bytes
set_bit bit bits = set bits (bit / 8) (bit_or (get_or bits (bit / 8) 0) (2 ^ (bit % 8)))

abbrev pub has_bit : ℕ → Bytes → Bool
has_bit bit bits = not (bit_and (get_or bits (bit / 8) 0) (2 ^ (bit % 8)) == 0)

-- The loop of Add, with the rounds that are left.
unfoldable pub set_bits : ℕ → ℕ → ℕ → ℕ → ℕ → Bytes → Bytes
set_bits zero index first second bit_count bits = bits
set_bits (suc rounds) index first second bit_count bits =
    set_bits rounds (index + 1) first second bit_count
      (set_bit (probe first second index bit_count) bits)

unfoldable pub add_key : Bytes → BloomFilter → Status × BloomFilter
add_key key f =
    if not (shape_is_valid f) || (f.bit_count == 0)
    then (invalid_argument "Bloom filter has no allocated bit array", f)
    else if f.key_count == max_u64
    then (invalid_argument "Bloom filter key count is exhausted", f)
    else let (first, second) = bloom_hashes key in
      (
        ok_status,
        record f {
          bits = set_bits f.hash_count 0 first (bit_or second 1) f.bit_count f.bits;
          key_count = f.key_count + 1;
        },
      )

-- The loop of MayContain, with the rounds that are left.
unfoldable pub has_bits : ℕ → ℕ → ℕ → ℕ → ℕ → Bytes → Bool
has_bits zero index first second bit_count bits = true
has_bits (suc rounds) index first second bit_count bits =
    has_bit (probe first second index bit_count) bits
    && has_bits rounds (index + 1) first second bit_count bits

unfoldable pub may_contain : Bytes → BloomFilter → Bool
may_contain key f =
    if not (shape_is_valid f) || (f.bit_count == 0) || (f.key_count == 0)
    then false
    else let (first, second) = bloom_hashes key in
      has_bits f.hash_count 0 first (bit_or second 1) f.bit_count f.bits

-- The 28 bytes in front of the checksum.
unfoldable pub bloom_header : BloomFilter → ℕ → Bytes
bloom_header f total_size =
    let start = bloom_magic ++ (bloom_format_version ∷ f.hash_count ∷ []) in
    put_fixed64
      (put_fixed64 (put_fixed32 (put_fixed16 start bloom_header_size) total_size) f.bit_count)
      f.key_count

unfoldable pub encode_bloom : BloomFilter → Result Bytes
encode_bloom f = do
  fail_if (not (shape_is_valid f)) (invalid_argument "Bloom filter shape is invalid")
  let total_size = (bloom_header_size + length f.bits) % 2 ^ 64
  fail_if (ltb max_u32 total_size) (invalid_argument "Bloom encoding exceeds format limits")
  let header = bloom_header f total_size
  ok (put_fixed32 header (crc32c (header ++ f.bits)) ++ f.bits)

abbrev pub bloom_field : Option ℕ → Result ℕ
bloom_field none = err (bloom_corruption "header fields or checksum are invalid")
bloom_field (some v) = ok v

-- DecodeBloomFilter behind its header: an empty filter, or one with its bit array.
unfoldable pub decode_bits : ℕ → ℕ → ℕ → Bytes → Result BloomFilter
decode_bits bit_count key_count hash_count payload =
    if bit_count == 0
    then (if not (hash_count == 0) || not (key_count == 0) || not (length payload == 0)
        then err (bloom_corruption "empty filter fields are inconsistent")
        else ok no_filter)
    else if not (bit_count % 8 == 0)
        || not (bit_count / 8 == length payload)
        || (hash_count == 0)
        || ltb maximum_bloom_hash_count hash_count
    then err (bloom_corruption "bit array or hash count is invalid")
    else ok (record {
      bit_count = bit_count;
      key_count = key_count;
      hash_count = hash_count;
      bits = payload;
    })

unfoldable pub decode_bloom : Bytes → Result BloomFilter
decode_bloom encoded = do
  fail_if
      (ltb (length encoded) bloom_header_size
        || ltb (bloom_header_size + maximum_bloom_size) (length encoded))
      (bloom_corruption "encoded size is outside format limits")
  fail_if
      (not (bytes_eq (take 4 encoded) bloom_magic)
        || not (get_or encoded 4 0 == bloom_format_version))
      (bloom_corruption "magic or format version is unsupported")
  let hash_count = get_or encoded 5 0
  header_size ← bloom_field (decode_fixed16 (drop 6 encoded))
  total_size ← bloom_field (decode_fixed32 (drop 8 encoded))
  bit_count ← bloom_field (decode_fixed64 (drop 12 encoded))
  key_count ← bloom_field (decode_fixed64 (drop 20 encoded))
  checksum ← bloom_field (decode_fixed32 (drop 28 encoded))
  fail_if
      (not (header_size == bloom_header_size)
        || not (total_size == length encoded)
        || not (crc32c (take 28 encoded ++ drop bloom_header_size encoded) == checksum))
      (bloom_corruption "header fields or checksum are invalid")
  decode_bits bit_count key_count hash_count (drop bloom_header_size encoded)
