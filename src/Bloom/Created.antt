-- ===== src/Bloom/Created.antt =====
-- What Create returns, for every outcome of its floating-point sizing.
use mini_kv_storage_engine.Base.{
  ℕ, length-replicate, true, false, ◌*◌, ◌/◌, ◌%◌, ◌≤◌, ◌<◌, ◌≡◌, arith, Bool-cases, inl, inr,
  subst,
}
use mini_kv_storage_engine.Config.{max_u64, rate_is_invalid}
use mini_kv_storage_engine.Result.{ok}
use mini_kv_storage_engine.LongDouble.{LongDouble, IsLongDouble, AtLeastZero}
use mini_kv_storage_engine.Bloom.{
  BloomFilter, maximum_bloom_size, maximum_bloom_hash_count, shape_is_valid, create, whole_bytes,
  requested_bits, maximum_bits, rounded_hashes,
}
use mini_kv_storage_engine.Bloom.Membership.{IsOpen}

module _ (f : LongDouble) (v : IsLongDouble f) (keys : ℕ) where
  requested_bits-AtLeastZero :
      (rate : ℕ) → rate_is_invalid rate ≡ false → AtLeastZero f (requested_bits f keys rate)
  unfolding requested_bits
  requested_bits-AtLeastZero rate valid =
      v.ceil_sign _ (v.divided_by_sign _ (v.times_sign keys _ (v.log_sign rate valid)))

  -- The conversion of the requested bits is in range.
  requested_bits_le :
      (rate : ℕ)
      → rate_is_invalid rate ≡ false
      → f.is_finite (requested_bits f keys rate) ≡ true
      → f.is_less (maximum_bits f) (requested_bits f keys rate) ≡ false
      → f.to_unsigned (requested_bits f keys rate) ≤ maximum_bloom_size * 8
  requested_bits_le rate valid finite below =
      v.to_unsigned_le (requested_bits f keys rate) (maximum_bloom_size * 8) (omega arith) finite
        (requested_bits-AtLeastZero rate valid)
        (subst (λ m. f.is_less m (requested_bits f keys rate) ≡ false)
          (v.exact_product maximum_bloom_size 8 (omega arith)) below)

  -- The clamp leaves one hash at least, and its conversion is in range.
  rounded_hashes_pos :
      (bit_count : ℕ)
      → bit_count ≤ maximum_bloom_size * 8
      → 0 < keys
      → 0 < rounded_hashes f bit_count keys
  unfolding rounded_hashes
  rounded_hashes_pos bit_count few some_keys =
      let ideal =
        f.times (f.divided_by (f.from_unsigned bit_count) (f.from_unsigned keys))
          f.natural_log_of_two in
      elim (Bool-cases (f.is_less (f.from_unsigned 1) (f.round ideal))) [
        | inr clamped ↦ rw (rounded_hashes, clamped, v.to_unsigned_one) (omega arith)
        | inl more ↦
            rw (rounded_hashes, more)
              (v.to_unsigned_pos (f.round ideal) bit_count (omega arith) more (
                v.round_le ideal bit_count (omega arith) (
                  v.times_le _ bit_count (omega arith)
                    (v.divided_by_le bit_count keys (omega arith) some_keys))))
      ]

-- For long double arithmetic of at least a double's precision, whatever Create returns for a
-- positive key count of at most 64 bits has a number of bits that is a multiple of 8 from 64 to 2
-- ^ 29, from 1 to 30 hashes, no keys, and room for the keys that were asked for.
pub create-IsOpen :
    (f : LongDouble)
    → IsLongDouble f
    → (keys rate : ℕ) (filter : BloomFilter) → 0 < keys
    → keys ≤ max_u64
    → create f keys rate ≡ ok filter
    → IsOpen filter keys
      × (64 ≤ filter.bit_count)
      × (filter.bit_count ≤ maximum_bloom_size * 8)
      × (filter.bit_count % 8 ≡ 0)
      × (0 < filter.hash_count)
      × (filter.hash_count ≤ maximum_bloom_hash_count)
      × (filter.key_count ≡ 0)
unfolding create shape_is_valid
create-IsOpen f v keys rate filter some_keys fits e =
    let bits = whole_bytes (f.to_unsigned (requested_bits f keys rate)) in
    ground (
      arith,
      e,
      some_keys,
      fits,
      requested_bits_le f v keys rate,
      rounded_hashes_pos f v keys bits,
      length-replicate {A = ℕ} (bits / 8) 0,
    )
