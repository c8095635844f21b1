-- ===== src/Bloom/Membership.antt =====
-- No false negatives: every key that was added is reported.
use mini_kv_storage_engine.Base.{
  ℕ, zero, suc, ◌+◌, ◌*◌, ◌/◌, ◌%◌, ◌^◌, ◌≤◌, ◌<◌, ◌≡◌, refl, sym, ◌∙◌, true, List, [], ◌∷◌, bit_or,
  arith, length, All, get_or,
}
use mini_kv_storage_engine.Bytes.{Bytes}
use mini_kv_storage_engine.Config.{max_u64}
use mini_kv_storage_engine.Status.{is_ok}
use mini_kv_storage_engine.Bloom.{
  BloomFilter, probe, set_bit, has_bit, set_bits, has_bits, shape_is_valid, bloom_hashes, add_key,
  may_contain,
}
use mini_kv_storage_engine.Bloom.Bits.{has_bit-set_bit, has_bit-set_bit_mono, length-set}

module _ (first second bit_count : ℕ) where
  length-set_bits :
      (rounds index : ℕ) (bits : Bytes)
      → length (set_bits rounds index first second bit_count bits) ≡ length bits
  unfolding set_bits
  length-set_bits zero index bits = refl
  length-set_bits (suc rounds) index bits =
      length-set_bits rounds (index + 1) _ ∙ length-set bits _ _

  has_bit-set_bits :
      (rounds index bit : ℕ) (bits : Bytes)
      → has_bit bit bits ≡ true
      → has_bit bit (set_bits rounds index first second bit_count bits) ≡ true
  unfolding set_bits
  has_bit-set_bits zero index bit bits h = h
  has_bit-set_bits (suc rounds) index bit bits h =
      has_bit-set_bits rounds (index + 1) bit (set_bit (probe first second index bit_count) bits)
        (has_bit-set_bit_mono bit (probe first second index bit_count) bits h)

  probe_inside :
      (index : ℕ) (bits : Bytes)
      → 0 < bit_count
      → bit_count ≤ 8 * length bits
      → probe first second index bit_count / 8 < length bits
  probe_inside index bits some_bits fits = grind arith

  -- The probes that Add sets, MayContain finds.
  has_bits-set_bits :
      (rounds index : ℕ) (bits : Bytes)
      → 0 < bit_count
      → bit_count ≤ 8 * length bits
      → has_bits rounds index first second bit_count
          (set_bits rounds index first second bit_count bits)
        ≡ true
  unfolding set_bits has_bits
  has_bits-set_bits zero index bits some_bits fits = refl
  has_bits-set_bits (suc rounds) index bits some_bits fits =
      let bit = probe first second index bit_count in
      let here =
        has_bit-set_bits rounds (index + 1) bit (set_bit bit bits)
          (has_bit-set_bit bit bits (probe_inside index bits some_bits fits)) in
      let rest = has_bits-set_bits rounds (index + 1) (set_bit bit bits) some_bits (
        omega (
          arith,
          fits,
          length-set bits (bit / 8) (bit_or (get_or bits (bit / 8) 0) (2 ^ (bit % 8))),
        )) in
      rw (here, rest) refl

  has_bits_mono :
      (bits bits' : Bytes)
      → ((bit : ℕ) → has_bit bit bits ≡ true → has_bit bit bits' ≡ true)
      → (rounds index : ℕ) → has_bits rounds index first second bit_count bits ≡ true
      → has_bits rounds index first second bit_count bits' ≡ true
  unfolding has_bits
  has_bits_mono bits bits' keep zero index h = refl
  has_bits_mono bits bits' keep (suc rounds) index h = ground (
    arith,
    h,
    keep (probe first second index bit_count),
    has_bits_mono bits bits' keep rounds (index + 1),
  )

-- A filter that takes keys: its shape is valid, with bits, and the count has room for more.
pub record IsOpen (f : BloomFilter) (room : ℕ) : Type 0 where
  pub shape : shape_is_valid f ≡ true
  pub some_bits : 0 < f.bit_count
  pub has_room : f.key_count + room ≤ max_u64

-- Add changes the bits and the count, and neither the number of bits nor the shape.
pub add_key-IsOpen :
    (key : Bytes) (f : BloomFilter) (room : ℕ)
    → IsOpen f (suc room)
    → (is_ok (add_key key f).0 ≡ true) × IsOpen (add_key key f).1 room
unfolding add_key shape_is_valid
add_key-IsOpen key f room v =
    let (first, second) = bloom_hashes key in
    ground (
      arith,
      v.shape,
      v.some_bits,
      v.has_room,
      length-set_bits first (bit_or second 1) f.bit_count f.hash_count 0 f.bits,
    )

-- A filter with room has as many bits as its array.
fits : (f : BloomFilter) (room : ℕ) → IsOpen f room → f.bit_count ≤ 8 * length f.bits
unfolding shape_is_valid
fits f room v = ground (arith, v.shape, v.some_bits)

-- MayContain of a filter with keys is the search for its probes.
may_contain_lem :
    (key : Bytes) (f : BloomFilter) (room : ℕ)
    → IsOpen f room
    → 0 < f.key_count
    → may_contain key f
      ≡ has_bits f.hash_count 0
          (bloom_hashes key).0
          (bit_or (bloom_hashes key).1 1)
          f.bit_count
          f.bits
unfolding may_contain
may_contain_lem key f room v some_keys = ground (arith, v.shape, v.some_bits)

-- What a successful Add makes.
add_key_lem :
    (key : Bytes) (f : BloomFilter) (room : ℕ)
    → IsOpen f (suc room)
    → (add_key key f).1 ≡ record f {
      bits =
          set_bits f.hash_count 0
            (bloom_hashes key).0
            (bit_or (bloom_hashes key).1 1)
            f.bit_count
            f.bits;
      key_count = f.key_count + 1;
    }
unfolding add_key
add_key_lem key f room v = ground (arith, v.shape, v.some_bits, v.has_room)

may_contain-some_keys : (key : Bytes) (f : BloomFilter) → may_contain key f ≡ true → 0 < f.key_count
unfolding may_contain
may_contain-some_keys key f h = ground (arith, h)

may_contain-add :
    (key : Bytes) (f : BloomFilter) (room : ℕ)
    → IsOpen f (suc room)
    → may_contain key (add_key key f).1 ≡ true
may_contain-add key f room v =
    let opened = (add_key-IsOpen key f room v).1 in
    let made = add_key_lem key f room v in
    may_contain_lem key (add_key key f).1 room opened (rw made (omega arith))
    ∙ rw made (
        has_bits-set_bits (bloom_hashes key).0 (bit_or (bloom_hashes key).1 1) f.bit_count
          f.hash_count 0 f.bits v.some_bits (fits f (suc room) v))

may_contain-add_mono :
    (key q : Bytes) (f : BloomFilter) (room : ℕ)
    → IsOpen f (suc room)
    → may_contain q f ≡ true
    → may_contain q (add_key key f).1 ≡ true
may_contain-add_mono key q f room v h =
    let opened = (add_key-IsOpen key f room v).1 in
    let made = add_key_lem key f room v in
    let some_keys = may_contain-some_keys q f h in
    may_contain_lem q (add_key key f).1 room opened (rw made (omega arith))
    ∙ rw made (
        has_bits_mono (bloom_hashes q).0 (bit_or (bloom_hashes q).1 1) f.bit_count f.bits
          (set_bits f.hash_count 0 (bloom_hashes key).0 (bit_or (bloom_hashes key).1 1) f.bit_count
            f.bits)
          (λ bit.
            has_bit-set_bits (bloom_hashes key).0 (bit_or (bloom_hashes key).1 1) f.bit_count
              f.hash_count 0 bit f.bits)
          f.hash_count 0 (sym (may_contain_lem q f (suc room) v some_keys) ∙ h))

-- The loop of a table's builder over its keys.
unfoldable pub add_keys : List Bytes → BloomFilter → BloomFilter
add_keys [] f = f
add_keys (key ∷ keys) f = add_keys keys (add_key key f).1

add_keys_mono :
    (q : Bytes) (keys : List Bytes) (f : BloomFilter)
    → IsOpen f (length keys)
    → may_contain q f ≡ true
    → may_contain q (add_keys keys f) ≡ true
unfolding add_keys
add_keys_mono q [] f v h = h
add_keys_mono q (key ∷ keys) f v h =
    add_keys_mono q keys (add_key key f).1 (add_key-IsOpen key f (length keys) v).1
      (may_contain-add_mono key q f (length keys) v h)

-- No false negatives: in a filter with bits and with room for a list of keys, after Add of each
-- of them, MayContain holds of every one.
pub add_keys-All :
    (keys : List Bytes) (f : BloomFilter)
    → IsOpen f (length keys)
    → All (λ key. may_contain key (add_keys keys f) ≡ true) keys
unfolding add_keys
add_keys-All [] f v = tt
add_keys-All (key ∷ keys) f v =
    let opened = (add_key-IsOpen key f (length keys) v).1 in
    (
      add_keys_mono key keys (add_key key f).1 opened (may_contain-add key f (length keys) v),
      add_keys-All keys (add_key key f).1 opened,
    )
