-- ===== src/Coding/Checksum.antt =====
-- CRC32C stays within 32 bits, and goes over a concatenation piece by piece.
use mini_kv_storage_engine.Base.{
  ℕ, zero, suc, ◌/◌, ◌^◌, ◌<◌, ◌≡◌, refl, [], ◌∷◌, ◌++◌, arith, All, bit_and, bit_xor,
}
use mini_kv_storage_engine.Base.Bits.{bit_xor-lt, bit_and-lt}
use mini_kv_storage_engine.Bytes.{Bytes, IsByte}
use mini_kv_storage_engine.Coding.{polynomial, crc_bit, crc_bits, extend_crc32c, crc32c}

crc_bit-lt : (state : ℕ) → state < 2 ^ 32 → crc_bit state < 2 ^ 32
unfolding crc_bit
crc_bit-lt state h =
    bit_xor-lt 32 (state / 2) (bit_and polynomial _) (omega arith)
      (bit_and-lt 32 polynomial _ (omega arith))

crc_bits-lt : (rounds state : ℕ) → state < 2 ^ 32 → crc_bits rounds state < 2 ^ 32
unfolding crc_bits
crc_bits-lt zero state h = h
crc_bits-lt (suc rounds) state h = crc_bits-lt rounds (crc_bit state) (crc_bit-lt state h)

extend_crc32c-lt :
    (input : Bytes) (state : ℕ)
    → state < 2 ^ 32
    → All IsByte input
    → extend_crc32c state input < 2 ^ 32
unfolding extend_crc32c
extend_crc32c-lt [] state h bytes = h
extend_crc32c-lt (b ∷ bs) state h bytes =
    extend_crc32c-lt bs (crc_bits 8 (bit_xor state b))
      (crc_bits-lt 8 (bit_xor state b) (bit_xor-lt 32 state b h (omega arith))) bytes.1

pub crc32c-lt : (input : Bytes) → All IsByte input → crc32c input < 2 ^ 32
unfolding crc32c
crc32c-lt input bytes =
    bit_xor-lt 32 (extend_crc32c 0xFFFFFFFF input) 0xFFFFFFFF
      (extend_crc32c-lt input 0xFFFFFFFF (omega arith) bytes) (omega arith)

pub extend_crc32c-append :
    (a b : Bytes) (state : ℕ)
    → extend_crc32c state (a ++ b) ≡ extend_crc32c (extend_crc32c state a) b
unfolding extend_crc32c
extend_crc32c-append [] b state = refl
extend_crc32c-append (x ∷ a) b state = extend_crc32c-append a b _
