-- ===== src/Coding.antt =====
-- src/coding.cpp: little-endian fixed-width integers and CRC32C.
pub mod Fixed
pub mod Checksum
use mini_kv_storage_engine.Base.{
  ℕ, zero, suc, ◌+◌, ◌-◌, ◌*◌, ◌/◌, ◌%◌, ◌^◌, bit_and, bit_or, bit_xor, Option, none, some, List,
  [], ◌∷◌, ◌++◌, length, get_or, ltb, if◌then◌else◌, ◌≡◌, refl,
}
use mini_kv_storage_engine.Bytes.{Bytes}

unfoldable pub put_fixed16 : Bytes → ℕ → Bytes
put_fixed16 destination value = (destination ++ (value % 256 ∷ [])) ++ (value / 256 % 256 ∷ [])

-- `for (shift = 0; shift < width; shift += 8) destination.push_back((value >> shift) & 0xFF);`
-- with the rounds that are left, and `shift` at each.
unfoldable pub put_loop : ℕ → ℕ → Bytes → ℕ → Bytes
put_loop zero shift destination value = destination
put_loop (suc rounds) shift destination value =
    put_loop rounds (shift + 8) (destination ++ (value / 2 ^ shift % 256 ∷ [])) value

unfoldable pub put_fixed32 : Bytes → ℕ → Bytes
unfolding put_loop
put_fixed32 destination value = put_loop 4 0 destination value

unfoldable pub put_fixed64 : Bytes → ℕ → Bytes
unfolding put_loop
put_fixed64 destination value = put_loop 8 0 destination value

unfoldable pub decode_fixed16 : Bytes → Option ℕ
decode_fixed16 input =
    if ltb (length input) 2
    then none
    else some (bit_or (get_or input 0 0) (get_or input 1 0 * 2 ^ 8))

-- `decoded |= input[shift / 8] << shift;`
unfoldable pub decode_loop : ℕ → ℕ → Bytes → ℕ → ℕ
decode_loop zero shift input decoded = decoded
decode_loop (suc rounds) shift input decoded =
    decode_loop rounds (shift + 8) input (bit_or decoded (get_or input (shift / 8) 0 * 2 ^ shift))

unfoldable pub decode_fixed32 : Bytes → Option ℕ
unfolding decode_loop
decode_fixed32 input = if ltb (length input) 4 then none else some (decode_loop 4 0 input 0)

unfoldable pub decode_fixed64 : Bytes → Option ℕ
unfolding decode_loop
decode_fixed64 input = if ltb (length input) 8 then none else some (decode_loop 8 0 input 0)

abbrev pub polynomial : ℕ
polynomial = 0x82F63B78

-- One of the eight rounds on a byte: `mask = 0U - (state & 1U)`.
unfoldable pub crc_bit : ℕ → ℕ
crc_bit state =
    let mask = (2 ^ 32 - bit_and state 1) % 2 ^ 32 in bit_xor (state / 2) (bit_and polynomial mask)

unfoldable pub crc_bits : ℕ → ℕ → ℕ
crc_bits zero state = state
crc_bits (suc rounds) state = crc_bits rounds (crc_bit state)

unfoldable pub extend_crc32c : ℕ → Bytes → ℕ
extend_crc32c state [] = state
extend_crc32c state (character ∷ rest) = extend_crc32c (crc_bits 8 (bit_xor state character)) rest

-- `~state` on 32 bits.
unfoldable pub crc32c : Bytes → ℕ
crc32c input = bit_xor (extend_crc32c 0xFFFFFFFF input) 0xFFFFFFFF

crc32c_check : crc32c (49 ∷ 50 ∷ 51 ∷ 52 ∷ 53 ∷ 54 ∷ 55 ∷ 56 ∷ 57 ∷ []) ≡ 0xE3069283
unfolding crc32c extend_crc32c crc_bits crc_bit
crc32c_check = refl
