-- ===== src/Coding/Fixed.antt =====
-- The fixed-width integers of src/coding.cpp: what is written, and what a decoder reads back.
use mini_kv_storage_engine.Base.{
  ℕ, zero, suc, ◌+◌, ◌*◌, ◌/◌, ◌%◌, ◌^◌, ◌<◌, ◌≡◌, refl, ap, ◌∙◌, some, [], ◌∷◌, ◌++◌, append_assoc,
  arith, length, length-append, All, drop, drop-append,
}
use mini_kv_storage_engine.Base.Bits.{bit_or_disjoint, zero-bit_or}
use mini_kv_storage_engine.Bytes.{Bytes, IsByte}
use mini_kv_storage_engine.Coding.{
  put_fixed16, put_fixed32, put_fixed64, decode_fixed16, decode_fixed32, decode_fixed64,
}

-- The `n` bytes of a number, lowest first.
abbrev pub le_bytes : ℕ → ℕ → Bytes
le_bytes zero v = []
le_bytes (suc n) v = (v % 256) ∷ le_bytes n (v / 256)

pub length-le_bytes : (n v : ℕ) → length (le_bytes n v) ≡ n
length-le_bytes zero v = refl
length-le_bytes (suc n) v = ap suc (length-le_bytes n (v / 256))

pub le_bytes-IsByte : (n v : ℕ) → All IsByte (le_bytes n v)
le_bytes-IsByte zero v = tt
le_bytes-IsByte (suc n) v = (omega arith, le_bytes-IsByte n (v / 256))

div_one : (v : ℕ) → v / 1 ≡ v
div_one v = omega arith

div_step1 : (v : ℕ) → v / 256 / 256 ≡ v / 65536
div_step1 v = omega arith

div_step2 : (v : ℕ) → v / 65536 / 256 ≡ v / 16777216
div_step2 v = omega arith

div_step3 : (v : ℕ) → v / 16777216 / 256 ≡ v / 4294967296
div_step3 v = omega arith

div_step4 : (v : ℕ) → v / 4294967296 / 256 ≡ v / 1099511627776
div_step4 v = omega arith

div_step5 : (v : ℕ) → v / 1099511627776 / 256 ≡ v / 281474976710656
div_step5 v = omega arith

div_step6 : (v : ℕ) → v / 281474976710656 / 256 ≡ v / 72057594037927936
div_step6 v = omega arith

ruleset div_steps = (div_one, div_step1, div_step2, div_step3, div_step4, div_step5, div_step6)

pub put_fixed16_lem : (d : Bytes) (v : ℕ) → put_fixed16 d v ≡ d ++ le_bytes 2 v
unfolding put_fixed16
put_fixed16_lem d v = append_assoc d _ _

pub put_fixed32_lem : (d : Bytes) (v : ℕ) → put_fixed32 d v ≡ d ++ le_bytes 4 v
unfolding put_fixed32
put_fixed32_lem d v = simp (append_assoc, div_steps)

pub put_fixed64_lem : (d : Bytes) (v : ℕ) → put_fixed64 d v ≡ d ++ le_bytes 8 v
unfolding put_fixed64
put_fixed64_lem d v = simp (append_assoc, div_steps)

decode16_bytes :
    (a b : ℕ) (rest : Bytes) → a < 256 → decode_fixed16 (a ∷ b ∷ rest) ≡ some (a + b * 2 ^ 8)
unfolding decode_fixed16
decode16_bytes a b rest h = ground (arith, bit_or_disjoint 8 a b)

decode32_bytes :
    (a b c d : ℕ) (rest : Bytes)
    → a < 256
    → b < 256
    → c < 256
    → decode_fixed32 (a ∷ b ∷ c ∷ d ∷ rest) ≡ some (a + b * 2 ^ 8 + c * 2 ^ 16 + d * 2 ^ 24)
unfolding decode_fixed32
decode32_bytes a b c d rest ha hb hc = ground (
  arith,
  zero-bit_or (a * 2 ^ 0),
  bit_or_disjoint 8 (a * 2 ^ 0) b,
  bit_or_disjoint 16 (a * 2 ^ 0 + b * 2 ^ 8) c,
  bit_or_disjoint 24 (a * 2 ^ 0 + b * 2 ^ 8 + c * 2 ^ 16) d,
)

decode64_bytes :
    (a b c d e f g h : ℕ) (rest : Bytes)
    → All IsByte (a ∷ b ∷ c ∷ d ∷ e ∷ f ∷ g ∷ [])
    → decode_fixed64 (a ∷ b ∷ c ∷ d ∷ e ∷ f ∷ g ∷ h ∷ rest)
      ≡ some (
          a
          + b * 2 ^ 8
          + c * 2 ^ 16
          + d * 2 ^ 24
          + e * 2 ^ 32
          + f * 2 ^ 40
          + g * 2 ^ 48
          + h * 2 ^ 56)
unfolding decode_fixed64
decode64_bytes a b c d e f g h rest small = ground (
  arith,
  zero-bit_or (a * 2 ^ 0),
  bit_or_disjoint 8 (a * 2 ^ 0) b,
  bit_or_disjoint 16 (a * 2 ^ 0 + b * 2 ^ 8) c,
  bit_or_disjoint 24 (a * 2 ^ 0 + b * 2 ^ 8 + c * 2 ^ 16) d,
  bit_or_disjoint 32 (a * 2 ^ 0 + b * 2 ^ 8 + c * 2 ^ 16 + d * 2 ^ 24) e,
  bit_or_disjoint 40 (a * 2 ^ 0 + b * 2 ^ 8 + c * 2 ^ 16 + d * 2 ^ 24 + e * 2 ^ 32) f,
  bit_or_disjoint 48 (a * 2 ^ 0 + b * 2 ^ 8 + c * 2 ^ 16 + d * 2 ^ 24 + e * 2 ^ 32 + f * 2 ^ 40) g,
  bit_or_disjoint 56
      (a * 2 ^ 0 + b * 2 ^ 8 + c * 2 ^ 16 + d * 2 ^ 24 + e * 2 ^ 32 + f * 2 ^ 40 + g * 2 ^ 48) h,
)

pub decode_fixed16-le_bytes :
    (v : ℕ) (rest : Bytes) → v < 2 ^ 16 → decode_fixed16 (le_bytes 2 v ++ rest) ≡ some v
decode_fixed16-le_bytes v rest h =
    decode16_bytes (v % 256) (v / 256 % 256) rest (omega arith) ∙ ap some (omega arith)

pub decode_fixed32-le_bytes :
    (v : ℕ) (rest : Bytes) → v < 2 ^ 32 → decode_fixed32 (le_bytes 4 v ++ rest) ≡ some v
decode_fixed32-le_bytes v rest h =
    decode32_bytes (v % 256) (v / 256 % 256) (v / 256 / 256 % 256) (v / 256 / 256 / 256 % 256) rest
      (omega arith) (omega arith) (omega arith)
    ∙ ap some (omega arith)

pub decode_fixed64-le_bytes :
    (v : ℕ) (rest : Bytes) → v < 2 ^ 64 → decode_fixed64 (le_bytes 8 v ++ rest) ≡ some v
decode_fixed64-le_bytes v rest h =
    decode64_bytes _ _ _ _ _ _ _ _ rest (omega arith) ∙ ap some (omega arith)

-- At any destination `d` and whatever bytes follow, each DecodeFixed reads back from behind `d`
-- the value that the PutFixed of its width appended, if the value fits that width; and each
-- PutFixed makes the destination longer by exactly its width.
pub decode-put :
    (d rest : Bytes) (a b c : ℕ)
    → a < 2 ^ 16
    → b < 2 ^ 32
    → c < 2 ^ 64
    → (decode_fixed16 (drop (length d) (put_fixed16 d a ++ rest)) ≡ some a)
      × (decode_fixed32 (drop (length d) (put_fixed32 d b ++ rest)) ≡ some b)
      × (decode_fixed64 (drop (length d) (put_fixed64 d c ++ rest)) ≡ some c)
      × (length (put_fixed16 d a) ≡ length d + 2)
      × (length (put_fixed32 d b) ≡ length d + 4)
      × (length (put_fixed64 d c) ≡ length d + 8)
decode-put d rest a b c ha hb hc = (
  rw (put_fixed16_lem, append_assoc, drop-append d _ (length d) refl)
      (decode_fixed16-le_bytes a rest ha),
  rw (put_fixed32_lem, append_assoc, drop-append d _ (length d) refl)
      (decode_fixed32-le_bytes b rest hb),
  rw (put_fixed64_lem, append_assoc, drop-append d _ (length d) refl)
      (decode_fixed64-le_bytes c rest hc),
  rw put_fixed16_lem (length-append d (le_bytes 2 a)),
  rw put_fixed32_lem (length-append d (le_bytes 4 b)),
  rw put_fixed64_lem (length-append d (le_bytes 8 c)),
)
