-- ===== src/Bloom/Bits.antt =====
-- The bit array: a bit that was set is there, and setting another one keeps it.
use mini_kv_storage_engine.Base.{
  ℕ, zero, suc, ◌/◌, ◌%◌, ◌^◌, ◌≤◌, ◌<◌, ◌≡◌, refl, ap, true, List, [], ◌∷◌, bit_or, arith, length,
  get_or, set, ◌==◌, if◌then◌else◌, ltb, Bool-cases, inl, inr,
}
use mini_kv_storage_engine.Base.Bits.{bit_and-bit_or_mono, bit_and-bit_or_self}
use mini_kv_storage_engine.Bytes.{Bytes}
use mini_kv_storage_engine.Bloom.{set_bit, has_bit}

module _ {ℓ} {A : Type ℓ} where
  pub length-set : (xs : List A) (i : ℕ) (v : A) → length (set xs i v) ≡ length xs
  length-set [] i v = refl
  length-set (x ∷ xs) zero v = refl
  length-set (x ∷ xs) (suc i) v = omega (arith, length-set xs i v)

  get_or-set :
      (xs : List A) (i j : ℕ) (v d : A)
      → i < length xs
      → get_or (set xs i v) j d ≡ (if i == j then v else get_or xs j d)
  get_or-set [] i j v d h = absurd (omega arith)
  get_or-set (x ∷ xs) zero zero v d h = refl
  get_or-set (x ∷ xs) zero (suc j) v d h = ground arith
  get_or-set (x ∷ xs) (suc i) zero v d h = ground arith
  get_or-set (x ∷ xs) (suc i) (suc j) v d h = ground (arith, get_or-set xs i j v d (omega arith))

  set_outside : (xs : List A) (i : ℕ) (v : A) → length xs ≤ i → set xs i v ≡ xs
  set_outside [] i v h = refl
  set_outside (x ∷ xs) zero v h = absurd (omega arith)
  set_outside (x ∷ xs) (suc i) v h = ap (λ t. x ∷ t) (set_outside xs i v (omega arith))

-- A mask of one bit.
mask_small : (k : ℕ) → k < 8 → (2 ^ k < 2 ^ 8) × (0 < 2 ^ k)
mask_small zero h = omega arith
mask_small (suc zero) h = omega arith
mask_small (suc (suc zero)) h = omega arith
mask_small (suc (suc (suc zero))) h = omega arith
mask_small (suc (suc (suc (suc zero)))) h = omega arith
mask_small (suc (suc (suc (suc (suc zero))))) h = omega arith
mask_small (suc (suc (suc (suc (suc (suc zero)))))) h = omega arith
mask_small (suc (suc (suc (suc (suc (suc (suc zero))))))) h = omega arith
mask_small (suc (suc (suc (suc (suc (suc (suc (suc k)))))))) h = absurd (omega arith)

pub has_bit-set_bit :
    (bit : ℕ) (bits : Bytes) → bit / 8 < length bits → has_bit bit (set_bit bit bits) ≡ true
has_bit-set_bit bit bits h =
    let mask = mask_small (bit % 8) (omega arith) in
    ground (
      arith,
      get_or-set bits (bit / 8) (bit / 8) (bit_or (get_or bits (bit / 8) 0) (2 ^ (bit % 8))) 0 h,
      bit_and-bit_or_self 8 (get_or bits (bit / 8) 0) (2 ^ (bit % 8)) mask.0,
      mask.1,
    )

pub has_bit-set_bit_mono :
    (bit other : ℕ) (bits : Bytes)
    → has_bit bit bits ≡ true
    → has_bit bit (set_bit other bits) ≡ true
has_bit-set_bit_mono bit other bits h = elim (Bool-cases (ltb (other / 8) (length bits))) [
  | inr outside ↦
      rw
        (set_outside bits (other / 8) (bit_or (get_or bits (other / 8) 0) (2 ^ (other % 8)))
          (ground (arith, outside)))
        h
  | inl inside ↦ ground (
    arith,
    h,
    get_or-set bits (other / 8) (bit / 8) (bit_or (get_or bits (other / 8) 0) (2 ^ (other % 8))) 0
        (ground (arith, inside)),
    bit_and-bit_or_mono 8 (get_or bits (bit / 8) 0) (2 ^ (other % 8)) (2 ^ (bit % 8))
        (mask_small (bit % 8) (omega arith)).0,
  )
]
