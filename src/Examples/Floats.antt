-- ===== src/Examples/Floats.antt =====
-- Arithmetic that rounds to integers: twice the magnitude, and one more for a negative value.
use native.Mathlib.Nat.{div-le_self}
use mini_kv_storage_engine.Base.{
  ℕ, ◌+◌, ◌*◌, ◌/◌, ◌%◌, ◌≡◌, refl, ◌∙◌, Bool, Bool-cases, inl, inr, true, false, ap, ltb, ◌==◌,
  if◌then◌else◌, arith,
}
use mini_kv_storage_engine.LongDouble.{LongDouble, IsLongDouble}

abbrev is_negative : ℕ → Bool
is_negative x = x % 2 == 1

abbrev is_less : ℕ → ℕ → Bool
is_less x y =
    if is_negative x
    then (if is_negative y then ltb (y / 2) (x / 2) else ltb 0 (x / 2 + y / 2))
    else (if is_negative y then false else ltb (x / 2) (y / 2))

-- The logarithm is that of a rate near 0.001, and that of two is one.
abbrev pub integers : LongDouble
integers = record {
  from_unsigned = λ n. 2 * n;
  from_double = λ rate. rate;
  to_unsigned = λ x. x / 2;
  natural_log_of_two = 2;
  negate = λ x. x + 1;
  times = λ x y. 2 * ((x / 2) * (y / 2)) + (x + y) % 2;
  divided_by = λ x y. 2 * (x / 2 / (y / 2)) + (x + y) % 2;
  is_less = is_less;
  log = λ x. 15;
  ceil = λ x. x;
  round = λ x. x;
  is_finite = λ x. true;
}

half : (n : ℕ) → 2 * n / 2 ≡ n
half n = omega arith

half_odd : (n : ℕ) → (2 * n + 1) / 2 ≡ n
half_odd n = omega arith

product_sign :
    (m x p : ℕ)
    → p ≡ m * (x / 2)
    → is_less 0 x ≡ false
    → is_less (2 * p + (2 * m + 1 + x) % 2) 0 ≡ false
product_sign m x p e h = elim (Bool-cases (is_negative x)) [
  | inl negative ↦ ground (arith, negative)
  | inr positive ↦
      let none_left : x / 2 ≡ 0 = ground (arith, h, positive) in
      let nothing : p ≡ 0 = e ∙ ap (λ (y : ℕ). m * y) none_left ∙ omega arith in
      rw nothing (ground (arith, positive))
]

pub integers-IsLongDouble : IsLongDouble integers
integers-IsLongDouble = record {
  exact_product = λ m n h. rw (half m, half n) (omega arith);
  log_sign = λ rate h. refl;
  times_sign = λ m x h. rw (half_odd m) (product_sign m x (m * (x / 2)) refl h);
  divided_by_sign = λ x h. ground (arith, h);
  ceil_sign = λ x h. h;
  divided_by_le = λ n k h p. rw (half n, half k) (ground (arith, div-le_self n k));
  times_le = λ x n h p. ground (arith, p);
  round_le = λ x n h p. p;
  to_unsigned_one = refl;
  to_unsigned_le = λ x n h p q r. ground (arith, q, r);
  to_unsigned_pos = λ x n h p q. ground (arith, p, q);
}
