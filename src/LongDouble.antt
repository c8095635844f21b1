-- ===== src/LongDouble.antt =====
-- The long double arithmetic that src/bloom_filter.cpp calls. It is the compiler's and the C++
-- library's, so it is a parameter; a value stands as a number, its bit pattern.
use mini_kv_storage_engine.Base.{ℕ, ◌*◌, ◌≤◌, ◌<◌, ◌^◌, ◌≡◌, Bool, true, false}
use mini_kv_storage_engine.Config.{rate_is_invalid}

pub record LongDouble : Type 0 where
  -- The conversions: from std::uint64_t, from a bit pattern of a double, and to std::uint64_t.
  pub from_unsigned : ℕ → ℕ
  pub from_double : ℕ → ℕ
  pub to_unsigned : ℕ → ℕ
  -- The literal 0.693147180559945309417L.
  pub natural_log_of_two : ℕ
  -- The operators `-`, `*`, `/` and `<`.
  pub negate : ℕ → ℕ
  pub times : ℕ → ℕ → ℕ
  pub divided_by : ℕ → ℕ → ℕ
  pub is_less : ℕ → ℕ → Bool
  -- Of <cmath>.
  pub log : ℕ → ℕ
  pub ceil : ℕ → ℕ
  pub round : ℕ → ℕ
  pub is_finite : ℕ → Bool

module _ (f : LongDouble) where
  -- Not above an integer, not below zero; both hold of a NaN.
  abbrev pub AtMost : ℕ → ℕ → Type 0
  AtMost x n = f.is_less (f.from_unsigned n) x ≡ false

  abbrev pub AtLeastZero : ℕ → Type 0
  AtLeastZero x = f.is_less x (f.from_unsigned 0) ≡ false

-- What holds of a format that has at least the 53 bits of precision of a double, with operators
-- and functions that are monotone: integers of at most 2 ^ 53 are exact.
pub record IsLongDouble (f : LongDouble) : Type 0 where
  pub exact_product :
      (m n : ℕ)
      → m * n ≤ 2 ^ 53
      → f.times (f.from_unsigned m) (f.from_unsigned n) ≡ f.from_unsigned (m * n)
  -- The logarithm of a rate between zero and one is not positive.
  pub log_sign : (rate : ℕ) → rate_is_invalid rate ≡ false → AtMost f (f.log (f.from_double rate)) 0
  pub times_sign :
      (m x : ℕ) → AtMost f x 0 → AtLeastZero f (f.times (f.negate (f.from_unsigned m)) x)
  pub divided_by_sign :
      (x : ℕ)
      → AtLeastZero f x
      → AtLeastZero f (f.divided_by x (f.times f.natural_log_of_two f.natural_log_of_two))
  pub ceil_sign : (x : ℕ) → AtLeastZero f x → AtLeastZero f (f.ceil x)
  pub divided_by_le :
      (n k : ℕ)
      → n ≤ 2 ^ 53
      → 0 < k
      → AtMost f (f.divided_by (f.from_unsigned n) (f.from_unsigned k)) n
  pub times_le : (x n : ℕ) → n ≤ 2 ^ 53 → AtMost f x n → AtMost f (f.times x f.natural_log_of_two) n
  pub round_le : (x n : ℕ) → n ≤ 2 ^ 53 → AtMost f x n → AtMost f (f.round x) n
  -- The conversion to an integer cuts the fraction off.
  pub to_unsigned_one : f.to_unsigned (f.from_unsigned 1) ≡ 1
  pub to_unsigned_le :
      (x n : ℕ)
      → n ≤ 2 ^ 53
      → f.is_finite x ≡ true
      → AtLeastZero f x
      → AtMost f x n
      → f.to_unsigned x ≤ n
  pub to_unsigned_pos :
      (x n : ℕ)
      → n ≤ 2 ^ 53
      → f.is_less (f.from_unsigned 1) x ≡ true
      → AtMost f x n
      → 0 < f.to_unsigned x
