-- ===== src/Base/Bits.antt =====
-- `|`, `&` and `^` on native numbers as arithmetic. The native operations stand for `bitwise`,
-- a recursion on binary digits, which gives one equation for the lowest digit.
use Prim.Native.Nat.{
  ℕ, zero, suc, ◌+◌, ◌*◌, ◌/◌, ◌%◌, ◌^◌, ◌≤◌, ◌<◌, min, max, differ, bit_and, bit_or, bit_xor,
  digits, bitwise, bit_and-bitwise, bit_or-bitwise, bit_xor-bitwise,
}
use mathlib.Core.Path.{◌≡◌, refl, ap, ◌∙◌}
use native.Mathlib.Nat.{pow-suc}
use native.Mathlib.Omega.{arith}

-- The fuel of the digit recursion does not matter once it is enough.
module _ (end : ℕ → ℕ) (digit : ℕ → ℕ → ℕ) where
  enough : (x k l y : ℕ) → x ≤ k → x ≤ l → digits end digit k x y ≡ digits end digit l x y
  enough zero zero zero y small small' = refl
  enough zero zero (suc l) y small small' = refl
  enough zero (suc k) zero y small small' = refl
  enough zero (suc k) (suc l) y small small' = refl
  enough (suc x) zero l y small small' = absurd (omega arith)
  enough (suc x) (suc k) zero y small small' = absurd (omega arith)
  enough (suc x) (suc k) (suc l) y small small' =
      omega (arith, enough (suc x / 2) k l (y / 2) (omega arith) (omega arith))

  lowest :
      (a b : ℕ)
      → bitwise end digit (suc a) b
        ≡ bitwise end digit (suc a / 2) (b / 2) * 2 + digit (suc a % 2) (b % 2)
  lowest a b = omega (arith, enough (suc a / 2) a (suc a / 2) (b / 2) (omega arith) (omega arith))

pub zero-bit_or : (b : ℕ) → bit_or 0 b ≡ b
zero-bit_or b = bit_or-bitwise 0 b

or_digit : (a b : ℕ) → bit_or a b ≡ bit_or (a / 2) (b / 2) * 2 + max (a % 2) (b % 2)
or_digit zero b = omega (arith, zero-bit_or b, zero-bit_or (b / 2))
or_digit (suc a) b = simp bit_or-bitwise (lowest (λ y. y) max a b)

zero-bit_and : (b : ℕ) → bit_and 0 b ≡ 0
zero-bit_and b = bit_and-bitwise 0 b

and_digit : (a b : ℕ) → bit_and a b ≡ bit_and (a / 2) (b / 2) * 2 + min (a % 2) (b % 2)
and_digit zero b = omega (arith, zero-bit_and b, zero-bit_and (b / 2))
and_digit (suc a) b = simp bit_and-bitwise (lowest (λ y. 0) min a b)

zero-bit_xor : (b : ℕ) → bit_xor 0 b ≡ b
zero-bit_xor b = bit_xor-bitwise 0 b

xor_digit : (a b : ℕ) → bit_xor a b ≡ bit_xor (a / 2) (b / 2) * 2 + differ (a % 2) (b % 2)
xor_digit zero b = omega (arith, zero-bit_xor b, zero-bit_xor (b / 2))
xor_digit (suc a) b = simp bit_xor-bitwise (lowest (λ y. y) differ a b)

differ-le-one : (a b : ℕ) → a < 2 → b < 2 → differ a b ≤ 1
differ-le-one zero b p q = omega arith
differ-le-one (suc zero) zero p q = omega arith
differ-le-one (suc zero) (suc zero) p q = omega arith
differ-le-one (suc zero) (suc (suc b)) p q = absurd (omega arith)
differ-le-one (suc (suc a)) b p q = absurd (omega arith)

two_pow : (q s : ℕ) → q * 2 ^ suc s ≡ 2 * (q * 2 ^ s)
two_pow q s = omega (arith, ap (λ (t : ℕ). q * t) (pow-suc 2 s))

-- Where the low part fits below bit `s`, `low | (q << s)` is a sum.
pub bit_or_disjoint : (s low q : ℕ) → low < 2 ^ s → bit_or low (q * 2 ^ s) ≡ low + q * 2 ^ s
bit_or_disjoint zero zero q h = zero-bit_or (q * 2 ^ 0) ∙ omega arith
bit_or_disjoint zero (suc low) q h = absurd (omega arith)
bit_or_disjoint (suc s) low q h =
    let fits : low / 2 < 2 ^ s = omega (arith, pow-suc 2 s) in
    let half : q * 2 ^ suc s / 2 ≡ q * 2 ^ s = omega (arith, two_pow q s) in
    omega (
      arith,
      or_digit low (q * 2 ^ suc s),
      two_pow q s,
      ap (λ (t : ℕ). bit_or (low / 2) t) half,
      bit_or_disjoint s (low / 2) q fits,
    )

-- `^` and `&` stay within the width of their arguments.
pub bit_xor-lt : (s a b : ℕ) → a < 2 ^ s → b < 2 ^ s → bit_xor a b < 2 ^ s
bit_xor-lt zero a b p q =
    let a' : a ≡ 0 = omega arith in omega (arith, zero-bit_xor b, ap (λ (t : ℕ). bit_xor t b) a')
bit_xor-lt (suc s) a b p q = omega (
  arith,
  xor_digit a b,
  differ-le-one (a % 2) (b % 2) (omega arith) (omega arith),
  pow-suc 2 s,
  bit_xor-lt s (a / 2) (b / 2) (omega (arith, pow-suc 2 s)) (omega (arith, pow-suc 2 s)),
)

pub bit_and-lt : (s a b : ℕ) → a < 2 ^ s → bit_and a b < 2 ^ s
bit_and-lt zero a b p =
    let a' : a ≡ 0 = omega arith in omega (arith, zero-bit_and b, ap (λ (t : ℕ). bit_and t b) a')
bit_and-lt (suc s) a b p =
    omega
      (arith, and_digit a b, pow-suc 2 s, bit_and-lt s (a / 2) (b / 2) (omega (arith, pow-suc 2 s)))

bit_and-zero_fuel : (fuel a : ℕ) → a ≤ fuel → bit_and a 0 ≡ 0
bit_and-zero_fuel fuel zero h = zero-bit_and 0
bit_and-zero_fuel zero (suc a) h = absurd (omega arith)
bit_and-zero_fuel (suc fuel) (suc a) h =
    omega (arith, and_digit (suc a) 0, bit_and-zero_fuel fuel (suc a / 2) (omega arith))

pub bit_and-zero : (a : ℕ) → bit_and a 0 ≡ 0
bit_and-zero a = bit_and-zero_fuel a a (omega arith)

-- The parts of a digit sum.
or_parts :
    (a m : ℕ) → (bit_or a m / 2 ≡ bit_or (a / 2) (m / 2)) × (bit_or a m % 2 ≡ max (a % 2) (m % 2))
or_parts a m = omega (arith, or_digit a m)

-- A bit that is set stays set when more bits are set.
pub bit_and-bit_or_mono : (s a m n : ℕ) → n < 2 ^ s → bit_and a n ≤ bit_and (bit_or a m) n
bit_and-bit_or_mono zero a m n h =
    let n' : n ≡ 0 = omega arith in omega (arith, ap (λ (t : ℕ). bit_and a t) n', bit_and-zero a)
bit_and-bit_or_mono (suc s) a m n h =
    let parts = or_parts a m in
    omega (
      arith,
      and_digit a n,
      and_digit (bit_or a m) n,
      ap (λ (t : ℕ). bit_and t (n / 2)) parts.0,
      parts.1,
      bit_and-bit_or_mono s (a / 2) (m / 2) (n / 2) (omega (arith, pow-suc 2 s)),
    )

-- The bits that were set are there.
pub bit_and-bit_or_self : (s a m : ℕ) → m < 2 ^ s → bit_and (bit_or a m) m ≡ m
bit_and-bit_or_self zero a m h =
    let m' : m ≡ 0 = omega arith in
    omega (arith, ap (λ (t : ℕ). bit_and (bit_or a m) t) m', bit_and-zero (bit_or a m))
bit_and-bit_or_self (suc s) a m h =
    let parts = or_parts a m in
    omega (
      arith,
      and_digit (bit_or a m) m,
      ap (λ (t : ℕ). bit_and t (m / 2)) parts.0,
      parts.1,
      bit_and-bit_or_self s (a / 2) (m / 2) (omega (arith, pow-suc 2 s)),
    )
