-- ===== src/Base/Bits.antt =====
-- Laws of the bit operations at variables: one binary digit at a time, then fields and masks.
use Prim.Native.Nat.{
  ℕ, zero, suc, ◌+◌, ◌-◌, ◌*◌, ◌/◌, ◌%◌, ◌^◌, ◌≤◌, ◌<◌, min, max, bit_and, bit_or, bit_xor, differ,
  digits, bitwise, bit_and-bitwise, bit_or-bitwise, bit_xor-bitwise,
}
use mathlib.Core.Path.{◌≡◌, refl, ap}
use native.Mathlib.Omega.{arith}
use native.Mathlib.Nat.{pow-suc}

module _ (z : ℕ → ℕ) (f : ℕ → ℕ → ℕ) where
  -- Any fuel that is at least the first operand gives the same digits.
  enough_fuel : (k m x y : ℕ) → x ≤ k → x ≤ m → digits z f k x y ≡ digits z f m x y
  enough_fuel zero zero x y p q = refl
  enough_fuel zero (suc m) zero y p q = refl
  enough_fuel zero (suc m) (suc x) y p q = absurd (omega arith)
  enough_fuel (suc k) zero zero y p q = refl
  enough_fuel (suc k) zero (suc x) y p q = absurd (omega arith)
  enough_fuel (suc k) (suc m) zero y p q = refl
  enough_fuel (suc k) (suc m) (suc x) y p q =
      omega (arith, enough_fuel k m (suc x / 2) (y / 2) (omega arith) (omega arith))

  lowest_digit :
      (x y : ℕ)
      → bitwise z f (suc x) y ≡ 2 * bitwise z f (suc x / 2) (y / 2) + f (suc x % 2) (y % 2)
  lowest_digit x y =
      omega (arith, enough_fuel x (suc x / 2) (suc x / 2) (y / 2) (omega arith) (omega arith))

pub bit_and_step : (a b : ℕ) → bit_and a b ≡ 2 * bit_and (a / 2) (b / 2) + min (a % 2) (b % 2)
bit_and_step zero b = simp bit_and-bitwise (omega arith)
bit_and_step (suc a) b = simp bit_and-bitwise (lowest_digit (λ y. 0) min a b)

pub bit_or_step : (a b : ℕ) → bit_or a b ≡ 2 * bit_or (a / 2) (b / 2) + max (a % 2) (b % 2)
bit_or_step zero b = simp bit_or-bitwise (omega arith)
bit_or_step (suc a) b = simp bit_or-bitwise (lowest_digit (λ y. y) max a b)

pub bit_xor_step : (a b : ℕ) → bit_xor a b ≡ 2 * bit_xor (a / 2) (b / 2) + differ (a % 2) (b % 2)
bit_xor_step zero b = simp bit_xor-bitwise (omega arith)
bit_xor_step (suc a) b = simp bit_xor-bitwise (lowest_digit (λ y. y) differ a b)

two_pow_suc : (k : ℕ) → 2 ^ suc k ≡ 2 * 2 ^ k
two_pow_suc k = omega (arith, pow-suc 2 k)

twice_field : (p k : ℕ) → p * 2 ^ suc k ≡ 2 * (p * 2 ^ k)
twice_field p k = omega (arith, ap (λ (t : ℕ). p * t) (two_pow_suc k))

-- The operations work on the fields above and below bit `k` separately.
pub bit_and_fields :
    (k p r m n : ℕ)
    → r < 2 ^ k
    → n < 2 ^ k
    → bit_and (p * 2 ^ k + r) (m * 2 ^ k + n) ≡ bit_and p m * 2 ^ k + bit_and r n
bit_and_fields zero p r m n hr hn =
    let er : r ≡ 0 = omega arith in let en : n ≡ 0 = omega arith in ground arith
bit_and_fields (suc k) p r m n hr hn = ground (
  arith,
  bit_and_step (p * 2 ^ suc k + r) (m * 2 ^ suc k + n),
  bit_and_step r n,
  two_pow_suc k,
  twice_field p k,
  twice_field m k,
  twice_field (bit_and p m) k,
  bit_and_fields k p (r / 2) m (n / 2) (omega (arith, two_pow_suc k))
      (omega (arith, two_pow_suc k)),
)

pub bit_or_fields :
    (k p r m n : ℕ)
    → r < 2 ^ k
    → n < 2 ^ k
    → bit_or (p * 2 ^ k + r) (m * 2 ^ k + n) ≡ bit_or p m * 2 ^ k + bit_or r n
bit_or_fields zero p r m n hr hn =
    let er : r ≡ 0 = omega arith in let en : n ≡ 0 = omega arith in ground arith
bit_or_fields (suc k) p r m n hr hn = ground (
  arith,
  bit_or_step (p * 2 ^ suc k + r) (m * 2 ^ suc k + n),
  bit_or_step r n,
  two_pow_suc k,
  twice_field p k,
  twice_field m k,
  twice_field (bit_or p m) k,
  bit_or_fields k p (r / 2) m (n / 2) (omega (arith, two_pow_suc k)) (omega (arith, two_pow_suc k)),
)

pub bit_or-zero_left : (b : ℕ) → bit_or 0 b ≡ b
bit_or-zero_left b = bit_or-bitwise 0 b

pub bit_and-zero_left : (b : ℕ) → bit_and 0 b ≡ 0
bit_and-zero_left b = bit_and-bitwise 0 b

pub bit_or-zero_bits : (k a : ℕ) → a < 2 ^ k → bit_or a 0 ≡ a
bit_or-zero_bits zero a h = let e : a ≡ 0 = omega arith in rw e
bit_or-zero_bits (suc k) a h = omega (
  arith,
  bit_or_step a 0,
  two_pow_suc k,
  bit_or-zero_bits k (a / 2) (omega (arith, two_pow_suc k)),
)

-- A mask of `k` ones keeps what fits `k` bits.
pub bit_and_ones : (k a : ℕ) → a < 2 ^ k → bit_and a (2 ^ k - 1) ≡ a
bit_and_ones zero a h = let e : a ≡ 0 = omega arith in rw e
bit_and_ones (suc k) a h = ground (
  arith,
  bit_and_step a (2 ^ suc k - 1),
  two_pow_suc k,
  bit_and_ones k (a / 2) (omega (arith, two_pow_suc k)),
)

pub bit_and-zero_bits : (k a : ℕ) → a < 2 ^ k → bit_and a 0 ≡ 0
bit_and-zero_bits zero a h = let e : a ≡ 0 = omega arith in rw e
bit_and-zero_bits (suc k) a h =
    omega (arith, bit_and_step a 0, bit_and-zero_bits k (a / 2) (omega (arith, two_pow_suc k)))

pub bit_and-lt : (k a b : ℕ) → a < 2 ^ k → bit_and a b < 2 ^ k
bit_and-lt zero a b h = let e : a ≡ 0 = omega arith in rw e (omega (arith, bit_and-zero_left b))
bit_and-lt (suc k) a b h = omega (
  arith,
  bit_and_step a b,
  two_pow_suc k,
  bit_and-lt k (a / 2) (b / 2) (omega (arith, two_pow_suc k)),
)

pub bit_or-lt : (k a b : ℕ) → a < 2 ^ k → b < 2 ^ k → bit_or a b < 2 ^ k
bit_or-lt zero a b ha hb = let e : a ≡ 0 = omega arith in rw e (omega (arith, bit_or-zero_left b))
bit_or-lt (suc k) a b ha hb = omega (
  arith,
  bit_or_step a b,
  two_pow_suc k,
  bit_or-lt k (a / 2) (b / 2) (omega (arith, two_pow_suc k)) (omega (arith, two_pow_suc k)),
)

differ-zero : (x y : ℕ) → differ x y ≡ 0 → x ≡ y
differ-zero zero y h = omega arith
differ-zero (suc x) zero h = absurd (omega arith)
differ-zero (suc x) (suc y) h = omega (arith, differ-zero x y h)

differ_self : (x : ℕ) → differ x x ≡ 0
differ_self zero = refl
differ_self (suc x) = differ_self x

pub bit_xor-zero_bits : (k a b : ℕ) → a < 2 ^ k → bit_xor a b ≡ 0 → a ≡ b
bit_xor-zero_bits zero a b ha h =
    let e : a ≡ 0 = omega arith in let x : bit_xor 0 b ≡ b = bit_xor-bitwise 0 b in cc
bit_xor-zero_bits (suc k) a b ha h = omega (
  arith,
  bit_xor_step a b,
  differ-zero (a % 2) (b % 2) (omega (arith, bit_xor_step a b)),
  bit_xor-zero_bits k (a / 2) (b / 2) (omega (arith, two_pow_suc k))
      (omega (arith, bit_xor_step a b)),
)

pub bit_xor_self : (k a : ℕ) → a < 2 ^ k → bit_xor a a ≡ 0
bit_xor_self zero a h = let e : a ≡ 0 = omega arith in rw e
bit_xor_self (suc k) a h = omega (
  arith,
  bit_xor_step a a,
  differ_self (a % 2),
  bit_xor_self k (a / 2) (omega (arith, two_pow_suc k)),
)

pub ones_bit_and : (k a : ℕ) → a < 2 ^ k → bit_and (2 ^ k - 1) a ≡ a
ones_bit_and zero a h = let e : a ≡ 0 = omega arith in rw e
ones_bit_and (suc k) a h = ground (
  arith,
  bit_and_step (2 ^ suc k - 1) a,
  two_pow_suc k,
  ones_bit_and k (a / 2) (omega (arith, two_pow_suc k)),
)
