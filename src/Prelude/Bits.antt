-- ===== src/Prelude/Bits.antt =====
-- `|` of bit fields that do not overlap is their sum, and `&` with a mask of high bits tests a
-- range: what the bitwise operators of the wire code mean as arithmetic.
use Prim.Native.Nat.{ℕ, zero, suc, ◌+◌, ◌*◌, ◌/◌, ◌%◌, ◌^◌, ◌≤◌, ◌<◌, max}
use Prim.Native.Nat.{bit_or, digits, bit_or-bitwise}
use mathlib.Core.Path.{◌≡◌, refl, ap, ◌∙◌}
use native.Mathlib.Decide.{dec_lt}
use native.Mathlib.Nat.{pow-suc}
use native.Mathlib.Omega.{arith}

abbrev or_digits : ℕ → ℕ → ℕ → ℕ
or_digits n a b = digits (λ y. y) max n a b

-- Fuel beyond the first number changes nothing.
spare_fuel : (n x y : ℕ) → x ≤ n → or_digits (suc n) x y ≡ or_digits n x y
spare_fuel zero zero y small = refl
spare_fuel zero (suc x) y small = absurd (omega arith)
spare_fuel (suc n) zero y small = refl
spare_fuel (suc n) (suc x) y small =
    let halved = spare_fuel n (suc x / 2) (y / 2) (omega arith) in omega (arith, halved)

enough_fuel : (n x y : ℕ) → x ≤ n → or_digits n x y ≡ or_digits x x y
enough_fuel zero x y small = let none_left : x ≡ 0 = omega arith in rw none_left refl
enough_fuel (suc n) x y small = elim (dec_lt n x) [
  | yes last ↦ let all : x ≡ suc n = omega arith in rw all refl
  | no below ↦ spare_fuel n x y (omega arith) ∙ enough_fuel n x y (omega arith)
]

zero-bit_or : (b : ℕ) → bit_or 0 b ≡ b
zero-bit_or b = bit_or-bitwise 0 b

-- The lowest digit of a disjunction.
bit_or_digit : (x y : ℕ) → bit_or x y ≡ bit_or (x / 2) (y / 2) * 2 + max (x % 2) (y % 2)
bit_or_digit zero y = omega (arith, zero-bit_or y, zero-bit_or (y / 2))
bit_or_digit (suc x) y =
    let upper = bit_or-bitwise (suc x / 2) (y / 2) in
    let fuel = enough_fuel x (suc x / 2) (y / 2) (omega arith) in
    omega (arith, bit_or-bitwise (suc x) y, upper, fuel)

-- Nothing on the right.
below-zero : (bound x : ℕ) → x ≤ bound → bit_or x 0 ≡ x
below-zero bound zero small = zero-bit_or 0
below-zero zero (suc x) small = absurd (omega arith)
below-zero (suc bound) (suc x) small =
    let upper = below-zero bound (suc x / 2) (omega arith) in
    omega (arith, bit_or_digit (suc x) 0, upper)

-- A low field of `k` bits under a high one.
pub bit_or-shifted : (k lo hi : ℕ) → lo < 2 ^ k → bit_or lo (hi * 2 ^ k) ≡ lo + hi * 2 ^ k
bit_or-shifted zero lo hi h =
    let none_low : lo ≡ 0 = omega arith in rw none_low (omega (arith, zero-bit_or (hi * 1)))
bit_or-shifted (suc k) lo hi h = omega (
  arith,
  bit_or_digit lo (hi * 2 ^ suc k),
  doubled,
  pow-suc 2 k,
  ap (λ (t : ℕ). bit_or (lo / 2) t) half,
  bit_or-shifted k (lo / 2) hi (omega (arith, pow-suc 2 k)),
)
  where
    doubled : hi * 2 ^ suc k ≡ 2 * (hi * 2 ^ k)
    doubled = omega (arith, ap (λ (t : ℕ). hi * t) (pow-suc 2 k))

    half : hi * 2 ^ suc k / 2 ≡ hi * 2 ^ k
    half = omega (arith, doubled)

bit_or_comm_fuel : (n a b : ℕ) → a ≤ n → b ≤ n → bit_or a b ≡ bit_or b a
bit_or_comm_fuel zero a b p q =
    let a0 : a ≡ 0 = omega arith in let b0 : b ≡ 0 = omega arith in rw (a0, b0) refl
bit_or_comm_fuel (suc n) a b p q = omega (
  arith,
  bit_or_digit a b,
  bit_or_digit b a,
  bit_or_comm_fuel n (a / 2) (b / 2) (omega arith) (omega arith),
)

pub bit_or_comm : (a b : ℕ) → bit_or a b ≡ bit_or b a
bit_or_comm a b = bit_or_comm_fuel (a + b) a b (omega arith) (omega arith)
