-- ===== src/Coproc/Services/Utf8/Bytes.antt =====
-- The bit operations of `utf8_valid` as arithmetic on bytes.
use wl_hosted_core.Prelude.{
  ℕ, zero, suc, ◌+◌, ◌*◌, ◌/◌, ◌%◌, ◌^◌, ◌<◌, ◌≡◌, refl, subst, arith, Bool, true, false,
  if◌then◌else◌, ◌&&◌, ◌==◌, bit_and, bit_or,
}
use wl_hosted_core.Prelude.Bits.{bit_or-shifted, bit_or_comm}

-- Whether a test says yes to `count` numbers from `first` on.
passes : (ℕ → Bool) → ℕ → ℕ → Bool
passes test first zero = true
passes test first (suc count) = if test first then passes test (first + 1) count else false

passed :
    (test : ℕ → Bool) (first count i : ℕ)
    → passes test first count ≡ true
    → i < count
    → test (first + i) ≡ true
unfolding passes
passed test first zero i said inside = absurd (omega arith)
passed test first (suc count) zero said inside = ground arith
passed test first (suc count) (suc i) said inside =
    let later : first + 1 + i ≡ first + suc i = omega arith in
    subst (λ n. test n ≡ true) later (passed test (first + 1) count i (ground arith) (omega arith))

-- Each operation on one byte, for all 256.
abbrev is_as_said : ℕ → Bool
is_as_said b =
    bit_and b 0x1f == b % 32
    && bit_and b 0x0f == b % 16
    && bit_and b 0x07 == b % 8
    && bit_and b 0x3f == b % 64
    && bit_and b 0xc0 == b / 64 * 64

byte_table : passes is_as_said 0 256 ≡ true
unfolding passes
byte_table = refl

pub bit_and_byte :
    (b : ℕ)
    → b < 256
    → (bit_and b 0x1f ≡ b % 32)
      × (bit_and b 0x0f ≡ b % 16)
      × (bit_and b 0x07 ≡ b % 8)
      × (bit_and b 0x3f ≡ b % 64)
      × (bit_and b 0xc0 ≡ b / 64 * 64)
bit_and_byte b h = let said = passed is_as_said 0 256 b byte_table h in ground arith

-- One step of the loop over continuation bytes.
pub shifted_in : (c b : ℕ) → b < 64 → bit_or (c * 2 ^ 6) b ≡ c * 64 + b
shifted_in c b h = omega (arith, bit_or_comm (c * 64) b, bit_or-shifted 6 b c h)
