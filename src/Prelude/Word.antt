-- ===== src/Prelude/Word.antt =====
-- Fixed-width unsigned integers as native numbers with the wrap written out, and `int16_t`.
use Prim.Native.Nat.{ℕ, ◌-◌, ◌*◌, ◌/◌, ◌%◌, ◌^◌, ◌<◌}
use mathlib.Core.Path.{◌≡◌}
use mathlib.Core.List.{List}
use native.Mathlib.Omega.{arith}
use wl_hosted_core.Prelude.Tests.{ltb, if◌then◌else◌}
use wl_hosted_core.Prelude.Lists.{All}

abbrev pub u8 : ℕ → ℕ
u8 n = n % 2 ^ 8

abbrev pub u16 : ℕ → ℕ
u16 n = n % 2 ^ 16

abbrev pub u32 : ℕ → ℕ
u32 n = n % 2 ^ 32

abbrev pub u64 : ℕ → ℕ
u64 n = n % 2 ^ 64

infixl 75 ◌<<<◌ ◌>>>◌
abbrev pub ◌<<<◌ : ℕ → ℕ → ℕ
x <<< k = x * 2 ^ k

abbrev pub ◌>>>◌ : ℕ → ℕ → ℕ
x >>> k = x / 2 ^ k

abbrev pub u16_max : ℕ
u16_max = 2 ^ 16 - 1

abbrev pub u32_max : ℕ
u32_max = 2 ^ 32 - 1

abbrev pub u64_max : ℕ
u64_max = 2 ^ 64 - 1

-- The elements of a `uint8_t` array are bytes.
abbrev pub IsBytes : List ℕ → Type 0
IsBytes = All (λ b. b < 256)

-- `negsuc n` is -(n + 1).
pub data ℤ : Type 0 where
  pos : ℕ → ℤ
  negsuc : ℕ → ℤ

-- The range of `int16_t`.
abbrev pub IsInt16 : ℤ → Type 0
IsInt16 (pos n) = n < 2 ^ 15
IsInt16 (negsuc n) = n < 2 ^ 15

-- `(uint16_t)value` of an `int16_t`, and the way back, which two's complement defines.
abbrev pub u16_of_i16 : ℤ → ℕ
u16_of_i16 (pos n) = u16 n
u16_of_i16 (negsuc n) = 2 ^ 16 - 1 - u16 n

abbrev pub i16_of_u16 : ℕ → ℤ
i16_of_u16 w = if ltb w (2 ^ 15) then pos w else negsuc (2 ^ 16 - 1 - w)

pub i16_of_u16-u16_of_i16 : (z : ℤ) → IsInt16 z → i16_of_u16 (u16_of_i16 z) ≡ z
i16_of_u16-u16_of_i16 (pos n) h = ground arith
i16_of_u16-u16_of_i16 (negsuc n) h = ground arith

pub u16_of_i16-i16_of_u16 : (w : ℕ) → w < 2 ^ 16 → u16_of_i16 (i16_of_u16 w) ≡ w
u16_of_i16-i16_of_u16 w h = ground arith

pub i16_of_u16-IsInt16 : (w : ℕ) → w < 2 ^ 16 → IsInt16 (i16_of_u16 w)
i16_of_u16-IsInt16 w h = ground arith

pub u16_of_i16-lt : (z : ℤ) → u16_of_i16 z < 2 ^ 16
u16_of_i16-lt (pos n) = omega arith
u16_of_i16-lt (negsuc n) = omega arith
