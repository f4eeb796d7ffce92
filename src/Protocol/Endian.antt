-- ===== src/Protocol/Endian.antt =====
-- The little-endian helpers of protocol/src/wire.c. A read is of the bytes that `p` points to; a
-- write gives the bytes that it stores from `p` on.
pub mod Laws
use wl_hosted_core.Prelude.{ℕ, Bool, List, [], ◌∷◌, ◌++◌, Option, none, some, bit_or, get_or, drop}
use wl_hosted_core.Prelude.{length, ltb, if◌then◌else◌}
use wl_hosted_core.Prelude.Word.{u8, u16, ℤ, u16_of_i16, i16_of_u16, ◌<<<◌, ◌>>>◌}
use wl_hosted_core.Protocol.Result.{Span, null, bytes}

-- `p[i]`
abbrev pub byte_at : List ℕ → ℕ → ℕ
byte_at p i = get_or p i 0

unfoldable pub read_u16_le_unchecked : List ℕ → ℕ
read_u16_le_unchecked p = u16 (bit_or (byte_at p 0) (byte_at p 1 <<< 8))

unfoldable pub read_i16_le_unchecked : List ℕ → ℤ
read_i16_le_unchecked p = i16_of_u16 (read_u16_le_unchecked p)

unfoldable pub read_u32_le_unchecked : List ℕ → ℕ
read_u32_le_unchecked p =
    bit_or (bit_or (bit_or (byte_at p 0) (byte_at p 1 <<< 8)) (byte_at p 2 <<< 16))
      (byte_at p 3 <<< 24)

abbrev pub write_u16_le_unchecked : ℕ → List ℕ
write_u16_le_unchecked value = u8 value ∷ u8 (value >>> 8) ∷ []

abbrev pub write_i16_le_unchecked : ℤ → List ℕ
write_i16_le_unchecked value = write_u16_le_unchecked (u16_of_i16 value)

abbrev pub write_u32_le_unchecked : ℕ → List ℕ
write_u32_le_unchecked value =
    u8 value ∷ u8 (value >>> 8) ∷ u8 (value >>> 16) ∷ u8 (value >>> 24) ∷ []

-- The checked reads: `none` is the return value -1.
unfoldable pub read_u16_le : Span → Option ℕ
read_u16_le (null n) = none
read_u16_le (bytes p) = if ltb (length p) 2 then none else some (read_u16_le_unchecked p)

unfoldable pub read_i16_le : Span → Option ℤ
read_i16_le (null n) = none
read_i16_le (bytes p) = if ltb (length p) 2 then none else some (read_i16_le_unchecked p)

unfoldable pub read_u32_le : Span → Option ℕ
read_u32_le (null n) = none
read_u32_le (bytes p) = if ltb (length p) 4 then none else some (read_u32_le_unchecked p)

-- The checked writes give the output span after the store: `none` is the return value -1.
unfoldable pub write_u16_le : Span → ℕ → Option (List ℕ)
write_u16_le (null n) value = none
write_u16_le (bytes p) value =
    if ltb (length p) 2 then none else some (write_u16_le_unchecked value ++ drop 2 p)

unfoldable pub write_i16_le : Span → ℤ → Option (List ℕ)
write_i16_le (null n) value = none
write_i16_le (bytes p) value =
    if ltb (length p) 2 then none else some (write_i16_le_unchecked value ++ drop 2 p)

unfoldable pub write_u32_le : Span → ℕ → Option (List ℕ)
write_u32_le (null n) value = none
write_u32_le (bytes p) value =
    if ltb (length p) 4 then none else some (write_u32_le_unchecked value ++ drop 4 p)
