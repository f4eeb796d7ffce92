-- ===== src/Protocol/Endian/Laws.antt =====
-- Reading and writing little-endian integers: what the bytes mean, and both round trips.
use wl_hosted_core.Prelude.{ℕ, ◌+◌, ◌*◌, ◌^◌, ◌<◌, ◌≤◌, ◌≡◌, refl, arith, List, [], ◌∷◌, ◌++◌}
use wl_hosted_core.Prelude.{length, take}
use wl_hosted_core.Prelude.Bits.{bit_or-shifted}
use wl_hosted_core.Prelude.Word.{
  ℤ, IsBytes, IsInt16, i16_of_u16-u16_of_i16, u16_of_i16-i16_of_u16, u16_of_i16-lt,
  i16_of_u16-IsInt16, u16_of_i16, u8, ◌>>>◌,
}
use wl_hosted_core.Protocol.Endian.{
  byte_at, read_u16_le_unchecked, read_i16_le_unchecked, read_u32_le_unchecked,
  write_u16_le_unchecked, write_i16_le_unchecked, write_u32_le_unchecked,
}

pub read_u16_bytes :
    (a b : ℕ) (r : List ℕ) → a < 256 → b < 256 → read_u16_le_unchecked (a ∷ b ∷ r) ≡ a + b * 256
unfolding read_u16_le_unchecked
read_u16_bytes a b r ha hb = omega (arith, bit_or-shifted 8 a b (omega arith))

pub read_u32_bytes :
    (a b c d : ℕ) (r : List ℕ)
    → a < 256
    → b < 256
    → c < 256
    → d < 256
    → read_u32_le_unchecked (a ∷ b ∷ c ∷ d ∷ r) ≡ a + b * 256 + c * 65536 + d * 16777216
unfolding read_u32_le_unchecked
read_u32_bytes a b c d r ha hb hc hd =
    rw
      (
        bit_or-shifted 8 a b (omega arith),
        bit_or-shifted 16 (a + b * 256) c (omega arith),
        bit_or-shifted 24 (a + b * 256 + c * 65536) d (omega arith),
      )
      refl

pub read_u16-write_u16 :
    (v : ℕ) (r : List ℕ) → v < 2 ^ 16 → read_u16_le_unchecked (write_u16_le_unchecked v ++ r) ≡ v
read_u16-write_u16 v r h =
    omega (arith, read_u16_bytes (u8 v) (u8 (v >>> 8)) r (omega arith) (omega arith))

pub read_u32-write_u32 :
    (v : ℕ) (r : List ℕ) → v < 2 ^ 32 → read_u32_le_unchecked (write_u32_le_unchecked v ++ r) ≡ v
read_u32-write_u32 v r h = omega (
  arith,
  read_u32_bytes (u8 v) (u8 (v >>> 8)) (u8 (v >>> 16)) (u8 (v >>> 24)) r (omega arith) (omega arith)
      (omega arith) (omega arith),
)

pub read_i16-write_i16 :
    (z : ℤ) (r : List ℕ) → IsInt16 z → read_i16_le_unchecked (write_i16_le_unchecked z ++ r) ≡ z
unfolding read_i16_le_unchecked
read_i16-write_i16 z r h =
    rw (read_u16-write_u16 (u16_of_i16 z) r (u16_of_i16-lt z)) (i16_of_u16-u16_of_i16 z h)

-- The other way round: bytes are what writing their value stores.
pub write_u16-read_u16 :
    (a b : ℕ) (r : List ℕ)
    → a < 256
    → b < 256
    → write_u16_le_unchecked (read_u16_le_unchecked (a ∷ b ∷ r)) ≡ a ∷ b ∷ []
write_u16-read_u16 a b r ha hb = rw (read_u16_bytes a b r ha hb) (ground arith)

pub write_u32-read_u32 :
    (a b c d : ℕ) (r : List ℕ)
    → a < 256
    → b < 256
    → c < 256
    → d < 256
    → write_u32_le_unchecked (read_u32_le_unchecked (a ∷ b ∷ c ∷ d ∷ r)) ≡ a ∷ b ∷ c ∷ d ∷ []
write_u32-read_u32 a b c d r ha hb hc hd = rw (read_u32_bytes a b c d r ha hb hc hd) (ground arith)

pub read_u16-lt :
    (a b : ℕ) (r : List ℕ) → a < 256 → b < 256 → read_u16_le_unchecked (a ∷ b ∷ r) < 2 ^ 16
read_u16-lt a b r ha hb = omega (arith, read_u16_bytes a b r ha hb)

pub read_u32-lt :
    (a b c d : ℕ) (r : List ℕ)
    → a < 256
    → b < 256
    → c < 256
    → d < 256
    → read_u32_le_unchecked (a ∷ b ∷ c ∷ d ∷ r) < 2 ^ 32
read_u32-lt a b c d r ha hb hc hd = omega (arith, read_u32_bytes a b c d r ha hb hc hd)

pub write_i16-read_i16 :
    (a b : ℕ) (r : List ℕ)
    → a < 256
    → b < 256
    → write_i16_le_unchecked (read_i16_le_unchecked (a ∷ b ∷ r)) ≡ a ∷ b ∷ []
unfolding read_i16_le_unchecked
write_i16-read_i16 a b r ha hb =
    rw (u16_of_i16-i16_of_u16 (read_u16_le_unchecked (a ∷ b ∷ r)) (read_u16-lt a b r ha hb))
      (write_u16-read_u16 a b r ha hb)

pub read_i16-IsInt16 :
    (a b : ℕ) (r : List ℕ) → a < 256 → b < 256 → IsInt16 (read_i16_le_unchecked (a ∷ b ∷ r))
unfolding read_i16_le_unchecked
read_i16-IsInt16 a b r ha hb =
    i16_of_u16-IsInt16 (read_u16_le_unchecked (a ∷ b ∷ r)) (read_u16-lt a b r ha hb)

-- To prove a statement of a list of four or more it is enough to prove it of four and the rest.
pub by_four {ℓ} :
    (P : List ℕ → Type ℓ)
    → ((a b c d : ℕ) (r : List ℕ) → P (a ∷ b ∷ c ∷ d ∷ r))
    → (f : List ℕ) → 4 ≤ length f
    → P f
by_four P each [] h = absurd (omega arith)
by_four P each (a ∷ []) h = absurd (omega arith)
by_four P each (a ∷ b ∷ []) h = absurd (omega arith)
by_four P each (a ∷ b ∷ c ∷ []) h = absurd (omega arith)
by_four P each (a ∷ b ∷ c ∷ d ∷ r) h = each a b c d r

-- Writing the integer that was read at `p` stores the first bytes of `p`.
pub write_u32-read_u32_take :
    (p : List ℕ)
    → 4 ≤ length p
    → IsBytes p
    → write_u32_le_unchecked (read_u32_le_unchecked p) ≡ take 4 p
write_u32-read_u32_take p h =
    by_four (λ p. IsBytes p → write_u32_le_unchecked (read_u32_le_unchecked p) ≡ take 4 p)
      (λ a b c d r v. write_u32-read_u32 a b c d r v.0 v.1.0 v.1.1.0 v.1.1.1.0) p h

by_two {ℓ} :
    (P : List ℕ → Type ℓ)
    → ((a b : ℕ) (r : List ℕ) → P (a ∷ b ∷ r))
    → (f : List ℕ) → 2 ≤ length f
    → P f
by_two P each [] h = absurd (omega arith)
by_two P each (a ∷ []) h = absurd (omega arith)
by_two P each (a ∷ b ∷ r) h = each a b r

pub write_u16-read_u16_take :
    (p : List ℕ)
    → 2 ≤ length p
    → IsBytes p
    → write_u16_le_unchecked (read_u16_le_unchecked p) ≡ take 2 p
write_u16-read_u16_take p h =
    by_two (λ p. IsBytes p → write_u16_le_unchecked (read_u16_le_unchecked p) ≡ take 2 p)
      (λ a b r v. write_u16-read_u16 a b r v.0 v.1.0) p h

pub write_i16-read_i16_take :
    (p : List ℕ)
    → 2 ≤ length p
    → IsBytes p
    → write_i16_le_unchecked (read_i16_le_unchecked p) ≡ take 2 p
write_i16-read_i16_take p h =
    by_two (λ p. IsBytes p → write_i16_le_unchecked (read_i16_le_unchecked p) ≡ take 2 p)
      (λ a b r v. write_i16-read_i16 a b r v.0 v.1.0) p h

pub two_bytes : (p : List ℕ) → 2 ≤ length p → byte_at p 0 ∷ byte_at p 1 ∷ [] ≡ take 2 p
two_bytes p h = by_two (λ p. byte_at p 0 ∷ byte_at p 1 ∷ [] ≡ take 2 p) (λ a b r. refl) p h

pub four_bytes :
    (p : List ℕ)
    → 4 ≤ length p
    → byte_at p 0 ∷ byte_at p 1 ∷ byte_at p 2 ∷ byte_at p 3 ∷ [] ≡ take 4 p
four_bytes p h =
    by_four (λ p. byte_at p 0 ∷ byte_at p 1 ∷ byte_at p 2 ∷ byte_at p 3 ∷ [] ≡ take 4 p)
      (λ a b c d r. refl) p h

pub read_u16_take_lt : (p : List ℕ) → 2 ≤ length p → IsBytes p → read_u16_le_unchecked p < 2 ^ 16
read_u16_take_lt p h =
    by_two (λ p. IsBytes p → read_u16_le_unchecked p < 2 ^ 16)
      (λ a b r v. read_u16-lt a b r v.0 v.1.0) p h

pub read_u32_take_lt : (p : List ℕ) → 4 ≤ length p → IsBytes p → read_u32_le_unchecked p < 2 ^ 32
read_u32_take_lt p h =
    by_four (λ p. IsBytes p → read_u32_le_unchecked p < 2 ^ 32)
      (λ a b c d r v. read_u32-lt a b c d r v.0 v.1.0 v.1.1.0 v.1.1.1.0) p h
