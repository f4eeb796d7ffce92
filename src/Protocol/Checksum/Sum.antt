-- ===== src/Protocol/Checksum/Sum.antt =====
-- The additive checksum against its specification, the sum of the bytes weighted by their place in
-- a little-endian word.
use wl_hosted_core.Prelude.{ℕ, ◌+◌, ◌*◌, ◌%◌, ◌^◌, ◌<◌, ◌≡◌, ◌≢◌, refl, arith}
use wl_hosted_core.Prelude.{◌⊎◌, List, [], ◌∷◌, ◌++◌, inl, inr}
use wl_hosted_core.Prelude.Bits.{bit_or-shifted}
use wl_hosted_core.Prelude.Word.{IsBytes, u32}
use wl_hosted_core.Protocol.Endian.{read_u32_le_unchecked}
use wl_hosted_core.Protocol.Result.{bytes}
use wl_hosted_core.Protocol.Endian.Laws.{read_u32_bytes}
use wl_hosted_core.Protocol.Checksum.{sum32_tail, sum32_words, sum32, crc32c, frame_checksum}

-- The value of bytes whose first has the weight `w`: 1, 2 ^ 8, 2 ^ 16, 2 ^ 24, and 1 again.
abbrev pub next_weight : ℕ → ℕ
next_weight w = w * 256 % 4294967295

pub weighted : ℕ → List ℕ → ℕ
weighted w [] = 0
weighted w (b ∷ rest) = b * w + weighted (next_weight w) rest

word_value :
    (a b c d : ℕ) (rest : List ℕ)
    → weighted 1 (a ∷ b ∷ c ∷ d ∷ rest) ≡ a + b * 256 + c * 65536 + d * 16777216 + weighted 1 rest
unfolding weighted
word_value a b c d rest = omega arith

tail_one : (a : ℕ) → a < 256 → sum32_tail 0 0 (a ∷ []) ≡ a
unfolding sum32_tail
tail_one a h = omega (arith, bit_or-shifted 0 0 a (omega arith))

tail_two : (a b : ℕ) → a < 256 → b < 256 → sum32_tail 0 0 (a ∷ b ∷ []) ≡ a + b * 256
unfolding sum32_tail
tail_two a b ha hb =
    rw (bit_or-shifted 0 0 a (omega arith), bit_or-shifted 8 (0 + a * 1) b (omega arith))
      (omega arith)

tail_three :
    (a b c : ℕ)
    → a < 256
    → b < 256
    → c < 256
    → sum32_tail 0 0 (a ∷ b ∷ c ∷ []) ≡ a + b * 256 + c * 65536
unfolding sum32_tail
tail_three a b c ha hb hc =
    rw
      (
        bit_or-shifted 0 0 a (omega arith),
        bit_or-shifted 8 (0 + a * 1) b (omega arith),
        bit_or-shifted 16 (0 + a * 1 + b * 256) c (omega arith),
      )
      (omega arith)

sum32_words_lem :
    (sum : ℕ) (xs : List ℕ)
    → sum < 2 ^ 32
    → IsBytes xs
    → sum32_words sum xs ≡ (sum + weighted 1 xs) % 2 ^ 32
unfolding sum32_words weighted
sum32_words_lem sum (a ∷ b ∷ c ∷ d ∷ rest) h (ha, (hb, (hc, (hd, hr)))) = omega (
  arith,
  read_u32_bytes a b c d [] ha hb hc hd,
  word_value a b c d rest,
  sum32_words_lem (u32 (sum + read_u32_le_unchecked (a ∷ b ∷ c ∷ d ∷ []))) rest (omega arith) hr,
)
sum32_words_lem sum [] h hb = omega arith
sum32_words_lem sum (a ∷ []) h hb = omega (arith, tail_one a hb.0)
sum32_words_lem sum (a ∷ b ∷ []) h hb = omega (arith, tail_two a b hb.0 hb.1.0)
sum32_words_lem sum (a ∷ b ∷ c ∷ []) h hb = omega (arith, tail_three a b c hb.0 hb.1.0 hb.1.1.0)

-- `wlh_sum32` of bytes is the sum, modulo 2 ^ 32, of each byte shifted to its place in a
-- little-endian word, whether or not their number is a multiple of four.
pub sum32-eq-weighted : (xs : List ℕ) → IsBytes xs → sum32 (bytes xs) ≡ weighted 1 xs % 2 ^ 32
unfolding sum32
sum32-eq-weighted xs h = omega (arith, sum32_words_lem 0 xs (omega arith) h)

abbrev IsWeight : ℕ → Type 0
IsWeight w = (w ≡ 1) ⊎ (w ≡ 256) ⊎ (w ≡ 65536) ⊎ (w ≡ 16777216)

next_weight-IsWeight : (w : ℕ) → IsWeight w → IsWeight (next_weight w)
next_weight-IsWeight w h = ground arith

-- A byte at the head: its weight divides 2 ^ 32, and 255 times the weight is less.
byte_determined :
    (k w r b c : ℕ)
    → IsWeight w
    → b < 256
    → c < 256
    → (k + (b * w + r)) % 2 ^ 32 ≡ (k + (c * w + r)) % 2 ^ 32
    → b ≡ c
byte_determined k w r b c hw hb hc h = elim hw [
  | inl e ↦ let h' = rw e at h in omega arith
  | inr (inl e) ↦ let h' = rw e at h in omega arith
  | inr (inr (inl e)) ↦ let h' = rw e at h in omega arith
  | inr (inr (inr e)) ↦ let h' = rw e at h in omega arith
]

weighted-injective :
    (k w b c : ℕ) (before after : List ℕ)
    → IsWeight w
    → b < 256
    → c < 256
    → (k + weighted w (before ++ b ∷ after)) % 2 ^ 32
      ≡ (k + weighted w (before ++ c ∷ after)) % 2 ^ 32
    → b ≡ c
unfolding weighted
weighted-injective k w b c [] after hw hb hc h =
    byte_determined k w (weighted (next_weight w) after) b c hw hb hc h
weighted-injective k w b c (x ∷ before) after hw hb hc h =
    weighted-injective (k + x * w) (next_weight w) b c before after (next_weight-IsWeight w hw) hb
      hc (omega arith)

sum32_words-lt : (sum : ℕ) (xs : List ℕ) → sum < 2 ^ 32 → sum32_words sum xs < 2 ^ 32
unfolding sum32_words
sum32_words-lt sum (a ∷ b ∷ c ∷ d ∷ rest) h =
    sum32_words-lt (u32 (sum + read_u32_le_unchecked (a ∷ b ∷ c ∷ d ∷ []))) rest (omega arith)
sum32_words-lt sum [] h = h
sum32_words-lt sum (a ∷ []) h = omega arith
sum32_words-lt sum (a ∷ b ∷ []) h = omega arith
sum32_words-lt sum (a ∷ b ∷ c ∷ []) h = omega arith

-- A checksum of either kind is a `uint32_t`.
pub frame_checksum-lt : (xs : List ℕ) (flags : ℕ) → frame_checksum xs flags < 2 ^ 32
unfolding frame_checksum sum32 crc32c
frame_checksum-lt xs flags = ground (arith, sum32_words-lt 0 xs (omega arith))

-- Two byte strings that differ in one byte have different additive checksums.
pub sum32-ne :
    (b c : ℕ) (before after : List ℕ)
    → IsBytes (before ++ b ∷ after)
    → IsBytes (before ++ c ∷ after)
    → b < 256
    → c < 256
    → b ≢ c
    → sum32 (bytes (before ++ b ∷ after)) ≢ sum32 (bytes (before ++ c ∷ after))
sum32-ne b c before after hb hc lb lc ne e = ne (
    weighted-injective 0 1 b c before after (inl refl) lb lc (
      omega (
        arith,
        e,
        sum32-eq-weighted (before ++ b ∷ after) hb,
        sum32-eq-weighted (before ++ c ∷ after) hc,
      )))
