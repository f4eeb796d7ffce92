-- ===== src/Coproc/Services/Utf8/Rounds.antt =====
-- One round of `utf8_valid` as arithmetic, by the number of its continuation bytes.
use wl_hosted_core.Prelude.{
  ℕ, suc, ◌+◌, ◌*◌, ◌%◌, ◌^◌, ◌≤◌, ◌<◌, ◌≡◌, refl, arith, Bool, ◌&&◌, List, ◌∷◌, none, some, ltb,
  leb, if◌then◌else◌, bit_and, lt→ltb,
}
use wl_hosted_core.Prelude.Word.{u32, ◌<<<◌}
use wl_hosted_core.Coproc.Services.Utf8.{lead_of, continuation, is_scalar, sequence, round}
use wl_hosted_core.Coproc.Services.Utf8.Bytes.{bit_and_byte, shifted_in}

abbrev pub is_tail : ℕ → Bool
is_tail b = leb 0x80 b && ltb b 0xc0

continuation-suc :
    (extra c b : ℕ) (rest : List ℕ)
    → b < 256
    → c < 2 ^ 26
    → continuation (suc extra) c (b ∷ rest)
      ≡ (if is_tail b then continuation extra (c * 64 + b % 64) rest else none)
unfolding continuation
continuation-suc extra c b rest hb hc =
    let said = bit_and_byte b hb in
    let small : u32 (c <<< 6) ≡ c * 2 ^ 6 = omega arith in
    rw (said.3, said.4, small, shifted_in c (b % 64) (omega arith)) (ground arith)

continuation-zero : (c : ℕ) (rest : List ℕ) → continuation 0 c rest ≡ some (c, rest)
unfolding continuation
continuation-zero c rest = refl

continuation_1 :
    (c a : ℕ) (rest : List ℕ)
    → a < 256
    → c < 2 ^ 26
    → continuation 1 c (a ∷ rest) ≡ (if is_tail a then some (c * 64 + a % 64, rest) else none)
continuation_1 c a rest ha hc =
    rw (continuation-suc 0 c a rest ha hc, continuation-zero (c * 64 + a % 64) rest) refl

continuation_2 :
    (c a b : ℕ) (rest : List ℕ)
    → a < 256
    → b < 256
    → c < 2 ^ 20
    → continuation 2 c (a ∷ b ∷ rest)
      ≡ (if is_tail a && is_tail b then some ((c * 64 + a % 64) * 64 + b % 64, rest) else none)
continuation_2 c a b rest ha hb hc =
    rw
      (
        continuation-suc 1 c a (b ∷ rest) ha (omega arith),
        continuation_1 (c * 64 + a % 64) b rest hb (omega arith),
      )
      (ground arith)

continuation_3 :
    (c a b d : ℕ) (rest : List ℕ)
    → a < 256
    → b < 256
    → d < 256
    → c < 2 ^ 14
    → continuation 3 c (a ∷ b ∷ d ∷ rest) ≡ (
        if is_tail a && is_tail b && is_tail d
        then some (((c * 64 + a % 64) * 64 + b % 64) * 64 + d % 64, rest)
        else none)
continuation_3 c a b d rest ha hb hd hc =
    rw
      (
        continuation-suc 2 c a (b ∷ d ∷ rest) ha (omega arith),
        continuation_2 (c * 64 + a % 64) b d rest hb hd (omega arith),
      )
      (ground arith)

-- A round by its lead byte and as many bytes as it announces.
pub round_0 : (lead : ℕ) (rest : List ℕ) → lead < 0x80 → round lead rest ≡ some rest
unfolding round
round_0 lead rest h = rw (lt→ltb lead 0x80 h) refl

pub round_1 :
    (lead a : ℕ) (rest : List ℕ)
    → 0xc2 ≤ lead
    → lead ≤ 0xdf
    → a < 256
    → round lead (a ∷ rest) ≡ (if is_tail a then some rest else none)
unfolding round lead_of sequence is_scalar
round_1 lead a rest low high ha =
    let said = bit_and_byte lead (omega arith) in
    ground (arith, continuation_1 (bit_and lead 0x1f) a rest ha (omega (arith, said.0)))

pub round_2 :
    (lead a b : ℕ) (rest : List ℕ)
    → 0xe0 ≤ lead
    → lead ≤ 0xef
    → a < 256
    → b < 256
    → round lead (a ∷ b ∷ rest) ≡ (
        if is_tail a && is_tail b && is_scalar 2 ((lead % 16 * 64 + a % 64) * 64 + b % 64)
        then some rest
        else none)
unfolding round lead_of sequence
round_2 lead a b rest low high ha hb =
    let said = bit_and_byte lead (omega arith) in
    ground (arith, continuation_2 (bit_and lead 0x0f) a b rest ha hb (omega (arith, said.1)))

pub round_3 :
    (lead a b d : ℕ) (rest : List ℕ)
    → 0xf0 ≤ lead
    → lead ≤ 0xf4
    → a < 256
    → b < 256
    → d < 256
    → round lead (a ∷ b ∷ d ∷ rest) ≡ (
        if is_tail a
          && is_tail b
          && is_tail d
          && is_scalar 3 (((lead % 8 * 64 + a % 64) * 64 + b % 64) * 64 + d % 64)
        then some rest
        else none)
unfolding round lead_of sequence
round_3 lead a b d rest low high ha hb hd =
    let said = bit_and_byte lead (omega arith) in
    ground (arith, continuation_3 (bit_and lead 0x07) a b d rest ha hb hd (omega (arith, said.2)))
