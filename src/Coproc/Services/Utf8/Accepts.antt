-- ===== src/Coproc/Services/Utf8/Accepts.antt =====
-- `utf8_valid` accepts the encodings of Unicode scalar values and nothing else.
use wl_hosted_core.Prelude.{
  ℕ, zero, suc, ◌+◌, ◌*◌, ◌/◌, ◌%◌, ◌≤◌, ◌<◌, ◌≡◌, ◌≢◌, ◌↔◌, inl, inr, refl, ◌∙◌, ap, subst, arith,
  true, false, ◌&&◌, List, [], ◌∷◌, ◌++◌, some, All, ltb, leb, length, length-append, Bool-cases,
  Option-cases,
}
use wl_hosted_core.Prelude.Word.{IsBytes}
use wl_hosted_core.Coproc.Services.Utf8.{
  lead_of, is_scalar, sequence, round, utf8_rounds, utf8_valid,
}
use wl_hosted_core.Coproc.Services.Utf8.Encode.{IsScalar, encode_scalar, encode_text}
use wl_hosted_core.Coproc.Services.Utf8.Rounds.{round_0, round_1, round_2, round_3}

-- The round that reads the encoding of a scalar value takes just that.
abbrev Reads : ℕ → List ℕ → Type 0
Reads c later =
    (lead : ℕ) × (rest : List ℕ) × (encode_scalar c ++ later ≡ lead ∷ rest)
    × (round lead rest ≡ some later)

one_byte : (c : ℕ) (later : List ℕ) → c < 0x80 → Reads c later
one_byte c later h = (c, later, ground arith, round_0 c later h)

two_bytes : (c : ℕ) (later : List ℕ) → 0x80 ≤ c → c < 0x800 → Reads c later
two_bytes c later low high = (
  0xc0 + c / 64,
  (0x80 + c % 64) ∷ later,
  ground arith,
  ground (
    arith,
    round_1 (0xc0 + c / 64) (0x80 + c % 64) later (omega arith) (omega arith) (omega arith),
  ),
)

three_bytes : (c : ℕ) (later : List ℕ) → 0x800 ≤ c → c < 0x10000 → IsScalar c → Reads c later
unfolding is_scalar
three_bytes c later low high scalar = (
  0xe0 + c / 4096,
  (0x80 + c / 64 % 64) ∷ (0x80 + c % 64) ∷ later,
  ground arith,
  ground (
    arith,
    round_2 (0xe0 + c / 4096) (0x80 + c / 64 % 64) (0x80 + c % 64) later (omega arith) (omega arith)
        (omega arith) (omega arith),
  ),
)

four_bytes : (c : ℕ) (later : List ℕ) → 0x10000 ≤ c → IsScalar c → Reads c later
unfolding is_scalar
four_bytes c later low scalar = (
  0xf0 + c / 262144,
  (0x80 + c / 4096 % 64) ∷ (0x80 + c / 64 % 64) ∷ (0x80 + c % 64) ∷ later,
  ground arith,
  ground (
    arith,
    round_3 (0xf0 + c / 262144) (0x80 + c / 4096 % 64) (0x80 + c / 64 % 64) (0x80 + c % 64) later
        (omega arith) (omega arith) (omega arith) (omega arith) (omega arith),
  ),
)

reads : (c : ℕ) (later : List ℕ) → IsScalar c → Reads c later
reads c later scalar = elim (Bool-cases (ltb c 0x80)) [
  | inl small ↦ one_byte c later (ground arith)
  | inr above_7 ↦ elim (Bool-cases (ltb c 0x800)) [
    | inl small ↦ two_bytes c later (ground arith) (ground arith)
    | inr above_11 ↦ elim (Bool-cases (ltb c 0x10000)) [
      | inl small ↦ three_bytes c later (ground arith) (ground arith) scalar
      | inr large ↦ four_bytes c later (ground arith) scalar
    ]
  ]
]

-- What a round that succeeds has read is the encoding of a scalar value.
abbrev Found : ℕ → List ℕ → List ℕ → Type 0
Found lead rest later = (c : ℕ) × IsScalar c × (lead ∷ rest ≡ encode_scalar c ++ later)

code_of_two :
    (lead : ℕ) (rest later : List ℕ)
    → IsBytes rest
    → 0xc2 ≤ lead
    → lead ≤ 0xdf
    → round lead rest ≡ some later
    → Found lead rest later
unfolding round lead_of sequence
code_of_two lead [] later bytes low high e = absurd (ground arith)
code_of_two lead (a ∷ rest) later bytes low high e =
    let read = round_1 lead a rest low high bytes.0 in
    ((lead % 32) * 64 + a % 64, ground arith, ground arith)

code_of_three :
    (lead : ℕ) (rest later : List ℕ)
    → IsBytes rest
    → 0xe0 ≤ lead
    → lead ≤ 0xef
    → round lead rest ≡ some later
    → Found lead rest later
unfolding round lead_of sequence is_scalar
code_of_three lead [] later bytes low high e = absurd (ground arith)
code_of_three lead (a ∷ []) later bytes low high e = absurd (ground arith)
code_of_three lead (a ∷ b ∷ rest) later bytes low high e =
    let read = round_2 lead a b rest low high bytes.0 (bytes.1).0 in
    ((lead % 16 * 64 + a % 64) * 64 + b % 64, ground arith, ground arith)

code_of_four :
    (lead : ℕ) (rest later : List ℕ)
    → IsBytes rest
    → 0xf0 ≤ lead
    → lead ≤ 0xf4
    → round lead rest ≡ some later
    → Found lead rest later
unfolding round lead_of sequence is_scalar
code_of_four lead [] later bytes low high e = absurd (ground arith)
code_of_four lead (a ∷ []) later bytes low high e = absurd (ground arith)
code_of_four lead (a ∷ b ∷ []) later bytes low high e = absurd (ground arith)
code_of_four lead (a ∷ b ∷ d ∷ rest) later bytes low high e =
    let read = round_3 lead a b d rest low high bytes.0 (bytes.1).0 ((bytes.1).1).0 in
    (((lead % 8 * 64 + a % 64) * 64 + b % 64) * 64 + d % 64, ground arith, ground arith)

none_found :
    (lead : ℕ) (rest later : List ℕ)
    → ltb lead 0x80 ≡ false
    → (leb 0xc2 lead && leb lead 0xdf) ≡ false
    → (leb 0xe0 lead && leb lead 0xef) ≡ false
    → (leb 0xf0 lead && leb lead 0xf4) ≡ false
    → round lead rest ≢ some later
unfolding round lead_of
none_found lead rest later above not_two not_three not_four =
    rw (above, not_two, not_three, not_four) (λ e. cc)

found :
    (lead : ℕ) (rest later : List ℕ)
    → IsBytes (lead ∷ rest)
    → round lead rest ≡ some later
    → Found lead rest later
found lead rest later bytes e = elim (Bool-cases (ltb lead 0x80)) [
  | inl ascii ↦ let read = round_0 lead rest (ground arith) in (lead, ground arith, ground arith)
  | inr above ↦ elim (Bool-cases (leb 0xc2 lead && leb lead 0xdf)) [
    | inl two ↦ code_of_two lead rest later bytes.1 (ground arith) (ground arith) e
    | inr not_two ↦ elim (Bool-cases (leb 0xe0 lead && leb lead 0xef)) [
      | inl three ↦ code_of_three lead rest later bytes.1 (ground arith) (ground arith) e
      | inr not_three ↦ elim (Bool-cases (leb 0xf0 lead && leb lead 0xf4)) [
        | inl four ↦ code_of_four lead rest later bytes.1 (ground arith) (ground arith) e
        | inr not_four ↦ absurd (none_found lead rest later above not_two not_three not_four e)
      ]
    ]
  ]
]

-- A text, that is a list of scalar values, with its encoding.
abbrev Decodes : List ℕ → Type 0
Decodes bytes = (cs : List ℕ) × All IsScalar cs × (bytes ≡ encode_text cs)

IsBytes-right : (xs ys : List ℕ) → IsBytes (xs ++ ys) → IsBytes ys
IsBytes-right [] ys h = h
IsBytes-right (x ∷ xs) ys h = IsBytes-right xs ys h.1

decodes :
    (fuel : ℕ) (bytes : List ℕ) → IsBytes bytes → utf8_rounds fuel bytes ≡ true → Decodes bytes
unfolding utf8_rounds
decodes fuel [] are e = ([], _, refl)
decodes zero (lead ∷ rest) are e = cc
decodes (suc fuel) (lead ∷ rest) are e = elim (Option-cases (round lead rest)) [
  | inl stops ↦ absurd (ground (arith, stops))
  | inr (later, reads) ↦
      let (c, scalar, same) = found lead rest later are reads in
      let more : utf8_rounds fuel later ≡ true = ground (arith, reads) in
      let behind = IsBytes-right (encode_scalar c) later (subst IsBytes same are) in
      let (cs, scalars, text) = decodes fuel later behind more in
      (c ∷ cs, (scalar, scalars), same ∙ ap (λ t. encode_scalar c ++ t) text)
]

positive : (c : ℕ) → 1 ≤ length (encode_scalar c)
positive c = ground arith

encoded :
    (fuel : ℕ) (cs : List ℕ)
    → All IsScalar cs
    → length (encode_text cs) ≤ fuel
    → utf8_rounds fuel (encode_text cs) ≡ true
unfolding utf8_rounds
encoded fuel [] scalars enough = refl
encoded zero (c ∷ cs) scalars enough =
    absurd (omega (arith, positive c, length-append (encode_scalar c) (encode_text cs)))
encoded (suc fuel) (c ∷ cs) scalars enough =
    let (lead, rest, same, read) = reads c (encode_text cs) scalars.0 in
    let fits : length (encode_text cs) ≤ fuel =
      omega (arith, positive c, length-append (encode_scalar c) (encode_text cs)) in
    let more = encoded fuel cs scalars.1 fits in rw same (rw (read, utf8_rounds) more)

-- On bytes, `utf8_valid` says yes exactly to the texts that are the UTF-8 encoding of some Unicode
-- scalar values.
pub utf8_valid_iff :
    (bytes : List ℕ)
    → IsBytes bytes
    → (utf8_valid bytes ≡ true) ↔ ((cs : List ℕ) × All IsScalar cs × (bytes ≡ encode_text cs))
unfolding utf8_valid
utf8_valid_iff bytes are = (
  decodes (length bytes) bytes are,
  λ text. rw (text.2) (encoded (length (encode_text text.0)) text.0 text.1 (omega arith)),
)
