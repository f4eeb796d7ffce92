-- ===== src/Coproc/Services/Utf8.antt =====
-- `utf8_valid` of coproc-core/src/coproc_kv.c. A text is the list of its `size` bytes.
pub mod Encode
pub mod Bytes
pub mod Rounds
pub mod Accepts
use wl_hosted_core.Prelude.{
  ℕ, zero, suc, ◌≤◌, Bool, true, false, not, ◌&&◌, List, [], ◌∷◌, Option, none, some, ltb, leb,
  ◌==◌, ◌!=◌, if◌then◌else◌, length, bit_and, bit_or,
}
use wl_hosted_core.Prelude.Word.{u32, ◌<<<◌}

-- `extra` and the first bits of `code_point`, by the lead byte; `none` where it starts nothing.
unfoldable pub lead_of : ℕ → Option (ℕ × ℕ)
lead_of lead =
    if leb 0xc2 lead && leb lead 0xdf
    then some (1, bit_and lead 0x1f)
    else if leb 0xe0 lead && leb lead 0xef
    then some (2, bit_and lead 0x0f)
    else if leb 0xf0 lead && leb lead 0xf4
    then some (3, bit_and lead 0x07)
    else none

-- The loop over the continuation bytes: the code point and the bytes behind.
unfoldable pub continuation : ℕ → ℕ → List ℕ → Option (ℕ × List ℕ)
continuation zero code_point rest = some (code_point, rest)
continuation (suc extra) code_point [] = none
continuation (suc extra) code_point (byte ∷ rest) =
    let later = continuation extra (bit_or (u32 (code_point <<< 6)) (bit_and byte 0x3f)) rest in
    if bit_and byte 0xc0 != 0x80 then none else later

-- The tests behind the loop.
unfoldable pub is_scalar : ℕ → ℕ → Bool
is_scalar extra code_point =
    if extra == 2 && ltb code_point 0x800
    then false
    else if extra == 3 && ltb code_point 0x10000
    then false
    else if ltb 0x10ffff code_point
    then false
    else if leb 0xd800 code_point && leb code_point 0xdfff
    then false
    else true

-- A sequence of more than one byte: the bytes behind it.
unfoldable pub sequence : ℕ → ℕ → List ℕ → Option (List ℕ)
sequence extra code_point rest =
    if leb (suc (length rest)) extra then none else elim (continuation extra code_point rest) [
      | none ↦ none
      | some (c, later) ↦ if is_scalar extra c then some later else none
    ]

-- One round of the loop, on the byte `lead` and the bytes behind it; `none` is `return false`.
unfoldable pub round : ℕ → List ℕ → Option (List ℕ)
round lead rest = if ltb lead 0x80 then some rest else elim (lead_of lead) [
  | none ↦ none
  | some (extra, code_point) ↦ sequence extra code_point rest
]

-- With fuel for a round for each byte.
unfoldable pub utf8_rounds : ℕ → List ℕ → Bool
utf8_rounds fuel [] = true
utf8_rounds zero (lead ∷ rest) = false
utf8_rounds (suc fuel) (lead ∷ rest) = elim (round lead rest) [
  | none ↦ false
  | some later ↦ utf8_rounds fuel later
]

unfoldable pub utf8_valid : List ℕ → Bool
utf8_valid text = utf8_rounds (length text) text
