-- ===== src/Protocol/Checksum.antt =====
-- `wlh_sum32`, `wlh_crc32c` and `frame_checksum` of protocol/src/wire.c. A `uint32_t` is a number
-- below 2 ^ 32.
pub mod Sum
use wl_hosted_core.Prelude.{
  ℕ, zero, suc, ◌+◌, ◌-◌, ◌%◌, ◌^◌, List, [], ◌∷◌, bit_and, bit_or, bit_xor,
}
use wl_hosted_core.Prelude.{◌!=◌, if◌then◌else◌}
use wl_hosted_core.Prelude.Word.{u32, ◌<<<◌, ◌>>>◌}
use wl_hosted_core.Protocol.Result.{Span, null, bytes}
use wl_hosted_core.Protocol.Endian.{read_u32_le_unchecked}

-- The last one to three bytes, `tail |= data[i] << shift` from `shift` on.
unfoldable pub sum32_tail : ℕ → ℕ → List ℕ → ℕ
sum32_tail tail shift [] = tail
sum32_tail tail shift (b ∷ rest) = sum32_tail (bit_or tail (b <<< shift)) (shift + 8) rest

-- The loop over whole words, then the tail where bytes are left.
unfoldable pub sum32_words : ℕ → List ℕ → ℕ
sum32_words sum (a ∷ b ∷ c ∷ d ∷ rest) =
    sum32_words (u32 (sum + read_u32_le_unchecked (a ∷ b ∷ c ∷ d ∷ []))) rest
sum32_words sum [] = sum
sum32_words sum (a ∷ []) = u32 (sum + sum32_tail 0 0 (a ∷ []))
sum32_words sum (a ∷ b ∷ []) = u32 (sum + sum32_tail 0 0 (a ∷ b ∷ []))
sum32_words sum (a ∷ b ∷ c ∷ []) = u32 (sum + sum32_tail 0 0 (a ∷ b ∷ c ∷ []))

-- A NULL span gives 0, whatever its size.
unfoldable pub sum32 : Span → ℕ
unfolding sum32_words sum32_tail
sum32 (null n) = 0
sum32 (bytes data') = sum32_words 0 data'

-- One round of the inner loop; `mask` is all ones where the low bit is set.
crc32c_bit : ℕ → ℕ
crc32c_bit crc =
    let mask = (2 ^ 32 - bit_and crc 1) % 2 ^ 32 in bit_xor (crc >>> 1) (bit_and 0x82f63b78 mask)

crc32c_bits : ℕ → ℕ → ℕ
unfolding crc32c_bit
crc32c_bits zero crc = crc
crc32c_bits (suc n) crc = crc32c_bits n (crc32c_bit crc)

crc32c_bytes : ℕ → List ℕ → ℕ
unfolding crc32c_bits
crc32c_bytes crc [] = crc
crc32c_bytes crc (b ∷ rest) = crc32c_bytes (crc32c_bits 8 (bit_xor crc b)) rest

-- `~crc` of a `uint32_t`. A NULL span of size 0 runs no round: `~0xffffffff` is 0 too.
unfoldable pub crc32c : Span → ℕ
unfolding crc32c_bytes
crc32c (null n) = 0
crc32c (bytes data') = 0xffff_ffff - crc32c_bytes 0xffff_ffff data'

abbrev pub flag_crc32c_present : ℕ
flag_crc32c_present = 0x01

unfoldable pub frame_checksum : List ℕ → ℕ → ℕ
frame_checksum data' flags =
    if bit_and flags flag_crc32c_present != 0 then crc32c (bytes data') else sum32 (bytes data')
