-- ===== src/Protocol/Frame/Header.antt =====
-- The 24 header bytes: reading gives the fields back, and writing gives the bytes back.
use wl_hosted_core.Prelude.{ℕ, ◌^◌, ◌<◌, ◌≤◌, ◌≡◌, refl, sym, ap, ◌∙◌, arith, List, [], ◌∷◌, ◌++◌}
use wl_hosted_core.Prelude.{
  length, take, drop, take-add, drop-drop, get_or-drop, length-drop, All-drop,
}
use wl_hosted_core.Prelude.Word.{IsBytes, u16}
use wl_hosted_core.Protocol.Endian.{
  byte_at, read_u32_le_unchecked, write_u32_le_unchecked, read_u16_le_unchecked,
  write_u16_le_unchecked,
}
use wl_hosted_core.Protocol.Endian.Laws.{
  read_u16-write_u16, read_u32-write_u32, write_u16-read_u16_take, write_u32-read_u32_take,
  four_bytes, read_u16_take_lt,
}
use wl_hosted_core.Protocol.Frame.{FrameHeader, header_bytes, patch_checksum, read_header}

-- The fields of a header that its validation does not bound are in the range of their C types.
pub record InRange (h : FrameHeader) : Type 0 where
  pub magic_lt : h.magic < 2 ^ 16
  pub channel_lt : h.channel < 256
  pub flags_lt : h.flags < 256
  pub session_lt : h.session_id < 2 ^ 32
  pub sequence_lt : h.sequence < 2 ^ 32

-- The header with what `wlh_frame_encode` computes filled in.
abbrev pub sealed : FrameHeader → ℕ → ℕ → ℕ → FrameHeader
sealed h n hc pc = record h { payload_size = n; header_checksum = hc; payload_checksum = pc }

pub read_header-header_bytes :
    (h : FrameHeader) (n hc pc : ℕ) (p : List ℕ)
    → InRange h
    → n < 2 ^ 16
    → hc < 2 ^ 32
    → pc < 2 ^ 32
    → read_header (header_bytes h n hc pc ++ p) ≡ sealed h n hc pc
unfolding read_header header_bytes
read_header-header_bytes h n hc pc p r hn hhc hpc = λ i. record {
  magic = read_u16-write_u16 h.magic (drop 2 all) r.magic_lt i;
  protocol_major = h.protocol_major;
  header_size = h.header_size;
  channel = h.channel;
  flags = h.flags;
  payload_size = size i;
  session_id = read_u32-write_u32 h.session_id (drop 12 all) r.session_lt i;
  sequence = read_u32-write_u32 h.sequence (drop 16 all) r.sequence_lt i;
  header_checksum = read_u32-write_u32 hc (drop 20 all) hhc i;
  payload_checksum = read_u32-write_u32 pc p hpc i;
}
  where
    all : List ℕ
    all = header_bytes h n hc pc ++ p

    size : read_u16_le_unchecked (drop 6 all) ≡ n
    size = omega (arith, read_u16-write_u16 (u16 n) (drop 8 all) (omega arith))

pub patch-header_bytes :
    (h : FrameHeader) (n a b pc : ℕ)
    → patch_checksum (header_bytes h n a pc) b ≡ header_bytes h n b pc
unfolding patch_checksum header_bytes
patch-header_bytes h n a b pc = refl

pub length-header_bytes : (h : FrameHeader) (n hc pc : ℕ) → length (header_bytes h n hc pc) ≡ 24
unfolding header_bytes
length-header_bytes h n hc pc = refl

-- The first 24 bytes, field by field.
take_fields :
    (f : List ℕ)
    → take 24 f
      ≡ take 2 f
        ++ (take 4 (drop 2 f)
            ++ (take 2 (drop 6 f)
                ++ (take 4 (drop 8 f)
                    ++ (take 4 (drop 12 f) ++ (take 4 (drop 16 f) ++ take 4 (drop 20 f))))))
take_fields f =
    rw
      (
        take-add 2 22 f,
        take-add 4 18 (drop 2 f),
        drop-drop 2 4 f,
        take-add 2 16 (drop 6 f),
        drop-drop 6 2 f,
        take-add 4 12 (drop 8 f),
        drop-drop 8 4 f,
        take-add 4 8 (drop 12 f),
        drop-drop 12 4 f,
        take-add 4 4 (drop 16 f),
        drop-drop 16 4 f,
      )
      refl

-- Encoding the fields that were read from 24 bytes gives these bytes again.
pub header_bytes-read_header :
    (f : List ℕ)
    → 24 ≤ length f
    → IsBytes f
    → let h = read_header f in
      header_bytes h h.payload_size h.header_checksum h.payload_checksum ≡ take 24 f
unfolding header_bytes read_header
header_bytes-read_header f long v = joined ∙ sym (take_fields f)
  where
    at : (k : ℕ) → k ≤ 20 → 4 ≤ length (drop k f)
    at k h = omega (arith, length-drop k f)

    b : (k : ℕ) → IsBytes (drop k f)
    b k = All-drop (λ x. x < 256) k f v

    middle : byte_at f 2 ∷ byte_at f 3 ∷ byte_at f 4 ∷ byte_at f 5 ∷ [] ≡ take 4 (drop 2 f)
    middle =
        rw
          (
            ← get_or-drop 2 0 f 0,
            ← get_or-drop 2 1 f 0,
            ← get_or-drop 2 2 f 0,
            ← get_or-drop 2 3 f 0,
          )
          (four_bytes (drop 2 f) (at 2 (omega arith)))

    size : write_u16_le_unchecked (u16 (read_u16_le_unchecked (drop 6 f))) ≡ take 2 (drop 6 f)
    size =
        let fits : u16 (read_u16_le_unchecked (drop 6 f)) ≡ read_u16_le_unchecked (drop 6 f) =
          omega (arith, read_u16_take_lt (drop 6 f) (omega (arith, at 6)) (b 6)) in
        ap write_u16_le_unchecked fits
        ∙ write_u16-read_u16_take (drop 6 f) (omega (arith, at 6)) (b 6)

    word :
        (k : ℕ)
        → k ≤ 20
        → write_u32_le_unchecked (read_u32_le_unchecked (drop k f)) ≡ take 4 (drop k f)
    word k h = write_u32-read_u32_take (drop k f) (at k h) (b k)

    joined :
        header_bytes
          (read_header f)
          (read_header f).payload_size
          (read_header f).header_checksum
          (read_header f).payload_checksum
        ≡ take 2 f
          ++ (take 4 (drop 2 f)
              ++ (take 2 (drop 6 f)
                  ++ (take 4 (drop 8 f)
                      ++ (take 4 (drop 12 f) ++ (take 4 (drop 16 f) ++ take 4 (drop 20 f))))))
    joined = λ i.
        write_u16-read_u16_take f (omega arith) v i
        ++ (middle i
            ++ (size i
                ++ (word 8 (omega arith) i
                    ++ (word 12 (omega arith) i
                        ++ (word 16 (omega arith) i ++ word 20 (omega arith) i)))))
