-- ===== src/Protocol/Frame.antt =====
-- Frames: `wlh_frame_header_t` with `wlh_frame_header_validate`, `wlh_frame_header_init`,
-- `wlh_frame_encode`, `wlh_frame_decode` and `wlh_frame_validate` of protocol/src/wire.c.
-- Pointers that only receive results are the results of the functions.
pub mod Header
pub mod Roundtrip
pub mod Canonical
pub mod Corrupt
use wl_hosted_core.Prelude.{
  ℕ, ◌+◌, Bool, true, false, ◌||◌, List, [], ◌∷◌, ◌++◌, Option, none, some,
}
use wl_hosted_core.Prelude.{bit_and, length, take, drop, ltb, ◌!=◌, if◌then◌else◌}
use wl_hosted_core.Prelude.Word.{u16}
use wl_hosted_core.Protocol.Result.{WireResult, Wire, accept, reject, ◌>>=◌, ◌>>◌, fail_if, check}
use wl_hosted_core.Protocol.Result.{Span, null, bytes, span_bytes, is_missing}
use wl_hosted_core.Protocol.Ids.{
  frame_magic, protocol_major, frame_header_size, frame_max_payload, frame_max_size,
}
use wl_hosted_core.Protocol.Endian.{
  byte_at, read_u16_le_unchecked, read_u32_le_unchecked, write_u16_le_unchecked,
  write_u32_le_unchecked,
}
use wl_hosted_core.Protocol.Checksum.{frame_checksum}

pub record FrameHeader : Type 0 where
  pub magic : ℕ
  pub protocol_major : ℕ
  pub header_size : ℕ
  pub channel : ℕ
  pub flags : ℕ
  pub payload_size : ℕ
  pub session_id : ℕ
  pub sequence : ℕ
  pub header_checksum : ℕ
  pub payload_checksum : ℕ

-- `(uint8_t)~WLH_FRAME_FLAGS_MASK`
abbrev pub frame_flags_reserved : ℕ
frame_flags_reserved = 0xfc

unfoldable pub frame_header_validate : Option FrameHeader → WireResult
frame_header_validate none = WireResult.invalid_argument
frame_header_validate (some h) =
    if h.magic != frame_magic
    then WireResult.invalid_magic
    else if h.protocol_major != protocol_major
    then WireResult.unsupported_version
    else if h.header_size != frame_header_size
    then WireResult.invalid_header_size
    else if bit_and h.flags frame_flags_reserved != 0
    then WireResult.invalid_flags
    else WireResult.ok

-- What the pointed-to header is afterwards; a NULL header is left alone.
unfoldable pub frame_header_init : ℕ → FrameHeader
frame_header_init channel = record {
  magic = frame_magic;
  protocol_major = protocol_major;
  header_size = frame_header_size;
  channel = channel;
  flags = 0;
  payload_size = 0;
  session_id = 0;
  sequence = 0;
  header_checksum = 0;
  payload_checksum = 0;
}

-- The 24 bytes that `wlh_frame_encode` writes from `output` on, in the order of their offsets, with
-- the given checksum fields.
unfoldable pub header_bytes : FrameHeader → ℕ → ℕ → ℕ → List ℕ
header_bytes h payload_size header_checksum payload_checksum =
    write_u16_le_unchecked h.magic
    ++ ((h.protocol_major ∷ h.header_size ∷ h.channel ∷ h.flags ∷ [])
        ++ (write_u16_le_unchecked (u16 payload_size)
            ++ (write_u32_le_unchecked h.session_id
                ++ (write_u32_le_unchecked h.sequence
                    ++ (write_u32_le_unchecked header_checksum
                        ++ write_u32_le_unchecked payload_checksum)))))

-- `write_u32_le_unchecked(output + 16, value)`
unfoldable pub patch_checksum : List ℕ → ℕ → List ℕ
patch_checksum output value = take 16 output ++ (write_u32_le_unchecked value ++ drop 20 output)

-- The bytes of `output[0..*output_size)`. The payload is moved out of the way before the header is
-- written, so an overlap of the two does not change what is encoded.
unfoldable pub frame_encode : Option FrameHeader → Span → ℕ → Wire (List ℕ)
unfolding patch_checksum
frame_encode none payload output_capacity = reject WireResult.invalid_argument
frame_encode (some h) payload output_capacity = do
  fail_if (is_missing payload) WireResult.invalid_argument
  let body = span_bytes payload
  check (frame_header_validate (some h))
  fail_if (ltb frame_max_payload (length body)) WireResult.invalid_length
  fail_if (ltb output_capacity (frame_header_size + length body)) WireResult.buffer_too_small
  let output = header_bytes h (length body) 0 (frame_checksum body h.flags)
  accept (patch_checksum output (frame_checksum output h.flags) ++ body)

-- The reads of `wlh_frame_decode`, at the offsets of the fields.
unfoldable pub read_header : List ℕ → FrameHeader
read_header frame = record {
  magic = read_u16_le_unchecked frame;
  protocol_major = byte_at frame 2;
  header_size = byte_at frame 3;
  channel = byte_at frame 4;
  flags = byte_at frame 5;
  payload_size = read_u16_le_unchecked (drop 6 frame);
  session_id = read_u32_le_unchecked (drop 8 frame);
  sequence = read_u32_le_unchecked (drop 12 frame);
  header_checksum = read_u32_le_unchecked (drop 16 frame);
  payload_checksum = read_u32_le_unchecked (drop 20 frame);
}

-- The header and the payload, which points into the frame.
unfoldable pub frame_decode : Span → ℕ → Wire (FrameHeader × List ℕ)
unfolding patch_checksum
frame_decode (null n) negotiated_max_frame_size = reject WireResult.invalid_argument
frame_decode (bytes frame) negotiated_max_frame_size = do
  fail_if
      (ltb negotiated_max_frame_size frame_header_size
        || ltb frame_max_size negotiated_max_frame_size)
      WireResult.invalid_argument
  fail_if (ltb (length frame) frame_header_size) WireResult.truncated
  fail_if (ltb negotiated_max_frame_size (length frame)) WireResult.invalid_length
  let h = read_header frame
  check (frame_header_validate (some h))
  let expected_size = frame_header_size + h.payload_size
  fail_if (ltb negotiated_max_frame_size expected_size) WireResult.invalid_length
  fail_if (ltb (length frame) expected_size) WireResult.truncated
  fail_if (length frame != expected_size) WireResult.invalid_length
  let checksum_header = patch_checksum (take frame_header_size frame) 0
  fail_if (h.header_checksum != frame_checksum checksum_header h.flags) WireResult.checksum_mismatch
  let payload = take h.payload_size (drop frame_header_size frame)
  fail_if (h.payload_checksum != frame_checksum payload h.flags) WireResult.checksum_mismatch
  accept (h, payload)

unfoldable pub frame_validate : Span → ℕ → WireResult
unfolding frame_decode
frame_validate frame negotiated_max_frame_size =
    elim (frame_decode frame negotiated_max_frame_size) [ accept _ ↦ WireResult.ok | reject e ↦ e ]
