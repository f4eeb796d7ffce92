-- ===== src/Protocol/Frame/Corrupt.antt =====
-- A payload byte that changes on the way is noticed.
use wl_hosted_core.Prelude.{ℕ, ◌+◌, ◌<◌, ◌≤◌, ◌≡◌, ◌≢◌, arith, List, ◌∷◌, ◌++◌, some, bit_and}
use wl_hosted_core.Prelude.{length, length-append}
use wl_hosted_core.Prelude.Word.{IsBytes}
use wl_hosted_core.Protocol.Result.{WireResult, reject, bytes}
use wl_hosted_core.Protocol.Ids.{frame_header_size, frame_max_size, frame_max_payload}
use wl_hosted_core.Protocol.Checksum.{frame_checksum, flag_crc32c_present}
use wl_hosted_core.Protocol.Checksum.Sum.{sum32-ne}
use wl_hosted_core.Protocol.Frame.{FrameHeader, frame_header_validate, read_header, frame_decode}
use wl_hosted_core.Protocol.Frame.Header.{InRange}
use wl_hosted_core.Protocol.Frame.Roundtrip.{
  payload_of, framed, sent, read_header-framed, length-framed, payload_of-framed,
}

-- Everything is right but the payload's checksum.
decode_mismatch :
    (f : List ℕ) (m : ℕ)
    → frame_header_size ≤ m
    → m ≤ frame_max_size
    → frame_header_validate (some (read_header f)) ≡ WireResult.ok
    → length f ≡ frame_header_size + (read_header f).payload_size
    → length f ≤ m
    → (read_header f).payload_checksum ≢ frame_checksum (payload_of f) (read_header f).flags
    → frame_decode (bytes f) m ≡ reject WireResult.checksum_mismatch
unfolding frame_decode
decode_mismatch f m lo hi v n fits ne = ground arith

-- Two payloads that differ in the byte between `before` and `after`.
module _ (h : FrameHeader) (before after : List ℕ) (b c : ℕ) where
  abbrev pub original : List ℕ
  original = before ++ b ∷ after

  abbrev pub altered : List ℕ
  altered = before ++ c ∷ after

  same_length : length altered ≡ length original
  same_length = omega (arith, length-append before (b ∷ after), length-append before (c ∷ after))

  -- Without the CRC flag the additive checksum tells the two apart.
  checksum-ne :
      bit_and h.flags flag_crc32c_present ≡ 0
      → IsBytes original
      → IsBytes altered
      → b < 256
      → c < 256
      → b ≢ c
      → frame_checksum original h.flags ≢ frame_checksum altered h.flags
  unfolding frame_checksum
  checksum-ne off vb vc lb lc ne = rw off (sum32-ne b c before after vb vc lb lc ne)

-- A frame that `wlh_frame_encode` made with the additive checksum, in which one payload byte is
-- replaced by another, is refused with WLH_WIRE_CHECKSUM_MISMATCH by every receiver whose
-- negotiated size admits it.
pub frame_decode-altered :
    (h : FrameHeader) (before after : List ℕ) (b c m : ℕ)
    → frame_header_validate (some h) ≡ WireResult.ok
    → InRange h
    → bit_and h.flags flag_crc32c_present ≡ 0
    → IsBytes (original h before after b c)
    → IsBytes (altered h before after b c)
    → b < 256
    → c < 256
    → b ≢ c
    → length (original h before after b c) ≤ frame_max_payload
    → frame_header_size + length (original h before after b c) ≤ m
    → m ≤ frame_max_size
    → frame_decode (bytes (framed h (original h before after b c) (altered h before after b c))) m
      ≡ reject WireResult.checksum_mismatch
frame_decode-altered h before after b c m v r off vb vc lb lc ne n lo hi =
    decode_mismatch (framed h p q) m (omega arith) hi
      (rw fields (unfold frame_header_validate in v)) (rw fields (length-framed h p q same))
      (omega (arith, length-framed h p q same))
      (rw (payload_of-framed h p q same r n, fields)
        (checksum-ne h before after b c off vb vc lb lc ne))
  where
    p : List ℕ
    p = original h before after b c

    q : List ℕ
    q = altered h before after b c

    same : length q ≡ length p
    same = same_length h before after b c

    fields : read_header (framed h p q) ≡ sent h p
    fields = read_header-framed h p q same r n
