-- ===== src/Protocol/Frame/Canonical.antt =====
-- A frame has one encoding: what `wlh_frame_decode` accepts, `wlh_frame_encode` makes again.
use wl_hosted_core.Prelude.{ℕ, ◌≤◌, ◌≡◌, sym, ap, ◌∙◌, arith, List, some}
use wl_hosted_core.Prelude.{length, take, drop, take-length, length-drop, take-append-drop}
use wl_hosted_core.Prelude.Word.{IsBytes}
use wl_hosted_core.Protocol.Result.{accept, bytes}
use wl_hosted_core.Protocol.Frame.{
  FrameHeader, header_bytes, read_header, frame_encode, frame_decode,
}
use wl_hosted_core.Protocol.Frame.Header.{patch-header_bytes, header_bytes-read_header}
use wl_hosted_core.Protocol.Frame.Roundtrip.{
  IsFrame, payload_of, IsFrame-frame_decode, frame_encode_accepts, encoding, header_sum_of,
  payload_sum_of,
}

module _ (f : List ℕ) (m : ℕ) (w : IsFrame f m) (v : IsBytes f) where
  payload_is_rest : payload_of f ≡ drop 24 f
  payload_is_rest =
      let e : (read_header f).payload_size ≡ length (drop 24 f) =
        omega (arith, w.size, length-drop 24 f) in
      ap (λ (k : ℕ). take k (drop 24 f)) e ∙ take-length (drop 24 f)

  pub length-payload_of : length (payload_of f) ≡ (read_header f).payload_size
  length-payload_of = rw payload_is_rest (omega (arith, w.size, length-drop 24 f))

  header_again :
      header_bytes
        (read_header f)
        (length (payload_of f))
        (read_header f).header_checksum
        (read_header f).payload_checksum
      ≡ take 24 f
  header_again = rw length-payload_of (header_bytes-read_header f (omega (arith, w.size)) v)

  pub payload_sum_again :
      payload_sum_of (read_header f) (payload_of f) ≡ (read_header f).payload_checksum
  payload_sum_again = sym w.payload_sum

  pub header_sum_again :
      header_sum_of (read_header f) (payload_of f) ≡ (read_header f).header_checksum
  header_sum_again =
      rw
        (
          payload_sum_again,
          ← patch-header_bytes (read_header f) (length (payload_of f))
              (read_header f).header_checksum 0 (read_header f).payload_checksum,
          header_again,
        )
        (sym w.header_sum)

  pub encoding_again : encoding (read_header f) (payload_of f) ≡ f
  encoding_again =
      rw (header_sum_again, payload_sum_again, header_again, payload_is_rest)
        (take-append-drop 24 f)

-- Whatever bytes `wlh_frame_decode` accepts as a header and a payload, `wlh_frame_encode` of these
-- two into a buffer that holds the frame accepts, and gives exactly those bytes.
pub frame_encode-frame_decode :
    (f : List ℕ) (m capacity : ℕ) (h : FrameHeader) (p : List ℕ)
    → IsBytes f
    → frame_decode (bytes f) m ≡ accept (h, p)
    → length f ≤ capacity
    → frame_encode (some h) (bytes p) capacity ≡ accept f
frame_encode-frame_decode f m capacity h p v e c =
    let (w, eh, ep) = IsFrame-frame_decode f m h p e in
    let n : length (payload_of f) ≡ (read_header f).payload_size = length-payload_of f m w v in
    rw (eh, ep)
      (frame_encode_accepts (read_header f) (payload_of f) capacity (w.valid) (omega (arith, n))
          (omega (arith, n))
        ∙ ap accept (encoding_again f m w v))
