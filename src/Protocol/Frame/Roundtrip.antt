-- ===== src/Protocol/Frame/Roundtrip.antt =====
-- `wlh_frame_decode` accepts exactly the well-formed frames, and undoes `wlh_frame_encode`.
use wl_hosted_core.Prelude.{
  ℕ, ◌+◌, ◌≤◌, ◌≡◌, refl, ap, ap₂, ◌∙◌, arith, List, ◌++◌, some, ltb-false,
}
use wl_hosted_core.Prelude.{
  subst, length, take, drop, length-append, take-append, drop-append, take-length,
}
use wl_hosted_core.Protocol.Result.{WireResult, accept, bytes}
use wl_hosted_core.Protocol.Ids.{frame_header_size, frame_max_size, frame_max_payload}
use wl_hosted_core.Protocol.Checksum.{frame_checksum}
use wl_hosted_core.Protocol.Checksum.Sum.{frame_checksum-lt}
use wl_hosted_core.Protocol.Frame.{
  FrameHeader, frame_header_validate, header_bytes, patch_checksum, read_header, frame_encode,
  frame_decode,
}
use wl_hosted_core.Protocol.Frame.Header.{
  InRange, sealed, read_header-header_bytes, patch-header_bytes, length-header_bytes,
}

abbrev pub payload_of : List ℕ → List ℕ
payload_of f = take (read_header f).payload_size (drop 24 f)

-- What a receiver with the negotiated size `m` takes for a frame.
pub record IsFrame (f : List ℕ) (m : ℕ) : Type 0 where
  pub limit_least : frame_header_size ≤ m
  pub limit_most : m ≤ frame_max_size
  pub valid : frame_header_validate (some (read_header f)) ≡ WireResult.ok
  pub size : length f ≡ frame_header_size + (read_header f).payload_size
  pub fits : length f ≤ m
  pub header_sum :
      (read_header f).header_checksum
      ≡ frame_checksum (patch_checksum (take 24 f) 0) (read_header f).flags
  pub payload_sum :
      (read_header f).payload_checksum ≡ frame_checksum (payload_of f) (read_header f).flags

pub frame_decode_of_IsFrame :
    (f : List ℕ) (m : ℕ)
    → IsFrame f m
    → frame_decode (bytes f) m ≡ accept (read_header f, payload_of f)
unfolding frame_decode
frame_decode_of_IsFrame f m w = ground arith

pub IsFrame-frame_decode :
    (f : List ℕ) (m : ℕ) (h : FrameHeader) (p : List ℕ)
    → frame_decode (bytes f) m ≡ accept (h, p)
    → IsFrame f m × (h ≡ read_header f) × (p ≡ payload_of f)
unfolding frame_decode
IsFrame-frame_decode f m h p e = ground arith

-- The checksums that `wlh_frame_encode` stores, and the frame that it makes.
abbrev pub payload_sum_of : FrameHeader → List ℕ → ℕ
payload_sum_of h p = frame_checksum p h.flags

abbrev pub header_sum_of : FrameHeader → List ℕ → ℕ
header_sum_of h p = frame_checksum (header_bytes h (length p) 0 (payload_sum_of h p)) h.flags

abbrev pub encoding : FrameHeader → List ℕ → List ℕ
encoding h p = header_bytes h (length p) (header_sum_of h p) (payload_sum_of h p) ++ p

abbrev pub sent : FrameHeader → List ℕ → FrameHeader
sent h p = sealed h (length p) (header_sum_of h p) (payload_sum_of h p)

pub frame_encode_accepts :
    (h : FrameHeader) (p : List ℕ) (capacity : ℕ)
    → frame_header_validate (some h) ≡ WireResult.ok
    → length p ≤ frame_max_payload
    → frame_header_size + length p ≤ capacity
    → frame_encode (some h) (bytes p) capacity ≡ accept (encoding h p)
unfolding frame_encode
frame_encode_accepts h p capacity v n c =
    rw
      (
        v,
        ltb-false frame_max_payload (length p) n,
        ltb-false capacity (frame_header_size + length p) c,
      )
      (ap (λ (o : List ℕ). accept (o ++ p))
        (patch-header_bytes h (length p) 0 (header_sum_of h p) (payload_sum_of h p)))

-- A frame that carries the payload `q` behind the header of a frame for `p`.
abbrev pub framed : FrameHeader → List ℕ → List ℕ → List ℕ
framed h p q = header_bytes h (length p) (header_sum_of h p) (payload_sum_of h p) ++ q

module _ (h : FrameHeader) (p q : List ℕ) (same : length q ≡ length p) where
  pub read_header-framed :
      InRange h → length p ≤ frame_max_payload → read_header (framed h p q) ≡ sent h p
  read_header-framed r n =
      read_header-header_bytes h (length p) (header_sum_of h p) (payload_sum_of h p) q r
        (omega arith) (frame_checksum-lt (header_bytes h (length p) 0 (payload_sum_of h p)) h.flags)
        (frame_checksum-lt p h.flags)

  size_24 : length (header_bytes h (length p) (header_sum_of h p) (payload_sum_of h p)) ≡ 24
  size_24 = length-header_bytes h (length p) (header_sum_of h p) (payload_sum_of h p)

  drop-framed : drop 24 (framed h p q) ≡ q
  drop-framed =
      subst (λ (k : ℕ). drop k (framed h p q) ≡ q) size_24
        (drop-append (header_bytes h (length p) (header_sum_of h p) (payload_sum_of h p)) q)

  take-framed :
      take 24 (framed h p q) ≡ header_bytes h (length p) (header_sum_of h p) (payload_sum_of h p)
  take-framed =
      subst
        (λ (k : ℕ).
          take k (framed h p q)
          ≡ header_bytes h (length p) (header_sum_of h p) (payload_sum_of h p))
        size_24 (take-append (header_bytes h (length p) (header_sum_of h p) (payload_sum_of h p)) q)

  pub length-framed : length (framed h p q) ≡ 24 + length p
  length-framed = omega (
    arith,
    length-append (header_bytes h (length p) (header_sum_of h p) (payload_sum_of h p)) q,
    size_24,
    same,
  )

  pub payload_of-framed : InRange h → length p ≤ frame_max_payload → payload_of (framed h p q) ≡ q
  payload_of-framed r n = rw (read_header-framed r n, drop-framed, ← same) (take-length q)

  pub header_sum-framed :
      InRange h
      → length p ≤ frame_max_payload
      → (read_header (framed h p q)).header_checksum
        ≡ frame_checksum
            (patch_checksum (take 24 (framed h p q)) 0)
            (read_header (framed h p q)).flags
  header_sum-framed r n =
      rw
        (
          read_header-framed r n,
          take-framed,
          patch-header_bytes h (length p) (header_sum_of h p) 0 (payload_sum_of h p),
        )
        refl

encoding-IsFrame :
    (h : FrameHeader) (p : List ℕ) (m : ℕ)
    → frame_header_validate (some h) ≡ WireResult.ok
    → InRange h
    → length p ≤ frame_max_payload
    → frame_header_size + length p ≤ m
    → m ≤ frame_max_size
    → IsFrame (encoding h p) m
encoding-IsFrame h p m v r n lo hi = record {
  limit_least = omega arith;
  limit_most = hi;
  valid = rw (read_header-framed h p p refl r n) (unfold frame_header_validate in v);
  size = rw (read_header-framed h p p refl r n) (length-framed h p p refl);
  fits = omega (arith, length-framed h p p refl);
  header_sum = header_sum-framed h p p refl r n;
  payload_sum = rw (payload_of-framed h p p refl r n, read_header-framed h p p refl r n) refl;
}

-- Round trip: a valid header whose fields fit their types, with a payload that the length field and
-- the buffer hold, is encoded, and a receiver whose negotiated size admits the frame decodes it to
-- the same payload and the same header, with the size and checksums filled in.
pub frame_decode-frame_encode :
    (h : FrameHeader) (p : List ℕ) (capacity m : ℕ)
    → frame_header_validate (some h) ≡ WireResult.ok
    → InRange h
    → length p ≤ frame_max_payload
    → frame_header_size + length p ≤ capacity
    → frame_header_size + length p ≤ m
    → m ≤ frame_max_size
    → (f : List ℕ) × (frame_encode (some h) (bytes p) capacity ≡ accept f)
      × (frame_decode (bytes f) m ≡ accept (sent h p, p))
frame_decode-frame_encode h p capacity m v r n c lo hi = (
  encoding h p,
  frame_encode_accepts h p capacity v n c,
  frame_decode_of_IsFrame (encoding h p) m (encoding-IsFrame h p m v r n lo hi)
      ∙ ap₂ (λ (a : FrameHeader) (b : List ℕ). accept (a, b)) (read_header-framed h p p refl r n)
          (payload_of-framed h p p refl r n),
)
