-- ===== src/Protocol/Rpc/Roundtrip.antt =====
-- `wlh_rpc_decode` accepts exactly the well-formed messages, and `wlh_rpc_encode` is its inverse.
use wl_hosted_core.Prelude.{
  ℕ, ◌+◌, ◌≤◌, ◌≡◌, ◌≢◌, ◌↔◌, ◌⊎◌, ap, ap₂, subst, ◌∙◌, arith, List, ◌++◌, some, ltb-false, bit_and,
}
use wl_hosted_core.Prelude.{
  length, take, drop, length-append, drop-append, take-length, length-drop, take-append-drop,
}
use wl_hosted_core.Prelude.Word.{IsBytes, pos, u16_max}
use wl_hosted_core.Protocol.Result.{WireResult, accept, bytes}
use wl_hosted_core.Protocol.Ids.{rpc_envelope_size}
use wl_hosted_core.Protocol.Rpc.{
  RpcEnvelope, kind_request, kind_response, kind_event, rpc_flags_reserved, rpc_envelope_validate,
  envelope_bytes, read_envelope, rpc_encode, rpc_decode,
}
use wl_hosted_core.Protocol.Rpc.Envelope.{
  InRange, read_envelope-envelope_bytes, length-envelope_bytes, envelope_bytes-read_envelope,
}

-- The envelopes that the protocol allows.
pub record IsEnvelope (e : RpcEnvelope) : Type 0 where
  pub service : e.service_id ≢ 0
  pub method : e.method_id ≢ 0
  pub kind : (e.kind ≡ kind_request) ⊎ (e.kind ≡ kind_response) ⊎ (e.kind ≡ kind_event)
  pub flags : bit_and e.flags rpc_flags_reserved ≡ 0
  pub request : (e.kind ≡ kind_event) ⊎ (e.request_id ≢ 0)
  pub asks : e.kind ≡ kind_request → (e.status_domain ≡ 0) × (e.status_code ≡ pos 0)
  pub status : (e.status_code ≡ pos 0) ↔ (e.status_domain ≡ 0)

validate→IsEnvelope :
    (e : RpcEnvelope) → rpc_envelope_validate (some e) ≡ WireResult.ok → IsEnvelope e
unfolding rpc_envelope_validate
validate→IsEnvelope e h = ground arith

IsEnvelope→validate :
    (e : RpcEnvelope) → IsEnvelope e → rpc_envelope_validate (some e) ≡ WireResult.ok
unfolding rpc_envelope_validate
IsEnvelope→validate e w = ground arith

-- `wlh_rpc_envelope_validate` returns WLH_WIRE_OK exactly for the envelopes with a service and a
-- method, a known kind, no reserved flag, a request id unless they are events, no status where they
-- are requests, and a status domain exactly where the status code is not OK.
pub rpc_envelope_validate_iff :
    (e : RpcEnvelope) → (rpc_envelope_validate (some e) ≡ WireResult.ok) ↔ IsEnvelope e
rpc_envelope_validate_iff e = (validate→IsEnvelope e, IsEnvelope→validate e)

abbrev pub payload_of : List ℕ → List ℕ
payload_of f = take (read_envelope f).payload_size (drop 16 f)

-- What a receiver with the negotiated payload limit `m` takes for a message.
pub record IsMessage (f : List ℕ) (m : ℕ) : Type 0 where
  pub limit : m ≤ u16_max
  pub valid : rpc_envelope_validate (some (read_envelope f)) ≡ WireResult.ok
  pub size : length f ≡ rpc_envelope_size + (read_envelope f).payload_size
  pub fits : (read_envelope f).payload_size ≤ m

rpc_decode_of_IsMessage :
    (f : List ℕ) (m : ℕ)
    → IsMessage f m
    → rpc_decode (bytes f) m ≡ accept (read_envelope f, payload_of f)
unfolding rpc_decode
rpc_decode_of_IsMessage f m w = ground arith

pub IsMessage-rpc_decode :
    (f : List ℕ) (m : ℕ) (e : RpcEnvelope) (p : List ℕ)
    → rpc_decode (bytes f) m ≡ accept (e, p)
    → IsMessage f m × (e ≡ read_envelope f) × (p ≡ payload_of f)
unfolding rpc_decode
IsMessage-rpc_decode f m e p h = ground arith

rpc_encode_accepts :
    (e : RpcEnvelope) (p : List ℕ) (capacity : ℕ)
    → rpc_envelope_validate (some e) ≡ WireResult.ok
    → length p ≤ u16_max
    → rpc_envelope_size + length p ≤ capacity
    → rpc_encode (some e) (bytes p) capacity ≡ accept (envelope_bytes e (length p) ++ p)
unfolding rpc_encode
rpc_encode_accepts e p capacity v n c =
    rw (v, ltb-false u16_max (length p) n, ltb-false capacity (rpc_envelope_size + length p) c)

module _ (e : RpcEnvelope) (p : List ℕ) where
  abbrev encoding : List ℕ
  encoding = envelope_bytes e (length p) ++ p

  drop-encoding : drop 16 encoding ≡ p
  drop-encoding =
      subst (λ (k : ℕ). drop k encoding ≡ p) (length-envelope_bytes e (length p))
        (drop-append (envelope_bytes e (length p)) p)

  length-encoding : length encoding ≡ 16 + length p
  length-encoding =
      omega
        (arith, length-append (envelope_bytes e (length p)) p, length-envelope_bytes e (length p))

  fields :
      InRange e → length p ≤ u16_max → read_envelope encoding ≡ record e { payload_size = length p }
  fields r n = read_envelope-envelope_bytes e (length p) p r (omega arith)

  payload_of-encoding : InRange e → length p ≤ u16_max → payload_of encoding ≡ p
  payload_of-encoding r n = rw (fields r n, drop-encoding) (take-length p)

  encoding-IsMessage :
      (m : ℕ)
      → rpc_envelope_validate (some e) ≡ WireResult.ok
      → InRange e
      → length p ≤ m
      → m ≤ u16_max
      → IsMessage encoding m
  encoding-IsMessage m v r n lim = record {
    limit = lim;
    valid = rw (fields r (omega arith)) (unfold rpc_envelope_validate in v);
    size = rw (fields r (omega arith)) length-encoding;
    fits = rw (fields r (omega arith)) n;
  }

-- Round trip: a valid envelope whose fields fit their types, with a payload that the buffer and the
-- receiver's limit admit, is encoded, and decoded to the same payload and the same envelope with the
-- size filled in.
pub rpc_decode-rpc_encode :
    (e : RpcEnvelope) (p : List ℕ) (capacity m : ℕ)
    → rpc_envelope_validate (some e) ≡ WireResult.ok
    → InRange e
    → rpc_envelope_size + length p ≤ capacity
    → length p ≤ m
    → m ≤ u16_max
    → (f : List ℕ) × (rpc_encode (some e) (bytes p) capacity ≡ accept f)
      × (rpc_decode (bytes f) m ≡ accept (record e { payload_size = length p }, p))
rpc_decode-rpc_encode e p capacity m v r c n lim = (
  encoding e p,
  rpc_encode_accepts e p capacity v (omega arith) c,
  rpc_decode_of_IsMessage (encoding e p) m (encoding-IsMessage e p m v r n lim)
      ∙ ap₂ (λ (a : RpcEnvelope) (b : List ℕ). accept (a, b)) (fields e p r (omega arith))
          (payload_of-encoding e p r (omega arith)),
)

payload_is_rest : (f : List ℕ) (m : ℕ) → IsMessage f m → payload_of f ≡ drop 16 f
payload_is_rest f m w =
    let n : (read_envelope f).payload_size ≡ length (drop 16 f) =
      omega (arith, w.size, length-drop 16 f) in
    ap (λ (k : ℕ). take k (drop 16 f)) n ∙ take-length (drop 16 f)

-- Whatever bytes `wlh_rpc_decode` accepts as an envelope and a payload, `wlh_rpc_encode` of these two
-- into a buffer that holds the message accepts, and gives exactly those bytes.
pub rpc_encode-rpc_decode :
    (f : List ℕ) (m capacity : ℕ) (e : RpcEnvelope) (p : List ℕ)
    → IsBytes f
    → rpc_decode (bytes f) m ≡ accept (e, p)
    → length f ≤ capacity
    → rpc_encode (some e) (bytes p) capacity ≡ accept f
rpc_encode-rpc_decode f m capacity e p v h c =
    let (w, ee, ep) = IsMessage-rpc_decode f m e p h in
    let rest = payload_is_rest f m w in
    let n : length (payload_of f) ≡ (read_envelope f).payload_size =
      omega (arith, w.size, length-drop 16 f, ap length rest) in
    rw (ee, ep)
      (rpc_encode_accepts (read_envelope f) (payload_of f) capacity w.valid
          (omega (arith, n, w.fits, w.limit)) (omega (arith, n, w.size))
        ∙ ap accept (
            rw (n, envelope_bytes-read_envelope f (omega (arith, w.size)) v, rest)
              (take-append-drop 16 f)))
