-- ===== src/Protocol/Rpc.antt =====
-- RPC messages: `wlh_rpc_envelope_t` with `wlh_rpc_envelope_validate`, `wlh_rpc_encode`,
-- `wlh_rpc_decode` and `wlh_rpc_validate` of protocol/src/wire.c.
pub mod Envelope
pub mod Roundtrip
use wl_hosted_core.Prelude.{
  ℕ, ◌+◌, Bool, true, false, not, ◌&&◌, ◌||◌, List, [], ◌∷◌, ◌++◌, Option, none, some,
}
use wl_hosted_core.Prelude.{bit_and, length, take, drop, ltb, ◌==◌, ◌!=◌, if◌then◌else◌}
use wl_hosted_core.Prelude.Word.{ℤ, pos, negsuc, u16, u16_max}
use wl_hosted_core.Protocol.Result.{WireResult, Wire, accept, reject, ◌>>=◌, ◌>>◌, fail_if, check}
use wl_hosted_core.Protocol.Result.{Span, null, bytes, span_bytes, is_missing}
use wl_hosted_core.Protocol.Ids.{rpc_envelope_size}
use wl_hosted_core.Protocol.Ids.Service
use wl_hosted_core.Protocol.Ids.Status
use wl_hosted_core.Protocol.Endian.{
  byte_at, read_u16_le_unchecked, read_i16_le_unchecked, read_u32_le_unchecked,
  write_u16_le_unchecked, write_i16_le_unchecked, write_u32_le_unchecked,
}

-- `wlh_rpc_kind_t`, as the byte that an envelope stores.
abbrev pub kind_request : ℕ
kind_request = 1

abbrev pub kind_response : ℕ
kind_response = 2

abbrev pub kind_event : ℕ
kind_event = 3

pub record RpcEnvelope : Type 0 where
  pub service_id : ℕ
  pub method_id : ℕ
  pub request_id : ℕ
  pub kind : ℕ
  pub flags : ℕ
  pub payload_size : ℕ
  pub status_domain : ℕ
  pub status_code : ℤ

-- `(uint8_t)~WLH_RPC_FLAGS_MASK`
abbrev pub rpc_flags_reserved : ℕ
rpc_flags_reserved = 0xfc

-- `status_code == WLH_STATUS_OK`
abbrev pub is_status_ok : ℤ → Bool
is_status_ok (pos n) = n == 0
is_status_ok (negsuc n) = false

-- `!=` of two truth values.
abbrev pub differ : Bool → Bool → Bool
differ true b = not b
differ false b = b

unfoldable pub rpc_envelope_validate : Option RpcEnvelope → WireResult
rpc_envelope_validate none = WireResult.invalid_argument
rpc_envelope_validate (some e) =
    if e.service_id == Service.invalid || e.method_id == 0
    then WireResult.invalid_rpc
    else if ltb e.kind kind_request || ltb kind_event e.kind
    then WireResult.invalid_rpc
    else if bit_and e.flags rpc_flags_reserved != 0
    then WireResult.invalid_flags
    else if e.kind != kind_event && e.request_id == 0
    then WireResult.invalid_rpc
    else if e.kind == kind_request
    then (if e.status_domain != Status.domain_none || not (is_status_ok e.status_code)
        then WireResult.invalid_rpc
        else WireResult.ok)
    else if differ (is_status_ok e.status_code) (e.status_domain == Status.domain_none)
    then WireResult.invalid_rpc
    else WireResult.ok

-- The 16 bytes that `wlh_rpc_encode` writes from `output` on, in the order of their offsets.
unfoldable pub envelope_bytes : RpcEnvelope → ℕ → List ℕ
envelope_bytes e payload_size =
    write_u16_le_unchecked e.service_id
    ++ (write_u16_le_unchecked e.method_id
        ++ (write_u32_le_unchecked e.request_id
            ++ ((e.kind ∷ e.flags ∷ [])
                ++ (write_u16_le_unchecked (u16 payload_size)
                    ++ (write_u16_le_unchecked e.status_domain
                        ++ write_i16_le_unchecked e.status_code)))))

-- The bytes of `output[0..*output_size)`. As in a frame the payload is moved first.
unfoldable pub rpc_encode : Option RpcEnvelope → Span → ℕ → Wire (List ℕ)
rpc_encode none payload output_capacity = reject WireResult.invalid_argument
rpc_encode (some e) payload output_capacity = do
  fail_if (is_missing payload) WireResult.invalid_argument
  let body = span_bytes payload
  check (rpc_envelope_validate (some e))
  fail_if (ltb u16_max (length body)) WireResult.invalid_length
  fail_if (ltb output_capacity (rpc_envelope_size + length body)) WireResult.buffer_too_small
  accept (envelope_bytes e (length body) ++ body)

-- The reads of `wlh_rpc_decode`, at the offsets of the fields.
unfoldable pub read_envelope : List ℕ → RpcEnvelope
read_envelope rpc = record {
  service_id = read_u16_le_unchecked rpc;
  method_id = read_u16_le_unchecked (drop 2 rpc);
  request_id = read_u32_le_unchecked (drop 4 rpc);
  kind = byte_at rpc 8;
  flags = byte_at rpc 9;
  payload_size = read_u16_le_unchecked (drop 10 rpc);
  status_domain = read_u16_le_unchecked (drop 12 rpc);
  status_code = read_i16_le_unchecked (drop 14 rpc);
}

-- The envelope and the payload, which points into the message.
unfoldable pub rpc_decode : Span → ℕ → Wire (RpcEnvelope × List ℕ)
rpc_decode (null n) negotiated_max_rpc_payload = reject WireResult.invalid_argument
rpc_decode (bytes rpc) negotiated_max_rpc_payload = do
  fail_if (ltb u16_max negotiated_max_rpc_payload) WireResult.invalid_argument
  fail_if (ltb (length rpc) rpc_envelope_size) WireResult.truncated
  let e = read_envelope rpc
  check (rpc_envelope_validate (some e))
  fail_if (ltb negotiated_max_rpc_payload e.payload_size) WireResult.invalid_length
  let expected_size = rpc_envelope_size + e.payload_size
  fail_if (ltb (length rpc) expected_size) WireResult.truncated
  fail_if (length rpc != expected_size) WireResult.invalid_length
  accept (e, take e.payload_size (drop rpc_envelope_size rpc))

unfoldable pub rpc_validate : Span → ℕ → WireResult
unfolding rpc_decode
rpc_validate rpc negotiated_max_rpc_payload = elim (rpc_decode rpc negotiated_max_rpc_payload) [
  | accept _ ↦ WireResult.ok
  | reject e ↦ e
]
