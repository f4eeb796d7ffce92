-- ===== src/Host/Send.antt =====
-- Sending: host-core/src/host_wire.c. A frame costs credit unless it is reserved, takes the next
-- sequence number of its channel, and is handed to the transport.
pub mod Balance
pub mod Kept
pub mod Units
use wl_hosted_core.Prelude.{
  ℕ, ◌+◌, ◌-◌, Bool, true, false, not, ◌&&◌, ◌||◌, List, [], ◌∷◌, Option, none, some,
}
use wl_hosted_core.Prelude.{ltb, ◌==◌, if◌then◌else◌, length, update}
use wl_hosted_core.Prelude.Word.{pos, u16_max}
use wl_hosted_core.Protocol.Result.{Wire, accept, reject, Span, null, bytes, span_size}
use wl_hosted_core.Protocol.Ids.{frame_header_size, rpc_envelope_size}
use wl_hosted_core.Protocol.Ids.Channel
use wl_hosted_core.Protocol.Ids.Service
use wl_hosted_core.Protocol.Ids.Method
use wl_hosted_core.Protocol.Frame.{FrameHeader, frame_header_init, frame_encode}
use wl_hosted_core.Protocol.Rpc.{RpcEnvelope, rpc_encode, kind_event}
use wl_hosted_core.Host.Types.{HostResult, HostState, Call, Platform, Host, protobuf_limit}
use wl_hosted_core.Host.Types.Messages.{Message, credit_update}
use wl_hosted_core.Host.Effects.{
  record_call, increment, alloc_buffer, free_buffer, count_allocation_failure, set_state,
}

abbrev pub is_ok : HostResult → Bool
is_ok HostResult.ok = true
is_ok _ = false

-- The header of the next frame on a channel. Without a session both sides of the source's choice
-- of the session id are 0.
unfoldable pub next_header : Host → ℕ → FrameHeader
next_header h channel = record (frame_header_init channel) {
  session_id = if channel == Channel.link_control && h.session_id == 0 then 0 else h.session_id;
  sequence = h.tx_sequence channel;
}

unfoldable pub credit_envelope : RpcEnvelope
credit_envelope = record {
  service_id = Service.link;
  method_id = Method.link_credit_update;
  request_id = 0;
  kind = kind_event;
  flags = 0;
  payload_size = 0;
  status_domain = 0;
  status_code = pos 0;
}

abbrev pub rpc_channel : RpcEnvelope → ℕ
rpc_channel e = if e.service_id == Service.link then Channel.link_control else Channel.control_rpc

module _ (p : Platform) where
  -- `transport.submit_tx`: whether it returns 0.
  unfoldable pub submit_tx : Host → List ℕ → Bool × Host
  submit_tx h frame =
      if p.submit_ok h.trace frame
      then (true, record_call (Call.submitted frame) h)
      else (false, record_call (Call.submit_refused frame) h)

  -- What follows an accepted submission.
  unfoldable pub charge : Host → ℕ → Bool → ℕ → Host
  charge h channel reserved credit_units = record h {
    tx_sequence = update h.tx_sequence channel (increment (h.tx_sequence channel));
    tx_credit =
        if reserved
        then h.tx_credit
        else update h.tx_credit channel (h.tx_credit channel - credit_units);
    diagnostics = record (h.diagnostics) { tx_frames = increment (h.diagnostics).tx_frames };
  }

  -- From the encoded frame on.
  unfoldable pub submit_frame : Host → ℕ → Bool → ℕ → Wire (List ℕ) → HostResult × Host
  unfolding submit_tx charge free_buffer
  submit_frame h channel reserved credit_units (reject code) =
      (HostResult.protocol_error, free_buffer p h)
  submit_frame h channel reserved credit_units (accept frame) =
      let (sent, h1) = submit_tx h frame in
      if sent
      then (HostResult.ok, charge h1 channel reserved credit_units)
      else (HostResult.transport_error, free_buffer p h1)

  unfoldable pub send_payload_frame_units : Host → ℕ → List ℕ → Bool → ℕ → HostResult × Host
  unfolding alloc_buffer
  send_payload_frame_units h channel payload reserved credit_units =
      let frame_size = frame_header_size + length payload in
      let (allocated, h1) = alloc_buffer p h frame_size in
      if ltb (h.config).max_frame_size frame_size
        || ltb u16_max (length payload)
        || credit_units == 0
      then (HostResult.invalid_argument, h)
      else if not reserved && ltb (h.tx_credit channel) credit_units
      then (HostResult.no_credit, set_state p h HostState.congested)
      else if allocated
      then submit_frame h1 channel reserved credit_units
          (frame_encode (some (next_header h1 channel)) (bytes payload) frame_size)
      else (HostResult.no_memory, count_allocation_failure p h1)

  unfoldable pub send_payload_frame : Host → ℕ → List ℕ → Bool → HostResult × Host
  send_payload_frame h channel payload reserved =
      send_payload_frame_units h channel payload reserved 1

  -- From the encoded message on; its buffer is freed after the frame is made of it.
  unfoldable pub send_encoded : Host → ℕ → Bool → Wire (List ℕ) → HostResult × Host
  unfolding free_buffer
  send_encoded h channel reserved (reject code) = (HostResult.protocol_error, free_buffer p h)
  send_encoded h channel reserved (accept rpc) =
      let (result, h1) = send_payload_frame h channel rpc reserved in (result, free_buffer p h1)

  unfoldable pub send_rpc : Host → RpcEnvelope → Span → Bool → HostResult × Host
  unfolding alloc_buffer
  send_rpc h e payload reserved =
      let capacity = rpc_envelope_size + span_size payload in
      let (allocated, h1) = alloc_buffer p h capacity in
      if ltb protobuf_limit (span_size payload)
      then (HostResult.invalid_argument, h)
      else if allocated
      then send_encoded h1 (rpc_channel e) reserved (rpc_encode (some e) payload capacity)
      else (HostResult.no_memory, h1)

  -- `pb_encode` into a buffer of the size that was asked for.
  unfoldable pub send_message_bytes :
      Host → RpcEnvelope → ℕ → Bool → Option (List ℕ) → HostResult × Host
  unfolding free_buffer
  send_message_bytes h e payload_size reserved none = (HostResult.protocol_error, free_buffer p h)
  send_message_bytes h e payload_size reserved (some payload) =
      let (result, h1) = send_rpc h e (bytes payload) reserved in
      if length payload == payload_size
      then (result, free_buffer p h1)
      else (HostResult.protocol_error, free_buffer p h)

  unfoldable pub send_sized_message :
      Host → RpcEnvelope → Message → Bool → Option ℕ → HostResult × Host
  unfolding alloc_buffer
  send_sized_message h e message reserved none = (HostResult.protocol_error, h)
  send_sized_message h e message reserved (some payload_size) =
      let (allocated, h1) = alloc_buffer p h payload_size in
      if ltb protobuf_limit payload_size
      then (HostResult.protocol_error, h)
      else if payload_size == 0
      then send_rpc h e (null 0) reserved
      else if allocated
      then send_message_bytes h1 e payload_size reserved (p.pb_encode message payload_size)
      else (HostResult.no_memory, h1)

  unfoldable pub send_rpc_message : Host → RpcEnvelope → Message → Bool → HostResult × Host
  send_rpc_message h e message reserved =
      send_sized_message h e message reserved (p.pb_get_encoded_size message)

  unfoldable pub send_credit_update : Host → ℕ → ℕ → HostResult × Host
  send_credit_update h channel units =
      if units == 0
      then (HostResult.ok, h)
      else send_rpc_message h credit_envelope
          (credit_update (record { channel_id = channel; units = units })) true
