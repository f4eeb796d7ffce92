-- ===== src/Coproc/Send.antt =====
-- Sending: coproc-core/src/coproc_wire.c, and `send_event_message` of coproc_rpc.c. A frame costs
-- credit unless it is on the link's channel, takes the next sequence number of its channel, and is
-- handed to the transport.
pub mod Account
pub mod Quiet
pub mod Reserved
use wl_hosted_core.Prelude.{
  ℕ, ◌+◌, ◌-◌, Bool, true, false, not, ◌&&◌, ◌||◌, List, Option, none, some,
}
use wl_hosted_core.Prelude.{ltb, leb, ◌==◌, ◌!=◌, if◌then◌else◌, length, update}
use wl_hosted_core.Prelude.{take}
use wl_hosted_core.Prelude.Word.{ℤ, pos}
use wl_hosted_core.Protocol.Result.{Wire, accept, reject, Span, null, bytes, span_size}
use wl_hosted_core.Protocol.Ids.{frame_header_size, rpc_envelope_size}
use wl_hosted_core.Protocol.Ids.Channel
use wl_hosted_core.Protocol.Ids.Service
use wl_hosted_core.Protocol.Ids.Method
use wl_hosted_core.Protocol.Ids.Status
use wl_hosted_core.Protocol.Endian.{byte_at}
use wl_hosted_core.Protocol.Frame.{FrameHeader, frame_header_init, frame_encode}
use wl_hosted_core.Protocol.Rpc.{RpcEnvelope, rpc_encode, kind_response, kind_event, is_status_ok}
use wl_hosted_core.Coproc.Types.{
  CoprocResult, CoprocState, Job, Call, Platform, Coproc, rpc_buffer_size,
}
use wl_hosted_core.Coproc.Types.Messages.{Message, credit_update}
use wl_hosted_core.Coproc.Effects.{
  record_call, increment, alloc_buffer, free_buffer, enqueue_job, enqueue_or_free, set_state,
}

-- The header of the next frame on a channel.
unfoldable pub next_header : Coproc → ℕ → FrameHeader
next_header c channel = record (frame_header_init channel) {
  session_id = c.session_id;
  sequence = c.tx_sequence channel;
}

abbrev pub is_reserved : ℕ → Bool
is_reserved channel = channel == Channel.link_control

abbrev pub is_ethernet : ℕ → Bool
is_ethernet channel =
    channel == Channel.ethernet_sta
    || channel == Channel.ethernet_ap
    || channel == Channel.ethernet_eth

-- The envelope of `send_rpc`: what is not an argument is 0.
abbrev pub envelope : ℕ → ℕ → ℕ → ℕ → ℕ → ℤ → RpcEnvelope
envelope service_id method_id request_id kind status_domain status_code = record {
  service_id = service_id;
  method_id = method_id;
  request_id = request_id;
  kind = kind;
  flags = 0;
  payload_size = 0;
  status_domain = status_domain;
  status_code = status_code;
}

abbrev pub rpc_channel : RpcEnvelope → ℕ
rpc_channel e = if e.service_id == Service.link then Channel.link_control else Channel.control_rpc

module _ (p : Platform) where
  -- What the transport calls when it is done with a frame; 1 is WLH_COPROC_TX_CANCELLED.
  unfoldable pub tx_complete : Coproc → List ℕ → ℤ → Coproc
  unfolding free_buffer enqueue_job
  tx_complete c frame status =
      let c1 = free_buffer p c in
      let c2 =
        if leb frame_header_size (length frame) && is_ethernet (byte_at frame 4)
        then record_call Call.slot_given c1
        else c1 in
      if is_status_ok status || is_cancelled status
      then c2
      else (enqueue_job p c2 Job.transport_failed).1
    where
      is_cancelled : ℤ → Bool
      is_cancelled (pos n) = n == 1
      is_cancelled _ = false

  -- `port.submit_tx`: whether it returns 0.
  unfoldable pub submit_tx : Coproc → List ℕ → Bool × Coproc
  submit_tx c frame =
      if p.submit_ok c.trace frame
      then (true, record_call (Call.submitted frame) c)
      else (false, record_call (Call.submit_refused frame) c)

  -- What follows an accepted submission.
  unfoldable pub charge : Coproc → ℕ → ℕ → Coproc
  charge c channel credit_units = record c {
    tx_sequence = update c.tx_sequence channel (increment (c.tx_sequence channel));
    tx_credit =
        if is_reserved channel
        then c.tx_credit
        else update c.tx_credit channel (c.tx_credit channel - credit_units);
    diagnostics = record (c.diagnostics) { tx_frames = increment (c.diagnostics).tx_frames };
  }

  -- From the encoded frame on.
  unfoldable pub submit_frame : Coproc → ℕ → ℕ → Wire (List ℕ) → CoprocResult × Coproc
  unfolding submit_tx charge free_buffer
  submit_frame c channel credit_units (reject code) = (CoprocResult.protocol_error, free_buffer p c)
  submit_frame c channel credit_units (accept frame) =
      let (sent, c1) = submit_tx c frame in
      if sent
      then (CoprocResult.ok, charge c1 channel credit_units)
      else (CoprocResult.transport_error, free_buffer p c1)

  unfoldable pub send_payload_units : Coproc → ℕ → List ℕ → ℕ → CoprocResult × Coproc
  unfolding alloc_buffer
  send_payload_units c channel payload credit_units =
      let frame_size = frame_header_size + length payload in
      let (allocated, c1) = alloc_buffer p c frame_size in
      if ltb (c.config).max_frame_size frame_size || credit_units == 0
      then (CoprocResult.invalid_argument, c)
      else if not (is_reserved channel) && ltb (c.tx_credit channel) credit_units
      then (CoprocResult.no_credit, set_state c CoprocState.congested)
      else if allocated
      then submit_frame c1 channel credit_units
          (frame_encode (some (next_header c1 channel)) (bytes payload) frame_size)
      else (CoprocResult.backend_error, c1)

  unfoldable pub send_payload : Coproc → ℕ → List ℕ → CoprocResult × Coproc
  send_payload c channel payload = send_payload_units c channel payload 1

  -- From the encoded message on; its buffer is freed after the frame is made of it.
  unfoldable pub send_encoded : Coproc → ℕ → Wire (List ℕ) → CoprocResult × Coproc
  unfolding free_buffer
  send_encoded c channel (reject code) = (CoprocResult.protocol_error, free_buffer p c)
  send_encoded c channel (accept rpc) =
      let (result, c1) = send_payload c channel rpc in (result, free_buffer p c1)

  unfoldable pub send_rpc : Coproc → RpcEnvelope → Span → CoprocResult × Coproc
  unfolding alloc_buffer
  send_rpc c e payload =
      let rpc_capacity = rpc_envelope_size + span_size payload in
      let (allocated, c1) = alloc_buffer p c rpc_capacity in
      if ltb (rpc_buffer_size - rpc_envelope_size) (span_size payload)
      then (CoprocResult.invalid_argument, c)
      else if allocated
      then send_encoded c1 (rpc_channel e) (rpc_encode (some e) payload rpc_capacity)
      else (CoprocResult.backend_error, c1)

  -- `encode_message` into a buffer of the size that was asked for, and what follows it.
  unfoldable pub send_message_bytes :
      Coproc → RpcEnvelope → ℕ → Option (List ℕ) → CoprocResult × Coproc
  unfolding free_buffer
  send_message_bytes c e payload_size none = (CoprocResult.protocol_error, free_buffer p c)
  send_message_bytes c e payload_size (some payload) =
      let (result, c1) = send_rpc c e (bytes payload) in
      if length payload == payload_size
      then (result, free_buffer p c1)
      else (CoprocResult.protocol_error, free_buffer p c)

  unfoldable pub send_sized_message :
      Coproc → RpcEnvelope → Message → Option ℕ → CoprocResult × Coproc
  unfolding alloc_buffer
  send_sized_message c e message none = (CoprocResult.protocol_error, c)
  send_sized_message c e message (some payload_size) =
      let (allocated, c1) = alloc_buffer p c payload_size in
      if ltb (rpc_buffer_size - rpc_envelope_size) payload_size
      then (CoprocResult.protocol_error, c)
      else if payload_size == 0
      then send_rpc c e (null 0)
      else if allocated
      then send_message_bytes c1 e payload_size (p.pb_encode message payload_size)
      else (CoprocResult.backend_error, c1)

  unfoldable pub send_rpc_message : Coproc → RpcEnvelope → Message → CoprocResult × Coproc
  send_rpc_message c e message = send_sized_message c e message (p.pb_get_encoded_size message)

  unfoldable pub send_credit_update : Coproc → ℕ → ℕ → CoprocResult × Coproc
  send_credit_update c channel units =
      if units == 0
      then (CoprocResult.ok, c)
      else send_rpc_message c
          (envelope Service.link Method.link_credit_update 0 kind_event 0 (pos 0))
          (credit_update (record { channel_id = channel; units = units }))

  -- The answer to a request, by the status that the backend returned.
  unfoldable pub send_status : Coproc → RpcEnvelope → ℤ → CoprocResult × Coproc
  send_status c request backend_status =
      let ok = is_status_ok backend_status in
      send_rpc c
        (envelope request.service_id request.method_id request.request_id kind_response
          (if ok then Status.domain_none else Status.domain_wifi)
          (if ok then Status.ok else Status.internal))
        (null 0)

  -- From the event's bytes on; the job keeps the buffer once it is queued.
  unfoldable pub send_event_bytes : Coproc → ℕ → ℕ → ℕ → Option (List ℕ) → CoprocResult × Coproc
  unfolding free_buffer enqueue_or_free
  send_event_bytes c service_id method_id size none = (CoprocResult.protocol_error, free_buffer p c)
  send_event_bytes c service_id method_id size (some encoded) =
      if length encoded == size
      then enqueue_or_free p c (Job.rpc_event service_id method_id encoded)
      else (CoprocResult.protocol_error, free_buffer p c)

  unfoldable pub send_sized_event : Coproc → ℕ → ℕ → Message → Option ℕ → CoprocResult × Coproc
  unfolding alloc_buffer
  send_sized_event c service_id method_id message none = (CoprocResult.protocol_error, c)
  send_sized_event c service_id method_id message (some size) =
      let (allocated, c1) = alloc_buffer p c (p.sizeof_data_job + size) in
      if ltb rpc_buffer_size size
      then (CoprocResult.protocol_error, c)
      else if allocated
      then send_event_bytes c1 service_id method_id size (p.pb_encode message size)
      else (CoprocResult.backend_error, c1)

  unfoldable pub send_event_message : Coproc → ℕ → ℕ → Message → CoprocResult × Coproc
  send_event_message c service_id method_id message =
      send_sized_event c service_id method_id message (p.pb_get_encoded_size message)
