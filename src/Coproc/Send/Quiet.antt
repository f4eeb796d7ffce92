-- ===== src/Coproc/Send/Quiet.antt =====
-- What the sending functions of coproc-core/src/coproc_wire.c leave alone, on all their ways.
use wl_hosted_core.Prelude.{
  ℕ, ◌+◌, refl, arith, List, Option, none, some, ◌==◌, Bool-cases, inl, inr, length,
}
use wl_hosted_core.Prelude.Word.{pos}
use wl_hosted_core.Protocol.Result.{Wire, accept, reject, Span, null, bytes, span_size}
use wl_hosted_core.Protocol.Ids.{frame_header_size, rpc_envelope_size}
use wl_hosted_core.Protocol.Ids.Service
use wl_hosted_core.Protocol.Ids.Method
use wl_hosted_core.Protocol.Frame.{frame_encode}
use wl_hosted_core.Protocol.Rpc.{RpcEnvelope, rpc_encode, kind_event}
use wl_hosted_core.Coproc.Types.{CoprocState, Job, Call, Platform, Coproc}
use wl_hosted_core.Coproc.Types.Messages.{Message, credit_update}
use wl_hosted_core.Coproc.Effects.{record_call}
use wl_hosted_core.Coproc.Effects.Quiet.{Quiet, Quiet-refl, set_state-Quiet, enqueue_or_free-Quiet}
use wl_hosted_core.Coproc.Send.{
  next_header, rpc_channel, envelope, submit_frame, send_payload_units, send_payload, send_encoded,
  send_rpc, send_message_bytes, send_sized_message, send_rpc_message, send_credit_update,
  send_event_bytes, send_sized_event, send_event_message,
}

module _ (p : Platform) where
  submit_frame-Quiet :
      (c : Coproc) (channel units : ℕ) (w : Wire (List ℕ))
      → Quiet 1 c (submit_frame p c channel units w).1
  unfolding submit_frame
  submit_frame-Quiet c channel units (reject code) = ground arith
  submit_frame-Quiet c channel units (accept frame) = ground arith

  pub send_payload_units-Quiet :
      (c : Coproc) (channel : ℕ) (payload : List ℕ) (units : ℕ)
      → Quiet 0 c (send_payload_units p c channel payload units).1
  unfolding send_payload_units
  send_payload_units-Quiet c channel payload units =
      let size = frame_header_size + length payload in
      let c1 = record_call (Call.alloc size) c in
      let sent =
        submit_frame-Quiet c1 channel units
          (frame_encode (some (next_header c1 channel)) (bytes payload) size) in
      let congested = set_state-Quiet c CoprocState.congested in ground arith

  send_encoded-Quiet :
      (c : Coproc) (channel : ℕ) (w : Wire (List ℕ)) → Quiet 1 c (send_encoded p c channel w).1
  unfolding send_encoded send_payload
  send_encoded-Quiet c channel (reject code) = ground arith
  send_encoded-Quiet c channel (accept rpc) =
      let sent = send_payload_units-Quiet c channel rpc 1 in ground arith

  pub send_rpc-Quiet :
      (c : Coproc) (e : RpcEnvelope) (payload : Span) → Quiet 0 c (send_rpc p c e payload).1
  unfolding send_rpc
  send_rpc-Quiet c e payload =
      let capacity = rpc_envelope_size + span_size payload in
      let sent =
        send_encoded-Quiet (record_call (Call.alloc capacity) c) (rpc_channel e)
          (rpc_encode (some e) payload capacity) in
      ground arith

  send_message_bytes-Quiet :
      (c : Coproc) (e : RpcEnvelope) (n : ℕ) (o : Option (List ℕ))
      → Quiet 1 c (send_message_bytes p c e n o).1
  unfolding send_message_bytes
  send_message_bytes-Quiet c e n none = ground arith
  send_message_bytes-Quiet c e n (some payload) =
      let sent = send_rpc-Quiet c e (bytes payload) in ground arith

  send_sized_message-Quiet :
      (c : Coproc) (e : RpcEnvelope) (message : Message) (o : Option ℕ)
      → Quiet 0 c (send_sized_message p c e message o).1
  unfolding send_sized_message
  send_sized_message-Quiet c e message none = Quiet-refl c
  send_sized_message-Quiet c e message (some n) =
      let empty = send_rpc-Quiet c e (null 0) in
      let sent =
        send_message_bytes-Quiet (record_call (Call.alloc n) c) e n (p.pb_encode message n) in
      ground arith

  -- Sending a message leaves the session, the receiving side and the OTA transfer alone, does not
  -- call the OTA backend, and acquires as many buffers as it frees or hands over, whatever its
  -- result.
  pub send_rpc_message-Quiet :
      (c : Coproc) (e : RpcEnvelope) (message : Message)
      → Quiet 0 c (send_rpc_message p c e message).1
  unfolding send_rpc_message
  send_rpc_message-Quiet c e message =
      send_sized_message-Quiet c e message (p.pb_get_encoded_size message)

  pub send_credit_update-Quiet :
      (c : Coproc) (channel units : ℕ) → Quiet 0 c (send_credit_update p c channel units).1
  unfolding send_credit_update
  send_credit_update-Quiet c channel units = elim (Bool-cases (units == 0)) [
    | inl none_due ↦ rw none_due (Quiet-refl c)
    | inr due ↦ rw due (
        send_rpc_message-Quiet c
          (envelope Service.link Method.link_credit_update 0 kind_event 0 (pos 0))
          (credit_update (record { channel_id = channel; units = units })))
  ]

  send_event_bytes-Quiet :
      (c : Coproc) (service_id method_id n : ℕ) (o : Option (List ℕ))
      → Quiet 1 c (send_event_bytes p c service_id method_id n o).1
  unfolding send_event_bytes
  send_event_bytes-Quiet c service_id method_id n none = ground arith
  send_event_bytes-Quiet c service_id method_id n (some encoded) =
      let queued = enqueue_or_free-Quiet p c (Job.rpc_event service_id method_id encoded) refl in
      ground arith

  send_sized_event-Quiet :
      (c : Coproc) (service_id method_id : ℕ) (message : Message) (o : Option ℕ)
      → Quiet 0 c (send_sized_event p c service_id method_id message o).1
  unfolding send_sized_event
  send_sized_event-Quiet c service_id method_id message none = Quiet-refl c
  send_sized_event-Quiet c service_id method_id message (some n) =
      let c1 = record_call (Call.alloc (p.sizeof_data_job + n)) c in
      let sent = send_event_bytes-Quiet c1 service_id method_id n (p.pb_encode message n) in
      ground arith

  pub send_event_message-Quiet :
      (c : Coproc) (service_id method_id : ℕ) (message : Message)
      → Quiet 0 c (send_event_message p c service_id method_id message).1
  unfolding send_event_message
  send_event_message-Quiet c service_id method_id message =
      send_sized_event-Quiet c service_id method_id message (p.pb_get_encoded_size message)
