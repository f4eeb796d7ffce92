-- ===== src/Host/Send/Balance.antt =====
-- Buffers on all ways through the sending functions of host-core/src/host_wire.c.
use wl_hosted_core.Prelude.{
  ℕ, ◌+◌, ◌≡◌, refl, arith, Bool, true, List, Option, none, some, ◌==◌, Bool-cases, inl, inr,
  length,
}
use wl_hosted_core.Protocol.Result.{Wire, accept, reject, Span, null, bytes, span_size}
use wl_hosted_core.Protocol.Ids.{frame_header_size, rpc_envelope_size}
use wl_hosted_core.Protocol.Frame.{frame_encode}
use wl_hosted_core.Protocol.Rpc.{RpcEnvelope, rpc_encode}
use wl_hosted_core.Host.Types.{HostState, Call, Platform, Host}
use wl_hosted_core.Host.Types.Messages.{Message, credit_update}
use wl_hosted_core.Host.Effects.{record_call}
use wl_hosted_core.Host.Effects.Balance.{Balanced, acquired, released, set_state-Balanced}
use wl_hosted_core.Host.Send.{
  next_header, credit_envelope, rpc_channel, submit_frame, send_payload_frame_units,
  send_payload_frame, send_encoded, send_rpc, send_message_bytes, send_sized_message,
  send_rpc_message, send_credit_update,
}

-- One buffer more is freed or handed over than is acquired.
abbrev pub GivesUp : Host → Host → Type 0
GivesUp h h' = acquired h'.trace + released h.trace + 1 ≡ acquired h.trace + released h'.trace

module _ (p : Platform) where
  submit_frame-GivesUp :
      (h : Host) (channel : ℕ) (reserved : Bool) (units : ℕ) (w : Wire (List ℕ))
      → GivesUp h (submit_frame p h channel reserved units w).1
  unfolding submit_frame
  submit_frame-GivesUp h channel reserved units (reject code) = omega arith
  submit_frame-GivesUp h channel reserved units (accept frame) = ground arith

  -- Sending a payload acquires as many buffers as it frees or hands over, whatever its result.
  pub send_payload_frame_units-Balanced :
      (h : Host) (channel : ℕ) (payload : List ℕ) (reserved : Bool) (units : ℕ)
      → Balanced h (send_payload_frame_units p h channel payload reserved units).1
  unfolding send_payload_frame_units
  send_payload_frame_units-Balanced h channel payload reserved units =
      let size = frame_header_size + length payload in
      let h1 = record_call (Call.alloc size) h in
      ground (
        arith,
        set_state-Balanced p h HostState.congested,
        submit_frame-GivesUp h1 channel reserved units
            (frame_encode (some (next_header h1 channel)) (bytes payload) size),
      )

  send_encoded-GivesUp :
      (h : Host) (channel : ℕ) (reserved : Bool) (w : Wire (List ℕ))
      → GivesUp h (send_encoded p h channel reserved w).1
  unfolding send_encoded send_payload_frame
  send_encoded-GivesUp h channel reserved (reject code) = omega arith
  send_encoded-GivesUp h channel reserved (accept rpc) =
      omega (arith, send_payload_frame_units-Balanced h channel rpc reserved 1)

  pub send_rpc-Balanced :
      (h : Host) (e : RpcEnvelope) (payload : Span) (reserved : Bool)
      → Balanced h (send_rpc p h e payload reserved).1
  unfolding send_rpc
  send_rpc-Balanced h e payload reserved =
      let capacity = rpc_envelope_size + span_size payload in
      ground (
        arith,
        send_encoded-GivesUp (record_call (Call.alloc capacity) h) (rpc_channel e) reserved
            (rpc_encode (some e) payload capacity),
      )

  send_message_bytes-GivesUp :
      (h : Host) (e : RpcEnvelope) (n : ℕ) (reserved : Bool) (o : Option (List ℕ))
      → GivesUp h (send_message_bytes p h e n reserved o).1
  unfolding send_message_bytes
  send_message_bytes-GivesUp h e n reserved none = omega arith
  send_message_bytes-GivesUp h e n reserved (some payload) =
      ground (arith, send_rpc-Balanced h e (bytes payload) reserved)

  send_sized_message-Balanced :
      (h : Host) (e : RpcEnvelope) (message : Message) (reserved : Bool) (o : Option ℕ)
      → Balanced h (send_sized_message p h e message reserved o).1
  unfolding send_sized_message
  send_sized_message-Balanced h e message reserved none = refl
  send_sized_message-Balanced h e message reserved (some n) = ground (
    arith,
    send_rpc-Balanced h e (null 0) reserved,
    send_message_bytes-GivesUp (record_call (Call.alloc n) h) e n reserved (p.pb_encode message n),
  )

  -- Sending an RPC message acquires as many buffers as it frees or hands over, whatever its result.
  pub send_rpc_message-Balanced :
      (h : Host) (e : RpcEnvelope) (message : Message) (reserved : Bool)
      → Balanced h (send_rpc_message p h e message reserved).1
  unfolding send_rpc_message
  send_rpc_message-Balanced h e message reserved =
      send_sized_message-Balanced h e message reserved (p.pb_get_encoded_size message)

  -- Returning credit acquires as many buffers as it frees or hands over, whatever its result.
  pub send_credit_update-Balanced :
      (h : Host) (channel units : ℕ) → Balanced h (send_credit_update p h channel units).1
  unfolding send_credit_update
  send_credit_update-Balanced h channel units = elim (Bool-cases (units == 0)) [
    | inl none_due ↦ rw none_due refl
    | inr due ↦ rw due (
        send_rpc_message-Balanced h credit_envelope
          (credit_update (record { channel_id = channel; units = units })) true)
  ]
