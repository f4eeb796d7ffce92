-- ===== src/Host/Send/Kept.antt =====
-- What sending leaves alone.
use wl_hosted_core.Prelude.{
  ℕ, ◌+◌, arith, Bool, ◌&&◌, ◌||◌, not, List, Option, none, some, ltb, ◌==◌, Bool-cases, inl, inr,
  length,
}
use wl_hosted_core.Prelude.Word.{u16_max}
use wl_hosted_core.Protocol.Ids.{frame_header_size, rpc_envelope_size}
use wl_hosted_core.Protocol.Frame.{frame_encode}
use wl_hosted_core.Protocol.Rpc.{RpcEnvelope, rpc_encode}
use wl_hosted_core.Protocol.Result.{Wire, accept, reject, Span, null, bytes, span_size}
use wl_hosted_core.Host.Types.{HostState, Call, Platform, Host, protobuf_limit}
use wl_hosted_core.Host.Types.Messages.{Message}
use wl_hosted_core.Host.Effects.{record_call}
use wl_hosted_core.Host.Effects.Kept.{Kept, Kept-refl, Kept-trans, set_state-KeptTx}
use wl_hosted_core.Host.Send.{
  next_header, rpc_channel, submit_frame, send_payload_frame_units, send_payload_frame,
  send_encoded, send_rpc, send_message_bytes, send_sized_message, send_rpc_message,
}

-- A call that is recorded changes nothing else.
Kept-record_call : (c : Call) (h : Host) → Kept h (record_call c h)
Kept-record_call c h = ground arith

after_call : (c : Call) (h h' : Host) → Kept (record_call c h) h' → Kept h h'
after_call c h h' k = Kept-trans h (record_call c h) h' (Kept-record_call c h) k

module _ (p : Platform) where
  submit_frame-Kept :
      (h : Host) (channel : ℕ) (reserved : Bool) (units : ℕ) (w : Wire (List ℕ))
      → Kept h (submit_frame p h channel reserved units w).1
  unfolding submit_frame
  submit_frame-Kept h channel reserved units (reject code) = ground arith
  submit_frame-Kept h channel reserved units (accept frame) = ground arith

  pub send_payload_frame_units-Kept :
      (h : Host) (channel : ℕ) (payload : List ℕ) (reserved : Bool) (units : ℕ)
      → Kept h (send_payload_frame_units p h channel payload reserved units).1
  unfolding send_payload_frame_units
  send_payload_frame_units-Kept h channel payload reserved units =
      let size = frame_header_size + length payload in
      let h1 = record_call (Call.alloc size) h in
      let sent = after_call (Call.alloc size) h _ (
        submit_frame-Kept h1 channel reserved units
          (frame_encode (some (next_header h1 channel)) (bytes payload) size)) in
      elim (Bool-cases
        (ltb (h.config).max_frame_size size || ltb u16_max (length payload) || units == 0)) [
          | inl bad ↦ rw bad (Kept-refl h)
          | inr good ↦
              rw good (elim (Bool-cases (not reserved && ltb (h.tx_credit channel) units)) [
                | inl poor ↦ rw poor (set_state-KeptTx p h HostState.congested).kept
                | inr rich ↦ rw rich (elim (Bool-cases (p.alloc_ok h.trace size)) [
                  | inl allocated ↦ rw allocated sent
                  | inr refused ↦ rw refused (ground arith)
                ])
              ])
        ]

  send_encoded-Kept :
      (h : Host) (channel : ℕ) (reserved : Bool) (w : Wire (List ℕ))
      → Kept h (send_encoded p h channel reserved w).1
  unfolding send_encoded send_payload_frame
  send_encoded-Kept h channel reserved (reject code) = Kept-record_call Call.free h
  send_encoded-Kept h channel reserved (accept rpc) =
      let h1 = (send_payload_frame_units p h channel rpc reserved 1).1 in
      Kept-trans h h1 _ (send_payload_frame_units-Kept h channel rpc reserved 1)
        (Kept-record_call Call.free h1)

  pub send_rpc-Kept :
      (h : Host) (e : RpcEnvelope) (payload : Span) (reserved : Bool)
      → Kept h (send_rpc p h e payload reserved).1
  unfolding send_rpc
  send_rpc-Kept h e payload reserved =
      let capacity = rpc_envelope_size + span_size payload in
      let h1 = record_call (Call.alloc capacity) h in
      let sent =
        after_call (Call.alloc capacity) h _
          (send_encoded-Kept h1 (rpc_channel e) reserved (rpc_encode (some e) payload capacity)) in
      elim (Bool-cases (ltb protobuf_limit (span_size payload))) [
        | inl long ↦ rw long (Kept-refl h)
        | inr short ↦ rw short (elim (Bool-cases (p.alloc_ok h.trace capacity)) [
          | inl allocated ↦ rw allocated sent
          | inr refused ↦ rw refused (Kept-record_call (Call.alloc_failed capacity) h)
        ])
      ]

  send_message_bytes-Kept :
      (h : Host) (e : RpcEnvelope) (n : ℕ) (reserved : Bool) (o : Option (List ℕ))
      → Kept h (send_message_bytes p h e n reserved o).1
  unfolding send_message_bytes
  send_message_bytes-Kept h e n reserved none = Kept-record_call Call.free h
  send_message_bytes-Kept h e n reserved (some payload) =
      let h1 = (send_rpc p h e (bytes payload) reserved).1 in
      elim (Bool-cases (length payload == n)) [
        | inl whole ↦ rw whole (
            Kept-trans h h1 _ (send_rpc-Kept h e (bytes payload) reserved)
              (Kept-record_call Call.free h1))
        | inr part ↦ rw part (Kept-record_call Call.free h)
      ]

  send_sized_message-Kept :
      (h : Host) (e : RpcEnvelope) (message : Message) (reserved : Bool) (o : Option ℕ)
      → Kept h (send_sized_message p h e message reserved o).1
  unfolding send_sized_message
  send_sized_message-Kept h e message reserved none = Kept-refl h
  send_sized_message-Kept h e message reserved (some n) =
      let h1 = record_call (Call.alloc n) h in
      let sent =
        after_call (Call.alloc n) h _
          (send_message_bytes-Kept h1 e n reserved (p.pb_encode message n)) in
      elim (Bool-cases (ltb protobuf_limit n)) [
        | inl long ↦ rw long (Kept-refl h)
        | inr short ↦ rw short (elim (Bool-cases (n == 0)) [
          | inl empty ↦ rw empty (send_rpc-Kept h e (null 0) reserved)
          | inr full ↦ rw full (elim (Bool-cases (p.alloc_ok h.trace n)) [
            | inl allocated ↦ rw allocated sent
            | inr refused ↦ rw refused (Kept-record_call (Call.alloc_failed n) h)
          ])
        ])
      ]

  pub send_rpc_message-Kept :
      (h : Host) (e : RpcEnvelope) (message : Message) (reserved : Bool)
      → Kept h (send_rpc_message p h e message reserved).1
  unfolding send_rpc_message
  send_rpc_message-Kept h e message reserved =
      send_sized_message-Kept h e message reserved (p.pb_get_encoded_size message)
