-- ===== src/Coproc/Send/Reserved.antt =====
-- The link's own messages cost no credit: coproc-core/src/coproc_wire.c.
use wl_hosted_core.Prelude.{
  ℕ, ◌+◌, ◌≡◌, refl, arith, Bool, true, false, List, Option, none, some, if◌then◌else◌,
}
use wl_hosted_core.Protocol.Result.{Wire, accept, reject, Span, null, bytes, span_size}
use wl_hosted_core.Protocol.Ids.{rpc_envelope_size}
use wl_hosted_core.Protocol.Ids.Channel
use wl_hosted_core.Protocol.Ids.Service
use wl_hosted_core.Protocol.Rpc.{RpcEnvelope, rpc_encode}
use wl_hosted_core.Coproc.Types.{Call, Platform, Coproc}
use wl_hosted_core.Coproc.Types.Messages.{Message}
use wl_hosted_core.Coproc.Effects.{is_ok, record_call}
use wl_hosted_core.Coproc.Send.{
  send_payload_units, send_payload, send_encoded, send_rpc, send_message_bytes, send_sized_message,
  send_rpc_message,
}
use wl_hosted_core.Coproc.Send.Account.{Paid, Unpaid, send_payload_units-Account}

account-reserved :
    (c c' : Coproc) (units : ℕ) (sent : Bool)
    → (if sent then Paid c c' Channel.link_control units else Unpaid c c')
    → c'.tx_credit ≡ c.tx_credit
account-reserved c c' units true account = account.1
account-reserved c c' units false account = account.1

module _ (p : Platform) where
  encoded-credit :
      (c : Coproc) (w : Wire (List ℕ))
      → (send_encoded p c Channel.link_control w).1.tx_credit ≡ c.tx_credit
  unfolding send_encoded send_payload
  encoded-credit c (reject code) = refl
  encoded-credit c (accept rpc) =
      let out = send_payload_units p c Channel.link_control rpc 1 in
      account-reserved c out.1 1 (is_ok out.0)
        (send_payload_units-Account p c Channel.link_control rpc 1)

  module _ (e : RpcEnvelope) (link : e.service_id ≡ Service.link) where
    rpc-credit : (c : Coproc) (payload : Span) → (send_rpc p c e payload).1.tx_credit ≡ c.tx_credit
    unfolding send_rpc
    rpc-credit c payload =
        let capacity = rpc_envelope_size + span_size payload in
        let sent =
          encoded-credit (record_call (Call.alloc capacity) c)
            (rpc_encode (some e) payload capacity) in
        rw link (ground arith)

    bytes-credit :
        (c : Coproc) (n : ℕ) (o : Option (List ℕ))
        → (send_message_bytes p c e n o).1.tx_credit ≡ c.tx_credit
    unfolding send_message_bytes
    bytes-credit c n none = refl
    bytes-credit c n (some payload) = let sent = rpc-credit c (bytes payload) in ground arith

    sized-credit :
        (c : Coproc) (message : Message) (o : Option ℕ)
        → (send_sized_message p c e message o).1.tx_credit ≡ c.tx_credit
    unfolding send_sized_message
    sized-credit c message none = refl
    sized-credit c message (some n) =
        let empty = rpc-credit c (null 0) in
        let sent = bytes-credit (record_call (Call.alloc n) c) n (p.pb_encode message n) in
        ground arith

    -- A message of the link leaves every channel's credit as it was, whether or not it is sent.
    pub send_rpc_message-credit :
        (c : Coproc) (message : Message)
        → (send_rpc_message p c e message).1.tx_credit ≡ c.tx_credit
    unfolding send_rpc_message
    send_rpc_message-credit c message = sized-credit c message (p.pb_get_encoded_size message)
