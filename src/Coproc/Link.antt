-- ===== src/Coproc/Link.antt =====
-- The link of the coprocessor: coproc-core/src/coproc_link.c, and what `handle_rpc` of
-- coproc_rpc.c does with a credit update or a heartbeat.
pub mod Hello
pub mod Agree
pub mod Wait
use wl_hosted_core.Osal.Wait.{no_wait, wait_forever}
use wl_hosted_core.Prelude.{
  ℕ, ◌+◌, ◌-◌, Bool, true, false, ◌||◌, ◌&&◌, not, List, Option, none, some, ltb, leb, ◌==◌, ◌!=◌,
  if◌then◌else◌, update,
}
use wl_hosted_core.Prelude.Word.{u64, u32_max, u64_max, pos}
use wl_hosted_core.Protocol.Ids.Channel
use wl_hosted_core.Protocol.Ids.Service
use wl_hosted_core.Protocol.Ids.Method
use wl_hosted_core.Protocol.Rpc.{RpcEnvelope, kind_request, kind_event}
use wl_hosted_core.Coproc.Types.{
  CoprocResult, CoprocState, Call, Platform, Coproc, same_state, channel_count,
}
use wl_hosted_core.Coproc.Types.Messages.{CreditUpdate, heartbeat}
use wl_hosted_core.Coproc.Effects.{record_call, now_ms, alloc_buffer, free_buffer, set_state}
use wl_hosted_core.Coproc.Send.{envelope, send_rpc_message, send_status}

-- `a - b` of two `uint64_t`.
abbrev pub elapsed : ℕ → ℕ → ℕ
elapsed a b = u64 (a + (u64_max - b) + 1)

abbrev pub is_up : Coproc → Bool
is_up c = same_state c.state CoprocState.ready || same_state c.state CoprocState.congested

module _ (p : Platform) where
  -- The time until the next heartbeat; the addition is one of `uint64_t`.
  unfoldable pub next_wait_ms : Coproc → ℕ
  next_wait_ms c =
      let current = p.time c.trace in
      let deadline = u64 (c.last_heartbeat_ms + (c.config).heartbeat_interval_ms) in
      if not (same_state c.state CoprocState.ready)
      then wait_forever
      else if leb deadline current
      then no_wait
      else if leb wait_forever (deadline - current)
      then wait_forever - 1
      else deadline - current

  -- The heartbeat that is due, if there is a buffer for it.
  unfoldable pub send_heartbeat : Coproc → ℕ → Coproc
  unfolding alloc_buffer free_buffer
  send_heartbeat c now =
      let (allocated, c1) = alloc_buffer p c p.sizeof_heartbeat in
      let (result, c2) =
        send_rpc_message p c1 (envelope Service.link Method.link_heartbeat 0 kind_event 0 (pos 0)) (
          heartbeat (record {
            session_id = c1.session_id;
            uptime_ms = elapsed now c1.started_ms;
            monotonic_ms = now;
          })) in
      if allocated then free_buffer p c2 else c1

  unfoldable pub emit_due_heartbeat : Coproc → CoprocResult × Coproc
  unfolding now_ms
  emit_due_heartbeat c =
      let (now, c1) = now_ms p c in
      let due =
        is_up c1 && leb (c1.config).heartbeat_interval_ms (elapsed now c1.last_heartbeat_ms) in
      (
        CoprocResult.ok,
        if due then record (send_heartbeat c1 now) { last_heartbeat_ms = now } else c1,
      )

  -- The answer to what may be an event or a request.
  unfoldable pub acknowledge : Coproc → RpcEnvelope → CoprocResult × Coproc
  acknowledge c request =
      if request.kind == kind_request then send_status p c request (pos 0) else (CoprocResult.ok, c)

  -- The credit of a channel grows; the Bluetooth backend hears of it when it can send again.
  unfoldable pub grant_credit : Coproc → CreditUpdate → Coproc
  grant_credit c message =
      let k = message.channel_id in
      let wakes =
        k == Channel.bluetooth_hci
        && (c.config).has_hci_tx_ready
        && leb (c.tx_credit k) c.bluetooth_tx_inflight
        && ltb c.bluetooth_tx_inflight (c.tx_credit k + message.units) in
      let c1 = record c { tx_credit = update c.tx_credit k (c.tx_credit k + message.units) } in
      let c2 = if wakes then record_call Call.hci_tx_ready c1 else c1 in
      if same_state c2.state CoprocState.congested then set_state c2 CoprocState.ready else c2

  unfoldable pub handle_credit_update :
      Coproc → ℕ → RpcEnvelope → Option CreditUpdate → CoprocResult × Coproc
  handle_credit_update c session_id request none = (CoprocResult.protocol_error, c)
  handle_credit_update c session_id request (some message) =
      if session_id != c.session_id || leb channel_count message.channel_id
      then (CoprocResult.protocol_error, c)
      else if ltb (u32_max - c.tx_credit message.channel_id) message.units
      then (CoprocResult.protocol_error, c)
      else acknowledge (grant_credit c message) request

  abbrev pub is_session : ℕ → Option ℕ → Bool
  is_session session_id none = false
  is_session session_id (some n) = n == session_id

  unfoldable pub handle_heartbeat : Coproc → ℕ → RpcEnvelope → List ℕ → CoprocResult × Coproc
  unfolding alloc_buffer free_buffer
  handle_heartbeat c session_id request message =
      let (allocated, c1) = alloc_buffer p c p.sizeof_heartbeat in
      let c2 = free_buffer p c1 in
      if not allocated
      then (CoprocResult.backend_error, c1)
      else if session_id == c1.session_id && is_session c1.session_id (p.decode_heartbeat message)
      then acknowledge c2 request
      else (CoprocResult.protocol_error, c2)
