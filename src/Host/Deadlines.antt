-- ===== src/Host/Deadlines.antt =====
-- Time: `host_process_deadlines`, `deadline_wait_ms` and `host_next_wait_ms` of
-- host-core/src/host_rpc.c.
pub mod Expire
pub mod Wait
use wl_hosted_core.Osal.Wait.{no_wait, wait_forever}
use wl_hosted_core.Prelude.{ℕ, zero, suc, ◌+◌, ◌-◌, Bool, true, false, ◌&&◌, List, []}
use wl_hosted_core.Prelude.{ltb, leb, ◌==◌, ◌!=◌, if◌then◌else◌}
use wl_hosted_core.Prelude.Word.{u64, u32_max, u64_max}
use wl_hosted_core.Protocol.Ids.Status
use wl_hosted_core.Host.Types.{
  HostResult, HostState, Platform, Config, PendingRpc, Diagnostics, Host, max_pending,
}
use wl_hosted_core.Host.Effects.{increment, same_state, now_ms, dispatch_completion}
use wl_hosted_core.Host.Pending.{clear_slot, cancel_pending}
use wl_hosted_core.Host.Link.{process_transport_lost}

-- WLH_OSAL_NO_WAIT and WLH_OSAL_WAIT_FOREVER
abbrev pub is_due : ℕ → PendingRpc → Bool
is_due current slot = slot.active && leb slot.deadline_ms current

abbrev pub count_timeout : Host → Host
count_timeout h = record h {
  diagnostics = record (h.diagnostics) { rpc_timeouts = increment (h.diagnostics).rpc_timeouts };
}

-- `current - last`, of two `uint64_t`.
abbrev pub elapsed : ℕ → ℕ → ℕ
elapsed current last = u64 (current + suc u64_max - last)

-- The peer has been silent for too long.
abbrev pub is_silent : ℕ → Host → Bool
is_silent current h =
    same_state h.state HostState.ready
    && (h.config).heartbeat_timeout_ms != 0
    && leb (h.config).heartbeat_timeout_ms (elapsed current (h.diagnostics).last_peer_activity_ms)

-- `deadline_wait_ms`
unfoldable pub deadline_wait_ms : ℕ → ℕ → ℕ
deadline_wait_ms current deadline =
    let remaining = deadline - current in
    if leb deadline current
    then no_wait
    else if leb wait_forever remaining
    then wait_forever - 1
    else remaining

-- The first loop of `host_next_wait_ms`, with `n` slots from slot `i` on to go.
unfoldable pub nearest_deadline : (ℕ → PendingRpc) → ℕ → ℕ → ℕ → ℕ
nearest_deadline pending i zero nearest = nearest
nearest_deadline pending i (suc n) nearest = nearest_deadline pending (i + 1) n (
    if (pending i).active && ltb (pending i).deadline_ms nearest
    then (pending i).deadline_ms
    else nearest)

abbrev pub nearest_heartbeat : Host → ℕ → ℕ
nearest_heartbeat h nearest =
    let deadline = u64 ((h.diagnostics).last_peer_activity_ms + (h.config).heartbeat_timeout_ms) in
    if same_state h.state HostState.ready && (h.config).heartbeat_timeout_ms != 0
    then (if ltb deadline nearest then deadline else nearest)
    else nearest

abbrev pub nearest_credit : Host → ℕ → ℕ
nearest_credit h nearest =
    if h.ethernet_rx_credit_due_ms != 0 && ltb h.ethernet_rx_credit_due_ms nearest
    then h.ethernet_rx_credit_due_ms
    else nearest

module _ (p : Platform) where
  -- The loop body of `host_process_deadlines`, for slot `i`.
  unfoldable pub expire_slot : Host → ℕ → ℕ → Host
  expire_slot h current i =
      if is_due current (h.pending i)
      then dispatch_completion p (count_timeout (clear_slot h i)) (h.pending i).completion
          HostResult.timeout Status.domain_link Status.timeout []
      else h

  unfoldable pub expire_slots : Host → ℕ → ℕ → ℕ → Host
  expire_slots h current i zero = h
  expire_slots h current i (suc n) = expire_slots (expire_slot h current i) current (i + 1) n

  -- What follows the loop.
  unfoldable pub check_heartbeat : Host → ℕ → HostResult × Host
  check_heartbeat h current =
      if is_silent current h
      then (HostResult.timeout, process_transport_lost p (cancel_pending p h HostResult.timeout))
      else (HostResult.ok, h)

  unfoldable pub host_process_deadlines : Host → HostResult × Host
  unfolding now_ms
  host_process_deadlines h =
      let (current, h1) = now_ms p h in
      check_heartbeat (expire_slots h1 current 0 max_pending) current

  unfoldable pub host_next_wait_ms : Host → ℕ × Host
  unfolding now_ms
  host_next_wait_ms h =
      let (current, h1) = now_ms p h in
      let nearest =
        nearest_credit h (nearest_heartbeat h (nearest_deadline h.pending 0 max_pending u64_max)) in
      (if nearest == u64_max then wait_forever else deadline_wait_ms current nearest, h1)
