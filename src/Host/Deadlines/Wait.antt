-- ===== src/Host/Deadlines/Wait.antt =====
-- The worker never sleeps past a deadline.
use wl_hosted_core.Osal.Wait.{wait_forever}
use wl_hosted_core.Prelude.{
  ℕ, zero, suc, ◌+◌, ◌-◌, ◌≤◌, ◌<◌, ◌≡◌, arith, true, ◌&&◌, ltb, ◌==◌, if◌then◌else◌, Bool-cases,
  inl, inr,
}
use wl_hosted_core.Prelude.Word.{u64_max}
use wl_hosted_core.Host.Types.{Platform, PendingRpc, Host, max_pending}
use wl_hosted_core.Host.Effects.{now_ms}
use wl_hosted_core.Host.Deadlines.{
  deadline_wait_ms, nearest_deadline, nearest_heartbeat, nearest_credit, host_next_wait_ms,
}

-- One step of the loop.
abbrev closer : PendingRpc → ℕ → ℕ
closer slot nearest =
    if slot.active && ltb slot.deadline_ms nearest then slot.deadline_ms else nearest

closer-le : (slot : PendingRpc) (nearest : ℕ) → closer slot nearest ≤ nearest
closer-le slot nearest = ground arith

closer-active :
    (slot : PendingRpc) (nearest : ℕ) → slot.active ≡ true → closer slot nearest ≤ slot.deadline_ms
closer-active slot nearest busy = ground arith

-- The loop finds a lower bound of what it starts from and of all active deadlines.
nearest_deadline-le :
    (pending : ℕ → PendingRpc) (i n nearest : ℕ) → nearest_deadline pending i n nearest ≤ nearest
unfolding nearest_deadline
nearest_deadline-le pending i zero nearest = omega arith
nearest_deadline-le pending i (suc n) nearest = omega (
  arith,
  nearest_deadline-le pending (i + 1) n (closer (pending i) nearest),
  closer-le (pending i) nearest,
)

nearest_deadline-active :
    (pending : ℕ → PendingRpc) (i n nearest j : ℕ)
    → i ≤ j
    → j < i + n
    → (pending j).active ≡ true
    → nearest_deadline pending i n nearest ≤ (pending j).deadline_ms
unfolding nearest_deadline
nearest_deadline-active pending i zero nearest j low high busy = omega arith
nearest_deadline-active pending i (suc n) nearest j low high busy = elim (Bool-cases (j == i)) [
  | inl here ↦
      let same : i ≡ j = ground arith in
      rw same (
        omega (
          arith,
          nearest_deadline-le pending (j + 1) n (closer (pending j) nearest),
          closer-active (pending j) nearest busy,
        ))
  | inr later ↦
      nearest_deadline-active pending (i + 1) n (closer (pending i) nearest) j (ground arith)
        (omega arith) busy
]

deadline_wait_ms-le :
    (current deadline : ℕ) → deadline_wait_ms current deadline ≤ deadline - current
unfolding deadline_wait_ms
deadline_wait_ms-le current deadline = ground arith

deadline_wait_ms-lt : (current deadline : ℕ) → deadline_wait_ms current deadline < wait_forever
unfolding deadline_wait_ms
deadline_wait_ms-lt current deadline = ground arith

wait_until :
    (current nearest deadline : ℕ)
    → nearest ≤ deadline
    → deadline < u64_max
    → ((if nearest == u64_max then wait_forever else deadline_wait_ms current nearest)
        ≤ deadline - current)
      × ((if nearest == u64_max then wait_forever else deadline_wait_ms current nearest)
          < wait_forever)
wait_until current nearest deadline close small =
    ground (arith, deadline_wait_ms-le current nearest, deadline_wait_ms-lt current nearest)

nearest_heartbeat-le : (h : Host) (nearest : ℕ) → nearest_heartbeat h nearest ≤ nearest
nearest_heartbeat-le h nearest = ground arith

nearest_credit-le : (h : Host) (nearest : ℕ) → nearest_credit h nearest ≤ nearest
nearest_credit-le h nearest = ground arith

nearest_credit-due :
    (h : Host) (nearest : ℕ)
    → 0 < h.ethernet_rx_credit_due_ms
    → nearest_credit h nearest ≤ h.ethernet_rx_credit_due_ms
nearest_credit-due h nearest due = ground arith

module _ (p : Platform) (h : Host) where
  -- While a request waits for its response, the wait that the worker computes is finite and ends at
  -- the request's deadline at the latest, if the deadline is not the largest 64-bit number.
  pub host_next_wait_ms-deadline :
      (j : ℕ)
      → j < max_pending
      → (h.pending j).active ≡ true
      → (h.pending j).deadline_ms < u64_max
      → ((host_next_wait_ms p h).0 ≤ (h.pending j).deadline_ms - p.time h.trace)
        × ((host_next_wait_ms p h).0 < wait_forever)
  unfolding host_next_wait_ms now_ms
  host_next_wait_ms-deadline j bound busy small =
      let nearest = nearest_deadline h.pending 0 max_pending u64_max in
      wait_until (p.time h.trace) (nearest_credit h (nearest_heartbeat h nearest))
        (h.pending j).deadline_ms
        (omega (
          arith,
          nearest_credit-le h (nearest_heartbeat h nearest),
          nearest_heartbeat-le h nearest,
          nearest_deadline-active h.pending 0 max_pending u64_max j (omega arith) bound busy,
        ))
        small

  -- While Ethernet credit is owed, the wait is finite and ends when it is due at the latest.
  pub host_next_wait_ms-credit :
      0 < h.ethernet_rx_credit_due_ms
      → h.ethernet_rx_credit_due_ms < u64_max
      → ((host_next_wait_ms p h).0 ≤ h.ethernet_rx_credit_due_ms - p.time h.trace)
        × ((host_next_wait_ms p h).0 < wait_forever)
  unfolding host_next_wait_ms now_ms
  host_next_wait_ms-credit due small =
      let nearest = nearest_heartbeat h (nearest_deadline h.pending 0 max_pending u64_max) in
      wait_until (p.time h.trace) (nearest_credit h nearest) h.ethernet_rx_credit_due_ms
        (nearest_credit-due h nearest due) small
