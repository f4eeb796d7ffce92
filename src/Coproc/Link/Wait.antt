-- ===== src/Coproc/Link/Wait.antt =====
-- Heartbeats are sent in time: `coproc_next_wait_ms` and `coproc_emit_due_heartbeat` of
-- coproc-core/src/coproc_link.c.
use wl_hosted_core.Osal.Wait.{wait_forever}
use wl_hosted_core.Prelude.{ℕ, ◌+◌, ◌-◌, ◌^◌, ◌≤◌, ◌<◌, ◌≡◌, refl, arith, true, ◌&&◌, ◌∷◌, leb}
use wl_hosted_core.Protocol.Ids.Method
use wl_hosted_core.Protocol.Ids.Service
use wl_hosted_core.Protocol.Ids.Status
use wl_hosted_core.Protocol.Rpc.{kind_event}
use wl_hosted_core.Coproc.Types.{CoprocState, Call, Platform, Coproc}
use wl_hosted_core.Coproc.Types.Messages.{heartbeat}
use wl_hosted_core.Coproc.Send.{envelope, send_rpc_message}
use wl_hosted_core.Coproc.Effects.{now_ms, alloc_buffer, free_buffer}
use wl_hosted_core.Coproc.Link.{elapsed, is_up, next_wait_ms, emit_due_heartbeat, send_heartbeat}

-- A later moment, at which neither the state nor the last heartbeat is another.
pub record IsLater (p : Platform) (c c' : Coproc) : Type 0 where
  pub state : c'.state ≡ c.state
  pub config : c'.config ≡ c.config
  pub last_heartbeat_ms : c'.last_heartbeat_ms ≡ c.last_heartbeat_ms
  pub waited : p.time c.trace + next_wait_ms p c ≤ p.time c'.trace
  pub fits : p.time c'.trace < 2 ^ 64

elapsed_lem : (a b : ℕ) → b ≤ a → a < 2 ^ 64 → elapsed a b ≡ a - b
elapsed_lem a b le lt = omega arith

module _ (p : Platform) (c : Coproc) (is_ready : c.state ≡ CoprocState.ready)
    (past : c.last_heartbeat_ms ≤ p.time c.trace)
    (fits : c.last_heartbeat_ms + (c.config).heartbeat_interval_ms < 2 ^ 64) where
  next_wait_ms-finite : next_wait_ms p c < wait_forever
  unfolding next_wait_ms
  next_wait_ms-finite = rw is_ready (ground arith)

  next_wait_ms-enough :
      (c.config).heartbeat_interval_ms < wait_forever
      → c.last_heartbeat_ms + (c.config).heartbeat_interval_ms ≤ p.time c.trace + next_wait_ms p c
  unfolding next_wait_ms
  next_wait_ms-enough short = rw is_ready (ground arith)

  heartbeat_due :
      (c' : Coproc)
      → IsLater p c c'
      → (c.config).heartbeat_interval_ms < wait_forever
      → (is_up c'
          && leb (c'.config).heartbeat_interval_ms (elapsed (p.time c'.trace) c'.last_heartbeat_ms))
        ≡ true
  heartbeat_due c' later short =
      let enough = next_wait_ms-enough short in
      let waited = later.waited in
      let interval : (c.config).heartbeat_interval_ms ≤ p.time c'.trace - c.last_heartbeat_ms =
        omega arith in
      let age = elapsed_lem (p.time c'.trace) c.last_heartbeat_ms (omega arith) later.fits in
      rw later.state
        (rw is_ready (rw later.config (rw later.last_heartbeat_ms (rw age (ground arith)))))

  -- A coprocessor that is ready, whose last heartbeat is past and whose interval is shorter than
  -- the longest wait, with no overflow of 64 bits: the wait that it computes is finite; and once it
  -- has waited so long, and a buffer is granted, a heartbeat with its session, the time and what has
  -- passed since its start is handed to `send_rpc_message`, and the time is noted as the last
  -- heartbeat's.
  pub heartbeat_in_time :
      (c' : Coproc)
      → IsLater p c c'
      → (c.config).heartbeat_interval_ms < wait_forever
      → c'.started_ms ≤ p.time c'.trace
      → p.alloc_ok (Call.clock (p.time c'.trace) ∷ c'.trace) p.sizeof_heartbeat ≡ true
      → let now = p.time c'.trace in
        let granted = record c' {
          trace = Call.alloc p.sizeof_heartbeat ∷ Call.clock now ∷ c'.trace;
        } in
        let sent =
          (send_rpc_message p granted
            (envelope Service.link Method.link_heartbeat 0 kind_event Status.domain_none Status.ok)
            (heartbeat (record {
              session_id = c'.session_id;
              uptime_ms = now - c'.started_ms;
              monotonic_ms = now;
            }))).1 in
        (next_wait_ms p c < wait_forever)
        × ((emit_due_heartbeat p c').1
            ≡ record sent { trace = Call.free ∷ sent.trace; last_heartbeat_ms = now })
  unfolding emit_due_heartbeat now_ms send_heartbeat alloc_buffer free_buffer
  heartbeat_in_time c' later short started granted =
      let up = elapsed_lem (p.time c'.trace) c'.started_ms started later.fits in
      (next_wait_ms-finite, rw (heartbeat_due c' later short) (rw granted (rw up refl)))
