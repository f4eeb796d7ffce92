-- ===== src/Host/Effects.antt =====
-- The host's calls of its environment (host-core/src/host.c): the clock, buffers, events and
-- completions. Each function takes the host and returns it with its result.
pub mod Balance
pub mod Kept
use wl_hosted_core.Prelude.{ℕ, ◌+◌, Bool, true, false, List, [], ◌∷◌, ◌==◌, if◌then◌else◌, length}
use wl_hosted_core.Prelude.Word.{ℤ, u32}
use wl_hosted_core.Protocol.Ids.Status
use wl_hosted_core.Host.Types.{
  HostResult, HostState, EventKind, EventPayload, raw, Completion, Task, Call, Platform, Host,
  Diagnostics,
}

abbrev pub record_call : Call → Host → Host
record_call c h = record h { trace = c ∷ h.trace }

-- `++` of a `uint32_t` counter.
abbrev pub increment : ℕ → ℕ
increment n = u32 (n + 1)

-- `a == b` of two states, by their numbers.
abbrev pub state_number : HostState → ℕ
state_number HostState.uninitialized = 0
state_number HostState.transport_starting = 1
state_number HostState.waiting_for_peer = 2
state_number HostState.negotiating = 3
state_number HostState.ready = 4
state_number HostState.congested = 5
state_number HostState.recovering = 6
state_number HostState.failed = 7
state_number HostState.stopping = 8

abbrev pub same_state : HostState → HostState → Bool
same_state a b = state_number a == state_number b

abbrev pub enter_state : Host → HostState → Host
enter_state h s = record h { state = s; diagnostics = record (h.diagnostics) { state = s } }

-- The environment that all functions below share.
module _ (p : Platform) where
  unfoldable pub now_ms : Host → ℕ × Host
  now_ms h = let t = p.time h.trace in (t, record_call (Call.clock t) h)

  -- `buffers.alloc`: whether the result is not NULL.
  unfoldable pub alloc_buffer : Host → ℕ → Bool × Host
  alloc_buffer h size =
      if p.alloc_ok h.trace size
      then (true, record_call (Call.alloc size) h)
      else (false, record_call (Call.alloc_failed size) h)

  unfoldable pub free_buffer : Host → Host
  free_buffer h = record_call Call.free h

  -- `executor.post`: whether it returns 0.
  unfoldable pub post_task : Host → Task → Bool × Host
  post_task h task =
      if p.post_ok h.trace task
      then (true, record_call (Call.posted task) h)
      else (false, record_call (Call.post_refused task) h)

  abbrev pub count_allocation_failure : Host → Host
  count_allocation_failure h = record h {
    diagnostics = record (h.diagnostics) {
      buffer_allocation_failures = increment (h.diagnostics).buffer_allocation_failures;
    };
  }

  unfoldable pub dispatch_event : Host → EventKind → ℕ → ℕ → EventPayload → Bool × Host
  unfolding alloc_buffer post_task free_buffer
  dispatch_event h kind service_id method_id payload =
      let (allocated, h1) = alloc_buffer h (p.sizeof_event_task + p.payload_size_of payload) in
      let (sent, h2) = post_task h1 (Task.event kind h1.state service_id method_id payload) in
      if allocated
      then (if sent then (true, h2) else (false, free_buffer h2))
      else (false, count_allocation_failure h1)

  -- The completion that cannot be posted is called at once, with an error.
  unfoldable pub dispatch_completion : Host → Completion → HostResult → ℕ → ℤ → List ℕ → Host
  unfolding alloc_buffer post_task free_buffer
  dispatch_completion h completion result status_domain status_code payload =
      let (allocated, h1) = alloc_buffer h (p.sizeof_completion_task + length payload) in
      let (sent, h2) =
        post_task h1 (Task.completion completion result status_domain status_code payload) in
      if completion == 0
      then h
      else if allocated
      then (if sent
          then h2
          else record_call (Call.completed completion HostResult.transport_error 0 Status.internal)
              (free_buffer h2))
      else record_call (Call.completed completion HostResult.no_memory 0 Status.no_memory)
          (count_allocation_failure h1)

  unfoldable pub set_state : Host → HostState → Host
  set_state h state =
      if same_state h.state state
      then h
      else (dispatch_event (enter_state h state) EventKind.state_changed 0 0 (raw [])).1
