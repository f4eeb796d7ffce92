-- ===== src/Coproc/Effects.antt =====
-- The coprocessor's calls of its environment (coproc-core/src/coproc.c): the clock, buffers and the
-- job queue. Each function takes the coprocessor and returns it with its result.
pub mod Quiet
use wl_hosted_core.Prelude.{ℕ, ◌+◌, Bool, true, false, ◌∷◌, if◌then◌else◌}
use wl_hosted_core.Prelude.Word.{u32}
use wl_hosted_core.Coproc.Types.{CoprocResult, CoprocState, Job, Call, Platform, Coproc, same_state}

abbrev pub is_ok : CoprocResult → Bool
is_ok CoprocResult.ok = true
is_ok _ = false

abbrev pub record_call : Call → Coproc → Coproc
record_call call c = record c { trace = call ∷ c.trace }

-- `++` of a `uint32_t`.
abbrev pub increment : ℕ → ℕ
increment n = u32 (n + 1)

-- A change of state is only logged.
unfoldable pub set_state : Coproc → CoprocState → Coproc
set_state c state =
    if same_state c.state state
    then c
    else record c { state = state; diagnostics = record (c.diagnostics) { state = state } }

-- The environment that all functions below share.
module _ (p : Platform) where
  unfoldable pub now_ms : Coproc → ℕ × Coproc
  now_ms c = let t = p.time c.trace in (t, record_call (Call.clock t) c)

  -- `buffers.alloc`: whether the result is not NULL.
  unfoldable pub alloc_buffer : Coproc → ℕ → Bool × Coproc
  alloc_buffer c size =
      if p.alloc_ok c.trace size
      then (true, record_call (Call.alloc size) c)
      else (false, record_call (Call.alloc_failed size) c)

  unfoldable pub free_buffer : Coproc → Coproc
  free_buffer c = record_call Call.free c

  -- Whether the result is 0.
  unfoldable pub enqueue_job : Coproc → Job → Bool × Coproc
  enqueue_job c job =
      if c.worker_started
      then (if p.queue_ok c.trace job
          then (true, record_call (Call.enqueued job) c)
          else (false, record_call (Call.enqueue_refused job) c))
      else (false, c)

  -- What follows the allocation of a job's payload: the payload is freed if it cannot be queued.
  unfoldable pub enqueue_or_free : Coproc → Job → CoprocResult × Coproc
  unfolding enqueue_job free_buffer
  enqueue_or_free c job =
      let (sent, c1) = enqueue_job c job in
      if sent then (CoprocResult.ok, c1) else (CoprocResult.backend_error, free_buffer c1)
