-- ===== src/Host/Pending.antt =====
-- The table of requests that wait for a response: host-core/src/host_rpc.c.
pub mod Cancel
pub mod Request
use wl_hosted_core.Prelude.{
  ℕ, zero, suc, ◌+◌, Bool, true, false, not, ◌&&◌, List, [], Option, none, some,
}
use wl_hosted_core.Prelude.{ltb, ◌==◌, if◌then◌else◌, update, min}
use wl_hosted_core.Prelude.Word.{ℤ, pos, u64}
use wl_hosted_core.Protocol.Result.{bytes}
use wl_hosted_core.Protocol.Ids.Status
use wl_hosted_core.Protocol.Rpc.{RpcEnvelope, kind_request}
use wl_hosted_core.Host.Types.{
  HostResult, HostState, Platform, Config, PendingRpc, Host, RpcJob, max_pending,
}
use wl_hosted_core.Host.Effects.{now_ms, dispatch_completion, same_state}
use wl_hosted_core.Host.Send.{is_ok, send_rpc}

-- What `memset` leaves of a slot.
abbrev pub free_slot : PendingRpc
free_slot = record {
  active = false;
  session_id = 0;
  request_id = 0;
  service_id = 0;
  method_id = 0;
  deadline_ms = 0;
  completion = 0;
}

abbrev pub clear_slot : Host → ℕ → Host
clear_slot h i = record h { pending = update h.pending i free_slot }

abbrev pub is_timeout : HostResult → Bool
is_timeout HostResult.timeout = true
is_timeout _ = false

-- The first of `n` slots from slot `i` on that passes a test.
unfoldable pub first_slot : (PendingRpc → Bool) → (ℕ → PendingRpc) → ℕ → ℕ → Option ℕ
first_slot test pending i zero = none
first_slot test pending i (suc n) =
    let rest = first_slot test pending (i + 1) n in if test (pending i) then some i else rest

unfoldable pub allocate_pending : Host → Option ℕ
allocate_pending h =
    first_slot (λ slot. not slot.active) h.pending 0 (min (h.config).max_pending_rpc max_pending)

-- The test of `find_pending`.
abbrev pub answers : Host → RpcEnvelope → PendingRpc → Bool
answers h e slot =
    slot.active
    && slot.session_id == h.session_id
    && slot.request_id == e.request_id
    && slot.service_id == e.service_id
    && slot.method_id == e.method_id

unfoldable pub find_pending : Host → RpcEnvelope → Option ℕ
find_pending h e = first_slot (answers h e) h.pending 0 max_pending

abbrev pub request_envelope : RpcJob → RpcEnvelope
request_envelope job = record {
  service_id = job.service_id;
  method_id = job.method_id;
  request_id = job.request_id;
  kind = kind_request;
  flags = 0;
  payload_size = 0;
  status_domain = 0;
  status_code = pos 0;
}

-- The slot of a request that is made at a time.
abbrev pub request_slot : Host → RpcJob → ℕ → PendingRpc
request_slot h job time = record {
  active = true;
  session_id = h.session_id;
  request_id = job.request_id;
  service_id = job.service_id;
  method_id = job.method_id;
  deadline_ms =
      u64 (time + (if job.timeout_ms == 0 then (h.config).rpc_timeout_ms else job.timeout_ms));
  completion = job.completion;
}

module _ (p : Platform) where
  -- The loop bodies of `cancel_pending`, for slot `i`.
  unfoldable pub cancel_slot : Host → HostResult → ℕ → Host
  cancel_slot h result i =
      if (h.pending i).active
      then dispatch_completion p (clear_slot h i) (h.pending i).completion result Status.domain_link
          (if is_timeout result then Status.timeout else Status.session_changed) []
      else h

  -- Its loop, with `n` slots from slot `i` on to go.
  unfoldable pub cancel_slots : Host → HostResult → ℕ → ℕ → Host
  cancel_slots h result i zero = h
  cancel_slots h result i (suc n) = cancel_slots (cancel_slot h result i) result (i + 1) n

  unfoldable pub cancel_pending : Host → HostResult → Host
  cancel_pending h result = cancel_slots h result 0 max_pending

  unfoldable pub request_in_slot : Host → RpcJob → Option ℕ → HostResult × Host
  request_in_slot h job none = (HostResult.pending_full, h)
  request_in_slot h job (some i) =
      let (time, h1) = now_ms p h in
      let h2 = record h1 { pending = update h1.pending i (request_slot h job time) } in
      let (result, h3) = send_rpc p h2 (request_envelope job) (bytes job.payload) false in
      if is_ok result then (HostResult.ok, h3) else (result, clear_slot h3 i)

  unfoldable pub process_rpc_request : Host → RpcJob → HostResult × Host
  process_rpc_request h job =
      if same_state h.state HostState.ready
      then request_in_slot h job (allocate_pending h)
      else (HostResult.invalid_state, h)
