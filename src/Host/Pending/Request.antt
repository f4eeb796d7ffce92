-- ===== src/Host/Pending/Request.antt =====
-- Requests: a slot is taken only for a request that is sent.
use wl_hosted_core.Prelude.{
  ℕ, zero, suc, ◌+◌, ◌≤◌, ◌<◌, ◌≡◌, refl, arith, Bool, true, false, not, some, if◌then◌else◌,
  Bool-cases, Option-cases, inl, inr, update, min,
}
use wl_hosted_core.Protocol.Result.{bytes}
use wl_hosted_core.Host.Types.{
  HostResult, HostState, Call, Platform, PendingRpc, Host, RpcJob, max_pending,
}
use wl_hosted_core.Host.Effects.{now_ms, record_call, same_state}
use wl_hosted_core.Host.Send.{is_ok, send_rpc}
use wl_hosted_core.Host.Send.Kept.{send_rpc-Kept}
use wl_hosted_core.Host.Pending.{
  free_slot, first_slot, allocate_pending, request_envelope, request_slot, request_in_slot,
  process_rpc_request,
}

module _ (test : PendingRpc → Bool) (pending : ℕ → PendingRpc) where
  -- What a search finds is in the range, passes, and is the first that does.
  pub first_slot_sound :
      (i n k : ℕ)
      → first_slot test pending i n ≡ some k
      → (i ≤ k) × (k < i + n) × (test (pending k) ≡ true)
  unfolding first_slot
  first_slot_sound i zero k found = cc
  first_slot_sound i (suc n) k found = elim (Bool-cases (test (pending i))) [
    | inl here ↦ ground arith
    | inr later ↦ ground (arith, first_slot_sound (i + 1) n k)
  ]

  -- A slot in the range that passes the test is not missed.
  pub first_slot_complete :
      (i n j : ℕ)
      → i ≤ j
      → j < i + n
      → test (pending j) ≡ true
      → (k : ℕ) × (first_slot test pending i n ≡ some k)
  unfolding first_slot
  first_slot_complete i zero j low high passes = absurd (omega arith)
  first_slot_complete i (suc n) j low high passes = elim (Bool-cases (test (pending i))) [
    | inl here ↦ rw here (i, refl)
    | inr later ↦
        let above : i + 1 ≤ j = ground arith in
        rw later (first_slot_complete (i + 1) n j above (omega arith) passes)
  ]

-- The effect of a request on the table.
abbrev pub Recorded : Host → RpcJob → ℕ → HostResult × Host → Type 0
Recorded h job time out =
    if is_ok out.0
    then ((k : ℕ) × (k < min (h.config).max_pending_rpc max_pending)
        × ((h.pending k).active ≡ false)
        × (out.1.pending ≡ update h.pending k (request_slot h job time)))
    else ((j : ℕ) → (out.1.pending j).active ≡ (h.pending j).active)

-- A slot that is filled and cleared again.
restored :
    (f g : ℕ → PendingRpc) (slot : PendingRpc) (i j : ℕ)
    → g ≡ update f i slot
    → (f i).active ≡ false
    → (update g i free_slot j).active ≡ (f j).active
restored f g slot i j filled idle = rw filled (ground arith)

module _ (p : Platform) (h : Host) (job : RpcJob) where
  abbrev requested : ℕ → Host
  requested i = record (record_call (Call.clock (p.time h.trace)) h) {
    pending = update h.pending i (request_slot h job (p.time h.trace));
  }

  request_in_slot-Recorded :
      (i : ℕ)
      → i < min (h.config).max_pending_rpc max_pending
      → (h.pending i).active ≡ false
      → Recorded h job (p.time h.trace) (request_in_slot p h job (some i))
  unfolding request_in_slot now_ms
  request_in_slot-Recorded i bound idle =
      let out = send_rpc p (requested i) (request_envelope job) (bytes job.payload) false in
      let same =
        (send_rpc-Kept p (requested i) (request_envelope job) (bytes job.payload) false).pending in
      elim (Bool-cases (is_ok out.0)) [
        | inl sent ↦ rw sent (i, bound, idle, same)
        | inr refused ↦ rw refused (
            rw refused (λ j.
              restored h.pending out.1.pending (request_slot h job (p.time h.trace)) i j same idle))
      ]

  -- A request that is accepted has, from then on, a slot of the allowed part of the table that was
  -- free before, with its session, numbers, deadline and callback; no other slot changes. A request
  -- that is refused, for whatever reason, leaves in use just the slots that were.
  pub process_rpc_request-Recorded : Recorded h job (p.time h.trace) (process_rpc_request p h job)
  unfolding process_rpc_request allocate_pending request_in_slot
  process_rpc_request-Recorded = elim (Bool-cases (same_state h.state HostState.ready)) [
    | inr other ↦ rw other (λ j. refl)
    | inl ready ↦ rw ready (elim (Option-cases (allocate_pending h)) [
      | inl full ↦ rw full (λ j. refl)
      | inr (i, found) ↦
          let sound =
            first_slot_sound (λ slot. not slot.active) h.pending 0
              (min (h.config).max_pending_rpc max_pending) i found in
          rw found (request_in_slot-Recorded i (omega (arith, sound)) (ground (arith, sound)))
    ])
  ]
