-- ===== src/Host/Deadlines/Expire.antt =====
-- After the deadlines are processed nothing that waits is overdue.
use wl_hosted_core.Prelude.{
  ℕ, zero, suc, ◌+◌, ◌≤◌, ◌<◌, ◌≡◌, refl, ◌∙◌, ap, arith, false, [], ◌==◌, if◌then◌else◌,
  Bool-cases, inl, inr, update,
}
use wl_hosted_core.Protocol.Ids.Status
use wl_hosted_core.Host.Types.{HostResult, Call, Platform, PendingRpc, Host, max_pending}
use wl_hosted_core.Host.Effects.{now_ms, record_call}
use wl_hosted_core.Host.Effects.Kept.{dispatch_completion-KeptTx}
use wl_hosted_core.Host.Pending.{free_slot, clear_slot, cancel_pending}
use wl_hosted_core.Host.Pending.Cancel.{cancel_pending_frees}
use wl_hosted_core.Host.Link.{process_transport_lost}
use wl_hosted_core.Host.Link.Session.{is_down, process_transport_lost_lem}
use wl_hosted_core.Host.Deadlines.{
  is_due, count_timeout, is_silent, expire_slot, expire_slots, check_heartbeat,
  host_process_deadlines,
}

idle_is_not_due :
    (current : ℕ) (slot : PendingRpc) → slot.active ≡ false → is_due current slot ≡ false
idle_is_not_due current slot idle = rw idle refl

module _ (p : Platform) where
  pending-expire_slot :
      (h : Host) (current i : ℕ)
      → (expire_slot p h current i).pending
        ≡ (if is_due current (h.pending i) then update h.pending i free_slot else h.pending)
  unfolding expire_slot
  pending-expire_slot h current i = elim (Bool-cases (is_due current (h.pending i))) [
    | inl due ↦ rw due (
        let kept =
          dispatch_completion-KeptTx p (count_timeout (clear_slot h i)) (h.pending i).completion
            HostResult.timeout Status.domain_link Status.timeout [] in
        (kept.kept).pending)
    | inr later ↦ rw later refl
  ]

  -- A step never makes a slot due, and its own slot is not due then.
  due-expire_slot :
      (h : Host) (current i j : ℕ)
      → is_due current ((expire_slot p h current i).pending j)
        ≡ (if j == i then false else is_due current (h.pending j))
  due-expire_slot h current i j =
      rw (pending-expire_slot h current i) (elim (Bool-cases (is_due current (h.pending i))) [
        | inl due ↦ rw due (ground arith)
        | inr later ↦ rw later (elim (Bool-cases (j == i)) [
          | inl here ↦
              let same : j ≡ i = ground arith in
              rw here (ap (λ (k : ℕ). is_due current (h.pending k)) same ∙ later)
          | inr there ↦ rw there refl
        ])
      ])

  settled-expire_slots :
      (h : Host) (current i n j : ℕ)
      → is_due current (h.pending j) ≡ false
      → is_due current ((expire_slots p h current i n).pending j) ≡ false
  unfolding expire_slots
  settled-expire_slots h current i zero j settled = settled
  settled-expire_slots h current i (suc n) j settled =
      settled-expire_slots (expire_slot p h current i) current (i + 1) n j (
        due-expire_slot h current i j
        ∙ (elim (Bool-cases (j == i)) [ inl here ↦ rw here refl | inr there ↦ rw there settled ]))

  reached-expire_slots :
      (h : Host) (current i n j : ℕ)
      → i ≤ j
      → j < i + n
      → is_due current ((expire_slots p h current i n).pending j) ≡ false
  unfolding expire_slots
  reached-expire_slots h current i zero j low high = ground arith
  reached-expire_slots h current i (suc n) j low high = elim (Bool-cases (j == i)) [
    | inl here ↦
        settled-expire_slots (expire_slot p h current i) current (i + 1) n j
          (due-expire_slot h current i j ∙ rw here refl)
    | inr later ↦
        reached-expire_slots (expire_slot p h current i) current (i + 1) n j (ground arith)
          (omega arith)
  ]

  idle-process_transport_lost :
      (h : Host) (j : ℕ)
      → j < max_pending
      → (h.pending j).active ≡ false
      → ((process_transport_lost p h).pending j).active ≡ false
  unfolding process_transport_lost
  idle-process_transport_lost h j bound idle = elim (Bool-cases (is_down h)) [
    | inl down ↦ rw down idle
    | inr up ↦ let lost = process_transport_lost_lem p h up in (lost.0).idle j bound
  ]

  check_heartbeat-settled :
      (h : Host) (current j : ℕ)
      → j < max_pending
      → is_due current (h.pending j) ≡ false
      → is_due current ((check_heartbeat p h current).1.pending j) ≡ false
  unfolding check_heartbeat
  check_heartbeat-settled h current j bound settled = elim (Bool-cases (is_silent current h)) [
    | inr lively ↦ rw lively settled
    | inl silent ↦ rw silent (
        let h1 = cancel_pending p h HostResult.timeout in
        idle_is_not_due current ((process_transport_lost p h1).pending j) (
          idle-process_transport_lost h1 j bound
            (cancel_pending_frees p h HostResult.timeout j bound)))
  ]

  -- No slot in use has a deadline that the time read has reached, whichever way the call ends.
  pub host_process_deadlines-settled :
      (h : Host) (j : ℕ)
      → j < max_pending
      → is_due (p.time h.trace) ((host_process_deadlines p h).1.pending j) ≡ false
  unfolding host_process_deadlines now_ms
  host_process_deadlines-settled h j bound =
      let current = p.time h.trace in
      let h1 = record_call (Call.clock current) h in
      check_heartbeat-settled (expire_slots p h1 current 0 max_pending) current j bound
        (reached-expire_slots h1 current 0 max_pending j (omega arith) bound)
