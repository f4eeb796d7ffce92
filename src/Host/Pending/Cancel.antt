-- ===== src/Host/Pending/Cancel.antt =====
-- Cancelling: every slot is freed, and every callback that waits in the table is called once.
use wl_hosted_core.Prelude.{
  ℕ, zero, suc, ◌+◌, ◌≤◌, ◌<◌, ◌≡◌, ◌≢◌, refl, ◌∙◌, ap, arith, false, ◌&&◌, List, [], ◌∷◌, ◌==◌,
  if◌then◌else◌, Bool-cases, inl, inr, update,
}
use wl_hosted_core.Prelude.Word.{ℤ}
use wl_hosted_core.Protocol.Ids.Status
use wl_hosted_core.Host.Types.{
  HostResult, Completion, Task, Call, Trace, Platform, PendingRpc, Host, max_pending,
}
use wl_hosted_core.Host.Effects.{dispatch_completion}
use wl_hosted_core.Host.Effects.Kept.{dispatch_completion-KeptTx}
use wl_hosted_core.Host.Pending.{
  free_slot, clear_slot, is_timeout, cancel_slot, cancel_slots, cancel_pending,
}

-- A call that runs the callback, or posts a task that does.
abbrev pub notice : Completion → Call → ℕ
notice c (Call.completed d result domain code) = if d == c then 1 else 0
notice c (Call.posted (Task.completion d result domain code payload)) = if d == c then 1 else 0
notice c _ = 0

abbrev pub notices : Completion → Trace → ℕ
notices c [] = 0
notices c (call ∷ t) = notice c call + notices c t

-- How many of `n` slots from slot `i` on wait for the callback.
abbrev pub waiting : Completion → (ℕ → PendingRpc) → ℕ → ℕ → ℕ
waiting c pending i zero = 0
waiting c pending i (suc n) =
    (if (pending i).active && (pending i).completion == c then 1 else 0)
    + waiting c pending (i + 1) n

waiting_agree :
    (c : Completion) (f g : ℕ → PendingRpc) (i n : ℕ)
    → ((j : ℕ) → i ≤ j → f j ≡ g j)
    → waiting c f i n ≡ waiting c g i n
waiting_agree c f g i zero same = refl
waiting_agree c f g i (suc n) same = rw (same i (omega arith)) (
    ap (λ (k : ℕ). (if (g i).active && (g i).completion == c then 1 else 0) + k)
      (waiting_agree c f g (i + 1) n (λ j low. same j (omega arith))))

module _ (p : Platform) where
  -- A callback that is not NULL is called once or posted once.
  pub notices-dispatch_completion :
      (c : Completion)
      → c ≢ 0
      → (h : Host) (d : Completion) (r : HostResult) (domain : ℕ) (code : ℤ) (payload : List ℕ)
      → notices c (dispatch_completion p h d r domain code payload).trace
        ≡ (if d == c then 1 else 0) + notices c h.trace
  unfolding dispatch_completion
  notices-dispatch_completion c some_c h d r domain code payload = ground arith

  pending-cancel_slot :
      (h : Host) (r : HostResult) (i : ℕ)
      → (cancel_slot p h r i).pending
        ≡ (if (h.pending i).active then update h.pending i free_slot else h.pending)
  unfolding cancel_slot
  pending-cancel_slot h r i = elim (Bool-cases (h.pending i).active) [
    | inl busy ↦ rw busy (
        let kept =
          dispatch_completion-KeptTx p (clear_slot h i) (h.pending i).completion r
            Status.domain_link (if is_timeout r then Status.timeout else Status.session_changed)
            [] in
        (kept.kept).pending)
    | inr idle ↦ rw idle refl
  ]

  active-cancel_slot :
      (h : Host) (r : HostResult) (i j : ℕ)
      → ((cancel_slot p h r i).pending j).active ≡ (if j == i then false else (h.pending j).active)
  active-cancel_slot h r i j = rw (pending-cancel_slot h r i) (ground arith)

  later-cancel_slot :
      (h : Host) (r : HostResult) (i j : ℕ) → i < j → (cancel_slot p h r i).pending j ≡ h.pending j
  later-cancel_slot h r i j later = rw (pending-cancel_slot h r i) (ground arith)

  notices-cancel_slot :
      (c : Completion)
      → c ≢ 0
      → (h : Host) (r : HostResult) (i : ℕ)
      → notices c (cancel_slot p h r i).trace
        ≡ (if (h.pending i).active && (h.pending i).completion == c then 1 else 0)
          + notices c h.trace
  unfolding cancel_slot
  notices-cancel_slot c some_c h r i = elim (Bool-cases (h.pending i).active) [
    | inl busy ↦ rw busy (
        notices-dispatch_completion c some_c (clear_slot h i) (h.pending i).completion r
          Status.domain_link (if is_timeout r then Status.timeout else Status.session_changed) [])
    | inr idle ↦ rw idle (omega arith)
  ]

  idle-cancel_slots :
      (h : Host) (r : HostResult) (i n j : ℕ)
      → (h.pending j).active ≡ false
      → ((cancel_slots p h r i n).pending j).active ≡ false
  unfolding cancel_slots
  idle-cancel_slots h r i zero j idle = idle
  idle-cancel_slots h r i (suc n) j idle =
      idle-cancel_slots (cancel_slot p h r i) r (i + 1) n j
        (ground (arith, active-cancel_slot h r i j))

  freed-cancel_slots :
      (h : Host) (r : HostResult) (i n j : ℕ)
      → i ≤ j
      → j < i + n
      → ((cancel_slots p h r i n).pending j).active ≡ false
  unfolding cancel_slots
  freed-cancel_slots h r i zero j low high = ground arith
  freed-cancel_slots h r i (suc n) j low high = elim (Bool-cases (j == i)) [
    | inl here ↦
        idle-cancel_slots (cancel_slot p h r i) r (i + 1) n j
          (active-cancel_slot h r i j ∙ rw here refl)
    | inr later ↦
        freed-cancel_slots (cancel_slot p h r i) r (i + 1) n j (ground arith) (omega arith)
  ]

  notices-cancel_slots :
      (c : Completion)
      → c ≢ 0
      → (h : Host) (r : HostResult) (i n : ℕ)
      → notices c (cancel_slots p h r i n).trace ≡ waiting c h.pending i n + notices c h.trace
  unfolding cancel_slots
  notices-cancel_slots c some_c h r i zero = omega arith
  notices-cancel_slots c some_c h r i (suc n) =
      let rest = notices-cancel_slots c some_c (cancel_slot p h r i) r (i + 1) n in
      let same =
        waiting_agree c (cancel_slot p h r i).pending h.pending (i + 1) n
          (λ j later. later-cancel_slot h r i j (omega arith)) in
      omega (arith, rest, same, notices-cancel_slot c some_c h r i)

  -- Afterwards no slot of the table is in use.
  pub cancel_pending_frees :
      (h : Host) (r : HostResult) (j : ℕ)
      → j < max_pending
      → ((cancel_pending p h r).pending j).active ≡ false
  unfolding cancel_pending
  cancel_pending_frees h r j bound = freed-cancel_slots h r 0 max_pending j (omega arith) bound

  -- A callback that is not NULL is called, or posted to be called, as many times more as there are
  -- slots in use that wait for it.
  pub notices-cancel_pending :
      (c : Completion)
      → c ≢ 0
      → (h : Host) (r : HostResult)
      → notices c (cancel_pending p h r).trace
        ≡ waiting c h.pending 0 max_pending + notices c h.trace
  unfolding cancel_pending
  notices-cancel_pending c some_c h r = notices-cancel_slots c some_c h r 0 max_pending
