-- ===== src/Host/Frame/Respond.antt =====
-- A response completes the request that it answers.
use wl_hosted_core.Prelude.{
  ℕ, ◌+◌, ◌<◌, ◌≡◌, ◌≢◌, refl, ◌∙◌, arith, true, false, ◌&&◌, List, some, ◌==◌, if◌then◌else◌,
  update,
}
use wl_hosted_core.Protocol.Ids.Method
use wl_hosted_core.Protocol.Ids.Service
use wl_hosted_core.Protocol.Rpc.{RpcEnvelope, is_status_ok}
use wl_hosted_core.Host.Types.{HostResult, HostState, Platform, Host, max_pending}
use wl_hosted_core.Host.Effects.{same_state}
use wl_hosted_core.Host.Effects.Kept.{dispatch_completion-KeptTx}
use wl_hosted_core.Host.Pending.{free_slot, clear_slot, answers, find_pending}
use wl_hosted_core.Host.Pending.Cancel.{notices, notices-dispatch_completion}
use wl_hosted_core.Host.Pending.Request.{first_slot_sound, first_slot_complete}
use wl_hosted_core.Host.Frame.{respond, process_response}

-- The request in a slot is the one that a response names.
pub record IsAnswered (h : Host) (e : RpcEnvelope) (i : ℕ) : Type 0 where
  pub bound : i < max_pending
  pub active : (h.pending i).active ≡ true
  pub session_id : (h.pending i).session_id ≡ h.session_id
  pub request_id : (h.pending i).request_id ≡ e.request_id
  pub service_id : (h.pending i).service_id ≡ e.service_id
  pub method_id : (h.pending i).method_id ≡ e.method_id

find_pending-IsAnswered :
    (h : Host) (e : RpcEnvelope) (i : ℕ) → find_pending h e ≡ some i → IsAnswered h e i
unfolding find_pending
find_pending-IsAnswered h e i found =
    let sound = first_slot_sound (answers h e) h.pending 0 max_pending i found in
    ground (arith, sound)

-- The table has no slot in use for a response that `find_pending` would miss.
find_pending_complete :
    (h : Host) (e : RpcEnvelope) (j : ℕ) → IsAnswered h e j → (i : ℕ) × (find_pending h e ≡ some i)
unfolding find_pending
find_pending_complete h e j is =
    first_slot_complete (answers h e) h.pending 0 max_pending j (omega arith) is.bound
      (ground (arith, is.active, is.session_id, is.request_id, is.service_id, is.method_id))

-- One slot is freed, and its callback is called, or posted to be called, once if it is not NULL.
pub record Completes (h : Host) (e : RpcEnvelope) (out : HostResult × Host) (i : ℕ) : Type 0 where
  pub answered : IsAnswered h e i
  pub result : out.0 ≡ HostResult.ok
  pub freed : out.1.pending ≡ update h.pending i free_slot
  pub told :
      (h.pending i).completion ≢ 0
      → notices (h.pending i).completion out.1.trace ≡ 1 + notices (h.pending i).completion h.trace

module _ (p : Platform) (h : Host) (e : RpcEnvelope) (payload : List ℕ) where
  found-Completes :
      (i : ℕ)
      → find_pending h e ≡ some i
      → same_state h.state HostState.negotiating ≡ false
      → Completes h e (process_response p h e payload) i
  unfolding process_response respond
  found-Completes i found settled =
      let quiet : (e.service_id == Service.link
            && e.method_id == Method.link_hello
            && same_state h.state HostState.negotiating)
          ≡ false =
        ground (arith, settled) in
      let result =
        if is_status_ok e.status_code then HostResult.ok else HostResult.protocol_error in
      let h1 = clear_slot h i in
      let told =
        dispatch_completion-KeptTx p h1 (h.pending i).completion result e.status_domain
          e.status_code payload in
      record {
        answered = find_pending-IsAnswered h e i found;
        result = rw (quiet, found) refl;
        freed = rw (quiet, found) (told.kept).pending;
        told = λ listening.
            rw (quiet, found)
              (notices-dispatch_completion p (h.pending i).completion listening h1
                  (h.pending i).completion result e.status_domain e.status_code payload
                ∙ ground arith);
      }

  -- Outside negotiation, a response for which the table has a slot in use, with its session and its
  -- numbers, frees one such slot and no other, and calls the slot's callback, or posts it to be
  -- called, exactly once if it is not NULL.
  pub process_response_lem :
      (j : ℕ)
      → IsAnswered h e j
      → same_state h.state HostState.negotiating ≡ false
      → (i : ℕ) × Completes h e (process_response p h e payload) i
  process_response_lem j is settled =
      let (i, found) = find_pending_complete h e j is in (i, found-Completes i found settled)
