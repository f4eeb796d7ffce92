-- ===== src/Coproc/Ota/Transfer.antt =====
-- The state of the transfer and how it is reported: the first half of coproc-core/src/coproc_ota.c.
use wl_hosted_core.Prelude.{
  ℕ, Bool, true, ◌||◌, ◌&&◌, List, [], ◌∷◌, ◌++◌, ◌==◌, if◌then◌else◌, take, replicate,
}
use wl_hosted_core.Prelude.Word.{ℤ}
use wl_hosted_core.Protocol.Result.{null}
use wl_hosted_core.Protocol.Ids.Service
use wl_hosted_core.Protocol.Ids.Method
use wl_hosted_core.Protocol.Ids.Status
use wl_hosted_core.Protocol.Rpc.{RpcEnvelope, kind_response, is_status_ok}
use wl_hosted_core.Coproc.Types.{
  CoprocResult, OtaState, OtaCall, Call, Platform, OtaTransfer, Coproc, no_operation,
  ota_state_number, same_ota_state,
}
use wl_hosted_core.Coproc.Types.Messages.{ota_progress_event}
use wl_hosted_core.Coproc.Effects.{record_call, increment}
use wl_hosted_core.Coproc.Send.{envelope, send_rpc, send_event_message}

unfoldable pub ota_backend_present : Coproc → Bool
ota_backend_present c = (c.config).has_ota_write

abbrev pub ota_state_is_idle : OtaState → Bool
ota_state_is_idle state =
    same_ota_state state OtaState.unspecified
    || same_ota_state state OtaState.idle
    || same_ota_state state OtaState.failed

abbrev pub set_ota : Coproc → OtaTransfer → Coproc
set_ota c transfer = record c { ota = transfer }

-- `memcpy` of a text of `size` bytes at most into a zeroed array that is one byte longer.
abbrev pub copy_text : ℕ → List ℕ → List ℕ
copy_text size text = take size text ++ (0 ∷ [])

-- The next number that is not 0, and the counter behind it.
abbrev pub take_number : ℕ → ℕ × ℕ
take_number next =
    if next == 0 then (increment next, increment (increment next)) else (next, increment next)

-- Which operation waits for the backend, from now on.
unfoldable pub ota_begin_operation : Coproc → RpcEnvelope → ℕ × Coproc
ota_begin_operation c request =
    let (operation_id, next) = take_number c.next_backend_operation_id in
    (
      operation_id,
      record c {
        next_backend_operation_id = next;
        ota = record (c.ota) {
          pending = record {
            active = true;
            operation_id = operation_id;
            session_id = c.session_id;
            request_id = request.request_id;
            method_id = request.method_id;
          };
        };
      },
    )

unfoldable pub forget_operation : Coproc → Coproc
forget_operation c = set_ota c (record (c.ota) { pending = no_operation })

unfoldable pub ota_next_transfer_id : Coproc → ℕ × Coproc
ota_next_transfer_id c =
    let (transfer_id, next) = take_number (c.ota).next_transfer_id in
    (transfer_id, set_ota c (record (c.ota) { next_transfer_id = next }))

module _ (p : Platform) where
  -- A call of the OTA backend: whether it returns 0.
  unfoldable pub call_ota : Coproc → OtaCall → Bool × Coproc
  call_ota c call =
      let accepted = p.ota_ok c.trace call in (accepted, record_call (Call.ota call accepted) c)

  unfoldable pub ota_emit_progress : Coproc → Coproc
  ota_emit_progress c =
      let reported =
        set_ota c (record (c.ota) { progress_reported_bytes = (c.ota).bytes_received }) in
      let event = ota_progress_event (record {
        transfer_id = (c.ota).transfer_id;
        state = ota_state_number (c.ota).state;
        bytes_received = (c.ota).bytes_received;
      }) in
      (send_event_message p reported Service.ota Method.ota_progress event).1

  unfoldable pub ota_set_state : Coproc → OtaState → Coproc
  ota_set_state c state =
      if same_ota_state (c.ota).state state
      then c
      else ota_emit_progress (set_ota c (record (c.ota) { state = state }))

  unfoldable pub ota_fail_transfer : Coproc → Coproc
  ota_fail_transfer c = ota_set_state c OtaState.failed

  unfoldable pub ota_reset : Coproc → Coproc
  unfolding call_ota ota_backend_present
  ota_reset c =
      let transfer = c.ota in
      let in_progress =
        same_ota_state transfer.state OtaState.receiving
        || same_ota_state transfer.state OtaState.verifying
        || same_ota_state transfer.state OtaState.ready_to_activate in
      let c1 =
        if in_progress && ota_backend_present c && (c.config).has_ota_abort
        then (call_ota c (OtaCall.abort 0 transfer.transfer_id)).1
        else c in
      set_ota c1 (record transfer {
        pending = no_operation;
        state = OtaState.idle;
        transfer_id = 0;
        image_size = 0;
        bytes_accepted = 0;
        bytes_received = 0;
        progress_reported_bytes = 0;
        target_version = replicate 33 0;
      })

  unfoldable pub send_ota_status : Coproc → ℕ → ℕ → ℤ → CoprocResult × Coproc
  send_ota_status c method_id request_id status_code =
      let domain = if is_status_ok status_code then Status.domain_none else Status.domain_ota in
      send_rpc p c (envelope Service.ota method_id request_id kind_response domain status_code)
        (null 0)

  -- The answer to a request that the core decides itself.
  abbrev pub answer : Coproc → RpcEnvelope → ℤ → CoprocResult × Coproc
  answer c request status_code = send_ota_status c request.method_id request.request_id status_code

  -- Whether the backend accepted what was submitted to it.
  unfoldable pub ota_submit_result : Coproc → RpcEnvelope → Bool → CoprocResult × Coproc
  ota_submit_result c request accepted =
      if accepted then (CoprocResult.ok, c) else answer (forget_operation c) request Status.internal
