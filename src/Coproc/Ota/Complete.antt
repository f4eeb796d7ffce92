-- ===== src/Coproc/Ota/Complete.antt =====
-- The backend's answers: `ota_operation_completed` and the functions by which the backend reports,
-- at the end of coproc-core/src/coproc_ota.c.
use wl_hosted_core.Prelude.{ℕ, ◌||◌, not, ◌==◌, ◌!=◌, if◌then◌else◌}
use wl_hosted_core.Prelude.Word.{ℤ}
use wl_hosted_core.Protocol.Ids.Service
use wl_hosted_core.Protocol.Ids.Method
use wl_hosted_core.Protocol.Ids.Status
use wl_hosted_core.Protocol.Rpc.{kind_response, is_status_ok}
use wl_hosted_core.Coproc.Types.{
  CoprocResult, OtaState, Job, Platform, Coproc, ota_chunk_size, ota_alignment,
}
use wl_hosted_core.Coproc.Types.Messages.{ota_begin_response}
use wl_hosted_core.Coproc.Effects.{alloc_buffer, enqueue_or_free}
use wl_hosted_core.Coproc.Send.{envelope, send_rpc_message}
use wl_hosted_core.Coproc.Ota.Transfer.{set_ota, forget_operation, ota_set_state, send_ota_status}

module _ (p : Platform) where
  unfoldable pub operation_failed : Coproc → ℕ → ℕ → Coproc
  operation_failed c method_id request_id =
      let c1 = if method_id == Method.ota_abort then c else ota_set_state p c OtaState.failed in
      (send_ota_status p c1 method_id request_id Status.internal).1

  unfoldable pub begin_completed : Coproc → ℕ → Coproc
  begin_completed c request_id =
      let c1 = ota_set_state p c OtaState.receiving in
      (send_rpc_message p c1
        (envelope Service.ota Method.ota_begin request_id kind_response Status.domain_none
          Status.ok)
        (ota_begin_response (record {
          transfer_id = (c1.ota).transfer_id;
          stream_chunk_size = ota_chunk_size;
          stream_alignment = ota_alignment;
        }))).1

  unfoldable pub finalize_completed : Coproc → ℕ → Coproc
  finalize_completed c request_id =
      (send_ota_status p (ota_set_state p c OtaState.ready_to_activate) Method.ota_finalize
        request_id Status.ok).1

  unfoldable pub abort_completed : Coproc → ℕ → Coproc
  abort_completed c request_id =
      let c1 = (send_ota_status p c Method.ota_abort request_id Status.ok).1 in
      let c2 = ota_set_state p c1 OtaState.idle in
      set_ota c2 (record (c2.ota) { transfer_id = 0; bytes_accepted = 0; bytes_received = 0 })

  unfoldable pub operation_succeeded : Coproc → ℕ → ℕ → Coproc
  operation_succeeded c method_id request_id =
      if method_id == Method.ota_begin
      then begin_completed c request_id
      else if method_id == Method.ota_finalize
      then finalize_completed c request_id
      else if method_id == Method.ota_abort
      then abort_completed c request_id
      else if method_id == Method.ota_activate
      then (send_ota_status p c Method.ota_activate request_id Status.ok).1
      else c

  unfoldable pub ota_operation_completed : Coproc → ℕ → ℤ → Coproc
  unfolding forget_operation
  ota_operation_completed c operation_id backend_status =
      let pending = (c.ota).pending in
      let c1 = forget_operation c in
      if not pending.active
        || operation_id != pending.operation_id
        || pending.session_id != c.session_id
      then c
      else if is_status_ok backend_status
      then operation_succeeded c1 pending.method_id pending.request_id
      else operation_failed c1 pending.method_id pending.request_id

  -- All four of `wlh_coproc_ota_begin_complete`, `…_finalize_complete`, `…_abort_complete` and
  -- `…_activate_complete`.
  unfoldable pub ota_enqueue_complete : Coproc → ℕ → ℤ → CoprocResult × Coproc
  unfolding alloc_buffer enqueue_or_free
  ota_enqueue_complete c operation_id backend_status =
      let (allocated, c1) = alloc_buffer p c p.sizeof_ota_complete_job in
      if operation_id == 0 || not c.worker_started
      then (CoprocResult.invalid_argument, c)
      else if allocated
      then enqueue_or_free p c1 (Job.ota_complete operation_id backend_status)
      else (CoprocResult.backend_error, c1)

  unfoldable pub ota_write_complete : Coproc → ℕ → ℕ → ℤ → CoprocResult × Coproc
  unfolding alloc_buffer enqueue_or_free
  ota_write_complete c transfer_id bytes_received backend_status =
      let (allocated, c1) = alloc_buffer p c p.sizeof_ota_write_job in
      if not c.worker_started
      then (CoprocResult.invalid_argument, c)
      else if allocated
      then enqueue_or_free p c1 (Job.ota_write_complete transfer_id bytes_received backend_status)
      else (CoprocResult.backend_error, c1)
