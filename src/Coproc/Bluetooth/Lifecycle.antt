-- ===== src/Coproc/Bluetooth/Lifecycle.antt =====
-- The core drives the Bluetooth backend as the automaton of Controller prescribes.
use wl_hosted_core.Prelude.{
  ℕ, ◌≡◌, inl, inr, refl, sym, subst, arith, Bool, true, false, not, ◌∷◌, ◌||◌, List, Option, none,
  some, ◌==◌, ◌!=◌, if_cases, Bool-cases,
}
use wl_hosted_core.Prelude.Word.{ℤ}
use wl_hosted_core.Protocol.Result.{null}
use wl_hosted_core.Protocol.Ids.Method
use wl_hosted_core.Protocol.Ids.Status
use wl_hosted_core.Protocol.Rpc.{RpcEnvelope, is_status_ok}
use wl_hosted_core.Coproc.Types.{CoprocResult, BluetoothCall, Platform, Coproc}
use wl_hosted_core.Coproc.Types.Messages.{BluetoothInfo, BluetoothInitializeRequest}
use wl_hosted_core.Coproc.Effects.Quiet.{bluetooth_log, Quiet}
use wl_hosted_core.Coproc.Send.Quiet.{send_rpc-Quiet, send_rpc_message-Quiet}
use wl_hosted_core.Coproc.Send.{send_rpc}
use wl_hosted_core.Coproc.Services.Errors.{response_to}
use wl_hosted_core.Coproc.Bluetooth.{
  bt_unspecified, bt_disabled, bt_enabled, bt_error, transport_hci, bluetooth_begin_operation,
  forget_bluetooth, complete_state, send_bluetooth_status, bluetooth_enter_error, call_bluetooth,
  bt_answer, bluetooth_submit_result, bluetooth_submit, bluetooth_initialize, bluetooth_enable,
  bluetooth_disable, bluetooth_deinitialize, bluetooth_get_info, handle_bluetooth, is_stale,
  bluetooth_operation_completed, bluetooth_info_completed,
}
use wl_hosted_core.Coproc.Bluetooth.Controller.{
  controller, Operation, number_of, Allowed, next_state, Step, IsState,
}

controller-complete_state :
    (method_id : ℕ) (c : Coproc)
    → controller (complete_state method_id c)
      ≡ record (controller c) { state = next_state method_id }
controller-complete_state method_id c = ground arith

module _ (p : Platform) where
  controller_kept : {debt : ℕ} {c d : Coproc} → Quiet debt c d → controller d ≡ controller c
  controller_kept q =
      ground (arith, q.bluetooth_state, q.session_id, q.bluetooth_pending, q.bluetooth_calls)

  answer_controller :
      (c : Coproc) (method_id request_id : ℕ) (code : ℤ)
      → controller (send_bluetooth_status p c method_id request_id code).1 ≡ controller c
  unfolding send_bluetooth_status
  answer_controller c method_id request_id code = controller_kept (send_rpc-Quiet p c _ (null 0))

  -- An answer is no step of the controller.
  answered :
      (c d : Coproc) {o : Operation} (method_id request_id : ℕ) (code : ℤ)
      → Step (controller c) o (controller d)
      → Step (controller c) o (controller (send_bluetooth_status p d method_id request_id code).1)
  answered c d {o} method_id request_id code step =
      subst (Step (controller c) o) (sym (answer_controller d method_id request_id code)) step

  module _ (c : Coproc) (request : RpcEnvelope) (payload : List ℕ) where
    abbrev asked : Operation
    asked = Operation.requested request payload

    abbrev Drives : CoprocResult × Coproc → Type 0
    Drives out = Step (controller c) asked (controller out.1)

    replies : (code : ℤ) → Step (controller c) asked (controller (bt_answer p c request code).1)
    replies code = answered c c request.method_id request.request_id code (Step.stays refl)

    submits :
        (call : ℕ → BluetoothCall)
        → (c.bluetooth_pending).active ≡ false
        → ((id : ℕ)
            → Allowed c.bluetooth_state request.method_id (call id) × (number_of (call id) ≡ id))
        → Step (controller c) asked (controller (bluetooth_submit p c request call).1)
    unfolding bluetooth_submit bluetooth_begin_operation call_bluetooth bluetooth_submit_result
    submits call free allowed =
        let begun = bluetooth_begin_operation c request in
        let status = p.bluetooth (begun.1).trace (call begun.0) in
        let called = call_bluetooth p begun.1 (call begun.0) in
        elim (Bool-cases (is_status_ok status)) [
          | inl good ↦ rw good (
              subst
                (λ (id : ℕ). Step (controller c) asked (record (controller c) {
                  pending = record {
                    active = true;
                    operation_id = id;
                    session_id = c.session_id;
                    request_id = request.request_id;
                    method_id = request.method_id;
                  };
                  calls = (call begun.0, status) ∷ bluetooth_log c.trace;
                }))
                (allowed begun.0).1 (Step.begins status free (allowed begun.0).0 good))
          | inr bad ↦ rw bad (
              answered c (forget_bluetooth called.1) request.method_id request.request_id
                Status.internal (Step.is_refused status free (allowed begun.0).0 bad))
        ]

    module _ (known : IsState c.bluetooth_state) where
      initialize-Drives :
          (message : Option BluetoothInitializeRequest)
          → request.method_id ≡ Method.bluetooth_initialize
          → Drives (bluetooth_initialize p c request message)
      unfolding bluetooth_initialize
      initialize-Drives none method = Step.stays refl
      initialize-Drives (some message) method =
          if_cases Drives (message.transport != transport_hci) (λ _. replies Status.not_supported)
            (λ _.
              if_cases Drives (c.bluetooth_pending).active (λ _. replies Status.busy)
                (λ free.
                  if_cases Drives (c.bluetooth_state != bt_unspecified) (λ _. replies Status.ok)
                    (λ fresh.
                      submits (λ id. BluetoothCall.initialize id message.feature_flags) free
                        (λ id.
                          rw method
                            (Allowed.initialize id message.feature_flags (ground arith), refl)))))

      enable-Drives :
          (message : Option ℕ)
          → request.method_id ≡ Method.bluetooth_enable
          → Drives (bluetooth_enable p c request message)
      unfolding bluetooth_enable
      enable-Drives none method = Step.stays refl
      enable-Drives (some mode_flags) method =
          if_cases Drives (c.bluetooth_pending).active (λ _. replies Status.busy)
            (λ free.
              if_cases Drives (c.bluetooth_state == bt_unspecified || c.bluetooth_state == bt_error)
                (λ _. replies Status.not_ready)
                (λ ready.
                  if_cases Drives (c.bluetooth_state == bt_enabled) (λ _. replies Status.ok)
                    (λ other.
                      submits (λ id. BluetoothCall.enable id mode_flags) free
                        (λ id. rw method (Allowed.enable id mode_flags (ground arith), refl)))))

      disable-Drives :
          request.method_id ≡ Method.bluetooth_disable → Drives (bluetooth_disable p c request)
      unfolding bluetooth_disable
      disable-Drives method =
          if_cases Drives (c.bluetooth_pending).active (λ _. replies Status.busy)
            (λ free.
              if_cases Drives
                (c.bluetooth_state == bt_unspecified || c.bluetooth_state == bt_disabled)
                (λ _. replies Status.ok)
                (λ on.
                  submits BluetoothCall.disable free
                    (λ id. rw method (Allowed.disable id (ground arith), refl))))

      deinitialize-Drives :
          (message : Option Bool)
          → request.method_id ≡ Method.bluetooth_deinitialize
          → Drives (bluetooth_deinitialize p c request message)
      unfolding bluetooth_deinitialize
      deinitialize-Drives none method = Step.stays refl
      deinitialize-Drives (some release_memory) method =
          if_cases Drives (c.bluetooth_pending).active (λ _. replies Status.busy)
            (λ free.
              if_cases Drives (c.bluetooth_state == bt_unspecified) (λ _. replies Status.ok)
                (λ on.
                  submits (λ id. BluetoothCall.deinitialize id release_memory) free
                    (λ id.
                      rw method (Allowed.deinitialize id release_memory (ground arith), refl))))

      get_info-Drives :
          request.method_id ≡ Method.bluetooth_get_info → Drives (bluetooth_get_info p c request)
      unfolding bluetooth_get_info
      get_info-Drives method =
          if_cases Drives (c.bluetooth_pending).active (λ _. replies Status.busy)
            (λ free.
              submits BluetoothCall.get_info free (λ id. rw method (Allowed.get_info id, refl)))

      pub handle_bluetooth-Drives : Drives (handle_bluetooth p c request payload)
      unfolding handle_bluetooth
      handle_bluetooth-Drives =
          if_cases Drives (request.method_id == Method.bluetooth_initialize)
            (λ is. initialize-Drives (p.decode_bluetooth_initialize_request payload) (ground arith))
            (λ _.
              if_cases Drives (request.method_id == Method.bluetooth_enable)
                (λ is. enable-Drives (p.decode_bluetooth_enable_request payload) (ground arith))
                (λ _.
                  if_cases Drives (request.method_id == Method.bluetooth_disable)
                    (λ is. disable-Drives (ground arith))
                    (λ _.
                      if_cases Drives (request.method_id == Method.bluetooth_deinitialize)
                        (λ is.
                          deinitialize-Drives (p.decode_bluetooth_deinitialize_request payload)
                            (ground arith))
                        (λ _.
                          if_cases Drives (request.method_id == Method.bluetooth_get_info)
                            (λ is. get_info-Drives (ground arith)) (λ other. unknown)))))
        where
          unknown : Drives (
              send_rpc p c
                (response_to request Status.domain_protocol Status.not_supported)
                (null 0))
          unknown =
              subst (Step (controller c) asked)
                (sym (
                  controller_kept (
                    send_rpc-Quiet p c
                      (response_to request Status.domain_protocol Status.not_supported) (null 0))))
                (Step.stays refl)

  pub completed-Drives :
      (c : Coproc) (operation_id : ℕ) (status : ℤ)
      → Step
          (controller c)
          (Operation.completed operation_id status)
          (controller (bluetooth_operation_completed p c operation_id status))
  unfolding bluetooth_operation_completed
  completed-Drives c operation_id status =
      let Goal = λ (d : Coproc).
        Step (controller c) (Operation.completed operation_id status) (controller d) in
      if_cases Goal
        (is_stale p c ((c.bluetooth_pending).method_id == Method.bluetooth_get_info) operation_id)
        (λ stale. Step.stays (ground arith))
        (λ mine.
          if_cases Goal (not (is_status_ok status))
            (λ bad.
              answered c (forget_bluetooth c) (c.bluetooth_pending).method_id
                (c.bluetooth_pending).request_id Status.internal
                (Step.fails (ground arith) (ground arith)))
            (λ good.
              answered c (complete_state (c.bluetooth_pending).method_id (forget_bluetooth c))
                (c.bluetooth_pending).method_id (c.bluetooth_pending).request_id Status.ok
                (subst (Step (controller c) (Operation.completed operation_id status))
                  (sym (
                    controller-complete_state (c.bluetooth_pending).method_id (forget_bluetooth c)))
                  (Step.succeeds (ground arith) (ground arith)))))

  pub info_completed-Drives :
      (c : Coproc) (operation_id : ℕ) (status : ℤ) (info : BluetoothInfo)
      → Step
          (controller c)
          (Operation.informed operation_id status info)
          (controller (bluetooth_info_completed p c operation_id status info))
  unfolding bluetooth_info_completed
  info_completed-Drives c operation_id status info =
      let Goal = λ (d : Coproc).
        Step (controller c) (Operation.informed operation_id status info) (controller d) in
      if_cases Goal
        (is_stale p c ((c.bluetooth_pending).method_id != Method.bluetooth_get_info) operation_id)
        (λ stale. Step.stays (ground arith))
        (λ mine.
          if_cases Goal (not (is_status_ok status))
            (λ _.
              answered c (forget_bluetooth c) Method.bluetooth_get_info
                (c.bluetooth_pending).request_id Status.internal (Step.tells (ground arith)))
            (λ _.
              subst (Step (controller c) (Operation.informed operation_id status info))
                (sym (controller_kept (send_rpc_message-Quiet p (forget_bluetooth c) _ _)))
                (Step.tells (ground arith))))

  pub enter_error-Drives :
      (c : Coproc) (reason : ℕ)
      → Step
          (controller c)
          (Operation.broken reason)
          (controller (bluetooth_enter_error p c reason))
  unfolding bluetooth_enter_error
  enter_error-Drives c reason =
      subst (Step (controller c) (Operation.broken reason))
        (sym (controller_kept (send_rpc_message-Quiet p _ _ _))) Step.breaks
