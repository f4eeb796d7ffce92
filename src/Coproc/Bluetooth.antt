-- ===== src/Coproc/Bluetooth.antt =====
-- The Bluetooth controller behind the coprocessor: coproc-core/src/coproc_bluetooth.c. Here its
-- operations and their completions; Hci has the packets.
pub mod Hci
pub mod Controller
pub mod Lifecycle
pub mod History
mod Tests
use wl_hosted_core.Prelude.{
  ℕ, Bool, true, false, not, ◌||◌, ◌&&◌, replicate, List, [], Option, none, some, ◌==◌, ◌!=◌,
  if◌then◌else◌,
}
use wl_hosted_core.Prelude.Word.{ℤ}
use wl_hosted_core.Protocol.Result.{null}
use wl_hosted_core.Protocol.Ids.Method
use wl_hosted_core.Protocol.Ids.Service
use wl_hosted_core.Protocol.Ids.Status
use wl_hosted_core.Protocol.Rpc.{RpcEnvelope, kind_response, kind_event, is_status_ok}
use wl_hosted_core.Coproc.Types.{
  CoprocResult, Job, BluetoothCall, Call, Platform, Coproc, PendingOperation, no_operation,
}
use wl_hosted_core.Coproc.Types.Messages.{
  BluetoothInfo, BluetoothControllerInfo, BluetoothInitializeRequest, bluetooth_controller_info,
  bluetooth_state_changed_event,
}
use wl_hosted_core.Coproc.Effects.{record_call, increment, alloc_buffer, enqueue_or_free}
use wl_hosted_core.Coproc.Send.{envelope, send_rpc, send_rpc_message}
use wl_hosted_core.Coproc.Ota.Transfer.{take_number}
use wl_hosted_core.Coproc.Services.Errors.{response_to}

-- BT_STATE_*
abbrev pub bt_unspecified : ℕ
bt_unspecified = 0

abbrev pub bt_disabled : ℕ
bt_disabled = 1

abbrev pub bt_enabled : ℕ
bt_enabled = 2

abbrev pub bt_error : ℕ
bt_error = 3

-- BLUETOOTH_TRANSPORT_HCI
abbrev pub transport_hci : ℕ
transport_hci = 1

-- Which operation waits for the backend, from now on.
unfoldable pub bluetooth_begin_operation : Coproc → RpcEnvelope → ℕ × Coproc
bluetooth_begin_operation c request =
    let (operation_id, next) = take_number c.next_backend_operation_id in
    (
      operation_id,
      record c {
        next_backend_operation_id = next;
        bluetooth_pending = record {
          active = true;
          operation_id = operation_id;
          session_id = c.session_id;
          request_id = request.request_id;
          method_id = request.method_id;
        };
      },
    )

abbrev pub forget_bluetooth : Coproc → Coproc
forget_bluetooth c = record c { bluetooth_pending = no_operation }

abbrev pub count_mismatch : Coproc → Coproc
count_mismatch c = record c {
  diagnostics = record (c.diagnostics) {
    bluetooth_mismatches = increment (c.diagnostics).bluetooth_mismatches;
  };
}

-- The state that an operation which succeeded leads to.
abbrev pub complete_state : ℕ → Coproc → Coproc
complete_state method_id c =
    if method_id == Method.bluetooth_initialize
    then record c { bluetooth_state = bt_disabled }
    else if method_id == Method.bluetooth_enable
    then record c { bluetooth_state = bt_enabled }
    else if method_id == Method.bluetooth_disable
    then record c { bluetooth_state = bt_disabled; bluetooth_hci_stopped = false }
    else record c { bluetooth_state = bt_unspecified; bluetooth_hci_stopped = false }

-- The answer to a question for information; an address is sent if there is one.
abbrev pub controller_info : ℕ → BluetoothInfo → BluetoothControllerInfo
controller_info state info = record {
  state = state;
  public_address = if info.has_public_address then info.public_address else [];
  hci_version = info.hci_version;
  manufacturer_id = info.manufacturer_id;
  feature_bits = info.feature_bits;
  max_hci_packet = info.max_hci_packet;
}

abbrev pub is_missing_info : Option BluetoothInfo → Bool
is_missing_info none = true
is_missing_info (some info) = false

-- The job's copy, which is 0 where the backend gives none.
abbrev pub info_of : Option BluetoothInfo → BluetoothInfo
info_of none = record {
  public_address = replicate 6 0;
  has_public_address = false;
  hci_version = 0;
  manufacturer_id = 0;
  feature_bits = 0;
  max_hci_packet = 0;
}
info_of (some info) = info

module _ (p : Platform) where
  unfoldable pub send_bluetooth_status : Coproc → ℕ → ℕ → ℤ → CoprocResult × Coproc
  send_bluetooth_status c method_id request_id status_code =
      send_rpc p c
        (envelope Service.bluetooth method_id request_id kind_response
          (if is_status_ok status_code then Status.domain_none else Status.domain_bluetooth)
          status_code)
        (null 0)

  unfoldable pub bluetooth_enter_error : Coproc → ℕ → Coproc
  bluetooth_enter_error c reason =
      (send_rpc_message p (record c { bluetooth_state = bt_error; bluetooth_hci_stopped = true })
        (envelope Service.bluetooth Method.bluetooth_state_changed 0 kind_event Status.domain_none
          Status.ok)
        (bluetooth_state_changed_event (record { state = bt_error; reason = reason }))).1

  -- A call of the backend.
  unfoldable pub call_bluetooth : Coproc → BluetoothCall → ℤ × Coproc
  call_bluetooth c call =
      let status = p.bluetooth c.trace call in (status, record_call (Call.bluetooth call status) c)

  -- The request's answer with a status of its own.
  abbrev pub bt_answer : Coproc → RpcEnvelope → ℤ → CoprocResult × Coproc
  bt_answer c request status_code =
      send_bluetooth_status c request.method_id request.request_id status_code

  unfoldable pub bluetooth_submit_result : Coproc → RpcEnvelope → ℤ → CoprocResult × Coproc
  bluetooth_submit_result c request status =
      if not (is_status_ok status)
      then bt_answer (forget_bluetooth c) request Status.internal
      else (CoprocResult.ok, c)

  -- The last three statements of each case: the operation begins, and the backend is called.
  unfoldable pub bluetooth_submit :
      Coproc → RpcEnvelope → (ℕ → BluetoothCall) → CoprocResult × Coproc
  bluetooth_submit c request call =
      let (operation_id, c1) = bluetooth_begin_operation c request in
      let (status, c2) = call_bluetooth c1 (call operation_id) in
      bluetooth_submit_result c2 request status

  unfoldable pub bluetooth_initialize :
      Coproc → RpcEnvelope → Option BluetoothInitializeRequest → CoprocResult × Coproc
  bluetooth_initialize c request none = (CoprocResult.protocol_error, c)
  bluetooth_initialize c request (some message) =
      if message.transport != transport_hci
      then bt_answer c request Status.not_supported
      else if (c.bluetooth_pending).active
      then bt_answer c request Status.busy
      else if c.bluetooth_state != bt_unspecified
      then bt_answer c request Status.ok
      else bluetooth_submit c request (λ id. BluetoothCall.initialize id message.feature_flags)

  unfoldable pub bluetooth_enable : Coproc → RpcEnvelope → Option ℕ → CoprocResult × Coproc
  bluetooth_enable c request none = (CoprocResult.protocol_error, c)
  bluetooth_enable c request (some mode_flags) =
      if (c.bluetooth_pending).active
      then bt_answer c request Status.busy
      else if c.bluetooth_state == bt_unspecified || c.bluetooth_state == bt_error
      then bt_answer c request Status.not_ready
      else if c.bluetooth_state == bt_enabled
      then bt_answer c request Status.ok
      else bluetooth_submit c request (λ id. BluetoothCall.enable id mode_flags)

  unfoldable pub bluetooth_disable : Coproc → RpcEnvelope → CoprocResult × Coproc
  bluetooth_disable c request =
      if (c.bluetooth_pending).active
      then bt_answer c request Status.busy
      else if c.bluetooth_state == bt_unspecified || c.bluetooth_state == bt_disabled
      then bt_answer c request Status.ok
      else bluetooth_submit c request BluetoothCall.disable

  unfoldable pub bluetooth_deinitialize : Coproc → RpcEnvelope → Option Bool → CoprocResult × Coproc
  bluetooth_deinitialize c request none = (CoprocResult.protocol_error, c)
  bluetooth_deinitialize c request (some release_memory) =
      if (c.bluetooth_pending).active
      then bt_answer c request Status.busy
      else if c.bluetooth_state == bt_unspecified
      then bt_answer c request Status.ok
      else bluetooth_submit c request (λ id. BluetoothCall.deinitialize id release_memory)

  unfoldable pub bluetooth_get_info : Coproc → RpcEnvelope → CoprocResult × Coproc
  bluetooth_get_info c request =
      if (c.bluetooth_pending).active
      then bt_answer c request Status.busy
      else bluetooth_submit c request BluetoothCall.get_info

  unfoldable pub handle_bluetooth : Coproc → RpcEnvelope → List ℕ → CoprocResult × Coproc
  handle_bluetooth c request payload =
      if request.method_id == Method.bluetooth_initialize
      then bluetooth_initialize c request (p.decode_bluetooth_initialize_request payload)
      else if request.method_id == Method.bluetooth_enable
      then bluetooth_enable c request (p.decode_bluetooth_enable_request payload)
      else if request.method_id == Method.bluetooth_disable
      then bluetooth_disable c request
      else if request.method_id == Method.bluetooth_deinitialize
      then bluetooth_deinitialize c request (p.decode_bluetooth_deinitialize_request payload)
      else if request.method_id == Method.bluetooth_get_info
      then bluetooth_get_info c request
      else send_rpc p c (response_to request Status.domain_protocol Status.not_supported) (null 0)

  -- Whether a completion is not the one that is waited for.
  abbrev pub is_stale : Coproc → Bool → ℕ → Bool
  is_stale c wrong_method operation_id =
      not (c.bluetooth_pending).active
      || wrong_method
      || operation_id != (c.bluetooth_pending).operation_id
      || (c.bluetooth_pending).session_id != c.session_id

  unfoldable pub bluetooth_operation_completed : Coproc → ℕ → ℤ → Coproc
  bluetooth_operation_completed c operation_id backend_status =
      let pending = c.bluetooth_pending in
      let c1 = forget_bluetooth c in
      if is_stale c (pending.method_id == Method.bluetooth_get_info) operation_id
      then count_mismatch c
      else if not (is_status_ok backend_status)
      then (send_bluetooth_status c1 pending.method_id pending.request_id Status.internal).1
      else (send_bluetooth_status (complete_state pending.method_id c1) pending.method_id
          pending.request_id Status.ok).1

  unfoldable pub bluetooth_info_completed : Coproc → ℕ → ℤ → BluetoothInfo → Coproc
  bluetooth_info_completed c operation_id backend_status info =
      let pending = c.bluetooth_pending in
      let c1 = forget_bluetooth c in
      if is_stale c (pending.method_id != Method.bluetooth_get_info) operation_id
      then count_mismatch c
      else if not (is_status_ok backend_status)
      then (send_bluetooth_status c1 Method.bluetooth_get_info pending.request_id Status.internal).1
      else (send_rpc_message p c1
          (envelope Service.bluetooth Method.bluetooth_get_info pending.request_id kind_response
            Status.domain_none Status.ok)
          (bluetooth_controller_info (controller_info c.bluetooth_state info))).1

  -- What the backend calls, on its own threads: each queues a job with what it reports.
  unfoldable pub bluetooth_report : Coproc → ℕ → Job → CoprocResult × Coproc
  bluetooth_report c size job =
      let (allocated, c1) = alloc_buffer p c size in
      if allocated then enqueue_or_free p c1 job else (CoprocResult.backend_error, c1)

  unfoldable pub bluetooth_operation_complete : Coproc → ℕ → ℤ → CoprocResult × Coproc
  bluetooth_operation_complete c operation_id backend_status =
      if operation_id == 0 || not c.worker_started
      then (CoprocResult.invalid_argument, c)
      else bluetooth_report c p.sizeof_bluetooth_complete_job
          (Job.bluetooth_complete operation_id backend_status)

  unfoldable pub bluetooth_info_result :
      Coproc → ℕ → ℤ → Option BluetoothInfo → CoprocResult × Coproc
  bluetooth_info_result c operation_id backend_status info =
      if operation_id == 0
        || not c.worker_started
        || (is_missing_info info && is_status_ok backend_status)
      then (CoprocResult.invalid_argument, c)
      else bluetooth_report c p.sizeof_bluetooth_info_job
          (Job.bluetooth_info operation_id backend_status (info_of info))

  unfoldable pub bluetooth_fatal_error : Coproc → ℕ → CoprocResult × Coproc
  bluetooth_fatal_error c reason =
      if not c.worker_started
      then (CoprocResult.invalid_argument, c)
      else bluetooth_report c p.sizeof_bluetooth_fatal_job (Job.bluetooth_fatal reason)
