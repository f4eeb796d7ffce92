-- ===== src/Coproc/Types.antt =====
-- The types of coproc-core/include/wlh/coproc.h and coproc-core/src/coproc_internal.h, the calls
-- that the core makes of its environment, and the environment itself.
pub mod Messages
use wl_hosted_core.Prelude.{ℕ, ◌==◌, Bool, false, List, Option}
use wl_hosted_core.Prelude.Word.{ℤ}
use Messages.{
  Message, CreditUpdate, HelloRequest, OtaBeginRequest, OtaFinalizeRequest, OtaActivateRequest,
  OtaBeginParams, IoConfig, IoState, DeviceInfo, DiagnosticsPingRequest, UserMessageSendRequest,
  UserMessage, EthInfo, BluetoothInfo, BluetoothInitializeRequest,
}

pub data CoprocResult : Type 0 where
  ok invalid_argument invalid_state transport_error protocol_error no_credit : CoprocResult
  not_supported backend_error : CoprocResult

pub data CoprocState : Type 0 where
  stopped waiting_for_hello ready congested failed : CoprocState

-- The states of `wlh_protocol_v1_OtaState`.
pub data OtaState : Type 0 where
  unspecified idle receiving verifying ready_to_activate failed : OtaState

-- `wlh_coproc_ethernet_rx_result_t`
pub data EthernetRxResult : Type 0 where
  complete pending rejected : EthernetRxResult

-- What the core posts to its own queue: a kind with its payload.
pub data Job : Type 0 where
  rx_frame : List ℕ → Job
  rpc_event : ℕ → ℕ → List ℕ → Job
  transport_failed : Job
  ota_complete : ℕ → ℤ → Job
  ota_write_complete : ℕ → ℕ → ℤ → Job
  ethernet_rx_complete : Job
  ethernet_tx : ℕ → List ℕ → Job
  eth_info : ℕ → ℤ → EthInfo → Job
  bluetooth_complete : ℕ → ℤ → Job
  bluetooth_info : ℕ → ℤ → BluetoothInfo → Job
  bluetooth_tx : ℕ → List ℕ → Job
  bluetooth_fatal : ℕ → Job
  stop : Job

-- The calls of `wlh_coproc_ota_ops_t`.
pub data OtaCall : Type 0 where
  begin : ℕ → ℕ → OtaBeginParams → OtaCall
  write : ℕ → ℕ → List ℕ → OtaCall
  finalize : ℕ → ℕ → ℕ → OtaCall
  abort : ℕ → ℕ → OtaCall
  activate : ℕ → ℕ → Bool → OtaCall

-- The calls of `wlh_coproc_bluetooth_ops_t` that start an operation, with its number.
pub data BluetoothCall : Type 0 where
  initialize : ℕ → ℕ → BluetoothCall
  enable : ℕ → ℕ → BluetoothCall
  disable : ℕ → BluetoothCall
  deinitialize : ℕ → Bool → BluetoothCall
  get_info : ℕ → BluetoothCall

-- The calls that the core makes, each with the environment's answer where it has one.
pub data Call : Type 0 where
  clock : ℕ → Call
  alloc : ℕ → Call
  alloc_failed : ℕ → Call
  free : Call
  submitted : List ℕ → Call
  submit_refused : List ℕ → Call
  enqueued : Job → Call
  enqueue_refused : Job → Call
  slot_given : Call
  hci_tx_ready : Call
  locked : Bool → Call
  unlocked : Call
  ota : OtaCall → Bool → Call
  adc_read : ℕ → ℤ → Call
  io_configure : IoConfig → ℤ → Call
  io_read : ℕ → ℤ → Call
  io_write : ℕ → Bool → ℤ → Call
  ethernet_rx : ℕ → ℕ → List ℕ → EthernetRxResult → Call
  kv_read : List ℕ → ℤ → Call
  kv_write : List ℕ → List ℕ → ℤ → Call
  kv_erase : List ℕ → ℤ → Call
  device_info : ℤ → Call
  user_message : UserMessage → ℤ → Call
  eth_get_info : ℕ → ℤ → Call
  bluetooth : BluetoothCall → ℤ → Call
  hci_send : ℕ → List ℕ → ℤ → Call
  slot_taken : Bool → Call

-- The calls so far, the latest first.
abbrev pub Trace : Type 0
Trace = List Call

-- What is not part of the repository's core: the port, the backends, the OS abstraction, the
-- protobuf library and the target's structure sizes. An answer may depend on every call before it.
pub record Platform : Type 0 where
  pub alloc_ok : Trace → ℕ → Bool
  pub submit_ok : Trace → List ℕ → Bool
  pub lock_ok : Trace → Bool
  pub queue_ok : Trace → Job → Bool
  pub ota_ok : Trace → OtaCall → Bool
  pub ethernet_rx : Trace → ℕ → ℕ → List ℕ → EthernetRxResult
  pub time : Trace → ℕ
  pub pb_get_encoded_size : Message → Option ℕ
  pub pb_encode : Message → ℕ → Option (List ℕ)
  pub decode_credit_update : List ℕ → Option CreditUpdate
  pub decode_heartbeat : List ℕ → Option ℕ
  pub decode_hello_request : List ℕ → Option HelloRequest
  pub decode_ota_begin_request : List ℕ → Option OtaBeginRequest
  pub decode_ota_finalize_request : List ℕ → Option OtaFinalizeRequest
  pub decode_ota_abort_request : List ℕ → Option ℕ
  pub decode_ota_activate_request : List ℕ → Option OtaActivateRequest
  pub decode_adc_read_request : List ℕ → Option ℕ
  pub decode_io_configure_request : List ℕ → Option IoConfig
  pub decode_io_read_request : List ℕ → Option ℕ
  pub decode_io_write_request : List ℕ → Option (ℕ × Bool)
  pub adc_read : Trace → ℕ → ℤ × ℕ
  pub io_configure : Trace → IoConfig → ℤ
  pub io_read : Trace → ℕ → ℤ × IoState
  pub io_write : Trace → ℕ → Bool → ℤ
  pub decode_kv_read_request : List ℕ → Option (List ℕ)
  pub decode_kv_write_request : List ℕ → Option (List ℕ × List ℕ)
  pub decode_kv_erase_request : List ℕ → Option (List ℕ)
  pub decode_diagnostics_ping_request : List ℕ → Option DiagnosticsPingRequest
  pub decode_user_message_send_request : List ℕ → Option UserMessageSendRequest
  pub decode_eth_get_info_request : List ℕ → Bool
  pub decode_bluetooth_initialize_request : List ℕ → Option BluetoothInitializeRequest
  pub decode_bluetooth_enable_request : List ℕ → Option ℕ
  pub decode_bluetooth_deinitialize_request : List ℕ → Option Bool
  pub kv_read : Trace → List ℕ → ℤ × List ℕ × ℕ
  pub kv_write : Trace → List ℕ → List ℕ → ℤ
  pub kv_erase : Trace → List ℕ → ℤ
  pub device_info : Trace → ℤ × DeviceInfo
  pub user_message : Trace → UserMessage → ℤ
  pub eth_get_info : Trace → ℕ → ℤ
  pub bluetooth : Trace → BluetoothCall → ℤ
  pub hci_send : Trace → ℕ → List ℕ → ℤ
  pub slot_ok : Trace → Bool
  pub sizeof_kv_message : ℕ
  pub sizeof_device_info_response : ℕ
  pub sizeof_user_message_send_request : ℕ
  pub sizeof_user_message_result_event : ℕ
  pub sizeof_eth_info_job : ℕ
  pub sizeof_bluetooth_complete_job : ℕ
  pub sizeof_bluetooth_info_job : ℕ
  pub sizeof_bluetooth_fatal_job : ℕ
  pub sizeof_data_job : ℕ
  pub sizeof_ota_complete_job : ℕ
  pub sizeof_ota_write_job : ℕ
  pub sizeof_ota_begin_request : ℕ
  pub sizeof_hello_request : ℕ
  pub sizeof_hello_response : ℕ
  pub sizeof_heartbeat : ℕ

-- The fields of `wlh_coproc_config_t` that the core reads, and which optional callbacks are set.
pub record Config : Type 0 where
  pub max_frame_size : ℕ
  pub heartbeat_interval_ms : ℕ
  pub initial_credit : ℕ
  pub ethernet_tx_aggregation_limit : ℕ
  pub implementation_version : List ℕ
  pub has_bluetooth_hci_send : Bool
  pub has_hci_tx_ready : Bool
  pub has_eth_get_info : Bool
  pub has_kv_read : Bool
  pub has_kv_write : Bool
  pub has_kv_erase : Bool
  pub has_io_read : Bool
  pub has_io_write : Bool
  pub has_ota_write : Bool
  pub has_ota_abort : Bool
  pub has_ethernet_rx : ℕ → Bool

pub record Diagnostics : Type 0 where
  pub state : CoprocState
  pub tx_frames : ℕ
  pub rx_frames : ℕ
  pub checksum_errors : ℕ
  pub sequence_gaps : ℕ
  pub rpc_requests : ℕ
  pub ethernet_rx_rejected : ℕ
  pub ethernet_rx_failed : ℕ
  pub hci_drops : ℕ
  pub hci_malformed : ℕ
  pub hci_adv_drops : ℕ
  pub bluetooth_mismatches : ℕ
  pub last_peer_activity_ms : ℕ

-- A backend operation whose completion answers an RPC request: `wifi_initialize_pending`,
-- `bluetooth_pending`, `eth_pending` and `ota_pending`. The first and the third have no method: 0.
pub record PendingOperation : Type 0 where
  pub active : Bool
  pub operation_id : ℕ
  pub session_id : ℕ
  pub request_id : ℕ
  pub method_id : ℕ

-- The fields `ota_*` and `next_ota_transfer_id` of `wlh_coproc_t`, without the prefix.
pub record OtaTransfer : Type 0 where
  pub pending : PendingOperation
  pub state : OtaState
  pub transfer_id : ℕ
  pub next_transfer_id : ℕ
  pub image_size : ℕ
  pub bytes_accepted : ℕ
  pub bytes_received : ℕ
  pub progress_reported_bytes : ℕ
  pub target_version : List ℕ

-- `wlh_coproc_t`, with the calls made so far. An array over the channels is a function.
pub record Coproc : Type 0 where
  pub config : Config
  pub state : CoprocState
  pub session_id : ℕ
  pub next_session_id : ℕ
  pub tx_sequence : ℕ → ℕ
  pub rx_sequence : ℕ → ℕ
  pub tx_credit : ℕ → ℕ
  pub rx_sequence_valid : ℕ → Bool
  pub started_ms : ℕ
  pub last_heartbeat_ms : ℕ
  pub diagnostics : Diagnostics
  pub ethernet_rx_pending_credit : ℕ → ℕ
  pub ethernet_rx_pending_failures : ℕ
  pub ethernet_rx_wake_queued : Bool
  pub worker_started : Bool
  pub next_backend_operation_id : ℕ
  pub wifi_initialize_pending : PendingOperation
  pub bluetooth_pending : PendingOperation
  pub eth_pending : PendingOperation
  pub bluetooth_state : ℕ
  pub bluetooth_tx_inflight : ℕ
  pub bluetooth_adv_tx_inflight : ℕ
  pub bluetooth_adv_channel : Bool
  pub bluetooth_hci_stopped : Bool
  pub ota : OtaTransfer
  pub trace : Trace

abbrev pub rpc_buffer_size : ℕ
rpc_buffer_size = 1536

abbrev pub max_hci_packet : ℕ
max_hci_packet = 1024

abbrev pub bluetooth_initial_credit : ℕ
bluetooth_initial_credit = 16

abbrev pub bluetooth_adv_initial_credit : ℕ
bluetooth_adv_initial_credit = 4

abbrev pub channel_count : ℕ
channel_count = 256

abbrev pub ota_stream_header_size : ℕ
ota_stream_header_size = 16

abbrev pub ota_chunk_size : ℕ
ota_chunk_size = 4048

abbrev pub ota_alignment : ℕ
ota_alignment = 16

abbrev pub ota_initial_credit : ℕ
ota_initial_credit = 4

abbrev pub ota_record_type : ℕ
ota_record_type = 1

-- `memset(&pending, 0, sizeof(pending))`
abbrev pub no_operation : PendingOperation
no_operation = record {
  active = false;
  operation_id = 0;
  session_id = 0;
  request_id = 0;
  method_id = 0;
}

-- `a == b` of two states, by their numbers.
abbrev pub state_number : CoprocState → ℕ
state_number CoprocState.stopped = 0
state_number CoprocState.waiting_for_hello = 1
state_number CoprocState.ready = 2
state_number CoprocState.congested = 3
state_number CoprocState.failed = 4

abbrev pub same_state : CoprocState → CoprocState → Bool
same_state a b = state_number a == state_number b

abbrev pub ota_state_number : OtaState → ℕ
ota_state_number OtaState.unspecified = 0
ota_state_number OtaState.idle = 1
ota_state_number OtaState.receiving = 2
ota_state_number OtaState.verifying = 3
ota_state_number OtaState.ready_to_activate = 4
ota_state_number OtaState.failed = 5

abbrev pub same_ota_state : OtaState → OtaState → Bool
same_ota_state a b = ota_state_number a == ota_state_number b
