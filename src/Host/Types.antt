-- ===== src/Host/Types.antt =====
-- The types of host-core/include/wlh/host.h and host-core/src/host_internal.h, the calls that the
-- core makes of its environment, and the environment itself.
pub mod Messages
use wl_hosted_core.Prelude.{ℕ, Bool, List, Option}
use wl_hosted_core.Prelude.Word.{ℤ}
use Messages.{Message, HelloResponse, CreditUpdate, BluetoothEvent, EthEvent}

pub data HostResult : Type 0 where
  ok invalid_argument invalid_state no_memory transport_error protocol_error no_credit : HostResult
  pending_full timeout session_changed not_found not_supported : HostResult

pub data HostState : Type 0 where
  uninitialized transport_starting waiting_for_peer negotiating ready congested : HostState
  recovering failed stopping : HostState

pub data EventKind : Type 0 where
  state_changed wifi_scan_result wifi_scan_completed wifi_connected wifi_disconnected : EventKind
  ethernet_sta_rx protocol_fault user_message_result wifi_ap_client_joined : EventKind
  wifi_ap_client_left ethernet_ap_rx bluetooth_state_changed ota_progress : EventKind
  ethernet_eth_rx eth_link_state_changed : EventKind

-- What an event carries: nothing, the bytes of a payload, or one of the two decoded structures.
pub data EventPayload : Type 0 where
  raw : List ℕ → EventPayload
  bluetooth : BluetoothEvent → EventPayload
  eth : EthEvent → EventPayload

-- A function pointer with its context: 0 is NULL.
abbrev pub Completion : Type 0
Completion = ℕ

-- What is posted to the executor: `wlh_event_task_t` and `wlh_completion_task_t`.
pub data Task : Type 0 where
  event : EventKind → HostState → ℕ → ℕ → EventPayload → Task
  completion : Completion → HostResult → ℕ → ℤ → List ℕ → Task

-- The calls that the core makes, each with the environment's answer where it has one.
pub data Call : Type 0 where
  clock : ℕ → Call
  alloc : ℕ → Call
  alloc_failed : ℕ → Call
  free : Call
  submitted : List ℕ → Call
  submit_refused : List ℕ → Call
  posted : Task → Call
  post_refused : Task → Call
  completed : Completion → HostResult → ℕ → ℤ → Call
  hci_tx_ready : Call
  ota_tx_ready : Call
  hci_received : ℕ → List ℕ → Call
  ota_received : ℕ → ℕ → List ℕ → ℕ → Call
  transport_start : Bool → Call
  transport_stop : Bool → Call

-- The calls so far, the latest first.
abbrev pub Trace : Type 0
Trace = List Call

-- What is not part of the repository's core: the adapter's callbacks, the protobuf library and the
-- target's `SIZE_MAX` and structure sizes. An answer may depend on every call before it.
pub record Platform : Type 0 where
  pub alloc_ok : Trace → ℕ → Bool
  pub submit_ok : Trace → List ℕ → Bool
  pub post_ok : Trace → Task → Bool
  pub start_ok : Trace → Bool
  pub stop_ok : Trace → Bool
  pub hci_rx_ok : Trace → Bool
  pub ota_rx_ok : Trace → Bool
  pub time : Trace → ℕ
  pub pb_get_encoded_size : Message → Option ℕ
  pub pb_encode : Message → ℕ → Option (List ℕ)
  pub decode_hello_response : List ℕ → Option HelloResponse
  pub decode_credit_update : List ℕ → Option CreditUpdate
  pub decode_heartbeat : List ℕ → Option ℕ
  pub decode_session_changed : List ℕ → Option ℕ
  pub decode_bluetooth_state_changed : List ℕ → Option BluetoothEvent
  pub decode_eth_link_state_changed : List ℕ → Option EthEvent
  pub size_max : ℕ
  pub payload_size_of : EventPayload → ℕ
  pub sizeof_event_task : ℕ
  pub sizeof_completion_task : ℕ
  pub sizeof_hello_request : ℕ
  pub sizeof_hello_response : ℕ
  pub sizeof_heartbeat : ℕ
  pub sizeof_session_changed : ℕ

-- The fields of `wlh_host_config_t` that the core reads, and which optional callbacks are set.
pub record Config : Type 0 where
  pub max_frame_size : ℕ
  pub rpc_timeout_ms : ℕ
  pub heartbeat_timeout_ms : ℕ
  pub max_pending_rpc : ℕ
  pub has_hci_rx : Bool
  pub has_hci_tx_ready : Bool
  pub has_ota_rx : Bool
  pub has_ota_tx_ready : Bool

pub record PendingRpc : Type 0 where
  pub active : Bool
  pub session_id : ℕ
  pub request_id : ℕ
  pub service_id : ℕ
  pub method_id : ℕ
  pub deadline_ms : ℕ
  pub completion : Completion

pub record Diagnostics : Type 0 where
  pub state : HostState
  pub session_id : ℕ
  pub tx_frames : ℕ
  pub rx_frames : ℕ
  pub rpc_timeouts : ℕ
  pub checksum_errors : ℕ
  pub sequence_gaps : ℕ
  pub peer_resets : ℕ
  pub transport_resets : ℕ
  pub buffer_allocation_failures : ℕ
  pub hci_malformed : ℕ
  pub hci_drops : ℕ
  pub last_peer_activity_ms : ℕ

-- `wlh_host_t`, with the calls made so far. An array over the channels is a function, and so is
-- the pending table; the three Ethernet counters are a list.
pub record Host : Type 0 where
  pub config : Config
  pub state : HostState
  pub session_id : ℕ
  pub next_request_id : ℕ
  pub tx_sequence : ℕ → ℕ
  pub expected_rx_sequence : ℕ → ℕ
  pub tx_credit : ℕ → ℕ
  pub ethernet_rx_pending_credit : List ℕ
  pub ethernet_rx_credit_due_ms : ℕ
  pub rx_sequence_valid : ℕ → Bool
  pub pending : ℕ → PendingRpc
  pub diagnostics : Diagnostics
  pub bluetooth_supported : Bool
  pub bluetooth_hci_stopped : Bool
  pub bluetooth_tx_inflight : ℕ
  pub bluetooth_max_record : ℕ
  pub bluetooth_state : ℕ
  pub ota_supported : Bool
  pub ota_max_record : ℕ
  pub ota_tx_inflight : ℕ
  pub peer_version : List ℕ
  pub started_ms : ℕ
  pub worker_stopping : Bool
  pub trace : Trace

-- `wlh_host_rpc_job_t`
pub record RpcJob : Type 0 where
  pub service_id : ℕ
  pub method_id : ℕ
  pub request_id : ℕ
  pub timeout_ms : ℕ
  pub completion : Completion
  pub payload : List ℕ

abbrev pub max_pending : ℕ
max_pending = 16

abbrev pub channel_count : ℕ
channel_count = 256

abbrev pub protobuf_limit : ℕ
protobuf_limit = 2048

abbrev pub max_hci_packet : ℕ
max_hci_packet = 1024
