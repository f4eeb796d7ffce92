-- ===== src/Host/Samples.antt =====
-- A host and an environment, for tests.
use wl_hosted_core.Prelude.{ℕ, ◌+◌, ◌-◌, ◌*◌, ◌^◌, true, false, [], ◌∷◌, none, some, ltb}
use wl_hosted_core.Host.Types.{HostState, Platform, PendingRpc, Host}

abbrev pub sample_platform : Platform
sample_platform = record {
  alloc_ok = λ t size. true;
  submit_ok = λ t frame. true;
  post_ok = λ t task. true;
  start_ok = λ t. true;
  stop_ok = λ t. true;
  hci_rx_ok = λ t. true;
  ota_rx_ok = λ t. true;
  time = λ t. 500;
  pb_get_encoded_size = λ m. some 2;
  pb_encode = λ m size. some (8 ∷ 9 ∷ []);
  decode_hello_response = λ bs. none;
  decode_credit_update = λ bs. none;
  decode_heartbeat = λ bs. none;
  decode_session_changed = λ bs. none;
  decode_bluetooth_state_changed = λ bs. none;
  decode_eth_link_state_changed = λ bs. none;
  size_max = 2 ^ 64 - 1;
  payload_size_of = λ payload. 0;
  sizeof_event_task = 64;
  sizeof_completion_task = 48;
  sizeof_hello_request = 512;
  sizeof_hello_response = 512;
  sizeof_heartbeat = 16;
  sizeof_session_changed = 16;
}

-- Slot 0 waits until 400 with callback 1, slot 1 until 900 with callback 2.
abbrev pub sample_slot : ℕ → PendingRpc
sample_slot i = record {
  active = ltb i 2;
  session_id = 7;
  request_id = i + 1;
  service_id = 2;
  method_id = 3;
  deadline_ms = 400 + i * 500;
  completion = i + 1;
}

abbrev pub sample_host : Host
sample_host = record {
  config = record {
    max_frame_size = 1600;
    rpc_timeout_ms = 1000;
    heartbeat_timeout_ms = 5000;
    max_pending_rpc = 8;
    has_hci_rx = true;
    has_hci_tx_ready = true;
    has_ota_rx = true;
    has_ota_tx_ready = true;
  };
  state = HostState.ready;
  session_id = 7;
  next_request_id = 3;
  tx_sequence = λ channel. 5;
  expected_rx_sequence = λ channel. 0;
  tx_credit = λ channel. 4;
  ethernet_rx_pending_credit = 1 ∷ 0 ∷ 0 ∷ [];
  ethernet_rx_credit_due_ms = 600;
  rx_sequence_valid = λ channel. true;
  pending = sample_slot;
  diagnostics = record {
    state = HostState.ready;
    session_id = 7;
    tx_frames = 0;
    rx_frames = 0;
    rpc_timeouts = 0;
    checksum_errors = 0;
    sequence_gaps = 0;
    peer_resets = 0;
    transport_resets = 0;
    buffer_allocation_failures = 0;
    hci_malformed = 0;
    hci_drops = 0;
    last_peer_activity_ms = 300;
  };
  bluetooth_supported = true;
  bluetooth_hci_stopped = false;
  bluetooth_tx_inflight = 0;
  bluetooth_max_record = 1024;
  bluetooth_state = 0;
  ota_supported = true;
  ota_max_record = 1024;
  ota_tx_inflight = 0;
  peer_version = [];
  started_ms = 0;
  worker_stopping = false;
  trace = [];
}
