-- ===== src/Coproc/Samples.antt =====
-- A coprocessor and an environment, for tests.
use wl_hosted_core.Prelude.{◌*◌, true, false, [], ◌∷◌, none, some, length, replicate}
use wl_hosted_core.Prelude.Word.{pos, negsuc}
use wl_hosted_core.Coproc.Types.{
  CoprocState, EthernetRxResult, OtaState, Platform, OtaTransfer, Coproc, no_operation,
}
use wl_hosted_core.Coproc.Types.Messages.{DeviceInfo, OtaBeginRequest}

-- An image of 32 bytes.
abbrev pub sample_begin : OtaBeginRequest
sample_begin = record {
  image_type = 1;
  image_size = 32;
  sha256 = replicate 32 7;
  target_version = 49 ∷ [];
  slot = [];
  signature = [];
}

abbrev pub no_info : DeviceInfo
no_info = record { vendor = []; mcu_model = []; uid = []; uid_size = 0; board_profile = [] }

-- An environment that grants whatever it is asked for; each call takes ten milliseconds.
abbrev pub sample_platform : Platform
sample_platform = record {
  alloc_ok = λ t size. true;
  submit_ok = λ t frame. true;
  lock_ok = λ t. true;
  queue_ok = λ t job. true;
  ota_ok = λ t call. true;
  ethernet_rx = λ t session_id channel frame. EthernetRxResult.pending;
  time = λ t. length t * 10;
  pb_get_encoded_size = λ m. some 2;
  pb_encode = λ m size. some (8 ∷ 9 ∷ []);
  decode_credit_update = λ bs. none;
  decode_heartbeat = λ bs. none;
  decode_hello_request = λ bs. none;
  decode_ota_begin_request = λ bs. some sample_begin;
  decode_ota_finalize_request = λ bs. none;
  decode_ota_abort_request = λ bs. some 1;
  decode_ota_activate_request = λ bs. none;
  decode_adc_read_request = λ bs. some 3;
  decode_io_configure_request = λ bs. none;
  decode_io_read_request = λ bs. some 3;
  decode_io_write_request = λ bs. none;
  adc_read = λ t pin. (pos 0, 1650);
  io_configure = λ t config. pos 0;
  io_read = λ t pin. (pos 0, record { level = true; mode = 1; pull = 1 });
  io_write = λ t pin level. pos 0;
  decode_kv_read_request = λ bs. some (107 ∷ []);
  decode_kv_write_request = λ bs. none;
  decode_kv_erase_request = λ bs. none;
  decode_diagnostics_ping_request = λ bs. none;
  decode_user_message_send_request = λ bs. none;
  decode_eth_get_info_request = λ bs. true;
  decode_bluetooth_initialize_request = λ bs. some (record { transport = 1; feature_flags = 0 });
  decode_bluetooth_enable_request = λ bs. some 0;
  decode_bluetooth_deinitialize_request = λ bs. some true;
  kv_read = λ t key. (pos 0, replicate 512 65, 3);
  kv_write = λ t key value. pos 0;
  kv_erase = λ t key. pos 0;
  device_info = λ t. (negsuc 0, no_info);
  user_message = λ t message. pos 0;
  eth_get_info = λ t operation_id. pos 0;
  bluetooth = λ t call. pos 0;
  hci_send = λ t h4_type packet. pos 0;
  slot_ok = λ t. true;
  sizeof_kv_message = 600;
  sizeof_device_info_response = 180;
  sizeof_user_message_send_request = 540;
  sizeof_user_message_result_event = 540;
  sizeof_eth_info_job = 32;
  sizeof_bluetooth_complete_job = 8;
  sizeof_bluetooth_info_job = 40;
  sizeof_bluetooth_fatal_job = 4;
  sizeof_data_job = 32;
  sizeof_ota_complete_job = 8;
  sizeof_ota_write_job = 24;
  sizeof_ota_begin_request = 640;
  sizeof_hello_request = 512;
  sizeof_hello_response = 512;
  sizeof_heartbeat = 32;
}

abbrev pub sample_transfer : OtaTransfer
sample_transfer = record {
  pending = no_operation;
  state = OtaState.unspecified;
  transfer_id = 0;
  next_transfer_id = 1;
  image_size = 0;
  bytes_accepted = 0;
  bytes_received = 0;
  progress_reported_bytes = 0;
  target_version = [];
}

abbrev pub sample_coproc : Coproc
sample_coproc = record {
  config = record {
    max_frame_size = 4096;
    heartbeat_interval_ms = 1000;
    initial_credit = 64;
    ethernet_tx_aggregation_limit = 0;
    implementation_version = [];
    has_bluetooth_hci_send = true;
    has_hci_tx_ready = false;
    has_eth_get_info = false;
    has_kv_read = true;
    has_kv_write = true;
    has_kv_erase = false;
    has_io_read = true;
    has_io_write = true;
    has_ota_write = true;
    has_ota_abort = true;
    has_ethernet_rx = λ channel. true;
  };
  state = CoprocState.ready;
  session_id = 5;
  next_session_id = 6;
  tx_sequence = λ channel. 3;
  rx_sequence = λ channel. 0;
  tx_credit = λ channel. 4;
  rx_sequence_valid = λ channel. false;
  started_ms = 0;
  last_heartbeat_ms = 0;
  diagnostics = record {
    state = CoprocState.ready;
    tx_frames = 0;
    rx_frames = 0;
    checksum_errors = 0;
    sequence_gaps = 0;
    rpc_requests = 0;
    ethernet_rx_rejected = 0;
    ethernet_rx_failed = 0;
    hci_drops = 0;
    hci_malformed = 0;
    hci_adv_drops = 0;
    bluetooth_mismatches = 0;
    last_peer_activity_ms = 0;
  };
  ethernet_rx_pending_credit = λ index. 9;
  ethernet_rx_pending_failures = 1;
  ethernet_rx_wake_queued = true;
  worker_started = true;
  next_backend_operation_id = 1;
  wifi_initialize_pending = no_operation;
  bluetooth_pending = no_operation;
  eth_pending = no_operation;
  bluetooth_state = 0;
  bluetooth_tx_inflight = 0;
  bluetooth_adv_tx_inflight = 0;
  bluetooth_adv_channel = false;
  bluetooth_hci_stopped = false;
  ota = sample_transfer;
  trace = [];
}
