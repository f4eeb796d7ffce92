-- ===== src/Host/Frame.antt =====
-- Receiving: `process_frame` of host-core/src/host_frame.c, which takes a frame from the transport,
-- checks its session and sequence and dispatches it by its channel.
pub mod Respond
use wl_hosted_core.Prelude.{
  ℕ, zero, suc, ◌+◌, ◌-◌, ◌*◌, ◌^◌, Bool, true, false, not, ◌&&◌, ◌||◌, List, [], ◌∷◌, Option, none,
  some,
}
use wl_hosted_core.Prelude.{length, get_or, set, drop, ltb, leb, ◌==◌, ◌!=◌, if◌then◌else◌, update}
use wl_hosted_core.Prelude.Word.{ℤ, pos, u32, u64}
use wl_hosted_core.Protocol.Result.{WireResult, Wire, accept, reject, Span, null, bytes}
use wl_hosted_core.Protocol.Ids.Channel
use wl_hosted_core.Protocol.Ids.Service
use wl_hosted_core.Protocol.Ids.Method
use wl_hosted_core.Protocol.Endian.{byte_at, read_u16_le_unchecked, read_u32_le_unchecked}
use wl_hosted_core.Protocol.Frame.{FrameHeader, frame_decode}
use wl_hosted_core.Protocol.Rpc.{RpcEnvelope, kind_response, kind_event, is_status_ok, rpc_decode}
use wl_hosted_core.Protocol.RawRecord.{RawRecordView, raw_record_iterator_init, walk_records}
use wl_hosted_core.Host.Types.{
  HostResult, HostState, EventKind, EventPayload, raw, bluetooth, eth, Call, Platform, Config,
  PendingRpc, Diagnostics, Host, protobuf_limit,
}
use wl_hosted_core.Host.Types.Messages.{BluetoothEvent, EthEvent}
use wl_hosted_core.Host.Effects.{
  record_call, increment, same_state, now_ms, dispatch_event, dispatch_completion, set_state,
}
use wl_hosted_core.Host.Send.{is_ok, send_credit_update}
use wl_hosted_core.Host.Pending.{clear_slot, find_pending, cancel_pending}
use wl_hosted_core.Host.Link.{
  saturating_add, note_activity, send_hello, handle_hello_response, handle_link_event,
}
use wl_hosted_core.Host.Ethernet.{process_ethernet_frame}
use wl_hosted_core.Host.Streams.{process_hci_frame, process_ota_frame}

abbrev pub wifi_event_kind : ℕ → EventKind
wifi_event_kind method =
    if method == Method.wifi_scan_result
    then EventKind.wifi_scan_result
    else if method == Method.wifi_scan_completed
    then EventKind.wifi_scan_completed
    else if method == Method.wifi_connected
    then EventKind.wifi_connected
    else if method == Method.wifi_disconnected
    then EventKind.wifi_disconnected
    else if method == Method.wifi_ap_client_joined
    then EventKind.wifi_ap_client_joined
    else if method == Method.wifi_ap_client_left
    then EventKind.wifi_ap_client_left
    else EventKind.protocol_fault

-- A frame that is taken: its sequence number, the counters and the time of the peer's activity.
unfoldable pub note_frame : Platform → Host → FrameHeader → Host
unfolding now_ms
note_frame p h header =
    let gap =
      h.rx_sequence_valid header.channel
      && header.sequence != h.expected_rx_sequence header.channel in
    let h1 = record h {
      expected_rx_sequence =
          update h.expected_rx_sequence header.channel (increment header.sequence);
      rx_sequence_valid = update h.rx_sequence_valid header.channel true;
      diagnostics = record (h.diagnostics) {
        sequence_gaps =
            if gap then increment (h.diagnostics).sequence_gaps else (h.diagnostics).sequence_gaps;
        rx_frames = increment (h.diagnostics).rx_frames;
      };
    } in
    let (time, h2) = now_ms p h1 in note_activity time h2

-- The enumerations that an event of the wired interface carries are in range.
abbrev pub eth_event_invalid : EthEvent → Bool
eth_event_invalid e = ltb 2 e.link_state || ltb 3 e.speed || ltb 2 e.duplex

abbrev pub count_reset : Host → Host
count_reset h = record h {
  diagnostics = record (h.diagnostics) { peer_resets = increment (h.diagnostics).peer_resets };
}

-- What a frame of another session makes the host forget.
abbrev pub forget_peer : Host → Host
forget_peer h = record h {
  session_id = 0;
  bluetooth_supported = false;
  bluetooth_hci_stopped = false;
  bluetooth_tx_inflight = 0;
  bluetooth_state = 0;
  ota_supported = false;
  ota_tx_inflight = 0;
  peer_version = set h.peer_version 0 0;
}

abbrev pub is_mismatch : WireResult → Bool
is_mismatch WireResult.checksum_mismatch = true
is_mismatch _ = false

abbrev pub count_checksum_error : WireResult → Host → Host
count_checksum_error code h = record h {
  diagnostics = record (h.diagnostics) {
    checksum_errors =
        if is_mismatch code
        then increment (h.diagnostics).checksum_errors
        else (h.diagnostics).checksum_errors;
  };
}

module _ (p : Platform) where
  -- A response: the slot of its request is freed and the request's callback told.
  unfoldable pub respond : Host → RpcEnvelope → List ℕ → Option ℕ → HostResult × Host
  respond h e payload none = (HostResult.not_found, h)
  respond h e payload (some i) = (
    HostResult.ok,
    dispatch_completion p (clear_slot h i) (h.pending i).completion
        (if is_status_ok e.status_code then HostResult.ok else HostResult.protocol_error)
        e.status_domain e.status_code payload,
  )

  -- An event of which the payload is passed on.
  unfoldable pub pass_event : Host → EventKind → RpcEnvelope → List ℕ → HostResult × Host
  pass_event h kind e payload =
      (HostResult.ok, (dispatch_event p h kind e.service_id e.method_id (raw payload)).1)

  unfoldable pub take_bluetooth_event :
      Host → RpcEnvelope → Option BluetoothEvent → HostResult × Host
  take_bluetooth_event h e none = (HostResult.protocol_error, h)
  take_bluetooth_event h e (some event) =
      let h1 = record h { bluetooth_state = event.state } in
      if ltb 3 event.state then (HostResult.protocol_error, h) else (
        HostResult.ok,
        (dispatch_event p h1 EventKind.bluetooth_state_changed e.service_id e.method_id
            (bluetooth event)).1,
      )

  unfoldable pub take_eth_event : Host → RpcEnvelope → Option EthEvent → HostResult × Host
  take_eth_event h e none = (HostResult.protocol_error, h)
  take_eth_event h e (some event) =
      if eth_event_invalid event then (HostResult.protocol_error, h) else (
        HostResult.ok,
        (dispatch_event p h EventKind.eth_link_state_changed e.service_id e.method_id
            (eth event)).1,
      )

  unfoldable pub process_event : Host → RpcEnvelope → List ℕ → HostResult × Host
  process_event h e payload =
      if e.service_id == Service.link
      then (HostResult.ok, handle_link_event p h e payload)
      else if e.service_id == Service.wifi
      then pass_event h (wifi_event_kind e.method_id) e payload
      else if e.service_id == Service.bluetooth && e.method_id == Method.bluetooth_state_changed
      then take_bluetooth_event h e (p.decode_bluetooth_state_changed payload)
      else if e.service_id == Service.eth && e.method_id == Method.eth_link_state_changed
      then take_eth_event h e (p.decode_eth_link_state_changed payload)
      else if e.service_id == Service.ota && e.method_id == Method.ota_progress
      then pass_event h EventKind.ota_progress e payload
      else if e.service_id == Service.user_passthrough
          && e.method_id == Method.user_passthrough_result
      then pass_event h EventKind.user_message_result e payload
      else (HostResult.protocol_error, h)

  unfoldable pub process_response : Host → RpcEnvelope → List ℕ → HostResult × Host
  process_response h e payload =
      if e.service_id == Service.link
        && e.method_id == Method.link_hello
        && same_state h.state HostState.negotiating
      then (if is_status_ok e.status_code
          then handle_hello_response p h payload
          else (HostResult.protocol_error, set_state p h HostState.failed))
      else respond h e payload (find_pending h e)

  unfoldable pub process_message : Host → Wire (RpcEnvelope × List ℕ) → HostResult × Host
  process_message h (reject code) = (HostResult.protocol_error, h)
  process_message h (accept (e, payload)) =
      if e.kind == kind_response
      then process_response h e payload
      else if e.kind == kind_event
      then process_event h e payload
      else (HostResult.protocol_error, h)

  unfoldable pub process_rpc_frame : Host → ℕ → List ℕ → HostResult × Host
  process_rpc_frame h channel payload =
      let refunded = (send_credit_update p h Channel.control_rpc 1).1 in
      process_message (if channel == Channel.control_rpc then refunded else h)
        (rpc_decode (bytes payload) protobuf_limit)

  unfoldable pub dispatch_channel : Host → ℕ → List ℕ → HostResult × Host
  dispatch_channel h channel payload =
      if channel == Channel.bluetooth_hci || channel == Channel.bluetooth_hci_adv
      then process_hci_frame p h channel payload
      else if channel == Channel.ota_stream
      then process_ota_frame p h payload
      else if channel == Channel.ethernet_sta
          || channel == Channel.ethernet_ap
          || channel == Channel.ethernet_eth
      then process_ethernet_frame p h channel payload
      else if channel == Channel.link_control || channel == Channel.control_rpc
      then process_rpc_frame h channel payload
      else (HostResult.protocol_error, h)

  -- A frame of another session.
  unfoldable pub recover_session : Host → Host
  recover_session h =
      let h1 = forget_peer (cancel_pending p (count_reset h) HostResult.session_changed) in
      (send_hello p (set_state p h1 HostState.recovering)).1

  -- From the decoded frame on.
  unfoldable pub process_decoded : Host → Wire (FrameHeader × List ℕ) → HostResult × Host
  process_decoded h (reject code) = (
    HostResult.protocol_error,
    (dispatch_event p (count_checksum_error code h) EventKind.protocol_fault 0 0 (raw [])).1,
  )
  process_decoded h (accept (header, payload)) =
      if h.session_id != 0 && header.session_id != h.session_id
      then (HostResult.session_changed, recover_session h)
      else dispatch_channel (note_frame p h header) header.channel payload

  unfoldable pub process_frame : Host → Span → HostResult × Host
  process_frame h (null n) = (HostResult.invalid_argument, h)
  process_frame h (bytes frame) =
      process_decoded h (frame_decode (bytes frame) (h.config).max_frame_size)
