-- ===== src/Host/Link.antt =====
-- The link: host-core/src/host_link.c. Negotiation, credit, heartbeats, a changed session and a
-- lost transport.
pub mod Negotiate
pub mod Credit
pub mod Session
use wl_hosted_core.Prelude.{
  ℕ, ◌+◌, ◌-◌, Bool, true, false, not, ◌&&◌, ◌||◌, List, [], ◌∷◌, ◌++◌, Option, none, some,
}
use wl_hosted_core.Prelude.{length, take, set, ltb, leb, ◌==◌, ◌!=◌, if◌then◌else◌, update}
use wl_hosted_core.Prelude.Word.{ℤ, pos, u32, u32_max}
use wl_hosted_core.Protocol.Ids.Channel
use wl_hosted_core.Protocol.Ids.Service
use wl_hosted_core.Protocol.Ids.Method
use wl_hosted_core.Protocol.Rpc.{RpcEnvelope, kind_request}
use wl_hosted_core.Host.Types.{
  HostResult, HostState, Call, Platform, Config, Host, channel_count, protobuf_limit,
  max_hci_packet,
}
use wl_hosted_core.Host.Types.Messages.{
  HelloRequest, HelloResponse, CreditUpdate, ServiceVersionRange, ChannelCapability, Message,
  hello_request,
}
use wl_hosted_core.Host.Effects.{
  record_call, increment, same_state, now_ms, alloc_buffer, free_buffer, set_state,
}
use wl_hosted_core.Host.Send.{send_rpc_message}
use wl_hosted_core.Host.Pending.{cancel_pending}
use Negotiate.{hello_rejected, initial_credits, bluetooth_terms, ota_terms}

abbrev pub first_version : ℕ → ServiceVersionRange
first_version id = record { service_id = id; major = 1; min_minor = 0; max_minor = 0 }

abbrev pub capability : ℕ → ℕ → ChannelCapability
capability id payload = record {
  channel_id = id;
  max_frame_payload = payload;
  max_aggregate_size = 0;
  alignment = 1;
  feature_flags = 0;
}

-- The request that a host makes.
unfoldable pub hello_of : ℕ → HelloRequest
hello_of max_frame_size = record {
  major = 1;
  min_minor = 0;
  max_minor = 0;
  max_frame_size = max_frame_size;
  alignment = 1;
  max_rpc_payload = protobuf_limit;
  services =
      first_version Service.link
      ∷ first_version Service.wifi
      ∷ first_version Service.diagnostics
      ∷ first_version Service.bluetooth
      ∷ first_version Service.ota
      ∷ first_version Service.eth
      ∷ [];
  channels =
      capability Channel.link_control protobuf_limit
      ∷ capability Channel.control_rpc protobuf_limit
      ∷ capability Channel.ethernet_sta 1600
      ∷ capability Channel.ethernet_ap 1600
      ∷ capability Channel.bluetooth_hci max_hci_packet
      ∷ capability Channel.bluetooth_hci_adv max_hci_packet
      ∷ capability Channel.ota_stream 4096
      ∷ capability Channel.ethernet_eth 1600
      ∷ [];
}

abbrev pub hello_envelope : ℕ → RpcEnvelope
hello_envelope id = record {
  service_id = Service.link;
  method_id = Method.link_hello;
  request_id = id;
  kind = kind_request;
  flags = 0;
  payload_size = 0;
  status_domain = 0;
  status_code = pos 0;
}

-- `next_request_id++`, once more where it gives 0.
unfoldable pub take_request_id : Host → ℕ × Host
take_request_id h =
    let next = increment h.next_request_id in
    if h.next_request_id == 0
    then (next, record h { next_request_id = increment next })
    else (h.next_request_id, record h { next_request_id = next })

unfoldable pub reset_ethernet_rx_credits : Host → Host
reset_ethernet_rx_credits h = record h {
  ethernet_rx_pending_credit = 0 ∷ 0 ∷ 0 ∷ [];
  ethernet_rx_credit_due_ms = 0;
}

-- The copy of a text into `peer_version`, whose last byte is NUL.
abbrev pub peer_version_of : List ℕ → List ℕ
peer_version_of text = set (take 33 text) 32 0

-- What `handle_hello_response` stores of a response that it takes.
unfoldable pub adopt_hello : Platform → Host → HelloResponse → Host
unfolding reset_ethernet_rx_credits
adopt_hello p h0 hello =
    let h = reset_ethernet_rx_credits h0 in
    let (bluetooth, bluetooth_limit) = bluetooth_terms (h.config).max_frame_size hello in
    let (ota, ota_limit) = ota_terms p.size_max (h.config).max_frame_size hello in
    record h {
      session_id = hello.session_id;
      peer_version = peer_version_of hello.implementation_version;
      diagnostics = record (h.diagnostics) { session_id = hello.session_id };
      tx_credit = initial_credits hello.initial_credits (λ channel. 0);
      bluetooth_supported = bluetooth;
      bluetooth_max_record = bluetooth_limit;
      bluetooth_hci_stopped = false;
      bluetooth_state = 0;
      ota_supported = ota;
      ota_max_record = ota_limit;
    }

-- `last_peer_activity_ms = now`
abbrev pub note_activity : ℕ → Host → Host
note_activity time h = record h {
  diagnostics = record (h.diagnostics) { last_peer_activity_ms = time };
}

-- `UINT32_MAX - old < units ? UINT32_MAX : old + units`
abbrev pub saturating_add : ℕ → ℕ → ℕ
saturating_add old units = if ltb (u32_max - old) units then u32_max else old + units

-- What both a changed session and a lost transport forget.
unfoldable pub forget_session : Host → Host
forget_session h = record h {
  session_id = 0;
  tx_credit = λ channel. 0;
  rx_sequence_valid = λ channel. false;
  bluetooth_supported = false;
  bluetooth_hci_stopped = false;
  bluetooth_tx_inflight = 0;
  bluetooth_state = 0;
  ota_supported = false;
  ota_tx_inflight = 0;
  peer_version = set h.peer_version 0 0;
}

-- The wake-up of a sender whose channel had no usable credit and now has some.
unfoldable pub notify_usable : Bool → Call → ℕ → ℕ → ℕ → Host → Host
notify_usable listening call inflight old updated h =
    if listening && not (ltb inflight old) && ltb inflight updated then record_call call h else h

module _ (p : Platform) where
  unfoldable pub send_hello : Host → HostResult × Host
  unfolding alloc_buffer free_buffer
  send_hello h =
      let (allocated, h1) = alloc_buffer p h p.sizeof_hello_request in
      let (id, h2) = take_request_id h1 in
      let h3 = set_state p h2 HostState.negotiating in
      let (result, h4) =
        send_rpc_message p h3 (hello_envelope id)
          (hello_request (hello_of (h.config).max_frame_size)) true in
      if allocated then (result, free_buffer p h4) else (HostResult.no_memory, h1)

  -- With the buffer for the message, and what was decoded into it.
  unfoldable pub handle_decoded_hello : Host → Option HelloResponse → HostResult × Host
  unfolding now_ms free_buffer
  handle_decoded_hello h none =
      (HostResult.protocol_error, set_state p (free_buffer p h) HostState.failed)
  handle_decoded_hello h (some hello) =
      let (time, h1) = now_ms p (free_buffer p (adopt_hello p h hello)) in
      if hello_rejected hello
      then (HostResult.protocol_error, set_state p (free_buffer p h) HostState.failed)
      else (HostResult.ok, set_state p (note_activity time h1) HostState.ready)

  unfoldable pub handle_hello_response : Host → List ℕ → HostResult × Host
  unfolding alloc_buffer
  handle_hello_response h payload =
      let (allocated, h1) = alloc_buffer p h p.sizeof_hello_response in
      if allocated
      then handle_decoded_hello h1 (p.decode_hello_response payload)
      else (HostResult.no_memory, h1)

  unfoldable pub grant_credit : Host → CreditUpdate → Host
  unfolding notify_usable
  grant_credit h credit =
      let channel = credit.channel_id in
      let old = h.tx_credit channel in
      let updated = saturating_add old credit.units in
      let h1 = record h { tx_credit = update h.tx_credit channel updated } in
      let h2 =
        notify_usable (channel == Channel.bluetooth_hci && (h.config).has_hci_tx_ready)
          Call.hci_tx_ready h.bluetooth_tx_inflight old updated h1 in
      let h3 =
        notify_usable (channel == Channel.ota_stream && (h.config).has_ota_tx_ready)
          Call.ota_tx_ready h.ota_tx_inflight old updated h2 in
      if same_state h.state HostState.congested then set_state p h3 HostState.ready else h3

  unfoldable pub handle_decoded_credit : Host → Option CreditUpdate → Host
  handle_decoded_credit h none = h
  handle_decoded_credit h (some credit) =
      if ltb credit.channel_id channel_count then grant_credit h credit else h

  unfoldable pub handle_credit_update : Host → List ℕ → Host
  handle_credit_update h payload = handle_decoded_credit h (p.decode_credit_update payload)

  unfoldable pub handle_decoded_heartbeat : Host → Option ℕ → Host
  unfolding now_ms free_buffer
  handle_decoded_heartbeat h none = free_buffer p h
  handle_decoded_heartbeat h (some session_id) =
      let (time, h1) = now_ms p h in
      if session_id == h.session_id then free_buffer p (note_activity time h1) else free_buffer p h

  unfoldable pub handle_heartbeat : Host → List ℕ → Host
  unfolding alloc_buffer
  handle_heartbeat h payload =
      let (allocated, h1) = alloc_buffer p h p.sizeof_heartbeat in
      if allocated then handle_decoded_heartbeat h1 (p.decode_heartbeat payload) else h1

  -- What follows a change of session that is taken seriously.
  unfoldable pub change_session : Host → Host
  change_session h =
      let h1 = record h {
        diagnostics = record (h.diagnostics) {
          peer_resets = increment (h.diagnostics).peer_resets;
        };
      } in
      (send_hello (forget_session (cancel_pending p h1 HostResult.session_changed))).1

  unfoldable pub handle_decoded_session : Host → Option ℕ → Host
  unfolding free_buffer
  handle_decoded_session h none = free_buffer p h
  handle_decoded_session h (some new_session_id) =
      let changed = change_session (free_buffer p h) in
      if new_session_id == 0 || new_session_id == h.session_id then free_buffer p h else changed

  unfoldable pub handle_session_changed : Host → List ℕ → Host
  unfolding alloc_buffer
  handle_session_changed h payload =
      let (allocated, h1) = alloc_buffer p h p.sizeof_session_changed in
      if allocated then handle_decoded_session h1 (p.decode_session_changed payload) else h1

  unfoldable pub handle_link_event : Host → RpcEnvelope → List ℕ → Host
  handle_link_event h e payload =
      if e.method_id == Method.link_credit_update
      then handle_credit_update h payload
      else if e.method_id == Method.link_heartbeat
      then handle_heartbeat h payload
      else if e.method_id == Method.link_session_changed
      then handle_session_changed h payload
      else h

  unfoldable pub request_transport_start : Host → Host
  request_transport_start h =
      let h1 = set_state p h HostState.transport_starting in
      let started = p.start_ok h1.trace in
      let h2 = record_call (Call.transport_start started) h1 in
      if started then h2 else set_state p h2 HostState.failed

  unfoldable pub finish_shutdown : Host → Host
  finish_shutdown h = record (set_state p (record h { session_id = 0 }) HostState.uninitialized) {
    worker_stopping = true;
  }

  -- `transport.stop`, which fails into `failed`.
  unfoldable pub stop_transport : Host → Host
  stop_transport h =
      let stopped = p.stop_ok h.trace in
      let h1 = record_call (Call.transport_stop stopped) h in
      if stopped then h1 else set_state p h1 HostState.failed

  unfoldable pub lose_transport : Host → Host
  lose_transport h =
      let h1 = record h {
        diagnostics = record (h.diagnostics) {
          transport_resets = increment (h.diagnostics).transport_resets;
        };
      } in
      let h2 = record (forget_session (cancel_pending p h1 HostResult.session_changed)) {
        tx_sequence = λ channel. 0;
      } in
      stop_transport (set_state p h2 HostState.recovering)

  unfoldable pub process_transport_lost : Host → Host
  process_transport_lost h =
      if same_state h.state HostState.stopping || same_state h.state HostState.uninitialized
      then h
      else lose_transport h
