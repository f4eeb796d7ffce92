-- ===== src/Coproc/Link/Hello.antt =====
-- Negotiation: `send_hello_response` and `handle_hello_request` of coproc-core/src/coproc_link.c.
use wl_hosted_core.Prelude.{
  ℕ, ◌+◌, Bool, false, ◌||◌, ◌&&◌, not, List, [], ◌∷◌, ◌++◌, Option, none, some, ltb, ◌==◌, ◌!=◌,
  if◌then◌else◌, update, take,
}
use wl_hosted_core.Protocol.Result.{null}
use wl_hosted_core.Protocol.Ids.{frame_header_size}
use wl_hosted_core.Protocol.Ids.Channel
use wl_hosted_core.Protocol.Ids.Service
use wl_hosted_core.Protocol.Ids.Method
use wl_hosted_core.Protocol.Ids.Status
use wl_hosted_core.Protocol.Endian.{byte_at}
use wl_hosted_core.Protocol.Rpc.{RpcEnvelope, kind_response}
use wl_hosted_core.Coproc.Types.{
  CoprocResult, CoprocState, Platform, Coproc, no_operation, max_hci_packet,
  bluetooth_initial_credit, bluetooth_adv_initial_credit, ota_stream_header_size, ota_chunk_size,
  ota_alignment, ota_initial_credit,
}
use wl_hosted_core.Coproc.Types.Messages.{
  HelloRequest, HelloResponse, ChannelCapability, CreditUpdate, hello_response,
}
use wl_hosted_core.Coproc.Effects.{is_ok, alloc_buffer, free_buffer, set_state}
use wl_hosted_core.Coproc.Send.{envelope, send_rpc, send_rpc_message}
use wl_hosted_core.Coproc.Ethernet.{reset_ethernet_rx_completions}
use wl_hosted_core.Coproc.Ota.Transfer.{take_number, ota_backend_present, ota_reset}

abbrev pub bluetooth_backend_present : Coproc → Bool
bluetooth_backend_present c = (c.config).has_bluetooth_hci_send

abbrev pub eth_backend_present : Coproc → Bool
eth_backend_present c =
    (c.config).has_eth_get_info || (c.config).has_ethernet_rx Channel.ethernet_eth

-- The bytes of a text before its NUL.
abbrev pub text_of : List ℕ → List ℕ
text_of [] = []
text_of (b ∷ bs) = let rest = text_of bs in if b == 0 then [] else b ∷ rest

-- "0.1.0" unless the configuration names a version.
abbrev pub version_of : List ℕ → List ℕ
version_of configured =
    if byte_at configured 0 != 0 then take 32 (text_of configured) else 48 ∷ 46 ∷ 49 ∷ 46 ∷ 48 ∷ []

abbrev pub capability : ℕ → ℕ → ℕ → ChannelCapability
capability channel_id max_frame_payload alignment = record {
  channel_id = channel_id;
  max_frame_payload = max_frame_payload;
  alignment = alignment;
}

abbrev pub initial_credit_of : ℕ → ℕ → CreditUpdate
initial_credit_of channel_id units = record { channel_id = channel_id; units = units }

abbrev pub optional {ℓ} : {A : Type ℓ} → Bool → A → List A
optional present a = if present then a ∷ [] else []

-- The credits that the coprocessor announces, of which it takes as many for itself.
unfoldable pub announced_credits : Coproc → List CreditUpdate
unfolding ota_backend_present
announced_credits c =
    let units = (c.config).initial_credit in
    (initial_credit_of 0 units
      ∷ initial_credit_of 1 units
      ∷ initial_credit_of 2 units
      ∷ initial_credit_of 3 units
      ∷ [])
    ++ (optional (bluetooth_backend_present c)
          (initial_credit_of Channel.bluetooth_hci bluetooth_initial_credit)
        ++ (optional (bluetooth_backend_present c && c.bluetooth_adv_channel)
              (initial_credit_of Channel.bluetooth_hci_adv bluetooth_adv_initial_credit)
            ++ (optional (ota_backend_present c)
                  (initial_credit_of Channel.ota_stream ota_initial_credit)
                ++ optional (eth_backend_present c)
                    (initial_credit_of Channel.ethernet_eth units))))

-- The assignments to `tx_credit`, in their order.
unfoldable pub take_credits : Coproc → Coproc
unfolding ota_backend_present
take_credits c =
    let units = (c.config).initial_credit in
    let first = update (update (update (update c.tx_credit 0 units) 1 units) 2 units) 3 units in
    let hci = if bluetooth_backend_present c then bluetooth_initial_credit else 0 in
    let adv =
      if bluetooth_backend_present c && c.bluetooth_adv_channel
      then bluetooth_adv_initial_credit
      else 0 in
    let ota = if ota_backend_present c then ota_initial_credit else 0 in
    let eth = if eth_backend_present c then units else 0 in
    record c {
      tx_credit =
          update
            (update (update (update first Channel.bluetooth_hci hci) Channel.bluetooth_hci_adv adv)
              Channel.ota_stream ota)
            Channel.ethernet_eth eth;
    }

unfoldable pub response_of : Coproc → ℕ → HelloResponse
unfolding ota_backend_present
response_of c selected_session = record {
  session_id = selected_session;
  boot_id = selected_session;
  implementation_version = version_of (c.config).implementation_version;
  max_frame_size = (c.config).max_frame_size;
  services =
      optional (bluetooth_backend_present c) Service.bluetooth
      ++ (optional (ota_backend_present c) Service.ota
          ++ optional (eth_backend_present c) Service.eth);
  channels =
      optional (bluetooth_backend_present c) (capability Channel.bluetooth_hci max_hci_packet 1)
      ++ (optional (bluetooth_backend_present c && c.bluetooth_adv_channel)
            (capability Channel.bluetooth_hci_adv max_hci_packet 1)
          ++ (optional (ota_backend_present c) (
                capability Channel.ota_stream (ota_stream_header_size + ota_chunk_size)
                  ota_alignment)
              ++ optional (eth_backend_present c) (capability Channel.ethernet_eth 1600 1)));
  initial_credits = announced_credits c;
}

-- What a new session forgets, before the OTA transfer and the Ethernet credit.
abbrev pub forget_session : Coproc → Coproc
forget_session c = record c {
  tx_sequence = λ channel. 0;
  rx_sequence_valid = λ channel. false;
  wifi_initialize_pending = no_operation;
  bluetooth_pending = no_operation;
  eth_pending = no_operation;
  bluetooth_state = 0;
  bluetooth_tx_inflight = 0;
  bluetooth_adv_tx_inflight = 0;
  bluetooth_hci_stopped = false;
}

abbrev pub contains : List ℕ → ℕ → Bool
contains [] n = false
contains (k ∷ ks) n = k == n || contains ks n

module _ (p : Platform) where
  -- The session begins with the response that was sent; the response itself belongs to session 0.
  unfoldable pub start_session : Coproc → ℕ → CoprocResult × Coproc → CoprocResult × Coproc
  unfolding free_buffer
  start_session c selected_session (result, c1) =
      let c2 = free_buffer p c1 in
      if is_ok result
      then (result, set_state (record c2 { session_id = selected_session }) CoprocState.ready)
      else (result, c2)

  unfoldable pub send_hello_response : Coproc → ℕ → CoprocResult × Coproc
  unfolding alloc_buffer take_credits
  send_hello_response c request_id =
      let (allocated, c1) = alloc_buffer p c p.sizeof_hello_response in
      let (selected_session, next) = take_number c1.next_session_id in
      let c2 = record (take_credits c1) { next_session_id = next; session_id = 0 } in
      let e =
        envelope Service.link Method.link_hello request_id kind_response Status.domain_none
          Status.ok in
      if allocated
      then start_session c2 selected_session
          (send_rpc_message p c2 e (hello_response (response_of c1 selected_session)))
      else (CoprocResult.backend_error, c1)

  -- From the decoded request on.
  unfoldable pub handle_decoded_hello :
      Coproc → ℕ → RpcEnvelope → Option HelloRequest → CoprocResult × Coproc
  unfolding free_buffer
  handle_decoded_hello c session_id request none = (CoprocResult.protocol_error, free_buffer p c)
  handle_decoded_hello c session_id request (some hello) =
      let c1 =
        free_buffer p (record c {
          bluetooth_adv_channel = contains hello.channels Channel.bluetooth_hci_adv;
        }) in
      if session_id != 0
      then (CoprocResult.protocol_error, free_buffer p c)
      else if not (contains hello.protocol_majors 1) || ltb hello.max_frame_size frame_header_size
      then send_rpc p c1
          (envelope Service.link Method.link_hello request.request_id kind_response
            Status.domain_protocol Status.version_mismatch)
          (null 0)
      else send_hello_response (reset_ethernet_rx_completions (ota_reset p (forget_session c1)))
          request.request_id

  unfoldable pub handle_hello_request : Coproc → ℕ → RpcEnvelope → List ℕ → CoprocResult × Coproc
  unfolding alloc_buffer
  handle_hello_request c session_id request message =
      let (allocated, c1) = alloc_buffer p c p.sizeof_hello_request in
      if allocated
      then handle_decoded_hello c1 session_id request (p.decode_hello_request message)
      else (CoprocResult.backend_error, c1)
