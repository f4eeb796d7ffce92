-- ===== src/Host/Link/Negotiate.antt =====
-- What a HelloResponse settles: the credits and the record limits that `handle_hello_response` of
-- host-core/src/host_link.c computes.
use wl_hosted_core.Prelude.{ℕ, suc, ◌+◌, ◌-◌, ◌%◌, Bool, false, not, ◌&&◌, ◌||◌, List, [], ◌∷◌}
use wl_hosted_core.Prelude.{ltb, leb, ◌==◌, ◌!=◌, if◌then◌else◌, update}
use wl_hosted_core.Prelude.Word.{u32}
use wl_hosted_core.Protocol.Ids.{frame_header_size, raw_record_header_size}
use wl_hosted_core.Protocol.Ids.Channel
use wl_hosted_core.Protocol.Ids.Service
use wl_hosted_core.Host.Types.{channel_count, max_hci_packet}
use wl_hosted_core.Host.Types.Messages.{
  ServiceVersionRange, ChannelCapability, CreditUpdate, HelloResponse,
}

-- Nothing was decoded, or what was decoded is not acceptable.
abbrev pub hello_rejected : HelloResponse → Bool
hello_rejected hello =
    not hello.has_selected_protocol
    || hello.selected_major != 1
    || hello.session_id == 0
    || ltb hello.max_frame_size frame_header_size

-- The loop over `initial_credits`.
unfoldable pub initial_credits : List CreditUpdate → (ℕ → ℕ) → ℕ → ℕ
initial_credits [] credit = credit
initial_credits (c ∷ rest) credit =
    initial_credits rest
      (if ltb c.channel_id channel_count then update credit c.channel_id c.units else credit)

unfoldable pub service_found : ℕ → List ServiceVersionRange → Bool
service_found id [] = false
service_found id (s ∷ rest) = s.service_id == id || service_found id rest

unfoldable pub channel_found : ℕ → List ChannelCapability → Bool
channel_found id [] = false
channel_found id (c ∷ rest) = c.channel_id == id || channel_found id rest

-- The loop over the channels for Bluetooth: the smallest limit that is offered.
unfoldable pub hci_record_limit : List ChannelCapability → ℕ → ℕ
hci_record_limit [] limit = limit
hci_record_limit (c ∷ rest) limit = hci_record_limit rest (
    if c.channel_id == Channel.bluetooth_hci
      && c.max_frame_payload != 0
      && ltb c.max_frame_payload limit
    then c.max_frame_payload
    else limit)

-- The loop over the channels for OTA: the last limit that is offered.
unfoldable pub ota_record_limit : List ChannelCapability → ℕ → ℕ
ota_record_limit [] limit = limit
ota_record_limit (c ∷ rest) limit = ota_record_limit rest (
    if c.channel_id == Channel.ota_stream && c.max_frame_payload != 0
    then c.max_frame_payload
    else limit)

-- Whether Bluetooth is supported, and its record limit.
unfoldable pub bluetooth_terms : ℕ → HelloResponse → Bool × ℕ
bluetooth_terms max_frame_size hello =
    let limit = hci_record_limit hello.channels max_hci_packet in
    let frame_limit =
      if ltb max_frame_size hello.max_frame_size then max_frame_size else hello.max_frame_size in
    let payload_limit = frame_limit - frame_header_size - raw_record_header_size in
    let offered =
      service_found Service.bluetooth hello.services
      && channel_found Channel.bluetooth_hci hello.channels in
    if leb (frame_header_size + raw_record_header_size) frame_limit
    then (offered, if ltb payload_limit limit then payload_limit else limit)
    else (false, limit)

-- `a - b` of two `size_t`.
abbrev pub size_difference : ℕ → ℕ → ℕ → ℕ
size_difference size_max a b = (a + suc size_max - b) % suc size_max

-- Whether OTA is supported, and its record limit.
unfoldable pub ota_terms : ℕ → ℕ → HelloResponse → Bool × ℕ
ota_terms size_max max_frame_size hello =
    let limit = ota_record_limit hello.channels 4096 in
    let payload_limit =
      size_difference size_max (size_difference size_max max_frame_size frame_header_size)
        raw_record_header_size in
    let agreed = if ltb payload_limit limit then u32 payload_limit else limit in
    (
      service_found Service.ota hello.services
          && channel_found Channel.ota_stream hello.channels
          && leb 16 agreed,
      agreed,
    )
