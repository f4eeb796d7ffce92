-- ===== src/Host/Streams.antt =====
-- The streams from the peer: `process_hci_frame` of host-core/src/host_bluetooth.c and
-- `process_ota_frame` of host-core/src/host_ota.c.
use wl_hosted_core.Prelude.{ℕ, ◌+◌, ◌*◌, ◌^◌, Bool, true, false, not, ◌&&◌, ◌||◌, List, [], ◌∷◌}
use wl_hosted_core.Prelude.{length, drop, ltb, leb, ◌==◌, ◌!=◌, if◌then◌else◌}
use wl_hosted_core.Protocol.Result.{WireResult}
use wl_hosted_core.Protocol.Ids.Channel
use wl_hosted_core.Protocol.Ids.Service
use wl_hosted_core.Protocol.Ids.Method
use wl_hosted_core.Protocol.Endian.{byte_at, read_u16_le_unchecked, read_u32_le_unchecked}
use wl_hosted_core.Protocol.RawRecord.{RawRecordView}
use wl_hosted_core.Host.Types.{HostResult, EventKind, bluetooth, Call, Platform, Host}
use wl_hosted_core.Host.Effects.{record_call, increment, dispatch_event}
use wl_hosted_core.Host.Send.{send_credit_update}
use wl_hosted_core.Protocol.RawRecord.Records.{is_end, records_of}

-- H4 packet types.
abbrev pub h4_acl : ℕ
h4_acl = 2

abbrev pub h4_event : ℕ
h4_event = 4

unfoldable pub hci_rx_record_valid : Host → ℕ → RawRecordView → Bool
hci_rx_record_valid h channel record_view =
    let size = length record_view.payload in
    if ltb h.bluetooth_max_record size
    then false
    else if record_view.record_type == h4_acl
    then channel != Channel.bluetooth_hci_adv
      && leb 4 size
      && read_u16_le_unchecked (drop 2 record_view.payload) + 4 == size
    else if record_view.record_type == h4_event
    then leb 2 size && byte_at record_view.payload 1 + 2 == size
    else false

-- The code that the validating loop ends with.
unfoldable pub hci_check : Host → ℕ → WireResult → List RawRecordView → WireResult
hci_check h channel code [] = code
hci_check h channel code (v ∷ vs) =
    let rest = hci_check h channel code vs in
    if hci_rx_record_valid h channel v then rest else WireResult.invalid_argument

abbrev pub count_hci_drop : Host → Host
count_hci_drop h = record h {
  diagnostics = record (h.diagnostics) { hci_drops = increment (h.diagnostics).hci_drops };
}

-- WLH_HOST_BLUETOOTH_REASON_MALFORMED_HCI
abbrev pub malformed_hci : ℕ
malformed_hci = 1

module _ (p : Platform) where
  unfoldable pub bluetooth_fault : Host → ℕ → Host
  bluetooth_fault h reason =
      let h1 = record h {
        diagnostics = record (h.diagnostics) {
          hci_malformed = increment (h.diagnostics).hci_malformed;
        };
        bluetooth_hci_stopped = true;
        bluetooth_state = 3;
      } in
      (dispatch_event p h1 EventKind.bluetooth_state_changed Service.bluetooth
        Method.bluetooth_state_changed (bluetooth (record { state = 3; reason = reason }))).1

  -- The delivering loop: whether every record was taken.
  unfoldable pub deliver_hci : Host → List RawRecordView → Bool × Host
  deliver_hci h [] = (true, h)
  deliver_hci h (v ∷ vs) =
      let h1 = record_call (Call.hci_received v.record_type v.payload) h in
      let rest = deliver_hci h1 vs in
      if not (h.config).has_hci_rx
      then (false, count_hci_drop h)
      else if p.hci_rx_ok h.trace
      then rest
      else (false, count_hci_drop h1)

  unfoldable pub process_hci_frame : Host → ℕ → List ℕ → HostResult × Host
  process_hci_frame h channel payload =
      let (code, views) = records_of payload in
      let (delivered, h1) = deliver_hci h views in
      if h.bluetooth_hci_stopped
      then (HostResult.invalid_state, count_hci_drop h)
      else if length payload != 0 && is_end (hci_check h channel code views)
      then (
        if delivered then HostResult.ok else HostResult.pending_full,
        (send_credit_update p h1 channel 1).1,
      )
      else (HostResult.protocol_error, bluetooth_fault h malformed_hci)

  -- The call of `ota_stream_rx` for one record.
  unfoldable pub deliver_ota : Host → RawRecordView → Bool × Host
  deliver_ota h v =
      let transfer = read_u32_le_unchecked v.payload in
      let low = read_u32_le_unchecked (drop 4 v.payload) in
      let high = read_u32_le_unchecked (drop 8 v.payload) in
      let flags = read_u16_le_unchecked (drop 14 v.payload) in
      let h1 =
        record_call (Call.ota_received transfer (low + high * 2 ^ 32) (drop 16 v.payload) flags)
          h in
      if (h.config).has_ota_rx then (p.ota_rx_ok h.trace, h1) else (true, h)

  -- The loop of `process_ota_frame`; what ends the records does not matter to it.
  unfoldable pub process_ota_records : Host → List RawRecordView → HostResult × Host
  process_ota_records h [] = (HostResult.ok, h)
  process_ota_records h (v ∷ vs) =
      let (taken, h1) = deliver_ota h v in
      let rest = process_ota_records h1 vs in
      if v.record_type != 1 || ltb (length v.payload) 16
      then (HostResult.protocol_error, h)
      else if taken
      then rest
      else (HostResult.no_memory, h1)

  unfoldable pub process_ota_frame : Host → List ℕ → HostResult × Host
  process_ota_frame h payload = process_ota_records h (records_of payload).1
