-- ===== src/Coproc/Bluetooth/Hci.antt =====
-- The packets between the host and the Bluetooth controller: `process_hci_frame` and
-- `wlh_coproc_bluetooth_hci_send` of coproc-core/src/coproc_bluetooth.c.
pub mod Deliver
pub mod Reserve
pub mod Agree
use wl_hosted_core.Prelude.{
  ℕ, ◌+◌, ◌-◌, Bool, true, false, not, ◌&&◌, ◌||◌, List, [], ◌∷◌, ltb, leb, ◌==◌, ◌!=◌,
  if◌then◌else◌, length, update, bit_or,
}
use wl_hosted_core.Prelude.Word.{pos, u8, ◌<<<◌}
use wl_hosted_core.Protocol.Result.{WireResult, Wire, accept, reject, bytes}
use wl_hosted_core.Protocol.Ids.{raw_record_header_size}
use wl_hosted_core.Protocol.Ids.Channel
use wl_hosted_core.Protocol.Endian.{byte_at}
use wl_hosted_core.Protocol.Rpc.{is_status_ok}
use wl_hosted_core.Protocol.RawRecord.{RawRecordView, raw_record_encode}
use wl_hosted_core.Protocol.RawRecord.Records.{is_end, records_of}
use wl_hosted_core.Coproc.Types.{CoprocResult, Job, Call, Platform, Coproc, max_hci_packet}
use wl_hosted_core.Coproc.Effects.{
  is_ok, record_call, increment, alloc_buffer, free_buffer, enqueue_job, enqueue_or_free,
}
use wl_hosted_core.Coproc.Send.{send_credit_update, send_payload}
use wl_hosted_core.Coproc.Link.Hello.{bluetooth_backend_present}
use wl_hosted_core.Coproc.Bluetooth.{bluetooth_enter_error}

-- H4 packet types, and the events that are advertising reports.
abbrev pub h4_command : ℕ
h4_command = 1

abbrev pub h4_acl : ℕ
h4_acl = 2

abbrev pub h4_sco : ℕ
h4_sco = 3

abbrev pub h4_event : ℕ
h4_event = 4

abbrev pub h4_iso : ℕ
h4_iso = 5

unfoldable pub hci_event_is_adv_report : List ℕ → Bool
hci_event_is_adv_report event =
    leb 3 (length event)
    && byte_at event 0 == 0x3e
    && (byte_at event 2 == 0x02
        || byte_at event 2 == 0x0b
        || byte_at event 2 == 0x0d
        || byte_at event 2 == 0x0f)

-- The length of the data in an ACL packet.
abbrev pub acl_length : List ℕ → ℕ
acl_length packet = bit_or (byte_at packet 2) (byte_at packet 3 <<< 8)

unfoldable pub hci_record_valid : RawRecordView → Bool
hci_record_valid v =
    let size = length v.payload in
    if ltb max_hci_packet size
    then false
    else if v.record_type == h4_command
    then leb 3 size && byte_at v.payload 2 + 3 == size
    else if v.record_type == h4_acl
    then leb 4 size && acl_length v.payload + 4 == size
    else false

-- The code that the validating loop ends with.
unfoldable pub hci_check : WireResult → List RawRecordView → WireResult
hci_check code [] = code
hci_check code (v ∷ vs) =
    let rest = hci_check code vs in if hci_record_valid v then rest else WireResult.invalid_argument

abbrev pub count_hci_drop : Coproc → Coproc
count_hci_drop c = record c {
  diagnostics = record (c.diagnostics) { hci_drops = increment (c.diagnostics).hci_drops };
}

abbrev pub count_hci_malformed : Coproc → Coproc
count_hci_malformed c = record c {
  diagnostics = record (c.diagnostics) { hci_malformed = increment (c.diagnostics).hci_malformed };
}

abbrev pub count_adv_drop : Coproc → Coproc
count_adv_drop c = record c {
  diagnostics = record (c.diagnostics) { hci_adv_drops = increment (c.diagnostics).hci_adv_drops };
}

-- WLH_COPROC_BLUETOOTH_REASON_MALFORMED_HCI
abbrev pub malformed_hci : ℕ
malformed_hci = 1

-- The `switch` over the type of a packet from the controller.
unfoldable pub hci_tx_shape : ℕ → List ℕ → CoprocResult
hci_tx_shape h4_type packet =
    let size = length packet in
    if h4_type == h4_event
    then (if ltb size 2 || byte_at packet 1 + 2 != size
        then CoprocResult.invalid_argument
        else CoprocResult.ok)
    else if h4_type == h4_acl
    then (if ltb size 4 || acl_length packet + 4 != size
        then CoprocResult.invalid_argument
        else CoprocResult.ok)
    else if h4_type == h4_sco || h4_type == h4_iso
    then CoprocResult.not_supported
    else CoprocResult.invalid_argument

-- Advertising reports have a channel of their own where it is agreed on.
abbrev pub hci_channel : Coproc → ℕ → List ℕ → ℕ
hci_channel c h4_type packet =
    if h4_type == h4_event && c.bluetooth_adv_channel && hci_event_is_adv_report packet
    then Channel.bluetooth_hci_adv
    else Channel.bluetooth_hci

-- The packets of a channel that are on their way.
abbrev pub inflight : Coproc → ℕ → ℕ
inflight c channel =
    if channel == Channel.bluetooth_hci_adv
    then c.bluetooth_adv_tx_inflight
    else c.bluetooth_tx_inflight

abbrev pub set_inflight : Coproc → ℕ → ℕ → Coproc
set_inflight c channel n =
    if channel == Channel.bluetooth_hci_adv
    then record c { bluetooth_adv_tx_inflight = n }
    else record c { bluetooth_tx_inflight = n }

-- The counter stops at 0.
abbrev pub release_inflight : Coproc → ℕ → Coproc
release_inflight c channel =
    if ltb 0 (inflight c channel) then set_inflight c channel (inflight c channel - 1) else c

module _ (p : Platform) where
  -- The delivering loop: whether every record was taken.
  unfoldable pub deliver_hci : Coproc → List RawRecordView → Bool × Coproc
  deliver_hci c [] = (true, c)
  deliver_hci c (v ∷ vs) =
      let status = p.hci_send c.trace (u8 v.record_type) v.payload in
      let c1 = record_call (Call.hci_send (u8 v.record_type) v.payload status) c in
      let rest = deliver_hci c1 vs in
      if not (is_status_ok status) then (false, count_hci_drop c1) else rest

  unfoldable pub process_hci_frame : Coproc → List ℕ → CoprocResult × Coproc
  process_hci_frame c payload =
      let (code, views) = records_of payload in
      let (delivered, c1) = deliver_hci c views in
      if not (bluetooth_backend_present c)
      then (CoprocResult.protocol_error, c)
      else if c.bluetooth_hci_stopped
      then (CoprocResult.invalid_state, count_hci_drop c)
      else if length payload == 0 || not (is_end (hci_check code views))
      then (
        CoprocResult.protocol_error,
        bluetooth_enter_error p (count_hci_malformed c) malformed_hci,
      )
      else if not delivered
      then (CoprocResult.backend_error, c1)
      else send_credit_update p c1 Channel.bluetooth_hci 1

  -- Whether the lock is got does not matter to the code.
  abbrev pub lock : Coproc → Coproc
  lock c = record_call (Call.locked (p.lock_ok c.trace)) c

  unfoldable pub release_tx_reservation : Coproc → ℕ → Coproc
  release_tx_reservation c channel = record_call Call.unlocked (release_inflight (lock c) channel)

  -- From the record on: the job is queued, or all that was taken is given back.
  unfoldable pub queue_hci : Coproc → ℕ → Wire (List ℕ) → CoprocResult × Coproc
  queue_hci c channel (reject code) =
      (CoprocResult.invalid_argument, release_tx_reservation (free_buffer p c) channel)
  queue_hci c channel (accept data_record) =
      let (sent, c1) = enqueue_job p c (Job.bluetooth_tx channel data_record) in
      if sent
      then (CoprocResult.ok, c1)
      else (CoprocResult.backend_error, release_tx_reservation (free_buffer p c1) channel)

  -- With a reservation.
  unfoldable pub send_reserved : ℕ → Coproc → ℕ → ℕ → List ℕ → CoprocResult × Coproc
  send_reserved size_max c channel h4_type packet =
      let size = raw_record_header_size + length packet in
      let (allocated, c1) = alloc_buffer p c (p.sizeof_data_job + size) in
      if not allocated
      then (CoprocResult.backend_error, release_tx_reservation c1 channel)
      else queue_hci c1 channel (raw_record_encode size_max size h4_type 0 (bytes packet))

  -- From the first lock on: a credit is reserved, without which the packet stays with the backend,
  -- or, for a report, is dropped.
  unfoldable pub reserve_hci : ℕ → Coproc → ℕ → List ℕ → CoprocResult × Coproc
  reserve_hci size_max c h4_type packet =
      let c1 = lock c in
      let channel = hci_channel c h4_type packet in
      let reserved = set_inflight c1 channel (increment (inflight c channel)) in
      if c.bluetooth_hci_stopped
      then (CoprocResult.invalid_state, record_call Call.unlocked c1)
      else if leb (c.tx_credit channel) (inflight c channel)
      then (if channel == Channel.bluetooth_hci_adv
          then (CoprocResult.ok, record_call Call.unlocked (count_adv_drop c1))
          else (CoprocResult.no_credit, record_call Call.unlocked c1))
      else send_reserved size_max (record_call Call.unlocked reserved) channel h4_type packet

  unfoldable pub bluetooth_hci_send : ℕ → Coproc → ℕ → List ℕ → CoprocResult × Coproc
  bluetooth_hci_send size_max c h4_type packet =
      let shape = hci_tx_shape h4_type packet in
      if not c.worker_started || ltb max_hci_packet (length packet)
      then (CoprocResult.invalid_argument, c)
      else if not (bluetooth_backend_present c)
      then (CoprocResult.not_supported, c)
      else if not (is_ok shape)
      then (shape, c)
      else reserve_hci size_max c h4_type packet

  -- The worker's branch for such a job, up to the job's buffer.
  unfoldable pub transmit_hci : Coproc → ℕ → List ℕ → Coproc
  transmit_hci c channel data_record =
      let c1 = release_inflight c channel in
      let c2 =
        if c1.bluetooth_hci_stopped
        then count_hci_drop c1
        else (send_payload p c1 channel data_record).1 in
      free_buffer p c2
