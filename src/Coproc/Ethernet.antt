-- ===== src/Coproc/Ethernet.antt =====
-- Ethernet frames from the host and the credit for them: coproc-core/src/coproc_frame.c. What a
-- backend consumes at once is credited at once; what it takes over is credited when it reports.
-- Transmit has the other direction.
pub mod Deliver
pub mod Transmit
pub mod Aggregate
pub mod Slots
pub mod Price
mod Tests
pub mod Flush
use wl_hosted_core.Prelude.{
  ℕ, ◌+◌, ◌-◌, Bool, true, false, ◌||◌, ◌&&◌, not, List, [], ◌∷◌, Option, none, some, ltb, leb,
  ◌==◌, ◌!=◌, if◌then◌else◌, length, update,
}
use wl_hosted_core.Prelude.Word.{ℤ, u32, u32_max}
use wl_hosted_core.Protocol.Ids.Channel
use wl_hosted_core.Protocol.Rpc.{is_status_ok}
use wl_hosted_core.Protocol.RawRecord.{RawRecordView}
use wl_hosted_core.Protocol.RawRecord.Records.{is_end, records_of}
use wl_hosted_core.Coproc.Types.{CoprocResult, EthernetRxResult, Job, Call, Platform, Coproc}
use wl_hosted_core.Coproc.Effects.{is_ok, record_call, increment, enqueue_job}
use wl_hosted_core.Coproc.Send.{send_credit_update}

-- WLH_ETHERNET_CREDIT_BATCH_UNITS
abbrev pub credit_batch_units : ℕ
credit_batch_units = 32

-- `none` is -1.
abbrev pub ethernet_channel_index : ℕ → Option ℕ
ethernet_channel_index channel =
    if channel == Channel.ethernet_sta
    then some 0
    else if channel == Channel.ethernet_ap
    then some 1
    else if channel == Channel.ethernet_eth
    then some 2
    else none

abbrev pub reset_ethernet_rx_completions : Coproc → Coproc
reset_ethernet_rx_completions c = record c {
  ethernet_rx_pending_credit = update (update (update c.ethernet_rx_pending_credit 0 0) 1 0) 2 0;
  ethernet_rx_pending_failures = 0;
  ethernet_rx_wake_queued = false;
}

-- The sum, up to UINT32_MAX.
abbrev pub saturating_add : ℕ → ℕ → ℕ
saturating_add a b = if ltb (u32_max - a) b then u32_max else a + b

abbrev pub set_pending : Coproc → ℕ → ℕ → Coproc
set_pending c index units = record c {
  ethernet_rx_pending_credit = update c.ethernet_rx_pending_credit index units;
}

-- Units that are owed for one interface, on top of those that are.
abbrev pub add_pending : Coproc → ℕ → ℕ → Coproc
add_pending c index units =
    set_pending c index (saturating_add (c.ethernet_rx_pending_credit index) units)

abbrev pub count_rejected : Coproc → Coproc
count_rejected c = record c {
  diagnostics = record (c.diagnostics) {
    ethernet_rx_rejected = increment (c.diagnostics).ethernet_rx_rejected;
  };
}

-- The failures that were reported since the last time go into the diagnostics.
abbrev pub count_failures : Coproc → Coproc
count_failures c =
    if c.ethernet_rx_pending_failures != 0
    then record c {
      diagnostics = record (c.diagnostics) {
        ethernet_rx_failed =
            u32 ((c.diagnostics).ethernet_rx_failed + c.ethernet_rx_pending_failures);
      };
      ethernet_rx_pending_failures = 0;
    }
    else c

module _ (p : Platform) where
  -- The loop body of `flush_ethernet_rx_completions`: whether to retry.
  unfoldable pub flush_channel : Coproc → ℕ → ℕ → Bool × Coproc
  flush_channel c index channel =
      let units = c.ethernet_rx_pending_credit index in
      let c1 = set_pending c index 0 in
      let (result, c2) = send_credit_update p c1 channel units in
      if units == 0
      then (false, c)
      else if c.session_id == 0
      then (true, add_pending c1 index units)
      else if is_ok result
      then (false, c2)
      else (true, add_pending c2 index units)

  unfoldable pub flush_ethernet_rx_completions : Coproc → Bool × Coproc
  flush_ethernet_rx_completions c =
      let c0 = count_failures (record c { ethernet_rx_wake_queued = false }) in
      let (retry1, c1) = flush_channel c0 0 Channel.ethernet_sta in
      let (retry2, c2) = flush_channel c1 1 Channel.ethernet_ap in
      let (retry3, c3) = flush_channel c2 2 Channel.ethernet_eth in (retry1 || retry2 || retry3, c3)

  -- Under the lock: units that a backend reports, and whether the worker should wake for them.
  unfoldable pub note_completion : Coproc → ℕ → ℕ → ℤ → Bool × Coproc
  note_completion c index units backend_status =
      let c1 = add_pending c index units in
      let c2 =
        if not (is_status_ok backend_status) && ltb c1.ethernet_rx_pending_failures u32_max
        then record c1 { ethernet_rx_pending_failures = c1.ethernet_rx_pending_failures + 1 }
        else c1 in
      let batch =
        if (c.config).initial_credit == 0 || ltb credit_batch_units (c.config).initial_credit
        then credit_batch_units
        else (c.config).initial_credit in
      if not c2.ethernet_rx_wake_queued && leb batch (c2.ethernet_rx_pending_credit index)
      then (true, record c2 { ethernet_rx_wake_queued = true })
      else (false, c2)

  -- From the interface's index on.
  unfoldable pub complete_on : Coproc → ℕ → Option ℕ → ℕ → ℤ → CoprocResult × Coproc
  unfolding enqueue_job
  complete_on c session_id none units backend_status = (CoprocResult.invalid_argument, c)
  complete_on c session_id (some index) units backend_status =
      let acquired = p.lock_ok c.trace in
      let c1 = record_call (Call.locked acquired) c in
      let (wake, c2) = note_completion c1 index units backend_status in
      let c3 = record_call Call.unlocked c2 in
      if units == 0
      then (CoprocResult.invalid_argument, c)
      else if not c.worker_started
      then (CoprocResult.invalid_state, c)
      else if not acquired
      then (CoprocResult.invalid_state, c1)
      else if c.session_id == 0 || session_id != c.session_id
      then (CoprocResult.invalid_state, record_call Call.unlocked c1)
      else if wake
      then (CoprocResult.ok, (enqueue_job p c3 Job.ethernet_rx_complete).1)
      else (CoprocResult.ok, c3)

  unfoldable pub ethernet_rx_complete : Coproc → ℕ → ℕ → ℕ → ℤ → CoprocResult × Coproc
  ethernet_rx_complete c session_id channel units backend_status =
      complete_on c session_id (ethernet_channel_index channel) units backend_status

  -- The backend's receive callback, and the units that are due at once.
  unfoldable pub deliver_record : Coproc → ℕ → RawRecordView → ℕ → ℕ × Coproc
  deliver_record c channel v units =
      let answer = p.ethernet_rx c.trace c.session_id channel v.payload in
      let c1 = record_call (Call.ethernet_rx c.session_id channel v.payload answer) c in
      if v.record_type != 1 || not ((c.config).has_ethernet_rx channel)
      then (increment units, c)
      else elim answer [
        | EthernetRxResult.pending ↦ (units, c1)
        | EthernetRxResult.rejected ↦ (increment units, count_rejected c1)
        | EthernetRxResult.complete ↦ (increment units, c1)
      ]

  unfoldable pub deliver_records : Coproc → ℕ → List RawRecordView → ℕ → ℕ × Coproc
  deliver_records c channel [] units = (units, c)
  deliver_records c channel (v ∷ vs) units =
      let (units1, c1) = deliver_record c channel v units in deliver_records c1 channel vs units1

  -- The Ethernet branch of `process_frame`.
  unfoldable pub process_ethernet_frame : Coproc → ℕ → List ℕ → CoprocResult × Coproc
  process_ethernet_frame c channel payload =
      let (code, views) = records_of payload in
      let (units, c1) = deliver_records c channel views 0 in
      if length payload != 0 && is_end code
      then (CoprocResult.ok, (send_credit_update p c1 channel units).1)
      else (CoprocResult.protocol_error, (send_credit_update p c channel 1).1)
