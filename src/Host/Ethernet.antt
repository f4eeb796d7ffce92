-- ===== src/Host/Ethernet.antt =====
-- Ethernet frames from the peer, in host-core/src/host_frame.c, and the credit for them, which is
-- collected and returned in batches.
pub mod Refund
use wl_hosted_core.Prelude.{
  ℕ, zero, suc, ◌+◌, ◌-◌, ◌*◌, ◌^◌, Bool, true, false, not, ◌&&◌, ◌||◌, List, [], ◌∷◌, Option, none,
  some,
}
use wl_hosted_core.Prelude.{length, get_or, set, drop, ltb, leb, ◌==◌, ◌!=◌, if◌then◌else◌, update}
use wl_hosted_core.Prelude.Word.{ℤ, pos, u32, u64}
use wl_hosted_core.Protocol.Result.{WireResult, Wire, accept, reject, Span, null, bytes}
use wl_hosted_core.Protocol.Ids.Channel
use wl_hosted_core.Protocol.Ids.Service
use wl_hosted_core.Protocol.Ids.Method
use wl_hosted_core.Protocol.Endian.{byte_at, read_u16_le_unchecked, read_u32_le_unchecked}
use wl_hosted_core.Protocol.Frame.{FrameHeader, frame_decode}
use wl_hosted_core.Protocol.Rpc.{RpcEnvelope, kind_response, kind_event, is_status_ok, rpc_decode}
use wl_hosted_core.Protocol.RawRecord.{RawRecordView}
use wl_hosted_core.Protocol.RawRecord.Records.{is_end, records_of}
use wl_hosted_core.Host.Types.{
  HostResult, HostState, EventKind, EventPayload, raw, bluetooth, eth, Call, Platform, Config,
  PendingRpc, Diagnostics, Host, protobuf_limit,
}
use wl_hosted_core.Host.Types.Messages.{BluetoothEvent, EthEvent}
use wl_hosted_core.Host.Effects.{
  record_call, increment, same_state, now_ms, dispatch_event, dispatch_completion, set_state,
}
use wl_hosted_core.Host.Send.{is_ok, send_credit_update}
use wl_hosted_core.Host.Pending.{clear_slot, find_pending, cancel_pending}
use wl_hosted_core.Host.Link.{
  saturating_add, note_activity, send_hello, handle_hello_response, handle_link_event,
}

-- WLH_ETHERNET_CREDIT_BATCH and WLH_ETHERNET_CREDIT_MAX_DELAY_MS
abbrev pub credit_batch : ℕ
credit_batch = 8

abbrev pub credit_max_delay_ms : ℕ
credit_max_delay_ms = 1

abbrev pub ethernet_channel_index : ℕ → ℕ
ethernet_channel_index channel =
    if channel == Channel.ethernet_ap then 1 else if channel == Channel.ethernet_eth then 2 else 0

abbrev pub owed : Host → ℕ → ℕ
owed h index = get_or h.ethernet_rx_pending_credit index 0

abbrev pub rx_event : ℕ → EventKind
rx_event channel =
    if channel == Channel.ethernet_sta
    then EventKind.ethernet_sta_rx
    else if channel == Channel.ethernet_ap
    then EventKind.ethernet_ap_rx
    else EventKind.ethernet_eth_rx

module _ (p : Platform) where
  -- The loop body of `flush_ethernet_rx_credits`: whether to retry.
  unfoldable pub flush_channel : Bool → Host → ℕ → ℕ → Bool × Host
  flush_channel due h index channel =
      let units = owed h index in
      let (result, h1) = send_credit_update p h channel units in
      if units == 0 || ltb units credit_batch && not due
      then (false, h)
      else if is_ok result
      then (
        false,
        record h1 { ethernet_rx_pending_credit = set h1.ethernet_rx_pending_credit index 0 },
      )
      else (true, h1)

  unfoldable pub flush_ethernet_rx_credits : Host → Bool × Host
  unfolding now_ms
  flush_ethernet_rx_credits h =
      let (current, h0) = now_ms p h in
      let due = h.ethernet_rx_credit_due_ms != 0 && leb h.ethernet_rx_credit_due_ms current in
      let (retry1, h1) = flush_channel due h0 0 Channel.ethernet_sta in
      let (retry2, h2) = flush_channel due h1 1 Channel.ethernet_ap in
      let (retry3, h3) = flush_channel due h2 2 Channel.ethernet_eth in
      (
        retry1 || retry2 || retry3,
        record h3 {
          ethernet_rx_credit_due_ms =
              if owed h3 0 == 0 && owed h3 1 == 0 && owed h3 2 == 0
              then 0
              else u64 (current + credit_max_delay_ms);
        },
      )

  unfoldable pub accumulate_ethernet_rx_credit : Host → ℕ → ℕ → Host
  unfolding now_ms
  accumulate_ethernet_rx_credit h channel units =
      let index = ethernet_channel_index channel in
      let h1 = record h {
        ethernet_rx_pending_credit =
            set h.ethernet_rx_pending_credit index (saturating_add (owed h index) units);
      } in
      let (time, h2) = now_ms p h1 in
      if h.ethernet_rx_credit_due_ms == 0
      then record h2 { ethernet_rx_credit_due_ms = u64 (time + credit_max_delay_ms) }
      else h1

  -- One record, which is skipped unless it is a frame: whether it was dispatched or skipped.
  unfoldable pub dispatch_record : Host → EventKind → RawRecordView → Bool × Host
  dispatch_record h kind v =
      if v.record_type != 1 then (true, h) else dispatch_event p h kind 0 0 (raw v.payload)

  -- The loop that dispatches the records: whether one could not be.
  unfoldable pub dispatch_records : Host → EventKind → List RawRecordView → Bool × Host
  dispatch_records h kind [] = (false, h)
  dispatch_records h kind (v ∷ vs) =
      let (sent, h1) = dispatch_record h kind v in
      let (failed, h2) = dispatch_records h1 kind vs in (not sent || failed, h2)

  unfoldable pub process_ethernet_frame : Host → ℕ → List ℕ → HostResult × Host
  process_ethernet_frame h channel payload =
      let (code, views) = records_of payload in
      let (failed, h1) = dispatch_records h (rx_event channel) views in
      if length payload != 0 && is_end code
      then (
        if failed then HostResult.no_memory else HostResult.ok,
        accumulate_ethernet_rx_credit h1 channel (u32 (length views)),
      )
      else (HostResult.protocol_error, accumulate_ethernet_rx_credit h channel 1)
