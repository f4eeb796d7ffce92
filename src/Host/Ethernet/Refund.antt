-- ===== src/Host/Ethernet/Refund.antt =====
-- The peer gets back what it paid: one unit for each record.
use wl_hosted_core.Prelude.{
  ℕ, ◌^◌, ◌<◌, ◌≡◌, ◌≢◌, refl, ◌∙◌, ap, arith, Bool, true, List, [], ◌∷◌, length, get_or, set, ◌==◌,
  ◌!=◌, if◌then◌else◌, Bool-cases, inl, inr,
}
use wl_hosted_core.Prelude.Word.{u32}
use wl_hosted_core.Protocol.Result.{accept}
use wl_hosted_core.Protocol.RawRecord.{RawRecordView}
use wl_hosted_core.Protocol.RawRecord.Records.{records_of-encode_records}
use wl_hosted_core.Protocol.RawRecord.Aggregate.{encode_records, length-encode_records}
use wl_hosted_core.Host.Types.{HostResult, EventKind, raw, Platform, Host}
use wl_hosted_core.Host.Effects.Kept.{Kept, Kept-refl, Kept-trans, dispatch_event-KeptTx}
use wl_hosted_core.Host.Link.{saturating_add}
use wl_hosted_core.Host.Ethernet.{
  ethernet_channel_index, owed, rx_event, accumulate_ethernet_rx_credit, dispatch_record,
  dispatch_records, process_ethernet_frame,
}

module _ (p : Platform) where
  dispatch_record-Kept :
      (h : Host) (kind : EventKind) (v : RawRecordView) → Kept h (dispatch_record p h kind v).1
  unfolding dispatch_record
  dispatch_record-Kept h kind v = elim (Bool-cases (v.record_type != 1)) [
    | inl other ↦ rw other (Kept-refl h)
    | inr frame ↦ rw frame (dispatch_event-KeptTx p h kind 0 0 (raw v.payload)).kept
  ]

  dispatch_records-Kept :
      (h : Host) (kind : EventKind) (vs : List RawRecordView)
      → Kept h (dispatch_records p h kind vs).1
  unfolding dispatch_records
  dispatch_records-Kept h kind [] = Kept-refl h
  dispatch_records-Kept h kind (v ∷ vs) =
      let h1 = (dispatch_record p h kind v).1 in
      Kept-trans h h1 (dispatch_records p h1 kind vs).1 (dispatch_record-Kept h kind v)
        (dispatch_records-Kept h1 kind vs)

  credit-accumulate :
      (h : Host) (channel units : ℕ)
      → (accumulate_ethernet_rx_credit p h channel units).ethernet_rx_pending_credit
        ≡ set h.ethernet_rx_pending_credit
            (ethernet_channel_index channel)
            (saturating_add (owed h (ethernet_channel_index channel)) units)
  unfolding accumulate_ethernet_rx_credit
  credit-accumulate h channel units = elim (Bool-cases (h.ethernet_rx_credit_due_ms == 0)) [
    | inl idle ↦ rw idle refl
    | inr running ↦ rw running refl
  ]

not_a_fault :
    (failed : Bool)
    → (if failed then HostResult.no_memory else HostResult.ok) ≢ HostResult.protocol_error
not_a_fault failed same = ground arith

-- An Ethernet frame whose payload is an aggregate of records, at least one and fewer than 2 ^ 32, adds
-- one unit for each record to the credit that is owed for its channel, up to the largest 32-bit
-- number, whether or not the records can be passed on, and is not a protocol error.
pub process_ethernet_frame-encode_records :
    (p : Platform) (h : Host) (channel size_max capacity : ℕ) (vs : List RawRecordView)
    (bs : List ℕ)
    → encode_records size_max capacity vs ≡ accept bs
    → 0 < length vs
    → length vs < 2 ^ 32
    → ((process_ethernet_frame p h channel bs).1.ethernet_rx_pending_credit
        ≡ set h.ethernet_rx_pending_credit
            (ethernet_channel_index channel)
            (saturating_add (owed h (ethernet_channel_index channel)) (length vs)))
      × ((process_ethernet_frame p h channel bs).0 ≢ HostResult.protocol_error)
unfolding process_ethernet_frame
process_ethernet_frame-encode_records p h channel size_max capacity vs bs e some_record few =
    let n = length-encode_records size_max capacity vs bs e in
    let full : (length bs != 0) ≡ true = ground (arith, n) in
    let index = ethernet_channel_index channel in
    let sent = dispatch_records p h (rx_event channel) vs in
    let kept = (dispatch_records-Kept p h (rx_event channel) vs).ethernet_rx_pending_credit in
    let units : u32 (length vs) ≡ length vs = omega arith in
    rw (records_of-encode_records size_max capacity vs bs e, full)
      (
        credit-accumulate p sent.1 channel (u32 (length vs))
            ∙ ap
                (λ (xs : List ℕ).
                  set xs index (saturating_add (get_or xs index 0) (u32 (length vs))))
                kept
            ∙ ap
                (λ (k : ℕ).
                  set h.ethernet_rx_pending_credit index (saturating_add (owed h index) k))
                units,
        not_a_fault sent.0,
      )
