-- ===== src/Coproc/Ethernet/Deliver.antt =====
-- Every record is paid back once: at once, or when the backend that took it over reports it.
use wl_hosted_core.Prelude.{
  ℕ, ◌+◌, ◌^◌, ◌<◌, ◌≤◌, ◌≡◌, refl, arith, true, List, [], ◌∷◌, ◌!=◌, length,
}
use wl_hosted_core.Protocol.Result.{accept}
use wl_hosted_core.Protocol.RawRecord.{RawRecordView}
use wl_hosted_core.Protocol.RawRecord.Aggregate.{encode_records, length-encode_records}
use wl_hosted_core.Protocol.RawRecord.Records.{records_of-encode_records}
use wl_hosted_core.Coproc.Types.{CoprocResult, EthernetRxResult, Call, Trace, Platform, Coproc}
use wl_hosted_core.Coproc.Send.{send_credit_update}
use wl_hosted_core.Coproc.Ethernet.{deliver_record, deliver_records, process_ethernet_frame}

abbrev pub takes_over : Call → ℕ
takes_over (Call.ethernet_rx session_id channel frame EthernetRxResult.pending) = 1
takes_over _ = 0

-- The records that backends took over.
abbrev pub taken_over : Trace → ℕ
taken_over [] = 0
taken_over (call ∷ t) = takes_over call + taken_over t

module _ (p : Platform) where
  deliver_record-pays :
      (c : Coproc) (channel : ℕ) (v : RawRecordView) (units : ℕ)
      → units + 1 < 2 ^ 32
      → let out = deliver_record p c channel v units in
        out.0 + taken_over out.1.trace ≡ units + 1 + taken_over c.trace
  unfolding deliver_record
  deliver_record-pays c channel v units few = ground arith

  deliver_record-few :
      (c : Coproc) (channel : ℕ) (v : RawRecordView) (units : ℕ)
      → units + 1 < 2 ^ 32
      → (deliver_record p c channel v units).0 ≤ units + 1
  unfolding deliver_record
  deliver_record-few c channel v units few = ground arith

  deliver_records-pays :
      (c : Coproc) (channel : ℕ) (vs : List RawRecordView) (units : ℕ)
      → units + length vs < 2 ^ 32
      → let out = deliver_records p c channel vs units in
        out.0 + taken_over out.1.trace ≡ units + length vs + taken_over c.trace
  unfolding deliver_records
  deliver_records-pays c channel [] units few = omega arith
  deliver_records-pays c channel (v ∷ vs) units few =
      let first = deliver_record p c channel v units in
      let paid = deliver_record-pays c channel v units (omega arith) in
      let bound = deliver_record-few c channel v units (omega arith) in
      let rest = deliver_records-pays first.1 channel vs first.0 (omega arith) in omega arith

  -- A payload that is an aggregate of records, at least one and fewer than 2 ^ 32: the host is sent
  -- back, in one credit update, one unit for each record but those that a backend has taken over,
  -- and the frame is accepted whatever the backends answer.
  pub process_ethernet_frame-pays :
      (c : Coproc) (channel size_max capacity : ℕ) (vs : List RawRecordView) (bs : List ℕ)
      → encode_records size_max capacity vs ≡ accept bs
      → 0 < length vs
      → length vs < 2 ^ 32
      → let delivered = deliver_records p c channel vs 0 in
        (process_ethernet_frame p c channel bs
          ≡ (CoprocResult.ok, (send_credit_update p delivered.1 channel delivered.0).1))
        × (delivered.0 + taken_over delivered.1.trace ≡ length vs + taken_over c.trace)
  unfolding process_ethernet_frame
  process_ethernet_frame-pays c channel size_max capacity vs bs e some_record few =
      let n = length-encode_records size_max capacity vs bs e in
      let full : (length bs != 0) ≡ true = ground (arith, n) in
      let paid = deliver_records-pays c channel vs 0 (omega arith) in
      (rw (records_of-encode_records size_max capacity vs bs e, full) refl, omega arith)
