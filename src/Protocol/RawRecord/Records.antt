-- ===== src/Protocol/RawRecord/Records.antt =====
-- The records of a payload, as the receivers of host-core/src/host_frame.c and
-- coproc-core/src/coproc_frame.c walk over them.
use wl_hosted_core.Prelude.{ℕ, suc, ◌≡◌, refl, arith, Bool, true, false, List, [], length}
use wl_hosted_core.Protocol.Result.{WireResult, Wire, accept, reject, bytes}
use wl_hosted_core.Protocol.RawRecord.{
  RawRecordView, RawRecordIterator, raw_record_iterator_init, walk_records,
}
use wl_hosted_core.Protocol.RawRecord.Aggregate.{
  encode_records, length-encode_records, walk_records-encode_records,
}

abbrev pub is_end : WireResult → Bool
is_end WireResult.end = true
is_end _ = false

-- The loop over the records of an iterator, if there is one.
unfoldable pub walk_started : ℕ → Wire RawRecordIterator → WireResult × List RawRecordView
walk_started fuel (accept it) = walk_records fuel it
walk_started fuel (reject code) = (WireResult.invalid_argument, [])

-- The records of a payload, and the code that ends them; the fuel exceeds the bytes.
unfoldable pub records_of : List ℕ → WireResult × List RawRecordView
records_of payload = walk_started (suc (length payload)) (raw_record_iterator_init (bytes payload))

-- An aggregate is read back as the records that it was made of.
pub records_of-encode_records :
    (size_max capacity : ℕ) (vs : List RawRecordView) (bs : List ℕ)
    → encode_records size_max capacity vs ≡ accept bs
    → records_of bs ≡ (WireResult.end, vs)
unfolding records_of walk_started
records_of-encode_records size_max capacity vs bs e =
    let n = length-encode_records size_max capacity vs bs e in
    let (it, started, walked) =
      walk_records-encode_records size_max capacity (suc (length bs)) vs bs e (omega (arith, n)) in
    rw (started, walked) refl
