-- ===== src/Protocol/RawRecord.antt =====
-- Raw records: protocol/src/raw_record.c. A frame on a data channel carries one record after the
-- other, each an eight-byte header and a payload.
pub mod Next
pub mod Aggregate
pub mod Records
use wl_hosted_core.Prelude.{ℕ, zero, suc, ◌+◌, ◌-◌, Bool, true, false, ◌||◌, List, [], ◌∷◌, ◌++◌}
use wl_hosted_core.Prelude.{length, take, drop, ltb, ◌==◌, if◌then◌else◌}
use wl_hosted_core.Prelude.Word.{u16, u32, u32_max}
use wl_hosted_core.Protocol.Result.{WireResult, Wire, accept, reject, ◌>>=◌, ◌>>◌, fail_if}
use wl_hosted_core.Protocol.Result.{Span, null, bytes, span_bytes, is_missing}
use wl_hosted_core.Protocol.Ids.{raw_record_header_size}
use wl_hosted_core.Protocol.Endian.{
  byte_at, read_u16_le_unchecked, read_u32_le_unchecked, write_u16_le_unchecked,
  write_u32_le_unchecked,
}

pub record RawRecordView : Type 0 where
  pub record_type : ℕ
  pub flags : ℕ
  pub payload : List ℕ

pub record RawRecordIterator : Type 0 where
  pub bytes : List ℕ
  pub size : ℕ
  pub offset : ℕ

-- The eight header bytes, in the order of their offsets.
unfoldable pub record_header : ℕ → ℕ → ℕ → List ℕ
record_header record_type flags payload_size =
    (record_type ∷ flags ∷ [])
    ++ (write_u16_le_unchecked (u16 raw_record_header_size)
        ++ write_u32_le_unchecked (u32 payload_size))

-- The bytes of `output[0..*output_size)`; `size_max` is the target's SIZE_MAX.
unfoldable pub raw_record_encode : ℕ → ℕ → ℕ → ℕ → Span → Wire (List ℕ)
raw_record_encode size_max output_capacity record_type flags payload = do
  fail_if (is_missing payload) WireResult.invalid_argument
  let body = span_bytes payload
  fail_if (ltb u32_max (length body) || ltb (size_max - raw_record_header_size) (length body))
      WireResult.invalid_length
  fail_if (ltb output_capacity (raw_record_header_size + length body)) WireResult.buffer_too_small
  accept (record_header record_type flags (length body) ++ body)

unfoldable pub raw_record_iterator_init : Span → Wire RawRecordIterator
raw_record_iterator_init payload = do
  fail_if (is_missing payload) WireResult.invalid_argument
  accept (record { bytes = span_bytes payload; size = length (span_bytes payload); offset = 0 })

-- WLH_WIRE_OK gives the record and the moved iterator; with any other code, WLH_WIRE_END too, the
-- iterator stays where it is.
unfoldable pub raw_record_iterator_next :
    RawRecordIterator → Wire (RawRecordView × RawRecordIterator)
raw_record_iterator_next it = do
  fail_if (ltb it.size it.offset) WireResult.invalid_argument
  let remaining = it.size - it.offset
  fail_if (remaining == 0) WireResult.end
  fail_if (ltb remaining raw_record_header_size) WireResult.truncated
  let entry = drop it.offset it.bytes
  let header_size = read_u16_le_unchecked (drop 2 entry)
  let payload_size = read_u32_le_unchecked (drop 4 entry)
  fail_if (ltb header_size raw_record_header_size) WireResult.invalid_header_size
  fail_if (ltb remaining header_size) WireResult.truncated
  fail_if (ltb (remaining - header_size) payload_size) WireResult.truncated
  accept (
    record {
      record_type = byte_at entry 0;
      flags = byte_at entry 1;
      payload = take payload_size (drop header_size entry);
    },
    record it { offset = it.offset + (header_size + payload_size) },
  )

-- `while (wlh_raw_record_iterator_next(&iterator, &record) == WLH_WIRE_OK)`: the records that the
-- loop sees, and the code that ends it. The fuel bounds the rounds; WLH_WIRE_OK is the answer of a
-- loop that runs out of it.
unfoldable pub walk_records : ℕ → RawRecordIterator → WireResult × List RawRecordView
walk_records zero it = (WireResult.ok, [])
walk_records (suc fuel) it = elim (raw_record_iterator_next it) [
  | accept step ↦ let rest = walk_records fuel step.1 in (rest.0, step.0 ∷ rest.1)
  | reject code ↦ (code, [])
]
