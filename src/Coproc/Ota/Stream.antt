-- ===== src/Coproc/Ota/Stream.antt =====
-- The chunks of an image: `process_ota_frame` and `ota_write_completed` of
-- coproc-core/src/coproc_ota.c. A frame carries one chunk and costs the host one credit, which
-- comes back when the chunk is refused or written.
use wl_hosted_core.Prelude.{
  ℕ, ◌+◌, ◌-◌, ◌%◌, ◌^◌, Bool, ◌||◌, ◌&&◌, not, List, Option, none, some, bit_or, ltb, leb, ◌==◌,
  ◌!=◌, if◌then◌else◌, length, drop,
}
use wl_hosted_core.Prelude.Word.{ℤ, u16, u64, ◌<<<◌}
use wl_hosted_core.Protocol.Result.{WireResult, Wire, accept, reject, bytes}
use wl_hosted_core.Protocol.Ids.Channel
use wl_hosted_core.Protocol.Endian.{byte_at}
use wl_hosted_core.Protocol.RawRecord.{
  RawRecordView, RawRecordIterator, raw_record_iterator_init, raw_record_iterator_next,
}
use wl_hosted_core.Protocol.Rpc.{is_status_ok}
use wl_hosted_core.Coproc.Types.{
  CoprocResult, OtaState, OtaCall, Platform, Coproc, same_ota_state, ota_stream_header_size,
  ota_chunk_size, ota_alignment, ota_record_type,
}
use wl_hosted_core.Coproc.Send.{send_credit_update}
use wl_hosted_core.Coproc.Ota.Transfer.{
  ota_backend_present, set_ota, call_ota, ota_emit_progress, ota_fail_transfer,
}

unfoldable pub ota_read_u32le : List ℕ → ℕ
ota_read_u32le p =
    bit_or (bit_or (bit_or (byte_at p 0) (byte_at p 1 <<< 8)) (byte_at p 2 <<< 16))
      (byte_at p 3 <<< 24)

unfoldable pub ota_read_u64le : List ℕ → ℕ
ota_read_u64le p =
    bit_or
      (bit_or
        (bit_or
          (bit_or
            (bit_or (bit_or (bit_or (byte_at p 0) (byte_at p 1 <<< 8)) (byte_at p 2 <<< 16))
              (byte_at p 3 <<< 24))
            (byte_at p 4 <<< 32))
          (byte_at p 5 <<< 40))
        (byte_at p 6 <<< 48))
      (byte_at p 7 <<< 56)

unfoldable pub ota_read_u16le : List ℕ → ℕ
ota_read_u16le p = u16 (bit_or (byte_at p 0) (byte_at p 1 <<< 8))

abbrev pub progress_interval_bytes : ℕ
progress_interval_bytes = 65536

-- `a - b` of two `uint64_t`.
abbrev pub u64_difference : ℕ → ℕ → ℕ
u64_difference a b = u64 (a + (2 ^ 64 - b))

-- A chunk as its header describes it.
pub record Chunk : Type 0 where
  pub transfer_id : ℕ
  pub offset : ℕ
  pub data_size : ℕ
  pub bytes : List ℕ

unfoldable pub read_chunk : List ℕ → Chunk
unfolding ota_read_u32le ota_read_u64le ota_read_u16le
read_chunk header = record {
  transfer_id = ota_read_u32le header;
  offset = ota_read_u64le (drop 4 header);
  data_size = ota_read_u16le (drop 12 header);
  bytes = drop ota_stream_header_size header;
}

-- A record of the right type and size, when nothing follows it.
unfoldable pub only_record : RawRecordView → Wire (RawRecordView × RawRecordIterator) → Option Chunk
only_record view (reject WireResult.end) =
    if view.record_type != ota_record_type || ltb (length view.payload) ota_stream_header_size
    then none
    else some (read_chunk view.payload)
only_record view _ = none

unfoldable pub first_record : Wire (RawRecordView × RawRecordIterator) → Option Chunk
first_record (reject code) = none
first_record (accept (view, it)) = only_record view (raw_record_iterator_next it)

unfoldable pub started_record : Wire RawRecordIterator → Option Chunk
started_record (reject code) = none
started_record (accept it) = first_record (raw_record_iterator_next it)

-- The chunk of a frame's payload, if it is just one chunk.
unfoldable pub chunk_of : List ℕ → Option Chunk
chunk_of payload =
    if length payload == 0 then none else started_record (raw_record_iterator_init (bytes payload))

-- Whether a chunk is the next one of the transfer.
unfoldable pub chunk_fits : Coproc → Chunk → Bool
chunk_fits c chunk =
    let data_len = length chunk.bytes in
    let image_size = (c.ota).image_size in
    let last_chunk = chunk.offset + data_len == image_size in
    not (
      not (same_ota_state (c.ota).state OtaState.receiving)
      || chunk.transfer_id != (c.ota).transfer_id
      || chunk.data_size != data_len
      || data_len == 0
      || ltb ota_chunk_size data_len
      || chunk.offset != (c.ota).bytes_accepted
      || ltb image_size chunk.offset
      || ltb (image_size - chunk.offset) data_len)
    && not (chunk.offset % ota_alignment != 0 || (not last_chunk && data_len % ota_alignment != 0))

module _ (p : Platform) where
  -- One credit of the stream goes back to the host.
  unfoldable pub return_credit : Coproc → Coproc
  return_credit c = (send_credit_update p c Channel.ota_stream 1).1

  unfoldable pub reject_chunk : Coproc → CoprocResult × Coproc
  reject_chunk c =
      let in_progress =
        same_ota_state (c.ota).state OtaState.receiving
        || same_ota_state (c.ota).state OtaState.verifying in
      (
        CoprocResult.protocol_error,
        return_credit (if in_progress then ota_fail_transfer p c else c),
      )

  unfoldable pub write_chunk : Coproc → Chunk → CoprocResult × Coproc
  unfolding call_ota
  write_chunk c chunk =
      let (accepted, c1) =
        call_ota p c (OtaCall.write (c.ota).transfer_id chunk.offset chunk.bytes) in
      if accepted
      then (
        CoprocResult.ok,
        set_ota c1
            (record (c1.ota) { bytes_accepted = (c1.ota).bytes_accepted + length chunk.bytes }),
      )
      else (CoprocResult.backend_error, return_credit (ota_fail_transfer p c1))

  unfoldable pub process_chunk : Coproc → Option Chunk → CoprocResult × Coproc
  process_chunk c none = reject_chunk c
  process_chunk c (some chunk) = if chunk_fits c chunk then write_chunk c chunk else reject_chunk c

  unfoldable pub process_ota_frame : Coproc → List ℕ → CoprocResult × Coproc
  unfolding ota_backend_present
  process_ota_frame c payload =
      if ota_backend_present c
      then process_chunk c (chunk_of payload)
      else (CoprocResult.protocol_error, c)

  -- Progress is reported at the end and at intervals; the difference is one of `uint64_t`.
  unfoldable pub note_written : Coproc → ℕ → Coproc
  note_written c bytes_received =
      let received =
        if ltb (c.ota).bytes_received bytes_received
        then bytes_received
        else (c.ota).bytes_received in
      let c1 = set_ota c (record (c.ota) { bytes_received = received }) in
      if received == (c.ota).image_size
        || leb progress_interval_bytes (u64_difference received (c.ota).progress_reported_bytes)
      then ota_emit_progress p c1
      else c1

  unfoldable pub ota_write_completed : Coproc → ℕ → ℕ → ℤ → Coproc
  ota_write_completed c transfer_id bytes_received backend_status =
      let c1 = return_credit c in
      if transfer_id != (c1.ota).transfer_id
        || not (same_ota_state (c1.ota).state OtaState.receiving)
      then c1
      else if is_status_ok backend_status
      then note_written c1 bytes_received
      else ota_fail_transfer p c1
