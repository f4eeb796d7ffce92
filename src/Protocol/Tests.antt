-- ===== src/Protocol/Tests.antt =====
-- The theorems of the wire protocol at concrete frames, messages and records.
use wl_hosted_core.Prelude.{ℕ, ◌≡◌, ◌≢◌, refl, arith, List, [], ◌∷◌, some, ◌%◌, ◌^◌}
use wl_hosted_core.Prelude.Word.{pos}
use wl_hosted_core.Protocol.Result.{WireResult, accept, reject, bytes}
use wl_hosted_core.Protocol.Endian.{read_u16_le_unchecked, read_u32_le_unchecked}
use wl_hosted_core.Protocol.Checksum.{sum32, sum32_words, sum32_tail, frame_checksum}
use wl_hosted_core.Protocol.Checksum.Sum.{weighted, sum32-eq-weighted}
use wl_hosted_core.Protocol.Frame.{
  FrameHeader, frame_header_validate, header_bytes, read_header, frame_encode, frame_decode,
}
use wl_hosted_core.Protocol.Frame.Roundtrip.{sent, framed, frame_decode-frame_encode}
use wl_hosted_core.Protocol.Frame.Canonical.{frame_encode-frame_decode}
use wl_hosted_core.Protocol.Frame.Corrupt.{original, altered, frame_decode-altered}
use wl_hosted_core.Protocol.Rpc.{RpcEnvelope, rpc_envelope_validate, rpc_encode, rpc_decode}
use wl_hosted_core.Protocol.Rpc.Roundtrip.{rpc_decode-rpc_encode}
use wl_hosted_core.Protocol.RawRecord.{
  RawRecordView, RawRecordIterator, record_header, raw_record_encode, raw_record_iterator_init,
  walk_records,
}
use wl_hosted_core.Protocol.RawRecord.Next.{walk_records_ends}
use wl_hosted_core.Protocol.RawRecord.Aggregate.{encode_records, walk_records-encode_records}

abbrev sample_header : FrameHeader
sample_header = record {
  magic = 0x4c57;
  protocol_major = 1;
  header_size = 24;
  channel = 2;
  flags = 0;
  payload_size = 0;
  session_id = 7;
  sequence = 1;
  header_checksum = 0;
  payload_checksum = 0;
}

abbrev sample_payload : List ℕ
sample_payload = 1 ∷ 2 ∷ 3 ∷ 4 ∷ 5 ∷ []

frame_decode-frame_encode_example :
    (f : List ℕ) × (frame_encode (some sample_header) (bytes sample_payload) 64 ≡ accept f)
    × (frame_decode (bytes f) 1600 ≡ accept (sent sample_header sample_payload, sample_payload))
unfolding frame_header_validate
frame_decode-frame_encode_example =
    frame_decode-frame_encode sample_header sample_payload 64 1600 refl (ground arith) (omega arith)
      (omega arith) (omega arith) (omega arith)

abbrev sample_frame : List ℕ
sample_frame =
    87 ∷ 76 ∷ 1 ∷ 24 ∷ 2 ∷ 0 ∷ 5 ∷ 0 ∷ 7 ∷ 0 ∷ 0 ∷ 0 ∷ 1 ∷ 0 ∷ 0 ∷ 0 ∷ 103 ∷ 78 ∷ 9 ∷ 28 ∷ 6 ∷ 2 ∷ 3
    ∷ 4 ∷ sample_payload

-- The header that these bytes spell.
abbrev sample_decoded : FrameHeader
sample_decoded = record sample_header {
  payload_size = 5;
  header_checksum = 470371943;
  payload_checksum = 67305990;
}

frame_encode-frame_decode_example :
    frame_encode (some sample_decoded) (bytes sample_payload) 29 ≡ accept sample_frame
unfolding frame_decode read_header frame_header_validate header_bytes frame_checksum sum32
    sum32_words sum32_tail read_u16_le_unchecked read_u32_le_unchecked
frame_encode-frame_decode_example =
    frame_encode-frame_decode sample_frame 1600 29 sample_decoded sample_payload (ground arith) refl
      (omega arith)

frame_decode-altered_example :
    frame_decode
      (bytes (
        framed sample_header
          (original sample_header (1 ∷ []) (3 ∷ []) 2 9)
          (altered sample_header (1 ∷ []) (3 ∷ []) 2 9)))
      1600
    ≡ reject WireResult.checksum_mismatch
unfolding frame_header_validate
frame_decode-altered_example =
    frame_decode-altered sample_header (1 ∷ []) (3 ∷ []) 2 9 1600 refl (ground arith) refl
      (ground arith) (ground arith) (omega arith) (omega arith) (omega arith) (omega arith)
      (omega arith) (omega arith)

sum32-eq-weighted_example : sum32 (bytes sample_payload) ≡ weighted 1 sample_payload % 2 ^ 32
sum32-eq-weighted_example = sum32-eq-weighted sample_payload (ground arith)

abbrev sample_envelope : RpcEnvelope
sample_envelope = record {
  service_id = 1;
  method_id = 1;
  request_id = 3;
  kind = 1;
  flags = 0;
  payload_size = 0;
  status_domain = 0;
  status_code = pos 0;
}

rpc_decode-rpc_encode_example :
    (f : List ℕ) × (rpc_encode (some sample_envelope) (bytes sample_payload) 64 ≡ accept f)
    × (rpc_decode (bytes f) 2048
        ≡ accept (record sample_envelope { payload_size = 5 }, sample_payload))
unfolding rpc_envelope_validate
rpc_decode-rpc_encode_example =
    rpc_decode-rpc_encode sample_envelope sample_payload 64 2048 refl (ground arith) (omega arith)
      (omega arith) (omega arith)

abbrev sample_message : List ℕ
sample_message = 1 ∷ 0 ∷ 1 ∷ 0 ∷ 3 ∷ 0 ∷ 0 ∷ 0 ∷ 1 ∷ 0 ∷ 2 ∷ 0 ∷ 0 ∷ 0 ∷ 0 ∷ 0 ∷ 8 ∷ 9 ∷ []

abbrev sample_records : List RawRecordView
sample_records =
    record { record_type = 1; flags = 0; payload = 7 ∷ 8 ∷ [] }
    ∷ record { record_type = 1; flags = 0; payload = 9 ∷ [] }
    ∷ []

abbrev sample_data : List ℕ
sample_data = 1 ∷ 0 ∷ 8 ∷ 0 ∷ 2 ∷ 0 ∷ 0 ∷ 0 ∷ 7 ∷ 8 ∷ 1 ∷ 0 ∷ 8 ∷ 0 ∷ 1 ∷ 0 ∷ 0 ∷ 0 ∷ 9 ∷ []

walk_records-encode_records_example :
    (it : RawRecordIterator) × (raw_record_iterator_init (bytes sample_data) ≡ accept it)
    × (walk_records 3 it ≡ (WireResult.end, sample_records))
unfolding encode_records raw_record_encode record_header
walk_records-encode_records_example =
    walk_records-encode_records 65535 32 3 sample_records sample_data refl (omega arith)

abbrev sample_iterator : ℕ → RawRecordIterator
sample_iterator offset = record { bytes = sample_data; size = 19; offset = offset }

walk_records_ends_example : (walk_records 20 (sample_iterator 0)).0 ≢ WireResult.ok
walk_records_ends_example = walk_records_ends 20 (sample_iterator 0) (ground arith) (omega arith)
