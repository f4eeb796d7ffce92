-- ===== src/Coproc/Ota/Arrive.antt =====
-- From the host's sender to the coprocessor's backend: a chunk that `wlh_host_ota_stream_send` of
-- host-core/src/host_ota.c builds is what `process_ota_frame` of coproc-core/src/coproc_ota.c reads.
use wl_hosted_core.Prelude.{
  ℕ, suc, ◌+◌, ◌*◌, ◌%◌, ◌^◌, ◌<◌, ◌≤◌, ◌≡◌, refl, sym, ◌∙◌, ap, ap₂, arith, false, List, [], ◌∷◌,
  ◌++◌, some, length, inl, inr, length-append, append-nil, ltb, ◌==◌,
}
use wl_hosted_core.Prelude.Bits.{bit_or-shifted}
use wl_hosted_core.Prelude.Word.{u8, u16, ◌>>>◌}
use wl_hosted_core.Protocol.Result.{WireResult, accept, reject, bytes, Wire-cases}
use wl_hosted_core.Protocol.RawRecord.{
  RawRecordView, RawRecordIterator, raw_record_iterator_init, raw_record_iterator_next,
  walk_records, record_header,
}
use wl_hosted_core.Protocol.RawRecord.Aggregate.{
  record_bytes, aggregate, Fits, encode_one, encode_records_accepts, walk_records-encode_records,
}
use wl_hosted_core.Protocol.Endian.Laws.{read_u16-write_u16, read_u32-write_u32}
use wl_hosted_core.Protocol.Endian.{read_u16_le_unchecked, read_u32_le_unchecked}
use wl_hosted_core.Host.OtaStream.{put_le16, put_le32, put_le64, chunk_payload, stream_record}
use wl_hosted_core.Coproc.Ota.Stream.{
  read_chunk, chunk_of, started_record, first_record, only_record, ota_read_u16le, ota_read_u32le,
  ota_read_u64le,
}

ota_read_u32le-put_le32 : (v : ℕ) (r : List ℕ) → v < 2 ^ 32 → ota_read_u32le (put_le32 v ++ r) ≡ v
unfolding ota_read_u32le read_u32_le_unchecked
ota_read_u32le-put_le32 v r h = read_u32-write_u32 v r h

ota_read_u16le-put_le16 : (v : ℕ) (r : List ℕ) → v < 2 ^ 16 → ota_read_u16le (put_le16 v ++ r) ≡ v
unfolding ota_read_u16le read_u16_le_unchecked
ota_read_u16le-put_le16 v r h = read_u16-write_u16 v r h

four : ℕ → ℕ → ℕ → ℕ → ℕ
four a b c d = a + b * 2 ^ 8 + c * 2 ^ 16 + d * 2 ^ 24

four_of : (v : ℕ) → four (u8 v) (u8 (v >>> 8)) (u8 (v >>> 16)) (u8 (v >>> 24)) ≡ v % 2 ^ 32
unfolding four
four_of v = omega arith

ota_read_u64le_bytes :
    (a b c d e f g h : ℕ) (r : List ℕ)
    → a < 256
    → b < 256
    → c < 256
    → d < 256
    → e < 256
    → f < 256
    → g < 256
    → ota_read_u64le (a ∷ b ∷ c ∷ d ∷ e ∷ f ∷ g ∷ h ∷ r) ≡ four a b c d + four e f g h * 2 ^ 32
unfolding ota_read_u64le four
ota_read_u64le_bytes a b c d e f g h r la lb lc ld le lf lg =
    rw
      (
        bit_or-shifted 8 a b (omega arith),
        bit_or-shifted 16 (a + b * 2 ^ 8) c (omega arith),
        bit_or-shifted 24 (a + b * 2 ^ 8 + c * 2 ^ 16) d (omega arith),
        bit_or-shifted 32 (a + b * 2 ^ 8 + c * 2 ^ 16 + d * 2 ^ 24) e (omega arith),
        bit_or-shifted 40 (a + b * 2 ^ 8 + c * 2 ^ 16 + d * 2 ^ 24 + e * 2 ^ 32) f (omega arith),
        bit_or-shifted 48 (a + b * 2 ^ 8 + c * 2 ^ 16 + d * 2 ^ 24 + e * 2 ^ 32 + f * 2 ^ 40) g
            (omega arith),
        bit_or-shifted 56
            (a + b * 2 ^ 8 + c * 2 ^ 16 + d * 2 ^ 24 + e * 2 ^ 32 + f * 2 ^ 40 + g * 2 ^ 48) h
            (omega arith),
      )
      (omega arith)

high_four :
    (v : ℕ)
    → four (u8 (v >>> 32)) (u8 (v >>> 40)) (u8 (v >>> 48)) (u8 (v >>> 56)) ≡ (v >>> 32) % 2 ^ 32
unfolding four
high_four v = omega arith

join : (v : ℕ) → v < 2 ^ 64 → v % 2 ^ 32 + (v >>> 32) % 2 ^ 32 * 2 ^ 32 ≡ v
join v h = omega arith

ota_read_u64le-put_le64 : (v : ℕ) (r : List ℕ) → v < 2 ^ 64 → ota_read_u64le (put_le64 v ++ r) ≡ v
ota_read_u64le-put_le64 v r h =
    let split =
      ota_read_u64le_bytes (u8 v) (u8 (v >>> 8)) (u8 (v >>> 16)) (u8 (v >>> 24)) (u8 (v >>> 32))
        (u8 (v >>> 40)) (u8 (v >>> 48)) (u8 (v >>> 56)) r (omega arith) (omega arith) (omega arith)
        (omega arith) (omega arith) (omega arith) (omega arith) in
    split ∙ ap₂ (λ (x y : ℕ). x + y * 2 ^ 32) (four_of v) (high_four v) ∙ join v h

chunk_of_payload :
    (transfer_id offset : ℕ) (chunk : List ℕ)
    → transfer_id < 2 ^ 32
    → offset < 2 ^ 64
    → length chunk < 2 ^ 16
    → read_chunk (chunk_payload transfer_id offset chunk) ≡ record {
      transfer_id = transfer_id;
      offset = offset;
      data_size = length chunk;
      bytes = chunk;
    }
unfolding read_chunk chunk_payload
chunk_of_payload transfer_id offset chunk ht ho hc =
    let size : u16 (length chunk) ≡ length chunk = omega arith in
    rw
      (
        ota_read_u32le-put_le32 transfer_id _ ht,
        ota_read_u64le-put_le64 offset _ ho,
        ota_read_u16le-put_le16 (u16 (length chunk)) (put_le16 0 ++ chunk) (omega arith),
        size,
      )
      refl

length-chunk_payload :
    (transfer_id offset : ℕ) (chunk : List ℕ)
    → length (chunk_payload transfer_id offset chunk) ≡ 16 + length chunk
unfolding chunk_payload
length-chunk_payload transfer_id offset chunk = omega arith

walk-accept :
    (fuel : ℕ) (it : RawRecordIterator) (step : RawRecordView × RawRecordIterator)
    → raw_record_iterator_next it ≡ accept step
    → walk_records (suc fuel) it
      ≡ ((walk_records fuel step.1).0, step.0 ∷ (walk_records fuel step.1).1)
unfolding walk_records
walk-accept fuel it step first = rw (walk_records, first) refl

walk-reject :
    (fuel : ℕ) (it : RawRecordIterator) (code : WireResult)
    → raw_record_iterator_next it ≡ reject code
    → walk_records (suc fuel) it ≡ (code, [])
unfolding walk_records
walk-reject fuel it code first = rw (walk_records, first) refl

-- A walk that sees one record and then the end.
abbrev IsSingle : RawRecordIterator → RawRecordView → Type 0
IsSingle it v =
    (it' : RawRecordIterator) × (raw_record_iterator_next it ≡ accept (v, it'))
    × (raw_record_iterator_next it' ≡ reject WireResult.end)

next-IsSingle :
    (fuel : ℕ) (it : RawRecordIterator) (v : RawRecordView)
    → walk_records (suc (suc fuel)) it ≡ (WireResult.end, v ∷ [])
    → IsSingle it v
next-IsSingle fuel it v walked = elim (Wire-cases (raw_record_iterator_next it)) [
  | inl ((w, it'), first) ↦
      (let one = walk-accept (suc fuel) it (w, it') first in
        elim (Wire-cases (raw_record_iterator_next it')) [
          | inl (step, second) ↦
              (let two = walk-accept fuel it' step second in let absurd : ⊥ = cc in elim absurd [ ])
          | inr (code, second) ↦
              (let two = walk-reject fuel it' code second in
                let same_view : w ≡ v = cc in
                let same_code : code ≡ WireResult.end = cc in
                (it', first ∙ ap (λ u. accept (u, it')) same_view, second ∙ ap reject same_code))
        ])
  | inr (code, first) ↦
      (let none_seen = walk-reject (suc fuel) it code first in
        let absurd : ⊥ = cc in elim absurd [ ])
]

module _ (size_max transfer_id offset : ℕ) (chunk : List ℕ) (ht : transfer_id < 2 ^ 32)
    (ho : offset < 2 ^ 64) (hc : length chunk < 2 ^ 16) (hs : 24 + length chunk ≤ size_max) where
  view : RawRecordView
  view = record { record_type = 1; flags = 0; payload = chunk_payload transfer_id offset chunk }

  wire : List ℕ
  wire = aggregate (view ∷ [])

  length-wire : length wire ≡ 24 + length chunk
  unfolding wire aggregate view record_header
  length-wire = omega (
    arith,
    length-append (record_bytes view) [],
    length-append (record_header 1 0 (length view.payload)) view.payload,
    length-chunk_payload transfer_id offset chunk,
  )

  Fits-view : Fits view
  unfolding view
  Fits-view = let n = length-chunk_payload transfer_id offset chunk in ground arith

  stream_record-wire : stream_record size_max transfer_id offset chunk ≡ accept wire
  unfolding stream_record wire view aggregate
  stream_record-wire =
      let n = length-chunk_payload transfer_id offset chunk in
      encode_one size_max (24 + length chunk) view Fits-view (omega arith) (omega arith)
      ∙ ap accept (sym (append-nil (record_bytes view)))

  wire-IsSingle :
      (it : RawRecordIterator) × (raw_record_iterator_init (bytes wire) ≡ accept it)
      × IsSingle it view
  unfolding wire
  wire-IsSingle =
      let n = length-wire in
      let encoded =
        encode_records_accepts size_max (24 + length chunk) (view ∷ []) (Fits-view, tt)
          (omega arith) (omega arith) in
      let (it, started, walked) =
        walk_records-encode_records size_max (24 + length chunk) 2 (view ∷ []) wire encoded
          (omega arith) in
      (it, started, next-IsSingle 0 it view walked)

  chunk_of-wire :
      chunk_of wire
      ≡ some (record {
        transfer_id = transfer_id;
        offset = offset;
        data_size = length chunk;
        bytes = chunk;
      })
  unfolding chunk_of started_record first_record only_record view
  chunk_of-wire =
      let n = length-wire in
      let (it, started, (it', first, last)) = wire-IsSingle in
      let k = length-chunk_payload transfer_id offset chunk in
      let full : (length wire == 0) ≡ false = ground arith in
      let long : ltb (length (chunk_payload transfer_id offset chunk)) 16 ≡ false = ground arith in
      rw (full, started, first, last, long)
        (ap some (chunk_of_payload transfer_id offset chunk ht ho hc))

  -- A chunk whose numbers and length fit their fields, and whose record fits a `size_t`: the host
  -- builds its record, and the coprocessor reads just one chunk from it, of the same transfer, offset
  -- and data.
  pub chunk_of-stream_record :
      (frame : List ℕ) × (stream_record size_max transfer_id offset chunk ≡ accept frame)
      × (chunk_of frame
          ≡ some (record {
            transfer_id = transfer_id;
            offset = offset;
            data_size = length chunk;
            bytes = chunk;
          }))
  chunk_of-stream_record = (wire, stream_record-wire, chunk_of-wire)
