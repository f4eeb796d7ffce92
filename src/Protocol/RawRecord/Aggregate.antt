-- ===== src/Protocol/RawRecord/Aggregate.antt =====
-- A frame that carries encoded records one after the other is read back record by record.
use wl_hosted_core.Prelude.{
  ℕ, zero, suc, ◌+◌, ◌-◌, ◌<◌, ◌≤◌, ◌≡◌, refl, sym, ◌∙◌, arith, List, [], ◌∷◌, ◌++◌, All,
  append_assoc,
}
use wl_hosted_core.Prelude.{length, drop, length-append, take-append, drop-append}
use wl_hosted_core.Prelude.Word.{u32_max, u32}
use wl_hosted_core.Protocol.Result.{WireResult, Wire, accept, reject, bytes, ◌>>=◌, >>=-eq-accept}
use wl_hosted_core.Protocol.Endian.Laws.{read_u16-write_u16, read_u32-write_u32}
use wl_hosted_core.Protocol.RawRecord.Next.{
  entry, header_size_of, payload_size_of, step_at, next_accepts,
}
use wl_hosted_core.Protocol.RawRecord.{
  RawRecordView, RawRecordIterator, record_header, raw_record_encode, raw_record_iterator_init,
  raw_record_iterator_next, walk_records,
}

-- The bytes of one record, and of several in a row.
abbrev pub record_bytes : RawRecordView → List ℕ
record_bytes v = record_header v.record_type v.flags (length v.payload) ++ v.payload

unfoldable pub aggregate : List RawRecordView → List ℕ
aggregate [] = []
aggregate (v ∷ vs) = record_bytes v ++ aggregate vs

-- A payload that the length field of a record holds.
abbrev pub Fits : RawRecordView → Type 0
Fits v = length v.payload ≤ u32_max

length-record_header : (t f n : ℕ) → length (record_header t f n) ≡ 8
unfolding record_header
length-record_header t f n = refl

abbrev at : List ℕ → List ℕ → RawRecordIterator
at before rest = record {
  bytes = before ++ rest;
  size = length (before ++ rest);
  offset = length before;
}

module _ (before rest : List ℕ) (v : RawRecordView) (fits : Fits v) where
  abbrev here : RawRecordIterator
  here = at before (record_bytes v ++ rest)

  entry-here : entry here ≡ record_bytes v ++ rest
  entry-here = drop-append before (record_bytes v ++ rest)

  header_size-here : header_size_of here ≡ 8
  unfolding record_header
  header_size-here =
      rw entry-here (read_u16-write_u16 8 (drop 4 (record_bytes v ++ rest)) (omega arith))

  payload_size-here : payload_size_of here ≡ length v.payload
  unfolding record_header
  payload_size-here =
      rw entry-here (
        read_u32-write_u32 (u32 (length v.payload)) (v.payload ++ rest) (omega arith) ∙ omega arith)

  length-record_bytes : length (record_bytes v) ≡ 8 + length v.payload
  unfolding record_header
  length-record_bytes = omega arith

  room : here.offset + header_size_of here + payload_size_of here ≤ here.size
  room = omega (
    arith,
    header_size-here,
    payload_size-here,
    length-record_bytes,
    length-append before (record_bytes v ++ rest),
    length-append (record_bytes v) rest,
  )

  view_is : (step_at (record_bytes v ++ rest) 8 (length v.payload) here).0 ≡ v
  unfolding record_header
  view_is = λ i. record {
    record_type = v.record_type;
    flags = v.flags;
    payload = take-append v.payload rest i;
  }

  behind :
      (step_at (record_bytes v ++ rest) 8 (length v.payload) here).1
      ≡ at (before ++ record_bytes v) rest
  behind = λ i. record {
    bytes = sym (append_assoc before (record_bytes v) rest) i;
    size = length (sym (append_assoc before (record_bytes v) rest) i);
    offset = offset_is i;
  }
    where
      offset_is : length before + (8 + length v.payload) ≡ length (before ++ record_bytes v)
      offset_is = omega (arith, length-append before (record_bytes v), length-record_bytes)

  -- At an encoded record the iterator returns it and stops behind it.
  next-record_bytes : raw_record_iterator_next here ≡ accept (v, at (before ++ record_bytes v) rest)
  next-record_bytes =
      next_accepts here (omega (arith, header_size-here)) room
      ∙ (λ i. accept (step_at (entry-here i) (header_size-here i) (payload_size-here i) here))
      ∙ (λ i. accept (view_is i, behind i))

next-end : (before : List ℕ) → raw_record_iterator_next (at before []) ≡ reject WireResult.end
unfolding raw_record_iterator_next
next-end before = ground (arith, length-append before [])

walk_from :
    (fuel : ℕ) (before : List ℕ) (vs : List RawRecordView)
    → All Fits vs
    → length vs < fuel
    → walk_records fuel (at before (aggregate vs)) ≡ (WireResult.end, vs)
unfolding walk_records aggregate
walk_from zero before vs fit h = absurd (omega arith)
walk_from (suc fuel) before [] fit h = rw (next-end before, walk_records)
walk_from (suc fuel) before (v ∷ vs) fit h =
    rw
      (
        next-record_bytes before (aggregate vs) v fit.0,
        walk_records,
        walk_from fuel (before ++ record_bytes v) vs fit.1 (omega arith),
      )
      refl

-- A caller that aggregates: it encodes record after record and advances the output by each size.
unfoldable pub encode_records : ℕ → ℕ → List RawRecordView → Wire (List ℕ)
encode_records size_max capacity [] = accept []
encode_records size_max capacity (v ∷ vs) = do
  b ← raw_record_encode size_max capacity v.record_type v.flags (bytes v.payload)
  rest ← encode_records size_max (capacity - length b) vs
  accept (b ++ rest)

encoded_one :
    (size_max capacity : ℕ) (v : RawRecordView) (b : List ℕ)
    → raw_record_encode size_max capacity v.record_type v.flags (bytes v.payload) ≡ accept b
    → (b ≡ record_bytes v) × Fits v
unfolding raw_record_encode
encoded_one size_max capacity v b e = ground arith

encoded_records :
    (size_max capacity : ℕ) (vs : List RawRecordView) (bs : List ℕ)
    → encode_records size_max capacity vs ≡ accept bs
    → (bs ≡ aggregate vs) × All Fits vs
unfolding encode_records aggregate
encoded_records size_max capacity [] bs e = (ground arith, tt)
encoded_records size_max capacity (v ∷ vs) bs e =
    let (b, eb, e') =
      >>=-eq-accept (raw_record_encode size_max capacity v.record_type v.flags (bytes v.payload)) _
        e in
    let (rest, er, e'') = >>=-eq-accept (encode_records size_max (capacity - length b) vs) _ e' in
    let one = encoded_one size_max capacity v b eb in
    let more = encoded_records size_max (capacity - length b) vs rest er in
    (ground arith, (one.1, more.1))

-- Records that a caller has encoded one behind the other are read back: over the bytes, the iterator
-- gives exactly these records, in order, and then WLH_WIRE_END, in a loop of one round more than
-- there are records.
pub walk_records-encode_records :
    (size_max capacity fuel : ℕ) (vs : List RawRecordView) (bs : List ℕ)
    → encode_records size_max capacity vs ≡ accept bs
    → length vs < fuel
    → (it : RawRecordIterator) × (raw_record_iterator_init (bytes bs) ≡ accept it)
      × (walk_records fuel it ≡ (WireResult.end, vs))
unfolding raw_record_iterator_init
walk_records-encode_records size_max capacity fuel vs bs e h =
    let (same, fit) = encoded_records size_max capacity vs bs e in
    (at [] bs, refl, rw same (walk_from fuel [] vs fit h))

pub encode_one :
    (size_max capacity : ℕ) (v : RawRecordView)
    → Fits v
    → 8 + length v.payload ≤ size_max
    → 8 + length v.payload ≤ capacity
    → raw_record_encode size_max capacity v.record_type v.flags (bytes v.payload)
      ≡ accept (record_bytes v)
unfolding raw_record_encode
encode_one size_max capacity v fit s c = ground arith

-- And encoding succeeds: where each payload fits its length field and the bytes of all records
-- together fit the buffer and a `size_t`, every record is encoded and the result fills just them.
pub encode_records_accepts :
    (size_max capacity : ℕ) (vs : List RawRecordView)
    → All Fits vs
    → length (aggregate vs) ≤ capacity
    → length (aggregate vs) ≤ size_max
    → encode_records size_max capacity vs ≡ accept (aggregate vs)
unfolding encode_records aggregate
encode_records_accepts size_max capacity [] fit c s = refl
encode_records_accepts size_max capacity (v ∷ vs) fit c s =
    rw
      (
        encode_one size_max capacity v fit.0 (omega (arith, sizes)) (omega (arith, sizes)),
        encode_records_accepts size_max (capacity - length (record_bytes v)) vs fit.1
            (omega (arith, sizes)) (omega (arith, sizes)),
      )
      refl
  where
    sizes :
        (length (record_bytes v ++ aggregate vs) ≡ 8 + length v.payload + length (aggregate vs))
        × (length (record_bytes v) ≡ 8 + length v.payload)
    sizes =
        let n = length-append (record_bytes v) (aggregate vs) in
        let k = length-append (record_header v.record_type v.flags (length v.payload)) v.payload in
        let m = length-record_header v.record_type v.flags (length v.payload) in omega arith

length-aggregate : (vs : List RawRecordView) → length vs ≤ length (aggregate vs)
unfolding aggregate record_header
length-aggregate [] = omega arith
length-aggregate (v ∷ vs) = omega (
  arith,
  length-aggregate vs,
  length-append (record_bytes v) (aggregate vs),
  length-append (record_header v.record_type v.flags (length v.payload)) v.payload,
  length-record_header v.record_type v.flags (length v.payload),
)

-- Every record takes room.
pub length-encode_records :
    (size_max capacity : ℕ) (vs : List RawRecordView) (bs : List ℕ)
    → encode_records size_max capacity vs ≡ accept bs
    → length vs ≤ length bs
length-encode_records size_max capacity vs bs e =
    let same = encoded_records size_max capacity vs bs e in rw (same.0) (length-aggregate vs)
