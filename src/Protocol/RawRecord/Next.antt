-- ===== src/Protocol/RawRecord/Next.antt =====
-- One step of the iterator: it stays inside the data, it moves on, and the loop over it ends.
use wl_hosted_core.Prelude.{
  ℕ, zero, suc, ◌+◌, ◌-◌, ◌<◌, ◌≤◌, ◌≡◌, ◌≢◌, arith, inl, inr, sym, ap, ap₂, ◌∙◌, List, length,
  take, drop, length-take, length-drop, drop-drop,
}
use wl_hosted_core.Protocol.Result.{WireResult, accept, reject, Wire-cases}
use wl_hosted_core.Protocol.Endian.{byte_at, read_u16_le_unchecked, read_u32_le_unchecked}
use wl_hosted_core.Protocol.RawRecord.{
  RawRecordView, RawRecordIterator, raw_record_iterator_next, walk_records,
}

-- The data holds the bytes that the iterator may read.
pub record IsSound (it : RawRecordIterator) : Type 0 where
  pub holds : it.size ≡ length it.bytes
  pub inside : it.offset ≤ it.size

-- What one successful step does.
pub record IsStep (it : RawRecordIterator) (v : RawRecordView) (next : RawRecordIterator)
    : Type 0 where
  pub same_bytes : next.bytes ≡ it.bytes
  pub same_size : next.size ≡ it.size
  pub moves : it.offset + 8 + length v.payload ≤ next.offset
  pub inside : next.offset ≤ it.size
  pub slice : v.payload ≡ take (length v.payload) (drop (next.offset - length v.payload) it.bytes)

-- The sizes that the record at the iterator's offset names.
abbrev pub entry : RawRecordIterator → List ℕ
entry it = drop it.offset it.bytes

abbrev pub header_size_of : RawRecordIterator → ℕ
header_size_of it = read_u16_le_unchecked (drop 2 (entry it))

abbrev pub payload_size_of : RawRecordIterator → ℕ
payload_size_of it = read_u32_le_unchecked (drop 4 (entry it))

record Accepted (it : RawRecordIterator) (v : RawRecordView) (next : RawRecordIterator)
    : Type 0 where
  least : 8 ≤ header_size_of it
  room : it.offset + header_size_of it + payload_size_of it ≤ it.size
  payload_is : v.payload ≡ take (payload_size_of it) (drop (header_size_of it) (entry it))
  bytes_kept : next.bytes ≡ it.bytes
  size_kept : next.size ≡ it.size
  offset_is : next.offset ≡ it.offset + (header_size_of it + payload_size_of it)

accepted :
    (it : RawRecordIterator) (v : RawRecordView) (next : RawRecordIterator)
    → raw_record_iterator_next it ≡ accept (v, next)
    → Accepted it v next
unfolding raw_record_iterator_next
accepted it v next e = ground arith

-- The outputs for the bytes `e` of a record and its sizes, and when they are given.
abbrev pub step_at : List ℕ → ℕ → ℕ → RawRecordIterator → RawRecordView × RawRecordIterator
step_at e hs ps it = (
  record { record_type = byte_at e 0; flags = byte_at e 1; payload = take ps (drop hs e) },
  record it { offset = it.offset + (hs + ps) },
)

pub next_accepts :
    (it : RawRecordIterator)
    → 8 ≤ header_size_of it
    → it.offset + header_size_of it + payload_size_of it ≤ it.size
    → raw_record_iterator_next it
      ≡ accept (step_at (entry it) (header_size_of it) (payload_size_of it) it)
unfolding raw_record_iterator_next
next_accepts it least room = ground arith

-- A step that returns WLH_WIRE_OK moves the iterator forward by eight bytes at least and by the
-- payload, not past the end of the data, and the view's payload is the bytes of the data that end
-- at the new offset: no byte outside the data is read.
pub next-IsStep :
    (it : RawRecordIterator) (v : RawRecordView) (next : RawRecordIterator)
    → IsSound it
    → raw_record_iterator_next it ≡ accept (v, next)
    → IsStep it v next
next-IsStep it v next s e = record {
  same_bytes = a.bytes_kept;
  same_size = a.size_kept;
  moves = omega (arith, a.offset_is, a.least, size_is);
  inside = omega (arith, a.offset_is, a.room);
  slice = a.payload_is ∙ ap₂ (λ (n : ℕ) (r : List ℕ). take n r) (sym size_is) place;
}
  where
    a : Accepted it v next
    a = accepted it v next e

    size_is : length v.payload ≡ payload_size_of it
    size_is = omega (
      arith,
      ap length a.payload_is,
      length-take (payload_size_of it) (drop (header_size_of it) (entry it)),
      length-drop (header_size_of it) (entry it),
      length-drop it.offset it.bytes,
      a.room,
      s.holds,
    )

    place : drop (header_size_of it) (entry it) ≡ drop (next.offset - length v.payload) it.bytes
    place =
        drop-drop it.offset (header_size_of it) it.bytes
        ∙ ap (λ (k : ℕ). drop k it.bytes) (omega (arith, a.offset_is, size_is))

pub next-IsSound :
    (it : RawRecordIterator) (v : RawRecordView) (next : RawRecordIterator)
    → IsSound it
    → raw_record_iterator_next it ≡ accept (v, next)
    → IsSound next
next-IsSound it v next s e =
    let p = next-IsStep it v next s e in
    record {
      holds = p.same_size ∙ s.holds ∙ ap length (sym p.same_bytes);
      inside = omega (arith, p.inside, p.same_size);
    }

next-ne-ok : (it : RawRecordIterator) → raw_record_iterator_next it ≢ reject WireResult.ok
unfolding raw_record_iterator_next
next-ne-ok it = ground arith

-- The loop over the records ends: with more fuel than bytes are left it never answers WLH_WIRE_OK.
pub walk_records_ends :
    (fuel : ℕ) (it : RawRecordIterator)
    → IsSound it
    → it.size - it.offset < fuel
    → (walk_records fuel it).0 ≢ WireResult.ok
unfolding walk_records
walk_records_ends zero it s h = absurd (omega arith)
walk_records_ends (suc fuel) it s h = elim (Wire-cases (raw_record_iterator_next it)) [
  | inl ((v, next), e) ↦
      let p = next-IsStep it v next s e in
      rw (e, walk_records)
        (walk_records_ends fuel next (next-IsSound it v next s e)
          (omega (arith, p.moves, p.same_size, p.inside)))
  | inr (code, e) ↦ rw (e, walk_records) (λ stuck. next-ne-ok it (e ∙ ap reject stuck))
]
