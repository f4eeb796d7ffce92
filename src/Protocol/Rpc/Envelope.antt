-- ===== src/Protocol/Rpc/Envelope.antt =====
-- The 16 envelope bytes: reading gives the fields back, and writing gives the bytes back. And which
-- envelopes are valid.
use wl_hosted_core.Prelude.{ℕ, ◌^◌, ◌<◌, ◌≤◌, ◌≡◌, refl, sym, ap, ◌∙◌, arith, List, [], ◌∷◌, ◌++◌}
use wl_hosted_core.Prelude.{
  length, take, drop, take-add, drop-drop, get_or-drop, length-drop, All-drop,
}
use wl_hosted_core.Prelude.Word.{IsBytes, IsInt16, u16}
use wl_hosted_core.Protocol.Endian.{byte_at, read_u16_le_unchecked, write_u16_le_unchecked}
use wl_hosted_core.Protocol.Endian.Laws.{
  read_u16-write_u16, read_u32-write_u32, read_i16-write_i16, write_u16-read_u16_take,
  write_u32-read_u32_take, read_u16_take_lt, two_bytes, write_i16-read_i16_take,
}
use wl_hosted_core.Protocol.Rpc.{RpcEnvelope, envelope_bytes, read_envelope}

-- Every field is in the range of its C type.
pub record InRange (e : RpcEnvelope) : Type 0 where
  pub service_lt : e.service_id < 2 ^ 16
  pub method_lt : e.method_id < 2 ^ 16
  pub request_lt : e.request_id < 2 ^ 32
  pub flags_lt : e.flags < 256
  pub domain_lt : e.status_domain < 2 ^ 16
  pub code_range : IsInt16 e.status_code

pub read_envelope-envelope_bytes :
    (e : RpcEnvelope) (n : ℕ) (p : List ℕ)
    → InRange e
    → n < 2 ^ 16
    → read_envelope (envelope_bytes e n ++ p) ≡ record e { payload_size = n }
unfolding read_envelope envelope_bytes
read_envelope-envelope_bytes e n p r hn = λ i. record {
  service_id = read_u16-write_u16 e.service_id (drop 2 all) r.service_lt i;
  method_id = read_u16-write_u16 e.method_id (drop 4 all) r.method_lt i;
  request_id = read_u32-write_u32 e.request_id (drop 8 all) r.request_lt i;
  kind = e.kind;
  flags = e.flags;
  payload_size = size i;
  status_domain = read_u16-write_u16 e.status_domain (drop 14 all) r.domain_lt i;
  status_code = read_i16-write_i16 e.status_code p r.code_range i;
}
  where
    all : List ℕ
    all = envelope_bytes e n ++ p

    size : read_u16_le_unchecked (drop 10 all) ≡ n
    size = omega (arith, read_u16-write_u16 (u16 n) (drop 12 all) (omega arith))

pub length-envelope_bytes : (e : RpcEnvelope) (n : ℕ) → length (envelope_bytes e n) ≡ 16
unfolding envelope_bytes
length-envelope_bytes e n = refl

take_fields :
    (f : List ℕ)
    → take 16 f
      ≡ take 2 f
        ++ (take 2 (drop 2 f)
            ++ (take 4 (drop 4 f)
                ++ (take 2 (drop 8 f)
                    ++ (take 2 (drop 10 f) ++ (take 2 (drop 12 f) ++ take 2 (drop 14 f))))))
take_fields f =
    rw
      (
        take-add 2 14 f,
        take-add 2 12 (drop 2 f),
        drop-drop 2 2 f,
        take-add 4 8 (drop 4 f),
        drop-drop 4 4 f,
        take-add 2 6 (drop 8 f),
        drop-drop 8 2 f,
        take-add 2 4 (drop 10 f),
        drop-drop 10 2 f,
        take-add 2 2 (drop 12 f),
        drop-drop 12 2 f,
      )
      refl

-- Encoding the fields that were read from 16 bytes gives these bytes again.
pub envelope_bytes-read_envelope :
    (f : List ℕ)
    → 16 ≤ length f
    → IsBytes f
    → envelope_bytes (read_envelope f) (read_envelope f).payload_size ≡ take 16 f
unfolding envelope_bytes read_envelope
envelope_bytes-read_envelope f long v = joined ∙ sym (take_fields f)
  where
    at : (k : ℕ) → k ≤ 14 → 2 ≤ length (drop k f)
    at k h = omega (arith, length-drop k f)

    at4 : 4 ≤ length (drop 4 f)
    at4 = omega (arith, length-drop 4 f)

    b : (k : ℕ) → IsBytes (drop k f)
    b k = All-drop (λ x. x < 256) k f v

    middle : byte_at f 8 ∷ byte_at f 9 ∷ [] ≡ take 2 (drop 8 f)
    middle =
        rw (← get_or-drop 8 0 f 0, ← get_or-drop 8 1 f 0)
          (two_bytes (drop 8 f) (at 8 (omega arith)))

    half :
        (k : ℕ)
        → k ≤ 14
        → write_u16_le_unchecked (read_u16_le_unchecked (drop k f)) ≡ take 2 (drop k f)
    half k h = write_u16-read_u16_take (drop k f) (at k h) (b k)

    size : write_u16_le_unchecked (u16 (read_u16_le_unchecked (drop 10 f))) ≡ take 2 (drop 10 f)
    size =
        let fits : u16 (read_u16_le_unchecked (drop 10 f)) ≡ read_u16_le_unchecked (drop 10 f) =
          omega (arith, read_u16_take_lt (drop 10 f) (at 10 (omega arith)) (b 10)) in
        ap write_u16_le_unchecked fits ∙ half 10 (omega arith)

    joined :
        envelope_bytes (read_envelope f) (read_envelope f).payload_size
        ≡ take 2 f
          ++ (take 2 (drop 2 f)
              ++ (take 4 (drop 4 f)
                  ++ (take 2 (drop 8 f)
                      ++ (take 2 (drop 10 f) ++ (take 2 (drop 12 f) ++ take 2 (drop 14 f))))))
    joined = λ i.
        half 0 (omega arith) i
        ++ (half 2 (omega arith) i
            ++ (write_u32-read_u32_take (drop 4 f) at4 (b 4) i
                ++ (middle i
                    ++ (size i
                        ++ (half 12 (omega arith) i
                            ++ write_i16-read_i16_take (drop 14 f) (at 14 (omega arith)) (b 14)
                                i)))))
