-- ===== src/Host/OtaStream.antt =====
-- What the host sends of a firmware image: the record that `wlh_host_ota_stream_send` of
-- host-core/src/host_ota.c builds.
use wl_hosted_core.Prelude.{ℕ, ◌+◌, List, [], ◌∷◌, ◌++◌, length}
use wl_hosted_core.Prelude.Word.{u8, u16, ◌>>>◌}
use wl_hosted_core.Protocol.Result.{Wire, bytes}
use wl_hosted_core.Protocol.Ids.{raw_record_header_size}
use wl_hosted_core.Protocol.RawRecord.{raw_record_encode}

abbrev pub put_le16 : ℕ → List ℕ
put_le16 value = u8 value ∷ u8 (value >>> 8) ∷ []

abbrev pub put_le32 : ℕ → List ℕ
put_le32 value = u8 value ∷ u8 (value >>> 8) ∷ u8 (value >>> 16) ∷ u8 (value >>> 24) ∷ []

abbrev pub put_le64 : ℕ → List ℕ
put_le64 value =
    u8 value
    ∷ u8 (value >>> 8)
    ∷ u8 (value >>> 16)
    ∷ u8 (value >>> 24)
    ∷ u8 (value >>> 32)
    ∷ u8 (value >>> 40)
    ∷ u8 (value >>> 48)
    ∷ u8 (value >>> 56)
    ∷ []

-- The header of sixteen bytes and the data behind it.
unfoldable pub chunk_payload : ℕ → ℕ → List ℕ → List ℕ
chunk_payload transfer_id offset chunk =
    put_le32 transfer_id
    ++ (put_le64 offset ++ (put_le16 (u16 (length chunk)) ++ (put_le16 0 ++ chunk)))

-- The raw record of one chunk; `size_max` is the target's SIZE_MAX.
unfoldable pub stream_record : ℕ → ℕ → ℕ → List ℕ → Wire (List ℕ)
stream_record size_max transfer_id offset chunk =
    raw_record_encode size_max (raw_record_header_size + 16 + length chunk) 1 0
      (bytes (chunk_payload transfer_id offset chunk))
