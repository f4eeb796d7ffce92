-- ===== src/Coproc/Ota/Flash.antt =====
-- What the OTA backend holds: an abstract image that is announced and then appended to, of which
-- coproc-core/src/coproc_ota.c promises that chunks reach it in order and none is lost.
use wl_hosted_core.Prelude.{ℕ, ◌+◌, ◌%◌, ◌≤◌, ◌<◌, ◌≡◌, Bool, true, List, [], ◌∷◌, ◌++◌, length}
use wl_hosted_core.Coproc.Types.{OtaCall, ota_alignment}

pub record Flash : Type 0 where
  pub announced : ℕ
  pub image : List ℕ

-- A BEGIN call starts a new image; the data of a write that is accepted is appended.
abbrev pub flash_of : List (OtaCall × Bool) → Flash
flash_of [] = record { announced = 0; image = [] }
flash_of ((OtaCall.begin operation_id transfer_id params, accepted) ∷ log) = record {
  announced = params.image_size;
  image = [];
}
flash_of ((OtaCall.write transfer_id offset bytes, true) ∷ log) = record (flash_of log) {
  image = (flash_of log).image ++ bytes;
}
flash_of (_ ∷ log) = flash_of log

-- A write at the end of the image, at an aligned offset, of bytes that the announced size admits.
abbrev pub NextWrite : Flash → ℕ → List ℕ → Type 0
NextWrite f offset bytes =
    (offset ≡ length f.image)
    × (offset + length bytes ≤ f.announced)
    × (offset % ota_alignment ≡ 0)
    × (0 < length bytes)

-- Every write of the log was the next one when it was made.
abbrev pub InOrder : List (OtaCall × Bool) → Type 0
InOrder [] = Unit
InOrder ((OtaCall.write transfer_id offset bytes, accepted) ∷ log) =
    NextWrite (flash_of log) offset bytes × InOrder log
InOrder (_ ∷ log) = InOrder log

-- What may happen to the image: nothing, a new one, or the next write.
pub data FlashStep : Flash → Flash → Type 0 where
  stay : (f : Flash) → FlashStep f f
  erase : (f : Flash) (size : ℕ) → FlashStep f (record { announced = size; image = [] })
  append :
      (f : Flash) (offset : ℕ) (bytes : List ℕ)
      → NextWrite f offset bytes
      → FlashStep f (record f { image = f.image ++ bytes })
