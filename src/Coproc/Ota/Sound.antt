-- ===== src/Coproc/Ota/Sound.antt =====
-- The invariant of the transfer in coproc-core/src/coproc_ota.c: what the core has counted is what
-- the backend holds.
pub mod Requests
pub mod Begin
pub mod Chunks
pub mod Answers
use wl_hosted_core.Prelude.{
  ℕ, ◌≡◌, refl, sym, arith, ◌∙◌, subst, Bool, true, false, ◌||◌, not, List, [], ◌∷◌, ◌==◌,
  Bool-cases, inl, inr, length,
}
use wl_hosted_core.Coproc.Types.{
  CoprocResult, OtaState, OtaCall, Call, Platform, OtaTransfer, Coproc, same_ota_state,
}
use wl_hosted_core.Coproc.Effects.{record_call}
use wl_hosted_core.Coproc.Effects.Quiet.{ota_log}
use wl_hosted_core.Coproc.Ota.Flash.{Flash, flash_of, InOrder, FlashStep, stay}
use wl_hosted_core.Coproc.Ota.Moved.{Moved}

abbrev pub flash : Coproc → Flash
flash c = flash_of (ota_log c.trace)

-- A transfer that is going on, has failed, or waits for the backend.
abbrev pub is_engaged : OtaTransfer → Bool
is_engaged o =
    (o.pending).active
    || not (same_ota_state o.state OtaState.unspecified || same_ota_state o.state OtaState.idle)

abbrev pub Tracks : Flash → OtaTransfer → Type 0
Tracks f o = (length f.image ≡ o.bytes_accepted) × (f.announced ≡ o.image_size)

-- All writes were in order, and the counters of a transfer describe the backend's image.
pub record IsSound (c : Coproc) : Type 0 where
  pub ordered : InOrder (ota_log c.trace)
  pub tracked : is_engaged c.ota ≡ true → Tracks (flash c) c.ota

-- What an operation does: it keeps the invariant, and the image takes a step of its own.
pub record Advances (c c' : Coproc) : Type 0 where
  pub sound : IsSound c'
  pub step : FlashStep (flash c) (flash c')

-- From `c` to `c'` the counters and the image stay, and no write is out of order.
pub record Carries (c c' : Coproc) : Type 0 where
  pub image_size : (c'.ota).image_size ≡ (c.ota).image_size
  pub bytes_accepted : (c'.ota).bytes_accepted ≡ (c.ota).bytes_accepted
  pub same_flash : flash c' ≡ flash c
  pub still_ordered : InOrder (ota_log c.trace) → InOrder (ota_log c'.trace)

pub Carries-trans : (a b c : Coproc) → Carries a b → Carries b c → Carries a c
Carries-trans a b c x y = record {
  image_size = y.image_size ∙ x.image_size;
  bytes_accepted = y.bytes_accepted ∙ x.bytes_accepted;
  same_flash = y.same_flash ∙ x.same_flash;
  still_ordered = λ h. y.still_ordered (x.still_ordered h);
}

pub Moved-Carries : (s : OtaState) (c c' : Coproc) → Moved s c c' → Carries c c'
Moved-Carries s c c' moved = record {
  image_size = moved.image_size;
  bytes_accepted = moved.bytes_accepted;
  same_flash = rw moved.log refl;
  still_ordered = λ h. subst (λ log. InOrder log) (sym moved.log) h;
}

-- The calls that neither announce nor write.
abbrev pub IsControl : OtaCall → Type 0
IsControl (OtaCall.begin operation_id transfer_id params) = ⊥
IsControl (OtaCall.write transfer_id offset bytes) = ⊥
IsControl _ = Unit

pub control-Carries :
    (c : Coproc) (call : OtaCall) (accepted : Bool)
    → IsControl call
    → Carries c (record_call (Call.ota call accepted) c)
control-Carries c (OtaCall.finalize i t n) accepted h = record {
  image_size = refl;
  bytes_accepted = refl;
  same_flash = refl;
  still_ordered = λ x. x;
}
control-Carries c (OtaCall.abort i t) accepted h = record {
  image_size = refl;
  bytes_accepted = refl;
  same_flash = refl;
  still_ordered = λ x. x;
}
control-Carries c (OtaCall.activate i t reboot) accepted h = record {
  image_size = refl;
  bytes_accepted = refl;
  same_flash = refl;
  still_ordered = λ x. x;
}
control-Carries c (OtaCall.begin i t params) accepted h = elim h [ ]
control-Carries c (OtaCall.write t offset bytes) accepted h = elim h [ ]

same_flash-step : (f g : Flash) → g ≡ f → FlashStep f g
same_flash-step f g e = rw e (stay f)

module _ (c c' : Coproc) where
  -- Nothing that carries over can engage a transfer that is not tracked.
  pub Carries-Advances :
      Carries c c'
      → (is_engaged (c'.ota) ≡ true → is_engaged (c.ota) ≡ true)
      → IsSound c
      → Advances c c'
  Carries-Advances carries engaged sound = record {
    sound = record {
      ordered = carries.still_ordered sound.ordered;
      tracked = λ e.
          let tracks = sound.tracked (engaged e) in
          (
            rw carries.same_flash (tracks.0 ∙ sym carries.bytes_accepted),
            rw carries.same_flash (tracks.1 ∙ sym carries.image_size),
          );
    };
    step = same_flash-step (flash c) (flash c') carries.same_flash;
  }

  -- A transfer that is over need not be tracked.
  pub idle-Advances :
      flash c' ≡ flash c → InOrder (ota_log c'.trace) → is_engaged (c'.ota) ≡ false → Advances c c'
  idle-Advances same ordered over = record {
    sound = record { ordered = ordered; tracked = λ e. cc };
    step = same_flash-step (flash c) (flash c') same;
  }

  pub Moved-Advances : (s : OtaState) → Moved s c c' → (c.ota).state ≡ s → IsSound c → Advances c c'
  Moved-Advances s moved same sound =
      Carries-Advances (Moved-Carries s c c' moved)
        (λ e. rw (sym moved.pending) (rw same (rw (sym moved.state) e))) sound

  -- Whatever the state then is, if a transfer was engaged.
  pub engaged-Advances : Carries c c' → is_engaged (c.ota) ≡ true → IsSound c → Advances c c'
  engaged-Advances carries engaged sound = Carries-Advances carries (λ e. engaged) sound

-- What carries over after a step belongs to the step.
pub then-Carries :
    (a b c : Coproc) → Advances a b → Carries b c → is_engaged (b.ota) ≡ true → Advances a c
then-Carries a b c first carries engaged =
    let rest = engaged-Advances b c carries engaged first.sound in
    record {
      sound = rest.sound;
      step = subst (λ f. FlashStep (flash a) f) (sym carries.same_flash) first.step;
    }

-- A step that starts where the image is the same is also one from here.
pub from_same : (c d e : Coproc) → flash d ≡ flash c → Advances d e → Advances c e
from_same c d e same advances = record {
  sound = advances.sound;
  step = subst (λ f. FlashStep f (flash e)) same advances.step;
}

-- The invariant is about the transfer and the calls of the backend.
pub same-IsSound :
    (c d : Coproc) → ota_log d.trace ≡ ota_log c.trace → d.ota ≡ c.ota → IsSound c → IsSound d
same-IsSound c d log transfer sound = record {
  ordered = rw log sound.ordered;
  tracked = rw log (rw transfer sound.tracked);
}

-- What an operation with a result does. It computes only where it is unfolded, so that a proof can
-- take a conditional apart.
unfoldable pub AdvancesOut : Coproc → CoprocResult × Coproc → Type 0
AdvancesOut c out = Advances c out.1

pub advances_out : (c : Coproc) (out : CoprocResult × Coproc) → Advances c out.1 → AdvancesOut c out
unfolding AdvancesOut
advances_out c out a = a

pub out-Advances : (c : Coproc) (out : CoprocResult × Coproc) → AdvancesOut c out → Advances c out.1
unfolding AdvancesOut
out-Advances c out a = a
