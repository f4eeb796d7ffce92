-- ===== src/Coproc/Ota/Steps.antt =====
-- The OTA transfer as a system: the operations of coproc-core/src/coproc_ota.c in any order, with
-- the rest of the core in between.
use wl_hosted_core.Prelude.{ℕ, ◌≤◌, ◌≡◌, refl, arith, false, List, [], length, length-append}
use wl_hosted_core.Prelude.Word.{ℤ}
use wl_hosted_core.Protocol.Rpc.{RpcEnvelope}
use wl_hosted_core.Coproc.Types.{OtaState, Platform, Coproc}
use wl_hosted_core.Coproc.Effects.Quiet.{ota_log}
use wl_hosted_core.Coproc.Ota.Transfer.{ota_reset}
use wl_hosted_core.Coproc.Ota.Requests.{handle_ota}
use wl_hosted_core.Coproc.Ota.Stream.{process_ota_frame, ota_write_completed}
use wl_hosted_core.Coproc.Ota.Complete.{ota_operation_completed}
use wl_hosted_core.Coproc.Ota.Flash.{Flash, FlashStep, stay, erase, append}
use wl_hosted_core.Coproc.Ota.Sound.{
  flash, IsSound, Advances, out-Advances, from_same, same-IsSound,
}
use wl_hosted_core.Coproc.Ota.Sound.Requests.{unchanged-Advances}
use wl_hosted_core.Coproc.Ota.Sound.Begin.{handle_ota-Advances}
use wl_hosted_core.Coproc.Ota.Sound.Chunks.{
  process_ota_frame-Advances, ota_write_completed-Advances,
}
use wl_hosted_core.Coproc.Ota.Sound.Answers.{ota_operation_completed-Advances, ota_reset-Advances}

-- One operation. `elsewhere` is whatever the core does besides: it neither touches the transfer nor
-- calls the OTA backend.
pub data Step (p : Platform) : Coproc → Coproc → Type 0 where
  request :
      (c : Coproc) (e : RpcEnvelope) (payload : List ℕ) → Step p c (handle_ota p c e payload).1
  frame : (c : Coproc) (payload : List ℕ) → Step p c (process_ota_frame p c payload).1
  completed :
      (c : Coproc) (operation_id : ℕ) (backend_status : ℤ)
      → Step p c (ota_operation_completed p c operation_id backend_status)
  written :
      (c : Coproc) (transfer_id bytes_received : ℕ) (backend_status : ℤ)
      → Step p c (ota_write_completed p c transfer_id bytes_received backend_status)
  reset : (c : Coproc) → Step p c (ota_reset p c)
  elsewhere : (c c' : Coproc) → c'.ota ≡ c.ota → ota_log c'.trace ≡ ota_log c.trace → Step p c c'

pub data Steps (p : Platform) : Coproc → Coproc → Type 0 where
  here : (c : Coproc) → Steps p c c
  next : (a b c : Coproc) → Step p a b → Steps p b c → Steps p a c

-- The abstract image, taking steps of its own.
pub data FlashSteps : Flash → Flash → Type 0 where
  here : (f : Flash) → FlashSteps f f
  next : (f g h : Flash) → FlashStep f g → FlashSteps g h → FlashSteps f h

-- A transfer that has not begun, of a core that has not called the OTA backend.
abbrev pub IsFresh : Coproc → Type 0
IsFresh c =
    (ota_log c.trace ≡ [])
    × ((c.ota).state ≡ OtaState.unspecified)
    × (((c.ota).pending).active ≡ false)

module _ (p : Platform) where
  -- Each operation, of any environment and whatever its outcome, keeps the invariant: all writes to
  -- the backend were in order, and the counters of a transfer that is going on describe what the
  -- backend holds. Of the backend's image it makes one step at most: a new image, or one write that
  -- starts at its end, is aligned and not empty, and stays within the announced size.
  pub Step-Advances : (c c' : Coproc) → Step p c c' → IsSound c → Advances c c'
  Step-Advances c _ (request _ e payload) sound =
      out-Advances c (handle_ota p c e payload) (handle_ota-Advances p c e payload sound)
  Step-Advances c _ (frame _ payload) sound =
      out-Advances c (process_ota_frame p c payload) (process_ota_frame-Advances p c payload sound)
  Step-Advances c _ (completed _ i s) sound = ota_operation_completed-Advances p c i s sound
  Step-Advances c _ (written _ t n s) sound = ota_write_completed-Advances p c t n s sound
  Step-Advances c _ (reset _) sound = ota_reset-Advances p c sound
  Step-Advances c c' (elsewhere _ _ transfer log) sound =
      from_same c c' c' (rw log refl)
        (unchanged-Advances p c' (same-IsSound c c' log transfer sound))

  Steps-IsSound : (c c' : Coproc) → Steps p c c' → IsSound c → IsSound c'
  Steps-IsSound c _ (here _) sound = sound
  Steps-IsSound a c (next _ b _ step steps) sound =
      Steps-IsSound b c steps (Step-Advances a b step sound).sound

  -- The backend's image changes by new images and appended writes only.
  Steps-FlashSteps : (c c' : Coproc) → IsSound c → Steps p c c' → FlashSteps (flash c) (flash c')
  Steps-FlashSteps c _ sound (here _) = FlashSteps.here (flash c)
  Steps-FlashSteps a c sound (next _ b _ step steps) =
      let advances = Step-Advances a b step sound in
      FlashSteps.next (flash a) (flash b) (flash c) advances.step
        (Steps-FlashSteps b c advances.sound steps)

fresh-IsSound : (c : Coproc) → IsFresh c → IsSound c
fresh-IsSound c (log, state, pending) = record {
  ordered = rw log tt;
  tracked = rw (pending, state) (λ e. ground arith);
}

-- An image within its announced size.
abbrev pub IsWithin : Flash → Type 0
IsWithin f = length f.image ≤ f.announced

step-IsWithin : (f g : Flash) → FlashStep f g → IsWithin f → IsWithin g
step-IsWithin f _ (stay _) within = within
step-IsWithin f _ (erase _ size) within = omega arith
step-IsWithin f _ (append _ offset bytes fits) within =
    omega (arith, length-append f.image bytes, fits.0, fits.1)

steps-IsWithin : (f g : Flash) → FlashSteps f g → IsWithin f → IsWithin g
steps-IsWithin f _ (here _) within = within
steps-IsWithin f h (next _ g _ step steps) within =
    steps-IsWithin g h steps (step-IsWithin f g step within)

fresh-IsWithin : (c : Coproc) → IsFresh c → IsWithin (flash c)
fresh-IsWithin c fresh = rw fresh.0 (omega arith)

module _ (p : Platform) where
  -- In every state that a core can reach whose OTA transfer has not begun: all writes to the
  -- backend were in order, the counters of a transfer that is going on describe what the backend
  -- holds, and the backend's image is no longer than what was announced.
  pub reachable-IsSound :
      (c c' : Coproc) → IsFresh c → Steps p c c' → IsSound c' × IsWithin (flash c')
  reachable-IsSound c c' fresh steps =
      let sound = fresh-IsSound c fresh in
      (
        Steps-IsSound p c c' steps sound,
        steps-IsWithin (flash c) (flash c') (Steps-FlashSteps p c c' sound steps)
            (fresh-IsWithin c fresh),
      )
