-- ===== src/Coproc/Ota/Sound/Answers.antt =====
-- The invariant of the transfer over `ota_operation_completed` and `ota_reset` of
-- coproc-core/src/coproc_ota.c.
use wl_hosted_core.Prelude.{
  ℕ, ◌≡◌, refl, arith, Bool, true, false, ◌||◌, ◌&&◌, not, ◌==◌, ◌!=◌, if_cases, Bool-cases, inl,
  inr, if◌then◌else◌,
}
use wl_hosted_core.Prelude.Word.{ℤ}
use wl_hosted_core.Protocol.Ids.Method
use wl_hosted_core.Protocol.Ids.Status
use wl_hosted_core.Protocol.Rpc.{is_status_ok}
use wl_hosted_core.Coproc.Types.{OtaState, Platform, Coproc, same_ota_state}
use wl_hosted_core.Coproc.Ota.Transfer.{
  forget_operation, call_ota, ota_backend_present, ota_set_state, ota_reset, send_ota_status,
}
use wl_hosted_core.Coproc.Ota.Moved.{
  Moved, Moved-refl, Moved-trans, ota_set_state-Moved, send_ota_status-Moved,
  send_rpc_message-Moved,
}
use wl_hosted_core.Coproc.Ota.Sound.{
  IsSound, Advances, Carries, Carries-trans, Moved-Carries, engaged-Advances, idle-Advances,
}
use wl_hosted_core.Coproc.Ota.Sound.Requests.{unchanged-Advances}
use wl_hosted_core.Coproc.Ota.Complete.{
  operation_failed, begin_completed, finalize_completed, abort_completed, operation_succeeded,
  ota_operation_completed,
}

forget_operation-Carries : (c : Coproc) → Carries c (forget_operation c)
unfolding forget_operation
forget_operation-Carries c = record {
  image_size = refl;
  bytes_accepted = refl;
  same_flash = refl;
  still_ordered = λ x. x;
}

module _ (p : Platform) where
  -- A change of state and an answer behind it.
  told-Carries :
      (s : OtaState) (c c1 : Coproc) (method_id request_id : ℕ) (code : ℤ)
      → Moved s c c1
      → Carries c (send_ota_status p c1 method_id request_id code).1
  told-Carries s c c1 method_id request_id code moved =
      let told = (send_ota_status p c1 method_id request_id code).1 in
      Carries-trans c c1 told (Moved-Carries s c c1 moved) (
        Moved-Carries (c1.ota).state c1 told (send_ota_status-Moved p c1 method_id request_id code))

  operation_failed-Carries :
      (c : Coproc) (method_id request_id : ℕ)
      → Carries c (operation_failed p c method_id request_id)
  unfolding operation_failed
  operation_failed-Carries c method_id request_id =
      let failed = ota_set_state p c OtaState.failed in
      let c1 = if method_id == Method.ota_abort then c else failed in
      let told = (send_ota_status p c1 method_id request_id Status.internal).1 in
      Carries-trans c c1 told
        (if_cases (Carries c) (method_id == Method.ota_abort)
          (λ abort. Moved-Carries (c.ota).state c c (Moved-refl c))
          (λ other.
            Moved-Carries OtaState.failed c failed (ota_set_state-Moved p c OtaState.failed)))
        (Moved-Carries (c1.ota).state c1 told
          (send_ota_status-Moved p c1 method_id request_id Status.internal))

  begin_completed-Carries :
      (c : Coproc) (request_id : ℕ) → Carries c (begin_completed p c request_id)
  unfolding begin_completed
  begin_completed-Carries c request_id =
      let c1 = ota_set_state p c OtaState.receiving in
      let moved = ota_set_state-Moved p c OtaState.receiving in
      Carries-trans c c1 (begin_completed p c request_id)
        (Moved-Carries OtaState.receiving c c1 moved)
        (Moved-Carries (c1.ota).state c1 (begin_completed p c request_id)
          (send_rpc_message-Moved p c1 _ _))

  finalize_completed-Carries :
      (c : Coproc) (request_id : ℕ) → Carries c (finalize_completed p c request_id)
  unfolding finalize_completed
  finalize_completed-Carries c request_id =
      told-Carries OtaState.ready_to_activate c (ota_set_state p c OtaState.ready_to_activate)
        Method.ota_finalize request_id Status.ok
        (ota_set_state-Moved p c OtaState.ready_to_activate)

  module _ (c : Coproc) (sound : IsSound c) (active : ((c.ota).pending).active ≡ true) where
    abort_completed-Advances :
        (request_id : ℕ) → Advances c (abort_completed p (forget_operation c) request_id)
    unfolding abort_completed forget_operation
    abort_completed-Advances request_id =
        let c1 = forget_operation c in
        let told = (send_ota_status p c1 Method.ota_abort request_id Status.ok).1 in
        let moved =
          Moved-trans (c1.ota).state OtaState.idle c1 told (ota_set_state p told OtaState.idle)
            (send_ota_status-Moved p c1 Method.ota_abort request_id Status.ok)
            (ota_set_state-Moved p told OtaState.idle) in
        let carries = Moved-Carries OtaState.idle c1 (ota_set_state p told OtaState.idle) moved in
        idle-Advances c (abort_completed p c1 request_id) carries.same_flash
          (carries.still_ordered sound.ordered) (ground arith)

    settled-Advances : (c' : Coproc) → Carries (forget_operation c) c' → Advances c c'
    settled-Advances c' carries =
        engaged-Advances c c'
          (Carries-trans c (forget_operation c) c' (forget_operation-Carries c) carries)
          (ground arith) sound

    operation_succeeded-Advances :
        (method_id request_id : ℕ)
        → Advances c (operation_succeeded p (forget_operation c) method_id request_id)
    unfolding operation_succeeded
    operation_succeeded-Advances method_id request_id =
        let c1 = forget_operation c in
        if_cases (Advances c) (method_id == Method.ota_begin)
          (λ it_is.
            settled-Advances (begin_completed p c1 request_id)
              (begin_completed-Carries c1 request_id))
          (λ it_is_not.
            if_cases (Advances c) (method_id == Method.ota_finalize)
              (λ it_is.
                settled-Advances (finalize_completed p c1 request_id)
                  (finalize_completed-Carries c1 request_id))
              (λ it_is_not.
                if_cases (Advances c) (method_id == Method.ota_abort)
                  (λ it_is. abort_completed-Advances request_id)
                  (λ it_is_not.
                    if_cases (Advances c) (method_id == Method.ota_activate)
                      (λ it_is.
                        settled-Advances
                          (send_ota_status p c1 Method.ota_activate request_id Status.ok).1
                          (told-Carries (c1.ota).state c1 c1 Method.ota_activate request_id
                            Status.ok (Moved-refl c1)))
                      (λ it_is_not.
                        settled-Advances c1 (Moved-Carries (c1.ota).state c1 c1 (Moved-refl c1))))))

  first_true : (a b c : Bool) → (not a || b || c) ≡ false → a ≡ true
  first_true a b c e = ground arith

  -- Whatever the backend reports of an operation: the invariant holds after it, and the image is
  -- untouched.
  pub ota_operation_completed-Advances :
      (c : Coproc) (operation_id : ℕ) (backend_status : ℤ)
      → IsSound c
      → Advances c (ota_operation_completed p c operation_id backend_status)
  unfolding ota_operation_completed
  ota_operation_completed-Advances c operation_id backend_status sound =
      let pending = (c.ota).pending in
      if_cases (Advances c)
        (not pending.active
          || operation_id != pending.operation_id
          || pending.session_id != c.session_id)
        (λ stale. unchanged-Advances p c sound)
        (λ current.
          let active =
            first_true pending.active (operation_id != pending.operation_id)
              (pending.session_id != c.session_id) current in
          if_cases (Advances c) (is_status_ok backend_status)
            (λ good.
              operation_succeeded-Advances c sound active pending.method_id pending.request_id)
            (λ bad.
              settled-Advances c sound active
                (operation_failed p (forget_operation c) pending.method_id pending.request_id)
                (operation_failed-Carries (forget_operation c) pending.method_id
                  pending.request_id)))

  -- A new session drops the transfer; the image is untouched.
  pub ota_reset-Advances : (c : Coproc) → IsSound c → Advances c (ota_reset p c)
  unfolding ota_reset call_ota ota_backend_present
  ota_reset-Advances c sound =
      elim (Bool-cases (
        (same_ota_state (c.ota).state OtaState.receiving
          || same_ota_state (c.ota).state OtaState.verifying
          || same_ota_state (c.ota).state OtaState.ready_to_activate)
        && (c.config).has_ota_write
        && (c.config).has_ota_abort)) [
          | inl going ↦ rw going (idle-Advances c _ refl sound.ordered refl)
          | inr over ↦ rw over (idle-Advances c _ refl sound.ordered refl)
        ]
