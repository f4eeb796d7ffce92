-- ===== src/Coproc/Ota/Sound/Requests.antt =====
-- The invariant of the transfer over the requests of coproc-core/src/coproc_ota.c.
use wl_hosted_core.Prelude.{
  ℕ, ◌≡◌, refl, arith, Bool, true, false, not, Option, none, some, ◌!=◌, if_cases,
}
use wl_hosted_core.Prelude.Word.{ℤ}
use wl_hosted_core.Protocol.Ids.Status
use wl_hosted_core.Protocol.Rpc.{RpcEnvelope}
use wl_hosted_core.Coproc.Types.{
  CoprocResult, OtaState, OtaCall, Call, Platform, OtaTransfer, Coproc, same_ota_state,
}
use wl_hosted_core.Coproc.Types.Messages.{OtaFinalizeRequest, OtaActivateRequest}
use wl_hosted_core.Coproc.Effects.{record_call}
use wl_hosted_core.Coproc.Ota.Transfer.{
  ota_state_is_idle, ota_begin_operation, forget_operation, ota_set_state, answer,
  ota_submit_result,
}
use wl_hosted_core.Coproc.Ota.Moved.{Moved-refl, ota_set_state-Moved, send_ota_status-Moved}
use wl_hosted_core.Coproc.Ota.Sound.{
  IsSound, Advances, AdvancesOut, advances_out, Carries, Carries-trans, Moved-Carries, IsControl,
  control-Carries, is_engaged, Moved-Advances, engaged-Advances,
}
use wl_hosted_core.Coproc.Ota.Requests.{
  submit_operation, handle_decoded_finalize, handle_decoded_abort, abandon_transfer,
  handle_decoded_activate,
}

module _ (o : OtaTransfer) where
  receiving_engages : not (same_ota_state o.state OtaState.receiving) ≡ false → is_engaged o ≡ true
  receiving_engages receiving = ground arith

  ready_engages :
      not (same_ota_state o.state OtaState.ready_to_activate) ≡ false → is_engaged o ≡ true
  ready_engages ready = ground arith

  active_engages : ota_state_is_idle o.state ≡ false → is_engaged o ≡ true
  active_engages active = ground arith

module _ (p : Platform) where
  pub unchanged-Advances : (c : Coproc) → IsSound c → Advances c c
  unchanged-Advances c sound = Moved-Advances c c (c.ota).state (Moved-refl c) refl sound

  pub answer-Advances :
      (c : Coproc) (request : RpcEnvelope) (code : ℤ)
      → IsSound c
      → AdvancesOut c (answer p c request code)
  answer-Advances c request code sound = advances_out c (answer p c request code) (
      Moved-Advances c (answer p c request code).1 (c.ota).state
        (send_ota_status-Moved p c request.method_id request.request_id code) refl sound)

  begin_operation-Carries :
      (c : Coproc) (request : RpcEnvelope) → Carries c (ota_begin_operation c request).1
  unfolding ota_begin_operation
  begin_operation-Carries c request = record {
    image_size = refl;
    bytes_accepted = refl;
    same_flash = refl;
    still_ordered = λ x. x;
  }

  pub submit_result-Carries :
      (c : Coproc) (request : RpcEnvelope) (accepted : Bool)
      → Carries c (ota_submit_result p c request accepted).1
  unfolding ota_submit_result forget_operation
  submit_result-Carries c request true = record {
    image_size = refl;
    bytes_accepted = refl;
    same_flash = refl;
    still_ordered = λ x. x;
  }
  submit_result-Carries c request false =
      let c1 = forget_operation c in
      let moved = send_ota_status-Moved p c1 request.method_id request.request_id Status.internal in
      let told = Moved-Carries (c1.ota).state c1 (answer p c1 request Status.internal).1 moved in
      record {
        image_size = told.image_size;
        bytes_accepted = told.bytes_accepted;
        same_flash = told.same_flash;
        still_ordered = told.still_ordered;
      }

  submit_operation-Carries :
      (c : Coproc) (request : RpcEnvelope) (prepare : Coproc → Coproc) (call : ℕ → OtaCall)
      → ((d : Coproc) → Carries d (prepare d))
      → ((n : ℕ) → IsControl (call n))
      → Carries c (submit_operation p c request prepare call).1
  unfolding submit_operation
  submit_operation-Carries c request prepare call prepared control =
      let begun = ota_begin_operation c request in
      let c2 = prepare begun.1 in
      let accepted = p.ota_ok c2.trace (call begun.0) in
      let c3 = record_call (Call.ota (call begun.0) accepted) c2 in
      Carries-trans c c2 (ota_submit_result p c3 request accepted).1
        (Carries-trans c begun.1 c2 (begin_operation-Carries c request) (prepared begun.1))
        (Carries-trans c2 c3 (ota_submit_result p c3 request accepted).1
          (control-Carries c2 (call begun.0) accepted (control begun.0))
          (submit_result-Carries c3 request accepted))

  submitted-Advances :
      (c : Coproc) (request : RpcEnvelope) (prepare : Coproc → Coproc) (call : ℕ → OtaCall)
      → ((d : Coproc) → Carries d (prepare d))
      → ((n : ℕ) → IsControl (call n))
      → is_engaged c.ota ≡ true
      → IsSound c
      → AdvancesOut c (submit_operation p c request prepare call)
  submitted-Advances c request prepare call prepared control engaged sound =
      advances_out c (submit_operation p c request prepare call) (
        engaged-Advances c (submit_operation p c request prepare call).1
          (submit_operation-Carries c request prepare call prepared control) engaged sound)

  pub finalize-Advances :
      (c : Coproc) (request : RpcEnvelope) (o : Option OtaFinalizeRequest)
      → IsSound c
      → AdvancesOut c (handle_decoded_finalize p c request o)
  unfolding handle_decoded_finalize
  finalize-Advances c request none sound =
      advances_out c (CoprocResult.protocol_error, c) (unchanged-Advances c sound)
  finalize-Advances c request (some message) sound =
      if_cases (AdvancesOut c) ((c.ota).pending).active
        (λ busy. answer-Advances c request Status.busy sound)
        (λ free.
          if_cases (AdvancesOut c) (not (same_ota_state (c.ota).state OtaState.receiving))
            (λ other. answer-Advances c request Status.not_ready sound)
            (λ receiving.
              if_cases (AdvancesOut c) (message.transfer_id != (c.ota).transfer_id)
                (λ unknown. answer-Advances c request Status.not_found sound)
                (λ known.
                  submitted-Advances c request (λ d. ota_set_state p d OtaState.verifying)
                    (λ n. OtaCall.finalize n (c.ota).transfer_id message.bytes_sent)
                    (λ d.
                      Moved-Carries OtaState.verifying d (ota_set_state p d OtaState.verifying)
                        (ota_set_state-Moved p d OtaState.verifying))
                    (λ n. tt) (receiving_engages c.ota receiving) sound)))

  abandon-Carries : (c : Coproc) → Carries c (abandon_transfer p c)
  unfolding abandon_transfer
  abandon-Carries c =
      let moved =
        Moved-Carries OtaState.idle c (ota_set_state p c OtaState.idle)
          (ota_set_state-Moved p c OtaState.idle) in
      record {
        image_size = moved.image_size;
        bytes_accepted = moved.bytes_accepted;
        same_flash = moved.same_flash;
        still_ordered = moved.still_ordered;
      }

  abandoned-Carries :
      (c : Coproc) (request : RpcEnvelope)
      → Carries c (answer p (abandon_transfer p c) request Status.ok).1
  abandoned-Carries c request =
      let left = abandon_transfer p c in
      let told = (answer p left request Status.ok).1 in
      let moved = send_ota_status-Moved p left request.method_id request.request_id Status.ok in
      Carries-trans c left told (abandon-Carries c) (Moved-Carries (left.ota).state left told moved)

  pub abort-Advances :
      (c : Coproc) (request : RpcEnvelope) (o : Option ℕ)
      → IsSound c
      → AdvancesOut c (handle_decoded_abort p c request o)
  unfolding handle_decoded_abort
  abort-Advances c request none sound =
      advances_out c (CoprocResult.protocol_error, c) (unchanged-Advances c sound)
  abort-Advances c request (some transfer_id) sound =
      if_cases (AdvancesOut c) ((c.ota).pending).active
        (λ busy. answer-Advances c request Status.busy sound)
        (λ free.
          if_cases (AdvancesOut c) (ota_state_is_idle (c.ota).state)
            (λ idle. answer-Advances c request Status.ok sound)
            (λ active.
              if_cases (AdvancesOut c) (transfer_id != (c.ota).transfer_id)
                (λ unknown. answer-Advances c request Status.not_found sound)
                (λ known.
                  if_cases (AdvancesOut c) (c.config).has_ota_abort
                    (λ able.
                      submitted-Advances c request (λ d. d)
                        (λ n. OtaCall.abort n (c.ota).transfer_id)
                        (λ d. Moved-Carries (d.ota).state d d (Moved-refl d)) (λ n. tt)
                        (active_engages c.ota active) sound)
                    (λ unable. advances_out c (answer p (abandon_transfer p c) request Status.ok) (
                      engaged-Advances c (answer p (abandon_transfer p c) request Status.ok).1
                        (abandoned-Carries c request) (active_engages c.ota active) sound)))))

  pub activate-Advances :
      (c : Coproc) (request : RpcEnvelope) (o : Option OtaActivateRequest)
      → IsSound c
      → AdvancesOut c (handle_decoded_activate p c request o)
  unfolding handle_decoded_activate
  activate-Advances c request none sound =
      advances_out c (CoprocResult.protocol_error, c) (unchanged-Advances c sound)
  activate-Advances c request (some message) sound =
      if_cases (AdvancesOut c) ((c.ota).pending).active
        (λ busy. answer-Advances c request Status.busy sound)
        (λ free.
          if_cases (AdvancesOut c) (not (same_ota_state (c.ota).state OtaState.ready_to_activate))
            (λ other. answer-Advances c request Status.not_ready sound)
            (λ ready.
              if_cases (AdvancesOut c) (message.transfer_id != (c.ota).transfer_id)
                (λ unknown. answer-Advances c request Status.not_found sound)
                (λ known.
                  submitted-Advances c request (λ d. d)
                    (λ n. OtaCall.activate n (c.ota).transfer_id message.reboot)
                    (λ d. Moved-Carries (d.ota).state d d (Moved-refl d)) (λ n. tt)
                    (ready_engages c.ota ready) sound)))
