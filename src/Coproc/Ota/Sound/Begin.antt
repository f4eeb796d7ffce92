-- ===== src/Coproc/Ota/Sound/Begin.antt =====
-- The invariant of the transfer over `handle_ota_begin`, `handle_ota` and `ota_reset` of
-- coproc-core/src/coproc_ota.c.
use wl_hosted_core.Prelude.{
  ℕ, ◌≡◌, refl, Bool, true, ◌||◌, not, List, Option, none, some, ◌==◌, ◌!=◌, if_cases, Bool-cases,
  inl, inr, length,
}
use wl_hosted_core.Protocol.Result.{null}
use wl_hosted_core.Protocol.Ids.Method
use wl_hosted_core.Protocol.Ids.Status
use wl_hosted_core.Protocol.Rpc.{RpcEnvelope}
use wl_hosted_core.Coproc.Types.{CoprocResult, OtaCall, Platform, Coproc}
use wl_hosted_core.Coproc.Types.Messages.{OtaBeginRequest}
use wl_hosted_core.Coproc.Effects.{alloc_buffer, free_buffer}
use wl_hosted_core.Coproc.Effects.Quiet.{ota_log}
use wl_hosted_core.Coproc.Send.{send_rpc}
use wl_hosted_core.Coproc.Send.Quiet.{send_rpc-Quiet}
use wl_hosted_core.Coproc.Ota.Transfer.{
  ota_state_is_idle, ota_begin_operation, call_ota, answer, ota_submit_result,
}
use wl_hosted_core.Coproc.Ota.Flash.{stay, erase}
use wl_hosted_core.Coproc.Ota.Moved.{Quiet-Moved, send_rpc_message-Moved}
use wl_hosted_core.Coproc.Ota.Sound.{
  flash, is_engaged, IsSound, Advances, AdvancesOut, advances_out, out-Advances, Moved-Advances,
  then-Carries, from_same, same-IsSound,
}
use wl_hosted_core.Coproc.Ota.Sound.Requests.{
  unchanged-Advances, answer-Advances, submit_result-Carries, finalize-Advances, abort-Advances,
  activate-Advances,
}
use wl_hosted_core.Coproc.Ota.Requests.{
  begin_params, open_transfer, handle_decoded_begin, handle_ota_begin, handle_ota_finalize,
  handle_ota_abort, handle_ota_activate, handle_ota_query, handle_ota,
}

module _ (p : Platform) where
  -- The state in which the backend has been asked to begin.
  asked : Coproc → RpcEnvelope → OtaBeginRequest → Bool × Coproc
  asked c request message =
      let c1 = open_transfer c message in
      let (operation_id, c2) = ota_begin_operation c1 request in
      let (accepted, c3) =
        call_ota p c2 (OtaCall.begin operation_id (c1.ota).transfer_id (begin_params message)) in
      (accepted, free_buffer p c3)

  asked-Advances :
      (c : Coproc) (request : RpcEnvelope) (message : OtaBeginRequest)
      → IsSound c
      → Advances c (asked c request message).1
  unfolding asked open_transfer ota_begin_operation call_ota free_buffer
  asked-Advances c request message sound = record {
    sound = record { ordered = sound.ordered; tracked = λ e. (refl, refl) };
    step = erase (flash c) message.image_size;
  }

  is_engaged-asked :
      (c : Coproc) (request : RpcEnvelope) (message : OtaBeginRequest)
      → is_engaged ((asked c request message).1.ota) ≡ true
  unfolding asked open_transfer ota_begin_operation call_ota free_buffer
  is_engaged-asked c request message = refl

  -- What follows a call that is not one of the backend.
  from_same_log :
      (c d : Coproc) (out : CoprocResult × Coproc)
      → ota_log d.trace ≡ ota_log c.trace
      → AdvancesOut d out
      → AdvancesOut c out
  from_same_log c d out log advances =
      advances_out c out (from_same c d out.1 (rw log refl) (out-Advances d out advances))

  alloc_buffer_lem :
      (c : Coproc) (size : ℕ)
      → (ota_log (alloc_buffer p c size).1.trace ≡ ota_log c.trace)
        × ((alloc_buffer p c size).1.ota ≡ c.ota)
  unfolding alloc_buffer
  alloc_buffer_lem c size = elim (Bool-cases (p.alloc_ok c.trace size)) [
    | inl some_left ↦ rw some_left (refl, refl)
    | inr none_left ↦ rw none_left (refl, refl)
  ]

  asked_out :
      (c : Coproc) (request : RpcEnvelope) (message : OtaBeginRequest)
      → IsSound c
      → AdvancesOut c
          (ota_submit_result p (asked c request message).1 request (asked c request message).0)
  asked_out c request message sound =
      let begun = asked c request message in
      let out = ota_submit_result p begun.1 request begun.0 in
      advances_out c out (
        then-Carries c begun.1 out.1 (asked-Advances c request message sound)
          (submit_result-Carries p begun.1 request begun.0) (is_engaged-asked c request message))

  begin-Advances :
      (c : Coproc) (request : RpcEnvelope) (o : Option OtaBeginRequest)
      → IsSound c
      → AdvancesOut c (handle_decoded_begin p c request o)
  unfolding handle_decoded_begin asked free_buffer
  begin-Advances c request none sound =
      advances_out c (CoprocResult.protocol_error, free_buffer p c)
        (record { sound = same-IsSound c (free_buffer p c) refl refl sound; step = stay (flash c) })
  begin-Advances c request (some message) sound =
      if_cases (AdvancesOut c) (message.image_size == 0 || length message.sha256 != 32)
        (λ bad.
          let freed = free_buffer p c in
          from_same_log c freed (answer p freed request Status.invalid_argument) refl (
            answer-Advances p freed request Status.invalid_argument
              (same-IsSound c freed refl refl sound)))
        (λ good. asked_out c request message sound)

  pub handle_ota_begin-Advances :
      (c : Coproc) (request : RpcEnvelope) (payload : List ℕ)
      → IsSound c
      → AdvancesOut c (handle_ota_begin p c request payload)
  unfolding handle_ota_begin
  handle_ota_begin-Advances c request payload sound =
      let c1 = (alloc_buffer p c p.sizeof_ota_begin_request).1 in
      let same = alloc_buffer_lem c p.sizeof_ota_begin_request in
      let sound1 = same-IsSound c c1 same.0 same.1 sound in
      if_cases (AdvancesOut c) ((c.ota).pending).active
        (λ busy. answer-Advances p c request Status.busy sound)
        (λ free.
          if_cases (AdvancesOut c) (not (ota_state_is_idle (c.ota).state))
            (λ occupied. answer-Advances p c request Status.busy sound)
            (λ vacant.
              if_cases (AdvancesOut c) (alloc_buffer p c p.sizeof_ota_begin_request).0
                (λ allocated.
                  let o = p.decode_ota_begin_request payload in
                  from_same_log c c1 (handle_decoded_begin p c1 request o) same.0
                    (begin-Advances c1 request o sound1))
                (λ refused.
                  let out : CoprocResult × Coproc = (CoprocResult.backend_error, c1) in
                  from_same_log c c1 out same.0
                    (advances_out c1 out (unchanged-Advances p c1 sound1)))))

  handle_ota_query-Advances :
      (c : Coproc) (request : RpcEnvelope)
      → IsSound c
      → AdvancesOut c (handle_ota_query p c request)
  unfolding handle_ota_query
  handle_ota_query-Advances c request sound =
      let out = handle_ota_query p c request in
      advances_out c out
        (Moved-Advances c out.1 (c.ota).state (send_rpc_message-Moved p c _ _) refl sound)

  refused-Advances :
      (c : Coproc) (e : RpcEnvelope) → IsSound c → AdvancesOut c (send_rpc p c e (null 0))
  refused-Advances c e sound =
      let out = send_rpc p c e (null 0) in
      advances_out c out (
        Moved-Advances c out.1 (c.ota).state (Quiet-Moved c out.1 (send_rpc-Quiet p c e (null 0)))
          refl sound)

  -- Whatever is requested of the OTA service, with whatever result: the invariant holds after it,
  -- and the image is untouched or a new one.
  pub handle_ota-Advances :
      (c : Coproc) (request : RpcEnvelope) (payload : List ℕ)
      → IsSound c
      → AdvancesOut c (handle_ota p c request payload)
  unfolding handle_ota handle_ota_finalize handle_ota_abort handle_ota_activate
  handle_ota-Advances c request payload sound =
      let m = request.method_id in
      if_cases (AdvancesOut c) (m == Method.ota_begin)
        (λ it_is. handle_ota_begin-Advances c request payload sound)
        (λ it_is_not.
          if_cases (AdvancesOut c) (m == Method.ota_finalize)
            (λ it_is. finalize-Advances p c request (p.decode_ota_finalize_request payload) sound)
            (λ it_is_not.
              if_cases (AdvancesOut c) (m == Method.ota_abort)
                (λ it_is. abort-Advances p c request (p.decode_ota_abort_request payload) sound)
                (λ it_is_not.
                  if_cases (AdvancesOut c) (m == Method.ota_activate)
                    (λ it_is.
                      activate-Advances p c request (p.decode_ota_activate_request payload) sound)
                    (λ it_is_not.
                      if_cases (AdvancesOut c) (m == Method.ota_query)
                        (λ it_is. handle_ota_query-Advances c request sound)
                        (λ it_is_not. refused-Advances c _ sound)))))
