-- ===== src/Coproc/Ota/Moved.antt =====
-- What reporting and moving to another state leave of the transfer: `ota_emit_progress`,
-- `ota_set_state` and `send_ota_status` of coproc-core/src/coproc_ota.c.
use wl_hosted_core.Prelude.{ℕ, ◌≡◌, arith, true, Bool-cases, inl, inr}
use wl_hosted_core.Prelude.Word.{ℤ}
use wl_hosted_core.Protocol.Result.{null}
use wl_hosted_core.Protocol.Ids.Service
use wl_hosted_core.Protocol.Ids.Method
use wl_hosted_core.Protocol.Rpc.{RpcEnvelope}
use wl_hosted_core.Coproc.Types.{OtaState, Platform, Coproc, same_ota_state, ota_state_number}
use wl_hosted_core.Coproc.Types.Messages.{Message, ota_progress_event}
use wl_hosted_core.Coproc.Effects.Quiet.{Quiet, Balanced, ota_log}
use wl_hosted_core.Coproc.Send.{send_rpc_message}
use wl_hosted_core.Coproc.Send.Quiet.{
  send_rpc-Quiet, send_rpc_message-Quiet, send_event_message-Quiet,
}
use wl_hosted_core.Coproc.Ota.Transfer.{
  set_ota, ota_emit_progress, ota_set_state, ota_fail_transfer, send_ota_status,
}

-- The transfer is in state `s` and otherwise the same, but for what is reported of it; the backend
-- is not called, and buffers balance.
pub record Moved (s : OtaState) (c c' : Coproc) : Type 0 where
  pub state : (c'.ota).state ≡ s
  pub pending : (c'.ota).pending ≡ (c.ota).pending
  pub transfer_id : (c'.ota).transfer_id ≡ (c.ota).transfer_id
  pub image_size : (c'.ota).image_size ≡ (c.ota).image_size
  pub bytes_accepted : (c'.ota).bytes_accepted ≡ (c.ota).bytes_accepted
  pub config : c'.config ≡ c.config
  pub session_id : c'.session_id ≡ c.session_id
  pub log : ota_log c'.trace ≡ ota_log c.trace
  pub balanced : Balanced 0 c c'

pub Moved-refl : (c : Coproc) → Moved (c.ota).state c c
Moved-refl c = ground arith

pub Moved-trans : (s t : OtaState) (a b c : Coproc) → Moved s a b → Moved t b c → Moved t a c
Moved-trans s t a b c x y = ground arith

pub Quiet-Moved : (c c' : Coproc) → Quiet 0 c c' → Moved (c.ota).state c c'
Quiet-Moved c c' q = ground arith

same_ota_state_eq : (a b : OtaState) → same_ota_state a b ≡ true → a ≡ b
same_ota_state_eq a b e = ground arith

module _ (p : Platform) where
  pub ota_emit_progress-Moved : (c : Coproc) → Moved (c.ota).state c (ota_emit_progress p c)
  unfolding ota_emit_progress
  ota_emit_progress-Moved c =
      let reported =
        set_ota c (record (c.ota) { progress_reported_bytes = (c.ota).bytes_received }) in
      let event = ota_progress_event (record {
        transfer_id = (c.ota).transfer_id;
        state = ota_state_number (c.ota).state;
        bytes_received = (c.ota).bytes_received;
      }) in
      let q = send_event_message-Quiet p reported Service.ota Method.ota_progress event in
      ground arith

  pub ota_set_state-Moved : (c : Coproc) (s : OtaState) → Moved s c (ota_set_state p c s)
  unfolding ota_set_state
  ota_set_state-Moved c s = elim (Bool-cases (same_ota_state (c.ota).state s)) [
    | inl same ↦ (let eq = same_ota_state_eq (c.ota).state s same in rw same (ground arith))
    | inr other ↦
        (let c1 = set_ota c (record (c.ota) { state = s }) in
          let moved = ota_emit_progress-Moved c1 in rw other (ground arith))
  ]

  pub ota_fail_transfer-Moved : (c : Coproc) → Moved OtaState.failed c (ota_fail_transfer p c)
  unfolding ota_fail_transfer
  ota_fail_transfer-Moved c = ota_set_state-Moved c OtaState.failed

  pub send_ota_status-Moved :
      (c : Coproc) (method_id request_id : ℕ) (status_code : ℤ)
      → Moved (c.ota).state c (send_ota_status p c method_id request_id status_code).1
  unfolding send_ota_status
  send_ota_status-Moved c method_id request_id status_code =
      Quiet-Moved c (send_ota_status p c method_id request_id status_code).1
        (send_rpc-Quiet p c _ (null 0))

  pub send_rpc_message-Moved :
      (c : Coproc) (e : RpcEnvelope) (message : Message)
      → Moved (c.ota).state c (send_rpc_message p c e message).1
  send_rpc_message-Moved c e message =
      Quiet-Moved c (send_rpc_message p c e message).1 (send_rpc_message-Quiet p c e message)
