-- ===== src/Coproc/Ota/Requests.antt =====
-- The requests of the OTA service: `handle_ota_begin` to `handle_ota` of
-- coproc-core/src/coproc_ota.c.
use wl_hosted_core.Prelude.{
  ℕ, ◌||◌, not, List, Option, none, some, ◌==◌, ◌!=◌, if◌then◌else◌, length,
}
use wl_hosted_core.Protocol.Result.{null}
use wl_hosted_core.Protocol.Ids.Service
use wl_hosted_core.Protocol.Ids.Method
use wl_hosted_core.Protocol.Ids.Status
use wl_hosted_core.Protocol.Rpc.{RpcEnvelope, kind_response}
use wl_hosted_core.Coproc.Types.{
  CoprocResult, OtaState, OtaCall, Platform, Coproc, ota_state_number, same_ota_state,
}
use wl_hosted_core.Coproc.Types.Messages.{
  OtaBeginRequest, OtaFinalizeRequest, OtaActivateRequest, OtaBeginParams, ota_query_response,
}
use wl_hosted_core.Coproc.Effects.{alloc_buffer, free_buffer}
use wl_hosted_core.Coproc.Send.{envelope, send_rpc, send_rpc_message}
use wl_hosted_core.Coproc.Ota.Transfer.{
  ota_state_is_idle, set_ota, copy_text, ota_begin_operation, ota_next_transfer_id, call_ota,
  ota_set_state, answer, ota_submit_result,
}

-- What the backend is told of a request.
abbrev pub begin_params : OtaBeginRequest → OtaBeginParams
begin_params message = record {
  image_type = message.image_type;
  image_size = message.image_size;
  sha256 = message.sha256;
  target_version = copy_text 32 message.target_version;
  slot = copy_text 16 message.slot;
  signature = message.signature;
}

-- A new transfer, of which nothing has arrived.
unfoldable pub open_transfer : Coproc → OtaBeginRequest → Coproc
unfolding ota_next_transfer_id
open_transfer c message =
    let (transfer_id, c1) = ota_next_transfer_id c in
    set_ota c1 (record (c1.ota) {
      transfer_id = transfer_id;
      image_size = message.image_size;
      bytes_accepted = 0;
      bytes_received = 0;
      progress_reported_bytes = 0;
      target_version = copy_text 32 message.target_version;
    })

module _ (p : Platform) where
  -- From the decoded request on; its buffer is freed on every way.
  unfoldable pub handle_decoded_begin :
      Coproc → RpcEnvelope → Option OtaBeginRequest → CoprocResult × Coproc
  unfolding free_buffer open_transfer ota_begin_operation call_ota
  handle_decoded_begin c request none = (CoprocResult.protocol_error, free_buffer p c)
  handle_decoded_begin c request (some message) =
      let c1 = open_transfer c message in
      let (operation_id, c2) = ota_begin_operation c1 request in
      let (accepted, c3) =
        call_ota p c2 (OtaCall.begin operation_id (c1.ota).transfer_id (begin_params message)) in
      if message.image_size == 0 || length message.sha256 != 32
      then answer p (free_buffer p c) request Status.invalid_argument
      else ota_submit_result p (free_buffer p c3) request accepted

  unfoldable pub handle_ota_begin : Coproc → RpcEnvelope → List ℕ → CoprocResult × Coproc
  unfolding alloc_buffer
  handle_ota_begin c request payload =
      let (allocated, c1) = alloc_buffer p c p.sizeof_ota_begin_request in
      if ((c.ota).pending).active
      then answer p c request Status.busy
      else if not (ota_state_is_idle (c.ota).state)
      then answer p c request Status.busy
      else if allocated
      then handle_decoded_begin c1 request (p.decode_ota_begin_request payload)
      else (CoprocResult.backend_error, c1)

  -- A backend call on behalf of a request.
  unfoldable pub submit_operation :
      Coproc → RpcEnvelope → (Coproc → Coproc) → (ℕ → OtaCall) → CoprocResult × Coproc
  unfolding ota_begin_operation call_ota
  submit_operation c request prepare call =
      let (operation_id, c1) = ota_begin_operation c request in
      let (accepted, c2) = call_ota p (prepare c1) (call operation_id) in
      ota_submit_result p c2 request accepted

  unfoldable pub handle_decoded_finalize :
      Coproc → RpcEnvelope → Option OtaFinalizeRequest → CoprocResult × Coproc
  handle_decoded_finalize c request none = (CoprocResult.protocol_error, c)
  handle_decoded_finalize c request (some message) =
      if ((c.ota).pending).active
      then answer p c request Status.busy
      else if not (same_ota_state (c.ota).state OtaState.receiving)
      then answer p c request Status.not_ready
      else if message.transfer_id != (c.ota).transfer_id
      then answer p c request Status.not_found
      else submit_operation c request (λ c1. ota_set_state p c1 OtaState.verifying)
          (λ operation_id. OtaCall.finalize operation_id (c.ota).transfer_id message.bytes_sent)

  unfoldable pub handle_ota_finalize : Coproc → RpcEnvelope → List ℕ → CoprocResult × Coproc
  handle_ota_finalize c request payload =
      handle_decoded_finalize c request (p.decode_ota_finalize_request payload)

  -- The transfer that a backend without an abort callback leaves behind.
  unfoldable pub abandon_transfer : Coproc → Coproc
  abandon_transfer c =
      let c1 = ota_set_state p c OtaState.idle in set_ota c1 (record (c1.ota) { transfer_id = 0 })

  unfoldable pub handle_decoded_abort : Coproc → RpcEnvelope → Option ℕ → CoprocResult × Coproc
  handle_decoded_abort c request none = (CoprocResult.protocol_error, c)
  handle_decoded_abort c request (some transfer_id) =
      if ((c.ota).pending).active
      then answer p c request Status.busy
      else if ota_state_is_idle (c.ota).state
      then answer p c request Status.ok
      else if transfer_id != (c.ota).transfer_id
      then answer p c request Status.not_found
      else if (c.config).has_ota_abort
      then submit_operation c request (λ c1. c1)
          (λ operation_id. OtaCall.abort operation_id (c.ota).transfer_id)
      else answer p (abandon_transfer c) request Status.ok

  unfoldable pub handle_ota_abort : Coproc → RpcEnvelope → List ℕ → CoprocResult × Coproc
  handle_ota_abort c request payload =
      handle_decoded_abort c request (p.decode_ota_abort_request payload)

  unfoldable pub handle_decoded_activate :
      Coproc → RpcEnvelope → Option OtaActivateRequest → CoprocResult × Coproc
  handle_decoded_activate c request none = (CoprocResult.protocol_error, c)
  handle_decoded_activate c request (some message) =
      if ((c.ota).pending).active
      then answer p c request Status.busy
      else if not (same_ota_state (c.ota).state OtaState.ready_to_activate)
      then answer p c request Status.not_ready
      else if message.transfer_id != (c.ota).transfer_id
      then answer p c request Status.not_found
      else submit_operation c request (λ c1. c1)
          (λ operation_id. OtaCall.activate operation_id (c.ota).transfer_id message.reboot)

  unfoldable pub handle_ota_activate : Coproc → RpcEnvelope → List ℕ → CoprocResult × Coproc
  handle_ota_activate c request payload =
      handle_decoded_activate c request (p.decode_ota_activate_request payload)

  unfoldable pub handle_ota_query : Coproc → RpcEnvelope → CoprocResult × Coproc
  handle_ota_query c request =
      let state =
        if same_ota_state (c.ota).state OtaState.unspecified
        then OtaState.idle
        else (c.ota).state in
      send_rpc_message p c
        (envelope Service.ota Method.ota_query request.request_id kind_response Status.domain_none
          Status.ok)
        (ota_query_response (record {
          state = ota_state_number state;
          transfer_id = (c.ota).transfer_id;
          image_size = (c.ota).image_size;
          bytes_received = (c.ota).bytes_received;
          target_version = copy_text 32 (c.ota).target_version;
        }))

  unfoldable pub handle_ota : Coproc → RpcEnvelope → List ℕ → CoprocResult × Coproc
  handle_ota c request payload =
      if request.method_id == Method.ota_begin
      then handle_ota_begin c request payload
      else if request.method_id == Method.ota_finalize
      then handle_ota_finalize c request payload
      else if request.method_id == Method.ota_abort
      then handle_ota_abort c request payload
      else if request.method_id == Method.ota_activate
      then handle_ota_activate c request payload
      else if request.method_id == Method.ota_query
      then handle_ota_query c request
      else send_rpc p c
          (envelope request.service_id request.method_id request.request_id kind_response
            Status.domain_protocol Status.not_supported)
          (null 0)
