-- ===== src/Coproc/Services/Errors.antt =====
-- The status of a backend as the answer carries it: `service_status_to_wire` and
-- `send_service_error` of coproc-core/src/coproc_wire.c.
use wl_hosted_core.Prelude.{ℕ, zero, suc}
use wl_hosted_core.Prelude.Word.{ℤ, pos, negsuc}
use wl_hosted_core.Protocol.Result.{null}
use wl_hosted_core.Protocol.Ids.Status
use wl_hosted_core.Protocol.Rpc.{RpcEnvelope, kind_response}
use wl_hosted_core.Coproc.Types.{CoprocResult, Platform, Coproc}
use wl_hosted_core.Coproc.Send.{envelope, send_rpc}

-- `wlh_coproc_service_status_t`
abbrev pub service_invalid_argument : ℤ
service_invalid_argument = negsuc 0

abbrev pub service_not_supported : ℤ
service_not_supported = negsuc 2

abbrev pub service_internal : ℤ
service_internal = negsuc 5

unfoldable pub service_status_to_wire : ℤ → ℤ
service_status_to_wire (pos zero) = Status.ok
service_status_to_wire (negsuc zero) = Status.invalid_argument
service_status_to_wire (negsuc (suc zero)) = Status.not_found
service_status_to_wire (negsuc (suc (suc zero))) = Status.not_supported
service_status_to_wire (negsuc (suc (suc (suc zero)))) = Status.not_ready
service_status_to_wire (negsuc (suc (suc (suc (suc zero))))) = Status.resource_exhausted
service_status_to_wire _ = Status.internal

-- The envelope of an answer with a status.
abbrev pub response_to : RpcEnvelope → ℕ → ℤ → RpcEnvelope
response_to request status_domain status_code =
    envelope request.service_id request.method_id request.request_id kind_response status_domain
      status_code

module _ (p : Platform) where
  unfoldable pub send_service_error : Coproc → RpcEnvelope → ℕ → ℤ → CoprocResult × Coproc
  send_service_error c request status_domain status =
      send_rpc p c (response_to request status_domain (service_status_to_wire status)) (null 0)
