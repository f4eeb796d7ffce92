-- ===== src/Coproc/Services/Answers/Envelope.antt =====
-- The envelopes of answers, as coproc_rpc.c and coproc_wire.c of coproc-core/src make them.
use wl_hosted_core.Prelude.{
  ℕ, ◌≡◌, refl, sym, arith, Bool, true, false, ◌||◌, some, zero, suc, ◌==◌,
}
use wl_hosted_core.Prelude.Word.{ℤ, pos, negsuc}
use wl_hosted_core.Protocol.Result.{WireResult}
use wl_hosted_core.Protocol.Ids.Service
use wl_hosted_core.Protocol.Ids.Status
use wl_hosted_core.Protocol.Rpc.{
  RpcEnvelope, kind_request, rpc_envelope_validate, is_status_ok, differ,
}
use wl_hosted_core.Coproc.Types.Messages.{}
use wl_hosted_core.Coproc.Services.Errors.{service_status_to_wire, response_to}
use wl_hosted_core.Coproc.Services.Peripherals.{}

-- A request that `rpc_envelope_validate` lets in.
pub record IsRequest (request : RpcEnvelope) : Type 0 where
  pub valid : rpc_envelope_validate (some request) ≡ WireResult.ok
  pub kind : request.kind ≡ kind_request

-- Only the backend's success is told as success.
pub is_status_ok-service_status_to_wire :
    (status : ℤ) → is_status_ok (service_status_to_wire status) ≡ is_status_ok status
unfolding service_status_to_wire
is_status_ok-service_status_to_wire (pos zero) = refl
is_status_ok-service_status_to_wire (pos (suc n)) = ground arith
is_status_ok-service_status_to_wire (negsuc zero) = refl
is_status_ok-service_status_to_wire (negsuc (suc zero)) = refl
is_status_ok-service_status_to_wire (negsuc (suc (suc zero))) = refl
is_status_ok-service_status_to_wire (negsuc (suc (suc (suc zero)))) = refl
is_status_ok-service_status_to_wire (negsuc (suc (suc (suc (suc zero))))) = refl
is_status_ok-service_status_to_wire (negsuc (suc (suc (suc (suc (suc n)))))) = refl

differ_same : (a b : Bool) → a ≡ b → differ a b ≡ false
differ_same true true same = refl
differ_same true false same = same
differ_same false true same = sym same
differ_same false false same = refl

-- What `rpc_envelope_validate` has seen of a request stays true of its answer.
named :
    (request : RpcEnvelope)
    → IsRequest request
    → ((request.service_id == Service.invalid || request.method_id == 0) ≡ false)
      × ((request.request_id == 0) ≡ false)
unfolding rpc_envelope_validate
named request is = let valid = is.valid in let kind = is.kind in ground arith

pub response_to-valid :
    (request : RpcEnvelope) (status_domain : ℕ) (status : ℤ)
    → IsRequest request
    → is_status_ok status ≡ (status_domain == Status.domain_none)
    → rpc_envelope_validate (some (response_to request status_domain status)) ≡ WireResult.ok
unfolding rpc_envelope_validate
response_to-valid request status_domain status is fits =
    let names = named request is in
    let same = differ_same (is_status_ok status) (status_domain == Status.domain_none) fits in
    rw names.0 (rw names.1 (rw same refl))
