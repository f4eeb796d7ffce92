-- ===== src/Coproc/Services/Answers.antt =====
-- What the peripheral services answer: `handle_io_request` and `handle_adc_request` of
-- coproc-core/src/coproc_io.c and coproc_adc.c.
pub mod Envelope
pub mod Branches
use wl_hosted_core.Prelude.{
  ℕ, ◌≡◌, ◌∙◌, sym, Bool, true, false, not, ◌||◌, List, Option, none, some, zero, suc, ◌==◌,
  if◌then◌else◌,
}
use wl_hosted_core.Prelude.Word.{ℤ, pos, negsuc}
use wl_hosted_core.Protocol.Result.{WireResult, null}
use wl_hosted_core.Protocol.Ids.Method
use wl_hosted_core.Protocol.Ids.Service
use wl_hosted_core.Protocol.Ids.Status
use wl_hosted_core.Protocol.Rpc.{
  RpcEnvelope, kind_request, rpc_envelope_validate, is_status_ok, differ,
}
use wl_hosted_core.Coproc.Types.{CoprocResult, Call, Platform, Coproc}
use wl_hosted_core.Coproc.Effects.{record_call}
use wl_hosted_core.Coproc.Types.Messages.{
  IoConfig, IoState, Message, io_read_response, adc_read_response,
}
use wl_hosted_core.Coproc.Send.{send_rpc, send_rpc_message}
use wl_hosted_core.Coproc.Services.Errors.{service_status_to_wire, response_to, send_service_error}
use wl_hosted_core.Coproc.Services.Peripherals.{
  io_mode_valid, io_pull_valid, peripheral_error, answer_status, answer_state, io_configure,
  io_read, io_write, adc_read,
}
use wl_hosted_core.Coproc.Services.Answers.Branches.{is_given}

-- The methods of the two services, and whether the message of such a request decodes.
abbrev pub io_is_known : RpcEnvelope → Bool
io_is_known request =
    request.method_id == Method.io_configure
    || request.method_id == Method.io_read
    || request.method_id == Method.io_write

abbrev pub io_decodes : Platform → RpcEnvelope → List ℕ → Bool
io_decodes p request message =
    if request.method_id == Method.io_configure
    then is_given (p.decode_io_configure_request message)
    else if request.method_id == Method.io_read
    then is_given (p.decode_io_read_request message)
    else is_given (p.decode_io_write_request message)

abbrev pub adc_is_known : RpcEnvelope → Bool
adc_is_known request = request.method_id == Method.adc_read

abbrev pub adc_decodes : Platform → List ℕ → Bool
adc_decodes p message = is_given (p.decode_adc_read_request message)
