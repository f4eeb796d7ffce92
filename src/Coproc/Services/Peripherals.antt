-- ===== src/Coproc/Services/Peripherals.antt =====
-- Pins and voltages: coproc-core/src/coproc_io.c and coproc_adc.c.
use wl_hosted_core.Prelude.{ℕ, Bool, not, ◌||◌, List, Option, none, some, ◌==◌, if◌then◌else◌}
use wl_hosted_core.Prelude.Word.{ℤ}
use wl_hosted_core.Protocol.Result.{null}
use wl_hosted_core.Protocol.Ids.Method
use wl_hosted_core.Protocol.Ids.Status
use wl_hosted_core.Protocol.Rpc.{RpcEnvelope, is_status_ok}
use wl_hosted_core.Coproc.Types.{CoprocResult, Call, Platform, Coproc}
use wl_hosted_core.Coproc.Types.Messages.{IoConfig, IoState, io_read_response, adc_read_response}
use wl_hosted_core.Coproc.Effects.{record_call}
use wl_hosted_core.Coproc.Send.{send_rpc, send_rpc_message}
use wl_hosted_core.Coproc.Services.Errors.{
  service_invalid_argument, service_not_supported, service_internal, response_to,
  send_service_error,
}

abbrev pub io_mode_valid : ℕ → Bool
io_mode_valid mode = mode == 1 || mode == 2 || mode == 3

abbrev pub io_pull_valid : ℕ → Bool
io_pull_valid pull = pull == 1 || pull == 2 || pull == 3

module _ (p : Platform) where
  abbrev pub peripheral_error : Coproc → RpcEnvelope → ℤ → CoprocResult × Coproc
  peripheral_error c request status = send_service_error p c request Status.domain_peripheral status

  -- The answer to a call that returns nothing but its status.
  unfoldable pub answer_status : Coproc → RpcEnvelope → ℤ → CoprocResult × Coproc
  answer_status c request status =
      if is_status_ok status
      then send_rpc p c (response_to request Status.domain_none Status.ok) (null 0)
      else peripheral_error c request status

  unfoldable pub io_configure : Coproc → RpcEnvelope → Option IoConfig → CoprocResult × Coproc
  io_configure c request none = (CoprocResult.protocol_error, c)
  io_configure c request (some config) =
      let status = p.io_configure c.trace config in
      if not (io_mode_valid config.mode) || not (io_pull_valid config.pull)
      then peripheral_error c request service_invalid_argument
      else answer_status (record_call (Call.io_configure config status) c) request status

  -- The answer with a pin's state, which must name a valid configuration.
  unfoldable pub answer_state : Coproc → RpcEnvelope → ℕ → IoState → CoprocResult × Coproc
  answer_state c request pin_id state =
      if not (io_mode_valid state.mode) || not (io_pull_valid state.pull)
      then peripheral_error c request service_internal
      else send_rpc_message p c (response_to request Status.domain_none Status.ok) (
          io_read_response
            (record { pin_id = pin_id; level = state.level; mode = state.mode; pull = state.pull }))

  unfoldable pub io_read : Coproc → RpcEnvelope → Option ℕ → CoprocResult × Coproc
  io_read c request none = (CoprocResult.protocol_error, c)
  io_read c request (some pin_id) =
      let (status, state) = p.io_read c.trace pin_id in
      let c1 = record_call (Call.io_read pin_id status) c in
      if not (c.config).has_io_read
      then peripheral_error c request service_not_supported
      else if is_status_ok status
      then answer_state c1 request pin_id state
      else peripheral_error c1 request status

  unfoldable pub io_write : Coproc → RpcEnvelope → Option (ℕ × Bool) → CoprocResult × Coproc
  io_write c request none = (CoprocResult.protocol_error, c)
  io_write c request (some (pin_id, level)) =
      let status = p.io_write c.trace pin_id level in
      if not (c.config).has_io_write
      then peripheral_error c request service_not_supported
      else answer_status (record_call (Call.io_write pin_id level status) c) request status

  unfoldable pub handle_io_request : Coproc → RpcEnvelope → List ℕ → CoprocResult × Coproc
  handle_io_request c request message =
      if request.method_id == Method.io_configure
      then io_configure c request (p.decode_io_configure_request message)
      else if request.method_id == Method.io_read
      then io_read c request (p.decode_io_read_request message)
      else if request.method_id == Method.io_write
      then io_write c request (p.decode_io_write_request message)
      else send_rpc p c (response_to request Status.domain_protocol Status.not_supported) (null 0)

  unfoldable pub adc_read : Coproc → RpcEnvelope → Option ℕ → CoprocResult × Coproc
  adc_read c request none = (CoprocResult.protocol_error, c)
  adc_read c request (some pin_id) =
      let (status, millivolts) = p.adc_read c.trace pin_id in
      let c1 = record_call (Call.adc_read pin_id status) c in
      if is_status_ok status
      then send_rpc_message p c1 (response_to request Status.domain_none Status.ok)
          (adc_read_response (record { pin_id = pin_id; millivolts = millivolts }))
      else peripheral_error c1 request status

  unfoldable pub handle_adc_request : Coproc → RpcEnvelope → List ℕ → CoprocResult × Coproc
  handle_adc_request c request message =
      if request.method_id == Method.adc_read
      then adc_read c request (p.decode_adc_read_request message)
      else send_rpc p c (response_to request Status.domain_protocol Status.not_supported) (null 0)
