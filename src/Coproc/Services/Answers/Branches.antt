-- ===== src/Coproc/Services/Answers/Branches.antt =====
-- How each operation of the I/O and ADC services is answered: coproc_io.c and coproc_adc.c of
-- coproc-core/src.
use wl_hosted_core.Prelude.{
  ℕ, ◌≡◌, refl, ◌∙◌, arith, Bool, true, false, not, ◌||◌, List, Option, none, some, ◌==◌, if_cases,
}
use wl_hosted_core.Prelude.Word.{ℤ}
use wl_hosted_core.Protocol.Result.{WireResult, null}
use wl_hosted_core.Protocol.Ids.Method
use wl_hosted_core.Protocol.Ids.Status
use wl_hosted_core.Protocol.Rpc.{RpcEnvelope, rpc_envelope_validate, is_status_ok}
use wl_hosted_core.Coproc.Types.{CoprocResult, Call, Platform, Coproc}
use wl_hosted_core.Coproc.Effects.{record_call}
use wl_hosted_core.Coproc.Types.Messages.{
  IoConfig, IoState, Message, io_read_response, adc_read_response,
}
use wl_hosted_core.Coproc.Send.{send_rpc, send_rpc_message}
use wl_hosted_core.Coproc.Services.Errors.{service_status_to_wire, response_to, send_service_error}
use wl_hosted_core.Coproc.Services.Peripherals.{
  io_mode_valid, io_pull_valid, peripheral_error, answer_status, answer_state, io_configure,
  io_read, io_write, adc_read,
}
use wl_hosted_core.Coproc.Services.Answers.Envelope.{
  IsRequest, response_to-valid, is_status_ok-service_status_to_wire,
}

abbrev pub is_given : {A : Type 0} → Option A → Bool
is_given none = false
is_given (some x) = true

abbrev pub is_misconfigured : ℕ → ℕ → Bool
is_misconfigured mode pull = not (io_mode_valid mode) || not (io_pull_valid pull)

-- What a request asks of a backend, by its method and its message, and what the backend returns.
abbrev pub Returns : Platform → RpcEnvelope → List ℕ → Coproc → Call → ℤ → Type 0
Returns p request message c (Call.adc_read pin_id status) told =
    ((request.method_id == Method.adc_read) ≡ true)
    × (p.decode_adc_read_request message ≡ some pin_id)
    × (status ≡ (p.adc_read c.trace pin_id).0)
    × (told ≡ status)
Returns p request message c (Call.io_configure config status) told =
    ((request.method_id == Method.io_configure) ≡ true)
    × (p.decode_io_configure_request message ≡ some config)
    × (status ≡ p.io_configure c.trace config)
    × (told ≡ status)
Returns p request message c (Call.io_read pin_id status) told =
    ((request.method_id == Method.io_read) ≡ true)
    × (p.decode_io_read_request message ≡ some pin_id)
    × (status ≡ (p.io_read c.trace pin_id).0)
    × (told ≡ status)
Returns p request message c (Call.io_write pin_id level status) told =
    ((request.method_id == Method.io_write) ≡ true)
    × (p.decode_io_write_request message ≡ some (pin_id, level))
    × (status ≡ p.io_write c.trace pin_id level)
    × (told ≡ status)
Returns p request message c call told = ⊥

-- What is told of a pin.
abbrev pub pin_message : ℕ → IoState → Message
pin_message pin_id state =
    io_read_response
      (record { pin_id = pin_id; level = state.level; mode = state.mode; pull = state.pull })

-- What is refused before a backend is called.
pub data Refuses (p : Platform) (request : RpcEnvelope) (known : Bool) (message : List ℕ)
    (c : Coproc) : ℕ → ℤ → Type 0 where
  unknown :
      known ≡ false → Refuses p request known message c Status.domain_protocol Status.not_supported
  invalid :
      (config : IoConfig)
      → (request.method_id == Method.io_configure) ≡ true
      → p.decode_io_configure_request message ≡ some config
      → is_misconfigured config.mode config.pull ≡ true
      → Refuses p request known message c Status.domain_peripheral Status.invalid_argument
  no_read :
      (request.method_id == Method.io_read) ≡ true
      → (c.config).has_io_read ≡ false
      → Refuses p request known message c Status.domain_peripheral Status.not_supported
  no_write :
      (request.method_id == Method.io_write) ≡ true
      → (c.config).has_io_write ≡ false
      → Refuses p request known message c Status.domain_peripheral Status.not_supported

module _ (p : Platform) (request : RpcEnvelope) (known decodes : Bool) (message : List ℕ) where
  abbrev pub IsValidAnswer : ℕ → ℤ → Type 0
  IsValidAnswer status_domain status =
      rpc_envelope_validate (some (response_to request status_domain status)) ≡ WireResult.ok

  -- What a handler may leave behind: nothing, only when the message does not decode, or the sending
  -- of one answer to the request, which tells of success only where the backend did.
  pub data IsAnswered (c : Coproc) : CoprocResult × Coproc → Type 0 where
    dropped : decodes ≡ false → IsAnswered c (CoprocResult.protocol_error, c)
    refused :
        (status_domain : ℕ) (status : ℤ)
        → Refuses p request known message c status_domain status
        → IsValidAnswer status_domain status
        → IsAnswered c (send_rpc p c (response_to request status_domain status) (null 0))
    failed :
        (call : Call) (status : ℤ)
        → Returns p request message c call status
        → is_status_ok status ≡ false
        → IsValidAnswer Status.domain_peripheral (service_status_to_wire status)
        → IsAnswered c (
            send_rpc p
              (record_call call c)
              (response_to request Status.domain_peripheral (service_status_to_wire status))
              (null 0))
    misread :
        (pin_id : ℕ) (status : ℤ)
        → Returns p request message c (Call.io_read pin_id status) status
        → is_misconfigured (p.io_read c.trace pin_id).1.mode (p.io_read c.trace pin_id).1.pull
          ≡ true
        → IsValidAnswer Status.domain_peripheral Status.internal
        → IsAnswered c (
            send_rpc p
              (record_call (Call.io_read pin_id status) c)
              (response_to request Status.domain_peripheral Status.internal)
              (null 0))
    done :
        (call : Call) (status : ℤ)
        → Returns p request message c call status
        → is_status_ok status ≡ true
        → IsValidAnswer Status.domain_none Status.ok
        → IsAnswered c (
            send_rpc p
              (record_call call c)
              (response_to request Status.domain_none Status.ok)
              (null 0))
    pin_told :
        (pin_id : ℕ) (status : ℤ)
        → Returns p request message c (Call.io_read pin_id status) status
        → is_status_ok status ≡ true
        → IsValidAnswer Status.domain_none Status.ok
        → IsAnswered c (
            send_rpc_message p
              (record_call (Call.io_read pin_id status) c)
              (response_to request Status.domain_none Status.ok)
              (pin_message pin_id (p.io_read c.trace pin_id).1))
    voltage_told :
        (pin_id : ℕ) (status : ℤ)
        → Returns p request message c (Call.adc_read pin_id status) status
        → is_status_ok status ≡ true
        → IsValidAnswer Status.domain_none Status.ok
        → IsAnswered c (
            send_rpc_message p
              (record_call (Call.adc_read pin_id status) c)
              (response_to request Status.domain_none Status.ok)
              (adc_read_response
                (record { pin_id = pin_id; millivolts = (p.adc_read c.trace pin_id).1 })))

  module _ (is : IsRequest request) (c : Coproc) where
    success : IsValidAnswer Status.domain_none Status.ok
    success = response_to-valid request Status.domain_none Status.ok is refl

    pub refusal :
        (status_domain : ℕ) (status : ℤ)
        → is_status_ok status ≡ (status_domain == Status.domain_none)
        → Refuses p request known message c status_domain status
        → IsAnswered c (send_rpc p c (response_to request status_domain status) (null 0))
    refusal status_domain status fits reason =
        IsAnswered.refused status_domain status reason
          (response_to-valid request status_domain status is fits)

    failure :
        (call : Call) (status : ℤ)
        → Returns p request message c call status
        → is_status_ok status ≡ false
        → IsAnswered c (peripheral_error p (record_call call c) request status)
    unfolding send_service_error
    failure call status told bad = IsAnswered.failed call status told bad (
        response_to-valid request Status.domain_peripheral (service_status_to_wire status) is
          (is_status_ok-service_status_to_wire status ∙ bad))

    answer_status-IsAnswered :
        (call : Call) (status : ℤ)
        → Returns p request message c call status
        → IsAnswered c (answer_status p (record_call call c) request status)
    unfolding answer_status
    answer_status-IsAnswered call status told =
        if_cases (IsAnswered c) (is_status_ok status)
          (λ good. IsAnswered.done call status told good success)
          (λ bad. failure call status told bad)

    pub io_configure-IsAnswered :
        (decoded : Option IoConfig)
        → (request.method_id == Method.io_configure) ≡ true
        → p.decode_io_configure_request message ≡ decoded
        → (is_given decoded ≡ false → decodes ≡ false)
        → IsAnswered c (io_configure p c request decoded)
    unfolding io_configure send_service_error service_status_to_wire
    io_configure-IsAnswered none asks reads drop = IsAnswered.dropped (drop refl)
    io_configure-IsAnswered (some config) asks reads drop =
        if_cases (IsAnswered c) (is_misconfigured config.mode config.pull)
          (λ bad.
            refusal Status.domain_peripheral Status.invalid_argument refl
              (Refuses.invalid config asks reads bad))
          (λ good.
            answer_status-IsAnswered (Call.io_configure config _) _ (asks, reads, refl, refl))

    pub io_read-IsAnswered :
        (decoded : Option ℕ)
        → (request.method_id == Method.io_read) ≡ true
        → p.decode_io_read_request message ≡ decoded
        → (is_given decoded ≡ false → decodes ≡ false)
        → IsAnswered c (io_read p c request decoded)
    unfolding io_read answer_state send_service_error service_status_to_wire
    io_read-IsAnswered none asks reads drop = IsAnswered.dropped (drop refl)
    io_read-IsAnswered (some pin_id) asks reads drop =
        let (status, state) = p.io_read c.trace pin_id in
        if_cases (IsAnswered c) (not (c.config).has_io_read)
          (λ none_there.
            refusal Status.domain_peripheral Status.not_supported refl
              (Refuses.no_read asks (ground arith)))
          (λ there.
            if_cases (IsAnswered c) (is_status_ok status)
              (λ good.
                if_cases (IsAnswered c) (is_misconfigured state.mode state.pull)
                  (λ bad.
                    IsAnswered.misread pin_id status (asks, reads, refl, refl) bad
                      (response_to-valid request Status.domain_peripheral Status.internal is refl))
                  (λ fine.
                    IsAnswered.pin_told pin_id status (asks, reads, refl, refl) good success))
              (λ bad. failure (Call.io_read pin_id status) status (asks, reads, refl, refl) bad))

    pub io_write-IsAnswered :
        (decoded : Option (ℕ × Bool))
        → (request.method_id == Method.io_write) ≡ true
        → p.decode_io_write_request message ≡ decoded
        → (is_given decoded ≡ false → decodes ≡ false)
        → IsAnswered c (io_write p c request decoded)
    unfolding io_write send_service_error service_status_to_wire
    io_write-IsAnswered none asks reads drop = IsAnswered.dropped (drop refl)
    io_write-IsAnswered (some (pin_id, level)) asks reads drop =
        if_cases (IsAnswered c) (not (c.config).has_io_write)
          (λ none_there.
            refusal Status.domain_peripheral Status.not_supported refl
              (Refuses.no_write asks (ground arith)))
          (λ there.
            answer_status-IsAnswered (Call.io_write pin_id level _) _ (asks, reads, refl, refl))

    pub adc_read-IsAnswered :
        (decoded : Option ℕ)
        → (request.method_id == Method.adc_read) ≡ true
        → p.decode_adc_read_request message ≡ decoded
        → (is_given decoded ≡ false → decodes ≡ false)
        → IsAnswered c (adc_read p c request decoded)
    unfolding adc_read
    adc_read-IsAnswered none asks reads drop = IsAnswered.dropped (drop refl)
    adc_read-IsAnswered (some pin_id) asks reads drop =
        let status = (p.adc_read c.trace pin_id).0 in
        if_cases (IsAnswered c) (is_status_ok status)
          (λ good. IsAnswered.voltage_told pin_id status (asks, reads, refl, refl) good success)
          (λ bad. failure (Call.adc_read pin_id status) status (asks, reads, refl, refl) bad)
