-- ===== src/Coproc/Services/Kv.antt =====
-- The key-value store: `handle_kv_request` of coproc-core/src/coproc_kv.c. A text is the list of its
-- bytes before the terminator.
pub mod Texts
use mathlib.Core.Option
use wl_hosted_core.Prelude.{
  ℕ, Bool, true, false, not, ◌&&◌, ◌||◌, List, [], ◌∷◌, Option, none, some, ltb, ◌==◌,
  if◌then◌else◌, length, take,
}
use wl_hosted_core.Prelude.Word.{ℤ}
use wl_hosted_core.Protocol.Result.{null}
use wl_hosted_core.Protocol.Ids.Method
use wl_hosted_core.Protocol.Ids.Status
use wl_hosted_core.Protocol.Rpc.{RpcEnvelope, is_status_ok}
use wl_hosted_core.Coproc.Types.{CoprocResult, Call, Platform, Coproc}
use wl_hosted_core.Coproc.Types.Messages.{kv_read_response}
use wl_hosted_core.Coproc.Effects.{record_call, alloc_buffer, free_buffer}
use wl_hosted_core.Coproc.Send.{send_rpc, send_rpc_message}
use wl_hosted_core.Coproc.Services.Errors.{
  service_invalid_argument, service_not_supported, service_internal, response_to,
  send_service_error,
}
use wl_hosted_core.Coproc.Services.Utf8.{utf8_valid}

-- WLH_COPROC_KV_MAX_VALUE_SIZE
abbrev pub kv_max_value_size : ℕ
kv_max_value_size = 512

-- The members of the union `kv_message_t` that a request fills.
pub data KvRequest : Type 0 where
  read : List ℕ → KvRequest
  write : List ℕ → List ℕ → KvRequest
  erase : List ℕ → KvRequest

-- The value that was read, or the status with which the request ends.
pub data KvOutcome : Type 0 where
  found : List ℕ → KvOutcome
  ended : ℤ → KvOutcome

-- Every message puts the key first.
abbrev pub kv_key : KvRequest → List ℕ
kv_key (KvRequest.read key) = key
kv_key (KvRequest.write key value) = key
kv_key (KvRequest.erase key) = key

module _ (p : Platform) where
  abbrev pub kv_decode : ℕ → List ℕ → Option KvRequest
  kv_decode method_id message =
      if method_id == Method.kv_read
      then Option.map KvRequest.read (p.decode_kv_read_request message)
      else if method_id == Method.kv_write
      then Option.map (λ (t : List ℕ × List ℕ). KvRequest.write t.0 t.1)
          (p.decode_kv_write_request message)
      else Option.map KvRequest.erase (p.decode_kv_erase_request message)

  -- What the backend has read: a value out of bounds or no UTF-8 does not go out.
  abbrev pub kv_found : ℤ → List ℕ → ℕ → KvOutcome
  kv_found status value value_size =
      if not (is_status_ok status)
      then KvOutcome.ended status
      else if ltb kv_max_value_size value_size || not (utf8_valid (take value_size value))
      then KvOutcome.ended service_internal
      else KvOutcome.found (take value_size value)

  -- The second `switch`.
  unfoldable pub kv_perform : Coproc → KvRequest → KvOutcome × Coproc
  kv_perform c (KvRequest.read key) =
      let (status, value, value_size) = p.kv_read c.trace key in
      if not (c.config).has_kv_read
      then (KvOutcome.ended service_not_supported, c)
      else (kv_found status value value_size, record_call (Call.kv_read key status) c)
  kv_perform c (KvRequest.write key value) =
      let status = p.kv_write c.trace key value in
      if not (utf8_valid value)
      then (KvOutcome.ended service_invalid_argument, c)
      else if not (c.config).has_kv_write
      then (KvOutcome.ended service_not_supported, c)
      else (KvOutcome.ended status, record_call (Call.kv_write key value status) c)
  kv_perform c (KvRequest.erase key) =
      let status = p.kv_erase c.trace key in
      if not (c.config).has_kv_erase
      then (KvOutcome.ended service_not_supported, c)
      else (KvOutcome.ended status, record_call (Call.kv_erase key status) c)

  -- With the check of the key before it.
  unfoldable pub kv_checked : Coproc → KvRequest → KvOutcome × Coproc
  kv_checked c kv =
      if length (kv_key kv) == 0 || not (utf8_valid (kv_key kv))
      then (KvOutcome.ended service_invalid_argument, c)
      else kv_perform c kv

  -- What goes out. The buffer holds the response until that is sent, and is freed before a status.
  unfoldable pub kv_answer : RpcEnvelope → KvOutcome × Coproc → CoprocResult × Coproc
  kv_answer request (KvOutcome.found value, c) =
      let (result, c1) =
        send_rpc_message p c (response_to request Status.domain_none Status.ok)
          (kv_read_response value) in
      (result, free_buffer p c1)
  kv_answer request (KvOutcome.ended status, c) =
      let c1 = free_buffer p c in
      if is_status_ok status
      then send_rpc p c1 (response_to request Status.domain_none Status.ok) (null 0)
      else send_service_error p c1 request Status.domain_storage status

  unfoldable pub kv_decoded : Coproc → RpcEnvelope → Option KvRequest → CoprocResult × Coproc
  kv_decoded c request none = (CoprocResult.protocol_error, free_buffer p c)
  kv_decoded c request (some kv) = kv_answer request (kv_checked c kv)

  unfoldable pub handle_kv_request : Coproc → RpcEnvelope → List ℕ → CoprocResult × Coproc
  handle_kv_request c request message =
      let (allocated, c1) = alloc_buffer p c p.sizeof_kv_message in
      if not (
        request.method_id == Method.kv_read
        || request.method_id == Method.kv_write
        || request.method_id == Method.kv_erase)
      then send_rpc p c (response_to request Status.domain_protocol Status.not_supported) (null 0)
      else if not allocated
      then (CoprocResult.backend_error, c1)
      else kv_decoded c1 request (kv_decode request.method_id message)
