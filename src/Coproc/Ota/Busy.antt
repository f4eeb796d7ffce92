-- ===== src/Coproc/Ota/Busy.antt =====
-- One operation at a time: the requests of coproc-core/src/coproc_ota.c while the backend works.
use wl_hosted_core.Prelude.{
  ℕ, ◌≡◌, refl, Bool, true, false, List, Option, none, some, ◌==◌, if_true, Bool-cases, inl, inr,
  if◌then◌else◌,
}
use wl_hosted_core.Protocol.Result.{null}
use wl_hosted_core.Protocol.Ids.Method
use wl_hosted_core.Protocol.Ids.Status
use wl_hosted_core.Protocol.Rpc.{RpcEnvelope}
use wl_hosted_core.Coproc.Types.{CoprocResult, Platform, Coproc}
use wl_hosted_core.Coproc.Types.Messages.{OtaFinalizeRequest, OtaActivateRequest}
use wl_hosted_core.Coproc.Effects.Quiet.{Quiet, Quiet-refl}
use wl_hosted_core.Coproc.Send.{send_rpc}
use wl_hosted_core.Coproc.Send.Quiet.{send_rpc-Quiet, send_rpc_message-Quiet}
use wl_hosted_core.Coproc.Ota.Transfer.{send_ota_status, answer}
use wl_hosted_core.Coproc.Ota.Requests.{
  handle_ota_begin, handle_decoded_finalize, handle_ota_finalize, handle_decoded_abort,
  handle_ota_abort, handle_decoded_activate, handle_ota_activate, handle_ota_query, handle_ota,
}

abbrev pub is_some : {A : Type 0} → Option A → Bool
is_some none = false
is_some (some a) = true

-- A request to begin, or one of the other three operations whose message decodes.
abbrev pub is_operation : Platform → RpcEnvelope → List ℕ → Bool
is_operation p request payload =
    let m = request.method_id in
    if m == Method.ota_begin
    then true
    else if m == Method.ota_finalize
    then is_some (p.decode_ota_finalize_request payload)
    else if m == Method.ota_abort
    then is_some (p.decode_ota_abort_request payload)
    else if m == Method.ota_activate
    then is_some (p.decode_ota_activate_request payload)
    else false

-- What a request does while the backend works on another. The flag tells whether it is for an
-- operation.
unfoldable pub IsDeferred : Platform → Coproc → RpcEnvelope → Bool → CoprocResult × Coproc → Type 0
IsDeferred p c request operation out =
    Quiet 0 c out.1 × (operation ≡ true → out ≡ answer p c request Status.busy)

module _ (p : Platform) (c : Coproc) (request : RpcEnvelope)
    (busy : ((c.ota).pending).active ≡ true) where
  answer-Quiet : Quiet 0 c (answer p c request Status.busy).1
  unfolding send_ota_status
  answer-Quiet = send_rpc-Quiet p c _ (null 0)

  answer-IsDeferred : (b : Bool) → IsDeferred p c request b (answer p c request Status.busy)
  unfolding IsDeferred
  answer-IsDeferred b = (answer-Quiet, λ e. refl)

  -- A handler whose first test is for a pending operation.
  deferred :
      (b : Bool) (rest : CoprocResult × Coproc)
      → IsDeferred p c request b
          (if ((c.ota).pending).active then answer p c request Status.busy else rest)
  deferred b rest =
      if_true (IsDeferred p c request b) ((c.ota).pending).active rest busy (answer-IsDeferred b)

  -- A message that does not decode is no operation.
  undecoded-IsDeferred : IsDeferred p c request false (CoprocResult.protocol_error, c)
  unfolding IsDeferred
  undecoded-IsDeferred = (Quiet-refl c, λ e. cc)

  begin-IsDeferred :
      (payload : List ℕ) → IsDeferred p c request true (handle_ota_begin p c request payload)
  unfolding handle_ota_begin
  begin-IsDeferred payload = deferred true _

  finalize-IsDeferred :
      (o : Option OtaFinalizeRequest)
      → IsDeferred p c request (is_some o) (handle_decoded_finalize p c request o)
  unfolding handle_decoded_finalize
  finalize-IsDeferred none = undecoded-IsDeferred
  finalize-IsDeferred (some message) = deferred true _

  abort-IsDeferred :
      (o : Option ℕ) → IsDeferred p c request (is_some o) (handle_decoded_abort p c request o)
  unfolding handle_decoded_abort
  abort-IsDeferred none = undecoded-IsDeferred
  abort-IsDeferred (some message) = deferred true _

  activate-IsDeferred :
      (o : Option OtaActivateRequest)
      → IsDeferred p c request (is_some o) (handle_decoded_activate p c request o)
  unfolding handle_decoded_activate
  activate-IsDeferred none = undecoded-IsDeferred
  activate-IsDeferred (some message) = deferred true _

  -- The other methods only send.
  query-IsDeferred : IsDeferred p c request false (handle_ota_query p c request)
  unfolding IsDeferred handle_ota_query
  query-IsDeferred = (send_rpc_message-Quiet p c _ _, λ e. cc)

  unknown-IsDeferred : (e : RpcEnvelope) → IsDeferred p c request false (send_rpc p c e (null 0))
  unfolding IsDeferred
  unknown-IsDeferred e = (send_rpc-Quiet p c e (null 0), λ e. cc)

  handled-IsDeferred :
      (payload : List ℕ)
      → IsDeferred p c request (is_operation p request payload) (handle_ota p c request payload)
  unfolding handle_ota handle_ota_finalize handle_ota_abort handle_ota_activate
  handled-IsDeferred payload =
      let m = request.method_id in
      elim (Bool-cases (m == Method.ota_begin)) [
        | inl e ↦ simp e (begin-IsDeferred payload)
        | inr n1 ↦ elim (Bool-cases (m == Method.ota_finalize)) [
          | inl e ↦ simp (n1, e) (finalize-IsDeferred (p.decode_ota_finalize_request payload))
          | inr n2 ↦ elim (Bool-cases (m == Method.ota_abort)) [
            | inl e ↦ simp (n1, n2, e) (abort-IsDeferred (p.decode_ota_abort_request payload))
            | inr n3 ↦ elim (Bool-cases (m == Method.ota_activate)) [
              | inl e ↦
                  simp (n1, n2, n3, e) (activate-IsDeferred (p.decode_ota_activate_request payload))
              | inr n4 ↦ elim (Bool-cases (m == Method.ota_query)) [
                | inl e ↦ simp (n1, n2, n3, n4, e) query-IsDeferred
                | inr n5 ↦ simp (n1, n2, n3, n4, n5) (unknown-IsDeferred _)
              ]
            ]
          ]
        ]
      ]

  -- While the backend works on an operation, no request of any kind changes the transfer or calls
  -- the backend, and a request for another operation, where its message decodes, is answered BUSY.
  pub handle_ota-busy :
      (payload : List ℕ)
      → Quiet 0 c (handle_ota p c request payload).1
        × (is_operation p request payload ≡ true
            → handle_ota p c request payload ≡ answer p c request Status.busy)
  unfolding IsDeferred
  handle_ota-busy payload = handled-IsDeferred payload
