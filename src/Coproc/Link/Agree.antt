-- ===== src/Coproc/Link/Agree.antt =====
-- What both sides hold after negotiation: `send_hello_response` of coproc-core/src/coproc_link.c.
use wl_hosted_core.Prelude.{
  ℕ, ◌≡◌, ◌≢◌, refl, sym, subst, if_cases, arith, true, List, [], ◌∷◌, ◌==◌, Bool, false, leb, ◌||◌,
  Bool-cases, inl, inr, if◌then◌else◌,
}
use wl_hosted_core.Prelude.{All}
use wl_hosted_core.Protocol.Ids.Service
use wl_hosted_core.Protocol.Rpc.{RpcEnvelope}
use wl_hosted_core.Coproc.Types.{CoprocResult, CoprocState, Call, Platform, Coproc, same_state}
use wl_hosted_core.Coproc.Types.Messages.{CreditUpdate, hello_response}
use wl_hosted_core.Coproc.Effects.{is_ok, record_call, alloc_buffer, free_buffer, set_state}
use wl_hosted_core.Coproc.Send.{send_rpc_message}
use wl_hosted_core.Coproc.Send.Reserved.{send_rpc_message-credit}
use wl_hosted_core.Coproc.Ota.Transfer.{take_number}
use wl_hosted_core.Coproc.Link.Hello.{
  announced_credits, take_credits, response_of, start_session, send_hello_response,
}

-- The units that a list of initial credits gives a channel.
abbrev pub credit_of : List CreditUpdate → ℕ → ℕ
credit_of [] k = 0
credit_of (u ∷ us) k = let rest = credit_of us k in if u.channel_id == k then u.units else rest

-- The channels that a session of the core uses: all that the protocol defines, but the diagnostic, log
-- and passthrough streams.
abbrev pub session_channels : List ℕ
session_channels = 0 ∷ 1 ∷ 2 ∷ 3 ∷ 4 ∷ 5 ∷ 9 ∷ 10 ∷ []

abbrev pub is_session_channel : ℕ → Bool
is_session_channel k = leb k 5 || k == 9 || k == 10

-- Each of these channels has the credit that the peer is told, and any other the one that it had.
abbrev pub Agrees : (ℕ → ℕ) → (ℕ → ℕ) → List CreditUpdate → Type 0
Agrees before credit announced =
    All (λ k. credit k ≡ credit_of announced k) session_channels
    × ((k : ℕ) → is_session_channel k ≡ false → credit k ≡ before k)

take_credits_announced :
    (c : Coproc)
    → All (λ k. (take_credits c).tx_credit k ≡ credit_of (announced_credits c) k) session_channels
unfolding take_credits announced_credits
take_credits_announced c = elim (Bool-cases (c.config).has_bluetooth_hci_send) [
  | inl bluetooth ↦ ground arith
  | inr no_bluetooth ↦ ground arith
]

take_credits_elsewhere :
    (c : Coproc) (k : ℕ)
    → is_session_channel k ≡ false
    → (take_credits c).tx_credit k ≡ c.tx_credit k
unfolding take_credits
take_credits_elsewhere c k other = ground arith

take_credits-Agrees :
    (c : Coproc) → Agrees c.tx_credit (take_credits c).tx_credit (announced_credits c)
take_credits-Agrees c = (take_credits_announced c, take_credits_elsewhere c)

-- A session that has begun with the credits that were announced.
pub record IsBegun (before : ℕ → ℕ) (announced : List CreditUpdate) (c : Coproc) : Type 0 where
  pub state : c.state ≡ CoprocState.ready
  pub session : c.session_id ≢ 0
  pub credits : Agrees before c.tx_credit announced

ready-IsBegun :
    (before : ℕ → ℕ) (c : Coproc) (announced : List CreditUpdate)
    → c.session_id ≢ 0
    → Agrees before c.tx_credit announced
    → IsBegun before announced (set_state c CoprocState.ready)
unfolding set_state
ready-IsBegun before c announced session credits =
    elim (Bool-cases (same_state c.state CoprocState.ready)) [
      | inl already ↦
          rw already
            (record { state = ready_eq c.state already; session = session; credits = credits })
      | inr other ↦ rw other (record { state = refl; session = session; credits = credits })
    ]
  where
    ready_eq : (s : CoprocState) → same_state s CoprocState.ready ≡ true → s ≡ CoprocState.ready
    ready_eq s e = ground arith

take_number_ne_zero : (n : ℕ) → (take_number n).0 ≢ 0
take_number_ne_zero n e = ground arith

-- What an operation does if it succeeds. It computes only where it is unfolded.
unfoldable BeginsOut : (ℕ → ℕ) → List CreditUpdate → CoprocResult × Coproc → Type 0
BeginsOut before announced out = is_ok out.0 ≡ true → IsBegun before announced out.1

module _ (p : Platform) where
  start_session-BeginsOut :
      (before : ℕ → ℕ) (c : Coproc) (announced : List CreditUpdate) (n : ℕ)
      (out : CoprocResult × Coproc)
      → n ≢ 0
      → Agrees before (out.1).tx_credit announced
      → BeginsOut before announced (start_session p c n out)
  unfolding start_session BeginsOut free_buffer
  start_session-BeginsOut before c announced n (result, c1) session credits =
      elim (Bool-cases (is_ok result)) [
        | inl good ↦ rw good (λ ok.
            ready-IsBegun before (record_call Call.free (record c1 { session_id = n })) announced
              session credits)
        | inr bad ↦ rw bad (λ ok. cc)
      ]

  announced-alloc_buffer :
      (c : Coproc) (size : ℕ) → announced_credits (alloc_buffer p c size).1 ≡ announced_credits c
  unfolding announced_credits alloc_buffer
  announced-alloc_buffer c size = elim (Bool-cases (p.alloc_ok c.trace size)) [
    | inl allocated ↦ rw allocated refl
    | inr refused ↦ rw refused refl
  ]

  credit-alloc_buffer : (c : Coproc) (size : ℕ) → (alloc_buffer p c size).1.tx_credit ≡ c.tx_credit
  unfolding alloc_buffer
  credit-alloc_buffer c size = elim (Bool-cases (p.alloc_ok c.trace size)) [
    | inl allocated ↦ rw allocated refl
    | inr refused ↦ rw refused refl
  ]

  answered-BeginsOut :
      (c : Coproc) (e : RpcEnvelope)
      → e.service_id ≡ Service.link
      → let (n, next) = take_number c.next_session_id in
        let c2 = record (take_credits c) { next_session_id = next; session_id = 0 } in
        BeginsOut c.tx_credit
          (announced_credits c)
          (start_session p c2 n (send_rpc_message p c2 e (hello_response (response_of c n))))
  answered-BeginsOut c e link =
      let (n, next) = take_number c.next_session_id in
      let c2 = record (take_credits c) { next_session_id = next; session_id = 0 } in
      let message = hello_response (response_of c n) in
      let kept = send_rpc_message-credit p e link c2 message in
      start_session-BeginsOut c.tx_credit c2 (announced_credits c) n
        (send_rpc_message p c2 e message) (take_number_ne_zero c.next_session_id)
        (subst (λ credit. Agrees c.tx_credit credit (announced_credits c)) (sym kept)
          (take_credits-Agrees c))

  refused-BeginsOut :
      (before : ℕ → ℕ) (c : Coproc) (announced : List CreditUpdate)
      → BeginsOut before announced (CoprocResult.backend_error, c)
  unfolding BeginsOut
  refused-BeginsOut before c announced = λ ok. cc

  hello-BeginsOut :
      (c : Coproc) (request_id : ℕ)
      → BeginsOut c.tx_credit (announced_credits c) (send_hello_response p c request_id)
  unfolding send_hello_response
  hello-BeginsOut c request_id =
      let c1 = (alloc_buffer p c p.sizeof_hello_response).1 in
      let out = send_hello_response p c request_id in
      subst (λ announced. BeginsOut c.tx_credit announced out)
        (announced-alloc_buffer c p.sizeof_hello_response)
        (subst (λ before. BeginsOut before (announced_credits c1) out)
          (credit-alloc_buffer c p.sizeof_hello_response)
          (if_cases (BeginsOut c1.tx_credit (announced_credits c1))
            (alloc_buffer p c p.sizeof_hello_response).0 (λ allocated. answered-BeginsOut c1 _ refl)
            (λ refused. refused-BeginsOut c1.tx_credit c1 (announced_credits c1))))

  -- A response that was sent begins a session: its number is not 0, the coprocessor is ready, and
  -- each of the channels 0 to 5, 9 and 10, the link's, control, Ethernet, Bluetooth and OTA ones,
  -- has just the credit that the response announces for it, or none if it announces none, while any
  -- other keeps the credit that it had.
  pub send_hello_response-IsBegun :
      (c : Coproc) (request_id : ℕ)
      → is_ok (send_hello_response p c request_id).0 ≡ true
      → IsBegun c.tx_credit (announced_credits c) (send_hello_response p c request_id).1
  unfolding BeginsOut
  send_hello_response-IsBegun c request_id = hello-BeginsOut c request_id
