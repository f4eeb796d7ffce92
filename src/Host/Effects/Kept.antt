-- ===== src/Host/Effects/Kept.antt =====
-- What the effects leave alone.
use wl_hosted_core.Prelude.{ℕ, ◌≡◌, refl, arith, true, List, [], Bool-cases, inl, inr}
use wl_hosted_core.Prelude.Word.{ℤ}
use wl_hosted_core.Host.Types.{
  HostResult, HostState, EventKind, EventPayload, raw, Completion, Platform, Host,
}
use wl_hosted_core.Host.Effects.{
  now_ms, dispatch_event, dispatch_completion, same_state, enter_state, set_state,
}

-- The fields that neither sending nor reporting changes.
pub record Kept (h h' : Host) : Type 0 where
  pub config : h'.config ≡ h.config
  pub session_id : h'.session_id ≡ h.session_id
  pub next_request_id : h'.next_request_id ≡ h.next_request_id
  pub expected_rx_sequence : h'.expected_rx_sequence ≡ h.expected_rx_sequence
  pub rx_sequence_valid : h'.rx_sequence_valid ≡ h.rx_sequence_valid
  pub pending : h'.pending ≡ h.pending
  pub ethernet_rx_pending_credit : h'.ethernet_rx_pending_credit ≡ h.ethernet_rx_pending_credit
  pub ethernet_rx_credit_due_ms : h'.ethernet_rx_credit_due_ms ≡ h.ethernet_rx_credit_due_ms
  pub bluetooth_supported : h'.bluetooth_supported ≡ h.bluetooth_supported
  pub bluetooth_hci_stopped : h'.bluetooth_hci_stopped ≡ h.bluetooth_hci_stopped
  pub bluetooth_tx_inflight : h'.bluetooth_tx_inflight ≡ h.bluetooth_tx_inflight
  pub bluetooth_max_record : h'.bluetooth_max_record ≡ h.bluetooth_max_record
  pub ota_supported : h'.ota_supported ≡ h.ota_supported
  pub ota_max_record : h'.ota_max_record ≡ h.ota_max_record
  pub ota_tx_inflight : h'.ota_tx_inflight ≡ h.ota_tx_inflight

-- Reporting does not touch the sending side either.
pub record KeptTx (h h' : Host) : Type 0 where
  pub kept : Kept h h'
  pub tx_sequence : h'.tx_sequence ≡ h.tx_sequence
  pub tx_credit : h'.tx_credit ≡ h.tx_credit

pub Kept-refl : (h : Host) → Kept h h
Kept-refl h = ground arith

pub KeptTx-refl : (h : Host) → KeptTx h h
KeptTx-refl h = ground arith

pub Kept-trans : (a b c : Host) → Kept a b → Kept b c → Kept a c
Kept-trans a b c x y = ground arith

pub KeptTx-trans : (a b c : Host) → KeptTx a b → KeptTx b c → KeptTx a c
KeptTx-trans a b c x y = ground arith

module _ (p : Platform) (h : Host) where
  pub now_ms-KeptTx : KeptTx h (now_ms p h).1
  unfolding now_ms
  now_ms-KeptTx = ground arith

  pub state-now_ms : (now_ms p h).1.state ≡ h.state
  unfolding now_ms
  state-now_ms = refl

  pub dispatch_event-KeptTx :
      (kind : EventKind) (service_id method_id : ℕ) (payload : EventPayload)
      → KeptTx h (dispatch_event p h kind service_id method_id payload).1
  unfolding dispatch_event
  dispatch_event-KeptTx kind service_id method_id payload = ground arith

  pub state-dispatch_event :
      (kind : EventKind) (service_id method_id : ℕ) (payload : EventPayload)
      → (dispatch_event p h kind service_id method_id payload).1.state ≡ h.state
  unfolding dispatch_event
  state-dispatch_event kind service_id method_id payload = ground arith

  pub dispatch_completion-KeptTx :
      (c : Completion) (r : HostResult) (domain : ℕ) (code : ℤ) (payload : List ℕ)
      → KeptTx h (dispatch_completion p h c r domain code payload)
  unfolding dispatch_completion
  dispatch_completion-KeptTx c r domain code payload = ground arith

  pub state-dispatch_completion :
      (c : Completion) (r : HostResult) (domain : ℕ) (code : ℤ) (payload : List ℕ)
      → (dispatch_completion p h c r domain code payload).state ≡ h.state
  unfolding dispatch_completion
  state-dispatch_completion c r domain code payload = ground arith

same_state_eq : (a b : HostState) → same_state a b ≡ true → a ≡ b
same_state_eq a b e = ground arith

module _ (p : Platform) (h : Host) (s : HostState) where
  entered : KeptTx h (enter_state h s)
  entered = ground arith

  told : Host
  told = (dispatch_event p (enter_state h s) EventKind.state_changed 0 0 (raw [])).1

  told-KeptTx : KeptTx h told
  unfolding told
  told-KeptTx =
      KeptTx-trans h (enter_state h s) told entered
        (dispatch_event-KeptTx p (enter_state h s) EventKind.state_changed 0 0 (raw []))

  pub set_state-KeptTx : KeptTx h (set_state p h s)
  unfolding set_state told
  set_state-KeptTx = elim (Bool-cases (same_state h.state s)) [
    | inl same ↦ rw same (KeptTx-refl h)
    | inr other ↦ rw other told-KeptTx
  ]

  -- The state that is asked for is the state that holds then.
  pub state-set_state : (set_state p h s).state ≡ s
  unfolding set_state
  state-set_state = elim (Bool-cases (same_state h.state s)) [
    | inl same ↦ rw same (same_state_eq h.state s same)
    | inr other ↦
        rw other (state-dispatch_event p (enter_state h s) EventKind.state_changed 0 0 (raw []))
  ]
