-- ===== src/Host/Link/Session.antt =====
-- A lost transport leaves nothing of the session behind.
use wl_hosted_core.Prelude.{
  ℕ, ◌<◌, ◌≡◌, ◌⊎◌, refl, ◌∙◌, ap, arith, Bool, true, false, ◌||◌, Bool-cases, inl, inr,
}
use wl_hosted_core.Host.Types.{HostResult, HostState, Call, Platform, PendingRpc, Host, max_pending}
use wl_hosted_core.Host.Effects.{record_call, increment, same_state, set_state}
use wl_hosted_core.Host.Effects.Kept.{KeptTx, KeptTx-trans, set_state-KeptTx, state-set_state}
use wl_hosted_core.Host.Pending.{cancel_pending}
use wl_hosted_core.Host.Pending.Cancel.{cancel_pending_frees}
use wl_hosted_core.Host.Link.{
  forget_session, stop_transport, lose_transport, process_transport_lost,
}

-- No session, no credit, no sequence number, nothing supported, and no request that waits.
pub record IsForgotten (h : Host) : Type 0 where
  pub session_id : h.session_id ≡ 0
  pub tx_credit : (channel : ℕ) → h.tx_credit channel ≡ 0
  pub tx_sequence : (channel : ℕ) → h.tx_sequence channel ≡ 0
  pub rx_sequence_valid : (channel : ℕ) → h.rx_sequence_valid channel ≡ false
  pub bluetooth_supported : h.bluetooth_supported ≡ false
  pub bluetooth_tx_inflight : h.bluetooth_tx_inflight ≡ 0
  pub ota_supported : h.ota_supported ≡ false
  pub ota_tx_inflight : h.ota_tx_inflight ≡ 0
  pub idle : (j : ℕ) → j < max_pending → (h.pending j).active ≡ false

IsForgotten-KeptTx : (h h' : Host) → KeptTx h h' → IsForgotten h → IsForgotten h'
IsForgotten-KeptTx h h' k f = record {
  session_id = (k.kept).session_id ∙ f.session_id;
  tx_credit = λ channel. ap (λ (g : ℕ → ℕ). g channel) k.tx_credit ∙ f.tx_credit channel;
  tx_sequence = λ channel. ap (λ (g : ℕ → ℕ). g channel) k.tx_sequence ∙ f.tx_sequence channel;
  rx_sequence_valid = λ channel.
      ap (λ (g : ℕ → Bool). g channel) (k.kept).rx_sequence_valid ∙ f.rx_sequence_valid channel;
  bluetooth_supported = (k.kept).bluetooth_supported ∙ f.bluetooth_supported;
  bluetooth_tx_inflight = (k.kept).bluetooth_tx_inflight ∙ f.bluetooth_tx_inflight;
  ota_supported = (k.kept).ota_supported ∙ f.ota_supported;
  ota_tx_inflight = (k.kept).ota_tx_inflight ∙ f.ota_tx_inflight;
  idle = λ j bound. ap (λ (g : ℕ → PendingRpc). (g j).active) (k.kept).pending ∙ f.idle j bound;
}

-- Where a host goes that stops its transport to start it anew.
abbrev pub IsRestarting : Host → Type 0
IsRestarting h = (h.state ≡ HostState.recovering) ⊎ (h.state ≡ HostState.failed)

-- The test of the early return of `process_transport_lost`.
abbrev pub is_down : Host → Bool
is_down h = same_state h.state HostState.stopping || same_state h.state HostState.uninitialized

KeptTx-record_call : (c : Call) (h : Host) → KeptTx h (record_call c h)
KeptTx-record_call c h = ground arith

module _ (p : Platform) where
  stop_transport-KeptTx : (h : Host) → KeptTx h (stop_transport p h)
  unfolding stop_transport
  stop_transport-KeptTx h =
      let h1 = record_call (Call.transport_stop (p.stop_ok h.trace)) h in
      elim (Bool-cases (p.stop_ok h.trace)) [
        | inl stopped ↦ rw stopped (KeptTx-record_call (Call.transport_stop true) h)
        | inr stuck ↦ rw stuck (
            KeptTx-trans h (record_call (Call.transport_stop false) h) _
              (KeptTx-record_call (Call.transport_stop false) h)
              (set_state-KeptTx p (record_call (Call.transport_stop false) h) HostState.failed))
      ]

  stop_transport-IsRestarting :
      (h : Host) → h.state ≡ HostState.recovering → IsRestarting (stop_transport p h)
  unfolding stop_transport
  stop_transport-IsRestarting h recovering = elim (Bool-cases (p.stop_ok h.trace)) [
    | inl stopped ↦ rw stopped (inl recovering)
    | inr stuck ↦
        rw stuck
          (inr (state-set_state p (record_call (Call.transport_stop false) h) HostState.failed))
  ]

  lose_transport-IsForgotten :
      (h : Host) → IsForgotten (lose_transport p h) × IsRestarting (lose_transport p h)
  unfolding lose_transport forget_session
  lose_transport-IsForgotten h =
      let h1 = record h {
        diagnostics = record (h.diagnostics) {
          transport_resets = increment (h.diagnostics).transport_resets;
        };
      } in
      let h2 = record (forget_session (cancel_pending p h1 HostResult.session_changed)) {
        tx_sequence = λ channel. 0;
      } in
      let h3 = set_state p h2 HostState.recovering in
      let forgotten : IsForgotten h2 = record {
        session_id = refl;
        tx_credit = λ channel. refl;
        tx_sequence = λ channel. refl;
        rx_sequence_valid = λ channel. refl;
        bluetooth_supported = refl;
        bluetooth_tx_inflight = refl;
        ota_supported = refl;
        ota_tx_inflight = refl;
        idle = λ j bound. cancel_pending_frees p h1 HostResult.session_changed j bound;
      } in
      (
        IsForgotten-KeptTx h2 (stop_transport p h3)
            (KeptTx-trans h2 h3 (stop_transport p h3) (set_state-KeptTx p h2 HostState.recovering)
              (stop_transport-KeptTx h3))
            forgotten,
        stop_transport-IsRestarting h3 (state-set_state p h2 HostState.recovering),
      )

module _ (p : Platform) (h : Host) where
  -- A host that is neither stopping nor shut down forgets its session when the transport is lost:
  -- no session number, credit, sequence number or support is left and no request waits, and the
  -- host is recovering, or failed where the transport does not stop.
  pub process_transport_lost_lem :
      is_down h ≡ false
      → IsForgotten (process_transport_lost p h) × IsRestarting (process_transport_lost p h)
  unfolding process_transport_lost
  process_transport_lost_lem up = rw up (lose_transport-IsForgotten p h)
