-- ===== src/Host/Link/Credit.antt =====
-- Credit that the peer grants, and the terms that it settles.
use wl_hosted_core.Prelude.{
  ℕ, suc, ◌+◌, ◌-◌, ◌%◌, ◌≤◌, ◌<◌, ◌≡◌, ◌∙◌, ap, arith, Bool, true, ◌&&◌, List, [], ◌∷◌, some, ◌==◌,
  if◌then◌else◌, Bool-cases, lt→ltb, inl, inr, update, min,
}
use native.Mathlib.Nat.{add-mod_right, mod-eq_of_lt}
use wl_hosted_core.Prelude.Word.{u32_max}
use wl_hosted_core.Protocol.Ids.{frame_header_size, frame_max_size, raw_record_header_size}
use wl_hosted_core.Protocol.Ids.Channel
use wl_hosted_core.Host.Types.{HostState, Call, Platform, Host, channel_count, max_hci_packet}
use wl_hosted_core.Host.Types.Messages.{CreditUpdate, ChannelCapability, HelloResponse}
use wl_hosted_core.Host.Effects.{same_state}
use wl_hosted_core.Host.Effects.Kept.{KeptTx, KeptTx-trans, set_state-KeptTx, state-set_state}
use wl_hosted_core.Host.Link.{saturating_add, notify_usable, grant_credit, handle_decoded_credit}
use wl_hosted_core.Host.Link.Negotiate.{
  hci_record_limit, bluetooth_terms, size_difference, ota_terms,
}

notify_usable-KeptTx :
    (listening : Bool) (call : Call) (inflight old updated : ℕ) (h : Host)
    → KeptTx h (notify_usable listening call inflight old updated h)
unfolding notify_usable
notify_usable-KeptTx listening call inflight old updated h = ground arith

state-notify_usable :
    (listening : Bool) (call : Call) (inflight old updated : ℕ) (h : Host)
    → (notify_usable listening call inflight old updated h).state ≡ h.state
unfolding notify_usable
state-notify_usable listening call inflight old updated h = ground arith

module _ (p : Platform) (h : Host) (credit : CreditUpdate) where
  abbrev notified : Host
  notified =
      let channel = credit.channel_id in
      let old = h.tx_credit channel in
      let updated = saturating_add old credit.units in
      notify_usable (channel == Channel.ota_stream && (h.config).has_ota_tx_ready) Call.ota_tx_ready
        h.ota_tx_inflight old updated
        (notify_usable (channel == Channel.bluetooth_hci && (h.config).has_hci_tx_ready)
          Call.hci_tx_ready h.bluetooth_tx_inflight old updated
          (record h { tx_credit = update h.tx_credit channel updated }))

  abbrev credited : Host
  credited = record h {
    tx_credit =
        update h.tx_credit credit.channel_id
          (saturating_add (h.tx_credit credit.channel_id) credit.units);
  }

  notified-KeptTx : KeptTx credited notified
  notified-KeptTx =
      let channel = credit.channel_id in
      let old = h.tx_credit channel in
      let updated = saturating_add old credit.units in
      let h2 =
        notify_usable (channel == Channel.bluetooth_hci && (h.config).has_hci_tx_ready)
          Call.hci_tx_ready h.bluetooth_tx_inflight old updated credited in
      KeptTx-trans credited h2 notified
        (notify_usable-KeptTx (channel == Channel.bluetooth_hci && (h.config).has_hci_tx_ready)
          Call.hci_tx_ready h.bluetooth_tx_inflight old updated credited)
        (notify_usable-KeptTx (channel == Channel.ota_stream && (h.config).has_ota_tx_ready)
          Call.ota_tx_ready h.ota_tx_inflight old updated h2)

  state-notified : notified.state ≡ h.state
  state-notified =
      let channel = credit.channel_id in
      let old = h.tx_credit channel in
      let updated = saturating_add old credit.units in
      let h2 =
        notify_usable (channel == Channel.bluetooth_hci && (h.config).has_hci_tx_ready)
          Call.hci_tx_ready h.bluetooth_tx_inflight old updated credited in
      state-notify_usable (channel == Channel.ota_stream && (h.config).has_ota_tx_ready)
        Call.ota_tx_ready h.ota_tx_inflight old updated h2
      ∙ state-notify_usable (channel == Channel.bluetooth_hci && (h.config).has_hci_tx_ready)
          Call.hci_tx_ready h.bluetooth_tx_inflight old updated credited

  tx_credit-grant_credit : (grant_credit p h credit).tx_credit ≡ credited.tx_credit
  unfolding grant_credit
  tx_credit-grant_credit = elim (Bool-cases (same_state h.state HostState.congested)) [
    | inl congested ↦
        rw congested
          ((set_state-KeptTx p notified HostState.ready).tx_credit ∙ notified-KeptTx.tx_credit)
    | inr clear ↦ rw clear notified-KeptTx.tx_credit
  ]

  -- A grant ends congestion and changes no other state.
  state-grant_credit :
      (grant_credit p h credit).state
      ≡ (if same_state h.state HostState.congested then HostState.ready else h.state)
  unfolding grant_credit
  state-grant_credit = elim (Bool-cases (same_state h.state HostState.congested)) [
    | inl congested ↦ rw congested (state-set_state p notified HostState.ready)
    | inr clear ↦ rw clear state-notified
  ]

saturating_add-min :
    (old units : ℕ) → old ≤ u32_max → saturating_add old units ≡ min u32_max (old + units)
saturating_add-min old units small = ground arith

-- A decoded credit update for one of the host's channels raises that channel's credit by its units,
-- up to the largest 32-bit number, leaves every other channel's credit, and makes a congested host
-- ready; any other state stays. The credit is at most the largest 32-bit number before.
pub handle_decoded_credit_lem :
    (p : Platform) (h : Host) (credit : CreditUpdate)
    → credit.channel_id < channel_count
    → h.tx_credit credit.channel_id ≤ u32_max
    → ((handle_decoded_credit p h (some credit)).tx_credit
        ≡ update h.tx_credit credit.channel_id
            (min u32_max (h.tx_credit credit.channel_id + credit.units)))
      × ((handle_decoded_credit p h (some credit)).state
          ≡ (if same_state h.state HostState.congested then HostState.ready else h.state))
unfolding handle_decoded_credit
handle_decoded_credit_lem p h credit bound small =
    rw (lt→ltb credit.channel_id channel_count bound) (
      tx_credit-grant_credit p h credit
          ∙ ap (λ (n : ℕ). update h.tx_credit credit.channel_id n)
              (saturating_add-min (h.tx_credit credit.channel_id) credit.units small),
      state-grant_credit p h credit,
    )

hci_record_limit-le :
    (channels : List ChannelCapability) (limit : ℕ) → hci_record_limit channels limit ≤ limit
unfolding hci_record_limit
hci_record_limit-le [] limit = omega arith
hci_record_limit-le (c ∷ rest) limit =
    ground (arith, hci_record_limit-le rest c.max_frame_payload, hci_record_limit-le rest limit)

-- Where Bluetooth is supported, a record of the settled length fits with both headers into a frame
-- of either side, and into a Bluetooth packet buffer.
pub bluetooth_terms-fit :
    (max_frame_size : ℕ) (hello : HelloResponse)
    → (bluetooth_terms max_frame_size hello).0 ≡ true
    → (frame_header_size + raw_record_header_size + (bluetooth_terms max_frame_size hello).1
        ≤ min max_frame_size hello.max_frame_size)
      × ((bluetooth_terms max_frame_size hello).1 ≤ max_hci_packet)
unfolding bluetooth_terms
bluetooth_terms-fit max_frame_size hello supported =
    ground (arith, hci_record_limit-le hello.channels max_hci_packet)

-- A difference of two `size_t` that does not wrap.
size_difference_exact :
    (size_max a b : ℕ) → b ≤ a → a ≤ size_max → size_difference size_max a b ≡ a - b
size_difference_exact size_max a b below fits =
    let shifted : a + suc size_max - b ≡ a - b + suc size_max = omega arith in
    ap (λ (k : ℕ). k % suc size_max) shifted
    ∙ (add-mod_right (a - b) (suc size_max) ∙ mod-eq_of_lt (omega arith))

payload_limit_exact :
    (size_max max_frame_size : ℕ)
    → frame_header_size + raw_record_header_size ≤ max_frame_size
    → max_frame_size ≤ size_max
    → size_difference size_max
        (size_difference size_max max_frame_size frame_header_size)
        raw_record_header_size
      ≡ max_frame_size - frame_header_size - raw_record_header_size
payload_limit_exact size_max max_frame_size room fits =
    rw (size_difference_exact size_max max_frame_size frame_header_size (omega arith) fits) (
      size_difference_exact size_max (max_frame_size - frame_header_size) raw_record_header_size
        (omega arith) (omega arith))

-- Where OTA is supported, and the host's own frames hold both headers and are no longer than the
-- protocol allows, a record of the settled length fits with both headers into a frame of the host,
-- and is long enough for the header of an OTA record.
pub ota_terms-fit :
    (size_max max_frame_size : ℕ) (hello : HelloResponse)
    → frame_max_size ≤ size_max
    → frame_header_size + raw_record_header_size ≤ max_frame_size
    → max_frame_size ≤ frame_max_size
    → (ota_terms size_max max_frame_size hello).0 ≡ true
    → (frame_header_size + raw_record_header_size + (ota_terms size_max max_frame_size hello).1
        ≤ max_frame_size)
      × (16 ≤ (ota_terms size_max max_frame_size hello).1)
unfolding ota_terms
ota_terms-fit size_max max_frame_size hello wide room limit supported =
    let exact = payload_limit_exact size_max max_frame_size room (omega arith) in
    ground (arith, exact)
