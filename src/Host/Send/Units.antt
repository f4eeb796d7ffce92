-- ===== src/Host/Send/Units.antt =====
-- What a frame costs: host-core/src/host_wire.c, `send_payload_frame_units`.
use wl_hosted_core.Prelude.{
  ℕ, ◌+◌, ◌-◌, ◌≤◌, ◌≡◌, ◌⊎◌, refl, arith, Bool, true, false, ◌&&◌, ◌||◌, not, List, some, ltb,
  ◌==◌, Bool-cases, inl, inr, length, update, if◌then◌else◌,
}
use wl_hosted_core.Prelude.Word.{u16_max}
use wl_hosted_core.Protocol.Ids.{frame_header_size}
use wl_hosted_core.Protocol.Frame.{frame_encode}
use wl_hosted_core.Protocol.Result.{Wire, accept, reject, bytes}
use wl_hosted_core.Host.Types.{HostResult, HostState, Call, Platform, Host}
use wl_hosted_core.Host.Effects.{record_call, increment}
use wl_hosted_core.Host.Effects.Kept.{set_state-KeptTx}
use wl_hosted_core.Host.Send.{is_ok, next_header, submit_frame, send_payload_frame_units}

-- The account of a sent frame: the next number of its channel, and its price unless reserved.
abbrev pub Paid : Host → Host → ℕ → Bool → ℕ → Type 0
Paid h h' channel reserved units =
    (h'.tx_sequence ≡ update h.tx_sequence channel (increment (h.tx_sequence channel)))
    × (h'.tx_credit ≡ (
        if reserved then h.tx_credit else update h.tx_credit channel (h.tx_credit channel - units)))

-- The account of a frame that is not sent.
abbrev pub Unpaid : Host → Host → Type 0
Unpaid h h' = (h'.tx_sequence ≡ h.tx_sequence) × (h'.tx_credit ≡ h.tx_credit)

abbrev pub Account : Host → HostResult × Host → ℕ → Bool → ℕ → Type 0
Account h out channel reserved units =
    if is_ok out.0 then Paid h out.1 channel reserved units else Unpaid h out.1

module _ (p : Platform) where
  submit_frame-Account :
      (h : Host) (channel : ℕ) (reserved : Bool) (units : ℕ) (w : Wire (List ℕ))
      → Account h (submit_frame p h channel reserved units w) channel reserved units
  unfolding submit_frame
  submit_frame-Account h channel reserved units (reject code) = (refl, refl)
  submit_frame-Account h channel reserved units (accept frame) =
      elim (Bool-cases (p.submit_ok h.trace frame)) [
        | inl sent ↦ rw sent (refl, refl)
        | inr refused ↦ rw refused (refl, refl)
      ]

module _ (p : Platform) (h : Host) (channel : ℕ) (payload : List ℕ) (reserved : Bool)
    (units : ℕ) where
  -- A frame that is sent takes the next sequence number of its channel and, unless it is reserved,
  -- `units` of that channel's credit; no other number or credit changes. A frame that is not sent,
  -- for whatever reason, leaves all numbers and credits as they were.
  pub send_payload_frame_units-Account :
      Account h (send_payload_frame_units p h channel payload reserved units) channel reserved units
  unfolding send_payload_frame_units
  send_payload_frame_units-Account =
      let size = frame_header_size + length payload in
      let h1 = record_call (Call.alloc size) h in
      let w = frame_encode (some (next_header h1 channel)) (bytes payload) size in
      let poor-Unpaid = set_state-KeptTx p h HostState.congested in
      elim (Bool-cases
        (ltb (h.config).max_frame_size size || ltb u16_max (length payload) || units == 0)) [
          | inl bad ↦ rw bad (refl, refl)
          | inr good ↦
              rw good (elim (Bool-cases (not reserved && ltb (h.tx_credit channel) units)) [
                | inl poor ↦ rw poor (poor-Unpaid.tx_sequence, poor-Unpaid.tx_credit)
                | inr rich ↦ rw rich (elim (Bool-cases (p.alloc_ok h.trace size)) [
                  | inl allocated ↦
                      rw allocated (submit_frame-Account p h1 channel reserved units w)
                  | inr refused ↦ rw refused (refl, refl)
                ])
              ])
        ]

  poor_refused :
      reserved ≡ false
      → ltb (h.tx_credit channel) units ≡ true
      → is_ok (send_payload_frame_units p h channel payload reserved units).0 ≡ false
  unfolding send_payload_frame_units
  poor_refused unreserved poor =
      let size = frame_header_size + length payload in
      rw unreserved (
        rw poor
          (elim (Bool-cases
            (ltb (h.config).max_frame_size size || ltb u16_max (length payload) || units == 0)) [
              | inl bad ↦ rw bad refl
              | inr good ↦ rw good refl
            ]))

  -- Only a reserved frame, or one whose channel has the credit for it, is sent.
  pub send_payload_frame_units-affordable :
      is_ok (send_payload_frame_units p h channel payload reserved units).0 ≡ true
      → (reserved ≡ true) ⊎ (units ≤ h.tx_credit channel)
  send_payload_frame_units-affordable sent = elim (Bool-cases reserved) [
    | inl free ↦ inl free
    | inr charged ↦ elim (Bool-cases (ltb (h.tx_credit channel) units)) [
      | inl poor ↦ (let refused = poor_refused charged poor in cc)
      | inr rich ↦ inr (ground arith)
    ]
  ]
