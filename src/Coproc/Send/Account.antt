-- ===== src/Coproc/Send/Account.antt =====
-- What a frame costs: coproc-core/src/coproc_wire.c, `send_payload_units`.
use wl_hosted_core.Prelude.{
  ℕ, ◌+◌, ◌-◌, ◌≡◌, refl, arith, ◌||◌, ◌&&◌, not, List, some, ltb, ◌==◌, Bool-cases, inl, inr,
  length, update, if◌then◌else◌,
}
use wl_hosted_core.Protocol.Ids.{frame_header_size}
use wl_hosted_core.Protocol.Frame.{frame_encode}
use wl_hosted_core.Protocol.Result.{Wire, accept, reject, bytes}
use wl_hosted_core.Coproc.Types.{CoprocResult, CoprocState, Call, Platform, Coproc}
use wl_hosted_core.Coproc.Effects.{is_ok, record_call, increment, set_state}
use wl_hosted_core.Coproc.Send.{is_reserved, next_header, submit_frame, send_payload_units}

-- The account of a sent frame: the next number of its channel, and its price unless the channel is
-- the link's.
abbrev pub Paid : Coproc → Coproc → ℕ → ℕ → Type 0
Paid c c' channel units =
    (c'.tx_sequence ≡ update c.tx_sequence channel (increment (c.tx_sequence channel)))
    × (c'.tx_credit ≡ (
        if is_reserved channel
        then c.tx_credit
        else update c.tx_credit channel (c.tx_credit channel - units)))

-- The account of a frame that is not sent.
abbrev pub Unpaid : Coproc → Coproc → Type 0
Unpaid c c' = (c'.tx_sequence ≡ c.tx_sequence) × (c'.tx_credit ≡ c.tx_credit)

abbrev pub Account : Coproc → CoprocResult × Coproc → ℕ → ℕ → Type 0
Account c out channel units = if is_ok out.0 then Paid c out.1 channel units else Unpaid c out.1

congested-Unpaid : (c : Coproc) → Unpaid c (set_state c CoprocState.congested)
unfolding set_state
congested-Unpaid c = ground arith

module _ (p : Platform) where
  submit_frame-Account :
      (c : Coproc) (channel units : ℕ) (w : Wire (List ℕ))
      → Account c (submit_frame p c channel units w) channel units
  unfolding submit_frame
  submit_frame-Account c channel units (reject code) = (refl, refl)
  submit_frame-Account c channel units (accept frame) =
      elim (Bool-cases (p.submit_ok c.trace frame)) [
        | inl sent ↦ rw sent (refl, refl)
        | inr refused ↦ rw refused (refl, refl)
      ]

module _ (p : Platform) (c : Coproc) (channel : ℕ) (payload : List ℕ) (units : ℕ) where
  -- A frame that is sent takes the next sequence number of its channel and, unless the channel is
  -- the link's, `units` of that channel's credit; no other number or credit changes. A frame that
  -- is not sent, for whatever reason, leaves all numbers and credits as they were.
  pub send_payload_units-Account :
      Account c (send_payload_units p c channel payload units) channel units
  unfolding send_payload_units
  send_payload_units-Account =
      let size = frame_header_size + length payload in
      let c1 = record_call (Call.alloc size) c in
      let w = frame_encode (some (next_header c1 channel)) (bytes payload) size in
      elim (Bool-cases (ltb (c.config).max_frame_size size || units == 0)) [
        | inl bad ↦ rw bad (refl, refl)
        | inr good ↦
            rw good
              (elim (Bool-cases (not (is_reserved channel) && ltb (c.tx_credit channel) units)) [
                | inl poor ↦ rw poor (congested-Unpaid c)
                | inr rich ↦ rw rich (elim (Bool-cases (p.alloc_ok c.trace size)) [
                  | inl allocated ↦ rw allocated (submit_frame-Account p c1 channel units w)
                  | inr refused ↦ rw refused (refl, refl)
                ])
              ])
      ]
