-- ===== src/Coproc/Bluetooth/Hci/Deliver.antt =====
-- A frame of HCI packets is delivered as a whole, or it stops the controller and none is.
use wl_hosted_core.Prelude.{
  ℕ, zero, suc, ◌≡◌, ◌⊎◌, inl, inr, refl, ap, subst, ◌∙◌, arith, Bool, true, false, not, ◌||◌, ◌&&◌,
  List, [], ◌∷◌, ◌++◌, ◌==◌, if◌then◌else◌, length, Bool-cases, if_cases,
}
use wl_hosted_core.Prelude.Word.{ℤ, pos, negsuc, u8}
use wl_hosted_core.Protocol.Result.{WireResult}
use wl_hosted_core.Protocol.Ids.Channel
use wl_hosted_core.Protocol.Rpc.{is_status_ok}
use wl_hosted_core.Protocol.RawRecord.{RawRecordView}
use wl_hosted_core.Protocol.RawRecord.Records.{is_end, records_of}
use wl_hosted_core.Coproc.Types.{CoprocResult, Call, Trace, Platform, Coproc}
use wl_hosted_core.Coproc.Effects.{record_call}
use wl_hosted_core.Coproc.Effects.Quiet.{hci_log}
use wl_hosted_core.Coproc.Send.Quiet.{send_rpc_message-Quiet, send_credit_update-Quiet}
use wl_hosted_core.Coproc.Link.Hello.{bluetooth_backend_present}
use wl_hosted_core.Coproc.Bluetooth.{bt_error, bluetooth_enter_error}
use wl_hosted_core.Coproc.Bluetooth.Hci.{
  hci_record_valid, hci_check, count_hci_malformed, malformed_hci, deliver_hci, process_hci_frame,
}

-- The log, the latest first, behind the packets of these records.
abbrev pub taken_onto : List RawRecordView → List (ℕ × List ℕ) → List (ℕ × List ℕ)
taken_onto [] log = log
taken_onto (v ∷ vs) log = taken_onto vs ((u8 v.record_type, v.payload) ∷ log)

-- The last call has offered the controller the first of the records that are left, and it was refused.
abbrev pub IsRefused : List RawRecordView → Trace → Type 0
IsRefused [] t = ⊥
IsRefused (v ∷ vs) t =
    (status : ℤ) × (earlier : Trace) × (is_status_ok status ≡ false)
    × (t ≡ Call.hci_send (u8 v.record_type) v.payload status ∷ earlier)

-- The controller has taken the first of the records, all unless it has refused one.
abbrev pub Delivers : Coproc → List RawRecordView → Bool × Coproc → Type 0
Delivers c vs out =
    (taken : List RawRecordView) × (left : List RawRecordView) × (vs ≡ taken ++ left)
    × (hci_log (out.1).trace ≡ taken_onto taken (hci_log c.trace))
    × (if out.0 then (left ≡ []) else IsRefused left out.1.trace)

abbrev pub all_valid : List RawRecordView → Bool
all_valid [] = true
all_valid (v ∷ vs) = hci_record_valid v && all_valid vs

-- A frame of records, not empty, all of them valid.
abbrev pub is_well_formed : List ℕ → Bool
is_well_formed payload =
    let (code, views) = records_of payload in
    not (length payload == 0) && is_end code && all_valid views

abbrev pub IsWhole : Bool → Coproc → List RawRecordView → CoprocResult × Coproc → Type 0
IsWhole true c views out =
    (taken : List RawRecordView) × (left : List RawRecordView) × (views ≡ taken ++ left)
    × (hci_log (out.1).trace ≡ taken_onto taken (hci_log c.trace))
    × ((left ≡ []) ⊎ ((out.0 ≡ CoprocResult.backend_error) × IsRefused left (out.1).trace))
IsWhole false c views out =
    (out.0 ≡ CoprocResult.protocol_error)
    × (hci_log (out.1).trace ≡ hci_log c.trace)
    × ((out.1).bluetooth_state ≡ bt_error)
    × ((out.1).bluetooth_hci_stopped ≡ true)

log-taken :
    (t : List Call) (h4_type : ℕ) (packet : List ℕ) (status : ℤ)
    → is_status_ok status ≡ true
    → hci_log (Call.hci_send h4_type packet status ∷ t) ≡ (h4_type, packet) ∷ hci_log t
log-taken t h4_type packet (pos zero) good = refl
log-taken t h4_type packet (pos (suc n)) good = absurd (ground arith)
log-taken t h4_type packet (negsuc n) good = cc

log-refused :
    (t : List Call) (h4_type : ℕ) (packet : List ℕ) (status : ℤ)
    → is_status_ok status ≡ false
    → hci_log (Call.hci_send h4_type packet status ∷ t) ≡ hci_log t
log-refused t h4_type packet (pos zero) bad = cc
log-refused t h4_type packet (pos (suc n)) bad = refl
log-refused t h4_type packet (negsuc n) bad = refl

by_result : {X Y : Type 0} (b : Bool) → (if b then X else Y) → (b ≡ true → X) × (b ≡ false → Y)
by_result true x = (λ _. x, λ e. cc)
by_result false y = (λ e. cc, λ _. y)

-- The first loop ends well exactly where all records are valid and nothing is left behind them.
is_end-hci_check :
    (code : WireResult) (vs : List RawRecordView)
    → is_end (hci_check code vs) ≡ (is_end code && all_valid vs)
unfolding hci_check
is_end-hci_check code [] = ground arith
is_end-hci_check code (v ∷ vs) =
    let rest = is_end-hci_check code vs in
    elim (Bool-cases (hci_record_valid v)) [
      | inl valid ↦ rw valid rest
      | inr invalid ↦ rw invalid (ground arith)
    ]

module _ (p : Platform) where
  deliver_hci-Delivers : (c : Coproc) (vs : List RawRecordView) → Delivers c vs (deliver_hci p c vs)
  unfolding deliver_hci
  deliver_hci-Delivers c [] = ([], [], refl, refl, refl)
  deliver_hci-Delivers c (v ∷ vs) =
      let status = p.hci_send c.trace (u8 v.record_type) v.payload in
      let c1 = record_call (Call.hci_send (u8 v.record_type) v.payload status) c in
      elim (Bool-cases (is_status_ok status)) [
        | inl good ↦ rw good (
            let (taken, left, all, log, done) = deliver_hci-Delivers c1 vs in
            (
              v ∷ taken,
              left,
              ap (λ t. v ∷ t) all,
              log
                  ∙ ap (taken_onto taken)
                      (log-taken c.trace (u8 v.record_type) v.payload status good),
              done,
            ))
        | inr bad ↦ rw bad (
          [],
          v ∷ vs,
          refl,
          log-refused c.trace (u8 v.record_type) v.payload status bad,
          (status, c.trace, bad, refl),
        )
      ]

  enter_error_lem :
      (c : Coproc) (reason : ℕ)
      → let d = bluetooth_enter_error p c reason in
        (hci_log d.trace ≡ hci_log c.trace)
        × (d.bluetooth_state ≡ bt_error)
        × (d.bluetooth_hci_stopped ≡ true)
  unfolding bluetooth_enter_error
  enter_error_lem c reason =
      let quiet = send_rpc_message-Quiet p _ _ _ in
      (quiet.hci_packets, quiet.bluetooth_state, quiet.bluetooth_hci_stopped)

  -- While the controller runs: a frame with records, all of them valid, is delivered in its order,
  -- up to a packet that the controller refuses, which the result then says; any other frame delivers
  -- nothing, stops the controller's packets and leads to the error state.
  pub process_hci_frame-IsWhole :
      (c : Coproc) (payload : List ℕ)
      → bluetooth_backend_present c ≡ true
      → c.bluetooth_hci_stopped ≡ false
      → IsWhole (is_well_formed payload) c (records_of payload).1 (process_hci_frame p c payload)
  unfolding process_hci_frame
  process_hci_frame-IsWhole c payload present running =
      let (code, views) = records_of payload in
      let (delivered, c1) = deliver_hci p c views in
      let (taken, left, all, log, done) = deliver_hci-Delivers c views in
      let credit = send_credit_update-Quiet p c1 Channel.bluetooth_hci 1 in
      let failed = enter_error_lem (count_hci_malformed c) malformed_hci in
      let bad = length payload == 0 || not (is_end (hci_check code views)) in
      let same : not bad ≡ is_well_formed payload = ground (arith, is_end-hci_check code views) in
      subst (λ good. IsWhole good c views (process_hci_frame p c payload)) same
        (if_cases (IsWhole (not bad) c views) (not (bluetooth_backend_present c))
          (λ absent. absurd (ground arith))
          (λ _.
            if_cases (IsWhole (not bad) c views) c.bluetooth_hci_stopped
              (λ stopped. absurd (ground arith))
              (λ _.
                if_cases (IsWhole (not bad) c views) bad
                  (λ is_bad. rw is_bad (refl, failed.0, failed.1, failed.2))
                  (λ good. rw good (
                    if_cases (IsWhole true c views) (not delivered)
                      (λ part. (
                        taken,
                        left,
                        all,
                        log,
                        inr (refl, (by_result delivered done).1 (ground arith)),
                      ))
                      (λ whole. (
                        taken,
                        left,
                        all,
                        credit.hci_packets ∙ log,
                        inl ((by_result delivered done).0 (ground arith)),
                      )))))))
