-- ===== src/Coproc/Ota/Sound/Chunks.antt =====
-- The invariant of the transfer over `process_ota_frame` and `ota_write_completed` of
-- coproc-core/src/coproc_ota.c.
use wl_hosted_core.Prelude.{
  ℕ, ◌+◌, ◌≡◌, refl, arith, ◌∙◌, ap, Bool, true, false, ◌||◌, not, List, Option, none, some, ltb,
  ◌!=◌, if_cases, Bool-cases, inl, inr, length, length-append, if◌then◌else◌, subst,
}
use wl_hosted_core.Prelude.Word.{ℤ}
use wl_hosted_core.Protocol.Ids.Channel
use wl_hosted_core.Protocol.Rpc.{is_status_ok}
use wl_hosted_core.Coproc.Types.{
  CoprocResult, OtaState, OtaCall, Call, Platform, Coproc, same_ota_state,
}
use wl_hosted_core.Coproc.Effects.{record_call}
use wl_hosted_core.Coproc.Send.Quiet.{send_credit_update-Quiet}
use wl_hosted_core.Coproc.Ota.Transfer.{set_ota, call_ota, ota_fail_transfer, ota_emit_progress}
use wl_hosted_core.Coproc.Ota.Flash.{NextWrite, append}
use wl_hosted_core.Coproc.Ota.Moved.{
  Moved, Moved-trans, Quiet-Moved, ota_fail_transfer-Moved, ota_emit_progress-Moved,
}
use wl_hosted_core.Coproc.Ota.Sound.{
  flash, is_engaged, IsSound, Advances, AdvancesOut, advances_out, Moved-Carries, Moved-Advances,
  engaged-Advances, from_same,
}
use wl_hosted_core.Coproc.Ota.Sound.Requests.{unchanged-Advances}
use wl_hosted_core.Coproc.Ota.Stream.{
  Chunk, chunk_fits, chunk_of, return_credit, reject_chunk, write_chunk, process_chunk,
  process_ota_frame, note_written, ota_write_completed,
}

receiving_engages :
    (c : Coproc) → same_ota_state (c.ota).state OtaState.receiving ≡ true → is_engaged c.ota ≡ true
receiving_engages c receiving = ground arith

second_false : (a b : Bool) → (a || not b) ≡ false → b ≡ true
second_false a b e = ground arith

-- A chunk that fits is the next write, by what the invariant says of the counters.
pub fits-NextWrite :
    (c : Coproc) (chunk : Chunk)
    → IsSound c
    → chunk_fits c chunk ≡ true
    → NextWrite (flash c) chunk.offset chunk.bytes
unfolding chunk_fits
fits-NextWrite c chunk sound fits =
    let receiving : same_ota_state (c.ota).state OtaState.receiving ≡ true = ground arith in
    let tracks = sound.tracked (receiving_engages c receiving) in
    (ground arith, ground arith, ground arith, ground arith)

fits-receiving :
    (c : Coproc) (chunk : Chunk)
    → chunk_fits c chunk ≡ true
    → same_ota_state (c.ota).state OtaState.receiving ≡ true
unfolding chunk_fits
fits-receiving c chunk fits = ground arith

module _ (p : Platform) where
  return_credit-Moved : (c : Coproc) → Moved (c.ota).state c (return_credit p c)
  unfolding return_credit
  return_credit-Moved c =
      Quiet-Moved c (return_credit p c) (send_credit_update-Quiet p c Channel.ota_stream 1)

  -- A transfer fails, and the credit of its frame goes back.
  failed-Moved : (c : Coproc) → Moved OtaState.failed c (return_credit p (ota_fail_transfer p c))
  failed-Moved c =
      let c1 = ota_fail_transfer p c in
      let failed = ota_fail_transfer-Moved p c in
      let returned = return_credit-Moved c1 in
      Moved-trans OtaState.failed OtaState.failed c c1 (return_credit p c1) failed
        (subst (λ s. Moved s c1 (return_credit p c1)) failed.state returned)

  failed-Advances :
      (c : Coproc)
      → is_engaged c.ota ≡ true
      → IsSound c
      → Advances c (return_credit p (ota_fail_transfer p c))
  failed-Advances c engaged sound =
      let c1 = return_credit p (ota_fail_transfer p c) in
      engaged-Advances c c1 (Moved-Carries OtaState.failed c c1 (failed-Moved c)) engaged sound

  reject_chunk-Advances : (c : Coproc) → IsSound c → AdvancesOut c (reject_chunk p c)
  unfolding reject_chunk
  reject_chunk-Advances c sound =
      advances_out c (reject_chunk p c)
        (elim (Bool-cases (
          same_ota_state (c.ota).state OtaState.receiving
          || same_ota_state (c.ota).state OtaState.verifying)) [
            | inl going ↦ rw going (failed-Advances c (ground arith) sound)
            | inr over ↦ rw over (
                Moved-Advances c (return_credit p c) (c.ota).state (return_credit-Moved c) refl
                  sound)
          ])

  -- The state after the backend's answer to a write.
  written : Coproc → Chunk → Bool → Coproc
  written c chunk accepted =
      record_call (Call.ota (OtaCall.write (c.ota).transfer_id chunk.offset chunk.bytes) accepted) c

  appended-Advances :
      (c : Coproc) (chunk : Chunk)
      → chunk_fits c chunk ≡ true
      → IsSound c
      → Advances c (
          set_ota
            (written c chunk true)
            (record (c.ota) { bytes_accepted = (c.ota).bytes_accepted + length chunk.bytes }))
  unfolding written
  appended-Advances c chunk fits sound =
      let next = fits-NextWrite c chunk sound fits in
      let tracks = sound.tracked (receiving_engages c (fits-receiving c chunk fits)) in
      record {
        sound = record {
          ordered = (next, sound.ordered);
          tracked = λ e. (
            length-append (flash c).image chunk.bytes
                ∙ ap (λ (n : ℕ). n + length chunk.bytes) tracks.0,
            tracks.1,
          );
        };
        step = append (flash c) chunk.offset chunk.bytes next;
      }

  unwritten-Advances :
      (c : Coproc) (chunk : Chunk)
      → chunk_fits c chunk ≡ true
      → IsSound c
      → Advances c (return_credit p (ota_fail_transfer p (written c chunk false)))
  unfolding written
  unwritten-Advances c chunk fits sound =
      let engaged = receiving_engages c (fits-receiving c chunk fits) in
      let c1 = written c chunk false in
      let sound1 : IsSound c1 = record {
        ordered = (fits-NextWrite c chunk sound fits, sound.ordered);
        tracked = sound.tracked;
      } in
      from_same c c1 (return_credit p (ota_fail_transfer p c1)) refl
        (failed-Advances c1 engaged sound1)

  write_chunk-Advances :
      (c : Coproc) (chunk : Chunk)
      → chunk_fits c chunk ≡ true
      → IsSound c
      → AdvancesOut c (write_chunk p c chunk)
  unfolding write_chunk call_ota written
  write_chunk-Advances c chunk fits sound =
      let call = OtaCall.write (c.ota).transfer_id chunk.offset chunk.bytes in
      advances_out c (write_chunk p c chunk) (elim (Bool-cases (p.ota_ok c.trace call)) [
        | inl accepted ↦ rw accepted (appended-Advances c chunk fits sound)
        | inr refused ↦ rw refused (unwritten-Advances c chunk fits sound)
      ])

  process_chunk-Advances :
      (c : Coproc) (o : Option Chunk) → IsSound c → AdvancesOut c (process_chunk p c o)
  unfolding process_chunk
  process_chunk-Advances c none sound = reject_chunk-Advances c sound
  process_chunk-Advances c (some chunk) sound =
      if_cases (AdvancesOut c) (chunk_fits c chunk)
        (λ fits. write_chunk-Advances c chunk fits sound) (λ misfits. reject_chunk-Advances c sound)

  -- Whatever bytes arrive on the OTA channel: the invariant holds after them, and either the image
  -- is untouched or the chunk's data is appended to it.
  pub process_ota_frame-Advances :
      (c : Coproc) (payload : List ℕ) → IsSound c → AdvancesOut c (process_ota_frame p c payload)
  unfolding process_ota_frame
  process_ota_frame-Advances c payload sound =
      if_cases (AdvancesOut c) (c.config).has_ota_write
        (λ present. process_chunk-Advances c (chunk_of payload) sound)
        (λ absent. advances_out c (CoprocResult.protocol_error, c) (unchanged-Advances p c sound))

  note_written-Moved :
      (c : Coproc) (bytes_received : ℕ) → Moved (c.ota).state c (note_written p c bytes_received)
  unfolding note_written
  note_written-Moved c bytes_received =
      let received =
        if ltb (c.ota).bytes_received bytes_received
        then bytes_received
        else (c.ota).bytes_received in
      let c1 = set_ota c (record (c.ota) { bytes_received = received }) in
      let noted : Moved (c.ota).state c c1 = ground arith in
      if_cases (Moved (c.ota).state c) _
        (λ due.
          Moved-trans (c.ota).state (c.ota).state c c1 (ota_emit_progress p c1) noted
            (ota_emit_progress-Moved p c1))
        (λ early. noted)

  -- Whatever the backend reports of its writes: the invariant holds after it, and the image is
  -- untouched.
  pub ota_write_completed-Advances :
      (c : Coproc) (transfer_id bytes_received : ℕ) (backend_status : ℤ)
      → IsSound c
      → Advances c (ota_write_completed p c transfer_id bytes_received backend_status)
  unfolding ota_write_completed
  ota_write_completed-Advances c transfer_id bytes_received backend_status sound =
      let c1 = return_credit p c in
      let returned = return_credit-Moved c in
      let credited = Moved-Advances c c1 (c.ota).state returned refl sound in
      let goal = ota_write_completed p c transfer_id bytes_received backend_status in
      from_same c c1 goal (Moved-Carries (c.ota).state c c1 returned).same_flash (
        if_cases (Advances c1)
          (transfer_id != (c1.ota).transfer_id
            || not (same_ota_state (c1.ota).state OtaState.receiving))
          (λ stale. unchanged-Advances p c1 credited.sound)
          (λ current.
            if_cases (Advances c1) (is_status_ok backend_status)
              (λ good.
                Moved-Advances c1 (note_written p c1 bytes_received) (c1.ota).state
                  (note_written-Moved c1 bytes_received) refl credited.sound)
              (λ bad.
                let c2 = ota_fail_transfer p c1 in
                engaged-Advances c1 c2
                  (Moved-Carries OtaState.failed c1 c2 (ota_fail_transfer-Moved p c1))
                  (receiving_engages c1 (
                    second_false (transfer_id != (c1.ota).transfer_id)
                      (same_ota_state (c1.ota).state OtaState.receiving) current))
                  credited.sound)))
