-- ===== src/Coproc/Ethernet/Slots.antt =====
-- Every slot for an Ethernet record is given back, or goes to the worker with its job.
use wl_hosted_core.Prelude.{
  ℕ, ◌+◌, ◌-◌, ◌≡◌, refl, arith, Bool, true, false, not, ◌||◌, List, [], ◌∷◌, ltb, length,
  if◌then◌else◌, if_cases,
}
use wl_hosted_core.Protocol.Result.{Wire, accept, reject, bytes}
use wl_hosted_core.Protocol.Ids.{frame_header_size, raw_record_header_size}
use wl_hosted_core.Protocol.RawRecord.{raw_record_encode}
use wl_hosted_core.Coproc.Types.{CoprocResult, Call, Trace, Platform, Coproc}
use wl_hosted_core.Coproc.Effects.{is_ok, record_call, alloc_buffer, free_buffer, enqueue_job}
use wl_hosted_core.Coproc.Effects.Quiet.{acquired, released, Balanced}
use wl_hosted_core.Coproc.Ethernet.Transmit.{coproc_max_frame_size, queue_ethernet, ethernet_send}
use wl_hosted_core.Coproc.Ethernet.Aggregate.{slots_given}

abbrev pub slots_taken : Trace → ℕ
slots_taken [] = 0
slots_taken (Call.slot_taken true ∷ t) = slots_taken t + 1
slots_taken (_ ∷ t) = slots_taken t

-- From `c` on, `held` more slots were taken than given.
abbrev pub Holds : ℕ → Coproc → Coproc → Type 0
Holds held c d =
    slots_taken d.trace + slots_given c.trace ≡ slots_taken c.trace + slots_given d.trace + held

-- One slot for a job that is queued, none otherwise, and no buffer that nobody frees.
abbrev pub Accounts : Coproc → CoprocResult × Coproc → Type 0
Accounts c out = Holds (if is_ok out.0 then 1 else 0) c out.1 × Balanced 0 c out.1

take_lem :
    (b : Bool) (t : Trace)
    → slots_taken (Call.slot_taken b ∷ t) ≡ slots_taken t + (if b then 1 else 0)
take_lem true t = refl
take_lem false t = omega arith

module _ (p : Platform) where
  alloc_lem :
      (c : Coproc) (size : ℕ)
      → let (allocated, d) = alloc_buffer p c size in
        Holds 0 c d
        × (acquired d.trace ≡ acquired c.trace + (if allocated then 1 else 0))
        × (released d.trace ≡ released c.trace)
  unfolding alloc_buffer
  alloc_lem c size = ground arith

  queue_ethernet-Accounts :
      (c d : Coproc) (channel : ℕ) (data_record : Wire (List ℕ))
      → Holds 1 c (free_buffer p d)
      → Balanced 0 c (free_buffer p d)
      → Accounts c (queue_ethernet p d channel data_record)
  unfolding queue_ethernet free_buffer enqueue_job
  queue_ethernet-Accounts c d channel (reject code) held balanced = ground arith
  queue_ethernet-Accounts c d channel (accept data_record) held balanced = ground arith

  -- Whatever the environment answers: a frame that is accepted has taken one slot for the worker to
  -- give back, and a frame that is not has given back the slot that it took, if it took one; and as
  -- many buffers are freed or handed over as were acquired.
  pub ethernet_send-Accounts :
      (size_max : ℕ) (c : Coproc) (channel : ℕ) (frame : List ℕ)
      → Accounts c (ethernet_send p size_max c channel frame)
  unfolding ethernet_send free_buffer
  ethernet_send-Accounts size_max c channel frame =
      let taken = p.slot_ok c.trace in
      let c1 = record_call (Call.slot_taken taken) c in
      let size = raw_record_header_size + length frame in
      let (allocated, c2) = alloc_buffer p c1 (p.sizeof_data_job + size) in
      if_cases (Accounts c)
        (ltb (coproc_max_frame_size - frame_header_size) (length frame + raw_record_header_size)
          || not c.worker_started)
        (λ _. ground arith)
        (λ _.
          if_cases (Accounts c) (not taken) (λ none_left. ground (arith, take_lem taken c.trace))
            (λ took.
              if_cases (Accounts c) (not allocated)
                (λ refused.
                  ground (arith, take_lem taken c.trace, alloc_lem c1 (p.sizeof_data_job + size)))
                (λ got.
                  queue_ethernet-Accounts c c2 channel
                    (raw_record_encode size_max size 1 0 (bytes frame))
                    (ground
                      (arith, take_lem taken c.trace, alloc_lem c1 (p.sizeof_data_job + size)))
                    (ground (arith, alloc_lem c1 (p.sizeof_data_job + size))))))
