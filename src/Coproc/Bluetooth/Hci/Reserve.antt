-- ===== src/Coproc/Bluetooth/Hci/Reserve.antt =====
-- The credit that a packet from the controller reserves: a packet that is not queued leaves no trace
-- in the counters, and no more packets are queued than the host has paid for.
use wl_hosted_core.Prelude.{
  ℕ, ◌+◌, ◌^◌, ◌<◌, ◌≡◌, refl, sym, subst, ◌∙◌, arith, true, false, not, ◌||◌, List, [], ◌∷◌, ltb,
  leb, ◌==◌, if◌then◌else◌, if_cases, length,
}
use wl_hosted_core.Protocol.Result.{Wire, accept, reject, bytes}
use wl_hosted_core.Protocol.Ids.{raw_record_header_size}
use wl_hosted_core.Protocol.Ids.Channel
use wl_hosted_core.Protocol.RawRecord.{raw_record_encode}
use wl_hosted_core.Coproc.Types.{CoprocResult, Job, Call, Trace, Platform, Coproc, max_hci_packet}
use wl_hosted_core.Coproc.Effects.{
  is_ok, record_call, increment, alloc_buffer, free_buffer, enqueue_job,
}
use wl_hosted_core.Coproc.Link.Hello.{bluetooth_backend_present}
use wl_hosted_core.Coproc.Bluetooth.Hci.{
  hci_tx_shape, hci_channel, inflight, set_inflight, lock, release_tx_reservation, queue_hci,
  send_reserved, reserve_hci, bluetooth_hci_send,
}

-- How many jobs were queued.
abbrev pub jobs : Trace → ℕ
jobs [] = 0
jobs (Call.enqueued job ∷ t) = jobs t + 1
jobs (_ ∷ t) = jobs t

-- The two counters and the jobs.
abbrev pub Unreserved : Coproc → Coproc → Type 0
Unreserved c d =
    (d.bluetooth_tx_inflight ≡ c.bluetooth_tx_inflight)
    × (d.bluetooth_adv_tx_inflight ≡ c.bluetooth_adv_tx_inflight)
    × (jobs d.trace ≡ jobs c.trace)

-- One packet more is on its way on a channel, and the other counter stays.
abbrev pub Reserved : ℕ → Coproc → Coproc → Type 0
Reserved channel c d =
    let adv = channel == Channel.bluetooth_hci_adv in
    (d.bluetooth_tx_inflight ≡ c.bluetooth_tx_inflight + (if adv then 0 else 1))
    × (d.bluetooth_adv_tx_inflight ≡ c.bluetooth_adv_tx_inflight + (if adv then 1 else 0))
    × (jobs d.trace ≡ jobs c.trace)

-- The record that carries a packet, in a buffer of just its size.
abbrev pub record_of : ℕ → ℕ → List ℕ → Wire (List ℕ)
record_of size_max h4_type packet =
    raw_record_encode size_max (raw_record_header_size + length packet) h4_type 0 (bytes packet)

-- The packet's record is queued under a credit that no other packet on its way has, or nothing is
-- reserved.
pub data Reserves (carried : Wire (List ℕ)) (c : Coproc) (channel : ℕ)
    : CoprocResult × Coproc → Type 0 where
  not_queued : {r : CoprocResult} {d : Coproc} → Unreserved c d → Reserves carried c channel (r, d)
  queued :
      {d : Coproc} {data_record : List ℕ} {t : Trace}
      → carried ≡ accept data_record
      → inflight c channel < c.tx_credit channel
      → Reserved channel c (record d { trace = t })
      → d.trace ≡ Call.enqueued (Job.bluetooth_tx channel data_record) ∷ t
      → Reserves carried c channel (CoprocResult.ok, d)

module _ (p : Platform) where
  -- What is given back is what was reserved.
  released :
      (c d : Coproc) (channel : ℕ)
      → Reserved channel c d
      → Unreserved c (release_tx_reservation p d channel)
  unfolding release_tx_reservation
  released c d channel reserved = ground arith

  -- The queue leaves the counters alone.
  enqueue_job_lem :
      (d : Coproc) (job : Job)
      → let (sent, d1) = enqueue_job p d job in
        (sent ≡ false → Unreserved d d1) × (sent ≡ true → d1 ≡ record_call (Call.enqueued job) d)
  unfolding enqueue_job
  enqueue_job_lem d job = ground arith

  alloc_buffer-Unreserved : (d : Coproc) (size : ℕ) → Unreserved d (alloc_buffer p d size).1
  unfolding alloc_buffer
  alloc_buffer-Unreserved d size = ground arith

  keep_through :
      (c d e : Coproc) (channel : ℕ) → Reserved channel c d → Unreserved d e → Reserved channel c e
  keep_through c d e channel reserved same =
      (same.0 ∙ reserved.0, same.1 ∙ reserved.1, same.2 ∙ reserved.2)

  module _ (c : Coproc) (channel : ℕ) (room : inflight c channel < c.tx_credit channel) where
    queue_hci-Reserves :
        (d : Coproc) (data_record : Wire (List ℕ))
        → Reserved channel c d
        → Reserves data_record c channel (queue_hci p d channel data_record)
    unfolding queue_hci free_buffer
    queue_hci-Reserves d (reject code) reserved =
        Reserves.not_queued (released c (free_buffer p d) channel reserved)
    queue_hci-Reserves d (accept data_record) reserved =
        let job = Job.bluetooth_tx channel data_record in
        let (sent, d1) = enqueue_job p d job in
        let (refused, taken) = enqueue_job_lem d job in
        if_cases (Reserves (accept data_record) c channel) sent
          (λ yes.
            subst (λ x. Reserves (accept data_record) c channel (CoprocResult.ok, x))
              (sym (taken yes)) (Reserves.queued refl room reserved refl))
          (λ no. Reserves.not_queued (
            released c (free_buffer p d1) channel
              (keep_through c d d1 channel reserved (refused no))))

    send_reserved-Reserves :
        (size_max : ℕ) (d : Coproc) (h4_type : ℕ) (packet : List ℕ)
        → Reserved channel c d
        → Reserves
            (record_of size_max h4_type packet)
            c
            channel
            (send_reserved p size_max d channel h4_type packet)
    unfolding send_reserved
    send_reserved-Reserves size_max d h4_type packet reserved =
        let size = raw_record_header_size + length packet in
        let (allocated, d1) = alloc_buffer p d (p.sizeof_data_job + size) in
        let kept = keep_through c d d1 channel reserved (alloc_buffer-Unreserved d _) in
        if_cases (Reserves (record_of size_max h4_type packet) c channel) (not allocated)
          (λ _. Reserves.not_queued (released c d1 channel kept))
          (λ _. queue_hci-Reserves d1 _ kept)

  module _ (size_max : ℕ) (c : Coproc) (h4_type : ℕ) (packet : List ℕ) where
    -- Where a credit is free, and fits a `uint32_t`, the counter goes up by one.
    set_inflight-Reserved :
        (channel : ℕ)
        → inflight c channel < c.tx_credit channel
        → c.tx_credit channel < 2 ^ 32
        → Reserved channel c (
            record_call Call.unlocked
              (set_inflight (lock p c) channel (increment (inflight c channel))))
    set_inflight-Reserved channel room fits = ground arith

    reserve_hci-Reserves :
        c.tx_credit (hci_channel c h4_type packet) < 2 ^ 32
        → Reserves
            (record_of size_max h4_type packet)
            c
            (hci_channel c h4_type packet)
            (reserve_hci p size_max c h4_type packet)
    unfolding reserve_hci
    reserve_hci-Reserves fits =
        let channel = hci_channel c h4_type packet in
        if_cases (Reserves (record_of size_max h4_type packet) c channel) c.bluetooth_hci_stopped
          (λ _. Reserves.not_queued (refl, refl, refl))
          (λ _.
            if_cases (Reserves (record_of size_max h4_type packet) c channel)
              (leb (c.tx_credit channel) (inflight c channel))
              (λ _.
                if_cases (Reserves (record_of size_max h4_type packet) c channel)
                  (channel == Channel.bluetooth_hci_adv)
                  (λ _. Reserves.not_queued (refl, refl, refl))
                  (λ _. Reserves.not_queued (refl, refl, refl)))
              (λ room.
                send_reserved-Reserves c channel (ground arith) size_max _ h4_type packet
                  (set_inflight-Reserved channel (ground arith) fits)))

    -- Where the credit of the packet's channel fits 32 bits, whatever the environment answers: either
    -- a credit of that channel was free, the packet's record is queued for it, and its counter of
    -- packets on their way went up by one, or no job is queued and both counters are as they were.
    pub bluetooth_hci_send-Reserves :
        c.tx_credit (hci_channel c h4_type packet) < 2 ^ 32
        → Reserves
            (record_of size_max h4_type packet)
            c
            (hci_channel c h4_type packet)
            (bluetooth_hci_send p size_max c h4_type packet)
    unfolding bluetooth_hci_send
    bluetooth_hci_send-Reserves fits =
        let channel = hci_channel c h4_type packet in
        let shape = hci_tx_shape h4_type packet in
        if_cases (Reserves (record_of size_max h4_type packet) c channel)
          (not c.worker_started || ltb max_hci_packet (length packet))
          (λ _. Reserves.not_queued (refl, refl, refl))
          (λ _.
            if_cases (Reserves (record_of size_max h4_type packet) c channel)
              (not (bluetooth_backend_present c)) (λ _. Reserves.not_queued (refl, refl, refl))
              (λ _.
                if_cases (Reserves (record_of size_max h4_type packet) c channel)
                  (not (is_ok shape)) (λ _. Reserves.not_queued (refl, refl, refl))
                  (λ _. reserve_hci-Reserves fits)))
