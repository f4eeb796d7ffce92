-- ===== src/Coproc/Ethernet/Transmit.antt =====
-- Ethernet frames on their way to the host: coproc-core/src/coproc_ethernet.c queues each as a record,
-- and the worker of coproc-core/src/coproc.c sends as many of them as fit in one frame.
use wl_hosted_core.Prelude.{
  ℕ, ◌+◌, ◌-◌, ◌%◌, Bool, true, false, not, ◌&&◌, ◌||◌, List, [], ◌∷◌, ◌++◌, Option, none, some,
  ltb, ◌==◌, if◌then◌else◌, length,
}
use wl_hosted_core.Protocol.Result.{Wire, accept, reject, bytes}
use wl_hosted_core.Protocol.Ids.{frame_header_size, raw_record_header_size}
use wl_hosted_core.Protocol.RawRecord.{raw_record_encode}
use wl_hosted_core.Coproc.Types.{CoprocResult, Job, Call, Platform, Coproc}
use wl_hosted_core.Coproc.Effects.{
  is_ok, record_call, increment, alloc_buffer, free_buffer, enqueue_job,
}
use wl_hosted_core.Coproc.Send.{send_payload_units}

-- WLH_COPROC_MAX_FRAME_SIZE
abbrev pub coproc_max_frame_size : ℕ
coproc_max_frame_size = 4096

-- The job that grows: `capacity` bytes are allocated, of which the records fill the first.
pub record DataJob : Type 0 where
  pub channel : ℕ
  pub records : List ℕ
  pub capacity : ℕ

-- What `aggregate_ethernet_jobs` leaves: the job, the next one that the worker takes, the price, and
-- what was not taken from the queue.
pub record Aggregated : Type 0 where
  pub job : DataJob
  pub deferred : Option Job
  pub credit_units : ℕ
  pub left : List Job
  pub coproc : Coproc

abbrev pub is_ethernet_on : ℕ → Job → Bool
is_ethernet_on channel (Job.ethernet_tx other content) = other == channel
is_ethernet_on channel _ = false

abbrev pub data_of : Job → List ℕ
data_of (Job.ethernet_tx other content) = content
data_of _ = []

-- The tests on a candidate.
unfoldable pub may_join : ℕ → DataJob → Job → Bool
may_join capacity d next =
    is_ethernet_on d.channel next
    && not (ltb capacity (length d.records))
    && not (ltb (capacity - length d.records) (length (data_of next)))

-- A difference of two `size_t`.
abbrev pub payload_capacity : ℕ → Coproc → ℕ
payload_capacity size_max c =
    (size_max + 1 + (c.config).max_frame_size - frame_header_size) % (size_max + 1)

abbrev pub give_slot : Coproc → Coproc
give_slot c = record_call Call.slot_given c

module _ (p : Platform) where
  -- A job that was allocated for its own record moves to a buffer for a whole payload.
  unfoldable pub grow : ℕ → DataJob → Coproc → Bool × DataJob × Coproc
  grow capacity d c =
      let (allocated, c1) = alloc_buffer p c (p.sizeof_data_job + capacity) in
      if ltb d.capacity capacity
      then (if allocated
          then (true, record d { capacity = capacity }, free_buffer p c1)
          else (false, d, c1))
      else (true, d, c)

  -- The end of a round that goes on.
  abbrev pub join : DataJob → Job → DataJob
  join d next = record d { records = d.records ++ data_of next }

  -- The loop, on the jobs that the queue hands out while it asks, in their order.
  unfoldable pub aggregate : ℕ → ℕ → Coproc → DataJob → ℕ → List Job → Aggregated
  aggregate capacity limit c d units [] = record {
    job = d;
    deferred = none;
    credit_units = units;
    left = [];
    coproc = c;
  }
  aggregate capacity limit c d units (next ∷ waiting) =
      let (grown, d1, c1) = grow capacity d c in
      let rest =
        aggregate capacity limit (free_buffer p (give_slot c1)) (join d1 next) (increment units)
          waiting in
      if not (limit == 0 || ltb units limit)
      then record {
        job = d;
        deferred = none;
        credit_units = units;
        left = next ∷ waiting;
        coproc = c;
      }
      else if not (may_join capacity d next)
      then record {
        job = d;
        deferred = some next;
        credit_units = units;
        left = waiting;
        coproc = c;
      }
      else if not grown
      then record {
        job = d;
        deferred = some next;
        credit_units = units;
        left = waiting;
        coproc = c1;
      }
      else rest

  unfoldable pub aggregate_ethernet_jobs : ℕ → Coproc → DataJob → List Job → Aggregated
  aggregate_ethernet_jobs size_max c d waiting =
      aggregate (payload_capacity size_max c) (c.config).ethernet_tx_aggregation_limit c d 1 waiting

  -- The worker's branch for such a job: how many slots come back, and the next job, if one was taken.
  unfoldable pub transmit_ethernet : ℕ → Coproc → ℕ → List ℕ → List Job → CoprocResult × Aggregated
  transmit_ethernet size_max c channel content waiting =
      let a =
        aggregate_ethernet_jobs size_max c
          (record { channel = channel; records = content; capacity = length content }) waiting in
      let (result, c1) =
        send_payload_units p a.coproc (a.job).channel (a.job).records a.credit_units in
      let c2 = if not (is_ok result) then give_slot c1 else c1 in
      (result, record a { coproc = free_buffer p c2 })

  -- From the record on.
  unfoldable pub queue_ethernet : Coproc → ℕ → Wire (List ℕ) → CoprocResult × Coproc
  queue_ethernet c channel (reject code) =
      (CoprocResult.invalid_argument, give_slot (free_buffer p c))
  queue_ethernet c channel (accept data_record) =
      let (sent, c1) = enqueue_job p c (Job.ethernet_tx channel data_record) in
      if sent
      then (CoprocResult.ok, c1)
      else (CoprocResult.backend_error, give_slot (free_buffer p c1))

  unfoldable pub ethernet_send : ℕ → Coproc → ℕ → List ℕ → CoprocResult × Coproc
  ethernet_send size_max c channel frame =
      let taken = p.slot_ok c.trace in
      let c1 = record_call (Call.slot_taken taken) c in
      let size = raw_record_header_size + length frame in
      let (allocated, c2) = alloc_buffer p c1 (p.sizeof_data_job + size) in
      if ltb (coproc_max_frame_size - frame_header_size) (length frame + raw_record_header_size)
        || not c.worker_started
      then (CoprocResult.invalid_argument, c)
      else if not taken
      then (CoprocResult.backend_error, c1)
      else if not allocated
      then (CoprocResult.backend_error, give_slot c2)
      else queue_ethernet c2 channel (raw_record_encode size_max size 1 0 (bytes frame))
