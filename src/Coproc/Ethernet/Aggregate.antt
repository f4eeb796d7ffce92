-- ===== src/Coproc/Ethernet/Aggregate.antt =====
-- Aggregation loses no Ethernet record, reorders none, and pays for each.
use wl_hosted_core.Prelude.{
  ℕ, ◌+◌, ◌^◌, ◌≤◌, ◌<◌, ◌≡◌, refl, sym, ap, subst, ◌∙◌, arith, true, not, ◌||◌, List, [], ◌∷◌,
  ◌++◌, Option, none, some, All, ltb, ◌==◌, length, length-append, append_assoc, append-nil,
  if_cases,
}
use wl_hosted_core.Prelude.Word.{u32}
use wl_hosted_core.Coproc.Types.{Job, Call, Trace, Platform, Coproc}
use wl_hosted_core.Coproc.Effects.{increment, alloc_buffer, free_buffer}
use wl_hosted_core.Coproc.Effects.Quiet.{Balanced}
use wl_hosted_core.Coproc.Ethernet.Transmit.{
  DataJob, Aggregated, is_ethernet_on, data_of, may_join, payload_capacity, give_slot, grow, join,
  aggregate, aggregate_ethernet_jobs,
}

abbrev pub slots_given : Trace → ℕ
slots_given [] = 0
slots_given (Call.slot_given ∷ t) = slots_given t + 1
slots_given (_ ∷ t) = slots_given t

abbrev pub put_back : Option Job → List Job → List Job
put_back none left = left
put_back (some next) left = next ∷ left

abbrev pub all_data : List Job → List ℕ
all_data [] = []
all_data (j ∷ js) = data_of j ++ all_data js

-- What becomes of a job and of the jobs that wait behind it.
pub record IsAggregate (capacity : ℕ) (c : Coproc) (d : DataJob) (units : ℕ) (waiting : List Job)
    (out : Aggregated) : Type 0 where
  pub merged : List Job
  pub in_order : waiting ≡ merged ++ put_back out.deferred out.left
  pub on_channel : All (λ j. is_ethernet_on d.channel j ≡ true) merged
  pub records : (out.job).records ≡ d.records ++ all_data merged
  pub channel : (out.job).channel ≡ d.channel
  pub price : out.credit_units ≡ u32 (units + length merged)
  pub slots : slots_given (out.coproc).trace ≡ slots_given c.trace + length merged
  pub fits : length d.records ≤ capacity → length (out.job).records ≤ capacity
  pub balanced : Balanced (length merged) c out.coproc
  pub credit : (out.coproc).tx_credit ≡ c.tx_credit

-- Nothing joins.
stops :
    (capacity : ℕ) (c e : Coproc) (d : DataJob) (units : ℕ) (deferred : Option Job)
    (left : List Job)
    → units < 2 ^ 32
    → slots_given e.trace ≡ slots_given c.trace
    → Balanced 0 c e
    → e.tx_credit ≡ c.tx_credit
    → IsAggregate capacity c d units
        (put_back deferred left)
        (record { job = d; deferred = deferred; credit_units = units; left = left; coproc = e })
stops capacity c e d units deferred left small same balanced credit = record {
  merged = [];
  in_order = refl;
  on_channel = tt;
  records = sym (append-nil d.records);
  channel = refl;
  price = omega arith;
  slots = omega (arith, same);
  fits = λ h. h;
  balanced = balanced;
  credit = credit;
}

may_join_lem :
    (capacity : ℕ) (d : DataJob) (next : Job)
    → may_join capacity d next ≡ true
    → (is_ethernet_on d.channel next ≡ true) × (length d.records + length (data_of next) ≤ capacity)
unfolding may_join
may_join_lem capacity d next joins = ground arith

module _ (p : Platform) (capacity : ℕ) where
  grow_lem :
      (d : DataJob) (c : Coproc)
      → let (grown, d1, c1) = grow p capacity d c in
        (d1.records ≡ d.records)
        × (d1.channel ≡ d.channel)
        × (slots_given c1.trace ≡ slots_given c.trace)
        × Balanced 0 c c1
        × (c1.tx_credit ≡ c.tx_credit)
  unfolding grow alloc_buffer free_buffer
  grow_lem d c = ground arith

  -- A job that joined, and what became of the rest.
  one_more :
      (c c1 : Coproc) (d d1 : DataJob) (units : ℕ) (next : Job) (waiting : List Job)
      {out : Aggregated}
      → may_join capacity d next ≡ true
      → d1.records ≡ d.records
      → d1.channel ≡ d.channel
      → slots_given c1.trace ≡ slots_given c.trace
      → Balanced 0 c c1
      → c1.tx_credit ≡ c.tx_credit
      → IsAggregate capacity
          (free_buffer p (give_slot c1))
          (join p d1 next)
          (increment units)
          waiting
          out
      → IsAggregate capacity c d units (next ∷ waiting) out
  unfolding free_buffer
  one_more c c1 d d1 units next waiting joins same channel slots balanced credit rest =
      let (on, room) = may_join_lem capacity d next joins in
      let whole = length-append d1.records (data_of next) in
      record {
        merged = next ∷ rest.merged;
        in_order = ap (λ js. next ∷ js) rest.in_order;
        on_channel = (
          on,
          subst (λ ch. All (λ j. is_ethernet_on ch j ≡ true) rest.merged) channel rest.on_channel,
        );
        records =
            rest.records
            ∙ append_assoc d1.records (data_of next) (all_data rest.merged)
            ∙ ap (λ bs. bs ++ (data_of next ++ all_data rest.merged)) same;
        channel = rest.channel ∙ channel;
        price = omega (arith, rest.price);
        slots = omega (arith, rest.slots, slots);
        fits = λ h. rest.fits (omega (arith, whole, room, ap length same));
        balanced = omega (arith, rest.balanced, balanced);
        credit = rest.credit ∙ credit;
      }

  module _ (limit : ℕ) where
    aggregate-IsAggregate :
        (c : Coproc) (d : DataJob) (units : ℕ) (waiting : List Job)
        → units < 2 ^ 32
        → IsAggregate capacity c d units waiting (aggregate p capacity limit c d units waiting)
    unfolding aggregate
    aggregate-IsAggregate c d units [] small =
        stops capacity c c d units none [] small refl (omega arith) refl
    aggregate-IsAggregate c d units (next ∷ waiting) small =
        let (grown, d1, c1) = grow p capacity d c in
        let (same, channel, slots, balanced, credit) = grow_lem d c in
        let c2 = free_buffer p (give_slot c1) in
        let rest =
          aggregate-IsAggregate c2 (join p d1 next) (increment units) waiting (omega arith) in
        let Goal = IsAggregate capacity c d units (next ∷ waiting) in
        if_cases Goal (not (limit == 0 || ltb units limit))
          (λ _. stops capacity c c d units none (next ∷ waiting) small refl (omega arith) refl)
          (λ _.
            if_cases Goal (not (may_join capacity d next))
              (λ _. stops capacity c c d units (some next) waiting small refl (omega arith) refl)
              (λ joins.
                if_cases Goal (not grown)
                  (λ _. stops capacity c c1 d units (some next) waiting small slots balanced credit)
                  (λ _.
                    one_more c c1 d d1 units next waiting (ground arith) same channel slots balanced
                      credit rest)))

-- With the jobs that the queue hands out meanwhile: the worker's job takes on the data of the first
-- so many of them, each for its channel, in their order and behind its own; the next is kept as the
-- worker's next job or all others stay queued, so that none is lost or overtaken; the price is
-- one unit for each job, modulo 2 ^ 32; a slot and a buffer come back for each that joined; and what
-- fitted the payload at first still fits it.
pub aggregate_ethernet_jobs-IsAggregate :
    (p : Platform) (size_max : ℕ) (c : Coproc) (d : DataJob) (waiting : List Job)
    → IsAggregate
        (payload_capacity size_max c)
        c
        d
        1
        waiting
        (aggregate_ethernet_jobs p size_max c d waiting)
unfolding aggregate_ethernet_jobs
aggregate_ethernet_jobs-IsAggregate p size_max c d waiting =
    aggregate-IsAggregate p (payload_capacity size_max c) (c.config).ethernet_tx_aggregation_limit c
      d 1 waiting (omega arith)
