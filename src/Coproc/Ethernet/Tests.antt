-- ===== src/Coproc/Ethernet/Tests.antt =====
-- The theorems of Ethernet frames to the host at a concrete coprocessor.
use wl_hosted_core.Prelude.{ℕ, ◌-◌, ◌^◌, List, [], ◌∷◌}
use wl_hosted_core.Protocol.Ids.Channel
use wl_hosted_core.Coproc.Types.{Job}
use wl_hosted_core.Coproc.Samples.{sample_platform, sample_coproc}
use wl_hosted_core.Coproc.Ethernet.Transmit.{
  DataJob, payload_capacity, aggregate_ethernet_jobs, transmit_ethernet, ethernet_send,
}
use wl_hosted_core.Coproc.Ethernet.Aggregate.{IsAggregate, aggregate_ethernet_jobs-IsAggregate}
use wl_hosted_core.Coproc.Ethernet.Price.{IsTransmitted, transmit_ethernet-IsTransmitted}
use wl_hosted_core.Coproc.Ethernet.Slots.{Accounts, ethernet_send-Accounts}

-- One record with one byte.
abbrev one_record : List ℕ
one_record = 1 ∷ 0 ∷ 8 ∷ 0 ∷ 1 ∷ 0 ∷ 0 ∷ 0 ∷ 77 ∷ []

-- Two jobs for the station, with one for the access point between them.
abbrev queued : List Job
queued =
    Job.ethernet_tx Channel.ethernet_sta one_record
    ∷ Job.ethernet_tx Channel.ethernet_ap one_record
    ∷ Job.ethernet_tx Channel.ethernet_sta one_record
    ∷ []

abbrev sample_job : DataJob
sample_job = record { channel = Channel.ethernet_sta; records = one_record; capacity = 9 }

aggregate_ethernet_jobs-IsAggregate_example :
    IsAggregate
      (payload_capacity (2 ^ 32 - 1) sample_coproc)
      sample_coproc
      sample_job
      1
      queued
      (aggregate_ethernet_jobs sample_platform (2 ^ 32 - 1) sample_coproc sample_job queued)
aggregate_ethernet_jobs-IsAggregate_example =
    aggregate_ethernet_jobs-IsAggregate sample_platform (2 ^ 32 - 1) sample_coproc sample_job queued

transmit_ethernet-IsTransmitted_example :
    IsTransmitted sample_coproc Channel.ethernet_sta one_record queued (
      transmit_ethernet sample_platform
        (2 ^ 32 - 1)
        sample_coproc
        Channel.ethernet_sta
        one_record
        queued)
transmit_ethernet-IsTransmitted_example =
    transmit_ethernet-IsTransmitted sample_platform (2 ^ 32 - 1) sample_coproc Channel.ethernet_sta
      one_record queued

ethernet_send-Accounts_example :
    Accounts sample_coproc
      (ethernet_send sample_platform (2 ^ 32 - 1) sample_coproc Channel.ethernet_ap (7 ∷ 8 ∷ []))
ethernet_send-Accounts_example =
    ethernet_send-Accounts sample_platform (2 ^ 32 - 1) sample_coproc Channel.ethernet_ap
      (7 ∷ 8 ∷ [])
