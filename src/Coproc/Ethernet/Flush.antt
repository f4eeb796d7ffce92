-- ===== src/Coproc/Ethernet/Flush.antt =====
-- No credit is lost on its way back: `flush_ethernet_rx_completions` of
-- coproc-core/src/coproc_frame.c.
use wl_hosted_core.Prelude.{ℕ, ◌≤◌, ◌≡◌, ◌≢◌, ap, Bool, true, false, ◌||◌, if◌then◌else◌}
use wl_hosted_core.Prelude.Word.{u32_max}
use wl_hosted_core.Protocol.Ids.Channel
use wl_hosted_core.Coproc.Types.{CoprocResult, Platform, Coproc}
use wl_hosted_core.Coproc.Effects.{is_ok}
use wl_hosted_core.Coproc.Send.{send_credit_update}
use wl_hosted_core.Coproc.Ethernet.{set_pending, count_failures, flush_channel}

-- The update that returns all that is owed for an interface.
abbrev pub flush_update : Platform → ℕ → ℕ → Coproc → CoprocResult × Coproc
flush_update p index channel c =
    send_credit_update p (set_pending c index 0) channel (c.ethernet_rx_pending_credit index)

-- What is done about an interface: nothing where nothing is owed; one update is sent with all that is
-- owed; or what is owed is kept for a retry.
pub data Flushed (p : Platform) (index channel : ℕ) (c : Coproc) : Bool × Coproc → Type 0 where
  nothing_owed : c.ethernet_rx_pending_credit index ≡ 0 → Flushed p index channel c (false, c)
  returned :
      c.ethernet_rx_pending_credit index ≢ 0
      → is_ok (flush_update p index channel c).0 ≡ true
      → Flushed p index channel c (false, (flush_update p index channel c).1)
  no_session :
      {d : Coproc}
      → c.ethernet_rx_pending_credit index ≢ 0
      → c.session_id ≡ 0
      → d.ethernet_rx_pending_credit index ≡ c.ethernet_rx_pending_credit index
      → Flushed p index channel c (true, d)
  kept :
      {d : Coproc}
      → is_ok (flush_update p index channel c).0 ≡ false
      → d.ethernet_rx_pending_credit index ≡ c.ethernet_rx_pending_credit index
      → Flushed p index channel c (true, d)

-- What is owed for an interface at the end: all of it where a retry is asked for, else nothing.
abbrev pub Settled : Bool → Coproc → Coproc → ℕ → Type 0
Settled retry c c' index =
    c'.ethernet_rx_pending_credit index ≡ (if retry then c.ethernet_rx_pending_credit index else 0)

-- The interfaces in turn, and what is owed for each when all are done.
pub record IsFlushed (p : Platform) (c : Coproc) (out : Bool × Coproc) : Type 0 where
  pub start : Coproc
  pub first : Bool × Coproc
  pub second : Bool × Coproc
  pub third : Bool
  pub begun : (j : ℕ) → start.ethernet_rx_pending_credit j ≡ c.ethernet_rx_pending_credit j
  pub sta : Flushed p 0 Channel.ethernet_sta start first
  pub ap : Flushed p 1 Channel.ethernet_ap first.1 second
  pub eth : Flushed p 2 Channel.ethernet_eth second.1 (third, out.1)
  pub asked : out.0 ≡ (first.0 || second.0 || third)
  pub left_sta : Settled first.0 c out.1 0
  pub left_ap : Settled second.0 c out.1 1
  pub left_eth : Settled third c out.1 2

module _ (p : Platform) (c : Coproc) (index channel : ℕ) where
  -- The loop body, and the update that it sends.
  outcome : Bool × Coproc
  outcome = flush_channel p c index channel

  sent : Coproc
  sent =
      (send_credit_update p (set_pending c index 0) channel (c.ethernet_rx_pending_credit index)).1

abbrev pub Fits : Coproc → Type 0
Fits c = (j : ℕ) → c.ethernet_rx_pending_credit j ≤ u32_max

module _ (p : Platform) (c : Coproc) (fits : Fits c) where
  start : Coproc
  start = count_failures (record c { ethernet_rx_wake_queued = false })
