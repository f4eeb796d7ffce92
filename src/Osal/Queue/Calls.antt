-- ===== src/Osal/Queue/Calls.antt =====
-- What a call of a queue does among the calls of the other threads, and that it comes back.
use wl_hosted_core.Prelude.{
  ℕ, ◌≤◌, ◌≡◌, ◌≢◌, refl, arith, Bool, true, false, List, [], ◌∷◌, ◌++◌, Option, none, some, ◌==◌,
}
use wl_hosted_core.Osal.Wait.{
  wait_forever, deadline_for_timeout, LockAttempt, lock_with_timeout, Wake, await,
}
use wl_hosted_core.Osal.Wait.Returns.{
  Reached, await-Reached, await-returns, lock_with_timeout-returns, under_lock-ended,
  under_lock-returns,
}
use wl_hosted_core.Osal.Queue.{QueueState, put_item, get_item, os_queue_send, os_queue_receive}
use wl_hosted_core.Osal.Queue.Fifo.{Section}

module _ {A : Type 0} (size_max : ℕ) where
  -- How a send may end, with the waits that it may make: with its own section behind what the other
  -- threads have done during the first so many of them, or without one.
  pub data Sends (wakes : List (Wake (QueueState A))) (q : QueueState A) (item : A)
      : Bool × QueueState A → Type 0 where
    sent :
        {m q1 : QueueState A}
        → Reached wakes q m
        → Section size_max m (item ∷ []) [] q1
        → Sends wakes q item (true, q1)
    not_sent : {m : QueueState A} → Reached wakes q m → Sends wakes q item (false, m)

  pub data Receives (wakes : List (Wake (QueueState A))) (q : QueueState A)
      : Option A × QueueState A → Type 0 where
    received :
        {m q1 : QueueState A} {item : A}
        → Reached wakes q m
        → Section size_max m [] (item ∷ []) q1
        → Receives wakes q (some item, q1)
    not_received : {m : QueueState A} → Reached wakes q m → Receives wakes q (none, m)

  module _ (wakes : List (Wake (QueueState A))) (q : QueueState A) where
    put_item-Sends :
        (m : QueueState A) (item : A) (ok : Bool)
        → Reached wakes q m × (ok ≡ true → (m.count == m.capacity) ≡ false)
        → Sends wakes q item (put_item size_max item (ok, m))
    unfolding put_item
    put_item-Sends m item true ended =
        let room = ended.1 refl in
        Sends.sent ended.0 (unfold put_item in Section.put item (ground arith))
    put_item-Sends m item false ended = Sends.not_sent ended.0

    get_item-Receives :
        (m : QueueState A) (ok : Bool)
        → Reached wakes q m × (ok ≡ true → (m.count == 0) ≡ false)
        → Receives wakes q (get_item size_max (ok, m))
    unfolding get_item
    get_item-Receives m true ended =
        let some_left = ended.1 refl in
        Receives.received ended.0 (unfold get_item in Section.got (ground arith) refl)
    get_item-Receives m false ended = Receives.not_received ended.0

    -- A send that returns 0 has put its item, where there was room, behind what the other threads
    -- have done during its waits, in one section of its own; a receive that returns 0 has taken
    -- what it returns so too, where there was an item. A call that returns -1 has changed nothing:
    -- what it leaves is what the other threads have left.
    pub os_queue_calls-Sections :
        (clock : ℕ) (attempts : List LockAttempt) (timeout_ms : ℕ)
        → ((item : A) (r : Bool × QueueState A)
            → os_queue_send size_max clock attempts wakes item timeout_ms q ≡ some r
            → Sends wakes q item r)
          × ((r : Option A × QueueState A)
              → os_queue_receive size_max clock attempts wakes timeout_ms q ≡ some r
              → Receives wakes q r)
    unfolding os_queue_send os_queue_receive
    os_queue_calls-Sections clock attempts timeout_ms =
        let deadline = deadline_for_timeout clock timeout_ms in
        let lock = lock_with_timeout timeout_ms deadline attempts in
        let full = λ (t : QueueState A). t.count == t.capacity in
        let empty = λ (t : QueueState A). t.count == 0 in
        (
          λ item.
              under_lock-ended full (Reached wakes q) (Sends wakes q item) (put_item size_max item)
                lock (false, q) (await full timeout_ms deadline wakes q)
                (Sends.not_sent Reached.here) (λ ok m. put_item-Sends m item ok)
                (await-Reached full timeout_ms deadline wakes q),
          under_lock-ended empty (Reached wakes q) (Receives wakes q) (get_item size_max) lock
              (none, q) (await empty timeout_ms deadline wakes q)
              (Receives.not_received Reached.here) (λ ok m. get_item-Receives m ok)
              (await-Reached empty timeout_ms deadline wakes q),
        )

  -- A call with a time limit returns, at the latest when it has tried to lock, and has waited, once
  -- after its deadline.
  pub os_queue_calls-return :
      (clock timeout_ms : ℕ) (q : QueueState A) (item : A) (early : List LockAttempt)
      (late : LockAttempt) (later : List LockAttempt) (wakes : List (Wake (QueueState A)))
      (last : Wake (QueueState A)) (more : List (Wake (QueueState A)))
      → timeout_ms ≢ wait_forever
      → deadline_for_timeout clock timeout_ms ≤ late.clock
      → deadline_for_timeout clock timeout_ms ≤ last.clock
      → let attempts = early ++ (late ∷ later) in
        let waits = wakes ++ (last ∷ more) in
        ((r : Bool × QueueState A) × (os_queue_send size_max clock attempts waits item timeout_ms q
            ≡ some r))
        × ((r : Option A × QueueState A) × (os_queue_receive size_max clock attempts waits
                timeout_ms q
              ≡ some r))
  unfolding os_queue_send os_queue_receive
  os_queue_calls-return clock timeout_ms q item early late later wakes last more limited passed
        gone =
      let deadline = deadline_for_timeout clock timeout_ms in
      let lock = lock_with_timeout timeout_ms deadline (early ++ (late ∷ later)) in
      let locks = lock_with_timeout-returns timeout_ms deadline early late later limited passed in
      let ends = λ (blocked : QueueState A → Bool).
        await-returns blocked timeout_ms deadline wakes last more q limited gone in
      (
        under_lock-returns (put_item size_max item) lock (false, q) _ locks
            (ends (λ (t : QueueState A). t.count == t.capacity)),
        under_lock-returns (get_item size_max) lock (none, q) _ locks
            (ends (λ (t : QueueState A). t.count == 0)),
      )
