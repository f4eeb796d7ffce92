-- ===== src/Osal/Queue.antt =====
-- `queue_state_t` of common/osal/src/posix_osal.c with its operations. A result of 0 is `true`. The
-- storage is an array of items: item `i` is the bytes from `i * item_size` on.
pub mod Fifo
pub mod Calls
use mathlib.Core.Option
use wl_hosted_core.Prelude.{
  ℕ, ◌+◌, ◌-◌, ◌%◌, Bool, true, false, ◌||◌, List, [], Option, none, some, ◌==◌, if◌then◌else◌,
  update,
}
use wl_hosted_core.Osal.Wait.{
  no_wait, deadline_for_timeout, LockAttempt, lock_with_timeout, Wake, await, under_lock,
}

pub record QueueState (A : Type 0) : Type 0 where
  pub storage : ℕ → A
  pub item_size : ℕ
  pub capacity : ℕ
  pub head : ℕ
  pub count : ℕ

-- `a + b` of two `size_t`.
abbrev pub add_size : ℕ → ℕ → ℕ → ℕ
add_size size_max a b = (a + b) % (size_max + 1)

module _ {A : Type 0} where
  -- `ready` says whether the mutex and the conditions could be made.
  unfoldable pub os_queue_create : Bool → (ℕ → A) → ℕ → ℕ → Option (QueueState A)
  os_queue_create ready storage item_size capacity =
      if item_size == 0 || capacity == 0
      then none
      else if ready
      then some (record {
        storage = storage;
        item_size = item_size;
        capacity = capacity;
        head = 0;
        count = 0;
      })
      else none

  module _ (size_max : ℕ) where
    -- Behind the wait: the last index and the item are written under the lock.
    unfoldable pub put_item : A → Bool × QueueState A → Bool × QueueState A
    put_item item (false, q) = (false, q)
    put_item item (true, q) =
        let tail = add_size size_max q.head q.count % q.capacity in
        (
          true,
          record q { storage = update q.storage tail item; count = add_size size_max q.count 1 },
        )

    unfoldable pub os_queue_send :
        ℕ
        → List LockAttempt
        → List (Wake (QueueState A))
        → A
        → ℕ
        → QueueState A
        → Option (Bool × QueueState A)
    unfolding under_lock put_item await lock_with_timeout deadline_for_timeout
    os_queue_send clock attempts wakes item timeout_ms q =
        let deadline = deadline_for_timeout clock timeout_ms in
        under_lock (lock_with_timeout timeout_ms deadline attempts) (false, q)
          (Option.map (put_item item)
            (await (λ (t : QueueState A). t.count == t.capacity) timeout_ms deadline wakes q))

    unfoldable pub os_queue_send_from_isr :
        List LockAttempt → A → QueueState A → Option (Bool × QueueState A)
    unfolding os_queue_send
    os_queue_send_from_isr attempts item q = os_queue_send 0 attempts [] item no_wait q

    -- What is read, and the queue.
    unfoldable pub get_item : Bool × QueueState A → Option A × QueueState A
    get_item (false, q) = (none, q)
    get_item (true, q) = (
      some (q.storage q.head),
      record q { head = add_size size_max q.head 1 % q.capacity; count = q.count - 1 },
    )

    unfoldable pub os_queue_receive :
        ℕ
        → List LockAttempt
        → List (Wake (QueueState A))
        → ℕ
        → QueueState A
        → Option (Option A × QueueState A)
    unfolding under_lock get_item await lock_with_timeout deadline_for_timeout
    os_queue_receive clock attempts wakes timeout_ms q =
        let deadline = deadline_for_timeout clock timeout_ms in
        under_lock (lock_with_timeout timeout_ms deadline attempts) (none, q)
          (Option.map get_item
            (await (λ (t : QueueState A). t.count == 0) timeout_ms deadline wakes q))
