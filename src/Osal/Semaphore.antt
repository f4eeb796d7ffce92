-- ===== src/Osal/Semaphore.antt =====
-- `semaphore_state_t` of common/osal/src/posix_osal.c with its operations. A result of 0 is `true`.
pub mod Count
use mathlib.Core.Option
use wl_hosted_core.Prelude.{
  ℕ, ◌+◌, ◌-◌, Bool, true, false, ◌||◌, List, Option, none, some, ltb, ◌==◌, if◌then◌else◌,
}
use wl_hosted_core.Prelude.Word.{u32}
use wl_hosted_core.Osal.Wait.{
  deadline_for_timeout, LockAttempt, lock_with_timeout, Wake, await, under_lock,
}

pub record SemaphoreState : Type 0 where
  pub count : ℕ
  pub maximum : ℕ

-- `ready` says whether the mutex and the condition could be made.
unfoldable pub os_semaphore_create : Bool → ℕ → ℕ → Option SemaphoreState
os_semaphore_create ready initial_count maximum_count =
    if maximum_count == 0 || ltb maximum_count initial_count
    then none
    else if ready
    then some (record { count = initial_count; maximum = maximum_count })
    else none

-- Behind the wait.
unfoldable pub take_count : Bool × SemaphoreState → Bool × SemaphoreState
take_count (true, s) = (true, record s { count = s.count - 1 })
take_count (false, s) = (false, s)

unfoldable pub os_semaphore_take :
    ℕ
    → List LockAttempt
    → List (Wake SemaphoreState)
    → ℕ
    → SemaphoreState
    → Option (Bool × SemaphoreState)
unfolding under_lock take_count await lock_with_timeout deadline_for_timeout
os_semaphore_take clock attempts wakes timeout_ms s =
    let deadline = deadline_for_timeout clock timeout_ms in
    under_lock (lock_with_timeout timeout_ms deadline attempts) (false, s)
      (Option.map take_count
        (await (λ (t : SemaphoreState). t.count == 0) timeout_ms deadline wakes s))

-- `locked` says whether `pthread_mutex_lock` returns 0.
unfoldable pub os_semaphore_give : Bool → SemaphoreState → Bool × SemaphoreState
os_semaphore_give locked s =
    if locked
    then (if s.count == s.maximum
        then (false, s)
        else (true, record s { count = u32 (s.count + 1) }))
    else (false, s)
