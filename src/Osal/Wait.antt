-- ===== src/Osal/Wait.antt =====
-- Time limits and blocking of common/osal/src/posix_osal.c: `deadline_for_timeout`,
-- `lock_with_timeout` and `wait_condition`, with the loop in which the objects wait.
pub mod Returns
use wl_hosted_core.Prelude.{
  ℕ, ◌+◌, Bool, true, false, not, ◌||◌, List, [], ◌∷◌, Option, none, some, leb, ◌==◌, if◌then◌else◌,
}
use wl_hosted_core.Prelude.Word.{u32_max, u64}

abbrev pub no_wait : ℕ
no_wait = 0

abbrev pub wait_forever : ℕ
wait_forever = u32_max

-- `clock_ms()` has read `clock`.
unfoldable pub deadline_for_timeout : ℕ → ℕ → ℕ
deadline_for_timeout clock timeout_ms =
    if timeout_ms == wait_forever || timeout_ms == no_wait then 0 else u64 (clock + timeout_ms)

-- What `pthread_mutex_lock` or one `pthread_mutex_trylock` returns.
pub data LockResult : Type 0 where
  acquired : LockResult
  busy : LockResult
  failed : LockResult

-- One attempt to lock, and the clock behind it.
pub record LockAttempt : Type 0 where
  pub result : LockResult
  pub clock : ℕ

abbrev pub is_acquired : LockResult → Bool
is_acquired LockResult.acquired = true
is_acquired r = false

abbrev pub is_busy : LockResult → Bool
is_busy LockResult.busy = true
is_busy r = false

-- Whether the result is 0; `none` while the call has not returned.
unfoldable pub lock_with_timeout : ℕ → ℕ → List LockAttempt → Option Bool
lock_with_timeout timeout_ms deadline_ms [] = none
lock_with_timeout timeout_ms deadline_ms (attempt ∷ attempts) =
    let later = lock_with_timeout timeout_ms deadline_ms attempts in
    if timeout_ms == wait_forever
    then some (is_acquired attempt.result)
    else if is_acquired attempt.result
    then some true
    else if not (is_busy attempt.result) || timeout_ms == no_wait || leb deadline_ms attempt.clock
    then some false
    else later

-- One wait on a condition: the clock before it, whether `pthread_cond_wait` or `cond_timedwait_ms`
-- returns 0, and what the other threads do to the state while this one has released the lock.
pub record Wake (S : Type 0) : Type 0 where
  pub clock : ℕ
  pub woken : Bool
  pub others : S → S

module _ {S : Type 0} where
  -- Whether the result is 0. Where the function does not wait, the lock stays held.
  unfoldable pub wait_condition : ℕ → ℕ → Wake S → S → Bool × S
  wait_condition timeout_ms deadline_ms wake s =
      if timeout_ms == wait_forever
      then (wake.woken, wake.others s)
      else if timeout_ms == no_wait
      then (false, s)
      else if leb deadline_ms wake.clock
      then (false, s)
      else (wake.woken, wake.others s)

  -- `while (blocked) if (wait_condition(...) != 0) break;`: whether the loop ended by its test, and
  -- the state then; `none` while the thread has not come back.
  unfoldable pub await : (S → Bool) → ℕ → ℕ → List (Wake S) → S → Option (Bool × S)
  unfolding wait_condition
  await blocked timeout_ms deadline_ms [] s = if blocked s then none else some (true, s)
  await blocked timeout_ms deadline_ms (wake ∷ wakes) s =
      let (woken, s1) = wait_condition timeout_ms deadline_ms wake s in
      let later = await blocked timeout_ms deadline_ms wakes s1 in
      if blocked s then (if woken then later else some (false, s1)) else some (true, s)

-- `if (lock_with_timeout(...) != 0) return -1;` and what follows.
unfoldable pub under_lock : {R : Type 0} → Option Bool → R → Option R → Option R
under_lock none refused body = none
under_lock (some false) refused body = some refused
under_lock (some true) refused body = body
