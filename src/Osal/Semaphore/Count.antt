-- ===== src/Osal/Semaphore/Count.antt =====
-- A semaphore of posix_osal.c counts: it is never above its maximum, and loses no unit.
use wl_hosted_core.Prelude.{
  ℕ, ◌+◌, ◌≤◌, ◌≡◌, ◌≢◌, refl, arith, Bool, true, false, List, some, ◌⊎◌, inl, inr, ◌==◌, if_cases,
}
use wl_hosted_core.Prelude.Word.{u32_max}
use wl_hosted_core.Osal.Wait.{deadline_for_timeout, LockAttempt, lock_with_timeout, Wake, await}
use wl_hosted_core.Osal.Wait.Returns.{Reached, await-Reached, under_lock-ended}
use wl_hosted_core.Osal.Semaphore.{
  SemaphoreState, os_semaphore_create, take_count, os_semaphore_take, os_semaphore_give,
}

pub record IsValid (s : SemaphoreState) : Type 0 where
  pub within : s.count ≤ s.maximum
  pub small : s.maximum ≤ u32_max

-- The part of a call under the lock, with the units that it takes and gives.
pub data Section (s : SemaphoreState) : ℕ → ℕ → SemaphoreState → Type 0 where
  took : s.count ≢ 0 → Section s 1 0 (take_count (true, s)).1
  gave : (os_semaphore_give true s).0 ≡ true → Section s 0 1 (os_semaphore_give true s).1

-- Any threads' calls, in the order in which they hold the lock.
pub data Run (s : SemaphoreState) : ℕ → ℕ → SemaphoreState → Type 0 where
  here : Run s 0 0 s
  next :
      {taken given t g : ℕ} {s1 s2 : SemaphoreState}
      → Run s taken given s1
      → Section s1 t g s2
      → Run s (taken + t) (given + g) s2

Section-count :
    {s : SemaphoreState} {t g : ℕ} {s1 : SemaphoreState}
    → IsValid s
    → Section s t g s1
    → IsValid s1 × (s1.maximum ≡ s.maximum) × (s.count + g ≡ t + s1.count)
unfolding take_count os_semaphore_give
Section-count v (Section.took left) =
    (record { within = omega arith; small = v.small }, refl, omega arith)
Section-count {s = s} v (Section.gave done) =
    let small = v.small in
    let within = v.within in
    (record { within = ground arith; small = ground arith }, ground arith, ground arith)

Run-count :
    {s : SemaphoreState} {taken given : ℕ} {s1 : SemaphoreState}
    → IsValid s
    → Run s taken given s1
    → IsValid s1 × (s1.maximum ≡ s.maximum) × (s.count + given ≡ taken + s1.count)
Run-count v Run.here = (v, refl, omega arith)
Run-count v (Run.next run last) =
    let before = Run-count v run in
    let after = Section-count before.0 last in
    (after.0, omega (arith, before.1, after.1), omega (arith, before.2, after.2))

-- From a semaphore that was just created on, whose maximum a `uint32_t` holds, whatever sections of
-- whatever threads there are: the count is at most the maximum, and with the units taken it makes up
-- the initial count and the units given.
pub Run-count_created :
    (ready : Bool) (initial_count maximum_count : ℕ) {s : SemaphoreState} {taken given : ℕ}
    {s1 : SemaphoreState}
    → maximum_count ≤ u32_max
    → os_semaphore_create ready initial_count maximum_count ≡ some s
    → Run s taken given s1
    → (s1.count ≤ maximum_count) × (taken + s1.count ≡ initial_count + given)
unfolding os_semaphore_create
Run-count_created ready initial_count maximum_count {s} small e run =
    let initial : s.count ≡ initial_count = ground arith in
    let largest : s.maximum ≡ maximum_count = ground arith in
    let valid : IsValid s = record { within = ground arith; small = omega (arith, largest) } in
    let counted = Run-count valid run in
    (omega (arith, (counted.0).within, counted.1, largest), omega (arith, counted.2, initial))

-- How a take may end, with the waits that it may make: with a unit less than the other threads have
-- left during the first so many of them, or with what they have left.
pub data Takes (wakes : List (Wake SemaphoreState)) (s : SemaphoreState)
    : Bool × SemaphoreState → Type 0 where
  took :
      {m s1 : SemaphoreState}
      → Reached wakes s m
      → m.count ≡ s1.count + 1
      → s1.maximum ≡ m.maximum
      → Takes wakes s (true, s1)
  not_taken : {m : SemaphoreState} → Reached wakes s m → Takes wakes s (false, m)

-- How a give ends, which does not wait: with one unit more and no more than the maximum, or with
-- nothing changed, where the lock is not got or the semaphore is full.
pub data Gives (locked : Bool) (s : SemaphoreState) : Bool × SemaphoreState → Type 0 where
  gave :
      {s1 : SemaphoreState}
      → s1.count ≡ s.count + 1
      → s1.count ≤ s1.maximum
      → s1.maximum ≡ s.maximum
      → Gives locked s (true, s1)
  not_given : (locked ≡ false) ⊎ (s.count ≡ s.maximum) → Gives locked s (false, s)

module _ (wakes : List (Wake SemaphoreState)) (s : SemaphoreState) where
  take_count-Takes :
      (m : SemaphoreState) (ok : Bool)
      → Reached wakes s m × (ok ≡ true → (m.count == 0) ≡ false)
      → Takes wakes s (take_count (ok, m))
  unfolding take_count
  take_count-Takes m true ended = let left = ended.1 refl in Takes.took ended.0 (ground arith) refl
  take_count-Takes m false ended = Takes.not_taken ended.0

  os_semaphore_give-Gives :
      (locked : Bool) → IsValid s → Gives locked s (os_semaphore_give locked s)
  unfolding os_semaphore_give
  os_semaphore_give-Gives locked v =
      let within = v.within in
      let small = v.small in
      if_cases (Gives locked s) locked
        (λ _.
          if_cases (Gives locked s) (s.count == s.maximum)
            (λ full. Gives.not_given (inr (ground arith)))
            (λ room. Gives.gave (ground arith) (ground arith) refl))
        (λ refused. Gives.not_given (inl refused))

  -- A take that returns 0 leaves one unit less than the other threads have left during its waits,
  -- and one that returns -1 just what they have left. For a count within a maximum of 32 bits, a
  -- give leaves one unit more, within the maximum, or, where the lock is not got or the maximum is
  -- reached, changes nothing and returns -1.
  pub os_semaphore_calls-Sections :
      (clock : ℕ) (attempts : List LockAttempt) (timeout_ms : ℕ) (locked : Bool)
      → IsValid s
      → ((r : Bool × SemaphoreState)
          → os_semaphore_take clock attempts wakes timeout_ms s ≡ some r
          → Takes wakes s r)
        × Gives locked s (os_semaphore_give locked s)
  unfolding os_semaphore_take
  os_semaphore_calls-Sections clock attempts timeout_ms locked v =
      let deadline = deadline_for_timeout clock timeout_ms in
      let empty = λ (t : SemaphoreState). t.count == 0 in
      (
        under_lock-ended empty (Reached wakes s) (Takes wakes s) take_count
            (lock_with_timeout timeout_ms deadline attempts) (false, s)
            (await empty timeout_ms deadline wakes s) (Takes.not_taken Reached.here)
            (λ ok m. take_count-Takes m ok) (await-Reached empty timeout_ms deadline wakes s),
        os_semaphore_give-Gives locked v,
      )
