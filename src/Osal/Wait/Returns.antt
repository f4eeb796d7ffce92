-- ===== src/Osal/Wait/Returns.antt =====
-- What a wait leaves behind, and that a call with a time limit comes back.
use mathlib.Core.Option
use wl_hosted_core.Prelude.{
  ℕ, ◌≤◌, ◌≡◌, ◌≢◌, refl, sym, subst, ◌⊎◌, inl, inr, arith, Bool, true, false, List, [], ◌∷◌, ◌++◌,
  Option, none, some, ◌==◌, leb, not, ◌||◌, if_cases, if_true,
}
use wl_hosted_core.Osal.Wait.{
  no_wait, wait_forever, LockAttempt, lock_with_timeout, Wake, wait_condition, await, under_lock,
  is_acquired, is_busy,
}

-- The state that the first so many waits leave behind, each of them with what the other threads do
-- during it, in their order, and nothing else.
pub data Reached {S : Type 0} : List (Wake S) → S → S → Type 0 where
  here : {wakes : List (Wake S)} {s : S} → Reached wakes s s
  behind :
      {wake : Wake S} {wakes : List (Wake S)} {s t : S}
      → Reached wakes (wake.others s) t
      → Reached (wake ∷ wakes) s t

-- Where a wait that has ended leaves the state; if it ended by its test, the test says so.
abbrev pub Ended : {S : Type 0} → (S → Bool) → (S → Type 0) → Option (Bool × S) → Type 0
Ended {S} blocked P o =
    (ok : Bool) (s1 : S) → o ≡ some (ok, s1) → P s1 × (ok ≡ true → blocked s1 ≡ false)

-- What holds behind the wait holds of a call that waits under its lock and then does `f`.
pub under_lock-ended :
    {S R : Type 0} (blocked : S → Bool) (P : S → Type 0) (Q : R → Type 0) (f : Bool × S → R)
    (lock : Option Bool) (refused : R) (o : Option (Bool × S))
    → Q refused
    → ((ok : Bool) (s : S) → P s × (ok ≡ true → blocked s ≡ false) → Q (f (ok, s)))
    → Ended blocked P o
    → (r : R) → under_lock lock refused (Option.map f o) ≡ some r
    → Q r
unfolding under_lock
under_lock-ended blocked P Q f none refused o qr step ended r e = cc
under_lock-ended blocked P Q f (some false) refused o qr step ended r e =
    let same : refused ≡ r = cc in subst Q same qr
under_lock-ended blocked P Q f (some true) refused none qr step ended r e = cc
under_lock-ended blocked P Q f (some true) refused (some (ok, s)) qr step ended r e =
    let same : f (ok, s) ≡ r = cc in subst Q same (step ok s (ended ok s refl))

pub under_lock-returns :
    {S R : Type 0} (f : Bool × S → R) (lock : Option Bool) (refused : R) (o : Option (Bool × S))
    → (ok : Bool) × (lock ≡ some ok)
    → (r : Bool × S) × (o ≡ some r)
    → (r : R) × (under_lock lock refused (Option.map f o) ≡ some r)
unfolding under_lock
under_lock-returns f lock refused o (false, e) ended = (refused, rw e)
under_lock-returns f lock refused o (true, e) (r, e1) = (f r, rw (e, e1))

module _ {S : Type 0} (blocked : S → Bool) (timeout_ms deadline_ms : ℕ) where
  wait_condition_lem :
      (wake : Wake S) (s : S)
      → let (woken, after) = wait_condition timeout_ms deadline_ms wake s in
        (woken ≡ true → after ≡ wake.others s)
        × (woken ≡ false → (after ≡ s) ⊎ (after ≡ wake.others s))
  unfolding wait_condition
  wait_condition_lem wake s =
      let Goal = λ (r : Bool × S).
        (r.0 ≡ true → r.1 ≡ wake.others s) × (r.0 ≡ false → (r.1 ≡ s) ⊎ (r.1 ≡ wake.others s)) in
      if_cases Goal (timeout_ms == wait_forever) (λ _. (λ _. refl, λ _. inr refl))
        (λ _.
          if_cases Goal (timeout_ms == no_wait) (λ _. (λ e. cc, λ _. inl refl))
            (λ _.
              if_cases Goal (leb deadline_ms wake.clock) (λ _. (λ e. cc, λ _. inl refl))
                (λ _. (λ _. refl, λ _. inr refl))))

  -- Behind its limit a wait does not last.
  wait_condition-late :
      (wake : Wake S) (s : S)
      → timeout_ms ≢ wait_forever
      → deadline_ms ≤ wake.clock
      → (wait_condition timeout_ms deadline_ms wake s).0 ≡ false
  unfolding wait_condition
  wait_condition-late wake s limited passed = ground arith

  by_test : (P : S → Type 0) (s : S) → P s → blocked s ≡ false → Ended blocked P (some (true, s))
  by_test P s ps free ok s1 e =
      let same : s ≡ s1 = cc in (subst P same ps, λ _. subst (λ t. blocked t ≡ false) same free)

  by_failure : (P : S → Type 0) (s : S) → P s → Ended blocked P (some (false, s))
  by_failure P s ps ok s1 e = let same : s ≡ s1 = cc in (subst P same ps, λ good. cc)

  -- A wait ends behind what the other threads have done meanwhile; if it ends by its test, the
  -- test says so.
  pub await-Reached :
      (wakes : List (Wake S)) (s : S)
      → Ended blocked (Reached wakes s) (await blocked timeout_ms deadline_ms wakes s)
  unfolding await
  await-Reached [] s =
      if_cases (Ended blocked (Reached [] s)) (blocked s) (λ _ ok s1 e. cc)
        (λ free. by_test (Reached [] s) s Reached.here free)
  await-Reached (wake ∷ wakes) s =
      let after = wait_condition timeout_ms deadline_ms wake s in
      let moved = wait_condition_lem wake s in
      let All_wakes = Reached (wake ∷ wakes) s in
      if_cases (Ended blocked All_wakes) (blocked s)
        (λ _.
          if_cases (Ended blocked All_wakes) after.0
            (λ woken ok s1 e.
              let (reached, free) = await-Reached wakes after.1 ok s1 e in
              (Reached.behind (subst (λ t. Reached wakes t s1) (moved.0 woken) reached), free))
            (λ late. by_failure All_wakes after.1 (elim (moved.1 late) [
              | inl same ↦ subst All_wakes (sym same) Reached.here
              | inr others ↦ subst All_wakes (sym others) (Reached.behind Reached.here)
            ])))
        (λ free. by_test All_wakes s Reached.here free)

  -- A wait with a limit ends, at the latest when it is tried once after the limit.
  pub await-returns :
      (early : List (Wake S)) (late : Wake S) (rest : List (Wake S)) (s : S)
      → timeout_ms ≢ wait_forever
      → deadline_ms ≤ late.clock
      → (r : Bool × S) × (await blocked timeout_ms deadline_ms (early ++ (late ∷ rest)) s ≡ some r)
  unfolding await
  await-returns [] late rest s limited passed =
      if_cases (λ o. (r : Bool × S) × (o ≡ some r)) (blocked s)
        (λ _.
          rw (wait_condition-late late s limited passed)
            ((false, (wait_condition timeout_ms deadline_ms late s).1), refl))
        (λ _. ((true, s), refl))
  await-returns (wake ∷ early) late rest s limited passed =
      let after = wait_condition timeout_ms deadline_ms wake s in
      if_cases (λ o. (r : Bool × S) × (o ≡ some r)) (blocked s)
        (λ _.
          if_cases (λ o. (r : Bool × S) × (o ≡ some r)) after.0
            (λ _. await-returns early late rest after.1 limited passed)
            (λ _. ((false, after.1), refl)))
        (λ _. ((true, s), refl))

pub lock_with_timeout-returns :
    (timeout_ms deadline_ms : ℕ) (early : List LockAttempt) (late : LockAttempt)
    (rest : List LockAttempt)
    → timeout_ms ≢ wait_forever
    → deadline_ms ≤ late.clock
    → (ok : Bool) × (lock_with_timeout timeout_ms deadline_ms (early ++ (late ∷ rest)) ≡ some ok)
unfolding lock_with_timeout
lock_with_timeout-returns timeout_ms deadline_ms [] late rest limited passed =
    if_cases (λ o. (ok : Bool) × (o ≡ some ok)) (timeout_ms == wait_forever) (λ _. (_, refl))
      (λ _.
        if_cases (λ o. (ok : Bool) × (o ≡ some ok)) (is_acquired late.result) (λ _. (_, refl))
          (λ _.
            if_true (λ o. (ok : Bool) × (o ≡ some ok))
              (not (is_busy late.result) || timeout_ms == no_wait || leb deadline_ms late.clock)
              (lock_with_timeout timeout_ms deadline_ms rest) (ground arith) (_, refl)))
lock_with_timeout-returns timeout_ms deadline_ms (attempt ∷ early) late rest limited passed =
    if_cases (λ o. (ok : Bool) × (o ≡ some ok)) (timeout_ms == wait_forever) (λ _. (_, refl))
      (λ _.
        if_cases (λ o. (ok : Bool) × (o ≡ some ok)) (is_acquired attempt.result) (λ _. (_, refl))
          (λ _.
            if_cases (λ o. (ok : Bool) × (o ≡ some ok))
              (not (is_busy attempt.result)
                || timeout_ms == no_wait
                || leb deadline_ms attempt.clock)
              (λ _. (_, refl))
              (λ _.
                lock_with_timeout-returns timeout_ms deadline_ms early late rest limited passed)))
