-- ===== src/Osal/Tests.antt =====
-- The theorems of the OS abstraction at concrete objects.
use wl_hosted_core.Prelude.{
  ℕ, ◌+◌, ◌-◌, ◌^◌, ◌≤◌, ◌≡◌, refl, arith, true, Bool, [], ◌∷◌, ◌++◌, Option, some, ◌==◌,
  if◌then◌else◌, length,
}
use wl_hosted_core.Prelude.Word.{u32}
use wl_hosted_core.Osal.Wait.{LockAttempt, LockResult, Wake, deadline_for_timeout}
use wl_hosted_core.Osal.Queue.{
  QueueState, put_item, get_item, os_queue_create, os_queue_send, os_queue_receive,
}
use wl_hosted_core.Osal.Queue.Fifo
use wl_hosted_core.Osal.Queue.Fifo.{contents, Run-fifo_created}
use wl_hosted_core.Osal.Queue.Calls.{
  Sends, Receives, os_queue_calls-Sections, os_queue_calls-return,
}
use wl_hosted_core.Osal.Semaphore.{
  SemaphoreState, take_count, os_semaphore_create, os_semaphore_take, os_semaphore_give,
}
use wl_hosted_core.Osal.Semaphore.Count
use wl_hosted_core.Osal.Semaphore.Count.{
  IsValid, Takes, Gives, Run-count_created, os_semaphore_calls-Sections,
}

abbrev size_max : ℕ
size_max = 2 ^ 64 - 1

-- A queue with two places, then 7 and 8 sent, 7 received and 9 sent, which goes round.
abbrev two_places : QueueState ℕ
two_places = record { storage = λ i. 0; item_size = 8; capacity = 2; head = 0; count = 0 }

abbrev with_7 : QueueState ℕ
with_7 = (put_item size_max 7 (true, two_places)).1

abbrev with_7_8 : QueueState ℕ
with_7_8 = (put_item size_max 8 (true, with_7)).1

abbrev with_8 : QueueState ℕ
with_8 = (get_item size_max (true, with_7_8)).1

abbrev with_8_9 : QueueState ℕ
with_8_9 = (put_item size_max 9 (true, with_8)).1

sample_run : Fifo.Run size_max two_places (7 ∷ 8 ∷ 9 ∷ []) (7 ∷ []) with_8_9
unfolding put_item get_item
sample_run =
    Fifo.Run.next
      (Fifo.Run.next
        (Fifo.Run.next (Fifo.Run.next Fifo.Run.here (Fifo.Section.put 7 (omega arith)))
          (Fifo.Section.put 8 (omega arith)))
        (Fifo.Section.got (omega arith) refl))
      (Fifo.Section.put 9 (omega arith))

two_places-is_created : os_queue_create true (λ i. 0) 8 2 ≡ some two_places
unfolding os_queue_create
two_places-is_created = refl

Run-fifo_created_example :
    ((7 ∷ 8 ∷ 9 ∷ []) ≡ (7 ∷ []) ++ contents with_8_9)
    × (length (contents with_8_9) ≤ with_8_9.capacity)
Run-fifo_created_example =
    Run-fifo_created size_max true (λ i. 0) 8 2 (omega arith) two_places-is_created sample_run

-- Another thread that takes an item if there is one.
abbrev taker : Wake (QueueState ℕ)
taker = record {
  clock = 40;
  woken = true;
  others = λ t. if t.count == 0 then t else (get_item size_max (true, t)).1;
}

abbrev at_once : LockAttempt
at_once = record { result = LockResult.acquired; clock = 0 }

os_queue_calls-Sections_example :
    ((item : ℕ) (r : Bool × QueueState ℕ)
      → os_queue_send size_max 0 (at_once ∷ []) (taker ∷ []) item 100 with_7_8 ≡ some r
      → Sends size_max (taker ∷ []) with_7_8 item r)
    × ((r : Option ℕ × QueueState ℕ)
        → os_queue_receive size_max 0 (at_once ∷ []) (taker ∷ []) 100 with_7_8 ≡ some r
        → Receives size_max (taker ∷ []) with_7_8 r)
os_queue_calls-Sections_example =
    os_queue_calls-Sections size_max (taker ∷ []) with_7_8 0 (at_once ∷ []) 100

abbrev contended : LockAttempt
contended = record { result = LockResult.busy; clock = 100 }

abbrev idle : Wake (QueueState ℕ)
idle = record { clock = 100; woken = true; others = λ t. t }

limit_passed : deadline_for_timeout 0 100 ≤ 100
unfolding deadline_for_timeout
limit_passed = omega arith

os_queue_calls-return_example :
    let attempts = [] ++ (contended ∷ []) in
    let waits = (taker ∷ []) ++ (idle ∷ []) in
    ((r : Bool × QueueState ℕ) × (os_queue_send size_max 0 attempts waits 9 100 with_7_8 ≡ some r))
    × ((r : Option ℕ × QueueState ℕ) × (os_queue_receive size_max 0 attempts waits 100 with_7_8
          ≡ some r))
os_queue_calls-return_example =
    os_queue_calls-return size_max 0 100 with_7_8 9 [] contended [] (taker ∷ []) idle []
      (omega arith) limit_passed limit_passed

abbrev two_of_three : SemaphoreState
two_of_three = record { count = 2; maximum = 3 }

two_of_three-is_created : os_semaphore_create true 2 3 ≡ some two_of_three
unfolding os_semaphore_create
two_of_three-is_created = refl

-- One unit is taken, one given, and two are taken.
abbrev none_left : SemaphoreState
none_left = record { count = 0; maximum = 3 }

sample_count : Count.Run two_of_three 3 1 none_left
unfolding take_count os_semaphore_give
sample_count =
    Count.Run.next
      (Count.Run.next
        (Count.Run.next (Count.Run.next Count.Run.here (Count.Section.took (omega arith)))
          (Count.Section.gave refl))
        (Count.Section.took (omega arith)))
      (Count.Section.took (omega arith))

Run-count_created_example : (none_left.count ≤ 3) × (3 + none_left.count ≡ 2 + 1)
Run-count_created_example =
    Run-count_created true 2 3 (omega arith) two_of_three-is_created sample_count

-- Another thread that gives a unit if there is room.
abbrev giver : Wake SemaphoreState
giver = record {
  clock = 40;
  woken = true;
  others = λ t. if t.count == t.maximum then t else record t { count = u32 (t.count + 1) };
}

none_left-IsValid : IsValid none_left
none_left-IsValid = record { within = omega arith; small = omega arith }

os_semaphore_calls-Sections_example :
    ((r : Bool × SemaphoreState)
      → os_semaphore_take 0 (at_once ∷ []) (giver ∷ []) 100 none_left ≡ some r
      → Takes (giver ∷ []) none_left r)
    × Gives true none_left (os_semaphore_give true none_left)
os_semaphore_calls-Sections_example =
    os_semaphore_calls-Sections (giver ∷ []) none_left 0 (at_once ∷ []) 100 true none_left-IsValid
