-- ===== src/Osal/Queue/Fifo.antt =====
-- A queue of posix_osal.c hands its items on in the order in which they came.
use wl_hosted_core.Prelude.{
  ℕ, zero, suc, ◌+◌, ◌-◌, ◌%◌, ◌≤◌, ◌<◌, ◌≡◌, ◌≢◌, refl, ◌∙◌, sym, ap, ap₂, arith, true, List, [],
  ◌∷◌, ◌++◌, append_assoc, append-nil, some, length, Bool, update, update_same, update_other,
}
use native.Mathlib.Nat.{mod-mod, mod-add-mod, mod-eq_of_lt, mod-eq-sub-mod}
use native.Mathlib.Decide.{dec_lt}
use wl_hosted_core.Osal.Queue.{QueueState, os_queue_create, add_size, put_item, get_item}

module _ {A : Type 0} (f : ℕ → A) (capacity : ℕ) where
  -- The `n` items from index `i` on, an index being read modulo the capacity.
  abbrev pub items : ℕ → ℕ → List A
  items i zero = []
  items i (suc n) = f (i % capacity) ∷ items (i + 1) n

  items_congr : (i j n : ℕ) → i % capacity ≡ j % capacity → items i n ≡ items j n
  items_congr i j zero e = refl
  items_congr i j (suc n) e = ap₂ ◌∷◌ (ap f e) (items_congr (i + 1) (j + 1) n next)
    where
      next : (i + 1) % capacity ≡ (j + 1) % capacity
      next =
          sym (mod-add-mod i capacity 1)
          ∙ ap (λ (k : ℕ). (k + 1) % capacity) e
          ∙ mod-add-mod j capacity 1

-- From an index one does not come back to it in fewer steps than there are places.
step-ne : (capacity h k : ℕ) → h < capacity → 0 < k → k < capacity → h ≢ (h + k) % capacity
step-ne capacity h k hh p hk = elim (dec_lt (h + k) capacity) [
  | yes near ↦ omega (arith, mod-eq_of_lt near)
  | no far ↦ omega (
    arith,
    mod-eq-sub-mod {n = h + k} {m = capacity} (omega arith),
    mod-eq_of_lt {n = h + k - capacity} {m = capacity} (omega arith),
  )
]

mod-ne : (capacity i k : ℕ) → 0 < k → k < capacity → i % capacity ≢ (i + k) % capacity
mod-ne capacity i k p h same =
    step-ne capacity (i % capacity) k (omega arith) p h (same ∙ sym (mod-add-mod i capacity k))

-- What is written behind a window that does not fill the array extends it.
items-update :
    {A : Type 0} (f : ℕ → A) (capacity i n t : ℕ) (x : A)
    → n < capacity
    → t ≡ (i + n) % capacity
    → items (update f t x) capacity i (suc n) ≡ items f capacity i n ++ (x ∷ [])
items-update f capacity i zero t x h e =
    ap (λ a. a ∷ [])
      (ap (update f t x) {x = i % capacity} {y = t}
          (sym (e ∙ ap (λ (k : ℕ). k % capacity) (omega arith)))
        ∙ update_same f x t)
items-update f capacity i (suc n) t x h e =
    ap₂ ◌∷◌
      (update_other f x t (i % capacity)
        (λ same. mod-ne capacity i (suc n) (omega arith) h (same ∙ e)))
      (items-update f capacity (i + 1) n t x (omega arith)
        (e ∙ ap (λ (k : ℕ). k % capacity) (omega arith)))

abbrev pub contents : {A : Type 0} → QueueState A → List A
contents q = items q.storage q.capacity q.head q.count

-- What `os_queue_create` sets up and every operation keeps. Both halves of the storage have places
-- that a `size_t` can count, so no addition wraps.
pub record IsValid {A : Type 0} (size_max : ℕ) (q : QueueState A) : Type 0 where
  pub head_in : q.head < q.capacity
  pub count_in : q.count ≤ q.capacity
  pub small : q.capacity + q.capacity ≤ size_max

-- The code tests `count == 0`; `items` matches on it.
items_of_ne_zero :
    {A : Type 0} (f : ℕ → A) (capacity i n : ℕ)
    → n ≢ 0
    → items f capacity i n ≡ f (i % capacity) ∷ items f capacity (i + 1) (n - 1)
items_of_ne_zero f capacity i zero ne = absurd (ne refl)
items_of_ne_zero f capacity i (suc n) ne =
    ap (λ (k : ℕ). f (i % capacity) ∷ items f capacity (i + 1) k) (omega arith)

add_size_lem : (size_max a b : ℕ) → a + b ≤ size_max → add_size size_max a b ≡ a + b
add_size_lem size_max a b h = mod-eq_of_lt (omega arith)

module _ {A : Type 0} (size_max : ℕ) where
  put_item-IsValid :
      (x : A) (q : QueueState A)
      → IsValid size_max q
      → q.count ≢ q.capacity
      → IsValid size_max (put_item size_max x (true, q)).1
  unfolding put_item
  put_item-IsValid x q v room =
      let last = add_size_lem size_max q.count 1 (omega arith) in
      record { head_in = v.head_in; count_in = omega (arith, last); small = v.small }

  contents-put_item :
      (x : A) (q : QueueState A)
      → IsValid size_max q
      → q.count ≢ q.capacity
      → contents (put_item size_max x (true, q)).1 ≡ contents q ++ (x ∷ [])
  unfolding put_item
  contents-put_item x q v room = rw (add_size_lem size_max q.count 1 (omega arith)) (
      rw (add_size_lem size_max q.head q.count (omega arith)) (
        ap (items (update q.storage ((q.head + q.count) % q.capacity) x) q.capacity q.head)
          {x = q.count + 1} {y = suc q.count} (omega arith)
        ∙ items-update q.storage q.capacity q.head q.count ((q.head + q.count) % q.capacity) x
            (omega arith) refl))

  get_item-IsValid :
      (q : QueueState A)
      → IsValid size_max q
      → q.count ≢ 0
      → IsValid size_max (get_item size_max (true, q)).1
  unfolding get_item
  get_item-IsValid q v some_left = record {
    head_in = omega arith;
    count_in = omega arith;
    small = v.small;
  }

  contents-get_item :
      (q : QueueState A)
      → IsValid size_max q
      → q.count ≢ 0
      → {item : A} → (get_item size_max (true, q)).0 ≡ some item
      → contents q ≡ item ∷ contents (get_item size_max (true, q)).1
  unfolding get_item
  contents-get_item q v some_left {item = item} got =
      let first : q.storage q.head ≡ item = cc in
      items_of_ne_zero q.storage q.capacity q.head q.count some_left
      ∙ ap₂ ◌∷◌ (ap q.storage (mod-eq_of_lt v.head_in) ∙ first) (
          items_congr q.storage q.capacity (q.head + 1) (add_size size_max q.head 1 % q.capacity)
            (q.count - 1)
            (ap (λ (k : ℕ). k % q.capacity) (sym (add_size_lem size_max q.head 1 (omega arith)))
              ∙ sym (mod-mod (add_size size_max q.head 1) q.capacity)))

  create_lem :
      (ready : Bool) (storage : ℕ → A) (item_size capacity : ℕ) {q : QueueState A}
      → capacity + capacity ≤ size_max
      → os_queue_create ready storage item_size capacity ≡ some q
      → IsValid size_max q × (contents q ≡ [])
  unfolding os_queue_create
  create_lem ready storage item_size capacity {q} small e =
      let none_yet : q.count ≡ 0 = ground arith in
      let at_start : q.head < q.capacity = ground arith in
      let room : q.capacity ≡ capacity = ground arith in
      (
        record { head_in = at_start; count_in = omega arith; small = omega (arith, room) },
        ap (items q.storage q.capacity q.head) none_yet,
      )

  -- The part of a call behind its wait, under the lock: the only part that changes the queue. The
  -- lists are what is sent and what is received.
  pub data Section (q : QueueState A) : List A → List A → QueueState A → Type 0 where
    put : (x : A) → q.count ≢ q.capacity → Section q (x ∷ []) [] (put_item size_max x (true, q)).1
    got :
        {item : A}
        → q.count ≢ 0
        → (get_item size_max (true, q)).0 ≡ some item
        → Section q [] (item ∷ []) (get_item size_max (true, q)).1

  -- Any threads' calls, in the order in which they hold the lock.
  pub data Run (q : QueueState A) : List A → List A → QueueState A → Type 0 where
    here : Run q [] [] q
    next :
        {sent received s r : List A} {q1 q2 : QueueState A}
        → Run q sent received q1
        → Section q1 s r q2
        → Run q (sent ++ s) (received ++ r) q2

  Section-fifo :
      {q : QueueState A} {s r : List A} {q1 : QueueState A}
      → IsValid size_max q
      → Section q s r q1
      → IsValid size_max q1 × (contents q ++ s ≡ r ++ contents q1)
  Section-fifo {q = q} v (put x room) =
      (put_item-IsValid x q v room, sym (contents-put_item x q v room))
  Section-fifo {q = q} v (got left first) =
      (get_item-IsValid q v left, append-nil (contents q) ∙ contents-get_item q v left first)

  Run-fifo :
      {q : QueueState A} {sent received : List A} {q1 : QueueState A}
      → IsValid size_max q
      → Run q sent received q1
      → IsValid size_max q1 × (contents q ++ sent ≡ received ++ contents q1)
  Run-fifo {q = q} v here = (v, append-nil (contents q))
  Run-fifo {q = q} {q1} v (next {sent} {received} {s} {r} {q1 = m} run last) =
      let before = Run-fifo v run in
      let after = Section-fifo before.0 last in
      (
        after.0,
        sym (append_assoc (contents q) sent s)
            ∙ ap (λ t. t ++ s) before.1
            ∙ append_assoc received (contents m) s
            ∙ ap (λ t. received ++ t) after.1
            ∙ sym (append_assoc received r (contents q1)),
      )

  length-items : (f : ℕ → A) (capacity i n : ℕ) → length (items f capacity i n) ≡ n
  length-items f capacity i zero = refl
  length-items f capacity i (suc n) = ap suc (length-items f capacity (i + 1) n)

  -- From a queue that was just created on, whose doubled capacity a `size_t` holds, whatever sections
  -- of whatever threads there are: what was received, followed by what the queue holds, is what was
  -- sent, in its order, and the queue holds no more items than its capacity.
  pub Run-fifo_created :
      (ready : Bool) (storage : ℕ → A) (item_size capacity : ℕ) {q : QueueState A}
      {sent received : List A} {q1 : QueueState A}
      → capacity + capacity ≤ size_max
      → os_queue_create ready storage item_size capacity ≡ some q
      → Run q sent received q1
      → (sent ≡ received ++ contents q1) × (length (contents q1) ≤ q1.capacity)
  Run-fifo_created ready storage item_size capacity {q} {sent} {q1 = q1} small e run =
      let made = create_lem ready storage item_size capacity small e in
      let fifo = Run-fifo made.0 run in
      (
        ap (λ t. t ++ sent) (sym made.1) ∙ fifo.1,
        omega (arith, (fifo.0).count_in, length-items q1.storage q1.capacity q1.head q1.count),
      )
