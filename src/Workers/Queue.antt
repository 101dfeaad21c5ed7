-- ===== src/Workers/Queue.antt =====
-- The action queue against a list of actions: what is dispatched goes to the end, and a worker
-- takes the front.
use foxtails.Base.{
  ℕ, zero, suc, ◌+◌, ◌*◌, ◌%◌, ◌^◌, ◌≤◌, ◌<◌, ◌≡◌, refl, sym, ap, ◌∙◌, Bool, true, false, List, [],
  ◌∷◌, ◌++◌, length, get_or, set, replicate, leb, ◌==◌, if◌then◌else◌, arith, length-set,
  length-replicate, get_or-set_self, get_or-set_ne, Bool-cases, inl, inr, ◌⊎◌, none, some, some_eq,
  subst,
}
use foxtails.Base.Bytes.{Bytes}
use foxtails.Workers.Ring.{window, length-window, window-cong, window-set}
use foxtails.Workers.{
  ActionType, Action, cleared, WorkerQueue, u32, init_queue, copy_slots, grow, filled, tail, put,
  payload_size_max, enqueue, dispatch_command,
}
use native.Mathlib.Nat.{mod-eq_of_lt, zero-add}

-- The slots in use lie in the array, one slot at least is free, and no index wraps.
pub record IsValid (q : WorkerQueue) : Type 0 where
  pub sized : length q.slots ≡ q.capacity
  pub head_in : q.head < q.capacity
  pub room : q.count < q.capacity
  pub small : q.capacity ≤ 2 ^ 31

-- The actions that wait, the oldest first.
abbrev pub contents : WorkerQueue → List Action
contents q = window cleared q.slots q.capacity q.head q.count

pub length-contents : (q : WorkerQueue) → length (contents q) ≡ q.count
length-contents q = length-window cleared q.slots q.capacity q.head q.count

-- The queue starts valid and empty.
pub init_queue-IsValid : IsValid init_queue × (contents init_queue ≡ [])
init_queue-IsValid = (omega arith, refl)

-- The copying loop leaves the slots below `i` and fills the next `n` in the order of the queue.
length-copy_slots :
    (q : WorkerQueue) (n i : ℕ) (xs : List Action) → length (copy_slots q n i xs) ≡ length xs
unfolding copy_slots
length-copy_slots q zero i xs = refl
length-copy_slots q (suc n) i xs = length-copy_slots q n (i + 1) _ ∙ length-set xs i _

copy_slots_below :
    (q : WorkerQueue) (n i j : ℕ) (xs : List Action)
    → j < i
    → get_or (copy_slots q n i xs) j cleared ≡ get_or xs j cleared
unfolding copy_slots
copy_slots_below q zero i j xs h = refl
copy_slots_below q (suc n) i j xs h =
    copy_slots_below q n (i + 1) j _ (omega arith) ∙ get_or-set_ne xs i j _ cleared (omega arith)

copy_slots_copied :
    (q : WorkerQueue) (n i j : ℕ) (xs : List Action)
    → i ≤ j
    → j < i + n
    → i + n ≤ length xs
    → get_or (copy_slots q n i xs) j cleared
      ≡ get_or q.slots (u32 (q.head + j) % q.capacity) cleared
unfolding copy_slots
copy_slots_copied q zero i j xs h k f = absurd (omega arith)
copy_slots_copied q (suc n) i j xs h k f = elim (Bool-cases (i == j)) [
  | inl e ↦
      let same : i ≡ j = ground arith in
      copy_slots_below q n (i + 1) j _ (omega arith)
      ∙ rw (← same) (get_or-set_self xs i _ cleared (omega arith))
  | inr e ↦
      copy_slots_copied q n (i + 1) j _ (ground arith) (omega arith)
        (omega (arith, length-set xs i (get_or q.slots (u32 (q.head + i) % q.capacity) cleared)))
]

-- A resize keeps the actions and their order.
grow_lem :
    {q : WorkerQueue}
    → IsValid q
    → q.capacity ≤ 2 ^ 30
    → IsValid (grow q) × (contents (grow q) ≡ contents q) × ((grow q).count + 1 < (grow q).capacity)
unfolding grow
grow_lem {q} v small = (
  record {
    sized =
        length-copy_slots q q.count 0 (replicate bigger cleared) ∙ length-replicate bigger cleared;
    head_in = omega arith;
    room = omega arith;
    small = omega arith;
  },
  window-cong cleared _ q.slots _ q.capacity 0 q.head q.count λ j lt.
      ap (λ k. get_or (copy_slots q q.count 0 (replicate bigger cleared)) k cleared) (place j lt)
      ∙ copy_slots_copied q q.count 0 j (replicate bigger cleared) (omega arith) (omega arith)
          (omega (arith, length-replicate bigger cleared))
      ∙ ap (λ k. get_or q.slots (k % q.capacity) cleared) (no_wrap j lt),
  omega arith,
)
  where
    bigger : ℕ
    bigger = u32 (q.capacity * 2)

    place : (j : ℕ) → j < q.count → (0 + j) % u32 (q.capacity * 2) ≡ j
    place j lt = rw (zero-add, mod-eq_of_lt {n = j} {m = u32 (q.capacity * 2)} (omega arith))

    no_wrap : (j : ℕ) → j < q.count → u32 (q.head + j) ≡ q.head + j
    no_wrap j lt = omega arith

-- What filling the slot behind the last does to a queue with room.
put_lem :
    {q : WorkerQueue} (action : ActionType) (payload : Bytes)
    → IsValid q
    → q.count + 1 < q.capacity
    → IsValid (put q action payload)
      × (contents (put q action payload)
          ≡ contents q ++ filled (get_or q.slots (tail q) cleared) action payload ∷ [])
unfolding put
put_lem {q} action payload v room = (
  record {
    sized = omega (arith, length-set q.slots (tail q) new, v.sized);
    head_in = omega arith;
    room = omega arith;
    small = omega arith;
  },
  ap (λ k. window cleared (set q.slots (tail q) new) q.capacity q.head k) more
      ∙ window-set cleared q.slots q.capacity q.head q.count (tail q) new
          (ap (λ k. k % q.capacity) index) (omega (arith, v.sized)) (omega arith),
)
  where
    new : Action
    new = filled (get_or q.slots (tail q) cleared) action payload

    more : u32 (q.count + 1) ≡ suc q.count
    more = omega arith

    index : u32 (q.head + q.count) ≡ q.head + q.count
    index = omega arith

-- What enqueue has added: one action of that type, whose payload begins with the bytes
-- given, behind those that waited.
pub record Appended (q : WorkerQueue) (action : ActionType) (payload : Bytes) (q' : WorkerQueue)
    : Type 0 where
  pub valid : IsValid q'
  pub slot : Action
  pub appended : contents q' ≡ contents q ++ filled slot action payload ∷ []

put-Appended :
    (q q' : WorkerQueue) (action : ActionType) (payload : Bytes)
    → IsValid q'
    → q'.count + 1 < q'.capacity
    → contents q' ≡ contents q
    → Appended q action payload (put q' action payload)
put-Appended q q' action payload v room same = record {
  valid = (put_lem action payload v room).0;
  slot = get_or q'.slots (tail q') cleared;
  appended =
      (put_lem action payload v room).1
      ∙ ap (λ k. k ++ filled (get_or q'.slots (tail q') cleared) action payload ∷ []) same;
}

-- enqueue adds the action at the end, and keeps the queue valid, if the next slot is not
-- the last free one or there is memory for a larger queue. Otherwise it changes nothing.
pub enqueue_lem :
    (memory : Bool) (q : WorkerQueue) (action : ActionType) (payload : Bytes)
    → IsValid q
    → q.capacity ≤ 2 ^ 30
    → ((memory ≡ true) ⊎ (q.count + 1 < q.capacity)
        → Appended q action payload (enqueue memory q action payload))
      × ((memory ≡ false) × (q.count + 1 ≡ q.capacity) → enqueue memory q action payload ≡ q)
unfolding enqueue
enqueue_lem memory q action payload v small =
    elim (Bool-cases (leb q.capacity (u32 (q.count + 1)))) [
      | inl full ↦ rw full (λ c. when_full memory c (ground arith), λ c. rw c.0)
      | inr free ↦
          rw free
            (λ c. put-Appended q q action payload v (ground arith) refl, λ c. absurd (ground arith))
    ]
  where
    when_full :
        (m : Bool)
        → (m ≡ true) ⊎ (q.count + 1 < q.capacity)
        → q.capacity ≤ q.count + 1
        → Appended q action payload (if m then put (grow q) action payload else q)
    when_full true c f =
        let grown = grow_lem v small in
        put-Appended q (grow q) action payload grown.0 grown.2 grown.1
    when_full false c f = absurd (ground arith)

-- What a call that returned has added
pub dispatch_command-Appended :
    (memory : Bool) (q q' : WorkerQueue) (action : ActionType) (payload : Bytes)
    → dispatch_command memory q action payload ≡ some q'
    → IsValid q
    → q.capacity ≤ 2 ^ 30
    → (memory ≡ true) ⊎ (q.count + 1 < q.capacity)
    → Appended q action payload q'
unfolding dispatch_command
dispatch_command-Appended memory q q' action payload e v small can =
    elim (Bool-cases (leb (length payload) payload_size_max)) [
      | inl fits ↦
          let same : enqueue memory q action payload ≡ q' = some_eq (rw fits at e) in
          subst (Appended q action payload) same
            ((enqueue_lem memory q action payload v small).0 can)
      | inr too_long ↦ absurd (ground arith)
    ]

-- A call that returned without room or memory has changed nothing.
pub dispatch_command_full :
    (q q' : WorkerQueue) (action : ActionType) (payload : Bytes)
    → dispatch_command false q action payload ≡ some q'
    → IsValid q
    → q.capacity ≤ 2 ^ 30
    → q.count + 1 ≡ q.capacity
    → q ≡ q'
unfolding dispatch_command
dispatch_command_full q q' action payload e v small full =
    elim (Bool-cases (leb (length payload) payload_size_max)) [
      | inl fits ↦
          sym ((enqueue_lem false q action payload v small).1 (refl, full)) ∙ some_eq (rw fits at e)
      | inr too_long ↦ absurd (ground arith)
    ]

-- For a payload of at most 128 bytes dispatch_command adds the action at the end, and keeps the
-- queue valid, if the next slot is not the last free one or there is memory for a larger queue, and
-- changes nothing otherwise. For a larger payload its assertion fails. The array is to have at most
-- 2^30 slots.
pub dispatch_command_lem :
    (memory : Bool) (q : WorkerQueue) (action : ActionType) (payload : Bytes)
    → IsValid q
    → q.capacity ≤ 2 ^ 30
    → (length payload ≤ payload_size_max
        → ((memory ≡ true) ⊎ (q.count + 1 < q.capacity)
            → (q' : WorkerQueue) × (dispatch_command memory q action payload ≡ some q')
              × Appended q action payload q')
          × ((memory ≡ false) × (q.count + 1 ≡ q.capacity)
              → dispatch_command memory q action payload ≡ some q))
      × (payload_size_max < length payload → dispatch_command memory q action payload ≡ none)
unfolding dispatch_command
dispatch_command_lem memory q action payload v small =
    let added = enqueue_lem memory q action payload v small in
    (
      λ fits.
          let at_most : leb (length payload) payload_size_max ≡ true = ground arith in
          rw at_most (
            λ can. (enqueue memory q action payload, refl, added.0 can),
            λ full. ap some (added.1 full),
          ),
      λ too_long.
          let more : leb (length payload) payload_size_max ≡ false = ground arith in rw more refl,
    )
