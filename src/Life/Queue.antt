-- ===== src/Life/Queue.antt =====
-- What the queue's size and the number of its actions become.
use foxtails.Base.{
  ℕ, ◌+◌, ◌-◌, ◌*◌, ◌%◌, ◌≤◌, Bool, true, false, not, ◌&&◌, ◌⊎◌, List, length, get_or, ◌==◌,
  if◌then◌else◌, ◌≡◌, refl, sym, ap, ◌∙◌, arith, length-append, subst,
}
use foxtails.Base.Bytes.{Bytes}
use foxtails.Workers.Queue.{IsValid, contents, Appended, length-contents}
use foxtails.Workers.{
  ActionType, Action, cleared, WorkerQueue, u32, Turn, wait, leave, call, grow, put, marked,
  enqueue, take_turn, end_turn,
}

-- A queue grows to at most twice the number of its actions.
pub enqueue_capacity :
    (memory : Bool) (q : WorkerQueue) (action : ActionType) (payload : Bytes)
    → IsValid q
    → let size = (enqueue memory q action payload).capacity in
      (size ≡ q.capacity) ⊎ (size ≤ 2 * (q.count + 1))
unfolding enqueue grow put
enqueue_capacity memory q action payload v = ground arith

pub enqueue_up :
    (memory : Bool) (q : WorkerQueue) (action : ActionType) (payload : Bytes)
    → (enqueue memory q action payload).shutting_down ≡ q.shutting_down
unfolding enqueue grow put
enqueue_up memory q action payload = ground arith

pub Appended-count :
    {q q' : WorkerQueue} {action : ActionType} {payload : Bytes}
    → Appended q action payload q'
    → q'.count ≡ q.count + 1
Appended-count {q} {q'} {action} {payload} h =
    sym (length-contents q')
    ∙ ap (λ (l : List Action). length l) h.appended
    ∙ length-append (contents q) _
    ∙ ap (λ n. n + 1) (length-contents q)

-- A turn that calls, and the queue during the call
abbrev CallKeeps : WorkerQueue → Turn → Type 0
CallKeeps q wait = Unit
CallKeeps q leave = Unit
CallKeeps q (call idx a q') =
    (q'.capacity ≡ q.capacity) × (q.count ≡ q'.count + 1) × (q'.shutting_down ≡ q.shutting_down)

turn_keeps :
    (q : WorkerQueue) (idle down : Bool)
    → (q.count == 0) ≡ idle
    → CallKeeps q (
        if idle && not down
        then wait
        else if down
        then leave
        else call q.head (get_or q.slots q.head cleared) (record (marked q q.head true) {
          head = u32 (q.head + 1) % q.capacity;
          count = q.count - 1;
        }))
turn_keeps q true true h = tt
turn_keeps q true false h = tt
turn_keeps q false true h = tt
turn_keeps q false false h = (refl, ground arith, refl)

take_turn_keeps : (q : WorkerQueue) → CallKeeps q (take_turn q)
unfolding take_turn
take_turn_keeps q = turn_keeps q (q.count == 0) q.shutting_down refl

-- A worker takes one action, and leaves the queue its size.
pub call_keeps :
    (q q' : WorkerQueue) (idx : ℕ) (a : Action)
    → take_turn q ≡ call idx a q'
    → ((end_turn q' idx).capacity ≡ q.capacity)
      × (q.count ≡ (end_turn q' idx).count + 1)
      × ((end_turn q' idx).shutting_down ≡ q.shutting_down)
unfolding end_turn
call_keeps q q' idx a e = subst (CallKeeps q) e (take_turn_keeps q)
