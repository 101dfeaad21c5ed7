-- ===== src/Workers/Take.antt =====
-- A worker takes the front of the action queue, and leaves the rest.
use foxtails.Base.{
  suc, ◌+◌, ◌-◌, ◌%◌, ◌≡◌, ◌≢◌, refl, sym, ap, ◌∙◌, Bool, true, false, not, ◌&&◌, List, [], ◌∷◌,
  get_or, set, ◌==◌, ==_iff, if◌then◌else◌, arith, length-set,
}
use foxtails.Workers.Ring.{window, window-set_front, window-mod}
use foxtails.Workers.{
  Action, cleared, WorkerQueue, u32, Turn, wait, leave, call, marked, take_turn, end_turn,
}
use foxtails.Workers.Queue.{IsValid, contents}
use native.Mathlib.Nat.{mod-eq_of_lt}

-- What a worker's turn does with the actions that wait.
abbrev pub TurnTakes : WorkerQueue → Turn → Type 0
TurnTakes q wait = (contents q ≡ []) × (q.shutting_down ≡ false)
TurnTakes q leave = q.shutting_down ≡ true
TurnTakes q (call idx a q') =
    (q.shutting_down ≡ false)
    × (contents q ≡ a ∷ contents q')
    × IsValid q'
    × (contents (end_turn q' idx) ≡ contents q')
    × IsValid (end_turn q' idx)

-- The actions behind the first, after any write to the first one's slot.
contents_behind :
    (q : WorkerQueue) (slots : List Action)
    → IsValid q
    → window cleared slots q.capacity (q.head + 1) (q.count - 1)
      ≡ window cleared q.slots q.capacity (q.head + 1) (q.count - 1)
    → window cleared slots q.capacity (u32 (q.head + 1) % q.capacity) (q.count - 1)
      ≡ window cleared q.slots q.capacity (q.head + 1) (q.count - 1)
contents_behind q slots v e =
    ap (λ k. window cleared slots q.capacity (k % q.capacity) (q.count - 1)) no_wrap
    ∙ window-mod cleared slots q.capacity (q.head + 1) (q.count - 1)
    ∙ e
  where
    no_wrap : u32 (q.head + 1) ≡ q.head + 1
    no_wrap = omega arith

contents_first :
    (q : WorkerQueue)
    → IsValid q
    → q.count ≢ 0
    → contents q
      ≡ get_or q.slots q.head cleared ∷ window cleared q.slots q.capacity (q.head + 1) (q.count - 1)
contents_first q v busy =
    ap (λ k. window cleared q.slots q.capacity q.head k) some_left
    ∙ ap
        (λ k.
          get_or q.slots k cleared ∷ window cleared q.slots q.capacity (q.head + 1) (q.count - 1))
        (mod-eq_of_lt v.head_in)
  where
    some_left : q.count ≡ suc (q.count - 1)
    some_left = omega arith

call_lem :
    (q : WorkerQueue) (first last : Action)
    → IsValid q
    → q.count ≢ 0
    → let q' = record q {
      slots = set q.slots q.head first;
      head = u32 (q.head + 1) % q.capacity;
      count = q.count - 1;
    } in
      let q'' = record q' { slots = set q'.slots q.head last } in
      (contents q ≡ get_or q.slots q.head cleared ∷ contents q')
      × IsValid q'
      × (contents q'' ≡ contents q')
      × IsValid q''
call_lem q first last v busy = (
  contents_first q v busy ∙ ap (◌∷◌ (get_or q.slots q.head cleared)) (sym once),
  record {
    sized = omega (arith, v.sized, length-set q.slots q.head first);
    head_in = omega arith;
    room = omega arith;
    small = v.small;
  },
  twice ∙ sym once,
  record {
    sized = omega (
      arith,
      v.sized,
      length-set q.slots q.head first,
      length-set (set q.slots q.head first) q.head last,
    );
    head_in = omega arith;
    room = omega arith;
    small = v.small;
  },
)
  where
    place : q.head ≡ q.head % q.capacity
    place = sym (mod-eq_of_lt v.head_in)

    one :
        window cleared (set q.slots q.head first) q.capacity (q.head + 1) (q.count - 1)
        ≡ window cleared q.slots q.capacity (q.head + 1) (q.count - 1)
    one =
        window-set_front cleared q.slots q.capacity q.head (q.count - 1) q.head first place
          (omega arith)

    once :
        window cleared
          (set q.slots q.head first)
          q.capacity
          (u32 (q.head + 1) % q.capacity)
          (q.count - 1)
        ≡ window cleared q.slots q.capacity (q.head + 1) (q.count - 1)
    once = contents_behind q (set q.slots q.head first) v one

    twice :
        window cleared
          (set (set q.slots q.head first) q.head last)
          q.capacity
          (u32 (q.head + 1) % q.capacity)
          (q.count - 1)
        ≡ window cleared q.slots q.capacity (q.head + 1) (q.count - 1)
    twice = contents_behind q (set (set q.slots q.head first) q.head last) v (
        window-set_front cleared (set q.slots q.head first) q.capacity q.head (q.count - 1) q.head
          last place (omega arith)
        ∙ one)

turn_step :
    (q : WorkerQueue) (idle down : Bool)
    → IsValid q
    → (q.count == 0) ≡ idle
    → q.shutting_down ≡ down
    → TurnTakes q (
        if idle && not down
        then wait
        else if down
        then leave
        else call q.head (get_or q.slots q.head cleared) (record (marked q q.head true) {
          head = u32 (q.head + 1) % q.capacity;
          count = q.count - 1;
        }))
unfolding end_turn
turn_step q true true v idle down = down
turn_step q false true v idle down = down
turn_step q true false v idle down =
    (ap (λ k. window cleared q.slots q.capacity q.head k) ((==_iff q.count 0).0 idle), down)
turn_step q false false v idle down =
    let (first, valid, same, valid') = call_lem q _ _ v (ground arith) in
    (down, first, valid, same, valid')

-- A worker waits exactly while nothing is queued and nobody shuts the pool down, leaves when
-- somebody does, and else calls the callback for the oldest action, which it takes from the queue;
-- the others wait on in their order when the call begins and when it ends.
pub take_turn_lem : (q : WorkerQueue) → IsValid q → TurnTakes q (take_turn q)
unfolding take_turn
take_turn_lem q v = turn_step q (q.count == 0) q.shutting_down v refl refl
