-- ===== src/Workers.antt =====
-- utils/workers.c and include/workers.h: the queue of actions between the main loop and the worker
-- threads. dispatch_command and the body of worker_loop hold the queue's mutex from their first
-- access to their last, the callback included, so each is one step here. An unsigned int is taken
-- modulo 2^32; a memory allocation that can fail is an argument.
pub mod Ring
pub mod Queue
pub mod Take
pub mod Trace
pub mod Crew
use foxtails.Base.{
  ℕ, zero, suc, ◌+◌, ◌-◌, ◌*◌, ◌%◌, ◌^◌, ◌≤◌, Bool, true, false, not, ◌&&◌, Option, none, some,
  List, [], ◌∷◌, ◌++◌, length, get_or, set, drop, replicate, leb, ltb, ◌==◌, if◌then◌else◌,
}
use foxtails.Base.Bytes.{Bytes}

-- WORKER_ACTION_*
pub data ActionType : Type 0 where
  noop new_client : ActionType

-- WORKER_ACTION_PAYLOAD_SIZE
abbrev pub payload_size_max : ℕ
payload_size_max = 128

-- worker_action_t
pub record Action : Type 0 where
  pub lock : Bool
  pub exists : Bool
  pub type : ActionType
  pub payload : Bytes

-- A slot that pcalloc has cleared.
unfoldable pub cleared : Action
cleared = record {
  lock = false;
  exists = false;
  type = noop;
  payload = replicate payload_size_max 0;
}

-- struct worker_queue, less the mutex and the condition variable.
pub record WorkerQueue : Type 0 where
  pub slots : List Action
  pub head : ℕ
  pub count : ℕ
  pub capacity : ℕ
  pub shutting_down : Bool

abbrev pub u32 : ℕ → ℕ
u32 n = n % 2 ^ 32

-- init_queue
abbrev pub init_queue : WorkerQueue
init_queue = record {
  slots = replicate 8 cleared;
  head = 0;
  count = 0;
  capacity = 8;
  shutting_down = false;
}

-- `n` rounds of the copying loop of dispatch_command, from round `i` on.
pub copy_slots : WorkerQueue → ℕ → ℕ → List Action → List Action
copy_slots q zero i new_data = new_data
copy_slots q (suc n) i new_data =
    copy_slots q n (i + 1) (set new_data i (get_or q.slots (u32 (q.head + i) % q.capacity) cleared))

-- The resize of dispatch_command, once it has its memory.
unfoldable pub grow : WorkerQueue → WorkerQueue
grow q =
    let new_capacity = u32 (q.capacity * 2) in
    record q {
      slots = copy_slots q q.count 0 (replicate new_capacity cleared);
      head = 0;
      capacity = new_capacity;
    }

-- memcpy to the front of the payload
abbrev pub overwrite : Bytes → Bytes → Bytes
overwrite old payload = payload ++ drop (length payload) old

abbrev pub filled : Action → ActionType → Bytes → Action
filled slot action payload = record {
  lock = false;
  exists = true;
  type = action;
  payload = overwrite slot.payload payload;
}

abbrev pub tail : WorkerQueue → ℕ
tail q = u32 (q.head + q.count) % q.capacity

-- The part of dispatch_command that fills the slot behind the last.
unfoldable pub put : WorkerQueue → ActionType → Bytes → WorkerQueue
put q action payload = record q {
  slots = set q.slots (tail q) (filled (get_or q.slots (tail q) cleared) action payload);
  count = u32 (q.count + 1);
}

-- dispatch_command behind its assertion; `memory` says whether pcalloc succeeds. Without memory for a
-- larger queue the action is dropped.
unfoldable pub enqueue : Bool → WorkerQueue → ActionType → Bytes → WorkerQueue
enqueue memory q action payload =
    if leb q.capacity (u32 (q.count + 1))
    then (if memory then put (grow q) action payload else q)
    else put q action payload

-- dispatch_command; `none` where assert(payload_size <= WORKER_ACTION_PAYLOAD_SIZE) fails.
unfoldable pub dispatch_command : Bool → WorkerQueue → ActionType → Bytes → Option WorkerQueue
dispatch_command memory q action payload =
    if leb (length payload) payload_size_max then some (enqueue memory q action payload) else none

-- What a worker thread does when it holds the lock: it waits on the condition, leaves its loop, or
-- calls the callback for the slot `idx`, with the queue as it is during the call.
pub data Turn : Type 0 where
  wait : Turn
  leave : Turn
  call : ℕ → Action → WorkerQueue → Turn

abbrev pub marked : WorkerQueue → ℕ → Bool → WorkerQueue
marked q idx locked =
    let slot = get_or q.slots idx cleared in
    record q { slots = set q.slots idx (record slot { lock = locked; exists = false }) }

-- One round of the loop of worker_loop, up to the call.
unfoldable pub take_turn : WorkerQueue → Turn
take_turn q =
    if q.count == 0 && not q.shutting_down
    then wait
    else if q.shutting_down
    then leave
    else call q.head (get_or q.slots q.head cleared) (record (marked q q.head true) {
      head = u32 (q.head + 1) % q.capacity;
      count = q.count - 1;
    })

-- After the callback
unfoldable pub end_turn : WorkerQueue → ℕ → WorkerQueue
end_turn q idx = marked q idx false

-- The change that worker_pool_delete makes.
abbrev pub shut_down : WorkerQueue → WorkerQueue
shut_down q = record q { shutting_down = true }
