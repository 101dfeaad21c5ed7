-- ===== src/Workers/Crew.antt =====
-- The threads of the pool at the condition variable: who runs, who waits, and who has left.
-- dispatch_command signals after it has given the lock back, and worker_pool_delete broadcasts after
-- it; each is a step of its own.
pub mod Alert
pub mod Join
use foxtails.Base.{
  ℕ, zero, suc, ◌+◌, ◌≤◌, ◌<◌, ◌^◌, Bool, true, false, some, List, [], ◌∷◌, map, get_or, set,
  replicate, ◌≡◌, ◌≢◌, ◌⊎◌,
}
use foxtails.Workers.Trace.{Request}
use foxtails.Workers.{
  WorkerQueue, Turn, wait, leave, call, init_queue, dispatch_command, take_turn, end_turn,
  shut_down,
}

-- A worker thread runs, waits in pthread_cond_wait, or has left its loop.
pub data Thread : Type 0 where
  awake asleep gone : Thread

-- The queue, the threads, and the signals that were promised and not sent yet
pub record Crew : Type 0 where
  pub queue : WorkerQueue
  pub threads : List Thread
  pub signals : ℕ

abbrev pub thread_at : Crew → ℕ → Thread
thread_at c i = get_or c.threads i gone

-- What a turn makes of the queue and of the thread that takes it
abbrev pub after_turn : WorkerQueue → Turn → WorkerQueue × Thread
after_turn q wait = (q, asleep)
after_turn q leave = (q, gone)
after_turn q (call idx a q') = (end_turn q' idx, awake)

-- A thread that runs takes the lock, and goes through one round of its loop.
unfoldable pub run_thread : ℕ → Crew → Crew
run_thread i c =
    let (queue, thread) = after_turn c.queue (take_turn c.queue) in
    elim (thread_at c i) [
      | awake ↦ record c { queue = queue; threads = set c.threads i thread }
      | asleep ↦ c
      | gone ↦ c
    ]

abbrev pub woken : Thread → Thread
woken awake = awake
woken asleep = awake
woken gone = gone

-- pthread_cond_broadcast
unfoldable pub broadcast : Crew → Crew
broadcast c = record c { threads = map woken c.threads }

pub data Step (c : Crew) : Crew → Type 0 where
  dispatch :
      {q' : WorkerQueue} (memory : Bool) (r : Request)
      → c.queue.capacity ≤ 2 ^ 30
      → (memory ≡ true) ⊎ (c.queue.count + 1 < c.queue.capacity)
      → dispatch_command memory c.queue r.action r.payload ≡ some q'
      → Step c (record c { queue = q'; signals = c.signals + 1 })
  signal :
      (i rest : ℕ)
      → c.signals ≡ suc rest
      → thread_at c i ≡ asleep
      → Step c (record c { threads = set c.threads i awake; signals = rest })
  signal_nobody :
      (rest : ℕ)
      → c.signals ≡ suc rest
      → ((i : ℕ) → thread_at c i ≢ asleep)
      → Step c (record c { signals = rest })
  wake_up : (i : ℕ) → thread_at c i ≡ asleep → Step c (record c { threads = set c.threads i awake })
  turn : (i : ℕ) → thread_at c i ≡ awake → Step c (run_thread i c)
  shut : Step c (record c { queue = shut_down c.queue })
  broadcast_all : c.queue.shutting_down ≡ true → Step c (broadcast c)

-- `n` threads that start on an empty queue
pub data Reach (n : ℕ) : Crew → Type 0 where
  start : Reach n (record { queue = init_queue; threads = replicate n awake; signals = 0 })
  next : {c c' : Crew} → Reach n c → Step c c' → Reach n c'
