-- ===== src/Workers/Crew/Alert.antt =====
-- No wakeup is lost: while actions wait, a worker runs or a signal is on its way.
use foxtails.Base.{
  ℕ, zero, suc, ◌+◌, ◌≤◌, ◌<◌, Bool, false, some, List, [], ◌∷◌, map, length, get_or, set,
  replicate, ◌≡◌, ◌≢◌, ◌⊎◌, inl, inr, refl, length-set, length-replicate, sym, ap, ◌∙◌, arith,
}
use foxtails.Workers.Crew.{
  Thread, awake, asleep, gone, Crew, thread_at, after_turn, run_thread, woken, broadcast, Step,
  dispatch, signal, signal_nobody, wake_up, turn, shut, broadcast_all, Reach, start, next,
}
use foxtails.Workers.Queue.{IsValid, length-contents, init_queue-IsValid, dispatch_command-Appended}
use foxtails.Workers.Take.{TurnTakes, take_turn_lem}
use foxtails.Workers.{
  Action, WorkerQueue, Turn, wait, leave, call, grow, put, init_queue, enqueue, dispatch_command,
  take_turn, end_turn, shut_down,
}

-- How many threads run, and how many have left
abbrev pub is_awake : Thread → ℕ
is_awake awake = 1
is_awake _ = 0

abbrev pub is_gone : Thread → ℕ
is_gone gone = 1
is_gone _ = 0

abbrev pub tally : (Thread → ℕ) → List Thread → ℕ
tally f [] = 0
tally f (t ∷ ts) = f t + tally f ts

tally-set :
    (f : Thread → ℕ) (ts : List Thread) (i : ℕ) (t : Thread)
    → get_or ts i gone ≢ gone
    → tally f (set ts i t) + f (get_or ts i gone) ≡ tally f ts + f t
tally-set f [] i t h = absurd (h refl)
tally-set f (x ∷ ts) zero t h = omega arith
tally-set f (x ∷ ts) (suc i) t h = omega (arith, tally-set f ts i t h)

-- While the pool is up no thread has left, and while actions wait too, a thread runs or a signal is
-- on its way.
pub record Alert (n : ℕ) (c : Crew) : Type 0 where
  pub valid : IsValid c.queue
  pub crew : length c.threads ≡ n
  pub stay : c.queue.shutting_down ≡ false → tally is_gone c.threads ≡ 0
  pub ready :
      c.queue.shutting_down ≡ false → c.queue.count ≢ 0 → 0 < c.signals + tally is_awake c.threads

-- Threads of which none waits or has left all run.
all_awake :
    (ts : List Thread)
    → ((i : ℕ) → get_or ts i gone ≢ asleep)
    → tally is_gone ts ≡ 0
    → tally is_awake ts ≡ length ts
all_awake [] h k = refl
all_awake (awake ∷ ts) h k = omega (arith, all_awake ts (λ i. h (suc i)) (omega arith))
all_awake (asleep ∷ ts) h k = absurd (h 0 refl)
all_awake (gone ∷ ts) h k = absurd (omega arith)

dispatch_up :
    (memory : Bool) (q q' : WorkerQueue) (r : foxtails.Workers.Trace.Request)
    → dispatch_command memory q r.action r.payload ≡ some q'
    → q'.shutting_down ≡ q.shutting_down
unfolding dispatch_command enqueue grow put
dispatch_up memory q q' r e = ground arith

length-woken : (ts : List Thread) → length (map woken ts) ≡ length ts
length-woken [] = refl
length-woken (t ∷ ts) = ap suc (length-woken ts)

tally_at :
    (f : Thread → ℕ) (ts : List Thread) (i : ℕ)
    → get_or ts i gone ≢ gone
    → f (get_or ts i gone) ≤ tally f ts
tally_at f [] i h = absurd (h refl)
tally_at f (t ∷ ts) zero h = omega arith
tally_at f (t ∷ ts) (suc i) h = omega (arith, tally_at f ts i h)

-- A thread that waits is made to run.
rouse-Alert :
    {n : ℕ} {c : Crew} (i rest : ℕ)
    → thread_at c i ≡ asleep
    → Alert n c
    → Alert n (record c { threads = set c.threads i awake; signals = rest })
rouse-Alert {n} {c} i rest e h = record {
  valid = h.valid;
  crew = length-set c.threads i awake ∙ h.crew;
  stay = λ up.
      omega
        (arith, h.stay up, tally-set is_gone c.threads i awake (λ k. absurd (cc)), ap is_gone e);
  ready = λ up busy.
      omega (arith, tally-set is_awake c.threads i awake (λ k. absurd (cc)), ap is_awake e);
}

turn-Alert :
    {n : ℕ} {c : Crew} (i : ℕ) (t : Turn)
    → thread_at c i ≡ awake
    → Alert n c
    → TurnTakes c.queue t
    → let (queue, thread) = after_turn c.queue t in
      Alert n (record c { queue = queue; threads = set c.threads i thread })
turn-Alert {n} {c} i wait e h takes = record {
  valid = h.valid;
  crew = length-set c.threads i asleep ∙ h.crew;
  stay = λ up.
      omega
        (arith, h.stay up, tally-set is_gone c.threads i asleep (λ k. absurd (cc)), ap is_gone e);
  ready = λ up busy.
      absurd (busy (sym (length-contents c.queue) ∙ ap (λ (l : List Action). length l) takes.0));
}
turn-Alert {n} {c} i leave e h takes = record {
  valid = h.valid;
  crew = length-set c.threads i gone ∙ h.crew;
  stay = λ up. absurd (cc);
  ready = λ up busy. absurd (cc);
}
turn-Alert {n} {c} i (call idx a q') e h takes = record {
  valid = takes.4;
  crew = length-set c.threads i awake ∙ h.crew;
  stay = λ up.
      omega (
        arith,
        h.stay takes.0,
        tally-set is_gone c.threads i awake (λ k. absurd (cc)),
        ap is_gone e,
      );
  ready = λ up busy. omega (
    arith,
    tally-set is_awake c.threads i awake (λ k. absurd (cc)),
    tally_at is_awake c.threads i (λ k. absurd (cc)),
    ap is_awake e,
  );
}

start_gone : (n : ℕ) → tally is_gone (replicate n awake) ≡ 0
start_gone zero = refl
start_gone (suc n) = omega (arith, start_gone n)

Step-Alert : {n : ℕ} {c c' : Crew} → 0 < n → Step c c' → Alert n c → Alert n c'
unfolding run_thread
Step-Alert {n} {c} some_workers (dispatch memory r small can e) h = record {
  valid = (dispatch_command-Appended memory c.queue _ r.action r.payload e h.valid small can).valid;
  crew = h.crew;
  stay = λ up. h.stay (sym (dispatch_up memory c.queue _ r e) ∙ up);
  ready = λ up busy. omega arith;
}
Step-Alert some_workers (signal i rest e waits) h = rouse-Alert i rest waits h
Step-Alert {n} {c} some_workers (signal_nobody rest e none_waits) h = record {
  valid = h.valid;
  crew = h.crew;
  stay = h.stay;
  ready = λ up busy. omega (arith, all_awake c.threads none_waits (h.stay up), h.crew);
}
Step-Alert {n} {c} some_workers (wake_up i waits) h = rouse-Alert i c.signals waits h
Step-Alert {n} {c} some_workers (turn i runs) h =
    rw (run_thread, runs) (turn-Alert i (take_turn c.queue) runs h (take_turn_lem c.queue h.valid))
Step-Alert some_workers shut h = record {
  valid = omega (arith, h.valid);
  crew = h.crew;
  stay = λ up. absurd (cc);
  ready = λ up busy. absurd (cc);
}
Step-Alert {n} {c} some_workers (broadcast_all down) h =
    unfold broadcast in
    (record {
      valid = h.valid;
      crew = length-woken c.threads ∙ h.crew;
      stay = λ up. absurd (cc);
      ready = λ up busy. absurd (cc);
    })

pub Reach-Alert : (n : ℕ) {c : Crew} → 0 < n → Reach n c → Alert n c
Reach-Alert n some_workers start = record {
  valid = init_queue-IsValid.0;
  crew = length-replicate n awake;
  stay = λ up. start_gone n;
  ready = λ up busy. absurd (busy refl);
}
Reach-Alert n some_workers (next r s) = Step-Alert some_workers s (Reach-Alert n some_workers r)

-- What an action that waits can count on: a signal that is on its way, or a thread that runs and
-- whose next turn calls the callback
abbrev pub IsAttended : Crew → Type 0
IsAttended c =
    (0 < c.signals)
    ⊎ ((i : ℕ) × (thread_at c i ≡ awake)
        × ((idx : ℕ) × (a : Action) × (q : WorkerQueue) × (take_turn c.queue ≡ call idx a q)))

find_awake : (ts : List Thread) → 0 < tally is_awake ts → (i : ℕ) × (get_or ts i gone ≡ awake)
find_awake [] h = absurd (omega arith)
find_awake (awake ∷ ts) h = (0, refl)
find_awake (asleep ∷ ts) h = let (i, e) = find_awake ts (omega arith) in (suc i, e)
find_awake (gone ∷ ts) h = let (i, e) = find_awake ts (omega arith) in (suc i, e)

calls_now :
    (q : WorkerQueue) (t : Turn)
    → TurnTakes q t
    → q.shutting_down ≡ false
    → q.count ≢ 0
    → (idx : ℕ) × (a : Action) × (q' : WorkerQueue) × (t ≡ call idx a q')
calls_now q wait takes up busy =
    absurd (busy (sym (length-contents q) ∙ ap (λ (l : List Action). length l) takes.0))
calls_now q leave takes up busy = absurd (cc)
calls_now q (call idx a q') takes up busy = (idx, a, q', refl)

-- No wakeup is lost in a pool of one or more workers: whatever calls of dispatch_command put into a
-- queue that stays below 2^31 slots, and however the threads take turns, wake up and are woken, as
-- long as nobody shuts the pool down and an action waits, a signal is on its way, or a thread runs
-- whose next turn calls the callback.
pub Reach-IsAttended :
    (n : ℕ) (c : Crew)
    → 0 < n
    → Reach n c
    → c.queue.shutting_down ≡ false
    → c.queue.count ≢ 0
    → IsAttended c
Reach-IsAttended n c some_workers r up busy =
    let h = Reach-Alert n some_workers r in
    attend c.signals refl (h.ready up busy)
      (calls_now c.queue (take_turn c.queue) (take_turn_lem c.queue h.valid) up busy)
  where
    attend :
        (k : ℕ)
        → c.signals ≡ k
        → 0 < c.signals + tally is_awake c.threads
        → ((idx : ℕ) × (a : Action) × (q : WorkerQueue) × (take_turn c.queue ≡ call idx a q))
        → IsAttended c
    attend zero e some_left calls =
        let (i, runs) = find_awake c.threads (omega arith) in inr (i, runs, calls)
    attend (suc k) e some_left calls = inl (omega arith)
