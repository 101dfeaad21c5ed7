-- ===== src/Life/Always.antt =====
-- What holds whenever the main loop and the workers have taken any number of steps.
use foxtails.Base.{
  ℕ, zero, suc, ◌+◌, ◌≤◌, ◌^◌, Option, none, some, List, [], ◌∷◌, All, length, get_or, replicate,
  ==_self, ◌≡◌, ◌⊎◌, inl, inr, refl, sym, ap, ◌∙◌, subst, some_eq, arith,
}
use mathlib.Core.Option
use foxtails.Run.Count.{releases}
use foxtails.Callback.Slot.{IsServed, worker_callback-Returns}
use foxtails.Callback.{Hearing, worker_callback}
use foxtails.Life.Change.{total, total-replicate, holds, flies}
use foxtails.Life.Ending.{worker_callback-Ends}
use foxtails.Life.Invariant.{Sound, sweep-Sound, accept-Sound}
use foxtails.Life.Queue.{call_keeps}
use foxtails.Life.Turns.{IsReadable, event-Sound, turn-Sound}
use foxtails.Life.Waiting.{waiting, count_at, IsCall}
use foxtails.Life.{
  Layout, Life, serve_turn, serve_next, Step, sweep, accept, event, work, Reach, start, next,
  IsOrderly, IsOrderlyStep,
}
use foxtails.Serve.{Site}
use foxtails.Server.{Client, Server, client_at, no_client, server_init}
use foxtails.Server.Start.{server_init-Fresh}
use foxtails.Workers.Queue.{contents, length-contents, init_queue-IsValid}
use foxtails.Workers.Take.{TurnTakes, take_turn_lem}
use foxtails.Workers.{Action, WorkerQueue, Turn, wait, leave, call, init_queue, take_turn, end_turn}

-- A client whose call waits is alive.
served :
    (layout : Layout) (max : ℕ) (l : Life) (a : Action) (actions : List Action)
    → Sound layout max l
    → contents l.queue ≡ a ∷ actions
    → IsServed l.server (layout.decode a.payload)
served layout max l a actions h first = ground (arith, ==_self (layout.decode a.payload).idx, once)
  where
    once :
        count_at (layout.decode a.payload).idx (waiting layout (a ∷ actions))
        ≡ flies (client_at l.server (layout.decode a.payload).idx)
    once =
        ap (λ k. count_at (layout.decode a.payload).idx (waiting layout k)) (sym first)
        ∙ h.once (layout.decode a.payload).idx

-- A worker's turn that served a client
pub record Serves (layout : Layout) (max : ℕ) (l : Life) (answer : Option Life) : Type 0 where
  pub after : Life
  pub done : answer ≡ some after
  pub inv : Sound layout max after
  pub fewer : l.queue.count ≡ after.queue.count + 1

serve_call-Serves :
    (site : Site) (layout : Layout) (max : ℕ) (os : Hearing) (l : Life) (idx : ℕ) (a : Action)
    (q : WorkerQueue)
    → take_turn l.queue ≡ call idx a q
    → Sound layout max l
    → TurnTakes l.queue (call idx a q)
    → Serves layout max l (serve_turn site layout os l (call idx a q))
serve_call-Serves site layout max os l idx a q e h (up, first, vq, same, vq') =
    let c = layout.decode a.payload in
    let alive = served layout max l a (contents q) h first in
    let ends = worker_callback-Ends site os l.server c alive in
    let returns = worker_callback-Returns site os l.server c h.valid alive in
    let keeps = call_keeps l.queue q idx a e in
    record {
      after = record l { server = ends.after; queue = end_turn q idx };
      done = ap (Option.map (λ s. record l { server = s; queue = end_turn q idx })) (
          ap (λ t. worker_callback site os l.server t c) (subst (All IsCall) first h.calls).0
          ∙ ends.returned);
      inv =
          turn-Sound (end_turn q idx) ends.after a _ h vq' (first ∙ ap (◌∷◌ a) (sym same)) keeps
            (subst foxtails.Server.Slots.IsValid (some_eq (sym returns.returned ∙ ends.returned))
              returns.settled.valid)
            ends.ended;
      fewer = keeps.1;
    }

serve_turn-Serves :
    (site : Site) (layout : Layout) (max : ℕ) (os : Hearing) (l : Life) (turn : Turn)
    → take_turn l.queue ≡ turn
    → Sound layout max l
    → TurnTakes l.queue turn
    → ((l.queue.count ≡ 0) × (serve_turn site layout os l turn ≡ none))
      ⊎ Serves layout max l (serve_turn site layout os l turn)
serve_turn-Serves site layout max os l wait e h takes =
    inl (sym (length-contents l.queue) ∙ ap (λ (k : List Action). length k) takes.0, refl)
serve_turn-Serves site layout max os l leave e h takes = absurd (ground (arith, h.up))
serve_turn-Serves site layout max os l (call idx a q) e h takes =
    inr (serve_call-Serves site layout max os l idx a q e h takes)

-- A worker waits just if no action waits, and else serves one client.
pub serve_next-Serves :
    (site : Site) (layout : Layout) (max : ℕ) (os : Hearing) (l : Life)
    → Sound layout max l
    → ((l.queue.count ≡ 0) × (serve_next site layout os l ≡ none))
      ⊎ Serves layout max l (serve_next site layout os l)
unfolding serve_next
serve_next-Serves site layout max os l h =
    serve_turn-Serves site layout max os l (take_turn l.queue) refl h
      (take_turn_lem l.queue h.queued)

Step-Sound :
    (site : Site) (layout : Layout) (max : ℕ) {l l' : Life}
    → IsReadable layout
    → max ≤ 2 ^ 28
    → (step : Step site layout l l') → IsOrderlyStep step
    → Sound layout max l
    → Sound layout max l'
Step-Sound site layout max readable few (sweep timeout now i oldest) o h =
    sweep-Sound timeout now i oldest h
Step-Sound site layout max readable few (accept os socket oldest) o h =
    accept-Sound os socket oldest h
Step-Sound site layout max {l} readable few (event memory slot oldest) o h =
    event-Sound layout max l readable few memory slot oldest o.0 o.1 o.2 h
Step-Sound site layout max {l} readable few (work os e) o h =
    elim (serve_next-Serves site layout max os l h) [
      | inl (idle, none_served) ↦ absurd (cc)
      | inr serves ↦ subst (Sound layout max) (some_eq (sym serves.done ∙ e)) serves.inv
    ]

flies_none : (n i : ℕ) → flies (get_or (replicate n no_client) i no_client) ≡ 0
flies_none zero i = refl
flies_none (suc n) zero = refl
flies_none (suc n) (suc i) = flies_none n i

start-Sound :
    (layout : Layout) (max : ℕ) (s : Server)
    → server_init max ≡ some s
    → Sound layout max (record { server = s; queue = init_queue; opened = [] })
unfolding releases
start-Sound layout max s e =
    let f = server_init-Fresh max s e in
    record {
      valid = f.valid;
      sized = f.sized;
      queued = init_queue-IsValid.0;
      calls = tt;
      once = λ i. sym (ap (λ cs. flies (get_or cs i no_client)) f.table ∙ flies_none max i);
      own = tt;
      all_wait = ap (total flies) f.table ∙ total-replicate flies max refl;
      balance = λ res. omega (
        arith,
        ap (releases res) f.quiet,
        ap (total (holds res)) f.table,
        total-replicate (holds res) max refl,
      );
      up = refl;
      small = omega arith;
    }

-- In every run of the main loop and the workers, their steps in any order, in which each event is
-- for a client that is alive and not in flight when it is handled, and each dispatch finds a free
-- slot in the queue or memory for a larger one: the table and the queue stay valid; the actions that
-- wait are one call for each client that is in flight, with the socket of its slot; and each
-- descriptor was closed, and each address freed, as often as a connection brought it, less the live
-- clients that hold it. The layout of a client is to be read as it was written, and the table is to
-- have at most 2^28 slots.
pub Reach-Sound :
    (site : Site) (layout : Layout) (max : ℕ) {l : Life}
    → IsReadable layout
    → max ≤ 2 ^ 28
    → (run : Reach site layout max l) → IsOrderly run
    → Sound layout max l
Reach-Sound site layout max readable few (start s e) o = start-Sound layout max s e
Reach-Sound site layout max readable few (next r s) o =
    Step-Sound site layout max readable few s o.1 (Reach-Sound site layout max readable few r o.0)
