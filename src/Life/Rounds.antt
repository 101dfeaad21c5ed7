-- ===== src/Life/Rounds.antt =====
-- main.c: the rounds of the main loop are steps of the server and its workers.
use foxtails.Base.{ℕ, zero, suc, ◌+◌, Bool, List, [], ◌∷◌, ◌==◌, Bool-cases, inl, inr}
use foxtails.Base.Decimal.{ℤ}
use foxtails.Life.{Layout, memory_of, sweep, accept, event, Reach, next, IsReady, IsOrderly}
use foxtails.Loop.{
  Event, on_client, on_listener, Wait, interrupted, failed, events_at, accept_all, handle_event,
  handle_events, sweep_from, round, main_loop,
}
use foxtails.Serve.{Site}
use foxtails.Server.{Server, Socket, Surroundings, server_append_client}
use foxtails.Workers.{WorkerQueue}

-- Each event on a client is, when it is handled, for a client that is alive and not in flight, and
-- the queue has a free slot or can grow.
abbrev pub AreReady : Layout → Bool → ℕ → List Event → Server × WorkerQueue → Type 0
AreReady layout larger oldest [] state = Unit
AreReady layout larger oldest (on_client slot ∷ events) (s, queue) =
    IsReady larger slot s queue
    × AreReady layout larger oldest events
        (handle_event (memory_of layout larger) oldest (on_client slot) (s, queue))
AreReady layout larger oldest (on_listener accepted ∷ events) (s, queue) =
    AreReady layout larger oldest events
      (handle_event (memory_of layout larger) oldest (on_listener accepted) (s, queue))

-- A state of server and queue that an orderly run reaches, with the sockets that connections have brought
pub record Reached (site : Site) (layout : Layout) (n : ℕ) (state : Server × WorkerQueue)
    : Type 0 where
  pub opened : List Socket
  pub reach : Reach site layout n (record { server = state.0; queue = state.1; opened = opened })
  pub orderly : IsOrderly reach

module _ (site : Site) (layout : Layout) (n : ℕ) where
  sweep_from-Reached :
      (timeout : ℤ) (clock : ℕ → ℕ) (k i : ℕ) (s : Server) (oldest : ℕ) (queue : WorkerQueue)
      → Reached site layout n (s, queue)
      → Reached site layout n ((sweep_from timeout clock k i (s, oldest)).0, queue)
  unfolding sweep_from
  sweep_from-Reached timeout clock zero i s oldest queue r = r
  sweep_from-Reached timeout clock (suc k) i s oldest queue r =
      sweep_from-Reached timeout clock k (i + 1) _ _ queue (record {
        opened = r.opened;
        reach = next r.reach (sweep timeout (clock i) i oldest);
        orderly = (r.orderly, tt);
      })

  accept_all-Reached :
      (s : Server) (oldest : ℕ) (accepted : List (Surroundings × Socket)) (queue : WorkerQueue)
      → Reached site layout n (s, queue)
      → Reached site layout n (accept_all s oldest accepted, queue)
  unfolding accept_all
  accept_all-Reached s oldest [] queue r = r
  accept_all-Reached s oldest ((os, socket) ∷ more) queue r =
      accept_all-Reached (server_append_client os s socket oldest) oldest more queue (record {
        opened = socket ∷ r.opened;
        reach = next r.reach (accept os socket oldest);
        orderly = (r.orderly, tt);
      })

  handle_events-Reached :
      (larger : Bool) (oldest : ℕ) (events : List Event) (s : Server) (queue : WorkerQueue)
      → AreReady layout larger oldest events (s, queue)
      → Reached site layout n (s, queue)
      → Reached site layout n (handle_events (memory_of layout larger) oldest events (s, queue))
  unfolding handle_events handle_event
  handle_events-Reached larger oldest [] s queue ready r = r
  handle_events-Reached larger oldest (on_client slot ∷ events) s queue ready r =
      handle_events-Reached larger oldest events _ _ ready.1 (record {
        opened = r.opened;
        reach = next r.reach (event larger slot oldest);
        orderly = (r.orderly, ready.0);
      })
  handle_events-Reached larger oldest (on_listener accepted ∷ events) s queue ready r =
      handle_events-Reached larger oldest events _ _ ready
        (elim (Bool-cases (s.free_list.head == 0)) [
          | inl e ↦ rw e r
          | inr e ↦ rw e (accept_all-Reached s oldest accepted queue r)
        ])

-- The events of each round are ready once the round has swept the table.
abbrev pub AllReady : Layout → Bool → ℤ → ℕ → List Wait → Server × WorkerQueue → Type 0
AllReady layout larger timeout max [] state = Unit
AllReady layout larger timeout max (interrupted ∷ waits) state =
    AllReady layout larger timeout max waits state
AllReady layout larger timeout max (failed ∷ waits) state =
    AllReady layout larger timeout max waits state
AllReady layout larger timeout max (events_at now clock events ∷ waits) state =
    let swept = sweep_from timeout clock max 0 (state.0, now) in
    AreReady layout larger swept.1 events (swept.0, state.1)
    × AllReady layout larger timeout max waits
        (round (memory_of layout larger) timeout max now clock events state)

round-Reached :
    (site : Site) (layout : Layout) (n : ℕ) (larger : Bool) (timeout : ℤ) (max now : ℕ)
    (clock : ℕ → ℕ) (events : List Event) (s : Server) (queue : WorkerQueue)
    → (let swept = sweep_from timeout clock max 0 (s, now) in
        AreReady layout larger swept.1 events (swept.0, queue))
    → Reached site layout n (s, queue)
    → Reached site layout n
        (round (memory_of layout larger) timeout max now clock events (s, queue))
unfolding round
round-Reached site layout n larger timeout max now clock events s queue ready r =
    let swept = sweep_from timeout clock max 0 (s, now) in
    handle_events-Reached site layout n larger swept.1 events swept.0 queue ready
      (sweep_from-Reached site layout n timeout clock max 0 s now queue r)

-- Rounds of the main loop are steps of the server and its workers: from a state that these reach they
-- come to a state that these reach, if each event is, when it is handled, for a client that is alive
-- and not in flight, and the queue has room for it or memory to grow.
pub main_loop-Reached :
    (site : Site) (layout : Layout) (n : ℕ) (larger : Bool) (timeout : ℤ) (max : ℕ)
    (waits : List Wait) (s : Server) (queue : WorkerQueue)
    → AllReady layout larger timeout max waits (s, queue)
    → Reached site layout n (s, queue)
    → Reached site layout n (main_loop (memory_of layout larger) timeout max waits (s, queue))
unfolding main_loop
main_loop-Reached site layout n larger timeout max [] s queue ready r = r
main_loop-Reached site layout n larger timeout max (interrupted ∷ waits) s queue ready r =
    main_loop-Reached site layout n larger timeout max waits s queue ready r
main_loop-Reached site layout n larger timeout max (failed ∷ waits) s queue ready r =
    main_loop-Reached site layout n larger timeout max waits s queue ready r
main_loop-Reached site layout n larger timeout max (events_at now clock events ∷ waits) s queue
      ready r =
    main_loop-Reached site layout n larger timeout max waits _ _ ready.1
      (round-Reached site layout n larger timeout max now clock events s queue ready.0 r)
