-- ===== src/Tests/LoopTests.antt =====
-- foxtails/src/main.c on a small table.
use foxtails.Base.{ℕ, true, false, List, [], ◌∷◌, ◌≡◌, refl, arith, replicate}
use foxtails.Base.Decimal.{pos}
use foxtails.Loop.Dispatch.{Sends, requests, handle_events-Sends}
use foxtails.Loop.Sweep.{Swept, sweep_from-Swept}
use foxtails.Loop.{
  handle_event, handle_events, round, dispatch_client, Event, on_client, on_listener, Memory,
  sweep_from, sweep_slot, is_idle,
}
use foxtails.Server.{Server, client_at, server_remove_client}
use foxtails.Tests.ServerTests.{os, visitor, one_taken, one_taken-IsValid}
use foxtails.Workers.Trace.{start, here}
use foxtails.Workers.{WorkerQueue, enqueue, put, init_queue}

abbrev at_160 : ℕ → ℕ
at_160 i = 160

-- The client of slot 0 was last heard at 80.
idle_test : (client_at (sweep_from (pos 75) at_160 2 0 (one_taken, 160)).0 0).is_alive ≡ false
unfolding sweep_from sweep_slot is_idle server_remove_client
idle_test = refl

busy_test : (client_at (sweep_from (pos 90) at_160 2 0 (one_taken, 160)).0 0).is_alive ≡ true
unfolding sweep_from sweep_slot is_idle server_remove_client
busy_test = refl

sweep_from-Swept_example :
    Swept (pos 75) at_160 2 0 one_taken (sweep_from (pos 75) at_160 2 0 (one_taken, 160)).0
sweep_from-Swept_example = sweep_from-Swept (pos 75) at_160 2 0 one_taken 160 one_taken-IsValid

abbrev memory : Memory
memory = record { encode = λ c. replicate 8 0; fits = λ c. omega arith; larger_queue = true }

abbrev events : List Event
events = on_client 0 ∷ on_listener ((os, visitor) ∷ []) ∷ []

-- The queue of 8 slots takes the one request as it is.
handle_events-Sends_example :
    Sends start
      (handle_events memory 160 events (one_taken, init_queue)).1
      (requests memory 160 events (one_taken, init_queue))
unfolding handle_event dispatch_client enqueue put
handle_events-Sends_example =
    handle_events-Sends memory 160 events one_taken start refl (omega arith, (omega arith, tt)) here

-- A client that is swept in the round in which epoll has reported its data: its slot is free, and
-- yet it is marked as in flight, and its action waits.
abbrev swept_round : Server × WorkerQueue
swept_round = round memory (pos 75) 2 160 at_160 (on_client 0 ∷ []) (one_taken, init_queue)

swept_and_dispatched_test :
    ((client_at swept_round.0 0).is_alive ≡ false)
    × ((client_at swept_round.0 0).in_flight ≡ true)
    × (swept_round.1.count ≡ 1)
unfolding round sweep_from sweep_slot is_idle server_remove_client handle_events handle_event
    dispatch_client enqueue put
swept_and_dispatched_test = (refl, refl, refl)
