-- ===== src/Loop/Dispatch.antt =====
-- main.c: the events of a round become requests to the pool of workers, in their order.
use mathlib.Core.List.{append_assoc, append-nil}
use foxtails.Base.{ℕ, ◌≤◌, ◌^◌, true, List, [], ◌∷◌, ◌++◌, ◌≡◌, refl, sym, ◌∙◌, inl}
use foxtails.Loop.{
  Event, on_client, on_listener, Memory, put_in_flight, handle_event, handle_events,
  dispatch_client, dispatch_client_lem,
}
use foxtails.Server.{Server, client_at}
use foxtails.Workers.Trace.{Request, Pool, Reach, next, Step, dispatch}
use foxtails.Workers.{WorkerQueue, new_client}

-- The request of a client that has data: a copy of the client, marked as in flight
abbrev pub request_of : Memory → Server → ℕ → Request
request_of memory s slot = record {
  action = new_client;
  payload = memory.encode (client_at (put_in_flight s slot) slot);
}

-- The requests of a list of events
unfoldable pub requests : Memory → ℕ → List Event → Server × WorkerQueue → List Request
requests memory oldest [] state = []
requests memory oldest (on_client slot ∷ events) (s, queue) =
    request_of memory s slot
    ∷ requests memory oldest events (handle_event memory oldest (on_client slot) (s, queue))
requests memory oldest (on_listener accepted ∷ events) (s, queue) =
    requests memory oldest events (handle_event memory oldest (on_listener accepted) (s, queue))

-- The queue has at most 2^30 slots whenever an event is handled.
abbrev pub StaysSmall : Memory → ℕ → List Event → Server × WorkerQueue → Type 0
StaysSmall memory oldest [] state = Unit
StaysSmall memory oldest (e ∷ events) state =
    (state.1.capacity ≤ 2 ^ 30)
    × StaysSmall memory oldest events (handle_event memory oldest e state)

-- A state of the pool that can be reached, with this queue and these further requests
pub record Sends (p : Pool) (queue : WorkerQueue) (sent : List Request) : Type 0 where
  pub after : Pool
  pub reached : Reach after
  pub queue_is : after.queue ≡ queue
  pub sent_is : after.sent ≡ p.sent ++ sent
  pub none_run : after.ran ≡ p.ran

-- The events of a round are steps of the pool: each client that has data is dispatched once, in the
-- order of the events, as a copy of the client marked as in flight, and no action is run meanwhile,
-- where larger queues can be allocated and the queue stays within 2^30 slots.
pub handle_events-Sends :
    (memory : Memory) (oldest : ℕ) (events : List Event) (s : Server) (p : Pool)
    → memory.larger_queue ≡ true
    → StaysSmall memory oldest events (s, p.queue)
    → Reach p
    → Sends p
        (handle_events memory oldest events (s, p.queue)).1
        (requests memory oldest events (s, p.queue))
unfolding handle_events requests handle_event
handle_events-Sends memory oldest [] s p m small r = record {
  after = p;
  reached = r;
  queue_is = refl;
  sent_is = sym (append-nil p.sent);
  none_run = refl;
}
handle_events-Sends memory oldest (on_client slot ∷ events) s p m small r =
    let request = request_of memory s slot in
    let step : Step p (record p {
      queue = dispatch_client memory p.queue (client_at (put_in_flight s slot) slot);
      sent = p.sent ++ request ∷ [];
    }) =
      dispatch memory.larger_queue request small.0 (inl m)
        (dispatch_client_lem memory p.queue (client_at (put_in_flight s slot) slot)) in
    let rest =
      handle_events-Sends memory oldest events (put_in_flight s slot) _ m small.1 (next r step) in
    record {
      after = rest.after;
      reached = rest.reached;
      queue_is = rest.queue_is;
      sent_is = rest.sent_is ∙ append_assoc p.sent (request ∷ []) _;
      none_run = rest.none_run;
    }
handle_events-Sends memory oldest (on_listener accepted ∷ events) s p m small r =
    handle_events-Sends memory oldest events _ p m small.1 r
