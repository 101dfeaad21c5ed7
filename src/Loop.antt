-- ===== src/Loop.antt =====
-- foxtails/src/main.c: one round of the loop of main, with utils/workers.c: dispatch_client. The
-- answers of epoll_wait, time and accept, and the layout of a client in memory, are arguments.
pub mod Sweep
pub mod Round
pub mod Dispatch
use foxtails.Base.{
  ℕ, zero, suc, ◌+◌, Bool, true, false, not, ◌&&◌, ◌||◌, List, [], ◌∷◌, set, length, ◌≤◌, ◌≡◌, refl,
  some, arith, leb, ◌==◌, if◌then◌else◌,
}
use foxtails.Base.Bytes.{Bytes}
use foxtails.Base.Decimal.{ℤ, pos, negsuc}
use foxtails.Server.{
  Socket, Client, Server, Surroundings, client_at, server_append_client, server_remove_client,
}
use foxtails.Workers.{WorkerQueue, payload_size_max, new_client, enqueue, dispatch_command}

-- now - last_recv >= timeout, in signed numbers
unfoldable pub is_idle : ℤ → ℕ → ℕ → Bool
is_idle (pos t) now last_recv = leb (last_recv + t) now
is_idle (negsuc t) now last_recv = leb last_recv (now + (t + 1))

-- The test of one slot: alive, not in flight, and idle for too long
abbrev pub is_expired : ℤ → ℕ → Client → Bool
is_expired timeout now c = c.is_alive && not c.in_flight && is_idle timeout now c.last_recv

-- One round of the loop over the slots, with the value that oldest_timestamp has
unfoldable pub sweep_slot : ℤ → ℕ → ℕ → Server × ℕ → Server × ℕ
sweep_slot timeout now i (s, oldest) =
    let snapshot = client_at s i in
    if not snapshot.is_alive || snapshot.in_flight
    then (s, oldest)
    else if is_idle timeout now snapshot.last_recv
    then (server_remove_client s snapshot, oldest)
    else (s, snapshot.last_recv)

-- The loop over `n` slots from slot `i` on; `clock` is the time when a slot is tested.
unfoldable pub sweep_from : ℤ → (ℕ → ℕ) → ℕ → ℕ → Server × ℕ → Server × ℕ
sweep_from timeout clock zero i s = s
sweep_from timeout clock (suc n) i s =
    sweep_from timeout clock n (i + 1) (sweep_slot timeout (clock i) i s)

-- An event of epoll: data of the client in a slot, or connections that accept hands out until it
-- answers EAGAIN
pub data Event : Type 0 where
  on_client : ℕ → Event
  on_listener : List (Surroundings × Socket) → Event

unfoldable pub accept_all : Server → ℕ → List (Surroundings × Socket) → Server
accept_all s oldest [] = s
accept_all s oldest ((os, socket) ∷ more) =
    accept_all (server_append_client os s socket oldest) oldest more

-- client->in_flight = true
unfoldable pub put_in_flight : Server → ℕ → Server
put_in_flight s slot = record s {
  clients = set s.clients slot (record (client_at s slot) { in_flight = true });
}

-- The bytes of a client in memory, whose number, sizeof(client_t), is at most 128, and the success of
-- the allocation of a larger queue
pub record Memory : Type 0 where
  pub encode : Client → Bytes
  pub fits : (c : Client) → length (encode c) ≤ payload_size_max
  pub larger_queue : Bool

-- dispatch_client: a call of dispatch_command whose assertion holds, since a client fits
unfoldable pub dispatch_client : Memory → WorkerQueue → Client → WorkerQueue
dispatch_client memory queue client =
    enqueue memory.larger_queue queue new_client (memory.encode client)

-- dispatch_client does what its call of dispatch_command does, which returns.
pub dispatch_client_lem :
    (memory : Memory) (queue : WorkerQueue) (client : Client)
    → dispatch_command memory.larger_queue queue new_client (memory.encode client)
      ≡ some (dispatch_client memory queue client)
unfolding dispatch_client dispatch_command
dispatch_client_lem memory queue client =
    let at_most : leb (length (memory.encode client)) payload_size_max ≡ true =
      ground (arith, memory.fits client) in
    rw at_most refl

unfoldable pub handle_event : Memory → ℕ → Event → Server × WorkerQueue → Server × WorkerQueue
unfolding put_in_flight dispatch_client accept_all
handle_event memory oldest (on_client slot) (s, queue) =
    let s' = put_in_flight s slot in (s', dispatch_client memory queue (client_at s' slot))
handle_event memory oldest (on_listener accepted) (s, queue) =
    (if s.free_list.head == 0 then s else accept_all s oldest accepted, queue)

unfoldable pub handle_events : Memory → ℕ → List Event → Server × WorkerQueue → Server × WorkerQueue
unfolding handle_event
handle_events memory oldest [] state = state
handle_events memory oldest (e ∷ events) state =
    handle_events memory oldest events (handle_event memory oldest e state)

-- One round of `while (running)` for which epoll_wait succeeds: the sweep, then the events.
unfoldable pub round :
    Memory → ℤ → ℕ → ℕ → (ℕ → ℕ) → List Event → Server × WorkerQueue → Server × WorkerQueue
unfolding sweep_from handle_events
round memory timeout max_connections now clock events (s, queue) =
    let (swept, oldest) = sweep_from timeout clock max_connections 0 (s, now) in
    handle_events memory oldest events (swept, queue)

-- What epoll_wait comes to: a signal, another error, or events, with the time behind it and the time
-- when each slot is tested
pub data Wait : Type 0 where
  interrupted failed : Wait
  events_at : ℕ → (ℕ → ℕ) → List Event → Wait

-- `while (running)`, for the answers of epoll_wait up to the round in which `running` is false
unfoldable pub main_loop : Memory → ℤ → ℕ → List Wait → Server × WorkerQueue → Server × WorkerQueue
unfolding round
main_loop memory timeout max_connections [] state = state
main_loop memory timeout max_connections (interrupted ∷ waits) state =
    main_loop memory timeout max_connections waits state
main_loop memory timeout max_connections (failed ∷ waits) state =
    main_loop memory timeout max_connections waits state
main_loop memory timeout max_connections (events_at now clock events ∷ waits) state =
    main_loop memory timeout max_connections waits
      (round memory timeout max_connections now clock events state)
