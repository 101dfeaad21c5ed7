-- ===== src/Life.antt =====
-- foxtails/src/main.c and foxtails/src/worker_loop.c at work together: the main loop sweeps,
-- accepts and dispatches, the workers take actions and serve them, in any order. A step of the main
-- loop is one slot swept, one connection registered, or one client dispatched; a step of a worker
-- is one action from its place in the queue to the end of the callback.
pub mod Change
pub mod Ending
pub mod Waiting
pub mod Table
pub mod Queue
pub mod Invariant
pub mod Turns
pub mod Always
pub mod Drain
pub mod Bounds
pub mod Rounds
use foxtails.Base.{
  ℕ, ◌+◌, ◌≤◌, ◌<◌, ◌^◌, Bool, true, false, Option, none, some, List, [], ◌∷◌, ◌++◌, map, length,
  ◌≡◌, ◌⊎◌,
}
use mathlib.Core.Option
use foxtails.Base.Bytes.{Bytes}
use foxtails.Base.Decimal.{ℤ}
use foxtails.Callback.{Hearing, worker_callback}
use foxtails.Loop.{Memory, on_client, handle_event, sweep_slot}
use foxtails.Serve.{Site}
use foxtails.Server.{
  Client, Server, Socket, Surroundings, client_at, server_append_client, server_init,
}
use foxtails.Workers.{
  payload_size_max, Action, WorkerQueue, init_queue, Turn, wait, leave, call, take_turn, end_turn,
}

-- The layout of a client in memory: what memcpy writes to a payload, at most 128 bytes, and what a
-- worker reads there
pub record Layout : Type 0 where
  pub encode : Client → Bytes
  pub fits : (c : Client) → length (encode c) ≤ payload_size_max
  pub decode : Bytes → Client

-- The server and the queue of its workers, with the sockets that connections have brought
pub record Life : Type 0 where
  pub server : Server
  pub queue : WorkerQueue
  pub opened : List Socket

-- The memory of a layout
abbrev pub memory_of : Layout → Bool → Memory
memory_of layout larger_queue = record {
  encode = layout.encode;
  fits = layout.fits;
  larger_queue = larger_queue;
}

-- The main loop handles an event of the client in a slot.
abbrev pub dispatched : Layout → Bool → ℕ → ℕ → Life → Life
dispatched layout memory oldest slot l =
    let after =
      handle_event (memory_of layout memory) oldest (on_client slot) (l.server, l.queue) in
    record l { server = after.0; queue = after.1 }

-- A worker that took an action calls the callback for it; `none` where it waits or leaves instead,
-- or where the callback does not return.
abbrev pub serve_turn : Site → Layout → Hearing → Life → Turn → Option Life
serve_turn site layout os l wait = none
serve_turn site layout os l leave = none
serve_turn site layout os l (call idx a q) =
    Option.map (λ s. record l { server = s; queue = end_turn q idx })
      (worker_callback site os l.server a.type (layout.decode a.payload))

-- One round of the loop of worker_loop
unfoldable pub serve_next : Site → Layout → Hearing → Life → Option Life
serve_next site layout os l = serve_turn site layout os l (take_turn l.queue)

-- A round for each of what the callbacks hear
unfoldable pub serve_all : Site → Layout → List Hearing → Life → Option Life
serve_all site layout [] l = some l
serve_all site layout (os ∷ later) l = elim (serve_next site layout os l) [
  | none ↦ none
  | some l' ↦ serve_all site layout later l'
]

-- A step of the main loop or of a worker
pub data Step (site : Site) (layout : Layout) (l : Life) : Life → Type 0 where
  sweep :
      (timeout : ℤ) (now i oldest : ℕ)
      → Step site layout l (record l { server = (sweep_slot timeout now i (l.server, oldest)).0 })
  accept :
      (os : Surroundings) (socket : Socket) (oldest : ℕ)
      → Step site layout l (record l {
        server = server_append_client os l.server socket oldest;
        opened = socket ∷ l.opened;
      })
  event :
      (memory : Bool) (slot oldest : ℕ)
      → Step site layout l (dispatched layout memory oldest slot l)
  work : {l' : Life} (os : Hearing) → serve_next site layout os l ≡ some l' → Step site layout l l'

pub data Reach (site : Site) (layout : Layout) (max_connections : ℕ) : Life → Type 0 where
  start :
      (s : Server)
      → server_init max_connections ≡ some s
      → Reach site layout max_connections (record { server = s; queue = init_queue; opened = [] })
  next :
      {l l' : Life}
      → Reach site layout max_connections l
      → Step site layout l l'
      → Reach site layout max_connections l'

-- What the environment is to grant an event: it is for a client that is alive and not in flight, and
-- its dispatch finds a free slot in the queue or memory for a larger one.
abbrev pub IsReady : Bool → ℕ → Server → WorkerQueue → Type 0
IsReady memory slot s queue =
    ((client_at s slot).is_alive ≡ true)
    × ((client_at s slot).in_flight ≡ false)
    × ((memory ≡ true) ⊎ (queue.count + 1 < queue.capacity))

abbrev pub IsOrderlyStep :
    {site : Site} {layout : Layout} {l l' : Life} → Step site layout l l' → Type 0
IsOrderlyStep {l = l} (event memory slot oldest) = IsReady memory slot l.server l.queue
IsOrderlyStep _ = Unit

-- A run in which each event was granted that
abbrev pub IsOrderly :
    {site : Site} {layout : Layout} {max_connections : ℕ} {l : Life}
    → Reach site layout max_connections l
    → Type 0
IsOrderly (start s e) = Unit
IsOrderly (next r s) = IsOrderly r × IsOrderlyStep s
