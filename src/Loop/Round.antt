-- ===== src/Loop/Round.antt =====
-- main.c: a round of the main loop keeps the table of clients valid, and hands each client that has
-- data to the workers.
use foxtails.Base.{
  ℕ, ◌<◌, true, Option, none, some, List, [], ◌∷◌, All, ◌==◌, ◌≡◌, refl, ◌∙◌, arith, Bool-cases,
  inl, inr,
}
use foxtails.Base.Decimal.{ℤ}
use foxtails.Loop.{
  Event, on_client, on_listener, accept_all, put_in_flight, handle_event, handle_events, round,
  Memory,
}
use foxtails.Loop.Sweep.{sweep_from-Swept}
use foxtails.Server.Clients.{server_append_client-IsValid, append_to}
use foxtails.Server.Slots.{IsValid, change_slot}
use foxtails.Server.{
  Server, Socket, Surroundings, client_at, server_append_client, int_stack_push, int_stack_pop,
  IntStack, fill_slot,
}
use foxtails.Workers.{WorkerQueue}

-- The events are for slots of the table.
abbrev pub IsInTable : ℕ → Event → Type 0
IsInTable capacity (on_client slot) = slot < capacity
IsInTable capacity (on_listener accepted) = Unit

-- The table is valid, and has the capacity given.
pub record Holds (capacity : ℕ) (s : Server) : Type 0 where
  pub valid : IsValid s
  pub sized : s.free_list.capacity ≡ capacity

pub put_in_flight-Holds :
    (capacity : ℕ) (s : Server) (slot : ℕ)
    → slot < capacity
    → Holds capacity s
    → Holds capacity (put_in_flight s slot)
unfolding put_in_flight
put_in_flight-Holds capacity s slot small h = record {
  valid =
      change_slot s _ slot (record (client_at s slot) { in_flight = true }) (h.valid)
        (omega (arith, h.sized)) refl (λ alive. h.valid.own_idx slot alive) refl
        (h.valid.stack_sized) refl (λ i. refl);
  sized = h.sized;
}

pop_capacity : (stack : IntStack) → (int_stack_pop stack).1.capacity ≡ stack.capacity
unfolding int_stack_pop
pop_capacity stack = ground arith

fill_capacity :
    (os : Surroundings) (s : Server) (stack : IntStack) (socket : Socket) (idx : ℕ)
    → (fill_slot os s stack socket idx).free_list.capacity ≡ stack.capacity
unfolding fill_slot int_stack_push
fill_capacity os s stack socket idx = ground arith

to_capacity :
    (os : Surroundings) (s : Server) (socket : Socket) (oldest : ℕ) (o : Option ℕ)
    (stack : IntStack)
    → stack.capacity ≡ s.free_list.capacity
    → (append_to os s socket oldest (o, stack)).free_list.capacity ≡ s.free_list.capacity
to_capacity os s socket oldest none stack h = h
to_capacity os s socket oldest (some idx) stack h = fill_capacity os s stack socket idx ∙ h

pub append_capacity :
    (os : Surroundings) (s : Server) (socket : Socket) (oldest : ℕ)
    → (server_append_client os s socket oldest).free_list.capacity ≡ s.free_list.capacity
unfolding server_append_client
append_capacity os s socket oldest =
    to_capacity os s socket oldest (int_stack_pop s.free_list).0 (int_stack_pop s.free_list).1
      (pop_capacity s.free_list)

accept_all-Holds :
    (capacity : ℕ) (s : Server) (oldest : ℕ) (accepted : List (Surroundings × Socket))
    → Holds capacity s
    → Holds capacity (accept_all s oldest accepted)
unfolding accept_all
accept_all-Holds capacity s oldest [] h = h
accept_all-Holds capacity s oldest ((os, socket) ∷ more) h =
    accept_all-Holds capacity (server_append_client os s socket oldest) oldest more (record {
      valid = server_append_client-IsValid os s socket oldest (h.valid);
      sized = append_capacity os s socket oldest ∙ h.sized;
    })

handle_event-Holds :
    (capacity : ℕ) (memory : Memory) (oldest : ℕ) (e : Event) (s : Server) (queue : WorkerQueue)
    → IsInTable capacity e
    → Holds capacity s
    → Holds capacity (handle_event memory oldest e (s, queue)).0
unfolding handle_event
handle_event-Holds capacity memory oldest (on_client slot) s queue small h =
    put_in_flight-Holds capacity s slot small h
handle_event-Holds capacity memory oldest (on_listener accepted) s queue small h =
    elim (Bool-cases (s.free_list.head == 0)) [
      | inl e ↦ rw e h
      | inr e ↦ rw e (accept_all-Holds capacity s oldest accepted h)
    ]

handle_events-Holds :
    (capacity : ℕ) (memory : Memory) (oldest : ℕ) (events : List Event) (s : Server)
    (queue : WorkerQueue)
    → All (IsInTable capacity) events
    → Holds capacity s
    → Holds capacity (handle_events memory oldest events (s, queue)).0
unfolding handle_events
handle_events-Holds capacity memory oldest [] s queue small h = h
handle_events-Holds capacity memory oldest (e ∷ events) s queue small h =
    handle_events-Holds capacity memory oldest events _ _ small.1
      (handle_event-Holds capacity memory oldest e s queue small.0 h)

-- A round of the main loop keeps the table of clients valid and its capacity, whatever the clock
-- shows, whichever clients have data, and however many connections come in.
round-Holds :
    (capacity : ℕ) (memory : Memory) (timeout : ℤ) (now : ℕ) (clock : ℕ → ℕ) (events : List Event)
    (s : Server) (queue : WorkerQueue)
    → All (IsInTable capacity) events
    → Holds capacity s
    → Holds capacity (round memory timeout capacity now clock events (s, queue)).0
unfolding round
round-Holds capacity memory timeout now clock events s queue small h =
    let swept = sweep_from-Swept timeout clock capacity 0 s now (h.valid) in
    handle_events-Holds capacity memory _ events _ queue small
      (record { valid = swept.valid; sized = swept.same_capacity ∙ h.sized })
