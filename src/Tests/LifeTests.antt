-- ===== src/Tests/LifeTests.antt =====
-- The server and its workers together, from a start with two slots.
use foxtails.Base.{
  ℕ, ◌+◌, ◌*◌, ◌≤◌, ◌<◌, ◌^◌, Bool, true, false, [], ◌∷◌, All, length, length-take, take, ◌==◌, ◌≡◌,
  refl, inl, arith, take-length-append,
}
use foxtails.Base.Bytes.{Bytes}
use foxtails.Life.Always.{Reach-Sound}
use foxtails.Life.Bounds.{Reach_bounds}
use foxtails.Life.Invariant.{Sound}
use foxtails.Life.Turns.{IsReadable}
use foxtails.Life.Waiting.{waiting}
use foxtails.Life.{Layout, Life, dispatched, accept, event, Reach, start, next, IsOrderly}
use foxtails.Server.{
  Client, Server, no_client, server_init, push_slots, int_stack_push, int_stack_pop, fill_slot,
  server_append_client,
}
use foxtails.Tests.ServeTests.{site}
use foxtails.Tests.ServerTests.{os, visitor}
use foxtails.Workers.Queue.{contents}
use foxtails.Workers.{payload_size_max, init_queue}

abbrev bit : Bool → ℕ
bit true = 1
bit false = 0

abbrev encode : Client → Bytes
encode c =
    c.socket.fd
    ∷ c.socket.address
    ∷ c.last_recv
    ∷ c.idx
    ∷ bit c.is_alive
    ∷ bit c.in_flight
    ∷ length (take 15 c.ip_addr)
    ∷ take 15 c.ip_addr

abbrev decode : Bytes → Client
decode (fd ∷ address ∷ last_recv ∷ idx ∷ alive ∷ flying ∷ size ∷ rest) = record {
  socket = record { fd = fd; address = address };
  last_recv = last_recv;
  idx = idx;
  is_alive = alive == 1;
  in_flight = flying == 1;
  ip_addr = take size rest;
}
decode _ = no_client

pub encode_fits : (c : Client) → length (encode c) ≤ payload_size_max
encode_fits c = omega (arith, length-take 15 c.ip_addr)

abbrev pub layout : Layout
layout = record { encode = encode; fits = encode_fits; decode = decode }

bit_back : (b : Bool) → (bit b == 1) ≡ b
bit_back true = refl
bit_back false = refl

pub layout-IsReadable : IsReadable layout
layout-IsReadable c rest =
    rw (bit_back c.is_alive, bit_back c.in_flight, take-length-append (take 15 c.ip_addr) rest) refl

abbrev pub two_free : Server
two_free = record {
  clients = no_client ∷ no_client ∷ [];
  free_list = record { values = 1 ∷ 0 ∷ []; head = 2; capacity = 2 };
  effects = [];
}

abbrev pub at_start : Life
at_start = record { server = two_free; queue = init_queue; opened = [] }

pub at_start-Reach : Reach site layout 2 at_start
unfolding server_init push_slots int_stack_push
at_start-Reach = start two_free refl

pub at_start-IsOrderly : IsOrderly at_start-Reach
unfolding at_start-Reach
at_start-IsOrderly = tt

abbrev with_visitor : Life
with_visitor = record {
  server = server_append_client os two_free visitor 90;
  queue = init_queue;
  opened = visitor ∷ [];
}

with_visitor-Reach : Reach site layout 2 with_visitor
with_visitor-Reach = next at_start-Reach (accept os visitor 90)

-- The visitor's request is dispatched.
abbrev asked : Life
asked = dispatched layout true 90 0 with_visitor

asked-Reach : Reach site layout 2 asked
unfolding server_append_client int_stack_pop fill_slot
asked-Reach = next with_visitor-Reach (event true 0 90)

asked-IsOrderly : IsOrderly asked-Reach
unfolding server_append_client int_stack_pop fill_slot asked-Reach with_visitor-Reach at_start-Reach
asked-IsOrderly = ((tt, tt), (refl, refl, inl refl))

Reach-Sound_example : Sound layout 2 asked
Reach-Sound_example =
    Reach-Sound site layout 2 layout-IsReadable (omega arith) asked-Reach asked-IsOrderly

Reach_bounds_example :
    (asked.queue.count ≤ 2)
    × (asked.queue.capacity ≤ 8 + 2 * 2)
    × (asked.queue.head + asked.queue.count < 2 ^ 32)
    × All (λ c. c.idx < 2) (waiting layout (contents asked.queue))
Reach_bounds_example =
    Reach_bounds site layout 2 asked layout-IsReadable (omega arith) asked-Reach asked-IsOrderly
