-- ===== src/Life/Table.antt =====
-- The steps of the main loop, as changes of one slot of the table.
use foxtails.Base.{
  ℕ, ◌+◌, ◌<◌, true, false, not, ◌&&◌, ◌||◌, Option, [], ◌∷◌, ◌++◌, length, ◌≡◌, ◌⊎◌, refl, sym, ap,
  subst, arith, Bool-cases, inl, inr,
}
use foxtails.Base.Decimal.{ℤ}
use foxtails.Run.Count.{Resource, releases, releases-append, released_socket, is_of}
use foxtails.Life.Change.{Change, holds}
use foxtails.Loop.{is_idle, sweep_slot, put_in_flight}
use foxtails.Server.Clients.{
  Given, Given-is_free, Answered, exhausted, given, pop-Answered, append_to, alive_in_table,
  server_remove_client-IsValid,
}
use foxtails.Server.Slots.{one_if, IsValid}
use foxtails.Server.{
  Client, IntStack, Server, Socket, Surroundings, send_response, close_fd, free_address, epoll_add,
  epoll_del, client_at, new_client, fill_slot, int_stack_push, server_append_client,
  server_remove_client, service_unavailable,
}

-- A live client that was not in flight is closed, and its slot is freed.
pub record Gone (s : Server) (i : ℕ) (s' : Server) : Type 0 where
  pub change :
      Change s s' i (record (client_at s i) { is_alive = false }) (λ res. holds res (client_at s i))
  pub landed : (client_at s i).in_flight ≡ false
  pub valid : IsValid s'

remove-Change :
    (s : Server) (client : Client)
    → (client_at s client.idx).is_alive ≡ true
    → Change s
        (server_remove_client s client)
        client.idx
        (record (client_at s client.idx) { is_alive = false })
        (λ res. one_if (is_of res client.socket))
unfolding server_remove_client int_stack_push releases
remove-Change s client alive = record {
  place = (alive_in_table s.clients client.idx alive).0;
  table = refl;
  same_capacity = ground arith;
  closed_is = λ res. ground (
    arith,
    released_socket res client.socket,
    releases-append res s.effects (
        epoll_del client.socket.fd
        ∷ close_fd client.socket.fd
        ∷ free_address client.socket.address
        ∷ []),
  );
}

remove-Gone :
    (s : Server) (i : ℕ)
    → IsValid s
    → (client_at s i).is_alive ≡ true
    → (client_at s i).in_flight ≡ false
    → Gone s i (server_remove_client s (client_at s i))
remove-Gone s i v alive landed =
    let own = v.own_idx i alive in
    let here : (client_at s (client_at s i).idx).is_alive ≡ true =
      subst (λ k. (client_at s k).is_alive ≡ true) (sym own) alive in
    let removed = remove-Change s (client_at s i) here in
    let moved : Change s (server_remove_client s (client_at s i)) i
        (record (client_at s i) { is_alive = false })
        (λ res. one_if (is_of res (client_at s i).socket)) =
      subst
        (λ k.
          Change s (server_remove_client s (client_at s i)) k
            (record (client_at s k) { is_alive = false })
            (λ res. one_if (is_of res (client_at s i).socket)))
        own removed in
    record {
      change = record {
        place = moved.place;
        table = moved.table;
        same_capacity = moved.same_capacity;
        closed_is = λ res. ground (arith, moved.closed_is res);
      };
      landed = landed;
      valid = server_remove_client-IsValid s (client_at s i) v here;
    }

-- A slot swept: nothing happens, or its client is closed.
pub sweep_slot-Gone :
    (timeout : ℤ) (now i oldest : ℕ) (s : Server)
    → IsValid s
    → ((sweep_slot timeout now i (s, oldest)).0 ≡ s)
      ⊎ Gone s i (sweep_slot timeout now i (s, oldest)).0
unfolding sweep_slot
sweep_slot-Gone timeout now i oldest s v =
    elim (Bool-cases (not (client_at s i).is_alive || (client_at s i).in_flight)) [
      | inl skip ↦ inl (rw skip refl)
      | inr look ↦ elim (Bool-cases (is_idle timeout now (client_at s i).last_recv)) [
        | inl idle ↦ inr (rw (look, idle) (remove-Gone s i v (ground arith) (ground arith)))
        | inr busy ↦ inl (rw (look, busy) refl)
      ]
    ]

-- What becomes of the table when a connection comes in
pub data Comes (s : Server) (socket : Socket) (s' : Server) : Type 0 where
  turned_away :
      s'.clients ≡ s.clients
      → s'.free_list.capacity ≡ s.free_list.capacity
      → ((res : Resource)
          → releases res s'.effects ≡ releases res s.effects + one_if (is_of res socket))
      → Comes s socket s'
  placed :
      (i : ℕ) (c : Client)
      → (client_at s i).is_alive ≡ false
      → c.socket ≡ socket
      → c.in_flight ≡ false
      → Change s s' i c (λ res. one_if (not c.is_alive && is_of res socket))
      → Comes s socket s'

fill_slot-Comes :
    (os : Surroundings) (s : Server) (stack : IntStack) (socket : Socket) (idx : ℕ)
    → IsValid s
    → Given s idx stack
    → Comes s socket (fill_slot os s stack socket idx)
unfolding fill_slot int_stack_push releases
fill_slot-Comes os s stack socket idx v g = elim (Bool-cases os.epoll_ok) [
  | inl ok ↦ rw ok (
      placed idx (record (new_client os socket idx) { is_alive = true }) free.1 refl refl
        (record {
          place = small;
          table = refl;
          same_capacity = g.same_capacity;
          closed_is =
              λ res. ground (arith, releases-append res s.effects (epoll_add socket.fd idx ∷ []));
        }))
  | inr failed ↦ rw failed (
      placed idx (new_client os socket idx) free.1 refl refl (record {
        place = small;
        table = refl;
        same_capacity = ground (arith, g.same_capacity);
        closed_is = λ res. ground (
          arith,
          released_socket res socket,
          releases-append res s.effects (epoll_add socket.fd idx ∷ []),
          releases-append res (s.effects ++ epoll_add socket.fd idx ∷ [])
              (close_fd socket.fd ∷ free_address socket.address ∷ []),
        );
      }))
]
  where
    free : (idx < s.free_list.capacity) × ((client_at s idx).is_alive ≡ false)
    free = Given-is_free s idx stack v g

    small : idx < length s.clients
    small = omega (arith, free, v.table_sized)

append_to-Comes :
    (os : Surroundings) (s : Server) (socket : Socket) (oldest : ℕ) {p : Option ℕ × IntStack}
    → IsValid s
    → Answered s p
    → Comes s socket (append_to os s socket oldest p)
unfolding releases
append_to-Comes os s socket oldest v (exhausted none_left empty same) = rw none_left (
    turned_away refl (ap (λ (k : IntStack). k.capacity) same) λ res. ground (
      arith,
      released_socket res socket,
      releases-append res s.effects (
          send_response socket.fd (service_unavailable os.now oldest)
          ∷ close_fd socket.fd
          ∷ free_address socket.address
          ∷ []),
    ))
append_to-Comes os s socket oldest v (given idx some_left g) =
    rw some_left (fill_slot-Comes os s _ socket idx v g)

-- A connection that comes in is turned away and closed, or takes the slot of no live client, and is
-- closed if it is not alive there.
pub server_append_client-Comes :
    (os : Surroundings) (s : Server) (socket : Socket) (oldest : ℕ)
    → IsValid s
    → Comes s socket (server_append_client os s socket oldest)
unfolding server_append_client
server_append_client-Comes os s socket oldest v =
    append_to-Comes os s socket oldest v (pop-Answered s)

-- A live client is put in flight.
pub put_in_flight-Change :
    (s : Server) (i : ℕ)
    → (client_at s i).is_alive ≡ true
    → Change s (put_in_flight s i) i (record (client_at s i) { in_flight = true }) (λ res. 0)
unfolding put_in_flight
put_in_flight-Change s i alive = record {
  place = (alive_in_table s.clients i alive).0;
  table = refl;
  same_capacity = refl;
  closed_is = λ res. omega arith;
}
