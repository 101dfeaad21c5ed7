-- ===== src/Server/Accepting.antt =====
-- What becomes of a socket that is handed to server_append_client.
use foxtails.Base.{
  ℕ, ◌<◌, true, false, Option, [], ◌∷◌, ◌++◌, get_or, set, ◌==◌, ==_iff, if◌then◌else◌, ◌≡◌, arith,
  get_or-set_self, get_or-set_ne, Bool-cases, inl, inr,
}
use foxtails.Server.Clients.{
  Given, Given-is_free, Answered, exhausted, given, pop-Answered, append_to,
}
use foxtails.Server.Slots.{is_free, IsValid}
use foxtails.Server.{
  Socket, Client, IntStack, Server, send_response, close_fd, free_address, epoll_add, Surroundings,
  no_client, client_at, new_client, fill_slot, server_append_client, service_unavailable,
}

-- The client that a registered socket becomes.
abbrev pub registered_client : Surroundings → Socket → ℕ → Client
registered_client os socket idx = record (new_client os socket idx) { is_alive = true }

-- The three ends of server_append_client.
pub data Outcome (os : Surroundings) (s : Server) (socket : Socket) (oldest_client : ℕ)
    (s' : Server) : Type 0 where
  rejected :
      s.free_list.head ≡ 0
      → s'.clients ≡ s.clients
      → s'.effects
        ≡ s.effects
          ++ send_response socket.fd (service_unavailable os.now oldest_client)
            ∷ close_fd socket.fd
            ∷ free_address socket.address
            ∷ []
      → Outcome os s socket oldest_client s'
  registered :
      (idx : ℕ)
      → os.epoll_ok ≡ true
      → is_free s idx ≡ true
      → ((i : ℕ)
          → client_at s' i ≡ (if idx == i then registered_client os socket idx else client_at s i))
      → s'.effects ≡ s.effects ++ epoll_add socket.fd idx ∷ []
      → Outcome os s socket oldest_client s'
  given_up :
      (idx : ℕ)
      → os.epoll_ok ≡ false
      → is_free s idx ≡ true
      → ((i : ℕ) → (client_at s' i).is_alive ≡ (client_at s i).is_alive)
      → s'.effects
        ≡ (s.effects ++ epoll_add socket.fd idx ∷ [])
          ++ close_fd socket.fd ∷ free_address socket.address ∷ []
      → Outcome os s socket oldest_client s'

fill_slot-Outcome :
    (os : Surroundings) (s : Server) (stack : IntStack) (socket : Socket) (oldest_client idx : ℕ)
    → IsValid s
    → Given s idx stack
    → Outcome os s socket oldest_client (fill_slot os s stack socket idx)
unfolding fill_slot
fill_slot-Outcome os s stack socket oldest_client idx v g = elim (Bool-cases os.epoll_ok) [
  | inl ok ↦
      registered idx ok (ground (arith, free))
        (λ i. rw ok (place (registered_client os socket idx) i)) (rw ok)
  | inr failed ↦
      given_up idx failed (ground (arith, free))
        (λ i. rw failed (ground (arith, free, place (new_client os socket idx) i))) (rw failed)
]
  where
    free : (idx < s.free_list.capacity) × ((client_at s idx).is_alive ≡ false)
    free = Given-is_free s idx stack v g

    place :
        (c : Client) (i : ℕ)
        → get_or (set s.clients idx c) i no_client ≡ (if idx == i then c else client_at s i)
    place c i = elim (Bool-cases (idx == i)) [
      | inl e ↦
          rw (e, ← (==_iff idx i).0 e)
            (get_or-set_self s.clients idx c no_client (omega (arith, free, v.table_sized)))
      | inr e ↦ rw e (get_or-set_ne s.clients idx i c no_client (ground arith))
    ]

append_to-Outcome :
    (os : Surroundings) (s : Server) (socket : Socket) (oldest_client : ℕ) {p : Option ℕ × IntStack}
    → IsValid s
    → Answered s p
    → Outcome os s socket oldest_client (append_to os s socket oldest_client p)
append_to-Outcome os s socket oldest_client v (exhausted none_left empty same) =
    rejected empty (rw none_left) (rw none_left)
append_to-Outcome os s socket oldest_client v (given idx some_left g) =
    rw some_left (fill_slot-Outcome os s _ socket oldest_client idx v g)

-- A socket handed to server_append_client is answered with 503, closed and its address freed if no
-- slot is free; else it is registered with epoll and becomes the live client of one free slot, the
-- other slots unchanged; or epoll refuses it, it is closed and its address freed, and the same
-- slots are alive as before.
pub server_append_client-Outcome :
    (os : Surroundings) (s : Server) (socket : Socket) (oldest_client : ℕ)
    → IsValid s
    → Outcome os s socket oldest_client (server_append_client os s socket oldest_client)
unfolding server_append_client
server_append_client-Outcome os s socket oldest_client v =
    append_to-Outcome os s socket oldest_client v (pop-Answered s)
