-- ===== src/Server/Clients.antt =====
-- server_append_client and server_remove_client keep the invariant of the table, and do to it what
-- their names say.
use foxtails.Base.{
  ℕ, zero, suc, ◌+◌, ◌<◌, true, false, Option, none, some, List, [], ◌∷◌, ◌++◌, length, get_or,
  ◌==◌, ◌≡◌, refl, sym, ap, ◌∙◌, arith, Bool-cases, inl, inr,
}
use foxtails.Server.Slots.{one_if, alive_count, IsValid, change_slot}
use foxtails.Server.Stack.{count_on, Pushed, int_stack_push-Pushed, Popped, int_stack_pop-Popped}
use foxtails.Server.{
  Socket, Client, IntStack, Server, send_response, close_fd, free_address, Surroundings, no_client,
  client_at, new_client, int_stack_push, int_stack_pop, fill_slot, server_append_client,
  server_remove_client, service_unavailable,
}

pub alive_in_table :
    (cs : List Client) (i : ℕ)
    → (get_or cs i no_client).is_alive ≡ true
    → (i < length cs) × (0 < alive_count cs)
alive_in_table [] i h = absurd (cc)
alive_in_table (c ∷ cs) zero h = (omega arith, ground arith)
alive_in_table (c ∷ cs) (suc i) h =
    let (below, some_alive) = alive_in_table cs i h in (omega arith, omega arith)

-- server_remove_client, called with a copy of a client whose slot is alive, keeps the invariant.
pub server_remove_client-IsValid :
    (s : Server) (client : Client)
    → IsValid s
    → (client_at s client.idx).is_alive ≡ true
    → IsValid (server_remove_client s client)
unfolding server_remove_client
server_remove_client-IsValid s client v alive =
    change_slot s _ client.idx (record (client_at s client.idx) { is_alive = false }) v in_table
      refl (λ _. v.own_idx client.idx alive) (pushed 0).same_capacity
      (omega (arith, (pushed 0).same_size, v.stack_sized)) (ground (arith, (pushed 0).higher))
      (λ i. ground (arith, (pushed i).counted))
  where
    in_table : client.idx < s.free_list.capacity
    in_table = omega (arith, v.table_sized, (alive_in_table s.clients client.idx alive).0)

    room : s.free_list.head < s.free_list.capacity
    room = omega (arith, v.balance, (alive_in_table s.clients client.idx alive).1)

    pushed : (i : ℕ) → Pushed s.free_list client.idx i (int_stack_push s.free_list client.idx).1
    pushed i = int_stack_push-Pushed s.free_list client.idx i v.stack_sized room

-- A slot that the free list gives.
pub record Given (s : Server) (idx : ℕ) (stack : IntStack) : Type 0 where
  pub counted : (i : ℕ) → count_on s.free_list i ≡ one_if (idx == i) + count_on stack i
  pub lower : s.free_list.head ≡ stack.head + 1
  pub same_capacity : stack.capacity ≡ s.free_list.capacity
  pub same_values : stack.values ≡ s.free_list.values

-- The slot given exists and is not alive.
pub Given-is_free :
    (s : Server) (idx : ℕ) (stack : IntStack)
    → IsValid s
    → Given s idx stack
    → (idx < s.free_list.capacity) × ((client_at s idx).is_alive ≡ false)
Given-is_free s idx stack v g = ground (arith, g.counted idx, v.free_once idx)

fill_slot-IsValid :
    (os : Surroundings) (s : Server) (stack : IntStack) (socket : Socket) (idx : ℕ)
    → IsValid s
    → Given s idx stack
    → IsValid (fill_slot os s stack socket idx)
unfolding fill_slot
fill_slot-IsValid os s stack socket idx v g = elim (Bool-cases os.epoll_ok) [
  | inl ok ↦ rw ok (
      change_slot s _ idx (record (new_client os socket idx) { is_alive = true }) v free.0 refl
        (λ _. refl) g.same_capacity (sized) (ground (arith, free, g.lower))
        (λ i. ground (arith, g.counted i, free)))
  | inr failed ↦ rw failed (
      change_slot s _ idx (new_client os socket idx) v free.0 refl (λ _. refl)
        ((pushed 0).same_capacity ∙ g.same_capacity) ((pushed 0).same_size ∙ sized)
        (ground (arith, free, g.lower, (pushed 0).higher))
        (λ i. ground (arith, g.counted i, (pushed i).counted, free)))
]
  where
    free : (idx < s.free_list.capacity) × ((client_at s idx).is_alive ≡ false)
    free = Given-is_free s idx stack v g

    sized : length stack.values ≡ s.free_list.capacity
    sized = ap (λ (l : List ℕ). length l) g.same_values ∙ v.stack_sized

    pushed : (i : ℕ) → Pushed stack idx i (int_stack_push stack idx).1
    pushed i =
        int_stack_push-Pushed stack idx i (sized ∙ sym g.same_capacity)
          (omega (arith, g.lower, g.same_capacity, v.balance))

-- What the free list answers to server_append_client.
pub data Answered (s : Server) : Option ℕ × IntStack → Type 0 where
  exhausted :
      {o : Option ℕ} {stack : IntStack}
      → o ≡ none
      → s.free_list.head ≡ 0
      → stack ≡ s.free_list
      → Answered s (o, stack)
  given :
      {o : Option ℕ} {stack : IntStack} (idx : ℕ)
      → o ≡ some idx
      → Given s idx stack
      → Answered s (o, stack)

answered :
    (s : Server) (p : Option ℕ × IntStack) → ((i : ℕ) → Popped s.free_list i p) → Answered s p
answered s (none, stack) h = exhausted refl (h 0).0 (h 0).1
answered s (some idx, stack) h = given idx refl (record {
  counted = λ i. (h i).0;
  lower = (h 0).1;
  same_capacity = (h 0).2;
  same_values = (h 0).3;
})

pub pop-Answered : (s : Server) → Answered s (int_stack_pop s.free_list)
pop-Answered s = answered s (int_stack_pop s.free_list) (int_stack_pop-Popped s.free_list)

-- server_append_client after the pop
abbrev pub append_to : Surroundings → Server → Socket → ℕ → Option ℕ × IntStack → Server
append_to os s socket oldest_client p = elim p.0 [
  | none ↦ record s {
    free_list = p.1;
    effects =
        s.effects
        ++ send_response socket.fd (service_unavailable os.now oldest_client)
          ∷ close_fd socket.fd
          ∷ free_address socket.address
          ∷ [];
  }
  | some idx ↦ fill_slot os s p.1 socket idx
]

append_to-IsValid :
    (os : Surroundings) (s : Server) (socket : Socket) (oldest_client : ℕ) {p : Option ℕ × IntStack}
    → IsValid s
    → Answered s p
    → IsValid (append_to os s socket oldest_client p)
append_to-IsValid os s socket oldest_client v (exhausted none_left empty same) =
    rw (none_left, same)
      (record {
        table_sized = v.table_sized;
        stack_sized = v.stack_sized;
        balance = v.balance;
        free_once = v.free_once;
        own_idx = v.own_idx;
      })
append_to-IsValid os s socket oldest_client v (given idx some_left g) =
    rw some_left (fill_slot-IsValid os s _ socket idx v g)

-- server_append_client keeps the invariant, whatever the operating system answers.
pub server_append_client-IsValid :
    (os : Surroundings) (s : Server) (socket : Socket) (oldest_client : ℕ)
    → IsValid s
    → IsValid (server_append_client os s socket oldest_client)
unfolding server_append_client
server_append_client-IsValid os s socket oldest_client v =
    append_to-IsValid os s socket oldest_client v (pop-Answered s)
