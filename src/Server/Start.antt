-- ===== src/Server/Start.antt =====
-- server_init_common: the free list starts with every slot.
use foxtails.Base.{
  ℕ, zero, suc, ◌+◌, ◌<◌, true, some, [], length, get_or, ltb, ◌≡◌, refl, sym, ◌∙◌, arith, subst,
  some_eq, replicate, length-replicate,
}
use foxtails.Server.Slots.{one_if, alive_count, is_free, IsValid}
use foxtails.Server.Stack.{count_on, Pushed, int_stack_push-Pushed, int_stack_push_room}
use foxtails.Server.{IntStack, Server, no_client, int_stack_push, push_slots, server_init}

-- What the loop over the slots below `n` leaves on the stack.
record Filled (n : ℕ) (stack stack' : IntStack) : Type 0 where
  done : push_slots n stack ≡ some stack'
  counted : (i : ℕ) → count_on stack' i ≡ count_on stack i + one_if (ltb i n)
  top : stack'.head ≡ stack.head + n
  same_capacity : stack'.capacity ≡ stack.capacity
  same_size : length stack'.values ≡ length stack.values

push_slots-Filled :
    (n : ℕ) (stack : IntStack)
    → length stack.values ≡ stack.capacity
    → stack.head + n ≡ stack.capacity
    → (stack' : IntStack) × Filled n stack stack'
unfolding push_slots
push_slots-Filled zero stack sized room = (
  stack,
  record {
    done = refl;
    counted = λ i. ground arith;
    top = omega arith;
    same_capacity = refl;
    same_size = refl;
  },
)
push_slots-Filled (suc n) stack sized room =
    let next = (int_stack_push stack n).1 in
    let (stack', filled) =
      push_slots-Filled n next ((pushed 0).same_size ∙ sized ∙ sym (pushed 0).same_capacity)
        (omega (arith, (pushed 0).higher, (pushed 0).same_capacity)) in
    (
      stack',
      record {
        done = rw (accepted, push_slots) filled.done;
        counted = λ i. ground (arith, filled.counted i, (pushed i).counted);
        top = omega (arith, filled.top, (pushed 0).higher);
        same_capacity = filled.same_capacity ∙ (pushed 0).same_capacity;
        same_size = filled.same_size ∙ (pushed 0).same_size;
      },
    )
  where
    pushed : (i : ℕ) → Pushed stack n i (int_stack_push stack n).1
    pushed i = int_stack_push-Pushed stack n i sized (omega arith)

    accepted : (int_stack_push stack n).0 ≡ true
    accepted = int_stack_push_room stack n (omega arith)

alive_count-replicate : (n : ℕ) → alive_count (replicate n no_client) ≡ 0
alive_count-replicate zero = refl
alive_count-replicate (suc n) = omega (arith, alive_count-replicate n)

get_or-replicate : (n i : ℕ) → get_or (replicate n no_client) i no_client ≡ no_client
get_or-replicate zero i = refl
get_or-replicate (suc n) zero = refl
get_or-replicate (suc n) (suc i) = get_or-replicate n i

abbrev empty_stack : ℕ → IntStack
empty_stack n = record { values = replicate n 0; head = 0; capacity = n }

abbrev fresh_server : ℕ → IntStack → Server
fresh_server n stack = record { clients = replicate n no_client; free_list = stack; effects = [] }

fresh_server-IsValid :
    (n : ℕ) (stack : IntStack) → Filled n (empty_stack n) stack → IsValid (fresh_server n stack)
fresh_server-IsValid n stack f = record {
  table_sized = length-replicate n no_client ∙ sym f.same_capacity;
  stack_sized = f.same_size ∙ length-replicate n 0 ∙ sym f.same_capacity;
  balance = omega (arith, f.top, f.same_capacity, alive_count-replicate n);
  free_once = λ i. ground (arith, f.counted i, f.same_capacity, get_or-replicate n i);
  own_idx = λ i alive. absurd (ground (arith, get_or-replicate n i));
}

-- server_init_common never fails on its own free list: it gives a valid table of that many slots,
-- all of them free.
pub server_init-IsValid :
    (n : ℕ)
    → (s : Server) × (server_init n ≡ some s) × IsValid s × ((i : ℕ) → i < n → is_free s i ≡ true)
unfolding server_init
server_init-IsValid n =
    let (stack, f) = push_slots-Filled n (empty_stack n) (length-replicate n 0) (omega arith) in
    (
      fresh_server n stack,
      rw (f.done, server_init),
      fresh_server-IsValid n stack f,
      λ i h. ground (arith, f.same_capacity, get_or-replicate n i),
    )

-- A server that was started: a valid table of cleared slots, and nothing asked so far
pub record Fresh (n : ℕ) (s : Server) : Type 0 where
  pub valid : IsValid s
  pub table : s.clients ≡ replicate n no_client
  pub sized : s.free_list.capacity ≡ n
  pub quiet : s.effects ≡ []

pub server_init-Fresh : (n : ℕ) (s : Server) → server_init n ≡ some s → Fresh n s
unfolding server_init
server_init-Fresh n s e =
    let (stack, f) = push_slots-Filled n (empty_stack n) (length-replicate n 0) (omega arith) in
    subst (Fresh n) (some_eq (sym (rw (f.done, server_init) refl) ∙ e)) (record {
      valid = fresh_server-IsValid n stack f;
      table = refl;
      sized = f.same_capacity;
      quiet = refl;
    })
