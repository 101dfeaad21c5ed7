-- ===== src/Tests/ServerTests.antt =====
-- utils/server.c on concrete tables.
use foxtails.Base.{ℕ, zero, suc, true, none, [], ◌∷◌, ◌≡◌, refl, arith}
use foxtails.Server.Accepting.{Outcome, server_append_client-Outcome}
use foxtails.Server.Slots.{IsValid, is_free, one_if}
use foxtails.Server.Stack.{count_on}
use foxtails.Server.{Socket, Server, Surroundings, no_client, client_at, server_append_client}

abbrev pub os : Surroundings
os = record { now = 100; ip = none; epoll_ok = true }

abbrev pub visitor : Socket
visitor = record { fd = 7; address = 1 }

-- Slot 0 is taken, slot 1 is free.
abbrev pub one_taken : Server
one_taken = record {
  clients =
      record no_client { socket = record { fd = 5; address = 9 }; last_recv = 80; is_alive = true }
      ∷ no_client
      ∷ [];
  free_list = record { values = 1 ∷ 0 ∷ []; head = 1; capacity = 2 };
  effects = [];
}

own_slot : (i : ℕ) → (client_at one_taken i).is_alive ≡ true → (client_at one_taken i).idx ≡ i
own_slot zero h = refl
own_slot (suc zero) h = absurd (ground arith)
own_slot (suc (suc i)) h = absurd (ground arith)

once : (i : ℕ) → count_on one_taken.free_list i ≡ one_if (is_free one_taken i)
once zero = refl
once (suc zero) = refl
once (suc (suc i)) = ground arith

pub one_taken-IsValid : IsValid one_taken
one_taken-IsValid = record {
  table_sized = refl;
  stack_sized = refl;
  balance = refl;
  free_once = once;
  own_idx = own_slot;
}

server_append_client-Outcome_example :
    Outcome os one_taken visitor 90 (server_append_client os one_taken visitor 90)
server_append_client-Outcome_example =
    server_append_client-Outcome os one_taken visitor 90 one_taken-IsValid
