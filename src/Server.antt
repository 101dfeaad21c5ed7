-- ===== src/Server.antt =====
-- utils/server.c and include/server.h: the table of clients and the free list of its slots. What
-- the operating system answers (epoll_ctl, inet_ntop, the time) is an argument; what the code asks
-- of it is kept in order as a list of effects. Each function holds the free list's mutex from its
-- first access to its last, so it is one step here.
pub mod Stack
pub mod Slots
pub mod Clients
pub mod Accepting
pub mod Start
use foxtails.Base.{
  ℕ, zero, suc, ◌+◌, ◌-◌, Bool, true, false, Option, none, some, List, [], ◌∷◌, ◌++◌, get_or, set,
  replicate, leb, ◌==◌, if◌then◌else◌,
}
use foxtails.Base.Bytes.{Bytes, codes}
use foxtails.Base.Decimal.{ℤ, show_int, sub_ℕ}
use foxtails.Http.Header.{set_header}
use foxtails.Http.Message.{Http, canned, plain_text}

-- socket_t; the address is the identity of the block that holds it.
pub record Socket : Type 0 where
  pub fd : ℕ
  pub address : ℕ

-- client_t, less the pointer to its server.
pub record Client : Type 0 where
  pub socket : Socket
  pub last_recv : ℕ
  pub idx : ℕ
  pub is_alive : Bool
  pub in_flight : Bool
  pub ip_addr : Bytes

-- int_stack_t; the values are indices of slots.
pub record IntStack : Type 0 where
  pub values : List ℕ
  pub head : ℕ
  pub capacity : ℕ

pub data Effect : Type 0 where
  send_response : ℕ → Http → Effect
  close_fd : ℕ → Effect
  free_address : ℕ → Effect
  epoll_add : ℕ → ℕ → Effect
  epoll_mod : ℕ → ℕ → Effect
  epoll_del : ℕ → Effect
  open_fd : ℕ → Effect
  allocate_address : ℕ → Effect
  unlink_path : Bytes → Effect
  bind_port : ℕ → ℕ → Effect
  bind_path : ℕ → Bytes → Effect
  set_nonblocking : ℕ → Effect
  listen_on : ℕ → ℕ → Effect
  set_timeouts : ℕ → ℤ → Effect
  epoll_listen : ℕ → Effect
  start_worker : ℕ → Effect
  join_worker : ℕ → Effect
  map_file : ℕ → Effect
  unmap_file : ℕ → Effect

-- server_t: the clients, the free list, and what was asked of the operating system so far.
pub record Server : Type 0 where
  pub clients : List Client
  pub free_list : IntStack
  pub effects : List Effect

abbrev pub no_socket : Socket
no_socket = record { fd = 0; address = 0 }

-- A slot that pcalloc has cleared.
abbrev pub no_client : Client
no_client = record {
  socket = no_socket;
  last_recv = 0;
  idx = 0;
  is_alive = false;
  in_flight = false;
  ip_addr = [];
}

unfoldable pub int_stack_push : IntStack → ℕ → Bool × IntStack
int_stack_push stack value =
    if leb stack.capacity stack.head
    then (false, stack)
    else (true, record stack { values = set stack.values stack.head value; head = stack.head + 1 })

-- `none` is the -1 of an empty stack.
unfoldable pub int_stack_pop : IntStack → Option ℕ × IntStack
int_stack_pop stack =
    if stack.head == 0
    then (none, stack)
    else (some (get_or stack.values (stack.head - 1) 0), record stack { head = stack.head - 1 })

-- The loop of server_init_common over the free list, for the slots below `n`; `none` where the
-- source exits.
unfoldable pub push_slots : ℕ → IntStack → Option IntStack
push_slots zero stack = some stack
push_slots (suc i) stack =
    let (pushed, stack') = int_stack_push stack i in
    elim pushed [ true ↦ push_slots i stack' | false ↦ none ]

-- server_init_common: the table and the free list.
unfoldable pub server_init : ℕ → Option Server
unfolding push_slots int_stack_push
server_init max_connections =
    elim (push_slots max_connections
      (record { values = replicate max_connections 0; head = 0; capacity = max_connections })) [
        | none ↦ none
        | some stack ↦ some (record {
          clients = replicate max_connections no_client;
          free_list = stack;
          effects = [];
        })
      ]

abbrev pub client_at : Server → ℕ → Client
client_at s i = get_or s.clients i no_client

-- The answer of server_append_client when every slot is taken.
unfoldable pub service_unavailable : ℕ → ℕ → Http
unfolding set_header show_int
service_unavailable now oldest_client =
    let resp = canned 503 (codes "Service Unavailable") (plain_text ∷ []) in
    record resp {
      headers =
          (set_header resp.headers (codes "Retry-After") (show_int (sub_ℕ now oldest_client))).1;
    }

abbrev ip_or_empty : Option Bytes → Bytes
ip_or_empty none = []
ip_or_empty (some ip) = ip

-- What a call of server_append_client hears from the operating system: the time, the address as a
-- text, and whether epoll_ctl succeeds.
pub record Surroundings : Type 0 where
  pub now : ℕ
  pub ip : Option Bytes
  pub epoll_ok : Bool

abbrev pub new_client : Surroundings → Socket → ℕ → Client
new_client os socket idx = record {
  socket = socket;
  last_recv = os.now;
  idx = idx;
  is_alive = false;
  in_flight = false;
  ip_addr = ip_or_empty os.ip;
}

-- server_append_client from the slot that the free list gave.
unfoldable pub fill_slot : Surroundings → Server → IntStack → Socket → ℕ → Server
fill_slot os s stack socket idx =
    let asked = s.effects ++ epoll_add socket.fd idx ∷ [] in
    if os.epoll_ok
    then record s {
      clients = set s.clients idx (record (new_client os socket idx) { is_alive = true });
      free_list = stack;
      effects = asked;
    }
    else record s {
      clients = set s.clients idx (new_client os socket idx);
      free_list = (int_stack_push stack idx).1;
      effects = asked ++ close_fd socket.fd ∷ free_address socket.address ∷ [];
    }

unfoldable pub server_append_client : Surroundings → Server → Socket → ℕ → Server
server_append_client os s socket oldest_client =
    let (free_idx, stack) = int_stack_pop s.free_list in
    elim free_idx [
      | none ↦ record s {
        free_list = stack;
        effects =
            s.effects
            ++ send_response socket.fd (service_unavailable os.now oldest_client)
              ∷ close_fd socket.fd
              ∷ free_address socket.address
              ∷ [];
      }
      | some idx ↦ fill_slot os s stack socket idx
    ]

-- server_remove_client, for a copy of a client. What int_stack_push answers is not looked at.
unfoldable pub server_remove_client : Server → Client → Server
server_remove_client s client = record s {
  clients = set s.clients client.idx (record (client_at s client.idx) { is_alive = false });
  free_list = (int_stack_push s.free_list client.idx).1;
  effects =
      s.effects
      ++ epoll_del client.socket.fd
        ∷ close_fd client.socket.fd
        ∷ free_address client.socket.address
        ∷ [];
}

-- The loop of server_delete over the table.
unfoldable pub close_clients : List Client → List Effect
close_clients [] = []
close_clients (c ∷ cs) =
    if c.is_alive
    then close_fd c.socket.fd ∷ free_address c.socket.address ∷ close_clients cs
    else close_clients cs
