-- ===== src/Callback/Slot.antt =====
-- worker_callback keeps the table of clients valid, and leaves the client's slot either free or
-- ready for the next request.
use foxtails.Base.{
  ℕ, Bool, true, false, ◌&&◌, Option, none, some, [], ◌∷◌, ◌<◌, length, get_or, set, if◌then◌else◌,
  ◌≡◌, ◌≢◌, refl, ap, ◌∙◌, subst, arith, get_or-set_self,
}
use foxtails.Base.Bytes.{Bytes}
use foxtails.Http.Header.{is_keep_alive}
use foxtails.Http.Message.{Http}
use foxtails.Http.Parse.{request_parse}
use foxtails.Http.Receive.{recv_message}
use foxtails.Serve.{Site, fetch_response}
use foxtails.Serve.Fetch.{Answers, fetch_response-Answers}
use foxtails.Server.{
  Client, Server, Effect, send_response, epoll_mod, client_at, no_client, server_remove_client,
  int_stack_push,
}
use foxtails.Server.Slots.{IsValid, change_slot}
use foxtails.Server.Clients.{server_remove_client-IsValid, alive_in_table}
use foxtails.Workers.{new_client}
use foxtails.Callback.{
  Hearing, ask, drop_client, keep_client, send_answer, serve_parsed, serve_received,
  worker_callback,
}

-- The slot of the action's client is alive.
abbrev pub IsServed : Server → Client → Type 0
IsServed s client = (client_at s client.idx).is_alive ≡ true

ask-IsValid : (s : Server) (e : Effect) → IsValid s → IsValid (ask s e)
unfolding ask
ask-IsValid s e v = record {
  table_sized = v.table_sized;
  stack_sized = v.stack_sized;
  balance = v.balance;
  free_once = v.free_once;
  own_idx = v.own_idx;
}

-- The slot after a round: free, or alive and not in flight
pub record Settled (s : Server) (idx : ℕ) (kept : Bool) : Type 0 where
  pub valid : IsValid s
  pub is_kept : (client_at s idx).is_alive ≡ kept
  pub at_rest : (client_at s idx).in_flight ≡ false

-- A change of a slot that leaves `is_alive` and the index alone
settle :
    (s : Server) (idx : ℕ) (c : Client)
    → IsValid s
    → idx < s.free_list.capacity
    → c.is_alive ≡ (client_at s idx).is_alive
    → c.idx ≡ idx
    → c.in_flight ≡ false
    → Settled (record s { clients = set s.clients idx c }) idx (client_at s idx).is_alive
settle s idx c v small alive own rest = record {
  valid =
      change_slot s _ idx c v small refl (λ _. own) refl (v.stack_sized) (ground (arith, alive))
        (λ i. ground (arith, alive));
  is_kept = ap (λ (k : Client). k.is_alive) place ∙ alive;
  at_rest = ap (λ (k : Client). k.in_flight) place ∙ rest;
}
  where
    place : get_or (set s.clients idx c) idx no_client ≡ c
    place = get_or-set_self s.clients idx c no_client (omega (arith, v.table_sized))

removed_slot :
    (s : Server) (client : Client)
    → client.idx < length s.clients
    → client_at (server_remove_client s client) client.idx
      ≡ record (client_at s client.idx) { is_alive = false }
unfolding server_remove_client
removed_slot s client h = get_or-set_self s.clients client.idx _ no_client h

removed_capacity :
    (s : Server) (client : Client)
    → (server_remove_client s client).free_list.capacity ≡ s.free_list.capacity
unfolding server_remove_client int_stack_push
removed_capacity s client = ground arith

drop_client-Settled :
    (s : Server) (client : Client)
    → IsValid s
    → IsServed s client
    → Settled (drop_client s client) client.idx false
unfolding drop_client
drop_client-Settled s client v served =
    let small = (alive_in_table s.clients client.idx served).0 in
    let place = removed_slot s client small in
    subst (Settled _ client.idx) (ap (λ (k : Client). k.is_alive) place) (
      settle (server_remove_client s client) client.idx
        (record (client_at (server_remove_client s client) client.idx) { in_flight = false })
        (server_remove_client-IsValid s client v served)
        (omega (arith, removed_capacity s client, v.table_sized)) refl
        (ap (λ (k : Client). k.idx) place ∙ v.own_idx client.idx served) refl)

Settled-if :
    (b kept : Bool) (x y : Server) (idx : ℕ)
    → Settled x idx kept
    → Settled y idx false
    → Settled (if b then x else y) idx (b && kept)
Settled-if true kept x y idx h k = h
Settled-if false kept x y idx h k = k

Settled-if_self :
    (b : Bool) (x y : Server) (idx : ℕ)
    → Settled x idx true
    → Settled y idx false
    → Settled (if b then x else y) idx b
Settled-if_self true x y idx h k = h
Settled-if_self false x y idx h k = k

keep_client-Settled :
    (os : Hearing) (s : Server) (client : Client)
    → IsValid s
    → IsServed s client
    → Settled (keep_client os s client) client.idx os.rearm_ok
unfolding keep_client ask
keep_client-Settled os s client v served =
    let asked = ask-IsValid s (epoll_mod client.socket.fd client.idx) v in
    Settled-if_self os.rearm_ok _ _ client.idx
      (subst (Settled _ client.idx) served (
        settle (ask s (epoll_mod client.socket.fd client.idx)) client.idx
          (record (client_at s client.idx) { last_recv = os.now; in_flight = false }) asked
          (omega (arith, v.table_sized, (alive_in_table s.clients client.idx served).0)) refl
          (v.own_idx client.idx served) refl))
      (drop_client-Settled (ask s (epoll_mod client.socket.fd client.idx)) client asked served)

-- The connection is kept: bytes came, they are a request that does not ask to close, and epoll
-- takes the socket back.
unfoldable pub is_kept : Hearing → Bytes → Bool
is_kept os [] = false
is_kept os (c ∷ cs) = elim ((request_parse (c ∷ cs)).path) [
  | none ↦ false
  | some _ ↦ is_keep_alive (request_parse (c ∷ cs)) && os.rearm_ok
]

-- A call of worker_callback that returned
pub record Returns (answer : Option Server) (idx : ℕ) (kept : Bool) : Type 0 where
  pub after : Server
  pub returned : answer ≡ some after
  pub settled : Settled after idx kept

send_answer-Returns :
    (os : Hearing) (req : Http) (s : Server) (client : Client) (answer : Option Http)
    → Answers answer
    → IsValid s
    → IsServed s client
    → Returns (send_answer os req s client answer) client.idx (is_keep_alive req && os.rearm_ok)
unfolding send_answer ask
send_answer-Returns os req s client none (resp, e) v served = absurd (cc)
send_answer-Returns os req s client (some response) a v served =
    let asked = ask-IsValid s (send_response client.socket.fd response) v in
    record {
      after = _;
      returned = refl;
      settled =
          Settled-if (is_keep_alive req) os.rearm_ok _ _ client.idx
            (keep_client-Settled os (ask s (send_response client.socket.fd response)) client asked
              served)
            (drop_client-Settled (ask s (send_response client.socket.fd response)) client asked
              served);
    }

serve_parsed-Returns :
    (site : Site) (os : Hearing) (req : Http) (s : Server) (client : Client) (path : Option Bytes)
    → (path ≢ none → Answers (fetch_response site req))
    → IsValid s
    → IsServed s client
    → Returns
        (serve_parsed site os req s client path)
        client.idx
        (elim path [ none ↦ false | some _ ↦ is_keep_alive req && os.rearm_ok ])
unfolding serve_parsed
serve_parsed-Returns site os req s client none fetched v served = record {
  after = _;
  returned = refl;
  settled =
      drop_client-Settled (ask s (send_response client.socket.fd req)) client
        (ask-IsValid s (send_response client.socket.fd req) v) (unfold ask in served);
}
serve_parsed-Returns site os req s client (some path) fetched v served =
    send_answer-Returns os req s client (fetch_response site req) (fetched (λ e. cc)) v served

serve_received-Returns :
    (site : Site) (os : Hearing) (s : Server) (client : Client) (buffer : Bytes)
    → IsValid s
    → IsServed s client
    → Returns (serve_received site os s client buffer) client.idx (is_kept os buffer)
unfolding serve_received is_kept
serve_received-Returns site os s client [] v served = record {
  after = _;
  returned = refl;
  settled = drop_client-Settled s client v served;
}
serve_received-Returns site os s client (c ∷ cs) v served =
    serve_parsed-Returns site os (request_parse (c ∷ cs)) s client ((request_parse (c ∷ cs)).path)
      (fetch_response-Answers site (c ∷ cs)) v served

pub worker_callback-Returns :
    (site : Site) (os : Hearing) (s : Server) (client : Client)
    → IsValid s
    → IsServed s client
    → Returns
        (worker_callback site os s new_client client)
        client.idx
        (is_kept os (recv_message true os.buf_address os.arrivals))
unfolding worker_callback
worker_callback-Returns site os s client v served =
    serve_received-Returns site os s client (recv_message true os.buf_address os.arrivals) v served
