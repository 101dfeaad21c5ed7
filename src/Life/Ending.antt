-- ===== src/Life/Ending.antt =====
-- worker_callback changes the slot of its client and no other, and closes no other socket.
use foxtails.Base.{
  ℕ, ◌<◌, Bool, true, false, not, ◌&&◌, Option, none, some, List, [], ◌∷◌, ◌++◌, length, set,
  if◌then◌else◌, ◌≡◌, ◌≢◌, refl, ap, ◌∙◌, arith, get_or-set_self, set-set,
}
use foxtails.Base.Bytes.{Bytes}
use foxtails.Run.Count.{Resource, releases, releases-append, released_socket, is_of}
use foxtails.Callback.Slot.{IsServed, is_kept}
use foxtails.Callback.{
  Hearing, ask, drop_client, keep_client, send_answer, serve_parsed, serve_received,
  worker_callback,
}
use foxtails.Http.Header.{is_keep_alive}
use foxtails.Http.Message.{Http}
use foxtails.Http.Parse.{request_parse}
use foxtails.Http.Receive.{recv_message}
use foxtails.Life.Change.{Change}
use foxtails.Serve.Fetch.{Answers, fetch_response-Answers}
use foxtails.Serve.{Site, fetch_response}
use foxtails.Server.Clients.{alive_in_table}
use foxtails.Server.Slots.{one_if}
use foxtails.Server.{
  Client, Server, Effect, send_response, epoll_mod, epoll_del, close_fd, free_address, client_at,
  no_client, server_remove_client, int_stack_push,
}
use foxtails.Workers.{new_client}

-- The slot's client after a call: not in flight, alive just if the connection is kept, which is not
-- closed then, and closed once otherwise
pub record Ended (s : Server) (client : Client) (kept : Bool) (s' : Server) : Type 0 where
  pub left : Client
  pub change : Change s s' client.idx left (λ res. one_if (not kept && is_of res client.socket))
  pub socket_is : left.socket ≡ (client_at s client.idx).socket
  pub alive_is : left.is_alive ≡ kept
  pub landed : left.in_flight ≡ false

releases_none :
    (res : Resource) (es fs : List Effect)
    → releases res fs ≡ 0
    → releases res (es ++ fs) ≡ releases res es
releases_none res es fs h = omega (arith, h, releases-append res es fs)

-- What is asked before a call and closes nothing
Ended-ask :
    (s s' : Server) (e : Effect) (client : Client) (kept : Bool)
    → ((res : Resource) → releases res (e ∷ []) ≡ 0)
    → Ended (ask s e) client kept s'
    → Ended s client kept s'
unfolding ask
Ended-ask s s' e client kept quiet h = record {
  left = h.left;
  change = record {
    place = h.change.place;
    table = h.change.table;
    same_capacity = h.change.same_capacity;
    closed_is = λ res.
        omega (arith, h.change.closed_is res, releases_none res s.effects (e ∷ []) (quiet res));
  };
  socket_is = h.socket_is;
  alive_is = h.alive_is;
  landed = h.landed;
}

drop_client-Ended :
    (s : Server) (client : Client) → IsServed s client → Ended s client false (drop_client s client)
unfolding drop_client server_remove_client int_stack_push releases
drop_client-Ended s client served = record {
  left = record (client_at s client.idx) { is_alive = false; in_flight = false };
  change = record {
    place = small;
    table =
        ap
          (λ (k : Client).
            set (set s.clients client.idx gone) client.idx (record k { in_flight = false }))
          (get_or-set_self s.clients client.idx gone no_client small)
        ∙ set-set s.clients client.idx gone (record gone { in_flight = false });
    same_capacity = ground arith;
    closed_is = λ res. ground (
      arith,
      released_socket res client.socket,
      releases-append res s.effects (
          epoll_del client.socket.fd
          ∷ close_fd client.socket.fd
          ∷ free_address client.socket.address
          ∷ []),
    );
  };
  socket_is = refl;
  alive_is = refl;
  landed = refl;
}
  where
    small : client.idx < length s.clients
    small = (alive_in_table s.clients client.idx served).0

    gone : Client
    gone = record (client_at s client.idx) { is_alive = false }

Ended-if :
    (b kept : Bool) (s x y : Server) (client : Client)
    → Ended s client kept x
    → Ended s client false y
    → Ended s client (b && kept) (if b then x else y)
Ended-if true kept s x y client h k = h
Ended-if false kept s x y client h k = k

Ended-if_self :
    (b : Bool) (s x y : Server) (client : Client)
    → Ended s client true x
    → Ended s client false y
    → Ended s client b (if b then x else y)
Ended-if_self true s x y client h k = h
Ended-if_self false s x y client h k = k

-- The slot of a client that is kept
rested :
    (s : Server) (client : Client) (now : ℕ)
    → IsServed s client
    → Ended s client true (record s {
      clients =
          set s.clients client.idx
            (record (client_at s client.idx) { last_recv = now; in_flight = false });
    })
rested s client now served = record {
  left = record (client_at s client.idx) { last_recv = now; in_flight = false };
  change = record {
    place = (alive_in_table s.clients client.idx served).0;
    table = refl;
    same_capacity = refl;
    closed_is = λ res. omega arith;
  };
  socket_is = refl;
  alive_is = served;
  landed = refl;
}

keep_client-Ended :
    (os : Hearing) (s : Server) (client : Client)
    → IsServed s client
    → Ended s client os.rearm_ok (keep_client os s client)
unfolding keep_client ask releases
keep_client-Ended os s client served =
    let asked = ask s (epoll_mod client.socket.fd client.idx) in
    Ended-if_self os.rearm_ok s _ _ client
      (Ended-ask s _ (epoll_mod client.socket.fd client.idx) client true (λ res. refl)
        (rested asked client os.now served))
      (Ended-ask s _ (epoll_mod client.socket.fd client.idx) client false (λ res. refl)
        (drop_client-Ended asked client served))

-- A call that returned, with its end
pub record Ends (s : Server) (client : Client) (kept : Bool) (answer : Option Server) : Type 0 where
  pub after : Server
  pub returned : answer ≡ some after
  pub ended : Ended s client kept after

send_answer-Ends :
    (os : Hearing) (req : Http) (s : Server) (client : Client) (answer : Option Http)
    → Answers answer
    → IsServed s client
    → Ends s client (is_keep_alive req && os.rearm_ok) (send_answer os req s client answer)
unfolding send_answer ask releases
send_answer-Ends os req s client none (resp, e) served = absurd (cc)
send_answer-Ends os req s client (some response) a served =
    let e = send_response client.socket.fd response in
    record {
      after = _;
      returned = refl;
      ended =
          Ended-ask s _ e client (is_keep_alive req && os.rearm_ok) (λ res. refl)
            (Ended-if (is_keep_alive req) os.rearm_ok (ask s e) _ _ client
              (keep_client-Ended os (ask s e) client served)
              (drop_client-Ended (ask s e) client served));
    }

serve_parsed-Ends :
    (site : Site) (os : Hearing) (req : Http) (s : Server) (client : Client) (path : Option Bytes)
    → (path ≢ none → Answers (fetch_response site req))
    → IsServed s client
    → Ends s client
        (elim path [ none ↦ false | some _ ↦ is_keep_alive req && os.rearm_ok ])
        (serve_parsed site os req s client path)
unfolding serve_parsed ask releases
serve_parsed-Ends site os req s client none fetched served =
    let e = send_response client.socket.fd req in
    record {
      after = _;
      returned = refl;
      ended =
          Ended-ask s _ e client false (λ res. refl) (drop_client-Ended (ask s e) client served);
    }
serve_parsed-Ends site os req s client (some path) fetched served =
    send_answer-Ends os req s client (fetch_response site req) (fetched (λ e. cc)) served

serve_received-Ends :
    (site : Site) (os : Hearing) (s : Server) (client : Client) (buffer : Bytes)
    → IsServed s client
    → Ends s client (is_kept os buffer) (serve_received site os s client buffer)
unfolding serve_received is_kept
serve_received-Ends site os s client [] served = record {
  after = _;
  returned = refl;
  ended = drop_client-Ended s client served;
}
serve_received-Ends site os s client (c ∷ cs) served =
    serve_parsed-Ends site os (request_parse (c ∷ cs)) s client ((request_parse (c ∷ cs)).path)
      (fetch_response-Answers site (c ∷ cs)) served

-- worker_callback returns for a client that is served, and changes its slot and no other.
pub worker_callback-Ends :
    (site : Site) (os : Hearing) (s : Server) (client : Client)
    → IsServed s client
    → Ends s client
        (is_kept os (recv_message true os.buf_address os.arrivals))
        (worker_callback site os s new_client client)
unfolding worker_callback
worker_callback-Ends site os s client served =
    serve_received-Ends site os s client (recv_message true os.buf_address os.arrivals) served
