-- ===== src/Callback.antt =====
-- foxtails/src/worker_loop.c: worker_callback, the work of a worker on one action. The payload of
-- an action for a client is a copy of the client that was made when the action was dispatched.
pub mod Slot
pub mod Effects
use foxtails.Base.{
  ℕ, Bool, true, false, Option, none, some, List, [], ◌∷◌, ◌++◌, set, if◌then◌else◌,
}
use foxtails.Base.Bytes.{Bytes}
use foxtails.Http.Header.{is_keep_alive}
use foxtails.Http.Message.{Http}
use foxtails.Http.Parse.{request_parse}
use foxtails.Http.Receive.{Arrival, recv_message}
use foxtails.Serve.{Site, fetch_response}
use foxtails.Server.{
  Client, Server, Effect, send_response, epoll_mod, client_at, server_remove_client,
}
use foxtails.Workers.{ActionType, noop, new_client}

-- What a call of worker_callback hears from the operating system
pub record Hearing : Type 0 where
  pub buf_address : ℕ
  pub arrivals : List Arrival
  pub rearm_ok : Bool
  pub now : ℕ

unfoldable pub ask : Server → Effect → Server
ask s effect = record s { effects = s.effects ++ effect ∷ [] }

-- server_remove_client(client->serv, *client), and then in_flight is cleared.
unfoldable pub drop_client : Server → Client → Server
drop_client s client =
    let s' = server_remove_client s client in
    record s' {
      clients = set s'.clients client.idx (record (client_at s' client.idx) { in_flight = false });
    }

-- The end of a request of a client that keeps its connection
unfoldable pub keep_client : Hearing → Server → Client → Server
unfolding ask drop_client
keep_client os s client =
    let s' = ask s (epoll_mod client.socket.fd client.idx) in
    if os.rearm_ok
    then record s' {
      clients =
          set s'.clients client.idx
            (record (client_at s' client.idx) { last_recv = os.now; in_flight = false });
    }
    else drop_client s' client

-- What follows fetch_response
unfoldable pub send_answer : Hearing → Http → Server → Client → Option Http → Option Server
unfolding ask keep_client drop_client
send_answer os req s client none = none
send_answer os req s client (some response) =
    let s' = ask s (send_response client.socket.fd response) in
    some (if is_keep_alive req then keep_client os s' client else drop_client s' client)

-- What follows http_request_parse; a null path marks a request that was refused.
unfoldable pub serve_parsed : Site → Hearing → Http → Server → Client → Option Bytes → Option Server
unfolding ask send_answer drop_client
serve_parsed site os req s client none =
    some (drop_client (ask s (send_response client.socket.fd req)) client)
serve_parsed site os req s client (some path) =
    send_answer os req s client (fetch_response site req)

-- What follows http_recv_message
unfoldable pub serve_received : Site → Hearing → Server → Client → Bytes → Option Server
unfolding serve_parsed drop_client
serve_received site os s client [] = some (drop_client s client)
serve_received site os s client (c ∷ cs) =
    let req = request_parse (c ∷ cs) in serve_parsed site os req s client req.path

-- worker_callback; `none` is undefined behaviour or a failed assertion.
unfoldable pub worker_callback : Site → Hearing → Server → ActionType → Client → Option Server
unfolding serve_received
worker_callback site os s noop client = some s
worker_callback site os s new_client client =
    serve_received site os s client (recv_message true os.buf_address os.arrivals)
