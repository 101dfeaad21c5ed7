-- ===== src/Serve/Calls.antt =====
-- foxtails/src/worker_loop.c: fetch_response with the files and the backends that it opens, and what
-- it gives back of them.
use foxtails.Base.{ℕ, not, ◌&&◌, Option, none, some, List, [], ◌∷◌, ◌++◌, length, if◌then◌else◌}
use mathlib.Core.Option
use foxtails.Base.Bytes.{Bytes}
use foxtails.Base.Decimal.{ℤ}
use foxtails.Http.Message.{Http, not_found, not_allowed, no_content, http_moved, bad_gateway}
use foxtails.Http.Method.{Method, get, head, post, put, delete, connect, options, trace, patch}
use foxtails.Http.Parse.{response_parse}
use foxtails.Http.Receive.{recv_message}
use foxtails.Http.Send.{send_request}
use foxtails.Routing.{RouteType, alias, reroute, proxy, Route}
use foxtails.Serve.{
  Site, Backend, FileAnswer, not_opened, not_measured, not_mapped, content, verify_url, no_root,
  file_response, drop_body, is_head, takes_method, takes_path,
}
use foxtails.Server.{Effect, Socket, open_fd, close_fd, free_address, map_file, unmap_file}
use foxtails.Sockets.Balance.{connect_of}
use foxtails.Sockets.Connect.{Connecting, socket_create_auto}

-- The descriptor that open gives for a file, the answers of the calls that connect to a backend, and
-- what a connected backend sends
pub record Calls : Type 0 where
  pub fd_of : Bytes → ℕ
  pub to : Connecting
  pub timeout : ℤ
  pub backend : Socket → Backend

-- The site whose backends are reached by these calls
abbrev pub with_calls : Site → Calls → Site
with_calls site calls = record site {
  connect = λ ip port. Option.map calls.backend (connect_of calls.to ip port);
}

-- open, fstat and mmap in get_path, and the response
unfoldable pub read_file : Bytes → ℕ → FileAnswer → Http × List Effect
read_file path fd not_opened = (not_found, [])
read_file path fd not_measured = (not_found, open_fd fd ∷ close_fd fd ∷ [])
read_file path fd not_mapped = (not_found, open_fd fd ∷ close_fd fd ∷ [])
read_file path fd (content []) = (file_response path none 0, open_fd fd ∷ close_fd fd ∷ [])
read_file path fd (content (c ∷ cs)) = (
  file_response path (some (c ∷ cs)) (length (c ∷ cs)),
  open_fd fd ∷ map_file fd ∷ unmap_file fd ∷ close_fd fd ∷ [],
)

abbrev pub from_root : Site → Calls → Bytes → Option Bytes → Http × List Effect
from_root site calls url none = (no_root, [])
from_root site calls url (some approot) =
    let path = approot ++ url in
    if verify_url site.realpath approot path
    then read_file path (calls.fd_of path) (site.file path)
    else (not_found, [])

-- get_path(req->path)
unfoldable pub get_path_asking : Site → Calls → Option Bytes → Option Http × List Effect
get_path_asking site calls none = (none, [])
get_path_asking site calls (some url) =
    let (resp, asked) = from_root site calls url site.approot in (some resp, asked)

unfoldable pub serve_path_asking :
    Site → Calls → Option Method → Option Bytes → Option Http × List Effect
serve_path_asking site calls (some get) path = get_path_asking site calls path
serve_path_asking site calls (some head) path =
    let (answer, asked) = get_path_asking site calls path in (drop_body answer, asked)
serve_path_asking site calls (some post) path = (some not_allowed, [])
serve_path_asking site calls (some put) path = (some not_allowed, [])
serve_path_asking site calls (some delete) path = (some not_allowed, [])
serve_path_asking site calls (some connect) path = (some not_allowed, [])
serve_path_asking site calls (some options) path = (some no_content, [])
serve_path_asking site calls (some trace) path = (some not_allowed, [])
serve_path_asking site calls (some patch) path = (some not_allowed, [])
serve_path_asking site calls none path = (none, [])

-- handle_proxy behind http_recv_message
abbrev pub after_recv : Option Method → Socket → Bytes → Http × List Effect
after_recv method socket [] = (bad_gateway, close_fd socket.fd ∷ free_address socket.address ∷ [])
after_recv method socket (c ∷ cs) =
    let resp = response_parse (c ∷ cs) in
    (
      if is_head method then record resp { body = none } else resp,
      close_fd socket.fd ∷ free_address socket.address ∷ [],
    )

-- handle_proxy behind socket_create_auto
abbrev pub ask_backend : Site → Calls → Http → Option Socket → Http × List Effect
ask_backend site calls req none = (not_found, [])
ask_backend site calls req (some socket) =
    let backend = calls.backend socket in
    after_recv req.method socket (
      recv_message (not (is_head req.method)) backend.buf_address
        (backend.arrivals (send_request site.memory req)))

unfoldable pub handle_proxy_asking : Site → Calls → Http → Route → Option Http × List Effect
handle_proxy_asking site calls req route =
    let (found, asked) = socket_create_auto calls.to calls.timeout (route.dest) in
    let (resp, asked_then) = ask_backend site calls req found in (some resp, asked ++ asked_then)

-- route_handlers[route->type]
abbrev pub handle_asking : Site → Calls → Http → Route → RouteType → Option Http × List Effect
handle_asking site calls req route alias =
    serve_path_asking site calls req.method (some (route.dest))
handle_asking site calls req route reroute = (some (http_moved (route.dest)), [])
handle_asking site calls req route proxy = handle_proxy_asking site calls req route

unfoldable pub fetch_from_asking :
    Site → Calls → Http → Bytes → List Route → Option Http × List Effect
fetch_from_asking site calls req path [] = serve_path_asking site calls req.method (some path)
fetch_from_asking site calls req path (route ∷ routes) =
    if takes_method route req.method && takes_path route path
    then handle_asking site calls req route route.type
    else fetch_from_asking site calls req path routes

abbrev pub fetch_at_asking : Site → Calls → Http → Option Bytes → Option Http × List Effect
fetch_at_asking site calls req none = (none, [])
fetch_at_asking site calls req (some path) = fetch_from_asking site calls req path site.routes

unfoldable pub fetch_response_asking : Site → Calls → Http → Option Http × List Effect
fetch_response_asking site calls req = fetch_at_asking site calls req req.path
