-- ===== src/Serve.antt =====
-- foxtails/src/worker_loop.c, up to the response of a request: the files under the root, and the
-- three handlers of routes. What the file system and the network answer, the configured root and
-- the routes are arguments.
pub mod Files
pub mod Fetch
pub mod Head
pub mod Calls
pub mod Settling
use foxtails.Base.{
  ℕ, Bool, true, false, not, ◌&&◌, ◌||◌, Option, none, some, List, [], ◌∷◌, ◌++◌, length, drop,
  ◌==◌, if◌then◌else◌,
}
use foxtails.Base.Bytes.{Bytes, codes, equal, starts_with}
use foxtails.Base.Decimal.{pos}
use foxtails.Http.Header.{set_header}
use foxtails.Http.Message.{
  Http, empty_message, plain_text, not_implemented, not_found, not_allowed, no_content, http_moved,
  bad_gateway,
}
use foxtails.Http.Method.{Method, get, head, post, put, delete, connect, options, trace, patch, bit}
use foxtails.Http.Mime.{Mime, text_plain, mime_type_from_ext, mime_type_str}
use foxtails.Http.Parse.{response_parse}
use foxtails.Http.Receive.{Arrival, recv_message}
use foxtails.Http.Send.{Sent, send_request}
use foxtails.Routing.{RouteType, alias, reroute, proxy, Route}
use foxtails.Routing.Methods.{has_method}
use foxtails.Sockets.{create_auto}

-- What opening, measuring and mapping a file comes to.
pub data FileAnswer : Type 0 where
  not_opened not_measured not_mapped : FileAnswer
  content : Bytes → FileAnswer

-- A connected backend: the address of the buffer that malloc gives, and the arrivals that follow
-- what was sent.
pub record Backend : Type 0 where
  pub buf_address : ℕ
  pub arrivals : Sent → List Arrival

-- The globals of the program and its surroundings
pub record Site : Type 0 where
  pub approot : Option Bytes
  pub routes : List Route
  pub realpath : Bytes → Option Bytes
  pub file : Bytes → FileAnswer
  pub connect : Bytes → ℕ → Option Backend
  pub memory : Bool

-- strrchr: the bytes in front of the last `c`, and those behind it
unfoldable pub strrchr : ℕ → Bytes → Option (Bytes × Bytes)
strrchr c [] = none
strrchr c (x ∷ xs) = elim (strrchr c xs) [
  | some (before, after) ↦ some (x ∷ before, after)
  | none ↦ if x == c then some ([], xs) else none
]

unfoldable pub get_mime_type : Bytes → Mime
unfolding strrchr
get_mime_type path = elim (strrchr b'.' path) [
  | none ↦ text_plain
  | some (before, ext) ↦ elim before [ [] ↦ text_plain | _ ∷ _ ↦ mime_type_from_ext ext ]
]

-- The byte behind the root is a slash or the end of the string.
abbrev pub at_boundary : Bytes → Bool
at_boundary [] = true
at_boundary (c ∷ cs) = c == b'/'

-- The tests of verify_url on what realpath answers for the root and for the file
unfoldable pub is_inside : Option Bytes → Option Bytes → Bool
is_inside none full_real = false
is_inside (some root_real) none = false
is_inside (some root_real) (some full_real) =
    starts_with root_real full_real && at_boundary (drop (length root_real) full_real)

-- verify_url answers 0.
unfoldable pub verify_url : (Bytes → Option Bytes) → Bytes → Bytes → Bool
verify_url realpath approot full_path = is_inside (realpath approot) (realpath full_path)

abbrev pub no_root_message : Bytes
no_root_message = codes "Internal Server Error (app.root key could not be found in config)"

abbrev pub no_root : Http
no_root = record empty_message {
  code = pos 500;
  reason = some (codes "Internal Server Error");
  body = some no_root_message;
  body_len = length no_root_message;
  headers = plain_text ∷ [];
}

-- NOT_FOUND turned into the response of a file
abbrev pub file_response : Bytes → Option Bytes → ℕ → Http
file_response full_path body body_len = record not_found {
  code = pos 200;
  reason = some (codes "OK");
  headers =
      (set_header (plain_text ∷ []) (codes "Content-Type")
        (mime_type_str (get_mime_type full_path))).1;
  body = body;
  body_len = body_len;
}

unfoldable pub answer_file : Bytes → FileAnswer → Http
answer_file full_path (content []) = file_response full_path none 0
answer_file full_path (content (c ∷ cs)) = file_response full_path (some (c ∷ cs)) (length (c ∷ cs))
answer_file full_path _ = not_found

-- get_path behind the answer of config_get(config, "app", "root")
unfoldable pub get_path_from : Site → Bytes → Option Bytes → Http
get_path_from site url none = no_root
get_path_from site url (some approot) =
    if verify_url site.realpath approot (approot ++ url)
    then answer_file (approot ++ url) (site.file (approot ++ url))
    else not_found

unfoldable pub get_path : Site → Bytes → Http
get_path site url = get_path_from site url site.approot

-- get_path(req->path); `none` is undefined behaviour, here for a null pointer.
abbrev pub get_path_of : Site → Option Bytes → Option Http
get_path_of site none = none
get_path_of site (some url) = some (get_path site url)

abbrev pub drop_body : Option Http → Option Http
drop_body none = none
drop_body (some resp) = some (record resp { body = none })

-- The switch of serve_path; its default, for no method, is a failed assertion, `none` too.
unfoldable pub serve_path : Site → Option Method → Option Bytes → Option Http
serve_path site (some get) path = get_path_of site path
serve_path site (some head) path = drop_body (get_path_of site path)
serve_path site (some post) path = some not_allowed
serve_path site (some put) path = some not_allowed
serve_path site (some delete) path = some not_allowed
serve_path site (some connect) path = some not_allowed
serve_path site (some options) path = some no_content
serve_path site (some trace) path = some not_allowed
serve_path site (some patch) path = some not_allowed
serve_path site none path = none

unfoldable pub handle_alias : Site → Http → Route → Option Http
handle_alias site req route = serve_path site req.method (some (route.dest))

unfoldable pub handle_reroute : Site → Http → Route → Option Http
handle_reroute site req route = some (http_moved (route.dest))

abbrev pub is_head : Option Method → Bool
is_head (some head) = true
is_head _ = false

-- The answer of a backend from the bytes received
unfoldable pub backend_response : Option Method → Bytes → Http
backend_response method [] = bad_gateway
backend_response method (c ∷ cs) =
    let resp = response_parse (c ∷ cs) in
    if is_head method then record resp { body = none } else resp

-- handle_proxy behind the answer of socket_create_auto
unfoldable pub proxy_to : Site → Http → Option Backend → Http
proxy_to site req none = not_found
proxy_to site req (some backend) = backend_response req.method (
    recv_message (not (is_head req.method)) backend.buf_address
      (backend.arrivals (send_request site.memory req)))

unfoldable pub handle_proxy : Site → Http → Route → Option Http
handle_proxy site req route = some (proxy_to site req (create_auto site.connect (route.dest)))

-- route_handlers[route->type]
unfoldable pub handle : Site → Http → Route → RouteType → Option Http
handle site req route alias = handle_alias site req route
handle site req route reroute = handle_reroute site req route
handle site req route proxy = handle_proxy site req route

-- route->methods & req.method, where no method is 0
abbrev pub takes_method : Route → Option Method → Bool
takes_method route none = false
takes_method route (some m) = has_method route.methods m

abbrev pub is_proxy : RouteType → Bool
is_proxy proxy = true
is_proxy _ = false

abbrev pub takes_path : Route → Bytes → Bool
takes_path route path =
    equal path (route.src) || is_proxy route.type && starts_with (route.src) path

-- The loop of fetch_response over the routes
unfoldable pub fetch_from : Site → Http → Bytes → List Route → Option Http
fetch_from site req path [] = serve_path site req.method (some path)
fetch_from site req path (route ∷ routes) =
    if takes_method route req.method && takes_path route path
    then handle site req route route.type
    else fetch_from site req path routes

-- A null path is undefined behaviour already where the request is logged.
unfoldable pub fetch_at : Site → Http → Option Bytes → Option Http
unfolding fetch_from
fetch_at site req none = none
fetch_at site req (some path) = fetch_from site req path site.routes

unfoldable pub fetch_response : Site → Http → Option Http
unfolding fetch_at
fetch_response site req = fetch_at site req req.path
