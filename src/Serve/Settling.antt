-- ===== src/Serve/Settling.antt =====
-- foxtails/src/worker_loop.c: a request that is answered leaves no file and no backend open.
use foxtails.Base.{
  ℕ, ◌+◌, not, ◌&&◌, Option, none, some, List, [], ◌∷◌, ◌++◌, ◌≡◌, ◌≢◌, refl, sym, ap, ◌∙◌, arith,
  Bool-cases, inl, inr,
}
use mathlib.Core.Option
use foxtails.Base.Bytes.{Bytes}
use foxtails.Base.Decimal.{pos}
use foxtails.Http.Message.{Http}
use foxtails.Http.Method.{Method, get, head, post, put, delete, connect, options, trace, patch}
use foxtails.Http.Receive.{recv_message}
use foxtails.Http.Send.{send_request}
use foxtails.Routing.{RouteType, alias, reroute, proxy, Route}
use foxtails.Run.Count.{
  Resource, obtains, releases, obtains-append, releases-append, obtained_fd, released_fd,
  released_socket, is_of,
}
use foxtails.Serve.Calls.{
  Calls, with_calls, read_file, from_root, get_path_asking, serve_path_asking, after_recv,
  ask_backend, handle_proxy_asking, handle_asking, fetch_from_asking, fetch_at_asking,
  fetch_response_asking,
}
use foxtails.Serve.{
  Site, FileAnswer, not_opened, not_measured, not_mapped, content, verify_url, answer_file,
  get_path_from, get_path, get_path_of, drop_body, serve_path, is_head, backend_response, proxy_to,
  handle_alias, handle_reroute, handle_proxy, handle, takes_method, takes_path, fetch_from,
  fetch_at, fetch_response,
}
use foxtails.Server.Slots.{one_if}
use foxtails.Server.{Effect, Socket, open_fd, close_fd}
use foxtails.Sockets.Balance.{KeepsNone, Gives, connect_of, socket_create_auto-IsConnected}
use foxtails.Sockets.Connect.{socket_create_auto}
use foxtails.Sockets.Url.{create_auto-map}

-- An answer, with what was asked for it: each descriptor that was opened is closed, and each address
-- that was allocated is freed.
abbrev pub Settles {ℓ} : {A : Type ℓ} → A → A × List Effect → Type ℓ
Settles answer r = (r.0 ≡ answer) × KeepsNone r.1

opened_and_closed : (fd : ℕ) → KeepsNone (open_fd fd ∷ close_fd fd ∷ [])
unfolding obtains releases
opened_and_closed fd res = omega (arith, obtained_fd res fd, released_fd res fd)

read_file-Settles :
    (path : Bytes) (fd : ℕ) (file : FileAnswer)
    → Settles (answer_file path file) (read_file path fd file)
unfolding read_file answer_file obtains releases
read_file-Settles path fd not_opened = (refl, λ res. refl)
read_file-Settles path fd not_measured = (refl, opened_and_closed fd)
read_file-Settles path fd not_mapped = (refl, opened_and_closed fd)
read_file-Settles path fd (content []) = (refl, opened_and_closed fd)
read_file-Settles path fd (content (c ∷ cs)) =
    (refl, λ res. omega (arith, obtained_fd res fd, released_fd res fd))

module _ (site : Site) (calls : Calls) where
  from_root-Settles :
      (url : Bytes) (approot : Option Bytes)
      → Settles
          (get_path_from (with_calls site calls) url approot)
          (from_root site calls url approot)
  unfolding get_path_from obtains releases
  from_root-Settles url none = (refl, λ res. refl)
  from_root-Settles url (some approot) =
      elim (Bool-cases (verify_url site.realpath approot (approot ++ url))) [
        | inl inside ↦
            let path = approot ++ url in
            rw inside (read_file-Settles path (calls.fd_of path) (site.file path))
        | inr outside ↦ rw outside (refl, λ res. refl)
      ]

  get_path-Settles :
      (path : Option Bytes)
      → Settles (get_path_of (with_calls site calls) path) (get_path_asking site calls path)
  unfolding get_path_asking get_path obtains releases
  get_path-Settles none = (refl, λ res. refl)
  get_path-Settles (some url) = let r = from_root-Settles url site.approot in (ap some r.0, r.1)

  serve_path-Settles :
      (method : Option Method) (path : Option Bytes)
      → Settles
          (serve_path (with_calls site calls) method path)
          (serve_path_asking site calls method path)
  unfolding serve_path serve_path_asking obtains releases
  serve_path-Settles none path = (refl, λ res. refl)
  serve_path-Settles (some get) path = get_path-Settles path
  serve_path-Settles (some head) path = let r = get_path-Settles path in (ap drop_body r.0, r.1)
  serve_path-Settles (some post) path = (refl, λ res. refl)
  serve_path-Settles (some put) path = (refl, λ res. refl)
  serve_path-Settles (some delete) path = (refl, λ res. refl)
  serve_path-Settles (some connect) path = (refl, λ res. refl)
  serve_path-Settles (some options) path = (refl, λ res. refl)
  serve_path-Settles (some trace) path = (refl, λ res. refl)
  serve_path-Settles (some patch) path = (refl, λ res. refl)

  -- A backend that was connected is given back, whatever it answers.
  after_recv-Settles :
      (method : Option Method) (socket : Socket) (received : Bytes)
      → ((after_recv method socket received).0 ≡ backend_response method received)
        × ((res : Resource)
            → obtains res (after_recv method socket received).1 + one_if (is_of res socket)
              ≡ releases res (after_recv method socket received).1)
  unfolding backend_response obtains releases
  after_recv-Settles method socket [] = (refl, λ res. omega (arith, released_socket res socket))
  after_recv-Settles method socket (c ∷ cs) =
      (refl, λ res. omega (arith, released_socket res socket))

  proxy_to-Settles :
      (req : Http) (found : Option Socket × List Effect)
      → Gives found
      → Settles
          (proxy_to (with_calls site calls) req (Option.map calls.backend found.0))
          (let r = ask_backend site calls req found.0 in (r.0, found.1 ++ r.1))
  unfolding proxy_to obtains releases
  proxy_to-Settles req (none, es) keeps =
      (refl, λ res. omega (arith, obtains-append res es [], releases-append res es [], keeps res))
  proxy_to-Settles req (some socket, es) keeps =
      let backend = calls.backend socket in
      let received =
        recv_message (not (is_head req.method)) backend.buf_address
          (backend.arrivals (send_request site.memory req)) in
      let r = after_recv-Settles req.method socket received in
      let closing = (after_recv req.method socket received).1 in
      (
        r.0,
        λ res. omega (
          arith,
          obtains-append res es closing,
          releases-append res es closing,
          keeps res,
          r.1 res,
        ),
      )

  handle_proxy-Settles :
      (req : Http) (route : Route)
      → calls.to.fd ≢ pos 0
      → Settles
          (handle_proxy (with_calls site calls) req route)
          (handle_proxy_asking site calls req route)
  unfolding handle_proxy handle_proxy_asking
  handle_proxy-Settles req route h =
      let found = socket_create_auto calls.to calls.timeout (route.dest) in
      let connected = socket_create_auto-IsConnected calls.to calls.timeout (route.dest) h in
      let r = proxy_to-Settles req found connected.1 in
      (
        ap some (
            r.0
            ∙ ap (λ o. proxy_to (with_calls site calls) req o)
                (ap (Option.map calls.backend) connected.0
                  ∙ sym (create_auto-map calls.backend (connect_of calls.to) (route.dest)))),
        r.1,
      )

  handle-Settles :
      (req : Http) (route : Route) (type : RouteType)
      → calls.to.fd ≢ pos 0
      → Settles
          (handle (with_calls site calls) req route type)
          (handle_asking site calls req route type)
  unfolding handle handle_alias handle_reroute obtains releases
  handle-Settles req route alias h = serve_path-Settles req.method (some (route.dest))
  handle-Settles req route reroute h = (refl, λ res. refl)
  handle-Settles req route proxy h = handle_proxy-Settles req route h

  fetch_from-Settles :
      (req : Http) (path : Bytes) (routes : List Route)
      → calls.to.fd ≢ pos 0
      → Settles
          (fetch_from (with_calls site calls) req path routes)
          (fetch_from_asking site calls req path routes)
  unfolding fetch_from fetch_from_asking
  fetch_from-Settles req path [] h = serve_path-Settles req.method (some path)
  fetch_from-Settles req path (route ∷ routes) h =
      elim (Bool-cases (takes_method route req.method && takes_path route path)) [
        | inl taken ↦ rw taken (handle-Settles req route route.type h)
        | inr skipped ↦ rw skipped (fetch_from-Settles req path routes h)
      ]

  fetch_at-Settles :
      (req : Http) (path : Option Bytes)
      → calls.to.fd ≢ pos 0
      → Settles (fetch_at (with_calls site calls) req path) (fetch_at_asking site calls req path)
  unfolding fetch_at obtains releases
  fetch_at-Settles req none h = (refl, λ res. refl)
  fetch_at-Settles req (some path) h = fetch_from-Settles req path site.routes h

-- Unless socket answers 0, fetch_response closes each descriptor that it has opened for a file or a
-- backend, and frees each address, as often as it has obtained it, on every way through the files
-- and the handlers; and its answer is that of the site whose backends are reached by the same calls.
pub fetch_response_asking-Settles :
    (site : Site) (calls : Calls) (req : Http)
    → calls.to.fd ≢ pos 0
    → Settles (fetch_response (with_calls site calls) req) (fetch_response_asking site calls req)
unfolding fetch_response fetch_response_asking
fetch_response_asking-Settles site calls req h = fetch_at-Settles site calls req req.path h
