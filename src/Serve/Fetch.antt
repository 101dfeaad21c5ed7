-- ===== src/Serve/Fetch.antt =====
-- worker_loop.c: fetch_response serves the first route that takes the request, and it never ends
-- the program for a request that was parsed.
use foxtails.Base.{
  Bool, true, false, ◌&&◌, Option, none, some, List, [], ◌∷◌, ◌++◌, All, if◌then◌else◌, ◌≡◌, ◌≢◌,
  refl, sym, ap, subst, ◌∙◌, arith,
}
use foxtails.Base.Bytes.{Bytes, c_str}
use foxtails.Http.Message.{Http}
use foxtails.Http.Method.{Method, get}
use foxtails.Http.Parse.{parse_headers_and_body, request_parse, set_body}
use foxtails.Http.Parse.Accept.{
  Outcome, accepted, refused, request_parse-Outcome, path-parse_headers_and_body,
}
use foxtails.Http.Parse.Request.{Accepts}
use foxtails.Routing.{RouteType, alias, reroute, proxy, Route}
use foxtails.Serve.{
  Site, serve_path, handle, handle_alias, handle_reroute, handle_proxy, takes_method, takes_path,
  fetch_from, fetch_at, fetch_response,
}

-- The route takes the request.
abbrev pub is_taken : Http → Bytes → Route → Bool
is_taken req path route = takes_method route req.method && takes_path route path

-- How a table of routes answers a request: by the first route that takes it, or by the files.
pub data Chosen (site : Site) (req : Http) (path : Bytes) : List Route → Option Http → Type 0 where
  by_route :
      (before : List Route) (route : Route) (after : List Route)
      → All (λ r. is_taken req path r ≡ false) before
      → is_taken req path route ≡ true
      → Chosen site req path (before ++ route ∷ after) (handle site req route route.type)
  by_files :
      (routes : List Route)
      → All (λ r. is_taken req path r ≡ false) routes
      → Chosen site req path routes (serve_path site req.method (some path))

Chosen-later :
    (site : Site) (req : Http) (path : Bytes) (route : Route) {routes : List Route}
    {answer : Option Http}
    → is_taken req path route ≡ false
    → Chosen site req path routes answer
    → Chosen site req path (route ∷ routes) answer
Chosen-later site req path route h (by_route before r after none_before taken) =
    by_route (route ∷ before) r after (h, none_before) taken
Chosen-later site req path route h (by_files routes none_taken) =
    by_files (route ∷ routes) (h, none_taken)

fetch_from_step :
    (site : Site) (req : Http) (path : Bytes) (route : Route) (routes : List Route) (taken : Bool)
    → is_taken req path route ≡ taken
    → Chosen site req path routes (fetch_from site req path routes)
    → Chosen site req path
        (route ∷ routes)
        (if taken then handle site req route route.type else fetch_from site req path routes)
fetch_from_step site req path route routes true h c = by_route [] route routes tt h
fetch_from_step site req path route routes false h c = Chosen-later site req path route h c

fetch_from-Chosen :
    (site : Site) (req : Http) (path : Bytes) (routes : List Route)
    → Chosen site req path routes (fetch_from site req path routes)
unfolding fetch_from
fetch_from-Chosen site req path [] = by_files [] tt
fetch_from-Chosen site req path (route ∷ routes) =
    fetch_from_step site req path route routes _ refl (fetch_from-Chosen site req path routes)

-- A request with a path is answered by the handler of the first route that takes its method and
-- its path, and from the files where no route does.
pub fetch_response-Chosen :
    (site : Site) (req : Http) (path : Bytes)
    → req.path ≡ some path
    → Chosen site req path site.routes (fetch_response site req)
unfolding fetch_response fetch_at
fetch_response-Chosen site req path h =
    subst (λ p. Chosen site req path site.routes (fetch_at site req p)) (sym h)
      (fetch_from-Chosen site req path site.routes)

-- An answer, not the end of the program
abbrev pub Answers : Option Http → Type 0
Answers answer = (resp : Http) × (answer ≡ some resp)

serve_path-Answers :
    (site : Site) (m : Method) (path : Bytes) → Answers (serve_path site (some m) (some path))
unfolding serve_path
serve_path-Answers site get path = (_, refl)
serve_path-Answers site _ path = (_, refl)

handle-Answers :
    (site : Site) (req : Http) (m : Method) (route : Route) (type : RouteType)
    → req.method ≡ some m
    → Answers (handle site req route type)
unfolding handle handle_alias handle_reroute handle_proxy
handle-Answers site req m route alias h =
    subst (λ k. Answers (serve_path site k (some (route.dest)))) (sym h)
      (serve_path-Answers site m (route.dest))
handle-Answers site req m route reroute h = (_, refl)
handle-Answers site req m route proxy h = (_, refl)

Chosen-Answers :
    (site : Site) (req : Http) (m : Method) (path : Bytes) {routes : List Route}
    {answer : Option Http}
    → req.method ≡ some m
    → Chosen site req path routes answer
    → Answers answer
Chosen-Answers site req m path h (by_route before route after none_before taken) =
    handle-Answers site req m route route.type h
Chosen-Answers site req m path h (by_files routes none_taken) =
    subst (λ k. Answers (serve_path site k (some path))) (sym h) (serve_path-Answers site m path)

method-set_body : (msg : Http) (from : Option Bytes) → (set_body msg from).method ≡ msg.method
unfolding set_body
method-set_body msg none = refl
method-set_body msg (some from) = ground arith

method-parse_headers_and_body :
    (msg : Http) (block : Bytes) → (parse_headers_and_body msg block).method ≡ msg.method
unfolding parse_headers_and_body
method-parse_headers_and_body msg block = method-set_body _ _

-- A message that http_request_parse accepts has a method and a path.
pub Accepts-parts :
    {buffer : Bytes} (msg : Http)
    → Accepts buffer msg
    → (m : Method) × (path : Bytes) × (msg.method ≡ some m) × (msg.path ≡ some path)
Accepts-parts msg a = (
  a.m,
  c_str a.path,
  ap (λ (r : Http). r.method) a.message ∙ method-parse_headers_and_body _ a.rest,
  ap (λ (r : Http). r.path) a.message ∙ path-parse_headers_and_body _ a.rest,
)

parsed-Answers :
    (site : Site) {buffer : Bytes} (msg : Http)
    → Outcome buffer msg
    → msg.path ≢ none
    → Answers (fetch_response site msg)
parsed-Answers site msg (accepted a h) has_path =
    let (m, path, method_is, path_is) = Accepts-parts msg a in
    Chosen-Answers site msg m path method_is (fetch_response-Chosen site msg path path_is)
parsed-Answers site msg (refused r h) has_path = absurd (has_path h)

pub fetch_response-Answers :
    (site : Site) (buffer : Bytes)
    → (request_parse buffer).path ≢ none
    → Answers (fetch_response site (request_parse buffer))
fetch_response-Answers site buffer h =
    parsed-Answers site (request_parse buffer) (request_parse-Outcome buffer) h
