-- ===== src/Serve/Head.antt =====
-- worker_loop.c: a HEAD request is answered as the GET request for the same path, less the body.
use foxtails.Base.{
  Bool, true, false, ◌&&◌, Option, none, some, List, [], ◌∷◌, All, if◌then◌else◌, ◌≡◌, refl, ap,
  arith,
}
use foxtails.Base.Bytes.{Bytes}
use foxtails.Http.Message.{Http}
use foxtails.Http.Method.{get, head}
use foxtails.Routing.Methods.{has_method}
use foxtails.Routing.{RouteType, alias, reroute, proxy, Route}
use foxtails.Serve.{
  Site, serve_path, handle, handle_alias, takes_path, fetch_from, fetch_at, fetch_response,
  drop_body,
}

-- The route is an alias, for both methods or for neither.
pub record IsEven (route : Route) : Type 0 where
  pub is_alias : route.type ≡ alias
  pub same : has_method route.methods head ≡ has_method route.methods get

abbrev with_get : Http → Http
with_get req = record req { method = some get }

abbrev with_head : Http → Http
with_head req = record req { method = some head }

serve_path-head :
    (site : Site) (path : Option Bytes)
    → serve_path site (some head) path ≡ drop_body (serve_path site (some get) path)
unfolding serve_path
serve_path-head site path = refl

handle-head :
    (site : Site) (req : Http) (route : Route) (type : RouteType)
    → type ≡ alias
    → handle site (with_head req) route type ≡ drop_body (handle site (with_get req) route type)
unfolding handle handle_alias
handle-head site req route alias h = serve_path-head site (some (route.dest))
handle-head site req route reroute h = absurd (cc)
handle-head site req route proxy h = absurd (cc)

choose :
    (b c : Bool) (x y x' y' : Option Http)
    → b ≡ c
    → x ≡ drop_body x'
    → y ≡ drop_body y'
    → (if b then x else y) ≡ drop_body (if c then x' else y')
choose true true x y x' y' e h k = h
choose false false x y x' y' e h k = k
choose _ _ x y x' y' e h k = absurd (ground arith)

fetch_from-head :
    (site : Site) (req : Http) (path : Bytes) (routes : List Route)
    → All IsEven routes
    → fetch_from site (with_head req) path routes
      ≡ drop_body (fetch_from site (with_get req) path routes)
unfolding fetch_from
fetch_from-head site req path [] h = serve_path-head site (some path)
fetch_from-head site req path (route ∷ routes) h =
    choose _ _ _ _ _ _ (ap (λ b. b && takes_path route path) h.0.same)
      (handle-head site req route route.type h.0.is_alias)
      (fetch_from-head site req path routes h.1)

-- Where every route is an alias, for GET and HEAD both or for neither, fetch_response answers a
-- HEAD request with the response of the GET request for the same path, less its body.
pub fetch_response-head :
    (site : Site) (req : Http)
    → All IsEven site.routes
    → fetch_response site (record req { method = some head })
      ≡ drop_body (fetch_response site (record req { method = some get }))
unfolding fetch_response fetch_at
fetch_response-head site req h = at req.path
  where
    at :
        (path : Option Bytes)
        → fetch_at site (with_head req) path ≡ drop_body (fetch_at site (with_get req) path)
    at none = refl
    at (some path) = fetch_from-head site req path site.routes h
