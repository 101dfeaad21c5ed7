-- ===== src/Tests/ServeTests.antt =====
-- foxtails/src/worker_loop.c on a small site.
use foxtails.Base.{
  ℕ, true, Option, none, some, List, [], ◌∷◌, ◌++◌, length, if◌then◌else◌, ◌≡◌, refl,
}
use foxtails.Base.Bytes.{Bytes, codes, equal, equal_ci, lower, starts_with, first_equal}
use foxtails.Base.Decimal.{pos}
use foxtails.Callback.{Hearing}
use foxtails.Http.Header.{set_header, replace_value}
use foxtails.Http.Message.{Http, empty_message, not_found, http_moved}
use foxtails.Http.Method.{get, head, bit}
use foxtails.Http.Mime.{mime_type_str, mime_type_from_ext}
use foxtails.Routing.Methods.{has_method}
use foxtails.Routing.{Route, alias, reroute}
use foxtails.Serve.Fetch.{Chosen, fetch_response-Chosen}
use foxtails.Serve.Head.{IsEven, fetch_response-head}
use foxtails.Serve.Files.{Serves, Names, body_of, get_path-Serves, get_path-Names}
use foxtails.Serve.{
  drop_body, Site, FileAnswer, content, not_opened, Backend, get_path, get_path_from, verify_url,
  is_inside, answer_file, file_response, get_mime_type, strrchr, fetch_response, fetch_at,
  fetch_from, handle, handle_reroute,
}

abbrev pub resolve : Bytes → Option Bytes
unfolding equal
resolve path =
    if equal path (codes "/www")
    then some (codes "/srv")
    else if equal path (codes "/www/a.html")
    then some (codes "/srv/a.html")
    else if equal path (codes "/www/../x")
    then some (codes "/x")
    else if equal path (codes "/www2")
    then some (codes "/srv2")
    else none

abbrev pub files : Bytes → FileAnswer
unfolding equal
files path = if equal path (codes "/www/a.html") then content (codes "hi") else not_opened

abbrev pub offline : Bytes → ℕ → Option Backend
offline ip port = none

abbrev pub two_routes : List Route
two_routes =
    record { src = codes "/old"; dest = codes "/new"; type = reroute; methods = 3 }
    ∷ record { src = codes "/home"; dest = codes "/a.html"; type = alias; methods = 1 }
    ∷ []

abbrev pub site : Site
site = record {
  approot = some (codes "/www");
  routes = two_routes;
  realpath = resolve;
  file = files;
  connect = offline;
  memory = true;
}

served_test : get_path site (codes "/a.html") ≡ record empty_message {
  code = pos 200;
  reason = some (codes "OK");
  headers = record { name = codes "Content-Type"; value = codes "text/html" } ∷ [];
  body = some (codes "hi");
  body_len = 2;
}
unfolding get_path get_path_from verify_url is_inside starts_with answer_file get_mime_type strrchr
    mime_type_from_ext mime_type_str first_equal set_header replace_value equal_ci equal lower
    resolve files
served_test = refl

-- A path that leads out of the root, and one beside it
outside_test : get_path site (codes "/../x") ≡ not_found
unfolding get_path get_path_from verify_url is_inside starts_with resolve equal
outside_test = refl

beside_test : get_path site (codes "2") ≡ not_found
unfolding get_path get_path_from verify_url is_inside starts_with resolve equal
beside_test = refl

served_code : (get_path site (codes "/a.html")).code ≡ pos 200
unfolding get_path get_path_from verify_url is_inside starts_with answer_file resolve files equal
served_code = refl

get_path-Serves_example : Serves site (codes "/a.html") (get_path site (codes "/a.html"))
get_path-Serves_example = get_path-Serves site (codes "/a.html") served_code

a_html-Names : Names site (codes "/a.html") (codes "hi")
unfolding resolve files equal
a_html-Names = record {
  approot = codes "/www";
  configured = refl;
  under = record {
    root_real = codes "/srv";
    below = codes "/a.html";
    root_resolves = refl;
    path_resolves = refl;
    bounded = refl;
  };
  readable = refl;
}

get_path-Names_example :
    get_path site (codes "/a.html")
    ≡ file_response
        (a_html-Names.approot ++ codes "/a.html")
        (body_of (codes "hi"))
        (length (codes "hi"))
get_path-Names_example = get_path-Names site (codes "/a.html") (codes "hi") a_html-Names

abbrev old_request : Http
old_request = record empty_message { method = some get; path = some (codes "/old") }

moved_test : fetch_response site old_request ≡ some (http_moved (codes "/new"))
unfolding fetch_response fetch_at fetch_from handle handle_reroute has_method bit equal starts_with
moved_test = refl

fetch_response-Chosen_example :
    Chosen site old_request (codes "/old") site.routes (fetch_response site old_request)
fetch_response-Chosen_example = fetch_response-Chosen site old_request (codes "/old") refl

abbrev pub plain_request : Bytes
plain_request = codes "GET /home HTTP/1.1\r\n\r\n"

abbrev pub hearing : Hearing
hearing = record {
  buf_address = 0;
  arrivals = record { chunk = plain_request; address = 0 } ∷ [];
  rearm_ok = true;
  now = 101;
}

-- A site whose one route is an alias for GET and HEAD
abbrev alias_site : Site
alias_site = record site {
  routes = record { src = codes "/home"; dest = codes "/a.html"; type = alias; methods = 3 } ∷ [];
}

home-IsEven :
    IsEven (record { src = codes "/home"; dest = codes "/a.html"; type = alias; methods = 3 })
unfolding has_method bit
home-IsEven = record { is_alias = refl; same = refl }

fetch_response-head_example :
    fetch_response alias_site (record old_request { method = some head })
    ≡ drop_body (fetch_response alias_site (record old_request { method = some get }))
fetch_response-head_example = fetch_response-head alias_site old_request (home-IsEven, tt)
