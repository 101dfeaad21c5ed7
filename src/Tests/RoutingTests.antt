-- ===== src/Tests/RoutingTests.antt =====
-- utils/routing.c and the URL parser of utils/sockets.c on concrete texts.
use mathlib.Core.Option
use foxtails.Base.{
  arith, ◌++◌, ◌==◌, ◌<◌, ltb, take, length, if◌then◌else◌, ℕ, Bool, Option, true, none, some, List,
  [], ◌∷◌, map, ◌≡◌, refl,
}
use foxtails.Base.Decimal.{show_dec}
use foxtails.Base.Bytes.{
  Bytes, codes, equal, equal_ci, lower, first_equal, c_str, drop_while, tokens, tokens_from,
  full_lines, lines_from, is_space, memchr,
}
use foxtails.Http.Method.{get, head, post, bit, method_from_str}
use foxtails.Routing.{
  alias, proxy, routes_parse, add_lines, add_line, append_route, parse_route_line, route_of_words,
  route_str_to_type, route_str_to_methods, add_methods,
}
use foxtails.Routing.Line.{Entry, print_entries, route_of, routes_parse-print_entries}
use foxtails.Routing.Methods.{
  has_method, is_listed, print_methods, route_str_to_methods-print_methods,
}
use foxtails.Routing.Skip.{good_routes, routes_parse-good_routes}
use foxtails.Sockets.Url.{create_auto-host_port}
use foxtails.Sockets.{
  create_auto, scan_signed, scan_url, scan_host, scan_port, scan_unsigned, read_base, digit_value,
}

-- A comment, a route for two methods, and a line with an unknown type
abbrev route_file : Bytes
route_file = codes "# routes\nGET,head /a alias /b\nGET /x other /y\n"

abbrev two_methods_file : Bytes
two_methods_file = codes "# routes\n\nGET,HEAD  /a alias /b\nGET /x other /y\nPOST /c"

two_methods_file_test :
    routes_parse (λ _. true) (some two_methods_file)
    ≡ record { src = codes "/a"; dest = codes "/b"; type = alias; methods = 3 } ∷ []
unfolding routes_parse add_lines add_line append_route parse_route_line route_of_words
    route_str_to_type route_str_to_methods add_methods full_lines lines_from c_str tokens
    tokens_from drop_while equal equal_ci lower method_from_str first_equal bit
two_methods_file_test = refl

-- Methods are read with their case.
route_file_test : routes_parse (λ _. true) (some route_file) ≡ []
unfolding routes_parse add_lines add_line append_route parse_route_line route_of_words
    route_str_to_type route_str_to_methods add_methods full_lines lines_from c_str tokens
    tokens_from drop_while equal equal_ci lower method_from_str first_equal bit
route_file_test = refl

scan_url_test : scan_url (codes "127.0.0.1:8081/x") ≡ some (codes "127.0.0.1", 8081)
unfolding scan_url scan_host scan_port scan_signed scan_unsigned read_base digit_value drop_while
    is_space
scan_url_test = refl

scan_url_bad : scan_url (codes "localhost") ≡ none
unfolding scan_url scan_host scan_port scan_signed
scan_url_bad = refl

route_str_to_methods-print_methods_example :
    Option.map
      (λ methods. has_method methods head)
      (route_str_to_methods (print_methods get (head ∷ [])))
    ≡ some (is_listed head (get ∷ head ∷ []))
route_str_to_methods-print_methods_example = route_str_to_methods-print_methods get (head ∷ []) head

abbrev two_entries : List Entry
two_entries =
    record { method = get; methods = head ∷ []; src = codes "/a"; type = alias; dest = codes "/b" }
    ∷ record {
      method = post;
      methods = [];
      src = codes "/api";
      type = proxy;
      dest = codes "http://127.0.0.1:8081";
    }
    ∷ []

routes_parse-print_entries_example :
    routes_parse (λ _. true) (some (print_entries two_entries)) ≡ map route_of two_entries
routes_parse-print_entries_example =
    routes_parse-print_entries two_entries ((refl, refl), ((refl, refl), tt))

-- A network where only one port answers
abbrev one_service : Bytes → ℕ → Option ℕ
one_service host port = if port == 8081 then some 7 else none

create_auto-host_port_example :
    create_auto one_service (codes "http://" ++ (codes "127.0.0.1" ++ b':' ∷ show_dec 8081))
    ≡ one_service (codes "127.0.0.1") 8081
create_auto-host_port_example =
    create_auto-host_port one_service (codes "127.0.0.1") 8081 refl (omega arith) (omega arith)

-- The second line is malformed, and there is no memory for a second route.
abbrev three_lines : Bytes
three_lines = codes "ALL / alias /i\nGET /x\nGET /a reroute /b\n"

abbrev one_only : ℕ → Bool
one_only j = ltb j 1

one_only_enough : (j : ℕ) → j < 1 → one_only j ≡ true
one_only_enough j h = ground arith

routes_parse-good_routes_example :
    (routes_parse (λ _. true) (some three_lines) ≡ good_routes (full_lines three_lines))
    × (routes_parse one_only (some three_lines) ≡ take 1 (good_routes (full_lines three_lines)))
routes_parse-good_routes_example =
    routes_parse-good_routes three_lines one_only 1 one_only_enough refl

two_good_test : length (good_routes (full_lines three_lines)) ≡ 2
unfolding full_lines lines_from memchr parse_route_line route_of_words tokens tokens_from c_str
    drop_while route_str_to_type route_str_to_methods add_methods method_from_str first_equal equal
    equal_ci lower
two_good_test = refl
