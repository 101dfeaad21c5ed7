-- ===== src/Routing.antt =====
-- utils/routing.c and include/routing.h: the route table and the parser of its file. The content of
-- the mapped file and the success of each realloc are arguments.
pub mod Methods
pub mod Line
pub mod Open
pub mod Skip
use Prim.Native.Nat.{bit_or}
use foxtails.Base.{
  ℕ, Bool, true, false, ◌||◌, Option, none, some, List, [], ◌∷◌, ◌++◌, length, ◌==◌, if◌then◌else◌,
}
use foxtails.Base.Bytes.{
  Bytes, codes, equal, equal_ci, c_str, drop_while, tokens, is_byte, full_lines,
}
use foxtails.Http.Method.{Method, bit, request_all, method_from_str}

-- ROUTE_TYPE_*
pub data RouteType : Type 0 where
  alias reroute proxy : RouteType

-- route_t
pub record Route : Type 0 where
  pub src : Bytes
  pub dest : Bytes
  pub type : RouteType
  pub methods : ℕ

-- append_route; `memory` answers for the realloc of a table of each length.
unfoldable pub append_route : (ℕ → Bool) → List Route → Route → List Route
append_route memory routes route = if memory (length routes) then routes ++ route ∷ [] else routes

-- `none` is the -1 of the source.
unfoldable pub route_str_to_type : Bytes → Option RouteType
route_str_to_type str =
    if equal_ci str (codes "alias")
    then some alias
    else if equal_ci str (codes "reroute")
    then some reroute
    else if equal_ci str (codes "proxy")
    then some proxy
    else none

abbrev pub is_blank : ℕ → Bool
is_blank c = c == b' ' || c == b'\t'

-- The loop of route_str_to_methods over the tokens.
unfoldable pub add_methods : ℕ → List Bytes → Option ℕ
add_methods methods [] = some methods
add_methods methods (tok ∷ toks) = elim (method_from_str (drop_while is_blank tok)) [
  | none ↦ none
  | some m ↦ add_methods (bit_or methods (bit m)) toks
]

unfoldable pub route_str_to_methods : Bytes → Option ℕ
route_str_to_methods str =
    if equal str (codes "*") || equal_ci str (codes "ALL")
    then some request_all
    else add_methods 0 (tokens (is_byte b',') str)

-- " \t\v"
abbrev pub is_separator : ℕ → Bool
is_separator c = c == b' ' || c == b'\t' || c == 11

-- The route of a line's first four words; `none` is the jump to malformed_line.
unfoldable pub route_of_words : List Bytes → Option Route
route_of_words (methods_str ∷ route ∷ type_str ∷ target ∷ more) =
    elim (route_str_to_type type_str) [
      | none ↦ none
      | some type ↦ elim (route_str_to_methods methods_str) [
        | none ↦ none
        | some methods ↦
            some (record { src = route; dest = target; type = type; methods = methods })
      ]
    ]
route_of_words _ = none

-- What routes_parse makes of a line that is no comment.
unfoldable pub parse_route_line : Bytes → Option Route
parse_route_line line = route_of_words (tokens is_separator (c_str line))

-- One round of the loop of routes_parse.
unfoldable pub add_line : (ℕ → Bool) → List Route → Bytes → List Route
add_line memory routes [] = routes
add_line memory routes (c ∷ cs) = if c == b'#' then routes else (elim (parse_route_line (c ∷ cs)) [
  | none ↦ routes
  | some route ↦ append_route memory routes route
])

unfoldable pub add_lines : (ℕ → Bool) → List Route → List Bytes → List Route
add_lines memory routes [] = routes
add_lines memory routes (line ∷ lines) = add_lines memory (add_line memory routes line) lines

-- routes_parse; the content is `none` where the file cannot be opened, measured or mapped.
unfoldable pub routes_parse : (ℕ → Bool) → Option Bytes → List Route
routes_parse memory none = []
routes_parse memory (some content) = add_lines memory [] (full_lines content)
