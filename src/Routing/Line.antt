-- ===== src/Routing/Line.antt =====
-- The lines of a route file, utils/routing.c: routes_parse, against a printer of route entries.
use foxtails.Base.{
  ℕ, Bool, true, false, some, List, [], ◌∷◌, ◌++◌, map, ◌==◌, ◌||◌, All, ◌≡◌, refl, sym, ap, ◌∙◌,
  arith,
}
use mathlib.Core.List.{append_assoc, append-nil}
use foxtails.Base.Bytes.{
  Bytes, codes, is_byte, tokens, c_str-Free, full_lines, full_lines-run, equal, equal_ci, lower,
  lines_from,
}
use foxtails.Base.Words.{
  join, with_each, none_of, IsWord, tokens-join, Free-none_of, IsWord-subset, none_of-word,
  none_of-append, none_of-subset, none_of-with_each,
}
use foxtails.Http.Method.{Method}
use foxtails.Routing.{
  RouteType, alias, reroute, proxy, Route, is_separator, route_str_to_type, route_str_to_methods,
  route_of_words, parse_route_line, add_line, add_lines, append_route, routes_parse,
}
use foxtails.Routing.Methods.{
  mask_of, is_break, print_methods, print_methods-mask, print_methods-IsWord,
}

unfoldable pub type_to_str : RouteType → Bytes
type_to_str alias = codes "alias"
type_to_str reroute = codes "reroute"
type_to_str proxy = codes "proxy"

-- What the author of a route file means by a line
pub record Entry : Type 0 where
  pub method : Method
  pub methods : List Method
  pub src : Bytes
  pub type : RouteType
  pub dest : Bytes

-- Both paths can stand in a route file.
abbrev pub IsPrintable : Entry → Type 0
IsPrintable e = IsWord is_break (e.src) × IsWord is_break (e.dest)

unfoldable pub print_entry : Entry → Bytes
print_entry e =
    join b' ' (print_methods (e.method) (e.methods)) (e.src ∷ type_to_str (e.type) ∷ e.dest ∷ [])

unfoldable pub route_of : Entry → Route
route_of e = record {
  src = e.src;
  dest = e.dest;
  type = e.type;
  methods = mask_of 0 (e.method ∷ e.methods);
}

unfoldable pub print_entries : List Entry → Bytes
print_entries [] = []
print_entries (e ∷ es) = print_entry e ++ b'\n' ∷ print_entries es

type-IsWord : (t : RouteType) → IsWord is_break (type_to_str t)
unfolding type_to_str
type-IsWord alias = refl
type-IsWord _ = refl

route_str_to_type-type_to_str : (t : RouteType) → route_str_to_type (type_to_str t) ≡ some t
unfolding type_to_str route_str_to_type equal_ci equal lower
route_str_to_type-type_to_str alias = refl
route_str_to_type-type_to_str _ = refl

separator_sub : (x : ℕ) → is_separator x ≡ true → is_break x ≡ true
separator_sub x h = ground arith

-- A byte that no line may hold: its end, and the end of a C string
abbrev ends_line : ℕ → Bool
ends_line x = x == b'\n' || x == 0

ends_sub : (x : ℕ) → ends_line x ≡ true → is_break x ≡ true
ends_sub x h = ground arith

words : Entry → List Bytes
words e = e.src ∷ type_to_str (e.type) ∷ e.dest ∷ []

words-IsWord :
    (p : ℕ → Bool)
    → ((x : ℕ) → p x ≡ true → is_break x ≡ true)
    → (e : Entry) → IsPrintable e
    → All (IsWord p) (words e)
unfolding words
words-IsWord p sub e h = (
  IsWord-subset p is_break sub (e.src) h.0,
  (
    IsWord-subset p is_break sub (type_to_str (e.type)) (type-IsWord (e.type)),
    (IsWord-subset p is_break sub (e.dest) h.1, tt),
  ),
)

print_entry-tokens :
    (e : Entry)
    → IsPrintable e
    → tokens is_separator (print_entry e) ≡ print_methods (e.method) (e.methods) ∷ words e
unfolding print_entry words
print_entry-tokens e h =
    tokens-join is_separator b' ' (print_methods (e.method) (e.methods)) (words e) refl
      (IsWord-subset is_separator is_break separator_sub (print_methods (e.method) (e.methods))
        (print_methods-IsWord (e.method) (e.methods)))
      (words-IsWord is_separator separator_sub e h)

print_entry-none_of : (e : Entry) → IsPrintable e → none_of ends_line (print_entry e) ≡ true
unfolding print_entry words join
print_entry-none_of e h =
    none_of-append ends_line (print_methods (e.method) (e.methods)) (with_each b' ' (words e))
      (none_of-subset ends_line is_break ends_sub (print_methods (e.method) (e.methods)) (
        none_of-word is_break (print_methods (e.method) (e.methods))
          (print_methods-IsWord (e.method) (e.methods))))
      (none_of-with_each ends_line b' ' (words e) refl (words-IsWord ends_line ends_sub e h))

pub route_of_words_lem :
    (methods_str src type_str dest : Bytes) (more : List Bytes) (type : RouteType) (methods : ℕ)
    → route_str_to_type type_str ≡ some type
    → route_str_to_methods methods_str ≡ some methods
    → route_of_words (methods_str ∷ src ∷ type_str ∷ dest ∷ more)
      ≡ some (record { src = src; dest = dest; type = type; methods = methods })
unfolding route_of_words
route_of_words_lem methods_str src type_str dest more type methods h k =
    rw (h, route_of_words) (rw (k, route_of_words) refl)

-- The words of a printed entry are read back as its route.
entry_line : (e : Entry) → IsPrintable e → parse_route_line (print_entry e) ≡ some (route_of e)
unfolding parse_route_line words route_of
entry_line e h =
    ap (λ line. route_of_words (tokens is_separator line))
      (c_str-Free (print_entry e) (
        Free-none_of (is_byte 0) (print_entry e) (
          none_of-subset (is_byte 0) ends_line (λ x k. ground arith) (print_entry e)
            (print_entry-none_of e h))))
    ∙ ap route_of_words (print_entry-tokens e h)
    ∙ route_of_words_lem (print_methods (e.method) (e.methods)) (e.src) (type_to_str (e.type))
        (e.dest) [] (e.type) (mask_of 0 (e.method ∷ e.methods))
        (route_str_to_type-type_to_str (e.type)) (print_methods-mask (e.method) (e.methods))

-- A printed entry does not look like a comment.
add_line-word :
    (memory : ℕ → Bool) (routes : List Route) (w rest : Bytes) (route : Route)
    → IsWord is_break w
    → parse_route_line (w ++ rest) ≡ some route
    → add_line memory routes (w ++ rest) ≡ append_route memory routes route
unfolding add_line
add_line-word memory routes [] rest route h k = absurd (ground arith)
add_line-word memory routes (x ∷ w) rest route h k =
    let plain : (x == b'#') ≡ false = ground arith in rw (plain, k) refl

add_line-entry :
    (memory : ℕ → Bool) (routes : List Route) (e : Entry)
    → IsPrintable e
    → add_line memory routes (print_entry e) ≡ append_route memory routes (route_of e)
unfolding print_entry join
add_line-entry memory routes e h =
    add_line-word memory routes (print_methods (e.method) (e.methods)) _ (route_of e)
      (print_methods-IsWord (e.method) (e.methods)) (entry_line e h)

-- The table that the appends leave, whichever of them succeed
unfoldable pub append_all : (ℕ → Bool) → List Route → List Route → List Route
append_all memory routes [] = routes
append_all memory routes (r ∷ rs) = append_all memory (append_route memory routes r) rs

add_lines-entries :
    (memory : ℕ → Bool) (routes : List Route) (es : List Entry)
    → All IsPrintable es
    → add_lines memory routes (full_lines (print_entries es))
      ≡ append_all memory routes (map route_of es)
unfolding print_entries add_lines append_all
add_lines-entries memory routes [] h = unfold full_lines in unfold lines_from in refl
add_lines-entries memory routes (e ∷ es) h =
    ap (add_lines memory routes) (
      full_lines-run (print_entry e) (print_entries es) (
        Free-none_of (is_byte b'\n') (print_entry e) (
          none_of-subset (is_byte b'\n') ends_line (λ x k. ground arith) (print_entry e)
            (print_entry-none_of e h.0))))
    ∙ ap (λ t. add_lines memory t (full_lines (print_entries es)))
        (add_line-entry memory routes e h.0)
    ∙ add_lines-entries memory (append_route memory routes (route_of e)) es h.1

append_all_lem : (routes rs : List Route) → append_all (λ _. true) routes rs ≡ routes ++ rs
unfolding append_all append_route
append_all_lem routes [] = sym (append-nil routes)
append_all_lem routes (r ∷ rs) =
    append_all_lem (routes ++ r ∷ []) rs ∙ append_assoc routes (r ∷ []) rs

-- A route file that is a printed list of entries, whose paths have no blank, no line end, no NUL
-- and no `#`, is parsed as the routes of these entries in their order, where memory does not run
-- out.
pub routes_parse-print_entries :
    (es : List Entry)
    → All IsPrintable es
    → routes_parse (λ _. true) (some (print_entries es)) ≡ map route_of es
unfolding routes_parse
routes_parse-print_entries es h =
    add_lines-entries (λ _. true) [] es h ∙ append_all_lem [] (map route_of es)
