-- ===== src/Http/Exchange/Fields.antt =====
-- utils/http.c: the loop over the header lines reads printed headers back, in their order.
use mathlib.Core.List.{append_assoc, append-nil}
use foxtails.Base.{
  ℕ, ◌<◌, Bool, true, false, Option, none, some, List, [], ◌∷◌, ◌++◌, map, All, length, leb, ◌≡◌,
  refl, sym, ap, ◌∙◌, arith, if◌then◌else◌,
}
use foxtails.Base.Bytes.{
  Bytes, c_str, drop_while, is_byte, memchr, memchr-append, strip_cr, strip_cr-append, tokens,
  tokens-run, tokens_last,
}
use foxtails.Base.Words.{
  none_of, IsWord, none_of-append, none_of-subset, none_of-word, c_str-none_of, Free-none_of,
}
use foxtails.Http.Exchange.{
  ends_text, ends_field_name, no_space_first, IsField, Fresh, field_line, more_lines,
}
use foxtails.Http.Header.Table.{Lacks}
use foxtails.Http.Header.{replace_value, set_header}
use foxtails.Http.Message.{Header, max_headers}
use foxtails.Http.Parse.{parse_header_line, parse_header_lines}

-- The lines as strtok leaves them: with the CR of their end, but for the last
unfoldable pub raw_lines : Bytes → List Bytes → List Bytes
raw_lines l [] = l ∷ []
raw_lines l (m ∷ ms) = (l ++ b'\r' ∷ []) ∷ raw_lines m ms

newline_in_text : (x : ℕ) → is_byte b'\n' x ≡ true → ends_text x ≡ true
newline_in_text x h = ground arith

line_tokens :
    (x : ℕ) (l : Bytes) (rest : Bytes)
    → none_of ends_text (x ∷ l) ≡ true
    → tokens (is_byte b'\n') ((x ∷ l) ++ b'\r' ∷ b'\n' ∷ rest)
      ≡ ((x ∷ l) ++ b'\r' ∷ []) ∷ tokens (is_byte b'\n') rest
line_tokens x l rest h =
    ap (tokens (is_byte b'\n')) (sym (append_assoc (x ∷ l) (b'\r' ∷ []) (b'\n' ∷ rest)))
    ∙ tokens-run (is_byte b'\n') x (l ++ b'\r' ∷ []) b'\n' rest
        (Free-none_of (is_byte b'\n') (x ∷ (l ++ b'\r' ∷ [])) (
          none_of-append (is_byte b'\n') (x ∷ l) (b'\r' ∷ [])
            (none_of-subset (is_byte b'\n') ends_text newline_in_text (x ∷ l) h) refl))
        refl

tokens-more_lines :
    (l : Bytes) (ls : List Bytes)
    → IsWord ends_text l
    → All (IsWord ends_text) ls
    → tokens (is_byte b'\n') (l ++ more_lines ls) ≡ raw_lines l ls
unfolding more_lines raw_lines
tokens-more_lines [] ls h hs = absurd (ground arith)
tokens-more_lines (x ∷ l) [] h hs =
    ap (tokens (is_byte b'\n')) (append-nil (x ∷ l))
    ∙ tokens_last (is_byte b'\n') x l (
        Free-none_of (is_byte b'\n') (x ∷ l)
          (none_of-subset (is_byte b'\n') ends_text newline_in_text (x ∷ l) h))
tokens-more_lines (x ∷ l) (m ∷ ls) h hs =
    line_tokens x l (m ++ more_lines ls) h
    ∙ ap (λ t. ((x ∷ l) ++ b'\r' ∷ []) ∷ t) (tokens-more_lines m ls hs.0 hs.1)

more_lines-none_of :
    (ls : List Bytes) → All (IsWord ends_text) ls → none_of (is_byte 0) (more_lines ls) ≡ true
unfolding more_lines
more_lines-none_of [] h = refl
more_lines-none_of (l ∷ ls) h =
    none_of-append (is_byte 0) l (more_lines ls)
      (none_of-subset (is_byte 0) ends_text (λ x k. ground arith) l (none_of-word ends_text l h.0))
      (more_lines-none_of ls h.1)

-- The tokens of a printed block are its lines.
pub block-tokens :
    (l : Bytes) (ls : List Bytes)
    → IsWord ends_text l
    → All (IsWord ends_text) ls
    → tokens (is_byte b'\n') (c_str (l ++ more_lines ls)) ≡ raw_lines l ls
block-tokens l ls h hs =
    ap (tokens (is_byte b'\n')) (
      c_str-none_of (l ++ more_lines ls) (
        none_of-append (is_byte 0) l (more_lines ls)
          (none_of-subset (is_byte 0) ends_text (λ x k. ground arith) l
            (none_of-word ends_text l h))
          (more_lines-none_of ls hs)))
    ∙ tokens-more_lines l ls h hs

strip_cr-none_of : (l : Bytes) → none_of ends_text l ≡ true → strip_cr l ≡ l
unfolding strip_cr
strip_cr-none_of [] h = refl
strip_cr-none_of (x ∷ []) h = ground arith
strip_cr-none_of (x ∷ y ∷ l) h = ap (λ t. x ∷ t) (strip_cr-none_of (y ∷ l) (ground arith))

pub strip_cr-cr : (l : Bytes) → strip_cr (l ++ b'\r' ∷ []) ≡ l
unfolding strip_cr
strip_cr-cr l = strip_cr-append l b'\r' [] ∙ append-nil l

not_empty :
    (name rest : Bytes)
    → none_of ends_text (name ++ b':' ∷ rest) ≡ true
    → IsWord ends_text (name ++ b':' ∷ rest)
not_empty [] rest h = h
not_empty (c ∷ name) rest h = h

pub field_line-IsWord : (h : Header) → IsField h → IsWord ends_text (field_line h)
field_line-IsWord h f = not_empty h.name (b' ' ∷ h.value) (
    none_of-append ends_text h.name (b':' ∷ b' ' ∷ h.value)
      (none_of-subset ends_text ends_field_name (λ x k. ground arith) h.name f.0) f.1)

drop_space : (v : Bytes) → no_space_first v ≡ true → drop_while (is_byte b' ') (b' ' ∷ v) ≡ v
unfolding drop_while
drop_space [] h = refl
drop_space (c ∷ cs) h = ground arith

split_field : (h : Header) → IsField h → memchr b':' (field_line h) ≡ some (h.name, b' ' ∷ h.value)
split_field h f = memchr-append b':' h.name (b' ' ∷ h.value) (
    Free-none_of (is_byte b':') h.name
      (none_of-subset (is_byte b':') ends_field_name (λ x k. ground arith) h.name f.0))

abbrev read_split : List Header → Option (Bytes × Bytes) → List Header
read_split hs o = elim o [
  | none ↦ hs
  | some (name, value) ↦ (set_header hs name (drop_while (is_byte b' ') value)).1
]

parse_stripped :
    (hs : List Header) (h : Header) (line : Bytes)
    → IsField h
    → strip_cr line ≡ field_line h
    → parse_header_line hs line ≡ (set_header hs h.name h.value).1
unfolding parse_header_line
parse_stripped hs h line f e =
    ap (read_split hs) (ap (memchr b':') e ∙ split_field h f)
    ∙ ap (λ v. (set_header hs h.name v).1) (drop_space h.value f.2)

replace_value-Lacks :
    (name value : Bytes) (hs : List Header) → Lacks name hs → replace_value hs name value ≡ none
unfolding replace_value
replace_value-Lacks name value [] h = refl
replace_value-Lacks name value (k ∷ hs) h = rw (h.0, replace_value-Lacks name value hs h.1) refl

abbrev set_or_add : List Header → Header → Option (List Header) → Bool × List Header
set_or_add hs h r = elim r [
  | some hs' ↦ (true, hs')
  | none ↦ if leb max_headers (length hs) then (false, hs) else (true, hs ++ h ∷ [])
]

set_header-Lacks :
    (hs : List Header) (h : Header)
    → Lacks h.name hs
    → length hs < max_headers
    → (set_header hs h.name h.value).1 ≡ hs ++ h ∷ []
unfolding set_header
set_header-Lacks hs h lacks room =
    let free : leb max_headers (length hs) ≡ false = ground arith in
    ap (λ r. (set_or_add hs h r).1) (replace_value-Lacks h.name h.value hs lacks) ∙ rw free refl

parse_stripped-Lacks :
    (hs : List Header) (h : Header) (line : Bytes)
    → IsField h
    → strip_cr line ≡ field_line h
    → Lacks h.name hs
    → length hs < max_headers
    → parse_header_line hs line ≡ hs ++ h ∷ []
parse_stripped-Lacks hs h line f e lacks room =
    parse_stripped hs h line f e ∙ set_header-Lacks hs h lacks room

-- The lines of printed headers are read back as these headers, behind those read before.
pub parse_header_lines-raw_lines :
    (before : List Header) (h : Header) (hs : List Header)
    → All IsField (h ∷ hs)
    → Fresh before (h ∷ hs)
    → parse_header_lines before (raw_lines (field_line h) (map field_line hs)) ≡ before ++ h ∷ hs
unfolding parse_header_lines raw_lines
parse_header_lines-raw_lines before h [] f fresh =
    parse_stripped-Lacks before h (field_line h) f.0
      (strip_cr-none_of (field_line h)
        (none_of-word ends_text (field_line h) (field_line-IsWord h f.0)))
      fresh.0 fresh.1
parse_header_lines-raw_lines before h (k ∷ hs) f fresh =
    ap (λ t. parse_header_lines t (raw_lines (field_line k) (map field_line hs)))
      (parse_stripped-Lacks before h (field_line h ++ b'\r' ∷ []) f.0 (strip_cr-cr (field_line h))
        fresh.0 fresh.1)
    ∙ parse_header_lines-raw_lines (before ++ h ∷ []) k hs f.1 fresh.2
    ∙ append_assoc before (h ∷ []) (k ∷ hs)

pub fields-IsWord : (hs : List Header) → All IsField hs → All (IsWord ends_text) (map field_line hs)
fields-IsWord [] f = tt
fields-IsWord (h ∷ hs) f = (field_line-IsWord h f.0, fields-IsWord hs f.1)
