-- ===== src/Http/Parse/Headers.antt =====
-- What both parsers guarantee of the headers and the body of every message that they return.
use foxtails.Base.{
  ℕ, Bool, true, false, Option, none, some, List, [], ◌∷◌, ◌≡◌, arith, min, length, length-take,
  ltb, Bool-cases, inl, inr,
}
use foxtails.Base.Bytes.{Bytes, equal, memchr, strip_cr, drop_while, is_byte}
use foxtails.Http.Header.{set_header}
use foxtails.Http.Header.Laws.{set_header-IsValid}
use foxtails.Http.Header.Table.{IsValid}
use foxtails.Http.Message.{
  Header, Http, request_timeout, bad_request, not_implemented, version_not_supported, bad_gateway,
}
use foxtails.Http.Method.{method_from_str}
use foxtails.Http.Parse.{
  Parsed, ◌>>=◌, ◌>>◌, or_refuse, require, answer, first_line, http_1_1, parse_header_line,
  parse_header_lines, content_length, set_body, parse_headers_and_body, request_steps,
  request_parse, response_steps, response_parse,
}

-- The body and its length agree, and without a body the length is 0.
abbrev pub BodyFits : Option Bytes → ℕ → Type 0
BodyFits none n = n ≡ 0
BodyFits (some b) n = n ≡ length b

pub record IsWellFormed (msg : Http) : Type 0 where
  pub table : IsValid msg.headers
  pub body_fits : BodyFits msg.body msg.body_len

parse_header_line-IsValid :
    (hs : List Header) (line : Bytes) → IsValid hs → IsValid (parse_header_line hs line)
unfolding parse_header_line
parse_header_line-IsValid hs line v = from_split (memchr b':' (strip_cr line))
  where
    from_split :
        (o : Option (Bytes × Bytes))
        → IsValid (elim o [
          | none ↦ hs
          | some (name, value) ↦ (set_header hs name (drop_while (is_byte b' ') value)).1
        ])
    from_split none = v
    from_split (some (name, value)) = set_header-IsValid hs name (drop_while (is_byte b' ') value) v

parse_header_lines-IsValid :
    (lines : List Bytes) (hs : List Header) → IsValid hs → IsValid (parse_header_lines hs lines)
unfolding parse_header_lines
parse_header_lines-IsValid [] hs v = v
parse_header_lines-IsValid (l ∷ lines) hs v =
    parse_header_lines-IsValid lines (parse_header_line hs l) (parse_header_line-IsValid hs l v)

set_body-IsWellFormed :
    (msg : Http) (from : Option Bytes) → IsWellFormed msg → IsWellFormed (set_body msg from)
unfolding set_body
set_body-IsWellFormed msg none w = w
set_body-IsWellFormed msg (some from) w =
    elim (Bool-cases (ltb 0 (min (content_length msg.headers) (length from)))) [
      | inl some_body ↦ rw some_body (record {
        table = w.table;
        body_fits =
            omega (arith, length-take (min (content_length msg.headers) (length from)) from);
      })
      | inr no_body ↦ rw no_body w
    ]

parse_headers_and_body-IsWellFormed :
    (msg : Http) (block : Bytes)
    → IsWellFormed msg
    → IsWellFormed (parse_headers_and_body msg block)
unfolding parse_headers_and_body
parse_headers_and_body-IsWellFormed msg block w =
    set_body-IsWellFormed _ _
      (record { table = parse_header_lines-IsValid _ msg.headers w.table; body_fits = w.body_fits })

abbrev WellAnswered : Parsed Http → Type 0
WellAnswered p = IsWellFormed (answer p)

then_value :
    {A : Type 0} (o : Option A) (r : Http) (f : A → Parsed Http)
    → IsWellFormed r
    → ((a : A) → WellAnswered (f a))
    → WellAnswered (or_refuse o r >>= f)
then_value none r f w k = w
then_value (some a) r f w k = k a

then_test :
    (t : Bool) (r : Http) (rest : Parsed Http)
    → IsWellFormed r
    → WellAnswered rest
    → WellAnswered (require t r >> rest)
then_test true r rest w k = k
then_test false r rest w k = w

request_parse-IsWellFormed : (buffer : Bytes) → IsWellFormed (request_parse buffer)
unfolding request_parse request_steps
request_parse-IsWellFormed buffer =
    then_value (first_line buffer) request_timeout _ (ground arith) λ (line, rest).
      then_value (memchr b' ' line) bad_request _ (ground arith) λ (ms, after).
        then_value (method_from_str ms) not_implemented _ (ground arith) λ m.
          then_value (memchr b' ' after) bad_request _ (ground arith) λ (path, version).
            then_test (equal version http_1_1) version_not_supported _ (ground arith)
              (parse_headers_and_body-IsWellFormed _ rest (ground arith))

response_parse-IsWellFormed : (buffer : Bytes) → IsWellFormed (response_parse buffer)
unfolding response_parse response_steps
response_parse-IsWellFormed buffer =
    then_value (first_line buffer) bad_gateway _ (ground arith) λ (line, rest).
      then_value (memchr b' ' line) bad_gateway _ (ground arith) λ (version, after).
        then_test (equal version http_1_1) version_not_supported _ (ground arith) (
          then_value (memchr b' ' after) bad_gateway _ (ground arith)
            λ (code, reason). parse_headers_and_body-IsWellFormed _ rest (ground arith))

-- For any bytes received, http_request_parse and http_response_parse both return a header table that
-- fits and has no name twice, and a body whose length is body_len, or no body and 0.
pub parses-IsWellFormed :
    (buffer : Bytes) → IsWellFormed (request_parse buffer) × IsWellFormed (response_parse buffer)
parses-IsWellFormed buffer = (request_parse-IsWellFormed buffer, response_parse-IsWellFormed buffer)
