-- ===== src/Http/Parse.antt =====
-- utils/http.c: http_first_line, http_parse_headers_and_body, http_request_parse and
-- http_response_parse. The copies that cpool makes of the buffer are values here, and an
-- allocation succeeds. The callers pass at least one byte.
pub mod Request
pub mod Accept
pub mod Headers
use foxtails.Base.{
  ℕ, ◌+◌, ◌<◌, Bool, true, false, Option, none, some, List, [], ◌∷◌, length, take, drop, min, ltb,
  leb, if◌then◌else◌,
}
use foxtails.Base.Bytes.{
  Bytes, codes, equal, c_str, memchr, memmem, drop_while, tokens, strip_cr, is_byte,
}
use foxtails.Base.Decimal.{atoi, strtoul}
use foxtails.Http.Header.{set_header, get_header}
use foxtails.Http.Message.{
  Header, Http, empty_message, request_timeout, bad_request, not_implemented, version_not_supported,
  bad_gateway,
}
use foxtails.Http.Method.{Method, method_from_str}

-- The line before the first newline, with one carriage return dropped, and what follows.
abbrev pub stripped_line : Option (Bytes × Bytes) → Option (Bytes × Bytes)
stripped_line none = none
stripped_line (some (line, rest)) = some (strip_cr line, rest)

unfoldable pub first_line : Bytes → Option (Bytes × Bytes)
first_line buffer = stripped_line (memchr b'\n' buffer)

abbrev pub crlf_crlf : Bytes
crlf_crlf = b'\r' ∷ b'\n' ∷ b'\r' ∷ b'\n' ∷ []

abbrev pub lf_lf : Bytes
lf_lf = b'\n' ∷ b'\n' ∷ []

-- The header block and what stands at `body_start`, from the places of the two blank lines.
abbrev pub cut_block : Bytes → Option ℕ → Option ℕ → Bytes × Option Bytes
cut_block block none none = (block, none)
cut_block block (some crlf) none = (take crlf block, some (drop (crlf + 4) block))
cut_block block none (some lf) = (take lf block, some (drop (lf + 2) block))
cut_block block (some crlf) (some lf) =
    if leb crlf lf
    then (take crlf block, some (drop (crlf + 4) block))
    else (take lf block, some (drop (lf + 2) block))

unfoldable pub header_block : Bytes → Bytes × Option Bytes
header_block block = cut_block block (memmem crlf_crlf block) (memmem lf_lf block)

-- One round of the loop over the header lines.
unfoldable pub parse_header_line : List Header → Bytes → List Header
parse_header_line hs line = elim (memchr b':' (strip_cr line)) [
  | none ↦ hs
  | some (name, value) ↦ (set_header hs name (drop_while (is_byte b' ') value)).1
]

unfoldable pub parse_header_lines : List Header → List Bytes → List Header
parse_header_lines hs [] = hs
parse_header_lines hs (line ∷ lines) = parse_header_lines (parse_header_line hs line) lines

unfoldable pub content_length : List Header → ℕ
content_length hs = elim (get_header hs (codes "Content-Length")) [ none ↦ 0 | some s ↦ strtoul s ]

unfoldable pub set_body : Http → Option Bytes → Http
set_body msg none = msg
set_body msg (some from) =
    let body_len = min (content_length msg.headers) (length from) in
    if ltb 0 body_len
    then record msg { body = some (take body_len from); body_len = body_len }
    else msg

-- http_parse_headers_and_body, from `headers_start`
unfoldable pub parse_headers_and_body : Http → Bytes → Http
parse_headers_and_body msg block =
    let (header, body_start) = header_block block in
    let lines = tokens (is_byte b'\n') (c_str header) in
    set_body (record msg { headers = parse_header_lines msg.headers lines }) body_start

-- A parser goes on with a value, or answers with a canned response.
pub data Parsed (A : Type 0) : Type 0 where
  go_on : A → Parsed A
  refuse : Http → Parsed A

infixl 5 ◌>>=◌ ◌>>◌
abbrev pub ◌>>=◌ : {A B : Type 0} → Parsed A → (A → Parsed B) → Parsed B
go_on a >>= f = f a
refuse r >>= f = refuse r

abbrev pub ◌>>◌ : {B : Type 0} → Parsed (Unit {0}) → Parsed B → Parsed B
m >> k = m >>= λ _. k

abbrev pub or_refuse : {A : Type 0} → Option A → Http → Parsed A
or_refuse none r = refuse r
or_refuse (some a) r = go_on a

abbrev pub require : Bool → Http → Parsed (Unit {0})
require true r = go_on tt
require false r = refuse r

abbrev pub answer : Parsed Http → Http
answer (go_on m) = m
answer (refuse r) = r

abbrev pub http_1_1 : Bytes
http_1_1 = codes "HTTP/1.1"

unfoldable pub request_steps : Bytes → Parsed Http
request_steps buffer = do
  (line, rest) ← or_refuse (first_line buffer) request_timeout
  (method_str, after) ← or_refuse (memchr b' ' line) bad_request
  method ← or_refuse (method_from_str method_str) not_implemented
  (path, version) ← or_refuse (memchr b' ' after) bad_request
  require (equal version http_1_1) version_not_supported
  let request = record empty_message { method = some method; path = some (c_str path) }
  go_on (parse_headers_and_body request rest)

-- http_request_parse
unfoldable pub request_parse : Bytes → Http
unfolding request_steps
request_parse buffer = answer (request_steps buffer)

unfoldable pub response_steps : Bytes → Parsed Http
response_steps buffer = do
  (line, rest) ← or_refuse (first_line buffer) bad_gateway
  (version, after) ← or_refuse (memchr b' ' line) bad_gateway
  require (equal version http_1_1) version_not_supported
  (code, reason) ← or_refuse (memchr b' ' after) bad_gateway
  let response = record empty_message { code = atoi (take 15 code); reason = some (c_str reason) }
  go_on (parse_headers_and_body response rest)

-- http_response_parse
unfoldable pub response_parse : Bytes → Http
unfolding response_steps
response_parse buffer = answer (response_steps buffer)
