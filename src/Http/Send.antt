-- ===== src/Http/Send.antt =====
-- utils/http.c: http_send_response and http_send_request, up to the call of send. Both print the
-- header piece by piece into an array of 4096 bytes on the stack. The date and the success of
-- palloc are arguments.
pub mod Buffer
use foxtails.Base.{
  ℕ, ◌+◌, ◌-◌, Bool, true, false, Option, none, some, List, [], ◌∷◌, ◌++◌, length, take, ltb, leb,
  ◌==◌, if◌then◌else◌,
}
use foxtails.Base.Bytes.{Bytes, codes, equal_ci}
use foxtails.Base.Decimal.{show_dec, show_int}
use foxtails.Http.Header.{has_header, set_header}
use foxtails.Http.Message.{Header, Http}
use foxtails.Http.Method.{Method, method_to_str}
use foxtails.Http.Mime.{text_plain, mime_type_str}

-- sizeof(header)
abbrev pub header_size : ℕ
header_size = 4096

-- The array, the sum of what the calls of snprintf have answered, and whether one of them has
-- written behind the array.
pub record HeaderBuffer : Type 0 where
  pub text : Bytes
  pub header_len : ℕ
  pub overrun : Bool

abbrev pub empty_buffer : HeaderBuffer
empty_buffer = record { text = []; header_len = 0; overrun = false }

-- header_len += snprintf(header + header_len, sizeof(header) - header_len, …) for a text that is
-- `piece`: it writes what fits in front of its NUL, and answers the length of the whole. Once
-- header_len is larger than the array the size given wraps round, and it writes outside.
unfoldable pub print_piece : HeaderBuffer → Bytes → HeaderBuffer
print_piece b piece =
    if ltb header_size b.header_len
    then record b { header_len = b.header_len + length piece; overrun = true }
    else record b {
      text = b.text ++ take (header_size - b.header_len - 1) piece;
      header_len = b.header_len + length piece;
    }

unfoldable pub print_pieces : HeaderBuffer → List Bytes → HeaderBuffer
print_pieces b [] = b
print_pieces b (piece ∷ pieces) = print_pieces (print_piece b piece) pieces

abbrev pub line_break : Bytes
line_break = b'\r' ∷ b'\n' ∷ []

-- "%s: %s\r\n"
abbrev pub header_line : Header → Bytes
header_line h = h.name ++ (b':' ∷ b' ' ∷ (h.value ++ line_break))

-- %s of a pointer that may be null
abbrev pub text_of : Option Bytes → Bytes
text_of none = codes "(null)"
text_of (some s) = s

-- What goes to the socket: these bytes, nothing for want of memory, or bytes from behind the array.
pub data Sent : Type 0 where
  bytes : Bytes → Sent
  nothing : Sent
  out_of_bounds : Sent

-- The bytes in the array in front of `header_len`: at 4096 the last is the NUL of snprintf.
abbrev pub array_bytes : HeaderBuffer → Bytes
array_bytes b = if b.header_len == header_size then b.text ++ 0 ∷ [] else b.text

-- The end of both functions: the header alone, or a copy of the header and the body.
unfoldable pub send_all : Bool → HeaderBuffer → Option Bytes → ℕ → Sent
send_all memory b none body_len =
    if ltb header_size b.header_len then out_of_bounds else bytes (array_bytes b)
send_all memory b (some body) body_len =
    if memory
    then (if ltb header_size b.header_len
        then out_of_bounds
        else bytes (array_bytes b ++ take body_len body))
    else nothing

-- The pieces that http_send_response prints, in order.
abbrev pub status_piece : Bytes → Http → Bytes
status_piece date msg =
    codes "HTTP/1.1 "
    ++ (show_int msg.code
        ++ (b' '
            ∷ (text_of msg.reason
                ++ (codes "\r\nDate: "
                    ++ (date
                        ++ (codes "\r\nServer: Foxtails\r\nContent-Length: "
                            ++ (show_dec msg.body_len ++ line_break)))))))

abbrev pub header_pieces : List Header → List Bytes
header_pieces [] = line_break ∷ []
header_pieces (h ∷ hs) = header_line h ∷ header_pieces hs

-- Content-Type: text/plain, if the response has no type.
unfoldable pub with_content_type : Http → Http
with_content_type msg = if has_header msg.headers (codes "Content-Type") then msg else record msg {
  headers = (set_header msg.headers (codes "Content-Type") (mime_type_str text_plain)).1;
}

abbrev pub response_pieces : Bytes → Http → List Bytes
response_pieces date msg = status_piece date msg ∷ header_pieces msg.headers

-- http_send_response
unfoldable pub send_response : Bool → Bytes → Http → Sent
send_response memory date response =
    let msg = with_content_type response in
    send_all memory (print_pieces empty_buffer (response_pieces date msg)) msg.body msg.body_len

-- The loop of http_send_request leaves out the length, which it has printed itself.
unfoldable pub without_length : List Header → List Header
without_length [] = []
without_length (h ∷ hs) =
    if equal_ci h.name (codes "Content-Length") then without_length hs else h ∷ without_length hs

abbrev pub method_text : Option Method → Bytes
method_text none = codes "(null)"
method_text (some m) = method_to_str m

abbrev pub request_piece : Http → Bytes
request_piece msg =
    method_text msg.method
    ++ (b' '
        ∷ (text_of msg.path
            ++ (codes " HTTP/1.1\r\nContent-Length: " ++ (show_dec msg.body_len ++ line_break))))

abbrev pub request_pieces : Http → List Bytes
request_pieces msg = request_piece msg ∷ header_pieces (without_length msg.headers)

-- http_send_request
unfoldable pub send_request : Bool → Http → Sent
send_request memory request =
    send_all memory (print_pieces empty_buffer (request_pieces request)) request.body
      request.body_len
