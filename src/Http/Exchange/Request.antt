-- ===== src/Http/Exchange/Request.antt =====
-- utils/http.c: http_send_request, and http_request_parse on the bytes that it sends.
use mathlib.Core.List.{append_assoc}
use foxtails.Base.{
  ℕ, ◌<◌, ◌^◌, Bool, true, none, some, List, [], ◌∷◌, ◌++◌, map, All, length, ◌==◌, ◌||◌, ◌≡◌, sym,
  ap, ap₂, ◌∙◌, arith,
}
use foxtails.Base.Bytes.{Bytes, codes, equal_ci, equal, lower, is_byte}
use foxtails.Base.Decimal.{pos, show_dec, strtoul-show_dec}
use foxtails.Base.Words.{none_of, none_of-subset, c_str-none_of, Free-none_of}
use foxtails.Http.Exchange.Message.{
  length_field, length_field-IsField, IsBody, payload, header_pieces-more_lines, headed, sent_bytes,
  parse_headers_and_body-block,
}
use foxtails.Http.Exchange.{IsField, Fresh, field_line, more_lines}
use foxtails.Http.Header.{get_header}
use foxtails.Http.Message.{Header, Http, empty_message}
use foxtails.Http.Method.{Method, method_to_str}
use foxtails.Http.Parse.Accept.{request_parse-IsRequest}
use foxtails.Http.Parse.Request.{crlf, line_end, IsRequest, request_of}
use foxtails.Http.Parse.{crlf_crlf, content_length, http_1_1, parse_headers_and_body, request_parse}
use foxtails.Http.Send.Buffer.{concat, send_request_whole}
use foxtails.Http.Send.{
  header_size, method_text, text_of, header_pieces, line_break, bytes, request_pieces, send_request,
  without_length,
}

abbrev pub ends_path : ℕ → Bool
ends_path c = c == b' ' || c == b'\n' || c == 0

-- A request that can be sent and read again
pub record IsSendable (m : Method) (path : Bytes) (request : Http) : Type 0 where
  pub method_is : request.method ≡ some m
  pub path_is : request.path ≡ some path
  pub one_word : none_of ends_path path ≡ true
  pub fields : All IsField (without_length request.headers)
  pub fresh : Fresh [] (length_field request.body_len ∷ without_length request.headers)
  pub body_is : IsBody request.body request.body_len
  pub body_small : request.body_len < 2 ^ 64
  pub fits : length (concat (request_pieces request)) < header_size

-- The message that the other end reads
abbrev pub received_request : Method → Bytes → Http → Http
received_request m path request = record empty_message {
  method = some m;
  path = some path;
  headers = length_field request.body_len ∷ without_length request.headers;
  body = request.body;
  body_len = request.body_len;
}

content_length-field :
    (n : ℕ) (hs : List Header) → n < 2 ^ 64 → content_length (length_field n ∷ hs) ≡ n
unfolding content_length get_header equal_ci equal lower
content_length-field n hs h = strtoul-show_dec n h

-- The header block that is sent, and the body behind it
abbrev block_text : Http → Bytes
block_text request =
    (field_line (length_field request.body_len)
      ++ more_lines (map field_line (without_length request.headers)))
    ++ (crlf_crlf ++ payload request.body)

request_of-block :
    (m : Method) (path : Bytes) (request : Http)
    → IsSendable m path request
    → request_of m path (block_text request) ≡ received_request m path request
request_of-block m path request s =
    let hs = without_length request.headers in
    ap (λ p. parse_headers_and_body (headed (some m) (some p) (pos 0) none []) (block_text request))
      (c_str-none_of path
        (none_of-subset (is_byte 0) ends_path (λ x k. ground arith) path s.one_word))
    ∙ parse_headers_and_body-block (some m) (some path) (pos 0) none (length_field request.body_len)
        hs request.body request.body_len (length_field-IsField request.body_len, s.fields) s.fresh
        s.body_is (content_length-field request.body_len hs s.body_small)

-- The bytes that are sent
abbrev wire : Http → Bytes
wire request = concat (request_pieces request) ++ payload request.body

flatten :
    (a b c d e f g : Bytes)
    → ((a ++ (b' ' ∷ (b ++ (c ++ (d ++ e))))) ++ f) ++ g
      ≡ a ++ (b' ' ∷ (b ++ (c ++ (d ++ (e ++ (f ++ g))))))
flatten a b c d e f g = simp append_assoc

abbrev between : Bytes
between = codes " HTTP/1.1\r\nContent-Length: "

wire_splits :
    (m : Method) (path : Bytes) (request : Http)
    → IsSendable m path request
    → wire request
      ≡ method_to_str m
        ++ (b' ' ∷ (path ++ (b' ' ∷ (http_1_1 ++ (line_end crlf ++ block_text request)))))
wire_splits m path request s =
    let hs = without_length request.headers in
    let digits = show_dec request.body_len in
    let c = concat (header_pieces hs) in
    ap₂
      (λ k p.
        ((method_text k ++ (b' ' ∷ (text_of p ++ (between ++ (digits ++ line_break))))) ++ c)
        ++ payload request.body)
      s.method_is s.path_is
    ∙ flatten (method_to_str m) path between digits line_break c (payload request.body)
    ∙ ap (λ t. method_to_str m ++ (b' ' ∷ (path ++ (between ++ (digits ++ t)))))
        (header_pieces-more_lines hs (payload request.body))
    ∙ ap (λ t. method_to_str m ++ (b' ' ∷ (path ++ (between ++ t))))
        (sym (
          append_assoc digits (more_lines (map field_line hs)) (crlf_crlf ++ payload request.body)))

wire-IsRequest :
    (m : Method) (path : Bytes) (request : Http)
    → IsSendable m path request
    → IsRequest (wire request) m path (block_text request)
wire-IsRequest m path request s = record {
  ending = crlf;
  splits = wire_splits m path request s;
  one_word =
      Free-none_of (is_byte b' ') path
        (none_of-subset (is_byte b' ') ends_path (λ x k. ground arith) path s.one_word);
  one_line =
      Free-none_of (is_byte b'\n') path
        (none_of-subset (is_byte b'\n') ends_path (λ x k. ground arith) path s.one_word);
}

-- What http_send_request sends, http_request_parse reads back: the method, the path, the headers
-- with the length in front, and the body, for a request whose parts can be printed, whose header
-- fits the array of the sender and the table of the reader, and whose body has the length that it
-- claims, where palloc does not fail.
pub request_parse-send_request :
    (m : Method) (path : Bytes) (request : Http)
    → IsSendable m path request
    → (sent : Bytes) × (send_request true request ≡ bytes sent)
      × (request_parse sent ≡ received_request m path request)
request_parse-send_request m path request s = (
  wire request,
  send_request_whole true request s.fits
      ∙ sent_bytes (request_pieces request) request.body request.body_len s.body_is,
  request_parse-IsRequest (wire request) m path (block_text request)
        (wire-IsRequest m path request s)
      ∙ request_of-block m path request s,
)
