-- ===== src/Http/Exchange/Message.antt =====
-- utils/http.c: what the two senders and the two parsers share: the headers and the body.
use mathlib.Core.List.{append_assoc, append-nil}
use foxtails.Base.{
  ℕ, ◌<◌, true, false, Option, none, some, List, [], ◌∷◌, ◌++◌, map, All, length, take_all, min,
  ltb, ◌≡◌, refl, sym, ap, ◌∙◌, arith,
}
use foxtails.Base.Bytes.{Bytes, codes, c_str, is_byte, tokens}
use foxtails.Base.Decimal.{ℤ, show_dec, none_of-show_dec}
use foxtails.Base.Words.{none_of}
use foxtails.Http.Exchange.Blank.{header_block-more_lines}
use foxtails.Http.Exchange.Fields.{
  block-tokens, parse_header_lines-raw_lines, field_line-IsWord, fields-IsWord,
}
use foxtails.Http.Exchange.{IsField, Fresh, field_line, more_lines, ends_text, no_space_first}
use foxtails.Http.Message.{Header, Http, empty_message}
use foxtails.Http.Method.{Method}
use foxtails.Http.Parse.{
  crlf_crlf, content_length, parse_headers_and_body, set_body, parse_header_lines,
}
use foxtails.Http.Send.Buffer.{concat, whole_message}
use foxtails.Http.Send.{header_line, header_pieces, line_break, bytes}

-- The header that the senders print themselves
abbrev pub length_field : ℕ → Header
length_field n = record { name = codes "Content-Length"; value = show_dec n }

no_space_first-none_of : (v : Bytes) → none_of (is_byte b' ') v ≡ true → no_space_first v ≡ true
no_space_first-none_of [] h = refl
no_space_first-none_of (c ∷ cs) h = ground arith

pub length_field-IsField : (n : ℕ) → IsField (length_field n)
length_field-IsField n = (
  refl,
  none_of-show_dec ends_text (λ d h. ground arith) n,
  no_space_first-none_of (show_dec n) (none_of-show_dec (is_byte b' ') (λ d h. ground arith) n),
)

-- The body is what body_len says: no bytes without a body, and else one byte at least.
abbrev pub IsBody : Option Bytes → ℕ → Type 0
IsBody none n = n ≡ 0
IsBody (some body) n = (n ≡ length body) × (0 < n)

abbrev pub payload : Option Bytes → Bytes
payload none = []
payload (some body) = body

-- The headers behind the first line break, as lines with the blank line behind them
pub header_pieces-more_lines :
    (hs : List Header) (rest : Bytes)
    → line_break ++ (concat (header_pieces hs) ++ rest)
      ≡ more_lines (map field_line hs) ++ (crlf_crlf ++ rest)
unfolding more_lines
header_pieces-more_lines [] rest = refl
header_pieces-more_lines (h ∷ hs) rest =
    ap (λ t. b'\r' ∷ b'\n' ∷ t)
      (append_assoc (header_line h) (concat (header_pieces hs)) rest
        ∙ ap (λ t. t ++ (concat (header_pieces hs) ++ rest))
            (sym (append_assoc h.name (b':' ∷ b' ' ∷ h.value) line_break))
        ∙ append_assoc (field_line h) line_break (concat (header_pieces hs) ++ rest)
        ∙ ap (λ t. field_line h ++ t) (header_pieces-more_lines hs rest)
        ∙ sym (append_assoc (field_line h) (more_lines (map field_line hs)) (crlf_crlf ++ rest)))

-- A message in front of its body
abbrev pub headed : Option Method → Option Bytes → ℤ → Option Bytes → List Header → Http
headed method path code reason hs = record empty_message {
  method = method;
  path = path;
  code = code;
  reason = reason;
  headers = hs;
}

set_body-payload :
    (method : Option Method) (path : Option Bytes) (code : ℤ) (reason : Option Bytes)
    (hs : List Header) (body : Option Bytes) (n : ℕ)
    → IsBody body n
    → content_length hs ≡ n
    → set_body (headed method path code reason hs) (some (payload body))
      ≡ record (headed method path code reason hs) { body = body; body_len = n }
unfolding set_body
set_body-payload method path code reason hs none n b e =
    let empty : ltb 0 (min (content_length hs) 0) ≡ false = ground arith in
    rw empty (ap (λ k. record (headed method path code reason hs) { body_len = k }) (sym b))
set_body-payload method path code reason hs (some body) n b e =
    let size : min (content_length hs) (length body) ≡ n = omega (arith, e, b) in
    let full : ltb 0 n ≡ true = ground (arith, b) in
    rw (size, full)
      (ap (λ t. record (headed method path code reason hs) { body = some t; body_len = n })
        (take_all body n (omega (arith, b))))

abbrev parse_parts : Http → Bytes × Option Bytes → Http
parse_parts msg parts =
    set_body
      (record msg {
        headers = parse_header_lines msg.headers (tokens (is_byte b'\n') (c_str parts.0));
      })
      parts.1

pub sent_bytes :
    (ps : List Bytes) (body : Option Bytes) (n : ℕ)
    → IsBody body n
    → whole_message true ps body n ≡ bytes (concat ps ++ payload body)
sent_bytes ps none n b = ap bytes (sym (append-nil (concat ps)))
sent_bytes ps (some body) n b =
    ap (λ t. bytes (concat ps ++ t)) (take_all body n (omega (arith, b)))

-- Both parsers read a printed block of headers, and the body behind it, as these headers and this
-- body.
pub parse_headers_and_body-block :
    (method : Option Method) (path : Option Bytes) (code : ℤ) (reason : Option Bytes) (h : Header)
    (hs : List Header) (body : Option Bytes) (n : ℕ)
    → All IsField (h ∷ hs)
    → Fresh [] (h ∷ hs)
    → IsBody body n
    → content_length (h ∷ hs) ≡ n
    → parse_headers_and_body
        (headed method path code reason [])
        ((field_line h ++ more_lines (map field_line hs)) ++ (crlf_crlf ++ payload body))
      ≡ record (headed method path code reason (h ∷ hs)) { body = body; body_len = n }
unfolding parse_headers_and_body
parse_headers_and_body-block method path code reason h hs body n fields fresh b e =
    ap (parse_parts (headed method path code reason [])) (
      header_block-more_lines (field_line h) (map field_line hs) (payload body)
        (field_line-IsWord h fields.0) (fields-IsWord hs fields.1))
    ∙ ap
        (λ ts.
          set_body (headed method path code reason (parse_header_lines [] ts))
            (some (payload body)))
        (block-tokens (field_line h) (map field_line hs) (field_line-IsWord h fields.0)
          (fields-IsWord hs fields.1))
    ∙ ap (λ k. set_body (headed method path code reason k) (some (payload body)))
        (parse_header_lines-raw_lines [] h hs fields fresh)
    ∙ set_body-payload method path code reason (h ∷ hs) body n b e
