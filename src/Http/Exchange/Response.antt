-- ===== src/Http/Exchange/Response.antt =====
-- utils/http.c: http_send_response, and http_response_parse on the bytes that it sends.
use mathlib.Core.List.{append_assoc}
use foxtails.Base.{
  ℕ, ◌≤◌, ◌<◌, ◌^◌, true, none, some, List, [], ◌∷◌, ◌++◌, map, All, length, take_all, ◌≡◌, refl,
  sym, ap, ap₂, ◌∙◌, arith,
}
use foxtails.Base.Bytes.{
  Bytes, codes, equal_ci, equal, lower, equal_self, is_byte, memchr, memchr-append,
}
use foxtails.Base.Decimal.{
  pos, show_dec, show_int, atoi-show_dec, strtoul-show_dec, none_of-show_dec,
}
use foxtails.Base.Words.{none_of, none_of-subset, none_of-append, c_str-none_of, Free-none_of}
use foxtails.Http.Exchange.Fields.{strip_cr-cr}
use foxtails.Http.Exchange.Message.{
  length_field, length_field-IsField, IsBody, payload, header_pieces-more_lines, headed, sent_bytes,
  parse_headers_and_body-block,
}
use foxtails.Http.Exchange.{IsField, Fresh, field_line, more_lines, ends_text}
use foxtails.Http.Header.{get_header}
use foxtails.Http.Message.{Header, Http, empty_message}
use foxtails.Http.Parse.{
  answer, go_on, crlf_crlf, content_length, first_line, stripped_line, http_1_1,
  parse_headers_and_body, response_parse, response_steps,
}
use foxtails.Http.Send.Buffer.{concat, send_response_whole}
use foxtails.Http.Send.{
  header_size, header_pieces, line_break, bytes, text_of, response_pieces, send_response,
  with_content_type,
}

abbrev pub date_field : Bytes → Header
date_field date = record { name = codes "Date"; value = date }

abbrev pub server_field : Header
server_field = record { name = codes "Server"; value = codes "Foxtails" }

-- The headers in the order in which they are sent
abbrev pub all_fields : Bytes → Http → List Header
all_fields date msg = date_field date ∷ server_field ∷ length_field msg.body_len ∷ msg.headers

-- A response, with its content type, that can be sent and read again
pub record IsSendableResponse (n : ℕ) (reason date : Bytes) (msg : Http) : Type 0 where
  pub code_is : msg.code ≡ pos n
  pub code_small : n < 2 ^ 31
  pub code_short : length (show_dec n) ≤ 15
  pub reason_is : msg.reason ≡ some reason
  pub one_line : none_of ends_text reason ≡ true
  pub date_is : IsField (date_field date)
  pub fields : All IsField msg.headers
  pub fresh : Fresh [] (all_fields date msg)
  pub body_is : IsBody msg.body msg.body_len
  pub body_small : msg.body_len < 2 ^ 64
  pub fits : length (concat (response_pieces date msg)) < header_size

-- The message that the other end reads
abbrev pub received_response : ℕ → Bytes → Bytes → Http → Http
received_response n reason date msg = record empty_message {
  code = pos n;
  reason = some reason;
  headers = all_fields date msg;
  body = msg.body;
  body_len = msg.body_len;
}

content_length-all_fields :
    (date : Bytes) (msg : Http)
    → msg.body_len < 2 ^ 64
    → content_length (all_fields date msg) ≡ msg.body_len
unfolding content_length get_header equal_ci equal lower
content_length-all_fields date msg h = strtoul-show_dec msg.body_len h

abbrev block_text : Bytes → Http → Bytes
block_text date msg =
    (field_line (date_field date)
      ++ more_lines (map field_line (server_field ∷ length_field msg.body_len ∷ msg.headers)))
    ++ (crlf_crlf ++ payload msg.body)

abbrev status_line : ℕ → Bytes → Bytes
status_line n reason = http_1_1 ++ (b' ' ∷ (show_dec n ++ (b' ' ∷ reason)))

first_line-status_line :
    (n : ℕ) (reason rest : Bytes)
    → none_of ends_text reason ≡ true
    → first_line (status_line n reason ++ (b'\r' ∷ b'\n' ∷ rest))
      ≡ some (status_line n reason, rest)
unfolding first_line
first_line-status_line n reason rest h =
    ap (λ t. stripped_line (memchr b'\n' t))
      (sym (append_assoc (status_line n reason) (b'\r' ∷ []) (b'\n' ∷ rest)))
    ∙ ap stripped_line (
        memchr-append b'\n' (status_line n reason ++ b'\r' ∷ []) rest (
          Free-none_of (is_byte b'\n') (status_line n reason ++ b'\r' ∷ []) (
            none_of-append (is_byte b'\n') (status_line n reason) (b'\r' ∷ [])
              (none_of-append (is_byte b'\n') (show_dec n) (b' ' ∷ reason)
                (none_of-show_dec (is_byte b'\n') (λ d k. ground arith) n)
                (none_of-subset (is_byte b'\n') ends_text (λ x k. ground arith) reason h))
              refl)))
    ∙ ap (λ l. some (l, rest)) (strip_cr-cr (status_line n reason))

response_steps-status_line :
    (n : ℕ) (reason rest : Bytes)
    → n < 2 ^ 31
    → length (show_dec n) ≤ 15
    → none_of ends_text reason ≡ true
    → response_steps (status_line n reason ++ (b'\r' ∷ b'\n' ∷ rest))
      ≡ go_on (parse_headers_and_body (headed none none (pos n) (some reason) []) rest)
unfolding response_steps
response_steps-status_line n reason rest small short h = rw (
  first_line-status_line n reason rest h,
  memchr-append b' ' http_1_1 (show_dec n ++ (b' ' ∷ reason)) (ground arith),
  equal_self http_1_1,
  memchr-append b' ' (show_dec n) reason (
      Free-none_of (is_byte b' ') (show_dec n)
        (none_of-show_dec (is_byte b' ') (λ d k. ground arith) n)),
  take_all (show_dec n) 15 short,
  atoi-show_dec n small,
  c_str-none_of reason (none_of-subset (is_byte 0) ends_text (λ x k. ground arith) reason h),
)

-- The bytes that are sent
abbrev wire : Bytes → Http → Bytes
wire date msg = concat (response_pieces date msg) ++ payload msg.body

abbrev before_date : Bytes
before_date = codes "\r\nDate: "

abbrev behind_date : Bytes
behind_date = codes "\r\nServer: Foxtails\r\nContent-Length: "

flatten :
    (a b c d e f g h i j : Bytes)
    → ((a ++ (b ++ (b' ' ∷ (c ++ (d ++ (e ++ (f ++ (g ++ h)))))))) ++ i) ++ j
      ≡ a ++ (b ++ (b' ' ∷ (c ++ (d ++ (e ++ (f ++ (g ++ (h ++ (i ++ j)))))))))
flatten a b c d e f g h i j = simp append_assoc

fold :
    (code reason date digits more rest : Bytes)
    → codes "HTTP/1.1 "
        ++ (code
            ++ (b' '
                ∷ (reason
                    ++ (before_date ++ (date ++ (behind_date ++ (digits ++ (more ++ rest))))))))
      ≡ (http_1_1 ++ (b' ' ∷ (code ++ (b' ' ∷ reason))))
        ++ (b'\r'
            ∷ b'\n'
            ∷ ((field_line (date_field date)
                  ++ (b'\r'
                      ∷ b'\n'
                      ∷ (field_line server_field
                          ++ (b'\r' ∷ b'\n' ∷ ((codes "Content-Length: " ++ digits) ++ more)))))
                ++ rest))
fold code reason date digits more rest = simp append_assoc

wire_splits :
    (n : ℕ) (reason date : Bytes) (msg : Http)
    → IsSendableResponse n reason date msg
    → wire date msg ≡ status_line n reason ++ (b'\r' ∷ b'\n' ∷ block_text date msg)
unfolding more_lines show_int
wire_splits n reason date msg s =
    let digits = show_dec msg.body_len in
    let c = concat (header_pieces msg.headers) in
    ap₂
      (λ k r.
        ((codes "HTTP/1.1 "
            ++ (show_int k
                ++ (b' '
                    ∷ (text_of r
                        ++ (before_date ++ (date ++ (behind_date ++ (digits ++ line_break))))))))
          ++ c)
        ++ payload msg.body)
      s.code_is s.reason_is
    ∙ flatten (codes "HTTP/1.1 ") (show_dec n) reason before_date date behind_date digits line_break
        c (payload msg.body)
    ∙ ap
        (λ t.
          codes "HTTP/1.1 "
          ++ (show_dec n
              ++ (b' ' ∷ (reason ++ (before_date ++ (date ++ (behind_date ++ (digits ++ t))))))))
        (header_pieces-more_lines msg.headers (payload msg.body))
    ∙ fold (show_dec n) reason date digits (more_lines (map field_line msg.headers))
        (crlf_crlf ++ payload msg.body)

-- What http_send_response sends, http_response_parse reads back: the code, the reason, the date,
-- the server and the length in front of the other headers, and the body. The response has, with its
-- content type, parts that can be printed, no header of the three that the sender prints itself, a
-- header that fits the array of the sender, headers that fit the table of the reader, and a body of
-- the length that it claims, and palloc does not fail.
pub response_parse-send_response :
    (n : ℕ) (reason date : Bytes) (response : Http)
    → IsSendableResponse n reason date (with_content_type response)
    → (sent : Bytes) × (send_response true date response ≡ bytes sent)
      × (response_parse sent ≡ received_response n reason date (with_content_type response))
unfolding response_parse
response_parse-send_response n reason date response s =
    let msg = with_content_type response in
    (
      wire date msg,
      send_response_whole true date response s.fits
          ∙ sent_bytes (response_pieces date msg) msg.body msg.body_len s.body_is,
      ap (λ b. answer (response_steps b)) (wire_splits n reason date msg s)
          ∙ ap answer (
              response_steps-status_line n reason (block_text date msg) s.code_small s.code_short
                s.one_line)
          ∙ parse_headers_and_body-block none none (pos n) (some reason) (date_field date)
              (server_field ∷ length_field msg.body_len ∷ msg.headers) msg.body msg.body_len
              (s.date_is, ((refl, refl, refl), (length_field-IsField msg.body_len, s.fields)))
              s.fresh s.body_is (content_length-all_fields date msg s.body_small),
    )
