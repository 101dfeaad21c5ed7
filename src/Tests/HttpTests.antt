-- ===== src/Tests/HttpTests.antt =====
-- utils/http.c on concrete bytes.
use foxtails.Base.{some, List, [], ◌∷◌, ◌≡◌, ◌↔◌, refl, if◌then◌else◌}
use foxtails.Base.Bytes.{
  Bytes, codes, equal_ci, equal, lower, memchr, memmem, strip_cr, tokens, c_str, drop_while,
  starts_with, first_equal,
}
use foxtails.Base.Decimal.{strtoul, atoi, show_dec, negsuc}
use foxtails.Http.Header.{set_header, get_header}
use foxtails.Http.Header.Laws.{get_header-set_header}
use foxtails.Http.Message.{
  Header, Http, empty_message, plain_text, request_timeout, bad_request, not_implemented,
  version_not_supported,
}
use foxtails.Http.Method.{
  Method, get, request_all, method_from_str, method_to_str, method_from_str_iff,
}
use foxtails.Http.Parse.Accept.{Outcome, request_parse-Outcome, request_parse-IsRequest}
use foxtails.Http.Parse.Headers.{IsWellFormed, parses-IsWellFormed}
use foxtails.Http.Parse.Request.{IsRequest, request_of, crlf}
use foxtails.Http.Parse.{
  request_parse, response_parse, first_line, parse_headers_and_body, header_block,
  parse_header_line, parse_header_lines, content_length, set_body,
}

abbrev text_request : Bytes
text_request =
    codes "POST /api/x HTTP/1.1\r\nHost: a\r\nContent-Length:  3\r\nnonsense\r\nhost: b\r\n\r\nabcd"

abbrev parsed_request : Http
parsed_request = record empty_message {
  method = some Method.post;
  path = some (codes "/api/x");
  headers =
      record { name = codes "Host"; value = codes "b" }
      ∷ record { name = codes "Content-Length"; value = codes "3" }
      ∷ [];
  body = some (codes "abc");
  body_len = 3;
}

request_parse_runs : request_parse text_request ≡ parsed_request
unfolding request_parse first_line memchr strip_cr method_from_str first_equal equal
    parse_headers_and_body header_block memmem starts_with c_str tokens parse_header_lines
    parse_header_line set_header equal_ci lower drop_while set_body content_length get_header
    strtoul
request_parse_runs = refl

request_parse_refuses :
    (request_parse (codes "GET / HTTP/1.1") ≡ request_timeout)
    × (request_parse (codes "GET\n") ≡ bad_request)
    × (request_parse (codes "BREW / HTTP/1.1\n") ≡ not_implemented)
    × (request_parse (codes "GET / HTTP/1.0\r\n") ≡ version_not_supported)
unfolding request_parse first_line memchr strip_cr method_from_str first_equal equal
request_parse_refuses = (refl, refl, refl, refl)

numbers :
    (strtoul (codes " 42x") ≡ 42)
    × (strtoul (codes "-1") ≡ 18446744073709551615)
    × (atoi (codes "-7") ≡ negsuc 6)
    × (show_dec 1203 ≡ codes "1203")
unfolding strtoul atoi show_dec
numbers = (refl, refl, refl, refl)

request_all_bits : request_all ≡ 511
unfolding request_all
request_all_bits = refl

abbrev short_request : Bytes
short_request = codes "GET /x HTTP/1.1\r\nA: b\r\n\r\n"

abbrev after_line : Bytes
after_line = codes "A: b\r\n\r\n"

short_request-IsRequest : IsRequest short_request get (codes "/x") after_line
unfolding method_to_str
short_request-IsRequest = record {
  ending = crlf;
  splits = refl;
  one_word = (refl, (refl, tt));
  one_line = (refl, (refl, tt));
}

abbrev two_headers : List Header
two_headers = plain_text ∷ record { name = codes "X"; value = codes "1" } ∷ []

get_header-set_header_example :
    get_header (set_header two_headers (codes "x") (codes "2")).1 (codes "X") ≡ (
      if (set_header two_headers (codes "x") (codes "2")).0
      then (if equal_ci (codes "x") (codes "X")
          then some (codes "2")
          else get_header two_headers (codes "X"))
      else get_header two_headers (codes "X"))
get_header-set_header_example =
    get_header-set_header two_headers (codes "x") (codes "2") (codes "X")

method_from_str_iff_example :
    (method_from_str (codes "GET") ≡ some get) ↔ (codes "GET" ≡ method_to_str get)
method_from_str_iff_example = method_from_str_iff (codes "GET") get

request_parse-Outcome_example : Outcome text_request (request_parse text_request)
request_parse-Outcome_example = request_parse-Outcome text_request

request_parse-IsRequest_example :
    request_parse short_request ≡ request_of get (codes "/x") after_line
request_parse-IsRequest_example =
    request_parse-IsRequest short_request get (codes "/x") after_line short_request-IsRequest

parses-IsWellFormed_example :
    IsWellFormed (request_parse text_request) × IsWellFormed (response_parse text_request)
parses-IsWellFormed_example = parses-IsWellFormed text_request
