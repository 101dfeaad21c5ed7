-- ===== src/Tests/SendTests.antt =====
-- The sending and receiving of utils/http.c on concrete messages.
use foxtails.Base.{
  All, ◌<◌, true, none, some, List, [], ◌∷◌, ◌≡◌, refl, arith, inr, replicate, length,
}
use foxtails.Base.Bytes.{
  Bytes, codes, equal_ci, equal, lower, memmem, starts_with, drop_while, is_space,
}
use foxtails.Base.Decimal.{show_dec, show_int, strtoul, read_digits}
use foxtails.Http.Header.{has_header, get_header, set_header, replace_value}
use foxtails.Http.Message.{Http, empty_message, not_found}
use foxtails.Http.Method.{get, post, method_to_str}
use foxtails.Http.Mime.{mime_type_str}
use foxtails.Http.Exchange.Request.{IsSendable, received_request, request_parse-send_request}
use foxtails.Http.Exchange.Response.{
  IsSendableResponse, received_response, response_parse-send_response,
}
use foxtails.Http.Parse.{request_parse, response_parse}
use foxtails.Http.Receive.Complete.{IsSmall, chunks, Reads, recv_message-Reads}
use foxtails.Http.Receive.Gather.{gather, recv_message-gather}
use foxtails.Http.Receive.{nothing_received}
use foxtails.Http.Receive.{
  Arrival, recv_message, recv_loop, find_body, is_complete, make_room, announced_length,
}
use foxtails.Http.Send.Buffer.{
  concat, whole_message, send_response_whole, send_response_too_long, send_request_whole,
}
use foxtails.Http.Send.{
  header_size, bytes, out_of_bounds, send_response, send_request, with_content_type,
  response_pieces, request_pieces, without_length, send_all, print_piece, print_pieces,
}

abbrev date : Bytes
date = codes "Mon, 01 Jan 2024 00:00:00 GMT"

not_found_fits : length (concat (response_pieces date (with_content_type not_found))) < header_size
unfolding with_content_type has_header get_header equal_ci equal lower show_dec show_int
not_found_fits = omega arith

send_response_whole_example :
    send_response true date not_found
    ≡ whole_message true
        (response_pieces date (with_content_type not_found))
        (with_content_type not_found).body
        (with_content_type not_found).body_len
send_response_whole_example = send_response_whole true date not_found not_found_fits

-- A reason of 5000 bytes
abbrev long_response : Http
long_response = record empty_message { reason = some (replicate 5000 b'x') }

long_header : header_size < length (concat (response_pieces date (with_content_type long_response)))
unfolding with_content_type has_header get_header set_header replace_value mime_type_str show_dec
    show_int
long_header = omega arith

no_body : (with_content_type long_response).body ≡ none
unfolding with_content_type has_header get_header set_header replace_value
no_body = refl

send_response_too_long_example : send_response true date long_response ≡ out_of_bounds
send_response_too_long_example =
    send_response_too_long true date long_response long_header (inr no_body)

abbrev small_request : Http
small_request = record empty_message {
  method = some get;
  path = some (codes "/a");
  headers = record { name = codes "Host"; value = codes "h" } ∷ [];
}

small_request_fits : length (concat (request_pieces small_request)) < header_size
unfolding without_length equal_ci equal lower show_dec method_to_str
small_request_fits = omega arith

send_request_whole_example :
    send_request true small_request ≡ whole_message true (request_pieces small_request) none 0
send_request_whole_example = send_request_whole true small_request small_request_fits

send_request_test :
    send_request true small_request
    ≡ bytes (codes "GET /a HTTP/1.1\r\nContent-Length: 0\r\nHost: h\r\n\r\n")
unfolding send_request send_all print_piece print_pieces without_length equal_ci equal lower
    show_dec method_to_str
send_request_test = refl

-- A request in two parts, and a call that finds no more
abbrev two_arrivals : List Arrival
two_arrivals =
    record { chunk = codes "GET / HTTP/1.1\r\nContent-Le"; address = 100 }
    ∷ record { chunk = codes "ngth: 2\r\n\r\nok"; address = 100 }
    ∷ record { chunk = codes "rest"; address = 100 }
    ∷ []

-- The bytes behind a complete message are left to the next call.
two_arrivals_test :
    recv_message true 100 two_arrivals ≡ codes "GET / HTTP/1.1\r\nContent-Length: 2\r\n\r\nok"
unfolding recv_message recv_loop find_body is_complete make_room announced_length memmem starts_with
    strtoul read_digits drop_while is_space
two_arrivals_test = refl

two_arrivals-IsSmall : All IsSmall two_arrivals
two_arrivals-IsSmall =
    ((omega arith, omega arith), ((omega arith, omega arith), ((omega arith, omega arith), tt)))

recv_message-Reads_example :
    Reads true (nothing_received 100) two_arrivals (recv_message true 100 two_arrivals)
recv_message-Reads_example = recv_message-Reads true 100 two_arrivals two_arrivals-IsSmall

recv_message-gather_example : recv_message true 100 two_arrivals ≡ gather true none [] two_arrivals
unfolding chunks
recv_message-gather_example =
    recv_message-gather true 100 two_arrivals two_arrivals-IsSmall (refl, (refl, (refl, tt)))
      (omega arith)

-- A request with a body and a header
abbrev posted : Http
posted = record empty_message {
  method = some post;
  path = some (codes "/form");
  headers = record { name = codes "Host"; value = codes "h" } ∷ [];
  body = some (codes "a=1");
  body_len = 3;
}

posted-IsSendable : IsSendable post (codes "/form") posted
unfolding without_length equal_ci equal lower show_dec method_to_str
posted-IsSendable = record {
  method_is = refl;
  path_is = refl;
  one_word = refl;
  fields = ((refl, refl, refl), tt);
  fresh = (tt, omega arith, ((refl, tt), omega arith, tt));
  body_is = (refl, omega arith);
  body_small = omega arith;
  fits = omega arith;
}

request_parse-send_request_example :
    (sent : Bytes) × (send_request true posted ≡ bytes sent)
    × (request_parse sent ≡ received_request post (codes "/form") posted)
request_parse-send_request_example =
    request_parse-send_request post (codes "/form") posted posted-IsSendable

not_found-IsSendableResponse :
    IsSendableResponse 404 (codes "Not Found") date (with_content_type not_found)
unfolding with_content_type has_header get_header equal_ci equal lower show_dec show_int
not_found-IsSendableResponse = record {
  code_is = refl;
  code_small = omega arith;
  code_short = omega arith;
  reason_is = refl;
  one_line = refl;
  date_is = (refl, refl, refl);
  fields = ((refl, refl, refl), tt);
  fresh = (
    tt,
    omega arith,
    (
      (refl, tt),
      omega arith,
      ((refl, (refl, tt)), omega arith, ((refl, (refl, (refl, tt))), omega arith, tt)),
    ),
  );
  body_is = (refl, omega arith);
  body_small = omega arith;
  fits = omega arith;
}

response_parse-send_response_example :
    (sent : Bytes) × (send_response true date not_found ≡ bytes sent)
    × (response_parse sent
        ≡ received_response 404 (codes "Not Found") date (with_content_type not_found))
response_parse-send_response_example =
    response_parse-send_response 404 (codes "Not Found") date not_found not_found-IsSendableResponse
