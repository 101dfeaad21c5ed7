-- ===== src/Tests/CallsTests.antt =====
-- The descriptors and addresses that a request takes, on a small site.
use foxtails.Base.{some, [], ◌∷◌, true, ◌≡◌, ◌≢◌, refl}
use foxtails.Base.Bytes.{codes, equal, starts_with, drop_while, is_space}
use foxtails.Base.Decimal.{pos}
use foxtails.Http.Message.{Http, empty_message, bad_gateway}
use foxtails.Http.Method.{get, bit}
use foxtails.Http.Receive.{recv_message, recv_loop}
use foxtails.Routing.Methods.{has_method}
use foxtails.Routing.{proxy}
use foxtails.Serve.Calls.{
  Calls, with_calls, read_file, get_path_asking, handle_proxy_asking, fetch_from_asking,
  fetch_response_asking,
}
use foxtails.Serve.Settling.{Settles, fetch_response_asking-Settles}
use foxtails.Serve.{Site, fetch_response, verify_url, is_inside}
use foxtails.Server.{
  open_fd, close_fd, allocate_address, free_address, map_file, unmap_file, set_timeouts,
}
use foxtails.Sockets.Connect.{socket_create_auto}
use foxtails.Sockets.{
  scan_url, scan_host, scan_port, scan_signed, scan_unsigned, read_base, digit_value,
}
use foxtails.Tests.MainTests.{backend}
use foxtails.Tests.ServeTests.{site}

-- A backend that accepts the connection and closes it without an answer
abbrev calls : Calls
calls = record {
  fd_of = λ path. 9;
  to = record backend { connect_ok = λ ip port. true };
  timeout = pos 5;
  backend = λ socket. record { buf_address = 1; arrivals = λ sent. [] };
}

abbrev with_proxy : Site
with_proxy = record site {
  routes =
      record { src = codes "/api"; dest = codes "http://127.0.0.1:81"; type = proxy; methods = 1 }
      ∷ [];
}

abbrev api_request : Http
api_request = record empty_message { method = some get; path = some (codes "/api/1") }

silent_test : fetch_response_asking with_proxy calls api_request ≡ (
  some bad_gateway,
  open_fd 8 ∷ allocate_address 6 ∷ set_timeouts 8 (pos 5) ∷ close_fd 8 ∷ free_address 6 ∷ [],
)
unfolding fetch_response_asking fetch_from_asking handle_proxy_asking socket_create_auto scan_url
    scan_host scan_port scan_signed scan_unsigned read_base digit_value drop_while is_space
    has_method bit equal starts_with recv_message recv_loop
silent_test = refl

-- A file is unmapped and closed.
closed_test :
    (get_path_asking site calls (some (codes "/a.html"))).1
    ≡ open_fd 9 ∷ map_file 9 ∷ unmap_file 9 ∷ close_fd 9 ∷ []
unfolding get_path_asking read_file verify_url is_inside starts_with equal
closed_test = refl

calls_fd : calls.to.fd ≢ pos 0
calls_fd h = absurd (cc)

fetch_response_asking-Settles_example :
    Settles
      (fetch_response (with_calls with_proxy calls) api_request)
      (fetch_response_asking with_proxy calls api_request)
fetch_response_asking-Settles_example =
    fetch_response_asking-Settles with_proxy calls api_request calls_fd
