-- ===== src/Sockets/Connect.antt =====
-- utils/sockets.c: socket_create_auto with what it opens, closes and frees.
use foxtails.Base.{
  ℕ, zero, Bool, true, false, Option, none, some, List, [], ◌∷◌, ◌++◌, length, drop, ltb,
  if◌then◌else◌,
}
use foxtails.Base.Bytes.{Bytes, codes, starts_with}
use foxtails.Base.Decimal.{ℤ, pos, negsuc}
use foxtails.Server.{
  Effect, Socket, open_fd, allocate_address, close_fd, free_address, set_timeouts,
}
use foxtails.Sockets.{scan_url}

-- The answers of socket, malloc, inet_pton and connect
pub record Connecting : Type 0 where
  pub fd : ℤ
  pub address : Option ℕ
  pub is_address : Bytes → Bool
  pub connect_ok : Bytes → ℕ → Bool

-- Opening and closing do nothing for the -1 of a socket that could not be opened.
abbrev pub opening : ℤ → List Effect
opening (pos fd) = open_fd fd ∷ []
opening (negsuc n) = []

abbrev pub closing : ℤ → List Effect
closing (pos fd) = close_fd fd ∷ []
closing (negsuc n) = []

-- connect fails on a negative descriptor.
abbrev pub is_connected : ℤ → Bool → Option ℕ
is_connected (pos fd) true = some fd
is_connected (pos fd) false = none
is_connected (negsuc n) ok = none

-- The call of connect, and what follows it
abbrev after_connect : ℤ → ℤ → ℕ → Option ℕ → Option Socket × List Effect
after_connect timeout fd address none = (none, closing fd ++ free_address address ∷ [])
after_connect timeout fd address (some n) =
    (some (record { fd = n; address = address }), set_timeouts n timeout ∷ [])

-- What follows sscanf
abbrev after_scan : Connecting → ℤ → ℤ → ℕ → Option (Bytes × ℕ) → Option Socket × List Effect
after_scan os timeout fd address none = (none, closing fd ++ free_address address ∷ [])
after_scan os timeout fd address (some (ip, port)) =
    if os.is_address ip
    then after_connect timeout fd address (is_connected fd (os.connect_ok ip port))
    else (none, closing fd ++ free_address address ∷ [])

-- What follows malloc
abbrev after_malloc :
    Connecting → ℤ → ℤ → Option (Bytes × ℕ) → Option ℕ → Option Socket × List Effect
after_malloc os timeout fd found none = (none, closing fd)
after_malloc os timeout fd found (some address) =
    let (answer, asked) = after_scan os timeout fd address found in
    (answer, allocate_address address ∷ asked)

-- What follows the call of socket, with what sscanf will find: the code takes 0 for a failure, and
-- -1 for a descriptor.
abbrev pub after_socket : Connecting → ℤ → Option (Bytes × ℕ) → ℤ → Option Socket × List Effect
after_socket os timeout found (pos zero) = (none, opening (pos zero))
after_socket os timeout found fd =
    let (answer, asked) = after_malloc os timeout fd found os.address in
    (answer, opening fd ++ asked)

-- socket_create_auto; `none` is the socket_t of zeros, and `timeout` is backend_timeout.
unfoldable pub socket_create_auto : Connecting → ℤ → Bytes → Option Socket × List Effect
socket_create_auto os timeout url =
    if ltb (length url) 7
    then (none, [])
    else if starts_with (codes "http://") url
    then after_socket os timeout (scan_url (drop 7 url)) os.fd
    else (none, [])
