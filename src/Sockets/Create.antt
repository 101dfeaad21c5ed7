-- ===== src/Sockets/Create.antt =====
-- utils/sockets.c: socket_create_http, socket_create_unix, socket_listen and socket_accept. What
-- the operating system answers is an argument.
use foxtails.Base.{ℕ, ◌-◌, ◌%◌, Bool, Option, none, some, [], ◌∷◌, take}
use foxtails.Base.Bytes.{Bytes}
use foxtails.Base.Decimal.{ℤ, pos, negsuc}
use foxtails.Run.{Run, exited, pure, ◌>>=◌, ◌>>◌, say, check, or_exit, or_abort}
use foxtails.Server.{
  Socket, open_fd, allocate_address, close_fd, free_address, unlink_path, bind_port, bind_path,
  set_nonblocking, listen_on,
}

-- The answers of socket, setsockopt, malloc and bind
pub record Binding : Type 0 where
  pub fd : Option ℕ
  pub reuse_ok : Bool
  pub address : Option ℕ
  pub bind_ok : Bool

-- The conversion of an int to the uint16_t that htons takes
unfoldable pub u16 : ℤ → ℕ
u16 (pos n) = n % 65536
u16 (negsuc n) = 65535 - n % 65536

unfoldable pub socket_create_http : Binding → ℤ → Run Socket
unfolding u16
socket_create_http os port = do
  fd ← or_exit os.fd
  say (open_fd fd ∷ [])
  check os.reuse_ok (close_fd fd ∷ [])
  address ← or_abort os.address
  say (allocate_address address ∷ [])
  check os.bind_ok (free_address address ∷ close_fd fd ∷ [])
  say (bind_port fd (u16 port) ∷ set_nonblocking fd ∷ [])
  pure (record { fd = fd; address = address })

-- sizeof(sun_path) - 1
abbrev pub sun_path_max : ℕ
sun_path_max = 107

unfoldable pub socket_create_unix : Binding → Bytes → Run Socket
socket_create_unix os path = do
  fd ← or_exit os.fd
  say (open_fd fd ∷ [])
  check os.reuse_ok (close_fd fd ∷ [])
  address ← or_abort os.address
  say (allocate_address address ∷ unlink_path path ∷ [])
  check os.bind_ok (free_address address ∷ close_fd fd ∷ [])
  say (bind_path fd (take sun_path_max path) ∷ set_nonblocking fd ∷ [])
  pure (record { fd = fd; address = address })

unfoldable pub socket_listen : Bool → Socket → ℕ → Run (Unit {0})
socket_listen ok sock num_workers = do check ok []; say (listen_on sock.fd num_workers ∷ [])

-- The answers of calloc and accept; accept fails with EAGAIN or EWOULDBLOCK, or otherwise.
pub data Accept : Type 0 where
  accepted : ℕ → Accept
  would_block failed : Accept

-- socket_accept; `none` is its false.
abbrev after_accept : ℕ → Accept → Run (Option Socket)
after_accept address (accepted fd) = do
  say (open_fd fd ∷ set_nonblocking fd ∷ [])
  pure (some (record { fd = fd; address = address }))
after_accept address would_block = do say (free_address address ∷ []); pure none
after_accept address failed = (exited, free_address address ∷ [])

unfoldable pub socket_accept : Option ℕ → Accept → Run (Option Socket)
socket_accept memory answer = do
  address ← or_abort memory
  say (allocate_address address ∷ [])
  after_accept address answer
