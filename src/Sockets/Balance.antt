-- ===== src/Sockets/Balance.antt =====
-- utils/sockets.c: no descriptor and no address is lost when a socket cannot be created.
use foxtails.Base.{
  length, drop, ltb, if◌then◌else◌, refl, Bool-cases, inl, inr, ℕ, ◌+◌, true, false, Option, none,
  some, List, ◌≡◌, ◌≢◌, ◌⊎◌, arith,
}
use foxtails.Base.Bytes.{Bytes, codes, starts_with}
use foxtails.Base.Decimal.{ℤ, pos}
use foxtails.Run.Count.{Resource, releases, obtains, is_of}
use foxtails.Run.{Run, returned, exited, aborted}
use foxtails.Server.Slots.{one_if}
use foxtails.Server.{Effect, Socket}
use mathlib.Core.Option
use foxtails.Sockets.Connect.{Connecting, is_connected, after_socket, socket_create_auto}
use foxtails.Sockets.{create_auto, scan_url}
use foxtails.Sockets.Create.{
  Binding, Accept, accepted, would_block, failed, socket_create_http, socket_create_unix,
  socket_accept,
}

-- Every descriptor and address in the effects was given back, but for what the socket holds.
abbrev pub Keeps : Socket → List Effect → Type 0
Keeps socket es = (res : Resource) → obtains res es ≡ releases res es + one_if (is_of res socket)

abbrev pub KeepsNone : List Effect → Type 0
KeepsNone es = (res : Resource) → obtains res es ≡ releases res es

-- What creating a listening socket comes to, for the answers of the operating system
abbrev pub IsCreated : Binding → Run Socket → Type 0
IsCreated os (returned socket, es) =
    (os.fd ≡ some socket.fd)
    × (os.reuse_ok ≡ true)
    × (os.address ≡ some socket.address)
    × (os.bind_ok ≡ true)
    × Keeps socket es
IsCreated os (exited, es) =
    ((os.fd ≡ none) ⊎ (os.reuse_ok ≡ false) ⊎ (os.bind_ok ≡ false)) × KeepsNone es
IsCreated os (aborted, es) = os.address ≡ none

-- What socket_accept comes to
abbrev pub IsAccepted : Option ℕ → Accept → Run (Option Socket) → Type 0
IsAccepted memory answer (returned (some socket), es) =
    (memory ≡ some socket.address) × (answer ≡ accepted socket.fd) × Keeps socket es
IsAccepted memory answer (returned none, es) = (answer ≡ would_block) × KeepsNone es
IsAccepted memory answer (exited, es) = (answer ≡ failed) × KeepsNone es
IsAccepted memory answer (aborted, es) = memory ≡ none

pub socket_create_http-IsCreated :
    (os : Binding) (port : ℤ) → IsCreated os (socket_create_http os port)
unfolding socket_create_http obtains releases
socket_create_http-IsCreated os port = ground arith

pub socket_create_unix-IsCreated :
    (os : Binding) (path : Bytes) → IsCreated os (socket_create_unix os path)
unfolding socket_create_unix obtains releases
socket_create_unix-IsCreated os path = ground arith

socket_accept-IsAccepted :
    (memory : Option ℕ) (answer : Accept) → IsAccepted memory answer (socket_accept memory answer)
unfolding socket_accept obtains releases
socket_accept-IsAccepted memory answer = ground arith

-- What create_auto takes for its connection: an address in memory, an IP address that inet_pton
-- reads, and the call of connect
abbrev pub connect_of : Connecting → Bytes → ℕ → Option Socket
connect_of os ip port = elim os.address [
  | none ↦ none
  | some address ↦
      (if os.is_address ip
        then Option.map (λ fd. record { fd = fd; address = address })
            (is_connected os.fd (os.connect_ok ip port))
        else none)
]

abbrev pub Gives : Option Socket × List Effect → Type 0
Gives (some socket, es) = Keeps socket es
Gives (none, es) = KeepsNone es

-- What socket_create_auto comes to
abbrev pub IsConnected : Connecting → Bytes → Option Socket × List Effect → Type 0
IsConnected os url r = (r.0 ≡ create_auto (connect_of os) url) × Gives r

abbrev found_of : Connecting → Option (Bytes × ℕ) → Option Socket
found_of os found = elim found [ none ↦ none | some (ip, port) ↦ connect_of os ip port ]

after_socket-Gives :
    (os : Connecting) (timeout : ℤ) (found : Option (Bytes × ℕ))
    → os.fd ≢ pos 0
    → let r = after_socket os timeout found os.fd in (r.0 ≡ found_of os found) × Gives r
unfolding obtains releases
after_socket-Gives os timeout found h = ground arith

pub socket_create_auto-IsConnected :
    (os : Connecting) (timeout : ℤ) (url : Bytes)
    → os.fd ≢ pos 0
    → IsConnected os url (socket_create_auto os timeout url)
unfolding socket_create_auto create_auto obtains releases
socket_create_auto-IsConnected os timeout url h = elim (Bool-cases (ltb (length url) 7)) [
  | inl short ↦ rw short (refl, λ res. refl)
  | inr long ↦ elim (Bool-cases (starts_with (codes "http://") url)) [
    | inl http ↦ rw (long, http) (after_socket-Gives os timeout (scan_url (drop 7 url)) h)
    | inr other ↦ rw (long, other) (refl, λ res. refl)
  ]
]

-- socket_create_http and socket_create_unix return just if socket, setsockopt, malloc and bind all
-- succeed, and then hold one descriptor and one address; where they exit, every descriptor that was
-- opened is closed and every address freed, each once. socket_accept answers false only for EAGAIN
-- or EWOULDBLOCK, and then, as where it exits, its address is freed; else the socket it gives holds
-- one descriptor and one address. socket_create_auto, unless socket answers 0, connects just as
-- create_auto does, and gives back the descriptor and the address wherever it gives no socket.
pub sockets_balance :
    (os : Binding) (port : ℤ) (path : Bytes) (memory : Option ℕ) (answer : Accept) (to : Connecting)
    (timeout : ℤ) (url : Bytes)
    → to.fd ≢ pos 0
    → IsCreated os (socket_create_http os port)
      × IsCreated os (socket_create_unix os path)
      × IsAccepted memory answer (socket_accept memory answer)
      × IsConnected to url (socket_create_auto to timeout url)
sockets_balance os port path memory answer to timeout url h = (
  socket_create_http-IsCreated os port,
  socket_create_unix-IsCreated os path,
  socket_accept-IsAccepted memory answer,
  socket_create_auto-IsConnected to timeout url h,
)
