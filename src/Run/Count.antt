-- ===== src/Run/Count.antt =====
-- How often descriptors and addresses are obtained from the operating system and given back.
use foxtails.Base.{ℕ, ◌+◌, Bool, false, List, [], ◌∷◌, ◌++◌, ◌==◌, ◌≡◌, refl, arith}
use foxtails.Server.Slots.{one_if}
use foxtails.Server.{Effect, Socket, open_fd, close_fd, allocate_address, free_address}

pub data Resource : Type 0 where
  descriptor address : ℕ → Resource

abbrev pub released : Effect → Resource → ℕ
released (close_fd fd) (descriptor n) = one_if (fd == n)
released (close_fd fd) (address a) = 0
released (free_address b) (descriptor n) = 0
released (free_address b) (address a) = one_if (b == a)
released _ res = 0

abbrev pub obtained : Effect → Resource → ℕ
obtained (open_fd fd) (descriptor n) = one_if (fd == n)
obtained (open_fd fd) (address a) = 0
obtained (allocate_address b) (descriptor n) = 0
obtained (allocate_address b) (address a) = one_if (b == a)
obtained _ res = 0

unfoldable pub releases : Resource → List Effect → ℕ
releases res [] = 0
releases res (e ∷ es) = released e res + releases res es

unfoldable pub obtains : Resource → List Effect → ℕ
obtains res [] = 0
obtains res (e ∷ es) = obtained e res + obtains res es

-- Whether a number is the descriptor, and whether a socket holds the resource
abbrev pub is_fd : Resource → ℕ → Bool
is_fd (descriptor n) fd = fd == n
is_fd (address a) fd = false

abbrev pub is_of : Resource → Socket → Bool
is_of (descriptor n) socket = socket.fd == n
is_of (address a) socket = socket.address == a

pub releases-append :
    (res : Resource) (es fs : List Effect)
    → releases res (es ++ fs) ≡ releases res es + releases res fs
unfolding releases
releases-append res [] fs = omega arith
releases-append res (e ∷ es) fs = omega (arith, releases-append res es fs)

pub obtains-append :
    (res : Resource) (es fs : List Effect)
    → obtains res (es ++ fs) ≡ obtains res es + obtains res fs
unfolding obtains
obtains-append res [] fs = omega arith
obtains-append res (e ∷ es) fs = omega (arith, obtains-append res es fs)

-- Closing a socket's descriptor and freeing its address gives back what the socket holds.
pub released_socket :
    (res : Resource) (socket : Socket)
    → released (close_fd socket.fd) res + released (free_address socket.address) res
      ≡ one_if (is_of res socket)
released_socket (descriptor n) socket = omega arith
released_socket (address a) socket = omega arith

pub obtained_socket :
    (res : Resource) (socket : Socket)
    → obtained (open_fd socket.fd) res + obtained (allocate_address socket.address) res
      ≡ one_if (is_of res socket)
obtained_socket (descriptor n) socket = omega arith
obtained_socket (address a) socket = omega arith

pub released_fd : (res : Resource) (fd : ℕ) → released (close_fd fd) res ≡ one_if (is_fd res fd)
released_fd (descriptor n) fd = refl
released_fd (address a) fd = refl

pub obtained_fd : (res : Resource) (fd : ℕ) → obtained (open_fd fd) res ≡ one_if (is_fd res fd)
obtained_fd (descriptor n) fd = refl
obtained_fd (address a) fd = refl
