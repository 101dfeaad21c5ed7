-- ===== src/Callback/Effects.antt =====
-- worker_callback sends one response for a message, and closes the connection once or keeps it.
use foxtails.Base.{
  ℕ, ◌+◌, Bool, true, false, not, Option, some, List, [], ◌∷◌, ◌++◌, ◌==◌, ◌≡◌, arith,
}
use foxtails.Base.Bytes.{Bytes}
use foxtails.Http.Message.{Http}
use foxtails.Server.Slots.{one_if}
use foxtails.Server.{Server, Effect, send_response, close_fd}

-- How many responses go to a socket, and how often it is closed
unfoldable pub sends : ℕ → List Effect → ℕ
sends fd [] = 0
sends fd (send_response to msg ∷ es) = one_if (to == fd) + sends fd es
sends fd (_ ∷ es) = sends fd es

unfoldable pub closes : ℕ → List Effect → ℕ
closes fd [] = 0
closes fd (close_fd to ∷ es) = one_if (to == fd) + closes fd es
closes fd (_ ∷ es) = closes fd es

pub closes-append :
    (fd : ℕ) (es fs : List Effect) → closes fd (es ++ fs) ≡ closes fd es + closes fd fs
unfolding closes
closes-append fd [] fs = omega arith
closes-append fd (close_fd to ∷ es) fs = omega (arith, closes-append fd es fs)
closes-append fd (_ ∷ es) fs = closes-append fd es fs

-- What a step adds to the effects: so many responses on the socket, and so often its closing
pub record Adds (fd sent closed : ℕ) (s s' : Server) : Type 0 where
  pub added : List Effect
  pub effects : s'.effects ≡ s.effects ++ added
  pub sent_is : sends fd added ≡ sent
  pub closed_is : closes fd added ≡ closed

-- A call of worker_callback that returned, and what it did to the client's socket
pub record Replies (fd sent : ℕ) (kept : Bool) (s : Server) (answer : Option Server) : Type 0 where
  pub after : Server
  pub returned : answer ≡ some after
  pub adds : Adds fd sent (one_if (not kept)) s after

abbrev pub is_message : Bytes → Bool
is_message [] = false
is_message (c ∷ cs) = true
