-- ===== src/Life/Drain.antt =====
-- Every client that is in flight is served, after as many turns of workers as actions wait.
use foxtails.Base.{ℕ, true, false, Option, some, ◌≡◌}
use foxtails.Life.{Layout, Life, Reach}
use foxtails.Serve.{Site}
use foxtails.Server.{client_at}

-- Turns of workers that left no action waiting and no client in flight
pub record Drained (site : Site) (layout : Layout) (max : ℕ) (answer : Option Life) : Type 0 where
  pub after : Life
  pub done : answer ≡ some after
  pub reached : Reach site layout max after
  pub idle : after.queue.count ≡ 0
  pub all_landed :
      (i : ℕ)
      → (client_at after.server i).is_alive ≡ true
      → (client_at after.server i).in_flight ≡ false
