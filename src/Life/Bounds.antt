-- ===== src/Life/Bounds.antt =====
-- The bounds within which the queue and the slots of its clients stay.
use foxtails.Base.{
  ℕ, ◌+◌, ◌*◌, ◌≤◌, ◌<◌, ◌^◌, List, [], ◌∷◌, All, length, ==_self, ◌≡◌, subst, arith,
}
use foxtails.Life.Always.{Reach-Sound}
use foxtails.Life.Change.{flies, total-flies_bound}
use foxtails.Life.Turns.{IsReadable}
use foxtails.Life.Waiting.{waiting, count_at}
use foxtails.Life.{Layout, Life, Reach, IsOrderly}
use foxtails.Serve.{Site}
use foxtails.Server.Clients.{alive_in_table}
use foxtails.Server.{Client, Server, client_at}
use foxtails.Workers.Queue.{contents}

-- Clients that are counted among those in flight have a slot in the table.
in_table :
    (s : Server) (ws : List Client)
    → ((i : ℕ) → count_at i ws ≤ flies (client_at s i))
    → All (λ c. c.idx < length s.clients) ws
in_table s [] h = tt
in_table s (w ∷ ws) h = (
  (alive_in_table s.clients w.idx (ground (arith, h w.idx, ==_self w.idx))).0,
  in_table s ws (λ i. omega (arith, h i)),
)

-- In every run in which each event is for a client that is alive and not in flight, and each dispatch
-- finds a free slot in the queue or memory for a larger one: the queue holds at most one action for
-- each slot of the table, its array has at most 8 slots more
-- than twice the table, the sum of head and count that the code takes the remainder of does not
-- wrap, and the clients that wait have slots within the table. The layout of a client is to be read
-- as it was written, and the table is to have at most 2^28 slots.
pub Reach_bounds :
    (site : Site) (layout : Layout) (max : ℕ) (l : Life)
    → IsReadable layout
    → max ≤ 2 ^ 28
    → (run : Reach site layout max l) → IsOrderly run
    → (l.queue.count ≤ max)
      × (l.queue.capacity ≤ 8 + 2 * max)
      × (l.queue.head + l.queue.count < 2 ^ 32)
      × All (λ c. c.idx < max) (waiting layout (contents l.queue))
Reach_bounds site layout max l readable few r o =
    let h = Reach-Sound site layout max readable few r o in
    let sized : length l.server.clients ≡ max = omega (arith, h.valid.table_sized, h.sized) in
    (
      omega (arith, h.all_wait, total-flies_bound l.server.clients),
      h.small,
      omega (arith, h.small, h.queued),
      subst (λ n. All (λ (c : Client). c.idx < n) (waiting layout (contents l.queue))) sized
          (in_table l.server (waiting layout (contents l.queue)) (λ i. omega (arith, h.once i))),
    )
