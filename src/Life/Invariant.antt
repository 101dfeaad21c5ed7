-- ===== src/Life/Invariant.antt =====
-- What holds of the server and the queue of its workers together, and the steps of the main loop
-- that keep it.
use foxtails.Base.{
  ℕ, ◌+◌, ◌*◌, ◌≤◌, false, List, [], ◌∷◌, All, get_or, ◌≡◌, inl, inr, refl, sym, ap, ◌∙◌, subst,
  arith,
}
use foxtails.Base.Decimal.{ℤ}
use foxtails.Run.Count.{Resource, releases, is_of}
use foxtails.Life.Change.{Change, Change-measure, Change-total, total, holds, flies}
use foxtails.Life.Table.{Comes, turned_away, placed, sweep_slot-Gone, server_append_client-Comes}
use foxtails.Life.Waiting.{waiting, count_at, IsCall, HasSocket, All-HasSocket}
use foxtails.Life.{Layout, Life}
use foxtails.Loop.{sweep_slot}
use foxtails.Server.Clients.{server_append_client-IsValid}
use foxtails.Server.Slots.{one_if}
use foxtails.Server.{
  Client, Server, Socket, Surroundings, client_at, no_client, server_append_client,
}
use foxtails.Workers.Queue.{contents}
use foxtails.Workers.{WorkerQueue}

-- How often the sockets hold a resource
abbrev pub count_in : Resource → List Socket → ℕ
count_in res [] = 0
count_in res (x ∷ xs) = one_if (is_of res x) + count_in res xs

-- The table and the queue are valid. The actions that wait are calls for clients, one for each
-- client that is in flight, and they carry the socket of its slot. A descriptor was closed, and
-- an address freed, as often as a connection brought it, less the live clients that hold it. The
-- queue's array stays small.
pub record Sound (layout : Layout) (max : ℕ) (l : Life) : Type 0 where
  pub valid : foxtails.Server.Slots.IsValid l.server
  pub sized : l.server.free_list.capacity ≡ max
  pub queued : foxtails.Workers.Queue.IsValid l.queue
  pub calls : All IsCall (contents l.queue)
  pub once : (i : ℕ) → count_at i (waiting layout (contents l.queue)) ≡ flies (client_at l.server i)
  pub own : All (HasSocket l.server) (waiting layout (contents l.queue))
  pub all_wait : total flies l.server.clients ≡ l.queue.count
  pub balance :
      (res : Resource)
      → count_in res l.opened ≡ releases res l.server.effects + total (holds res) l.server.clients
  pub up : l.queue.shutting_down ≡ false
  pub small : l.queue.capacity ≤ 8 + 2 * max

module _ {layout : Layout} {max : ℕ} {l : Life} where
  -- A change of one slot that leaves the flag and, if the client is in flight, the socket
  pub change-Sound :
      Sound layout max l
      → (s' : Server) (opened : List Socket) (i : ℕ) (c : Client) (closed : Resource → ℕ)
      → Change l.server s' i c closed
      → foxtails.Server.Slots.IsValid s'
      → flies c ≡ flies (client_at l.server i)
      → flies c ≡ 0
      → ((res : Resource)
          → count_in res opened + holds res (client_at l.server i)
            ≡ count_in res l.opened + (closed res + holds res c))
      → Sound layout max (record l { server = s'; opened = opened })
  change-Sound h s' opened i c closed ch valid same landed counts = record {
    valid = valid;
    sized = ch.same_capacity ∙ h.sized;
    queued = h.queued;
    calls = h.calls;
    once = λ j. ground (arith, h.once j, Change-measure ch flies j);
    own =
        All-HasSocket ch (waiting layout (contents l.queue))
          (λ some_left. absurd (some_left (h.once i ∙ sym same ∙ landed))) h.own;
    all_wait = omega (arith, h.all_wait, Change-total ch flies, same);
    balance = λ res.
        omega (arith, h.balance res, ch.closed_is res, counts res, Change-total ch (holds res));
    up = h.up;
    small = h.small;
  }

  -- The table stays as it is, and what each further connection brought was given back.
  same_table-Sound :
      Sound layout max l
      → (s' : Server) (opened : List Socket) → s'.clients ≡ l.server.clients
      → s'.free_list.capacity ≡ l.server.free_list.capacity
      → foxtails.Server.Slots.IsValid s'
      → ((res : Resource)
          → count_in res opened + releases res l.server.effects
            ≡ count_in res l.opened + releases res s'.effects)
      → Sound layout max (record l { server = s'; opened = opened })
  same_table-Sound h s' opened table cap valid counts = record {
    valid = valid;
    sized = cap ∙ h.sized;
    queued = h.queued;
    calls = h.calls;
    once = λ i. h.once i ∙ ap (λ cs. flies (get_or cs i no_client)) (sym table);
    own =
        subst
          (λ cs.
            All (λ (c : Client). c.socket ≡ (get_or cs c.idx no_client).socket)
              (waiting layout (contents l.queue)))
          (sym table) h.own;
    all_wait = ap (total flies) table ∙ h.all_wait;
    balance = λ res. omega (arith, h.balance res, counts res, ap (total (holds res)) table);
    up = h.up;
    small = h.small;
  }

  pub sweep-Sound :
      (timeout : ℤ) (now i oldest : ℕ)
      → Sound layout max l
      → Sound layout max (record l { server = (sweep_slot timeout now i (l.server, oldest)).0 })
  sweep-Sound timeout now i oldest h =
      elim (sweep_slot-Gone timeout now i oldest l.server h.valid) [
        | inl same ↦ rw same h
        | inr gone ↦
            change-Sound h _ l.opened i _ _ gone.change gone.valid (ground (arith, gone.landed))
              refl (λ res. omega arith)
      ]

  accepted :
      (s' : Server) (socket : Socket)
      → Sound layout max l
      → foxtails.Server.Slots.IsValid s'
      → Comes l.server socket s'
      → Sound layout max (record l { server = s'; opened = socket ∷ l.opened })
  accepted s' socket h valid (turned_away table cap closed) =
      same_table-Sound h s' (socket ∷ l.opened) table cap valid (λ res. omega (arith, closed res))
  accepted s' socket h valid (placed i c free same landed ch) =
      change-Sound h s' (socket ∷ l.opened) i c _ ch valid (ground (arith, free, landed))
        (ground (arith, landed)) (λ res. ground (arith, free, same))

  pub accept-Sound :
      (os : Surroundings) (socket : Socket) (oldest : ℕ)
      → Sound layout max l
      → Sound layout max (record l {
        server = server_append_client os l.server socket oldest;
        opened = socket ∷ l.opened;
      })
  accept-Sound os socket oldest h =
      accepted _ socket h (server_append_client-IsValid os l.server socket oldest h.valid)
        (server_append_client-Comes os l.server socket oldest h.valid)
