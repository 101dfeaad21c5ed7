-- ===== src/Life/Turns.antt =====
-- A client dispatched to the workers, and a worker's turn, keep what holds of server and queue.
use foxtails.Base.{
  ℕ, ◌+◌, ◌≤◌, ◌<◌, ◌^◌, Bool, true, false, [], ◌∷◌, ◌++◌, All, take, ◌==◌, ==_self, if◌then◌else◌,
  ◌≡◌, ◌⊎◌, refl, sym, ap, ◌∙◌, subst, arith,
}
use foxtails.Base.Bytes.{Bytes}
use foxtails.Life.Change.{
  Change, Change-here, Change-measure, Change-total, Change-length, holds, flies, total-flies_bound,
}
use foxtails.Life.Ending.{Ended}
use foxtails.Life.Invariant.{Sound}
use foxtails.Life.Queue.{enqueue_capacity, enqueue_up, Appended-count}
use foxtails.Life.Table.{put_in_flight-Change}
use foxtails.Life.Waiting.{
  waiting, waiting-append, count_at, count_at-append, IsCall, HasSocket, All-HasSocket, All-append,
}
use foxtails.Life.{Layout, Life, dispatched}
use foxtails.Loop.Round.{put_in_flight-Holds}
use foxtails.Loop.{put_in_flight, handle_event, dispatch_client}
use foxtails.Server.Slots.{one_if}
use foxtails.Server.{Client, Server, client_at}
use foxtails.Workers.Queue.{contents, Appended, enqueue_lem}
use foxtails.Workers.{Action, WorkerQueue, filled, new_client, call, enqueue, take_turn, end_turn}

-- A client in memory: its ip_addr is an array of 16 bytes, the last one for the NUL.
abbrev pub in_memory : Client → Client
in_memory c = record c { ip_addr = take 15 c.ip_addr }

-- What is written to a payload can be read there, whatever follows it.
abbrev pub IsReadable : Layout → Type 0
IsReadable layout =
    (c : Client) (rest : Bytes) → layout.decode (layout.encode c ++ rest) ≡ in_memory c

module _ (layout : Layout) (max : ℕ) (l : Life) (readable : IsReadable layout)
    (few : max ≤ 2 ^ 28) where
  waiting_after :
      (q : WorkerQueue) (c : Client)
      → Appended l.queue new_client (layout.encode c) q
      → waiting layout (contents q) ≡ waiting layout (contents l.queue) ++ in_memory c ∷ []
  waiting_after q c h =
      ap (waiting layout) h.appended
      ∙ waiting-append layout (contents l.queue) _
      ∙ ap (λ k. waiting layout (contents l.queue) ++ k ∷ []) (readable c _)

  pub event-Sound :
      (memory : Bool) (slot oldest : ℕ)
      → (client_at l.server slot).is_alive ≡ true
      → (client_at l.server slot).in_flight ≡ false
      → (memory ≡ true) ⊎ (l.queue.count + 1 < l.queue.capacity)
      → Sound layout max l
      → Sound layout max (dispatched layout memory oldest slot l)
  unfolding handle_event dispatch_client
  event-Sound memory slot oldest alive landed can h = record {
    valid =
        (put_in_flight-Holds max l.server slot small
          (record { valid = h.valid; sized = h.sized })).valid;
    sized = ch.same_capacity ∙ h.sized;
    queued = put.valid;
    calls =
        subst (All IsCall) (sym put.appended) (All-append IsCall (contents l.queue) _ h.calls refl);
    once = λ j. ground (arith, h.once j, Change-measure ch flies j, one_more, waits j, own_idx);
    own = subst (All (HasSocket (put_in_flight l.server slot))) (sym (waiting_after _ c put)) (
        All-append (HasSocket (put_in_flight l.server slot)) (waiting layout (contents l.queue))
          (in_memory c)
          (All-HasSocket ch (waiting layout (contents l.queue)) (λ some_left. refl) h.own)
          (ap (λ k. (client_at (put_in_flight l.server slot) k).socket) (sym own_idx)));
    all_wait = omega (arith, h.all_wait, Change-total ch flies, Appended-count put, one_more);
    balance = λ res. omega (arith, h.balance res, ch.closed_is res, Change-total ch (holds res));
    up = enqueue_up memory l.queue new_client (layout.encode c) ∙ h.up;
    small = ground (
      arith,
      h.small,
      full,
      enqueue_capacity memory l.queue new_client (layout.encode c) h.queued,
    );
  }
    where
      ch :
          Change l.server
            (put_in_flight l.server slot)
            slot
            (record (client_at l.server slot) { in_flight = true })
            (λ res. 0)
      ch = put_in_flight-Change l.server slot alive

      small : slot < max
      small = omega (arith, ch.place, h.valid.table_sized, h.sized)

      c : Client
      c = client_at (put_in_flight l.server slot) slot

      put :
          Appended l.queue new_client
            (layout.encode c)
            (enqueue memory l.queue new_client (layout.encode c))
      put =
          (enqueue_lem memory l.queue new_client (layout.encode c) h.queued
              (omega (arith, h.small))).0
            can

      one_more :
          (flies (client_at l.server slot) ≡ 0)
          × (flies (record (client_at l.server slot) { in_flight = true }) ≡ 1)
      one_more = ground arith

      own_idx : c.idx ≡ slot
      own_idx = ap (λ (k : Client). k.idx) (Change-here ch) ∙ h.valid.own_idx slot alive

      waits :
          (j : ℕ)
          → count_at j
              (waiting layout (contents (enqueue memory l.queue new_client (layout.encode c))))
            ≡ count_at j (waiting layout (contents l.queue)) + (if c.idx == j then 1 else 0)
      waits j =
          ap (count_at j) (waiting_after _ c put)
          ∙ count_at-append j (waiting layout (contents l.queue)) (in_memory c)

      full : l.queue.count + 1 ≤ max
      full = omega (
        arith,
        h.all_wait,
        Change-total ch flies,
        one_more,
        total-flies_bound (put_in_flight l.server slot).clients,
        Change-length ch,
        h.valid.table_sized,
        h.sized,
      )

module _ {layout : Layout} {max : ℕ} {l : Life} where
  -- A turn whose callback ends: the queue without its first action, the slot of its client changed
  pub turn-Sound :
      (q' : WorkerQueue) (s' : Server) (a : Action) (kept : Bool)
      → Sound layout max l
      → foxtails.Workers.Queue.IsValid q'
      → contents l.queue ≡ a ∷ contents q'
      → (q'.capacity ≡ l.queue.capacity)
        × (l.queue.count ≡ q'.count + 1)
        × (q'.shutting_down ≡ l.queue.shutting_down)
      → foxtails.Server.Slots.IsValid s'
      → Ended l.server (layout.decode a.payload) kept s'
      → Sound layout max (record l { server = s'; queue = q' })
  turn-Sound q' s' a kept h queued first size valid e = record {
    valid = valid;
    sized = e.change.same_capacity ∙ h.sized;
    queued = queued;
    calls = (subst (All IsCall) first h.calls).1;
    once = λ j.
        ground (arith, front j, Change-measure e.change flies j, front c.idx, ==_self c.idx, down);
    own =
        All-HasSocket e.change (waiting layout (contents q'))
          (λ some_left. absurd (ground (arith, front c.idx, ==_self c.idx, e.landed))) fits.1;
    all_wait =
        ground (
          arith,
          h.all_wait,
          size.1,
          Change-total e.change flies,
          front c.idx,
          ==_self c.idx,
          down,
        );
    balance = λ res. ground (
      arith,
      h.balance res,
      e.change.closed_is res,
      Change-total e.change (holds res),
      e.alive_is,
      e.socket_is,
      fits.0,
      front c.idx,
      ==_self c.idx,
    );
    up = size.2 ∙ h.up;
    small = omega (arith, h.small, size.0);
  }
    where
      c : Client
      c = layout.decode a.payload

      front :
          (j : ℕ)
          → (if c.idx == j then 1 else 0) + count_at j (waiting layout (contents q'))
            ≡ flies (client_at l.server j)
      front j = ap (λ actions. count_at j (waiting layout actions)) (sym first) ∙ h.once j

      fits : HasSocket l.server c × All (HasSocket l.server) (waiting layout (contents q'))
      fits = subst (λ actions. All (HasSocket l.server) (waiting layout actions)) first h.own

      down : flies e.left ≡ 0
      down = ground (arith, e.landed)
