-- ===== src/Loop/Sweep.antt =====
-- main.c: the loop over the slots closes the idle clients and no other.
use foxtails.Base.{
  ℕ, zero, suc, ◌+◌, ◌<◌, ◌≤◌, List, [], ◌∷◌, ◌++◌, ap, ap₂, Bool, true, false, not, ◌&&◌, ◌||◌,
  ◌==◌, ltb, leb, if◌then◌else◌, ◌≡◌, ◌≢◌, refl, sym, ◌∙◌, subst, arith, Bool-cases, inl, inr,
  length, get_or-set_self, get_or-set_ne, ==_iff,
}
use foxtails.Base.Decimal.{ℤ}
use foxtails.Loop.{is_expired, sweep_slot, sweep_from}
use foxtails.Server.Clients.{server_remove_client-IsValid, alive_in_table}
use foxtails.Server.Slots.{IsValid}
use mathlib.Core.List.{append_assoc, append-nil}
use foxtails.Server.{
  Effect, epoll_del, close_fd, free_address, Client, Server, client_at, no_client,
  server_remove_client, int_stack_push,
}

-- What the sweep leaves of a client
abbrev pub after_sweep : ℤ → ℕ → Client → Client
after_sweep timeout now c = if is_expired timeout now c then record c { is_alive = false } else c

-- What closing an expired client asks: it is taken from epoll, its descriptor is closed, and its
-- address freed.
abbrev pub asked_for : Bool → Client → List Effect
asked_for expired c =
    if expired
    then epoll_del c.socket.fd ∷ close_fd c.socket.fd ∷ free_address c.socket.address ∷ []
    else []

-- The same for the expired ones of `n` clients from slot `i` on, in their order
unfoldable pub closings : ℤ → (ℕ → ℕ) → ℕ → ℕ → Server → List Effect
closings timeout clock zero i s = []
closings timeout clock (suc n) i s =
    asked_for (is_expired timeout (clock i) (client_at s i)) (client_at s i)
    ++ closings timeout clock n (i + 1) s

closings-cong :
    (timeout : ℤ) (clock : ℕ → ℕ) (n i : ℕ) (s s' : Server)
    → ((j : ℕ) → i ≤ j → client_at s' j ≡ client_at s j)
    → closings timeout clock n i s' ≡ closings timeout clock n i s
unfolding closings
closings-cong timeout clock zero i s s' h = refl
closings-cong timeout clock (suc n) i s s' h =
    ap₂ ◌++◌ (ap (λ c. asked_for (is_expired timeout (clock i) c) c) (h i (omega arith)))
      (closings-cong timeout clock n (i + 1) s s' (λ j above. h j (omega arith)))

-- A step at slot `i` that leaves the other slots alone
record Stepped (expired : Bool) (i : ℕ) (s s' : Server) : Type 0 where
  valid : IsValid s'
  same_capacity : s'.free_list.capacity ≡ s.free_list.capacity
  slot :
      client_at s' i
      ≡ (if expired then record (client_at s i) { is_alive = false } else client_at s i)
  others : (j : ℕ) → i ≢ j → client_at s' j ≡ client_at s j
  asks : s'.effects ≡ s.effects ++ asked_for expired (client_at s i)

removed_elsewhere :
    (s : Server) (client : Client) (j : ℕ)
    → client.idx ≢ j
    → client_at (server_remove_client s client) j ≡ client_at s j
unfolding server_remove_client
removed_elsewhere s client j h = get_or-set_ne s.clients client.idx j _ no_client h

removed_here :
    (s : Server) (client : Client)
    → client.idx < length s.clients
    → client_at (server_remove_client s client) client.idx
      ≡ record (client_at s client.idx) { is_alive = false }
unfolding server_remove_client
removed_here s client h = get_or-set_self s.clients client.idx _ no_client h

removed_capacity :
    (s : Server) (client : Client)
    → (server_remove_client s client).free_list.capacity ≡ s.free_list.capacity
unfolding server_remove_client int_stack_push
removed_capacity s client = ground arith

removed_asks :
    (s : Server) (client : Client)
    → (server_remove_client s client).effects ≡ s.effects ++ asked_for true client
unfolding server_remove_client
removed_asks s client = refl

stay : (i : ℕ) (s : Server) → IsValid s → Stepped false i s s
stay i s v = record {
  valid = v;
  same_capacity = refl;
  slot = refl;
  others = λ j h. refl;
  asks = sym (append-nil s.effects);
}

remove :
    (i : ℕ) (s : Server)
    → IsValid s
    → (client_at s i).is_alive ≡ true
    → Stepped true i s (server_remove_client s (client_at s i))
remove i s v alive = record {
  valid =
      server_remove_client-IsValid s (client_at s i) v
        (subst (λ k. (client_at s k).is_alive ≡ true) (sym own) alive);
  same_capacity = removed_capacity s (client_at s i);
  slot =
      subst
        (λ k.
          client_at (server_remove_client s (client_at s i)) k
          ≡ record (client_at s k) { is_alive = false })
        own
        (removed_here s (client_at s i)
          (subst (λ k. k < length s.clients) (sym own) (alive_in_table s.clients i alive).0));
  others = λ j h. removed_elsewhere s (client_at s i) j (λ e. h (sym own ∙ e));
  asks = removed_asks s (client_at s i);
}
  where
    own : (client_at s i).idx ≡ i
    own = v.own_idx i alive

abbrev server_of : Server × ℕ → Server
server_of p = p.0

sweep_slot_tests :
    (i : ℕ) (s : Server) (oldest last_recv : ℕ) (alive in_flight idle : Bool)
    → IsValid s
    → (client_at s i).is_alive ≡ alive
    → Stepped (alive && not in_flight && idle) i s (
        server_of (
          if not alive || in_flight
          then (s, oldest)
          else if idle
          then (server_remove_client s (client_at s i), oldest)
          else (s, last_recv)))
sweep_slot_tests i s oldest last_recv false in_flight idle v h = stay i s v
sweep_slot_tests i s oldest last_recv true true idle v h = stay i s v
sweep_slot_tests i s oldest last_recv true false false v h = stay i s v
sweep_slot_tests i s oldest last_recv true false true v h = remove i s v h

sweep_slot-Stepped :
    (timeout : ℤ) (now i : ℕ) (s : Server) (oldest : ℕ)
    → IsValid s
    → Stepped (is_expired timeout now (client_at s i)) i s (sweep_slot timeout now i (s, oldest)).0
unfolding sweep_slot
sweep_slot-Stepped timeout now i s oldest v = sweep_slot_tests i s oldest _ _ _ _ v refl

-- The slots from `i` to `i + n` are swept, the others are as they were.
pub record Swept (timeout : ℤ) (clock : ℕ → ℕ) (n i : ℕ) (s s' : Server) : Type 0 where
  pub valid : IsValid s'
  pub same_capacity : s'.free_list.capacity ≡ s.free_list.capacity
  pub clients :
      (j : ℕ)
      → client_at s' j ≡ (
          if leb i j && ltb j (i + n)
          then after_sweep timeout (clock j) (client_at s j)
          else client_at s j)
  pub asks : s'.effects ≡ s.effects ++ closings timeout clock n i s

sweep_here :
    (timeout : ℤ) (clock : ℕ → ℕ) (n i : ℕ) (c c' c'' : Client)
    → c' ≡ after_sweep timeout (clock i) c
    → c'' ≡ (if leb (i + 1) i && ltb i (i + 1 + n) then after_sweep timeout (clock i) c' else c')
    → c'' ≡ (if leb i i && ltb i (i + suc n) then after_sweep timeout (clock i) c else c)
sweep_here timeout clock n i c c' c'' h k = ground arith

sweep_there :
    (n i j : ℕ) (c c'' swept : Client)
    → i ≢ j
    → c'' ≡ (if leb (i + 1) j && ltb j (i + 1 + n) then swept else c)
    → c'' ≡ (if leb i j && ltb j (i + suc n) then swept else c)
sweep_there n i j c c'' swept h k = ground arith

sweep_join :
    (timeout : ℤ) (clock : ℕ → ℕ) (n i : ℕ) (s s' s'' : Server)
    → Stepped (is_expired timeout (clock i) (client_at s i)) i s s'
    → Swept timeout clock n (i + 1) s' s''
    → Swept timeout clock (suc n) i s s''
unfolding closings
sweep_join timeout clock n i s s' s'' a b = record {
  valid = b.valid;
  same_capacity = b.same_capacity ∙ a.same_capacity;
  clients = λ j. elim (Bool-cases (i == j)) [
    | inl e ↦
        subst
          (λ k. client_at s'' k ≡ (
            if leb i k && ltb k (i + suc n)
            then after_sweep timeout (clock k) (client_at s k)
            else client_at s k))
          ((==_iff i j).0 e)
          (sweep_here timeout clock n i (client_at s i) (client_at s' i) (client_at s'' i) a.slot
            (b.clients i))
    | inr e ↦
        let apart : i ≢ j = ground arith in
        sweep_there n i j (client_at s j) (client_at s'' j)
          (after_sweep timeout (clock j) (client_at s j)) apart
          (subst
            (λ c.
              client_at s'' j
              ≡ (if leb (i + 1) j && ltb j (i + 1 + n) then after_sweep timeout (clock j) c else c))
            (a.others j apart) (b.clients j))
  ];
  asks =
      b.asks
      ∙ ap₂ ◌++◌ a.asks
          (closings-cong timeout clock n (i + 1) s s' (λ j above. a.others j (omega arith)))
      ∙ append_assoc s.effects
          (asked_for (is_expired timeout (clock i) (client_at s i)) (client_at s i))
          (closings timeout clock n (i + 1) s);
}

-- The sweep of `n` slots from slot `i` on marks as not alive those of their clients that are alive,
-- not in flight and idle for the timeout or longer, takes them from epoll, closes their descriptors
-- and frees their addresses, in the order of the slots, asks for nothing else, leaves every other
-- client as it was, and keeps the table valid.
pub sweep_from-Swept :
    (timeout : ℤ) (clock : ℕ → ℕ) (n i : ℕ) (s : Server) (oldest : ℕ)
    → IsValid s
    → Swept timeout clock n i s (sweep_from timeout clock n i (s, oldest)).0
unfolding sweep_from closings
sweep_from-Swept timeout clock zero i s oldest v = record {
  valid = v;
  same_capacity = refl;
  clients = λ j. ground arith;
  asks = sym (append-nil s.effects);
}
sweep_from-Swept timeout clock (suc n) i s oldest v =
    let stepped : Stepped (is_expired timeout (clock i) (client_at s i)) i s
        (sweep_slot timeout (clock i) i (s, oldest)).0 =
      sweep_slot-Stepped timeout (clock i) i s oldest v in
    sweep_join timeout clock n i s _ _ stepped
      (sweep_from-Swept timeout clock n (i + 1) _ _ stepped.valid)
