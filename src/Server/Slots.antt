-- ===== src/Server/Slots.antt =====
-- The invariant of the client table and its free list: every slot is either alive or on the free
-- list, once.
use foxtails.Base.{
  ℕ, zero, suc, ◌+◌, ◌<◌, Bool, true, not, ◌&&◌, List, [], ◌∷◌, length, get_or, set, ltb, ◌==◌,
  ==_iff, if◌then◌else◌, ◌≡◌, ap, arith, length-set, get_or-set_self, get_or-set_ne, Bool-cases,
  inl, inr,
}
use foxtails.Server.Stack.{count_on}
use foxtails.Server.{Client, Server, no_client, client_at}

abbrev pub one_if : Bool → ℕ
one_if b = if b then 1 else 0

-- How many clients are alive.
abbrev pub alive_count : List Client → ℕ
alive_count [] = 0
alive_count (c ∷ cs) = one_if c.is_alive + alive_count cs

alive_count-set :
    (cs : List Client) (i : ℕ) (c : Client)
    → i < length cs
    → alive_count (set cs i c) + one_if (get_or cs i no_client).is_alive
      ≡ alive_count cs + one_if c.is_alive
alive_count-set [] i c h = absurd (omega arith)
alive_count-set (x ∷ cs) zero c h = omega arith
alive_count-set (x ∷ cs) (suc i) c h = omega (arith, alive_count-set cs i c (omega arith))

-- The slot exists and its client is not alive.
abbrev pub is_free : Server → ℕ → Bool
is_free s i = ltb i s.free_list.capacity && not (client_at s i).is_alive

pub record IsValid (s : Server) : Type 0 where
  pub table_sized : length s.clients ≡ s.free_list.capacity
  pub stack_sized : length s.free_list.values ≡ s.free_list.capacity
  pub balance : s.free_list.head + alive_count s.clients ≡ s.free_list.capacity
  pub free_once : (i : ℕ) → count_on s.free_list i ≡ one_if (is_free s i)
  pub own_idx : (i : ℕ) → (client_at s i).is_alive ≡ true → (client_at s i).idx ≡ i

-- A change of one slot and of the free list that keeps the invariant.
pub change_slot :
    (s s' : Server) (idx : ℕ) (c : Client)
    → IsValid s
    → idx < s.free_list.capacity
    → s'.clients ≡ set s.clients idx c
    → (c.is_alive ≡ true → c.idx ≡ idx)
    → s'.free_list.capacity ≡ s.free_list.capacity
    → length s'.free_list.values ≡ s.free_list.capacity
    → s'.free_list.head + one_if c.is_alive ≡ s.free_list.head + one_if (client_at s idx).is_alive
    → ((i : ℕ)
        → count_on s'.free_list i + one_if (idx == i && c.is_alive)
          ≡ count_on s.free_list i + one_if (idx == i && (client_at s idx).is_alive))
    → IsValid s'
change_slot s s' idx c v small table own cap sized head counts = record {
  table_sized =
      omega (
        arith,
        v.table_sized,
        length-set s.clients idx c,
        ap (λ (l : List Client). length l) table,
      );
  stack_sized = omega (arith, sized, cap);
  balance = omega (
    arith,
    v.balance,
    alive_count-set s.clients idx c (omega (arith, v.table_sized)),
    ap alive_count table,
  );
  free_once = λ i. ground (arith, counts i, v.free_once i, place i, cap);
  own_idx = λ i alive. ground (arith, v.own_idx i, place i);
}
  where
    place : (i : ℕ) → client_at s' i ≡ (if idx == i then c else client_at s i)
    place i = rw table (elim (Bool-cases (idx == i)) [
      | inl e ↦
          rw (e, ← (==_iff idx i).0 e)
            (get_or-set_self s.clients idx c no_client (omega (arith, v.table_sized)))
      | inr e ↦ rw e (get_or-set_ne s.clients idx i c no_client (ground arith))
    ])
