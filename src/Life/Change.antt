-- ===== src/Life/Change.antt =====
-- One slot of the table of clients changes: what becomes of sums over the table, and of the
-- descriptors closed and addresses freed.
use foxtails.Base.{
  ℕ, zero, suc, ◌+◌, ◌≤◌, ◌<◌, false, ◌&&◌, List, [], ◌∷◌, length, get_or, set, replicate, ◌==◌,
  ==_iff, ==_self, if◌then◌else◌, ◌≡◌, ◌≢◌, refl, ap, ◌∙◌, arith, length-set, get_or-set_self,
  get_or-set_ne, Bool-cases, inl, inr,
}
use foxtails.Run.Count.{Resource, releases, is_of}
use foxtails.Server.Slots.{one_if}
use foxtails.Server.{Client, Server, no_client, client_at}

-- The sum of a measure over the clients
abbrev pub total : (Client → ℕ) → List Client → ℕ
total f [] = 0
total f (c ∷ cs) = f c + total f cs

-- Whether a live client holds the resource
abbrev pub holds : Resource → Client → ℕ
holds res c = one_if (c.is_alive && is_of res c.socket)

-- Whether a client is alive and in flight
abbrev pub flies : Client → ℕ
flies c = one_if (c.is_alive && c.in_flight)

total-set :
    (f : Client → ℕ) (cs : List Client) (i : ℕ) (c : Client)
    → i < length cs
    → total f (set cs i c) + f (get_or cs i no_client) ≡ total f cs + f c
total-set f [] i c h = absurd (omega arith)
total-set f (x ∷ cs) zero c h = omega arith
total-set f (x ∷ cs) (suc i) c h = omega (arith, total-set f cs i c (omega arith))

pub total-replicate :
    (f : Client → ℕ) (n : ℕ) → f no_client ≡ 0 → total f (replicate n no_client) ≡ 0
total-replicate f zero h = refl
total-replicate f (suc n) h = omega (arith, h, total-replicate f n h)

-- No more clients are in flight than the table has slots.
pub total-flies_bound : (cs : List Client) → total flies cs ≤ length cs
total-flies_bound [] = omega arith
total-flies_bound (c ∷ cs) =
    let rest = total-flies_bound cs in let one : flies c ≤ 1 = ground arith in omega arith

-- The client of slot `i` becomes `c`, and each resource is given back so many times.
pub record Change (s s' : Server) (i : ℕ) (c : Client) (closed : Resource → ℕ) : Type 0 where
  pub place : i < length s.clients
  pub table : s'.clients ≡ set s.clients i c
  pub same_capacity : s'.free_list.capacity ≡ s.free_list.capacity
  pub closed_is : (res : Resource) → releases res s'.effects ≡ releases res s.effects + closed res

module _ {s s' : Server} {i : ℕ} {c : Client} {closed : Resource → ℕ} where
  pub Change-client_at :
      Change s s' i c closed → (j : ℕ) → client_at s' j ≡ (if i == j then c else client_at s j)
  Change-client_at h j = rw (h.table) (elim (Bool-cases (i == j)) [
    | inl e ↦ rw (e, ← (==_iff i j).0 e) (get_or-set_self s.clients i c no_client h.place)
    | inr e ↦ rw e (get_or-set_ne s.clients i j c no_client (ground arith))
  ])

  pub Change-here : Change s s' i c closed → client_at s' i ≡ c
  Change-here h = Change-client_at h i ∙ rw (==_self i) refl

  pub Change-elsewhere : Change s s' i c closed → (j : ℕ) → i ≢ j → client_at s' j ≡ client_at s j
  Change-elsewhere h j apart =
      let other : (i == j) ≡ false = ground arith in Change-client_at h j ∙ rw other refl

  -- A measure of clients at each slot
  pub Change-measure :
      Change s s' i c closed
      → (f : Client → ℕ) (j : ℕ)
      → f (client_at s' j) + (if i == j then f (client_at s i) else 0)
        ≡ f (client_at s j) + (if i == j then f c else 0)
  Change-measure h f j = elim (Bool-cases (i == j)) [
    | inl e ↦
        let here : i ≡ j = ground arith in rw (e, ← here) (omega (arith, ap f (Change-here h)))
    | inr e ↦ rw e (omega (arith, ap f (Change-elsewhere h j (ground arith))))
  ]

  pub Change-total :
      Change s s' i c closed
      → (f : Client → ℕ) → total f s'.clients + f (client_at s i) ≡ total f s.clients + f c
  Change-total h f = rw (h.table) (total-set f s.clients i c h.place)

  pub Change-length : Change s s' i c closed → length s'.clients ≡ length s.clients
  Change-length h = ap (λ (cs : List Client). length cs) h.table ∙ length-set s.clients i c
