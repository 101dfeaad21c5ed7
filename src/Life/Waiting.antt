-- ===== src/Life/Waiting.antt =====
-- The clients whose actions wait in the queue, against the table of clients.
use foxtails.Base.{
  ℕ, ◌+◌, List, [], ◌∷◌, ◌++◌, All, ◌==◌, if◌then◌else◌, ◌≡◌, ◌≢◌, refl, sym, ap, ◌∙◌, arith,
  Bool-cases, inl, inr,
}
use foxtails.Life.Change.{Change, Change-here, Change-elsewhere}
use foxtails.Life.{Layout}
use foxtails.Run.Count.{Resource}
use foxtails.Server.{Client, Server, client_at}
use foxtails.Workers.{Action, new_client}

abbrev pub waiting : Layout → List Action → List Client
waiting layout [] = []
waiting layout (a ∷ actions) = layout.decode a.payload ∷ waiting layout actions

-- How many of the clients are for slot `i`
abbrev pub count_at : ℕ → List Client → ℕ
count_at i [] = 0
count_at i (c ∷ cs) = (if c.idx == i then 1 else 0) + count_at i cs

abbrev pub IsCall : Action → Type 0
IsCall a = a.type ≡ new_client

-- The copy of a client has the socket of its slot.
abbrev pub HasSocket : Server → Client → Type 0
HasSocket s c = c.socket ≡ (client_at s c.idx).socket

pub waiting-append :
    (layout : Layout) (actions : List Action) (a : Action)
    → waiting layout (actions ++ a ∷ []) ≡ waiting layout actions ++ layout.decode a.payload ∷ []
waiting-append layout [] a = refl
waiting-append layout (b ∷ actions) a =
    ap (◌∷◌ (layout.decode b.payload)) (waiting-append layout actions a)

pub count_at-append :
    (i : ℕ) (cs : List Client) (c : Client)
    → count_at i (cs ++ c ∷ []) ≡ count_at i cs + (if c.idx == i then 1 else 0)
count_at-append i [] c = omega arith
count_at-append i (x ∷ cs) c = omega (arith, count_at-append i cs c)

pub All-append {ℓ κ} :
    {A : Type ℓ} (P : A → Type κ) (xs : List A) (x : A) → All P xs → P x → All P (xs ++ x ∷ [])
All-append P [] x h k = (k, tt)
All-append P (y ∷ xs) x h k = (h.0, All-append P xs x h.1 k)

same_socket :
    {s s' : Server} {i : ℕ} {c : Client} {closed : Resource → ℕ}
    → Change s s' i c closed
    → (w : Client) → (w.idx ≡ i → c.socket ≡ (client_at s i).socket)
    → HasSocket s w
    → HasSocket s' w
same_socket {s} {s'} {i} {c} h w same own = elim (Bool-cases (i == w.idx)) [
  | inl e ↦
      let here : i ≡ w.idx = ground arith in
      own
      ∙ ap (λ k. (client_at s k).socket) (sym here)
      ∙ sym (same (sym here))
      ∙ ap (λ (k : Client). k.socket) (sym (Change-here h))
      ∙ ap (λ k. (client_at s' k).socket) here
  | inr e ↦ own ∙ ap (λ (k : Client). k.socket) (sym (Change-elsewhere h w.idx (ground arith)))
]

-- A change of a slot for which no client waits, or which keeps its socket
pub All-HasSocket :
    {s s' : Server} {i : ℕ} {c : Client} {closed : Resource → ℕ}
    → Change s s' i c closed
    → (ws : List Client) → (count_at i ws ≢ 0 → c.socket ≡ (client_at s i).socket)
    → All (HasSocket s) ws
    → All (HasSocket s') ws
All-HasSocket h [] same own = tt
All-HasSocket h (w ∷ ws) same own = (
  same_socket h w (λ e. same (ground arith)) own.0,
  All-HasSocket h ws (λ some_left. same (ground arith)) own.1,
)
