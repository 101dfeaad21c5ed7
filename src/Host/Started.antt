-- ===== src/Host/Started.antt =====
-- What a server that has started holds.
use foxtails.Base.{
  ℕ, zero, suc, ◌+◌, ◌≤◌, ◌<◌, Bool, true, false, Option, none, some, List, [], ◌∷◌, ◌++◌, ◌≡◌,
  refl, ap, ap₂, ◌∙◌, arith, inl, inr, ◌⊎◌, ◌==◌, Bool-cases,
}
use mathlib.Core.List.{append-nil}
use foxtails.Base.Decimal.{ℤ, pos, negsuc}
use foxtails.Host.{
  ThreadAnswers, PoolAnswers, WorkerPool, Host, InitAnswers, start_threads, worker_pool_init,
  u32_of_int, table_size, init_table, server_init_common,
}
use foxtails.Run.{Run, returned, exited, aborted, pure, check, or_exit, say, ◌>>=◌, ◌>>◌}
use foxtails.Server.{Effect, Server, Socket, open_fd, epoll_listen, start_worker, server_init}
use foxtails.Server.Start.{server_init-IsValid}
use foxtails.Workers.{init_queue}

-- The effects of starting the threads from `i` on
unfoldable pub started : ℕ → ℕ → List Effect
started zero i = []
started (suc n) i = start_worker i ∷ started n (i + 1)

-- A thread that could not be started
abbrev pub FailsOne : (ℕ → ThreadAnswers) → ℕ → ℕ → Type 0
FailsOne thread n i =
    (j : ℕ) × (i ≤ j)
    × (j < i + n)
    × (((thread j).args_memory ≡ false) ⊎ ((thread j).create_ok ≡ false))

-- Every thread could be started.
abbrev pub AllStart : (ℕ → ThreadAnswers) → ℕ → ℕ → Type 0
AllStart thread n i =
    (j : ℕ) → i ≤ j → j < i + n → ((thread j).args_memory ≡ true) × ((thread j).create_ok ≡ true)

-- All threads were started, in their order, or one could not be.
abbrev AreStarted : (ℕ → ThreadAnswers) → ℕ → ℕ → Run (Unit {0}) → Type 0
AreStarted thread n i (returned u, es) = (es ≡ started n i) × AllStart thread n i
AreStarted thread n i (exited, es) = FailsOne thread n i
AreStarted thread n i (aborted, es) = ⊥

one_more :
    (thread : ℕ → ThreadAnswers) (n i : ℕ) (memory create : Bool) (rest : Run (Unit {0}))
    → (thread i).args_memory ≡ memory
    → (thread i).create_ok ≡ create
    → AreStarted thread n (i + 1) rest
    → AreStarted thread
        (suc n)
        i
        (do check memory []; check create []; say (start_worker i ∷ []); rest)
unfolding started
one_more thread n i false create rest h k r = (i, omega arith, omega arith, inl h)
one_more thread n i true false rest h k r = (i, omega arith, omega arith, inr k)
one_more thread n i true true (returned u, es) h k r = (
  ap (◌∷◌ (start_worker i)) r.0,
  λ j above below. elim (Bool-cases (i == j)) [
    | inl e ↦ let here : i ≡ j = ground arith in rw (← here) (h, k)
    | inr e ↦ r.1 j (ground arith) (omega arith)
  ],
)
one_more thread n i true true (exited, es) h k (j, above, below, fails) =
    (j, omega arith, omega arith, fails)
one_more thread n i true true (aborted, es) h k r = r

start_threads-AreStarted :
    (thread : ℕ → ThreadAnswers) (n i : ℕ) → AreStarted thread n i (start_threads thread n i)
unfolding start_threads started
start_threads-AreStarted thread zero i = (refl, λ j above below. absurd (omega arith))
start_threads-AreStarted thread (suc n) i =
    one_more thread n i _ _ (start_threads thread n (i + 1)) refl refl
      (start_threads-AreStarted thread n (i + 1))

abbrev pub PoolFails : PoolAnswers → ℕ → Type 0
PoolFails os n =
    (os.workers_memory ≡ false)
    ⊎ (os.queue_memory ≡ false)
    ⊎ (os.data_memory ≡ false)
    ⊎ FailsOne os.thread n 0

abbrev pub PoolStarts : PoolAnswers → ℕ → Type 0
PoolStarts os n =
    (os.workers_memory ≡ true)
    × (os.queue_memory ≡ true)
    × (os.data_memory ≡ true)
    × AllStart os.thread n 0

abbrev IsPool : PoolAnswers → ℕ → Run WorkerPool → Type 0
IsPool os n (returned pool, es) =
    (pool ≡ record { num_workers = n; queue = init_queue }) × (es ≡ started n 0) × PoolStarts os n
IsPool os n (exited, es) = PoolFails os n
IsPool os n (aborted, es) = ⊥

worker_pool_init-IsPool : (os : PoolAnswers) (n : ℕ) → IsPool os n (worker_pool_init os n)
unfolding worker_pool_init
worker_pool_init-IsPool os n =
    go os.workers_memory os.queue_memory os.data_memory (start_threads os.thread n 0) refl refl refl
      (start_threads-AreStarted os.thread n 0)
  where
    go :
        (a b c : Bool) (r : Run (Unit {0}))
        → os.workers_memory ≡ a
        → os.queue_memory ≡ b
        → os.data_memory ≡ c
        → AreStarted os.thread n 0 r
        → IsPool os n (do
          check a []
          check b []
          check c []
          r
          pure (record { num_workers = n; queue = init_queue }))
    go false b c r h k m t = inl h
    go true false c r h k m t = inr (inl k)
    go true true false r h k m t = inr (inr (inl m))
    go true true true (returned u, es) h k m t = (refl, append-nil es ∙ t.0, (h, k, m, t.1))
    go true true true (exited, es) h k m t = inr (inr (inr t))
    go true true true (aborted, es) h k m t = t

-- An answer that made server_init_common exit
abbrev pub InitFails : InitAnswers → ℤ → ℤ → Type 0
InitFails os max_connections num_workers =
    PoolFails os.pool (u32_of_int num_workers)
    ⊎ (table_size max_connections ≡ none)
    ⊎ (os.clients_memory ≡ false)
    ⊎ (os.epoll ≡ none)
    ⊎ (os.register_ok ≡ false)
    ⊎ (os.list_memory ≡ false)

-- The answers with which it returns this host
abbrev pub InitStarts : InitAnswers → Host → Type 0
InitStarts os host =
    (os.clients_memory ≡ true)
    × (os.epoll ≡ some host.epoll_instance)
    × (os.register_ok ≡ true)
    × (os.list_memory ≡ true)

-- What it comes to once the workers run
abbrev HasTable : InitAnswers → ℤ → Socket → WorkerPool → Run Host → Type 0
HasTable os max_connections sock workers (returned host, es) =
    (host.socket ≡ sock)
    × (host.workers ≡ workers)
    × ((n : ℕ) × (max_connections ≡ pos n) × (server_init n ≡ some host.server))
    × (es ≡ open_fd host.epoll_instance ∷ epoll_listen sock.fd ∷ [])
    × InitStarts os host
HasTable os max_connections sock workers (exited, es) =
    (table_size max_connections ≡ none)
    ⊎ (os.clients_memory ≡ false)
    ⊎ (os.epoll ≡ none)
    ⊎ (os.register_ok ≡ false)
    ⊎ (os.list_memory ≡ false)
HasTable os max_connections sock workers (aborted, es) = ⊥

init_table-HasTable :
    (os : InitAnswers) (max_connections : ℤ) (sock : Socket) (workers : WorkerPool)
    → HasTable os max_connections sock workers (init_table os max_connections sock workers)
unfolding init_table
init_table-HasTable os (negsuc n) sock workers = inl refl
init_table-HasTable os (pos n) sock workers =
    go os.clients_memory os.epoll os.register_ok os.list_memory (server_init n) refl refl refl refl
      refl (server_init-IsValid n).1
  where
    go :
        (a : Bool) (e : Option ℕ) (b c : Bool) (s : Option Server)
        → os.clients_memory ≡ a
        → os.epoll ≡ e
        → os.register_ok ≡ b
        → os.list_memory ≡ c
        → server_init n ≡ s
        → server_init n ≡ some (server_init-IsValid n).0
        → HasTable os (pos n) sock workers (do
          check a []
          epoll_instance ← or_exit e
          say (open_fd epoll_instance ∷ [])
          check b []
          say (epoll_listen sock.fd ∷ [])
          check c []
          server ← or_exit s
          pure (record {
            server = server;
            socket = sock;
            workers = workers;
            epoll_instance = epoll_instance;
          }))
    go false e b c s h k m l t v = inr (inl h)
    go true none b c s h k m l t v = inr (inr (inl k))
    go true (some e) false c s h k m l t v = inr (inr (inr (inl m)))
    go true (some e) true false s h k m l t v = inr (inr (inr (inr l)))
    go true (some e) true true none h k m l t v = absurd (cc)
    go true (some e) true true (some s) h k m l t v = (refl, refl, (n, refl, t), refl, (h, k, m, l))

-- What server_init_common comes to: the server it returns, and what it asked for that, or an answer
-- that made it exit
abbrev pub IsStarted : InitAnswers → ℤ → ℤ → Socket → Run Host → Type 0
IsStarted os max_connections num_workers sock (returned host, es) =
    (host.socket ≡ sock)
    × (host.workers ≡ record { num_workers = u32_of_int num_workers; queue = init_queue })
    × ((n : ℕ) × (max_connections ≡ pos n) × (server_init n ≡ some host.server))
    × (es
        ≡ started (u32_of_int num_workers) 0
          ++ open_fd host.epoll_instance ∷ epoll_listen sock.fd ∷ [])
    × PoolStarts os.pool (u32_of_int num_workers)
    × InitStarts os host
IsStarted os max_connections num_workers sock (exited, es) =
    InitFails os max_connections num_workers
IsStarted os max_connections num_workers sock (aborted, es) = ⊥

join_parts :
    (os : InitAnswers) (max_connections num_workers : ℤ) (sock : Socket) (p : Run WorkerPool)
    → IsPool os.pool (u32_of_int num_workers) p
    → IsStarted os max_connections num_workers sock (p >>= init_table os max_connections sock)
join_parts os max_connections num_workers sock (exited, es) h = inl h
join_parts os max_connections num_workers sock (aborted, es) h = h
join_parts os max_connections num_workers sock (returned pool, es) h =
    go (init_table os max_connections sock pool) (init_table-HasTable os max_connections sock pool)
  where
    go :
        (r : Run Host)
        → HasTable os max_connections sock pool r
        → IsStarted os max_connections num_workers sock (r.0, es ++ r.1)
    go (exited, fs) t = inr t
    go (aborted, fs) t = t
    go (returned host, fs) t = (t.0, t.1 ∙ h.0, t.2, ap₂ ◌++◌ h.1 t.3, h.2, t.4)

-- server_init_common returns just if the size is not negative and every allocation, thread and call
-- of epoll that it asks for succeeds, and exits otherwise. It returns the server with the socket
-- given, all its workers started in their order on an empty queue, a table of max_connections slots
-- with its free list, and an epoll instance that watches the socket.
pub server_init_common-IsStarted :
    (os : InitAnswers) (max_connections num_workers : ℤ) (sock : Socket)
    → IsStarted os max_connections num_workers sock
        (server_init_common os max_connections num_workers sock)
unfolding server_init_common
server_init_common-IsStarted os max_connections num_workers sock =
    join_parts os max_connections num_workers sock
      (worker_pool_init os.pool (u32_of_int num_workers))
      (worker_pool_init-IsPool os.pool (u32_of_int num_workers))
