-- ===== src/Host.antt =====
-- utils/server.c and utils/workers.c: the server as a whole, how it is started and how it ends. What
-- the operating system answers is an argument, and so is the success of an allocation.
pub mod Started
use foxtails.Base.{
  ℕ, zero, suc, ◌+◌, ◌-◌, ◌%◌, ◌^◌, Bool, true, false, Option, none, some, List, [], ◌∷◌, ◌++◌,
}
use foxtails.Base.Bytes.{Bytes}
use foxtails.Base.Decimal.{ℤ, pos, negsuc}
use foxtails.Run.{Run, Outcome, exited, after, pure, ◌>>=◌, ◌>>◌, say, check, or_exit}
use foxtails.Server.{
  Effect, Server, Socket, open_fd, close_fd, free_address, epoll_listen, start_worker, join_worker,
  server_init, close_clients,
}
use foxtails.Sockets.Create.{Binding, socket_create_http, socket_create_unix}
use foxtails.Workers.{WorkerQueue, init_queue, shut_down}

-- worker_pool_t
pub record WorkerPool : Type 0 where
  pub num_workers : ℕ
  pub queue : WorkerQueue

-- Whether pcalloc and pthread_create succeed for a thread
pub record ThreadAnswers : Type 0 where
  pub args_memory : Bool
  pub create_ok : Bool

pub record PoolAnswers : Type 0 where
  pub workers_memory : Bool
  pub queue_memory : Bool
  pub data_memory : Bool
  pub thread : ℕ → ThreadAnswers

-- `n` rounds of the loop of worker_pool_init, from thread `i` on
unfoldable pub start_threads : (ℕ → ThreadAnswers) → ℕ → ℕ → Run (Unit {0})
start_threads thread zero i = pure tt
start_threads thread (suc n) i = do
  check ((thread i).args_memory) []
  check ((thread i).create_ok) []
  say (start_worker i ∷ [])
  start_threads thread n (i + 1)

unfoldable pub worker_pool_init : PoolAnswers → ℕ → Run WorkerPool
worker_pool_init os num_workers = do
  check os.workers_memory []
  check os.queue_memory []
  check os.data_memory []
  start_threads os.thread num_workers 0
  pure (record { num_workers = num_workers; queue = init_queue })

-- `n` rounds of the loop of worker_pool_delete, from thread `i` on
unfoldable pub join_threads : ℕ → ℕ → List Effect
join_threads zero i = []
join_threads (suc n) i = join_worker i ∷ join_threads n (i + 1)

-- worker_pool_delete: the queue it leaves, and the threads it joins
unfoldable pub worker_pool_delete : WorkerPool → WorkerQueue × List Effect
unfolding join_threads
worker_pool_delete pool = (shut_down pool.queue, join_threads pool.num_workers 0)

-- server_t, with the state of its table and free list in `server`
pub record Host : Type 0 where
  pub server : Server
  pub socket : Socket
  pub workers : WorkerPool
  pub epoll_instance : ℕ

pub record InitAnswers : Type 0 where
  pub pool : PoolAnswers
  pub clients_memory : Bool
  pub epoll : Option ℕ
  pub register_ok : Bool
  pub list_memory : Bool

-- The conversion of an int to an unsigned int
abbrev pub u32_of_int : ℤ → ℕ
u32_of_int (pos n) = n % 2 ^ 32
u32_of_int (negsuc n) = 2 ^ 32 - 1 - n % 2 ^ 32

-- The number of slots that pcalloc is asked for. A negative int is a size_t of more than 2^63, for
-- which there is no memory.
abbrev pub table_size : ℤ → Option ℕ
table_size (pos n) = some n
table_size (negsuc n) = none

-- server_init_common, once the workers were started
unfoldable pub init_table : InitAnswers → ℤ → Socket → WorkerPool → Run Host
init_table os max_connections sock workers = do
  size ← or_exit (table_size max_connections)
  check os.clients_memory []
  epoll_instance ← or_exit os.epoll
  say (open_fd epoll_instance ∷ [])
  check os.register_ok []
  say (epoll_listen sock.fd ∷ [])
  check os.list_memory []
  server ← or_exit (server_init size)
  pure (record {
    server = server;
    socket = sock;
    workers = workers;
    epoll_instance = epoll_instance;
  })

unfoldable pub server_init_common : InitAnswers → ℤ → ℤ → Socket → Run Host
server_init_common os max_connections num_workers sock = do
  workers ← worker_pool_init os.pool (u32_of_int num_workers)
  init_table os max_connections sock workers

unfoldable pub server_init_http : Binding → InitAnswers → ℤ → ℤ → ℤ → Run Host
server_init_http bound os max_connections num_workers port = do
  sock ← socket_create_http bound port
  server_init_common os max_connections num_workers sock

unfoldable pub server_init_unix : Binding → InitAnswers → ℤ → ℤ → Bytes → Run Host
server_init_unix bound os max_connections num_workers path = do
  sock ← socket_create_unix bound path
  server_init_common os max_connections num_workers sock

-- server_delete: what it asks, in order
unfoldable pub server_delete : Host → List Effect
unfolding close_clients worker_pool_delete
server_delete host =
    close_clients host.server.clients
    ++ close_fd host.socket.fd
      ∷ free_address host.socket.address
      ∷ close_fd host.epoll_instance
      ∷ (worker_pool_delete host.workers).1
