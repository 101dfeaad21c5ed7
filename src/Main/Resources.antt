-- ===== src/Main/Resources.antt =====
-- main.c as a whole: each descriptor is closed, and each address freed, as often as it was obtained.
use foxtails.Base.{
  ℕ, zero, suc, ◌+◌, ◌≤◌, ◌^◌, not, ◌&&◌, List, [], ◌∷◌, ◌++◌, ◌≡◌, refl, ap, arith,
}
use foxtails.Config.Open.{ConfigFile, config_delete}
use foxtails.Host.{join_threads, worker_pool_delete, server_delete}
use foxtails.Life.Always.{Reach-Sound}
use foxtails.Life.Change.{total, holds}
use foxtails.Life.Invariant.{count_in}
use foxtails.Life.Turns.{IsReadable}
use foxtails.Life.{Layout, Life, Reach, IsOrderly}
use foxtails.Main.Opening.{is_mapped, kept_open, config_parse-Nets, start_main-Nets}
use foxtails.Main.{StartAnswers, Started, start_main, end_main}
use foxtails.Run.Count.{
  Resource, obtains, releases, releases-append, is_fd, released_fd, released_socket,
}
use foxtails.Run.{returned}
use foxtails.Serve.{Site}
use foxtails.Server.Slots.{one_if}
use foxtails.Server.{Client, Effect, Server, close_fd, free_address, close_clients}

-- The loop of server_delete releases the live clients.
close_clients-releases :
    (res : Resource) (cs : List Client) → releases res (close_clients cs) ≡ total (holds res) cs
unfolding close_clients releases
close_clients-releases res [] = refl
close_clients-releases res (c ∷ cs) =
    ground (arith, released_socket res c.socket, close_clients-releases res cs)

join_threads-releases : (res : Resource) (n i : ℕ) → releases res (join_threads n i) ≡ 0
unfolding join_threads releases
join_threads-releases res zero i = refl
join_threads-releases res (suc n) i = omega (arith, join_threads-releases res n (i + 1))

end_main-releases :
    (begun : Started) (server : Server) (res : Resource)
    → releases res (end_main begun server)
      ≡ total (holds res) server.clients
        + (kept_open res begun.host + one_if (is_fd res begun.config.fd))
unfolding end_main server_delete worker_pool_delete config_delete releases
end_main-releases begun server res =
    let host = begun.host in
    let joined = join_threads host.workers.num_workers 0 in
    let closing =
      close_fd host.socket.fd
      ∷ free_address host.socket.address
      ∷ close_fd host.epoll_instance
      ∷ joined in
    omega (
      arith,
      released_socket res host.socket,
      released_fd res host.epoll_instance,
      released_fd res begun.config.fd,
      close_clients-releases res server.clients,
      join_threads-releases res host.workers.num_workers 0,
      releases-append res (close_clients server.clients) closing,
      releases-append res (close_clients server.clients ++ closing) (config_delete begun.config),
    )

-- The size of the table that main has started with
abbrev pub slots : Started → ℕ
slots begun = begun.host.server.free_list.capacity

-- From a start of main that succeeds, over steps of its loop and of the workers, to an end during
-- which no worker serves a client, each descriptor is closed, and each socket's address freed, as
-- often as main has obtained it and a connection has brought it, and the descriptor 0 is closed once
-- more if foxtails.conf could not be mapped. Each event of the loop is to be for a client that is
-- alive and not in flight, and each dispatch is to find a free slot in the queue or memory for a
-- larger one; the layout of a client is to be read as it was written, and the table is to have at
-- most 2^28 slots.
pub main_releases :
    (site : Site) (layout : Layout) (os : StartAnswers) (begun : Started) (es : List Effect)
    (l : Life)
    → start_main os ≡ (returned begun, es)
    → IsReadable layout
    → slots begun ≤ 2 ^ 28
    → (run : Reach site layout (slots begun) l) → IsOrderly run
    → (res : Resource)
    → releases res (es ++ (l.server.effects ++ end_main begun l.server))
      ≡ obtains res es + (count_in res l.opened + one_if (not (is_mapped os.config) && is_fd res 0))
main_releases site layout os begun es l e readable few r o res =
    let (net, same) = start_main-Nets os begun es e res in
    let cfg = config_parse-Nets os.config res in
    ground (
      arith,
      released_fd res 0,
      net,
      cfg.1,
      ap (λ (c : ConfigFile). one_if (is_fd res c.fd)) same,
      (Reach-Sound site layout (slots begun) readable few r o).balance res,
      end_main-releases begun l.server res,
      releases-append res es (l.server.effects ++ end_main begun l.server),
      releases-append res l.server.effects (end_main begun l.server),
    )
