-- ===== src/Main/Opening.antt =====
-- main.c up to its loop: which descriptors and addresses a start leaves held.
use foxtails.Base.{
  ℕ, zero, suc, ◌+◌, Bool, true, false, Option, none, some, List, [], ◌∷◌, ◌++◌, if◌then◌else◌, ◌≡◌,
  refl, sym, ap, ◌∙◌, subst, arith,
}
use mathlib.Core.List.{append-nil}
use foxtails.Base.Bytes.{Bytes}
use foxtails.Base.Decimal.{ℤ}
use foxtails.Config.Open.{FileAnswers, ConfigFile, open_and_map, config_parse}
use foxtails.Host.Started.{started, IsStarted, server_init_common-IsStarted}
use foxtails.Host.{
  Host, InitAnswers, u32_of_int, server_init_common, server_init_http, server_init_unix,
}
use foxtails.Main.{
  Settings, StartAnswers, Started, read_settings, init_server, listen_main, start_with, start_main,
}
use foxtails.Routing.Open.{routes_parse_file}
use foxtails.Run.Count.{
  Resource, obtains, releases, obtains-append, releases-append, is_of, is_fd, obtained_fd,
}
use foxtails.Routing.{Route}
use foxtails.Run.{pure, say, or_abort, ◌>>◌, Run, Outcome, returned, ◌>>=◌, >>=-Parts}
use foxtails.Server.Slots.{one_if}
use foxtails.Server.{Effect, Socket, open_fd, epoll_listen}
use foxtails.Sockets.Balance.{IsCreated, socket_create_http-IsCreated, socket_create_unix-IsCreated}
use foxtails.Sockets.Create.{Binding, socket_listen}

-- The effects leave the resource held `k` times.
abbrev pub Nets : Resource → List Effect → ℕ → Type 0
Nets res es k = obtains res es ≡ releases res es + k

pub Nets-append :
    (res : Resource) (k m : ℕ) (es fs : List Effect)
    → Nets res es k
    → Nets res fs m
    → Nets res (es ++ fs) (k + m)
Nets-append res a b es fs h k =
    omega (arith, h, k, obtains-append res es fs, releases-append res es fs)

-- Whether foxtails.conf was mapped
abbrev pub is_mapped : FileAnswers → Bool
is_mapped os = elim ((open_and_map os.fd os.size os.content).0) [ none ↦ false | some _ ↦ true ]

pub config_parse-Nets :
    (os : FileAnswers) (res : Resource)
    → Nets res
        (config_parse os).1
        (if is_mapped os then one_if (is_fd res (config_parse os).0.fd) else 0)
      × (is_mapped os ≡ false → (config_parse os).0.fd ≡ 0)
unfolding config_parse obtains releases open_and_map
config_parse-Nets os res = ground arith

routes_parse_file-Nets :
    (memory : ℕ → Bool) (os : FileAnswers) (res : Resource)
    → Nets res (routes_parse_file memory os).1 0
unfolding routes_parse_file obtains releases open_and_map
routes_parse_file-Nets memory os res = ground arith

started-Nets : (n i : ℕ) (res : Resource) → Nets res (started n i) 0
unfolding started obtains releases
started-Nets zero i res = refl
started-Nets (suc n) i res = omega (arith, started-Nets n (i + 1) res)

-- What a start holds open: the socket that it listens on, and the epoll instance
abbrev pub kept_open : Resource → Host → ℕ
kept_open res host = one_if (is_of res host.socket) + one_if (is_fd res host.epoll_instance)

init_common-Nets :
    (os : InitAnswers) (max_connections num_workers : ℤ) (sock : Socket) (host : Host)
    (es : List Effect)
    → server_init_common os max_connections num_workers sock ≡ (returned host, es)
    → (res : Resource) → Nets res es (one_if (is_fd res host.epoll_instance)) × (host.socket ≡ sock)
unfolding obtains releases
init_common-Nets os max_connections num_workers sock host es e res =
    let started_is =
      subst (IsStarted os max_connections num_workers sock) e
        (server_init_common-IsStarted os max_connections num_workers sock) in
    (
      subst (λ l. Nets res l (one_if (is_fd res host.epoll_instance))) (sym started_is.3)
          (omega (
            arith,
            Nets-append res 0 (one_if (is_fd res host.epoll_instance))
                (started (u32_of_int num_workers) 0)
                (open_fd host.epoll_instance ∷ epoll_listen sock.fd ∷ [])
                (started-Nets (u32_of_int num_workers) 0 res)
                (omega (arith, obtained_fd res host.epoll_instance)),
          )),
      started_is.0,
    )

created_then :
    (bound : Binding) (os : InitAnswers) (settings : Settings) (create : Run Socket) (host : Host)
    (es : List Effect)
    → IsCreated bound create
    → (create >>= server_init_common os settings.max_connections settings.num_workers)
      ≡ (returned host, es)
    → (res : Resource) → Nets res es (kept_open res host)
created_then bound os settings create host es created e res =
    let parts =
      >>=-Parts create (server_init_common os settings.max_connections settings.num_workers) e in
    let kept = subst (IsCreated bound) parts.first_is created in
    let (net, same) =
      init_common-Nets os settings.max_connections settings.num_workers parts.first host
        parts.asked_then parts.then_is res in
    subst (λ l. Nets res l (kept_open res host)) (sym parts.all_is)
      (omega (
        arith,
        Nets-append res (one_if (is_of res parts.first)) (one_if (is_fd res host.epoll_instance))
            parts.asked parts.asked_then (kept.4 res) net,
        ap (λ (s : Socket). one_if (is_of res s)) same,
      ))

init_server-Nets :
    (bound : Binding) (os : InitAnswers) (settings : Settings) (path : Option Bytes) (host : Host)
    (es : List Effect)
    → init_server bound os settings path ≡ (returned host, es)
    → (res : Resource) → Nets res es (kept_open res host)
unfolding init_server server_init_http server_init_unix
init_server-Nets bound os settings none host es e res =
    created_then bound os settings _ host es (socket_create_http-IsCreated bound settings.port) e
      res
init_server-Nets bound os settings (some path) host es e res =
    created_then bound os settings _ host es (socket_create_unix-IsCreated bound path) e res

listen-Nets :
    (ok : Bool) (sock : Socket) (n : ℕ) (u : Unit {0}) (es : List Effect)
    → socket_listen ok sock n ≡ (returned u, es)
    → (res : Resource) → Nets res es 0
unfolding socket_listen obtains releases
listen-Nets true sock n u es e res =
    subst (λ l. Nets res l 0) (ap (λ (p : Run (Unit {0})). p.1) e) refl
listen-Nets false sock n u es e res = absurd (cc)

-- What the configuration file holds open
abbrev pub config_open : Resource → StartAnswers → ℕ
config_open res os =
    if is_mapped os.config then one_if (is_fd res (config_parse os.config).0.fd) else 0

returned_eq : {x y : Started} → Outcome.returned x ≡ Outcome.returned y → x ≡ y
returned_eq e = cc

listen_main-Nets :
    (os : StartAnswers) (config : ConfigFile) (settings : Settings) (routes : List Route)
    (host : Host) (begun : Started) (es : List Effect)
    → listen_main os config settings routes host ≡ (returned begun, es)
    → (res : Resource)
    → Nets res es 0
      × (begun ≡ record { config = config; settings = settings; routes = routes; host = host })
unfolding listen_main
listen_main-Nets os config settings routes host begun es e res =
    let listening = socket_listen os.listen_ok host.socket host.workers.num_workers in
    let begun_is : Started = record {
      config = config;
      settings = settings;
      routes = routes;
      host = host;
    } in
    let parts = >>=-Parts listening (λ _. pure begun_is) e in
    (
      subst (λ l. Nets res l 0)
          (sym (
            parts.all_is
            ∙ ap (λ k. parts.asked ++ k) (sym (ap (λ (p : Run Started). p.1) parts.then_is))
            ∙ append-nil parts.asked))
          (listen-Nets os.listen_ok host.socket host.workers.num_workers parts.first parts.asked
            parts.first_is res),
      returned_eq (sym (ap (λ (p : Run Started). p.0) parts.then_is)),
    )

-- What `say` put in front of a run
say_then :
    (opening : List Effect) (k : Run Started) (begun : Started) (es : List Effect)
    → (say opening >> k) ≡ (returned begun, es)
    → (k ≡ (returned begun, k.1)) × (es ≡ opening ++ k.1)
say_then opening k begun es e = (
  ap (λ (o : Outcome Started). (o, k.1)) (ap (λ (p : Run Started). p.0) e),
  sym (ap (λ (p : Run Started). p.1) e),
)

start_with-Nets :
    (os : StartAnswers) (config : ConfigFile) (settings : Settings) (begun : Started)
    (es : List Effect)
    → start_with os config settings ≡ (returned begun, es)
    → (res : Resource) → Nets res es (kept_open res begun.host) × (begun.config ≡ config)
unfolding start_with
start_with-Nets os config settings begun es e res =
    let file = routes_parse_file os.routes_memory os.routes in
    let create = init_server os.binding os.init settings settings.unix_path in
    let said = say_then file.1 (create >>= listen_main os config settings file.0) begun es e in
    let parts = >>=-Parts create (listen_main os config settings file.0) said.0 in
    let host = parts.first in
    let listened =
      listen_main-Nets os config settings file.0 host begun parts.asked_then parts.then_is res in
    (
      subst (λ l. Nets res l (kept_open res begun.host))
          (sym (said.1 ∙ ap (λ k. file.1 ++ k) parts.all_is))
          (omega (
            arith,
            Nets-append res 0 (kept_open res host) file.1 (parts.asked ++ parts.asked_then)
                (routes_parse_file-Nets os.routes_memory os.routes res)
                (omega (
                  arith,
                  Nets-append res (kept_open res host) 0 parts.asked parts.asked_then
                      (init_server-Nets os.binding os.init settings settings.unix_path host
                        parts.asked parts.first_is res)
                      listened.0,
                )),
            ap (λ (b : Started). kept_open res b.host) listened.1,
          )),
      ap (λ (b : Started). b.config) listened.1,
    )

or_abort-some :
    (o : Option Settings) (k : Settings → Run Started) (begun : Started) (es : List Effect)
    → (or_abort o >>= k) ≡ (returned begun, es)
    → (a : Settings) × (o ≡ some a) × (k a ≡ (returned begun, es))
or_abort-some none k begun es e = absurd (cc)
or_abort-some (some a) k begun es e = (a, refl, e)

pub start_main-Nets :
    (os : StartAnswers) (begun : Started) (es : List Effect)
    → start_main os ≡ (returned begun, es)
    → (res : Resource)
    → Nets res es (config_open res os + kept_open res begun.host)
      × (begun.config ≡ (config_parse os.config).0)
unfolding start_main
start_main-Nets os begun es e res =
    let file = config_parse os.config in
    let rest = or_abort (read_settings file.0.map) >>= start_with os file.0 in
    let said = say_then file.1 rest begun es e in
    let (settings, read, started_is) =
      or_abort-some (read_settings file.0.map) (start_with os file.0) begun rest.1 said.0 in
    let (net, same) = start_with-Nets os file.0 settings begun rest.1 started_is res in
    (
      subst (λ l. Nets res l (config_open res os + kept_open res begun.host)) (sym said.1)
          (Nets-append res (config_open res os) (kept_open res begun.host) file.1 rest.1
            (config_parse-Nets os.config res).0 net),
      same,
    )
