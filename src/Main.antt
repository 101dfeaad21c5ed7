-- ===== src/Main.antt =====
-- foxtails/src/main.c: what main reads from foxtails.conf, how it starts, and what it does at the
-- end. A loop that has ended is described in Life.
pub mod Defaults
pub mod Opening
pub mod Resources
use foxtails.Base.{ℕ, zero, suc, Bool, true, false, Option, none, some, List, [], ◌∷◌, ◌++◌}
use mathlib.Core.Option
use foxtails.Base.Bytes.{Bytes, codes}
use foxtails.Base.Decimal.{ℤ, pos}
use foxtails.Config.Open.{FileAnswers, ConfigFile, config_parse, config_delete}
use foxtails.Config.{Lookup, missing, value, overrun, config_get, config_get_int}
use foxtails.Host.{Host, InitAnswers, server_init_http, server_init_unix, server_delete}
use foxtails.Routing.Open.{routes_parse_file}
use foxtails.Routing.{Route}
use foxtails.Run.{Run, Outcome, after, pure, ◌>>=◌, ◌>>◌, say, or_abort}
use foxtails.Server.{Effect, Server}
use foxtails.Sockets.Create.{Binding, socket_listen}
use foxtails.Workers.{WorkerQueue}

-- if (!n) n = d
abbrev pub or_default : ℕ → ℤ → ℤ
or_default d (pos zero) = pos d
or_default d n = n

-- config_get_int with a default; `none` where config_get walks too far
unfoldable pub int_setting : Bytes → Bytes → Bytes → ℕ → Option ℤ
int_setting map section key d = Option.map (or_default d) (config_get_int map section key)

-- config_get for a string that may be missing
abbrev pub optional : Lookup → Option (Option Bytes)
optional missing = some none
optional (value val) = some (some val)
optional overrun = none

-- What main reads from the configuration
pub record Settings : Type 0 where
  pub log_level : ℤ
  pub num_workers : ℤ
  pub max_connections : ℤ
  pub keep_alive_timeout : ℤ
  pub backend_timeout : ℤ
  pub unix_path : Option Bytes
  pub port : ℤ

infixl 5 ◌>>?◌
abbrev pub ◌>>?◌ : {A B : Type 0} → Option A → (A → Option B) → Option B
none >>? f = none
some a >>? f = f a

unfoldable pub read_settings : Bytes → Option Settings
read_settings map = config_get_int map (codes "server") (codes "log-level") >>? λ log_level.
    int_setting map (codes "server") (codes "num-workers") 8 >>? λ num_workers.
    int_setting map (codes "server") (codes "max-connections") 512 >>? λ max_connections.
    int_setting map (codes "server") (codes "keep-alive-timeout") 75 >>? λ keep_alive_timeout.
    int_setting map (codes "backends") (codes "timeout") 5 >>? λ backend_timeout.
    optional (config_get map (codes "server") (codes "path")) >>? λ unix_path.
    int_setting map (codes "server") (codes "port") 8080 >>? λ port. some (record {
      log_level = log_level;
      num_workers = num_workers;
      max_connections = max_connections;
      keep_alive_timeout = keep_alive_timeout;
      backend_timeout = backend_timeout;
      unix_path = unix_path;
      port = port;
    })

-- What the start hears from the operating system
pub record StartAnswers : Type 0 where
  pub config : FileAnswers
  pub routes : FileAnswers
  pub routes_memory : ℕ → Bool
  pub binding : Binding
  pub init : InitAnswers
  pub listen_ok : Bool

-- server_init_http without a path, else server_init_unix
unfoldable pub init_server : Binding → InitAnswers → Settings → Option Bytes → Run Host
init_server bound os settings none =
    server_init_http bound os settings.max_connections settings.num_workers settings.port
init_server bound os settings (some path) =
    server_init_unix bound os settings.max_connections settings.num_workers path

-- The state of main when its loop begins
pub record Started : Type 0 where
  pub config : ConfigFile
  pub settings : Settings
  pub routes : List Route
  pub host : Host

-- main from the call of socket_listen up to its loop
unfoldable pub listen_main : StartAnswers → ConfigFile → Settings → List Route → Host → Run Started
listen_main os config settings routes host = do
  socket_listen os.listen_ok host.socket host.workers.num_workers
  pure (record { config = config; settings = settings; routes = routes; host = host })

-- main from the call of routes_parse on
unfoldable pub start_with : StartAnswers → ConfigFile → Settings → Run Started
start_with os config settings = do
  say ((routes_parse_file os.routes_memory os.routes).1)
  host ← init_server os.binding os.init settings settings.unix_path
  listen_main os config settings ((routes_parse_file os.routes_memory os.routes).0) host

-- main up to its loop
unfoldable pub start_main : StartAnswers → Run Started
start_main os = do
  say ((config_parse os.config).1)
  settings ← or_abort (read_settings (config_parse os.config).0.map)
  start_with os (config_parse os.config).0 settings

-- What main asks behind its loop, with the table as the loop has left it
unfoldable pub end_main : Started → Server → List Effect
unfolding server_delete config_delete
end_main started server =
    server_delete (record (started.host) { server = server }) ++ config_delete started.config
