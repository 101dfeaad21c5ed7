-- ===== src/Tests/MainTests.antt =====
-- foxtails/src/main.c from its start to its end, on a small configuration.
use foxtails.Base.{
  ◌+◌, true, false, not, ◌&&◌, none, some, List, [], ◌∷◌, ◌++◌, ◌≡◌, ◌≢◌, refl, arith,
}
use foxtails.Base.Bytes.{
  Bytes, codes, c_str, drop_while, full_lines, lines_from, is_space, memchr, starts_with,
}
use foxtails.Base.Decimal.{pos, negsuc, strtol, read_digits, int_of_long}
use foxtails.Config.Open.{config_parse, open_and_map}
use foxtails.Config.Print.{print_config}
use foxtails.Config.{
  config_get, config_get_int, find_section, find_key, key_line, section_line, section_of,
  behind_key, value_from, split_key, int_of_lookup,
}
use foxtails.Host.Started.{IsStarted, server_init_common-IsStarted}
use foxtails.Host.{
  InitAnswers, PoolAnswers, init_table, server_init_common, server_init_http, start_threads,
  worker_pool_init,
}
use foxtails.Life.Invariant.{count_in}
use foxtails.Main.Defaults.{Choice, IsChoice, sections, settings_of, read_settings-sections}
use foxtails.Main.Resources.{main_releases}
use foxtails.Main.Opening.{is_mapped}
use foxtails.Main.{
  StartAnswers, Started, Settings, read_settings, int_setting, init_server, listen_main, start_with,
  start_main, end_main,
}
use foxtails.Routing.Open.{routes_parse_file}
use foxtails.Routing.{routes_parse}
use foxtails.Run.Count.{descriptor, releases, obtains, is_fd}
use foxtails.Run.{returned, exited}
use foxtails.Server.Slots.{one_if}
use foxtails.Server.{
  Effect, Socket, open_fd, allocate_address, bind_port, set_nonblocking, start_worker, epoll_listen,
  listen_on, close_fd, free_address, map_file, server_init, push_slots, int_stack_push,
}
use foxtails.Sockets.Balance.{IsCreated, IsAccepted, IsConnected, sockets_balance}
use foxtails.Sockets.Connect.{Connecting, socket_create_auto}
use foxtails.Sockets.Create.{
  Binding, accepted, u16, socket_create_http, socket_create_unix, socket_listen, socket_accept,
}
use foxtails.Tests.LifeTests.{
  layout, layout-IsReadable, two_free, at_start, at_start-Reach, at_start-IsOrderly,
}
use foxtails.Tests.ServeTests.{site}
use foxtails.Workers.{init_queue}

abbrev binding : Binding
binding = record { fd = some 3; reuse_ok = true; address = some 1; bind_ok = true }

-- bind fails: the address is freed and the descriptor closed.
taken_test :
    socket_create_http (record binding { bind_ok = false }) (pos 80)
    ≡ (exited, open_fd 3 ∷ allocate_address 1 ∷ free_address 1 ∷ close_fd 3 ∷ [])
unfolding socket_create_http
taken_test = refl

-- A port beyond 16 bits
port_test : (u16 (pos 65616) ≡ 80) × (u16 (negsuc 0) ≡ 65535)
unfolding u16
port_test = (refl, refl)

abbrev pub backend : Connecting
backend = record {
  fd = pos 8;
  address = some 6;
  is_address = λ ip. true;
  connect_ok = λ ip port. false;
}

backend_fd : backend.fd ≢ pos 0
backend_fd h = absurd (cc)

sockets_balance_example :
    IsCreated binding (socket_create_http binding (pos 80))
    × IsCreated binding (socket_create_unix binding (codes "/tmp/s"))
    × IsAccepted (some 2) (accepted 7) (socket_accept (some 2) (accepted 7))
    × IsConnected backend
        (codes "http://127.0.0.1:4001")
        (socket_create_auto backend (pos 5) (codes "http://127.0.0.1:4001"))
sockets_balance_example =
    sockets_balance binding (pos 80) (codes "/tmp/s") (some 2) (accepted 7) backend (pos 5)
      (codes "http://127.0.0.1:4001") backend_fd

-- socket answers 0: the descriptor is neither used nor closed.
zero_test :
    socket_create_auto (record backend { fd = pos 0 }) (pos 5) (codes "http://127.0.0.1:4001")
    ≡ (none, open_fd 0 ∷ [])
unfolding socket_create_auto starts_with
zero_test = refl

abbrev pool : PoolAnswers
pool = record {
  workers_memory = true;
  queue_memory = true;
  data_memory = true;
  thread = λ i. record { args_memory = true; create_ok = true };
}

abbrev init : InitAnswers
init = record {
  pool = pool;
  clients_memory = true;
  epoll = some 4;
  register_ok = true;
  list_memory = true;
}

abbrev listening : Socket
listening = record { fd = 3; address = 1 }

server_init_common-IsStarted_example :
    IsStarted init (pos 2) (pos 1) listening (server_init_common init (pos 2) (pos 1) listening)
server_init_common-IsStarted_example = server_init_common-IsStarted init (pos 2) (pos 1) listening

abbrev choice : Choice
choice = record {
  log_level = none;
  num_workers = some 4;
  max_connections = some 0;
  keep_alive_timeout = none;
  backend_timeout = some 9;
  unix_path = none;
  port = some 80;
}

choice-IsChoice : IsChoice choice
choice-IsChoice = record {
  log_level = tt;
  num_workers = omega arith;
  max_connections = omega arith;
  keep_alive_timeout = tt;
  backend_timeout = omega arith;
  unix_path = tt;
  port = omega arith;
}

read_settings-sections_example :
    read_settings (print_config (sections choice)) ≡ some (settings_of choice)
read_settings-sections_example = read_settings-sections choice choice-IsChoice

abbrev config_text : Bytes
config_text = codes "[server]\nmax-connections = 2\nnum-workers = 1\n"

abbrev answers : StartAnswers
answers = record {
  config = record { fd = some 5; size = some 45; content = some config_text };
  routes = record { fd = none; size = none; content = none };
  routes_memory = λ n. true;
  binding = binding;
  init = init;
  listen_ok = true;
}

abbrev settings : Settings
settings = record {
  log_level = pos 0;
  num_workers = pos 1;
  max_connections = pos 2;
  keep_alive_timeout = pos 75;
  backend_timeout = pos 5;
  unix_path = none;
  port = pos 8080;
}

config_test : read_settings config_text ≡ some settings
unfolding read_settings int_setting config_get_int int_of_lookup config_get find_section find_key
    key_line section_line section_of behind_key value_from split_key c_str drop_while full_lines
    lines_from is_space memchr starts_with strtol read_digits int_of_long
config_test = refl

abbrev begun : Started
begun = record {
  config = record { map = config_text; fd = 5 };
  settings = settings;
  routes = [];
  host = record {
    server = two_free;
    socket = listening;
    workers = record { num_workers = 1; queue = init_queue };
    epoll_instance = 4;
  };
}

abbrev asked : List Effect
asked =
    open_fd 5
    ∷ map_file 5
    ∷ open_fd 3
    ∷ allocate_address 1
    ∷ bind_port 3 8080
    ∷ set_nonblocking 3
    ∷ start_worker 0
    ∷ open_fd 4
    ∷ epoll_listen 3
    ∷ listen_on 3 1
    ∷ []

starts : start_main answers ≡ (returned begun, asked)
unfolding start_main start_with listen_main config_parse routes_parse_file routes_parse init_server
    server_init_http server_init_common init_table worker_pool_init start_threads socket_create_http
    socket_listen server_init push_slots int_stack_push u16 open_and_map
starts = rw config_test refl

main_releases_example :
    releases (descriptor 3) (asked ++ (at_start.server.effects ++ end_main begun at_start.server))
    ≡ obtains (descriptor 3) asked
      + (count_in (descriptor 3) at_start.opened
          + one_if (not (is_mapped answers.config) && is_fd (descriptor 3) 0))
main_releases_example =
    main_releases site layout answers begun asked at_start starts layout-IsReadable (omega arith)
      at_start-Reach at_start-IsOrderly (descriptor 3)
