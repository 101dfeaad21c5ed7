-- ===== src/Routing/Open.antt =====
-- utils/routing.c: routes_parse, with the file that it opens, maps, and closes again.
use foxtails.Base.{ℕ, Bool, Option, none, some, List, [], ◌∷◌, ◌++◌}
use foxtails.Config.Open.{FileAnswers, Mapped, open_and_map}
use foxtails.Routing.{Route, routes_parse}
use foxtails.Server.{Effect, close_fd, unmap_file}

abbrev routes_of : (ℕ → Bool) → Option Mapped → List Route × List Effect
routes_of memory none = (routes_parse memory none, [])
routes_of memory (some file) =
    (routes_parse memory (some (file.content)), unmap_file file.fd ∷ close_fd file.fd ∷ [])

unfoldable pub routes_parse_file : (ℕ → Bool) → FileAnswers → List Route × List Effect
unfolding open_and_map
routes_parse_file memory os =
    let (mapped, asked) = open_and_map os.fd os.size os.content in
    let (routes, closing) = routes_of memory mapped in (routes, asked ++ closing)
