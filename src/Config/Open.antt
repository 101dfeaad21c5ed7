-- ===== src/Config/Open.antt =====
-- utils/config.c: config_parse and config_delete, and what opening and mapping a file comes to.
use foxtails.Base.{ℕ, ◌==◌, Option, none, some, List, [], ◌∷◌, if◌then◌else◌}
use foxtails.Base.Bytes.{Bytes}
use foxtails.Server.{Effect, open_fd, close_fd, map_file, unmap_file}

-- The answers of open, of fstat (the size), and of mmap (the content)
pub record FileAnswers : Type 0 where
  pub fd : Option ℕ
  pub size : Option ℕ
  pub content : Option Bytes

-- A file that is open and mapped
pub record Mapped : Type 0 where
  pub fd : ℕ
  pub content : Bytes

abbrev map_opened : ℕ → Option Bytes → Option Mapped × List Effect
map_opened fd none = (none, close_fd fd ∷ [])
map_opened fd (some content) = (some (record { fd = fd; content = content }), map_file fd ∷ [])

abbrev measure_opened : ℕ → Option ℕ → Option Bytes → Option Mapped × List Effect
measure_opened fd none content = (none, close_fd fd ∷ [])
measure_opened fd (some size) content =
    if size == 0 then (none, close_fd fd ∷ []) else map_opened fd content

-- open, fstat and mmap as config_parse and routes_parse call them
unfoldable pub open_and_map : Option ℕ → Option ℕ → Option Bytes → Option Mapped × List Effect
open_and_map none size content = (none, [])
open_and_map (some fd) size content =
    let (mapped, asked) = measure_opened fd size content in (mapped, open_fd fd ∷ asked)

-- config_t: all zero where the file could not be mapped
pub record ConfigFile : Type 0 where
  pub map : Bytes
  pub fd : ℕ

abbrev pub config_of : Option Mapped → ConfigFile
config_of none = record { map = []; fd = 0 }
config_of (some file) = record { map = file.content; fd = file.fd }

unfoldable pub config_parse : FileAnswers → ConfigFile × List Effect
unfolding open_and_map
config_parse os =
    let (mapped, asked) = open_and_map os.fd os.size os.content in (config_of mapped, asked)

-- config_delete, which does not ask whether the file was mapped
unfoldable pub config_delete : ConfigFile → List Effect
config_delete conf = unmap_file conf.fd ∷ close_fd conf.fd ∷ []
