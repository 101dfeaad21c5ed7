-- ===== src/Config.antt =====
-- utils/config.c: config_get and config_get_int. The content of the mapped file is an argument; it
-- is empty where config_parse could not map one.
pub mod Print
pub mod Find
pub mod Open
use foxtails.Base.{
  ℕ, Bool, true, false, ◌&&◌, ◌||◌, Option, none, some, List, [], ◌∷◌, drop, length, ◌==◌,
  if◌then◌else◌,
}
use foxtails.Base.Bytes.{Bytes, c_str, drop_while, full_lines, is_space, memchr, starts_with}
use foxtails.Base.Decimal.{ℤ, pos, strtol, int_of_long}

-- What config_get comes to: NULL, a string, or a walk past the end of the line.
pub data Lookup : Type 0 where
  missing : Lookup
  value : Bytes → Lookup
  overrun : Lookup

-- strpbrk(line, " ="): the bytes in front of the first of them, and those from it on
unfoldable pub split_key : Bytes → Option (Bytes × Bytes)
split_key [] = none
split_key (c ∷ cs) = elim (c == b' ' || c == b'=') [
  | true ↦ some ([], c ∷ cs)
  | false ↦ elim (split_key cs) [ none ↦ none | some (key, rest) ↦ some (c ∷ key, rest) ]
]

abbrev pub all_space : Bytes → Bool
all_space [] = true
all_space (c ∷ cs) = is_space c && all_space cs

-- The value from the place behind the `=`. When only spaces are left in the line, the loop over
-- them goes on behind the line, and value_len wraps round.
unfoldable pub value_from : Bytes → Lookup
value_from raw = if all_space raw then overrun else value (drop_while is_space (c_str raw))

-- The bytes from `key_end` on, up to the end of the line: spaces, and one more byte. If the line
-- ends with these spaces, that byte is the NUL, and the search for the end starts behind it.
unfoldable pub behind_key : Bytes → Lookup
unfolding value_from
behind_key raw = elim (drop_while is_space raw) [
  | [] ↦ overrun
  | c ∷ cs ↦ if c == 0 then overrun else value_from cs
]

-- A line of the section that was found; `none` where the loop continues.
unfoldable pub key_line : Bytes → Bytes → Option Lookup
unfolding split_key behind_key
key_line key [] = some missing
key_line key (c ∷ cs) = if c == b'[' then some missing else (elim (split_key (c_str (c ∷ cs))) [
  | none ↦ some missing
  | some (k, _) ↦ if starts_with k key then some (behind_key (drop (length k) (c ∷ cs))) else none
])

-- Whether the copy of a line is the heading of the section; `none` is the return for a bracket that
-- is not closed.
unfoldable pub section_of : Bytes → Bytes → Option Bool
section_of section [] = some false
section_of section (c ∷ cs) =
    if c == b'['
    then (elim (memchr b']' cs) [ none ↦ none | some (name, _) ↦ some (starts_with name section) ])
    else some false

-- A line in front of the section
unfoldable pub section_line : Bytes → Bytes → Option Bool
unfolding section_of
section_line section line = section_of section (c_str line)

abbrev pub is_skipped : Bytes → Bool
is_skipped [] = true
is_skipped (c ∷ cs) = c == b'#'

-- The loop of config_get, once the section is found
unfoldable pub find_key : Bytes → List Bytes → Lookup
find_key key [] = missing
find_key key (line ∷ lines) =
    if is_skipped line
    then find_key key lines
    else (elim (key_line key line) [ none ↦ find_key key lines | some answer ↦ answer ])

-- The loop of config_get up to the section
unfoldable pub find_section : Bytes → Bytes → List Bytes → Lookup
unfolding find_key
find_section section key [] = missing
find_section section key (line ∷ lines) =
    let rest = find_section section key lines in
    if is_skipped line then rest else (elim (section_line section line) [
      | none ↦ missing
      | some found ↦ if found then find_key key lines else rest
    ])

unfoldable pub config_get : Bytes → Bytes → Bytes → Lookup
unfolding find_section
config_get map section key = find_section section key (full_lines map)

-- The answer of config_get_int for what config_get came to; `none` where that walked too far.
unfoldable pub int_of_lookup : Lookup → Option ℤ
int_of_lookup missing = some (pos 0)
int_of_lookup (value val) = some (int_of_long (strtol val))
int_of_lookup overrun = none

unfoldable pub config_get_int : Bytes → Bytes → Bytes → Option ℤ
unfolding int_of_lookup
config_get_int map section key = int_of_lookup (config_get map section key)
