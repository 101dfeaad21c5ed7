-- ===== src/Config/Print.antt =====
-- A printer of configuration files, and what a file means, as a reference for config_get.
use foxtails.Base.{
  ℕ, Bool, true, false, not, ◌&&◌, ◌||◌, List, [], ◌∷◌, ◌++◌, map, All, ◌==◌, if◌then◌else◌, ◌≡◌,
  refl, arith,
}
use foxtails.Base.Bytes.{Bytes, is_space, starts_with}
use foxtails.Base.Words.{none_of, IsWord, none_of-append, none_of-subset, none_of-word, print_lines}
use foxtails.Config.{Lookup, missing, value}

-- A line `key=value`
pub record Entry : Type 0 where
  pub key : Bytes
  pub val : Bytes

pub record Section : Type 0 where
  pub name : Bytes
  pub entries : List Entry

unfoldable pub entry_line : Entry → Bytes
entry_line e = e.key ++ (b'=' ∷ e.val)

unfoldable pub heading : Bytes → Bytes
heading name = b'[' ∷ (name ++ b']' ∷ [])

unfoldable pub section_lines : List Section → List Bytes
section_lines [] = []
section_lines (s ∷ ss) = heading s.name ∷ (map entry_line s.entries ++ section_lines ss)

-- A file of sections
unfoldable pub print_config : List Section → Bytes
print_config ss = print_lines (section_lines ss)

-- The bytes that end a line or a C string
abbrev pub ends_line : ℕ → Bool
ends_line c = c == b'\n' || c == 0

-- The bytes that keys lack
abbrev pub ends_key : ℕ → Bool
ends_key c = c == b' ' || c == b'=' || c == b'[' || c == b'#' || c == b'\n' || c == 0

abbrev pub ends_name : ℕ → Bool
ends_name c = c == b']' || c == b'\n' || c == 0

-- A value: not empty, on one line, and with no space in front
abbrev pub is_value : Bytes → Bool
is_value [] = false
is_value (c ∷ cs) = not (is_space c) && none_of ends_line (c ∷ cs)

abbrev pub IsEntry : Entry → Type 0
IsEntry e = IsWord ends_key e.key × (is_value e.val ≡ true)

abbrev pub IsSection : Section → Type 0
IsSection s = (none_of ends_name s.name ≡ true) × All IsEntry s.entries

-- The first entry whose key begins the key that is looked for
unfoldable pub find_entry : Bytes → List Entry → Lookup
find_entry key [] = missing
find_entry key (e ∷ es) = if starts_with e.key key then value e.val else find_entry key es

-- The first section whose name begins the name that is looked for
unfoldable pub find_named : Bytes → Bytes → List Section → Lookup
find_named name key [] = missing
find_named name key (s ∷ ss) =
    if starts_with s.name name then find_entry key s.entries else find_named name key ss

none_of-value : (v : Bytes) → is_value v ≡ true → none_of ends_line v ≡ true
none_of-value [] h = refl
none_of-value (c ∷ cs) h = ground arith

-- A printed entry and a printed heading are one line each.
pub entry_line-none_of : (e : Entry) → IsEntry e → none_of ends_line (entry_line e) ≡ true
unfolding entry_line
entry_line-none_of e h =
    none_of-append ends_line e.key (b'=' ∷ e.val)
      (none_of-subset ends_line ends_key (λ x k. ground arith) e.key
        (none_of-word ends_key e.key h.0))
      (none_of-value e.val h.1)

pub heading-none_of :
    (name : Bytes) → none_of ends_name name ≡ true → none_of ends_line (heading name) ≡ true
unfolding heading
heading-none_of name h =
    none_of-append ends_line name (b']' ∷ [])
      (none_of-subset ends_line ends_name (λ x k. ground arith) name h) refl

-- Lines that neither a newline nor a NUL ends
abbrev pub IsLine : Bytes → Type 0
IsLine line = none_of ends_line line ≡ true

All-IsLine : (ls ms : List Bytes) → All IsLine ls → All IsLine ms → All IsLine (ls ++ ms)
All-IsLine [] ms h k = k
All-IsLine (l ∷ ls) ms h k = (h.0, All-IsLine ls ms h.1 k)

entries-IsLine : (es : List Entry) → All IsEntry es → All IsLine (map entry_line es)
entries-IsLine [] h = tt
entries-IsLine (e ∷ es) h = (entry_line-none_of e h.0, entries-IsLine es h.1)

pub section_lines-IsLine : (ss : List Section) → All IsSection ss → All IsLine (section_lines ss)
unfolding section_lines
section_lines-IsLine [] h = tt
section_lines-IsLine (s ∷ ss) h = (
  heading-none_of s.name h.0.0,
  All-IsLine (map entry_line s.entries) (section_lines ss) (entries-IsLine s.entries h.0.1)
      (section_lines-IsLine ss h.1),
)
