-- ===== src/Config/Find.antt =====
-- utils/config.c: config_get finds in a printed file what the file means.
use foxtails.Base.{
  drop-length-append, Bool, true, false, none, some, List, [], ◌∷◌, ◌++◌, map, All, ◌==◌,
  if◌then◌else◌, ◌≡◌, refl, ap, ◌∙◌, arith,
}
use foxtails.Base.Bytes.{Bytes, c_str, is_space, is_byte, starts_with, drop_while, memchr-append}
use foxtails.Base.Words.{
  none_of, IsWord, none_of-subset, full_lines-print_lines, c_str-none_of, Free-none_of,
}
use foxtails.Config.Print.{
  Entry, Section, entry_line, heading, section_lines, print_config, ends_line, ends_key, ends_name,
  is_value, IsEntry, IsSection, IsLine, find_entry, find_named, entry_line-none_of, heading-none_of,
  section_lines-IsLine,
}
use foxtails.Config.{
  Lookup, missing, value, split_key, value_from, behind_key, key_line, section_line, section_of,
  is_skipped, find_key, find_section, config_get,
}

line_c_str : (line : Bytes) → IsLine line → c_str line ≡ line
line_c_str line h =
    c_str-none_of line (none_of-subset (is_byte 0) ends_line (λ x k. ground arith) line h)

split_key_lem :
    (key rest : Bytes)
    → none_of ends_key key ≡ true
    → split_key (key ++ b'=' ∷ rest) ≡ some (key, b'=' ∷ rest)
unfolding split_key
split_key_lem [] rest h = refl
split_key_lem (c ∷ key) rest h = ground (arith, split_key_lem key rest)

value_from_lem : (v : Bytes) → is_value v ≡ true → c_str v ≡ v → value_from v ≡ value v
unfolding value_from drop_while
value_from_lem [] h k = absurd (ground arith)
value_from_lem (c ∷ cs) h k = let plain : is_space c ≡ false = ground arith in rw (k, plain) refl

value_c_str : (v : Bytes) → is_value v ≡ true → c_str v ≡ v
value_c_str [] h = absurd (ground arith)
value_c_str (c ∷ cs) h = line_c_str (c ∷ cs) (ground arith)

behind_key_lem : (v : Bytes) → is_value v ≡ true → behind_key (b'=' ∷ v) ≡ value v
unfolding behind_key drop_while is_space
behind_key_lem v h = value_from_lem v h (value_c_str v h)

key_line_lem :
    (key k v : Bytes)
    → IsWord ends_key k
    → is_value v ≡ true
    → c_str (k ++ b'=' ∷ v) ≡ k ++ b'=' ∷ v
    → key_line key (k ++ b'=' ∷ v) ≡ (if starts_with k key then some (value v) else none)
unfolding key_line
key_line_lem key [] v h hv c = absurd (ground arith)
key_line_lem key (x ∷ k) v h hv c =
    let plain : (x == b'[') ≡ false = ground arith in
    rw (plain, c, split_key_lem (x ∷ k) v h)
      (rw (drop-length-append (x ∷ k) (b'=' ∷ v), behind_key_lem v hv) refl)

key_line-entry :
    (key : Bytes) (e : Entry)
    → IsEntry e
    → key_line key (entry_line e) ≡ (if starts_with e.key key then some (value e.val) else none)
unfolding entry_line
key_line-entry key e h =
    key_line_lem key e.key e.val h.0 h.1
      (line_c_str (e.key ++ b'=' ∷ e.val) (entry_line-none_of e h))

-- A printed entry is no comment, and no heading of a section.
entry_kind :
    (section k v : Bytes)
    → IsWord ends_key k
    → c_str (k ++ b'=' ∷ v) ≡ k ++ b'=' ∷ v
    → (is_skipped (k ++ b'=' ∷ v) ≡ false) × (section_line section (k ++ b'=' ∷ v) ≡ some false)
unfolding section_line section_of
entry_kind section [] v h c = absurd (ground arith)
entry_kind section (x ∷ k) v h c =
    let plain : (x == b'[') ≡ false = ground arith in
    (ground arith, ap (section_of section) c ∙ rw plain refl)

entry-kind :
    (section : Bytes) (e : Entry)
    → IsEntry e
    → (is_skipped (entry_line e) ≡ false) × (section_line section (entry_line e) ≡ some false)
unfolding entry_line
entry-kind section e h =
    entry_kind section e.key e.val h.0 (line_c_str (e.key ++ b'=' ∷ e.val) (entry_line-none_of e h))

section_line-heading :
    (section name : Bytes)
    → none_of ends_name name ≡ true
    → section_line section (heading name) ≡ some (starts_with name section)
unfolding section_line section_of heading
section_line-heading section name h =
    ap (section_of section) (line_c_str (b'[' ∷ (name ++ b']' ∷ [])) (heading-none_of name h))
    ∙ rw
        (memchr-append b']' name [] (
          Free-none_of (is_byte b']') name
            (none_of-subset (is_byte b']') ends_name (λ x k. ground arith) name h)))
        refl

-- The section that was found ends at the next heading.
find_key-end : (key : Bytes) (ss : List Section) → find_key key (section_lines ss) ≡ missing
unfolding find_key section_lines heading key_line
find_key-end key [] = refl
find_key-end key (s ∷ ss) = refl

newline_free :
    (lines : List Bytes) → All IsLine lines → All (λ l. none_of (is_byte b'\n') l ≡ true) lines
newline_free [] h = tt
newline_free (l ∷ lines) h =
    (none_of-subset (is_byte b'\n') ends_line (λ x k. ground arith) l h.0, newline_free lines h.1)

-- The answer of a line, or that of the lines behind it
key_step :
    (b : Bool) (v : Bytes) (rest answer : Lookup)
    → rest ≡ answer
    → (elim (if b then some (value v) else none) [ none ↦ rest | some found ↦ found ])
      ≡ (if b then value v else answer)
key_step true v rest answer h = refl
key_step false v rest answer h = h

find_key-entries :
    (key : Bytes) (es : List Entry) (ss : List Section)
    → All IsEntry es
    → find_key key (map entry_line es ++ section_lines ss) ≡ find_entry key es
unfolding find_key find_entry
find_key-entries key [] ss h = find_key-end key ss
find_key-entries key (e ∷ es) ss h =
    rw ((entry-kind [] e h.0).0, key_line-entry key e h.0)
      (key_step (starts_with e.key key) e.val _ _ (find_key-entries key es ss h.1))

-- The entries of a section that is not looked for are passed over.
find_section-entries :
    (section key : Bytes) (es : List Entry) (lines : List Bytes)
    → All IsEntry es
    → find_section section key (map entry_line es ++ lines) ≡ find_section section key lines
unfolding find_section
find_section-entries section key [] lines h = refl
find_section-entries section key (e ∷ es) lines h =
    let (kept, other) = entry-kind section e h.0 in
    rw (kept, other) (find_section-entries section key es lines h.1)

section_step :
    (b : Bool) (found rest found' rest' : Lookup)
    → found ≡ found'
    → rest ≡ rest'
    → (if b then found else rest) ≡ (if b then found' else rest')
section_step true found rest found' rest' h k = h
section_step false found rest found' rest' h k = k

find_section-lines :
    (section key : Bytes) (ss : List Section)
    → All IsSection ss
    → find_section section key (section_lines ss) ≡ find_named section key ss
unfolding find_section section_lines find_named heading
find_section-lines section key [] h = refl
find_section-lines section key (s ∷ ss) h = rw (section_line-heading section s.name h.0.0) (
    section_step (starts_with s.name section) _ _ _ _ (find_key-entries key s.entries ss h.0.1) (
      find_section-entries section key s.entries (section_lines ss) h.0.1
      ∙ find_section-lines section key ss h.1))

-- In a file that is a printed list of sections, config_get answers with the value of the first
-- entry whose key is a prefix of the key, in the first section whose name is a prefix of the name.
-- It answers NULL if that section has no such entry, or if there is no such section. Names have no
-- `]`, keys have neither spaces nor `=`, `[` or `#`, and values do not start with a space.
pub config_get-print_config :
    (section key : Bytes) (ss : List Section)
    → All IsSection ss
    → config_get (print_config ss) section key ≡ find_named section key ss
unfolding config_get print_config
config_get-print_config section key ss h =
    ap (find_section section key) (
      full_lines-print_lines (section_lines ss)
        (newline_free (section_lines ss) (section_lines-IsLine ss h)))
    ∙ find_section-lines section key ss h
