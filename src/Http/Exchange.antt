-- ===== src/Http/Exchange.antt =====
-- utils/http.c, both ends of a connection: what http_send_request sends is what http_request_parse
-- reads. The header block as a text of lines with CR LF between them.
pub mod Blank
pub mod Fields
pub mod Message
pub mod Request
pub mod Response
use foxtails.Base.{
  ℕ, Bool, true, false, not, ◌&&◌, ◌||◌, List, [], ◌∷◌, ◌++◌, map, All, ◌==◌, ◌<◌, length, ◌≡◌,
}
use foxtails.Base.Bytes.{Bytes}
use foxtails.Base.Words.{none_of}
use foxtails.Http.Header.Table.{Lacks}
use foxtails.Http.Message.{Header, max_headers}

-- The bytes that end a line for the parser
abbrev pub ends_text : ℕ → Bool
ends_text c = c == b'\r' || c == b'\n' || c == 0

abbrev pub ends_field_name : ℕ → Bool
ends_field_name c = c == b':' || ends_text c

abbrev pub no_space_first : Bytes → Bool
no_space_first [] = true
no_space_first (c ∷ cs) = not (c == b' ')

-- A header that can be printed on one line
abbrev pub IsField : Header → Type 0
IsField h =
    (none_of ends_field_name h.name ≡ true)
    × (none_of ends_text h.value ≡ true)
    × (no_space_first h.value ≡ true)

-- Each header has a name that the ones in front lack, and there is room for it.
abbrev pub Fresh : List Header → List Header → Type 0
Fresh before [] = Unit
Fresh before (h ∷ hs) =
    Lacks h.name before × (length before < max_headers) × Fresh (before ++ h ∷ []) hs

-- `name: value`
abbrev pub field_line : Header → Bytes
field_line h = h.name ++ (b':' ∷ b' ' ∷ h.value)

-- Each further line with CR LF in front
unfoldable pub more_lines : List Bytes → Bytes
more_lines [] = []
more_lines (l ∷ ls) = b'\r' ∷ b'\n' ∷ (l ++ more_lines ls)
