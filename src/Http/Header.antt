-- ===== src/Http/Header.antt =====
-- utils/http.c: http_set_header, http_get_header, http_has_header and http_is_keep_alive. Names
-- are compared without case. The copies that pstrdup makes are values here.
pub mod Table
pub mod Laws
use foxtails.Base.{
  suc, ◌≤◌, Bool, true, false, not, Option, none, some, List, [], ◌∷◌, ◌++◌, length, leb,
  if◌then◌else◌, ◌≡◌, refl, ap, arith,
}
use foxtails.Base.Bytes.{Bytes, codes, equal_ci, equal_ci_comm, equal_ci_cong}
use foxtails.Http.Message.{Header, Http, max_headers}

-- The loop of http_set_header: the first header of that name gets the value; `none` if there is
-- none of that name.
unfoldable pub replace_value : List Header → Bytes → Bytes → Option (List Header)
replace_value [] name value = none
replace_value (h ∷ hs) name value =
    if equal_ci h.name name
    then some (record h { value = value } ∷ hs)
    else (elim (replace_value hs name value) [ none ↦ none | some hs' ↦ some (h ∷ hs') ])

-- http_set_header on the table: whether it took the header, and the table after.
unfoldable pub set_header : List Header → Bytes → Bytes → Bool × List Header
unfolding replace_value
set_header hs name value = elim (replace_value hs name value) [
  | some hs' ↦ (true, hs')
  | none ↦
      if leb max_headers (length hs)
      then (false, hs)
      else (true, hs ++ record { name = name; value = value } ∷ [])
]

-- http_get_header
unfoldable pub get_header : List Header → Bytes → Option Bytes
get_header [] name = none
get_header (h ∷ hs) name = if equal_ci h.name name then some h.value else get_header hs name

-- http_has_header
unfoldable pub has_header : List Header → Bytes → Bool
unfolding get_header
has_header hs name = elim (get_header hs name) [ none ↦ false | some v ↦ true ]

-- http_is_keep_alive
unfoldable pub is_keep_alive : Http → Bool
unfolding get_header
is_keep_alive msg = elim (get_header msg.headers (codes "Connection")) [
  | none ↦ true
  | some value ↦ not (equal_ci value (codes "close"))
]
