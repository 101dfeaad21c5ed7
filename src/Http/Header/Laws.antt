-- ===== src/Http/Header/Laws.antt =====
-- The header table as a bounded map whose keys are names up to case.
use foxtails.Base.{
  Bool, true, false, not, ◌&&◌, Option, none, some, List, [], ◌∷◌, ◌++◌, length, length-append, leb,
  if◌then◌else◌, ◌≡◌, refl, arith, Bool-cases, inl, inr,
}
use foxtails.Base.Bytes.{Bytes, equal_ci}
use foxtails.Http.Header.{replace_value, set_header, get_header, has_header}
use foxtails.Http.Header.Table.{
  Lacks, IsValid, Replaced, replace_value-Replaced, get_header-append, get_header-append_other,
  Lacks-cong, Distinct-append,
}
use foxtails.Http.Message.{Header, max_headers}

-- The answer of http_set_header, from what its loop found.
abbrev finish_set : List Header → Bytes → Bytes → Option (List Header) → Bool × List Header
finish_set hs name value o = elim o [
  | some hs' ↦ (true, hs')
  | none ↦
      if leb max_headers (length hs)
      then (false, hs)
      else (true, hs ++ record { name = name; value = value } ∷ [])
]

finish_set-IsValid :
    (hs : List Header) (name value : Bytes) (o : Option (List Header))
    → Replaced hs name value o
    → IsValid hs
    → IsValid (finish_set hs name value o).1
finish_set-IsValid hs name value none l v = elim (Bool-cases (leb max_headers (length hs))) [
  | inl full ↦ rw full v
  | inr room ↦ rw room (record {
    fits = ground (arith, length-append hs (record { name = name; value = value } ∷ []));
    distinct = Distinct-append hs (record { name = name; value = value }) v.distinct l;
  })
]
finish_set-IsValid hs name value (some hs') (got, len, lacks, distinct) v = record {
  fits = omega arith;
  distinct = distinct v.distinct;
}

-- http_set_header keeps the table within HTTP_MAX_HEADERS, and keeps its names different up to
-- case.
pub set_header-IsValid :
    (hs : List Header) (name value : Bytes) → IsValid hs → IsValid (set_header hs name value).1
unfolding set_header
set_header-IsValid hs name value v =
    finish_set-IsValid hs name value (replace_value hs name value)
      (replace_value-Replaced hs name value) v

get_header_of_Lacks : (hs : List Header) (m : Bytes) → Lacks m hs → get_header hs m ≡ none
unfolding get_header
get_header_of_Lacks [] m l = refl
get_header_of_Lacks (h ∷ hs) m l = rw l.0 (get_header_of_Lacks hs m l.1)

get_header-finish_set :
    (hs : List Header) (name value m : Bytes) (o : Option (List Header))
    → Replaced hs name value o
    → get_header (finish_set hs name value o).1 m ≡ (
        if (finish_set hs name value o).0
        then (if equal_ci name m then some value else get_header hs m)
        else get_header hs m)
get_header-finish_set hs name value m none l = elim (Bool-cases (leb max_headers (length hs))) [
  | inl full ↦ rw full
  | inr room ↦ rw room (elim (Bool-cases (equal_ci name m)) [
    | inl same ↦ rw same (
        rw
          (get_header-append hs (record { name = name; value = value }) m
            (Lacks-cong hs name m same l))
          (rw same))
    | inr other ↦
        rw other (get_header-append_other hs (record { name = name; value = value }) m other)
  ])
]
get_header-finish_set hs name value m (some hs') (got, len, lacks, distinct) = got m

-- A header that was taken is found under every spelling of its name, the others keep their values,
-- and a header that was dropped changes nothing.
pub get_header-set_header :
    (hs : List Header) (name value m : Bytes)
    → get_header (set_header hs name value).1 m ≡ (
        if (set_header hs name value).0
        then (if equal_ci name m then some value else get_header hs m)
        else get_header hs m)
unfolding set_header
get_header-set_header hs name value m =
    get_header-finish_set hs name value m (replace_value hs name value)
      (replace_value-Replaced hs name value)

has_header-replace_value :
    (hs : List Header) (name value : Bytes)
    → has_header hs name ≡ (elim (replace_value hs name value) [ none ↦ false | some hs' ↦ true ])
unfolding has_header replace_value
has_header-replace_value [] name value = refl
has_header-replace_value (h ∷ hs) name value =
    ground (arith, has_header-replace_value hs name value)

-- http_set_header drops a header exactly when the table is full and holds none of that name; the
-- table is then unchanged.
set_header_drops :
    (hs : List Header) (name value : Bytes)
    → ((set_header hs name value).0 ≡ not (leb max_headers (length hs) && not (has_header hs name)))
      × ((set_header hs name value).0 ≡ false → (set_header hs name value).1 ≡ hs)
unfolding set_header
set_header_drops hs name value =
    (ground (arith, has_header-replace_value hs name value), λ e. ground arith)
