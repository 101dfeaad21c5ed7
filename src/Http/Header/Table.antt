-- ===== src/Http/Header/Table.antt =====
-- What the loop of http_set_header does to the table, and what a header behind the others changes.
use foxtails.Base.{
  suc, ◌≤◌, Bool, true, false, Option, none, some, List, [], ◌∷◌, ◌++◌, length, if◌then◌else◌, ◌≡◌,
  refl, ap, arith,
}
use foxtails.Base.Bytes.{Bytes, equal_ci, equal_ci_comm, equal_ci_cong}
use foxtails.Http.Header.{replace_value, get_header}
use foxtails.Http.Message.{Header, max_headers}

-- No header of that name is in the table.
abbrev pub Lacks : Bytes → List Header → Type 0
Lacks name [] = Unit
Lacks name (h ∷ hs) = (equal_ci h.name name ≡ false) × Lacks name hs

-- The table as http_set_header keeps it: it fits, and no name stands twice.
abbrev pub Distinct : List Header → Type 0
Distinct [] = Unit
Distinct (h ∷ hs) = Lacks h.name hs × Distinct hs

pub record IsValid (hs : List Header) : Type 0 where
  pub fits : length hs ≤ max_headers
  pub distinct : Distinct hs

-- What the loop of http_set_header does.
abbrev pub Replaced : List Header → Bytes → Bytes → Option (List Header) → Type 0
Replaced hs name value none = Lacks name hs
Replaced hs name value (some hs') =
    ((m : Bytes) → get_header hs' m ≡ (if equal_ci name m then some value else get_header hs m))
    × (length hs' ≡ length hs)
    × ((m : Bytes) → Lacks m hs → Lacks m hs')
    × (Distinct hs → Distinct hs')

replace_value_step :
    (h : Header) (hs : List Header) (name value : Bytes) (hit : Bool) (o : Option (List Header))
    → equal_ci h.name name ≡ hit
    → Replaced hs name value o
    → Replaced (h ∷ hs) name value (
        if hit
        then some (record h { value = value } ∷ hs)
        else (elim o [ none ↦ none | some hs' ↦ some (h ∷ hs') ]))
unfolding get_header
replace_value_step h hs name value true o e r =
    (λ m. ground (arith, equal_ci_cong h.name name m), refl, λ m l. l, λ d. d)
replace_value_step h hs name value false none e r = (e, r)
replace_value_step h hs name value false (some hs') e (got, len, lacks, distinct) = (
  λ m. ground (
    arith,
    got m,
    equal_ci_cong name h.name m,
    equal_ci_comm name h.name,
    equal_ci_cong h.name name m,
    equal_ci_cong h.name m name,
    equal_ci_comm m name,
    equal_ci_comm m h.name,
  ),
  ap suc len,
  λ m l. (l.0, lacks m l.1),
  λ d. (lacks h.name d.0, distinct d.1),
)

pub replace_value-Replaced :
    (hs : List Header) (name value : Bytes) → Replaced hs name value (replace_value hs name value)
unfolding replace_value
replace_value-Replaced [] name value = tt
replace_value-Replaced (h ∷ hs) name value =
    replace_value_step h hs name value (equal_ci h.name name) (replace_value hs name value) refl
      (replace_value-Replaced hs name value)

pub get_header-append :
    (hs : List Header) (h : Header) (m : Bytes)
    → Lacks m hs
    → get_header (hs ++ h ∷ []) m ≡ (if equal_ci h.name m then some h.value else none)
unfolding get_header
get_header-append [] h m l = refl
get_header-append (k ∷ hs) h m l = rw l.0 (get_header-append hs h m l.1)

pub get_header-append_other :
    (hs : List Header) (h : Header) (m : Bytes)
    → equal_ci h.name m ≡ false
    → get_header (hs ++ h ∷ []) m ≡ get_header hs m
unfolding get_header
get_header-append_other [] h m e = rw e
get_header-append_other (k ∷ hs) h m e = ground (arith, get_header-append_other hs h m e)

pub Lacks-cong : (hs : List Header) (a b : Bytes) → equal_ci a b ≡ true → Lacks a hs → Lacks b hs
Lacks-cong [] a b e l = tt
Lacks-cong (h ∷ hs) a b e l = (
  ground (arith, equal_ci_comm h.name a, equal_ci_comm h.name b, equal_ci_cong a b h.name),
  Lacks-cong hs a b e l.1,
)

pub Lacks-append :
    (hs : List Header) (h : Header) (m : Bytes)
    → Lacks m hs
    → equal_ci h.name m ≡ false
    → Lacks m (hs ++ h ∷ [])
Lacks-append [] h m l e = (e, tt)
Lacks-append (k ∷ hs) h m l e = (l.0, Lacks-append hs h m l.1 e)

pub Distinct-append :
    (hs : List Header) (h : Header) → Distinct hs → Lacks h.name hs → Distinct (hs ++ h ∷ [])
Distinct-append [] h d l = (tt, tt)
Distinct-append (k ∷ hs) h d l = (
  Lacks-append hs h k.name d.0 (ground (arith, equal_ci_comm h.name k.name)),
  Distinct-append hs h d.1 l.1,
)
