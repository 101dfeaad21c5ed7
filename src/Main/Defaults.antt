-- ===== src/Main/Defaults.antt =====
-- main.c: the settings that a configuration file gives, and the defaults for those it leaves out.
use foxtails.Base.{
  ℕ, zero, suc, ◌<◌, ◌^◌, Bool, true, false, Option, none, some, List, [], ◌∷◌, All, if◌then◌else◌,
  ◌≡◌, refl, ap, ◌∙◌, arith,
}
use mathlib.Core.Option
use foxtails.Base.Bytes.{Bytes, codes, is_space, starts_with}
use foxtails.Base.Decimal.{
  pos, show_dec, atoi, atoi-show_dec, none_of-show_dec, is_digit, starts_digit,
  starts_digit-show_dec,
}
use foxtails.Base.Words.{none_of, IsWord}
use foxtails.Config.Find.{config_get-print_config}
use foxtails.Config.Print.{
  Entry, Section, print_config, find_entry, find_named, IsEntry, IsSection, is_value, ends_line,
  ends_key,
}
use foxtails.Config.{Lookup, missing, value, config_get, config_get_int, int_of_lookup}
use foxtails.Main.{Settings, read_settings, or_default, int_setting, optional, ◌>>?◌}

-- What an administrator writes to the file; a setting may be left out.
pub record Choice : Type 0 where
  pub log_level : Option ℕ
  pub num_workers : Option ℕ
  pub max_connections : Option ℕ
  pub keep_alive_timeout : Option ℕ
  pub backend_timeout : Option ℕ
  pub unix_path : Option Bytes
  pub port : Option ℕ

-- A key, with its value if the file has it
abbrev pub Field : Type 0
Field = Bytes × Option Bytes

abbrev pub present : List Field → List Entry
present [] = []
present ((key, none) ∷ fields) = present fields
present ((key, some val) ∷ fields) = record { key = key; val = val } ∷ present fields

abbrev pub number : Option ℕ → Option Bytes
number none = none
number (some n) = some (show_dec n)

abbrev pub server_fields : Choice → List Field
server_fields c =
    (codes "port", number c.port)
    ∷ (codes "path", c.unix_path)
    ∷ (codes "log-level", number c.log_level)
    ∷ (codes "num-workers", number c.num_workers)
    ∷ (codes "max-connections", number c.max_connections)
    ∷ (codes "keep-alive-timeout", number c.keep_alive_timeout)
    ∷ []

-- The file of a choice
abbrev pub sections : Choice → List Section
sections c =
    record { name = codes "server"; entries = present (server_fields c) }
    ∷ record {
      name = codes "backends";
      entries = present ((codes "timeout", number c.backend_timeout) ∷ []);
    }
    ∷ []

-- A number that is given and not 0, or else the default
abbrev pub given_or : ℕ → Option ℕ → ℕ
given_or d none = d
given_or d (some zero) = d
given_or d (some (suc n)) = suc n

abbrev pub IsInt : Option ℕ → Type 0
IsInt none = Unit
IsInt (some n) = n < 2 ^ 31

abbrev pub IsPath : Option Bytes → Type 0
IsPath none = Unit
IsPath (some path) = is_value path ≡ true

pub record IsChoice (c : Choice) : Type 0 where
  pub log_level : IsInt c.log_level
  pub num_workers : IsInt c.num_workers
  pub max_connections : IsInt c.max_connections
  pub keep_alive_timeout : IsInt c.keep_alive_timeout
  pub backend_timeout : IsInt c.backend_timeout
  pub unix_path : IsPath c.unix_path
  pub port : IsInt c.port

digits-is_value :
    (s : Bytes) → starts_digit s ≡ true → none_of ends_line s ≡ true → is_value s ≡ true
unfolding is_space is_digit
digits-is_value [] h k = absurd (ground arith)
digits-is_value (c ∷ cs) h k = ground arith

show_dec-is_value : (n : ℕ) → is_value (show_dec n) ≡ true
show_dec-is_value n =
    digits-is_value (show_dec n) (starts_digit-show_dec n)
      (none_of-show_dec ends_line (λ d h. ground arith) n)

number-IsPath : (o : Option ℕ) → IsPath (number o)
number-IsPath none = tt
number-IsPath (some n) = show_dec-is_value n

abbrev IsField : Field → Type 0
IsField (key, val) = IsWord ends_key key × IsPath val

present-IsEntry : (fields : List Field) → All IsField fields → All IsEntry (present fields)
present-IsEntry [] h = tt
present-IsEntry ((key, none) ∷ fields) h = present-IsEntry fields h.1
present-IsEntry ((key, some val) ∷ fields) h = (h.0, present-IsEntry fields h.1)

sections-IsSection : (c : Choice) → IsChoice c → All IsSection (sections c)
sections-IsSection c h = (
  (
    refl,
    present-IsEntry (server_fields c) (
      (refl, number-IsPath c.port),
      (
        (refl, h.unix_path),
        (
          (refl, number-IsPath c.log_level),
          (
            (refl, number-IsPath c.num_workers),
            (
              (refl, number-IsPath c.max_connections),
              ((refl, number-IsPath c.keep_alive_timeout), tt),
            ),
          ),
        ),
      ),
    ),
  ),
  (
    (
      refl,
      present-IsEntry ((codes "timeout", number c.backend_timeout) ∷ [])
          ((refl, number-IsPath c.backend_timeout), tt),
    ),
    tt,
  ),
)

abbrev pick : Option Bytes → Lookup → Lookup
pick none rest = rest
pick (some val) rest = value val

-- The first field whose key begins the key that is looked for, if the file has it
abbrev first_field : Bytes → List Field → Lookup
first_field key [] = missing
first_field key ((k, val) ∷ fields) =
    if starts_with k key then pick val (first_field key fields) else first_field key fields

if_same : (b : Bool) (l : Lookup) → l ≡ (if b then l else l)
if_same true l = refl
if_same false l = refl

find_entry-present :
    (key : Bytes) (fields : List Field) → find_entry key (present fields) ≡ first_field key fields
unfolding find_entry
find_entry-present key [] = refl
find_entry-present key ((k, none) ∷ fields) =
    find_entry-present key fields ∙ if_same (starts_with k key) (first_field key fields)
find_entry-present key ((k, some val) ∷ fields) =
    ap (λ l. if starts_with k key then value val else l) (find_entry-present key fields)

module _ (c : Choice) (h : IsChoice c) where
  server_lookup :
      (key : Bytes)
      → config_get (print_config (sections c)) (codes "server") key
        ≡ first_field key (server_fields c)
  unfolding find_named starts_with
  server_lookup key =
      config_get-print_config (codes "server") key (sections c) (sections-IsSection c h)
      ∙ find_entry-present key (server_fields c)

  backend_lookup :
      (key : Bytes)
      → config_get (print_config (sections c)) (codes "backends") key
        ≡ first_field key ((codes "timeout", number c.backend_timeout) ∷ [])
  unfolding find_named starts_with
  backend_lookup key =
      config_get-print_config (codes "backends") key (sections c) (sections-IsSection c h)
      ∙ find_entry-present key ((codes "timeout", number c.backend_timeout) ∷ [])

-- The number that config_get_int makes of a field
int_of_field :
    (o : Option ℕ) → IsInt o → int_of_lookup (pick (number o) missing) ≡ some (pos (given_or 0 o))
unfolding int_of_lookup atoi
int_of_field none h = refl
int_of_field (some zero) h = ap some (atoi-show_dec zero h)
int_of_field (some (suc n)) h = ap some (atoi-show_dec (suc n) h)

default_of : (d : ℕ) (o : Option ℕ) → or_default d (pos (given_or 0 o)) ≡ pos (given_or d o)
default_of d none = refl
default_of d (some zero) = refl
default_of d (some (suc n)) = refl

setting_of :
    (map section key : Bytes) (d : ℕ) (o : Option ℕ)
    → IsInt o
    → config_get map section key ≡ pick (number o) missing
    → int_setting map section key d ≡ some (pos (given_or d o))
unfolding int_setting config_get_int
setting_of map section key d o small e =
    ap (λ l. Option.map (or_default d) (int_of_lookup l)) e
    ∙ ap (Option.map (or_default d)) (int_of_field o small)
    ∙ ap some (default_of d o)

>>?-some :
    {A B : Type 0} (f : A → Option B) {o : Option A} {a : A} {r : Option B}
    → o ≡ some a
    → f a ≡ r
    → (o >>? f) ≡ r
>>?-some f h k = ap (λ o. o >>? f) h ∙ k

optional-pick : (o : Option Bytes) → optional (pick o missing) ≡ some o
optional-pick none = refl
optional-pick (some path) = refl

log_level_of :
    (c : Choice) (h : IsChoice c)
    → config_get_int (print_config (sections c)) (codes "server") (codes "log-level")
      ≡ some (pos (given_or 0 c.log_level))
unfolding config_get_int starts_with
log_level_of c h =
    ap int_of_lookup (server_lookup c h (codes "log-level")) ∙ int_of_field c.log_level h.log_level

-- The settings that main should have
abbrev pub settings_of : Choice → Settings
settings_of c = record {
  log_level = pos (given_or 0 c.log_level);
  num_workers = pos (given_or 8 c.num_workers);
  max_connections = pos (given_or 512 c.max_connections);
  keep_alive_timeout = pos (given_or 75 c.keep_alive_timeout);
  backend_timeout = pos (given_or 5 c.backend_timeout);
  unix_path = c.unix_path;
  port = pos (given_or 8080 c.port);
}

-- main reads back the settings that were written to the file, in place of each number that is left
-- out or 0 its default, and no path where none was written. The numbers are to be below 2^31, and a
-- path is to be a value.
pub read_settings-sections :
    (c : Choice) → IsChoice c → read_settings (print_config (sections c)) ≡ some (settings_of c)
unfolding read_settings starts_with
read_settings-sections c h =
    let map = print_config (sections c) in
    let server_int : (key : Bytes) (d : ℕ) (o : Option ℕ)
        → IsInt o
        → first_field key (server_fields c) ≡ pick (number o) missing
        → int_setting map (codes "server") key d ≡ some (pos (given_or d o)) =
      λ key d o small e.
        setting_of map (codes "server") key d o small (server_lookup c h key ∙ e) in
    >>?-some _ (log_level_of c h) (
      >>?-some _ (server_int (codes "num-workers") 8 c.num_workers h.num_workers refl) (
        >>?-some _
          (server_int (codes "max-connections") 512 c.max_connections h.max_connections refl)
          (>>?-some _
            (server_int (codes "keep-alive-timeout") 75 c.keep_alive_timeout h.keep_alive_timeout
              refl)
            (>>?-some _
              (setting_of map (codes "backends") (codes "timeout") 5 c.backend_timeout
                h.backend_timeout (backend_lookup c h (codes "timeout")))
              (>>?-some _
                (ap optional (server_lookup c h (codes "path")) ∙ optional-pick c.unix_path)
                (>>?-some _ (server_int (codes "port") 8080 c.port h.port refl) refl))))))
