-- ===== src/Serve/Files.antt =====
-- worker_loop.c: verify_url and get_path let out files under the root only.
use foxtails.Base.{
  ℕ, Bool, true, false, Option, none, some, [], ◌∷◌, ◌++◌, length, drop, drop-length-append,
  if◌then◌else◌, ◌≡◌, refl, ap, ◌∙◌, arith,
}
use foxtails.Base.Bytes.{Bytes, starts_with}
use foxtails.Base.Decimal.{pos}
use foxtails.Http.Message.{Http, not_found}
use foxtails.Serve.{
  FileAnswer, content, Site, at_boundary, is_inside, verify_url, get_path_from, file_response,
  answer_file, get_path,
}

starts_with-drop : (p xs : Bytes) → starts_with p xs ≡ true → xs ≡ p ++ drop (length p) xs
unfolding starts_with
starts_with-drop [] xs h = refl
starts_with-drop (y ∷ p) [] h = absurd (ground arith)
starts_with-drop (y ∷ p) (x ∷ xs) h = ground (arith, starts_with-drop p xs)

starts_with-append : (p xs : Bytes) → starts_with p (p ++ xs) ≡ true
unfolding starts_with
starts_with-append [] xs = refl
starts_with-append (y ∷ p) xs = ground (arith, starts_with-append p xs)

-- Both paths resolve, and the second one to what the first resolves to, with nothing or a slash and
-- more behind it.
pub record IsUnder (realpath : Bytes → Option Bytes) (approot full_path : Bytes) : Type 0 where
  pub root_real : Bytes
  pub below : Bytes
  pub root_resolves : realpath approot ≡ some root_real
  pub path_resolves : realpath full_path ≡ some (root_real ++ below)
  pub bounded : at_boundary below ≡ true

is_inside-IsUnder :
    (realpath : Bytes → Option Bytes) (approot full_path : Bytes) (r f : Option Bytes)
    → realpath approot ≡ r
    → realpath full_path ≡ f
    → is_inside r f ≡ true
    → IsUnder realpath approot full_path
unfolding is_inside
is_inside-IsUnder realpath approot full_path (some root) (some full) e k h = record {
  root_real = root;
  below = drop (length root) full;
  root_resolves = e;
  path_resolves = k ∙ ap some (starts_with-drop root full (ground arith));
  bounded = ground arith;
}
is_inside-IsUnder realpath approot full_path _ _ e k h = absurd (ground arith)

verify_url-IsUnder :
    (realpath : Bytes → Option Bytes) (approot full_path : Bytes)
    → verify_url realpath approot full_path ≡ true
    → IsUnder realpath approot full_path
unfolding verify_url
verify_url-IsUnder realpath approot full_path h =
    is_inside-IsUnder realpath approot full_path _ _ refl refl h

IsUnder-verify_url :
    (realpath : Bytes → Option Bytes) (approot full_path : Bytes)
    → IsUnder realpath approot full_path
    → verify_url realpath approot full_path ≡ true
unfolding verify_url is_inside
IsUnder-verify_url realpath approot full_path u =
    rw
      (
        u.root_resolves,
        u.path_resolves,
        starts_with-append (u.root_real) (u.below),
        drop-length-append (u.root_real) (u.below),
      )
      (u.bounded)

abbrev pub body_of : Bytes → Option Bytes
body_of [] = none
body_of (c ∷ cs) = some (c ∷ cs)

-- The file that a URL names: under the root in the sense of IsUnder, and readable
pub record Names (site : Site) (url bytes : Bytes) : Type 0 where
  pub approot : Bytes
  pub configured : site.approot ≡ some approot
  pub under : IsUnder site.realpath approot (approot ++ url)
  pub readable : site.file (approot ++ url) ≡ content bytes

pub record Serves (site : Site) (url : Bytes) (resp : Http) : Type 0 where
  pub bytes : Bytes
  pub names : Names site url bytes
  pub whole : resp ≡ file_response (names.approot ++ url) (body_of bytes) (length bytes)

answer_file-content :
    (full_path bytes : Bytes)
    → answer_file full_path (content bytes) ≡ file_response full_path (body_of bytes) (length bytes)
unfolding answer_file
answer_file-content full_path [] = refl
answer_file-content full_path (c ∷ cs) = refl

code_value : (m n : ℕ) → pos m ≡ pos n → m ≡ n
code_value m n h = cc

-- A response for a file that is not the canned 404 comes from a file that was read.
answer_file-code :
    (full_path : Bytes) (answer : FileAnswer)
    → (answer_file full_path answer).code ≡ pos 200
    → (bytes : Bytes) × (answer ≡ content bytes)
unfolding answer_file
answer_file-code full_path (content bytes) h = (bytes, refl)
answer_file-code full_path _ h = absurd (omega (arith, code_value 404 200 h))

get_path_inside :
    (site : Site) (url approot : Bytes) (inside : Bool)
    → site.approot ≡ some approot
    → verify_url site.realpath approot (approot ++ url) ≡ inside
    → (if inside then answer_file (approot ++ url) (site.file (approot ++ url)) else not_found).code
      ≡ pos 200
    → Serves site url
        (if inside then answer_file (approot ++ url) (site.file (approot ++ url)) else not_found)
get_path_inside site url approot false c v h = absurd (omega (arith, code_value 404 200 h))
get_path_inside site url approot true c v h =
    let (bytes, readable) = answer_file-code (approot ++ url) (site.file (approot ++ url)) h in
    record {
      bytes = bytes;
      names = record {
        approot = approot;
        configured = c;
        under = verify_url-IsUnder site.realpath approot (approot ++ url) v;
        readable = readable;
      };
      whole =
          ap (answer_file (approot ++ url)) readable ∙ answer_file-content (approot ++ url) bytes;
    }

get_path_configured :
    (site : Site) (url : Bytes) (root : Option Bytes)
    → site.approot ≡ root
    → (get_path_from site url root).code ≡ pos 200
    → Serves site url (get_path_from site url root)
unfolding get_path_from
get_path_configured site url none c h = absurd (omega (arith, code_value 500 200 h))
get_path_configured site url (some approot) c h = get_path_inside site url approot _ c refl h

-- get_path answers 200 only with the bytes of a readable file, whose path resolves to the root or
-- to a path below it, and then with all of these bytes.
pub get_path-Serves :
    (site : Site) (url : Bytes)
    → (get_path site url).code ≡ pos 200
    → Serves site url (get_path site url)
unfolding get_path
get_path-Serves site url h = get_path_configured site url site.approot refl h

-- Every readable file whose path resolves to what the root resolves to, with nothing or a slash and
-- more behind it, is served, with its bytes as the body, and their number as the length. A root that
-- resolves to `/` is followed by no slash, so of the files below it this speaks of none.
pub get_path-Names :
    (site : Site) (url bytes : Bytes) (n : Names site url bytes)
    → get_path site url ≡ file_response (n.approot ++ url) (body_of bytes) (length bytes)
unfolding get_path get_path_from
get_path-Names site url bytes n =
    rw
      (
        n.configured,
        IsUnder-verify_url site.realpath (n.approot) (n.approot ++ url) (n.under),
        n.readable,
      )
      (answer_file-content (n.approot ++ url) bytes)
