-- ===== src/Http/Mime.antt =====
-- The content types of include/http.h, and utils/http.c: mime_type_from_ext and mime_type_str.
use foxtails.Base.{
  ℕ, Bool, ◌&&◌, true, false, Option, none, some, List, [], ◌∷◌, ◌++◌, ◌==◌, if◌then◌else◌, length,
  ◌≡◌, refl, ap, arith,
}
use foxtails.Base.Bytes.{Bytes, codes, equal_iff, first_equal}

pub data Mime : Type 0 where
  text_plain text_html text_css text_javascript : Mime
  application_json application_xml application_pdf application_octet_stream : Mime
  image_png image_jpeg image_gif image_svg image_ico : Mime

unfoldable pub mime_type_str : Mime → Bytes
mime_type_str text_plain = codes "text/plain"
mime_type_str text_html = codes "text/html"
mime_type_str text_css = codes "text/css"
mime_type_str text_javascript = codes "text/javascript"
mime_type_str application_json = codes "application/json"
mime_type_str application_xml = codes "application/xml"
mime_type_str application_pdf = codes "application/pdf"
mime_type_str application_octet_stream = codes "application/octet-stream"
mime_type_str image_png = codes "image/png"
mime_type_str image_jpeg = codes "image/jpeg"
mime_type_str image_gif = codes "image/gif"
mime_type_str image_svg = codes "image/svg+xml"
mime_type_str image_ico = codes "image/x-icon"

abbrev pub or_octet_stream : Option Mime → Mime
or_octet_stream none = application_octet_stream
or_octet_stream (some m) = m

abbrev two_letters : List (Bytes × Mime)
two_letters = (codes "js", text_javascript) ∷ []

abbrev three_letters : List (Bytes × Mime)
three_letters =
    (codes "css", text_css)
    ∷ (codes "xml", application_xml)
    ∷ (codes "pdf", application_pdf)
    ∷ (codes "png", image_png)
    ∷ (codes "jpg", image_jpeg)
    ∷ (codes "gif", image_gif)
    ∷ (codes "svg", image_svg)
    ∷ (codes "ico", image_ico)
    ∷ (codes "txt", text_plain)
    ∷ []

abbrev four_letters : List (Bytes × Mime)
four_letters =
    (codes "html", text_html) ∷ (codes "json", application_json) ∷ (codes "jpeg", image_jpeg) ∷ []

unfoldable pub mime_type_from_ext : Bytes → Mime
mime_type_from_ext ext =
    if length ext == 2
    then or_octet_stream (first_equal ext two_letters)
    else if length ext == 3
    then or_octet_stream (first_equal ext three_letters)
    else if length ext == 4
    then or_octet_stream (first_equal ext four_letters)
    else application_octet_stream

-- Entries whose names all have another length are never chosen.
abbrev all_of_length : ℕ → List (Bytes × Mime) → Bool
all_of_length n [] = true
all_of_length n ((t, a) ∷ rest) = length t == n && all_of_length n rest

length-cong : (s t : Bytes) → s ≡ t → length s ≡ length t
length-cong s t e = ap (λ (b : Bytes). length b) e

first_equal-other_length :
    (s : Bytes) (n : ℕ) (ts : List (Bytes × Mime))
    → all_of_length n ts ≡ true
    → (length s == n) ≡ false
    → first_equal s ts ≡ none
unfolding first_equal
first_equal-other_length s n [] l h = refl
first_equal-other_length s n ((t, a) ∷ rest) l h =
    ground (arith, equal_iff s t, length-cong s t, first_equal-other_length s n rest)

first_equal-append :
    (s : Bytes) (ts us : List (Bytes × Mime))
    → first_equal s (ts ++ us)
      ≡ (elim (first_equal s ts) [ some m ↦ some m | none ↦ first_equal s us ])
unfolding first_equal
first_equal-append s [] us = refl
first_equal-append s ((t, a) ∷ ts) us = ground (arith, first_equal-append s ts us)

-- The extensions that the server knows, whatever their length.
abbrev pub known_extensions : List (Bytes × Mime)
known_extensions = two_letters ++ three_letters ++ four_letters

-- The switch on the length finds an extension exactly when the table of all of them has it.
pub mime_type_from_ext-known :
    (ext : Bytes) → mime_type_from_ext ext ≡ or_octet_stream (first_equal ext known_extensions)
unfolding mime_type_from_ext
mime_type_from_ext-known ext = ground (
  arith,
  first_equal-append ext two_letters (three_letters ++ four_letters),
  first_equal-append ext three_letters four_letters,
  first_equal-other_length ext 2 two_letters refl,
  first_equal-other_length ext 3 three_letters refl,
  first_equal-other_length ext 4 four_letters refl,
)
