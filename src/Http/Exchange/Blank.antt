-- ===== src/Http/Exchange/Blank.antt =====
-- utils/http.c: the search of http_parse_headers_and_body for the blank line finds the end of the
-- header block, whatever the body holds.
use mathlib.Core.List.{append_assoc}
use mathlib.Core.Option
use foxtails.Base.{
  ℕ, suc, ◌+◌, true, false, Option, none, some, List, [], ◌∷◌, ◌++◌, All, length, take, drop, leb,
  take-length-append, drop-length-append, length-append, ◌==◌, ◌≡◌, refl, sym, ap, ap₂, ◌∙◌, arith,
}
use foxtails.Base.Bytes.{Bytes, memmem, starts_with}
use foxtails.Base.Words.{none_of, IsWord, none_of-subset, none_of-word}
use foxtails.Http.Exchange.{ends_text, more_lines}
use foxtails.Http.Parse.{crlf_crlf, lf_lf, cut_block, header_block}

-- `p` starts nowhere in `w`, with `rest` behind.
abbrev Passes : Bytes → Bytes → Bytes → Type 0
Passes p [] rest = Unit
Passes p (x ∷ w) rest = (starts_with p (x ∷ (w ++ rest)) ≡ false) × Passes p w rest

map_start : (o : Option ℕ) → o ≡ Option.map (λ (i : ℕ). 0 + i) o
map_start none = refl
map_start (some i) = ap some (omega arith)

map_step :
    (n : ℕ) (o : Option ℕ)
    → Option.map suc (Option.map (λ (i : ℕ). n + i) o) ≡ Option.map (λ (i : ℕ). suc n + i) o
map_step n none = refl
map_step n (some i) = ap some (omega arith)

memmem-Passes :
    (p w rest : Bytes)
    → Passes p w rest
    → memmem p (w ++ rest) ≡ Option.map (λ (i : ℕ). length w + i) (memmem p rest)
unfolding memmem
memmem-Passes p [] rest h = map_start (memmem p rest)
memmem-Passes p (x ∷ w) rest h =
    rw (h.0, memmem-Passes p w rest h.1) (map_step (length w) (memmem p rest))

Passes-append :
    (p a b rest : Bytes) → Passes p a (b ++ rest) → Passes p b rest → Passes p (a ++ b) rest
Passes-append p [] b rest h k = k
Passes-append p (x ∷ a) b rest h k =
    (ap (λ t. starts_with p (x ∷ t)) (append_assoc a b rest) ∙ h.0, Passes-append p a b rest h.1 k)

-- A line without the first byte of `p`
Passes-line : (y : ℕ) (p w rest : Bytes) → none_of (λ x. x == y) w ≡ true → Passes (y ∷ p) w rest
unfolding starts_with
Passes-line y p [] rest h = tt
Passes-line y p (x ∷ w) rest h = (ground arith, Passes-line y p w rest (ground arith))

Passes-lines :
    (y : ℕ) (p l : Bytes) (ls : List Bytes) (rest : Bytes)
    → ((x : ℕ) → (x == y) ≡ true → ends_text x ≡ true)
    → IsWord ends_text l
    → Passes (y ∷ p) (more_lines ls) rest
    → Passes (y ∷ p) (l ++ more_lines ls) rest
Passes-lines y p l ls rest sub h k =
    Passes-append (y ∷ p) l (more_lines ls) rest
      (Passes-line y p l (more_lines ls ++ rest)
        (none_of-subset (λ x. x == y) ends_text sub l (none_of-word ends_text l h)))
      k

-- Neither blank line starts in lines with CR LF between them.
Passes-more_lines :
    (ls : List Bytes) (rest : Bytes)
    → All (IsWord ends_text) ls
    → Passes crlf_crlf (more_lines ls) rest × Passes lf_lf (more_lines ls) rest
unfolding more_lines starts_with
Passes-more_lines [] rest h = (tt, tt)
Passes-more_lines ([] ∷ ls) rest h = absurd (ground arith)
Passes-more_lines ((c ∷ l) ∷ ls) rest h =
    let (crlf, lf) = Passes-more_lines ls rest h.1 in
    (
      (
        ground arith,
        (
          refl,
          Passes-lines b'\r' (b'\n' ∷ b'\r' ∷ b'\n' ∷ []) (c ∷ l) ls rest (λ x k. ground arith) h.0
              crlf,
        ),
      ),
      (
        refl,
        (
          ground arith,
          Passes-lines b'\n' (b'\n' ∷ []) (c ∷ l) ls rest (λ x k. ground arith) h.0 lf,
        ),
      ),
    )

take_block :
    (block rest : Bytes) (n : ℕ) → n ≡ length block → take n (block ++ (crlf_crlf ++ rest)) ≡ block
take_block block rest n e =
    ap (λ k. take k (block ++ (crlf_crlf ++ rest))) e ∙ take-length-append block (crlf_crlf ++ rest)

drop_block :
    (block rest : Bytes) (n : ℕ)
    → n ≡ length block + 4
    → drop n (block ++ (crlf_crlf ++ rest)) ≡ rest
drop_block block rest n e =
    let size : n ≡ length (block ++ crlf_crlf) = omega (arith, length-append block crlf_crlf) in
    ap₂ (λ k t. drop k t) size (sym (append_assoc block crlf_crlf rest))
    ∙ drop-length-append (block ++ crlf_crlf) rest

cut_block_lem :
    (block rest : Bytes) (o : Option ℕ)
    → cut_block
        (block ++ (crlf_crlf ++ rest))
        (some (length block + 0))
        (Option.map (λ (i : ℕ). length block + i) o)
      ≡ (block, some rest)
cut_block_lem block rest none =
    ap₂ (λ t d. (t, some d)) (take_block block rest (length block + 0) (omega arith))
      (drop_block block rest (length block + 0 + 4) (omega arith))
cut_block_lem block rest (some i) =
    let first : leb (length block + 0) (length block + i) ≡ true = ground arith in
    rw first (
      ap₂ (λ t d. (t, some d)) (take_block block rest (length block + 0) (omega arith))
        (drop_block block rest (length block + 0 + 4) (omega arith)))

-- The header block of lines, and the body behind the blank line, come apart where they were joined.
pub header_block-more_lines :
    (l : Bytes) (ls : List Bytes) (rest : Bytes)
    → IsWord ends_text l
    → All (IsWord ends_text) ls
    → header_block ((l ++ more_lines ls) ++ (crlf_crlf ++ rest)) ≡ (l ++ more_lines ls, some rest)
unfolding header_block memmem starts_with
header_block-more_lines l ls rest h hs =
    let (crlf, lf) = Passes-more_lines ls (crlf_crlf ++ rest) hs in
    rw
      (
        memmem-Passes crlf_crlf (l ++ more_lines ls) (crlf_crlf ++ rest) (
            Passes-lines b'\r' (b'\n' ∷ b'\r' ∷ b'\n' ∷ []) l ls (crlf_crlf ++ rest)
              (λ x k. ground arith) h crlf),
        memmem-Passes lf_lf (l ++ more_lines ls) (crlf_crlf ++ rest)
            (Passes-lines b'\n' (b'\n' ∷ []) l ls (crlf_crlf ++ rest) (λ x k. ground arith) h lf),
      )
      (cut_block_lem (l ++ more_lines ls) rest (memmem lf_lf (crlf_crlf ++ rest)))
