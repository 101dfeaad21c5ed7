-- ===== src/Base/Words.antt =====
-- Texts built of words: a reference printer for the texts that strtok takes apart.
use foxtails.Base.Lists.{All}
use foxtails.Base.Bytes.{
  is_byte, full_lines, full_lines-run, lines_from, c_str, c_str-Free, Bytes, tokens, Free,
  tokens-run, tokens_last,
}
use Prim.Native.Nat.{ℕ}
use mathlib.Core.Path.{◌≡◌, refl, ap, ◌∙◌}
use mathlib.Core.Bool.{Bool, true, false, not, ◌&&◌}
use mathlib.Core.List.{List, [], ◌∷◌, ◌++◌, append-nil}
use native.Mathlib.Omega.{arith}

abbrev pub none_of : (ℕ → Bool) → Bytes → Bool
none_of p [] = true
none_of p (x ∷ w) = not (p x) && none_of p w

-- A word: not empty, and with no byte of the set `p`
abbrev pub is_word : (ℕ → Bool) → Bytes → Bool
is_word p [] = false
is_word p (x ∷ w) = none_of p (x ∷ w)

abbrev pub IsWord : (ℕ → Bool) → Bytes → Type 0
IsWord p w = is_word p w ≡ true

pub Free-none_of : (p : ℕ → Bool) (w : Bytes) → none_of p w ≡ true → Free p w
Free-none_of p [] h = tt
Free-none_of p (x ∷ w) h = (ground arith, Free-none_of p w (ground arith))

pub Free-word : (p : ℕ → Bool) (w : Bytes) → IsWord p w → Free p w
Free-word p [] h = tt
Free-word p (x ∷ w) h = Free-none_of p (x ∷ w) h

-- Each further word with the byte `d` in front of it
unfoldable pub with_each : ℕ → List Bytes → Bytes
with_each d [] = []
with_each d (w ∷ ws) = d ∷ w ++ with_each d ws

unfoldable pub join : ℕ → Bytes → List Bytes → Bytes
join d w ws = w ++ with_each d ws

-- strtok finds the words again.
pub tokens-join :
    (p : ℕ → Bool) (d : ℕ) (w : Bytes) (ws : List Bytes)
    → p d ≡ true
    → IsWord p w
    → All (IsWord p) ws
    → tokens p (join d w ws) ≡ w ∷ ws
unfolding join with_each
tokens-join p d [] ws hd h hs = absurd (ground arith)
tokens-join p d (x ∷ w) [] hd h hs =
    ap (tokens p) (append-nil (x ∷ w)) ∙ tokens_last p x w (Free-word p (x ∷ w) h)
tokens-join p d (x ∷ w) (v ∷ ws) hd h hs =
    tokens-run p x w d (v ++ with_each d ws) (Free-word p (x ∷ w) h) hd
    ∙ ap (λ ts. (x ∷ w) ∷ ts) (tokens-join p d v ws hd hs.0 hs.1)

pub none_of-append :
    (p : ℕ → Bool) (a b : Bytes)
    → none_of p a ≡ true
    → none_of p b ≡ true
    → none_of p (a ++ b) ≡ true
none_of-append p [] b h k = k
none_of-append p (x ∷ a) b h k = ground (arith, none_of-append p a b)

pub none_of-word : (p : ℕ → Bool) (w : Bytes) → IsWord p w → none_of p w ≡ true
none_of-word p [] h = refl
none_of-word p (x ∷ w) h = h

pub none_of-with_each :
    (p : ℕ → Bool) (d : ℕ) (ws : List Bytes)
    → p d ≡ false
    → All (IsWord p) ws
    → none_of p (with_each d ws) ≡ true
unfolding with_each
none_of-with_each p d [] hd hs = refl
none_of-with_each p d (w ∷ ws) hd hs =
    let rest =
      none_of-append p w (with_each d ws) (none_of-word p w hs.0)
        (none_of-with_each p d ws hd hs.1) in
    ground (arith, rest)

pub IsWord-join :
    (p : ℕ → Bool) (d : ℕ) (w : Bytes) (ws : List Bytes)
    → p d ≡ false
    → IsWord p w
    → All (IsWord p) ws
    → IsWord p (join d w ws)
unfolding join
IsWord-join p d [] ws hd h hs = absurd (ground arith)
IsWord-join p d (x ∷ w) ws hd h hs =
    none_of-append p (x ∷ w) (with_each d ws) h (none_of-with_each p d ws hd hs)

-- A smaller set leaves more words.
pub none_of-subset :
    (p q : ℕ → Bool)
    → ((x : ℕ) → p x ≡ true → q x ≡ true)
    → (w : Bytes) → none_of q w ≡ true
    → none_of p w ≡ true
none_of-subset p q sub [] h = refl
none_of-subset p q sub (x ∷ w) h = ground (arith, sub x, none_of-subset p q sub w)

pub IsWord-subset :
    (p q : ℕ → Bool) → ((x : ℕ) → p x ≡ true → q x ≡ true) → (w : Bytes) → IsWord q w → IsWord p w
IsWord-subset p q sub [] h = h
IsWord-subset p q sub (x ∷ w) h = none_of-subset p q sub (x ∷ w) h

-- Each line with a newline behind it
unfoldable pub print_lines : List Bytes → Bytes
print_lines [] = []
print_lines (line ∷ lines) = line ++ b'\n' ∷ print_lines lines

-- The loops over a file find the lines again.
pub full_lines-print_lines :
    (lines : List Bytes)
    → All (λ line. none_of (is_byte b'\n') line ≡ true) lines
    → full_lines (print_lines lines) ≡ lines
unfolding print_lines
full_lines-print_lines [] h = unfold full_lines in unfold lines_from in refl
full_lines-print_lines (line ∷ lines) h =
    full_lines-run line (print_lines lines) (Free-none_of (is_byte b'\n') line h.0)
    ∙ ap (λ ls. line ∷ ls) (full_lines-print_lines lines h.1)

pub c_str-none_of : (w : Bytes) → none_of (is_byte 0) w ≡ true → c_str w ≡ w
c_str-none_of w h = c_str-Free w (Free-none_of (is_byte 0) w h)
