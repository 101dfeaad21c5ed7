-- ===== src/Base/Bytes.antt =====
-- Byte strings and the functions of <string.h> that the program calls. A pointer into a buffer is
-- the list of the bytes from there to the buffer's end; a C string is the list of the bytes in
-- front of its NUL.
use Prim.Native.Char.{code}
use Prim.Native.String.{String}
use Prim.Native.Nat.{ℕ, suc, ◌+◌}
use mathlib.Core.Path.{◌≡◌, refl, ap, ◌∙◌}
use mathlib.Core.Logic.{◌↔◌}
use mathlib.Core.Bool.{Bool, true, false, ◌&&◌, ◌||◌}
use mathlib.Core.Option
use mathlib.Core.Option.{Option, none, some}
use mathlib.Core.List.{List, [], ◌∷◌, ◌++◌, map, append_assoc, append-nil}
use native.Mathlib.Omega.{arith}
use foxtails.Base.Tests.{leb, ◌==◌, if◌then◌else◌, ==_self, ==_iff}
use foxtails.Base.Lists.{All}

abbrev pub Bytes : Type 0
Bytes = List ℕ

-- The code points of a text: its bytes, if it is ASCII.
abbrev pub codes : String → Bytes
codes String.[] = []
codes (String.◌∷◌ c s) = code c ∷ codes s

-- strcmp(a, b) == 0, and memcmp(a, b, n) == 0 for two runs of n bytes
unfoldable pub equal : Bytes → Bytes → Bool
equal (c ∷ s) (d ∷ t) = c == d && equal s t
equal [] [] = true
equal _ _ = false

pub equal_iff : (s t : Bytes) → (equal s t ≡ true) ↔ (s ≡ t)
unfolding equal
equal_iff (c ∷ s) (d ∷ t) = ground (equal_iff s t, arith)
equal_iff s t = ground arith

pub equal_self : (a : Bytes) → equal a a ≡ true
equal_self a = (equal_iff a a).1 refl

-- The comparisons `if (memcmp(s, t, n) == 0) return a;` of one `case`, in order.
unfoldable pub first_equal {ℓ} : {A : Type ℓ} → Bytes → List (Bytes × A) → Option A
first_equal s [] = none
first_equal s ((t, a) ∷ rest) = if equal s t then some a else first_equal s rest

-- tolower in the C locale
unfoldable pub lower : ℕ → ℕ
lower c = if leb b'A' c && leb c b'Z' then c + 32 else c

-- strcasecmp(a, b) == 0
unfoldable pub equal_ci : Bytes → Bytes → Bool
equal_ci a b = equal (map lower a) (map lower b)

pub equal_ci_iff : (a b : Bytes) → (equal_ci a b ≡ true) ↔ (map lower a ≡ map lower b)
unfolding equal_ci
equal_ci_iff a b = equal_iff (map lower a) (map lower b)

pub equal_ci_self : (a : Bytes) → equal_ci a a ≡ true
equal_ci_self a = (equal_ci_iff a a).1 refl

pub equal_ci_comm : (a b : Bytes) → equal_ci a b ≡ equal_ci b a
equal_ci_comm a b = ground (arith, equal_ci_iff a b, equal_ci_iff b a)

-- Names that are the same one up to case answer alike.
pub equal_ci_cong : (a b c : Bytes) → equal_ci a b ≡ true → equal_ci a c ≡ equal_ci b c
equal_ci_cong a b c h = ground (arith, equal_ci_iff a b, equal_ci_iff a c, equal_ci_iff b c)

-- isspace in the C locale
unfoldable pub is_space : ℕ → Bool
is_space c = c == 32 || (leb 9 c && leb c 13)

-- The bytes in front of the first NUL: what strnlen counts, and what pstrndup keeps.
unfoldable pub c_str : Bytes → Bytes
c_str [] = []
c_str (x ∷ xs) = if x == 0 then [] else x ∷ c_str xs

-- memchr and strchr: the bytes in front of the one found, and those behind it.
unfoldable pub memchr : ℕ → Bytes → Option (Bytes × Bytes)
memchr c [] = none
memchr c (x ∷ xs) =
    if x == c
    then some ([], xs)
    else Option.map (λ (p : Bytes × Bytes). (x ∷ p.0, p.1)) (memchr c xs)

-- Is `p` a prefix: memcmp(xs, p, n) == 0 and strncmp(xs, p, n) == 0 with n the length of `p`
unfoldable pub starts_with : Bytes → Bytes → Bool
starts_with [] xs = true
starts_with (y ∷ p) [] = false
starts_with (y ∷ p) (x ∷ xs) = x == y && starts_with p xs

-- memmem: the offset of the first occurrence
unfoldable pub memmem : Bytes → Bytes → Option ℕ
memmem p [] = if starts_with p [] then some 0 else none
memmem p (x ∷ xs) = if starts_with p (x ∷ xs) then some 0 else Option.map suc (memmem p xs)

-- `while (*p == ' ') p++`, for any set of bytes
unfoldable pub drop_while : (ℕ → Bool) → Bytes → Bytes
drop_while p [] = []
drop_while p (x ∷ xs) = if p x then drop_while p xs else x ∷ xs

-- The tokens that repeated calls of strtok return; `cur` holds what the current one has so far.
abbrev push_token : Bytes → List Bytes → List Bytes
push_token [] ts = ts
push_token (c ∷ cs) ts = (c ∷ cs) ∷ ts

unfoldable pub tokens_from : (ℕ → Bool) → Bytes → Bytes → List Bytes
tokens_from p cur [] = push_token cur []
tokens_from p cur (x ∷ xs) = elim (p x) [
  | true ↦ push_token cur (tokens_from p [] xs)
  | false ↦ tokens_from p (cur ++ x ∷ []) xs
]

unfoldable pub tokens : (ℕ → Bool) → Bytes → List Bytes
unfolding tokens_from
tokens p xs = tokens_from p [] xs

-- Line's last byte dropped if it is a carriage return
unfoldable pub strip_cr : Bytes → Bytes
strip_cr [] = []
strip_cr (x ∷ []) = if x == b'\r' then [] else x ∷ []
strip_cr (x ∷ y ∷ xs) = x ∷ strip_cr (y ∷ xs)

-- A run of bytes with none of the set `p`
abbrev pub Free : (ℕ → Bool) → Bytes → Type 0
Free p = All (λ c. p c ≡ false)

pub tokens_from-run :
    (p : ℕ → Bool) (cur w rest : Bytes)
    → Free p w
    → tokens_from p cur (w ++ rest) ≡ tokens_from p (cur ++ w) rest
unfolding tokens_from
tokens_from-run p cur [] rest h = rw append-nil
tokens_from-run p cur (x ∷ w) rest h =
    rw (h.0, tokens_from) (tokens_from-run p (cur ++ x ∷ []) w rest h.1 ∙ rw append_assoc)

-- A token ends at the first delimiter behind it.
pub tokens-run :
    (p : ℕ → Bool) (x : ℕ) (w : Bytes) (d : ℕ) (rest : Bytes)
    → Free p (x ∷ w)
    → p d ≡ true
    → tokens p ((x ∷ w) ++ d ∷ rest) ≡ (x ∷ w) ∷ tokens p rest
unfolding tokens
tokens-run p x w d rest h hd =
    tokens_from-run p [] (x ∷ w) (d ∷ rest) h ∙ (unfold tokens_from in rw (hd, tokens_from))

pub tokens_last :
    (p : ℕ → Bool) (x : ℕ) (w : Bytes) → Free p (x ∷ w) → tokens p (x ∷ w) ≡ (x ∷ w) ∷ []
unfolding tokens
tokens_last p x w h =
    rw (← append-nil (x ∷ w))
      (tokens_from-run p [] (x ∷ w) [] h ∙ (unfold tokens_from in rw append-nil))

-- Delimiters in front of a token are skipped.
pub tokens-skip :
    (p : ℕ → Bool) (d : ℕ) (rest : Bytes) → p d ≡ true → tokens p (d ∷ rest) ≡ tokens p rest
unfolding tokens
tokens-skip p d rest h = unfold tokens_from in rw (h, tokens_from)

abbrev pub is_byte : ℕ → ℕ → Bool
is_byte c x = x == c

pub memchr-append :
    (c : ℕ) (w rest : Bytes) → Free (is_byte c) w → memchr c (w ++ c ∷ rest) ≡ some (w, rest)
unfolding memchr
memchr-append c [] rest h = rw ==_self
memchr-append c (x ∷ w) rest h = rw (h.0, memchr-append c w rest h.1)

-- What the search for a byte may answer.
abbrev pub Splits : ℕ → Bytes → Option (Bytes × Bytes) → Type 0
Splits c xs none = Free (is_byte c) xs
Splits c xs (some (a, b)) = (xs ≡ a ++ c ∷ b) × Free (is_byte c) a

memchr_step :
    (c x : ℕ) (xs : Bytes) (hit : Bool) (o : Option (Bytes × Bytes))
    → (x == c) ≡ hit
    → Splits c xs o
    → Splits c
        (x ∷ xs)
        (if hit then some ([], xs) else Option.map (λ (p : Bytes × Bytes). (x ∷ p.0, p.1)) o)
memchr_step c x xs true o e h = (ap (λ k. k ∷ xs) ((==_iff x c).0 e), tt)
memchr_step c x xs false none e h = (e, h)
memchr_step c x xs false (some (a, b)) e h = (ap (◌∷◌ x) h.0, (e, h.1))

-- The byte found is the first one.
pub memchr-Splits : (c : ℕ) (xs : Bytes) → Splits c xs (memchr c xs)
unfolding memchr
memchr-Splits c [] = tt
memchr-Splits c (x ∷ xs) = memchr_step c x xs (x == c) (memchr c xs) refl (memchr-Splits c xs)

pub Free-append : (p : ℕ → Bool) (a b : Bytes) → Free p a → Free p b → Free p (a ++ b)
Free-append p [] b h k = k
Free-append p (x ∷ a) b h k = (h.0, Free-append p a b h.1 k)

pub Free-of_append : (p : ℕ → Bool) (a b : Bytes) → Free p (a ++ b) → Free p a × Free p b
Free-of_append p [] b h = (tt, h)
Free-of_append p (x ∷ a) b h = let (ha, hb) = Free-of_append p a b h.1 in ((h.0, ha), hb)

pub strip_cr-append :
    (w : Bytes) (x : ℕ) (v : Bytes) → strip_cr (w ++ x ∷ v) ≡ w ++ strip_cr (x ∷ v)
unfolding strip_cr
strip_cr-append [] x v = refl
strip_cr-append (y ∷ []) x v = refl
strip_cr-append (y ∷ z ∷ w) x v = ap (◌∷◌ y) (strip_cr-append (z ∷ w) x v)

-- The lines that repeated memchr for a newline finds; what stands behind the last newline is no
-- line. `cur` holds what the current line has so far.
unfoldable pub lines_from : Bytes → Bytes → List Bytes
lines_from cur [] = []
lines_from cur (x ∷ xs) = elim (x == b'\n') [
  | true ↦ cur ∷ lines_from [] xs
  | false ↦ lines_from (cur ++ x ∷ []) xs
]

unfoldable pub full_lines : Bytes → List Bytes
unfolding lines_from
full_lines xs = lines_from [] xs

pub lines_from-run :
    (cur w rest : Bytes)
    → Free (is_byte b'\n') w
    → lines_from cur (w ++ b'\n' ∷ rest) ≡ (cur ++ w) ∷ full_lines rest
unfolding lines_from full_lines
lines_from-run cur [] rest h = rw append-nil
lines_from-run cur (x ∷ w) rest h =
    rw (h.0, lines_from) (lines_from-run (cur ++ x ∷ []) w rest h.1 ∙ rw append_assoc)

-- A line ends at the first newline behind it.
pub full_lines-run :
    (w rest : Bytes) → Free (is_byte b'\n') w → full_lines (w ++ b'\n' ∷ rest) ≡ w ∷ full_lines rest
unfolding full_lines
full_lines-run w rest h = lines_from-run [] w rest h

pub c_str-Free : (w : Bytes) → Free (is_byte 0) w → c_str w ≡ w
unfolding c_str
c_str-Free [] h = refl
c_str-Free (x ∷ w) h = rw h.0 (ap (◌∷◌ x) (c_str-Free w h.1))
