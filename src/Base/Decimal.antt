-- ===== src/Base/Decimal.antt =====
-- Numbers in decimal: what printf prints for %zu and %i, and what strtoul, strtol and atoi read.
use Prim.Native.Nat.{ℕ, zero, suc, ◌+◌, ◌-◌, ◌*◌, ◌/◌, ◌%◌, ◌^◌, ◌≤◌, ◌<◌, min}
use mathlib.Core.Path.{◌≡◌, refl, sym, ap, ◌∙◌}
use mathlib.Core.Logic.{inl, inr}
use mathlib.Core.Bool.{Bool, true, false, ◌&&◌, ◌||◌}
use mathlib.Core.List.{[], ◌∷◌, ◌++◌, append-nil}
use native.Mathlib.Omega.{arith}
use foxtails.Base.Tests.{ltb, leb, ◌==◌, if◌then◌else◌, Bool-cases}
use foxtails.Base.Words.{none_of}
use foxtails.Base.Bytes.{Bytes, is_space, drop_while}

-- A signed integer: `negsuc n` is -(n + 1).
pub data ℤ : Type 0 where
  pos : ℕ → ℤ
  negsuc : ℕ → ℤ

abbrev neg : ℕ → ℤ
neg zero = pos 0
neg (suc n) = negsuc n

unfoldable pub is_digit : ℕ → Bool
is_digit c = leb b'0' c && leb c b'9'

-- The digits of `n` in front of `acc`, the last digit first.
show_onto : ℕ → ℕ → Bytes → Bytes
show_onto zero n acc = acc
show_onto (suc fuel) n acc =
    let longer : Bytes = (48 + n % 10) ∷ acc in
    elim (n / 10 == 0) [ true ↦ longer | false ↦ show_onto fuel (n / 10) longer ]

-- %zu
unfoldable pub show_dec : ℕ → Bytes
unfolding show_onto
show_dec n = show_onto (n + 1) n []

-- %i
unfoldable pub show_int : ℤ → Bytes
show_int (pos n) = show_dec n
show_int (negsuc n) = b'-' ∷ show_dec (n + 1)

-- The number that the digits in front spell, behind the digits that `acc` stands for.
unfoldable pub read_digits : ℕ → Bytes → ℕ
unfolding is_digit
read_digits acc [] = acc
read_digits acc (c ∷ cs) = if is_digit c then read_digits (acc * 10 + (c - 48)) cs else acc

abbrev pub ulong_max : ℕ
ulong_max = 2 ^ 64 - 1

-- strtoul(s, NULL, 10): spaces, a sign, digits; the largest value when it does not fit, and a
-- minus sign negates modulo 2^64.
strtoul_unsigned : Bool → ℕ → ℕ
strtoul_unsigned minus v =
    if ltb ulong_max v then ulong_max else if minus then (2 ^ 64 - v) % 2 ^ 64 else v

strtoul_signed : Bytes → ℕ
strtoul_signed [] = 0
strtoul_signed (c ∷ cs) =
    if c == b'-'
    then strtoul_unsigned true (read_digits 0 cs)
    else if c == b'+'
    then strtoul_unsigned false (read_digits 0 cs)
    else strtoul_unsigned false (read_digits 0 (c ∷ cs))

unfoldable pub strtoul : Bytes → ℕ
unfolding strtoul_signed strtoul_unsigned is_space drop_while read_digits
strtoul s = strtoul_signed (drop_while is_space s)

-- strtol(s, NULL, 10): the same, kept in the range of a long.
strtol_signed : Bytes → ℤ
strtol_signed [] = pos 0
strtol_signed (c ∷ cs) =
    if c == b'-'
    then neg (min (2 ^ 63) (read_digits 0 cs))
    else if c == b'+'
    then pos (min (2 ^ 63 - 1) (read_digits 0 cs))
    else pos (min (2 ^ 63 - 1) (read_digits 0 (c ∷ cs)))

unfoldable pub strtol : Bytes → ℤ
unfolding strtol_signed is_space drop_while read_digits
strtol s = strtol_signed (drop_while is_space s)

-- The conversion of a long to an int: modulo 2^32, into the signed range.
abbrev int_of_word : ℕ → ℤ
int_of_word w = if ltb w (2 ^ 31) then pos w else negsuc (2 ^ 32 - 1 - w)

unfoldable pub int_of_long : ℤ → ℤ
int_of_long (pos n) = int_of_word (n % 2 ^ 32)
int_of_long (negsuc n) = int_of_word (2 ^ 32 - 1 - n % 2 ^ 32)

-- atoi, which is strtol and that conversion.
unfoldable pub atoi : Bytes → ℤ
unfolding strtol int_of_long
atoi s = int_of_long (strtol s)

-- The first byte, if there is one, is no digit.
abbrev pub NoDigit : Bytes → Type 0
NoDigit [] = Unit
NoDigit (c ∷ cs) = is_digit c ≡ false

is_digit-digit : (n : ℕ) → is_digit (48 + n % 10) ≡ true
unfolding is_digit
is_digit-digit n = ground arith

read_digits-show_onto :
    (fuel n : ℕ) (acc : Bytes) → n < fuel → read_digits 0 (show_onto fuel n acc) ≡ read_digits n acc
unfolding show_onto read_digits
read_digits-show_onto zero n acc h = absurd (omega arith)
read_digits-show_onto (suc fuel) n acc h =
    ground (arith, read_digits-show_onto fuel (n / 10) ((48 + n % 10) ∷ acc))

read_digits-stop : (n : ℕ) (rest : Bytes) → NoDigit rest → read_digits n rest ≡ n
unfolding read_digits
read_digits-stop n [] h = refl
read_digits-stop n (c ∷ cs) h = rw h

show_onto-append :
    (fuel n : ℕ) (acc rest : Bytes) → show_onto fuel n (acc ++ rest) ≡ show_onto fuel n acc ++ rest
unfolding show_onto
show_onto-append zero n acc rest = refl
show_onto-append (suc fuel) n acc rest = elim (Bool-cases (n / 10 == 0)) [
  | inl e ↦ rw (e, show_onto)
  | inr e ↦ rw (e, show_onto) (show_onto-append fuel (n / 10) ((48 + n % 10) ∷ acc) rest)
]

-- The digits that are printed read back as the number, whatever stands behind them.
pub read_digits-show_dec :
    (n : ℕ) (rest : Bytes) → NoDigit rest → read_digits 0 (show_dec n ++ rest) ≡ n
unfolding show_dec
read_digits-show_dec n rest h =
    rw (← show_onto-append (n + 1) n [] rest)
      (read_digits-show_onto (n + 1) n rest (omega arith) ∙ read_digits-stop n rest h)

abbrev pub starts_digit : Bytes → Bool
starts_digit [] = false
starts_digit (c ∷ cs) = is_digit c

starts_digit-show_onto :
    (fuel n : ℕ) (acc : Bytes) → n < fuel → starts_digit (show_onto fuel n acc) ≡ true
unfolding show_onto
starts_digit-show_onto zero n acc h = absurd (omega arith)
starts_digit-show_onto (suc fuel) n acc h = elim (Bool-cases (n / 10 == 0)) [
  | inl e ↦ rw (e, show_onto) (is_digit-digit n)
  | inr e ↦
      rw (e, show_onto) (starts_digit-show_onto fuel (n / 10) ((48 + n % 10) ∷ acc) (ground arith))
]

abbrev pub zero_first : Bytes → Bool
zero_first [] = true
zero_first (c ∷ cs) = c == b'0'

zero_first-show_onto :
    (fuel n : ℕ) (acc : Bytes) → n < fuel → 0 < n → zero_first (show_onto fuel n acc) ≡ false
unfolding show_onto
zero_first-show_onto zero n acc h k = absurd (omega arith)
zero_first-show_onto (suc fuel) n acc h k = elim (Bool-cases (n / 10 == 0)) [
  | inl e ↦ rw (e, show_onto) (ground arith)
  | inr e ↦
      rw (e, show_onto)
        (zero_first-show_onto fuel (n / 10) ((48 + n % 10) ∷ acc) (ground arith) (ground arith))
]

-- A printed number begins with a digit, which is 0 for the number 0 only.
pub starts_digit-show_dec : (n : ℕ) → starts_digit (show_dec n) ≡ true
unfolding show_dec
starts_digit-show_dec n = starts_digit-show_onto (n + 1) n [] (omega arith)

pub zero_first-show_dec : (n : ℕ) → 0 < n → zero_first (show_dec n) ≡ false
unfolding show_dec
zero_first-show_dec n h = zero_first-show_onto (n + 1) n [] (omega arith) h

strtoul_of_digits :
    (s : Bytes) → starts_digit s ≡ true → read_digits 0 s ≤ ulong_max → strtoul s ≡ read_digits 0 s
unfolding strtoul strtoul_signed strtoul_unsigned is_space is_digit drop_while
strtoul_of_digits [] h small = absurd (ground arith)
strtoul_of_digits (c ∷ cs) h small =
    let no_space : (c == 32 || (leb 9 c && leb c 13)) ≡ false = ground arith in
    rw no_space (ground arith)

-- A number that fits 64 bits is read by strtoul as it was printed.
pub strtoul-show_dec : (n : ℕ) → n < 2 ^ 64 → strtoul (show_dec n) ≡ n
strtoul-show_dec n h =
    let read : read_digits 0 (show_dec n) ≡ n =
      ap (read_digits 0) (sym (append-nil (show_dec n))) ∙ read_digits-show_dec n [] tt in
    strtoul_of_digits (show_dec n) (starts_digit-show_dec n) (omega (arith, read)) ∙ read

strtol_of_digits :
    (s : Bytes)
    → starts_digit s ≡ true
    → read_digits 0 s ≤ 2 ^ 63 - 1
    → strtol s ≡ pos (read_digits 0 s)
unfolding strtol strtol_signed is_space is_digit drop_while
strtol_of_digits [] h small = absurd (ground arith)
strtol_of_digits (c ∷ cs) h small =
    let no_space : (c == 32 || (leb 9 c && leb c 13)) ≡ false = ground arith in
    rw no_space (ground arith)

int_of_long-small : (n : ℕ) → n < 2 ^ 31 → int_of_long (pos n) ≡ pos n
unfolding int_of_long
int_of_long-small n h = ground arith

-- A number that fits an int is read by atoi as it was printed.
pub atoi-show_dec : (n : ℕ) → n < 2 ^ 31 → atoi (show_dec n) ≡ pos n
unfolding atoi
atoi-show_dec n h =
    let read : read_digits 0 (show_dec n) ≡ n =
      ap (read_digits 0) (sym (append-nil (show_dec n))) ∙ read_digits-show_dec n [] tt in
    ap int_of_long
      (strtol_of_digits (show_dec n) (starts_digit-show_dec n) (omega (arith, read)) ∙ ap pos read)
    ∙ int_of_long-small n h

none_of-show_onto :
    (p : ℕ → Bool)
    → ((d : ℕ) → d < 10 → p (48 + d) ≡ false)
    → (fuel n : ℕ) (acc : Bytes) → none_of p acc ≡ true
    → none_of p (show_onto fuel n acc) ≡ true
unfolding show_onto
none_of-show_onto p h zero n acc k = k
none_of-show_onto p h (suc fuel) n acc k =
    let digit : none_of p ((48 + n % 10) ∷ acc) ≡ true = ground (arith, h (n % 10) (omega arith)) in
    elim (Bool-cases (n / 10 == 0)) [
      | inl e ↦ rw (e, show_onto) digit
      | inr e ↦ rw (e, show_onto) (none_of-show_onto p h fuel (n / 10) ((48 + n % 10) ∷ acc) digit)
    ]

-- A printed number is made of digits.
pub none_of-show_dec :
    (p : ℕ → Bool)
    → ((d : ℕ) → d < 10 → p (48 + d) ≡ false)
    → (n : ℕ) → none_of p (show_dec n) ≡ true
unfolding show_dec
none_of-show_dec p h n = none_of-show_onto p h (n + 1) n [] refl

-- a - b
abbrev pub sub_ℕ : ℕ → ℕ → ℤ
sub_ℕ a b = if leb b a then pos (a - b) else negsuc (b - a - 1)
