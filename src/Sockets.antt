-- ===== src/Sockets.antt =====
-- utils/sockets.c: socket_create_auto, which connects to the backend of a proxy route. What the
-- network answers is an argument.
pub mod Url
pub mod Create
pub mod Connect
pub mod Balance
use foxtails.Base.{
  ℕ, zero, suc, ◌+◌, ◌-◌, ◌*◌, ◌%◌, Bool, true, false, ◌&&◌, ◌||◌, Option, none, some, [], ◌∷◌,
  length, drop, min, ltb, leb, ◌==◌, ◌^◌, if◌then◌else◌,
}
use mathlib.Core.Option
use foxtails.Base.Bytes.{Bytes, codes, starts_with, drop_while, is_space}

-- The value of a digit in any base up to 16, or 16 for other bytes
unfoldable pub digit_value : ℕ → ℕ
digit_value c =
    if leb b'0' c && leb c b'9'
    then c - b'0'
    else if leb b'a' c && leb c b'f'
    then c - b'a' + 10
    else if leb b'A' c && leb c b'F'
    then c - b'A' + 10
    else 16

-- The number that the digits in front spell in a base, behind `acc`
unfoldable pub read_base : ℕ → ℕ → Bytes → ℕ
unfolding digit_value
read_base base acc [] = acc
read_base base acc (c ∷ cs) =
    if ltb (digit_value c) base then read_base base (acc * base + digit_value c) cs else acc

-- %i without the sign: hexadecimal behind 0x, octal behind 0, else decimal; `none` without a digit
unfoldable pub scan_unsigned : Bytes → Option ℕ
unfolding read_base
scan_unsigned [] = none
scan_unsigned (c ∷ []) = if ltb (digit_value c) 10 then some (digit_value c) else none
scan_unsigned (c ∷ x ∷ cs) =
    if c == b'0'
    then (if x == b'x' || x == b'X'
        then (elim cs [
          | [] ↦ none
          | d ∷ ds ↦ if ltb (digit_value d) 16 then some (read_base 16 0 (d ∷ ds)) else none
        ])
        else some (read_base 8 0 (x ∷ cs)))
    else if ltb (digit_value c) 10
    then some (read_base 10 0 (c ∷ x ∷ cs))
    else none

-- htons keeps the low 16 bits of the int.
abbrev pub port_of : Bool → ℕ → ℕ
port_of minus n =
    if minus then (65536 - min (2 ^ 63) n % 65536) % 65536 else min (2 ^ 63 - 1) n % 65536

abbrev pub port_of_scan : Bool → Option ℕ → Option ℕ
port_of_scan minus none = none
port_of_scan minus (some n) = some (port_of minus n)

-- The sign, and the number behind it
unfoldable pub scan_signed : Bytes → Option ℕ
unfolding scan_unsigned
scan_signed [] = none
scan_signed (c ∷ cs) =
    if c == b'-'
    then port_of_scan true (scan_unsigned cs)
    else if c == b'+'
    then port_of_scan false (scan_unsigned cs)
    else port_of_scan false (scan_unsigned (c ∷ cs))

unfoldable pub scan_port : Bytes → Option ℕ
unfolding scan_signed
scan_port s = scan_signed (drop_while is_space s)

-- %15[^:]: at most `n` bytes that are no colon, and what follows them
unfoldable pub scan_host : ℕ → Bytes → Bytes × Bytes
scan_host zero s = ([], s)
scan_host (suc n) [] = ([], [])
scan_host (suc n) (c ∷ cs) =
    let rest = scan_host n cs in if c == b':' then ([], c ∷ cs) else (c ∷ rest.0, rest.1)

-- `:%i` behind the host
abbrev pub host_and_port : Bytes → Bytes → Option (Bytes × ℕ)
host_and_port [] after = none
host_and_port ip [] = none
host_and_port ip (c ∷ cs) =
    if c == b':' then Option.map (λ (port : ℕ). (ip, port)) (scan_port cs) else none

-- sscanf(url, "http://%15[^:]:%i", ip, &port) from behind the scheme; `none` for fewer than two
unfoldable pub scan_url : Bytes → Option (Bytes × ℕ)
unfolding scan_host scan_port
scan_url s = let (ip, after) = scan_host 15 s in host_and_port ip after

-- socket_create_auto; `connect` answers `none` where socket, malloc, inet_pton or connect fails.
unfoldable pub create_auto {ℓ} :
    {Backend : Type ℓ} → (Bytes → ℕ → Option Backend) → Bytes → Option Backend
unfolding scan_url
create_auto connect url =
    if ltb (length url) 7
    then none
    else if starts_with (codes "http://") url
    then (elim (scan_url (drop 7 url)) [ none ↦ none | some (ip, port) ↦ connect ip port ])
    else none
