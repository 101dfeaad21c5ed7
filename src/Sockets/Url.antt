-- ===== src/Sockets/Url.antt =====
-- utils/sockets.c: the host and the port of a backend's URL are read as they are written.
use mathlib.Core.List.{append-nil}
use mathlib.Core.Option
use foxtails.Base.{
  ℕ, zero, suc, ◌+◌, ◌-◌, ◌*◌, ◌≤◌, ◌<◌, true, false, Option, none, some, [], ◌∷◌, ◌++◌, length,
  drop, ltb, Bool-cases, inl, inr, ◌==◌, ◌≡◌, refl, sym, ap, ◌∙◌, arith,
}
use foxtails.Base.Bytes.{Bytes, codes, starts_with, drop_while, is_space, is_byte}
use foxtails.Base.Decimal.{
  is_digit, show_dec, read_digits, read_digits-show_dec, starts_digit, starts_digit-show_dec,
  zero_first, zero_first-show_dec,
}
use foxtails.Base.Words.{none_of, IsWord}
use foxtails.Sockets.{
  digit_value, read_base, scan_unsigned, scan_signed, scan_port, scan_host, scan_url, create_auto,
  port_of_scan, host_and_port,
}

scan_host-run :
    (n : ℕ) (w rest : Bytes)
    → none_of (is_byte b':') w ≡ true
    → length w ≤ n
    → scan_host n (w ++ b':' ∷ rest) ≡ (w, b':' ∷ rest)
unfolding scan_host
scan_host-run zero [] rest h k = refl
scan_host-run zero (x ∷ w) rest h k = absurd (omega arith)
scan_host-run (suc n) [] rest h k = refl
scan_host-run (suc n) (x ∷ w) rest h k =
    let plain : (x == b':') ≡ false = ground arith in
    rw plain (
      ap (λ (p : Bytes × Bytes). (x ∷ p.0, p.1))
        (scan_host-run n w rest (ground arith) (omega arith)))

read_base-decimal : (acc : ℕ) (s : Bytes) → read_base 10 acc s ≡ read_digits acc s
unfolding read_base read_digits digit_value is_digit
read_base-decimal acc [] = refl
read_base-decimal acc (c ∷ cs) = ground (arith, read_base-decimal (acc * 10 + (c - 48)) cs)

scan_unsigned_of_digits :
    (s : Bytes)
    → starts_digit s ≡ true
    → zero_first s ≡ false
    → scan_unsigned s ≡ some (read_base 10 0 s)
unfolding scan_unsigned is_digit read_base digit_value
scan_unsigned_of_digits [] h k = absurd (ground arith)
scan_unsigned_of_digits (c ∷ []) h k = ground arith
scan_unsigned_of_digits (c ∷ x ∷ cs) h k = ground arith

digits_no_space : (s : Bytes) → starts_digit s ≡ true → drop_while is_space s ≡ s
unfolding drop_while is_space is_digit
digits_no_space [] h = refl
digits_no_space (c ∷ cs) h = ground arith

scan_signed_of_digits :
    (s : Bytes) → starts_digit s ≡ true → scan_signed s ≡ port_of_scan false (scan_unsigned s)
unfolding scan_signed is_digit
scan_signed_of_digits [] h = absurd (ground arith)
scan_signed_of_digits (c ∷ cs) h =
    let no_minus : (c == b'-') ≡ false = ground arith in
    let no_plus : (c == b'+') ≡ false = ground arith in rw (no_minus, no_plus) refl

scan_port_of_digits :
    (s : Bytes) → starts_digit s ≡ true → scan_port s ≡ port_of_scan false (scan_unsigned s)
unfolding scan_port
scan_port_of_digits s h = ap scan_signed (digits_no_space s h) ∙ scan_signed_of_digits s h

scan_unsigned-show_dec : (n : ℕ) → scan_unsigned (show_dec n) ≡ some n
scan_unsigned-show_dec zero = unfold scan_unsigned in unfold show_dec in unfold digit_value in refl
scan_unsigned-show_dec (suc n) =
    scan_unsigned_of_digits (show_dec (suc n)) (starts_digit-show_dec (suc n))
      (zero_first-show_dec (suc n) (omega arith))
    ∙ ap some (
        read_base-decimal 0 (show_dec (suc n))
        ∙ ap (read_digits 0) (sym (append-nil (show_dec (suc n))))
        ∙ read_digits-show_dec (suc n) [] tt)

scan_port-show_dec : (port : ℕ) → port < 65536 → scan_port (show_dec port) ≡ some port
scan_port-show_dec port h =
    scan_port_of_digits (show_dec port) (starts_digit-show_dec port)
    ∙ ap (port_of_scan false) (scan_unsigned-show_dec port)
    ∙ ap some (ground arith)

scan_url-host_port :
    (x : ℕ) (ip : Bytes) (port : ℕ)
    → none_of (is_byte b':') (x ∷ ip) ≡ true
    → length (x ∷ ip) ≤ 15
    → port < 65536
    → scan_url ((x ∷ ip) ++ b':' ∷ show_dec port) ≡ some (x ∷ ip, port)
unfolding scan_url
scan_url-host_port x ip port h k small =
    ap (λ (p : Bytes × Bytes). host_and_port p.0 p.1)
      (scan_host-run 15 (x ∷ ip) (show_dec port) h k)
    ∙ ap (Option.map (λ (n : ℕ). (x ∷ ip, n))) (scan_port-show_dec port small)

-- socket_create_auto connects to the host and the port that a URL `http://host:port` names, for a
-- host of 1 to 15 bytes without a colon and a port that fits 16 bits.
pub create_auto-host_port {ℓ} :
    {Backend : Type ℓ} (connect : Bytes → ℕ → Option Backend) (host : Bytes) (port : ℕ)
    → IsWord (is_byte b':') host
    → length host ≤ 15
    → port < 65536
    → create_auto connect (codes "http://" ++ (host ++ b':' ∷ show_dec port)) ≡ connect host port
unfolding create_auto starts_with
create_auto-host_port connect [] port h k small = absurd (ground arith)
create_auto-host_port connect (x ∷ ip) port h k small =
    let long : ltb (length (codes "http://" ++ ((x ∷ ip) ++ b':' ∷ show_dec port))) 7 ≡ false =
      ground arith in
    rw (long, scan_url-host_port x ip port h k small) refl

-- create_auto gives what its connection gives.
pub create_auto-map :
    {A B : Type 0} (f : A → B) (c : Bytes → ℕ → Option A) (url : Bytes)
    → create_auto (λ ip port. Option.map f (c ip port)) url ≡ Option.map f (create_auto c url)
unfolding create_auto
create_auto-map f c url = elim (Bool-cases (ltb (length url) 7)) [
  | inl short ↦ rw short refl
  | inr long ↦ elim (Bool-cases (starts_with (codes "http://") url)) [
    | inl http ↦ rw (long, http) (found (scan_url (drop 7 url)))
    | inr other ↦ rw (long, other) refl
  ]
]
  where
    found :
        (o : Option (Bytes × ℕ))
        → elim o [ none ↦ none | some (ip, port) ↦ Option.map f (c ip port) ]
          ≡ Option.map f (elim o [ none ↦ none | some (ip, port) ↦ c ip port ])
    found none = refl
    found (some (ip, port)) = refl
