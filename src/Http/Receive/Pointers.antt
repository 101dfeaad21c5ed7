-- ===== src/Http/Receive/Pointers.antt =====
-- utils/http.c: the pointer that http_recv_message keeps into its buffer, as a place in the bytes.
use foxtails.Base.{
  ℕ, ◌+◌, ◌-◌, ◌*◌, ◌%◌, ◌^◌, ◌≤◌, ◌<◌, Bool, true, false, Option, none, some, suc, some_eq, [],
  ◌∷◌, length, leb, ltb, if◌then◌else◌, ◌≡◌, refl, sym, ap, ◌∙◌, subst, arith, Bool-cases, inl, inr,
}
use mathlib.Core.Option
use foxtails.Base.Bytes.{Bytes, memmem, starts_with}
use foxtails.Http.Parse.{crlf_crlf}
use foxtails.Http.Receive.{Received, announced_length, find_body, is_complete, make_room}

-- Where the body begins, and the length that is announced for it, in bytes that have a blank line
abbrev pub heading : Bool → Bytes → Option (ℕ × ℕ)
heading expect_body bytes = elim (memmem crlf_crlf bytes) [
  | none ↦ none
  | some i ↦ some (i + 4, if expect_body then announced_length bytes (i + 4) else 0)
]

abbrev pub has_body : Option (ℕ × ℕ) → ℕ → Bool
has_body none n = false
has_body (some (start, size)) n = leb (start + size) n

-- A heading that is known stays.
abbrev pub known_or : Option (ℕ × ℕ) → Option (ℕ × ℕ) → Option (ℕ × ℕ)
known_or none found = found
known_or (some known) found = some known

-- What the variables hold for a known heading, in a buffer at an address
abbrev pub IsAt : ℕ → Received → Option (ℕ × ℕ) → Type 0
IsAt address s none = s.body_start ≡ none
IsAt address s (some (start, size)) =
    (s.body_start ≡ some (address + start)) × (s.content_length ≡ size) × (start ≤ length s.buf)

distance :
    (address start len : ℕ)
    → start ≤ len
    → address + len < 2 ^ 64
    → (address + len + (2 ^ 64 - (address + start))) % 2 ^ 64 ≡ len - start
distance address start len h k = omega arith

enough_left : (start size len : ℕ) → start ≤ len → leb size (len - start) ≡ leb (start + size) len
enough_left start size len h = ground arith

-- Without a move of the buffer, the difference of the pointers is what lies behind the blank line.
pub is_complete-has_body :
    (address : ℕ) (s : Received) (known : Option (ℕ × ℕ))
    → s.buf_address ≡ address
    → IsAt address s known
    → address + length s.buf < 2 ^ 64
    → is_complete s ≡ has_body known (length s.buf)
unfolding is_complete
is_complete-has_body address s none stays at small = rw at refl
is_complete-has_body address s (some (start, size)) stays at small =
    rw (at.0, at.1, stays)
      (ap (leb size) (distance address start (length s.buf) at.2 small)
        ∙ enough_left start size (length s.buf) at.2)

starts_with-length : (p xs : Bytes) → starts_with p xs ≡ true → length p ≤ length xs
unfolding starts_with
starts_with-length [] xs h = omega arith
starts_with-length (y ∷ p) [] h = absurd (ground arith)
starts_with-length (y ∷ p) (x ∷ xs) h = ground (arith, starts_with-length p xs)

memmem_bound : (p s : Bytes) (i : ℕ) → memmem p s ≡ some i → i + length p ≤ length s
unfolding memmem
memmem_bound p [] i h = elim (Bool-cases (starts_with p [])) [
  | inl e ↦
      let first : 0 ≡ i = some_eq (rw e at h) in omega (arith, first, starts_with-length p [] e)
  | inr e ↦ absurd (ground arith)
]
memmem_bound p (x ∷ xs) i h = elim (Bool-cases (starts_with p (x ∷ xs))) [
  | inl e ↦
      let first : 0 ≡ i = some_eq (rw e at h) in
      omega (arith, first, starts_with-length p (x ∷ xs) e)
  | inr e ↦ later (memmem p xs) refl (rw e at h) (memmem_bound p xs)
]
  where
    later :
        (o : Option ℕ)
        → memmem p xs ≡ o
        → Option.map suc o ≡ some i
        → ((j : ℕ) → memmem p xs ≡ some j → j + length p ≤ length xs)
        → i + length p ≤ suc (length xs)
    later none found k bound = absurd (cc)
    later (some j) found k bound =
        let next : suc j ≡ i = some_eq k in omega (arith, next, bound j found)

find_body-known :
    (expect_body : Bool) (s : Received) (b : ℕ)
    → s.body_start ≡ some b
    → find_body expect_body s ≡ s
unfolding find_body
find_body-known expect_body s b h = ground arith

find_body-none :
    (expect_body : Bool) (s : Received)
    → s.body_start ≡ none
    → memmem crlf_crlf s.buf ≡ none
    → find_body expect_body s ≡ s
unfolding find_body
find_body-none expect_body s h k = ground arith

find_body-some :
    (expect_body : Bool) (s : Received) (i : ℕ)
    → s.body_start ≡ none
    → memmem crlf_crlf s.buf ≡ some i
    → find_body expect_body s ≡ record s {
      body_start = some (s.buf_address + (i + 4));
      content_length = if expect_body then announced_length s.buf (i + 4) else 0;
    }
unfolding find_body
find_body-some expect_body s i h k = ground arith

-- One look for the blank line
pub find_body-IsAt :
    (expect_body : Bool) (address : ℕ) (s : Received) (known : Option (ℕ × ℕ))
    → s.buf_address ≡ address
    → IsAt address s known
    → IsAt address (find_body expect_body s) (known_or known (heading expect_body s.buf))
find_body-IsAt expect_body address s (some (start, size)) stays at =
    subst (λ k. IsAt address k (some (start, size))) (sym (find_body-known expect_body s _ at.0)) at
find_body-IsAt expect_body address s none stays at = look (memmem crlf_crlf s.buf) refl
  where
    look :
        (o : Option ℕ)
        → memmem crlf_crlf s.buf ≡ o
        → IsAt address (find_body expect_body s) (elim o [
          | none ↦ none
          | some i ↦ some (i + 4, if expect_body then announced_length s.buf (i + 4) else 0)
        ])
    look none h = ap (λ (k : Received). k.body_start) (find_body-none expect_body s at h) ∙ at
    look (some i) h =
        let found = find_body-some expect_body s i at h in
        let small : i + 4 ≤ length s.buf = memmem_bound crlf_crlf s.buf i h in
        (
          ap (λ (k : Received). k.body_start) found ∙ ap (λ a. some (a + (i + 4))) stays,
          ap (λ (k : Received). k.content_length) found,
          subst (λ (k : Received). i + 4 ≤ length k.buf) (sym found) small,
        )

pub address-find_body :
    (expect_body : Bool) (s : Received) → (find_body expect_body s).buf_address ≡ s.buf_address
unfolding find_body
address-find_body expect_body s = ground arith

-- A realloc that does not move the buffer
pub make_room-IsAt :
    (address : ℕ) (s : Received) (known : Option (ℕ × ℕ))
    → s.buf_address ≡ address
    → IsAt address s known
    → ((make_room address s).buf_address ≡ address) × IsAt address (make_room address s) known
unfolding make_room
make_room-IsAt address s known stays at = elim (Bool-cases (ltb (s.cap - length s.buf) 1024)) [
  | inl full ↦ rw full (refl, again known at)
  | inr free ↦ rw free (stays, at)
]
  where
    again :
        (k : Option (ℕ × ℕ))
        → IsAt address s k
        → IsAt address (record s { cap = s.cap * 2; buf_address = address }) k
    again none h = h
    again (some (start, size)) h = h
