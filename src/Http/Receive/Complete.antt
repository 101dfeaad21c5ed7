-- ===== src/Http/Receive/Complete.antt =====
-- utils/http.c: http_recv_message loses nothing of what arrives, and stops for a reason.
use mathlib.Core.List.{append_assoc, append-nil}
use foxtails.Base.{
  ℕ, zero, suc, ◌+◌, ◌-◌, ◌≤◌, ◌<◌, Bool, true, false, List, [], ◌∷◌, ◌++◌, All, length,
  length-append, take, take_all, ◌≡◌, ◌⊎◌, inl, inr, refl, sym, ap, ◌∙◌, subst, arith,
}
use foxtails.Base.Bytes.{Bytes}
use foxtails.Http.Receive.{
  Arrival, Received, nothing_received, find_body, is_complete, make_room, recv_loop, recv_message,
}

-- What the calls of recv found, one behind the other
unfoldable pub chunks : List Arrival → Bytes
chunks [] = []
chunks (a ∷ arrivals) = a.chunk ++ chunks arrivals

-- At least one byte, and no more than the free room that the loop keeps
abbrev pub IsSmall : Arrival → Type 0
IsSmall a = (1 ≤ length (a.chunk)) × (length (a.chunk) ≤ 1024)

abbrev pub HasRoom : Received → Type 0
HasRoom s = length s.buf + 1024 ≤ s.cap

-- The variables after a call of recv that found `bytes`
abbrev pub scanned : Bool → Received → Bytes → Received
scanned expect_body s bytes = find_body expect_body (record s { buf = s.buf ++ bytes })

-- The variables when the loop asks, after its `n`-th call of recv, whether the message is complete, if
-- it has gone on after each call before
unfoldable pub received : Bool → Received → List Arrival → ℕ → Received
received expect_body s [] n = s
received expect_body s (a ∷ arrivals) zero = s
received expect_body s (a ∷ arrivals) (suc n) = elim n [
  | zero ↦ scanned expect_body s (a.chunk)
  | suc m ↦
      received expect_body (make_room a.address (scanned expect_body s (a.chunk))) arrivals (suc m)
]

-- The bytes of the first `count` arrivals: the loop has gone on after each of the others, since the
-- message was not complete, and has ended after this one since it was, or with the last arrival.
pub record Reads (expect_body : Bool) (s : Received) (arrivals : List Arrival) (answer : Bytes)
    : Type 0 where
  pub count : ℕ
  pub bytes : answer ≡ s.buf ++ chunks (take count arrivals)
  pub within : count ≤ length arrivals
  pub goes : (m : ℕ) → 0 < m → m < count → is_complete (received expect_body s arrivals m) ≡ false
  pub stops :
      (count ≡ length arrivals)
      ⊎ ((0 < count) × (is_complete (received expect_body s arrivals count) ≡ true))

pub buf-find_body : (expect_body : Bool) (s : Received) → (find_body expect_body s).buf ≡ s.buf
unfolding find_body
buf-find_body expect_body s = ground arith

cap-find_body : (expect_body : Bool) (s : Received) → (find_body expect_body s).cap ≡ s.cap
unfolding find_body
cap-find_body expect_body s = ground arith

pub buf-make_room : (address : ℕ) (s : Received) → (make_room address s).buf ≡ s.buf
unfolding make_room
buf-make_room address s = ground arith

pub make_room-HasRoom :
    (address : ℕ) (s : Received)
    → length s.buf ≤ s.cap
    → 2048 ≤ s.cap
    → HasRoom (make_room address s)
unfolding make_room
make_room-HasRoom address s h k = ground arith

pub cap-make_room : (address : ℕ) (s : Received) → s.cap ≤ (make_room address s).cap
unfolding make_room
cap-make_room address s = ground arith

not_empty : (bytes : Bytes) → 1 ≤ length bytes → (x : ℕ) × (xs : Bytes) × (bytes ≡ x ∷ xs)
not_empty [] h = absurd (omega arith)
not_empty (x ∷ xs) h = (x, xs, refl)

recv_loop-chunk :
    (expect_body : Bool) (s : Received) (a : Arrival) (arrivals : List Arrival) (x : ℕ) (xs : Bytes)
    → take (s.cap - length s.buf) (a.chunk) ≡ x ∷ xs
    → recv_loop expect_body s (a ∷ arrivals) ≡ elim (is_complete (scanned expect_body s (x ∷ xs))) [
      | true ↦ (scanned expect_body s (x ∷ xs)).buf
      | false ↦
          recv_loop expect_body (make_room a.address (scanned expect_body s (x ∷ xs))) arrivals
    ]
unfolding recv_loop
recv_loop-chunk expect_body s a arrivals x xs h = rw (h, recv_loop) refl

-- Where the arrival is small, the whole of it is taken.
pub recv_loop_whole :
    (expect_body : Bool) (s : Received) (a : Arrival) (arrivals : List Arrival)
    → HasRoom s
    → IsSmall a
    → recv_loop expect_body s (a ∷ arrivals)
      ≡ elim (is_complete (scanned expect_body s (a.chunk))) [
        | true ↦ (scanned expect_body s (a.chunk)).buf
        | false ↦
            recv_loop expect_body (make_room a.address (scanned expect_body s (a.chunk))) arrivals
      ]
recv_loop_whole expect_body s a arrivals room small =
    let (x, xs, cons) = not_empty (a.chunk) small.0 in
    let whole : take (s.cap - length s.buf) (a.chunk) ≡ x ∷ xs =
      take_all (a.chunk) (s.cap - length s.buf) (omega (arith, small.1)) ∙ cons in
    recv_loop-chunk expect_body s a arrivals x xs whole
    ∙ ap
        (λ bytes.
          let after = scanned expect_body s bytes in
          elim (is_complete after) [
            | true ↦ after.buf
            | false ↦ recv_loop expect_body (make_room a.address after) arrivals
          ])
        (sym cons)

received-suc :
    (expect_body : Bool) (s : Received) (a : Arrival) (arrivals : List Arrival) (n : ℕ)
    → 0 < n
    → received expect_body s (a ∷ arrivals) (suc n)
      ≡ received expect_body (make_room a.address (scanned expect_body s (a.chunk))) arrivals n
unfolding received
received-suc expect_body s a arrivals zero h = absurd (omega arith)
received-suc expect_body s a arrivals (suc n) h = refl

stop_or_go :
    (expect_body b : Bool) (s : Received) (a : Arrival) (arrivals : List Arrival) (rest : Bytes)
    → let s' = scanned expect_body s (a.chunk) in
      is_complete s' ≡ b
      → s'.buf ≡ s.buf ++ a.chunk
      → Reads expect_body (make_room a.address s') arrivals rest
      → (make_room a.address s').buf ≡ s'.buf
      → Reads expect_body s (a ∷ arrivals) (elim b [ true ↦ s'.buf | false ↦ rest ])
unfolding chunks received
stop_or_go expect_body true s a arrivals rest h e r same = record {
  count = 1;
  bytes = e ∙ ap (λ k. s.buf ++ k) (sym (append-nil (a.chunk)));
  within = omega arith;
  goes = λ m some_left below. absurd (omega arith);
  stops = inr (omega arith, h);
}
stop_or_go expect_body false s a arrivals rest h e r same = record {
  count = suc r.count;
  bytes =
      r.bytes
      ∙ ap (λ k. k ++ chunks (take r.count arrivals)) (same ∙ e)
      ∙ append_assoc s.buf (a.chunk) (chunks (take r.count arrivals));
  within = omega (arith, r.within);
  goes = later;
  stops = elim r.stops [
    | inl every ↦ inl (ap suc every)
    | inr (some_left, complete) ↦ inr (
      omega arith,
      ap is_complete (received-suc expect_body s a arrivals r.count some_left) ∙ complete,
    )
  ];
}
  where
    later :
        (m : ℕ)
        → 0 < m
        → m < suc r.count
        → is_complete (received expect_body s (a ∷ arrivals) m) ≡ false
    later zero some_left below = absurd (omega arith)
    later (suc zero) some_left below = h
    later (suc (suc m)) some_left below = r.goes (suc m) (omega arith) (omega arith)

pub chunk_fits :
    (expect_body : Bool) (s : Received) (bytes : Bytes)
    → HasRoom s
    → 2048 ≤ s.cap
    → length bytes ≤ 1024
    → (length (scanned expect_body s bytes).buf ≤ (scanned expect_body s bytes).cap)
      × (2048 ≤ (scanned expect_body s bytes).cap)
chunk_fits expect_body s bytes room large small =
    let added = record s { buf = s.buf ++ bytes } in
    (
      omega (
        arith,
        ap (λ (k : Bytes). length k) (buf-find_body expect_body added),
        cap-find_body expect_body added,
        length-append s.buf bytes,
      ),
      omega (arith, cap-find_body expect_body added),
    )

recv_loop-Reads :
    (expect_body : Bool) (s : Received) (arrivals : List Arrival)
    → HasRoom s
    → 2048 ≤ s.cap
    → All IsSmall arrivals
    → Reads expect_body s arrivals (recv_loop expect_body s arrivals)
unfolding recv_loop chunks
recv_loop-Reads expect_body s [] room large small = record {
  count = 0;
  bytes = sym (append-nil s.buf);
  within = omega arith;
  goes = λ m some_left below. absurd (omega arith);
  stops = inl refl;
}
recv_loop-Reads expect_body s (a ∷ arrivals) room large small =
    let s' = scanned expect_body s (a.chunk) in
    let buf_is : s'.buf ≡ s.buf ++ a.chunk =
      buf-find_body expect_body (record s { buf = s.buf ++ a.chunk }) in
    let fits : (length s'.buf ≤ s'.cap) × (2048 ≤ s'.cap) =
      chunk_fits expect_body s (a.chunk) room large small.0.1 in
    subst (Reads expect_body s (a ∷ arrivals))
      (sym (recv_loop_whole expect_body s a arrivals room small.0))
      (stop_or_go expect_body _ s a arrivals _ refl buf_is
        (recv_loop-Reads expect_body (make_room a.address s') arrivals
          (make_room-HasRoom a.address s' fits.0 fits.1)
          (omega (arith, cap-make_room a.address s', fits.1)) small.1)
        (buf-make_room a.address s'))

-- If each call of recv finds between 1 and 1024 bytes, http_recv_message answers with all bytes of
-- the first calls in their order, none of them lost or cut, however often the buffer grows and
-- wherever it moves. It stops after the first call at which its test finds the message complete, for
-- the buffer and the pointers that these calls have left, or else after the last call.
pub recv_message-Reads :
    (expect_body : Bool) (address : ℕ) (arrivals : List Arrival)
    → All IsSmall arrivals
    → Reads expect_body
        (nothing_received address)
        arrivals
        (recv_message expect_body address arrivals)
unfolding recv_message
recv_message-Reads expect_body address arrivals small =
    recv_loop-Reads expect_body (nothing_received address) arrivals (omega arith) (omega arith)
      small
