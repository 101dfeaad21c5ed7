-- ===== src/Http/Receive/Gather.antt =====
-- utils/http.c: http_recv_message against a reading of messages that has no buffer and no pointers.
use foxtails.Base.{
  ℕ, ◌+◌, ◌^◌, ◌≤◌, ◌<◌, Bool, true, false, Option, none, some, List, [], ◌∷◌, ◌++◌, All, length,
  length-append, if◌then◌else◌, ◌≡◌, refl, ap, ◌∙◌, arith,
}
use foxtails.Base.Bytes.{Bytes}
use foxtails.Http.Receive.Complete.{
  IsSmall, HasRoom, chunks, scanned, buf-find_body, buf-make_room, make_room-HasRoom, cap-make_room,
  recv_loop_whole, chunk_fits,
}
use foxtails.Http.Receive.{
  Arrival, Received, nothing_received, is_complete, make_room, recv_loop, recv_message,
}
use foxtails.Http.Receive.Pointers.{
  heading, has_body, known_or, IsAt, is_complete-has_body, find_body-IsAt, address-find_body,
  make_room-IsAt,
}

-- Bytes are gathered until, behind the blank line, the announced number of them has come.
unfoldable pub gather : Bool → Option (ℕ × ℕ) → Bytes → List Arrival → Bytes
gather expect_body known before [] = before
gather expect_body known before (a ∷ arrivals) =
    let bytes = before ++ a.chunk in
    let now = known_or known (heading expect_body bytes) in
    let rest = gather expect_body now bytes arrivals in
    if has_body now (length bytes) then bytes else rest

gathered :
    (b c : Bool) (bytes bytes' rest rest' : Bytes)
    → b ≡ c
    → bytes ≡ bytes'
    → rest ≡ rest'
    → elim b [ true ↦ bytes | false ↦ rest ] ≡ (if c then bytes' else rest')
gathered true true bytes bytes' rest rest' h e k = e
gathered false false bytes bytes' rest rest' h e k = k
gathered true false bytes bytes' rest rest' h e k = absurd (cc)
gathered false true bytes bytes' rest rest' h e k = absurd (cc)

module _ (expect_body : Bool) (address : ℕ) where
  recv_loop-gather :
      (s : Received) (known : Option (ℕ × ℕ)) (arrivals : List Arrival)
      → s.buf_address ≡ address
      → IsAt address s known
      → HasRoom s
      → 2048 ≤ s.cap
      → All IsSmall arrivals
      → All (λ a. a.address ≡ address) arrivals
      → address + length s.buf + length (chunks arrivals) < 2 ^ 64
      → recv_loop expect_body s arrivals ≡ gather expect_body known s.buf arrivals
  unfolding recv_loop gather chunks
  recv_loop-gather s known [] stays at room large small still below = refl
  recv_loop-gather s known (a ∷ arrivals) stays at room large small still below =
      let taken = record s { buf = s.buf ++ a.chunk } in
      let s' = scanned expect_body s (a.chunk) in
      let now = known_or known (heading expect_body (s.buf ++ a.chunk)) in
      let buf_is : s'.buf ≡ s.buf ++ a.chunk = buf-find_body expect_body taken in
      let stays' : s'.buf_address ≡ address = address-find_body expect_body taken ∙ stays in
      let at' : IsAt address s' now =
        find_body-IsAt expect_body address taken known stays
          (grown (s.buf ++ a.chunk) known (omega (arith, length-append s.buf (a.chunk))) at) in
      let fits = chunk_fits expect_body s (a.chunk) room large small.0.1 in
      let lengths : length s'.buf ≡ length s.buf + length (a.chunk) =
        ap (λ (k : Bytes). length k) buf_is ∙ length-append s.buf (a.chunk) in
      let moved = make_room-IsAt address s' now stays' at' in
      recv_loop_whole expect_body s a arrivals room small.0
      ∙ gathered (is_complete s') (has_body now (length (s.buf ++ a.chunk))) s'.buf
          (s.buf ++ a.chunk) _ _
          (is_complete-has_body address s' now stays' at'
              (omega (arith, lengths, length-append (a.chunk) (chunks arrivals)))
            ∙ ap (λ (k : Bytes). has_body now (length k)) buf_is)
          buf_is
          (ap (λ d. recv_loop expect_body (make_room d s') arrivals) still.0
            ∙ recv_loop-gather (make_room address s') now arrivals moved.0 moved.1
                (make_room-HasRoom address s' fits.0 fits.1)
                (omega (arith, cap-make_room address s', fits.1)) small.1 still.1
                (omega (
                  arith,
                  lengths,
                  length-append (a.chunk) (chunks arrivals),
                  ap (λ (k : Bytes). length k) (buf-make_room address s'),
                ))
            ∙ ap (λ b. gather expect_body now b arrivals) (buf-make_room address s' ∙ buf_is))
    where
      grown :
          (buf : Bytes) (k : Option (ℕ × ℕ))
          → length s.buf ≤ length buf
          → IsAt address s k
          → IsAt address (record s { buf = buf }) k
      grown buf none more h = h
      grown buf (some (start, size)) more h = (h.0, h.1, omega (arith, h.2))

-- http_recv_message reads what `gather` reads: bytes until, behind the blank line, the number of
-- bytes has come that Content-Length announces when the blank line is first seen, or none where no
-- body is expected, or else all that comes. Each call of recv is to find between 1 and 1024 bytes,
-- no realloc is to move the buffer, and the buffer is to lie below the address 2^64.
pub recv_message-gather :
    (expect_body : Bool) (address : ℕ) (arrivals : List Arrival)
    → All IsSmall arrivals
    → All (λ a. a.address ≡ address) arrivals
    → address + length (chunks arrivals) < 2 ^ 64
    → recv_message expect_body address arrivals ≡ gather expect_body none [] arrivals
unfolding recv_message
recv_message-gather expect_body address arrivals small still below =
    recv_loop-gather expect_body address (nothing_received address) none arrivals refl refl
      (omega arith) (omega arith) small still (omega arith)
