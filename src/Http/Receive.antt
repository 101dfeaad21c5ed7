-- ===== src/Http/Receive.antt =====
-- utils/http.c: http_recv_message. What each call of recv finds and the address that realloc would
-- answer are arguments; an allocation succeeds. Pointers into the buffer are addresses, since the
-- code keeps one over a realloc.
pub mod Complete
pub mod Pointers
pub mod Gather
use foxtails.Base.{
  ℕ, ◌+◌, ◌-◌, ◌*◌, ◌%◌, ◌^◌, Bool, true, false, Option, none, some, List, [], ◌∷◌, ◌++◌, length,
  take, drop, ltb, leb, if◌then◌else◌,
}
use foxtails.Base.Bytes.{Bytes, codes, memmem}
use foxtails.Base.Decimal.{strtoul}
use foxtails.Http.Parse.{crlf_crlf}

-- What one call of recv finds, and the address that a realloc after it answers.
pub record Arrival : Type 0 where
  pub chunk : Bytes
  pub address : ℕ

-- The variables of the loop; `len` is the length of `buf`.
pub record Received : Type 0 where
  pub buf : Bytes
  pub cap : ℕ
  pub buf_address : ℕ
  pub body_start : Option ℕ
  pub content_length : ℕ

abbrev pub nothing_received : ℕ → Received
nothing_received address = record {
  buf = [];
  cap = 4096;
  buf_address = address;
  body_start = none;
  content_length = 0;
}

-- The number behind `Content-Length:`, if that stands in the first `header_len` bytes.
unfoldable pub announced_length : Bytes → ℕ → ℕ
announced_length buf header_len = elim (memmem (codes "Content-Length:") (take header_len buf)) [
  | none ↦ 0
  | some cl ↦ strtoul (drop (cl + 15) buf)
]

-- The search for the blank line, once its end is not yet known.
unfoldable pub find_body : Bool → Received → Received
unfolding announced_length
find_body expect_body s = elim s.body_start [
  | some _ ↦ s
  | none ↦ elim (memmem crlf_crlf s.buf) [
    | none ↦ s
    | some i ↦ record s {
      body_start = some (s.buf_address + (i + 4));
      content_length = if expect_body then announced_length s.buf (i + 4) else 0;
    }
  ]
]

-- body_start && (size_t)(buf + len - body_start) >= content_length
unfoldable pub is_complete : Received → Bool
is_complete s = elim s.body_start [
  | none ↦ false
  | some body_start ↦
      leb s.content_length ((s.buf_address + length s.buf + (2 ^ 64 - body_start)) % 2 ^ 64)
]

unfoldable pub make_room : ℕ → Received → Received
make_room address s =
    if ltb (s.cap - length s.buf) 1024
    then record s { cap = s.cap * 2; buf_address = address }
    else s

-- The loop, up to the answer of recv that is not positive: a call without room answers 0.
unfoldable pub recv_loop : Bool → Received → List Arrival → Bytes
unfolding find_body is_complete make_room
recv_loop expect_body s [] = s.buf
recv_loop expect_body s (a ∷ arrivals) = elim (take (s.cap - length s.buf) (a.chunk)) [
  | [] ↦ s.buf
  | x ∷ xs ↦
      let s' = find_body expect_body (record s { buf = s.buf ++ x ∷ xs }) in
      elim (is_complete s') [
        | true ↦ s'.buf
        | false ↦ recv_loop expect_body (make_room a.address s') arrivals
      ]
]

-- http_recv_message; the length that it stores is the length of the answer.
unfoldable pub recv_message : Bool → ℕ → List Arrival → Bytes
unfolding recv_loop
recv_message expect_body address arrivals =
    recv_loop expect_body (nothing_received address) arrivals
