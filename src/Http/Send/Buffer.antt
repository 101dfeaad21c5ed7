-- ===== src/Http/Send/Buffer.antt =====
-- When the header fits the array, and what happens when it does not.
use foxtails.Base.{
  ℕ, ◌+◌, ◌-◌, ◌<◌, Bool, true, false, Option, none, some, List, [], ◌∷◌, ◌++◌, length,
  length-append, take, take_all, if◌then◌else◌, ◌≡◌, refl, sym, ap, ◌∙◌, arith, ◌⊎◌,
}
use mathlib.Core.List.{append_assoc, append-nil}
use foxtails.Base.Bytes.{Bytes}
use foxtails.Http.Message.{Http}
use foxtails.Http.Send.{
  HeaderBuffer, empty_buffer, header_size, print_piece, print_pieces, Sent, bytes, nothing,
  out_of_bounds, send_all, send_response, with_content_type, response_pieces, send_request,
  request_pieces,
}

abbrev pub concat : List Bytes → Bytes
concat [] = []
concat (p ∷ ps) = p ++ concat ps

header_len-print_piece :
    (b : HeaderBuffer) (p : Bytes) → (print_piece b p).header_len ≡ b.header_len + length p
unfolding print_piece
header_len-print_piece b p = ground arith

header_len-print_pieces :
    (b : HeaderBuffer) (ps : List Bytes)
    → (print_pieces b ps).header_len ≡ b.header_len + length (concat ps)
unfolding print_pieces
header_len-print_pieces b [] = omega arith
header_len-print_pieces b (p ∷ ps) = omega (
  arith,
  header_len-print_pieces (print_piece b p) ps,
  header_len-print_piece b p,
  length-append p (concat ps),
)

text-print_piece :
    (b : HeaderBuffer) (p : Bytes)
    → b.header_len + length p < header_size
    → ((print_piece b p).text ≡ b.text ++ p) × ((print_piece b p).overrun ≡ b.overrun)
unfolding print_piece
text-print_piece b p fits = ground (arith, take_all p (header_size - b.header_len - 1))

-- Pieces that fit stand one behind the other, and nothing is written outside.
text-print_pieces :
    (b : HeaderBuffer) (ps : List Bytes)
    → b.overrun ≡ false
    → b.header_len + length (concat ps) < header_size
    → ((print_pieces b ps).text ≡ b.text ++ concat ps) × ((print_pieces b ps).overrun ≡ false)
unfolding print_pieces
text-print_pieces b [] clean fits = (sym (append-nil b.text), clean)
text-print_pieces b (p ∷ ps) clean fits =
    let first = text-print_piece b p (omega (arith, length-append p (concat ps))) in
    let rest =
      text-print_pieces (print_piece b p) ps (first.1 ∙ clean)
        (omega (arith, header_len-print_piece b p, length-append p (concat ps))) in
    (rest.0 ∙ ap (λ k. k ++ concat ps) first.0 ∙ append_assoc b.text p (concat ps), rest.1)

-- What the socket gets when the header fits.
abbrev pub whole_message : Bool → List Bytes → Option Bytes → ℕ → Sent
whole_message memory ps none body_len = bytes (concat ps)
whole_message memory ps (some body) body_len =
    if memory then bytes (concat ps ++ take body_len body) else nothing

send_all-print_pieces :
    (memory : Bool) (ps : List Bytes) (body : Option Bytes) (body_len : ℕ)
    → length (concat ps) < header_size
    → send_all memory (print_pieces empty_buffer ps) body body_len
      ≡ whole_message memory ps body body_len
unfolding send_all
send_all-print_pieces memory ps none body_len fits = ground (
  arith,
  header_len-print_pieces empty_buffer ps,
  text-print_pieces empty_buffer ps refl (omega arith),
)
send_all-print_pieces memory ps (some body) body_len fits = ground (
  arith,
  header_len-print_pieces empty_buffer ps,
  text-print_pieces empty_buffer ps refl (omega arith),
)

-- A header that is longer than the array.
send_all_too_long :
    (memory : Bool) (ps : List Bytes) (body : Option Bytes) (body_len : ℕ)
    → header_size < length (concat ps)
    → (memory ≡ true) ⊎ (body ≡ none)
    → send_all memory (print_pieces empty_buffer ps) body body_len ≡ out_of_bounds
unfolding send_all
send_all_too_long memory ps none body_len long can =
    ground (arith, header_len-print_pieces empty_buffer ps)
send_all_too_long memory ps (some body) body_len long can =
    ground (arith, header_len-print_pieces empty_buffer ps)

-- http_send_response sends the status line, the headers and the body, whole and in order, if the
-- header is shorter than the array of 4096 bytes.
pub send_response_whole :
    (memory : Bool) (date : Bytes) (response : Http)
    → length (concat (response_pieces date (with_content_type response))) < header_size
    → send_response memory date response
      ≡ whole_message memory
          (response_pieces date (with_content_type response))
          (with_content_type response).body
          (with_content_type response).body_len
unfolding send_response
send_response_whole memory date response fits = send_all-print_pieces memory _ _ _ fits

-- http_send_response reads behind its array if the header is longer than 4096 bytes, for a
-- response without a body, and for one with a body when palloc succeeds.
pub send_response_too_long :
    (memory : Bool) (date : Bytes) (response : Http)
    → header_size < length (concat (response_pieces date (with_content_type response)))
    → (memory ≡ true) ⊎ ((with_content_type response).body ≡ none)
    → send_response memory date response ≡ out_of_bounds
unfolding send_response
send_response_too_long memory date response long can = send_all_too_long memory _ _ _ long can

-- http_send_request sends the request line, the length, the other headers and the body, whole and
-- in order, if the header is shorter than the array of 4096 bytes.
pub send_request_whole :
    (memory : Bool) (request : Http)
    → length (concat (request_pieces request)) < header_size
    → send_request memory request
      ≡ whole_message memory (request_pieces request) request.body request.body_len
unfolding send_request
send_request_whole memory request fits = send_all-print_pieces memory _ _ _ fits
