-- ===== src/Http/Parse/Accept.antt =====
-- The two answers of http_request_parse: a served request, or one of four complete responses.
use mathlib.Core.List.{append_assoc, append-nil}
use foxtails.Base.{
  Bool, true, false, Option, none, some, [], ◌∷◌, ◌++◌, ◌≡◌, ◌≢◌, refl, sym, ap, subst, ◌∙◌, arith,
}
use foxtails.Base.Bytes.{
  Bytes, equal, equal_self, c_str, memchr, memchr-append, strip_cr, is_byte, Free, Free-append,
  strip_cr-append,
}
use foxtails.Http.Message.{
  Http, request_timeout, bad_request, not_implemented, version_not_supported,
}
use foxtails.Http.Method.{
  Method, get, method_from_str, method_to_str, method_from_str-method_to_str,
}
use foxtails.Http.Parse.Request.{
  LineEnd, lf, crlf, line_end, IsRequest, request_of, Accepts, request_steps-Accepts,
}
use foxtails.Http.Parse.{
  Parsed, go_on, refuse, ◌>>=◌, ◌>>◌, or_refuse, require, answer, stripped_line, first_line,
  http_1_1, request_steps, request_parse, parse_headers_and_body, set_body,
}

-- The message of a request that is answered without being served.
pub data IsRefusal : Http → Type 0 where
  timeout : IsRefusal request_timeout
  bad : IsRefusal bad_request
  unknown_method : IsRefusal not_implemented
  other_version : IsRefusal version_not_supported

IsRefusal-path : {r : Http} → IsRefusal r → r.path ≡ none
IsRefusal-path timeout = refl
IsRefusal-path _ = refl

-- A step that stopped answers with its own response, or a later step stopped.
stop_value :
    {A B : Type 0} (o : Option A) (r : Http) (f : A → Parsed B) {b : Http}
    → IsRefusal r
    → ((a : A) → f a ≡ refuse b → IsRefusal b)
    → (or_refuse o r >>= f) ≡ refuse b
    → IsRefusal b
stop_value none r f s k h = subst IsRefusal (cc) s
stop_value (some a) r f s k h = k a h

stop_test :
    {B : Type 0} (t : Bool) (r : Http) (rest : Parsed B) {b : Http}
    → IsRefusal r
    → (rest ≡ refuse b → IsRefusal b)
    → (require t r >> rest) ≡ refuse b
    → IsRefusal b
stop_test true r rest s k h = k h
stop_test false r rest s k h = subst IsRefusal (cc) s

request_steps-IsRefusal :
    (buffer : Bytes) {r : Http} → request_steps buffer ≡ refuse r → IsRefusal r
unfolding request_steps
request_steps-IsRefusal buffer =
    stop_value (first_line buffer) request_timeout _ timeout λ (line, rest).
      stop_value (memchr b' ' line) bad_request _ bad λ (ms, after).
        stop_value (method_from_str ms) not_implemented _ unknown_method λ m.
          stop_value (memchr b' ' after) bad_request _ bad λ (path, version).
            stop_test (equal version http_1_1) version_not_supported _ other_version λ e. cc

-- The two answers of http_request_parse.
pub data Outcome (buffer : Bytes) (msg : Http) : Type 0 where
  accepted : Accepts buffer msg → msg.path ≢ none → Outcome buffer msg
  refused : IsRefusal msg → msg.path ≡ none → Outcome buffer msg

path-set_body : (msg : Http) (from : Option Bytes) → (set_body msg from).path ≡ msg.path
unfolding set_body
path-set_body msg none = refl
path-set_body msg (some from) = ground arith

pub path-parse_headers_and_body :
    (msg : Http) (block : Bytes) → (parse_headers_and_body msg block).path ≡ msg.path
unfolding parse_headers_and_body
path-parse_headers_and_body msg block = path-set_body _ _

Accepts-path : {buffer : Bytes} (msg : Http) → Accepts buffer msg → msg.path ≢ none
Accepts-path msg a e =
    let p : msg.path ≡ some (c_str a.path) =
      ap (λ (r : Http). r.path) a.message ∙ path-parse_headers_and_body _ a.rest in
    cc (e, p)

answer-Outcome :
    (buffer : Bytes) (p : Parsed Http)
    → ((msg : Http) → p ≡ go_on msg → Accepts buffer msg)
    → ((r : Http) → p ≡ refuse r → IsRefusal r)
    → Outcome buffer (answer p)
answer-Outcome buffer (go_on msg) a r = accepted (a msg refl) (Accepts-path msg (a msg refl))
answer-Outcome buffer (refuse msg) a r = refused (r msg refl) (IsRefusal-path (r msg refl))

-- http_request_parse either reads a request line of a known method, a path and HTTP/1.1, and then
-- the path is no null pointer, or it answers with one of the responses 408, 400, 501 and 505, and
-- then the path is a null pointer.
pub request_parse-Outcome : (buffer : Bytes) → Outcome buffer (request_parse buffer)
unfolding request_parse
request_parse-Outcome buffer =
    answer-Outcome buffer (request_steps buffer) (λ msg e. request_steps-Accepts buffer e)
      (λ r e. request_steps-IsRefusal buffer e)

-- The names of the methods have neither newlines nor spaces.
method_to_str-Free :
    (m : Method) → Free (is_byte b'\n') (method_to_str m) × Free (is_byte b' ') (method_to_str m)
unfolding method_to_str
method_to_str-Free get = ground arith
method_to_str-Free _ = ground arith

abbrev line_of : Method → Bytes → Bytes
line_of m path = method_to_str m ++ (b' ' ∷ (path ++ (b' ' ∷ http_1_1)))

line_of-Free :
    (m : Method) (path : Bytes) → Free (is_byte b'\n') path → Free (is_byte b'\n') (line_of m path)
line_of-Free m path h =
    Free-append _ (method_to_str m) _ (method_to_str-Free m).0
      (refl, Free-append _ path _ h (ground arith))

strip_cr-line_of : (m : Method) (path : Bytes) → strip_cr (line_of m path) ≡ line_of m path
unfolding strip_cr
strip_cr-line_of m path =
    strip_cr-append (method_to_str m) b' ' (path ++ (b' ' ∷ http_1_1))
    ∙ ap (λ k. method_to_str m ++ k) (strip_cr-append (b' ' ∷ path) b' ' http_1_1)

strip_cr-concat : (w : Bytes) → strip_cr (w ++ b'\r' ∷ []) ≡ w
unfolding strip_cr
strip_cr-concat w = strip_cr-append w b'\r' [] ∙ append-nil w

first_line-line_of :
    (m : Method) (path rest : Bytes) (e : LineEnd)
    → Free (is_byte b'\n') path
    → first_line (line_of m path ++ (line_end e ++ rest)) ≡ some (line_of m path, rest)
unfolding first_line
first_line-line_of m path rest lf h =
    ap stripped_line (memchr-append b'\n' (line_of m path) rest (line_of-Free m path h))
    ∙ ap (λ k. some (k, rest)) (strip_cr-line_of m path)
first_line-line_of m path rest crlf h =
    ap (λ k. stripped_line (memchr b'\n' k))
      (sym (append_assoc (line_of m path) (b'\r' ∷ []) (b'\n' ∷ rest)))
    ∙ ap stripped_line (
        memchr-append b'\n' (line_of m path ++ b'\r' ∷ []) rest
          (Free-append _ (line_of m path) _ (line_of-Free m path h) (refl, tt)))
    ∙ ap (λ k. some (k, rest)) (strip_cr-concat (line_of m path))

request_steps-line_of :
    (m : Method) (path rest : Bytes) (e : LineEnd)
    → Free (is_byte b'\n') path
    → Free (is_byte b' ') path
    → request_steps (line_of m path ++ (line_end e ++ rest)) ≡ go_on (request_of m path rest)
unfolding request_steps
request_steps-line_of m path rest e h k = rw (
  first_line-line_of m path rest e h,
  memchr-append b' ' (method_to_str m) (path ++ (b' ' ∷ http_1_1)) (method_to_str-Free m).1,
  method_from_str-method_to_str m,
  memchr-append b' ' path http_1_1 k,
  equal_self http_1_1,
)

-- Every request line of a known method, a path with neither spaces nor newlines, and HTTP/1.1 is
-- accepted, with either line end, and gives the message of those parts.
pub request_parse-IsRequest :
    (buffer : Bytes) (m : Method) (path rest : Bytes)
    → IsRequest buffer m path rest
    → request_parse buffer ≡ request_of m path rest
unfolding request_parse
request_parse-IsRequest buffer m path rest r =
    ap (λ b. answer (request_steps b)) (r.splits ∙ simp append_assoc)
    ∙ ap answer (request_steps-line_of m path rest r.ending r.one_line r.one_word)
