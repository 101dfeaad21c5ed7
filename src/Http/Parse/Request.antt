-- ===== src/Http/Parse/Request.antt =====
-- What http_request_parse accepts, and what it answers to anything else.
use foxtails.Base.{
  ℕ, Bool, true, false, Option, none, some, [], ◌∷◌, ◌++◌, ◌≡◌, refl, ap, subst, ◌∙◌, ◌⊎◌, inl, inr,
  arith, ◌==◌, Bool-cases, ==_iff,
}
use mathlib.Core.List.{append_assoc}
use foxtails.Base.Bytes.{
  Bytes, equal, equal_iff, c_str, memchr, memchr-Splits, Splits, strip_cr, is_byte, Free,
  Free-of_append,
}
use foxtails.Http.Message.{
  Http, empty_message, request_timeout, bad_request, not_implemented, version_not_supported,
}
use foxtails.Http.Method.{Method, method_from_str, method_to_str, method_to_str-method_from_str}
use foxtails.Http.Parse.{
  Parsed, go_on, ◌>>=◌, ◌>>◌, or_refuse, require, stripped_line, first_line, http_1_1,
  request_steps, parse_headers_and_body,
}

-- A step that went on hands its value to the rest.
after_value :
    {A B P : Type 0} (o : Option A) (r : Http) (f : A → Parsed B) {b : B}
    → ((a : A) → o ≡ some a → f a ≡ go_on b → P)
    → (or_refuse o r >>= f) ≡ go_on b
    → P
after_value none r f k h = cc
after_value (some a) r f k h = k a refl h

after_test :
    {B P : Type 0} (t : Bool) (r : Http) (rest : Parsed B) {b : B}
    → (t ≡ true → rest ≡ go_on b → P)
    → (require t r >> rest) ≡ go_on b
    → P
after_test true r rest k h = k refl h
after_test false r rest k h = cc

-- The end of a line: a newline, with a carriage return in front or without.
pub data LineEnd : Type 0 where
  lf crlf : LineEnd

abbrev pub line_end : LineEnd → Bytes
line_end lf = b'\n' ∷ []
line_end crlf = b'\r' ∷ b'\n' ∷ []

strip_cr-cases : (l : Bytes) → (l ≡ strip_cr l) ⊎ (l ≡ strip_cr l ++ b'\r' ∷ [])
unfolding strip_cr
strip_cr-cases [] = inl refl
strip_cr-cases (x ∷ []) = elim (Bool-cases (x == b'\r')) [
  | inl e ↦ inr (rw e (ap (λ k. k ∷ []) ((==_iff x b'\r').0 e)))
  | inr e ↦ inl (rw e)
]
strip_cr-cases (x ∷ y ∷ xs) = elim (strip_cr-cases (y ∷ xs)) [
  | inl e ↦ inl (ap (◌∷◌ x) e)
  | inr e ↦ inr (ap (◌∷◌ x) e)
]

-- The buffer begins with this line.
pub record HasLine (buffer line rest : Bytes) : Type 0 where
  pub ending : LineEnd
  pub splits : buffer ≡ line ++ (line_end ending ++ rest)
  pub one_line : Free (is_byte b'\n') line

first_line_split :
    (buffer line rest : Bytes) (o : Option (Bytes × Bytes))
    → Splits b'\n' buffer o
    → stripped_line o ≡ some (line, rest)
    → HasLine buffer line rest
first_line_split buffer line rest none s e = cc
first_line_split buffer line rest (some (l, r)) s e = elim (strip_cr-cases l) [
  | inl c ↦ record {
    ending = lf;
    splits = ground arith;
    one_line = subst (Free (is_byte b'\n')) (c ∙ stripped) s.1;
  }
  | inr c ↦ record {
    ending = crlf;
    splits = ground (arith, append_assoc (strip_cr l) (b'\r' ∷ []) (b'\n' ∷ r));
    one_line =
        subst (Free (is_byte b'\n')) stripped
          (Free-of_append (is_byte b'\n') (strip_cr l) (b'\r' ∷ []) (rw c at s.1)).0;
  }
]
  where
    stripped : strip_cr l ≡ line
    stripped = cc

first_line-HasLine :
    (buffer line rest : Bytes) → first_line buffer ≡ some (line, rest) → HasLine buffer line rest
unfolding first_line
first_line-HasLine buffer line rest h =
    first_line_split buffer line rest (memchr b'\n' buffer) (memchr-Splits b'\n' buffer) h

memchr-eq-some :
    (c : ℕ) (xs a b : Bytes) → memchr c xs ≡ some (a, b) → (xs ≡ a ++ c ∷ b) × Free (is_byte c) a
memchr-eq-some c xs a b h = subst (Splits c xs) h (memchr-Splits c xs)

-- The request line is a method, a path and the version, with one space between them, and `rest`
-- stands behind the line.
pub record IsRequest (buffer : Bytes) (m : Method) (path rest : Bytes) : Type 0 where
  pub ending : LineEnd
  pub splits :
      buffer
      ≡ method_to_str m ++ (b' ' ∷ (path ++ (b' ' ∷ (http_1_1 ++ (line_end ending ++ rest)))))
  pub one_word : Free (is_byte b' ') path
  pub one_line : Free (is_byte b'\n') path

-- The message that the accepted parts give.
abbrev pub request_of : Method → Bytes → Bytes → Http
request_of m path rest =
    parse_headers_and_body (record empty_message { method = some m; path = some (c_str path) }) rest

-- What it takes for http_request_parse to accept.
pub record Accepts (buffer : Bytes) (msg : Http) : Type 0 where
  pub m : Method
  pub path : Bytes
  pub rest : Bytes
  pub request : IsRequest buffer m path rest
  pub message : msg ≡ request_of m path rest

IsRequest-line_splits :
    (buffer line rest ms after path version : Bytes) (m : Method)
    → first_line buffer ≡ some (line, rest)
    → memchr b' ' line ≡ some (ms, after)
    → method_from_str ms ≡ some m
    → memchr b' ' after ≡ some (path, version)
    → equal version http_1_1 ≡ true
    → IsRequest buffer m path rest
IsRequest-line_splits buffer line rest ms after path version m e1 e2 e3 e4 e5 = record {
  ending = whole.ending;
  splits =
      rw (method_to_str-method_from_str ms m e3) (
        whole.splits
        ∙ rw (word.0, target.0, (equal_iff version http_1_1).0 e5) (simp append_assoc));
  one_word = target.1;
  one_line = (Free-of_append (is_byte b'\n') path (b' ' ∷ version) behind.1).0;
}
  where
    whole : HasLine buffer line rest
    whole = first_line-HasLine buffer line rest e1

    word : (line ≡ ms ++ b' ' ∷ after) × Free (is_byte b' ') ms
    word = memchr-eq-some b' ' line ms after e2

    target : (after ≡ path ++ b' ' ∷ version) × Free (is_byte b' ') path
    target = memchr-eq-some b' ' after path version e4

    behind : Free (is_byte b'\n') (b' ' ∷ (path ++ b' ' ∷ version))
    behind =
        (Free-of_append (is_byte b'\n') ms (b' ' ∷ (path ++ b' ' ∷ version)) (
          subst (Free (is_byte b'\n')) (word.0 ∙ ap (λ k. ms ++ b' ' ∷ k) target.0)
            whole.one_line)).1

pub request_steps-Accepts :
    (buffer : Bytes) {msg : Http} → request_steps buffer ≡ go_on msg → Accepts buffer msg
unfolding request_steps
request_steps-Accepts buffer = after_value (first_line buffer) request_timeout _ λ (line, rest) e1.
    after_value (memchr b' ' line) bad_request _ λ (ms, after) e2.
      after_value (method_from_str ms) not_implemented _ λ m e3.
        after_value (memchr b' ' after) bad_request _ λ (path, version) e4.
          after_test (equal version http_1_1) version_not_supported _ λ e5 e6. record {
            m = m;
            path = path;
            rest = rest;
            request = IsRequest-line_splits buffer line rest ms after path version m e1 e2 e3 e4 e5;
            message = cc;
          }
