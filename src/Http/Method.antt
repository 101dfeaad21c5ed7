-- ===== src/Http/Method.antt =====
-- The request methods of include/http.h, and utils/http.c: http_method_from_str and
-- http_method_to_str. A method is a value of the enumeration; `bit` is its number in C.
use Prim.Native.Nat.{bit_or}
use foxtails.Base.{
  ℕ, Option, none, some, [], ◌∷◌, ◌==◌, if◌then◌else◌, length, ◌≡◌, ◌↔◌, refl, sym, ap, ◌∙◌, arith,
}
use foxtails.Base.Bytes.{Bytes, codes, equal, equal_iff, first_equal}

pub data Method : Type 0 where
  get head post put delete connect options trace patch : Method

unfoldable pub bit : Method → ℕ
bit get = 1
bit head = 2
bit post = 4
bit put = 8
bit delete = 16
bit connect = 32
bit options = 64
bit trace = 128
bit patch = 256

-- REQUEST_ALL
unfoldable pub request_all : ℕ
unfolding bit
request_all =
    bit_or
      (bit_or
        (bit_or
          (bit_or
            (bit_or (bit_or (bit_or (bit_or (bit get) (bit head)) (bit post)) (bit put))
              (bit delete))
            (bit connect))
          (bit options))
        (bit trace))
      (bit patch)

unfoldable pub method_to_str : Method → Bytes
method_to_str get = codes "GET"
method_to_str head = codes "HEAD"
method_to_str post = codes "POST"
method_to_str put = codes "PUT"
method_to_str delete = codes "DELETE"
method_to_str connect = codes "CONNECT"
method_to_str options = codes "OPTIONS"
method_to_str trace = codes "TRACE"
method_to_str patch = codes "PATCH"

-- `none` is the -1 of the source.
unfoldable pub method_from_str : Bytes → Option Method
method_from_str s =
    if length s == 3
    then first_equal s ((codes "GET", get) ∷ (codes "PUT", put) ∷ [])
    else if length s == 4
    then first_equal s ((codes "HEAD", head) ∷ (codes "POST", post) ∷ [])
    else if length s == 5
    then first_equal s ((codes "PATCH", patch) ∷ (codes "TRACE", trace) ∷ [])
    else if length s == 6
    then first_equal s ((codes "DELETE", delete) ∷ [])
    else if length s == 7
    then first_equal s ((codes "OPTIONS", options) ∷ (codes "CONNECT", connect) ∷ [])
    else none

pub method_from_str-method_to_str : (m : Method) → method_from_str (method_to_str m) ≡ some m
unfolding method_from_str method_to_str first_equal equal
method_from_str-method_to_str get = refl
method_from_str-method_to_str _ = refl

method_to_str_of_pair :
    (s : Bytes) (t u m : Method)
    → first_equal s ((method_to_str t, t) ∷ (method_to_str u, u) ∷ []) ≡ some m
    → s ≡ method_to_str m
unfolding first_equal
method_to_str_of_pair s t u m h =
    ground (arith, equal_iff s (method_to_str t), equal_iff s (method_to_str u))

method_to_str_of_one :
    (s : Bytes) (t m : Method)
    → first_equal s ((method_to_str t, t) ∷ []) ≡ some m
    → s ≡ method_to_str m
unfolding first_equal
method_to_str_of_one s t m h = ground (arith, equal_iff s (method_to_str t))

pub method_to_str-method_from_str :
    (s : Bytes) (m : Method) → method_from_str s ≡ some m → method_to_str m ≡ s
unfolding method_from_str method_to_str
method_to_str-method_from_str s m h = ground (
  arith,
  method_to_str_of_pair s get put m,
  method_to_str_of_pair s head post m,
  method_to_str_of_pair s patch trace m,
  method_to_str_of_one s delete m,
  method_to_str_of_pair s options connect m,
)

-- method_from_str accepts exactly the names that method_to_str prints, each as its own method.
pub method_from_str_iff :
    (s : Bytes) (m : Method) → (method_from_str s ≡ some m) ↔ (s ≡ method_to_str m)
method_from_str_iff s m = (
  λ h. sym (method_to_str-method_from_str s m h),
  λ h. ap method_from_str h ∙ method_from_str-method_to_str m,
)
