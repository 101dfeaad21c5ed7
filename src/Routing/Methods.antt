-- ===== src/Routing/Methods.antt =====
-- The method masks of routes: which methods a word of a route file stands for.
use Prim.Native.Nat.{bit_and, bit_or}
use foxtails.Base.{
  ℕ, zero, suc, ◌<◌, Bool, true, false, not, ◌&&◌, ◌||◌, some, List, [], map, ◌∷◌, All, ◌++◌, ◌==◌,
  ltb, ◌≡◌, refl, ap, ◌∙◌, arith,
}
use mathlib.Core.Option
use foxtails.Base.Bytes.{Bytes, codes, equal, equal_ci, drop_while, is_byte, lower, first_equal}
use foxtails.Base.Words.{join, with_each, tokens-join, IsWord, IsWord-join}
use foxtails.Http.Method.{
  Method, get, head, post, put, delete, connect, options, trace, patch, bit, method_from_str,
  method_to_str,
}
use foxtails.Routing.{add_methods, route_str_to_methods}

-- route->methods & req.method
unfoldable pub has_method : ℕ → Method → Bool
has_method methods m = not (bit_and methods (bit m) == 0)

abbrev every_method : List Method
every_method = get ∷ head ∷ post ∷ put ∷ delete ∷ connect ∷ options ∷ trace ∷ patch ∷ []

abbrev all_methods : (Method → Bool) → Bool
all_methods p =
    p get && p head && p post && p put && p delete && p connect && p options && p trace && p patch

all_methods_sound : (p : Method → Bool) → all_methods p ≡ true → (m : Method) → p m ≡ true
all_methods_sound p h get = ground arith
all_methods_sound p h _ = ground arith

abbrev same_bool : Bool → Bool → Bool
same_bool true b = b
same_bool false b = not b

unfoldable pub same_method : Method → Method → Bool
unfolding bit
same_method k m = bit k == bit m

-- Does the test hold of every mask under the bound?
every_mask : (ℕ → Bool) → ℕ → Bool
every_mask test zero = true
every_mask test (suc bound) = every_mask test bound && test bound

every_mask-at :
    (test : ℕ → Bool) (bound mask : ℕ)
    → mask < bound
    → every_mask test bound ≡ true
    → test mask ≡ true
unfolding every_mask
every_mask-at test zero mask below tested = absurd (omega arith)
every_mask-at test (suc bound) mask below tested = ground (every_mask-at test bound mask, arith)

-- Adding a bit keeps a mask below 512, and adds that method only.
abbrev adds_only : ℕ → Method → Bool
adds_only n k =
    ltb (bit_or n (bit k)) 512
    && all_methods
        (λ m. same_bool (has_method (bit_or n (bit k)) m) (has_method n m || same_method k m))

masks_table : every_mask (λ n. all_methods (λ k. adds_only n k)) 512 ≡ true
unfolding every_mask has_method same_method bit
masks_table = refl

adds_only_lem : (n : ℕ) (k : Method) → n < 512 → adds_only n k ≡ true
adds_only_lem n k h =
    all_methods_sound (λ k. adds_only n k)
      (every_mask-at (λ n. all_methods (λ k. adds_only n k)) 512 n h masks_table) k

add_bound : (n : ℕ) (k : Method) → n < 512 → bit_or n (bit k) < 512
add_bound n k h = ground (arith, adds_only_lem n k h)

same_bool_sound : (a b : Bool) → same_bool a b ≡ true → a ≡ b
same_bool_sound true b h = ground arith
same_bool_sound false b h = ground arith

has_method-add :
    (n : ℕ) (k m : Method)
    → n < 512
    → has_method (bit_or n (bit k)) m ≡ (has_method n m || same_method k m)
has_method-add n k m h = same_bool_sound _ _ (
    all_methods_sound
      (λ m. same_bool (has_method (bit_or n (bit k)) m) (has_method n m || same_method k m))
      (ground (arith, adds_only_lem n k h)) m)

-- Is the method one of the list?
unfoldable pub is_listed : Method → List Method → Bool
is_listed m [] = false
is_listed m (k ∷ ks) = same_method k m || is_listed m ks

add_step :
    (n : ℕ) (k : Method) (toks : List Bytes)
    → add_methods n (method_to_str k ∷ toks) ≡ add_methods (bit_or n (bit k)) toks
unfolding add_methods drop_while method_to_str method_from_str first_equal equal
add_step n get toks = refl
add_step n _ toks = refl

add_methods-names :
    (n : ℕ) (ks : List Method) (m : Method)
    → n < 512
    → Option.map (λ methods. has_method methods m) (add_methods n (map method_to_str ks))
      ≡ some (has_method n m || is_listed m ks)
unfolding add_methods is_listed
add_methods-names n [] m h = ground arith
add_methods-names n (k ∷ ks) m h = rw (add_step n k (map method_to_str ks)) (
    add_methods-names (bit_or n (bit k)) ks m (add_bound n k h)
    ∙ ap some (ground (arith, has_method-add n k m h)))

-- The mask of a list of methods, as bits added one by one
unfoldable pub mask_of : ℕ → List Method → ℕ
mask_of n [] = n
mask_of n (k ∷ ks) = mask_of (bit_or n (bit k)) ks

add_methods-mask :
    (n : ℕ) (ks : List Method) → add_methods n (map method_to_str ks) ≡ some (mask_of n ks)
unfolding add_methods mask_of
add_methods-mask n [] = refl
add_methods-mask n (k ∷ ks) =
    add_step n k (map method_to_str ks) ∙ add_methods-mask (bit_or n (bit k)) ks

-- The bytes that the words of a route line lack
abbrev pub is_break : ℕ → Bool
is_break c = c == b' ' || c == b'\t' || c == 11 || c == b'\n' || c == 0 || c == b'#'

name-IsWord : (k : Method) → IsWord (is_byte b',') (method_to_str k)
unfolding method_to_str
name-IsWord get = refl
name-IsWord _ = refl

names_words : (ks : List Method) → All (IsWord (is_byte b',')) (map method_to_str ks)
names_words [] = tt
names_words (k ∷ ks) = (name-IsWord k, names_words ks)

unfoldable pub print_methods : Method → List Method → Bytes
print_methods k ks = join b',' (method_to_str k) (map method_to_str ks)

not_star : (k : Method) (rest : Bytes) → equal (method_to_str k ++ rest) (codes "*") ≡ false
unfolding method_to_str equal
not_star get rest = refl
not_star _ rest = refl

not_all : (k : Method) (rest : Bytes) → equal_ci (method_to_str k ++ rest) (codes "ALL") ≡ false
unfolding method_to_str equal_ci equal lower
not_all get rest = refl
not_all _ rest = refl

print_methods-tokens :
    (k : Method) (ks : List Method)
    → route_str_to_methods (print_methods k ks) ≡ add_methods 0 (map method_to_str (k ∷ ks))
unfolding route_str_to_methods print_methods join
print_methods-tokens k ks =
    rw
      (
        not_star k (with_each b',' (map method_to_str ks)),
        not_all k (with_each b',' (map method_to_str ks)),
      )
      (ap (add_methods 0) (
        tokens-join (is_byte b',') b',' (method_to_str k) (map method_to_str ks) refl
          (name-IsWord k) (names_words ks)))

no_method : (m : Method) → has_method 0 m ≡ false
unfolding has_method bit
no_method get = refl
no_method _ = refl

-- A list of method names with commas between them is read as a mask that holds each method of the
-- list and no other.
pub route_str_to_methods-print_methods :
    (k : Method) (ks : List Method) (m : Method)
    → Option.map (λ methods. has_method methods m) (route_str_to_methods (print_methods k ks))
      ≡ some (is_listed m (k ∷ ks))
route_str_to_methods-print_methods k ks m = rw (print_methods-tokens k ks) (
    add_methods-names 0 (k ∷ ks) m (omega arith)
    ∙ ap (λ b. some (b || is_listed m (k ∷ ks))) (no_method m))

pub print_methods-mask :
    (k : Method) (ks : List Method)
    → route_str_to_methods (print_methods k ks) ≡ some (mask_of 0 (k ∷ ks))
print_methods-mask k ks = print_methods-tokens k ks ∙ add_methods-mask 0 (k ∷ ks)

name_break : (k : Method) → IsWord is_break (method_to_str k)
unfolding method_to_str
name_break get = refl
name_break _ = refl

names_break : (ks : List Method) → All (IsWord is_break) (map method_to_str ks)
names_break [] = tt
names_break (k ∷ ks) = (name_break k, names_break ks)

pub print_methods-IsWord : (k : Method) (ks : List Method) → IsWord is_break (print_methods k ks)
unfolding print_methods
print_methods-IsWord k ks =
    IsWord-join is_break b',' (method_to_str k) (map method_to_str ks) refl (name_break k)
      (names_break ks)
