-- ===== src/Run.antt =====
-- Calls that may end the program: a value, exit(1) or a failed assertion, with what was asked of the
-- operating system up to there.
pub mod Count
use foxtails.Base.{
  Bool, true, false, Option, none, some, List, [], ◌∷◌, ◌++◌, ◌≡◌, refl, sym, ap, ap₂,
}
use foxtails.Server.{Effect}

pub data Outcome (A : Type 0) : Type 0 where
  returned : A → Outcome A
  exited aborted : Outcome A

abbrev pub Run : Type 0 → Type 0
Run A = Outcome A × List Effect

abbrev pub pure : {A : Type 0} → A → Run A
pure a = (returned a, [])

abbrev pub after : {A B : Type 0} → List Effect → Outcome A → (A → Run B) → Run B
after asked (returned a) f = let rest = f a in (rest.0, asked ++ rest.1)
after asked exited f = (exited, asked)
after asked aborted f = (aborted, asked)

infixl 5 ◌>>=◌ ◌>>◌
abbrev pub ◌>>=◌ : {A B : Type 0} → Run A → (A → Run B) → Run B
m >>= f = after m.1 m.0 f

abbrev pub ◌>>◌ : {B : Type 0} → Run (Unit {0}) → Run B → Run B
m >> k = m >>= λ _. k

abbrev pub say : List Effect → Run (Unit {0})
say asked = (returned tt, asked)

-- A test whose failure ends the program, after some cleaning up
abbrev pub check : Bool → List Effect → Run (Unit {0})
check true cleaning = pure tt
check false cleaning = (exited, cleaning)

-- An answer without which the program ends
abbrev pub or_exit : {A : Type 0} → Option A → Run A
or_exit none = (exited, [])
or_exit (some a) = pure a

-- assert(p), for a pointer that may be null
abbrev pub or_abort : {A : Type 0} → Option A → Run A
or_abort none = (aborted, [])
or_abort (some a) = pure a

-- The parts of a run that returned
pub record Parts {A B : Type 0} (m : Run A) (f : A → Run B) (b : B) (es : List Effect)
    : Type 0 where
  pub first : A
  pub asked : List Effect
  pub asked_then : List Effect
  pub first_is : m ≡ (returned first, asked)
  pub then_is : f first ≡ (returned b, asked_then)
  pub all_is : es ≡ asked ++ asked_then

pub >>=-Parts :
    {A B : Type 0} (m : Run A) (f : A → Run B) {b : B} {es : List Effect}
    → (m >>= f) ≡ (returned b, es)
    → Parts m f b es
>>=-Parts {B} (returned a, es) f e = record {
  first = a;
  asked = es;
  asked_then = (f a).1;
  first_is = refl;
  then_is = ap (λ (o : Outcome B). (o, (f a).1)) (ap (λ (p : Run B). p.0) e);
  all_is = sym (ap (λ (p : Run B). p.1) e);
}
>>=-Parts (exited, es) f e = absurd (cc)
>>=-Parts (aborted, es) f e = absurd (cc)
