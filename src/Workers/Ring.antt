-- ===== src/Workers/Ring.antt =====
-- A run of slots round an array, and how writes and copies change it.
use foxtails.Base.{
  ℕ, zero, suc, ◌+◌, ◌-◌, ◌%◌, ◌≤◌, ◌<◌, ◌≡◌, ◌≢◌, refl, sym, ap, ap₂, ◌∙◌, List, [], ◌∷◌, ◌++◌,
  length, get_or, set, arith, get_or-set_self, get_or-set_ne,
}
use native.Mathlib.Decide.{dec_lt}
use native.Mathlib.Nat.{mod-add-mod, mod-eq_of_lt, mod-eq-sub-mod, add-zero}

shift : (s j : ℕ) → s + 1 + j ≡ s + suc j
shift s j = omega arith

module _ {A : Type 0} (d : A) where
  -- The `n` entries from place `s` on, round an array of `size`.
  abbrev pub window : List A → ℕ → ℕ → ℕ → List A
  window xs size s zero = []
  window xs size s (suc n) = get_or xs (s % size) d ∷ window xs size (s + 1) n

  pub length-window : (xs : List A) (size s n : ℕ) → length (window xs size s n) ≡ n
  length-window xs size s zero = refl
  length-window xs size s (suc n) = ap suc (length-window xs size (s + 1) n)

  -- Windows that agree at each place are equal.
  pub window-cong :
      (xs ys : List A) (size size' s s' n : ℕ)
      → ((j : ℕ) → j < n → get_or xs ((s + j) % size) d ≡ get_or ys ((s' + j) % size') d)
      → window xs size s n ≡ window ys size' s' n
  window-cong xs ys size size' s s' zero h = refl
  window-cong xs ys size size' s s' (suc n) h =
      ap₂ ◌∷◌ (rw (← add-zero s, ← add-zero s') (h 0 (omega arith))) (
        window-cong xs ys size size' (s + 1) (s' + 1) n
          (λ j lt. rw (shift s j, shift s' j) (h (suc j) (omega arith))))

  pub window_last :
      (xs : List A) (size s n : ℕ)
      → window xs size s (suc n) ≡ window xs size s n ++ get_or xs ((s + n) % size) d ∷ []
  window_last xs size s zero = rw add-zero
  window_last xs size s (suc n) =
      ap (◌∷◌ (get_or xs (s % size) d)) (rw (window_last xs size (s + 1) n, shift s n))

-- Fewer than `size` places further round the array is another place.
mod-ne-add-mod : (size s k : ℕ) → 0 < k → k < size → s % size ≢ (s + k) % size
mod-ne-add-mod size s k pos small e = elim (dec_lt (s % size + k) size) [
  | yes p ↦ omega (arith, turn, mod-eq_of_lt p)
  | no p ↦ omega (
    arith,
    turn,
    mod-eq-sub-mod {n = s % size + k} {m = size} (omega arith),
    mod-eq_of_lt {n = s % size + k - size} {m = size} (omega arith),
  )
]
  where
    turn : (s % size + k) % size ≡ (s + k) % size
    turn = mod-add-mod (s) size k

later_place : (size s n j : ℕ) → j < n → n < size → (s + n) % size ≢ (s + j) % size
later_place size s n j lt small e =
    mod-ne-add-mod size (s + j) (n - j) (omega arith) (omega arith)
      (sym e ∙ ap (λ (k : ℕ). k % size) (omega arith))

module _ {A : Type 0} (d : A) where
  -- A write behind a window adds the value to it.
  pub window-set :
      (xs : List A) (size s n i : ℕ) (v : A)
      → i ≡ (s + n) % size
      → size ≤ length xs
      → n < size
      → window d (set xs i v) size s (suc n) ≡ window d xs size s n ++ v ∷ []
  window-set xs size s n i v e fits small =
      window_last d (set xs i v) size s n
      ∙ ap₂ (λ w x. w ++ x ∷ [])
          (window-cong d (set xs i v) xs size size s s n λ j lt.
            get_or-set_ne xs i ((s + j) % size) v d (rw e (later_place size s n j lt small)))
          (ap (λ k. get_or (set xs i v) k d) (sym e) ∙ get_or-set_self xs i v d (omega arith))

  -- A write to the place in front of a window leaves it.
  pub window-set_front :
      (xs : List A) (size s n i : ℕ) (v : A)
      → i ≡ s % size
      → n < size
      → window d (set xs i v) size (s + 1) n ≡ window d xs size (s + 1) n
  window-set_front xs size s n i v e small =
      window-cong d (set xs i v) xs size size (s + 1) (s + 1) n λ j lt.
        get_or-set_ne xs i ((s + 1 + j) % size) v d
          (rw (e, shift s j) (mod-ne-add-mod size s (suc j) (omega arith) (omega arith)))

  -- The start of a window counts modulo the size of the array.
  pub window-mod :
      (xs : List A) (size s n : ℕ) → window d xs size (s % size) n ≡ window d xs size s n
  window-mod xs size s n = window-cong d xs xs size size (s % size) s n λ j lt. rw mod-add-mod
