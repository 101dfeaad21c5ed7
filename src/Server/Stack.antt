-- ===== src/Server/Stack.antt =====
-- How often an index is on the free list, and what pushing and popping change.
use foxtails.Base.{
  ℕ, zero, suc, ◌+◌, ◌-◌, ◌≤◌, ◌<◌, Bool, true, false, Option, none, some, List, length, get_or,
  set, leb, ◌==◌, if◌then◌else◌, ◌≡◌, refl, ap, ap₂, ◌∙◌, arith, length-set, get_or-set_self,
  get_or-set_ne, Bool-cases, inl, inr,
}
use foxtails.Server.{IntStack, int_stack_push, int_stack_pop}

-- How often `i` is among the first `n` values.
abbrev pub count_below : List ℕ → ℕ → ℕ → ℕ
count_below values zero i = 0
count_below values (suc n) i = (if get_or values n 0 == i then 1 else 0) + count_below values n i

abbrev pub count_on : IntStack → ℕ → ℕ
count_on stack i = count_below stack.values stack.head i

pub count_below-set :
    (values : List ℕ) (n m i v : ℕ)
    → n ≤ m
    → count_below (set values m v) n i ≡ count_below values n i
count_below-set values zero m i v h = refl
count_below-set values (suc n) m i v h =
    ap₂ (λ (a b : ℕ). (if a == i then 1 else 0) + b) (get_or-set_ne values m n v 0 (omega arith))
      (count_below-set values n m i v (omega arith))

count_below_last :
    (values : List ℕ) (n m i : ℕ)
    → m ≡ suc n
    → count_below values m i ≡ (if get_or values n 0 == i then 1 else 0) + count_below values n i
count_below_last values n m i e = ap (λ k. count_below values k i) e

-- A value pushed is on the stack once more, if there is room.
pub record Pushed (stack : IntStack) (v i : ℕ) (stack' : IntStack) : Type 0 where
  pub counted : count_on stack' i ≡ (if v == i then 1 else 0) + count_on stack i
  pub higher : stack'.head ≡ stack.head + 1
  pub same_capacity : stack'.capacity ≡ stack.capacity
  pub same_size : length stack'.values ≡ length stack.values

pub int_stack_push-Pushed :
    (stack : IntStack) (v i : ℕ)
    → length stack.values ≡ stack.capacity
    → stack.head < stack.capacity
    → Pushed stack v i (int_stack_push stack v).1
unfolding int_stack_push
int_stack_push-Pushed stack v i sized room = elim (Bool-cases (leb stack.capacity stack.head)) [
  | inl full ↦ absurd (ground arith)
  | inr free ↦ rw free (record {
    counted =
        count_below_last (set stack.values stack.head v) stack.head (stack.head + 1) i (omega arith)
        ∙ ap₂ (λ (a b : ℕ). (if a == i then 1 else 0) + b)
            (get_or-set_self stack.values stack.head v 0 (omega arith))
            (count_below-set stack.values stack.head stack.head i v (omega arith));
    higher = refl;
    same_capacity = refl;
    same_size = length-set stack.values stack.head v;
  })
]

-- What a pop answers: nothing of an empty stack, else the last value, which is then on the stack
-- once less.
abbrev pub Popped : IntStack → ℕ → Option ℕ × IntStack → Type 0
Popped stack i (none, stack') = (stack.head ≡ 0) × (stack' ≡ stack)
Popped stack i (some v, stack') =
    (count_on stack i ≡ (if v == i then 1 else 0) + count_on stack' i)
    × (stack.head ≡ stack'.head + 1)
    × (stack'.capacity ≡ stack.capacity)
    × (stack'.values ≡ stack.values)

pub int_stack_pop-Popped : (stack : IntStack) (i : ℕ) → Popped stack i (int_stack_pop stack)
unfolding int_stack_pop
int_stack_pop-Popped stack i = by_test (stack.head == 0) refl
  where
    by_test :
        (empty : Bool)
        → (stack.head == 0) ≡ empty
        → Popped stack i (
            if empty then (none, stack) else (
              some (get_or stack.values (stack.head - 1) 0),
              record stack { head = stack.head - 1 },
            ))
    by_test true e = (ground arith, refl)
    by_test false e = (
      count_below_last stack.values (stack.head - 1) stack.head i (ground arith),
      ground arith,
      refl,
      refl,
    )

pub int_stack_push_room :
    (stack : IntStack) (v : ℕ) → stack.head < stack.capacity → (int_stack_push stack v).0 ≡ true
unfolding int_stack_push
int_stack_push_room stack v room = ground arith
