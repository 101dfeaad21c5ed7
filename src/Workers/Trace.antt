-- ===== src/Workers/Trace.antt =====
-- The pool as a whole: the main loop dispatches, worker threads take turns, and the pool is shut
-- down, in any order. Each step holds the queue's mutex from start to end.
use foxtails.Base.{
  ℕ, subst, ◌+◌, ◌≤◌, ◌<◌, ◌^◌, ◌≡◌, refl, sym, ap, ◌∙◌, Bool, true, false, some, List, [], ◌∷◌,
  ◌++◌, take, length, arith, ◌⊎◌, take-length-append,
}
use mathlib.Core.List.{append_assoc}
use foxtails.Base.Bytes.{Bytes}
use foxtails.Workers.Queue.{
  IsValid, contents, init_queue-IsValid, dispatch_command-Appended, dispatch_command_full,
}
use foxtails.Workers.Take.{TurnTakes, take_turn_lem}
use foxtails.Workers.{
  ActionType, Action, WorkerQueue, init_queue, dispatch_command, call, take_turn, end_turn,
  shut_down,
}

-- What a caller of dispatch_command asks for.
pub record Request : Type 0 where
  pub action : ActionType
  pub payload : Bytes

-- The callback gets the request: its type, and a payload that begins with its bytes.
abbrev pub Carries : Request → Action → Type 0
Carries r a = (a.type ≡ r.action) × (take (length r.payload) a.payload ≡ r.payload)

abbrev pub Carried : List Request → List Action → Type 0
Carried [] [] = Unit
Carried (r ∷ rs) (a ∷ actions) = Carries r a × Carried rs actions
Carried _ _ = ⊥

-- The queue, with the requests that were dispatched and the actions that were run, in order.
pub record Pool : Type 0 where
  pub queue : WorkerQueue
  pub sent : List Request
  pub ran : List Action

abbrev pub start : Pool
start = record { queue = init_queue; sent = []; ran = [] }

-- One step. A dispatch is a call of dispatch_command that returns; one that is dropped for want of
-- memory is not among the requests sent. The queue stays below 2^31 slots.
pub data Step (p : Pool) : Pool → Type 0 where
  dispatch :
      {q' : WorkerQueue} (memory : Bool) (r : Request)
      → p.queue.capacity ≤ 2 ^ 30
      → (memory ≡ true) ⊎ (p.queue.count + 1 < p.queue.capacity)
      → dispatch_command memory p.queue r.action r.payload ≡ some q'
      → Step p (record p { queue = q'; sent = p.sent ++ r ∷ [] })
  drop_request :
      {q' : WorkerQueue} (r : Request)
      → p.queue.capacity ≤ 2 ^ 30
      → p.queue.count + 1 ≡ p.queue.capacity
      → dispatch_command false p.queue r.action r.payload ≡ some q'
      → Step p (record p { queue = q' })
  work :
      (idx : ℕ) (a : Action) (q' : WorkerQueue)
      → take_turn p.queue ≡ call idx a q'
      → Step p (record p { queue = end_turn q' idx; ran = p.ran ++ a ∷ [] })
  shut : Step p (record p { queue = shut_down p.queue })

pub data Reach : Pool → Type 0 where
  here : Reach start
  next : {p q : Pool} → Reach p → Step p q → Reach q

-- What holds of every state that the pool reaches.
pub record Inv (p : Pool) : Type 0 where
  pub valid : IsValid p.queue
  pub in_order : Carried p.sent (p.ran ++ contents p.queue)

Carried-append :
    (rs : List Request) (xs : List Action) (r : Request) (a : Action)
    → Carried rs xs
    → Carries r a
    → Carried (rs ++ r ∷ []) (xs ++ a ∷ [])
Carried-append [] [] r a h k = (k, tt)
Carried-append [] (x ∷ xs) r a h k = absurd h
Carried-append (s ∷ rs) [] r a h k = absurd h
Carried-append (s ∷ rs) (x ∷ xs) r a h k = (h.0, Carried-append rs xs r a h.1 k)

Step-Inv : {p q : Pool} → Step p q → Inv p → Inv q
Step-Inv {p} (dispatch memory r small can e) i =
    let added = dispatch_command-Appended memory p.queue _ r.action r.payload e i.valid small can in
    record {
      valid = added.valid;
      in_order =
          subst (Carried (p.sent ++ r ∷ []))
            (append_assoc p.ran (contents p.queue) _ ∙ ap (λ k. p.ran ++ k) (sym added.appended))
            (Carried-append p.sent (p.ran ++ contents p.queue) r _ i.in_order
              (refl, take-length-append r.payload _));
    }
Step-Inv {p} (drop_request r small full e) i =
    rw (← dispatch_command_full p.queue _ r.action r.payload e i.valid small full) i
Step-Inv {p} (work idx a q' e) i =
    let (up, first, valid, same, valid') =
      subst (TurnTakes p.queue) e (take_turn_lem p.queue i.valid) in
    record {
      valid = valid';
      in_order =
          subst (Carried p.sent)
            (ap (λ k. p.ran ++ k) first
              ∙ sym (append_assoc p.ran (a ∷ []) (contents q'))
              ∙ ap (λ k. (p.ran ++ a ∷ []) ++ k) (sym same))
            i.in_order;
    }
Step-Inv shut i = record { valid = omega (arith, i.valid); in_order = i.in_order }

-- However the main loop and the worker threads take turns at the queue, as long as no payload is
-- larger than the 128 bytes that dispatch_command asserts and the array stays below 2^31 slots, its representation stays
-- valid, and the actions run so far, followed by those that wait, carry the requests sent, each
-- once and in the order in which they were sent.
pub Reach-Inv : {p : Pool} → Reach p → Inv p
Reach-Inv here = record { valid = init_queue-IsValid.0; in_order = tt }
Reach-Inv (next r s) = Step-Inv s (Reach-Inv r)
