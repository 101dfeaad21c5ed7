-- ===== src/Workers/Crew/Join.antt =====
-- worker_pool_delete: after the broadcast each thread leaves at its next turn, so that the threads
-- can be joined.
use foxtails.Base.{
  ℕ, zero, suc, true, List, [], ◌∷◌, map, get_or, set, ◌==◌, ==_iff, ◌≡◌, ◌≢◌, ◌⊎◌, inl, inr, refl,
  sym, subst, ◌∙◌, arith, get_or-set_ne, Bool-cases,
}
use foxtails.Workers.Crew.{
  Thread, awake, asleep, gone, Crew, thread_at, after_turn, run_thread, woken, broadcast,
}
use foxtails.Workers.{WorkerQueue, leave, take_turn, shut_down}

-- The threads take turns in this order.
unfoldable pub run_all : List ℕ → Crew → Crew
run_all [] c = c
run_all (i ∷ order) c = run_all order (run_thread i c)

abbrev pub Among : ℕ → List ℕ → Type 0
Among i [] = ⊥
Among i (x ∷ xs) = (x ≡ i) ⊎ Among i xs

-- The pool is shut down, and no thread waits.
record IsClosing (c : Crew) : Type 0 where
  down : c.queue.shutting_down ≡ true
  none_waits : (i : ℕ) → thread_at c i ≢ asleep

leaves_now : (q : WorkerQueue) → q.shutting_down ≡ true → take_turn q ≡ leave
unfolding take_turn
leaves_now q down = ground arith

-- A turn in a pool that is shut down: the thread has left, and nothing else changes.
record Left (i : ℕ) (c c' : Crew) : Type 0 where
  closing : IsClosing c'
  gone_now : thread_at c' i ≡ gone
  stays_gone : (j : ℕ) → thread_at c j ≡ gone → thread_at c' j ≡ gone
  same_queue : c'.queue ≡ c.queue

set_gone : (ts : List Thread) (i : ℕ) → get_or (set ts i gone) i gone ≡ gone
set_gone [] i = refl
set_gone (t ∷ ts) zero = refl
set_gone (t ∷ ts) (suc i) = set_gone ts i

set-gone_at :
    (ts : List Thread) (i j : ℕ)
    → (get_or (set ts i gone) j gone ≡ gone) ⊎ (get_or (set ts i gone) j gone ≡ get_or ts j gone)
set-gone_at ts i j = elim (Bool-cases (i == j)) [
  | inl e ↦
      inl (subst (λ k. get_or (set ts i gone) k gone ≡ gone) ((==_iff i j).0 e) (set_gone ts i))
  | inr e ↦ inr (get_or-set_ne ts i j gone gone (ground arith))
]

leave_turn :
    (i : ℕ) (c : Crew) → IsClosing c → Left i c (record c { threads = set c.threads i gone })
leave_turn i c h = record {
  closing = record {
    down = h.down;
    none_waits = λ j e. elim (set-gone_at c.threads i j) [
      | inl k ↦ absurd (cc)
      | inr k ↦ h.none_waits j (sym k ∙ e)
    ];
  };
  gone_now = set_gone c.threads i;
  stays_gone = λ j e. elim (set-gone_at c.threads i j) [ inl k ↦ k | inr k ↦ k ∙ e ];
  same_queue = refl;
}

run_thread-Left : (i : ℕ) (c : Crew) → IsClosing c → Left i c (run_thread i c)
unfolding run_thread
run_thread-Left i c h = go (thread_at c i) refl
  where
    go :
        (t : Thread)
        → thread_at c i ≡ t
        → let (queue, thread) = after_turn c.queue (take_turn c.queue) in
          Left i c (elim t [
            | awake ↦ record c { queue = queue; threads = set c.threads i thread }
            | asleep ↦ c
            | gone ↦ c
          ])
    go awake e = rw (leaves_now c.queue h.down) (leave_turn i c h)
    go asleep e = absurd (h.none_waits i e)
    go gone e = record { closing = h; gone_now = e; stays_gone = λ j k. k; same_queue = refl }

run_all_gone :
    (order : List ℕ) (c : Crew)
    → IsClosing c
    → ((i : ℕ) → (Among i order ⊎ (thread_at c i ≡ gone)) → thread_at (run_all order c) i ≡ gone)
      × ((run_all order c).queue ≡ c.queue)
unfolding run_all
run_all_gone [] c h = (λ i k. elim k [ inl k ↦ absurd k | inr k ↦ k ], refl)
run_all_gone (x ∷ order) c h =
    let l = run_thread-Left x c h in
    let (rest, same) = run_all_gone order (run_thread x c) l.closing in
    (
      λ i k. elim k [
        | inl (inl e) ↦ rest i (inr (subst (λ n. thread_at (run_thread x c) n ≡ gone) e l.gone_now))
        | inl (inr later) ↦ rest i (inl later)
        | inr left ↦ rest i (inr (l.stays_gone i left))
      ],
      same ∙ l.same_queue,
    )

woken_at : (ts : List Thread) (i : ℕ) → get_or (map woken ts) i gone ≢ asleep
woken_at [] i e = absurd (cc)
woken_at (awake ∷ ts) zero e = absurd (cc)
woken_at (asleep ∷ ts) zero e = absurd (cc)
woken_at (gone ∷ ts) zero e = absurd (cc)
woken_at (t ∷ ts) (suc i) e = woken_at ts i e

-- What worker_pool_delete does before it joins the threads
abbrev pub closed : Crew → Crew
closed c = broadcast (record c { queue = shut_down c.queue })

-- After worker_pool_delete has shut the queue down and broadcast, whatever the threads did before
-- and whatever waits in the queue, each thread has left its loop once it has taken one turn, in
-- whatever order they take them, so that pthread_join returns for each. The actions that wait stay
-- in the queue.
pub closed_join :
    (c : Crew) (order : List ℕ) (i : ℕ)
    → Among i order
    → (thread_at (run_all order (closed c)) i ≡ gone)
      × ((run_all order (closed c)).queue ≡ shut_down c.queue)
unfolding broadcast
closed_join c order i among =
    let closing =
      run_all_gone order (closed c) (record { down = refl; none_waits = woken_at c.threads }) in
    (closing.0 i (inl among), closing.1)
