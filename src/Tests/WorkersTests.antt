-- ===== src/Tests/WorkersTests.antt =====
-- utils/workers.c on concrete queues.
use foxtails.Base.{
  ℕ, some, none, length, ◌≤◌, true, false, [], ◌∷◌, ◌≡◌, refl, inl, inr, arith, ◌⊎◌, ◌<◌, replicate,
  set,
}
use foxtails.Base.Bytes.{Bytes}
use foxtails.Workers.Queue.{IsValid, Appended, dispatch_command_lem}
use foxtails.Workers.Take.{TurnTakes, take_turn_lem}
use foxtails.Workers.Trace.{Request, here, Inv, Reach-Inv}
use foxtails.Workers.Trace
use foxtails.Workers.Crew.{Crew, awake, gone, thread_at, Reach, start, next, dispatch}
use foxtails.Workers.Crew.Alert.{IsAttended, Reach-IsAttended}
use foxtails.Workers.Crew.Join.{run_all, closed, closed_join}
use foxtails.Workers.{
  new_client, Action, cleared, WorkerQueue, init_queue, grow, put, payload_size_max, enqueue,
  dispatch_command, take_turn, end_turn, filled, shut_down,
}

-- Seven of eight slots taken, from slot 5 on round the array.
abbrev almost_full : WorkerQueue
almost_full = record {
  slots = replicate 8 cleared;
  head = 5;
  count = 7;
  capacity = 8;
  shutting_down = false;
}

almost_full-IsValid : IsValid almost_full
almost_full-IsValid = omega arith

grows : (enqueue true almost_full new_client (1 ∷ [])).capacity ≡ 16
unfolding enqueue grow put
grows = refl

abbrev one_byte : Bytes
one_byte = 1 ∷ []

dispatch_command_lem_example :
    (length one_byte ≤ payload_size_max
      → ((true ≡ true) ⊎ (8 < 8)
          → (q' : WorkerQueue) × (dispatch_command true almost_full new_client (1 ∷ []) ≡ some q')
            × Appended almost_full new_client (1 ∷ []) q')
        × ((true ≡ false) × (◌≡◌ {A = ℕ} 8 8)
            → dispatch_command true almost_full new_client (1 ∷ []) ≡ some almost_full))
    × (payload_size_max < length one_byte
        → dispatch_command true almost_full new_client (1 ∷ []) ≡ none)
dispatch_command_lem_example =
    dispatch_command_lem true almost_full new_client (1 ∷ []) almost_full-IsValid (omega arith)

take_turn_lem_example : TurnTakes almost_full (take_turn almost_full)
take_turn_lem_example = take_turn_lem almost_full almost_full-IsValid

abbrev hello : Request
hello = record { action = new_client; payload = 7 ∷ 8 ∷ [] }

abbrev queued : WorkerQueue
queued = enqueue true init_queue new_client (7 ∷ 8 ∷ [])

abbrev first_action : Action
first_action = filled cleared new_client (7 ∷ 8 ∷ [])

abbrev during : WorkerQueue
during = record queued {
  slots = set queued.slots 0 (record first_action { lock = true; exists = false });
  head = 1;
  count = 0;
}

one_round :
    Trace.Reach (record { queue = end_turn during 0; sent = hello ∷ []; ran = first_action ∷ [] })
unfolding enqueue dispatch_command put take_turn
one_round =
    Trace.next (Trace.next here (Trace.Step.dispatch true hello (omega arith) (inl refl) refl))
      (Trace.Step.work 0 first_action during refl)

Reach-Inv_example :
    Inv (record { queue = end_turn during 0; sent = hello ∷ []; ran = first_action ∷ [] })
Reach-Inv_example = Reach-Inv one_round

-- Two threads and one action that waits, with its signal sent to nobody
abbrev one_waits : Crew
one_waits = record { queue = queued; threads = awake ∷ awake ∷ []; signals = 1 }

one_waits-Reach : Reach 2 one_waits
unfolding dispatch_command
one_waits-Reach = next start (dispatch true hello (omega arith) (inl refl) refl)

Reach-IsAttended_example : IsAttended one_waits
unfolding enqueue put
Reach-IsAttended_example =
    Reach-IsAttended 2 one_waits (omega arith) one_waits-Reach refl (omega arith)

closed_join_example :
    (thread_at (run_all (1 ∷ 0 ∷ []) (closed one_waits)) 0 ≡ gone)
    × ((run_all (1 ∷ 0 ∷ []) (closed one_waits)).queue ≡ shut_down queued)
closed_join_example = closed_join one_waits (1 ∷ 0 ∷ []) 0 (inr (inl refl))
