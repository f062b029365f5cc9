-- ===== src/Runtime/World/Schedule.antt =====
-- src/runtime.rs with src/scheduler/work_stealing.rs: the scheduler of a world does what the scheduler
-- alone does.
use runact.Prelude.{
  ℕ, suc, zero, ◌≡◌, ◌∙◌, refl, ap, sym, subst, inl, inr, true, Option, none, some, List, [], ◌∷◌,
  ◌++◌, length, length-append, append-nil, get_elem?, if_cases, arith,
}
use runact.Any.{Types, Any}
use runact.Channel.{Channels}
use runact.Actor.ActorId.{ActorId}
use runact.Actor.Error.{RuntimeError, Result, ok, err}
use runact.Scheduler.WorkStealing.{Scheduler}
use runact.Scheduler.WorkStealing
use runact.Runtime.{
  MessageEnvelope, ActorTask, Runtime, RuntimeConfig, with_config, find_sender, open_mailbox,
  insert_info, begin_shutdown,
}
use runact.Runtime
use runact.Runtime.World.{Actors, World, is_locked, spawned_loop, request_to}
use runact.Runtime.World
use runact.Runtime.World.Calls.{
  supervisor-SameWork, finish_shutdown-SameWork, taken_reply-SameWork, try_blocking-cases,
}
use runact.Runtime.World.Steps.{try_held, worker_turn}
use runact.Runtime.World.Events.{
  Event, spawns, supervises, sends_to, tries_blocking, requests_from, takes_reply, works,
  timer_fires, timer_tries, stops, clears, new, timer_begins, timer_fire, timer_sent, timer_try,
  clear, step, run,
}
use runact.Runtime.World.Moves.{
  is_inner, Moved, stays, acts, opens, WorldMoved, SameWork-Moved, send-Moved, request_from-Moved,
  try_held-Moved, worker_act-Moved,
}

module _ {u : Types} {ch : Channels (MessageEnvelope u)} {rch : Channels (Any u)}
    {A : Actors u} where
  spawn-Moved : (w : World ch rch A) (k : A.Kind) (s : A.State k) → WorldMoved w (World.spawn w k s)
  unfolding World.spawn spawned_loop Runtime.spawn open_mailbox insert_info
  spawn-Moved w k s =
      let P : Result ActorId RuntimeError × Runtime u ch rch → Type 0 =
        λ p. WorldMoved w (spawned_loop w k s p) in
      if_cases (WorldMoved w) (is_locked w) (λ _. stays)
        (λ _.
          if_cases P w.runtime.actors_poisoned (λ _. stays)
            (λ _.
              if_cases P w.runtime.senders_poisoned (λ _. stays)
                (λ _.
                  subst
                    (λ n. Moved (length w.runtime.mailboxes) w.runtime.scheduler n (
                      WorkStealing.spawn w.runtime.scheduler (record {
                        id = Runtime.next_id w.runtime;
                        mailbox = length w.runtime.mailboxes;
                      })))
                    (omega (
                      arith,
                      length-append w.runtime.mailboxes
                          (ch.bounded w.runtime.mailbox_capacity ∷ []),
                    ))
                    (opens _ refl))))

  timer_fire-Moved :
      (w : World ch rch A) (target : ActorId) (m : Any u) (o : Option (ℕ × MessageEnvelope u))
      → WorldMoved w (timer_fire w target m o)
  unfolding timer_fire timer_begins
  timer_fire-Moved w target m none =
      elim (find_sender w.runtime target) as (λ found. WorldMoved w (timer_begins w m found)) [
        | ok i ↦ stays
        | err e ↦ stays
      ]
  timer_fire-Moved w target m (some waiting) = stays

  timer_sent-Moved :
      (w : World ch rch A) (p : Option (Result (Unit {0}) RuntimeError) × World ch rch A)
      → WorldMoved w p.1
      → WorldMoved w (timer_sent p)
  unfolding timer_sent
  timer_sent-Moved w (none, w') h = h
  timer_sent-Moved w (some r, w') h = h

  timer_try-Moved :
      (w : World ch rch A) (o : Option (ℕ × MessageEnvelope u)) → WorldMoved w (timer_try w o)
  unfolding timer_try
  timer_try-Moved w none = stays
  timer_try-Moved w (some (i, e)) =
      let o = get_elem? w.runtime.mailboxes i in
      timer_sent-Moved w (try_held w i e o) (try_held-Moved w i e o)

  step-Moved : (w : World ch rch A) (e : Event A) → WorldMoved w (step w e)
  unfolding step World.send request_to clear worker_turn begin_shutdown
  step-Moved w (spawns k s) = spawn-Moved w k s
  step-Moved w (supervises strategy children) =
      SameWork-Moved (supervisor-SameWork w.runtime strategy children)
  step-Moved w (sends_to target m) = send-Moved w.runtime target m
  step-Moved w (tries_blocking target m) = elim (try_blocking-cases w target m) [
    | inl e ↦ subst (WorldMoved w) (sym e) stays
    | inr e ↦ subst (WorldMoved w) (sym e) (send-Moved w.runtime target m)
  ]
  step-Moved w (requests_from target m) = request_from-Moved w.runtime target m
  step-Moved w (takes_reply i) =
      SameWork-Moved (taken_reply-SameWork w.runtime i (get_elem? w.runtime.replies i))
  step-Moved w (works i answer) =
      worker_act-Moved w i answer (get_elem? w.runtime.scheduler.workers i)
  step-Moved w (timer_fires target m) = timer_fire-Moved w target m w.timer_sending
  step-Moved w timer_tries = timer_try-Moved w w.timer_sending
  step-Moved w stops = stays
  step-Moved w clears =
      if_cases (WorldMoved w) (is_locked w) (λ _. stays)
        (λ _. SameWork-Moved (finish_shutdown-SameWork w.runtime))

-- The mailboxes of the tasks that are spawned, in order, and the numbers below `n`.
abbrev pub opened_by : List (WorkStealing.Event ActorTask) → List ℕ
opened_by [] = []
opened_by (WorkStealing.spawns task ∷ ts) = task.mailbox ∷ opened_by ts
opened_by (e ∷ ts) = opened_by ts

abbrev pub numbers : ℕ → List ℕ
numbers zero = []
numbers (suc n) = numbers n ++ n ∷ []

-- A run of the scheduler alone, from `start`, that ends at `s` and has spawned one loop for each of
-- `n` mailboxes, in order.
pub record Schedule (start : Scheduler ActorTask) (n : ℕ) (s : Scheduler ActorTask) : Type 0 where
  pub events : List (WorkStealing.Event ActorTask)
  pub ends : WorkStealing.run start events ≡ s
  pub addresses : opened_by events ≡ numbers n

run-snoc :
    (s : Scheduler ActorTask) (ts : List (WorkStealing.Event ActorTask))
    (e : WorkStealing.Event ActorTask)
    → WorkStealing.run s (ts ++ e ∷ []) ≡ WorkStealing.step (WorkStealing.run s ts) e
unfolding WorkStealing.run
run-snoc s [] e = refl
run-snoc s (t ∷ ts) e = run-snoc (WorkStealing.step s t) ts e

opened_by-append :
    (ts rest : List (WorkStealing.Event ActorTask))
    → opened_by (ts ++ rest) ≡ opened_by ts ++ opened_by rest
opened_by-append [] rest = refl
opened_by-append (WorkStealing.spawns task ∷ ts) rest =
    ap (λ l. task.mailbox ∷ l) (opened_by-append ts rest)
opened_by-append (WorkStealing.turns i ∷ ts) rest = opened_by-append ts rest
opened_by-append (WorkStealing.panics i ∷ ts) rest = opened_by-append ts rest
opened_by-append (WorkStealing.stops ∷ ts) rest = opened_by-append ts rest

inner-opens_none : (e : WorkStealing.Event ActorTask) → is_inner e ≡ true → opened_by (e ∷ []) ≡ []
inner-opens_none (WorkStealing.spawns task) h = absurd (cc)
inner-opens_none (WorkStealing.turns i) h = refl
inner-opens_none (WorkStealing.panics i) h = refl
inner-opens_none WorkStealing.stops h = refl

Moved-Schedule :
    {start s s' : Scheduler ActorTask} {n n' : ℕ}
    → Schedule start n s
    → Moved n s n' s'
    → Schedule start n' s'
unfolding WorkStealing.step
Moved-Schedule c stays = c
Moved-Schedule {start} c (acts e inner) = record {
  events = c.events ++ e ∷ [];
  ends = run-snoc start c.events e ∙ ap (λ s. WorkStealing.step s e) c.ends;
  addresses =
      opened_by-append c.events (e ∷ [])
      ∙ ap (λ l. opened_by c.events ++ l) (inner-opens_none e inner)
      ∙ append-nil (opened_by c.events)
      ∙ c.addresses;
}
Moved-Schedule {start} {n = n} c (opens task at) = record {
  events = c.events ++ WorkStealing.spawns task ∷ [];
  ends =
      run-snoc start c.events (WorkStealing.spawns task)
      ∙ ap (λ s. WorkStealing.spawn s task) c.ends;
  addresses =
      opened_by-append c.events (WorkStealing.spawns task ∷ [])
      ∙ ap (λ l. l ++ task.mailbox ∷ []) c.addresses
      ∙ ap (λ m. numbers n ++ m ∷ []) at;
}

module _ {u : Types} {ch : Channels (MessageEnvelope u)} {rch : Channels (Any u)}
    {A : Actors u} where
  run_from-Schedule :
      (start : Scheduler ActorTask) (w : World ch rch A) (es : List (Event A))
      → Schedule start (length w.runtime.mailboxes) w.runtime.scheduler
      → let w' = run w es in Schedule start (length w'.runtime.mailboxes) w'.runtime.scheduler
  unfolding run
  run_from-Schedule start w [] c = c
  run_from-Schedule start w (e ∷ es) c =
      run_from-Schedule start (step w e) es (Moved-Schedule c (step-Moved w e))

-- In every interleaving of a world from a new runtime, the scheduler is where it would be after
-- some run of its own, without the actors, in which the tasks that are spawned are the loops of
-- the mailboxes 0, 1, 2 and so on, each once. So all that holds of every run of the scheduler holds of
-- the scheduler of a runtime.
pub run-Schedule :
    {u : Types} (ch : Channels (MessageEnvelope u)) (rch : Channels (Any u)) (A : Actors u)
    (num_workers : ℕ) (config : RuntimeConfig) (es : List (Event A))
    → let w = run (new {ch = ch} {rch = rch} num_workers config) es in
      Schedule (WorkStealing.new num_workers) (length w.runtime.mailboxes) w.runtime.scheduler
unfolding new with_config WorkStealing.run
run-Schedule ch rch A num_workers config es =
    run_from-Schedule (WorkStealing.new num_workers)
      (new {ch = ch} {rch = rch} {A = A} num_workers config) es
      (record { events = []; ends = refl; addresses = refl })
