-- ===== src/Runtime/World/Limit.antt =====
-- src/runtime.rs: how many actors can run.
use runact.Prelude.{
  ℕ, ◌≤◌, ◌≡◌, ◌∙◌, refl, ap, sym, subst, inl, inr, Bool, true, false, Option, none, some, List, [],
  ◌∷◌, ◌++◌, length, get_elem?, get_elem?-snoc, All, All-snoc, total, if_cases, arith,
}
use runact.Any.{Types, Any}
use runact.Channel.{Channels, IsLawful}
use runact.Actor.ActorId.{ActorId}
use runact.Actor.Error.{RuntimeError, Result, ok, err}
use runact.Scheduler.WorkStealing.{Scheduler, Pc, request_stop}
use runact.Scheduler.WorkStealing
use runact.Scheduler.WorkStealing.Held.{busy, spawn-busy, run-busy-le}
use runact.Runtime.{
  MessageEnvelope, message, request, ActorTask, Runtime, RuntimeConfig, with_config, find_sender,
  try_send_to, try_send_at, try_sent, request_from, open_mailbox, insert_info, next_id,
}
use runact.Runtime
use runact.Runtime.World.{
  Loop, Actors, World, Mail, logged, is_locked, spawned_loop, request_to, next_request,
}
use runact.Runtime.World
use runact.Runtime.World.Calls.{
  SameWork, supervisor-SameWork, taken_reply-SameWork, try_blocking-cases,
}
use runact.Runtime.World.Steps.{try_held, worker_turn}
use runact.Runtime.World.Events.{
  Event, spawns, supervises, sends_to, tries_blocking, requests_from, takes_reply, works,
  timer_fires, timer_tries, stops, clears, new, timer_begins, timer_fire, timer_sent, timer_try,
  step, run,
}
use runact.Runtime.World.Schedule.{run-Schedule}
use runact.Runtime.World.Exclusive.{loop_of}
use runact.Runtime.World.Counting.{started_of-le, busy-le}
use runact.Runtime.World.Occupied.{is_going, started, Held, IsOccupied}
use runact.Runtime.World.OccupiedTurns.{try_held-IsOccupied, worker_act-IsOccupied}
use runact.Runtime.World.OccupiedCalls.{HasSender, send-IsOccupied, request_to-IsOccupied}
use runact.Runtime.World.OccupiedTurns.{try_held-IsOccupied, worker_act-IsOccupied}
use runact.Runtime.World.Events.{
  Event, spawns, supervises, sends_to, tries_blocking, requests_from, takes_reply, works,
  timer_fires, timer_tries, stops, clears, new, timer_begins, timer_fire, timer_sent, timer_try,
  step, run,
}
use runact.Runtime.World.Schedule.{run-Schedule}
use runact.Runtime.World.Exclusive.{loop_of}
use runact.Scheduler.WorkStealing.Held.{busy, spawn-busy, run-busy-le}
use runact.Runtime.World.Calls.{
  SameWork, supervisor-SameWork, taken_reply-SameWork, try_blocking-cases,
}
use runact.Runtime.World.Steps.{try_held, worker_turn}
use runact.Runtime.World.{spawned_loop, is_locked}
use runact.Runtime.{open_mailbox, insert_info, next_id, with_config, RuntimeConfig}
use runact.Prelude.{Bool, true, false, if_cases, All-snoc, get_elem?-snoc, total, inl, inr}
use runact.Scheduler.WorkStealing
use runact.Scheduler.WorkStealing.{request_stop}
use runact.Runtime.World.Occupied.{is_going}

module _ {u : Types} {A : Actors u} where
  -- An event of `Runtime::shutdown`.
  abbrev pub is_shutdown : Event A → Bool
  is_shutdown stops = true
  is_shutdown clears = true
  is_shutdown e = false

busy-stop :
    (m : ℕ) (s : Scheduler ActorTask) → busy (loop_of m) (request_stop s) ≡ busy (loop_of m) s
unfolding request_stop
busy-stop m s = refl

module _ {u : Types} where
  nothing-Held : (s : Scheduler ActorTask) → Held {u = u} [] s
  nothing-Held s m x at = absurd (cc)

  opened-Held :
      (mail : List (Mail u)) (s : Scheduler ActorTask) (task : ActorTask)
      → Held mail s
      → Held
          (mail ++ record { accepted = []; handled = []; lost = [] } ∷ [])
          (WorkStealing.spawn s task)
  opened-Held mail s task h m x at = elim (get_elem?-snoc mail m _ x at) [
    | inl e ↦ omega (arith, ap started e)
    | inr old ↦ omega (arith, h m x old, spawn-busy (loop_of m) s task)
  ]

module _ {u : Types} {ch : Channels (MessageEnvelope u)} {rch : Channels (Any u)} {A : Actors u}
    (lawful : IsLawful ch) where
  spawn-IsOccupied :
      (w : World ch rch A) (k : A.Kind) (s : A.State k)
      → IsOccupied w
      → IsOccupied (World.spawn w k s)
  unfolding World.spawn spawned_loop Runtime.spawn open_mailbox insert_info
  spawn-IsOccupied w k s h =
      let P : Result ActorId RuntimeError × Runtime u ch rch → Type 0 =
        λ p. IsOccupied (spawned_loop w k s p) in
      if_cases (λ (w : World ch rch A). IsOccupied w) (is_locked w) (λ _. h)
        (λ _.
          if_cases P w.runtime.actors_poisoned
            (λ _. record { on = h.on; going = h.going; senders = h.senders; held = h.held })
            (λ _.
              if_cases P w.runtime.senders_poisoned
                (λ _. record { on = h.on; going = h.going; senders = h.senders; held = h.held })
                (λ _. record {
                  on = h.on;
                  going = All-snoc (λ (l : Loop A). is_going l.pc ≡ true) w.loops h.going refl;
                  senders =
                      All-snoc (HasSender ch) w.runtime.mailboxes
                        {x = ch.bounded w.runtime.mailbox_capacity} h.senders
                        (omega (arith, (lawful.bounded_new w.runtime.mailbox_capacity).3));
                  held = opened-Held w.mail w.runtime.scheduler _ h.held;
                })))

  timer_fire-IsOccupied :
      (w : World ch rch A) (target : ActorId) (m : Any u) (o : Option (ℕ × MessageEnvelope u))
      → IsOccupied w
      → IsOccupied (timer_fire w target m o)
  unfolding timer_fire timer_begins
  timer_fire-IsOccupied w target m none h =
      elim (find_sender w.runtime target) as (λ found. IsOccupied (timer_begins w m found)) [
        | ok i ↦ record { on = h.on; going = h.going; senders = h.senders; held = h.held }
        | err e ↦ h
      ]
  timer_fire-IsOccupied w target m (some waiting) h = h

  timer_sent-IsOccupied :
      (p : Option (Result (Unit {0}) RuntimeError) × World ch rch A)
      → IsOccupied p.1
      → IsOccupied (timer_sent p)
  unfolding timer_sent
  timer_sent-IsOccupied (none, w) h = h
  timer_sent-IsOccupied (some r, w) h = record {
    on = h.on;
    going = h.going;
    senders = h.senders;
    held = h.held;
  }

  timer_try-IsOccupied :
      (w : World ch rch A) (o : Option (ℕ × MessageEnvelope u))
      → IsOccupied w
      → IsOccupied (timer_try w o)
  unfolding timer_try
  timer_try-IsOccupied w none h = h
  timer_try-IsOccupied w (some (i, e)) h =
      timer_sent-IsOccupied (try_held w i e (get_elem? w.runtime.mailboxes i))
        (try_held-IsOccupied lawful w i e h)

  SameWork-IsOccupied :
      (w : World ch rch A) (rt : Runtime u ch rch)
      → SameWork w.runtime rt
      → IsOccupied w
      → IsOccupied (record w { runtime = rt })
  SameWork-IsOccupied w rt same h = record {
    on = same.stop ∙ h.on;
    going = h.going;
    senders = subst (All (HasSender ch)) (sym same.mailboxes) h.senders;
    held = elim same.scheduler [
      | inl e ↦ subst (Held w.mail) (sym e) h.held
      | inr e ↦
          subst (Held w.mail) (sym e)
            (λ m x at. omega (arith, h.held m x at, busy-stop m w.runtime.scheduler))
    ];
  }

  step-IsOccupied :
      (w : World ch rch A) (e : Event A)
      → is_shutdown e ≡ false
      → IsOccupied w
      → IsOccupied (step w e)
  unfolding step worker_turn
  step-IsOccupied w (spawns k s) before h = spawn-IsOccupied w k s h
  step-IsOccupied w (supervises strategy children) before h =
      SameWork-IsOccupied w _ (supervisor-SameWork w.runtime strategy children) h
  step-IsOccupied w (sends_to target m) before h = send-IsOccupied lawful w target m h
  step-IsOccupied w (tries_blocking target m) before h = elim (try_blocking-cases w target m) [
    | inl e ↦ subst (λ (w : World ch rch A). IsOccupied w) (sym e) h
    | inr e ↦
        subst (λ (w : World ch rch A). IsOccupied w) (sym e) (send-IsOccupied lawful w target m h)
  ]
  step-IsOccupied w (requests_from target m) before h = request_to-IsOccupied lawful w target m h
  step-IsOccupied w (takes_reply i) before h =
      SameWork-IsOccupied w _ (taken_reply-SameWork w.runtime i (get_elem? w.runtime.replies i)) h
  step-IsOccupied w (works i answer) before h =
      worker_act-IsOccupied lawful w i answer (get_elem? w.runtime.scheduler.workers i) refl h
  step-IsOccupied w (timer_fires target m) before h =
      timer_fire-IsOccupied w target m w.timer_sending h
  step-IsOccupied w timer_tries before h = timer_try-IsOccupied w w.timer_sending h
  step-IsOccupied w stops before h = absurd (cc)
  step-IsOccupied w clears before h = absurd (cc)

  run-IsOccupied :
      (w : World ch rch A) (es : List (Event A))
      → All (λ (e : Event A). is_shutdown e ≡ false) es
      → IsOccupied w
      → IsOccupied (run w es)
  unfolding run
  run-IsOccupied w [] before h = h
  run-IsOccupied w (e ∷ es) before h =
      run-IsOccupied (step w e) es before.1 (step-IsOccupied w e before.0 h)

-- Over channels that meet their documented laws, from a new runtime and for as long as nobody calls
-- `shutdown`, in every interleaving: of all actors that are ever spawned, at most as many as the
-- scheduler has workers have taken a message. A loop does not return before the stop flag is
-- set, and its yields give up the processor and not the worker.
pub run-started-le :
    {u : Types} (ch : Channels (MessageEnvelope u)) (rch : Channels (Any u)) (A : Actors u)
    (num_workers : ℕ) (config : RuntimeConfig) (es : List (Event A))
    → IsLawful ch
    → All (λ (e : Event A). is_shutdown e ≡ false) es
    → total started (run (new {ch = ch} {rch = rch} num_workers config) es).mail ≤ num_workers
unfolding new with_config
run-started-le ch rch A num_workers config es lawful before =
    let start = new {ch = ch} {rch = rch} {A = A} num_workers config in
    let w = run start es in
    let c = run-Schedule ch rch A num_workers config es in
    let fresh : IsOccupied start = record {
      on = refl;
      going = tt;
      senders = tt;
      held = nothing-Held start.runtime.scheduler;
    } in
    omega (
      arith,
      started_of-le w.mail w.runtime.scheduler (run-IsOccupied lawful start es before fresh).held,
      busy-le w.runtime.scheduler (length w.mail),
      run-busy-le num_workers c.events,
      ap (busy (λ (t : ActorTask). 1)) c.ends,
    )
