-- ===== src/Runtime/World/Delivery.antt =====
-- src/runtime.rs: no interleaving loses, copies or reorders a message of a mailbox.
use runact.Prelude.{
  ◌≤◌, ℕ, ◌<◌, ◌≡◌, ◌∙◌, refl, ap, sym, subst, inl, inr, Option, none, some, List, [], ◌∷◌, length,
  get_elem?, Both-snoc, Both-get_elem?, if_cases,
}
use runact.Any.{Types, Any}
use runact.Channel.{Channels, IsLawful}
use runact.Actor.ActorId.{ActorId}
use runact.Actor.Error.{RuntimeError, Result, ok, err}
use runact.Runtime.{
  ChildSpec, RestartStrategy, MessageEnvelope, message, request, Runtime, RuntimeConfig,
  with_config, find_sender, request_from, requested, open_mailbox, insert_info, spawn_supervisor,
  finish_supervisor, begin_shutdown, finish_shutdown, next_id, try_send_to,
}
use runact.Runtime.Routing.{requesting}
use runact.Runtime
use runact.Runtime.World.{
  Actors, World, Mail, logged, is_locked, spawned_loop, request_to, next_request,
}
use runact.Runtime.World
use runact.Runtime.World.Calls.{
  SameWork, supervisor-SameWork, finish_shutdown-SameWork, taken_reply-SameWork,
  try_send_to-OnlyMailboxes, request_from-OnlyMailboxes, try_blocking-cases,
}
use runact.Runtime.World.Steps.{try_held, worker_turn}
use runact.Runtime.World.Events.{
  Event, spawns, supervises, sends_to, tries_blocking, requests_from, takes_reply, works,
  timer_fires, timer_tries, stops, clears, new, timer_begins, timer_fire, timer_sent, timer_try,
  clear, step, run,
}
use runact.Runtime.World.Accounts.{
  Accounts, Holds, Kept, bounded-Holds, try_send_to-Kept, requested-Kept,
}
use runact.Runtime.World.Kept.{IsKept, After, try_held-IsKept, worker_act-IsKept}

module _ {u : Types} {ch : Channels (MessageEnvelope u)} {rch : Channels (Any u)} {A : Actors u}
    (lawful : IsLawful ch) {n : ℕ} (pos : 0 < n) where
  abbrev IsKeptWorld : World ch rch A → Type 0
  IsKeptWorld w = IsKept lawful pos w

  send-IsKept :
      (w : World ch rch A) (target : ActorId) (m : Any u)
      → IsKeptWorld w
      → IsKeptWorld (World.send w target m)
  unfolding World.send Runtime.send
  send-IsKept w target m h =
      let found = find_sender w.runtime target in
      record {
        configured =
            ap (λ rt. rt.mailbox_capacity)
              (try_send_to-OnlyMailboxes w.runtime target (message m) found)
            ∙ h.configured;
        accounts = try_send_to-Kept lawful pos w.runtime target (message m) w.mail found h.accounts;
      }

  request_to-IsKept :
      (w : World ch rch A) (target : ActorId) (m : Any u)
      → IsKeptWorld w
      → IsKeptWorld (request_to w target m)
  unfolding request_to request_from find_sender
  request_to-IsKept w target m h =
      let rt = requesting w.runtime in
      let e = next_request w.runtime m in
      let found = find_sender rt target in
      record {
        configured =
            ap (λ rt'. rt'.mailbox_capacity) (request_from-OnlyMailboxes w.runtime target m)
            ∙ h.configured;
        accounts =
            requested-Kept lawful pos found e w.mail w.runtime.request_counter
              (length w.runtime.replies) (try_send_to rt target e found)
              (try_send_to-Kept lawful pos rt target e w.mail found h.accounts);
      }

  spawn-IsKept :
      (w : World ch rch A) (k : A.Kind) (s : A.State k)
      → IsKeptWorld w
      → IsKeptWorld (World.spawn w k s)
  unfolding World.spawn spawned_loop Runtime.spawn open_mailbox insert_info
  spawn-IsKept w k s h =
      let P : Result ActorId RuntimeError × Runtime u ch rch → Type 0 =
        λ p. IsKeptWorld (spawned_loop w k s p) in
      if_cases IsKeptWorld (is_locked w) (λ _. h)
        (λ _.
          if_cases P w.runtime.actors_poisoned
            (λ _. record { configured = h.configured; accounts = h.accounts })
            (λ _.
              if_cases P w.runtime.senders_poisoned
                (λ _. record { configured = h.configured; accounts = h.accounts })
                (λ _. record {
                  configured = h.configured;
                  accounts = Both-snoc (Holds ch n) w.runtime.mailboxes w.mail h.accounts (
                      subst
                        (λ b.
                          Holds ch n (ch.bounded b)
                            (record { accepted = []; handled = []; lost = [] }))
                        (sym h.configured) (bounded-Holds lawful pos));
                })))

  timer_begins-IsKept :
      (w : World ch rch A) (m : Any u) (found : Result ℕ RuntimeError)
      → IsKeptWorld w
      → IsKeptWorld (timer_begins w m found)
  unfolding timer_begins
  timer_begins-IsKept w m (err e) h = h
  timer_begins-IsKept w m (ok i) h = record { configured = h.configured; accounts = h.accounts }

  timer_fire-IsKept :
      (w : World ch rch A) (target : ActorId) (m : Any u) (o : Option (ℕ × MessageEnvelope u))
      → IsKeptWorld w
      → IsKeptWorld (timer_fire w target m o)
  unfolding timer_fire
  timer_fire-IsKept w target m none h = timer_begins-IsKept w m (find_sender w.runtime target) h
  timer_fire-IsKept w target m (some waiting) h = h

  timer_sent-IsKept :
      (p : Option (Result (Unit {0}) RuntimeError) × World ch rch A)
      → After lawful pos p
      → IsKeptWorld (timer_sent p)
  unfolding timer_sent
  timer_sent-IsKept (none, w) h = h
  timer_sent-IsKept (some r, w) h = record { configured = h.configured; accounts = h.accounts }

  timer_try-IsKept :
      (w : World ch rch A) (o : Option (ℕ × MessageEnvelope u))
      → IsKeptWorld w
      → IsKeptWorld (timer_try w o)
  unfolding timer_try
  timer_try-IsKept w none h = h
  timer_try-IsKept w (some (i, e)) h =
      timer_sent-IsKept (try_held w i e (get_elem? w.runtime.mailboxes i))
        (try_held-IsKept lawful pos w i e h)

  SameWork-IsKept :
      (w : World ch rch A) (rt : Runtime u ch rch)
      → SameWork w.runtime rt
      → IsKeptWorld w
      → IsKeptWorld (record w { runtime = rt })
  SameWork-IsKept w rt same h = record {
    configured = same.capacity ∙ h.configured;
    accounts = subst (λ boxes. Kept lawful pos boxes w.mail) (sym same.mailboxes) h.accounts;
  }

  step-IsKept : (w : World ch rch A) (e : Event A) → IsKeptWorld w → IsKeptWorld (step w e)
  unfolding step clear worker_turn begin_shutdown
  step-IsKept w (spawns k s) h = spawn-IsKept w k s h
  step-IsKept w (supervises strategy children) h =
      SameWork-IsKept w _ (supervisor-SameWork w.runtime strategy children) h
  step-IsKept w (sends_to target m) h = send-IsKept w target m h
  step-IsKept w (tries_blocking target m) h = elim (try_blocking-cases w target m) [
    | inl e ↦ subst IsKeptWorld (sym e) h
    | inr e ↦ subst IsKeptWorld (sym e) (send-IsKept w target m h)
  ]
  step-IsKept w (requests_from target m) h = request_to-IsKept w target m h
  step-IsKept w (takes_reply i) h =
      SameWork-IsKept w _ (taken_reply-SameWork w.runtime i (get_elem? w.runtime.replies i)) h
  step-IsKept w (works i answer) h =
      worker_act-IsKept lawful pos w i answer (get_elem? w.runtime.scheduler.workers i) h
  step-IsKept w (timer_fires target m) h = timer_fire-IsKept w target m w.timer_sending h
  step-IsKept w timer_tries h = timer_try-IsKept w w.timer_sending h
  step-IsKept w stops h = record { configured = h.configured; accounts = h.accounts }
  step-IsKept w clears h =
      if_cases IsKeptWorld (is_locked w) (λ _. h)
        (λ _. SameWork-IsKept w _ (finish_shutdown-SameWork w.runtime) h)

  run-IsKept : (w : World ch rch A) (es : List (Event A)) → IsKeptWorld w → IsKeptWorld (run w es)
  unfolding run
  run-IsKept w [] h = h
  run-IsKept w (e ∷ es) h = run-IsKept (step w e) es (step-IsKept w e h)

run-Holds :
    {u : Types} (ch : Channels (MessageEnvelope u)) (rch : Channels (Any u)) (A : Actors u)
    (num_workers : ℕ) (config : RuntimeConfig) (es : List (Event A)) (i : ℕ) (c : ch.Chan)
    → IsLawful ch
    → 0 < config.mailbox_capacity
    → let w = run (new {ch = ch} {rch = rch} num_workers config) es in
      get_elem? w.runtime.mailboxes i ≡ some c
      → (x : Mail u) × (get_elem? w.mail i ≡ some x) × Holds ch config.mailbox_capacity c x
unfolding new with_config
run-Holds ch rch A num_workers config es i c lawful pos at =
    let w = run (new {ch = ch} {rch = rch} {A = A} num_workers config) es in
    let kept =
      run-IsKept lawful pos (new num_workers config) es
        (record { configured = refl; accounts = tt }) in
    Both-get_elem? (Holds ch config.mailbox_capacity) w.runtime.mailboxes w.mail i at kept.accounts

-- Over channels that meet their documented laws, from a new runtime with a mailbox capacity above 0,
-- in every interleaving of spawns, sends, requests, blocking sends, worker accesses, handlers that
-- send, reply or panic, the timer thread and the shutdown: each mailbox has accepted exactly the
-- envelopes that its loop has taken out, then those that were dropped with its receiver, then those that
-- are still queued, in this one order; and none has been dropped while the receiver is there.
pub run-Accounts_world :
    {u : Types} (ch : Channels (MessageEnvelope u)) (rch : Channels (Any u)) (A : Actors u)
    (num_workers : ℕ) (config : RuntimeConfig) (es : List (Event A)) (i : ℕ) (c : ch.Chan)
    → IsLawful ch
    → 0 < config.mailbox_capacity
    → let w = run (new {ch = ch} {rch = rch} num_workers config) es in
      get_elem? w.runtime.mailboxes i ≡ some c
      → (x : Mail u) × (get_elem? w.mail i ≡ some x) × Accounts ch config.mailbox_capacity c x
run-Accounts_world ch rch A num_workers config es i c lawful pos at =
    let (x, here, h) = run-Holds ch rch A num_workers config es i c lawful pos at in
    (x, here, h.accounts)

-- Over channels that meet their documented laws, from a new runtime with a mailbox capacity above 0,
-- in every interleaving of spawns, sends, requests, blocking sends, worker accesses, handlers that
-- send, reply or panic, the timer thread and the shutdown, no mailbox of an actor holds more messages
-- than the capacity.
pub run-within-capacity :
    {u : Types} (ch : Channels (MessageEnvelope u)) (rch : Channels (Any u)) (A : Actors u)
    (num_workers : ℕ) (config : RuntimeConfig) (es : List (Event A)) (i : ℕ) (c : ch.Chan)
    → IsLawful ch
    → 0 < config.mailbox_capacity
    → let w = run (new {ch = ch} {rch = rch} num_workers config) es in
      get_elem? w.runtime.mailboxes i ≡ some c → length (ch.queued c) ≤ config.mailbox_capacity
run-within-capacity ch rch A num_workers config es i c lawful pos at =
    let (x, here, h) = run-Holds ch rch A num_workers config es i c lawful pos at in h.held
