-- ===== src/Runtime/World/Folded.antt =====
-- src/runtime.rs with src/actor/trait_def.rs: what an actor has become after any interleaving.
use runact.Prelude.{
  Bool, Both, ℕ, ◌≡◌, sym, subst, inl, inr, Option, none, some, List, [], ◌∷◌, get_elem?, Both-snoc,
  Both-get_elem?, if_cases,
}
use runact.Any.{Types, Any}
use runact.Channel.{Channels}
use runact.Actor.ActorId.{ActorId}
use runact.Actor.Error.{RuntimeError, Result, ok, err}
use runact.Runtime.{
  ChildSpec, RestartStrategy, MessageEnvelope, message, request, Runtime, RuntimeConfig,
  with_config, find_sender, request_from, requested, open_mailbox, insert_info, spawn_supervisor,
  finish_supervisor, begin_shutdown, finish_shutdown, next_id, try_send_to,
}
use runact.Runtime
use runact.Runtime.World.{
  Actors, World, Mail, logged, is_locked, spawned_loop, request_to, next_request,
}
use runact.Runtime.World
use runact.Runtime.World.Calls.{try_blocking-cases}
use runact.Runtime.World.Steps.{try_held, worker_turn}
use runact.Runtime.World.Events.{
  Event, spawns, supervises, sends_to, tries_blocking, requests_from, takes_reply, works,
  timer_fires, timer_tries, stops, clears, new, timer_begins, timer_fire, timer_sent, timer_try,
  clear, step, run,
}
use runact.Runtime.World.Calls.{try_blocking-cases}
use runact.Runtime.ActorLoop.{next, foldl, readable}
use runact.Runtime.World.{Loop, LoopPc, receiving, top}
use runact.Prelude.{Both-modify, All}
use runact.Runtime.World.PureLoops.{Pure, HasState, folded, IsFolded}
use runact.Runtime.World.Sequential.{IsSequential, try_held-IsSequential, worker_act-IsSequential}

module _ {u : Types} {A : Actors u} (P : Pure A) where
  -- An actor of a pure kind that is spawned starts as its kind does.
  abbrev pub StartsPure : Event A → Type 0
  StartsPure (spawns k s) = (p : P.is_pure k) → s ≡ P.init k p
  StartsPure e = Unit

module _ {u : Types} {ch : Channels (MessageEnvelope u)} {rch : Channels (Any u)} {A : Actors u}
    (P : Pure A) where
  logged-IsFolded :
      {X : Type 0} (w : World ch rch A) (found : Result ℕ RuntimeError) (r : Result X RuntimeError)
      (e : MessageEnvelope u)
      → IsSequential P w
      → Both (IsFolded P) w.loops (logged found r e w.mail)
  logged-IsFolded w (ok i) (ok x) e h = Both-modify (IsFolded P) w.loops w.mail i _ (λ l x f. f) h
  logged-IsFolded w (ok i) (err x) e h = h
  logged-IsFolded w (err x) r e h = h

  send-IsSequential :
      (w : World ch rch A) (target : ActorId) (m : Any u)
      → IsSequential P w
      → IsSequential P (World.send w target m)
  unfolding World.send
  send-IsSequential w target m h =
      logged-IsFolded w (find_sender w.runtime target) (Runtime.send w.runtime target m).0
        (message m) h

  request_to-IsSequential :
      (w : World ch rch A) (target : ActorId) (m : Any u)
      → IsSequential P w
      → IsSequential P (request_to w target m)
  unfolding request_to
  request_to-IsSequential w target m h =
      logged-IsFolded w (find_sender w.runtime target) (request_from w.runtime target m).0
        (next_request w.runtime m) h

  spawned_loop-IsSequential :
      (w : World ch rch A) (k : A.Kind) (s : A.State k)
      (p : Result ActorId RuntimeError × Runtime u ch rch)
      → ((p : P.is_pure k) → s ≡ P.init k p)
      → IsSequential P w
      → IsSequential P (spawned_loop w k s p)
  unfolding spawned_loop readable
  spawned_loop-IsSequential w k s (ok id, rt) e h = Both-snoc (IsFolded P) w.loops w.mail h e
  spawned_loop-IsSequential w k s (err x, rt) e h = h

  spawn-IsSequential :
      (w : World ch rch A) (k : A.Kind) (s : A.State k)
      → ((p : P.is_pure k) → s ≡ P.init k p)
      → IsSequential P w
      → IsSequential P (World.spawn w k s)
  unfolding World.spawn
  spawn-IsSequential w k s e h =
      if_cases (λ (w : World ch rch A). IsSequential P w) (is_locked w) (λ _. h)
        (λ _. spawned_loop-IsSequential w k s (Runtime.spawn w.runtime) e h)

  timer_fire-IsSequential :
      (w : World ch rch A) (target : ActorId) (m : Any u) (o : Option (ℕ × MessageEnvelope u))
      → IsSequential P w
      → IsSequential P (timer_fire w target m o)
  unfolding timer_fire timer_begins
  timer_fire-IsSequential w target m none h =
      elim (find_sender w.runtime target) as (λ found. IsSequential P (timer_begins w m found)) [
        | ok i ↦ h
        | err e ↦ h
      ]
  timer_fire-IsSequential w target m (some waiting) h = h

  timer_sent-IsSequential :
      (p : Option (Result (Unit {0}) RuntimeError) × World ch rch A)
      → IsSequential P p.1
      → IsSequential P (timer_sent p)
  unfolding timer_sent
  timer_sent-IsSequential (none, w) h = h
  timer_sent-IsSequential (some r, w) h = h

  timer_try-IsSequential :
      (w : World ch rch A) (o : Option (ℕ × MessageEnvelope u))
      → IsSequential P w
      → IsSequential P (timer_try w o)
  unfolding timer_try
  timer_try-IsSequential w none h = h
  timer_try-IsSequential w (some (i, e)) h =
      let o = get_elem? w.runtime.mailboxes i in
      timer_sent-IsSequential (try_held w i e o) (try_held-IsSequential P w i e o h)

  step-IsSequential :
      (w : World ch rch A) (e : Event A)
      → StartsPure P e
      → IsSequential P w
      → IsSequential P (step w e)
  unfolding step clear worker_turn
  step-IsSequential w (spawns k s) starts h = spawn-IsSequential w k s starts h
  step-IsSequential w (supervises strategy children) starts h = h
  step-IsSequential w (sends_to target m) starts h = send-IsSequential w target m h
  step-IsSequential w (tries_blocking target m) starts h = elim (try_blocking-cases w target m) [
    | inl e ↦ subst (λ (w : World ch rch A). IsSequential P w) (sym e) h
    | inr e ↦
        subst (λ (w : World ch rch A). IsSequential P w) (sym e) (send-IsSequential w target m h)
  ]
  step-IsSequential w (requests_from target m) starts h = request_to-IsSequential w target m h
  step-IsSequential w (takes_reply i) starts h = h
  step-IsSequential w (works i answer) starts h =
      worker_act-IsSequential P w i answer (get_elem? w.runtime.scheduler.workers i) h
  step-IsSequential w (timer_fires target m) starts h =
      timer_fire-IsSequential w target m w.timer_sending h
  step-IsSequential w timer_tries starts h = timer_try-IsSequential w w.timer_sending h
  step-IsSequential w stops starts h = h
  step-IsSequential w clears starts h =
      if_cases (λ (w : World ch rch A). IsSequential P w) (is_locked w) (λ _. h) (λ _. h)

  run-IsSequential :
      (w : World ch rch A) (es : List (Event A))
      → All (StartsPure P) es
      → IsSequential P w
      → IsSequential P (run w es)
  unfolding run
  run-IsSequential w [] starts h = h
  run-IsSequential w (e ∷ es) starts h =
      run-IsSequential (step w e) es starts.1 (step-IsSequential w e starts.0 h)

-- The loop is at its head or waits for the next message, with the state `s`: it is not inside its
-- handler, and has not ended.
pub data IsBetween {u : Types} {S : Type 0} (s : S) : LoopPc u S → Type 0 where
  at_top : IsBetween s (top s)
  waiting : (stopping : Bool) → IsBetween s (receiving stopping s)

between-HasState :
    {u : Types} {S : Type 0} (s t : S) (pc : LoopPc u S) → IsBetween s pc → HasState pc t → s ≡ t
between-HasState s t _ at_top e = e
between-HasState s t _ (waiting stopping) e = e

-- For an actor of a kind whose handler always returns and makes no calls, where all actors of that kind
-- are spawned with its initial state; the actors of other kinds may do what they like: in every
-- interleaving from a new runtime, an actor whose loop is at its head or waits for a message has the
-- state that its handler gives when it is folded, from the initial state and in their order, over the
-- messages of its own type that its loop has taken, each request with its own reply channel. So two
-- actors never mix their states, and no other thread changes one.
pub run-IsFolded :
    {u : Types} (ch : Channels (MessageEnvelope u)) (rch : Channels (Any u)) {A : Actors u}
    (P : Pure A) (num_workers : ℕ) (config : RuntimeConfig) (es : List (Event A)) (m : ℕ)
    (l : Loop A) (s : A.State l.kind) (p : P.is_pure l.kind)
    → All (StartsPure P) es
    → let w = run (new {ch = ch} {rch = rch} num_workers config) es in
      get_elem? w.loops m ≡ some l
      → IsBetween {u = u} s l.pc
      → (x : Mail u) × (get_elem? w.mail m ≡ some x)
        × (s
            ≡ foldl
                (next (P.answer l.kind p))
                (P.init l.kind p)
                (readable u (A.Message l.kind) x.handled))
unfolding new
run-IsFolded ch rch P num_workers config es m l s p starts at stands =
    let w = run (new {ch = ch} {rch = rch} num_workers config) es in
    let (x, here, f) =
      Both-get_elem? (IsFolded P) w.loops w.mail m at
        (run-IsSequential P (new num_workers config) es starts tt) in
    (x, here, between-HasState s (folded P l.kind p x.handled) l.pc stands (f p))
