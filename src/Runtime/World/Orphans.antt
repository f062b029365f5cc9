-- ===== src/Runtime/World/Orphans.antt =====
-- src/runtime.rs: an id that is in the map of actors and not in the map of senders stays so until
-- `shutdown` clears the maps.
use Prim.Native.String.{String}
use runact.Prelude.{
  ◌%◌, if◌then◌else◌, ℕ, suc, ◌+◌, ◌-◌, ◌^◌, ◌<◌, ◌≤◌, ◌≡◌, ◌==◌, ◌∙◌, refl, ap, sym, subst, Bool,
  true, false, Option, none, some, List, length, get_elem?, if_cases, if_false, inl, inr, arith,
}
use runact.Prelude.HashMap.{lookup, lookup-insert}
use runact.Any.{Types, Any}
use runact.Channel.{Channels}
use runact.Actor.ActorId.{ActorId}
use runact.Actor.ActorId
use runact.Actor.Error.{RuntimeError, Result, ok, err}
use runact.Supervision.Strategy.{RestartStrategy, ChildSpec}
use runact.Runtime.{
  MessageEnvelope, ActorTask, ActorInfo, Runtime, RuntimeConfig, with_config, next_id, insert_info,
  inspect_actor, find_sender, found_sender, send, request_from, requested, send_blocking,
  blocking_send_to, Blocking, returned, try_send_to, spawn_supervisor, finish_supervisor,
  begin_shutdown, finish_shutdown,
}
use runact.Runtime
use runact.Runtime.Counted.{
  IsCounted, SameActors, SameActors-IsCounted, send-SameActors, request_from-SameActors,
}
use runact.Runtime.Reached.{
  spawned_runtime, spawn_ok, raw, spawn-IsCounted, spawn_supervisor-IsCounted,
  finish_shutdown-IsCounted, length-insert_info,
}
use runact.Runtime.World.{
  Script, returns, panics, sends, replies, calls, LoopPc, top, handling, sending, leaving, ended,
  receiving, Loop, Actors, World, is_locked, spawned_loop, request_to,
}
use runact.Runtime.World
use runact.Runtime.World.Calls.{try_blocking-cases}
use runact.Runtime.World.Steps.{try_held, worker_turn}
use runact.Runtime.World.Events.{
  Event, spawns, supervises, sends_to, tries_blocking, requests_from, takes_reply, works,
  timer_fires, timer_tries, stops, clears, taken_reply, timer_begins, timer_fire, timer_sent,
  timer_try, clear, step,
}
use runact.Runtime.World.Maps.{Same, same, try_held-Same, worker_act-Same}

-- What an event does to the maps: nothing, a spawn, a supervisor, or the end of `shutdown`.
pub data Acts {u : Types} {ch : Channels (MessageEnvelope u)} {rch : Channels (Any u)}
    (rt : Runtime u ch rch) : Bool → Runtime u ch rch → Type 0 where
  nothing : {b : Bool} {rt' : Runtime u ch rch} → SameActors rt rt' → Acts rt b rt'
  spawned : {b : Bool} → Acts rt b (Runtime.spawn rt).1
  supervised :
      {b : Bool} (strategy : RestartStrategy) (children : List ChildSpec)
      → Acts rt b (spawn_supervisor rt strategy children).1
  cleared : Acts rt true (finish_shutdown rt).1

abbrev pub is_clear : {u : Types} {A : Actors u} → Event A → Bool
is_clear clears = true
is_clear e = false

module _ {u : Types} {ch : Channels (MessageEnvelope u)} {rch : Channels (Any u)} where
  taken_reply-SameActors :
      (rt : Runtime u ch rch) (i : ℕ) (o : Option rch.Chan) → SameActors rt (taken_reply rt i o)
  unfolding taken_reply
  taken_reply-SameActors rt i none = record {
    same_actors = refl;
    same_senders = refl;
    same_actors_poisoned = refl;
    same_senders_poisoned = refl;
  }
  taken_reply-SameActors rt i (some c) = record {
    same_actors = refl;
    same_senders = refl;
    same_actors_poisoned = refl;
    same_senders_poisoned = refl;
  }

module _ {u : Types} {ch : Channels (MessageEnvelope u)} {rch : Channels (Any u)}
    {A : Actors u} where
  abbrev pub ActsWorld : World ch rch A → Bool → World ch rch A → Type 0
  ActsWorld w b w' = Acts w.runtime b w'.runtime

  idle : (w : World ch rch A) (b : Bool) → ActsWorld w b w
  idle w b = nothing (same w w refl refl refl refl)

  spawned_loop-runtime :
      (w : World ch rch A) (k : A.Kind) (s : A.State k)
      (p : Result ActorId RuntimeError × Runtime u ch rch)
      → (spawned_loop w k s p).runtime ≡ p.1
  unfolding spawned_loop
  spawned_loop-runtime w k s (ok id, rt) = refl
  spawned_loop-runtime w k s (err e, rt) = refl

  spawn-Acts :
      (w : World ch rch A) (k : A.Kind) (s : A.State k) → ActsWorld w false (World.spawn w k s)
  unfolding World.spawn
  spawn-Acts w k s =
      if_cases (ActsWorld w false) (is_locked w) (λ _. idle w false)
        (λ _.
          subst (Acts w.runtime false) (sym (spawned_loop-runtime w k s (Runtime.spawn w.runtime)))
            spawned)

  timer_fire-Acts :
      (w : World ch rch A) (target : ActorId) (m : Any u) (o : Option (ℕ × MessageEnvelope u))
      → ActsWorld w false (timer_fire w target m o)
  unfolding timer_fire timer_begins
  timer_fire-Acts w target m none =
      elim (find_sender w.runtime target) as (λ found. ActsWorld w false (timer_begins w m found)) [
        | ok i ↦ idle w false
        | err e ↦ idle w false
      ]
  timer_fire-Acts w target m (some waiting) = idle w false

  timer_sent-Same :
      (w : World ch rch A) (p : Option (Result (Unit {0}) RuntimeError) × World ch rch A)
      → Same w p.1
      → Same w (timer_sent p)
  unfolding timer_sent
  timer_sent-Same w (none, w') h = h
  timer_sent-Same w (some r, w') h = h

  timer_try-Acts :
      (w : World ch rch A) (o : Option (ℕ × MessageEnvelope u)) → ActsWorld w false (timer_try w o)
  unfolding timer_try
  timer_try-Acts w none = idle w false
  timer_try-Acts w (some (i, e)) =
      let o = get_elem? w.runtime.mailboxes i in
      nothing (timer_sent-Same w (try_held w i e o) (try_held-Same w i e o))

  pub step-Acts : (w : World ch rch A) (e : Event A) → ActsWorld w (is_clear e) (step w e)
  unfolding step World.send request_to clear worker_turn begin_shutdown
  step-Acts w (spawns k s) = spawn-Acts w k s
  step-Acts w (supervises strategy children) = supervised strategy children
  step-Acts w (sends_to target m) = nothing (send-SameActors w.runtime target m)
  step-Acts w (tries_blocking target m) = elim (try_blocking-cases w target m) [
    | inl e ↦ subst (ActsWorld w false) (sym e) (idle w false)
    | inr e ↦ subst (ActsWorld w false) (sym e) (nothing (send-SameActors w.runtime target m))
  ]
  step-Acts w (requests_from target m) = nothing (request_from-SameActors w.runtime target m)
  step-Acts w (takes_reply i) =
      nothing (taken_reply-SameActors w.runtime i (get_elem? w.runtime.replies i))
  step-Acts w (works i answer) =
      nothing (worker_act-Same w i answer (get_elem? w.runtime.scheduler.workers i))
  step-Acts w (timer_fires target m) = timer_fire-Acts w target m w.timer_sending
  step-Acts w timer_tries = timer_try-Acts w w.timer_sending
  step-Acts w stops = nothing (same w (step w stops) refl refl refl refl)
  step-Acts w clears = if_cases (ActsWorld w true) (is_locked w) (λ _. idle w true) (λ _. cleared)

module _ {u : Types} {ch : Channels (MessageEnvelope u)} {rch : Channels (Any u)} where
  pub acts-IsCounted :
      {n : ℕ} {b : Bool} {rt rt' : Runtime u ch rch}
      → n < 2 ^ 64 - 1
      → Acts rt b rt'
      → IsCounted n rt
      → IsCounted (suc n) rt'
  acts-IsCounted small (nothing s) c = SameActors-IsCounted s c
  acts-IsCounted {rt = rt} small spawned c = spawn-IsCounted rt small c
  acts-IsCounted {rt = rt} small (supervised strategy children) c =
      spawn_supervisor-IsCounted rt small c strategy children
  acts-IsCounted {rt = rt} small cleared c = finish_shutdown-IsCounted rt small c

  -- The id `k` is in the map of actors with the info `v`, and not in the map of senders.
  pub record IsOrphan (n k : ℕ) (v : ActorInfo) (rt : Runtime u ch rch) : Type 0 where
    pub counted : IsCounted n rt
    pub small_id : k ≤ length rt.actors
    pub named : lookup k rt.actors ≡ some v
    pub unrouted : lookup k rt.senders ≡ none

  module _ {n k : ℕ} {v : ActorInfo} (rt : Runtime u ch rch) (small : n < 2 ^ 64 - 1)
      (o : IsOrphan n k v rt) where
    -- A new entry has another id.
    apart {ℓ} : {X : Type ℓ} (x y : X) → (if (length rt.actors + 1) % 2 ^ 64 == k then x else y) ≡ y
    apart x y =
        if_false {b = (length rt.actors + 1) % 2 ^ 64 == k} _ _
          (ground (arith, raw rt small o.counted, o.small_id))

    inserted_named :
        (name : Option String) → lookup k (insert_info rt (next_id rt) name).actors ≡ some v
    unfolding insert_info next_id ActorId.new
    inserted_named name =
        lookup-insert ((length rt.actors + 1) % 2 ^ 64) k _ rt.actors ∙ apart _ _ ∙ o.named

    spawned_unrouted : lookup k (spawned_runtime rt).senders ≡ none
    unfolding insert_info next_id ActorId.new
    spawned_unrouted =
        lookup-insert ((length rt.actors + 1) % 2 ^ 64) k (length rt.mailboxes) rt.senders
        ∙ apart _ _
        ∙ o.unrouted

    kept_senders :
        (name : Option String) → lookup k (insert_info rt (next_id rt) name).senders ≡ none
    unfolding insert_info
    kept_senders name = o.unrouted

    spawn-IsOrphan : IsOrphan (suc n) k v (Runtime.spawn rt).1
    unfolding insert_info
    spawn-IsOrphan =
        let done = ap (λ p. p.1) (spawn_ok rt o.counted) in
        let longer = length-insert_info rt small o.counted none in
        record {
          counted = spawn-IsCounted rt small o.counted;
          small_id = rw done (omega (arith, o.small_id, longer));
          named = rw done (inserted_named none);
          unrouted = rw done spawned_unrouted;
        }

    supervised-IsOrphan :
        (strategy : RestartStrategy) (children : List ChildSpec)
        → IsOrphan (suc n) k v (spawn_supervisor rt strategy children).1
    unfolding spawn_supervisor finish_supervisor
    supervised-IsOrphan strategy children =
        let name : Option String = some "supervisor" in
        let done : (spawn_supervisor rt strategy children).1 ≡ insert_info rt (next_id rt) name =
          ap (λ (p : Result ActorId RuntimeError × Runtime u ch rch). p.1)
            (if_false _ _ o.counted.actors_ok ∙ if_false _ _ o.counted.actors_ok) in
        let longer = length-insert_info rt small o.counted name in
        record {
          counted = spawn_supervisor-IsCounted rt small o.counted strategy children;
          small_id =
              subst (λ rt'. k ≤ length rt'.actors) (sym done) (omega (arith, o.small_id, longer));
          named = subst (λ rt'. lookup k rt'.actors ≡ some v) (sym done) (inserted_named name);
          unrouted = subst (λ rt'. lookup k rt'.senders ≡ none) (sym done) (kept_senders name);
        }

  pub acts-IsOrphan :
      {n k : ℕ} {v : ActorInfo} {b : Bool} {rt rt' : Runtime u ch rch}
      → n < 2 ^ 64 - 1
      → b ≡ false
      → Acts rt b rt'
      → IsOrphan n k v rt
      → IsOrphan (suc n) k v rt'
  acts-IsOrphan {k = k} small e (nothing s) o = record {
    counted = SameActors-IsCounted s o.counted;
    small_id = rw s.same_actors o.small_id;
    named = ap (lookup k) s.same_actors ∙ o.named;
    unrouted = ap (lookup k) s.same_senders ∙ o.unrouted;
  }
  acts-IsOrphan {rt = rt} small e spawned o = spawn-IsOrphan rt small o
  acts-IsOrphan {rt = rt} small e (supervised strategy children) o =
      supervised-IsOrphan rt small o strategy children
  acts-IsOrphan small e cleared o = absurd (cc)
