-- ===== src/Runtime/World/Supervisors.antt =====
-- src/runtime.rs: what becomes of the id that `spawn_supervisor` gives, whatever happens later.
use runact.Prelude.{
  ℕ, suc, ◌+◌, ◌-◌, ◌^◌, ◌<◌, ◌≡◌, ◌∙◌, refl, ap, subst, true, false, Option, none, some, List, [],
  ◌∷◌, length, All, if_false, if_true, ==_self, arith,
}
use runact.Prelude.HashMap.{lookup, lookup-insert, length-insert_new}
use runact.Any.{Types, Any}
use runact.Channel.{Channels}
use runact.Actor.ActorId.{ActorId}
use runact.Actor.ActorId
use runact.Actor.Error.{actor_not_found, ok, err}
use runact.Actor.Context.{ActorContext}
use runact.Supervision.Strategy.{RestartStrategy, ChildSpec}
use runact.Runtime.{
  request, message, MessageEnvelope, ActorInfo, Runtime, RuntimeConfig, with_config, insert_info,
  inspect_actor, find_sender, found_sender, send, request_from, requested, send_blocking,
  blocking_send_to, returned, try_send_to, spawn_supervisor,
}
use runact.Runtime.Counted.{IsNumbered, IsCounted}
use runact.Runtime.Reached.{spawn_supervisor-IsCounted}
use runact.Runtime.Supervisors.{spawn_supervisor_ok}
use runact.Runtime.World.{Actors, World}
use runact.Runtime.World.Steps.{context_sender}
use runact.Runtime.World.Events.{
  Event, supervises, timer_fires, new, timer_begins, timer_fire, step, run,
}
use runact.Runtime.Supervisors.{spawn_supervisor_ok}
use runact.Runtime.Routing.{requesting}
use runact.Runtime.World.Orphans.{is_clear, step-Acts, IsOrphan, acts-IsCounted, acts-IsOrphan}

module _ {u : Types} {ch : Channels (MessageEnvelope u)} {rch : Channels (Any u)}
    {A : Actors u} where
  run-IsCounted_world :
      {n : ℕ} (w : World ch rch A) (es : List (Event A))
      → n + length es < 2 ^ 64
      → IsCounted n w.runtime
      → IsCounted (n + length es) (run w es).runtime
  unfolding run
  run-IsCounted_world {n = n} w [] small c =
      let more : n ≡ n + 0 = omega arith in subst (λ m. IsCounted m w.runtime) more c
  run-IsCounted_world {n = n} w (e ∷ es) small c =
      subst (λ m. IsCounted m (run (step w e) es).runtime) (omega arith)
        (run-IsCounted_world (step w e) es (omega (arith, small))
          (acts-IsCounted (omega (arith, small)) (step-Acts w e) c))

  run-IsOrphan :
      {n k : ℕ} {v : ActorInfo} (w : World ch rch A) (es : List (Event A))
      → n + length es < 2 ^ 64
      → All (λ e. is_clear e ≡ false) es
      → IsOrphan n k v w.runtime
      → (m : ℕ) × IsOrphan m k v (run w es).runtime
  unfolding run
  run-IsOrphan {n = n} w [] small kept o = (n, o)
  run-IsOrphan {n = n} w (e ∷ es) small kept o =
      run-IsOrphan (step w e) es (omega (arith, small)) kept.1
        (acts-IsOrphan (omega (arith, small)) kept.0 (step-Acts w e) o)

abbrev supervisor_info : ActorId → ActorInfo
supervisor_info id = record { id = id; name = some "supervisor"; mailbox_depth = 0 }

module _ {u : Types} {ch : Channels (MessageEnvelope u)} {rch : Channels (Any u)} where
  spawn_supervisor-IsOrphan :
      {n : ℕ} (rt : Runtime u ch rch) (strategy : RestartStrategy) (children : List ChildSpec)
      → n < 2 ^ 64 - 1
      → IsCounted n rt
      → let id = ActorId.new (length rt.actors + 1) in
        IsOrphan (suc n) id.raw (supervisor_info id) (spawn_supervisor rt strategy children).1
  unfolding insert_info ActorId.new IsNumbered
  spawn_supervisor-IsOrphan rt strategy children small c =
      let done = ap (λ p. p.1) (spawn_supervisor_ok rt c small strategy children) in
      let id = length rt.actors + 1 in
      let fresh = c.numbered id (omega arith) in
      let info = supervisor_info (record { raw = id }) in
      record {
        counted = spawn_supervisor-IsCounted rt small c strategy children;
        small_id = rw done (omega (arith, length-insert_new id info rt.actors fresh));
        named = rw done (lookup-insert id id info rt.actors ∙ if_true _ _ (==_self id));
        unrouted = rw done (c.routed id (omega arith));
      }

  -- Every way to send to the id `id` begins with this lookup.
  orphan_lookup :
      {n : ℕ} {v : ActorInfo} (rt : Runtime u ch rch) (id : ActorId)
      → IsOrphan n id.raw v rt
      → find_sender rt id ≡ err (actor_not_found id)
  unfolding find_sender found_sender
  orphan_lookup rt id o = if_false _ _ o.counted.senders_ok ∙ ap (found_sender id) o.unrouted

  start-IsCounted :
      (num_workers : ℕ) (config : RuntimeConfig)
      → IsCounted {ch = ch} {rch = rch} 0 (with_config num_workers config)
  unfolding with_config IsNumbered lookup
  start-IsCounted num_workers config = record {
    numbered = λ k above. refl;
    routed = λ k above. refl;
    bounded = omega arith;
    actors_ok = refl;
    senders_ok = refl;
  }

module _ {u : Types} {ch : Channels (MessageEnvelope u)} {rch : Channels (Any u)}
    {A : Actors u} where
  -- What a world says about the id `id`: it is in the list of actors, and whoever sends to it, is told
  -- that there is no such actor.
  pub record IsUnreachable (w : World ch rch A) (id : ActorId) : Type 0 where
    pub listed : inspect_actor w.runtime id ≡ ok (some (supervisor_info id))
    pub sending : (m : Any u) → send w.runtime id m ≡ (err (actor_not_found id), w.runtime)
    pub requesting : (m : Any u) → (request_from w.runtime id m).0 ≡ err (actor_not_found id)
    pub blocking :
        (m : Any u) → send_blocking w.runtime id m ≡ returned (err (actor_not_found id)) w.runtime
    pub from_handlers :
        (ctx : ActorContext)
        → ctx.senders ≡ true
        → context_sender w ctx id ≡ err (actor_not_found id)
    pub from_timers : (m : Any u) → step w (timer_fires id m) ≡ w

  timer_fire_lost :
      (w : World ch rch A) (id : ActorId) (m : Any u) (o : Option (ℕ × MessageEnvelope u))
      → find_sender w.runtime id ≡ err (actor_not_found id)
      → timer_fire w id m o ≡ w
  unfolding timer_fire timer_begins
  timer_fire_lost w id m none missing = ap (timer_begins w m) missing
  timer_fire_lost w id m (some waiting) missing = refl

  orphan-IsUnreachable :
      {n : ℕ} (w : World ch rch A) (id : ActorId)
      → IsOrphan n id.raw (supervisor_info id) w.runtime
      → IsUnreachable w id
  unfolding inspect_actor send request_from requested try_send_to send_blocking blocking_send_to
      context_sender step find_sender
  orphan-IsUnreachable w id o =
      let rt = w.runtime in
      let missing = orphan_lookup rt id o in
      record {
        listed = if_false _ _ o.counted.actors_ok ∙ ap ok o.named;
        sending = λ m. ap (try_send_to rt id (message m)) missing;
        requesting = λ m.
            ap
              (λ found.
                (requested rt.request_counter (length rt.replies) (
                  try_send_to (requesting rt) id (request rt.request_counter m (length rt.replies))
                    found)).0)
              missing;
        blocking = λ m. ap (blocking_send_to rt (message m)) missing;
        from_handlers = λ ctx holds. if_true _ _ holds ∙ missing;
        from_timers = λ m. timer_fire_lost w id m w.timer_sending missing;
      }

-- From a new runtime, in every interleaving, of fewer than 2 ^ 64 - 1 events in all: `spawn_supervisor`
-- succeeds with the id that follows the number of entries, and from then on, whatever happens up to the
-- end of a `shutdown`, this id is in the list of actors, and every message to it is refused as
-- `actor_not_found` or dropped: by `send`, `request`, `send_blocking`, `send_to` in a handler, and the
-- timer thread. A supervisor never gets a mailbox.
pub send-spawn_supervisor :
    {u : Types} (ch : Channels (MessageEnvelope u)) (rch : Channels (Any u)) (A : Actors u)
    (num_workers : ℕ) (config : RuntimeConfig) (before after : List (Event A))
    (strategy : RestartStrategy) (children : List ChildSpec)
    → length before + 1 + length after < 2 ^ 64
    → All (λ e. is_clear e ≡ false) after
    → let w = run (new {ch = ch} {rch = rch} num_workers config) before in
      let id = ActorId.new (length w.runtime.actors + 1) in
      ((spawn_supervisor w.runtime strategy children).0 ≡ ok id)
      × IsUnreachable (run (step w (supervises strategy children)) after) id
unfolding new step
send-spawn_supervisor ch rch A num_workers config before after strategy children small kept =
    let w = run (new {ch = ch} {rch = rch} {A = A} num_workers config) before in
    let counted =
      run-IsCounted_world (new {ch = ch} {rch = rch} {A = A} num_workers config) before
        (omega (arith, small)) (start-IsCounted num_workers config) in
    let few : 0 + length before < 2 ^ 64 - 1 = omega (arith, small) in
    let orphan = spawn_supervisor-IsOrphan w.runtime strategy children few counted in
    let (n, later) =
      run-IsOrphan (step w (supervises strategy children)) after (omega (arith, small)) kept
        orphan in
    (
      ap (λ p. p.0) (spawn_supervisor_ok w.runtime counted few strategy children),
      orphan-IsUnreachable _ _ later,
    )
