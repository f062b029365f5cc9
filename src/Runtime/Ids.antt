-- ===== src/Runtime/Ids.antt =====
-- src/runtime.rs: the ids that `spawn` and `spawn_supervisor` give out.
use runact.Prelude.{
  true, ==_self, if_true, subst, if_false, sym, ◌∙◌, ◌-◌, ℕ, ◌+◌, ◌<◌, ◌^◌, ◌≡◌, refl, ap, false,
  none, some, List, [], length, arith, if◌then◌else◌, ◌==◌, ◌≢◌,
}
use runact.Prelude.HashMap.{lookup, insert, lookup-insert}
use runact.Any.{Types, Any}
use runact.Channel.{Channels}
use runact.Actor.ActorId.{ActorId}
use runact.Actor.ActorId
use runact.Actor.Error.{RuntimeError, Result, ok}
use runact.Scheduler.WorkStealing
use runact.Runtime.{
  inspect_actor, MessageEnvelope, Runtime, with_config, RuntimeConfig, next_id, insert_info,
  open_mailbox, spawn, begin_shutdown, finish_shutdown,
}
use runact.Runtime.Counted.{IsNumbered, IsCounted}
use runact.Runtime.Reached.{reached-IsCounted, spawned_runtime, spawn_ok, spawn-IsCounted, raw}
use runact.Runtime.Events.{Event, run}

module _ {u : Types} {ch : Channels (MessageEnvelope u)} {rch : Channels (Any u)} {n : ℕ}
    (rt : Runtime u ch rch) (c : IsCounted n rt) (small : n < 2 ^ 64 - 1) where
  abbrev new_id : ActorId
  new_id = ActorId.new (length rt.actors + 1)

  next_id-new : next_id rt ≡ new_id
  unfolding next_id
  next_id-new = ap ActorId.new (raw rt small c)

  spawned_runtime-actors :
      (spawned_runtime rt).actors
      ≡ insert new_id.raw (record { id = new_id; name = none; mailbox_depth = 0 }) rt.actors
  unfolding insert_info
  spawned_runtime-actors = rw next_id-new refl

  spawned_actors :
      (k : ℕ)
      → lookup k (spawn rt).1.actors ≡ (
          if new_id.raw == k
          then some (record { id = new_id; name = none; mailbox_depth = 0 })
          else lookup k rt.actors)
  spawned_actors k =
      ap (λ (p : Result ActorId RuntimeError × Runtime u ch rch). lookup k p.1.actors)
        (spawn_ok rt c)
      ∙ ap (lookup k) spawned_runtime-actors
      ∙ lookup-insert new_id.raw k _ rt.actors

  spawn-new :
      ((spawn rt).0 ≡ ok new_id)
      × (lookup new_id.raw rt.actors ≡ none)
      × (inspect_actor (spawn rt).1 new_id
          ≡ ok (some (record { id = new_id; name = none; mailbox_depth = 0 })))
      × ((k : ℕ) → k ≢ new_id.raw → lookup k (spawn rt).1.actors ≡ lookup k rt.actors)
  unfolding inspect_actor IsNumbered ActorId.new insert_info
  spawn-new = (
    ap (λ p. p.0) (spawn_ok rt c) ∙ ap ok next_id-new,
    c.numbered (length rt.actors + 1) (omega arith),
    if_false _ _ (spawn-IsCounted rt small c).actors_ok
        ∙ ap ok (spawned_actors new_id.raw ∙ if_true _ _ (==_self new_id.raw)),
    λ k ne. spawned_actors k ∙ if_false {b = new_id.raw == k} _ _ (ground (arith, ne)),
  )

-- From a new runtime, after any sequence of fewer than 2 ^ 64 - 1 events (calls of its methods in any
-- order, actor loops that receive or end, shutdowns), `spawn` succeeds: it returns the number of
-- entries plus one, an id that no actor or supervisor in the map has, so no entry is overwritten;
-- afterwards `inspect_actor` finds the new actor under that id, and every other entry is as before.
pub spawn-fresh :
    {u : Types} (ch : Channels (MessageEnvelope u)) (rch : Channels (Any u)) (num_workers : ℕ)
    (config : RuntimeConfig) (es : List (Event u)) (rt : Runtime u ch rch)
    → length es < 2 ^ 64 - 1
    → rt ≡ run (with_config num_workers config) es
    → let id = ActorId.new (length rt.actors + 1) in
      ((spawn rt).0 ≡ ok id)
      × (lookup id.raw rt.actors ≡ none)
      × (inspect_actor (spawn rt).1 id
          ≡ ok (some (record { id = id; name = none; mailbox_depth = 0 })))
      × ((k : ℕ) → k ≢ id.raw → lookup k (spawn rt).1.actors ≡ lookup k rt.actors)
unfolding with_config IsNumbered lookup
spawn-fresh ch rch num_workers config es rt small e =
    spawn-new rt
      (subst (IsCounted (length es)) (sym e)
        (reached-IsCounted num_workers config es (omega (arith, small))))
      small

module _ {u : Types} {ch : Channels (MessageEnvelope u)} {rch : Channels (Any u)} where
  after_shutdown : Runtime u ch rch → Runtime u ch rch
  after_shutdown rt = record (begin_shutdown rt) {
    senders = [];
    actors = [];
    scheduler = WorkStealing.request_stop rt.scheduler;
  }

  finish_shutdown_ok :
      (rt : Runtime u ch rch)
      → rt.actors_poisoned ≡ false
      → rt.senders_poisoned ≡ false
      → finish_shutdown (begin_shutdown rt) ≡ (ok tt, after_shutdown rt)
  unfolding finish_shutdown begin_shutdown after_shutdown
  finish_shutdown_ok rt h h' = if_false _ _ h' ∙ if_false _ _ h

  -- The first id after a shutdown (no lock poisoned) is 1, whichever ids were given out before, and
  -- `spawn` returns it although the scheduler was told to stop.
  pub spawn-shutdown :
      (rt : Runtime u ch rch)
      → rt.actors_poisoned ≡ false
      → rt.senders_poisoned ≡ false
      → let down = finish_shutdown (begin_shutdown rt) in
        (down.0 ≡ ok tt) × (down.1.scheduler.stop ≡ true) × ((spawn down.1).0 ≡ ok (ActorId.new 1))
  unfolding spawn open_mailbox next_id insert_info WorkStealing.request_stop after_shutdown
      begin_shutdown
  spawn-shutdown rt h h' =
      let down = finish_shutdown_ok rt h h' in
      (
        ap (λ p. p.0) down,
        ap (λ p. p.1.scheduler.stop) down,
        ap (λ p. (spawn p.1).0) down
            ∙ ap (λ (p : Result ActorId RuntimeError × Runtime u ch rch). p.0)
                (if_false _ _ h ∙ if_false _ _ h'),
      )
