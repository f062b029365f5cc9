-- ===== src/CounterExample/Program.antt =====
-- examples/counter.rs: `main`.
use runact.Prelude.{ℕ, ◌≡◌, refl, true, Option, none, some, List, length}
use runact.Any.{Types, Any}
use runact.Channel.{Channels}
use runact.Channel.Unbounded.{Unbounded}
use runact.Actor.ActorId.{ActorId}
use runact.Actor.ActorId
use runact.Actor.Error.{RuntimeError, Result, ok, err}
use runact.Compute.Tasks.{Task, ComputeResult}
use runact.Scheduler.WorkStealing.{request_stop}
use runact.Prelude.HashMap.{insert}
use runact.Runtime.{MessageEnvelope, ActorInfo, default_config, list_actors}
use runact.Runtime.System.{System, with_config, spawn, shutdown}

infixl 5 ◌>>=◌
abbrev ◌>>=◌ {ℓ κ} : {A : Type ℓ} {B : Type κ} → Option A → (A → Option B) → Option B
none >>= f = none
some a >>= f = f a

unfoldable pub expect {ℓ} : {X : Type ℓ} → Result X RuntimeError → Option X
expect (ok x) = some x
expect (err e) = none

-- What `main` has seen and done when it returns.
pub record Report (S : Type 0) : Type 0 where
  pub actor1 : ActorId
  pub actor2 : ActorId
  pub active : List ActorInfo
  pub final : S

module _ {u : Types} {ch : Channels (MessageEnvelope u)} {rch : Channels (Any u)}
    {q : Unbounded (Task u)} {cch : Channels (ComputeResult u)} where
  unfoldable pub main :
      (num_workers max_workers timer_ids latest : ℕ) → Option (Report (System u ch rch q cch))
  unfolding with_config spawn shutdown list_actors expect
  main num_workers max_workers timer_ids latest =
      let (spawned1, s1) =
        spawn (with_config num_workers max_workers timer_ids latest default_config) in
      let (spawned2, s2) = spawn s1 in
      let (stopped, s3) = shutdown s2 in
      do
        ctx1 ← expect spawned1
        ctx2 ← expect spawned2
        active ← expect (list_actors s2.runtime)
        done ← expect stopped
        some
            (record { actor1 = ctx1.actor_id; actor2 = ctx2.actor_id; active = active; final = s3 })

-- Whatever the numbers of workers: none of the `expect`s of `main` panics; the two actors get the
-- ids 1 and 2, both are listed, and at the end the timers and both pools are stopped.
main-returns :
    {u : Types} (ch : Channels (MessageEnvelope u)) (rch : Channels (Any u))
    (q : Unbounded (Task u)) (cch : Channels (ComputeResult u))
    (num_workers max_workers timer_ids latest : ℕ)
    → (r : Report (System u ch rch q cch)) × (main num_workers max_workers timer_ids latest
        ≡ some r)
      × (r.actor1 ≡ ActorId.new 1)
      × (r.actor2 ≡ ActorId.new 2)
      × (length r.active ≡ 2)
      × (r.final.timers.service.stop ≡ true)
      × (r.final.compute.stop ≡ true)
      × (r.final.runtime.scheduler.stop ≡ true)
unfolding main insert ActorId.new request_stop
main-returns ch rch q cch num_workers max_workers timer_ids latest =
    (_, refl, refl, refl, refl, refl, refl, refl)
