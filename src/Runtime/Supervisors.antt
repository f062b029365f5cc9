-- ===== src/Runtime/Supervisors.antt =====
-- src/runtime.rs: `spawn_supervisor`, and the id that it takes.
use runact.Prelude.{if_false, ◌∙◌, ◌-◌, ℕ, ◌+◌, ◌<◌, ◌^◌, ◌≡◌, ap, false, some, List, length}
use runact.Any.{Types, Any}
use runact.Channel.{Channels}
use runact.Actor.ActorId.{ActorId}
use runact.Actor.ActorId
use runact.Actor.Error.{ok}
use runact.Supervision.Strategy.{RestartStrategy, ChildSpec}
use runact.Runtime.{
  spawn_supervisor, MessageEnvelope, Runtime, next_id, insert_info, finish_supervisor,
}
use runact.Runtime.Counted.{IsCounted}
use runact.Runtime.Reached.{raw}

module _ {u : Types} {ch : Channels (MessageEnvelope u)} {rch : Channels (Any u)} where
  finish_supervisor_ok :
      (rt : Runtime u ch rch) (id : ActorId) (s : RestartStrategy) (cs : List ChildSpec)
      → rt.actors_poisoned ≡ false
      → finish_supervisor rt id s cs ≡ (ok id, insert_info rt id (some "supervisor"))
  unfolding finish_supervisor
  finish_supervisor_ok rt id s cs h = if_false _ _ h

  module _ {n : ℕ} (rt : Runtime u ch rch) (c : IsCounted n rt) (small : n < 2 ^ 64 - 1) where
    abbrev pub new_id : ActorId
    new_id = ActorId.new (length rt.actors + 1)

    -- The next id is the number of entries and one, and the call inserts its info there.
    pub spawn_supervisor_ok :
        (s : RestartStrategy) (cs : List ChildSpec)
        → spawn_supervisor rt s cs ≡ (ok new_id, insert_info rt new_id (some "supervisor"))
    unfolding spawn_supervisor next_id
    spawn_supervisor_ok s cs =
        if_false _ _ c.actors_ok
        ∙ finish_supervisor_ok rt (next_id rt) s cs c.actors_ok
        ∙ ap (λ id. (ok id, insert_info rt id (some "supervisor")))
            (ap ActorId.new (raw rt small c))
