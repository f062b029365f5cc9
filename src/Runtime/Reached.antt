-- ===== src/Runtime/Reached.antt =====
-- src/runtime.rs: every reached runtime counts its actors.
use Prim.Native.String.{String}
use runact.Prelude.{
  ◌==◌, subst, if_false, sym, ◌∙◌, ◌++◌, ◌-◌, Option, get_elem?, ℕ, suc, ◌+◌, ◌<◌, ◌%◌, ◌^◌, ◌≡◌,
  refl, none, some, List, [], ◌∷◌, length, arith,
}
use runact.Prelude.HashMap.{lookup, insert, lookup-insert}
use runact.Any.{Types, Any}
use runact.Channel.{Channels}
use runact.Actor.ActorId.{ActorId}
use runact.Actor.ActorId
use runact.Actor.Error.{RuntimeError, Result, ok}
use runact.Scheduler.WorkStealing
use runact.Supervision.Strategy.{RestartStrategy, ChildSpec}
use runact.Runtime.{
  RuntimeConfig, with_config, MessageEnvelope, Runtime, next_id, insert_info, open_mailbox, spawn,
  spawn_supervisor, finish_supervisor, begin_shutdown, finish_shutdown,
}
use runact.Runtime.Events.{
  Event, spawned, supervised, sent_to, requested_from, received, ended, stopping, shut_down, step,
  run,
}
use runact.Runtime.Counted.{
  IsNumbered, IsCounted, insert-IsNumbered, length-insert_fresh, SameActors-IsCounted,
  send-SameActors, request_from-SameActors, on_mailbox-SameActors,
}

module _ {u : Types} {ch : Channels (MessageEnvelope u)} {rch : Channels (Any u)} where
  -- What `spawn` leaves when no lock is poisoned.
  abbrev pub spawned_runtime : Runtime u ch rch → Runtime u ch rch
  spawned_runtime rt = record (insert_info rt (next_id rt) none) {
    mailboxes = rt.mailboxes ++ ch.bounded rt.mailbox_capacity ∷ [];
    senders = insert (next_id rt).raw (length rt.mailboxes) rt.senders;
    scheduler =
        WorkStealing.spawn rt.scheduler (record { id = next_id rt; mailbox = length rt.mailboxes });
  }

  pub spawn_ok :
      {n : ℕ} (rt : Runtime u ch rch)
      → IsCounted n rt
      → spawn rt ≡ (ok (next_id rt), spawned_runtime rt)
  unfolding spawn open_mailbox insert_info
  spawn_ok rt c = if_false _ _ c.actors_ok ∙ if_false _ _ c.senders_ok

  module _ {n : ℕ} (rt : Runtime u ch rch) (small : n < 2 ^ 64 - 1) (c : IsCounted n rt) where
    pub raw : (length rt.actors + 1) % 2 ^ 64 ≡ length rt.actors + 1
    raw = omega (arith, c.bounded, small)

    pub length-insert_info :
        (name : Option String)
        → length (insert_info rt (next_id rt) name).actors ≡ suc (length rt.actors)
    unfolding insert_info next_id ActorId.new
    length-insert_info name =
        length-insert_fresh rt.actors ((length rt.actors + 1) % 2 ^ 64)
          (record { id = next_id rt; name = name; mailbox_depth = 0 }) raw c.numbered

    insert_info-IsCounted :
        (name : Option String) → IsCounted (suc n) (insert_info rt (next_id rt) name)
    unfolding insert_info next_id ActorId.new
    insert_info-IsCounted name = record {
      numbered =
          insert-IsNumbered rt.actors ((length rt.actors + 1) % 2 ^ 64)
            (record { id = next_id rt; name = name; mailbox_depth = 0 }) raw c.numbered;
      routed = λ k above. c.routed k (omega (arith, above, length-insert_info name));
      bounded = omega (arith, c.bounded, length-insert_info name);
      actors_ok = c.actors_ok;
      senders_ok = c.senders_ok;
    }

    spawned_routed :
        (k : ℕ)
        → length (spawned_runtime rt).actors < k
        → lookup k (spawned_runtime rt).senders ≡ none
    unfolding insert_info next_id ActorId.new
    spawned_routed k above =
        lookup-insert ((length rt.actors + 1) % 2 ^ 64) k (length rt.mailboxes) rt.senders
        ∙ if_false {b = (length rt.actors + 1) % 2 ^ 64 == k} _ _
            (ground (arith, raw, above, length-insert_info none))
        ∙ c.routed k (omega (arith, above, length-insert_info none))

    pub spawn-IsCounted : IsCounted (suc n) (spawn rt).1
    unfolding insert_info
    spawn-IsCounted =
        subst (λ p. IsCounted (suc n) p.1) (sym (spawn_ok rt c))
          (record {
            numbered = (insert_info-IsCounted none).numbered;
            routed = spawned_routed;
            bounded = (insert_info-IsCounted none).bounded;
            actors_ok = c.actors_ok;
            senders_ok = c.senders_ok;
          })

    pub spawn_supervisor-IsCounted :
        (strategy : RestartStrategy) (children : List ChildSpec)
        → IsCounted (suc n) (spawn_supervisor rt strategy children).1
    unfolding spawn_supervisor finish_supervisor
    spawn_supervisor-IsCounted strategy children =
        let name = some "supervisor" in
        subst (λ (p : Result _ RuntimeError × Runtime u ch rch). IsCounted (suc n) p.1)
          (sym (if_false _ _ c.actors_ok ∙ if_false _ _ c.actors_ok)) (insert_info-IsCounted name)

    pub finish_shutdown-IsCounted : IsCounted (suc n) (finish_shutdown rt).1
    unfolding finish_shutdown IsNumbered lookup
    finish_shutdown-IsCounted =
        subst (λ (p : Result _ RuntimeError × Runtime u ch rch). IsCounted (suc n) p.1)
          (sym (if_false _ _ c.senders_ok ∙ if_false _ _ c.actors_ok))
          (record {
            numbered = λ k above. refl;
            routed = λ k above. refl;
            bounded = omega arith;
            actors_ok = c.actors_ok;
            senders_ok = c.senders_ok;
          })

    step-IsCounted : (e : Event u) → IsCounted (suc n) (step rt e)
    unfolding step begin_shutdown
    step-IsCounted spawned = spawn-IsCounted
    step-IsCounted (supervised strategy children) = spawn_supervisor-IsCounted strategy children
    step-IsCounted (sent_to target m) = SameActors-IsCounted (send-SameActors rt target m) c
    step-IsCounted (requested_from target m) =
        SameActors-IsCounted (request_from-SameActors rt target m) c
    step-IsCounted (received i) =
        SameActors-IsCounted
          (on_mailbox-SameActors rt (λ x. (ch.try_recv x).1) i (get_elem? rt.mailboxes i)) c
    step-IsCounted (ended i) =
        SameActors-IsCounted
          (on_mailbox-SameActors rt ch.drop_receiver i (get_elem? rt.mailboxes i)) c
    step-IsCounted stopping = record {
      numbered = c.numbered;
      routed = c.routed;
      bounded = omega (arith, c.bounded);
      actors_ok = c.actors_ok;
      senders_ok = c.senders_ok;
    }
    step-IsCounted shut_down = finish_shutdown-IsCounted

  pub run-IsCounted :
      {n : ℕ} (rt : Runtime u ch rch) (es : List (Event u))
      → n + length es < 2 ^ 64
      → IsCounted n rt
      → IsCounted (n + length es) (run rt es)
  unfolding run
  run-IsCounted rt [] small c = record {
    numbered = c.numbered;
    routed = c.routed;
    bounded = omega (arith, c.bounded);
    actors_ok = c.actors_ok;
    senders_ok = c.senders_ok;
  }
  run-IsCounted {n = n} rt (e ∷ es) small c =
      subst (λ k. IsCounted k (run (step rt e) es)) (omega arith)
        (run-IsCounted (step rt e) es (omega (arith, small))
          (step-IsCounted rt (omega (arith, small)) c e))

  pub reached-IsCounted :
      (num_workers : ℕ) (config : RuntimeConfig) (es : List (Event u))
      → length es < 2 ^ 64
      → IsCounted {ch = ch} {rch = rch} (length es) (run (with_config num_workers config) es)
  unfolding with_config IsNumbered lookup
  reached-IsCounted num_workers config es small =
      let start : IsCounted {ch = ch} {rch = rch} 0 (with_config num_workers config) = record {
        numbered = λ k above. refl;
        routed = λ k above. refl;
        bounded = omega arith;
        actors_ok = refl;
        senders_ok = refl;
      } in
      let plus : 0 + length es ≡ length es = omega arith in
      subst (λ k. IsCounted k (run (with_config {ch = ch} {rch = rch} num_workers config) es)) plus
        (run-IsCounted (with_config num_workers config) es (omega (arith, small)) start)
