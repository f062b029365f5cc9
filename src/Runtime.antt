-- ===== src/Runtime.antt =====
-- src/runtime.rs: the coordinator that spawns actors and routes messages. Channels of
-- `crossbeam_channel` are a parameter; a mailbox and a reply channel are addresses into the stores
-- `mailboxes` and `replies`, since senders are cloned and shared. The `RwLock`s are held for one
-- access; a poisoned one is an error, as in the source. `spawn` and `shutdown` take `&mut self`, so
-- no other call of the runtime comes between their accesses; the other methods are one access to a
-- map, and one to a channel. `TimerService` and `ComputeScheduler` are models of their own,
-- which Runtime/System joins.
pub mod Events
pub mod Counted
pub mod Reached
pub mod Ids
pub mod Routing
pub mod Supervisors
pub mod ActorLoop
pub mod Requests
pub mod Replies
pub mod Answered
pub mod System
pub mod World
pub mod Tests
use Prim.Native.String.{String}
use runact.Prelude.{
  ◌*◌, ℕ, ◌+◌, ◌%◌, ◌^◌, Bool, true, false, Option, none, some, List, [], ◌∷◌, ◌++◌, map, length,
  get_elem?, set, if◌then◌else◌,
}
use runact.Prelude.HashMap.{HashMap, lookup, insert}
use runact.Any.{Types, Any}
use runact.Channel.{Sent, sent, full, disconnected, Channels}
use runact.Actor.ActorId.{ActorId}
use runact.Actor.ActorId
use runact.Actor.Error.{
  RuntimeError, actor_not_found, mailbox_full, runtime_stopped, Result, ok, err,
}
use runact.Scheduler.WorkStealing.{Scheduler, request_stop}
use runact.Scheduler.WorkStealing
use runact.Supervision.Strategy.{RestartStrategy, ChildSpec}
use runact.Supervision.Supervisor.{Supervisor}
use runact.Supervision.Supervisor

pub data MessageEnvelope (u : Types) : Type 0 where
  message : Any u → MessageEnvelope u
  request : (request_id : ℕ) (payload : Any u) (reply_sender : ℕ) → MessageEnvelope u

pub record RequestHandle : Type 0 where
  pub id : ℕ
  pub receiver : ℕ  -- the address of the reply channel

pub record ActorInfo : Type 0 where
  pub id : ActorId
  pub name : Option String
  pub mailbox_depth : ℕ

-- The task that `spawn` hands to the scheduler: the loop of this actor over this mailbox.
pub record ActorTask : Type 0 where
  pub id : ActorId
  pub mailbox : ℕ

pub record RuntimeConfig : Type 0 where
  pub mailbox_capacity : ℕ
  pub shutdown_timeout : ℕ

-- `RuntimeConfig::default`; durations are nanoseconds.
abbrev pub default_config : RuntimeConfig
default_config = record { mailbox_capacity = 1000; shutdown_timeout = 5 * 10 ^ 9 }

pub record RuntimeStats : Type 0 where
  pub actor_count : ℕ
  pub request_count : ℕ

pub record Runtime (u : Types) (ch : Channels (MessageEnvelope u)) (rch : Channels (Any u))
    : Type 0 where
  pub scheduler : Scheduler ActorTask
  pub actors : HashMap ActorInfo
  pub actors_poisoned : Bool
  pub senders : HashMap ℕ  -- the addresses of mailboxes
  pub senders_poisoned : Bool
  pub request_counter : ℕ
  pub stop : Bool
  pub mailbox_capacity : ℕ
  pub shutdown_timeout : ℕ
  pub mailboxes : List ch.Chan
  pub replies : List rch.Chan

-- What a call that may block has done when it gives the processor up.
pub data Blocking (u : Types) (ch : Channels (MessageEnvelope u)) (rch : Channels (Any u))
    : Type 0 where
  returned : Result (Unit {0}) RuntimeError → Runtime u ch rch → Blocking u ch rch
  waits : Blocking u ch rch

-- `self.senders.read()?.get(&target).ok_or(ActorNotFound(target))`
unfoldable pub found_sender : ActorId → Option ℕ → Result ℕ RuntimeError
found_sender target none = err (actor_not_found target)
found_sender target (some mailbox) = ok mailbox

unfoldable pub add_children : Supervisor → List ChildSpec → Supervisor
add_children s [] = s
add_children s (c ∷ cs) = add_children (Supervisor.child s c) cs

-- The supervisor that `spawn_supervisor` builds before it inserts the info.
unfoldable pub built_supervisor : ActorId → RestartStrategy → List ChildSpec → Supervisor
unfolding add_children
built_supervisor id strategy children = add_children (Supervisor.new id strategy) children

module _ {u : Types} {ch : Channels (MessageEnvelope u)} {rch : Channels (Any u)} where
  unfoldable pub with_config : (num_workers : ℕ) → RuntimeConfig → Runtime u ch rch
  unfolding WorkStealing.new
  with_config num_workers config = record {
    scheduler = WorkStealing.new num_workers;
    actors = [];
    actors_poisoned = false;
    senders = [];
    senders_poisoned = false;
    request_counter = 0;
    stop = false;
    mailbox_capacity = config.mailbox_capacity;
    shutdown_timeout = config.shutdown_timeout;
    mailboxes = [];
    replies = [];
  }

  -- `ActorId::new(self.actors.read()?.len() as u64 + 1)`
  unfoldable pub next_id : Runtime u ch rch → ActorId
  unfolding ActorId.new
  next_id rt = ActorId.new ((length rt.actors + 1) % 2 ^ 64)

  unfoldable pub insert_info : Runtime u ch rch → ActorId → Option String → Runtime u ch rch
  insert_info rt id name = record rt {
    actors = insert id.raw (record { id = id; name = name; mailbox_depth = 0 }) rt.actors;
  }

  -- The rest of `spawn`, after the info is inserted.
  unfoldable pub open_mailbox :
      Runtime u ch rch → ActorId → Result ActorId RuntimeError × Runtime u ch rch
  open_mailbox rt id = if rt.senders_poisoned then (err runtime_stopped, rt) else (
    ok id,
    record rt {
      mailboxes = rt.mailboxes ++ ch.bounded rt.mailbox_capacity ∷ [];
      senders = insert id.raw (length rt.mailboxes) rt.senders;
      scheduler =
          WorkStealing.spawn rt.scheduler (record { id = id; mailbox = length rt.mailboxes });
    },
  )

  unfoldable pub spawn : Runtime u ch rch → Result ActorId RuntimeError × Runtime u ch rch
  unfolding next_id insert_info open_mailbox
  spawn rt =
      if rt.actors_poisoned
      then (err runtime_stopped, rt)
      else open_mailbox (insert_info rt (next_id rt) none) (next_id rt)

  unfoldable pub find_sender : Runtime u ch rch → ActorId → Result ℕ RuntimeError
  unfolding found_sender
  find_sender rt target =
      if rt.senders_poisoned
      then err runtime_stopped
      else found_sender target (lookup target.raw rt.senders)

  abbrev pub with_mailbox : Runtime u ch rch → ℕ → ch.Chan → Runtime u ch rch
  with_mailbox rt mailbox c = record rt { mailboxes = set rt.mailboxes mailbox c }

  unfoldable pub try_sent :
      Runtime u ch rch
      → ActorId
      → ℕ
      → Sent × ch.Chan
      → Result (Unit {0}) RuntimeError × Runtime u ch rch
  try_sent rt target mailbox (sent, c) = (ok tt, with_mailbox rt mailbox c)
  try_sent rt target mailbox (full, c) = (err (mailbox_full target), with_mailbox rt mailbox c)
  try_sent rt target mailbox (disconnected, c) = (err runtime_stopped, with_mailbox rt mailbox c)

  -- `sender.try_send(envelope).map_err(…)`; a sender always has its channel.
  unfoldable pub try_send_at :
      Runtime u ch rch
      → ActorId
      → MessageEnvelope u
      → ℕ
      → Option ch.Chan
      → Result (Unit {0}) RuntimeError × Runtime u ch rch
  unfolding try_sent
  try_send_at rt target envelope mailbox none = (err runtime_stopped, rt)
  try_send_at rt target envelope mailbox (some c) =
      try_sent rt target mailbox (ch.try_send c envelope)

  unfoldable pub try_send_to :
      Runtime u ch rch
      → ActorId
      → MessageEnvelope u
      → Result ℕ RuntimeError
      → Result (Unit {0}) RuntimeError × Runtime u ch rch
  unfolding try_send_at
  try_send_to rt target envelope (err e) = (err e, rt)
  try_send_to rt target envelope (ok mailbox) =
      try_send_at rt target envelope mailbox (get_elem? rt.mailboxes mailbox)

  unfoldable pub send :
      Runtime u ch rch → ActorId → Any u → Result (Unit {0}) RuntimeError × Runtime u ch rch
  unfolding try_send_to find_sender
  send rt target m = try_send_to rt target (message m) (find_sender rt target)

  blocking_sent : Runtime u ch rch → ℕ → Sent × ch.Chan → Blocking u ch rch
  blocking_sent rt mailbox (sent, c) = returned (ok tt) (with_mailbox rt mailbox c)
  blocking_sent rt mailbox (full, c) = waits
  blocking_sent rt mailbox (disconnected, c) =
      returned (err runtime_stopped) (with_mailbox rt mailbox c)

  blocking_send_at : Runtime u ch rch → MessageEnvelope u → ℕ → Option ch.Chan → Blocking u ch rch
  unfolding blocking_sent
  blocking_send_at rt envelope mailbox none = returned (err runtime_stopped) rt
  blocking_send_at rt envelope mailbox (some c) = blocking_sent rt mailbox (ch.try_send c envelope)

  blocking_send_to :
      Runtime u ch rch → MessageEnvelope u → Result ℕ RuntimeError → Blocking u ch rch
  unfolding blocking_send_at
  blocking_send_to rt envelope (err e) = returned (err e) rt
  blocking_send_to rt envelope (ok mailbox) =
      blocking_send_at rt envelope mailbox (get_elem? rt.mailboxes mailbox)

  -- `send_blocking`, and `ActorContext::send_to`, which makes the same calls.
  unfoldable pub send_blocking : Runtime u ch rch → ActorId → Any u → Blocking u ch rch
  unfolding blocking_send_to find_sender
  send_blocking rt target m = blocking_send_to rt (message m) (find_sender rt target)

  pub requested :
      (request_id reply : ℕ)
      → Result (Unit {0}) RuntimeError × Runtime u ch rch
      → Result RequestHandle RuntimeError × Runtime u ch rch
  requested request_id reply (err e, rt) = (err e, rt)
  requested request_id reply (ok _, rt) = (ok (record { id = request_id; receiver = reply }), rt)

  -- The counter is taken, and the reply channel made, before the target is looked up.
  unfoldable pub request_from :
      Runtime u ch rch → ActorId → Any u → Result RequestHandle RuntimeError × Runtime u ch rch
  unfolding requested try_send_to find_sender
  request_from rt target payload =
      let rt' = record rt {
        request_counter = (rt.request_counter + 1) % 2 ^ 64;
        replies = rt.replies ++ rch.bounded 1 ∷ [];
      } in
      requested rt.request_counter (length rt.replies) (
        try_send_to rt' target (request rt.request_counter payload (length rt.replies))
          (find_sender rt' target))

  -- `spawn_supervisor` takes `&self`: it reads the id under the read lock and inserts the info under
  -- the write lock, and other calls may come between. The supervisor is dropped at the end.
  unfoldable pub finish_supervisor :
      Runtime u ch rch
      → ActorId
      → RestartStrategy
      → List ChildSpec
      → Result ActorId RuntimeError × Runtime u ch rch
  unfolding insert_info built_supervisor
  finish_supervisor rt id strategy children =
      let supervisor = built_supervisor id strategy children in
      if rt.actors_poisoned
      then (err runtime_stopped, rt)
      else (ok id, insert_info rt id (some "supervisor"))

  unfoldable pub spawn_supervisor :
      Runtime u ch rch
      → RestartStrategy
      → List ChildSpec
      → Result ActorId RuntimeError × Runtime u ch rch
  unfolding next_id finish_supervisor
  spawn_supervisor rt strategy children =
      if rt.actors_poisoned
      then (err runtime_stopped, rt)
      else finish_supervisor rt (next_id rt) strategy children

  unfoldable pub list_actors : Runtime u ch rch → Result (List ActorInfo) RuntimeError
  list_actors rt = if rt.actors_poisoned then err runtime_stopped else ok (map (λ e. e.1) rt.actors)

  unfoldable pub inspect_actor : Runtime u ch rch → ActorId → Result (Option ActorInfo) RuntimeError
  inspect_actor rt id =
      if rt.actors_poisoned then err runtime_stopped else ok (lookup id.raw rt.actors)

  -- A poisoned lock is read all the same.
  unfoldable pub stats : Runtime u ch rch → RuntimeStats
  stats rt = record { actor_count = length rt.actors; request_count = rt.request_counter }

  -- `shutdown` stores the flag and sleeps until its deadline, while the actors go on; then it clears
  -- the maps and stops the scheduler.
  unfoldable pub begin_shutdown : Runtime u ch rch → Runtime u ch rch
  begin_shutdown rt = record rt { stop = true }

  unfoldable pub finish_shutdown :
      Runtime u ch rch → Result (Unit {0}) RuntimeError × Runtime u ch rch
  finish_shutdown rt =
      if rt.senders_poisoned
      then (err runtime_stopped, rt)
      else let rt' = record rt { senders = [] } in
        if rt.actors_poisoned
        then (err runtime_stopped, rt')
        else (ok tt, record rt' { actors = []; scheduler = request_stop rt.scheduler })
