-- ===== src/Mailbox.antt =====
-- src/mailbox/queue.rs: a bounded queue behind a mutex and one condition variable. Clones share the
-- queue, so one `Mailbox` stands for all of them. A method holds the lock from its first line to
-- its last but for `cvar.wait`, so it is one atomic step, or two with a sleep between. The record
-- has the fields of `Mailbox`, whether the mutex is poisoned, the threads that sleep in
-- `cvar.wait` and those that were woken and have not run yet; `accepted` and `removed` are read by
-- the theorems only. Which sleeper `notify_one` wakes is open: it is an argument.
mod Keeps
pub mod Order
pub mod Bounds
pub mod Wakeup
mod Tests
use runact.Prelude.{
  ℕ, zero, suc, Bool, true, false, Option, none, some, List, [], ◌∷◌, ◌++◌, length, leb,
  if◌then◌else◌,
}
use runact.Actor.ActorId.{ActorId}
use runact.Actor.ActorId
use runact.Actor.Error.{RuntimeError, mailbox_full, runtime_stopped, Result, ok, err}

pub data BackpressurePolicy : Type 0 where
  reject block drop_low_priority : BackpressurePolicy

pub record MailboxConfig : Type 0 where
  pub capacity : ℕ
  pub backpressure : BackpressurePolicy

abbrev pub default_config : MailboxConfig
default_config = record { capacity = 1000; backpressure = reject }

-- A thread inside `cvar.wait`: a sender in the `Block` loop with its message, or a receiver.
pub data Waiter {ℓ} (T : Type ℓ) : Type ℓ where
  sender : T → Waiter T
  receiver : Waiter T

pub record Mailbox {ℓ} (T : Type ℓ) : Type ℓ where
  pub queue : List T
  pub config : MailboxConfig
  pub poisoned : Bool
  pub asleep : List (Waiter T)
  pub awake : List (Waiter T)
  pub accepted : List T  -- every message pushed, oldest first
  pub removed : List T  -- every message popped, oldest first

-- What a call has done when it gives the lock up: it has returned, or its thread sleeps.
pub data Outcome {ℓ} (T : Type ℓ) : Type ℓ where
  sent : Result (Unit {0}) RuntimeError → Outcome T
  received : Option T → Outcome T
  sleeps : Outcome T

module _ {ℓ} {T : Type ℓ} where
  unfoldable pub new : MailboxConfig → Mailbox T
  new config = record {
    queue = [];
    config = config;
    poisoned = false;
    asleep = [];
    awake = [];
    accepted = [];
    removed = [];
  }

  -- Takes the entry at the index `pick` out of the sleepers, or the last one past the end.
  unfoldable pub wake : ℕ → List (Waiter T) → List (Waiter T) × List (Waiter T)
  wake pick [] = ([], [])
  wake zero (x ∷ xs) = (x ∷ [], xs)
  wake (suc pick) (x ∷ []) = (x ∷ [], [])
  wake (suc pick) (x ∷ y ∷ ys) = let (woken, rest) = wake pick (y ∷ ys) in (woken, x ∷ rest)

  unfoldable pub notify_one : ℕ → Mailbox T → Mailbox T
  unfolding wake
  notify_one pick m =
      let (woken, rest) = wake pick m.asleep in record m { asleep = rest; awake = m.awake ++ woken }

  -- `queue.push_back(message); cvar.notify_one(); Ok(())`
  unfoldable pub push_back : ℕ → Mailbox T → T → Outcome T × Mailbox T
  unfolding notify_one
  push_back pick m message = (
    sent (ok tt),
    notify_one pick
        (record m { queue = m.queue ++ message ∷ []; accepted = m.accepted ++ message ∷ [] }),
  )

  unfoldable pub drop_front : Mailbox T → List T → Mailbox T
  drop_front m [] = m
  drop_front m (x ∷ xs) = record m { queue = xs; removed = m.removed ++ x ∷ [] }

  unfoldable pub is_full : Mailbox T → Bool
  is_full m = leb m.config.capacity (length m.queue)

  sleep : Mailbox T → Waiter T → Outcome T × Mailbox T
  sleep m w = (sleeps, record m { asleep = m.asleep ++ w ∷ [] })

  send_full : BackpressurePolicy → ℕ → Mailbox T → T → Outcome T × Mailbox T
  unfolding push_back drop_front sleep ActorId.new
  send_full reject pick m message = (sent (err (mailbox_full (ActorId.new 0))), m)
  send_full block pick m message = sleep m (sender message)
  send_full drop_low_priority pick m message = push_back pick (drop_front m m.queue) message

  unfoldable pub send : ℕ → Mailbox T → T → Outcome T × Mailbox T
  unfolding send_full is_full push_back
  send pick m message =
      if m.poisoned
      then (sent (err runtime_stopped), m)
      else if is_full m
      then send_full m.config.backpressure pick m message
      else push_back pick m message

  -- The `Block` loop after `cvar.wait`: an error if the lock is poisoned, again the test, the push.
  unfoldable pub resume_send : ℕ → Mailbox T → T → Outcome T × Mailbox T
  unfolding is_full push_back sleep
  resume_send pick m message =
      if m.poisoned
      then (sent (err runtime_stopped), m)
      else if is_full m
      then sleep m (sender message)
      else push_back pick m message

  pop_front : Mailbox T → List T → Option T × Mailbox T
  pop_front m [] = (none, m)
  pop_front m (x ∷ xs) = (some x, record m { queue = xs; removed = m.removed ++ x ∷ [] })

  receive_popped : Option T × Mailbox T → Outcome T × Mailbox T
  unfolding sleep
  receive_popped (none, m) = sleep m receiver
  receive_popped (some message, m) = (received (some message), m)

  -- `receive`, and its loop again after a wake-up.
  unfoldable pub receive : Mailbox T → Outcome T × Mailbox T
  unfolding receive_popped pop_front
  receive m = if m.poisoned then (received none, m) else receive_popped (pop_front m m.queue)

  try_popped : Option T × Mailbox T → Outcome T × Mailbox T
  try_popped (o, m) = (received o, m)

  unfoldable pub try_receive : Mailbox T → Outcome T × Mailbox T
  unfolding try_popped pop_front
  try_receive m = if m.poisoned then (received none, m) else try_popped (pop_front m m.queue)

  unfoldable pub len : Mailbox T → ℕ
  len m = if m.poisoned then 0 else length m.queue

  empty_list : List T → Bool
  empty_list [] = true
  empty_list (x ∷ xs) = false

  unfoldable pub is_empty : Mailbox T → Bool
  unfolding empty_list
  is_empty m = if m.poisoned then true else empty_list m.queue

  -- The thread that was woken first runs on. The list of the woken loses its head.
  resume_waiter : ℕ → Mailbox T → List (Waiter T) → Outcome T × Mailbox T
  unfolding resume_send receive
  resume_waiter pick m [] = (sleeps, m)
  resume_waiter pick m (sender message ∷ rest) =
      resume_send pick (record m { awake = rest }) message
  resume_waiter pick m (receiver ∷ rest) = receive (record m { awake = rest })

pub data Event {ℓ} (T : Type ℓ) : Type ℓ where
  sends : (pick : ℕ) → T → Event T
  receives tries : Event T
  resumes : (pick : ℕ) → Event T  -- a woken thread runs on
  spurious : (pick : ℕ) → Event T  -- `cvar.wait` may return with no notification

module _ {ℓ} {T : Type ℓ} where
  unfoldable pub step : Mailbox T → Event T → Outcome T × Mailbox T
  unfolding send receive try_receive resume_waiter notify_one
  step m (sends pick message) = send pick m message
  step m receives = receive m
  step m tries = try_receive m
  step m (resumes pick) = resume_waiter pick m m.awake
  step m (spurious pick) = (sleeps, notify_one pick m)

  unfoldable pub run : Mailbox T → List (Event T) → Mailbox T
  unfolding step
  run m [] = m
  run m (e ∷ es) = run (step m e).1 es
