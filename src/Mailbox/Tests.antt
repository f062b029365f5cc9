-- ===== src/Mailbox/Tests.antt =====
-- The mailbox's theorems at concrete inputs, and runs of its code.
use runact.Prelude.{ℕ, ◌≤◌, ◌≡◌, refl, false, List, [], ◌∷◌, ◌++◌, arith, length}
use runact.Mailbox.{
  block, drop_low_priority, MailboxConfig, Waiter, sender, Mailbox, new, Event, sends, receives,
  tries, resumes, run,
}
use runact.Mailbox.Order.{run-IsFifo}
use runact.Mailbox.Bounds.{run-le-capacity}
use runact.Mailbox.Wakeup.{run-asleep}

abbrev dropping : MailboxConfig
dropping = record { capacity = 2; backpressure = drop_low_priority }

abbrev traffic : List (Event ℕ)
traffic =
    sends 0 1 ∷ sends 0 2 ∷ sends 0 3 ∷ receives ∷ tries ∷ receives ∷ sends 0 4 ∷ resumes 0 ∷ []

run-IsFifo_example :
    (run (new dropping) traffic).removed ++ (run (new dropping) traffic).queue
    ≡ (run (new dropping) traffic).accepted
run-IsFifo_example = run-IsFifo dropping traffic

dropping_runs : (run (new dropping) traffic).removed ≡ 1 ∷ 2 ∷ 3 ∷ 4 ∷ []
unfolding run new
dropping_runs = refl

run-le-capacity_example : length (run (new dropping) traffic).queue ≤ 2
run-le-capacity_example = run-le-capacity dropping (omega arith) traffic

-- A full mailbox of capacity 1 under `Block`, with a sender asleep.
abbrev blocked : Mailbox ℕ
blocked = record {
  queue = 1 ∷ [];
  config = record { capacity = 1; backpressure = block };
  poisoned = false;
  asleep = sender 2 ∷ [];
  awake = [];
  accepted = 1 ∷ [];
  removed = [];
}

run-asleep_example :
    (more : List (Waiter ℕ)) × ((run blocked (receives ∷ tries ∷ [])).asleep
      ≡ blocked.asleep ++ more)
run-asleep_example = run-asleep blocked (receives ∷ tries ∷ []) tt (omega arith)

-- The queue is empty by then, and the sender sleeps on.
blocked_runs : (run blocked (receives ∷ tries ∷ [])).queue ≡ []
unfolding run
blocked_runs = refl
