-- ===== src/Mailbox/Bounds.antt =====
-- The queue never grows beyond the configured capacity.
use runact.Prelude.{◌≤◌, ◌<◌, ◌≡◌, refl, ap, List, [], ◌∷◌, arith, length, length-append}
use runact.Mailbox.{Mailbox, MailboxConfig, is_full, drop_front, new, Event, run}
use runact.Mailbox.Keeps.{Keeps, with_pushed, run-Keeps}

module _ {ℓ} {T : Type ℓ} (config : MailboxConfig) (room : 0 < config.capacity) where
  abbrev IsBounded : Mailbox T → Type 0
  IsBounded m = (m.config.capacity ≡ config.capacity) × (length m.queue ≤ config.capacity)

  replaced-IsBounded :
      (m : Mailbox T) (xs : List T) (x : T)
      → m.queue ≡ xs
      → IsBounded m
      → IsBounded (with_pushed (drop_front m xs) x)
  unfolding drop_front
  replaced-IsBounded m [] x e h =
      (h.0, omega (arith, h.1, ap length e, length-append m.queue (x ∷ [])))
  replaced-IsBounded m (y ∷ xs) x e h =
      (h.0, omega (arith, h.1, ap length e, length-append xs (x ∷ [])))

  keeps-IsBounded : Keeps IsBounded
  unfolding is_full
  keeps-IsBounded = record {
    sleepers = λ m a b h. h;
    pushes = λ m x free h. (h.0, ground (arith, length-append m.queue (x ∷ [])));
    pops = λ m x xs e h. (h.0, omega (arith, ap length e));
    replaces = λ m x full e h. replaced-IsBounded m m.queue x refl h;
  }

  -- In every interleaving of sends, receives and wake-ups on a new mailbox with a positive capacity,
  -- under each policy, the queue holds at most `capacity` messages.
  pub run-le-capacity : (es : List (Event T)) → length (run (new config) es).queue ≤ config.capacity
  unfolding new
  run-le-capacity es = (run-Keeps keeps-IsBounded (new config) es (refl, omega arith)).1
