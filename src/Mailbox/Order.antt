-- ===== src/Mailbox/Order.antt =====
-- First in, first out, in every interleaving of senders and receivers.
use runact.Prelude.{◌≡◌, refl, sym, ap, ◌∙◌, List, [], ◌∷◌, ◌++◌, append_assoc}
use runact.Mailbox.{Mailbox, MailboxConfig, drop_front, new, Event, run}
use runact.Mailbox.Keeps.{Keeps, with_pushed, with_popped, run-Keeps}

module _ {ℓ} {T : Type ℓ} where
  -- What was removed, followed by what is queued, is what was accepted, in the same order.
  abbrev pub IsFifo : Mailbox T → Type ℓ
  IsFifo m = m.removed ++ m.queue ≡ m.accepted

  pushed-IsFifo : (m : Mailbox T) (x : T) → IsFifo m → IsFifo (with_pushed m x)
  pushed-IsFifo m x h = sym (append_assoc m.removed m.queue (x ∷ [])) ∙ ap (λ xs. xs ++ x ∷ []) h

  popped-IsFifo :
      (m : Mailbox T) (x : T) (xs : List T)
      → m.queue ≡ x ∷ xs
      → IsFifo m
      → IsFifo (with_popped m x xs)
  popped-IsFifo m x xs e h =
      append_assoc m.removed (x ∷ []) xs ∙ ap (λ ys. m.removed ++ ys) (sym e) ∙ h

  dropped-IsFifo :
      (m : Mailbox T) (xs : List T) → m.queue ≡ xs → IsFifo m → IsFifo (drop_front m xs)
  unfolding drop_front
  dropped-IsFifo m [] e h = h
  dropped-IsFifo m (x ∷ xs) e h = popped-IsFifo m x xs e h

  keeps-IsFifo : Keeps IsFifo
  keeps-IsFifo = record {
    sleepers = λ m a b h. h;
    pushes = λ m x room h. pushed-IsFifo m x h;
    pops = popped-IsFifo;
    replaces =
        λ m x full e h. pushed-IsFifo (drop_front m m.queue) x (dropped-IsFifo m m.queue refl h);
  }

  -- In every interleaving of sends, receives, wake-ups and spurious wake-ups on a new mailbox, under
  -- each policy: the messages removed so far, followed by those still queued, are the messages
  -- accepted, in the order in which they were accepted. Removed are the received ones and those that
  -- `DropLowPriority` drops.
  pub run-IsFifo :
      (config : MailboxConfig) (es : List (Event T))
      → (run (new config) es).removed ++ (run (new config) es).queue
        ≡ (run (new config) es).accepted
  unfolding new
  run-IsFifo config es = run-Keeps keeps-IsFifo (new config) es refl
