-- ===== src/Runtime/ActorLoop.antt =====
-- src/runtime.rs, the loop that `spawn` hands to the scheduler, one turn at a time. The stop flag is
-- read at the start of a turn, and other threads may change the mailbox between turns. `handle` is
-- the handler of the actor: it may change the actor (with everything that it reaches) and its own
-- mailbox, and its result is dropped. The loop's context keeps a sender of its own mailbox, so
-- `recv_timeout` is not `Disconnected` while it runs. A handler that panics ends the thread: see Scheduler.WorkStealing.
use runact.Prelude.{
  append_assoc, inr, inl, ◌++◌, ℕ, suc, zero, ◌≡◌, refl, ap, sym, ◌∙◌, Bool, true, Option, none,
  some, List, [], ◌∷◌, length, if◌then◌else◌,
}
use runact.Any.{Types, downcast}
use runact.Channel.{Channels, IsLawful, recv_none, Received, got, empty, hung_up}
use runact.Runtime.{MessageEnvelope, message, request}
use runact.Scheduler.Reduction.{ReductionCounter, reset, after_message}

pub record LoopState {u : Types} (ch : Channels (MessageEnvelope u)) (S : Type 0) : Type 0 where
  pub actor : S
  pub mailbox : ch.Chan
  pub reply_sender : Option ℕ
  pub reductions : ReductionCounter

pub data Turn {u : Types} (ch : Channels (MessageEnvelope u)) (S : Type 0) : Type 0 where
  goes_on stops : LoopState ch S → Turn ch S

unfoldable pub and_then :
    {u : Types} {ch : Channels (MessageEnvelope u)} {S : Type 0}
    → (LoopState ch S → Turn ch S)
    → Turn ch S
    → Turn ch S
and_then f (goes_on w) = f w
and_then f (stops w) = stops w

unfoldable pub counted :
    {u : Types} {ch : Channels (MessageEnvelope u)} {S : Type 0} → LoopState ch S → LoopState ch S
counted w = record w { reductions = (after_message w.reductions).1 }

module _ {u : Types} {ch : Channels (MessageEnvelope u)} {S : Type 0} (t : u.Ty)
    (handle : u.El t → Option ℕ → S × ch.Chan → S × ch.Chan) where
  -- `ctx.set_reply_sender(reply); let _ = actor.handle(*msg, &mut ctx);`
  unfoldable pub call_handler : Option ℕ → u.El t → LoopState ch S → LoopState ch S
  call_handler reply msg w =
      let (actor, mailbox) = handle msg reply (w.actor, w.mailbox) in
      record w { actor = actor; mailbox = mailbox; reply_sender = reply }

  unfoldable pub call_if : Option ℕ → Option (u.El t) → LoopState ch S → LoopState ch S
  unfolding call_handler
  call_if reply none w = w
  call_if reply (some msg) w = call_handler reply msg w

  -- A payload of another type is dropped.
  unfoldable pub deliver : MessageEnvelope u → LoopState ch S → LoopState ch S
  unfolding call_if
  deliver (message payload) w = call_if none (downcast u t payload) w
  deliver (request request_id payload reply) w = call_if (some reply) (downcast u t payload) w

  unfoldable pub received_stopping :
      LoopState ch S → Received (MessageEnvelope u) × ch.Chan → Turn ch S
  unfolding deliver
  received_stopping w (got e, c) = goes_on (deliver e (record w { mailbox = c }))
  received_stopping w (empty, c) = stops (record w { mailbox = c })
  received_stopping w (hung_up, c) = stops (record w { mailbox = c })

  unfoldable pub received_running :
      LoopState ch S → Received (MessageEnvelope u) × ch.Chan → Turn ch S
  unfolding deliver counted
  received_running w (got e, c) = goes_on (counted (deliver e (record w { mailbox = c })))
  received_running w (empty, c) =
      goes_on (record w { mailbox = c; reductions = reset w.reductions })
  received_running w (hung_up, c) = stops (record w { mailbox = c })

  unfoldable pub turn : (stop : Bool) → LoopState ch S → Turn ch S
  unfolding received_stopping received_running
  turn stop w =
      if stop
      then received_stopping w (ch.try_recv w.mailbox)
      else received_running w (ch.try_recv w.mailbox)

  -- `fuel` turns with the stop flag set and no other thread between them.
  unfoldable pub drain : (fuel : ℕ) → LoopState ch S → Turn ch S
  unfolding turn and_then
  drain zero w = goes_on w
  drain (suc fuel) w = and_then (λ w'. drain fuel w') (turn true w)

module _ (u : Types) (t : u.Ty) where
  -- A message that the actor can read, with the reply channel of its request.
  abbrev pub with_reply : Option ℕ → Option (u.El t) → List (u.El t × Option ℕ)
  with_reply reply none = []
  with_reply reply (some msg) = (msg, reply) ∷ []

  abbrev pub readable_one : MessageEnvelope u → List (u.El t × Option ℕ)
  readable_one (message payload) = with_reply none (downcast u t payload)
  readable_one (request request_id payload reply) = with_reply (some reply) (downcast u t payload)

  unfoldable pub readable : List (MessageEnvelope u) → List (u.El t × Option ℕ)
  readable [] = []
  readable (e ∷ es) = readable_one e ++ readable es

  pub readable-append :
      (es fs : List (MessageEnvelope u)) → readable (es ++ fs) ≡ readable es ++ readable fs
  unfolding readable
  readable-append [] fs = refl
  readable-append (e ∷ es) fs =
      ap (λ l. readable_one e ++ l) (readable-append es fs)
      ∙ sym (append_assoc (readable_one e) (readable es) (readable fs))

-- A handler on a message with its reply channel.
abbrev pub next : {M S : Type 0} → (M → Option ℕ → S → S) → S → M × Option ℕ → S
next answer s m = answer m.0 m.1 s

abbrev pub foldl {ℓ κ} : {A : Type ℓ} {B : Type κ} → (B → A → B) → B → List A → B
foldl f b [] = b
foldl f b (a ∷ rest) = foldl f (f b a) rest

pub foldl-append {ℓ κ} :
    {A : Type ℓ} {B : Type κ} (f : B → A → B) (b : B) (xs ys : List A)
    → foldl f b (xs ++ ys) ≡ foldl f (foldl f b xs) ys
foldl-append f b [] ys = refl
foldl-append f b (x ∷ xs) ys = foldl-append f (f b x) xs ys

module _ {u : Types} {ch : Channels (MessageEnvelope u)} {S : Type 0} (t : u.Ty)
    (handle : u.El t → Option ℕ → S × ch.Chan → S × ch.Chan) (answer : u.El t → Option ℕ → S → S)
    (answers : (m : u.El t) (r : Option ℕ) (s : S) (c : ch.Chan)
      → handle m r (s, c) ≡ (answer m r s, c)) where
  call_if_lem :
      (reply : Option ℕ) (msg : Option (u.El t)) (w : LoopState ch S)
      → ((call_if t handle reply msg w).actor
          ≡ foldl (next answer) w.actor (with_reply u t reply msg))
        × ((call_if t handle reply msg w).mailbox ≡ w.mailbox)
  unfolding call_if call_handler
  call_if_lem reply none w = (refl, refl)
  call_if_lem reply (some msg) w = (
    ap (λ p. p.0) (answers msg reply w.actor w.mailbox),
    ap (λ p. p.1) (answers msg reply w.actor w.mailbox),
  )

  deliver_lem :
      (e : MessageEnvelope u) (w : LoopState ch S)
      → ((deliver t handle e w).actor ≡ foldl (next answer) w.actor (readable_one u t e))
        × ((deliver t handle e w).mailbox ≡ w.mailbox)
  unfolding deliver
  deliver_lem (message payload) w = call_if_lem none (downcast u t payload) w
  deliver_lem (request i payload reply) w = call_if_lem (some reply) (downcast u t payload) w

  -- The end of a loop that has handled `es`.
  pub record Drained (es : List (MessageEnvelope u)) (w w' : LoopState ch S) : Type 0 where
    pub emptied : ch.queued w'.mailbox ≡ []
    pub handled : w'.actor ≡ foldl (next answer) w.actor (readable u t es)

  -- For a handler that returns and leaves its own mailbox alone, over channels that meet their
  -- documented laws: once the stop flag is set and nobody else sends, a loop whose mailbox holds n
  -- messages ends in n + 1 turns, its mailbox is empty, and the actor has handled exactly the
  -- queued messages of its own type, in their order, each request with its own reply channel.
  pub drain-Drained :
      IsLawful ch
      → (es : List (MessageEnvelope u)) (w : LoopState ch S) → ch.queued w.mailbox ≡ es
      → (w' : LoopState ch S) × (drain t handle (suc (length es)) w ≡ stops w') × Drained es w w'
  unfolding drain turn received_stopping readable and_then
  drain-Drained lawful [] w h = elim (recv_none lawful w.mailbox h) [
    | inl e ↦ (record w { mailbox = w.mailbox }, rw e refl, record { emptied = h; handled = refl })
    | inr e ↦ (record w { mailbox = w.mailbox }, rw e refl, record { emptied = h; handled = refl })
  ]
  drain-Drained lawful (e ∷ es) w h =
      let law = lawful.recv_got w.mailbox e es h in
      let c = (ch.try_recv w.mailbox).1 in
      let w₁ = deliver t handle e (record w { mailbox = c }) in
      let one = deliver_lem e (record w { mailbox = c }) in
      let (w', ended, d) = drain-Drained lawful es w₁ (ap ch.queued one.1 ∙ law.1) in
      (
        w',
        ap
              (λ r.
                and_then (λ w''. drain t handle (suc (length es)) w'')
                  (received_stopping t handle w (r, c)))
              law.0
            ∙ ended,
        record {
          emptied = d.emptied;
          handled =
              d.handled
              ∙ ap (λ s. foldl (next answer) s (readable u t es)) one.0
              ∙ sym (foldl-append (next answer) w.actor (readable_one u t e) (readable u t es));
        },
      )
