-- ===== src/Runtime/World/Occupied.antt =====
-- src/runtime.rs: before a shutdown an actor that has taken a message keeps its worker.
use runact.Prelude.{
  ℕ, ◌<◌, ◌≤◌, ◌≡◌, ap, subst, inl, inr, Bool, true, false, some, List, [], ◌∷◌, ◌++◌, get_elem?,
  get_elem?-modify, modify, set, All, All-set, arith,
}
use runact.Any.{Types, Any}
use runact.Channel.{Channels}
use runact.Scheduler.WorkStealing.{Scheduler}
use runact.Scheduler.WorkStealing.Held.{busy}
use runact.Runtime.{MessageEnvelope, ActorTask}
use runact.Runtime.World.{LoopPc, leaving, receiving, Loop, Actors, World, Mail, taken}
use runact.Runtime.World.Exclusive.{loop_of}

module _ {u : Types} where
  -- Not on the way out of the loop, nor about to look whether it shall go.
  abbrev pub is_going : {S : Type 0} → LoopPc u S → Bool
  is_going (receiving true s) = false
  is_going leaving = false
  is_going pc = true

  abbrev pub some_taken : List (MessageEnvelope u) → ℕ
  some_taken [] = 0
  some_taken (e ∷ es) = 1

  -- Whether the loop of a mailbox has taken a message.
  abbrev pub started : Mail u → ℕ
  started x = some_taken x.handled

  pub some_taken-le : (es : List (MessageEnvelope u)) → some_taken es ≤ 1
  some_taken-le [] = omega arith
  some_taken-le (e ∷ es) = omega arith

  pub started-le : (x : Mail u) → started x ≤ 1
  started-le x = some_taken-le x.handled

  -- A loop that has taken a message holds a worker, or has taken it with it in a panic.
  abbrev pub Held : List (Mail u) → Scheduler ActorTask → Type 0
  Held mail s = (m : ℕ) (x : Mail u) → get_elem? mail m ≡ some x → started x ≤ busy (loop_of m) s

  pub modify-Held :
      (mail : List (Mail u)) (s : Scheduler ActorTask) (i : ℕ) (f : Mail u → Mail u)
      → ((x : Mail u) → started (f x) ≤ started x)
      → Held mail s
      → Held (modify mail i f) s
  modify-Held mail s i f same h m x at =
      let (y, at', e) = get_elem?-modify mail i m f x at in
      elim e [
        | inl e ↦ omega (arith, h m y at', ap started e)
        | inr (_, e) ↦ omega (arith, h m y at', ap started e, same y)
      ]

  pub taken-Held :
      (mail : List (Mail u)) (s : Scheduler ActorTask) (i : ℕ) (e : MessageEnvelope u)
      → 1 ≤ busy (loop_of i) s
      → Held mail s
      → Held (taken i e mail) s
  taken-Held mail s i e one h m x at =
      let f : Mail u → Mail u = λ x. record x { handled = x.handled ++ e ∷ [] } in
      let (y, at', e) = get_elem?-modify mail i m f x at in
      elim e [
        | inl e ↦ omega (arith, h m y at', ap started e)
        | inr (here, e) ↦
            subst (λ k. started x ≤ busy (loop_of k) s) here (omega (arith, one, started-le x))
      ]

  pub busier-Held :
      (mail : List (Mail u)) (s s' : Scheduler ActorTask)
      → ((m : ℕ) → busy (loop_of m) s ≤ busy (loop_of m) s')
      → Held mail s
      → Held mail s'
  busier-Held mail s s' more h m x at = omega (arith, h m x at, more m)

module _ {u : Types} {ch : Channels (MessageEnvelope u)} {rch : Channels (Any u)}
    {A : Actors u} where
  pub record IsOccupied (w : World ch rch A) : Type 0 where
    pub on : w.runtime.stop ≡ false
    pub going : All (λ (l : Loop A). is_going l.pc ≡ true) w.loops
    pub senders : All (λ (c : ch.Chan). 0 < ch.senders c) w.runtime.mailboxes
    pub held : Held w.mail w.runtime.scheduler

  -- A loop goes on.
  pub set_loop-IsOccupied :
      (w : World ch rch A) (m : ℕ) (l : Loop A)
      → is_going l.pc ≡ true
      → IsOccupied w
      → IsOccupied (record w { loops = set w.loops m l })
  set_loop-IsOccupied w m l go h = record {
    on = h.on;
    going = All-set (λ (l : Loop A). is_going l.pc ≡ true) w.loops m h.going go;
    senders = h.senders;
    held = h.held;
  }
