-- ===== src/Runtime/World/PureLoops.antt =====
-- src/runtime.rs with src/actor/trait_def.rs: the loop of an actor whose handler makes no calls, and what
-- it has become by the messages that it has taken.
use runact.Prelude.{
  ℕ, ◌≡◌, ◌∙◌, ap, sym, subst, Bool, Option, none, some, List, [], ◌∷◌, ◌++◌, append-nil,
}
use runact.Any.{Types, downcast}
use runact.Actor.Context.{ActorContext, set_reply_sender}
use runact.Runtime.{MessageEnvelope, message, request}
use runact.Runtime.ActorLoop.{
  next, foldl, foldl-append, readable, readable_one, with_reply, readable-append,
}
use runact.Runtime.World.{
  Script, returns, LoopPc, top, handling, sending, leaving, ended, receiving, Loop, Actors, Mail,
}
use runact.Runtime.World.Steps.{call_if, opened}

pub returns-same :
    {u : Types} {S : Type 0} {s t : S} → ◌≡◌ {A = Script u S} (returns s) (returns t) → s ≡ t
returns-same e = cc

-- The kinds of actors in `is_pure` have handlers that return and make no calls: `answer` is the new
-- state, from the message, the reply channel of its request and the old state. Every actor of such a
-- kind starts as `init`.
pub record Pure {u : Types} (A : Actors u) : Type 1 where
  pub is_pure : A.Kind → Type 0
  pub init : (k : A.Kind) → is_pure k → A.State k
  pub answer : (k : A.Kind) → is_pure k → u.El (A.Message k) → Option ℕ → A.State k → A.State k
  pub answers :
      (k : A.Kind) (p : is_pure k) (msg : u.El (A.Message k)) (ctx : ActorContext) (s : A.State k)
      → A.handle k msg ctx s ≡ returns (answer k p msg ctx.reply_sender s)

-- The loop at `pc` has the state `s`, or will have it when its handler returns.
abbrev pub HasState : {u : Types} {S : Type 0} → LoopPc u S → S → Type 0
HasState (top s') s = s' ≡ s
HasState (receiving stopping s') s = s' ≡ s
HasState (handling stopping script) s = script ≡ returns s
HasState (sending stopping mailbox e k) s = ⊥
HasState leaving s = Unit
HasState ended s = Unit

module _ {u : Types} {A : Actors u} (P : Pure A) where
  -- The handler folded over the envelopes that it can read.
  abbrev pub folded : (k : A.Kind) → P.is_pure k → List (MessageEnvelope u) → A.State k
  folded k p es = foldl (next (P.answer k p)) (P.init k p) (readable u (A.Message k) es)

  abbrev pub IsFolded : Loop A → Mail u → Type 0
  IsFolded l x = (p : P.is_pure l.kind) → HasState l.pc (folded l.kind p x.handled)

  readable_snoc :
      (k : A.Kind) (p : P.is_pure k) (es : List (MessageEnvelope u)) (e : MessageEnvelope u)
      → folded k p (es ++ e ∷ [])
        ≡ foldl (next (P.answer k p)) (folded k p es) (readable_one u (A.Message k) e)
  unfolding readable
  readable_snoc k p es e =
      ap (foldl (next (P.answer k p)) (P.init k p)) (
        readable-append u (A.Message k) es (e ∷ [])
        ∙ ap (λ l. readable u (A.Message k) es ++ l) (append-nil (readable_one u (A.Message k) e)))
      ∙ foldl-append (next (P.answer k p)) (P.init k p) (readable u (A.Message k) es)
          (readable_one u (A.Message k) e)

  call_if-IsFolded :
      (l : Loop A) (stopping : Bool) (s : A.State l.kind) (r : Option ℕ)
      (msg : Option (u.El (A.Message l.kind))) (x : Mail u)
      → ((p : P.is_pure l.kind)
          → folded l.kind p x.handled
            ≡ foldl (next (P.answer l.kind p)) s (with_reply u (A.Message l.kind) r msg))
      → IsFolded (call_if l stopping s r msg) x
  unfolding call_if set_reply_sender
  call_if-IsFolded l stopping s r none x e p = sym (e p)
  call_if-IsFolded l stopping s r (some msg) x e p =
      P.answers l.kind p msg (set_reply_sender r l.ctx) s ∙ ap returns (sym (e p))

  opened-IsFolded :
      (l : Loop A) (stopping : Bool) (s : A.State l.kind) (e : MessageEnvelope u) (x : Mail u)
      → ((p : P.is_pure l.kind)
          → folded l.kind p x.handled
            ≡ foldl (next (P.answer l.kind p)) s (readable_one u (A.Message l.kind) e))
      → IsFolded (opened l stopping s e) x
  unfolding opened
  opened-IsFolded l stopping s (message payload) x h =
      call_if-IsFolded l stopping s none (downcast u (A.Message l.kind) payload) x h
  opened-IsFolded l stopping s (request id payload r) x h =
      call_if-IsFolded l stopping s (some r) (downcast u (A.Message l.kind) payload) x h

  -- A loop that takes an envelope calls the handler on the state so far.
  pub taken-IsFolded :
      (l : Loop A) (stopping : Bool) (s : A.State l.kind) (e : MessageEnvelope u) (x : Mail u)
      → ((p : P.is_pure l.kind) → s ≡ folded l.kind p x.handled)
      → IsFolded (opened l stopping s e) (record x { handled = x.handled ++ e ∷ [] })
  taken-IsFolded l stopping s e x h =
      opened-IsFolded l stopping s e (record x { handled = x.handled ++ e ∷ [] })
        (λ p.
          readable_snoc l.kind p x.handled e
          ∙ ap (λ s. foldl (next (P.answer l.kind p)) s (readable_one u (A.Message l.kind) e))
              (sym (h p)))

  -- The loop `l` is where no loop of a pure kind is.
  abbrev pub Strays : Loop A → Type 0
  Strays l = (x : Mail u) → IsFolded l x → P.is_pure l.kind → ⊥

  -- A pure kind makes no calls, so a loop that does is of no pure kind.
  pub calls-Strays :
      (l : Loop A) (stopping : Bool) (script : Script u (A.State l.kind))
      → ((s : A.State l.kind) → script ≡ returns s → ⊥)
      → l.pc ≡ handling stopping script
      → Strays l
  calls-Strays l stopping script never pc x f p =
      never _ (subst (λ pc. HasState pc (folded l.kind p x.handled)) pc (f p))
