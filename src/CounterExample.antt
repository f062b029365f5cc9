-- ===== src/CounterExample.antt =====
-- examples/counter.rs: the counter actor, and `main`, which spawns two of them, lists them and shuts
-- down. A `u64` that goes over its end panics when the program is built with overflow checks, and
-- wraps otherwise. A failed `expect` is `none`. `main` sends no message, so the workers change nothing
-- that it reads; logging is left out.
pub mod Program
mod Tests
use runact.Prelude.{
  ap, ◌∙◌, ℕ, suc, ◌+◌, ◌-◌, ◌^◌, ◌%◌, ◌<◌, ◌≤◌, ◌≡◌, refl, Bool, true, false, Option, none, some,
  List, [], ◌∷◌, leb, if◌then◌else◌, arith,
}

pub record CounterActor : Type 0 where
  pub count : ℕ

pub data CounterMessage : Type 0 where
  increment decrement get_value : CounterMessage

-- `self.count += 1`
unfoldable pub incremented : (overflow_checks : Bool) → ℕ → Option ℕ
incremented overflow_checks count =
    if overflow_checks
    then if leb (2 ^ 64) (count + 1) then none else some (count + 1)
    else some ((count + 1) % 2 ^ 64)

abbrev with_count : Option ℕ → Option CounterActor
with_count none = none
with_count (some count) = some (record { count = count })

-- `none` is a panic; the result is always `Ok`.
unfoldable pub handle :
    (overflow_checks : Bool) → CounterMessage → CounterActor → Option CounterActor
unfolding incremented
handle overflow_checks increment actor = with_count (incremented overflow_checks actor.count)
handle overflow_checks decrement actor = some (record { count = actor.count - 1 })
handle overflow_checks get_value actor = some actor

unfoldable pub handle_next :
    (overflow_checks : Bool) → CounterMessage → Option CounterActor → Option CounterActor
unfolding handle
handle_next overflow_checks msg none = none
handle_next overflow_checks msg (some actor) = handle overflow_checks msg actor

-- The messages in their order; a panic ends the actor.
unfoldable pub handle_all :
    (overflow_checks : Bool) → List CounterMessage → Option CounterActor → Option CounterActor
unfolding handle_next
handle_all overflow_checks [] actor = actor
handle_all overflow_checks (msg ∷ msgs) actor =
    handle_all overflow_checks msgs (handle_next overflow_checks msg actor)

abbrev pub increments : List CounterMessage → ℕ
increments [] = 0
increments (increment ∷ msgs) = suc (increments msgs)
increments (msg ∷ msgs) = increments msgs

abbrev pub decrements : List CounterMessage → ℕ
decrements [] = 0
decrements (decrement ∷ msgs) = suc (decrements msgs)
decrements (msg ∷ msgs) = decrements msgs

-- The counter after `msgs`.
pub record Counted (start : CounterActor) (msgs : List CounterMessage) (r : Option CounterActor)
    : Type 0 where
  pub actor : CounterActor
  pub handled : r ≡ some actor
  pub at_most : actor.count ≤ start.count + increments msgs
  pub at_least : start.count + increments msgs ≤ actor.count + decrements msgs

incremented-fits :
    (checks : Bool) (count : ℕ) → count + 1 < 2 ^ 64 → incremented checks count ≡ some (count + 1)
unfolding incremented
incremented-fits true count fits = ground (arith, fits)
incremented-fits false count fits =
    let same : (count + 1) % 2 ^ 64 ≡ count + 1 = omega (arith, fits) in ap some same

-- A counter whose start and increments together fit into 64 bits handles every sequence of messages,
-- with and without overflow checks: it never panics nor wraps, and ends at its start plus the
-- increments, less at most the decrements, since it stops at 0.
pub handle_all-Counted :
    (checks : Bool) (msgs : List CounterMessage) (start : CounterActor)
    → start.count + increments msgs < 2 ^ 64
    → Counted start msgs (handle_all checks msgs (some start))
unfolding handle_all handle
handle_all-Counted checks [] start fits = record {
  actor = start;
  handled = refl;
  at_most = omega arith;
  at_least = omega arith;
}
handle_all-Counted checks (increment ∷ msgs) start fits =
    let next : CounterActor = record { count = start.count + 1 } in
    let rest = handle_all-Counted checks msgs next (omega (arith, fits)) in
    record {
      actor = rest.actor;
      handled =
          ap (λ o. handle_all checks msgs (with_count o))
            (incremented-fits checks start.count (omega (arith, fits)))
          ∙ rest.handled;
      at_most = omega (arith, rest.at_most);
      at_least = omega (arith, rest.at_least);
    }
handle_all-Counted checks (decrement ∷ msgs) start fits =
    let next : CounterActor = record { count = start.count - 1 } in
    let rest = handle_all-Counted checks msgs next (omega (arith, fits)) in
    record {
      actor = rest.actor;
      handled = rest.handled;
      at_most = omega (arith, rest.at_most);
      at_least = omega (arith, rest.at_least);
    }
handle_all-Counted checks (get_value ∷ msgs) start fits =
    let rest = handle_all-Counted checks msgs start (omega (arith, fits)) in
    record {
      actor = rest.actor;
      handled = rest.handled;
      at_most = omega (arith, rest.at_most);
      at_least = omega (arith, rest.at_least);
    }
