-- ===== src/Supervision/SupervisorActor/Window.antt =====
-- The field `within` of the strategy, which the guides call the window for counting restarts.
use mathlib.Core.Option
use runact.Prelude.{ℕ, ◌≡◌, refl, ap, Option, none, some, List, [], ◌∷◌}
use runact.Prelude.HashMap.{lookup}
use runact.Actor.ActorId.{ActorId}
use runact.Supervision.Strategy.{RestartStrategy, one_for_one}
use runact.Supervision.SupervisorActor.{
  Replies, follow, SupervisorMessage, child_started, child_crashed, get_status, ChildEntry,
  SupervisorActor, max_restarts, base_backoff, backoff_delay, new_restart_count, update_crashed,
  crash_with, Handled, handled, panicked, handle, Delivery, handle_all,
}

abbrev with_within : ℕ → RestartStrategy → RestartStrategy
with_within w (one_for_one max within base) = one_for_one max w base

abbrev pub relabel : ℕ → SupervisorActor → SupervisorActor
relabel w s = record s { strategy = with_within w s.strategy }

abbrev relabel_handled : ℕ → Handled → Handled
relabel_handled w panicked = panicked
relabel_handled w (handled reply s) = handled reply (relabel w s)

max_restarts-within :
    (w : ℕ) (st : RestartStrategy) → max_restarts (with_within w st) ≡ max_restarts st
unfolding max_restarts
max_restarts-within w (one_for_one max within base) = refl

base_backoff-within :
    (w : ℕ) (st : RestartStrategy) → base_backoff (with_within w st) ≡ base_backoff st
unfolding base_backoff
base_backoff-within w (one_for_one max within base) = refl

backoff_delay-within :
    (w : ℕ) (st : RestartStrategy) (n : ℕ) → backoff_delay (with_within w st) n ≡ backoff_delay st n
unfolding backoff_delay
backoff_delay-within w (one_for_one max within base) n = refl

crash_with-within :
    (w : ℕ) (s : SupervisorActor) (c : ActorId) (count elapsed_at now : ℕ) (delay : Option ℕ)
    → crash_with (relabel w s) c count elapsed_at now delay
      ≡ relabel_handled w (crash_with s c count elapsed_at now delay)
unfolding crash_with
crash_with-within w s c count elapsed_at now none = refl
crash_with-within w s c count elapsed_at now (some delay) =
    ap (handled none) (updated (lookup c.raw s.children))
  where
    updated :
        (e : Option ChildEntry)
        → update_crashed (relabel w s) c count delay elapsed_at now e
          ≡ relabel w (update_crashed s c count delay elapsed_at now e)
    updated none = refl
    updated (some e) = rw (max_restarts-within w s.strategy)

handle-within :
    (w : ℕ) (s : SupervisorActor) (msg : SupervisorMessage) (elapsed_at now : ℕ)
    → handle (relabel w s) msg elapsed_at now ≡ relabel_handled w (handle s msg elapsed_at now)
unfolding handle
handle-within w s (child_started c name) elapsed_at now = refl
handle-within w s (child_crashed c reason) elapsed_at now =
    rw (backoff_delay-within w s.strategy (new_restart_count (lookup c.raw s.children)))
      (crash_with-within w s c _ elapsed_at now _)
handle-within w s get_status elapsed_at now = refl

-- The replies and states `r` of a supervisor and `r'` of the one with another window agree.
abbrev Agrees : ℕ → Replies → Replies → Type 0
Agrees w r' r = (r'.0 ≡ r.0) × (r'.1 ≡ Option.map (relabel w) r.1)

follow-Agrees :
    (w : ℕ) (next next' : SupervisorActor → Replies) (h : Handled)
    → ((s : SupervisorActor) → Agrees w (next' (relabel w s)) (next s))
    → Agrees w (follow next' (relabel_handled w h)) (follow next h)
unfolding follow
follow-Agrees w next next' panicked agree = (refl, refl)
follow-Agrees w next next' (handled reply s) agree = (ap (◌∷◌ reply) (agree s).0, (agree s).1)

-- The window is not used: two supervisors that differ only in `within` send the same replies and
-- restart, keep dead and give up the same children on every sequence of messages, at all times.
pub handle_all-within :
    (w : ℕ) (s : SupervisorActor) (ds : List Delivery)
    → ((handle_all (relabel w s) ds).0 ≡ (handle_all s ds).0)
      × ((handle_all (relabel w s) ds).1 ≡ Option.map (relabel w) (handle_all s ds).1)
unfolding handle_all
handle_all-within w s [] = (refl, refl)
handle_all-within w s (d ∷ ds) = rw (handle-within w s d.message d.elapsed_at d.now) (
    follow-Agrees w (λ s'. handle_all s' ds) (λ s'. handle_all s' ds)
      (handle s d.message d.elapsed_at d.now) (λ s'. handle_all-within w s' ds))
