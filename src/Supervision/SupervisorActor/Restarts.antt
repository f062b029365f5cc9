-- ===== src/Supervision/SupervisorActor/Restarts.antt =====
-- The life of one child: its count, when it is given up, and how far apart its restarts are.
use native.Mathlib.Nat.{add-zero, add_assoc}
use Prim.Native.String.{String}
use runact.Prelude.{
  ==_self, true, Bool-cases, ==_iff, Bool-cases, ℕ, ◌+◌, ◌%◌, ◌^◌, ◌≤◌, ◌<◌, ◌≡◌, ◌≢◌, refl, sym,
  ap, ◌∙◌, ◌⊎◌, inl, inr, false, Option, none, some, List, [], ◌∷◌, arith, length, All, ◌==◌,
  if◌then◌else◌,
}
use runact.Prelude.HashMap.{lookup, lookup-insert}
use runact.Actor.ActorId.{ActorId}
use runact.Supervision.Duration.{elapsed, from_secs}
use runact.Supervision.Strategy.{RestartStrategy}
use runact.Supervision.SupervisorActor.{
  backoff_delay, backoff_over, SupervisorMessage, child_started, child_crashed, get_status,
  ChildStatus, ChildEntry, SupervisorActor, max_restarts, base_backoff, new_restart_count,
  crashed_entry, update_crashed, crash_with, handled, handle, Delivery, follow, handle_all,
}
use runact.Supervision.SupervisorActor.Backoff.{backoff_delay-some}

-- The message does not register the child `c` anew.
abbrev pub NotStarted : ActorId → SupervisorMessage → Type 0
NotStarted c (child_started child_id name) = child_id.raw ≢ c.raw
NotStarted c _ = Unit

abbrev pub crash_of : ActorId → SupervisorMessage → ℕ
crash_of c (child_crashed child_id reason) = if child_id.raw == c.raw then 1 else 0
crash_of c _ = 0

crash_of-le : (c : ActorId) (msg : SupervisorMessage) → crash_of c msg ≤ 1
crash_of-le c (child_crashed child_id reason) = ground arith
crash_of-le c _ = omega arith

-- How often `c` crashes in a sequence of messages.
abbrev pub crashes : ActorId → List Delivery → ℕ
crashes c [] = 0
crashes c (d ∷ ds) = crash_of c d.message + crashes c ds

-- What a supervisor holds of the child `c`: it is known by this name, has crashed `n` times, and is
-- alive only while `n` is within the limit.
pub record Tracks (strategy : RestartStrategy) (c : ActorId) (name : String) (n : ℕ)
    (s : SupervisorActor) : Type 0 where
  pub entry : ChildEntry
  pub found : lookup c.raw s.children ≡ some entry
  pub named : entry.name ≡ name
  pub counted : entry.restart_count ≡ n
  pub limited : (entry.alive ≡ false) ⊎ (n ≤ max_restarts strategy)
  pub same_strategy : s.strategy ≡ strategy

module _ (strategy : RestartStrategy) (c : ActorId) (name : String) where
  crashed-limited :
      (e : ChildEntry) (count delay elapsed_at now : ℕ)
      → let e' = crashed_entry e count (max_restarts strategy) delay elapsed_at now in
        (e'.name ≡ e.name)
        × (e'.restart_count ≡ count)
        × ((e'.alive ≡ false) ⊎ (count ≤ max_restarts strategy))
  unfolding crashed_entry
  crashed-limited e count delay elapsed_at now = ground arith

  update-Tracks :
      (n : ℕ) (s : SupervisorActor) (d : ActorId) (delay elapsed_at now : ℕ) (o : Option ChildEntry)
      → n + 1 < 2 ^ 64
      → Tracks strategy c name n s
      → lookup d.raw s.children ≡ o
      → Tracks strategy c name
          (n + (if d.raw == c.raw then 1 else 0))
          (update_crashed s d (new_restart_count o) delay elapsed_at now o)
  unfolding update_crashed new_restart_count
  update-Tracks n s d delay elapsed_at now none small t at = elim (Bool-cases (d.raw == c.raw)) [
    | inl same ↦
        let here : lookup c.raw s.children ≡ none = rw ((==_iff d.raw c.raw).0 same) at at in
        absurd (cc (here, t.found))
    | inr other ↦ rw other (record {
      entry = t.entry;
      found = t.found;
      named = t.named;
      counted = omega (arith, t.counted);
      limited = rw add-zero t.limited;
      same_strategy = t.same_strategy;
    })
  ]
  update-Tracks n s d delay elapsed_at now (some e) small t at =
      elim (Bool-cases (d.raw == c.raw)) [
        | inl same ↦
            let here : lookup c.raw s.children ≡ some e = rw ((==_iff d.raw c.raw).0 same) at at in
            let own : t.entry ≡ e = cc (here, t.found) in
            let count : (e.restart_count + 1) % 2 ^ 64 ≡ n + 1 =
              omega (arith, ap (λ (x : ChildEntry). x.restart_count) own, t.counted) in
            let named : e.name ≡ name = sym (ap (λ (x : ChildEntry). x.name) own) ∙ t.named in
            let (kept_name, new_count, sound) = crashed-limited e (n + 1) delay elapsed_at now in
            rw (same, count, t.same_strategy)
              (record {
                entry = crashed_entry e (n + 1) (max_restarts strategy) delay elapsed_at now;
                found = lookup-insert d.raw c.raw _ s.children ∙ rw same refl;
                named = kept_name ∙ named;
                counted = new_count;
                limited = sound;
                same_strategy = refl;
              })
        | inr other ↦ rw other (record {
          entry = t.entry;
          found = lookup-insert d.raw c.raw _ s.children ∙ rw other t.found;
          named = t.named;
          counted = omega (arith, t.counted);
          limited = rw add-zero t.limited;
          same_strategy = t.same_strategy;
        })
      ]

  -- One message is handled, and leaves the child known, with one more crash if it reports one.
  handle-Tracks :
      (n : ℕ) (s : SupervisorActor) (msg : SupervisorMessage) (elapsed_at now : ℕ)
      → base_backoff strategy < from_secs (2 ^ 34)
      → n + 1 < 2 ^ 64
      → NotStarted c msg
      → Tracks strategy c name n s
      → (reply : Option (List ChildStatus)) × (s' : SupervisorActor) × (handle s msg elapsed_at now
          ≡ handled reply s')
        × Tracks strategy c name (n + crash_of c msg) s'
  unfolding handle crash_with
  handle-Tracks n s (child_started d new_name) elapsed_at now h small ns t = (
    none,
    _,
    refl,
    record {
      entry = t.entry;
      found = lookup-insert d.raw c.raw _ s.children ∙ ground (arith, t.found);
      named = t.named;
      counted = omega (arith, t.counted);
      limited = rw add-zero t.limited;
      same_strategy = t.same_strategy;
    },
  )
  handle-Tracks n s (child_crashed d reason) elapsed_at now h small ns t =
      let (delay, e) =
        backoff_delay-some s.strategy (new_restart_count (lookup d.raw s.children))
          (rw t.same_strategy h) in
      (
        none,
        _,
        rw (e, crash_with),
        update-Tracks n s d delay elapsed_at now (lookup d.raw s.children) small t refl,
      )
  handle-Tracks n s get_status elapsed_at now h small ns t = (_, s, refl, rw add-zero t)

  -- A child that is known keeps its name and is counted one crash for each `ChildCrashed` that names
  -- it, whatever happens to other children and at whatever times, as long as no `ChildStarted` names
  -- it again; and it is alive only while that count is within `max_restarts`, so once it is beyond,
  -- the child stays dead. The handler does not panic on the way. (Base backoff below 2 ^ 34 seconds,
  -- count below 2 ^ 64.)
  pub handle_all-Tracks :
      (n : ℕ) (s : SupervisorActor) (ds : List Delivery)
      → base_backoff strategy < from_secs (2 ^ 34)
      → n + length ds < 2 ^ 64
      → All (λ (d : Delivery). NotStarted c d.message) ds
      → Tracks strategy c name n s
      → (s' : SupervisorActor) × ((handle_all s ds).1 ≡ some s')
        × Tracks strategy c name (n + crashes c ds) s'
  unfolding handle_all follow
  handle_all-Tracks n s [] h small ns t = (s, refl, rw add-zero t)
  handle_all-Tracks n s (d ∷ ds) h small ns t =
      let (reply, s1, e, t1) =
        handle-Tracks n s d.message d.elapsed_at d.now h (omega arith) ns.0 t in
      let (s2, e2, t2) =
        handle_all-Tracks (n + crash_of c d.message) s1 ds h
          (omega (arith, crash_of-le c d.message)) ns.1 t1 in
      (s2, rw (e, follow) e2, rw (← add_assoc n (crash_of c d.message) (crashes c ds)) t2)

module _ (s s' : SupervisorActor) (c : ActorId) (reason : String) (elapsed_at now : ℕ) where
  crashed_state :
      (count : ℕ) (delay : Option ℕ) (reply : Option (List ChildStatus))
      → crash_with s c count elapsed_at now delay ≡ handled reply s'
      → (d : ℕ) × (delay ≡ some d)
        × (s' ≡ update_crashed s c count d elapsed_at now (lookup c.raw s.children))
  unfolding crash_with
  crashed_state count none reply e = absurd (cc)
  crashed_state count (some d) reply e = (d, refl, cc)

  update-sibling :
      (other : ActorId) (count delay : ℕ) (o : Option ChildEntry)
      → c.raw ≢ other.raw
      → lookup other.raw (update_crashed s c count delay elapsed_at now o).children
        ≡ lookup other.raw s.children
  unfolding update_crashed
  update-sibling other count delay none ne = refl
  update-sibling other count delay (some e) ne = ground (
    arith,
    lookup-insert c.raw other.raw
        (crashed_entry e count (max_restarts s.strategy) delay elapsed_at now) s.children,
  )

  -- One for one: a crash of a child changes nothing of any other child.
  pub crash-sibling :
      (other : ActorId) (reply : Option (List ChildStatus))
      → handle s (child_crashed c reason) elapsed_at now ≡ handled reply s'
      → c.raw ≢ other.raw
      → lookup other.raw s'.children ≡ lookup other.raw s.children
  unfolding handle
  crash-sibling other reply e ne =
      let (d, _, same) = crashed_state _ _ reply e in
      rw same (update-sibling other _ d (lookup c.raw s.children) ne)

  updated_entry :
      (e : ChildEntry) (count d : ℕ) (o : Option ChildEntry)
      → o ≡ some e
      → lookup c.raw (update_crashed s c count d elapsed_at now o).children
        ≡ some (crashed_entry e count (max_restarts s.strategy) d elapsed_at now)
  unfolding update_crashed
  updated_entry e count d o known =
      rw (known, update_crashed) (lookup-insert c.raw c.raw _ s.children ∙ rw (==_self c.raw) refl)

  restarted_entry :
      (e : ChildEntry) (count max delay last : ℕ)
      → e.last_restart_at ≡ some last
      → (crashed_entry e count max delay elapsed_at now).alive ≡ true
      → (delay ≤ elapsed elapsed_at last)
        × (count ≤ max)
        × ((crashed_entry e count max delay elapsed_at now).last_restart_at ≡ some now)
  unfolding crashed_entry backoff_over
  restarted_entry e count max delay last at alive = ground arith

  -- A child that was restarted before and is alive after a crash has been restarted by it: its count
  -- is within the limit, at least the backoff of the new count has passed since the last restart,
  -- and the time of this restart is recorded.
  pub crash-restarts :
      (e e' : ChildEntry) (reply : Option (List ChildStatus)) (last : ℕ)
      → handle s (child_crashed c reason) elapsed_at now ≡ handled reply s'
      → lookup c.raw s.children ≡ some e
      → e.last_restart_at ≡ some last
      → lookup c.raw s'.children ≡ some e'
      → e'.alive ≡ true
      → (delay : ℕ) × (backoff_delay s.strategy e'.restart_count ≡ some delay)
        × (delay ≤ elapsed elapsed_at last)
        × (e'.restart_count ≤ max_restarts s.strategy)
        × (e'.last_restart_at ≡ some now)
  unfolding handle
  crash-restarts e e' reply last h found at found' alive =
      let (d, delay, same) = crashed_state _ _ reply h in
      let count = new_restart_count (lookup c.raw s.children) in
      let there : lookup c.raw s'.children
          ≡ some (crashed_entry e count (max_restarts s.strategy) d elapsed_at now) =
        rw same (updated_entry e count d (lookup c.raw s.children) found) in
      let own : e' ≡ crashed_entry e count (max_restarts s.strategy) d elapsed_at now =
        cc (there, found') in
      let counted : e'.restart_count ≡ count =
        rw own (crashed-limited s.strategy c e.name e count d elapsed_at now).1 in
      let (waited, within, recorded) =
        restarted_entry e count (max_restarts s.strategy) d last at (rw own at alive) in
      (d, rw counted delay, waited, rw counted within, rw own recorded)
