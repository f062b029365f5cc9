-- ===== src/Timer/Collect.antt =====
-- src/timer/service.rs: the loop that takes the due timers out of the list.
use runact.Prelude.{
  length-append, if◌then◌else◌, ℕ, ◌+◌, ◌≡◌, refl, ap, sym, ◌∙◌, Bool, true, false, not, none, some,
  List, [], ◌∷◌, ◌++◌, append-nil, append_assoc, length, get_elem?, arith,
}
use runact.Timer.{
  collect_at, collect_entry, collect_entry, TimerEntry, TimerService, retain, remove, is_due,
  collect, poll,
}

module _ {M : Type 0} where
  get_elem?-middle :
      (xs : List (TimerEntry M)) (t : TimerEntry M) (ts : List (TimerEntry M))
      → get_elem? (xs ++ t ∷ ts) (length xs) ≡ some t
  get_elem?-middle [] t ts = refl
  get_elem?-middle (x ∷ xs) t ts = get_elem?-middle xs t ts

  get_elem?-end : (xs : List (TimerEntry M)) → get_elem? xs (length xs) ≡ none
  get_elem?-end [] = refl
  get_elem?-end (x ∷ xs) = get_elem?-end xs

  remove-middle :
      (xs : List (TimerEntry M)) (t : TimerEntry M) (ts : List (TimerEntry M))
      → remove (xs ++ t ∷ ts) (length xs) ≡ xs ++ ts
  unfolding remove
  remove-middle [] t ts = refl
  remove-middle (x ∷ xs) t ts = ap (λ ys. x ∷ ys) (remove-middle xs t ts)

  abbrev go_on :
      (fuel now : ℕ)
      → ℕ × List (TimerEntry M) × List (TimerEntry M)
      → List (TimerEntry M) × List (TimerEntry M)
  go_on fuel now p = collect fuel now p.0 p.1 p.2

  -- What the loop leaves from an index on, where what stands before it was not due.
  abbrev partitioned :
      (now : ℕ) (kept ts due : List (TimerEntry M)) → List (TimerEntry M) × List (TimerEntry M)
  partitioned now kept ts due =
      (kept ++ retain (λ t. not (is_due now t)) ts, due ++ retain (is_due now) ts)

  module _ (now : ℕ) (ts : List (TimerEntry M))
      (rest : (kept due : List (TimerEntry M))
        → collect (length ts) now (length kept) (kept ++ ts) due
          ≡ partitioned now kept ts due) where
    -- One turn at an entry `t`, whether or not it is due.
    collect-entry :
        (kept : List (TimerEntry M)) (t : TimerEntry M) (due : List (TimerEntry M)) (b : Bool)
        → go_on (length ts) now (collect_entry b (length kept) t (kept ++ t ∷ ts) due) ≡ (
          kept
              ++ (if not b
                  then t ∷ retain (λ t'. not (is_due now t')) ts
                  else retain (λ t'. not (is_due now t')) ts),
          due ++ (if b then t ∷ retain (is_due now) ts else retain (is_due now) ts),
        )
    unfolding collect_entry
    collect-entry kept t due true =
        ap (λ xs. collect (length ts) now (length kept) xs (due ++ t ∷ []))
          (remove-middle kept t ts)
        ∙ rest kept (due ++ t ∷ [])
        ∙ ap (λ d. (kept ++ retain (λ t'. not (is_due now t')) ts, d))
            (append_assoc due (t ∷ []) (retain (is_due now) ts))
    collect-entry kept t due false =
        let position : length kept + 1 ≡ length (kept ++ t ∷ []) =
          omega (arith, length-append kept (t ∷ [])) in
        ap (λ i. collect (length ts) now i (kept ++ t ∷ ts) due) position
        ∙ ap (λ xs. collect (length ts) now (length (kept ++ t ∷ [])) xs due)
            (sym (append_assoc kept (t ∷ []) ts))
        ∙ rest (kept ++ t ∷ []) due
        ∙ ap (λ k. (k, due ++ retain (is_due now) ts))
            (append_assoc kept (t ∷ []) (retain (λ t'. not (is_due now t')) ts))

  collect-from :
      (now : ℕ) (kept ts due : List (TimerEntry M))
      → collect (length ts) now (length kept) (kept ++ ts) due ≡ partitioned now kept ts due
  unfolding collect retain
  collect-from now kept [] due = rw (append-nil due) refl
  collect-from now kept (t ∷ ts) due =
      ap (λ e. go_on (length ts) now (collect_at now (length kept) e (kept ++ t ∷ ts) due))
        (get_elem?-middle kept t ts)
      ∙ collect-entry now ts (λ kept' due'. collect-from now kept' ts due') kept t due
          (is_due now t)

  -- The loop, which removes from the list while it goes over it, is a partition: exactly the timers
  -- whose time has come are taken out, in their order, and the others stay in theirs.
  pub poll_lem :
      (now : ℕ) (s : TimerService M)
      → ((poll now s).due ≡ retain (is_due now) s.timers)
        × ((poll now s).timers ≡ retain (λ t. not (is_due now t)) s.timers)
  unfolding poll
  poll_lem now s = let e = collect-from now [] s.timers [] in (ap (λ p. p.1) e, ap (λ p. p.0) e)
