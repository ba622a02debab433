-- ===== src/Pty/Manager/Given.antt =====
-- No hold of the lock of pty/manager.go but the first of `Open` gives an ID, and none is given twice.
use streammux.Base.{
  ℕ, ◌+◌, ◌≡◌, ◌≤◌, ◌<◌, ◌^◌, refl, sym, ap, ◌∙◌, subst, Bool, true, false, not, Option, none, some,
  ◌∷◌, leb, ◌==◌, arith, if_elim, Result, ok, err,
}
use streammux.Base.Map.{lookup, member, Distinct}
use streammux.Pty.Values.{PtyError, size_validate}
use streammux.Pty.Config.{ManagerConfig}
use streammux.Pty.Manager.{ProcessSpec, spec_validate, Manager, tick}
use streammux.Pty.Manager.Opening.{reserve_session, after_check, begin_open}
use streammux.Pty.Manager.Removal.{Removal, finish_removal, remove}
use streammux.Pty.Manager.Ending.{
  kill_session, exit_session, settle_session, begin_close, end_close,
}
use streammux.Pty.Manager.Attaching.{publish}
use streammux.Pty.Manager.Serving.{record_close, commit_resize}
use streammux.Pty.Manager.Steps.{
  System, Step, Reachable, begins, begins_not, aborts, commits, counts_start, counts_exit, kills,
  exits, removes, finishes, attaches, publishes, closes_attachment, resizes, subscribes,
  unsubscribes, begins_close, ends_close, goes_on,
}
use streammux.Pty.Manager.Reachable.{Reachable-IsManager}
use streammux.Pty.Manager.Keeping.{
  KeepsIds, attach-KeepsIds, close_found-KeepsIds, commit_open-KeepsIds, exit_found-KeepsIds,
  finish_found-KeepsIds, kill_found-KeepsIds, publish_found-KeepsIds, remove_found-KeepsIds,
  remove_histories-KeepsIds, settle_found-KeepsIds, size_found-KeepsIds, subscribe-KeepsIds,
}

-- What the first hold of `Open` does to the IDs.
abbrev DrawnFrom : Manager → Result PtyError ℕ × Manager → Type 0
DrawnFrom m (err e, m') = KeepsIds m m'
DrawnFrom m (ok id, m') =
    (m.exhausted ≡ false)
    × ((id ≡ tick m.next_session) × ((id == 0) ≡ false × (m'.next_session ≡ id)))

module _ (m : Manager) where
  after_check-DrawnFrom :
      (e : Option PtyError) (next : Result PtyError ℕ × Manager)
      → DrawnFrom m next
      → DrawnFrom m (after_check e next m)
  after_check-DrawnFrom none next h = h
  after_check-DrawnFrom (some e) next h = λ on. (on, refl)

  reserve_session-DrawnFrom : DrawnFrom m (reserve_session m)
  unfolding reserve_session
  reserve_session-DrawnFrom =
      if_elim (DrawnFrom m) m.closing _ _ (λ _ h. (h, refl))
        λ _.
          if_elim (DrawnFrom m) (leb m.bounds.max_sessions (m.active + m.starting)) _ _
            (λ _ h. (h, refl))
            λ _.
              if_elim (DrawnFrom m) m.exhausted _ _ (λ _ h. (h, refl))
                λ on.
                  if_elim (DrawnFrom m) (tick m.next_session == 0) _ _
                    (λ _ h. absurd (ground (arith, h))) (λ some_id. (on, (refl, (some_id, refl))))

  begin_open-DrawnFrom : (given : Bool) (spec : ProcessSpec) → DrawnFrom m (begin_open given spec m)
  unfolding begin_open
  begin_open-DrawnFrom given spec =
      if_elim (DrawnFrom m) (not given) _ _ (λ _ h. (h, refl))
        λ _.
          after_check-DrawnFrom (spec_validate spec) _
            (after_check-DrawnFrom (size_validate spec.initial_size) _ reserve_session-DrawnFrom)

-- The IDs that `Open` has given: once each, none of them zero, and as long as they are not used up none is
-- beyond the one given last.
pub record IsGiven (y : System) : Type 0 where
  pub once : Distinct y.given
  pub nonzero : member 0 y.given ≡ false
  pub bounded :
      y.manager.exhausted ≡ false → (k : ℕ) → member k y.given ≡ true → k ≤ y.manager.next_session

keeps-IsGiven :
    (y z : System) → IsGiven y → z.given ≡ y.given → KeepsIds y.manager z.manager → IsGiven z
keeps-IsGiven y z g same keeps = record {
  once = subst Distinct (sym same) g.once;
  nonzero = ap (member 0) same ∙ g.nonzero;
  bounded = λ on k h.
      let (before, next) = keeps on in
      omega (arith, g.bounded before k (sym (ap (member k) same) ∙ h), next);
}

begins-IsGiven :
    (y : System) (id : ℕ) (m : Manager)
    → IsGiven y
    → y.manager.next_session < 2 ^ 64
    → DrawnFrom y.manager (ok id, m)
    → IsGiven (record y { manager = m; starts = id ∷ y.starts; given = id ∷ y.given })
begins-IsGiven y id m g range (on, (is, (some_id, next))) =
    let above : id ≡ y.manager.next_session + 1 = ground (arith, is, some_id) in
    record {
      once = (ground (arith, g.bounded on id, above), g.once);
      nonzero = ground (arith, some_id, g.nonzero);
      bounded = λ _ k h. ground (arith, h, g.bounded on k, above, next);
    }

Step-IsGiven : (y z : System) → Step y z → IsGiven y → y.manager.next_session < 2 ^ 64 → IsGiven z
unfolding kill_session exit_session settle_session remove finish_removal publish record_close
    commit_resize begin_close end_close
Step-IsGiven y _ (begins given spec _ id m e) g range =
    begins-IsGiven y id m g range
      (subst (DrawnFrom y.manager) e (begin_open-DrawnFrom y.manager given spec))
Step-IsGiven y _ (begins_not given spec _ x m e) g range =
    keeps-IsGiven y _ g refl
      (subst (DrawnFrom y.manager) e (begin_open-DrawnFrom y.manager given spec))
Step-IsGiven y _ (aborts id _ mine) g range = keeps-IsGiven y _ g refl (λ h. (h, refl))
Step-IsGiven y _ (commits id size now _ mine) g range =
    keeps-IsGiven y _ g refl (commit_open-KeepsIds y.manager id size now)
Step-IsGiven y _ (counts_start _) g range = keeps-IsGiven y _ g refl (λ h. (h, refl))
Step-IsGiven y _ (counts_exit _) g range = keeps-IsGiven y _ g refl (λ h. (h, refl))
Step-IsGiven y _ (kills id _) g range =
    keeps-IsGiven y _ g refl (kill_found-KeepsIds y.manager id (lookup id y.manager.sessions))
Step-IsGiven y _ (exits id status s _ found lives) g range =
    keeps-IsGiven y _ g refl
      (exit_found-KeepsIds y.manager id status (lookup id y.manager.sessions))
Step-IsGiven y _ (Step.settles id _ mine) g range =
    keeps-IsGiven y _ g refl (settle_found-KeepsIds id (lookup id y.manager.sessions) y.manager)
Step-IsGiven y _ (removes id _) g range = keeps-IsGiven y _ g refl (
    if_elim (λ (x : Result PtyError Removal × Manager). KeepsIds y.manager x.1) y.manager.closing _
      _ (λ _ h. (h, refl)) (λ _. remove_found-KeepsIds y.manager (lookup id y.manager.sessions)))
Step-IsGiven y _ (finishes r _) g range =
    keeps-IsGiven y _ g refl
      (finish_found-KeepsIds y.manager r (lookup r.session y.manager.sessions))
Step-IsGiven y _ (attaches id options caller _) g range =
    keeps-IsGiven y _ g refl (attach-KeepsIds y.manager id options caller)
Step-IsGiven y _ (publishes id bytes _) g range =
    keeps-IsGiven y _ g refl
      (publish_found-KeepsIds y.manager id bytes (lookup id y.manager.sessions))
Step-IsGiven y _ (closes_attachment id why last _) g range =
    keeps-IsGiven y _ g refl
      (close_found-KeepsIds y.manager id why last (lookup id y.manager.attachments))
Step-IsGiven y _ (resizes id size answer _) g range =
    keeps-IsGiven y _ g refl
      (size_found-KeepsIds y.manager id size answer (lookup id y.manager.sessions))
Step-IsGiven y _ (subscribes _) g range = keeps-IsGiven y _ g refl (subscribe-KeepsIds y.manager)
Step-IsGiven y _ (unsubscribes id _) g range = keeps-IsGiven y _ g refl (λ h. (h, refl))
Step-IsGiven y _ (begins_close _) g range = keeps-IsGiven y _ g refl (λ h. (h, refl))
Step-IsGiven y _ (ends_close _ idle done) g range =
    keeps-IsGiven y _ g refl (remove_histories-KeepsIds y.manager.sessions y.manager)

-- In every state that is reached, the IDs that `Open` has given to the sessions it started, those that are
-- gone or were given up among them, are all different and not zero, and as long as they are not used
-- up none is beyond the one given last.
pub Reachable-IsGiven : (c : ManagerConfig) (y : System) → Reachable c y → IsGiven y
Reachable-IsGiven c _ (Reachable.starts _) = record {
  once = tt;
  nonzero = refl;
  bounded = λ on k h. ground (arith, h);
}
Reachable-IsGiven c _ (goes_on y z reached step) =
    Step-IsGiven y z step (Reachable-IsGiven c y reached)
      (Reachable-IsManager c y reached).numbered.bounded
