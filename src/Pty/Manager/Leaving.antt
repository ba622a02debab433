-- ===== src/Pty/Manager/Leaving.antt =====
-- How a session of pty/manager.go ends and goes keeps the Manager right: `run`, `Remove`,
-- `finishRetainedRemoval` and `Close`.
use streammux.Base.{
  ℕ, suc, ◌-◌, ◌≡◌, refl, sym, ap, ◌∙◌, subst, true, false, not, ◌||◌, Option, none, some, List, [],
  ◌∷◌, ◌++◌, length, if◌then◌else◌, ◌==◌, arith, if_elim, Result,
}
use streammux.Base.Map.{
  lookup, delete, member, Distinct, remove_key, member-append, Distinct-snoc, member-remove_key,
  Distinct-remove_key, le-sum_of, length-remove_key-le,
}
use streammux.Pty.Values.{PtyError, ExitStatus}
use streammux.Pty.History.{remove_history}
use streammux.Pty.History.Bounds.{remove_history-IsWithin}
use streammux.Pty.Observer.{EventKind}
use streammux.Pty.Manager.{Bounds, Session, Manager, is_live, is_exited}
use streammux.Pty.Manager.Removal.{
  Removal, begin_removal, remove_session, is_evicted, drop_session, finish_found, finish_removal,
  removal_of, remove_found, remove,
}
use streammux.Pty.Manager.Ending.{ended, exit_found, exit_session, kept_session, retain_session}
use streammux.Pty.Manager.Registry.{live_count, replace-IsRegistry, replace-IsNumbered}
use streammux.Pty.Manager.Core.{IsCore, CoreOf, is_named, found_by_id, delete-IsCore}
use streammux.Pty.Manager.Eviction.{leave-IsCore}

-- A session that is over and neither retained nor leaving.
abbrev pub Over : Session → Type 0
Over s = (is_exited s.state ≡ true) × ((s.retained ≡ false) × (s.removing ≡ false))

module _ (m : Manager) (slack : Bounds × ℕ) (starts ts : List ℕ)
    (core : CoreOf slack m starts ts) where
  exit_found-Core :
      (id : ℕ) (status : ExitStatus) (s : Session)
      → lookup id m.sessions ≡ some s
      → is_live s.state ≡ true
      → CoreOf slack (exit_found id status (some s) m).1 starts (id ∷ ts)
  exit_found-Core id status s found lives =
      let good = (is_named m slack id s starts ts core found).1 in
      let (off, stays) = good.live lives in
      let new : member id ts ≡ false = ground (arith, core.registry.settles id, found, lives) in
      let some_live = le-sum_of live_count id s m.sessions found in
      record {
        same = core.same;
        registry =
            replace-IsRegistry m.bounds.max_attachments id s (ended status s) m.sessions
              m.retained_exited ts m.active core.registry found refl
              (record {
                phase = refl;
                live = λ h. ground (arith, h);
                apart = good.apart;
                over = λ _. refl;
                few = good.few;
              })
              m.retained_exited (id ∷ ts) (m.active - 1)
              (ground (arith, lives, some_live, core.registry.counted)) core.registry.once
              (λ j. ground (arith, off, core.registry.listed id, found))
              (new, core.registry.settles_once) (λ j h. ground (arith, h, off, stays));
        numbered =
            replace-IsNumbered id s m.sessions starts m.next_session m.exhausted core.numbered
              (ended status s) found;
        starting_all = core.starting_all;
        room = omega (arith, core.room);
        few = core.few;
        history = core.history;
      }

  pub exit_session-Core :
      (id : ℕ) (status : ExitStatus) (s : Session)
      → lookup id m.sessions ≡ some s
      → is_live s.state ≡ true
      → CoreOf slack (exit_session id status m).1 starts (id ∷ ts)
  unfolding exit_session
  exit_session-Core id status s found lives =
      subst (λ o. CoreOf slack (exit_found id status o m).1 starts (id ∷ ts)) (sym found)
        (exit_found-Core id status s found lives)

  pub retain_session-Core :
      (id : ℕ) (s : Session)
      → lookup id m.sessions ≡ some s
      → Over s
      → CoreOf (slack.0, suc slack.1) (retain_session id s m) starts (remove_key id ts)
  retain_session-Core id s found (over, (off, stays)) =
      let (same, good) = is_named m slack id s starts ts core found in
      let new : member s.id m.retained_exited ≡ false =
        ground (arith, core.registry.listed id, found, off, same) in
      record {
        same = core.same;
        registry =
            replace-IsRegistry m.bounds.max_attachments id s (kept_session s) m.sessions
              m.retained_exited ts m.active core.registry found refl
              (record {
                phase = good.phase;
                live = λ h. ground (arith, h, over);
                apart = λ _. stays;
                over = good.over;
                few = omega arith;
              })
              (m.retained_exited ++ (s.id ∷ [])) (remove_key id ts) m.active refl
              (Distinct-snoc s.id m.retained_exited core.registry.once new)
              (λ j. ground (arith, member-append j m.retained_exited (s.id ∷ []), same))
              (Distinct-remove_key id ts core.registry.settles_once)
              (λ j h. ground (arith, h, member-remove_key id j ts core.registry.settles_once));
        numbered =
            replace-IsNumbered id s m.sessions starts m.next_session m.exhausted core.numbered
              (kept_session s) found;
        starting_all = core.starting_all;
        room = core.room;
        few = omega (arith, core.few, one_more m.retained_exited);
        history = core.history;
      }
    where
      one_more : (xs : List ℕ) → length (xs ++ (s.id ∷ [])) ≡ suc (length xs)
      one_more [] = refl
      one_more (x ∷ xs) = ap suc (one_more xs)

  -- The Manager without a session, whatever the kind of the removal.
  pub drop_session-Core :
      (id : ℕ) (s s' : Session) (kind : EventKind) (ts' : List ℕ)
      → lookup id m.sessions ≡ some s
      → s'.id ≡ s.id
      → is_live s.state ≡ false
      → Distinct ts'
      → ((j : ℕ) → member j ts' ≡ true → (if id == j then false else member j ts) ≡ true)
      → CoreOf slack (drop_session s' kind m) starts ts'
  unfolding remove_session
  drop_session-Core id s s' kind ts' found same idle once others =
      let is : id ≡ s'.id = sym (same ∙ (is_named m slack id s starts ts core found).0) in
      let gone : CoreOf slack (remove_session s'.id m) starts ts' =
        subst
          (λ i.
            IsCore m.bounds slack (delete i m.sessions) (remove_key i m.retained_exited) ts'
              m.active m.starting starts m.next_session m.exhausted (remove_history i m.history))
          is
          (delete-IsCore m slack id s starts ts core found ts' (remove_history id m.history) idle
            once others (remove_history-IsWithin id m.history core.history)) in
      if_elim (λ (x : Manager). CoreOf slack x starts ts') (is_evicted kind) _ _ (λ _. gone)
        (λ _. gone)

  finish_found-Core :
      (r : Removal) (o : Option Session)
      → lookup r.session m.sessions ≡ o
      → CoreOf slack (finish_found r o m) starts ts
  finish_found-Core r none e = core
  finish_found-Core r (some s) e =
      let good = (is_named m slack r.session s starts ts core e).1 in
      if_elim (λ (x : Manager). CoreOf slack x starts ts) (not s.removing) _ _ (λ _. core)
        λ leaves.
          drop_session-Core r.session s s r.kind ts e refl (ground (arith, leaves, good.live))
            core.registry.settles_once
            (λ j h. ground (arith, h, core.registry.settles r.session, e, leaves))

  pub finish_removal-Core : (r : Removal) → CoreOf slack (finish_removal r m) starts ts
  unfolding finish_removal
  finish_removal-Core r = finish_found-Core r (lookup r.session m.sessions) refl

  remove_found-Core :
      (id : ℕ) (o : Option Session)
      → lookup id m.sessions ≡ o
      → CoreOf slack (remove_found o m).1 starts ts
  unfolding begin_removal
  remove_found-Core id none e = core
  remove_found-Core id (some s) e =
      if_elim (λ (x : Result PtyError Removal × Manager). CoreOf slack x.1 starts ts)
        (is_live s.state) _ _ (λ _. core)
        λ _.
          if_elim (λ o. CoreOf slack (removal_of m o).1 starts ts) (not s.retained || s.removing) _
            _ (λ _. core)
            λ free.
              leave-IsCore m slack s.id s starts ts core (found_by_id m slack id s starts ts core e)
                (ground (arith, free)) slack.1
                (omega (arith, core.few, length-remove_key-le s.id m.retained_exited))

  pub remove-Core : (id : ℕ) → CoreOf slack (remove id m).1 starts ts
  unfolding remove
  remove-Core id =
      if_elim (λ (x : Result PtyError Removal × Manager). CoreOf slack x.1 starts ts) m.closing _ _
        (λ _. core) (λ _. remove_found-Core id (lookup id m.sessions) refl)
