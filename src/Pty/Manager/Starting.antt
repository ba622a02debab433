-- ===== src/Pty/Manager/Starting.antt =====
-- `Manager.Open` of pty/manager.go keeps the Manager right, draws IDs that are nobody's, and never has to
-- give up a session that has started for the number of sessions.
use streammux.Base.{
  ℕ, ◌+◌, ◌^◌, ◌≡◌, ◌<◌, refl, Bool, true, false, not, ◌||◌, Option, none, some, List, ◌∷◌, leb,
  ◌==◌, arith, is_some, if_elim, Result, ok, err, Option-cases,
}
use streammux.Base.Map.{lookup, member, remove_key, length-remove_key}
use streammux.Pty.Values.{PtyError, Size, size_validate}
use streammux.Pty.Manager.{Bounds, ProcessSpec, spec_validate, Manager, tick}
use streammux.Pty.Manager.Opening.{
  draw_id, reserve_session, after_check, begin_open, abort_open, new_session, register_session,
  commit_open,
}
use streammux.Pty.Manager.Registry.{insert-IsRegistry, insert-IsNumbered, forget-IsNumbered}
use streammux.Pty.Manager.Core.{CoreOf}

-- What `Open` has under the lock before it starts the process: an ID that no session and no other start
-- has, and that is not zero, or an error.
abbrev pub Begun : Bounds × ℕ → List ℕ → List ℕ → Manager → Result PtyError ℕ × Manager → Type 0
Begun slack starts ts before (ok id, m) =
    CoreOf slack m (id ∷ starts) ts
    × ((0 < id) × ((lookup id m.sessions ≡ none) × (member id starts ≡ false)))
Begun slack starts ts before (err e, m) = CoreOf slack m starts ts

module _ (m : Manager) (slack : Bounds × ℕ) (starts ts : List ℕ)
    (core : CoreOf slack m starts ts) where
  unused :
      (id : ℕ)
      → m.exhausted ≡ false
      → m.next_session < id
      → (is_some (lookup id m.sessions) || member id starts) ≡ false
  unused id on new = ground (arith, core.numbered.drawn on id)

  drawn_next :
      (id : ℕ)
      → id ≡ tick m.next_session
      → (id == 0) ≡ false
      → (id ≡ m.next_session + 1) × (id < 2 ^ 64)
  drawn_next id is nonzero = ground (arith, core.numbered.bounded)

  draw_id-Begun :
      (id : ℕ)
      → id ≡ tick m.next_session
      → m.exhausted ≡ false
      → m.active + m.starting < m.bounds.max_sessions
      → Begun slack starts ts m (draw_id id m)
  draw_id-Begun id is on free =
      if_elim (Begun slack starts ts m) (id == 0) _ _
        (λ zeroed. record {
          same = core.same;
          registry = core.registry;
          numbered = record {
            once = core.numbered.once;
            bounded = ground arith;
            apart = core.numbered.apart;
            drawn = λ off. absurd (ground (arith, off));
          };
          starting_all = core.starting_all;
          room = core.room;
          few = core.few;
          history = core.history;
        })
        λ nonzero.
          let (next, small) = drawn_next id is nonzero in
          let new = unused id on (omega (arith, next)) in
          (
            record {
              same = core.same;
              registry = core.registry;
              numbered = record {
                once = (ground (arith, new), core.numbered.once);
                bounded = small;
                apart = λ k h. ground (arith, h, new, core.numbered.apart k);
                drawn = λ _ k h. ground (arith, h, next, core.numbered.drawn on k);
              };
              starting_all = omega (arith, core.starting_all);
              room = omega (arith, free);
              few = core.few;
              history = core.history;
            },
            (
              ground (arith, nonzero),
              (ground (arith, new, Option-cases (lookup id m.sessions)), ground (arith, new)),
            ),
          )

  reserve_session-Begun : Begun slack starts ts m (reserve_session m)
  unfolding reserve_session
  reserve_session-Begun =
      if_elim (Begun slack starts ts m) m.closing _ _ (λ _. core)
        λ going.
          if_elim (Begun slack starts ts m) (leb m.bounds.max_sessions (m.active + m.starting)) _ _
            (λ _. core)
            λ free.
              if_elim (Begun slack starts ts m) m.exhausted _ _ (λ _. core)
                λ on. draw_id-Begun (tick m.next_session) refl on (ground (arith, free))

  after_check-Begun :
      (e : Option PtyError) (next : Result PtyError ℕ × Manager)
      → Begun slack starts ts m next
      → Begun slack starts ts m (after_check e next m)
  after_check-Begun none next b = b
  after_check-Begun (some x) next b = core

  pub begin_open-Begun :
      (given : Bool) (spec : ProcessSpec) → Begun slack starts ts m (begin_open given spec m)
  unfolding begin_open
  begin_open-Begun given spec =
      if_elim (Begun slack starts ts m) (not given) _ _ (λ _. core)
        λ _.
          after_check-Begun (spec_validate spec) _
            (after_check-Begun (size_validate spec.initial_size) _ reserve_session-Begun)

  module _ (id : ℕ) (mine : member id starts ≡ true) where
    pub abort_open-Core : CoreOf slack (abort_open m) (remove_key id starts) ts
    abort_open-Core = record {
      same = core.same;
      registry = core.registry;
      numbered = forget-IsNumbered id m.sessions starts m.next_session m.exhausted core.numbered;
      starting_all = omega (arith, core.starting_all, length-remove_key id starts mine);
      room = omega (arith, core.room);
      few = core.few;
      history = core.history;
    }

    register-Core :
        (size : Size) (now : ℕ)
        → CoreOf slack
            (register_session (new_session id size now) (abort_open m))
            (remove_key id starts)
            ts
    register-Core size now =
        let s = new_session id size now in
        let fresh : lookup id m.sessions ≡ none =
          ground (arith, core.numbered.apart id mine, Option-cases (lookup id m.sessions)) in
        record {
          same = core.same;
          registry =
              insert-IsRegistry m.bounds.max_attachments id s m.sessions m.retained_exited ts
                m.active core.registry fresh refl
                (record {
                  phase = refl;
                  live = λ _. (refl, refl);
                  apart = λ _. refl;
                  over = λ h. ground (arith, h);
                  few = omega arith;
                })
                refl;
          numbered =
              insert-IsNumbered id s m.sessions starts m.next_session m.exhausted core.numbered
                mine;
          starting_all = omega (arith, core.starting_all, length-remove_key id starts mine);
          room = omega (arith, core.room, core.starting_all, length-remove_key id starts mine);
          few = core.few;
          history = core.history;
        }

    pub commit_open-Core :
        (size : Size) (now : ℕ)
        → CoreOf slack (commit_open id size now m).1 (remove_key id starts) ts
    unfolding commit_open
    commit_open-Core size now =
        if_elim (λ (r : Bool × Manager). CoreOf slack r.1 (remove_key id starts) ts)
          (m.closing || leb m.bounds.max_sessions m.active) _ _ (λ _. abort_open-Core)
          (λ _. register-Core size now)

    -- A session whose process has started is refused only where the Manager closes: there is room for it
    -- as long as its start was counted.
    pub commit_open-closing :
        (size : Size) (now : ℕ) → (commit_open id size now m).0 ≡ not m.closing
    unfolding commit_open
    commit_open-closing size now =
        ground (arith, core.room, core.starting_all, length-remove_key id starts mine)
