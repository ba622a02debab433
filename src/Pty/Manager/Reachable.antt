-- ===== src/Pty/Manager/Reachable.antt =====
-- Every state that a Manager of pty/manager.go reaches is right.
use streammux.Base.{
  ℕ, ◌≡◌, refl, sym, subst, Bool, true, false, not, ◌||◌, Option, none, some, leb, if_elim, List,
  ◌∷◌, length, arith, Result, ok, err,
}
use streammux.Base.Map.{member}
use streammux.Pty.Values.{PtyError, manager_closed_error, Size}
use streammux.Pty.Config.{ManagerConfig}
use streammux.Pty.Manager.{Bounds, bounds, ProcessSpec, Manager}
use streammux.Pty.Manager.Opening.{begin_open, commit_open, commit_result, finish_open}
use streammux.Pty.Manager.Steps.{
  System, Step, Reachable, new_system, begins, begins_not, aborts, commits, counts_start,
  counts_exit, kills, exits, removes, finishes, attaches, publishes, closes_attachment, resizes,
  subscribes, unsubscribes, begins_close, ends_close, goes_on,
}
use streammux.Pty.Manager.Ending.{end_close}
use streammux.Pty.Manager.Serving.{subscribe}
use streammux.Pty.Manager.Core.{CoreOf, IsManager}
use streammux.Pty.Manager.Starting.{
  Begun, begin_open-Begun, abort_open-Core, commit_open-Core, commit_open-closing,
}
use streammux.Pty.Manager.Touching.{
  kill_session-Core, attach-Core, publish-Core, record_close-Core, commit_resize-Core,
}
use streammux.Pty.Manager.Leaving.{exit_session-Core, remove-Core, finish_removal-Core}
use streammux.Pty.Manager.Closing.{settle_session-Core, begin_close-Core, end_close-Core}

new_system-IsManager : (c : ManagerConfig) → IsManager (bounds c) (new_system c)
new_system-IsManager c = record {
  same = refl;
  registry = record {
    distinct = tt;
    named = λ k s e. ground (arith, e);
    counted = refl;
    once = tt;
    listed = λ k. refl;
    settles_once = tt;
    settles = λ k h. ground (arith, h);
  };
  numbered = record {
    once = tt;
    bounded = omega arith;
    apart = λ k h. refl;
    drawn = λ on k h. ground (arith, h);
  };
  starting_all = refl;
  room = omega arith;
  few = omega arith;
  history = record {
    inv = record { counted = tt; distinct = tt; bytes = refl };
    sessions = λ i k e. ground (arith, e);
    whole = omega arith;
  };
}

module _ (b : Bounds) where
  begins-Core :
      (m m' : Manager) (starts ts : List ℕ) (id : ℕ) (r : Result PtyError ℕ × Manager)
      → Begun (b, 0) starts ts m r
      → r ≡ (ok id, m')
      → CoreOf (b, 0) m' (id ∷ starts) ts
  begins-Core m m' starts ts id r begun e =
      let is : Begun (b, 0) starts ts m (ok id, m') = subst (Begun (b, 0) starts ts m) e begun in
      is.0

  begins_not-Core :
      (m m' : Manager) (starts ts : List ℕ) (x : PtyError) (r : Result PtyError ℕ × Manager)
      → Begun (b, 0) starts ts m r
      → r ≡ (err x, m')
      → CoreOf (b, 0) m' starts ts
  begins_not-Core m m' starts ts x r begun e = subst (Begun (b, 0) starts ts m) e begun

  subscribe-Core :
      (m : Manager) (starts ts : List ℕ)
      → CoreOf (b, 0) m starts ts
      → CoreOf (b, 0) (subscribe m).1 starts ts
  unfolding subscribe
  subscribe-Core m starts ts core =
      if_elim (λ (r : Result PtyError ℕ × Manager). CoreOf (b, 0) r.1 starts ts) m.closing _ _
        (λ _. core)
        λ _.
          if_elim (λ (r : Result PtyError ℕ × Manager). CoreOf (b, 0) r.1 starts ts)
            (leb m.bounds.max_observers (length m.observers)) _ _ (λ _. core) (λ _. core)

  Step-IsManager : (y z : System) → Step y z → IsManager b y → IsManager b z
  Step-IsManager y _ (begins given spec _ id m e) core =
      begins-Core y.manager m y.starts y.settles id _
        (begin_open-Begun y.manager (b, 0) y.starts y.settles core given spec) e
  Step-IsManager y _ (begins_not given spec _ x m e) core =
      begins_not-Core y.manager m y.starts y.settles x _
        (begin_open-Begun y.manager (b, 0) y.starts y.settles core given spec) e
  Step-IsManager y _ (aborts id _ mine) core =
      abort_open-Core y.manager (b, 0) y.starts y.settles core id mine
  Step-IsManager y _ (commits id size now _ mine) core =
      commit_open-Core y.manager (b, 0) y.starts y.settles core id mine size now
  Step-IsManager y _ (counts_start _) core = core
  Step-IsManager y _ (counts_exit _) core = core
  Step-IsManager y _ (kills id _) core =
      kill_session-Core y.manager (b, 0) y.starts y.settles core id
  Step-IsManager y _ (exits id status s _ found lives) core =
      exit_session-Core y.manager (b, 0) y.starts y.settles core id status s found lives
  Step-IsManager y _ (Step.settles id _ mine) core =
      settle_session-Core b y.manager y.starts y.settles core id mine
  Step-IsManager y _ (removes id _) core = remove-Core y.manager (b, 0) y.starts y.settles core id
  Step-IsManager y _ (finishes r _) core =
      finish_removal-Core y.manager (b, 0) y.starts y.settles core r
  Step-IsManager y _ (attaches id options caller _) core =
      attach-Core y.manager (b, 0) y.starts y.settles core id options caller
  Step-IsManager y _ (publishes id bytes _) core =
      publish-Core y.manager (b, 0) y.starts y.settles core id bytes
  Step-IsManager y _ (closes_attachment id why last _) core =
      record_close-Core y.manager (b, 0) y.starts y.settles core id why last
  Step-IsManager y _ (resizes id size answer _) core =
      commit_resize-Core y.manager (b, 0) y.starts y.settles core id size answer
  Step-IsManager y _ (subscribes _) core = subscribe-Core y.manager y.starts y.settles core
  Step-IsManager y _ (unsubscribes id _) core = core
  Step-IsManager y _ (begins_close _) core =
      begin_close-Core y.manager (b, 0) y.starts y.settles core
  Step-IsManager y _ (ends_close _ idle done) core =
      subst (λ ts. CoreOf (b, 0) (end_close y.manager) y.starts ts) (sym done)
        (end_close-Core b y.manager y.starts
          (subst (λ ts. CoreOf (b, 0) y.manager y.starts ts) done core))

-- Whatever order the holds of the Manager's lock come in, its sessions stand under their own IDs, once
-- each; `active` counts those that run or stop, and with the starts that are under way they are at most
-- `MaxSessions`; a session is retained exactly if the list of retained IDs names it, once, only a session
-- that is over is, and they are at most the bound; a session has at most its bound of attachments; the IDs
-- drawn for starts are different and no session's, and as long as IDs are left none of these is beyond the
-- one drawn last; and the history is within its bounds.
pub Reachable-IsManager : (c : ManagerConfig) (y : System) → Reachable c y → IsManager (bounds c) y
Reachable-IsManager c _ (Reachable.starts _) = new_system-IsManager c
Reachable-IsManager c _ (goes_on y z reached step) =
    Step-IsManager (bounds c) y z step (Reachable-IsManager c y reached)

-- In every state that is reached, what `Open` has under the lock is an error, or an ID that is not zero and
-- that no session and no other start has.
pub begin_open-Drawn :
    (c : ManagerConfig) (y : System)
    → Reachable c y
    → (given : Bool) (spec : ProcessSpec)
    → Begun (bounds c, 0) y.starts y.settles y.manager (begin_open given spec y.manager)
begin_open-Drawn c y reached given spec =
    begin_open-Begun y.manager (bounds c, 0) y.starts y.settles (Reachable-IsManager c y reached)
      given spec

commit_open-closing_kept :
    (id : ℕ) (size : Size) (now : ℕ) (m : Manager)
    → (commit_open id size now m).1.closing ≡ m.closing
unfolding commit_open
commit_open-closing_kept id size now m =
    if_elim (λ (r : Bool × Manager). r.1.closing ≡ m.closing)
      (m.closing || leb m.bounds.max_sessions m.active) _ _ (λ _. refl) (λ _. refl)

-- Why `Open` may give up a process that has started: its caller's context, or that the Manager closes.
abbrev pub Opened : Option PtyError → Bool → ℕ → Result PtyError ℕ → Type 0
Opened (some e) closing id r = r ≡ err e
Opened none true id r = r ≡ err manager_closed_error
Opened none false id r = r ≡ ok id

commit_result-Opened :
    (id : ℕ) (was closing registered : Bool)
    → registered ≡ not was
    → closing ≡ was
    → Opened none was id (commit_result id closing registered)
commit_result-Opened id true true false r c = refl
commit_result-Opened id true false false r c = absurd (ground (arith, c))
commit_result-Opened id true closing true r c = absurd (ground (arith, r))
commit_result-Opened id false closing true r c = refl
commit_result-Opened id false closing false r c = absurd (ground (arith, r))

-- In every state that is reached, `Open` gives up a process that it has started with the error of its
-- caller's context if that is done, and otherwise only where the Manager closes, with `ErrManagerClosed`;
-- in all other cases it returns the session, since the starts that are counted leave room for it.
pub finish_open-Opened :
    (c : ManagerConfig) (y : System) (id : ℕ)
    → Reachable c y
    → member id y.starts ≡ true
    → (done : Option PtyError) (size : Size) (now : ℕ)
    → Opened done y.manager.closing id (finish_open done id size now y.manager).0
unfolding finish_open
finish_open-Opened c y id reached mine (some e) size now = refl
finish_open-Opened c y id reached mine none size now =
    commit_result-Opened id y.manager.closing (commit_open id size now y.manager).1.closing
      (commit_open id size now y.manager).0
      (commit_open-closing y.manager (bounds c, 0) y.starts y.settles
        (Reachable-IsManager c y reached) id mine size now)
      (commit_open-closing_kept id size now y.manager)
