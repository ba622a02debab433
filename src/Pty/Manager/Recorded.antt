-- ===== src/Pty/Manager/Recorded.antt =====
-- In every state that a Manager of pty/manager.go reaches, what it keeps of a session is its latest output.
use streammux.Base.{
  ℕ, ◌+◌, ◌≡◌, refl, ap, ◌∙◌, subst, Bool, true, false, not, ◌&&◌, ◌||◌, Option, none, some, List,
  [], ◌∷◌, length, ltb, leb, ◌==◌, arith, if_elim, Result, is_some, Option-cases, ℕ_discrete,
}
use streammux.Base.Map.{Map, lookup, member}
use streammux.Pty.Values.{PtyError, Size, size_validate}
use streammux.Pty.Config.{ManagerConfig}
use streammux.Pty.History.{remove_history}
use streammux.Pty.History.Recent.{chunks_at}
use streammux.Pty.Manager.{
  Bounds, bounds, ProcessSpec, spec_validate, Session, Manager, is_running, tick,
}
use streammux.Pty.Manager.Opening.{
  reserve_session, after_check, begin_open, new_session, commit_open,
}
use streammux.Pty.Manager.Removal.{Removal, finish_removal, remove, begin_evictions}
use streammux.Pty.Manager.Ending.{
  kill_session, exit_session, retain_session, settle_found, settle_session, stop_all, begin_close,
  remove_histories, end_close,
}
use streammux.Pty.Manager.Attaching.{
  AttachOptions, AttachResult, Caller, attach, attach_found, attach_done, attach_session, is_known,
  is_attachable, publish,
}
use streammux.Pty.Manager.Serving.{close_found, record_close, commit_resize, subscribe}
use streammux.Pty.Manager.Steps.{
  System, Step, Reachable, begins, begins_not, aborts, commits, counts_start, counts_exit, kills,
  exits, removes, finishes, attaches, publishes, closes_attachment, resizes, subscribes,
  unsubscribes, begins_close, ends_close, goes_on,
}
use streammux.Pty.Observer.{EventKind}
use streammux.Pty.Manager.Core.{CoreOf, IsManager, found_by_id}
use streammux.Pty.Manager.Leaving.{retain_session-Core}
use streammux.Pty.Manager.Closing.{stopped, lookup-stop_all, settles-Over}
use streammux.Pty.Manager.Reachable.{Reachable-IsManager}
use streammux.Pty.Manager.Sequences.{
  IsRecorded, IsRecordedAt, last_of, same-IsRecorded, fresh-IsRecorded, gone_chunks,
  chunks_of_others,
}
use streammux.Pty.Manager.Recording.{
  RecordedBy, kill_found-RecordedBy, exit_found-RecordedBy, size_found-RecordedBy,
  publish_found-RecordedBy, let_go_found-RecordedBy, add_attachment-RecordedBy,
  drop_session-RecordedBy, finish_found-RecordedBy, remove_found-RecordedBy,
  retain_session-RecordedBy, evict_loop-RecordedBy,
}

module _ (m : Manager) (slack : Bounds × ℕ) (starts ts : List ℕ) (core : CoreOf slack m starts ts)
    (r : RecordedBy m) where
  attach_session-RecordedBy :
      (s : Session) (options : AttachOptions) (caller : Caller)
      → lookup s.id m.sessions ≡ some s
      → RecordedBy (attach_session s options caller m).1
  unfolding attach_session
  attach_session-RecordedBy s options caller found =
      if_elim (λ (x : Result PtyError (ℕ × AttachResult) × Manager). RecordedBy x.1) m.closing _ _
        (λ _. r)
        λ _.
          if_elim (λ (x : Result PtyError (ℕ × AttachResult) × Manager). RecordedBy x.1)
            (not (is_attachable s)) _ _ (λ _. r)
            λ _.
              if_elim (λ (x : Result PtyError (ℕ × AttachResult) × Manager). RecordedBy x.1)
                (leb m.bounds.max_attachments (length s.attached)) _ _ (λ _. r)
                λ _.
                  if_elim (λ (x : Result PtyError (ℕ × AttachResult) × Manager). RecordedBy x.1)
                    (ltb s.last_sequence options.resume_after) _ _ (λ _. r)
                    λ _.
                      add_attachment-RecordedBy
                        (record m { next_attachment = tick m.next_attachment }) slack starts ts core
                        r (tick m.next_attachment) s options caller found

  attach_found-RecordedBy :
      (id : ℕ) (o : Option Session) (options : AttachOptions) (caller : Caller)
      → lookup id m.sessions ≡ o
      → RecordedBy (attach_found o options caller m).1
  attach_found-RecordedBy id none options caller e =
      if_elim (λ (x : Result PtyError (ℕ × AttachResult) × Manager). RecordedBy x.1) m.closing _ _
        (λ _. r) (λ _. r)
  attach_found-RecordedBy id (some s) options caller e =
      attach_session-RecordedBy s options caller (found_by_id m slack id s starts ts core e)

  attach_done-RecordedBy :
      (e : Option PtyError) (next : Result PtyError (ℕ × AttachResult) × Manager)
      → RecordedBy next.1
      → RecordedBy (attach_done e next m).1
  attach_done-RecordedBy none next h = h
  attach_done-RecordedBy (some e) next h = r

  attach-RecordedBy :
      (id : ℕ) (options : AttachOptions) (caller : Caller)
      → RecordedBy (attach id options caller m).1
  unfolding attach
  attach-RecordedBy id options caller =
      if_elim (λ (x : Result PtyError (ℕ × AttachResult) × Manager). RecordedBy x.1)
        (not caller.context) _ _ (λ _. r)
        λ _. attach_done-RecordedBy caller.done _ (
          if_elim (λ (x : Result PtyError (ℕ × AttachResult) × Manager). RecordedBy x.1)
            (not caller.sink) _ _ (λ _. r)
            λ _.
              if_elim (λ (x : Result PtyError (ℕ × AttachResult) × Manager). RecordedBy x.1)
                (not (is_known options.replay)) _ _ (λ _. r)
                λ _. attach_found-RecordedBy id (lookup id m.sessions) options caller refl)

  after_check-RecordedBy :
      (e : Option PtyError) (next : Result PtyError ℕ × Manager)
      → RecordedBy next.1
      → RecordedBy (after_check e next m).1
  after_check-RecordedBy none next h = h
  after_check-RecordedBy (some e) next h = r

  begin_open-RecordedBy :
      (given : Bool) (spec : ProcessSpec) → RecordedBy (begin_open given spec m).1
  unfolding begin_open reserve_session
  begin_open-RecordedBy given spec =
      if_elim (λ (x : Result PtyError ℕ × Manager). RecordedBy x.1) (not given) _ _ (λ _. r)
        λ _. after_check-RecordedBy (spec_validate spec) _ (
          after_check-RecordedBy (size_validate spec.initial_size) _ (
            if_elim (λ (x : Result PtyError ℕ × Manager). RecordedBy x.1) m.closing _ _ (λ _. r)
              λ _.
                if_elim (λ (x : Result PtyError ℕ × Manager). RecordedBy x.1)
                  (leb m.bounds.max_sessions (m.active + m.starting)) _ _ (λ _. r)
                  λ _.
                    if_elim (λ (x : Result PtyError ℕ × Manager). RecordedBy x.1) m.exhausted _ _
                      (λ _. r)
                      λ _.
                        if_elim (λ (x : Result PtyError ℕ × Manager). RecordedBy x.1)
                          (tick m.next_session == 0) _ _ (λ _. r) (λ _. r)))

  commit_open-RecordedBy :
      (id : ℕ) (size : Size) (now : ℕ)
      → member id starts ≡ true
      → RecordedBy (commit_open id size now m).1
  unfolding commit_open
  commit_open-RecordedBy id size now mine =
      let fresh : lookup id m.sessions ≡ none =
        ground (arith, core.numbered.apart id mine, Option-cases (lookup id m.sessions)) in
      if_elim (λ (x : Bool × Manager). RecordedBy x.1)
        (m.closing || leb m.bounds.max_sessions m.active) _ _ (λ _. r)
        (λ _. fresh-IsRecorded id (new_session id size now) m.sessions m.history r fresh)

  close_found-RecordedBy :
      (id : ℕ) (why : _) (last : Session) (o : _) → RecordedBy (close_found id why last o m)
  close_found-RecordedBy id why last none = r
  close_found-RecordedBy id why last (some a) =
      if_elim (λ (x : Manager). RecordedBy x) a.registered _ _
        (λ _.
          let_go_found-RecordedBy _ slack starts ts core r id why last a.session
            (lookup a.session m.sessions) refl)
        (λ _. r)

  stopped-last : (o : Option Session) → last_of (stopped o) ≡ last_of o
  stopped-last none = refl
  stopped-last (some s) = ap some (
      if_elim (λ (x : Session). x.last_sequence ≡ s.last_sequence) (is_running s.state) _ _
        (λ _. refl) (λ _. refl))

  begin_close-RecordedBy : RecordedBy (begin_close m)
  unfolding begin_close
  begin_close-RecordedBy =
      same-IsRecorded m.sessions (stop_all m.sessions) m.history r
        (λ k. ap last_of (lookup-stop_all k m.sessions) ∙ stopped-last (lookup k m.sessions))

settle_found-RecordedBy :
    (b : Bounds) (m : Manager) (starts ts : List ℕ) (core : CoreOf (b, 0) m starts ts) (id : ℕ)
    (o : Option Session)
    → RecordedBy m
    → lookup id m.sessions ≡ o
    → member id ts ≡ true
    → RecordedBy (settle_found id o m).1
unfolding begin_evictions
settle_found-RecordedBy b m starts ts core id none r e mine = r
settle_found-RecordedBy b m starts ts core id (some s) r e mine =
    let kept = retain_session id s m in
    if_elim (λ (x : List Removal × Manager). RecordedBy x.1) (not m.closing && m.bounds.retain) _ _
      (λ _.
        evict_loop-RecordedBy (length kept.retained_exited) kept.retained_exited kept (b, 1) starts
          _
          (retain_session-Core m (b, 0) starts ts core id s e
            (settles-Over b m starts ts core id s e mine))
          refl (retain_session-RecordedBy m (b, 0) starts ts core r id s e))
      (λ _.
        drop_session-RecordedBy m (b, 0) starts ts core r id s (record s { attached = [] })
          EventKind.removed e refl)

-- Nothing is left of a session whose history is removed, and nothing comes.
remove_histories-chunks :
    (ss : Map Session) (m : Manager) (k : ℕ)
    → (is_some (lookup k ss) ≡ false → chunks_at k m.history ≡ [])
    → chunks_at k (remove_histories ss m).history ≡ []
unfolding remove_histories
remove_histories-chunks [] m k others = others refl
remove_histories-chunks ((id, s) ∷ rest) m k others =
    remove_histories-chunks rest (record m { history = remove_history id m.history }) k
      λ gone. elim (ℕ_discrete id k) [
        | yes here ↦ gone_chunks id k m.history here
        | no other ↦ chunks_of_others id k m.history other ∙ others (ground (arith, gone, other))
      ]

none_chunks : (o : Option ℕ) (xs : List _) → IsRecordedAt o xs → is_some o ≡ false → xs ≡ []
none_chunks none xs h off = h
none_chunks (some n) xs h off = ground (arith, off)

last_of-some : (o : Option Session) → is_some (last_of o) ≡ is_some o
last_of-some none = refl
last_of-some (some s) = refl

end_close-RecordedBy : (m : Manager) → RecordedBy m → RecordedBy (end_close m)
unfolding end_close
end_close-RecordedBy m r =
    let empty : (k : ℕ) → chunks_at k (remove_histories m.sessions m).history ≡ [] = λ k.
      remove_histories-chunks m.sessions m k (λ off.
        none_chunks (last_of (lookup k m.sessions)) (chunks_at k m.history) (r.each k)
          (last_of-some (lookup k m.sessions) ∙ off)) in
    record { each = empty; off = λ _ k. empty k }

subscribe-RecordedBy : (m : Manager) → RecordedBy m → RecordedBy (subscribe m).1
unfolding subscribe
subscribe-RecordedBy m r =
    if_elim (λ (x : Result PtyError ℕ × Manager). RecordedBy x.1) m.closing _ _ (λ _. r)
      λ _.
        if_elim (λ (x : Result PtyError ℕ × Manager). RecordedBy x.1)
          (leb m.bounds.max_observers (length m.observers)) _ _ (λ _. r) (λ _. r)

begun-RecordedBy :
    (x : Result PtyError ℕ × Manager) (y : Result PtyError ℕ) (m : Manager)
    → RecordedBy x.1
    → x ≡ (y, m)
    → RecordedBy m
begun-RecordedBy x y m r e = subst (λ (z : Result PtyError ℕ × Manager). RecordedBy z.1) e r

Step-RecordedBy :
    (b : Bounds) (y z : System)
    → Step y z
    → IsManager b y
    → RecordedBy y.manager
    → RecordedBy z.manager
unfolding kill_session exit_session settle_session remove finish_removal publish record_close
    commit_resize
Step-RecordedBy b y _ (begins given spec _ id m e) core r =
    begun-RecordedBy _ _ m
      (begin_open-RecordedBy y.manager (b, 0) y.starts y.settles core r given spec) e
Step-RecordedBy b y _ (begins_not given spec _ x m e) core r =
    begun-RecordedBy _ _ m
      (begin_open-RecordedBy y.manager (b, 0) y.starts y.settles core r given spec) e
Step-RecordedBy b y _ (aborts id _ mine) core r = r
Step-RecordedBy b y _ (commits id size now _ mine) core r =
    commit_open-RecordedBy y.manager (b, 0) y.starts y.settles core r id size now mine
Step-RecordedBy b y _ (counts_start _) core r = r
Step-RecordedBy b y _ (counts_exit _) core r = r
Step-RecordedBy b y _ (kills id _) core r =
    kill_found-RecordedBy y.manager (b, 0) y.starts y.settles core r id
      (lookup id y.manager.sessions) refl
Step-RecordedBy b y _ (exits id status s _ found lives) core r =
    exit_found-RecordedBy y.manager (b, 0) y.starts y.settles core r id status
      (lookup id y.manager.sessions) refl
Step-RecordedBy b y _ (Step.settles id _ mine) core r =
    settle_found-RecordedBy b y.manager y.starts y.settles core id (lookup id y.manager.sessions) r
      refl mine
Step-RecordedBy b y _ (removes id _) core r =
    if_elim (λ (x : Result PtyError Removal × Manager). RecordedBy x.1) y.manager.closing _ _
      (λ _. r)
      (λ _.
        remove_found-RecordedBy y.manager (b, 0) y.starts y.settles core r id
          (lookup id y.manager.sessions) refl)
Step-RecordedBy b y _ (finishes x _) core r =
    finish_found-RecordedBy y.manager (b, 0) y.starts y.settles core r x
      (lookup x.session y.manager.sessions) refl
Step-RecordedBy b y _ (attaches id options caller _) core r =
    attach-RecordedBy y.manager (b, 0) y.starts y.settles core r id options caller
Step-RecordedBy b y _ (publishes id bytes _) core r =
    publish_found-RecordedBy y.manager (b, 0) y.starts y.settles core r id bytes
      (lookup id y.manager.sessions) refl
Step-RecordedBy b y _ (closes_attachment id why last _) core r =
    close_found-RecordedBy y.manager (b, 0) y.starts y.settles core r id why last
      (lookup id y.manager.attachments)
Step-RecordedBy b y _ (resizes id size answer _) core r =
    size_found-RecordedBy y.manager (b, 0) y.starts y.settles core r id size answer
      (lookup id y.manager.sessions) refl
Step-RecordedBy b y _ (subscribes _) core r = subscribe-RecordedBy y.manager r
Step-RecordedBy b y _ (unsubscribes id _) core r = r
Step-RecordedBy b y _ (begins_close _) core r =
    begin_close-RecordedBy y.manager (b, 0) y.starts y.settles core r
Step-RecordedBy b y _ (ends_close _ idle done) core r = end_close-RecordedBy y.manager r

-- In every state that is reached, the output that the history keeps of a session on the table is numbered
-- one by one, modulo 2 ^ 64, up to the last number that the session has given, so that nothing is missing
-- between the history and the live output; nothing is kept for an ID that is not on the table, and nothing
-- at all where a history bound is zero.
pub Reachable-IsRecorded :
    (c : ManagerConfig) (y : System)
    → Reachable c y
    → IsRecorded y.manager.sessions y.manager.history
Reachable-IsRecorded c _ (Reachable.starts _) = record { each = λ k. refl; off = λ _ k. refl }
Reachable-IsRecorded c _ (goes_on y z reached step) =
    Step-RecordedBy (bounds c) y z step (Reachable-IsManager c y reached)
      (Reachable-IsRecorded c y reached)
