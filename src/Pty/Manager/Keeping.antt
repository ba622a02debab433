-- ===== src/Pty/Manager/Keeping.antt =====
-- The holds of the lock of pty/manager.go that give no ID leave the counter of the IDs as it is.
use streammux.Base.{
  ℕ, zero, suc, ◌≡◌, refl, ◌∙◌, Bool, false, not, ◌&&◌, ◌||◌, Option, none, some, List, [], ◌∷◌,
  length, ltb, leb, ◌==◌, if_elim, Result, ok, err,
}
use streammux.Base.Map.{Map, lookup, insert}
use streammux.Pty.Values.{PtyError, Size, CloseReason}
use streammux.Pty.Attachment.{Attachment, start}
use streammux.Pty.History.{remove_history}
use streammux.Pty.Observer.{EventKind}
use streammux.Pty.Manager.{Session, Attached, Manager, tick, is_live}
use streammux.Pty.Manager.Opening.{commit_open}
use streammux.Pty.Manager.Removal.{
  Removal, keep_removal, begin_removal, evict_session, add_removal, evict_loop, remove_session,
  is_evicted, drop_session, finish_found, removal_of, remove_found, begin_evictions,
}
use streammux.Pty.Manager.Ending.{
  kill_found, exit_found, retain_session, settle_found, remove_histories,
}
use streammux.Pty.Manager.Attaching.{
  AttachOptions, AttachResult, Caller, attach, attach_found, attach_done, attach_session, is_known,
  is_attachable, add_attachment, exit_attached, start_attached, cut_by, has_ended, publish_found,
}
use streammux.Pty.Manager.Serving.{count_closure, let_go_found, close_found, size_found, subscribe}

-- IDs are left only where they were, and then none is drawn.
abbrev pub KeepsIds : Manager → Manager → Type 0
KeepsIds m m' = m'.exhausted ≡ false → (m.exhausted ≡ false) × (m'.next_session ≡ m.next_session)

module _ (m : Manager) where
  same_ids : KeepsIds m m
  same_ids h = (h, refl)

  let_go_found-KeepsIds :
      (id : ℕ) (why : CloseReason) (last : Session) (o : Option Session)
      → KeepsIds m (let_go_found id why last o m)
  let_go_found-KeepsIds id why last none = λ h. (h, refl)
  let_go_found-KeepsIds id why last (some s) = λ h. (h, refl)

  pub close_found-KeepsIds :
      (id : ℕ) (why : CloseReason) (last : Session) (o : Option Attached)
      → KeepsIds m (close_found id why last o m)
  close_found-KeepsIds id why last none = λ h. (h, refl)
  close_found-KeepsIds id why last (some a) =
      if_elim (KeepsIds m) a.registered _ _ (λ _. found (lookup a.session m.sessions))
        (λ _ h. (h, refl))
    where
      found :
          (o : Option Session)
          → KeepsIds m (
              let_go_found id why last o (record m {
                attachments = insert id (record a { registered = false }) m.attachments;
                closures = count_closure why m.closures;
              }))
      found none h = (h, refl)
      found (some s) h = (h, refl)

  pub kill_found-KeepsIds : (id : ℕ) (o : Option Session) → KeepsIds m (kill_found id o m).1
  kill_found-KeepsIds id none = λ h. (h, refl)
  kill_found-KeepsIds id (some s) = λ h. (h, refl)

  pub exit_found-KeepsIds :
      (id : ℕ) (status : _) (o : Option Session) → KeepsIds m (exit_found id status o m).1
  exit_found-KeepsIds id status none = λ h. (h, refl)
  exit_found-KeepsIds id status (some s) = λ h. (h, refl)

  pub size_found-KeepsIds :
      (id : ℕ) (size : Size) (answer : Option PtyError) (o : Option Session)
      → KeepsIds m (size_found id size answer o m)
  size_found-KeepsIds id size answer none = λ h. (h, refl)
  size_found-KeepsIds id size answer (some s) = λ h. (h, refl)

  pub publish_found-KeepsIds :
      (id : ℕ) (bytes : List ℕ) (o : Option Session) → KeepsIds m (publish_found id bytes o m).1
  publish_found-KeepsIds id bytes none = λ h. (h, refl)
  publish_found-KeepsIds id bytes (some s) = λ h. (h, refl)

  drop_session-KeepsIds : (s : Session) (kind : EventKind) → KeepsIds m (drop_session s kind m)
  unfolding remove_session
  drop_session-KeepsIds s kind =
      if_elim (KeepsIds m) (is_evicted kind) _ _ (λ _ h. (h, refl)) (λ _ h. (h, refl))

  pub finish_found-KeepsIds : (r : Removal) (o : Option Session) → KeepsIds m (finish_found r o m)
  finish_found-KeepsIds r none = λ h. (h, refl)
  finish_found-KeepsIds r (some s) =
      if_elim (KeepsIds m) (not s.removing) _ _ (λ _ h. (h, refl))
        (λ _. drop_session-KeepsIds s r.kind)

  pub remove_found-KeepsIds : (o : Option Session) → KeepsIds m (remove_found o m).1
  unfolding begin_removal
  remove_found-KeepsIds none = λ h. (h, refl)
  remove_found-KeepsIds (some s) =
      if_elim (λ (x : Result PtyError Removal × Manager). KeepsIds m x.1) (is_live s.state) _ _
        (λ _ h. (h, refl))
        λ _.
          if_elim (λ o. KeepsIds m (removal_of m o).1) (not s.retained || s.removing) _ _
            (λ _ h. (h, refl)) (λ _ h. (h, refl))

  evict_session-KeepsIds :
      (id : ℕ) (rest : List ℕ) (o : Option Session) → KeepsIds m (evict_session id rest o m).1
  unfolding begin_removal
  evict_session-KeepsIds id rest none = λ h. (h, refl)
  evict_session-KeepsIds id rest (some s) =
      if_elim (λ (x : Option Removal × Manager). KeepsIds m x.1) (not s.retained) _ _
        (λ _ h. (h, refl))
        λ _.
          if_elim (λ o. KeepsIds m (keep_removal m o).1) (not s.retained || s.removing) _ _
            (λ _ h. (h, refl)) (λ _ h. (h, refl))

  start_attached-KeepsIds :
      (s : Session) (id : ℕ) (x : AttachResult) (late : Option PtyError) (r : Bool × Attachment)
      → KeepsIds m (start_attached s id x late r m).1
  start_attached-KeepsIds s id x late (started, a) =
      if_elim (λ (y : Result PtyError (ℕ × AttachResult) × Manager). KeepsIds m y.1) (not started) _
        _ (λ _ h. (h, refl)) (λ _ h. (h, refl))

  exit_attached-KeepsIds :
      (s : Session) (id : ℕ) (x : AttachResult) (late : Option PtyError)
      (a : Result PtyError Attachment)
      → KeepsIds m (exit_attached s id x late a m).1
  exit_attached-KeepsIds s id x late (err e) = λ h. (h, refl)
  exit_attached-KeepsIds s id x late (ok a) =
      start_attached-KeepsIds s id x late (start (cut_by (has_ended late) a))

  add_attachment-KeepsIds :
      (id : ℕ) (s : Session) (options : AttachOptions) (caller : Caller)
      → KeepsIds m (add_attachment id s options caller m).1
  unfolding add_attachment
  add_attachment-KeepsIds id s options caller =
      if_elim (λ (y : Result PtyError (ℕ × AttachResult) × Manager). KeepsIds m y.1) (id == 0) _ _
        (λ _ h. (h, refl)) (λ _. exit_attached-KeepsIds s id _ caller.late _)

keeps_trans : (m n p : Manager) → KeepsIds m n → KeepsIds n p → KeepsIds m p
keeps_trans m n p first second h =
    let (on, next) = second h in let (before, same) = first on in (before, next ∙ same)

module _ (m : Manager) where
  attach_session-KeepsIds :
      (s : Session) (options : AttachOptions) (caller : Caller)
      → KeepsIds m (attach_session s options caller m).1
  unfolding attach_session
  attach_session-KeepsIds s options caller =
      let P = λ (x : Result PtyError (ℕ × AttachResult) × Manager). KeepsIds m x.1 in
      if_elim P m.closing _ _ (λ _ h. (h, refl))
        λ _.
          if_elim P (not (is_attachable s)) _ _ (λ _ h. (h, refl))
            λ _.
              if_elim P (leb m.bounds.max_attachments (length s.attached)) _ _ (λ _ h. (h, refl))
                λ _.
                  if_elim P (ltb s.last_sequence options.resume_after) _ _ (λ _ h. (h, refl))
                    λ _.
                      add_attachment-KeepsIds
                        (record m { next_attachment = tick m.next_attachment })
                        (tick m.next_attachment) s options caller

  attach_found-KeepsIds :
      (o : Option Session) (options : AttachOptions) (caller : Caller)
      → KeepsIds m (attach_found o options caller m).1
  attach_found-KeepsIds none options caller =
      if_elim (λ (x : Result PtyError (ℕ × AttachResult) × Manager). KeepsIds m x.1) m.closing _ _
        (λ _ h. (h, refl)) (λ _ h. (h, refl))
  attach_found-KeepsIds (some s) options caller = attach_session-KeepsIds s options caller

  attach_done-KeepsIds :
      (e : Option PtyError) (next : Result PtyError (ℕ × AttachResult) × Manager)
      → KeepsIds m next.1
      → KeepsIds m (attach_done e next m).1
  attach_done-KeepsIds none next later = later
  attach_done-KeepsIds (some e) next later = λ h. (h, refl)

  pub attach-KeepsIds :
      (id : ℕ) (options : AttachOptions) (caller : Caller)
      → KeepsIds m (attach id options caller m).1
  unfolding attach
  attach-KeepsIds id options caller =
      let P = λ (x : Result PtyError (ℕ × AttachResult) × Manager). KeepsIds m x.1 in
      if_elim P (not caller.context) _ _ (λ _ h. (h, refl))
        λ _. attach_done-KeepsIds caller.done _ (
          if_elim P (not caller.sink) _ _ (λ _ h. (h, refl))
            λ _.
              if_elim P (not (is_known options.replay)) _ _ (λ _ h. (h, refl))
                λ _. attach_found-KeepsIds (lookup id m.sessions) options caller)

  pub subscribe-KeepsIds : KeepsIds m (subscribe m).1
  unfolding subscribe
  subscribe-KeepsIds =
      let P = λ (x : Result PtyError ℕ × Manager). KeepsIds m x.1 in
      if_elim P m.closing _ _ (λ _ h. (h, refl))
        λ _.
          if_elim P (leb m.bounds.max_observers (length m.observers)) _ _ (λ _ h. (h, refl))
            (λ _ h. (h, refl))

  pub commit_open-KeepsIds :
      (id : ℕ) (size : Size) (now : ℕ) → KeepsIds m (commit_open id size now m).1
  unfolding commit_open
  commit_open-KeepsIds id size now =
      if_elim (λ (x : Bool × Manager). KeepsIds m x.1)
        (m.closing || leb m.bounds.max_sessions m.active) _ _ (λ _ h. (h, refl)) (λ _ h. (h, refl))

  add_removal-KeepsIds :
      (o : Option Removal) (more : List Removal × Manager)
      → KeepsIds m more.1
      → KeepsIds m (add_removal o more).1
  add_removal-KeepsIds none more h = h
  add_removal-KeepsIds (some x) (removals, n) h = h

evict_loop-KeepsIds : (fuel : ℕ) (ids : List ℕ) (m : Manager) → KeepsIds m (evict_loop fuel ids m).1
unfolding evict_loop
evict_loop-KeepsIds zero ids m = λ h. (h, refl)
evict_loop-KeepsIds (suc fuel) [] m = λ h. (h, refl)
evict_loop-KeepsIds (suc fuel) (id ∷ rest) m =
    let round = evict_session id rest (lookup id m.sessions) m in
    let more = evict_loop fuel round.1.retained_exited round.1 in
    if_elim (λ (x : List Removal × Manager). KeepsIds m x.1)
      (ltb m.bounds.max_retained (length (id ∷ rest))) _ _
      (λ over. add_removal-KeepsIds m round.0 more (
        keeps_trans m round.1 more.1 (evict_session-KeepsIds m id rest (lookup id m.sessions))
          (evict_loop-KeepsIds fuel round.1.retained_exited round.1)))
      (λ small h. (h, refl))

pub settle_found-KeepsIds :
    (id : ℕ) (o : Option Session) (m : Manager) → KeepsIds m (settle_found id o m).1
unfolding begin_evictions
settle_found-KeepsIds id none m = λ h. (h, refl)
settle_found-KeepsIds id (some s) m =
    let kept = retain_session id s m in
    if_elim (λ (x : List Removal × Manager). KeepsIds m x.1) (not m.closing && m.bounds.retain) _ _
      (λ _. evict_loop-KeepsIds (length kept.retained_exited) kept.retained_exited kept)
      (λ _. drop_session-KeepsIds m (record s { attached = [] }) EventKind.removed)

pub remove_histories-KeepsIds :
    (ss : Map Session) (m : Manager) → KeepsIds m (remove_histories ss m)
unfolding remove_histories
remove_histories-KeepsIds [] m = λ h. (h, refl)
remove_histories-KeepsIds ((id, s) ∷ rest) m =
    remove_histories-KeepsIds rest (record m { history = remove_history id m.history })
