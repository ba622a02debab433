-- ===== src/Pty/Manager/Recording.antt =====
-- Every hold of the lock of pty/manager.go keeps the history of a session numbered up to its last output.
use streammux.Base.{
  ℕ, zero, suc, ◌≡◌, refl, sym, subst, Bool, not, ◌||◌, Option, none, some, List, [], ◌∷◌, length,
  ltb, ◌==◌, if_elim, Result, ok, err,
}
use streammux.Base.Map.{lookup, insert}
use streammux.Pty.Values.{PtyError, Size, OutputEvent, ExitStatus, CloseReason}
use streammux.Pty.Attachment.{Attachment, start}
use streammux.Pty.History.{append_history}
use streammux.Pty.Observer.{EventKind}
use streammux.Pty.Manager.{Bounds, Session, Manager, is_live, is_running, tick}
use streammux.Pty.Manager.Removal.{
  Removal, keep_removal, begin_removal, evict_session, add_removal, evict_loop, remove_session,
  is_evicted, drop_session, finish_found, removal_of, remove_found,
}
use streammux.Pty.Manager.Ending.{mark_stopping, kill_found, exit_found, retain_session}
use streammux.Pty.Manager.Attaching.{
  AttachOptions, AttachResult, Caller, tell_outputs, add_attachment, exit_attached, start_attached,
  cut_by, has_ended, publish_found,
}
use streammux.Pty.Manager.Serving.{let_go_found, size_found}
use streammux.Pty.Manager.Core.{CoreOf, is_named, found_by_id}
use streammux.Pty.Manager.Eviction.{evict_found}
use streammux.Pty.Manager.Sequences.{
  IsRecorded, insert-SameLast, same-IsRecorded, delete-IsRecorded, append-IsRecorded,
}

abbrev pub RecordedBy : Manager → Type 0
RecordedBy m = IsRecorded m.sessions m.history

module _ (m : Manager) (slack : Bounds × ℕ) (starts ts : List ℕ) (core : CoreOf slack m starts ts)
    (r : RecordedBy m) where
  touched :
      (k : ℕ) (s s' : Session)
      → lookup k m.sessions ≡ some s
      → s'.last_sequence ≡ s.last_sequence
      → IsRecorded (insert k s' m.sessions) m.history
  touched k s s' found same =
      same-IsRecorded m.sessions (insert k s' m.sessions) m.history r
        (insert-SameLast k s s' m.sessions found same)

  pub kill_found-RecordedBy :
      (id : ℕ) (o : Option Session) → lookup id m.sessions ≡ o → RecordedBy (kill_found id o m).1
  kill_found-RecordedBy id none e = r
  kill_found-RecordedBy id (some s) e = touched id s (mark_stopping s) e (
      if_elim (λ (x : Session). x.last_sequence ≡ s.last_sequence) (is_running s.state) _ _
        (λ _. refl) (λ _. refl))

  pub exit_found-RecordedBy :
      (id : ℕ) (status : ExitStatus) (o : Option Session)
      → lookup id m.sessions ≡ o
      → RecordedBy (exit_found id status o m).1
  exit_found-RecordedBy id status none e = r
  exit_found-RecordedBy id status (some s) e = touched id s _ e refl

  pub size_found-RecordedBy :
      (id : ℕ) (size : Size) (answer : Option PtyError) (o : Option Session)
      → lookup id m.sessions ≡ o
      → RecordedBy (size_found id size answer o m)
  size_found-RecordedBy id size answer none e = r
  size_found-RecordedBy id size (some x) (some s) e = touched id s s e refl
  size_found-RecordedBy id size none (some s) e = touched id s _ e (
      if_elim (λ (x : Session). x.last_sequence ≡ s.last_sequence) (is_running s.state) _ _
        (λ _. refl) (λ _. refl))

  pub publish_found-RecordedBy :
      (id : ℕ) (bytes : List ℕ) (o : Option Session)
      → lookup id m.sessions ≡ o
      → RecordedBy (publish_found id bytes o m).1
  publish_found-RecordedBy id bytes none e = r
  publish_found-RecordedBy id bytes (some s) e =
      let same = (is_named m slack id s starts ts core e).0 in
      let event : OutputEvent = record { sequence = tick s.last_sequence; data_bytes = bytes } in
      let s' = record s {
        last_sequence = tick s.last_sequence;
        attached = (tell_outputs event s.attached m.attachments).stay;
      } in
      subst (λ i. IsRecorded (insert id s' m.sessions) (append_history i event m.history))
        (sym same) (append-IsRecorded id s s' event m.sessions m.history r core.history e refl refl)

  pub let_go_found-RecordedBy :
      (id : ℕ) (why : CloseReason) (last : Session) (k : ℕ) (o : Option Session)
      → lookup k m.sessions ≡ o
      → RecordedBy (let_go_found id why last o m)
  let_go_found-RecordedBy id why last k none e = r
  let_go_found-RecordedBy id why last k (some s) e =
      touched s.id s _ (found_by_id m slack k s starts ts core e) refl

  pub start_attached-RecordedBy :
      (s : Session) (id : ℕ) (x : AttachResult) (late : Option PtyError)
      (started : Bool × Attachment)
      → lookup s.id m.sessions ≡ some s
      → RecordedBy (start_attached s id x late started m).1
  start_attached-RecordedBy s id x late (started, a) found =
      if_elim (λ (y : Result PtyError (ℕ × AttachResult) × Manager). RecordedBy y.1) (not started) _
        _ (λ _. r) (λ _. touched s.id s _ found refl)

  pub exit_attached-RecordedBy :
      (s : Session) (id : ℕ) (x : AttachResult) (late : Option PtyError)
      (a : Result PtyError Attachment)
      → lookup s.id m.sessions ≡ some s
      → RecordedBy (exit_attached s id x late a m).1
  exit_attached-RecordedBy s id x late (err e) found = r
  exit_attached-RecordedBy s id x late (ok a) found =
      start_attached-RecordedBy s id x late (start (cut_by (has_ended late) a)) found

  pub add_attachment-RecordedBy :
      (id : ℕ) (s : Session) (options : AttachOptions) (caller : Caller)
      → lookup s.id m.sessions ≡ some s
      → RecordedBy (add_attachment id s options caller m).1
  unfolding add_attachment
  add_attachment-RecordedBy id s options caller found =
      if_elim (λ (y : Result PtyError (ℕ × AttachResult) × Manager). RecordedBy y.1) (id == 0) _ _
        (λ _. r) (λ _. exit_attached-RecordedBy s id _ caller.late _ found)

  pub drop_session-RecordedBy :
      (id : ℕ) (s s' : Session) (kind : EventKind)
      → lookup id m.sessions ≡ some s
      → s'.id ≡ s.id
      → RecordedBy (drop_session s' kind m)
  unfolding remove_session
  drop_session-RecordedBy id s s' kind found same =
      let gone : RecordedBy (remove_session s'.id m) =
        delete-IsRecorded s'.id m.sessions m.history r core.registry.distinct in
      if_elim (λ (x : Manager). RecordedBy x) (is_evicted kind) _ _ (λ _. gone) (λ _. gone)

  pub finish_found-RecordedBy :
      (x : Removal) (o : Option Session)
      → lookup x.session m.sessions ≡ o
      → RecordedBy (finish_found x o m)
  finish_found-RecordedBy x none e = r
  finish_found-RecordedBy x (some s) e =
      if_elim (λ (y : Manager). RecordedBy y) (not s.removing) _ _ (λ _. r)
        (λ _. drop_session-RecordedBy x.session s s x.kind e refl)

  pub remove_found-RecordedBy :
      (id : ℕ) (o : Option Session) → lookup id m.sessions ≡ o → RecordedBy (remove_found o m).1
  unfolding begin_removal
  remove_found-RecordedBy id none e = r
  remove_found-RecordedBy id (some s) e =
      if_elim (λ (x : Result PtyError Removal × Manager). RecordedBy x.1) (is_live s.state) _ _
        (λ _. r)
        λ _.
          if_elim (λ o. RecordedBy (removal_of m o).1) (not s.retained || s.removing) _ _ (λ _. r)
            (λ _. touched s.id s _ (found_by_id m slack id s starts ts core e) refl)

  pub evict_session-RecordedBy :
      (id : ℕ) (rest : List ℕ) (o : Option Session)
      → lookup id m.sessions ≡ o
      → RecordedBy (evict_session id rest o m).1
  unfolding begin_removal
  evict_session-RecordedBy id rest none e = r
  evict_session-RecordedBy id rest (some s) e =
      if_elim (λ (x : Option Removal × Manager). RecordedBy x.1) (not s.retained) _ _ (λ _. r)
        λ _.
          if_elim (λ o. RecordedBy (keep_removal m o).1) (not s.retained || s.removing) _ _ (λ _. r)
            (λ _. touched s.id s _ (found_by_id m slack id s starts ts core e) refl)

  pub retain_session-RecordedBy :
      (id : ℕ) (s : Session) → lookup id m.sessions ≡ some s → RecordedBy (retain_session id s m)
  retain_session-RecordedBy id s found = touched id s _ found refl

add_removal-RecordedBy :
    (o : Option Removal) (more : List Removal × Manager)
    → RecordedBy more.1
    → RecordedBy (add_removal o more).1
add_removal-RecordedBy none more h = h
add_removal-RecordedBy (some x) (removals, m) h = h

pub evict_loop-RecordedBy :
    (fuel : ℕ) (ids : List ℕ) (m : Manager) (slack : Bounds × ℕ) (starts ts : List ℕ)
    → CoreOf slack m starts ts
    → m.retained_exited ≡ ids
    → RecordedBy m
    → RecordedBy (evict_loop fuel ids m).1
unfolding evict_loop
evict_loop-RecordedBy zero ids m slack starts ts core is r = r
evict_loop-RecordedBy (suc fuel) [] m slack starts ts core is r = r
evict_loop-RecordedBy (suc fuel) (id ∷ rest) m slack starts ts core is r =
    let round = evict_session id rest (lookup id m.sessions) m in
    let next = evict_found m slack starts ts core id rest (lookup id m.sessions) is refl in
    if_elim (λ (x : List Removal × Manager). RecordedBy x.1)
      (ltb m.bounds.max_retained (length (id ∷ rest))) _ _
      (λ over. add_removal-RecordedBy round.0 (evict_loop fuel round.1.retained_exited round.1) (
        evict_loop-RecordedBy fuel round.1.retained_exited round.1 (slack.0, length rest) starts ts
          next.core refl
          (evict_session-RecordedBy m slack starts ts core r id rest (lookup id m.sessions) refl)))
      (λ small. r)
