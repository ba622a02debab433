-- ===== src/Pty/Manager/Ending.antt =====
-- How a session of pty/manager.go ends: `Kill`, the two holds of the lock in `run`, and `Close`.
use streammux.Base.{
  ℕ, ◌-◌, Bool, true, false, not, ◌&&◌, Option, none, some, List, [], ◌∷◌, ◌++◌, if◌then◌else◌,
  Result, ok, err,
}
use streammux.Base.Map.{Map, lookup, insert}
use streammux.Pty.Values.{PtyError, ExitStatus}
use streammux.Pty.Attachment.{Attachment, enqueue_exit}
use streammux.Pty.History.{remove_history}
use streammux.Pty.Observer.{EventKind, SessionState}
use streammux.Pty.Manager.{
  Session, Attached, Manager, tick, is_running, is_live, announce, session_event, put_session,
}
use streammux.Pty.Manager.Removal.{Removal, begin_evictions, drop_session}

-- A running session is marked as stopping.
abbrev pub mark_stopping : Session → Session
mark_stopping s = if is_running s.state then record s { state = SessionState.stopping } else s

-- `Session.Kill` under the lock: whether the process is to be killed.
abbrev pub kill_found : ℕ → Option Session → Manager → Bool × Manager
kill_found id none m = (false, m)
kill_found id (some s) m = (is_live s.state, put_session id (mark_stopping s) m)

unfoldable pub kill_session : ℕ → Manager → Bool × Manager
kill_session id m = kill_found id (lookup id m.sessions) m

-- The attachments told of an exit, and the IDs of those that take it no more.
abbrev pub keep_told :
    ℕ → Attached → Result PtyError Attachment → Map Attached → List ℕ × Map Attached
keep_told id a (ok state) store = ([], insert id (record a { state = state }) store)
keep_told id a (err e) store = (id ∷ [], store)

abbrev pub tell_exit : ExitStatus → ℕ → Option Attached → Map Attached → List ℕ × Map Attached
tell_exit status id none store = ([], store)
tell_exit status id (some a) store = keep_told id a (enqueue_exit status a.state) store

unfoldable pub tell_exits : ExitStatus → List ℕ → Map Attached → List ℕ × Map Attached
tell_exits status [] store = ([], store)
tell_exits status (id ∷ rest) store =
    let told = tell_exit status id (lookup id store) store in
    let others = tell_exits status rest told.1 in (told.0 ++ others.0, others.1)

abbrev pub ended : ExitStatus → Session → Session
ended status s = record s { exit = some status; state = SessionState.exited }

abbrev pub exit_found : ℕ → ExitStatus → Option Session → Manager → List ℕ × Manager
exit_found id status none m = ([], m)
exit_found id status (some s) m =
    let told = tell_exits status s.attached m.attachments in
    let m' = record (put_session id (ended status s) m) {
      processes_exited = tick m.processes_exited;
      active = m.active - 1;
      attachments = told.1;
    } in
    (told.0, announce (session_event EventKind.exited (ended status s) m') m')

-- The first hold in `run`: the process is gone. The attachments listed are to be finished.
unfoldable pub exit_session : ℕ → ExitStatus → Manager → List ℕ × Manager
exit_session id status m = exit_found id status (lookup id m.sessions) m

abbrev pub kept_session : Session → Session
kept_session s = record s { attached = []; retained = true }

abbrev pub retain_session : ℕ → Session → Manager → Manager
retain_session id s m =
    let m' = record (put_session id (kept_session s) m) {
      retained_exited = m.retained_exited ++ (s.id ∷ []);
      generation = tick m.generation;
    } in
    announce (session_event EventKind.retained (kept_session s) m') m'

abbrev pub settle_found : ℕ → Option Session → Manager → List Removal × Manager
settle_found id none m = ([], m)
settle_found id (some s) m =
    if not m.closing && m.bounds.retain
    then begin_evictions (retain_session id s m)
    else ([], drop_session (record s { attached = [] }) EventKind.removed m)

-- The last hold in `run`, when the attachments are done: the removals that it goes on to finish.
unfoldable pub settle_session : ℕ → Manager → List Removal × Manager
settle_session id m = settle_found id (lookup id m.sessions) m

unfoldable pub stop_all : Map Session → Map Session
stop_all [] = []
stop_all ((id, s) ∷ rest) = (id, mark_stopping s) ∷ stop_all rest

-- The first hold of `Close`.
unfoldable pub begin_close : Manager → Manager
begin_close m = record m {
  closing = true;
  sessions = stop_all m.sessions;
  observers = [];
  leaving = m.observers ++ m.leaving;
}

unfoldable pub remove_histories : Map Session → Manager → Manager
remove_histories [] m = m
remove_histories ((id, s) ∷ rest) m =
    remove_histories rest (record m { history = remove_history id m.history })

-- The last hold of `Close`, when every session is done.
unfoldable pub end_close : Manager → Manager
end_close m = record (remove_histories m.sessions m) {
  sessions = [];
  retained_exited = [];
  active = 0;
  generation = tick m.generation;
}
