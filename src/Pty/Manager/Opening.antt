-- ===== src/Pty/Manager/Opening.antt =====
-- `Manager.Open` of pty/manager.go: what it does under the lock before and after it starts the process.
use streammux.Base.{
  ℕ, ◌+◌, ◌-◌, Bool, true, false, not, ◌||◌, Option, none, some, [], leb, ◌==◌, if◌then◌else◌,
  Result, ok, err,
}
use streammux.Pty.Values.{
  PtyError, nil_context, manager_closed_error, session_limit, Size, size_validate,
}
use streammux.Pty.Observer.{SessionState, EventKind}
use streammux.Pty.Manager.{
  ProcessSpec, spec_validate, Session, Manager, tick, announce, session_event, put_session,
}

-- The ID drawn, if it is not the zero that says they are used up.
abbrev pub draw_id : ℕ → Manager → Result PtyError ℕ × Manager
draw_id id m =
    if id == 0
    then (err session_limit, record m { next_session = id; exhausted = true })
    else (ok id, record m { next_session = id; starting = m.starting + 1 })

-- The first hold: the ID for a session that may start.
unfoldable pub reserve_session : Manager → Result PtyError ℕ × Manager
reserve_session m =
    if m.closing
    then (err manager_closed_error, m)
    else if leb m.bounds.max_sessions (m.active + m.starting)
    then (err session_limit, m)
    else if m.exhausted
    then (err session_limit, m)
    else draw_id (tick m.next_session) m

abbrev pub after_check :
    Option PtyError → Result PtyError ℕ × Manager → Manager → Result PtyError ℕ × Manager
after_check (some e) next m = (err e, m)
after_check none next m = next

-- `Open` up to where it starts the process; the test says whether it has a context.
unfoldable pub begin_open : Bool → ProcessSpec → Manager → Result PtyError ℕ × Manager
begin_open given spec m =
    if not given
    then (err nil_context, m)
    else after_check (spec_validate spec)
        (after_check (size_validate spec.initial_size) (reserve_session m) m) m

-- The process did not start, or its context is done.
abbrev pub abort_open : Manager → Manager
abort_open m = record m { starting = m.starting - 1 }

abbrev pub process_started : Manager → Manager
process_started m = record m { processes_started = tick m.processes_started }

-- `recordProcessExited`
abbrev pub process_exited : Manager → Manager
process_exited m = record m { processes_exited = tick m.processes_exited }

abbrev pub new_session : ℕ → Size → ℕ → Session
new_session id size now = record {
  id = id;
  state = SessionState.running;
  size = size;
  started_at = now;
  last_sequence = 0;
  exit = none;
  retained = false;
  removing = false;
  attached = [];
}

abbrev pub register_session : Session → Manager → Manager
register_session s m =
    let m' = record (put_session s.id s m) {
      active = m.active + 1;
      generation = tick m.generation;
    } in
    announce (session_event EventKind.opened s m') m'

-- The last hold of `Open`, with the time that it is: whether the session is registered.
unfoldable pub commit_open : ℕ → Size → ℕ → Manager → Bool × Manager
commit_open id size now m =
    if m.closing || leb m.bounds.max_sessions m.active
    then (false, abort_open m)
    else (true, register_session (new_session id size now) (abort_open m))

abbrev pub commit_result : ℕ → Bool → Bool → Result PtyError ℕ
commit_result id closing true = ok id
commit_result id closing false = if closing then err manager_closed_error else err session_limit

abbrev pub commit_started : ℕ → Bool × Manager → Result PtyError ℕ × Manager
commit_started id (registered, m) = (commit_result id m.closing registered, m)

-- `Open` behind the start of the process and its count, with the error of the caller's context if it is done:
-- the session or the error that it returns. A process that it gives up it kills and waits for.
unfoldable pub finish_open : Option PtyError → ℕ → Size → ℕ → Manager → Result PtyError ℕ × Manager
finish_open (some e) id size now m = (err e, abort_open m)
finish_open none id size now m = commit_started id (commit_open id size now m)
