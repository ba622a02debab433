-- ===== src/Pty/Manager/Serving.antt =====
-- What pty/manager.go answers while sessions run: observers come and go, attachments end, a session is
-- resized, written to and asked for its process, and `ListSnapshot` and `Stats` look at all of them.
use streammux.Base.{
  ℕ, Bool, false, not, Option, none, some, List, [], ◌∷◌, leb, ◌==◌, if◌then◌else◌, length, Result,
  ok, err,
}
use streammux.Base.Map.{Map, lookup, insert, delete, remove_key, sum_of}
use streammux.Pty.Values.{
  PtyError, nil_context, session_exited_error, manager_closed_error, observer_limit,
  process_id_unavailable, session_not_found, Size, size_validate, CloseReason, ExitStatus,
}
use streammux.Pty.Observer.{SessionInfo, Event, EventKind, new_subscription}
use streammux.Pty.Manager.{
  Session, Attached, Manager, tick, is_running, info, announce, put_session,
}

-- `Subscribe`
abbrev pub add_observer : ℕ → Manager → Result PtyError ℕ × Manager
add_observer id m = (
  ok id,
  record m {
    next_observer = id;
    observers = insert id (new_subscription m.bounds.observer_bytes) m.observers;
  },
)

unfoldable pub subscribe : Manager → Result PtyError ℕ × Manager
subscribe m =
    if m.closing
    then (err manager_closed_error, m)
    else if leb m.bounds.max_observers (length m.observers)
    then (err observer_limit, m)
    else add_observer (tick m.next_observer) m

-- `Subscription.Close` on the Manager's table; the subscription goes on to finish.
abbrev pub unsubscribe : ℕ → Manager → Manager
unsubscribe id m = record m { observers = delete id m.observers }

-- The place of a reason in `attachmentClosures`.
abbrev pub reason_key : CloseReason → ℕ
reason_key CloseReason.explicit = 0
reason_key CloseReason.context_canceled = 1
reason_key CloseReason.session_exited = 2
reason_key CloseReason.overflowed = 3
reason_key CloseReason.sink_failure = 4
reason_key CloseReason.drain_timeout = 5
reason_key CloseReason.manager_closed = 6
reason_key CloseReason.session_removed = 7
reason_key CloseReason.session_evicted = 8

abbrev pub count_of : Option ℕ → ℕ
count_of none = 0
count_of (some n) = n

abbrev pub count_closure : CloseReason → Map ℕ → Map ℕ
count_closure why counts =
    insert (reason_key why) (tick (count_of (lookup (reason_key why) counts))) counts

abbrev pub let_go : ℕ → Session → Session
let_go id s = record s { attached = remove_key id s.attached }

abbrev pub detached_info : ℕ → CloseReason → Session → Manager → Event
detached_info id why s m = record {
  kind = EventKind.detached;
  session = info s m;
  output = none;
  attachment = some (record { id = id; reason = some why });
}

-- The session lets go of the attachment; one that is off the table is as the attachment last knew it.
abbrev pub let_go_found : ℕ → CloseReason → Session → Option Session → Manager → Manager
let_go_found id why last none m = announce (detached_info id why (let_go id last) m) m
let_go_found id why last (some s) m =
    let m' = put_session s.id (let_go id s) m in announce (detached_info id why (let_go id s) m') m'

abbrev pub detach_registered : ℕ → Attached → CloseReason → Session → Manager → Manager
detach_registered id a why last m =
    let_go_found id why last (lookup a.session m.sessions) (record m {
      attachments = insert id (record a { registered = false }) m.attachments;
      closures = count_closure why m.closures;
    })

abbrev pub close_found : ℕ → CloseReason → Session → Option Attached → Manager → Manager
close_found id why last none m = m
close_found id why last (some a) m = if a.registered then detach_registered id a why last m else m

-- `recordAttachmentClose`
unfoldable pub record_close : ℕ → CloseReason → Session → Manager → Manager
record_close id why last m = close_found id why last (lookup id m.attachments) m

abbrev pub resize_done : Size → Option PtyError → Session → Session
resize_done size (some e) s = s
resize_done size none s = if is_running s.state then record s { size = size } else s

abbrev pub first_of : Option PtyError → Option PtyError → Option PtyError
first_of (some e) next = some e
first_of none next = next

-- `Session.Resize` up to the process, for a context and its error.
unfoldable pub check_resize : Bool → Option PtyError → Size → Session → Option PtyError
check_resize given done size s =
    if not given
    then some nil_context
    else first_of (size_validate size)
        (first_of done (if is_running s.state then none else some session_exited_error))

abbrev pub size_found : ℕ → Size → Option PtyError → Option Session → Manager → Manager
size_found id size answer none m = m
size_found id size answer (some s) m = put_session id (resize_done size answer s) m

-- The last hold in `Resize`, when the process has answered.
unfoldable pub commit_resize : ℕ → Size → Option PtyError → Manager → Manager
commit_resize id size answer m = size_found id size answer (lookup id m.sessions) m

abbrev pub checked_pid : Result PtyError ℕ → Result PtyError ℕ
checked_pid (err e) = err e
checked_pid (ok pid) = if pid == 0 then err process_id_unavailable else ok pid

abbrev pub provided : Option (Result PtyError ℕ) → Result PtyError ℕ
provided none = err process_id_unavailable
provided (some answer) = checked_pid answer

-- `Session.ProcessID`; the process provides an ID or does not.
unfoldable pub process_id : Option (Result PtyError ℕ) → Session → Result PtyError ℕ
process_id provider s = if is_running s.state then provided provider else err session_exited_error

-- `Wait` when the session is done, by its `exit`
abbrev pub wait_result : Option ExitStatus → Result PtyError ExitStatus
wait_result none = err session_not_found
wait_result (some status) = ok status

-- Snapshots in the order of their IDs.
abbrev pub insert_info : SessionInfo → List SessionInfo → List SessionInfo
insert_info i [] = i ∷ []
insert_info i (j ∷ rest) =
    let behind = insert_info i rest in if leb i.id j.id then i ∷ j ∷ rest else j ∷ behind

unfoldable pub infos : Map Session → Manager → List SessionInfo
infos [] m = []
infos ((id, s) ∷ rest) m = insert_info (info s m) (infos rest m)

-- `ListSnapshot`
abbrev pub list_snapshot : Manager → ℕ × List SessionInfo
list_snapshot m = (m.generation, infos m.sessions m)

-- `ManagerStats`, but for the closures
pub record ManagerStats : Type 0 where
  pub sessions : ℕ
  pub active_sessions : ℕ
  pub starting_sessions : ℕ
  pub attachments : ℕ
  pub subscriptions : ℕ
  pub history_bytes : ℕ
  pub history_truncations : ℕ
  pub history_truncated_bytes : ℕ
  pub processes_started : ℕ
  pub processes_exited : ℕ
  pub retained_exited_sessions : ℕ
  pub sessions_evicted : ℕ
  pub sessions_removed : ℕ

-- `Stats`
abbrev pub stats : Manager → ManagerStats
stats m = record {
  sessions = length m.sessions;
  active_sessions = m.active;
  starting_sessions = m.starting;
  attachments = sum_of (λ (s : Session). length s.attached) m.sessions;
  subscriptions = length m.observers;
  history_bytes = m.history.bytes;
  history_truncations = m.history.truncations;
  history_truncated_bytes = m.history.truncated_bytes;
  processes_started = m.processes_started;
  processes_exited = m.processes_exited;
  retained_exited_sessions = length m.retained_exited;
  sessions_evicted = m.sessions_evicted;
  sessions_removed = m.sessions_removed;
}
