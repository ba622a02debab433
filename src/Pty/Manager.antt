-- ===== src/Pty/Manager.antt =====
-- The `Manager` of pty/manager.go and its sessions. What `Manager.mu` guards is one state; a function
-- is one hold of the lock, and Pty/Manager/Steps.antt lets them follow one another.
--
-- Attachments are shared: a session lists those registered with it by their IDs, and they stand in a
-- store of their own, where they stay when the session lets go of them. The chunks of a session's history
-- stand in `history` under its ID; a session that has none, or is gone, has no chunks there. Observers
-- that `emitLocked` has taken off the table wait in `leaving` for `finishObservers`.
pub mod Opening
pub mod Removal
pub mod Ending
pub mod Attaching
pub mod Serving
pub mod Registry
pub mod Steps
pub mod Core
pub mod Eviction
pub mod Starting
pub mod Touching
pub mod Leaving
pub mod Closing
pub mod Reachable
pub mod Retention
pub mod Replay
pub mod Sequences
pub mod Recording
pub mod Recorded
pub mod Keeping
pub mod Given
mod Tests
use streammux.Base.{
  ℕ, zero, suc, ◌+◌, ◌-◌, ◌%◌, ◌^◌, Bool, true, false, not, ◌&&◌, ◌||◌, Option, none, some, List,
  [], ◌∷◌, ◌++◌, ltb, leb, ◌==◌, if◌then◌else◌, length, Result, ok, err,
}
use streammux.Base.Int.{pos_part}
use streammux.Base.Map.{Map, lookup, insert}
use streammux.Pty.Values.{PtyError, command_required, Size, ExitStatus, CloseReason, OutputEvent}
use streammux.Pty.Attachment.{Attachment}
use streammux.Pty.Config.{ManagerConfig, exited_session_retain}
use streammux.Pty.History.{History, Kept, kept_of}
use streammux.Pty.Observer.{
  SessionState, SessionInfo, Event, EventKind, AttachmentInfo, Subscription, emit,
}

-- The bounds of a configuration that `validate` accepts.
pub record Bounds : Type 0 where
  pub max_sessions : ℕ
  pub max_attachments : ℕ
  pub attachment_bytes : ℕ
  pub observer_bytes : ℕ
  pub max_observers : ℕ
  pub retain : Bool
  pub max_retained : ℕ

abbrev pub bounds : ManagerConfig → Bounds
bounds c = record {
  max_sessions = pos_part c.max_sessions;
  max_attachments = pos_part c.max_attachments_per_session;
  attachment_bytes = pos_part c.attachment_queue_bytes;
  observer_bytes = pos_part c.observer_queue_bytes;
  max_observers = pos_part c.max_observers;
  retain = c.exit_policy == exited_session_retain;
  max_retained = pos_part c.max_retained_sessions;
}

-- `ProcessSpec`; an environment that is nil is nothing.
pub record ProcessSpec : Type 0 where
  pub command : List ℕ
  pub args : List (List ℕ)
  pub env : Option (List (List ℕ))
  pub dir : List ℕ
  pub initial_size : Size

-- `ProcessSpec.Validate`
unfoldable pub spec_validate : ProcessSpec → Option PtyError
spec_validate s = if length s.command == 0 then some command_required else none

-- `Session`
pub record Session : Type 0 where
  pub id : ℕ
  pub state : SessionState
  pub size : Size
  pub started_at : ℕ
  pub last_sequence : ℕ
  pub exit : Option ExitStatus
  pub retained : Bool
  pub removing : Bool
  pub attached : List ℕ

-- An attachment in the store, with its session's ID and its `registered`.
pub record Attached : Type 0 where
  pub session : ℕ
  pub registered : Bool
  pub state : Attachment

pub record Manager : Type 0 where
  pub bounds : Bounds
  pub sessions : Map Session
  pub history : History
  pub retained_exited : List ℕ
  pub attachments : Map Attached
  pub observers : Map Subscription
  pub leaving : Map Subscription
  pub next_session : ℕ
  pub next_attachment : ℕ
  pub next_observer : ℕ
  pub processes_started : ℕ
  pub processes_exited : ℕ
  pub sessions_evicted : ℕ
  pub sessions_removed : ℕ
  pub closures : Map ℕ
  pub generation : ℕ
  pub exhausted : Bool
  pub closing : Bool
  pub starting : ℕ
  pub active : ℕ

-- `NewManager`, on a validated configuration
abbrev pub new_manager : ManagerConfig → Manager
new_manager c = record {
  bounds = bounds c;
  sessions = [];
  history = record {
    session_limit = pos_part c.history_bytes;
    total_limit = pos_part c.max_total_history_bytes;
    sessions = [];
    bytes = 0;
    next_order = 0;
    truncations = 0;
    truncated_bytes = 0;
  };
  retained_exited = [];
  attachments = [];
  observers = [];
  leaving = [];
  next_session = 0;
  next_attachment = 0;
  next_observer = 0;
  processes_started = 0;
  processes_exited = 0;
  sessions_evicted = 0;
  sessions_removed = 0;
  closures = [];
  generation = 0;
  exhausted = false;
  closing = false;
  starting = 0;
  active = 0;
}

-- A `uint64` counter and `++`, or the `Add(1)` of an atomic one.
abbrev pub tick : ℕ → ℕ
tick n = (n + 1) % 2 ^ 64

abbrev pub is_running : SessionState → Bool
is_running SessionState.running = true
is_running _ = false

abbrev pub is_stopping : SessionState → Bool
is_stopping SessionState.stopping = true
is_stopping _ = false

abbrev pub is_exited : SessionState → Bool
is_exited SessionState.exited = true
is_exited _ = false

abbrev pub is_live : SessionState → Bool
is_live s = is_running s || is_stopping s

-- What `removeHistoryLocked` leaves no longer counts, so a session's chunks are those under its ID.
abbrev pub chunks_of : ℕ → Manager → Kept
chunks_of id m = kept_of (lookup id m.history.sessions)

-- `infoLocked`
abbrev pub info : Session → Manager → SessionInfo
info s m = record {
  id = s.id;
  state = s.state;
  size = s.size;
  started_at = s.started_at;
  last_sequence = s.last_sequence;
  exit = s.exit;
  attachment_count = length s.attached;
  history_available = ltb 0 (length (chunks_of s.id m).chunks);
}

-- `emitLocked` on the Manager's observers.
abbrev pub announce : Event → Manager → Manager
announce e m =
    let told = emit e m.observers in record m { observers = told.0; leaving = told.1 ++ m.leaving }

-- An event of a session alone.
abbrev pub session_event : EventKind → Session → Manager → Event
session_event kind s m = record {
  kind = kind;
  session = info s m;
  output = none;
  attachment = none;
}

abbrev pub put_session : ℕ → Session → Manager → Manager
put_session id s m = record m { sessions = insert id s m.sessions }
