-- ===== src/Pty/Manager/Steps.antt =====
-- The holds of `Manager.mu` in pty/manager.go one behind another, in any order that the goroutines allow.
-- Beside the Manager stand the goroutines that are between two holds: the IDs of the sessions that `Open`
-- starts, of those whose `run` waits for the attachments, and all the IDs that `Open` has given so far.
use streammux.Base.{ℕ, ◌≡◌, Bool, true, Option, none, some, List, [], ◌∷◌, ok, err}
use streammux.Base.Map.{lookup, member, remove_key}
use streammux.Pty.Values.{PtyError, Size, ExitStatus, CloseReason}
use streammux.Pty.Config.{ManagerConfig, manager_config_validate}
use streammux.Pty.Manager.{ProcessSpec, Session, Manager, new_manager, is_live}
use streammux.Pty.Manager.Opening.{
  begin_open, abort_open, commit_open, process_started, process_exited,
}
use streammux.Pty.Manager.Removal.{Removal, remove, finish_removal}
use streammux.Pty.Manager.Ending.{
  kill_session, exit_session, settle_session, begin_close, end_close,
}
use streammux.Pty.Manager.Attaching.{AttachOptions, Caller, attach, publish}
use streammux.Pty.Manager.Serving.{subscribe, unsubscribe, record_close, commit_resize}

pub record System : Type 0 where
  pub manager : Manager
  pub starts : List ℕ
  pub settles : List ℕ
  pub given : List ℕ

abbrev pub with_manager : System → Manager → System
with_manager y m = record y { manager = m }

pub data Step : System → System → Type 0 where
  begins :
      (given : Bool) (spec : ProcessSpec) (y : System) (id : ℕ) (m : Manager)
      → begin_open given spec y.manager ≡ (ok id, m)
      → Step y (record y { manager = m; starts = id ∷ y.starts; given = id ∷ y.given })
  begins_not :
      (given : Bool) (spec : ProcessSpec) (y : System) (e : PtyError) (m : Manager)
      → begin_open given spec y.manager ≡ (err e, m)
      → Step y (with_manager y m)
  -- the process did not start, or was stopped again
  aborts :
      (id : ℕ) (y : System)
      → member id y.starts ≡ true
      → Step y (record y { manager = abort_open y.manager; starts = remove_key id y.starts })
  commits :
      (id : ℕ) (size : Size) (now : ℕ) (y : System)
      → member id y.starts ≡ true
      → Step y (record y {
        manager = (commit_open id size now y.manager).1;
        starts = remove_key id y.starts;
      })
  counts_start : (y : System) → Step y (with_manager y (process_started y.manager))
  counts_exit : (y : System) → Step y (with_manager y (process_exited y.manager))
  kills : (id : ℕ) (y : System) → Step y (with_manager y (kill_session id y.manager).1)
  -- `run` gets there once, and until then the session is live
  exits :
      (id : ℕ) (status : ExitStatus) (s : Session) (y : System)
      → lookup id y.manager.sessions ≡ some s
      → is_live s.state ≡ true
      → Step y
          (record y { manager = (exit_session id status y.manager).1; settles = id ∷ y.settles })
  settles :
      (id : ℕ) (y : System)
      → member id y.settles ≡ true
      → Step y (record y {
        manager = (settle_session id y.manager).1;
        settles = remove_key id y.settles;
      })
  removes : (id : ℕ) (y : System) → Step y (with_manager y (remove id y.manager).1)
  finishes : (r : Removal) (y : System) → Step y (with_manager y (finish_removal r y.manager))
  attaches :
      (id : ℕ) (options : AttachOptions) (caller : Caller) (y : System)
      → Step y (with_manager y (attach id options caller y.manager).1)
  publishes :
      (id : ℕ) (bytes : List ℕ) (y : System)
      → Step y (with_manager y (publish id bytes y.manager).1)
  closes_attachment :
      (id : ℕ) (why : CloseReason) (last : Session) (y : System)
      → Step y (with_manager y (record_close id why last y.manager))
  resizes :
      (id : ℕ) (size : Size) (answer : Option PtyError) (y : System)
      → Step y (with_manager y (commit_resize id size answer y.manager))
  subscribes : (y : System) → Step y (with_manager y (subscribe y.manager).1)
  unsubscribes : (id : ℕ) (y : System) → Step y (with_manager y (unsubscribe id y.manager))
  begins_close : (y : System) → Step y (with_manager y (begin_close y.manager))
  -- `Close` has waited for the starts and for the sessions
  ends_close :
      (y : System) → y.starts ≡ [] → y.settles ≡ [] → Step y (with_manager y (end_close y.manager))

abbrev pub new_system : ManagerConfig → System
new_system c = record { manager = new_manager c; starts = []; settles = []; given = [] }

-- From a Manager of a configuration that `NewManager` accepts.
pub data Reachable (c : ManagerConfig) : System → Type 0 where
  starts : manager_config_validate c ≡ none → Reachable c (new_system c)
  goes_on : (y z : System) → Reachable c y → Step y z → Reachable c z
