-- ===== src/Pty/Manager/Tests.antt =====
-- A Manager that retains one exited session, and two sessions one after the other.
use streammux.Base.{ℕ, ◌≡◌, refl, true, false, none, some, List, [], ◌∷◌, ok, arith}
use streammux.Base.Int.{pos}
use streammux.Base.Map.{lookup, member, remove_key}
use streammux.Pty.Values.{Size, ExitStatus, ExitReason, size_validate}
use streammux.Pty.Config.{
  ManagerConfig, default_manager_config, manager_config_validate, exited_session_retain,
}
use streammux.Pty.Observer.{SessionState, emit}
use streammux.Pty.History.{Chunk}
use streammux.Pty.Manager.{bounds, ProcessSpec, spec_validate, Session, is_live}
use streammux.Pty.Manager.Opening.{reserve_session, begin_open, commit_open, finish_open}
use streammux.Pty.Manager.Ending.{tell_exits, exit_session, settle_session}
use streammux.Pty.Manager.Removal.{begin_evictions, evict_loop, begin_removal}
use streammux.Pty.Manager.Attaching.{AttachOptions, replay_history, replay_of}
use streammux.Pty.Manager.Steps.{
  System, Step, Reachable, new_system, begins, commits, exits, goes_on,
}
use streammux.Pty.Manager.Core.{IsManager}
use streammux.Pty.Manager.Starting.{Begun}
use streammux.Pty.Manager.Reachable.{
  Reachable-IsManager, begin_open-Drawn, Opened, finish_open-Opened,
}
use streammux.Pty.Manager.Retention.{Retained, settle_session-Retained}
use streammux.Pty.Manager.Replay.{Replayed, replay_of-Replayed}
use streammux.Pty.Manager.Given.{IsGiven, Reachable-IsGiven}
use streammux.Pty.Manager.Sequences.{IsRecorded}
use streammux.Pty.Manager.Recorded.{Reachable-IsRecorded}

abbrev config : ManagerConfig
config = record default_manager_config {
  exit_policy = exited_session_retain;
  max_retained_sessions = pos 1;
}

abbrev size : Size
size = record { cols = pos 80; rows = pos 24 }

abbrev spec : ProcessSpec
spec = record { command = 115 ∷ 104 ∷ []; args = []; env = none; dir = []; initial_size = size }

abbrev status : ExitStatus
status = record { reason = ExitReason.exited; code = pos 0; signal = []; error = [] }

-- The system when `Open` has drawn the ID, when the session is registered, and when it is over.
abbrev drawn : ℕ → System → System
drawn id y = record y {
  manager = (begin_open true spec y.manager).1;
  starts = id ∷ y.starts;
  given = id ∷ y.given;
}

abbrev registered : ℕ → System → System
registered id y = record y {
  manager = (commit_open id size 5 y.manager).1;
  starts = remove_key id y.starts;
}

abbrev over : ℕ → System → System
over id y = record y { manager = (exit_session id status y.manager).1; settles = id ∷ y.settles }

abbrev settled : ℕ → System → System
settled id y = record y {
  manager = (settle_session id y.manager).1;
  settles = remove_key id y.settles;
}

abbrev one_drawn : System
one_drawn = drawn 1 (new_system config)

abbrev one_over : System
one_over = over 1 (registered 1 one_drawn)

abbrev one_settled : System
one_settled = settled 1 one_over

abbrev two_drawn : System
two_drawn = drawn 2 one_settled

abbrev two_over : System
two_over = over 2 (registered 2 two_drawn)

abbrev session : ℕ → Session
session id = record {
  id = id;
  state = SessionState.running;
  size = size;
  started_at = 5;
  last_sequence = 0;
  exit = none;
  retained = false;
  removing = false;
  attached = [];
}

drawn_reached :
    (id : ℕ) (y : System)
    → Reachable config y
    → begin_open true spec y.manager ≡ (ok id, (begin_open true spec y.manager).1)
    → Reachable config (drawn id y)
drawn_reached id y reached e = goes_on y (drawn id y) reached (begins true spec y id _ e)

over_reached :
    (id : ℕ) (y : System) (s : Session)
    → Reachable config y
    → member id y.starts ≡ true
    → lookup id (registered id y).manager.sessions ≡ some s
    → is_live s.state ≡ true
    → Reachable config (over id (registered id y))
over_reached id y s reached mine found lives =
    goes_on (registered id y) _ (goes_on y _ reached (commits id size 5 y mine))
      (exits id status s (registered id y) found lives)

one_drawn_reached : Reachable config one_drawn
unfolding begin_open reserve_session spec_validate size_validate manager_config_validate
one_drawn_reached = drawn_reached 1 (new_system config) (Reachable.starts refl) refl

one_settled_reached : Reachable config one_settled
unfolding begin_open reserve_session spec_validate size_validate commit_open exit_session tell_exits
    emit
one_settled_reached =
    goes_on one_over one_settled
      (over_reached 1 one_drawn (session 1) one_drawn_reached refl refl refl)
      (Step.settles 1 one_over refl)

two_drawn_reached : Reachable config two_drawn
unfolding begin_open reserve_session spec_validate size_validate commit_open exit_session tell_exits
    emit settle_session begin_evictions evict_loop
two_drawn_reached = drawn_reached 2 one_settled one_settled_reached refl

two_over_reached : Reachable config two_over
unfolding begin_open reserve_session spec_validate size_validate commit_open exit_session tell_exits
    emit settle_session begin_evictions evict_loop
two_over_reached = over_reached 2 two_drawn (session 2) two_drawn_reached refl refl refl

Reachable-IsManager_example : IsManager (bounds config) two_over
Reachable-IsManager_example = Reachable-IsManager config two_over two_over_reached

Reachable-IsGiven_example : IsGiven two_over
Reachable-IsGiven_example = Reachable-IsGiven config two_over two_over_reached

Reachable-IsRecorded_example : IsRecorded two_over.manager.sessions two_over.manager.history
Reachable-IsRecorded_example = Reachable-IsRecorded config two_over two_over_reached

begin_open-Drawn_example :
    Begun
      (bounds config, 0)
      two_over.starts
      two_over.settles
      two_over.manager
      (begin_open true spec two_over.manager)
begin_open-Drawn_example = begin_open-Drawn config two_over two_over_reached true spec

finish_open-Opened_example :
    Opened none two_drawn.manager.closing 2 (finish_open none 2 size 5 two_drawn.manager).0
finish_open-Opened_example =
    finish_open-Opened config two_drawn 2 two_drawn_reached refl none size 5

-- The first session is evicted for the second.
settle_session-Retained_example :
    Retained 2 two_over.manager.bounds.max_retained two_over.manager.retained_exited
      (settle_session 2 two_over.manager).0
      (settle_session 2 two_over.manager).1.retained_exited
unfolding begin_open reserve_session spec_validate size_validate commit_open exit_session tell_exits
    emit settle_session begin_evictions evict_loop
settle_session-Retained_example =
    settle_session-Retained config two_over 2 two_over_reached refl refl

evicted_first : (settle_session 2 two_over.manager).1.retained_exited ≡ 2 ∷ []
unfolding begin_open reserve_session spec_validate size_validate commit_open exit_session tell_exits
    emit settle_session begin_evictions evict_loop begin_removal
evicted_first = refl

abbrev kept_chunks : List Chunk
kept_chunks =
    record { event = record { sequence = 3; data_bytes = 7 ∷ [] }; order = 9 }
    ∷ record { event = record { sequence = 4; data_bytes = 8 ∷ [] }; order = 11 }
    ∷ record { event = record { sequence = 5; data_bytes = 9 ∷ [] }; order = 12 }
    ∷ []

abbrev resumes : AttachOptions
resumes = record { replay = replay_history; resume_after = 3; paused = true }

replay_of-Replayed_example : Replayed 3 3 5 kept_chunks (replay_of resumes kept_chunks 5)
replay_of-Replayed_example =
    replay_of-Replayed resumes 3 5 kept_chunks refl (omega arith) refl (omega arith) (omega arith)
      (refl, (refl, (refl, tt)))
