-- ===== src/Pty/Manager/Removal.antt =====
-- How an exited session leaves the `Manager` of pty/manager.go: `Remove`, the eviction of retained
-- sessions, and what they share.
use streammux.Base.{
  ℕ, zero, suc, Bool, true, false, not, ◌||◌, Option, none, some, List, [], ◌∷◌, ltb, if◌then◌else◌,
  length, Result, ok, err,
}
use streammux.Base.Map.{lookup, delete, remove_key}
use streammux.Pty.Values.{
  PtyError, session_not_found, session_running_error, manager_closed_error, CloseReason,
  session_removed, session_evicted,
}
use streammux.Pty.History.{remove_history}
use streammux.Pty.Observer.{EventKind}
use streammux.Pty.Manager.{Session, Manager, tick, is_live, announce, session_event, put_session}

-- `retainedRemoval`: the session by its ID, and the attachments to finish.
pub record Removal : Type 0 where
  pub session : ℕ
  pub attachments : List ℕ
  pub reason : CloseReason
  pub kind : EventKind

-- `beginRetainedRemovalLocked` where it goes through.
abbrev pub start_removal : Session → CloseReason → EventKind → Manager → Removal × Manager
start_removal s why kind m = (
  record { session = s.id; attachments = s.attached; reason = why; kind = kind },
  record (put_session s.id (record s { attached = []; retained = false; removing = true }) m) {
    retained_exited = remove_key s.id m.retained_exited;
  },
)

abbrev pub keep_removal : Manager → Option (Removal × Manager) → Option Removal × Manager
keep_removal m none = (none, m)
keep_removal m (some (r, m')) = (some r, m')

-- `beginRetainedRemovalLocked`
unfoldable pub begin_removal :
    Session → CloseReason → EventKind → Manager → Option (Removal × Manager)
begin_removal s why kind m =
    if not s.retained || s.removing then none else some (start_removal s why kind m)

-- What a round of the eviction loop makes of the oldest ID.
abbrev pub evict_session : ℕ → List ℕ → Option Session → Manager → Option Removal × Manager
evict_session id rest none m = (none, record m { retained_exited = rest })
evict_session id rest (some s) m =
    if not s.retained
    then (none, record m { retained_exited = rest })
    else keep_removal m (begin_removal s session_evicted EventKind.evicted m)

abbrev pub add_removal : Option Removal → List Removal × Manager → List Removal × Manager
add_removal none more = more
add_removal (some r) (removals, m) = (r ∷ removals, m)

-- The loop of `beginRetentionEvictionsLocked` over the retained IDs.
unfoldable pub evict_loop : ℕ → List ℕ → Manager → List Removal × Manager
evict_loop zero ids m = ([], m)
evict_loop (suc fuel) [] m = ([], m)
evict_loop (suc fuel) (id ∷ rest) m =
    let round = evict_session id rest (lookup id m.sessions) m in
    let more = evict_loop fuel round.1.retained_exited round.1 in
    if ltb m.bounds.max_retained (length (id ∷ rest)) then add_removal round.0 more else ([], m)

-- `beginRetentionEvictionsLocked`. A round takes an ID off the list, so its length is fuel enough.
unfoldable pub begin_evictions : Manager → List Removal × Manager
begin_evictions m = evict_loop (length m.retained_exited) m.retained_exited m

-- `removeSessionLocked`: the session is no longer on the table, and its history is gone.
unfoldable pub remove_session : ℕ → Manager → Manager
remove_session id m = record m {
  sessions = delete id m.sessions;
  retained_exited = remove_key id m.retained_exited;
  history = remove_history id m.history;
  generation = tick m.generation;
}

-- The session as `removeSessionLocked` leaves it to its last event.
abbrev pub gone : Session → Session
gone s = record s { retained = false; removing = false }

abbrev pub is_evicted : EventKind → Bool
is_evicted EventKind.evicted = true
is_evicted _ = false

-- The counter of the removals of a kind.
abbrev pub count_removal : EventKind → Manager → Manager
count_removal kind m =
    if is_evicted kind
    then record m { sessions_evicted = tick m.sessions_evicted }
    else record m { sessions_removed = tick m.sessions_removed }

abbrev pub drop_session : Session → EventKind → Manager → Manager
drop_session s kind m =
    let m' = count_removal kind (remove_session s.id m) in
    announce (session_event kind (gone s) m') m'

abbrev pub finish_found : Removal → Option Session → Manager → Manager
finish_found r none m = m
finish_found r (some s) m = if not s.removing then m else drop_session s r.kind m

-- `finishRetainedRemoval`, when the attachments are done
unfoldable pub finish_removal : Removal → Manager → Manager
finish_removal r m = finish_found r (lookup r.session m.sessions) m

abbrev pub removal_of : Manager → Option (Removal × Manager) → Result PtyError Removal × Manager
removal_of m none = (err session_not_found, m)
removal_of m (some (r, m')) = (ok r, m')

abbrev pub remove_found : Option Session → Manager → Result PtyError Removal × Manager
remove_found none m = (err session_not_found, m)
remove_found (some s) m =
    if is_live s.state
    then (err session_running_error, m)
    else removal_of m (begin_removal s session_removed EventKind.removed m)

-- `Remove` under the lock: the removal that it goes on to finish.
unfoldable pub remove : ℕ → Manager → Result PtyError Removal × Manager
remove id m =
    if m.closing then (err manager_closed_error, m) else remove_found (lookup id m.sessions) m
