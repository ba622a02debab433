-- ===== src/Pty/Observer.antt =====
-- `Subscription` of pty/manager.go: the bounded queue of one observer, and `emitLocked` over all of
-- them. Every function is one hold of the subscription's lock.
pub mod Bounds
use streammux.Base.{
  ℕ, ◌+◌, ◌-◌, Bool, true, false, ◌||◌, Option, none, some, List, [], ◌∷◌, ◌++◌, ltb, if◌then◌else◌,
  length, Result, ok, err,
}
use streammux.Base.Map.{Map}
use streammux.Pty.Values.{
  PtyError, observer_closed, queue_overflow, OutputEvent, ExitStatus, Size, CloseReason,
}

-- `SessionState`
pub data SessionState : Type 0 where
  starting running stopping exited failed : SessionState

-- `SessionInfo`, the start in nanoseconds
pub record SessionInfo : Type 0 where
  pub id : ℕ
  pub state : SessionState
  pub size : Size
  pub started_at : ℕ
  pub last_sequence : ℕ
  pub exit : Option ExitStatus
  pub attachment_count : ℕ
  pub history_available : Bool

-- `EventKind`
pub data EventKind : Type 0 where
  opened output exited attached detached retained evicted removed : EventKind

-- `AttachmentInfo`
pub record AttachmentInfo : Type 0 where
  pub id : ℕ
  pub reason : Option CloseReason

-- `Event`
pub record Event : Type 0 where
  pub kind : EventKind
  pub session : SessionInfo
  pub output : Option OutputEvent
  pub attachment : Option AttachmentInfo

-- `ObserverCloseReason`
pub data ObserverReason : Type 0 where
  explicit context_canceled overflowed manager_closed : ObserverReason

pub record Subscription : Type 0 where
  pub max_bytes : ℕ
  pub queue : List Event
  pub bytes : ℕ
  pub closed : Bool
  pub error : Option PtyError
  pub reason : Option ObserverReason

-- `newSubscription`
abbrev pub new_subscription : ℕ → Subscription
new_subscription max = record {
  max_bytes = max;
  queue = [];
  bytes = 0;
  closed = false;
  error = none;
  reason = none;
}

-- `eventBytes`
abbrev pub output_bytes : Option OutputEvent → ℕ
output_bytes none = 128
output_bytes (some o) = length o.data_bytes + 64

abbrev pub observed_bytes : Event → ℕ
observed_bytes e = output_bytes e.output

-- `Subscription.enqueue`
unfoldable pub observe : Event → Subscription → Result PtyError Subscription
observe e s =
    if s.closed
    then err observer_closed
    else if ltb s.max_bytes (observed_bytes e) || ltb s.max_bytes (s.bytes + observed_bytes e)
    then err queue_overflow
    else ok (record s { queue = s.queue ++ (e ∷ []); bytes = s.bytes + observed_bytes e })

-- What a round of `next` comes to.
pub data Next : Type 0 where
  yields : Event → Next
  over idle : Next

abbrev pub next_queue : Subscription → List Event → Next × Subscription
next_queue s [] = (if s.closed then over else idle, s)
next_queue s (e ∷ rest) = (yields e, record s { queue = rest; bytes = s.bytes - observed_bytes e })

-- One round of the loop of `next`
unfoldable pub next_event : Subscription → Next × Subscription
next_event s = next_queue s s.queue

-- `Subscription.finish`, which `finishOnce` lets through once
unfoldable pub end_subscription : Option PtyError → ObserverReason → Subscription → Subscription
end_subscription e why s =
    if s.closed
    then s
    else record s { closed = true; error = e; reason = some why; queue = []; bytes = 0 }

abbrev pub keep_or_fail :
    ℕ
    → Subscription
    → Result PtyError Subscription
    → Map Subscription × Map Subscription
    → Map Subscription × Map Subscription
keep_or_fail id s (ok s') (kept, lost) = ((id, s') ∷ kept, lost)
keep_or_fail id s (err x) (kept, lost) = (kept, ((id, s) ∷ lost))

-- `emitLocked`: the observers that stay, and those that fail.
unfoldable pub emit : Event → Map Subscription → Map Subscription × Map Subscription
emit e [] = ([], [])
emit e ((id, s) ∷ rest) = keep_or_fail id s (observe e s) (emit e rest)
