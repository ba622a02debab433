-- ===== src/Pty/Attachment.antt =====
-- `Attachment` of pty/manager.go: a replay, and a bounded queue of live events behind it. Every
-- function is one hold of the attachment's lock.
pub mod Invariant
pub mod Order
pub mod Refinement
use streammux.Base.{
  ℕ, zero, suc, ◌+◌, ◌-◌, Bool, true, false, not, ◌&&◌, ◌||◌, Option, none, some, List, [], ◌∷◌,
  ◌++◌, ltb, ◌==◌, if◌then◌else◌, length, get_elem?, Result, ok, err,
}
use streammux.Pty.Values.{
  PtyError, attachment_closed, queue_overflow, OutputEvent, ExitStatus, AttachmentEvent, output,
  exit, CloseReason, session_exited,
}

pub record Attachment : Type 0 where
  pub max_bytes : ℕ
  pub replay : List OutputEvent
  pub replay_next : ℕ
  pub queue : List AttachmentEvent
  pub bytes : ℕ
  pub active : Bool
  pub closing : Bool
  pub closed : Bool
  pub error : Option PtyError
  pub reason : Option CloseReason
  pub started : Bool

-- `newAttachment`
abbrev pub new_attachment : ℕ → Bool → List OutputEvent → Attachment
new_attachment max active replay = record {
  max_bytes = max;
  replay = replay;
  replay_next = 0;
  queue = [];
  bytes = 0;
  active = active;
  closing = false;
  closed = false;
  error = none;
  reason = none;
  started = false;
}

-- `attachmentEventBytes`
abbrev pub event_bytes : AttachmentEvent → ℕ
event_bytes (output o) = length o.data_bytes
event_bytes (exit s) = 0

-- `start`
abbrev pub start : Attachment → Bool × Attachment
start a = if a.closed then (false, a) else (true, record a { started = true })

-- `Activate`
abbrev pub activate : Attachment → Option PtyError × Attachment
activate a = if a.closed then (some attachment_closed, a) else (none, record a { active = true })

-- `enqueueLocked`
unfoldable pub enqueue : AttachmentEvent → Attachment → Result PtyError Attachment
enqueue event a =
    if a.closed || a.closing
    then err attachment_closed
    else if ltb a.max_bytes (event_bytes event) || ltb a.max_bytes (a.bytes + event_bytes event)
    then err queue_overflow
    else ok (record a { queue = a.queue ++ (event ∷ []); bytes = a.bytes + event_bytes event })

-- `enqueueExitLocked`
unfoldable pub enqueue_exit : ExitStatus → Attachment → Result PtyError Attachment
enqueue_exit status a =
    if a.closed || a.closing
    then err attachment_closed
    else ok (record a { queue = a.queue ++ (exit status ∷ []); closing = true })

-- `finish`, which `finishOnce` lets through once: `closed` is set there and nowhere else.
unfoldable pub finish : Option PtyError → CloseReason → Attachment → Attachment
finish e why a = if a.closed then a else record a {
  closed = true;
  error = e;
  reason = some why;
  replay = [];
  replay_next = 0;
  queue = [];
  bytes = 0;
}

-- What a round of the loop of `run` does: end, wait for a change, or give the sink an event.
pub data Round : Type 0 where
  ends waits : Round
  gives : AttachmentEvent → Round

abbrev pub is_replaying : Attachment → Bool
is_replaying a = ltb a.replay_next (length a.replay)

-- The next event of the replay; there is one as long as the replay is pending.
abbrev pub take_replay : Attachment → Option OutputEvent → Round × Attachment
take_replay a none = (ends, a)
take_replay a (some o) = (
  gives (output o),
  if a.replay_next + 1 == length a.replay
      then record a { replay = []; replay_next = 0 }
      else record a { replay_next = a.replay_next + 1 },
)

-- The first event of the queue, behind the replay.
abbrev pub take_queue : Attachment → List AttachmentEvent → Round × Attachment
take_queue a [] = if a.closing then (ends, finish none session_exited a) else (waits, a)
take_queue a (event ∷ rest) =
    if not a.active
    then (waits, a)
    else (gives event, record a { queue = rest; bytes = a.bytes - event_bytes event })

-- One hold of the lock in `run`.
unfoldable pub run_round : Attachment → Round × Attachment
run_round a =
    if a.closed
    then (ends, a)
    else if is_replaying a
    then if not a.active then (waits, a) else take_replay a (get_elem? a.replay a.replay_next)
    else take_queue a a.queue
