-- ===== src/Pty/Manager/Attaching.antt =====
-- Attachments and output of pty/manager.go: `Attach`, `publish`, `recordAttachmentClose`, and the rest of
-- what a `Session` and a `Manager` are asked for while processes run.
use streammux.Base.{
  ℕ, ◌+◌, ◌%◌, ◌^◌, Bool, true, false, not, ◌&&◌, ◌||◌, Option, none, some, List, [], ◌∷◌, ◌++◌,
  ltb, leb, ◌==◌, if◌then◌else◌, length, Result, ok, err,
}
use streammux.Base.Map.{Map, lookup, insert}
use streammux.Pty.Values.{
  PtyError, nil_context, nil_sink, invalid_replay_mode, session_not_found, session_exited_error,
  attachment_limit, future_sequence, attachment_closed, ExitStatus, context_canceled, OutputEvent,
  output,
}
use streammux.Pty.Attachment.{Attachment, new_attachment, enqueue, enqueue_exit, start, finish}
use streammux.Pty.History.{Chunk, append_history}
use streammux.Pty.Observer.{EventKind}
use streammux.Pty.Manager.{
  Session, Attached, Manager, tick, is_running, is_exited, chunks_of, info, announce, put_session,
}

-- `ReplayMode`, the empty one and any other among them
pub data ReplayMode : Type 0 where
  replay_default replay_none replay_history replay_unknown : ReplayMode

-- `AttachOptions`
pub record AttachOptions : Type 0 where
  pub replay : ReplayMode
  pub resume_after : ℕ
  pub paused : Bool

-- What a caller brings to `Attach`: whether it has a context and a sink, and the errors of its context:
-- at the start, and where the context ends the attachment before its exit is queued, or before it starts.
pub record Caller : Type 0 where
  pub context : Bool
  pub sink : Bool
  pub done : Option PtyError
  pub early : Bool
  pub late : Option PtyError

-- `AttachResult`
pub record AttachResult : Type 0 where
  pub replay_first : ℕ
  pub replay_last : ℕ
  pub next_live : ℕ
  pub truncated : Bool

abbrev pub no_replay : ℕ → AttachResult
no_replay next = record { replay_first = 0; replay_last = 0; next_live = next; truncated = false }

abbrev pub add_replay : OutputEvent → AttachResult → AttachResult
add_replay e r = record r {
  replay_first = if r.replay_first == 0 then e.sequence else r.replay_first;
  replay_last = e.sequence;
}

-- The loop over the history: the chunks behind `after`, with what they make of the result.
unfoldable pub replay_loop : ℕ → List Chunk → AttachResult → List OutputEvent × AttachResult
replay_loop after [] r = ([], r)
replay_loop after (c ∷ rest) r =
    let taken = replay_loop after rest (add_replay c.event r) in
    let passed = replay_loop after rest r in
    if leb c.event.sequence after then passed else (c.event ∷ taken.0, taken.1)

abbrev pub is_truncated : ℕ → List Chunk → Bool
is_truncated after [] = false
is_truncated after (c ∷ rest) = ltb ((after + 1) % 2 ^ 64) c.event.sequence

abbrev pub wants_history : ReplayMode → Bool
wants_history replay_history = true
wants_history _ = false

abbrev pub is_known : ReplayMode → Bool
is_known replay_unknown = false
is_known _ = true

-- The replay and the result of `Attach`.
unfoldable pub replay_of : AttachOptions → List Chunk → ℕ → List OutputEvent × AttachResult
replay_of options chunks last =
    let fresh = no_replay ((last + 1) % 2 ^ 64) in
    if wants_history options.replay
    then replay_loop options.resume_after chunks
        (record fresh { truncated = is_truncated options.resume_after chunks })
    else ([], fresh)

-- A context that ends closes the attachment.
abbrev pub cut_by : Bool → Attachment → Attachment
cut_by ends a = if ends then finish none context_canceled a else a

abbrev pub has_ended : Option PtyError → Bool
has_ended none = false
has_ended (some e) = true

abbrev pub exit_of : Option ExitStatus → Attachment → Result PtyError Attachment
exit_of none a = ok a
exit_of (some status) a = enqueue_exit status a

-- The exit of a session that is over goes behind the replay.
abbrev pub with_exit : Session → Attachment → Result PtyError Attachment
with_exit s a = if is_exited s.state then exit_of s.exit a else ok a

abbrev pub late_error : Option PtyError → PtyError
late_error none = attachment_closed
late_error (some e) = e

-- The session has the attachment, and its observers hear of it.
abbrev pub register_attachment : Session → ℕ → Attachment → Manager → Manager
register_attachment s id a m =
    let s' = record s { attached = s.attached ++ (id ∷ []) } in
    let m' = record (put_session s.id s' m) {
      attachments =
          insert id (record { session = s.id; registered = true; state = a }) m.attachments;
    } in
    announce
      (record {
        kind = EventKind.attached;
        session = info s' m';
        output = none;
        attachment = some (record { id = id; reason = none });
      })
      m'

abbrev pub start_attached :
    Session
    → ℕ
    → AttachResult
    → Option PtyError
    → Bool × Attachment
    → Manager
    → Result PtyError (ℕ × AttachResult) × Manager
start_attached s id r late (started, a) m =
    if not started then (err (late_error late), m) else (ok (id, r), register_attachment s id a m)

abbrev pub exit_attached :
    Session
    → ℕ
    → AttachResult
    → Option PtyError
    → Result PtyError Attachment
    → Manager
    → Result PtyError (ℕ × AttachResult) × Manager
exit_attached s id r late (err e) m = (err e, m)
exit_attached s id r late (ok a) m =
    start_attached s id r late (start (cut_by (has_ended late) a)) m

-- From the ID on.
unfoldable pub add_attachment :
    ℕ → Session → AttachOptions → Caller → Manager → Result PtyError (ℕ × AttachResult) × Manager
add_attachment id s options caller m =
    let replay = replay_of options (chunks_of s.id m).chunks s.last_sequence in
    let a = new_attachment m.bounds.attachment_bytes (not options.paused) replay.0 in
    if id == 0
    then (err attachment_limit, m)
    else exit_attached s id replay.1 caller.late (with_exit s (cut_by caller.early a)) m

abbrev pub is_attachable : Session → Bool
is_attachable s = is_running s.state || (is_exited s.state && s.retained)

-- `Attach` under the lock.
unfoldable pub attach_session :
    Session → AttachOptions → Caller → Manager → Result PtyError (ℕ × AttachResult) × Manager
attach_session s options caller m =
    if m.closing
    then (err session_not_found, m)
    else if not (is_attachable s)
    then (err session_exited_error, m)
    else if leb m.bounds.max_attachments (length s.attached)
    then (err attachment_limit, m)
    else if ltb s.last_sequence options.resume_after
    then (err future_sequence, m)
    else add_attachment (tick m.next_attachment) s options caller
        (record m { next_attachment = tick m.next_attachment })

-- `Session.Attach` for a session that the caller got by its ID; one that is gone has exited, and is not
-- retained.
abbrev pub attach_found :
    Option Session → AttachOptions → Caller → Manager → Result PtyError (ℕ × AttachResult) × Manager
attach_found none options caller m =
    if m.closing then (err session_not_found, m) else (err session_exited_error, m)
attach_found (some s) options caller m = attach_session s options caller m

abbrev pub attach_done :
    Option PtyError
    → Result PtyError (ℕ × AttachResult) × Manager
    → Manager
    → Result PtyError (ℕ × AttachResult) × Manager
attach_done (some e) next m = (err e, m)
attach_done none next m = next

-- `Attach`
unfoldable pub attach :
    ℕ → AttachOptions → Caller → Manager → Result PtyError (ℕ × AttachResult) × Manager
attach id options caller m =
    if not caller.context
    then (err nil_context, m)
    else attach_done caller.done
        (if not caller.sink
          then (err nil_sink, m)
          else if not (is_known options.replay)
          then (err invalid_replay_mode, m)
          else attach_found (lookup id m.sessions) options caller m)
        m

-- What output makes of the attachments of a session: those that stay registered with it, those that are to
-- be finished, and the store.
pub record Told : Type 0 where
  pub stay : List ℕ
  pub failed : List ℕ
  pub store : Map Attached

abbrev pub tell_one : ℕ → Attached → Result PtyError Attachment → Told → Told
tell_one id a (ok state) t = record t {
  stay = id ∷ t.stay;
  store = insert id (record a { state = state }) t.store;
}
tell_one id a (err e) t = record t { failed = id ∷ t.failed }

abbrev pub tell_output : OutputEvent → ℕ → Option Attached → Told → Told
tell_output e id none t = t
tell_output e id (some a) t = tell_one id a (enqueue (output e) a.state) t

unfoldable pub tell_outputs : OutputEvent → List ℕ → Map Attached → Told
tell_outputs e [] store = record { stay = []; failed = []; store = store }
tell_outputs e (id ∷ rest) store =
    let t = tell_outputs e rest store in tell_output e id (lookup id t.store) t

abbrev pub publish_found : ℕ → List ℕ → Option Session → Manager → List ℕ × Manager
publish_found id bytes none m = ([], m)
publish_found id bytes (some s) m =
    let e : OutputEvent = record { sequence = tick s.last_sequence; data_bytes = bytes } in
    let t = tell_outputs e s.attached m.attachments in
    let s' = record s { last_sequence = tick s.last_sequence; attached = t.stay } in
    let m' = record (put_session id s' m) {
      history = append_history s.id e m.history;
      attachments = t.store;
    } in
    (
      t.failed,
      announce
          (record {
            kind = EventKind.output;
            session = info s' m';
            output = some e;
            attachment = none;
          })
          m',
    )

-- `publish` for bytes that the process has written: the attachments listed are to be finished.
unfoldable pub publish : ℕ → List ℕ → Manager → List ℕ × Manager
publish id bytes m = publish_found id bytes (lookup id m.sessions) m
