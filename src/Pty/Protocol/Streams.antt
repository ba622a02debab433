-- ===== src/Pty/Protocol/Streams.antt =====
-- `handleAttach` of pty/protocol.go.
pub mod Outcomes
use streammux.Base.{
  ℕ, ◌≡◌, refl, sym, ap, ◌∙◌, subst, true, false, Option, none, some, List, [], if◌then◌else◌, ◌==◌,
  is_some, Result, ok, err, arith, if_elim, ok-ne-err,
}
use streammux.Base.Map.{
  lookup, insert, delete, keys, Distinct, lookup-insert, lookup-delete, Distinct-insert,
  lookup-insert_same,
}
use streammux.Frame.{Frame}
use streammux.Pty.Values.{PtyError, already_attached, CloseReason}
use streammux.Pty.Attachment.{Attachment, activate, finish}
use streammux.Pty.Manager.{Session, Attached, Manager}
use streammux.Pty.Manager.Attaching.{AttachResult, Caller, attach}
use streammux.Pty.Manager.Serving.{record_close, close_found, let_go_found}
use streammux.Pty.Protocol.{code_already_attached}
use streammux.Pty.Protocol.Sink.{Sent, Answers, first_answer, open_stream}
use streammux.Pty.Protocol.Handlers.{
  Json, Protocol, Response, answer_error, answer_operation, answer_undecoded, AttachRequest,
  attaches, authorize, decode, for_session, permitted, permitted-ok, session_of,
}

-- No second attachment for a stream.
abbrev pub attach_free :
    AttachRequest → Option ℕ → Result Response Session → Result Response (Session × AttachRequest)
attach_free r other (err answer) = err answer
attach_free r none (ok s) = ok (s, r)
attach_free r (some id) (ok s) = err (answer_error code_already_attached already_attached)

abbrev pub attach_decoded :
    Protocol
    → Frame
    → Manager
    → Result PtyError AttachRequest
    → Result Response (Session × AttachRequest)
attach_decoded p f m (err e) = err (answer_undecoded e)
attach_decoded p f m (ok r) = permitted (authorize p (for_session attaches f)) (
    attach_free r (lookup f.header.stream_id p.attachments)
      (session_of (lookup f.header.stream_id m.sessions)))

-- `handleAttach` up to `Session.Attach`
unfoldable pub check_attach :
    Json → Protocol → Frame → Manager → Result Response (Session × AttachRequest)
check_attach json p f m = attach_decoded p f m (decode json.parse_attach json p f)

-- `Attachment.Close`, with the attachment's session as it was got.
abbrev pub close_known : ℕ → Session → Option Attached → Manager → Manager
close_known id s none m = m
close_known id s (some a) m =
    if a.state.closed
    then m
    else record_close id CloseReason.explicit s (record m {
      attachments =
          insert id (record a { state = finish none CloseReason.explicit a.state }) m.attachments;
    })

unfoldable pub close_attachment : ℕ → Session → Manager → Manager
close_attachment id s m = close_known id s (lookup id m.attachments) m

-- What `handleAttach` comes to: the adapter and the Manager, the error response in place of an attachment,
-- the attachment that was made and the frames sent otherwise, and the error of the handler.
pub record Attaching : Type 0 where
  pub protocol : Protocol
  pub manager : Manager
  pub refusal : Option Response
  pub made : Option ℕ
  pub frames : List Sent
  pub error : Option PtyError

abbrev pub with_stream : ℕ → ℕ → Protocol → Protocol
with_stream stream id p = record p { attachments = insert stream id p.attachments }

-- `cleanup`, which finds the map as `handleAttach` left it
abbrev pub clean_up : ℕ → ℕ → Session → Protocol → Manager → List Sent → PtyError → Attaching
clean_up stream id s p m frames e = record {
  protocol = record p { attachments = delete stream p.attachments };
  manager = close_attachment id s m;
  refusal = none;
  made = some id;
  frames = frames;
  error = some e;
}

abbrev pub activate_known :
    ℕ
    → ℕ
    → Session
    → Protocol
    → Manager
    → List Sent
    → Attached
    → Option PtyError × Attachment
    → Attaching
activate_known stream id s p m frames a (some e, state) = clean_up stream id s p m frames e
activate_known stream id s p m frames a (none, state) = record {
  protocol = p;
  manager = record m { attachments = insert id (record a { state = state }) m.attachments };
  refusal = none;
  made = some id;
  frames = frames;
  error = none;
}

abbrev pub activate_stored :
    ℕ → ℕ → Session → Protocol → Manager → List Sent → Option Attached → Attaching
activate_stored stream id s p m frames none = record {
  protocol = p;
  manager = m;
  refusal = none;
  made = some id;
  frames = frames;
  error = none;
}
activate_stored stream id s p m frames (some a) =
    activate_known stream id s p m frames a (activate a.state)

abbrev pub opened_stream :
    ℕ → ℕ → Session → Protocol → Manager → List Sent → Option PtyError → Attaching
opened_stream stream id s p m frames (some e) = clean_up stream id s p m frames e
opened_stream stream id s p m frames none =
    activate_stored stream id s p m frames (lookup id m.attachments)

abbrev pub attached_stream :
    ℕ → Session → Answers → Protocol → Result PtyError (ℕ × AttachResult) × Manager → Attaching
attached_stream stream s answers p (err e, m) = record {
  protocol = p;
  manager = m;
  refusal = some (answer_operation e);
  made = none;
  frames = [];
  error = first_answer answers;
}
attached_stream stream s answers p (ok (id, r), m) =
    let sending = open_stream answers r in
    opened_stream stream id s (with_stream stream id p) m sending.frames sending.error

abbrev pub attach_checked :
    Caller
    → Answers
    → Protocol
    → Frame
    → Manager
    → Result Response (Session × AttachRequest)
    → Attaching
attach_checked caller answers p f m (err answer) = record {
  protocol = p;
  manager = m;
  refusal = some answer;
  made = none;
  frames = [];
  error = first_answer answers;
}
attach_checked caller answers p f m (ok (s, r)) = attached_stream f.header.stream_id s answers p (
    attach s.id (record { replay = r.replay; resume_after = r.resume_after; paused = true }) caller
      m)

-- `handleAttach`, with the context of the adapter and what the sends come to; an error response is the
-- first of them and the last
unfoldable pub handle_attach : Json → Caller → Answers → Protocol → Frame → Manager → Attaching
handle_attach json caller answers p f m =
    attach_checked caller answers p f m (check_attach json p f m)
