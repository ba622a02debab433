-- ===== src/Pty/Protocol/Streams/Outcomes.antt =====
-- `handleAttach` of pty/protocol.go opens the stream of an attachment whole, or leaves nothing of it.
use streammux.Base.{
  ℕ, ◌≡◌, refl, sym, ap, ◌∙◌, subst, true, false, Option, none, some, List, if◌then◌else◌, ◌==◌,
  is_some, Result, ok, err, arith, if_elim, ok-ne-err,
}
use streammux.Base.Map.{
  lookup, insert, delete, keys, Distinct, lookup-insert, lookup-delete, Distinct-insert,
  lookup-insert_same,
}
use streammux.Frame.{Frame}
use streammux.Pty.Values.{PtyError, CloseReason}
use streammux.Pty.Attachment.{Attachment, activate, finish}
use streammux.Pty.Manager.{Session, Attached, Manager}
use streammux.Pty.Manager.Attaching.{AttachResult, Caller}
use streammux.Pty.Manager.Serving.{record_close, close_found, let_go_found}
use streammux.Pty.Protocol.Sink.{Sent, Answers, first_answer}
use streammux.Pty.Protocol.Handlers.{
  Json, Protocol, Response, AttachRequest, attaches, authorize, decode, for_session, permitted-ok,
}
use streammux.Pty.Protocol.Streams.{
  attach_free, attach_decoded, check_attach, close_known, close_attachment, Attaching, with_stream,
  clean_up, activate_known, activate_stored, opened_stream, attached_stream, attach_checked,
  handle_attach,
}

abbrev pub IsClosed : Option Attached → Type 0
IsClosed none = Unit {0}
IsClosed (some a) = a.state.closed ≡ true

-- How the handler leaves a stream: with the attachments as they were, or with one of its own. A refusal
-- makes no attachment, and the handler fails with it exactly if the error response cannot be sent.
pub data Outcome (answers : Answers) (p : Protocol) (stream : ℕ) (x : Attaching) : Type 0 where
  refused :
      is_some x.refusal ≡ true
      → x.made ≡ none
      → x.error ≡ first_answer answers
      → x.protocol ≡ p
      → Outcome answers p stream x
  failed :
      (id : ℕ)
      → x.made ≡ some id
      → is_some x.error ≡ true
      → ((j : ℕ) → lookup j x.protocol.attachments ≡ lookup j p.attachments)
      → IsClosed (lookup id x.manager.attachments)
      → Outcome answers p stream x
  opened :
      (id : ℕ)
      → x.made ≡ some id
      → x.error ≡ none
      → ((j : ℕ)
          → lookup j x.protocol.attachments
            ≡ (if stream == j then some id else lookup j p.attachments))
      → Outcome answers p stream x

let_go_found-attachments :
    (id : ℕ) (why : CloseReason) (last : Session) (o : Option Session) (m : Manager)
    → (let_go_found id why last o m).attachments ≡ m.attachments
let_go_found-attachments id why last none m = refl
let_go_found-attachments id why last (some s) m = refl

finish-closed : (why : CloseReason) (a : Attachment) → (finish none why a).closed ≡ true
unfolding finish
finish-closed why a =
    if_elim (λ (x : Attachment). x.closed ≡ true) a.closed _ _ (λ h. h) (λ _. refl)

closed_under :
    (id : ℕ) (a : Attached) (m m' : Manager)
    → m'.attachments ≡ m.attachments
    → lookup id m.attachments ≡ some a
    → a.state.closed ≡ true
    → IsClosed (lookup id m'.attachments)
closed_under id a m m' same found closed = subst IsClosed (sym (ap (lookup id) same ∙ found)) closed

close_found-IsClosed :
    (id : ℕ) (why : CloseReason) (s : Session) (a : Attached) (m : Manager)
    → lookup id m.attachments ≡ some a
    → a.state.closed ≡ true
    → IsClosed (lookup id (close_found id why s (some a) m).attachments)
close_found-IsClosed id why s a m found closed =
    if_elim (λ (x : Manager). IsClosed (lookup id x.attachments)) a.registered _ _
      (λ _.
        let a' = record a { registered = false } in
        subst IsClosed
          (sym (
            ap (lookup id) (let_go_found-attachments id why s (lookup a.session m.sessions) _)
            ∙ lookup-insert_same id a' m.attachments))
          closed)
      (λ _. subst IsClosed (sym found) closed)

close_known-IsClosed :
    (id : ℕ) (s : Session) (o : Option Attached) (m : Manager)
    → lookup id m.attachments ≡ o
    → IsClosed (lookup id (close_known id s o m).attachments)
unfolding record_close
close_known-IsClosed id s none m e = subst IsClosed (sym e) tt
close_known-IsClosed id s (some a) m e =
    if_elim (λ (x : Manager). IsClosed (lookup id x.attachments)) a.state.closed _ _
      (λ closed. subst IsClosed (sym e) closed)
      λ _.
        let a' = record a { state = finish none CloseReason.explicit a.state } in
        let m' = record m { attachments = insert id a' m.attachments } in
        let found : lookup id m'.attachments ≡ some a' = lookup-insert_same id a' m.attachments in
        subst (λ o. IsClosed (lookup id (close_found id CloseReason.explicit s o m').attachments))
          (sym found)
          (close_found-IsClosed id CloseReason.explicit s a' m' found
            (finish-closed CloseReason.explicit a.state))

module _ (answers : Answers) (p : Protocol) (stream : ℕ) (distinct : Distinct (keys p.attachments))
    (fresh : lookup stream p.attachments ≡ none) where
  cleaned :
      (id j : ℕ)
      → lookup j (delete stream (insert stream id p.attachments)) ≡ lookup j p.attachments
  cleaned id j = ground (
    arith,
    lookup-delete stream j (insert stream id p.attachments)
        (Distinct-insert stream id p.attachments distinct),
    lookup-insert stream j id p.attachments,
    fresh,
  )

  clean_up-Outcome :
      (id : ℕ) (s : Session) (m : Manager) (frames : List Sent) (e : PtyError)
      → Outcome answers p stream (clean_up stream id s (with_stream stream id p) m frames e)
  unfolding close_attachment
  clean_up-Outcome id s m frames e =
      failed id refl refl (cleaned id) (close_known-IsClosed id s (lookup id m.attachments) m refl)

  activate_known-Outcome :
      (id : ℕ) (s : Session) (m : Manager) (frames : List Sent) (a : Attached)
      (r : Option PtyError × Attachment)
      → Outcome answers p stream (activate_known stream id s (with_stream stream id p) m frames a r)
  activate_known-Outcome id s m frames a (some e, state) = clean_up-Outcome id s m frames e
  activate_known-Outcome id s m frames a (none, state) =
      opened id refl refl (λ j. lookup-insert stream j id p.attachments)

  activate_stored-Outcome :
      (id : ℕ) (s : Session) (m : Manager) (frames : List Sent) (o : Option Attached)
      → Outcome answers p stream (activate_stored stream id s (with_stream stream id p) m frames o)
  activate_stored-Outcome id s m frames none =
      opened id refl refl (λ j. lookup-insert stream j id p.attachments)
  activate_stored-Outcome id s m frames (some a) =
      activate_known-Outcome id s m frames a (activate a.state)

  opened_stream-Outcome :
      (id : ℕ) (s : Session) (m : Manager) (frames : List Sent) (e : Option PtyError)
      → Outcome answers p stream (opened_stream stream id s (with_stream stream id p) m frames e)
  opened_stream-Outcome id s m frames (some e) = clean_up-Outcome id s m frames e
  opened_stream-Outcome id s m frames none =
      activate_stored-Outcome id s m frames (lookup id m.attachments)

  attached_stream-Outcome :
      (s : Session) (r : Result PtyError (ℕ × AttachResult) × Manager)
      → Outcome answers p stream (attached_stream stream s answers p r)
  attached_stream-Outcome s (err e, m) = refused refl refl refl refl
  attached_stream-Outcome s (ok (id, r), m) = opened_stream-Outcome id s m _ _

checked_free :
    (p : Protocol) (f : Frame) (m : Manager) (r : AttachRequest) (o : Option ℕ)
    (found : Result Response Session) (x : Session × AttachRequest)
    → attach_free r o found ≡ ok x
    → o ≡ none
checked_free p f m r none found x e = refl
checked_free p f m r (some id) (err answer) x e = absurd (ok-ne-err (sym e))
checked_free p f m r (some id) (ok s) x e = absurd (ok-ne-err (sym e))

attach_decoded-free :
    (p : Protocol) (f : Frame) (m : Manager) (r : Result PtyError AttachRequest)
    (x : Session × AttachRequest)
    → attach_decoded p f m r ≡ ok x
    → lookup f.header.stream_id p.attachments ≡ none
attach_decoded-free p f m (err e) x h = absurd (ok-ne-err (sym h))
attach_decoded-free p f m (ok r) x h =
    checked_free p f m r _ _ x (permitted-ok (authorize p (for_session attaches f)) _ x h).1

attach_checked-Outcome :
    (caller : Caller) (answers : Answers) (p : Protocol) (f : Frame) (m : Manager)
    (c : Result Response (Session × AttachRequest))
    → Distinct (keys p.attachments)
    → ((x : Session × AttachRequest) → c ≡ ok x → lookup f.header.stream_id p.attachments ≡ none)
    → Outcome answers p f.header.stream_id (attach_checked caller answers p f m c)
attach_checked-Outcome caller answers p f m (err answer) distinct free = refused refl refl refl refl
attach_checked-Outcome caller answers p f m (ok (s, r)) distinct free =
    attached_stream-Outcome answers p f.header.stream_id distinct (free (s, r) refl) s _

-- A request to attach ends in one of three ways, whatever the Manager and the sends come to: it is refused
-- with an error response, no attachment is made, the adapter is as it was, and the handler fails exactly
-- if that response cannot be sent; or the handler fails, the attachments of the connection are as they
-- were and the one that was made is closed; or the stream has its attachment, and every other stream
-- its own. The adapter's table is assumed to hold each stream once.
pub handle_attach-Outcome :
    (json : Json) (caller : Caller) (answers : Answers) (p : Protocol) (f : Frame) (m : Manager)
    → Distinct (keys p.attachments)
    → Outcome answers p f.header.stream_id (handle_attach json caller answers p f m)
unfolding handle_attach check_attach
handle_attach-Outcome json caller answers p f m distinct =
    attach_checked-Outcome caller answers p f m (check_attach json p f m) distinct
      (attach_decoded-free p f m (decode json.parse_attach json p f))
