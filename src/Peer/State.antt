-- ===== src/Peer/State.antt =====
-- The Peer of peer.go as one state: what its mutex guards and the atomic call counter, and every
-- hold of the lock as one function. A handler is named by a number; the waiting between two holds of
-- the lock is in Peer/Steps.antt.
pub mod Closing
pub mod Handlers
pub mod Invariant
use streammux.Base.{
  ℕ, zero, suc, ◌+◌, ◌%◌, ◌^◌, Bool, true, false, not, ◌&&◌, ◌||◌, Option, none, some, List, [],
  ◌∷◌, ◌++◌, ltb, leb, ◌==◌, if◌then◌else◌, length, is_some, map, Result, ok, err,
}
use streammux.Base.Map.{Map, lookup, insert, keys, sum_of}
use streammux.Errors.{
  Error, peer_closed, handler_registered, handler_not_found, invalid_flags, invalid_correlation,
  nil_context, invalid_class, peer_queue_overflow, unexpected_response, too_many_active_streams,
}
use streammux.Frame.{Frame, Header, flag_request, flag_response, flag_event}
use streammux.Peer.Limits.{Limits, control, bulk}
use streammux.Peer.Calls.{
  Calls, Pending, no_calls, Resolution, delivered, absorbed, unexpected, reserve, abandon, resolve,
}
use streammux.Peer.Inbound.{Inbound, no_inbound, Dispatch, Work, count, dispatch, work, frame_bytes}
use streammux.Peer.Outbound.{Outbound, OutStream, Request, no_outbound, try_enqueue}
use streammux.Peer.Schedule.{Turn, choose}

-- `Peer`; `queueOverflows` and `backpressureWaits` stand in `inbound`.
pub record Peer : Type 0 where
  pub limits : Limits
  pub handlers : Map ℕ
  pub calls : Calls
  pub inbound : Inbound
  pub outbound : Outbound
  pub received_frames : ℕ
  pub received_bytes : ℕ
  pub sent_frames : ℕ
  pub sent_bytes : ℕ
  pub protocol_errors : ℕ
  pub closed : Bool
  pub error : Option Error

-- `NewPeer`, on a validated configuration
abbrev pub new_peer : Limits → Peer
new_peer l = record {
  limits = l;
  handlers = [];
  calls = no_calls;
  inbound = no_inbound;
  outbound = no_outbound;
  received_frames = 0;
  received_bytes = 0;
  sent_frames = 0;
  sent_bytes = 0;
  protocol_errors = 0;
  closed = false;
  error = none;
}

-- `result`
abbrev pub result : Peer → Error
result p = elim p.error [ some e ↦ e | none ↦ peer_closed ]

-- The first loop of `RegisterHandlers`; a nil handler is nothing.
unfoldable pub first_conflict : Map ℕ → List (ℕ × Option ℕ) → Option Error
first_conflict registered [] = none
first_conflict registered ((type, none) ∷ rest) = some handler_not_found
first_conflict registered ((type, some handler) ∷ rest) =
    if type == 0
    then some handler_not_found
    else if is_some (lookup type registered)
    then some handler_registered
    else first_conflict registered rest

-- The second loop of `RegisterHandlers`.
unfoldable pub put_handlers : List (ℕ × Option ℕ) → Map ℕ → Map ℕ
put_handlers [] registered = registered
put_handlers ((type, none) ∷ rest) registered = put_handlers rest registered
put_handlers ((type, some handler) ∷ rest) registered =
    put_handlers rest (insert type handler registered)

abbrev pub commit_handlers : List (ℕ × Option ℕ) → Peer → Option Error → Result Error Peer
commit_handlers handlers p (some e) = err e
commit_handlers handlers p none = ok (record p { handlers = put_handlers handlers p.handlers })

-- `RegisterHandlers`; the list is the argument's map in the order in which `range` visits it.
unfoldable pub register_handlers : List (ℕ × Option ℕ) → Peer → Result Error Peer
register_handlers handlers p =
    if length handlers == 0
    then err handler_not_found
    else if p.closed
    then err peer_closed
    else commit_handlers handlers p (first_conflict p.handlers handlers)

-- `recordReceived`, `recordSent` and `recordProtocolError`
abbrev pub record_received : Frame → Peer → Peer
record_received f p = record p {
  received_frames = count p.received_frames;
  received_bytes = (p.received_bytes + frame_bytes f) % 2 ^ 64;
}

abbrev pub record_sent : Frame → Peer → Peer
record_sent f p = record p {
  sent_frames = count p.sent_frames;
  sent_bytes = (p.sent_bytes + frame_bytes f) % 2 ^ 64;
}

abbrev pub record_protocol_error : Peer → Peer
record_protocol_error p = record p { protocol_errors = count p.protocol_errors }

abbrev pub put_reserved : Peer → Option (ℕ × Calls) → Result Error (ℕ × Peer)
put_reserved p none = err invalid_correlation
put_reserved p (some (id, calls)) = ok (id, record p { calls = calls })

-- `reservePending`
unfoldable pub reserve_call : Peer → Result Error (ℕ × Peer)
reserve_call p = if p.closed then err peer_closed else put_reserved p (reserve p.calls)

abbrev pub abandon_call : ℕ → Peer → Peer
abandon_call id p = record p { calls = abandon p.limits.max_canceled id p.calls }

abbrev pub resolve_frame : Frame → Peer → Resolution × Peer
resolve_frame f p = let r = resolve f.header p.calls in (r.0, record p { calls = r.1 })

-- `Respond` makes the request's response.
unfoldable pub response_to : Frame → Frame → Result Error Frame
response_to request response =
    if not (request.header.flags == flag_request)
    then err invalid_flags
    else ok (record response {
      header = record response.header {
        flags = flag_response;
        correlation_id = request.header.correlation_id;
        stream_id = request.header.stream_id;
        message_type =
            if response.header.message_type == 0
            then request.header.message_type
            else response.header.message_type;
      };
    })

-- `Emit` checks its event.
unfoldable pub check_event : Frame → Result Error Frame
check_event f =
    if not (f.header.flags == flag_event) || not (f.header.correlation_id == 0)
    then err invalid_flags
    else ok f

abbrev pub request_of : Frame → ℕ → ℕ → Request
request_of f class ticket = record {
  frame = f;
  class = class;
  bytes = frame_bytes f;
  ticket = ticket;
}

-- What `send` does before its loop; `given` says whether it has a context.
unfoldable pub start_send : Bool → Frame → ℕ → ℕ → Peer → Result Error Request × Peer
start_send given f class ticket p =
    let r = request_of f class ticket in
    if not given
    then (err nil_context, p)
    else if ltb class control || ltb bulk class
    then (err invalid_class, p)
    else if ltb p.limits.stream_bytes r.bytes || ltb p.limits.out_bytes r.bytes
    then (
      err peer_queue_overflow,
      record p { inbound = record p.inbound { overflows = count p.inbound.overflows } },
    )
    else (ok r, p)

-- What a round of the loop of `send` comes to.
pub data Offer : Type 0 where
  accepted wait_for_room : Offer
  refused : Error → Offer

abbrev pub put_offer : Peer → Option Outbound → Offer × Peer
put_offer p none = (wait_for_room, p)
put_offer p (some o) = (accepted, record p { outbound = o })

unfoldable pub offer : Request → Peer → Offer × Peer
offer r p =
    if p.closed then (refused (result p), p) else put_offer p (try_enqueue p.limits p.outbound r)

abbrev pub put_taken : Peer → Option (Request × Outbound) × Turn → Option Request × (Turn × Peer)
put_taken p (none, t) = (none, (t, p))
put_taken p (some (r, o), t) = (some r, (t, record p { outbound = o }))

-- What `schedule` does under one hold of the lock.
unfoldable pub take_next : Turn → Peer → Option Request × (Turn × Peer)
take_next t p = put_taken p (choose p.limits p.outbound t)

-- A round of the loop of `dispatch`.
pub data Delivery : Type 0 where
  stopped : Error → Delivery
  round : Dispatch → Delivery

unfoldable pub dispatch_frame : Bool → Frame → Peer → Delivery × Peer
dispatch_frame waited f p =
    let d =
      dispatch p.limits (is_some (lookup f.header.message_type p.handlers)) waited p.inbound f in
    if p.closed then (stopped (result p), p) else (round d.0, record p { inbound = d.1 })

abbrev pub work_round : ℕ → Peer → Work × Peer
work_round id p = let w = work id p.inbound in (w.0, record p { inbound = w.1 })

-- What `fail` puts in a channel: that of a call, or that of a request.
pub data Notice : Type 0 where
  to_caller to_sender : ℕ → Error → Notice

abbrev pub caller_notices : Error → Map Pending → List Notice
caller_notices e m = map (λ id. to_caller id e) (keys m)

abbrev pub queue_notices : Error → List Request → List Notice
queue_notices e queue = map (λ r. to_sender r.ticket e) queue

unfoldable pub sender_notices : Error → Map OutStream → List Notice
sender_notices e [] = []
sender_notices e ((id, s) ∷ rest) = queue_notices e s.queue ++ sender_notices e rest

-- `fail`, up to where it cancels the context and closes the connection.
unfoldable pub fail : Error → Peer → Peer × List Notice
unfolding sender_notices
fail e p = if p.closed then (p, []) else (
  record p {
    closed = true;
    error = some e;
    calls = record p.calls { pending = []; canceled = []; canceled_order = [] };
    outbound = no_outbound;
  },
  caller_notices e p.calls.pending ++ sender_notices e p.outbound.streams,
)
