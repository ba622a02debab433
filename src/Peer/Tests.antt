-- ===== src/Peer/Tests.antt =====
-- A Peer on concrete frames, calls and queues.
use streammux.Base.{ℕ, ◌≡◌, ◌≤◌, refl, true, false, Option, none, some, List, [], ◌∷◌, ok, arith}
use streammux.Errors.{Error, canceled}
use streammux.Frame.{Header, Frame}
use streammux.Peer.Limits.{Limits, IsLimits, default_peer_config, with_defaults, default_classify}
use streammux.Peer.Outbound.{
  Outbound, Request, no_outbound, try_enqueue, take_locked, fits, enqueue, take_at, settle,
}
use streammux.Peer.Outbound.Invariant.{
  IsOutbound, IsRequest, no_outbound-IsOutbound, try_enqueue-IsOutbound,
}
use streammux.Peer.Outbound.Fifo.{Sent, Served, queue_of, try_enqueue-Sent, take_locked-Served}
use streammux.Peer.Schedule.{Turn, first_turn, choose, weight, pick, scan_class}
use streammux.Peer.Schedule.WorkConserving.{choose-takes}
use streammux.Peer.Schedule.Bypass.{IsTurn, Bypass, rest, prefer, Bypass-le-weight}
use streammux.Peer.Calls.{
  Calls, no_calls, delivered, absorbed, unexpected, reserve, abandon, resolve, reserve_loop,
}
use streammux.Peer.Calls.Invariant.{IsCalls, no_calls-IsCalls}
use streammux.Peer.Calls.Tombstones.{resolve_late}
use streammux.Peer.Calls.Reserve.{Reserved, reserve-Reserved, reserve-total}
use streammux.Peer.Inbound.{Inbound, no_inbound, dispatch}
use streammux.Peer.Inbound.Order.{Dispatched, dispatch-Dispatched}
use streammux.Peer.Inbound.Worker.{HasRun, answer_to, run_inbound, run_inbound-HasRun}
use streammux.Peer.Inbound.Bounds.{IsInbound}
use streammux.Peer.State.{
  Peer, new_peer, register_handlers, first_conflict, put_handlers, request_of, start_send, offer,
  fail,
}
use streammux.Peer.State.Closing.{Failed, fail-Failed}
use streammux.Peer.State.Handlers.{Registered, register_handlers-Registered}
use streammux.Peer.State.Invariant.{IsPeer}
use streammux.Peer.Steps.{Steps, here, grows, offers}
use streammux.Peer.Steps.Reachable.{Steps-IsPeer}

abbrev small : Limits
small = record {
  out_bytes = 100;
  out_frames = 4;
  stream_bytes = 60;
  stream_frames = 2;
  max_active = 2;
  max_canceled = 2;
  backpressure = false;
  control_weight = 2;
  interactive_weight = 1;
  bulk_weight = 1;
}

small-IsLimits : IsLimits small
small-IsLimits = omega arith

abbrev greeting : Frame
greeting = record {
  header = record {
    payload_length = 2;
    version = 1;
    message_type = 16;
    flags = 4;
    correlation_id = 0;
    stream_id = 258;
  };
  payload = 104 ∷ 105 ∷ [];
}

abbrev request : Request
request = request_of greeting 2 7

request-IsRequest : IsRequest small request
request-IsRequest = omega arith

abbrev one_queued : Outbound
one_queued = record {
  streams = (258, record { id = 258; queue = request ∷ []; bytes = 30 }) ∷ [];
  order = 258 ∷ [];
  bytes = 30;
  frames = 1;
}

queued : try_enqueue small no_outbound request ≡ some one_queued
unfolding try_enqueue fits enqueue
queued = refl

one_queued-IsOutbound : IsOutbound small one_queued
one_queued-IsOutbound =
    try_enqueue-IsOutbound small no_outbound request (no_outbound-IsOutbound small)
      request-IsRequest one_queued queued

taken : take_locked one_queued 2 0 ≡ (some (request, no_outbound), 0)
unfolding take_locked take_at settle
taken = refl

abbrev one_call : Calls
one_call = record {
  next = 1;
  pending = (1, record { message_type = 16; stream_id = 258 }) ∷ [];
  canceled = [];
  canceled_order = [];
}

one_call-IsCalls : IsCalls 2 one_call
one_call-IsCalls = record {
  calls = (refl, tt);
  tombstones = tt;
  ordered = tt;
  tracked = λ k. refl;
  bounded = omega arith;
  apart = λ k h. refl;
  nonzero = (refl, refl);
  next_range = omega arith;
}

abbrev answer : Header
answer = record {
  payload_length = 0;
  version = 1;
  message_type = 16;
  flags = 2;
  correlation_id = 1;
  stream_id = 258;
}

abbrev busy : Peer
busy = record (new_peer small) { calls = one_call; outbound = one_queued }

reserved :
    reserve no_calls
    ≡ some (
      1,
      record no_calls { next = 1; pending = (1, record { message_type = 0; stream_id = 0 }) ∷ [] },
    )
unfolding reserve reserve_loop
reserved = refl

with_defaults_small :
    with_defaults default_peer_config
    ≡ ok (record default_peer_config { classify = some default_classify })
unfolding with_defaults
with_defaults_small = refl

try_enqueue-Sent_example : Sent request (queue_of no_outbound) (queue_of one_queued)
try_enqueue-Sent_example = try_enqueue-Sent small no_outbound one_queued request queued

take_locked-Served_example :
    (id : ℕ) × Served id request (queue_of one_queued) (queue_of no_outbound) × (request.class ≡ 2)
take_locked-Served_example =
    take_locked-Served small one_queued no_outbound 2 0 0 request one_queued-IsOutbound taken

choose-takes_example :
    (x : Request × Outbound) × (t : Turn) × (choose small one_queued first_turn ≡ (some x, t))
choose-takes_example =
    choose-takes small one_queued first_turn 258
      (record { id = 258; queue = request ∷ []; bytes = 30 }) one_queued-IsOutbound (omega arith)
      refl

first-IsTurn : IsTurn small first_turn
first-IsTurn = omega arith

-- A control request beside the interactive one.
abbrev urgent : Request
urgent = request_of (record greeting { header = record greeting.header { stream_id = 9 } }) 1 8

abbrev two_queued : Outbound
two_queued = record {
  streams =
      (258, record { id = 258; queue = request ∷ []; bytes = 30 })
      ∷ (9, record { id = 9; queue = urgent ∷ []; bytes = 30 })
      ∷ [];
  order = 258 ∷ 9 ∷ [];
  bytes = 60;
  frames = 2;
}

queued_too : try_enqueue small one_queued urgent ≡ some two_queued
unfolding try_enqueue fits enqueue
queued_too = refl

two_queued-IsOutbound : IsOutbound small two_queued
two_queued-IsOutbound =
    try_enqueue-IsOutbound small one_queued urgent one_queued-IsOutbound (omega arith) two_queued
      queued_too

abbrev second_turn : Turn
second_turn = record { class_index = 0; credit = 1; cursor = 0 }

urgent_first : choose small two_queued first_turn ≡ (some (urgent, one_queued), second_turn)
unfolding choose pick scan_class take_locked take_at settle
urgent_first = refl

abbrev passed_over : Bypass small 1 first_turn 1
passed_over =
    prefer two_queued one_queued urgent 2 two_queued-IsOutbound urgent_first refl (omega arith)
      (omega arith)
      (record {
        id = 258;
        stream = record { id = 258; queue = request ∷ []; bytes = 30 };
        first = request;
        rest = [];
        found = refl;
        queued = refl;
        classed = refl;
      })
      rest

Bypass-le-weight_example : 1 ≤ weight small 1
Bypass-le-weight_example =
    Bypass-le-weight small 1 first_turn 1 small-IsLimits first-IsTurn passed_over

reserve-Reserved_example :
    Reserved 2 no_calls 1
      (record no_calls { next = 1; pending = (1, record { message_type = 0; stream_id = 0 }) ∷ [] })
reserve-Reserved_example =
    reserve-Reserved 2 no_calls
      (record no_calls { next = 1; pending = (1, record { message_type = 0; stream_id = 0 }) ∷ [] })
      1 (no_calls-IsCalls 2) reserved

reserve-total_example : (r : ℕ × Calls) × (reserve one_call ≡ some r)
reserve-total_example = reserve-total 2 one_call one_call-IsCalls (omega arith)

resolve_late_example :
    let late = resolve answer (abandon 2 1 one_call) in
    ((resolve answer one_call).0 ≡ delivered)
    × (late.0 ≡ absorbed)
    × ((resolve answer late.1).0 ≡ unexpected)
resolve_late_example =
    resolve_late 2 answer (record { message_type = 16; stream_id = 258 }) one_call (omega arith)
      one_call-IsCalls refl refl

dispatch-Dispatched_example :
    Dispatched greeting no_inbound (dispatch small true false no_inbound greeting)
dispatch-Dispatched_example = dispatch-Dispatched small true false no_inbound greeting

abbrev one_frame : Inbound
one_frame = record {
  streams = (258, record { frames = greeting ∷ []; bytes = 30 }) ∷ [];
  overflows = 0;
  waits = 0;
}

one_frame-IsInbound : IsInbound small one_frame
one_frame-IsInbound = record {
  streams = (record { counted = refl; bytes_le = omega arith; frames_le = omega arith }, tt);
  distinct = (refl, tt);
  active_le = omega arith;
}

abbrev greets : ℕ → Frame → Option Error
greets handler f = none

run_inbound-HasRun_example :
    HasRun
      (answer_to ((16, 3) ∷ []) greets)
      258
      one_frame
      (run_inbound (answer_to ((16, 3) ∷ []) greets) 2 258 one_frame)
run_inbound-HasRun_example =
    run_inbound-HasRun small ((16, 3) ∷ []) greets 2 258 one_frame one_frame-IsInbound (omega arith)

fail-Failed_example : Failed canceled busy (fail canceled busy).0 (fail canceled busy).1
fail-Failed_example = fail-Failed 2 canceled busy one_call-IsCalls refl

abbrev handlers : List (ℕ × Option ℕ)
handlers = (16, some 3) ∷ (17, some 4) ∷ []

registered :
    register_handlers handlers busy ≡ ok (record busy { handlers = (16, 3) ∷ (17, 4) ∷ [] })
unfolding register_handlers first_conflict put_handlers
registered = refl

register_handlers-Registered_example :
    Registered handlers busy (record busy { handlers = (16, 3) ∷ (17, 4) ∷ [] })
register_handlers-Registered_example =
    register_handlers-Registered handlers busy (record busy { handlers = (16, 3) ∷ (17, 4) ∷ [] })
      (refl, (refl, tt)) registered

request_made : (start_send true greeting 2 7 (new_peer small)).0 ≡ ok request
unfolding start_send
request_made = refl

abbrev sending : Steps (new_peer small) (offer request (new_peer small)).1
sending =
    grows (new_peer small) (new_peer small) (offer request (new_peer small)).1
      (here (new_peer small))
      (offers true greeting 2 7 (new_peer small) (new_peer small) request refl request_made)

Steps-IsPeer_example : IsPeer (offer request (new_peer small)).1
Steps-IsPeer_example = Steps-IsPeer small (offer request (new_peer small)).1 small-IsLimits sending
