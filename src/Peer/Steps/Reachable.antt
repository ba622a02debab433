-- ===== src/Peer/Steps/Reachable.antt =====
-- Every state that a Peer of peer.go reaches is consistent and within its limits.
use streammux.Base.{
  ℕ, ◌≡◌, refl, sym, ap, ◌∙◌, subst, Bool, ◌||◌, Option, some, Result, ok, else-ok, if_elim, not,
  arith, List, none-ne-some, is_some, length, ◌==◌, ltb,
}
use streammux.Base.Map.{lookup}
use streammux.Errors.{Error}
use streammux.Frame.{Frame}
use streammux.Peer.Limits.{Limits, IsLimits, control, bulk}
use streammux.Peer.Calls.{Calls, Pending, fill_in, reserve, abandon, resolve}
use streammux.Peer.Calls.Invariant.{fill_in-IsCalls, resolve-IsCalls}
use streammux.Peer.Calls.Tombstones.{abandon-IsCalls}
use streammux.Peer.Inbound.{work, frame_bytes}
use streammux.Peer.Inbound.Bounds.{dispatch-IsInbound, work-IsInbound}
use streammux.Peer.Outbound.{Request, try_enqueue}
use streammux.Peer.Outbound.Invariant.{IsRequest, no_outbound-IsOutbound}
use streammux.Peer.Schedule.{choose, scans}
use streammux.Peer.State.{
  Peer, Offer, Delivery, Notice, new_peer, register_handlers, first_conflict, reserve_call,
  start_send, offer, take_next, dispatch_frame, fail,
}
use streammux.Peer.State.Invariant.{
  IsPeer, new_peer-IsPeer, resolve-over, abandon-over, fill_in-over, choose-over, pick-Keeps,
  start_send-IsRequest, calls-IsPeer, inbound-IsPeer, others-IsPeer, put_reserved-IsPeer,
  commit_handlers-IsPeer, put_offer-IsPeer, put_taken-IsPeer,
}
use streammux.Peer.Steps.{
  Step, registers, receives, resolves, dispatches, works, reserves, fills_in, abandons, starts_send,
  offers, schedules, sends, counts_error, fails, Steps, here, grows,
}

register-IsPeer :
    (hs : List (ℕ × Option ℕ)) (p p' : Peer) → IsPeer p → register_handlers hs p ≡ ok p' → IsPeer p'
unfolding register_handlers
register-IsPeer hs p p' inv e =
    let (_, some_hs) = else-ok (length hs == 0) _ _ p' e in
    let (live, committed) = else-ok p.closed _ _ p' some_hs in
    commit_handlers-IsPeer hs p p' (first_conflict p.handlers hs) inv committed

reserve_call-IsPeer : (p p' : Peer) (id : ℕ) → IsPeer p → reserve_call p ≡ ok (id, p') → IsPeer p'
unfolding reserve_call
reserve_call-IsPeer p p' id inv e =
    let (live, reserved) = else-ok p.closed _ _ (id, p') e in
    put_reserved-IsPeer p p' id (reserve p.calls) inv live refl reserved

fills_in-IsPeer :
    (id : ℕ) (v : Pending) (p : Peer) (c : Calls)
    → IsPeer p
    → fill_in id v p.calls ≡ some c
    → IsPeer (record p { calls = c })
fills_in-IsPeer id v p c inv e =
    calls-IsPeer p c inv (fill_in-IsCalls p.limits.max_canceled p.calls inv.calls id v c e)
      λ h. absurd (none-ne-some (sym (fill_in-over id v p.calls (inv.over h).no_pending) ∙ e))

start_send-IsPeer :
    (given : Bool) (f : Frame) (class ticket : ℕ) (p : Peer)
    → IsPeer p
    → IsPeer (start_send given f class ticket p).1
unfolding start_send
start_send-IsPeer given f class ticket p inv =
    if_elim (λ (x : Result Error Request × Peer). IsPeer x.1) (not given) _ _ (λ h. inv)
      λ h.
        if_elim (λ (x : Result Error Request × Peer). IsPeer x.1)
          (ltb class control || ltb bulk class) _ _ (λ h. inv)
          λ h.
            if_elim (λ (x : Result Error Request × Peer). IsPeer x.1)
              (ltb p.limits.stream_bytes (frame_bytes f) || ltb p.limits.out_bytes (frame_bytes f))
              _ _
              (λ h. inbound-IsPeer p _ inv (record {
                streams = inv.inbound.streams;
                distinct = inv.inbound.distinct;
                active_le = inv.inbound.active_le;
              }))
              λ h. inv

offer-IsPeer : (r : Request) (p : Peer) → IsPeer p → IsRequest p.limits r → IsPeer (offer r p).1
unfolding offer
offer-IsPeer r p inv req =
    if_elim (λ (x : Offer × Peer). IsPeer x.1) p.closed _ _ (λ h. inv)
      λ live. put_offer-IsPeer p r (try_enqueue p.limits p.outbound r) inv req live refl

dispatch_frame-IsPeer :
    (waited : Bool) (f : Frame) (p : Peer) → IsPeer p → IsPeer (dispatch_frame waited f p).1
unfolding dispatch_frame
dispatch_frame-IsPeer waited f p inv =
    let handled = is_some (lookup f.header.message_type p.handlers) in
    if_elim (λ (x : Delivery × Peer). IsPeer x.1) p.closed _ _ (λ h. inv)
      λ live.
        inbound-IsPeer p _ inv (dispatch-IsInbound p.limits handled waited p.inbound f inv.inbound)

fail-IsPeer : (e : Error) (p : Peer) → IsPeer p → IsPeer (fail e p).0
unfolding fail
fail-IsPeer e p inv =
    if_elim (λ (x : Peer × List Notice). IsPeer x.0) p.closed _ _ (λ h. inv)
      λ live. record {
        limits = inv.limits;
        calls = record {
          calls = tt;
          tombstones = tt;
          ordered = tt;
          tracked = λ k. refl;
          bounded = omega arith;
          apart = λ k h. refl;
          nonzero = (refl, refl);
          next_range = inv.calls.next_range;
        };
        inbound = inv.inbound;
        outbound = no_outbound-IsOutbound p.limits;
        over = λ h. record {
          reason = refl;
          no_pending = refl;
          no_canceled = (refl, refl);
          nothing_queued = refl;
        };
      }

-- Whatever step a Peer takes, its state stays consistent.
Step-IsPeer : (p q : Peer) → Step p q → IsPeer p → IsPeer q
unfolding take_next choose
Step-IsPeer _ _ (registers hs p q e) inv = register-IsPeer hs p q inv e
Step-IsPeer _ _ (receives f p) inv = others-IsPeer p _ _ _ _ _ _ inv
Step-IsPeer _ _ (resolves f p) inv =
    calls-IsPeer p (resolve f.header p.calls).1 inv
      (resolve-IsCalls p.limits.max_canceled p.calls inv.calls f.header)
      λ h. resolve-over f p.calls (inv.over h).no_pending (inv.over h).no_canceled.0
Step-IsPeer _ _ (dispatches waited f p) inv = dispatch_frame-IsPeer waited f p inv
Step-IsPeer _ _ (works id p) inv =
    inbound-IsPeer p (work id p.inbound).1 inv (work-IsInbound p.limits id p.inbound inv.inbound)
Step-IsPeer _ _ (reserves p q id e) inv = reserve_call-IsPeer p q id inv e
Step-IsPeer _ _ (fills_in id v p c e) inv = fills_in-IsPeer id v p c inv e
Step-IsPeer _ _ (abandons id p) inv =
    calls-IsPeer p (abandon p.limits.max_canceled id p.calls) inv
      (abandon-IsCalls p.limits.max_canceled id p.calls inv.calls)
      λ h. abandon-over p.limits.max_canceled id p.calls (inv.over h).no_pending
Step-IsPeer _ _ (starts_send given f class ticket p) inv =
    start_send-IsPeer given f class ticket p inv
Step-IsPeer _ _ (offers given f class ticket before p r same e) inv = offer-IsPeer r p inv (
    subst (λ l. IsRequest l r) same
      (start_send-IsRequest given f class ticket before r (subst IsLimits (sym same) inv.limits) e))
Step-IsPeer _ _ (schedules t p) inv =
    put_taken-IsPeer p (choose p.limits p.outbound t) inv
      (pick-Keeps scans p.limits p.outbound t inv.outbound)
      λ h. ap (λ o. (choose p.limits o t).0) (inv.over h).nothing_queued ∙ choose-over p.limits t
Step-IsPeer _ _ (sends f p) inv = others-IsPeer p _ _ _ _ _ _ inv
Step-IsPeer _ _ (counts_error p) inv = others-IsPeer p _ _ _ _ _ _ inv
Step-IsPeer _ _ (fails e p) inv = fail-IsPeer e p inv

-- Every state that a Peer reaches from `NewPeer`, however its goroutines interleave: its calls and
-- tombstones are apart and within `MaxCanceledRequests`, its queues hold what its counters say and
-- stay within the configured bounds, and once it is closed it has an error to report and no call,
-- tombstone or outbound request is left; frames that came in may still wait for their handlers.
pub Steps-IsPeer : (l : Limits) (p : Peer) → IsLimits l → Steps (new_peer l) p → IsPeer p
Steps-IsPeer l _ lim (here _) = new_peer-IsPeer l lim
Steps-IsPeer l _ lim (grows _ p q before step) = Step-IsPeer p q step (Steps-IsPeer l p lim before)
