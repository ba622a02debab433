-- ===== src/Peer/Steps.antt =====
-- How the goroutines of a Peer interleave: every hold of the lock in peer.go is one step, taken in any
-- order, and what a goroutine remembers from an earlier hold may be anything. So the relation allows
-- more than the program does.
pub mod Reachable
use streammux.Base.{
  ℕ, zero, suc, ◌≡◌, Bool, true, false, Option, none, some, List, [], ◌∷◌, Result, ok, err, ◌<◌,
}
use streammux.Base.Map.{lookup}
use streammux.Errors.{Error}
use streammux.Frame.{Frame}
use streammux.Peer.Limits.{Limits}
use streammux.Peer.Calls.{Calls, Pending, fill_in}
use streammux.Peer.Outbound.{Request}
use streammux.Peer.Schedule.{Turn}
use streammux.Peer.State.{
  Peer, register_handlers, reserve_call, abandon_call, resolve_frame, start_send, offer, take_next,
  dispatch_frame, work_round, fail, record_received, record_sent, record_protocol_error,
}

pub data Step : Peer → Peer → Type 0 where
  registers : (hs : List (ℕ × Option ℕ)) (p p' : Peer) → register_handlers hs p ≡ ok p' → Step p p'
  receives : (f : Frame) (p : Peer) → Step p (record_received f p)
  resolves : (f : Frame) (p : Peer) → Step p (resolve_frame f p).1
  dispatches : (waited : Bool) (f : Frame) (p : Peer) → Step p (dispatch_frame waited f p).1
  works : (id : ℕ) (p : Peer) → Step p (work_round id p).1
  reserves : (p p' : Peer) (id : ℕ) → reserve_call p ≡ ok (id, p') → Step p p'
  fills_in :
      (id : ℕ) (v : Pending) (p : Peer) (calls : Calls)
      → fill_in id v p.calls ≡ some calls
      → Step p (record p { calls = calls })
  abandons : (id : ℕ) (p : Peer) → Step p (abandon_call id p)
  starts_send :
      (given : Bool) (f : Frame) (class ticket : ℕ) (p : Peer)
      → Step p (start_send given f class ticket p).1
  offers :
      (given : Bool) (f : Frame) (class ticket : ℕ) (before p : Peer) (r : Request)
      → before.limits ≡ p.limits
      → (start_send given f class ticket before).0 ≡ ok r
      → Step p (offer r p).1
  schedules : (t : Turn) (p : Peer) → Step p (take_next t p).1.1
  sends : (f : Frame) (p : Peer) → Step p (record_sent f p)
  counts_error : (p : Peer) → Step p (record_protocol_error p)
  fails : (e : Error) (p : Peer) → Step p (fail e p).0

-- Any number of steps.
pub data Steps : Peer → Peer → Type 0 where
  here : (p : Peer) → Steps p p
  grows : (p q r : Peer) → Steps p q → Step q r → Steps p r
