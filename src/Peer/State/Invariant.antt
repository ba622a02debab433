-- ===== src/Peer/State/Invariant.antt =====
-- What holds of the whole state of a Peer in peer.go, and the parts of its operations.
use streammux.Base.{
  ℕ, zero, suc, ◌≡◌, refl, sym, ap, ◌∙◌, subst, Bool, true, false, Option, none, some, List, [], ok,
  inl, inr, Bool-cases, is_some, arith, ok-injective, ok-ne-err, none-ne-some, if◌then◌else◌,
}
use streammux.Base.Map.{lookup}
use streammux.Errors.{Error}
use streammux.Frame.{Frame}
use streammux.Peer.Limits.{Limits, IsLimits}
use streammux.Peer.Calls.{
  Calls, Pending, fill_in, reserve, abandon, resolve, resolve_pending, resolve_canceled,
}
use streammux.Peer.Calls.Invariant.{IsCalls, no_calls-IsCalls}
use streammux.Peer.Calls.Reserve.{reserve-Reserved}
use streammux.Peer.Inbound.{Inbound}
use streammux.Peer.Inbound.Bounds.{IsInbound, no_inbound-IsInbound}
use streammux.Peer.Outbound.{Outbound, Request, no_outbound, try_enqueue, take_locked}
use streammux.Peer.Outbound.Invariant.{
  IsOutbound, IsRequest, no_outbound-IsOutbound, try_enqueue-IsOutbound,
}
use streammux.Peer.Outbound.Taking.{take_locked-IsOutbound}
use streammux.Peer.Schedule.{Turn, choose, pick, resume, scan_class, after_scan, class_at}
use streammux.Peer.State.{
  Peer, new_peer, commit_handlers, put_reserved, put_offer, put_taken, start_send,
}

pub false-ne-true : false ≡ true → ⊥
false-ne-true h = cc

-- What a closed Peer has left: an error to report, and nothing that waits for an answer.
pub record IsOver (p : Peer) : Type 0 where
  pub reason : is_some p.error ≡ true
  pub no_pending : p.calls.pending ≡ []
  pub no_canceled : (p.calls.canceled ≡ []) × (p.calls.canceled_order ≡ [])
  pub nothing_queued : p.outbound ≡ no_outbound

pub record IsPeer (p : Peer) : Type 0 where
  pub limits : IsLimits p.limits
  pub calls : IsCalls p.limits.max_canceled p.calls
  pub inbound : IsInbound p.limits p.inbound
  pub outbound : IsOutbound p.limits p.outbound
  pub over : p.closed ≡ true → IsOver p

pub new_peer-IsPeer : (l : Limits) → IsLimits l → IsPeer (new_peer l)
new_peer-IsPeer l lim = record {
  limits = lim;
  calls = no_calls-IsCalls l.max_canceled;
  inbound = no_inbound-IsInbound l;
  outbound = no_outbound-IsOutbound l;
  over = λ h. absurd (false-ne-true h);
}

-- On a Peer with nothing left, the steps on calls and outbound queues do nothing.
pub resolve-over :
    (f : Frame) (c : Calls) → c.pending ≡ [] → c.canceled ≡ [] → (resolve f.header c).1 ≡ c
unfolding resolve
resolve-over f c p q =
    ap (λ x. (resolve_pending f.header c x).1) (ap (lookup f.header.correlation_id) p)
    ∙ ap (λ x. (resolve_canceled f.header c x).1) (ap (lookup f.header.correlation_id) q)

pub abandon-over : (max id : ℕ) (c : Calls) → c.pending ≡ [] → abandon max id c ≡ c
unfolding abandon
abandon-over max id c p =
    let gone : lookup id c.pending ≡ none = ap (lookup id) p in rw (gone, abandon) refl

pub fill_in-over : (id : ℕ) (v : Pending) (c : Calls) → c.pending ≡ [] → fill_in id v c ≡ none
unfolding fill_in
fill_in-over id v c p =
    let gone : lookup id c.pending ≡ none = ap (lookup id) p in rw (gone, fill_in) refl

pub choose-over : (l : Limits) (t : Turn) → (choose l no_outbound t).0 ≡ none
unfolding choose pick scan_class take_locked
choose-over l t = refl

-- What is left where a round of `schedule` takes a request.
abbrev pub Keeps : Limits → Option (Request × Outbound) × Turn → Type 0
Keeps l (none, t) = Unit {0}
Keeps l (some (r, o), t) = IsOutbound l o

after_scan-Keeps :
    (l : Limits) (o : Outbound) (t : Turn) (x : Option (Request × Outbound) × ℕ)
    → IsOutbound l o
    → take_locked o (class_at t.class_index) t.cursor ≡ x
    → Keeps l (after_scan l t x)
after_scan-Keeps l o t (none, next) inv e = tt
after_scan-Keeps l o t (some (r, o'), next) inv e =
    take_locked-IsOutbound l o o' (class_at t.class_index) t.cursor next r inv e

resume-Keeps :
    (l : Limits) (later : Turn → Option (Request × Outbound) × Turn)
    (x : Option (Request × Outbound) × Turn)
    → Keeps l x
    → ((t : Turn) → Keeps l (later t))
    → Keeps l (resume later x)
resume-Keeps l later (none, t) now others = others t
resume-Keeps l later (some (r, o), t) now others = now

pub pick-Keeps :
    (n : ℕ) (l : Limits) (o : Outbound) (t : Turn) → IsOutbound l o → Keeps l (pick n l o t)
unfolding pick scan_class
pick-Keeps zero l o t inv = tt
pick-Keeps (suc n) l o t inv =
    resume-Keeps l (λ t'. pick n l o t') (scan_class l o t)
      (after_scan-Keeps l o t (take_locked o (class_at t.class_index) t.cursor) inv refl)
      (λ t'. pick-Keeps n l o t' inv)

-- A request that `send` made has a class, and fits a stream.
pub start_send-IsRequest :
    (given : Bool) (f : Frame) (class ticket : ℕ) (p : Peer) (r : Request)
    → IsLimits p.limits
    → (start_send given f class ticket p).0 ≡ ok r
    → IsRequest p.limits r
unfolding start_send
start_send-IsRequest given f class ticket p r lim e = ground arith

-- A step on the calls, on the inbound queues, or on the outbound queues alone.
pub calls-IsPeer :
    (p : Peer) (c : Calls)
    → IsPeer p
    → IsCalls p.limits.max_canceled c
    → (p.closed ≡ true → c ≡ p.calls)
    → IsPeer (record p { calls = c })
calls-IsPeer p c inv good same = record {
  limits = inv.limits;
  calls = good;
  inbound = inv.inbound;
  outbound = inv.outbound;
  over = λ h.
      let was = inv.over h in
      record {
        reason = was.reason;
        no_pending = ap (λ (x : Calls). x.pending) (same h) ∙ was.no_pending;
        no_canceled = (
          ap (λ (x : Calls). x.canceled) (same h) ∙ was.no_canceled.0,
          ap (λ (x : Calls). x.canceled_order) (same h) ∙ was.no_canceled.1,
        );
        nothing_queued = was.nothing_queued;
      };
}

pub inbound-IsPeer :
    (p : Peer) (b : Inbound) → IsPeer p → IsInbound p.limits b → IsPeer (record p { inbound = b })
inbound-IsPeer p b inv good = record {
  limits = inv.limits;
  calls = inv.calls;
  inbound = good;
  outbound = inv.outbound;
  over = λ h.
      let was = inv.over h in
      record {
        reason = was.reason;
        no_pending = was.no_pending;
        no_canceled = was.no_canceled;
        nothing_queued = was.nothing_queued;
      };
}

outbound-IsPeer :
    (p : Peer) (o : Outbound)
    → IsPeer p
    → IsOutbound p.limits o
    → p.closed ≡ false
    → IsPeer (record p { outbound = o })
outbound-IsPeer p o inv good live = record {
  limits = inv.limits;
  calls = inv.calls;
  inbound = inv.inbound;
  outbound = good;
  over = λ h. absurd (false-ne-true (sym live ∙ h));
}

-- The parts of the state that no invariant reads.
pub others-IsPeer :
    (p : Peer) (handlers : List (ℕ × ℕ)) (rf rb sf sb errors : ℕ)
    → IsPeer p
    → IsPeer (record p {
      handlers = handlers;
      received_frames = rf;
      received_bytes = rb;
      sent_frames = sf;
      sent_bytes = sb;
      protocol_errors = errors;
    })
others-IsPeer p handlers rf rb sf sb errors inv = record {
  limits = inv.limits;
  calls = inv.calls;
  inbound = inv.inbound;
  outbound = inv.outbound;
  over = λ h.
      let was = inv.over h in
      record {
        reason = was.reason;
        no_pending = was.no_pending;
        no_canceled = was.no_canceled;
        nothing_queued = was.nothing_queued;
      };
}

pub either-IsPeer : (c : Bool) (x y : Peer) → IsPeer x → IsPeer y → IsPeer (if c then x else y)
either-IsPeer true x y left right = left
either-IsPeer false x y left right = right

pub put_reserved-IsPeer :
    (p p' : Peer) (id : ℕ) (x : Option (ℕ × Calls))
    → IsPeer p
    → p.closed ≡ false
    → reserve p.calls ≡ x
    → put_reserved p x ≡ ok (id, p')
    → IsPeer p'
put_reserved-IsPeer p p' id none inv live r e = absurd (ok-ne-err (sym e))
put_reserved-IsPeer p p' id (some (k, c)) inv live r e =
    let found = reserve-Reserved p.limits.max_canceled p.calls c k inv.calls r in
    subst IsPeer (ap (λ (y : ℕ × Peer). y.1) (ok-injective e))
      (calls-IsPeer p c inv found.inv (λ h. absurd (false-ne-true (sym live ∙ h))))

pub commit_handlers-IsPeer :
    (hs : List (ℕ × Option ℕ)) (p p' : Peer) (x : Option Error)
    → IsPeer p
    → commit_handlers hs p x ≡ ok p'
    → IsPeer p'
commit_handlers-IsPeer hs p p' (some x) inv e = absurd (ok-ne-err (sym e))
commit_handlers-IsPeer hs p p' none inv e =
    subst IsPeer (ok-injective e) (others-IsPeer p _ _ _ _ _ _ inv)

pub put_offer-IsPeer :
    (p : Peer) (r : Request) (x : Option Outbound)
    → IsPeer p
    → IsRequest p.limits r
    → p.closed ≡ false
    → try_enqueue p.limits p.outbound r ≡ x
    → IsPeer (put_offer p x).1
put_offer-IsPeer p r none inv req live e = inv
put_offer-IsPeer p r (some o) inv req live e =
    outbound-IsPeer p o inv (try_enqueue-IsOutbound p.limits p.outbound r inv.outbound req o e) live

pub put_taken-IsPeer :
    (p : Peer) (x : Option (Request × Outbound) × Turn)
    → IsPeer p
    → Keeps p.limits x
    → (p.closed ≡ true → x.0 ≡ none)
    → IsPeer (put_taken p x).1.1
put_taken-IsPeer p (none, t) inv kept idle = inv
put_taken-IsPeer p (some (r, o), t) inv kept idle = elim (Bool-cases p.closed) [
  | inl h ↦ absurd (none-ne-some (sym (idle h)))
  | inr live ↦ outbound-IsPeer p o inv kept live
]
