-- ===== src/Peer/State/Closing.antt =====
-- What closing a Peer means: `fail` in peer.go.
use streammux.Base.{
  ℕ, ◌+◌, ◌≡◌, refl, ap, ◌∙◌, true, false, List, [], ◌∷◌, ◌++◌, ◌==◌, if◌then◌else◌, map, arith,
  All, All-append, inl, inr, Bool-cases, is_some,
}
use streammux.Base.Map.{Map, lookup, keys, member, Distinct, sum_of, member-keys}
use streammux.Errors.{Error}
use streammux.Peer.Calls.Invariant.{IsCalls}
use streammux.Peer.Outbound.{OutStream, Request, no_outbound}
use streammux.Peer.State.{
  Peer, Notice, to_caller, to_sender, caller_notices, queue_notices, sender_notices, fail, result,
}

-- How many notices a call, or the sender of a request, is given.
abbrev pub answers : ℕ → List Notice → ℕ
answers id [] = 0
answers id (to_caller k e ∷ rest) = (if k == id then 1 else 0) + answers id rest
answers id (to_sender t e ∷ rest) = answers id rest

abbrev pub reports : ℕ → List Notice → ℕ
reports ticket [] = 0
reports ticket (to_caller k e ∷ rest) = reports ticket rest
reports ticket (to_sender t e ∷ rest) = (if t == ticket then 1 else 0) + reports ticket rest

-- How many requests of a queue stand for a ticket.
abbrev pub queued_for : ℕ → List Request → ℕ
queued_for ticket [] = 0
queued_for ticket (r ∷ rest) = (if r.ticket == ticket then 1 else 0) + queued_for ticket rest

answers-append :
    (id : ℕ) (xs ys : List Notice) → answers id (xs ++ ys) ≡ answers id xs + answers id ys
answers-append id [] ys = omega arith
answers-append id (to_caller k e ∷ rest) ys = omega (arith, answers-append id rest ys)
answers-append id (to_sender k e ∷ rest) ys = answers-append id rest ys

reports-append : (t : ℕ) (xs ys : List Notice) → reports t (xs ++ ys) ≡ reports t xs + reports t ys
reports-append t [] ys = omega arith
reports-append t (to_caller k e ∷ rest) ys = reports-append t rest ys
reports-append t (to_sender k e ∷ rest) ys = omega (arith, reports-append t rest ys)

answers-keys :
    (id : ℕ) (e : Error) (ks : List ℕ)
    → Distinct ks
    → answers id (map (λ k. to_caller k e) ks) ≡ (if member id ks then 1 else 0)
answers-keys id e [] d = refl
answers-keys id e (k ∷ ks) d = ground (arith, answers-keys id e ks)

reports-keys : (t : ℕ) (e : Error) (ks : List ℕ) → reports t (map (λ k. to_caller k e) ks) ≡ 0
reports-keys t e [] = refl
reports-keys t e (k ∷ ks) = reports-keys t e ks

answers-queue : (id : ℕ) (e : Error) (queue : List Request) → answers id (queue_notices e queue) ≡ 0
answers-queue id e [] = refl
answers-queue id e (r ∷ rest) = answers-queue id e rest

reports-queue :
    (t : ℕ) (e : Error) (queue : List Request)
    → reports t (queue_notices e queue) ≡ queued_for t queue
reports-queue t e [] = refl
reports-queue t e (r ∷ rest) = omega (arith, reports-queue t e rest)

answers-senders : (id : ℕ) (e : Error) (m : Map OutStream) → answers id (sender_notices e m) ≡ 0
unfolding sender_notices
answers-senders id e [] = refl
answers-senders id e ((k, s) ∷ rest) = omega (
  arith,
  answers-append id (queue_notices e s.queue) (sender_notices e rest),
  answers-queue id e s.queue,
  answers-senders id e rest,
)

reports-senders :
    (t : ℕ) (e : Error) (m : Map OutStream)
    → reports t (sender_notices e m) ≡ sum_of (λ s. queued_for t s.queue) m
unfolding sender_notices
reports-senders t e [] = refl
reports-senders t e ((k, s) ∷ rest) = omega (
  arith,
  reports-append t (queue_notices e s.queue) (sender_notices e rest),
  reports-queue t e s.queue,
  reports-senders t e rest,
)

-- The error that a notice carries.
abbrev pub Carries : Error → Notice → Type 0
Carries e (to_caller id e') = e' ≡ e
Carries e (to_sender t e') = e' ≡ e

Carries-keys : (e : Error) (ks : List ℕ) → All (Carries e) (map (λ k. to_caller k e) ks)
Carries-keys e [] = tt
Carries-keys e (k ∷ ks) = (refl, Carries-keys e ks)

Carries-queue : (e : Error) (queue : List Request) → All (Carries e) (queue_notices e queue)
Carries-queue e [] = tt
Carries-queue e (r ∷ rest) = (refl, Carries-queue e rest)

Carries-senders : (e : Error) (m : Map OutStream) → All (Carries e) (sender_notices e m)
unfolding sender_notices
Carries-senders e [] = tt
Carries-senders e ((k, s) ∷ rest) =
    All-append (Carries e) (queue_notices e s.queue) (sender_notices e rest)
      (Carries-queue e s.queue) (Carries-senders e rest)

-- What `fail` leaves of an open Peer, and whom it tells.
pub record Failed (e : Error) (p : Peer) (p' : Peer) (notices : List Notice) : Type 0 where
  pub closed : p'.closed ≡ true
  pub reason : result p' ≡ e
  pub no_calls_left : p'.calls.pending ≡ []
  pub no_tombstones_left : (p'.calls.canceled ≡ []) × (p'.calls.canceled_order ≡ [])
  pub nothing_queued : p'.outbound ≡ no_outbound
  pub callers :
      (id : ℕ) → answers id notices ≡ (if is_some (lookup id p.calls.pending) then 1 else 0)
  pub senders : (t : ℕ) → reports t notices ≡ sum_of (λ s. queued_for t s.queue) p.outbound.streams
  pub carried : All (Carries e) notices

-- `fail` on an open Peer whose calls are consistent closes it with the error given, empties its
-- calls, tombstones and outbound queues, and answers each call that waits exactly once, each queued
-- request as often as it is queued, and nobody else, all with that error.
pub fail-Failed :
    (max : ℕ) (e : Error) (p : Peer)
    → IsCalls max p.calls
    → p.closed ≡ false
    → Failed e p (fail e p).0 (fail e p).1
unfolding fail
fail-Failed max e p inv live =
    let callers = caller_notices e p.calls.pending in
    let senders = sender_notices e p.outbound.streams in
    rw (live, fail)
      (record {
        closed = refl;
        reason = refl;
        no_calls_left = refl;
        no_tombstones_left = (refl, refl);
        nothing_queued = refl;
        callers = λ id.
            answers-append id callers senders
            ∙ omega (
              arith,
              answers-senders id e p.outbound.streams,
              answers-keys id e (keys p.calls.pending) inv.calls,
            )
            ∙ ap (λ b. if b then 1 else 0) (member-keys id p.calls.pending);
        senders = λ t. omega (
          arith,
          reports-append t callers senders,
          reports-keys t e (keys p.calls.pending),
          reports-senders t e p.outbound.streams,
        );
        carried =
            All-append (Carries e) callers senders (Carries-keys e (keys p.calls.pending))
              (Carries-senders e p.outbound.streams);
      })

-- The first error is the one that counts: after `fail`, another `fail` changes nothing and tells
-- nobody.
pub fail-fail : (e later : Error) (p : Peer) → fail later (fail e p).0 ≡ ((fail e p).0, [])
unfolding fail
fail-fail e later p = elim (Bool-cases p.closed) [
  | inl shut ↦ ground (arith, shut)
  | inr live ↦ ground (arith, live)
]
