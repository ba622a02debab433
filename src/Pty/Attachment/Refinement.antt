-- ===== src/Pty/Attachment/Refinement.antt =====
-- An attachment of pty/manager.go, whatever is done with it before it is closed from outside, is a queue:
-- first in, first out, with the replay in it from the start.
use streammux.Base.{
  ℕ, ◌≡◌, refl, sym, ap, ◌∙◌, subst, Bool, false, not, Option, none, some, List, [], ◌∷◌, ◌++◌, map,
  drop, get_elem?, if_elim, Result, ok, err, arith,
}
use mathlib.Core.List.{append-nil}
use streammux.Pty.Values.{PtyError, OutputEvent, ExitStatus, AttachmentEvent, output, exit}
use streammux.Pty.Attachment.{
  Attachment, Round, ends, waits, gives, new_attachment, activate, enqueue, enqueue_exit, finish,
  is_replaying, take_replay, take_queue, run_round,
}
use streammux.Pty.Attachment.Order.{
  outstanding, enqueue-outstanding, enqueue_exit-outstanding, Given, run_round-Given, drop_all,
}

-- What is done with an attachment, and what is seen of it: events that it takes and events that it hands to its sink.
pub data Op : Type 0 where
  offers : AttachmentEvent → Op
  offers_exit : ExitStatus → Op
  activates rounds : Op

pub data Effect : Type 0 where
  takes hands : AttachmentEvent → Effect

abbrev pub seen_offer :
    AttachmentEvent → Attachment → Result PtyError Attachment → List Effect × Attachment
seen_offer e a (ok a') = (takes e ∷ [], a')
seen_offer e a (err x) = ([], a)

abbrev pub seen_round : Round × Attachment → List Effect × Attachment
seen_round (gives e, a') = (hands e ∷ [], a')
seen_round (waits, a') = ([], a')
seen_round (ends, a') = ([], a')

unfoldable pub perform : Op → Attachment → List Effect × Attachment
perform (offers e) a = seen_offer e a (enqueue e a)
perform (offers_exit status) a = seen_offer (exit status) a (enqueue_exit status a)
perform activates a = ([], (activate a).1)
perform rounds a = seen_round (run_round a)

unfoldable pub perform_all : List Op → Attachment → List Effect × Attachment
perform_all [] a = ([], a)
perform_all (op ∷ rest) a =
    let first = perform op a in
    let later = perform_all rest first.1 in (first.0 ++ later.0, later.1)

-- A queue: what it holds, what is seen of it, and what it holds in the end.
pub data Fifo : List AttachmentEvent → List Effect → List AttachmentEvent → Type 0 where
  rests : (xs : List AttachmentEvent) → Fifo xs [] xs
  puts :
      (e : AttachmentEvent) (xs zs : List AttachmentEvent) (effects : List Effect)
      → Fifo (xs ++ (e ∷ [])) effects zs
      → Fifo xs (takes e ∷ effects) zs
  gets :
      (e : AttachmentEvent) (xs zs : List AttachmentEvent) (effects : List Effect)
      → Fifo xs effects zs
      → Fifo (e ∷ xs) (hands e ∷ effects) zs

-- One effect at most, and what comes of it.
abbrev Refines : Attachment → List Effect × Attachment → Type 0
Refines a x =
    (zs : List AttachmentEvent) (later : List Effect)
    → Fifo (outstanding x.1) later zs
    → Fifo (outstanding a) (x.0 ++ later) zs

seen_offer-Refines :
    (e : AttachmentEvent) (a : Attachment) (r : Result PtyError Attachment)
    → ((a' : Attachment) → r ≡ ok a' → outstanding a' ≡ outstanding a ++ (e ∷ []))
    → Refines a (seen_offer e a r)
seen_offer-Refines e a (ok a') last zs later f =
    puts e (outstanding a) zs later (subst (λ xs. Fifo xs later zs) (last a' refl) f)
seen_offer-Refines e a (err x) last zs later f = f

-- An attachment that ends by itself leaves nothing behind.
abbrev LeavesNone : Attachment → Round × Attachment → Type 0
LeavesNone a (gives e, a') = Unit {0}
LeavesNone a (waits, a') = Unit {0}
LeavesNone a (ends, a') = outstanding a' ≡ outstanding a

take_queue-LeavesNone :
    (a : Attachment) (queue : List AttachmentEvent)
    → a.closed ≡ false
    → is_replaying a ≡ false
    → a.queue ≡ queue
    → LeavesNone a (take_queue a queue)
unfolding finish
take_queue-LeavesNone a [] live done is =
    let replayed : drop a.replay_next a.replay ≡ [] =
      drop_all a.replay_next a.replay (ground (arith, done)) in
    let empty : [] ≡ outstanding a = sym (ap (λ r. map output r ++ a.queue) replayed ∙ is) in
    if_elim (LeavesNone a) a.closing _ _
      (λ _.
        if_elim (λ (x : Attachment). outstanding x ≡ outstanding a) a.closed _ _ (λ _. refl)
          (λ _. empty))
      (λ _. tt)
take_queue-LeavesNone a (e ∷ rest) live done is =
    if_elim (LeavesNone a) (not a.active) _ _ (λ _. tt) (λ _. tt)

take_replay-LeavesNone : (a : Attachment) (o : Option OutputEvent) → LeavesNone a (take_replay a o)
take_replay-LeavesNone a none = refl
take_replay-LeavesNone a (some o) = tt

run_round-LeavesNone : (a : Attachment) → LeavesNone a (run_round a)
unfolding run_round
run_round-LeavesNone a =
    if_elim (LeavesNone a) a.closed _ _ (λ _. refl)
      λ live.
        if_elim (LeavesNone a) (is_replaying a) _ _
          (λ _.
            if_elim (LeavesNone a) (not a.active) _ _ (λ _. tt)
              (λ _. take_replay-LeavesNone a (get_elem? a.replay a.replay_next)))
          (λ done. take_queue-LeavesNone a a.queue live done refl)

seen_round-Refines :
    (a : Attachment) (x : Round × Attachment)
    → Given a x
    → LeavesNone a x
    → Refines a (seen_round x)
seen_round-Refines a (gives e, a') given left zs later f =
    subst (λ xs. Fifo xs (hands e ∷ later) zs) (sym given) (gets e (outstanding a') zs later f)
seen_round-Refines a (waits, a') given left zs later f =
    subst (λ (b : Attachment). Fifo (outstanding b) later zs) given f
seen_round-Refines a (ends, a') given left zs later f = subst (λ xs. Fifo xs later zs) left f

activate-outstanding : (a : Attachment) → outstanding (activate a).1 ≡ outstanding a
activate-outstanding a =
    if_elim (λ (x : Option PtyError × Attachment). outstanding x.1 ≡ outstanding a) a.closed _ _
      (λ _. refl) (λ _. refl)

perform-Refines : (op : Op) (a : Attachment) → Refines a (perform op a)
unfolding perform
perform-Refines (offers e) a =
    seen_offer-Refines e a (enqueue e a) (λ a' h. enqueue-outstanding e a a' h)
perform-Refines (offers_exit status) a =
    seen_offer-Refines (exit status) a (enqueue_exit status a)
      (λ a' h. (enqueue_exit-outstanding status a a' h).0)
perform-Refines activates a =
    λ zs later f. subst (λ xs. Fifo xs later zs) (activate-outstanding a) f
perform-Refines rounds a =
    seen_round-Refines a (run_round a) (run_round-Given a) (run_round-LeavesNone a)

perform_all-refines :
    (ops : List Op) (a : Attachment)
    → Fifo (outstanding a) (perform_all ops a).0 (outstanding (perform_all ops a).1)
unfolding perform_all
perform_all-refines [] a = rests (outstanding a)
perform_all-refines (op ∷ rest) a =
    perform-Refines op a (outstanding (perform_all rest (perform op a).1).1)
      (perform_all rest (perform op a).1).0 (perform_all-refines rest (perform op a).1)

-- What is seen of a new attachment that is not closed from outside, output and exit offered, activation and rounds of
-- its worker in any order, is what is seen of a queue that holds the replay from the start: it
-- hands its sink the replay and then what it took, in that order, each event once, and in the end holds
-- just what it has not handed over.
pub perform_all-Fifo :
    (ops : List Op) (max : ℕ) (active : Bool) (replay : List OutputEvent)
    → Fifo
        (map output replay)
        (perform_all ops (new_attachment max active replay)).0
        (outstanding (perform_all ops (new_attachment max active replay)).1)
perform_all-Fifo ops max active replay =
    subst
      (λ xs.
        Fifo xs (perform_all ops (new_attachment max active replay)).0
          (outstanding (perform_all ops (new_attachment max active replay)).1))
      (append-nil (map output replay)) (perform_all-refines ops (new_attachment max active replay))
