-- ===== src/Pty/Attachment/Order.antt =====
-- An attachment of pty/manager.go gives its sink what it accepted, in that order.
use streammux.Base.{
  ℕ, zero, suc, ◌+◌, ◌≡◌, ◌≤◌, refl, sym, ap, ◌∙◌, true, false, not, ◌||◌, Option, none, some, List,
  [], ◌∷◌, ◌++◌, map, length, get_elem?, drop, ok, if_elim, else-ok, ok-injective, ltb, ◌==◌, arith,
  none-ne-some, some-injective, get_elem?-some,
}
use mathlib.Core.List.{append_assoc}
use streammux.Pty.Values.{
  PtyError, OutputEvent, ExitStatus, AttachmentEvent, output, exit, CloseReason, session_exited,
}
use streammux.Pty.Attachment.{
  Attachment, Round, ends, waits, gives, event_bytes, enqueue, enqueue_exit, finish, is_replaying,
  take_replay, take_queue, run_round,
}

-- What the sink is still to be given.
abbrev pub outstanding : Attachment → List AttachmentEvent
outstanding a = map output (drop a.replay_next a.replay) ++ a.queue

-- An event that `enqueueLocked` accepts comes last.
pub enqueue-outstanding :
    (event : AttachmentEvent) (a a' : Attachment)
    → enqueue event a ≡ ok a'
    → outstanding a' ≡ outstanding a ++ (event ∷ [])
unfolding enqueue
enqueue-outstanding event a a' e =
    let (_, room) = else-ok (a.closed || a.closing) _ _ a' e in
    let (_, done) =
      else-ok (ltb a.max_bytes (event_bytes event) || ltb a.max_bytes (a.bytes + event_bytes event))
        _ _ a' room in
    ap outstanding (sym (ok-injective done))
    ∙ sym (append_assoc (map output (drop a.replay_next a.replay)) a.queue (event ∷ []))

-- So does the exit, and nothing is accepted behind it.
pub enqueue_exit-outstanding :
    (status : ExitStatus) (a a' : Attachment)
    → enqueue_exit status a ≡ ok a'
    → (outstanding a' ≡ outstanding a ++ (exit status ∷ [])) × (a'.closing ≡ true)
unfolding enqueue_exit
enqueue_exit-outstanding status a a' e =
    let (_, done) = else-ok (a.closed || a.closing) _ _ a' e in
    (
      ap outstanding (sym (ok-injective done))
          ∙ sym
              (append_assoc (map output (drop a.replay_next a.replay)) a.queue (exit status ∷ [])),
      ap (λ (x : Attachment). x.closing) (sym (ok-injective done)),
    )

drop_at :
    {A : Type 0} (n m : ℕ) (xs : List A) (x : A)
    → n + 1 ≡ m
    → get_elem? xs n ≡ some x
    → drop n xs ≡ x ∷ drop m xs
drop_at zero m [] x e h = absurd (none-ne-some h)
drop_at zero zero (y ∷ ys) x e h = absurd (omega arith)
drop_at zero (suc m) (y ∷ ys) x e h =
    let here : m ≡ 0 = omega arith in
    ap (λ z. z ∷ ys) (some-injective h) ∙ ap (λ k. x ∷ drop k ys) (sym here)
drop_at (suc n) m [] x e h = absurd (none-ne-some h)
drop_at (suc n) zero (y ∷ ys) x e h = absurd (omega arith)
drop_at (suc n) (suc m) (y ∷ ys) x e h = drop_at n m ys x (omega arith) h

pub drop_all : {A : Type 0} (n : ℕ) (xs : List A) → length xs ≤ n → drop n xs ≡ []
drop_all zero [] h = refl
drop_all zero (x ∷ xs) h = absurd (omega arith)
drop_all (suc n) [] h = refl
drop_all (suc n) (x ∷ xs) h = drop_all n xs (omega arith)

pub finish-closed :
    (e : Option PtyError) (why : CloseReason) (a : Attachment) → (finish e why a).closed ≡ true
unfolding finish
finish-closed e why a =
    if_elim (λ (x : Attachment). x.closed ≡ true) a.closed _ _ (λ h. h) (λ h. refl)

-- How a round treats what is outstanding: it gives the first event and keeps the rest, keeps all, or
-- ends the attachment.
abbrev pub Given : Attachment → Round × Attachment → Type 0
Given a (gives event, a') = outstanding a ≡ event ∷ outstanding a'
Given a (waits, a') = a' ≡ a
Given a (ends, a') = a'.closed ≡ true

take_queue-Given :
    (a : Attachment) (queue : List AttachmentEvent)
    → is_replaying a ≡ false
    → a.queue ≡ queue
    → Given a (take_queue a queue)
take_queue-Given a [] h e =
    if_elim (Given a) a.closing _ _ (λ c. finish-closed none session_exited a) (λ c. refl)
take_queue-Given a (event ∷ rest) h e =
    let nothing : drop a.replay_next a.replay ≡ [] =
      drop_all a.replay_next a.replay (ground arith) in
    if_elim (Given a) (not a.active) _ _ (λ c. refl)
      λ c.
        ap (λ r. map output r ++ a.queue) nothing
        ∙ e
        ∙ ap (λ r. event ∷ (map output r ++ rest)) (sym nothing)

take_replay-Given :
    (a : Attachment) (o : Option OutputEvent)
    → is_replaying a ≡ true
    → get_elem? a.replay a.replay_next ≡ o
    → Given a (take_replay a o)
take_replay-Given a none h e =
    let (x, found) = get_elem?-some a.replay a.replay_next (ground arith) in
    absurd (none-ne-some (sym e ∙ found))
take_replay-Given a (some o) h e =
    let next = a.replay_next + 1 in
    let first : outstanding a ≡ output o ∷ (map output (drop next a.replay) ++ a.queue) =
      ap (λ r. map output r ++ a.queue) (drop_at a.replay_next next a.replay o refl e) in
    if_elim (λ (a' : Attachment). outstanding a ≡ output o ∷ outstanding a')
      (next == length a.replay) _ _
      (λ last.
        first
        ∙ ap (λ r. output o ∷ (map output r ++ a.queue)) (drop_all next a.replay (ground arith)))
      (λ more. first)

-- Every round of `run` gives the sink the first event that is outstanding and leaves the others in
-- their order, or waits and changes nothing, or ends with the attachment closed.
pub run_round-Given : (a : Attachment) → Given a (run_round a)
unfolding run_round
run_round-Given a =
    if_elim (Given a) a.closed _ _ (λ h. h)
      λ live.
        if_elim (Given a) (is_replaying a) _ _
          (λ h.
            if_elim (Given a) (not a.active) _ _ (λ c. refl)
              λ c. take_replay-Given a (get_elem? a.replay a.replay_next) h refl)
          (λ h. take_queue-Given a a.queue h refl)
