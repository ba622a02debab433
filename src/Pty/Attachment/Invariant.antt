-- ===== src/Pty/Attachment/Invariant.antt =====
-- An attachment of pty/manager.go keeps within its bound, and its exit event comes last.
use streammux.Base.{
  ℕ, ◌+◌, ◌≡◌, ◌≤◌, refl, sym, ap, ◌∙◌, subst, Bool, true, false, not, ◌||◌, Option, none, some,
  List, [], ◌∷◌, ◌++◌, length, get_elem?, total, total-append, ok, if_elim, else-ok, ok-injective,
  ltb, ◌==◌, arith,
}
use streammux.Pty.Values.{
  PtyError, OutputEvent, ExitStatus, AttachmentEvent, output, exit, CloseReason, session_exited,
}
use streammux.Pty.Attachment.{
  Attachment, Round, event_bytes, new_attachment, enqueue, enqueue_exit, finish, is_replaying,
  take_replay, take_queue, run_round,
}

-- Whether a queue holds an exit in its last place at most, and one there if the attachment is closing.
abbrev pub exit_last : List AttachmentEvent → Bool
exit_last [] = true
exit_last (output o ∷ rest) = exit_last rest
exit_last (exit s ∷ []) = true
exit_last (exit s ∷ (event ∷ rest)) = false

abbrev pub has_exit : List AttachmentEvent → Bool
has_exit [] = false
has_exit (output o ∷ rest) = has_exit rest
has_exit (exit s ∷ rest) = true

-- The bytes counted, within the bound; no exit before `closing` is set, and only at the end; nothing
-- kept once the attachment is closed.
pub record IsAttachment (a : Attachment) : Type 0 where
  pub counted : a.bytes ≡ total event_bytes a.queue
  pub bounded : a.bytes ≤ a.max_bytes
  pub last : exit_last a.queue ≡ true
  pub no_exit : a.closing ≡ false → has_exit a.queue ≡ false
  pub emptied : a.closed ≡ true → (a.replay ≡ []) × (a.queue ≡ [])

pub new_attachment-IsAttachment :
    (max : ℕ) (active : Bool) (replay : List OutputEvent)
    → IsAttachment (new_attachment max active replay)
new_attachment-IsAttachment max active replay = record {
  counted = refl;
  bounded = omega arith;
  last = refl;
  no_exit = λ h. refl;
  emptied = λ h. ground arith;
}

exit_last-snoc :
    (queue : List AttachmentEvent) (event : AttachmentEvent)
    → has_exit queue ≡ false
    → exit_last (queue ++ (event ∷ [])) ≡ true
exit_last-snoc [] (output o) h = refl
exit_last-snoc [] (exit s) h = refl
exit_last-snoc (output o ∷ rest) event h = exit_last-snoc rest event h
exit_last-snoc (exit s ∷ rest) event h = ground arith

has_exit-snoc :
    (queue : List AttachmentEvent) (o : OutputEvent)
    → has_exit queue ≡ false
    → has_exit (queue ++ (output o ∷ [])) ≡ false
has_exit-snoc [] o h = refl
has_exit-snoc (output p ∷ rest) o h = has_exit-snoc rest o h
has_exit-snoc (exit s ∷ rest) o h = h

-- Output that `enqueueLocked` accepts leaves the attachment within its bound.
pub enqueue-IsAttachment :
    (o : OutputEvent) (a a' : Attachment)
    → IsAttachment a
    → enqueue (output o) a ≡ ok a'
    → IsAttachment a'
unfolding enqueue
enqueue-IsAttachment o a a' inv e =
    let (live, room) = else-ok (a.closed || a.closing) _ _ a' e in
    let (fits, done) =
      else-ok
        (ltb a.max_bytes (event_bytes (output o))
          || ltb a.max_bytes (a.bytes + event_bytes (output o)))
        _ _ a' room in
    let quiet : a.closing ≡ false = ground arith in
    let was_live : a.closed ≡ false = ground arith in
    let none_before = inv.no_exit quiet in
    subst IsAttachment (ok-injective done) (record {
      counted = omega (arith, inv.counted, total-append event_bytes a.queue (output o ∷ []));
      bounded = ground arith;
      last = exit_last-snoc a.queue (output o) none_before;
      no_exit = λ h. has_exit-snoc a.queue o none_before;
      emptied = λ h. ground arith;
    })

-- So does the exit event that `enqueueExitLocked` accepts, whatever the bound.
pub enqueue_exit-IsAttachment :
    (s : ExitStatus) (a a' : Attachment)
    → IsAttachment a
    → enqueue_exit s a ≡ ok a'
    → IsAttachment a'
unfolding enqueue_exit
enqueue_exit-IsAttachment s a a' inv e =
    let (live, done) = else-ok (a.closed || a.closing) _ _ a' e in
    let quiet : a.closing ≡ false = ground arith in
    let was_live : a.closed ≡ false = ground arith in
    subst IsAttachment (ok-injective done) (record {
      counted = omega (arith, inv.counted, total-append event_bytes a.queue (exit s ∷ []));
      bounded = inv.bounded;
      last = exit_last-snoc a.queue (exit s) (inv.no_exit quiet);
      no_exit = λ h. ground arith;
      emptied = λ h. ground arith;
    })

pub finish-IsAttachment :
    (e : Option PtyError) (why : CloseReason) (a : Attachment)
    → IsAttachment a
    → IsAttachment (finish e why a)
unfolding finish
finish-IsAttachment e why a inv =
    if_elim IsAttachment a.closed _ _ (λ h. inv)
      λ h. record {
        counted = refl;
        bounded = omega arith;
        last = refl;
        no_exit = λ c. refl;
        emptied = λ c. (refl, refl);
      }

exit_last-uncons :
    (event : AttachmentEvent) (rest : List AttachmentEvent)
    → exit_last (event ∷ rest) ≡ true
    → exit_last rest ≡ true
exit_last-uncons (output o) rest h = h
exit_last-uncons (exit s) [] h = refl
exit_last-uncons (exit s) (event ∷ rest) h = ground arith

has_exit-uncons :
    (event : AttachmentEvent) (rest : List AttachmentEvent)
    → has_exit (event ∷ rest) ≡ false
    → has_exit rest ≡ false
has_exit-uncons (output o) rest h = h
has_exit-uncons (exit s) rest h = ground arith

abbrev Kept : Round × Attachment → Type 0
Kept (round, a) = IsAttachment a

take_queue-Kept :
    (a : Attachment) (queue : List AttachmentEvent)
    → IsAttachment a
    → a.closed ≡ false
    → a.queue ≡ queue
    → IsAttachment (take_queue a queue).1
take_queue-Kept a [] inv live e =
    if_elim (λ (x : Round × Attachment). IsAttachment x.1) a.closing _ _
      (λ h. finish-IsAttachment none session_exited a inv) (λ h. inv)
take_queue-Kept a (event ∷ rest) inv live e =
    let counted : a.bytes ≡ total event_bytes (event ∷ rest) =
      inv.counted ∙ ap (total event_bytes) e in
    if_elim (λ (x : Round × Attachment). IsAttachment x.1) (not a.active) _ _ (λ h. inv)
      λ h. record {
        counted = omega arith;
        bounded = omega (arith, inv.bounded);
        last = exit_last-uncons event rest (sym (ap exit_last e) ∙ inv.last);
        no_exit = λ c. has_exit-uncons event rest (sym (ap has_exit e) ∙ inv.no_exit c);
        emptied = λ c. ground arith;
      }

replay-IsAttachment :
    (a : Attachment) (replay : List OutputEvent) (next : ℕ)
    → IsAttachment a
    → a.closed ≡ false
    → IsAttachment (record a { replay = replay; replay_next = next })
replay-IsAttachment a replay next inv live = record {
  counted = inv.counted;
  bounded = inv.bounded;
  last = inv.last;
  no_exit = inv.no_exit;
  emptied = λ c. ground arith;
}

take_replay-Kept :
    (a : Attachment) (o : Option OutputEvent)
    → IsAttachment a
    → a.closed ≡ false
    → IsAttachment (take_replay a o).1
take_replay-Kept a none inv live = inv
take_replay-Kept a (some o) inv live =
    if_elim IsAttachment (a.replay_next + 1 == length a.replay) _ _
      (λ h. replay-IsAttachment a [] 0 inv live)
      (λ h. replay-IsAttachment a a.replay (a.replay_next + 1) inv live)

-- Every round of `run` keeps the queue counted and within the bound, and the exit at its end.
pub run_round-IsAttachment : (a : Attachment) → IsAttachment a → IsAttachment (run_round a).1
unfolding run_round
run_round-IsAttachment a inv =
    if_elim (λ (x : Round × Attachment). IsAttachment x.1) a.closed _ _ (λ h. inv)
      λ live.
        if_elim (λ (x : Round × Attachment). IsAttachment x.1) (is_replaying a) _ _
          (λ h.
            if_elim (λ (x : Round × Attachment). IsAttachment x.1) (not a.active) _ _ (λ c. inv)
              λ c. take_replay-Kept a (get_elem? a.replay a.replay_next) inv live)
          (λ h. take_queue-Kept a a.queue inv live refl)
