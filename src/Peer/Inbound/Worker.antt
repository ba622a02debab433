-- ===== src/Peer/Inbound/Worker.antt =====
-- `runInbound` of peer.go: the worker of a stream, from the frame that starts it to where it returns. The calls
-- of the handlers are a function, since the handlers are the application's.
use streammux.Base.{
  ℕ, suc, zero, ◌<◌, ◌≡◌, refl, sym, ap, ◌∙◌, false, Option, none, some, List, [], ◌∷◌, ◌++◌, ◌==◌,
  length, arith, All, if_true, if_false, ==_iff,
}
use streammux.Base.Map.{Map, lookup}
use streammux.Errors.{Error, handler_not_found}
use streammux.Frame.{Frame}
use streammux.Peer.Limits.{Limits}
use streammux.Peer.Inbound.{Inbound, Work, handle, finished, work}
use streammux.Peer.Inbound.Bounds.{IsInbound, work-IsInbound}
use streammux.Peer.Inbound.Order.{frames_of, Worked, work-Worked}

-- What comes of a frame: `callHandler` with its handler, where a panic is an error too.
abbrev pub call_found : (ℕ → Frame → Option Error) → Frame → Option ℕ → Option Error
call_found calls f none = some handler_not_found
call_found calls f (some handler) = calls handler f

abbrev pub answer_to : Map ℕ → (ℕ → Frame → Option Error) → Frame → Option Error
answer_to handlers calls f = call_found calls f (lookup f.header.message_type handlers)

-- The frames that a worker has called for, the error with which it closes the Peer as it returns, if any, and
-- the queues then.
abbrev pub Ran : Type 0
Ran = List Frame × (Option Error × Inbound)

abbrev pub called : Frame → Option Ran → Option Ran
called f none = none
called f (some (frames, r)) = some (f ∷ frames, r)

abbrev pub answered : Frame → Inbound → (Inbound → Option Ran) → Option Error → Option Ran
answered f b later (some e) = some (f ∷ [], (some e, b))
answered f b later none = called f (later b)

abbrev pub after_work :
    (Frame → Option Error) → (Inbound → Option Ran) → Work × Inbound → Option Ran
after_work answers later (finished, b) = some ([], (none, b))
after_work answers later (handle f, b) = answered f b later (answers f)

-- `runInbound` with so much fuel, where nothing else is queued and no handler registered meanwhile.
unfoldable pub run_inbound : (Frame → Option Error) → ℕ → ℕ → Inbound → Option Ran
run_inbound answers zero id b = none
run_inbound answers (suc fuel) id b = after_work answers (run_inbound answers fuel id) (work id b)

abbrev pub AllHandled : (Frame → Option Error) → List Frame → Type 0
AllHandled answers frames = All (λ f. answers f ≡ none) frames

abbrev pub SameOthers : ℕ → Inbound → Inbound → Type 0
SameOthers id b b' = (k : ℕ) → (id == k) ≡ false → frames_of b' k ≡ frames_of b k

-- How a worker ends: with every frame of its stream handled in order and its stream off the table, or at
-- the first frame that cannot be handled, with that error and the frames behind it left.
pub data HasRun (answers : Frame → Option Error) (id : ℕ) (b : Inbound) : Option Ran → Type 0 where
  ends :
      (frames : List Frame) (b' : Inbound)
      → frames_of b id ≡ frames
      → AllHandled answers frames
      → lookup id b'.streams ≡ none
      → SameOthers id b b'
      → HasRun answers id b (some (frames, (none, b')))
  fails :
      (frames before : List Frame) (f : Frame) (e : Error) (b' : Inbound)
      → frames ≡ before ++ (f ∷ [])
      → frames_of b id ≡ before ++ (f ∷ frames_of b' id)
      → AllHandled answers before
      → answers f ≡ some e
      → SameOthers id b b'
      → HasRun answers id b (some (frames, (some e, b')))

module _ (answers : Frame → Option Error) (id : ℕ) where
  taken :
      (b b' : Inbound) (f : Frame)
      → Worked id b (handle f, b')
      → (frames_of b id ≡ f ∷ frames_of b' id) × SameOthers id b b'
  taken b b' f w = (
    w id ∙ if_true (id == id) _ _ ((==_iff id id).1 refl),
    λ k other. sym (w k ∙ if_false (id == k) _ _ other),
  )

  called-HasRun :
      (b b' : Inbound) (f : Frame) (r : Option Ran)
      → Worked id b (handle f, b')
      → answers f ≡ none
      → HasRun answers id b' r
      → HasRun answers id b (called f r)
  unfolding taken
  called-HasRun b b' f _ w good (ends frames c all handled gone others) =
      let (first, same) = taken b b' f w in
      ends (f ∷ frames) c (first ∙ ap (λ l. f ∷ l) all) (good, handled) gone
        (λ k other. others k other ∙ same k other)
  called-HasRun b b' f _ w good (fails frames before g e c is all handled bad others) =
      let (first, same) = taken b b' f w in
      fails (f ∷ frames) (f ∷ before) g e c (ap (λ l. f ∷ l) is) (first ∙ ap (λ l. f ∷ l) all)
        (good, handled) bad (λ k other. others k other ∙ same k other)

  answered-HasRun :
      (b b' : Inbound) (f : Frame) (later : Inbound → Option Ran) (a : Option Error)
      → Worked id b (handle f, b')
      → answers f ≡ a
      → HasRun answers id b' (later b')
      → HasRun answers id b (answered f b' later a)
  unfolding taken
  answered-HasRun b b' f later (some e) w bad rest =
      let (first, same) = taken b b' f w in fails (f ∷ []) [] f e b' refl first tt bad same
  answered-HasRun b b' f later none w good rest = called-HasRun b b' f (later b') w good rest

  after_work-HasRun :
      (b : Inbound) (later : Inbound → Option Ran) (r : Work × Inbound)
      → Worked id b r
      → (length (frames_of r.1 id) < length (frames_of b id) → HasRun answers id r.1 (later r.1))
      → HasRun answers id b (after_work answers later r)
  unfolding taken
  after_work-HasRun b later (finished, b') ((nothing, gone), same) rest =
      ends [] b' nothing tt gone (λ k other. same k)
  after_work-HasRun b later (handle f, b') w rest =
      answered-HasRun b b' f later (answers f) w refl
        (rest (omega (arith, ap length ((taken b b' f w).0))))

answers-HasRun :
    (l : Limits) (answers : Frame → Option Error) (fuel id : ℕ) (b : Inbound)
    → IsInbound l b
    → length (frames_of b id) < fuel
    → HasRun answers id b (run_inbound answers fuel id b)
unfolding run_inbound
answers-HasRun l answers zero id b inv enough = absurd (omega arith)
answers-HasRun l answers (suc fuel) id b inv enough =
    after_work-HasRun answers id b (run_inbound answers fuel id) (work id b)
      (work-Worked l id b inv)
      (λ less.
        answers-HasRun l answers fuel id (work id b).1 (work-IsInbound l id b inv)
          (omega (arith, less)))

-- A worker on queues that are consistent, with more fuel than frames are queued and nothing queued meanwhile,
-- returns: it has taken its stream's frames in the order in which they were queued, and either each was
-- handled, none is left and the stream is off the table; or it stopped at the first that has no handler
-- or whose handler fails, with that error, and the frames behind it are still queued. No other stream's
-- queue changes.
pub run_inbound-HasRun :
    (l : Limits) (handlers : Map ℕ) (calls : ℕ → Frame → Option Error) (fuel id : ℕ) (b : Inbound)
    → IsInbound l b
    → length (frames_of b id) < fuel
    → HasRun (answer_to handlers calls) id b (run_inbound (answer_to handlers calls) fuel id b)
run_inbound-HasRun l handlers calls fuel id b inv enough =
    answers-HasRun l (answer_to handlers calls) fuel id b inv enough
