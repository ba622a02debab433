-- ===== src/Pty/Protocol/Sink.antt =====
-- `protocolOutputSink` of pty/protocol.go, and the frames with which `handleAttach` opens a stream to it: the
-- replay is announced, sent, and ended before the live output.
use streammux.Base.{
  ℕ, ◌≡◌, ◌<◌, refl, ap, ◌∙◌, Bool, true, false, not, ◌&&◌, Option, none, some, List, [], ◌∷◌, ◌++◌,
  map, if◌then◌else◌, ◌==◌, arith, if_elim,
}
use streammux.Pty.Values.{PtyError, OutputEvent, ExitStatus, AttachmentEvent, output, exit}
use streammux.Pty.Manager.Attaching.{AttachResult}

-- What a stream of the connection carries to the client, in the order of the sends.
pub data Sent : Type 0 where
  attached_frame : AttachResult → Sent
  replay_begins : AttachResult → Sent
  output_frame : List ℕ → Sent
  replay_ends : Sent
  exit_frame : ExitStatus → Sent

-- `protocolOutputSink`
pub record Sink : Type 0 where
  pub replay_last : ℕ
  pub replay_ended : Bool

-- What the sends come to, the first one first: an error of the encoding, of the frame or of the Peer;
-- where nothing is said, they go through.
abbrev pub Answers : Type 0
Answers = List (Option PtyError)

abbrev pub first_answer : Answers → Option PtyError
first_answer [] = none
first_answer (a ∷ rest) = a

abbrev pub later_answers : Answers → Answers
later_answers [] = []
later_answers (a ∷ rest) = rest

-- The test behind the output that was sent.
abbrev pub ends_replay : OutputEvent → Sink → Bool
ends_replay e s = not s.replay_ended && not (s.replay_last == 0) && e.sequence == s.replay_last

-- What `Send` sends, its error, and the sink behind it.
pub record Sending : Type 0 where
  pub frames : List Sent
  pub error : Option PtyError
  pub sink : Sink

abbrev pub send_end : Option PtyError → List ℕ → Sink → Sending
send_end (some x) bytes s = record { frames = output_frame bytes ∷ []; error = some x; sink = s }
send_end none bytes s = record {
  frames = output_frame bytes ∷ replay_ends ∷ [];
  error = none;
  sink = s;
}

abbrev pub send_output : Option PtyError → Option PtyError → OutputEvent → Sink → Sending
send_output (some x) last e s = record { frames = []; error = some x; sink = s }
send_output none last e s =
    if ends_replay e s
    then send_end last e.data_bytes (record s { replay_ended = true })
    else record { frames = output_frame e.data_bytes ∷ []; error = none; sink = s }

abbrev pub send_exit : Option PtyError → ExitStatus → Sink → Sending
send_exit (some x) status s = record { frames = []; error = some x; sink = s }
send_exit none status s = record { frames = exit_frame status ∷ []; error = none; sink = s }

-- `Send`
unfoldable pub send_event : Answers → AttachmentEvent → Sink → Sending
send_event answers (output e) s =
    send_output (first_answer answers) (first_answer (later_answers answers)) e s
send_event answers (exit status) s = send_exit (first_answer answers) status s

-- What `handleAttach` sends before it lets the attachment go on: the frames, the error that it
-- cleans up for, and the sink.
abbrev pub open_third : Option PtyError → AttachResult → Sending
open_third (some x) r = record {
  frames = attached_frame r ∷ replay_begins r ∷ [];
  error = some x;
  sink = record { replay_last = r.replay_last; replay_ended = false };
}
open_third none r = record {
  frames = attached_frame r ∷ replay_begins r ∷ replay_ends ∷ [];
  error = none;
  sink = record { replay_last = r.replay_last; replay_ended = true };
}

abbrev pub open_second : Option PtyError → Option PtyError → AttachResult → Sending
open_second (some x) third r = record {
  frames = attached_frame r ∷ [];
  error = some x;
  sink = record { replay_last = r.replay_last; replay_ended = false };
}
open_second none third r = if r.replay_last == 0 then open_third third r else record {
  frames = attached_frame r ∷ replay_begins r ∷ [];
  error = none;
  sink = record { replay_last = r.replay_last; replay_ended = false };
}

abbrev pub open_first : Option PtyError → Option PtyError → Option PtyError → AttachResult → Sending
open_first (some x) second third r = record {
  frames = [];
  error = some x;
  sink = record { replay_last = r.replay_last; replay_ended = false };
}
open_first none second third r = open_second second third r

unfoldable pub open_stream : Answers → AttachResult → Sending
open_stream answers r =
    open_first (first_answer answers) (first_answer (later_answers answers))
      (first_answer (later_answers (later_answers answers))) r

-- Events sent one after another, all of them through.
unfoldable pub send_all : List AttachmentEvent → Sink → List Sent × Sink
send_all [] s = ([], s)
send_all (e ∷ rest) s =
    let sent = send_event [] e s in
    let more = send_all rest sent.sink in (sent.frames ++ more.0, more.1)

-- The frame of an event alone.
abbrev pub frame_of : AttachmentEvent → Sent
frame_of (output e) = output_frame e.data_bytes
frame_of (exit status) = exit_frame status

abbrev pub frames_of : List AttachmentEvent → List Sent
frames_of events = map frame_of events

abbrev pub outputs : List OutputEvent → List AttachmentEvent
outputs es = map output es

-- Behind the end of the replay every event is its own frame.
send_all-ended :
    (events : List AttachmentEvent) (last : ℕ)
    → (send_all events (record { replay_last = last; replay_ended = true })).0 ≡ frames_of events
unfolding send_all send_event
send_all-ended [] last = refl
send_all-ended (output e ∷ rest) last =
    ap (λ xs. output_frame e.data_bytes ∷ xs) (send_all-ended rest last)
send_all-ended (exit status ∷ rest) last =
    ap (λ xs. exit_frame status ∷ xs) (send_all-ended rest last)

-- A replay that ends with the number given, which stands in it once; zero is for none.
abbrev pub EndsAt : ℕ → List OutputEvent → Type 0
EndsAt last [] = last ≡ 0
EndsAt last (e ∷ []) = (0 < last) × (e.sequence ≡ last)
EndsAt last (e ∷ f ∷ rest) = (e.sequence < last) × EndsAt last (f ∷ rest)

abbrev waiting : ℕ → Sink
waiting last = record { replay_last = last; replay_ended = false }

-- Output before the last of the replay is its own frame.
send_before :
    (last : ℕ) (e : OutputEvent) (rest : List AttachmentEvent)
    → e.sequence < last
    → (send_all (output e ∷ rest) (waiting last)).0
      ≡ output_frame e.data_bytes ∷ (send_all rest (waiting last)).0
unfolding send_all send_event
send_before last e rest early =
    if_elim
      (λ (x : Sending).
        x.frames ++ (send_all rest x.sink).0
        ≡ output_frame e.data_bytes ∷ (send_all rest (waiting last)).0)
      (ends_replay e (waiting last)) _ _ (λ ends. absurd (ground (arith, ends, early))) (λ _. refl)

-- The last of the replay has the end of the replay behind it.
send_last :
    (last : ℕ) (e : OutputEvent) (live : List AttachmentEvent)
    → 0 < last
    → e.sequence ≡ last
    → (send_all (output e ∷ live) (waiting last)).0
      ≡ output_frame e.data_bytes ∷ replay_ends ∷ frames_of live
unfolding send_all send_event
send_last last e live some_last is =
    if_elim
      (λ (x : Sending).
        x.frames ++ (send_all live x.sink).0
        ≡ output_frame e.data_bytes ∷ replay_ends ∷ frames_of live)
      (ends_replay e (waiting last)) _ _
      (λ _. ap (λ xs. output_frame e.data_bytes ∷ replay_ends ∷ xs) (send_all-ended live last))
      (λ goes_on. absurd (ground (arith, goes_on, some_last, is)))

send_all-replay :
    (last : ℕ) (e : OutputEvent) (rest : List OutputEvent) (live : List AttachmentEvent)
    → EndsAt last (e ∷ rest)
    → (send_all (outputs (e ∷ rest) ++ live) (waiting last)).0
      ≡ frames_of (outputs (e ∷ rest)) ++ (replay_ends ∷ frames_of live)
send_all-replay last e [] live (some_last, is) = send_last last e live some_last is
send_all-replay last e (f ∷ rest) live (early, ends) =
    send_before last e (outputs (f ∷ rest) ++ live) early
    ∙ ap (λ xs. output_frame e.data_bytes ∷ xs) (send_all-replay last f rest live ends)

-- What the client is sent when a stream is opened and the events follow.
abbrev pub carried : AttachResult → List AttachmentEvent → List Sent
carried r events =
    let opening = open_stream [] r in opening.frames ++ (send_all events opening.sink).0

some_last :
    (last : ℕ) (e : OutputEvent) (rest : List OutputEvent)
    → EndsAt last (e ∷ rest)
    → (last == 0) ≡ false
some_last last e [] (positive, is) = ground (arith, positive)
some_last last e (f ∷ rest) (early, ends) = some_last last f rest ends

-- Where the sends go through, a client that attaches is sent the response, the begin of the replay, the
-- replay in its order, its end exactly once and right behind it, even where the replay is empty, and then
-- the live events in theirs.
pub carried-replay :
    (r : AttachResult) (replay : List OutputEvent) (live : List AttachmentEvent)
    → EndsAt r.replay_last replay
    → carried r (outputs replay ++ live)
      ≡ attached_frame r
        ∷ replay_begins r
        ∷ (frames_of (outputs replay) ++ (replay_ends ∷ frames_of live))
unfolding open_stream
carried-replay r [] live ends =
    if_elim
      (λ (x : Sending).
        x.frames ++ (send_all live x.sink).0
        ≡ attached_frame r ∷ replay_begins r ∷ replay_ends ∷ frames_of live)
      (r.replay_last == 0) _ _
      (λ _.
        ap (λ xs. attached_frame r ∷ replay_begins r ∷ replay_ends ∷ xs)
          (send_all-ended live r.replay_last))
      (λ some. absurd (ground (arith, some, ends)))
carried-replay r (e ∷ rest) live ends =
    if_elim
      (λ (x : Sending).
        x.frames ++ (send_all (outputs (e ∷ rest) ++ live) x.sink).0
        ≡ attached_frame r
          ∷ replay_begins r
          ∷ (frames_of (outputs (e ∷ rest)) ++ (replay_ends ∷ frames_of live)))
      (r.replay_last == 0) _ _
      (λ zeroed. absurd (ground (arith, zeroed, some_last r.replay_last e rest ends)))
      (λ _.
        ap (λ xs. attached_frame r ∷ replay_begins r ∷ xs)
          (send_all-replay r.replay_last e rest live ends))
