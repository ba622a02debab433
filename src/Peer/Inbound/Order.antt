-- ===== src/Peer/Inbound/Order.antt =====
-- The inbound queues of peer.go as one FIFO queue for each stream.
use streammux.Base.{
  ℕ, ◌+◌, ◌-◌, ◌≡◌, refl, ap, ◌∙◌, Bool, true, false, Option, none, some, List, [], ◌∷◌, ◌++◌, ◌==◌,
  ◌&&◌, if◌then◌else◌, length, arith, inl, inr, Bool-cases, leb, ltb,
}
use streammux.Base.Map.{lookup, insert, Distinct, keys, lookup-insert, lookup-delete}
use streammux.Frame.{Frame}
use streammux.Peer.Limits.{Limits}
use streammux.Peer.Inbound.{
  InStream, Inbound, no_frames, frame_bytes, Dispatch, queued, no_handler, too_many, overflow, wait,
  dispatch, dispatch_stream, dispatch_found, Work, handle, finished, work, work_stream, work_frames,
}
use streammux.Peer.Inbound.Bounds.{IsInbound}

abbrev contents : Option InStream → List Frame
contents none = []
contents (some s) = s.frames

-- The frames of a stream that wait for its handler, oldest first.
abbrev pub frames_of : Inbound → ℕ → List Frame
frames_of b id = contents (lookup id b.streams)

-- What a round of `dispatch` does to the queues: the frame joins its own stream's queue where it is
-- queued, and nothing moves otherwise.
abbrev pub Dispatched : Frame → Inbound → Dispatch × Inbound → Type 0
Dispatched f b (queued, b') =
    (id : ℕ)
    → frames_of b' id
      ≡ (if f.header.stream_id == id then frames_of b id ++ (f ∷ []) else frames_of b id)
Dispatched f b (no_handler, b') = (id : ℕ) → frames_of b' id ≡ frames_of b id
Dispatched f b (too_many, b') = (id : ℕ) → frames_of b' id ≡ frames_of b id
Dispatched f b (overflow, b') = (id : ℕ) → frames_of b' id ≡ frames_of b id
Dispatched f b (wait, b') = (id : ℕ) → frames_of b' id ≡ frames_of b id

dispatch_stream-Dispatched :
    (l : Limits) (waited : Bool) (b c : Inbound) (f : Frame) (s : InStream)
    → ((id : ℕ) → frames_of c id ≡ frames_of b id)
    → lookup f.header.stream_id c.streams ≡ some s
    → Dispatched f b (dispatch_stream l waited c f s)
unfolding dispatch_stream
dispatch_stream-Dispatched l waited b c f s same found =
    let added : InStream = record {
      frames = s.frames ++ (f ∷ []);
      bytes = s.bytes + frame_bytes f;
    } in
    elim (Bool-cases (ltb l.stream_bytes (frame_bytes f))) [
      | inl over ↦ rw over same
      | inr small ↦
          rw small
            (elim (Bool-cases (
              leb (s.bytes + frame_bytes f) l.stream_bytes
              && leb (length s.frames + 1) l.stream_frames)) [
                | inl fits ↦ rw fits (λ id.
                    ground (arith, same id, lookup-insert f.header.stream_id id added c.streams))
                | inr full ↦ rw full (elim (Bool-cases l.backpressure) [
                  | inl waits ↦ rw waits same
                  | inr fails ↦ rw fails same
                ])
              ])
    ]

dispatch_found-Dispatched :
    (l : Limits) (waited : Bool) (b : Inbound) (f : Frame) (s : Option InStream)
    → lookup f.header.stream_id b.streams ≡ s
    → Dispatched f b (dispatch_found l waited b f s)
unfolding dispatch_found
dispatch_found-Dispatched l waited b f (some s) found =
    dispatch_stream-Dispatched l waited b b f s (λ id. refl) found
dispatch_found-Dispatched l waited b f none found =
    let id = f.header.stream_id in
    elim (Bool-cases (leb l.max_active (length b.streams))) [
      | inl full ↦ rw full (λ k. refl)
      | inr room ↦ rw room (
          dispatch_stream-Dispatched l waited b
            (record b { streams = insert id no_frames b.streams }) f no_frames
            (λ k. ground (arith, lookup-insert id k no_frames b.streams))
            (ground (arith, lookup-insert id id no_frames b.streams)))
    ]

-- A frame that `dispatch` queues joins the end of its own stream's queue. On an error and on a wait
-- no queue changes.
pub dispatch-Dispatched :
    (l : Limits) (handled waited : Bool) (b : Inbound) (f : Frame)
    → Dispatched f b (dispatch l handled waited b f)
unfolding dispatch
dispatch-Dispatched l false waited b f = λ id. refl
dispatch-Dispatched l true waited b f =
    dispatch_found-Dispatched l waited b f (lookup f.header.stream_id b.streams) refl

-- What a worker's round does to the queues: its stream's oldest frame goes to the handler, or the
-- stream was empty.
abbrev pub Worked : ℕ → Inbound → Work × Inbound → Type 0
Worked id b (handle f, b') =
    (k : ℕ) → frames_of b k ≡ (if id == k then f ∷ frames_of b' k else frames_of b' k)
Worked id b (finished, b') =
    ((frames_of b id ≡ []) × (lookup id b'.streams ≡ none))
    × ((k : ℕ) → frames_of b' k ≡ frames_of b k)

work_frames-Worked :
    (id : ℕ) (b : Inbound) (s : InStream) (frames : List Frame)
    → Distinct (keys b.streams)
    → lookup id b.streams ≡ some s
    → s.frames ≡ frames
    → Worked id b (work_frames id b s frames)
work_frames-Worked id b s [] d found e = (
  (ap contents found ∙ e, ground (arith, lookup-delete id id b.streams d)),
  λ k. ground (arith, lookup-delete id k b.streams d),
)
work_frames-Worked id b s (f ∷ rest) d found e =
    let left : InStream = record { frames = rest; bytes = s.bytes - frame_bytes f } in
    λ k. ground (arith, lookup-insert id k left b.streams)

work_stream-Worked :
    (id : ℕ) (b : Inbound) (s : Option InStream)
    → Distinct (keys b.streams)
    → lookup id b.streams ≡ s
    → Worked id b (work_stream id b s)
work_stream-Worked id b none d found = ((ap contents found, found), λ k. refl)
work_stream-Worked id b (some s) d found = work_frames-Worked id b s s.frames d found refl

-- One hold of a worker's lock takes its stream's oldest frame off the queue, or, if there is none, the stream
-- off the table; no other stream's queue changes.
pub work-Worked : (l : Limits) (id : ℕ) (b : Inbound) → IsInbound l b → Worked id b (work id b)
unfolding work
work-Worked l id b inv = work_stream-Worked id b (lookup id b.streams) inv.distinct refl
