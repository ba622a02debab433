-- ===== src/Peer/Inbound.antt =====
-- The inbound side of a Peer in peer.go: a bounded queue of frames for each stream, filled by
-- `dispatch` and emptied by the stream's worker `runInbound`. A worker runs for a stream as long as
-- the stream stands in the table, so the table's key stands for the worker's own reference.
pub mod Bounds
pub mod Order
pub mod Worker
use streammux.Base.{
  ℕ, zero, suc, ◌+◌, ◌-◌, ◌%◌, ◌^◌, Bool, true, false, not, ◌&&◌, Option, none, some, List, [], ◌∷◌,
  ◌++◌, ltb, leb, if◌then◌else◌, length, is_some,
}
use streammux.Base.Map.{Map, lookup, insert, delete}
use streammux.Frame.{Frame, header_size}
use streammux.Peer.Limits.{Limits}

-- `inboundStream`
pub record InStream : Type 0 where
  pub frames : List Frame
  pub bytes : ℕ

pub record Inbound : Type 0 where
  pub streams : Map InStream
  pub overflows : ℕ
  pub waits : ℕ

abbrev pub no_inbound : Inbound
no_inbound = record { streams = []; overflows = 0; waits = 0 }

abbrev pub no_frames : InStream
no_frames = record { frames = []; bytes = 0 }

-- A `uint64` counter and `++`.
abbrev pub count : ℕ → ℕ
count n = (n + 1) % 2 ^ 64

-- `len(frame.Payload) + HeaderSize`
abbrev pub frame_bytes : Frame → ℕ
frame_bytes f = length f.payload + header_size

-- How one round of the loop of `dispatch` ends: the three errors, the frame queued, or a wait.
pub data Dispatch : Type 0 where
  no_handler too_many overflow queued wait : Dispatch

-- The round on the stream's state `s`, which stands in the table by now.
unfoldable pub dispatch_stream : Limits → Bool → Inbound → Frame → InStream → Dispatch × Inbound
dispatch_stream l waited b f s =
    let id = f.header.stream_id in
    if ltb l.stream_bytes (frame_bytes f)
    then (overflow, record b { overflows = count b.overflows })
    else if leb (s.bytes + frame_bytes f) l.stream_bytes
        && leb (length s.frames + 1) l.stream_frames
    then (
      queued,
      record b {
        streams =
            insert id (record { frames = s.frames ++ (f ∷ []); bytes = s.bytes + frame_bytes f })
              b.streams;
      },
    )
    else if not l.backpressure
    then (overflow, record b { overflows = count b.overflows })
    else (wait, record b { waits = if waited then b.waits else count b.waits })

dispatch_found : Limits → Bool → Inbound → Frame → Option InStream → Dispatch × Inbound
unfolding dispatch_stream
dispatch_found l waited b f (some s) = dispatch_stream l waited b f s
dispatch_found l waited b f none =
    if leb l.max_active (length b.streams)
    then (too_many, b)
    else dispatch_stream l waited
        (record b { streams = insert f.header.stream_id no_frames b.streams }) f no_frames

-- One round of the loop of `dispatch` on a Peer that is not closed. `handled` says whether the
-- frame's message type has a handler, `waited` whether this call has waited before.
unfoldable pub dispatch : Limits → Bool → Bool → Inbound → Frame → Dispatch × Inbound
unfolding dispatch_found
dispatch l handled waited b f =
    if not handled
    then (no_handler, b)
    else dispatch_found l waited b f (lookup f.header.stream_id b.streams)

-- What a round of a worker does: run the handler on a frame, or end.
pub data Work : Type 0 where
  handle : Frame → Work
  finished : Work

abbrev work_frames : ℕ → Inbound → InStream → List Frame → Work × Inbound
work_frames id b s [] = (finished, record b { streams = delete id b.streams })
work_frames id b s (f ∷ rest) = (
  handle f,
  record b {
    streams = insert id (record { frames = rest; bytes = s.bytes - frame_bytes f }) b.streams;
  },
)

abbrev work_stream : ℕ → Inbound → Option InStream → Work × Inbound
work_stream id b none = (finished, b)
work_stream id b (some s) = work_frames id b s s.frames

-- One hold of the lock in `runInbound`.
unfoldable pub work : ℕ → Inbound → Work × Inbound
work id b = work_stream id b (lookup id b.streams)
