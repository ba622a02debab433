-- ===== src/Peer/Outbound.antt =====
-- The outbound side of a Peer in peer.go: one FIFO queue for each stream, the order in which the
-- streams are visited, and what `send` and `takeLocked` do to them under the Peer's lock.
-- Counts stay natural numbers: what is taken off a count has been added to it before.
pub mod Invariant
pub mod Taking
pub mod Complete
pub mod Fifo
use streammux.Base.{
  ℕ, zero, suc, ◌+◌, ◌-◌, ◌%◌, Bool, true, false, not, ◌&&◌, Option, none, some, List, [], ◌∷◌,
  ◌++◌, ltb, leb, ◌==◌, if◌then◌else◌, length, get_elem?, remove_at,
}
use streammux.Base.Map.{Map, lookup, insert, delete}
use streammux.Frame.{Frame}
use streammux.Peer.Limits.{Limits}

-- `outboundRequest`; `ticket` stands for its `result` channel.
pub record Request : Type 0 where
  pub frame : Frame
  pub class : ℕ
  pub bytes : ℕ
  pub ticket : ℕ

-- `outboundStream`
pub record OutStream : Type 0 where
  pub id : ℕ
  pub queue : List Request
  pub bytes : ℕ

pub record Outbound : Type 0 where
  pub streams : Map OutStream
  pub order : List ℕ
  pub bytes : ℕ
  pub frames : ℕ

abbrev pub no_outbound : Outbound
no_outbound = record { streams = []; order = []; bytes = 0; frames = 0 }

abbrev pub stream_of : Request → ℕ
stream_of r = r.frame.header.stream_id

-- Whether the stream has room: a new one among the active streams, an old one in its queue.
abbrev pub stream_fits : Limits → Outbound → Request → Option OutStream → Bool
stream_fits l o r none = not (leb l.max_active (length o.streams))
stream_fits l o r (some s) =
    not (ltb l.stream_bytes (s.bytes + r.bytes)) && not (ltb l.stream_frames (length s.queue + 1))

-- `fits` in `send`
unfoldable pub fits : Limits → Outbound → Request → Bool
fits l o r =
    leb r.bytes l.stream_bytes
    && leb r.bytes l.out_bytes
    && stream_fits l o r (lookup (stream_of r) o.streams)
    && not (ltb l.out_bytes (o.bytes + r.bytes))
    && not (ltb l.out_frames (o.frames + 1))

abbrev pub push : Request → OutStream → OutStream
push r s = record s { queue = s.queue ++ (r ∷ []); bytes = s.bytes + r.bytes }

-- The step of `send` on a request that fits.
unfoldable pub enqueue : Outbound → Request → Outbound
enqueue o r = elim (lookup (stream_of r) o.streams) [
  | none ↦ record {
    streams =
        insert (stream_of r) (record { id = stream_of r; queue = r ∷ []; bytes = r.bytes })
          o.streams;
    order = o.order ++ (stream_of r ∷ []);
    bytes = o.bytes + r.bytes;
    frames = o.frames + 1;
  }
  | some s ↦ record {
    streams = insert (stream_of r) (push r s) o.streams;
    order = o.order;
    bytes = o.bytes + r.bytes;
    frames = o.frames + 1;
  }
]

-- One round of the loop of `send`: nothing where the caller has to wait.
unfoldable pub try_enqueue : Limits → Outbound → Request → Option Outbound
try_enqueue l o r = if fits l o r then some (enqueue o r) else none

-- What `takeLocked` leaves behind: the other streams untouched, and the cursor on the next stream.
unfoldable pub settle : Outbound → ℕ → OutStream → Request → List Request → Outbound × ℕ
settle o index s r [] =
    let order = remove_at o.order index in
    let next = (index + 1) % length o.order in
    (
      record {
        streams = delete s.id o.streams;
        order = order;
        bytes = o.bytes - r.bytes;
        frames = o.frames - 1;
      },
      if length order == 0 then 0 else if ltb index next then next - 1 else next,
    )
settle o index s r (q ∷ rest) = (
  record {
    streams = insert s.id (record s { queue = q ∷ rest; bytes = s.bytes - r.bytes }) o.streams;
    order = o.order;
    bytes = o.bytes - r.bytes;
    frames = o.frames - 1;
  },
  (index + 1) % length o.order,
)

take_queue : Outbound → ℕ → ℕ → OutStream → List Request → Option (Request × (Outbound × ℕ))
take_queue o class index s [] = none
take_queue o class index s (r ∷ rest) =
    if r.class == class then some (r, settle o index s r rest) else none

take_stream : Outbound → ℕ → ℕ → Option OutStream → Option (Request × (Outbound × ℕ))
unfolding take_queue
take_stream o class index none = none
take_stream o class index (some s) = take_queue o class index s s.queue

take_id : Outbound → ℕ → ℕ → Option ℕ → Option (Request × (Outbound × ℕ))
unfolding take_stream
take_id o class index none = none
take_id o class index (some id) = take_stream o class index (lookup id o.streams)

-- One round of the loop of `takeLocked`: the stream at `index`, if its first request is of the class.
unfoldable pub take_at : Outbound → ℕ → ℕ → Option (Request × (Outbound × ℕ))
unfolding take_id
take_at o class index = take_id o class index (get_elem? o.order index)

-- The rounds from `checked` on, `left` of them.
scan : ℕ → Outbound → ℕ → ℕ → ℕ → Option (Request × (Outbound × ℕ))
scan zero o class cursor checked = none
scan (suc left) o class cursor checked =
    let later = scan left o class cursor (checked + 1) in
    elim (take_at o class ((cursor + checked) % length o.order)) [ some t ↦ some t | none ↦ later ]

-- `takeLocked`: the request taken, and the cursor; the queues only where one is taken.
unfoldable pub take_locked : Outbound → ℕ → ℕ → Option (Request × Outbound) × ℕ
unfolding scan
take_locked o class cursor =
    if length o.order == 0 then (none, 0) else elim (scan (length o.order) o class cursor 0) [
      | none ↦ (none, cursor)
      | some (r, (o', next)) ↦ (some (r, o'), next)
    ]
