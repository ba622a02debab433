-- ===== src/Peer/Inbound/Bounds.antt =====
-- The inbound queues of peer.go keep within their limits.
use streammux.Base.{
  ℕ, suc, ◌+◌, ◌-◌, ◌≤◌, ◌≡◌, refl, ap, ◌∙◌, subst, Bool, true, false, not, Option, none, some,
  List, [], ◌∷◌, ◌++◌, if◌then◌else◌, length, total, arith, is_some, inl, inr, Bool-cases,
  length-append, total-append, leb, ltb, ◌&&◌,
}
use streammux.Base.Map.{
  lookup, insert, Distinct, keys, Each, Each-insert, Each-delete, Each-lookup, Distinct-insert,
  Distinct-remove_key, keys-delete, length-insert, length-delete-le, lookup-insert,
}
use streammux.Frame.{Frame}
use streammux.Peer.Limits.{Limits}
use streammux.Peer.Inbound.{
  InStream, Inbound, no_inbound, no_frames, frame_bytes, Dispatch, dispatch, dispatch_stream,
  dispatch_found, work, work_stream, work_frames,
}

-- A stream counts the bytes of its frames, headers included, and keeps within its bounds.
pub record IsInStream (l : Limits) (id : ℕ) (s : InStream) : Type 0 where
  pub counted : s.bytes ≡ total frame_bytes s.frames
  pub bytes_le : s.bytes ≤ l.stream_bytes
  pub frames_le : length s.frames ≤ l.stream_frames

pub record IsInbound (l : Limits) (b : Inbound) : Type 0 where
  pub streams : Each (IsInStream l) b.streams
  pub distinct : Distinct (keys b.streams)
  pub active_le : length b.streams ≤ l.max_active

pub no_inbound-IsInbound : (l : Limits) → IsInbound l no_inbound
no_inbound-IsInbound l = record { streams = tt; distinct = tt; active_le = omega arith }

-- Writing a stream that stands in the table, or a new one where there is room.
put-IsInbound :
    (l : Limits) (b : Inbound) (id : ℕ) (s : InStream) (o w : ℕ)
    → IsInbound l b
    → IsInStream l id s
    → (if is_some (lookup id b.streams) then length b.streams else suc (length b.streams))
      ≤ l.max_active
    → IsInbound l (record { streams = insert id s b.streams; overflows = o; waits = w })
put-IsInbound l b id s o w inv st room = record {
  streams = Each-insert (IsInStream l) id s b.streams inv.streams st;
  distinct = Distinct-insert id s b.streams inv.distinct;
  active_le = rw (length-insert id s b.streams) room;
}

either-IsInbound :
    (l : Limits) (c : Bool) (x y : Dispatch × Inbound)
    → IsInbound l x.1
    → IsInbound l y.1
    → IsInbound l (if c then x else y).1
either-IsInbound l true x y left right = left
either-IsInbound l false x y left right = right

dispatch_stream-IsInbound :
    (l : Limits) (waited : Bool) (b : Inbound) (f : Frame) (s : InStream)
    → IsInbound l b
    → lookup f.header.stream_id b.streams ≡ some s
    → IsInbound l (dispatch_stream l waited b f s).1
unfolding dispatch_stream
dispatch_stream-IsInbound l waited b f s inv found =
    let old = Each-lookup (IsInStream l) f.header.stream_id s b.streams inv.streams found in
    let added : InStream = record {
      frames = s.frames ++ (f ∷ []);
      bytes = s.bytes + frame_bytes f;
    } in
    elim (Bool-cases (ltb l.stream_bytes (frame_bytes f))) [
      | inl over ↦
          rw over
            (record { streams = inv.streams; distinct = inv.distinct; active_le = inv.active_le })
      | inr small ↦
          rw small
            (elim (Bool-cases (
              leb (s.bytes + frame_bytes f) l.stream_bytes
              && leb (length s.frames + 1) l.stream_frames)) [
                | inl fits ↦ rw fits (
                    put-IsInbound l b f.header.stream_id added _ _ inv
                      (record {
                        counted =
                            omega (arith, old.counted, total-append frame_bytes s.frames (f ∷ []));
                        bytes_le = ground arith;
                        frames_le = ground (arith, length-append s.frames (f ∷ []));
                      })
                      (rw found inv.active_le))
                | inr full ↦ rw full (
                    either-IsInbound l (not l.backpressure) _ _
                      (record {
                        streams = inv.streams;
                        distinct = inv.distinct;
                        active_le = inv.active_le;
                      })
                      (record {
                        streams = inv.streams;
                        distinct = inv.distinct;
                        active_le = inv.active_le;
                      }))
              ])
    ]

dispatch_found-IsInbound :
    (l : Limits) (waited : Bool) (b : Inbound) (f : Frame) (s : Option InStream)
    → IsInbound l b
    → lookup f.header.stream_id b.streams ≡ s
    → IsInbound l (dispatch_found l waited b f s).1
unfolding dispatch_found
dispatch_found-IsInbound l waited b f (some s) inv found =
    dispatch_stream-IsInbound l waited b f s inv found
dispatch_found-IsInbound l waited b f none inv found =
    let id = f.header.stream_id in
    elim (Bool-cases (leb l.max_active (length b.streams))) [
      | inl full ↦ rw full inv
      | inr room ↦ rw room (
          dispatch_stream-IsInbound l waited (record b { streams = insert id no_frames b.streams })
            f no_frames
            (put-IsInbound l b id no_frames b.overflows b.waits inv
              (record { counted = refl; bytes_le = omega arith; frames_le = omega arith })
              (rw found (ground arith)))
            (ground (arith, lookup-insert id id no_frames b.streams)))
    ]

-- Every round of `dispatch`, errors and waits included, keeps the inbound queues counted and within
-- the stream's bounds, and the streams within `MaxActiveStreams`.
pub dispatch-IsInbound :
    (l : Limits) (handled waited : Bool) (b : Inbound) (f : Frame)
    → IsInbound l b
    → IsInbound l (dispatch l handled waited b f).1
unfolding dispatch
dispatch-IsInbound l false waited b f inv = inv
dispatch-IsInbound l true waited b f inv =
    dispatch_found-IsInbound l waited b f (lookup f.header.stream_id b.streams) inv refl

work_frames-IsInbound :
    (l : Limits) (id : ℕ) (b : Inbound) (s : InStream) (frames : List Frame)
    → IsInbound l b
    → lookup id b.streams ≡ some s
    → s.frames ≡ frames
    → IsInbound l (work_frames id b s frames).1
work_frames-IsInbound l id b s [] inv found e = record {
  streams = Each-delete (IsInStream l) id b.streams inv.streams;
  distinct = rw (keys-delete id b.streams) (Distinct-remove_key id (keys b.streams) inv.distinct);
  active_le = omega (arith, inv.active_le, length-delete-le id b.streams);
}
work_frames-IsInbound l id b s (f ∷ rest) inv found e =
    let old = Each-lookup (IsInStream l) id s b.streams inv.streams found in
    let left : InStream = record { frames = rest; bytes = s.bytes - frame_bytes f } in
    let counted : s.bytes ≡ total frame_bytes (f ∷ rest) = old.counted ∙ ap (total frame_bytes) e in
    let few : length (f ∷ rest) ≤ l.stream_frames =
      subst (λ q. length q ≤ l.stream_frames) e old.frames_le in
    put-IsInbound l b id left b.overflows b.waits inv
      (record {
        counted = omega arith;
        bytes_le = omega (arith, old.bytes_le);
        frames_le = omega arith;
      })
      (rw found inv.active_le)

work_stream-IsInbound :
    (l : Limits) (id : ℕ) (b : Inbound) (s : Option InStream)
    → IsInbound l b
    → lookup id b.streams ≡ s
    → IsInbound l (work_stream id b s).1
work_stream-IsInbound l id b none inv found = inv
work_stream-IsInbound l id b (some s) inv found =
    work_frames-IsInbound l id b s s.frames inv found refl

-- So does every round of a worker.
pub work-IsInbound : (l : Limits) (id : ℕ) (b : Inbound) → IsInbound l b → IsInbound l (work id b).1
unfolding work
work-IsInbound l id b inv = work_stream-IsInbound l id b (lookup id b.streams) inv refl
