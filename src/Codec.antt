-- ===== src/Codec.antt =====
-- codec.go: the header's wire format, the decoder over a byte source and the encoder over a writer.
-- A source is the bytes still to come and the error that follows them; a writer answers each call
-- of `Write` by a count and an error, and may depend on all that it has accepted before.
pub mod HeaderBytes
pub mod WriteFull
pub mod RoundTrip
pub mod Reading
mod Tests
use streammux.Base.{
  ℕ, zero, suc, ◌+◌, ◌-◌, ◌%◌, ◌^◌, Option, none, some, List, [], ◌∷◌, ◌++◌, Result, ok, err, ltb,
  leb, ◌==◌, if◌then◌else◌, length, take, drop, Bool, true, false, ◌||◌, ◌&&◌, not,
}
use streammux.Base.Int.{ℤ, pos, negsuc}
use streammux.Base.Bytes.{put_u16, put_u32, put_u64, be}
use streammux.Errors.{Error, eof, unexpected_eof, short_write}
use streammux.Frame.{
  Header, Frame, Config, header_size, with_defaults, header_validate, frame_validate,
}

-- `source[from:to]`
abbrev pub slice : ℕ → ℕ → List ℕ → List ℕ
slice from to bytes = take (to - from) (drop from bytes)

-- `encodeHeader`: the fields one behind another, from 0 to 28.
unfoldable pub encode_header : Header → List ℕ
encode_header h =
    put_u32 h.payload_length
    ++ (put_u16 h.version
        ++ (put_u16 h.message_type
            ++ (put_u32 h.flags ++ (put_u64 h.correlation_id ++ put_u64 h.stream_id))))

-- `decodeHeader`
unfoldable pub decode_header : List ℕ → Header
decode_header source = record {
  payload_length = be 0 (slice 0 4 source);
  version = be 0 (slice 4 6 source);
  message_type = be 0 (slice 6 8 source);
  flags = be 0 (slice 8 12 source);
  correlation_id = be 0 (slice 12 20 source);
  stream_id = be 0 (slice 20 28 source);
}

pub record Source : Type 0 where
  pub bytes : List ℕ
  pub failure : Error

-- What `io.ReadFull` answers where the source fails after `got` bytes of a longer request.
abbrev pub short_read : ℕ → Error → Error
short_read zero e = e
short_read (suc got) eof = unexpected_eof
short_read (suc got) e = e

-- `io.ReadFull` on a buffer of `n` bytes.
unfoldable pub read_full : ℕ → Source → Result Error (List ℕ) × Source
read_full n s =
    if leb n (length s.bytes)
    then (ok (take n s.bytes), record s { bytes = drop n s.bytes })
    else (err (short_read (length s.bytes) s.failure), record s { bytes = [] })

-- `errors.Is(err, io.EOF)` becomes `io.ErrUnexpectedEOF` once a header has been read.
abbrev pub in_payload : Error → Error
in_payload eof = unexpected_eof
in_payload e = e

pub finish_frame : Config → Header → Result Error (List ℕ) × Source → Result Error Frame × Source
finish_frame c h (err e, s) = (err (in_payload e), s)
finish_frame c h (ok payload, s) =
    let f : Frame = record { header = h; payload = payload } in
    (elim (frame_validate f c) [ some e ↦ err e | none ↦ ok f ], s)

pub read_payload : Config → Header → Source → Result Error Frame × Source
unfolding finish_frame
read_payload c h s = elim (header_validate h c) [
  | some e ↦ (err e, s)
  | none ↦ finish_frame c h (read_full h.payload_length s)
]

pub read_behind : Config → Result Error (List ℕ) × Source → Result Error Frame × Source
unfolding read_payload
read_behind c (err e, s) = (err e, s)
read_behind c (ok bytes, s) = read_payload c (decode_header bytes) s

-- `Decoder.ReadFrame`, with the configuration that `NewDecoder` keeps.
unfoldable pub read_frame : Config → Source → Result Error Frame × Source
unfolding read_behind
read_frame config s = read_behind (with_defaults config) (read_full header_size s)

-- A writer: its answer to the bytes offered, after the bytes accepted so far.
abbrev pub Writer : Type 0
Writer = List ℕ → List ℕ → ℤ × Option Error

-- One round of the loop of `writeFull` on the writer's answer: the bytes the writer holds then, and
-- the error returned, or how many bytes were taken where the loop goes on. A count out of range
-- says nothing of what the writer took, so nothing is added there.
pub data Round : Type 0 where
  stop : List ℕ → Option Error → Round
  more : ℕ → Round

abbrev pub write_round : List ℕ → List ℕ → ℤ × Option Error → Round
write_round sent chunk (negsuc n, e) = stop sent (some short_write)
write_round sent chunk (pos n, some x) =
    if ltb (length chunk) n
    then stop sent (some short_write)
    else stop (sent ++ take n chunk) (some x)
write_round sent chunk (pos n, none) =
    if ltb (length chunk) n || n == 0 then stop sent (some short_write) else more n

-- The loop of `writeFull` over what is left of `data`. `none` is no Go value: the fuel ran out.
pub write_loop : ℕ → Writer → List ℕ → List ℕ → Option (List ℕ × Option Error)
write_loop fuel w sent [] = some (sent, none)
write_loop zero w sent (b ∷ bs) = none
write_loop (suc fuel) w sent (b ∷ bs) = elim (write_round sent (b ∷ bs) (w sent (b ∷ bs))) [
  | stop sent' e ↦ some (sent', e)
  | more n ↦ write_loop fuel w (sent ++ take n (b ∷ bs)) (drop n (b ∷ bs))
]

-- `writeFull`: every round but the last takes a byte at least, so the bytes of `data` are fuel enough.
unfoldable pub write_full : Writer → List ℕ → List ℕ → Option (List ℕ × Option Error)
unfolding write_loop
write_full w sent chunk = write_loop (length chunk) w sent chunk

-- The payload goes out only behind a whole header.
pub write_both : Writer → List ℕ → Option (List ℕ × Option Error) → Option (List ℕ × Option Error)
write_both w payload none = none
write_both w payload (some (sent, some e)) = some (sent, some e)
write_both w payload (some (sent, none)) = write_full w sent payload

-- `Encoder.WriteFrame` on a writer that holds the bytes `sent`.
unfoldable pub write_frame : Config → Writer → List ℕ → Frame → Option (List ℕ × Option Error)
unfolding write_both
write_frame config w sent f =
    let h = record (f.header) { payload_length = length f.payload % 2 ^ 32 } in
    elim (frame_validate (record f { header = h }) (with_defaults config)) [
      | some e ↦ some (sent, some e)
      | none ↦ write_both w f.payload (write_full w sent (encode_header h))
    ]
