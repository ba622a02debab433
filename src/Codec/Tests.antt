-- ===== src/Codec/Tests.antt =====
-- Frames sent and read back on concrete bytes.
use streammux.Base.{
  ℕ, ◌≡◌, ◌↔◌, refl, none, some, List, [], ◌∷◌, ◌++◌, length, take, ok, err, arith, if◌then◌else◌,
  ltb,
}
use streammux.Base.Int.{pos}
use streammux.Base.Bytes.{put_u16, put_u32, put_u64}
use streammux.Errors.{eof, unexpected_eof, other}
use streammux.Frame.{Header, Frame, default_config, frame_validate, with_defaults, header_validate}
use streammux.Frame.Accepts.{IsConfig, IsFrameOf, framed, validate_iff}
use streammux.Codec.{Writer, encode_header, read_frame, write_frame, write_full}
use streammux.Codec.HeaderBytes.{IsHeader}
use streammux.Codec.RoundTrip.{wire, outgoing, write_frame-Wrote, read_frame-write_frame}
use streammux.Codec.WriteFull.{Wrote}
use streammux.Codec.Reading.{FrameRead, read_frame-FrameRead, read_frame_cut}

abbrev event : Header
event = record {
  payload_length = 0;
  version = 1;
  message_type = 16;
  flags = 4;
  correlation_id = 0;
  stream_id = 258;
}

abbrev hello : Frame
hello = framed event (104 ∷ 105 ∷ [])

abbrev hello_bytes : List ℕ
hello_bytes =
    0 ∷ 0 ∷ 0 ∷ 2 ∷ 0 ∷ 1 ∷ 0 ∷ 16 ∷ 0 ∷ 0 ∷ 0 ∷ 4 ∷ 0 ∷ 0 ∷ 0 ∷ 0 ∷ 0 ∷ 0 ∷ 0 ∷ 0 ∷ 0 ∷ 0 ∷ 0 ∷ 0
    ∷ 0 ∷ 0 ∷ 1 ∷ 2 ∷ 104 ∷ 105 ∷ []

-- A writer that takes at most seven bytes at a time.
abbrev sevens : Writer
sevens sent chunk = (pos (if ltb 7 (length chunk) then 7 else length chunk), none)

-- A writer that fails once it holds ten bytes.
abbrev failing : Writer
failing sent chunk = if ltb 9 (length sent) then (pos 0, some (other 3)) else (pos 5, none)

hello_valid : frame_validate hello (with_defaults default_config) ≡ none
unfolding frame_validate with_defaults header_validate
hello_valid = refl

hello_sent : write_frame default_config sevens [] hello ≡ some (hello_bytes, none)
unfolding write_frame write_full frame_validate with_defaults header_validate encode_header put_u16
    put_u32 put_u64
hello_sent = refl

hello_failed :
    write_frame default_config failing [] hello ≡ some (take 10 hello_bytes, some (other 3))
unfolding write_frame write_full frame_validate with_defaults header_validate encode_header put_u16
    put_u32 put_u64
hello_failed = refl

event-IsHeader : IsHeader hello.header
event-IsHeader = omega arith

default_small : IsConfig default_config
unfolding with_defaults
default_small = omega arith

validate_iff_example : (frame_validate hello default_config ≡ none) ↔ IsFrameOf hello default_config
validate_iff_example = validate_iff hello default_config default_small

write_frame-Wrote_example :
    Wrote [] (wire (outgoing hello)) (write_frame default_config failing [] hello)
write_frame-Wrote_example = write_frame-Wrote default_config failing [] hello

read_frame-write_frame_example :
    read_frame default_config (record { bytes = hello_bytes ++ (9 ∷ []); failure = eof })
    ≡ (ok hello, record { bytes = 9 ∷ []; failure = eof })
read_frame-write_frame_example =
    read_frame-write_frame default_config sevens hello hello_bytes (9 ∷ []) eof event-IsHeader
      hello_sent

read_frame-FrameRead_example :
    FrameRead default_config
      (record { bytes = hello_bytes; failure = eof })
      (read_frame default_config (record { bytes = hello_bytes; failure = eof }))
read_frame-FrameRead_example =
    read_frame-FrameRead default_config (record { bytes = hello_bytes; failure = eof })
      (omega arith)

read_frame_cut_example :
    read_frame default_config (record { bytes = take 29 (wire hello); failure = eof })
    ≡ (err unexpected_eof, record { bytes = []; failure = eof })
unfolding encode_header put_u16 put_u32 put_u64
read_frame_cut_example =
    read_frame_cut default_config hello 29 event-IsHeader refl hello_valid (omega arith)
