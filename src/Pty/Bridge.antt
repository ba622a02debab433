-- ===== src/Pty/Bridge.antt =====
-- pty/bridge.go: the forwarding of one process's output and input. The reads of the process's output
-- come as a list, since the process decides on them; `writeFull` is codec.go's, line by line.
pub mod Output
use streammux.Base.{
  ℕ, zero, suc, ◌+◌, Bool, true, false, not, ◌&&◌, ◌||◌, Option, none, some, List, [], ◌∷◌, ◌++◌,
  ltb, ◌==◌, if◌then◌else◌, length, take, Result, ok, err,
}
use streammux.Base.Int.{ℤ, pos, negsuc, leb_ℤ}
use streammux.Errors.{Error, eof, invalid_message_type}
use streammux.Frame.{Frame, Header, flag_event, new_frame}
use streammux.Codec.{Writer, write_full}
use streammux.Pty.Values.{
  PtyError, nil_process, nil_sender, invalid_stream_id, invalid_input_type, invalid_read_count,
  no_progress, foreign,
}

pub record BridgeConfig : Type 0 where
  pub version : ℕ
  pub stream_id : ℕ
  pub input_type : ℕ
  pub output_type : ℕ
  pub read_buffer_size : ℤ

-- `DefaultReadBufferSize`
abbrev pub default_read_buffer_size : ℕ
default_read_buffer_size = 32768

-- `NewBridge`; the two tests say whether the process and the sender are given.
unfoldable pub new_bridge : Bool → Bool → BridgeConfig → Result PtyError BridgeConfig
new_bridge process sender c =
    if not process
    then err nil_process
    else if not sender
    then err nil_sender
    else if c.stream_id == 0
    then err invalid_stream_id
    else if c.input_type == 0 || c.output_type == 0
    then err (foreign invalid_message_type)
    else ok (record c {
      version = if c.version == 0 then 1 else c.version;
      read_buffer_size =
          if leb_ℤ c.read_buffer_size (pos 0)
          then pos default_read_buffer_size
          else c.read_buffer_size;
    })

-- What one `Read` of the output returns, and the buffer behind it.
pub record Read : Type 0 where
  pub count : ℤ
  pub buffer : List ℕ
  pub error : Option Error

-- A sender: its answer to a frame, after the frames it has accepted.
abbrev pub Sender : Type 0
Sender = List Frame → Frame → Option Error

-- The frames accepted, and what `RunOutput` returns, if it does.
abbrev pub Outcome : Type 0
Outcome = List Frame × Option (Option PtyError)

abbrev pub output_header : BridgeConfig → Header
output_header c = record {
  payload_length = 0;
  version = c.version;
  message_type = c.output_type;
  flags = flag_event;
  correlation_id = 0;
  stream_id = c.stream_id;
}

-- What follows a read of `n` bytes whose output is sent.
abbrev pub end_of : Error → Option PtyError
end_of eof = none
end_of e = some (foreign e)

abbrev pub after_output : ℕ → Option Error → Option (Option PtyError)
after_output n (some e) = some (end_of e)
after_output n none = if n == 0 then some (some no_progress) else none

abbrev pub after_send : List Frame → Frame → ℕ → Option Error → Option Error → Outcome
after_send sent f n e (some x) = (sent, some (some (foreign x)))
after_send sent f n e none = (sent ++ (f ∷ []), after_output n e)

abbrev pub send_output : Sender → List Frame → ℕ → Option Error → Result Error Frame → Outcome
send_output send sent n e (err x) = (sent, some (some (foreign x)))
send_output send sent n e (ok f) = after_send sent f n e (send sent f)

-- A round of the loop of `RunOutput`, on the count and the error of its read.
abbrev pub output_read : BridgeConfig → Sender → List Frame → List ℕ → ℤ → Option Error → Outcome
output_read c send sent buffer (negsuc n) e = (sent, some (some invalid_read_count))
output_read c send sent buffer (pos n) e =
    if ltb (length buffer) n
    then (sent, some (some invalid_read_count))
    else if ltb 0 n
    then send_output send sent n e (new_frame (output_header c) (take n buffer))
    else (sent, after_output n e)

abbrev pub resume : (List Frame → Outcome) → Outcome → Outcome
resume later (sent, none) = later sent
resume later (sent, some r) = (sent, some r)

-- The loop of `RunOutput` over the reads, as far as they have come.
unfoldable pub run_output : BridgeConfig → Sender → List Frame → List Read → Outcome
run_output c send sent [] = (sent, none)
run_output c send sent (r ∷ rest) =
    resume (λ now. run_output c send now rest) (output_read c send sent r.buffer r.count r.error)

-- `HandleInput` on the process's input, which holds the bytes `written`.
unfoldable pub handle_input :
    BridgeConfig → Writer → List ℕ → Frame → Result PtyError (Option (List ℕ × Option Error))
handle_input c w written f =
    if not (f.header.stream_id == c.stream_id)
    then err invalid_stream_id
    else if not (f.header.message_type == c.input_type) || not (f.header.flags == flag_event)
    then err invalid_input_type
    else ok (write_full w written f.payload)
