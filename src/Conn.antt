-- ===== src/Conn.antt =====
-- conn.go: a connection on a transport. What goroutines share is one state; a function is what one of
-- them does between two waits. The transport's writer is any function, as in Codec.
pub mod Writes
mod Tests
use streammux.Base.{
  ℕ, ◌+◌, Bool, true, false, not, Option, none, some, List, [], ◌∷◌, ◌++◌, Result, ok, err, ltb,
  if◌then◌else◌, is_some,
}
use streammux.Errors.{
  Error, nil_context, nil_stream, invalid_version_range, conn_closed, canceled, closed_pipe, other,
}
use streammux.Frame.{Frame, Config, with_defaults, frame_validate}
use streammux.Codec.{Source, Writer, read_frame, write_frame}

-- `Conn`: the error it keeps, whether its context is canceled and its write loop over, and the bytes
-- its transport has been given.
pub record Conn : Type 0 where
  pub config : Config
  pub error : Option Error
  pub canceled : Bool
  pub stopped : Bool
  pub written : List ℕ

-- `Open`; the tests say whether the context and the stream are given.
unfoldable pub open_conn : Bool → Bool → Config → Result Error Conn
open_conn parent stream c =
    if not parent
    then err nil_context
    else if not stream
    then err nil_stream
    else if ltb (with_defaults c).max_version (with_defaults c).min_version
    then err invalid_version_range
    else ok (record {
      config = with_defaults c;
      error = none;
      canceled = false;
      stopped = false;
      written = [];
    })

-- `setError` with an error: the first one stays.
abbrev pub first_error : Option Error → Error → Option Error
first_error none e = some e
first_error (some first) e = some first

abbrev pub set_error : Error → Conn → Conn
set_error e c = record c { error = first_error c.error e }

-- `result`
abbrev pub result_of : Option Error → Error
result_of none = conn_closed
result_of (some e) = e

abbrev pub put_read : Conn → Result Error Frame × Source → Result Error Frame × (Source × Conn)
put_read c (ok f, s) = (ok f, (s, c))
put_read c (err e, s) = (err e, (s, record (set_error e c) { canceled = true }))

-- `Conn.ReadFrame`
unfoldable pub read_conn : Source → Conn → Result Error Frame × (Source × Conn)
read_conn s c = put_read c (read_frame c.config s)

-- What `send` checks before it queues the frame; the test says whether the context is given.
unfoldable pub check_send : Bool → Frame → Conn → Option Error
check_send given f c = if not given then some nil_context else frame_validate f c.config

abbrev pub put_written : Conn → Option (List ℕ × Option Error) → Option (Option Error × Conn)
put_written c none = none
put_written c (some (written, none)) = some (none, record c { written = written })
put_written c (some (written, some e)) = some (
  some e,
  record (set_error e (record c { written = written })) { canceled = true; stopped = true },
)

-- `writeLoop` on a queued request: the answer to its sender, and the connection behind it. As in
-- `write_frame`, nothing would stand for fuel run out.
unfoldable pub write_request : Writer → Frame → Conn → Option (Option Error × Conn)
write_request w f c = put_written c (write_frame c.config w c.written f)

-- `writeLoop` when the context is canceled.
abbrev pub stop_loop : Conn → Conn
stop_loop c = record (set_error canceled c) { stopped = true }

-- `Close`, the first time; the error is the transport's.
abbrev pub is_closed_pipe : Error → Bool
is_closed_pipe closed_pipe = true
is_closed_pipe _ = false

abbrev pub after_close : Option Error → Conn → Conn
after_close none c = c
after_close (some e) c = if is_closed_pipe e then c else set_error e c

abbrev pub stop_once : Conn → Conn
stop_once c = if c.stopped then c else stop_loop c

unfoldable pub close : Option Error → Conn → Conn
close stream_error c = after_close stream_error (stop_once (record c { canceled = true }))

-- What `Close` returns.
abbrev pub close_result : Option Error → Option Error
close_result none = none
close_result (some canceled) = none
close_result (some closed_pipe) = none
close_result (some e) = some e
