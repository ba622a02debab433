-- ===== src/Pty/Values.antt =====
-- The values of pty/pty.go and pty/manager.go: sizes, exit statuses, output and attachment events, and
-- the errors of the package.
use streammux.Base.{ℕ, ◌||◌, Option, none, some, List, if◌then◌else◌}
use streammux.Base.Int.{ℤ, pos, leb_ℤ}
use streammux.Errors.{Error}

pub data PtyError : Type 0 where
  command_required invalid_size invalid_message_types session_not_found : PtyError
  unexpected_frame invalid_payload process_id_unavailable : PtyError
  nil_process nil_sender invalid_stream_id invalid_input_type : PtyError
  attachment_limit session_exited_error session_running_error manager_closed_error : PtyError
  invalid_protocol_config attachment_closed observer_closed queue_overflow invalid_manager_config :
      PtyError
  no_progress invalid_read_count session_limit observer_limit future_sequence : PtyError
  -- errors.New inside a function: nil contexts and sinks, values out of range
  nil_context nil_sink invalid_replay_mode : PtyError
  unsupported_version already_attached permission_denied : PtyError
  invalid_list_limit stale_cursor invalid_cursor_position entry_too_large : PtyError
  spec_string_limit spec_item_limit invalid_spec_string : PtyError
  -- the backends' own
  size_overflow nul_in_spec : PtyError
  -- an error of the root package, of a backend or of a sink
  foreign : Error → PtyError

-- `Size`
pub record Size : Type 0 where
  pub cols : ℤ
  pub rows : ℤ

-- `Size.Validate`
unfoldable pub size_validate : Size → Option PtyError
size_validate s = if leb_ℤ s.cols (pos 0) || leb_ℤ s.rows (pos 0) then some invalid_size else none

-- `ExitReason`
pub data ExitReason : Type 0 where
  exited killed signaled start_failed io_failure : ExitReason

-- `ExitStatus`
pub record ExitStatus : Type 0 where
  pub reason : ExitReason
  pub code : ℤ
  pub signal : List ℕ
  pub error : List ℕ

-- `OutputEvent`
pub record OutputEvent : Type 0 where
  pub sequence : ℕ
  pub data_bytes : List ℕ

-- `AttachmentEvent`
pub data AttachmentEvent : Type 0 where
  output : OutputEvent → AttachmentEvent
  exit : ExitStatus → AttachmentEvent

-- `AttachmentCloseReason`
pub data CloseReason : Type 0 where
  explicit context_canceled session_exited overflowed sink_failure : CloseReason
  drain_timeout manager_closed session_removed session_evicted : CloseReason
