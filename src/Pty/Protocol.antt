-- ===== src/Pty/Protocol.antt =====
-- The configuration and the error codes of pty/protocol.go: `ProtocolConfig` with what
-- `RegisterProtocol` makes of it, and `respondOperationError`.
pub mod Cursor
pub mod Listing
pub mod Paging
pub mod Sink
pub mod Handlers
pub mod Streams
pub mod Checks
mod Tests
use streammux.Base.{
  ℕ, ◌*◌, ◌≡◌, ◌≤◌, ◌<◌, refl, sym, Bool, ◌||◌, Option, none, some, Result, ok, err, ◌==◌,
  if◌then◌else◌, arith, else-ok, ok-injective, ok-ne-err, subst,
}
use streammux.Base.Int.{ℤ, pos, negsuc, pos_part, ltb_ℤ}
use streammux.Pty.Values.{
  PtyError, invalid_protocol_config, session_not_found, attachment_limit, session_exited_error,
  session_running_error, manager_closed_error, queue_overflow,
}
use streammux.Pty.Config.{MessageTypes, types_validate, ManagerConfig}

-- `ProtocolConfig`, without its two callbacks
pub record ProtocolConfig : Type 0 where
  pub version : ℕ
  pub types : MessageTypes
  pub max_list_items : ℤ
  pub max_command_bytes : ℤ
  pub max_directory_bytes : ℤ
  pub max_argument_bytes : ℤ
  pub max_arguments : ℤ
  pub max_environment : ℤ

abbrev pub or_default : ℤ → ℕ → ℤ
or_default (pos n) d = if n == 0 then pos d else pos n
or_default (negsuc n) d = negsuc n

-- The zero fields of `RegisterProtocol`, filled by `DefaultProtocolConfig`.
unfoldable pub fill_protocol : ProtocolConfig → ProtocolConfig
fill_protocol c = record c {
  version = if c.version == 0 then 1 else c.version;
  max_list_items = or_default c.max_list_items 128;
  max_command_bytes = or_default c.max_command_bytes 4096;
  max_directory_bytes = or_default c.max_directory_bytes (16 * 1024);
  max_argument_bytes = or_default c.max_argument_bytes (64 * 1024);
  max_arguments = or_default c.max_arguments 256;
  max_environment = or_default c.max_environment 256;
}

abbrev pub is_small : ℤ → Bool
is_small z = ltb_ℤ z (pos 1)

unfoldable pub limits_invalid : ProtocolConfig → Bool
limits_invalid c =
    is_small c.max_list_items
    || is_small c.max_command_bytes
    || is_small c.max_directory_bytes
    || is_small c.max_argument_bytes
    || is_small c.max_arguments
    || is_small c.max_environment

abbrev pub or_config : Option PtyError → ProtocolConfig → Result PtyError ProtocolConfig
or_config (some e) c = err e
or_config none c = ok c

unfoldable pub check_protocol : ℤ → ManagerConfig → ProtocolConfig → Result PtyError ProtocolConfig
check_protocol max_frame m c =
    if limits_invalid c
    then err invalid_protocol_config
    else if ltb_ℤ max_frame m.read_buffer_bytes
    then err invalid_protocol_config
    else or_config (types_validate c.types) c

-- The checks of `RegisterProtocol` on a Peer whose frames carry at most `max_frame` bytes.
unfoldable pub protocol_config : ℤ → ManagerConfig → ProtocolConfig → Result PtyError ProtocolConfig
protocol_config max_frame m c = check_protocol max_frame m (fill_protocol c)

-- `ErrorCode`
pub data ErrorCode : Type 0 where
  code_invalid_request code_session_not_found code_session_exists code_already_attached : ErrorCode
  code_attachment_limit code_session_exited code_manager_closed : ErrorCode
  code_unsupported_version code_queue_overflow code_backend_failure code_permission_denied :
      ErrorCode

-- The `switch` of `respondOperationError`
unfoldable pub operation_code : PtyError → ErrorCode
operation_code session_not_found = code_session_not_found
operation_code attachment_limit = code_attachment_limit
operation_code session_exited_error = code_session_exited
operation_code session_running_error = code_session_exited
operation_code manager_closed_error = code_manager_closed
operation_code queue_overflow = code_queue_overflow
operation_code _ = code_backend_failure

-- What the handlers rely on.
pub record IsProtocolConfig (max_frame : ℤ) (m : ManagerConfig) (c : ProtocolConfig) : Type 0 where
  pub some_items : 0 < pos_part c.max_list_items
  pub some_command : 0 < pos_part c.max_command_bytes
  pub some_directory : 0 < pos_part c.max_directory_bytes
  pub some_argument : 0 < pos_part c.max_argument_bytes
  pub some_arguments : 0 < pos_part c.max_arguments
  pub some_environment : 0 < pos_part c.max_environment
  pub chunk_fits : pos_part m.read_buffer_bytes ≤ pos_part max_frame
  pub types_valid : types_validate c.types ≡ none

or_config-ok :
    (e : Option PtyError) (c d : ProtocolConfig) → or_config e c ≡ ok d → (e ≡ none) × (c ≡ d)
or_config-ok (some x) c d h = absurd (ok-ne-err (sym h))
or_config-ok none c d h = (refl, ok-injective h)

check_protocol-IsProtocolConfig :
    (max_frame : ℤ) (m : ManagerConfig) (c d : ProtocolConfig)
    → check_protocol max_frame m c ≡ ok d
    → IsProtocolConfig max_frame m d
unfolding check_protocol limits_invalid
check_protocol-IsProtocolConfig max_frame m c d h =
    let (bounded, frames) = else-ok (limits_invalid c) _ _ d h in
    let (fits, valid) = else-ok (ltb_ℤ max_frame m.read_buffer_bytes) _ _ d frames in
    let (typed, same) = or_config-ok (types_validate c.types) c d valid in
    subst (IsProtocolConfig max_frame m) same (record {
      some_items = ground arith;
      some_command = ground arith;
      some_directory = ground arith;
      some_argument = ground arith;
      some_arguments = ground arith;
      some_environment = ground arith;
      chunk_fits = ground arith;
      types_valid = typed;
    })

-- Every configuration that `RegisterProtocol` goes on with has positive limits and valid message
-- types, and an output chunk of the Manager fits in a frame of the Peer.
pub protocol_config-IsProtocolConfig :
    (max_frame : ℤ) (m : ManagerConfig) (c d : ProtocolConfig)
    → protocol_config max_frame m c ≡ ok d
    → IsProtocolConfig max_frame m d
unfolding protocol_config
protocol_config-IsProtocolConfig max_frame m c d h =
    check_protocol-IsProtocolConfig max_frame m (fill_protocol c) d h
