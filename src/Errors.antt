-- ===== src/Errors.antt =====
-- The error values of the root package: frame.go, conn.go and peer.go, and the io and context
-- errors that its code names. An error wrapped by `%w` is the error that it wraps.
use streammux.Base.{ℕ, Bool, true, false}

pub data Error : Type 0 where
  frame_too_large invalid_frame_length unsupported_version : Error
  invalid_message_type invalid_flags invalid_correlation : Error
  nil_stream invalid_version_range conn_closed : Error
  nil_conn peer_closed peer_already_serving handler_registered handler_not_found : Error
  unexpected_response peer_queue_overflow too_many_active_streams : Error
  -- errors.New inside a function: nil contexts, a traffic class or a PeerConfig out of range
  nil_context invalid_class invalid_config : Error
  -- io and context
  eof unexpected_eof short_write closed_pipe canceled deadline_exceeded : Error
  -- any other error of the transport, of a validator or of a handler
  other : ℕ → Error

-- `isPeerProtocolError`
pub is_peer_protocol_error : Error → Bool
is_peer_protocol_error frame_too_large = true
is_peer_protocol_error invalid_frame_length = true
is_peer_protocol_error unsupported_version = true
is_peer_protocol_error invalid_message_type = true
is_peer_protocol_error invalid_flags = true
is_peer_protocol_error invalid_correlation = true
is_peer_protocol_error _ = false
