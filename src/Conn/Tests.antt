-- ===== src/Conn/Tests.antt =====
-- A connection on concrete frames and writers.
use streammux.Base.{false, none, [], ◌∷◌, length}
use streammux.Base.Int.{pos}
use streammux.Frame.{Frame, default_config}
use streammux.Codec.{Writer}
use streammux.Conn.{Conn}
use streammux.Conn.Writes.{Sent, wires, write_requests, write_requests-Sent}

abbrev ping : Frame
ping = record {
  header = record {
    payload_length = 0;
    version = 1;
    message_type = 16;
    flags = 4;
    correlation_id = 0;
    stream_id = 3;
  };
  payload = 1 ∷ 2 ∷ [];
}

abbrev whole : Writer
whole sent chunk = (pos (length chunk), none)

abbrev fresh : Conn
fresh = record {
  config = default_config;
  error = none;
  canceled = false;
  stopped = false;
  written = [];
}

write_requests-Sent_example :
    Sent [] none (wires (ping ∷ ping ∷ [])) (write_requests whole (ping ∷ ping ∷ []) fresh)
write_requests-Sent_example = write_requests-Sent whole (ping ∷ ping ∷ []) fresh
