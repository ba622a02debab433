-- ===== src/Pty/Protocol/Tests.antt =====
-- The protocol adapter on concrete requests.
use streammux.Base.{
  ℕ, zero, suc, ◌-◌, ◌*◌, ◌≡◌, ◌↔◌, refl, true, false, none, some, List, [], ◌∷◌, ◌++◌, length,
  arith,
}
use streammux.Base.Int.{ℤ, pos, negsuc}
use streammux.Frame.{Frame, flag_request}
use streammux.Pty.Values.{Size, OutputEvent, output}
use streammux.Pty.Config.{MessageTypes, default_manager_config}
use streammux.Pty.Observer.{SessionInfo, SessionState}
use streammux.Pty.Manager.{ProcessSpec, Manager, new_manager}
use streammux.Pty.Manager.Opening.{new_session, register_session}
use streammux.Pty.Manager.Attaching.{AttachResult, Caller, replay_history}
use streammux.Pty.Protocol.Cursor.{Strconv}
use streammux.Pty.Protocol.Listing.{Paging}
use streammux.Pty.Protocol.Sink.{
  attached_frame, replay_begins, replay_ends, carried, carried-replay, frames_of, outputs,
}
use streammux.Pty.Protocol.Handlers.{
  Json, Protocol, decode, check_open, validate_open, check_strings,
}
use streammux.Pty.Protocol.Streams.{handle_attach}
use streammux.Pty.Protocol.Streams.Outcomes.{Outcome, handle_attach-Outcome}
use streammux.Pty.Protocol.Checks.{
  IsOpenSpec, IsOpenRequest, check_open-IsOpenRequest, validate_open_iff,
}

-- Numbers in strokes, and texts as they are.
abbrev strokes : ℕ → List ℕ
strokes zero = []
strokes (suc n) = 49 ∷ strokes n

abbrev strokes_of : ℤ → List ℕ
strokes_of (pos n) = strokes n
strokes_of (negsuc n) = 45 ∷ strokes (suc n)

abbrev library : Strconv
library = record {
  encode_base64 = λ x. x;
  decode_base64 = λ x. some x;
  format_uint = λ n. 49 ∷ strokes n;
  parse_uint = λ x. some (length x - 1);
  itoa = strokes_of;
  atoi = λ x. some (pos (length x));
}

abbrev size : Size
size = record { cols = pos 80; rows = pos 24 }

abbrev snapshot : ℕ → SessionInfo
snapshot id = record {
  id = id;
  state = SessionState.running;
  size = size;
  started_at = 5;
  last_sequence = 0;
  exit = none;
  attachment_count = 0;
  history_available = false;
}

abbrev three : List SessionInfo
three = snapshot 1 ∷ snapshot 4 ∷ snapshot 6 ∷ []

-- Two sessions fit in a frame.
abbrev paging : Paging
paging = record {
  library = library;
  size_of = λ sessions cursor. some (10 * length sessions);
  max_items = 128;
  max_frame = 25;
}

abbrev event : ℕ → OutputEvent
event n = record { sequence = n; data_bytes = n ∷ [] }

abbrev resumed : AttachResult
resumed = record { replay_first = 4; replay_last = 5; next_live = 6; truncated = false }

carried-replay_example :
    carried resumed (outputs (event 4 ∷ event 5 ∷ []) ++ (output (event 6) ∷ []))
    ≡ attached_frame resumed
      ∷ replay_begins resumed
      ∷ (frames_of (outputs (event 4 ∷ event 5 ∷ []))
          ++ (replay_ends ∷ frames_of (output (event 6) ∷ [])))
carried-replay_example =
    carried-replay resumed (event 4 ∷ event 5 ∷ []) (output (event 6) ∷ [])
      (omega arith, (omega arith, refl))

abbrev message_types : MessageTypes
message_types = record {
  open_type = 1;
  list_type = 2;
  inspect_type = 3;
  attach_type = 4;
  detach_type = 5;
  input_type = 6;
  output_type = 7;
  resize_type = 8;
  kill_type = 9;
  exit_type = 10;
  replay_begin_type = 11;
  replay_end_type = 12;
  error_type = 13;
}

abbrev adapter : Protocol
adapter = record {
  config = record {
    version = 1;
    types = message_types;
    max_list_items = pos 128;
    max_command_bytes = pos 16;
    max_directory_bytes = pos 16;
    max_argument_bytes = pos 16;
    max_arguments = pos 2;
    max_environment = pos 2;
  };
  authorizes = none;
  filters = none;
  attachments = [];
}

abbrev shell : ProcessSpec
shell = record { command = 115 ∷ 104 ∷ []; args = []; env = none; dir = []; initial_size = size }

-- Payloads of one byte, their version.
abbrev json : Json
json = record {
  parse_open = λ x. some shell;
  parse_attach = λ x. some (record { replay = replay_history; resume_after = 0 });
  parse_list = λ x. none;
  parse_version = λ x. some (length x);
}

abbrev request : ℕ → Frame
request stream = record {
  header = record {
    payload_length = 1;
    version = 1;
    message_type = 1;
    flags = flag_request;
    correlation_id = 3;
    stream_id = stream;
  };
  payload = 123 ∷ [];
}

validate_open_iff_example :
    (validate_open adapter.config shell ≡ none) ↔ IsOpenSpec adapter.config shell
validate_open_iff_example = validate_open_iff adapter.config shell

check_open-IsOpenRequest_example : IsOpenRequest json adapter (request 0) shell
unfolding check_open decode validate_open check_strings
check_open-IsOpenRequest_example = check_open-IsOpenRequest json adapter (request 0) shell refl

abbrev with_session : Manager
with_session = register_session (new_session 1 size 5) (new_manager default_manager_config)

abbrev caller : Caller
caller = record { context = true; sink = true; done = none; early = false; late = none }

handle_attach-Outcome_example :
    Outcome [] adapter 1 (handle_attach json caller [] adapter (request 1) with_session)
handle_attach-Outcome_example =
    handle_attach-Outcome json caller [] adapter (request 1) with_session tt
