-- ===== src/Pty/Tests.antt =====
-- Sizes, bridges, attachments and histories on concrete data.
use streammux.Base.{
  ℕ, ◌≡◌, refl, true, false, none, some, List, [], ◌∷◌, map, ◌++◌, if◌then◌else◌, ◌==◌, ok, length,
  arith,
}
use streammux.Base.Int.{pos}
use streammux.Pty.Observer.{Event, opened, running, Subscription, new_subscription, emit}
use streammux.Pty.Observer.Bounds.{Emitted, emit-Emitted}
use streammux.Pty.Protocol.{
  ProtocolConfig, fill_protocol, limits_invalid, check_protocol, protocol_config,
}
use streammux.Base.Map.{Map}
use streammux.Base.Bytes.{be}
use streammux.Errors.{eof}
use streammux.Frame.{Frame}
use streammux.Codec.{Writer, write_full}
use streammux.Pty.Values.{Size, size_validate, OutputEvent, output, exit, ExitStatus, exited}
use streammux.Pty.SizeCodec.{encode_size, decode_size, encode_size-decode_size}
use streammux.Pty.Config.{
  MessageTypes, types_validate, default_manager_config, manager_config_validate,
}
use streammux.Pty.Bridge.{BridgeConfig, Read, Sender, run_output, handle_input}
use streammux.Pty.Bridge.Output.{Forwarded, run_output-Forwarded}
use streammux.Pty.Attachment.{Attachment, new_attachment, enqueue, enqueue_exit}
use streammux.Pty.Attachment.Refinement.{
  Op, offers, activates, rounds, perform_all, Fifo, perform_all-Fifo,
}
use streammux.Pty.Attachment.Order.{outstanding}
use streammux.Pty.Attachment.Invariant.{
  IsAttachment, new_attachment-IsAttachment, enqueue-IsAttachment,
}
use streammux.Pty.History.{History, append_history, add_chunk, trim_session, trim_total, oldest}
use streammux.Pty.History.Recent.{chunks_at, IsEndOf, append_history-IsEndOf}
use streammux.Pty.History.{new_chunk}
use streammux.Pty.History.Bounds.{IsWithin, append_history-IsWithin}

abbrev size_payload : List ℕ
size_payload = 0 ∷ 0 ∷ 0 ∷ 120 ∷ 0 ∷ 0 ∷ 0 ∷ 40 ∷ []

abbrev window : Size
window = record { cols = pos 120; rows = pos 40 }

window_decoded : decode_size size_payload ≡ ok window
unfolding decode_size size_validate be
window_decoded = refl

encode_size-decode_size_example : encode_size window ≡ ok size_payload
encode_size-decode_size_example =
    encode_size-decode_size size_payload window (omega arith) window_decoded

abbrev types : MessageTypes
types = record {
  open_type = 1;
  list_type = 2;
  inspect_type = 3;
  attach_type = 4;
  detach_type = 5;
  input_type = 6;
  output_type = 7;
  resize_type = 8;
  kill_type = 9;
  exit_type = 10;
  replay_begin_type = 11;
  replay_end_type = 12;
  error_type = 12;
}

default_valid : manager_config_validate default_manager_config ≡ none
unfolding manager_config_validate
default_valid = refl

abbrev bridge : BridgeConfig
bridge = record {
  version = 1;
  stream_id = 9;
  input_type = 6;
  output_type = 7;
  read_buffer_size = pos 4;
}

abbrev accepting : Sender
accepting sent f = none

abbrev reads : List Read
reads =
    record { count = pos 2; buffer = 104 ∷ 105 ∷ 0 ∷ 0 ∷ []; error = none }
    ∷ record { count = pos 1; buffer = 33 ∷ 105 ∷ 0 ∷ 0 ∷ []; error = some eof }
    ∷ []

run_output-Forwarded_example :
    Forwarded bridge accepting [] reads (run_output bridge accepting [] reads)
run_output-Forwarded_example = run_output-Forwarded bridge accepting [] reads

abbrev keys : Frame
keys = record {
  header = record {
    payload_length = 2;
    version = 1;
    message_type = 6;
    flags = 4;
    correlation_id = 0;
    stream_id = 9;
  };
  payload = 108 ∷ 115 ∷ [];
}

abbrev at_once : Writer
at_once sent chunk = (pos (length chunk), none)

input_taken :
    handle_input bridge at_once (36 ∷ []) keys ≡ ok (write_full at_once (36 ∷ []) keys.payload)
unfolding handle_input
input_taken = refl

abbrev hi : OutputEvent
hi = record { sequence = 1; data_bytes = 104 ∷ 105 ∷ [] }

abbrev bye : ExitStatus
bye = record { reason = exited; code = pos 0; signal = []; error = [] }

abbrev attached : Attachment
attached = new_attachment 4 true (hi ∷ [])

abbrev with_output : Attachment
with_output = record attached { queue = output hi ∷ []; bytes = 2 }

output_accepted : enqueue (output hi) attached ≡ ok with_output
unfolding enqueue
output_accepted = refl

with_output-IsAttachment : IsAttachment with_output
with_output-IsAttachment =
    enqueue-IsAttachment hi attached with_output (new_attachment-IsAttachment 4 true (hi ∷ []))
      output_accepted

abbrev with_exit : Attachment
with_exit = record with_output { queue = output hi ∷ exit bye ∷ []; closing = true }

exit_accepted : enqueue_exit bye with_output ≡ ok with_exit
unfolding enqueue_exit
exit_accepted = refl

abbrev short_history : History
short_history = record {
  session_limit = 3;
  total_limit = 4;
  sessions = [];
  bytes = 0;
  next_order = 0;
  truncations = 0;
  truncated_bytes = 0;
}

short_history-IsWithin : IsWithin short_history
short_history-IsWithin = record {
  inv = record { counted = tt; distinct = tt; bytes = refl };
  sessions = λ i k e. ground arith;
  whole = omega arith;
}

append_history-IsWithin_example : IsWithin (append_history 9 hi (append_history 9 hi short_history))
append_history-IsWithin_example =
    append_history-IsWithin 9 hi (append_history 9 hi short_history)
      (append_history-IsWithin 9 hi short_history short_history-IsWithin)

-- The first chunk goes when the second would leave four bytes in the session.
trimmed : (append_history 9 hi (append_history 9 hi short_history)).bytes ≡ 2
unfolding append_history add_chunk trim_session trim_total oldest
trimmed = refl

abbrev told : Event
told = record {
  kind = opened;
  session = record {
    id = 9;
    state = running;
    size = window;
    started_at = 0;
    last_sequence = 0;
    exit = none;
    attachment_count = 0;
    history_available = false;
  };
  output = none;
  attachment = none;
}

-- The first observer has room for one event, the second for none.
abbrev observers : Map Subscription
observers = (1, new_subscription 200) ∷ (2, new_subscription 100) ∷ []

emit-Emitted_example : Emitted told observers (emit told observers).0 (emit told observers).1
emit-Emitted_example = emit-Emitted told observers

abbrev protocol : ProtocolConfig
protocol = record {
  version = 0;
  types = record types { error_type = 13 };
  max_list_items = pos 0;
  max_command_bytes = pos 0;
  max_directory_bytes = pos 0;
  max_argument_bytes = pos 0;
  max_arguments = pos 0;
  max_environment = pos 0;
}

protocol_checked :
    protocol_config (pos 4194304) default_manager_config protocol ≡ ok (fill_protocol protocol)
unfolding protocol_config check_protocol limits_invalid fill_protocol types_validate
protocol_checked = refl

abbrev some_ops : List Op
some_ops =
    rounds
    ∷ offers (output (record { sequence = 2; data_bytes = 5 ∷ [] }))
    ∷ activates
    ∷ rounds
    ∷ rounds
    ∷ rounds
    ∷ []

abbrev one_replayed : List OutputEvent
one_replayed = record { sequence = 1; data_bytes = 4 ∷ [] } ∷ []

perform_all-Fifo_example :
    Fifo
      (map output one_replayed)
      (perform_all some_ops (new_attachment 8 false one_replayed)).0
      (outstanding (perform_all some_ops (new_attachment 8 false one_replayed)).1)
perform_all-Fifo_example = perform_all-Fifo some_ops 8 false one_replayed

append_history-IsEndOf_example : IsEndOf (chunks_at 9 (append_history 9 hi short_history)) (
    if 9 == 9
    then chunks_at 9 short_history ++ (new_chunk hi short_history ∷ [])
    else chunks_at 9 short_history)
append_history-IsEndOf_example =
    append_history-IsEndOf 9 hi short_history short_history-IsWithin refl 9
