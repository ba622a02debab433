-- ===== src/Pty/Protocol/Handlers.antt =====
-- The handlers of pty/protocol.go: what each checks before it asks the Manager, and what it answers. JSON
-- and the two callbacks of the configuration are parameters; `respond` sends what is an answer here.
use streammux.Base.{
  ℕ, ◌≡◌, refl, sym, Bool, true, false, not, ◌||◌, Option, none, some, List, [], ◌∷◌, ◌++◌, length,
  if◌then◌else◌, ltb, ◌==◌, Result, ok, err, ok-ne-err,
}
use streammux.Base.Int.{ℤ, pos_part}
use streammux.Base.Map.{Map, lookup, delete, member}
use streammux.Frame.{Frame, flag_request, flag_event}
use streammux.Pty.Values.{
  PtyError, unexpected_frame, invalid_payload, unsupported_version, invalid_stream_id,
  session_not_found, attachment_closed, spec_string_limit, spec_item_limit, invalid_spec_string,
  CloseReason, Size,
}
use streammux.Pty.Observer.{SessionInfo}
use streammux.Pty.SizeCodec.{decode_size}
use streammux.Pty.Manager.{ProcessSpec, Session, Manager, info}
use streammux.Pty.Manager.Attaching.{ReplayMode}
use streammux.Pty.Manager.Serving.{list_snapshot}
use streammux.Pty.Protocol.{
  ProtocolConfig, ErrorCode, code_invalid_request, code_session_not_found, code_unsupported_version,
  code_permission_denied, operation_code, code_queue_overflow, code_backend_failure,
}
use streammux.Pty.Protocol.Listing.{Listed, Paging, list_request}

-- `Operation`
pub data Operation : Type 0 where
  opens lists inspects attaches detaches inputs resizes kills : Operation

-- `AuthorizationRequest`
pub record AuthorizationRequest : Type 0 where
  pub operation : Operation
  pub session : ℕ
  pub spec : Option ProcessSpec

-- `AttachRequest` and `ListRequest`, without their versions
pub record AttachRequest : Type 0 where
  pub replay : ReplayMode
  pub resume_after : ℕ

pub record ListRequest : Type 0 where
  pub cursor : List ℕ
  pub limit : ℤ

-- `json.Unmarshal` into each of the requests, and into what has a version alone.
pub record Json : Type 0 where
  pub parse_open : List ℕ → Option ProcessSpec
  pub parse_attach : List ℕ → Option AttachRequest
  pub parse_list : List ℕ → Option ListRequest
  pub parse_version : List ℕ → Option ℕ

-- The `Authorize` callback: the error that it returns, and what it leaves of the process that it is
-- given a pointer to.
pub record Authorizer : Type 0 where
  pub decides : AuthorizationRequest → Option PtyError
  pub leaves : ProcessSpec → ProcessSpec

-- `Protocol`, with the callbacks of its configuration; the attachments are by their streams.
pub record Protocol : Type 0 where
  pub config : ProtocolConfig
  pub authorizes : Option Authorizer
  pub filters : Option (List SessionInfo → Result PtyError (List SessionInfo))
  pub attachments : Map ℕ

-- `ProtocolResponse`, but for its version and a list
pub data Response : Type 0 where
  answer_error : ErrorCode → PtyError → Response
  answer_session : SessionInfo → Response
  answer_listed : Listed → Response
  answer_done : Response

-- `respondOperationError`
abbrev pub answer_operation : PtyError → Response
answer_operation e = answer_error (operation_code e) e

-- `authorize`
abbrev pub authorize_by : Option Authorizer → AuthorizationRequest → Option PtyError
authorize_by none r = none
authorize_by (some a) r = a.decides r

abbrev pub authorize : Protocol → AuthorizationRequest → Option PtyError
authorize p r = authorize_by p.authorizes r

-- The process of a request once it is authorized.
abbrev pub left_by : Option Authorizer → ProcessSpec → ProcessSpec
left_by none spec = spec
left_by (some a) spec = a.leaves spec

abbrev pub check_version : {A : Type 0} → ℕ → Option ℕ → A → Result PtyError A
check_version version none a = err unsupported_version
check_version version (some v) a = if v == version then ok a else err unsupported_version

abbrev pub decode_parsed : {A : Type 0} → ℕ → Option ℕ → Option A → Result PtyError A
decode_parsed version v none = err invalid_payload
decode_parsed version v (some a) = check_version version v a

-- `decode`, with what `json.Unmarshal` makes of the payload
unfoldable pub decode :
    {A : Type 0} → (List ℕ → Option A) → Json → Protocol → Frame → Result PtyError A
decode parse json p f =
    if not (f.header.flags == flag_request)
    then err unexpected_frame
    else if length f.payload == 0
    then err invalid_payload
    else decode_parsed p.config.version (json.parse_version f.payload) (parse f.payload)

-- `decodeErrorCode`
abbrev pub decode_error_code : PtyError → ErrorCode
decode_error_code unsupported_version = code_unsupported_version
decode_error_code _ = code_invalid_request

abbrev pub answer_undecoded : PtyError → Response
answer_undecoded e = answer_error (decode_error_code e) e

-- Past the authorization.
abbrev pub permitted : {A : Type 0} → Option PtyError → Result Response A → Result Response A
permitted (some e) next = err (answer_error code_permission_denied e)
permitted none next = next

pub permitted-ok :
    {A : Type 0} (e : Option PtyError) (next : Result Response A) (a : A)
    → permitted e next ≡ ok a
    → (e ≡ none) × (next ≡ ok a)
permitted-ok none next a h = (refl, h)
permitted-ok (some x) next a h = absurd (ok-ne-err (sym h))

-- The items and the environment of a request; none is as good as an empty one.
abbrev pub env_of : ProcessSpec → List (List ℕ)
env_of spec = list_of spec.env
  where
    list_of : Option (List (List ℕ)) → List (List ℕ)
    list_of none = []
    list_of (some xs) = xs

-- The loop of `validateOpenRequest` over the strings.
unfoldable pub check_strings : ℕ → List (List ℕ) → Option PtyError
check_strings most [] = none
check_strings most (x ∷ rest) =
    let later = check_strings most rest in
    if ltb most (length x) || member 0 x then some invalid_spec_string else later

-- `validateOpenRequest`
unfoldable pub validate_open : ProtocolConfig → ProcessSpec → Option PtyError
validate_open c spec =
    if ltb (pos_part c.max_command_bytes) (length spec.command)
      || ltb (pos_part c.max_directory_bytes) (length spec.dir)
    then some spec_string_limit
    else if ltb (pos_part c.max_arguments) (length spec.args)
        || ltb (pos_part c.max_environment) (length (env_of spec))
    then some spec_item_limit
    else check_strings (pos_part c.max_argument_bytes)
        (spec.command ∷ spec.dir ∷ (spec.args ++ env_of spec))

abbrev pub open_valid : Protocol → ProcessSpec → Option PtyError → Result Response ProcessSpec
open_valid p spec (some e) = err (answer_error code_invalid_request e)
open_valid p spec none =
    permitted (authorize p (record { operation = opens; session = 0; spec = some spec }))
      (ok (left_by p.authorizes spec))

abbrev pub open_decoded : Protocol → Result PtyError ProcessSpec → Result Response ProcessSpec
open_decoded p (err e) = err (answer_undecoded e)
open_decoded p (ok spec) = open_valid p spec (validate_open p.config spec)

-- `handleOpen` up to `Manager.Open`
unfoldable pub check_open : Json → Protocol → Frame → Result Response ProcessSpec
check_open json p f =
    if not (f.header.stream_id == 0)
    then err (answer_error code_invalid_request invalid_stream_id)
    else open_decoded p (decode json.parse_open json p f)

-- The rest of `handleOpen`, on what `Manager.Open` returned.
abbrev pub answer_open : Result PtyError SessionInfo → Response
answer_open (err e) = answer_operation e
answer_open (ok i) = answer_session i

-- `handleList` up to the page
abbrev pub filtered :
    Option (List SessionInfo → Result PtyError (List SessionInfo))
    → List SessionInfo
    → Result PtyError (List SessionInfo)
filtered none all = ok all
filtered (some f) all = f all

abbrev pub answer_filtered :
    Paging → ℕ → ListRequest → Result PtyError (List SessionInfo) → Response
answer_filtered paging generation r (err e) = answer_error code_permission_denied e
answer_filtered paging generation r (ok all) =
    answer_listed (list_request paging generation all r.limit r.cursor)

abbrev pub list_permitted : Paging → Protocol → Manager → Result Response ListRequest → Response
list_permitted paging p m (err answer) = answer
list_permitted paging p m (ok r) =
    let snapshot = list_snapshot m in
    answer_filtered paging snapshot.0 r (filtered p.filters snapshot.1)

abbrev pub list_parsed : Protocol → Result PtyError ListRequest → Result Response ListRequest
list_parsed p (err e) = err (answer_undecoded e)
list_parsed p (ok r) =
    permitted (authorize p (record { operation = lists; session = 0; spec = none })) (ok r)

-- `handleList`
unfoldable pub handle_list : Json → Paging → Protocol → Frame → Manager → Response
handle_list json paging p f m =
    if not (f.header.stream_id == 0)
    then answer_error code_invalid_request invalid_stream_id
    else list_permitted paging p m (list_parsed p (decode json.parse_list json p f))

-- The session of a stream.
abbrev pub session_of : Option Session → Result Response Session
session_of none = err (answer_error code_session_not_found session_not_found)
session_of (some s) = ok s

abbrev pub for_session : Operation → Frame → AuthorizationRequest
for_session operation f = record {
  operation = operation;
  session = f.header.stream_id;
  spec = none;
}

-- A request without a payload, as `handleInspect`, `handleDetach` and `handleKill` take it.
abbrev pub check_bare :
    {A : Type 0} → Operation → Protocol → Frame → Result Response A → Result Response A
check_bare operation p f next =
    if not (length f.payload == 0)
    then err (answer_error code_invalid_request invalid_payload)
    else permitted (authorize p (for_session operation f)) next

abbrev pub answer_info : Manager → Result Response Session → Response
answer_info m (err answer) = answer
answer_info m (ok s) = answer_session (info s m)

-- `handleInspect`
unfoldable pub handle_inspect : Protocol → Frame → Manager → Response
handle_inspect p f m =
    answer_info m (check_bare inspects p f (session_of (lookup f.header.stream_id m.sessions)))

-- `handleKill`: the session to kill, where the Manager has it.
unfoldable pub check_kill : Protocol → Frame → Manager → Result Response Session
check_kill p f m = check_bare kills p f (found (lookup f.header.stream_id m.sessions))
  where
    found : Option Session → Result Response Session
    found none = err (answer_operation session_not_found)
    found (some s) = ok s

-- What an operation that returns an error alone is answered with.
abbrev pub answer_done_or : Option PtyError → Response
answer_done_or none = answer_done
answer_done_or (some e) = answer_operation e

abbrev pub resize_decoded :
    Protocol → Frame → Manager → Result PtyError Size → Result Response (Session × Size)
resize_decoded p f m (err e) = err (answer_error code_invalid_request e)
resize_decoded p f m (ok size) =
    permitted (authorize p (for_session resizes f))
      (both (session_of (lookup f.header.stream_id m.sessions)))
  where
    both : Result Response Session → Result Response (Session × Size)
    both (err answer) = err answer
    both (ok s) = ok (s, size)

-- `handleResize` up to `Session.Resize`
unfoldable pub check_resize_request : Protocol → Frame → Manager → Result Response (Session × Size)
check_resize_request p f m = resize_decoded p f m (decode_size f.payload)

abbrev pub input_session : Option PtyError → Option Session → Result PtyError Session
input_session (some e) found = err e
input_session none none = err session_not_found
input_session none (some s) = ok s

-- `handleInput` up to `Session.Input`; its errors end the Peer.
unfoldable pub check_input : Protocol → Frame → Manager → Result PtyError Session
check_input p f m =
    if not (f.header.flags == flag_event)
    then err unexpected_frame
    else input_session (authorize p (for_session inputs f)) (lookup f.header.stream_id m.sessions)

abbrev pub take_attachment : ℕ → Protocol → Option ℕ → Result Response ℕ × Protocol
take_attachment stream p none = (err (answer_error code_session_not_found attachment_closed), p)
take_attachment stream p (some id) = (ok id, record p { attachments = delete stream p.attachments })

abbrev pub detach_permitted :
    Frame → Protocol → Result Response Frame → Result Response ℕ × Protocol
detach_permitted f p (err answer) = (err answer, p)
detach_permitted f p (ok _) =
    take_attachment f.header.stream_id p (lookup f.header.stream_id p.attachments)

-- `handleDetach`: the attachment to close, which is answered with an empty response.
unfoldable pub handle_detach : Protocol → Frame → Result Response ℕ × Protocol
handle_detach p f = detach_permitted f p (check_bare detaches p f (ok f))

-- The first hold of `Close`: the attachments to close.
abbrev pub close_protocol : Protocol → List ℕ × Protocol
close_protocol p = (ids p.attachments, record p { attachments = [] })
  where
    ids : Map ℕ → List ℕ
    ids [] = []
    ids ((stream, id) ∷ rest) = id ∷ ids rest

-- What `watchAttachment` tells the client of an attachment that ended, before it closes the Peer.
abbrev pub is_failure : CloseReason → Bool
is_failure CloseReason.overflowed = true
is_failure CloseReason.sink_failure = true
is_failure CloseReason.drain_timeout = true
is_failure _ = false

abbrev pub failure_code : PtyError → ErrorCode
failure_code PtyError.queue_overflow = code_queue_overflow
failure_code _ = code_backend_failure

unfoldable pub watch_attachment : Option PtyError → CloseReason → Option ErrorCode
watch_attachment none why = none
watch_attachment (some e) why = if is_failure why then some (failure_code e) else none

-- The map behind an attachment that is over; another one of its stream stays.
abbrev pub forget_attachment : ℕ → ℕ → Option ℕ → Protocol → Protocol
forget_attachment stream id none p = p
forget_attachment stream id (some other) p =
    if other == id then record p { attachments = delete stream p.attachments } else p
