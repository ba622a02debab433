-- ===== src/Frame.antt =====
-- frame.go, and the `Config` of codec.go: headers, frames and what `Validate` accepts.
-- Sizes of a payload are numbers; the `int` fields of a `Config` are integers.
pub mod Accepts
use streammux.Base.{
  ℕ, zero, suc, ◌+◌, ◌-◌, ◌*◌, ◌%◌, ◌^◌, Bool, not, ◌&&◌, ◌||◌, Option, none, some, List, [], ◌∷◌,
  ◌≡◌, refl, Result, ok, err, ltb, leb, ◌==◌, if◌then◌else◌, length,
}
use streammux.Base.Int.{ℤ, pos, negsuc, ltb_ℤ, leb_ℤ, to_u64}
use streammux.Errors.{
  Error, frame_too_large, invalid_frame_length, unsupported_version, invalid_message_type,
  invalid_flags, invalid_correlation,
}
use Prim.Native.Nat.{bit_and}

abbrev pub header_size : ℕ
header_size = 28

abbrev pub default_max_frame_bytes : ℕ
default_max_frame_bytes = 4 * 1024 * 1024

abbrev pub max_u32 : ℕ
max_u32 = 2 ^ 32 - 1

abbrev pub flag_request : ℕ
flag_request = 1

abbrev pub flag_response : ℕ
flag_response = 2

abbrev pub flag_event : ℕ
flag_event = 4

-- `knownFlags`
abbrev pub known_flags : ℕ
known_flags = 7

pub record Header : Type 0 where
  pub payload_length : ℕ
  pub version : ℕ
  pub message_type : ℕ
  pub flags : ℕ
  pub correlation_id : ℕ
  pub stream_id : ℕ

pub record Frame : Type 0 where
  pub header : Header
  pub payload : List ℕ

pub record Config : Type 0 where
  pub min_version : ℕ
  pub max_version : ℕ
  pub max_frame_bytes : ℤ
  pub write_queue : ℤ
  pub validate : Option (Frame → Option Error)

-- `DefaultConfig`
abbrev pub default_config : Config
default_config = record {
  min_version = 1;
  max_version = 1;
  max_frame_bytes = pos default_max_frame_bytes;
  write_queue = pos 64;
  validate = none;
}

-- `Config.withDefaults`: the second version bound falls back to the first one as it then stands.
unfoldable pub with_defaults : Config → Config
with_defaults c =
    let lo = if c.min_version == 0 then 1 else c.min_version in
    record {
      min_version = lo;
      max_version = if c.max_version == 0 then lo else c.max_version;
      max_frame_bytes =
          if leb_ℤ c.max_frame_bytes (pos 0)
          then pos default_max_frame_bytes
          else c.max_frame_bytes;
      write_queue = if ltb_ℤ c.write_queue (pos 0) then pos 0 else c.write_queue;
      validate = c.validate;
    }

-- Go's `x &^ m`: `x` without the bits of `m`.
abbrev pub and_not : ℕ → ℕ → ℕ
and_not x m = x - bit_and x m

-- `flags&flag != 0`
abbrev pub has_flag : ℕ → ℕ → Bool
has_flag flags flag = not (bit_and flags flag == 0)

-- `classCount`: the loop over the three flags.
count_flags : ℕ → List ℕ → ℕ → ℕ
count_flags flags [] count = count
count_flags flags (flag ∷ rest) count =
    count_flags flags rest (if has_flag flags flag then count + 1 else count)

unfoldable pub class_count : ℕ → ℕ
unfolding count_flags
class_count flags = count_flags flags (flag_request ∷ flag_response ∷ flag_event ∷ []) 0

-- `Header.validate`
unfoldable pub header_validate : Header → Config → Option Error
unfolding class_count
header_validate h c =
    if ltb (to_u64 c.max_frame_bytes) h.payload_length
    then some frame_too_large
    else if ltb h.version c.min_version || ltb c.max_version h.version
    then some unsupported_version
    else if h.message_type == 0
    then some invalid_message_type
    else if not (and_not h.flags known_flags == 0) || not (class_count h.flags == 1)
    then some invalid_flags
    else if has_flag h.flags (flag_request + flag_response) && h.correlation_id == 0
    then some invalid_correlation
    else if h.flags == flag_event && not (h.correlation_id == 0)
    then some invalid_correlation
    else none

-- The `config.Validate` callback, where there is one.
abbrev pub custom_validate : Config → Frame → Option Error
custom_validate c f = elim c.validate [ none ↦ none | some v ↦ v f ]

abbrev pub or_else : Option Error → Option Error → Option Error
or_else (some e) next = some e
or_else none next = next

-- `Frame.Validate`
unfoldable pub frame_validate : Frame → Config → Option Error
frame_validate f config =
    let c = with_defaults config in
    if ltb_ℤ c.max_frame_bytes (pos (length f.payload)) || ltb max_u32 (length f.payload)
    then some frame_too_large
    else or_else (header_validate f.header c) (
        if not (length f.payload % 2 ^ 32 == f.header.payload_length)
        then some invalid_frame_length
        else custom_validate c f)

-- `lenLimit`
abbrev pub len_limit : List ℕ → Config
len_limit payload = record {
  min_version = 1;
  max_version = 2 ^ 16 - 1;
  max_frame_bytes = pos (if length payload == 0 then 1 else length payload);
  write_queue = pos 0;
  validate = none;
}

-- `newFrame`, which `NewFrame` calls on a copy of the payload and `NewOwnedFrame` on the payload.
unfoldable pub new_frame : Header → List ℕ → Result Error Frame
new_frame h payload =
    if ltb max_u32 (length payload)
    then err frame_too_large
    else let f : Frame = record {
      header = record h { payload_length = length payload % 2 ^ 32 };
      payload = payload;
    } in
      elim (frame_validate f (len_limit payload)) [ some e ↦ err e | none ↦ ok f ]
