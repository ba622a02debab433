-- ===== src/Peer/Limits.antt =====
-- `PeerConfig` of peer.go and the limits that a Peer keeps of it. In a validated configuration
-- every bound is positive, so the operations of a Peer read it as natural numbers.
use streammux.Base.{
  ℕ, ◌≤◌, ◌<◌, ◌≡◌, Bool, true, not, ◌&&◌, Option, none, some, Result, ok, err, ◌==◌, ◌*◌,
  if◌then◌else◌, arith,
}
use streammux.Base.Int.{ℤ, pos, negsuc, pos_part, ltb_ℤ, leb_ℤ}
use streammux.Errors.{Error, invalid_config}
use streammux.Frame.{Frame, flag_event}

-- `TrafficControl`, `TrafficInteractive` and `TrafficBulk`
abbrev pub control : ℕ
control = 1

abbrev pub interactive : ℕ
interactive = 2

abbrev pub bulk : ℕ
bulk = 3

-- `InboundQueueFail` and `InboundQueueBackpressure`
abbrev pub queue_fail : ℕ
queue_fail = 0

abbrev pub queue_backpressure : ℕ
queue_backpressure = 1

pub record PeerConfig : Type 0 where
  pub outbound_queue_bytes : ℤ
  pub outbound_queue_frames : ℤ
  pub per_stream_queue_bytes : ℤ
  pub per_stream_queue_frames : ℤ
  pub inbound_queue_policy : ℕ
  pub max_active_streams : ℤ
  pub max_canceled_requests : ℤ
  pub control_weight : ℤ
  pub interactive_weight : ℤ
  pub bulk_weight : ℤ
  pub classify : Option (Frame → ℕ)

-- `DefaultPeerConfig`
abbrev pub default_peer_config : PeerConfig
default_peer_config = record {
  outbound_queue_bytes = pos (16 * 1024 * 1024);
  outbound_queue_frames = pos 4096;
  per_stream_queue_bytes = pos (1024 * 1024);
  per_stream_queue_frames = pos 256;
  inbound_queue_policy = queue_fail;
  max_active_streams = pos 1024;
  max_canceled_requests = pos 4096;
  control_weight = pos 8;
  interactive_weight = pos 4;
  bulk_weight = pos 1;
  classify = none;
}

abbrev or_default : ℤ → ℤ → ℤ
or_default (pos n) d = if n == 0 then d else pos n
or_default (negsuc n) d = negsuc n

fill_defaults : PeerConfig → PeerConfig
fill_defaults c =
    let d = default_peer_config in
    record c {
      outbound_queue_bytes = or_default c.outbound_queue_bytes d.outbound_queue_bytes;
      per_stream_queue_bytes = or_default c.per_stream_queue_bytes d.per_stream_queue_bytes;
      outbound_queue_frames = or_default c.outbound_queue_frames d.outbound_queue_frames;
      per_stream_queue_frames = or_default c.per_stream_queue_frames d.per_stream_queue_frames;
      max_active_streams = or_default c.max_active_streams d.max_active_streams;
      max_canceled_requests = or_default c.max_canceled_requests d.max_canceled_requests;
      control_weight = or_default c.control_weight d.control_weight;
      interactive_weight = or_default c.interactive_weight d.interactive_weight;
      bulk_weight = or_default c.bulk_weight d.bulk_weight;
    }

abbrev is_positive : ℤ → Bool
is_positive z = not (leb_ℤ z (pos 0))

-- The classifier of a configuration that has none.
abbrev pub default_classify : Frame → ℕ
default_classify f = if not (f.header.flags == flag_event) then control else interactive

abbrev or_classify : Option (Frame → ℕ) → Option (Frame → ℕ)
or_classify (some f) = some f
or_classify none = some default_classify

all_positive : PeerConfig → Bool
all_positive c =
    is_positive c.outbound_queue_bytes
    && is_positive c.outbound_queue_frames
    && is_positive c.per_stream_queue_bytes
    && is_positive c.per_stream_queue_frames
    && is_positive c.max_active_streams
    && is_positive c.max_canceled_requests
    && is_positive c.control_weight
    && is_positive c.interactive_weight
    && is_positive c.bulk_weight

check_config : PeerConfig → Result Error PeerConfig
check_config c =
    if not (all_positive c)
    then err invalid_config
    else if ltb_ℤ c.outbound_queue_bytes c.per_stream_queue_bytes
    then err invalid_config
    else if ltb_ℤ c.outbound_queue_frames c.per_stream_queue_frames
    then err invalid_config
    else if not (c.inbound_queue_policy == queue_fail)
        && not (c.inbound_queue_policy == queue_backpressure)
    then err invalid_config
    else ok (record c { classify = or_classify c.classify })

-- `PeerConfig.withDefaults`
unfoldable pub with_defaults : PeerConfig → Result Error PeerConfig
unfolding fill_defaults all_positive check_config
with_defaults config = check_config (fill_defaults config)

-- The bounds of a validated configuration.
pub record Limits : Type 0 where
  pub out_bytes : ℕ
  pub out_frames : ℕ
  pub stream_bytes : ℕ
  pub stream_frames : ℕ
  pub max_active : ℕ
  pub max_canceled : ℕ
  pub backpressure : Bool
  pub control_weight : ℕ
  pub interactive_weight : ℕ
  pub bulk_weight : ℕ

abbrev pub limits : PeerConfig → Limits
limits c = record {
  out_bytes = pos_part c.outbound_queue_bytes;
  out_frames = pos_part c.outbound_queue_frames;
  stream_bytes = pos_part c.per_stream_queue_bytes;
  stream_frames = pos_part c.per_stream_queue_frames;
  max_active = pos_part c.max_active_streams;
  max_canceled = pos_part c.max_canceled_requests;
  backpressure = c.inbound_queue_policy == queue_backpressure;
  control_weight = pos_part c.control_weight;
  interactive_weight = pos_part c.interactive_weight;
  bulk_weight = pos_part c.bulk_weight;
}

-- What the operations of a Peer rely on.
pub record IsLimits (l : Limits) : Type 0 where
  pub some_bytes : 0 < l.stream_bytes
  pub some_frames : 0 < l.stream_frames
  pub bytes_within : l.stream_bytes ≤ l.out_bytes
  pub frames_within : l.stream_frames ≤ l.out_frames
  pub some_streams : 0 < l.max_active
  pub some_canceled : 0 < l.max_canceled
  pub weighs_control : 0 < l.control_weight
  pub weighs_interactive : 0 < l.interactive_weight
  pub weighs_bulk : 0 < l.bulk_weight

is_positive→lt : (z : ℤ) → is_positive z ≡ true → 0 < pos_part z
is_positive→lt z h = ground arith

record IsPositive (c : PeerConfig) : Type 0 where
  pub some_bytes : 0 < pos_part c.per_stream_queue_bytes
  pub some_frames : 0 < pos_part c.per_stream_queue_frames
  pub some_streams : 0 < pos_part c.max_active_streams
  pub some_canceled : 0 < pos_part c.max_canceled_requests
  pub weighs_control : 0 < pos_part c.control_weight
  pub weighs_interactive : 0 < pos_part c.interactive_weight
  pub weighs_bulk : 0 < pos_part c.bulk_weight

all_positive-IsPositive : (c : PeerConfig) → all_positive c ≡ true → IsPositive c
unfolding all_positive
all_positive-IsPositive c h = ground arith

check_config-IsLimits : (c d : PeerConfig) → check_config c ≡ ok d → IsLimits (limits d)
unfolding check_config
check_config-IsLimits c d e = ground (arith, all_positive-IsPositive c)

-- Every configuration that `withDefaults` lets through has positive bounds and weights, and a
-- stream's bounds within the Peer's.
pub with_defaults-IsLimits :
    (config c : PeerConfig) → with_defaults config ≡ ok c → IsLimits (limits c)
unfolding with_defaults
with_defaults-IsLimits config c e = check_config-IsLimits (fill_defaults config) c e
