-- ===== src/Codec/HeaderBytes.antt =====
-- `encodeHeader` and `decodeHeader` of codec.go are inverse to one another.
use streammux.Base.{
  ℕ, ◌-◌, ◌^◌, ◌<◌, ◌≤◌, ◌≡◌, refl, List, ◌++◌, length, All, arith, drop, All-take, All-drop,
  length-take, length-drop, take_all_of, take-append-drop_at, take-append-drop,
}
use streammux.Base.Bytes.{
  IsByte, put_u16, put_u32, put_u64, be-put_u16, be-put_u32, be-put_u64, put_u16-be, put_u32-be,
  put_u64-be,
}
use streammux.Frame.{Header}
use streammux.Codec.{slice, encode_header, decode_header}

-- The fields within their Go types.
pub record IsHeader (h : Header) : Type 0 where
  pub payload_length : h.payload_length < 2 ^ 32
  pub version : h.version < 2 ^ 16
  pub message_type : h.message_type < 2 ^ 16
  pub flags : h.flags < 2 ^ 32
  pub correlation_id : h.correlation_id < 2 ^ 64
  pub stream_id : h.stream_id < 2 ^ 64

-- Every header comes back from its 28 bytes.
pub decode_header-encode_header : (h : Header) → IsHeader h → decode_header (encode_header h) ≡ h
unfolding decode_header encode_header put_u16 put_u32 put_u64
decode_header-encode_header h v = λ i. record {
  payload_length = be-put_u32 h.payload_length v.payload_length i;
  version = be-put_u16 h.version v.version i;
  message_type = be-put_u16 h.message_type v.message_type i;
  flags = be-put_u32 h.flags v.flags i;
  correlation_id = be-put_u64 h.correlation_id v.correlation_id i;
  stream_id = be-put_u64 h.stream_id v.stream_id i;
}

pub length-encode_header : (h : Header) → length (encode_header h) ≡ 28
unfolding encode_header put_u16 put_u32 put_u64
length-encode_header h = refl

slice-IsBytes : (from to : ℕ) (bs : List ℕ) → All IsByte bs → All IsByte (slice from to bs)
slice-IsBytes from to bs h = All-take IsByte (to - from) (drop from bs) (All-drop IsByte from bs h)

length-slice : (from to : ℕ) (bs : List ℕ) → to ≤ length bs → length (slice from to bs) ≡ to - from
length-slice from to bs h =
    omega (arith, length-take (to - from) (drop from bs), length-drop from bs)

slices :
    (bs : List ℕ)
    → length bs ≡ 28
    → slice 0 4 bs
        ++ (slice 4 6 bs ++ (slice 6 8 bs ++ (slice 8 12 bs ++ (slice 12 20 bs ++ slice 20 28 bs))))
      ≡ bs
slices bs e =
    rw
      (
        take_all_of 8 (drop 20 bs) (omega (arith, length-drop 20 bs)),
        take-append-drop_at 8 12 20 bs refl,
        take-append-drop_at 4 8 12 bs refl,
        take-append-drop_at 2 6 8 bs refl,
        take-append-drop_at 2 4 6 bs refl,
      )
      (take-append-drop 4 bs)

-- Every 28 bytes are the encoding of the header that they decode to: no two inputs are confused.
pub encode_header-decode_header :
    (bs : List ℕ) → length bs ≡ 28 → All IsByte bs → encode_header (decode_header bs) ≡ bs
unfolding encode_header decode_header
encode_header-decode_header bs e h =
    rw
      (
        put_u32-be (slice 0 4 bs) (length-slice 0 4 bs (omega arith)) (slice-IsBytes 0 4 bs h),
        put_u16-be (slice 4 6 bs) (length-slice 4 6 bs (omega arith)) (slice-IsBytes 4 6 bs h),
        put_u16-be (slice 6 8 bs) (length-slice 6 8 bs (omega arith)) (slice-IsBytes 6 8 bs h),
        put_u32-be (slice 8 12 bs) (length-slice 8 12 bs (omega arith)) (slice-IsBytes 8 12 bs h),
        put_u64-be (slice 12 20 bs) (length-slice 12 20 bs (omega arith))
            (slice-IsBytes 12 20 bs h),
        put_u64-be (slice 20 28 bs) (length-slice 20 28 bs (omega arith))
            (slice-IsBytes 20 28 bs h),
      )
      (slices bs e)
