-- ===== src/Codec/Reading.antt =====
-- `Decoder.ReadFrame` of codec.go on any input: what it accepts, and what it does on a short one.
use streammux.Base.{
  ℕ, zero, suc, ◌+◌, ◌-◌, ◌≤◌, ◌<◌, ◌≡◌, refl, sym, ap, ◌∙◌, subst, inl, inr, none, List, [], ◌++◌,
  length, take, arith, take-append-drop, Result, ok, err, Option-cases, Bool-cases, leb, All,
  length-take, length-append, All-append_left, dec_lt, take-append_add,
}
use mathlib.Core.List.{append_assoc}
use streammux.Base.Bytes.{IsByte}
use streammux.Errors.{Error, eof, unexpected_eof}
use streammux.Frame.{
  Header, Frame, Config, header_size, with_defaults, header_validate, frame_validate,
}
use streammux.Codec.{
  Source, encode_header, decode_header, read_full, read_frame, read_payload, read_behind,
  finish_frame, in_payload,
}
use streammux.Codec.HeaderBytes.{
  IsHeader, encode_header-decode_header, decode_header-encode_header, length-encode_header,
}
use streammux.Codec.RoundTrip.{wire, read_encoded, read_payload-valid, header_validate_of_frame}

-- The bytes that were read stand before those that are left.
abbrev FullRead : ℕ → Source → Result Error (List ℕ) × Source → Type 0
FullRead n s (err e, s') = Unit {0}
FullRead n s (ok xs, s') = (s.bytes ≡ xs ++ s'.bytes) × (length xs ≡ n) × (s'.failure ≡ s.failure)

read_full-FullRead : (n : ℕ) (s : Source) → FullRead n s (read_full n s)
unfolding read_full
read_full-FullRead n s = elim (Bool-cases (leb n (length s.bytes))) [
  | inl enough ↦
      rw enough (sym (take-append-drop n s.bytes), ground (arith, length-take n s.bytes), refl)
  | inr short ↦ rw short tt
]

abbrev pub FrameRead : Config → Source → Result Error Frame × Source → Type 0
FrameRead c s (err e, s') = Unit {0}
FrameRead c s (ok f, s') =
    (frame_validate f (with_defaults c) ≡ none)
    × (s.bytes ≡ wire f ++ s'.bytes)
    × (s'.failure ≡ s.failure)

finish_frame-FrameRead :
    (c : Config) (h : Header) (s s' : Source) (n : ℕ) (r : Result Error (List ℕ) × Source)
    → s.bytes ≡ encode_header h ++ s'.bytes
    → s'.failure ≡ s.failure
    → FullRead n s' r
    → FrameRead c s (finish_frame (with_defaults c) h r)
unfolding finish_frame
finish_frame-FrameRead c h s s' n (err e, t) p q read = tt
finish_frame-FrameRead c h s s' n (ok xs, t) p q read =
    let f : Frame = record { header = h; payload = xs } in
    elim (Option-cases (frame_validate f (with_defaults c))) [
      | inr (x, e) ↦ rw (e, FrameRead) tt
      | inl e ↦
          rw (e, FrameRead)
            (
              e,
              p
                  ∙ ap (◌++◌ (encode_header h)) read.0
                  ∙ sym (append_assoc (encode_header h) xs t.bytes),
              read.2 ∙ q,
            )
    ]

read_payload-FrameRead :
    (c : Config) (h : Header) (s s' : Source)
    → s.bytes ≡ encode_header h ++ s'.bytes
    → s'.failure ≡ s.failure
    → FrameRead c s (read_payload (with_defaults c) h s')
unfolding read_payload
read_payload-FrameRead c h s s' p q = elim (Option-cases (header_validate h (with_defaults c))) [
  | inr (x, e) ↦ rw (e, read_payload, FrameRead) tt
  | inl e ↦
      rw (e, read_payload, FrameRead)
        (finish_frame-FrameRead c h s s' h.payload_length _ p q
          (read_full-FullRead h.payload_length s'))
]

read_behind-FrameRead :
    (c : Config) (s : Source) (r : Result Error (List ℕ) × Source)
    → All IsByte s.bytes
    → FullRead header_size s r
    → FrameRead c s (read_behind (with_defaults c) r)
unfolding read_behind
read_behind-FrameRead c s (err e, s') b read = tt
read_behind-FrameRead c s (ok xs, s') b read =
    read_payload-FrameRead c (decode_header xs) s s'
      (read.0 ∙ ap (λ l. l ++ s'.bytes) (sym (encode_header-decode_header xs read.1 head))) read.2
  where
    head : All IsByte xs
    head = All-append_left IsByte xs s'.bytes (subst (All IsByte) read.0 b)

-- A frame that `ReadFrame` returns has passed `Frame.Validate`, and the bytes taken from the input
-- are exactly that frame's encoding.
pub read_frame-FrameRead :
    (c : Config) (s : Source) → All IsByte s.bytes → FrameRead c s (read_frame c s)
unfolding read_frame
read_frame-FrameRead c s b =
    read_behind-FrameRead c s (read_full header_size s) b (read_full-FullRead header_size s)

-- What the reader reports when the input ends after `k` bytes.
abbrev pub cut_short : ℕ → Error
cut_short zero = eof
cut_short (suc k) = unexpected_eof

read_full_short :
    (n : ℕ) (bs : List ℕ)
    → length bs < n
    → read_full n (record { bytes = bs; failure = eof })
      ≡ (err (cut_short (length bs)), record { bytes = []; failure = eof })
unfolding read_full
read_full_short n bs h = ground arith

in_payload-cut_short : (k : ℕ) → in_payload (cut_short k) ≡ unexpected_eof
in_payload-cut_short zero = refl
in_payload-cut_short (suc k) = refl

finish_frame_short :
    (c : Config) (h : Header) (bs : List ℕ)
    → length bs < h.payload_length
    → finish_frame c h (read_full h.payload_length (record { bytes = bs; failure = eof }))
      ≡ (err unexpected_eof, record { bytes = []; failure = eof })
unfolding finish_frame
finish_frame_short c h bs short =
    ap (finish_frame c h) (read_full_short h.payload_length bs short)
    ∙ ap (λ e. (err e, record { bytes = []; failure = eof })) (in_payload-cut_short (length bs))

cut_short_late : (k : ℕ) → 0 < k → unexpected_eof ≡ cut_short k
cut_short_late zero h = absurd (omega arith)
cut_short_late (suc k) h = refl

-- The frame's bytes, cut off in the header or in the payload.
cut_in_header :
    (c : Config) (k : ℕ) (bs : List ℕ)
    → length bs ≡ k
    → k < header_size
    → read_frame c (record { bytes = bs; failure = eof })
      ≡ (err (cut_short k), record { bytes = []; failure = eof })
unfolding read_frame read_behind
cut_in_header c k bs e h =
    ap (read_behind (with_defaults c)) (read_full_short header_size bs (omega arith))
    ∙ ap (λ n. (err (cut_short n), record { bytes = []; failure = eof })) e

cut_in_payload :
    (c : Config) (f : Frame) (n : ℕ)
    → IsHeader f.header
    → f.header.payload_length ≡ length f.payload
    → frame_validate f (with_defaults c) ≡ none
    → n < length f.payload
    → read_frame c (record { bytes = encode_header f.header ++ take n f.payload; failure = eof })
      ≡ (err unexpected_eof, record { bytes = []; failure = eof })
unfolding read_frame
cut_in_payload c f n v counted valid short =
    let d = with_defaults c in
    let s : Source = record { bytes = take n f.payload; failure = eof } in
    ap (read_behind d) (read_encoded f.header (take n f.payload) eof)
    ∙ ap (λ h. read_payload d h s) (decode_header-encode_header f.header v)
    ∙ read_payload-valid d f.header s (header_validate_of_frame f c valid)
    ∙ finish_frame_short d f.header (take n f.payload) (omega (arith, length-take n f.payload))

take-wire :
    (f : Frame) (k : ℕ)
    → header_size ≤ k
    → take k (wire f) ≡ encode_header f.header ++ take (k - header_size) f.payload
take-wire f k h =
    ap (λ n. take n (wire f)) (omega (arith, length-encode_header f.header))
    ∙ sym (take-append_add (k - header_size) (encode_header f.header) f.payload)

length-wire : (f : Frame) → length (wire f) ≡ header_size + length f.payload
length-wire f =
    omega (arith, length-append (encode_header f.header) f.payload, length-encode_header f.header)

-- On an admitted frame that the input cuts off anywhere, `ReadFrame` returns no frame: `io.EOF` at
-- a frame's very start, `io.ErrUnexpectedEOF` everywhere else.
pub read_frame_cut :
    (c : Config) (f : Frame) (k : ℕ)
    → IsHeader f.header
    → f.header.payload_length ≡ length f.payload
    → frame_validate f (with_defaults c) ≡ none
    → k < length (wire f)
    → read_frame c (record { bytes = take k (wire f); failure = eof })
      ≡ (err (cut_short k), record { bytes = []; failure = eof })
read_frame_cut c f k v counted valid short = elim (dec_lt k header_size) [
  | yes early ↦ cut_in_header c k (take k (wire f)) (omega (arith, length-take k (wire f))) early
  | no late ↦
      ap (λ bs. read_frame c (record { bytes = bs; failure = eof })) (take-wire f k (omega arith))
      ∙ cut_in_payload c f (k - header_size) v counted valid (omega (arith, length-wire f))
      ∙ ap (λ e. (err e, record { bytes = []; failure = eof })) (cut_short_late k (omega arith))
]
