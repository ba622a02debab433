-- ===== src/Codec/RoundTrip.antt =====
-- `Encoder.WriteFrame` and `Decoder.ReadFrame` of codec.go against each other.
use streammux.Base.{
  true, ℕ, ◌+◌, ◌%◌, ◌^◌, ◌≡◌, sym, ap, ◌∙◌, subst, inl, inr, Option, none, some, List, [], ◌++◌,
  length, take, arith, take-append_min, take-append_add, length-append, take-append, drop-append,
  ok, Option-cases, leb,
}
use Prim.Native.Nat.{min}
use mathlib.Core.List.{append_assoc, append-nil}
use streammux.Errors.{Error}
use streammux.Frame.{
  Header, Frame, Config, header_size, with_defaults, header_validate, frame_validate,
}
use streammux.Frame.Accepts.{framed, with_defaults_idem}
use streammux.Codec.{
  Writer, Source, encode_header, read_full, read_frame, read_payload, read_behind, finish_frame,
  write_full, write_both, write_frame,
}
use streammux.Codec.HeaderBytes.{IsHeader, length-encode_header, decode_header-encode_header}
use streammux.Codec.WriteFull.{Wrote, write_full-Wrote}

-- The frame that goes out: its payload length is that of the payload, as a uint32.
abbrev pub outgoing : Frame → Frame
outgoing f = record {
  header = record (f.header) { payload_length = length f.payload % 2 ^ 32 };
  payload = f.payload;
}

abbrev pub wire : Frame → List ℕ
wire f = encode_header f.header ++ f.payload

Wrote-append :
    (sent head payload sent' : List ℕ) (r : Option (List ℕ × Option Error))
    → sent' ≡ sent ++ head
    → Wrote sent' payload r
    → Wrote sent (head ++ payload) r
Wrote-append sent head payload sent' none h w = w
Wrote-append sent head payload sent' (some (end, none)) h w =
    w ∙ ap (λ l. l ++ payload) h ∙ append_assoc sent head payload
Wrote-append sent head payload sent' (some (end, some e)) h (n, w) = (
  length head + n,
  w
      ∙ ap (λ l. l ++ take n payload) h
      ∙ append_assoc sent head (take n payload)
      ∙ ap (◌++◌ sent) (take-append_add n head payload),
)

write_both-Wrote :
    (w : Writer) (sent head payload : List ℕ) (r : Option (List ℕ × Option Error))
    → Wrote sent head r
    → Wrote sent (head ++ payload) (write_both w payload r)
unfolding write_both
write_both-Wrote w sent head payload none h = h
write_both-Wrote w sent head payload (some (sent', some e)) (n, h) =
    (min n (length head), h ∙ ap (◌++◌ sent) (sym (take-append_min n head payload)))
write_both-Wrote w sent head payload (some (sent', none)) h =
    Wrote-append sent head payload sent' (write_full w sent' payload) h
      (write_full-Wrote w sent' payload)

-- Whatever the writer answers and whatever the frame, `WriteFrame` returns, and with no error only
-- if the writer has taken the whole frame.
pub write_frame-Wrote :
    (c : Config) (w : Writer) (sent : List ℕ) (f : Frame)
    → Wrote sent (wire (outgoing f)) (write_frame c w sent f)
unfolding write_frame
write_frame-Wrote c w sent f = elim (Option-cases (frame_validate (outgoing f) (with_defaults c))) [
  | inl e ↦
      rw (e, Wrote, write_frame)
        (write_both-Wrote w sent _ f.payload _
          (write_full-Wrote w sent (encode_header (outgoing f).header)))
  | inr (x, e) ↦ rw (e, Wrote, write_frame) (0, sym (append-nil sent))
]

-- A frame is sent only if its configuration admits it.
write_frame_valid :
    (c : Config) (w : Writer) (sent sent' : List ℕ) (f : Frame)
    → write_frame c w sent f ≡ some (sent', none)
    → frame_validate (outgoing f) (with_defaults c) ≡ none
unfolding write_frame
write_frame_valid c w sent sent' f h =
    elim (Option-cases (frame_validate (outgoing f) (with_defaults c))) [
      | inl e ↦ e
      | inr (x, e) ↦ absurd (differ (rw (e, write_frame) at h))
    ]
  where
    differ :
        {x : Error}
        → ◌≡◌ {A = Option (List ℕ × Option Error)} (some (sent, some x)) (some (sent', none))
        → ⊥
    differ q = cc

-- Reading `n` bytes off a source that starts with them.
read_full-append :
    (xs rest : List ℕ) (e : Error)
    → read_full (length xs) (record { bytes = xs ++ rest; failure = e })
      ≡ (ok xs, record { bytes = rest; failure = e })
unfolding read_full
read_full-append xs rest e = rw (enough, take-append xs rest, drop-append xs rest)
  where
    enough : leb (length xs) (length (xs ++ rest)) ≡ true
    enough = ground (arith, length-append xs rest)

pub read_encoded :
    (h : Header) (rest : List ℕ) (e : Error)
    → read_full header_size (record { bytes = encode_header h ++ rest; failure = e })
      ≡ (ok (encode_header h), record { bytes = rest; failure = e })
read_encoded h rest e = rw (← length-encode_header h) (read_full-append (encode_header h) rest e)

read_header-wire :
    (f : Frame) (rest : List ℕ) (e : Error)
    → read_full header_size (record { bytes = wire f ++ rest; failure = e })
      ≡ (ok (encode_header f.header), record { bytes = f.payload ++ rest; failure = e })
read_header-wire f rest e =
    rw (append_assoc (encode_header f.header) f.payload rest)
      (read_encoded f.header (f.payload ++ rest) e)

pub header_validate_of_frame :
    (f : Frame) (c : Config)
    → frame_validate f (with_defaults c) ≡ none
    → header_validate f.header (with_defaults c) ≡ none
unfolding frame_validate
header_validate_of_frame f c valid = ground (arith, with_defaults_idem c)

read_counted :
    (n : ℕ) (xs rest : List ℕ) (e : Error)
    → n ≡ length xs
    → read_full n (record { bytes = xs ++ rest; failure = e })
      ≡ (ok xs, record { bytes = rest; failure = e })
read_counted n xs rest e h =
    ap (λ k. read_full k (record { bytes = xs ++ rest; failure = e })) h
    ∙ read_full-append xs rest e

finish_frame-valid :
    (c : Config) (f : Frame) (s : Source)
    → frame_validate f c ≡ none
    → finish_frame c f.header (ok f.payload, s) ≡ (ok f, s)
unfolding finish_frame
finish_frame-valid c f s valid = rw valid

pub read_payload-valid :
    (c : Config) (h : Header) (s : Source)
    → header_validate h c ≡ none
    → read_payload c h s ≡ finish_frame c h (read_full h.payload_length s)
unfolding read_payload
read_payload-valid c h s valid = rw (valid, read_payload)

-- `ReadFrame` on the bytes of a frame that its configuration admits.
pub read_frame-wire :
    (c : Config) (f : Frame) (rest : List ℕ) (e : Error)
    → IsHeader f.header
    → f.header.payload_length ≡ length f.payload
    → frame_validate f (with_defaults c) ≡ none
    → read_frame c (record { bytes = wire f ++ rest; failure = e })
      ≡ (ok f, record { bytes = rest; failure = e })
unfolding read_frame
read_frame-wire c f rest e v counted valid =
    let d = with_defaults c in
    let s : Source = record { bytes = f.payload ++ rest; failure = e } in
    let end : Source = record { bytes = rest; failure = e } in
    ap (read_behind d) (read_header-wire f rest e)
    ∙ ap (λ h. read_payload d h s) (decode_header-encode_header f.header v)
    ∙ read_payload-valid d f.header s (header_validate_of_frame f c valid)
    ∙ ap (finish_frame d f.header) (read_counted _ f.payload rest e counted)
    ∙ finish_frame-valid d f end valid

-- Header fields in range stay in range when the payload length is put in.
outgoing-IsHeader : (f : Frame) → IsHeader f.header → IsHeader (outgoing f).header
outgoing-IsHeader f v = omega arith

outgoing_counted :
    (c : Config) (f : Frame)
    → frame_validate (outgoing f) (with_defaults c) ≡ none
    → (outgoing f).header.payload_length ≡ length f.payload
unfolding frame_validate
outgoing_counted c f valid = ground arith

-- What `WriteFrame` reports as sent, `ReadFrame` under the same configuration gives back: the
-- frame with its payload length filled in, leaving the bytes behind it. The writer may split and
-- delay the bytes as it likes.
pub read_frame-write_frame :
    (c : Config) (w : Writer) (f : Frame) (sent rest : List ℕ) (e : Error)
    → IsHeader f.header
    → write_frame c w [] f ≡ some (sent, none)
    → read_frame c (record { bytes = sent ++ rest; failure = e })
      ≡ (ok (framed f.header f.payload), record { bytes = rest; failure = e })
read_frame-write_frame c w f sent rest e v h =
    let valid = write_frame_valid c w [] sent f h in
    let counted = outgoing_counted c f valid in
    let wrote : sent ≡ wire (outgoing f) =
      subst (Wrote [] (wire (outgoing f))) h (write_frame-Wrote c w [] f) in
    ap (λ l. read_frame c (record { bytes = l ++ rest; failure = e })) wrote
    ∙ read_frame-wire c (outgoing f) rest e (outgoing-IsHeader f v) counted valid
    ∙ ap
        (λ n. (
          ok (record { header = record (f.header) { payload_length = n }; payload = f.payload }),
          record { bytes = rest; failure = e },
        ))
        counted
