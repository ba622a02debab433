-- ===== src/Frame/Accepts.antt =====
-- What `Frame.Validate` and `newFrame` of frame.go accept, as one predicate.
use streammux.Base.{
  ℕ, zero, suc, ◌≤◌, ◌<◌, ◌^◌, ◌≡◌, refl, ◌≢◌, ◌↔◌, ◌⊎◌, none, some, ok, err, length, arith, List,
  dec_le, Option-cases, inl, inr, sym, ap, ◌∙◌, ok-injective, ok-ne-err,
}
use streammux.Base.Bits.{bit_and-1, bit_and-2, bit_and-4, bit_and-3, bit_and-7}
use streammux.Base.Int.{ℤ, pos, negsuc, pos_part}
use streammux.Errors.{frame_too_large}
use streammux.Frame.{
  Header, Frame, Config, default_max_frame_bytes, max_u32, with_defaults, header_validate,
  frame_validate, custom_validate, new_frame, len_limit,
}

-- One message class, and a correlation ID exactly when the class is not the event.
abbrev pub HasClass : Header → Type 0
HasClass h =
    ((h.flags ≡ 1) × (h.correlation_id ≢ 0))
    ⊎ ((h.flags ≡ 2) × (h.correlation_id ≢ 0))
    ⊎ ((h.flags ≡ 4) × (h.correlation_id ≡ 0))

-- The limits that a configuration stands for, once its zero fields are filled in.
abbrev pub max_bytes : Config → ℕ
max_bytes c = pos_part (with_defaults c).max_frame_bytes

pub record IsHeaderOf (h : Header) (c : Config) : Type 0 where
  pub sized : h.payload_length ≤ pos_part c.max_frame_bytes
  pub lowest : c.min_version ≤ h.version
  pub highest : h.version ≤ c.max_version
  pub typed : h.message_type ≢ 0
  pub classed : HasClass h

header_sound :
    (h : Header) (c : Config) (n : ℕ)
    → c.max_frame_bytes ≡ pos n
    → n < 2 ^ 63
    → header_validate h c ≡ none
    → IsHeaderOf h c
unfolding header_validate
header_sound h c n e small v = ground (
  arith,
  bit_and-1 h.flags,
  bit_and-2 h.flags,
  bit_and-4 h.flags,
  bit_and-3 h.flags,
  bit_and-7 h.flags,
)

header_complete :
    (h : Header) (c : Config) (n : ℕ)
    → c.max_frame_bytes ≡ pos n
    → n < 2 ^ 63
    → IsHeaderOf h c
    → header_validate h c ≡ none
unfolding header_validate
header_complete h c n e small v = ground (
  arith,
  bit_and-1 h.flags,
  bit_and-2 h.flags,
  bit_and-4 h.flags,
  bit_and-3 h.flags,
  bit_and-7 h.flags,
)

-- `withDefaults` leaves a positive frame limit.
max_frame_bytes-cases :
    (z : ℤ) (c : Config)
    → c.max_frame_bytes ≡ z
    → (n : ℕ) × ((with_defaults c).max_frame_bytes ≡ pos n) × (0 < n)
unfolding with_defaults
max_frame_bytes-cases (pos zero) c e = (default_max_frame_bytes, rw e, omega arith)
max_frame_bytes-cases (pos (suc n)) c e = (suc n, ground arith, omega arith)
max_frame_bytes-cases (negsuc n) c e = (default_max_frame_bytes, ground arith, omega arith)

pub with_defaults_positive :
    (c : Config) → (n : ℕ) × ((with_defaults c).max_frame_bytes ≡ pos n) × (0 < n)
with_defaults_positive c = max_frame_bytes-cases c.max_frame_bytes c refl

pub with_defaults_idem : (c : Config) → with_defaults (with_defaults c) ≡ with_defaults c
unfolding with_defaults
with_defaults_idem c = ground arith

-- The frame limit of a configuration is a Go `int`.
abbrev pub IsConfig : Config → Type 0
IsConfig c = max_bytes c < 2 ^ 63

-- A frame that a configuration admits.
pub record IsFrameOf (f : Frame) (c : Config) : Type 0 where
  pub header_ok : IsHeaderOf f.header (with_defaults c)
  pub fits : length f.payload ≤ max_bytes c
  pub narrow : length f.payload ≤ max_u32
  pub counted : f.header.payload_length ≡ length f.payload
  pub admitted : custom_validate c f ≡ none

custom_validate-with_defaults :
    (c : Config) (f : Frame) → custom_validate (with_defaults c) f ≡ custom_validate c f
unfolding with_defaults
custom_validate-with_defaults c f = refl

module _ (f : Frame) (c : Config) (small : IsConfig c) where
  validate_sound : frame_validate f c ≡ none → IsFrameOf f c
  unfolding frame_validate
  validate_sound v =
      let (n, e, p) = with_defaults_positive c in
      ground (arith, header_sound f.header (with_defaults c) n e, custom_validate-with_defaults c f)

  validate_complete : IsFrameOf f c → frame_validate f c ≡ none
  unfolding frame_validate
  validate_complete v =
      let (n, e, p) = with_defaults_positive c in
      ground
        (arith, header_complete f.header (with_defaults c) n e, custom_validate-with_defaults c f)

-- `Frame.Validate` accepts exactly the frames that its configuration admits, for every
-- configuration whose frame limit is a Go `int`.
pub validate_iff :
    (f : Frame) (c : Config) → IsConfig c → (frame_validate f c ≡ none) ↔ IsFrameOf f c
validate_iff f c small = (validate_sound f c small, validate_complete f c small)

-- The frame that `newFrame` builds: the header given, with the length of the payload.
abbrev pub framed : Header → List ℕ → Frame
framed h p = record { header = record h { payload_length = length p }; payload = p }

pub record IsFramable (h : Header) (p : List ℕ) : Type 0 where
  pub narrow : length p ≤ max_u32
  pub lowest : 1 ≤ h.version
  pub highest : h.version ≤ 65535
  pub typed : h.message_type ≢ 0
  pub classed : HasClass h

module _ (h : Header) (p : List ℕ) where
  len_limit-IsConfig : length p ≤ max_u32 → IsConfig (len_limit p)
  unfolding with_defaults
  len_limit-IsConfig narrow = ground arith

  framed-IsFramable : length p ≤ max_u32 → IsFrameOf (framed h p) (len_limit p) → IsFramable h p
  unfolding with_defaults
  framed-IsFramable narrow v = ground arith

  framed-IsFrameOf : IsFramable h p → IsFrameOf (framed h p) (len_limit p)
  unfolding with_defaults
  framed-IsFrameOf v = ground arith

  new_frame_narrow :
      length p ≤ max_u32
      → new_frame h p ≡ elim (frame_validate (framed h p) (len_limit p)) [
        | some e ↦ err e
        | none ↦ ok (framed h p)
      ]
  unfolding new_frame
  new_frame_narrow narrow = ground arith

  new_frame_wide : ¬ (length p ≤ max_u32) → new_frame h p ≡ err frame_too_large
  unfolding new_frame
  new_frame_wide wide = ground arith

  new_frame_sound : (f : Frame) → new_frame h p ≡ ok f → (f ≡ framed h p) × IsFramable h p
  new_frame_sound f e = elim (dec_le (length p) max_u32) [
    | no wide ↦ cc (new_frame_wide wide)
    | yes narrow ↦ elim (Option-cases (frame_validate (framed h p) (len_limit p))) [
      | inl v ↦ (
        sym (ok-injective (rw (new_frame_narrow narrow, v) at e)),
        framed-IsFramable narrow (validate_sound _ (len_limit p) (len_limit-IsConfig narrow) v),
      )
      | inr (x, v) ↦ absurd (ok-ne-err (sym (rw (new_frame_narrow narrow, v) at e)))
    ]
  ]

  new_frame_complete : IsFramable h p → new_frame h p ≡ ok (framed h p)
  new_frame_complete v = rw (
    new_frame_narrow v.narrow,
    validate_complete (framed h p) (len_limit p) (len_limit-IsConfig v.narrow) (framed-IsFrameOf v),
  )

-- `newFrame` succeeds exactly on the headers and payloads that can be framed, and then returns the
-- header with the payload's length put in, over the payload itself.
pub new_frame_iff :
    (h : Header) (p : List ℕ) (f : Frame)
    → (new_frame h p ≡ ok f) ↔ ((f ≡ framed h p) × IsFramable h p)
new_frame_iff h p f = (new_frame_sound h p f, λ w. new_frame_complete h p w.1 ∙ ap ok (sym w.0))
