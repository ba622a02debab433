-- ===== src/Pty/Bridge/Output.antt =====
-- What a bridge of pty/bridge.go forwards.
use streammux.Base.{
  ℕ, ◌<◌, ◌≡◌, Bool, All, if_true, if_false, refl, sym, ap, ◌∙◌, subst, true, false, not, ◌||◌,
  Option, none, some, List, [], ◌∷◌, ◌++◌, length, take, Result, ok, err, if◌then◌else◌, if_elim,
  else-ok, ok-injective, ltb, ◌==◌, arith, is_some,
}
use streammux.Base.Int.{ℤ, pos, negsuc, pos_part}
use streammux.Errors.{Error}
use streammux.Frame.{Frame, flag_event, new_frame}
use streammux.Frame.Accepts.{new_frame_iff, framed}
use streammux.Codec.{Writer}
use streammux.Codec.WriteFull.{Wrote, write_full-Wrote}
use mathlib.Core.List.{append_assoc, append-nil}
use streammux.Pty.Values.{PtyError, no_progress, invalid_read_count, foreign}
use streammux.Pty.Bridge.{
  BridgeConfig, Read, Sender, Outcome, output_header, end_of, after_output, after_send, send_output,
  output_read, resume, run_output, handle_input,
}

-- The payloads of frames, one behind the other.
abbrev pub payloads : List Frame → List ℕ
payloads [] = []
payloads (f ∷ rest) = f.payload ++ payloads rest

-- The bytes of one read, and of reads up to the one that ends the output: it has an error, or no bytes.
abbrev pub bytes_of : Read → List ℕ
bytes_of r = take (pos_part r.count) r.buffer

abbrev pub is_zero : ℤ → Bool
is_zero (pos n) = n == 0
is_zero (negsuc n) = false

abbrev pub is_last : Read → Bool
is_last r = is_some r.error || is_zero r.count

abbrev pub output_of : List Read → List ℕ
output_of [] = []
output_of (r ∷ rest) = bytes_of r ++ (if is_last r then [] else output_of rest)

-- What `RunOutput` returns behind the read that ends the output, if there is one yet.
abbrev pub ending_of : Option Error → Option PtyError
ending_of none = some no_progress
ending_of (some e) = end_of e

abbrev pub ended : List Read → Option (Option PtyError)
ended [] = none
ended (r ∷ rest) = if is_last r then some (ending_of r.error) else ended rest

-- Why a read's bytes are not forwarded, with the error that is returned: the count of the read is not one
-- of its buffer, no frame can be made of them, or the sender refuses the frame.
pub data Lost (c : BridgeConfig) (send : Sender) (now : List Frame) (r : Read)
    : PtyError → Type 0 where
  negative : (n : ℕ) → r.count ≡ negsuc n → Lost c send now r invalid_read_count
  too_long : (n : ℕ) → r.count ≡ pos n → length r.buffer < n → Lost c send now r invalid_read_count
  unframed :
      (e : Error) → new_frame (output_header c) (bytes_of r) ≡ err e → Lost c send now r (foreign e)
  refused :
      (e : Error)
      → send now (framed (output_header c) (bytes_of r)) ≡ some e
      → Lost c send now r (foreign e)

-- What is forwarded of reads, behind the frames `sent`: all of the output, or all before a read that is lost.
pub data Forwarded (c : BridgeConfig) (send : Sender) (sent : List Frame) (reads : List Read)
    : Outcome → Type 0 where
  whole :
      (now : List Frame)
      → payloads now ≡ payloads sent ++ output_of reads
      → Forwarded c send sent reads (now, ended reads)
  loses :
      (now : List Frame) (before : List Read) (r : Read) (rest : List Read) (e : PtyError)
      → reads ≡ before ++ (r ∷ rest)
      → All (λ x. is_last x ≡ false) before
      → payloads now ≡ payloads sent ++ output_of before
      → Lost c send now r e
      → Forwarded c send sent reads (now, some (some e))

payloads-append : (xs ys : List Frame) → payloads (xs ++ ys) ≡ payloads xs ++ payloads ys
payloads-append [] ys = refl
payloads-append (f ∷ rest) ys =
    ap (λ r. f.payload ++ r) (payloads-append rest ys)
    ∙ sym (append_assoc f.payload (payloads rest) (payloads ys))

module _ (c : BridgeConfig) (send : Sender) (sent : List Frame) (r : Read) (rest : List Read) where
  lost-Forwarded :
      (e : PtyError) → Lost c send sent r e → Forwarded c send sent (r ∷ rest) (sent, some (some e))
  lost-Forwarded e why = loses sent [] r rest e refl tt (sym (append-nil (payloads sent))) why

  module _ (now : List Frame) (h : payloads now ≡ payloads sent ++ bytes_of r) where
    last-Forwarded :
        is_last r ≡ true → Forwarded c send sent (r ∷ rest) (now, some (ending_of r.error))
    last-Forwarded last =
        subst (λ x. Forwarded c send sent (r ∷ rest) (now, x)) (if_true (is_last r) _ _ last)
          (whole now (
            h
            ∙ ap (λ l. payloads sent ++ l)
                (sym (append-nil (bytes_of r))
                  ∙ ap (λ b. bytes_of r ++ (if b then [] else output_of rest)) (sym last))))

    shifted :
        is_last r ≡ false
        → (at_end : List Frame) (reads : List Read)
        → payloads at_end ≡ payloads now ++ output_of reads
        → payloads at_end ≡ payloads sent ++ output_of (r ∷ reads)
    shifted more at_end reads q =
        q
        ∙ ap (λ l. l ++ output_of reads) h
        ∙ append_assoc (payloads sent) (bytes_of r) (output_of reads)
        ∙ ap (λ b. payloads sent ++ (bytes_of r ++ (if b then [] else output_of reads))) (sym more)

    later-Forwarded :
        (out : Outcome)
        → is_last r ≡ false
        → Forwarded c send now rest out
        → Forwarded c send sent (r ∷ rest) out
    unfolding shifted
    later-Forwarded _ more (whole at_end q) =
        subst (λ x. Forwarded c send sent (r ∷ rest) (at_end, x)) (if_false (is_last r) _ _ more)
          (whole at_end (shifted more at_end rest q))
    later-Forwarded _ more (loses at_end before x after e is none_last q why) =
        loses at_end (r ∷ before) x after e (ap (λ l. r ∷ l) is) (more, none_last)
          (shifted more at_end before q) why

module _ (c : BridgeConfig) (send : Sender) (sent : List Frame) (buffer : List ℕ) (rest : List Read)
    (go : (now : List Frame) → Forwarded c send now rest (run_output c send now rest)) where
  -- The loop, behind what a round came to.
  abbrev Goes : ℤ → Option Error → Outcome → Type 0
  Goes count e out =
      Forwarded c send sent (record { count = count; buffer = buffer; error = e } ∷ rest)
        (resume (λ now. run_output c send now rest) out)

  after_output-Goes :
      (n : ℕ) (e : Option Error) (now : List Frame)
      → payloads now ≡ payloads sent ++ take n buffer
      → Goes (pos n) e (now, after_output n e)
  after_output-Goes n none now h =
      let r : Read = record { count = pos n; buffer = buffer; error = none } in
      if_elim (λ (o : Option (Option PtyError)). Goes (pos n) none (now, o)) (n == 0) _ _
        (λ empty. last-Forwarded c send sent r rest now h empty)
        (λ some_bytes. later-Forwarded c send sent r rest now h _ some_bytes (go now))
  after_output-Goes n (some e) now h =
      last-Forwarded c send sent (record { count = pos n; buffer = buffer; error = some e }) rest
        now h refl

  send_output-Goes :
      (n : ℕ) (e : Option Error) (made : Result Error Frame)
      → new_frame (output_header c) (take n buffer) ≡ made
      → Goes (pos n) e (send_output send sent n e made)
  send_output-Goes n e (err x) is =
      lost-Forwarded c send sent (record { count = pos n; buffer = buffer; error = e }) rest
        (foreign x) (unframed x is)
  send_output-Goes n e (ok f) is = answered (send sent f) refl
    where
      is_framed : f ≡ framed (output_header c) (take n buffer)
      is_framed = ((new_frame_iff (output_header c) (take n buffer) f).0 is).0

      answered : (a : Option Error) → send sent f ≡ a → Goes (pos n) e (after_send sent f n e a)
      answered (some x) q =
          lost-Forwarded c send sent (record { count = pos n; buffer = buffer; error = e }) rest
            (foreign x) (refused x (ap (send sent) (sym is_framed) ∙ q))
      answered none q = after_output-Goes n e (sent ++ (f ∷ [])) (
          payloads-append sent (f ∷ [])
          ∙ ap (λ r. payloads sent ++ r)
              (append-nil f.payload ∙ ap (λ (g : Frame). g.payload) is_framed))

  output_read-Goes :
      (count : ℤ) (e : Option Error) → Goes count e (output_read c send sent buffer count e)
  output_read-Goes (negsuc n) e =
      lost-Forwarded c send sent (record { count = negsuc n; buffer = buffer; error = e }) rest
        invalid_read_count (negative n refl)
  output_read-Goes (pos n) e =
      if_elim (Goes (pos n) e) (ltb (length buffer) n) _ _
        (λ long.
          lost-Forwarded c send sent (record { count = pos n; buffer = buffer; error = e }) rest
            invalid_read_count (too_long n refl (ground arith)))
        λ fits.
          if_elim (Goes (pos n) e) (ltb 0 n) _ _
            (λ some_bytes. send_output-Goes n e (new_frame (output_header c) (take n buffer)) refl)
            (λ no_bytes.
              let zero_bytes : n ≡ 0 = ground arith in
              after_output-Goes n e sent (
                sym (append-nil (payloads sent))
                ∙ ap (λ k. payloads sent ++ take k buffer) (sym zero_bytes)))

-- `RunOutput` forwards the process's output whole and in order, however it comes in reads: the payloads it
-- sent are all the bytes read, those of the read that ends the output with them, whether that ends in
-- `io.EOF` or in another error, and it returns accordingly; or it returns an error because a read's count
-- is not one of its buffer, no frame can be made of a read, or the sender refuses it, and then all the
-- bytes before that read are sent.
pub run_output-Forwarded :
    (c : BridgeConfig) (send : Sender) (sent : List Frame) (reads : List Read)
    → Forwarded c send sent reads (run_output c send sent reads)
unfolding run_output
run_output-Forwarded c send sent [] = whole sent (sym (append-nil (payloads sent)))
run_output-Forwarded c send sent (r ∷ rest) =
    output_read-Goes c send sent r.buffer rest (λ now. run_output-Forwarded c send now rest) r.count
      r.error

-- What `HandleInput` takes as input, and what the process has been given of it.
abbrev pub Input : BridgeConfig → List ℕ → Frame → Option (List ℕ × Option Error) → Type 0
Input c written f out =
    ((f.header.stream_id ≡ c.stream_id)
      × ((f.header.message_type ≡ c.input_type) × (f.header.flags ≡ flag_event)))
    × Wrote written f.payload out

-- `HandleInput` writes only input events of its own stream to the process: all of the payload where
-- the write succeeds, and a beginning of it where it fails.
pub handle_input-Input :
    (c : BridgeConfig) (w : Writer) (written : List ℕ) (f : Frame)
    (out : Option (List ℕ × Option Error))
    → handle_input c w written f ≡ ok out
    → Input c written f out
unfolding handle_input
handle_input-Input c w written f out e =
    let (here, typed) = else-ok (not (f.header.stream_id == c.stream_id)) _ _ out e in
    let (event, done) =
      else-ok (not (f.header.message_type == c.input_type) || not (f.header.flags == flag_event)) _
        _ out typed in
    (
      (ground arith, (ground arith, ground arith)),
      subst (Wrote written f.payload) (ok-injective done) (write_full-Wrote w written f.payload),
    )
