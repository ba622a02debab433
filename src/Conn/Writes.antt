-- ===== src/Conn/Writes.antt =====
-- What the write loop of conn.go puts on the transport.
use streammux.Base.{
  ℕ, ◌≡◌, refl, sym, ap, ◌∙◌, subst, true, Option, none, some, List, [], ◌∷◌, ◌++◌, take, ◌+◌,
  length, take-append_add, take-append_min, if_elim,
}
use Prim.Native.Nat.{min}
use mathlib.Core.List.{append_assoc, append-nil}
use streammux.Errors.{Error, canceled}
use streammux.Frame.{Frame}
use streammux.Codec.{Writer, write_frame}
use streammux.Codec.WriteFull.{Wrote}
use streammux.Codec.RoundTrip.{outgoing, wire, write_frame-Wrote}
use streammux.Conn.{
  Conn, write_request, put_written, set_error, first_error, close, is_closed_pipe, after_close,
  stop_once,
}

-- The bytes of frames, one behind the other.
abbrev pub wires : List Frame → List ℕ
wires [] = []
wires (f ∷ rest) = wire (outgoing f) ++ wires rest

-- The loop over the requests in the order in which it takes them off the queue, until one fails: how
-- it ends, and the connection then.
abbrev pub proceed :
    (Conn → Option (Option Error × Conn))
    → Option (Option Error × Conn)
    → Option (Option Error × Conn)
proceed later none = none
proceed later (some (none, c)) = later c
proceed later (some (some e, c)) = some (some e, c)

abbrev pub write_requests : Writer → List Frame → Conn → Option (Option Error × Conn)
write_requests w [] c = some (none, c)
write_requests w (f ∷ rest) c = proceed (write_requests w rest) (write_request w f c)

-- The error that a connection keeps when it fails: its first one.
pub data KeptError : Option Error → Error → Option Error → Type 0 where
  first : (e : Error) → KeptError none e (some e)
  earlier : (old e : Error) → KeptError (some old) e (some old)

-- What the transport holds behind requests, for a connection with the error `had` before them: all of them
-- and that error as it was, or a beginning of them, the connection canceled and stopped with the first
-- of its error and the one that the sender is told.
abbrev pub Sent : List ℕ → Option Error → List ℕ → Option (Option Error × Conn) → Type 0
Sent before had bytes none = ⊥
Sent before had bytes (some (none, c)) = (c.written ≡ before ++ bytes) × (c.error ≡ had)
Sent before had bytes (some (some e, c)) =
    ((n : ℕ) × (c.written ≡ before ++ take n bytes))
    × (((c.stopped ≡ true) × (c.canceled ≡ true)) × KeptError had e c.error)

first_error-KeptError : (o : Option Error) (e : Error) → KeptError o e (first_error o e)
first_error-KeptError none e = first e
first_error-KeptError (some x) e = earlier x e

put_written-Sent :
    (c : Conn) (bytes : List ℕ) (r : Option (List ℕ × Option Error))
    → Wrote c.written bytes r
    → Sent c.written c.error bytes (put_written c r)
put_written-Sent c bytes none w = w
put_written-Sent c bytes (some (written, none)) w = (w, refl)
put_written-Sent c bytes (some (written, some e)) w =
    (w, ((refl, refl), first_error-KeptError c.error e))

-- One request.
write_request-Sent :
    (w : Writer) (f : Frame) (c : Conn)
    → Sent c.written c.error (wire (outgoing f)) (write_request w f c)
unfolding write_request
write_request-Sent w f c =
    put_written-Sent c (wire (outgoing f)) (write_frame c.config w c.written f)
      (write_frame-Wrote c.config w c.written f)

Sent-shift :
    (before bytes more middle : List ℕ) (had : Option Error) (r : Option (Option Error × Conn))
    → middle ≡ before ++ bytes
    → Sent middle had more r
    → Sent before had (bytes ++ more) r
Sent-shift before bytes more middle had none h s = s
Sent-shift before bytes more middle had (some (none, c)) h (s, same) =
    (s ∙ ap (λ l. l ++ more) h ∙ append_assoc before bytes more, same)
Sent-shift before bytes more middle had (some (some e, c)) h ((n, s), over) = (
  (
    length bytes + n,
    s
        ∙ ap (λ l. l ++ take n more) h
        ∙ append_assoc before bytes (take n more)
        ∙ ap (λ l. before ++ l) (take-append_add n bytes more),
  ),
  over,
)

proceed-Sent :
    (before bytes more : List ℕ) (had : Option Error) (later : Conn → Option (Option Error × Conn))
    (r : Option (Option Error × Conn))
    → Sent before had bytes r
    → ((c : Conn) → Sent c.written c.error more (later c))
    → Sent before had (bytes ++ more) (proceed later r)
proceed-Sent before bytes more had later none s rest = s
proceed-Sent before bytes more had later (some (none, c)) (s, same) rest =
    Sent-shift before bytes more c.written had (later c) s
      (subst (λ o. Sent c.written o more (later c)) same (rest c))
proceed-Sent before bytes more had later (some (some e, c)) ((n, s), over) rest =
    ((min n (length bytes), s ∙ ap (λ l. before ++ l) (sym (take-append_min n bytes more))), over)

-- Whatever the transport answers, the write loop returns from any requests, and the transport holds
-- their frames whole, one behind the other, and the connection's error is as it was; or after an error
-- it holds a beginning of that, nothing behind a broken frame, and the connection is canceled and
-- stopped, with the error that the sender is told unless it had one before, which stays.
pub write_requests-Sent :
    (w : Writer) (fs : List Frame) (c : Conn)
    → Sent c.written c.error (wires fs) (write_requests w fs c)
write_requests-Sent w [] c = (sym (append-nil c.written), refl)
write_requests-Sent w (f ∷ rest) c =
    proceed-Sent c.written (wire (outgoing f)) (wires rest) c.error (write_requests w rest)
      (write_request w f c) (write_request-Sent w f c) (write_requests-Sent w rest)

set_error-keeps : (x e : Error) (c : Conn) → c.error ≡ some e → (set_error x c).error ≡ some e
set_error-keeps x e c h = ap (λ o. first_error o x) h

after_close-keeps :
    (transport : Option Error) (e : Error) (c : Conn)
    → c.error ≡ some e
    → (after_close transport c).error ≡ some e
after_close-keeps none e c h = h
after_close-keeps (some x) e c h =
    if_elim (λ (d : Conn). d.error ≡ some e) (is_closed_pipe x) _ _ (λ _. h)
      (λ _. set_error-keeps x e c h)

-- The first error of a connection stays: closing it keeps an error that it has, whatever the
-- transport says then.
pub close-error :
    (transport : Option Error) (c : Conn) (e : Error)
    → c.error ≡ some e
    → (close transport c).error ≡ some e
unfolding close
close-error transport c e h =
    let canceled_conn : Conn = record c { canceled = true } in
    after_close-keeps transport e (stop_once canceled_conn) (
      if_elim (λ (d : Conn). d.error ≡ some e) c.stopped _ _ (λ _. h)
        (λ _. set_error-keeps canceled e canceled_conn h))
