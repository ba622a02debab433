-- ===== src/Pty/Manager/Replay.antt =====
-- What `Session.Attach` of pty/manager.go replays: no output is left out between the replay and the live
-- output, and none comes twice.
use streammux.Base.{
  ℕ, zero, suc, ◌+◌, ◌-◌, ◌%◌, ◌^◌, ◌≡◌, ◌≤◌, ◌<◌, refl, ap, ◌∙◌, subst, not, ◌&&◌, ◌||◌, List, [],
  ◌∷◌, length, map, drop, length-drop, if◌then◌else◌, ltb, leb, ◌==◌, arith, if_elim,
}
use streammux.Pty.Values.{OutputEvent}
use streammux.Pty.History.{Chunk}
use streammux.Pty.Manager.Attaching.{
  AttachOptions, AttachResult, replay_history, no_replay, add_replay, replay_loop, is_truncated,
  replay_of, wants_history,
}

-- Chunks whose output bears the numbers from `first` on.
abbrev pub IsNumberedFrom : ℕ → List Chunk → Type 0
IsNumberedFrom first [] = Unit {0}
IsNumberedFrom first (c ∷ rest) = (c.event.sequence ≡ first) × IsNumberedFrom (suc first) rest

abbrev pub events_of : List Chunk → List OutputEvent
events_of chunks = map (λ (c : Chunk). c.event) chunks

-- How many of the chunks from `first` on are behind `after` already.
abbrev pub passed : ℕ → ℕ → ℕ
passed first after = suc after - first

-- What the loop makes of chunks that it takes all, from the number `first` on.
record TakesAll (first : ℕ) (chunks : List Chunk) (r : AttachResult)
    (x : List OutputEvent × AttachResult) : Type 0 where
  pub events : x.0 ≡ events_of chunks
  pub begin :
      x.1.replay_first
      ≡ (if length chunks == 0 || not (r.replay_first == 0) then r.replay_first else first)
  pub end :
      x.1.replay_last ≡ (if length chunks == 0 then r.replay_last else first + length chunks - 1)
  pub next : x.1.next_live ≡ r.next_live
  pub cut : x.1.truncated ≡ r.truncated

replay_all :
    (after first : ℕ) (chunks : List Chunk) (r : AttachResult)
    → IsNumberedFrom first chunks
    → after < first
    → TakesAll first chunks r (replay_loop after chunks r)
unfolding replay_loop
replay_all after first [] r numbered before = record {
  events = refl;
  begin = refl;
  end = refl;
  next = refl;
  cut = refl;
}
replay_all after first (c ∷ rest) r (is, numbered) before =
    let t =
      replay_all after (suc first) rest (add_replay c.event r) numbered (omega (arith, before)) in
    if_elim (TakesAll first (c ∷ rest) r) (leb c.event.sequence after) _ _
      (λ old. absurd (ground (arith, old, is, before)))
      λ new. record {
        events = ap (λ es. c.event ∷ es) t.events;
        begin = ground (arith, t.begin, is, before);
        end = ground (arith, t.end, is);
        next = t.next;
        cut = t.cut;
      }

-- The chunks that the caller has are passed over.
replay_behind :
    (n after first : ℕ) (chunks : List Chunk) (r : AttachResult)
    → IsNumberedFrom first chunks
    → first + n ≡ suc after
    → TakesAll (suc after) (drop n chunks) r (replay_loop after chunks r)
unfolding replay_loop
replay_behind zero after first chunks r numbered here =
    let is : first ≡ suc after = omega (arith, here) in
    subst (λ i. TakesAll i chunks r (replay_loop after chunks r)) is
      (replay_all after first chunks r numbered (omega (arith, here)))
replay_behind (suc n) after first [] r numbered here = record {
  events = refl;
  begin = refl;
  end = refl;
  next = refl;
  cut = refl;
}
replay_behind (suc n) after first (c ∷ rest) r (is, numbered) here =
    if_elim (TakesAll (suc after) (drop n rest) r) (leb c.event.sequence after) _ _
      (λ old. replay_behind n after (suc first) rest r numbered (omega (arith, here)))
      (λ new. absurd (ground (arith, new, is, here)))

-- The numbers that a replay starts and ends with.
abbrev pub from_of : ℕ → ℕ → ℕ
from_of first after = if ltb after first then first else suc after

replay_numbered :
    (after first : ℕ) (chunks : List Chunk) (r : AttachResult)
    → IsNumberedFrom first chunks
    → TakesAll
        (from_of first after)
        (drop (passed first after) chunks)
        r
        (replay_loop after chunks r)
replay_numbered after first chunks r numbered =
    if_elim (λ i. TakesAll i (drop (passed first after) chunks) r (replay_loop after chunks r))
      (ltb after first) _ _
      (λ before.
        let none_passed : 0 ≡ passed first after = ground (arith, before) in
        subst (λ n. TakesAll first (drop n chunks) r (replay_loop after chunks r)) none_passed
          (replay_all after first chunks r numbered (ground (arith, before))))
      (λ behind.
        replay_behind (passed first after) after first chunks r numbered (ground (arith, behind)))

-- The replay and the result of an attachment: the output kept behind the number given, up to the last,
-- and the number of the next live output right behind it.
pub record Replayed (after first last : ℕ) (chunks : List Chunk)
    (x : List OutputEvent × AttachResult) : Type 0 where
  pub events : x.0 ≡ events_of (drop (passed first after) chunks)
  pub counted : length x.0 ≡ suc last - from_of first after
  pub begin : x.1.replay_first ≡ (if length x.0 == 0 then 0 else from_of first after)
  pub end : x.1.replay_last ≡ (if length x.0 == 0 then 0 else last)
  pub next : x.1.next_live ≡ suc last
  pub cut : x.1.truncated ≡ (not (length chunks == 0) && ltb (suc after) first)

length-events : (chunks : List Chunk) → length (events_of chunks) ≡ length chunks
length-events [] = refl
length-events (c ∷ rest) = ap suc (length-events rest)

is_truncated-first :
    (after first : ℕ) (chunks : List Chunk)
    → suc after < 2 ^ 64
    → IsNumberedFrom first chunks
    → is_truncated after chunks ≡ (not (length chunks == 0) && ltb (suc after) first)
is_truncated-first after first [] small numbered = refl
is_truncated-first after first (c ∷ rest) small (is, numbered) = ground (arith, is, small)

-- Where a session's history is numbered without a gap up to its last output, an attachment that resumes
-- after a number that is not in the future is replayed every output kept behind that number, once
-- and in order; the result names the first and the last of them, or zeros where there is none; the live output
-- goes on with the next number; and the replay is marked as truncated exactly if there is a history that starts
-- too late.
pub replay_of-Replayed :
    (options : AttachOptions) (first last : ℕ) (chunks : List Chunk)
    → options.replay ≡ replay_history
    → 0 < first
    → first + length chunks ≡ suc last
    → options.resume_after ≤ last
    → suc last < 2 ^ 64
    → IsNumberedFrom first chunks
    → Replayed options.resume_after first last chunks (replay_of options chunks last)
unfolding replay_of
replay_of-Replayed options first last chunks wanted positive whole past small numbered =
    let after = options.resume_after in
    let r = record (no_replay ((last + 1) % 2 ^ 64)) { truncated = is_truncated after chunks } in
    let t = replay_numbered after first chunks r numbered in
    let len : length (replay_loop after chunks r).0 ≡ length chunks - passed first after =
      ap length t.events
      ∙ length-events (drop (passed first after) chunks)
      ∙ length-drop (passed first after) chunks in
    if_elim (Replayed after first last chunks) (wants_history options.replay) _ _
      (λ on. record {
        events = t.events;
        counted = ground (arith, len, whole, past);
        begin = ground (arith, t.begin, len, length-drop (passed first after) chunks);
        end = ground (arith, t.end, len, length-drop (passed first after) chunks, whole, past);
        next = ground (arith, t.next, small);
        cut = t.cut ∙ is_truncated-first after first chunks (omega (arith, past, small)) numbered;
      })
      (λ off. absurd (ground (arith, off, wanted)))
