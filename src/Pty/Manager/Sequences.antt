-- ===== src/Pty/Manager/Sequences.antt =====
-- The numbers of the output that pty/manager.go keeps of a session: one by one, up to the session's last.
use streammux.Base.{
  ℕ, zero, suc, ◌≡◌, refl, ◌≢◌, sym, ap, ◌∙◌, subst, Bool, true, false, ◌||◌, Option, none, some,
  List, [], ◌∷◌, ◌++◌, drop, length, if◌then◌else◌, ◌==◌, arith, if_elim, if_true, if_false,
  Bool-cases, ltb, ℕ_discrete, inl, inr,
}
use streammux.Base.Map.{Map, lookup, insert, delete, keys, Distinct, lookup-insert, lookup-delete}
use streammux.Pty.Values.{OutputEvent}
use streammux.Pty.History.{Chunk, History, append_history, remove_history, new_chunk, data_limit}
use streammux.Pty.History.Bounds.{IsWithin}
use streammux.Pty.History.Recent.{
  chunks_at, append_history-IsEndOf, append_history-SameBounds, chunks_at-insert,
}
use streammux.Pty.Manager.{Session, tick}

-- Each chunk one number behind the one before, the last with the number given.
abbrev pub IsTicked : List Chunk → ℕ → Type 0
IsTicked [] last = Unit {0}
IsTicked (c ∷ []) last = c.event.sequence ≡ last
IsTicked (c ∷ d ∷ rest) last = (d.event.sequence ≡ tick c.event.sequence) × IsTicked (d ∷ rest) last

IsTicked-tail :
    (c : Chunk) (rest : List Chunk) (last : ℕ) → IsTicked (c ∷ rest) last → IsTicked rest last
IsTicked-tail c [] last h = tt
IsTicked-tail c (d ∷ rest) last h = h.1

IsTicked-drop : (n : ℕ) (xs : List Chunk) (last : ℕ) → IsTicked xs last → IsTicked (drop n xs) last
IsTicked-drop zero xs last h = h
IsTicked-drop (suc n) [] last h = tt
IsTicked-drop (suc n) (x ∷ xs) last h = IsTicked-drop n xs last (IsTicked-tail x xs last h)

IsTicked-snoc :
    (xs : List Chunk) (c : Chunk) (last : ℕ)
    → IsTicked xs last
    → c.event.sequence ≡ tick last
    → IsTicked (xs ++ (c ∷ [])) (tick last)
IsTicked-snoc [] c last h e = e
IsTicked-snoc (x ∷ []) c last h e = (e ∙ ap tick (sym h), e)
IsTicked-snoc (x ∷ y ∷ rest) c last h e = (h.0, IsTicked-snoc (y ∷ rest) c last h.1 e)

-- The last number of a session, if there is one.
abbrev pub last_of : Option Session → Option ℕ
last_of none = none
last_of (some s) = some s.last_sequence

-- What is kept for an ID: numbered up to the last of its session, and nothing where there is none.
abbrev pub IsRecordedAt : Option ℕ → List Chunk → Type 0
IsRecordedAt none xs = xs ≡ []
IsRecordedAt (some last) xs = IsTicked xs last

abbrev pub is_off : History → Bool
is_off h = h.session_limit == 0 || h.total_limit == 0

pub record IsRecorded (ss : Map Session) (h : History) : Type 0 where
  pub each : (k : ℕ) → IsRecordedAt (last_of (lookup k ss)) (chunks_at k h)
  pub off : is_off h ≡ true → (k : ℕ) → chunks_at k h ≡ []

-- The sessions have the numbers that they had.
abbrev pub SameLast : Map Session → Map Session → Type 0
SameLast ss ss' = (k : ℕ) → last_of (lookup k ss') ≡ last_of (lookup k ss)

at_key : (k j : ℕ) (v : Session) (m : Map Session) → k ≡ j → lookup j (insert k v m) ≡ some v
at_key k j v m here = ground (arith, here, lookup-insert k j v m)

off_key : (k j : ℕ) (v : Session) (m : Map Session) → k ≢ j → lookup j (insert k v m) ≡ lookup j m
off_key k j v m other = ground (arith, other, lookup-insert k j v m)

pub insert-SameLast :
    (k : ℕ) (s s' : Session) (ss : Map Session)
    → lookup k ss ≡ some s
    → s'.last_sequence ≡ s.last_sequence
    → SameLast ss (insert k s' ss)
insert-SameLast k s s' ss found same j = elim (ℕ_discrete k j) [
  | yes here ↦
      ap last_of (at_key k j s' ss here)
      ∙ ap some same
      ∙ sym (ap last_of (ap (λ i. lookup i ss) (sym here) ∙ found))
  | no other ↦ ap last_of (off_key k j s' ss other)
]

pub same-IsRecorded :
    (ss ss' : Map Session) (h : History) → IsRecorded ss h → SameLast ss ss' → IsRecorded ss' h
same-IsRecorded ss ss' h r same = record {
  each = λ k. subst (λ o. IsRecordedAt o (chunks_at k h)) (sym (same k)) (r.each k);
  off = r.off;
}

-- A new session starts with nothing.
pub fresh-IsRecorded :
    (k : ℕ) (s : Session) (ss : Map Session) (h : History)
    → IsRecorded ss h
    → lookup k ss ≡ none
    → IsRecorded (insert k s ss) h
fresh-IsRecorded k s ss h r fresh = record {
  each = λ j. elim (ℕ_discrete k j) [
    | yes here ↦
        let nothing : chunks_at j h ≡ [] =
          subst (λ o. IsRecordedAt o (chunks_at j h))
            (ap last_of (ap (λ i. lookup i ss) (sym here) ∙ fresh)) (r.each j) in
        subst (λ o. IsRecordedAt o (chunks_at j h)) (sym (ap last_of (at_key k j s ss here)))
          (subst (λ xs. IsTicked xs s.last_sequence) (sym nothing) tt)
    | no other ↦
        subst (λ o. IsRecordedAt o (chunks_at j h)) (sym (ap last_of (off_key k j s ss other)))
          (r.each j)
  ];
  off = r.off;
}

chunks_at-remove :
    (k j : ℕ) (h : History)
    → chunks_at j (remove_history k h) ≡ (if k == j then [] else chunks_at j h)
unfolding remove_history
chunks_at-remove k j h = chunks_at-insert k j (record { chunks = []; bytes = 0 }) h.sessions

gone_key : (k j : ℕ) (m : Map Session) → Distinct (keys m) → k ≡ j → lookup j (delete k m) ≡ none
gone_key k j m d here = ground (arith, here, lookup-delete k j m d)

kept_key :
    (k j : ℕ) (m : Map Session) → Distinct (keys m) → k ≢ j → lookup j (delete k m) ≡ lookup j m
kept_key k j m d other = ground (arith, other, lookup-delete k j m d)

pub gone_chunks : (k j : ℕ) (h : History) → k ≡ j → chunks_at j (remove_history k h) ≡ []
gone_chunks k j h here = ground (arith, here, chunks_at-remove k j h)

pub chunks_of_others :
    (k j : ℕ) (h : History) → k ≢ j → chunks_at j (remove_history k h) ≡ chunks_at j h
chunks_of_others k j h other = ground (arith, other, chunks_at-remove k j h)

-- A session goes with its history.
pub delete-IsRecorded :
    (k : ℕ) (ss : Map Session) (h : History)
    → IsRecorded ss h
    → Distinct (keys ss)
    → IsRecorded (delete k ss) (remove_history k h)
unfolding remove_history
delete-IsRecorded k ss h r distinct = record {
  each = λ j. elim (ℕ_discrete k j) [
    | yes here ↦
        subst (λ o. IsRecordedAt o (chunks_at j (remove_history k h)))
          (sym (ap last_of (gone_key k j ss distinct here))) (gone_chunks k j h here)
    | no other ↦
        subst (λ o. IsRecordedAt o (chunks_at j (remove_history k h)))
          (sym (ap last_of (kept_key k j ss distinct other)))
          (subst (IsRecordedAt (last_of (lookup j ss))) (sym (chunks_of_others k j h other))
            (r.each j))
  ];
  off = λ on j. ground (arith, r.off on j, chunks_at-remove k j h);
}

append-off : (id : ℕ) (e : OutputEvent) (h : History) → is_off h ≡ true → append_history id e h ≡ h
unfolding append_history
append-off id e h off = if_true (is_off h) _ _ off

new_chunk-sequence : (e : OutputEvent) (h : History) → (new_chunk e h).event.sequence ≡ e.sequence
new_chunk-sequence e h =
    if_elim (λ (x : OutputEvent). x.sequence ≡ e.sequence)
      (ltb (data_limit h) (length e.data_bytes)) _ _ (λ _. refl) (λ _. refl)

module _ (id : ℕ) (s s' : Session) (e : OutputEvent) (ss : Map Session) (h : History)
    (r : IsRecorded ss h) (within : IsWithin h) (found : lookup id ss ≡ some s)
    (next : s'.last_sequence ≡ tick s.last_sequence)
    (numbered : e.sequence ≡ tick s.last_sequence) where
  is_ticked : IsTicked (chunks_at id h) s.last_sequence
  is_ticked = subst (λ o. IsRecordedAt (last_of o) (chunks_at id h)) found (r.each id)

  -- The chunks behind the new output.
  appended_here :
      is_off h ≡ false
      → (j : ℕ) → id ≡ j
      → IsTicked (chunks_at j (append_history id e h)) s'.last_sequence
  unfolding is_ticked
  appended_here on j here =
      let (n, is) = append_history-IsEndOf id e h within on j in
      let all : (if id == j then chunks_at id h ++ (new_chunk e h ∷ []) else chunks_at j h)
          ≡ chunks_at id h ++ (new_chunk e h ∷ []) =
        if_true (id == j) _ _ (ground (arith, here)) in
      subst (λ xs. IsTicked xs s'.last_sequence) (sym (is ∙ ap (drop n) all))
        (IsTicked-drop n (chunks_at id h ++ (new_chunk e h ∷ [])) s'.last_sequence (
          subst (IsTicked (chunks_at id h ++ (new_chunk e h ∷ []))) (sym next) (
            IsTicked-snoc (chunks_at id h) (new_chunk e h) s.last_sequence is_ticked
              (new_chunk-sequence e h ∙ numbered))))

  IsRecordedAt-drop :
      (n : ℕ) (o : Option ℕ) (xs : List Chunk) → IsRecordedAt o xs → IsRecordedAt o (drop n xs)
  IsRecordedAt-drop n none xs h = ap (drop n) h ∙ nothing n
    where
      nothing : (n : ℕ) → ◌≡◌ {A = List Chunk} (drop n []) []
      nothing zero = refl
      nothing (suc n) = refl
  IsRecordedAt-drop n (some last) xs h = IsTicked-drop n xs last h

  appended_there :
      is_off h ≡ false
      → (j : ℕ) → id ≢ j
      → IsRecordedAt (last_of (lookup j ss)) (chunks_at j (append_history id e h))
  appended_there on j other =
      let (n, is) = append_history-IsEndOf id e h within on j in
      let own : (if id == j then chunks_at id h ++ (new_chunk e h ∷ []) else chunks_at j h)
          ≡ chunks_at j h =
        if_false (id == j) _ _ (ground (arith, other)) in
      subst (IsRecordedAt (last_of (lookup j ss))) (sym (is ∙ ap (drop n) own))
        (IsRecordedAt-drop n (last_of (lookup j ss)) (chunks_at j h) (r.each j))

  pub append-IsRecorded : IsRecorded (insert id s' ss) (append_history id e h)
  append-IsRecorded = elim (Bool-cases (is_off h)) [
    | inl off ↦ subst (IsRecorded (insert id s' ss)) (sym (append-off id e h off)) (record {
      each = λ j. elim (ℕ_discrete id j) [
        | yes here ↦
            subst (λ o. IsRecordedAt o (chunks_at j h)) (sym (ap last_of (at_key id j s' ss here)))
              (subst (λ xs. IsTicked xs s'.last_sequence) (sym (r.off off j)) tt)
        | no other ↦
            subst (λ o. IsRecordedAt o (chunks_at j h))
              (sym (ap last_of (off_key id j s' ss other))) (r.each j)
      ];
      off = r.off;
    })
    | inr on ↦
        let (a, b) = append_history-SameBounds id e h in
        record {
          each = λ j. elim (ℕ_discrete id j) [
            | yes here ↦
                subst (λ o. IsRecordedAt o (chunks_at j (append_history id e h)))
                  (sym (ap last_of (at_key id j s' ss here))) (appended_here on j here)
            | no other ↦
                subst (λ o. IsRecordedAt o (chunks_at j (append_history id e h)))
                  (sym (ap last_of (off_key id j s' ss other))) (appended_there on j other)
          ];
          off = λ off. absurd (ground (arith, off, on, a, b));
        }
  ]
