-- ===== src/Pty/History/Recent.antt =====
-- What the history of pty/manager.go keeps of a session is always the latest of its output.
use streammux.Base.{
  ℕ, zero, suc, ◌+◌, ◌-◌, ◌≡◌, ◌<◌, inl, inr, refl, sym, ap, ◌∙◌, subst, false, ◌||◌, Option, none,
  some, List, [], ◌∷◌, ◌++◌, length, drop, drop-drop, if◌then◌else◌, if_elim, ltb, ◌==◌, arith,
  none-ne-some, ℕ_discrete,
}
use streammux.Base.Map.{Map, lookup, insert, lookup-insert, lookup-insert_same}
use streammux.Pty.Values.{OutputEvent}
use streammux.Pty.History.{
  Chunk, Kept, History, chunk_bytes, drop_first, trim_session, oldest, trim_oldest, trim_total,
  count_chunks, kept_of, add_chunk, new_chunk, with_chunk, trim_added, append_history,
}
use streammux.Pty.History.Bounds.{
  IsHistory, IsWithin, oldest-IsFound, add_chunk-IsHistory, drop_first-IsHistory,
  add_chunk-OthersWithin, trim_session-Trimmed,
}

abbrev pub chunks_at : ℕ → History → List Chunk
chunks_at i h = (kept_of (lookup i h.sessions)).chunks

-- An end of a list.
abbrev pub IsEndOf : List Chunk → List Chunk → Type 0
IsEndOf xs ys = (n : ℕ) × (xs ≡ drop n ys)

IsEndOf-trans : (xs ys zs : List Chunk) → IsEndOf xs ys → IsEndOf ys zs → IsEndOf xs zs
IsEndOf-trans xs ys zs (m, is) (n, of) =
    (n + m, is ∙ ap (drop m) of ∙ drop-drop m n (n + m) zs refl)

-- Of every session an end of its chunks is left.
abbrev Ends : History → History → Type 0
Ends h h' = (i : ℕ) → IsEndOf (chunks_at i h') (chunks_at i h)

Ends-refl : (h : History) → Ends h h
Ends-refl h i = (0, refl)

Ends-trans : (h h' h'' : History) → Ends h h' → Ends h' h'' → Ends h h''
Ends-trans h h' h'' first later i =
    IsEndOf-trans (chunks_at i h'') (chunks_at i h') (chunks_at i h) (later i) (first i)

pub chunks_at-insert :
    (id i : ℕ) (v : Kept) (m : Map Kept)
    → (kept_of (lookup i (insert id v m))).chunks
      ≡ (if id == i then v.chunks else (kept_of (lookup i m)).chunks)
chunks_at-insert id i v m = ground (arith, lookup-insert id i v m)

drop_first-Ends :
    (id : ℕ) (k : Kept) (c : Chunk) (rest : List Chunk) (h : History)
    → lookup id h.sessions ≡ some k
    → k.chunks ≡ c ∷ rest
    → Ends h (drop_first id k (c ∷ rest) h)
drop_first-Ends id k c rest h found first i =
    subst (λ xs. IsEndOf xs (chunks_at i h))
      (sym (
        chunks_at-insert id i (record { chunks = rest; bytes = k.bytes - chunk_bytes c })
          h.sessions))
      (elim (ℕ_discrete id i) [
        | yes same ↦
            let was : chunks_at i h ≡ c ∷ rest =
              ap (λ j. chunks_at j h) (sym same) ∙ ap (λ o. (kept_of o).chunks) found ∙ first in
            (1, ground (arith, same) ∙ ap (drop 1) (sym was))
        | no other ↦ (0, ground (arith, other))
      ])

trim_session-Ends :
    (id bytes : ℕ) (chunks : List Chunk) (h : History)
    → lookup id h.sessions ≡ some (record { chunks = chunks; bytes = bytes })
    → Ends h (trim_session id bytes chunks h)
unfolding trim_session
trim_session-Ends id bytes [] h found = Ends-refl h
trim_session-Ends id bytes (c ∷ rest) h found =
    let k : Kept = record { chunks = c ∷ rest; bytes = bytes } in
    let h' = drop_first id k (c ∷ rest) h in
    let left : Kept = record { chunks = rest; bytes = bytes - chunk_bytes c } in
    if_elim (Ends h) (ltb h.session_limit bytes) _ _
      (λ over.
        Ends-trans h h' (trim_session id (bytes - chunk_bytes c) rest h')
          (drop_first-Ends id k c rest h found refl)
          (trim_session-Ends id (bytes - chunk_bytes c) rest h'
            (lookup-insert_same id left h.sessions)))
      (λ small. Ends-refl h)

drop_oldest-Ends :
    (n id : ℕ) (k : Kept) (chunks : List Chunk) (h : History)
    → IsHistory h
    → k.chunks ≡ chunks
    → lookup id h.sessions ≡ some k
    → 0 < length k.chunks
    → ((h' : History) → IsHistory h' → Ends h' (trim_total n h'))
    → Ends h (trim_total n (drop_first id k chunks h))
drop_oldest-Ends n id k [] h inv is found busy next =
    let idle : length k.chunks ≡ 0 = ap length is in absurd (omega (arith, busy, idle))
drop_oldest-Ends n id k (c ∷ rest) h inv is found busy next =
    let h' = drop_first id k (c ∷ rest) h in
    Ends-trans h h' (trim_total n h') (drop_first-Ends id k c rest h found is)
      (next h' (drop_first-IsHistory id k c rest h inv found is))

trim_oldest-Ends :
    (n : ℕ) (h : History) (best : Option (ℕ × Kept))
    → IsHistory h
    → oldest none h.sessions ≡ best
    → ((h' : History) → IsHistory h' → Ends h' (trim_total n h'))
    → Ends h (trim_oldest (λ h'. trim_total n h') h best)
trim_oldest-Ends n h none inv e next = Ends-refl h
trim_oldest-Ends n h (some (id, k)) inv e next =
    elim (oldest-IsFound none h.sessions id k inv.distinct e) [
      | inl nothing ↦ absurd (none-ne-some nothing)
      | inr (found, busy) ↦ drop_oldest-Ends n id k k.chunks h inv refl found busy next
    ]

trim_total-Ends : (n : ℕ) (h : History) → IsHistory h → Ends h (trim_total n h)
unfolding trim_total
trim_total-Ends zero h inv = Ends-refl h
trim_total-Ends (suc n) h inv =
    if_elim (Ends h) (ltb h.total_limit h.bytes) _ _
      (λ over. trim_oldest-Ends n h (oldest none h.sessions) inv refl (trim_total-Ends n))
      (λ small. Ends-refl h)

add_chunk-chunks :
    (id : ℕ) (e : OutputEvent) (h : History) (i : ℕ)
    → chunks_at i (add_chunk id e h)
      ≡ (if id == i then chunks_at id h ++ (new_chunk e h ∷ []) else chunks_at i h)
unfolding add_chunk
add_chunk-chunks id e h i =
    chunks_at-insert id i (with_chunk (new_chunk e h) (kept_of (lookup id h.sessions))) h.sessions

-- Where output is kept at all, what is kept of a session behind new output is an end of what was kept before,
-- with the new output behind it if it is that session's: whatever the loops drop, each session's oldest
-- goes first, nothing is left out in between and nothing changes its place.
pub append_history-IsEndOf :
    (id : ℕ) (e : OutputEvent) (h : History)
    → IsWithin h
    → (h.session_limit == 0 || h.total_limit == 0) ≡ false
    → (i : ℕ)
    → IsEndOf
        (chunks_at i (append_history id e h))
        (if id == i then chunks_at id h ++ (new_chunk e h ∷ []) else chunks_at i h)
unfolding append_history add_chunk
append_history-IsEndOf id e h inv on i =
    let added = add_chunk id e h in
    let v = with_chunk (new_chunk e h) (kept_of (lookup id h.sessions)) in
    let found : lookup id added.sessions ≡ some v = lookup-insert_same id v h.sessions in
    let t =
      trim_session-Trimmed id v.bytes v.chunks added (add_chunk-IsHistory id e h inv.inv)
        (add_chunk-OthersWithin id e h inv.sessions) found in
    let trimmed = trim_session id v.bytes v.chunks added in
    let ends : Ends added (trim_added id v added) =
      Ends-trans added trimmed (trim_added id v added)
        (trim_session-Ends id v.bytes v.chunks added found)
        (trim_total-Ends (count_chunks trimmed.sessions) trimmed t.inv) in
    subst (IsEndOf (chunks_at i (append_history id e h))) (add_chunk-chunks id e h i) (
      if_elim (λ (x : History). IsEndOf (chunks_at i x) (chunks_at i added))
        (h.session_limit == 0 || h.total_limit == 0) _ _ (λ off. absurd (ground (arith, on, off)))
        λ _.
          subst (λ k. IsEndOf (chunks_at i (trim_added id (kept_of k) added)) (chunks_at i added))
            (sym found) (ends i))

-- The bounds stay as they are.
abbrev pub SameBounds : History → History → Type 0
SameBounds h h' = (h'.session_limit ≡ h.session_limit) × (h'.total_limit ≡ h.total_limit)

drop_first-SameBounds :
    (id : ℕ) (k : Kept) (chunks : List Chunk) (h : History)
    → SameBounds h (drop_first id k chunks h)
drop_first-SameBounds id k [] h = (refl, refl)
drop_first-SameBounds id k (c ∷ rest) h = (refl, refl)

trim_session-SameBounds :
    (id bytes : ℕ) (chunks : List Chunk) (h : History)
    → SameBounds h (trim_session id bytes chunks h)
unfolding trim_session
trim_session-SameBounds id bytes [] h = (refl, refl)
trim_session-SameBounds id bytes (c ∷ rest) h =
    if_elim (SameBounds h) (ltb h.session_limit bytes) _ _
      (λ _.
        trim_session-SameBounds id (bytes - chunk_bytes c) rest
          (drop_first id (record { chunks = c ∷ rest; bytes = bytes }) (c ∷ rest) h))
      (λ _. (refl, refl))

trim_oldest-SameBounds :
    (n : ℕ) (h : History) (best : Option (ℕ × Kept))
    → ((h' : History) → SameBounds h' (trim_total n h'))
    → SameBounds h (trim_oldest (λ h'. trim_total n h') h best)
trim_oldest-SameBounds n h none next = (refl, refl)
trim_oldest-SameBounds n h (some (id, k)) next =
    let first = drop_first-SameBounds id k k.chunks h in
    let later = next (drop_first id k k.chunks h) in (later.0 ∙ first.0, later.1 ∙ first.1)

trim_total-SameBounds : (n : ℕ) (h : History) → SameBounds h (trim_total n h)
unfolding trim_total
trim_total-SameBounds zero h = (refl, refl)
trim_total-SameBounds (suc n) h =
    if_elim (SameBounds h) (ltb h.total_limit h.bytes) _ _
      (λ _. trim_oldest-SameBounds n h (oldest none h.sessions) (trim_total-SameBounds n))
      (λ _. (refl, refl))

trim_added-SameBounds : (id : ℕ) (k : Kept) (h : History) → SameBounds h (trim_added id k h)
trim_added-SameBounds id k h =
    let first = trim_session-SameBounds id k.bytes k.chunks h in
    let trimmed = trim_session id k.bytes k.chunks h in
    let later = trim_total-SameBounds (count_chunks trimmed.sessions) trimmed in
    (later.0 ∙ first.0, later.1 ∙ first.1)

pub append_history-SameBounds :
    (id : ℕ) (e : OutputEvent) (h : History) → SameBounds h (append_history id e h)
unfolding append_history add_chunk
append_history-SameBounds id e h =
    if_elim (SameBounds h) (h.session_limit == 0 || h.total_limit == 0) _ _ (λ _. (refl, refl))
      (λ _.
        trim_added-SameBounds id (kept_of (lookup id (add_chunk id e h).sessions))
          (add_chunk id e h))
