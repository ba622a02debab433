-- ===== src/Pty/History/Bounds.antt =====
-- The history of pty/manager.go is counted right, and within its two bounds.
use streammux.Base.{
  ℕ, zero, suc, ◌+◌, ◌-◌, ◌≡◌, ◌≢◌, ◌≤◌, ◌<◌, ◌⊎◌, inl, inr, refl, sym, ap, ◌∙◌, subst, Bool, true,
  false, ◌||◌, Option, none, some, List, [], ◌∷◌, length, total, total-append, if◌then◌else◌,
  if_elim, ltb, ◌==◌, arith, none-ne-some, some-injective, ℕ_discrete,
}
use streammux.Base.Map.{
  Map, lookup, insert, keys, Distinct, Each, sum_of, Each-insert, Each-lookup, Distinct-insert,
  lookup-insert, sum_of-insert, sum_of-insert_new, member-keys, inserted, lookup-insert_same,
}
use streammux.Pty.Values.{OutputEvent}
use streammux.Pty.History.{
  Chunk, Kept, History, chunk_bytes, no_history, drop_first, trim_session, older, first_before,
  oldest, trim_oldest, trim_total, count_chunks, kept_of, add_chunk, new_chunk, with_chunk,
  trim_added, append_history, remove_history,
}

abbrev pub IsCounted : ℕ → Kept → Type 0
IsCounted id k = k.bytes ≡ total chunk_bytes k.chunks

-- The counts are those of the chunks kept.
pub record IsHistory (h : History) : Type 0 where
  pub counted : Each IsCounted h.sessions
  pub distinct : Distinct (keys h.sessions)
  pub bytes : h.bytes ≡ sum_of (λ k. k.bytes) h.sessions

-- Every session but the one given is within its bound.
abbrev pub OthersWithin : ℕ → History → Type 0
OthersWithin id h =
    (i : ℕ) (k : Kept) → i ≢ id → lookup i h.sessions ≡ some k → k.bytes ≤ h.session_limit

abbrev pub AllWithin : History → Type 0
AllWithin h = (i : ℕ) (k : Kept) → lookup i h.sessions ≡ some k → k.bytes ≤ h.session_limit

module _ (id : ℕ) (k : Kept) (c : Chunk) (rest : List Chunk) (h : History) (inv : IsHistory h)
    (found : lookup id h.sessions ≡ some k) (first : k.chunks ≡ c ∷ rest) where
  abbrev left : Kept
  left = record { chunks = rest; bytes = k.bytes - chunk_bytes c }

  was : k.bytes ≡ chunk_bytes c + total chunk_bytes rest
  was = Each-lookup IsCounted id k h.sessions inv.counted found ∙ ap (total chunk_bytes) first

  pub drop_first-IsHistory : IsHistory (drop_first id k (c ∷ rest) h)
  unfolding was
  drop_first-IsHistory = record {
    counted = Each-insert IsCounted id left h.sessions inv.counted (omega (arith, was));
    distinct = Distinct-insert id left h.sessions inv.distinct;
    bytes = omega (arith, was, inv.bytes, sum_of-insert (λ x. x.bytes) id left k h.sessions found);
  }

  pub drop_first-chunks :
      count_chunks h.sessions ≡ suc (count_chunks (drop_first id k (c ∷ rest) h).sessions)
  drop_first-chunks =
      let len : length k.chunks ≡ suc (length rest) = ap length first in
      omega (arith, len, sum_of-insert (λ x. length x.chunks) id left k h.sessions found)

  pub drop_first-AllWithin : AllWithin h → AllWithin (drop_first id k (c ∷ rest) h)
  unfolding was
  drop_first-AllWithin within i x e = elim (inserted id i left x h.sessions e) [
    | inl (same, new) ↦
        let smaller : x.bytes ≡ k.bytes - chunk_bytes c = ap (λ (y : Kept). y.bytes) new in
        omega (arith, within id k found, smaller)
    | inr (other, old) ↦ within i x old
  ]

  pub drop_first-OthersWithin : OthersWithin id h → OthersWithin id (drop_first id k (c ∷ rest) h)
  drop_first-OthersWithin within i x other e = elim (inserted id i left x h.sessions e) [
    | inl (same, new) ↦ absurd (other same)
    | inr (_, old) ↦ within i x other old
  ]

-- The state behind the first loop.
pub record Trimmed (id : ℕ) (h h' : History) : Type 0 where
  pub inv : IsHistory h'
  pub within : AllWithin h'
  pub same_session : h'.session_limit ≡ h.session_limit
  pub same_total : h'.total_limit ≡ h.total_limit

stays :
    (id : ℕ) (k : Kept) (h : History)
    → IsHistory h
    → OthersWithin id h
    → lookup id h.sessions ≡ some k
    → k.bytes ≤ h.session_limit
    → Trimmed id h h
stays id k h inv others found small = record {
  inv = inv;
  within = λ i x e. elim (ℕ_discrete i id) [
    | yes same ↦
        let is : k ≡ x =
          some-injective (sym found ∙ ap (λ j. lookup j h.sessions) (sym same) ∙ e) in
        subst (λ (y : Kept). y.bytes ≤ h.session_limit) is small
    | no other ↦ others i x other e
  ];
  same_session = refl;
  same_total = refl;
}

pub trim_session-Trimmed :
    (id bytes : ℕ) (chunks : List Chunk) (h : History)
    → IsHistory h
    → OthersWithin id h
    → lookup id h.sessions ≡ some (record { chunks = chunks; bytes = bytes })
    → Trimmed id h (trim_session id bytes chunks h)
unfolding trim_session
trim_session-Trimmed id bytes [] h inv others found =
    stays id (record { chunks = []; bytes = bytes }) h inv others found
      (omega (
        arith,
        Each-lookup IsCounted id (record { chunks = []; bytes = bytes }) h.sessions inv.counted
            found,
      ))
trim_session-Trimmed id bytes (c ∷ rest) h inv others found =
    let k : Kept = record { chunks = c ∷ rest; bytes = bytes } in
    let h' = drop_first id k (c ∷ rest) h in
    if_elim (Trimmed id h) (ltb h.session_limit bytes) _ _
      (λ over.
        let t =
          trim_session-Trimmed id (bytes - chunk_bytes c) rest h'
            (drop_first-IsHistory id k c rest h inv found refl)
            (drop_first-OthersWithin id k c rest h inv found refl others)
            (ground (arith, lookup-insert id id (left id k c rest h inv found refl) h.sessions)) in
        record {
          inv = t.inv;
          within = t.within;
          same_session = t.same_session;
          same_total = t.same_total;
        })
      (λ small. stays id k h inv others found (ground arith))

-- The sessions that `oldest` has found.
abbrev pub IsFound : Map Kept → ℕ → Kept → Type 0
IsFound m id k = (lookup id m ≡ some k) × (0 < length k.chunks)

picked : (c : Bool) (x y z : ℕ × Kept) → (if c then some x else some y) ≡ some z → (x ≡ z) ⊎ (y ≡ z)
picked true x y z e = inl (some-injective e)
picked false x y z e = inr (some-injective e)

older-some :
    (i : ℕ) (k : Kept) (x : ℕ × Kept) (chunks : List Chunk)
    → (y : ℕ × Kept) × (older i k (some x) chunks ≡ some y)
older-some i k x [] = (x, refl)
older-some i k (other, kept) (c ∷ rest) =
    if_elim (λ (r : Option (ℕ × Kept)). (y : ℕ × Kept) × (r ≡ some y)) (first_before c kept.chunks)
      _ _ (λ h. ((i, k), refl)) (λ h. ((other, kept), refl))

older-cases :
    (i id : ℕ) (k0 k : Kept) (best : Option (ℕ × Kept)) (chunks : List Chunk)
    → older i k0 best chunks ≡ some (id, k)
    → (best ≡ some (id, k)) ⊎ (((i ≡ id) × (k0 ≡ k)) × (0 < length chunks))
older-cases i id k0 k best [] e = inl e
older-cases i id k0 k none (c ∷ rest) e = inr (
  (ap (λ (p : ℕ × Kept). p.0) (some-injective e), ap (λ (p : ℕ × Kept). p.1) (some-injective e)),
  omega arith,
)
older-cases i id k0 k (some (other, kept)) (c ∷ rest) e =
    elim (picked (first_before c kept.chunks) (i, k0) (other, kept) (id, k) e) [
      | inl new ↦
          inr ((ap (λ (p : ℕ × Kept). p.0) new, ap (λ (p : ℕ × Kept). p.1) new), omega arith)
      | inr old ↦ inl (ap (λ p. some p) old)
    ]

pub oldest-IsFound :
    (best : Option (ℕ × Kept)) (m : Map Kept) (id : ℕ) (k : Kept)
    → Distinct (keys m)
    → oldest best m ≡ some (id, k)
    → (best ≡ some (id, k)) ⊎ IsFound m id k
unfolding oldest
oldest-IsFound best [] id k d e = inl e
oldest-IsFound best ((i, k0) ∷ rest) id k d e =
    elim (oldest-IsFound (older i k0 best k0.chunks) rest id k d.1 e) [
      | inl here ↦ elim (older-cases i id k0 k best k0.chunks here) [
        | inl before ↦ inl before
        | inr ((same, is), busy) ↦
            inr (ground arith, subst (λ (x : Kept). 0 < length x.chunks) is busy)
      ]
      | inr (later, busy) ↦ inr (ground (arith, member-keys id rest), busy)
    ]

oldest-some : (x : ℕ × Kept) (m : Map Kept) → oldest (some x) m ≡ none → ⊥
unfolding oldest
oldest-some x [] e = none-ne-some (sym e)
oldest-some x ((i, k) ∷ rest) e =
    let (y, is) = older-some i k x k.chunks in
    oldest-some y rest (sym (ap (λ b. oldest b rest) is) ∙ e)

-- Where no session has a chunk, nothing is counted.
oldest-none : (m : Map Kept) → Each IsCounted m → oldest none m ≡ none → sum_of (λ k. k.bytes) m ≡ 0
unfolding oldest
oldest-none [] each e = refl
oldest-none ((i, k) ∷ rest) each e = head k.chunks refl e (oldest-none rest each.1)
  where
    head :
        (chunks : List Chunk)
        → k.chunks ≡ chunks
        → oldest (older i k none chunks) rest ≡ none
        → (oldest none rest ≡ none → sum_of (λ (x : Kept). x.bytes) rest ≡ 0)
        → k.bytes + sum_of (λ (x : Kept). x.bytes) rest ≡ 0
    head [] is q later =
        let counted : k.bytes ≡ 0 = each.0 ∙ ap (total chunk_bytes) is in
        omega (arith, counted, later q)
    head (c ∷ more) is q later = absurd (oldest-some (i, k) rest q)

total_nothing : (chunks : List Chunk) → length chunks ≡ 0 → total chunk_bytes chunks ≡ 0
total_nothing [] e = refl
total_nothing (c ∷ rest) e = absurd (omega arith)

no_chunks : (m : Map Kept) → Each IsCounted m → count_chunks m ≡ 0 → sum_of (λ k. k.bytes) m ≡ 0
no_chunks [] each e = refl
no_chunks ((i, k) ∷ rest) each e =
    omega (arith, each.0, total_nothing k.chunks (omega arith), no_chunks rest each.1 (omega arith))

-- Within both bounds.
pub record IsWithin (h : History) : Type 0 where
  pub inv : IsHistory h
  pub sessions : AllWithin h
  pub whole : h.bytes ≤ h.total_limit

trim_oldest-IsWithin :
    (n : ℕ) (h : History) (best : Option (ℕ × Kept))
    → IsHistory h
    → AllWithin h
    → count_chunks h.sessions ≤ suc n
    → oldest none h.sessions ≡ best
    → ((h' : History)
        → IsHistory h'
        → AllWithin h'
        → count_chunks h'.sessions ≤ n
        → IsWithin (trim_total n h'))
    → IsWithin (trim_oldest (λ h'. trim_total n h') h best)
trim_oldest-IsWithin n h none inv within few e next = record {
  inv = inv;
  sessions = within;
  whole = omega (arith, inv.bytes, oldest-none h.sessions inv.counted e);
}
trim_oldest-IsWithin n h (some (id, k)) inv within few e next =
    elim (oldest-IsFound none h.sessions id k inv.distinct e) [
      | inl nothing ↦ absurd (none-ne-some nothing)
      | inr (found, busy) ↦ dropped k.chunks refl found busy
    ]
  where
    dropped :
        (chunks : List Chunk)
        → k.chunks ≡ chunks
        → lookup id h.sessions ≡ some k
        → 0 < length k.chunks
        → IsWithin (trim_total n (drop_first id k chunks h))
    dropped [] is found busy =
        let idle : length k.chunks ≡ 0 = ap length is in absurd (omega (arith, busy, idle))
    dropped (c ∷ rest) is found busy =
        next (drop_first id k (c ∷ rest) h) (drop_first-IsHistory id k c rest h inv found is)
          (drop_first-AllWithin id k c rest h inv found is within)
          (omega (arith, few, drop_first-chunks id k c rest h inv found is))

-- As many rounds as there are chunks are enough.
trim_total-IsWithin :
    (n : ℕ) (h : History)
    → IsHistory h
    → AllWithin h
    → count_chunks h.sessions ≤ n
    → IsWithin (trim_total n h)
unfolding trim_total
trim_total-IsWithin zero h inv within few = record {
  inv = inv;
  sessions = within;
  whole = omega (arith, inv.bytes, no_chunks h.sessions inv.counted (omega arith));
}
trim_total-IsWithin (suc n) h inv within few =
    if_elim IsWithin (ltb h.total_limit h.bytes) _ _
      (λ over.
        trim_oldest-IsWithin n h (oldest none h.sessions) inv within few refl
          (trim_total-IsWithin n))
      (λ small. record { inv = inv; sessions = within; whole = ground arith })

kept_of-IsCounted :
    (id : ℕ) (m : Map Kept) (old : Option Kept)
    → Each IsCounted m
    → lookup id m ≡ old
    → IsCounted id (kept_of old)
kept_of-IsCounted id m none each e = refl
kept_of-IsCounted id m (some k) each e = Each-lookup IsCounted id k m each e

-- Replacing what a session keeps, or adding a session, changes the sum by the difference.
sum_of-put :
    (id : ℕ) (v : Kept) (m : Map Kept) (old : Option Kept)
    → lookup id m ≡ old
    → sum_of (λ k. k.bytes) (insert id v m) + (kept_of old).bytes
      ≡ sum_of (λ k. k.bytes) m + v.bytes
sum_of-put id v m none e = omega (arith, sum_of-insert_new (λ k. k.bytes) id v m e)
sum_of-put id v m (some k) e = sum_of-insert (λ x. x.bytes) id v k m e

-- The chunk added counts, and leaves the other sessions alone.
pub add_chunk-IsHistory :
    (id : ℕ) (e : OutputEvent) (h : History) → IsHistory h → IsHistory (add_chunk id e h)
unfolding add_chunk
add_chunk-IsHistory id e h inv =
    let old = kept_of (lookup id h.sessions) in
    let c = new_chunk e h in
    let v = with_chunk c old in
    let was = kept_of-IsCounted id h.sessions (lookup id h.sessions) inv.counted refl in
    record {
      counted =
          Each-insert IsCounted id v h.sessions inv.counted
            (omega (arith, was, total-append chunk_bytes old.chunks (c ∷ [])));
      distinct = Distinct-insert id v h.sessions inv.distinct;
      bytes = omega (arith, inv.bytes, sum_of-put id v h.sessions (lookup id h.sessions) refl);
    }

pub add_chunk-OthersWithin :
    (id : ℕ) (e : OutputEvent) (h : History) → AllWithin h → OthersWithin id (add_chunk id e h)
unfolding add_chunk
add_chunk-OthersWithin id e h within i x other found = elim (inserted id i _ x h.sessions found) [
  | inl (same, _) ↦ absurd (other same)
  | inr (_, old) ↦ within i x old
]

-- `appendHistoryLocked` keeps the history counted, each session's part within `HistoryBytes` and
-- the whole within `MaxTotalHistoryBytes`, whatever output is added to whichever session.
pub append_history-IsWithin :
    (id : ℕ) (e : OutputEvent) (h : History) → IsWithin h → IsWithin (append_history id e h)
unfolding append_history add_chunk
append_history-IsWithin id e h inv =
    let added = add_chunk id e h in
    let v = with_chunk (new_chunk e h) (kept_of (lookup id h.sessions)) in
    let found : lookup id added.sessions ≡ some v = lookup-insert_same id v h.sessions in
    let t =
      trim_session-Trimmed id v.bytes v.chunks added (add_chunk-IsHistory id e h inv.inv)
        (add_chunk-OthersWithin id e h inv.sessions) found in
    if_elim IsWithin (h.session_limit == 0 || h.total_limit == 0) _ _ (λ off. inv)
      λ on.
        subst (λ k. IsWithin (trim_added id (kept_of k) added)) (sym found)
          (trim_total-IsWithin _ (trim_session id v.bytes v.chunks added) t.inv t.within
            (omega arith))

-- Removing a session's history keeps both bounds.
pub remove_history-IsWithin : (id : ℕ) (h : History) → IsWithin h → IsWithin (remove_history id h)
unfolding remove_history
remove_history-IsWithin id h inv =
    let sum = sum_of-put id no_history h.sessions (lookup id h.sessions) refl in
    record {
      inv = record {
        counted = Each-insert IsCounted id no_history h.sessions inv.inv.counted refl;
        distinct = Distinct-insert id no_history h.sessions inv.inv.distinct;
        bytes = omega (arith, inv.inv.bytes, sum);
      };
      sessions = λ i x e. elim (inserted id i no_history x h.sessions e) [
        | inl (_, new) ↦
            let nothing : x.bytes ≡ 0 = ap (λ (y : Kept). y.bytes) new in omega (arith, nothing)
        | inr (_, old) ↦ inv.sessions i x old
      ];
      whole = omega (arith, inv.whole);
    }
