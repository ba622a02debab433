-- ===== src/Peer/Calls/Reserve.antt =====
-- `reservePending` of peer.go hands out a fresh ID, and always finds one where few are in use.
use streammux.Base.{
  ℕ, zero, suc, ◌+◌, ◌%◌, ◌<◌, ◌≡◌, ◌≢◌, refl, sym, ap, ◌∙◌, subst, true, false, none, some, List,
  ◌∷◌, ◌++◌, length, arith, inl, inr, Option-cases, Bool-cases, length-append, some-injective,
  none-ne-some,
}
use streammux.Base.Map.{
  lookup-insert, lookup, insert, member, keys, member-append, member-keys, length-keys, pigeonhole,
}
use streammux.Peer.Calls.{
  Calls, Pending, blank, following, is_free, reserve_loop, reserve, attempts, u64_mod, fill_in,
}
use streammux.Peer.Calls.Invariant.{IsCalls, next-IsCalls, taken-IsCalls}

-- What a successful `reservePending` has done.
pub record Reserved (max : ℕ) (c : Calls) (id : ℕ) (c' : Calls) : Type 0 where
  pub nonzero : id ≢ 0
  pub range : id < u64_mod
  pub no_call : lookup id c.pending ≡ none
  pub no_tombstone : lookup id c.canceled ≡ none
  pub entered : c'.pending ≡ insert id blank c.pending
  pub kept : (c'.canceled ≡ c.canceled) × (c'.canceled_order ≡ c.canceled_order)
  pub inv : IsCalls max c'

first-Reserved :
    (max : ℕ) (c : Calls)
    → IsCalls max c
    → is_free c (following c.next) ≡ true
    → Reserved max c
        (following c.next)
        (record c { next = following c.next; pending = insert (following c.next) blank c.pending })
first-Reserved max c inv free = record {
  nonzero = ground arith;
  range = omega arith;
  no_call = ground arith;
  no_tombstone = ground arith;
  entered = refl;
  kept = (refl, refl);
  inv = taken-IsCalls max c inv free;
}

later-Reserved :
    (max : ℕ) (c c' : Calls) (id : ℕ)
    → Reserved max (record c { next = following c.next }) id c'
    → Reserved max c id c'
later-Reserved max c c' id r = record {
  nonzero = r.nonzero;
  range = r.range;
  no_call = r.no_call;
  no_tombstone = r.no_tombstone;
  entered = r.entered;
  kept = r.kept;
  inv = r.inv;
}

reserve_loop-Reserved :
    (n max : ℕ) (c c' : Calls) (id : ℕ)
    → IsCalls max c
    → reserve_loop n c ≡ some (id, c')
    → Reserved max c id c'
unfolding reserve_loop
reserve_loop-Reserved zero max c c' id inv e = absurd (none-ne-some e)
reserve_loop-Reserved (suc n) max c c' id inv e = elim (Bool-cases (is_free c (following c.next))) [
  | inl free ↦
      subst (λ q. Reserved max c q.0 q.1) (some-injective (rw (free, reserve_loop) at e))
        (first-Reserved max c inv free)
  | inr used ↦ later-Reserved max c c' id (
      reserve_loop-Reserved n max (record c { next = following c.next }) c' id
        (next-IsCalls max c inv) (rw (used, reserve_loop) at e))
]

-- A successful `reservePending` returns an ID that is not 0 and that neither a call nor a tombstone
-- uses, enters it among the calls, and changes nothing else in the tables.
pub reserve-Reserved :
    (max : ℕ) (c c' : Calls) (id : ℕ)
    → IsCalls max c
    → reserve c ≡ some (id, c')
    → Reserved max c id c'
unfolding reserve
reserve-Reserved max c c' id inv e = reserve_loop-Reserved attempts max c c' id inv e

-- The IDs that are tried, in order.
nth_id : ℕ → ℕ → ℕ
nth_id zero s = following s
nth_id (suc i) s = nth_id i (following s)

nth_id_lem : (i s : ℕ) → s < u64_mod → nth_id i s ≡ (s + i + 1) % u64_mod
unfolding nth_id
nth_id_lem zero s h = omega arith
nth_id_lem (suc i) s h = omega (arith, nth_id_lem i (following s) (omega arith))

nth_id-injective :
    (s : ℕ) → s < u64_mod → (i j : ℕ) → i < u64_mod → j < u64_mod → nth_id i s ≡ nth_id j s → i ≡ j
nth_id-injective s h i j hi hj e = omega (arith, nth_id_lem i s h, nth_id_lem j s h)

-- The IDs that may not be handed out.
abbrev used_ids : Calls → List ℕ
used_ids c = 0 ∷ (keys c.pending ++ keys c.canceled)

used-member : (c : Calls) (id : ℕ) → is_free c id ≡ false → member id (used_ids c) ≡ true
used-member c id h = ground (
  arith,
  member-append id (keys c.pending) (keys c.canceled),
  member-keys id c.pending,
  member-keys id c.canceled,
)

reserve_loop_fails :
    (n : ℕ) (c : Calls)
    → reserve_loop n c ≡ none
    → (i : ℕ) → i < n
    → member (nth_id i c.next) (used_ids c) ≡ true
unfolding reserve_loop nth_id
reserve_loop_fails zero c e i h = absurd (omega arith)
reserve_loop_fails (suc n) c e zero h = elim (Bool-cases (is_free c (following c.next))) [
  | inl free ↦ absurd (none-ne-some (sym (rw (free, reserve_loop) at e)))
  | inr used ↦ used-member c (following c.next) used
]
reserve_loop_fails (suc n) c e (suc i) h = elim (Bool-cases (is_free c (following c.next))) [
  | inl free ↦ absurd (none-ne-some (sym (rw (free, reserve_loop) at e)))
  | inr used ↦
      reserve_loop_fails n (record c { next = following c.next }) (rw (used, reserve_loop) at e) i
        (omega arith)
]

reserve_loop-total :
    (n : ℕ) (c : Calls)
    → c.next < u64_mod
    → n < u64_mod
    → length c.pending + length c.canceled + 1 < n
    → (r : ℕ × Calls) × (reserve_loop n c ≡ some r)
reserve_loop-total n c range small room = elim (Option-cases (reserve_loop n c)) [
  | inr (r, e) ↦ (r, e)
  | inl e ↦ absurd (
      omega (
        arith,
        pigeonhole n (λ i. nth_id i c.next) (used_ids c) (reserve_loop_fails n c e)
            (λ i j hi hj. nth_id-injective c.next range i j (omega arith) (omega arith)),
        length-append (keys c.pending) (keys c.canceled),
        length-keys c.pending,
        length-keys c.canceled,
      ))
]

-- On consistent tables `reservePending` finds an ID before it runs out of attempts, as long as calls and tombstones
-- together leave two of the 2 ^ 64 - 1 IDs free.
pub reserve-total :
    (max : ℕ) (c : Calls)
    → IsCalls max c
    → length c.pending + length c.canceled + 1 < attempts
    → (r : ℕ × Calls) × (reserve c ≡ some r)
unfolding reserve
reserve-total max c inv room = reserve_loop-total attempts c inv.next_range (omega arith) room

-- `Call` finds the entry that it has just reserved still there, if nothing came in between.
pub fill_in-reserve :
    (max : ℕ) (c c' : Calls) (id : ℕ) (p : Pending)
    → IsCalls max c
    → reserve c ≡ some (id, c')
    → fill_in id p c' ≡ some (record c' { pending = insert id p c'.pending })
unfolding fill_in
fill_in-reserve max c c' id p inv e =
    let r = reserve-Reserved max c c' id inv e in
    let found : lookup id c'.pending ≡ some blank =
      ap (lookup id) r.entered ∙ lookup-insert id id blank c.pending ∙ ground arith in
    rw (found, fill_in)
