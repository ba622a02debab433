-- ===== src/Peer/Calls/Tombstones.antt =====
-- `abandonPending` of peer.go and the late responses that its tombstones take.
use streammux.Base.{
  ℕ, suc, ◌≤◌, ◌<◌, ◌≡◌, refl, ap, ◌∙◌, subst, true, false, none, some, List, [], ◌∷◌, ◌++◌, ltb,
  length, arith, is_some, inl, inr, Option-cases, Bool-cases, length-append,
}
use streammux.Base.Map.{
  lookup, insert, delete, member, Distinct, keys, remove_key, Distinct-insert, Distinct-remove_key,
  keys-delete, lookup-insert, lookup-delete, member-append, Distinct-snoc,
}
use streammux.Frame.{Header}
use streammux.Peer.Calls.{
  Pending, Calls, abandon, trim, resolve, delivered, absorbed, unexpected, matches, resolve_pending,
  resolve_canceled,
}
use streammux.Peer.Calls.Invariant.{IsCalls}

-- The calls behind the first part of `abandonPending`, with one tombstone too many perhaps.
abbrev buried : ℕ → Pending → Calls → Calls
buried id p c = record c {
  pending = delete id c.pending;
  canceled = insert id p c.canceled;
  canceled_order = c.canceled_order ++ (id ∷ []);
}

buried-IsCalls :
    (max id : ℕ) (p : Pending) (c : Calls)
    → IsCalls max c
    → lookup id c.pending ≡ some p
    → IsCalls (suc max) (buried id p c)
buried-IsCalls max id p c inv found =
    let fresh : lookup id c.canceled ≡ none = inv.apart id (ap is_some found) in
    let unlisted : member id c.canceled_order ≡ false = inv.tracked id ∙ ap is_some fresh in
    record {
      calls = rw (keys-delete id c.pending) (Distinct-remove_key id (keys c.pending) inv.calls);
      tombstones = Distinct-insert id p c.canceled inv.tombstones;
      ordered = Distinct-snoc id c.canceled_order inv.ordered unlisted;
      tracked = λ k. ground (
        arith,
        inv.tracked k,
        member-append k c.canceled_order (id ∷ []),
        lookup-insert id k p c.canceled,
      );
      bounded = omega (arith, inv.bounded, length-append c.canceled_order (id ∷ []));
      apart = λ k q. ground (
        arith,
        inv.apart k,
        lookup-delete id k c.pending inv.calls,
        lookup-insert id k p c.canceled,
      );
      nonzero = ground (
        arith,
        inv.nonzero,
        lookup-delete id 0 c.pending inv.calls,
        lookup-insert id 0 p c.canceled,
      );
      next_range = inv.next_range;
    }

trim-IsCalls :
    (max : ℕ) (c : Calls) (order : List ℕ)
    → c.canceled_order ≡ order
    → IsCalls (suc max) c
    → IsCalls max (trim max c order)
trim-IsCalls max c [] e inv = record {
  calls = inv.calls;
  tombstones = inv.tombstones;
  ordered = inv.ordered;
  tracked = inv.tracked;
  bounded = rw e (omega arith);
  apart = inv.apart;
  nonzero = inv.nonzero;
  next_range = inv.next_range;
}
trim-IsCalls max c (oldest ∷ rest) e inv =
    let full : length (oldest ∷ rest) ≤ suc max = subst (λ l. length l ≤ suc max) e inv.bounded in
    let ordered : Distinct (oldest ∷ rest) = subst Distinct e inv.ordered in
    let tracked : (k : ℕ) → member k (oldest ∷ rest) ≡ is_some (lookup k c.canceled) =
      subst (λ l. (k : ℕ) → member k l ≡ is_some (lookup k c.canceled)) e inv.tracked in
    elim (Bool-cases (ltb max (length (oldest ∷ rest)))) [
      | inr fits ↦ rw fits (record {
        calls = inv.calls;
        tombstones = inv.tombstones;
        ordered = inv.ordered;
        tracked = inv.tracked;
        bounded = rw e (ground arith);
        apart = inv.apart;
        nonzero = inv.nonzero;
        next_range = inv.next_range;
      })
      | inl over ↦ rw over (record {
        calls = inv.calls;
        tombstones =
            rw (keys-delete oldest c.canceled)
              (Distinct-remove_key oldest (keys c.canceled) inv.tombstones);
        ordered = ordered.1;
        tracked = λ k.
            ground (arith, tracked k, ordered.0, lookup-delete oldest k c.canceled inv.tombstones);
        bounded = omega arith;
        apart =
            λ k q. ground (arith, inv.apart k, lookup-delete oldest k c.canceled inv.tombstones);
        nonzero = ground (arith, inv.nonzero, lookup-delete oldest 0 c.canceled inv.tombstones);
        next_range = inv.next_range;
      })
    ]

-- Giving up a call keeps calls and tombstones apart, and the tombstones within the bound.
pub abandon-IsCalls : (max id : ℕ) (c : Calls) → IsCalls max c → IsCalls max (abandon max id c)
unfolding abandon
abandon-IsCalls max id c inv = elim (Option-cases (lookup id c.pending)) [
  | inl gone ↦ rw (gone, abandon) inv
  | inr (p, found) ↦
      rw (found, abandon)
        (trim-IsCalls max (buried id p c) (c.canceled_order ++ (id ∷ [])) refl
          (buried-IsCalls max id p c inv found))
]

-- The newest tombstone is not the one that goes.
trim-keeps :
    (max id : ℕ) (p : Pending) (c : Calls) (old : List ℕ)
    → 0 < max
    → Distinct (keys c.canceled)
    → member id old ≡ false
    → lookup id c.canceled ≡ some p
    → (lookup id (trim max c (old ++ (id ∷ []))).canceled ≡ some p)
      × ((trim max c (old ++ (id ∷ []))).pending ≡ c.pending)
trim-keeps max id p c [] h d m found = ground arith
trim-keeps max id p c (oldest ∷ rest) h d m found =
    elim (Bool-cases (ltb max (length (oldest ∷ (rest ++ (id ∷ [])))))) [
      | inr fits ↦ rw fits (found, refl)
      | inl over ↦ rw over (ground (arith, lookup-delete oldest id c.canceled d), refl)
    ]

abandon-keeps :
    (max id : ℕ) (p : Pending) (c : Calls)
    → 0 < max
    → IsCalls max c
    → lookup id c.pending ≡ some p
    → (lookup id (abandon max id c).canceled ≡ some p)
      × (lookup id (abandon max id c).pending ≡ none)
unfolding abandon
abandon-keeps max id p c h inv found =
    let fresh : lookup id c.canceled ≡ none = inv.apart id (ap is_some found) in
    let unlisted : member id c.canceled_order ≡ false = inv.tracked id ∙ ap is_some fresh in
    let placed : lookup id (insert id p c.canceled) ≡ some p =
      ground (arith, lookup-insert id id p c.canceled) in
    let (kept, same) =
      trim-keeps max id p (buried id p c) c.canceled_order h
        (Distinct-insert id p c.canceled inv.tombstones) unlisted placed in
    let gone : lookup id (delete id c.pending) ≡ none =
      ground (arith, lookup-delete id id c.pending inv.calls) in
    rw (found, abandon) (kept, ap (lookup id) same ∙ gone)

-- The three answers of `resolve`, by what the two tables hold under the response's ID.
pub resolve_delivered :
    (h : Header) (c : Calls) (p : Pending)
    → lookup h.correlation_id c.pending ≡ some p
    → matches p h ≡ true
    → resolve h c ≡ (delivered, record c { pending = delete h.correlation_id c.pending })
unfolding resolve
resolve_delivered h c p found m = ap (resolve_pending h c) found ∙ rw m

resolve_absorbed :
    (h : Header) (c : Calls) (p : Pending)
    → lookup h.correlation_id c.pending ≡ none
    → lookup h.correlation_id c.canceled ≡ some p
    → matches p h ≡ true
    → resolve h c ≡ (
      absorbed,
      record c {
        canceled = delete h.correlation_id c.canceled;
        canceled_order = remove_key h.correlation_id c.canceled_order;
      },
    )
unfolding resolve
resolve_absorbed h c p gone found m =
    ap (resolve_pending h c) gone ∙ ap (resolve_canceled h c) found ∙ rw m

resolve_unexpected :
    (h : Header) (c : Calls)
    → lookup h.correlation_id c.pending ≡ none
    → lookup h.correlation_id c.canceled ≡ none
    → resolve h c ≡ (unexpected, c)
unfolding resolve
resolve_unexpected h c gone gone' = ap (resolve_pending h c) gone ∙ ap (resolve_canceled h c) gone'

-- The matching response of a call in progress is delivered. Once the call has been given up it is
-- absorbed without an error, one time; a second copy of it is unexpected.
pub resolve_late :
    (max : ℕ) (h : Header) (p : Pending) (c : Calls)
    → 0 < max
    → IsCalls max c
    → lookup h.correlation_id c.pending ≡ some p
    → matches p h ≡ true
    → let late = resolve h (abandon max h.correlation_id c) in
      ((resolve h c).0 ≡ delivered) × (late.0 ≡ absorbed) × ((resolve h late.1).0 ≡ unexpected)
resolve_late max h p c pos inv found m =
    let id = h.correlation_id in
    let c' = abandon max id c in
    let inv' = abandon-IsCalls max id c inv in
    let (tomb, gone) = abandon-keeps max id p c pos inv found in
    let once = resolve_absorbed h c' p gone tomb m in
    (
      ap (λ r. r.0) (resolve_delivered h c p found m),
      ap (λ r. r.0) once,
      ap (λ r. (resolve h r.1).0) once
          ∙ ap (λ r. r.0)
              (resolve_unexpected h _ gone
                (ground (arith, lookup-delete id id c'.canceled inv'.tombstones))),
    )
