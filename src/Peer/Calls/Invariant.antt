-- ===== src/Peer/Calls/Invariant.antt =====
-- Calls and tombstones in peer.go stay apart, and the tombstones within their bound.
use streammux.Base.{
  ℕ, ◌≤◌, ◌<◌, ◌≡◌, refl, ap, ◌∙◌, subst, true, Option, none, some, length, arith, is_some, inl,
  inr, Option-cases, Bool-cases, none-ne-some, some-injective,
}
use streammux.Base.Map.{
  lookup, insert, delete, member, Distinct, keys, remove_key, Distinct-insert, Distinct-remove_key,
  keys-delete, lookup-insert, lookup-delete, member-remove_key, length-remove_key,
}
use streammux.Frame.{Header}
use streammux.Peer.Calls.{
  Pending, Calls, no_calls, blank, is_free, fill_in, resolve, following, u64_mod, resolve_canceled,
  resolve_pending, matches,
}

-- A correlation ID is in use by a call or by a tombstone, never by both and never 0; the order
-- lists the tombstones, each once, and no more than the bound.
pub record IsCalls (max : ℕ) (c : Calls) : Type 0 where
  pub calls : Distinct (keys c.pending)
  pub tombstones : Distinct (keys c.canceled)
  pub ordered : Distinct c.canceled_order
  pub tracked : (k : ℕ) → member k c.canceled_order ≡ is_some (lookup k c.canceled)
  pub bounded : length c.canceled_order ≤ max
  pub apart : (k : ℕ) → is_some (lookup k c.pending) ≡ true → lookup k c.canceled ≡ none
  pub nonzero : (lookup 0 c.pending ≡ none) × (lookup 0 c.canceled ≡ none)
  pub next_range : c.next < u64_mod

pub no_calls-IsCalls : (max : ℕ) → IsCalls max no_calls
no_calls-IsCalls max = record {
  calls = tt;
  tombstones = tt;
  ordered = tt;
  tracked = λ k. refl;
  bounded = omega arith;
  apart = λ k h. refl;
  nonzero = (refl, refl);
  next_range = omega arith;
}

module _ (max : ℕ) (c : Calls) (inv : IsCalls max c) where
  pub next-IsCalls : IsCalls max (record c { next = following c.next })
  next-IsCalls = record {
    calls = inv.calls;
    tombstones = inv.tombstones;
    ordered = inv.ordered;
    tracked = inv.tracked;
    bounded = inv.bounded;
    apart = inv.apart;
    nonzero = inv.nonzero;
    next_range = omega arith;
  }

  pub taken-IsCalls :
      is_free c (following c.next) ≡ true
      → IsCalls max (record c {
        next = following c.next;
        pending = insert (following c.next) blank c.pending;
      })
  taken-IsCalls h =
      let id = following c.next in
      record {
        calls = Distinct-insert id blank c.pending inv.calls;
        tombstones = inv.tombstones;
        ordered = inv.ordered;
        tracked = inv.tracked;
        bounded = inv.bounded;
        apart = λ k p. ground (arith, inv.apart k, lookup-insert id k blank c.pending);
        nonzero = ground (arith, inv.nonzero, lookup-insert id 0 blank c.pending);
        next_range = omega arith;
      }

  pub fill_in-IsCalls :
      (id : ℕ) (p : Pending) (c' : Calls) → fill_in id p c ≡ some c' → IsCalls max c'
  unfolding fill_in
  fill_in-IsCalls id p c' e = elim (Option-cases (lookup id c.pending)) [
    | inl gone ↦ absurd (none-ne-some (rw (gone, fill_in) at e))
    | inr (old, found) ↦ subst (IsCalls max) (some-injective (rw (found, fill_in) at e)) (record {
      calls = Distinct-insert id p c.pending inv.calls;
      tombstones = inv.tombstones;
      ordered = inv.ordered;
      tracked = inv.tracked;
      bounded = inv.bounded;
      apart = λ k q. ground (arith, inv.apart k, lookup-insert id k p c.pending);
      nonzero = ground (arith, inv.nonzero, lookup-insert id 0 p c.pending);
      next_range = inv.next_range;
    })
  ]

  -- A call that is answered leaves the table.
  without_call : (id : ℕ) → IsCalls max (record c { pending = delete id c.pending })
  without_call id = record {
    calls = rw (keys-delete id c.pending) (Distinct-remove_key id (keys c.pending) inv.calls);
    tombstones = inv.tombstones;
    ordered = inv.ordered;
    tracked = inv.tracked;
    bounded = inv.bounded;
    apart = λ k q. ground (arith, inv.apart k, lookup-delete id k c.pending inv.calls);
    nonzero = ground (arith, inv.nonzero, lookup-delete id 0 c.pending inv.calls);
    next_range = inv.next_range;
  }

  without_tombstone :
      (id : ℕ) (p : Pending)
      → lookup id c.canceled ≡ some p
      → IsCalls max (record c {
        canceled = delete id c.canceled;
        canceled_order = remove_key id c.canceled_order;
      })
  without_tombstone id p found =
      let listed : member id c.canceled_order ≡ true = inv.tracked id ∙ ap is_some found in
      record {
        calls = inv.calls;
        tombstones =
            rw (keys-delete id c.canceled)
              (Distinct-remove_key id (keys c.canceled) inv.tombstones);
        ordered = Distinct-remove_key id c.canceled_order inv.ordered;
        tracked = λ k. ground (
          arith,
          inv.tracked k,
          member-remove_key id k c.canceled_order inv.ordered,
          lookup-delete id k c.canceled inv.tombstones,
        );
        bounded = omega (arith, inv.bounded, length-remove_key id c.canceled_order listed);
        apart = λ k q. ground (arith, inv.apart k, lookup-delete id k c.canceled inv.tombstones);
        nonzero = ground (arith, inv.nonzero, lookup-delete id 0 c.canceled inv.tombstones);
        next_range = inv.next_range;
      }

  resolve_canceled-IsCalls :
      (h : Header) (p : Option Pending)
      → lookup h.correlation_id c.canceled ≡ p
      → IsCalls max (resolve_canceled h c p).1
  resolve_canceled-IsCalls h none e = inv
  resolve_canceled-IsCalls h (some p) e = elim (Bool-cases (matches p h)) [
    | inl m ↦ rw m (without_tombstone h.correlation_id p e)
    | inr m ↦ rw m inv
  ]

  resolve_pending-IsCalls :
      (h : Header) (p : Option Pending) → IsCalls max (resolve_pending h c p).1
  resolve_pending-IsCalls h none =
      resolve_canceled-IsCalls h (lookup h.correlation_id c.canceled) refl
  resolve_pending-IsCalls h (some p) = elim (Bool-cases (matches p h)) [
    | inl m ↦ rw m (without_call h.correlation_id)
    | inr m ↦ rw m inv
  ]

  -- Whatever response arrives, `resolve` keeps calls and tombstones apart and listed.
  pub resolve-IsCalls : (h : Header) → IsCalls max (resolve h c).1
  unfolding resolve
  resolve-IsCalls h = resolve_pending-IsCalls h (lookup h.correlation_id c.pending)
