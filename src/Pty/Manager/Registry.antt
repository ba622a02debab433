-- ===== src/Pty/Manager/Registry.antt =====
-- The sessions of the Manager of pty/manager.go against what it counts and lists of them, and how the
-- table may change.
use streammux.Base.{
  ℕ, ◌+◌, ◌≡◌, ◌≤◌, ◌<◌, ◌^◌, inl, inr, sym, ◌∙◌, subst, Bool, true, false, not, ◌&&◌, ◌||◌, Option,
  none, some, List, length, if◌then◌else◌, ◌==◌, arith, is_some,
}
use streammux.Base.Map.{
  Map, lookup, insert, delete, keys, member, Distinct, remove_key, sum_of, lookup-insert,
  lookup-delete, Distinct-insert, Distinct-remove_key, member-remove_key, keys-delete,
  sum_of-insert, sum_of-insert_new, sum_of-delete, inserted,
}
use streammux.Pty.Manager.{Session, is_live, is_exited}

abbrev pub is_retained : Option Session → Bool
is_retained none = false
is_retained (some s) = s.retained

-- Between the two holds of the lock in `run`.
abbrev pub is_settling : Option Session → Bool
is_settling none = false
is_settling (some s) = is_exited s.state && not s.retained && not s.removing

abbrev pub live_count : Session → ℕ
live_count s = if is_live s.state then 1 else 0

-- A session runs, stops or is over; one that is over has its exit status, and only such a one is retained
-- or on its way out, and not both.
pub record IsSession (most : ℕ) (s : Session) : Type 0 where
  pub phase : (is_live s.state || is_exited s.state) ≡ true
  pub live : is_live s.state ≡ true → (s.retained ≡ false) × (s.removing ≡ false)
  pub apart : s.retained ≡ true → s.removing ≡ false
  pub over : is_exited s.state ≡ true → is_some s.exit ≡ true
  pub few : length s.attached ≤ most

-- The table with the IDs retained, those between the two holds of `run`, and the live sessions.
pub record IsRegistry (most : ℕ) (ss : Map Session) (rs ts : List ℕ) (active : ℕ) : Type 0 where
  pub distinct : Distinct (keys ss)
  pub named : (k : ℕ) (s : Session) → lookup k ss ≡ some s → (s.id ≡ k) × IsSession most s
  pub counted : active ≡ sum_of live_count ss
  pub once : Distinct rs
  pub listed : (k : ℕ) → member k rs ≡ is_retained (lookup k ss)
  pub settles_once : Distinct ts
  pub settles : (k : ℕ) → member k ts ≡ true → is_settling (lookup k ss) ≡ true

-- The IDs drawn for sessions that start are nobody's, and the next one will be new.
pub record IsNumbered (ss : Map Session) (starts : List ℕ) (next : ℕ) (exhausted : Bool)
    : Type 0 where
  pub once : Distinct starts
  pub bounded : next < 2 ^ 64
  pub apart : (k : ℕ) → member k starts ≡ true → is_some (lookup k ss) ≡ false
  pub drawn :
      exhausted ≡ false → (k : ℕ) → (is_some (lookup k ss) || member k starts) ≡ true → k ≤ next

abbrev pub is_retained_at : (k : ℕ) (s : Session) (j : ℕ) (rest : Bool) → Bool
is_retained_at k s j rest = if k == j then s.retained else rest

module _ (most k : ℕ) (s s' : Session) (ss : Map Session) (rs ts : List ℕ) (active : ℕ)
    (reg : IsRegistry most ss rs ts active) (found : lookup k ss ≡ some s) (same : s'.id ≡ s.id)
    (good : IsSession most s') where
  named_after :
      (j : ℕ) (x : Session) → lookup j (insert k s' ss) ≡ some x → (x.id ≡ j) × IsSession most x
  named_after j x e = elim (inserted k j s' x ss e) [
    | inl (here, new) ↦
        subst (λ (y : Session). (y.id ≡ j) × IsSession most y) (sym new)
          (same ∙ (reg.named k s found).0 ∙ sym here, good)
    | inr (_, old) ↦ reg.named j x old
  ]

  -- A session changes, and with it the lists.
  pub replace-IsRegistry :
      (rs' ts' : List ℕ) (active' : ℕ)
      → active' + live_count s ≡ active + live_count s'
      → Distinct rs'
      → ((j : ℕ) → member j rs' ≡ (if k == j then s'.retained else member j rs))
      → Distinct ts'
      → ((j : ℕ)
          → member j ts' ≡ true
          → (if k == j then is_settling (some s') else member j ts) ≡ true)
      → IsRegistry most (insert k s' ss) rs' ts' active'
  unfolding named_after
  replace-IsRegistry rs' ts' active' count once listed settles_once settles = record {
    distinct = Distinct-insert k s' ss reg.distinct;
    named = named_after;
    counted = omega (arith, reg.counted, sum_of-insert live_count k s' s ss found);
    once = once;
    listed = λ j. ground (arith, listed j, reg.listed j, lookup-insert k j s' ss);
    settles_once = settles_once;
    settles = λ j h. ground (arith, settles j h, reg.settles j, lookup-insert k j s' ss);
  }

  -- A session changes in nothing that is counted.
  pub touch-IsRegistry :
      is_live s'.state ≡ is_live s.state
      → s'.retained ≡ s.retained
      → s'.removing ≡ s.removing
      → IsRegistry most (insert k s' ss) rs ts active
  touch-IsRegistry lives retains removes =
      replace-IsRegistry rs ts active (ground (arith, lives)) reg.once
        (λ j. ground (arith, retains, reg.listed k, found)) reg.settles_once
        (λ j h. ground (
          arith,
          reg.settles k,
          found,
          good.phase,
          (reg.named k s found).1.phase,
          lives,
          retains,
          removes,
        ))

module _ (most k : ℕ) (s : Session) (ss : Map Session) (rs ts : List ℕ) (active : ℕ)
    (reg : IsRegistry most ss rs ts active) where
  -- A session goes that is not live.
  pub delete-IsRegistry :
      (ts' : List ℕ)
      → lookup k ss ≡ some s
      → is_live s.state ≡ false
      → Distinct ts'
      → ((j : ℕ) → member j ts' ≡ true → (if k == j then false else member j ts) ≡ true)
      → IsRegistry most (delete k ss) (remove_key k rs) ts' active
  delete-IsRegistry ts' found idle settles_once settles = record {
    distinct =
        subst Distinct (sym (keys-delete k ss)) (Distinct-remove_key k (keys ss) reg.distinct);
    named = λ j x e. reg.named j x (ground (arith, e, lookup-delete k j ss reg.distinct));
    counted = ground (arith, reg.counted, sum_of-delete live_count k s ss found);
    once = Distinct-remove_key k rs reg.once;
    listed = λ j.
        ground (
          arith,
          reg.listed j,
          member-remove_key k j rs reg.once,
          lookup-delete k j ss reg.distinct,
        );
    settles_once = settles_once;
    settles = λ j h. ground (arith, settles j h, reg.settles j, lookup-delete k j ss reg.distinct);
  }

  -- A session comes that is live.
  pub insert-IsRegistry :
      lookup k ss ≡ none
      → s.id ≡ k
      → IsSession most s
      → is_live s.state ≡ true
      → IsRegistry most (insert k s ss) rs ts (active + 1)
  insert-IsRegistry fresh same good lives = record {
    distinct = Distinct-insert k s ss reg.distinct;
    named = λ j x e. elim (inserted k j s x ss e) [
      | inl (here, new) ↦
          subst (λ (y : Session). (y.id ≡ j) × IsSession most y) (sym new) (same ∙ sym here, good)
      | inr (_, old) ↦ reg.named j x old
    ];
    counted = ground (arith, reg.counted, sum_of-insert_new live_count k s ss fresh, lives);
    once = reg.once;
    listed = λ j.
        ground
          (arith, reg.listed j, reg.listed k, fresh, (good.live lives).0, lookup-insert k j s ss);
    settles_once = reg.settles_once;
    settles = λ j h. ground (arith, reg.settles j h, fresh, lookup-insert k j s ss);
  }

module _ (k : ℕ) (s : Session) (ss : Map Session) (starts : List ℕ) (next : ℕ) (exhausted : Bool)
    (num : IsNumbered ss starts next exhausted) where
  pub replace-IsNumbered :
      (s' : Session) → lookup k ss ≡ some s → IsNumbered (insert k s' ss) starts next exhausted
  replace-IsNumbered s' found = record {
    once = num.once;
    bounded = num.bounded;
    apart = λ j h. ground (arith, num.apart j h, found, lookup-insert k j s' ss);
    drawn = λ on j h. num.drawn on j (ground (arith, h, found, lookup-insert k j s' ss));
  }

  pub delete-IsNumbered : Distinct (keys ss) → IsNumbered (delete k ss) starts next exhausted
  delete-IsNumbered d = record {
    once = num.once;
    bounded = num.bounded;
    apart = λ j h. ground (arith, num.apart j h, lookup-delete k j ss d);
    drawn = λ on j h. num.drawn on j (ground (arith, h, lookup-delete k j ss d));
  }

  -- The session of an ID that was drawn.
  pub insert-IsNumbered :
      member k starts ≡ true → IsNumbered (insert k s ss) (remove_key k starts) next exhausted
  insert-IsNumbered mine = record {
    once = Distinct-remove_key k starts num.once;
    bounded = num.bounded;
    apart = λ j h.
        ground
          (arith, h, num.apart j, lookup-insert k j s ss, member-remove_key k j starts num.once);
    drawn = λ on j h.
        num.drawn on j
          (ground (arith, h, mine, lookup-insert k j s ss, member-remove_key k j starts num.once));
  }

pub forget-IsNumbered :
    (k : ℕ) (ss : Map Session) (starts : List ℕ) (next : ℕ) (exhausted : Bool)
    → IsNumbered ss starts next exhausted
    → IsNumbered ss (remove_key k starts) next exhausted
forget-IsNumbered k ss starts next exhausted num = record {
  once = Distinct-remove_key k starts num.once;
  bounded = num.bounded;
  apart = λ j h. ground (arith, h, num.apart j, member-remove_key k j starts num.once);
  drawn = λ on j h. num.drawn on j (ground (arith, h, member-remove_key k j starts num.once));
}
