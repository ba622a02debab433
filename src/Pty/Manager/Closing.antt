-- ===== src/Pty/Manager/Closing.antt =====
-- The last hold of `run`, and `Manager.Close`, of pty/manager.go keep the Manager right.
use streammux.Base.{
  ℕ, ◌≡◌, refl, sym, ap, ◌∙◌, subst, true, not, ◌&&◌, ◌||◌, Option, none, some, List, [], ◌∷◌,
  arith, is_some, some-injective, if_elim,
}
use streammux.Base.Map.{
  Map, lookup, keys, member, Distinct, remove_key, member-remove_key, Distinct-remove_key, sum_of,
}
use streammux.Pty.History.{remove_history}
use streammux.Pty.History.Bounds.{IsWithin, remove_history-IsWithin}
use streammux.Pty.Observer.{EventKind}
use streammux.Pty.Manager.{Bounds, Session, Manager}
use streammux.Pty.Manager.Removal.{Removal}
use streammux.Pty.Manager.Ending.{
  retain_session, settle_found, settle_session, mark_stopping, stop_all, begin_close,
  remove_histories, end_close,
}
use streammux.Pty.Manager.Registry.{IsSession, live_count, is_retained, is_settling}
use streammux.Pty.Manager.Core.{IsCore, CoreOf}
use streammux.Pty.Manager.Eviction.{begin_evictions-Evicted}
use streammux.Pty.Manager.Touching.{mark_stopping-Alike}
use streammux.Pty.Manager.Leaving.{Over, retain_session-Core, drop_session-Core}

module _ (b : Bounds) (m : Manager) (starts ts : List ℕ) (core : CoreOf (b, 0) m starts ts) where
  pub settles-Over :
      (id : ℕ) (s : Session) → lookup id m.sessions ≡ some s → member id ts ≡ true → Over s
  settles-Over id s found mine =
      let yes : is_settling (some s) ≡ true =
        ap is_settling (sym found) ∙ core.registry.settles id mine in
      (ground (arith, yes), (ground (arith, yes), ground (arith, yes)))

  settle_found-Core :
      (id : ℕ) (o : Option Session)
      → lookup id m.sessions ≡ o
      → member id ts ≡ true
      → CoreOf (b, 0) (settle_found id o m).1 starts (remove_key id ts)
  settle_found-Core id none e mine = absurd (ground (arith, core.registry.settles id mine, e))
  settle_found-Core id (some s) e mine =
      let over = settles-Over id s e mine in
      if_elim (λ (x : List Removal × Manager). CoreOf (b, 0) x.1 starts (remove_key id ts))
        (not m.closing && m.bounds.retain) _ _
        (λ _.
          (begin_evictions-Evicted (retain_session id s m) (b, 1) starts (remove_key id ts)
            (retain_session-Core m (b, 0) starts ts core id s e over)).core)
        λ _.
          drop_session-Core m (b, 0) starts ts core id s (record s { attached = [] })
            EventKind.removed (remove_key id ts) e refl (ground (arith, over.0))
            (Distinct-remove_key id ts core.registry.settles_once)
            (λ j h. ground (arith, h, member-remove_key id j ts core.registry.settles_once))

  pub settle_session-Core :
      (id : ℕ)
      → member id ts ≡ true
      → CoreOf (b, 0) (settle_session id m).1 starts (remove_key id ts)
  unfolding settle_session
  settle_session-Core id mine = settle_found-Core id (lookup id m.sessions) refl mine

abbrev pub stopped : Option Session → Option Session
stopped none = none
stopped (some s) = some (mark_stopping s)

pub lookup-stop_all : (k : ℕ) (ss : Map Session) → lookup k (stop_all ss) ≡ stopped (lookup k ss)
unfolding stop_all
lookup-stop_all k [] = refl
lookup-stop_all k ((j, s) ∷ rest) = ground (arith, lookup-stop_all k rest)

keys-stop_all : (ss : Map Session) → keys (stop_all ss) ≡ keys ss
unfolding stop_all
keys-stop_all [] = refl
keys-stop_all ((j, s) ∷ rest) = ap (λ xs. j ∷ xs) (keys-stop_all rest)

mark_stopping-live : (s : Session) → live_count (mark_stopping s) ≡ live_count s
mark_stopping-live s = ground arith

sum_of-stop_all : (ss : Map Session) → sum_of live_count (stop_all ss) ≡ sum_of live_count ss
unfolding stop_all
sum_of-stop_all [] = refl
sum_of-stop_all ((j, s) ∷ rest) = omega (arith, sum_of-stop_all rest, mark_stopping-live s)

stopped-retained : (o : Option Session) → is_retained (stopped o) ≡ is_retained o
stopped-retained none = refl
stopped-retained (some s) = ground arith

stopped-settling : (o : Option Session) → is_settling o ≡ true → is_settling (stopped o) ≡ true
stopped-settling none h = h
stopped-settling (some s) h = ground (arith, h)

stopped-some : (o : Option Session) → is_some (stopped o) ≡ is_some o
stopped-some none = refl
stopped-some (some s) = refl

stopped-named :
    (most k : ℕ) (o : Option Session) (x : Session)
    → ((s : Session) → o ≡ some s → (s.id ≡ k) × IsSession most s)
    → stopped o ≡ some x
    → (x.id ≡ k) × IsSession most x
stopped-named most k none x named e = ground arith
stopped-named most k (some s) x named e =
    let (same, good) = named s refl in
    let a = mark_stopping-Alike most s good in
    subst (λ (y : Session). (y.id ≡ k) × IsSession most y) (some-injective e) (a.id ∙ same, a.good)

pub begin_close-Core :
    (m : Manager) (slack : Bounds × ℕ) (starts ts : List ℕ)
    → CoreOf slack m starts ts
    → CoreOf slack (begin_close m) starts ts
unfolding begin_close
begin_close-Core m slack starts ts core =
    let ss = m.sessions in
    record {
      same = core.same;
      registry = record {
        distinct = subst Distinct (sym (keys-stop_all ss)) core.registry.distinct;
        named = λ k x e.
            stopped-named m.bounds.max_attachments k (lookup k ss) x (core.registry.named k)
              (sym (lookup-stop_all k ss) ∙ e);
        counted = core.registry.counted ∙ sym (sum_of-stop_all ss);
        once = core.registry.once;
        listed = λ k.
            core.registry.listed k
            ∙ sym (stopped-retained (lookup k ss))
            ∙ ap is_retained (sym (lookup-stop_all k ss));
        settles_once = core.registry.settles_once;
        settles = λ k h.
            ap is_settling (lookup-stop_all k ss)
            ∙ stopped-settling (lookup k ss) (core.registry.settles k h);
      };
      numbered = record {
        once = core.numbered.once;
        bounded = core.numbered.bounded;
        apart = λ k h.
            ap is_some (lookup-stop_all k ss)
            ∙ stopped-some (lookup k ss)
            ∙ core.numbered.apart k h;
        drawn = λ on k h. core.numbered.drawn on k (
            sym (
              ap (λ b. b || member k starts)
                (ap is_some (lookup-stop_all k ss) ∙ stopped-some (lookup k ss)))
            ∙ h);
      };
      starting_all = core.starting_all;
      room = core.room;
      few = core.few;
      history = core.history;
    }

-- What the removal of the histories leaves as it is.
record Cleared (m m' : Manager) : Type 0 where
  pub bounds : m'.bounds ≡ m.bounds
  pub starting : m'.starting ≡ m.starting
  pub next : m'.next_session ≡ m.next_session
  pub exhausted : m'.exhausted ≡ m.exhausted
  pub history : IsWithin m'.history

remove_histories-Cleared :
    (ss : Map Session) (m : Manager) → IsWithin m.history → Cleared m (remove_histories ss m)
unfolding remove_histories
remove_histories-Cleared [] m within = record {
  bounds = refl;
  starting = refl;
  next = refl;
  exhausted = refl;
  history = within;
}
remove_histories-Cleared ((id, s) ∷ rest) m within =
    let m' = record m { history = remove_history id m.history } in
    let c = remove_histories-Cleared rest m' (remove_history-IsWithin id m.history within) in
    record {
      bounds = c.bounds;
      starting = c.starting;
      next = c.next;
      exhausted = c.exhausted;
      history = c.history;
    }

emptied-Core :
    (b : Bounds) (m m' : Manager) (starts : List ℕ)
    → CoreOf (b, 0) m starts []
    → Cleared m m'
    → IsCore m'.bounds (b, 0) [] [] [] 0 m'.starting starts m'.next_session m'.exhausted m'.history
emptied-Core b m m' starts core c = record {
  same = c.bounds ∙ core.same;
  registry = record {
    distinct = tt;
    named = λ k s e. ground (arith, e);
    counted = refl;
    once = tt;
    listed = λ k. refl;
    settles_once = tt;
    settles = λ k h. ground (arith, h);
  };
  numbered = record {
    once = core.numbered.once;
    bounded = omega (arith, c.next, core.numbered.bounded);
    apart = λ k h. refl;
    drawn = λ on k h.
        let old = core.numbered.drawn (sym c.exhausted ∙ on) k (ground (arith, h)) in
        omega (arith, old, c.next);
  };
  starting_all = c.starting ∙ core.starting_all;
  room =
      let most : m'.bounds.max_sessions ≡ m.bounds.max_sessions =
        ap (λ b. b.max_sessions) c.bounds in
      omega (arith, most, c.starting, core.room);
  few = omega arith;
  history = c.history;
}

pub end_close-Core :
    (b : Bounds) (m : Manager) (starts : List ℕ)
    → CoreOf (b, 0) m starts []
    → CoreOf (b, 0) (end_close m) starts []
unfolding end_close
end_close-Core b m starts core =
    emptied-Core b m (remove_histories m.sessions m) starts core
      (remove_histories-Cleared m.sessions m core.history)
