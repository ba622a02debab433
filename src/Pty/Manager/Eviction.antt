-- ===== src/Pty/Manager/Eviction.antt =====
-- `beginRetentionEvictionsLocked` of pty/manager.go: the loop ends, and the oldest retained sessions go.
use streammux.Base.{
  ℕ, zero, suc, ◌+◌, ◌≡◌, ◌≤◌, refl, sym, ap, ◌∙◌, subst, true, false, not, ◌||◌, Option, none,
  some, List, [], ◌∷◌, ◌++◌, map, length, if◌then◌else◌, ltb, leb, arith, if_elim,
}
use streammux.Base.Map.{lookup, insert, member, remove_key, member-remove_key, Distinct-remove_key}
use streammux.Pty.Values.{session_evicted}
use streammux.Pty.Observer.{EventKind}
use streammux.Pty.Manager.{Bounds, Session, Manager}
use streammux.Pty.Manager.Registry.{IsSession, replace-IsRegistry, replace-IsNumbered}
use streammux.Pty.Manager.Core.{IsCore, CoreOf, is_named}
use streammux.Pty.Manager.Removal.{
  Removal, start_removal, keep_removal, begin_removal, evict_session, add_removal, evict_loop,
  begin_evictions,
}

abbrev pub leaving_session : Session → Session
leaving_session s = record s { attached = []; retained = false; removing = true }

abbrev pub sessions_of : List Removal → List ℕ
sessions_of rs = map (λ (r : Removal). r.session) rs

module _ (m : Manager) (slack : Bounds × ℕ) (k : ℕ) (s : Session) (starts ts : List ℕ)
    (core : CoreOf slack m starts ts) (found : lookup k m.sessions ≡ some s)
    (kept_on : s.retained ≡ true) where
  leaves : IsSession m.bounds.max_attachments (leaving_session s)
  leaves =
      let good = (is_named m slack k s starts ts core found).1 in
      record {
        phase = good.phase;
        live = λ lives. ground (arith, (good.live lives).0, kept_on);
        apart = λ h. ground arith;
        over = good.over;
        few = omega arith;
      }

  -- A retained session starts to leave.
  pub leave-IsCore :
      (slack' : ℕ)
      → length (remove_key k m.retained_exited) ≤ m.bounds.max_retained + slack'
      → IsCore m.bounds
          (slack.0, slack')
          (insert k (leaving_session s) m.sessions)
          (remove_key k m.retained_exited)
          ts
          m.active
          m.starting
          starts
          m.next_session
          m.exhausted
          m.history
  unfolding leaves
  leave-IsCore slack' few = record {
    same = core.same;
    registry =
        replace-IsRegistry m.bounds.max_attachments k s (leaving_session s) m.sessions
          m.retained_exited ts m.active core.registry found refl leaves
          (remove_key k m.retained_exited) ts m.active refl
          (Distinct-remove_key k m.retained_exited core.registry.once)
          (λ j. member-remove_key k j m.retained_exited core.registry.once)
          core.registry.settles_once
          (λ j h. ground (arith, h, core.registry.settles k, found, kept_on));
    numbered =
        replace-IsNumbered k s m.sessions starts m.next_session m.exhausted core.numbered
          (leaving_session s) found;
    starting_all = core.starting_all;
    room = core.room;
    few = few;
    history = core.history;
  }

-- What a loop over the retained IDs comes to: as many as are over the bound leave, from the front.
pub record Evicted (b : Bounds) (m : Manager) (starts ts : List ℕ) (r : List Removal × Manager)
    : Type 0 where
  pub core : CoreOf (b, 0) r.1 starts ts
  pub bounds : r.1.bounds ≡ m.bounds
  pub in_order : sessions_of r.0 ++ r.1.retained_exited ≡ m.retained_exited
  pub left : length r.1.retained_exited ≡ (
      if leb (length m.retained_exited) m.bounds.max_retained
      then length m.retained_exited
      else m.bounds.max_retained)

-- The round of a list's first ID.
pub record Round (b : Bounds) (m : Manager) (starts ts : List ℕ) (id : ℕ) (rest : List ℕ)
    (r : Option Removal × Manager) : Type 0 where
  pub core : CoreOf (b, length rest) r.1 starts ts
  pub bounds : r.1.bounds ≡ m.bounds
  pub retained : r.1.retained_exited ≡ rest
  pub removal : (x : Removal) × (r.0 ≡ some x) × (x.session ≡ id)

module _ (m : Manager) (slack : Bounds × ℕ) (starts ts : List ℕ)
    (core : CoreOf slack m starts ts) where
  round_leaves :
      (id : ℕ) (rest : List ℕ) (s : Session)
      → m.retained_exited ≡ id ∷ rest
      → lookup s.id m.sessions ≡ some s
      → s.id ≡ id
      → s.retained ≡ true
      → Round slack.0 m starts ts id rest (
        some (start_removal s session_evicted EventKind.evicted m).0,
        (start_removal s session_evicted EventKind.evicted m).1,
      )
  round_leaves id rest s first found same on =
      let without : remove_key s.id m.retained_exited ≡ rest =
        ap (remove_key s.id) first ∙ ground (arith, same) in
      record {
        core = leave-IsCore m slack s.id s starts ts core found on (length rest) (
            subst (λ xs. length xs ≤ m.bounds.max_retained + length rest) (sym without)
              (omega arith));
        bounds = refl;
        retained = without;
        removal = (_, refl, same);
      }

  pub evict_found :
      (id : ℕ) (rest : List ℕ) (o : Option Session)
      → m.retained_exited ≡ id ∷ rest
      → lookup id m.sessions ≡ o
      → Round slack.0 m starts ts id rest (evict_session id rest o m)
  unfolding begin_removal
  evict_found id rest none first e =
      absurd (ground (arith, core.registry.listed id, ap (member id) first, e))
  evict_found id rest (some s) first e =
      let named = is_named m slack id s starts ts core e in
      let on : s.retained ≡ true =
        sym (ground (arith, core.registry.listed id, ap (member id) first, e)) in
      if_elim (Round slack.0 m starts ts id rest) (not s.retained) _ _
        (λ off. absurd (ground (arith, on, off)))
        λ stays.
          if_elim (λ o. Round slack.0 m starts ts id rest (keep_removal m o))
            (not s.retained || s.removing) _ _
            (λ busy. absurd (ground (arith, on, busy, named.1.apart on)))
            λ free.
              round_leaves id rest s first
                (subst (λ i. lookup i m.sessions ≡ some s) (sym named.0) e) named.0 on

  stays_within :
      ltb m.bounds.max_retained (length m.retained_exited) ≡ false
      → Evicted slack.0 m starts ts ([], m)
  stays_within small = record {
    core = record {
      same = core.same;
      registry = core.registry;
      numbered = core.numbered;
      starting_all = core.starting_all;
      room = core.room;
      few = ground arith;
      history = core.history;
    };
    bounds = refl;
    in_order = refl;
    left = ground arith;
  }

  -- A round and what the loop makes of the rest.
  add_round :
      (id : ℕ) (rest : List ℕ) (round : Option Removal × Manager) (more : List Removal × Manager)
      → m.retained_exited ≡ id ∷ rest
      → ltb m.bounds.max_retained (length (id ∷ rest)) ≡ true
      → Round slack.0 m starts ts id rest round
      → Evicted slack.0 round.1 starts ts more
      → Evicted slack.0 m starts ts (add_removal round.0 more)
  add_round id rest round (removals, m') first over r e =
      let (x, is, of) = r.removal in
      let bounded : m'.bounds ≡ m.bounds = e.bounds ∙ r.bounds in
      subst (λ o. Evicted slack.0 m starts ts (add_removal o (removals, m'))) (sym is)
        (record {
          core = e.core;
          bounds = bounded;
          in_order =
              ap (λ xs. x.session ∷ xs) (e.in_order ∙ r.retained)
              ∙ ap (λ i. i ∷ rest) of
              ∙ sym first;
          left =
              let most : round.1.bounds.max_retained ≡ m.bounds.max_retained =
                ap (λ b. b.max_retained) r.bounds in
              let len : length m.retained_exited ≡ suc (length rest) = ap length first in
              let now : length round.1.retained_exited ≡ length rest = ap length r.retained in
              ground (arith, e.left, most, len, now, over);
        })

evict_loop-Evicted :
    (fuel : ℕ) (ids : List ℕ) (m : Manager) (slack : Bounds × ℕ) (starts ts : List ℕ)
    → CoreOf slack m starts ts
    → m.retained_exited ≡ ids
    → length ids ≤ fuel
    → Evicted slack.0 m starts ts (evict_loop fuel ids m)
unfolding evict_loop
evict_loop-Evicted zero [] m slack starts ts core is enough =
    stays_within m slack starts ts core (ground (arith, ap length is))
evict_loop-Evicted zero (id ∷ rest) m slack starts ts core is enough =
    absurd (omega (arith, enough))
evict_loop-Evicted (suc fuel) [] m slack starts ts core is enough =
    stays_within m slack starts ts core (ground (arith, ap length is))
evict_loop-Evicted (suc fuel) (id ∷ rest) m slack starts ts core is enough =
    let r = evict_found m slack starts ts core id rest (lookup id m.sessions) is refl in
    let m' = (evict_session id rest (lookup id m.sessions) m).1 in
    if_elim (Evicted slack.0 m starts ts) (ltb m.bounds.max_retained (length (id ∷ rest))) _ _
      (λ over.
        add_round m slack starts ts core id rest (evict_session id rest (lookup id m.sessions) m) _
          is over r
          (evict_loop-Evicted fuel m'.retained_exited m' (slack.0, length rest) starts ts r.core
            refl (subst (λ xs. length xs ≤ fuel) (sym r.retained) (omega (arith, enough)))))
      λ small. stays_within m slack starts ts core (ground (arith, ap length is, small))

-- When a session joins the retained ones, the sessions that are over the bound leave from the front of
-- the list, the one retained longest first, as many as the bound asks for and no other.
pub begin_evictions-Evicted :
    (m : Manager) (slack : Bounds × ℕ) (starts ts : List ℕ)
    → CoreOf slack m starts ts
    → Evicted slack.0 m starts ts (begin_evictions m)
unfolding begin_evictions
begin_evictions-Evicted m slack starts ts core =
    evict_loop-Evicted (length m.retained_exited) m.retained_exited m slack starts ts core refl
      (omega arith)
