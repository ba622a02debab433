-- ===== src/Pty/Manager/Retention.antt =====
-- Which sessions leave when one joins those that pty/manager.go retains.
use streammux.Base.{
  ℕ, suc, ◌≡◌, refl, ap, ◌∙◌, true, not, ◌&&◌, Option, none, some, List, [], ◌∷◌, ◌++◌, length,
  if◌then◌else◌, leb, arith, if_elim,
}
use streammux.Base.Map.{lookup, member, remove_key}
use streammux.Pty.Config.{ManagerConfig}
use streammux.Pty.Manager.{bounds, Bounds, Session, Manager}
use streammux.Pty.Manager.Removal.{Removal, begin_evictions}
use streammux.Pty.Manager.Ending.{retain_session, settle_found, settle_session}
use streammux.Pty.Manager.Steps.{System, Reachable}
use streammux.Pty.Manager.Core.{IsManager}
use streammux.Pty.Manager.Eviction.{sessions_of, begin_evictions-Evicted}
use streammux.Pty.Manager.Leaving.{retain_session-Core}
use streammux.Pty.Manager.Closing.{settles-Over}
use streammux.Pty.Manager.Reachable.{Reachable-IsManager}

-- With one more at the back, the first ones leave for the bound, in their order, and the others stay.
pub record Retained (id most : ℕ) (before : List ℕ) (removals : List Removal) (after : List ℕ)
    : Type 0 where
  pub in_order : sessions_of removals ++ after ≡ before ++ (id ∷ [])
  pub left : length after ≡ (if leb (suc (length before)) most then suc (length before) else most)

abbrev RetainedBy : ℕ → Manager → List Removal × Manager → Type 0
RetainedBy id m r = Retained id m.bounds.max_retained m.retained_exited r.0 r.1.retained_exited

length-snoc : (id : ℕ) (xs : List ℕ) → length (xs ++ (id ∷ [])) ≡ suc (length xs)
length-snoc id [] = refl
length-snoc id (x ∷ xs) = ap suc (length-snoc id xs)

retains :
    (id : ℕ) (s : Session) (b : Bounds) (y : System)
    → IsManager b y
    → lookup id y.manager.sessions ≡ some s
    → member id y.settles ≡ true
    → RetainedBy id y.manager (begin_evictions (retain_session id s y.manager))
retains id s b y core found mine =
    let m = y.manager in
    let ts = remove_key id y.settles in
    let same = (core.registry.named id s found).0 in
    let e =
      begin_evictions-Evicted (retain_session id s m) (b, 1) y.starts ts
        (retain_session-Core m (b, 0) y.starts y.settles core id s found
          (settles-Over b m y.starts y.settles core id s found mine)) in
    record {
      in_order = e.in_order ∙ ap (λ i. m.retained_exited ++ (i ∷ [])) same;
      left =
          e.left
          ∙ ap (λ n. if leb n m.bounds.max_retained then n else m.bounds.max_retained)
              (length-snoc s.id m.retained_exited);
    }

settle_found-Retained :
    (id : ℕ) (o : Option Session) (b : Bounds) (y : System)
    → IsManager b y
    → lookup id y.manager.sessions ≡ o
    → member id y.settles ≡ true
    → (not y.manager.closing && y.manager.bounds.retain) ≡ true
    → RetainedBy id y.manager (settle_found id o y.manager)
settle_found-Retained id none b y core e mine on =
    absurd (ground (arith, core.registry.settles id mine, e))
settle_found-Retained id (some s) b y core e mine on =
    if_elim (RetainedBy id y.manager) (not y.manager.closing && y.manager.bounds.retain) _ _
      (λ _. retains id s b y core e mine) (λ off. absurd (ground (arith, on, off)))

-- Where exited sessions are retained and the Manager does not close, the session whose `run` comes to its
-- last hold is retained last, the ones retained longest leave for it, in the order in which they came,
-- and just as many as keeps the others within `MaxRetainedSessions`.
pub settle_session-Retained :
    (c : ManagerConfig) (y : System) (id : ℕ)
    → Reachable c y
    → member id y.settles ≡ true
    → (not y.manager.closing && y.manager.bounds.retain) ≡ true
    → Retained id y.manager.bounds.max_retained y.manager.retained_exited
        (settle_session id y.manager).0
        (settle_session id y.manager).1.retained_exited
unfolding settle_session
settle_session-Retained c y id reached mine on =
    settle_found-Retained id (lookup id y.manager.sessions) (bounds c) y
      (Reachable-IsManager c y reached) refl mine on
