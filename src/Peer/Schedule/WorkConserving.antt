-- ===== src/Peer/Schedule/WorkConserving.antt =====
-- The scheduler of peer.go never waits while a request is queued.
use streammux.Base.{
  ℕ, zero, suc, ◌<◌, ◌≡◌, refl, sym, ap, ◌∙◌, subst, Option, none, some, List, [], ◌∷◌, length,
  arith, inl, inr, ◌⊎◌, All,
}
use streammux.Base.Map.{lookup, Each-lookup}
use streammux.Peer.Limits.{Limits}
use streammux.Peer.Outbound.{Request, OutStream, Outbound, take_locked}
use streammux.Peer.Outbound.Invariant.{IsOutbound, IsStream, IsClass}
use streammux.Peer.Outbound.Complete.{take_locked-total}
use streammux.Peer.Schedule.{
  Turn, class_at, next_class, scan_class, pick, choose, after_scan, resume,
}

-- Some stream's first request has the class.
pub record Waits (o : Outbound) (class : ℕ) : Type 0 where
  pub id : ℕ
  pub stream : OutStream
  pub first : Request
  pub rest : List Request
  pub found : lookup id o.streams ≡ some stream
  pub queued : stream.queue ≡ first ∷ rest
  pub classed : first.class ≡ class

-- The class at the turn is waited for: the scan takes a request.
pub scan_class-takes :
    (l : Limits) (o : Outbound) (t : Turn)
    → IsOutbound l o
    → Waits o (class_at t.class_index)
    → (x : Request × Outbound) × (t' : Turn) × (scan_class l o t ≡ (some x, t'))
unfolding scan_class
scan_class-takes l o t inv w =
    let (x, next, e) =
      take_locked-total l o (class_at t.class_index) t.cursor w.id w.stream w.first w.rest inv
        w.found w.queued w.classed in
    (x, (after_scan l t (some x, next)).1, ap (after_scan l t) e)

scan_cases :
    (l : Limits) (o : Outbound) (t : Turn)
    → ((x : Request × Outbound) × (t' : Turn) × (scan_class l o t ≡ (some x, t')))
      ⊎ ((t' : Turn) × (scan_class l o t ≡ (none, t'))
          × (t'.class_index ≡ next_class t.class_index)
          × (t'.credit ≡ 0))
unfolding scan_class
scan_cases l o t = go (take_locked o (class_at t.class_index) t.cursor) refl
  where
    go :
        (p : Option (Request × Outbound) × ℕ)
        → take_locked o (class_at t.class_index) t.cursor ≡ p
        → ((x : Request × Outbound) × (t' : Turn) × (after_scan l t
                (take_locked o (class_at t.class_index) t.cursor)
              ≡ (some x, t')))
          ⊎ ((t' : Turn) × (after_scan l t (take_locked o (class_at t.class_index) t.cursor)
                ≡ (none, t'))
              × (t'.class_index ≡ next_class t.class_index)
              × (t'.credit ≡ 0))
    go (none, c) e = inr (_, ap (after_scan l t) e, refl, refl)
    go (some x, c) e = inl (x, _, ap (after_scan l t) e)

-- The class index after some empty scans.
abbrev pub shift : ℕ → ℕ → ℕ
shift zero i = i
shift (suc d) i = shift d (next_class i)

pick-takes :
    (n d : ℕ) (l : Limits) (o : Outbound) (t : Turn)
    → IsOutbound l o
    → d < n
    → Waits o (class_at (shift d t.class_index))
    → (x : Request × Outbound) × (t' : Turn) × (pick n l o t ≡ (some x, t'))
unfolding pick
pick-takes zero d l o t inv h w = absurd (omega arith)
pick-takes (suc n) zero l o t inv h w =
    let (x, t', e) = scan_class-takes l o t inv w in (x, t', ap (resume (λ u. pick n l o u)) e)
pick-takes (suc n) (suc d) l o t inv h w = elim (scan_cases l o t) [
  | inl (x, t', e) ↦ (x, t', ap (resume (λ u. pick n l o u)) e)
  | inr (t', e, moved, empty) ↦
      let w' : Waits o (class_at (shift d t'.class_index)) =
        subst (λ i. Waits o (class_at (shift d i))) (sym moved) w in
      let (x, t'', f) = pick-takes n d l o t' inv (omega arith) w' in
      (x, t'', ap (resume (λ u. pick n l o u)) e ∙ f)
]

-- Every class comes up within three scans.
pub reach_class : (i c : ℕ) → i < 3 → IsClass c → (d : ℕ) × (d < 3) × (class_at (shift d i) ≡ c)
reach_class i zero h k = absurd (omega arith)
reach_class zero (suc zero) h k = (0, omega arith, refl)
reach_class zero (suc (suc zero)) h k = (1, omega arith, refl)
reach_class zero (suc (suc (suc zero))) h k = (2, omega arith, refl)
reach_class (suc zero) (suc zero) h k = (2, omega arith, refl)
reach_class (suc zero) (suc (suc zero)) h k = (0, omega arith, refl)
reach_class (suc zero) (suc (suc (suc zero))) h k = (1, omega arith, refl)
reach_class (suc (suc zero)) (suc zero) h k = (1, omega arith, refl)
reach_class (suc (suc zero)) (suc (suc zero)) h k = (2, omega arith, refl)
reach_class (suc (suc zero)) (suc (suc (suc zero))) h k = (0, omega arith, refl)
reach_class i c h k = absurd (omega arith)

-- A stream that holds something waits for the class of its first request.
Waits-stream :
    (o : Outbound) (id : ℕ) (s : OutStream) (queue : List Request)
    → lookup id o.streams ≡ some s
    → s.queue ≡ queue
    → 0 < length queue
    → All (λ r. IsClass r.class) queue
    → (c : ℕ) × IsClass c × Waits o c
Waits-stream o id s [] found e h k = absurd (omega arith)
Waits-stream o id s (r ∷ rest) found e h k = (
  r.class,
  k.0,
  record { id = id; stream = s; first = r; rest = rest; found = found; queued = e; classed = refl },
)

pub Waits-some :
    (l : Limits) (o : Outbound) (id : ℕ) (s : OutStream)
    → IsOutbound l o
    → lookup id o.streams ≡ some s
    → (c : ℕ) × IsClass c × Waits o c
Waits-some l o id s inv found =
    let st = Each-lookup (IsStream l) id s o.streams inv.streams found in
    Waits-stream o id s s.queue found refl st.busy st.classed

-- While any request is queued, `schedule` takes one in the scans of one round: whatever class it
-- stands at and wherever its cursor is, it neither waits nor skips.
pub choose-takes :
    (l : Limits) (o : Outbound) (t : Turn) (id : ℕ) (s : OutStream)
    → IsOutbound l o
    → t.class_index < 3
    → lookup id o.streams ≡ some s
    → (x : Request × Outbound) × (t' : Turn) × (choose l o t ≡ (some x, t'))
unfolding choose
choose-takes l o t id s inv range found =
    let (c, class, w) = Waits-some l o id s inv found in
    let (d, near, at) = reach_class t.class_index c range class in
    pick-takes 6 d l o t inv (omega arith) (subst (Waits o) (sym at) w)
