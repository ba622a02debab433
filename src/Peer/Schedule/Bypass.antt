-- ===== src/Peer/Schedule/Bypass.antt =====
-- How often `schedule` of peer.go may prefer one traffic class while another one waits.
use streammux.Base.{
  ℕ, zero, suc, ◌-◌, ◌%◌, ◌≤◌, ◌<◌, ◌≡◌, ◌≢◌, refl, sym, ap, ◌∙◌, subst, Option, none, some, ◌==◌,
  if◌then◌else◌, arith, dec_lt, none-ne-some,
}
use streammux.Peer.Limits.{Limits, IsLimits}
use streammux.Peer.Outbound.{Request, Outbound, take_locked}
use streammux.Peer.Outbound.Invariant.{IsOutbound, IsClass}
use streammux.Peer.Outbound.Taking.{take_locked-Taken}
use streammux.Peer.Outbound.Complete.{take_locked-total}
use streammux.Peer.Schedule.{
  Turn, class_at, next_class, budget, weight, scan_class, pick, choose, after_scan, resume,
}
use streammux.Peer.Schedule.WorkConserving.{Waits, shift, reach_class}

pub record IsTurn (l : Limits) (t : Turn) : Type 0 where
  pub range : t.class_index < 3
  pub credit_le : t.credit ≤ weight l (class_at t.class_index)

pub weight-pos : (l : Limits) (c : ℕ) → IsLimits l → 0 < weight l c
weight-pos l c v = ground arith

-- The turn behind a request that was taken with `b` left of its class's credit.
abbrev Charged : ℕ → ℕ → Turn → Type 0
Charged i b t =
    (t.class_index ≡ (if b - 1 == 0 then next_class i else i))
    × (t.credit ≡ (if b - 1 == 0 then 0 else b - 1))

-- The credit at the scan that succeeds, `d` scans on.
abbrev credit_at : Limits → Turn → ℕ → ℕ
credit_at l t zero = budget l t
credit_at l t (suc d) = weight l (class_at (shift (suc d) t.class_index))

-- A request taken `d` empty scans after the turn.
record Picked (l : Limits) (o : Outbound) (t : Turn) (r : Request) (t' : Turn) : Type 0 where
  d : ℕ
  served : r.class ≡ class_at (shift d t.class_index)
  skipped : (e : ℕ) → e < d → ¬ (Waits o (class_at (shift e t.class_index)))
  turned : Charged (shift d t.class_index) (credit_at l t d) t'

abbrev Scanned : Limits → Outbound → Turn → Option (Request × Outbound) × Turn → Type 0
Scanned l o t (some (r, o'), t') =
    (r.class ≡ class_at t.class_index) × Charged t.class_index (budget l t) t'
Scanned l o t (none, t') =
    (¬ (Waits o (class_at t.class_index)))
    × (t'.class_index ≡ next_class t.class_index)
    × (t'.credit ≡ 0)

scan_class-Scanned :
    (l : Limits) (o : Outbound) (t : Turn) → IsOutbound l o → Scanned l o t (scan_class l o t)
unfolding scan_class
scan_class-Scanned l o t inv = go (take_locked o (class_at t.class_index) t.cursor) refl
  where
    free :
        {next : ℕ}
        → take_locked o (class_at t.class_index) t.cursor ≡ (none, next)
        → ¬ (Waits o (class_at t.class_index))
    free e w =
        let (x, next', f) =
          take_locked-total l o (class_at t.class_index) t.cursor w.id w.stream w.first w.rest inv
            w.found w.queued w.classed in
        none-ne-some (ap (λ p. p.0) (sym e ∙ f))

    go :
        (p : Option (Request × Outbound) × ℕ)
        → take_locked o (class_at t.class_index) t.cursor ≡ p
        → Scanned l o t (after_scan l t p)
    go (some (r, o'), next) e =
        ((take_locked-Taken o o' (class_at t.class_index) t.cursor next r e).classed, ground arith)
    go (none, next) e = (free e, refl, refl)

credit_at-next :
    (l : Limits) (t t' : Turn) (d : ℕ)
    → t'.class_index ≡ next_class t.class_index
    → t'.credit ≡ 0
    → credit_at l t' d ≡ credit_at l t (suc d)
credit_at-next l t t' zero i c = rw (i, c)
credit_at-next l t t' (suc d) i c = rw i

abbrev PickResult : Limits → Outbound → Turn → Option (Request × Outbound) × Turn → Type 0
PickResult l o t (some (r, o'), t') = Picked l o t r t'
PickResult l o t (none, t') = Unit {0}

-- The class at the turn was not waited for: one more empty scan.
later-Picked :
    (l : Limits) (o : Outbound) (t u v : Turn) (r : Request)
    → ¬ (Waits o (class_at t.class_index))
    → u.class_index ≡ next_class t.class_index
    → u.credit ≡ 0
    → Picked l o u r v
    → Picked l o t r v
later-Picked l o t u v r free i c p = record {
  d = suc p.d;
  served = p.served ∙ ap (λ j. class_at (shift p.d j)) i;
  skipped = skip;
  turned =
      subst (λ b. Charged (shift (suc p.d) t.class_index) b v) (credit_at-next l t u p.d i c)
        (subst (λ j. Charged (shift p.d j) (credit_at l u p.d) v) i p.turned);
}
  where
    skip : (e : ℕ) → e < suc p.d → ¬ (Waits o (class_at (shift e t.class_index)))
    skip zero h w = free w
    skip (suc e) h w =
        p.skipped e (omega arith) (subst (λ j. Waits o (class_at (shift e j))) (sym i) w)

resume-PickResult :
    (l : Limits) (o : Outbound) (t : Turn) (k : Turn → Option (Request × Outbound) × Turn)
    (p : Option (Request × Outbound) × Turn)
    → Scanned l o t p
    → ((u : Turn) → PickResult l o u (k u))
    → PickResult l o t (resume k p)
resume-PickResult l o t k (some (r, o'), t') s h = record {
  d = 0;
  served = s.0;
  skipped = λ e below. absurd (omega arith);
  turned = s.1;
}
resume-PickResult l o t k (none, u) s h = further (k u) (h u)
  where
    further : (q : Option (Request × Outbound) × Turn) → PickResult l o u q → PickResult l o t q
    further (none, v) p = tt
    further (some (r, o'), v) p = later-Picked l o t u v r s.0 s.1 s.2 p

pick-PickResult :
    (n : ℕ) (l : Limits) (o : Outbound) (t : Turn)
    → IsOutbound l o
    → PickResult l o t (pick n l o t)
unfolding pick
pick-PickResult zero l o t inv = tt
pick-PickResult (suc n) l o t inv =
    resume-PickResult l o t (λ u. pick n l o u) (scan_class l o t) (scan_class-Scanned l o t inv)
      (λ u. pick-PickResult n l o u inv)

choose-Picked :
    (l : Limits) (o o' : Outbound) (t t' : Turn) (r : Request)
    → IsOutbound l o
    → choose l o t ≡ (some (r, o'), t')
    → Picked l o t r t'
unfolding choose
choose-Picked l o o' t t' r inv e = subst (PickResult l o t) e (pick-PickResult 6 l o t inv)

-- The requests of class `c` that may still go out before any other waiting class does.
abbrev allowance : Limits → ℕ → Turn → ℕ
allowance l c t =
    if class_at t.class_index == c
    then budget l t
    else if t.class_index == c % 3
    then 0
    else weight l c

-- One request taken, no or one empty scan after the turn.
Charged-allowance :
    (l : Limits) (i d : ℕ) (t u : Turn)
    → IsLimits l
    → t.class_index ≡ i
    → i < 3
    → d < 2
    → Charged (shift d i) (credit_at l t d) u
    → allowance l (class_at (shift d i)) u < allowance l (class_at (shift d i)) t
Charged-allowance l zero zero t u v e h k c = ground arith
Charged-allowance l (suc zero) zero t u v e h k c = ground arith
Charged-allowance l (suc (suc zero)) zero t u v e h k c = ground arith
Charged-allowance l zero (suc zero) t u v e h k c = ground arith
Charged-allowance l (suc zero) (suc zero) t u v e h k c = ground arith
Charged-allowance l (suc (suc zero)) (suc zero) t u v e h k c = ground arith
Charged-allowance l i d t u v e h k c = absurd (omega arith)

shift-lt : (d i : ℕ) → i < 3 → shift d i < 3
shift-lt zero i h = h
shift-lt (suc d) i h = shift-lt d (next_class i) (omega arith)

Charged-range : (i b : ℕ) (u : Turn) → i < 3 → Charged i b u → u.class_index < 3
Charged-range i b u h c = ground arith

-- While another class waits, a request of class `c` uses up some of its allowance.
choose-allowance :
    (l : Limits) (o o' : Outbound) (t u : Turn) (r : Request) (c : ℕ)
    → IsLimits l
    → IsOutbound l o
    → t.class_index < 3
    → choose l o t ≡ (some (r, o'), u)
    → IsClass c
    → c ≢ r.class
    → Waits o c
    → (allowance l r.class u < allowance l r.class t) × (u.class_index < 3)
choose-allowance l o o' t u r c v inv range e class other w =
    let p = choose-Picked l o o' t u r inv e in
    let (k, near, at) = reach_class t.class_index c range class in
    let waits : Waits o (class_at (shift k t.class_index)) = subst (Waits o) (sym at) w in
    let soon : p.d ≤ k = not_later p k waits in
    let apart : p.d ≢ k = λ same.
      other (sym at ∙ ap (λ j. class_at (shift j t.class_index)) (sym same) ∙ sym p.served) in
    let early : p.d < 2 = omega arith in
    let less = Charged-allowance l t.class_index p.d t u v refl range early p.turned in
    let inside = shift-lt p.d t.class_index range in
    (
      rw p.served less,
      Charged-range (shift p.d t.class_index) (credit_at l t p.d) u inside p.turned,
    )
  where
    not_later :
        (p : Picked l o t r u) (k : ℕ) → Waits o (class_at (shift k t.class_index)) → p.d ≤ k
    not_later p k waits = elim (dec_lt k p.d) [
      | yes before ↦ absurd (p.skipped k before waits)
      | no after ↦ omega arith
    ]

-- Requests of class `c` taken one after the other, each time with another class waiting. Between
-- two of them `send` may change the queues.
pub data Bypass (l : Limits) (c : ℕ) : Turn → ℕ → Type 0 where
  rest : {t : Turn} → Bypass l c t 0
  prefer :
      {t u : Turn} {n : ℕ} (o o' : Outbound) (r : Request) (d : ℕ)
      → IsOutbound l o
      → choose l o t ≡ (some (r, o'), u)
      → r.class ≡ c
      → IsClass d
      → d ≢ c
      → Waits o d
      → Bypass l c u n
      → Bypass l c t (suc n)

Bypass-allowance :
    {l : Limits} {c : ℕ} {t : Turn} {n : ℕ}
    → IsLimits l
    → t.class_index < 3
    → Bypass l c t n
    → n ≤ allowance l c t
Bypass-allowance v range rest = omega arith
Bypass-allowance {l} {c} v range (prefer {t} {u} {n} o o' r d inv e class other apart w more) =
    let apart' : d ≢ r.class = λ same. apart (same ∙ class) in
    let (less, range') = choose-allowance l o o' t u r d v inv range e other apart' w in
    let less' : allowance l c u < allowance l c t =
      subst (λ k. allowance l k u < allowance l k t) class less in
    omega (arith, Bypass-allowance v range' more)

-- While another class waits, at most a class's weight of its requests go out in a row, from any
-- turn that `schedule` can stand at and whatever is sent in between.
pub Bypass-le-weight :
    (l : Limits) (c : ℕ) (t : Turn) (n : ℕ)
    → IsLimits l
    → IsTurn l t
    → Bypass l c t n
    → n ≤ weight l c
Bypass-le-weight l c t n v turn run =
    ground (arith, Bypass-allowance v turn.range run, turn.credit_le)

after_scan-IsTurn :
    (l : Limits) (t : Turn) (p : Option (Request × Outbound) × ℕ)
    → IsTurn l t
    → IsTurn l (after_scan l t p).1
after_scan-IsTurn l t (none, c) v = ground arith
after_scan-IsTurn l t (some x, c) v = ground arith

resume-IsTurn :
    (l : Limits) (k : Turn → Option (Request × Outbound) × Turn)
    (p : Option (Request × Outbound) × Turn)
    → IsTurn l p.1
    → ((u : Turn) → IsTurn l u → IsTurn l (k u).1)
    → IsTurn l (resume k p).1
resume-IsTurn l k (none, u) v h = h u v
resume-IsTurn l k (some x, u) v h = v

pick-IsTurn :
    (n : ℕ) (l : Limits) (o : Outbound) (t : Turn) → IsTurn l t → IsTurn l (pick n l o t).1
unfolding pick scan_class
pick-IsTurn zero l o t v = v
pick-IsTurn (suc n) l o t v =
    resume-IsTurn l (λ u. pick n l o u) (scan_class l o t)
      (after_scan-IsTurn l t (take_locked o (class_at t.class_index) t.cursor) v)
      (λ u w. pick-IsTurn n l o u w)

-- Every round of `schedule` leaves it at a class of the three, within that class's weight.
pub choose-IsTurn : (l : Limits) (o : Outbound) (t : Turn) → IsTurn l t → IsTurn l (choose l o t).1
unfolding choose
choose-IsTurn l o t v = pick-IsTurn 6 l o t v
