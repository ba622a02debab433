-- ===== src/Peer/Schedule.antt =====
-- The weighted choice in `schedule` of peer.go: which class goes next, and for how long.
pub mod WorkConserving
pub mod Bypass
use streammux.Base.{
  ℕ, zero, suc, ◌+◌, ◌-◌, ◌%◌, Option, none, some, ◌==◌, if◌then◌else◌, Bool, ◌||◌,
}
use streammux.Peer.Limits.{Limits, control, interactive, bulk}
use streammux.Peer.Outbound.{Request, Outbound, take_locked}

-- The variables of `schedule` that live across its rounds.
pub record Turn : Type 0 where
  pub class_index : ℕ
  pub credit : ℕ
  pub cursor : ℕ

abbrev pub first_turn : Turn
first_turn = record { class_index = 0; credit = 0; cursor = 0 }

-- `classes[classIndex]`
abbrev pub class_at : ℕ → ℕ
class_at zero = control
class_at (suc zero) = interactive
class_at (suc (suc i)) = bulk

-- `weights[class]`
abbrev pub weight : Limits → ℕ → ℕ
weight l class =
    if class == control
    then l.control_weight
    else if class == interactive
    then l.interactive_weight
    else l.bulk_weight

-- The credit of the class at the turn, filled up where it is 0.
abbrev pub budget : Limits → Turn → ℕ
budget l t = if t.credit == 0 then weight l (class_at t.class_index) else t.credit

abbrev pub next_class : ℕ → ℕ
next_class i = (i + 1) % 3

-- The turn behind one scan: on to the next class where nothing was taken or the credit is used up.
abbrev pub after_scan :
    Limits → Turn → Option (Request × Outbound) × ℕ → Option (Request × Outbound) × Turn
after_scan l t (none, cursor) =
    (none, record { class_index = next_class t.class_index; credit = 0; cursor = cursor })
after_scan l t (some x, cursor) = (
  some x,
  if budget l t - 1 == 0
      then record { class_index = next_class t.class_index; credit = 0; cursor = cursor }
      else record { class_index = t.class_index; credit = budget l t - 1; cursor = cursor },
)

-- One scan of `schedule`.
unfoldable pub scan_class : Limits → Outbound → Turn → Option (Request × Outbound) × Turn
scan_class l o t = after_scan l t (take_locked o (class_at t.class_index) t.cursor)

-- The loop ends with the first request.
abbrev pub resume :
    (Turn → Option (Request × Outbound) × Turn)
    → Option (Request × Outbound) × Turn
    → Option (Request × Outbound) × Turn
resume later (some x, t) = (some x, t)
resume later (none, t) = later t

-- The scans while nothing is found, `left` of them; the queues do not change before one is taken.
unfoldable pub pick : ℕ → Limits → Outbound → Turn → Option (Request × Outbound) × Turn
pick zero l o t = (none, t)
pick (suc left) l o t = resume (λ t'. pick left l o t') (scan_class l o t)

-- `len(classes)*2`
abbrev pub scans : ℕ
scans = 6

-- What `schedule` does under one hold of the lock.
unfoldable pub choose : Limits → Outbound → Turn → Option (Request × Outbound) × Turn
unfolding pick
choose l o t = pick scans l o t
