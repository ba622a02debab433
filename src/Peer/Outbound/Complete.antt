-- ===== src/Peer/Outbound/Complete.antt =====
-- `takeLocked` of peer.go finds a request of the class asked for wherever there is one to take.
use native.Mathlib.Nat.{mod-add-mod, mod-eq_of_lt, add-mod_right}
use streammux.Base.{
  ℕ_discrete, dec_lt, ℕ, zero, suc, ◌+◌, ◌-◌, ◌%◌, ◌≤◌, ◌<◌, ◌≡◌, sym, ap, ◌∙◌, none-ne-some, true,
  false, some, List, ◌∷◌, ◌==◌, length, get_elem?, arith, inl, inr, Option-cases, ==_iff, is_some,
}
use streammux.Base.Map.{lookup, member, member-get_elem?}
use streammux.Peer.Limits.{Limits}
use streammux.Peer.Outbound.{
  Request, OutStream, Outbound, settle, take_queue, take_stream, take_id, take_at, scan,
  take_locked,
}
use streammux.Peer.Outbound.Invariant.{IsOutbound}

-- The rounds reach every place in the order of visits.
scan_reaches :
    (left : ℕ) (o : Outbound) (class cursor checked index : ℕ) (t : Request × (Outbound × ℕ))
    → take_at o class index ≡ some t
    → (k : ℕ) → checked ≤ k
    → k < checked + left
    → (cursor + k) % length o.order ≡ index
    → (u : Request × (Outbound × ℕ)) × (scan left o class cursor checked ≡ some u)
unfolding scan
scan_reaches zero o class cursor checked index t e k lo hi at = absurd (omega arith)
scan_reaches (suc left) o class cursor checked index t e k lo hi at =
    elim (Option-cases (take_at o class ((cursor + checked) % length o.order))) [
      | inr (u, here) ↦ (u, rw (here, scan))
      | inl none_here ↦ elim (ℕ_discrete checked k) [
        | yes same ↦ absurd (
            none-ne-some (
              sym none_here
              ∙ ap (λ j. take_at o class ((cursor + j) % length o.order)) same
              ∙ ap (take_at o class) at
              ∙ e))
        | no later ↦
            let (u, f) =
              scan_reaches left o class cursor (checked + 1) index t e k (omega arith) (omega arith)
                at in
            (u, rw (none_here, scan) f)
      ]
    ]

-- The round that visits place `index` from cursor `c`, among `n` places.
round_of : (c index n : ℕ) → index < n → (k : ℕ) × (k < n) × ((c + k) % n ≡ index)
round_of c index n h = elim (dec_lt index (c % n)) [
  | no before ↦ (
    index - c % n,
    omega arith,
    sym (mod-add-mod c n (index - c % n))
        ∙ ap (λ m. m % n) {x = c % n + (index - c % n)} {y = index} (omega arith)
        ∙ mod-eq_of_lt h,
  )
  | yes behind ↦
      let small : c % n < n = omega arith in
      (
        index + n - c % n,
        omega arith,
        sym (mod-add-mod c n (index + n - c % n))
            ∙ ap (λ m. m % n) {x = c % n + (index + n - c % n)} {y = index + n} (omega arith)
            ∙ add-mod_right index n
            ∙ mod-eq_of_lt h,
      )
]

taken_first :
    (o : Outbound) (class index : ℕ) (s : OutStream) (r : Request) (rest : List Request)
    → r.class ≡ class
    → take_queue o class index s (r ∷ rest) ≡ some (r, settle o index s r rest)
unfolding take_queue
taken_first o class index s r rest c = rw ((==_iff r.class class).1 c)

ne→== : (n : ℕ) → 0 < n → (n == 0) ≡ false
ne→== n h = ground arith

take_at_first :
    (o : Outbound) (class index id : ℕ) (s : OutStream) (r : Request) (rest : List Request)
    → get_elem? o.order index ≡ some id
    → lookup id o.streams ≡ some s
    → s.queue ≡ r ∷ rest
    → r.class ≡ class
    → (t : Request × (Outbound × ℕ)) × (take_at o class index ≡ some t)
unfolding take_at
take_at_first o class index id s r rest at found e c = (
  (r, settle o index s r rest),
  ap (take_id o class index) at
      ∙ ap (take_stream o class index) found
      ∙ ap (take_queue o class index s) e
      ∙ taken_first o class index s r rest c,
)

-- If the first request of some stream has the class asked for, `takeLocked` returns a request,
-- wherever the cursor stands.
pub take_locked-total :
    (l : Limits) (o : Outbound) (class cursor id : ℕ) (s : OutStream) (r : Request)
    (rest : List Request)
    → IsOutbound l o
    → lookup id o.streams ≡ some s
    → s.queue ≡ r ∷ rest
    → r.class ≡ class
    → (t : Request × Outbound) × (next : ℕ) × (take_locked o class cursor ≡ (some t, next))
unfolding take_locked
take_locked-total l o class cursor id s r rest inv found e c =
    let listed : member id o.order ≡ true = inv.listed id ∙ ap is_some found in
    let (index, lt, at) = member-get_elem? o.order id listed in
    let (t, here) = take_at_first o class index id s r rest at found e c in
    let (k, below, round) = round_of cursor index (length o.order) lt in
    let (u, reached) =
      scan_reaches (length o.order) o class cursor 0 index t here k (omega arith) (omega arith)
        round in
    ((u.0, u.1.0), u.1.1, rw (ne→== (length o.order) (omega arith), reached))
