-- ===== src/Peer/Outbound/Taking.antt =====
-- What `takeLocked` of peer.go takes: the first request of one stream, of the class asked for.
use streammux.Base.{
  ℕ, zero, suc, ◌+◌, ◌%◌, ◌≡◌, refl, subst, Option, none, some, List, [], ◌∷◌, ◌==◌, length,
  get_elem?, inl, inr, Option-cases, Bool-cases, ==_iff,
}
use streammux.Base.Map.{lookup}
use streammux.Peer.Limits.{Limits}
use streammux.Peer.Outbound.{
  Request, OutStream, Outbound, settle, take_queue, take_stream, take_id, take_at, scan,
  take_locked,
}
use streammux.Peer.Outbound.Invariant.{IsOutbound, settle_last-IsOutbound, settle_more-IsOutbound}

-- Request `r` of the class has been taken off the stream `id`, which stood at `index`.
pub record Taken (o : Outbound) (class : ℕ) (r : Request) (o' : Outbound) (next : ℕ) : Type 0 where
  pub index : ℕ
  pub id : ℕ
  pub stream : OutStream
  pub rest : List Request
  pub at : get_elem? o.order index ≡ some id
  pub found : lookup id o.streams ≡ some stream
  pub first : stream.queue ≡ r ∷ rest
  pub classed : r.class ≡ class
  pub settled : settle o index stream r rest ≡ (o', next)

abbrev Taking : Outbound → ℕ → Option (Request × (Outbound × ℕ)) → Type 0
Taking o class none = Unit {0}
Taking o class (some (r, (o', next))) = Taken o class r o' next

take_queue-Taking :
    (o : Outbound) (class index id : ℕ) (s : OutStream) (queue : List Request)
    → get_elem? o.order index ≡ some id
    → lookup id o.streams ≡ some s
    → s.queue ≡ queue
    → Taking o class (take_queue o class index s queue)
unfolding take_queue
take_queue-Taking o class index id s [] at found e = tt
take_queue-Taking o class index id s (r ∷ rest) at found e = elim (Bool-cases (r.class == class)) [
  | inl same ↦
      rw (same, take_queue, Taking)
        (record {
          index = index;
          id = id;
          stream = s;
          rest = rest;
          at = at;
          found = found;
          first = e;
          classed = (==_iff r.class class).0 same;
          settled = refl;
        })
  | inr other ↦ rw (other, take_queue, Taking) tt
]

take_stream-Taking :
    (o : Outbound) (class index id : ℕ) (s : Option OutStream)
    → get_elem? o.order index ≡ some id
    → lookup id o.streams ≡ s
    → Taking o class (take_stream o class index s)
unfolding take_stream
take_stream-Taking o class index id none at found = tt
take_stream-Taking o class index id (some s) at found =
    take_queue-Taking o class index id s s.queue at found refl

take_id-Taking :
    (o : Outbound) (class index : ℕ) (id : Option ℕ)
    → get_elem? o.order index ≡ id
    → Taking o class (take_id o class index id)
unfolding take_id
take_id-Taking o class index none at = tt
take_id-Taking o class index (some id) at =
    take_stream-Taking o class index id (lookup id o.streams) at refl

take_at-Taking : (o : Outbound) (class index : ℕ) → Taking o class (take_at o class index)
unfolding take_at
take_at-Taking o class index = take_id-Taking o class index (get_elem? o.order index) refl

scan-Taking :
    (left : ℕ) (o : Outbound) (class cursor checked : ℕ)
    → Taking o class (scan left o class cursor checked)
unfolding scan
scan-Taking zero o class cursor checked = tt
scan-Taking (suc left) o class cursor checked =
    let here = take_at-Taking o class ((cursor + checked) % length o.order) in
    elim (Option-cases (take_at o class ((cursor + checked) % length o.order))) [
      | inl e ↦ rw (e, scan) (scan-Taking left o class cursor (checked + 1))
      | inr (t, e) ↦ rw (e, scan) (subst (Taking o class) e here)
    ]

abbrev TakingLocked : Outbound → ℕ → Option (Request × Outbound) × ℕ → Type 0
TakingLocked o class (none, next) = Unit {0}
TakingLocked o class (some (r, o'), next) = Taken o class r o' next

take_locked-TakingLocked :
    (o : Outbound) (class cursor : ℕ) → TakingLocked o class (take_locked o class cursor)
unfolding take_locked
take_locked-TakingLocked o class cursor =
    let scanned = scan-Taking (length o.order) o class cursor 0 in
    elim (Bool-cases (length o.order == 0)) [
      | inl empty ↦ rw (empty, take_locked, TakingLocked) tt
      | inr busy ↦ elim (Option-cases (scan (length o.order) o class cursor 0)) [
        | inl e ↦ rw (busy, e, take_locked, TakingLocked) tt
        | inr ((r, (o', next)), e) ↦
            rw (busy, e, take_locked, TakingLocked) (subst (Taking o class) e scanned)
      ]
    ]

-- A request that `takeLocked` returns is the first one of some stream, and has the class asked for.
pub take_locked-Taken :
    (o o' : Outbound) (class cursor next : ℕ) (r : Request)
    → take_locked o class cursor ≡ (some (r, o'), next)
    → Taken o class r o' next
take_locked-Taken o o' class cursor next r e =
    subst (TakingLocked o class) e (take_locked-TakingLocked o class cursor)

module _ (l : Limits) (o o' : Outbound) (class next : ℕ) (r : Request) (inv : IsOutbound l o) where
  settle-IsOutbound :
      (index id : ℕ) (s : OutStream) (rest : List Request)
      → get_elem? o.order index ≡ some id
      → lookup id o.streams ≡ some s
      → s.queue ≡ r ∷ rest
      → IsOutbound l (settle o index s r rest).0
  settle-IsOutbound index id s [] at found e =
      settle_last-IsOutbound l o index id s r inv at found e
  settle-IsOutbound index id s (q ∷ rest) at found e =
      settle_more-IsOutbound l o index id s r inv at found q rest e

  pub Taken-IsOutbound : Taken o class r o' next → IsOutbound l o'
  Taken-IsOutbound t =
      subst (λ p. IsOutbound l p.0) t.settled
        (settle-IsOutbound t.index t.id t.stream t.rest t.at t.found t.first)

-- Taking a request keeps the queues consistent and within their limits.
pub take_locked-IsOutbound :
    (l : Limits) (o o' : Outbound) (class cursor next : ℕ) (r : Request)
    → IsOutbound l o
    → take_locked o class cursor ≡ (some (r, o'), next)
    → IsOutbound l o'
take_locked-IsOutbound l o o' class cursor next r inv e =
    Taken-IsOutbound l o o' class next r inv (take_locked-Taken o o' class cursor next r e)
