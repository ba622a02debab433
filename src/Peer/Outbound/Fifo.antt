-- ===== src/Peer/Outbound/Fifo.antt =====
-- The outbound queues of peer.go as one FIFO queue for each stream.
use streammux.Base.{
  ℕ, ◌-◌, ◌≡◌, subst, Option, none, some, List, [], ◌∷◌, ◌++◌, ◌==◌, if◌then◌else◌, arith, inl, inr,
  Option-cases, Bool-cases, some-injective, none-ne-some,
}
use streammux.Base.Map.{Distinct, lookup, keys, lookup-insert, lookup-delete, Each-lookup}
use streammux.Peer.Limits.{Limits}
use streammux.Peer.Outbound.{
  Request, OutStream, Outbound, stream_of, fits, enqueue, try_enqueue, push, settle, take_locked,
}
use streammux.Peer.Outbound.Invariant.{IsOutbound, IsStream}
use streammux.Peer.Outbound.Taking.{take_locked-Taken}

abbrev contents : Option OutStream → List Request
contents none = []
contents (some s) = s.queue

-- The requests of a stream that have not gone out, oldest first.
abbrev pub queue_of : Outbound → ℕ → List Request
queue_of o id = contents (lookup id o.streams)

-- The abstract `send`: the request joins the end of its own stream's queue.
abbrev pub Sent : Request → (ℕ → List Request) → (ℕ → List Request) → Type 0
Sent r before after =
    (id : ℕ) → after id ≡ (if stream_of r == id then before id ++ (r ∷ []) else before id)

-- The abstract step of the scheduler: the request was the first of one stream.
abbrev pub Served : ℕ → Request → (ℕ → List Request) → (ℕ → List Request) → Type 0
Served from r before after = (id : ℕ) → before id ≡ (if from == id then r ∷ after id else after id)

enqueue-Sent : (o : Outbound) (r : Request) → Sent r (queue_of o) (queue_of (enqueue o r))
unfolding enqueue
enqueue-Sent o r id = elim (Option-cases (lookup (stream_of r) o.streams)) [
  | inl e ↦ ground (
    arith,
    lookup-insert (stream_of r) id (record { id = stream_of r; queue = r ∷ []; bytes = r.bytes })
        o.streams,
  )
  | inr (s, e) ↦ ground (arith, lookup-insert (stream_of r) id (push r s) o.streams)
]

-- A request that `send` accepts joins the end of its stream's queue, and no other queue changes.
pub try_enqueue-Sent :
    (l : Limits) (o o' : Outbound) (r : Request)
    → try_enqueue l o r ≡ some o'
    → Sent r (queue_of o) (queue_of o')
unfolding try_enqueue
try_enqueue-Sent l o o' r e = elim (Bool-cases (fits l o r)) [
  | inl f ↦
      subst (λ p. Sent r (queue_of o) (queue_of p)) (some-injective (rw (f, try_enqueue) at e))
        (enqueue-Sent o r)
  | inr f ↦ absurd (none-ne-some (rw (f, try_enqueue) at e))
]

settle-Served :
    (o : Outbound) (index id : ℕ) (s : OutStream) (r : Request) (rest : List Request)
    → Distinct (keys o.streams)
    → s.id ≡ id
    → lookup id o.streams ≡ some s
    → s.queue ≡ r ∷ rest
    → Served id r (queue_of o) (queue_of (settle o index s r rest).0)
unfolding settle
settle-Served o index id s r [] d n found e k = ground (arith, lookup-delete id k o.streams d)
settle-Served o index id s r (q ∷ rest) d n found e k =
    ground (
      arith,
      lookup-insert id k (record s { queue = q ∷ rest; bytes = s.bytes - r.bytes }) o.streams,
    )

-- A request that `takeLocked` returns was the oldest of its stream; the rest of that stream's queue
-- and all other queues are as before.
pub take_locked-Served :
    (l : Limits) (o o' : Outbound) (class cursor next : ℕ) (r : Request)
    → IsOutbound l o
    → take_locked o class cursor ≡ (some (r, o'), next)
    → (id : ℕ) × Served id r (queue_of o) (queue_of o') × (r.class ≡ class)
take_locked-Served l o o' class cursor next r inv e =
    let t = take_locked-Taken o o' class cursor next r e in
    let named = (Each-lookup (IsStream l) t.id t.stream o.streams inv.streams t.found).named in
    (
      t.id,
      subst (λ p. Served t.id r (queue_of o) (queue_of p.0)) t.settled
          (settle-Served o t.index t.id t.stream r t.rest inv.distinct named t.found t.first),
      t.classed,
    )
