-- ===== src/Peer/Outbound/Invariant.antt =====
-- The outbound queues of peer.go stay consistent and within their limits.
use streammux.Base.{
  ℕ, ◌-◌, ◌≤◌, ◌<◌, ◌≡◌, refl, ap, ◌∙◌, subst, some-injective, none-ne-some, true, none, some, List,
  [], ◌∷◌, length, get_elem?, total, All, arith, is_some, inl, inr, Option-cases, Bool-cases,
  length-append, total-append, All-append,
}
use streammux.Base.Map.{
  lookup, member, Distinct, keys, sum_of, Each, remove_at-remove_key, get_elem?-member, Each-insert,
  Each-delete, Each-lookup, Distinct-insert, Distinct-remove_key, keys-delete, lookup-insert,
  lookup-delete, member-append, Distinct-snoc, member-remove_key, length-remove_key, length-insert,
  length-delete, sum_of-insert, sum_of-insert_new, sum_of-delete, length-remove_key,
}
use streammux.Peer.Limits.{Limits}
use streammux.Peer.Outbound.{
  Request, OutStream, Outbound, no_outbound, stream_of, fits, enqueue, try_enqueue, push, settle,
}

abbrev pub IsClass : ℕ → Type 0
IsClass c = (1 ≤ c) × (c ≤ 3)

abbrev pub request_bytes : List Request → ℕ
request_bytes = total (λ r. r.bytes)

-- A stream holds at least one request, counts their bytes, and keeps within its bounds.
pub record IsStream (l : Limits) (id : ℕ) (s : OutStream) : Type 0 where
  pub named : s.id ≡ id
  pub busy : 0 < length s.queue
  pub counted : s.bytes ≡ request_bytes s.queue
  pub bytes_le : s.bytes ≤ l.stream_bytes
  pub frames_le : length s.queue ≤ l.stream_frames
  pub classed : All (λ r. IsClass r.class) s.queue

-- The queues within their limits, the counters what they count, and the order of visits the
-- streams that hold something, each once.
pub record IsOutbound (l : Limits) (o : Outbound) : Type 0 where
  pub streams : Each (IsStream l) o.streams
  pub distinct : Distinct (keys o.streams)
  pub listed : (k : ℕ) → member k o.order ≡ is_some (lookup k o.streams)
  pub ordered : Distinct o.order
  pub visits : length o.order ≡ length o.streams
  pub bytes : o.bytes ≡ sum_of (λ s. s.bytes) o.streams
  pub frames : o.frames ≡ sum_of (λ s. length s.queue) o.streams
  pub bytes_le : o.bytes ≤ l.out_bytes
  pub frames_le : o.frames ≤ l.out_frames
  pub active_le : length o.streams ≤ l.max_active

pub no_outbound-IsOutbound : (l : Limits) → IsOutbound l no_outbound
no_outbound-IsOutbound l = record {
  streams = tt;
  distinct = tt;
  listed = λ k. refl;
  ordered = tt;
  visits = refl;
  bytes = refl;
  frames = refl;
  bytes_le = omega arith;
  frames_le = omega arith;
  active_le = omega arith;
}

-- A request as `send` makes it.
pub record IsRequest (l : Limits) (r : Request) : Type 0 where
  pub classed : IsClass r.class
  pub bytes_le : r.bytes ≤ l.stream_bytes
  pub some_frames : 0 < l.stream_frames

module _ (l : Limits) (o : Outbound) (r : Request) (inv : IsOutbound l o)
    (req : IsRequest l r) where
  abbrev opened : OutStream
  opened = record { id = stream_of r; queue = r ∷ []; bytes = r.bytes }

  opened-IsStream : IsStream l (stream_of r) opened
  opened-IsStream = ground arith

  push-IsStream :
      (s : OutStream)
      → lookup (stream_of r) o.streams ≡ some s
      → fits l o r ≡ true
      → IsStream l (stream_of r) (push r s)
  unfolding fits
  push-IsStream s e f =
      let old = Each-lookup (IsStream l) (stream_of r) s o.streams inv.streams e in
      record {
        named = old.named;
        busy = ground (arith, length-append s.queue (r ∷ []));
        counted =
            ground (arith, old.counted, total-append (λ (q : Request). q.bytes) s.queue (r ∷ []));
        bytes_le = ground arith;
        frames_le = ground (arith, length-append s.queue (r ∷ []));
        classed = All-append (λ q. IsClass q.class) s.queue (r ∷ []) old.classed (req.classed, tt);
      }

  enqueue_new-IsOutbound :
      lookup (stream_of r) o.streams ≡ none → fits l o r ≡ true → IsOutbound l (enqueue o r)
  unfolding fits enqueue
  enqueue_new-IsOutbound e f =
      rw (e, enqueue)
        (record {
          streams =
              Each-insert (IsStream l) (stream_of r) opened o.streams inv.streams opened-IsStream;
          distinct = Distinct-insert (stream_of r) opened o.streams inv.distinct;
          listed = λ k. ground (
            arith,
            inv.listed k,
            member-append k o.order (stream_of r ∷ []),
            lookup-insert (stream_of r) k opened o.streams,
          );
          ordered =
              Distinct-snoc (stream_of r) o.order inv.ordered
                (ground (arith, inv.listed (stream_of r)));
          visits = ground (
            arith,
            inv.visits,
            length-append o.order (stream_of r ∷ []),
            length-insert (stream_of r) opened o.streams,
          );
          bytes =
              ground
                (arith, inv.bytes, sum_of-insert_new (λ s. s.bytes) (stream_of r) opened o.streams);
          frames = ground (
            arith,
            inv.frames,
            sum_of-insert_new (λ s. length s.queue) (stream_of r) opened o.streams,
          );
          bytes_le = ground arith;
          frames_le = ground arith;
          active_le = ground (arith, length-insert (stream_of r) opened o.streams);
        })

  enqueue_old-IsOutbound :
      (s : OutStream)
      → lookup (stream_of r) o.streams ≡ some s
      → fits l o r ≡ true
      → IsOutbound l (enqueue o r)
  unfolding fits enqueue
  enqueue_old-IsOutbound s e f =
      let old = Each-lookup (IsStream l) (stream_of r) s o.streams inv.streams e in
      rw (e, enqueue)
        (record {
          streams =
              Each-insert (IsStream l) (stream_of r) (push r s) o.streams inv.streams
                (push-IsStream s e f);
          distinct = Distinct-insert (stream_of r) (push r s) o.streams inv.distinct;
          listed =
              λ k. ground (arith, inv.listed k, lookup-insert (stream_of r) k (push r s) o.streams);
          ordered = inv.ordered;
          visits = ground (arith, inv.visits, length-insert (stream_of r) (push r s) o.streams);
          bytes =
              ground (
                arith,
                inv.bytes,
                sum_of-insert (λ s. s.bytes) (stream_of r) (push r s) s o.streams,
              );
          frames = ground (
            arith,
            inv.frames,
            length-append s.queue (r ∷ []),
            sum_of-insert (λ s. length s.queue) (stream_of r) (push r s) s o.streams,
          );
          bytes_le = ground arith;
          frames_le = ground arith;
          active_le = ground (arith, length-insert (stream_of r) (push r s) o.streams);
        })

  enqueue-IsOutbound : fits l o r ≡ true → IsOutbound l (enqueue o r)
  enqueue-IsOutbound f = elim (Option-cases (lookup (stream_of r) o.streams)) [
    | inl e ↦ enqueue_new-IsOutbound e f
    | inr (s, e) ↦ enqueue_old-IsOutbound s e f
  ]

  -- `send` accepts a request only within the limits, and keeps the counters and the order of visits.
  pub try_enqueue-IsOutbound : (o' : Outbound) → try_enqueue l o r ≡ some o' → IsOutbound l o'
  unfolding try_enqueue
  try_enqueue-IsOutbound o' e = elim (Bool-cases (fits l o r)) [
    | inl f ↦
        subst (IsOutbound l) (some-injective (rw (f, try_enqueue) at e)) (enqueue-IsOutbound f)
    | inr f ↦ absurd (none-ne-some (rw (f, try_enqueue) at e))
  ]

-- Taking the first request of a stream.
module _ (l : Limits) (o : Outbound) (index id : ℕ) (s : OutStream) (r : Request)
    (inv : IsOutbound l o) (at : get_elem? o.order index ≡ some id)
    (found : lookup id o.streams ≡ some s) where
  old : IsStream l id s
  old = Each-lookup (IsStream l) id s o.streams inv.streams found

  pub settle_last-IsOutbound : s.queue ≡ r ∷ [] → IsOutbound l (settle o index s r []).0
  unfolding settle old
  settle_last-IsOutbound q =
      let order = remove_at-remove_key o.order index id inv.ordered at in
      let there : member id o.order ≡ true = get_elem?-member o.order index id at in
      rw (order, settle, old.named)
        (record {
          streams = Each-delete (IsStream l) id o.streams inv.streams;
          distinct =
              rw (keys-delete id o.streams) (Distinct-remove_key id (keys o.streams) inv.distinct);
          listed = λ k. ground (
            arith,
            inv.listed k,
            member-remove_key id k o.order inv.ordered,
            lookup-delete id k o.streams inv.distinct,
          );
          ordered = Distinct-remove_key id o.order inv.ordered;
          visits =
              ground (arith, inv.visits, length-remove_key id o.order, length-delete id o.streams);
          bytes =
              ground (arith, inv.bytes, old.counted, sum_of-delete (λ s. s.bytes) id s o.streams);
          frames = ground (arith, inv.frames, sum_of-delete (λ s. length s.queue) id s o.streams);
          bytes_le = ground arith;
          frames_le = ground arith;
          active_le = ground (arith, length-delete id o.streams);
        })

  -- What is left of the stream.
  abbrev left_over : Request → List Request → OutStream
  left_over q rest = record { id = id; queue = q ∷ rest; bytes = s.bytes - r.bytes }

  left_over-IsStream :
      (q : Request) (rest : List Request)
      → s.queue ≡ r ∷ q ∷ rest
      → IsStream l id (left_over q rest)
  unfolding old
  left_over-IsStream q rest e =
      let counted : s.bytes ≡ request_bytes (r ∷ q ∷ rest) = old.counted ∙ ap request_bytes e in
      let classed = subst (All (λ (x : Request). IsClass x.class)) e old.classed in
      record {
        named = refl;
        busy = omega arith;
        counted = omega arith;
        bytes_le = omega (arith, old.bytes_le);
        frames_le = ground (arith, old.frames_le);
        classed = classed.1;
      }

  pub settle_more-IsOutbound :
      (q : Request) (rest : List Request)
      → s.queue ≡ r ∷ q ∷ rest
      → IsOutbound l (settle o index s r (q ∷ rest)).0
  unfolding settle old
  settle_more-IsOutbound q rest e =
      let left = left_over q rest in
      rw (old.named, settle)
        (record {
          streams =
              Each-insert (IsStream l) id left o.streams inv.streams (left_over-IsStream q rest e);
          distinct = Distinct-insert id left o.streams inv.distinct;
          listed = λ k. ground (arith, inv.listed k, lookup-insert id k left o.streams);
          ordered = inv.ordered;
          visits = ground (arith, inv.visits, length-insert id left o.streams);
          bytes =
              ground
                (arith, inv.bytes, old.counted, sum_of-insert (λ s. s.bytes) id left s o.streams);
          frames =
              ground (arith, inv.frames, sum_of-insert (λ s. length s.queue) id left s o.streams);
          bytes_le = ground arith;
          frames_le = ground arith;
          active_le = ground (arith, length-insert id left o.streams);
        })
