-- ===== src/Peer/Calls.antt =====
-- Request correlation in peer.go: `reservePending`, the part of `Call` that fills the entry in,
-- `abandonPending` and `resolve`, each one hold of the Peer's lock.
pub mod Invariant
pub mod Reserve
pub mod Tombstones
use streammux.Base.{
  ℕ, zero, suc, ◌+◌, ◌-◌, ◌%◌, ◌^◌, Bool, ◌&&◌, ◌||◌, not, Option, none, some, List, [], ◌∷◌, ◌++◌,
  ltb, ◌==◌, if◌then◌else◌, length, is_some,
}
use streammux.Base.Map.{Map, lookup, insert, delete, remove_key}
use streammux.Frame.{Header}

-- `peerPending`; its response channel is named by the correlation ID.
pub record Pending : Type 0 where
  pub message_type : ℕ
  pub stream_id : ℕ

pub record Calls : Type 0 where
  pub next : ℕ
  pub pending : Map Pending
  pub canceled : Map Pending
  pub canceled_order : List ℕ

abbrev pub no_calls : Calls
no_calls = record { next = 0; pending = []; canceled = []; canceled_order = [] }

abbrev pub u64_mod : ℕ
u64_mod = 2 ^ 64

-- `p.next.Add(1)`
abbrev pub following : ℕ → ℕ
following n = (n + 1) % u64_mod

abbrev pub blank : Pending
blank = record { message_type = 0; stream_id = 0 }

-- Whether `reservePending` may hand the ID out.
abbrev pub is_free : Calls → ℕ → Bool
is_free c id =
    not (id == 0) && (not (is_some (lookup id c.pending)) && not (is_some (lookup id c.canceled)))

-- The loop of `reservePending`: the ID and the calls with its entry; nothing where the attempts are
-- used up.
unfoldable pub reserve_loop : ℕ → Calls → Option (ℕ × Calls)
reserve_loop zero c = none
reserve_loop (suc attempts) c =
    let id = following c.next in
    let later = reserve_loop attempts (record c { next = id }) in
    if is_free c id
    then some (id, record c { next = id; pending = insert id blank c.pending })
    else later

-- `^uint64(0)`
abbrev pub attempts : ℕ
attempts = 2 ^ 64 - 1

unfoldable pub reserve : Calls → Option (ℕ × Calls)
reserve c = reserve_loop attempts c

-- `Call` looks its entry up again and fills it in. Nothing stands for the nil dereference where
-- the entry is gone.
unfoldable pub fill_in : ℕ → Pending → Calls → Option Calls
fill_in id p c = elim (lookup id c.pending) [
  | none ↦ none
  | some old ↦ some (record c { pending = insert id p c.pending })
]

-- The oldest tombstone goes where there are too many.
abbrev pub trim : ℕ → Calls → List ℕ → Calls
trim max c [] = c
trim max c (oldest ∷ rest) =
    if ltb max (length (oldest ∷ rest))
    then record c { canceled = delete oldest c.canceled; canceled_order = rest }
    else c

-- `abandonPending`
unfoldable pub abandon : ℕ → ℕ → Calls → Calls
abandon max id c = elim (lookup id c.pending) [
  | none ↦ c
  | some p ↦
      let order = c.canceled_order ++ (id ∷ []) in
      trim max
        (record c {
          pending = delete id c.pending;
          canceled = insert id p c.canceled;
          canceled_order = order;
        })
        order
]

-- What becomes of a response frame.
pub data Resolution : Type 0 where
  delivered absorbed unexpected : Resolution

abbrev pub matches : Pending → Header → Bool
matches p h = p.message_type == h.message_type && p.stream_id == h.stream_id

abbrev pub resolve_canceled : Header → Calls → Option Pending → Resolution × Calls
resolve_canceled h c none = (unexpected, c)
resolve_canceled h c (some p) =
    if matches p h
    then (
      absorbed,
      record c {
        canceled = delete h.correlation_id c.canceled;
        canceled_order = remove_key h.correlation_id c.canceled_order;
      },
    )
    else (unexpected, c)

abbrev pub resolve_pending : Header → Calls → Option Pending → Resolution × Calls
resolve_pending h c none = resolve_canceled h c (lookup h.correlation_id c.canceled)
resolve_pending h c (some p) =
    if matches p h
    then (delivered, record c { pending = delete h.correlation_id c.pending })
    else (unexpected, c)

-- `resolve`: the caller that waits, a tombstone, or an error that ends the Peer.
unfoldable pub resolve : Header → Calls → Resolution × Calls
resolve h c = resolve_pending h c (lookup h.correlation_id c.pending)
