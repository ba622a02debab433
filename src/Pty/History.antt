-- ===== src/Pty/History.antt =====
-- The output history of pty/manager.go: `appendHistoryLocked`, `dropFirstHistoryLocked` and
-- `removeHistoryLocked`, over what the Manager and its sessions keep of it. A configuration that
-- `validate` accepts has no negative bound, so the bounds are natural numbers.
pub mod Bounds
pub mod Recent
use streammux.Base.{
  ℕ, zero, suc, ◌+◌, ◌-◌, ◌%◌, ◌^◌, Bool, true, false, not, ◌&&◌, ◌||◌, Option, none, some, List,
  [], ◌∷◌, ◌++◌, ltb, leb, ◌==◌, if◌then◌else◌, length, drop,
}
use streammux.Base.Map.{Map, lookup, insert, sum_of}
use streammux.Pty.Values.{OutputEvent}

-- `historyChunk`
pub record Chunk : Type 0 where
  pub event : OutputEvent
  pub order : ℕ

-- The history of one session.
pub record Kept : Type 0 where
  pub chunks : List Chunk
  pub bytes : ℕ

pub record History : Type 0 where
  pub session_limit : ℕ
  pub total_limit : ℕ
  pub sessions : Map Kept
  pub bytes : ℕ
  pub next_order : ℕ
  pub truncations : ℕ
  pub truncated_bytes : ℕ

abbrev pub chunk_bytes : Chunk → ℕ
chunk_bytes c = length c.event.data_bytes

abbrev pub no_history : Kept
no_history = record { chunks = []; bytes = 0 }

-- `dropFirstHistoryLocked` on a session with the chunks given.
abbrev pub drop_first : ℕ → Kept → List Chunk → History → History
drop_first id k [] h = h
drop_first id k (c ∷ rest) h = record h {
  sessions = insert id (record { chunks = rest; bytes = k.bytes - chunk_bytes c }) h.sessions;
  bytes = h.bytes - chunk_bytes c;
  truncations = (h.truncations + 1) % 2 ^ 64;
  truncated_bytes = (h.truncated_bytes + chunk_bytes c) % 2 ^ 64;
}

-- The first loop of `appendHistoryLocked`, on what the session keeps.
unfoldable pub trim_session : ℕ → ℕ → List Chunk → History → History
trim_session id bytes [] h = h
trim_session id bytes (c ∷ rest) h =
    let trimmed =
      trim_session id (bytes - chunk_bytes c) rest
        (drop_first id (record { chunks = c ∷ rest; bytes = bytes }) (c ∷ rest) h) in
    if ltb h.session_limit bytes then trimmed else h

abbrev pub first_before : Chunk → List Chunk → Bool
first_before c [] = false
first_before c (d ∷ rest) = ltb c.order d.order

-- The older of two sessions by their first chunks, among those that have one.
abbrev pub older : ℕ → Kept → Option (ℕ × Kept) → List Chunk → Option (ℕ × Kept)
older id k best [] = best
older id k none (c ∷ rest) = some (id, k)
older id k (some (other, kept)) (c ∷ rest) =
    if first_before c kept.chunks then some (id, k) else some (other, kept)

-- The inner loop: the session whose first chunk is the oldest, in whatever order they are visited.
unfoldable pub oldest : Option (ℕ × Kept) → Map Kept → Option (ℕ × Kept)
oldest best [] = best
oldest best ((id, k) ∷ rest) = oldest (older id k best k.chunks) rest

abbrev pub trim_oldest : (History → History) → History → Option (ℕ × Kept) → History
trim_oldest later h none = h
trim_oldest later h (some (id, k)) = later (drop_first id k k.chunks h)

-- The second loop, at most as often as there are chunks.
unfoldable pub trim_total : ℕ → History → History
trim_total zero h = h
trim_total (suc n) h =
    let trimmed = trim_oldest (λ h'. trim_total n h') h (oldest none h.sessions) in
    if ltb h.total_limit h.bytes then trimmed else h

abbrev pub count_chunks : Map Kept → ℕ
count_chunks m = sum_of (λ k. length k.chunks) m

abbrev pub data_limit : History → ℕ
data_limit h = if ltb h.total_limit h.session_limit then h.total_limit else h.session_limit

-- The event as it is kept: its last bytes, if it is over the limit.
abbrev pub cut_event : ℕ → OutputEvent → OutputEvent
cut_event limit e =
    if ltb limit (length e.data_bytes)
    then record {
      sequence = e.sequence;
      data_bytes = drop (length e.data_bytes - limit) e.data_bytes;
    }
    else e

abbrev pub kept_of : Option Kept → Kept
kept_of none = no_history
kept_of (some k) = k

abbrev pub new_chunk : OutputEvent → History → Chunk
new_chunk event h = record {
  event = cut_event (data_limit h) event;
  order = (h.next_order + 1) % 2 ^ 64;
}

abbrev pub with_chunk : Chunk → Kept → Kept
with_chunk c k = record { chunks = k.chunks ++ (c ∷ []); bytes = k.bytes + chunk_bytes c }

-- The chunk added, before the loops.
unfoldable pub add_chunk : ℕ → OutputEvent → History → History
add_chunk id event h =
    let over = ltb (data_limit h) (length event.data_bytes) in
    let c = new_chunk event h in
    record h {
      sessions = insert id (with_chunk c (kept_of (lookup id h.sessions))) h.sessions;
      bytes = h.bytes + chunk_bytes c;
      next_order = (h.next_order + 1) % 2 ^ 64;
      truncations = if over then (h.truncations + 1) % 2 ^ 64 else h.truncations;
      truncated_bytes =
          if over
          then (h.truncated_bytes + (length event.data_bytes - data_limit h)) % 2 ^ 64
          else h.truncated_bytes;
    }

abbrev pub trim_added : ℕ → Kept → History → History
trim_added id k h =
    let trimmed = trim_session id k.bytes k.chunks h in
    trim_total (count_chunks trimmed.sessions) trimmed

-- `appendHistoryLocked` for the session `id`
unfoldable pub append_history : ℕ → OutputEvent → History → History
append_history id event h =
    if h.session_limit == 0 || h.total_limit == 0
    then h
    else let added = add_chunk id event h in
      trim_added id (kept_of (lookup id added.sessions)) added

-- `removeHistoryLocked`
unfoldable pub remove_history : ℕ → History → History
remove_history id h = record h {
  sessions = insert id no_history h.sessions;
  bytes = h.bytes - (kept_of (lookup id h.sessions)).bytes;
}
