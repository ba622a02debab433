-- ===== src/Pty/Config.antt =====
-- The configurations of the package pty: `MessageTypes` of pty/protocol.go and `ManagerConfig` of
-- pty/manager.go, durations in nanoseconds.
use streammux.Base.{
  ℕ, ◌*◌, ◌≤◌, ◌<◌, ◌≡◌, ◌≢◌, ◌↔◌, refl, Bool, false, not, ◌&&◌, ◌||◌, Option, none, some, List, [],
  ◌∷◌, ◌==◌, if◌then◌else◌, All, arith,
}
use streammux.Base.Int.{ℤ, pos, leb_ℤ, ltb_ℤ, pos_part}
use streammux.Base.Map.{member, Distinct}
use streammux.Pty.Values.{PtyError, invalid_message_types, invalid_manager_config}

pub record MessageTypes : Type 0 where
  pub open_type : ℕ
  pub list_type : ℕ
  pub inspect_type : ℕ
  pub attach_type : ℕ
  pub detach_type : ℕ
  pub input_type : ℕ
  pub output_type : ℕ
  pub resize_type : ℕ
  pub kill_type : ℕ
  pub exit_type : ℕ
  pub replay_begin_type : ℕ
  pub replay_end_type : ℕ
  pub error_type : ℕ

-- `values` in `validate`
abbrev pub values_of : MessageTypes → List ℕ
values_of t =
    t.open_type ∷ t.list_type ∷ t.inspect_type ∷ t.attach_type ∷ t.detach_type ∷ t.input_type
    ∷ t.output_type ∷ t.resize_type ∷ t.kill_type ∷ t.exit_type ∷ t.replay_begin_type
    ∷ t.replay_end_type ∷ t.error_type ∷ []

-- The loop of `validate`, past the values `seen`.
check_values : List ℕ → List ℕ → Option PtyError
check_values seen [] = none
check_values seen (value ∷ rest) =
    if value == 0
    then some invalid_message_types
    else if member value seen
    then some invalid_message_types
    else check_values (value ∷ seen) rest

-- `MessageTypes.validate`
unfoldable pub types_validate : MessageTypes → Option PtyError
unfolding check_values
types_validate t = check_values [] (values_of t)

abbrev pub IsUnseen : List ℕ → ℕ → Type 0
IsUnseen seen v = (v ≢ 0) × (member v seen ≡ false)

IsUnseen-uncons :
    (v : ℕ) (seen vs : List ℕ)
    → All (IsUnseen (v ∷ seen)) vs
    → All (IsUnseen seen) vs × (member v vs ≡ false)
IsUnseen-uncons v seen [] h = (tt, refl)
IsUnseen-uncons v seen (x ∷ vs) h = let (one, rest) = IsUnseen-uncons v seen vs h.1 in ground arith

IsUnseen-cons :
    (v : ℕ) (seen vs : List ℕ)
    → All (IsUnseen seen) vs
    → member v vs ≡ false
    → All (IsUnseen (v ∷ seen)) vs
IsUnseen-cons v seen [] h fresh = tt
IsUnseen-cons v seen (x ∷ vs) h fresh = ground (arith, IsUnseen-cons v seen vs h.1)

check_values_sound :
    (seen vs : List ℕ) → check_values seen vs ≡ none → All (IsUnseen seen) vs × Distinct vs
unfolding check_values
check_values_sound seen [] e = (tt, tt)
check_values_sound seen (v ∷ vs) e =
    ground (arith, check_values_sound (v ∷ seen) vs, IsUnseen-uncons v seen vs)

check_values_complete :
    (seen vs : List ℕ) → All (IsUnseen seen) vs → Distinct vs → check_values seen vs ≡ none
unfolding check_values
check_values_complete seen [] h d = refl
check_values_complete seen (v ∷ vs) h d =
    ground (arith, check_values_complete (v ∷ seen) vs, IsUnseen-cons v seen vs)

-- `validate` accepts the message types exactly if they are non-zero and pairwise distinct.
pub types_validate_iff :
    (t : MessageTypes)
    → (types_validate t ≡ none)
      ↔ (All (λ v. (v ≢ 0) × (member v [] ≡ false)) (values_of t) × Distinct (values_of t))
unfolding types_validate
types_validate_iff t =
    (check_values_sound [] (values_of t), λ h. check_values_complete [] (values_of t) h.0 h.1)

-- `ExitedSessionPolicy`
abbrev pub exited_session_remove : ℕ
exited_session_remove = 0

abbrev pub exited_session_retain : ℕ
exited_session_retain = 1

pub record ManagerConfig : Type 0 where
  pub max_sessions : ℤ
  pub history_bytes : ℤ
  pub max_total_history_bytes : ℤ
  pub read_buffer_bytes : ℤ
  pub attachment_queue_bytes : ℤ
  pub observer_queue_bytes : ℤ
  pub max_observers : ℤ
  pub exit_policy : ℕ
  pub max_retained_sessions : ℤ
  pub max_attachments_per_session : ℤ
  pub attachment_drain_timeout : ℤ
  pub graceful_kill_timeout : ℤ

-- `DefaultManagerConfig`
abbrev pub default_manager_config : ManagerConfig
default_manager_config = record {
  max_sessions = pos 256;
  history_bytes = pos (16 * 1024 * 1024);
  max_total_history_bytes = pos (512 * 1024 * 1024);
  read_buffer_bytes = pos (32 * 1024);
  attachment_queue_bytes = pos (4 * 1024 * 1024);
  observer_queue_bytes = pos (4 * 1024 * 1024);
  max_observers = pos 32;
  exit_policy = exited_session_remove;
  max_retained_sessions = pos 0;
  max_attachments_per_session = pos 1;
  attachment_drain_timeout = pos 2000000000;
  graceful_kill_timeout = pos 2000000000;
}

-- The `switch` of `validate`: whether the policy and its bound go together.
abbrev pub policy_valid : ManagerConfig → Bool
policy_valid c =
    if c.exit_policy == exited_session_remove
    then leb_ℤ c.max_retained_sessions (pos 0) && leb_ℤ (pos 0) c.max_retained_sessions
    else if c.exit_policy == exited_session_retain
    then ltb_ℤ (pos 0) c.max_retained_sessions
    else false

bounds_invalid : ManagerConfig → Bool
bounds_invalid c =
    leb_ℤ c.max_sessions (pos 0)
    || ltb_ℤ c.history_bytes (pos 0)
    || ltb_ℤ c.max_total_history_bytes (pos 0)
    || leb_ℤ c.read_buffer_bytes (pos 0)
    || leb_ℤ c.attachment_queue_bytes (pos 0)
    || leb_ℤ c.observer_queue_bytes (pos 0)
    || leb_ℤ c.max_observers (pos 0)
    || leb_ℤ c.max_attachments_per_session (pos 0)
    || ltb_ℤ c.attachment_drain_timeout (pos 0)
    || ltb_ℤ c.graceful_kill_timeout (pos 0)

abbrev pub history_invalid : ManagerConfig → Bool
history_invalid c =
    ltb_ℤ (pos 0) c.history_bytes
    && ltb_ℤ c.max_total_history_bytes c.history_bytes
    && not (leb_ℤ c.max_total_history_bytes (pos 0) && leb_ℤ (pos 0) c.max_total_history_bytes)

-- `ManagerConfig.validate`
unfoldable pub manager_config_validate : ManagerConfig → Option PtyError
unfolding bounds_invalid
manager_config_validate c =
    if bounds_invalid c
    then some invalid_manager_config
    else if not (policy_valid c)
    then some invalid_manager_config
    else if history_invalid c
    then some invalid_manager_config
    else none

-- What the Manager relies on: positive bounds, and a session's history within the whole, or none.
pub record IsManagerConfig (c : ManagerConfig) : Type 0 where
  pub some_sessions : 0 < pos_part c.max_sessions
  pub some_buffer : 0 < pos_part c.read_buffer_bytes
  pub some_queue : 0 < pos_part c.attachment_queue_bytes
  pub some_observer_queue : 0 < pos_part c.observer_queue_bytes
  pub some_attachments : 0 < pos_part c.max_attachments_per_session
  pub retained : c.exit_policy ≡ exited_session_retain → 0 < pos_part c.max_retained_sessions
  pub removed : c.exit_policy ≡ exited_session_remove → pos_part c.max_retained_sessions ≡ 0
  pub history_within :
      0 < pos_part c.max_total_history_bytes
      → pos_part c.history_bytes ≤ pos_part c.max_total_history_bytes

bounds-IsPositive :
    (c : ManagerConfig)
    → bounds_invalid c ≡ false
    → (0 < pos_part c.max_sessions)
      × ((0 < pos_part c.read_buffer_bytes)
          × ((0 < pos_part c.attachment_queue_bytes)
              × ((0 < pos_part c.observer_queue_bytes)
                  × (0 < pos_part c.max_attachments_per_session))))
unfolding bounds_invalid
bounds-IsPositive c e = ground arith

-- Every configuration that `validate` accepts has positive bounds, retains sessions only under the
-- policy that does, with a positive bound, and bounds a session's history by the whole one's bound
-- unless that is zero.
pub manager_config_validate-IsManagerConfig :
    (c : ManagerConfig) → manager_config_validate c ≡ none → IsManagerConfig c
unfolding manager_config_validate
manager_config_validate-IsManagerConfig c e = ground (arith, bounds-IsPositive c)
