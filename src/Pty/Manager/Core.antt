-- ===== src/Pty/Manager/Core.antt =====
-- What is always true of the Manager of pty/manager.go and of the goroutines between two of its holds, and
-- that what happens to one session keeps it so.
use streammux.Base.{
  ℕ, ◌+◌, ◌≡◌, ◌≤◌, sym, subst, Bool, true, false, some, List, length, if◌then◌else◌, ◌==◌, arith,
}
use streammux.Base.Map.{
  Map, lookup, insert, delete, member, Distinct, remove_key, length-remove_key-le,
}
use streammux.Pty.History.{History}
use streammux.Pty.History.Bounds.{IsWithin}
use streammux.Pty.Manager.{Bounds, Session, Manager, is_live}
use streammux.Pty.Manager.Registry.{
  IsSession, IsRegistry, IsNumbered, touch-IsRegistry, delete-IsRegistry, replace-IsNumbered,
  delete-IsNumbered,
}
use streammux.Pty.Manager.Steps.{System}

-- For bounds that are those given, with so many retained IDs beyond their bound.
pub record IsCore (b : Bounds) (slack : Bounds × ℕ) (ss : Map Session) (rs ts : List ℕ)
    (active starting : ℕ) (starts : List ℕ) (next : ℕ) (exhausted : Bool) (h : History)
    : Type 0 where
  pub same : b ≡ slack.0
  pub registry : IsRegistry b.max_attachments ss rs ts active
  pub numbered : IsNumbered ss starts next exhausted
  pub starting_all : starting ≡ length starts
  pub room : active + starting ≤ b.max_sessions
  pub few : length rs ≤ b.max_retained + slack.1
  pub history : IsWithin h

abbrev pub CoreOf : Bounds × ℕ → Manager → List ℕ → List ℕ → Type 0
CoreOf slack m starts ts =
    IsCore m.bounds slack m.sessions m.retained_exited ts m.active m.starting starts m.next_session
      m.exhausted m.history

abbrev pub IsManager : Bounds → System → Type 0
IsManager b y = CoreOf (b, 0) y.manager y.starts y.settles

module _ (m : Manager) (slack : Bounds × ℕ) (k : ℕ) (s : Session) (starts ts : List ℕ)
    (core : CoreOf slack m starts ts) (found : lookup k m.sessions ≡ some s) where
  -- A session changes in nothing that is counted.
  pub touch-IsCore :
      (s' : Session) (h : History)
      → s'.id ≡ s.id
      → IsSession m.bounds.max_attachments s'
      → is_live s'.state ≡ is_live s.state
      → s'.retained ≡ s.retained
      → s'.removing ≡ s.removing
      → IsWithin h
      → IsCore m.bounds slack
          (insert k s' m.sessions)
          m.retained_exited
          ts
          m.active
          m.starting
          starts
          m.next_session
          m.exhausted
          h
  touch-IsCore s' h same good lives retains removes within = record {
    same = core.same;
    registry =
        touch-IsRegistry m.bounds.max_attachments k s s' m.sessions m.retained_exited ts m.active
          core.registry found same good lives retains removes;
    numbered =
        replace-IsNumbered k s m.sessions starts m.next_session m.exhausted core.numbered s' found;
    starting_all = core.starting_all;
    room = core.room;
    few = core.few;
    history = within;
  }

  pub is_named : (s.id ≡ k) × IsSession m.bounds.max_attachments s
  is_named = core.registry.named k s found

  pub found_by_id : lookup s.id m.sessions ≡ some s
  unfolding is_named
  found_by_id = subst (λ i. lookup i m.sessions ≡ some s) (sym (is_named.0)) found

  -- A session goes.
  pub delete-IsCore :
      (ts' : List ℕ) (h : History)
      → is_live s.state ≡ false
      → Distinct ts'
      → ((j : ℕ) → member j ts' ≡ true → (if k == j then false else member j ts) ≡ true)
      → IsWithin h
      → IsCore m.bounds slack
          (delete k m.sessions)
          (remove_key k m.retained_exited)
          ts'
          m.active
          m.starting
          starts
          m.next_session
          m.exhausted
          h
  delete-IsCore ts' h idle once others within = record {
    same = core.same;
    registry =
        delete-IsRegistry m.bounds.max_attachments k s m.sessions m.retained_exited ts m.active
          core.registry ts' found idle once others;
    numbered =
        delete-IsNumbered k s m.sessions starts m.next_session m.exhausted core.numbered
          core.registry.distinct;
    starting_all = core.starting_all;
    room = core.room;
    few = omega (arith, core.few, length-remove_key-le k m.retained_exited);
    history = within;
  }
