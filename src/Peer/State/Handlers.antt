-- ===== src/Peer/State/Handlers.antt =====
-- Registering handlers, in peer.go.
use streammux.Base.{
  ℕ, ◌≡◌, ◌≢◌, refl, sym, ap, ◌∙◌, true, false, Option, none, some, List, [], ◌∷◌, ◌==◌,
  if◌then◌else◌, arith, is_some, length, All, ok, none-ne-some, ok-injective, ok-ne-err, else-ok,
  if_false, ◌<◌,
}
use streammux.Base.Map.{Map, lookup, insert, member, Distinct, lookup-insert}
use streammux.Errors.{Error}
use streammux.Peer.State.{Peer, first_conflict, put_handlers, commit_handlers, register_handlers}

-- A pair that may be registered.
abbrev pub IsNew : Map ℕ → ℕ × Option ℕ → Type 0
IsNew registered (type, handler) =
    (type ≢ 0) × ((lookup type registered ≡ none) × (is_some handler ≡ true))

abbrev pub types : List (ℕ × Option ℕ) → List ℕ
types [] = []
types ((type, handler) ∷ rest) = type ∷ types rest

-- The handler that a list gives a type.
abbrev pub given : ℕ → List (ℕ × Option ℕ) → Option ℕ
given k [] = none
given k ((type, handler) ∷ rest) = if type == k then handler else given k rest

-- What a type has after the registration.
abbrev pub or_else : Option ℕ → Option ℕ → Option ℕ
or_else (some x) y = some x
or_else none y = y

no_conflict-IsNew :
    (registered : Map ℕ) (handlers : List (ℕ × Option ℕ))
    → first_conflict registered handlers ≡ none
    → All (IsNew registered) handlers
unfolding first_conflict
no_conflict-IsNew registered [] e = tt
no_conflict-IsNew registered ((type, none) ∷ rest) e = absurd (none-ne-some (sym e))
no_conflict-IsNew registered ((type, some handler) ∷ rest) e =
    ground (arith, no_conflict-IsNew registered rest)

given-absent : (k : ℕ) (hs : List (ℕ × Option ℕ)) → member k (types hs) ≡ false → given k hs ≡ none
given-absent k [] h = refl
given-absent k ((type, handler) ∷ rest) h = ground (arith, given-absent k rest)

lookup-put_handlers :
    (k : ℕ) (hs : List (ℕ × Option ℕ)) (registered : Map ℕ)
    → Distinct (types hs)
    → lookup k (put_handlers hs registered) ≡ or_else (given k hs) (lookup k registered)
unfolding put_handlers
lookup-put_handlers k [] registered d = refl
lookup-put_handlers k ((type, none) ∷ rest) registered d =
    ground (arith, lookup-put_handlers k rest registered, given-absent k rest)
lookup-put_handlers k ((type, some handler) ∷ rest) registered d = ground (
  arith,
  lookup-put_handlers k rest (insert type handler registered),
  lookup-insert type k handler registered,
  given-absent k rest,
)

-- What a registration that succeeds has found and done.
pub record Registered (hs : List (ℕ × Option ℕ)) (p p' : Peer) : Type 0 where
  pub live : p.closed ≡ false
  pub fresh : All (IsNew p.handlers) hs
  pub entered : (k : ℕ) → lookup k p'.handlers ≡ or_else (given k hs) (lookup k p.handlers)
  pub kept :
      (k : ℕ) → is_some (lookup k p.handlers) ≡ true → lookup k p'.handlers ≡ lookup k p.handlers

given-fresh :
    (k : ℕ) (hs : List (ℕ × Option ℕ)) (registered : Map ℕ)
    → All (IsNew registered) hs
    → is_some (lookup k registered) ≡ true
    → given k hs ≡ none
given-fresh k [] registered fresh h = refl
given-fresh k ((type, handler) ∷ rest) registered fresh h =
    ground (arith, given-fresh k rest registered fresh.1)

commit_handlers-Registered :
    (hs : List (ℕ × Option ℕ)) (p p' : Peer) (conflict : Option Error)
    → Distinct (types hs)
    → p.closed ≡ false
    → first_conflict p.handlers hs ≡ conflict
    → commit_handlers hs p conflict ≡ ok p'
    → Registered hs p p'
commit_handlers-Registered hs p p' (some x) d live c e = absurd (ok-ne-err (sym e))
commit_handlers-Registered hs p p' none d live c e =
    let fresh = no_conflict-IsNew p.handlers hs c in
    let entered : (k : ℕ) → lookup k p'.handlers ≡ or_else (given k hs) (lookup k p.handlers) = λ k.
      ap (λ (q : Peer). lookup k q.handlers) (sym (ok-injective e))
      ∙ lookup-put_handlers k hs p.handlers d in
    record {
      live = live;
      fresh = fresh;
      entered = entered;
      kept = λ k h.
          entered k
          ∙ ap (λ g. or_else g (lookup k p.handlers)) (given-fresh k hs p.handlers fresh h);
    }

-- `RegisterHandlers`, where it succeeds on a map (no type twice), was called on an open Peer with
-- non-zero types that had no handler, none of the new handlers nil; each type has its new handler
-- then, and every handler registered before stays.
pub register_handlers-Registered :
    (hs : List (ℕ × Option ℕ)) (p p' : Peer)
    → Distinct (types hs)
    → register_handlers hs p ≡ ok p'
    → Registered hs p p'
unfolding register_handlers
register_handlers-Registered hs p p' d e =
    let (_, some_hs) = else-ok (length hs == 0) _ _ p' e in
    let (live, committed) = else-ok p.closed _ _ p' some_hs in
    commit_handlers-Registered hs p p' (first_conflict p.handlers hs) d live refl committed

IsNew-no_conflict :
    (registered : Map ℕ) (hs : List (ℕ × Option ℕ))
    → All (IsNew registered) hs
    → first_conflict registered hs ≡ none
unfolding first_conflict
IsNew-no_conflict registered [] fresh = refl
IsNew-no_conflict registered ((type, none) ∷ rest) fresh = ground arith
IsNew-no_conflict registered ((type, some handler) ∷ rest) fresh =
    ground (arith, IsNew-no_conflict registered rest)

-- `RegisterHandlers` accepts every non-empty group of non-nil handlers for non-zero types that have
-- none, as long as the Peer is open.
pub register_handlers-accepts :
    (hs : List (ℕ × Option ℕ)) (p : Peer)
    → p.closed ≡ false
    → 0 < length hs
    → All (IsNew p.handlers) hs
    → (p' : Peer) × (register_handlers hs p ≡ ok p')
unfolding register_handlers
register_handlers-accepts hs p live some_hs fresh = (
  record p { handlers = put_handlers hs p.handlers },
  if_false (length hs == 0) _ _ (ground arith)
      ∙ if_false p.closed _ _ live
      ∙ ap (commit_handlers hs p) (IsNew-no_conflict p.handlers hs fresh),
)
