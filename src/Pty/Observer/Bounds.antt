-- ===== src/Pty/Observer/Bounds.antt =====
-- The observers of pty/manager.go keep within their bounds and miss nothing while they stay.
use streammux.Base.{
  ℕ, ◌+◌, ◌≡◌, ◌≤◌, refl, subst, true, ◌||◌, false, if_elim, [], ◌∷◌, ◌++◌, ltb, total,
  total-append, Result, ok, err, else-ok, ok-injective, arith,
}
use streammux.Base.Map.{Map, Each}
use streammux.Pty.Values.{PtyError}
use streammux.Pty.Observer.{Event, Subscription, observed_bytes, observe, keep_or_fail, emit}

pub record IsSubscription (id : ℕ) (s : Subscription) : Type 0 where
  pub counted : s.bytes ≡ total observed_bytes s.queue
  pub bounded : s.bytes ≤ s.max_bytes
  pub emptied : s.closed ≡ true → s.queue ≡ []

observe-IsSubscription :
    (id : ℕ) (e : Event) (s s' : Subscription)
    → IsSubscription id s
    → observe e s ≡ ok s'
    → IsSubscription id s'
unfolding observe
observe-IsSubscription id e s s' inv h =
    let (live, room) = else-ok s.closed _ _ s' h in
    let (fits, done) =
      else-ok (ltb s.max_bytes (observed_bytes e) || ltb s.max_bytes (s.bytes + observed_bytes e)) _
        _ s' room in
    subst (IsSubscription id) (ok-injective done) (record {
      counted = omega (arith, inv.counted, total-append observed_bytes s.queue (e ∷ []));
      bounded = ground arith;
      emptied = λ c. ground arith;
    })

-- An observer is open and has room for the event within its bound.
pub record CanTake (e : Event) (s : Subscription) : Type 0 where
  pub open_still : s.closed ≡ false
  pub room : s.bytes + observed_bytes e ≤ s.max_bytes

-- What an event does to the observers: each that can take it has it last in its queue and counted, and
-- nothing else of it is changed; the others are taken off.
pub data Emitted (e : Event) : Map Subscription → Map Subscription → Map Subscription → Type 0 where
  nobody : Emitted e [] [] []
  told :
      (id : ℕ) (s : Subscription) (rest kept lost : Map Subscription)
      → CanTake e s
      → Emitted e rest kept lost
      → Emitted e
          ((id, s) ∷ rest)
          ((id, record s { queue = s.queue ++ (e ∷ []); bytes = s.bytes + observed_bytes e })
            ∷ kept)
          lost
  dropped :
      (id : ℕ) (s : Subscription) (rest kept lost : Map Subscription)
      → ¬ CanTake e s
      → Emitted e rest kept lost
      → Emitted e ((id, s) ∷ rest) kept ((id, s) ∷ lost)

-- One observer, with what the answer of its queue makes of it.
abbrev After :
    Event
    → ℕ
    → Subscription
    → Map Subscription
    → Map Subscription × Map Subscription
    → Result PtyError Subscription
    → Type 0
After e id s rest others r =
    Emitted e ((id, s) ∷ rest) (keep_or_fail id s r others).0 (keep_or_fail id s r others).1

observe-After :
    (e : Event) (id : ℕ) (s : Subscription) (rest : Map Subscription)
    (others : Map Subscription × Map Subscription)
    → Emitted e rest others.0 others.1
    → After e id s rest others (observe e s)
unfolding observe
observe-After e id s rest (kept, lost) later =
    if_elim (After e id s rest (kept, lost)) s.closed _ _
      (λ shut.
        dropped id s rest kept lost (λ (c : CanTake e s). ground (arith, shut, c.open_still)) later)
      λ live.
        if_elim (After e id s rest (kept, lost))
          (ltb s.max_bytes (observed_bytes e) || ltb s.max_bytes (s.bytes + observed_bytes e)) _ _
          (λ full.
            dropped id s rest kept lost (λ (c : CanTake e s). ground (arith, full, c.room)) later)
          (λ fits.
            told id s rest kept lost (record { open_still = live; room = ground (arith, fits) })
              later)

-- `emitLocked` tells every observer: each that is open and has room for the event within its bound stays,
-- with the event last in its queue and counted, and just the others are taken off the table.
pub emit-Emitted : (e : Event) (m : Map Subscription) → Emitted e m (emit e m).0 (emit e m).1
unfolding emit
emit-Emitted e [] = nobody
emit-Emitted e ((id, s) ∷ rest) = observe-After e id s rest (emit e rest) (emit-Emitted e rest)

keep_or_fail-IsSubscription :
    (e : Event) (id : ℕ) (s : Subscription) (r : Result PtyError Subscription)
    (others : Map Subscription × Map Subscription)
    → IsSubscription id s
    → observe e s ≡ r
    → Each IsSubscription others.0
    → Each IsSubscription (keep_or_fail id s r others).0
keep_or_fail-IsSubscription e id s (ok s') (kept, lost) inv h rest =
    (observe-IsSubscription id e s s' inv h, rest)
keep_or_fail-IsSubscription e id s (err x) (kept, lost) inv h rest = rest

-- An event leaves every observer that stays counted right and within its bound.
pub emit-IsSubscription :
    (e : Event) (m : Map Subscription) → Each IsSubscription m → Each IsSubscription (emit e m).0
unfolding emit
emit-IsSubscription e [] inv = tt
emit-IsSubscription e ((id, s) ∷ rest) inv =
    keep_or_fail-IsSubscription e id s (observe e s) (emit e rest) inv.0 refl
      (emit-IsSubscription e rest inv.1)
