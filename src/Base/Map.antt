-- ===== src/Base/Map.antt =====
-- Go maps with numeric keys as association lists. Writing a key replaces its value in place.
use Prim.Native.Nat.{ℕ, zero, suc, ◌+◌, ◌≤◌, ◌<◌}
use mathlib.Core.Path.{◌≡◌, refl, ap, sym, ◌∙◌}
use mathlib.Core.Bool.{Bool, true, false, ◌||◌}
use mathlib.Core.List.{List, [], ◌∷◌, ◌++◌}
use mathlib.Core.Option.{Option, none, some}
use native.Mathlib.Omega.{arith}
use streammux.Base.Tests.{◌==◌, ==_iff, if◌then◌else◌, is_some, some-injective, Bool-cases}
use mathlib.Core.Logic.{◌≢◌, ◌⊎◌, inl, inr}
unfoldable use native.Mathlib.Decide.{ℕ_discrete}
use streammux.Base.Lists.{length, get_elem?, remove_at}

abbrev pub member : ℕ → List ℕ → Bool
member k [] = false
member k (j ∷ js) = (j == k) || member k js

-- No key twice.
abbrev pub Distinct : List ℕ → Type 0
Distinct [] = Unit {0}
Distinct (k ∷ ks) = (member k ks ≡ false) × Distinct ks

-- Without the first `k`.
abbrev pub remove_key : ℕ → List ℕ → List ℕ
remove_key k [] = []
remove_key k (j ∷ js) = if j == k then js else j ∷ remove_key k js

pub member-append : (k : ℕ) (xs ys : List ℕ) → member k (xs ++ ys) ≡ (member k xs || member k ys)
member-append k [] ys = refl
member-append k (x ∷ xs) ys = ground (arith, member-append k xs ys)

pub Distinct-snoc :
    (k : ℕ) (ks : List ℕ) → Distinct ks → member k ks ≡ false → Distinct (ks ++ k ∷ [])
Distinct-snoc k [] d h = (refl, tt)
Distinct-snoc k (j ∷ js) d h =
    (ground (arith, member-append j js (k ∷ []), d.0), Distinct-snoc k js d.1 (ground arith))

pub member-remove_key :
    (k j : ℕ) (ks : List ℕ)
    → Distinct ks
    → member j (remove_key k ks) ≡ (if k == j then false else member j ks)
member-remove_key k j [] d = ground arith
member-remove_key k j (i ∷ is) d = ground (arith, member-remove_key k j is d.1)

pub Distinct-remove_key : (k : ℕ) (ks : List ℕ) → Distinct ks → Distinct (remove_key k ks)
Distinct-remove_key k [] d = tt
Distinct-remove_key k (j ∷ js) d = elim (Bool-cases (j == k)) [
  | inl e ↦ ground arith
  | inr e ↦ ground (arith, member-remove_key k j js d.1, Distinct-remove_key k js d.1)
]

pub length-remove_key :
    (k : ℕ) (ks : List ℕ) → member k ks ≡ true → suc (length (remove_key k ks)) ≡ length ks
length-remove_key k [] h = ground arith
length-remove_key k (j ∷ js) h = ground (arith, length-remove_key k js)

pub length-remove_key-le : (k : ℕ) (xs : List ℕ) → length (remove_key k xs) ≤ length xs
length-remove_key-le k [] = omega arith
length-remove_key-le k (x ∷ xs) = ground (arith, length-remove_key-le k xs)

abbrev pub Map : Type 0 → Type 0
Map V = List (ℕ × V)

module _ {V : Type 0} where
  abbrev pub keys : Map V → List ℕ
  keys [] = []
  keys ((k, v) ∷ m) = k ∷ keys m

  abbrev pub lookup : ℕ → Map V → Option V
  lookup k [] = none
  lookup k ((j, v) ∷ m) = if j == k then some v else lookup k m

  abbrev pub insert : ℕ → V → Map V → Map V
  insert k v [] = (k, v) ∷ []
  insert k v ((j, w) ∷ m) = if j == k then (j, v) ∷ m else (j, w) ∷ insert k v m

  abbrev pub delete : ℕ → Map V → Map V
  delete k [] = []
  delete k ((j, w) ∷ m) = if j == k then m else (j, w) ∷ delete k m

  -- The sum of a measure over the values.
  abbrev pub sum_of : (V → ℕ) → Map V → ℕ
  sum_of f [] = 0
  sum_of f ((k, v) ∷ m) = f v + sum_of f m

  abbrev pub Each {κ} : (ℕ → V → Type κ) → Map V → Type κ
  Each P [] = Unit {κ}
  Each P ((k, v) ∷ m) = P k v × Each P m

module _ {V : Type 0} where
  pub lookup-insert :
      (k j : ℕ) (v : V) (m : Map V)
      → lookup j (insert k v m) ≡ (if k == j then some v else lookup j m)
  lookup-insert k j v [] = refl
  lookup-insert k j v ((i, w) ∷ m) = ground (arith, lookup-insert k j v m)

  pub member-keys : (k : ℕ) (m : Map V) → member k (keys m) ≡ is_some (lookup k m)
  member-keys k [] = refl
  member-keys k ((j, v) ∷ m) = ground (arith, member-keys k m)

  pub lookup-delete :
      (k j : ℕ) (m : Map V)
      → Distinct (keys m)
      → lookup j (delete k m) ≡ (if k == j then none else lookup j m)
  lookup-delete k j [] d = ground arith
  lookup-delete k j ((i, w) ∷ m) d = ground (arith, lookup-delete k j m d.1, member-keys i m)

  pub keys-delete : (k : ℕ) (m : Map V) → keys (delete k m) ≡ remove_key k (keys m)
  keys-delete k [] = refl
  keys-delete k ((j, w) ∷ m) = ground (arith, keys-delete k m)

  pub member-insert :
      (k j : ℕ) (v : V) (m : Map V)
      → member j (keys (insert k v m)) ≡ (if k == j then true else member j (keys m))
  member-insert k j v [] = ground arith
  member-insert k j v ((i, w) ∷ m) = ground (arith, member-insert k j v m)

  pub Distinct-insert :
      (k : ℕ) (v : V) (m : Map V) → Distinct (keys m) → Distinct (keys (insert k v m))
  Distinct-insert k v [] d = (refl, tt)
  Distinct-insert k v ((j, w) ∷ m) d = elim (Bool-cases (j == k)) [
    | inl e ↦ ground arith
    | inr e ↦ ground (arith, member-insert k j v m, Distinct-insert k v m d.1)
  ]

  pub length-insert :
      (k : ℕ) (v : V) (m : Map V)
      → length (insert k v m) ≡ (if is_some (lookup k m) then length m else suc (length m))
  length-insert k v [] = refl
  length-insert k v ((j, w) ∷ m) = ground (arith, length-insert k v m)

  pub length-delete :
      (k : ℕ) (m : Map V) → is_some (lookup k m) ≡ true → suc (length (delete k m)) ≡ length m
  length-delete k [] h = ground arith
  length-delete k ((j, w) ∷ m) h = ground (arith, length-delete k m)

  pub length-delete-le : (k : ℕ) (m : Map V) → length (delete k m) ≤ length m
  length-delete-le k [] = omega arith
  length-delete-le k ((j, w) ∷ m) = ground (arith, length-delete-le k m)

  pub length-keys : (m : Map V) → length (keys m) ≡ length m
  length-keys [] = refl
  length-keys ((k, v) ∷ m) = ap suc (length-keys m)

  -- A value that is replaced leaves the sum, and the new one joins it.
  pub sum_of-insert :
      (f : V → ℕ) (k : ℕ) (v w : V) (m : Map V)
      → lookup k m ≡ some w
      → sum_of f (insert k v m) + f w ≡ sum_of f m + f v
  sum_of-insert f k v w [] e = ground arith
  sum_of-insert f k v w ((j, u) ∷ m) e = ground (arith, sum_of-insert f k v w m)

  pub sum_of-insert_new :
      (f : V → ℕ) (k : ℕ) (v : V) (m : Map V)
      → lookup k m ≡ none
      → sum_of f (insert k v m) ≡ sum_of f m + f v
  sum_of-insert_new f k v [] e = omega arith
  sum_of-insert_new f k v ((j, u) ∷ m) e = ground (arith, sum_of-insert_new f k v m)

  pub sum_of-delete :
      (f : V → ℕ) (k : ℕ) (w : V) (m : Map V)
      → lookup k m ≡ some w
      → sum_of f (delete k m) + f w ≡ sum_of f m
  sum_of-delete f k w [] e = ground arith
  sum_of-delete f k w ((j, u) ∷ m) e = ground (arith, sum_of-delete f k w m)

  pub le-sum_of : (f : V → ℕ) (k : ℕ) (w : V) (m : Map V) → lookup k m ≡ some w → f w ≤ sum_of f m
  le-sum_of f k w [] e = ground arith
  le-sum_of f k w ((j, u) ∷ m) e = ground (arith, le-sum_of f k w m)

  -- What stands under a key after an insertion: the new value there, the old one elsewhere.
  pub inserted :
      (id i : ℕ) (v x : V) (m : Map V)
      → lookup i (insert id v m) ≡ some x
      → ((i ≡ id) × (x ≡ v)) ⊎ ((i ≢ id) × (lookup i m ≡ some x))
  inserted id i v x m e = elim (ℕ_discrete i id) [
    | yes same ↦ inl (same, sym (some-injective (sym (lookup-insert id i v m ∙ here same) ∙ e)))
    | no other ↦ inr (other, sym (lookup-insert id i v m ∙ elsewhere other) ∙ e)
  ]
    where
      here : i ≡ id → (if id == i then some v else lookup i m) ≡ some v
      here same = ground arith

      elsewhere : i ≢ id → (if id == i then some v else lookup i m) ≡ lookup i m
      elsewhere other = ground arith

  pub lookup-insert_same : (id : ℕ) (v : V) (m : Map V) → lookup id (insert id v m) ≡ some v
  lookup-insert_same id v m = ground (arith, lookup-insert id id v m)

module _ {V : Type 0} (P : ℕ → V → Type 0) where
  pub Each-lookup : (k : ℕ) (w : V) (m : Map V) → Each P m → lookup k m ≡ some w → P k w
  Each-lookup k w [] h e = ground arith
  Each-lookup k w ((j, u) ∷ m) h e = ground (arith, Each-lookup k w m)

  pub Each-insert : (k : ℕ) (v : V) (m : Map V) → Each P m → P k v → Each P (insert k v m)
  Each-insert k v [] h p = (p, tt)
  Each-insert k v ((j, u) ∷ m) h p = ground (arith, Each-insert k v m)

  pub Each-delete : (k : ℕ) (m : Map V) → Each P m → Each P (delete k m)
  Each-delete k [] h = tt
  Each-delete k ((j, u) ∷ m) h = ground (arith, Each-delete k m)

pub get_elem?-member : (ks : List ℕ) (i k : ℕ) → get_elem? ks i ≡ some k → member k ks ≡ true
get_elem?-member [] i k e = ground arith
get_elem?-member (j ∷ js) zero k e = ground arith
get_elem?-member (j ∷ js) (suc i) k e = ground (arith, get_elem?-member js i k)

-- Taking out the key that stands at a place, where no key stands twice.
pub remove_at-remove_key :
    (ks : List ℕ) (i k : ℕ)
    → Distinct ks
    → get_elem? ks i ≡ some k
    → remove_at ks i ≡ remove_key k ks
remove_at-remove_key [] i k d e = refl
remove_at-remove_key (j ∷ js) zero k d e = ground arith
remove_at-remove_key (j ∷ js) (suc i) k d e =
    ground (arith, remove_at-remove_key js i k d.1, get_elem?-member js i k)

pub member-get_elem? :
    (ks : List ℕ) (k : ℕ)
    → member k ks ≡ true
    → (i : ℕ) × (i < length ks) × (get_elem? ks i ≡ some k)
member-get_elem? [] k h = ground arith
member-get_elem? (j ∷ js) k h = elim (Bool-cases (j == k)) [
  | inl e ↦ (0, omega arith, ground arith)
  | inr e ↦ let (i, lt, at) = member-get_elem? js k (ground arith) in (suc i, omega arith, at)
]

member-remove_key_ne :
    (k j : ℕ) (ks : List ℕ)
    → (k == j) ≡ false
    → member j ks ≡ true
    → member j (remove_key k ks) ≡ true
member-remove_key_ne k j [] h m = m
member-remove_key_ne k j (i ∷ is) h m = ground (arith, member-remove_key_ne k j is h)

-- Distinct numbers that all stand in a list are no more than its elements.
pub pigeonhole :
    (n : ℕ) (f : ℕ → ℕ) (ks : List ℕ)
    → ((i : ℕ) → i < n → member (f i) ks ≡ true)
    → ((i j : ℕ) → i < n → j < n → f i ≡ f j → i ≡ j)
    → n ≤ length ks
pigeonhole zero f ks inside apart = omega arith
pigeonhole (suc n) f ks inside apart =
    let last = inside n (omega arith) in
    omega (
      arith,
      length-remove_key (f n) ks last,
      pigeonhole n f (remove_key (f n) ks)
          (λ i h. member-remove_key_ne (f n) (f i) ks (differ i h) (inside i (omega arith)))
          (λ i j hi hj. apart i j (omega arith) (omega arith)),
    )
  where
    differ : (i : ℕ) → i < n → (f n == f i) ≡ false
    differ i h = elim (Bool-cases (f n == f i)) [
      | inr e ↦ e
      | inl e ↦
          let same : n ≡ i = apart n i (omega arith) (omega arith) ((==_iff (f n) (f i)).0 e) in
          absurd (omega arith)
    ]
