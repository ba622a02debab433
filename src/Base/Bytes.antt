-- ===== src/Base/Bytes.antt =====
-- Big-endian words, as encoding/binary writes and reads them.
use Prim.Native.Nat.{ℕ, ◌+◌, ◌*◌, ◌/◌, ◌%◌, ◌^◌, ◌<◌}
use mathlib.Core.Path.{◌≡◌, refl, ap₂, ap, ◌∙◌}
use mathlib.Core.List.{List, [], ◌∷◌, ◌++◌}
use native.Mathlib.Omega.{arith}
use streammux.Base.Lists.{All, length}

abbrev pub IsByte : ℕ → Type 0
IsByte b = b < 256

-- `binary.BigEndian.PutUint16`, `PutUint32` and `PutUint64`.
unfoldable pub put_u16 : ℕ → List ℕ
put_u16 v = v / 2 ^ 8 % 256 ∷ v % 256 ∷ []

unfoldable pub put_u32 : ℕ → List ℕ
put_u32 v = v / 2 ^ 24 % 256 ∷ v / 2 ^ 16 % 256 ∷ v / 2 ^ 8 % 256 ∷ v % 256 ∷ []

unfoldable pub put_u64 : ℕ → List ℕ
unfolding put_u32
put_u64 v = put_u32 (v / 2 ^ 32) ++ put_u32 v

-- `binary.BigEndian.Uint16`, `Uint32` and `Uint64`.
unfoldable pub be : ℕ → List ℕ → ℕ
be acc [] = acc
be acc (b ∷ bs) = be (acc * 256 + b) bs

pub be-put_u16 : (v : ℕ) → v < 2 ^ 16 → be 0 (put_u16 v) ≡ v
unfolding be put_u16
be-put_u16 v h = omega arith

pub be-put_u32 : (v : ℕ) → v < 2 ^ 32 → be 0 (put_u32 v) ≡ v
unfolding be put_u32
be-put_u32 v h = omega arith

pub be-put_u64 : (v : ℕ) → v < 2 ^ 64 → be 0 (put_u64 v) ≡ v
unfolding be put_u64
be-put_u64 v h = omega arith

-- Two lists of bytes of one length are equal if their bytes are.
abbrev cons_eq : {a b : ℕ} {xs ys : List ℕ} → a ≡ b → xs ≡ ys → (a ∷ xs) ≡ (b ∷ ys)
cons_eq p q = ap₂ ◌∷◌ p q

pub put_u16-be : (xs : List ℕ) → length xs ≡ 2 → All IsByte xs → put_u16 (be 0 xs) ≡ xs
unfolding be put_u16
put_u16-be (a ∷ b ∷ []) e h = cons_eq (omega arith) (cons_eq (omega arith) refl)
put_u16-be xs e h = absurd (omega arith)

pub put_u32-be : (xs : List ℕ) → length xs ≡ 4 → All IsByte xs → put_u32 (be 0 xs) ≡ xs
unfolding be put_u32
put_u32-be (a ∷ b ∷ c ∷ d ∷ []) e h =
    cons_eq (omega arith)
      (cons_eq (omega arith) (cons_eq (omega arith) (cons_eq (omega arith) refl)))
put_u32-be xs e h = absurd (omega arith)

-- The two halves of a 64-bit word.
be_halves :
    (a b c d : ℕ) (ys : List ℕ)
    → length ys ≡ 4
    → be 0 (a ∷ b ∷ c ∷ d ∷ ys) ≡ be 0 (a ∷ b ∷ c ∷ d ∷ []) * 2 ^ 32 + be 0 ys
unfolding be
be_halves a b c d (e ∷ f ∷ g ∷ h ∷ []) p = omega arith
be_halves a b c d ys p = absurd (omega arith)

be-lt : (ys : List ℕ) → length ys ≡ 4 → All IsByte ys → be 0 ys < 2 ^ 32
unfolding be
be-lt (e ∷ f ∷ g ∷ h ∷ []) p b = omega arith
be-lt ys p b = absurd (omega arith)

put_u32_low : (v w : ℕ) → put_u32 (v * 2 ^ 32 + w) ≡ put_u32 w
unfolding put_u32
put_u32_low v w =
    cons_eq (omega arith)
      (cons_eq (omega arith) (cons_eq (omega arith) (cons_eq (omega arith) refl)))

joined :
    (x y : ℕ) (top ys : List ℕ)
    → y < 2 ^ 32
    → put_u32 x ≡ top
    → put_u32 y ≡ ys
    → put_u64 (x * 2 ^ 32 + y) ≡ top ++ ys
unfolding put_u64
joined x y top ys below p q =
    let high : (x * 2 ^ 32 + y) / 2 ^ 32 ≡ x = omega arith in
    ap₂ ◌++◌ (ap put_u32 high ∙ p) (put_u32_low x y ∙ q)

pub put_u64-be : (xs : List ℕ) → length xs ≡ 8 → All IsByte xs → put_u64 (be 0 xs) ≡ xs
put_u64-be (a ∷ b ∷ c ∷ d ∷ ys) e h =
    let p : length ys ≡ 4 = omega arith in
    let low = h.1.1.1.1 in
    let top : All IsByte (a ∷ b ∷ c ∷ d ∷ []) = (h.0, (h.1.0, (h.1.1.0, (h.1.1.1.0, tt)))) in
    rw (be_halves a b c d ys p) (
      joined (be 0 (a ∷ b ∷ c ∷ d ∷ [])) (be 0 ys) (a ∷ b ∷ c ∷ d ∷ []) ys (be-lt ys p low)
        (put_u32-be _ refl top) (put_u32-be ys p low))
put_u64-be xs e h = absurd (omega arith)
