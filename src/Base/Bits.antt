-- ===== src/Base/Bits.antt =====
-- `x & m` at the masks of the frame flags, as arithmetic.
use Prim.Native.Nat.{ℕ, zero, suc, ◌*◌, ◌/◌, ◌%◌, ◌≤◌, min, bit_and, digits, bit_and-bitwise}
use mathlib.Core.Path.{◌≡◌, refl}
use native.Mathlib.Omega.{arith}

-- The digits that `bit_and` keeps, with `n` digits to go.
abbrev kept : ℕ → ℕ → ℕ → ℕ
kept n a m = digits (λ b. zero) min n a m

kept_none : (n a : ℕ) → kept n a 0 ≡ 0
kept_none zero a = refl
kept_none (suc n) zero = refl
kept_none (suc n) (suc a) = omega (arith, kept_none n (suc a / 2))

-- One round, at a mask that is a numeral.
kept_lowest : (n a : ℕ) → a ≤ n → kept n a 1 ≡ a % 2
kept_lowest n zero h = elim n as (λ k. kept k 0 1 ≡ 0 % 2) [ zero ↦ refl | suc k ↦ refl ]
kept_lowest zero (suc a) h = absurd (omega arith)
kept_lowest (suc n) (suc a) h = omega (arith, kept_none n (suc a / 2))

kept_second : (n a : ℕ) → a ≤ n → kept n a 2 ≡ a / 2 % 2 * 2
kept_second n zero h = elim n as (λ k. kept k 0 2 ≡ 0 / 2 % 2 * 2) [ zero ↦ refl | suc k ↦ refl ]
kept_second zero (suc a) h = absurd (omega arith)
kept_second (suc n) (suc a) h = omega (arith, kept_lowest n (suc a / 2) (omega arith))

kept_third : (n a : ℕ) → a ≤ n → kept n a 4 ≡ a / 4 % 2 * 4
kept_third n zero h = elim n as (λ k. kept k 0 4 ≡ 0 / 4 % 2 * 4) [ zero ↦ refl | suc k ↦ refl ]
kept_third zero (suc a) h = absurd (omega arith)
kept_third (suc n) (suc a) h = omega (arith, kept_second n (suc a / 2) (omega arith))

kept_two : (n a : ℕ) → a ≤ n → kept n a 3 ≡ a % 4
kept_two n zero h = elim n as (λ k. kept k 0 3 ≡ 0 % 4) [ zero ↦ refl | suc k ↦ refl ]
kept_two zero (suc a) h = absurd (omega arith)
kept_two (suc n) (suc a) h = omega (arith, kept_lowest n (suc a / 2) (omega arith))

kept_three : (n a : ℕ) → a ≤ n → kept n a 7 ≡ a % 8
kept_three n zero h = elim n as (λ k. kept k 0 7 ≡ 0 % 8) [ zero ↦ refl | suc k ↦ refl ]
kept_three zero (suc a) h = absurd (omega arith)
kept_three (suc n) (suc a) h = omega (arith, kept_two n (suc a / 2) (omega arith))

pub bit_and-1 : (a : ℕ) → bit_and a 1 ≡ a % 2
bit_and-1 a = omega (arith, bit_and-bitwise a 1, kept_lowest a a (omega arith))

pub bit_and-2 : (a : ℕ) → bit_and a 2 ≡ a / 2 % 2 * 2
bit_and-2 a = omega (arith, bit_and-bitwise a 2, kept_second a a (omega arith))

pub bit_and-4 : (a : ℕ) → bit_and a 4 ≡ a / 4 % 2 * 4
bit_and-4 a = omega (arith, bit_and-bitwise a 4, kept_third a a (omega arith))

pub bit_and-3 : (a : ℕ) → bit_and a 3 ≡ a % 4
bit_and-3 a = omega (arith, bit_and-bitwise a 3, kept_two a a (omega arith))

pub bit_and-7 : (a : ℕ) → bit_and a 7 ≡ a % 8
bit_and-7 a = omega (arith, bit_and-bitwise a 7, kept_three a a (omega arith))
