-- ===== src/Pty/Backend.antt =====
-- What the two backends, pty/unixpty and pty/windowspty, check alike before they start a process or resize
-- its terminal.
pub mod Unix
pub mod Windows
mod Tests
use streammux.Base.{
  ℕ, ◌+◌, ◌≡◌, ◌≤◌, ◌<◌, ◌↔◌, refl, Bool, true, false, ◌||◌, Option, none, some, List, [], ◌∷◌,
  ◌++◌, length, if◌then◌else◌, ◌==◌, arith, All,
}
use streammux.Base.Int.{ℤ, pos, ltb_ℤ, pos_part}
use streammux.Base.Map.{member}
use streammux.Pty.Values.{PtyError, size_overflow, nul_in_spec, Size, size_validate}
use streammux.Pty.Manager.{ProcessSpec, spec_validate}
use streammux.Pty.Manager.Serving.{first_of}
use streammux.Pty.Protocol.Handlers.{env_of}

-- The test against the largest number that the terminal's API takes.
abbrev pub check_range : ℕ → Size → Option PtyError
check_range most s =
    if ltb_ℤ (pos most) s.cols || ltb_ℤ (pos most) s.rows then some size_overflow else none

unfoldable pub check_size : ℕ → Size → Option PtyError
check_size most s = first_of (size_validate s) (check_range most s)

-- The loop over the strings.
unfoldable pub check_nul : List (List ℕ) → Option PtyError
check_nul [] = none
check_nul (x ∷ rest) = let later = check_nul rest in if member 0 x then some nul_in_spec else later

abbrev pub strings_of : ProcessSpec → List (List ℕ)
strings_of s = s.command ∷ s.dir ∷ (s.args ++ env_of s)

unfoldable pub check_process : ℕ → ProcessSpec → Option PtyError
check_process most s =
    first_of (spec_validate s)
      (first_of (check_size most s.initial_size) (check_nul (strings_of s)))

-- A size that neither is too small nor wraps around.
pub record IsSizeWithin (most : ℕ) (s : Size) : Type 0 where
  pub cols : (0 < pos_part s.cols) × (pos_part s.cols ≤ most)
  pub rows : (0 < pos_part s.rows) × (pos_part s.rows ≤ most)

pub check_size-IsSizeWithin : (most : ℕ) (s : Size) → check_size most s ≡ none → IsSizeWithin most s
unfolding check_size size_validate
check_size-IsSizeWithin most s h = ground arith

abbrev pub HasNoNul : List ℕ → Type 0
HasNoNul x = member 0 x ≡ false

pub check_nul_iff : (xs : List (List ℕ)) → (check_nul xs ≡ none) ↔ All HasNoNul xs
unfolding check_nul
check_nul_iff [] = ((λ _. tt), (λ _. refl))
check_nul_iff (x ∷ xs) = ground (arith, check_nul_iff xs)

-- What a backend relies on when it starts a process.
pub record IsStartable (most : ℕ) (s : ProcessSpec) : Type 0 where
  pub command : 0 < length s.command
  pub size : IsSizeWithin most s.initial_size
  pub strings : All HasNoNul (strings_of s)

abbrev pub Passed : Option PtyError → Option PtyError → Type 0
Passed a b = (a ≡ none) × (b ≡ none)

first_of-Passed : (a b : Option PtyError) → first_of a b ≡ none → Passed a b
first_of-Passed none b h = (refl, h)
first_of-Passed (some x) b h = ground (arith, h)

-- A process that passes the checks of a backend has a command, an initial size that is positive and that
-- the terminal's API takes without wrapping it around, and no zero byte in any of its strings.
pub check_process-IsStartable :
    (most : ℕ) (s : ProcessSpec) → check_process most s ≡ none → IsStartable most s
unfolding check_process spec_validate
check_process-IsStartable most s h =
    let (named, rest) = first_of-Passed (spec_validate s) _ h in
    let (sized, strings) = first_of-Passed (check_size most s.initial_size) _ rest in
    record {
      command = ground (arith, named);
      size = check_size-IsSizeWithin most s.initial_size sized;
      strings = (check_nul_iff (strings_of s)).0 strings;
    }
