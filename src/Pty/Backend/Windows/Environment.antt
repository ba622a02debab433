-- ===== src/Pty/Backend/Windows/Environment.antt =====
-- `environmentBlock` of pty/windowspty/factory_windows.go. The upper case of a text and its UTF-16 are
-- parameters.
use streammux.Base.{
  ℕ, ◌≡◌, refl, sym, ap, ◌∙◌, subst, Bool, true, false, Option, none, some, List, [], ◌∷◌, ◌++◌,
  length, if◌then◌else◌, ltb, ◌==◌, Result, ok, err, arith, ok-injective, ok-ne-err, none-ne-some,
  some-injective, ◌⊎◌, inl, inr, suc,
}
use mathlib.Core.List.{append_assoc, append-nil}
use streammux.Pty.Values.{PtyError, nul_in_spec}

-- `strings.ToUpper` and `windows.UTF16FromString`
pub record Text : Type 0 where
  pub to_upper : List ℕ → List ℕ
  pub utf16 : List ℕ → Option (List ℕ)

-- What is documented of the second: a zero ends what it gives.
abbrev pub EndsInZero : Text → Type 0
EndsInZero t = (x u : List ℕ) → t.utf16 x ≡ some u → (v : List ℕ) × (u ≡ v ++ (0 ∷ []))

-- `<` on strings
abbrev pub text_less : List ℕ → List ℕ → Bool
text_less xs [] = false
text_less [] (y ∷ ys) = true
text_less (x ∷ xs) (y ∷ ys) =
    let rest = text_less xs ys in if ltb x y then true else if x == y then rest else false

-- `sort.SliceStable` by the upper case: a value goes in front of the first that is greater.
unfoldable pub insert_value : Text → List ℕ → List (List ℕ) → List (List ℕ)
insert_value t x [] = x ∷ []
insert_value t x (y ∷ rest) =
    let behind = insert_value t x rest in
    if text_less (t.to_upper y) (t.to_upper x) then y ∷ behind else x ∷ y ∷ rest

unfoldable pub sort_values : Text → List (List ℕ) → List (List ℕ)
unfolding insert_value
sort_values t [] = []
sort_values t (x ∷ rest) = insert_value t x (sort_values t rest)

abbrev pub append_encoded : Option (List ℕ) → Result PtyError (List ℕ) → Result PtyError (List ℕ)
append_encoded none rest = err nul_in_spec
append_encoded (some u) (err e) = err e
append_encoded (some u) (ok block) = ok (u ++ block)

-- The loop over the sorted values.
unfoldable pub encode_values : Text → List (List ℕ) → Result PtyError (List ℕ)
encode_values t [] = ok []
encode_values t (x ∷ rest) = append_encoded (t.utf16 x) (encode_values t rest)

-- The zero behind the values, and another one where there is none.
abbrev pub end_block : Result PtyError (List ℕ) → Result PtyError (Option (List ℕ))
end_block (err e) = err e
end_block (ok block) =
    if length (block ++ (0 ∷ [])) == 1
    then ok (some (block ++ (0 ∷ 0 ∷ [])))
    else ok (some (block ++ (0 ∷ [])))

-- `environmentBlock`; none is for no environment at all.
unfoldable pub environment_block : Text → Option (List (List ℕ)) → Result PtyError (Option (List ℕ))
unfolding sort_values
environment_block t none = ok none
environment_block t (some values) = end_block (encode_values t (sort_values t values))

-- Empty, or ended by a zero.
abbrev IsBlock : List ℕ → Type 0
IsBlock block = (block ≡ []) ⊎ ((v : List ℕ) × (block ≡ v ++ (0 ∷ [])))

append-IsBlock : (v b : List ℕ) → IsBlock b → IsBlock ((v ++ (0 ∷ [])) ++ b)
append-IsBlock v b (inl empty) =
    inr (v, ap (λ x. (v ++ (0 ∷ [])) ++ x) empty ∙ append-nil (v ++ (0 ∷ [])))
append-IsBlock v b (inr (w, is)) = inr (
  (v ++ (0 ∷ [])) ++ w,
  ap (λ x. (v ++ (0 ∷ [])) ++ x) is ∙ sym (append_assoc (v ++ (0 ∷ [])) w (0 ∷ [])),
)

append_encoded-IsBlock :
    (o : Option (List ℕ)) (r : Result PtyError (List ℕ)) (b : List ℕ)
    → ((u : List ℕ) → o ≡ some u → (v : List ℕ) × (u ≡ v ++ (0 ∷ [])))
    → ((b' : List ℕ) → r ≡ ok b' → IsBlock b')
    → append_encoded o r ≡ ok b
    → IsBlock b
append_encoded-IsBlock none r b one rest h = absurd (ok-ne-err (sym h))
append_encoded-IsBlock (some u) (err e) b one rest h = absurd (ok-ne-err (sym h))
append_encoded-IsBlock (some u) (ok b') b one rest h =
    let (v, is) = one u refl in
    subst IsBlock (ok-injective h)
      (subst (λ x. IsBlock (x ++ b')) (sym is) (append-IsBlock v b' (rest b' refl)))

encode_values-IsBlock :
    (t : Text)
    → EndsInZero t
    → (xs : List (List ℕ)) (b : List ℕ) → encode_values t xs ≡ ok b
    → IsBlock b
unfolding encode_values
encode_values-IsBlock t ends [] b h = inl (sym (ok-injective h))
encode_values-IsBlock t ends (x ∷ rest) b h =
    append_encoded-IsBlock (t.utf16 x) (encode_values t rest) b (ends x)
      (encode_values-IsBlock t ends rest) h

-- Ended by two zeros.
abbrev pub EndsTwice : List ℕ → Type 0
EndsTwice block = (v : List ℕ) × (block ≡ v ++ (0 ∷ 0 ∷ []))

length-snoc_zero : (v : List ℕ) → length ((v ++ (0 ∷ [])) ++ (0 ∷ [])) ≡ suc (suc (length v))
length-snoc_zero [] = refl
length-snoc_zero (x ∷ v) = ap suc (length-snoc_zero v)

end_block-EndsTwice :
    (r : Result PtyError (List ℕ)) (block : List ℕ)
    → ((b : List ℕ) → r ≡ ok b → IsBlock b)
    → end_block r ≡ ok (some block)
    → EndsTwice block
end_block-EndsTwice (err e) block rest h = absurd (ok-ne-err (sym h))
end_block-EndsTwice (ok b) block rest h = split (rest b refl)
  where
    got :
        (c : Bool) (x y : List ℕ)
        → ◌≡◌ {A = Result PtyError (Option (List ℕ))}
            (if c then ok (some x) else ok (some y))
            (ok (some block))
        → (c ≡ false → EndsTwice y)
        → EndsTwice x
        → EndsTwice block
    got true x y is second first = subst EndsTwice (some-injective (ok-injective is)) first
    got false x y is second first = subst EndsTwice (some-injective (ok-injective is)) (second refl)

    split : IsBlock b → EndsTwice block
    split (inl empty) =
        got (length (b ++ (0 ∷ [])) == 1) (b ++ (0 ∷ 0 ∷ [])) (b ++ (0 ∷ [])) h
          (λ off. absurd (ground (arith, off, ap (λ x. length (x ++ (0 ∷ []))) empty))) (b, refl)
    split (inr (v, is)) =
        got (length (b ++ (0 ∷ [])) == 1) (b ++ (0 ∷ 0 ∷ [])) (b ++ (0 ∷ [])) h
          (λ _. (v, ap (λ x. x ++ (0 ∷ [])) is ∙ append_assoc v (0 ∷ []) (0 ∷ []))) (b, refl)

-- An environment block that is made ends with two zeros, the one of its last variable and its own, even
-- where there is no variable; `CreateProcess` reads up to there.
pub environment_block-EndsTwice :
    (t : Text) (values : Option (List (List ℕ))) (block : List ℕ)
    → EndsInZero t
    → environment_block t values ≡ ok (some block)
    → EndsTwice block
unfolding environment_block
environment_block-EndsTwice t none block ends h = absurd (none-ne-some (ok-injective h))
environment_block-EndsTwice t (some values) block ends h =
    end_block-EndsTwice (encode_values t (sort_values t values)) block
      (encode_values-IsBlock t ends (sort_values t values)) h
