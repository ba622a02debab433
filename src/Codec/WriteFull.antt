-- ===== src/Codec/WriteFull.antt =====
-- `writeFull` of codec.go: what the writer holds when it returns, whatever the writer answers.
use streammux.Base.{
  ℕ, zero, suc, ◌+◌, ◌≤◌, ◌<◌, ◌≡◌, refl, sym, ap, ◌∙◌, subst, ◌⊎◌, inl, inr, Option, none, some,
  List, [], ◌∷◌, ◌++◌, length, take, drop, arith, length-drop, take-append-drop, take-add, ltb,
  ◌==◌, Bool-cases, ◌||◌,
}
use mathlib.Core.List.{append_assoc, append-nil}
use streammux.Base.Int.{ℤ, pos, negsuc}
use streammux.Errors.{Error}
use streammux.Codec.{Writer, Round, stop, more, write_round, write_loop, write_full}

-- An outcome of `writeFull`: with no error the writer has taken all of the chunk behind what it
-- held, with an error a beginning of it. Running out of fuel is no outcome.
abbrev pub Wrote : List ℕ → List ℕ → Option (List ℕ × Option Error) → Type 0
Wrote sent chunk none = ⊥
Wrote sent chunk (some (sent', none)) = sent' ≡ sent ++ chunk
Wrote sent chunk (some (sent', some e)) = (n : ℕ) × (sent' ≡ sent ++ take n chunk)

Wrote-extend :
    (n : ℕ) (sent chunk : List ℕ) (r : Option (List ℕ × Option Error))
    → Wrote (sent ++ take n chunk) (drop n chunk) r
    → Wrote sent chunk r
Wrote-extend n sent chunk none w = w
Wrote-extend n sent chunk (some (sent', none)) w =
    w ∙ append_assoc sent (take n chunk) (drop n chunk) ∙ ap (◌++◌ sent) (take-append-drop n chunk)
Wrote-extend n sent chunk (some (sent', some e)) (k, w) = (
  n + k,
  w
      ∙ append_assoc sent (take n chunk) (take k (drop n chunk))
      ∙ ap (◌++◌ sent) (take-add n k (n + k) chunk refl),
)

-- What one round decides.
abbrev RoundOf : List ℕ → List ℕ → Round → Type 0
RoundOf sent chunk (stop sent' e) = Wrote sent chunk (some (sent', e))
RoundOf sent chunk (more n) = (0 < n) × (n ≤ length chunk)

write_round-RoundOf :
    (sent chunk : List ℕ) (a : ℤ × Option Error) → RoundOf sent chunk (write_round sent chunk a)
write_round-RoundOf sent chunk (negsuc n, e) = (0, sym (append-nil sent))
write_round-RoundOf sent chunk (pos n, some x) = elim (Bool-cases (ltb (length chunk) n)) [
  | inl over ↦ rw over (0, sym (append-nil sent))
  | inr fits ↦ rw fits (n, refl)
]
write_round-RoundOf sent chunk (pos n, none) = elim (Bool-cases (ltb (length chunk) n || n == 0)) [
  | inl over ↦ rw over (0, sym (append-nil sent))
  | inr fits ↦ rw fits (ground arith, ground arith)
]

Round-cases :
    (r : Round)
    → ((sent : List ℕ) × (e : Option Error) × (r ≡ stop sent e)) ⊎ ((n : ℕ) × (r ≡ more n))
Round-cases (stop sent e) = inl (sent, e, refl)
Round-cases (more n) = inr (n, refl)

write_loop-Wrote :
    (fuel : ℕ) (w : Writer) (sent chunk : List ℕ)
    → length chunk ≤ fuel
    → Wrote sent chunk (write_loop fuel w sent chunk)
unfolding write_loop
write_loop-Wrote zero w sent [] h = sym (append-nil sent)
write_loop-Wrote (suc fuel) w sent [] h = sym (append-nil sent)
write_loop-Wrote zero w sent (b ∷ bs) h = absurd (omega arith)
write_loop-Wrote (suc fuel) w sent (b ∷ bs) h =
    let round = write_round-RoundOf sent (b ∷ bs) (w sent (b ∷ bs)) in
    elim (Round-cases (write_round sent (b ∷ bs) (w sent (b ∷ bs)))) [
      | inl (sent', e, q) ↦ rw (q, write_loop) (subst (RoundOf sent (b ∷ bs)) q round)
      | inr (n, q) ↦
          let taken : (0 < n) × (n ≤ suc (length bs)) = subst (RoundOf sent (b ∷ bs)) q round in
          rw (q, write_loop)
            (Wrote-extend n sent (b ∷ bs)
              (write_loop fuel w (sent ++ take n (b ∷ bs)) (drop n (b ∷ bs)))
              (write_loop-Wrote fuel w (sent ++ take n (b ∷ bs)) (drop n (b ∷ bs))
                (omega (arith, length-drop n (b ∷ bs), taken.0, taken.1))))
    ]

-- `writeFull` returns on every writer, short counts and failures included: without an error only
-- when the writer has taken the whole chunk, and after an error it holds a beginning of it.
pub write_full-Wrote :
    (w : Writer) (sent chunk : List ℕ) → Wrote sent chunk (write_full w sent chunk)
unfolding write_full
write_full-Wrote w sent chunk = write_loop-Wrote (length chunk) w sent chunk (omega arith)
