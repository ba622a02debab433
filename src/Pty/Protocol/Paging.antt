-- ===== src/Pty/Protocol/Paging.antt =====
-- The pages that `handleList` of pty/protocol.go answers are within the limit and the frame, and whoever
-- follows their cursors gets every session once.
use streammux.Base.{
  ℕ, zero, suc, ◌+◌, ◌-◌, ◌^◌, ◌≡◌, ◌≤◌, ◌<◌, refl, sym, ap, ◌∙◌, subst, ◌&&◌, Option, none, some,
  List, [], ◌∷◌, ◌++◌, length, take, drop, if◌then◌else◌, ltb, leb, ◌==◌, arith, if_elim, if_true,
  if_false, ℕ_discrete, Bool-cases, inl, inr, some-injective, none-ne-some,
}
use streammux.Pty.Observer.{SessionInfo}
use streammux.Pty.Protocol.Listing.{
  Listed, page, invalid, unmarshalled, panics, Paging, cursor_at, candidate, shrink_more, shrink,
  page_of, list_from, list_page,
}

abbrev pub append_rest : List SessionInfo → Option (List SessionInfo) → Option (List SessionInfo)
append_rest sessions none = none
append_rest sessions (some rest) = some (sessions ++ rest)

-- A client that follows the cursors, and what it gets, if every request is answered with a page.
abbrev pub after_page : (List ℕ → Option (List SessionInfo)) → Listed → Option (List SessionInfo)
after_page next (invalid e) = none
after_page next unmarshalled = none
after_page next panics = none
after_page next (page sessions []) = some sessions
after_page next (page sessions (b ∷ bs)) = append_rest sessions (next (b ∷ bs))

unfoldable pub follow : ℕ → Paging → ℕ → List SessionInfo → ℕ → List ℕ → Option (List SessionInfo)
follow zero p generation all limit cursor = none
follow (suc fuel) p generation all limit cursor =
    after_page (follow fuel p generation all limit) (list_page p generation all limit cursor)

-- Every response marshals, and one with a single session fits.
pub record IsServed (p : Paging) (generation : ℕ) (all : List SessionInfo) : Type 0 where
  pub marshals :
      (position count : ℕ) → (n : ℕ) × (candidate p generation all position count ≡ some n)
  pub one_fits :
      (position : ℕ)
      → position < length all
      → (n : ℕ) × ((candidate p generation all position 1 ≡ some n) × (n ≤ p.max_frame))

-- As many sessions as fit.
pub record Shrunk (p : Paging) (generation : ℕ) (all : List SessionInfo) (position most count : ℕ)
    : Type 0 where
  pub within : count ≤ most
  pub fits :
      0 < count
      → (n : ℕ) × ((candidate p generation all position count ≡ some n) × (n ≤ p.max_frame))
  pub best :
      (k n : ℕ)
      → count < k
      → k ≤ most
      → candidate p generation all position k ≡ some n
      → p.max_frame < n

shrink_more-Shrunk :
    (p : Paging) (generation : ℕ) (all : List SessionInfo) (position most c : ℕ)
    (shorter o : Option ℕ)
    → ((d : ℕ) → shorter ≡ some d → Shrunk p generation all position most d)
    → candidate p generation all position (suc most) ≡ o
    → shrink_more (suc most) p.max_frame shorter o ≡ some c
    → Shrunk p generation all position (suc most) c
shrink_more-Shrunk p generation all position most c shorter none smaller e is =
    absurd (none-ne-some is)
shrink_more-Shrunk p generation all position most c shorter (some size) smaller e is =
    elim (Bool-cases (leb size p.max_frame)) [
      | inl fits ↦
          let all_of : suc most ≡ c =
            some-injective (sym (if_true (leb size p.max_frame) _ _ fits) ∙ is) in
          subst (Shrunk p generation all position (suc most)) all_of (record {
            within = omega arith;
            fits = λ _. (size, (e, ground (arith, fits)));
            best = λ k n more few _. absurd (omega (arith, more, few));
          })
      | inr over ↦
          let s = smaller c (sym (if_false (leb size p.max_frame) _ _ over) ∙ is) in
          record {
            within = omega (arith, s.within);
            fits = s.fits;
            best = λ k n more few is_size. elim (ℕ_discrete k (suc most)) [
              | yes top ↦
                  let sized : n ≡ size =
                    some-injective
                      (sym is_size ∙ ap (candidate p generation all position) top ∙ e) in
                  ground (arith, over, sized)
              | no below ↦ s.best k n more (ground (arith, few, below)) is_size
            ];
          }
    ]

-- The loop finds the most sessions that fit.
shrink-Shrunk :
    (p : Paging) (generation : ℕ) (all : List SessionInfo) (position most c : ℕ)
    → shrink p generation all position most ≡ some c
    → Shrunk p generation all position most c
unfolding shrink
shrink-Shrunk p generation all position zero c is =
    let zeroed : 0 ≡ c = some-injective is in
    subst (Shrunk p generation all position 0) zeroed (record {
      within = omega arith;
      fits = λ h. absurd (omega (arith, h));
      best = λ k n more few _. absurd (omega (arith, more, few));
    })
shrink-Shrunk p generation all position (suc most) c is =
    shrink_more-Shrunk p generation all position most c (shrink p generation all position most)
      (candidate p generation all position (suc most))
      (shrink-Shrunk p generation all position most) refl is

shrink_more-some :
    (count max : ℕ) (shorter o : Option ℕ)
    → ((c : ℕ) × (shorter ≡ some c))
    → ((n : ℕ) × (o ≡ some n))
    → (c : ℕ) × (shrink_more count max shorter o ≡ some c)
shrink_more-some count max shorter none (c, e) (n, h) = absurd (none-ne-some h)
shrink_more-some count max shorter (some size) (c, e) (n, h) =
    if_elim (λ x. (d : ℕ) × (x ≡ some d)) (leb size max) _ _ (λ _. (count, refl)) (λ _. (c, e))

shrink-some :
    (p : Paging) (generation : ℕ) (all : List SessionInfo) (position most : ℕ)
    → IsServed p generation all
    → (c : ℕ) × (shrink p generation all position most ≡ some c)
unfolding shrink
shrink-some p generation all position zero served = (0, refl)
shrink-some p generation all position (suc most) served =
    shrink_more-some (suc most) p.max_frame (shrink p generation all position most)
      (candidate p generation all position (suc most))
      (shrink-some p generation all position most served) (served.marshals position (suc most))

-- A page of a list: the sessions from the position on, at most the limit, as many as fit in a frame, and the
-- cursor behind them.
pub record Page (p : Paging) (generation : ℕ) (all : List SessionInfo) (limit position : ℕ)
    (r : Listed) : Type 0 where
  pub count : ℕ
  pub is : r ≡ page (take count (drop position all)) (cursor_at p generation all (position + count))
  pub shrunk :
      Shrunk p generation all position
        (if ltb (length all) (position + limit) then length all - position else limit)
        count
  pub within : position + count ≤ length all
  pub progress : position < length all → 0 < count

module _ (p : Paging) (generation : ℕ) (all : List SessionInfo) (limit : ℕ)
    (served : IsServed p generation all) (some_limit : 0 < limit) where
  goes_on :
      (position count : ℕ)
      → Shrunk p generation all position
          (if ltb (length all) (position + limit) then length all - position else limit)
          count
      → position < length all
      → 0 < count
  goes_on position zero s more =
      let (n, (is, fits)) = served.one_fits position more in
      absurd (omega (arith, fits, s.best 1 n (omega arith) (ground (arith, more, some_limit)) is))
  goes_on position (suc count) s more = omega arith

  page_of-Page :
      (position count : ℕ) (o : Option ℕ)
      → position ≤ length all
      → Shrunk p generation all position
          (if ltb (length all) (position + limit) then length all - position else limit)
          count
      → o ≡ some count
      → Page p generation all limit position (page_of p generation all position o)
  page_of-Page position count o inside s is =
      subst (λ x. Page p generation all limit position (page_of p generation all position x))
        (sym is)
        (record {
          count = count;
          is =
              if_false (count == 0 && ltb position (length all)) _ _
                (ground (arith, goes_on position count s));
          shrunk = s;
          within = ground (arith, s.within, inside);
          progress = goes_on position count s;
        })

  module _ (small : length all + limit < 2 ^ 63) where
    -- Where every response marshals and one with a single session fits, a request for a list from a position on
    -- is answered with a page: sessions in their order from there, not more than the limit, as many as a
    -- frame holds, one at least if there is one left, and the cursor behind them if there are more.
    pub list_from-Page :
        (position : ℕ)
        → position ≤ length all
        → Page p generation all limit position (list_from p generation all limit position)
    unfolding list_from
    list_from-Page position inside =
        let (count, is) = shrink-some p generation all position _ served in
        if_elim (Page p generation all limit position) (ltb (length all) position) _ _
          (λ out. absurd (ground (arith, out, inside)))
          λ _.
            if_elim (Page p generation all limit position) (leb (2 ^ 63) (position + limit)) _ _
              (λ wraps. absurd (ground (arith, wraps, inside, small)))
              λ _.
                page_of-Page position count _ inside
                  (shrink-Shrunk p generation all position _ count is) is
