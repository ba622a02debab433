-- ===== src/Pty/Protocol/Cursor.antt =====
-- The cursors of a list of pty/protocol.go: `encodeCursor` and `decodeCursor`. What encoding/base64 and
-- strconv do is a parameter.
use streammux.Base.{
  ℕ, ◌^◌, ◌≡◌, ◌<◌, refl, ap, ◌∙◌, false, Option, none, some, List, [], ◌∷◌, ◌++◌, length,
  if◌then◌else◌, ◌==◌, arith,
}
use streammux.Base.Map.{member}
use streammux.Base.Int.{ℤ, pos}

-- `base64.RawURLEncoding`, and `strconv.FormatUint`, `ParseUint`, `Itoa` and `Atoi` in base 10.
pub record Strconv : Type 0 where
  pub encode_base64 : List ℕ → List ℕ
  pub decode_base64 : List ℕ → Option (List ℕ)
  pub format_uint : ℕ → List ℕ
  pub parse_uint : List ℕ → Option ℕ
  pub itoa : ℤ → List ℕ
  pub atoi : List ℕ → Option ℤ

abbrev pub colon : ℕ
colon = 58

-- What is documented of them: they read back what they write, encode no text as an empty one but the empty
-- one, and write numbers without a colon.
pub record IsStrconv (l : Strconv) : Type 0 where
  pub base64 : (x : List ℕ) → l.decode_base64 (l.encode_base64 x) ≡ some x
  pub uint : (n : ℕ) → n < 2 ^ 64 → l.parse_uint (l.format_uint n) ≡ some n
  pub int : (n : ℕ) → n < 2 ^ 63 → l.atoi (l.itoa (pos n)) ≡ some (pos n)
  pub uint_digits : (n : ℕ) → member colon (l.format_uint n) ≡ false
  pub int_digits : (n : ℕ) → member colon (l.itoa (pos n)) ≡ false
  pub some_base64 : (b : ℕ) (x : List ℕ) → (length (l.encode_base64 (b ∷ x)) == 0) ≡ false
  pub some_digits : (n : ℕ) → (length (l.format_uint n) == 0) ≡ false

-- `strings.Split` at a byte.
abbrev pub add_byte : ℕ → List (List ℕ) → List (List ℕ)
add_byte b [] = (b ∷ []) ∷ []
add_byte b (part ∷ parts) = (b ∷ part) ∷ parts

pub split : ℕ → List ℕ → List (List ℕ)
split sep [] = [] ∷ []
split sep (b ∷ bs) = let rest = split sep bs in if b == sep then [] ∷ rest else add_byte b rest

-- `encodeCursor`
unfoldable pub encode_cursor : Strconv → ℕ → ℕ → List ℕ
encode_cursor l generation position =
    l.encode_base64 (l.format_uint generation ++ (colon ∷ l.itoa (pos position)))

abbrev pub both_parts : Option ℕ → Option ℤ → Option (ℕ × ℤ)
both_parts none position = none
both_parts (some generation) none = none
both_parts (some generation) (some position) = some (generation, position)

abbrev pub read_parts : Strconv → List (List ℕ) → Option (ℕ × ℤ)
read_parts l (generation ∷ position ∷ []) = both_parts (l.parse_uint generation) (l.atoi position)
read_parts l _ = none

unfoldable pub read_raw : Strconv → Option (List ℕ) → Option (ℕ × ℤ)
unfolding split
read_raw l none = none
read_raw l (some raw) = read_parts l (split colon raw)

-- `decodeCursor`
unfoldable pub decode_cursor : Strconv → List ℕ → Option (ℕ × ℤ)
decode_cursor l cursor = read_raw l (l.decode_base64 cursor)

split_one : (sep : ℕ) (xs : List ℕ) → member sep xs ≡ false → split sep xs ≡ xs ∷ []
unfolding split
split_one sep [] h = refl
split_one sep (x ∷ xs) h = ground (arith, split_one sep xs)

split_two :
    (sep : ℕ) (xs ys : List ℕ)
    → member sep xs ≡ false
    → member sep ys ≡ false
    → split sep (xs ++ (sep ∷ ys)) ≡ xs ∷ ys ∷ []
unfolding split
split_two sep [] ys h i = ground (arith, split_one sep ys i)
split_two sep (x ∷ xs) ys h i = ground (arith, split_two sep xs ys)

-- A cursor is read back as the generation and the position that it was made of.
pub decode_cursor-encode_cursor :
    (l : Strconv)
    → IsStrconv l
    → (generation position : ℕ) → generation < 2 ^ 64
    → position < 2 ^ 63
    → decode_cursor l (encode_cursor l generation position) ≡ some (generation, pos position)
unfolding decode_cursor encode_cursor read_raw
decode_cursor-encode_cursor l laws generation position small_g small_p =
    ap (read_raw l) (laws.base64 _)
    ∙ ap (read_parts l) (
        split_two colon (l.format_uint generation) (l.itoa (pos position))
          (laws.uint_digits generation) (laws.int_digits position))
    ∙ ap (λ o. both_parts o (l.atoi (l.itoa (pos position)))) (laws.uint generation small_g)
    ∙ ap (both_parts (some generation)) (laws.int position small_p)

some_text : (x y : List ℕ) → (length x == 0) ≡ false → (b : ℕ) × ((z : List ℕ) × (x ++ y ≡ b ∷ z))
some_text [] y h = absurd (ground (arith, h))
some_text (b ∷ x) y h = (b, (x ++ y, refl))

-- A cursor is not the empty text that stands for none.
pub encode_cursor-some :
    (l : Strconv)
    → IsStrconv l
    → (generation position : ℕ) → (length (encode_cursor l generation position) == 0) ≡ false
unfolding encode_cursor
encode_cursor-some l laws generation position =
    let (b, (z, e)) =
      some_text (l.format_uint generation) (colon ∷ l.itoa (pos position))
        (laws.some_digits generation) in
    ap (λ x. length (l.encode_base64 x) == 0) e ∙ laws.some_base64 b z
