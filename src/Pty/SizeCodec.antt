-- ===== src/Pty/SizeCodec.antt =====
-- pty/size_codec.go: a terminal size as two 32-bit numbers.
use streammux.Base.{
  ℕ, ◌-◌, ◌%◌, ◌^◌, ◌<◌, ◌≡◌, refl, ap, ◌∙◌, sym, not, ◌||◌, Option, none, some, List, [], ◌∷◌,
  ◌++◌, Result, ok, err, length, take, drop, ltb, ◌==◌, if◌then◌else◌, All, arith, else-ok,
  if_false, ok-injective, ok-ne-err, All-take, All-drop, length-take, length-drop, take-append-drop,
}
use streammux.Base.Int.{pos, to_u64}
use streammux.Base.Bytes.{IsByte, put_u32, be, be-put_u32, put_u32-be}
use streammux.Pty.Values.{PtyError, invalid_size, invalid_payload, Size, size_validate}

abbrev pub max_uint32 : ℕ
max_uint32 = 2 ^ 32 - 1

-- `math.MaxInt`, of 64 bits
abbrev pub max_int : ℕ
max_int = 2 ^ 63 - 1

abbrev pub or_value : {A : Type 0} → Option PtyError → Result PtyError A → Result PtyError A
or_value (some e) r = err e
or_value none r = r

-- What `EncodeSize` makes of the two numbers, as `uint64`.
abbrev pub encoded : ℕ → ℕ → Result PtyError (List ℕ)
encoded cols rows =
    if ltb max_uint32 cols || ltb max_uint32 rows
    then err invalid_size
    else ok (put_u32 (cols % 2 ^ 32) ++ put_u32 (rows % 2 ^ 32))

-- `EncodeSize`
unfoldable pub encode_size : Size → Result PtyError (List ℕ)
encode_size s = or_value (size_validate s) (encoded (to_u64 s.cols) (to_u64 s.rows))

-- The checks of `DecodeSize` on the two numbers.
abbrev pub decoded : ℕ → ℕ → Result PtyError Size
decoded cols rows =
    if ltb max_int cols || ltb max_int rows
    then err invalid_size
    else or_value (size_validate (record { cols = pos cols; rows = pos rows }))
        (ok (record { cols = pos cols; rows = pos rows }))

-- `DecodeSize`
unfoldable pub decode_size : List ℕ → Result PtyError Size
decode_size payload =
    if not (length payload == 8)
    then err invalid_payload
    else decoded (be 0 (take 4 payload)) (be 0 (drop 4 payload))

valid_size :
    (c r : ℕ) → 0 < c → 0 < r → size_validate (record { cols = pos c; rows = pos r }) ≡ none
unfolding size_validate
valid_size c r c_pos r_pos = ground arith

encode_wire :
    (c r : ℕ)
    → 0 < c
    → c < 2 ^ 32
    → 0 < r
    → r < 2 ^ 32
    → encode_size (record { cols = pos c; rows = pos r }) ≡ ok (put_u32 c ++ put_u32 r)
unfolding encode_size
encode_wire c r c_pos c_lt r_pos r_lt =
    let c_eq : c % 2 ^ 64 ≡ c = omega arith in
    let r_eq : r % 2 ^ 64 ≡ r = omega arith in
    let c_low : c % 2 ^ 32 ≡ c = omega arith in
    let r_low : r % 2 ^ 32 ≡ r = omega arith in
    ap (λ v. or_value v (encoded (c % 2 ^ 64) (r % 2 ^ 64))) (valid_size c r c_pos r_pos)
    ∙ ap (λ x. encoded x (r % 2 ^ 64)) c_eq
    ∙ ap (encoded c) r_eq
    ∙ if_false (ltb max_uint32 c || ltb max_uint32 r) (err invalid_size) _ (ground arith)
    ∙ ap (λ x. ok (put_u32 x ++ put_u32 (r % 2 ^ 32))) c_low
    ∙ ap (λ x. ok (put_u32 c ++ put_u32 x)) r_low

decoded_wire :
    (c r : ℕ)
    → 0 < c
    → c < 2 ^ 32
    → 0 < r
    → r < 2 ^ 32
    → decoded c r ≡ ok (record { cols = pos c; rows = pos r })
decoded_wire c r c_pos c_lt r_pos r_lt =
    if_false (ltb max_int c || ltb max_int r) _ _ (ground arith)
    ∙ ap (λ v. or_value v (ok (record { cols = pos c; rows = pos r }))) (valid_size c r c_pos r_pos)

decode_wire :
    (c r : ℕ)
    → 0 < c
    → c < 2 ^ 32
    → 0 < r
    → r < 2 ^ 32
    → decode_size (put_u32 c ++ put_u32 r) ≡ ok (record { cols = pos c; rows = pos r })
unfolding decode_size put_u32
decode_wire c r c_pos c_lt r_pos r_lt =
    ap (λ x. decoded x (be 0 (put_u32 r))) (be-put_u32 c c_lt)
    ∙ ap (decoded c) (be-put_u32 r r_lt)
    ∙ decoded_wire c r c_pos c_lt r_pos r_lt

-- `EncodeSize` accepts a size whose columns and rows are positive and below 2^32, and `DecodeSize`
-- gives the same size back from the eight bytes.
pub decode_size-encode_size :
    (c r : ℕ)
    → 0 < c
    → c < 2 ^ 32
    → 0 < r
    → r < 2 ^ 32
    → let size : Size = record { cols = pos c; rows = pos r } in
      (bytes : List ℕ) × ((encode_size size ≡ ok bytes)
        × ((length bytes ≡ 8) × (decode_size bytes ≡ ok size)))
unfolding put_u32
decode_size-encode_size c r c_pos c_lt r_pos r_lt = (
  put_u32 c ++ put_u32 r,
  (encode_wire c r c_pos c_lt r_pos r_lt, (refl, decode_wire c r c_pos c_lt r_pos r_lt)),
)

or_value-ok :
    {A : Type 0} (v : Option PtyError) (r : Result PtyError A) (a : A)
    → or_value v r ≡ ok a
    → (v ≡ none) × (r ≡ ok a)
or_value-ok (some x) r a e = absurd (ok-ne-err (sym e))
or_value-ok none r a e = (refl, e)

-- What passed the checks is positive, and the size is made of it.
decoded-ok :
    (c r : ℕ) (s : Size)
    → decoded c r ≡ ok s
    → (0 < c) × ((0 < r) × (s ≡ record { cols = pos c; rows = pos r }))
unfolding size_validate
decoded-ok c r s e =
    let (_, checked) = else-ok (ltb max_int c || ltb max_int r) _ _ s e in
    let size : Size = record { cols = pos c; rows = pos r } in
    let (valid, made) = or_value-ok (size_validate size) (ok size) s checked in
    (ground arith, (ground arith, sym (ok-injective made)))

be_lt : (xs : List ℕ) → length xs ≡ 4 → All IsByte xs → be 0 xs < 2 ^ 32
unfolding be
be_lt (a ∷ b ∷ c ∷ d ∷ []) e h = omega arith
be_lt xs e h = absurd (omega arith)

-- Whatever bytes `DecodeSize` accepts, `EncodeSize` gives back for the size read: no two payloads
-- stand for one size.
pub encode_size-decode_size :
    (payload : List ℕ) (s : Size)
    → All IsByte payload
    → decode_size payload ≡ ok s
    → encode_size s ≡ ok payload
unfolding decode_size
encode_size-decode_size payload s bytes e =
    let (eight, checked) = else-ok (not (length payload == 8)) _ _ s e in
    let len : length payload ≡ 8 = ground arith in
    let first = take 4 payload in
    let second = drop 4 payload in
    let first_len : length first ≡ 4 = omega (arith, length-take 4 payload) in
    let second_len : length second ≡ 4 = omega (arith, length-drop 4 payload) in
    let first_bytes = All-take IsByte 4 payload bytes in
    let second_bytes = All-drop IsByte 4 payload bytes in
    let (c_pos, (r_pos, made)) = decoded-ok (be 0 first) (be 0 second) s checked in
    ap encode_size made
    ∙ encode_wire (be 0 first) (be 0 second) c_pos (be_lt first first_len first_bytes) r_pos
        (be_lt second second_len second_bytes)
    ∙ ap (λ x. ok (x ++ put_u32 (be 0 second))) (put_u32-be first first_len first_bytes)
    ∙ ap (λ x. ok (first ++ x)) (put_u32-be second second_len second_bytes)
    ∙ ap ok (take-append-drop 4 payload)
