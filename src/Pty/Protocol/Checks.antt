-- ===== src/Pty/Protocol/Checks.antt =====
-- What a request has passed when a handler of pty/protocol.go goes on with it.
use streammux.Base.{
  ℕ, ◌≡◌, ◌≤◌, ◌↔◌, refl, sym, ap, ◌∙◌, false, not, Option, none, some, List, [], ◌∷◌, ◌++◌, length,
  ◌==◌, Result, ok, err, arith, All, else-ok, ok-ne-err, ok-injective, if_true, if_false,
  Bool-cases, inl, inr, ==_iff,
}
use streammux.Base.Int.{pos_part}
use streammux.Base.Map.{member}
use streammux.Frame.{Frame, flag_request}
use streammux.Pty.Values.{PtyError}
use streammux.Pty.Manager.{ProcessSpec}
use streammux.Pty.Protocol.{ProtocolConfig}
use streammux.Pty.Protocol.Handlers.{
  Json, Protocol, AuthorizationRequest, Authorizer, authorize_by, left_by, opens, authorize, decode,
  decode_parsed, check_version, env_of, check_strings, validate_open, open_valid, open_decoded,
  check_open, permitted-ok,
}

-- A string that a process may be given.
abbrev pub IsSpecString : ℕ → List ℕ → Type 0
IsSpecString most x = (length x ≤ most) × (member 0 x ≡ false)

-- A request within the bounds of the adapter.
pub record IsOpenSpec (c : ProtocolConfig) (s : ProcessSpec) : Type 0 where
  pub command : length s.command ≤ pos_part c.max_command_bytes
  pub dir : length s.dir ≤ pos_part c.max_directory_bytes
  pub args : length s.args ≤ pos_part c.max_arguments
  pub env : length (env_of s) ≤ pos_part c.max_environment
  pub strings :
      All (IsSpecString (pos_part c.max_argument_bytes)) (s.command ∷ s.dir ∷ (s.args ++ env_of s))

check_strings_iff :
    (most : ℕ) (xs : List (List ℕ)) → (check_strings most xs ≡ none) ↔ All (IsSpecString most) xs
unfolding check_strings
check_strings_iff most [] = ((λ _. tt), (λ _. refl))
check_strings_iff most (x ∷ xs) = ground (arith, check_strings_iff most xs)

-- A request to open passes the validation exactly if its command, its directory, the numbers of its
-- arguments and of its environment and each of their strings are within the bounds of the configuration,
-- and no string holds a zero byte.
pub validate_open_iff :
    (c : ProtocolConfig) (s : ProcessSpec) → (validate_open c s ≡ none) ↔ IsOpenSpec c s
unfolding validate_open
validate_open_iff c s = ground (
  arith,
  check_strings_iff (pos_part c.max_argument_bytes) (s.command ∷ s.dir ∷ (s.args ++ env_of s)),
)

-- A request to open that goes on to the Manager, which asks for `asked` and opens `s`.
pub record IsOpenRequest (json : Json) (p : Protocol) (f : Frame) (s : ProcessSpec) : Type 0 where
  pub asked : ProcessSpec
  pub no_stream : f.header.stream_id ≡ 0
  pub request : f.header.flags ≡ flag_request
  pub version : json.parse_version f.payload ≡ some p.config.version
  pub parsed : json.parse_open f.payload ≡ some asked
  pub bounded : IsOpenSpec p.config asked
  pub unguarded : p.authorizes ≡ none → s ≡ asked
  pub guarded :
      (a : Authorizer)
      → p.authorizes ≡ some a
      → (a.decides (record { operation = opens; session = 0; spec = some asked }) ≡ none)
        × (s ≡ a.leaves asked)

check_version-ok :
    {A : Type 0} (version : ℕ) (v : Option ℕ) (a b : A)
    → check_version version v a ≡ ok b
    → (v ≡ some version) × (a ≡ b)
check_version-ok version none a b h = absurd (ok-ne-err (sym h))
check_version-ok version (some v) a b h = elim (Bool-cases (v == version)) [
  | inl same ↦ (
    ap some ((==_iff v version).0 same),
    ok-injective (sym (if_true (v == version) _ _ same) ∙ h),
  )
  | inr other ↦ absurd (ok-ne-err (sym (sym (if_false (v == version) _ _ other) ∙ h)))
]

decode_parsed-ok :
    {A : Type 0} (version : ℕ) (v : Option ℕ) (o : Option A) (b : A)
    → decode_parsed version v o ≡ ok b
    → (v ≡ some version) × (o ≡ some b)
decode_parsed-ok version v none b h = absurd (ok-ne-err (sym h))
decode_parsed-ok version v (some a) b h =
    let (same, is) = check_version-ok version v a b h in (same, ap some is)

decode-ok :
    {A : Type 0} (parse : List ℕ → Option A) (json : Json) (p : Protocol) (f : Frame) (a : A)
    → decode parse json p f ≡ ok a
    → (f.header.flags ≡ flag_request)
      × ((json.parse_version f.payload ≡ some p.config.version) × (parse f.payload ≡ some a))
unfolding decode
decode-ok parse json p f a h =
    let (flags, some_bytes) = else-ok (not (f.header.flags == flag_request)) _ _ a h in
    let (_, parsed) = else-ok (length f.payload == 0) _ _ a some_bytes in
    (
      ground (arith, flags),
      decode_parsed-ok p.config.version (json.parse_version f.payload) (parse f.payload) a parsed,
    )

open_valid-ok :
    (p : Protocol) (s t : ProcessSpec) (v : Option PtyError)
    → validate_open p.config s ≡ v
    → open_valid p s v ≡ ok t
    → (left_by p.authorizes s ≡ t)
      × (IsOpenSpec p.config s
          × (authorize p (record { operation = opens; session = 0; spec = some s }) ≡ none))
open_valid-ok p s t (some e) is h = absurd (ok-ne-err (sym h))
open_valid-ok p s t none is h =
    let (allowed, same) =
      permitted-ok (authorize p (record { operation = opens; session = 0; spec = some s }))
        (ok (left_by p.authorizes s)) t h in
    (ok-injective same, ((validate_open_iff p.config s).0 is, allowed))

open_decoded-ok :
    (json : Json) (p : Protocol) (f : Frame) (t : ProcessSpec) (r : Result PtyError ProcessSpec)
    → f.header.stream_id ≡ 0
    → decode json.parse_open json p f ≡ r
    → open_decoded p r ≡ ok t
    → IsOpenRequest json p f t
open_decoded-ok json p f t (err e) stream is h = absurd (ok-ne-err (sym h))
open_decoded-ok json p f t (ok s) stream is h =
    let (request, (version, parsed)) = decode-ok json.parse_open json p f s is in
    let (same, (bounded, allowed)) = open_valid-ok p s t (validate_open p.config s) refl h in
    let asks : AuthorizationRequest = record { operation = opens; session = 0; spec = some s } in
    record {
      asked = s;
      no_stream = stream;
      request = request;
      version = version;
      parsed = parsed;
      bounded = bounded;
      unguarded = λ nobody. sym same ∙ ap (λ o. left_by o s) nobody;
      guarded = λ a is_a. (
        ap (λ o. authorize_by o asks) (sym is_a) ∙ allowed,
        sym same ∙ ap (λ o. left_by o s) is_a,
      );
    }

-- `handleOpen` asks the Manager for a session only for a request outside every stream, with the version of
-- the adapter, that describes a process within the bounds of its configuration. Without an authorization
-- the Manager is given the very process that the request describes; with one, the authorization has
-- let that process through, and the Manager is given what it leaves of it, which is not checked again.
pub check_open-IsOpenRequest :
    (json : Json) (p : Protocol) (f : Frame) (s : ProcessSpec)
    → check_open json p f ≡ ok s
    → IsOpenRequest json p f s
unfolding check_open
check_open-IsOpenRequest json p f s h =
    let (stream, decoded) = else-ok (not (f.header.stream_id == 0)) _ _ s h in
    open_decoded-ok json p f s (decode json.parse_open json p f) (ground (arith, stream)) refl
      decoded
