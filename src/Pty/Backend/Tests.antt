-- ===== src/Pty/Backend/Tests.antt =====
-- The backends on concrete processes.
use streammux.Base.{refl, true, false, none, some, List, [], ◌∷◌, ◌++◌, some-injective, sym}
use streammux.Base.Int.{pos}
use streammux.Pty.Backend.Unix
use streammux.Pty.Backend.Windows
use streammux.Pty.Backend.Unix.{
  UnixProcess, started, exit_error, delivered, no_such_process, status_of, calls,
}
use streammux.Pty.Backend.Windows.{exit_code}
use streammux.Pty.Backend.Windows.Ownership.{IsOwned, calls-IsOwned}
use streammux.Pty.Backend.Windows.Environment.{
  Text, EndsInZero, insert_value, sort_values, encode_values, environment_block, EndsTwice,
  environment_block-EndsTwice,
}

abbrev text : Text
text = record { to_upper = λ x. x; utf16 = λ x. some (x ++ (0 ∷ [])) }

text_ends : EndsInZero text
text_ends x u h = (x, sym (some-injective h))

environment_block-EndsTwice_example : EndsTwice (65 ∷ 0 ∷ 66 ∷ 0 ∷ 0 ∷ [])
unfolding environment_block encode_values sort_values insert_value
environment_block-EndsTwice_example =
    environment_block-EndsTwice text (some ((66 ∷ []) ∷ (65 ∷ []) ∷ [])) (65 ∷ 0 ∷ 66 ∷ 0 ∷ 0 ∷ [])
      text_ends refl

abbrev later_calls : List Unix.Call
later_calls =
    Unix.Call.signals true delivered
    ∷ Unix.Call.waits (exit_error (pos 3) none)
    ∷ Unix.Call.closes none
    ∷ []

abbrev some_calls : List Windows.Call
some_calls =
    Windows.Call.closes none
    ∷ Windows.Call.terminates false false
    ∷ Windows.Call.waits (exit_code 1)
    ∷ Windows.Call.closes_later
    ∷ Windows.Call.kills false true none
    ∷ []

calls-IsOwned_example : IsOwned (Windows.calls some_calls (Windows.started 40 false))
calls-IsOwned_example = calls-IsOwned some_calls 40 false
