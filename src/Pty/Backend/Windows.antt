-- ===== src/Pty/Backend/Windows.antt =====
-- `managedProcess` and the environment block of pty/windowspty/factory_windows.go. What the system answers
-- is a parameter of each operation.
pub mod Environment
pub mod Ownership
use streammux.Base.{
  ℕ, ◌+◌, ◌≡◌, ◌≤◌, refl, sym, ap, ◌∙◌, subst, Bool, true, false, not, ◌&&◌, ◌||◌, Option, none,
  some, List, [], ◌∷◌, if◌then◌else◌, ◌==◌, Result, ok, err, arith, if_elim, is_some,
}
use streammux.Base.Int.{ℤ, pos, negsuc}
use streammux.Pty.Values.{
  PtyError, nil_context, process_id_unavailable, Size, ExitReason, ExitStatus,
}
use streammux.Pty.Manager.{ProcessSpec}
use streammux.Pty.Manager.Serving.{first_of}
use streammux.Pty.Backend.{check_process, check_size}

-- `math.MaxInt16`
abbrev pub max_size : ℕ
max_size = 32767

-- `validateSpec`
abbrev pub validate_spec : ProcessSpec → Option PtyError
validate_spec s = check_process max_size s

-- `startManaged` up to the search for the executable
unfoldable pub check_start : Bool → ProcessSpec → Option PtyError → Option PtyError
check_start given spec done =
    if not given then some nil_context else first_of (validate_spec spec) done

-- `managedProcess`; with what the once-only parts have done: the status of `waitOnce`, the result of
-- `closeOnce`, whether its goroutine still has the resources to close, and how often the console and
-- the two handles were closed.
pub record WindowsProcess : Type 0 where
  pub process_id : ℕ
  pub released : Bool
  pub running : Bool
  pub killed : Bool
  pub terminate_sent : Bool
  pub console_closing : Bool
  pub resources_closed : Bool
  pub waited : Option (ExitStatus × Option PtyError)
  pub closed : Option (Option PtyError)
  pub closing_later : Bool
  pub console_once : Bool
  pub console_closes : ℕ
  pub handle_closes : ℕ

abbrev pub started : ℕ → Bool → WindowsProcess
started id released = record {
  process_id = id;
  released = released;
  running = true;
  killed = false;
  terminate_sent = false;
  console_closing = false;
  resources_closed = false;
  waited = none;
  closed = none;
  closing_later = false;
  console_once = false;
  console_closes = 0;
  handle_closes = 0;
}

-- `ProcessID`; the test says whether the process has exited.
unfoldable pub process_id : Bool → WindowsProcess → Result PtyError ℕ
process_id exited p =
    if not p.running || p.resources_closed || p.process_id == 0 || exited
    then err process_id_unavailable
    else ok p.process_id

abbrev pub resize_console : Option PtyError → Option PtyError → WindowsProcess → Option PtyError
resize_console (some e) answer p = some e
resize_console none answer p = if not p.running || p.console_closing then none else answer

-- `Resize`, with the answer of the console
unfoldable pub resize : Size → Option PtyError → WindowsProcess → Option PtyError
resize s answer p = resize_console (check_size max_size s) answer p

-- `closeConsole`
unfoldable pub close_console : WindowsProcess → WindowsProcess
close_console p = if p.console_once then record p { console_closing = true } else record p {
  console_closing = true;
  console_once = true;
  console_closes = p.console_closes + 1;
}

-- `Terminate`; the tests say whether the job and the process have exited.
unfoldable pub terminate : Bool → Bool → WindowsProcess → WindowsProcess
terminate job_exited exited p =
    if p.resources_closed || p.console_closing || job_exited
    then p
    else close_console (if p.running && not exited then record p { terminate_sent = true } else p)

abbrev pub after_kill : Bool → Option PtyError → WindowsProcess → Option PtyError × WindowsProcess
after_kill exited (some e) p = (some e, p)
after_kill exited none p = (none, if p.running && not exited then record p { killed = true } else p)

-- `Kill`: whether the job is terminated, the error and the process.
unfoldable pub kill :
    Bool → Bool → Option PtyError → WindowsProcess → Bool × (Option PtyError × WindowsProcess)
kill job_exited exited answer p =
    if p.resources_closed || job_exited
    then (false, (none, p))
    else (true, after_kill exited answer p)

-- What the wait for the process and its exit code answer.
pub data Waited : Type 0 where
  exit_code : ℕ → Waited
  wait_error : PtyError → List ℕ → Waited

-- The name of the event that closes a console.
abbrev pub close_event : List ℕ
close_event = 67 ∷ 84 ∷ 82 ∷ 76 ∷ 95 ∷ 67 ∷ 76 ∷ 79 ∷ 83 ∷ 69 ∷ 95 ∷ 69 ∷ 86 ∷ 69 ∷ 78 ∷ 84 ∷ []

abbrev pub killed_or : Bool → Bool → ExitStatus → ExitStatus
killed_or killed signaled s =
    if killed
    then record s { reason = ExitReason.killed }
    else if signaled
    then record s { reason = ExitReason.signaled; signal = close_event }
    else s

-- The status and the error of `WaitStatus`
unfoldable pub status_of : WindowsProcess → Waited → ExitStatus × Option PtyError
status_of p (exit_code n) = (
  killed_or p.killed (p.terminate_sent && not (n == 0))
      (record { reason = ExitReason.exited; code = pos n; signal = []; error = [] }),
  none,
)
status_of p (wait_error e text) = (
  killed_or p.killed false
      (record { reason = ExitReason.io_failure; code = negsuc 0; signal = []; error = text }),
  some e,
)

abbrev pub waits_once :
    Option (ExitStatus × Option PtyError)
    → Waited
    → WindowsProcess
    → (ExitStatus × Option PtyError) × WindowsProcess
waits_once (some known) answer p = (known, p)
waits_once none answer p =
    let s = status_of p answer in
    let p' = record p { running = false; waited = some s } in
    (s, if p.released then p' else close_console p')

-- `WaitStatus`
unfoldable pub wait_status :
    Waited → WindowsProcess → (ExitStatus × Option PtyError) × WindowsProcess
wait_status answer p = waits_once p.waited answer p

-- `closeResources`, and the handles of the process and of the job
abbrev pub close_handles : WindowsProcess → WindowsProcess
close_handles p =
    if p.resources_closed
    then p
    else record p { resources_closed = true; handle_closes = p.handle_closes + 1 }

unfoldable pub close_resources : WindowsProcess → WindowsProcess
close_resources p = close_handles (close_console p)

abbrev pub closes_once :
    Option (Option PtyError) → Option PtyError → WindowsProcess → Option PtyError × WindowsProcess
closes_once (some known) answer p = (known, p)
closes_once none answer p =
    let p' = record p { closed = some answer } in
    (answer, if not p.running then close_resources p' else record p' { closing_later = true })

-- `Close`, with the answers of the two pipes joined
unfoldable pub close_process : Option PtyError → WindowsProcess → Option PtyError × WindowsProcess
close_process answer p = closes_once p.closed answer p

-- The goroutine of `Close`, when the process is waited for.
unfoldable pub close_later : WindowsProcess → WindowsProcess
close_later p =
    if p.closing_later && is_some p.waited
    then close_resources (record p { closing_later = false })
    else p

-- `legacyWait`
abbrev pub legacy_wait : ExitStatus × Option PtyError → Bool
legacy_wait (s, some e) = false
legacy_wait (s, none) = is_zero s.code
  where
    is_zero : ℤ → Bool
    is_zero (pos n) = n == 0
    is_zero (negsuc n) = false

-- The calls on a process in any order, with what the system answers.
pub data Call : Type 0 where
  terminates : Bool → Bool → Call
  kills : Bool → Bool → Option PtyError → Call
  waits : Waited → Call
  closes : Option PtyError → Call
  closes_later : Call

unfoldable pub call : Call → WindowsProcess → WindowsProcess
call (terminates job_exited exited) p = terminate job_exited exited p
call (kills job_exited exited answer) p = (kill job_exited exited answer p).1.1
call (waits answer) p = (wait_status answer p).1
call (closes answer) p = (close_process answer p).1
call closes_later p = close_later p

unfoldable pub calls : List Call → WindowsProcess → WindowsProcess
calls [] p = p
calls (c ∷ rest) p = calls rest (call c p)
