-- ===== src/Pty/Backend/Unix.antt =====
-- `ManagedFactory` and `managedProcess` of pty/unixpty/factory_unix.go. What the system answers is a
-- parameter of each operation.
use streammux.Base.{
  ℕ, ◌≡◌, Bool, true, false, not, Option, none, some, List, [], ◌∷◌, if◌then◌else◌, Result, ok, err,
}
use streammux.Base.Int.{ℤ, pos, negsuc, leb_ℤ, pos_part}
use streammux.Pty.Values.{
  PtyError, nil_context, process_id_unavailable, Size, ExitReason, ExitStatus,
}
use streammux.Pty.Manager.{ProcessSpec}
use streammux.Pty.Manager.Serving.{first_of}
use streammux.Pty.Backend.{check_process, check_size}

-- `math.MaxUint16`
abbrev pub max_size : ℕ
max_size = 65535

-- `StartManaged` up to the start, with the error of its context.
unfoldable pub check_start : Bool → ProcessSpec → Option PtyError → Option PtyError
check_start given spec done =
    if not given then some nil_context else first_of (check_process max_size spec) done

-- `Resize` up to the system call
abbrev pub check_terminal : Size → Option PtyError
check_terminal s = check_size max_size s

-- `managedProcess`; `waited` is what `waitOnce` left.
pub record UnixProcess : Type 0 where
  pub pid : Option ℤ
  pub running : Bool
  pub killed : Bool
  pub waited : Option (ExitStatus × Option PtyError)
  pub closed : Option (Option PtyError)

abbrev pub started : ℤ → UnixProcess
started pid = record {
  pid = some pid;
  running = true;
  killed = false;
  waited = none;
  closed = none;
}

abbrev pub pid_of : Option ℤ → Result PtyError ℕ
pid_of none = err process_id_unavailable
pid_of (some n) = if leb_ℤ n (pos 0) then err process_id_unavailable else ok (pos_part n)

-- `ProcessID`
unfoldable pub process_id : UnixProcess → Result PtyError ℕ
process_id p = if not p.running then err process_id_unavailable else pid_of p.pid

-- What `kill(2)` answers for the group.
pub data Signalled : Type 0 where
  delivered no_such_process : Signalled
  refused : PtyError → Signalled

abbrev pub after_signal : Bool → Signalled → UnixProcess → Option PtyError × UnixProcess
after_signal kills delivered p = (none, if kills then record p { killed = true } else p)
after_signal kills no_such_process p = (none, p)
after_signal kills (refused e) p = (some e, p)

-- `signalGroup`: whether the group is signalled, the error and the process.
unfoldable pub signal_group :
    Bool → Signalled → UnixProcess → Bool × (Option PtyError × UnixProcess)
signal_group kills answer p =
    if not p.running then (false, (none, p)) else (true, after_signal kills answer p)

-- What `exec.Cmd.Wait` answers: no error, an `ExitError` with its code and the signal that ended
-- the process, or another error and its text.
pub data Waited : Type 0 where
  finished : Waited
  exit_error : ℤ → Option (List ℕ) → Waited
  wait_error : PtyError → List ℕ → Waited

abbrev pub with_signal : Option (List ℕ) → ExitStatus → ExitStatus
with_signal none s = s
with_signal (some name) s = record s { reason = ExitReason.signaled; signal = name }

-- The status that `WaitStatus` makes of it, and its error.
unfoldable pub status_of : Bool → Waited → ExitStatus × Option PtyError
status_of killed finished =
    (record { reason = ExitReason.exited; code = pos 0; signal = []; error = [] }, none)
status_of killed (exit_error code signal) =
    let s =
      with_signal signal
        (record { reason = ExitReason.exited; code = code; signal = []; error = [] }) in
    (if killed then record s { reason = ExitReason.killed } else s, none)
status_of killed (wait_error e text) =
    (record { reason = ExitReason.io_failure; code = negsuc 0; signal = []; error = text }, some e)

abbrev pub waits_once :
    Option (ExitStatus × Option PtyError)
    → Waited
    → UnixProcess
    → (ExitStatus × Option PtyError) × UnixProcess
waits_once (some known) answer p = (known, p)
waits_once none answer p =
    let s = status_of p.killed answer in (s, record p { running = false; waited = some s })

-- `WaitStatus`
unfoldable pub wait_status : Waited → UnixProcess → (ExitStatus × Option PtyError) × UnixProcess
wait_status answer p = waits_once p.waited answer p

abbrev pub closes_once :
    Option (Option PtyError) → Option PtyError → UnixProcess → Option PtyError × UnixProcess
closes_once (some known) answer p = (known, p)
closes_once none answer p = (answer, record p { closed = some answer })

-- `Close`, where closing a file that is closed is no error
unfoldable pub close_process : Option PtyError → UnixProcess → Option PtyError × UnixProcess
close_process answer p = closes_once p.closed answer p

-- The calls on a process in any order, with what the system answers.
pub data Call : Type 0 where
  signals : Bool → Signalled → Call
  waits : Waited → Call
  closes : Option PtyError → Call

unfoldable pub call : Call → UnixProcess → UnixProcess
call (signals kills answer) p = (signal_group kills answer p).1.1
call (waits answer) p = (wait_status answer p).1
call (closes answer) p = (close_process answer p).1

unfoldable pub calls : List Call → UnixProcess → UnixProcess
calls [] p = p
calls (c ∷ rest) p = calls rest (call c p)

-- A process that is waited for runs no more, and its status stays.
pub record IsReaped (s : ExitStatus × Option PtyError) (p : UnixProcess) : Type 0 where
  pub stopped : p.running ≡ false
  pub known : p.waited ≡ some s

-- What later calls get of a process that was waited for: the same status, no signal to a process group
-- that may be another's by then, and no process ID.
pub record IsOver (s : ExitStatus × Option PtyError) (p : UnixProcess) : Type 0 where
  pub status : (answer : Waited) → (wait_status answer p).0 ≡ s
  pub unsignalled : (kills : Bool) (answer : Signalled) → (signal_group kills answer p).0 ≡ false
  pub no_id : process_id p ≡ err process_id_unavailable

-- What the first wait has to report of a process: how it ended as the system says, that it was killed where
-- a kill was delivered to it, else the signal that ended it, and an error where the system gives one.
abbrev pub IsStatusOf : Bool → Waited → ExitStatus × Option PtyError → Type 0
IsStatusOf killed finished (s, e) = ((s.reason ≡ ExitReason.exited) × (s.code ≡ pos 0)) × (e ≡ none)
IsStatusOf killed (exit_error code signal) (s, e) =
    ((s.code ≡ code) × (s.signal ≡ text_of signal))
    × ((s.reason ≡ (if killed then ExitReason.killed else reason_of signal)) × (e ≡ none))
  where
    text_of : Option (List ℕ) → List ℕ
    text_of none = []
    text_of (some name) = name

    reason_of : Option (List ℕ) → ExitReason
    reason_of none = ExitReason.exited
    reason_of (some name) = ExitReason.signaled
IsStatusOf killed (wait_error x text) (s, e) =
    ((s.reason ≡ ExitReason.io_failure) × (s.error ≡ text)) × (e ≡ some x)
