-- ===== src/Pty/Backend/Windows/Ownership.antt =====
-- The console and the handles of a process of pty/windowspty/factory_windows.go are closed once.
use streammux.Base.{
  ℕ, ◌≡◌, refl, ap, ◌∙◌, Bool, true, false, not, ◌&&◌, ◌||◌, Option, none, some, List, [], ◌∷◌,
  if◌then◌else◌, arith, if_elim, is_some,
}
use streammux.Pty.Values.{PtyError, ExitStatus}
use streammux.Pty.Backend.Windows.{
  WindowsProcess, started, close_console, terminate, after_kill, kill, Waited, status_of,
  waits_once, wait_status, close_handles, close_resources, closes_once, close_process, close_later,
  Call, call, calls, terminates, kills, waits, closes, closes_later,
}

-- The handles are closed once, and only when the process is waited for; so is the console.
pub record IsOwned (p : WindowsProcess) : Type 0 where
  pub handles : p.handle_closes ≡ (if p.resources_closed then 1 else 0)
  pub console : p.console_closes ≡ (if p.console_once then 1 else 0)
  pub console_first : p.resources_closed ≡ true → p.console_once ≡ true
  pub waited_first : p.resources_closed ≡ true → is_some p.waited ≡ true
  pub running_until : p.running ≡ not (is_some p.waited)

close_console-IsOwned : (p : WindowsProcess) → IsOwned p → IsOwned (close_console p)
unfolding close_console
close_console-IsOwned p o =
    if_elim IsOwned p.console_once _ _
      (λ once. record {
        handles = o.handles;
        console = o.console;
        console_first = o.console_first;
        waited_first = o.waited_first;
        running_until = o.running_until;
      })
      (λ first. record {
        handles = o.handles;
        console = ground (arith, o.console, first);
        console_first = λ _. refl;
        waited_first = o.waited_first;
        running_until = o.running_until;
      })

close_console-once : (p : WindowsProcess) → (close_console p).console_once ≡ true
unfolding close_console
close_console-once p =
    if_elim (λ (x : WindowsProcess). x.console_once ≡ true) p.console_once _ _ (λ h. h) (λ _. refl)

close_console-waited : (p : WindowsProcess) → (close_console p).waited ≡ p.waited
unfolding close_console
close_console-waited p =
    if_elim (λ (x : WindowsProcess). x.waited ≡ p.waited) p.console_once _ _ (λ h. refl) (λ _. refl)

close_handles-IsOwned :
    (p : WindowsProcess)
    → IsOwned p
    → p.console_once ≡ true
    → is_some p.waited ≡ true
    → IsOwned (close_handles p)
close_handles-IsOwned p o once waited =
    if_elim IsOwned p.resources_closed _ _ (λ _. o)
      (λ first. record {
        handles = ground (arith, o.handles, first);
        console = o.console;
        console_first = λ _. once;
        waited_first = λ _. waited;
        running_until = o.running_until;
      })

close_resources-IsOwned :
    (p : WindowsProcess) → IsOwned p → is_some p.waited ≡ true → IsOwned (close_resources p)
unfolding close_resources
close_resources-IsOwned p o waited =
    close_handles-IsOwned (close_console p) (close_console-IsOwned p o) (close_console-once p)
      (ap is_some (close_console-waited p) ∙ waited)

terminate-IsOwned :
    (job_exited exited : Bool) (p : WindowsProcess)
    → IsOwned p
    → IsOwned (terminate job_exited exited p)
unfolding terminate
terminate-IsOwned job_exited exited p o =
    if_elim IsOwned (p.resources_closed || p.console_closing || job_exited) _ _ (λ _. o)
      λ _.
        if_elim (λ (x : WindowsProcess). IsOwned (close_console x)) (p.running && not exited) _ _
          (λ _.
            close_console-IsOwned (record p { terminate_sent = true })
              (record {
                handles = o.handles;
                console = o.console;
                console_first = o.console_first;
                waited_first = o.waited_first;
                running_until = o.running_until;
              }))
          (λ _. close_console-IsOwned p o)

after_kill-IsOwned :
    (exited : Bool) (answer : Option PtyError) (p : WindowsProcess)
    → IsOwned p
    → IsOwned (after_kill exited answer p).1
after_kill-IsOwned exited (some e) p o = o
after_kill-IsOwned exited none p o =
    if_elim IsOwned (p.running && not exited) _ _
      (λ _. record {
        handles = o.handles;
        console = o.console;
        console_first = o.console_first;
        waited_first = o.waited_first;
        running_until = o.running_until;
      })
      (λ _. o)

waits_once-IsOwned :
    (w : Option (ExitStatus × Option PtyError)) (answer : Waited) (p : WindowsProcess)
    → p.waited ≡ w
    → IsOwned p
    → IsOwned (waits_once w answer p).1
waits_once-IsOwned (some known) answer p is o = o
waits_once-IsOwned none answer p is o =
    let open_still : p.resources_closed ≡ false = ground (arith, o.waited_first, is) in
    let p' = record p { running = false; waited = some (status_of p answer) } in
    let owned : IsOwned p' = record {
      handles = o.handles;
      console = o.console;
      console_first = o.console_first;
      waited_first = λ _. refl;
      running_until = refl;
    } in
    if_elim IsOwned p.released _ _ (λ _. owned) (λ _. close_console-IsOwned p' owned)

closes_once-IsOwned :
    (c : Option (Option PtyError)) (answer : Option PtyError) (p : WindowsProcess)
    → IsOwned p
    → IsOwned (closes_once c answer p).1
closes_once-IsOwned (some known) answer p o = o
closes_once-IsOwned none answer p o =
    if_elim IsOwned (not p.running) _ _
      (λ stopped.
        close_resources-IsOwned (record p { closed = some answer })
          (record {
            handles = o.handles;
            console = o.console;
            console_first = o.console_first;
            waited_first = o.waited_first;
            running_until = o.running_until;
          })
          (ground (arith, stopped, o.running_until)))
      (λ _. record {
        handles = o.handles;
        console = o.console;
        console_first = o.console_first;
        waited_first = o.waited_first;
        running_until = o.running_until;
      })

close_later-IsOwned : (p : WindowsProcess) → IsOwned p → IsOwned (close_later p)
unfolding close_later
close_later-IsOwned p o =
    if_elim IsOwned (p.closing_later && is_some p.waited) _ _
      (λ ready.
        close_resources-IsOwned (record p { closing_later = false })
          (record {
            handles = o.handles;
            console = o.console;
            console_first = o.console_first;
            waited_first = o.waited_first;
            running_until = o.running_until;
          })
          (ground (arith, ready)))
      (λ _. o)

call-IsOwned : (c : Call) (p : WindowsProcess) → IsOwned p → IsOwned (call c p)
unfolding call kill wait_status close_process
call-IsOwned (terminates job_exited exited) p o = terminate-IsOwned job_exited exited p o
call-IsOwned (kills job_exited exited answer) p o =
    if_elim (λ (x : Bool × (Option PtyError × WindowsProcess)). IsOwned x.1.1)
      (p.resources_closed || job_exited) _ _ (λ _. o) (λ _. after_kill-IsOwned exited answer p o)
call-IsOwned (waits answer) p o = waits_once-IsOwned p.waited answer p refl o
call-IsOwned (closes answer) p o = closes_once-IsOwned p.closed answer p o
call-IsOwned closes_later p o = close_later-IsOwned p o

calls_keep : (cs : List Call) (p : WindowsProcess) → IsOwned p → IsOwned (calls cs p)
unfolding calls
calls_keep [] p o = o
calls_keep (c ∷ rest) p o = calls_keep rest (call c p) (call-IsOwned c p o)

-- Whatever calls follow on a process that was started, in whatever order and whatever the system answers:
-- its console is closed at most once, its handles at most once, not before the console and not before the
-- process was waited for, and it runs exactly until it was.
pub calls-IsOwned :
    (cs : List Call) (id : ℕ) (released : Bool) → IsOwned (calls cs (started id released))
calls-IsOwned cs id released = calls_keep cs (started id released) (record {
  handles = refl;
  console = refl;
  console_first = λ h. ground (arith, h);
  waited_first = λ h. ground (arith, h);
  running_until = refl;
})
