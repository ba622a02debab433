-- ===== src/Pty/Manager/Touching.antt =====
-- What pty/manager.go does with a session that goes on keeps the Manager right: `Kill`, `Attach`, `publish`,
-- `recordAttachmentClose` and `Resize`.
use streammux.Base.{
  ℕ, suc, ◌≡◌, ◌≤◌, ◌<◌, refl, sym, ap, Bool, true, not, Option, none, some, List, [], ◌∷◌, ◌++◌,
  length, ltb, leb, ◌==◌, arith, if_elim, Result, ok, err,
}
use streammux.Base.Map.{Map, lookup, insert, remove_key, length-remove_key-le}
use streammux.Pty.Values.{PtyError, Size, OutputEvent, CloseReason}
use streammux.Pty.Attachment.{Attachment, start}
use streammux.Pty.History.{History, append_history}
use streammux.Pty.History.Bounds.{IsWithin, append_history-IsWithin}
use streammux.Pty.Manager.{Bounds, Session, Attached, Manager, is_live, is_running, tick}
use streammux.Pty.Manager.Attaching.{
  AttachOptions, AttachResult, Caller, attach, attach_found, attach_done, attach_session,
  add_attachment, exit_attached, start_attached, register_attachment, publish, publish_found, Told,
  tell_one, tell_output, tell_outputs, is_known, is_attachable, cut_by, has_ended,
}
use streammux.Pty.Manager.Ending.{mark_stopping, kill_found, kill_session}
use streammux.Pty.Manager.Serving.{
  let_go, let_go_found, close_found, record_close, resize_done, size_found, commit_resize,
}
use streammux.Pty.Manager.Registry.{IsSession}
use streammux.Pty.Manager.Core.{IsCore, CoreOf, touch-IsCore, found_by_id}

-- A session as good as another for all that is counted of it.
pub record Alike (most : ℕ) (s s' : Session) : Type 0 where
  pub id : s'.id ≡ s.id
  pub live : is_live s'.state ≡ is_live s.state
  pub retained : s'.retained ≡ s.retained
  pub removing : s'.removing ≡ s.removing
  pub good : IsSession most s'

pub mark_stopping-Alike :
    (most : ℕ) (s : Session) → IsSession most s → Alike most s (mark_stopping s)
mark_stopping-Alike most s good =
    if_elim (Alike most s) (is_running s.state) _ _
      (λ runs.
        let lives : is_live s.state ≡ true = ground (arith, runs) in
        record {
          id = refl;
          live = sym lives;
          retained = refl;
          removing = refl;
          good = record {
            phase = refl;
            live = λ _. good.live lives;
            apart = good.apart;
            over = λ h. ground (arith, h);
            few = good.few;
          };
        })
      (λ _. record { id = refl; live = refl; retained = refl; removing = refl; good = good })

-- Other attachments, sequence and size.
pub serve-Alike :
    (most : ℕ) (s : Session) (sequence : ℕ) (size : Size) (attached : List ℕ)
    → IsSession most s
    → length attached ≤ most
    → Alike most s (record s { last_sequence = sequence; size = size; attached = attached })
serve-Alike most s sequence size attached good few = record {
  id = refl;
  live = refl;
  retained = refl;
  removing = refl;
  good = record {
    phase = good.phase;
    live = good.live;
    apart = good.apart;
    over = good.over;
    few = few;
  };
}

tell_one-length :
    (id : ℕ) (a : Attached) (r : Result PtyError Attachment) (t : Told)
    → length (tell_one id a r t).stay ≤ suc (length t.stay)
tell_one-length id a (ok x) t = omega arith
tell_one-length id a (err x) t = omega arith

tell_output-length :
    (e : OutputEvent) (id : ℕ) (o : Option Attached) (t : Told)
    → length (tell_output e id o t).stay ≤ suc (length t.stay)
tell_output-length e id none t = omega arith
tell_output-length e id (some a) t = tell_one-length id a _ t

tell_outputs-length :
    (e : OutputEvent) (ids : List ℕ) (store : Map Attached)
    → length (tell_outputs e ids store).stay ≤ length ids
unfolding tell_outputs
tell_outputs-length e [] store = omega arith
tell_outputs-length e (id ∷ rest) store = omega (
  arith,
  tell_outputs-length e rest store,
  tell_output-length e id (lookup id (tell_outputs e rest store).store) (tell_outputs e rest store),
)

module _ (m : Manager) (slack : Bounds × ℕ) (starts ts : List ℕ)
    (core : CoreOf slack m starts ts) where
  touched-Core :
      (k : ℕ) (s s' : Session) (h : History)
      → lookup k m.sessions ≡ some s
      → Alike m.bounds.max_attachments s s'
      → IsWithin h
      → IsCore m.bounds slack
          (insert k s' m.sessions)
          m.retained_exited
          ts
          m.active
          m.starting
          starts
          m.next_session
          m.exhausted
          h
  touched-Core k s s' h found a within =
      touch-IsCore m slack k s starts ts core found s' h a.id a.good a.live a.retained a.removing
        within

  good_at :
      (k : ℕ) (s : Session) → lookup k m.sessions ≡ some s → IsSession m.bounds.max_attachments s
  good_at k s found = (core.registry.named k s found).1

  kill_found-Core :
      (id : ℕ) (o : Option Session)
      → lookup id m.sessions ≡ o
      → CoreOf slack (kill_found id o m).1 starts ts
  kill_found-Core id none e = core
  kill_found-Core id (some s) e =
      touched-Core id s (mark_stopping s) m.history e
        (mark_stopping-Alike m.bounds.max_attachments s (good_at id s e)) core.history

  pub kill_session-Core : (id : ℕ) → CoreOf slack (kill_session id m).1 starts ts
  unfolding kill_session
  kill_session-Core id = kill_found-Core id (lookup id m.sessions) refl

  resize_done-Alike :
      (size : Size) (answer : Option PtyError) (s : Session)
      → IsSession m.bounds.max_attachments s
      → Alike m.bounds.max_attachments s (resize_done size answer s)
  resize_done-Alike size (some e) s good =
      serve-Alike m.bounds.max_attachments s s.last_sequence s.size s.attached good good.few
  resize_done-Alike size none s good =
      if_elim (Alike m.bounds.max_attachments s) (is_running s.state) _ _
        (λ _. serve-Alike m.bounds.max_attachments s s.last_sequence size s.attached good good.few)
        (λ _.
          serve-Alike m.bounds.max_attachments s s.last_sequence s.size s.attached good good.few)

  size_found-Core :
      (id : ℕ) (size : Size) (answer : Option PtyError) (o : Option Session)
      → lookup id m.sessions ≡ o
      → CoreOf slack (size_found id size answer o m) starts ts
  size_found-Core id size answer none e = core
  size_found-Core id size answer (some s) e =
      touched-Core id s (resize_done size answer s) m.history e
        (resize_done-Alike size answer s (good_at id s e)) core.history

  pub commit_resize-Core :
      (id : ℕ) (size : Size) (answer : Option PtyError)
      → CoreOf slack (commit_resize id size answer m) starts ts
  unfolding commit_resize
  commit_resize-Core id size answer = size_found-Core id size answer (lookup id m.sessions) refl

  publish_found-Core :
      (id : ℕ) (bytes : List ℕ) (o : Option Session)
      → lookup id m.sessions ≡ o
      → CoreOf slack (publish_found id bytes o m).1 starts ts
  publish_found-Core id bytes none e = core
  publish_found-Core id bytes (some s) e =
      let event : OutputEvent = record { sequence = tick s.last_sequence; data_bytes = bytes } in
      let good = good_at id s e in
      let t = tell_outputs event s.attached m.attachments in
      touched-Core id s (record s { last_sequence = tick s.last_sequence; attached = t.stay })
        (append_history s.id event m.history) e
        (serve-Alike m.bounds.max_attachments s (tick s.last_sequence) s.size t.stay good
          (omega (arith, good.few, tell_outputs-length event s.attached m.attachments)))
        (append_history-IsWithin s.id event m.history core.history)

  pub publish-Core : (id : ℕ) (bytes : List ℕ) → CoreOf slack (publish id bytes m).1 starts ts
  unfolding publish
  publish-Core id bytes = publish_found-Core id bytes (lookup id m.sessions) refl

  register-Core :
      (s : Session) (id : ℕ) (a : Attachment)
      → lookup s.id m.sessions ≡ some s
      → length s.attached < m.bounds.max_attachments
      → CoreOf slack (register_attachment s id a m) starts ts
  register-Core s id a found few =
      touched-Core s.id s (record s { attached = s.attached ++ (id ∷ []) }) m.history found
        (serve-Alike m.bounds.max_attachments s s.last_sequence s.size (s.attached ++ (id ∷ []))
          (good_at s.id s found) (omega (arith, few, one_more s.attached)))
        core.history
    where
      one_more : (xs : List ℕ) → length (xs ++ (id ∷ [])) ≡ suc (length xs)
      one_more [] = refl
      one_more (x ∷ xs) = ap suc (one_more xs)

  start_attached-Core :
      (s : Session) (id : ℕ) (r : AttachResult) (late : Option PtyError)
      (started : Bool × Attachment)
      → lookup s.id m.sessions ≡ some s
      → length s.attached < m.bounds.max_attachments
      → CoreOf slack (start_attached s id r late started m).1 starts ts
  start_attached-Core s id r late (started, a) found few =
      if_elim (λ (x : Result PtyError (ℕ × AttachResult) × Manager). CoreOf slack x.1 starts ts)
        (not started) _ _ (λ _. core) (λ _. register-Core s id a found few)

  exit_attached-Core :
      (s : Session) (id : ℕ) (r : AttachResult) (late : Option PtyError)
      (a : Result PtyError Attachment)
      → lookup s.id m.sessions ≡ some s
      → length s.attached < m.bounds.max_attachments
      → CoreOf slack (exit_attached s id r late a m).1 starts ts
  exit_attached-Core s id r late (err e) found few = core
  exit_attached-Core s id r late (ok a) found few =
      start_attached-Core s id r late (start (cut_by (has_ended late) a)) found few

  add_attachment-Core :
      (id : ℕ) (s : Session) (options : AttachOptions) (caller : Caller)
      → lookup s.id m.sessions ≡ some s
      → length s.attached < m.bounds.max_attachments
      → CoreOf slack (add_attachment id s options caller m).1 starts ts
  unfolding add_attachment
  add_attachment-Core id s options caller found few =
      if_elim (λ (x : Result PtyError (ℕ × AttachResult) × Manager). CoreOf slack x.1 starts ts)
        (id == 0) _ _ (λ _. core) (λ _. exit_attached-Core s id _ caller.late _ found few)

module _ (m : Manager) (slack : Bounds × ℕ) (starts ts : List ℕ)
    (core : CoreOf slack m starts ts) where
  abbrev AttachKeeps : Result PtyError (ℕ × AttachResult) × Manager → Type 0
  AttachKeeps x = CoreOf slack x.1 starts ts

  attach_session-Core :
      (s : Session) (options : AttachOptions) (caller : Caller)
      → lookup s.id m.sessions ≡ some s
      → AttachKeeps (attach_session s options caller m)
  unfolding attach_session
  attach_session-Core s options caller found =
      if_elim AttachKeeps m.closing _ _ (λ _. core)
        λ _.
          if_elim AttachKeeps (not (is_attachable s)) _ _ (λ _. core)
            λ _.
              if_elim AttachKeeps (leb m.bounds.max_attachments (length s.attached)) _ _ (λ _. core)
                λ free.
                  if_elim AttachKeeps (ltb s.last_sequence options.resume_after) _ _ (λ _. core)
                    λ _.
                      add_attachment-Core (record m { next_attachment = tick m.next_attachment })
                        slack starts ts core (tick m.next_attachment) s options caller found
                        (ground (arith, free))

  attach_found-Core :
      (id : ℕ) (o : Option Session) (options : AttachOptions) (caller : Caller)
      → lookup id m.sessions ≡ o
      → AttachKeeps (attach_found o options caller m)
  attach_found-Core id none options caller e =
      if_elim AttachKeeps m.closing _ _ (λ _. core) (λ _. core)
  attach_found-Core id (some s) options caller e =
      attach_session-Core s options caller (found_by_id m slack id s starts ts core e)

  attach_done-Core :
      (e : Option PtyError) (next : Result PtyError (ℕ × AttachResult) × Manager)
      → AttachKeeps next
      → AttachKeeps (attach_done e next m)
  attach_done-Core none next h = h
  attach_done-Core (some e) next h = core

  pub attach-Core :
      (id : ℕ) (options : AttachOptions) (caller : Caller)
      → CoreOf slack (attach id options caller m).1 starts ts
  unfolding attach
  attach-Core id options caller =
      if_elim AttachKeeps (not caller.context) _ _ (λ _. core)
        λ _. attach_done-Core caller.done _ (
          if_elim AttachKeeps (not caller.sink) _ _ (λ _. core)
            λ _.
              if_elim AttachKeeps (not (is_known options.replay)) _ _ (λ _. core)
                λ _. attach_found-Core id (lookup id m.sessions) options caller refl)

  let_go_found-Core :
      (id : ℕ) (why : CloseReason) (last : Session) (k : ℕ) (o : Option Session)
      → lookup k m.sessions ≡ o
      → CoreOf slack (let_go_found id why last o m) starts ts
  let_go_found-Core id why last k none e = core
  let_go_found-Core id why last k (some s) e =
      let good = good_at m slack starts ts core k s e in
      touched-Core m slack starts ts core s.id s (let_go id s) m.history
        (found_by_id m slack k s starts ts core e)
        (serve-Alike m.bounds.max_attachments s s.last_sequence s.size (remove_key id s.attached)
          good (omega (arith, good.few, length-remove_key-le id s.attached)))
        core.history

module _ (m : Manager) (slack : Bounds × ℕ) (starts ts : List ℕ)
    (core : CoreOf slack m starts ts) where
  close_found-Core :
      (id : ℕ) (why : CloseReason) (last : Session) (o : Option Attached)
      → CoreOf slack (close_found id why last o m) starts ts
  close_found-Core id why last none = core
  close_found-Core id why last (some a) =
      if_elim (λ (x : Manager). CoreOf slack x starts ts) a.registered _ _
        (λ _.
          let_go_found-Core _ slack starts ts core id why last a.session
            (lookup a.session m.sessions) refl)
        (λ _. core)

  pub record_close-Core :
      (id : ℕ) (why : CloseReason) (last : Session)
      → CoreOf slack (record_close id why last m) starts ts
  unfolding record_close
  record_close-Core id why last = close_found-Core id why last (lookup id m.attachments)
