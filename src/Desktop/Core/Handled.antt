-- ===== src/Desktop/Core/Handled.antt =====
-- Every event keeps the supervisor valid (desktop/src/core-supervisor.ts).
use pixiv_biu.Base.{
  ℕ, ◌≡◌, refl, arith, Bool, true, false, Option, none, some, List, [], ◌∷◌, is_some,
}
use pixiv_biu.Desktop.Core.Chunks.{on_data-stopped}
use pixiv_biu.Desktop.Core.Supervisor.{
  CoreState, CoreFailure, core_exited, stop_failed, Exit, Attempt, LaunchPoint, releasing, choosing,
  fetching, waiting, ending, StopPoint, awaiting, terminating, over, Supervisor, new_supervisor,
  transition, Answer, Progress, done, at, terminate, terminate_at, to_choosing,
}
use pixiv_biu.Desktop.Core.Run.{
  attempt_at, with_attempt, launch_at, on_output, on_spawn_error, on_child_exit, on_exit, result_or,
  on_close, stop, finish_stop, to_finish, begin_stop, stop_at, Event, start_call, stop_call,
  launch_step, stop_step, output, spawn_error, child_exit, child_close, handle, handle_all,
}
use pixiv_biu.Desktop.Core.Invariant.{is_dead, IsValid, give_up-IsValid}
use pixiv_biu.Desktop.Core.Kept.{
  start-IsValid, end_attempt-IsValid, poll-IsValid, port_chosen-IsValid, fetched-IsValid,
  ite_IsValid, is_sound, terminate-is_sound, terminate_at-is_sound,
}

to_choosing-IsValid :
    (tries : ℕ) (failure : CoreFailure) (a : Attempt) (p : Progress) (s : Supervisor)
    → is_some s.operation ≡ true
    → s.attempt ≡ some a
    → is_sound p a ≡ true
    → IsValid s
    → IsValid (to_choosing tries failure p s)
to_choosing-IsValid tries failure a (at phase) s o e d v = ground arith
to_choosing-IsValid tries failure a (done true) s o e d v = ground arith
to_choosing-IsValid tries failure a (done false) s o e d v = give_up-IsValid stop_failed s o v

attempt_at-IsValid :
    (point : LaunchPoint) (w : Answer) (a : Attempt) (s : Supervisor)
    → s.operation ≡ some point
    → s.attempt ≡ some a
    → IsValid s
    → IsValid (attempt_at point w a s)
unfolding attempt_at
attempt_at-IsValid (releasing tries failure phase) w a s q e v =
    to_choosing-IsValid tries failure a (terminate_at phase w a) s (ground arith) e
      (terminate_at-is_sound phase w a (ground arith) (ground arith)) v
attempt_at-IsValid (fetching tries) w a s q e v =
    fetched-IsValid tries w a s (ground arith) e (ground arith) v
attempt_at-IsValid (waiting tries) w a s q e v = poll-IsValid tries w a s (ground arith) e v
attempt_at-IsValid (ending tries failure phase) w a s q e v =
    end_attempt-IsValid tries failure a (terminate_at phase w a) s (ground arith) e
      (terminate_at-is_sound phase w a (ground arith) (ground arith)) v
attempt_at-IsValid (choosing tries failure) w a s q e v = v
attempt_at-IsValid LaunchPoint.flushing w a s q e v = v

with_attempt-IsValid :
    (f : Attempt → Supervisor → Supervisor) (o : Option Attempt) (s : Supervisor)
    → s.attempt ≡ o
    → ((a : Attempt) → s.attempt ≡ some a → IsValid s → IsValid (f a s))
    → IsValid s
    → IsValid (with_attempt f o s)
with_attempt-IsValid f none s e h v = v
with_attempt-IsValid f (some a) s e h v = h a e v

launch_at-IsValid :
    (o : Option LaunchPoint) (w : Answer) (s : Supervisor)
    → s.operation ≡ o
    → IsValid s
    → IsValid (launch_at o w s)
unfolding launch_at
launch_at-IsValid none w s q v = v
launch_at-IsValid (some (choosing tries failure)) w s q v =
    port_chosen-IsValid tries failure w s (ground arith) v
launch_at-IsValid (some LaunchPoint.flushing) w s q v = ground arith
launch_at-IsValid (some (releasing tries failure phase)) w s q v =
    with_attempt-IsValid (attempt_at (releasing tries failure phase) w) s.attempt s refl
      (λ a e u. attempt_at-IsValid (releasing tries failure phase) w a s q e u) v
launch_at-IsValid (some (fetching tries)) w s q v =
    with_attempt-IsValid (attempt_at (fetching tries) w) s.attempt s refl
      (λ a e u. attempt_at-IsValid (fetching tries) w a s q e u) v
launch_at-IsValid (some (waiting tries)) w s q v =
    with_attempt-IsValid (attempt_at (waiting tries) w) s.attempt s refl
      (λ a e u. attempt_at-IsValid (waiting tries) w a s q e u) v
launch_at-IsValid (some (ending tries failure phase)) w s q v =
    with_attempt-IsValid (attempt_at (ending tries failure phase) w) s.attempt s refl
      (λ a e u. attempt_at-IsValid (ending tries failure phase) w a s q e u) v

on_output-IsValid :
    (marker text chunk : List ℕ) (a : Attempt) (s : Supervisor)
    → s.attempt ≡ some a
    → IsValid s
    → IsValid (on_output marker text chunk a s)
unfolding on_output
on_output-IsValid marker text chunk a s e v =
    ground (arith, on_data-stopped marker text chunk a.scan)

on_spawn_error-IsValid :
    (a : Attempt) (s : Supervisor) → s.attempt ≡ some a → IsValid s → IsValid (on_spawn_error a s)
unfolding on_spawn_error
on_spawn_error-IsValid a s e v = ground arith

on_child_exit-IsValid :
    (code : Option ℕ) (a : Attempt) (s : Supervisor)
    → s.attempt ≡ some a
    → IsValid s
    → IsValid (on_child_exit code a s)
unfolding on_child_exit
on_child_exit-IsValid code a s e v = ground arith

-- The supervisor once its ready child is gone.
restarted-IsValid :
    (a : Attempt) (s : Supervisor)
    → s.attempt ≡ some a
    → a.closed ≡ true
    → s.quitting ≡ false
    → IsValid s
    → IsValid (transition CoreState.restarting none (record s { port = none }))
unfolding transition
restarted-IsValid a s e k q v = ground arith

exited-IsValid :
    (a : Attempt) (s : Supervisor)
    → s.attempt ≡ some a
    → a.closed ≡ true
    → s.quitting ≡ false
    → IsValid s
    → IsValid (transition CoreState.failed (some core_exited) (record s { port = none }))
unfolding transition
exited-IsValid a s e k q v = ground arith

on_exit-IsValid :
    (result : Option Exit) (a b : Attempt) (s : Supervisor)
    → s.attempt ≡ some b
    → b.closed ≡ true
    → IsValid s
    → IsValid (on_exit result a s)
unfolding on_exit
on_exit-IsValid result a b s e k v = ground (
  arith,
  restarted-IsValid b s,
  exited-IsValid b s,
  start-IsValid (transition CoreState.restarting none (record s { port = none })),
)

-- The child's pipes are closed.
abbrev closed_by : Option ℕ → Attempt → Attempt
closed_by code a = record a { result = result_or code a.result; closed = true }

closed-IsValid :
    (code : Option ℕ) (a : Attempt) (s : Supervisor)
    → s.attempt ≡ some a
    → IsValid s
    → IsValid (record s { attempt = some (closed_by code a) })
closed-IsValid code a s e v = ground arith

on_close-IsValid :
    (code : Option ℕ) (a : Attempt) (s : Supervisor)
    → s.attempt ≡ some a
    → IsValid s
    → IsValid (on_close code a s)
unfolding on_close
on_close-IsValid code a s e v =
    let s' = record s { attempt = some (closed_by code a) } in
    let v' = closed-IsValid code a s e v in
    ite_IsValid a.closed v (
      ite_IsValid a.watched
        (on_exit-IsValid (result_or code a.result) a (closed_by code a) s' refl refl v') v')

stop-IsValid : (s : Supervisor) → IsValid s → IsValid (stop s)
unfolding stop transition
stop-IsValid s v = ground arith

finish_stop-IsValid :
    (ok : Bool) (s : Supervisor)
    → is_some s.stop_operation ≡ true
    → s.operation ≡ none
    → (ok ≡ true → is_dead s.attempt ≡ true)
    → IsValid s
    → IsValid (finish_stop ok s)
unfolding finish_stop transition
finish_stop-IsValid true s o p d v = ground arith
finish_stop-IsValid false s o p d v = ground arith

to_finish-IsValid :
    (a : Attempt) (p : Progress) (s : Supervisor)
    → is_some s.stop_operation ≡ true
    → s.operation ≡ none
    → s.attempt ≡ some a
    → is_sound p a ≡ true
    → IsValid s
    → IsValid (to_finish p s)
unfolding to_finish
to_finish-IsValid a (at phase) s o p e d v = ground arith
to_finish-IsValid a (done true) s o p e d v = finish_stop-IsValid true s o p (λ h. ground arith) v
to_finish-IsValid a (done false) s o p e d v = finish_stop-IsValid false s o p (λ h. ground arith) v

begin_stop-IsValid :
    (o : Option Attempt) (s : Supervisor)
    → s.attempt ≡ o
    → is_some s.stop_operation ≡ true
    → s.operation ≡ none
    → IsValid s
    → IsValid (begin_stop o s)
unfolding begin_stop
begin_stop-IsValid none s e q p v = finish_stop-IsValid true s q p (λ h. ground arith) v
begin_stop-IsValid (some a) s e q p v =
    to_finish-IsValid a (terminate a) s q p e (terminate-is_sound a (ground arith)) v

stop_at-IsValid :
    (o : Option StopPoint) (w : Answer) (s : Supervisor)
    → s.stop_operation ≡ o
    → IsValid s
    → IsValid (stop_at o w s)
unfolding stop_at
stop_at-IsValid none w s q v = v
stop_at-IsValid (some awaiting) w s q v = ground (arith, begin_stop-IsValid s.attempt s refl)
stop_at-IsValid (some (terminating phase)) w s q v =
    with_attempt-IsValid (λ a. to_finish (terminate_at phase w a)) s.attempt s refl
      (λ a e u.
        to_finish-IsValid a (terminate_at phase w a) s (ground arith) (ground arith) e
          (terminate_at-is_sound phase w a (ground arith) (ground arith)) u)
      v
stop_at-IsValid (some StopPoint.flushing) w s q v = ground arith
stop_at-IsValid (some over) w s q v = v

module _ (marker text : List ℕ) where
  pub handle-IsValid : (s : Supervisor) (e : Event) → IsValid s → IsValid (handle marker text s e)
  unfolding handle
  handle-IsValid s start_call v = start-IsValid s v
  handle-IsValid s stop_call v = stop-IsValid s v
  handle-IsValid s (launch_step w) v = launch_at-IsValid s.operation w s refl v
  handle-IsValid s (stop_step w) v = stop_at-IsValid s.stop_operation w s refl v
  handle-IsValid s (output chunk) v =
      with_attempt-IsValid (on_output marker text chunk) s.attempt s refl
        (λ a e u. on_output-IsValid marker text chunk a s e u) v
  handle-IsValid s spawn_error v =
      with_attempt-IsValid on_spawn_error s.attempt s refl (λ a e u. on_spawn_error-IsValid a s e u)
        v
  handle-IsValid s (child_exit code) v =
      with_attempt-IsValid (on_child_exit code) s.attempt s refl
        (λ a e u. on_child_exit-IsValid code a s e u) v
  handle-IsValid s (child_close code) v =
      with_attempt-IsValid (on_close code) s.attempt s refl (λ a e u. on_close-IsValid code a s e u)
        v

  pub handle_all-IsValid :
      (s : Supervisor) (es : List Event) → IsValid s → IsValid (handle_all marker text s es)
  unfolding handle_all
  handle_all-IsValid s [] v = v
  handle_all-IsValid s (e ∷ es) v =
      handle_all-IsValid (handle marker text s e) es (handle-IsValid s e v)

pub new_supervisor-IsValid : IsValid new_supervisor
new_supervisor-IsValid = ground arith
