-- ===== src/Desktop/Core/Runs.antt =====
-- What any run of the supervisor keeps to: one child at a time, none after a stop, and a stop that ends
-- (desktop/src/core-supervisor.ts).
use pixiv_biu.Base.{
  ℕ, ◌+◌, ◌≡◌, refl, ◌∙◌, arith, true, false, Option, none, some, List, [], ◌∷◌, is_some,
}
use pixiv_biu.Desktop.Core.Supervisor.{
  CoreFailure, stop_failed, Attempt, LaunchPoint, releasing, choosing, fetching, waiting, ending,
  StopPoint, awaiting, terminating, over, Supervisor, new_supervisor, transition, Answer, Progress,
  done, at, terminate, terminate_at, give_up, to_choosing, try_again,
}
use pixiv_biu.Desktop.Core.Run.{
  is_ready, start, after_ending, end_attempt, not_ready, poll, port_chosen, fetched, attempt_at,
  with_attempt, launch_at, on_output, on_spawn_error, on_child_exit, on_exit, on_close, stop,
  finish_stop, to_finish, begin_stop, stop_at, Event, start_call, stop_call, launch_step, stop_step,
  output, spawn_error, child_exit, child_close, handle, handle_all,
}
use pixiv_biu.Desktop.Core.Invariant.{are_dead, Serves}
use pixiv_biu.Desktop.Core.Handled.{handle_all-IsValid, new_supervisor-IsValid}

module _ (marker text : List ℕ) where
  -- In every run of a new supervisor, a child is spawned only when the child before it, if any, has
  -- exited.
  pub launched-are_dead :
      (es : List Event) → are_dead (handle_all marker text new_supervisor es).launched ≡ true
  launched-are_dead es =
      (handle_all-IsValid marker text new_supervisor es new_supervisor-IsValid).launched_dead

  -- In every run of a new supervisor, there is a port exactly in the state `ready`, and it is the port of
  -- a child that shook hands and listens.
  pub ready-Serves :
      (es : List Event)
      → let s = handle_all marker text new_supervisor es in
        (is_some s.port ≡ is_ready s.state) × Serves s.port s.attempt
  ready-Serves es =
      let v = handle_all-IsValid marker text new_supervisor es new_supervisor-IsValid in
      (v.port_ready, v.served)

-- Nothing is spawned on the way from `s` to `t`, and `t` quits.
pub record Quits (s t : Supervisor) : Type 0 where
  pub quits : t.quitting ≡ true
  pub same_launched : t.launched ≡ s.launched

try_again-Quits :
    (tries : ℕ) (failure : CoreFailure) (s : Supervisor)
    → s.quitting ≡ true
    → Quits s (try_again tries failure s)
unfolding try_again give_up transition
try_again-Quits tries failure s q = ground arith

start-Quits : (s : Supervisor) → s.quitting ≡ true → Quits s (start s)
unfolding start
start-Quits s q = ground arith

stop-Quits : (s : Supervisor) → s.quitting ≡ true → Quits s (stop s)
unfolding stop transition
stop-Quits s q = ground arith

give_up-Quits : (f : CoreFailure) (s : Supervisor) → s.quitting ≡ true → Quits s (give_up f s)
unfolding give_up transition
give_up-Quits f s q = ground arith

end_attempt-Quits :
    (tries : ℕ) (failure : CoreFailure) (a : Attempt) (p : Progress) (s : Supervisor)
    → s.quitting ≡ true
    → Quits s (end_attempt tries failure a p s)
unfolding end_attempt after_ending
end_attempt-Quits tries failure a (at phase) s q = ground arith
end_attempt-Quits tries failure a (done true) s q =
    ground (arith, give_up-Quits failure s, try_again-Quits (tries + 1) failure s)
end_attempt-Quits tries failure a (done false) s q = give_up-Quits stop_failed s q

to_choosing-Quits :
    (tries : ℕ) (failure : CoreFailure) (p : Progress) (s : Supervisor)
    → s.quitting ≡ true
    → Quits s (to_choosing tries failure p s)
to_choosing-Quits tries failure (at phase) s q = ground arith
to_choosing-Quits tries failure (done true) s q = ground arith
to_choosing-Quits tries failure (done false) s q = give_up-Quits stop_failed s q

port_chosen-Quits :
    (tries : ℕ) (failure : CoreFailure) (w : Answer) (s : Supervisor)
    → s.quitting ≡ true
    → Quits s (port_chosen tries failure w s)
unfolding port_chosen give_up transition
port_chosen-Quits tries failure w s q = ground arith

attempt_at-Quits :
    (point : LaunchPoint) (w : Answer) (a : Attempt) (s : Supervisor)
    → s.quitting ≡ true
    → Quits s (attempt_at point w a s)
unfolding attempt_at fetched poll not_ready
attempt_at-Quits (releasing tries failure phase) w a s q =
    to_choosing-Quits tries failure (terminate_at phase w a) s q
attempt_at-Quits (fetching tries) w a s q = ground arith
attempt_at-Quits (waiting tries) w a s q = ground arith
attempt_at-Quits (ending tries failure phase) w a s q =
    end_attempt-Quits tries failure a (terminate_at phase w a) s q
attempt_at-Quits (choosing tries failure) w a s q = ground arith
attempt_at-Quits LaunchPoint.flushing w a s q = ground arith

with_attempt-Quits :
    (f : Attempt → Supervisor → Supervisor) (o : Option Attempt) (s : Supervisor)
    → ((a : Attempt) → s.quitting ≡ true → Quits s (f a s))
    → s.quitting ≡ true
    → Quits s (with_attempt f o s)
with_attempt-Quits f none s h q = record { quits = q; same_launched = refl }
with_attempt-Quits f (some a) s h q = h a q

pub launch_at-Quits :
    (o : Option LaunchPoint) (w : Answer) (s : Supervisor)
    → s.quitting ≡ true
    → Quits s (launch_at o w s)
unfolding launch_at
launch_at-Quits none w s q = ground arith
launch_at-Quits (some (choosing tries failure)) w s q = port_chosen-Quits tries failure w s q
launch_at-Quits (some LaunchPoint.flushing) w s q = ground arith
launch_at-Quits (some (releasing tries failure phase)) w s q =
    with_attempt-Quits (attempt_at (releasing tries failure phase) w) s.attempt s
      (λ a h. attempt_at-Quits (releasing tries failure phase) w a s h) q
launch_at-Quits (some (fetching tries)) w s q =
    with_attempt-Quits (attempt_at (fetching tries) w) s.attempt s
      (λ a h. attempt_at-Quits (fetching tries) w a s h) q
launch_at-Quits (some (waiting tries)) w s q =
    with_attempt-Quits (attempt_at (waiting tries) w) s.attempt s
      (λ a h. attempt_at-Quits (waiting tries) w a s h) q
launch_at-Quits (some (ending tries failure phase)) w s q =
    with_attempt-Quits (attempt_at (ending tries failure phase) w) s.attempt s
      (λ a h. attempt_at-Quits (ending tries failure phase) w a s h) q

to_finish-Quits : (p : Progress) (s : Supervisor) → s.quitting ≡ true → Quits s (to_finish p s)
unfolding to_finish finish_stop transition
to_finish-Quits (at phase) s q = ground arith
to_finish-Quits (done true) s q = ground arith
to_finish-Quits (done false) s q = ground arith

begin_stop-Quits :
    (o : Option Attempt) (s : Supervisor) → s.quitting ≡ true → Quits s (begin_stop o s)
unfolding begin_stop
begin_stop-Quits none s q = to_finish-Quits (done true) s q
begin_stop-Quits (some a) s q = to_finish-Quits (terminate a) s q

stop_at-Quits :
    (o : Option StopPoint) (w : Answer) (s : Supervisor)
    → s.quitting ≡ true
    → Quits s (stop_at o w s)
unfolding stop_at
stop_at-Quits none w s q = ground arith
stop_at-Quits (some awaiting) w s q = ground (arith, begin_stop-Quits s.attempt s)
stop_at-Quits (some (terminating phase)) w s q =
    with_attempt-Quits (λ a. to_finish (terminate_at phase w a)) s.attempt s
      (λ a h. to_finish-Quits (terminate_at phase w a) s h) q
stop_at-Quits (some StopPoint.flushing) w s q = ground arith
stop_at-Quits (some over) w s q = ground arith

on_spawn_error-Quits :
    (a : Attempt) (s : Supervisor) → s.quitting ≡ true → Quits s (on_spawn_error a s)
unfolding on_spawn_error
on_spawn_error-Quits a s q = ground arith

on_close-Quits :
    (code : Option ℕ) (a : Attempt) (s : Supervisor)
    → s.quitting ≡ true
    → Quits s (on_close code a s)
unfolding on_close on_exit
on_close-Quits code a s q = ground arith

module _ (marker text : List ℕ) where
  pub handle-Quits :
      (s : Supervisor) (e : Event) → s.quitting ≡ true → Quits s (handle marker text s e)
  unfolding handle on_output on_child_exit
  handle-Quits s start_call q = start-Quits s q
  handle-Quits s stop_call q = stop-Quits s q
  handle-Quits s (launch_step w) q = launch_at-Quits s.operation w s q
  handle-Quits s (stop_step w) q = stop_at-Quits s.stop_operation w s q
  handle-Quits s (output chunk) q =
      with_attempt-Quits (on_output marker text chunk) s.attempt s
        (λ a h. record { quits = h; same_launched = refl }) q
  handle-Quits s spawn_error q =
      with_attempt-Quits on_spawn_error s.attempt s (λ a h. on_spawn_error-Quits a s h) q
  handle-Quits s (child_exit code) q =
      with_attempt-Quits (on_child_exit code) s.attempt s
        (λ a h. record { quits = h; same_launched = refl }) q
  handle-Quits s (child_close code) q =
      with_attempt-Quits (on_close code) s.attempt s (λ a h. on_close-Quits code a s h) q

  -- Once the supervisor quits, no event makes it spawn a child any more.
  pub handle_all-launched :
      (s : Supervisor) (es : List Event)
      → s.quitting ≡ true
      → (handle_all marker text s es).launched ≡ s.launched
  unfolding handle_all
  handle_all-launched s [] q = refl
  handle_all-launched s (e ∷ es) q =
      let one = handle-Quits s e q in
      handle_all-launched (handle marker text s e) es one.quits ∙ one.same_launched
