-- ===== src/Desktop/Core/Run.antt =====
-- The launch of the core, its exit, and the stop, cut at their awaits:
-- desktop/src/core-supervisor.ts. A step of an await runs once the awaited call has ended or its time is
-- over.
use pixiv_biu.Base.{
  ℕ, ◌==◌, ◌+◌, Bool, true, false, not, ◌&&◌, ◌||◌, Option, none, some, List, [], ◌∷◌, ◌++◌,
  if◌then◌else◌, is_some,
}
use pixiv_biu.Desktop.Core.Stdout.{new_scan, on_data}
use pixiv_biu.Desktop.Core.Supervisor.{
  CoreState, CoreFailure, start_failed, incompatible_core, startup_timeout, core_exited,
  stop_failed, Exit, Attempt, LaunchPoint, releasing, choosing, fetching, waiting, ending,
  StopPoint, awaiting, terminating, over, Supervisor, transition, Answer, Progress, done, at,
  terminate, terminate_at, give_up, to_choosing, try_again,
}

abbrev pub restart_exit_code : ℕ
restart_exit_code = 75

abbrev pub port_busy_exit_code : ℕ
port_busy_exit_code = 76

abbrev pub has_code : ℕ → Option Exit → Bool
has_code code none = false
has_code code (some e) = elim e.code [ none ↦ false | some n ↦ n == code ]

abbrev pub is_error : Option Exit → Bool
is_error none = false
is_error (some e) = e.is_error

abbrev pub is_ready : CoreState → Bool
is_ready CoreState.ready = true
is_ready _ = false

abbrev pub is_failed : CoreState → Bool
is_failed CoreState.failed = true
is_failed _ = false

abbrev pub relaunched : CoreState → CoreState
relaunched CoreState.restarting = CoreState.restarting
relaunched _ = CoreState.starting

unfoldable pub launch : Supervisor → Supervisor
unfolding transition try_again
launch s = try_again 0 start_failed (transition (relaunched s.state) none s)

unfoldable pub start : Supervisor → Supervisor
unfolding launch
start s = if s.quitting || is_ready s.state || is_some s.operation then s else launch s

-- The failure of an attempt that did not become ready.
unfoldable pub failure_of : Attempt → CoreFailure
failure_of a =
    if is_error a.result
    then start_failed
    else if not a.scan.handshake
    then incompatible_core
    else if is_some a.result
    then start_failed
    else startup_timeout

-- After the end of an attempt that failed; `true` where it has ended.
unfoldable pub after_ending : ℕ → CoreFailure → Attempt → Bool → Supervisor → Supervisor
unfolding give_up try_again
after_ending tries failure a false s = give_up stop_failed s
after_ending tries failure a true s =
    if a.scan.handshake && has_code port_busy_exit_code a.result
    then try_again (tries + 1) failure s
    else give_up failure s

unfoldable pub end_attempt : ℕ → CoreFailure → Attempt → Progress → Supervisor → Supervisor
unfolding after_ending
end_attempt tries failure a (at phase) s = record s {
  operation = some (ending tries failure phase);
}
end_attempt tries failure a (done ok) s = after_ending tries failure a ok s

-- `ready` has thrown.
unfoldable pub not_ready : ℕ → Attempt → Supervisor → Supervisor
unfolding end_attempt failure_of terminate
not_ready tries a s =
    if s.quitting
    then record s { operation = none }
    else end_attempt tries (failure_of a) a (terminate a) s

-- The head of the loop in `ready`.
unfoldable pub poll : ℕ → Answer → Attempt → Supervisor → Supervisor
unfolding not_ready
poll tries w a s =
    if s.quitting || is_some a.result || w.is_late
    then not_ready tries a s
    else if a.scan.handshake && a.scan.listening
    then record s { operation = some (fetching tries) }
    else record s { operation = some (waiting tries) }

-- `spawn`.
abbrev pub spawned : Answer → Attempt
spawned w = record {
  has_pid = w.has_pid;
  port = w.found_port;
  scan = new_scan;
  result = none;
  closed = false;
  watched = false;
}

-- After `findFreePort`: the child is spawned.
unfoldable pub port_chosen : ℕ → CoreFailure → Answer → Supervisor → Supervisor
unfolding give_up poll
port_chosen tries failure w s =
    if not w.resolved
    then give_up failure s
    else if s.quitting
    then record s { operation = none }
    else poll tries w (spawned w) (record s {
      attempt = some (spawned w);
      launched = s.launched ++ s.attempt ∷ [];
      operation = some (waiting tries);
    })

-- The health request has been answered.
unfoldable pub fetched : ℕ → Answer → Attempt → Supervisor → Supervisor
unfolding transition
fetched tries w a s =
    if w.resolved && not (is_some a.result) && not s.quitting
    then record (transition CoreState.ready none (record s { port = some a.port })) {
      attempt = some (record a { watched = true });
      operation = none;
    }
    else record s { operation = some (waiting tries) }

-- A step of `launch` with an attempt.
unfoldable pub attempt_at : LaunchPoint → Answer → Attempt → Supervisor → Supervisor
unfolding end_attempt terminate_at fetched poll
attempt_at (releasing tries failure phase) w a s =
    to_choosing tries failure (terminate_at phase w a) s
attempt_at (fetching tries) w a s = fetched tries w a s
attempt_at (waiting tries) w a s = poll tries w a s
attempt_at (ending tries failure phase) w a s =
    end_attempt tries failure a (terminate_at phase w a) s
attempt_at (choosing tries failure) w a s = s
attempt_at LaunchPoint.flushing w a s = s

abbrev pub with_attempt :
    (Attempt → Supervisor → Supervisor) → Option Attempt → Supervisor → Supervisor
with_attempt f none s = s
with_attempt f (some a) s = f a s

unfoldable pub launch_at : Option LaunchPoint → Answer → Supervisor → Supervisor
unfolding attempt_at port_chosen
launch_at none w s = s
launch_at (some (choosing tries failure)) w s = port_chosen tries failure w s
launch_at (some LaunchPoint.flushing) w s = record s { operation = none }
launch_at (some point) w s = with_attempt (attempt_at point w) s.attempt s

-- The core's output (the text of one chunk), a failed spawn, the exit and the close of the latest child.
module _ (marker ready : List ℕ) where
  unfoldable pub on_output : List ℕ → Attempt → Supervisor → Supervisor
  on_output text a s = record s {
    attempt = some (record a { scan = on_data marker ready text a.scan });
  }

unfoldable pub on_spawn_error : Attempt → Supervisor → Supervisor
on_spawn_error a s = if a.has_pid then s else record s {
  attempt = some (record a { result = some (record { code = none; is_error = true }) });
}

unfoldable pub on_child_exit : Option ℕ → Attempt → Supervisor → Supervisor
on_child_exit code a s = record s {
  attempt = some (record a { result = some (record { code = code; is_error = false }) });
}

-- `onExit`.
unfoldable pub on_exit : Option Exit → Attempt → Supervisor → Supervisor
unfolding transition start
on_exit result a s =
    if s.quitting
    then s
    else if has_code restart_exit_code result && a.scan.handshake
    then start (transition CoreState.restarting none (record s { port = none }))
    else transition CoreState.failed (some core_exited) (record s { port = none })

abbrev pub result_or : Option ℕ → Option Exit → Option Exit
result_or code none = some (record { code = code; is_error = false })
result_or code (some e) = some e

unfoldable pub on_close : Option ℕ → Attempt → Supervisor → Supervisor
unfolding on_exit
on_close code a s =
    let result = result_or code a.result in
    let s' = record s { attempt = some (record a { result = result; closed = true }) } in
    if a.closed then s else if a.watched then on_exit result a s' else s'

-- `stop`, up to its first await.
unfoldable pub stop : Supervisor → Supervisor
unfolding transition
stop s =
    if is_some s.stop_operation
    then s
    else record (transition CoreState.stopping none (record s { quitting = true; port = none })) {
      stop_operation = some awaiting;
    }

unfoldable pub finish_stop : Bool → Supervisor → Supervisor
unfolding transition
finish_stop true s = record (transition CoreState.stopped none s) {
  stop_operation = some StopPoint.flushing;
}
finish_stop false s = record (transition CoreState.failed (some stop_failed) s) {
  stop_operation = some StopPoint.flushing;
}

unfoldable pub to_finish : Progress → Supervisor → Supervisor
unfolding finish_stop
to_finish (at phase) s = record s { stop_operation = some (terminating phase) }
to_finish (done ok) s = finish_stop ok s

unfoldable pub begin_stop : Option Attempt → Supervisor → Supervisor
unfolding finish_stop to_finish terminate
begin_stop none s = finish_stop true s
begin_stop (some a) s = to_finish (terminate a) s

unfoldable pub stop_at : Option StopPoint → Answer → Supervisor → Supervisor
unfolding begin_stop to_finish terminate_at
stop_at none w s = s
stop_at (some awaiting) w s = if is_some s.operation then s else begin_stop s.attempt s
stop_at (some (terminating phase)) w s =
    with_attempt (λ a. to_finish (terminate_at phase w a)) s.attempt s
stop_at (some StopPoint.flushing) w s = record s {
  stop_operation = if is_failed s.state then none else some over;
}
stop_at (some over) w s = s

-- A call, a step of an operation, or an event of the latest child, whose output comes as decoded text.
pub data Event : Type 0 where
  start_call stop_call : Event
  launch_step stop_step : Answer → Event
  output : List ℕ → Event
  spawn_error : Event
  child_exit child_close : Option ℕ → Event

module _ (marker ready : List ℕ) where
  unfoldable pub handle : Supervisor → Event → Supervisor
  handle s start_call = start s
  handle s stop_call = stop s
  handle s (launch_step w) = launch_at s.operation w s
  handle s (stop_step w) = stop_at s.stop_operation w s
  handle s (output text) = with_attempt (on_output marker ready text) s.attempt s
  handle s spawn_error = with_attempt on_spawn_error s.attempt s
  handle s (child_exit code) = with_attempt (on_child_exit code) s.attempt s
  handle s (child_close code) = with_attempt (on_close code) s.attempt s

  unfoldable pub handle_all : Supervisor → List Event → Supervisor
  handle_all s [] = s
  handle_all s (e ∷ es) = handle_all (handle s e) es
