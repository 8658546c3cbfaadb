-- ===== src/Desktop/Core/Stops.antt =====
-- A stop of the core ends, whatever the child does (desktop/src/core-supervisor.ts).
use pixiv_biu.Base.{ℕ, ◌+◌, ◌-◌, ◌≤◌, ◌≡◌, refl, arith, true, false, Option, none, some, is_some}
use pixiv_biu.Desktop.Core.Supervisor.{
  CoreFailure, Attempt, Phase, LaunchPoint, releasing, choosing, fetching, waiting, ending,
  StopPoint, awaiting, terminating, over, draining, tasking, killing, Supervisor, transition,
  Answer, Progress, done, at, terminate, terminate_at, give_up, to_choosing, try_again,
}
use pixiv_biu.Desktop.Core.Run.{
  after_ending, end_attempt, not_ready, poll, port_chosen, fetched, attempt_at, with_attempt,
  launch_at, finish_stop, to_finish, begin_stop, stop_at,
}
use pixiv_biu.Desktop.Core.Invariant.{is_trying, IsValid}

abbrev pub phase_rank : Phase → ℕ
phase_rank draining = 1
phase_rank Phase.stopping = 3
phase_rank tasking = 2
phase_rank killing = 1

-- How many steps a launch that quits takes at most.
abbrev pub launch_rank : Option LaunchPoint → ℕ
launch_rank none = 0
launch_rank (some (releasing tries failure phase)) = 1 + phase_rank phase
launch_rank (some (choosing tries failure)) = 1
launch_rank (some (fetching tries)) = 2
launch_rank (some (waiting tries)) = 1
launch_rank (some (ending tries failure phase)) = phase_rank phase
launch_rank (some LaunchPoint.flushing) = 1

-- And a stop.
abbrev pub stop_rank : Option StopPoint → ℕ
stop_rank none = 0
stop_rank (some awaiting) = 5
stop_rank (some (terminating phase)) = 1 + phase_rank phase
stop_rank (some StopPoint.flushing) = 1
stop_rank (some over) = 0

abbrev progress_rank : Progress → ℕ
progress_rank (at phase) = phase_rank phase
progress_rank (done ok) = 0

terminate_at-rank :
    (phase : Phase) (w : Answer) (a : Attempt)
    → progress_rank (terminate_at phase w a) + 1 ≤ phase_rank phase
unfolding terminate_at
terminate_at-rank draining w a = ground arith
terminate_at-rank Phase.stopping w a = ground arith
terminate_at-rank tasking w a = ground arith
terminate_at-rank killing w a = ground arith

end_attempt-rank :
    (tries : ℕ) (failure : CoreFailure) (a : Attempt) (p : Progress) (s : Supervisor)
    → s.quitting ≡ true
    → launch_rank (end_attempt tries failure a p s).operation ≤ progress_rank p
unfolding end_attempt after_ending try_again give_up transition
end_attempt-rank tries failure a (at phase) s q = ground arith
end_attempt-rank tries failure a (done true) s q = ground arith
end_attempt-rank tries failure a (done false) s q = ground arith

to_choosing-rank :
    (tries : ℕ) (failure : CoreFailure) (p : Progress) (s : Supervisor)
    → s.quitting ≡ true
    → launch_rank (to_choosing tries failure p s).operation ≤ 1 + progress_rank p
unfolding give_up transition
to_choosing-rank tries failure (at phase) s q = ground arith
to_choosing-rank tries failure (done true) s q = ground arith
to_choosing-rank tries failure (done false) s q = ground arith

attempt_at-rank :
    (point : LaunchPoint) (w : Answer) (a : Attempt) (s : Supervisor)
    → is_trying (some point) ≡ true
    → s.quitting ≡ true
    → launch_rank (attempt_at point w a s).operation + 1 ≤ launch_rank (some point)
unfolding attempt_at fetched poll not_ready
attempt_at-rank (releasing tries failure phase) w a s t q = ground (
  arith,
  terminate_at-rank phase w a,
  to_choosing-rank tries failure (terminate_at phase w a) s q,
)
attempt_at-rank (fetching tries) w a s t q = ground arith
attempt_at-rank (waiting tries) w a s t q = ground arith
attempt_at-rank (ending tries failure phase) w a s t q = ground (
  arith,
  terminate_at-rank phase w a,
  end_attempt-rank tries failure a (terminate_at phase w a) s q,
)
attempt_at-rank (choosing tries failure) w a s t q = ground arith
attempt_at-rank LaunchPoint.flushing w a s t q = ground arith

with_attempt-rank :
    (point : LaunchPoint) (w : Answer) (o : Option Attempt) (s : Supervisor)
    → is_some o ≡ true
    → is_trying (some point) ≡ true
    → s.quitting ≡ true
    → launch_rank (with_attempt (attempt_at point w) o s).operation + 1 ≤ launch_rank (some point)
with_attempt-rank point w none s o t q = cc
with_attempt-rank point w (some a) s o t q = attempt_at-rank point w a s t q

pub launch_at-rank :
    (o : Option LaunchPoint) (w : Answer) (s : Supervisor)
    → s.operation ≡ o
    → s.quitting ≡ true
    → IsValid s
    → launch_rank (launch_at o w s).operation ≤ launch_rank o - 1
unfolding launch_at port_chosen give_up transition
launch_at-rank none w s e q v = ground arith
launch_at-rank (some (choosing tries failure)) w s e q v = ground arith
launch_at-rank (some LaunchPoint.flushing) w s e q v = ground arith
launch_at-rank (some (releasing tries failure phase)) w s e q v = ground (
  arith,
  with_attempt-rank (releasing tries failure phase) w s.attempt s (v.trying (ground arith)) refl q,
)
launch_at-rank (some (fetching tries)) w s e q v =
    ground
      (arith, with_attempt-rank (fetching tries) w s.attempt s (v.trying (ground arith)) refl q)
launch_at-rank (some (waiting tries)) w s e q v =
    ground (arith, with_attempt-rank (waiting tries) w s.attempt s (v.trying (ground arith)) refl q)
launch_at-rank (some (ending tries failure phase)) w s e q v = ground (
  arith,
  with_attempt-rank (ending tries failure phase) w s.attempt s (v.trying (ground arith)) refl q,
)

to_finish-rank :
    (p : Progress) (s : Supervisor) → stop_rank (to_finish p s).stop_operation ≤ 1 + progress_rank p
unfolding to_finish finish_stop transition
to_finish-rank (at phase) s = ground arith
to_finish-rank (done true) s = ground arith
to_finish-rank (done false) s = ground arith

to_finish-operation : (p : Progress) (s : Supervisor) → (to_finish p s).operation ≡ s.operation
unfolding to_finish finish_stop transition
to_finish-operation (at phase) s = refl
to_finish-operation (done true) s = refl
to_finish-operation (done false) s = refl

terminate-rank : (a : Attempt) → progress_rank (terminate a) ≤ 3
unfolding terminate
terminate-rank a = ground arith

terminating-rank :
    (phase : Phase) (w : Answer) (o : Option Attempt) (s : Supervisor)
    → is_some o ≡ true
    → stop_rank (with_attempt (λ a. to_finish (terminate_at phase w a)) o s).stop_operation
      ≤ phase_rank phase
terminating-rank phase w none s o = cc
terminating-rank phase w (some a) s o =
    ground (arith, to_finish-rank (terminate_at phase w a) s, terminate_at-rank phase w a)

terminating-operation :
    (phase : Phase) (w : Answer) (o : Option Attempt) (s : Supervisor)
    → (with_attempt (λ a. to_finish (terminate_at phase w a)) o s).operation ≡ s.operation
terminating-operation phase w none s = refl
terminating-operation phase w (some a) s = to_finish-operation (terminate_at phase w a) s

begin_stop-rank :
    (o : Option Attempt) (s : Supervisor) → stop_rank (begin_stop o s).stop_operation ≤ 4
unfolding begin_stop
begin_stop-rank none s = ground (arith, to_finish-rank (done true) s)
begin_stop-rank (some a) s = ground (arith, to_finish-rank (terminate a) s, terminate-rank a)

begin_stop-operation :
    (o : Option Attempt) (s : Supervisor) → (begin_stop o s).operation ≡ s.operation
unfolding begin_stop
begin_stop-operation none s = to_finish-operation (done true) s
begin_stop-operation (some a) s = to_finish-operation (terminate a) s

pub stop_at-operation :
    (o : Option StopPoint) (w : Answer) (s : Supervisor) → (stop_at o w s).operation ≡ s.operation
unfolding stop_at
stop_at-operation none w s = refl
stop_at-operation (some awaiting) w s = ground (arith, begin_stop-operation s.attempt s)
stop_at-operation (some (terminating phase)) w s = terminating-operation phase w s.attempt s
stop_at-operation (some StopPoint.flushing) w s = refl
stop_at-operation (some over) w s = refl

pub stop_at-rank :
    (o : Option StopPoint) (w : Answer) (s : Supervisor)
    → s.stop_operation ≡ o
    → s.operation ≡ none
    → IsValid s
    → stop_rank (stop_at o w s).stop_operation ≤ stop_rank o - 1
unfolding stop_at
stop_at-rank none w s e n v = ground arith
stop_at-rank (some awaiting) w s e n v = ground (arith, begin_stop-rank s.attempt s)
stop_at-rank (some (terminating phase)) w s e n v =
    ground (arith, terminating-rank phase w s.attempt s (v.terminating_attempt (ground arith)))
stop_at-rank (some StopPoint.flushing) w s e n v = ground arith
stop_at-rank (some over) w s e n v = ground arith
