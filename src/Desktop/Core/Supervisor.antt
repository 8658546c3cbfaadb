-- ===== src/Desktop/Core/Supervisor.antt =====
-- The state of the supervisor of the core process and the end of a process:
-- desktop/src/core-supervisor.ts. The attempt that counts is the latest; what befalls an earlier child
-- changes no field of it, so it is left out. An exited child has a `result`; it is `closed` once
-- its pipes are too, which resolves `exited`, and is `watched` once it was ready. `transitions` lists the
-- states told to `onState`, and `launched` the attempt before at each spawn. Diagnostics are left out but for the wait until they are flushed.
use pixiv_biu.Base.{
  ℕ, Bool, true, false, not, ◌&&◌, Option, none, some, List, [], ◌∷◌, ◌++◌, ltb, if◌then◌else◌,
  is_some,
}
use pixiv_biu.Desktop.Core.Stdout.{Scan}

pub data CoreState : Type 0 where
  starting ready restarting failed stopping stopped : CoreState

pub data CoreFailure : Type 0 where
  start_failed incompatible_core startup_timeout core_exited stop_failed : CoreFailure

pub record Exit : Type 0 where
  pub code : Option ℕ
  pub is_error : Bool

-- The flags that the output sets stand in `scan`.
pub record Attempt : Type 0 where
  pub has_pid : Bool
  pub port : ℕ
  pub scan : Scan
  pub result : Option Exit
  pub closed : Bool
  pub watched : Bool

-- The awaits of `terminate`: a dead child's pipes, a polite stop, `taskkill`, the end after a kill.
pub data Phase : Type 0 where
  draining stopping tasking killing : Phase

-- The awaits of `launch`: the end of the attempt before, a port, the health request, the delay between
-- two, the end of an attempt that failed, and the flush at the end. The number counts the tries.
pub data LaunchPoint : Type 0 where
  releasing : ℕ → CoreFailure → Phase → LaunchPoint
  choosing : ℕ → CoreFailure → LaunchPoint
  fetching : ℕ → LaunchPoint
  waiting : ℕ → LaunchPoint
  ending : ℕ → CoreFailure → Phase → LaunchPoint
  flushing : LaunchPoint

-- The awaits of `stop`: a running launch, the end of the child, the flush. A stop that is over stays.
pub data StopPoint : Type 0 where
  awaiting : StopPoint
  terminating : Phase → StopPoint
  flushing over : StopPoint

pub record Supervisor : Type 0 where
  pub port : Option ℕ
  pub state : CoreState
  pub failure : Option CoreFailure
  pub attempt : Option Attempt
  pub operation : Option LaunchPoint
  pub stop_operation : Option StopPoint
  pub quitting : Bool
  pub transitions : List (CoreState × Option CoreFailure)
  pub launched : List (Option Attempt)

abbrev pub new_supervisor : Supervisor
new_supervisor = record {
  port = none;
  state = CoreState.stopped;
  failure = none;
  attempt = none;
  operation = none;
  stop_operation = none;
  quitting = false;
  transitions = [];
  launched = [];
}

unfoldable pub transition : CoreState → Option CoreFailure → Supervisor → Supervisor
transition state failure s = record s {
  state = state;
  failure = failure;
  transitions = s.transitions ++ (state, failure) ∷ [];
}

-- What the world gives to a step: whether the awaited call succeeded before its time ran out, the port
-- found, whether the child has a process id, and whether the startup deadline has passed.
pub record Answer : Type 0 where
  pub resolved : Bool
  pub found_port : ℕ
  pub has_pid : Bool
  pub is_late : Bool
  pub is_windows : Bool

-- Where `terminate` is: over, with its result, or at an await.
pub data Progress : Type 0 where
  done : Bool → Progress
  at : Phase → Progress

-- `terminate` up to its first await.
unfoldable pub terminate : Attempt → Progress
terminate a =
    if is_some a.result then if a.closed then done true else at draining else at Phase.stopping

-- Whether the child goes on to `kill("SIGKILL")` is for the world to see; the wait is the same.
abbrev pub after_stop : Answer → Attempt → Phase
after_stop w a = if w.is_windows && a.has_pid then tasking else killing

-- The step after an await: the child may have closed meanwhile, and else the time ran out.
unfoldable pub terminate_at : Phase → Answer → Attempt → Progress
terminate_at draining w a = done true
terminate_at Phase.stopping w a = if a.closed then done true else at (after_stop w a)
terminate_at tasking w a = at killing
terminate_at killing w a = done a.closed

-- The end of a launch without success.
unfoldable pub give_up : CoreFailure → Supervisor → Supervisor
unfolding transition
give_up failure s =
    if s.quitting
    then record s { operation = none }
    else record (transition CoreState.failed (some failure) (record s { port = none })) {
      operation = some LaunchPoint.flushing;
    }

abbrev pub max_tries : ℕ
max_tries = 3

abbrev pub to_choosing : ℕ → CoreFailure → Progress → Supervisor → Supervisor
to_choosing tries failure (at phase) s = record s {
  operation = some (releasing tries failure phase);
}
to_choosing tries failure (done true) s = record s { operation = some (choosing tries failure) }
to_choosing tries failure (done false) s = give_up stop_failed s

abbrev pub release : ℕ → CoreFailure → Option Attempt → Supervisor → Supervisor
release tries failure none s = record s { operation = some (choosing tries failure) }
release tries failure (some a) s = to_choosing tries failure (terminate a) s

-- The head of the loop over the tries.
unfoldable pub try_again : ℕ → CoreFailure → Supervisor → Supervisor
unfolding give_up terminate
try_again tries failure s =
    if ltb tries max_tries && not s.quitting
    then release tries failure s.attempt s
    else give_up failure s
