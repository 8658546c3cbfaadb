-- ===== src/Desktop/Core/Invariant.antt =====
-- What holds of the supervisor between two events, and the launch keeps it
-- (desktop/src/core-supervisor.ts).
use pixiv_biu.Base.{
  ℕ, ◌≡◌, arith, Bool, true, false, not, ◌&&◌, ◌||◌, Option, none, some, List, [], ◌∷◌, is_some,
}
use pixiv_biu.Desktop.Core.Supervisor.{
  CoreState, CoreFailure, Attempt, LaunchPoint, releasing, choosing, fetching, waiting, ending,
  StopPoint, terminating, over, draining, Supervisor, transition, terminate, give_up, try_again,
}
use pixiv_biu.Desktop.Core.Run.{is_ready}

abbrev pub is_dead : Option Attempt → Bool
is_dead none = true
is_dead (some a) = is_some a.result

abbrev pub are_dead : List (Option Attempt) → Bool
are_dead [] = true
are_dead (a ∷ attempts) = is_dead a && are_dead attempts

abbrev pub is_choosing : Option LaunchPoint → Bool
is_choosing (some (choosing tries failure)) = true
is_choosing _ = false

abbrev pub is_trying : Option LaunchPoint → Bool
is_trying (some (fetching tries)) = true
is_trying (some (waiting tries)) = true
is_trying (some (ending tries failure phase)) = true
is_trying (some (releasing tries failure phase)) = true
is_trying _ = false

abbrev pub is_terminating : Option StopPoint → Bool
is_terminating (some (terminating phase)) = true
is_terminating _ = false

-- Its `onExit` is still to come.
abbrev pub is_watching : Option Attempt → Bool
is_watching none = false
is_watching (some a) = a.watched && not a.closed

abbrev pub knows_exit : Option Attempt → Bool
knows_exit none = true
knows_exit (some a) = not a.closed || is_some a.result

-- The port is that of an attempt that shook hands and listens.
abbrev pub Serves : Option ℕ → Option Attempt → Type 0
Serves none a = Unit
Serves (some p) none = ⊥
Serves (some p) (some a) =
    (a.port ≡ p) × (a.scan.handshake ≡ true) × (a.scan.listening ≡ true) × (a.watched ≡ true)

abbrev pub is_stopped : CoreState → Bool
is_stopped CoreState.stopped = true
is_stopped _ = false

abbrev pub is_past_launch : Option StopPoint → Bool
is_past_launch (some (terminating phase)) = true
is_past_launch (some StopPoint.flushing) = true
is_past_launch (some over) = true
is_past_launch _ = false

abbrev pub is_fetching : Option LaunchPoint → Bool
is_fetching (some (fetching tries)) = true
is_fetching _ = false

abbrev pub listens : Option Attempt → Bool
listens none = false
listens (some a) = a.scan.handshake && a.scan.listening

abbrev pub is_draining : Option LaunchPoint → Bool
is_draining (some (releasing tries failure draining)) = true
is_draining (some (ending tries failure draining)) = true
is_draining _ = false

abbrev pub drains : Option StopPoint → Bool
drains (some (terminating draining)) = true
drains _ = false

abbrev pub is_failed_state : CoreState → Bool
is_failed_state CoreState.failed = true
is_failed_state _ = false

abbrev pub is_flushing : Option StopPoint → Bool
is_flushing (some StopPoint.flushing) = true
is_flushing _ = false

abbrev pub is_over : Option StopPoint → Bool
is_over (some over) = true
is_over _ = false

pub record IsValid (s : Supervisor) : Type 0 where
  pub port_ready : is_some s.port ≡ is_ready s.state
  pub served : Serves s.port s.attempt
  pub ready_idle : is_ready s.state ≡ true → (s.operation ≡ none) × (s.quitting ≡ false)
  pub watching : (is_watching s.attempt && not s.quitting) ≡ true → is_ready s.state ≡ true
  pub choosing_dead : is_choosing s.operation ≡ true → is_dead s.attempt ≡ true
  pub trying : is_trying s.operation ≡ true → is_some s.attempt ≡ true
  pub terminating_attempt : is_terminating s.stop_operation ≡ true → is_some s.attempt ≡ true
  pub fetching_listens : is_fetching s.operation ≡ true → listens s.attempt ≡ true
  pub draining_dead :
      (is_draining s.operation || drains s.stop_operation) ≡ true → is_dead s.attempt ≡ true
  pub closed_dead : knows_exit s.attempt ≡ true
  pub launched_dead : are_dead s.launched ≡ true
  pub stopping_quits : is_some s.stop_operation ≡ true → s.quitting ≡ true
  pub stopped_dead : (is_stopped s.state && s.quitting) ≡ true → is_dead s.attempt ≡ true
  pub flushing_state :
      is_flushing s.stop_operation ≡ true → (is_stopped s.state || is_failed_state s.state) ≡ true
  pub over_state : is_over s.stop_operation ≡ true → is_stopped s.state ≡ true
  pub quit_state :
      (s.quitting && not (is_some s.stop_operation)) ≡ true → is_failed_state s.state ≡ true
  pub stopped_launch : is_past_launch s.stop_operation ≡ true → s.operation ≡ none

pub give_up-IsValid :
    (failure : CoreFailure) (s : Supervisor)
    → is_some s.operation ≡ true
    → IsValid s
    → IsValid (give_up failure s)
unfolding give_up transition
give_up-IsValid failure s o v = ground arith

pub try_again-IsValid :
    (tries : ℕ) (failure : CoreFailure) (s : Supervisor)
    → is_ready s.state ≡ false
    → is_past_launch s.stop_operation ≡ false
    → IsValid s
    → IsValid (try_again tries failure s)
unfolding try_again give_up terminate transition
try_again-IsValid tries failure s r p v = ground arith
