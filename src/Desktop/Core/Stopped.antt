-- ===== src/Desktop/Core/Stopped.antt =====
-- Where a stop of the core ends (desktop/src/core-supervisor.ts).
use pixiv_biu.Base.{
  ℕ, length, ◌+◌, ◌≤◌, ◌≡◌, ◌⊎◌, inl, inr, refl, ◌∙◌, arith, true, Option, none, some, List, [],
  ◌∷◌, ◌++◌,
}
use pixiv_biu.Desktop.Core.Supervisor.{
  CoreState, LaunchPoint, StopPoint, awaiting, terminating, over, Supervisor, Answer,
}
use pixiv_biu.Desktop.Core.Run.{Event, launch_step, stop_step, handle, handle_all}
use pixiv_biu.Desktop.Core.Invariant.{is_dead, IsValid}
use pixiv_biu.Desktop.Core.Handled.{handle-IsValid}
use pixiv_biu.Desktop.Core.Runs.{handle-Quits}
use pixiv_biu.Desktop.Core.Stops.{
  launch_rank, stop_rank, phase_rank, launch_at-rank, stop_at-rank, stop_at-operation,
}

-- The stop is over with a dead child, or it failed and may be asked for again.
pub record IsAtRest (s : Supervisor) : Type 0 where
  pub launch_over : s.operation ≡ none
  pub outcome :
      ((s.stop_operation ≡ some over) × (s.state ≡ CoreState.stopped) × (is_dead s.attempt ≡ true))
      ⊎ ((s.stop_operation ≡ none) × (s.state ≡ CoreState.failed))

no_steps : (n : ℕ) → ¬ (n + 1 ≡ 0)
no_steps n = omega arith

abbrev Outcome : Supervisor → Type 0
Outcome s =
    ((s.stop_operation ≡ some over) × (s.state ≡ CoreState.stopped) × (is_dead s.attempt ≡ true))
    ⊎ ((s.stop_operation ≡ none) × (s.state ≡ CoreState.failed))

rested_by :
    (o : Option StopPoint) (s : Supervisor)
    → s.stop_operation ≡ o
    → s.quitting ≡ true
    → stop_rank o ≡ 0
    → IsValid s
    → Outcome s
rested_by none s e q r v = inr (e, ground arith)
rested_by (some over) s e q r v = inl (e, ground arith, ground arith)
rested_by (some awaiting) s e q r v = elim (no_steps 4 r) [ ]
rested_by (some (terminating phase)) s e q r v =
    elim (no_steps (phase_rank phase) (ground arith)) [ ]
rested_by (some StopPoint.flushing) s e q r v = elim (no_steps 0 r) [ ]

rested :
    (s : Supervisor)
    → s.quitting ≡ true
    → s.operation ≡ none
    → stop_rank s.stop_operation ≡ 0
    → IsValid s
    → IsAtRest s
rested s q n r v = record { launch_over = n; outcome = rested_by s.stop_operation s refl q r v }

no_launch : (o : Option LaunchPoint) → launch_rank o ≤ 0 → o ≡ none
no_launch o h = ground arith

abbrev pub launch_steps : List Answer → List Event
launch_steps [] = []
launch_steps (w ∷ ws) = launch_step w ∷ launch_steps ws

abbrev pub stop_steps : List Answer → List Event
stop_steps [] = []
stop_steps (w ∷ ws) = stop_step w ∷ stop_steps ws

module _ (marker text : List ℕ) where
  stop_steps-IsAtRest :
      (us : List Answer) (s : Supervisor)
      → s.quitting ≡ true
      → s.operation ≡ none
      → stop_rank s.stop_operation ≤ length us
      → IsValid s
      → IsAtRest (handle_all marker text s (stop_steps us))
  unfolding handle_all
  stop_steps-IsAtRest [] s q n r v = rested s q n (ground arith) v
  stop_steps-IsAtRest (u ∷ us) s q n r v =
      stop_steps-IsAtRest us (handle marker text s (stop_step u))
        (handle-Quits marker text s (stop_step u) q).quits
        (unfold handle in stop_at-operation s.stop_operation u s ∙ n)
        (unfold handle in ground (arith, stop_at-rank s.stop_operation u s refl n v))
        (handle-IsValid marker text s (stop_step u) v)

  launch_steps-IsAtRest :
      (ws us : List Answer) (s : Supervisor)
      → s.quitting ≡ true
      → launch_rank s.operation ≤ length ws
      → 5 ≤ length us
      → IsValid s
      → IsAtRest (handle_all marker text s (launch_steps ws ++ stop_steps us))
  unfolding handle_all
  launch_steps-IsAtRest [] us s q l r v =
      stop_steps-IsAtRest us s q (no_launch s.operation l) (ground arith) v
  launch_steps-IsAtRest (w ∷ ws) us s q l r v =
      launch_steps-IsAtRest ws us (handle marker text s (launch_step w))
        (handle-Quits marker text s (launch_step w) q).quits
        (unfold handle in ground (arith, launch_at-rank s.operation w s refl q v)) r
        (handle-IsValid marker text s (launch_step w) v)

  -- A supervisor that quits comes to rest within four steps of its launch and five of its stop, whatever
  -- these steps are answered: with a child that has exited and the state `stopped`, or with the state
  -- `failed`, and then a stop may be asked for again.
  pub handle_all-IsAtRest :
      (ws us : List Answer) (s : Supervisor)
      → s.quitting ≡ true
      → 4 ≤ length ws
      → 5 ≤ length us
      → IsValid s
      → IsAtRest (handle_all marker text s (launch_steps ws ++ stop_steps us))
  handle_all-IsAtRest ws us s q l r v = launch_steps-IsAtRest ws us s q (ground arith) r v
