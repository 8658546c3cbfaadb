-- ===== src/Viewer/Stage.antt =====
-- The viewer's stage: frontend/src/features/illusts/illust-viewer/stage-transition.ts.
use pixiv_biu.Base.{
  ℕ, ◌+◌, ◌==◌, Bool, true, false, ◌&&◌, Option, none, some, List, [], ◌∷◌, String, ite,
  text_discrete, if◌then◌else◌,
}

pub record StageTarget : Type 0 where
  pub index : ℕ
  pub src : String

pub record StageFrame : Type 0 where
  pub target : StageTarget
  pub id : ℕ

pub data Phase : Type 0 where
  idle loading error : Phase

pub record StageTransition : Type 0 where
  pub target : StageTarget
  pub displayed : Option StageFrame
  pub candidate : Option StageFrame
  pub phase : Phase
  pub generation : ℕ

pub data Action : Type 0 where
  select : StageTarget → Action
  retry : Action
  ready : ℕ → Action
  fail : ℕ → Action

-- `same`.
unfoldable pub same : StageTarget → StageTarget → Bool
same a b = a.index == b.index && ite (text_discrete a.src b.src) true false

-- `state.displayed && same(state.displayed, target)`.
unfoldable pub shows : Option StageFrame → StageTarget → Bool
unfolding same
shows none t = false
shows (some f) t = same f.target t

unfoldable pub prepare : StageTransition → StageTarget → StageTransition
unfolding shows
prepare s t =
    if shows s.displayed t
    then record s { target = t; candidate = none; phase = idle }
    else record s {
      target = t;
      generation = s.generation + 1;
      candidate = some (record { target = t; id = s.generation + 1 });
      phase = loading;
    }

unfoldable pub create_stage_transition : StageTarget → StageTransition
unfolding prepare
create_stage_transition t =
    prepare
      (record { target = t; displayed = none; candidate = none; phase = idle; generation = 0 }) t

-- `state.candidate?.id === action.id`.
abbrev pub is_candidate : StageTransition → ℕ → Bool
is_candidate s id = elim s.candidate [ none ↦ false | some f ↦ f.id == id ]

unfoldable pub stage_transition : StageTransition → Action → StageTransition
unfolding prepare same
stage_transition s (select t) = if same s.target t then s else prepare s t
stage_transition s retry = elim s.phase [ error ↦ prepare s s.target | _ ↦ s ]
stage_transition s (ready id) =
    if is_candidate s id
    then elim s.phase [
      | loading ↦ record s { displayed = s.candidate; candidate = none; phase = idle }
      | _ ↦ s
    ]
    else s
stage_transition s (fail id) =
    if is_candidate s id then elim s.phase [ loading ↦ record s { phase = error } | _ ↦ s ] else s

-- `useReducer`: the actions in the order in which they are dispatched.
unfoldable pub run : StageTransition → List Action → StageTransition
run s [] = s
run s (a ∷ actions) = run (stage_transition s a) actions
