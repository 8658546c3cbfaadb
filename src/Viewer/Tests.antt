-- ===== src/Viewer/Tests.antt =====
-- Runs of the viewer, and the theorems at them.
use pixiv_biu.Base.{ℕ, ◌≡◌, refl, true, false, some, none, [], ◌∷◌, pos, arith, text_discrete, ◌+◌}
use pixiv_biu.Viewer.Stage.{
  StageTarget, StageTransition, select, retry, ready, fail, idle, prepare, shows, same,
  create_stage_transition, stage_transition, run,
}
use pixiv_biu.Viewer.Latest.{
  frame, IsValid, is_shown, run-IsValid, create_stage_transition-IsValid, run_never_shows,
  select_shows,
}
use pixiv_biu.Viewer.Keys.{
  NavigationKey, ViewerNavigationState, shift, clamp_viewer_page, on_key_down, on_key_down-arrow,
  viewer_key_step,
}

abbrev page_at : ℕ → StageTarget
page_at i = record { index = i; src = "page" }

-- The first page is shown, then two are selected one after the other.
abbrev first : StageTransition
first = create_stage_transition (page_at 0)

abbrev second : StageTransition
second = run first (ready 1 ∷ select (page_at 1) ∷ select (page_at 2) ∷ [])

-- The report of the candidate that was superseded changes nothing.
late_report : (run second (ready 2 ∷ fail 2 ∷ [])).displayed ≡ some (frame (page_at 0) 1)
unfolding create_stage_transition stage_transition run prepare shows same text_discrete
late_report = refl

retried : (run second (fail 3 ∷ retry ∷ ready 4 ∷ [])).displayed ≡ some (frame (page_at 2) 4)
unfolding create_stage_transition stage_transition run prepare shows same text_discrete
retried = refl

second-IsValid : IsValid second
second-IsValid =
    run-IsValid first (ready 1 ∷ select (page_at 1) ∷ select (page_at 2) ∷ [])
      (create_stage_transition-IsValid (page_at 0))

-- Page 2 is left for page 0, which is still on display.
run_never_shows_example : is_shown 3 (run second (select (page_at 0) ∷ ready 3 ∷ [])) ≡ false
unfolding create_stage_transition stage_transition run prepare shows same text_discrete
run_never_shows_example =
    run_never_shows 3 second (page_at 0) (ready 3 ∷ []) second-IsValid refl refl

select_shows_example :
    stage_transition
      (run second (select (page_at 5) ∷ ready 3 ∷ []))
      (ready (second.generation + 1))
    ≡ record {
      target = page_at 5;
      displayed = some (frame (page_at 5) (second.generation + 1));
      candidate = none;
      phase = idle;
      generation = second.generation + 1;
    }
unfolding create_stage_transition stage_transition run prepare shows same text_discrete
select_shows_example =
    select_shows second (page_at 5) (ready 3 ∷ []) second-IsValid refl refl
      ((λ p. ground arith), tt)

abbrev right_arrow : NavigationKey
right_arrow = record {
  key = "ArrowRight";
  default_prevented = false;
  is_composing = false;
  repeat = false;
  alt_key = false;
  ctrl_key = false;
  meta_key = false;
  shift_key = false;
}

abbrev three_pages : ViewerNavigationState
three_pages = record { is_open = true; zoomed = false; total = 3 }

right_arrow_moves : on_key_down three_pages true 1 right_arrow ≡ some (pos 1)
right_arrow_moves =
    on_key_down-arrow three_pages 1 right_arrow true refl refl refl refl (omega arith) (omega arith)

last_page : on_key_down three_pages true 2 right_arrow ≡ none
unfolding on_key_down viewer_key_step shift clamp_viewer_page text_discrete
last_page = refl
