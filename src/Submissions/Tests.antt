-- ===== src/Submissions/Tests.antt =====
-- Runs of the submissions, and the theorems at them.
use pixiv_biu.Base.{ℕ, ◌≡◌, refl, some, List, [], ◌∷◌, insert, remove, lookup, ℕ_discrete}
use pixiv_biu.Submissions.Requests.{
  Job, Submissions, new_submissions, requesting, Event, scoped, ran, stepped, replied, refused, run,
  handle_all, handle, set_scope, run_new, step, step_job, advance, move, finish,
}
use pixiv_biu.Base.{none, arith}
use pixiv_biu.Submissions.Settles.{IsSettled, step_all, settles}
use pixiv_biu.Submissions.Kept.{run-coalesces}

-- The first request's answer arrives after the session has changed, the second's in time.
abbrev events : List (Event ℕ)
events =
    ran 7
    ∷ ran 7
    ∷ stepped 0 refused
    ∷ scoped 2
    ∷ ran 7
    ∷ stepped 0 (replied (some 5))
    ∷ stepped 1 refused
    ∷ stepped 1 (replied (some 6))
    ∷ stepped 0 refused
    ∷ stepped 1 refused
    ∷ []

accepted_once :
    (handle_all ℕ events (new_submissions ℕ 1)).accepted
    ≡ record { asked_in = 2; accepted_in = 2; asked_at = 1; accepted_at = 1; result = 6 } ∷ []
unfolding handle_all handle run run_new set_scope step step_job advance move finish insert remove
    lookup ℕ_discrete
accepted_once = refl

abbrev asking : Job ℕ
asking = record { number = 0; id = 7; revision = 0; scope = 1; point = requesting }

abbrev asked : Submissions ℕ
asked = record {
  scope = 1;
  revision = 0;
  requests = (7, 0) ∷ [];
  made = 1;
  jobs = asking ∷ [];
  asked = 7 ∷ [];
  accepted = [];
}

run-coalesces_example : (run ℕ asking.id asked ≡ asked) × (◌≡◌ {A = ℕ} 0 0)
unfolding handle_all handle run run_new step step_job advance move insert lookup
run-coalesces_example =
    run-coalesces ℕ (ran 7 ∷ stepped 0 refused ∷ []) 1 0 0 asking asking refl refl refl refl refl
      refl refl refl

settles_example :
    IsSettled ℕ (step_all ℕ 0 (refused ∷ refused ∷ replied none ∷ refused ∷ []) asked) 0
unfolding handle_all handle run run_new step step_job advance move insert lookup
settles_example =
    settles ℕ (ran 7 ∷ stepped 0 refused ∷ []) 1 0 asking
      (refused ∷ refused ∷ replied none ∷ refused ∷ []) refl refl (omega arith)
