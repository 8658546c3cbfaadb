-- ===== src/Selection/Tests.antt =====
-- Runs of the selection and its workers, and the theorems at them.
use pixiv_biu.Base.{ℕ, ◌≡◌, refl, true, none, List, [], ◌∷◌, unique, add, add_all, ℕ_discrete}
use pixiv_biu.Selection.Pool.{
  EnqueueResult, existing, failed, begin_workers, enqueue_selection, recorded, Settled, settle_id,
  settle_worker, settle, settle_all,
}
use pixiv_biu.Selection.Tally.{listed}
use pixiv_biu.Selection.Enqueued.{selected_once, settle_all-listed}
use pixiv_biu.Selection.Store.{SelectionOptions, new_selection}
use pixiv_biu.Selection.Kept.{
  IsValid, Operation, configured, toggled_id, all_toggled, download_begun, download_ended,
  operate_all, operate_all-IsValid,
}

abbrev chosen : List ℕ
chosen = 7 ∷ 8 ∷ 7 ∷ []

abbrev answered : EnqueueResult → Settled
answered outcome = record { outcome = outcome; is_current = true; still_current = true }

-- The second worker's request is answered first.
abbrev answers : List (ℕ × Settled)
answers = (1, answered existing) ∷ (0, answered failed) ∷ []

settle_all-listed_example :
    listed 7 (settle_all answers (enqueue_selection chosen true)).result ≡ selected_once 7 chosen
unfolding settle_all settle settle_worker settle_id recorded enqueue_selection begin_workers unique
    add_all add ℕ_discrete
settle_all-listed_example = settle_all-listed chosen answers 7 refl refl

abbrev shown_list : SelectionOptions
shown_list = record { identity = "a"; visible_ids = 7 ∷ 8 ∷ []; enabled = true; scope = none }

abbrev picking : List Operation
picking =
    all_toggled
    ∷ toggled_id 8
    ∷ download_begun true
    ∷ download_ended (record { number = 0; revision = 2 })
        (record { added = []; existing = []; failed = 7 ∷ [] }) 0 true
    ∷ configured (record shown_list { visible_ids = 8 ∷ [] })
    ∷ []

operate_all-IsValid_example : IsValid (operate_all picking (new_selection shown_list))
operate_all-IsValid_example = operate_all-IsValid shown_list picking
