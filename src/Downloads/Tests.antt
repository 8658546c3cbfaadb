-- ===== src/Downloads/Tests.antt =====
-- Runs of the download store (after frontend/tests/download-store.test.ts), and the theorems at them.
use pixiv_biu.Base.{
  ℕ, ◌≡◌, refl, true, false, Option, none, some, List, [], ◌∷◌, String, lookup, ℕ_discrete,
  text_discrete, pos, ℤ_discrete, insert, remove, add,
}
use pixiv_biu.Downloads.Types.{DownloadStatus, DownloadTask, DownloadJob, patch_job_task}
use pixiv_biu.Downloads.Store.{
  TrackedJob, Store, Identity, new_store, put, set_job, upsert, to_tracked_job, subscribe_illust,
  set_counts, mutate, patch_task, patch_tracked, unindex, listeners_of,
}
use pixiv_biu.Downloads.Events.{
  InboxEvent, task_progress, JobEventData, apply_event, apply_job_event, patch_progress,
  patch_status,
}
use pixiv_biu.Downloads.Puts.{Call, upsert_call, event_call, perform, perform_all}
use pixiv_biu.Downloads.Index.{tracks, perform_all-IsIndexed}
use pixiv_biu.Downloads.Slots.{slot, apply_event-slot}
use pixiv_biu.Downloads.Repeat.{task_progress_again}

-- Objects that are never identical.
abbrev apart : Identity
apart = record { is_same = λ a b. false; same_eq = λ a b h. cc }

abbrev no_date : String → Option ℕ
no_date text = none

abbrev a_task : DownloadTask
a_task = record {
  id = "t1";
  job_id = "a";
  status = DownloadStatus.queued;
  url = "u";
  file_path = "f";
  size_bytes = pos 100;
  downloaded_bytes = pos 0;
  error = none;
  started_at = none;
  finished_at = none;
}

abbrev a_job : DownloadJob
a_job = record {
  id = "a";
  illust_id = 1;
  illust_type = "illust";
  title = none;
  preview_url = none;
  status = DownloadStatus.running;
  tasks = a_task ∷ [];
  created_at = "";
  updated_at = "";
}

abbrev a_tracked : TrackedJob
a_tracked = record { job = a_job; terminated_at = none }

abbrev progress : InboxEvent
progress = task_progress "a" "t1" (pos 40) (pos 100)

abbrev ended : JobEventData
ended = record { job_id = "a"; illust_id = 1; active_count = 0; done_count = 3 }

abbrev calls : List Call
calls = upsert_call a_job 5 ∷ event_call progress "" 6 ∷ []

abbrev tracked : Store
tracked = put new_store 1 (some a_tracked)

program : Unit {0}
unfolding upsert set_job put to_tracked_job apply_event patch_task mutate patch_tracked
    patch_progress perform perform_all lookup insert remove text_discrete ℕ_discrete ℤ_discrete
    patch_job_task set_counts apply_job_event patch_status
program = tt

-- The progress is shown, and the listener of that illust alone is called.
progress_shown :
    let s = (subscribe_illust (subscribe_illust tracked 1 11).0 2 22).0 in
    (apply_event s progress "" 0).0.calls ≡ 11 ∷ []
unfolding program subscribe_illust unindex listeners_of add
progress_shown = refl

perform_all-IsIndexed_example : tracks (perform_all apart no_date new_store calls) 1 "a" ≡ true
unfolding program
perform_all-IsIndexed_example = perform_all-IsIndexed apart no_date calls "a" 1 refl

apply_event-slot_example :
    slot (apply_event tracked (task_progress "old" "t1" (pos 9) (pos 10)) "" 0).0 1 ≡ slot tracked 1
unfolding program
apply_event-slot_example =
    apply_event-slot tracked 1 (task_progress "old" "t1" (pos 9) (pos 10)) "" 0 refl

task_progress_again_example :
    (apply_event (apply_event tracked progress "" 0).0 progress "" 1).0
    ≡ (apply_event tracked progress "" 0).0
unfolding program
task_progress_again_example =
    task_progress_again tracked 1 a_tracked "t1" "" "" (pos 40) (pos 100) 0 1 refl refl
