-- ===== src/Downloads/Types.antt =====
-- Jobs and tasks: frontend/src/features/downloads/api.ts (the shapes of the generated API schema), and
-- frontend/src/features/downloads/task-patch.ts.
-- A patcher returns `none` where the source returns its argument itself: the result is then the same
-- object, which is all that the callers ask of it.
use pixiv_biu.Base.{
  ℕ, Bool, true, false, Option, none, some, List, [], ◌∷◌, String, ℤ, ite, text_discrete,
  if◌then◌else◌,
}

pub data DownloadStatus : Type 0 where
  queued running completed failed cancelled : DownloadStatus

unfoldable pub DownloadStatus-discrete : Discrete DownloadStatus
DownloadStatus-discrete = hlevel

unfoldable pub is_terminal_status : DownloadStatus → Bool
is_terminal_status completed = true
is_terminal_status failed = true
is_terminal_status cancelled = true
is_terminal_status _ = false

pub record DownloadTask : Type 0 where
  pub id : String
  pub job_id : String
  pub status : DownloadStatus
  pub url : String
  pub file_path : String
  pub size_bytes : ℤ
  pub downloaded_bytes : ℤ
  pub error : Option String
  pub started_at : Option String
  pub finished_at : Option String

pub record DownloadJob : Type 0 where
  pub id : String
  pub illust_id : ℕ
  pub illust_type : String
  pub title : Option String
  pub preview_url : Option String
  pub status : DownloadStatus
  pub tasks : List DownloadTask
  pub created_at : String
  pub updated_at : String

-- The `map` of `patchJobTask`, and whether a patched task is a new object.
unfoldable pub patch_tasks :
    String → (DownloadTask → Option DownloadTask) → List DownloadTask → List DownloadTask × Bool
patch_tasks id patcher [] = ([], false)
patch_tasks id patcher (t ∷ ts) =
    let (ts', changed) = patch_tasks id patcher ts in
    ite (text_discrete t.id id)
      (elim (patcher t) [ none ↦ (t ∷ ts', changed) | some next ↦ (next ∷ ts', true) ])
      (t ∷ ts', changed)

unfoldable pub patch_job_task :
    DownloadJob → String → (DownloadTask → Option DownloadTask) → Option DownloadJob
unfolding patch_tasks
patch_job_task job id patcher =
    let (tasks, changed) = patch_tasks id patcher job.tasks in
    if changed then some (record job { tasks = tasks }) else none
