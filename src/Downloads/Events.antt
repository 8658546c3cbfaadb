-- ===== src/Downloads/Events.antt =====
-- The events of the inbox: `applyDownloadEvent` of frontend/src/features/downloads/download-store.ts,
-- and their data (frontend/src/features/downloads/types.ts).
-- An event type with its data is one constructor; `other` is any job event that the source does not
-- name, and `ignored` any event outside `job.` and the named task events.
use pixiv_biu.Base.{
  ℕ, Bool, true, false, not, Option, none, some, String, ite, ltb, if◌then◌else◌, lookup,
  ℕ_discrete, text_discrete, ℤ, is_pos, ℤ_discrete,
}
use pixiv_biu.Downloads.Types.{
  DownloadStatus, running, DownloadStatus-discrete, is_terminal_status, DownloadTask,
}
use pixiv_biu.Downloads.Store.{TrackedJob, Store, set_counts, mutate, patch_task, delete_job}

pub data JobEvent : Type 0 where
  queued started completed failed cancelled deleted other : JobEvent

pub record JobEventData : Type 0 where
  pub job_id : String
  pub illust_id : ℕ
  pub active_count : ℕ
  pub done_count : ℕ

pub data TaskEnd : Type 0 where
  completed failed cancelled : TaskEnd

pub data InboxEvent : Type 0 where
  job_event : JobEvent → JobEventData → InboxEvent
  task_started : String → String → InboxEvent
  task_progress : String → String → ℤ → ℤ → InboxEvent
  task_ended : TaskEnd → String → String → Option String → InboxEvent
  ignored : InboxEvent

-- `JOB_EVENT_STATUS`, for the events that the `switch` looks up.
unfoldable pub job_event_status : JobEvent → Option DownloadStatus
job_event_status JobEvent.started = some running
job_event_status JobEvent.completed = some DownloadStatus.completed
job_event_status JobEvent.failed = some DownloadStatus.failed
job_event_status JobEvent.cancelled = some DownloadStatus.cancelled
job_event_status _ = none

unfoldable pub task_event_status : TaskEnd → DownloadStatus
task_event_status TaskEnd.completed = DownloadStatus.completed
task_event_status TaskEnd.failed = DownloadStatus.failed
task_event_status TaskEnd.cancelled = DownloadStatus.cancelled

-- `!!cur.terminatedAt`.
unfoldable pub is_stamped : TrackedJob → Bool
is_stamped t = elim t.terminated_at [ none ↦ false | some at ↦ ltb 0 at ]

-- The patch of a status event; `at` is `Date.parse(ev.ts) || Date.now()`.
unfoldable pub patch_status : DownloadStatus → String → ℕ → TrackedJob → Option TrackedJob
unfolding is_stamped is_terminal_status DownloadStatus-discrete
patch_status status ts at cur =
    let terminal = is_terminal_status status in
    let unchanged : Bool =
      ite (DownloadStatus-discrete cur.job.status status)
        (if terminal then is_stamped cur else not (is_stamped cur)) false in
    if unchanged
    then none
    else some (record {
      job = record (cur.job) { status = status; updated_at = ts };
      terminated_at = if terminal then some at else cur.terminated_at;
    })

unfoldable pub patch_started : DownloadTask → Option DownloadTask
unfolding DownloadStatus-discrete
patch_started t =
    ite (DownloadStatus-discrete t.status running) none (some (record t { status = running }))

unfoldable pub patch_progress : ℤ → ℤ → DownloadTask → Option DownloadTask
unfolding ℤ_discrete
patch_progress downloaded total t =
    let next_size = if is_pos total then total else t.size_bytes in
    if ite (ℤ_discrete t.downloaded_bytes downloaded)
      (ite (ℤ_discrete t.size_bytes next_size) true false) false
    then none
    else some (record t { downloaded_bytes = downloaded; size_bytes = next_size })

-- `failureError ?? t.error ?? null`, where only a failure carries an error.
unfoldable pub end_error : TaskEnd → Option String → Option String → Option String
end_error TaskEnd.failed (some e) old = some e
end_error _ error old = old

unfoldable pub end_bytes : TaskEnd → DownloadTask → ℤ
end_bytes TaskEnd.completed t = if is_pos t.size_bytes then t.size_bytes else t.downloaded_bytes
end_bytes _ t = t.downloaded_bytes

unfoldable pub patch_ended : TaskEnd → Option String → DownloadTask → Option DownloadTask
unfolding task_event_status end_error end_bytes
patch_ended end error t = some (record t {
  status = task_event_status end;
  error = end_error end error t.error;
  downloaded_bytes = end_bytes end t;
})

-- The `switch` for a job event: the store, and the job reported to `onUnknownJob`.
unfoldable pub apply_job_event :
    Store → JobEvent → JobEventData → String → ℕ → Store × Option String
apply_job_event s JobEvent.queued d ts at = (
  s,
  elim (lookup ℕ_discrete d.illust_id s.jobs) [
    | none ↦ some d.job_id
    | some cur ↦ ite (text_discrete cur.job.id d.job_id) none (some d.job_id)
  ],
)
apply_job_event s JobEvent.deleted d ts at = (delete_job s d.illust_id d.job_id, none)
apply_job_event s e d ts at = (
  elim (job_event_status e) [
    | none ↦ s
    | some status ↦ mutate s d.illust_id d.job_id (patch_status status ts at)
  ],
  none,
)

unfoldable pub apply_event : Store → InboxEvent → String → ℕ → Store × Option String
apply_event s (job_event e d) ts at =
    apply_job_event (set_counts s d.active_count d.done_count) e d ts at
apply_event s (task_started job_id task_id) ts at =
    (patch_task s job_id task_id patch_started, none)
apply_event s (task_progress job_id task_id downloaded total) ts at =
    (patch_task s job_id task_id (patch_progress downloaded total), none)
apply_event s (task_ended end job_id task_id error) ts at =
    (patch_task s job_id task_id (patch_ended end error), none)
apply_event s ignored ts at = (s, none)
