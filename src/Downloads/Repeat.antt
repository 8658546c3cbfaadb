-- ===== src/Downloads/Repeat.antt =====
-- A repeated event changes nothing and calls nobody, and the status that an event gives
-- (frontend/src/features/downloads/download-store.ts, frontend/src/features/downloads/task-patch.ts).
use pixiv_biu.Base.{
  ℕ, ◌≡◌, ◌∙◌, get_or, ◌&&◌, not, refl, ap, false, Option, none, some, List, [], ◌∷◌, String, arith,
  lookup, lookup-insert, ℕ_discrete, text_discrete, Option-cases, inl, inr, ℤ, is_some,
}
use pixiv_biu.Downloads.Types.{
  DownloadStatus, is_terminal_status, DownloadTask, patch_tasks, patch_job_task,
}
use pixiv_biu.Downloads.Store.{
  TrackedJob, Store, put, mutate, patch_tracked, patch_task, unindex, set_counts,
}
use pixiv_biu.Downloads.Events.{
  task_progress, apply_event, patch_started, patch_progress, patch_status, JobEvent, JobEventData,
  apply_job_event, job_event_status, job_event,
}
use pixiv_biu.Downloads.Slots.{slot, slot-set_counts}

-- A patcher that keeps ids and has nothing to do after itself.
record IsSettling (p : DownloadTask → Option DownloadTask) : Type 0 where
  keeps_id : (t u : DownloadTask) → p t ≡ some u → u.id ≡ t.id
  settles : (t u : DownloadTask) → p t ≡ some u → p u ≡ none

patch_started-IsSettling : IsSettling patch_started
unfolding patch_started
patch_started-IsSettling = record {
  keeps_id = λ t u e. ground arith;
  settles = λ t u e. ground arith;
}

patch_progress-IsSettling : (d total : ℤ) → IsSettling (patch_progress d total)
unfolding patch_progress
patch_progress-IsSettling d total = record {
  keeps_id = λ t u e. ground arith;
  settles = λ t u e. ground arith;
}

module _ (p : DownloadTask → Option DownloadTask) (h : IsSettling p) (task_id : String) where
  patch_tasks_again :
      (ts : List DownloadTask)
      → patch_tasks task_id p (patch_tasks task_id p ts).0 ≡ ((patch_tasks task_id p ts).0, false)
  unfolding patch_tasks
  patch_tasks_again [] = refl
  patch_tasks_again (t ∷ ts) = elim (text_discrete t.id task_id) [
    | no other ↦ ground (arith, patch_tasks_again ts)
    | yes same ↦ elim (Option-cases (p t)) [
      | inl e ↦ ground (arith, patch_tasks_again ts)
      | inr (u, e) ↦ ground (arith, patch_tasks_again ts, h.keeps_id t u e, h.settles t u e)
    ]
  ]

  patch_tracked_again :
      (t u : TrackedJob)
      → patch_tracked task_id p t ≡ some u
      → (patch_tracked task_id p u ≡ none) × (u.job.id ≡ t.job.id)
  unfolding patch_tracked patch_job_task
  patch_tracked_again t u e = (ground (arith, patch_tasks_again t.job.tasks), ground arith)

  slot-put_self : (s : Store) (i : ℕ) (t : TrackedJob) → slot (put s i (some t)) i ≡ some t
  unfolding put
  slot-put_self s i t = ground (arith, lookup-insert ℕ_discrete i i t s.jobs)

  index-put_self :
      (s : Store) (i : ℕ) (t : TrackedJob)
      → lookup text_discrete t.job.id (put s i (some t)).illust_by_job ≡ some i
  unfolding put
  index-put_self s i t = ground (
    arith,
    lookup-insert text_discrete t.job.id t.job.id i (unindex i (slot s i) s.illust_by_job),
  )

  mutate-put :
      (s : Store) (i : ℕ) (t u : TrackedJob)
      → slot s i ≡ some t
      → patch_tracked task_id p t ≡ some u
      → mutate s i t.job.id (patch_tracked task_id p) ≡ put s i (some u)
  unfolding mutate
  mutate-put s i t u e q = ground arith

  patch_task-put :
      (s : Store) (i : ℕ) (t u : TrackedJob)
      → lookup text_discrete t.job.id s.illust_by_job ≡ some i
      → slot s i ≡ some t
      → patch_tracked task_id p t ≡ some u
      → patch_task s t.job.id task_id p ≡ put s i (some u)
  unfolding patch_task
  patch_task-put s i t u x e q = rw (x, patch_task) (mutate-put s i t u e q)

  patch_task-none :
      (s : Store) (i : ℕ) (t : TrackedJob)
      → lookup text_discrete t.job.id s.illust_by_job ≡ some i
      → slot s i ≡ some t
      → patch_tracked task_id p t ≡ none
      → patch_task s t.job.id task_id p ≡ s
  unfolding patch_task mutate
  patch_task-none s i t x e q = rw (x, patch_task) (ground arith)

  -- The second of two equal patches finds nothing to do.
  patch_task_again :
      (s : Store) (i : ℕ) (t : TrackedJob)
      → lookup text_discrete t.job.id s.illust_by_job ≡ some i
      → slot s i ≡ some t
      → patch_task (patch_task s t.job.id task_id p) t.job.id task_id p
        ≡ patch_task s t.job.id task_id p
  patch_task_again s i t x e = elim (Option-cases (patch_tracked task_id p t)) [
    | inl q ↦ ap (λ r. patch_task r t.job.id task_id p) (patch_task-none s i t x e q)
    | inr (u, q) ↦
        let first = patch_task-put s i t u x e q in
        let (settled, same_id) = patch_tracked_again t u q in
        rw first (
          rw (← same_id) (
            patch_task-none (put s i (some u)) i u (index-put_self s i u) (slot-put_self s i u)
              settled))
  ]

-- A repeated report of progress on a tracked job leaves the whole store as it is: no job, no count and no
-- listener call.
pub task_progress_again :
    (s : Store) (i : ℕ) (t : TrackedJob) (task_id ts ts' : String) (downloaded total : ℤ)
    (at at' : ℕ)
    → lookup text_discrete t.job.id s.illust_by_job ≡ some i
    → slot s i ≡ some t
    → let ev = task_progress t.job.id task_id downloaded total in
      (apply_event (apply_event s ev ts at).0 ev ts' at').0 ≡ (apply_event s ev ts at).0
unfolding apply_event
task_progress_again s i t task_id ts ts' downloaded total at at' x e =
    patch_task_again (patch_progress downloaded total) (patch_progress-IsSettling downloaded total)
      task_id s i t x e

abbrev after_status : DownloadStatus → String → ℕ → TrackedJob → TrackedJob
after_status status ts at t = get_or t (patch_status status ts at t)

after_status_lem :
    (status : DownloadStatus) (ts : String) (at : ℕ) (t : TrackedJob)
    → ((after_status status ts at t).job.status ≡ status)
      × ((after_status status ts at t).job.tasks ≡ t.job.tasks)
      × ((after_status status ts at t).job.id ≡ t.job.id)
      × ((is_terminal_status status && not (is_some (after_status status ts at t).terminated_at))
          ≡ false)
unfolding patch_status
after_status_lem status ts at t = (ground arith, ground arith, ground arith, ground arith)

slot-mutate_status :
    (s : Store) (i : ℕ) (t : TrackedJob) (status : DownloadStatus) (ts : String) (at : ℕ)
    → slot s i ≡ some t
    → slot (mutate s i t.job.id (patch_status status ts at)) i ≡ some (after_status status ts at t)
unfolding mutate
slot-mutate_status s i t status ts at e = elim (Option-cases (patch_status status ts at t)) [
  | inl q ↦ ground arith
  | inr (u, q) ↦ ground (arith, slot-put i u)
]
  where
    slot-put : (i : ℕ) (u : TrackedJob) → slot (put s i (some u)) i ≡ some u
    slot-put i u = unfold put in ground (arith, lookup-insert ℕ_discrete i i u s.jobs)

apply_job_event-mutate :
    (s : Store) (e : JobEvent) (d : JobEventData) (status : DownloadStatus) (ts : String) (at : ℕ)
    → job_event_status e ≡ some status
    → (apply_job_event s e d ts at).0 ≡ mutate s d.illust_id d.job_id (patch_status status ts at)
unfolding apply_job_event job_event_status
apply_job_event-mutate s JobEvent.queued d status ts at h = cc
apply_job_event-mutate s JobEvent.deleted d status ts at h = cc
apply_job_event-mutate s JobEvent.other d status ts at h = cc
apply_job_event-mutate s e d status ts at h = cc

-- An event that starts or ends the job tracked for its illust gives it the event's status and leaves its
-- id and tasks; a job that has ended carries the time at which it expires from.
pub apply_event-status :
    (s : Store) (t : TrackedJob) (e : JobEvent) (d : JobEventData) (status : DownloadStatus)
    (ts : String) (at : ℕ)
    → slot s d.illust_id ≡ some t
    → t.job.id ≡ d.job_id
    → job_event_status e ≡ some status
    → (u : TrackedJob) × (slot (apply_event s (job_event e d) ts at).0 d.illust_id ≡ some u)
      × (u.job.status ≡ status)
      × (u.job.tasks ≡ t.job.tasks)
      × (u.job.id ≡ d.job_id)
      × ((is_terminal_status status && not (is_some u.terminated_at)) ≡ false)
unfolding apply_event
apply_event-status s t e d status ts at here same by =
    let (a, b, c, f) = after_status_lem status ts at t in
    (
      after_status status ts at t,
      rw (apply_job_event-mutate counted e d status ts at by) moved,
      a,
      b,
      c ∙ same,
      f,
    )
  where
    counted : Store
    counted = set_counts s d.active_count d.done_count

    moved :
        slot (mutate counted d.illust_id d.job_id (patch_status status ts at)) d.illust_id
        ≡ some (after_status status ts at t)
    moved = rw (← same) (
        slot-mutate_status counted d.illust_id t status ts at
          (slot-set_counts s d.active_count d.done_count d.illust_id ∙ here))
