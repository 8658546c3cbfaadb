-- ===== src/Downloads/Puts.antt =====
-- Every operation of the store is a sequence of `put`s and of new counts, so what these two keep, all
-- operations keep (frontend/src/features/downloads/download-store.ts).
use pixiv_biu.Base.{
  ℕ, Option, none, some, List, [], ◌∷◌, String, lookup, ℕ_discrete, text_discrete, Option-cases,
  inl, inr, keys, Bool-cases, if_pos, if_neg,
}
use pixiv_biu.Downloads.Types.{DownloadTask, DownloadJob}
use pixiv_biu.Downloads.Store.{
  TrackedJob, Store, Identity, put, mutate, patch_tracked, patch_task, unset, delete_job,
  is_expired, sweep_over, sweep, drop_missing, set_job, adopt, replace_all, reset, upsert,
  set_counts, to_tracked_job,
}
use pixiv_biu.Downloads.Events.{
  InboxEvent, job_event, task_started, task_progress, task_ended, ignored, JobEvent, JobEventData,
  apply_job_event, apply_event, job_event_status, patch_status, patch_started, patch_progress,
  patch_ended,
}

pub data Puts (s : Store) : Store → Type 0 where
  here : Puts s s
  then_put : {t : Store} → Puts s t → (i : ℕ) (job : Option TrackedJob) → Puts s (put t i job)
  then_counts : {t : Store} → Puts s t → (active done : ℕ) → Puts s (set_counts t active done)

-- What `put` and `set_counts` keep.
pub Puts_inv :
    (P : Store → Type 0)
    → ((s : Store) (i : ℕ) (job : Option TrackedJob) → P s → P (put s i job))
    → ((s : Store) (active done : ℕ) → P s → P (set_counts s active done))
    → {s t : Store} → Puts s t
    → P s
    → P t
Puts_inv P puts counts here h = h
Puts_inv P puts counts (then_put {t} p i job) h = puts t i job (Puts_inv P puts counts p h)
Puts_inv P puts counts (then_counts {t} p a d) h = counts t a d (Puts_inv P puts counts p h)

module _ {s t : Store} (p : Puts s t) where
  unset-Puts : (i : ℕ) → Puts s (unset t i)
  unfolding unset
  unset-Puts i = elim (Option-cases (lookup ℕ_discrete i t.jobs)) [
    | inl e ↦ rw (e, unset) p
    | inr (cur, e) ↦ rw (e, unset) (then_put p i none)
  ]

  mutate-Puts :
      (i : ℕ) (job_id : String) (patch : TrackedJob → Option TrackedJob)
      → Puts s (mutate t i job_id patch)
  unfolding mutate
  mutate-Puts i job_id patch = elim (Option-cases (lookup ℕ_discrete i t.jobs)) [
    | inl e ↦ rw (e, mutate) p
    | inr (cur, e) ↦
        rw (e, mutate)
          (elim (text_discrete cur.job.id job_id) [
            | no other ↦ rw (if_neg (text_discrete cur.job.id job_id) other) p
            | yes same ↦
                rw (if_pos (text_discrete cur.job.id job_id) same)
                  (elim (Option-cases (patch cur)) [
                    | inl q ↦ rw q p
                    | inr (u, q) ↦ rw q (then_put p i (some u))
                  ])
          ])
  ]

  delete_job-Puts : (i : ℕ) (job_id : String) → Puts s (delete_job t i job_id)
  unfolding delete_job
  delete_job-Puts i job_id = elim (Option-cases (lookup ℕ_discrete i t.jobs)) [
    | inl e ↦ rw (e, delete_job) p
    | inr (cur, e) ↦
        rw (e, delete_job)
          (elim (text_discrete cur.job.id job_id) [
            | no other ↦ rw (if_neg (text_discrete cur.job.id job_id) other) p
            | yes same ↦ rw (if_pos (text_discrete cur.job.id job_id) same) (unset-Puts i)
          ])
  ]

  patch_task-Puts :
      (job_id task_id : String) (patcher : DownloadTask → Option DownloadTask)
      → Puts s (patch_task t job_id task_id patcher)
  unfolding patch_task
  patch_task-Puts job_id task_id patcher =
      elim (Option-cases (lookup text_discrete job_id t.illust_by_job)) [
        | inl e ↦ rw (e, patch_task) p
        | inr (i, e) ↦ rw (e, patch_task) (mutate-Puts i job_id (patch_tracked task_id patcher))
      ]

  set_job-Puts : (id : Identity) (i : ℕ) (job : TrackedJob) → Puts s (set_job id t i job)
  unfolding set_job
  set_job-Puts id i job = elim (Option-cases (lookup ℕ_discrete i t.jobs)) [
    | inl e ↦ rw (e, set_job) (then_put p i (some job))
    | inr (cur, e) ↦
        rw (e, set_job)
          (elim (Bool-cases (id.is_same cur job)) [
            | inl same ↦ rw same p
            | inr other ↦ rw other (then_put p i (some job))
          ])
  ]

sweep_over-Puts :
    (cutoff : ℕ) (es : List (ℕ × TrackedJob)) {s t : Store}
    → Puts s t
    → Puts s (sweep_over cutoff es t)
unfolding sweep_over
sweep_over-Puts cutoff [] p = p
sweep_over-Puts cutoff ((i, job) ∷ es) p = elim (Bool-cases (is_expired cutoff job)) [
  | inl e ↦ rw e (sweep_over-Puts cutoff es (unset-Puts p i))
  | inr e ↦ rw e (sweep_over-Puts cutoff es p)
]

drop_missing-Puts :
    (next : List (ℕ × TrackedJob)) (is : List ℕ) {s t : Store}
    → Puts s t
    → Puts s (drop_missing next is t)
unfolding drop_missing
drop_missing-Puts next [] p = p
drop_missing-Puts next (i ∷ is) {s} {t} p = elim (Option-cases (lookup ℕ_discrete i next)) [
  | inl e ↦ rw e (drop_missing-Puts next is (unset-Puts p i))
  | inr (job, e) ↦ rw e (drop_missing-Puts next is p)
]

adopt-Puts :
    (id : Identity) (next : List (ℕ × TrackedJob)) {s t : Store}
    → Puts s t
    → Puts s (adopt id next t)
unfolding adopt
adopt-Puts id [] p = p
adopt-Puts id ((i, job) ∷ next) p = adopt-Puts id next (set_job-Puts p id i job)

module _ (id : Identity) (s : Store) where
  sweep-Puts : (cutoff : ℕ) → Puts s (sweep s cutoff)
  unfolding sweep
  sweep-Puts cutoff = sweep_over-Puts cutoff s.jobs here

  replace_all-Puts : (next : List (ℕ × TrackedJob)) → Puts s (replace_all id s next)
  unfolding replace_all
  replace_all-Puts next = adopt-Puts id next (drop_missing-Puts next (keys s.jobs) here)

  reset-Puts : Puts s (reset id s)
  unfolding reset
  reset-Puts = then_counts (replace_all-Puts []) 0 0

  upsert-Puts :
      (parse_date : String → Option ℕ) (job : DownloadJob) (now : ℕ)
      → Puts s (upsert id parse_date s job now)
  unfolding upsert
  upsert-Puts parse_date job now =
      set_job-Puts here id job.illust_id (to_tracked_job parse_date job now)

apply_job_event-Puts :
    {s t : Store} (p : Puts s t) (e : JobEvent) (d : JobEventData) (ts : String) (at : ℕ)
    → Puts s (apply_job_event t e d ts at).0
unfolding apply_job_event job_event_status
apply_job_event-Puts p JobEvent.queued d ts at = p
apply_job_event-Puts p JobEvent.deleted d ts at = delete_job-Puts p d.illust_id d.job_id
apply_job_event-Puts p JobEvent.other d ts at = p
apply_job_event-Puts p e d ts at = mutate-Puts p d.illust_id d.job_id (patch_status _ ts at)

apply_event-Puts :
    (s : Store) (ev : InboxEvent) (ts : String) (at : ℕ) → Puts s (apply_event s ev ts at).0
unfolding apply_event
apply_event-Puts s (job_event e d) ts at =
    apply_job_event-Puts (then_counts here d.active_count d.done_count) e d ts at
apply_event-Puts s (task_started job_id task_id) ts at =
    patch_task-Puts here job_id task_id patch_started
apply_event-Puts s (task_progress job_id task_id downloaded total) ts at =
    patch_task-Puts here job_id task_id (patch_progress downloaded total)
apply_event-Puts s (task_ended end job_id task_id error) ts at =
    patch_task-Puts here job_id task_id (patch_ended end error)
apply_event-Puts s ignored ts at = here

-- The calls that change the tracked jobs, as the client makes them.
pub data Call : Type 0 where
  upsert_call : DownloadJob → ℕ → Call
  replace_call : List (ℕ × TrackedJob) → Call
  sweep_call : ℕ → Call
  reset_call : Call
  event_call : InboxEvent → String → ℕ → Call

module _ (id : Identity) (parse_date : String → Option ℕ) where
  unfoldable pub perform : Store → Call → Store
  perform s (upsert_call job now) = upsert id parse_date s job now
  perform s (replace_call next) = replace_all id s next
  perform s (sweep_call cutoff) = sweep s cutoff
  perform s reset_call = reset id s
  perform s (event_call ev ts at) = (apply_event s ev ts at).0

  unfoldable pub perform_all : Store → List Call → Store
  perform_all s [] = s
  perform_all s (c ∷ cs) = perform_all (perform s c) cs

  perform-Puts : (s : Store) (c : Call) → Puts s (perform s c)
  unfolding perform
  perform-Puts s (upsert_call job now) = upsert-Puts id s parse_date job now
  perform-Puts s (replace_call next) = replace_all-Puts id s next
  perform-Puts s (sweep_call cutoff) = sweep-Puts id s cutoff
  perform-Puts s reset_call = reset-Puts id s
  perform-Puts s (event_call ev ts at) = apply_event-Puts s ev ts at

  -- What `put` and `set_counts` keep, every run of calls keeps.
  pub perform_all-inv :
      (P : Store → Type 0)
      → ((s : Store) (i : ℕ) (job : Option TrackedJob) → P s → P (put s i job))
      → ((s : Store) (active done : ℕ) → P s → P (set_counts s active done))
      → (cs : List Call) (s : Store) → P s
      → P (perform_all s cs)
  unfolding perform_all
  perform_all-inv P puts counts [] s h = h
  perform_all-inv P puts counts (c ∷ cs) s h =
      perform_all-inv P puts counts cs (perform s c) (Puts_inv P puts counts (perform-Puts s c) h)
