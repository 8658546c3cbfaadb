-- ===== src/Downloads/Slots.antt =====
-- What each operation does to the job tracked for an illust
-- (frontend/src/features/downloads/download-store.ts).
use pixiv_biu.Base.{
  dec_lt, ℕ, ◌≡◌, ◌∙◌, refl, ap, Bool, false, ◌&&◌, ◌||◌, not, Option, none, some, List, [], ◌∷◌,
  String, arith, ite, lookup, lookup-insert, lookup-remove, ℕ_discrete, text_discrete, Option-cases,
  Bool-cases, inl, inr, if◌then◌else◌, keys, is_some, includes, Distinct, insert-Distinct,
  remove-Distinct, lookup-of_absent,
}
use pixiv_biu.Downloads.Types.{DownloadTask}
use pixiv_biu.Downloads.Store.{
  TrackedJob, Store, Identity, new_store, put, mutate, patch_tracked, patch_task, unset, delete_job,
  is_expired, sweep_over, sweep, drop_missing, set_job, adopt, replace_all, set_counts,
}
use pixiv_biu.Downloads.Events.{
  InboxEvent, job_event, task_started, task_progress, task_ended, ignored, JobEvent, JobEventData,
  apply_job_event, apply_event, job_event_status, patch_status, patch_started, patch_progress,
  patch_ended,
}
use pixiv_biu.Downloads.Puts.{Call, perform_all, perform_all-inv}
use pixiv_biu.Downloads.Index.{tracks, set_counts_jobs}

abbrev pub slot : Store → ℕ → Option TrackedJob
slot s i = lookup ℕ_discrete i s.jobs

slot-put :
    (s : Store) (i j : ℕ) (t : Option TrackedJob)
    → slot (put s i t) j ≡ ite (ℕ_discrete i j) t (slot s j)
unfolding put
slot-put s i j none = lookup-remove ℕ_discrete j i s.jobs
slot-put s i j (some t) = lookup-insert ℕ_discrete j i t s.jobs

slot-unset : (s : Store) (i j : ℕ) → slot (unset s i) j ≡ ite (ℕ_discrete i j) none (slot s j)
unfolding unset
slot-unset s i j = elim (Option-cases (slot s i)) [
  | inl e ↦ rw (e, unset) (ground arith)
  | inr (t, e) ↦ rw (e, unset) (slot-put s i j none)
]

pub slot-set_counts : (s : Store) (a d i : ℕ) → slot (set_counts s a d) i ≡ slot s i
slot-set_counts s a d i = ap (lookup ℕ_discrete i) (set_counts_jobs s a d).0

slot-mutate :
    (s : Store) (i j : ℕ) (job_id : String) (patch : TrackedJob → Option TrackedJob)
    → tracks s j job_id ≡ false
    → slot (mutate s i job_id patch) j ≡ slot s j
unfolding mutate
slot-mutate s i j job_id patch h = elim (Option-cases (slot s i)) [
  | inl e ↦ rw (e, mutate) refl
  | inr (cur, e) ↦ elim (Option-cases (patch cur)) [
    | inl q ↦ ground arith
    | inr (u, q) ↦ ground (arith, slot-put s i j (some u))
  ]
]

slot-delete_job :
    (s : Store) (i j : ℕ) (job_id : String)
    → tracks s j job_id ≡ false
    → slot (delete_job s i job_id) j ≡ slot s j
unfolding delete_job
slot-delete_job s i j job_id h = ground (arith, slot-unset s i j)

slot-patch_task :
    (s : Store) (j : ℕ) (job_id task_id : String) (patcher : DownloadTask → Option DownloadTask)
    → tracks s j job_id ≡ false
    → slot (patch_task s job_id task_id patcher) j ≡ slot s j
unfolding patch_task
slot-patch_task s j job_id task_id patcher h =
    elim (Option-cases (lookup text_discrete job_id s.illust_by_job)) [
      | inl e ↦ rw (e, patch_task) refl
      | inr (i, e) ↦ rw (e, patch_task) (slot-mutate s i j job_id (patch_tracked task_id patcher) h)
    ]

-- The event is about the job tracked for the illust.
abbrev pub is_about : Store → ℕ → InboxEvent → Bool
is_about s i (job_event e d) = tracks s i d.job_id
is_about s i (task_started job_id task_id) = tracks s i job_id
is_about s i (task_progress job_id task_id downloaded total) = tracks s i job_id
is_about s i (task_ended end job_id task_id error) = tracks s i job_id
is_about s i ignored = false

tracks-set_counts :
    (s : Store) (a d i : ℕ) (job_id : String)
    → tracks (set_counts s a d) i job_id ≡ tracks s i job_id
tracks-set_counts s a d i job_id = rw ((set_counts_jobs s a d).0) refl

slot-apply_job_event :
    (s : Store) (i : ℕ) (e : JobEvent) (d : JobEventData) (ts : String) (at : ℕ)
    → tracks s i d.job_id ≡ false
    → slot (apply_job_event s e d ts at).0 i ≡ slot s i
unfolding apply_job_event job_event_status
slot-apply_job_event s i JobEvent.queued d ts at h = refl
slot-apply_job_event s i JobEvent.deleted d ts at h = slot-delete_job s d.illust_id i d.job_id h
slot-apply_job_event s i JobEvent.other d ts at h = refl
slot-apply_job_event s i e d ts at h = slot-mutate s d.illust_id i d.job_id (patch_status _ ts at) h

-- A late event cannot touch a slot that a newer job has claimed: an event leaves the job tracked for an
-- illust as it is, unless it carries the id of that very job.
pub apply_event-slot :
    (s : Store) (i : ℕ) (ev : InboxEvent) (ts : String) (at : ℕ)
    → is_about s i ev ≡ false
    → slot (apply_event s ev ts at).0 i ≡ slot s i
unfolding apply_event
apply_event-slot s i (job_event e d) ts at h =
    slot-apply_job_event (set_counts s d.active_count d.done_count) i e d ts at
      (tracks-set_counts s d.active_count d.done_count i d.job_id ∙ h)
    ∙ slot-set_counts s d.active_count d.done_count i
apply_event-slot s i (task_started job_id task_id) ts at h =
    slot-patch_task s i job_id task_id patch_started h
apply_event-slot s i (task_progress job_id task_id downloaded total) ts at h =
    slot-patch_task s i job_id task_id (patch_progress downloaded total) h
apply_event-slot s i (task_ended end job_id task_id error) ts at h =
    slot-patch_task s i job_id task_id (patch_ended end error) h
apply_event-slot s i ignored ts at h = refl

slot-drop_missing :
    (next : List (ℕ × TrackedJob)) (is : List ℕ) (s : Store) (j : ℕ)
    → slot (drop_missing next is s) j ≡ (
        if includes ℕ_discrete j is && not (is_some (lookup ℕ_discrete j next))
        then none
        else slot s j)
unfolding drop_missing
slot-drop_missing next [] s j = refl
slot-drop_missing next (i ∷ is) s j = elim (Option-cases (lookup ℕ_discrete i next)) [
  | inl e ↦
      rw (e, drop_missing)
        (ground (arith, slot-drop_missing next is (unset s i) j, slot-unset s i j))
  | inr (t, e) ↦ rw (e, drop_missing) (ground (arith, slot-drop_missing next is s j))
]

module _ (id : Identity) where
  slot-set_job :
      (s : Store) (i j : ℕ) (t : TrackedJob)
      → slot (set_job id s i t) j ≡ ite (ℕ_discrete i j) (some t) (slot s j)
  unfolding set_job
  slot-set_job s i j t = elim (Option-cases (slot s i)) [
    | inl e ↦ rw (e, set_job) (slot-put s i j (some t))
    | inr (cur, e) ↦ elim (Bool-cases (id.is_same cur t)) [
      | inl same ↦ ground (arith, id.same_eq cur t same)
      | inr other ↦ ground (arith, slot-put s i j (some t))
    ]
  ]

  slot-adopt :
      (next : List (ℕ × TrackedJob)) (s : Store) (j : ℕ)
      → Distinct ℕ_discrete (keys next)
      → slot (adopt id next s) j
        ≡ (if is_some (lookup ℕ_discrete j next) then lookup ℕ_discrete j next else slot s j)
  unfolding adopt lookup
  slot-adopt [] s j d = refl
  slot-adopt ((i, t) ∷ next) s j d = ground (
    arith,
    slot-adopt next (set_job id s i t) j d.1,
    slot-set_job s i j t,
    lookup-of_absent ℕ_discrete i next d.0,
  )

  -- A snapshot with one job for each illust is adopted whole: afterwards the job tracked for an illust is
  -- the snapshot's, and none where the snapshot has none.
  pub replace_all-slot :
      (s : Store) (next : List (ℕ × TrackedJob)) (j : ℕ)
      → Distinct ℕ_discrete (keys next)
      → slot (replace_all id s next) j ≡ lookup ℕ_discrete j next
  unfolding replace_all
  replace_all-slot s next j d = ground (
    arith,
    slot-adopt next (drop_missing next (keys s.jobs) s) j d,
    slot-drop_missing next (keys s.jobs) s j,
    lookup-of_absent ℕ_discrete j s.jobs,
  )

-- The entry under the key has expired.
abbrev expired_at : ℕ → ℕ → List (ℕ × TrackedJob) → Bool
expired_at cutoff j [] = false
expired_at cutoff j ((i, t) ∷ es) =
    ite (ℕ_discrete i j) (is_expired cutoff t) false || expired_at cutoff j es

slot-sweep_over :
    (cutoff : ℕ) (es : List (ℕ × TrackedJob)) (s : Store) (j : ℕ)
    → slot (sweep_over cutoff es s) j ≡ (if expired_at cutoff j es then none else slot s j)
unfolding sweep_over
slot-sweep_over cutoff [] s j = refl
slot-sweep_over cutoff ((i, t) ∷ es) s j = elim (Bool-cases (is_expired cutoff t)) [
  | inl e ↦ ground (arith, slot-sweep_over cutoff es (unset s i) j, slot-unset s i j)
  | inr e ↦ ground (arith, slot-sweep_over cutoff es s j)
]

expired_at_lem :
    (cutoff j : ℕ) (es : List (ℕ × TrackedJob))
    → Distinct ℕ_discrete (keys es)
    → expired_at cutoff j es
      ≡ (elim (lookup ℕ_discrete j es) [ none ↦ false | some t ↦ is_expired cutoff t ])
unfolding lookup
expired_at_lem cutoff j [] d = refl
expired_at_lem cutoff j ((i, t) ∷ es) d =
    ground (arith, expired_at_lem cutoff j es d.1, lookup-of_absent ℕ_discrete i es d.0)

abbrev unless_expired : ℕ → Option TrackedJob → Option TrackedJob
unless_expired cutoff none = none
unless_expired cutoff (some t) = if is_expired cutoff t then none else some t

-- The slot without a job that ended before the cutoff.
abbrev pub unless_ended : ℕ → Option TrackedJob → Option TrackedJob
unless_ended cutoff none = none
unless_ended cutoff (some t) = elim t.terminated_at [
  | none ↦ some t
  | some at ↦ ite (dec_lt at cutoff) none (some t)
]

unless_ended_lem :
    (cutoff : ℕ) (o : Option TrackedJob) → unless_expired cutoff o ≡ unless_ended cutoff o
unfolding is_expired
unless_ended_lem cutoff none = refl
unless_ended_lem cutoff (some t) = ground arith

put-Distinct :
    (s : Store) (i : ℕ) (t : Option TrackedJob)
    → Distinct ℕ_discrete (keys s.jobs)
    → Distinct ℕ_discrete (keys (put s i t).jobs)
unfolding put
put-Distinct s i none d = remove-Distinct ℕ_discrete i s.jobs d
put-Distinct s i (some t) d = insert-Distinct ℕ_discrete i t s.jobs d

-- After any run of calls on a new store, a sweep drops exactly the jobs that ended before the cutoff.
pub sweep-slot :
    (id : Identity) (parse_date : String → Option ℕ) (cs : List Call) (cutoff j : ℕ)
    → slot (sweep (perform_all id parse_date new_store cs) cutoff) j
      ≡ unless_ended cutoff (slot (perform_all id parse_date new_store cs) j)
unfolding sweep
sweep-slot id parse_date cs cutoff j =
    let s = perform_all id parse_date new_store cs in
    let d =
      perform_all-inv id parse_date (λ t. Distinct ℕ_discrete (keys t.jobs)) put-Distinct
        (λ t a b h. rw ((set_counts_jobs t a b).0) h) cs new_store tt in
    ground (
      arith,
      slot-sweep_over cutoff s.jobs s j,
      expired_at_lem cutoff j s.jobs d,
      unless_ended_lem cutoff (slot s j),
    )
