-- ===== src/Downloads/Store.antt =====
-- The tracked jobs: `DownloadStateStore` and `applyDownloadEvent` of
-- frontend/src/features/downloads/download-store.ts, with the insertion of the initial fetch in
-- frontend/src/features/downloads/download-state-provider.tsx.
-- A listener is a number, and `calls` lists the listeners called, in order. A listener set has a number
-- too, since an `unsubscribe` goes on holding the set that it was made for. A time is a number of
-- milliseconds from 1970 on; `Date.parse` is a parameter, with `none` for NaN.
use pixiv_biu.Base.{
  ℕ, ◌+◌, ◌≡◌, Bool, true, false, ◌&&◌, Option, none, some, List, [], ◌∷◌, ◌++◌, String, ite, ltb,
  ◌==◌, if◌then◌else◌, length, add, delete, lookup, insert, remove, keys, ℕ_discrete, text_discrete,
}
use pixiv_biu.Downloads.Types.{is_terminal_status, DownloadTask, DownloadJob, patch_job_task}

pub record TrackedJob : Type 0 where
  pub job : DownloadJob
  pub terminated_at : Option ℕ

pub record DownloadCounts : Type 0 where
  pub active_count : ℕ
  pub done_count : ℕ

abbrev pub empty_counts : DownloadCounts
empty_counts = record { active_count = 0; done_count = 0 }

pub record ListenerSet : Type 0 where
  pub object : ℕ
  pub members : List ℕ

pub record Store : Type 0 where
  pub jobs : List (ℕ × TrackedJob)
  pub illust_by_job : List (String × ℕ)
  pub illust_listeners : List (ℕ × ListenerSet)
  pub count_listeners : List ℕ
  pub counts : DownloadCounts
  pub next_object : ℕ
  pub calls : List ℕ

abbrev pub new_store : Store
new_store = record {
  jobs = [];
  illust_by_job = [];
  illust_listeners = [];
  count_listeners = [];
  counts = empty_counts;
  next_object = 0;
  calls = [];
}

unfoldable pub get : Store → ℕ → Option TrackedJob
get s i = lookup ℕ_discrete i s.jobs

unfoldable pub listeners_of : Store → ℕ → List ℕ
listeners_of s i = elim (lookup ℕ_discrete i s.illust_listeners) [
  | none ↦ []
  | some set ↦ set.members
]

-- `subscribeIllust`: the store, and the set that the returned `unsubscribe` holds.
unfoldable pub subscribe_illust : Store → ℕ → ℕ → Store × ℕ
subscribe_illust s i l = elim (lookup ℕ_discrete i s.illust_listeners) [
  | some set ↦ (
    record s {
      illust_listeners =
          insert ℕ_discrete i (record set { members = add ℕ_discrete l set.members })
            s.illust_listeners;
    },
    set.object,
  )
  | none ↦ (
    record s {
      illust_listeners =
          insert ℕ_discrete i (record { object = s.next_object; members = add ℕ_discrete l [] })
            s.illust_listeners;
      next_object = s.next_object + 1;
    },
    s.next_object,
  )
]

-- The returned function. A set leaves the map only when it is empty, so one that is no longer there has
-- nothing to lose.
unfoldable pub unsubscribe_illust : Store → ℕ → ℕ → ℕ → Store
unsubscribe_illust s i object l = elim (lookup ℕ_discrete i s.illust_listeners) [
  | none ↦ s
  | some set ↦
      let members = delete ℕ_discrete l set.members in
      if set.object == object
      then record s {
        illust_listeners =
            if length members == 0
            then remove ℕ_discrete i s.illust_listeners
            else insert ℕ_discrete i (record set { members = members }) s.illust_listeners;
      }
      else s
]

unfoldable pub subscribe_counts : Store → ℕ → Store
subscribe_counts s l = record s { count_listeners = add ℕ_discrete l s.count_listeners }

unfoldable pub unsubscribe_counts : Store → ℕ → Store
unsubscribe_counts s l = record s { count_listeners = delete ℕ_discrete l s.count_listeners }

unfoldable pub set_counts : Store → ℕ → ℕ → Store
set_counts s active done =
    if s.counts.active_count == active && s.counts.done_count == done then s else record s {
      counts = record { active_count = active; done_count = done };
      calls = s.calls ++ s.count_listeners;
    }

-- The `delete` on the index, if it still leads to the illust.
unfoldable pub unindex : ℕ → Option TrackedJob → List (String × ℕ) → List (String × ℕ)
unindex i none m = m
unindex i (some cur) m = elim (lookup text_discrete cur.job.id m) [
  | none ↦ m
  | some j ↦ if j == i then remove text_discrete cur.job.id m else m
]

-- The body of `set` below its guard.
unfoldable pub put : Store → ℕ → Option TrackedJob → Store
unfolding unindex listeners_of
put s i none = record s {
  jobs = remove ℕ_discrete i s.jobs;
  illust_by_job = unindex i (lookup ℕ_discrete i s.jobs) s.illust_by_job;
  calls = s.calls ++ listeners_of s i;
}
put s i (some job) = record s {
  jobs = insert ℕ_discrete i job s.jobs;
  illust_by_job =
      insert text_discrete job.job.id i (unindex i (lookup ℕ_discrete i s.jobs) s.illust_by_job);
  calls = s.calls ++ listeners_of s i;
}

-- `mutate`. A patched job is a new object, so `set` gets past its guard.
unfoldable pub mutate : Store → ℕ → String → (TrackedJob → Option TrackedJob) → Store
mutate s i job_id patch = elim (lookup ℕ_discrete i s.jobs) [
  | none ↦ s
  | some cur ↦
      ite (text_discrete cur.job.id job_id)
        (elim (patch cur) [ none ↦ s | some next ↦ put s i (some next) ]) s
]

unfoldable pub patch_tracked :
    String → (DownloadTask → Option DownloadTask) → TrackedJob → Option TrackedJob
unfolding patch_job_task
patch_tracked task_id patcher t = elim (patch_job_task t.job task_id patcher) [
  | none ↦ none
  | some job ↦ some (record t { job = job })
]

unfoldable pub patch_task : Store → String → String → (DownloadTask → Option DownloadTask) → Store
patch_task s job_id task_id patcher = elim (lookup text_discrete job_id s.illust_by_job) [
  | none ↦ s
  | some i ↦ mutate s i job_id (patch_tracked task_id patcher)
]

-- `set(illustId, undefined)`: the guard stops it where there is no job.
unfoldable pub unset : Store → ℕ → Store
unset s i = elim (lookup ℕ_discrete i s.jobs) [ none ↦ s | some cur ↦ put s i none ]

unfoldable pub delete_job : Store → ℕ → String → Store
delete_job s i job_id = elim (lookup ℕ_discrete i s.jobs) [
  | none ↦ s
  | some cur ↦ ite (text_discrete cur.job.id job_id) (unset s i) s
]

unfoldable pub is_expired : ℕ → TrackedJob → Bool
is_expired cutoff t = elim t.terminated_at [ none ↦ false | some at ↦ ltb at cutoff ]

-- The loop of `sweep` over a copy of the entries.
unfoldable pub sweep_over : ℕ → List (ℕ × TrackedJob) → Store → Store
sweep_over cutoff [] s = s
sweep_over cutoff ((i, t) ∷ es) s =
    sweep_over cutoff es (if is_expired cutoff t then unset s i else s)

unfoldable pub sweep : Store → ℕ → Store
sweep s cutoff = sweep_over cutoff s.jobs s

-- The first loop of `replaceAll`, over a copy of the keys.
unfoldable pub drop_missing : List (ℕ × TrackedJob) → List ℕ → Store → Store
drop_missing next [] s = s
drop_missing next (i ∷ is) s =
    drop_missing next is (elim (lookup ℕ_discrete i next) [ none ↦ unset s i | some t ↦ s ])

module _ (parse_date : String → Option ℕ) where
  -- `Date.parse(text) || Date.now()`.
  unfoldable pub date_or_now : String → ℕ → ℕ
  date_or_now text now = elim (parse_date text) [ none ↦ now | some t ↦ if t == 0 then now else t ]

  unfoldable pub to_tracked_job : DownloadJob → ℕ → TrackedJob
  unfolding date_or_now is_terminal_status
  to_tracked_job job now = record {
    job = job;
    terminated_at =
        if is_terminal_status job.status then some (date_or_now job.updated_at now) else none;
  }

-- `a === b` on two jobs, decided by the two objects: identical objects have the same content.
pub record Identity : Type 0 where
  pub is_same : TrackedJob → TrackedJob → Bool
  pub same_eq : (a b : TrackedJob) → is_same a b ≡ true → a ≡ b

module _ (id : Identity) where
  open id use {is_same}

  -- `set(illustId, job)`.
  unfoldable pub set_job : Store → ℕ → TrackedJob → Store
  set_job s i job = elim (lookup ℕ_discrete i s.jobs) [
    | none ↦ put s i (some job)
    | some cur ↦ if is_same cur job then s else put s i (some job)
  ]

  unfoldable pub adopt : List (ℕ × TrackedJob) → Store → Store
  adopt [] s = s
  adopt ((i, job) ∷ next) s = adopt next (set_job s i job)

  unfoldable pub replace_all : Store → List (ℕ × TrackedJob) → Store
  replace_all s next = adopt next (drop_missing next (keys s.jobs) s)

  unfoldable pub reset : Store → Store
  reset s = set_counts (replace_all s []) 0 0

  unfoldable pub upsert : (String → Option ℕ) → Store → DownloadJob → ℕ → Store
  upsert parse_date s job now = set_job s job.illust_id (to_tracked_job parse_date job now)
