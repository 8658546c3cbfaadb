-- ===== src/Downloads/Index.antt =====
-- The index from jobs to illusts leads only to jobs that are tracked, whatever is called
-- (frontend/src/features/downloads/download-store.ts).
use pixiv_biu.Base.{
  ℕ, ◌≡◌, ◌≢◌, refl, Bool, true, false, Option, none, some, List, String, arith, ite, lookup,
  lookup-insert, lookup-remove, ℕ_discrete, text_discrete,
}
use pixiv_biu.Downloads.Store.{TrackedJob, Store, Identity, unindex, put, set_counts, new_store}
use pixiv_biu.Downloads.Puts.{Call, perform_all, perform_all-inv}

-- The job with this id is the one tracked for the illust.
abbrev pub tracks : Store → ℕ → String → Bool
tracks s i job_id = elim (lookup ℕ_discrete i s.jobs) [
  | none ↦ false
  | some t ↦ ite (text_discrete t.job.id job_id) true false
]

-- Where the index leads for a job, that job is tracked.
abbrev pub IsIndexed : Store → Type 0
IsIndexed s =
    (job_id : String) (i : ℕ)
    → lookup text_discrete job_id s.illust_by_job ≡ some i
    → tracks s i job_id ≡ true

lookup-unindex :
    (i : ℕ) (cur : Option TrackedJob) (m : List (String × ℕ)) (job_id : String) (j : ℕ)
    → lookup text_discrete job_id (unindex i cur m) ≡ some j
    → lookup text_discrete job_id m ≡ some j
unfolding unindex
lookup-unindex i none m job_id j h = h
lookup-unindex i (some cur) m job_id j h =
    ground (arith, lookup-remove text_discrete job_id cur.job.id m)

lookup-unindex_ne :
    (i : ℕ) (cur : TrackedJob) (m : List (String × ℕ)) (job_id : String)
    → lookup text_discrete job_id (unindex i (some cur) m) ≡ some i
    → cur.job.id ≢ job_id
unfolding unindex
lookup-unindex_ne i cur m job_id h e =
    ground (arith, lookup-remove text_discrete job_id cur.job.id m)

unindex-IsIndexed :
    (s : Store) (i : ℕ) (cur : Option TrackedJob) (job_id : String) (j : ℕ)
    → IsIndexed s
    → lookup ℕ_discrete i s.jobs ≡ cur
    → lookup text_discrete job_id (unindex i cur s.illust_by_job) ≡ some j
    → (tracks s j job_id ≡ true) × (i ≢ j)
unindex-IsIndexed s i none job_id j h c e =
    let t = h job_id j (lookup-unindex i none s.illust_by_job job_id j e) in (t, λ q. ground arith)
unindex-IsIndexed s i (some cur) job_id j h c e =
    let t = h job_id j (lookup-unindex i (some cur) s.illust_by_job job_id j e) in
    (t, λ q. ground (arith, lookup-unindex_ne i cur s.illust_by_job job_id))

put-IsIndexed :
    (s : Store) (i : ℕ) (job : Option TrackedJob) → IsIndexed s → IsIndexed (put s i job)
unfolding put
put-IsIndexed s i none h job_id j e = ground (
  arith,
  unindex-IsIndexed s i (lookup ℕ_discrete i s.jobs) job_id j h refl e,
  lookup-remove ℕ_discrete j i s.jobs,
)
put-IsIndexed s i (some job) h job_id j e =
    let cur = lookup ℕ_discrete i s.jobs in
    let index = unindex i cur s.illust_by_job in
    elim (text_discrete job.job.id job_id) [
      | yes same ↦ ground (
        arith,
        lookup-insert text_discrete job_id job.job.id i index,
        lookup-insert ℕ_discrete j i job s.jobs,
      )
      | no other ↦
          let found : lookup text_discrete job_id index ≡ some j =
            ground (arith, lookup-insert text_discrete job_id job.job.id i index) in
          ground (
            arith,
            unindex-IsIndexed s i cur job_id j h refl found,
            lookup-insert ℕ_discrete j i job s.jobs,
          )
    ]

pub set_counts_jobs :
    (s : Store) (active done : ℕ)
    → ((set_counts s active done).jobs ≡ s.jobs)
      × ((set_counts s active done).illust_by_job ≡ s.illust_by_job)
unfolding set_counts
set_counts_jobs s active done = (ground arith, ground arith)

set_counts-IsIndexed :
    (s : Store) (active done : ℕ) → IsIndexed s → IsIndexed (set_counts s active done)
set_counts-IsIndexed s active done h job_id i e =
    let (same_jobs, same_index) = set_counts_jobs s active done in
    rw same_jobs (h job_id i (rw same_index at e))

-- After any run of calls on a new store, a job that the index leads from is the job tracked for the
-- illust it leads to: an event that carries a job id only can never reach another job's slot.
pub perform_all-IsIndexed :
    (id : Identity) (parse_date : String → Option ℕ) (cs : List Call) (job_id : String) (i : ℕ)
    → lookup text_discrete job_id (perform_all id parse_date new_store cs).illust_by_job ≡ some i
    → tracks (perform_all id parse_date new_store cs) i job_id ≡ true
perform_all-IsIndexed id parse_date cs =
    perform_all-inv id parse_date IsIndexed put-IsIndexed set_counts-IsIndexed cs new_store
      (λ job_id i e. unfold lookup in cc)
