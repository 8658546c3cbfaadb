-- ===== src/Submissions/Settles.antt =====
-- Every promise settles (frontend/src/features/downloads/scoped-submissions.ts).
use pixiv_biu.Base.{
  ℕ, suc, ◌==◌, ◌≡◌, ◌≤◌, refl, arith, Bool, true, false, none, some, List, [], ◌∷◌, if◌then◌else◌,
  lookup, ℕ_discrete, length, subst, ap, ◌++◌, ◌∙◌,
}
use pixiv_biu.Submissions.Requests.{
  Point, settled_jobs, queued, requesting, received, finishing, failing, resolved, rejected, Job,
  Submissions, new_submissions, Reply, replied, refused, answered, passed, move, finish, advance,
  job_at, is_request, step_job, step, Event, stepped, handle, handle_all,
}
use pixiv_biu.Submissions.Kept.{
  is_live, IsValid, job_at-settled_jobs, handle-IsValid, handle_all-IsValid,
}

module _ (T : Type 0) where
  -- The steps left before a promise has settled.
  abbrev pub steps_left : Point T → ℕ
  steps_left queued = 4
  steps_left requesting = 3
  steps_left (received result) = 2
  steps_left (finishing result) = 1
  steps_left failing = 1
  steps_left (resolved result) = 0
  steps_left rejected = 0

  abbrev next_point : Point T → Bool → Reply T → Point T
  next_point queued is_current reply = if is_current then requesting else received none
  next_point requesting is_current reply = answered T reply
  next_point (received result) is_current reply = finishing (passed T is_current result)
  next_point (finishing result) is_current reply = resolved result
  next_point failing is_current reply = rejected
  next_point (resolved result) is_current reply = resolved result
  next_point rejected is_current reply = rejected

  job_at-moved :
      (n : ℕ) (j : Job T) (point : Point T) (js : List (Job T))
      → job_at T n js ≡ some j
      → j.number ≡ n
      → job_at T n (settled_jobs T j.number point js) ≡ some (record j { point = point })
  job_at-moved n j point js e f = ground (arith, job_at-settled_jobs T n j.number point js)

  job_at-advance :
      (n : ℕ) (j : Job T) (point : Point T) (reply : Reply T) (s : Submissions T)
      → job_at T n s.jobs ≡ some j
      → j.number ≡ n
      → j.point ≡ point
      → job_at T n (advance T j point reply s).jobs
        ≡ some (record j { point = next_point point (j.revision == s.revision) reply })
  unfolding advance move finish
  job_at-advance n j queued reply s e f p =
      elim (j.revision == s.revision)
        as (λ b.
          job_at T n
            (if b
              then move T j.number requesting (record s { asked = s.asked ++ j.id ∷ [] })
              else move T j.number (received none) s).jobs
          ≡ some (record j { point = if b then requesting else received none })) [
            | true ↦ job_at-moved n j requesting s.jobs e f
            | false ↦ job_at-moved n j (received none) s.jobs e f
          ]
  job_at-advance n j requesting reply s e f p = job_at-moved n j (answered T reply) s.jobs e f
  job_at-advance n j (received result) reply s e f p =
      job_at-moved n j (finishing (passed T (j.revision == s.revision) result)) s.jobs e f
  job_at-advance n j (finishing result) reply s e f p =
      job_at-moved n j (resolved result) s.jobs e f
  job_at-advance n j failing reply s e f p = job_at-moved n j rejected s.jobs e f
  job_at-advance n j (resolved result) reply s e f p = ground arith
  job_at-advance n j rejected reply s e f p = ground arith

  steps_left-next_point :
      (point : Point T) (b : Bool) (reply : Reply T) (k : ℕ)
      → steps_left point ≤ suc k
      → steps_left (next_point point b reply) ≤ k
  steps_left-next_point queued true reply k h = omega arith
  steps_left-next_point queued false reply k h = omega arith
  steps_left-next_point requesting b (replied result) k h = omega arith
  steps_left-next_point requesting b refused k h = omega arith
  steps_left-next_point (received result) b reply k h = omega arith
  steps_left-next_point (finishing result) b reply k h = omega arith
  steps_left-next_point failing b reply k h = omega arith
  steps_left-next_point (resolved result) b reply k h = omega arith
  steps_left-next_point rejected b reply k h = omega arith

  -- The steps of one promise, with what its request would give at each.
  unfoldable pub step_all : ℕ → List (Reply T) → Submissions T → Submissions T
  step_all n [] s = s
  step_all n (reply ∷ replies) s = step_all n replies (step T n reply s)

  -- The promise has settled and has left the requests of its id.
  pub record IsSettled (s : Submissions T) (n : ℕ) : Type 0 where
    pub job : Job T
    pub found : job_at T n s.jobs ≡ some job
    pub over : is_live T job.point ≡ false
    pub gone : is_request n (lookup ℕ_discrete job.id s.requests) ≡ false

  no_steps_left : (point : Point T) → steps_left point ≤ 0 → is_live T point ≡ false
  no_steps_left queued h = absurd (omega arith)
  no_steps_left requesting h = absurd (omega arith)
  no_steps_left (received result) h = absurd (omega arith)
  no_steps_left (finishing result) h = absurd (omega arith)
  no_steps_left failing h = absurd (omega arith)
  no_steps_left (resolved result) h = refl
  no_steps_left rejected h = refl

  within : (point : Point T) {m : ℕ} → 4 ≤ m → steps_left point ≤ m
  within queued h = h
  within requesting h = omega arith
  within (received result) h = omega arith
  within (finishing result) h = omega arith
  within failing h = omega arith
  within (resolved result) h = omega arith
  within rejected h = omega arith

  stepped-IsValid :
      (n : ℕ) (reply : Reply T) (s : Submissions T) → IsValid T s → IsValid T (step T n reply s)
  unfolding handle
  stepped-IsValid n reply s v = handle-IsValid T (stepped n reply) s v

  step_all-IsSettled :
      (n : ℕ) (replies : List (Reply T)) (j : Job T) (s : Submissions T)
      → IsValid T s
      → job_at T n s.jobs ≡ some j
      → steps_left j.point ≤ length replies
      → IsSettled (step_all n replies s) n
  unfolding step_all step step_job
  step_all-IsSettled n [] j s v e h = record {
    job = j;
    found = e;
    over = no_steps_left j.point h;
    gone = (v.fits n j e).gone (no_steps_left j.point h);
  }
  step_all-IsSettled n (reply ∷ replies) j s v e h =
      step_all-IsSettled n replies
        (record j { point = next_point j.point (j.revision == s.revision) reply })
        (step T n reply s) (stepped-IsValid n reply s v)
        (ap (λ o. job_at T n (step_job T o reply s).jobs) e
          ∙ job_at-advance n j j.point reply s e (v.fits n j e).number refl)
        (steps_left-next_point j.point (j.revision == s.revision) reply (length replies) h)

  -- In any run, a promise that has been made settles within four of its steps, whatever its request gives,
  -- and is then no longer the one that a run of its id would join.
  pub settles :
      (es : List (Event T)) (scope n : ℕ) (j : Job T) (replies : List (Reply T)) {s : Submissions T}
      → handle_all T es (new_submissions T scope) ≡ s
      → job_at T n s.jobs ≡ some j
      → 4 ≤ length replies
      → IsSettled (step_all n replies s) n
  settles es scope n j replies reached e h =
      step_all-IsSettled n replies j _ (subst (IsValid T) reached (handle_all-IsValid T es scope)) e
        (within j.point h)
