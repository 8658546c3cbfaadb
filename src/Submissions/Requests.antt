-- ===== src/Submissions/Requests.antt =====
-- The class `ScopedSubmissions` of frontend/src/features/downloads/scoped-submissions.ts. A promise is told
-- apart by its number, and a scope by the number of its object. `jobs` has every promise made and how far
-- its chain of `then` is, `asked` the ids requested and `accepted` the results handed to `accept`, each
-- with the scope and the revision of its `run` and those of the moment it was accepted.
use pixiv_biu.Base.{
  ℕ, suc, ◌==◌, Bool, false, Option, none, some, List, [], ◌∷◌, ◌++◌, if◌then◌else◌, lookup, insert,
  remove, ℕ_discrete,
}

abbrev pub is_request : ℕ → Option ℕ → Bool
is_request number none = false
is_request number (some n) = n == number

module _ (T : Type 0) where
  -- Before the first `then`; while the request runs; before the second; before `finally`; at the end.
  -- `none` is the source's `null`; a rejected request goes on to `finally`.
  pub data Point : Type 0 where
    queued requesting : Point
    received : Option T → Point
    finishing : Option T → Point
    failing : Point
    resolved : Option T → Point
    rejected : Point

  pub record Job : Type 0 where
    pub number : ℕ
    pub id : ℕ
    pub revision : ℕ
    pub scope : ℕ
    pub point : Point

  pub record Acceptance : Type 0 where
    pub asked_in : ℕ
    pub accepted_in : ℕ
    pub asked_at : ℕ
    pub accepted_at : ℕ
    pub result : T

  pub record Submissions : Type 0 where
    pub scope : ℕ
    pub revision : ℕ
    pub requests : List (ℕ × ℕ)
    pub made : ℕ
    pub jobs : List Job
    pub asked : List ℕ
    pub accepted : List Acceptance

  abbrev pub new_submissions : ℕ → Submissions
  new_submissions scope = record {
    scope = scope;
    revision = 0;
    requests = [];
    made = 0;
    jobs = [];
    asked = [];
    accepted = [];
  }

  unfoldable pub set_scope : ℕ → Submissions → Submissions
  set_scope scope s =
      if s.scope == scope
      then s
      else record s { scope = scope; revision = suc s.revision; requests = [] }

  abbrev pub new_job : ℕ → Submissions → Job
  new_job id s = record {
    number = s.made;
    id = id;
    revision = s.revision;
    scope = s.scope;
    point = queued;
  }

  unfoldable pub run_new : ℕ → Option ℕ → Submissions → Submissions
  run_new id (some existing) s = s
  run_new id none s = record s {
    requests = insert ℕ_discrete id s.made s.requests;
    made = suc s.made;
    jobs = new_job id s ∷ s.jobs;
  }

  -- `run`: a promise that is kept is returned as it is.
  unfoldable pub run : ℕ → Submissions → Submissions
  unfolding run_new
  run id s = run_new id (lookup ℕ_discrete id s.requests) s

  -- What a request gives: a result, null, or a rejection.
  pub data Reply : Type 0 where
    replied : Option T → Reply
    refused : Reply

  abbrev pub answered : Reply → Point
  answered (replied result) = received result
  answered refused = failing

  -- The second `then`: where it accepts, and what it passes on.
  abbrev pub passed : Bool → Option T → Option T
  passed is_current result = if is_current then result else none

  abbrev pub acceptances : Option T → Job → ℕ → ℕ → List Acceptance
  acceptances none j scope revision = []
  acceptances (some result) j scope revision =
      record {
        asked_in = j.scope;
        accepted_in = scope;
        asked_at = j.revision;
        accepted_at = revision;
        result = result;
      }
      ∷ []

  abbrev pub settled_jobs : ℕ → Point → List Job → List Job
  settled_jobs number point [] = []
  settled_jobs number point (j ∷ js) =
      let rest = settled_jobs number point js in
      if j.number == number then record j { point = point } ∷ rest else j ∷ rest

  unfoldable pub move : ℕ → Point → Submissions → Submissions
  move number point s = record s { jobs = settled_jobs number point s.jobs }

  -- `finally`.
  unfoldable pub finish : Job → Point → Submissions → Submissions
  unfolding move
  finish j point s = move j.number point (record s {
    requests =
        if is_request j.number (lookup ℕ_discrete j.id s.requests)
        then remove ℕ_discrete j.id s.requests
        else s.requests;
  })

  -- The step of a job from its point, given the reply to its request.
  unfoldable pub advance : Job → Point → Reply → Submissions → Submissions
  unfolding move finish
  advance j queued reply s =
      if j.revision == s.revision
      then move j.number requesting (record s { asked = s.asked ++ j.id ∷ [] })
      else move j.number (received none) s
  advance j requesting reply s = move j.number (answered reply) s
  advance j (received result) reply s =
      let passed_on = passed (j.revision == s.revision) result in
      move j.number (finishing passed_on)
        (record s { accepted = s.accepted ++ acceptances passed_on j s.scope s.revision })
  advance j (finishing result) reply s = finish j (resolved result) s
  advance j failing reply s = finish j rejected s
  advance j (resolved result) reply s = s
  advance j rejected reply s = s

  abbrev pub job_at : ℕ → List Job → Option Job
  job_at number [] = none
  job_at number (j ∷ js) = if j.number == number then some j else job_at number js

  unfoldable pub step_job : Option Job → Reply → Submissions → Submissions
  unfolding advance
  step_job none reply s = s
  step_job (some j) reply s = advance j j.point reply s

  unfoldable pub step : ℕ → Reply → Submissions → Submissions
  unfolding step_job
  step number reply s = step_job (job_at number s.jobs) reply s

  -- A call of the class, or a step of the promise with a number.
  pub data Event : Type 0 where
    scoped ran : ℕ → Event
    stepped : ℕ → Reply → Event

  unfoldable pub handle : Event → Submissions → Submissions
  handle (scoped scope) s = set_scope scope s
  handle (ran id) s = run id s
  handle (stepped number reply) s = step number reply s

  unfoldable pub handle_all : List Event → Submissions → Submissions
  handle_all [] s = s
  handle_all (e ∷ es) s = handle_all es (handle e s)
