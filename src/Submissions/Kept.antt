-- ===== src/Submissions/Kept.antt =====
-- What holds of the submissions in every run (frontend/src/features/downloads/scoped-submissions.ts).
use pixiv_biu.Base.{
  ℕ, ◌==◌, ◌≡◌, ◌≤◌, ◌<◌, refl, arith, Bool, true, false, Option, none, some, List, [], ◌∷◌, ◌++◌,
  if◌then◌else◌, lookup, ℕ_discrete, lookup-insert, lookup-remove, All, All-append, subst,
}
use pixiv_biu.Submissions.Requests.{
  Point, queued, requesting, received, finishing, failing, resolved, rejected, Job, Acceptance,
  Submissions, new_submissions, set_scope, run_new, run, Reply, replied, refused, answered, passed,
  acceptances, settled_jobs, move, finish, advance, job_at, is_request, step_job, step, Event,
  scoped, ran, stepped, handle, handle_all,
}

module _ (T : Type 0) where
  -- A promise that has not settled.
  abbrev pub is_live : Point T → Bool
  is_live (resolved result) = false
  is_live rejected = false
  is_live _ = true

  pub record Fits (s : Submissions T) (n : ℕ) (j : Job T) : Type 0 where
    pub number : j.number ≡ n
    pub fresh : n < s.made
    pub gone : is_live j.point ≡ false → is_request n (lookup ℕ_discrete j.id s.requests) ≡ false
    pub age : j.revision ≤ s.revision
    pub in_scope : j.revision ≡ s.revision → j.scope ≡ s.scope
    pub kept :
        j.revision ≡ s.revision
        → is_live j.point ≡ true
        → lookup ℕ_discrete j.id s.requests ≡ some n

  abbrev pub Accepted : Acceptance T → Type 0
  Accepted a = (a.asked_in ≡ a.accepted_in) × (a.asked_at ≡ a.accepted_at)

  pub record IsValid (s : Submissions T) : Type 0 where
    pub fits : (n : ℕ) (j : Job T) → job_at T n s.jobs ≡ some j → Fits s n j
    pub all_accepted : All Accepted s.accepted

  abbrev pub moved : Bool → Point T → Option (Job T) → Option (Job T)
  moved here point none = none
  moved here point (some j) = if here then some (record j { point = point }) else some j

  pub job_at-settled_jobs :
      (m n : ℕ) (point : Point T) (js : List (Job T))
      → job_at T m (settled_jobs T n point js) ≡ moved (n == m) point (job_at T m js)
  job_at-settled_jobs m n point [] = refl
  job_at-settled_jobs m n point (j ∷ js) = ground (arith, job_at-settled_jobs m n point js)

  set_scope-IsValid : (scope : ℕ) (s : Submissions T) → IsValid s → IsValid (set_scope T scope s)
  unfolding set_scope lookup
  set_scope-IsValid scope s v = record {
    fits = λ n j e. ground (arith, v.fits n j);
    all_accepted = ground (arith, v.all_accepted);
  }

  run_new-IsValid :
      (id : ℕ) (s : Submissions T)
      → lookup ℕ_discrete id s.requests ≡ none
      → IsValid s
      → IsValid (run_new T id none s)
  unfolding run_new
  run_new-IsValid id s e v = record {
    fits = λ n j f. ground (arith, v.fits n j, lookup-insert ℕ_discrete j.id id s.made s.requests);
    all_accepted = v.all_accepted;
  }

  -- Once the promise j is at a point, with the acceptances that its step adds.
  move-IsValid :
      (n : ℕ) (j : Job T) (point : Point T) (s : Submissions T)
      → job_at T n s.jobs ≡ some j
      → is_live j.point ≡ true
      → is_live point ≡ true
      → IsValid s
      → IsValid (move T n point s)
  unfolding move
  move-IsValid n j point s e l o v = record {
    fits = λ m k f. ground (arith, v.fits m k, v.fits n j, job_at-settled_jobs m n point s.jobs);
    all_accepted = v.all_accepted;
  }

  finish-IsValid :
      (n : ℕ) (j : Job T) (point : Point T) (s : Submissions T)
      → job_at T n s.jobs ≡ some j
      → is_live point ≡ false
      → IsValid s
      → IsValid (finish T j point s)
  unfolding finish move
  finish-IsValid n j point s e l v = record {
    fits = λ m k f. ground (
      arith,
      v.fits m k,
      v.fits n j,
      job_at-settled_jobs m j.number point s.jobs,
      lookup-remove ℕ_discrete k.id j.id s.requests,
    );
    all_accepted = v.all_accepted;
  }

  is_live-answered : (reply : Reply T) → is_live (answered T reply) ≡ true
  is_live-answered (replied result) = refl
  is_live-answered refused = refl

  acceptances-Accepted :
      (result : Option T) (b : Bool) (j : Job T) (scope revision : ℕ)
      → (b ≡ true → (j.scope ≡ scope) × (j.revision ≡ revision))
      → All Accepted (acceptances T (passed T b result) j scope revision)
  acceptances-Accepted none true j scope revision h = tt
  acceptances-Accepted (some a) true j scope revision h = (h refl, tt)
  acceptances-Accepted result false j scope revision h = tt

  accept-IsValid :
      (result : Option T) (j : Job T) (s : Submissions T)
      → job_at T j.number s.jobs ≡ some j
      → is_live j.point ≡ true
      → IsValid s
      → IsValid (advance T j (received result) refused s)
  unfolding advance
  accept-IsValid result j s f l v =
      let b = j.revision == s.revision in
      move-IsValid j.number j (finishing (passed T b result)) _ f l refl (record {
        fits = λ m k g.
            let w = v.fits m k g in
            record {
              number = w.number;
              fresh = w.fresh;
              gone = w.gone;
              age = w.age;
              in_scope = w.in_scope;
              kept = w.kept;
            };
        all_accepted = All-append Accepted s.accepted _ v.all_accepted (
            acceptances-Accepted result b j s.scope s.revision
              (λ e. ((v.fits j.number j f).in_scope (ground arith), ground arith)));
      })

  ask-IsValid :
      (b : Bool) (j : Job T) (s : Submissions T)
      → job_at T j.number s.jobs ≡ some j
      → is_live j.point ≡ true
      → IsValid s
      → IsValid (
          if b
          then move T j.number requesting (record s { asked = s.asked ++ j.id ∷ [] })
          else move T j.number (received none) s)
  ask-IsValid true j s f l v = move-IsValid j.number j requesting _ f l refl (record {
    fits = λ m k g.
        let w = v.fits m k g in
        record {
          number = w.number;
          fresh = w.fresh;
          gone = w.gone;
          age = w.age;
          in_scope = w.in_scope;
          kept = w.kept;
        };
    all_accepted = v.all_accepted;
  })
  ask-IsValid false j s f l v = move-IsValid j.number j (received none) s f l refl v

  advance-IsValid :
      (j : Job T) (point : Point T) (reply : Reply T) (s : Submissions T)
      → job_at T j.number s.jobs ≡ some j
      → j.point ≡ point
      → IsValid s
      → IsValid (advance T j point reply s)
  unfolding advance
  advance-IsValid j queued reply s f p v =
      ask-IsValid (j.revision == s.revision) j s f (ground arith) v
  advance-IsValid j requesting reply s f p v =
      move-IsValid j.number j (answered T reply) s f (ground arith) (is_live-answered reply) v
  advance-IsValid j (received result) reply s f p v = accept-IsValid result j s f (ground arith) v
  advance-IsValid j (finishing result) reply s f p v =
      finish-IsValid j.number j (resolved result) s f refl v
  advance-IsValid j failing reply s f p v = finish-IsValid j.number j rejected s f refl v
  advance-IsValid j (resolved result) reply s f p v = v
  advance-IsValid j rejected reply s f p v = v

  step_job-IsValid :
      (n : ℕ) (o : Option (Job T)) (reply : Reply T) (s : Submissions T)
      → job_at T n s.jobs ≡ o
      → IsValid s
      → IsValid (step_job T o reply s)
  unfolding step_job
  step_job-IsValid n none reply s e v = v
  step_job-IsValid n (some j) reply s e v =
      advance-IsValid j j.point reply s (ground (arith, v.fits n j)) refl v

  run-IsValid :
      (id : ℕ) (o : Option ℕ) (s : Submissions T)
      → lookup ℕ_discrete id s.requests ≡ o
      → IsValid s
      → IsValid (run_new T id o s)
  unfolding run_new
  run-IsValid id (some existing) s e v = v
  run-IsValid id none s e v = run_new-IsValid id s e v

  pub handle-IsValid : (e : Event T) (s : Submissions T) → IsValid s → IsValid (handle T e s)
  unfolding handle run step
  handle-IsValid (scoped scope) s v = set_scope-IsValid scope s v
  handle-IsValid (ran id) s v = run-IsValid id (lookup ℕ_discrete id s.requests) s refl v
  handle-IsValid (stepped number reply) s v =
      step_job-IsValid number (job_at T number s.jobs) reply s refl v

  handled-IsValid :
      (es : List (Event T)) (s : Submissions T) → IsValid s → IsValid (handle_all T es s)
  unfolding handle_all
  handled-IsValid [] s v = v
  handled-IsValid (e ∷ es) s v = handled-IsValid es (handle T e s) (handle-IsValid e s v)

  pub handle_all-IsValid :
      (es : List (Event T)) (scope : ℕ) → IsValid (handle_all T es (new_submissions T scope))
  handle_all-IsValid es scope =
      handled-IsValid es (new_submissions T scope)
        (record { fits = λ n j e. absurd (ground arith); all_accepted = tt })

  -- In any run, while the promise m made in the current revision has not settled, another run of its id
  -- changes nothing, and no other promise n of that id and revision is left unsettled.
  pub run-coalesces :
      (es : List (Event T)) (scope m n : ℕ) (j k : Job T) {s : Submissions T}
      → handle_all T es (new_submissions T scope) ≡ s
      → job_at T m s.jobs ≡ some j
      → job_at T n s.jobs ≡ some k
      → j.id ≡ k.id
      → j.revision ≡ s.revision
      → k.revision ≡ s.revision
      → is_live j.point ≡ true
      → is_live k.point ≡ true
      → (run T j.id s ≡ s) × (m ≡ n)
  unfolding run run_new
  run-coalesces es scope m n j k reached e f same p q l o =
      let v = subst IsValid reached (handle_all-IsValid es scope) in
      ground (arith, v.fits m j, v.fits n k)
