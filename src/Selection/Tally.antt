-- ===== src/Selection/Tally.antt =====
-- Every selected illustration is enqueued once (frontend/src/features/downloads/selection-state.ts).
use pixiv_biu.Base.{
  ℕ, suc, zero, ◌+◌, ◌≤◌, ◌≡◌, arith, Bool, true, false, ◌&&◌, ◌||◌, Option, none, some, List, [],
  ◌∷◌, ◌++◌, is_some, ℕ_discrete, ite,
}
use pixiv_biu.Selection.Pool.{
  EnqueueResult, added, existing, failed, BatchResult, Pool, take_next, begin_worker, recorded,
  Settled, set_worker, worker_at, settle_id,
}

abbrev pub hit : ℕ → ℕ → ℕ
hit x id = ite (ℕ_discrete id x) 1 0

abbrev pub count : ℕ → List ℕ → ℕ
count x [] = 0
count x (id ∷ ids) = hit x id + count x ids

abbrev pub waits_for : ℕ → Option ℕ → ℕ
waits_for x none = 0
waits_for x (some id) = hit x id

abbrev pub count_workers : ℕ → List (Option ℕ) → ℕ
count_workers x [] = 0
count_workers x (w ∷ ws) = waits_for x w + count_workers x ws

abbrev pub any_waits : List (Option ℕ) → Bool
any_waits [] = false
any_waits (w ∷ ws) = is_some w || any_waits ws

abbrev pub is_nil : List ℕ → Bool
is_nil [] = true
is_nil (x ∷ xs) = false

-- In how many places of the result an id stands.
abbrev pub listed : ℕ → BatchResult → ℕ
listed x r = count x r.added + count x r.existing + count x r.failed

count-++ : (x : ℕ) (xs ys : List ℕ) → count x (xs ++ ys) ≡ count x xs + count x ys
count-++ x [] ys = omega arith
count-++ x (id ∷ xs) ys = ground (arith, count-++ x xs ys)

count_workers-++ :
    (x : ℕ) (ws : List (Option ℕ)) (w : Option ℕ)
    → count_workers x (ws ++ w ∷ []) ≡ count_workers x ws + waits_for x w
count_workers-++ x [] w = ground arith
count_workers-++ x (v ∷ ws) w = ground (arith, count_workers-++ x ws w)

any_waits-++ :
    (ws : List (Option ℕ)) (w : Option ℕ) → any_waits (ws ++ w ∷ []) ≡ (any_waits ws || is_some w)
any_waits-++ [] w = ground arith
any_waits-++ (v ∷ ws) w = ground (arith, any_waits-++ ws w)

set_worker-count :
    (x i id : ℕ) (w : Option ℕ) (ws : List (Option ℕ))
    → worker_at i ws ≡ some id
    → count_workers x (set_worker i w ws) + hit x id ≡ count_workers x ws + waits_for x w
set_worker-count x i id w [] e = ground arith
set_worker-count x zero id w (v ∷ ws) e = ground arith
set_worker-count x (suc i) id w (v ∷ ws) e = ground (arith, set_worker-count x i id w ws e)

set_worker-any_waits :
    (i id : ℕ) (w : Option ℕ) (ws : List (Option ℕ))
    → worker_at i ws ≡ some id
    → is_some w ≡ true
    → any_waits (set_worker i w ws) ≡ true
set_worker-any_waits i id w [] e h = ground arith
set_worker-any_waits zero id w (v ∷ ws) e h = ground arith
set_worker-any_waits (suc i) id w (v ∷ ws) e h = ground (arith, set_worker-any_waits i id w ws e h)

module _ (x : ℕ) (ids : List ℕ) where
  -- Of the ids `x`, so many are in the queue, asked for, waited for and listed. None is lost while the
  -- batch is current.
  pub record IsTallied (is_current : Bool) (p : Pool) : Type 0 where
    pub shared : count x p.asked + count x p.queue ≡ count x ids
    pub at_most : listed x p.result + count_workers x p.workers ≤ count x p.asked
    pub none_lost :
        is_current ≡ true → count x p.asked ≤ listed x p.result + count_workers x p.workers

  pub begin_worker-IsTallied :
      (b c : Bool) (p : Pool) → IsTallied b p → IsTallied b (begin_worker c p)
  begin_worker-IsTallied b c p t =
      let u = take_next c p.queue in
      ground (arith, count-++ x p.asked u.calls, count_workers-++ x p.workers u.worker)

  recorded-listed :
      (o : EnqueueResult) (id : ℕ) (r : BatchResult)
      → listed x (recorded o id r) ≡ listed x r + hit x id
  unfolding recorded
  recorded-listed added id r = ground (arith, count-++ x r.added (id ∷ []))
  recorded-listed existing id r = ground (arith, count-++ x r.existing (id ∷ []))
  recorded-listed failed id r = ground (arith, count-++ x r.failed (id ∷ []))

  pub settle_id-IsTallied :
      (b : Bool) (i : ℕ) (a : Settled) (id : ℕ) (p : Pool)
      → worker_at i p.workers ≡ some id
      → IsTallied b p
      → IsTallied (b && a.is_current) (settle_id i a id p)
  unfolding settle_id
  settle_id-IsTallied b i a id p e t =
      let u = take_next a.still_current p.queue in
      ground (
        arith,
        count-++ x p.asked u.calls,
        recorded-listed a.outcome id p.result,
        set_worker-count x i id u.worker p.workers e,
        set_worker-count x i id none p.workers e,
      )

-- Some worker waits, or there is nothing left to ask for.
abbrev pub goes_on : Pool → Bool
goes_on p = any_waits p.workers || is_nil p.queue

pub begin_worker-goes_on : (p : Pool) → goes_on (begin_worker true p) ≡ true
begin_worker-goes_on p = ground (arith, any_waits-++ p.workers (take_next true p.queue).worker)

pub settle_id-goes_on :
    (i : ℕ) (a : Settled) (id : ℕ) (p : Pool)
    → worker_at i p.workers ≡ some id
    → (a.is_current && a.still_current) ≡ true
    → goes_on (settle_id i a id p) ≡ true
unfolding settle_id
settle_id-goes_on i a id p e c =
    ground (arith, set_worker-any_waits i id (take_next a.still_current p.queue).worker p.workers e)
