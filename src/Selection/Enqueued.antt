-- ===== src/Selection/Enqueued.antt =====
-- What becomes of the selected illustrations (frontend/src/features/downloads/selection-state.ts).
use pixiv_biu.Base.{
  ℕ, suc, zero, ◌≤◌, ◌≡◌, ◌∙◌, refl, subst, ap, arith, Bool, true, false, ◌&&◌, Option, none, some,
  List, [], ◌∷◌, if◌then◌else◌, unique, includes, Distinct, includes-unique, unique-Distinct,
  ℕ_discrete,
}
use pixiv_biu.Selection.Pool.{
  Pool, begin_worker, begin_workers, max_workers, enqueue_selection, Settled, worker_at,
  settle_worker, settle, settle_all,
}
use pixiv_biu.Selection.Tally.{
  count, count_workers, any_waits, is_nil, listed, IsTallied, begin_worker-IsTallied,
  settle_id-IsTallied, goes_on, begin_worker-goes_on, settle_id-goes_on,
}

abbrev pub all_current : List (ℕ × Settled) → Bool
all_current [] = true
all_current ((i, a) ∷ steps) = (a.is_current && a.still_current) && all_current steps

abbrev new_pool : List ℕ → Pool
new_pool queue = record {
  queue = queue;
  workers = [];
  result = record { added = []; existing = []; failed = [] };
  completed = 0;
  asked = [];
}

module _ (x : ℕ) (ids : List ℕ) where
  new_pool-IsTallied : (b : Bool) → IsTallied x ids b (new_pool ids)
  new_pool-IsTallied b = record {
    shared = omega arith;
    at_most = omega arith;
    none_lost = λ h. omega arith;
  }

  begin_workers-IsTallied :
      (n : ℕ) (rest : List ℕ) (b c : Bool) (p : Pool)
      → IsTallied x ids b p
      → IsTallied x ids b (begin_workers n rest c p)
  unfolding begin_workers
  begin_workers-IsTallied zero rest b c p t = t
  begin_workers-IsTallied (suc n) [] b c p t = t
  begin_workers-IsTallied (suc n) (id ∷ rest) b c p t =
      begin_workers-IsTallied n rest b c (begin_worker c p) (begin_worker-IsTallied x ids b c p t)

  weaker : (b : Bool) (p : Pool) → IsTallied x ids b p → IsTallied x ids false p
  weaker b p t = record { shared = t.shared; at_most = t.at_most; none_lost = λ h. cc }

  settle_worker-IsTallied :
      (i : ℕ) (a : Settled) (w : Option ℕ) (b : Bool) (p : Pool)
      → worker_at i p.workers ≡ w
      → IsTallied x ids b p
      → IsTallied x ids (b && a.is_current) (settle_worker i a w p)
  unfolding settle_worker
  settle_worker-IsTallied i a none b p e t = record {
    shared = t.shared;
    at_most = t.at_most;
    none_lost = λ h. t.none_lost (ground arith);
  }
  settle_worker-IsTallied i a (some id) b p e t = settle_id-IsTallied x ids b i a id p e t

  settle_all-IsTallied :
      (steps : List (ℕ × Settled)) (p : Pool)
      → IsTallied x ids false p
      → IsTallied x ids false (settle_all steps p)
  unfolding settle_all settle
  settle_all-IsTallied [] p t = t
  settle_all-IsTallied ((i, a) ∷ steps) p t = settle_all-IsTallied steps (settle (i, a) p) (
      weaker (false && a.is_current) (settle (i, a) p)
        (settle_worker-IsTallied i a (worker_at i p.workers) false p refl t))

  current-IsTallied :
      (steps : List (ℕ × Settled)) (p : Pool)
      → all_current steps ≡ true
      → IsTallied x ids true p
      → IsTallied x ids true (settle_all steps p)
  unfolding settle_all settle
  current-IsTallied [] p c t = t
  current-IsTallied ((i, a) ∷ steps) p c t =
      current-IsTallied steps (settle (i, a) p) (ground arith) (
        subst (λ b. IsTallied x ids b (settle (i, a) p)) (ground arith)
          (settle_worker-IsTallied i a (worker_at i p.workers) true p refl t))

settle_worker-goes_on :
    (i : ℕ) (a : Settled) (w : Option ℕ) (p : Pool)
    → worker_at i p.workers ≡ w
    → (a.is_current && a.still_current) ≡ true
    → goes_on p ≡ true
    → goes_on (settle_worker i a w p) ≡ true
unfolding settle_worker
settle_worker-goes_on i a none p e c g = g
settle_worker-goes_on i a (some id) p e c g = settle_id-goes_on i a id p e c

settle_all-goes_on :
    (steps : List (ℕ × Settled)) (p : Pool)
    → all_current steps ≡ true
    → goes_on p ≡ true
    → goes_on (settle_all steps p) ≡ true
unfolding settle_all settle
settle_all-goes_on [] p c g = g
settle_all-goes_on ((i, a) ∷ steps) p c g =
    settle_all-goes_on steps (settle (i, a) p) (ground arith)
      (settle_worker-goes_on i a (worker_at i p.workers) p refl (ground arith) g)

begin_workers-goes_on :
    (n : ℕ) (ids : List ℕ) (p : Pool)
    → goes_on p ≡ true
    → goes_on (begin_workers n ids true p) ≡ true
unfolding begin_workers
begin_workers-goes_on zero ids p g = g
begin_workers-goes_on (suc n) [] p g = g
begin_workers-goes_on (suc n) (id ∷ ids) p g =
    begin_workers-goes_on n ids (begin_worker true p) (begin_worker-goes_on p)

new_pool-goes_on :
    (n : ℕ) (ids : List ℕ) → goes_on (begin_workers (suc n) ids true (new_pool ids)) ≡ true
unfolding begin_workers
new_pool-goes_on n [] = refl
new_pool-goes_on n (id ∷ ids) =
    begin_workers-goes_on n ids (begin_worker true (new_pool (id ∷ ids)))
      (begin_worker-goes_on (new_pool (id ∷ ids)))

-- 1 for a selected illustration, and else 0.
abbrev pub selected_once : ℕ → List ℕ → ℕ
selected_once x ids = if includes ℕ_discrete x ids then 1 else 0

count-Distinct : (x : ℕ) (xs : List ℕ) → Distinct ℕ_discrete xs → count x xs ≡ selected_once x xs
count-Distinct x [] d = refl
count-Distinct x (y ∷ ys) (d, ds) = elim (ℕ_discrete y x) [
  | yes e ↦ ground (arith, count-Distinct x ys ds, d, e)
  | no n ↦ ground (arith, count-Distinct x ys ds, n)
]

none_waits : (x : ℕ) (ws : List (Option ℕ)) → any_waits ws ≡ false → count_workers x ws ≡ 0
none_waits x [] h = refl
none_waits x (none ∷ ws) h = ground (arith, none_waits x ws h)
none_waits x (some id ∷ ws) h = cc

queue_done : (x : ℕ) (queue : List ℕ) → is_nil queue ≡ true → count x queue ≡ 0
queue_done x [] h = refl
queue_done x (id ∷ queue) h = cc

count-unique : (x : ℕ) (ids : List ℕ) → count x (unique ℕ_discrete ids) ≡ selected_once x ids
count-unique x ids =
    count-Distinct x (unique ℕ_discrete ids) (unique-Distinct ℕ_discrete ids)
    ∙ ap (λ b. if b then 1 else 0) (includes-unique ℕ_discrete x ids)

-- Whatever the requests answer, in whatever order and however long the batch is current, an illustration
-- is asked for at most once, stands in the result at most once, and only if it was selected.
pub settle_all-once :
    (ids : List ℕ) (is_current : Bool) (steps : List (ℕ × Settled)) (x : ℕ)
    → let p = settle_all steps (enqueue_selection ids is_current) in
      (count x p.asked ≤ selected_once x ids) × (listed x p.result ≤ selected_once x ids)
unfolding enqueue_selection
settle_all-once ids is_current steps x =
    let us = unique ℕ_discrete ids in
    let t = settle_all-IsTallied x us steps (enqueue_selection ids is_current) (
      begin_workers-IsTallied x us max_workers us false is_current (new_pool us)
        (new_pool-IsTallied x us false)) in
    ground (arith, t.shared, t.at_most, count-unique x ids)

-- If the batch stays current and no worker waits any more, each selected illustration stands exactly once
-- among the added, the existing and the failed ones, and no other illustration does.
pub settle_all-listed :
    (ids : List ℕ) (steps : List (ℕ × Settled)) (x : ℕ)
    → all_current steps ≡ true
    → any_waits (settle_all steps (enqueue_selection ids true)).workers ≡ false
    → listed x (settle_all steps (enqueue_selection ids true)).result ≡ selected_once x ids
unfolding enqueue_selection
settle_all-listed ids steps x c w =
    let us = unique ℕ_discrete ids in
    let p = settle_all steps (enqueue_selection ids true) in
    let t = current-IsTallied x us steps (enqueue_selection ids true) c (
      begin_workers-IsTallied x us max_workers us true true (new_pool us)
        (new_pool-IsTallied x us true)) in
    let g = settle_all-goes_on steps (enqueue_selection ids true) c (new_pool-goes_on 3 us) in
    let gone = none_waits x p.workers w in
    let nothing_left = queue_done x p.queue (ground arith) in
    ground (arith, t.shared, t.at_most, t.none_lost refl, gone, nothing_left, count-unique x ids)
