-- ===== src/Selection/Pool.antt =====
-- The workers that enqueue the selected illustrations: `enqueueSelection` of
-- frontend/src/features/downloads/selection-state.ts. A worker waits for one request at a time; a step
-- is what follows the answer up to its next request. Whether the batch is current is asked anew each
-- time, and the answers are arguments.
use pixiv_biu.Base.{
  ℕ, suc, zero, Bool, true, false, not, Option, none, some, List, [], ◌∷◌, ◌++◌, if◌then◌else◌,
  unique, ℕ_discrete,
}

-- A rejected request counts as `failed`, as one that gives nothing does.
pub data EnqueueResult : Type 0 where
  added existing failed : EnqueueResult

pub record BatchResult : Type 0 where
  pub added : List ℕ
  pub existing : List ℕ
  pub failed : List ℕ

-- `queue` has the ids from the cursor on, a worker the id it waits for, and `asked` all that `enqueue`
-- was called with.
pub record Pool : Type 0 where
  pub queue : List ℕ
  pub workers : List (Option ℕ)
  pub result : BatchResult
  pub completed : ℕ
  pub asked : List ℕ

-- The head of a worker's loop: it takes an id, if there is one.
pub record Taken : Type 0 where
  pub worker : Option ℕ
  pub rest : List ℕ
  pub calls : List ℕ

abbrev pub take_next : Bool → List ℕ → Taken
take_next false queue = record { worker = none; rest = queue; calls = [] }
take_next true [] = record { worker = none; rest = []; calls = [] }
take_next true (id ∷ queue) = record { worker = some id; rest = queue; calls = id ∷ [] }

abbrev pub begin_worker : Bool → Pool → Pool
begin_worker is_current p =
    let t = take_next is_current p.queue in
    record p { queue = t.rest; workers = p.workers ++ t.worker ∷ []; asked = p.asked ++ t.calls }

-- At most so many workers start, and no more than there are ids.
unfoldable pub begin_workers : ℕ → List ℕ → Bool → Pool → Pool
begin_workers zero ids is_current p = p
begin_workers (suc n) [] is_current p = p
begin_workers (suc n) (id ∷ ids) is_current p =
    begin_workers n ids is_current (begin_worker is_current p)

abbrev pub max_workers : ℕ
max_workers = 4

unfoldable pub enqueue_selection : List ℕ → Bool → Pool
unfolding begin_workers
enqueue_selection ids is_current =
    let unique_ids = unique ℕ_discrete ids in
    begin_workers max_workers unique_ids is_current (record {
      queue = unique_ids;
      workers = [];
      result = record { added = []; existing = []; failed = [] };
      completed = 0;
      asked = [];
    })

unfoldable pub recorded : EnqueueResult → ℕ → BatchResult → BatchResult
recorded EnqueueResult.added id r = record r { added = r.added ++ id ∷ [] }
recorded EnqueueResult.existing id r = record r { existing = r.existing ++ id ∷ [] }
recorded EnqueueResult.failed id r = record r { failed = r.failed ++ id ∷ [] }

-- What is answered, and whether the batch is current at the answer and after the progress was told.
pub record Settled : Type 0 where
  pub outcome : EnqueueResult
  pub is_current : Bool
  pub still_current : Bool

abbrev pub set_worker : ℕ → Option ℕ → List (Option ℕ) → List (Option ℕ)
set_worker i w [] = []
set_worker zero w (v ∷ ws) = w ∷ ws
set_worker (suc i) w (v ∷ ws) = v ∷ set_worker i w ws

abbrev pub worker_at : ℕ → List (Option ℕ) → Option ℕ
worker_at i [] = none
worker_at zero (w ∷ ws) = w
worker_at (suc i) (w ∷ ws) = worker_at i ws

-- The request of worker `i`, for `id`, is answered.
unfoldable pub settle_id : ℕ → Settled → ℕ → Pool → Pool
unfolding recorded
settle_id i a id p =
    let t = take_next a.still_current p.queue in
    if not a.is_current then record p { workers = set_worker i none p.workers } else record p {
      result = recorded a.outcome id p.result;
      completed = suc p.completed;
      queue = t.rest;
      workers = set_worker i t.worker p.workers;
      asked = p.asked ++ t.calls;
    }

unfoldable pub settle_worker : ℕ → Settled → Option ℕ → Pool → Pool
unfolding settle_id
settle_worker i a none p = p
settle_worker i a (some id) p = settle_id i a id p

-- Any worker's request may be answered next.
unfoldable pub settle : ℕ × Settled → Pool → Pool
unfolding settle_worker
settle (i, a) p = settle_worker i a (worker_at i p.workers) p

unfoldable pub settle_all : List (ℕ × Settled) → Pool → Pool
settle_all [] p = p
settle_all (step ∷ steps) p = settle_all steps (settle step p)
