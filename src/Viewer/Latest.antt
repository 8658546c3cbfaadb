-- ===== src/Viewer/Latest.antt =====
-- The stage shows the latest selection, and nothing that was superseded
-- (frontend/src/features/illusts/illust-viewer/stage-transition.ts).
use pixiv_biu.Base.{
  ℕ, ◌+◌, ◌≤◌, ◌<◌, ◌≡◌, ◌≢◌, ◌⊎◌, inl, inr, refl, sym, ap, subst, Option, none, some, List, [],
  ◌∷◌, arith, Bool, true, false, All, ◌==◌, Bool-cases,
}
use pixiv_biu.Viewer.Stage.{
  StageTarget, StageFrame, idle, loading, StageTransition, Action, select, retry, ready, fail,
  prepare, shows, same, is_candidate, create_stage_transition, stage_transition, run,
}

abbrev pub frame : StageTarget → ℕ → StageFrame
frame t id = record { target = t; id = id }

-- Without a candidate the target is on display; a candidate is the target's, under the newest id.
abbrev IsPrepared : StageTransition → Type 0
IsPrepared s = elim s.candidate [
  | none ↦ (s.phase ≡ idle) × ((id : ℕ) × (s.displayed ≡ some (frame s.target id)))
  | some f ↦ (s.phase ≢ idle) × (f ≡ frame s.target s.generation)
]

-- What is on display has an id that was given out, and is not the candidate.
abbrev IsOlder : StageTransition → Type 0
IsOlder s = elim s.displayed [
  | none ↦ Unit {0}
  | some f ↦ elim s.candidate [ none ↦ f.id ≤ s.generation | some _ ↦ f.id < s.generation ]
]

pub record IsValid (s : StageTransition) : Type 0 where
  prepared : IsPrepared s
  older : IsOlder s

same_eq : (a b : StageTarget) → same a b ≡ true → a ≡ b
unfolding same
same_eq a b h =
    let p : a.index ≡ b.index = ground arith in let q : a.src ≡ b.src = ground arith in cc

shows_lem :
    (d : Option StageFrame) (t : StageTarget)
    → shows d t ≡ true
    → (id : ℕ) × (d ≡ some (frame t id))
unfolding shows
shows_lem none t h = cc
shows_lem (some f) t h = let e : f.target ≡ t = same_eq f.target t h in (f.id, cc)

prepare-IsValid : (s : StageTransition) (t : StageTarget) → IsOlder s → IsValid (prepare s t)
unfolding prepare
prepare-IsValid s t o = elim (Bool-cases (shows s.displayed t)) [
  | inl h ↦ record {
    prepared = rw h (refl, shows_lem s.displayed t h);
    older = rw h (ground arith);
  }
  | inr h ↦ record { prepared = rw h (ground arith, refl); older = rw h (ground arith) }
]

-- The state in which the target is shown.
shown : StageTransition → StageTransition
shown s = record s {
  displayed = some (frame s.target s.generation);
  candidate = none;
  phase = idle;
}

ready_lem :
    (s : StageTransition) (id : ℕ)
    → IsValid s
    → (stage_transition s (ready id) ≡ s)
      ⊎ ((id ≡ s.generation) × (stage_transition s (ready id) ≡ shown s))
unfolding stage_transition shown
ready_lem s id v = ground arith

ready-IsValid : (s : StageTransition) (id : ℕ) → IsValid s → IsValid (stage_transition s (ready id))
unfolding shown
ready-IsValid s id v = elim (ready_lem s id v) [
  | inl e ↦ subst IsValid (sym e) v
  | inr (_, e) ↦
      subst IsValid (sym e)
        (record { prepared = (refl, (s.generation, refl)); older = omega arith })
]

fail-IsValid : (s : StageTransition) (id : ℕ) → IsValid s → IsValid (stage_transition s (fail id))
unfolding stage_transition
fail-IsValid s id v = record { prepared = ground arith; older = ground arith }

stage_transition-IsValid :
    (s : StageTransition) (a : Action) → IsValid s → IsValid (stage_transition s a)
unfolding stage_transition
stage_transition-IsValid s (select t) v = ground (arith, prepare-IsValid s t v.older)
stage_transition-IsValid s retry v = ground (arith, prepare-IsValid s s.target v.older)
stage_transition-IsValid s (ready id) v = ready-IsValid s id v
stage_transition-IsValid s (fail id) v = fail-IsValid s id v

-- From a valid state, what is on display changes in one way only: the latest candidate reports that
-- it is ready, and then it is the target that is shown, as that candidate.
pub stage_transition-displayed :
    (s : StageTransition) (a : Action)
    → IsValid s
    → ((stage_transition s a).displayed ≡ s.displayed)
      ⊎ ((a ≡ ready s.generation)
          × ((stage_transition s a).displayed ≡ some (frame s.target s.generation)))
unfolding stage_transition prepare
stage_transition-displayed s (select t) v = inl (ground arith)
stage_transition-displayed s retry v = inl (ground arith)
stage_transition-displayed s (ready id) v = elim (ready_lem s id v) [
  | inl e ↦ inl (ap (λ (t : StageTransition). t.displayed) e)
  | inr (i, e) ↦ inr (ap ready i, unfold shown in ap (λ (t : StageTransition). t.displayed) e)
]
stage_transition-displayed s (fail id) v = inl (ground arith)

-- Every run of actions from a valid state ends in a valid one: without a candidate the stage is idle
-- and shows the target; a candidate is the target's, under the newest id; and what is on display has
-- an id that was given out, which is not the candidate's.
pub run-IsValid :
    (s : StageTransition) (actions : List Action) → IsValid s → IsValid (run s actions)
unfolding run
run-IsValid s [] v = v
run-IsValid s (a ∷ actions) v =
    run-IsValid (stage_transition s a) actions (stage_transition-IsValid s a v)

pub create_stage_transition-IsValid : (t : StageTarget) → IsValid (create_stage_transition t)
unfolding create_stage_transition
create_stage_transition-IsValid t =
    prepare-IsValid
      (record { target = t; displayed = none; candidate = none; phase = idle; generation = 0 }) t tt

-- A report about another candidate than the latest.
abbrev pub IsLate : ℕ → Action → Type 0
IsLate generation (ready id) = id ≢ generation
IsLate generation (fail id) = id ≢ generation
IsLate generation _ = ⊥

stage_transition-late :
    (s : StageTransition) (a : Action)
    → IsValid s
    → IsLate s.generation a
    → stage_transition s a ≡ s
unfolding stage_transition
stage_transition-late s (ready id) v h = ground arith
stage_transition-late s (fail id) v h = ground arith
stage_transition-late s (select t) v h = absurd h
stage_transition-late s retry v h = absurd h

run-late :
    (s : StageTransition) (actions : List Action)
    → IsValid s
    → All (IsLate s.generation) actions
    → run s actions ≡ s
unfolding run
run-late s [] v h = refl
run-late s (a ∷ actions) v (h, hs) =
    let e = stage_transition-late s a v h in rw e (run-late s actions v hs)

ready_shown :
    (s : StageTransition)
    → IsValid s
    → s.phase ≡ loading
    → stage_transition s (ready s.generation) ≡ shown s
unfolding stage_transition shown
ready_shown s v l = ground arith

run_shows :
    (s : StageTransition) (actions : List Action)
    → IsValid s
    → s.phase ≡ loading
    → All (IsLate s.generation) actions
    → stage_transition (run s actions) (ready s.generation) ≡ shown s
run_shows s actions v l h = rw (run-late s actions v h) (ready_shown s v l)

-- The state in which a new target loads.
loaded : StageTransition → StageTarget → StageTransition
loaded s t = record s {
  target = t;
  generation = s.generation + 1;
  candidate = some (frame t (s.generation + 1));
  phase = loading;
}

select_loads :
    (s : StageTransition) (t : StageTarget)
    → same s.target t ≡ false
    → shows s.displayed t ≡ false
    → stage_transition s (select t) ≡ loaded s t
unfolding stage_transition prepare loaded
select_loads s t n d = rw (n, d) refl

-- From a valid state, select what is neither the target nor on display, and let any reports about
-- other candidates follow: when the new candidate is ready, the selection is shown as that candidate,
-- and the stage is idle.
pub select_shows :
    (s : StageTransition) (t : StageTarget) (late : List Action)
    → IsValid s
    → same s.target t ≡ false
    → shows s.displayed t ≡ false
    → All (IsLate (s.generation + 1)) late
    → stage_transition (run s (select t ∷ late)) (ready (s.generation + 1)) ≡ record {
      target = t;
      displayed = some (frame t (s.generation + 1));
      candidate = none;
      phase = idle;
      generation = s.generation + 1;
    }
unfolding run loaded shown
select_shows s t late v n d h =
    let e = select_loads s t n d in
    let w = subst IsValid e (stage_transition-IsValid s (select t) v) in
    rw e (run_shows (loaded s t) late w refl h)

-- Is the candidate `id` on display?
abbrev pub is_shown : ℕ → StageTransition → Bool
is_shown id s = elim s.displayed [ none ↦ false | some f ↦ f.id == id ]

-- The candidate `id` has been given out, is neither the candidate nor on display, and so never again.
record IsPassed (id : ℕ) (s : StageTransition) : Type 0 where
  given_out : id ≤ s.generation
  passed_over : is_candidate s id ≡ false
  hidden : is_shown id s ≡ false

generation-le :
    (s : StageTransition) (a : Action) → s.generation ≤ (stage_transition s a).generation
unfolding stage_transition prepare
generation-le s (select t) = ground arith
generation-le s retry = ground arith
generation-le s (ready id) = ground arith
generation-le s (fail id) = ground arith

prepare-IsPassed :
    (id : ℕ) (s : StageTransition) (t : StageTarget) → IsPassed id s → IsPassed id (prepare s t)
unfolding prepare
prepare-IsPassed id s t p = record {
  given_out = ground (arith, p.given_out);
  passed_over = ground (arith, p.given_out);
  hidden = ground (arith, p.hidden);
}

stage_transition-IsPassed :
    (id : ℕ) (s : StageTransition) (a : Action) → IsPassed id s → IsPassed id (stage_transition s a)
unfolding stage_transition
stage_transition-IsPassed id s (select t) p = ground (arith, prepare-IsPassed id s t p)
stage_transition-IsPassed id s retry p = ground (arith, prepare-IsPassed id s s.target p)
stage_transition-IsPassed id s (ready i) p = record {
  given_out = ground (arith, p.given_out);
  passed_over = ground (arith, p.passed_over);
  hidden = ground (arith, p.hidden, p.passed_over);
}
stage_transition-IsPassed id s (fail i) p = record {
  given_out = ground (arith, p.given_out);
  passed_over = ground (arith, p.passed_over);
  hidden = ground (arith, p.hidden);
}

run-IsPassed :
    (id : ℕ) (s : StageTransition) (actions : List Action)
    → IsPassed id s
    → IsPassed id (run s actions)
unfolding run
run-IsPassed id s [] p = p
run-IsPassed id s (a ∷ actions) p =
    run-IsPassed id (stage_transition s a) actions (stage_transition-IsPassed id s a p)

select-IsPassed :
    (id : ℕ) (s : StageTransition) (t : StageTarget)
    → IsValid s
    → is_candidate s id ≡ true
    → same s.target t ≡ false
    → IsPassed id (stage_transition s (select t))
unfolding stage_transition prepare
select-IsPassed id s t v c n = record {
  given_out = ground (arith, v.prepared, v.older);
  passed_over = ground (arith, v.prepared, v.older);
  hidden = ground (arith, v.prepared, v.older);
}

-- From a valid state, once another target is selected while the candidate `id` is pending, no run of actions
-- shows that candidate, also where the selection goes back to what is on display.
pub run_never_shows :
    (id : ℕ) (s : StageTransition) (t : StageTarget) (actions : List Action)
    → IsValid s
    → is_candidate s id ≡ true
    → same s.target t ≡ false
    → is_shown id (run s (select t ∷ actions)) ≡ false
unfolding run
run_never_shows id s t actions v c n =
    (run-IsPassed id (stage_transition s (select t)) actions (select-IsPassed id s t v c n)).hidden
