-- ===== src/KeepAlive/Evict.antt =====
-- What the eviction loop of frontend/src/app/keep-alive/lru.ts drops and keeps.
use pixiv_biu.Base.{
  ℕ, zero, suc, ◌+◌, ◌≤◌, ◌≡◌, ◌∙◌, refl, sym, subst, false, not, Option, none, some, List, [], ◌∷◌,
  map, arith, ltb, length, filter, All, is_some, Option-cases, Bool-cases, inl, inr, ◌⊎◌, includes,
  Distinct,
}
use pixiv_biu.KeepAlive.{Entry, older, oldest_from, remove_at, evict}

abbrev NotAfter : ℕ → Option (ℕ × ℕ) → Type 0
NotAfter t none = Unit
NotAfter t (some (_, u)) = t ≤ u

older-eq-some :
    (h : Option ℕ) (i : ℕ) (best : Option (ℕ × ℕ)) {b : ℕ × ℕ}
    → older h i best ≡ some b
    → (best ≡ some b) ⊎ ((b.0 ≡ i) × (h ≡ some b.1))
older-eq-some none i best e = inl e
older-eq-some (some t) i none e = ground arith
older-eq-some (some t) i (some (j, u)) e = ground arith

module _ {Loc : Type 0} where
  -- A hidden entry was hidden at `t` or later.
  abbrev pub IsHiddenSince : ℕ → Entry Loc → Type 0
  IsHiddenSince t e = elim e.hidden_at [ none ↦ Unit {0} | some u ↦ t ≤ u ]

  abbrev pub IsVisible : Entry Loc → Type 0
  IsVisible e = e.hidden_at ≡ none

  abbrev pub visible : List (Entry Loc) → List (Entry Loc)
  visible = filter (λ e. not (is_some e.hidden_at))

  oldest_from-le :
      (i : ℕ) (best : Option (ℕ × ℕ)) (es : List (Entry Loc)) {j t : ℕ}
      → oldest_from i best es ≡ some (j, t)
      → NotAfter t best × All (IsHiddenSince t) es
  unfolding oldest_from
  oldest_from-le i none [] h = cc
  oldest_from-le i (some b) [] h = ground arith
  oldest_from-le i best (e ∷ es) h =
      ground (arith, oldest_from-le (suc i) (older e.hidden_at i best) es h)

  oldest_from-none :
      (i : ℕ) (best : Option (ℕ × ℕ)) (es : List (Entry Loc))
      → oldest_from i best es ≡ none
      → (best ≡ none) × All IsVisible es
  unfolding oldest_from
  oldest_from-none i best [] h = (h, tt)
  oldest_from-none i best (e ∷ es) h =
      let rest = oldest_from-none (suc i) (older e.hidden_at i best) es h in
      let (a, b) = older-none e.hidden_at i best rest.0 in (a, (b, rest.1))
    where
      older-none :
          (h : Option ℕ) (i : ℕ) (best : Option (ℕ × ℕ))
          → older h i best ≡ none
          → (best ≡ none) × (h ≡ none)
      older-none none i best e = (e, refl)
      older-none (some t) i none e = cc
      older-none (some t) i (some (j, u)) e = ground arith

  -- The stamp of the entry at a place.
  abbrev stamp_at : List (Entry Loc) → ℕ → Option ℕ
  stamp_at [] p = none
  stamp_at (e ∷ es) zero = e.hidden_at
  stamp_at (e ∷ es) (suc p) = stamp_at es p

  oldest_from-at :
      (i : ℕ) (best : Option (ℕ × ℕ)) (es : List (Entry Loc)) {b : ℕ × ℕ}
      → oldest_from i best es ≡ some b
      → (best ≡ some b) ⊎ ((p : ℕ) × (b.0 ≡ i + p) × (stamp_at es p ≡ some b.1))
  unfolding oldest_from
  oldest_from-at i best [] h = inl h
  oldest_from-at i best (e ∷ es) h = elim (oldest_from-at (suc i) (older e.hidden_at i best) es h) [
    | inr (p, q, r) ↦ inr (suc p, omega arith, r)
    | inl b ↦ elim (older-eq-some e.hidden_at i best b) [
      | inl c ↦ inl c
      | inr (q, r) ↦ inr (0, omega arith, r)
    ]
  ]

  -- The entry that a round drops is hidden, and every other one was hidden no earlier.
  pub oldest_lem :
      (es : List (Entry Loc)) {p t : ℕ}
      → oldest_from 0 none es ≡ some (p, t)
      → (stamp_at es p ≡ some t) × All (IsHiddenSince t) es
  oldest_lem es {p} {t} h = elim (oldest_from-at 0 none es h) [
    | inl b ↦ cc
    | inr (q, e, r) ↦ let e' : p ≡ q = omega arith in (rw e' r, (oldest_from-le 0 none es h).1)
  ]

  module _ (P : Entry Loc → Type 0) where
    All-remove_at : (p : ℕ) (es : List (Entry Loc)) → All P es → All P (remove_at p es)
    unfolding remove_at
    All-remove_at p [] h = tt
    All-remove_at zero (e ∷ es) h = h.1
    All-remove_at (suc p) (e ∷ es) h = (h.0, All-remove_at p es h.1)

  visible-remove_at :
      (p : ℕ) (es : List (Entry Loc)) {t : ℕ}
      → stamp_at es p ≡ some t
      → visible (remove_at p es) ≡ visible es
  unfolding remove_at
  visible-remove_at p [] h = refl
  visible-remove_at zero (e ∷ es) h = ground arith
  visible-remove_at (suc p) (e ∷ es) h = ground (arith, visible-remove_at p es h)

  length-remove_at :
      (p : ℕ) (es : List (Entry Loc)) {t : ℕ}
      → stamp_at es p ≡ some t
      → length (remove_at p es) + 1 ≡ length es
  unfolding remove_at
  length-remove_at p [] h = cc
  length-remove_at zero (e ∷ es) h = omega arith
  length-remove_at (suc p) (e ∷ es) h = omega (arith, length-remove_at p es h)

  -- The second list is the first without some entries, all hidden at `t` or before.
  pub data Drops (t : ℕ) : List (Entry Loc) → List (Entry Loc) → Type 0 where
    done : Drops t [] []
    keep : (e : Entry Loc) {es out : List (Entry Loc)} → Drops t es out → Drops t (e ∷ es) (e ∷ out)
    drop :
        (e : Entry Loc) {es out : List (Entry Loc)} (u : ℕ)
        → e.hidden_at ≡ some u
        → u ≤ t
        → Drops t es out
        → Drops t (e ∷ es) out

  Drops-refl : (t : ℕ) (es : List (Entry Loc)) → Drops t es es
  Drops-refl t [] = done
  Drops-refl t (e ∷ es) = keep e (Drops-refl t es)

  Drops-remove_at :
      (t p : ℕ) (es : List (Entry Loc)) {u : ℕ} {out : List (Entry Loc)}
      → stamp_at es p ≡ some u
      → u ≤ t
      → Drops t (remove_at p es) out
      → Drops t es out
  unfolding remove_at
  Drops-remove_at t p [] h le d = cc
  Drops-remove_at t zero (e ∷ es) {u} h le d = drop e u h le d
  Drops-remove_at t (suc p) (e ∷ es) h le (keep _ d) = keep e (Drops-remove_at t p es h le d)
  Drops-remove_at t (suc p) (e ∷ es) h le (drop _ v q r d) =
      drop e v q r (Drops-remove_at t p es h le d)

  -- A round ends the loop or drops the entry hidden first.
  abbrev Round : ℕ → ℕ → List (Entry Loc) → Type 0
  Round fuel max es =
      (p : ℕ) × (t : ℕ) × (oldest_from 0 none es ≡ some (p, t))
      × (evict (suc fuel) max es ≡ evict fuel max (remove_at p es))

  evict-Round :
      (fuel max : ℕ) (es : List (Entry Loc)) → (evict (suc fuel) max es ≡ es) ⊎ Round fuel max es
  unfolding evict
  evict-Round fuel max es = elim (Bool-cases (ltb max (length es))) [
    | inl over ↦ elim (Option-cases (oldest_from 0 none es)) [
      | inl no_one ↦ inl (rw (over, no_one, evict))
      | inr ((p, t), found) ↦ inr (p, t, found, rw (over, found, evict))
    ]
    | inr within ↦ inl (rw (within, evict))
  ]

  -- What a dropped entry leaves true is true at the end.
  pub evict_inv :
      (P : List (Entry Loc) → Type 0)
      → ((es : List (Entry Loc)) (p t : ℕ) → stamp_at es p ≡ some t → P es → P (remove_at p es))
      → (fuel max : ℕ) (es : List (Entry Loc)) → P es
      → P (evict fuel max es)
  evict_inv P keeps zero max es h = unfold evict in h
  evict_inv P keeps (suc fuel) max es h = elim (evict-Round fuel max es) [
    | inl e ↦ rw e h
    | inr (p, t, found, e) ↦
        rw e (evict_inv P keeps fuel max (remove_at p es) (keeps es p t (oldest_lem es found).0 h))
  ]

  -- What is visible stays, in order.
  pub visible-evict :
      (fuel max : ℕ) (es : List (Entry Loc)) → visible (evict fuel max es) ≡ visible es
  visible-evict fuel max es =
      evict_inv (λ out. visible out ≡ visible es) (λ out p t h e. visible-remove_at p out h ∙ e)
        fuel max es refl

  pub All-evict :
      (P : Entry Loc → Type 0) (fuel max : ℕ) (es : List (Entry Loc))
      → All P es
      → All P (evict fuel max es)
  All-evict P = evict_inv (All P) (λ es p t h. All-remove_at P p es)

  -- Within the fuel the loop ends at `max` entries, or where nothing hidden is left.
  pub evict_bounded :
      (fuel max : ℕ) (es : List (Entry Loc))
      → length es ≤ fuel
      → (length (evict fuel max es) ≤ max) ⊎ All IsVisible (evict fuel max es)
  unfolding evict
  evict_bounded zero max [] h = inr tt
  evict_bounded zero max (e ∷ es) h = absurd (omega arith)
  evict_bounded (suc fuel) max es h = elim (Bool-cases (ltb max (length es))) [
    | inl over ↦ elim (Option-cases (oldest_from 0 none es)) [
      | inl no_one ↦ rw (over, no_one, evict) (inr (oldest_from-none 0 none es no_one).1)
      | inr ((p, t), found) ↦
          let shorter = length-remove_at p es (oldest_lem es found).0 in
          rw (over, found, evict) (evict_bounded fuel max (remove_at p es) (omega arith))
    ]
    | inr within ↦ rw (within, evict) (inl (ground arith))
  ]

  since_at :
      (b p : ℕ) (es : List (Entry Loc)) {u : ℕ}
      → All (IsHiddenSince b) es
      → stamp_at es p ≡ some u
      → b ≤ u
  since_at b p [] h e = cc
  since_at b zero (e ∷ es) h q = ground arith
  since_at b (suc p) (e ∷ es) h q = since_at b p es h.1 q

  -- Some time parts what is dropped from what stays hidden.
  abbrev pub Parts : ℕ → List (Entry Loc) → List (Entry Loc) → Type 0
  Parts b es out = (t : ℕ) × (b ≤ t) × Drops t es out × All (IsHiddenSince t) out

  pub evict-Parts :
      (fuel max b : ℕ) (es : List (Entry Loc))
      → All (IsHiddenSince b) es
      → Parts b es (evict fuel max es)
  evict-Parts zero max b es h = unfold evict in (b, omega arith, Drops-refl b es, h)
  evict-Parts (suc fuel) max b es h = elim (evict-Round fuel max es) [
    | inl e ↦ subst (Parts b es) (sym e) (b, omega arith, Drops-refl b es, h)
    | inr (p, u, found, e) ↦
        let (here, since) = oldest_lem es found in
        let (t, le, d, a) =
          evict-Parts fuel max u (remove_at p es) (All-remove_at (IsHiddenSince u) p es since) in
        subst (Parts b es) (sym e)
          (t, omega (arith, since_at b p es h here), Drops-remove_at t p es here le d, a)
  ]

-- No key stands twice, whatever the entries are told by.
module _ {Loc B : Type 0} (dec : Discrete B) (f : Entry Loc → B) where
  includes-remove_at :
      (b : B) (p : ℕ) (es : List (Entry Loc))
      → includes dec b (map f es) ≡ false
      → includes dec b (map f (remove_at p es)) ≡ false
  unfolding remove_at
  includes-remove_at b p [] h = refl
  includes-remove_at b zero (e ∷ es) h = ground arith
  includes-remove_at b (suc p) (e ∷ es) h = ground (arith, includes-remove_at b p es)

  Distinct-remove_at :
      (p : ℕ) (es : List (Entry Loc))
      → Distinct dec (map f es)
      → Distinct dec (map f (remove_at p es))
  unfolding remove_at
  Distinct-remove_at p [] h = tt
  Distinct-remove_at zero (e ∷ es) h = h.1
  Distinct-remove_at (suc p) (e ∷ es) h =
      (includes-remove_at (f e) p es h.0, Distinct-remove_at p es h.1)

  pub Distinct-evict :
      (fuel max : ℕ) (es : List (Entry Loc))
      → Distinct dec (map f es)
      → Distinct dec (map f (evict fuel max es))
  Distinct-evict = evict_inv (λ es. Distinct dec (map f es)) (λ es p t h. Distinct-remove_at p es)
