-- ===== src/Pagination/Learned.antt =====
-- What has been learned about a list stays true of it: the frontier of frontend/src/lib/pagination.ts
-- against a list with a fixed number of pages.
use pixiv_biu.Base.{
  ℕ, min, max, ◌-◌, ◌≤◌, ◌<◌, ◌≡◌, Option, none, some, List, [], ◌∷◌, arith, refl, All, leb, inl,
  inr, ◌⊎◌, Bool-cases, get_or,
}
use pixiv_biu.Pagination.{
  PageOutcome, more, last, empty, PageObservation, Frontier, initial_frontier, truncate,
  raise_ceiling, advance, advance_frontier, pager_state_of, pager_upper,
}
use pixiv_biu.Pagination.Frontiers.{IsAtLeast}

-- The list has pages 1 to `n`, and its continuations point at pages up to `reach`, which may be more than
-- there are; this is what a fetch of a page then reports.
abbrev pub IsTrue : ℕ → ℕ → PageOutcome → ℕ → Type 0
IsTrue n reach more page = page < reach
IsTrue n reach last page = page ≡ n
IsTrue n reach empty page = n < page

abbrev pub AllTrue : ℕ → ℕ → List PageObservation → Type 0
AllTrue n reach = All (λ obs. (1 ≤ obs.page) × IsTrue n reach obs.outcome obs.page)

-- What the frontier says of the list is true.
pub record IsSound (n reach : ℕ) (f : Frontier) : Type 0 where
  pub known_exist : f.known_max ≤ reach
  pub end_below : IsAtLeast n f.ceiling

raise_ceiling_sound :
    (n page : ℕ) (c : Option ℕ) → IsAtLeast n c → IsAtLeast n (raise_ceiling page c)
unfolding raise_ceiling
raise_ceiling_sound n page none h = tt
raise_ceiling_sound n page (some c) h = ground arith

min_ceiling_sound : (n e : ℕ) (c : Option ℕ) → n ≤ e → IsAtLeast n c → n ≤ min (get_or e c) e
min_ceiling_sound n e none h k = omega arith
min_ceiling_sound n e (some c) h k = omega arith

advance-IsSound :
    (n reach : ℕ) (o : PageOutcome) (page : ℕ) (cursor : Option ℕ) (f : Frontier)
    → n ≤ reach
    → IsTrue n reach o page
    → IsSound n reach f
    → IsSound n reach (advance o page cursor f)
unfolding advance truncate
advance-IsSound n reach more page cursor f b t s = record {
  known_exist = omega arith;
  end_below = raise_ceiling_sound n page f.ceiling s.end_below;
}
advance-IsSound n reach last page cursor f b t s = record {
  known_exist = omega arith;
  end_below = omega arith;
}
advance-IsSound n reach empty page cursor f b t s = record {
  known_exist = omega arith;
  end_below = min_ceiling_sound n (max 1 (page - 1)) f.ceiling (omega arith) s.end_below;
}

-- The frontier after a run of fetched pages, as the cache records them.
unfoldable pub learn : Frontier → List PageObservation → Frontier
learn f [] = f
learn f (obs ∷ rest) = learn (advance_frontier f obs) rest

learn-IsSound :
    (n reach : ℕ) (f : Frontier) (seen : List PageObservation)
    → n ≤ reach
    → AllTrue n reach seen
    → IsSound n reach f
    → IsSound n reach (learn f seen)
unfolding learn advance_frontier
learn-IsSound n reach f [] b a s = s
learn-IsSound n reach f (obs ∷ rest) b a s =
    learn-IsSound n reach (advance obs.outcome obs.page obs.next_cursor f) rest b a.1
      (advance-IsSound n reach obs.outcome obs.page obs.next_cursor f b a.0.1 s)

last_page_of_IsSound :
    (n reach : ℕ) (f : Frontier) (current : ℕ) (ceiling : Option ℕ)
    → f.ceiling ≡ ceiling
    → IsSound n reach f
    → ((pager_state_of f current none none).last_page ≡ none)
      ⊎ ((l : ℕ) × ((pager_state_of f current none none).last_page ≡ some l)
          × (n ≤ l)
          × (l ≤ reach))
unfolding pager_state_of
last_page_of_IsSound n reach f current none e s = inl (rw e refl)
last_page_of_IsSound n reach f current (some c) e s = elim (Bool-cases (leb c f.known_max)) [
  | inl h ↦
      let b = s.end_below in
      let k = s.known_exist in inr (f.known_max, rw e (rw h refl), ground arith, k)
  | inr h ↦ inl (rw e (rw h refl))
]

pager_of_IsSound :
    (n reach current : ℕ) (f : Frontier)
    → IsSound n reach f
    → pager_upper (pager_state_of f current none none) ≤ reach
unfolding pager_state_of pager_upper
pager_of_IsSound n reach current f s = ground arith

-- Let a list have pages 1 to `n` throughout, and its continuations point at pages up to `reach`, beyond
-- `n` where some point at nothing. For fetches of any pages in any order, each of which says `more` only
-- before page `reach`, `last` only on page `n` and `empty` only past it: the pager without a hint offers
-- no page beyond `reach`, and shows no last page or one from `n` to `reach`. With `reach` equal to `n`,
-- where no continuation points at nothing, it offers only pages that exist, and a last page that it
-- shows is the list's.
pub pager_sound :
    (n reach current : ℕ) (seen : List PageObservation)
    → 1 ≤ n
    → n ≤ reach
    → AllTrue n reach seen
    → let s = pager_state_of (learn initial_frontier seen) current none none in
      (pager_upper s ≤ reach)
      × ((s.last_page ≡ none) ⊎ ((l : ℕ) × (s.last_page ≡ some l) × (n ≤ l) × (l ≤ reach)))
pager_sound n reach current seen pos b a =
    let f = learn initial_frontier seen in
    let sound : IsSound n reach f =
      learn-IsSound n reach initial_frontier seen b a
        (record { known_exist = omega arith; end_below = tt }) in
    (
      pager_of_IsSound n reach current f sound,
      last_page_of_IsSound n reach f current f.ceiling refl sound,
    )
