-- ===== src/Pagination/Items.antt =====
-- The strip of page numbers, `buildPageItems` of frontend/src/lib/pagination.ts.
use pixiv_biu.Base.{
  ℕ, zero, suc, ◌+◌, ◌-◌, ◌≤◌, ◌<◌, ◌≡◌, ◌∙◌, refl, sym, subst, All-map, Bool, true, false, ◌&&◌,
  ◌||◌, List, [], ◌∷◌, arith, All, ℕ_discrete, includes, Distinct, add, add-Distinct, includes-add,
  filter, filter-Distinct, includes-filter, leb, ltb, ite, Bool-cases, inl, inr, any, ◌==◌,
}
use pixiv_biu.Pagination.{
  PageItem, page, ellipsis, window, add_range, anchors, insert_sorted, sort, shown_pages, fill_gap,
  items_after, items_of, build_page_items, PagerState, pager_upper,
}

abbrev has : ℕ → List ℕ → Bool
has = includes ℕ_discrete

-- The pages rise, each above the one before it, and the first above `lo`.
abbrev Ascends : ℕ → List ℕ → Type 0
Ascends lo [] = Unit
Ascends lo (p ∷ ps) = (lo < p) × Ascends p ps

has-insert_sorted :
    (b p : ℕ) (ps : List ℕ) → has b (insert_sorted p ps) ≡ ite (ℕ_discrete p b) true (has b ps)
unfolding insert_sorted
has-insert_sorted b p [] = refl
has-insert_sorted b p (q ∷ qs) = ground (arith, has-insert_sorted b p qs)

has-sort : (b : ℕ) (ps : List ℕ) → has b (sort ps) ≡ has b ps
unfolding sort
has-sort b [] = refl
has-sort b (p ∷ ps) = ground (arith, has-insert_sorted b p (sort ps), has-sort b ps)

insert_sorted-Ascends :
    (lo p : ℕ) (ps : List ℕ)
    → lo < p
    → has p ps ≡ false
    → Ascends lo ps
    → Ascends lo (insert_sorted p ps)
unfolding insert_sorted
insert_sorted-Ascends lo p [] h n a = (h, tt)
insert_sorted-Ascends lo p (q ∷ qs) h n a = ground (arith, insert_sorted-Ascends q p qs)

sort-Ascends : (ps : List ℕ) → All (λ p. 0 < p) ps → Distinct ℕ_discrete ps → Ascends 0 (sort ps)
unfolding sort
sort-Ascends [] h d = tt
sort-Ascends (p ∷ ps) h d =
    insert_sorted-Ascends 0 p (sort ps) h.0 (has-sort p ps ∙ d.0) (sort-Ascends ps h.1 d.1)

add_range-Distinct :
    (n p : ℕ) (s : List ℕ) → Distinct ℕ_discrete s → Distinct ℕ_discrete (add_range n p s)
unfolding add_range
add_range-Distinct zero p s d = d
add_range-Distinct (suc n) p s d =
    add_range-Distinct n (p + 1) (add ℕ_discrete p s) (add-Distinct ℕ_discrete p s d)

has-add_range :
    (b n p : ℕ) (s : List ℕ) → has b (add_range n p s) ≡ (has b s || (leb p b && ltb b (p + n)))
unfolding add_range
has-add_range b zero p s = ground arith
has-add_range b (suc n) p s =
    ground (arith, has-add_range b n (p + 1) (add ℕ_discrete p s), includes-add ℕ_discrete b p s)

abbrev in_range : ℕ → ℕ → Bool
in_range upper p = leb 1 p && leb p upper

-- A page is an anchor if it is the first, the last, or at most two away from the current one.
abbrev pub is_anchor : ℕ → ℕ → ℕ → Bool
is_anchor current upper p = p == 1 || (p == upper || (leb current (p + 2) && leb p (current + 2)))

has-anchors : (current upper p : ℕ) → has p (anchors current upper) ≡ is_anchor current upper p
unfolding anchors add
has-anchors current upper p = ground (
  arith,
  has-add_range p (current + window + 1 - (current - window)) (current - window)
      (add ℕ_discrete upper (add ℕ_discrete 1 [])),
)

anchors-Distinct : (current upper : ℕ) → Distinct ℕ_discrete (anchors current upper)
unfolding anchors
anchors-Distinct current upper =
    add_range-Distinct (current + window + 1 - (current - window)) (current - window)
      (add ℕ_discrete upper (add ℕ_discrete 1 []))
      (add-Distinct ℕ_discrete upper (add ℕ_discrete 1 []) (add-Distinct ℕ_discrete 1 [] tt))

All-in_range :
    (upper : ℕ) (ps : List ℕ) → All (λ p. (0 < p) × (p ≤ upper)) (filter (in_range upper) ps)
All-in_range upper [] = tt
All-in_range upper (p ∷ ps) = ground (arith, All-in_range upper ps)

-- Read from `next` on, the items name every page up to `upper` once and in order: a page by itself, an
-- ellipsis for the pages between two named ones, at least two of them.
abbrev pub Tiles : ℕ → ℕ → List PageItem → Type 0
Tiles next upper [] = next ≡ upper + 1
Tiles next upper (page p ∷ rest) = (p ≡ next) × Tiles (p + 1) upper rest
Tiles next upper (ellipsis a b ∷ rest) = (next ≡ a + 1) × (next + 1 < b) × Tiles b upper rest

abbrev InRange : ℕ → ℕ → Type 0
InRange upper p = (0 < p) × (p ≤ upper)

fill_gap-Tiles :
    (before p upper : ℕ) (rest : List PageItem)
    → before < p
    → Tiles p upper rest
    → Tiles (before + 1) upper (fill_gap before p rest)
unfolding fill_gap
fill_gap-Tiles before p upper rest h t = elim (Bool-cases (p - before == 2)) [
  | inl two ↦
      let e : p - 1 + 1 ≡ p = omega arith in
      rw two (ground arith, subst (λ x. Tiles x upper rest) (sym e) t)
  | inr not_two ↦ rw not_two (elim (Bool-cases (ltb 2 (p - before))) [
    | inl wide ↦ rw wide (refl, ground arith, t)
    | inr narrow ↦
        let e : before + 1 ≡ p = ground arith in
        rw narrow (subst (λ x. Tiles x upper rest) (sym e) t)
  ])
]

items_after-Tiles :
    (upper before : ℕ) (ps : List ℕ)
    → Ascends before ps
    → All (InRange upper) ps
    → before ≤ upper
    → has upper (before ∷ ps) ≡ true
    → Tiles (before + 1) upper (items_after before ps)
unfolding items_after
items_after-Tiles upper before [] a r le h = ground arith
items_after-Tiles upper before (p ∷ ps) a r le h =
    fill_gap-Tiles before p upper (page p ∷ items_after p ps) a.0
      (refl, items_after-Tiles upper p ps a.1 r.1 r.0.1 (ground arith))

items_of-Tiles :
    (upper : ℕ) (ps : List ℕ)
    → Ascends 0 ps
    → All (InRange upper) ps
    → has 1 ps ≡ true
    → has upper ps ≡ true
    → Tiles 1 upper (items_of ps)
unfolding items_of
items_of-Tiles upper [] a r one end = cc
items_of-Tiles upper (p ∷ ps) a r one end =
    (first p ps a one, items_after-Tiles upper p ps a.1 r.1 r.0.1 end)
  where
    above : (b lo : ℕ) (ps : List ℕ) → Ascends lo ps → b ≤ lo → has b ps ≡ false
    above b lo [] a h = refl
    above b lo (p ∷ ps) a h = ground (arith, above b p ps a.1 (omega arith))

    first : (p : ℕ) (ps : List ℕ) → Ascends 0 (p ∷ ps) → has 1 (p ∷ ps) ≡ true → p ≡ 1
    first p ps a h = ground (arith, above 1 p ps a.1)

insert_sorted-InRange :
    (upper p : ℕ) (ps : List ℕ)
    → InRange upper p
    → All (InRange upper) ps
    → All (InRange upper) (insert_sorted p ps)
unfolding insert_sorted
insert_sorted-InRange upper p [] h a = (h, tt)
insert_sorted-InRange upper p (q ∷ qs) h a = ground (arith, insert_sorted-InRange upper p qs h a.1)

sort-InRange : (upper : ℕ) (ps : List ℕ) → All (InRange upper) ps → All (InRange upper) (sort ps)
unfolding sort
sort-InRange upper [] h = tt
sort-InRange upper (p ∷ ps) h =
    insert_sorted-InRange upper p (sort ps) h.0 (sort-InRange upper ps h.1)

module _ (current upper : ℕ) where
  kept_anchors : List ℕ
  kept_anchors = filter (in_range upper) (anchors current upper)

  shown_pages_lem : shown_pages current upper ≡ sort kept_anchors
  unfolding shown_pages kept_anchors
  shown_pages_lem = refl

  has-kept_anchors : (p : ℕ) → has p kept_anchors ≡ (in_range upper p && is_anchor current upper p)
  unfolding kept_anchors
  has-kept_anchors p = ground (
    arith,
    includes-filter ℕ_discrete (in_range upper) p (anchors current upper),
    has-anchors current upper p,
  )

  has-shown_pages :
      (p : ℕ) → has p (shown_pages current upper) ≡ (in_range upper p && is_anchor current upper p)
  has-shown_pages p = rw shown_pages_lem (has-sort p kept_anchors ∙ has-kept_anchors p)

  kept-InRange : All (InRange upper) kept_anchors
  unfolding kept_anchors
  kept-InRange = All-in_range upper (anchors current upper)

  kept-Distinct : Distinct ℕ_discrete kept_anchors
  unfolding kept_anchors
  kept-Distinct =
      filter-Distinct ℕ_discrete (in_range upper) (anchors current upper)
        (anchors-Distinct current upper)

  shown_pages-Ascends : Ascends 0 (shown_pages current upper)
  shown_pages-Ascends = rw shown_pages_lem (
      sort-Ascends kept_anchors
        (All-map (InRange upper) (λ p. 0 < p) kept_anchors (λ p h. h.0) kept-InRange) kept-Distinct)

  shown_pages-InRange : All (InRange upper) (shown_pages current upper)
  shown_pages-InRange = rw shown_pages_lem (sort-InRange upper kept_anchors kept-InRange)

abbrev pub shows : ℕ → List PageItem → Bool
shows p = any (λ i. elim i [ page q ↦ q == p | ellipsis a b ↦ false ])

shows-items_after :
    (p before : ℕ) (ps : List ℕ) → has p ps ≡ true → shows p (items_after before ps) ≡ true
unfolding items_after fill_gap
shows-items_after p before [] h = cc
shows-items_after p before (q ∷ ps) h = ground (arith, shows-items_after p q ps)

shows-items_of : (p : ℕ) (ps : List ℕ) → has p ps ≡ true → shows p (items_of ps) ≡ true
unfolding items_of
shows-items_of p [] h = cc
shows-items_of p (q ∷ ps) h = ground (arith, shows-items_after p q ps)

-- With a highest page from 1 on, the strip names every page from 1 to the highest once and in order,
-- where an ellipsis stands for two pages or more, never for one.
pub build_page_items-Tiles :
    (s : PagerState) → 1 ≤ pager_upper s → Tiles 1 (pager_upper s) (build_page_items s)
unfolding build_page_items
build_page_items-Tiles s h =
    let u = pager_upper s in
    items_of-Tiles u (shown_pages s.current u) (shown_pages-Ascends s.current u)
      (shown_pages-InRange s.current u) (rw (has-shown_pages s.current u 1) (ground arith))
      (rw (has-shown_pages s.current u u) (ground arith))

-- The first page, the highest one, and every page at most two away from the current one stand in the
-- strip by themselves, if they lie between 1 and the highest page.
pub build_page_items_anchors :
    (s : PagerState) (p : ℕ)
    → 1 ≤ p
    → p ≤ pager_upper s
    → is_anchor s.current (pager_upper s) p ≡ true
    → shows p (build_page_items s) ≡ true
unfolding build_page_items
build_page_items_anchors s p lo hi h =
    let u = pager_upper s in
    shows-items_of p (shown_pages s.current u) (rw (has-shown_pages s.current u p) (ground arith))
