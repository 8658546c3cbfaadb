-- ===== src/Pagination.antt =====
-- Numbered pages over lists that never report a total: frontend/src/lib/pagination.ts, and the record
-- of a fetched page in frontend/src/lib/query/page-frontier.ts.
-- Pages and cursors are native numbers; a missing optional field is `none`.
pub mod Frontiers
pub mod Learned
pub mod Ended
pub mod Items
mod Tests
use pixiv_biu.Base.{
  ℕ, zero, suc, ◌+◌, ◌-◌, min, max, Bool, true, false, Option, none, some, List, [], ◌∷◌, map, ltb,
  leb, ◌==◌, ◌&&◌, if◌then◌else◌, insert, filter, add, ℕ_discrete, get_or,
}

pub data PageOutcome : Type 0 where
  more last empty : PageOutcome

pub record PageObservation : Type 0 where
  pub page : ℕ
  pub outcome : PageOutcome
  pub next_cursor : Option ℕ

pub record Frontier : Type 0 where
  pub known_max : ℕ
  pub ceiling : Option ℕ
  pub cursors : Option (List (ℕ × ℕ))

abbrev pub initial_frontier : Frontier
initial_frontier = record { known_max = 1; ceiling = none; cursors = none }

unfoldable pub page_outcome : Bool → ℕ → PageOutcome
page_outcome has_next count = if has_next then more else if ltb 0 count then last else empty

unfoldable pub keep_cursors : ℕ → Option (List (ℕ × ℕ)) → Option (List (ℕ × ℕ))
keep_cursors known_max none = none
keep_cursors known_max (some cs) = some (filter (λ c. leb c.0 known_max) cs)

unfoldable pub truncate : Frontier → ℕ → ℕ → Frontier
truncate f known_max ceiling = record {
  known_max = known_max;
  ceiling = some ceiling;
  cursors = keep_cursors known_max f.cursors;
}

-- The cursors, with the one the observation carries, under the page after it.
unfoldable pub add_cursor : Option ℕ → ℕ → Option (List (ℕ × ℕ)) → Option (List (ℕ × ℕ))
add_cursor none next cs = cs
add_cursor (some c) next none = some (insert ℕ_discrete next c [])
add_cursor (some c) next (some cs) = some (insert ℕ_discrete next c cs)

-- The old ceiling, dropped where a page at or past it goes on.
unfoldable pub raise_ceiling : ℕ → Option ℕ → Option ℕ
raise_ceiling page none = none
raise_ceiling page (some c) = if leb c page then none else some c

unfoldable pub advance : PageOutcome → ℕ → Option ℕ → Frontier → Frontier
advance more page cursor f = record {
  known_max = max f.known_max (page + 1);
  ceiling = raise_ceiling page f.ceiling;
  cursors = add_cursor cursor (page + 1) f.cursors;
}
advance last page cursor f = truncate f page page
advance empty page cursor f =
    let end = max 1 (page - 1) in truncate f (min f.known_max end) (min (get_or end f.ceiling) end)

unfoldable pub advance_frontier : Frontier → PageObservation → Frontier
unfolding advance truncate keep_cursors add_cursor raise_ceiling
advance_frontier f obs = advance obs.outcome obs.page obs.next_cursor f

-- The highest page whose cursor is known.
unfoldable pub max_page : ℕ → List (ℕ × ℕ) → ℕ
max_page m [] = m
max_page m ((p, c) ∷ cs) = max_page (max m p) cs

unfoldable pub cursor_frontier : Frontier → ℕ
unfolding max_page
cursor_frontier f = max_page 1 (get_or [] f.cursors)

-- `record` of `usePageFrontier`: the cached frontier, or the initial one, advanced.
unfoldable pub record_page : Option Frontier → PageObservation → Option Frontier
unfolding advance_frontier
record_page cached obs = some (advance_frontier (get_or initial_frontier cached) obs)

pub record PagerState : Type 0 where
  pub current : ℕ
  pub known_max : ℕ
  pub last_page : Option ℕ
  pub last_page_hint : Option ℕ

-- The last page, once the end of the list was seen.
unfoldable pub seen_end : Frontier → Option ℕ
seen_end f = elim f.ceiling [
  | none ↦ none
  | some c ↦ if leb c f.known_max then some f.known_max else none
]

-- The hint, capped, where it says more than what is known.
unfoldable pub cap_hint : Frontier → Option ℕ → Option ℕ → Option ℕ
cap_hint f (some p) hint = none
cap_hint f none none = none
cap_hint f none (some h) =
    let capped = min h (get_or h f.ceiling) in if ltb f.known_max capped then some capped else none

unfoldable pub pager_state_of : Frontier → ℕ → Option PageObservation → Option ℕ → PagerState
unfolding seen_end cap_hint
pager_state_of f current observed hint =
    let merged : Frontier = elim observed [ none ↦ f | some obs ↦ advance_frontier f obs ] in
    record {
      current = current;
      known_max = merged.known_max;
      last_page = seen_end merged;
      last_page_hint = cap_hint merged (seen_end merged) hint;
    }

unfoldable pub pager_upper : PagerState → ℕ
pager_upper s = elim s.last_page [ some p ↦ p | none ↦ max s.known_max (get_or 0 s.last_page_hint) ]

-- The ellipsis with the key `gap-a-b` stands between the pages `a` and `b`.
pub data PageItem : Type 0 where
  page : ℕ → PageItem
  ellipsis : ℕ → ℕ → PageItem

abbrev pub window : ℕ
window = 2

-- `for (p = …; …; p++) anchors.add(p)`, by the rounds left.
unfoldable pub add_range : ℕ → ℕ → List ℕ → List ℕ
add_range zero p s = s
add_range (suc n) p s = add_range n (p + 1) (add ℕ_discrete p s)

-- The pages of the window below 1 are filtered out: those below 0 are left out from the start.
unfoldable pub anchors : ℕ → ℕ → List ℕ
unfolding add_range
anchors current upper =
    let first = current - window in
    add_range (current + window + 1 - first) first (add ℕ_discrete upper (add ℕ_discrete 1 []))

-- `sort((a, b) => a - b)`.
unfoldable pub insert_sorted : ℕ → List ℕ → List ℕ
insert_sorted p [] = p ∷ []
insert_sorted p (q ∷ qs) = if leb p q then p ∷ q ∷ qs else q ∷ insert_sorted p qs

unfoldable pub sort : List ℕ → List ℕ
unfolding insert_sorted
sort [] = []
sort (p ∷ ps) = insert_sorted p (sort ps)

unfoldable pub shown_pages : ℕ → ℕ → List ℕ
unfolding anchors sort
shown_pages current upper = sort (filter (λ p. leb 1 p && leb p upper) (anchors current upper))

-- What the loop pushes before a page, for the gap to the page before it.
unfoldable pub fill_gap : ℕ → ℕ → List PageItem → List PageItem
fill_gap before p rest =
    if p - before == 2
    then page (p - 1) ∷ rest
    else if ltb 2 (p - before)
    then ellipsis before p ∷ rest
    else rest

unfoldable pub items_after : ℕ → List ℕ → List PageItem
unfolding fill_gap
items_after before [] = []
items_after before (p ∷ ps) = fill_gap before p (page p ∷ items_after p ps)

unfoldable pub items_of : List ℕ → List PageItem
unfolding items_after
items_of [] = []
items_of (p ∷ ps) = page p ∷ items_after p ps

unfoldable pub build_page_items : PagerState → List PageItem
unfolding shown_pages items_of pager_upper
build_page_items s = items_of (shown_pages s.current (pager_upper s))
