-- ===== src/Pagination/Tests.antt =====
-- Runs of the pager, and the theorems at them.
use pixiv_biu.Base.{ℕ, ◌≤◌, ◌≡◌, refl, none, some, List, [], ◌∷◌, arith, ℕ_discrete, add, ◌⊎◌}
use pixiv_biu.Pagination.{
  more, last, empty, PageObservation, initial_frontier, PagerState, pager_state_of, pager_upper,
  page, ellipsis, build_page_items,
}
use pixiv_biu.Pagination.Learned.{learn, pager_sound}
use pixiv_biu.Pagination.Items.{Tiles, build_page_items-Tiles}

abbrev first : PageObservation
first = record { page = 1; outcome = more; next_cursor = some 77 }

abbrev past_end : PageObservation
past_end = record { page = 9; outcome = empty; next_cursor = none }

abbrev last_page : PageObservation
last_page = record { page = 3; outcome = last; next_cursor = none }

abbrev seen : List PageObservation
seen = first ∷ past_end ∷ last_page ∷ first ∷ []

abbrev middle : PagerState
middle = record { current = 10; known_max = 20; last_page = none; last_page_hint = some 25 }

middle_items :
    build_page_items middle
    ≡ page 1
      ∷ ellipsis 1 8
      ∷ page 8
      ∷ page 9
      ∷ page 10
      ∷ page 11
      ∷ page 12
      ∷ ellipsis 12 25
      ∷ page 25
      ∷ []
unfolding build_page_items ℕ_discrete add
middle_items = refl

abbrev led_on : PageObservation
led_on = record { page = 3; outcome = more; next_cursor = none }

abbrev past_last : PageObservation
past_last = record { page = 4; outcome = empty; next_cursor = none }

-- Page 3 is the last one, and a continuation points at page 4.
pager_sound_example :
    let s = pager_state_of (learn initial_frontier (first ∷ led_on ∷ past_last ∷ [])) 2 none none in
    (pager_upper s ≤ 4)
    × ((s.last_page ≡ none) ⊎ ((l : ℕ) × (s.last_page ≡ some l) × (3 ≤ l) × (l ≤ 4)))
pager_sound_example =
    pager_sound 3 4 2 (first ∷ led_on ∷ past_last ∷ []) (omega arith) (omega arith) (omega arith)

build_page_items-Tiles_example : Tiles 1 (pager_upper middle) (build_page_items middle)
build_page_items-Tiles_example = build_page_items-Tiles middle (unfold pager_upper in omega arith)
