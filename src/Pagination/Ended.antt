-- ===== src/Pagination/Ended.antt =====
-- The pager once the end of the list was seen (frontend/src/lib/pagination.ts).
use pixiv_biu.Base.{
  ℕ, any, Bool, true, false, ◌≤◌, ◌≡◌, Option, none, some, List, [], ◌∷◌, arith, inl, inr,
  Bool-cases,
}
use pixiv_biu.Pagination.{
  PageOutcome, more, last, empty, PageObservation, Frontier, initial_frontier, truncate,
  raise_ceiling, advance, advance_frontier, pager_state_of,
}
use pixiv_biu.Pagination.Learned.{IsTrue, AllTrue, learn}

record IsEnd (n : ℕ) (f : Frontier) : Type 0 where
  at_max : f.known_max ≡ n
  at_ceiling : f.ceiling ≡ some n

advance-IsEnd :
    (n : ℕ) (o : PageOutcome) (page : ℕ) (cursor : Option ℕ) (f : Frontier)
    → 1 ≤ n
    → IsTrue n n o page
    → IsEnd n f
    → IsEnd n (advance o page cursor f)
unfolding advance truncate raise_ceiling
advance-IsEnd n more page cursor f pos t s = record {
  at_max = omega arith;
  at_ceiling = rw s.at_ceiling (ground arith);
}
advance-IsEnd n last page cursor f pos t s = record { at_max = t; at_ceiling = ground arith }
advance-IsEnd n empty page cursor f pos t s = record {
  at_max = omega arith;
  at_ceiling = rw s.at_ceiling (ground arith);
}

abbrev is_last : PageObservation → Bool
is_last obs = elim obs.outcome [ last ↦ true | _ ↦ false ]

learn-IsEnd :
    (n : ℕ) (f : Frontier) (seen : List PageObservation)
    → 1 ≤ n
    → AllTrue n n seen
    → IsEnd n f
    → IsEnd n (learn f seen)
unfolding learn advance_frontier
learn-IsEnd n f [] pos a s = s
learn-IsEnd n f (obs ∷ rest) pos a s =
    learn-IsEnd n (advance obs.outcome obs.page obs.next_cursor f) rest pos a.1
      (advance-IsEnd n obs.outcome obs.page obs.next_cursor f pos a.0.1 s)

last-IsEnd :
    (n : ℕ) (o : PageOutcome) (page : ℕ) (cursor : Option ℕ) (f : Frontier)
    → o ≡ last
    → IsTrue n n o page
    → IsEnd n (advance o page cursor f)
unfolding advance truncate
last-IsEnd n more page cursor f e t = absurd (ground arith)
last-IsEnd n last page cursor f e t = record { at_max = t; at_ceiling = ground arith }
last-IsEnd n empty page cursor f e t = absurd (ground arith)

learn-finds-IsEnd :
    (n : ℕ) (f : Frontier) (seen : List PageObservation)
    → 1 ≤ n
    → AllTrue n n seen
    → any is_last seen ≡ true
    → IsEnd n (learn f seen)
unfolding learn advance_frontier
learn-finds-IsEnd n f [] pos a h = cc
learn-finds-IsEnd n f (obs ∷ rest) pos a h = elim (Bool-cases (is_last obs)) [
  | inl here ↦
      learn-IsEnd n (advance obs.outcome obs.page obs.next_cursor f) rest pos a.1
        (last-IsEnd n obs.outcome obs.page obs.next_cursor f (ground arith) a.0.1)
  | inr there ↦
      learn-finds-IsEnd n (advance obs.outcome obs.page obs.next_cursor f) rest pos a.1
        (ground arith)
]

pager_of_IsEnd :
    (n current : ℕ) (f : Frontier)
    → IsEnd n f
    → (pager_state_of f current none none).last_page ≡ some n
unfolding pager_state_of
pager_of_IsEnd n current f s = rw s.at_ceiling (ground arith)

-- Once the last page of the list was among the pages fetched, the pager shows its number as the last
-- page, whatever true pages are fetched before and after it, if no continuation points at nothing.
pub pager_complete :
    (n current : ℕ) (seen : List PageObservation)
    → 1 ≤ n
    → AllTrue n n seen
    → any is_last seen ≡ true
    → (pager_state_of (learn initial_frontier seen) current none none).last_page ≡ some n
pager_complete n current seen pos a h =
    pager_of_IsEnd n current (learn initial_frontier seen)
      (learn-finds-IsEnd n initial_frontier seen pos a h)
