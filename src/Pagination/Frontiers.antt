-- ===== src/Pagination/Frontiers.antt =====
-- What every frontier keeps, whatever the pages say (frontend/src/lib/pagination.ts).
use pixiv_biu.Base.{
  ℕ, min, max, ◌+◌, ◌-◌, ◌≤◌, Option, none, some, List, [], ◌∷◌, arith, All, ℕ_discrete, insert,
  filter, leb, get_or,
}
use pixiv_biu.Pagination.{
  PageOutcome, more, last, empty, PageObservation, Frontier, initial_frontier, keep_cursors,
  truncate, add_cursor, raise_ceiling, advance, advance_frontier, max_page, cursor_frontier,
}

-- A missing bound says nothing.
abbrev pub IsAtLeast : ℕ → Option ℕ → Type 0
IsAtLeast n none = Unit
IsAtLeast n (some c) = n ≤ c

-- A cursor is kept for a page from 2 to the highest known one.
abbrev IsCursor : ℕ → ℕ × ℕ → Type 0
IsCursor m c = (2 ≤ c.0) × (c.0 ≤ m)

abbrev AreCursors : ℕ → Option (List (ℕ × ℕ)) → Type 0
AreCursors m none = Unit
AreCursors m (some cs) = All (IsCursor m) cs

pub record IsValid (f : Frontier) : Type 0 where
  pub known : 1 ≤ f.known_max
  pub bounded : IsAtLeast f.known_max f.ceiling
  pub cursors_known : AreCursors f.known_max f.cursors

keep_cursors_lem :
    (m k : ℕ) (cs : List (ℕ × ℕ))
    → All (IsCursor m) cs
    → All (IsCursor k) (filter (λ c. leb c.0 k) cs)
keep_cursors_lem m k [] h = tt
keep_cursors_lem m k (c ∷ cs) h = ground (arith, keep_cursors_lem m k cs h.1)

keep_cursors-AreCursors :
    (m k : ℕ) (cs : Option (List (ℕ × ℕ))) → AreCursors m cs → AreCursors k (keep_cursors k cs)
unfolding keep_cursors
keep_cursors-AreCursors m k none h = tt
keep_cursors-AreCursors m k (some cs) h = keep_cursors_lem m k cs h

IsCursor-mono : (m k : ℕ) (cs : List (ℕ × ℕ)) → m ≤ k → All (IsCursor m) cs → All (IsCursor k) cs
IsCursor-mono m k [] a h = tt
IsCursor-mono m k (c ∷ cs) a h = ((h.0.0, omega arith), IsCursor-mono m k cs a h.1)

insert-IsCursor :
    (m k p c : ℕ) (cs : List (ℕ × ℕ))
    → m ≤ k
    → 2 ≤ p
    → p ≤ k
    → All (IsCursor m) cs
    → All (IsCursor k) (insert ℕ_discrete p c cs)
unfolding insert
insert-IsCursor m k p c [] a b d h = omega arith
insert-IsCursor m k p c (e ∷ cs) a b d h =
    ground (arith, insert-IsCursor m k p c cs a b d h.1, IsCursor-mono m k cs a h.1)

add_cursor-AreCursors :
    (m k p : ℕ) (c : Option ℕ) (cs : Option (List (ℕ × ℕ)))
    → m ≤ k
    → 2 ≤ p
    → p ≤ k
    → AreCursors m cs
    → AreCursors k (add_cursor c p cs)
unfolding add_cursor insert
add_cursor-AreCursors m k p none none a b d h = tt
add_cursor-AreCursors m k p none (some cs) a b d h = IsCursor-mono m k cs a h
add_cursor-AreCursors m k p (some c) none a b d h = omega arith
add_cursor-AreCursors m k p (some c) (some cs) a b d h = insert-IsCursor m k p c cs a b d h

raise_ceiling-IsAtLeast :
    (m page : ℕ) (c : Option ℕ)
    → IsAtLeast m c
    → IsAtLeast (max m (page + 1)) (raise_ceiling page c)
unfolding raise_ceiling
raise_ceiling-IsAtLeast m page none h = tt
raise_ceiling-IsAtLeast m page (some c) h = ground arith

min-ceiling : (m e : ℕ) (c : Option ℕ) → IsAtLeast m c → min m e ≤ min (get_or e c) e
min-ceiling m e none h = omega arith
min-ceiling m e (some c) h = omega arith

advance-IsValid :
    (o : PageOutcome) (page : ℕ) (cursor : Option ℕ) (f : Frontier)
    → 1 ≤ page
    → IsValid f
    → IsValid (advance o page cursor f)
unfolding advance truncate
advance-IsValid more page cursor f p v = record {
  known = omega arith;
  bounded = raise_ceiling-IsAtLeast f.known_max page f.ceiling v.bounded;
  cursors_known =
      add_cursor-AreCursors f.known_max (max f.known_max (page + 1)) (page + 1) cursor f.cursors
        (omega arith) (omega arith) (omega arith) v.cursors_known;
}
advance-IsValid last page cursor f p v = record {
  known = p;
  bounded = omega arith;
  cursors_known = keep_cursors-AreCursors f.known_max page f.cursors v.cursors_known;
}
advance-IsValid empty page cursor f p v = record {
  known = omega arith;
  bounded = min-ceiling f.known_max (max 1 (page - 1)) f.ceiling v.bounded;
  cursors_known = keep_cursors-AreCursors f.known_max _ f.cursors v.cursors_known;
}

-- An observation of a page from 1 on keeps the frontier valid, whatever it says: a page is known, the
-- ceiling is not below the known pages, and cursors are kept for known pages from 2 on only.
pub advance_frontier-IsValid :
    (f : Frontier) (obs : PageObservation)
    → 1 ≤ obs.page
    → IsValid f
    → IsValid (advance_frontier f obs)
unfolding advance_frontier
advance_frontier-IsValid f obs p v = advance-IsValid obs.outcome obs.page obs.next_cursor f p v

pub initial_frontier-IsValid : IsValid initial_frontier
initial_frontier-IsValid = record { known = omega arith; bounded = tt; cursors_known = tt }

max_page-le : (m k : ℕ) (cs : List (ℕ × ℕ)) → k ≤ m → All (IsCursor m) cs → max_page k cs ≤ m
unfolding max_page
max_page-le m k [] h a = h
max_page-le m k ((p, c) ∷ cs) h a = max_page-le m (max k p) cs (omega arith) a.1

-- A walk over cursors resumes from a page that is known to exist.
pub cursor_frontier-le : (f : Frontier) → IsValid f → cursor_frontier f ≤ f.known_max
unfolding cursor_frontier
cursor_frontier-le f v = by_cursors f.cursors v.cursors_known
  where
    by_cursors :
        (cs : Option (List (ℕ × ℕ)))
        → AreCursors f.known_max cs
        → max_page 1 (get_or [] cs) ≤ f.known_max
    by_cursors none h = omega (arith, v.known)
    by_cursors (some cs) h = max_page-le f.known_max 1 cs v.known h
