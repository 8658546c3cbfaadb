-- ===== src/Desktop/Updates/Arrivals.antt =====
-- What the page hands on of whatever arrives at it
-- (frontend/src/features/system/desktop-update-state.ts).
use pixiv_biu.Base.{ℕ, ◌≡◌, refl, arith, Bool, true, ◌&&◌, Option, none, some, List, [], ◌∷◌, ◌++◌}
use pixiv_biu.Desktop.Updates.Observe.{
  Status, snapshot, legacy, Observer, new_observer, is_after, deliver, read_failed, unsubscribe,
}

-- What happens at the page.
pub data Arrival : Type 0 where
  status : Status → Arrival
  rejected unmounted : Arrival

unfoldable pub observe : Arrival → Observer → Observer
observe (status s) o = deliver s o
observe rejected o = read_failed o
observe unmounted o = unsubscribe o

unfoldable pub observe_all : List Arrival → Observer → Observer
observe_all [] o = o
observe_all (a ∷ arrivals) o = observe_all arrivals (observe a o)

-- The sequence numbers of the snapshots received, of those after `m` each larger than the one before.
abbrev pub is_rising : Option ℕ → List Status → Bool
is_rising m [] = true
is_rising m (legacy s ∷ ss) = is_rising m ss
is_rising m (snapshot version mode s ∷ ss) = is_after s.sequence m && is_rising (some s.sequence) ss

abbrev pub last_of : Option ℕ → List Status → Option ℕ
last_of m [] = m
last_of m (legacy s ∷ ss) = last_of m ss
last_of m (snapshot version mode s ∷ ss) = last_of (some s.sequence) ss

is_rising-++ :
    (m : Option ℕ) (ss : List Status) (s : Status)
    → is_rising m (ss ++ s ∷ []) ≡ (is_rising m ss && is_rising (last_of m ss) (s ∷ []))
is_rising-++ m [] s = refl
is_rising-++ m (legacy x ∷ ss) s = is_rising-++ m ss s
is_rising-++ m (snapshot version mode x ∷ ss) s =
    ground (arith, is_rising-++ (some x.sequence) ss s)

last_of-++ :
    (m : Option ℕ) (ss : List Status) (s : Status)
    → last_of m (ss ++ s ∷ []) ≡ last_of (last_of m ss) (s ∷ [])
last_of-++ m [] s = refl
last_of-++ m (legacy x ∷ ss) s = last_of-++ m ss s
last_of-++ m (snapshot version mode x ∷ ss) s = last_of-++ (some x.sequence) ss s

pub record IsRising (o : Observer) : Type 0 where
  pub rising : is_rising none o.received ≡ true
  pub last : last_of none o.received ≡ o.sequence

observe-IsRising : (a : Arrival) (o : Observer) → IsRising o → IsRising (observe a o)
unfolding observe deliver read_failed unsubscribe
observe-IsRising (status (legacy s)) o r =
    ground (arith, is_rising-++ none o.received (legacy s), last_of-++ none o.received (legacy s))
observe-IsRising (status (snapshot version mode s)) o r = ground (
  arith,
  is_rising-++ none o.received (snapshot version mode s),
  last_of-++ none o.received (snapshot version mode s),
)
observe-IsRising rejected o r = ground arith
observe-IsRising unmounted o r = ground arith

pub observe_all-IsRising :
    (arrivals : List Arrival) (o : Observer) → IsRising o → IsRising (observe_all arrivals o)
unfolding observe_all
observe_all-IsRising [] o r = r
observe_all-IsRising (a ∷ arrivals) o r =
    observe_all-IsRising arrivals (observe a o) (observe-IsRising a o r)

-- Whatever arrives at the page, in whatever order, the snapshots handed on have rising sequence numbers.
pub observe_all-received :
    (arrivals : List Arrival) → is_rising none (observe_all arrivals new_observer).received ≡ true
observe_all-received arrivals =
    (observe_all-IsRising arrivals new_observer (record { rising = refl; last = refl })).rising
