-- ===== src/KeepAlive.antt =====
-- The kept-alive pages: frontend/src/app/keep-alive/lru.ts.
-- A location is an opaque value. A time is a number of milliseconds. JavaScript compares two entries
-- as objects, `e === existing` and `e !== evict`; here an entry is told by its place in the list.
pub mod Evict
pub mod Invariant
pub mod Navigate
mod Tests
use pixiv_biu.Base.{
  ℕ, zero, suc, ◌+◌, ◌-◌, Bool, true, false, ◌&&◌, ◌||◌, not, Option, none, some, List, [], ◌∷◌,
  ◌++◌, map, String, ite, ltb, leb, if◌then◌else◌, is_some, length, filter, any, text_discrete,
}

-- The text `${key}@${seq}`, by its two parts: digits hold no `@`, so the text determines them.
pub record MountId : Type 0 where
  pub key : String
  pub seq : ℕ

pub record Entry (Loc : Type 0) : Type 0 where
  pub id : MountId
  pub key : String
  pub location : Loc
  pub hidden_at : Option ℕ

pub record State (Loc : Type 0) : Type 0 where
  pub entries : List (Entry Loc)
  pub active_key : Option String
  pub location : Loc
  pub next_seq : ℕ

pub record Options : Type 0 where
  pub max : ℕ
  pub idle_ttl : ℕ

-- The inner `for`: the place and the stamp of the entry hidden first.
abbrev pub older : Option ℕ → ℕ → Option (ℕ × ℕ) → Option (ℕ × ℕ)
older none i best = best
older (some t) i none = some (i, t)
older (some t) i (some (j, u)) = if ltb t u then some (i, t) else some (j, u)

module _ {Loc : Type 0} where
  unfoldable pub new_entry : String → ℕ → Loc → Entry Loc
  new_entry k n loc = record {
    id = record { key = k; seq = n };
    key = k;
    location = loc;
    hidden_at = none;
  }

  initial_entries : Loc → Option String → List (Entry Loc)
  unfolding new_entry
  initial_entries loc none = []
  initial_entries loc (some k) = new_entry k 0 loc ∷ []

  unfoldable pub initial_state : Loc → Option String → State Loc
  unfolding initial_entries
  initial_state loc key = record {
    entries = initial_entries loc key;
    active_key = key;
    location = loc;
    next_seq = 1;
  }

  -- `e.key === key`, where the key may be null.
  abbrev pub has_key : Option String → Entry Loc → Bool
  has_key none e = false
  has_key (some k) e = ite (text_discrete e.key k) true false

  -- The first `map`: the page that is left is stamped.
  unfoldable pub stamp : Option String → Option String → ℕ → Entry Loc → Entry Loc
  stamp active key now e =
      if has_key active e && not (has_key key e) then record e { hidden_at = some now } else e

  -- The `filter`. Where the clock went back, the difference is negative in the source and 0 here.
  unfoldable pub is_fresh : ℕ → ℕ → Entry Loc → Bool
  is_fresh now ttl e = elim e.hidden_at [ none ↦ true | some t ↦ leb (now - t) ttl ]

  -- `entries.map(e => e === existing ? … : e)`, where `existing` is the first with the key.
  unfoldable pub reopen : String → Loc → List (Entry Loc) → List (Entry Loc)
  reopen k loc [] = []
  reopen k loc (e ∷ es) =
      if has_key (some k) e
      then record e { location = loc; hidden_at = none } ∷ es
      else e ∷ reopen k loc es

  unfoldable pub place : Option String → Loc → ℕ → List (Entry Loc) → List (Entry Loc) × ℕ
  place none loc n es = (es, n)
  place (some k) loc n es =
      if any (has_key (some k)) es
      then (reopen k loc es, n)
      else (es ++ new_entry k n loc ∷ [], n + 1)

  unfoldable pub oldest_from : ℕ → Option (ℕ × ℕ) → List (Entry Loc) → Option (ℕ × ℕ)
  oldest_from i best [] = best
  oldest_from i best (e ∷ es) = oldest_from (suc i) (older e.hidden_at i best) es

  unfoldable pub remove_at : ℕ → List (Entry Loc) → List (Entry Loc)
  remove_at i [] = []
  remove_at zero (e ∷ es) = es
  remove_at (suc i) (e ∷ es) = e ∷ remove_at i es

  -- The `while`: every round drops one entry, so the number of entries is fuel enough.
  unfoldable pub evict : ℕ → ℕ → List (Entry Loc) → List (Entry Loc)
  evict zero max es = es
  evict (suc fuel) max es = elim (ltb max (length es)) [
    | false ↦ es
    | true ↦ elim (oldest_from 0 none es) [
      | none ↦ es
      | some (i, t) ↦ evict fuel max (remove_at i es)
    ]
  ]

  -- The entries before the `while`, and the next number.
  unfoldable pub shown : State Loc → Loc → Option String → ℕ → Options → List (Entry Loc) × ℕ
  shown s loc key now o =
      place key loc s.next_seq
        (filter (is_fresh now o.idle_ttl) (map (stamp s.active_key key now) s.entries))

  unfoldable pub next_state : State Loc → Loc → Option String → ℕ → Options → State Loc
  unfolding shown
  next_state s loc key now o =
      let (es, n) = shown s loc key now o in
      record {
        entries = evict (length es) o.max es;
        active_key = key;
        location = loc;
        next_seq = n;
      }
