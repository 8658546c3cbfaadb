-- ===== src/KeepAlive/Navigate.antt =====
-- What a navigation between kept-alive pages promises (frontend/src/app/keep-alive/lru.ts).
use pixiv_biu.Base.{
  ℕ, ◌≤◌, ◌<◌, ◌≡◌, ◌∙◌, sym, ap, refl, true, false, Option, none, some, List, [], ◌∷◌, ◌++◌, map,
  arith, length, filter, any, All, All-filter, is_some, Bool-cases, inl, inr, includes, Distinct,
  Distinct-map-filter, text_discrete, String, ℕ_discrete, if◌then◌else◌, ltb, not, ◌+◌, Bool,
}
use pixiv_biu.KeepAlive.{
  Entry, State, Options, new_entry, has_key, stamp, is_fresh, reopen, place, evict, shown,
  next_state, initial_state,
}
use pixiv_biu.KeepAlive.Evict.{
  IsVisible, IsHiddenSince, visible, visible-evict, evict_bounded, All-evict, Distinct-evict, Parts,
  evict-Parts,
}
use pixiv_biu.KeepAlive.Invariant.{
  IsStamped, seq_of, key_of, find_key, HasActive, IsBelow, AreValid, IsValid, place-AreValid,
  stamp-All-IsBetween, stamp-All-IsBelow, map_keys-stamp, map_seqs-stamp, IsBetween,
}

-- Whether a page that was hidden then has idled for more than the time it may.
abbrev pub has_idled : Option ℕ → ℕ → ℕ → Bool
has_idled none now ttl = false
has_idled (some t) now ttl = ltb (t + ttl) now

module _ {Loc : Type 0} where
  -- What stands under the key before the eviction.
  pub opened : String → Loc → ℕ → ℕ → ℕ → Option (Entry Loc) → Entry Loc
  opened k loc n now ttl none = new_entry k n loc
  opened k loc n now ttl (some e) =
      if has_idled e.hidden_at now ttl
      then new_entry k n loc
      else record e { location = loc; hidden_at = none }

  find-stamp :
      (a : Option String) (k : String) (now : ℕ) (es : List (Entry Loc))
      → find_key k (map (stamp a (some k) now) es) ≡ find_key k es
  unfolding stamp
  find-stamp a k now [] = refl
  find-stamp a k now (e ∷ es) = ground (arith, find-stamp a k now es)

  find-absent :
      (k : String) (es : List (Entry Loc))
      → includes text_discrete k (map key_of es) ≡ false
      → find_key k es ≡ none
  find-absent k [] h = refl
  find-absent k (e ∷ es) h = ground (arith, find-absent k es)

  fresh_only : ℕ → ℕ → Option (Entry Loc) → Option (Entry Loc)
  fresh_only now ttl none = none
  fresh_only now ttl (some e) = if is_fresh now ttl e then some e else none

  find-filter :
      (k : String) (now ttl : ℕ) (es : List (Entry Loc))
      → Distinct text_discrete (map key_of es)
      → find_key k (filter (is_fresh now ttl) es) ≡ fresh_only now ttl (find_key k es)
  unfolding fresh_only
  find-filter k now ttl [] d = refl
  find-filter k now ttl (e ∷ es) d = ground (arith, find-filter k now ttl es d.1, find-absent k es)

  placed : String → Loc → ℕ → Option (Entry Loc) → Entry Loc
  placed k loc n none = new_entry k n loc
  placed k loc n (some e) = record e { location = loc; hidden_at = none }

  any-of_find :
      (k : String) (es : List (Entry Loc)) → any (has_key (some k)) es ≡ is_some (find_key k es)
  any-of_find k [] = refl
  any-of_find k (e ∷ es) = ground (arith, any-of_find k es)

  find-reopen :
      (k : String) (loc : Loc) (n : ℕ) (es : List (Entry Loc))
      → any (has_key (some k)) es ≡ true
      → find_key k (reopen k loc es) ≡ some (placed k loc n (find_key k es))
  unfolding reopen placed
  find-reopen k loc n [] h = cc
  find-reopen k loc n (e ∷ es) h = ground (arith, find-reopen k loc n es)

  find-concat :
      (k : String) (loc : Loc) (n : ℕ) (es : List (Entry Loc))
      → any (has_key (some k)) es ≡ false
      → find_key k (es ++ new_entry k n loc ∷ []) ≡ some (placed k loc n (find_key k es))
  unfolding placed new_entry
  find-concat k loc n [] h = ground arith
  find-concat k loc n (e ∷ es) h = ground (arith, find-concat k loc n es)

  find-place :
      (k : String) (loc : Loc) (n : ℕ) (es : List (Entry Loc))
      → find_key k (place (some k) loc n es).0 ≡ some (placed k loc n (find_key k es))
  unfolding place
  find-place k loc n es = elim (Bool-cases (any (has_key (some k)) es)) [
    | inl there ↦ rw there (find-reopen k loc n es there)
    | inr absent ↦ rw absent (find-concat k loc n es absent)
  ]

  -- The active page is visible, and the eviction keeps what is visible.
  find-visible :
      (k : String) (es : List (Entry Loc))
      → All (IsStamped (some k)) es
      → find_key k (visible es) ≡ find_key k es
  find-visible k [] h = refl
  find-visible k (e ∷ es) h = ground (arith, find-visible k es h.1)

  IsHiddenSince-zero : (es : List (Entry Loc)) → All (IsHiddenSince 0) es
  IsHiddenSince-zero [] = tt
  IsHiddenSince-zero (e ∷ es) = (ground arith, IsHiddenSince-zero es)

  is_fresh-idled :
      (e : Entry Loc) (now ttl : ℕ) → is_fresh now ttl e ≡ not (has_idled e.hidden_at now ttl)
  unfolding is_fresh
  is_fresh-idled e now ttl = ground arith

  opened-placed :
      (k : String) (loc : Loc) (n now ttl : ℕ) (o : Option (Entry Loc))
      → placed k loc n (fresh_only now ttl o) ≡ opened k loc n now ttl o
  unfolding placed fresh_only opened
  opened-placed k loc n now ttl none = refl
  opened-placed k loc n now ttl (some e) = ground (arith, is_fresh-idled e now ttl)

  module _ (s : State Loc) (loc : Loc) (now : ℕ) (o : Options) where
    abbrev stamped_entries : Option String → List (Entry Loc)
    stamped_entries key = map (stamp s.active_key key now) s.entries

    abbrev kept_entries : Option String → List (Entry Loc)
    kept_entries key = filter (is_fresh now o.idle_ttl) (stamped_entries key)

    shown-AreValid :
        (key : Option String)
        → IsValid s
        → AreValid key (shown s loc key now o).1 (shown s loc key now o).0
    unfolding shown
    shown-AreValid key v =
        place-AreValid s.active_key key loc s.next_seq (kept_entries key)
          (Distinct-map-filter text_discrete key_of (is_fresh now o.idle_ttl) (stamped_entries key)
            (rw map_keys-stamp v.entries_valid.keys_distinct))
          (Distinct-map-filter ℕ_discrete seq_of (is_fresh now o.idle_ttl) (stamped_entries key)
            (rw map_seqs-stamp v.entries_valid.ids_distinct))
          (All-filter (IsBelow s.next_seq) (is_fresh now o.idle_ttl) (stamped_entries key)
            (stamp-All-IsBelow s.active_key key now s.next_seq s.entries v.entries_valid.ids_used))
          (All-filter (IsBetween s.active_key key) (is_fresh now o.idle_ttl) (stamped_entries key)
            (stamp-All-IsBetween s.active_key key now s.entries v.entries_valid.stamped))

    next-AreValid :
        (key : Option String)
        → IsValid s
        → AreValid key (next_state s loc key now o).next_seq (next_state s loc key now o).entries
    unfolding next_state
    next-AreValid key v =
        let es = (shown s loc key now o).0 in
        let a = shown-AreValid key v in
        record {
          keys_distinct = Distinct-evict text_discrete key_of (length es) o.max es a.keys_distinct;
          ids_distinct = Distinct-evict ℕ_discrete seq_of (length es) o.max es a.ids_distinct;
          ids_used = All-evict (IsBelow (shown s loc key now o).1) (length es) o.max es a.ids_used;
          stamped = All-evict (IsStamped key) (length es) o.max es a.stamped;
        }

    shown-find :
        (k : String)
        → IsValid s
        → find_key k (shown s loc (some k) now o).0
          ≡ some (opened k loc s.next_seq now o.idle_ttl (find_key k s.entries))
    unfolding shown
    shown-find k v =
        let d = v.entries_valid.keys_distinct in
        find-place k loc s.next_seq (kept_entries (some k))
        ∙ ap (λ x. some (placed k loc s.next_seq x))
            (find-filter k now o.idle_ttl (stamped_entries (some k)) (rw map_keys-stamp d)
              ∙ ap (fresh_only now o.idle_ttl) (find-stamp s.active_key k now s.entries))
        ∙ ap (λ (e : Entry Loc). some e)
            (opened-placed k loc s.next_seq now o.idle_ttl (find_key k s.entries))

    -- From a valid state, whatever the bounds, a navigation to the key `k` leaves a page to find under
    -- `k`, visible and at the new location: the instance that was there (its id kept) if it was
    -- active or hidden for no longer than the limit, and else a new instance whose id carries the next
    -- number. In particular the eviction never drops the page just opened.
    pub next_state-find :
        (k : String)
        → IsValid s
        → find_key k (next_state s loc (some k) now o).entries
          ≡ some (opened k loc s.next_seq now o.idle_ttl (find_key k s.entries))
    unfolding next_state
    next_state-find k v =
        let es = (shown s loc (some k) now o).0 in
        let a = shown-AreValid (some k) v in
        sym (
          find-visible k (evict (length es) o.max es)
            (All-evict (IsStamped (some k)) (length es) o.max es a.stamped))
        ∙ ap (find_key k) (visible-evict (length es) o.max es)
        ∙ find-visible k es a.stamped
        ∙ shown-find k v

    next-HasActive :
        (key : Option String) → IsValid s → HasActive key (next_state s loc key now o).entries
    next-HasActive none v = tt
    next-HasActive (some k) v = rw (next_state-find k v)

    -- Every navigation keeps the state valid: keys and ids stay distinct, every id carries a number
    -- below the next one, an entry is visible exactly if it is active, and the active page is there.
    pub next_state-IsValid :
        (key : Option String) → IsValid s → IsValid (next_state s loc key now o)
    unfolding next_state
    next_state-IsValid key v = record {
      entries_valid = unfold next_state in next-AreValid key v;
      active_there = unfold next_state in next-HasActive key v;
    }

    one_visible :
        (key : Option String) (es : List (Entry Loc))
        → Distinct text_discrete (map key_of es)
        → All (IsStamped key) es
        → All IsVisible es
        → length es ≤ 1
    one_visible key [] d a b = omega arith
    one_visible key (e ∷ []) d a b = omega arith
    one_visible none (e ∷ f ∷ es) d a b = ground arith
    one_visible (some k) (e ∷ f ∷ es) d a b = ground arith

    -- From a valid state, with room for one page at least, a navigation leaves no more pages than the
    -- bound.
    pub next_state_bounded :
        (key : Option String)
        → IsValid s
        → 0 < o.max
        → length (next_state s loc key now o).entries ≤ o.max
    unfolding next_state
    next_state_bounded key v pos =
        let es = (shown s loc key now o).0 in
        let out = evict (length es) o.max es in
        let a = next-AreValid key v in
        elim (evict_bounded (length es) o.max es (omega arith)) [
          | inl h ↦ h
          | inr h ↦ omega (arith, one_visible key out a.keys_distinct a.stamped h)
        ]

    -- The pages dropped for room are the ones hidden longest: some time parts the dropped entries, all
    -- hidden at that time or before, from the hidden entries that stay, all hidden at it or later; and
    -- the others stay in their order.
    pub next_state-Parts :
        (key : Option String)
        → Parts 0 (shown s loc key now o).0 (next_state s loc key now o).entries
    unfolding next_state
    next_state-Parts key =
        let es = (shown s loc key now o).0 in
        evict-Parts (length es) o.max 0 es (IsHiddenSince-zero es)

  -- The first state is valid, for a page that is kept and for one that is not.
  pub initial_state-IsValid : (loc : Loc) (key : Option String) → IsValid (initial_state loc key)
  unfolding initial_state new_entry
  initial_state-IsValid loc none = record {
    entries_valid = record { keys_distinct = tt; ids_distinct = tt; ids_used = tt; stamped = tt };
    active_there = tt;
  }
  initial_state-IsValid loc (some k) = record {
    entries_valid = record {
      keys_distinct = (refl, tt);
      ids_distinct = (refl, tt);
      ids_used = (omega arith, tt);
      stamped = (ground arith, tt);
    };
    active_there = ground arith;
  }
