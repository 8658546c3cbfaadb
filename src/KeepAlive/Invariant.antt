-- ===== src/KeepAlive/Invariant.antt =====
-- The invariant of the kept-alive pages (frontend/src/app/keep-alive/lru.ts).
use pixiv_biu.Base.{
  ℕ, ◌+◌, ◌<◌, ◌≡◌, ◌∙◌, refl, true, false, ◌&&◌, not, Option, none, some, List, [], ◌∷◌, ◌++◌, map,
  arith, find, any, All, All-append, All-map, is_some, Bool-cases, inl, inr, includes, Distinct,
  Distinct-concat, text_discrete, String, ℕ_discrete,
}
use mathlib.Core.List.{map-append}
use pixiv_biu.KeepAlive.{Entry, State, new_entry, has_key, stamp, reopen, place}

module _ {Loc : Type 0} where
  -- An entry is visible exactly if it is the active one.
  abbrev pub IsStamped : Option String → Entry Loc → Type 0
  IsStamped active e = is_some e.hidden_at ≡ not (has_key active e)

  abbrev pub seq_of : Entry Loc → ℕ
  seq_of e = e.id.seq

  abbrev pub key_of : Entry Loc → String
  key_of e = e.key

  abbrev pub find_key : String → List (Entry Loc) → Option (Entry Loc)
  find_key k = find (has_key (some k))

  -- The active key has an entry.
  abbrev pub HasActive : Option String → List (Entry Loc) → Type 0
  HasActive none es = Unit
  HasActive (some k) es = is_some (find_key k es) ≡ true

  abbrev pub IsBelow : ℕ → Entry Loc → Type 0
  IsBelow n e = e.id.seq < n

  -- What holds of the entries beside the next number.
  pub record AreValid (active : Option String) (n : ℕ) (es : List (Entry Loc)) : Type 0 where
    pub keys_distinct : Distinct text_discrete (map key_of es)
    pub ids_distinct : Distinct ℕ_discrete (map seq_of es)
    pub ids_used : All (IsBelow n) es
    pub stamped : All (IsStamped active) es

  pub record IsValid (s : State Loc) : Type 0 where
    pub entries_valid : AreValid s.active_key s.next_seq s.entries
    pub active_there : HasActive s.active_key s.entries

  -- Between the stamping and the placing only a page that stays active is visible.
  abbrev pub IsBetween : Option String → Option String → Entry Loc → Type 0
  IsBetween a k e = is_some e.hidden_at ≡ not (has_key a e && has_key k e)

  stamp-IsBetween :
      (a k : Option String) (now : ℕ) (e : Entry Loc)
      → IsStamped a e
      → IsBetween a k (stamp a k now e)
  unfolding stamp
  stamp-IsBetween none k now e h = ground arith
  stamp-IsBetween (some a) none now e h = ground arith
  stamp-IsBetween (some a) (some k) now e h = ground arith

  pub stamp-All-IsBetween :
      (a k : Option String) (now : ℕ) (es : List (Entry Loc))
      → All (IsStamped a) es
      → All (IsBetween a k) (map (stamp a k now) es)
  stamp-All-IsBetween a k now [] h = tt
  stamp-All-IsBetween a k now (e ∷ es) h =
      (stamp-IsBetween a k now e h.0, stamp-All-IsBetween a k now es h.1)

  key-stamp : (a k : Option String) (now : ℕ) (e : Entry Loc) → (stamp a k now e).key ≡ e.key
  unfolding stamp
  key-stamp a k now e = ground arith

  seq-stamp : (a k : Option String) (now : ℕ) (e : Entry Loc) → (stamp a k now e).id ≡ e.id
  unfolding stamp
  seq-stamp a k now e = ground arith

  pub map_keys-stamp :
      (a k : Option String) (now : ℕ) (es : List (Entry Loc))
      → map key_of (map (stamp a k now) es) ≡ map key_of es
  map_keys-stamp a k now [] = refl
  map_keys-stamp a k now (e ∷ es) = cc (key-stamp a k now e, map_keys-stamp a k now es)

  pub map_seqs-stamp :
      (a k : Option String) (now : ℕ) (es : List (Entry Loc))
      → map seq_of (map (stamp a k now) es) ≡ map seq_of es
  map_seqs-stamp a k now [] = refl
  map_seqs-stamp a k now (e ∷ es) = cc (seq-stamp a k now e, map_seqs-stamp a k now es)

  pub stamp-All-IsBelow :
      (a k : Option String) (now n : ℕ) (es : List (Entry Loc))
      → All (IsBelow n) es
      → All (IsBelow n) (map (stamp a k now) es)
  stamp-All-IsBelow a k now n [] h = tt
  stamp-All-IsBelow a k now n (e ∷ es) h =
      (rw (seq-stamp a k now e) h.0, stamp-All-IsBelow a k now n es h.1)

  -- The placing.
  keys-reopen :
      (k : String) (loc : Loc) (es : List (Entry Loc))
      → map key_of (reopen k loc es) ≡ map key_of es
  unfolding reopen
  keys-reopen k loc [] = refl
  keys-reopen k loc (e ∷ es) = ground (arith, keys-reopen k loc es)

  seqs-reopen :
      (k : String) (loc : Loc) (es : List (Entry Loc))
      → map seq_of (reopen k loc es) ≡ map seq_of es
  unfolding reopen
  seqs-reopen k loc [] = refl
  seqs-reopen k loc (e ∷ es) = ground (arith, seqs-reopen k loc es)

  reopen-IsBelow :
      (k : String) (loc : Loc) (n : ℕ) (es : List (Entry Loc))
      → All (IsBelow n) es
      → All (IsBelow n) (reopen k loc es)
  unfolding reopen
  reopen-IsBelow k loc n [] h = tt
  reopen-IsBelow k loc n (e ∷ es) h = ground (arith, reopen-IsBelow k loc n es h.1)

  -- No entry has the key.
  pub includes-of_any :
      (k : String) (es : List (Entry Loc))
      → includes text_discrete k (map key_of es) ≡ any (has_key (some k)) es
  includes-of_any k [] = refl
  includes-of_any k (e ∷ es) = ground (arith, includes-of_any k es)

  IsStamped-of_absent :
      (a : Option String) (k : String) (es : List (Entry Loc))
      → includes text_discrete k (map key_of es) ≡ false
      → All (IsBetween a (some k)) es
      → All (IsStamped (some k)) es
  IsStamped-of_absent a k [] h b = tt
  IsStamped-of_absent a k (e ∷ es) h b = ground (arith, IsStamped-of_absent a k es)

  reopen-IsStamped :
      (a : Option String) (k : String) (loc : Loc) (es : List (Entry Loc))
      → Distinct text_discrete (map key_of es)
      → All (IsBetween a (some k)) es
      → All (IsStamped (some k)) (reopen k loc es)
  unfolding reopen
  reopen-IsStamped a k loc [] d b = tt
  reopen-IsStamped a k loc (e ∷ es) d b =
      ground (arith, IsStamped-of_absent a k es, reopen-IsStamped a k loc es)

  seq-absent :
      (n : ℕ) (es : List (Entry Loc))
      → All (IsBelow n) es
      → includes ℕ_discrete n (map seq_of es) ≡ false
  seq-absent n [] h = refl
  seq-absent n (e ∷ es) h = ground (arith, seq-absent n es h.1)

  concat-AreValid :
      (a : Option String) (k : String) (loc : Loc) (n : ℕ) (es : List (Entry Loc))
      → any (has_key (some k)) es ≡ false
      → Distinct text_discrete (map key_of es)
      → Distinct ℕ_discrete (map seq_of es)
      → All (IsBelow n) es
      → All (IsBetween a (some k)) es
      → AreValid (some k) (n + 1) (es ++ new_entry k n loc ∷ [])
  unfolding new_entry
  concat-AreValid a k loc n es absent d i u b =
      let no_key = includes-of_any k es ∙ absent in
      record {
        keys_distinct = rw map-append (Distinct-concat text_discrete k (map key_of es) no_key d);
        ids_distinct =
            rw map-append (Distinct-concat ℕ_discrete n (map seq_of es) (seq-absent n es u) i);
        ids_used =
            All-append (IsBelow (n + 1)) es _
              (All-map (IsBelow n) (IsBelow (n + 1)) es (λ e h. omega arith) u) (omega arith, tt);
        stamped =
            All-append (IsStamped (some k)) es _ (IsStamped-of_absent a k es no_key b)
              (ground arith, tt);
      }

  -- Placing the next page keeps the entries valid.
  pub place-AreValid :
      (a k : Option String) (loc : Loc) (n : ℕ) (es : List (Entry Loc))
      → Distinct text_discrete (map key_of es)
      → Distinct ℕ_discrete (map seq_of es)
      → All (IsBelow n) es
      → All (IsBetween a k) es
      → AreValid k (place k loc n es).1 (place k loc n es).0
  unfolding place
  place-AreValid a none loc n es d i u b = record {
    keys_distinct = d;
    ids_distinct = i;
    ids_used = u;
    stamped = All-map (IsBetween a none) (IsStamped none) es (λ e h. ground arith) b;
  }
  place-AreValid a (some k) loc n es d i u b = elim (Bool-cases (any (has_key (some k)) es)) [
    | inl there ↦ rw there (record {
      keys_distinct = rw keys-reopen d;
      ids_distinct = rw seqs-reopen i;
      ids_used = reopen-IsBelow k loc n es u;
      stamped = reopen-IsStamped a k loc es d b;
    })
    | inr absent ↦ rw absent (concat-AreValid a k loc n es absent d i u b)
  ]
