-- ===== src/Filter/Written.antt =====
-- What a write to the filters' store leaves (frontend/src/features/filter/store.ts).
use pixiv_biu.Base.{
  ℕ, ◌≡◌, ◌≢◌, ◌↔◌, ◌⊎◌, inl, inr, refl, sym, subst, arith, ==_iff, Bool, true, false, ◌&&◌, Option,
  none, some, List, [], ◌∷◌, ◌++◌, String, if◌then◌else◌, includes, Distinct, get_or, ℕ_discrete,
  text_discrete, Bool-cases, All,
}
use pixiv_biu.Filter.Types.{
  XRestrictKey, IllustTypeKey, AspectRatio, GeneralFilters, default_general_filters,
  min_bookmarks_tiers, min_views_tiers,
}
use pixiv_biu.Filter.Store.{
  Stored, parsed, read, AiFilter-discrete, PageCountFilter-discrete, BookmarkedFilter-discrete,
  AspectRatio-discrete, IllustTypeKey-discrete, XRestrictKey-discrete,
}
use pixiv_biu.Filter.Writes.{
  raw_of, Store, notify, subscribe, unsubscribe, on_storage, is_same, same_array, shallow_equal,
  write, Patch, patched, set_filters, reset_filters,
}
use pixiv_biu.Filter.Kept.{IsValid, default-IsValid, read-IsValid, read-raw_of}

module _ {A : Type 0} (dec : Discrete A) where
  is_same_iff : (x y : A) → (is_same dec x y ≡ true) ↔ (x ≡ y)
  is_same_iff x y = ground arith

  same_array_eq : (xs ys : List A) → same_array dec xs ys ≡ true → xs ≡ ys
  same_array_eq [] [] h = refl
  same_array_eq [] (y ∷ ys) h = cc
  same_array_eq (x ∷ xs) [] h = cc
  same_array_eq (x ∷ xs) (y ∷ ys) h = ground (arith, same_array_eq xs ys, is_same_iff x y)

  same_array_refl : (xs : List A) → same_array dec xs xs ≡ true
  same_array_refl [] = refl
  same_array_refl (x ∷ xs) = ground (arith, same_array_refl xs)

and_lem : (a b : Bool) → (a && b) ≡ true → (a ≡ true) × (b ≡ true)
and_lem a b h = ground arith

shallow_equal_refl : (f : GeneralFilters) → shallow_equal f f ≡ true
unfolding shallow_equal
shallow_equal_refl f =
    let x = same_array_refl XRestrictKey-discrete f.x_restrict in
    let t = same_array_refl IllustTypeKey-discrete f.illust_type in
    let s = same_array_refl AspectRatio-discrete f.aspect_ratio in
    let i = same_array_refl text_discrete f.include_tags in
    let e = same_array_refl text_discrete f.exclude_tags in
    let a = (is_same_iff AiFilter-discrete f.ai f.ai).1 refl in
    let p = (is_same_iff PageCountFilter-discrete f.page_count f.page_count).1 refl in
    let m = (is_same_iff BookmarkedFilter-discrete f.bookmarked f.bookmarked).1 refl in
    let b = (==_iff f.min_bookmarks f.min_bookmarks).1 refl in
    let v = (==_iff f.min_views f.min_views).1 refl in rw (a, b, v, p, m, x, t, s, i, e) refl

shallow_equal_eq : (f g : GeneralFilters) → shallow_equal f g ≡ true → f ≡ g
unfolding shallow_equal
shallow_equal_eq f g h =
    let (a, h1) = and_lem _ _ h in
    let (b, h2) = and_lem _ _ h1 in
    let (v, h3) = and_lem _ _ h2 in
    let (p, h4) = and_lem _ _ h3 in
    let (m, h5) = and_lem _ _ h4 in
    let (x, h6) = and_lem _ _ h5 in
    let (t, h7) = and_lem _ _ h6 in
    let (s, h8) = and_lem _ _ h7 in
    let (i, e) = and_lem _ _ h8 in
    let a' = (is_same_iff AiFilter-discrete f.ai g.ai).0 a in
    let b' = (==_iff f.min_bookmarks g.min_bookmarks).0 b in
    let v' = (==_iff f.min_views g.min_views).0 v in
    let p' = (is_same_iff PageCountFilter-discrete f.page_count g.page_count).0 p in
    let m' = (is_same_iff BookmarkedFilter-discrete f.bookmarked g.bookmarked).0 m in
    let x' = same_array_eq XRestrictKey-discrete f.x_restrict g.x_restrict x in
    let t' = same_array_eq IllustTypeKey-discrete f.illust_type g.illust_type t in
    let s' = same_array_eq AspectRatio-discrete f.aspect_ratio g.aspect_ratio s in
    let i' = same_array_eq text_discrete f.include_tags g.include_tags i in
    let e' = same_array_eq text_discrete f.exclude_tags g.exclude_tags e in cc

unequal : (f g : GeneralFilters) → shallow_equal f g ≡ false → f ≢ g
unequal f g h e = let t = subst (λ x. shallow_equal f x ≡ true) e (shallow_equal_refl f) in cc

-- A write of the filters that are there does nothing; one of other filters takes them over, stores them
-- if it can, and calls every subscriber once.
pub write_lem :
    (writable : Bool) (next : GeneralFilters) (s : Store)
    → ((s.snapshot ≡ next) × (write writable next s ≡ s))
      ⊎ ((s.snapshot ≢ next)
          × (write writable next s ≡ record {
            snapshot = next;
            stored = if writable then parsed (some (raw_of next)) else s.stored;
            subscribers = s.subscribers;
            calls = s.calls ++ s.subscribers;
          }))
unfolding write notify
write_lem writable next s = elim (Bool-cases (shallow_equal s.snapshot next)) [
  | inl h ↦ inl (shallow_equal_eq s.snapshot next h, rw h refl)
  | inr h ↦ inr (unequal s.snapshot next h, rw h refl)
]

-- The stored filters are those of the snapshot, which are valid.
pub record IsCoherent (s : Store) : Type 0 where
  pub stored_same : read s.stored ≡ s.snapshot
  pub valid : IsValid s.snapshot

write-IsCoherent :
    (next : GeneralFilters) (s : Store)
    → IsValid next
    → IsCoherent s
    → IsCoherent (write true next s)
write-IsCoherent next s v c = elim (write_lem true next s) [
  | inl (_, e) ↦ subst IsCoherent (sym e) c
  | inr (_, e) ↦ subst IsCoherent (sym e) (record { stored_same = read-raw_of next v; valid = v })
]

-- The values of a patch are ones that the filters may have.
pub record IsValidPatch (p : Patch) : Type 0 where
  pub restricts :
      (xs : List XRestrictKey) → p.x_restrict ≡ some xs → Distinct XRestrictKey-discrete xs
  pub types :
      (xs : List IllustTypeKey) → p.illust_type ≡ some xs → Distinct IllustTypeKey-discrete xs
  pub bookmarks :
      (n : ℕ) → p.min_bookmarks ≡ some n → includes ℕ_discrete n min_bookmarks_tiers ≡ true
  pub views : (n : ℕ) → p.min_views ≡ some n → includes ℕ_discrete n min_views_tiers ≡ true
  pub aspects :
      (xs : List AspectRatio) → p.aspect_ratio ≡ some xs → Distinct AspectRatio-discrete xs
  pub included : (xs : List String) → p.include_tags ≡ some xs → Distinct text_discrete xs
  pub excluded : (xs : List String) → p.exclude_tags ≡ some xs → Distinct text_discrete xs

either :
    {A : Type 0} (P : A → Type 0) (d : A) (o : Option A)
    → P d
    → ((a : A) → o ≡ some a → P a)
    → P (get_or d o)
either P d none h k = h
either P d (some a) h k = k a refl

patched-IsValid :
    (p : Patch) (f : GeneralFilters) → IsValidPatch p → IsValid f → IsValid (patched p f)
unfolding patched
patched-IsValid p f v w = record {
  restricts =
      either (Distinct XRestrictKey-discrete) f.x_restrict p.x_restrict w.restricts v.restricts;
  types = either (Distinct IllustTypeKey-discrete) f.illust_type p.illust_type w.types v.types;
  bookmarks =
      either (λ n. includes ℕ_discrete n min_bookmarks_tiers ≡ true) f.min_bookmarks p.min_bookmarks
        w.bookmarks v.bookmarks;
  views =
      either (λ n. includes ℕ_discrete n min_views_tiers ≡ true) f.min_views p.min_views w.views
        v.views;
  aspects =
      either (Distinct AspectRatio-discrete) f.aspect_ratio p.aspect_ratio w.aspects v.aspects;
  included = either (Distinct text_discrete) f.include_tags p.include_tags w.included v.included;
  excluded = either (Distinct text_discrete) f.exclude_tags p.exclude_tags w.excluded v.excluded;
}

-- The operations of the store, and what another tab stores.
pub data Change : Type 0 where
  set_change : Patch → Change
  reset_change : Change
  stored_change : Stored → Change
  subscribed : ℕ → Change
  unsubscribed : ℕ → Change

unfoldable pub perform : Store → Change → Store
perform s (set_change p) = set_filters true p s
perform s reset_change = reset_filters true s
perform s (stored_change stored) = on_storage stored s
perform s (subscribed fn) = subscribe fn s
perform s (unsubscribed fn) = unsubscribe fn s

unfoldable pub perform_all : Store → List Change → Store
perform_all s [] = s
perform_all s (c ∷ cs) = perform_all (perform s c) cs

abbrev pub IsValidChange : Change → Type 0
IsValidChange (set_change p) = IsValidPatch p
IsValidChange _ = Unit

perform-IsCoherent :
    (s : Store) (c : Change) → IsValidChange c → IsCoherent s → IsCoherent (perform s c)
unfolding perform set_filters reset_filters on_storage notify subscribe unsubscribe
perform-IsCoherent s (set_change p) v h =
    write-IsCoherent (patched p s.snapshot) s (patched-IsValid p s.snapshot v h.valid) h
perform-IsCoherent s reset_change v h = write-IsCoherent default_general_filters s default-IsValid h
perform-IsCoherent s (stored_change stored) v h = record {
  stored_same = refl;
  valid = read-IsValid stored;
}
perform-IsCoherent s (subscribed fn) v h = record { stored_same = h.stored_same; valid = h.valid }
perform-IsCoherent s (unsubscribed fn) v h = record { stored_same = h.stored_same; valid = h.valid }

-- Where storage takes what is written, and patches have valid values, every run of changes keeps the
-- filters valid and equal to what reading the storage gives: a reload, or another tab, has the same
-- filters.
pub perform_all-IsCoherent :
    (s : Store) (cs : List Change)
    → All IsValidChange cs
    → IsCoherent s
    → IsCoherent (perform_all s cs)
unfolding perform_all
perform_all-IsCoherent s [] v h = h
perform_all-IsCoherent s (c ∷ cs) (v, vs) h =
    perform_all-IsCoherent (perform s c) cs vs (perform-IsCoherent s c v h)
