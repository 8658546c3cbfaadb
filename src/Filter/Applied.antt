-- ===== src/Filter/Applied.antt =====
-- The filtered list, and the filters that are at their default (frontend/src/features/filter/apply.ts).
use pixiv_biu.Base.{
  ℕ, ◌≡◌, ◌↔◌, refl, ap, arith, ◌==◌, Bool, true, false, not, List, [], ◌∷◌, map, String, filter,
  ==_iff,
}
use pixiv_biu.Filter.Types.{
  AiFilter, PageCountFilter, BookmarkedFilter, GeneralFilters, default_general_filters, is_nonempty,
  get_general_filter_flags, count_active_general_filters, is_general_filters_default, count_one,
  is_any_ai, is_any_count, is_any_bookmarked,
}
use pixiv_biu.Filter.Apply.{Illust, matches, apply_general_filters}
use pixiv_biu.Filter.Matches.{Exists, Passes, matches_iff}

module _ (p : Illust → Bool) where
  Exists-filter :
      (il : Illust) (xs : List Illust)
      → Exists (λ x. x ≡ il) (filter p xs) ↔ (Exists (λ x. x ≡ il) xs × (p il ≡ true))
  Exists-filter il [] = ground arith
  Exists-filter il (x ∷ xs) = ground (arith, Exists-filter il xs, λ (e : x ≡ il). ap p e)

  filter_all : (xs : List Illust) → ((x : Illust) → p x ≡ true) → filter p xs ≡ xs
  filter_all [] h = refl
  filter_all (x ∷ xs) h = ground (arith, h x, filter_all xs h)

empty_lem {ℓ} : {A : Type ℓ} (xs : List A) → is_nonempty xs ≡ false → xs ≡ []
empty_lem [] h = refl
empty_lem (x ∷ xs) h = cc

abbrev NoFlag : GeneralFilters → Type 0
NoFlag f =
    (f.x_restrict ≡ [])
    × (f.ai ≡ AiFilter.any)
    × (f.illust_type ≡ [])
    × (f.min_bookmarks ≡ 0)
    × (f.min_views ≡ 0)
    × (f.page_count ≡ PageCountFilter.any)
    × (f.aspect_ratio ≡ [])
    × (f.bookmarked ≡ BookmarkedFilter.any)
    × (f.include_tags ≡ [])
    × (f.exclude_tags ≡ [])

no_flag : (f : GeneralFilters) → count_active_general_filters f ≡ 0 → NoFlag f
unfolding count_active_general_filters get_general_filter_flags
no_flag f h = (
  empty_lem f.x_restrict (off _ (omega arith)),
  ai_lem f.ai (off _ (omega arith)),
  empty_lem f.illust_type (off _ (omega arith)),
  number_lem f.min_bookmarks (off _ (omega arith)),
  number_lem f.min_views (off _ (omega arith)),
  page_count_lem f.page_count (off _ (omega arith)),
  empty_lem f.aspect_ratio (off _ (omega arith)),
  bookmarked_lem f.bookmarked (off _ (omega arith)),
  empty_lem f.include_tags (off _ (omega arith)),
  empty_lem f.exclude_tags (off _ (omega arith)),
)
  where
    off : (b : Bool) → count_one b ≡ 0 → b ≡ false
    off b e = ground arith

    ai_lem : (a : AiFilter) → not (is_any_ai a) ≡ false → a ≡ AiFilter.any
    ai_lem a h = ground arith

    number_lem : (n : ℕ) → not (n == 0) ≡ false → n ≡ 0
    number_lem n h = ground arith

    page_count_lem : (a : PageCountFilter) → not (is_any_count a) ≡ false → a ≡ PageCountFilter.any
    page_count_lem a h = ground arith

    bookmarked_lem :
        (a : BookmarkedFilter) → not (is_any_bookmarked a) ≡ false → a ≡ BookmarkedFilter.any
    bookmarked_lem a h = ground arith

-- No filter counts as active exactly if all are at their default.
pub is_general_filters_default_iff :
    (f : GeneralFilters) → (is_general_filters_default f ≡ true) ↔ (f ≡ default_general_filters)
unfolding is_general_filters_default default_general_filters
is_general_filters_default_iff f = (
  (λ h.
      let count = (==_iff (count_active_general_filters f) 0).0 h in
      let (x, a, t, b, v, p, s, m, i, e) = no_flag f count in cc),
  (λ e. rw e refl),
)

module _ (to_lower_case : String → String) (contains : String → String → Bool) where
  -- The filtered list has an illustration exactly if the list has it and it passes: each filter that is
  -- not at its default asks what it says of the rating, the AI flag, the type, the counts, the number of
  -- pages, the shape, the bookmark and the tags.
  pub apply_general_filters_iff :
      (il : Illust) (xs : List Illust) (f : GeneralFilters)
      → Exists (λ x. x ≡ il) (apply_general_filters to_lower_case contains xs f) ↔ (
          Exists (λ x. x ≡ il) xs
          × Passes to_lower_case contains il f
              (map to_lower_case f.include_tags)
              (map to_lower_case f.exclude_tags))
  unfolding apply_general_filters
  apply_general_filters_iff il xs f =
      let inc = map to_lower_case f.include_tags in
      let exc = map to_lower_case f.exclude_tags in
      let (there, back) = Exists-filter (λ x. matches to_lower_case contains x f inc exc) il xs in
      let (passes, matching) = matches_iff to_lower_case contains il f inc exc in
      ((λ h. let (e, m) = there h in (e, passes m)), (λ h. back (h.0, matching h.1)))

  -- Filters that all are at their default keep every list as it is.
  pub apply_general_filters_default :
      (xs : List Illust) (f : GeneralFilters)
      → is_general_filters_default f ≡ true
      → apply_general_filters to_lower_case contains xs f ≡ xs
  unfolding apply_general_filters default_general_filters
  apply_general_filters_default xs f h = rw ((is_general_filters_default_iff f).0 h) (
      filter_all (λ il. matches to_lower_case contains il default_general_filters [] []) xs
        (λ il. (matches_iff to_lower_case contains il default_general_filters [] []).1 (record {
          restrict = tt;
          ai = tt;
          type = tt;
          counts = (omega arith, omega arith);
          pages = tt;
          aspect = tt;
          bookmarked = tt;
          included = tt;
          excluded = λ x. x;
        })))
