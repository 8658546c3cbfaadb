-- ===== src/Filter/Tests.antt =====
-- Runs of the filters, and the theorems at them.
use pixiv_biu.Base.{
  add, ◌≡◌, ◌↔◌, refl, arith, false, none, some, [], ◌∷◌, map, String, text_discrete,
}
use pixiv_biu.Filter.Types.{AiFilter, safe, r18, landscape, GeneralFilters, default_general_filters}
use pixiv_biu.Filter.Apply.{
  Illust, is_text, apply_general_filters, matches, any_match, lowercase_tag_surface,
  classify_aspect, classify_x_restrict,
}
use pixiv_biu.Filter.Store.{
  XRestrictKey-discrete, Stored, unset, parsed, text, number, array, nothing, read, sanitize,
  sanitize_strings, restrict_of,
}
use pixiv_biu.Filter.Matches.{Exists, Passes}
use pixiv_biu.Filter.Applied.{apply_general_filters_iff}
use pixiv_biu.Filter.Writes.{Store, Patch}
use pixiv_biu.Filter.Kept.{default-IsValid}
use pixiv_biu.Filter.Written.{
  IsCoherent, set_change, reset_change, stored_change, perform_all, perform_all-IsCoherent,
}

abbrev same_case : String → String
same_case s = s

abbrev a_cat : Illust
a_cat = record {
  id = 1;
  type = "illust";
  x_restrict = 0;
  illust_ai_type = 1;
  total_bookmarks = 700;
  total_view = 9000;
  page_count = 1;
  width = 1200;
  height = 800;
  is_bookmarked = false;
  tags = record { name = "neko"; translated_name = some "cat" } ∷ [];
}

abbrev a_dog : Illust
a_dog = record a_cat {
  id = 2;
  x_restrict = 1;
  tags = record { name = "inu"; translated_name = none } ∷ [];
}

abbrev cats_only : GeneralFilters
cats_only = record default_general_filters {
  x_restrict = safe ∷ [];
  ai = AiFilter.exclude;
  min_bookmarks = 500;
  aspect_ratio = landscape ∷ [];
  include_tags = "cat" ∷ [];
}

one_left : apply_general_filters same_case is_text (a_cat ∷ a_dog ∷ []) cats_only ≡ a_cat ∷ []
unfolding apply_general_filters matches any_match lowercase_tag_surface classify_aspect
    classify_x_restrict text_discrete default_general_filters
one_left = refl

apply_general_filters_iff_example :
    Exists (λ x. x ≡ a_cat) (apply_general_filters same_case is_text (a_cat ∷ a_dog ∷ []) cats_only)
    ↔ (Exists (λ x. x ≡ a_cat) (a_cat ∷ a_dog ∷ [])
        × Passes same_case is_text a_cat cats_only
            (map same_case cats_only.include_tags)
            (map same_case cats_only.exclude_tags))
apply_general_filters_iff_example =
    apply_general_filters_iff same_case is_text a_cat (a_cat ∷ a_dog ∷ []) cats_only

-- An unknown key, a repeated one and a value that is no text are left out.
abbrev odd_item : Stored
odd_item = parsed (
    some (record {
      x_restrict = array (some "r18" ∷ none ∷ some "gore" ∷ some "r18" ∷ []);
      ai = text "only";
      illust_type = nothing;
      min_bookmarks = number 7;
      min_views = number 5000;
      page_count = nothing;
      aspect_ratio = number 0;
      include_tags = array (some "cat" ∷ []);
      exclude_tags = nothing;
      bookmarked = text "any";
    }))

odd_restricts : (read odd_item).x_restrict ≡ r18 ∷ []
unfolding read sanitize sanitize_strings restrict_of text_discrete add XRestrictKey-discrete
odd_restricts = refl

abbrev fresh : Store
fresh = record {
  snapshot = default_general_filters;
  stored = unset;
  subscribers = 1 ∷ [];
  calls = [];
}

fresh-IsCoherent : IsCoherent fresh
unfolding read
fresh-IsCoherent = record { stored_same = refl; valid = default-IsValid }

abbrev no_patch : Patch
no_patch = record {
  x_restrict = none;
  ai = none;
  illust_type = none;
  min_bookmarks = none;
  min_views = none;
  page_count = none;
  aspect_ratio = none;
  include_tags = none;
  exclude_tags = none;
  bookmarked = none;
}

perform_all-IsCoherent_example : IsCoherent (
    perform_all fresh (
      set_change (record no_patch { ai = some AiFilter.only; min_views = some 5000 })
      ∷ stored_change odd_item
      ∷ reset_change
      ∷ []))
perform_all-IsCoherent_example =
    perform_all-IsCoherent fresh
      (set_change (record no_patch { ai = some AiFilter.only; min_views = some 5000 })
        ∷ stored_change odd_item
        ∷ reset_change
        ∷ [])
      (
        record {
          restricts = λ xs e. absurd (ground arith);
          types = λ xs e. absurd (ground arith);
          bookmarks = λ n e. absurd (ground arith);
          views = λ n e. ground arith;
          aspects = λ xs e. absurd (ground arith);
          included = λ xs e. absurd (ground arith);
          excluded = λ xs e. absurd (ground arith);
        },
        (tt, (tt, tt)),
      )
      fresh-IsCoherent
