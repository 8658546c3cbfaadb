-- ===== src/Filter/Types.antt =====
-- The filters: frontend/src/features/filter/types.ts.
use pixiv_biu.Base.{ℕ, ◌+◌, ◌==◌, Bool, true, false, not, List, [], ◌∷◌, String, if◌then◌else◌}

pub data AiFilter : Type 0 where
  any exclude only : AiFilter

pub data PageCountFilter : Type 0 where
  any single multi : PageCountFilter

pub data BookmarkedFilter : Type 0 where
  any only exclude : BookmarkedFilter

pub data AspectRatio : Type 0 where
  landscape portrait square : AspectRatio

pub data IllustTypeKey : Type 0 where
  illust manga ugoira : IllustTypeKey

pub data XRestrictKey : Type 0 where
  safe r18 r18g : XRestrictKey

abbrev pub min_bookmarks_tiers : List ℕ
min_bookmarks_tiers = 0 ∷ 100 ∷ 500 ∷ 1000 ∷ 5000 ∷ []

abbrev pub min_views_tiers : List ℕ
min_views_tiers = 0 ∷ 1000 ∷ 5000 ∷ 10000 ∷ 50000 ∷ []

pub record GeneralFilters : Type 0 where
  pub x_restrict : List XRestrictKey
  pub ai : AiFilter
  pub illust_type : List IllustTypeKey
  pub min_bookmarks : ℕ
  pub min_views : ℕ
  pub page_count : PageCountFilter
  pub aspect_ratio : List AspectRatio
  pub include_tags : List String
  pub exclude_tags : List String
  pub bookmarked : BookmarkedFilter

unfoldable pub default_general_filters : GeneralFilters
default_general_filters = record {
  x_restrict = [];
  ai = AiFilter.any;
  illust_type = [];
  min_bookmarks = 0;
  min_views = 0;
  page_count = PageCountFilter.any;
  aspect_ratio = [];
  include_tags = [];
  exclude_tags = [];
  bookmarked = BookmarkedFilter.any;
}

-- `xs.length > 0`.
abbrev pub is_nonempty {ℓ} : {A : Type ℓ} → List A → Bool
is_nonempty [] = false
is_nonempty (x ∷ xs) = true

pub record GeneralFilterFlags : Type 0 where
  pub x_restrict : Bool
  pub ai : Bool
  pub illust_type : Bool
  pub min_bookmarks : Bool
  pub min_views : Bool
  pub page_count : Bool
  pub aspect_ratio : Bool
  pub bookmarked : Bool
  pub include_tags : Bool
  pub exclude_tags : Bool

abbrev pub is_any_ai : AiFilter → Bool
is_any_ai AiFilter.any = true
is_any_ai _ = false

abbrev pub is_any_count : PageCountFilter → Bool
is_any_count PageCountFilter.any = true
is_any_count _ = false

abbrev pub is_any_bookmarked : BookmarkedFilter → Bool
is_any_bookmarked BookmarkedFilter.any = true
is_any_bookmarked _ = false

unfoldable pub get_general_filter_flags : GeneralFilters → GeneralFilterFlags
get_general_filter_flags f = record {
  x_restrict = is_nonempty f.x_restrict;
  ai = not (is_any_ai f.ai);
  illust_type = is_nonempty f.illust_type;
  min_bookmarks = not (f.min_bookmarks == 0);
  min_views = not (f.min_views == 0);
  page_count = not (is_any_count f.page_count);
  aspect_ratio = is_nonempty f.aspect_ratio;
  bookmarked = not (is_any_bookmarked f.bookmarked);
  include_tags = is_nonempty f.include_tags;
  exclude_tags = is_nonempty f.exclude_tags;
}

-- One flag in the length of the filtered values.
abbrev pub count_one : Bool → ℕ
count_one b = if b then 1 else 0

unfoldable pub count_active_general_filters : GeneralFilters → ℕ
unfolding get_general_filter_flags
count_active_general_filters f =
    let flags = get_general_filter_flags f in
    count_one flags.x_restrict
    + count_one flags.ai
    + count_one flags.illust_type
    + count_one flags.min_bookmarks
    + count_one flags.min_views
    + count_one flags.page_count
    + count_one flags.aspect_ratio
    + count_one flags.bookmarked
    + count_one flags.include_tags
    + count_one flags.exclude_tags

unfoldable pub is_general_filters_default : GeneralFilters → Bool
unfolding count_active_general_filters
is_general_filters_default f = count_active_general_filters f == 0
