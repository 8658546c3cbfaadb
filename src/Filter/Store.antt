-- ===== src/Filter/Store.antt =====
-- The filters' store: frontend/src/features/filter/store.ts.
-- A key of an enumeration is a text in the source and a constructor here, which `…_text` and `…_of` take
-- to one another. There is a `window`, as in every browser. What `JSON.parse` gives is read no deeper than the source reads it.
use pixiv_biu.Base.{
  ℕ, Option, none, some, List, [], ◌∷◌, String, ite, if◌then◌else◌, includes, add, ℕ_discrete,
  text_discrete,
}
use pixiv_biu.Filter.Types.{
  AiFilter, PageCountFilter, BookmarkedFilter, AspectRatio, landscape, portrait, square,
  IllustTypeKey, illust, manga, ugoira, XRestrictKey, safe, r18, r18g, GeneralFilters,
  default_general_filters, min_bookmarks_tiers, min_views_tiers,
}

unfoldable pub AiFilter-discrete : Discrete AiFilter
AiFilter-discrete = hlevel

unfoldable pub PageCountFilter-discrete : Discrete PageCountFilter
PageCountFilter-discrete = hlevel

unfoldable pub BookmarkedFilter-discrete : Discrete BookmarkedFilter
BookmarkedFilter-discrete = hlevel

unfoldable pub AspectRatio-discrete : Discrete AspectRatio
AspectRatio-discrete = hlevel

unfoldable pub IllustTypeKey-discrete : Discrete IllustTypeKey
IllustTypeKey-discrete = hlevel

unfoldable pub XRestrictKey-discrete : Discrete XRestrictKey
XRestrictKey-discrete = hlevel

-- A value of the parsed object: an item that is not a text is `none`, and `nothing` is any value that is
-- neither a text, nor a number from 0 up, nor an array, or no value at all.
pub data RawValue : Type 0 where
  text : String → RawValue
  number : ℕ → RawValue
  array : List (Option String) → RawValue
  nothing : RawValue

pub record RawFilters : Type 0 where
  pub x_restrict : RawValue
  pub ai : RawValue
  pub illust_type : RawValue
  pub min_bookmarks : RawValue
  pub min_views : RawValue
  pub page_count : RawValue
  pub aspect_ratio : RawValue
  pub include_tags : RawValue
  pub exclude_tags : RawValue
  pub bookmarked : RawValue

-- The item in `localStorage`; `parsed none` is a value that is no object.
pub data Stored : Type 0 where
  unset : Stored
  unreadable : Stored
  parsed : Option RawFilters → Stored

abbrev pub restrict_text : XRestrictKey → String
restrict_text safe = "safe"
restrict_text r18 = "r18"
restrict_text r18g = "r18g"

unfoldable pub restrict_of : String → Option XRestrictKey
restrict_of s =
    ite (text_discrete s "safe") (some safe)
      (ite (text_discrete s "r18") (some r18) (ite (text_discrete s "r18g") (some r18g) none))

unfoldable pub type_of : String → Option IllustTypeKey
type_of s =
    ite (text_discrete s "illust") (some illust) (
      ite (text_discrete s "manga") (some manga)
        (ite (text_discrete s "ugoira") (some ugoira) none))

abbrev pub aspect_text : AspectRatio → String
aspect_text landscape = "landscape"
aspect_text portrait = "portrait"
aspect_text square = "square"

unfoldable pub aspect_of : String → Option AspectRatio
aspect_of s = ite (text_discrete s "landscape") (some landscape) (
    ite (text_discrete s "portrait") (some portrait)
      (ite (text_discrete s "square") (some square) none))

-- The allowed texts: `seen` and `out` have the same elements.
module _ {A : Type 0} (dec : Discrete A) (of_text : String → Option A) where
  abbrev pub add_item : List A → Option A → List A
  add_item out none = out
  add_item out (some a) = add dec a out

  abbrev pub sanitize_items : List A → List (Option String) → List A
  sanitize_items out [] = out
  sanitize_items out (none ∷ items) = sanitize_items out items
  sanitize_items out (some s ∷ items) = sanitize_items (add_item out (of_text s)) items

  unfoldable pub sanitize_strings : RawValue → List A
  sanitize_strings (array items) = sanitize_items [] items
  sanitize_strings _ = []

unfoldable pub sanitize_tier : List ℕ → RawValue → ℕ
sanitize_tier tiers (number n) = if includes ℕ_discrete n tiers then n else 0
sanitize_tier tiers _ = 0

unfoldable pub sanitize_ai : RawValue → AiFilter
sanitize_ai (text s) =
    ite (text_discrete s "exclude") AiFilter.exclude
      (ite (text_discrete s "only") AiFilter.only AiFilter.any)
sanitize_ai _ = AiFilter.any

unfoldable pub sanitize_page_count : RawValue → PageCountFilter
sanitize_page_count (text s) =
    ite (text_discrete s "single") PageCountFilter.single
      (ite (text_discrete s "multi") PageCountFilter.multi PageCountFilter.any)
sanitize_page_count _ = PageCountFilter.any

unfoldable pub sanitize_bookmarked : RawValue → BookmarkedFilter
sanitize_bookmarked (text s) =
    ite (text_discrete s "only") BookmarkedFilter.only
      (ite (text_discrete s "exclude") BookmarkedFilter.exclude BookmarkedFilter.any)
sanitize_bookmarked _ = BookmarkedFilter.any

unfoldable pub sanitize : Option RawFilters → GeneralFilters
sanitize none = default_general_filters
sanitize (some r) = record {
  x_restrict = sanitize_strings XRestrictKey-discrete restrict_of r.x_restrict;
  ai = sanitize_ai r.ai;
  illust_type = sanitize_strings IllustTypeKey-discrete type_of r.illust_type;
  min_bookmarks = sanitize_tier min_bookmarks_tiers r.min_bookmarks;
  min_views = sanitize_tier min_views_tiers r.min_views;
  page_count = sanitize_page_count r.page_count;
  aspect_ratio = sanitize_strings AspectRatio-discrete aspect_of r.aspect_ratio;
  include_tags = sanitize_strings text_discrete (λ s. some s) r.include_tags;
  exclude_tags = sanitize_strings text_discrete (λ s. some s) r.exclude_tags;
  bookmarked = sanitize_bookmarked r.bookmarked;
}

unfoldable pub read : Stored → GeneralFilters
read (parsed raw) = sanitize raw
read _ = default_general_filters
