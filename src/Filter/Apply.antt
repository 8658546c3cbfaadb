-- ===== src/Filter/Apply.antt =====
-- Filtering a list: frontend/src/features/filter/apply.ts.
-- `toLowerCase` and the substring test `includes` of JavaScript's texts are parameters. The quotient of
-- two sizes is compared with 1.1 and 0.9 as a fraction; the source's doubles agree with it for any sizes
-- that an image has.
use pixiv_biu.Base.{
  ℕ, ◌*◌, ◌==◌, Bool, true, false, not, ◌&&◌, ◌||◌, Option, none, some, List, [], ◌∷◌, ◌++◌, map,
  String, ite, ltb, leb, if◌then◌else◌, filter, any, text_discrete,
}
use pixiv_biu.Filter.Types.{
  AiFilter, PageCountFilter, BookmarkedFilter, AspectRatio, landscape, portrait, square,
  IllustTypeKey, illust, manga, ugoira, XRestrictKey, safe, r18, r18g, GeneralFilters, is_nonempty,
}

pub record Tag : Type 0 where
  pub name : String
  pub translated_name : Option String

pub record Illust : Type 0 where
  pub id : ℕ
  pub type : String
  pub x_restrict : ℕ
  pub illust_ai_type : ℕ
  pub total_bookmarks : ℕ
  pub total_view : ℕ
  pub page_count : ℕ
  pub width : ℕ
  pub height : ℕ
  pub is_bookmarked : Bool
  pub tags : List Tag

unfoldable pub classify_x_restrict : ℕ → XRestrictKey
classify_x_restrict v = if v == 1 then r18 else if v == 2 then r18g else safe

unfoldable pub classify_aspect : ℕ → ℕ → AspectRatio
classify_aspect w h =
    if leb w 0 || leb h 0
    then square
    else if ltb (11 * h) (10 * w)
    then landscape
    else if ltb (10 * w) (9 * h)
    then portrait
    else square

abbrev pub same_restrict : XRestrictKey → XRestrictKey → Bool
same_restrict safe safe = true
same_restrict r18 r18 = true
same_restrict r18g r18g = true
same_restrict _ _ = false

abbrev pub same_aspect : AspectRatio → AspectRatio → Bool
same_aspect landscape landscape = true
same_aspect portrait portrait = true
same_aspect square square = true
same_aspect _ _ = false

-- The text that a key is.
abbrev pub type_text : IllustTypeKey → String
type_text illust = "illust"
type_text manga = "manga"
type_text ugoira = "ugoira"

abbrev pub is_text : String → String → Bool
is_text s t = ite (text_discrete s t) true false

module _ (to_lower_case : String → String) where
  -- The translated name where there is one and it is not empty.
  abbrev pub translated : Option String → List String
  translated none = []
  translated (some name) = if is_text name "" then [] else to_lower_case name ∷ []

  unfoldable pub lowercase_tag_surface : List Tag → List String
  lowercase_tag_surface [] = []
  lowercase_tag_surface (tag ∷ tags) =
      to_lower_case tag.name ∷ translated tag.translated_name ++ lowercase_tag_surface tags

module _ (contains : String → String → Bool) where
  unfoldable pub any_match : List String → List String → Bool
  any_match surface tokens = any (λ t. any (λ s. contains s t) surface) tokens

  -- Both lists of tokens against the surface.
  abbrev pub tokens_ok : List String → List String → List String → Bool
  tokens_ok surface lc_include lc_exclude =
      not (is_nonempty lc_include && not (any_match surface lc_include))
      && not (is_nonempty lc_exclude && any_match surface lc_exclude)

-- The tests of `matches`, each the negation of the condition on which it returns false.
abbrev pub restrict_ok : Illust → GeneralFilters → Bool
restrict_ok il f = not (
    is_nonempty f.x_restrict
    && not (any (same_restrict (classify_x_restrict il.x_restrict)) f.x_restrict))

abbrev pub ai_ok : Illust → AiFilter → Bool
ai_ok il AiFilter.exclude = not (il.illust_ai_type == 2)
ai_ok il AiFilter.only = il.illust_ai_type == 2
ai_ok il AiFilter.any = true

abbrev pub type_ok : Illust → GeneralFilters → Bool
type_ok il f =
    not (
      is_nonempty f.illust_type && not (any (λ key. is_text (type_text key) il.type) f.illust_type))

abbrev pub counts_ok : Illust → GeneralFilters → Bool
counts_ok il f =
    not (ltb 0 f.min_bookmarks && ltb il.total_bookmarks f.min_bookmarks)
    && not (ltb 0 f.min_views && ltb il.total_view f.min_views)

abbrev pub pages_ok : Illust → PageCountFilter → Bool
pages_ok il PageCountFilter.single = il.page_count == 1
pages_ok il PageCountFilter.multi = not (leb il.page_count 1)
pages_ok il PageCountFilter.any = true

abbrev pub aspect_ok : Illust → GeneralFilters → Bool
aspect_ok il f = not (
    is_nonempty f.aspect_ratio
    && not (any (same_aspect (classify_aspect il.width il.height)) f.aspect_ratio))

abbrev pub bookmarked_ok : Illust → BookmarkedFilter → Bool
bookmarked_ok il BookmarkedFilter.only = il.is_bookmarked
bookmarked_ok il BookmarkedFilter.exclude = not il.is_bookmarked
bookmarked_ok il BookmarkedFilter.any = true

module _ (to_lower_case : String → String) (contains : String → String → Bool) where
  abbrev pub tags_ok : Illust → List String → List String → Bool
  tags_ok il lc_include lc_exclude =
      if is_nonempty lc_include || is_nonempty lc_exclude
      then tokens_ok contains (lowercase_tag_surface to_lower_case il.tags) lc_include lc_exclude
      else true

  unfoldable pub matches : Illust → GeneralFilters → List String → List String → Bool
  matches il f lc_include lc_exclude =
      restrict_ok il f
      && (ai_ok il f.ai
          && (type_ok il f
              && (counts_ok il f
                  && (pages_ok il f.page_count
                      && (aspect_ok il f
                          && (bookmarked_ok il f.bookmarked
                              && tags_ok il lc_include lc_exclude))))))

  unfoldable pub apply_general_filters : List Illust → GeneralFilters → List Illust
  unfolding matches
  apply_general_filters illusts f =
      let lc_include = map to_lower_case f.include_tags in
      let lc_exclude = map to_lower_case f.exclude_tags in
      filter (λ il. matches il f lc_include lc_exclude) illusts
