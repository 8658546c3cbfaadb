-- ===== src/Filter/Matches.antt =====
-- Which illustrations the filters let through (frontend/src/features/filter/apply.ts).
use pixiv_biu.Base.{
  ℕ, ◌*◌, ◌≤◌, ◌<◌, ◌≡◌, ◌≢◌, ◌↔◌, ◌⊎◌, refl, arith, Bool, true, false, not, ◌&&◌, List, [], ◌∷◌,
  String, any,
}
use pixiv_biu.Filter.Types.{
  AiFilter, PageCountFilter, BookmarkedFilter, AspectRatio, landscape, portrait, square,
  XRestrictKey, GeneralFilters, is_nonempty,
}
use pixiv_biu.Filter.Apply.{
  Illust, classify_x_restrict, classify_aspect, same_restrict, same_aspect, type_text, is_text,
  lowercase_tag_surface, any_match, matches, ai_ok, counts_ok, pages_ok, bookmarked_ok, tokens_ok,
  tags_ok,
}

conj8 :
    (a b c d e f g h : Bool)
    → ((a && (b && (c && (d && (e && (f && (g && h))))))) ≡ true) ↔ (
        (a ≡ true)
        × (b ≡ true)
        × (c ≡ true)
        × (d ≡ true)
        × (e ≡ true)
        × (f ≡ true)
        × (g ≡ true)
        × (h ≡ true))
conj8 a b c d e f g h = ground arith

-- Some element has the property.
abbrev pub Exists : {A : Type 0} → (A → Type 0) → List A → Type 0
Exists P [] = ⊥
Exists P (x ∷ xs) = P x ⊎ Exists P xs

-- An empty list asks for nothing; another, for one of its elements.
abbrev pub OneOf : {A : Type 0} → (A → Type 0) → List A → Type 0
OneOf P [] = Unit
OneOf P (x ∷ xs) = Exists P (x ∷ xs)

module _ {A : Type 0} (p : A → Bool) (P : A → Type 0) (h : (a : A) → (p a ≡ true) ↔ P a) where
  any-Exists : (xs : List A) → (any p xs ≡ true) ↔ Exists P xs
  any-Exists [] = ground arith
  any-Exists (x ∷ xs) = ground (arith, h x, any-Exists xs)

  any-OneOf : (xs : List A) → (not (is_nonempty xs && not (any p xs)) ≡ true) ↔ OneOf P xs
  any-OneOf [] = ground arith
  any-OneOf (x ∷ xs) = ground (arith, any-Exists (x ∷ xs))

same_restrict_iff : (a b : XRestrictKey) → (same_restrict a b ≡ true) ↔ (b ≡ a)
same_restrict_iff a b = ground arith

same_aspect_iff : (a b : AspectRatio) → (same_aspect a b ≡ true) ↔ (b ≡ a)
same_aspect_iff a b = ground arith

is_text_iff : (a b : String) → (is_text a b ≡ true) ↔ (a ≡ b)
is_text_iff a b = ground arith

abbrev AiPasses : ℕ → AiFilter → Type 0
AiPasses ai_type AiFilter.any = Unit
AiPasses ai_type AiFilter.exclude = ai_type ≢ 2
AiPasses ai_type AiFilter.only = ai_type ≡ 2

abbrev CountPasses : ℕ → PageCountFilter → Type 0
CountPasses pages PageCountFilter.any = Unit
CountPasses pages PageCountFilter.single = pages ≡ 1
CountPasses pages PageCountFilter.multi = 1 < pages

abbrev BookmarkPasses : Bool → BookmarkedFilter → Type 0
BookmarkPasses is_bookmarked BookmarkedFilter.any = Unit
BookmarkPasses is_bookmarked BookmarkedFilter.only = is_bookmarked ≡ true
BookmarkPasses is_bookmarked BookmarkedFilter.exclude = is_bookmarked ≡ false

ai_iff : (il : Illust) (f : AiFilter) → (ai_ok il f ≡ true) ↔ AiPasses il.illust_ai_type f
ai_iff il AiFilter.any = ground arith
ai_iff il AiFilter.exclude = ground arith
ai_iff il AiFilter.only = ground arith

pages_iff :
    (il : Illust) (f : PageCountFilter) → (pages_ok il f ≡ true) ↔ CountPasses il.page_count f
pages_iff il PageCountFilter.any = ground arith
pages_iff il PageCountFilter.single = ground arith
pages_iff il PageCountFilter.multi = ground arith

bookmarked_iff :
    (il : Illust) (f : BookmarkedFilter)
    → (bookmarked_ok il f ≡ true) ↔ BookmarkPasses il.is_bookmarked f
bookmarked_iff il BookmarkedFilter.any = ground arith
bookmarked_iff il BookmarkedFilter.only = ground arith
bookmarked_iff il BookmarkedFilter.exclude = ground arith

counts_iff :
    (il : Illust) (f : GeneralFilters)
    → (counts_ok il f ≡ true)
      ↔ ((f.min_bookmarks ≤ il.total_bookmarks) × (f.min_views ≤ il.total_view))
counts_iff il f = ground arith

-- A shape that `classify_aspect` gives, by the sizes.
abbrev HasAspect : ℕ → ℕ → AspectRatio → Type 0
HasAspect w h landscape = (0 < w) × (0 < h) × (11 * h < 10 * w)
HasAspect w h portrait = (0 < w) × (0 < h) × (10 * w < 9 * h)
HasAspect w h square = ((w ≡ 0) ⊎ (h ≡ 0)) ⊎ ((10 * w ≤ 11 * h) × (9 * h ≤ 10 * w))

aspect_iff :
    (w h : ℕ) (a : AspectRatio) → (same_aspect (classify_aspect w h) a ≡ true) ↔ HasAspect w h a
unfolding classify_aspect
aspect_iff w h landscape = ground arith
aspect_iff w h portrait = ground arith
aspect_iff w h square = ground arith

module _ (contains : String → String → Bool) where
  -- A token stands in one of the texts of the surface.
  abbrev StandsIn : List String → String → Type 0
  StandsIn surface t = Exists (λ s. contains s t ≡ true) surface

  StandsIn-iff :
      (surface : List String) (t : String)
      → (any (λ s. contains s t) surface ≡ true) ↔ StandsIn surface t
  StandsIn-iff surface t =
      any-Exists (λ s. contains s t) (λ s. contains s t ≡ true) (λ s. ((λ e. e), (λ e. e))) surface

  any_match_asked :
      (surface tokens : List String)
      → (not (is_nonempty tokens && not (any_match contains surface tokens)) ≡ true)
        ↔ OneOf (StandsIn surface) tokens
  unfolding any_match
  any_match_asked surface tokens =
      any-OneOf (λ t. any (λ s. contains s t) surface) (StandsIn surface) (StandsIn-iff surface)
        tokens

  any_match_iff :
      (surface tokens : List String)
      → (any_match contains surface tokens ≡ true) ↔ Exists (StandsIn surface) tokens
  unfolding any_match
  any_match_iff surface tokens =
      any-Exists (λ t. any (λ s. contains s t) surface) (StandsIn surface) (StandsIn-iff surface)
        tokens

  nothing_asked : (exc : List String) → is_nonempty exc ≡ false → exc ≡ []
  nothing_asked [] h = refl
  nothing_asked (t ∷ exc) h = cc

  tokens_iff :
      (surface inc exc : List String)
      → (tokens_ok contains surface inc exc ≡ true)
        ↔ (OneOf (StandsIn surface) inc × ¬ Exists (StandsIn surface) exc)
  tokens_iff surface inc exc =
      ground (arith, any_match_asked surface inc, any_match_iff surface exc, nothing_asked exc)

module _ (to_lower_case : String → String) (contains : String → String → Bool) where
  abbrev surface_of : Illust → List String
  surface_of il = lowercase_tag_surface to_lower_case il.tags

  -- What the filters ask of an illustration, in plain terms.
  pub record Passes (il : Illust) (f : GeneralFilters) (lc_include lc_exclude : List String)
      : Type 0 where
    pub restrict : OneOf (λ key. key ≡ classify_x_restrict il.x_restrict) f.x_restrict
    pub ai : AiPasses il.illust_ai_type f.ai
    pub type : OneOf (λ key. type_text key ≡ il.type) f.illust_type
    pub counts : (f.min_bookmarks ≤ il.total_bookmarks) × (f.min_views ≤ il.total_view)
    pub pages : CountPasses il.page_count f.page_count
    pub aspect : OneOf (HasAspect il.width il.height) f.aspect_ratio
    pub bookmarked : BookmarkPasses il.is_bookmarked f.bookmarked
    pub included : OneOf (StandsIn contains (surface_of il)) lc_include
    pub excluded : ¬ Exists (StandsIn contains (surface_of il)) lc_exclude

  tags_iff :
      (il : Illust) (inc exc : List String)
      → (tags_ok to_lower_case contains il inc exc ≡ true) ↔ (
          OneOf (StandsIn contains (surface_of il)) inc
          × ¬ Exists (StandsIn contains (surface_of il)) exc)
  tags_iff il [] [] = ground arith
  tags_iff il (t ∷ inc) exc = tokens_iff contains (surface_of il) (t ∷ inc) exc
  tags_iff il [] (t ∷ exc) = tokens_iff contains (surface_of il) [] (t ∷ exc)

  pub matches_iff :
      (il : Illust) (f : GeneralFilters) (inc exc : List String)
      → (matches to_lower_case contains il f inc exc ≡ true) ↔ Passes il f inc exc
  unfolding matches
  matches_iff il f inc exc =
      let restricts =
        any-OneOf (same_restrict (classify_x_restrict il.x_restrict))
          (λ key. key ≡ classify_x_restrict il.x_restrict)
          (same_restrict_iff (classify_x_restrict il.x_restrict)) f.x_restrict in
      let types =
        any-OneOf (λ key. is_text (type_text key) il.type) (λ key. type_text key ≡ il.type)
          (λ key. is_text_iff (type_text key) il.type) f.illust_type in
      let aspects =
        any-OneOf (same_aspect (classify_aspect il.width il.height)) (HasAspect il.width il.height)
          (aspect_iff il.width il.height) f.aspect_ratio in
      let tags = tags_iff il inc exc in
      (
        (λ h.
            let (r, a, t, c, p, s, b, g) = (conj8 _ _ _ _ _ _ _ _).0 h in
            record {
              restrict = restricts.0 r;
              ai = (ai_iff il f.ai).0 a;
              type = types.0 t;
              counts = (counts_iff il f).0 c;
              pages = (pages_iff il f.page_count).0 p;
              aspect = aspects.0 s;
              bookmarked = (bookmarked_iff il f.bookmarked).0 b;
              included = (tags.0 g).0;
              excluded = (tags.0 g).1;
            }),
        (λ h. (conj8 _ _ _ _ _ _ _ _).1 (
          restricts.1 h.restrict,
          (ai_iff il f.ai).1 h.ai,
          types.1 h.type,
          (counts_iff il f).1 h.counts,
          (pages_iff il f.page_count).1 h.pages,
          aspects.1 h.aspect,
          (bookmarked_iff il f.bookmarked).1 h.bookmarked,
          tags.1 (h.included, h.excluded),
        )),
      )
