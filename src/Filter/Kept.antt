-- ===== src/Filter/Kept.antt =====
-- What the filters' store reads and keeps (frontend/src/features/filter/store.ts).
use pixiv_biu.Base.{
  ℕ, ◌≡◌, ◌∙◌, refl, sym, ap, arith, true, false, Option, none, some, List, [], ◌∷◌, ◌++◌, map,
  String, includes, add, Distinct, add-Distinct, includes-append, ℕ_discrete, text_discrete,
}
use mathlib.Core.List.{append-nil, append_assoc}
use pixiv_biu.Filter.Types.{
  AiFilter, PageCountFilter, BookmarkedFilter, AspectRatio, landscape, portrait, square,
  IllustTypeKey, illust, manga, ugoira, XRestrictKey, safe, r18, r18g, GeneralFilters,
  default_general_filters, min_bookmarks_tiers, min_views_tiers,
}
use pixiv_biu.Filter.Apply.{type_text}
use pixiv_biu.Filter.Store.{
  RawValue, text, number, array, nothing, Stored, unset, unreadable, parsed, restrict_text,
  aspect_text, restrict_of, type_of, aspect_of, add_item, sanitize_items, sanitize_strings,
  sanitize_tier, sanitize_ai, sanitize_page_count, sanitize_bookmarked, sanitize, read,
  AspectRatio-discrete, IllustTypeKey-discrete, XRestrictKey-discrete,
}
use pixiv_biu.Filter.Writes.{texts, raw_of, ai_text, page_count_text, bookmarked_text}

-- Lists without repetition, and numbers that are offered.
pub record IsValid (f : GeneralFilters) : Type 0 where
  pub restricts : Distinct XRestrictKey-discrete f.x_restrict
  pub types : Distinct IllustTypeKey-discrete f.illust_type
  pub bookmarks : includes ℕ_discrete f.min_bookmarks min_bookmarks_tiers ≡ true
  pub views : includes ℕ_discrete f.min_views min_views_tiers ≡ true
  pub aspects : Distinct AspectRatio-discrete f.aspect_ratio
  pub included : Distinct text_discrete f.include_tags
  pub excluded : Distinct text_discrete f.exclude_tags

module _ {A : Type 0} (dec : Discrete A) (of_text : String → Option A) where
  add_item-Distinct :
      (out : List A) (o : Option A) → Distinct dec out → Distinct dec (add_item dec of_text out o)
  add_item-Distinct out none d = d
  add_item-Distinct out (some a) d = add-Distinct dec a out d

  sanitize_items-Distinct :
      (out : List A) (items : List (Option String))
      → Distinct dec out
      → Distinct dec (sanitize_items dec of_text out items)
  sanitize_items-Distinct out [] d = d
  sanitize_items-Distinct out (none ∷ items) d = sanitize_items-Distinct out items d
  sanitize_items-Distinct out (some s ∷ items) d =
      sanitize_items-Distinct (add_item dec of_text out (of_text s)) items
        (add_item-Distinct out (of_text s) d)

  sanitize_strings-Distinct : (v : RawValue) → Distinct dec (sanitize_strings dec of_text v)
  unfolding sanitize_strings
  sanitize_strings-Distinct (text s) = tt
  sanitize_strings-Distinct (number n) = tt
  sanitize_strings-Distinct (array items) = sanitize_items-Distinct [] items tt
  sanitize_strings-Distinct nothing = tt

sanitize_tier_offered :
    (tiers : List ℕ) (v : RawValue)
    → includes ℕ_discrete 0 tiers ≡ true
    → includes ℕ_discrete (sanitize_tier tiers v) tiers ≡ true
unfolding sanitize_tier
sanitize_tier_offered tiers (text s) h = h
sanitize_tier_offered tiers (number n) h = ground arith
sanitize_tier_offered tiers (array items) h = h
sanitize_tier_offered tiers nothing h = h

pub default-IsValid : IsValid default_general_filters
unfolding default_general_filters
default-IsValid = record {
  restricts = tt;
  types = tt;
  bookmarks = ground arith;
  views = ground arith;
  aspects = tt;
  included = tt;
  excluded = tt;
}

-- Whatever is stored, the filters read from it are valid: no list repeats an element, and both
-- numbers are among those offered.
pub read-IsValid : (stored : Stored) → IsValid (read stored)
unfolding read sanitize
read-IsValid unset = default-IsValid
read-IsValid unreadable = default-IsValid
read-IsValid (parsed none) = default-IsValid
read-IsValid (parsed (some r)) = record {
  restricts = sanitize_strings-Distinct XRestrictKey-discrete restrict_of r.x_restrict;
  types = sanitize_strings-Distinct IllustTypeKey-discrete type_of r.illust_type;
  bookmarks = sanitize_tier_offered min_bookmarks_tiers r.min_bookmarks (ground arith);
  views = sanitize_tier_offered min_views_tiers r.min_views (ground arith);
  aspects = sanitize_strings-Distinct AspectRatio-discrete aspect_of r.aspect_ratio;
  included = sanitize_strings-Distinct text_discrete (λ s. some s) r.include_tags;
  excluded = sanitize_strings-Distinct text_discrete (λ s. some s) r.exclude_tags;
}

-- A list without repetition is read as it was stored.
module _ {A : Type 0} (dec : Discrete A) (of_text : String → Option A) (text_of : A → String)
    (h : (a : A) → of_text (text_of a) ≡ some a) where
  -- Nothing of the second list stands in the first.
  abbrev Apart : List A → List A → Type 0
  Apart out [] = Unit
  Apart out (x ∷ xs) = (includes dec x out ≡ false) × Apart out xs

  Apart-add :
      (x : A) (out xs : List A)
      → includes dec x xs ≡ false
      → Apart out xs
      → Apart (out ++ x ∷ []) xs
  Apart-add x out [] i a = tt
  Apart-add x out (y ∷ xs) i a =
      (ground (arith, includes-append dec y out (x ∷ [])), Apart-add x out xs (ground arith) a.1)

  add_absent : (x : A) (out : List A) → includes dec x out ≡ false → add dec x out ≡ out ++ x ∷ []
  unfolding add
  add_absent x out i = rw i refl

  sanitize_items-texts :
      (out xs : List A)
      → Apart out xs
      → Distinct dec xs
      → sanitize_items dec of_text out (map (λ x. some (text_of x)) xs) ≡ out ++ xs
  sanitize_items-texts out [] a d = sym (append-nil out)
  sanitize_items-texts out (x ∷ xs) a d =
      ap (λ o. sanitize_items dec of_text o (map (λ y. some (text_of y)) xs))
        (ap (add_item dec of_text out) (h x) ∙ add_absent x out a.0)
      ∙ sanitize_items-texts (out ++ x ∷ []) xs (Apart-add x out xs d.0 a.1) d.1
      ∙ append_assoc out (x ∷ []) xs

  Apart-empty : (xs : List A) → Apart [] xs
  Apart-empty [] = tt
  Apart-empty (x ∷ xs) = (refl, Apart-empty xs)

  sanitize_strings-texts :
      (xs : List A) → Distinct dec xs → sanitize_strings dec of_text (texts text_of xs) ≡ xs
  unfolding sanitize_strings
  sanitize_strings-texts xs d = sanitize_items-texts [] xs (Apart-empty xs) d

restrict_lem : (a : XRestrictKey) → restrict_of (restrict_text a) ≡ some a
unfolding restrict_of text_discrete
restrict_lem safe = refl
restrict_lem r18 = refl
restrict_lem r18g = refl

type_lem : (a : IllustTypeKey) → type_of (type_text a) ≡ some a
unfolding type_of text_discrete
type_lem illust = refl
type_lem manga = refl
type_lem ugoira = refl

aspect_lem : (a : AspectRatio) → aspect_of (aspect_text a) ≡ some a
unfolding aspect_of text_discrete
aspect_lem landscape = refl
aspect_lem portrait = refl
aspect_lem square = refl

ai_lem : (a : AiFilter) → sanitize_ai (text (ai_text a)) ≡ a
unfolding sanitize_ai text_discrete
ai_lem AiFilter.any = refl
ai_lem AiFilter.exclude = refl
ai_lem AiFilter.only = refl

page_count_lem : (a : PageCountFilter) → sanitize_page_count (text (page_count_text a)) ≡ a
unfolding sanitize_page_count text_discrete
page_count_lem PageCountFilter.any = refl
page_count_lem PageCountFilter.single = refl
page_count_lem PageCountFilter.multi = refl

bookmarked_lem : (a : BookmarkedFilter) → sanitize_bookmarked (text (bookmarked_text a)) ≡ a
unfolding sanitize_bookmarked text_discrete
bookmarked_lem BookmarkedFilter.any = refl
bookmarked_lem BookmarkedFilter.only = refl
bookmarked_lem BookmarkedFilter.exclude = refl

tier_lem :
    (tiers : List ℕ) (n : ℕ)
    → includes ℕ_discrete n tiers ≡ true
    → sanitize_tier tiers (number n) ≡ n
unfolding sanitize_tier
tier_lem tiers n h = rw h refl

-- Valid filters are read back as they were stored.
pub read-raw_of : (f : GeneralFilters) → IsValid f → read (parsed (some (raw_of f))) ≡ f
unfolding read sanitize raw_of
read-raw_of f v =
    let x =
      sanitize_strings-texts XRestrictKey-discrete restrict_of restrict_text restrict_lem
        f.x_restrict v.restricts in
    let t =
      sanitize_strings-texts IllustTypeKey-discrete type_of type_text type_lem f.illust_type
        v.types in
    let s =
      sanitize_strings-texts AspectRatio-discrete aspect_of aspect_text aspect_lem f.aspect_ratio
        v.aspects in
    let i =
      sanitize_strings-texts text_discrete (λ u. some u) (λ u. u) (λ u. refl) f.include_tags
        v.included in
    let e =
      sanitize_strings-texts text_discrete (λ u. some u) (λ u. u) (λ u. refl) f.exclude_tags
        v.excluded in
    let a = ai_lem f.ai in
    let p = page_count_lem f.page_count in
    let m = bookmarked_lem f.bookmarked in
    let b = tier_lem min_bookmarks_tiers f.min_bookmarks v.bookmarks in
    let w = tier_lem min_views_tiers f.min_views v.views in cc
