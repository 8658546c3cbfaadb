-- ===== src/Filter/Writes.antt =====
-- Reads and writes of the filters' store: frontend/src/features/filter/store.ts, from its snapshot on.
-- A subscriber is a number; `calls` are the subscribers called so far, in order.
use pixiv_biu.Base.{
  ℕ, ◌==◌, Bool, true, false, ◌&&◌, Option, some, List, [], ◌∷◌, ◌++◌, map, String, ite,
  if◌then◌else◌, add, delete, get_or, ℕ_discrete, text_discrete,
}
use pixiv_biu.Filter.Types.{
  AiFilter, PageCountFilter, BookmarkedFilter, AspectRatio, IllustTypeKey, XRestrictKey,
  GeneralFilters, default_general_filters,
}
use pixiv_biu.Filter.Apply.{type_text}
use pixiv_biu.Filter.Store.{
  RawValue, text, number, array, RawFilters, Stored, parsed, restrict_text, aspect_text, read,
  AiFilter-discrete, PageCountFilter-discrete, BookmarkedFilter-discrete, AspectRatio-discrete,
  IllustTypeKey-discrete, XRestrictKey-discrete,
}

-- `JSON.stringify`, as it is parsed again.
abbrev pub ai_text : AiFilter → String
ai_text AiFilter.any = "any"
ai_text AiFilter.exclude = "exclude"
ai_text AiFilter.only = "only"

abbrev pub page_count_text : PageCountFilter → String
page_count_text PageCountFilter.any = "any"
page_count_text PageCountFilter.single = "single"
page_count_text PageCountFilter.multi = "multi"

abbrev pub bookmarked_text : BookmarkedFilter → String
bookmarked_text BookmarkedFilter.any = "any"
bookmarked_text BookmarkedFilter.only = "only"
bookmarked_text BookmarkedFilter.exclude = "exclude"

abbrev pub texts : {A : Type 0} → (A → String) → List A → RawValue
texts text_of xs = array (map (λ x. some (text_of x)) xs)

unfoldable pub raw_of : GeneralFilters → RawFilters
raw_of f = record {
  x_restrict = texts restrict_text f.x_restrict;
  ai = text (ai_text f.ai);
  illust_type = texts type_text f.illust_type;
  min_bookmarks = number f.min_bookmarks;
  min_views = number f.min_views;
  page_count = text (page_count_text f.page_count);
  aspect_ratio = texts aspect_text f.aspect_ratio;
  include_tags = texts (λ s. s) f.include_tags;
  exclude_tags = texts (λ s. s) f.exclude_tags;
  bookmarked = text (bookmarked_text f.bookmarked);
}

pub record Store : Type 0 where
  pub snapshot : GeneralFilters
  pub stored : Stored
  pub subscribers : List ℕ
  pub calls : List ℕ

unfoldable pub notify : Store → Store
notify s = record s { calls = s.calls ++ s.subscribers }

unfoldable pub subscribe : ℕ → Store → Store
subscribe fn s = record s { subscribers = add ℕ_discrete fn s.subscribers }

unfoldable pub unsubscribe : ℕ → Store → Store
unsubscribe fn s = record s { subscribers = delete ℕ_discrete fn s.subscribers }

-- The `storage` event for the store's key: another tab has stored this.
unfoldable pub on_storage : Stored → Store → Store
on_storage stored s = notify (record s { stored = stored; snapshot = read stored })

abbrev pub is_same : {A : Type 0} → Discrete A → A → A → Bool
is_same dec a b = ite (dec a b) true false

abbrev pub same_array : {A : Type 0} → Discrete A → List A → List A → Bool
same_array dec [] [] = true
same_array dec (x ∷ xs) (y ∷ ys) = is_same dec x y && same_array dec xs ys
same_array dec _ _ = false

unfoldable pub shallow_equal : GeneralFilters → GeneralFilters → Bool
shallow_equal a b =
    is_same AiFilter-discrete a.ai b.ai
    && (a.min_bookmarks == b.min_bookmarks
        && (a.min_views == b.min_views
            && (is_same PageCountFilter-discrete a.page_count b.page_count
                && (is_same BookmarkedFilter-discrete a.bookmarked b.bookmarked
                    && (same_array XRestrictKey-discrete a.x_restrict b.x_restrict
                        && (same_array IllustTypeKey-discrete a.illust_type b.illust_type
                            && (same_array AspectRatio-discrete a.aspect_ratio b.aspect_ratio
                                && (same_array text_discrete a.include_tags b.include_tags
                                    && same_array text_discrete a.exclude_tags
                                        b.exclude_tags))))))))

-- Whether `localStorage` takes the item is an argument.
unfoldable pub write : Bool → GeneralFilters → Store → Store
write writable next s =
    if shallow_equal s.snapshot next
    then s
    else notify (record s {
      snapshot = next;
      stored = if writable then parsed (some (raw_of next)) else s.stored;
    })

-- `Partial<GeneralFilters>`.
pub record Patch : Type 0 where
  pub x_restrict : Option (List XRestrictKey)
  pub ai : Option AiFilter
  pub illust_type : Option (List IllustTypeKey)
  pub min_bookmarks : Option ℕ
  pub min_views : Option ℕ
  pub page_count : Option PageCountFilter
  pub aspect_ratio : Option (List AspectRatio)
  pub include_tags : Option (List String)
  pub exclude_tags : Option (List String)
  pub bookmarked : Option BookmarkedFilter

-- `{ ...snapshot, ...patch }`.
unfoldable pub patched : Patch → GeneralFilters → GeneralFilters
patched p f = record {
  x_restrict = get_or f.x_restrict p.x_restrict;
  ai = get_or f.ai p.ai;
  illust_type = get_or f.illust_type p.illust_type;
  min_bookmarks = get_or f.min_bookmarks p.min_bookmarks;
  min_views = get_or f.min_views p.min_views;
  page_count = get_or f.page_count p.page_count;
  aspect_ratio = get_or f.aspect_ratio p.aspect_ratio;
  include_tags = get_or f.include_tags p.include_tags;
  exclude_tags = get_or f.exclude_tags p.exclude_tags;
  bookmarked = get_or f.bookmarked p.bookmarked;
}

unfoldable pub set_filters : Bool → Patch → Store → Store
set_filters writable patch s = write writable (patched patch s.snapshot) s

unfoldable pub reset_filters : Bool → Store → Store
reset_filters writable s = write writable default_general_filters s
