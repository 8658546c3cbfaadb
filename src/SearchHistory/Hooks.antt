-- ===== src/SearchHistory/Hooks.antt =====
-- The mounted hooks of one tab, and the item they share:
-- frontend/src/features/search/hooks/use-search-history.ts.
-- A hook is its `ref.current`. An updater gives `none` where the source returns the current list itself.
-- `trim` of JavaScript's texts is a parameter, and whether `localStorage` takes an item an argument.
use pixiv_biu.Base.{
  ℕ, zero, suc, ◌==◌, Bool, true, false, not, ◌&&◌, Option, none, some, List, [], ◌∷◌, map, String,
  ite, if◌then◌else◌, length, take, filter, get_elem?, text_discrete,
}

abbrev pub history_limit : ℕ
history_limit = 8

abbrev pub is_text : String → String → Bool
is_text s t = ite (text_discrete s t) true false

-- What the item parses to: an entry that is not a text is `none`.
pub data Stored : Type 0 where
  unset : Stored
  unreadable : Stored
  not_array : Stored
  array : List (Option String) → Stored

unfoldable pub texts_of : List (Option String) → List String
texts_of [] = []
texts_of (none ∷ items) = texts_of items
texts_of (some s ∷ items) = if is_text s "" then texts_of items else s ∷ texts_of items

unfoldable pub safe_read : Stored → List String
safe_read (array items) = texts_of items
safe_read _ = []

abbrev pub shallow_equal : List String → List String → Bool
shallow_equal [] [] = true
shallow_equal (x ∷ xs) (y ∷ ys) = is_text x y && shallow_equal xs ys
shallow_equal _ _ = false

pub record Tab : Type 0 where
  pub stored : Stored
  pub hooks : List (List String)

unfoldable pub sync : Stored → List String → List String
sync stored value = let next = safe_read stored in if shallow_equal next value then value else next

-- `notify`, and the `storage` event: every mounted hook reads the item.
unfoldable pub notify : Tab → Tab
notify t = record t { hooks = map (sync t.stored) t.hooks }

unfoldable pub on_storage : Stored → Tab → Tab
on_storage stored t = notify (record t { stored = stored })

unfoldable pub set_at : ℕ → List String → List (List String) → List (List String)
set_at i next [] = []
set_at zero next (v ∷ vs) = next ∷ vs
set_at (suc i) next (v ∷ vs) = v ∷ set_at i next vs

-- `safeWrite`.
abbrev pub written : Bool → List String → Stored → Stored
written true next stored = array (map (λ s. some s) next)
written false next stored = stored

-- The rest of `update`, after the updater gave the list.
unfoldable pub store_next : Bool → ℕ → Option (List String) → Tab → Tab
store_next writable i none t = t
store_next writable i (some next) t =
    notify (record { stored = written writable next t.stored; hooks = set_at i next t.hooks })

unfoldable pub without : String → List String → List String
without k cur = filter (λ x. not (is_text x k)) cur

-- `cur[0] === k`.
abbrev pub starts_with : String → List String → Bool
starts_with k [] = false
starts_with k (x ∷ xs) = is_text x k

unfoldable pub push_updater : String → List String → Option (List String)
push_updater k cur =
    if starts_with k cur then none else some (take history_limit (k ∷ without k cur))

unfoldable pub remove_updater : String → List String → Option (List String)
remove_updater k cur =
    let next = without k cur in if length next == length cur then none else some next

unfoldable pub clear_updater : List String → Option (List String)
clear_updater cur = if length cur == 0 then none else some []

-- `update` of the hook `i`, whose list is given; there is no call of a hook that is not mounted.
unfoldable pub update_at :
    Bool → ℕ → Option (List String) → (List String → Option (List String)) → Tab → Tab
update_at writable i none updater t = t
update_at writable i (some cur) updater t = store_next writable i (updater cur) t

unfoldable pub update : Bool → ℕ → (List String → Option (List String)) → Tab → Tab
update writable i updater t = update_at writable i (get_elem? t.hooks i) updater t

module _ (trim : String → String) where
  unfoldable pub push : Bool → ℕ → String → Tab → Tab
  push writable i raw t =
      if is_text (trim raw) "" then t else update writable i (push_updater (trim raw)) t

unfoldable pub remove : Bool → ℕ → String → Tab → Tab
remove writable i k t = update writable i (remove_updater k) t

unfoldable pub clear : Bool → ℕ → Tab → Tab
clear writable i t = update writable i clear_updater t
