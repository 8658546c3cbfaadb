-- ===== src/SearchHistory/Refines.antt =====
-- An update of one hook reaches all the hooks of the tab
-- (frontend/src/features/search/hooks/use-search-history.ts).
use pixiv_biu.Base.{
  ℕ, zero, suc, ◌≤◌, ◌<◌, ◌≡◌, ◌⊎◌, ◌∙◌, refl, sym, ap, subst, arith, Bool, true, false, not,
  Option, none, some, List, [], ◌∷◌, map, String, if◌then◌else◌, length, take, length-filter-le,
  get_elem?, text_discrete, includes, Distinct, All, Bool-cases, inl, inr,
}
use pixiv_biu.SearchHistory.Hooks.{
  is_text, Stored, texts_of, safe_read, shallow_equal, Tab, sync, notify, set_at, store_next,
  without, push_updater, remove_updater, clear_updater, update_at, update,
}

-- No keyword stands twice or is empty, and at most eight are kept.
pub record IsHistory (h : List String) : Type 0 where
  pub distinct : Distinct text_discrete h
  pub nonempty : All (λ k. is_text k "" ≡ false) h
  pub short : length h ≤ 8

-- The item and the `n` mounted hooks have the list.
pub record Shows (n : ℕ) (t : Tab) (h : List String) : Type 0 where
  pub stored_same : safe_read t.stored ≡ h
  pub hooks_same : All (λ v. v ≡ h) t.hooks
  pub mounted : length t.hooks ≡ n

shallow_equal_eq : (xs ys : List String) → shallow_equal xs ys ≡ true → xs ≡ ys
shallow_equal_eq [] [] h = refl
shallow_equal_eq [] (y ∷ ys) h = cc
shallow_equal_eq (x ∷ xs) [] h = cc
shallow_equal_eq (x ∷ xs) (y ∷ ys) h = ground (arith, shallow_equal_eq xs ys)

sync_lem : (stored : Stored) (v : List String) → sync stored v ≡ safe_read stored
unfolding sync
sync_lem stored v = ground (arith, shallow_equal_eq (safe_read stored) v)

All-sync :
    (stored : Stored) (vs : List (List String))
    → All (λ v. v ≡ safe_read stored) (map (sync stored) vs)
All-sync stored [] = tt
All-sync stored (v ∷ vs) = (sync_lem stored v, All-sync stored vs)

length-sync :
    (stored : Stored) (vs : List (List String)) → length (map (sync stored) vs) ≡ length vs
length-sync stored [] = refl
length-sync stored (v ∷ vs) = omega (arith, length-sync stored vs)

length-set_at :
    (i : ℕ) (next : List String) (vs : List (List String)) → length (set_at i next vs) ≡ length vs
unfolding set_at
length-set_at i next [] = refl
length-set_at zero next (v ∷ vs) = refl
length-set_at (suc i) next (v ∷ vs) = omega (arith, length-set_at i next vs)

texts_of-some :
    (h : List String) → All (λ k. is_text k "" ≡ false) h → texts_of (map (λ s. some s) h) ≡ h
unfolding texts_of
texts_of-some [] a = refl
texts_of-some (k ∷ h) (e, a) = rw e (ap (λ xs. k ∷ xs) (texts_of-some h a))

notify-Shows : (n : ℕ) (t : Tab) → length t.hooks ≡ n → Shows n (notify t) (safe_read t.stored)
unfolding notify
notify-Shows n t m = record {
  stored_same = refl;
  hooks_same = All-sync t.stored t.hooks;
  mounted = omega (arith, length-sync t.stored t.hooks);
}

-- Where the item is written, every hook shows the new list; else, the old one.
store_next-Shows :
    (writable : Bool) (i n : ℕ) (next h : List String) (t : Tab)
    → Shows n t h
    → All (λ k. is_text k "" ≡ false) next
    → Shows n (store_next writable i (some next) t) (if writable then next else h)
unfolding store_next safe_read
store_next-Shows true i n next h t s a =
    subst (Shows n (store_next true i (some next) t)) (texts_of-some next a)
      (notify-Shows n _ (length-set_at i next t.hooks ∙ s.mounted))
store_next-Shows false i n next h t s a =
    subst (Shows n (store_next false i (some next) t)) s.stored_same
      (notify-Shows n _ (length-set_at i next t.hooks ∙ s.mounted))

hook_at :
    (i : ℕ) (vs : List (List String)) (h : List String)
    → All (λ v. v ≡ h) vs
    → i < length vs
    → get_elem? vs i ≡ some h
hook_at i [] h a l = absurd (omega arith)
hook_at zero (v ∷ vs) h (e, a) l = ap (λ (x : List String). some x) e
hook_at (suc i) (v ∷ vs) h (e, a) l = hook_at i vs h a (omega arith)

-- The updater gives the list `next`, or leaves the list where `next` is the same.
abbrev pub Gives : Option (List String) → List String → List String → Type 0
Gives o h next = ((o ≡ none) × (next ≡ h)) ⊎ (o ≡ some next)

pub either_same : (writable : Bool) (h : List String) → (if writable then h else h) ≡ h
either_same true h = refl
either_same false h = refl

update_at-Shows :
    (writable : Bool) (i n : ℕ) (u : List String → Option (List String)) (next h : List String)
    (t : Tab)
    → Shows n t h
    → Gives (u h) h next
    → All (λ k. is_text k "" ≡ false) next
    → Shows n (update_at writable i (some h) u t) (if writable then next else h)
unfolding update_at store_next
update_at-Shows writable i n u next h t s (inr e) a =
    rw e (store_next-Shows writable i n next h t s a)
update_at-Shows writable i n u next h t s (inl (e, q)) a =
    rw e
      (subst (Shows n t) (sym (ap (λ x. if writable then x else h) q ∙ either_same writable h)) s)

pub update-Shows :
    (writable : Bool) (i n : ℕ) (u : List String → Option (List String)) (next h : List String)
    (t : Tab)
    → Shows n t h
    → i < n
    → Gives (u h) h next
    → All (λ k. is_text k "" ≡ false) next
    → Shows n (update writable i u t) (if writable then next else h)
unfolding update
update-Shows writable i n u next h t s l g a =
    let here = hook_at i t.hooks h s.hooks_same (omega (arith, s.mounted)) in
    let shows : Shows n (update_at writable i (some h) u t) (if writable then next else h) =
      update_at-Shows writable i n u next h t s g a in
    subst (λ o. Shows n (update_at writable i o u t) (if writable then next else h)) (sym here)
      shows

-- The lists as they are meant.
unfoldable pub pushed : String → List String → List String
pushed k h = if is_text k "" then h else k ∷ take 7 (without k h)

without_absent :
    (k : String) (h : List String) → includes text_discrete k h ≡ false → without k h ≡ h
unfolding without
without_absent k [] e = refl
without_absent k (x ∷ h) e = ground (arith, without_absent k h)

take_all : (n : ℕ) (h : List String) → length h ≤ n → take n h ≡ h
take_all zero [] l = refl
take_all zero (x ∷ h) l = absurd (omega arith)
take_all (suc n) [] l = refl
take_all (suc n) (x ∷ h) l = ap (λ xs. x ∷ xs) (take_all n h (omega arith))

rest_eq :
    (k x : String) (h : List String)
    → x ≡ k
    → includes text_discrete x h ≡ false
    → is_text x k ≡ true
    → without k (x ∷ h) ≡ h
unfolding without
rest_eq k x h q d y =
    rw y (without_absent k h (subst (λ z. includes text_discrete z h ≡ false) q d))

pub push-Gives :
    (k : String) (h : List String)
    → IsHistory h
    → is_text k "" ≡ false
    → Gives (push_updater k h) h (pushed k h)
unfolding push_updater pushed
push-Gives k [] v e = inr (rw e refl)
push-Gives k (x ∷ h) v e = elim (Bool-cases (is_text x k)) [
  | inr n ↦ inr (rw (n, e) refl)
  | inl y ↦
      let q : x ≡ k = ground arith in
      inl (
        rw (y, e)
          (
            refl,
            (ap (λ xs. k ∷ take 7 xs) (rest_eq k x h q v.distinct.0 y)
                ∙ ap (λ xs. k ∷ xs) (take_all 7 h (let l = v.short in omega arith))
                ∙ ap (λ z. z ∷ h) (sym q)),
          ))
]

without_short : (k : String) (h : List String) → length (without k h) ≡ length h → without k h ≡ h
unfolding without
without_short k [] e = refl
without_short k (x ∷ h) e =
    ground (arith, without_short k h, length-filter-le (λ y. not (is_text y k)) h)

pub remove-Gives : (k : String) (h : List String) → Gives (remove_updater k h) h (without k h)
unfolding remove_updater
remove-Gives k h = ground (arith, without_short k h)

pub clear-Gives : (h : List String) → Gives (clear_updater h) h []
unfolding clear_updater
clear-Gives [] = inl (refl, refl)
clear-Gives (x ∷ h) = inr (ground arith)
