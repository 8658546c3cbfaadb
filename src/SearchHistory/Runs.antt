-- ===== src/SearchHistory/Runs.antt =====
-- All the hooks of a tab show one list, most recent first
-- (frontend/src/features/search/hooks/use-search-history.ts).
use pixiv_biu.Base.{
  ℕ, ◌<◌, ◌≡◌, ◌∙◌, refl, sym, ap, subst, arith, Bool, true, false, not, List, [], ◌∷◌, String,
  if◌then◌else◌, take, length-filter-le, length-take-le, text_discrete, includes, take-Distinct,
  includes-take, filter-Distinct, includes-filter, All, All-filter, All-take, Bool-cases, inl, inr,
}
use pixiv_biu.SearchHistory.Hooks.{
  is_text, Tab, without, push_updater, remove_updater, clear_updater, push, remove, clear,
}
use pixiv_biu.SearchHistory.Refines.{
  IsHistory, Shows, either_same, update-Shows, pushed, push-Gives, remove-Gives, clear-Gives,
}

-- What the hooks are asked for. `writable` tells whether the item can be written.
pub data Call : Type 0 where
  push_call : Bool → ℕ → String → Call
  remove_call : Bool → ℕ → String → Call
  clear_call : Bool → ℕ → Call

abbrev pub hook_of : Call → ℕ
hook_of (push_call writable i raw) = i
hook_of (remove_call writable i k) = i
hook_of (clear_call writable i) = i

module _ (trim : String → String) where
  unfoldable pub perform : Tab → Call → Tab
  perform t (push_call writable i raw) = push trim writable i raw t
  perform t (remove_call writable i k) = remove writable i k t
  perform t (clear_call writable i) = clear writable i t

  unfoldable pub perform_all : Tab → List Call → Tab
  perform_all t [] = t
  perform_all t (c ∷ cs) = perform_all (perform t c) cs

  -- The same calls on one list: a call whose write fails changes nothing.
  unfoldable pub meant : List String → Call → List String
  meant h (push_call writable i raw) = if writable then pushed (trim raw) h else h
  meant h (remove_call writable i k) = if writable then without k h else h
  meant h (clear_call writable i) = if writable then [] else h

  unfoldable pub meant_all : List String → List Call → List String
  meant_all h [] = h
  meant_all h (c ∷ cs) = meant_all (meant h c) cs

  without-IsHistory : (k : String) (h : List String) → IsHistory h → IsHistory (without k h)
  unfolding without
  without-IsHistory k h v = record {
    distinct = filter-Distinct text_discrete (λ x. not (is_text x k)) h v.distinct;
    nonempty = All-filter (λ x. is_text x "" ≡ false) (λ x. not (is_text x k)) h v.nonempty;
    short = omega (arith, length-filter-le (λ x. not (is_text x k)) h, v.short);
  }

  kept_out : (k : String) (h : List String) → includes text_discrete k (without k h) ≡ false
  unfolding without
  kept_out k h = ground (arith, includes-filter text_discrete (λ x. not (is_text x k)) k h)

  new_first :
      (k : String) (h : List String)
      → IsHistory h
      → is_text k "" ≡ false
      → IsHistory (k ∷ take 7 (without k h))
  new_first k h v e =
      let w = without-IsHistory k h v in
      record {
        distinct = (
          includes-take text_discrete k 7 (without k h) (kept_out k h),
          take-Distinct text_discrete 7 (without k h) w.distinct,
        );
        nonempty = (e, All-take (λ x. is_text x "" ≡ false) 7 (without k h) w.nonempty);
        short = omega (arith, length-take-le 7 (without k h));
      }

  pushed-IsHistory : (k : String) (h : List String) → IsHistory h → IsHistory (pushed k h)
  unfolding pushed
  pushed-IsHistory k h v = elim (Bool-cases (is_text k "")) [
    | inl e ↦ rw e v
    | inr e ↦ rw e (new_first k h v e)
  ]

  pushed_empty : (k : String) (h : List String) → is_text k "" ≡ true → pushed k h ≡ h
  unfolding pushed
  pushed_empty k h e = rw e refl

  cleared-IsHistory :
      (writable : Bool) (h : List String) → IsHistory h → IsHistory (if writable then [] else h)
  cleared-IsHistory true h v = record { distinct = tt; nonempty = tt; short = omega arith }
  cleared-IsHistory false h v = v

  push-Shows :
      (writable : Bool) (i n : ℕ) (raw : String) (h : List String) (t : Tab)
      → IsHistory h
      → Shows n t h
      → i < n
      → Shows n (push trim writable i raw t) (if writable then pushed (trim raw) h else h)
  unfolding push
  push-Shows writable i n raw h t v s l = elim (Bool-cases (is_text (trim raw) "")) [
    | inl e ↦
        let q = ap (λ x. if writable then x else h) (pushed_empty (trim raw) h e) in
        rw e (subst (Shows n t) (sym (q ∙ either_same writable h)) s)
    | inr e ↦ rw e (
        update-Shows writable i n (push_updater (trim raw)) (pushed (trim raw) h) h t s l
          (push-Gives (trim raw) h v e) (pushed-IsHistory (trim raw) h v).nonempty)
  ]

  meant-Shows :
      (n : ℕ) (t : Tab) (h : List String) (c : Call)
      → IsHistory h
      → Shows n t h
      → hook_of c < n
      → Shows n (perform t c) (meant h c) × IsHistory (meant h c)
  unfolding perform meant remove clear
  meant-Shows n t h (push_call writable i raw) v s l =
      (push-Shows writable i n raw h t v s l, ground (arith, pushed-IsHistory (trim raw) h v))
  meant-Shows n t h (remove_call writable i k) v s l = (
    update-Shows writable i n (remove_updater k) (without k h) h t s l (remove-Gives k h)
        (without-IsHistory k h v).nonempty,
    ground (arith, without-IsHistory k h v),
  )
  meant-Shows n t h (clear_call writable i) v s l = (
    update-Shows writable i n clear_updater [] h t s l (clear-Gives h) tt,
    cleared-IsHistory writable h v,
  )

  -- Any calls of the mounted hooks of a tab whose hooks and stored item have one history: afterwards
  -- they all have the history that the same calls mean for a list. A push puts the trimmed keyword first,
  -- once, and keeps at most eight; a call whose write fails changes nothing.
  pub perform_all-Shows :
      (n : ℕ) (t : Tab) (h : List String) (cs : List Call)
      → IsHistory h
      → Shows n t h
      → All (λ c. hook_of c < n) cs
      → Shows n (perform_all t cs) (meant_all h cs) × IsHistory (meant_all h cs)
  unfolding perform_all meant_all
  perform_all-Shows n t h [] v s l = (s, v)
  perform_all-Shows n t h (c ∷ cs) v s (l, ls) =
      let (s', v') = meant-Shows n t h c v s l in
      perform_all-Shows n (perform t c) (meant h c) cs v' s' ls
