-- ===== src/SearchHistory/Tests.antt =====
-- A run of two hooks of a tab, and the theorem at it.
use pixiv_biu.Base.{◌≡◌, refl, true, false, List, [], ◌∷◌, arith, String, text_discrete}
use pixiv_biu.SearchHistory.Hooks.{
  Tab, unset, safe_read, texts_of, sync, notify, set_at, store_next, without, push_updater,
  update_at, update, push,
}
use pixiv_biu.SearchHistory.Refines.{IsHistory, Shows}
use pixiv_biu.SearchHistory.Runs.{
  Call, push_call, perform, perform_all, meant_all, perform_all-Shows,
}

abbrev no_trim : String → String
no_trim s = s

abbrev empty_tab : Tab
empty_tab = record { stored = unset; hooks = [] ∷ [] ∷ [] }

-- The last push cannot be written.
abbrev calls : List Call
calls =
    push_call true 0 "cat"
    ∷ push_call true 1 "dog"
    ∷ push_call true 0 "cat"
    ∷ push_call false 0 "fox"
    ∷ []

both_hooks :
    (perform_all no_trim empty_tab calls).hooks ≡ ("cat" ∷ "dog" ∷ []) ∷ ("cat" ∷ "dog" ∷ []) ∷ []
unfolding perform_all perform push update update_at store_next push_updater without notify sync
    safe_read texts_of set_at text_discrete
both_hooks = refl

perform_all-Shows_example :
    Shows 2 (perform_all no_trim empty_tab calls) (meant_all no_trim [] calls)
    × IsHistory (meant_all no_trim [] calls)
unfolding safe_read
perform_all-Shows_example =
    perform_all-Shows no_trim 2 empty_tab [] calls
      (record { distinct = tt; nonempty = tt; short = omega arith })
      (record { stored_same = refl; hooks_same = (refl, (refl, tt)); mounted = refl })
      (omega arith, (omega arith, (omega arith, (omega arith, tt))))
