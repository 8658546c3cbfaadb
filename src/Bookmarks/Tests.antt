-- ===== src/Bookmarks/Tests.antt =====
-- Runs of the tag writer, and the theorems at them.
use pixiv_biu.Base.{◌≡◌, refl, true, false, none, [], ◌∷◌, arith, text_discrete}
use pixiv_biu.Bookmarks.TagWriter.{
  Writer, same_tags, create_bookmark_tag_writer, change, start, flush, after_save, finish,
  advance_at, advance_run, synchronize,
}
use pixiv_biu.Bookmarks.Invariant.{
  IsValid, create_bookmark_tag_writer-IsValid, perform, perform_all, change_call, synchronize_call,
  step, perform_all-IsValid,
}
use pixiv_biu.Bookmarks.Settled.{IsSettled, settle, settle-IsSettled, settle_failed}

abbrev fresh : Writer
fresh = create_bookmark_tag_writer ("cat" ∷ [])

-- A selection is being written, and another one is queued.
abbrev busy : Writer
busy =
    perform_all fresh
      (change_call ("dog" ∷ []) ∷ step true ∷ change_call ("fox" ∷ []) ∷ synchronize_call [] ∷ [])

both_saved : (settle (true ∷ true ∷ true ∷ true ∷ []) busy).saves ≡ ("dog" ∷ []) ∷ ("fox" ∷ []) ∷ []
unfolding create_bookmark_tag_writer perform perform_all change start flush after_save finish
    advance_at advance_run settle same_tags text_discrete synchronize
both_saved = refl

busy-IsValid : IsValid busy
busy-IsValid =
    perform_all-IsValid fresh
      (change_call ("dog" ∷ []) ∷ step true ∷ change_call ("fox" ∷ []) ∷ synchronize_call [] ∷ [])
      (create_bookmark_tag_writer-IsValid ("cat" ∷ []))

perform_all-IsValid_example : IsValid busy
perform_all-IsValid_example =
    perform_all-IsValid fresh
      (change_call ("dog" ∷ []) ∷ step true ∷ change_call ("fox" ∷ []) ∷ synchronize_call [] ∷ [])
      (create_bookmark_tag_writer-IsValid ("cat" ∷ []))

settle-IsSettled_example : IsSettled (settle (true ∷ false ∷ true ∷ true ∷ []) busy)
settle-IsSettled_example =
    settle-IsSettled busy (true ∷ false ∷ true ∷ true ∷ []) busy-IsValid (omega arith)

settle_failed_example :
    ((settle (false ∷ true ∷ []) busy).confirmed ≡ busy.confirmed)
    × ((settle (false ∷ true ∷ []) busy).changed_to ≡ busy.confirmed)
    × ((settle (false ∷ true ∷ []) busy).queued ≡ none)
    × ((settle (false ∷ true ∷ []) busy).saves ≡ busy.saves)
unfolding create_bookmark_tag_writer perform perform_all change start flush advance_at advance_run
    same_tags text_discrete synchronize
settle_failed_example = settle_failed busy ("dog" ∷ []) (true ∷ []) refl
