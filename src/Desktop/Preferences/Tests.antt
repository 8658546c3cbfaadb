-- ===== src/Desktop/Preferences/Tests.antt =====
-- Writes to the preferences, and the theorems at them.
use pixiv_biu.Base.{
  ◌≡◌, refl, true, false, none, some, List, [], ◌∷◌, String, map, length, insert, lookup,
  text_discrete,
}
use pixiv_biu.Desktop.Preferences.Store.{
  Unknown, text, Platform, preference_write_failed, new_store, restore, valid_entry, write_next,
  write,
}
use pixiv_biu.Desktop.Preferences.Reopened.{
  IsValid, KeepsEntries, Write, write_all, write_all-IsValid,
}
use pixiv_biu.Desktop.Preferences.Written.{Leaves, write-Leaves}

abbrev Entries : Type 0
Entries = List (String × String)

-- Documents that are their entries, whose size is their number.
abbrev platform : Platform Entries
platform = record {
  parse = λ es. some (record { version = some 1; values = some (map (λ e. (e.0, text e.1)) es) });
  stringify = λ es. es;
  size = length;
  byte_length = λ v. 100;
}

json : KeepsEntries platform
json es a d = refl

abbrev filters : Unknown
filters = text "pixivbiu.general-filters"

abbrev writes : List Write
writes =
    record { key = filters; value = text "{}"; is_written = true }
    ∷ record { key = text "token"; value = text "secret"; is_written = true }
    ∷ record { key = filters; value = text "[]"; is_written = false }
    ∷ []

write_all-IsValid_example :
    IsValid platform (write_all platform json writes (new_store platform none))
write_all-IsValid_example = write_all-IsValid platform json none writes

kept_filters :
    (write_all platform json writes (new_store platform none)).values
    ≡ ("pixivbiu.general-filters", "{}") ∷ []
unfolding write_all write write_next new_store restore valid_entry insert lookup text_discrete
kept_filters = refl

write-Leaves_example :
    Leaves platform
      (write platform filters (text "{}") false (new_store platform none)).0
      filters
      (text "{}")
      false
      (new_store platform none)
      (write platform filters (text "{}") false (new_store platform none)).1
write-Leaves_example = write-Leaves platform filters (text "{}") false (new_store platform none)

refused :
    (write platform filters (text "{}") false (new_store platform none)).0
    ≡ some preference_write_failed
unfolding write write_next new_store restore valid_entry insert lookup text_discrete
refused = refl
