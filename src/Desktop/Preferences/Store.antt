-- ===== src/Desktop/Preferences/Store.antt =====
-- The class PreferenceStore of desktop/src/preferences.ts. The file has a document, `none` if there is none
-- that can be read; documents, JSON and lengths in bytes are parameters, and whether the file system takes a
-- write, which replaces the file whole, is an argument. An unknown value is a text or `other`.
use pixiv_biu.Base.{
  ℕ, ◌==◌, Bool, true, false, ◌&&◌, Option, none, some, List, [], ◌∷◌, String, leb, if◌then◌else◌,
  ite, text_discrete, lookup, insert, includes,
}

pub data Unknown : Type 0 where
  text : String → Unknown
  other : Unknown

-- What `JSON.parse` gives: the version, and the entries of `values` if it is an object.
pub record Parsed : Type 0 where
  pub version : Option ℕ
  pub values : Option (List (String × Unknown))

-- JSON.parse, which fails on no JSON, JSON.stringify of `{ version: 1, values }`, and lengths in bytes.
pub record Platform (D : Type 0) : Type 0 where
  pub parse : D → Option Parsed
  pub stringify : List (String × String) → D
  pub size : D → ℕ
  pub byte_length : String → ℕ

abbrev pub preference_keys : List String
preference_keys =
    "PARAGLIDE_LOCALE" ∷ "pixivbiu.general-filters" ∷ "pixivbiu.search.history.v1"
    ∷ "pixivbiu.activity-bar" ∷ []

abbrev pub max_value_bytes : ℕ
max_value_bytes = 65536

abbrev pub max_file_bytes : ℕ
max_file_bytes = 307200

pub data PreferenceError : Type 0 where
  invalid_preference preference_write_failed : PreferenceError

pub record PreferenceStore (D : Type 0) : Type 0 where
  pub file : Option D
  pub values : List (String × String)

abbrev pub is_version_1 : Option ℕ → Bool
is_version_1 none = false
is_version_1 (some version) = version == 1

abbrev pub restore_value : String → Option String → List (String × String) → List (String × String)
restore_value key none values = values
restore_value key (some value) values = insert text_discrete key value values

abbrev pub entry_of : String → Option String → Option (String × String)
entry_of key none = none
entry_of key (some value) = some (key, value)

-- Whether `this.values[key] === value`.
abbrev pub is_value : String → Option String → Bool
is_value value none = false
is_value value (some old) = ite (text_discrete old value) true false

module _ {D : Type 0} (p : Platform D) where
  abbrev pub is_valid_text : String → String → Bool
  is_valid_text key value =
      includes text_discrete key preference_keys && leb (p.byte_length value) max_value_bytes

  -- `validEntry` of a text key, with the text that the value is.
  unfoldable pub valid_entry : String → Unknown → Option String
  valid_entry key (text value) = if is_valid_text key value then some value else none
  valid_entry key other = none

  unfoldable pub restore_entries :
      List (String × Unknown) → List (String × String) → List (String × String)
  restore_entries [] values = values
  restore_entries ((key, value) ∷ entries) values =
      restore_entries entries (restore_value key (valid_entry key value) values)

  abbrev pub restore_content : Option (List (String × Unknown)) → Bool → List (String × String)
  restore_content none is_current = []
  restore_content (some entries) is_current = if is_current then restore_entries entries [] else []

  abbrev pub restore_parsed : Option Parsed → List (String × String)
  restore_parsed none = []
  restore_parsed (some content) = restore_content content.values (is_version_1 content.version)

  unfoldable pub restore : Option D → List (String × String)
  restore none = []
  restore (some content) =
      if leb (p.size content) max_file_bytes then restore_parsed (p.parse content) else []

  -- The constructor.
  unfoldable pub new_store : Option D → PreferenceStore D
  new_store file = record { file = file; values = restore file }

  abbrev pub read : PreferenceStore D → List (String × String)
  read s = s.values

  unfoldable pub write_next :
      List (String × String) → Bool → PreferenceStore D → Option PreferenceError × PreferenceStore D
  write_next next is_written s =
      if leb (p.size (p.stringify next)) max_file_bytes
      then if is_written
        then (none, record { file = some (p.stringify next); values = next })
        else (some preference_write_failed, s)
      else (some invalid_preference, s)

  abbrev pub valid_unknown : Unknown → Unknown → Option (String × String)
  valid_unknown (text key) value = entry_of key (valid_entry key value)
  valid_unknown other value = none

  abbrev pub write_entry :
      Option (String × String)
      → Bool
      → PreferenceStore D
      → Option PreferenceError × PreferenceStore D
  write_entry none is_written s = (some invalid_preference, s)
  write_entry (some (key, value)) is_written s =
      if is_value value (lookup text_discrete key s.values)
      then (none, s)
      else write_next (insert text_discrete key value s.values) is_written s

  -- `write`, with the error that it throws.
  unfoldable pub write :
      Unknown → Unknown → Bool → PreferenceStore D → Option PreferenceError × PreferenceStore D
  write key value is_written s = write_entry (valid_unknown key value) is_written s
