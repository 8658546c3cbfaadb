-- ===== src/Desktop/Updates/Observe.antt =====
-- The page's side of the updates: frontend/src/features/system/desktop-update-state.ts.
-- A status is told apart by whether it has a `sequence`; those of an older shell have none, and their
-- states stand as the source spells them. The time is an argument.
use pixiv_biu.Base.{
  ℕ, suc, Bool, true, false, not, ◌&&◌, Option, none, some, List, [], ◌∷◌, ◌++◌, String, ltb,
  if◌then◌else◌, is_some, get_or, ℤ, pos, negsuc,
}
use pixiv_biu.Desktop.Updates.Store.{is_text}
use pixiv_biu.Desktop.Updates.Controller.{UpdateSnapshot, InstallMode, is_disabled}

pub data LegacyStatus : Type 0 where
  checking not_available : LegacyStatus
  available downloaded : String → Option String → LegacyStatus
  downloading : ℕ → LegacyStatus
  failed : String → LegacyStatus

-- A snapshot comes with the version and the mode of its controller.
pub data Status : Type 0 where
  snapshot : String → InstallMode → UpdateSnapshot → Status
  legacy : LegacyStatus → Status

-- `{ data, error }` of the read, or a rejection; `active_count` is `none` where it is no safe integer.
pub data Count : Type 0 where
  counted : Bool → Option (Option ℤ) → Count
  rejected : Count

pub data RestartPrompt : Type 0 where
  no_warning unknown : RestartPrompt
  active : ℕ → RestartPrompt

abbrev prompt_of : Option ℤ → RestartPrompt
prompt_of none = unknown
prompt_of (some (negsuc n)) = unknown
prompt_of (some (pos n)) = if ltb 0 n then active n else no_warning

unfoldable pub read_restart_prompt : Count → RestartPrompt
read_restart_prompt rejected = unknown
read_restart_prompt (counted true data_read) = unknown
read_restart_prompt (counted false none) = unknown
read_restart_prompt (counted false (some count)) = prompt_of count

-- `sequence` is `none` for the source's -1.
pub record Observer : Type 0 where
  pub alive : Bool
  pub sequence : Option ℕ
  pub received : List Status
  pub failures : ℕ

abbrev pub new_observer : Observer
new_observer = record { alive = true; sequence = none; received = []; failures = 0 }

abbrev pub is_after : ℕ → Option ℕ → Bool
is_after n none = true
is_after n (some m) = ltb m n

unfoldable pub deliver : Status → Observer → Observer
deliver (legacy s) o = if o.alive then record o { received = o.received ++ legacy s ∷ [] } else o
deliver (snapshot version mode s) o =
    if o.alive && is_after s.sequence o.sequence
    then record o {
      sequence = some s.sequence;
      received = o.received ++ snapshot version mode s ∷ [];
    }
    else o

-- The first read is rejected.
unfoldable pub read_failed : Observer → Observer
read_failed o =
    if o.alive && not (is_some o.sequence) then record o { failures = suc o.failures } else o

unfoldable pub unsubscribe : Observer → Observer
unsubscribe o = record o { alive = false }

pub record UpdateStatus : Type 0 where
  pub current_version : String
  pub is_dev : Bool
  pub update_available : Bool
  pub latest_version : String
  pub release_notes : Option String
  pub release_url : Option String
  pub published_at : Option String
  pub last_checked : Option String

-- `!!status.version`.
abbrev is_given : Option String → Bool
is_given none = false
is_given (some version) = not (is_text version "")

abbrev legacy_status : String → String → Bool → String → Option String → UpdateStatus
legacy_status now version is_available latest notes = record {
  current_version = version;
  is_dev = false;
  update_available = is_available;
  latest_version = latest;
  release_notes = notes;
  release_url = none;
  published_at = none;
  last_checked = some now;
}

unfoldable pub build_desktop_status : String → Status → String → Option UpdateStatus
build_desktop_status now (snapshot version mode s) legacy_version = some (record {
  current_version = version;
  is_dev = is_disabled mode;
  update_available = is_given s.version;
  latest_version = get_or version s.version;
  release_notes = s.notes;
  release_url = s.release_url;
  published_at = s.published_at;
  last_checked = s.last_checked;
})
build_desktop_status now (legacy (available version notes)) legacy_version =
    some (legacy_status now legacy_version true version notes)
build_desktop_status now (legacy (downloaded version notes)) legacy_version =
    some (legacy_status now legacy_version true version notes)
build_desktop_status now (legacy not_available) legacy_version =
    some (legacy_status now legacy_version false legacy_version none)
build_desktop_status now (legacy checking) legacy_version = none
build_desktop_status now (legacy (downloading percent)) legacy_version = none
build_desktop_status now (legacy (failed message)) legacy_version = none
