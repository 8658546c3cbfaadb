-- ===== src/Desktop/Updates/Store.antt =====
-- The update record and the check of a cached update: desktop/src/update-store.ts, with the types of
-- desktop/src/update-types.ts.
-- The name at the end of a URL or a path, and the tests on a name's end, are parameters, as is the hash
-- of a file. Whether the record's file can be written is an argument of each write: where it cannot, the
-- source throws and keeps its data, and the result here is `none`.
use pixiv_biu.Base.{
  ◌*◌, ℕ, ◌==◌, Bool, true, false, not, ◌&&◌, ◌||◌, Option, none, some, List, String, ite, ltb,
  if◌then◌else◌, any, text_discrete,
}

pub data UpdateFormat : Type 0 where
  nsis mac appimage deb rpm unsupported : UpdateFormat

unfoldable pub UpdateFormat-discrete : Discrete UpdateFormat
UpdateFormat-discrete = hlevel

pub record PendingUpdate : Type 0 where
  pub version : String
  pub format : UpdateFormat
  pub file : String
  pub sha512 : String

pub record Attempt : Type 0 where
  pub from : String
  pub to : String

pub record StoredUpdates : Type 0 where
  pub pending : Option PendingUpdate
  pub attempt : Option Attempt

-- What the file parses to. An `attempt` without both texts, and a `pending` that lacks one, are `none`.
pub data UpdateFile : Type 0 where
  unreadable : UpdateFile
  parsed : (size schema : ℕ) → Option PendingUpdate → Option Attempt → UpdateFile

abbrev pub is_installer : UpdateFormat → Bool
is_installer nsis = true
is_installer mac = true
is_installer appimage = true
is_installer _ = false

abbrev pub is_text : String → String → Bool
is_text s t = ite (text_discrete s t) true false

abbrev pub no_updates : StoredUpdates
no_updates = record { pending = none; attempt = none }

-- The pending update that the constructor takes over.
unfoldable pub usable : (String → Bool) → Option PendingUpdate → Option PendingUpdate
usable is_absolute none = none
usable is_absolute (some p) = if is_installer p.format && is_absolute p.file then some p else none

unfoldable pub open_store : (String → Bool) → UpdateFile → StoredUpdates
unfolding usable
open_store is_absolute unreadable = no_updates
open_store is_absolute (parsed size schema pending attempt) =
    if ltb (16 * 1024) size || not (schema == 1)
    then no_updates
    else record { pending = usable is_absolute pending; attempt = attempt }

unfoldable pub commit : Bool → StoredUpdates → Option StoredUpdates
commit writable next = if writable then some next else none

unfoldable pub save_pending : Bool → Option PendingUpdate → StoredUpdates → Option StoredUpdates
unfolding commit
save_pending writable pending s = commit writable (record s { pending = pending })

unfoldable pub save_attempt : Bool → String → String → StoredUpdates → Option StoredUpdates
unfolding commit
save_attempt writable from to s =
    commit writable (record s { attempt = some (record { from = from; to = to }) })

unfoldable pub clear_attempt : Bool → StoredUpdates → Option StoredUpdates
unfolding commit
clear_attempt writable s = commit writable (record s { attempt = none })

-- The pending update that is not the running version.
unfoldable pub unless_running : String → Option PendingUpdate → Option PendingUpdate
unless_running version none = none
unless_running version (some p) = if is_text p.version version then none else some p

pub data Reconciled : Type 0 where
  installed failed : Reconciled

-- `reconcile`: nothing where no attempt was stored, and else its result with the commit's.
unfoldable pub reconcile :
    Bool → String → StoredUpdates → Option (Reconciled × Option StoredUpdates)
unfolding commit unless_running
reconcile writable version s = elim s.attempt [
  | none ↦ none
  | some a ↦ some (
    if is_text version a.to then installed else failed,
    commit writable (record { attempt = none; pending = unless_running version s.pending }),
  )
]

pub record FeedFile : Type 0 where
  pub url : String
  pub sha512 : String

pub record UpdateInfo : Type 0 where
  pub version : String
  pub files : List FeedFile
  pub release_notes : Option String
  pub release_date : String

abbrev pub extension : UpdateFormat → String
extension nsis = ".exe"
extension mac = ".zip"
extension _ = ".appimage"

-- What the source relies on of `URL`, `path.basename`, `toLowerCase` and `endsWith`.
pub record Names : Type 0 where
  pub url_name : String → Option String
  pub base_name : String → String
  pub has_extension : String → String → Bool

module _ (names : Names) where
  open names use {url_name, base_name, has_extension}

  unfoldable pub matches_file : PendingUpdate → UpdateFormat → FeedFile → Bool
  matches_file p format file = elim (url_name file.url) [
    | none ↦ false
    | some name ↦
        is_text name (base_name p.file)
        && (has_extension name (extension format) && is_text file.sha512 p.sha512)
  ]

  unfoldable pub matches_feed : PendingUpdate → UpdateInfo → UpdateFormat → Bool
  matches_feed p info format =
      is_text p.version info.version
      && (ite (UpdateFormat-discrete p.format format) true false
          && any (matches_file p format) info.files)

  -- `hash` is what `fileHash` gives for the cached file, `none` where it throws.
  unfoldable pub verify_pending : Option String → PendingUpdate → UpdateInfo → UpdateFormat → Bool
  verify_pending none p info format = false
  verify_pending (some hash) p info format = matches_feed p info format && is_text hash p.sha512
