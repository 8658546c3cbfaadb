-- ===== src/Desktop/Updates/Check.antt =====
-- The check for updates, call and steps, and what every operation is given: desktop/src/update-controller.ts.
use pixiv_biu.Base.{
  Bool, true, false, not, ◌||◌, Option, none, some, String, if◌then◌else◌, is_some,
}
use pixiv_biu.Desktop.Updates.Store.{
  UpdateFormat, appimage, PendingUpdate, StoredUpdates, UpdateInfo, Names, verify_pending,
  save_pending,
}
use pixiv_biu.Desktop.Updates.Controller.{
  UpdateState, check_failed, CheckPoint, checking, linking, DownloadPoint, InstallPoint, Controller,
  publish, fail, is_in_app, is_disabled,
}

-- What `checkForUpdates` gives: nothing, or an offer and whether it is newer.
pub record CheckResult : Type 0 where
  pub is_update_available : Bool
  pub update_info : UpdateInfo

-- What the world gives to one step: whether the awaited call succeeded, what it gave, the hash of the
-- cached file, whether the record can be written, and what `quitAndInstall` does.
pub record Answer : Type 0 where
  pub resolved : Bool
  pub result : Option CheckResult
  pub hash : Option String
  pub release_url : Option String
  pub installer_url : Option String
  pub now : String
  pub writable : Bool
  pub quit_throws : Bool
  pub quit_emits_error : Bool

abbrev pub is_appimage : UpdateFormat → Bool
is_appimage appimage = true
is_appimage _ = false

-- A write that the operation does not survive: `none` where it throws.
abbrev pub with_store : Controller → Option StoredUpdates → Option Controller
with_store c none = none
with_store c (some s) = some (record c { store = s })

-- The `finally` of `check`: who waits for it goes on.
abbrev pub woken_download : Bool → Option DownloadPoint → Option DownloadPoint
woken_download ok (some DownloadPoint.waiting) = some (DownloadPoint.resumed ok)
woken_download ok other = other

abbrev pub woken_install : Bool → Option InstallPoint → Option InstallPoint
woken_install ok (some InstallPoint.waiting) = some (InstallPoint.resumed ok)
woken_install ok other = other

unfoldable pub end_check : Bool → Controller → Controller
end_check ok c = record c {
  check_operation = none;
  download_operation = woken_download ok c.download_operation;
  install_operation = woken_install ok c.install_operation;
}

-- The `catch` of `check`.
unfoldable pub check_thrown : Controller → Controller
unfolding end_check fail
check_thrown c = end_check false (fail check_failed (record c { info = none; ready = false }))

unfoldable pub check : Controller → Controller
check c =
    if c.install_blocked
      || is_some c.check_operation
      || is_some c.download_operation
      || is_some c.install_operation
      || c.prepared
      || is_disabled c.install_mode
    then c
    else record c { check_operation = some CheckPoint.queued }

unfoldable pub check_queued : Controller → Controller
unfolding end_check publish
check_queued c =
    if c.closing
    then end_check false c
    else publish (λ s. record s { state = UpdateState.checking; error = none })
        (record c { ready = false; check_operation = some checking })

-- No update: the offer is dropped, and the pending update with it.
unfoldable pub check_none : Answer → Controller → Controller
unfolding check_thrown end_check publish
check_none a c = elim (with_store c (save_pending a.writable none c.store)) [
  | none ↦ check_thrown c
  | some c' ↦ end_check true (
      publish
        (λ s. record s {
          state = UpdateState.not_available;
          version = none;
          notes = none;
          release_url = none;
          installer_url = none;
          published_at = none;
          last_checked = some a.now;
        })
        c')
]

-- An update: a pending one is verified, if it may be installed here.
unfoldable pub check_pending : Answer → UpdateInfo → Option PendingUpdate → Controller → Controller
unfolding check_thrown
check_pending a info none c = record c { check_operation = some (linking info) }
check_pending a info (some p) c =
    if is_in_app c.install_mode
    then record c { check_operation = some (CheckPoint.verifying info p) }
    else elim (with_store c (save_pending a.writable none c.store)) [
      | none ↦ check_thrown c
      | some c' ↦ record c' { check_operation = some (linking info) }
    ]

unfoldable pub check_offer : Answer → CheckResult → Controller → Controller
unfolding check_none check_pending
check_offer a r c =
    if r.is_update_available
    then check_pending a r.update_info c.store.pending
        (record c { info = some r.update_info; ready = false })
    else check_none a (record c { info = none; ready = false })

unfoldable pub check_checking : Answer → Controller → Controller
unfolding check_thrown check_offer
check_checking a c =
    if not a.resolved || c.closing
    then check_thrown c
    else elim a.result [ none ↦ check_thrown c | some r ↦ check_offer a r c ]

unfoldable pub check_linking : Answer → UpdateInfo → Controller → Controller
unfolding check_thrown end_check publish
check_linking a info c =
    if a.resolved
    then end_check true (
        publish
          (λ s. record s {
            state = if c.ready then UpdateState.downloaded else UpdateState.available;
            version = some info.version;
            notes = info.release_notes;
            published_at = some info.release_date;
            last_checked = some a.now;
            percent = none;
            release_url = a.release_url;
            installer_url = a.installer_url;
          })
          c)
    else check_thrown c

module _ (names : Names) where
  unfoldable pub check_verifying : Answer → UpdateInfo → PendingUpdate → Controller → Controller
  unfolding check_thrown
  check_verifying a info p c =
      if verify_pending names a.hash p info c.format
      then record c { ready = true; check_operation = some (linking info) }
      else elim (with_store c (save_pending a.writable none c.store)) [
        | none ↦ check_thrown (record c { ready = false })
        | some c' ↦ record c' { ready = false; check_operation = some (linking info) }
      ]

  unfoldable pub check_at : Option CheckPoint → Answer → Controller → Controller
  check_at none a c = c
  check_at (some CheckPoint.queued) a c = check_queued c
  check_at (some CheckPoint.checking) a c = check_checking a c
  check_at (some (CheckPoint.verifying info p)) a c = check_verifying a info p c
  check_at (some (CheckPoint.linking info)) a c = check_linking a info c
