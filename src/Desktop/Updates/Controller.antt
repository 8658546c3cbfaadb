-- ===== src/Desktop/Updates/Controller.antt =====
-- The state of the update controller and what its operations share: desktop/src/update-controller.ts.
-- An asynchronous operation is cut at its awaits; a point of an operation is where it waits. What
-- follows an await up to the next one, with the handlers at the end of the operation, is one step.
-- `effects` lists the snapshots sent, the resumptions of the core, the cancellations and the calls of
-- `quitAndInstall`, with the pending update and the offer at the call. Log lines are left out. The
-- constant fields of a snapshot stand in the controller, and a flag that is not yet set is false.
use pixiv_biu.Base.{
  ℕ, ◌+◌, Bool, true, false, not, ◌&&◌, Option, none, some, List, [], ◌∷◌, ◌++◌, String,
  if◌then◌else◌,
}
use pixiv_biu.Desktop.Updates.Store.{
  UpdateFormat, PendingUpdate, StoredUpdates, UpdateInfo, Reconciled, installed, failed,
  is_installer, reconcile,
}

pub data InstallMode : Type 0 where
  in_app external disabled : InstallMode

pub data UpdateState : Type 0 where
  idle checking not_available available downloading downloaded preparing_install installing error :
      UpdateState

pub data UpdateErrorCode : Type 0 where
  check_failed download_failed verification_failed stop_failed install_failed not_supported :
      UpdateErrorCode

pub record UpdateSnapshot : Type 0 where
  pub sequence : ℕ
  pub state : UpdateState
  pub version : Option String
  pub notes : Option String
  pub release_url : Option String
  pub installer_url : Option String
  pub published_at : Option String
  pub last_checked : Option String
  pub percent : Option ℕ
  pub ready_to_install : Bool
  pub error : Option UpdateErrorCode
  pub previous_install_failed : Bool
  pub install_recovery_required : Bool

-- `check`: its microtask, `checkForUpdates`, `verifyPending`, `links`.
pub data CheckPoint : Type 0 where
  queued : CheckPoint
  checking : CheckPoint
  verifying : UpdateInfo → PendingUpdate → CheckPoint
  linking : UpdateInfo → CheckPoint

-- `download`: its microtask, the wait for a check, the check's end (resolved or rejected),
-- `downloadUpdate`, `verifyPending`.
pub data DownloadPoint : Type 0 where
  queued : DownloadPoint
  waiting : DownloadPoint
  resumed : Bool → DownloadPoint
  downloading : DownloadPoint
  verifying : UpdateInfo → PendingUpdate → DownloadPoint

-- `restartAndInstall`: the same, then `verifyPending`, `fs.access`, `downloadUpdate`, `prepareQuit`.
pub data InstallPoint : Type 0 where
  queued : InstallPoint
  waiting : InstallPoint
  resumed : Bool → InstallPoint
  verifying : UpdateInfo → PendingUpdate → InstallPoint
  accessing : InstallPoint
  rehydrating : InstallPoint
  preparing : InstallPoint

pub record DownloadedEvent : Type 0 where
  pub version : String
  pub downloaded_file : String
  pub checksum : Option String

pub data Effect : Type 0 where
  sent : UpdateSnapshot → Effect
  resumed : Effect
  cancelled : Effect
  quit_and_install : Option PendingUpdate → Option UpdateInfo → Effect

pub record Controller : Type 0 where
  pub current_version : String
  pub format : UpdateFormat
  pub install_mode : InstallMode
  pub snapshot : UpdateSnapshot
  pub info : Option UpdateInfo
  pub ready : Bool
  pub check_operation : Option CheckPoint
  pub download_operation : Option DownloadPoint
  pub install_operation : Option InstallPoint
  pub downloaded : Option DownloadedEvent
  pub prepared : Bool
  pub install_error : Bool
  pub closing : Bool
  pub download_token : Bool
  pub install_blocked : Bool
  pub store : StoredUpdates
  pub app_image_file : Bool
  pub effects : List Effect

abbrev pub install_mode_of : Bool → UpdateFormat → InstallMode
install_mode_of packaged format =
    if not packaged then disabled else if is_installer format then in_app else external

-- What the constructor finds of an earlier attempt: the store after it, and whether the attempt failed.
unfoldable pub reconciled :
    Option (Reconciled × Option StoredUpdates) → StoredUpdates → StoredUpdates × Bool
reconciled none s = (s, false)
reconciled (some (result, none)) s = (s, false)
reconciled (some (installed, some s')) s = (s', false)
reconciled (some (failed, some s')) s = (s', true)

-- The constructor. Whether there is an AppImage file, and whether the record can be written, are
-- arguments.
unfoldable pub new_controller :
    String → UpdateFormat → Bool → Bool → Bool → StoredUpdates → Controller
unfolding reconciled
new_controller version format packaged app_image_file writable store =
    let (store', has_failed) = reconciled (reconcile writable version store) store in
    record {
      current_version = version;
      format = format;
      install_mode = install_mode_of packaged format;
      snapshot = record {
        sequence = 0;
        state = idle;
        version = none;
        notes = none;
        release_url = none;
        installer_url = none;
        published_at = none;
        last_checked = none;
        percent = none;
        ready_to_install = false;
        error = none;
        previous_install_failed = has_failed;
        install_recovery_required = false;
      };
      info = none;
      ready = false;
      check_operation = none;
      download_operation = none;
      install_operation = none;
      downloaded = none;
      prepared = false;
      install_error = false;
      closing = false;
      download_token = false;
      install_blocked = false;
      store = store';
      app_image_file = app_image_file;
      effects = [];
    }

-- `{ ...snapshot, ...patch, readyToInstall, sequence + 1 }`.
abbrev pub stepped : (UpdateSnapshot → UpdateSnapshot) → Bool → UpdateSnapshot → UpdateSnapshot
stepped patch ready s = record (patch s) { ready_to_install = ready; sequence = s.sequence + 1 }

-- `publish` does nothing while the application closes.
unfoldable pub publish : (UpdateSnapshot → UpdateSnapshot) → Controller → Controller
publish patch c = record c {
  snapshot = if c.closing then c.snapshot else stepped patch c.ready c.snapshot;
  effects =
      if c.closing then c.effects else c.effects ++ sent (stepped patch c.ready c.snapshot) ∷ [];
}

unfoldable pub fail : UpdateErrorCode → Controller → Controller
unfolding publish
fail code = publish (λ s. record s { state = error; error = some code; percent = none })

abbrev pub is_error : UpdateState → Bool
is_error error = true
is_error _ = false

-- The `catch` of a whole operation: it fails once more unless the state says so already.
unfoldable pub fail_unless_failed : UpdateErrorCode → Controller → Controller
fail_unless_failed code c = record c {
  snapshot = if is_error c.snapshot.state then c.snapshot else (fail code c).snapshot;
  effects = if is_error c.snapshot.state then c.effects else (fail code c).effects;
}

unfoldable pub block_install : Controller → Controller
unfolding publish
block_install c =
    publish (λ s. record s { install_recovery_required = true })
      (record c { install_blocked = true; ready = false })

abbrev pub is_in_app : InstallMode → Bool
is_in_app in_app = true
is_in_app _ = false

abbrev pub is_disabled : InstallMode → Bool
is_disabled disabled = true
is_disabled _ = false

-- `requireInApp` does not throw.
unfoldable pub may_install : Controller → Bool
may_install c = is_in_app c.install_mode && not c.install_blocked
