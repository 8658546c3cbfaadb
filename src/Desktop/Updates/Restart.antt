-- ===== src/Desktop/Updates/Restart.antt =====
-- What a start of the shell makes of the record of the last update: `reconcile` of
-- desktop/src/update-store.ts in the constructor of desktop/src/update-controller.ts.
use pixiv_biu.Base.{◌≡◌, arith, Bool, true, false, not, some, String}
use pixiv_biu.Desktop.Updates.Store.{
  UpdateFormat, StoredUpdates, is_text, save_attempt, unless_running, reconcile, commit,
}
use pixiv_biu.Desktop.Updates.Controller.{new_controller, reconciled}

-- Let an installation have stored its attempt to go from one version to another, and let the record be
-- writable. The start after it reports a failed installation exactly if the version that runs is not the
-- one that was to be installed; the start after that one reports none; and a pending update of the
-- version that runs is forgotten.
pub new_controller-save_attempt :
    (from to version : String) (format : UpdateFormat) (packaged file : Bool)
    (s stored : StoredUpdates)
    → save_attempt true from to s ≡ some stored
    → let first = new_controller version format packaged file true stored in
      let second = new_controller version format packaged file true first.store in
      (first.snapshot.previous_install_failed ≡ not (is_text version to))
      × (second.snapshot.previous_install_failed ≡ false)
      × (second.store ≡ first.store)
      × (first.store.pending ≡ unless_running version s.pending)
unfolding new_controller reconciled reconcile save_attempt commit unless_running
new_controller-save_attempt from to version format packaged file s stored h = ground arith
