-- ===== src/Desktop/Updates/Kept.antt =====
-- Every event keeps the update controller valid, and so does every run of events
-- (desktop/src/update-controller.ts).
use pixiv_biu.Base.{refl, arith, Bool, Option, List, [], ◌∷◌, String, ℤ}
use pixiv_biu.Desktop.Updates.Store.{UpdateFormat, StoredUpdates, Names}
use pixiv_biu.Desktop.Updates.Controller.{
  DownloadedEvent, Controller, publish, fail, block_install, new_controller,
}
use pixiv_biu.Desktop.Updates.Install.{give_up, on_error}
use pixiv_biu.Desktop.Updates.Events.{
  Event, check_call, download_call, install_call, check_step, download_step, install_step, progress,
  update_downloaded, driver_error, notes_fetched, before_quit, quit_cancelled, on_progress,
  on_downloaded, on_notes, begin_quit, cancel_quit, handle, handle_all,
}
use pixiv_biu.Desktop.Updates.Invariant.{IsValid, check-IsValid, check_at-IsValid}
use pixiv_biu.Desktop.Updates.Preserved.{download-IsValid, download_at-IsValid}
use pixiv_biu.Desktop.Updates.Handled.{restart_and_install-IsValid}
use pixiv_biu.Desktop.Updates.Handoff.{install_at-IsValid}

module _ (names : Names) where
  on_error-IsValid : (c : Controller) → IsValid names c → IsValid names (on_error c)
  unfolding on_error give_up block_install fail publish
  on_error-IsValid c v = ground arith

  on_progress-IsValid :
      (percent : Option ℤ) (c : Controller)
      → IsValid names c
      → IsValid names (on_progress percent c)
  unfolding on_progress publish
  on_progress-IsValid percent c v = ground arith

  on_downloaded-IsValid :
      (e : DownloadedEvent) (c : Controller) → IsValid names c → IsValid names (on_downloaded e c)
  unfolding on_downloaded
  on_downloaded-IsValid e c v = ground arith

  on_notes-IsValid :
      (is_same : Bool) (notes : String) (c : Controller)
      → IsValid names c
      → IsValid names (on_notes is_same notes c)
  unfolding on_notes publish
  on_notes-IsValid is_same notes c v = ground arith

  begin_quit-IsValid : (c : Controller) → IsValid names c → IsValid names (begin_quit c)
  unfolding begin_quit
  begin_quit-IsValid c v = ground arith

  cancel_quit-IsValid : (c : Controller) → IsValid names c → IsValid names (cancel_quit c)
  unfolding cancel_quit publish
  cancel_quit-IsValid c v = ground arith

  pub handle-IsValid :
      (c : Controller) (e : Event) → IsValid names c → IsValid names (handle names c e)
  unfolding handle
  handle-IsValid c check_call v = check-IsValid names c v
  handle-IsValid c download_call v = download-IsValid names c v
  handle-IsValid c install_call v = restart_and_install-IsValid names c v
  handle-IsValid c (check_step a) v = check_at-IsValid names c.check_operation a c refl v
  handle-IsValid c (download_step a) v = download_at-IsValid names c.download_operation a c refl v
  handle-IsValid c (install_step a) v = install_at-IsValid names c.install_operation a c refl v
  handle-IsValid c (progress percent) v = on_progress-IsValid percent c v
  handle-IsValid c (update_downloaded e) v = on_downloaded-IsValid e c v
  handle-IsValid c driver_error v = on_error-IsValid c v
  handle-IsValid c (notes_fetched is_same notes) v = on_notes-IsValid is_same notes c v
  handle-IsValid c before_quit v = begin_quit-IsValid c v
  handle-IsValid c quit_cancelled v = cancel_quit-IsValid c v

  pub new_controller-IsValid :
      (version : String) (format : UpdateFormat) (packaged file writable : Bool) (s : StoredUpdates)
      → IsValid names (new_controller version format packaged file writable s)
  unfolding new_controller
  new_controller-IsValid version format packaged file writable s = ground arith

  pub handle_all-IsValid :
      (c : Controller) (es : List Event) → IsValid names c → IsValid names (handle_all names c es)
  unfolding handle_all
  handle_all-IsValid c [] v = v
  handle_all-IsValid c (e ∷ es) v = handle_all-IsValid (handle names c e) es (handle-IsValid c e v)
