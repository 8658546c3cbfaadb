-- ===== src/Desktop/Updates/Logged.antt =====
-- The steps of a check and of a download keep the log of the update controller
-- (desktop/src/update-controller.ts).
use pixiv_biu.Base.{Bool, Option, none, some}
use pixiv_biu.Desktop.Updates.Store.{PendingUpdate, UpdateInfo, Names, save_pending}
use pixiv_biu.Desktop.Updates.Controller.{
  UpdateErrorCode, CheckPoint, DownloadPoint, Controller, publish, fail, fail_unless_failed,
}
use pixiv_biu.Desktop.Updates.Download.{
  download, end_download, download_thrown, download_broken, begin_download, download_queued,
  download_resumed, start_verify, download_done, download_verifying, download_at,
}
use pixiv_biu.Desktop.Updates.Check.{
  Answer, check, check_queued, check_none, check_pending, check_offer, check_checking,
  check_linking, check_verifying, check_thrown, end_check, check_at,
}
use pixiv_biu.Desktop.Updates.Log.{IsLogged, log_rules}

module _ (names : Names) where
  pub check-IsLogged : (c : Controller) → IsLogged names c → IsLogged names (check c)
  unfolding check
  check-IsLogged c l = grind (log_rules)

  check_queued-IsLogged : (c : Controller) → IsLogged names c → IsLogged names (check_queued c)
  unfolding check_queued end_check publish
  check_queued-IsLogged c l = grind (log_rules)

  check_checking-IsLogged :
      (a : Answer) (c : Controller) → IsLogged names c → IsLogged names (check_checking a c)
  unfolding check_checking check_offer check_none check_pending check_thrown end_check fail publish
      save_pending
  check_checking-IsLogged a c l = grind (log_rules)

  check_linking-IsLogged :
      (a : Answer) (info : UpdateInfo) (c : Controller)
      → IsLogged names c
      → IsLogged names (check_linking a info c)
  unfolding check_linking check_thrown end_check fail publish
  check_linking-IsLogged a info c l = grind (log_rules)

  check_verifying-IsLogged :
      (a : Answer) (info : UpdateInfo) (p : PendingUpdate) (c : Controller)
      → IsLogged names c
      → IsLogged names (check_verifying names a info p c)
  unfolding check_verifying check_thrown end_check fail publish save_pending
  check_verifying-IsLogged a info p c l = grind (log_rules)

  pub download-IsLogged : (c : Controller) → IsLogged names c → IsLogged names (download c)
  unfolding download
  download-IsLogged c l = grind (log_rules)

  begin_download-IsLogged : (c : Controller) → IsLogged names c → IsLogged names (begin_download c)
  unfolding begin_download download_thrown end_download fail_unless_failed fail publish
  begin_download-IsLogged c l = grind (log_rules)

  download_queued-IsLogged :
      (c : Controller) → IsLogged names c → IsLogged names (download_queued c)
  unfolding download_queued
  download_queued-IsLogged c l = grind (log_rules, begin_download-IsLogged)

  download_resumed-IsLogged :
      (ok : Bool) (c : Controller) → IsLogged names c → IsLogged names (download_resumed ok c)
  unfolding download_resumed download_thrown end_download fail_unless_failed fail publish
  download_resumed-IsLogged ok c l = grind (log_rules, begin_download-IsLogged)

  download_broken-IsLogged :
      (code : UpdateErrorCode) (c : Controller)
      → IsLogged names c
      → IsLogged names (download_broken code c)
  unfolding download_broken download_thrown end_download fail_unless_failed fail publish
  download_broken-IsLogged code c l = grind (log_rules)

  start_verify-IsLogged :
      (point : Option DownloadPoint) (c : Controller)
      → IsLogged names c
      → IsLogged names (start_verify point c)
  unfolding start_verify
  start_verify-IsLogged point c l = grind (log_rules, download_broken-IsLogged)

  download_done-IsLogged :
      (a : Answer) (c : Controller) → IsLogged names c → IsLogged names (download_done a c)
  unfolding download_done
  download_done-IsLogged a c l = grind (log_rules, download_broken-IsLogged, start_verify-IsLogged)

  download_verifying-IsLogged :
      (a : Answer) (info : UpdateInfo) (p : PendingUpdate) (c : Controller)
      → IsLogged names c
      → IsLogged names (download_verifying names a info p c)
  unfolding download_verifying end_download publish save_pending
  download_verifying-IsLogged a info p c l = grind (log_rules, download_broken-IsLogged)

  pub check_at-IsLogged :
      (o : Option CheckPoint) (a : Answer) (c : Controller)
      → IsLogged names c
      → IsLogged names (check_at names o a c)
  unfolding check_at
  check_at-IsLogged none a c l = l
  check_at-IsLogged (some CheckPoint.queued) a c l = check_queued-IsLogged c l
  check_at-IsLogged (some CheckPoint.checking) a c l = check_checking-IsLogged a c l
  check_at-IsLogged (some (CheckPoint.verifying info p)) a c l =
      check_verifying-IsLogged a info p c l
  check_at-IsLogged (some (CheckPoint.linking info)) a c l = check_linking-IsLogged a info c l

  pub download_at-IsLogged :
      (o : Option DownloadPoint) (a : Answer) (c : Controller)
      → IsLogged names c
      → IsLogged names (download_at names o a c)
  unfolding download_at
  download_at-IsLogged none a c l = l
  download_at-IsLogged (some DownloadPoint.queued) a c l = download_queued-IsLogged c l
  download_at-IsLogged (some DownloadPoint.waiting) a c l = l
  download_at-IsLogged (some (DownloadPoint.resumed ok)) a c l = download_resumed-IsLogged ok c l
  download_at-IsLogged (some DownloadPoint.downloading) a c l = download_done-IsLogged a c l
  download_at-IsLogged (some (DownloadPoint.verifying info p)) a c l =
      download_verifying-IsLogged a info p c l
