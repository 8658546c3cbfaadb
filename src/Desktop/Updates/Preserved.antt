-- ===== src/Desktop/Updates/Preserved.antt =====
-- The steps of a download keep the update controller valid
-- (desktop/src/update-controller.ts).
use pixiv_biu.Base.{◌≡◌, arith, Bool, true, false, Option, none, some, is_some}
use pixiv_biu.Desktop.Updates.Store.{PendingUpdate, UpdateInfo, Names, save_pending}
use pixiv_biu.Desktop.Updates.Controller.{
  UpdateErrorCode, DownloadPoint, Controller, publish, fail, fail_unless_failed, may_install,
}
use pixiv_biu.Desktop.Updates.Check.{Answer}
use pixiv_biu.Desktop.Updates.Download.{
  download, end_download, download_thrown, download_broken, begin_download, download_queued,
  download_resumed, verify_at, downloaded_pending, start_verify, download_done, download_verifying,
  download_at,
}
use pixiv_biu.Desktop.Updates.Invariant.{is_downloading_now, IsValid, verify-matches}

module _ (names : Names) where
  pub download-IsValid : (c : Controller) → IsValid names c → IsValid names (download c)
  unfolding download may_install
  download-IsValid c v = ground arith

  download_thrown-IsValid : (c : Controller) → IsValid names c → IsValid names (download_thrown c)
  unfolding download_thrown end_download fail_unless_failed fail publish
  download_thrown-IsValid c v = ground arith

  begin_download-IsValid :
      (c : Controller)
      → is_some c.check_operation ≡ false
      → is_some c.download_operation ≡ true
      → is_downloading_now c.download_operation ≡ false
      → IsValid names c
      → IsValid names (begin_download c)
  unfolding begin_download download_thrown end_download fail_unless_failed fail publish
  begin_download-IsValid c k o w v = ground arith

  download_queued-IsValid :
      (c : Controller)
      → c.download_operation ≡ some DownloadPoint.queued
      → IsValid names c
      → IsValid names (download_queued c)
  unfolding download_queued
  download_queued-IsValid c q v = ground (arith, begin_download-IsValid c)

  download_resumed-IsValid :
      (ok : Bool) (c : Controller)
      → c.download_operation ≡ some (DownloadPoint.resumed ok)
      → IsValid names c
      → IsValid names (download_resumed ok c)
  unfolding download_resumed
  download_resumed-IsValid true c q v =
      begin_download-IsValid c (ground arith) (ground arith) (ground arith) v
  download_resumed-IsValid false c q v = download_thrown-IsValid c v

  download_broken-IsValid :
      (code : UpdateErrorCode) (c : Controller)
      → is_downloading_now c.download_operation ≡ true
      → IsValid names c
      → IsValid names (download_broken code c)
  unfolding download_broken download_thrown end_download fail_unless_failed fail publish
  download_broken-IsValid code c q v = ground arith

  start_verify-IsValid :
      (c : Controller)
      → c.download_operation ≡ some DownloadPoint.downloading
      → IsValid names c
      → IsValid names (start_verify (verify_at c.info (downloaded_pending c)) c)
  unfolding start_verify
  start_verify-IsValid c q v =
      ground (arith, download_broken-IsValid UpdateErrorCode.verification_failed c)

  download_done-IsValid :
      (a : Answer) (c : Controller)
      → c.download_operation ≡ some DownloadPoint.downloading
      → IsValid names c
      → IsValid names (download_done a c)
  unfolding download_done
  download_done-IsValid a c q v =
      ground
        (arith, download_broken-IsValid UpdateErrorCode.download_failed c, start_verify-IsValid c)

  download_verifying-IsValid :
      (a : Answer) (info : UpdateInfo) (p : PendingUpdate) (c : Controller)
      → c.download_operation ≡ some (DownloadPoint.verifying info p)
      → IsValid names c
      → IsValid names (download_verifying names a info p c)
  unfolding download_verifying end_download publish save_pending
  download_verifying-IsValid a info p c q v = ground (
    arith,
    verify-matches names a.hash p info c.format,
    download_broken-IsValid UpdateErrorCode.verification_failed c,
  )

  pub download_at-IsValid :
      (o : Option DownloadPoint) (a : Answer) (c : Controller)
      → c.download_operation ≡ o
      → IsValid names c
      → IsValid names (download_at names o a c)
  unfolding download_at
  download_at-IsValid none a c q v = v
  download_at-IsValid (some DownloadPoint.queued) a c q v = download_queued-IsValid c q v
  download_at-IsValid (some DownloadPoint.waiting) a c q v = v
  download_at-IsValid (some (DownloadPoint.resumed ok)) a c q v = download_resumed-IsValid ok c q v
  download_at-IsValid (some DownloadPoint.downloading) a c q v = download_done-IsValid a c q v
  download_at-IsValid (some (DownloadPoint.verifying info p)) a c q v =
      download_verifying-IsValid a info p c q v
