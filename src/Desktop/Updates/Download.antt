-- ===== src/Desktop/Updates/Download.antt =====
-- The download of an update, call and steps: desktop/src/update-controller.ts.
use pixiv_biu.Base.{Bool, true, false, not, ◌||◌, Option, none, some, if◌then◌else◌, is_some}
use pixiv_biu.Desktop.Updates.Store.{PendingUpdate, UpdateInfo, Names, verify_pending, save_pending}
use pixiv_biu.Desktop.Updates.Controller.{
  UpdateState, UpdateErrorCode, check_failed, download_failed, verification_failed, DownloadPoint,
  DownloadedEvent, Controller, publish, fail, fail_unless_failed, may_install,
}
use pixiv_biu.Desktop.Updates.Check.{Answer, with_store}

-- `download`; where it throws, nothing changes.
unfoldable pub download : Controller → Controller
download c =
    if not (may_install c)
      || is_some c.download_operation
      || is_some c.install_operation
      || c.prepared
    then c
    else record c { download_operation = some DownloadPoint.queued }

-- The `finally`.
unfoldable pub end_download : Controller → Controller
end_download c = record c { download_operation = none; download_token = false }

-- The `catch` of the whole operation, which the body's own `throw` reaches too.
unfoldable pub download_thrown : Controller → Controller
unfolding end_download
download_thrown c = end_download (fail_unless_failed download_failed c)

-- The inner `catch`, then the outer.
unfoldable pub download_broken : UpdateErrorCode → Controller → Controller
unfolding download_thrown fail
download_broken code c = download_thrown (fail code (record c { ready = false }))

-- The body from `assertOpen` to `downloadUpdate`.
unfoldable pub begin_download : Controller → Controller
unfolding download_thrown end_download publish fail
begin_download c = if c.closing then download_thrown c else elim c.info [
  | none ↦ download_thrown (fail check_failed c)
  | some info ↦
      if c.ready
      then end_download (publish (λ s. record s { state = UpdateState.downloaded; error = none }) c)
      else record (publish
          (λ s. record s { state = UpdateState.downloading; error = none; percent = some 0 })
          (record c { downloaded = none })) {
            download_token = true;
            download_operation = some DownloadPoint.downloading;
          }
]

unfoldable pub download_queued : Controller → Controller
unfolding begin_download
download_queued c =
    if is_some c.check_operation
    then record c { download_operation = some DownloadPoint.waiting }
    else begin_download c

-- The check's rejection is the download's.
unfoldable pub download_resumed : Bool → Controller → Controller
unfolding begin_download download_thrown
download_resumed true c = begin_download c
download_resumed false c = download_thrown c

-- The record of what was downloaded.
abbrev pub pending_of : Controller → DownloadedEvent → Option PendingUpdate
pending_of c e = elim e.checksum [
  | none ↦ none
  | some sha512 ↦
      some (record {
        version = e.version;
        format = c.format;
        file = e.downloaded_file;
        sha512 = sha512;
      })
]

abbrev pub verify_at : Option UpdateInfo → Option PendingUpdate → Option DownloadPoint
verify_at (some info) (some p) = some (DownloadPoint.verifying info p)
verify_at _ _ = none

abbrev pub downloaded_pending : Controller → Option PendingUpdate
downloaded_pending c = elim c.downloaded [ none ↦ none | some e ↦ pending_of c e ]

unfoldable pub start_verify : Option DownloadPoint → Controller → Controller
unfolding download_broken
start_verify none c = download_broken verification_failed c
start_verify (some point) c = record c { download_operation = some point }

-- After `downloadUpdate`: the event has named the file.
unfoldable pub download_done : Answer → Controller → Controller
unfolding download_broken start_verify
download_done a c =
    if not a.resolved || c.closing
    then download_broken download_failed c
    else start_verify (verify_at c.info (downloaded_pending c)) c

module _ (names : Names) where
  unfoldable pub download_verifying : Answer → UpdateInfo → PendingUpdate → Controller → Controller
  unfolding download_broken end_download publish
  download_verifying a info p c =
      if verify_pending names a.hash p info c.format
      then elim (with_store c (save_pending a.writable (some p) c.store)) [
        | none ↦ download_broken verification_failed c
        | some c' ↦ end_download (
            publish (λ s. record s { state = UpdateState.downloaded; percent = none })
              (record c' { ready = true }))
      ]
      else download_broken verification_failed c

  unfoldable pub download_at : Option DownloadPoint → Answer → Controller → Controller
  download_at none a c = c
  download_at (some DownloadPoint.queued) a c = download_queued c
  download_at (some DownloadPoint.waiting) a c = c
  download_at (some (DownloadPoint.resumed ok)) a c = download_resumed ok c
  download_at (some DownloadPoint.downloading) a c = download_done a c
  download_at (some (DownloadPoint.verifying info p)) a c = download_verifying a info p c
