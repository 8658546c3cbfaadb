-- ===== src/Desktop/Updates/Invariant.antt =====
-- What holds of the update controller between two events (desktop/src/update-controller.ts).
use pixiv_biu.Base.{◌≡◌, arith, Bool, true, false, ◌||◌, Option, none, some, String, is_some}
use pixiv_biu.Desktop.Updates.Store.{
  UpdateFormat, PendingUpdate, UpdateInfo, Names, matches_feed, verify_pending, save_pending,
}
use pixiv_biu.Desktop.Updates.Controller.{
  CheckPoint, checking, linking, DownloadPoint, InstallPoint, Controller, publish, fail, is_in_app,
}
use pixiv_biu.Desktop.Updates.Check.{
  Answer, end_check, check_thrown, check, check_queued, check_none, check_pending, check_offer,
  check_checking, check_linking, check_verifying, check_at,
}

-- Past its waits for the check.
abbrev pub is_downloading_now : Option DownloadPoint → Bool
is_downloading_now (some DownloadPoint.downloading) = true
is_downloading_now (some (DownloadPoint.verifying info p)) = true
is_downloading_now _ = false

abbrev pub is_installing_now : Option InstallPoint → Bool
is_installing_now none = false
is_installing_now (some InstallPoint.queued) = false
is_installing_now (some InstallPoint.waiting) = false
is_installing_now (some (InstallPoint.resumed ok)) = false
is_installing_now _ = true

abbrev pub awaits_check : Option DownloadPoint → Option InstallPoint → Bool
awaits_check (some DownloadPoint.waiting) i = true
awaits_check d (some InstallPoint.waiting) = true
awaits_check d i = false

abbrev pub goes_on : Option DownloadPoint → Option InstallPoint → Bool
goes_on (some (DownloadPoint.resumed ok)) i = true
goes_on d (some (InstallPoint.resumed ok)) = true
goes_on d i = false

-- The pending update is one of the feed's files for the offer.
abbrev pub IsOffered : Names → UpdateFormat → Option UpdateInfo → Option PendingUpdate → Type 0
IsOffered names format (some info) (some p) = matches_feed names p info format ≡ true
IsOffered names format _ _ = ⊥

abbrev CheckKnows : Option CheckPoint → Option UpdateInfo → Option PendingUpdate → Bool → Type 0
CheckKnows (some (CheckPoint.verifying info p)) i q m = (i ≡ some info) × (q ≡ some p) × (m ≡ true)
CheckKnows (some (CheckPoint.linking info)) i q m = i ≡ some info
CheckKnows _ i q m = Unit

abbrev DownloadKnows : Option DownloadPoint → Option UpdateInfo → Type 0
DownloadKnows (some (DownloadPoint.verifying info p)) i = i ≡ some info
DownloadKnows _ i = Unit

module _ (names : Names) where
  pub record IsValid (c : Controller) : Type 0 where
    pub check_alone :
        is_some c.check_operation ≡ true
        → (is_downloading_now c.download_operation ≡ false)
          × (is_installing_now c.install_operation ≡ false)
          × (c.prepared ≡ false)
    pub download_not_ready : is_downloading_now c.download_operation ≡ true → c.ready ≡ false
    pub install_ready : is_installing_now c.install_operation ≡ true → c.ready ≡ true
    pub prepared_ready : c.prepared ≡ true → c.ready ≡ true
    pub handed_off : (c.prepared || c.install_blocked) ≡ true → c.install_operation ≡ none
    pub offered :
        c.ready ≡ true
        → IsOffered names c.format c.info c.store.pending × (is_in_app c.install_mode ≡ true)
    pub download_in_app : is_some c.download_operation ≡ true → is_in_app c.install_mode ≡ true
    pub check_knows : CheckKnows c.check_operation c.info c.store.pending (is_in_app c.install_mode)
    pub download_knows : DownloadKnows c.download_operation c.info
    pub awaited :
        awaits_check c.download_operation c.install_operation ≡ true
        → is_some c.check_operation ≡ true
    pub over :
        goes_on c.download_operation c.install_operation ≡ true → is_some c.check_operation ≡ false

  pub check-IsValid : (c : Controller) → IsValid c → IsValid (check c)
  unfolding check
  check-IsValid c v = ground arith

  check_queued-IsValid :
      (c : Controller)
      → c.check_operation ≡ some CheckPoint.queued
      → IsValid c
      → IsValid (check_queued c)
  unfolding check_queued end_check publish
  check_queued-IsValid c q v = ground arith

  check_thrown-IsValid :
      (c : Controller) → is_some c.check_operation ≡ true → IsValid c → IsValid (check_thrown c)
  unfolding check_thrown end_check fail publish
  check_thrown-IsValid c q v = ground arith

  check_checking-IsValid :
      (a : Answer) (c : Controller)
      → c.check_operation ≡ some checking
      → IsValid c
      → IsValid (check_checking a c)
  unfolding check_checking check_offer check_none check_pending check_thrown end_check fail publish
      save_pending
  check_checking-IsValid a c q v = ground arith

  check_linking-IsValid :
      (a : Answer) (info : UpdateInfo) (c : Controller)
      → c.check_operation ≡ some (linking info)
      → IsValid c
      → IsValid (check_linking a info c)
  unfolding check_linking check_thrown end_check fail publish
  check_linking-IsValid a info c q v = ground arith

  pub verify-matches :
      (hash : Option String) (p : PendingUpdate) (info : UpdateInfo) (format : UpdateFormat)
      → verify_pending names hash p info format ≡ true
      → matches_feed names p info format ≡ true
  unfolding verify_pending
  verify-matches none p info format h = cc
  verify-matches (some x) p info format h = ground arith

  check_verifying-IsValid :
      (a : Answer) (info : UpdateInfo) (p : PendingUpdate) (c : Controller)
      → c.check_operation ≡ some (CheckPoint.verifying info p)
      → IsValid c
      → IsValid (check_verifying names a info p c)
  unfolding check_verifying check_thrown end_check fail publish save_pending
  check_verifying-IsValid a info p c q v = ground (arith, verify-matches a.hash p info c.format)

  pub check_at-IsValid :
      (o : Option CheckPoint) (a : Answer) (c : Controller)
      → c.check_operation ≡ o
      → IsValid c
      → IsValid (check_at names o a c)
  unfolding check_at
  check_at-IsValid none a c q v = v
  check_at-IsValid (some CheckPoint.queued) a c q v = check_queued-IsValid c q v
  check_at-IsValid (some CheckPoint.checking) a c q v = check_checking-IsValid a c q v
  check_at-IsValid (some (CheckPoint.verifying info p)) a c q v =
      check_verifying-IsValid a info p c q v
  check_at-IsValid (some (CheckPoint.linking info)) a c q v = check_linking-IsValid a info c q v
