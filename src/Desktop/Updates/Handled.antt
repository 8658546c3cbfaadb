-- ===== src/Desktop/Updates/Handled.antt =====
-- The steps of an installation up to the handoff keep the update controller valid
-- (desktop/src/update-controller.ts).
use pixiv_biu.Base.{◌≡◌, arith, Bool, true, false, Option, none, some, is_some}
use pixiv_biu.Desktop.Updates.Store.{
  PendingUpdate, UpdateInfo, Names, save_pending, save_attempt, clear_attempt,
}
use pixiv_biu.Desktop.Updates.Controller.{
  UpdateState, UpdateSnapshot, UpdateErrorCode, InstallPoint, accessing, rehydrating, Controller,
  publish, fail, fail_unless_failed, may_install,
}
use pixiv_biu.Desktop.Updates.Check.{Answer}
use pixiv_biu.Desktop.Updates.Install.{
  restart_and_install, end_install, install_thrown, install_broken, drop_pending, verify_install,
  install_offer, begin_install, install_queued, install_resumed, install_accessed,
  install_rehydrated, install_verifying,
}
use pixiv_biu.Desktop.Updates.Invariant.{IsValid}

module _ (names : Names) where
  pub restart_and_install-IsValid :
      (c : Controller) → IsValid names c → IsValid names (restart_and_install c)
  unfolding restart_and_install may_install
  restart_and_install-IsValid c v = ground arith

  install_thrown-IsValid : (c : Controller) → IsValid names c → IsValid names (install_thrown c)
  unfolding install_thrown end_install fail_unless_failed fail publish
  install_thrown-IsValid c v = ground arith

  pub install_broken-IsValid :
      (a : Answer) (code : UpdateErrorCode) (c : Controller)
      → IsValid names c
      → IsValid names (install_broken a code c)
  unfolding install_broken install_thrown end_install fail_unless_failed fail publish clear_attempt
  install_broken-IsValid a code c v = ground arith

  drop_pending-IsValid :
      (a : Answer) (c : Controller)
      → is_some c.check_operation ≡ false
      → c.prepared ≡ false
      → IsValid names c
      → IsValid names (drop_pending a c)
  unfolding drop_pending install_broken install_thrown end_install fail_unless_failed fail publish
      clear_attempt save_pending
  drop_pending-IsValid a c k p v = ground arith

  pub publish-IsValid :
      (patch : UpdateSnapshot → UpdateSnapshot) (c : Controller)
      → IsValid names c
      → IsValid names (publish patch c)
  unfolding publish
  publish-IsValid patch c v = ground arith

  verify_install-IsValid :
      (a : Answer) (info : UpdateInfo) (c : Controller)
      → is_some c.check_operation ≡ false
      → is_some c.install_operation ≡ true
      → c.ready ≡ true
      → IsValid names c
      → IsValid names (verify_install a c.store.pending info c)
  unfolding verify_install
  verify_install-IsValid a info c k o r v = ground arith

  install_offer-IsValid :
      (a : Answer) (i : Option UpdateInfo) (c : Controller)
      → is_some c.check_operation ≡ false
      → is_some c.install_operation ≡ true
      → c.ready ≡ true
      → IsValid names c
      → IsValid names (install_offer a i c)
  unfolding install_offer
  install_offer-IsValid a none c k o r v = install_thrown-IsValid c v
  install_offer-IsValid a (some info) c k o r v =
      let patch =
        λ (s : UpdateSnapshot). record s { state = UpdateState.preparing_install; error = none } in
      verify_install-IsValid a info (publish patch c) k o r (publish-IsValid patch c v)

  begin_install-IsValid :
      (a : Answer) (c : Controller)
      → is_some c.check_operation ≡ false
      → is_some c.install_operation ≡ true
      → IsValid names c
      → IsValid names (begin_install a c)
  unfolding begin_install
  begin_install-IsValid a c k o v =
      ground (arith, install_thrown-IsValid c, install_offer-IsValid a c.info c)

  pub install_queued-IsValid :
      (a : Answer) (c : Controller)
      → c.install_operation ≡ some InstallPoint.queued
      → IsValid names c
      → IsValid names (install_queued a c)
  unfolding install_queued
  install_queued-IsValid a c q v = ground (arith, begin_install-IsValid a c)

  pub install_resumed-IsValid :
      (ok : Bool) (a : Answer) (c : Controller)
      → c.install_operation ≡ some (InstallPoint.resumed ok)
      → IsValid names c
      → IsValid names (install_resumed ok a c)
  unfolding install_resumed
  install_resumed-IsValid true a c q v = begin_install-IsValid a c (ground arith) (ground arith) v
  install_resumed-IsValid false a c q v = install_thrown-IsValid c v

  pub install_accessed-IsValid :
      (a : Answer) (c : Controller)
      → c.install_operation ≡ some accessing
      → IsValid names c
      → IsValid names (install_accessed a c)
  unfolding install_accessed
  install_accessed-IsValid a c q v =
      ground (arith, install_broken-IsValid a UpdateErrorCode.verification_failed c)

  pub install_rehydrated-IsValid :
      (a : Answer) (c : Controller)
      → c.install_operation ≡ some rehydrating
      → IsValid names c
      → IsValid names (install_rehydrated a c)
  unfolding install_rehydrated save_attempt
  install_rehydrated-IsValid a c q v =
      ground (arith, install_broken-IsValid a UpdateErrorCode.verification_failed c)

  pub install_verifying-IsValid :
      (a : Answer) (info : UpdateInfo) (p : PendingUpdate) (c : Controller)
      → c.install_operation ≡ some (InstallPoint.verifying info p)
      → IsValid names c
      → IsValid names (install_verifying names a info p c)
  unfolding install_verifying
  install_verifying-IsValid a info p c q v = ground (
    arith,
    install_broken-IsValid a UpdateErrorCode.verification_failed c,
    drop_pending-IsValid a c,
  )
