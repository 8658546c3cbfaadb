-- ===== src/Desktop/Updates/LoggedInstall.antt =====
-- The steps of an installation keep the log of the update controller
-- (desktop/src/update-controller.ts).
use pixiv_biu.Base.{Bool, Option}
use pixiv_biu.Desktop.Updates.Store.{
  PendingUpdate, UpdateInfo, Names, save_pending, save_attempt, clear_attempt,
}
use pixiv_biu.Desktop.Updates.Controller.{
  UpdateSnapshot, UpdateErrorCode, Controller, publish, fail, fail_unless_failed, block_install,
}
use pixiv_biu.Desktop.Updates.Install.{
  restart_and_install, end_install, install_thrown, install_broken, drop_pending, verify_install,
  install_offer, begin_install, install_queued, install_resumed, install_accessed,
  install_rehydrated, give_up, given_up, on_error, handoff_thrown, emitted, install_verifying,
}
use pixiv_biu.Desktop.Updates.Check.{Answer}
use pixiv_biu.Desktop.Updates.Log.{IsLogged, log_rules}

module _ (names : Names) where
  pub restart_and_install-IsLogged :
      (c : Controller) → IsLogged names c → IsLogged names (restart_and_install c)
  unfolding restart_and_install
  restart_and_install-IsLogged c l = grind (log_rules)

  install_thrown-IsLogged : (c : Controller) → IsLogged names c → IsLogged names (install_thrown c)
  unfolding install_thrown end_install fail_unless_failed fail publish
  install_thrown-IsLogged c l = grind (log_rules)

  pub install_broken-IsLogged :
      (a : Answer) (code : UpdateErrorCode) (c : Controller)
      → IsLogged names c
      → IsLogged names (install_broken a code c)
  unfolding install_broken install_thrown end_install fail_unless_failed fail publish clear_attempt
  install_broken-IsLogged a code c l = grind (log_rules)

  drop_pending-IsLogged :
      (a : Answer) (c : Controller) → IsLogged names c → IsLogged names (drop_pending a c)
  unfolding drop_pending install_broken install_thrown end_install fail_unless_failed fail publish
      clear_attempt save_pending
  drop_pending-IsLogged a c l = grind (log_rules)

  pub publish-IsLogged :
      (patch : UpdateSnapshot → UpdateSnapshot) (c : Controller)
      → IsLogged names c
      → IsLogged names (publish patch c)
  unfolding publish
  publish-IsLogged patch c l = grind (log_rules)

  verify_install-IsLogged :
      (a : Answer) (p : Option PendingUpdate) (info : UpdateInfo) (c : Controller)
      → IsLogged names c
      → IsLogged names (verify_install a p info c)
  unfolding verify_install
  verify_install-IsLogged a p info c l = grind (log_rules, drop_pending-IsLogged)

  install_offer-IsLogged :
      (a : Answer) (i : Option UpdateInfo) (c : Controller)
      → IsLogged names c
      → IsLogged names (install_offer a i c)
  unfolding install_offer
  install_offer-IsLogged a i c l =
      grind (log_rules, install_thrown-IsLogged, verify_install-IsLogged, publish-IsLogged)

  begin_install-IsLogged :
      (a : Answer) (c : Controller) → IsLogged names c → IsLogged names (begin_install a c)
  unfolding begin_install
  begin_install-IsLogged a c l = grind (log_rules, install_thrown-IsLogged, install_offer-IsLogged)

  pub install_queued-IsLogged :
      (a : Answer) (c : Controller) → IsLogged names c → IsLogged names (install_queued a c)
  unfolding install_queued
  install_queued-IsLogged a c l = grind (log_rules, begin_install-IsLogged)

  pub install_resumed-IsLogged :
      (ok : Bool) (a : Answer) (c : Controller)
      → IsLogged names c
      → IsLogged names (install_resumed ok a c)
  unfolding install_resumed
  install_resumed-IsLogged ok a c l =
      grind (log_rules, begin_install-IsLogged, install_thrown-IsLogged)

  pub install_accessed-IsLogged :
      (a : Answer) (c : Controller) → IsLogged names c → IsLogged names (install_accessed a c)
  unfolding install_accessed
  install_accessed-IsLogged a c l = grind (log_rules, install_broken-IsLogged)

  pub install_rehydrated-IsLogged :
      (a : Answer) (c : Controller) → IsLogged names c → IsLogged names (install_rehydrated a c)
  unfolding install_rehydrated save_attempt
  install_rehydrated-IsLogged a c l = grind (log_rules, install_broken-IsLogged)

  pub install_verifying-IsLogged :
      (a : Answer) (info : UpdateInfo) (p : PendingUpdate) (c : Controller)
      → IsLogged names c
      → IsLogged names (install_verifying names a info p c)
  unfolding install_verifying
  install_verifying-IsLogged a info p c l =
      grind (log_rules, install_broken-IsLogged, drop_pending-IsLogged)

  give_up-IsLogged : (c : Controller) → IsLogged names c → IsLogged names (give_up c)
  unfolding give_up block_install publish
  give_up-IsLogged c l = grind (log_rules)

  given_up-IsLogged : (b : Bool) (c : Controller) → IsLogged names c → IsLogged names (given_up b c)
  unfolding given_up
  given_up-IsLogged b c l = grind (log_rules, give_up-IsLogged)

  pub on_error-IsLogged : (c : Controller) → IsLogged names c → IsLogged names (on_error c)
  unfolding on_error give_up block_install fail publish
  on_error-IsLogged c l = grind (log_rules)

  pub emitted-IsLogged :
      (b : Bool) (c : Controller) → IsLogged names c → IsLogged names (emitted b c)
  unfolding emitted
  emitted-IsLogged b c l = grind (log_rules, on_error-IsLogged)

  pub handoff_thrown-IsLogged :
      (a : Answer) (c : Controller) → IsLogged names c → IsLogged names (handoff_thrown a c)
  unfolding handoff_thrown
  handoff_thrown-IsLogged a c l = grind (log_rules, install_broken-IsLogged, given_up-IsLogged)

  pub end_install-IsLogged : (c : Controller) → IsLogged names c → IsLogged names (end_install c)
  unfolding end_install
  end_install-IsLogged c l = grind (log_rules)
