-- ===== src/Desktop/Updates/Handoff.antt =====
-- The handoff of an update to the installer, and every event, keep the update controller valid
-- (desktop/src/update-controller.ts).
use pixiv_biu.Base.{
  ◌≡◌, refl, ◌∙◌, arith, Bool, true, false, not, ◌||◌, Option, none, some, if◌then◌else◌, is_some,
}
use pixiv_biu.Desktop.Updates.Store.{Names, clear_attempt}
use pixiv_biu.Desktop.Updates.Controller.{
  UpdateState, UpdateSnapshot, UpdateErrorCode, InstallPoint, preparing, Controller, publish, fail,
  fail_unless_failed, block_install, is_in_app,
}
use pixiv_biu.Desktop.Updates.Check.{Answer}
use pixiv_biu.Desktop.Updates.Install.{
  end_install, install_thrown, install_broken, give_up, given_up, on_error, handoff_thrown,
  ask_quit, emitted, hand_off, install_prepared, install_at,
}
use pixiv_biu.Desktop.Updates.Invariant.{is_downloading_now, awaits_check, IsOffered, IsValid}
use pixiv_biu.Desktop.Updates.Handled.{
  install_broken-IsValid, install_queued-IsValid, install_resumed-IsValid, install_accessed-IsValid,
  install_rehydrated-IsValid, install_verifying-IsValid,
}

module _ (names : Names) where
  -- Nothing runs at the handoff but the installation itself.
  record IsHandingOff (c : Controller) : Type 0 where
    check_over : is_some c.check_operation ≡ false
    download_over : is_downloading_now c.download_operation ≡ false
    no_wait : awaits_check c.download_operation none ≡ false
    is_offered : IsOffered names c.format c.info c.store.pending × (is_in_app c.install_mode ≡ true)
    download_mode : is_some c.download_operation ≡ true → is_in_app c.install_mode ≡ true

  give_up-IsHandingOff : (c : Controller) → IsHandingOff c → IsHandingOff (give_up c)
  unfolding give_up block_install publish
  give_up-IsHandingOff c h = ground arith

  give_up-prepared : (c : Controller) → (give_up c).prepared ≡ false
  unfolding give_up block_install publish
  give_up-prepared c = refl

  ended-IsValid :
      (a : Answer) (c : Controller)
      → IsHandingOff c
      → c.prepared ≡ false
      → IsValid names (install_broken a UpdateErrorCode.install_failed c)
  unfolding install_broken install_thrown end_install fail_unless_failed fail publish clear_attempt
  ended-IsValid a c h p = ground arith

  given_up-IsHandingOff : (b : Bool) (c : Controller) → IsHandingOff c → IsHandingOff (given_up b c)
  unfolding given_up
  given_up-IsHandingOff true c h = give_up-IsHandingOff c h
  given_up-IsHandingOff false c h = h

  given_up-prepared : (b : Bool) (c : Controller) → c.prepared ≡ b → (given_up b c).prepared ≡ false
  unfolding given_up
  given_up-prepared true c p = give_up-prepared c
  given_up-prepared false c p = p

  handoff_thrown-IsValid :
      (a : Answer) (c : Controller) → IsHandingOff c → IsValid names (handoff_thrown a c)
  unfolding handoff_thrown
  handoff_thrown-IsValid a c h =
      ended-IsValid a (given_up c.prepared c) (given_up-IsHandingOff c.prepared c h)
        (given_up-prepared c.prepared c refl)

  on_error-IsHandingOff : (c : Controller) → IsHandingOff c → IsHandingOff (on_error c)
  unfolding on_error give_up block_install fail publish
  on_error-IsHandingOff c h = ground arith

  on_error-prepared : (c : Controller) → (on_error c).prepared ≡ false
  unfolding on_error give_up block_install fail publish
  on_error-prepared c = ground arith

  end_install-IsValid :
      (c : Controller)
      → IsHandingOff c
      → (c.prepared ≡ true → c.ready ≡ true)
      → IsValid names (end_install c)
  unfolding end_install
  end_install-IsValid c h p = ground arith

  ask_quit-IsHandingOff : (c : Controller) → IsHandingOff c → IsHandingOff (ask_quit c)
  unfolding ask_quit
  ask_quit-IsHandingOff c h = ground arith

  emitted-IsHandingOff : (b : Bool) (c : Controller) → IsHandingOff c → IsHandingOff (emitted b c)
  unfolding emitted
  emitted-IsHandingOff true c h = on_error-IsHandingOff c h
  emitted-IsHandingOff false c h = h

  emitted-ready :
      (b : Bool) (c : Controller)
      → c.ready ≡ true
      → (emitted b c).prepared ≡ true
      → (emitted b c).ready ≡ true
  unfolding emitted
  emitted-ready true c r p = ground (arith, on_error-prepared c)
  emitted-ready false c r p = r

  ask_quit-ready : (c : Controller) → (ask_quit c).ready ≡ c.ready
  unfolding ask_quit
  ask_quit-ready c = refl

  ite_IsValid :
      (b : Bool) {c d : Controller}
      → IsValid names c
      → IsValid names d
      → IsValid names (if b then c else d)
  ite_IsValid true v w = v
  ite_IsValid false v w = w

  hand_off-IsValid :
      (a : Answer) (c : Controller) → IsHandingOff c → c.ready ≡ true → IsValid names (hand_off a c)
  unfolding hand_off
  hand_off-IsValid a c h r =
      let after = emitted a.quit_emits_error (ask_quit c) in
      let handing =
        emitted-IsHandingOff a.quit_emits_error (ask_quit c) (ask_quit-IsHandingOff c h) in
      let known = emitted-ready a.quit_emits_error (ask_quit c) (ask_quit-ready c ∙ r) in
      ite_IsValid (a.quit_throws || after.install_error) (handoff_thrown-IsValid a after handing)
        (end_install-IsValid after handing known)

  begun : Controller → Controller
  begun c =
      publish (λ (s : UpdateSnapshot). record s { state = UpdateState.installing })
        (record c { prepared = true; install_error = false })

  begun-IsHandingOff :
      (c : Controller)
      → c.install_operation ≡ some preparing
      → IsValid names c
      → IsHandingOff (begun c)
  unfolding begun publish
  begun-IsHandingOff c q v = ground arith

  install_prepared-IsValid :
      (a : Answer) (c : Controller)
      → c.install_operation ≡ some preparing
      → IsValid names c
      → IsValid names (install_prepared a c)
  unfolding install_prepared begun publish
  install_prepared-IsValid a c q v =
      ite_IsValid (not a.resolved || c.closing)
        (install_broken-IsValid names a UpdateErrorCode.stop_failed c v)
        (hand_off-IsValid a (begun c) (begun-IsHandingOff c q v) (v.install_ready (ground arith)))

  pub install_at-IsValid :
      (o : Option InstallPoint) (a : Answer) (c : Controller)
      → c.install_operation ≡ o
      → IsValid names c
      → IsValid names (install_at names o a c)
  unfolding install_at
  install_at-IsValid none a c q v = v
  install_at-IsValid (some InstallPoint.queued) a c q v = install_queued-IsValid names a c q v
  install_at-IsValid (some InstallPoint.waiting) a c q v = v
  install_at-IsValid (some (InstallPoint.resumed ok)) a c q v =
      install_resumed-IsValid names ok a c q v
  install_at-IsValid (some (InstallPoint.verifying info p)) a c q v =
      install_verifying-IsValid names a info p c q v
  install_at-IsValid (some InstallPoint.accessing) a c q v = install_accessed-IsValid names a c q v
  install_at-IsValid (some InstallPoint.rehydrating) a c q v =
      install_rehydrated-IsValid names a c q v
  install_at-IsValid (some InstallPoint.preparing) a c q v = install_prepared-IsValid a c q v
