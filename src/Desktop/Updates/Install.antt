-- ===== src/Desktop/Updates/Install.antt =====
-- The restart with the installation of an update, call and steps: desktop/src/update-controller.ts.
use pixiv_biu.Base.{
  Bool, true, false, not, ◌||◌, Option, none, some, [], ◌∷◌, ◌++◌, if◌then◌else◌, is_some,
}
use pixiv_biu.Desktop.Updates.Store.{
  PendingUpdate, StoredUpdates, UpdateInfo, Names, verify_pending, save_pending, save_attempt,
  clear_attempt,
}
use pixiv_biu.Desktop.Updates.Controller.{
  UpdateState, UpdateErrorCode, verification_failed, stop_failed, install_failed, InstallPoint,
  accessing, rehydrating, preparing, Effect, quit_and_install, Controller, publish, fail,
  fail_unless_failed, block_install, may_install,
}
use pixiv_biu.Desktop.Updates.Check.{Answer, with_store, is_appimage}

-- `restartAndInstall`; where it throws, nothing changes.
unfoldable pub restart_and_install : Controller → Controller
restart_and_install c =
    if not (may_install c) || is_some c.install_operation || c.prepared
    then c
    else record c { install_operation = some InstallPoint.queued }

-- The `finally`.
unfoldable pub end_install : Controller → Controller
end_install c = record c { install_operation = none }

-- The `catch` of the whole operation.
unfoldable pub install_thrown : Controller → Controller
unfolding end_install
install_thrown c = end_install (fail_unless_failed verification_failed c)

abbrev pub kept_store : StoredUpdates → Option StoredUpdates → StoredUpdates
kept_store old none = old
kept_store old (some s) = s

-- The inner `catch` where nothing is prepared: `clearAttempt` may throw and is only logged.
unfoldable pub install_broken : Answer → UpdateErrorCode → Controller → Controller
unfolding install_thrown fail
install_broken a code c =
    install_thrown
      (fail code (record c { store = kept_store c.store (clear_attempt a.writable c.store) }))

-- The pending update is no good: it is dropped.
unfoldable pub drop_pending : Answer → Controller → Controller
unfolding install_broken
drop_pending a c =
    install_broken a verification_failed (record c {
      ready = false;
      store = kept_store c.store (save_pending a.writable none c.store);
    })

unfoldable pub verify_install : Answer → Option PendingUpdate → UpdateInfo → Controller → Controller
unfolding drop_pending
verify_install a none info c = drop_pending a c
verify_install a (some p) info c = record c {
  install_operation = some (InstallPoint.verifying info p);
}

unfoldable pub install_offer : Answer → Option UpdateInfo → Controller → Controller
unfolding install_thrown verify_install publish
install_offer a none c = install_thrown c
install_offer a (some info) c =
    verify_install a c.store.pending info
      (publish (λ s. record s { state = UpdateState.preparing_install; error = none }) c)

-- The body from `assertOpen` to `verifyPending`.
unfoldable pub begin_install : Answer → Controller → Controller
begin_install a c = if c.closing || not c.ready then install_thrown c else install_offer a c.info c

unfoldable pub install_queued : Answer → Controller → Controller
unfolding begin_install
install_queued a c =
    if is_some c.check_operation
    then record c { install_operation = some InstallPoint.waiting }
    else begin_install a c

unfoldable pub install_resumed : Bool → Answer → Controller → Controller
unfolding begin_install install_thrown
install_resumed true a c = begin_install a c
install_resumed false a c = install_thrown c

-- Both `fs.access` calls; `resolved` tells whether both succeed.
unfoldable pub install_accessed : Answer → Controller → Controller
unfolding install_broken
install_accessed a c =
    if a.resolved
    then record c { install_operation = some rehydrating }
    else install_broken a verification_failed c

-- After `downloadUpdate`: the attempt is stored and the core is asked to stop.
unfoldable pub install_rehydrated : Answer → Controller → Controller
unfolding install_broken
install_rehydrated a c =
    if not a.resolved || c.closing then install_broken a verification_failed c else elim c.info [
      | none ↦ install_broken a verification_failed c
      | some info ↦
          elim (with_store c (save_attempt a.writable c.current_version info.version c.store)) [
            | none ↦ install_broken a verification_failed c
            | some c' ↦ record c' { install_operation = some preparing }
          ]
    ]

-- A handoff that was prepared is given up: no further one in this process, and the core resumes.
unfoldable pub give_up : Controller → Controller
unfolding block_install
give_up c =
    let blocked = block_install (record c { prepared = false }) in
    record blocked { effects = blocked.effects ++ Effect.resumed ∷ [] }

-- The driver's `error` event. Out of an installation it is only logged.
unfoldable pub on_error : Controller → Controller
unfolding give_up fail
on_error c =
    if not c.prepared then c else fail install_failed (give_up (record c { install_error = true }))

-- Only what is `prepared` is given up.
unfoldable pub given_up : Bool → Controller → Controller
given_up false c = c
given_up true c = give_up c

-- The inner `catch` from `prepared` on.
unfoldable pub handoff_thrown : Answer → Controller → Controller
unfolding given_up install_broken
handoff_thrown a c = install_broken a install_failed (given_up c.prepared c)

-- `quitAndInstall` is called.
unfoldable pub ask_quit : Controller → Controller
ask_quit c = record c { effects = c.effects ++ quit_and_install c.store.pending c.info ∷ [] }

-- It may emit the `error` event before it returns.
unfoldable pub emitted : Bool → Controller → Controller
emitted false c = c
emitted true c = on_error c

-- It may throw.
unfoldable pub hand_off : Answer → Controller → Controller
unfolding ask_quit emitted handoff_thrown end_install
hand_off a c =
    let after = emitted a.quit_emits_error (ask_quit c) in
    if a.quit_throws || after.install_error then handoff_thrown a after else end_install after

-- After `prepareQuit`.
unfoldable pub install_prepared : Answer → Controller → Controller
unfolding install_broken publish hand_off
install_prepared a c =
    if not a.resolved || c.closing
    then install_broken a stop_failed c
    else hand_off a (
        publish (λ s. record s { state = UpdateState.installing })
          (record c { prepared = true; install_error = false }))

module _ (names : Names) where
  -- After `verifyPending`. `has_file` is the AppImage's file, and whether it can be written the answer of the next step.
  unfoldable pub install_verifying : Answer → UpdateInfo → PendingUpdate → Controller → Controller
  unfolding drop_pending install_broken
  install_verifying a info p c =
      if verify_pending names a.hash p info c.format
      then if is_appimage c.format
        then if c.app_image_file
          then record c { install_operation = some accessing }
          else install_broken a verification_failed c
        else record c { install_operation = some rehydrating }
      else drop_pending a c

  unfoldable pub install_at : Option InstallPoint → Answer → Controller → Controller
  install_at none a c = c
  install_at (some InstallPoint.queued) a c = install_queued a c
  install_at (some InstallPoint.waiting) a c = c
  install_at (some (InstallPoint.resumed ok)) a c = install_resumed ok a c
  install_at (some (InstallPoint.verifying info p)) a c = install_verifying a info p c
  install_at (some InstallPoint.accessing) a c = install_accessed a c
  install_at (some InstallPoint.rehydrating) a c = install_rehydrated a c
  install_at (some InstallPoint.preparing) a c = install_prepared a c
