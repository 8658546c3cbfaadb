-- ===== src/Desktop/Updates/Runs.antt =====
-- Every run of events keeps the log of the update controller
-- (desktop/src/update-controller.ts).
use pixiv_biu.Base.{
  ◌≤◌, ◌≡◌, refl, arith, Bool, true, false, not, ◌||◌, Option, none, some, List, [], ◌∷◌, String,
  if◌then◌else◌, ℤ, inl, inr,
}
use pixiv_biu.Desktop.Updates.Store.{UpdateFormat, PendingUpdate, StoredUpdates, UpdateInfo, Names}
use pixiv_biu.Desktop.Updates.Controller.{
  UpdateState, UpdateSnapshot, UpdateErrorCode, InstallPoint, preparing, DownloadedEvent,
  Controller, publish, new_controller,
}
use pixiv_biu.Desktop.Updates.Install.{ask_quit, emitted, hand_off, install_prepared, install_at}
use pixiv_biu.Desktop.Updates.Events.{
  Event, check_call, download_call, install_call, check_step, download_step, install_step, progress,
  update_downloaded, driver_error, notes_fetched, before_quit, quit_cancelled, on_progress,
  on_downloaded, on_notes, begin_quit, cancel_quit, handle, handle_all,
}
use pixiv_biu.Desktop.Updates.Invariant.{IsOffered, IsValid}
use pixiv_biu.Desktop.Updates.Check.{Answer}
use pixiv_biu.Desktop.Updates.Vouched.{is_hashed, handle_all-hashed}
use pixiv_biu.Desktop.Updates.Log.{
  IsLogged, log_rules, is_offered, quits, sequences, are_offered, numbers,
}
use pixiv_biu.Desktop.Updates.Logged.{
  check-IsLogged, check_at-IsLogged, download-IsLogged, download_at-IsLogged,
}
use pixiv_biu.Desktop.Updates.LoggedInstall.{
  restart_and_install-IsLogged, publish-IsLogged, on_error-IsLogged, install_broken-IsLogged,
  handoff_thrown-IsLogged, emitted-IsLogged, end_install-IsLogged, install_queued-IsLogged,
  install_resumed-IsLogged, install_accessed-IsLogged, install_rehydrated-IsLogged,
  install_verifying-IsLogged,
}
use pixiv_biu.Desktop.Updates.Kept.{handle-IsValid, handle_all-IsValid, new_controller-IsValid}

ready-is_offered :
    (names : Names) (f : UpdateFormat) (i : Option UpdateInfo) (p : Option PendingUpdate)
    → IsOffered names f i p
    → is_offered names f p i ≡ true
ready-is_offered names f (some info) (some p) o = o
ready-is_offered names f (some info) none o = elim o [ ]
ready-is_offered names f none p o = elim o [ ]

module _ (names : Names) where
  -- The controller at the call of `quitAndInstall`.
  asked : Controller → Controller
  asked c = ask_quit (
      publish (λ (s : UpdateSnapshot). record s { state = UpdateState.installing })
        (record c { prepared = true; install_error = false }))

  asked-IsLogged :
      (c : Controller)
      → (c.prepared || c.install_blocked) ≡ false
      → is_offered names c.format c.store.pending c.info ≡ true
      → IsLogged names c
      → IsLogged names (asked c)
  unfolding asked ask_quit publish
  asked-IsLogged c b o l = grind log_rules

  unprepared :
      (c : Controller)
      → c.install_operation ≡ some preparing
      → IsValid names c
      → (c.prepared || c.install_blocked) ≡ false
  unprepared c q v = ground (arith, v.handed_off)

  ite_IsLogged :
      (b : Bool) {c d : Controller}
      → IsLogged names c
      → IsLogged names d
      → IsLogged names (if b then c else d)
  ite_IsLogged true l m = l
  ite_IsLogged false l m = m

  install_prepared-IsLogged :
      (a : Answer) (c : Controller)
      → c.install_operation ≡ some preparing
      → IsValid names c
      → IsLogged names c
      → IsLogged names (install_prepared a c)
  unfolding install_prepared hand_off asked
  install_prepared-IsLogged a c q v l =
      let after = emitted a.quit_emits_error (asked c) in
      let asked_l =
        asked-IsLogged c (unprepared c q v)
          (ready-is_offered names c.format c.info c.store.pending
            (v.offered (v.install_ready (ground arith))).0)
          l in
      let l' = emitted-IsLogged names a.quit_emits_error (asked c) asked_l in
      ite_IsLogged (not a.resolved || c.closing)
        (install_broken-IsLogged names a UpdateErrorCode.stop_failed c l)
        (ite_IsLogged (a.quit_throws || after.install_error)
          (handoff_thrown-IsLogged names a after l') (end_install-IsLogged names after l'))

  install_at-IsLogged :
      (o : Option InstallPoint) (a : Answer) (c : Controller)
      → c.install_operation ≡ o
      → IsValid names c
      → IsLogged names c
      → IsLogged names (install_at names o a c)
  unfolding install_at
  install_at-IsLogged none a c q v l = l
  install_at-IsLogged (some InstallPoint.queued) a c q v l = install_queued-IsLogged names a c l
  install_at-IsLogged (some InstallPoint.waiting) a c q v l = l
  install_at-IsLogged (some (InstallPoint.resumed ok)) a c q v l =
      install_resumed-IsLogged names ok a c l
  install_at-IsLogged (some (InstallPoint.verifying info p)) a c q v l =
      install_verifying-IsLogged names a info p c l
  install_at-IsLogged (some InstallPoint.accessing) a c q v l =
      install_accessed-IsLogged names a c l
  install_at-IsLogged (some InstallPoint.rehydrating) a c q v l =
      install_rehydrated-IsLogged names a c l
  install_at-IsLogged (some InstallPoint.preparing) a c q v l = install_prepared-IsLogged a c q v l

  on_progress-IsLogged :
      (percent : Option ℤ) (c : Controller)
      → IsLogged names c
      → IsLogged names (on_progress percent c)
  unfolding on_progress
  on_progress-IsLogged percent c l = grind (log_rules, publish-IsLogged)

  on_downloaded-IsLogged :
      (e : DownloadedEvent) (c : Controller) → IsLogged names c → IsLogged names (on_downloaded e c)
  unfolding on_downloaded
  on_downloaded-IsLogged e c l = grind log_rules

  on_notes-IsLogged :
      (is_same : Bool) (notes : String) (c : Controller)
      → IsLogged names c
      → IsLogged names (on_notes is_same notes c)
  unfolding on_notes
  on_notes-IsLogged is_same notes c l = grind (log_rules, publish-IsLogged)

  begin_quit-IsLogged : (c : Controller) → IsLogged names c → IsLogged names (begin_quit c)
  unfolding begin_quit
  begin_quit-IsLogged c l = grind log_rules

  cancel_quit-IsLogged : (c : Controller) → IsLogged names c → IsLogged names (cancel_quit c)
  unfolding cancel_quit publish
  cancel_quit-IsLogged c l = grind log_rules

  handle-IsLogged :
      (c : Controller) (e : Event)
      → IsValid names c
      → IsLogged names c
      → IsLogged names (handle names c e)
  unfolding handle
  handle-IsLogged c check_call v l = check-IsLogged names c l
  handle-IsLogged c download_call v l = download-IsLogged names c l
  handle-IsLogged c install_call v l = restart_and_install-IsLogged names c l
  handle-IsLogged c (check_step a) v l = check_at-IsLogged names c.check_operation a c l
  handle-IsLogged c (download_step a) v l = download_at-IsLogged names c.download_operation a c l
  handle-IsLogged c (install_step a) v l = install_at-IsLogged c.install_operation a c refl v l
  handle-IsLogged c (progress percent) v l = on_progress-IsLogged percent c l
  handle-IsLogged c (update_downloaded e) v l = on_downloaded-IsLogged e c l
  handle-IsLogged c driver_error v l = on_error-IsLogged names c l
  handle-IsLogged c (notes_fetched is_same notes) v l = on_notes-IsLogged is_same notes c l
  handle-IsLogged c before_quit v l = begin_quit-IsLogged c l
  handle-IsLogged c quit_cancelled v l = cancel_quit-IsLogged c l

  handle_all-IsLogged :
      (c : Controller) (es : List Event)
      → IsValid names c
      → IsLogged names c
      → IsLogged names (handle_all names c es)
  unfolding handle_all
  handle_all-IsLogged c [] v l = l
  handle_all-IsLogged c (e ∷ es) v l =
      handle_all-IsLogged (handle names c e) es (handle-IsValid names c e v)
        (handle-IsLogged c e v l)

  new_controller-IsLogged :
      (version : String) (format : UpdateFormat) (packaged file writable : Bool) (s : StoredUpdates)
      → IsLogged names (new_controller version format packaged file writable s)
  unfolding new_controller quits sequences are_offered numbers
  new_controller-IsLogged version format packaged file writable s = record {
    once = omega arith;
    ordered = refl;
    from_feed = refl;
  }

  -- A run of the controller from its construction.
  module _ (version : String) (format : UpdateFormat) (packaged file writable : Bool)
      (s : StoredUpdates) (es : List Event) where
    abbrev pub reached : Controller
    reached = handle_all names (new_controller version format packaged file writable s) es

    reached-IsLogged : IsLogged names reached
    reached-IsLogged =
        handle_all-IsLogged (new_controller version format packaged file writable s) es
          (new_controller-IsValid names version format packaged file writable s)
          (new_controller-IsLogged version format packaged file writable s)

    -- In every run of a new update controller, `quitAndInstall` is called at most once.
    pub quits-reached : quits reached.effects ≤ 1
    quits-reached = ground (arith, reached-IsLogged.once)

    -- In every run of a new update controller, each call of `quitAndInstall` happens with a pending
    -- update that is one of the files of the offer, for the controller's format.
    pub are_offered-reached : are_offered names reached.format reached.effects ≡ true
    are_offered-reached = reached-IsLogged.from_feed

    -- In every run of a new update controller, the snapshots sent have the sequence numbers 1, 2, 3 and
    -- so on up to that of the snapshot reached, in this order.
    pub sequences-reached : sequences reached.effects ≡ numbers reached.snapshot.sequence
    sequences-reached = reached-IsLogged.ordered

    -- Every run of a new update controller ends in a valid controller: a check excludes a download, an
    -- installation and a prepared handoff that are under way, and the pending update of a controller
    -- that is ready to install is one of the files of the offer. And if it is ready to install, a step of
    -- a check or of a download in the run was answered with a file hash that is the pending update's.
    pub reached-IsValid :
        IsValid names reached × (reached.ready ≡ true → is_hashed es reached.store.pending ≡ true)
    unfolding new_controller
    reached-IsValid =
        let c = new_controller version format packaged file writable s in
        let valid = new_controller-IsValid names version format packaged file writable s in
        (
          handle_all-IsValid names c es valid,
          λ r. elim (handle_all-hashed names c es valid r) [ inl h ↦ h | inr (f, _) ↦ cc ],
        )
