-- ===== src/Desktop/Updates/Tests.antt =====
-- Runs of the update controller and of the page that watches it, and the theorems at them.
use pixiv_biu.Base.{
  sym, concat_nil, not, ◌≡◌, ◌≤◌, refl, arith, true, false, none, some, List, [], ◌∷◌, ◌++◌,
  text_discrete,
}
use pixiv_biu.Desktop.Updates.Store.{
  nsis, matches_file, matches_feed, verify_pending, commit, save_pending, clear_attempt,
  unless_running, reconcile, UpdateFormat-discrete, StoredUpdates, no_updates, is_text, UpdateInfo,
  Names, save_attempt,
}
use pixiv_biu.Desktop.Updates.Controller.{
  new_controller, reconciled, publish, fail, fail_unless_failed, block_install, may_install,
  UpdateSnapshot, DownloadedEvent, Controller,
}
use pixiv_biu.Desktop.Updates.Check.{
  check, end_check, check_thrown, check_queued, check_none, check_pending, check_offer,
  check_checking, check_linking, check_verifying, check_at, Answer,
}
use pixiv_biu.Desktop.Updates.Download.{
  download, end_download, download_thrown, download_broken, begin_download, download_queued,
  download_resumed, start_verify, download_done, download_verifying, download_at,
}
use pixiv_biu.Desktop.Updates.Install.{
  restart_and_install, end_install, install_thrown, install_broken, drop_pending, verify_install,
  install_offer, begin_install, install_queued, install_resumed, install_accessed,
  install_rehydrated, give_up, given_up, on_error, handoff_thrown, ask_quit, emitted, hand_off,
  install_prepared, install_verifying, install_at,
}
use pixiv_biu.Desktop.Updates.Events.{
  on_progress, on_downloaded, on_notes, begin_quit, cancel_quit, handle, handle_all, Event,
  check_call, download_call, install_call, check_step, download_step, install_step,
  update_downloaded, driver_error, before_quit,
}
use pixiv_biu.Desktop.Updates.Invariant.{IsValid}
use pixiv_biu.Desktop.Updates.Log.{quits, sequences, numbers, are_offered}
use pixiv_biu.Desktop.Updates.Vouched.{is_hashed}
use pixiv_biu.Desktop.Updates.Runs.{reached, quits-reached, are_offered-reached, reached-IsValid}
use pixiv_biu.Desktop.Updates.Restart.{new_controller-save_attempt}
use pixiv_biu.Desktop.Updates.Observe.{snapshot, legacy, LegacyStatus, new_observer}
use pixiv_biu.Desktop.Updates.Arrivals.{
  Arrival, status, rejected, unmounted, observe_all, is_rising, last_of,
}
use pixiv_biu.Desktop.Updates.Observed.{snapshots, arrivals_of, observe_all-reached}

abbrev plain_names : Names
plain_names = record {
  url_name = λ url. some url;
  base_name = λ path. path;
  has_extension = λ name end. true;
}

abbrev offer : UpdateInfo
offer = record {
  version = "3.1.0";
  files = record { url = "setup.exe"; sha512 = "abc" } ∷ [];
  release_notes = none;
  release_date = "2024-01-01";
}

abbrev going_well : Answer
going_well = record {
  resolved = true;
  result = some (record { is_update_available = true; update_info = offer });
  hash = some "abc";
  release_url = none;
  installer_url = none;
  now = "2024-01-02";
  writable = true;
  quit_throws = false;
  quit_emits_error = false;
}

abbrev the_file : DownloadedEvent
the_file = record { version = "3.1.0"; downloaded_file = "setup.exe"; checksum = some "abc" }

-- Checked, downloaded, and installed; the installer fails, and everything is asked for once more.
abbrev installing : List Event
installing =
    check_call
    ∷ check_step going_well
    ∷ check_step going_well
    ∷ check_step going_well
    ∷ download_call
    ∷ download_step going_well
    ∷ update_downloaded the_file
    ∷ download_step going_well
    ∷ download_step going_well
    ∷ install_call
    ∷ install_step going_well
    ∷ install_step going_well
    ∷ install_step going_well
    ∷ install_step going_well
    ∷ driver_error
    ∷ check_call
    ∷ install_call
    ∷ install_step going_well
    ∷ []

abbrev end_state : Controller
end_state = reached plain_names "3.0.0" nsis true false true no_updates installing

-- The installer was started once and is blocked now.
quits_once : (quits end_state.effects ≡ 1) × (end_state.install_blocked ≡ true)
unfolding quits sequences numbers check end_check check_thrown check_queued check_none check_pending
    check_offer check_checking check_linking check_verifying check_at download end_download
    download_thrown download_broken begin_download download_queued download_resumed start_verify
    download_done download_verifying download_at restart_and_install end_install install_thrown
    install_broken drop_pending verify_install install_offer begin_install install_queued
    install_resumed install_accessed install_rehydrated give_up given_up on_error handoff_thrown
    ask_quit emitted hand_off install_prepared install_verifying install_at on_progress
    on_downloaded on_notes begin_quit cancel_quit handle handle_all new_controller reconciled
    publish fail fail_unless_failed block_install may_install matches_file matches_feed
    verify_pending commit save_pending save_attempt clear_attempt unless_running reconcile
    UpdateFormat-discrete text_discrete
quits_once = (refl, refl)

quits-reached_example : quits end_state.effects ≤ 1
quits-reached_example = quits-reached plain_names "3.0.0" nsis true false true no_updates installing

are_offered-reached_example : are_offered plain_names end_state.format end_state.effects ≡ true
are_offered-reached_example =
    are_offered-reached plain_names "3.0.0" nsis true false true no_updates installing

-- Checked and downloaded.
abbrev downloading : List Event
downloading =
    check_call
    ∷ check_step going_well
    ∷ check_step going_well
    ∷ check_step going_well
    ∷ download_call
    ∷ download_step going_well
    ∷ update_downloaded the_file
    ∷ download_step going_well
    ∷ download_step going_well
    ∷ []

abbrev downloaded_state : Controller
downloaded_state = reached plain_names "3.0.0" nsis true false true no_updates downloading

it_is_ready : downloaded_state.ready ≡ true
unfolding check end_check check_queued check_pending check_offer check_checking check_linking
    check_at download end_download begin_download download_queued start_verify download_done
    download_verifying download_at on_downloaded handle handle_all new_controller reconciled publish
    matches_file matches_feed verify_pending commit save_pending unless_running reconcile
    UpdateFormat-discrete text_discrete may_install
it_is_ready = refl

reached-IsValid_example :
    IsValid plain_names downloaded_state
    × (downloaded_state.ready ≡ true → is_hashed downloading downloaded_state.store.pending ≡ true)
reached-IsValid_example =
    reached-IsValid plain_names "3.0.0" nsis true false true no_updates downloading

abbrev attempted : StoredUpdates
attempted = record { pending = none; attempt = some (record { from = "3.0.0"; to = "3.1.0" }) }

-- An installation of 3.1.0 was stored, and 3.0.0 starts again.
new_controller-save_attempt_example :
    let first = new_controller "3.0.0" nsis true false true attempted in
    let second = new_controller "3.0.0" nsis true false true first.store in
    (first.snapshot.previous_install_failed ≡ not (is_text "3.0.0" "3.1.0"))
    × (second.snapshot.previous_install_failed ≡ false)
    × (second.store ≡ first.store)
    × (first.store.pending ≡ unless_running "3.0.0" none)
unfolding save_attempt commit
new_controller-save_attempt_example =
    new_controller-save_attempt "3.0.0" "3.1.0" "3.0.0" nsis true false no_updates attempted refl

abbrev watched : List Event
watched = check_call ∷ check_step going_well ∷ before_quit ∷ []

abbrev watched_state : Controller
watched_state = reached plain_names "3.0.0" nsis true false true no_updates watched

abbrev first_snapshot : UpdateSnapshot
first_snapshot = (new_controller "3.0.0" nsis true false true no_updates).snapshot

-- The first read's answer comes after the event.
observe_all-reached_example :
    let o =
      observe_all
        (arrivals_of "3.0.0" watched_state.install_mode
          (snapshots watched_state.effects ++ first_snapshot ∷ []))
        new_observer in
    (is_rising none o.received ≡ true)
    × (last_of none o.received ≡ some watched_state.snapshot.sequence)
    × (o.sequence ≡ some watched_state.snapshot.sequence)
unfolding new_controller
observe_all-reached_example =
    observe_all-reached plain_names "3.0.0" nsis true false true no_updates watched
      (snapshots watched_state.effects) [] first_snapshot
      (sym (concat_nil (snapshots watched_state.effects))) (omega arith)

abbrev late : List Arrival
late =
    rejected
    ∷ status (legacy LegacyStatus.checking)
    ∷ status (snapshot "3.0.0" watched_state.install_mode watched_state.snapshot)
    ∷ status (snapshot "3.0.0" watched_state.install_mode first_snapshot)
    ∷ unmounted
    ∷ []
