-- ===== src/Desktop/Updates/Events.antt =====
-- The driver's events, the quit hooks and the calls of the controller: desktop/src/update-controller.ts.
-- `downloadAndInstall` is a call of `download` and then one of `restartAndInstall`.
use pixiv_biu.Base.{
  ℕ, min, Bool, true, false, not, ◌&&◌, ◌||◌, Option, none, some, List, [], ◌∷◌, ◌++◌, String,
  if◌then◌else◌, is_some, get_or, ℤ, pos, negsuc,
}
use pixiv_biu.Desktop.Updates.Store.{UpdateInfo, Names, is_text}
use pixiv_biu.Desktop.Updates.Controller.{
  UpdateState, DownloadedEvent, cancelled, Controller, publish,
}
use pixiv_biu.Desktop.Updates.Check.{Answer, check, check_at}
use pixiv_biu.Desktop.Updates.Download.{download, download_at}
use pixiv_biu.Desktop.Updates.Install.{restart_and_install, install_at, on_error}

abbrev pub is_downloading : UpdateState → Bool
is_downloading UpdateState.downloading = true
is_downloading _ = false

-- `Math.max(0, Math.min(100, Math.round(percent) || 0))` of the rounded percent, `none` where it is no
-- number.
abbrev pub clamped : Option ℤ → ℕ
clamped none = 0
clamped (some (pos n)) = min 100 n
clamped (some (negsuc n)) = 0

unfoldable pub on_progress : Option ℤ → Controller → Controller
unfolding publish
on_progress percent c =
    if not (is_some c.download_operation) || not (is_downloading c.snapshot.state)
    then c
    else publish (λ s. record s { percent = some (clamped percent) }) c

-- `info.version === this.info?.version`.
abbrev pub is_version : String → Option UpdateInfo → Bool
is_version version none = false
is_version version (some info) = is_text version info.version

unfoldable pub on_downloaded : DownloadedEvent → Controller → Controller
on_downloaded e c =
    if (is_some c.download_operation || is_some c.install_operation) && is_version e.version c.info
    then record c { downloaded = some e }
    else c

-- The fetched notes: `is_same` tells whether the offer is still the one they were fetched for.
unfoldable pub on_notes : Bool → String → Controller → Controller
unfolding publish
on_notes is_same notes c =
    if not (is_text notes "") && is_same && not (is_text notes (get_or "" c.snapshot.notes))
    then publish (λ s. record s { notes = some notes }) c
    else c

unfoldable pub begin_quit : Controller → Controller
begin_quit c = if c.prepared then c else record c {
  closing = true;
  effects = if c.download_token then c.effects ++ cancelled ∷ [] else c.effects;
}

abbrev pub resting_state : Controller → UpdateState
resting_state c =
    if c.ready
    then UpdateState.downloaded
    else if is_some c.info
    then UpdateState.available
    else UpdateState.idle

unfoldable pub cancel_quit : Controller → Controller
unfolding publish
cancel_quit c =
    if not c.closing
    then c
    else if c.install_blocked
    then record c { closing = false }
    else publish (λ s. record s { state = resting_state c; error = none; percent = none })
        (record c { closing = false })

-- A call, a step of an operation under way, or an event.
pub data Event : Type 0 where
  check_call download_call install_call : Event
  check_step download_step install_step : Answer → Event
  progress : Option ℤ → Event
  update_downloaded : DownloadedEvent → Event
  driver_error : Event
  notes_fetched : Bool → String → Event
  before_quit quit_cancelled : Event

module _ (names : Names) where
  unfoldable pub handle : Controller → Event → Controller
  handle c check_call = check c
  handle c download_call = download c
  handle c install_call = restart_and_install c
  handle c (check_step a) = check_at names c.check_operation a c
  handle c (download_step a) = download_at names c.download_operation a c
  handle c (install_step a) = install_at names c.install_operation a c
  handle c (progress percent) = on_progress percent c
  handle c (update_downloaded e) = on_downloaded e c
  handle c driver_error = on_error c
  handle c (notes_fetched is_same notes) = on_notes is_same notes c
  handle c before_quit = begin_quit c
  handle c quit_cancelled = cancel_quit c

  unfoldable pub handle_all : Controller → List Event → Controller
  handle_all c [] = c
  handle_all c (e ∷ es) = handle_all (handle c e) es
