-- ===== src/Desktop/Updates/Vouched.antt =====
-- What is ready to install was hashed in the same run: every event against the hash that it answers with
-- (desktop/src/update-controller.ts).
use pixiv_biu.Base.{
  any, not, if◌then◌else◌, ◌∙◌, ◌≡◌, ◌⊎◌, inl, inr, arith, refl, Bool, true, false, ◌||◌, Option,
  none, some, List, [], ◌∷◌, String,
}
use pixiv_biu.Desktop.Updates.Store.{
  PendingUpdate, UpdateInfo, Names, is_text, verify_pending, save_pending, save_attempt,
  clear_attempt, commit,
}
use pixiv_biu.Desktop.Updates.Controller.{
  UpdateErrorCode, stop_failed, install_failed, CheckPoint, DownloadPoint, InstallPoint, Controller,
  publish, fail, fail_unless_failed, block_install,
}
use pixiv_biu.Desktop.Updates.Check.{
  Answer, check, check_queued, check_none, check_pending, check_offer, check_checking,
  check_linking, check_verifying, check_thrown, end_check, check_at,
}
use pixiv_biu.Desktop.Updates.Download.{
  download, end_download, download_thrown, download_broken, begin_download, download_queued,
  download_resumed, start_verify, download_done, download_verifying, download_at,
}
use pixiv_biu.Desktop.Updates.Install.{
  restart_and_install, end_install, install_thrown, install_broken, drop_pending, verify_install,
  install_offer, begin_install, install_queued, install_resumed, install_accessed,
  install_rehydrated, give_up, on_error, given_up, handoff_thrown, ask_quit, emitted, hand_off,
  install_prepared, install_verifying, install_at,
}
use pixiv_biu.Desktop.Updates.Events.{
  Event, check_call, download_call, install_call, check_step, download_step, install_step, progress,
  update_downloaded, driver_error, notes_fetched, before_quit, quit_cancelled, on_progress,
  on_downloaded, on_notes, begin_quit, cancel_quit, handle, handle_all,
}
use pixiv_biu.Desktop.Updates.Invariant.{IsValid}
use pixiv_biu.Desktop.Updates.Kept.{handle-IsValid}

-- Is this the hash of the pending update?
abbrev pub is_hash : Option String → Option PendingUpdate → Bool
is_hash (some hash) (some p) = is_text hash p.sha512
is_hash _ _ = false

-- The hash that an event answers with, of the file of a pending update.
abbrev pub hash_of : Event → Option String
hash_of (check_step a) = a.hash
hash_of (download_step a) = a.hash
hash_of _ = none

-- Some event answered with the hash of the pending update.
abbrev pub is_hashed : List Event → Option PendingUpdate → Bool
is_hashed es p = any (λ e. is_hash (hash_of e) p) es

-- What is ready after a step was hashed in it, or it was ready before.
abbrev Vouched : Option String → Controller → Controller → Type 0
Vouched hash c d =
    d.ready ≡ true
    → (is_hash hash d.store.pending ≡ true)
      ⊎ ((c.ready ≡ true) × (d.store.pending ≡ c.store.pending))

-- What is ready after a part of a step was ready before it.
abbrev Kept : Controller → Controller → Type 0
Kept c d = d.ready ≡ true → (c.ready ≡ true) × (d.store.pending ≡ c.store.pending)

install_broken-Kept :
    (a : Answer) (code : UpdateErrorCode) (c : Controller) → Kept c (install_broken a code c)
unfolding install_broken install_thrown end_install fail_unless_failed fail publish clear_attempt
    commit
install_broken-Kept a code c r = ground arith

give_up-Kept : (b : Bool) (c : Controller) → Kept c (given_up b c)
unfolding given_up give_up block_install publish
give_up-Kept true c r = ground arith
give_up-Kept false c r = ground arith

emitted-Kept : (b : Bool) (c : Controller) → Kept c (emitted b c)
unfolding emitted on_error give_up block_install fail publish
emitted-Kept true c r = ground arith
emitted-Kept false c r = ground arith

handoff_thrown-Kept : (a : Answer) (c : Controller) → Kept c (handoff_thrown a c)
unfolding handoff_thrown
handoff_thrown-Kept a c r =
    let (b, e) = install_broken-Kept a install_failed (given_up c.prepared c) r in
    let (g, f) = give_up-Kept c.prepared c b in (g, e ∙ f)

hand_off-Kept : (a : Answer) (c : Controller) → Kept c (hand_off a c)
unfolding hand_off ask_quit end_install
hand_off-Kept a c r = ground (
  arith,
  emitted-Kept a.quit_emits_error (ask_quit c),
  handoff_thrown-Kept a (emitted a.quit_emits_error (ask_quit c)),
)

ite_Kept : (b : Bool) (c d e : Controller) → Kept c d → Kept c e → Kept c (if b then d else e)
ite_Kept true c d e k l = k
ite_Kept false c d e k l = l

install_prepared-Kept : (a : Answer) (c : Controller) → Kept c (install_prepared a c)
unfolding install_prepared publish
install_prepared-Kept a c =
    ite_Kept (not a.resolved || c.closing) c _ _ (install_broken-Kept a stop_failed c)
      (hand_off-Kept a _)

module _ (names : Names) where
  verify-is_hash :
      (hash : Option String) (p : PendingUpdate) (info : UpdateInfo) (c : Controller)
      → verify_pending names hash p info c.format ≡ true
      → is_hash hash (some p) ≡ true
  unfolding verify_pending
  verify-is_hash none p info c h = cc
  verify-is_hash (some x) p info c h = ground arith

  check-Vouched : (c : Controller) → Vouched none c (check c)
  unfolding check
  check-Vouched c r = ground arith

  check_checking-Vouched : (a : Answer) (c : Controller) → Vouched a.hash c (check_checking a c)
  unfolding check_checking check_offer check_none check_pending check_thrown end_check fail publish
      save_pending commit
  check_checking-Vouched a c r = ground arith

  check_verifying-Vouched :
      (a : Answer) (info : UpdateInfo) (p : PendingUpdate) (c : Controller)
      → c.store.pending ≡ some p
      → Vouched a.hash c (check_verifying names a info p c)
  unfolding check_verifying check_thrown end_check fail publish save_pending commit
  check_verifying-Vouched a info p c e r = ground (arith, verify-is_hash a.hash p info c)

  check_at-Vouched :
      (o : Option CheckPoint) (a : Answer) (c : Controller)
      → c.check_operation ≡ o
      → IsValid names c
      → Vouched a.hash c (check_at names o a c)
  unfolding check_at check_queued check_linking check_thrown end_check fail publish
  check_at-Vouched none a c q v r = inr (r, refl)
  check_at-Vouched (some CheckPoint.queued) a c q v r = ground arith
  check_at-Vouched (some CheckPoint.checking) a c q v r = check_checking-Vouched a c r
  check_at-Vouched (some (CheckPoint.verifying info p)) a c q v r =
      check_verifying-Vouched a info p c (let k = v.check_knows in ground arith) r
  check_at-Vouched (some (CheckPoint.linking info)) a c q v r = ground arith

  download-Vouched : (c : Controller) → Vouched none c (download c)
  unfolding download
  download-Vouched c r = ground arith

  download_verifying-Vouched :
      (a : Answer) (info : UpdateInfo) (p : PendingUpdate) (c : Controller)
      → Vouched a.hash c (download_verifying names a info p c)
  unfolding download_verifying download_broken download_thrown fail_unless_failed end_download
      publish fail save_pending commit
  download_verifying-Vouched a info p c r = ground (arith, verify-is_hash a.hash p info c)

  download_at-Vouched :
      (o : Option DownloadPoint) (a : Answer) (c : Controller)
      → Vouched a.hash c (download_at names o a c)
  unfolding download_at download_queued download_resumed begin_download download_done start_verify
      download_broken download_thrown fail_unless_failed end_download publish fail
  download_at-Vouched none a c r = inr (r, refl)
  download_at-Vouched (some DownloadPoint.queued) a c r = ground arith
  download_at-Vouched (some DownloadPoint.waiting) a c r = inr (r, refl)
  download_at-Vouched (some (DownloadPoint.resumed true)) a c r = ground arith
  download_at-Vouched (some (DownloadPoint.resumed false)) a c r = ground arith
  download_at-Vouched (some DownloadPoint.downloading) a c r = ground arith
  download_at-Vouched (some (DownloadPoint.verifying info p)) a c r =
      download_verifying-Vouched a info p c r

  install-Vouched : (c : Controller) → Vouched none c (restart_and_install c)
  unfolding restart_and_install
  install-Vouched c r = ground arith

  install_at-Vouched :
      (o : Option InstallPoint) (a : Answer) (c : Controller)
      → Vouched none c (install_at names o a c)
  unfolding install_at install_queued install_resumed begin_install install_offer verify_install
      drop_pending install_broken install_thrown end_install fail_unless_failed fail publish
      install_accessed install_rehydrated install_verifying save_pending save_attempt clear_attempt
      commit
  install_at-Vouched none a c r = inr (r, refl)
  install_at-Vouched (some InstallPoint.queued) a c r = ground arith
  install_at-Vouched (some InstallPoint.waiting) a c r = inr (r, refl)
  install_at-Vouched (some (InstallPoint.resumed true)) a c r = ground arith
  install_at-Vouched (some (InstallPoint.resumed false)) a c r = ground arith
  install_at-Vouched (some (InstallPoint.verifying info p)) a c r = ground arith
  install_at-Vouched (some InstallPoint.accessing) a c r = ground arith
  install_at-Vouched (some InstallPoint.rehydrating) a c r = ground arith
  install_at-Vouched (some InstallPoint.preparing) a c r = inr (install_prepared-Kept a c r)

  handle-Vouched :
      (c : Controller) (e : Event) → IsValid names c → Vouched (hash_of e) c (handle names c e)
  unfolding handle on_error give_up block_install on_progress on_downloaded on_notes begin_quit
      cancel_quit fail publish
  handle-Vouched c check_call v r = check-Vouched c r
  handle-Vouched c download_call v r = download-Vouched c r
  handle-Vouched c install_call v r = install-Vouched c r
  handle-Vouched c (check_step a) v r = check_at-Vouched c.check_operation a c refl v r
  handle-Vouched c (download_step a) v r = download_at-Vouched c.download_operation a c r
  handle-Vouched c (install_step a) v r = install_at-Vouched c.install_operation a c r
  handle-Vouched c (progress percent) v r = ground arith
  handle-Vouched c (update_downloaded e) v r = ground arith
  handle-Vouched c driver_error v r = ground arith
  handle-Vouched c (notes_fetched is_same notes) v r = ground arith
  handle-Vouched c before_quit v r = ground arith
  handle-Vouched c quit_cancelled v r = ground arith

  -- What is ready after a run was hashed in it, or it was ready at its start.
  pub handle_all-hashed :
      (c : Controller) (es : List Event)
      → IsValid names c
      → (handle_all names c es).ready ≡ true
      → (is_hashed es (handle_all names c es).store.pending ≡ true)
        ⊎ ((c.ready ≡ true) × ((handle_all names c es).store.pending ≡ c.store.pending))
  unfolding handle_all
  handle_all-hashed c [] v r = inr (r, refl)
  handle_all-hashed c (e ∷ es) v r =
      elim (handle_all-hashed (handle names c e) es (handle-IsValid names c e v) r) [
        | inl h ↦ inl (ground arith)
        | inr (b, q) ↦ elim (handle-Vouched c e v b) [
          | inl h ↦ inl (rw q (ground arith))
          | inr (g, f) ↦ inr (g, q ∙ f)
        ]
      ]
