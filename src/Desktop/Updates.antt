-- ===== src/Desktop/Updates.antt =====
-- The updates of the desktop shell: desktop/src/update-controller.ts and desktop/src/update-store.ts.
mod Store
mod Controller
mod Check
mod Download
mod Install
mod Events
mod Invariant
mod Preserved
mod Handled
mod Handoff
mod Kept
mod Log
mod Logged
mod LoggedInstall
mod Vouched
mod Runs
mod Restart
mod Observe
mod Arrivals
mod Observed
mod Tests
