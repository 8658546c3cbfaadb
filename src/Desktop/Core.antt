-- ===== src/Desktop/Core.antt =====
-- The core process of the desktop shell: desktop/src/core-supervisor.ts.
mod Stdout
mod Chunks
mod Supervisor
mod Run
mod Invariant
mod Kept
mod Handled
mod Runs
mod Stops
mod Stopped
mod Tests
