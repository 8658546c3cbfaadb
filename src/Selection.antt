-- ===== src/Selection.antt =====
-- The selection of illustrations to download: frontend/src/features/downloads/selection-state.ts.
mod Pool
mod Tally
mod Enqueued
mod Store
mod Kept
mod Tests
