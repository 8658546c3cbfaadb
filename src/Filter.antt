-- ===== src/Filter.antt =====
-- The general filters of illustration lists: frontend/src/features/filter.
mod Types
mod Apply
mod Store
mod Writes
mod Matches
mod Applied
mod Kept
mod Written
mod Tests
