-- ===== src/Settings.antt =====
-- The settings of frontend/src/features/settings: the values, the form and the sections.
mod Json
mod Types
mod Values
mod Form
mod Calls
mod Reconciled
mod Coherent
mod Runs
mod Saved
mod Persisted
mod Sent
mod Bounds
mod Schema
mod Arranged
mod Filed
mod Sections
mod Tests
