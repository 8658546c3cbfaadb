-- ===== src/Desktop.antt =====
-- The desktop shell: desktop/src.
mod Updates
mod Core
mod Preferences
