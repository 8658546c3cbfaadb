-- ===== src/Desktop/Preferences.antt =====
-- The desktop's store of the page's preferences: desktop/src/preferences.ts.
mod Store
mod Tests
mod Reopened
mod Written
