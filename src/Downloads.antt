-- ===== src/Downloads.antt =====
-- The downloads of the client: frontend/src/features/downloads.
pub mod Types
pub mod Store
pub mod Events
pub mod Puts
pub mod Index
pub mod Slots
pub mod Repeat
mod Tests
