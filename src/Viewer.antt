-- ===== src/Viewer.antt =====
-- The illustration viewer: frontend/src/features/illusts/illust-viewer.
mod Stage
mod Latest
mod Keys
mod Tests
