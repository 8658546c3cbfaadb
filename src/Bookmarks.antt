-- ===== src/Bookmarks.antt =====
-- Bookmarks: frontend/src/features/illusts/bookmark-tag-writer.ts.
mod TagWriter
mod Invariant
mod Settled
mod Tests
