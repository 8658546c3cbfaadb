-- ===== src/Submissions.antt =====
-- The requests of a session: frontend/src/features/downloads/scoped-submissions.ts.
mod Requests
mod Kept
mod Settles
mod Tests
