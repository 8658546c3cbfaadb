-- ===== src/SearchHistory.antt =====
-- The search history: frontend/src/features/search/hooks/use-search-history.ts.
mod Hooks
mod Refines
mod Runs
mod Tests
