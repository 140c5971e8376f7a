-- ===== src/Pages.antt =====
-- Transcript pages (codex/thread_page.go): the continuations that the client keeps between two pages of a
-- thread, and the walk over turns and items that fills one page.
pub mod Types
pub mod Cursors
pub mod Bounded
pub mod Evicted
pub mod Resumed
pub mod Walk
pub mod Filled
pub mod Calm
pub mod Ended
