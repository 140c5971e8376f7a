-- ===== src/Delivery/Laws.antt =====
-- The properties of the sends and of the queue flows of codex/client.go, by what they are about.
pub mod Quiet
pub mod Settle
pub mod Dispatch
pub mod Identity
pub mod Receipts
pub mod Outcomes
pub mod Asked
pub mod Answers
pub mod Deletion
