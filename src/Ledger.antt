-- ===== src/Ledger.antt =====
-- The submission ledger of codex/client.go and codex/send_delivery.go: the durable record of every
-- message that is queued or sent, by thread and by the client's message identity.
pub mod Types
pub mod Queue
pub mod Sends
pub mod Cleanup
pub mod Load
pub mod Compaction
pub mod Compacted
pub mod Requests
pub mod Atomic
pub mod Moves
pub mod Claims
pub mod Loaded
