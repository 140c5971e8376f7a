-- ===== src/Delivery.antt =====
-- The flows of codex/client.go and codex/send_delivery.go that deliver a message: `SendWithOptions` and
-- what it is made of, `ReconcileSendWithOptions`, `QueueWithPolicy` and `DeleteQueueEntryWithCompletion`.
pub mod Call
pub mod Receipts
pub mod Send
pub mod Queue
pub mod Laws
pub mod Deletions
