-- ===== src/Delivery/Laws/Identity.antt =====
-- The identity of the entry that a queueing returns (`QueueWithPolicy` of codex/client.go).
use codex_web.Common.{String, ◌≡◌}
use codex_web.Errors
use codex_web.Library.{Library}
use codex_web.Ledger.Types.{QueueEntry}

-- The entry is the message's: its client identity and its text.
abbrev pub IsMessage : String → String → QueueEntry → Type 0
IsMessage client text entry = (entry.client_user_message_id ≡ client) × (entry.text ≡ text)
