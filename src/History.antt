-- ===== src/History.antt =====
-- Finding a message in the App Server's lists, of a thread's items and of its queue (codex/client.go):
-- `walkThreadItems`, `userMessageText`, `sentByClientID`, `startedByClientID`, `queueDeletionWasStarted`,
-- `ListQueue` and `queuedOrStartedByClientID`. The answers that the server gives to the successive
-- requests of one walk are a list, which ends where the caller's context does.
pub mod Walk
pub mod Messages
pub mod Evidence
