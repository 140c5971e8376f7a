-- ===== src/Prompts.antt =====
-- The questions that the App Server asks of the user, and their answers (codex/client.go,
-- codex/prompt_response.go and codex/request_policy.go): offers are admitted, shown, claimed, snoozed,
-- answered, released and withdrawn, and each change is published by a revision.
pub mod Json
pub mod Types
pub mod Normalize
pub mod Answers
pub mod Accepted
pub mod State
pub mod Offers
pub mod Notices
pub mod Run
pub mod Once
pub mod Revised
pub mod Present
pub mod Respond
pub mod Handed
pub mod Answerable
