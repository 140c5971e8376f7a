-- ===== src/Ledger/Types.antt =====
-- The ledger's records (`queueAttemptLedger`, `sendAttempt`, `queueDeletionAttempt`), the maps that a
-- transaction works on, and the write that ends it (`writeQueueLedgerLocked`).
use codex_web.Common.{String, Bool, true, false, Option, none, some, []}
use codex_web.Errors
use codex_web.Errors.{Outcome, ok, err, panic}
use codex_web.GoMap.{GoMap}
use codex_web.ThreadMap.{ThreadMap}
use codex_web.TurnOptions.Types.{TurnOptions}

-- The values of the JSON field `state`.
pub data SendState : Type 0 where
  prepared submitting accepted : SendState
  other : String → SendState

pub record SendAttempt : Type 0 where
  pub admission_id : String
  pub digest : String
  pub state : SendState
  pub context : String
  pub options_digest : String
  pub options : Option TurnOptions
  pub steered : Bool
  pub turn_id : String

pub record QueueDeletionAttempt : Type 0 where
  pub client_user_message_id : String
  pub digest : String

pub record SendReceipt : Type 0 where
  pub queued_submission_id : String
  pub turn_id : String
  pub client_user_message_id : String
  pub steered : Bool

pub record QueueEntry : Type 0 where
  pub id : String
  pub text : String
  pub client_user_message_id : String

pub record Ledger : Type 0 where
  pub queue_attempts : ThreadMap String
  pub send_attempts : ThreadMap SendAttempt
  pub queue_deletions : ThreadMap QueueDeletionAttempt
  pub operations : GoMap String

abbrev pub empty_ledger : Ledger
empty_ledger = record {
  queue_attempts = [];
  send_attempts = [];
  queue_deletions = [];
  operations = [];
}

-- The client's maps within a transaction, and what the ledger file holds.
pub record Store : Type 0 where
  pub memory : Ledger
  pub durable : Ledger

-- How `writeQueueLedgerLocked` ends: the file is replaced; it is not (encoding, size, or any step up to
-- the rename failed); or it is replaced and an error is reported, since opening or syncing the
-- directory failed after the rename.
pub data WriteOutcome : Type 0 where
  written not_written unsynced : WriteOutcome

unfoldable pub is_prepared : SendState → Bool
is_prepared prepared = true
is_prepared _ = false

unfoldable pub is_submitting : SendState → Bool
is_submitting submitting = true
is_submitting _ = false

unfoldable pub is_accepted : SendState → Bool
is_accepted accepted = true
is_accepted _ = false

-- An action on the maps: how its write would end, and the store before.
abbrev pub Action {ℓ} : Type ℓ → Type ℓ
Action A = WriteOutcome → Store → Outcome A × Store

abbrev undone {ℓ} : {A : Type ℓ} → Option Ledger → Store → Outcome A × Store
undone none s = (panic, s)
undone (some l) s = (err Errors.write_failed, record s { memory = l })

-- `if err := c.writeQueueLedgerLocked(); err != nil { undo; return err }`, then `return a`. The store is
-- the one with the maps changed; `undo` is what the error branch makes of them, `none` its panic.
abbrev pub finish {ℓ} : {A : Type ℓ} → WriteOutcome → Store → Option Ledger → A → Outcome A × Store
finish written s undo a = (ok a, record s { durable = s.memory })
finish not_written s undo a = undone undo s
finish unsynced s undo a = undone undo (record s { durable = s.memory })

abbrev pub with_queue : Store → ThreadMap String → Store
with_queue s m = record s { memory = record s.memory { queue_attempts = m } }

abbrev pub with_sends : Store → ThreadMap SendAttempt → Store
with_sends s m = record s { memory = record s.memory { send_attempts = m } }

abbrev pub with_deletions : Store → ThreadMap QueueDeletionAttempt → Store
with_deletions s m = record s { memory = record s.memory { queue_deletions = m } }

abbrev pub with_operations : Store → GoMap String → Store
with_operations s m = record s { memory = record s.memory { operations = m } }
