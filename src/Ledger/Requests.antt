-- ===== src/Ledger/Requests.antt =====
-- The transactions of the ledger's users, as one type of requests, and a run of several. A client has
-- one transaction at a time, and so have the processes that share the ledger: its lock is held from the
-- load to the end of the write. So any interleaving of senders is a sequence of requests.
use codex_web.Common.{String, Bool, Option, List, [], ◌∷◌}
use codex_web.Errors.{Outcome, ok, err, panic}
use codex_web.GoMap.{GoMap}
use codex_web.Library.{Library}
use codex_web.TurnOptions.{TurnOptions}
use codex_web.Ledger.Types.{SendReceipt, QueueEntry, Ledger, Store, WriteOutcome, Action}
use codex_web.Ledger.Sends.{
  send_state_with_options, record_send_attempt_with_receipt, original_send_options, matches_exactly,
  is_prepared_send_with_options, discard_prepared_send_with_options, claim_send_submission_if,
  mark_send_accepted, restore_rejected_send_claim,
}
use codex_web.Ledger.Queue.{
  queue_attempt, record_queue_attempt, clear_queue_attempt, queue_deletion_attempt,
  record_queue_deletion_attempt, clear_queue_deletion_and_attempt,
}
use codex_web.Ledger.Cleanup.{
  SendAcknowledgement, plan_acknowledgements, release_proven, record_thread_operation_attempt,
  clear_retired_thread_attempts, clear_conversation_attempts,
}
use codex_web.Ledger.Compaction.{compact_accepted_send_options}
use codex_web.Ledger.Load.{Opening, queue_ledger_transaction}

pub data Request : Type 0 where
  -- thread, client, text, context, options digest
  send_state original_options is_prepared_send discard_prepared :
      String → String → String → String → String → Request
  -- thread, client, text, context, steered, options, options digest, receipt
  record_send :
      String → String → String → String → Bool → TurnOptions → String → Option SendReceipt → Request
  -- thread, client, claim, text, context, options digest, steered
  claim_send : String → String → String → String → String → String → Bool → Request
  accept_send : String → String → SendReceipt → Request
  restore_send : Bool → String → String → String → Request
  queue_state record_queue : String → String → String → Request
  clear_queue deletion_state : String → String → Request
  record_deletion : String → QueueEntry → Request
  clear_deletion : String → String → String → Request
  plan_release : String → List SendAcknowledgement → Request
  release : String → GoMap String → List SendAcknowledgement → GoMap String → Request
  record_operation clear_conversation : String → String → Request
  clear_thread : String → Request
  -- context prefix
  compact_options : String → Request

-- The result without its value.
abbrev pub forget {ℓ} : {A : Type ℓ} → Outcome A × Store → Outcome (Unit {0}) × Store
forget (ok _, s) = (ok tt, s)
forget (err e, s) = (err e, s)
forget (panic, s) = (panic, s)

module _ (lib : Library) where
  unfoldable pub perform : Request → Action (Unit {0})
  perform (send_state t c text context digest) w s =
      forget (send_state_with_options lib t c text context digest w s)
  perform (original_options t c text context digest) w s =
      forget (original_send_options lib t text c context w s)
  perform (is_prepared_send t c text context digest) w s =
      forget (is_prepared_send_with_options lib t text c context digest w s)
  perform (discard_prepared t c text context digest) w s =
      forget (discard_prepared_send_with_options lib t text c context digest w s)
  perform (record_send t c text context steered options digest receipt) w s =
      record_send_attempt_with_receipt lib t c text context steered options digest receipt w s
  perform (claim_send t c claim text context digest steered) w s =
      claim_send_submission_if t c claim (matches_exactly lib text context digest steered) w s
  perform (accept_send t c receipt) w s = mark_send_accepted t c receipt w s
  perform (restore_send database t c claim) w s = restore_rejected_send_claim database t c claim w s
  perform (queue_state t c text) w s = forget (queue_attempt lib t c text w s)
  perform (record_queue t c text) w s = record_queue_attempt lib t c text w s
  perform (clear_queue t c) w s = clear_queue_attempt t c w s
  perform (deletion_state t id) w s = forget (queue_deletion_attempt t id w s)
  perform (record_deletion t target) w s = forget (record_queue_deletion_attempt lib t target w s)
  perform (clear_deletion t id c) w s = clear_queue_deletion_and_attempt t id c w s
  perform (plan_release t acks) w s = forget (plan_acknowledgements t acks w s)
  perform (release t digests acks proven) w s = forget (release_proven t digests acks proven w s)
  perform (record_operation directory t) w s = record_thread_operation_attempt directory t w s
  perform (clear_conversation t directory) w s = clear_conversation_attempts t directory w s
  perform (clear_thread t) w s = clear_retired_thread_attempts t w s
  perform (compact_options prefix) w s = compact_accepted_send_options prefix w s

-- One request of a history: how its ledger opens, how its write would end, and what it asks.
pub record Turn : Type 0 where
  pub opening : Opening
  pub write : WriteOutcome
  pub request : Request

module _ (lib : Library) where
  unfoldable pub step : Turn → Ledger → Ledger
  step turn durable =
      (queue_ledger_transaction lib turn.opening turn.write (perform lib turn.request) durable).1

  unfoldable pub run : List Turn → Ledger → Ledger
  run [] durable = durable
  run (turn ∷ turns) durable = run turns (step turn durable)
