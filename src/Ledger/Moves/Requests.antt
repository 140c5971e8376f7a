-- ===== src/Ledger/Moves/Requests.antt =====
-- The moves made by every request to the ledger, and by a transaction.
use codex_web.Common.{refl, inl, Bool, true, false, arith}
use codex_web.Errors.{Outcome, ok, err, panic}
use codex_web.Library.{Library}
use codex_web.Ledger.Types.{Ledger, Store, WriteOutcome}
use codex_web.Ledger.Requests.{
  Request, send_state, original_options, is_prepared_send, discard_prepared, record_send,
  claim_send, accept_send, restore_send, queue_state, record_queue, clear_queue, deletion_state,
  record_deletion, clear_deletion, plan_release, release, record_operation, clear_conversation,
  clear_thread, compact_options, forget, perform,
}
use codex_web.Ledger.Sends.{
  matches_exactly, send_state_with_options, original_send_options, is_prepared_send_with_options,
}
use codex_web.Ledger.Queue.{queue_attempt, queue_deletion_attempt}
use codex_web.Ledger.Cleanup.{plan_acknowledgements}
use codex_web.Ledger.Moves.{Lands}
use codex_web.Ledger.Moves.Sends
use codex_web.Ledger.Moves.Sends.{Moves}
use codex_web.Ledger.Moves.Queue
use codex_web.Ledger.Moves.Cleanup
use codex_web.Ledger.Moves.Compaction

module _ {ℓ} {A : Type ℓ} (s : Store) (P : Ledger → Type 0) where
  Lands-forget : (r : Outcome A × Store) → Lands s P r → Lands s P (forget r)
  Lands-forget (ok a, s') h = h
  Lands-forget (err e, s') h = h
  Lands-forget (panic, s') h = h

-- The requests by which the application retires attempts: it clears a queue attempt, a deletion, a thread
-- or a conversation, or acknowledges sends.
unfoldable pub retires : Request → Bool
retires (clear_queue t c) = true
retires (clear_deletion t id c) = true
retires (release t digests acks proven) = true
retires (clear_conversation t directory) = true
retires (clear_thread t) = true
retires _ = false

-- Whatever is asked of the ledger, the file stays as it was, or every message in it makes one move of its life
-- from what the maps held: it stays as it is; a send is prepared where there was none, claimed where it is
-- prepared and not queued, accepted or put back where it is claimed, proved accepted by history, stripped of its
-- options where it is accepted, or discarded where it is prepared and not queued; the message is queued where
-- no other send of it is on its way; and attempts are retired by the requests that are made for that only.
pub perform-Moves :
    (lib : Library) (w : WriteOutcome) (s : Store) (request : Request)
    → Lands s (Moves (retires request) s.memory) (perform lib request w s)
unfolding retires perform queue_deletion_attempt send_state_with_options original_send_options
    is_prepared_send_with_options queue_attempt plan_acknowledgements
perform-Moves lib w s (send_state t c text context digest) = ground arith
perform-Moves lib w s (original_options t c text context digest) = ground arith
perform-Moves lib w s (is_prepared_send t c text context digest) = ground arith
perform-Moves lib w s (discard_prepared t c text context digest) =
    Lands-forget s (Moves false s.memory) _
      (Sends.discard_prepared_send_with_options-Moves w s t c lib text context digest)
perform-Moves lib w s (record_send t c text context steered options digest receipt) =
    Sends.record_send_attempt_with_receipt-Moves w s t c lib text context digest steered options
      receipt
perform-Moves lib w s (claim_send t c claim text context digest steered) =
    Sends.claim_send_submission_if-Moves w s t c claim
      (matches_exactly lib text context digest steered)
perform-Moves lib w s (accept_send t c receipt) = Sends.mark_send_accepted-Moves w s t c receipt
perform-Moves lib w s (restore_send database t c claim) =
    Sends.restore_rejected_send_claim-Moves w s t c database claim
perform-Moves lib w s (queue_state t c text) = ground arith
perform-Moves lib w s (record_queue t c text) = Queue.record_queue_attempt-Moves w s t c lib text
perform-Moves lib w s (clear_queue t c) = Queue.clear_queue_attempt-Moves w s t c
perform-Moves lib w s (deletion_state t id) = inl refl
perform-Moves lib w s (record_deletion t target) =
    Lands-forget s (Moves false s.memory) _
      (Queue.record_queue_deletion_attempt-Moves w s lib t target)
perform-Moves lib w s (clear_deletion t id c) =
    Queue.clear_queue_deletion_and_attempt-Moves w s t id c
perform-Moves lib w s (plan_release t acks) = ground arith
perform-Moves lib w s (release t digests acks proven) =
    Lands-forget s (Moves true s.memory) _ (Cleanup.release_proven-Moves w s t digests acks proven)
perform-Moves lib w s (record_operation directory t) =
    Cleanup.record_thread_operation_attempt-Moves w s directory t
perform-Moves lib w s (clear_conversation t directory) =
    Cleanup.clear_conversation_attempts-Moves w s t directory
perform-Moves lib w s (clear_thread t) = Cleanup.clear_retired_thread_attempts-Moves w s t
perform-Moves lib w s (compact_options prefix) =
    Compaction.compact_accepted_send_options-Moves w s prefix
