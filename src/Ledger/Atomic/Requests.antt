-- ===== src/Ledger/Atomic/Requests.antt =====
-- Atomicity of every request to the ledger, and of the transaction around it.
use codex_web.Common.{arith}
use codex_web.Library.{Library}
use codex_web.Ledger.Types.{Store, WriteOutcome}
use codex_web.Ledger.Requests.{
  Request, send_state, original_options, is_prepared_send, discard_prepared, record_send,
  claim_send, accept_send, restore_send, queue_state, record_queue, clear_queue, deletion_state,
  record_deletion, clear_deletion, plan_release, release, record_operation, clear_conversation,
  clear_thread, compact_options, perform,
}
use codex_web.Ledger.Sends.{matches_exactly}
use codex_web.Ledger.Queue.{queue_deletion_attempt}
use codex_web.Ledger.Atomic.{IsAtomic, IsAtomic-forget}
use codex_web.Ledger.Atomic.Sends
use codex_web.Ledger.Atomic.Queue
use codex_web.Ledger.Atomic.Cleanup
use codex_web.Ledger.Atomic.Compaction
use codex_web.Ledger.Atomic.Cleanup.{NoBlankOperation}

-- Whatever is asked of a ledger that binds no directory to the empty thread: the code assigns into no
-- nil map; an error leaves the durable ledger as it was, unless the write reported its error after it
-- had replaced the file; and after a failed write the client's maps answer every lookup as before.
pub perform-IsAtomic :
    (lib : Library) (w : WriteOutcome) (s : Store) (request : Request)
    → NoBlankOperation s.memory
    → IsAtomic w s (perform lib request w s)
unfolding perform queue_deletion_attempt
perform-IsAtomic lib w s (send_state t c text context digest) full =
    IsAtomic-forget w s _ (Sends.send_state_with_options-IsAtomic w s t c lib text context digest)
perform-IsAtomic lib w s (original_options t c text context digest) full =
    IsAtomic-forget w s _ (Sends.original_send_options-IsAtomic w s t c lib text context digest)
perform-IsAtomic lib w s (is_prepared_send t c text context digest) full =
    IsAtomic-forget w s _
      (Sends.is_prepared_send_with_options-IsAtomic w s t c lib text context digest)
perform-IsAtomic lib w s (discard_prepared t c text context digest) full =
    IsAtomic-forget w s _
      (Sends.discard_prepared_send_with_options-IsAtomic w s t c lib text context digest)
perform-IsAtomic lib w s (record_send t c text context steered options digest receipt) full =
    Sends.record_send_attempt_with_receipt-IsAtomic w s t c lib text context digest steered options
      receipt
perform-IsAtomic lib w s (claim_send t c claim text context digest steered) full =
    Sends.claim_send_submission_if-IsAtomic w s t c claim
      (matches_exactly lib text context digest steered)
perform-IsAtomic lib w s (accept_send t c receipt) full =
    Sends.mark_send_accepted-IsAtomic w s t c receipt
perform-IsAtomic lib w s (restore_send database t c claim) full =
    Sends.restore_rejected_send_claim-IsAtomic w s t c database claim
perform-IsAtomic lib w s (queue_state t c text) full =
    IsAtomic-forget w s _ (Queue.queue_attempt-IsAtomic w s t c lib text)
perform-IsAtomic lib w s (record_queue t c text) full =
    Queue.record_queue_attempt-IsAtomic w s t c lib text
perform-IsAtomic lib w s (clear_queue t c) full = Queue.clear_queue_attempt-IsAtomic w s t c
perform-IsAtomic lib w s (deletion_state t id) full = ground arith
perform-IsAtomic lib w s (record_deletion t target) full =
    IsAtomic-forget w s _ (Queue.record_queue_deletion_attempt-IsAtomic w s lib t target)
perform-IsAtomic lib w s (clear_deletion t id c) full =
    Queue.clear_queue_deletion_and_attempt-IsAtomic w s t id c
perform-IsAtomic lib w s (plan_release t acks) full =
    IsAtomic-forget w s _ (Cleanup.plan_acknowledgements-IsAtomic w s t acks)
perform-IsAtomic lib w s (release t digests acks proven) full =
    IsAtomic-forget w s _ (Cleanup.release_proven-IsAtomic w s t digests acks proven)
perform-IsAtomic lib w s (record_operation directory t) full =
    Cleanup.record_thread_operation_attempt-IsAtomic w s directory t full
perform-IsAtomic lib w s (clear_conversation t directory) full =
    Cleanup.clear_conversation_attempts-IsAtomic w s t directory
perform-IsAtomic lib w s (clear_thread t) full =
    Cleanup.clear_retired_thread_attempts-IsAtomic w s t
perform-IsAtomic lib w s (compact_options prefix) full =
    Compaction.compact_accepted_send_options-IsAtomic w s prefix
