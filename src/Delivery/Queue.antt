-- ===== src/Delivery/Queue.antt =====
-- `QueueWithPolicy`, `DeleteQueueEntryWithCompletion`, `finishAbsentQueueDeletion`,
-- `ReconcileQueueDeletionsWithCompletion` and `StartQueueWithPolicy` of codex/client.go, with the
-- requests they make, their callback and the policy's settings as outcomes.
use codex_web.Common.{
  String, ℕ, zero, suc, Bool, true, false, not, ◌&&◌, ◌||◌, Option, none, some, List, [], ◌∷◌, ◌==◌,
  if◌then◌else◌,
}
use codex_web.Errors
use codex_web.Errors.{Error, Outcome, ok, err, panic}
use codex_web.Library.{Library}
use codex_web.Ledger.Types.{QueueDeletionAttempt, QueueEntry}
use codex_web.Ledger.Sends.{queue_text_digest}
use codex_web.Ledger.Queue.{
  queue_attempt, record_queue_attempt, record_queue_deletion_attempt, queue_deletion_attempt,
  same_deletion, clear_queue_deletion_and_attempt,
}
use codex_web.History.Messages.{
  Submission, input_text, list_queue, queued_or_started_by_client_id, started_by_client_id,
  queue_deletion_was_started,
}
use codex_web.Delivery.Call.{
  Surroundings, Call, ◌>>=◌, ◌>>◌, done, fail, known, caught, on_error, transact, look,
}

-- The requests of the queue's flows and how they end.
pub record QueueRequests : Type 0 where
  -- `validateThreadPolicy`, `applyLoadedExecutionPolicy` and `resumeThreadWithPolicy`
  pub policy : Outcome (Unit {0})
  pub applied : Outcome (Unit {0})
  pub resumed : Outcome (Unit {0})
  -- thread/queue/add, thread/queue/delete (`deleted`), thread/queue/start (turn, status)
  pub added : Outcome Submission
  pub deleted : Outcome Bool
  pub started : Outcome (String × String)
  -- the application's callback, by the queued submission; where there is none it counts as successful
  pub complete : String → Outcome (Unit {0})

-- `none` is "not found"
unfoldable pub find_entry : String → List QueueEntry → Option QueueEntry
find_entry id [] = none
find_entry id (entry ∷ entries) = if entry.id == id then some entry else find_entry id entries

unfoldable pub queue_contains_submission : List QueueEntry → String → Bool
queue_contains_submission [] id = false
queue_contains_submission (entry ∷ entries) id =
    (entry.id == id) || queue_contains_submission entries id

module _ (lib : Library) (around : Surroundings) (requests : QueueRequests) (thread : String) where
  module _ (client text : String) where
    unfoldable pub search_queue : Call (Option QueueEntry)
    search_queue =
        look lib around (λ queue items. queued_or_started_by_client_id client text queue items)

    unfoldable pub earlier_entry : Option QueueEntry → Call QueueEntry
    earlier_entry (some entry) = done entry
    earlier_entry none = fail Errors.queued_outcome_unknown

    -- After a request that failed or whose reply is not the message's.
    unfoldable pub reconcile_added : Error → Outcome (Option QueueEntry) → Call QueueEntry
    reconcile_added e (ok (some entry)) = done entry
    reconcile_added e (ok none) = fail e
    reconcile_added e (err _) = fail (Errors.wrapping e)
    reconcile_added e panic = known panic

    unfoldable pub is_reply : Submission → Bool
    is_reply reply =
        not (reply.id == "")
        && reply.client_user_message_id == client
        && input_text reply.input == text

    unfoldable pub after_add : Outcome Submission → Call QueueEntry
    after_add panic = known panic
    after_add (err e) = caught search_queue >>= reconcile_added e
    after_add (ok reply) =
        if is_reply reply
        then done (record { id = reply.id; text = text; client_user_message_id = client })
        else (caught search_queue >>= reconcile_added Errors.add_outcome_unknown)

    unfoldable pub queue_unless : Bool → Call QueueEntry
    queue_unless true = search_queue >>= earlier_entry
    queue_unless false = do
      known requests.applied
      on_error (transact lib around (record_queue_attempt lib thread client text))
          (λ e. fail (Errors.wrapping e))
      after_add requests.added

    unfoldable pub queue_with_policy : Call QueueEntry
    queue_with_policy = do
      known requests.policy
      known around.thread_lock
      attempted ← transact lib around (queue_attempt lib thread client text)
      queue_unless attempted

  module _ (id : String) where
    unfoldable pub read_queue : Call (List QueueEntry)
    read_queue = look lib around (λ queue _. list_queue queue)

    unfoldable pub clear : QueueDeletionAttempt → Call (Unit {0})
    clear attempt =
        transact lib around
          (clear_queue_deletion_and_attempt thread id attempt.client_user_message_id)

    unfoldable pub finish_absent : QueueDeletionAttempt → Bool → Call (Unit {0})
    finish_absent attempt true = clear attempt >> fail Errors.started_before_deletion
    finish_absent attempt false = known (requests.complete id) >> clear attempt

    unfoldable pub finish_absent_queue_deletion : QueueDeletionAttempt → Call (Unit {0})
    finish_absent_queue_deletion attempt =
        look lib around (λ _ items. queue_deletion_was_started lib attempt items)
        >>= finish_absent attempt

    -- A deletion whose request failed: `e` is its error.
    unfoldable pub reconcile_deleted :
        QueueDeletionAttempt → Error → Outcome (List QueueEntry) → Call (Unit {0})
    reconcile_deleted attempt e (ok entries) =
        if queue_contains_submission entries id
        then fail e
        else finish_absent_queue_deletion attempt
    reconcile_deleted attempt e (err _) = fail e
    reconcile_deleted attempt e panic = known panic

    unfoldable pub refused_deletion : QueueDeletionAttempt → List QueueEntry → Call (Unit {0})
    refused_deletion attempt entries =
        if queue_contains_submission entries id
        then fail Errors.deletion_not_accepted
        else finish_absent_queue_deletion attempt

    unfoldable pub after_delete : QueueDeletionAttempt → Outcome Bool → Call (Unit {0})
    after_delete attempt (ok true) = known (requests.complete id) >> clear attempt
    after_delete attempt (ok false) = read_queue >>= refused_deletion attempt
    after_delete attempt (err e) = caught read_queue >>= reconcile_deleted attempt e
    after_delete attempt panic = known panic

    unfoldable pub current_deletion : QueueEntry → QueueDeletionAttempt
    current_deletion target = record {
      client_user_message_id = target.client_user_message_id;
      digest = queue_text_digest lib target.text;
    }

    unfoldable pub delete_target : Option QueueDeletionAttempt → QueueEntry → Call (Unit {0})
    delete_target (some attempt) target =
        if target.client_user_message_id == ""
        then fail Errors.queue_entry_unnamed
        else (if same_deletion (current_deletion target) attempt
            then after_delete attempt requests.deleted
            else fail Errors.queue_entry_changed)
    delete_target none target =
        if target.client_user_message_id == ""
        then fail Errors.queue_entry_unnamed
        else (transact lib around (record_queue_deletion_attempt lib thread target) >>= λ attempt.
            after_delete attempt requests.deleted)

    unfoldable pub delete_unless_absent :
        Option QueueDeletionAttempt → Option QueueEntry → Call (Unit {0})
    delete_unless_absent (some attempt) none = finish_absent_queue_deletion attempt
    delete_unless_absent none none = fail Errors.queue_entry_not_found
    delete_unless_absent attempted (some target) = delete_target attempted target

    unfoldable pub delete_queue_entry_with_completion : Call (Unit {0})
    delete_queue_entry_with_completion = do
      attempted ← transact lib around (queue_deletion_attempt thread id)
      entries ← read_queue
      delete_unless_absent attempted (find_entry id entries)

  -- The first entry, where it is the one asked for.
  unfoldable pub first_entry : String → List QueueEntry → Outcome QueueEntry
  first_entry id [] = err Errors.queue_entry_not_found
  first_entry id (entry ∷ _) = if entry.id == id then ok entry else err Errors.not_first

  unfoldable pub search_started : QueueEntry → Call (Option QueueEntry)
  search_started target =
      look lib around
        (λ _ items. started_by_client_id target.client_user_message_id target.text items)

  unfoldable pub wait_for_started : QueueEntry → ℕ → Call Bool
  wait_for_started target zero = done false
  wait_for_started target (suc n) =
      let later = wait_for_started target n in
      do
        found ← search_started target
        elim found [
          | some _ ↦ done true
          | none ↦ elim n [
            | zero ↦ done false
            | suc _ ↦ λ world. elim (around.interrupted world.events) [
              | some e ↦ (err e, world)
              | none ↦ later world
            ]
          ]
        ]

  unfoldable pub reconcile_started : Option Error → Outcome Bool → Call (Unit {0})
  reconcile_started e (ok true) = done tt
  reconcile_started (some e) (ok false) = fail e
  reconcile_started none (ok false) = fail Errors.invalid_turn
  reconcile_started (some e) (err _) = fail (Errors.wrapping e)
  reconcile_started none (err e) = fail (Errors.wrapping e)
  reconcile_started e panic = known panic

  unfoldable pub after_start : QueueEntry → Outcome (String × String) → Call (Unit {0})
  after_start target panic = known panic
  after_start target (err e) = caught (wait_for_started target 6) >>= reconcile_started (some e)
  after_start target (ok (turn, status)) =
      if not (turn == "") && status == "inProgress"
      then done tt
      else (caught (wait_for_started target 6) >>= reconcile_started none)

  unfoldable pub start_unless : QueueEntry → Option QueueEntry → Call (Unit {0})
  start_unless target (some _) = done tt
  start_unless target none = after_start target requests.started

  unfoldable pub start_queue_with_policy : String → Call (Unit {0})
  start_queue_with_policy id = do
    known requests.policy
    entries ← read_queue id
    target ← known (first_entry id entries)
    known requests.resumed
    found ← search_started target
    start_unless target found
