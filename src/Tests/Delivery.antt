-- ===== src/Tests/Delivery.antt =====
-- The searches, sends and queue flows at concrete surroundings.
use codex_web.Common.{◌≡◌, refl, ◌⊎◌, true, false, none, some, [], ◌∷◌, ◌==◌}
use codex_web.Errors
use codex_web.Errors.{Outcome, ok, err, panic}
use codex_web.TurnOptions.{zero_options}
use codex_web.Ledger.Types.{
  SendAttempt, SendReceipt, Ledger, empty_ledger, Store, written, not_written, prepared, submitting,
  accepted,
}
use codex_web.Ledger.Types
use codex_web.Ledger.Queue
use codex_web.Ledger.Load.{opened, load_queue_ledger}
use codex_web.Ledger.Requests.{step, run, record_send}
use codex_web.History.Walk
use codex_web.History.Walk.{ThreadItemEntry, Page}
use codex_web.History.Messages
use codex_web.History.Messages.{Submission}
use codex_web.Ledger.Types.{QueueEntry}
use codex_web.History.Messages.{
  Answers, is_message, user_message_text, sent_by_client_id, started_by_client_id,
}
use codex_web.History.Evidence.{ShowsMessage, sent_by_client_id-shows, started_by_client_id-shows}
use codex_web.Delivery.Call
use codex_web.Delivery.Call.{Surroundings, World, failed}
use codex_web.Delivery.Receipts
use codex_web.Delivery.Send
use codex_web.Delivery.Send.{send_with_options}
use codex_web.Delivery.Queue as Flows
use codex_web.Delivery.Queue.{QueueRequests}
use codex_web.Delivery.Laws.Deletion.{delete_queue_entry_with_completion-complete}
use codex_web.Delivery.Call.{replied}
use codex_web.Delivery.Laws.Receipts.{Proof}
use codex_web.Delivery.Laws.Answers.{send_with_options-Vouched}
use mathlib.Core.List.{Memᴰ}
use codex_web.Ledger.Types.{QueueDeletionAttempt}
use codex_web.Delivery.Deletions.{reconcile_each, reconcile_each-complete}
use codex_web.Delivery.Laws.Settle.{refused_by_server}
use codex_web.Delivery.Laws.Dispatch.{send_with_options-once, send_with_options-not_sent}
use codex_web.Tests.{
  toy, digest_of_text, digest_of_options, holding, attempt, turn_of, receipt_of_turn, program,
}

abbrev message : ThreadItemEntry
message = record {
  turn_id = "turn-1";
  id = "item-2";
  item_type = "userMessage";
  client_id = "c";
  content = some (some (record { kind = "text"; text = "hello" }) ∷ []);
}

abbrev reply : ThreadItemEntry
reply = record message { id = "item-3"; item_type = "agentMessage"; client_id = "" }

-- Two pages, the newest item first.
abbrev answers : Answers
answers =
    ok (record { entries = some (reply ∷ []); next_cursor = some "next" })
    ∷ ok (record { entries = some (message ∷ []); next_cursor = none })
    ∷ []

search : Unit {0}
unfolding Walk.walk_thread_items Walk.visit_page Walk.accept_cursor Walk.seen sent_by_client_id
    started_by_client_id Messages.visit_sent Messages.visit_started Messages.user_message_text
    Messages.checked_inputs Messages.input_text
search = tt

sent_by_client_id-shows_example :
    ((receipt_of_turn "turn-1").client_user_message_id ≡ "c")
    × (shows : ShowsMessage "c" "hello" answers) × ((receipt_of_turn "turn-1").turn_id
        ≡ shows.entry.turn_id)
    × (("turn-1" == "") ≡ false)
unfolding search
sent_by_client_id-shows_example =
    sent_by_client_id-shows "c" "hello" answers (receipt_of_turn "turn-1") refl

abbrev started_entry : codex_web.Ledger.Types.QueueEntry
started_entry = record { id = "item-2"; text = "hello"; client_user_message_id = "c" }

started_by_client_id-shows_example :
    (started_entry.client_user_message_id ≡ "c")
    × (started_entry.text ≡ "hello")
    × (shows : ShowsMessage "c" "hello" answers) × (started_entry.id ≡ shows.entry.id)
unfolding search
started_by_client_id-shows_example =
    started_by_client_id-shows "c" "hello" answers started_entry refl

-- The App Server refuses the parameters of the request.
abbrev refusing : Surroundings
refusing = record {
  others = λ n. [];
  opening = λ n. opened;
  write = λ n. written;
  items = λ n. answers;
  queue = λ n. [];
  resumed = ok tt;
  turns = ok (some []);
  exchange = failed (Errors.refusal Errors.invalid_params);
  claim = "claim";
  thread_lock = ok tt;
  interrupted = λ n. none;
}

abbrev start : World
start = record { durable = empty_ledger; events = 0; dispatched = 0 }

abbrev refused_send : Outcome SendReceipt × World
refused_send = send_with_options toy refusing false "t" "hello" "c" "" zero_options start

send_with_options-once_example : (refused_send.1.dispatched ≡ 0) ⊎ (refused_send.1.dispatched ≡ 1)
send_with_options-once_example =
    send_with_options-once toy refusing false "t" "hello" "c" "" zero_options start

sending : Unit {0}
unfolding program search send_with_options Send.known_attempt Send.send_known Send.send_unless
    Send.send_new Send.active_turn_id Send.steers_otherwise Send.submit Send.admit Send.settle
    Send.reconcile_unanswered Receipts.reconcile_send Receipts.is_unwritten Receipts.first_refusal
    Receipts.refuses_input Receipts.restore_unwritten_send_outcome Receipts.unwritten_send_outcome
    Receipts.with_restoration Receipts.outcome_of Receipts.surely_unsent
    Receipts.retryable_delivery_error Call.transact Call.request_with_admission
sending = tt

send_with_options-not_sent_example :
    (refused_send.1.dispatched ≡ 0) ⊎ (refused_by_server refusing.exchange ≡ true)
unfolding sending
send_with_options-not_sent_example =
    send_with_options-not_sent toy refusing false "t" "hello" "c" "" zero_options start
      (Errors.refusal Errors.invalid_params) false refl

-- The refused message is reported as not sent, after one dispatch, and is prepared again.
send_with_options_test : refused_send ≡ (
  err (Errors.not_sent (Errors.refusal Errors.invalid_params) false),
  record { durable = holding (record attempt { options_digest = "" }); events = 6; dispatched = 1 },
)
unfolding sending
send_with_options_test = refl

-- A send recorded for no client identity: no later transaction opens the ledger.
blank_client_test :
    load_queue_ledger toy (
      step toy
        (turn_of (record_send "t" "" "hello" "" false zero_options digest_of_options none))
        empty_ledger)
    ≡ err Errors.invalid_send_attempt
unfolding program
blank_client_test = refl

abbrev hello : Submission
hello = record {
  id = "q-1";
  input = record { kind = "text"; text = "hello" } ∷ [];
  client_user_message_id = "c";
}

-- The App Server adds the message to its queue, and deletes it when asked.
abbrev queueing : QueueRequests
queueing = record {
  policy = ok tt;
  applied = ok tt;
  resumed = ok tt;
  added = ok hello;
  deleted = ok true;
  started = err Errors.canceled;
  complete = λ id. ok tt;
}

-- The queue's list is read once, as the event after the look for an earlier deletion.
abbrev listing : Surroundings
listing = record refusing {
  queue = λ n. ok (record { entries = some (hello ∷ []); next_cursor = none }) ∷ [];
}

abbrev entry_of_hello : QueueEntry
entry_of_hello = record { id = "q-1"; text = "hello"; client_user_message_id = "c" }

queueing_flows : Unit {0}
unfolding sending Flows.queue_with_policy Flows.queue_unless Flows.after_add Flows.is_reply
    Flows.delete_queue_entry_with_completion Flows.read_queue Flows.find_entry
    Flows.delete_unless_absent Flows.delete_target Flows.after_delete Flows.clear
    Queue.queue_deletion_attempt Queue.record_queue_deletion_attempt
    Queue.clear_queue_deletion_and_attempt Queue.delegated_send Queue.bound_elsewhere Queue.put_back
    Queue.remove_found Queue.put_back_unchecked Messages.list_queue Messages.list_pages
    Messages.queue_page Call.look
queueing_flows = tt

delete_queue_entry_with_completion-complete_example : queueing.complete "q-1" ≡ ok tt
unfolding queueing_flows
delete_queue_entry_with_completion-complete_example =
    delete_queue_entry_with_completion-complete toy listing queueing "t" "q-1" start refl

-- The App Server starts a turn for the message.
abbrev accepting : Surroundings
accepting = record refusing { exchange = replied "turn-1" }

abbrev accepted_send : Outcome SendReceipt × World
accepted_send = send_with_options toy accepting false "t" "hello" "c" "" zero_options start

send_with_options-Vouched_example :
    ((receipt_of_turn "turn-1").client_user_message_id ≡ "c")
    × Proof toy accepting "t" "c" "hello"
        (run toy [] empty_ledger)
        accepted_send.1.durable
        (receipt_of_turn "turn-1")
unfolding sending Receipts.finish_accepted_send Send.wrong_answer
send_with_options-Vouched_example =
    send_with_options-Vouched toy accepting false "t" "hello" "c" "" zero_options start
      (receipt_of_turn "turn-1") refl

abbrev deletion : QueueDeletionAttempt
deletion = record { client_user_message_id = "c"; digest = digest_of_text }

-- The queue entry is gone, and history shows no turn that it started.
abbrev gone : Surroundings
gone = record refusing {
  items = λ n. ok (record { entries = some (reply ∷ []); next_cursor = none }) ∷ [];
}

reconcile_each-complete_example : queueing.complete "q-1" ≡ ok tt
unfolding queueing_flows reconcile_each Flows.finish_absent_queue_deletion Flows.finish_absent
    Flows.queue_contains_submission Messages.queue_deletion_was_started Messages.visit_deleted
reconcile_each-complete_example =
    reconcile_each-complete toy gone queueing "t" [] (("q-1", deletion) ∷ []) start refl "q-1"
      deletion (Memᴰ.head refl) refl
