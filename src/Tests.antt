-- ===== src/Tests.antt =====
-- The theorems at concrete ledgers, surroundings and histories, and runs of the model. `toy` stands in
-- for the functions of Go's library.
pub mod Delivery
pub mod Database
pub mod Pages
pub mod Prompts
use codex_web.Common.{
  String, ◌≡◌, ◌≢◌, refl, ◌⊎◌, Bool, true, false, none, some, List, [], ◌∷◌, ◌==◌, if◌then◌else◌,
}
use codex_web.Errors
use codex_web.Errors.{Outcome, ok, err, panic}
use codex_web.GoMap.{lookup, insert, delete, is_empty}
use codex_web.Library.{Library}
use codex_web.ThreadMap.{find, ensure, assign, remove, prune}
use codex_web.TurnOptions
use codex_web.TurnOptions.{zero_options, zero_turn_options_digest}
use codex_web.Ledger.Types.{
  SendAttempt, SendReceipt, Ledger, empty_ledger, Store, written, not_written, prepared, submitting,
  accepted,
}
use codex_web.Ledger.Types
use codex_web.Ledger.Sends
use codex_web.Ledger.Sends.{matches_exactly}
use codex_web.Ledger.Queue
use codex_web.Ledger.Load
use codex_web.Ledger.Load.{opened, load_queue_ledger}
use codex_web.Ledger.Requests.{
  Turn, perform, step, run, record_send, claim_send, accept_send, record_queue, queue_state,
}
use codex_web.Ledger.Atomic.{Same}
use codex_web.Ledger.Atomic.Transactions.{requested, transaction-no_panic, perform-undone}
use codex_web.Ledger.Moves.{at, Lands}
use codex_web.Ledger.Moves
use codex_web.Ledger.Moves.Sends.{Moves}
use codex_web.Ledger.Moves.Requests.{retires, perform-Moves}
use codex_web.Ledger.Moves.Safety.{
  in_submission, delivered_twice, run-delivered_twice, StaysAccepted, step-StaysAccepted,
}
use codex_web.Ledger.Loaded.{IsSend, load_queue_ledger-IsSend}
use codex_web.Ledger.Claims.{claim_transaction, claim-excludes}
use codex_web.History.Walk
use codex_web.History.Walk.{ThreadItemEntry, Page}
use codex_web.History.Messages
use codex_web.History.Messages.{Submission}
use codex_web.Ledger.Types.{QueueEntry}
use codex_web.History.Messages.{
  Answers, is_message, user_message_text, sent_by_client_id, started_by_client_id,
}
use codex_web.History.Evidence.{ShowsMessage, sent_by_client_id-shows, started_by_client_id-shows}
use codex_web.Delivery.Call
use codex_web.Delivery.Call.{Surroundings, World, failed}
use codex_web.Delivery.Receipts
use codex_web.Delivery.Send
use codex_web.Delivery.Send.{send_with_options}
use codex_web.Delivery.Queue as Flows
use codex_web.Delivery.Queue.{QueueRequests}
use codex_web.Delivery.Laws.Deletion.{delete_queue_entry_with_completion-complete}
use codex_web.Delivery.Laws.Settle.{refused_by_server}
use codex_web.Delivery.Laws.Dispatch.{send_with_options-once, send_with_options-not_sent}

abbrev digest_of_text : String
digest_of_text = "aaaaaaaaaaaaaaaaaaaaaaaaaaaaaaaaaaaaaaaaaaaaaaaaaaaaaaaaaaaaaaaa"

abbrev digest_of_options : String
digest_of_options = "0123456789abcdef0123456789abcdef0123456789abcdef0123456789abcdef"

abbrev toy : Library
toy = record {
  sha256_hex = λ s. if s == "{}" then digest_of_options else digest_of_text;
  marshal_identity = λ _. "{}";
  trim_space = λ s. s;
  clean = λ s. s;
}

abbrev attempt : SendAttempt
attempt = record {
  admission_id = "";
  digest = digest_of_text;
  state = prepared;
  context = "";
  options_digest = "";
  options = none;
  steered = false;
  turn_id = "";
}

-- The ledger that holds one send of "hello" on the thread "t" by the client identity "c".
abbrev holding : SendAttempt → Ledger
holding x = record empty_ledger { send_attempts = ("t", ("c", x) ∷ []) ∷ [] }

abbrev turn_of : codex_web.Ledger.Requests.Request → Turn
turn_of request = record { opening = opened; write = written; request = request }

abbrev history : List Turn
history =
    turn_of (record_send "t" "c" "hello" "" false zero_options digest_of_options none)
    ∷ turn_of (claim_send "t" "c" "claim" "hello" "" digest_of_options false)
    ∷ turn_of (record_queue "t" "c" "hello")
    ∷ []

program : Unit {0}
unfolding lookup insert delete is_empty find ensure assign remove prune step run perform
    Sends.send_state_with_options Sends.same_action Sends.is_queued
    Sends.record_send_attempt_with_receipt Sends.record_with_receipt Sends.store_attempt
    Sends.undo_record Sends.new_attempt Sends.queue_text_digest Sends.bool_eq Sends.matches_exactly
    Sends.claim_send_submission_if Sends.replace_attempt Sends.mark_send_accepted
    Sends.restore_rejected_send_claim Types.is_prepared Types.is_submitting Types.is_accepted
    Queue.queue_attempt Queue.record_queue_attempt Queue.may_queue_over Load.valid_submission_digest
    Load.all_entries Load.valid_queue_attempt Load.valid_deletion_attempt Load.valid_send_attempt
    Load.valid_send_attempt_state Load.valid_send_state Load.valid_operation Load.check_table
    Load.check_operations Load.valid_send_options Load.check_attempts Load.check_sends
    Load.map_entries Load.options_have_digest Load.read_attempt Load.load_queue_ledger
    Load.queue_ledger_transaction TurnOptions.zero_turn_options_digest
    TurnOptions.effective_turn_options_digest TurnOptions.persisted_turn_options_digest
    TurnOptions.normalize_turn_options in_submission delivered_twice Moves.counts
    Sends.is_accepted_attempt
program = tt

-- Of the three turns the last, which would queue the message, is refused.
history_test :
    find "t" "c" (run toy history empty_ledger).send_attempts
    ≡ some (record attempt { state = submitting; admission_id = "claim" })
unfolding program
history_test = refl

run-delivered_twice_example : delivered_twice (at "t" "c" (run toy history empty_ledger)) ≡ false
unfolding program
run-delivered_twice_example = run-delivered_twice toy history empty_ledger (λ u d. refl) "t" "c"

abbrev matching : SendAttempt → Bool
matching = matches_exactly toy "hello" "" digest_of_options false

-- The second claim is that of another process, with a claim of its own name.
claim-excludes_example :
    (claim_transaction toy "t" "c" opened written "b" matching
      (claim_transaction toy "t" "c" opened written "a" matching (holding attempt)).1).0
    ≢ ok tt
unfolding program
claim-excludes_example =
    claim-excludes toy "t" "c" opened opened written written "a" "b" matching matching
      (holding attempt) refl

abbrev taken : SendAttempt
taken = record attempt { state = accepted; turn_id = "turn-1" }

abbrev receipt_of_turn : String → SendReceipt
receipt_of_turn turn = record {
  queued_submission_id = "";
  turn_id = turn;
  client_user_message_id = "c";
  steered = false;
}

-- A second receipt, of another turn, changes nothing.
step-StaysAccepted_example : StaysAccepted toy taken (
    find "t" "c"
      (step toy
        (turn_of (accept_send "t" "c" (receipt_of_turn "turn-2")))
        (holding taken)).send_attempts)
unfolding program
step-StaysAccepted_example =
    step-StaysAccepted toy (turn_of (accept_send "t" "c" (receipt_of_turn "turn-2")))
      (holding taken) "t" "c" taken refl refl

abbrev at_rest : Ledger → Store
at_rest l = record { memory = l; durable = l }

abbrev claim_request : codex_web.Ledger.Requests.Request
claim_request = claim_send "t" "c" "claim" "hello" "" digest_of_options false

transaction-no_panic_example :
    (requested toy written claim_request opened (holding attempt)).0 ≢ panic
transaction-no_panic_example =
    transaction-no_panic toy written claim_request opened (holding attempt)

perform-undone_example :
    Same
      (perform toy claim_request not_written (at_rest (holding attempt))).1.memory
      (holding attempt)
unfolding program
perform-undone_example =
    perform-undone toy not_written (at_rest (holding attempt)) claim_request (λ k. λ h. cc) refl

perform-Moves_example :
    Lands
      (at_rest (holding attempt))
      (Moves (retires claim_request) (holding attempt))
      (perform toy claim_request written (at_rest (holding attempt)))
perform-Moves_example = perform-Moves toy written (at_rest (holding attempt)) claim_request

-- The stored digest of no options is read as an omitted one.
load_queue_ledger-IsSend_example : IsSend toy "t" "c" taken
unfolding program
load_queue_ledger-IsSend_example =
    load_queue_ledger-IsSend toy
      (holding (record taken { admission_id = "a"; options_digest = digest_of_options }))
      (holding taken) "t" "c" taken refl refl

-- A ledger with a send whose options do not have the digest stored with it.
other_options_test :
    load_queue_ledger toy
      (holding (record taken { options = some zero_options; options_digest = digest_of_text }))
    ≡ err Errors.invalid_send_options
unfolding program
other_options_test = refl
