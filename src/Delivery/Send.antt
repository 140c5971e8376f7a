-- ===== src/Delivery/Send.antt =====
-- `SendWithOptions`, `ReconcileSendWithOptions`, `SendAttemptedWithOptions` and `ActiveTurnID` of
-- codex/client.go. Of the requests only what decides the outcome is kept, not their parameters.
use codex_web.Common.{
  String, Bool, true, false, not, ◌||◌, Option, none, some, List, [], ◌∷◌, ◌==◌, if◌then◌else◌,
}
use codex_web.Errors
use codex_web.Errors.{Error, Outcome, ok, err, panic}
use codex_web.Library.{Library}
use codex_web.TurnOptions.{TurnOptions, normalize_turn_options}
use codex_web.Ledger.Types.{SendAttempt, SendReceipt, QueueEntry}
use codex_web.Ledger.Sends.{
  bool_eq, SendLookup, send_state_with_options, record_send_attempt_with_receipt, matches_exactly,
  claim_send_submission_if,
}
use codex_web.Ledger.Queue.{queue_attempt}
use codex_web.History.Messages.{sent_by_client_id, queued_or_started_by_client_id}
use codex_web.Delivery.Call.{
  TurnStatus, Surroundings, Call, Requested, not_admitted, not_answered, answered, ◌>>=◌, ◌>>◌,
  done, fail, known, caught, on_error, transact, look, request_with_admission,
}
use codex_web.Delivery.Receipts.{
  is_unwritten, first_refusal, refuses_input, sent_in, finish_accepted_send, wait_for_sent,
  reconcile_send, unwritten_send_outcome, restore_unwritten_send_outcome,
}

-- `ActiveTurnID`: "" where no turn is in progress.
unfoldable pub active_turn_id : Outcome (Option (List TurnStatus)) → Outcome String
active_turn_id (err e) = err e
active_turn_id panic = panic
active_turn_id (ok none) = err Errors.no_data
active_turn_id (ok (some (turn ∷ []))) = ok (if turn.status == "inProgress" then turn.id else "")
active_turn_id (ok (some _)) = ok ""

-- Whether the attempt found does not suit the thread's state.
unfoldable pub steers_otherwise : Bool → Option SendAttempt → Bool
steers_otherwise steered none = false
steers_otherwise steered (some attempt) = not (bool_eq attempt.steered steered)

module _ (lib : Library) (around : Surroundings) (database : Bool)
    (thread text client context : String) where
  unfoldable pub queued_receipt : Option QueueEntry → Call SendReceipt
  queued_receipt none = fail (Errors.unknown_outcome Errors.queued_outcome_unknown)
  queued_receipt (some entry) = done (record {
    queued_submission_id = entry.id;
    turn_id = "";
    client_user_message_id = client;
    steered = false;
  })

  unfoldable pub deliver_queued : Call SendReceipt
  deliver_queued =
      look lib around (λ queue items. queued_or_started_by_client_id client text queue items)
      >>= queued_receipt

  module _ (digest : String) where
    unfoldable pub admit : Bool → Call (Unit {0})
    admit steered = transact lib around (
        claim_send_submission_if thread client around.claim
          (matches_exactly lib text context digest steered))

    -- The end of `reconcile`, with what the wait for the message came to.
    unfoldable pub after_wait : Bool → Error → Outcome (Option SendReceipt) → Call SendReceipt
    after_wait steered e (ok (some found)) =
        finish_accepted_send lib around thread client (record found { steered = steered })
    after_wait steered e (ok none) = fail (Errors.unknown_outcome e)
    after_wait steered e (err _) = fail (Errors.unknown_outcome (Errors.wrapping e))
    after_wait steered e panic = known panic

    -- `reconcile` after admission
    unfoldable pub reconcile_unanswered : Bool → Error → Call SendReceipt
    reconcile_unanswered steered e =
        if is_unwritten e || refuses_input (first_refusal e)
        then restore_unwritten_send_outcome lib around thread client text database context digest
            around.claim e
        else (caught (wait_for_sent lib around thread client text 6) >>= after_wait steered e)

    -- The turn that answers is the one steered, or a new one.
    unfoldable pub wrong_answer : String → String → Option Error
    wrong_answer active turn =
        if active == ""
        then (if turn == "" then some Errors.no_turn else none)
        else (if turn == active then none else some Errors.wrong_turn)

    unfoldable pub settle : String → Requested → Call SendReceipt
    settle active (not_admitted e) =
        unwritten_send_outcome lib around thread client text context digest false e
    settle active (not_answered e) = reconcile_unanswered (not (active == "")) e
    settle active (answered turn) = elim (wrong_answer active turn) [
      | some e ↦ reconcile_unanswered (not (active == "")) e
      | none ↦
          finish_accepted_send lib around thread client (sent_in turn client (not (active == "")))
    ]

    unfoldable pub submit : TurnOptions → Option SendAttempt → String → Call SendReceipt
    submit options (some attempt) active = do
      requested ← request_with_admission lib around (admit (not (active == "")))
      settle active requested
    submit options none active = do
      on_error
          (transact lib around (
            record_send_attempt_with_receipt lib thread client text context (not (active == ""))
              options digest none))
          (λ e. fail (Errors.wrapping e))
      requested ← request_with_admission lib around (admit (not (active == "")))
      settle active requested

    unfoldable pub attempted_before : Option SendAttempt → Bool
    attempted_before none = false
    attempted_before (some _) = true

    unfoldable pub refuse_unwritten : Option SendAttempt → Error → Call SendReceipt
    refuse_unwritten attempt e =
        unwritten_send_outcome lib around thread client text context digest
          (not (attempted_before attempt)) e

    -- From the resumption of the thread on.
    unfoldable pub send_new : TurnOptions → Option SendAttempt → Call SendReceipt
    send_new options attempt = elim around.resumed [
      | err e ↦ refuse_unwritten attempt e
      | panic ↦ known panic
      | ok _ ↦ elim (active_turn_id around.turns) [
        | err e ↦ refuse_unwritten attempt e
        | panic ↦ known panic
        | ok active ↦
            if steers_otherwise (not (active == "")) attempt
            then refuse_unwritten attempt Errors.state_changed
            else submit options attempt active
      ]
    ]

    unfoldable pub send_unless :
        TurnOptions → Option SendAttempt → Option SendReceipt → Call SendReceipt
    send_unless options attempt (some receipt) = done receipt
    send_unless options attempt none = send_new options attempt

    -- What the ledger knows of the message: its attempt, and whether it is queued.
    unfoldable pub known_attempt : Call SendLookup
    known_attempt = do
      known_state ←
          transact lib around (send_state_with_options lib thread client text context digest)
      queued ← transact lib around (queue_attempt lib thread client text)
      done (record { attempt = known_state.attempt; queued = queued })

    unfoldable pub send_known : TurnOptions → SendLookup → Call SendReceipt
    send_known options state =
        if state.queued
        then deliver_queued
        else (reconcile_send lib around thread client text state.attempt
            >>= send_unless options state.attempt)

  unfoldable pub send_with_options : TurnOptions → Call SendReceipt
  send_with_options options = elim (normalize_turn_options lib options) [
    | err e ↦ fail e
    | panic ↦ known panic
    | ok stored ↦ do
      known around.thread_lock
      state ← known_attempt stored.digest
      send_known stored.digest options state
  ]

  unfoldable pub reconcile_known : SendLookup → Call (Option SendReceipt)
  reconcile_known state =
      if state.queued
      then (deliver_queued >>= λ receipt. done (some receipt))
      else reconcile_send lib around thread client text state.attempt

  unfoldable pub reconcile_send_with_options : TurnOptions → Call (Option SendReceipt)
  reconcile_send_with_options options = elim (normalize_turn_options lib options) [
    | err e ↦ fail e
    | panic ↦ known panic
    | ok stored ↦ do
      known around.thread_lock
      state ← known_attempt stored.digest
      reconcile_known state
  ]

  unfoldable pub record_found : TurnOptions → String → Option SendReceipt → Call Bool
  record_found options digest none = done false
  record_found options digest (some receipt) = do
    transact lib around (
        record_send_attempt_with_receipt lib thread client text context receipt.steered options
          digest (some receipt))
    done true

  unfoldable pub search_unless : TurnOptions → String → SendLookup → Call Bool
  search_unless options digest state = elim state.attempt [
    | some _ ↦ done true
    | none ↦
        look lib around (λ _ items. sent_by_client_id client text items)
        >>= record_found options digest
  ]

  unfoldable pub send_attempted_with_options : TurnOptions → Call Bool
  send_attempted_with_options options = elim (normalize_turn_options lib options) [
    | err e ↦ fail e
    | panic ↦ known panic
    | ok stored ↦ do
      state ←
          transact lib around (send_state_with_options lib thread client text context stored.digest)
      search_unless options stored.digest state
  ]
