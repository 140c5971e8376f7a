-- ===== src/Ledger/Sends.antt =====
-- The actions on send attempts: `sendStateWithOptions`, `recordSendAttemptWithReceipt`,
-- `OriginalSendOptions`, `claimSendSubmissionIf`, `markSendAccepted`, `isPreparedSendWithOptions` and
-- `DiscardPreparedSendWithOptions` of codex/client.go, and `restoreRejectedSendClaim` of
-- codex/send_delivery.go.
use mathlib.Core.Option
use codex_web.Common.{String, Bool, true, false, not, ◌&&◌, Option, none, some, ◌==◌, if◌then◌else◌}
use codex_web.Errors
use codex_web.Errors.{Outcome, ok, err, panic}
use codex_web.Library.{Library}
use codex_web.ThreadMap.{ThreadMap, find, ensure, assign, remove, prune}
use codex_web.TurnOptions.{
  TurnOptions, zero_options, zero_turn_options_digest, effective_turn_options_digest,
  persisted_turn_options_digest,
}
use codex_web.Ledger.Types.{
  prepared, submitting, accepted, SendAttempt, SendReceipt, Ledger, Action, is_prepared,
  is_submitting, is_accepted, finish, with_sends,
}

unfoldable pub bool_eq : Bool → Bool → Bool
bool_eq true b = b
bool_eq false b = not b

pub record SendLookup : Type 0 where
  pub attempt : Option SendAttempt
  pub queued : Bool

unfoldable pub is_queued : String → String → Ledger → Bool
is_queued thread client l = elim (find thread client l.queue_attempts) [
  | none ↦ false
  | some digest ↦ not (digest == "")
]

-- The error branch of `recordSendAttemptWithReceipt`: the attempt that was there is put back, or the
-- new one is removed, and an empty inner map is dropped.
unfoldable pub undo_record :
    String → String → Option SendAttempt → ThreadMap SendAttempt → Option (ThreadMap SendAttempt)
undo_record thread client none sends = some (prune thread (remove thread client sends))
undo_record thread client (some old) sends =
    Option.map (prune thread) (assign thread client old sends)

abbrev pub sends_of : Ledger → ThreadMap SendAttempt → Ledger
sends_of l m = record l { send_attempts = m }

-- The write of a new attempt; the maps of `s` hold one for the thread.
unfoldable pub store_attempt :
    String → String → SendAttempt → Option SendAttempt → Action (Unit {0})
store_attempt thread client attempt existing w s =
    elim (assign thread client attempt s.memory.send_attempts) [
      | none ↦ (panic, s)
      | some sends ↦
          finish w (with_sends s sends)
            (Option.map (sends_of s.memory) (undo_record thread client existing sends)) tt
    ]

-- The write of a changed attempt: on an error `previous` is put back.
unfoldable pub replace_attempt : String → String → SendAttempt → SendAttempt → Action (Unit {0})
replace_attempt thread client previous attempt w s =
    elim (assign thread client attempt s.memory.send_attempts) [
      | none ↦ (panic, s)
      | some sends ↦
          finish w (with_sends s sends)
            (Option.map (sends_of s.memory) (assign thread client previous sends)) tt
    ]

unfoldable pub is_accepted_attempt : Option SendAttempt → Bool
is_accepted_attempt none = false
is_accepted_attempt (some attempt) = is_accepted attempt.state

unfoldable pub accepted_elsewhere : Option SendAttempt → String → Bool
accepted_elsewhere none turn = false
accepted_elsewhere (some attempt) turn = is_accepted attempt.state && not (attempt.turn_id == turn)

-- The receipt that history proves is for this message, in a turn that does not contradict the ledger.
unfoldable pub receipt_fits : SendReceipt → String → Bool → Option SendAttempt → Bool
receipt_fits receipt client steered existing =
    receipt.client_user_message_id == client
    && not (receipt.turn_id == "")
    && bool_eq receipt.steered steered
    && not (accepted_elsewhere existing receipt.turn_id)

abbrev pub accept_with : SendAttempt → String → SendAttempt
accept_with attempt turn = record attempt { state = accepted; turn_id = turn }

-- The part of `recordSendAttemptWithReceipt` after the identity check; `existing` is the attempt found.
unfoldable pub record_with_receipt :
    String → String → SendAttempt → Option SendAttempt → Option SendReceipt → Action (Unit {0})
record_with_receipt thread client attempt existing none w s =
    store_attempt thread client attempt existing w
      (with_sends s (ensure thread s.memory.send_attempts))
record_with_receipt thread client attempt existing (some receipt) w s =
    let ensured = with_sends s (ensure thread s.memory.send_attempts) in
    if receipt_fits receipt client attempt.steered existing
    then (if is_accepted_attempt existing
        then (ok tt, ensured)
        else store_attempt thread client (accept_with attempt receipt.turn_id) existing w ensured)
    else (err Errors.receipt_mismatch, ensured)

module _ (lib : Library) where
  unfoldable pub queue_text_digest : String → String
  queue_text_digest text = lib.sha256_hex text

  -- The attempt was made for this text, context and options.
  unfoldable pub same_action : SendAttempt → String → String → String → Bool
  same_action attempt text context options_digest =
      attempt.digest == queue_text_digest text
      && attempt.context == context
      && effective_turn_options_digest lib attempt.options_digest == options_digest

  unfoldable pub send_state_with_options :
      String → String → String → String → String → Action SendLookup
  send_state_with_options thread client text context options_digest w s =
      elim (find thread client s.memory.send_attempts) [
        | none ↦ (ok (record { attempt = none; queued = is_queued thread client s.memory }), s)
        | some attempt ↦
            if same_action attempt text context options_digest
            then (
              ok (record { attempt = some attempt; queued = is_queued thread client s.memory }),
              s,
            )
            else (err Errors.identity_reused, s)
      ]

  -- The record of a send before it is submitted.
  unfoldable pub new_attempt : String → String → Bool → TurnOptions → String → SendAttempt
  new_attempt text context steered options options_digest = record {
    admission_id = "";
    digest = queue_text_digest text;
    state = prepared;
    context = context;
    options_digest = persisted_turn_options_digest lib options_digest;
    options = if options_digest == zero_turn_options_digest lib then none else some options;
    steered = steered;
    turn_id = "";
  }

  unfoldable pub record_send_attempt_with_receipt :
      String
      → String
      → String
      → String
      → Bool
      → TurnOptions
      → String
      → Option SendReceipt
      → Action (Unit {0})
  record_send_attempt_with_receipt thread client text context steered options options_digest receipt
        w s =
      let attempt = new_attempt text context steered options options_digest in
      elim (find thread client s.memory.send_attempts) [
        | none ↦ record_with_receipt thread client attempt none receipt w s
        | some existing ↦
            if same_action existing text context options_digest && bool_eq existing.steered steered
            then (elim receipt [
              | none ↦ (ok tt, s)
              | some proof ↦
                  record_with_receipt thread client attempt (some existing) (some proof) w s
            ])
            else (err Errors.identity_reused, s)
      ]

  -- `none` is "not found"
  unfoldable pub original_send_options :
      String → String → String → String → Action (Option TurnOptions)
  original_send_options thread text client context w s =
      elim (find thread client s.memory.send_attempts) [
        | none ↦ (ok none, s)
        | some attempt ↦
            if attempt.digest == queue_text_digest text && attempt.context == context
            then (elim attempt.options [
              | some options ↦ (ok (some options), s)
              | none ↦
                  if effective_turn_options_digest lib attempt.options_digest
                    == zero_turn_options_digest lib
                  then (ok (some zero_options), s)
                  else (err Errors.options_unavailable, s)
            ])
            else (err Errors.identity_reused, s)
      ]

  -- `matches` of `claimSendSubmissionExact`
  unfoldable pub matches_exactly : String → String → String → Bool → SendAttempt → Bool
  matches_exactly text context options_digest steered attempt =
      same_action attempt text context options_digest && bool_eq attempt.steered steered

  unfoldable pub is_prepared_send_with_options :
      String → String → String → String → String → Action Bool
  is_prepared_send_with_options thread text client context options_digest w s =
      elim (find thread client s.memory.send_attempts) [
        | none ↦ (ok false, s)
        | some attempt ↦
            if same_action attempt text context options_digest
            then (
              ok (
                  is_prepared attempt.state && elim (find thread client s.memory.queue_attempts) [
                    | none ↦ true
                    | some _ ↦ false
                  ]),
              s,
            )
            else (err Errors.identity_reused, s)
      ]

  -- `true`: the attempt is retired
  unfoldable pub discard_prepared_send_with_options :
      String → String → String → String → String → Action Bool
  discard_prepared_send_with_options thread text client context options_digest w s =
      elim (find thread client s.memory.send_attempts) [
        | none ↦ (ok true, s)
        | some attempt ↦
            if same_action attempt text context options_digest
            then (if is_prepared attempt.state && not (is_queued thread client s.memory)
                then (let sends = prune thread (remove thread client s.memory.send_attempts) in
                    finish w (with_sends s sends)
                      (Option.map (sends_of s.memory)
                        (assign thread client attempt (ensure thread sends)))
                      true)
                else (ok false, s))
            else (err Errors.identity_reused, s)
      ]

-- `claim` is the fresh name of the claim (`randomActivityNamespace`).
unfoldable pub claim_send_submission_if :
    String → String → String → (SendAttempt → Bool) → Action (Unit {0})
claim_send_submission_if thread client claim matches w s =
    elim (find thread client s.memory.send_attempts) [
      | none ↦ (err Errors.attempt_disappeared, s)
      | some attempt ↦
          if matches attempt
          then (if is_prepared attempt.state && not (is_queued thread client s.memory)
              then replace_attempt thread client attempt
                  (record attempt { state = submitting; admission_id = claim }) w s
              else (err Errors.admission_changed, s))
          else (err Errors.identity_changed_before_write, s)
    ]

unfoldable pub mark_send_accepted : String → String → SendReceipt → Action (Unit {0})
mark_send_accepted thread client receipt w s = elim (find thread client s.memory.send_attempts) [
  | none ↦ (err Errors.attempt_disappeared, s)
  | some attempt ↦
      if not (receipt.turn_id == "")
        && receipt.client_user_message_id == client
        && bool_eq receipt.steered attempt.steered
      then (if is_accepted attempt.state
          then (if attempt.turn_id == receipt.turn_id
              then (ok tt, s)
              else (err Errors.accepted_by_another_turn, s))
          else (if is_submitting attempt.state
              then replace_attempt thread client attempt (accept_with attempt receipt.turn_id) w s
              else (err Errors.accepted_before_submission, s)))
      else (err Errors.receipt_mismatch, s)
]

-- `database`: `SubmissionDatabasePath` is set, and claims are stored.
unfoldable pub restore_rejected_send_claim : Bool → String → String → String → Action (Unit {0})
restore_rejected_send_claim database thread client claim w s =
    elim (find thread client s.memory.send_attempts) [
      | none ↦ (err Errors.rejected_attempt_changed, s)
      | some attempt ↦
          if is_submitting attempt.state
            && not (database && not (claim == "") && not (attempt.admission_id == claim))
          then replace_attempt thread client attempt
              (record attempt { state = prepared; admission_id = "" }) w s
          else (err Errors.rejected_attempt_changed, s)
    ]
