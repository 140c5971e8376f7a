-- ===== src/Delivery/Receipts.antt =====
-- How a delivery is reconciled with the ledger and the thread's history: `reconcileSend`,
-- `waitForSentByClientID` and `finishAcceptedSend` of codex/client.go, and codex/send_delivery.go.
use Prim.Native.Nat.{◌%◌}
use codex_web.Common.{
  String, ℕ, zero, suc, Bool, true, false, not, ◌&&◌, ◌||◌, Option, none, some, nat_eq,
  if◌then◌else◌,
}
use codex_web.Errors
use codex_web.Errors.{
  Error, RefusalCode, invalid_request, method_not_found, invalid_params, other_code, Outcome, ok,
  err, panic,
}
use codex_web.Library.{Library}
use codex_web.Ledger.Types.{
  prepared, submitting, accepted, other, SendAttempt, SendReceipt, is_prepared,
}
use codex_web.Ledger.Sends.{
  SendLookup, send_state_with_options, mark_send_accepted, restore_rejected_send_claim,
}
use codex_web.History.Messages.{sent_by_client_id}
use codex_web.Delivery.Call.{
  Surroundings, Call, ◌>>=◌, ◌>>◌, done, fail, caught, on_error, transact, look,
}

-- `errors.As(err, &transport)` and the other tests of `retryableDeliveryError`
unfoldable pub retryable_delivery_error : Error → Bool
retryable_delivery_error (Errors.transport e) = true
retryable_delivery_error Errors.canceled = true
retryable_delivery_error Errors.deadline_exceeded = true
retryable_delivery_error (Errors.sqlite code) = nat_eq (code % 256) 5 || nat_eq (code % 256) 6
retryable_delivery_error (Errors.unwritten e) = retryable_delivery_error e
retryable_delivery_error (Errors.unknown_outcome e) = retryable_delivery_error e
retryable_delivery_error (Errors.wrapping e) = retryable_delivery_error e
retryable_delivery_error (Errors.not_sent e _) = retryable_delivery_error e
retryable_delivery_error (Errors.joined e f) =
    retryable_delivery_error e || retryable_delivery_error f
retryable_delivery_error _ = false

-- `errors.As(err, &unwritten)`
unfoldable pub is_unwritten : Error → Bool
is_unwritten (Errors.unwritten e) = true
is_unwritten (Errors.transport e) = is_unwritten e
is_unwritten (Errors.unknown_outcome e) = is_unwritten e
is_unwritten (Errors.wrapping e) = is_unwritten e
is_unwritten (Errors.not_sent e _) = is_unwritten e
is_unwritten (Errors.joined e f) = is_unwritten e || is_unwritten f
is_unwritten _ = false

unfoldable pub or_else : Option RefusalCode → Option RefusalCode → Option RefusalCode
or_else none code = code
or_else (some code) _ = some code

-- `errors.As(err, &refusal)`: the first refusal in the error's tree
unfoldable pub first_refusal : Error → Option RefusalCode
first_refusal (Errors.refusal code) = some code
first_refusal (Errors.transport e) = first_refusal e
first_refusal (Errors.unwritten e) = first_refusal e
first_refusal (Errors.unknown_outcome e) = first_refusal e
first_refusal (Errors.wrapping e) = first_refusal e
first_refusal (Errors.not_sent e _) = first_refusal e
first_refusal (Errors.joined e f) = or_else (first_refusal e) (first_refusal f)
first_refusal _ = none

unfoldable pub refuses_input : Option RefusalCode → Bool
refuses_input (some invalid_request) = true
refuses_input (some method_not_found) = true
refuses_input (some invalid_params) = true
refuses_input _ = false

abbrev pub sent_in : String → String → Bool → SendReceipt
sent_in turn client steered = record {
  queued_submission_id = "";
  turn_id = turn;
  client_user_message_id = client;
  steered = steered;
}

module _ (lib : Library) (around : Surroundings) (thread client : String) where
  unfoldable pub finish_accepted_send : SendReceipt → Call SendReceipt
  finish_accepted_send receipt = do
    on_error
        (transact lib around (mark_send_accepted thread receipt.client_user_message_id receipt))
        (λ e. fail (Errors.unknown_outcome (Errors.wrapping e)))
    done receipt

  module _ (text : String) where
    unfoldable pub sent_in_history : Call (Option SendReceipt)
    sent_in_history = look lib around (λ _ items. sent_by_client_id client text items)

    unfoldable pub pause : Call (Unit {0})
    pause world = elim (around.interrupted world.events) [
      | some e ↦ (err e, world)
      | none ↦ (ok tt, world)
    ]

    -- At most so many looks, the first at once.
    unfoldable pub wait_for_sent : ℕ → Call (Option SendReceipt)
    wait_for_sent zero = done none
    wait_for_sent (suc zero) = sent_in_history
    wait_for_sent (suc (suc n)) =
        let later = wait_for_sent (suc n) in
        do
          receipt ← sent_in_history
          elim receipt [ some found ↦ done (some found) | none ↦ pause >> later ]

    unfoldable pub reconcile_submitting : Bool → Option SendReceipt → Call (Option SendReceipt)
    reconcile_submitting steered none = fail (Errors.unknown_outcome Errors.not_in_history)
    reconcile_submitting steered (some found) = do
      receipt ← finish_accepted_send (record found { steered = steered })
      done (some receipt)

    -- `none` is "not accepted"; an attempt that is not there counts as one with no state.
    unfoldable pub reconcile_send : Option SendAttempt → Call (Option SendReceipt)
    reconcile_send none = done none
    reconcile_send (some attempt) = elim attempt.state [
      | accepted ↦ done (some (sent_in attempt.turn_id client attempt.steered))
      | submitting ↦ sent_in_history >>= reconcile_submitting attempt.steered
      | prepared ↦ done none
      | other _ ↦ done none
    ]

    -- What `unwrittenSendOutcome` makes of reconciling the attempt it found.
    unfoldable pub reconciled_outcome : Error → Outcome (Option SendReceipt) → Call SendReceipt
    reconciled_outcome e (ok (some receipt)) = done receipt
    reconciled_outcome e (ok none) = fail (Errors.unknown_outcome e)
    reconciled_outcome e (err e') = fail (Errors.unknown_outcome e')
    reconciled_outcome e panic = known_panic
      where
        known_panic : Call SendReceipt
        known_panic world = (panic, world)

    unfoldable pub surely_unsent : Bool → SendLookup → Bool
    surely_unsent allow_absent state =
        not state.queued
        && elim state.attempt [ some attempt ↦ is_prepared attempt.state | none ↦ allow_absent ]

    unfoldable pub outcome_of : Bool → Error → SendLookup → Call SendReceipt
    outcome_of allow_absent e state =
        if surely_unsent allow_absent state
        then fail (Errors.not_sent e (retryable_delivery_error e))
        else (elim state.attempt [
          | none ↦ fail (Errors.unknown_outcome e)
          | some attempt ↦
              if state.queued
              then fail (Errors.unknown_outcome e)
              else (caught (reconcile_send (some attempt)) >>= reconciled_outcome e)
        ])

    unfoldable pub unwritten_send_outcome : String → String → Bool → Error → Call SendReceipt
    unwritten_send_outcome context options_digest allow_absent e = do
      state ←
          on_error
            (transact lib around
              (send_state_with_options lib thread client text context options_digest))
            (λ e. fail (Errors.unknown_outcome e))
      outcome_of allow_absent e state

    -- The error with that of the failed restoration.
    unfoldable pub with_restoration : Error → Outcome (Unit {0}) → Error
    with_restoration e (err e') = Errors.joined e e'
    with_restoration e _ = e

    unfoldable pub restore_unwritten_send_outcome :
        Bool → String → String → String → Error → Call SendReceipt
    restore_unwritten_send_outcome database context options_digest claim e = do
      restored ←
          caught (transact lib around (restore_rejected_send_claim database thread client claim))
      unwritten_send_outcome context options_digest false (with_restoration e restored)
