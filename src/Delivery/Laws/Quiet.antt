-- ===== src/Delivery/Laws/Quiet.antt =====
-- The calls that hand no input to the writer: all but the request itself.
use codex_web.Common.{
  String, ℕ, zero, suc, ◌≡◌, refl, Bool, false, Option, none, some, arith, inl, inr,
}
use codex_web.Errors.{Error, Outcome-cases}
use codex_web.Library.{Library}
use codex_web.Ledger.Types.{SendAttempt, SendReceipt}
use codex_web.Ledger.Sends.{send_state_with_options, restore_rejected_send_claim}
use codex_web.Delivery.Call.{Surroundings, World, Call, caught, transact, look}
use codex_web.Delivery.Receipts.{
  finish_accepted_send, sent_in_history, pause, wait_for_sent, reconcile_submitting, reconcile_send,
  reconciled_outcome, outcome_of, unwritten_send_outcome, with_restoration,
  restore_unwritten_send_outcome,
}

abbrev pub Quiet {ℓ} : {A : Type ℓ} → Call A → Type 0
Quiet call = (world : World) → (call world).1.dispatched ≡ world.dispatched

module _ (lib : Library) (around : Surroundings) where
  module _ (thread client : String) where
    pub finish_accepted_send-Quiet :
        (receipt : SendReceipt) → Quiet (finish_accepted_send lib around thread client receipt)
    unfolding finish_accepted_send transact
    finish_accepted_send-Quiet receipt world = ground arith

    module _ (text : String) where
      sent_in_history-Quiet : Quiet (sent_in_history lib around thread client text)
      unfolding sent_in_history look
      sent_in_history-Quiet world = refl

      pause-Quiet : Quiet (pause lib around thread client text)
      unfolding pause
      pause-Quiet world = ground arith

      pub wait_for_sent-Quiet : (n : ℕ) → Quiet (wait_for_sent lib around thread client text n)
      unfolding wait_for_sent
      wait_for_sent-Quiet zero world = refl
      wait_for_sent-Quiet (suc zero) world = sent_in_history-Quiet world
      wait_for_sent-Quiet (suc (suc n)) world =
          let first = sent_in_history lib around thread client text world in
          let paused = pause lib around thread client text first.1 in
          ground (
            arith,
            sent_in_history-Quiet world,
            pause-Quiet first.1,
            wait_for_sent-Quiet (suc n) paused.1,
          )

      pub reconcile_send-Quiet :
          (attempt : Option SendAttempt)
          → Quiet (reconcile_send lib around thread client text attempt)
      unfolding reconcile_send reconcile_submitting
      reconcile_send-Quiet none world = refl
      reconcile_send-Quiet (some attempt) world =
          let looked = sent_in_history lib around thread client text world in
          elim (Outcome-cases looked.0) [
            | inl (none, e) ↦ ground (arith, e, sent_in_history-Quiet world)
            | inl (some found, e) ↦ ground (
              arith,
              e,
              sent_in_history-Quiet world,
              finish_accepted_send-Quiet (record found { steered = attempt.steered }) looked.1,
            )
            | inr e ↦ ground (arith, e, sent_in_history-Quiet world)
          ]

      pub unwritten_send_outcome-Quiet :
          (context digest : String) (allow : Bool) (e : Error)
          → Quiet (unwritten_send_outcome lib around thread client text context digest allow e)
      unfolding unwritten_send_outcome outcome_of reconciled_outcome transact
      unwritten_send_outcome-Quiet context digest allow e world =
          let read =
            transact lib around (send_state_with_options lib thread client text context digest)
              world in
          elim (Outcome-cases read.0) [
            | inl (state, h) ↦ ground (arith, h, reconcile_send-Quiet state.attempt read.1)
            | inr h ↦ ground (arith, h)
          ]

      pub restore_unwritten_send_outcome-Quiet :
          (database : Bool) (context digest claim : String) (e : Error)
          → Quiet (
              restore_unwritten_send_outcome lib around thread client text database context digest
                claim e)
      unfolding restore_unwritten_send_outcome transact
      restore_unwritten_send_outcome-Quiet database context digest claim e world =
          let restored =
            caught (transact lib around (restore_rejected_send_claim database thread client claim))
              world in
          elim (Outcome-cases restored.0) [
            | inl (r, h) ↦ ground (
              arith,
              h,
              unwritten_send_outcome-Quiet context digest false
                  (with_restoration lib around thread client text e r) restored.1,
            )
            | inr h ↦ ground (arith, h)
          ]
