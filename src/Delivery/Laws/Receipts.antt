-- ===== src/Delivery/Laws/Receipts.antt =====
-- What vouches for the receipt that a send returns (`SendWithOptions` of codex/client.go): on the paths that
-- reconcile an attempt with history and the ledger.
use mathlib.Core.List.{Memᴰ}
use codex_web.Common.{
  String, ℕ, zero, suc, ◌≡◌, refl, sym, ap, ◌∙◌, subst, ◌⊎◌, inl, inr, Bool, false, Option, none,
  some, List, arith, ◌==◌,
}
use codex_web.Errors.{Outcome, ok, Outcome-cases}
use codex_web.Library.{Library}
use codex_web.ThreadMap.{find}
use codex_web.Ledger.Types.{
  SendState, prepared, submitting, accepted, other, SendAttempt, SendReceipt, QueueEntry, Ledger,
}
use codex_web.Ledger.Sends.{queue_text_digest}
use codex_web.History.Messages.{list_queue}
use codex_web.History.Evidence.{ShowsMessage, sent_by_client_id-shows}
use codex_web.Delivery.Call.{Surroundings, World, replied, transact, look}
use codex_web.Delivery.Receipts.{
  sent_in, finish_accepted_send, sent_in_history, pause, wait_for_sent, reconcile_submitting,
  reconcile_send,
}

module _ (lib : Library) (around : Surroundings) (thread client text : String) where
  -- History shows the message that the receipt is for, in the turn that it names.
  abbrev pub InHistory : SendReceipt → Type 0
  InHistory receipt =
      (receipt.client_user_message_id ≡ client)
      × (n : ℕ) × (shows : ShowsMessage client text (around.items n)) × (receipt.turn_id
          ≡ shows.entry.turn_id)
      × ((receipt.turn_id == "") ≡ false)

  -- The ledger holds the message as accepted by the turn that the receipt names.
  pub record Accepts (receipt : SendReceipt) (l : Ledger) : Type 0 where
    pub attempt : SendAttempt
    pub found : find thread client l.send_attempts ≡ some attempt
    pub state : attempt.state ≡ accepted
    pub digest : attempt.digest ≡ queue_text_digest lib text
    pub turn : receipt.turn_id ≡ attempt.turn_id

  -- What vouches for a receipt. `first` is the ledger that the call finds, and `last` the one that it leaves.
  pub data Proof (first last : Ledger) (receipt : SendReceipt) : Type 0 where
    -- the App Server answered this call with the turn
    by_answer :
        around.exchange ≡ replied receipt.turn_id
        → (receipt.turn_id == "") ≡ false
        → Proof first last receipt
    by_history : InHistory receipt → Proof first last receipt
    by_ledger : Accepts receipt first ⊎ Accepts receipt last → Proof first last receipt
    -- a list of the queue had an entry of this identity and text
    by_queue :
        (n : ℕ) (entries : List QueueEntry) (entry : QueueEntry)
        → list_queue (around.queue n) ≡ ok entries
        → Memᴰ entry entries
        → entry.client_user_message_id ≡ client
        → entry.text ≡ text
        → receipt.queued_submission_id ≡ entry.id
        → Proof first last receipt
    -- the queued message has started, as history shows
    by_start :
        (n : ℕ) (shows : ShowsMessage client text (around.items n))
        → receipt.queued_submission_id ≡ shows.entry.id
        → Proof first last receipt

  -- A result whose receipt, where it has one, is the client's and vouched for.
  abbrev pub VouchedFor : Ledger → SendReceipt → Outcome SendReceipt × World → Type 0
  VouchedFor first receipt r =
      (receipt.client_user_message_id ≡ client) × Proof first r.1.durable receipt

  abbrev pub Vouched : Ledger → Outcome SendReceipt × World → Type 0
  Vouched first r = (receipt : SendReceipt) → r.0 ≡ ok receipt → VouchedFor first receipt r

  pub Vouched-same :
      (first : Ledger) (x y : Outcome SendReceipt × World)
      → x ≡ y
      → Vouched first y
      → Vouched first x
  Vouched-same first x y same good = subst (Vouched first) (sym same) good

  pub finish_accepted_send-same :
      (receipt : SendReceipt) (world : World) (r : SendReceipt)
      → (finish_accepted_send lib around thread client receipt world).0 ≡ ok r
      → receipt ≡ r
  unfolding finish_accepted_send transact
  finish_accepted_send-same receipt world r h = ground arith

  sent_in_history-shows :
      (world : World) (r : SendReceipt)
      → (sent_in_history lib around thread client text world).0 ≡ ok (some r)
      → InHistory r
  unfolding sent_in_history look
  sent_in_history-shows world r h =
      let (own, shows, turn, set) =
        sent_by_client_id-shows client text (around.items world.events) r h in
      (own, world.events, shows, turn, set)

  pub wait_for_sent-shows :
      (n : ℕ) (world : World) (r : SendReceipt)
      → (wait_for_sent lib around thread client text n world).0 ≡ ok (some r)
      → InHistory r
  unfolding wait_for_sent
  wait_for_sent-shows zero world r h = absurd (ground arith)
  wait_for_sent-shows (suc zero) world r h = sent_in_history-shows world r h
  wait_for_sent-shows (suc (suc n)) world r h =
      let first = sent_in_history lib around thread client text world in
      let paused = pause lib around thread client text first.1 in
      elim (Outcome-cases first.0) [
        | inl (some found, e) ↦
            let same : found ≡ r = ground (arith, e) in
            sent_in_history-shows world r (e ∙ ap (λ x. ok (some x)) same)
        | inl (none, e) ↦ elim (Outcome-cases paused.0) [
          | inl (_, p) ↦ wait_for_sent-shows (suc n) paused.1 r (ground (arith, e, p))
          | inr (inl (x, p)) ↦ absurd (ground (arith, e, p))
          | inr (inr p) ↦ absurd (ground (arith, e, p))
        ]
        | inr (inl (x, e)) ↦ absurd (ground (arith, e))
        | inr (inr e) ↦ absurd (ground (arith, e))
      ]

  -- What history shows of a message it shows of the receipt that is stored, too.
  pub InHistory-steered :
      (steered : Bool) (found r : SendReceipt)
      → record found { steered = steered } ≡ r
      → InHistory found
      → InHistory r
  InHistory-steered steered found r same (own, n, shows, turn, set) = (
    sym (ap (λ x. x.client_user_message_id) same) ∙ own,
    n,
    shows,
    sym (ap (λ x. x.turn_id) same) ∙ turn,
    sym (ap (λ x. x.turn_id == "") same) ∙ set,
  )

  -- A receipt of an attempt is that of its turn, where it is accepted, or is found in history.
  abbrev pub Reconciled : Option SendAttempt → World → World → SendReceipt → Type 0
  Reconciled attempt before after r =
      ((a : SendAttempt) × (attempt ≡ some a)
        × (a.state ≡ accepted)
        × (r ≡ sent_in a.turn_id client a.steered)
        × (after ≡ before))
      ⊎ InHistory r

  pub reconcile_send-Reconciled :
      (attempt : Option SendAttempt) (world : World) (r : SendReceipt)
      → (reconcile_send lib around thread client text attempt world).0 ≡ ok (some r)
      → Reconciled attempt world (reconcile_send lib around thread client text attempt world).1 r
  unfolding reconcile_send reconcile_submitting
  reconcile_send-Reconciled none world r h = absurd (ground arith)
  reconcile_send-Reconciled (some attempt) world r h = by_state attempt.state refl
    where
      by_state :
          (state : SendState)
          → attempt.state ≡ state
          → Reconciled
              (some attempt)
              world
              (reconcile_send lib around thread client text (some attempt) world).1
              r
      by_state accepted e = inl (attempt, refl, e, ground (arith, e), ground (arith, e))
      by_state prepared e = absurd (ground (arith, e))
      by_state (other _) e = absurd (ground (arith, e))
      by_state submitting e =
          let looked = sent_in_history lib around thread client text world in
          elim (Outcome-cases looked.0) [
            | inl (some found, f) ↦
                let stored = record found { steered = attempt.steered } in
                let finished = finish_accepted_send lib around thread client stored looked.1 in
                elim (Outcome-cases finished.0) [
                  | inl (x, g) ↦
                      let same : x ≡ r = ground (arith, e, f, g) in
                      inr (
                        InHistory-steered attempt.steered found r
                          (finish_accepted_send-same stored looked.1 x g ∙ same)
                          (sent_in_history-shows world found f))
                  | inr g ↦ absurd (ground (arith, e, f, g))
                ]
            | inl (none, f) ↦ absurd (ground (arith, e, f))
            | inr f ↦ absurd (ground (arith, e, f))
          ]
