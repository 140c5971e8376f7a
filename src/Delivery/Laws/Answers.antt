-- ===== src/Delivery/Laws/Answers.antt =====
-- The receipt that a send returns, on each of its paths (`SendWithOptions` of codex/client.go).
use mathlib.Core.List.{Memᴰ}
use codex_web.Common.{
  String, ◌≡◌, refl, sym, ap, ◌∙◌, subst, Bool, not, Option, none, some, List, [], ◌∷◌, arith, inl,
  inr, ◌==◌, eq_iff, Bool-cases,
}
use codex_web.Errors
use codex_web.Errors.{Error, Outcome, ok, err, panic, Outcome-cases}
use codex_web.Library.{Library}
use codex_web.TurnOptions.{TurnOptions, normalize_turn_options}
use codex_web.Ledger.Types.{accepted, SendAttempt, SendReceipt, QueueEntry, Ledger}
use codex_web.Ledger.Sends.{SendLookup, send_state_with_options}
use codex_web.History.Messages.{
  list_queue, queued_as, queued_or_started_by_client_id, started_by_client_id,
}
use codex_web.History.Evidence.{started_by_client_id-shows}
use codex_web.Ledger.Queue.{queue_attempt}
use codex_web.Ledger.Requests.{run}
use codex_web.Delivery.Call.{Surroundings, World, transact, look}
use codex_web.Delivery.Receipts.{reconcile_send, unwritten_send_outcome}
use codex_web.Delivery.Send.{
  active_turn_id, steers_otherwise, queued_receipt, deliver_queued, submit, refuse_unwritten,
  attempted_before, send_new, send_unless, known_attempt, send_known, send_with_options,
}
use codex_web.Delivery.Laws.Receipts.{
  Accepts, Proof, by_history, by_ledger, by_queue, by_start, VouchedFor, Vouched, Vouched-same,
  reconcile_send-Reconciled,
}
use codex_web.Delivery.Laws.Asked.{submit-Vouched}
use codex_web.Delivery.Laws.Outcomes.{send_state-Accepts, unwritten_send_outcome-Vouched}

-- The entry that the loop over the queue gives is one of them, of this identity and text.
queued_as-shows :
    (client text : String) (entries : List QueueEntry) (entry : QueueEntry)
    → queued_as client text entries ≡ ok (some entry)
    → Memᴰ entry entries × (entry.client_user_message_id ≡ client) × (entry.text ≡ text)
unfolding queued_as
queued_as-shows client text [] entry h = absurd (ground arith)
queued_as-shows client text (x ∷ entries) entry h =
    elim (Bool-cases (x.client_user_message_id == client)) [
      | inr other ↦
          let (there, own, same) =
            queued_as-shows client text entries entry (ground (arith, h, other)) in
          (Memᴰ.tail there, own, same)
      | inl own ↦ elim (Bool-cases (x.text == text)) [
        | inr other ↦ absurd (ground (arith, h, own, other))
        | inl same ↦
            let one : entry ≡ x = ground (arith, h, own, same) in
            (
              Memᴰ.head one,
              ground (arith, one, own, eq_iff x.client_user_message_id client),
              ground (arith, one, same, eq_iff x.text text),
            )
      ]
    ]

module _ (lib : Library) (around : Surroundings) (database : Bool)
    (thread text client context : String) (first : Ledger) where
  abbrev Good : Outcome SendReceipt × World → Type 0
  Good r = Vouched lib around thread client text first r

  deliver_queued-Vouched :
      (world : World) → Good (deliver_queued lib around database thread text client context world)
  unfolding deliver_queued queued_receipt look queued_or_started_by_client_id
  deliver_queued-Vouched world r h =
      let n = world.events in
      elim (Outcome-cases (list_queue (around.queue n))) [
        | inr (inl (x, e)) ↦ absurd (ground (arith, e, h))
        | inr (inr e) ↦ absurd (ground (arith, e, h))
        | inl (entries, e) ↦ elim (Outcome-cases (queued_as client text entries)) [
          | inr (inl (x, q)) ↦ absurd (ground (arith, e, q, h))
          | inr (inr q) ↦ absurd (ground (arith, e, q, h))
          | inl (some entry, q) ↦
              let (there, own, same) = queued_as-shows client text entries entry q in
              (
                ground (arith, e, q, h),
                by_queue n entries entry e there own same (ground (arith, e, q, h)),
              )
          | inl (none, q) ↦
              elim (Outcome-cases (started_by_client_id client text (around.items n))) [
                | inr (inl (x, f)) ↦ absurd (ground (arith, e, q, f, h))
                | inr (inr f) ↦ absurd (ground (arith, e, q, f, h))
                | inl (none, f) ↦ absurd (ground (arith, e, q, f, h))
                | inl (some entry, f) ↦
                    let (_, _, shows, id) =
                      started_by_client_id-shows client text (around.items n) entry f in
                    (ground (arith, e, q, f, h), by_start n shows (ground (arith, e, q, f, h, id)))
              ]
        ]
      ]

  module _ (digest : String) where
    send_new-Vouched :
        (options : TurnOptions) (attempt : Option SendAttempt) (world : World)
        → Good
            (send_new lib around database thread text client context digest options attempt world)
    unfolding send_new refuse_unwritten
    send_new-Vouched options attempt world r h =
        let whole =
          send_new lib around database thread text client context digest options attempt world in
        let allow =
          not (attempted_before lib around database thread text client context digest attempt) in
        let gives_up : (e : Error)
            → whole
              ≡ unwritten_send_outcome lib around thread client text context digest allow e world
            → VouchedFor lib around thread client text first r whole =
          λ e ran.
            Vouched-same lib around thread client text first _ _ ran
              (unwritten_send_outcome-Vouched lib around thread client text context digest first
                allow e world)
              r h in
        elim (Outcome-cases around.resumed) [
          | inl (_, o) ↦ elim (Outcome-cases (active_turn_id around.turns)) [
            | inl (active, a) ↦ elim (Bool-cases (steers_otherwise (not (active == "")) attempt)) [
              | inl other ↦ gives_up Errors.state_changed (ground (arith, o, a, other))
              | inr suits ↦
                  let ran : whole
                      ≡ submit lib around database thread text client context digest options attempt
                          active world =
                    ground (arith, o, a, suits) in
                  Vouched-same lib around thread client text first _ _ ran
                    (submit-Vouched lib around database thread text client context first digest
                      options attempt active world)
                    r h
            ]
            | inr (inl (e, a)) ↦ gives_up e (ground (arith, o, a))
            | inr (inr a) ↦ absurd (ground (arith, o, a, h))
          ]
          | inr (inl (e, o)) ↦ gives_up e (ground (arith, o))
          | inr (inr o) ↦ absurd (ground (arith, o, h))
        ]

    -- What the ledger had of the message when the call found it: an accepted attempt is of `first`.
    abbrev Knows : SendLookup → Type 0
    Knows state =
        (a : SendAttempt) (receipt : SendReceipt)
        → state.attempt ≡ some a
        → a.state ≡ accepted
        → receipt.turn_id ≡ a.turn_id
        → Accepts lib around thread client text receipt first

    send_known-Vouched :
        (options : TurnOptions) (state : SendLookup) (world : World)
        → Knows state
        → Good
            (send_known lib around database thread text client context digest options state world)
    unfolding send_known send_unless
    send_known-Vouched options state world knows r h =
        let whole =
          send_known lib around database thread text client context digest options state world in
        let known = reconcile_send lib around thread client text state.attempt world in
        elim (Bool-cases state.queued) [
          | inl queued ↦
              let ran : whole
                  ≡ deliver_queued lib around database thread text client context world =
                ground (arith, queued) in
              Vouched-same lib around thread client text first _ _ ran
                (deliver_queued-Vouched world) r h
          | inr free ↦ elim (Outcome-cases known.0) [
            | inr k ↦ absurd (ground (arith, free, k, h))
            | inl (some found, k) ↦
                let same : found ≡ r = ground (arith, free, k, h) in
                elim (reconcile_send-Reconciled lib around thread client text state.attempt world r
                  (k ∙ ap (λ x. ok (some x)) same)) [
                    | inr shown ↦ (shown.0, by_history shown)
                    | inl (a, one, own, made, _) ↦ (
                      ap (λ y. y.client_user_message_id) made,
                      by_ledger (inl (knows a r one own (ap (λ y. y.turn_id) made))),
                    )
                  ]
            | inl (none, k) ↦
                let ran : whole
                    ≡ send_new lib around database thread text client context digest options
                        state.attempt known.1 =
                  ground (arith, free, k) in
                Vouched-same lib around thread client text first _ _ ran
                  (send_new-Vouched options state.attempt known.1) r h
          ]
        ]

    -- What `known_attempt` reads is in the ledger that the call finds.
    known_attempt-Knows :
        (world : World) (state : SendLookup)
        → first ≡ run lib (around.others world.events) world.durable
        → (known_attempt lib around database thread text client context digest world).0 ≡ ok state
        → Knows state
    unfolding known_attempt
    known_attempt-Knows world state begun h a receipt found own turn =
        let read =
          transact lib around (send_state_with_options lib thread client text context digest)
            world in
        let queued = transact lib around (queue_attempt lib thread client text) read.1 in
        elim (Outcome-cases read.0) [
          | inr e ↦ absurd (ground (arith, e, h))
          | inl (there, e) ↦ elim (Outcome-cases queued.0) [
            | inr q ↦ absurd (ground (arith, e, q, h))
            | inl (in_queue, q) ↦
                let same : there.attempt ≡ state.attempt = ground (arith, e, q, h) in
                let (accepts, _) =
                  send_state-Accepts lib around thread client text context digest world there a
                    receipt e (same ∙ found) own turn in
                subst (Accepts lib around thread client text receipt) (sym begun) accepts
          ]
        ]

module _ (lib : Library) (around : Surroundings) (database : Bool)
    (thread text client context : String) where
  -- A send that returns a receipt returns one of the client identity it was asked to send, and something
  -- vouches for it: the App Server answered this call with the turn that it names; or history shows, in that turn,
  -- a user message of this identity with exactly this text; or the ledger that the call found, or that it leaves,
  -- has the message with this text as accepted by that turn; or a list of the queue has the entry that it names,
  -- with this identity and text; or history shows such a message under the identity of that entry.
  pub send_with_options-Vouched :
      (options : TurnOptions) (world : World) (receipt : SendReceipt)
      → (send_with_options lib around database thread text client context options world).0
        ≡ ok receipt
      → (receipt.client_user_message_id ≡ client)
        × Proof lib around thread client text
            (run lib (around.others world.events) world.durable)
            (send_with_options lib around database thread text client context options
              world).1.durable
            receipt
  unfolding send_with_options
  send_with_options-Vouched options world receipt h =
      let first = run lib (around.others world.events) world.durable in
      let whole = send_with_options lib around database thread text client context options world in
      elim (Outcome-cases (normalize_turn_options lib options)) [
        | inr n ↦ absurd (ground (arith, n, h))
        | inl (stored, n) ↦
            let read =
              known_attempt lib around database thread text client context stored.digest world in
            elim (Outcome-cases around.thread_lock) [
              | inr l ↦ absurd (ground (arith, n, l, h))
              | inl (_, l) ↦ elim (Outcome-cases read.0) [
                | inr k ↦ absurd (ground (arith, n, l, k, h))
                | inl (state, k) ↦
                    let ran : whole
                        ≡ send_known lib around database thread text client context stored.digest
                            options state read.1 =
                      ground (arith, n, l, k) in
                    Vouched-same lib around thread client text first _ _ ran
                      (send_known-Vouched lib around database thread text client context first
                        stored.digest options state read.1
                        (known_attempt-Knows lib around database thread text client context first
                          stored.digest world state refl k))
                      receipt h
              ]
            ]
      ]
