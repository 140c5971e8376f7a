-- ===== src/Delivery/Laws/Outcomes.antt =====
-- What vouches for the receipt that reconciling an unwritten send gives (`unwrittenSendOutcome` and
-- `restoreUnwrittenSendOutcome` of codex/send_delivery.go).
use mathlib.Core.Option
use codex_web.Common.{
  String, ◌≡◌, sym, ap, ◌∙◌, subst, inl, inr, Bool, false, none, some, arith, eq_iff, Bool-cases,
  Option-cases,
}
use codex_web.Errors.{Error, ok, Outcome-cases}
use codex_web.Library.{Library}
use codex_web.ThreadMap.{find}
use codex_web.Ledger.Types.{
  accepted, SendAttempt, SendReceipt, Ledger, Store, WriteOutcome, written, not_written, unsynced,
}
use codex_web.Ledger.Load.{
  Opening, opened, migrated, refused, read_attempt, load_queue_ledger, queue_ledger_transaction,
}
use codex_web.Ledger.Requests.{run}
use codex_web.Ledger.Sends.{
  SendLookup, same_action, queue_text_digest, send_state_with_options, restore_rejected_send_claim,
}
use codex_web.Ledger.Moves.Safety.{at-load}
use codex_web.Delivery.Call.{Surroundings, World, caught, transact}
use codex_web.Delivery.Receipts.{
  reconcile_send, reconciled_outcome, outcome_of, unwritten_send_outcome, with_restoration,
  restore_unwritten_send_outcome,
}
use codex_web.Delivery.Laws.Receipts.{
  Accepts, by_history, by_ledger, Vouched, Vouched-same, reconcile_send-Reconciled,
}

module _ (lib : Library) (around : Surroundings) (thread client text : String) where
  -- The attempt of a ledger that was loaded is one that the ledger held, as the same message.
  loaded-Accepts :
      (l l' : Ledger) (a : SendAttempt) (receipt : SendReceipt)
      → load_queue_ledger lib l ≡ ok l'
      → find thread client l'.send_attempts ≡ some a
      → a.state ≡ accepted
      → a.digest ≡ queue_text_digest lib text
      → receipt.turn_id ≡ a.turn_id
      → Accepts lib around thread client text receipt l
        × Accepts lib around thread client text receipt l'
  unfolding read_attempt
  loaded-Accepts l l' a receipt e found own same turn =
      let loaded : find thread client l'.send_attempts
          ≡ Option.map (read_attempt lib) (find thread client l.send_attempts) =
        ap (λ m. m.send) (at-load lib l l' thread client e) in
      (
        elim (Option-cases (find thread client l.send_attempts)) [
          | inl absent ↦ absurd (ground (arith, loaded, absent, found))
          | inr (x, there) ↦
              let read : read_attempt lib x ≡ a = ground (arith, loaded, there, found) in
              record {
                attempt = x;
                found = there;
                state = ap (λ y. y.state) read ∙ own;
                digest = ap (λ y. y.digest) read ∙ same;
                turn = turn ∙ sym (ap (λ y. y.turn_id) read);
              }
        ],
        record { attempt = a; found = found; state = own; digest = same; turn = turn },
      )

  -- What the action gives it has found in the maps; and it changes nothing.
  send_state-finds :
      (context digest : String) (w : WriteOutcome) (s : Store) (state : SendLookup)
      (a : SendAttempt)
      → (send_state_with_options lib thread client text context digest w s).0 ≡ ok state
      → state.attempt ≡ some a
      → (find thread client s.memory.send_attempts ≡ some a)
        × (a.digest ≡ queue_text_digest lib text)
        × ((send_state_with_options lib thread client text context digest w s).1 ≡ s)
  unfolding send_state_with_options same_action
  send_state-finds context digest w s state a h found =
      elim (Option-cases (find thread client s.memory.send_attempts)) [
        | inl absent ↦ absurd (ground (arith, absent, h, found))
        | inr (x, there) ↦ elim (Bool-cases (same_action lib x text context digest)) [
          | inr other ↦ absurd (ground (arith, there, other, h))
          | inl same ↦
              let one : x ≡ a = ground (arith, there, same, h, found) in
              (
                there ∙ ap (λ y. some y) one,
                ap (λ y. y.digest) (sym one)
                    ∙ ground (arith, same, eq_iff x.digest (queue_text_digest lib text)),
                ground (arith, there, same),
              )
        ]
      ]

  -- An accepted attempt that a transaction finds is in the ledger, before it and after it.
  transaction-Accepts :
      (context digest : String) (opening : Opening) (w : WriteOutcome) (l : Ledger)
      (state : SendLookup) (a : SendAttempt) (receipt : SendReceipt)
      → (queue_ledger_transaction lib opening w
          (send_state_with_options lib thread client text context digest)
          l).0
        ≡ ok state
      → state.attempt ≡ some a
      → a.state ≡ accepted
      → receipt.turn_id ≡ a.turn_id
      → Accepts lib around thread client text receipt l
        × Accepts lib around thread client text receipt
            (queue_ledger_transaction lib opening w
              (send_state_with_options lib thread client text context digest)
              l).1
  unfolding queue_ledger_transaction
  transaction-Accepts context digest (refused e) w l state a receipt h found own turn =
      absurd (ground arith)
  transaction-Accepts context digest (migrated not_written) w l state a receipt h found own turn =
      absurd (ground (arith, h))
  transaction-Accepts context digest (migrated unsynced) w l state a receipt h found own turn =
      absurd (ground (arith, h))
  transaction-Accepts context digest opened w l state a receipt h found own turn =
      elim (Outcome-cases (load_queue_ledger lib l)) [
        | inr (inl (x, e)) ↦ absurd (ground (arith, e, h))
        | inr (inr e) ↦ absurd (ground (arith, e, h))
        | inl (l', e) ↦
            let s : Store = record { memory = l'; durable = l } in
            let (there, same, still) =
              send_state-finds context digest w s state a (ground (arith, e, h)) found in
            let (before, after) = loaded-Accepts l l' a receipt e there own same turn in
            let kept : (queue_ledger_transaction lib opened w
                  (send_state_with_options lib thread client text context digest) l).1
                ≡ l =
              rw (e, queue_ledger_transaction) (ap (λ y. y.durable) still) in
            (before, subst (Accepts lib around thread client text receipt) (sym kept) before)
      ]
  transaction-Accepts context digest (migrated written) w l state a receipt h found own turn =
      elim (Outcome-cases (load_queue_ledger lib l)) [
        | inr (inl (x, e)) ↦ absurd (ground (arith, e, h))
        | inr (inr e) ↦ absurd (ground (arith, e, h))
        | inl (l', e) ↦
            let s : Store = record { memory = l'; durable = l' } in
            let (there, same, still) =
              send_state-finds context digest w s state a (ground (arith, e, h)) found in
            let (before, after) = loaded-Accepts l l' a receipt e there own same turn in
            let kept : (queue_ledger_transaction lib (migrated written) w
                  (send_state_with_options lib thread client text context digest) l).1
                ≡ l' =
              rw (e, queue_ledger_transaction) (ap (λ y. y.durable) still) in
            (before, subst (Accepts lib around thread client text receipt) (sym kept) after)
      ]

  module _ (context digest : String) where
    pub send_state-Accepts :
        (world : World) (state : SendLookup) (a : SendAttempt) (receipt : SendReceipt)
        → (transact lib around
            (send_state_with_options lib thread client text context digest)
            world).0
          ≡ ok state
        → state.attempt ≡ some a
        → a.state ≡ accepted
        → receipt.turn_id ≡ a.turn_id
        → Accepts lib around thread client text receipt
            (run lib (around.others world.events) world.durable)
          × Accepts lib around thread client text receipt
              (transact lib around
                (send_state_with_options lib thread client text context digest)
                world).1.durable
    unfolding transact
    send_state-Accepts world state a receipt h found own turn =
        transaction-Accepts context digest (around.opening world.events) (around.write world.events)
          (run lib (around.others world.events) world.durable) state a receipt h found own turn

    pub unwritten_send_outcome-Vouched :
        (first : Ledger) (allow : Bool) (e : Error) (world : World)
        → Vouched lib around thread client text first
            (unwritten_send_outcome lib around thread client text context digest allow e world)
    unfolding unwritten_send_outcome outcome_of reconciled_outcome
    unwritten_send_outcome-Vouched first allow e world r h =
        let read =
          transact lib around (send_state_with_options lib thread client text context digest)
            world in
        let whole =
          unwritten_send_outcome lib around thread client text context digest allow e world in
        elim (Outcome-cases read.0) [
          | inr found ↦ absurd (ground (arith, found, h))
          | inl (state, found) ↦ elim (Option-cases state.attempt) [
            | inl absent ↦ absurd (ground (arith, found, absent, h))
            | inr (a, there) ↦
                let known = reconcile_send lib around thread client text (some a) read.1 in
                elim (Outcome-cases known.0) [
                  | inr k ↦ absurd (ground (arith, found, there, k, h))
                  | inl (none, k) ↦ absurd (ground (arith, found, there, k, h))
                  | inl (some x, k) ↦
                      let same : x ≡ r = ground (arith, found, there, k, h) in
                      let ends : whole.1 ≡ known.1 = ground (arith, found, there, k, h) in
                      elim (reconcile_send-Reconciled lib around thread client text (some a) read.1
                        r (k ∙ ap (λ y. ok (some y)) same)) [
                          | inr shown ↦ (shown.0, by_history shown)
                          | inl (b, one, own, made, still) ↦
                              let (_, accepts) =
                                send_state-Accepts world state b r found (there ∙ one) own
                                  (ap (λ y. y.turn_id) made) in
                              let last : whole.1.durable ≡ read.1.durable =
                                ap (λ y. y.durable) (ends ∙ still) in
                              (
                                ap (λ y. y.client_user_message_id) made,
                                by_ledger (
                                    inr (
                                      subst (Accepts lib around thread client text r) (sym last)
                                        accepts)),
                              )
                        ]
                ]
          ]
        ]

    pub restore_unwritten_send_outcome-Vouched :
        (first : Ledger) (database : Bool) (claim : String) (e : Error) (world : World)
        → Vouched lib around thread client text first (
            restore_unwritten_send_outcome lib around thread client text database context digest
              claim e world)
    unfolding restore_unwritten_send_outcome
    restore_unwritten_send_outcome-Vouched first database claim e world r h =
        let restored =
          caught (transact lib around (restore_rejected_send_claim database thread client claim))
            world in
        elim (Outcome-cases restored.0) [
          | inl (x, found) ↦
              let e' = with_restoration lib around thread client text e x in
              let ran : restore_unwritten_send_outcome lib around thread client text database
                    context digest claim e world
                  ≡ unwritten_send_outcome lib around thread client text context digest false e'
                      restored.1 =
                ground (arith, found) in
              Vouched-same lib around thread client text first _ _ ran
                (unwritten_send_outcome-Vouched first false e' restored.1) r h
          | inr found ↦ absurd (ground (arith, found, h))
        ]
