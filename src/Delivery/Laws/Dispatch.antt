-- ===== src/Delivery/Laws/Dispatch.antt =====
-- How often a send hands its input over, and what it then says (`SendWithOptions` of codex/client.go).
use codex_web.Common.{
  String, suc, ◌≡◌, refl, ◌∙◌, ◌⊎◌, Bool, true, not, Option, none, some, arith, inl, inr, ◌==◌,
  Bool-cases,
}
use codex_web.Errors
use codex_web.Errors.{Error, Outcome, ok, err, panic, Outcome-cases}
use codex_web.Library.{Library}
use codex_web.TurnOptions.{TurnOptions, normalize_turn_options}
use codex_web.Ledger.Types.{SendAttempt, SendReceipt}
use codex_web.Ledger.Sends.{SendLookup, record_send_attempt_with_receipt}
use codex_web.Delivery.Call.{Surroundings, World, after, fail, on_error, transact, look}
use codex_web.Delivery.Receipts.{reconcile_send}
use codex_web.Delivery.Send.{
  active_turn_id, steers_otherwise, queued_receipt, deliver_queued, submit, refuse_unwritten,
  send_new, send_unless, known_attempt, send_known, send_with_options, attempted_before,
}
use codex_web.Delivery.Laws.Quiet.{Quiet, reconcile_send-Quiet, unwritten_send_outcome-Quiet}
use codex_web.Delivery.Laws.Settle.{refused_by_server, Honest, request, request-Honest}

module _ (lib : Library) (around : Surroundings) (database : Bool)
    (thread text client context : String) where
  module _ (digest : String) where
    Honest-from :
        (before world : World) (r : Outcome SendReceipt × World)
        → before.dispatched ≡ world.dispatched
        → Honest around before r
        → Honest around world r
    Honest-from before world r same (inl kept) = inl (kept ∙ same)
    Honest-from before world r same (inr (once, says)) = inr (ground (arith, same, once), says)

    submit-Honest :
        (options : TurnOptions) (attempt : Option SendAttempt) (active : String) (world : World)
        → Honest around world (
            submit lib around database thread text client context digest options attempt active
              world)
    unfolding submit transact
    submit-Honest options (some attempt) active world =
        request-Honest lib around database thread text client context digest active world
    submit-Honest options none active world =
        go
          (transact lib around
            (record_send_attempt_with_receipt lib thread client text context (not (active == ""))
              options digest none)
            world)
          refl
      where
        go :
            (r : Outcome (Unit {0}) × World)
            → r.1.dispatched ≡ world.dispatched
            → Honest around world (
                after
                  (λ _. request lib around database thread text client context digest active)
                  (on_error (λ _. r) (λ e. fail (Errors.wrapping e)) world))
        go (ok _, before) same =
            Honest-from before world
              (request lib around database thread text client context digest active before) same
              (request-Honest lib around database thread text client context digest active before)
        go (err e, before) same = inl same
        go (panic, before) same = inl same

    send_new-Honest :
        (options : TurnOptions) (attempt : Option SendAttempt) (world : World)
        → Honest around world
            (send_new lib around database thread text client context digest options attempt world)
    unfolding send_new refuse_unwritten
    send_new-Honest options attempt world =
        let refused : (e : Error)
            → Quiet
                (refuse_unwritten lib around database thread text client context digest attempt e) =
          λ e.
            unwritten_send_outcome-Quiet lib around thread client text context digest
              (not (attempted_before lib around database thread text client context digest attempt))
              e in
        elim (Outcome-cases around.resumed) [
          | inl (_, h) ↦ elim (Outcome-cases (active_turn_id around.turns)) [
            | inl (active, a) ↦ elim (Bool-cases (steers_otherwise (not (active == "")) attempt)) [
              | inl other ↦ inl (ground (arith, h, a, other, refused Errors.state_changed world))
              | inr suits ↦ rw (h, a, suits, send_new) (submit-Honest options attempt active world)
            ]
            | inr (inl (e, a)) ↦ inl (ground (arith, h, a, refused e world))
            | inr (inr a) ↦ inl (ground (arith, h, a))
          ]
          | inr (inl (e, h)) ↦ inl (ground (arith, h, refused e world))
          | inr (inr h) ↦ inl (ground (arith, h))
        ]

    send_known-Honest :
        (options : TurnOptions) (state : SendLookup) (world : World)
        → Honest around world
            (send_known lib around database thread text client context digest options state world)
    unfolding send_known deliver_queued queued_receipt look send_unless
    send_known-Honest options state world = elim (Bool-cases state.queued) [
      | inl queued ↦ inl (ground (arith, queued))
      | inr free ↦
          rw (free, send_known)
            (go (reconcile_send lib around thread client text state.attempt world)
              (reconcile_send-Quiet lib around thread client text state.attempt world))
    ]
      where
        go :
            (r : Outcome (Option SendReceipt) × World)
            → r.1.dispatched ≡ world.dispatched
            → Honest around world (
                after
                  (send_unless lib around database thread text client context digest options
                    state.attempt)
                  r)
        go (ok (some receipt), before) same = inl same
        go (ok none, before) same =
            Honest-from before world
              (send_new lib around database thread text client context digest options state.attempt
                before)
              same (send_new-Honest options state.attempt before)
        go (err e, before) same = inl same
        go (panic, before) same = inl same

  known_attempt-Quiet :
      (digest : String)
      → Quiet (known_attempt lib around database thread text client context digest)
  unfolding known_attempt transact
  known_attempt-Quiet digest world = ground arith

  -- A send hands its input to the writer at most once; and where it did, it reports the message as not
  -- sent only if the request came back with a proof that the App Server did not take it: that it was
  -- not written, or a refusal of the request, its method or its parameters.
  pub send_with_options-Honest :
      (options : TurnOptions) (world : World)
      → Honest around world
          (send_with_options lib around database thread text client context options world)
  unfolding send_with_options
  send_with_options-Honest options world =
      elim (Outcome-cases (normalize_turn_options lib options)) [
        | inl (stored, n) ↦ elim (Outcome-cases around.thread_lock) [
          | inl (_, l) ↦
              rw (n, l, send_with_options)
                (go stored.digest
                  (known_attempt lib around database thread text client context stored.digest world)
                  (known_attempt-Quiet stored.digest world))
          | inr (inl (e, l)) ↦ inl (ground (arith, n, l))
          | inr (inr l) ↦ inl (ground (arith, n, l))
        ]
        | inr (inl (e, n)) ↦ inl (ground (arith, n))
        | inr (inr n) ↦ inl (ground (arith, n))
      ]
    where
      go :
          (digest : String) (r : Outcome SendLookup × World)
          → r.1.dispatched ≡ world.dispatched
          → Honest around world
              (after (send_known lib around database thread text client context digest options) r)
      go digest (ok state, before) same =
          Honest-from digest before world
            (send_known lib around database thread text client context digest options state before)
            same (send_known-Honest digest options state before)
      go digest (err e, before) same = inl same
      go digest (panic, before) same = inl same

  -- One send hands its input to the writer at most once, however the exchange, the searches and the
  -- transactions around it end.
  pub send_with_options-once :
      (options : TurnOptions) (world : World)
      → ((send_with_options lib around database thread text client context options
            world).1.dispatched
          ≡ world.dispatched)
        ⊎ ((send_with_options lib around database thread text client context options
              world).1.dispatched
            ≡ suc world.dispatched)
  send_with_options-once options world = elim (send_with_options-Honest options world) [
    | inl kept ↦ inl kept
    | inr (once, says) ↦ inr once
  ]

  -- Where a send reports that the message was not sent, either it handed no input to the writer, or the
  -- request came back with a proof that the App Server did not take it: that it was not written, or a
  -- refusal of the request, its method or its parameters.
  pub send_with_options-not_sent :
      (options : TurnOptions) (world : World) (e : Error) (retry : Bool)
      → (send_with_options lib around database thread text client context options world).0
        ≡ err (Errors.not_sent e retry)
      → ((send_with_options lib around database thread text client context options
            world).1.dispatched
          ≡ world.dispatched)
        ⊎ (refused_by_server around.exchange ≡ true)
  send_with_options-not_sent options world e retry h =
      elim (send_with_options-Honest options world) [
        | inl kept ↦ inl kept
        | inr (once, says) ↦ inr (says e retry h)
      ]
