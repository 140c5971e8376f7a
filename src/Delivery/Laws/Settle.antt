-- ===== src/Delivery/Laws/Settle.antt =====
-- How one request of a send is settled (`SendWithOptions` of codex/client.go).
use codex_web.Common.{
  String, suc, ◌≡◌, ◌≢◌, refl, ◌⊎◌, Bool, true, false, not, ◌||◌, none, some, arith, inl, inr, ◌==◌,
}
use codex_web.Errors
use codex_web.Errors.{Error, Outcome, ok, err, panic, Outcome-cases}
use codex_web.Library.{Library}
use codex_web.Ledger.Types.{SendReceipt}
use codex_web.Delivery.Call.{
  Exchange, unreached, unwritten, failed, replied, Surroundings, World, Call, after, caught,
  transact, Requested, not_admitted, not_answered, answered, request_with_admission,
}
use codex_web.Delivery.Receipts.{
  is_unwritten, first_refusal, refuses_input, sent_in, finish_accepted_send, wait_for_sent,
}
use codex_web.Delivery.Send.{admit, after_wait, reconcile_unanswered, wrong_answer, settle}
use codex_web.Delivery.Laws.Quiet.{
  Quiet, finish_accepted_send-Quiet, wait_for_sent-Quiet, unwritten_send_outcome-Quiet,
  restore_unwritten_send_outcome-Quiet,
}

-- The error proves that the App Server did not take the input: it was not written, or refused.
unfoldable pub proves_unsent : Error → Bool
proves_unsent e = is_unwritten e || refuses_input (first_refusal e)

-- The request came back with such a proof.
unfoldable pub refused_by_server : Exchange → Bool
refused_by_server (failed e) = proves_unsent e
refused_by_server _ = false

-- How often the input was handed over between `world` and the end, and what the result may then say.
abbrev pub Honest : Surroundings → World → Outcome SendReceipt × World → Type 0
Honest around world r =
    (r.1.dispatched ≡ world.dispatched)
    ⊎ ((r.1.dispatched ≡ suc world.dispatched)
        × ((e : Error) (retry : Bool)
            → r.0 ≡ err (Errors.not_sent e retry)
            → refused_by_server around.exchange ≡ true))

module _ (lib : Library) (around : Surroundings) (database : Bool)
    (thread text client context : String) where
  module _ (digest : String) where
    reconcile_unanswered-Quiet :
        (steered : Bool) (e : Error)
        → Quiet
            (reconcile_unanswered lib around database thread text client context digest steered e)
    unfolding reconcile_unanswered after_wait
    reconcile_unanswered-Quiet steered e world =
        let waited = caught (wait_for_sent lib around thread client text 6) world in
        let restored =
          restore_unwritten_send_outcome-Quiet lib around thread client text database context digest
            around.claim e world in
        let kept = wait_for_sent-Quiet lib around thread client text 6 world in
        elim (Outcome-cases waited.0) [
          | inl (ok (some found), h) ↦ ground (
            arith,
            restored,
            kept,
            h,
            finish_accepted_send-Quiet lib around thread client (record found { steered = steered })
                waited.1,
          )
          | inl (ok none, h) ↦ ground (arith, restored, kept, h)
          | inl (err _, h) ↦ ground (arith, restored, kept, h)
          | inl (panic, h) ↦ ground (arith, restored, kept, h)
          | inr h ↦ ground (arith, restored, kept, h)
        ]

    reconcile_unanswered-sent :
        (steered : Bool) (e e' : Error) (retry : Bool) (world : World)
        → (reconcile_unanswered lib around database thread text client context digest steered e
            world).0
          ≡ err (Errors.not_sent e' retry)
        → proves_unsent e ≡ true
    unfolding reconcile_unanswered after_wait finish_accepted_send proves_unsent transact
    reconcile_unanswered-sent steered e e' retry world h = ground arith

    settle-Quiet :
        (active : String) (requested : Requested)
        → Quiet (settle lib around database thread text client context digest active requested)
    unfolding settle wrong_answer
    settle-Quiet active (not_admitted e) world =
        unwritten_send_outcome-Quiet lib around thread client text context digest false e world
    settle-Quiet active (not_answered e) world =
        reconcile_unanswered-Quiet (not (active == "")) e world
    settle-Quiet active (answered turn) world = ground (
      arith,
      reconcile_unanswered-Quiet (not (active == "")) Errors.no_turn world,
      reconcile_unanswered-Quiet (not (active == "")) Errors.wrong_turn world,
      finish_accepted_send-Quiet lib around thread client (sent_in turn client (not (active == "")))
          world,
    )

    settle-answered :
        (active turn : String) (e : Error) (retry : Bool) (world : World)
        → (settle lib around database thread text client context digest active
            (answered turn)
            world).0
          ≢ err (Errors.not_sent e retry)
    unfolding settle wrong_answer finish_accepted_send transact proves_unsent is_unwritten
        first_refusal refuses_input
    settle-answered active turn e retry world h = ground (
      arith,
      reconcile_unanswered-sent (not (active == "")) Errors.no_turn e retry world,
      reconcile_unanswered-sent (not (active == "")) Errors.wrong_turn e retry world,
    )

    -- The request and what follows it.
    abbrev pub request : String → Call SendReceipt
    request active world =
        after (settle lib around database thread text client context digest active) (
          request_with_admission lib around
            (admit lib around database thread text client context digest (not (active == "")))
            world)

    pub request-Honest :
        (active : String) (world : World) → Honest around world (request active world)
    unfolding request_with_admission admit transact refused_by_server settle
    request-Honest active world = go around.exchange refl
      where
        admitted : Outcome (Unit {0}) × World
        admitted =
            admit lib around database thread text client context digest (not (active == "")) world

        handed : World
        handed = record admitted.1 { dispatched = suc admitted.1.dispatched }

        go : (x : Exchange) → around.exchange ≡ x → Honest around world (request active world)
        go (unreached e) h = inl (ground (arith, h, settle-Quiet active (not_admitted e) world))
        go (unwritten e) h = elim (Outcome-cases admitted.0) [
          | inl (_, a) ↦ inl (
              ground (
                arith,
                h,
                a,
                settle-Quiet active (not_answered (Errors.unwritten (Errors.transport e)))
                    admitted.1,
              ))
          | inr (inl (e', a)) ↦ inl (
              ground
                (arith, h, a, settle-Quiet active (not_admitted (Errors.wrapping e')) admitted.1))
          | inr (inr a) ↦ inl (ground (arith, h, a))
        ]
        go (failed e) h = elim (Outcome-cases admitted.0) [
          | inl (_, a) ↦ inr (
            ground (arith, h, a, settle-Quiet active (not_answered e) handed),
            λ e' retry p.
                ground (
                  arith,
                  h,
                  a,
                  p,
                  reconcile_unanswered-sent (not (active == "")) e e' retry handed,
                ),
          )
          | inr (inl (e', a)) ↦ inl (
              ground
                (arith, h, a, settle-Quiet active (not_admitted (Errors.wrapping e')) admitted.1))
          | inr (inr a) ↦ inl (ground (arith, h, a))
        ]
        go (replied turn) h = elim (Outcome-cases admitted.0) [
          | inl (_, a) ↦ inr (
            ground (arith, h, a, settle-Quiet active (answered turn) handed),
            λ e' retry p.
                absurd (ground (arith, h, a, p, settle-answered active turn e' retry handed)),
          )
          | inr (inl (e', a)) ↦ inl (
              ground
                (arith, h, a, settle-Quiet active (not_admitted (Errors.wrapping e')) admitted.1))
          | inr (inr a) ↦ inl (ground (arith, h, a))
        ]
