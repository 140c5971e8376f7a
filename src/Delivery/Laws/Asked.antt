-- ===== src/Delivery/Laws/Asked.antt =====
-- The receipt of a request that was submitted (`SendWithOptions` of codex/client.go).
use codex_web.Common.{
  String, ◌≡◌, refl, sym, ap, ◌∙◌, Bool, false, not, ◌||◌, Option, none, some, arith, inl, inr,
  ◌==◌, eq_iff, Bool-cases, Option-cases,
}
use codex_web.Errors.{Error, Outcome, ok, err, panic, Outcome-cases}
use codex_web.Library.{Library}
use codex_web.TurnOptions.{TurnOptions}
use codex_web.Ledger.Types.{SendAttempt, SendReceipt, Ledger}
use codex_web.Ledger.Sends.{record_send_attempt_with_receipt}
use codex_web.Delivery.Call.{
  ◌>>=◌, Surroundings, World, Call, Exchange, unreached, unwritten, failed, replied, caught,
  transact, Requested, not_admitted, not_answered, answered, request_with_admission,
}
use codex_web.Delivery.Receipts.{
  is_unwritten, first_refusal, refuses_input, finish_accepted_send, restore_unwritten_send_outcome,
  sent_in, wait_for_sent,
}
use codex_web.Delivery.Send.{admit, after_wait, reconcile_unanswered, wrong_answer, settle, submit}
use codex_web.Delivery.Laws.Receipts.{
  by_answer, by_history, Vouched, Vouched-same, InHistory-steered, finish_accepted_send-same,
  wait_for_sent-shows,
}
use codex_web.Delivery.Laws.Outcomes.{
  unwritten_send_outcome-Vouched, restore_unwritten_send_outcome-Vouched,
}

module _ (lib : Library) (around : Surroundings) (database : Bool)
    (thread text client context : String) (first : Ledger) where
  abbrev Good : Outcome SendReceipt × World → Type 0
  Good r = Vouched lib around thread client text first r

  module _ (digest : String) where
    reconcile_unanswered-Vouched :
        (steered : Bool) (e : Error) (world : World)
        → Good (
            reconcile_unanswered lib around database thread text client context digest steered e
              world)
    unfolding reconcile_unanswered after_wait
    reconcile_unanswered-Vouched steered e world r h =
        let whole =
          reconcile_unanswered lib around database thread text client context digest steered e
            world in
        let waited = caught (wait_for_sent lib around thread client text 6) world in
        elim (Bool-cases (is_unwritten e || refuses_input (first_refusal e))) [
          | inl unsent ↦
              let ran : whole
                  ≡ restore_unwritten_send_outcome lib around thread client text database context
                      digest around.claim e world =
                ground (arith, unsent) in
              Vouched-same lib around thread client text first _ _ ran
                (restore_unwritten_send_outcome-Vouched lib around thread client text context digest
                  first database around.claim e world)
                r h
          | inr asked ↦ elim (Outcome-cases waited.0) [
            | inl (ok (some found), w) ↦
                let stored = record found { steered = steered } in
                let ran : whole ≡ finish_accepted_send lib around thread client stored waited.1 =
                  ground (arith, asked, w) in
                let shown =
                  InHistory-steered lib around thread client text steered found r
                    (finish_accepted_send-same lib around thread client text stored waited.1 r
                      (ap (λ y. y.0) (sym ran) ∙ h))
                    (wait_for_sent-shows lib around thread client text 6 world found
                      (ground (arith, w))) in
                (shown.0, by_history shown)
            | inl (ok none, w) ↦ absurd (ground (arith, asked, w, h))
            | inl (err _, w) ↦ absurd (ground (arith, asked, w, h))
            | inl (panic, w) ↦ absurd (ground (arith, asked, w, h))
            | inr w ↦ absurd (ground (arith, asked, w, h))
          ]
        ]

    settle-Vouched :
        (active : String) (requested : Requested) (world : World)
        → ((turn : String) → requested ≡ answered turn → around.exchange ≡ replied turn)
        → Good (settle lib around database thread text client context digest active requested world)
    unfolding settle wrong_answer
    settle-Vouched active (not_admitted e) world sent r h =
        unwritten_send_outcome-Vouched lib around thread client text context digest first false e
          world r h
    settle-Vouched active (not_answered e) world sent r h =
        reconcile_unanswered-Vouched (not (active == "")) e world r h
    settle-Vouched active (answered turn) world sent r h =
        let whole =
          settle lib around database thread text client context digest active (answered turn)
            world in
        elim (Option-cases
          (wrong_answer lib around database thread text client context digest active turn)) [
            | inl right ↦
                let receipt = sent_in turn client (not (active == "")) in
                let ran : whole ≡ finish_accepted_send lib around thread client receipt world =
                  ground (arith, right) in
                let same : receipt ≡ r =
                  finish_accepted_send-same lib around thread client text receipt world r
                    (ap (λ y. y.0) (sym ran) ∙ h) in
                (
                  ap (λ y. y.client_user_message_id) (sym same),
                  by_answer (sent turn refl ∙ ap (λ y. replied y.turn_id) same) (
                      ap (λ y. y.turn_id == "") (sym same)
                      ∙ ground (arith, right, eq_iff turn active)),
                )
            | inr (e, wrong) ↦
                let ran : whole
                    ≡ reconcile_unanswered lib around database thread text client context digest
                        (not (active == "")) e world =
                  ground (arith, wrong) in
                Vouched-same lib around thread client text first _ _ ran
                  (reconcile_unanswered-Vouched (not (active == "")) e world) r h
          ]

    -- The App Server's answer to the request.
    request-answered :
        (admit : Call (Unit {0})) (world : World) (turn : String)
        → (request_with_admission lib around admit world).0 ≡ ok (answered turn)
        → around.exchange ≡ replied turn
    unfolding request_with_admission
    request-answered admit world turn h = by_exchange around.exchange refl
      where
        by_exchange : (x : Exchange) → around.exchange ≡ x → around.exchange ≡ replied turn
        by_exchange (unreached e) same = absurd (ground (arith, same, h))
        by_exchange (unwritten e) same = elim (Outcome-cases (admit world).0) [
          | inl (u, a) ↦ absurd (ground (arith, same, a, h))
          | inr (inl (x, a)) ↦ absurd (ground (arith, same, a, h))
          | inr (inr a) ↦ absurd (ground (arith, same, a, h))
        ]
        by_exchange (failed e) same = elim (Outcome-cases (admit world).0) [
          | inl (u, a) ↦ absurd (ground (arith, same, a, h))
          | inr (inl (x, a)) ↦ absurd (ground (arith, same, a, h))
          | inr (inr a) ↦ absurd (ground (arith, same, a, h))
        ]
        by_exchange (replied t) same = elim (Outcome-cases (admit world).0) [
          | inl (u, a) ↦ same ∙ ap replied (ground (arith, same, a, h))
          | inr (inl (x, a)) ↦ absurd (ground (arith, same, a, h))
          | inr (inr a) ↦ absurd (ground (arith, same, a, h))
        ]

    -- A request and what is made of its end.
    asked-Vouched :
        (active : String) (world : World)
        → Good (
            (request_with_admission lib around
                  (admit lib around database thread text client context digest (not (active == "")))
                >>= settle lib around database thread text client context digest active)
              world)
    asked-Vouched active world r h =
        let by = admit lib around database thread text client context digest (not (active == "")) in
        let asked = request_with_admission lib around by world in
        elim (Outcome-cases asked.0) [
          | inl (requested, a) ↦
              let settled =
                settle lib around database thread text client context digest active requested
                  asked.1 in
              let ran : (request_with_admission lib around by
                      >>= settle lib around database thread text client context digest active)
                    world
                  ≡ settled =
                ground (arith, a) in
              Vouched-same lib around thread client text first _ _ ran
                (settle-Vouched active requested asked.1
                  (λ turn same. request-answered by world turn (a ∙ ap (λ y. ok y) same)))
                r h
          | inr a ↦ absurd (ground (arith, a, h))
        ]

    pub submit-Vouched :
        (options : TurnOptions) (attempt : Option SendAttempt) (active : String) (world : World)
        → Good (
            submit lib around database thread text client context digest options attempt active
              world)
    unfolding submit
    submit-Vouched options (some attempt) active world r h = asked-Vouched active world r h
    submit-Vouched options none active world r h =
        let recorded =
          transact lib around
            (record_send_attempt_with_receipt lib thread client text context (not (active == ""))
              options digest none)
            world in
        let whole =
          submit lib around database thread text client context digest options none active world in
        elim (Outcome-cases recorded.0) [
          | inl (_, w) ↦
              let later =
                (request_with_admission lib around (
                      admit lib around database thread text client context digest
                        (not (active == "")))
                    >>= settle lib around database thread text client context digest active)
                  recorded.1 in
              let ran : whole ≡ later = ground (arith, w) in
              Vouched-same lib around thread client text first _ _ ran
                (asked-Vouched active recorded.1) r h
          | inr w ↦ absurd (ground (arith, w, h))
        ]
