-- ===== src/Ledger/Atomic/Sends.antt =====
-- Atomicity of the actions on send attempts (codex/client.go, codex/send_delivery.go).
use codex_web.Common.{
  String, ◌≡◌, refl, ◌∙◌, inl, inr, Bool, true, Option, none, some, Option-cases, arith,
}
use codex_web.Library.{Library}
use codex_web.TurnOptions.{TurnOptions}
use codex_web.ThreadMap.{
  find, ensure, remove, prune, find-ensure, assign-ensure, find-prune, assign-found, assign-assign,
}
use codex_web.Ledger.Types.{
  SendAttempt, SendReceipt, Store, WriteOutcome, prepared, submitting, with_sends,
}
use codex_web.Ledger.Sends.{
  undo_record, sends_of, store_attempt, replace_attempt, accept_with, record_with_receipt,
  new_attempt, record_send_attempt_with_receipt, original_send_options,
  is_prepared_send_with_options, discard_prepared_send_with_options, send_state_with_options,
  claim_send_submission_if, mark_send_accepted, restore_rejected_send_claim,
}
use codex_web.Ledger.Atomic.{
  Same, IsAtomic, IsAtomic-finish, find-remove-assign, find-assign-assign, find-assign-remove,
}

module _ (w : WriteOutcome) (s : Store) (t c : String) where
  replace_attempt-IsAtomic :
      (previous attempt : SendAttempt)
      → find t c s.memory.send_attempts ≡ some previous
      → IsAtomic w s (replace_attempt t c previous attempt w s)
  unfolding replace_attempt
  replace_attempt-IsAtomic previous attempt found =
      let m = s.memory.send_attempts in
      let (m1, changed) = assign-found t c attempt previous m found in
      let (m2, back) = assign-assign t c c attempt previous m m1 changed in
      rw (changed, replace_attempt)
        (IsAtomic-finish w s (with_sends s m1) _ (sends_of s.memory m2) tt refl (rw back) (record {
          queue = λ u d. refl;
          sends = λ u d. find-assign-assign t c m m1 attempt previous m2 u d found changed back;
          deletions = λ u d. refl;
          operations = λ k. refl;
        }))

  pub claim_send_submission_if-IsAtomic :
      (claim : String) (matches : SendAttempt → Bool)
      → IsAtomic w s (claim_send_submission_if t c claim matches w s)
  unfolding claim_send_submission_if
  claim_send_submission_if-IsAtomic claim matches =
      elim (Option-cases (find t c s.memory.send_attempts)) [
        | inl e ↦ ground arith
        | inr (attempt, e) ↦
            let claimed = record attempt { state = submitting; admission_id = claim } in
            ground (arith, replace_attempt-IsAtomic attempt claimed e)
      ]

  pub mark_send_accepted-IsAtomic :
      (receipt : SendReceipt) → IsAtomic w s (mark_send_accepted t c receipt w s)
  unfolding mark_send_accepted
  mark_send_accepted-IsAtomic receipt = elim (Option-cases (find t c s.memory.send_attempts)) [
    | inl e ↦ ground arith
    | inr (attempt, e) ↦
        ground (arith, replace_attempt-IsAtomic attempt (accept_with attempt receipt.turn_id) e)
  ]

  pub restore_rejected_send_claim-IsAtomic :
      (database : Bool) (claim : String)
      → IsAtomic w s (restore_rejected_send_claim database t c claim w s)
  unfolding restore_rejected_send_claim
  restore_rejected_send_claim-IsAtomic database claim =
      elim (Option-cases (find t c s.memory.send_attempts)) [
        | inl e ↦ ground arith
        | inr (attempt, e) ↦
            let restored = record attempt { state = prepared; admission_id = "" } in
            ground (arith, replace_attempt-IsAtomic attempt restored e)
      ]

  -- `ensured` is the store with a map made for the thread.
  store_attempt-IsAtomic :
      (attempt : SendAttempt) (existing : Option SendAttempt)
      → find t c s.memory.send_attempts ≡ existing
      → IsAtomic w s
          (store_attempt t c attempt existing w (with_sends s (ensure t s.memory.send_attempts)))
  unfolding store_attempt undo_record
  store_attempt-IsAtomic attempt none found =
      let m = s.memory.send_attempts in
      let (m1, made) = assign-ensure t c attempt m in
      rw (made, store_attempt)
        (IsAtomic-finish w s (with_sends s m1) _ (sends_of s.memory (prune t (remove t c m1))) tt
          refl refl
          (record {
            queue = λ u d. refl;
            sends = λ u d. find-remove-assign t c m m1 attempt u d found made;
            deletions = λ u d. refl;
            operations = λ k. refl;
          }))
  store_attempt-IsAtomic attempt (some old) found =
      let m = s.memory.send_attempts in
      let (m1, made) = assign-ensure t c attempt m in
      let (m2, back) = assign-assign t c c attempt old (ensure t m) m1 made in
      rw (made, store_attempt)
        (IsAtomic-finish w s (with_sends s m1) _ (sends_of s.memory (prune t m2)) tt refl (rw back)
          (record {
            queue = λ u d. refl;
            sends = λ u d.
                find-prune t u d m2
                ∙ find-assign-assign t c (ensure t m) m1 attempt old m2 u d
                    (find-ensure t t c m ∙ found) made back
                ∙ find-ensure t u d m;
            deletions = λ u d. refl;
            operations = λ k. refl;
          }))

  record_with_receipt-IsAtomic :
      (attempt : SendAttempt) (existing : Option SendAttempt) (receipt : Option SendReceipt)
      → find t c s.memory.send_attempts ≡ existing
      → IsAtomic w s (record_with_receipt t c attempt existing receipt w s)
  unfolding record_with_receipt
  record_with_receipt-IsAtomic attempt existing none found =
      store_attempt-IsAtomic attempt existing found
  record_with_receipt-IsAtomic attempt existing (some receipt) found =
      ground (arith, store_attempt-IsAtomic (accept_with attempt receipt.turn_id) existing found)

  module _ (lib : Library) (text context digest : String) where
    pub record_send_attempt_with_receipt-IsAtomic :
        (steered : Bool) (options : TurnOptions) (receipt : Option SendReceipt)
        → IsAtomic w s (
            record_send_attempt_with_receipt lib t c text context steered options digest receipt w
              s)
    unfolding record_send_attempt_with_receipt
    record_send_attempt_with_receipt-IsAtomic steered options receipt =
        let attempt = new_attempt lib text context steered options digest in
        elim (Option-cases (find t c s.memory.send_attempts)) [
          | inl e ↦ ground (arith, record_with_receipt-IsAtomic attempt none receipt e)
          | inr (old, e) ↦ ground (arith, record_with_receipt-IsAtomic attempt (some old) receipt e)
        ]

    pub discard_prepared_send_with_options-IsAtomic :
        IsAtomic w s (discard_prepared_send_with_options lib t text c context digest w s)
    unfolding discard_prepared_send_with_options
    discard_prepared_send_with_options-IsAtomic =
        let m = s.memory.send_attempts in
        elim (Option-cases (find t c m)) [
          | inl e ↦ ground arith
          | inr (attempt, e) ↦
              let (m1, back) = assign-ensure t c attempt (prune t (remove t c m)) in
              let kept : Same (sends_of s.memory m1) s.memory = record {
                queue = λ u d. refl;
                sends = λ u d. find-assign-remove t c m m1 attempt u d e back;
                deletions = λ u d. refl;
                operations = λ k. refl;
              } in
              ground (
                arith,
                IsAtomic-finish w s (with_sends s (prune t (remove t c m)))
                    (some (sends_of s.memory m1)) (sends_of s.memory m1) true refl refl kept,
              )
        ]

    pub send_state_with_options-IsAtomic :
        IsAtomic w s (send_state_with_options lib t c text context digest w s)
    unfolding send_state_with_options
    send_state_with_options-IsAtomic = ground arith

    pub is_prepared_send_with_options-IsAtomic :
        IsAtomic w s (is_prepared_send_with_options lib t text c context digest w s)
    unfolding is_prepared_send_with_options
    is_prepared_send_with_options-IsAtomic = ground arith

    pub original_send_options-IsAtomic :
        IsAtomic w s (original_send_options lib t text c context w s)
    unfolding original_send_options
    original_send_options-IsAtomic = ground arith
