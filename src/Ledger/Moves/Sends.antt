-- ===== src/Ledger/Moves/Sends.antt =====
-- The moves made by the actions on send attempts (codex/client.go, codex/send_delivery.go).
use mathlib.Core.Option
use codex_web.Common.{
  String, ◌≡◌, refl, subst, ◌∙◌, ◌⊎◌, inl, inr, Bool, true, false, ◌&&◌, Option, none, some, arith,
  ◌==◌, eq_iff, Option-cases,
}
use codex_web.Library.{Library}
use codex_web.TurnOptions.{TurnOptions}
use codex_web.ThreadMap.{
  ThreadMap, find, ensure, assign, remove, prune, find-ensure, assign-ensure, find-assign,
  find-remove, find-prune, assign-found,
}
use codex_web.Ledger.Types.{
  SendState, prepared, submitting, SendAttempt, SendReceipt, Ledger, Store, WriteOutcome,
  with_sends, is_prepared, is_submitting,
}
use codex_web.Ledger.Sends.{
  sends_of, store_attempt, replace_attempt, accept_with, record_with_receipt, receipt_fits,
  is_accepted_attempt, same_action, bool_eq, new_attempt, is_queued,
  record_send_attempt_with_receipt, discard_prepared_send_with_options, claim_send_submission_if,
  mark_send_accepted, restore_rejected_send_claim, queue_text_digest,
}
use codex_web.Ledger.Moves.{
  at, counts, SameMessage, Move, prepare, claim, accept, restore, prove, discard, Lands,
  finish-Lands, Move-send,
}

-- Every message of `l` is one move on from what it is in `m`.
abbrev pub Moves : Bool → Ledger → Ledger → Type 0
Moves retires m l = (u d : String) → Move retires (at u d m) (at u d l)

is_prepared_eq : (x : SendState) → is_prepared x ≡ true → x ≡ prepared
unfolding is_prepared
is_prepared_eq prepared h = refl
is_prepared_eq _ h = absurd (ground arith)

is_submitting_eq : (x : SendState) → is_submitting x ≡ true → x ≡ submitting
unfolding is_submitting
is_submitting_eq prepared h = absurd (ground arith)
is_submitting_eq submitting h = refl
is_submitting_eq _ h = absurd (ground arith)

module _ (t c : String) (m : Ledger) where
  counts-is_queued : counts (at t c m).queued ≡ is_queued t c m
  unfolding counts is_queued
  counts-is_queued = ground arith

  -- One send attempt written over the maps of `m`.
  Moves-assign :
      (x : SendAttempt) (sends sends' : ThreadMap SendAttempt)
      → ((u d : String) → find u d sends ≡ find u d m.send_attempts)
      → assign t c x sends ≡ some sends'
      → Move false (at t c m) (record { queued = find t c m.queue_attempts; send = some x })
      → Moves false m (sends_of m sends')
  Moves-assign x sends sends' same e move u d =
      Move-send false t c u d m (sends_of m sends') (some x) refl
        (ground (arith, find-assign t c u d x sends sends' e, same u d)) move

module _ (w : WriteOutcome) (s : Store) (t c : String) where
  replace_attempt-Moves :
      (old x : SendAttempt)
      → find t c s.memory.send_attempts ≡ some old
      → Move false
          (at t c s.memory)
          (record { queued = find t c s.memory.queue_attempts; send = some x })
      → Lands s (Moves false s.memory) (replace_attempt t c old x w s)
  unfolding replace_attempt
  replace_attempt-Moves old x found move =
      let m = s.memory.send_attempts in
      let (m1, changed) = assign-found t c x old m found in
      rw (changed, replace_attempt)
        (finish-Lands w s (with_sends s m1) _ tt (Moves false s.memory) refl
          (Moves-assign t c s.memory x m m1 (λ u d. refl) changed move))

  store_attempt-Moves :
      (x : SendAttempt) (existing : Option SendAttempt)
      → Move false
          (at t c s.memory)
          (record { queued = find t c s.memory.queue_attempts; send = some x })
      → Lands s
          (Moves false s.memory)
          (store_attempt t c x existing w (with_sends s (ensure t s.memory.send_attempts)))
  unfolding store_attempt
  store_attempt-Moves x existing move =
      let m = s.memory.send_attempts in
      let (m1, made) = assign-ensure t c x m in
      rw (made, store_attempt)
        (finish-Lands w s (with_sends s m1) _ tt (Moves false s.memory) refl
          (Moves-assign t c s.memory x (ensure t m) m1 (λ u d. find-ensure t u d m) made move))

  pub claim_send_submission_if-Moves :
      (name : String) (matches : SendAttempt → Bool)
      → Lands s (Moves false s.memory) (claim_send_submission_if t c name matches w s)
  unfolding claim_send_submission_if
  claim_send_submission_if-Moves name matches =
      elim (Option-cases (find t c s.memory.send_attempts)) [
        | inl e ↦ ground arith
        | inr (x, e) ↦
            let claimed = record x { state = submitting; admission_id = name } in
            let written : is_prepared x.state ≡ true
                → is_queued t c s.memory ≡ false
                → Lands s (Moves false s.memory) (replace_attempt t c x claimed w s) =
              λ p q. replace_attempt-Moves x claimed e (
                claim x name e (is_prepared_eq x.state p) (counts-is_queued t c s.memory ∙ q)
                  refl) in
            ground (arith, written)
      ]

  pub mark_send_accepted-Moves :
      (receipt : SendReceipt) → Lands s (Moves false s.memory) (mark_send_accepted t c receipt w s)
  unfolding mark_send_accepted
  mark_send_accepted-Moves receipt = elim (Option-cases (find t c s.memory.send_attempts)) [
    | inl e ↦ ground arith
    | inr (x, e) ↦
        let y = accept_with x receipt.turn_id in
        let written : is_submitting x.state ≡ true
            → (receipt.turn_id == "") ≡ false
            → Lands s (Moves false s.memory) (replace_attempt t c x y w s) =
          λ p q.
            replace_attempt-Moves x y e
              (accept x receipt.turn_id e (is_submitting_eq x.state p) q refl) in
        ground (arith, written)
  ]

  pub restore_rejected_send_claim-Moves :
      (database : Bool) (name : String)
      → Lands s (Moves false s.memory) (restore_rejected_send_claim database t c name w s)
  unfolding restore_rejected_send_claim
  restore_rejected_send_claim-Moves database name =
      elim (Option-cases (find t c s.memory.send_attempts)) [
        | inl e ↦ ground arith
        | inr (x, e) ↦
            let y = record x { state = prepared; admission_id = "" } in
            let written : is_submitting x.state ≡ true
                → Lands s (Moves false s.memory) (replace_attempt t c x y w s) =
              λ p. replace_attempt-Moves x y e (restore x e (is_submitting_eq x.state p) refl) in
            ground (arith, written)
      ]

  record_with_receipt-Moves :
      (x : SendAttempt) (existing : Option SendAttempt) (receipt : Option SendReceipt)
      → find t c s.memory.send_attempts ≡ existing
      → x.state ≡ prepared
      → x.turn_id ≡ ""
      → ((old : SendAttempt) → existing ≡ some old → SameMessage old x)
      → (existing ≡ none) ⊎ ((proof : SendReceipt) × (receipt ≡ some proof))
      → Lands s (Moves false s.memory) (record_with_receipt t c x existing receipt w s)
  unfolding record_with_receipt receipt_fits
  record_with_receipt-Moves x existing none found p q same h =
      store_attempt-Moves x existing (prepare x (ground (arith, found)) p q refl)
  record_with_receipt-Moves x existing (some receipt) found p q same h =
      let y = accept_with x receipt.turn_id in
      let written : is_accepted_attempt existing ≡ false
          → (receipt.turn_id == "") ≡ false
          → Lands s (Moves false s.memory)
              (store_attempt t c y existing w (with_sends s (ensure t s.memory.send_attempts))) =
        λ a b.
          store_attempt-Moves y existing
            (prove y (rw found a) (λ old e. ground (arith, same old)) refl b refl) in
      ground (arith, written)

  module _ (lib : Library) (text context digest : String) where
    same_action-SameMessage :
        (old : SendAttempt) (steered : Bool) (options : TurnOptions)
        → (same_action lib old text context digest && bool_eq old.steered steered) ≡ true
        → SameMessage old (new_attempt lib text context steered options digest)
    unfolding same_action bool_eq new_attempt
    same_action-SameMessage old steered options h =
        ground (arith, eq_iff old.digest (queue_text_digest lib text), eq_iff old.context context)

    pub record_send_attempt_with_receipt-Moves :
        (steered : Bool) (options : TurnOptions) (receipt : Option SendReceipt)
        → Lands s (Moves false s.memory) (
            record_send_attempt_with_receipt lib t c text context steered options digest receipt w
              s)
    unfolding record_send_attempt_with_receipt
    record_send_attempt_with_receipt-Moves steered options none =
        let x = new_attempt lib text context steered options digest in
        elim (Option-cases (find t c s.memory.send_attempts)) [
          | inl e ↦
              rw (e, record_send_attempt_with_receipt)
                (record_with_receipt-Moves x none none e (unfold new_attempt in refl)
                  (unfold new_attempt in refl) (λ old h. absurd (ground arith)) (inl refl))
          | inr (old, e) ↦ ground arith
        ]
    record_send_attempt_with_receipt-Moves steered options (some proof) =
        let x = new_attempt lib text context steered options digest in
        elim (Option-cases (find t c s.memory.send_attempts)) [
          | inl e ↦
              rw (e, record_send_attempt_with_receipt)
                (record_with_receipt-Moves x none (some proof) e (unfold new_attempt in refl)
                  (unfold new_attempt in refl) (λ old h. absurd (ground arith)) (inl refl))
          | inr (old, e) ↦
              let written : (same_action lib old text context digest && bool_eq old.steered steered)
                    ≡ true
                  → Lands s (Moves false s.memory)
                      (record_with_receipt t c x (some old) (some proof) w s) =
                λ h.
                  record_with_receipt-Moves x (some old) (some proof) e (unfold new_attempt in refl)
                    (unfold new_attempt in refl)
                    (λ old' h'.
                      let same : old ≡ old' = ground arith in
                      subst (λ y. SameMessage y x) same
                        (same_action-SameMessage old steered options h))
                    (inr (proof, refl)) in
              ground (arith, written)
        ]

    pub discard_prepared_send_with_options-Moves :
        Lands s
          (Moves false s.memory)
          (discard_prepared_send_with_options lib t text c context digest w s)
    unfolding discard_prepared_send_with_options
    discard_prepared_send_with_options-Moves =
        let m = s.memory.send_attempts in
        let sends = prune t (remove t c m) in
        elim (Option-cases (find t c m)) [
          | inl e ↦ ground arith
          | inr (x, e) ↦
              let gone : is_prepared x.state ≡ true
                  → is_queued t c s.memory ≡ false
                  → Moves false s.memory (sends_of s.memory sends) =
                λ p q u d.
                  Move-send false t c u d s.memory (sends_of s.memory sends) none refl
                    (find-prune t u d (remove t c m) ∙ find-remove t c u d m)
                    (discard x e (is_prepared_eq x.state p) (counts-is_queued t c s.memory ∙ q)
                      refl) in
              let landed : is_prepared x.state ≡ true → is_queued t c s.memory ≡ false → _ = λ p q.
                finish-Lands {0} w s (with_sends s sends)
                  (Option.map (sends_of s.memory) (assign t c x (ensure t sends))) true
                  (Moves false s.memory) refl (gone p q) in
              ground (arith, landed)
        ]
