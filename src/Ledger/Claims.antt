-- ===== src/Ledger/Claims.antt =====
-- Who holds a message's submission (`claimSendSubmissionIf` within its transaction).
use mathlib.Core.Option
use codex_web.Common.{
  String, ◌≡◌, ◌≢◌, refl, sym, subst, ap, inl, inr, Bool, true, Option, none, some, arith, eq_refl,
  Option-cases,
}
use codex_web.Errors.{Outcome, ok, Outcome-cases}
use codex_web.Library.{Library}
use codex_web.ThreadMap.{find, assign, find-assign}
use codex_web.Ledger.Types.{
  submitting, SendAttempt, Ledger, Store, WriteOutcome, written, not_written, unsynced, is_prepared,
  is_submitting, finish, with_sends,
}
use codex_web.Ledger.Sends.{claim_send_submission_if, replace_attempt, sends_of}
use codex_web.Ledger.Load.{
  Opening, opened, migrated, refused, read_attempt, load_queue_ledger, queue_ledger_transaction,
}
use codex_web.Ledger.Moves.Safety.{in_submission, at-load}

module _ (t c : String) where
  finish-holds :
      (w : WriteOutcome) (s s' : Store) (undo : Option Ledger) (v : SendAttempt)
      → find t c s'.memory.send_attempts ≡ some v
      → (finish {0} w s' undo tt).0 ≡ ok (tt {0})
      → find t c (finish {0} w s' undo tt).1.durable.send_attempts ≡ some v
  finish-holds written s s' undo v e h = e
  finish-holds not_written s s' none v e h = absurd (ground arith)
  finish-holds not_written s s' (some l) v e h = absurd (ground arith)
  finish-holds unsynced s s' none v e h = absurd (ground arith)
  finish-holds unsynced s s' (some l) v e h = absurd (ground arith)

  replace-holds :
      (w : WriteOutcome) (s : Store) (old new : SendAttempt)
      → (replace_attempt t c old new w s).0 ≡ ok tt
      → find t c (replace_attempt t c old new w s).1.durable.send_attempts ≡ some new
  unfolding replace_attempt
  replace-holds w s old new h = elim (Option-cases (assign t c new s.memory.send_attempts)) [
    | inl e ↦ absurd (ground (arith, e))
    | inr (sends, e) ↦
        let found : find t c sends ≡ some new =
          ground
            (arith, find-assign t c t c new s.memory.send_attempts sends, eq_refl t, eq_refl c) in
        let undo : Option Ledger = Option.map (sends_of s.memory) (assign t c old sends) in
        let opened_up : replace_attempt t c old new w s ≡ finish w (with_sends s sends) undo tt =
          rw (e, replace_attempt) refl in
        subst (λ r. find t c r.1.durable.send_attempts ≡ some new) (sym opened_up)
          (finish-holds w s (with_sends s sends) undo new found
            (subst (λ r. r.0 ≡ ok tt) opened_up h))
  ]

  claim-holds :
      (claim : String) (matches : SendAttempt → Bool) (w : WriteOutcome) (s : Store)
      → (claim_send_submission_if t c claim matches w s).0 ≡ ok tt
      → in_submission
          (find t c (claim_send_submission_if t c claim matches w s).1.durable.send_attempts)
        ≡ true
  unfolding claim_send_submission_if in_submission is_submitting
  claim-holds claim matches w s h = elim (Option-cases (find t c s.memory.send_attempts)) [
    | inl e ↦ absurd (ground (arith, e))
    | inr (x, e) ↦
        ground
          (arith, e, replace-holds w s x (record x { state = submitting; admission_id = claim }))
  ]

  held-claim :
      (claim : String) (matches : SendAttempt → Bool) (w : WriteOutcome) (s : Store)
      → in_submission (find t c s.memory.send_attempts) ≡ true
      → (claim_send_submission_if t c claim matches w s).0 ≢ ok tt
  unfolding claim_send_submission_if in_submission is_submitting is_prepared
  held-claim claim matches w s held h = elim (Option-cases (find t c s.memory.send_attempts)) [
    | inl e ↦ ground (arith, e)
    | inr (x, e) ↦ ground (arith, e)
  ]

module _ (lib : Library) (t c : String) where
  abbrev pub claim_transaction :
      Opening → WriteOutcome → String → (SendAttempt → Bool) → Ledger → Outcome (Unit {0}) × Ledger
  claim_transaction opening w claim matches l =
      queue_ledger_transaction lib opening w (claim_send_submission_if t c claim matches) l

  claimed-in_submission :
      (opening : Opening) (w : WriteOutcome) (claim : String) (matches : SendAttempt → Bool)
      (l : Ledger)
      → (claim_transaction opening w claim matches l).0 ≡ ok tt
      → in_submission (find t c (claim_transaction opening w claim matches l).1.send_attempts)
        ≡ true
  unfolding queue_ledger_transaction
  claimed-in_submission (refused e) w claim matches l h = absurd (ground arith)
  claimed-in_submission opened w claim matches l h =
      elim (Outcome-cases (load_queue_ledger lib l)) [
        | inl (l', e) ↦
            ground (arith, e, claim-holds t c claim matches w (record { memory = l'; durable = l }))
        | inr (inl (x, e)) ↦ absurd (ground (arith, e))
        | inr (inr e) ↦ absurd (ground (arith, e))
      ]
  claimed-in_submission (migrated written) w claim matches l h =
      elim (Outcome-cases (load_queue_ledger lib l)) [
        | inl (l', e) ↦
            ground
              (arith, e, claim-holds t c claim matches w (record { memory = l'; durable = l' }))
        | inr (inl (x, e)) ↦ absurd (ground (arith, e))
        | inr (inr e) ↦ absurd (ground (arith, e))
      ]
  claimed-in_submission (migrated not_written) w claim matches l h = absurd (ground (arith, h))
  claimed-in_submission (migrated unsynced) w claim matches l h = absurd (ground (arith, h))

  held-claim_transaction :
      (opening : Opening) (w : WriteOutcome) (claim : String) (matches : SendAttempt → Bool)
      (l : Ledger)
      → in_submission (find t c l.send_attempts) ≡ true
      → (claim_transaction opening w claim matches l).0 ≢ ok tt
  unfolding queue_ledger_transaction in_submission read_attempt
  held-claim_transaction (refused e) w claim matches l held h = ground arith
  held-claim_transaction opened w claim matches l held h =
      elim (Outcome-cases (load_queue_ledger lib l)) [
        | inl (l', e) ↦ ground (
          arith,
          e,
          ap (λ m. m.send) (at-load lib l l' t c e),
          held-claim t c claim matches w (record { memory = l'; durable = l }),
        )
        | inr (inl (x, e)) ↦ ground (arith, e)
        | inr (inr e) ↦ ground (arith, e)
      ]
  held-claim_transaction (migrated written) w claim matches l held h =
      elim (Outcome-cases (load_queue_ledger lib l)) [
        | inl (l', e) ↦ ground (
          arith,
          e,
          ap (λ m. m.send) (at-load lib l l' t c e),
          held-claim t c claim matches w (record { memory = l'; durable = l' }),
        )
        | inr (inl (x, e)) ↦ ground (arith, e)
        | inr (inr e) ↦ ground (arith, e)
      ]
  held-claim_transaction (migrated not_written) w claim matches l held h = ground (arith, h)
  held-claim_transaction (migrated unsynced) w claim matches l held h = ground (arith, h)

  -- Of two claims of one message that follow each other, only the first can succeed: a claim that
  -- succeeded leaves a ledger in which the next one does not, whatever its claim, action and options.
  pub claim-excludes :
      (opening opening' : Opening) (w w' : WriteOutcome) (claim claim' : String)
      → (matches matches' : SendAttempt → Bool) (l : Ledger)
      → (claim_transaction opening w claim matches l).0 ≡ ok tt
      → (claim_transaction opening' w' claim' matches'
          (claim_transaction opening w claim matches l).1).0
        ≢ ok tt
  claim-excludes opening opening' w w' claim claim' matches matches' l h =
      held-claim_transaction opening' w' claim' matches'
        (claim_transaction opening w claim matches l).1
        (claimed-in_submission opening w claim matches l h)
