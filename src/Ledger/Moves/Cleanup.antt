-- ===== src/Ledger/Moves/Cleanup.antt =====
-- The moves made by the actions that retire records (codex/client.go).

use codex_web.Common.{
  String, ◌≡◌, refl, ◌⊎◌, inl, inr, true, false, ◌||◌, none, List, [], ◌∷◌, arith, ◌==◌,
  if◌then◌else◌, Bool-cases, Option-cases,
}
use codex_web.Errors.{Outcome, ok, err, panic}
use codex_web.GoMap.{GoMap, lookup, delete, lookup-delete}
use codex_web.ThreadMap.{ThreadMap, find, remove, prune, find-remove, find-prune}
use codex_web.Ledger.Types.{SendAttempt, QueueDeletionAttempt, Store, WriteOutcome, with_sends}
use codex_web.Ledger.Sends.{sends_of}
use codex_web.Ledger.Cleanup.{
  SendAcknowledgement, has, text_at, remove_proven, after_removal, release_proven, bound_to_other,
  clear_retired_thread_attempts, clear_conversation_attempts, record_thread_operation_attempt,
}
use codex_web.Ledger.Moves.{stay, retire, dequeue, Lands, finish-Lands}
use codex_web.Ledger.Moves.Sends.{Moves}

find-delete :
    {V : Type 0} (t u d : String) (m : ThreadMap V)
    → find u d (delete t m) ≡ (if t == u then none else find u d m)
unfolding find
find-delete t u d m = ground (arith, lookup-delete t u m)

module _ (w : WriteOutcome) (s : Store) (t : String) where
  -- All of a thread's attempts at once.
  delete-Moves :
      (deletions : ThreadMap QueueDeletionAttempt) (operations : GoMap String)
      → Moves true s.memory (record {
        queue_attempts = delete t s.memory.queue_attempts;
        send_attempts = delete t s.memory.send_attempts;
        queue_deletions = deletions;
        operations = operations;
      })
  delete-Moves deletions operations u d = elim (Bool-cases (t == u)) [
    | inl hit ↦ dequeue refl (
        inr (
          ground (
            arith,
            find-delete t u d s.memory.queue_attempts,
            find-delete t u d s.memory.send_attempts,
          )))
    | inr miss ↦ stay (
        ground (
          arith,
          find-delete t u d s.memory.queue_attempts,
          find-delete t u d s.memory.send_attempts,
        ))
  ]

  pub clear_retired_thread_attempts-Moves :
      Lands s (Moves true s.memory) (clear_retired_thread_attempts t w s)
  unfolding clear_retired_thread_attempts
  clear_retired_thread_attempts-Moves =
      let l = s.memory in
      elim (Bool-cases (
        has (lookup t l.queue_attempts)
        || has (lookup t l.send_attempts)
        || has (lookup t l.queue_deletions))) [
          | inl h ↦ rw h (
              finish-Lands w s _ _ tt (Moves true l) refl
                (delete-Moves (delete t l.queue_deletions) l.operations))
          | inr h ↦ rw h (inl refl)
        ]

  pub clear_conversation_attempts-Moves :
      (directory : String)
      → Lands s (Moves true s.memory) (clear_conversation_attempts t directory w s)
  unfolding clear_conversation_attempts
  clear_conversation_attempts-Moves directory =
      let l = s.memory in
      let operation = lookup directory l.operations in
      elim (Bool-cases (bound_to_other operation t)) [
        | inl h ↦ rw h (inl refl)
        | inr h ↦
            rw h
              (elim (Bool-cases (
                has (lookup t l.queue_attempts)
                || has (lookup t l.send_attempts)
                || has (lookup t l.queue_deletions)
                || has operation)) [
                  | inl k ↦ rw k (
                      finish-Lands w s _ _ tt (Moves true l) refl
                        (delete-Moves (delete t l.queue_deletions) (delete directory l.operations)))
                  | inr k ↦ rw k (inl refl)
                ])
      ]

-- A binding of a directory changes no message.
pub record_thread_operation_attempt-Moves :
    (w : WriteOutcome) (s : Store) (directory t : String)
    → Lands s (Moves false s.memory) (record_thread_operation_attempt directory t w s)
unfolding record_thread_operation_attempt
record_thread_operation_attempt-Moves w s directory t =
    elim (Bool-cases (text_at directory s.memory.operations == "")) [
      | inl h ↦ rw h (finish-Lands w s _ _ tt (Moves false s.memory) refl (λ u d. stay refl))
      | inr h ↦ rw h (ground arith)
    ]

-- The loop only takes send attempts out.
remove_proven-none :
    (t : String) (digests proven : GoMap String) (sends : ThreadMap SendAttempt)
    → (removed : List (String × SendAttempt)) (u d : String)
    → let after = (remove_proven t digests proven sends removed).1 in
      (find u d after ≡ find u d sends) ⊎ (find u d after ≡ none)
unfolding remove_proven
remove_proven-none t digests [] sends removed u d = inl refl
remove_proven-none t digests ((c, turn) ∷ rest) sends removed u d =
    elim (Option-cases (find t c sends)) [
      | inl e ↦ rw (e, remove_proven) (remove_proven-none t digests rest sends removed u d)
      | inr (x, e) ↦ ground (
        arith,
        remove_proven-none t digests rest (remove t c sends) ((c, x) ∷ removed) u d,
        find-remove t c u d sends,
      )
    ]

module _ (w : WriteOutcome) (s : Store) (t : String) where
  after_removal-Moves :
      (acks : List SendAcknowledgement) (proven : GoMap String)
      → (r : Outcome (List (String × SendAttempt))) (sends : ThreadMap SendAttempt)
      → ((u d : String)
          → (find u d sends ≡ find u d s.memory.send_attempts) ⊎ (find u d sends ≡ none))
      → Lands s (Moves true s.memory) (after_removal t acks proven r sends w s)
  unfolding after_removal
  after_removal-Moves acks proven panic sends h = inl refl
  after_removal-Moves acks proven (err e) sends h = inl refl
  after_removal-Moves acks proven (ok []) sends h = inl refl
  after_removal-Moves acks proven (ok (r ∷ removed)) sends h =
      finish-Lands w s (with_sends s (prune t sends)) _ _ (Moves true s.memory) refl gone
    where
      gone : Moves true s.memory (sends_of s.memory (prune t sends))
      gone u d = elim (h u d) [
        | inl same ↦ stay (ground (arith, find-prune t u d sends))
        | inr none' ↦ retire refl (ground (arith, find-prune t u d sends))
      ]

  pub release_proven-Moves :
      (digests : GoMap String) (acks : List SendAcknowledgement) (proven : GoMap String)
      → Lands s (Moves true s.memory) (release_proven t digests acks proven w s)
  unfolding release_proven
  release_proven-Moves digests acks proven =
      after_removal-Moves acks proven _ _
        (remove_proven-none t digests proven s.memory.send_attempts [])
