-- ===== src/Delivery/Deletions.antt =====
-- `ReconcileQueueDeletionsWithCompletion` of codex/client.go: it finishes the recorded deletions whose
-- queue entry is gone. The order of the map's entries, which Go leaves open, is that of the list.
use mathlib.Core.List.{Memᴰ}
use mathlib.Core.List.Memᴰ
use codex_web.Common.{
  String, ◌≡◌, ap, ◌∙◌, false, none, some, List, [], ◌∷◌, arith, inl, inr, if◌then◌else◌,
  Bool-cases,
}
use codex_web.Errors.{ok, Outcome-cases}
use codex_web.GoMap.{GoMap, lookup}
use codex_web.Library.{Library}
use codex_web.Ledger.Types.{QueueDeletionAttempt, QueueEntry, Action}
use codex_web.Delivery.Call.{Surroundings, World, Call, ◌>>=◌, ◌>>◌, done, known, transact}
use codex_web.Delivery.Queue.{
  QueueRequests, queue_contains_submission, read_queue, finish_absent_queue_deletion,
}
use codex_web.Delivery.Laws.Deletion.{absent-Completes}

unfoldable pub pending_deletions : String → Action (GoMap QueueDeletionAttempt)
pending_deletions thread w s = elim (lookup thread s.memory.queue_deletions) [
  | none ↦ (ok [], s)
  | some attempts ↦ (ok attempts, s)
]

module _ (lib : Library) (around : Surroundings) (requests : QueueRequests) (thread : String) where
  -- The loop over the recorded deletions.
  unfoldable pub reconcile_each : List QueueEntry → GoMap QueueDeletionAttempt → Call (Unit {0})
  reconcile_each entries [] = done tt
  reconcile_each entries ((id, attempt) ∷ attempts) =
      let rest = reconcile_each entries attempts in
      if queue_contains_submission entries id
      then rest
      else (finish_absent_queue_deletion lib around requests thread id attempt >> rest)

  unfoldable pub reconcile_pending : GoMap QueueDeletionAttempt → Call (Unit {0})
  reconcile_pending [] = done tt
  reconcile_pending (pending ∷ attempts) = read_queue lib around requests thread "" >>= λ entries.
      reconcile_each entries (pending ∷ attempts)

  unfoldable pub reconcile_queue_deletions_with_completion : Call (Unit {0})
  reconcile_queue_deletions_with_completion = do
    known around.thread_lock
    attempts ← transact lib around (pending_deletions thread)
    reconcile_pending attempts

  -- Where the loop succeeds, the application's completion succeeded for every recorded deletion whose
  -- queue entry is gone.
  pub reconcile_each-complete :
      (entries : List QueueEntry) (attempts : GoMap QueueDeletionAttempt) (world : World)
      → (reconcile_each entries attempts world).0 ≡ ok tt
      → (id : String) (attempt : QueueDeletionAttempt) → Memᴰ (id, attempt) attempts
      → queue_contains_submission entries id ≡ false
      → requests.complete id ≡ ok tt
  unfolding reconcile_each
  reconcile_each-complete entries [] world h id attempt among gone = absurd (Memᴰ.not-nil among)
  reconcile_each-complete entries ((j, a) ∷ attempts) world h id attempt among gone =
      let finished = finish_absent_queue_deletion lib around requests thread j a world in
      elim (Bool-cases (queue_contains_submission entries j)) [
        | inl present ↦ elim (Memᴰ.cases_cons among) [
          | inl same ↦
              let same_id : id ≡ j = ap (λ p. p.0) same in
              absurd (ground (arith, present, gone, same_id))
          | inr later ↦
              reconcile_each-complete entries attempts world (ground (arith, present)) id attempt
                later gone
        ]
        | inr absent ↦ elim (Outcome-cases finished.0) [
          | inl (_, f) ↦ elim (Memᴰ.cases_cons among) [
            | inl same ↦
                ap (λ p. requests.complete p.0) same
                ∙ absent-Completes lib around requests thread j a world (ground (arith, f))
            | inr later ↦
                reconcile_each-complete entries attempts finished.1 (ground (arith, absent, f)) id
                  attempt later gone
          ]
          | inr f ↦ absurd (ground (arith, absent, f))
        ]
      ]
