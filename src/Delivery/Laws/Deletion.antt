-- ===== src/Delivery/Laws/Deletion.antt =====
-- When deleting a queued message succeeds (`DeleteQueueEntryWithCompletion` of codex/client.go).
use codex_web.Common.{String, ◌+◌, ◌≡◌, Bool, true, false, Option, none, some, arith, inl, inr}
use codex_web.Errors.{Outcome, ok, err, panic, Outcome-cases}
use codex_web.Library.{Library}
use codex_web.Ledger.Types.{QueueDeletionAttempt, QueueEntry}
use codex_web.Ledger.Queue.{queue_deletion_attempt, record_queue_deletion_attempt}
use codex_web.History.Messages.{queue_deletion_was_started}
use codex_web.Delivery.Call.{Surroundings, World, transact, look}
use codex_web.Delivery.Queue.{
  QueueRequests, find_entry, read_queue, finish_absent, finish_absent_queue_deletion,
  reconcile_deleted, refused_deletion, after_delete, delete_target, delete_unless_absent,
  delete_queue_entry_with_completion,
}

module _ (lib : Library) (around : Surroundings) (requests : QueueRequests)
    (thread id : String) where
  -- A call that succeeds only after the application's callback did.
  abbrev pub Completes : Outcome (Unit {0}) × World → Type 0
  Completes r = r.0 ≡ ok tt → requests.complete id ≡ ok tt

  finish_absent-Completes :
      (attempt : QueueDeletionAttempt) (started : Bool) (world : World)
      → Completes (finish_absent lib around requests thread id attempt started world)
  unfolding finish_absent
  finish_absent-Completes attempt true world h = absurd (ground arith)
  finish_absent-Completes attempt false world h = ground arith

  pub absent-Completes :
      (attempt : QueueDeletionAttempt) (world : World)
      → Completes (finish_absent_queue_deletion lib around requests thread id attempt world)
  unfolding finish_absent_queue_deletion look
  absent-Completes attempt world h =
      let searched = queue_deletion_was_started lib attempt (around.items world.events) in
      elim (Outcome-cases searched) [
        | inl (started, e) ↦
            finish_absent-Completes attempt started (record world { events = 1 + world.events })
              (ground (arith, e))
        | inr (inl (x, e)) ↦ absurd (ground (arith, e))
        | inr (inr e) ↦ absurd (ground (arith, e))
      ]

  after_delete-Completes :
      (attempt : QueueDeletionAttempt) (deleted : Outcome Bool) (world : World)
      → Completes (after_delete lib around requests thread id attempt deleted world)
  unfolding after_delete refused_deletion reconcile_deleted
  after_delete-Completes attempt (ok true) world h = ground arith
  after_delete-Completes attempt (ok false) world h =
      let read = read_queue lib around requests thread id world in
      ground (arith, absent-Completes attempt read.1)
  after_delete-Completes attempt (err e) world h =
      let read = read_queue lib around requests thread id world in
      ground (arith, absent-Completes attempt read.1)
  after_delete-Completes attempt panic world h = absurd (ground arith)

  delete_unless_absent-Completes :
      (attempted : Option QueueDeletionAttempt) (target : Option QueueEntry) (world : World)
      → Completes (delete_unless_absent lib around requests thread id attempted target world)
  unfolding delete_unless_absent delete_target
  delete_unless_absent-Completes (some attempt) none world h = absent-Completes attempt world h
  delete_unless_absent-Completes none none world h = absurd (ground arith)
  delete_unless_absent-Completes (some attempt) (some target) world h =
      ground (arith, after_delete-Completes attempt requests.deleted world)
  delete_unless_absent-Completes none (some target) world h =
      let recorded = transact lib around (record_queue_deletion_attempt lib thread target) world in
      elim (Outcome-cases recorded.0) [
        | inl (attempt, e) ↦
            ground (arith, e, after_delete-Completes attempt requests.deleted recorded.1)
        | inr (inl (x, e)) ↦ absurd (ground (arith, e))
        | inr (inr e) ↦ absurd (ground (arith, e))
      ]

  -- A deletion of a queued message that succeeds has had the application's completion succeed, on every
  -- path: deleted now, found deleted after a failed or refused request, or absent since an earlier one.
  pub delete_queue_entry_with_completion-complete :
      (world : World)
      → (delete_queue_entry_with_completion lib around requests thread id world).0 ≡ ok tt
      → requests.complete id ≡ ok tt
  unfolding delete_queue_entry_with_completion
  delete_queue_entry_with_completion-complete world h =
      let asked = transact lib around (queue_deletion_attempt thread id) world in
      let read = read_queue lib around requests thread id asked.1 in
      elim (Outcome-cases asked.0) [
        | inl (attempted, a) ↦ elim (Outcome-cases read.0) [
          | inl (entries, r) ↦
              delete_unless_absent-Completes attempted (find_entry id entries) read.1
                (ground (arith, a, r))
          | inr (inl (x, r)) ↦ absurd (ground (arith, a, r))
          | inr (inr r) ↦ absurd (ground (arith, a, r))
        ]
        | inr (inl (x, a)) ↦ absurd (ground (arith, a))
        | inr (inr a) ↦ absurd (ground (arith, a))
      ]
