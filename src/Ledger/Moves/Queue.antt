-- ===== src/Ledger/Moves/Queue.antt =====
-- The moves made by the actions on queue attempts and queue deletions (codex/client.go).
use mathlib.Core.Option
use codex_web.Common.{
  String, ◌≡◌, refl, ◌∙◌, ◌⊎◌, inl, inr, true, false, ◌&&◌, Option, none, some, arith, ◌==◌,
  Bool-cases, Option-cases,
}
use codex_web.Library.{Library}
use codex_web.ThreadMap.{
  ThreadMap, find, ensure, assign, remove, prune, find-ensure, assign-ensure, find-assign,
  find-remove, find-prune,
}
use codex_web.Ledger.Types.{
  SendAttempt, QueueEntry, QueueDeletionAttempt, Ledger, Store, WriteOutcome, with_queue,
  with_deletions,
}
use codex_web.Ledger.Sends.{queue_text_digest}
use codex_web.Ledger.Queue.{
  queue_of, deletions_of, may_queue_over, record_queue_attempt, clear_queue_attempt,
  record_queue_deletion_attempt, delegated_send, remove_found, bound_elsewhere,
  clear_queue_deletion_and_attempt,
}
use codex_web.Ledger.Moves.{stay, enqueue, dequeue, Lands, finish-Lands, Move-queue}
use codex_web.Ledger.Moves.Sends.{Moves}

module _ (w : WriteOutcome) (s : Store) (t c : String) where
  pub record_queue_attempt-Moves :
      (lib : Library) (text : String)
      → Lands s (Moves false s.memory) (record_queue_attempt lib t c text w s)
  unfolding record_queue_attempt
  record_queue_attempt-Moves lib text =
      let m = s.memory.queue_attempts in
      let digest = queue_text_digest lib text in
      elim (Option-cases (find t c m)) [
        | inl e ↦
            let (m1, made) = assign-ensure t c digest m in
            let written : may_queue_over (find t c s.memory.send_attempts) digest ≡ true
                → Moves false s.memory (queue_of s.memory m1) =
              λ h u d.
                Move-queue false t c u d s.memory (queue_of s.memory m1) (some digest)
                  (ground
                    (arith, find-assign t c u d digest (ensure t m) m1 made, find-ensure t u d m))
                  refl (enqueue digest e h refl) in
            let landed : may_queue_over (find t c s.memory.send_attempts) digest ≡ true → _ = λ h.
              finish-Lands {0} w s (with_queue s m1)
                (some (queue_of s.memory (prune t (remove t c m1)))) (tt {0}) (Moves false s.memory)
                refl (written h) in
            ground (arith, landed)
        | inr (digest, e) ↦ ground arith
      ]

  pub clear_queue_attempt-Moves : Lands s (Moves true s.memory) (clear_queue_attempt t c w s)
  unfolding clear_queue_attempt
  clear_queue_attempt-Moves =
      let m = s.memory.queue_attempts in
      let attempts = prune t (remove t c m) in
      let gone : Moves true s.memory (queue_of s.memory attempts) = λ u d.
        Move-queue true t c u d s.memory (queue_of s.memory attempts) none
          (find-prune t u d (remove t c m) ∙ find-remove t c u d m) refl
          (dequeue refl (inl refl)) in
      elim (Option-cases (find t c m)) [
        | inl e ↦ ground arith
        | inr (digest, e) ↦ ground (
          arith,
          finish-Lands {0} w s (with_queue s attempts)
              (Option.map (queue_of s.memory) (assign t c digest (ensure t attempts))) (tt {0})
              (Moves true s.memory) refl gone,
        )
      ]

-- A deletion on record changes no message.
pub record_queue_deletion_attempt-Moves :
    (w : WriteOutcome) (s : Store) (lib : Library) (t : String) (target : QueueEntry)
    → Lands s (Moves false s.memory) (record_queue_deletion_attempt lib t target w s)
unfolding record_queue_deletion_attempt
record_queue_deletion_attempt-Moves w s lib t target =
    let m = s.memory.queue_deletions in
    let attempt : QueueDeletionAttempt = record {
      client_user_message_id = target.client_user_message_id;
      digest = queue_text_digest lib target.text;
    } in
    elim (Option-cases (find t target.id m)) [
      | inl e ↦
          let (m1, made) = assign-ensure t target.id attempt m in
          ground (
            arith,
            finish-Lands {0} w s (with_deletions s m1)
                (some (deletions_of s.memory (prune t (remove t target.id m1)))) attempt
                (Moves false s.memory) refl (λ u d. stay refl),
          )
      | inr (old, e) ↦ ground arith
    ]

find-remove_found :
    (t c u d : String) (found : Option SendAttempt) (m : ThreadMap SendAttempt)
    → (find u d (remove_found t c found m) ≡ find u d m)
      ⊎ (((t == u && c == d) ≡ true) × (find u d (remove_found t c found m) ≡ none))
unfolding remove_found
find-remove_found t c u d none m = inl refl
find-remove_found t c u d (some x) m = ground (arith, find-remove t c u d m)

pub clear_queue_deletion_and_attempt-Moves :
    (w : WriteOutcome) (s : Store) (t queued_id c : String)
    → Lands s (Moves true s.memory) (clear_queue_deletion_and_attempt t queued_id c w s)
unfolding clear_queue_deletion_and_attempt
clear_queue_deletion_and_attempt-Moves w s t queued_id c =
    let l = s.memory in
    let digest = find t c l.queue_attempts in
    let removed = delegated_send (find t c l.send_attempts) digest in
    let after : Ledger = record l {
      queue_attempts = prune t (remove t c l.queue_attempts);
      send_attempts = remove_found t c removed l.send_attempts;
      queue_deletions = prune t (remove t queued_id l.queue_deletions);
    } in
    let gone : Moves true l after = λ u d. elim (Bool-cases (t == u && c == d)) [
      | inl hit ↦ dequeue refl (
          ground (
            arith,
            find-prune t u d (remove t c l.queue_attempts),
            find-remove t c u d l.queue_attempts,
            find-remove_found t c u d removed l.send_attempts,
          ))
      | inr miss ↦ stay (
          ground (
            arith,
            find-prune t u d (remove t c l.queue_attempts),
            find-remove t c u d l.queue_attempts,
            find-remove_found t c u d removed l.send_attempts,
          ))
    ] in
    elim (Bool-cases (bound_elsewhere (find t queued_id l.queue_deletions) c)) [
      | inl h ↦ rw h (inl refl)
      | inr h ↦ rw h (finish-Lands w s (record s { memory = after }) _ tt (Moves true l) refl gone)
    ]
