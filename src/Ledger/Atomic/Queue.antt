-- ===== src/Ledger/Atomic/Queue.antt =====
-- Atomicity of the actions on queue attempts and queue deletions (codex/client.go).
use codex_web.Common.{
  String, ◌≡◌, refl, ◌⊎◌, inl, inr, Option, none, some, arith, eq_iff, Option-cases,
}
use codex_web.Library.{Library}
use codex_web.ThreadMap.{
  ThreadMap, find, remove, prune, assign-ensure, find-assign, find-remove, find-prune,
  assign-remove,
}
use codex_web.Ledger.Types.{
  SendAttempt, QueueDeletionAttempt, QueueEntry, Ledger, Store, WriteOutcome, with_queue,
  with_deletions,
}
use codex_web.Ledger.Sends.{queue_text_digest}
use codex_web.Ledger.Queue.{
  queue_of, deletions_of, queue_attempt, record_queue_attempt, record_queue_deletion_attempt,
  clear_queue_attempt, delegated_send, put_back, put_back_unchecked, remove_found,
  clear_queue_deletion_and_attempt,
}
use codex_web.Ledger.Atomic.{
  Same, IsAtomic, IsAtomic-finish, find-remove-assign, find-assign-remove,
}

module _ (w : WriteOutcome) (s : Store) (t c : String) where
  module _ (lib : Library) (text : String) where
    pub queue_attempt-IsAtomic : IsAtomic w s (queue_attempt lib t c text w s)
    unfolding queue_attempt
    queue_attempt-IsAtomic = ground arith

    pub record_queue_attempt-IsAtomic : IsAtomic w s (record_queue_attempt lib t c text w s)
    unfolding record_queue_attempt
    record_queue_attempt-IsAtomic =
        let m = s.memory.queue_attempts in
        elim (Option-cases (find t c m)) [
          | inl e ↦
              let (m1, made) = assign-ensure t c (queue_text_digest lib text) m in
              let undo = queue_of s.memory (prune t (remove t c m1)) in
              let back : Same undo s.memory = record {
                queue = λ u d. find-remove-assign t c m m1 (queue_text_digest lib text) u d e made;
                sends = λ u d. refl;
                deletions = λ u d. refl;
                operations = λ k. refl;
              } in
              ground (
                arith,
                IsAtomic-finish {0} w s (with_queue s m1) (some undo) undo (tt {0}) refl refl back,
              )
          | inr (digest, e) ↦ ground arith
        ]

  pub clear_queue_attempt-IsAtomic : IsAtomic w s (clear_queue_attempt t c w s)
  unfolding clear_queue_attempt
  clear_queue_attempt-IsAtomic =
      let m = s.memory.queue_attempts in
      elim (Option-cases (find t c m)) [
        | inl e ↦ ground arith
        | inr (digest, e) ↦
            let (m1, back) = assign-ensure t c digest (prune t (remove t c m)) in
            let undo = queue_of s.memory m1 in
            let kept : Same undo s.memory = record {
              queue = λ u d. find-assign-remove t c m m1 digest u d e back;
              sends = λ u d. refl;
              deletions = λ u d. refl;
              operations = λ k. refl;
            } in
            ground (
              arith,
              IsAtomic-finish {0} w s (with_queue s (prune t (remove t c m))) (some undo) undo
                  (tt {0}) refl refl kept,
            )
      ]

pub record_queue_deletion_attempt-IsAtomic :
    (w : WriteOutcome) (s : Store) (lib : Library) (t : String) (target : QueueEntry)
    → IsAtomic w s (record_queue_deletion_attempt lib t target w s)
unfolding record_queue_deletion_attempt
record_queue_deletion_attempt-IsAtomic w s lib t target =
    let m = s.memory.queue_deletions in
    let attempt : QueueDeletionAttempt = record {
      client_user_message_id = target.client_user_message_id;
      digest = queue_text_digest lib target.text;
    } in
    elim (Option-cases (find t target.id m)) [
      | inl e ↦
          let (m1, made) = assign-ensure t target.id attempt m in
          let undo = deletions_of s.memory (prune t (remove t target.id m1)) in
          let back : Same undo s.memory = record {
            queue = λ u d. refl;
            sends = λ u d. refl;
            deletions = λ u d. find-remove-assign t target.id m m1 attempt u d e made;
            operations = λ k. refl;
          } in
          ground (
            arith,
            IsAtomic-finish {0} w s (with_deletions s m1) (some undo) undo attempt refl refl back,
          )
      | inr (old, e) ↦ ground arith
    ]

module _ {V : Type 0} (t c : String) (m : ThreadMap V) where
  -- What was found and removed is put back.
  put_back-prune :
      (found : Option V)
      → find t c m ≡ found
      → (back : ThreadMap V) × (put_back t c found (prune t (remove t c m)) ≡ some back)
        × ((u d : String) → find u d back ≡ find u d m)
  unfolding put_back
  put_back-prune none e = (
    prune t (remove t c m),
    refl,
    λ u d.
        ground
          (arith, find-prune t u d (remove t c m), find-remove t c u d m, eq_iff t u, eq_iff c d),
  )
  put_back-prune (some v) e =
      let (back, made) = assign-ensure t c v (prune t (remove t c m)) in
      (back, made, λ u d. find-assign-remove t c m back v u d e made)

  put_back_unchecked-remove_found :
      (found removed : Option V)
      → find t c m ≡ found
      → (removed ≡ none) ⊎ (removed ≡ found)
      → (back : ThreadMap V) × (put_back_unchecked t c removed (remove_found t c removed m)
          ≡ some back)
        × ((u d : String) → find u d back ≡ find u d m)
  unfolding put_back_unchecked remove_found
  put_back_unchecked-remove_found found none e r = (m, refl, λ u d. refl)
  put_back_unchecked-remove_found none (some v) e r = absurd (ground arith)
  put_back_unchecked-remove_found (some old) (some v) e r =
      let (back, made) = assign-remove t c c v old m e in
      (
        back,
        made,
        λ u d. ground (
          arith,
          find-assign t c u d v (remove t c m) back,
          find-remove t c u d m,
          eq_iff t u,
          eq_iff c d,
        ),
      )

delegated_send-found :
    (send : Option SendAttempt) (digest : Option String)
    → (delegated_send send digest ≡ none) ⊎ (delegated_send send digest ≡ send)
unfolding delegated_send
delegated_send-found none digest = inl refl
delegated_send-found (some send) (some digest) = ground arith
delegated_send-found (some send) none = inl refl

pub clear_queue_deletion_and_attempt-IsAtomic :
    (w : WriteOutcome) (s : Store) (t queued_id c : String)
    → IsAtomic w s (clear_queue_deletion_and_attempt t queued_id c w s)
unfolding clear_queue_deletion_and_attempt
clear_queue_deletion_and_attempt-IsAtomic w s t queued_id c =
    let deletion = find t queued_id s.memory.queue_deletions in
    let digest = find t c s.memory.queue_attempts in
    let send = find t c s.memory.send_attempts in
    let delegated = delegated_send send digest in
    let (sends, put_sends, same_sends) =
      put_back_unchecked-remove_found t c s.memory.send_attempts send delegated refl
        (delegated_send-found send digest) in
    let (deletions, put_deletions, same_deletions) =
      put_back-prune t queued_id s.memory.queue_deletions deletion refl in
    let (attempts, put_attempts, same_attempts) =
      put_back-prune t c s.memory.queue_attempts digest refl in
    let undo : Ledger = record s.memory {
      queue_attempts = attempts;
      send_attempts = sends;
      queue_deletions = deletions;
    } in
    let kept : Same undo s.memory = record {
      queue = same_attempts;
      sends = same_sends;
      deletions = same_deletions;
      operations = λ k. refl;
    } in
    let cleared : Ledger = record s.memory {
      queue_attempts = prune t (remove t c s.memory.queue_attempts);
      send_attempts = remove_found t c delegated s.memory.send_attempts;
      queue_deletions = prune t (remove t queued_id s.memory.queue_deletions);
    } in
    rw (put_sends, put_deletions, put_attempts)
      (ground (
        arith,
        IsAtomic-finish {0} w s (record s { memory = cleared }) (some undo) undo (tt {0}) refl refl
            kept,
      ))
