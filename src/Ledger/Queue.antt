-- ===== src/Ledger/Queue.antt =====
-- The actions on queue attempts and queue deletions of codex/client.go: `queueAttempt`,
-- `recordQueueAttempt`, `clearQueueAttempt`, `queueDeletionAttempt`, `recordQueueDeletionAttempt` and
-- `clearQueueDeletionAndAttempt`.
use mathlib.Core.Option
use codex_web.Common.{String, Bool, true, false, not, ◌&&◌, Option, none, some, ◌==◌, if◌then◌else◌}
use codex_web.Errors
use codex_web.Errors.{Outcome, ok, err, panic}
use codex_web.Library.{Library}
use codex_web.ThreadMap.{ThreadMap, find, ensure, assign, remove, prune}
use codex_web.Common.Maybe.{◌>>=◌}
use codex_web.Ledger.Types.{
  SendAttempt, QueueDeletionAttempt, QueueEntry, Ledger, Action, is_prepared, finish, with_queue,
  with_deletions,
}
use codex_web.Ledger.Sends.{queue_text_digest}

abbrev pub queue_of : Ledger → ThreadMap String → Ledger
queue_of l m = record l { queue_attempts = m }

abbrev pub deletions_of : Ledger → ThreadMap QueueDeletionAttempt → Ledger
deletions_of l m = record l { queue_deletions = m }

-- The send attempt, if any, is one that the queue may take over: prepared, not steered, the same text.
unfoldable pub may_queue_over : Option SendAttempt → String → Bool
may_queue_over none digest = true
may_queue_over (some send) digest =
    is_prepared send.state && not send.steered && send.digest == digest

unfoldable pub same_deletion : QueueDeletionAttempt → QueueDeletionAttempt → Bool
same_deletion a b = a.client_user_message_id == b.client_user_message_id && a.digest == b.digest

module _ (lib : Library) where
  -- Whether the message is recorded as queued.
  unfoldable pub queue_attempt : String → String → String → Action Bool
  queue_attempt thread client text w s = elim (find thread client s.memory.queue_attempts) [
    | none ↦ (ok false, s)
    | some digest ↦
        if digest == queue_text_digest lib text then (ok true, s) else (err Errors.text_reused, s)
  ]

  unfoldable pub record_queue_attempt : String → String → String → Action (Unit {0})
  record_queue_attempt thread client text w s =
      let digest = queue_text_digest lib text in
      elim (find thread client s.memory.queue_attempts) [
        | some existing ↦ if existing == digest then (ok tt, s) else (err Errors.text_reused, s)
        | none ↦
            if may_queue_over (find thread client s.memory.send_attempts) digest
            then (elim (assign thread client digest (ensure thread s.memory.queue_attempts)) [
              | none ↦ (panic, s)
              | some attempts ↦
                  finish w (with_queue s attempts)
                    (some (queue_of s.memory (prune thread (remove thread client attempts)))) tt
            ])
            else (err Errors.reconcile_before_queueing, s)
      ]

  -- The deletion that is on record, or the one made for the queue entry.
  unfoldable pub record_queue_deletion_attempt : String → QueueEntry → Action QueueDeletionAttempt
  record_queue_deletion_attempt thread target w s =
      let attempt : QueueDeletionAttempt = record {
        client_user_message_id = target.client_user_message_id;
        digest = queue_text_digest lib target.text;
      } in
      elim (find thread target.id s.memory.queue_deletions) [
        | some existing ↦
            if same_deletion existing attempt
            then (ok existing, s)
            else (err Errors.deletion_identity_changed, s)
        | none ↦ elim (assign thread target.id attempt (ensure thread s.memory.queue_deletions)) [
          | none ↦ (panic, s)
          | some deletions ↦
              finish w (with_deletions s deletions)
                (some (deletions_of s.memory (prune thread (remove thread target.id deletions))))
                attempt
        ]
      ]

unfoldable pub clear_queue_attempt : String → String → Action (Unit {0})
clear_queue_attempt thread client w s = elim (find thread client s.memory.queue_attempts) [
  | none ↦ (ok tt, s)
  | some digest ↦
      let attempts = prune thread (remove thread client s.memory.queue_attempts) in
      finish w (with_queue s attempts)
        (Option.map (queue_of s.memory) (assign thread client digest (ensure thread attempts))) tt
]

unfoldable pub queue_deletion_attempt : String → String → Action (Option QueueDeletionAttempt)
queue_deletion_attempt thread queued_id w s =
    (ok (find thread queued_id s.memory.queue_deletions), s)

-- The prepared send that was delegated to the queue entry, if there is one.
unfoldable pub delegated_send : Option SendAttempt → Option String → Option SendAttempt
delegated_send (some send) (some digest) =
    if is_prepared send.state && not send.steered && send.digest == digest then some send else none
delegated_send _ _ = none

unfoldable pub bound_elsewhere : Option QueueDeletionAttempt → String → Bool
bound_elsewhere none client = false
bound_elsewhere (some deletion) client = not (deletion.client_user_message_id == client)

-- `if m[t] == nil { … }; m[t][k] = v`, where there is a value to put back
unfoldable pub put_back {ℓ} :
    {V : Type ℓ} → String → String → Option V → ThreadMap V → Option (ThreadMap V)
put_back thread key none m = some m
put_back thread key (some v) m = assign thread key v (ensure thread m)

-- The same, with no test for a nil map.
unfoldable pub put_back_unchecked {ℓ} :
    {V : Type ℓ} → String → String → Option V → ThreadMap V → Option (ThreadMap V)
put_back_unchecked thread key none m = some m
put_back_unchecked thread key (some v) m = assign thread key v m

-- `delete(m[t], k)`, where there is something to remove
unfoldable pub remove_found {ℓ} :
    {V : Type ℓ} → String → String → Option V → ThreadMap V → ThreadMap V
remove_found thread key none m = m
remove_found thread key (some _) m = remove thread key m

unfoldable pub clear_queue_deletion_and_attempt : String → String → String → Action (Unit {0})
clear_queue_deletion_and_attempt thread queued_id client w s =
    let deletion = find thread queued_id s.memory.queue_deletions in
    let digest = find thread client s.memory.queue_attempts in
    let prepared = delegated_send (find thread client s.memory.send_attempts) digest in
    if bound_elsewhere deletion client
    then (err Errors.deletion_bound_elsewhere, s)
    else (let deletions = prune thread (remove thread queued_id s.memory.queue_deletions) in
        let sends = remove_found thread client prepared s.memory.send_attempts in
        let attempts = prune thread (remove thread client s.memory.queue_attempts) in
        let cleared : Ledger = record s.memory {
          queue_attempts = attempts;
          send_attempts = sends;
          queue_deletions = deletions;
        } in
        let undo : Option Ledger = (do
          sends' ← put_back_unchecked thread client prepared sends
          deletions' ← put_back thread queued_id deletion deletions
          attempts' ← put_back thread client digest attempts
          some (record s.memory {
            queue_attempts = attempts';
            send_attempts = sends';
            queue_deletions = deletions';
          })) in
        finish w (record s { memory = cleared }) undo tt)
