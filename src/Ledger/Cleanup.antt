-- ===== src/Ledger/Cleanup.antt =====
-- The actions of codex/client.go that retire records: the two transactions of `AcknowledgeSends`,
-- `RecordThreadOperationAttempt`, `ClearConversationAttempts` and `ClearRetiredThreadAttempts`.
use mathlib.Core.Option
use mathlib.Core.Option.{IsSome}
use codex_web.Common.{
  String, Bool, true, false, not, ◌&&◌, ◌||◌, Option, none, some, List, [], ◌∷◌, ◌==◌,
  if◌then◌else◌,
}
use codex_web.Errors
use codex_web.Errors.{Outcome, ok, err, panic, ◌>>=◌}
use codex_web.GoMap.{GoMap, lookup, insert, delete}
use codex_web.ThreadMap.{ThreadMap, find, ensure, assign, remove, prune}
use codex_web.Ledger.Types.{
  SendAttempt, Ledger, Action, is_accepted, finish, with_sends, with_operations,
}
use codex_web.Ledger.Sends.{sends_of}
use codex_web.Ledger.Load.{valid_submission_digest}

pub record SendAcknowledgement : Type 0 where
  pub client_user_message_id : String
  pub digest : String

-- What the first transaction of `AcknowledgeSends` collects: the digests, and the turns expected.
pub record AckPlan : Type 0 where
  pub digests : GoMap String
  pub expected_turns : GoMap String

abbrev pub empty_plan : AckPlan
empty_plan = record { digests = []; expected_turns = [] }

unfoldable pub has {ℓ} : {A : Type ℓ} → Option A → Bool
has none = false
has (some _) = true

-- `m[k]` of a map of texts: the zero value, "", where the key is missing
unfoldable pub text_at : String → GoMap String → String
text_at k m = elim (lookup k m) [ none ↦ "" | some v ↦ v ]

-- The second transaction's loop over the messages that history proved: `some` is what stops it.
unfoldable pub remove_proven :
    String
    → GoMap String
    → GoMap String
    → ThreadMap SendAttempt
    → List (String × SendAttempt)
    → Outcome (List (String × SendAttempt)) × ThreadMap SendAttempt
remove_proven thread digests [] sends removed = (ok removed, sends)
remove_proven thread digests ((client, turn) ∷ rest) sends removed =
    let skip = remove_proven thread digests rest sends removed in
    elim (find thread client sends) [
      | none ↦ skip
      | some attempt ↦
          let next =
            remove_proven thread digests rest (remove thread client sends)
              ((client, attempt) ∷ removed) in
          if attempt.digest == text_at client digests
          then (if is_accepted attempt.state && not (attempt.turn_id == turn)
              then (err Errors.accepted_by_another_turn, sends)
              else next)
          else (err Errors.changed_during_ack, sends)
    ]

unfoldable pub put_back_all :
    String → List (String × SendAttempt) → ThreadMap SendAttempt → Option (ThreadMap SendAttempt)
put_back_all thread [] sends = some sends
put_back_all thread ((client, attempt) ∷ rest) sends = elim (assign thread client attempt sends) [
  | none ↦ none
  | some sends' ↦ put_back_all thread rest sends'
]

unfoldable pub acknowledged : List SendAcknowledgement → GoMap String → List String
acknowledged [] proven = []
acknowledged (a ∷ rest) proven =
    let tail = acknowledged rest proven in
    if has (lookup a.client_user_message_id proven) then a.client_user_message_id ∷ tail else tail

-- The second transaction of `AcknowledgeSends`, after its loop.
unfoldable pub after_removal :
    String
    → List SendAcknowledgement
    → GoMap String
    → Outcome (List (String × SendAttempt))
    → ThreadMap SendAttempt
    → Action (List String)
after_removal thread acks proven (err e) sends w s = (err e, with_sends s sends)
after_removal thread acks proven panic sends w s = (panic, with_sends s sends)
after_removal thread acks proven (ok []) sends w s =
    (ok (acknowledged acks proven), with_sends s (prune thread sends))
after_removal thread acks proven (ok (r ∷ removed)) sends w s =
    let pruned = prune thread sends in
    finish w (with_sends s pruned)
      (Option.map (sends_of s.memory) (put_back_all thread (r ∷ removed) (ensure thread pruned)))
      (acknowledged acks proven)

unfoldable pub release_proven :
    String → GoMap String → List SendAcknowledgement → GoMap String → Action (List String)
release_proven thread digests acks proven w s =
    let (result, sends) = remove_proven thread digests proven s.memory.send_attempts [] in
    after_removal thread acks proven result sends w s

unfoldable pub record_thread_operation_attempt : String → String → Action (Unit {0})
record_thread_operation_attempt directory thread w s =
    let existing = text_at directory s.memory.operations in
    if existing == ""
    then (let operations = insert directory thread s.memory.operations in
        finish w (with_operations s operations)
          (some (record s.memory { operations = delete directory operations })) tt)
    else (if existing == thread then (ok tt, s) else (err Errors.directory_bound_elsewhere, s))

-- `m[k] = v`, where there was a value
unfoldable pub restore_key {ℓ} : {V : Type ℓ} → String → Option V → GoMap V → GoMap V
restore_key k none m = m
restore_key k (some v) m = insert k v m

unfoldable pub clear_retired_thread_attempts : String → Action (Unit {0})
clear_retired_thread_attempts thread w s =
    let l = s.memory in
    let queued = lookup thread l.queue_attempts in
    let sent = lookup thread l.send_attempts in
    let deletions = lookup thread l.queue_deletions in
    if has queued || has sent || has deletions
    then (let cleared : Ledger = record l {
      queue_attempts = delete thread l.queue_attempts;
      send_attempts = delete thread l.send_attempts;
      queue_deletions = delete thread l.queue_deletions;
    } in
        finish w (record s { memory = cleared })
          (some (record cleared {
            queue_attempts = restore_key thread queued cleared.queue_attempts;
            send_attempts = restore_key thread sent cleared.send_attempts;
            queue_deletions = restore_key thread deletions cleared.queue_deletions;
          }))
          tt)
    else (ok tt, s)

unfoldable pub bound_to_other : Option String → String → Bool
bound_to_other none thread = false
bound_to_other (some value) thread = not (value == thread)

unfoldable pub clear_conversation_attempts : String → String → Action (Unit {0})
clear_conversation_attempts thread directory w s =
    let l = s.memory in
    let queued = lookup thread l.queue_attempts in
    let sent = lookup thread l.send_attempts in
    let deletions = lookup thread l.queue_deletions in
    let operation = lookup directory l.operations in
    if bound_to_other operation thread
    then (err Errors.key_bound_elsewhere, s)
    else (if has queued || has sent || has deletions || has operation
        then (let cleared : Ledger = record {
          queue_attempts = delete thread l.queue_attempts;
          send_attempts = delete thread l.send_attempts;
          queue_deletions = delete thread l.queue_deletions;
          operations = delete directory l.operations;
        } in
            finish w (record s { memory = cleared })
              (some (record {
                queue_attempts = restore_key thread queued cleared.queue_attempts;
                send_attempts = restore_key thread sent cleared.send_attempts;
                queue_deletions = restore_key thread deletions cleared.queue_deletions;
                operations = restore_key directory operation cleared.operations;
              }))
              tt)
        else (ok tt, s))

-- One round of the first transaction's loop in `AcknowledgeSends`.
unfoldable pub plan_acknowledgement :
    String → SendAcknowledgement → AckPlan → Ledger → Outcome AckPlan
plan_acknowledgement thread a plan l =
    let client = a.client_user_message_id in
    let digests = insert client a.digest plan.digests in
    if valid_submission_digest a.digest
    then (elim (find thread client l.send_attempts) [
      | none ↦ ok (record plan { digests = digests })
      | some attempt ↦
          if attempt.digest == a.digest
          then ok (record {
            digests = digests;
            expected_turns =
                if is_accepted attempt.state
                then insert client attempt.turn_id plan.expected_turns
                else plan.expected_turns;
          })
          else err Errors.text_reused
    ])
    else err Errors.invalid_ack_digest

unfoldable pub plan_loop : String → List SendAcknowledgement → AckPlan → Ledger → Outcome AckPlan
plan_loop thread [] plan l = ok plan
plan_loop thread (a ∷ rest) plan l = do
  plan' ← plan_acknowledgement thread a plan l
  plan_loop thread rest plan' l

unfoldable pub plan_acknowledgements : String → List SendAcknowledgement → Action AckPlan
plan_acknowledgements thread acks w s = (plan_loop thread acks empty_plan s.memory, s)
