-- ===== src/History/Messages.antt =====
-- The visitors of the walks and the searches made of them (codex/client.go).
use Prim.Native.String.{◌++◌ as ◌<>◌}
use codex_web.Common.{
  String, Bool, true, false, ◌&&◌, ◌||◌, Option, none, some, List, [], ◌∷◌, ◌++◌, ◌==◌,
  if◌then◌else◌,
}
use codex_web.Errors
use codex_web.Errors.{Error, Outcome, ok, err, panic, ◌>>=◌, ◌>>◌, require}
use codex_web.Library.{Library}
use codex_web.Ledger.Types.{QueueDeletionAttempt, SendReceipt, QueueEntry}
use codex_web.Ledger.Sends.{queue_text_digest}
use codex_web.History.Walk.{
  Input, ThreadItemEntry, Page, Visited, seen, accept_cursor, walk_thread_items,
}

input_part : Input → String
input_part input = if input.kind == "text" then input.text else "[non-text input]"

-- The parts with a line break between them.
unfoldable pub input_text : List Input → String
unfolding input_part
input_text [] = ""
input_text (input ∷ []) = input_part input
input_text (input ∷ rest) = input_part input <> ("\n" <> input_text rest)

unfoldable pub checked_inputs : List (Option Input) → Outcome (List Input)
checked_inputs [] = ok []
checked_inputs (none ∷ content) = err Errors.invalid_input
checked_inputs (some input ∷ content) = do rest ← checked_inputs content; ok (input ∷ rest)

unfoldable pub user_message_text : ThreadItemEntry → Outcome String
user_message_text entry = elim entry.content [
  | none ↦ err Errors.invalid_content
  | some content ↦ do inputs ← checked_inputs content; ok (input_text inputs)
]

-- `fmt.Errorf("…: %w", err)`
abbrev pub wrap {ℓ} : {A : Type ℓ} → Outcome A → Outcome A
wrap (ok a) = ok a
wrap (err e) = err (Errors.wrapping e)
wrap panic = panic

abbrev pub is_message : String → ThreadItemEntry → Bool
is_message client entry = entry.item_type == "userMessage" && entry.client_id == client

abbrev pub Answers : Type 0
Answers = List (Outcome (Page ThreadItemEntry))

abbrev same_turn : SendReceipt → ThreadItemEntry → SendReceipt
same_turn receipt entry = record receipt {
  steered = if entry.turn_id == receipt.turn_id then true else receipt.steered;
}

-- The visitor of `sentByClientID`: the item after the message, which is the earlier one, tells whether
-- the message steered a turn that had begun.
unfoldable pub visit_sent :
    String → String → Option SendReceipt → ThreadItemEntry → Outcome (Visited (Option SendReceipt))
unfolding user_message_text
visit_sent client text (some receipt) entry =
    ok (record { state = some (same_turn receipt entry); stop = true })
visit_sent client text none entry =
    if is_message client entry
    then (elim (user_message_text entry) [
      | err e ↦ err (Errors.wrapping e)
      | panic ↦ panic
      | ok sent ↦
          if sent == text
          then (if entry.turn_id == ""
              then err Errors.no_turn_identity
              else ok (record {
                state = some (record {
                  queued_submission_id = "";
                  turn_id = entry.turn_id;
                  client_user_message_id = client;
                  steered = false;
                });
                stop = false;
              }))
          else err Errors.text_reused
    ])
    else ok (record { state = none; stop = false })

unfoldable pub sent_by_client_id : String → String → Answers → Outcome (Option SendReceipt)
sent_by_client_id client text answers =
    walk_thread_items (visit_sent client text) none [] [] answers

unfoldable pub visit_started :
    String → String → Option QueueEntry → ThreadItemEntry → Outcome (Visited (Option QueueEntry))
visit_started client text found entry =
    if is_message client entry
    then (elim (user_message_text entry) [
      | err e ↦ err (Errors.wrapping e)
      | panic ↦ panic
      | ok started ↦
          if started == text
          then ok (record {
            state =
                some (record { id = entry.id; text = started; client_user_message_id = client });
            stop = true;
          })
          else err Errors.queued_text_reused
    ])
    else ok (record { state = found; stop = false })

unfoldable pub started_by_client_id : String → String → Answers → Outcome (Option QueueEntry)
started_by_client_id client text answers =
    walk_thread_items (visit_started client text) none [] [] answers

module _ (lib : Library) where
  unfoldable pub visit_deleted :
      QueueDeletionAttempt → Bool → ThreadItemEntry → Outcome (Visited Bool)
  visit_deleted attempt found entry =
      if is_message attempt.client_user_message_id entry
      then (elim (user_message_text entry) [
        | err e ↦ err (Errors.wrapping e)
        | panic ↦ panic
        | ok text ↦
            if queue_text_digest lib text == attempt.digest
            then ok (record { state = true; stop = true })
            else err Errors.queued_text_reused
      ])
      else ok (record { state = found; stop = false })

  unfoldable pub queue_deletion_was_started : QueueDeletionAttempt → Answers → Outcome Bool
  queue_deletion_was_started attempt answers =
      wrap (walk_thread_items (visit_deleted attempt) false [] [] answers)

-- A submission as the queue's list gives it.
pub record Submission : Type 0 where
  pub id : String
  pub input : List Input
  pub client_user_message_id : String

abbrev pub queue_entry : Submission → QueueEntry
queue_entry submission = record {
  id = submission.id;
  text = input_text submission.input;
  client_user_message_id = submission.client_user_message_id;
}

-- One page of the queue: the entries so far and the identities seen.
unfoldable pub queue_page :
    List QueueEntry → List String → List Submission → Outcome (List QueueEntry × List String)
queue_page entries ids [] = ok (entries, ids)
queue_page entries ids (submission ∷ page) =
    let rest = queue_page (entries ++ (queue_entry submission ∷ [])) (submission.id ∷ ids) page in
    if (submission.id == "") || (submission.client_user_message_id == "")
    then err Errors.invalid_submission
    else (if seen submission.id ids then err Errors.repeated_submission else rest)

abbrev pub QueueAnswers : Type 0
QueueAnswers = List (Outcome (Page Submission))

unfoldable pub list_pages :
    List QueueEntry → List String → List String → QueueAnswers → Outcome (List QueueEntry)
list_pages entries ids cursors [] = err Errors.deadline_exceeded
list_pages entries ids cursors (err e ∷ answers) = err e
list_pages entries ids cursors (panic ∷ answers) = panic
list_pages entries ids cursors (ok page ∷ answers) = elim page.entries [
  | none ↦ err Errors.no_data
  | some submissions ↦ elim (queue_page entries ids submissions) [
    | err e ↦ err e
    | panic ↦ panic
    | ok (entries', ids') ↦ elim page.next_cursor [
      | none ↦ ok entries'
      | some cursor ↦ elim (accept_cursor cursors cursor) [
        | err e ↦ err e
        | panic ↦ panic
        | ok cursors' ↦ list_pages entries' ids' cursors' answers
      ]
    ]
  ]
]

unfoldable pub list_queue : QueueAnswers → Outcome (List QueueEntry)
list_queue answers = list_pages [] [] [] answers

-- The loop over the queue in `queuedOrStartedByClientID`: `none` where no entry is the message's.
unfoldable pub queued_as : String → String → List QueueEntry → Outcome (Option QueueEntry)
queued_as client text [] = ok none
queued_as client text (entry ∷ entries) =
    let rest = queued_as client text entries in
    if entry.client_user_message_id == client
    then (if entry.text == text then ok (some entry) else err Errors.queued_text_reused)
    else rest

unfoldable pub queued_or_started_by_client_id :
    String → String → QueueAnswers → Answers → Outcome (Option QueueEntry)
queued_or_started_by_client_id client text queue answers = do
  entries ← list_queue queue
  queued ← queued_as client text entries
  elim queued [ some entry ↦ ok (some entry) | none ↦ started_by_client_id client text answers ]
