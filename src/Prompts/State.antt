-- ===== src/Prompts/State.antt =====
-- The client's state of the questions, and every change of it that is made under its locks
-- (codex/client.go): the connection, the offers by request, the notices and revisions by thread, and the
-- count of watchers. `written` is what responses the connection's writer was handed, by token.
use codex_web.Common.{
  String, ℕ, ◌+◌, Bool, false, not, ◌||◌, Option, none, some, List, [], ◌∷◌, length, max, ◌==◌,
  nat_eq, if◌then◌else◌,
}
use codex_web.GoMap.{GoMap, lookup, insert, delete}
use codex_web.Prompts.Json.{string_at}
use codex_web.Prompts.Types.{PendingRequest}

-- The identity of a notice: all that the changes of the notices depend on.
pub record Notice : Type 0 where
  pub id : String
  pub text : String

pub record PromptState : Type 0 where
  pub connection : Option ℕ
  pub generation : ℕ
  pub requests : GoMap PendingRequest
  pub notices : GoMap (List Notice)
  pub pending_sequence : ℕ
  pub pending_reset : ℕ
  pub pending_revisions : GoMap ℕ
  pub watched : GoMap ℕ
  pub written : List String

-- `threadIDFromParams`
unfoldable pub request_thread_id : PendingRequest → String
request_thread_id request = elim request.params [
  | none ↦ ""
  | some params ↦ string_at "threadId" params
]

abbrev pub count_at : String → GoMap ℕ → ℕ
count_at k m = elim (lookup k m) [ none ↦ 0 | some n ↦ n ]

abbrev pub notices_of : String → GoMap (List Notice) → List Notice
notices_of k m = elim (lookup k m) [ none ↦ [] | some l ↦ l ]

unfoldable pub pending_revision : String → PromptState → ℕ
pending_revision thread s = max s.pending_reset (count_at thread s.pending_revisions)

unfoldable pub bump_pending : String → PromptState → PromptState
bump_pending thread s = if thread == "" then s else record s {
  pending_sequence = 1 + s.pending_sequence;
  pending_revisions = insert thread (1 + s.pending_sequence) s.pending_revisions;
}

unfoldable pub any_of_thread : String → GoMap PendingRequest → Bool
any_of_thread thread [] = false
any_of_thread thread ((_, request) ∷ m) =
    (request_thread_id request == thread) || any_of_thread thread m

-- Whether the thread's revision is still needed.
unfoldable pub retains_revision : String → PromptState → Bool
retains_revision thread s =
    not (nat_eq (count_at thread s.watched) 0)
    || not (nat_eq (length (notices_of thread s.notices)) 0)
    || any_of_thread thread s.requests

unfoldable pub prune_pending_revision : String → PromptState → PromptState
prune_pending_revision thread s =
    if retains_revision thread s
    then s
    else record s { pending_revisions = delete thread s.pending_revisions }
