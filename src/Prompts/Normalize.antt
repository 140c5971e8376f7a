-- ===== src/Prompts/Normalize.antt =====
-- `normalizePrompt`, `normalizeQuestions` (codex/client.go) and `requestPolicyFor`
-- (codex/request_policy.go).
use codex_web.Common.{
  String, ℕ, ◌+◌, Bool, true, false, not, ◌||◌, Option, none, some, List, [], ◌∷◌, ◌==◌, nat_eq,
  if◌then◌else◌,
}
use codex_web.Errors
use codex_web.Errors.{Outcome, ok, err, panic, ◌>>=◌, ◌>>◌, require}
use codex_web.History.Walk.{seen}
use codex_web.Prompts.Json.{
  Json, null, bool, num, str, arr, obj, Items, Members, field, elements, string_at, bool_at,
}
use codex_web.Prompts.Types.{
  Choice, Question, PendingRequest, Kind, command, file_change, terminal_only, user_input, Prompt,
  NonBlockingUserInputPolicy,
}

pub record RequestPolicy : Type 0 where
  pub category : String
  pub blocking : Bool

unfoldable pub request_policy_for : String → RequestPolicy
request_policy_for method =
    if (method == "item/commandExecution/requestApproval")
      || (method == "item/fileChange/requestApproval")
      || (method == "item/permissions/requestApproval")
    then record { category = "approval"; blocking = true }
    else (if method == "mcpServer/elicitation/request"
        then record { category = "unsupported"; blocking = false }
        else (if method == "item/tool/requestUserInput"
            then record { category = "userInput"; blocking = true }
            else record { category = "unknown"; blocking = false }))

abbrev pub decisions : List String
decisions = "accept" ∷ "acceptForSession" ∷ "decline" ∷ "cancel" ∷ []

unfoldable pub known_decisions : List Json → List String
unfolding seen
known_decisions [] = []
known_decisions (str value ∷ rest) =
    let others = known_decisions rest in if seen value decisions then value ∷ others else others
known_decisions (_ ∷ rest) = known_decisions rest

-- `params["availableDecisions"].([]any)`: all of them where it is no list
unfoldable pub offered_decisions : Members → List String
offered_decisions params = elim (field "availableDecisions" params) [
  | some (arr items) ↦ known_decisions (elements items)
  | _ ↦ decisions
]

unfoldable pub normalize_options : List Json → Outcome (List Choice)
normalize_options [] = ok []
normalize_options (obj option ∷ rest) =
    if string_at "label" option == "" then err Errors.invalid_option else (do
      others ← normalize_options rest
      ok (
          record { label = string_at "label" option; description = string_at "description" option }
          ∷ others))
normalize_options (_ ∷ rest) = err Errors.invalid_option

unfoldable pub options_of : Members → Outcome (List Choice)
options_of item = elim (field "options" item) [
  | some (arr items) ↦ normalize_options (elements items)
  | _ ↦ ok []
]

-- The loop over the questions; `ids` are those seen.
unfoldable pub check_questions : List String → List Json → Outcome (List Question)
check_questions ids [] = ok []
check_questions ids (obj item ∷ rest) =
    let id = string_at "id" item in
    let others = check_questions (id ∷ ids) rest in
    do
      require
          (not ((id == "") || (string_at "header" item == "") || (string_at "question" item == "")))
          Errors.question_without_text
      require (not (seen id ids)) Errors.repeated_question
      options ← options_of item
      others' ← others
      ok (
          record {
            id = id;
            header = string_at "header" item;
            question = string_at "question" item;
            is_secret = bool_at "isSecret" item;
            is_other = bool_at "isOther" item;
            options = options;
          }
          ∷ others')
check_questions ids (_ ∷ rest) = err Errors.invalid_question

unfoldable pub normalize_questions : Option Json → Outcome (List Question)
normalize_questions (some (arr Items.nil)) = err Errors.no_questions
normalize_questions (some (arr (Items.cons first rest))) =
    check_questions [] (first ∷ elements rest)
normalize_questions _ = err Errors.no_questions

unfoldable pub blocking_of : Bool → Option Json → Outcome Bool
blocking_of default none = ok default
blocking_of default (some (bool b)) = ok b
blocking_of default (some _) = err Errors.invalid_is_blocking

unfoldable pub auto_resolution_of : Option Json → Outcome (Option ℕ)
auto_resolution_of none = ok none
auto_resolution_of (some null) = ok none
auto_resolution_of (some (num (some n))) = ok (some n)
auto_resolution_of (some _) = err Errors.invalid_auto_resolution

unfoldable pub blank_prompt : PendingRequest → Members → Kind → Prompt
blank_prompt request params kind = record {
  id = request.id;
  token = request.token;
  method = request.method;
  kind = kind;
  thread_id = string_at "threadId" params;
  turn_id = string_at "turnId" params;
  item_id = string_at "itemId" params;
  authority_available = false;
  available_decisions = [];
  questions = [];
  is_blocking = (request_policy_for request.method).blocking;
  auto_resolution_ms = none;
  auto_resolution_visible_at_ms = 0;
  auto_resolution_at_ms = 0;
  auto_resolve_snoozed = false;
}

unfoldable pub prompt_of_method : PendingRequest → Members → Outcome Prompt
prompt_of_method request params =
    if request.method == "item/commandExecution/requestApproval"
    then ok (record (blank_prompt request params command) {
      available_decisions = offered_decisions params;
    })
    else (if request.method == "item/fileChange/requestApproval"
        then ok
            (record (blank_prompt request params file_change) { available_decisions = decisions })
        else (if request.method == "item/permissions/requestApproval"
            then ok (blank_prompt request params terminal_only)
            else (if request.method == "item/tool/requestUserInput"
                then (do
                  blocking ←
                      blocking_of (request_policy_for request.method).blocking
                        (field "isBlocking" params)
                  milliseconds ← auto_resolution_of (field "autoResolutionMs" params)
                  questions ← normalize_questions (field "questions" params)
                  ok (record (blank_prompt request params user_input) {
                    authority_available = true;
                    is_blocking = blocking;
                    auto_resolution_ms = milliseconds;
                    questions = questions;
                  }))
                else err Errors.unsupported_method)))

-- The function `normalizePrompt`; the method of the client adds the times of its policy.
unfoldable pub normalize_request : PendingRequest → Outcome Prompt
normalize_request request = elim request.params [
  | none ↦ err Errors.invalid_params_json
  | some params ↦ do
    prompt ← prompt_of_method request params
    require (not (prompt.thread_id == "")) Errors.request_without_thread
    ok prompt
]

unfoldable pub is_user_input : Kind → Bool
is_user_input user_input = true
is_user_input _ = false

unfoldable pub with_times : NonBlockingUserInputPolicy → PendingRequest → Prompt → Prompt
with_times policy request prompt = record prompt {
  auto_resolution_visible_at_ms = request.received_at + policy.hidden_grace;
  auto_resolution_at_ms = request.received_at + policy.hidden_grace + policy.visible_countdown;
  auto_resolve_snoozed = request.snoozed;
}

unfoldable pub normalize_prompt :
    Option NonBlockingUserInputPolicy → PendingRequest → Outcome Prompt
normalize_prompt none request = normalize_request request
normalize_prompt (some policy) request = do
  prompt ← normalize_request request
  ok (
      if not (is_user_input prompt.kind) || prompt.is_blocking || nat_eq request.received_at 0
      then prompt
      else with_times policy request prompt)
