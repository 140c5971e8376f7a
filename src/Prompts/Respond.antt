-- ===== src/Prompts/Respond.antt =====
-- The calls that answer a question: `RespondPrompt` (codex/prompt_response.go), `respondDecision` and
-- `respondAnswers` (codex/client.go). Between the claim and the write of the response, other changes may be
-- made: `meanwhile` is what they are.
use codex_web.Common.{
  String, ℕ, ◌+◌, Bool, true, false, not, ◌||◌, Option, none, some, List, [], ◌∷◌, length, ltb,
  nat_eq, ◌==◌, if◌then◌else◌,
}
use codex_web.Errors
use codex_web.Errors.{Error, Outcome, ok, err, panic}
use codex_web.GoMap.{GoMap}
use codex_web.Library.{Library}
use codex_web.Prompts.Types.{PendingRequest, Kind, command, file_change, NonBlockingUserInputPolicy}
use codex_web.Prompts.Normalize.{is_user_input}
use codex_web.Prompts.Answers.{validate_answers}
use codex_web.Prompts.State.{PromptState}
use codex_web.Prompts.Offers.{claim, snooze_user_input, release_claim, Writing, finish_response}

abbrev pub Replies : Type 0
Replies = GoMap (GoMap (List String))

pub record PromptResponse : Type 0 where
  pub id : String
  pub token : String
  pub decision : String
  pub answers : Replies
  pub snooze : Bool

-- What a response meets: the changes of others, the item of the thread that was asked for (the type of the one
-- found, or the error), and how the response is encoded and written. `byte_length` is Go's `len` of a text.
pub record Meets : Type 0 where
  pub meanwhile : PromptState → PromptState
  pub item_type : Outcome (Option String)
  pub observer : Bool
  pub encodes : Bool
  pub writing : Writing
  pub byte_length : String → ℕ

unfoldable pub requires_thread_item : Kind → Bool
requires_thread_item command = true
requires_thread_item file_change = true
requires_thread_item _ = false

unfoldable pub item_type_matches : Kind → String → Bool
item_type_matches command kind = kind == "commandExecution"
item_type_matches file_change kind = kind == "fileChange"
item_type_matches _ kind = false

unfoldable pub offers_decision : String → List String → Bool
offers_decision decision [] = false
offers_decision decision (x ∷ l) = (x == decision) || offers_decision decision l

-- The test of the item that a decision is about.
unfoldable pub has_authority : Kind → Outcome (Option String) → Outcome (Unit {0})
has_authority kind (err e) = err e
has_authority kind panic = panic
has_authority kind (ok none) = err Errors.item_unavailable
has_authority kind (ok (some found)) =
    if item_type_matches kind found then ok tt else err Errors.item_unavailable

module _ (lib : Library) (policy : Option NonBlockingUserInputPolicy) (meets : Meets) where
  unfoldable pub finish_offer : PendingRequest → PromptState → Outcome (Unit {0}) × PromptState
  finish_offer request s =
      finish_response meets.observer meets.encodes meets.writing request (meets.meanwhile s)

  unfoldable pub give_up : Error → PendingRequest → PromptState → Outcome (Unit {0}) × PromptState
  give_up e request s = (err e, release_claim request (meets.meanwhile s))

  -- `respondDecision`
  unfoldable pub respond_decision :
      String → String → String → String → PromptState → Outcome (Unit {0}) × PromptState
  respond_decision id thread token decision s =
      let (claimed, s') = claim policy id thread token s in
      elim claimed [
        | err e ↦ (err e, s')
        | panic ↦ (panic, s')
        | ok (request, prompt) ↦
            if offers_decision decision prompt.available_decisions
            then (if requires_thread_item prompt.kind
                then (elim (has_authority prompt.kind meets.item_type) [
                  | err e ↦ give_up e request s'
                  | panic ↦ (panic, meets.meanwhile s')
                  | ok _ ↦ finish_offer request s'
                ])
                else give_up Errors.no_decision request s')
            else give_up Errors.decision_not_offered request s'
      ]

  -- `respondAnswers`
  unfoldable pub respond_answers :
      String → String → String → Replies → PromptState → Outcome (Unit {0}) × PromptState
  respond_answers id thread token answers s =
      let (claimed, s') = claim policy id thread token s in
      elim claimed [
        | err e ↦ (err e, s')
        | panic ↦ (panic, s')
        | ok (request, prompt) ↦
            if is_user_input prompt.kind
            then (elim (validate_answers lib prompt answers) [
              | err e ↦ give_up e request s'
              | panic ↦ (panic, s')
              | ok _ ↦ finish_offer request s'
            ])
            else give_up Errors.no_answers request s'
      ]

  abbrev one_if : Bool → ℕ
  one_if true = 1
  one_if false = 0

  abbrev pub answered : Replies → Bool
  answered answers = not (nat_eq (length answers) 0)

  -- `RespondPrompt`
  unfoldable pub respond_prompt :
      String → PromptResponse → PromptState → Outcome (Unit {0}) × PromptState
  respond_prompt thread response s =
      let actions =
        one_if response.snooze
        + one_if (answered response.answers)
        + one_if (not (response.decision == "")) in
      if (response.token == "") || ltb 128 (meets.byte_length response.token)
      then (err Errors.needs_refresh, s)
      else (if not (nat_eq actions 1)
          then (err Errors.choose_one, s)
          else (if response.snooze
              then snooze_user_input policy response.id thread response.token s
              else (if answered response.answers
                  then respond_answers response.id thread response.token response.answers s
                  else respond_decision response.id thread response.token response.decision s)))
