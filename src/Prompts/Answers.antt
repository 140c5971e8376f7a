-- ===== src/Prompts/Answers.antt =====
-- `validateAnswers` and `validUserNote` (codex/client.go).

use codex_web.Common.{
  String, Bool, true, false, not, ◌&&◌, ◌||◌, Option, none, some, List, length, ◌==◌, nat_eq, leb,
  if◌then◌else◌,
}
use codex_web.Errors
use codex_web.Errors.{Outcome, ok, err, panic, ◌>>=◌, ◌>>◌, require}
use codex_web.GoMap.{GoMap, lookup}
use codex_web.Library.{Library}
use codex_web.Prompts.Types.{Choice, Question, Prompt}

-- `strings.TrimPrefix` where `strings.HasPrefix` holds, else `none`
unfoldable pub after_prefix : String → String → Option String
after_prefix String.[] s = some s
after_prefix (String.◌∷◌ c p) String.[] = none
after_prefix (String.◌∷◌ c p) (String.◌∷◌ d s) =
    let rest = after_prefix p s in
    if (String.◌∷◌ c String.[]) == (String.◌∷◌ d String.[]) then rest else none

unfoldable pub offered : String → List Choice → Bool
offered value List.[] = false
offered value (List.◌∷◌ choice rest) = (choice.label == value) || offered value rest

-- `answer["answers"]`: no values where the key is missing
unfoldable pub values_of : GoMap (List String) → List String
values_of answer = elim (lookup "answers" answer) [ none ↦ List.[] | some values ↦ values ]

module _ (lib : Library) where
  unfoldable pub is_blank : String → Bool
  is_blank value = lib.trim_space value == ""

  unfoldable pub valid_user_note : String → Bool
  valid_user_note value = elim (after_prefix "user_note: " value) [
    | none ↦ false
    | some note ↦ not (is_blank note)
  ]

  unfoldable pub no_blanks : List String → Bool
  no_blanks List.[] = true
  no_blanks (List.◌∷◌ value rest) = not (is_blank value) && no_blanks rest

  -- The values of one answer: the first, and those after it.
  unfoldable pub check_choice : Question → String → List String → Outcome (Unit {0})
  check_choice question first List.[] =
      require (offered first question.options || (question.is_other && valid_user_note first))
        Errors.not_offered
  check_choice question first (List.◌∷◌ second rest) =
      if offered first question.options
      then require (not (nat_eq (length rest) 0) || valid_user_note second) Errors.invalid_note
      else err Errors.not_offered

  unfoldable pub check_free_form : String → List String → Outcome (Unit {0})
  check_free_form first rest =
      require (nat_eq (length rest) 0 && valid_user_note first) Errors.needs_free_form

  unfoldable pub check_values : Question → List String → Outcome (Unit {0})
  check_values question List.[] = ok tt
  check_values question (List.◌∷◌ first rest) = do
    require (no_blanks (List.◌∷◌ first rest)) Errors.blank_answer
    elim question.options [
      | List.[] ↦ check_free_form first rest
      | List.◌∷◌ _ _ ↦ check_choice question first rest
    ]

  unfoldable pub check_answer : Question → GoMap (List String) → Outcome (Unit {0})
  check_answer question answer = do
    require (nat_eq (length answer) 1 && leb (length (values_of answer)) 2) Errors.invalid_answer
    check_values question (values_of answer)

  unfoldable pub check_question : GoMap (GoMap (List String)) → Question → Outcome (Unit {0})
  check_question answers question = elim (lookup question.id answers) [
    | none ↦ err Errors.invalid_answer
    | some answer ↦ check_answer question answer
  ]

  unfoldable pub check_all : GoMap (GoMap (List String)) → List Question → Outcome (Unit {0})
  check_all answers List.[] = ok tt
  check_all answers (List.◌∷◌ question rest) =
      let others = check_all answers rest in do check_question answers question; others

  unfoldable pub validate_answers : Prompt → GoMap (GoMap (List String)) → Outcome (Unit {0})
  validate_answers prompt answers = do
    require (nat_eq (length answers) (length prompt.questions)) Errors.answers_do_not_match
    check_all answers prompt.questions
