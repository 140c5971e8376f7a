-- ===== src/Tests/Prompts.antt =====
-- The questions on a concrete run of events.

use codex_web.Common.{
  String, ℕ, zero, suc, ◌≡◌, ◌≢◌, ◌≤◌, ◌↔◌, length, refl, ap, none, some, true, false, List, [],
  ◌∷◌, arith, eq_iff,
}
use codex_web.GoMap.{GoMap, lookup, insert, delete}
use codex_web.Errors.{ok}
use codex_web.Tests.{toy}
use codex_web.Prompts.Types.{PendingRequest, Prompt, user_input}
use codex_web.Prompts.Answers.{validate_answers}
use codex_web.Prompts.Accepted.{AllAnswered, validate_answers-AllAnswered}
use codex_web.Prompts.State
use codex_web.Prompts.State.{PromptState, pending_revision, notices_of}
use codex_web.Prompts.Notices
use codex_web.Prompts.Normalize
use codex_web.Prompts.Json
use codex_web.Prompts.Offers
use codex_web.Prompts.Offers.{transmitted, broke}
use codex_web.Prompts.Run.{
  Event, admitted, connected, claimed, finished, disconnected, failed, cleared, step, run,
}
use codex_web.Prompts.Run.{watched}
use Prim.Native.String.{len}
use codex_web.Common.{◌==◌}
use codex_web.Prompts.Respond
use codex_web.Prompts.Respond.{Meets, PromptResponse, respond_prompt}
use codex_web.Prompts.Answerable.{Asks, Took, respond_prompt-Takes}
use codex_web.Prompts.Present.Runs.{run-is_current}
use codex_web.Prompts.Offers.{is_current}
use codex_web.Prompts.Revised.{Signals}
use codex_web.Prompts.Revised.Raised
use codex_web.Prompts.Revised.Raised.{step-Signals}
use codex_web.Prompts.Once.{times}
use codex_web.Prompts.Once.Runs.{run-once}

-- A token for each draw: as many letters as were drawn before.
abbrev draw : ℕ → String
draw zero = String.[]
draw (suc n) = String.◌∷◌ "a" (draw n)

abbrev rest_of : String → String
rest_of String.[] = String.[]
rest_of (String.◌∷◌ c s) = s

abbrev is_longer : String → ℕ
is_longer String.[] = 0
is_longer (String.◌∷◌ c s) = 1

draw_injective : (i j : ℕ) → draw i ≡ draw j → i ≡ j
draw_injective zero zero h = refl
draw_injective zero (suc j) h = absurd (ground (arith, ap is_longer h))
draw_injective (suc i) zero h = absurd (ground (arith, ap is_longer h))
draw_injective (suc i) (suc j) h = ap suc (draw_injective i j (ap rest_of h))

abbrev idle_client : PromptState
idle_client = record {
  connection = none;
  generation = 0;
  requests = [];
  notices = [];
  pending_sequence = 0;
  pending_reset = 0;
  pending_revisions = [];
  watched = [];
  written = [];
}

abbrev question : PendingRequest
question = record {
  id = "1";
  token = "";
  method = "item/fileChange/requestApproval";
  params = some (Json.member "threadId" (Json.str "t") Json.end);
  generation = 1;
  connection = 7;
  claimed = false;
  received_at = 0;
  snoozed = false;
}

-- The question is asked, claimed, and answered twice over one connection.
abbrev events : List Event
events =
    connected 7
    ∷ admitted question
    ∷ claimed "1" "t" ""
    ∷ finished false true transmitted (record question { claimed = true; token = draw 1 })
    ∷ finished false true transmitted (record question { claimed = true; token = draw 1 })
    ∷ []

run-once_example : times (draw 1) (run none draw 0 events idle_client).written ≤ 1
run-once_example = run-once none draw draw_injective 0 events idle_client refl refl (draw 1)

program : Unit {0}
unfolding lookup insert delete Respond.requires_thread_item Respond.item_type_matches
    Respond.offers_decision Respond.has_authority Respond.finish_offer Respond.give_up
    Respond.respond_decision Respond.respond_answers Respond.respond_prompt step run Json.field
    Json.as_string Json.string_at State.request_thread_id State.pending_revision State.bump_pending
    State.any_of_thread State.retains_revision State.prune_pending_revision Offers.is_current
    Offers.admit_prompt Offers.token_fits Offers.claim Offers.same_offer Offers.release_claim
    Offers.drop_generation Offers.detach_connection Offers.mark_disconnected Offers.connect
    Offers.write_offer Offers.finish_response Notices.add_notice Notices.record_watch_error
    Notices.replace_notice Notices.without_notice Notices.clear_watch_error
    Normalize.request_policy_for Normalize.blank_prompt Raised.IsOwn Normalize.prompt_of_method
    Normalize.normalize_request Normalize.is_user_input Normalize.normalize_prompt
program = tt

run_test : (run none draw 0 events idle_client).written ≡ draw 1 ∷ []
unfolding program
run_test = refl

-- A failed watch is noticed and the connection ends.
abbrev noticed_and_lost : PromptState
noticed_and_lost =
    run none draw 0
      (connected 7 ∷ failed "t" (record { id = "watch"; text = "lost" }) ∷ disconnected 7 1 ∷ [])
      idle_client

-- The notice is then taken away.
abbrev cleared_after : PromptState
cleared_after = run none draw 3 (cleared "t" "watch" ∷ []) noticed_and_lost

-- The revision of the thread before and after the notice is taken away.
revision_test :
    (pending_revision "t" noticed_and_lost ≡ pending_revision "t" cleared_after)
    × (notices_of "t" noticed_and_lost.notices ≢ notices_of "t" cleared_after.notices)
unfolding program
revision_test = (refl, λ h. absurd (ground (arith, h)))

abbrev asked : Prompt
asked = record {
  id = "1";
  token = "";
  method = "item/tool/requestUserInput";
  kind = user_input;
  thread_id = "t";
  turn_id = "";
  item_id = "";
  authority_available = true;
  available_decisions = [];
  questions =
      record {
        id = "q";
        header = "h";
        question = "which?";
        is_secret = false;
        is_other = false;
        options = record { label = "left"; description = "" } ∷ [];
      }
      ∷ [];
  is_blocking = true;
  auto_resolution_ms = none;
  auto_resolution_visible_at_ms = 0;
  auto_resolution_at_ms = 0;
  auto_resolve_snoozed = false;
}

abbrev replies : GoMap (GoMap (List String))
replies = ("q", ("answers", "left" ∷ "user_note: slowly" ∷ []) ∷ []) ∷ []

validate_answers-AllAnswered_example :
    (validate_answers toy asked replies ≡ ok tt)
    ↔ ((length replies ≡ length asked.questions) × AllAnswered toy replies asked.questions)
validate_answers-AllAnswered_example = validate_answers-AllAnswered toy asked replies

-- The thread is watched, and its question is asked.
abbrev watching : PromptState
watching = run none draw 0 (connected 7 ∷ watched "t" ∷ []) idle_client

step-Signals_example : Signals "t" watching (step none "a" (admitted question) watching)
unfolding program
step-Signals_example =
    step-Signals none "t" "a" (admitted question) watching
      (λ h. absurd (ground (arith, eq_iff "t" "", h)))
      (record { reset = omega arith; each = λ t. omega arith })
      (record {
        named = λ id r h. absurd (ground (arith, h));
        current = λ id r h. absurd (ground (arith, h));
      })
      tt (λ h. absurd (omega (arith, h)))

-- The connection is lost and made again, and the question is asked again.
abbrev reconnected : List Event
reconnected =
    connected 7
    ∷ admitted question
    ∷ disconnected 7 1
    ∷ connected 8
    ∷ admitted (record question { generation = 2; connection = 8 })
    ∷ []

run-is_current_example :
    is_current
      (run none draw 0 reconnected idle_client)
      (record question { generation = 2; connection = 8; token = draw 4 })
    ≡ true
unfolding program
run-is_current_example =
    run-is_current none draw 0 reconnected idle_client "1"
      (record question { generation = 2; connection = 8; token = draw 4 }) refl refl

-- The question was asked, and its file change is there.
abbrev asked_once : PromptState
asked_once = run none draw 0 (connected 7 ∷ admitted question ∷ []) idle_client

abbrev meets : Meets
meets = record {
  meanwhile = λ s. s;
  item_type = ok (some "fileChange");
  observer = false;
  encodes = true;
  writing = transmitted;
  byte_length = len;
}

abbrev accepting : PromptResponse
accepting = record { id = "1"; token = draw 1; decision = "accept"; answers = []; snooze = false }

respond_prompt-Takes_example :
    (prompt : Prompt) × (asks : Asks none "1" "t" (draw 1) asked_once prompt) × (((draw 1) == "")
      ≡ false)
    × Took toy none meets "t" accepting asked_once prompt asks.request
        (respond_prompt toy none meets "t" accepting asked_once).1
unfolding program
respond_prompt-Takes_example = respond_prompt-Takes toy none meets "t" accepting asked_once refl
