-- ===== src/Prompts/Run.antt =====
-- The changes of the questions as events, and a run of several: each is made under the client's locks,
-- so any interleaving of its goroutines is a list. The n-th event draws the n-th token.
use codex_web.Common.{String, ℕ, suc, ◌+◌, ◌-◌, Bool, Option, List, [], ◌∷◌}
use codex_web.GoMap.{insert}
use codex_web.Prompts.Types.{PendingRequest, NonBlockingUserInputPolicy}
use codex_web.Prompts.State.{Notice, PromptState, count_at, prune_pending_revision}
use codex_web.Prompts.Offers.{
  admit_prompt, claim, claim_auto_resolvable, snooze_user_input, release_claim, mark_disconnected,
  connect, Writing, finish_response, handle_resolved,
}
use codex_web.Prompts.Notices.{add_notice, record_watch_error, clear_watch_error}

pub data Event : Type 0 where
  admitted : PendingRequest → Event
  -- request, thread, token
  claimed auto_claimed snoozed : String → String → String → Event
  released : PendingRequest → Event
  -- whether the client only observes, whether the response encodes, and how it is written
  finished : Bool → Bool → Writing → PendingRequest → Event
  resolved : String → ℕ → Event
  -- connection, generation
  disconnected : ℕ → ℕ → Event
  connected : ℕ → Event
  noticed failed : String → Notice → Event
  cleared : String → String → Event
  watched unwatched : String → Event

module _ (policy : Option NonBlockingUserInputPolicy) where
  unfoldable pub step : String → Event → PromptState → PromptState
  step token (admitted request) s = (admit_prompt token request s).1
  step token (claimed id thread offer) s = (claim policy id thread offer s).1
  step token (auto_claimed id thread offer) s = (claim_auto_resolvable policy id thread offer s).1
  step token (snoozed id thread offer) s = (snooze_user_input policy id thread offer s).1
  step token (released request) s = release_claim request s
  step token (finished observer encodes writing request) s =
      (finish_response observer encodes writing request s).1
  step token (resolved id generation) s = handle_resolved id generation s
  step token (disconnected connection generation) s = mark_disconnected connection generation s
  step token (connected connection) s = connect connection s
  step token (noticed thread notice) s = add_notice thread notice s
  step token (failed thread notice) s = record_watch_error thread notice s
  step token (cleared thread id) s = clear_watch_error thread id s
  step token (watched thread) s = record s {
    watched = insert thread (1 + count_at thread s.watched) s.watched;
  }
  step token (unwatched thread) s =
      prune_pending_revision thread
        (record s { watched = insert thread (count_at thread s.watched - 1) s.watched })

  unfoldable pub run : (ℕ → String) → ℕ → List Event → PromptState → PromptState
  run draw n [] s = s
  run draw n (event ∷ events) s = run draw (suc n) events (step (draw n) event s)
