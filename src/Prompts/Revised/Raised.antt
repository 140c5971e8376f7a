-- ===== src/Prompts/Revised/Raised.antt =====
-- An event, and the revision of a thread that is watched (codex/client.go).
use codex_web.Common.{String, ◌+◌, ◌-◌, ◌≢◌, Option}
use codex_web.GoMap.{insert}
use codex_web.Prompts.Types.{NonBlockingUserInputPolicy}
use codex_web.Prompts.State.{PromptState, count_at}
use codex_web.Prompts.Run.{
  Event, admitted, claimed, auto_claimed, snoozed, released, finished, resolved, disconnected,
  connected, noticed, failed, cleared, watched, unwatched, step,
}
use codex_web.Prompts.Revised.{Ordered, Live, Signals}
use codex_web.Prompts.Revised.Changes.{
  admit_prompt-Signals, claim-Signals, claim_auto_resolvable-Signals, snooze_user_input-Signals,
  release_claim-Signals,
}
use codex_web.Prompts.Revised.Steps.{mark_disconnected-Signals}
use codex_web.Prompts.Revised.Steps.Every.{
  OfOwnThread, pruned, add_notice-Signals, record_watch_error-Signals, clear_watch_error-Signals,
  handle_resolved-Signals, counted-Signals, connect-Signals, finish_response-Signals,
}

-- What the client releases or answers is a request of the thread that it was offered for.
unfoldable pub IsOwn : Event → PromptState → Type 0
IsOwn (released request) s = OfOwnThread request s
IsOwn (finished _ _ _ request) s = OfOwnThread request s
IsOwn _ s = Unit

module _ (policy : Option NonBlockingUserInputPolicy) where
  -- Whatever event changes an offer or a notice of a thread that is watched after it raises the revision of that
  -- thread, and no event lowers it; provided that the revisions are in order, the offers are those of the
  -- present connection, and a request is released or answered for its own thread.
  pub step-Signals :
      (t : String) (token : String) (event : Event) (s : PromptState)
      → t ≢ ""
      → Ordered s
      → Live s
      → IsOwn event s
      → count_at t (step policy token event s).watched ≢ 0
      → Signals t s (step policy token event s)
  unfolding step IsOwn
  step-Signals t token (admitted request) s real o live own watching =
      admit_prompt-Signals t real s o live token request
  step-Signals t token (claimed id thread offer) s real o live own watching =
      claim-Signals t real s o live policy id thread offer
  step-Signals t token (auto_claimed id thread offer) s real o live own watching =
      claim_auto_resolvable-Signals t real s o live policy id thread offer
  step-Signals t token (snoozed id thread offer) s real o live own watching =
      snooze_user_input-Signals t real s o live policy id thread offer
  step-Signals t token (released request) s real o live own watching =
      release_claim-Signals t real s o live request own
  step-Signals t token (finished observer encodes writing request) s real o live own watching =
      finish_response-Signals t real s o observer encodes writing request live own watching
  step-Signals t token (resolved id generation) s real o live own watching =
      handle_resolved-Signals t real s o id generation watching
  step-Signals t token (disconnected connection generation) s real o live own watching =
      mark_disconnected-Signals t connection generation s o
  step-Signals t token (connected connection) s real o live own watching =
      connect-Signals t real s o connection
  step-Signals t token (noticed thread notice) s real o live own watching =
      add_notice-Signals t real s o thread notice
  step-Signals t token (failed thread notice) s real o live own watching =
      record_watch_error-Signals t real s o thread notice
  step-Signals t token (cleared thread id) s real o live own watching =
      clear_watch_error-Signals t real s o thread id watching
  step-Signals t token (watched thread) s real o live own watching =
      counted-Signals t real s o (insert thread (1 + count_at thread s.watched) s.watched)
  step-Signals t token (unwatched thread) s real o live own watching =
      let m = insert thread (count_at thread s.watched - 1) s.watched in
      pruned t real s o thread (record s { watched = m }) (counted-Signals t real s o m) watching
