-- ===== src/Prompts/Once/Runs.antt =====
-- A run of events, of which each is one change of the questions.
use codex_web.Common.{
  String, ℕ, suc, ◌+◌, ◌-◌, ◌≤◌, ◌≡◌, ◌≢◌, refl, ap, inl, inr, Bool, true, false, Option, some,
  List, [], ◌∷◌, arith,
}
use codex_web.Errors.{Outcome-cases}
use codex_web.GoMap.{lookup, insert}
use codex_web.Prompts.Types.{PendingRequest, NonBlockingUserInputPolicy}
use codex_web.Prompts.State.{PromptState, bump_pending, prune_pending_revision, request_thread_id}
use codex_web.Prompts.Offers.{release_claim, connect, Writing, write_offer, finish_response}
use codex_web.Prompts.Once.{times, Fresh, Mild, Mild-same, Fresh-Thins, Fresh-same}
use codex_web.Prompts.Once.Claims.{
  prune_requests, claim-Mild, claim_auto_resolvable-Mild, snooze_user_input-Mild,
  release_claim-Mild, mark_disconnected-Mild, handle_resolved-Mild,
}
use codex_web.Prompts.Once.Answered.{write_offer-Fresh, admit_prompt-Fresh}
use codex_web.Prompts.State.{Notice, count_at}
use codex_web.Prompts.Notices.{add_notice, record_watch_error, clear_watch_error}
use codex_web.Prompts.Run.{
  Event, admitted, claimed, auto_claimed, snoozed, released, finished, resolved, disconnected,
  connected, noticed, failed, cleared, watched, unwatched, step, run,
}

finish_response-Fresh :
    (draw : ℕ → String) (injective : (i j : ℕ) → draw i ≡ draw j → i ≡ j) (n : ℕ)
    (observer encodes : Bool) (writing : Writing) (request : PendingRequest) (s : PromptState)
    → Fresh draw n s
    → Fresh draw n (finish_response observer encodes writing request s).1
unfolding finish_response
finish_response-Fresh draw injective n true encodes writing request s f = f
finish_response-Fresh draw injective n false false writing request s f =
    Fresh-Thins draw n n s (release_claim request s) (omega arith)
      (release_claim-Mild request s f.named) f
finish_response-Fresh draw injective n false true writing request s f =
    let s' = (write_offer writing request s).1 in
    let g = write_offer-Fresh draw injective n writing request s f in
    let done = (finish_response false true writing request s).1 in
    elim (Outcome-cases (write_offer writing request s).0) [
      | inl (u, e) ↦
          let (requests, silent) = prune_requests (request_thread_id request) s' in
          let pruned = prune_pending_revision (request_thread_id request) s' in
          Fresh-same draw n pruned done (ground (arith, e))
            (Fresh-Thins draw n n s' pruned (omega arith) (Mild-same s' pruned requests silent) g)
      | inr (inl (x, e)) ↦ Fresh-same draw n (release_claim request s') done (ground (arith, e)) (
          Fresh-Thins draw n n s' (release_claim request s') (omega arith)
            (release_claim-Mild request s' g.named) g)
      | inr (inr e) ↦ Fresh-same draw n s' done (ground (arith, e)) g
    ]

connect-Mild : (connection : ℕ) (s : PromptState) → Mild s (connect connection s)
unfolding connect
connect-Mild connection s = Mild-same s (connect connection s) (ground arith) (ground arith)

add_notice-Mild :
    (thread : String) (notice : Notice) (s : PromptState) → Mild s (add_notice thread notice s)
unfolding add_notice bump_pending
add_notice-Mild thread notice s =
    Mild-same s (add_notice thread notice s) (ground arith) (ground arith)

record_watch_error-Mild :
    (thread : String) (notice : Notice) (s : PromptState)
    → Mild s (record_watch_error thread notice s)
unfolding record_watch_error bump_pending
record_watch_error-Mild thread notice s =
    Mild-same s (record_watch_error thread notice s) (ground arith) (ground arith)

clear_watch_error-Mild :
    (thread id : String) (s : PromptState) → Mild s (clear_watch_error thread id s)
unfolding clear_watch_error bump_pending prune_pending_revision
clear_watch_error-Mild thread id s =
    Mild-same s (clear_watch_error thread id s) (ground arith) (ground arith)

unwatched-Mild :
    (thread : String) (s : PromptState)
    → Mild s (
        prune_pending_revision thread
          (record s { watched = insert thread (count_at thread s.watched - 1) s.watched }))
unwatched-Mild thread s =
    let less = record s { watched = insert thread (count_at thread s.watched - 1) s.watched } in
    let (requests, silent) = prune_requests thread less in
    Mild-same s (prune_pending_revision thread less) requests silent

module _ (policy : Option NonBlockingUserInputPolicy) (draw : ℕ → String)
    (injective : (i j : ℕ) → draw i ≡ draw j → i ≡ j) where
  mild :
      (n : ℕ) (s : PromptState) {s' : PromptState}
      → Fresh draw n s
      → Mild s s'
      → Fresh draw (suc n) s'
  mild n s {s'} f gentle = Fresh-Thins draw n (suc n) s s' (omega arith) gentle f

  step-Fresh :
      (n : ℕ) (event : Event) (s : PromptState)
      → Fresh draw n s
      → Fresh draw (suc n) (step policy (draw n) event s)
  unfolding step
  step-Fresh n (admitted request) s f = admit_prompt-Fresh draw injective n request s f
  step-Fresh n (claimed id thread offer) s f =
      mild n s f (claim-Mild policy id thread offer s f.named)
  step-Fresh n (auto_claimed id thread offer) s f =
      mild n s f (claim_auto_resolvable-Mild policy id thread offer s f.named)
  step-Fresh n (snoozed id thread offer) s f =
      mild n s f (snooze_user_input-Mild policy id thread offer s f.named)
  step-Fresh n (released request) s f = mild n s f (release_claim-Mild request s f.named)
  step-Fresh n (finished observer encodes writing request) s f =
      let s' = (finish_response observer encodes writing request s).1 in
      Fresh-Thins draw n (suc n) s' s' (omega arith) (Mild-same s' s' refl refl)
        (finish_response-Fresh draw injective n observer encodes writing request s f)
  step-Fresh n (resolved id generation) s f = mild n s f (handle_resolved-Mild id generation s)
  step-Fresh n (disconnected connection generation) s f =
      mild n s f (mark_disconnected-Mild connection generation s)
  step-Fresh n (connected connection) s f = mild n s f (connect-Mild connection s)
  step-Fresh n (noticed thread notice) s f = mild n s f (add_notice-Mild thread notice s)
  step-Fresh n (failed thread notice) s f = mild n s f (record_watch_error-Mild thread notice s)
  step-Fresh n (cleared thread id) s f = mild n s f (clear_watch_error-Mild thread id s)
  step-Fresh n (watched thread) s f = mild n s f (
      Mild-same s (record s { watched = insert thread (1 + count_at thread s.watched) s.watched })
        refl refl)
  step-Fresh n (unwatched thread) s f = mild n s f (unwatched-Mild thread s)

  run-Fresh :
      (n : ℕ) (events : List Event) (s : PromptState)
      → Fresh draw n s
      → (m : ℕ) × Fresh draw m (run policy draw n events s)
  unfolding run
  run-Fresh n [] s f = (n, f)
  run-Fresh n (event ∷ events) s f =
      run-Fresh (suc n) events (step policy (draw n) event s) (step-Fresh n event s f)

  -- Tokens drawn for different offers being different, in every run of the events, from a client that has no
  -- offer and has handed nothing to a writer, at most one response to each offer is handed to a
  -- connection's writer.
  pub run-once :
      (n : ℕ) (events : List Event) (s : PromptState)
      → s.requests ≡ []
      → s.written ≡ []
      → (token : String) → times token (run policy draw n events s).written ≤ 1
  unfolding lookup
  run-once n events s empty silent token =
      let none_there : (id : String) (r : PendingRequest) → lookup id s.requests ≢ some r =
        λ id r h. ground (arith, h, ap (lookup id) empty) in
      let zero_times : (t : String) → times t s.written ≡ 0 = λ t. ap (times t) silent in
      let start : Fresh draw n s = record {
        drawn = λ id r h. absurd (none_there id r h);
        named = λ id r h. absurd (none_there id r h);
        distinct = λ id id' r r' h h' e. absurd (none_there id r h);
        unanswered = λ id r h. zero_times r.token;
        later = λ i h. zero_times (draw i);
        once = λ t. let z = zero_times t in omega arith;
      } in
      let (m, f) = run-Fresh n events s start in f.once token
