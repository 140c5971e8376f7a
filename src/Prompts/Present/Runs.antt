-- ===== src/Prompts/Present/Runs.antt =====
-- The offers after any run of events (codex/client.go).
use codex_web.Common.{
  String, ℕ, suc, ◌+◌, ◌-◌, ◌≡◌, refl, sym, ap, ◌∙◌, subst, inl, inr, Bool, true, false, not, ◌&&◌,
  Option, none, some, List, [], ◌∷◌, arith, ◌==◌, nat_eq, Bool-cases, Option-cases,
}
use codex_web.Errors.{Outcome-cases}
use codex_web.GoMap.{lookup, insert, delete, lookup-insert}
use codex_web.Prompts.Types.{PendingRequest, NonBlockingUserInputPolicy}
use codex_web.Prompts.State.{
  Notice, PromptState, request_thread_id, count_at, bump_pending, prune_pending_revision,
}
use codex_web.Prompts.Offers.{
  is_current, admit_prompt, same_offer, claim, release_claim, detach_connection, mark_disconnected,
  connect, Writing, ended, no_writer, broke, transmitted, write_offer, finish_response,
  handle_resolved,
}
use codex_web.Prompts.Notices.{add_notice, record_watch_error, clear_watch_error}
use codex_web.Prompts.Run.{
  Event, admitted, claimed, auto_claimed, snoozed, released, finished, resolved, disconnected,
  connected, noticed, failed, cleared, watched, unwatched, step, run,
}
use codex_web.Prompts.Once.Claims.{lookup-drop_generation, drop_generation-gone}
use codex_web.Prompts.Present.{
  Present, Kin, Present-Kin, Kin-same, Kin-delete, Kin-then, bump_pending-Kin, prune-Kin, claim-Kin,
  claim_auto_resolvable-Kin, snooze_user_input-Kin, release_claim-Kin,
}

Present-same : (s s' : PromptState) → s' ≡ s → Present s → Present s'
Present-same s s' same p = subst Present (sym same) p

admit_prompt-Present :
    (token : String) (request : PendingRequest) (s : PromptState)
    → Present s
    → Present (admit_prompt token request s).1
unfolding admit_prompt is_current bump_pending
admit_prompt-Present token request s p id r h =
    elim (Bool-cases (
      is_current s request && elim (lookup request.id s.requests) [
        | none ↦ true
        | some x ↦ not (nat_eq x.generation request.generation)
      ])) [
        | inr refused ↦
            let same : (admit_prompt token request s).1 ≡ s = ground (arith, refused) in
            Present-same s (admit_prompt token request s).1 same p id r h
        | inl taken ↦
            let new = record request { token = token } in
            let s' = (admit_prompt token request s).1 in
            let requests : s'.requests ≡ insert request.id new s.requests = ground (arith, taken) in
            let generation : s'.generation ≡ s.generation = ground (arith, taken) in
            let connection : s'.connection ≡ s.connection = ground (arith, taken) in
            elim (Bool-cases (request.id == id)) [
              | inl hit ↦
                  let own : new ≡ r = ground (
                    arith,
                    h,
                    hit,
                    lookup-insert request.id id new s.requests,
                    ap (lookup id) requests,
                  ) in
                  let now : is_current s new ≡ true = ground (arith, taken) in
                  let now' : is_current s r ≡ true = ap (is_current s) (sym own) ∙ now in
                  ground (arith, now', generation, connection)
              | inr miss ↦
                  let found : lookup id s.requests ≡ some r = ground (
                    arith,
                    h,
                    miss,
                    lookup-insert request.id id new s.requests,
                    ap (lookup id) requests,
                  ) in
                  let now = p id r found in ground (arith, now, generation, connection)
            ]
      ]

mark_disconnected-Present :
    (connection generation : ℕ) (s : PromptState)
    → Present s
    → Present (mark_disconnected connection generation s)
unfolding mark_disconnected detach_connection is_current
mark_disconnected-Present connection generation s p =
    elim (Bool-cases (elim s.connection [
      | none ↦ false
      | some x ↦ nat_eq x connection && nat_eq s.generation generation
    ])) [
      | inr kept ↦
          Present-same s (mark_disconnected connection generation s) (ground (arith, kept)) p
      | inl gone ↦
          let same : mark_disconnected connection generation s ≡ detach_connection generation s =
            ground (arith, gone) in
          subst Present (sym same) (λ id r h.
            let found = lookup-drop_generation generation s.requests s.requests id r h in
            let now = p id r found in
            absurd (
              drop_generation-gone generation s.requests s.requests id r r found
                (ground (arith, now, gone)) h))
    ]

connect-Present : (connection : ℕ) (s : PromptState) → Present s → Present (connect connection s)
unfolding connect is_current
connect-Present connection s p = elim (Option-cases s.connection) [
  | inr (x, e) ↦ Present-same s (connect connection s) (ground (arith, e)) p
  | inl e ↦
      let requests : (connect connection s).requests ≡ s.requests = ground (arith, e) in
      λ id r h.
        let now = p id r (ap (lookup id) (sym requests) ∙ h) in absurd (ground (arith, now, e))
]

write_offer-Present :
    (writing : Writing) (request : PendingRequest) (s : PromptState)
    → Present s
    → Present (write_offer writing request s).1
unfolding write_offer
write_offer-Present writing request s p = elim (Bool-cases (is_current s request)) [
  | inr stale ↦ Present-same s (write_offer writing request s).1 (ground (arith, stale)) p
  | inl now ↦ elim (Option-cases (lookup request.id s.requests)) [
    | inl e ↦ Present-same s (write_offer writing request s).1 (ground (arith, now, e)) p
    | inr (r, e) ↦
        elim (Bool-cases
          (r.claimed && same_offer r request && nat_eq r.connection request.connection)) [
            | inr refused ↦
                Present-same s (write_offer writing request s).1 (ground (arith, now, e, refused)) p
            | inl ours ↦ written_to r now e ours writing
          ]
  ]
]
  where
    written_to :
        (r : PendingRequest)
        → is_current s request ≡ true
        → lookup request.id s.requests ≡ some r
        → (r.claimed && same_offer r request && nat_eq r.connection request.connection) ≡ true
        → (w : Writing) → Present (write_offer w request s).1
    written_to r now e ours ended =
        Present-same s (write_offer ended request s).1 (ground (arith, now, e, ours)) p
    written_to r now e ours (no_writer false) =
        Present-same s (write_offer (no_writer false) request s).1 (ground (arith, now, e, ours)) p
    written_to r now e ours (no_writer true) =
        Present-same (mark_disconnected request.connection request.generation s)
          (write_offer (no_writer true) request s).1 (ground (arith, now, e, ours))
          (mark_disconnected-Present request.connection request.generation s p)
    written_to r now e ours broke =
        let handed = record s { written = request.token ∷ s.written } in
        Present-same (mark_disconnected request.connection request.generation handed)
          (write_offer broke request s).1 (ground (arith, now, e, ours))
          (mark_disconnected-Present request.connection request.generation handed
            (Present-Kin s handed (Kin-same s handed refl refl refl) p))
    written_to r now e ours transmitted =
        let removed = record s {
          written = request.token ∷ s.written;
          requests = delete request.id s.requests;
        } in
        Present-same (bump_pending (request_thread_id request) removed)
          (write_offer transmitted request s).1 (ground (arith, now, e, ours))
          (Present-Kin s (bump_pending (request_thread_id request) removed)
            (Kin-then s removed (bump_pending (request_thread_id request) removed)
              (Kin-delete s removed request.id refl refl refl)
              (bump_pending-Kin (request_thread_id request) removed))
            p)

finish_response-Present :
    (observer encodes : Bool) (writing : Writing) (request : PendingRequest) (s : PromptState)
    → Present s
    → Present (finish_response observer encodes writing request s).1
unfolding finish_response
finish_response-Present true encodes writing request s p = p
finish_response-Present false false writing request s p =
    Present-Kin s (release_claim request s) (release_claim-Kin request s) p
finish_response-Present false true writing request s p =
    let s' = (write_offer writing request s).1 in
    let q = write_offer-Present writing request s p in
    let done = (finish_response false true writing request s).1 in
    elim (Outcome-cases (write_offer writing request s).0) [
      | inr (inr e) ↦ Present-same s' done (ground (arith, e)) q
      | inl (u, e) ↦
          let x = prune_pending_revision (request_thread_id request) s' in
          Present-same x done (ground (arith, e))
            (Present-Kin s' x (prune-Kin (request_thread_id request) s') q)
      | inr (inl (y, e)) ↦
          let x = release_claim request s' in
          Present-same x done (ground (arith, e))
            (Present-Kin s' x (release_claim-Kin request s') q)
    ]

handle_resolved-Kin :
    (id : String) (generation : ℕ) (s : PromptState) → Kin s (handle_resolved id generation s)
unfolding handle_resolved prune_pending_revision bump_pending
handle_resolved-Kin id generation s = elim (Option-cases (lookup id s.requests)) [
  | inl e ↦
      Kin-same s (handle_resolved id generation s) (ground (arith, e)) (ground (arith, e))
        (ground (arith, e))
  | inr (r, e) ↦ elim (Bool-cases (nat_eq r.generation generation)) [
    | inl own ↦
        Kin-delete s (handle_resolved id generation s) id (ground (arith, e, own))
          (ground (arith, e, own)) (ground (arith, e, own))
    | inr other ↦
        Kin-same s (handle_resolved id generation s) (ground (arith, e, other))
          (ground (arith, e, other)) (ground (arith, e, other))
  ]
]

add_notice-Kin :
    (thread : String) (notice : Notice) (s : PromptState) → Kin s (add_notice thread notice s)
unfolding add_notice bump_pending
add_notice-Kin thread notice s =
    Kin-same s (add_notice thread notice s) (ground arith) (ground arith) (ground arith)

record_watch_error-Kin :
    (thread : String) (notice : Notice) (s : PromptState)
    → Kin s (record_watch_error thread notice s)
unfolding record_watch_error bump_pending
record_watch_error-Kin thread notice s =
    Kin-same s (record_watch_error thread notice s) (ground arith) (ground arith) (ground arith)

clear_watch_error-Kin :
    (thread id : String) (s : PromptState) → Kin s (clear_watch_error thread id s)
unfolding clear_watch_error bump_pending prune_pending_revision
clear_watch_error-Kin thread id s =
    Kin-same s (clear_watch_error thread id s) (ground arith) (ground arith) (ground arith)

module _ (policy : Option NonBlockingUserInputPolicy) where
  step-Present :
      (token : String) (event : Event) (s : PromptState)
      → Present s
      → Present (step policy token event s)
  unfolding step
  step-Present token (admitted request) s p = admit_prompt-Present token request s p
  step-Present token (claimed id thread offer) s p =
      Present-Kin s (claim policy id thread offer s).1 (claim-Kin policy id thread offer s) p
  step-Present token (auto_claimed id thread offer) s p =
      Present-Kin s (step policy token (auto_claimed id thread offer) s)
        (claim_auto_resolvable-Kin policy id thread offer s) p
  step-Present token (snoozed id thread offer) s p =
      Present-Kin s (step policy token (snoozed id thread offer) s)
        (snooze_user_input-Kin policy id thread offer s) p
  step-Present token (released request) s p =
      Present-Kin s (release_claim request s) (release_claim-Kin request s) p
  step-Present token (finished observer encodes writing request) s p =
      finish_response-Present observer encodes writing request s p
  step-Present token (resolved id generation) s p =
      Present-Kin s (handle_resolved id generation s) (handle_resolved-Kin id generation s) p
  step-Present token (disconnected connection generation) s p =
      mark_disconnected-Present connection generation s p
  step-Present token (connected connection) s p = connect-Present connection s p
  step-Present token (noticed thread notice) s p =
      Present-Kin s (add_notice thread notice s) (add_notice-Kin thread notice s) p
  step-Present token (failed thread notice) s p =
      Present-Kin s (record_watch_error thread notice s) (record_watch_error-Kin thread notice s) p
  step-Present token (cleared thread id) s p =
      Present-Kin s (clear_watch_error thread id s) (clear_watch_error-Kin thread id s) p
  step-Present token (watched thread) s p =
      let x = record s { watched = insert thread (1 + count_at thread s.watched) s.watched } in
      Present-Kin s x (Kin-same s x refl refl refl) p
  step-Present token (unwatched thread) s p =
      let x = record s { watched = insert thread (count_at thread s.watched - 1) s.watched } in
      Present-Kin s (prune_pending_revision thread x)
        (Kin-then s x (prune_pending_revision thread x) (Kin-same s x refl refl refl)
          (prune-Kin thread x))
        p

  run-Present :
      (draw : ℕ → String) (n : ℕ) (events : List Event) (s : PromptState)
      → Present s
      → Present (run policy draw n events s)
  unfolding run
  run-Present draw n [] s p = p
  run-Present draw n (event ∷ events) s p =
      run-Present draw (suc n) events (step policy (draw n) event s)
        (step-Present (draw n) event s p)

  -- In every run of the events, from a client that has no offer, an offer that the client has in the end was
  -- made by the connection that it has then.
  pub run-is_current :
      (draw : ℕ → String) (n : ℕ) (events : List Event) (s : PromptState) (id : String)
      (r : PendingRequest)
      → s.requests ≡ []
      → lookup id (run policy draw n events s).requests ≡ some r
      → is_current (run policy draw n events s) r ≡ true
  unfolding lookup
  run-is_current draw n events s id r empty found =
      run-Present draw n events s (λ k x h. absurd (ground (arith, h, ap (lookup k) empty))) id r
        found
