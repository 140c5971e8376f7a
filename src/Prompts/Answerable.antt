-- ===== src/Prompts/Answerable.antt =====
-- What a response that succeeds was given to (codex/prompt_response.go, codex/client.go).
use codex_web.Common.{
  String, ◌≡◌, sym, ap, ◌∙◌, subst, ◌⊎◌, eq_refl, inl, inr, true, false, not, ◌&&◌, Option, some,
  arith, ◌==◌, eq_iff, Bool-cases, Option-cases,
}
use codex_web.Errors.{Outcome, ok, Outcome-cases}
use codex_web.GoMap.{lookup, lookup-insert}
use codex_web.Library.{Library}
use codex_web.Prompts.Types.{PendingRequest, Prompt, NonBlockingUserInputPolicy}
use codex_web.Prompts.Normalize.{normalize_prompt, is_user_input}
use codex_web.Prompts.Answers.{validate_answers}
use codex_web.Prompts.State.{PromptState, bump_pending}
use codex_web.Prompts.Offers.{
  with_request, is_current, token_fits, claim, snooze_user_input, finish_response,
}
use codex_web.Prompts.Once.Claims.{bump_requests}
use codex_web.Prompts.Handed.{Handed, finish_response-Handed}
use codex_web.Prompts.Respond.{
  PromptResponse, Meets, requires_thread_item, offers_decision, has_authority, finish_offer,
  give_up, respond_decision, respond_answers, respond_prompt, answered,
}

-- The question that an identity, a thread and a token name, of the present connection and not claimed.
pub record Asks (policy : Option NonBlockingUserInputPolicy) (id thread token : String)
    (s : PromptState) (prompt : Prompt) : Type 0 where
  pub request : PendingRequest
  pub found : lookup id s.requests ≡ some request
  pub unclaimed : request.claimed ≡ false
  pub current : is_current s request ≡ true
  pub fits : token_fits token request ≡ true
  pub shown : normalize_prompt policy request ≡ ok prompt
  pub own_thread : prompt.thread_id ≡ thread

-- The offer is snoozed: it was before, and nothing changed, or it is marked now.
abbrev pub Snoozed : PendingRequest → PromptState → PromptState → Type 0
Snoozed request s s' =
    ((request.snoozed ≡ true) × (s' ≡ s))
    ⊎ (lookup request.id s'.requests ≡ some (record request { snoozed = true }))

module _ (policy : Option NonBlockingUserInputPolicy) (id thread token : String)
    (s : PromptState) where
  claim-Asks :
      (request : PendingRequest) (prompt : Prompt)
      → (claim policy id thread token s).0 ≡ ok (request, prompt)
      → (asks : Asks policy id thread token s prompt) × (request
          ≡ record asks.request { claimed = true })
  unfolding claim
  claim-Asks request prompt h = elim (Option-cases (lookup id s.requests)) [
    | inl e ↦ absurd (ground (arith, e, h))
    | inr (r, e) ↦ elim (Outcome-cases (normalize_prompt policy r)) [
      | inr f ↦ absurd (ground (arith, e, f, h))
      | inl (p, f) ↦
          elim (Bool-cases
            (not r.claimed && is_current s r && token_fits token r && (p.thread_id == thread))) [
              | inr refused ↦ absurd (ground (arith, e, f, h, refused))
              | inl taken ↦
                  let same : p ≡ prompt = ground (arith, e, f, h, taken) in
                  (
                    record {
                      request = r;
                      found = e;
                      unclaimed = ground (arith, taken);
                      current = ground (arith, taken);
                      fits = ground (arith, taken);
                      shown = f ∙ ap (λ x. ok x) same;
                      own_thread =
                          ap (λ x. x.thread_id) (sym same)
                          ∙ ground (arith, taken, eq_iff p.thread_id thread);
                    },
                    ground (arith, e, f, h, taken),
                  )
            ]
    ]
  ]

  snooze-Asks :
      (snooze_user_input policy id thread token s).0 ≡ ok tt
      → (prompt : Prompt) × (asks : Asks policy id thread token s prompt) × (is_user_input
            prompt.kind
          ≡ true)
        × Snoozed asks.request s (snooze_user_input policy id thread token s).1
  unfolding snooze_user_input
  snooze-Asks h = elim (Option-cases (lookup id s.requests)) [
    | inl e ↦ absurd (ground (arith, e, h))
    | inr (r, e) ↦ elim (Outcome-cases (normalize_prompt policy r)) [
      | inr f ↦ absurd (ground (arith, e, f, h))
      | inl (p, f) ↦
          elim (Bool-cases (
            not r.claimed
            && is_current s r
            && token_fits token r
            && (p.thread_id == thread)
            && is_user_input p.kind)) [
              | inr refused ↦ absurd (ground (arith, e, f, h, refused))
              | inl taken ↦ (
                p,
                record {
                  request = r;
                  found = e;
                  unclaimed = ground (arith, taken);
                  current = ground (arith, taken);
                  fits = ground (arith, taken);
                  shown = f;
                  own_thread = ground (arith, taken, eq_iff p.thread_id thread);
                },
                ground (arith, taken),
                elim (Bool-cases r.snoozed) [
                  | inl before ↦ inl (before, ground (arith, e, f, taken, before))
                  | inr awake ↦
                      let marked = with_request (record r { snoozed = true }) s in
                      let done : (snooze_user_input policy id thread token s).1
                          ≡ bump_pending thread marked =
                        ground (arith, e, f, taken, awake, eq_iff p.thread_id thread) in
                      let (requests, _) = bump_requests thread marked in
                      inr (
                        ap (λ x. lookup r.id x.requests) done
                        ∙ (ap (lookup r.id) requests
                            ∙ ground (
                              arith,
                              lookup-insert r.id r.id (record r { snoozed = true }) s.requests,
                              eq_refl r.id,
                            )))
                ],
              )
            ]
    ]
  ]

module _ (lib : Library) (policy : Option NonBlockingUserInputPolicy) (meets : Meets)
    (thread : String) (response : PromptResponse) (s : PromptState) where
  -- The response to an offer went out: the offer was claimed, and what the others had made of the client by
  -- then still had it so.
  abbrev pub Answered : PendingRequest → PromptState → Type 0
  Answered request s' =
      (meets.observer ≡ false)
      × (meets.encodes ≡ true)
      × Handed meets.writing (record request { claimed = true })
          (meets.meanwhile (claim policy response.id thread response.token s).1) s'

  -- The action of a response is one that the question takes, and it was done.
  pub data Took (prompt : Prompt) (request : PendingRequest) (s' : PromptState) : Type 0 where
    snoozing :
        response.snooze ≡ true
        → is_user_input prompt.kind ≡ true
        → Snoozed request s s'
        → Took prompt request s'
    answering :
        is_user_input prompt.kind ≡ true
        → validate_answers lib prompt response.answers ≡ ok tt
        → Answered request s'
        → Took prompt request s'
    deciding :
        requires_thread_item prompt.kind ≡ true
        → offers_decision response.decision prompt.available_decisions ≡ true
        → has_authority prompt.kind meets.item_type ≡ ok tt
        → Answered request s'
        → Took prompt request s'

  abbrev finishing : PendingRequest → Outcome (Unit {0}) × PromptState
  finishing taken =
      finish_response meets.observer meets.encodes meets.writing taken
        (meets.meanwhile (claim policy response.id thread response.token s).1)

  finish-Answered :
      (request taken : PendingRequest) (r : Outcome (Unit {0}) × PromptState)
      → taken ≡ record request { claimed = true }
      → r ≡ finish_offer lib policy meets taken (claim policy response.id thread response.token s).1
      → r.0 ≡ ok tt
      → Answered request r.1
  unfolding finish_offer
  finish-Answered request taken r mark ran h =
      let same : r ≡ finishing (record request { claimed = true }) = ran ∙ ap finishing mark in
      subst (λ x. Answered request x.1) (sym same)
        (finish_response-Handed meets.writing (record request { claimed = true })
          (meets.meanwhile (claim policy response.id thread response.token s).1) meets.observer
          meets.encodes (ap (λ x. x.0) (sym same) ∙ h))

  -- A response by token that succeeds was given to a question that the client had, of its connection, of that
  -- thread and with exactly that token, which no one had claimed; and it did what the question takes. It snoozed a
  -- question for input, whose offer is snoozed after it; or it gave such a question answers that are taken, or made
  -- a decision that was offered of an item of its kind: then the response was written, once, on the
  -- connection of the offer, which was still claimed, and the offer is gone.
  pub respond_prompt-Takes :
      (respond_prompt lib policy meets thread response s).0 ≡ ok tt
      → (prompt : Prompt) × (asks : Asks policy response.id thread response.token s prompt)
        × ((response.token == "") ≡ false)
        × Took prompt asks.request (respond_prompt lib policy meets thread response s).1
  unfolding respond_prompt respond_answers respond_decision give_up
  respond_prompt-Takes h =
      let named : (response.token == "") ≡ false = ground (arith, h) in
      let whole = respond_prompt lib policy meets thread response s in
      elim (Bool-cases response.snooze) [
        | inl snoozes ↦
            let ran : whole ≡ snooze_user_input policy response.id thread response.token s =
              ground (arith, h, snoozes) in
            let (prompt, asks, input, marked) =
              snooze-Asks policy response.id thread response.token s
                (ap (λ r. r.0) (sym ran) ∙ h) in
            (
              prompt,
              asks,
              named,
              snoozing snoozes input (subst (λ r. Snoozed asks.request s r.1) (sym ran) marked),
            )
        | inr awake ↦ elim (Outcome-cases (claim policy response.id thread response.token s).0) [
          | inr e ↦ absurd (ground (arith, h, awake, e))
          | inl ((request, prompt), e) ↦
              let (asks, mark) =
                claim-Asks policy response.id thread response.token s request prompt e in
              let finished =
                finish_offer lib policy meets request
                  (claim policy response.id thread response.token s).1 in
              elim (Bool-cases (answered lib policy meets response.answers)) [
                | inl answers ↦
                    elim (Outcome-cases (validate_answers lib prompt response.answers)) [
                      | inr f ↦ absurd (ground (arith, h, awake, e, answers, f))
                      | inl (u, f) ↦
                          let input : is_user_input prompt.kind ≡ true =
                            ground (arith, h, awake, e, answers, f) in
                          let ran : whole ≡ finished =
                            ground (arith, h, awake, e, answers, f, input) in
                          (
                            prompt,
                            asks,
                            named,
                            answering input f
                                (finish-Answered asks.request request whole mark ran h),
                          )
                    ]
                | inr decides ↦
                    let offered : offers_decision response.decision prompt.available_decisions
                        ≡ true =
                      ground (arith, h, awake, e, decides) in
                    let about : requires_thread_item prompt.kind ≡ true =
                      ground (arith, h, awake, e, decides) in
                    elim (Outcome-cases (has_authority prompt.kind meets.item_type)) [
                      | inr f ↦ absurd (ground (arith, h, awake, e, decides, offered, about, f))
                      | inl (u, f) ↦
                          let ran : whole ≡ finished =
                            ground (arith, h, awake, e, decides, offered, about, f) in
                          (
                            prompt,
                            asks,
                            named,
                            deciding about offered f
                                (finish-Answered asks.request request whole mark ran h),
                          )
                    ]
              ]
        ]
      ]
