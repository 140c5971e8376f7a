-- ===== src/Prompts/Revised/Changes.antt =====
-- The changes of one offer, and the revisions that they make (codex/client.go).
use codex_web.Common.{
  String, ◌≡◌, ◌≢◌, refl, sym, ap, ◌∙◌, subst, inl, inr, true, false, not, ◌&&◌, Option, none, some,
  arith, ◌==◌, eq_iff, Bool-cases, Option-cases,
}
use codex_web.Errors.{ok, Outcome-cases}
use codex_web.GoMap.{GoMap, lookup, insert, delete, lookup-insert, lookup-delete}
use codex_web.Prompts.Json.{Members, field, string_at}
use codex_web.Prompts.Types.{PendingRequest, Prompt, NonBlockingUserInputPolicy}
use codex_web.Prompts.Normalize.{
  normalize_prompt, normalize_request, prompt_of_method, blank_prompt, with_times, is_user_input,
  request_policy_for, blocking_of, auto_resolution_of, normalize_questions,
}
use codex_web.Prompts.State.{PromptState, request_thread_id, bump_pending}
use codex_web.Prompts.Offers.{
  with_request, is_current, admit_prompt, token_fits, claim, claim_auto_resolvable,
  snooze_user_input, same_offer, release_claim,
}
use codex_web.Prompts.Revised.{
  Ordered, Live, of_thread, Signals, Signals-same, bump_pending-Signals,
}

prompt_of_method-thread :
    (r : PendingRequest) (params : Members) (p : Prompt)
    → prompt_of_method r params ≡ ok p
    → p.thread_id ≡ string_at "threadId" params
unfolding prompt_of_method blank_prompt
prompt_of_method-thread r params p h =
    elim (Bool-cases (r.method == "item/tool/requestUserInput")) [
      | inr unlike ↦ ground (arith, h, unlike)
      | inl asks ↦
          let blocking =
            blocking_of (request_policy_for r.method).blocking (field "isBlocking" params) in
          let milliseconds = auto_resolution_of (field "autoResolutionMs" params) in
          let questions = normalize_questions (field "questions" params) in
          elim (Outcome-cases blocking) [
            | inr e ↦ ground (arith, h, asks, e)
            | inl (x, e) ↦ elim (Outcome-cases milliseconds) [
              | inr f ↦ ground (arith, h, asks, e, f)
              | inl (y, f) ↦ elim (Outcome-cases questions) [
                | inr g ↦ ground (arith, h, asks, e, f, g)
                | inl (z, g) ↦ ground (arith, h, asks, e, f, g)
              ]
            ]
          ]
    ]

normalize_request-thread :
    (r : PendingRequest) (p : Prompt)
    → normalize_request r ≡ ok p
    → request_thread_id r ≡ p.thread_id
unfolding normalize_request request_thread_id
normalize_request-thread r p h = elim (Option-cases r.params) [
  | inl e ↦ absurd (ground (arith, e, h))
  | inr (params, e) ↦ elim (Outcome-cases (prompt_of_method r params)) [
    | inr f ↦ absurd (ground (arith, e, f, h))
    | inl (x, f) ↦
        let thread = prompt_of_method-thread r params x f in
        let same : x ≡ p = ground (arith, e, f, h) in
        ground (arith, e, thread, ap (λ y. y.thread_id) same)
  ]
]

-- A prompt is of the thread of its request.
normalize_prompt-thread :
    (policy : Option NonBlockingUserInputPolicy) (r : PendingRequest) (p : Prompt)
    → normalize_prompt policy r ≡ ok p
    → request_thread_id r ≡ p.thread_id
unfolding normalize_prompt with_times
normalize_prompt-thread none r p h = normalize_request-thread r p h
normalize_prompt-thread (some policy) r p h = elim (Outcome-cases (normalize_request r)) [
  | inr e ↦ absurd (ground (arith, e, h))
  | inl (x, e) ↦ normalize_request-thread r x e ∙ ground (arith, e, h)
]

of_thread-other :
    (t : String) (r : PendingRequest) → request_thread_id r ≢ t → of_thread t (some r) ≡ none
of_thread-other t r other = ground (arith, other, eq_iff (request_thread_id r) t)

-- An offer is replaced by one of the same thread.
insert-others :
    (t k : String) (old new : PendingRequest) (m : GoMap PendingRequest)
    → lookup k m ≡ some old
    → request_thread_id new ≡ request_thread_id old
    → request_thread_id old ≢ t
    → (id : String) → of_thread t (lookup id (insert k new m)) ≡ of_thread t (lookup id m)
insert-others t k old new m found same other id = elim (Bool-cases (k == id)) [
  | inl hit ↦
      let own : k ≡ id = ground (arith, hit, eq_iff k id) in
      let now : lookup id (insert k new m) ≡ some new =
        ground (arith, hit, lookup-insert k id new m) in
      let was : lookup id m ≡ some old = ap (λ x. lookup x m) (sym own) ∙ found in
      ap (of_thread t) now
      ∙ (of_thread-other t new (λ e. other (sym same ∙ e))
          ∙ sym (ap (of_thread t) was ∙ of_thread-other t old other))
  | inr miss ↦ ap (of_thread t) (ground (arith, miss, lookup-insert k id new m))
]

admit-others :
    (t k : String) (new : PendingRequest) (m : GoMap PendingRequest)
    → lookup k m ≡ none
    → request_thread_id new ≢ t
    → (id : String) → of_thread t (lookup id (insert k new m)) ≡ of_thread t (lookup id m)
admit-others t k new m absent other id = elim (Bool-cases (k == id)) [
  | inl hit ↦
      let own : k ≡ id = ground (arith, hit, eq_iff k id) in
      let now : lookup id (insert k new m) ≡ some new =
        ground (arith, hit, lookup-insert k id new m) in
      let was : lookup id m ≡ none = ap (λ x. lookup x m) (sym own) ∙ absent in
      ap (of_thread t) now ∙ (of_thread-other t new other ∙ sym (ap (of_thread t) was))
  | inr miss ↦ ap (of_thread t) (ground (arith, miss, lookup-insert k id new m))
]

pub delete-others :
    (t k : String) (old : PendingRequest) (m : GoMap PendingRequest)
    → lookup k m ≡ some old
    → request_thread_id old ≢ t
    → (id : String) → of_thread t (lookup id (delete k m)) ≡ of_thread t (lookup id m)
delete-others t k old m found other id = elim (Bool-cases (k == id)) [
  | inl hit ↦
      let own : k ≡ id = ground (arith, hit, eq_iff k id) in
      let now : lookup id (delete k m) ≡ none = ground (arith, hit, lookup-delete k id m) in
      let was : lookup id m ≡ some old = ap (λ x. lookup x m) (sym own) ∙ found in
      ap (of_thread t) now ∙ sym (ap (of_thread t) was ∙ of_thread-other t old other)
  | inr miss ↦ ap (of_thread t) (ground (arith, miss, lookup-delete k id m))
]

module _ (t : String) (real : t ≢ "") (s : PromptState) (o : Ordered s) (live : Live s) where
  -- One offer is changed in its flags, and its thread's revision is made.
  flagged-Signals :
      (id thread : String) (old new : PendingRequest)
      → lookup id s.requests ≡ some old
      → new.id ≡ old.id
      → request_thread_id new ≡ request_thread_id old
      → request_thread_id old ≡ thread
      → Signals t s (bump_pending thread (with_request new s))
  flagged-Signals id thread old new found name same own =
      let key : new.id ≡ id = name ∙ live.named id old found in
      let at : lookup new.id s.requests ≡ some old = ap (λ k. lookup k s.requests) key ∙ found in
      bump_pending-Signals t thread s (with_request new s) real o refl refl refl
        (λ apart. insert-others t new.id old new s.requests at same (λ e. apart (sym own ∙ e)))
        (λ _. refl)

  pub admit_prompt-Signals :
      (token : String) (request : PendingRequest) → Signals t s (admit_prompt token request s).1
  unfolding admit_prompt is_current request_thread_id
  admit_prompt-Signals token request = elim (Bool-cases (is_current s request)) [
    | inr stale ↦ Signals-same t s (admit_prompt token request s).1 (ground (arith, stale))
    | inl now ↦ elim (Option-cases (lookup request.id s.requests)) [
      | inr (r, e) ↦
          let generation = live.current request.id r e in
          Signals-same t s (admit_prompt token request s).1 (ground (arith, now, e, generation))
      | inl e ↦
          let new = record request { token = token } in
          let signals =
            bump_pending-Signals t (request_thread_id request) s (with_request new s) real o refl
              refl refl (λ apart. admit-others t request.id new s.requests e apart) (λ _. refl) in
          let same : (admit_prompt token request s).1
              ≡ bump_pending (request_thread_id request) (with_request new s) =
            ground (arith, now, e) in
          subst (Signals t s) (sym same) signals
    ]
  ]

  module _ (policy : Option NonBlockingUserInputPolicy) (id thread token : String) where
    pub claim-Signals : Signals t s (claim policy id thread token s).1
    unfolding claim request_thread_id
    claim-Signals = elim (Option-cases (lookup id s.requests)) [
      | inl e ↦ Signals-same t s (claim policy id thread token s).1 (ground (arith, e))
      | inr (r, e) ↦ elim (Outcome-cases (normalize_prompt policy r)) [
        | inr h ↦ Signals-same t s (claim policy id thread token s).1 (ground (arith, e, h))
        | inl (prompt, h) ↦
            elim (Bool-cases (
              not r.claimed
              && is_current s r
              && token_fits token r
              && (prompt.thread_id == thread))) [
                | inr refused ↦
                    Signals-same t s (claim policy id thread token s).1
                      (ground (arith, e, h, refused))
                | inl taken ↦
                    let own : request_thread_id r ≡ thread =
                      normalize_prompt-thread policy r prompt h
                      ∙ ground (arith, taken, eq_iff prompt.thread_id thread) in
                    let same : (claim policy id thread token s).1
                        ≡ bump_pending thread (with_request (record r { claimed = true }) s) =
                      ground (arith, e, h, taken) in
                    subst (Signals t s) (sym same)
                      (flagged-Signals id thread r (record r { claimed = true }) e refl refl own)
              ]
      ]
    ]

    pub claim_auto_resolvable-Signals :
        Signals t s (claim_auto_resolvable policy id thread token s).1
    unfolding claim_auto_resolvable request_thread_id
    claim_auto_resolvable-Signals = elim (Option-cases (lookup id s.requests)) [
      | inl e ↦
          Signals-same t s (claim_auto_resolvable policy id thread token s).1 (ground (arith, e))
      | inr (r, e) ↦ elim (Outcome-cases (normalize_prompt policy r)) [
        | inr h ↦
            Signals-same t s (claim_auto_resolvable policy id thread token s).1
              (ground (arith, e, h))
        | inl (prompt, h) ↦
            elim (Bool-cases (
              not r.claimed
              && not r.snoozed
              && (r.token == token)
              && is_current s r
              && is_user_input prompt.kind
              && (prompt.thread_id == thread)
              && not prompt.is_blocking)) [
                | inr refused ↦
                    Signals-same t s (claim_auto_resolvable policy id thread token s).1
                      (ground (arith, e, h, refused))
                | inl taken ↦
                    let own : request_thread_id r ≡ thread =
                      normalize_prompt-thread policy r prompt h
                      ∙ ground (arith, taken, eq_iff prompt.thread_id thread) in
                    let same : (claim_auto_resolvable policy id thread token s).1
                        ≡ bump_pending thread (with_request (record r { claimed = true }) s) =
                      ground (arith, e, h, taken) in
                    subst (Signals t s) (sym same)
                      (flagged-Signals id thread r (record r { claimed = true }) e refl refl own)
              ]
      ]
    ]

    pub snooze_user_input-Signals : Signals t s (snooze_user_input policy id thread token s).1
    unfolding snooze_user_input request_thread_id
    snooze_user_input-Signals = elim (Option-cases (lookup id s.requests)) [
      | inl e ↦ Signals-same t s (snooze_user_input policy id thread token s).1 (ground (arith, e))
      | inr (r, e) ↦ elim (Outcome-cases (normalize_prompt policy r)) [
        | inr h ↦
            Signals-same t s (snooze_user_input policy id thread token s).1 (ground (arith, e, h))
        | inl (prompt, h) ↦
            elim (Bool-cases (
              not r.claimed
              && is_current s r
              && token_fits token r
              && (prompt.thread_id == thread)
              && is_user_input prompt.kind
              && not r.snoozed)) [
                | inr refused ↦
                    Signals-same t s (snooze_user_input policy id thread token s).1
                      (ground (arith, e, h, refused))
                | inl taken ↦
                    let own : request_thread_id r ≡ thread =
                      normalize_prompt-thread policy r prompt h
                      ∙ ground (arith, taken, eq_iff prompt.thread_id thread) in
                    let same : (snooze_user_input policy id thread token s).1
                        ≡ bump_pending thread (with_request (record r { snoozed = true }) s) =
                      ground (arith, e, h, taken) in
                    subst (Signals t s) (sym same)
                      (flagged-Signals id thread r (record r { snoozed = true }) e refl refl own)
              ]
      ]
    ]

  -- The claim of a request that is given is released for its own thread.
  pub release_claim-Signals :
      (request : PendingRequest)
      → ((r : PendingRequest)
          → lookup request.id s.requests ≡ some r
          → same_offer r request ≡ true
          → request_thread_id r ≡ request_thread_id request)
      → Signals t s (release_claim request s)
  unfolding release_claim request_thread_id
  release_claim-Signals request faithful = elim (Option-cases (lookup request.id s.requests)) [
    | inl e ↦ Signals-same t s (release_claim request s) (ground (arith, e))
    | inr (r, e) ↦ elim (Bool-cases (same_offer r request)) [
      | inr other ↦ Signals-same t s (release_claim request s) (ground (arith, e, other))
      | inl ours ↦
          let same : release_claim request s
              ≡ bump_pending (request_thread_id request)
                  (with_request (record r { claimed = false }) s) =
            ground (arith, e, ours, live.named request.id r e) in
          subst (Signals t s) (sym same) (
            flagged-Signals request.id (request_thread_id request) r (record r { claimed = false })
              e refl refl (faithful r e ours))
    ]
  ]
