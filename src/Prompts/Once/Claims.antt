-- ===== src/Prompts/Once/Claims.antt =====
-- The changes of the offers that answer none of them, and what they leave of the offers.
use codex_web.Common.{
  String, ℕ, ◌≡◌, ◌≢◌, refl, sym, ap, ◌∙◌, inl, inr, true, false, not, ◌&&◌, Option, none, some, [],
  ◌∷◌, arith, ◌==◌, eq_iff, nat_eq, if◌then◌else◌, Bool-cases, Option-cases,
}
use codex_web.Errors.{Outcome-cases}
use codex_web.GoMap.{GoMap, lookup, delete, lookup-delete}
use codex_web.Prompts.Types.{PendingRequest, NonBlockingUserInputPolicy}
use codex_web.Prompts.Normalize.{normalize_prompt, is_user_input}
use codex_web.Prompts.State.{PromptState, bump_pending, prune_pending_revision, request_thread_id}
use codex_web.Prompts.Offers.{
  with_request, is_current, token_fits, claim, claim_auto_resolvable, snooze_user_input, same_offer,
  release_claim, drop_generation, detach_connection, mark_disconnected, handle_resolved,
}
use codex_web.Prompts.Once.{Mild, Mild-same, Mild-replace, Mild-delete, Mild-unchanged, Named}

pub lookup-drop_generation :
    (g : ℕ) (entries m : GoMap PendingRequest) (id : String) (r : PendingRequest)
    → lookup id (drop_generation g entries m) ≡ some r
    → lookup id m ≡ some r
unfolding drop_generation
lookup-drop_generation g [] m id r h = h
lookup-drop_generation g ((j, x) ∷ entries) m id r h =
    let later =
      lookup-drop_generation g entries (if nat_eq x.generation g then delete j m else m) id r h in
    ground (arith, later, lookup-delete j id m)

pub drop_generation-gone :
    (g : ℕ) (entries m : GoMap PendingRequest) (id : String) (x r : PendingRequest)
    → lookup id entries ≡ some x
    → x.generation ≡ g
    → lookup id (drop_generation g entries m) ≢ some r
unfolding drop_generation lookup
drop_generation-gone g [] m id x r found own h = absurd (ground (arith, found))
drop_generation-gone g ((j, y) ∷ entries) m id x r found own h = elim (Bool-cases (j == id)) [
  | inr other ↦
      drop_generation-gone g entries (if nat_eq y.generation g then delete j m else m) id x r
        (ground (arith, other, found)) own h
  | inl hit ↦
      let later =
        lookup-drop_generation g entries (if nat_eq y.generation g then delete j m else m) id r h in
      let same : y ≡ x = ground (arith, hit, found) in
      let gen : y.generation ≡ g = ap (λ r. r.generation) same ∙ own in
      ground (arith, later, gen, hit, lookup-delete j id m, eq_iff j id)
]

pub bump_requests :
    (t : String) (s : PromptState)
    → ((bump_pending t s).requests ≡ s.requests) × ((bump_pending t s).written ≡ s.written)
unfolding bump_pending
bump_requests t s = (ground arith, ground arith)

pub prune_requests :
    (t : String) (s : PromptState)
    → ((prune_pending_revision t s).requests ≡ s.requests)
      × ((prune_pending_revision t s).written ≡ s.written)
unfolding prune_pending_revision
prune_requests t s = (ground arith, ground arith)

-- One offer is changed in its flags, and a revision is made.
pub Mild-flagged :
    (s s' : PromptState) (old new : PendingRequest) (id thread : String)
    → Named s
    → lookup id s.requests ≡ some old
    → new.token ≡ old.token
    → new.id ≡ old.id
    → s' ≡ bump_pending thread (with_request new s)
    → Mild s s'
Mild-flagged s s' old new id thread named found token name changed =
    let (requests, silent) = bump_requests thread (with_request new s) in
    let own : new.id ≡ id = name ∙ named id old found in
    Mild-replace s s' old new (ap (λ k. lookup k s.requests) own ∙ found) (sym token) (sym name)
      (ap (λ x. x.requests) changed ∙ requests) (ap (λ x. x.written) changed ∙ silent)

module _ (policy : Option NonBlockingUserInputPolicy) (id thread token : String) (s : PromptState)
    (named : Named s) where
  pub claim-Mild : Mild s (claim policy id thread token s).1
  unfolding claim
  claim-Mild = elim (Option-cases (lookup id s.requests)) [
    | inl e ↦ Mild-unchanged s (claim policy id thread token s).1 (ground (arith, e))
    | inr (r, e) ↦ elim (Outcome-cases (normalize_prompt policy r)) [
      | inr h ↦ Mild-unchanged s (claim policy id thread token s).1 (ground (arith, e, h))
      | inl (prompt, h) ↦
          elim (Bool-cases (
            not r.claimed
            && is_current s r
            && token_fits token r
            && (prompt.thread_id == thread))) [
              | inr refused ↦
                  Mild-unchanged s (claim policy id thread token s).1
                    (ground (arith, e, h, refused))
              | inl taken ↦
                  Mild-flagged s (claim policy id thread token s).1 r (record r { claimed = true })
                    id thread named e refl refl (ground (arith, e, h, taken))
            ]
    ]
  ]

  pub claim_auto_resolvable-Mild : Mild s (claim_auto_resolvable policy id thread token s).1
  unfolding claim_auto_resolvable
  claim_auto_resolvable-Mild = elim (Option-cases (lookup id s.requests)) [
    | inl e ↦
        Mild-unchanged s (claim_auto_resolvable policy id thread token s).1 (ground (arith, e))
    | inr (r, e) ↦ elim (Outcome-cases (normalize_prompt policy r)) [
      | inr h ↦
          Mild-unchanged s (claim_auto_resolvable policy id thread token s).1 (ground (arith, e, h))
      | inl (prompt, h) ↦
          elim (Bool-cases (
            not r.claimed
            && not r.snoozed
            && (r.token == token)
            && is_current s r
            && is_user_input prompt.kind
            && (prompt.thread_id == thread)
            && not prompt.is_blocking)) [
              | inr refused ↦
                  Mild-unchanged s (claim_auto_resolvable policy id thread token s).1
                    (ground (arith, e, h, refused))
              | inl taken ↦
                  Mild-flagged s (claim_auto_resolvable policy id thread token s).1 r
                    (record r { claimed = true }) id thread named e refl refl
                    (ground (arith, e, h, taken))
            ]
    ]
  ]

  pub snooze_user_input-Mild : Mild s (snooze_user_input policy id thread token s).1
  unfolding snooze_user_input
  snooze_user_input-Mild = elim (Option-cases (lookup id s.requests)) [
    | inl e ↦ Mild-unchanged s (snooze_user_input policy id thread token s).1 (ground (arith, e))
    | inr (r, e) ↦ elim (Outcome-cases (normalize_prompt policy r)) [
      | inr h ↦
          Mild-unchanged s (snooze_user_input policy id thread token s).1 (ground (arith, e, h))
      | inl (prompt, h) ↦
          elim (Bool-cases (
            not r.claimed
            && is_current s r
            && token_fits token r
            && (prompt.thread_id == thread)
            && is_user_input prompt.kind
            && not r.snoozed)) [
              | inr refused ↦
                  Mild-unchanged s (snooze_user_input policy id thread token s).1
                    (ground (arith, e, h, refused))
              | inl taken ↦
                  Mild-flagged s (snooze_user_input policy id thread token s).1 r
                    (record r { snoozed = true }) id thread named e refl refl
                    (ground (arith, e, h, taken))
            ]
    ]
  ]

pub release_claim-Mild :
    (request : PendingRequest) (s : PromptState) → Named s → Mild s (release_claim request s)
unfolding release_claim
release_claim-Mild request s named = elim (Option-cases (lookup request.id s.requests)) [
  | inl e ↦ Mild-unchanged s (release_claim request s) (ground (arith, e))
  | inr (r, e) ↦ elim (Bool-cases (same_offer r request)) [
    | inr other ↦ Mild-unchanged s (release_claim request s) (ground (arith, e, other))
    | inl same ↦
        Mild-flagged s (release_claim request s) r (record r { claimed = false }) request.id
          (request_thread_id request) named e refl refl
          (ground (arith, e, same, named request.id r e))
  ]
]

pub mark_disconnected-Mild :
    (connection generation : ℕ) (s : PromptState)
    → Mild s (mark_disconnected connection generation s)
unfolding mark_disconnected detach_connection
mark_disconnected-Mild connection generation s = (
  λ id r h.
      elim (Bool-cases (elim s.connection [
        | none ↦ false
        | some x ↦ nat_eq x connection && nat_eq s.generation generation
      ])) [
        | inl gone ↦ (
          r,
          lookup-drop_generation generation s.requests s.requests id r (ground (arith, gone, h)),
          refl,
          refl,
        )
        | inr kept ↦ (r, ground (arith, kept, h), refl, refl)
      ],
  ground arith,
)

pub handle_resolved-Mild :
    (id : String) (generation : ℕ) (s : PromptState) → Mild s (handle_resolved id generation s)
unfolding handle_resolved prune_pending_revision bump_pending
handle_resolved-Mild id generation s = elim (Option-cases (lookup id s.requests)) [
  | inl e ↦ Mild-same s (handle_resolved id generation s) (ground (arith, e)) (ground (arith, e))
  | inr (r, e) ↦ elim (Bool-cases (nat_eq r.generation generation)) [
    | inl own ↦
        Mild-delete s (handle_resolved id generation s) id (ground (arith, e, own))
          (ground (arith, e, own))
    | inr other ↦
        Mild-same s (handle_resolved id generation s) (ground (arith, e, other))
          (ground (arith, e, other))
  ]
]
