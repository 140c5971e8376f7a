-- ===== src/Prompts/Present.antt =====
-- Whose offers the client has (codex/client.go).
pub mod Runs
use codex_web.Common.{
  String, ℕ, ◌+◌, ◌-◌, ◌≡◌, ◌≢◌, refl, sym, ap, ◌∙◌, subst, inl, inr, Bool, true, false, not, ◌&&◌,
  Option, none, some, List, [], ◌∷◌, arith, ◌==◌, eq_iff, nat_eq, if◌then◌else◌, Bool-cases,
  Option-cases,
}
use codex_web.Errors.{Outcome, ok, err, panic, Outcome-cases}
use codex_web.GoMap.{GoMap, lookup, insert, delete, lookup-insert, lookup-delete}
use codex_web.Prompts.Types.{PendingRequest, NonBlockingUserInputPolicy}
use codex_web.Prompts.Normalize.{normalize_prompt, is_user_input}
use codex_web.Prompts.State.{PromptState, request_thread_id, bump_pending, prune_pending_revision}
use codex_web.Prompts.Offers.{
  with_request, is_current, admit_prompt, token_fits, claim, claim_auto_resolvable,
  snooze_user_input, same_offer, release_claim, drop_generation, detach_connection,
  mark_disconnected, connect, Writing, ended, no_writer, broke, transmitted, write_offer,
  finish_response, handle_resolved,
}
use codex_web.Prompts.Once.Claims.{lookup-drop_generation, drop_generation-gone}

-- Every offer was made by the connection that the client has.
abbrev pub Present : PromptState → Type 0
Present s =
    (id : String) (r : PendingRequest) → lookup id s.requests ≡ some r → is_current s r ≡ true

-- The connection is the same, and each offer is one of before, or is its copy with other flags.
pub record Kin (s s' : PromptState) : Type 0 where
  pub connection : s'.connection ≡ s.connection
  pub generation : s'.generation ≡ s.generation
  pub offers :
      (id : String) (r' : PendingRequest)
      → lookup id s'.requests ≡ some r'
      → (k : String) × (r : PendingRequest) × (lookup k s.requests ≡ some r)
        × (r'.generation ≡ r.generation)
        × (r'.connection ≡ r.connection)

pub Present-Kin : (s s' : PromptState) → Kin s s' → Present s → Present s'
unfolding is_current
Present-Kin s s' kin p id r' h =
    let (k, r, found, generation, connection) = kin.offers id r' h in
    let now = p k r found in
    let same = kin.connection in
    let same' = kin.generation in ground (arith, now, generation, connection, same, same')

pub Kin-same :
    (s s' : PromptState)
    → s'.connection ≡ s.connection
    → s'.generation ≡ s.generation
    → s'.requests ≡ s.requests
    → Kin s s'
Kin-same s s' connection generation requests = record {
  connection = connection;
  generation = generation;
  offers = λ id r h. (id, r, ap (lookup id) (sym requests) ∙ h, refl, refl);
}

pub Kin-replace :
    (s s' : PromptState) (k k' : String) (old new : PendingRequest)
    → s'.connection ≡ s.connection
    → s'.generation ≡ s.generation
    → s'.requests ≡ insert k' new s.requests
    → lookup k s.requests ≡ some old
    → new.generation ≡ old.generation
    → new.connection ≡ old.connection
    → Kin s s'
Kin-replace s s' k k' old new connection generation requests found same same' = record {
  connection = connection;
  generation = generation;
  offers = λ id r h. elim (Bool-cases (k' == id)) [
    | inl hit ↦
        let own : new ≡ r =
          ground (arith, h, hit, lookup-insert k' id new s.requests, ap (lookup id) requests) in
        (
          k,
          old,
          found,
          ap (λ x. x.generation) (sym own) ∙ same,
          ap (λ x. x.connection) (sym own) ∙ same',
        )
    | inr miss ↦ (
      id,
      r,
      ground (arith, h, miss, lookup-insert k' id new s.requests, ap (lookup id) requests),
      refl,
      refl,
    )
  ];
}

pub Kin-delete :
    (s s' : PromptState) (k : String)
    → s'.connection ≡ s.connection
    → s'.generation ≡ s.generation
    → s'.requests ≡ delete k s.requests
    → Kin s s'
Kin-delete s s' k connection generation requests = record {
  connection = connection;
  generation = generation;
  offers = λ id r h. (
    id,
    r,
    ground (arith, h, lookup-delete k id s.requests, ap (lookup id) requests),
    refl,
    refl,
  );
}

pub Kin-unchanged : (s s' : PromptState) → s' ≡ s → Kin s s'
Kin-unchanged s s' same =
    Kin-same s s' (ap (λ x. x.connection) same) (ap (λ x. x.generation) same)
      (ap (λ x. x.requests) same)

pub Kin-then : (a b c : PromptState) → Kin a b → Kin b c → Kin a c
Kin-then a b c x y = record {
  connection = y.connection ∙ x.connection;
  generation = y.generation ∙ x.generation;
  offers = λ id r'' h.
      let (k, r', found, g, n) = y.offers id r'' h in
      let (k', r, found', g', n') = x.offers k r' found in (k', r, found', g ∙ g', n ∙ n');
}

pub bump_pending-Kin : (t : String) (s : PromptState) → Kin s (bump_pending t s)
unfolding bump_pending
bump_pending-Kin t s = Kin-same s (bump_pending t s) (ground arith) (ground arith) (ground arith)

pub prune-Kin : (t : String) (s : PromptState) → Kin s (prune_pending_revision t s)
unfolding prune_pending_revision
prune-Kin t s = Kin-same s (prune_pending_revision t s) (ground arith) (ground arith) (ground arith)

-- A flag of one offer is changed.
flagged-Kin :
    (s s' : PromptState) (k thread : String) (old new : PendingRequest)
    → lookup k s.requests ≡ some old
    → new.generation ≡ old.generation
    → new.connection ≡ old.connection
    → s' ≡ bump_pending thread (with_request new s)
    → Kin s s'
flagged-Kin s s' k thread old new found same same' changed = subst (Kin s) (sym changed) (
    Kin-then s (with_request new s) (bump_pending thread (with_request new s))
      (Kin-replace s (with_request new s) k new.id old new refl refl refl found same same')
      (bump_pending-Kin thread (with_request new s)))

module _ (policy : Option NonBlockingUserInputPolicy) (id thread token : String)
    (s : PromptState) where
  pub claim-Kin : Kin s (claim policy id thread token s).1
  unfolding claim
  claim-Kin = elim (Option-cases (lookup id s.requests)) [
    | inl e ↦ Kin-unchanged s (claim policy id thread token s).1 (ground (arith, e))
    | inr (r, e) ↦ elim (Outcome-cases (normalize_prompt policy r)) [
      | inr h ↦ Kin-unchanged s (claim policy id thread token s).1 (ground (arith, e, h))
      | inl (prompt, h) ↦
          elim (Bool-cases (
            not r.claimed
            && is_current s r
            && token_fits token r
            && (prompt.thread_id == thread))) [
              | inr refused ↦
                  Kin-unchanged s (claim policy id thread token s).1 (ground (arith, e, h, refused))
              | inl taken ↦
                  flagged-Kin s (claim policy id thread token s).1 id thread r
                    (record r { claimed = true }) e refl refl (ground (arith, e, h, taken))
            ]
    ]
  ]

  pub claim_auto_resolvable-Kin : Kin s (claim_auto_resolvable policy id thread token s).1
  unfolding claim_auto_resolvable
  claim_auto_resolvable-Kin = elim (Option-cases (lookup id s.requests)) [
    | inl e ↦ Kin-unchanged s (claim_auto_resolvable policy id thread token s).1 (ground (arith, e))
    | inr (r, e) ↦ elim (Outcome-cases (normalize_prompt policy r)) [
      | inr h ↦
          Kin-unchanged s (claim_auto_resolvable policy id thread token s).1 (ground (arith, e, h))
      | inl (prompt, h) ↦
          elim (Bool-cases (
            not r.claimed
            && not r.snoozed
            && (r.token == token)
            && is_current s r
            && is_user_input prompt.kind
            && (prompt.thread_id == thread)
            && not prompt.is_blocking)) [
              | inr refused ↦
                  Kin-unchanged s (claim_auto_resolvable policy id thread token s).1
                    (ground (arith, e, h, refused))
              | inl taken ↦
                  flagged-Kin s (claim_auto_resolvable policy id thread token s).1 id thread r
                    (record r { claimed = true }) e refl refl (ground (arith, e, h, taken))
            ]
    ]
  ]

  pub snooze_user_input-Kin : Kin s (snooze_user_input policy id thread token s).1
  unfolding snooze_user_input
  snooze_user_input-Kin = elim (Option-cases (lookup id s.requests)) [
    | inl e ↦ Kin-unchanged s (snooze_user_input policy id thread token s).1 (ground (arith, e))
    | inr (r, e) ↦ elim (Outcome-cases (normalize_prompt policy r)) [
      | inr h ↦
          Kin-unchanged s (snooze_user_input policy id thread token s).1 (ground (arith, e, h))
      | inl (prompt, h) ↦
          elim (Bool-cases (
            not r.claimed
            && is_current s r
            && token_fits token r
            && (prompt.thread_id == thread)
            && is_user_input prompt.kind
            && not r.snoozed)) [
              | inr refused ↦
                  Kin-unchanged s (snooze_user_input policy id thread token s).1
                    (ground (arith, e, h, refused))
              | inl taken ↦
                  flagged-Kin s (snooze_user_input policy id thread token s).1 id thread r
                    (record r { snoozed = true }) e refl refl (ground (arith, e, h, taken))
            ]
    ]
  ]

pub release_claim-Kin :
    (request : PendingRequest) (s : PromptState) → Kin s (release_claim request s)
unfolding release_claim
release_claim-Kin request s = elim (Option-cases (lookup request.id s.requests)) [
  | inl e ↦ Kin-unchanged s (release_claim request s) (ground (arith, e))
  | inr (r, e) ↦ elim (Bool-cases (same_offer r request)) [
    | inr other ↦ Kin-unchanged s (release_claim request s) (ground (arith, e, other))
    | inl ours ↦
        let new = record r { claimed = false } in
        let x = record s { requests = insert request.id new s.requests } in
        let same : release_claim request s ≡ bump_pending (request_thread_id request) x =
          ground (arith, e, ours) in
        subst (Kin s) (sym same) (
          Kin-then s x (bump_pending (request_thread_id request) x)
            (Kin-replace s x request.id request.id r new refl refl refl e refl refl)
            (bump_pending-Kin (request_thread_id request) x))
  ]
]
