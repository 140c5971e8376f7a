-- ===== src/Prompts/Once.antt =====
-- How often a response to one offer is handed to a connection's writer.
mod Answered
pub mod Claims
pub mod Runs
use codex_web.Common.{
  String, ℕ, zero, suc, ◌+◌, ◌≤◌, ◌<◌, ◌≡◌, ◌≢◌, refl, sym, ap, ◌∙◌, ◌⊎◌, inl, inr, Bool, true,
  false, not, ◌&&◌, Option, none, some, List, [], ◌∷◌, arith, ◌==◌, eq_iff, eq_refl, nat_eq,
  if◌then◌else◌, Bool-cases, Option-cases,
}
use codex_web.Errors.{Outcome, ok, err, panic, Outcome-cases}
use codex_web.GoMap.{GoMap, lookup, insert, delete, lookup-insert, lookup-delete}
use codex_web.Prompts.Types.{PendingRequest, NonBlockingUserInputPolicy}
use codex_web.Prompts.Normalize.{normalize_prompt, is_user_input}
use codex_web.Prompts.State.{PromptState, bump_pending, prune_pending_revision, request_thread_id}
use codex_web.Prompts.Offers.{
  with_request, is_current, admit_prompt, token_fits, claim, claim_auto_resolvable,
  snooze_user_input, same_offer, release_claim, drop_generation, detach_connection,
  mark_disconnected, connect, Writing, ended, no_writer, broke, transmitted, write_offer,
  finish_response, handle_resolved,
}
use codex_web.Prompts.Run

abbrev pub times : String → List String → ℕ
times t [] = 0
times t (x ∷ l) = (if x == t then 1 else 0) + times t l

-- Between the tokens drawn, those offered, and those answered.
pub record Fresh (draw : ℕ → String) (n : ℕ) (s : PromptState) : Type 0 where
  pub drawn :
      (id : String) (r : PendingRequest)
      → lookup id s.requests ≡ some r
      → (i : ℕ) × (i < n) × (r.token ≡ draw i)
  pub named : (id : String) (r : PendingRequest) → lookup id s.requests ≡ some r → r.id ≡ id
  pub distinct :
      (id id' : String) (r r' : PendingRequest)
      → lookup id s.requests ≡ some r
      → lookup id' s.requests ≡ some r'
      → r.token ≡ r'.token
      → id ≡ id'
  pub unanswered :
      (id : String) (r : PendingRequest)
      → lookup id s.requests ≡ some r
      → times r.token s.written ≡ 0
  pub later : (i : ℕ) → n ≤ i → times (draw i) s.written ≡ 0
  pub once : (t : String) → times t s.written ≤ 1

-- Every offer of `s'` was one of `s`, with the same token.
abbrev pub Thins : PromptState → PromptState → Type 0
Thins s s' =
    (id : String) (r' : PendingRequest)
    → lookup id s'.requests ≡ some r'
    → (r : PendingRequest) × (lookup id s.requests ≡ some r) × (r.token ≡ r'.token) × (r.id ≡ r'.id)

module _ (draw : ℕ → String) where
  pub Fresh-Thins :
      (n m : ℕ) (s s' : PromptState)
      → n ≤ m
      → Thins s s' × (s'.written ≡ s.written)
      → Fresh draw n s
      → Fresh draw m s'
  Fresh-Thins n m s s' up (thins, same) f = record {
    drawn = λ id r' h.
        let (r, found, token, _) = thins id r' h in
        let (i, below, at) = f.drawn id r found in (i, omega arith, sym token ∙ at);
    named = λ id r' h. let (r, found, _, name) = thins id r' h in sym name ∙ f.named id r found;
    distinct = λ id id' a b ha hb e.
        let (r, found, token, _) = thins id a ha in
        let (r', found', token', _) = thins id' b hb in
        f.distinct id id' r r' found found' (token ∙ (e ∙ sym token'));
    unanswered = λ id r' h.
        let (r, found, token, _) = thins id r' h in
        ap (λ t. times t s'.written) (sym token)
        ∙ (ap (times r.token) same ∙ f.unanswered id r found);
    later = λ i h. ap (times (draw i)) same ∙ f.later i (omega arith);
    once = λ t.
        let e : times t s'.written ≡ times t s.written = ap (times t) same in
        let o = f.once t in omega arith;
  }

-- The offers thin out, and nothing is answered.
abbrev pub Mild : PromptState → PromptState → Type 0
Mild s s' = Thins s s' × (s'.written ≡ s.written)

pub Mild-same : (s s' : PromptState) → s'.requests ≡ s.requests → s'.written ≡ s.written → Mild s s'
Mild-same s s' same silent = (λ id r h. (r, ap (lookup id) (sym same) ∙ h, refl, refl), silent)

pub Mild-replace :
    (s s' : PromptState) (old new : PendingRequest)
    → lookup new.id s.requests ≡ some old
    → old.token ≡ new.token
    → old.id ≡ new.id
    → s'.requests ≡ insert new.id new s.requests
    → s'.written ≡ s.written
    → Mild s s'
Mild-replace s s' old new found token name replaced silent = (go, silent)
  where
    go : Thins s s'
    go id r' h = elim (Bool-cases (new.id == id)) [
      | inl hit ↦
          let same_id : new.id ≡ id = ground (arith, hit, eq_iff new.id id) in
          let same : new ≡ r' =
            ground (arith, hit, lookup-insert new.id id new s.requests, ap (lookup id) replaced) in
          (
            old,
            ap (λ k. lookup k s.requests) (sym same_id) ∙ found,
            token ∙ ap (λ r. r.token) same,
            name ∙ ap (λ r. r.id) same,
          )
      | inr miss ↦ (
        r',
        ground (arith, miss, lookup-insert new.id id new s.requests, ap (lookup id) replaced),
        refl,
        refl,
      )
    ]

pub Mild-delete :
    (s s' : PromptState) (k : String)
    → s'.requests ≡ delete k s.requests
    → s'.written ≡ s.written
    → Mild s s'
Mild-delete s s' k deleted silent = (
  λ id r h. (r, ground (arith, lookup-delete k id s.requests, ap (lookup id) deleted), refl, refl),
  silent,
)

pub Mild-unchanged : (s s' : PromptState) → s' ≡ s → Mild s s'
Mild-unchanged s s' same = Mild-same s s' (ap (λ x. x.requests) same) (ap (λ x. x.written) same)

-- Requests are known by their own identity.
abbrev pub Named : PromptState → Type 0
Named s = (id : String) (r : PendingRequest) → lookup id s.requests ≡ some r → r.id ≡ id

pub Fresh-same :
    (draw : ℕ → String) (n : ℕ) (s s' : PromptState) → s' ≡ s → Fresh draw n s → Fresh draw n s'
Fresh-same draw n s s' same f = Fresh-Thins draw n n s s' (omega arith) (Mild-unchanged s s' same) f
