-- ===== src/Prompts/Revised.antt =====
-- The revision of a thread (`PendingRevision` of codex/client.go) and the changes of what the thread shows: its
-- offers and its notices.
pub mod Changes
pub mod Steps
pub mod Raised
use codex_web.Common.{
  String, ℕ, suc, ◌+◌, ◌≤◌, ◌<◌, ◌≡◌, ◌≢◌, refl, sym, ap, ◌∙◌, subst, ◌⊎◌, inl, inr, Bool, true,
  false, not, ◌&&◌, ◌||◌, Option, none, some, List, [], ◌∷◌, max, length, arith, ◌==◌, eq_iff,
  eq_refl, nat_eq, if◌then◌else◌, Bool-cases, Option-cases,
}
use codex_web.GoMap.{GoMap, lookup, insert, delete, lookup-insert, lookup-delete}
use codex_web.Prompts.Types.{PendingRequest}
use codex_web.Prompts.State.{
  PromptState, request_thread_id, count_at, notices_of, pending_revision, bump_pending,
  any_of_thread, retains_revision, prune_pending_revision,
}

-- No revision is ahead of the sequence.
pub record Ordered (s : PromptState) : Type 0 where
  pub reset : s.pending_reset ≤ s.pending_sequence
  pub each : (t : String) → count_at t s.pending_revisions ≤ s.pending_sequence

-- Offers are of the connection that there is, and known by their identity.
pub record Live (s : PromptState) : Type 0 where
  pub named : (id : String) (r : PendingRequest) → lookup id s.requests ≡ some r → r.id ≡ id
  pub current :
      (id : String) (r : PendingRequest)
      → lookup id s.requests ≡ some r
      → r.generation ≡ s.generation

abbrev pub of_thread : String → Option PendingRequest → Option PendingRequest
of_thread t none = none
of_thread t (some r) = if request_thread_id r == t then some r else none

-- What the thread shows is the same, and its revision is not lower.
pub record Quiet (t : String) (s s' : PromptState) : Type 0 where
  pub kept : pending_revision t s ≤ pending_revision t s'
  pub offers :
      (id : String) → of_thread t (lookup id s'.requests) ≡ of_thread t (lookup id s.requests)
  pub notices : notices_of t s'.notices ≡ notices_of t s.notices

-- A change of what the thread shows raises its revision.
abbrev pub Signals : String → PromptState → PromptState → Type 0
Signals t s s' = Quiet t s s' ⊎ (pending_revision t s < pending_revision t s')

pub Signals-then :
    (t : String) (a b c : PromptState) → Signals t a b → Signals t b c → Signals t a c
Signals-then t a b c (inl p) (inl q) =
    let x = p.kept in
    let y = q.kept in
    inl (record {
      kept = omega (arith, x, y);
      offers = λ id. q.offers id ∙ p.offers id;
      notices = q.notices ∙ p.notices;
    })
Signals-then t a b c (inl p) (inr y) = let x = p.kept in inr (omega (arith, x, y))
Signals-then t a b c (inr x) (inl q) = let y = q.kept in inr (omega (arith, x, y))
Signals-then t a b c (inr x) (inr y) = inr (omega (arith, x, y))

pub Signals-same : (t : String) (s s' : PromptState) → s' ≡ s → Signals t s s'
Signals-same t s s' same =
    let e = ap (pending_revision t) same in
    inl (record {
      kept = omega (arith, e);
      offers = λ id. ap (λ x. of_thread t (lookup id x.requests)) same;
      notices = ap (λ x. notices_of t x.notices) same;
    })

-- The revision of another state with the same revisions.
pub revision-same :
    (t : String) (s s' : PromptState)
    → s'.pending_reset ≡ s.pending_reset
    → s'.pending_revisions ≡ s.pending_revisions
    → pending_revision t s' ≡ pending_revision t s
unfolding pending_revision
revision-same t s s' resets revisions =
    ap (λ x. max x (count_at t s'.pending_revisions)) resets
    ∙ ap (λ x. max s.pending_reset (count_at t x)) revisions

bump_pending-own :
    (t : String) (s : PromptState)
    → t ≢ ""
    → s.pending_sequence < pending_revision t (bump_pending t s)
unfolding bump_pending pending_revision
bump_pending-own t s real =
    let named : (t == "") ≡ false = ground (arith, real, eq_iff t "") in
    let made : (bump_pending t s).pending_revisions
        ≡ insert t (1 + s.pending_sequence) s.pending_revisions =
      ground (arith, named) in
    let at : count_at t (bump_pending t s).pending_revisions ≡ 1 + s.pending_sequence =
      ap (count_at t) made
      ∙ ground (arith, lookup-insert t t (1 + s.pending_sequence) s.pending_revisions, eq_refl t) in
    omega (arith, at)

bump_pending-other :
    (t u : String) (s : PromptState)
    → (u == t) ≡ false
    → pending_revision t (bump_pending u s) ≡ pending_revision t s
unfolding bump_pending pending_revision
bump_pending-other t u s other = elim (Bool-cases (u == "")) [
  | inl unnamed ↦ ground (arith, unnamed)
  | inr named ↦
      let made : (bump_pending u s).pending_revisions
          ≡ insert u (1 + s.pending_sequence) s.pending_revisions =
        ground (arith, named) in
      let at : count_at t (bump_pending u s).pending_revisions ≡ count_at t s.pending_revisions =
        ap (count_at t) made
        ∙ ground (arith, lookup-insert u t (1 + s.pending_sequence) s.pending_revisions, other) in
      let reset : (bump_pending u s).pending_reset ≡ s.pending_reset = ground (arith, named) in
      omega (arith, at, reset)
]

pub bump_pending-shows :
    (u : String) (s : PromptState)
    → ((bump_pending u s).requests ≡ s.requests) × ((bump_pending u s).notices ≡ s.notices)
unfolding bump_pending
bump_pending-shows u s = (ground arith, ground arith)

pub revision-low :
    (t : String) (s : PromptState) → Ordered s → pending_revision t s ≤ s.pending_sequence
unfolding pending_revision
revision-low t s o = let low = o.reset in let each = o.each t in omega (arith, low, each)

-- A revision is made for one thread, which what the others show does not depend on.
pub bump_pending-Signals :
    (t u : String) (s s' : PromptState)
    → t ≢ ""
    → Ordered s
    → s'.pending_sequence ≡ s.pending_sequence
    → s'.pending_reset ≡ s.pending_reset
    → s'.pending_revisions ≡ s.pending_revisions
    → (u ≢ t
        → (id : String) → of_thread t (lookup id s'.requests) ≡ of_thread t (lookup id s.requests))
    → (u ≢ t → notices_of t s'.notices ≡ notices_of t s.notices)
    → Signals t s (bump_pending u s')
bump_pending-Signals t u s s' real o sequence resets revisions offers notices =
    let low = revision-low t s o in
    let (same_offers, same_notices) = bump_pending-shows u s' in
    elim (Bool-cases (u == t)) [
      | inl hit ↦
          let own : u ≡ t = ground (arith, hit, eq_iff u t) in
          let raised : s'.pending_sequence < pending_revision t (bump_pending u s') =
            subst (λ x. s'.pending_sequence < pending_revision t (bump_pending x s')) (sym own)
              (bump_pending-own t s' real) in
          inr (omega (arith, low, raised, sequence))
      | inr miss ↦
          let apart : u ≢ t = λ e. ground (arith, miss, e, eq_iff u t) in
          let same = bump_pending-other t u s' miss in
          let before = revision-same t s s' resets revisions in
          inl (record {
            kept = omega (arith, same, before);
            offers = λ id. ap (λ m. of_thread t (lookup id m)) same_offers ∙ offers apart id;
            notices = ap (notices_of t) same_notices ∙ notices apart;
          })
    ]

-- Deleting a revision that is not needed leaves those of the threads that are watched.
pub prune-Signals :
    (t u : String) (s : PromptState)
    → count_at t s.watched ≢ 0
    → Signals t s (prune_pending_revision u s)
unfolding prune_pending_revision retains_revision pending_revision
prune-Signals t u s watching = elim (Bool-cases (retains_revision u s)) [
  | inl retained ↦ Signals-same t s (prune_pending_revision u s) (ground (arith, retained))
  | inr dropped ↦
      let other : (u == t) ≡ false = elim (Bool-cases (u == t)) [
        | inr miss ↦ miss
        | inl hit ↦
            let own : u ≡ t = ground (arith, hit, eq_iff u t) in
            absurd (watching (ap (λ x. count_at x s.watched) (sym own) ∙ ground (arith, dropped)))
      ] in
      let pruned : prune_pending_revision u s
          ≡ record s { pending_revisions = delete u s.pending_revisions } =
        ground (arith, dropped) in
      let revisions = ap (λ x. count_at t x.pending_revisions) pruned in
      let resets = ap (λ x. x.pending_reset) pruned in
      let at : count_at t (delete u s.pending_revisions) ≡ count_at t s.pending_revisions =
        ground (arith, lookup-delete u t s.pending_revisions, other) in
      inl (record {
        kept = omega (arith, revisions, resets, at);
        offers = λ id. ap (λ x. of_thread t (lookup id x.requests)) pruned;
        notices = ap (λ x. notices_of t x.notices) pruned;
      })
]
