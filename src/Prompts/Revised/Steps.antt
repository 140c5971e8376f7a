-- ===== src/Prompts/Revised/Steps.antt =====
-- The revisions that the end of an offer and of a connection, and the notices, make (codex/client.go).
pub mod Every
use codex_web.Common.{
  String, ℕ, suc, ◌+◌, ◌≤◌, ◌<◌, ◌≡◌, ◌≢◌, refl, sym, ap, ◌∙◌, subst, ◌⊎◌, inl, inr, Bool, true,
  false, not, ◌&&◌, ◌||◌, Option, none, some, List, [], ◌∷◌, max, arith, ◌==◌, eq_iff, eq_refl,
  nat_eq, if◌then◌else◌, Bool-cases, Option-cases,
}
use codex_web.Errors.{Error, Outcome, ok, err, panic, Outcome-cases}
use codex_web.GoMap.{GoMap, lookup, insert, delete, lookup-insert, lookup-delete}
use codex_web.Prompts.Types.{PendingRequest}
use codex_web.Prompts.State.{
  Notice, PromptState, request_thread_id, count_at, notices_of, pending_revision, bump_pending,
  prune_pending_revision,
}
use codex_web.Prompts.Offers.{
  is_current, same_offer, release_claim, drop_generation, detach_connection, mark_disconnected,
  Writing, ended, no_writer, broke, transmitted, write_offer,
}
use codex_web.Prompts.Once.Claims.{lookup-drop_generation}
use codex_web.Prompts.Revised.{
  Ordered, Live, of_thread, Signals, Signals-same, Signals-then, bump_pending-Signals,
  revision-same, revision-low,
}
use codex_web.Prompts.Revised.Changes.{delete-others}

-- A connection's end withdraws its offers, and raises every revision.
pub mark_disconnected-Signals :
    (t : String) (connection generation : ℕ) (s : PromptState)
    → Ordered s
    → Signals t s (mark_disconnected connection generation s)
unfolding mark_disconnected detach_connection pending_revision
mark_disconnected-Signals t connection generation s o =
    let after = mark_disconnected connection generation s in
    let low = revision-low t s o in
    elim (Bool-cases (elim s.connection [
      | none ↦ false
      | some x ↦ nat_eq x connection && nat_eq s.generation generation
    ])) [
      | inr kept ↦ Signals-same t s after (ground (arith, kept))
      | inl gone ↦
          let reset : after.pending_reset ≡ 1 + s.pending_sequence = ground (arith, gone) in
          inr (omega (arith, reset, low))
    ]

-- What is left of the offers, on the same generation.
pub record Leaves (s s' : PromptState) : Type 0 where
  pub subset :
      (id : String) (r : PendingRequest)
      → lookup id s'.requests ≡ some r
      → lookup id s.requests ≡ some r
  pub generation : s'.generation ≡ s.generation
  pub ordered : Ordered s'

pub Leaves-Live : (s s' : PromptState) → Leaves s s' → Live s → Live s'
Leaves-Live s s' l live = record {
  named = λ id r h. live.named id r (l.subset id r h);
  current = λ id r h. live.current id r (l.subset id r h) ∙ sym l.generation;
}

pub Leaves-same : (s s' : PromptState) → s' ≡ s → Ordered s → Leaves s s'
Leaves-same s s' same o = record {
  subset = λ id r h. ap (λ x. lookup id x.requests) (sym same) ∙ h;
  generation = ap (λ x. x.generation) same;
  ordered = subst Ordered (sym same) o;
}

mark_disconnected-Leaves :
    (connection generation : ℕ) (s : PromptState)
    → Ordered s
    → Leaves s (mark_disconnected connection generation s)
unfolding mark_disconnected detach_connection lookup
mark_disconnected-Leaves connection generation s o =
    let after = mark_disconnected connection generation s in
    elim (Bool-cases (elim s.connection [
      | none ↦ false
      | some x ↦ nat_eq x connection && nat_eq s.generation generation
    ])) [
      | inr kept ↦ Leaves-same s after (ground (arith, kept)) o
      | inl gone ↦
          let same : after ≡ detach_connection generation s = ground (arith, gone) in
          subst (Leaves s) (sym same) (record {
            subset = λ id r h. lookup-drop_generation generation s.requests s.requests id r h;
            generation = refl;
            ordered = record { reset = omega arith; each = λ t. omega arith };
          })
    ]

module _ (t : String) (real : t ≢ "") (s : PromptState) (o : Ordered s) (live : Live s) where
  handed-Signals : (written : List String) → Signals t s (record s { written = written })
  handed-Signals written = inl (record {
    kept =
        (let e = revision-same t s (record s { written = written }) refl refl in omega (arith, e));
    offers = λ id. refl;
    notices = refl;
  })

  pub write_offer-Signals :
      (writing : Writing) (request : PendingRequest)
      → ((r : PendingRequest)
          → lookup request.id s.requests ≡ some r
          → same_offer r request ≡ true
          → request_thread_id r ≡ request_thread_id request)
      → Signals t s (write_offer writing request s).1
        × (((write_offer writing request s).0 ≡ ok tt) ⊎ Leaves s (write_offer writing request s).1)
  unfolding write_offer
  write_offer-Signals writing request faithful = elim (Bool-cases (is_current s request)) [
    | inr stale ↦ unchanged writing (ground (arith, stale))
    | inl now ↦ elim (Option-cases (lookup request.id s.requests)) [
      | inl e ↦ unchanged writing (ground (arith, now, e))
      | inr (r, e) ↦
          elim (Bool-cases
            (r.claimed && same_offer r request && nat_eq r.connection request.connection)) [
              | inr refused ↦ unchanged writing (ground (arith, now, e, refused))
              | inl ours ↦ written_to r now e ours (faithful r e (ground (arith, ours))) writing
            ]
    ]
  ]
    where
      unchanged :
          (w : Writing)
          → (write_offer w request s).1 ≡ s
          → Signals t s (write_offer w request s).1
            × (((write_offer w request s).0 ≡ ok tt) ⊎ Leaves s (write_offer w request s).1)
      unchanged w same = (
        Signals-same t s (write_offer w request s).1 same,
        inr (Leaves-same s (write_offer w request s).1 same o),
      )

      moved_on :
          (w : Writing) (x : PromptState)
          → (write_offer w request s).1 ≡ x
          → Signals t s x
          → Leaves s x
          → Signals t s (write_offer w request s).1
            × (((write_offer w request s).0 ≡ ok tt) ⊎ Leaves s (write_offer w request s).1)
      moved_on w x same signals leaves =
          (subst (Signals t s) (sym same) signals, inr (subst (Leaves s) (sym same) leaves))

      written_to :
          (r : PendingRequest)
          → is_current s request ≡ true
          → lookup request.id s.requests ≡ some r
          → (r.claimed && same_offer r request && nat_eq r.connection request.connection) ≡ true
          → request_thread_id r ≡ request_thread_id request
          → (w : Writing)
          → Signals t s (write_offer w request s).1
            × (((write_offer w request s).0 ≡ ok tt) ⊎ Leaves s (write_offer w request s).1)
      written_to r now e ours thread ended = unchanged ended (ground (arith, now, e, ours))
      written_to r now e ours thread (no_writer false) =
          unchanged (no_writer false) (ground (arith, now, e, ours))
      written_to r now e ours thread (no_writer true) =
          moved_on (no_writer true) (mark_disconnected request.connection request.generation s)
            (ground (arith, now, e, ours))
            (mark_disconnected-Signals t request.connection request.generation s o)
            (mark_disconnected-Leaves request.connection request.generation s o)
      written_to r now e ours thread broke =
          let handed = record s { written = request.token ∷ s.written } in
          let o' : Ordered handed = record { reset = o.reset; each = o.each } in
          let left = mark_disconnected-Leaves request.connection request.generation handed o' in
          moved_on broke (mark_disconnected request.connection request.generation handed)
            (ground (arith, now, e, ours))
            (Signals-then t s handed
              (mark_disconnected request.connection request.generation handed)
              (handed-Signals (request.token ∷ s.written))
              (mark_disconnected-Signals t request.connection request.generation handed o'))
            (record { subset = left.subset; generation = left.generation; ordered = left.ordered })
      written_to r now e ours thread transmitted =
          let removed = record s {
            written = request.token ∷ s.written;
            requests = delete request.id s.requests;
          } in
          let same : (write_offer transmitted request s).1
              ≡ bump_pending (request_thread_id request) removed =
            ground (arith, now, e, ours) in
          (
            subst (Signals t s) (sym same) (
                bump_pending-Signals t (request_thread_id request) s removed real o refl refl refl
                  (λ apart. delete-others t request.id r s.requests e (λ h. apart (sym thread ∙ h)))
                  (λ _. refl)),
            inl (ground (arith, now, e, ours)),
          )
