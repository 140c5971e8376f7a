-- ===== src/Prompts/Revised/Steps/Every.antt =====
-- Every event, and the revisions that it makes (codex/client.go).
use codex_web.Common.{
  String, ℕ, ◌+◌, ◌-◌, ◌≡◌, ◌≢◌, refl, sym, ap, ◌∙◌, subst, inl, inr, Bool, true, false, ◌++◌, some,
  List, [], ◌∷◌, arith, ◌==◌, eq_iff, nat_eq, ltb, length, if◌then◌else◌, Bool-cases, Option-cases,
}
use codex_web.Errors.{Outcome-cases}
use codex_web.GoMap.{GoMap, lookup, delete, lookup-insert}
use codex_web.Prompts.Types.{PendingRequest}
use codex_web.Prompts.State.{
  Notice, PromptState, request_thread_id, count_at, notices_of, bump_pending,
  prune_pending_revision,
}
use codex_web.Prompts.Offers.{
  same_offer, release_claim, connect, Writing, write_offer, finish_response, handle_resolved,
}
use codex_web.Prompts.Notices.{
  set_notices, drop, add_notice, replace_notice, record_watch_error, without_notice,
  clear_watch_error,
}
use codex_web.Prompts.Revised.{
  Ordered, Live, Signals, Signals-same, Signals-then, bump_pending-Signals, prune-Signals,
  revision-same,
}
use codex_web.Prompts.Revised.Changes.{delete-others, release_claim-Signals}
use codex_web.Prompts.Revised.Steps.{Leaves-Live, write_offer-Signals}

-- The client gives an offer's own thread where it answers or releases it.
abbrev pub OfOwnThread : PendingRequest → PromptState → Type 0
OfOwnThread request s =
    (r : PendingRequest)
    → lookup request.id s.requests ≡ some r
    → same_offer r request ≡ true
    → request_thread_id r ≡ request_thread_id request

module _ (t : String) (real : t ≢ "") (s : PromptState) (o : Ordered s) where
  pub pruned :
      (u : String) (x : PromptState)
      → Signals t s x
      → count_at t (prune_pending_revision u x).watched ≢ 0
      → Signals t s (prune_pending_revision u x)
  unfolding prune_pending_revision
  pruned u x signals watching =
      let same : (prune_pending_revision u x).watched ≡ x.watched = ground arith in
      Signals-then t s x (prune_pending_revision u x) signals
        (prune-Signals t u x (λ none_watch. watching (ap (count_at t) same ∙ none_watch)))

  -- The notices of one thread are set.
  noticed-Signals :
      (thread : String) (l : List Notice)
      → Signals t s (bump_pending thread (set_notices thread l s))
  noticed-Signals thread l =
      bump_pending-Signals t thread s (set_notices thread l s) real o refl refl refl (λ _ id. refl)
        (λ apart. ground (arith, lookup-insert thread t l s.notices, apart, eq_iff thread t))

  pub add_notice-Signals :
      (thread : String) (notice : Notice) → Signals t s (add_notice thread notice s)
  unfolding add_notice
  add_notice-Signals thread notice = elim (Bool-cases (thread == "")) [
    | inl unnamed ↦ Signals-same t s (add_notice thread notice s) (ground (arith, unnamed))
    | inr named ↦
        let notices = notices_of thread s.notices ++ (notice ∷ []) in
        let l = if ltb 20 (length notices) then drop (length notices - 20) notices else notices in
        let same : add_notice thread notice s ≡ bump_pending thread (set_notices thread l s) =
          ground (arith, named) in
        subst (Signals t s) (sym same) (noticed-Signals thread l)
  ]

  pub record_watch_error-Signals :
      (thread : String) (notice : Notice) → Signals t s (record_watch_error thread notice s)
  unfolding record_watch_error
  record_watch_error-Signals thread notice =
      let (replaced, notices) = replace_notice notice (notices_of thread s.notices) in
      noticed-Signals thread (if replaced then notices else notices ++ (notice ∷ []))

  pub clear_watch_error-Signals :
      (thread id : String)
      → count_at t (clear_watch_error thread id s).watched ≢ 0
      → Signals t s (clear_watch_error thread id s)
  unfolding clear_watch_error bump_pending
  clear_watch_error-Signals thread id watching =
      let notices = notices_of thread s.notices in
      elim (Option-cases (without_notice id notices)) [
        | inl e ↦
            let same : clear_watch_error thread id s
                ≡ prune_pending_revision thread (set_notices thread notices s) =
              ground (arith, e) in
            subst (Signals t s) (sym same) (
              pruned thread (set_notices thread notices s) (rewritten thread)
                (subst (λ x. count_at t x.watched ≢ 0) same watching))
        | inr (rest, e) ↦
            let x = set_notices thread rest (bump_pending thread s) in
            let same : clear_watch_error thread id s ≡ prune_pending_revision thread x =
              ground (arith, e) in
            subst (Signals t s) (sym same) (
              pruned thread x
                (subst (Signals t s) (set_notices-bump thread rest) (noticed-Signals thread rest))
                (subst (λ y. count_at t y.watched ≢ 0) same watching))
      ]
    where
      rewritten : (u : String) → Signals t s (set_notices u (notices_of u s.notices) s)
      rewritten u = inl (record {
        kept =
            (let e = revision-same t s (set_notices u (notices_of u s.notices) s) refl refl in
              omega (arith, e));
        offers = λ id. refl;
        notices = elim (Bool-cases (u == t)) [
          | inl hit ↦
              let own : u ≡ t = ground (arith, hit, eq_iff u t) in
              ground (
                arith,
                hit,
                lookup-insert u t (notices_of u s.notices) s.notices,
                ap (λ y. notices_of y s.notices) own,
              )
          | inr miss ↦ ground (arith, miss, lookup-insert u t (notices_of u s.notices) s.notices)
        ];
      })

      set_notices-bump :
          (u : String) (l : List Notice)
          → bump_pending u (set_notices u l s) ≡ set_notices u l (bump_pending u s)
      set_notices-bump u l = ground arith

  pub handle_resolved-Signals :
      (id : String) (generation : ℕ)
      → count_at t (handle_resolved id generation s).watched ≢ 0
      → Signals t s (handle_resolved id generation s)
  unfolding handle_resolved
  handle_resolved-Signals id generation watching = elim (Option-cases (lookup id s.requests)) [
    | inl e ↦
        let same : handle_resolved id generation s ≡ prune_pending_revision "" s =
          ground (arith, e) in
        subst (Signals t s) (sym same) (
          pruned "" s (Signals-same t s s refl)
            (subst (λ x. count_at t x.watched ≢ 0) same watching))
    | inr (r, e) ↦ elim (Bool-cases (nat_eq r.generation generation)) [
      | inr other ↦
          let same : handle_resolved id generation s
              ≡ prune_pending_revision (request_thread_id r) s =
            ground (arith, e, other) in
          subst (Signals t s) (sym same) (
            pruned (request_thread_id r) s (Signals-same t s s refl)
              (subst (λ x. count_at t x.watched ≢ 0) same watching))
      | inl own ↦
          let x =
            bump_pending (request_thread_id r) (record s { requests = delete id s.requests }) in
          let same : handle_resolved id generation s
              ≡ prune_pending_revision (request_thread_id r) x =
            ground (arith, e, own) in
          subst (Signals t s) (sym same) (
            pruned (request_thread_id r) x
              (bump_pending-Signals t (request_thread_id r) s
                (record s { requests = delete id s.requests }) real o refl refl refl
                (λ apart. delete-others t id r s.requests e apart) (λ _. refl))
              (subst (λ y. count_at t y.watched ≢ 0) same watching))
    ]
  ]

  -- A count of watchers is changed.
  pub counted-Signals : (m : GoMap ℕ) → Signals t s (record s { watched = m })
  counted-Signals m = inl (record {
    kept = (let e = revision-same t s (record s { watched = m }) refl refl in omega (arith, e));
    offers = λ id. refl;
    notices = refl;
  })

  pub connect-Signals : (connection : ℕ) → Signals t s (connect connection s)
  unfolding connect
  connect-Signals connection = elim (Option-cases s.connection) [
    | inr (x, e) ↦ Signals-same t s (connect connection s) (ground (arith, e))
    | inl e ↦
        let x = record s { connection = some connection; generation = 1 + s.generation } in
        let same : connect connection s ≡ x = ground (arith, e) in
        subst (Signals t s) (sym same) (
          inl (record {
            kept = (let r = revision-same t s x refl refl in omega (arith, r));
            offers = λ id. refl;
            notices = refl;
          }))
  ]

  pub finish_response-Signals :
      (observer encodes : Bool) (writing : Writing) (request : PendingRequest)
      → Live s
      → OfOwnThread request s
      → count_at t (finish_response observer encodes writing request s).1.watched ≢ 0
      → Signals t s (finish_response observer encodes writing request s).1
  unfolding finish_response
  finish_response-Signals true encodes writing request live own watching =
      Signals-same t s (finish_response true encodes writing request s).1 refl
  finish_response-Signals false false writing request live own watching =
      release_claim-Signals t real s o live request own
  finish_response-Signals false true writing request live own watching =
      let s' = (write_offer writing request s).1 in
      let done = (finish_response false true writing request s).1 in
      let (signals, left) = write_offer-Signals t real s o live writing request own in
      elim (Outcome-cases (write_offer writing request s).0) [
        | inr (inr e) ↦ subst (Signals t s) (sym (ground (arith, e))) signals
        | inl (u, e) ↦
            let same : done ≡ prune_pending_revision (request_thread_id request) s' =
              ground (arith, e) in
            subst (Signals t s) (sym same) (
              pruned (request_thread_id request) s' signals
                (subst (λ x. count_at t x.watched ≢ 0) same watching))
        | inr (inl (x, e)) ↦
            let same : done ≡ release_claim request s' = ground (arith, e) in
            elim left [
              | inl fine ↦ absurd (ground (arith, e, fine))
              | inr leaves ↦ subst (Signals t s) (sym same) (
                  Signals-then t s s' (release_claim request s') signals (
                    release_claim-Signals t real s' leaves.ordered (Leaves-Live s s' leaves live)
                      request (λ r h. own r (leaves.subset request.id r h))))
            ]
      ]
