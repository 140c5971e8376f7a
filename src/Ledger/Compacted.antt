-- ===== src/Ledger/Compacted.antt =====
-- What the loop of `CompactAcceptedSendOptions` (codex/client.go) makes of the attempts, and that its undo
-- puts everything back.
use codex_web.Common.{
  String, ◌≡◌, refl, sym, ◌∙◌, subst, eq_refl, ◌⊎◌, inl, inr, true, ◌&&◌, Option, none, some, [],
  ◌∷◌, arith, ◌==◌, eq_iff, Bool-cases, Option-cases,
}
use codex_web.GoMap.{GoMap}
use codex_web.ThreadMap.{ThreadMap, find, assign, find-assign, assign-found}
use codex_web.Ledger.Types.{SendState, accepted, SendAttempt, is_accepted}
use codex_web.Ledger.Compaction.{
  Compacting, is_compactable, compact_attempt, compact_thread, compact_threads, restore_options,
}

-- Two tables that answer every lookup alike.
abbrev pub Alike : ThreadMap SendAttempt → ThreadMap SendAttempt → Type 0
Alike m n = (u d : String) → find u d m ≡ find u d n

-- An attempt is as it was, or it is accepted and has lost its options.
abbrev pub Lost : Option SendAttempt → Option SendAttempt → Type 0
Lost old new =
    (new ≡ old)
    ⊎ ((x : SendAttempt) × (old ≡ some x)
        × (x.state ≡ accepted)
        × (new ≡ some (record x { options = none })))

-- The loop so far, from `sends`.
pub record Compacts (sends : ThreadMap SendAttempt) (c : Compacting) : Type 0 where
  pub lost : (u d : String) → Lost (find u d sends) (find u d c.sends)
  pub restores :
      (m : ThreadMap SendAttempt)
      → Alike m c.sends
      → (m' : ThreadMap SendAttempt) × (restore_options c.changed m ≡ some m') × Alike m' sends

is_accepted_eq : (x : SendState) → is_accepted x ≡ true → x ≡ accepted
unfolding is_accepted
is_accepted_eq accepted h = refl
is_accepted_eq _ h = absurd (ground arith)

module _ (sends : ThreadMap SendAttempt) where
  assign-Lost :
      (t c u d : String) (x : SendAttempt) (before : Compacting) (after : ThreadMap SendAttempt)
      → find t c before.sends ≡ some x
      → x.state ≡ accepted
      → assign t c (record x { options = none }) before.sends ≡ some after
      → Lost (find u d sends) (find u d before.sends)
      → Lost (find u d sends) (find u d after)
  assign-Lost t c u d x before after found state made lost =
      let now = find-assign t c u d (record x { options = none }) before.sends after made in
      elim (Bool-cases (t == u && c == d)) [
        | inr miss ↦
            let same : find u d after ≡ find u d before.sends = ground (arith, now, miss) in
            subst (λ o. Lost (find u d sends) o) (sym same) lost
        | inl hit ↦
            let at : find u d before.sends ≡ some x =
              ground (arith, found, hit, eq_iff t u, eq_iff c d) in
            let bare : find u d after ≡ some (record x { options = none }) =
              ground (arith, now, hit) in
            elim lost [
              | inl same ↦ inr (x, sym same ∙ at, state, bare)
              | inr (y, old, accepts, new) ↦ inr (y, old, accepts, bare ∙ ground (arith, at, new))
            ]
      ]

module _ (sends : ThreadMap SendAttempt) (prefix : String) where
  abbrev Goes : Option Compacting → Type 0
  Goes r = (c' : Compacting) × (r ≡ some c') × Compacts sends c'

  compact_attempt-Compacts :
      (thread client : String) (c : Compacting)
      → Compacts sends c
      → Goes (compact_attempt prefix thread client c)
  unfolding compact_attempt is_compactable restore_options
  compact_attempt-Compacts thread client c i = elim (Option-cases (find thread client c.sends)) [
    | inl e ↦ (c, ground (arith, e), i)
    | inr (x, e) ↦ elim (Bool-cases (is_compactable prefix x)) [
      | inr other ↦ (c, ground (arith, e, other), i)
      | inl own ↦
          let bare = record x { options = none } in
          let (m1, made) = assign-found thread client bare x c.sends e in
          let next : Compacting = record {
            sends = m1;
            changed =
                record { thread_id = thread; client_id = client; options = x.options } ∷ c.changed;
          } in
          let state : x.state ≡ accepted = is_accepted_eq x.state (ground (arith, own)) in
          (
            next,
            ground (arith, e, own, made),
            record {
              lost = λ u d. assign-Lost sends thread client u d x c m1 e state made (i.lost u d);
              restores = λ m alike.
                  let there : find thread client m ≡ some bare =
                    alike thread client
                    ∙ ground (
                      arith,
                      find-assign thread client thread client bare c.sends m1 made,
                      eq_refl thread,
                      eq_refl client,
                    ) in
                  let (m2, back) = assign-found thread client x bare m there in
                  let put : (u d : String) → find u d m2 ≡ find u d c.sends = λ u d. ground (
                    arith,
                    find-assign thread client u d x m m2 back,
                    find-assign thread client u d bare c.sends m1 made,
                    alike u d,
                    eq_iff thread u,
                    eq_iff client d,
                    e,
                  ) in
                  let (m3, rest, orig) = i.restores m2 put in
                  (m3, ground (arith, there, back, rest), orig);
            },
          )
    ]
  ]

  compact_thread-Compacts :
      (thread : String) (attempts : GoMap SendAttempt) (c : Compacting)
      → Compacts sends c
      → Goes (compact_thread prefix thread attempts c)
  unfolding compact_thread
  compact_thread-Compacts thread [] c i = (c, refl, i)
  compact_thread-Compacts thread ((client, _) ∷ attempts) c i =
      let (c', one, i') = compact_attempt-Compacts thread client c i in
      let (c'', rest, i'') = compact_thread-Compacts thread attempts c' i' in
      (c'', ground (arith, one, rest), i'')

  compact_threads-Compacts :
      (threads : ThreadMap SendAttempt) (c : Compacting)
      → Compacts sends c
      → Goes (compact_threads prefix threads c)
  unfolding compact_threads
  compact_threads-Compacts [] c i = (c, refl, i)
  compact_threads-Compacts ((thread, attempts) ∷ threads) c i =
      let (c', one, i') = compact_thread-Compacts thread attempts c i in
      let (c'', rest, i'') = compact_threads-Compacts threads c' i' in
      (c'', ground (arith, one, rest), i'')

  -- The whole loop, from a table on which nothing is changed.
  pub compacted :
      (c' : Compacting) × (compact_threads prefix sends (record { sends = sends; changed = [] })
        ≡ some c')
      × Compacts sends c'
  unfolding restore_options
  compacted =
      compact_threads-Compacts sends (record { sends = sends; changed = [] })
        (record { lost = λ u d. inl refl; restores = λ m alike. (m, refl, alike) })
