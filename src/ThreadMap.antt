-- ===== src/ThreadMap.antt =====
-- Go's `map[string]map[string]V`, by thread and then by attempt: the shape of the submission
-- ledger's tables (codex/client.go, `queueAttemptLedger`). A missing thread is a nil inner map:
-- reading it finds nothing, deleting from it does nothing and assigning into it panics.
use codex_web.Common.{
  String, ◌≡◌, Option, none, some, [], arith, ◌==◌, ◌&&◌, eq_iff, eq_refl, if◌then◌else◌,
  Option-cases, inl, inr,
}
use codex_web.GoMap.{
  GoMap, lookup, delete, insert, is_empty, lookup-delete, lookup-insert, lookup-is_empty,
}

abbrev pub ThreadMap {ℓ} : Type ℓ → Type ℓ
ThreadMap V = GoMap (GoMap V)

module _ {ℓ} {V : Type ℓ} where
  -- `v, ok := m[t][c]`
  unfoldable pub find : String → String → ThreadMap V → Option V
  find t c m = elim (lookup t m) [ none ↦ none | some inner ↦ lookup c inner ]

  -- `if m[t] == nil { m[t] = make(map[string]V) }`
  unfoldable pub ensure : String → ThreadMap V → ThreadMap V
  ensure t m = elim (lookup t m) [ none ↦ insert t [] m | some _ ↦ m ]

  -- `m[t][c] = v`; `none` is the panic on a nil map
  unfoldable pub assign : String → String → V → ThreadMap V → Option (ThreadMap V)
  assign t c v m = elim (lookup t m) [
    | none ↦ none
    | some inner ↦ some (insert t (insert c v inner) m)
  ]

  -- `delete(m[t], c)`
  unfoldable pub remove : String → String → ThreadMap V → ThreadMap V
  remove t c m = elim (lookup t m) [ none ↦ m | some inner ↦ insert t (delete c inner) m ]

  -- `if len(m[t]) == 0 { delete(m, t) }`
  unfoldable pub prune : String → ThreadMap V → ThreadMap V
  prune t m = elim (lookup t m) [
    | none ↦ delete t m
    | some inner ↦ if is_empty inner then delete t m else m
  ]

  pub find-ensure : (t u d : String) (m : ThreadMap V) → find u d (ensure t m) ≡ find u d m
  unfolding find ensure lookup
  find-ensure t u d m = ground (arith, lookup-insert t u [] m, eq_iff t u)

  pub assign-ensure :
      (t c : String) (v : V) (m : ThreadMap V)
      → (m' : ThreadMap V) × (assign t c v (ensure t m) ≡ some m')
  unfolding assign ensure
  assign-ensure t c v m = elim (Option-cases (lookup t m)) [
    | inl e ↦ (
      insert t (insert c v []) (insert t [] m),
      ground (arith, lookup-insert t t [] m, eq_refl t),
    )
    | inr (inner, e) ↦ (insert t (insert c v inner) m, ground arith)
  ]

  pub find-assign :
      (t c u d : String) (v : V) (m m' : ThreadMap V)
      → assign t c v m ≡ some m'
      → find u d m' ≡ (if t == u && c == d then some v else find u d m)
  unfolding find assign
  find-assign t c u d v m m' h = elim (Option-cases (lookup t m)) [
    | inl e ↦ ground arith
    | inr (inner, e) ↦
        ground
          (arith, lookup-insert t u (insert c v inner) m, lookup-insert c d v inner, eq_iff t u)
  ]

  pub find-remove :
      (t c u d : String) (m : ThreadMap V)
      → find u d (remove t c m) ≡ (if t == u && c == d then none else find u d m)
  unfolding find remove
  find-remove t c u d m = elim (Option-cases (lookup t m)) [
    | inl e ↦ ground (arith, eq_iff t u)
    | inr (inner, e) ↦
        ground (arith, lookup-insert t u (delete c inner) m, lookup-delete c d inner, eq_iff t u)
  ]

  pub find-prune : (t u d : String) (m : ThreadMap V) → find u d (prune t m) ≡ find u d m
  unfolding find prune
  find-prune t u d m = elim (Option-cases (lookup t m)) [
    | inl e ↦ ground (arith, lookup-delete t u m, eq_iff t u)
    | inr (inner, e) ↦ ground (arith, lookup-delete t u m, lookup-is_empty d inner, eq_iff t u)
  ]

  -- An assignment into a thread that has an entry, or into which one was just made, does not panic.
  pub assign-found :
      (t c : String) (v w : V) (m : ThreadMap V)
      → find t c m ≡ some w
      → (m' : ThreadMap V) × (assign t c v m ≡ some m')
  unfolding find assign
  assign-found t c v w m h = elim (Option-cases (lookup t m)) [
    | inl e ↦ absurd (ground arith)
    | inr (inner, e) ↦ (insert t (insert c v inner) m, ground arith)
  ]

  pub assign-assign :
      (t c d : String) (v w : V) (m m' : ThreadMap V)
      → assign t c v m ≡ some m'
      → (m'' : ThreadMap V) × (assign t d w m' ≡ some m'')
  unfolding assign
  assign-assign t c d v w m m' h = elim (Option-cases (lookup t m)) [
    | inl e ↦ absurd (ground arith)
    | inr (inner, e) ↦ (
      insert t (insert d w (insert c v inner)) m',
      ground (arith, lookup-insert t t (insert c v inner) m, eq_refl t),
    )
  ]

  pub assign-remove :
      (t c d : String) (v w : V) (m : ThreadMap V)
      → find t c m ≡ some w
      → (m' : ThreadMap V) × (assign t d v (remove t c m) ≡ some m')
  unfolding find assign remove
  assign-remove t c d v w m h = elim (Option-cases (lookup t m)) [
    | inl e ↦ absurd (ground arith)
    | inr (inner, e) ↦ (
      insert t (insert d v (delete c inner)) (insert t (delete c inner) m),
      ground (arith, lookup-insert t t (delete c inner) m, eq_refl t),
    )
  ]
