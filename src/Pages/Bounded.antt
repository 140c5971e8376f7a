-- ===== src/Pages/Bounded.antt =====
-- The room that `savePageCursor` makes among the continuations (codex/thread_page.go).
use codex_web.Common.{
  String, ℕ, suc, ◌+◌, ◌≤◌, ◌≡◌, refl, sym, ap, ◌∙◌, none, some, [], ◌∷◌, length, arith, leb, ◌==◌,
  eq_iff, Bool-cases, Option-cases, inl, inr,
}
use codex_web.GoMap.{lookup, delete, lookup-delete}
use codex_web.Pages.Types.{PageContinuation}
use codex_web.Pages.Cursors.{PageCursors, total_bytes, oldest}

-- No token stands twice.
unfoldable pub IsMap : PageCursors → Type 0
IsMap [] = Unit
IsMap ((token, _) ∷ cursors) = (lookup token cursors ≡ none) × IsMap cursors

pub IsMap-delete : (k : String) (m : PageCursors) → IsMap m → IsMap (delete k m)
unfolding IsMap delete
IsMap-delete k [] h = tt
IsMap-delete k ((j, v) ∷ m) (new, h) = elim (Bool-cases (j == k)) [
  | inl hit ↦ rw hit (IsMap-delete k m h)
  | inr miss ↦ rw miss (ground (arith, new, lookup-delete k j m), IsMap-delete k m h)
]

-- A token that is not there.
pub delete-absent : (k : String) (m : PageCursors) → lookup k m ≡ none → delete k m ≡ m
unfolding lookup delete
delete-absent k [] absent = refl
delete-absent k ((j, v) ∷ m) absent = elim (Bool-cases (j == k)) [
  | inl hit ↦ absurd (ground (arith, absent, hit))
  | inr miss ↦ ground (arith, miss, delete-absent k m (ground (arith, absent, miss)))
]

-- Deleting one that is there takes one away, and its bytes.
pub delete-found :
    (k : String) (m : PageCursors) (v : PageContinuation)
    → IsMap m
    → lookup k m ≡ some v
    → (suc (length (delete k m)) ≡ length m) × (v.bytes + total_bytes (delete k m) ≡ total_bytes m)
unfolding IsMap lookup delete total_bytes
delete-found k [] v distinct found = absurd (ground (arith, found))
delete-found k ((j, x) ∷ m) v (new, distinct) found = elim (Bool-cases (j == k)) [
  | inl hit ↦
      let own : j ≡ k = ground (arith, hit, eq_iff j k) in
      let same : x ≡ v = ground (arith, hit, found) in
      let gone = delete-absent k m (ap (λ t. lookup t m) (sym own) ∙ new) in
      (
        ground (arith, hit, ap (λ c. length c) gone),
        ground (arith, hit, ap total_bytes gone, ap (λ y. y.bytes) same),
      )
  | inr miss ↦
      let (shorter, lighter) = delete-found k m v distinct (ground (arith, found, miss)) in
      (ground (arith, miss, shorter), ground (arith, miss, lighter))
]

pub delete-less :
    (k : String) (m : PageCursors)
    → (length (delete k m) ≤ length m) × (total_bytes (delete k m) ≤ total_bytes m)
unfolding delete total_bytes
delete-less k [] = (omega arith, omega arith)
delete-less k ((j, v) ∷ m) =
    let (shorter, lighter) = delete-less k m in (ground (arith, shorter), ground (arith, lighter))

pub oldest-none : (m : PageCursors) → oldest m ≡ none → m ≡ []
unfolding oldest
oldest-none [] h = refl
oldest-none ((j, v) ∷ m) h = absurd (ground (arith, h))

-- The one chosen is there, and was used last when it says.
pub oldest-there :
    (m : PageCursors) (k : String) (used : ℕ)
    → IsMap m
    → oldest m ≡ some (k, used)
    → (v : PageContinuation) × (lookup k m ≡ some v) × (v.last_used ≡ used)
unfolding IsMap oldest lookup
oldest-there [] k used distinct h = absurd (ground (arith, h))
oldest-there ((j, v) ∷ m) k used (new, distinct) h = elim (Option-cases (oldest m)) [
  | inl e ↦ (v, ground (arith, h, e, eq_iff j k), ground (arith, h, e))
  | inr ((later, last), e) ↦
      let (x, found, when) = oldest-there m later last distinct e in
      elim (Bool-cases (leb v.last_used last)) [
        | inl first ↦ (v, ground (arith, h, e, first, eq_iff j k), ground (arith, h, e, first))
        | inr after ↦
            let same : later ≡ k = ground (arith, h, e, after) in
            let at : lookup k m ≡ some x = ap (λ t. lookup t m) (sym same) ∙ found in
            (
              x,
              ground (arith, at, new, eq_iff j k, ap (λ t. lookup t m) (sym same)),
              ground (arith, h, e, after, when),
            )
      ]
]

-- None was used before it.
pub oldest-least :
    (m : PageCursors) (k j : String) (used : ℕ) (w : PageContinuation)
    → oldest m ≡ some (k, used)
    → lookup j m ≡ some w
    → used ≤ w.last_used
unfolding oldest lookup
oldest-least [] k j used w h found = absurd (ground (arith, h))
oldest-least ((i, v) ∷ m) k j used w h found = elim (Option-cases (oldest m)) [
  | inl e ↦ ground (arith, h, e, found, oldest-none m e)
  | inr ((later, last), e) ↦ elim (Bool-cases (i == j)) [
    | inl hit ↦
        let same : v ≡ w = ground (arith, found, hit) in
        ground (arith, h, e, ap (λ x. x.last_used) same)
    | inr miss ↦
        let least = oldest-least m later j last w e (ground (arith, found, miss)) in
        ground (arith, h, e, least)
  ]
]
