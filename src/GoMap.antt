-- ===== src/GoMap.antt =====
-- Go's `map[string]V`, as an association list. Iteration order is not fixed by Go; where the code
-- ranges over a map the models range over the list, in whatever order it has.
use codex_web.Common.{
  String, ◌≡◌, refl, Bool, true, false, Option, none, some, List, [], ◌∷◌, arith, ◌==◌, eq_iff,
  if◌then◌else◌,
}

abbrev pub GoMap {ℓ} : Type ℓ → Type ℓ
GoMap V = List (String × V)

module _ {ℓ} {V : Type ℓ} where
  -- `v, ok := m[k]`
  unfoldable pub lookup : String → GoMap V → Option V
  lookup k [] = none
  lookup k ((j, v) ∷ m) = if j == k then some v else lookup k m

  -- `delete(m, k)`
  unfoldable pub delete : String → GoMap V → GoMap V
  delete k [] = []
  delete k ((j, v) ∷ m) = let rest = delete k m in if j == k then rest else (j, v) ∷ rest

  -- `m[k] = v`
  unfoldable pub insert : String → V → GoMap V → GoMap V
  unfolding delete
  insert k v m = (k, v) ∷ delete k m

  -- `len(m) == 0`
  unfoldable pub is_empty : GoMap V → Bool
  is_empty [] = true
  is_empty (_ ∷ _) = false

  pub lookup-delete :
      (k j : String) (m : GoMap V) → lookup j (delete k m) ≡ (if k == j then none else lookup j m)
  unfolding lookup delete
  lookup-delete k j [] = ground arith
  lookup-delete k j ((i, v) ∷ m) =
      ground (arith, lookup-delete k j m, eq_iff i k, eq_iff i j, eq_iff k j)

  pub lookup-insert :
      (k j : String) (v : V) (m : GoMap V)
      → lookup j (insert k v m) ≡ (if k == j then some v else lookup j m)
  unfolding lookup insert
  lookup-insert k j v m = ground (arith, lookup-delete k j m)

  pub lookup-is_empty : (k : String) (m : GoMap V) → is_empty m ≡ true → lookup k m ≡ none
  unfolding lookup is_empty
  lookup-is_empty k [] h = refl
  lookup-is_empty k (_ ∷ _) h = ground arith
