-- ===== src/Database/Keys.antt =====
-- `submissionKey` of codex/submission_database.go, and Go's maps by it, as association lists.
use codex_web.Common.{
  String, ◌≡◌, Bool, true, ◌&&◌, Option, none, some, List, [], ◌∷◌, arith, ◌==◌, eq_iff, eq_refl,
  if◌then◌else◌, Bool-cases, inl, inr,
}

pub record SubmissionKey : Type 0 where
  pub kind : String
  pub thread : String
  pub id : String

abbrev pub key : String → String → String → SubmissionKey
key kind thread id = record { kind = kind; thread = thread; id = id }

unfoldable pub same_key : SubmissionKey → SubmissionKey → Bool
same_key a b = (a.kind == b.kind) && (a.thread == b.thread) && (a.id == b.id)

pub same_key_refl : (a : SubmissionKey) → same_key a a ≡ true
unfolding same_key
same_key_refl a = ground (arith, eq_refl a.kind, eq_refl a.thread, eq_refl a.id)

pub same_key_sound : (a b : SubmissionKey) → same_key a b ≡ true → a ≡ b
unfolding same_key
same_key_sound a b h =
    let kinds : a.kind ≡ b.kind = ground (arith, h, eq_iff a.kind b.kind) in
    let threads : a.thread ≡ b.thread = ground (arith, h, eq_iff a.thread b.thread) in
    let ids : a.id ≡ b.id = ground (arith, h, eq_iff a.id b.id) in
    λ i. record { kind = kinds i; thread = threads i; id = ids i }

abbrev pub KeyMap {ℓ} : Type ℓ → Type ℓ
KeyMap V = List (SubmissionKey × V)

module _ {ℓ} {V : Type ℓ} where
  -- `v, ok := m[k]`
  unfoldable pub row_at : SubmissionKey → KeyMap V → Option V
  row_at k [] = none
  row_at k ((j, v) ∷ m) = if same_key j k then some v else row_at k m

  unfoldable pub drop_row : SubmissionKey → KeyMap V → KeyMap V
  drop_row k [] = []
  drop_row k ((j, v) ∷ m) = let rest = drop_row k m in if same_key j k then rest else (j, v) ∷ rest

  -- `m[k] = v`
  unfoldable pub put_row : SubmissionKey → V → KeyMap V → KeyMap V
  unfolding drop_row
  put_row k v m = (k, v) ∷ drop_row k m

  -- No key stands twice.
  unfoldable pub IsMap : KeyMap V → Type ℓ
  IsMap [] = Unit
  IsMap ((k, v) ∷ m) = (row_at k m ≡ none) × IsMap m

  pub row_at-drop_row :
      (k j : SubmissionKey) (m : KeyMap V)
      → row_at j (drop_row k m) ≡ (if same_key k j then none else row_at j m)
  unfolding row_at drop_row same_key
  row_at-drop_row k j [] = ground arith
  row_at-drop_row k j ((i, v) ∷ m) = ground (
    arith,
    row_at-drop_row k j m,
    eq_iff i.kind k.kind,
    eq_iff i.kind j.kind,
    eq_iff k.kind j.kind,
    eq_iff i.thread k.thread,
    eq_iff i.thread j.thread,
    eq_iff k.thread j.thread,
    eq_iff i.id k.id,
    eq_iff i.id j.id,
    eq_iff k.id j.id,
  )

  pub row_at-put_row :
      (k j : SubmissionKey) (v : V) (m : KeyMap V)
      → row_at j (put_row k v m) ≡ (if same_key k j then some v else row_at j m)
  unfolding row_at put_row
  row_at-put_row k j v m = ground (arith, row_at-drop_row k j m)

  IsMap-drop_row : (k : SubmissionKey) (m : KeyMap V) → IsMap m → IsMap (drop_row k m)
  unfolding IsMap drop_row
  IsMap-drop_row k [] h = tt
  IsMap-drop_row k ((j, v) ∷ m) (new, h) = elim (Bool-cases (same_key j k)) [
    | inl hit ↦ rw hit (IsMap-drop_row k m h)
    | inr miss ↦ rw miss (ground (arith, new, row_at-drop_row k j m), IsMap-drop_row k m h)
  ]

  pub IsMap-put_row : (k : SubmissionKey) (v : V) (m : KeyMap V) → IsMap m → IsMap (put_row k v m)
  unfolding IsMap put_row
  IsMap-put_row k v m h =
      (ground (arith, row_at-drop_row k k m, same_key_refl k), IsMap-drop_row k m h)
