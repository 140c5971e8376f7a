-- ===== src/Prompts/Accepted.antt =====
-- Which answers `validateAnswers` of codex/client.go takes.
use codex_web.Common.{
  String, ◌≡◌, ◌↔◌, ◌⊎◌, refl, ap, subst, true, false, ◌||◌, some, List, [], ◌∷◌, length, arith,
  nat_eq, Bool-cases, Option-cases, inl, inr, ◌≤◌,
}
use codex_web.Errors.{ok}
use codex_web.GoMap.{GoMap, lookup}
use codex_web.Library.{Library}
use codex_web.Prompts.Types.{Question, Prompt}
use codex_web.Prompts.Answers.{
  offered, values_of, is_blank, valid_user_note, no_blanks, check_choice, check_free_form,
  check_values, check_answer, check_question, check_all, validate_answers,
}

List-cases {ℓ} : {A : Type ℓ} (l : List A) → (l ≡ []) ⊎ ((x : A) × (xs : List A) × (l ≡ x ∷ xs))
List-cases [] = inl refl
List-cases (x ∷ xs) = inr (x, xs, refl)

module _ (lib : Library) where
  -- The values that answer a question: none; a choice that it offers, with or without a note; or a note alone,
  -- where it offers no choices or takes others.
  pub data Acceptable (q : Question) : List String → Type 0 where
    skipped : Acceptable q []
    chosen :
        (v : String) → offered v q.options ≡ true → is_blank lib v ≡ false → Acceptable q (v ∷ [])
    noted :
        (v note : String)
        → offered v q.options ≡ true
        → is_blank lib v ≡ false
        → valid_user_note lib note ≡ true
        → is_blank lib note ≡ false
        → Acceptable q (v ∷ note ∷ [])
    other :
        (v : String)
        → (q.is_other || nat_eq (length q.options) 0) ≡ true
        → valid_user_note lib v ≡ true
        → is_blank lib v ≡ false
        → Acceptable q (v ∷ [])

  abbrev pub IsAnswer : Question → GoMap (List String) → Type 0
  IsAnswer q answer = (length answer ≡ 1) × Acceptable q (values_of answer)

  values-Acceptable :
      (q : Question) (vs : List String)
      → length vs ≤ 2
      → check_values lib q vs ≡ ok tt
      → Acceptable q vs
  unfolding check_values check_choice check_free_form no_blanks
  values-Acceptable q [] few h = skipped
  values-Acceptable q (v ∷ []) few h = elim (List-cases q.options) [
    | inl e ↦ other v (ground (arith, e)) (ground (arith, e, h)) (ground (arith, e, h))
    | inr (x, xs, e) ↦ elim (Bool-cases (offered v q.options)) [
      | inl on ↦ chosen v on (ground (arith, e, h, on))
      | inr off ↦
          other v (ground (arith, e, h, off)) (ground (arith, e, h, off))
            (ground (arith, e, h, off))
    ]
  ]
  values-Acceptable q (v ∷ n ∷ []) few h = elim (List-cases q.options) [
    | inl e ↦ absurd (ground (arith, e, h))
    | inr (x, xs, e) ↦
        noted v n (ground (arith, e, h)) (ground (arith, e, h)) (ground (arith, e, h))
          (ground (arith, e, h))
  ]
  values-Acceptable q (v ∷ n ∷ x ∷ vs) few h = absurd (omega (arith, few))

  Acceptable-values :
      (q : Question) (vs : List String) → Acceptable q vs → check_values lib q vs ≡ ok tt
  unfolding check_values check_choice check_free_form no_blanks offered
  Acceptable-values q vs skipped = refl
  Acceptable-values q vs (chosen v on solid) = elim (List-cases q.options) [
    | inl e ↦ absurd (ground (arith, on, ap (offered v) e))
    | inr (x, xs, e) ↦ ground (arith, e, on, solid)
  ]
  Acceptable-values q vs (noted v note on solid good solid') = elim (List-cases q.options) [
    | inl e ↦ absurd (ground (arith, on, ap (offered v) e))
    | inr (x, xs, e) ↦ ground (arith, e, on, solid, good, solid')
  ]
  Acceptable-values q vs (other v free good solid) = elim (List-cases q.options) [
    | inl e ↦ ground (arith, e, good, solid)
    | inr (x, xs, e) ↦ ground (arith, e, free, good, solid)
  ]

  few-Acceptable : (q : Question) (vs : List String) → Acceptable q vs → length vs ≤ 2
  few-Acceptable q vs skipped = omega arith
  few-Acceptable q vs (chosen v on solid) = omega arith
  few-Acceptable q vs (noted v note on solid good solid') = omega arith
  few-Acceptable q vs (other v free good solid) = omega arith

  check_answer-IsAnswer :
      (q : Question) (answer : GoMap (List String))
      → (check_answer lib q answer ≡ ok tt) ↔ IsAnswer q answer
  unfolding check_answer
  check_answer-IsAnswer q answer = (
    λ h. (
      ground (arith, h),
      values-Acceptable q (values_of answer) (ground (arith, h)) (ground (arith, h)),
    ),
    λ (single, fits). ground (
      arith,
      single,
      few-Acceptable q (values_of answer) fits,
      Acceptable-values q (values_of answer) fits,
    ),
  )

  -- Each question of the list has its answer.
  unfoldable pub AllAnswered : GoMap (GoMap (List String)) → List Question → Type 0
  AllAnswered answers [] = Unit
  AllAnswered answers (q ∷ questions) =
      ((answer : GoMap (List String)) × (lookup q.id answers ≡ some answer) × IsAnswer q answer)
      × AllAnswered answers questions

  all-AllAnswered :
      (answers : GoMap (GoMap (List String))) (questions : List Question)
      → (check_all lib answers questions ≡ ok tt) ↔ AllAnswered answers questions
  unfolding check_all check_question AllAnswered
  all-AllAnswered answers [] = (λ _. tt, λ _. refl)
  all-AllAnswered answers (q ∷ questions) =
      let (there, back) = all-AllAnswered answers questions in
      elim (Option-cases (lookup q.id answers)) [
        | inl e ↦ (
          λ h. absurd (ground (arith, e, h)),
          λ ((answer, found, _), _). absurd (ground (arith, e, found)),
        )
        | inr (answer, e) ↦
            let (fits, checks) = check_answer-IsAnswer q answer in
            (
              λ h. ((answer, e, fits (ground (arith, e, h))), there (ground (arith, e, h))),
              λ ((answer', found, fit), rest).
                  let same : answer' ≡ answer = ground (arith, e, found) in
                  ground (arith, e, checks (subst (IsAnswer q) same fit), back rest),
            )
      ]

  -- The answers to a prompt are taken exactly where there are as many as questions, and each question has an
  -- answer of the one key whose values are none, a choice that it offers, such a choice with a note, or a note
  -- alone where it offers no choices or takes others; no value is blank, and a note is not empty.
  pub validate_answers-AllAnswered :
      (prompt : Prompt) (answers : GoMap (GoMap (List String)))
      → (validate_answers lib prompt answers ≡ ok tt)
        ↔ ((length answers ≡ length prompt.questions) × AllAnswered answers prompt.questions)
  unfolding validate_answers
  validate_answers-AllAnswered prompt answers =
      let (there, back) = all-AllAnswered answers prompt.questions in
      (
        λ h. (ground (arith, h), there (ground (arith, h))),
        λ (many, all). ground (arith, many, back all),
      )
