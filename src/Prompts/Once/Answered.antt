-- ===== src/Prompts/Once/Answered.antt =====
-- The changes that hand a response to the writer, or admit an offer.
use codex_web.Common.{
  String, ℕ, suc, ◌≤◌, ◌≡◌, ◌≢◌, refl, sym, ap, ◌∙◌, ◌⊎◌, inl, inr, true, false, not, ◌&&◌, none,
  some, ◌∷◌, arith, ◌==◌, eq_iff, eq_refl, nat_eq, Bool-cases, Option-cases,
}
use codex_web.GoMap.{lookup, insert, delete, lookup-insert, lookup-delete}
use codex_web.Prompts.Types.{PendingRequest}
use codex_web.Prompts.State.{PromptState, bump_pending}
use codex_web.Prompts.Offers.{
  is_current, admit_prompt, same_offer, drop_generation, detach_connection, mark_disconnected,
  Writing, ended, no_writer, broke, transmitted, write_offer,
}
use codex_web.Prompts.Once.{times, Fresh, Thins, Mild-unchanged, Fresh-Thins, Fresh-same}
use codex_web.Prompts.Once.Claims.{
  lookup-drop_generation, drop_generation-gone, mark_disconnected-Mild,
}

module _ (draw : ℕ → String) (injective : (i j : ℕ) → draw i ≡ draw j → i ≡ j) where
  -- One offer is answered, and is gone.
  Fresh-answered :
      (n : ℕ) (s s' : PromptState) (id : String) (r : PendingRequest)
      → lookup id s.requests ≡ some r
      → Thins s s'
      → s'.written ≡ r.token ∷ s.written
      → ((id' : String) (r' : PendingRequest)
          → lookup id' s'.requests ≡ some r'
          → r'.token ≢ r.token)
      → Fresh draw n s
      → Fresh draw n s'
  Fresh-answered n s s' id r found thins wrote gone f = record {
    drawn = λ k r' h.
        let (x, at_x, token, _) = thins k r' h in
        let (i, below, at) = f.drawn k x at_x in (i, below, sym token ∙ at);
    named = λ k r' h. let (x, at_x, _, name) = thins k r' h in sym name ∙ f.named k x at_x;
    distinct = λ k k' a b ha hb e.
        let (x, at_x, token, _) = thins k a ha in
        let (x', at_x', token', _) = thins k' b hb in
        f.distinct k k' x x' at_x at_x' (token ∙ (e ∙ sym token'));
    unanswered = λ k r' h.
        let (x, at_x, token, _) = thins k r' h in
        let before : times r'.token s.written ≡ 0 =
          ap (λ t. times t s.written) (sym token) ∙ f.unanswered k x at_x in
        let other = gone k r' h in
        let after : times r'.token (r.token ∷ s.written) ≡ 0 =
          ground (arith, before, other, eq_iff r.token r'.token) in
        ap (times r'.token) wrote ∙ after;
    later = λ i h.
        let (j, below, at) = f.drawn id r found in
        let other : r.token ≢ draw i = λ e. let same = injective j i (sym at ∙ e) in omega arith in
        let before = f.later i h in
        let after : times (draw i) (r.token ∷ s.written) ≡ 0 =
          ground (arith, before, other, eq_iff r.token (draw i)) in
        ap (times (draw i)) wrote ∙ after;
    once = λ t.
        let zero_times = f.unanswered id r found in
        let before = f.once t in
        let same : times t s'.written ≡ times t (r.token ∷ s.written) = ap (times t) wrote in
        let after : times t (r.token ∷ s.written) ≤ 1 = elim (Bool-cases (r.token == t)) [
          | inl hit ↦
              let e : r.token ≡ t = ground (arith, hit, eq_iff r.token t) in
              let none_yet : times t s.written ≡ 0 =
                ap (λ x. times x s.written) (sym e) ∙ zero_times in
              ground (arith, none_yet, hit)
          | inr miss ↦ ground (arith, before, miss)
        ] in
        omega arith;
  }

  -- What is left has another token than the one answered, once that one's entry is gone.
  others :
      (n : ℕ) (s s' : PromptState) (id : String) (r : PendingRequest)
      → lookup id s.requests ≡ some r
      → Thins s s'
      → ((x : PendingRequest) → lookup id s'.requests ≢ some x)
      → Fresh draw n s
      → (id' : String) (r' : PendingRequest) → lookup id' s'.requests ≡ some r'
      → r'.token ≢ r.token
  others n s s' id r found thins gone f id' r' h e =
      let (x, at_x, token, _) = thins id' r' h in
      let same = f.distinct id' id x r at_x found (token ∙ e) in
      gone r' (ap (λ k. lookup k s'.requests) (sym same) ∙ h)

  -- The offer that is written goes with its entry.
  transmitted-Fresh :
      (n : ℕ) (s s' : PromptState) (id : String) (r : PendingRequest)
      → lookup id s.requests ≡ some r
      → s'.requests ≡ delete id s.requests
      → s'.written ≡ r.token ∷ s.written
      → Fresh draw n s
      → Fresh draw n s'
  transmitted-Fresh n s s' id r found deleted wrote f =
      let thins : Thins s s' = λ k r' h.
        (r', ground (arith, lookup-delete id k s.requests, ap (lookup k) deleted), refl, refl) in
      Fresh-answered n s s' id r found thins wrote
        (others n s s' id r found thins
          (λ x h.
            ground (arith, h, lookup-delete id id s.requests, ap (lookup id) deleted, eq_refl id))
          f)
        f

  -- The offer that is handed to a connection that breaks goes with its generation.
  broke-Fresh :
      (n : ℕ) (s s' : PromptState) (id : String) (r : PendingRequest)
      → lookup id s.requests ≡ some r
      → s'.requests ≡ drop_generation r.generation s.requests s.requests
      → s'.written ≡ r.token ∷ s.written
      → Fresh draw n s
      → Fresh draw n s'
  broke-Fresh n s s' id r found dropped wrote f =
      let thins : Thins s s' = λ k r' h. (
        r',
        lookup-drop_generation r.generation s.requests s.requests k r'
            (ap (lookup k) (sym dropped) ∙ h),
        refl,
        refl,
      ) in
      Fresh-answered n s s' id r found thins wrote
        (others n s s' id r found thins
          (λ x h.
            drop_generation-gone r.generation s.requests s.requests id r x found refl
              (ap (lookup id) (sym dropped) ∙ h))
          f)
        f

  pub write_offer-Fresh :
      (n : ℕ) (writing : Writing) (request : PendingRequest) (s : PromptState)
      → Fresh draw n s
      → Fresh draw n (write_offer writing request s).1
  unfolding write_offer same_offer is_current mark_disconnected detach_connection bump_pending
  write_offer-Fresh n writing request s f = elim (Bool-cases (is_current s request)) [
    | inr stale ↦ Fresh-same draw n s (write_offer writing request s).1 (ground (arith, stale)) f
    | inl now ↦ elim (Option-cases (lookup request.id s.requests)) [
      | inl e ↦ Fresh-same draw n s (write_offer writing request s).1 (ground (arith, now, e)) f
      | inr (r, e) ↦
          elim (Bool-cases
            (r.claimed && same_offer r request && nat_eq r.connection request.connection)) [
              | inr refused ↦
                  Fresh-same draw n s (write_offer writing request s).1
                    (ground (arith, now, e, refused)) f
              | inl ours ↦
                  let token : r.token ≡ request.token =
                    ground (arith, ours, eq_iff r.token request.token) in
                  let generation : r.generation ≡ request.generation = ground (arith, ours) in
                  written_to r now e ours token generation writing
            ]
    ]
  ]
    where
      written_to :
          (r : PendingRequest)
          → is_current s request ≡ true
          → lookup request.id s.requests ≡ some r
          → (r.claimed && same_offer r request && nat_eq r.connection request.connection) ≡ true
          → r.token ≡ request.token
          → r.generation ≡ request.generation
          → (w : Writing) → Fresh draw n (write_offer w request s).1
      written_to r now e ours token generation ended =
          Fresh-same draw n s (write_offer ended request s).1 (ground (arith, now, e, ours)) f
      written_to r now e ours token generation (no_writer false) =
          Fresh-same draw n s (write_offer (no_writer false) request s).1
            (ground (arith, now, e, ours)) f
      written_to r now e ours token generation (no_writer true) =
          let gone = mark_disconnected request.connection request.generation s in
          Fresh-same draw n gone (write_offer (no_writer true) request s).1
            (ground (arith, now, e, ours))
            (Fresh-Thins draw n n s gone (omega arith)
              (mark_disconnected-Mild request.connection request.generation s) f)
      written_to r now e ours token generation broke =
          broke-Fresh n s (write_offer broke request s).1 request.id r e
            (ground (arith, now, e, ours, generation)) (ground (arith, now, e, ours, token)) f
      written_to r now e ours token generation transmitted =
          transmitted-Fresh n s (write_offer transmitted request s).1 request.id r e
            (ground (arith, now, e, ours)) (ground (arith, now, e, ours, token)) f

  -- A new offer has the next token, and takes the place of any that has its identity.
  admitted-Fresh :
      (n : ℕ) (request : PendingRequest) (s s' : PromptState)
      → request.token ≡ draw n
      → s'.requests ≡ insert request.id request s.requests
      → s'.written ≡ s.written
      → Fresh draw n s
      → Fresh draw (suc n) s'
  admitted-Fresh n request s s' token admitted silent f = record {
    drawn = λ k r' h. elim (inserted k r' h) [
      | inl (_, same) ↦ (n, omega arith, ap (λ r. r.token) same ∙ token)
      | inr old ↦ let (i, below, at) = f.drawn k r' old in (i, omega arith, at)
    ];
    named = λ k r' h. elim (inserted k r' h) [
      | inl (at, same) ↦ ap (λ r. r.id) same ∙ sym at
      | inr old ↦ f.named k r' old
    ];
    distinct = λ k k' a b ha hb e. elim (inserted k a ha) [
      | inl (at, same) ↦ elim (inserted k' b hb) [
        | inl (at', _) ↦ at ∙ sym at'
        | inr old' ↦ absurd (drawn_later k' b old' (sym e ∙ (ap (λ r. r.token) same ∙ token)))
      ]
      | inr old ↦ elim (inserted k' b hb) [
        | inl (_, same') ↦ absurd (drawn_later k a old (e ∙ (ap (λ r. r.token) same' ∙ token)))
        | inr old' ↦ f.distinct k k' a b old old' e
      ]
    ];
    unanswered = λ k r' h. elim (inserted k r' h) [
      | inl (_, same) ↦
          ap (λ t. times t s'.written) (ap (λ r. r.token) same ∙ token)
          ∙ (ap (times (draw n)) silent ∙ f.later n (omega arith))
      | inr old ↦ ap (times r'.token) silent ∙ f.unanswered k r' old
    ];
    later = λ i h. ap (times (draw i)) silent ∙ f.later i (omega arith);
    once = λ t.
        let e : times t s'.written ≡ times t s.written = ap (times t) silent in
        let o = f.once t in omega arith;
  }
    where
      inserted :
          (k : String) (r' : PendingRequest)
          → lookup k s'.requests ≡ some r'
          → ((k ≡ request.id) × (r' ≡ request)) ⊎ (lookup k s.requests ≡ some r')
      inserted k r' h = elim (Bool-cases (request.id == k)) [
        | inl hit ↦ inl (
          ground (arith, hit, eq_iff request.id k),
          ground (
            arith,
            h,
            hit,
            lookup-insert request.id k request s.requests,
            ap (lookup k) admitted,
          ),
        )
        | inr miss ↦ inr (
            ground (
              arith,
              h,
              miss,
              lookup-insert request.id k request s.requests,
              ap (lookup k) admitted,
            ))
      ]

      drawn_later :
          (k : String) (r : PendingRequest) → lookup k s.requests ≡ some r → r.token ≢ draw n
      drawn_later k r h e =
          let (i, below, at) = f.drawn k r h in let same = injective i n (sym at ∙ e) in omega arith

  pub admit_prompt-Fresh :
      (n : ℕ) (request : PendingRequest) (s : PromptState)
      → Fresh draw n s
      → Fresh draw (suc n) (admit_prompt (draw n) request s).1
  unfolding admit_prompt bump_pending
  admit_prompt-Fresh n request s f =
      elim (Bool-cases (
        is_current s request && elim (lookup request.id s.requests) [
          | none ↦ true
          | some r ↦ not (nat_eq r.generation request.generation)
        ])) [
          | inr refused ↦
              Fresh-Thins draw n (suc n) s (admit_prompt (draw n) request s).1 (omega arith)
                (Mild-unchanged s (admit_prompt (draw n) request s).1 (ground (arith, refused))) f
          | inl taken ↦
              admitted-Fresh n (record request { token = draw n }) s
                (admit_prompt (draw n) request s).1 refl (ground (arith, taken))
                (ground (arith, taken)) f
        ]
